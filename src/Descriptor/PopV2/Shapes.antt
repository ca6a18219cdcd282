-- ===== src/Descriptor/PopV2/Shapes.antt =====
-- The `switch` of `PopV2` reads what one block of a description says.
use edgedb_go.Common.{
  ℕ, ◌^◌, ◌<◌, ◌≤◌, ◌≡◌, subst, arith, if◌then◌else◌, Bool, true, false, some, >>=?-some, List,
  length, get_elem?, get_elem?-none, le→leb,
}
use edgedb_go.Descriptor.{type_of, types}
use edgedb_go.Descriptor.PopV2.{V2, zero_v2, pop_other, pop_case}
use edgedb_go.Descriptor.Pop.Shapes.{some-injective}
use edgedb_go.Descriptor.Reads.{
  Reads, Reads-known, Reads-bind, Reads-last, Reads-uint8, Reads-uint16, Reads-bytes,
  Reads-position, Reads-dimensions, Reads-enum,
}
use edgedb_go.Descriptor.WireV2.{
  Shape, a_set, an_object, an_input, a_scalar, a_tuple, a_named_tuple, an_array, an_enum, a_range,
  a_multi_range, an_object_shape, a_compound, an_sql_record, an_annotation, code, shape_bytes,
  listed_meaning, numbered_meaning, named_meaning, object_meaning, meaning, ShapeFits,
}
use edgedb_go.Descriptor.PopV2.FieldLists.{
  Reads-name, union_lem, Reads-listed, Reads-numbered, Reads-named, Reads-objects,
}

operation-small : (union : Bool) → (if union then 1 else 2) < 256
operation-small true = omega arith
operation-small false = omega arith

module _ (ds : List V2) where
  abbrev pub Case : List ℕ → Shape → V2 → Type 0
  Case id s d = Reads (pop_case ds (code s) id (type_of (code s))) (shape_bytes s) (λ r. (d, r))

  Reads-annotation :
      (id : List ℕ) (c : ℕ) (bytes : List ℕ)
      → 128 ≤ c
      → length bytes < 2 ^ 32
      → Case id (an_annotation c bytes) zero_v2
  unfolding pop_case type_of pop_other
  Reads-annotation id c bytes large h = record {
    reads = λ back r e.
        rw (get_elem?-none types c (omega arith), le→leb 128 c large)
          ((Reads-last _ (Reads-bytes bytes h)).reads back r e);
  }

  pub shape-Case :
      (id : List ℕ) (s : Shape) (d : V2) → ShapeFits s → meaning ds id s ≡ some d → Case id s d
  unfolding pop_case type_of
  shape-Case id (a_set i) d h e =
      let (x, p, e₁) = >>=?-some (get_elem? ds i) _ d e in
      subst (Case id (a_set i)) (some-injective e₁) (Reads-last _ (Reads-position ds i x h p))
  shape-Case id (an_object b t xs) d (small, small', h) e =
      let (fs, p, e₁) = >>=?-some (object_meaning ds xs) _ d e in
      subst (Case id (an_object b t xs)) (some-injective e₁) (
        Reads-bind _ (Reads-uint8 b small)
          (Reads-bind _ (Reads-uint16 t small') (Reads-last _ (Reads-objects ds false xs fs h p))))
  shape-Case id (an_input xs) d h e =
      let (fs, p, e₁) = >>=?-some (object_meaning ds xs) _ d e in
      subst (Case id (an_input xs)) (some-injective e₁)
        (Reads-last _ (Reads-objects ds true xs fs h p))
  shape-Case id (a_scalar hd ps) d (head, h) e =
      let (a, p, e₁) = >>=?-some (listed_meaning ds false ps) _ d e in
      subst (Case id (a_scalar hd ps)) (some-injective e₁)
        (Reads-bind _ (Reads-name hd head) (Reads-last _ (Reads-listed ds false ps a h p)))
  shape-Case id (a_tuple hd ps is) d (head, h, h') e =
      let (a, p, e₀) = >>=?-some (numbered_meaning ds 0 ps) _ d e in
      let (fs, q, e₁) = >>=?-some (numbered_meaning ds 0 is) _ d e₀ in
      subst (Case id (a_tuple hd ps is)) (some-injective e₁) (
        Reads-bind _ (Reads-name hd head)
          (Reads-bind _ (Reads-numbered ds ps a h p) (Reads-last _ (Reads-numbered ds is fs h' q))))
  shape-Case id (a_named_tuple hd ps xs) d (head, h, h') e =
      let (a, p, e₀) = >>=?-some (numbered_meaning ds 0 ps) _ d e in
      let (fs, q, e₁) = >>=?-some (named_meaning ds false xs) _ d e₀ in
      subst (Case id (a_named_tuple hd ps xs)) (some-injective e₁) (
        Reads-bind _ (Reads-name hd head) (
          Reads-bind _ (Reads-numbered ds ps a h p)
            (Reads-last _ (Reads-named ds false xs fs h' q))))
  shape-Case id (an_array hd ps i dimensions) d (head, h, small, n, some_dimension) e =
      let (a, p, e₀) = >>=?-some (listed_meaning ds false ps) _ d e in
      let (x, q, e₁) = >>=?-some (get_elem? ds i) _ d e₀ in
      subst (Case id (an_array hd ps i dimensions)) (some-injective e₁) (
        Reads-bind _ (Reads-name hd head) (
          Reads-bind _ (Reads-listed ds false ps a h p) (
            Reads-bind _ (Reads-position ds i x small q)
              (Reads-last _ (Reads-dimensions dimensions n some_dimension)))))
  shape-Case id (an_enum hd ps names) d (head, h, n, h') e =
      let (a, p, e₁) = >>=?-some (listed_meaning ds false ps) _ d e in
      subst (Case id (an_enum hd ps names)) (some-injective e₁) (
        Reads-bind _ (Reads-name hd head)
          (Reads-bind _ (Reads-listed ds false ps a h p) (Reads-last _ (Reads-enum names n h'))))
  shape-Case id (a_range hd ps i) d (head, h, small) e =
      let (a, p, e₀) = >>=?-some (listed_meaning ds false ps) _ d e in
      let (x, q, e₁) = >>=?-some (get_elem? ds i) _ d e₀ in
      subst (Case id (a_range hd ps i)) (some-injective e₁) (
        Reads-bind _ (Reads-name hd head) (
          Reads-bind _ (Reads-listed ds false ps a h p)
            (Reads-last _ (Reads-position ds i x small q))))
  shape-Case id (a_multi_range hd ps i) d (head, h, small) e =
      let (a, p, e₀) = >>=?-some (listed_meaning ds false ps) _ d e in
      let (x, q, e₁) = >>=?-some (get_elem? ds i) _ d e₀ in
      subst (Case id (a_multi_range hd ps i)) (some-injective e₁) (
        Reads-bind _ (Reads-name hd head) (
          Reads-bind _ (Reads-listed ds false ps a h p)
            (Reads-last _ (Reads-position ds i x small q))))
  shape-Case id (an_object_shape hd) d head e =
      subst (Case id (an_object_shape hd)) (some-injective e) (Reads-last _ (Reads-name hd head))
  shape-Case id (a_compound hd union is) d (head, h) e =
      let (fs, p, e₁) = >>=?-some (listed_meaning ds union is) _ d e in
      subst (Case id (a_compound hd union is)) (some-injective e₁) (
        Reads-bind _ (Reads-name hd head) (
          Reads-bind _ (Reads-uint8 (if union then 1 else 2) (operation-small union))
            (Reads-known _ (union_lem union) (Reads-last _ (Reads-listed ds union is fs h p)))))
  shape-Case id (an_sql_record xs) d h e =
      let (fs, p, e₁) = >>=?-some (named_meaning ds true xs) _ d e in
      subst (Case id (an_sql_record xs)) (some-injective e₁)
        (Reads-last _ (Reads-named ds true xs fs h p))
  shape-Case id (an_annotation c bytes) d (large, small, h) e =
      subst (Case id (an_annotation c bytes)) (some-injective e)
        (Reads-annotation id c bytes large h)
