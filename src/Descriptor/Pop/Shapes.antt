-- ===== src/Descriptor/Pop/Shapes.antt =====
-- The `switch` of `Pop` reads what one block of a description says.
use edgedb_go.Common.{
  ℕ, suc, ◌+◌, ◌^◌, ◌<◌, ◌≤◌, ◌≡◌, ap, subst, arith, if◌then◌else◌, ok, ◌>>=◌, Bool, true, false,
  some, >>=?-some, List, [], ◌∷◌, ◌++◌, length, get_elem?, get_elem?-none, le→leb,
}
use edgedb_go.Common.Bytes.{be_bytes}
use edgedb_go.Buff.Reader.{Reader}
use edgedb_go.Descriptor.{Descriptor, Fields, zero_descriptor, type_of, types, cardinality}
use edgedb_go.Descriptor.Version.{ProtocolVersion, gte}
use edgedb_go.Descriptor.Pop.{
  pop_required, object_field_loop, object_fields, tuple_field_loop, tuple_fields,
  named_tuple_field_loop, named_tuple_fields, pop_other, pop_case,
}
use edgedb_go.Descriptor.Reads.{
  Reads, Reads-bind, Reads-ok, Reads-last, Reads-uint8, Reads-uint16, Reads-bytes, Reads-discard,
  Reads-position, Reads-dimensions, Reads-enum,
}
use edgedb_go.Descriptor.Wire.{
  ObjectField, Shape, a_set, a_scalar, a_range, an_object, a_base_scalar, a_tuple, a_named_tuple,
  an_array, an_enum, an_annotation, code, positions_bytes, named_bytes, head_bytes, object_bytes,
  shape_bytes, tuple_meaning, named_meaning, required_meaning, object_meaning, meaning, AllSmall,
  AllNamed, AllFields, ShapeFits,
}

pub some-injective : {A : Type 0} {a b : A} → some a ≡ some b → a ≡ b
some-injective h = cc

-- Whether the version has cardinalities.
abbrev pub has_cards : ProtocolVersion → Bool
has_cards version = gte version (record { major = 0; minor = 11 })

module _ (ds : List Descriptor) where
  Reads-tuple_loop :
      (n : ℕ) (is : List ℕ) (fs : Fields)
      → AllSmall is
      → tuple_meaning ds n is ≡ some fs
      → Reads (tuple_field_loop ds (length is) n) (positions_bytes is) (λ r. (fs, r))
  unfolding tuple_field_loop
  Reads-tuple_loop n [] fs h e =
      subst (λ x. Reads (tuple_field_loop ds 0 n) [] (λ r. (x, r))) (some-injective e) (Reads-ok _)
  Reads-tuple_loop n (i ∷ is) fs (small, h) e =
      let (d, p, e₁) = >>=?-some (get_elem? ds i) _ fs e in
      let (fields, q, e₂) = >>=?-some (tuple_meaning ds (n + 1) is) _ fs e₁ in
      subst
        (λ x.
          Reads (tuple_field_loop ds (suc (length is)) n) (positions_bytes (i ∷ is)) (λ r. (x, r)))
        (some-injective e₂)
        (Reads-bind _ (Reads-position ds i d small p)
          (Reads-last _ (Reads-tuple_loop (n + 1) is fields h q)))

  Reads-named_loop :
      (xs : List (List ℕ × ℕ)) (fs : Fields)
      → AllNamed xs
      → named_meaning ds xs ≡ some fs
      → Reads (named_tuple_field_loop ds (length xs)) (named_bytes xs) (λ r. (fs, r))
  unfolding named_tuple_field_loop
  Reads-named_loop [] fs h e =
      subst (λ x. Reads (named_tuple_field_loop ds 0) [] (λ r. (x, r))) (some-injective e)
        (Reads-ok _)
  Reads-named_loop ((name, i) ∷ xs) fs (short, small, h) e =
      let (d, p, e₁) = >>=?-some (get_elem? ds i) _ fs e in
      let (fields, q, e₂) = >>=?-some (named_meaning ds xs) _ fs e₁ in
      subst
        (λ x.
          Reads (named_tuple_field_loop ds (suc (length xs))) (named_bytes ((name, i) ∷ xs))
            (λ r. (x, r)))
        (some-injective e₂)
        (Reads-bind _ (Reads-bytes name short) (
          Reads-bind _ (Reads-position ds i d small p)
            (Reads-last _ (Reads-named_loop xs fields h q))))

pub cardinality_lem :
    (card : ℕ) (required : Bool)
    → required_meaning true card ≡ some required
    → cardinality card ≡ ok required
unfolding cardinality
cardinality_lem card required h = ground arith

Reads-required :
    (version : ProtocolVersion) (cards : Bool) (f : ObjectField) (required : Bool)
    → has_cards version ≡ cards
    → length f.flags ≡ (if cards then 4 else 1)
    → f.card < 2 ^ 8
    → required_meaning cards f.card ≡ some required
    → Reads (pop_required version) (head_bytes cards f) (λ r. (required, r))
unfolding pop_required
Reads-required version true f required v n small e = record {
  reads = λ back r h. rw v (
      (Reads-bind _ (Reads-discard 4 f.flags n)
          (Reads-bind _ (Reads-uint8 f.card small) known)).reads
        back r h);
}
  where
    known :
        Reads {B = Bool × Reader}
          (λ r. cardinality f.card >>= λ b. ok (b, r))
          []
          (λ r. (required, r))
    known = record {
      reads = λ back r h.
          rw (cardinality_lem f.card required e) (ap (λ b. ok (required, record r { buf = b })) h);
    }
Reads-required version false f required v n small e = record {
  reads = λ back r h.
      rw (v, some-injective e) ((Reads-last _ (Reads-discard 1 f.flags n)).reads back r h);
}

module _ (version : ProtocolVersion) (cards : Bool) (v : has_cards version ≡ cards) where
  Reads-object_loop :
      (ds : List Descriptor) (xs : List ObjectField) (fs : Fields)
      → AllFields cards xs
      → object_meaning ds cards xs ≡ some fs
      → Reads (object_field_loop version ds (length xs)) (object_bytes cards xs) (λ r. (fs, r))
  unfolding object_field_loop
  Reads-object_loop ds [] fs h e =
      subst (λ x. Reads (object_field_loop version ds 0) [] (λ r. (x, r))) (some-injective e)
        (Reads-ok _)
  Reads-object_loop ds (f ∷ xs) fs (n, small_card, short, small, h) e =
      let (required, o, e₀) = >>=?-some (required_meaning cards f.card) _ fs e in
      let (d, p, e₁) = >>=?-some (get_elem? ds f.position) _ fs e₀ in
      let (fields, q, e₂) = >>=?-some (object_meaning ds cards xs) _ fs e₁ in
      subst
        (λ x.
          Reads (object_field_loop version ds (suc (length xs))) (object_bytes cards (f ∷ xs))
            (λ r. (x, r)))
        (some-injective e₂)
        (Reads-bind _ (Reads-required version cards f required v n small_card o) (
          Reads-bind _ (Reads-bytes f.name short) (
            Reads-bind _ (Reads-position ds f.position d small p)
              (Reads-last _ (Reads-object_loop ds xs fields h q)))))

  Reads-object :
      (ds : List Descriptor) (xs : List ObjectField) (fs : Fields)
      → length xs < 2 ^ 16
      → AllFields cards xs
      → object_meaning ds cards xs ≡ some fs
      → Reads
          (object_fields version ds)
          (be_bytes 2 (length xs) ++ object_bytes cards xs)
          (λ r. (fs, r))
  unfolding object_fields
  Reads-object ds xs fs n h e =
      Reads-bind _ (Reads-uint16 (length xs) n) (Reads-object_loop ds xs fs h e)

  abbrev pub Case : List Descriptor → List ℕ → Shape → Descriptor → Type 0
  Case ds id s d =
      Reads (pop_case version ds (code s) id (type_of (code s))) (shape_bytes cards s) (λ r. (d, r))

  Reads-annotation :
      (ds : List Descriptor) (id : List ℕ) (c : ℕ) (bytes : List ℕ)
      → 128 ≤ c
      → length bytes < 2 ^ 32
      → Case ds id (an_annotation c bytes) zero_descriptor
  unfolding pop_case type_of pop_other
  Reads-annotation ds id c bytes large h = record {
    reads = λ back r e.
        rw (get_elem?-none types c (omega arith), le→leb 128 c large)
          ((Reads-last _ (Reads-bytes bytes h)).reads back r e);
  }

  pub shape-Case :
      (ds : List Descriptor) (id : List ℕ) (s : Shape) (d : Descriptor)
      → ShapeFits cards s
      → meaning ds cards id s ≡ some d
      → Case ds id s d
  unfolding pop_case type_of tuple_fields named_tuple_fields
  shape-Case ds id (a_set i) d h e =
      let (x, p, e₁) = >>=?-some (get_elem? ds i) _ d e in
      subst (Case ds id (a_set i)) (some-injective e₁) (Reads-last _ (Reads-position ds i x h p))
  shape-Case ds id (a_scalar i) d h e =
      let (x, p, e₁) = >>=?-some (get_elem? ds i) _ d e in
      subst (Case ds id (a_scalar i)) (some-injective e₁) (Reads-last _ (Reads-position ds i x h p))
  shape-Case ds id (a_range i) d h e =
      let (x, p, e₁) = >>=?-some (get_elem? ds i) _ d e in
      subst (Case ds id (a_range i)) (some-injective e₁) (Reads-last _ (Reads-position ds i x h p))
  shape-Case ds id (an_object false xs) d (n, h) e =
      let (fs, p, e₁) = >>=?-some (object_meaning ds cards xs) _ d e in
      subst (Case ds id (an_object false xs)) (some-injective e₁)
        (Reads-last _ (Reads-object ds xs fs n h p))
  shape-Case ds id (an_object true xs) d (n, h) e =
      let (fs, p, e₁) = >>=?-some (object_meaning ds cards xs) _ d e in
      subst (Case ds id (an_object true xs)) (some-injective e₁)
        (Reads-last _ (Reads-object ds xs fs n h p))
  shape-Case ds id a_base_scalar d h e =
      subst (Case ds id a_base_scalar) (some-injective e) (Reads-ok _)
  shape-Case ds id (a_tuple is) d (n, h) e =
      let (fs, p, e₁) = >>=?-some (tuple_meaning ds 0 is) _ d e in
      subst (Case ds id (a_tuple is)) (some-injective e₁)
        (Reads-last _ (Reads-bind _ (Reads-uint16 (length is) n) (Reads-tuple_loop ds 0 is fs h p)))
  shape-Case ds id (a_named_tuple xs) d (n, h) e =
      let (fs, p, e₁) = >>=?-some (named_meaning ds xs) _ d e in
      subst (Case ds id (a_named_tuple xs)) (some-injective e₁)
        (Reads-last _ (Reads-bind _ (Reads-uint16 (length xs) n) (Reads-named_loop ds xs fs h p)))
  shape-Case ds id (an_array i dimensions) d (small, n, some_dimension) e =
      let (x, p, e₁) = >>=?-some (get_elem? ds i) _ d e in
      subst (Case ds id (an_array i dimensions)) (some-injective e₁) (
        Reads-bind _ (Reads-position ds i x small p)
          (Reads-last _ (Reads-dimensions dimensions n some_dimension)))
  shape-Case ds id (an_enum names) d (n, h) e =
      subst (Case ds id (an_enum names)) (some-injective e) (Reads-last _ (Reads-enum names n h))
  shape-Case ds id (an_annotation c bytes) d (large, small, h) e =
      subst (Case ds id (an_annotation c bytes)) (some-injective e)
        (Reads-annotation ds id c bytes large h)
