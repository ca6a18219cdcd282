-- ===== src/Descriptor/PopV2/FieldLists.antt =====
-- The functions below `PopV2` read the lists of fields that a description says.
use edgedb_go.Common.{
  ℕ, suc, ◌+◌, ◌^◌, ◌<◌, ◌≡◌, refl, subst, if◌then◌else◌, ok, Bool, true, false, some, >>=?-some,
  List, [], ◌∷◌, length, get_elem?,
}
use edgedb_go.Descriptor.PopV2.{
  V2, FieldsV2, scalar_field_loop, numbered_field_loop, named_field_loop, pop_source_type,
  object_field_loop, scalar_fields, numbered_fields, named_fields, object_fields, pop_name,
  union_operation,
}
use edgedb_go.Descriptor.Pop.Shapes.{some-injective, cardinality_lem}
use edgedb_go.Descriptor.Reads.{
  Reads, Reads-bind, Reads-known, Reads-ok, Reads-last, Reads-uint8, Reads-uint16, Reads-bytes,
  Reads-discard, Reads-position,
}
use edgedb_go.Descriptor.Wire.{
  ObjectField, positions_bytes, named_bytes, required_meaning, AllSmall, AllNamed,
}
use edgedb_go.Descriptor.WireV2.{
  Head, name_bytes, counted, named, source_bytes, object_bytes, objects, listed_meaning,
  numbered_meaning, named_meaning, object_meaning, HeadFits, Positions, Names, AllFields, Objects,
}

pub Reads-name : (h : Head) → HeadFits h → Reads pop_name (name_bytes h) (λ r. (h.name, r))
unfolding pop_name
Reads-name h (short, small) =
    Reads-bind _ (Reads-bytes h.name short) (Reads-last _ (Reads-uint8 h.schema_defined small))

Reads-source :
    (input : Bool) (source : ℕ)
    → source < 2 ^ 16
    → Reads (pop_source_type input) (source_bytes input source) (λ r. r)
unfolding pop_source_type
Reads-source true source h = Reads-ok _
Reads-source false source h = Reads-last _ (Reads-uint16 source h)

pub union_lem : (union : Bool) → union_operation (if union then 1 else 2) ≡ ok union
unfolding union_operation
union_lem true = refl
union_lem false = refl

module _ (ds : List V2) where
  Reads-listed_loop :
      (union : Bool) (is : List ℕ) (fs : FieldsV2)
      → AllSmall is
      → listed_meaning ds union is ≡ some fs
      → Reads (scalar_field_loop ds union (length is)) (positions_bytes is) (λ r. (fs, r))
  unfolding scalar_field_loop
  Reads-listed_loop union [] fs h e =
      subst (λ x. Reads (scalar_field_loop ds union 0) [] (λ r. (x, r))) (some-injective e)
        (Reads-ok _)
  Reads-listed_loop union (i ∷ is) fs (small, h) e =
      let (d, p, e₁) = >>=?-some (get_elem? ds i) _ fs e in
      let (fields, q, e₂) = >>=?-some (listed_meaning ds union is) _ fs e₁ in
      subst
        (λ x.
          Reads (scalar_field_loop ds union (suc (length is))) (positions_bytes (i ∷ is))
            (λ r. (x, r)))
        (some-injective e₂)
        (Reads-bind _ (Reads-position ds i d small p)
          (Reads-last _ (Reads-listed_loop union is fields h q)))

  Reads-numbered_loop :
      (n : ℕ) (is : List ℕ) (fs : FieldsV2)
      → AllSmall is
      → numbered_meaning ds n is ≡ some fs
      → Reads (numbered_field_loop ds (length is) n) (positions_bytes is) (λ r. (fs, r))
  unfolding numbered_field_loop
  Reads-numbered_loop n [] fs h e =
      subst (λ x. Reads (numbered_field_loop ds 0 n) [] (λ r. (x, r))) (some-injective e)
        (Reads-ok _)
  Reads-numbered_loop n (i ∷ is) fs (small, h) e =
      let (d, p, e₁) = >>=?-some (get_elem? ds i) _ fs e in
      let (fields, q, e₂) = >>=?-some (numbered_meaning ds (n + 1) is) _ fs e₁ in
      subst
        (λ x.
          Reads (numbered_field_loop ds (suc (length is)) n) (positions_bytes (i ∷ is))
            (λ r. (x, r)))
        (some-injective e₂)
        (Reads-bind _ (Reads-position ds i d small p)
          (Reads-last _ (Reads-numbered_loop (n + 1) is fields h q)))

  Reads-named_loop :
      (required : Bool) (xs : List (List ℕ × ℕ)) (fs : FieldsV2)
      → AllNamed xs
      → named_meaning ds required xs ≡ some fs
      → Reads (named_field_loop ds required (length xs)) (named_bytes xs) (λ r. (fs, r))
  unfolding named_field_loop
  Reads-named_loop required [] fs h e =
      subst (λ x. Reads (named_field_loop ds required 0) [] (λ r. (x, r))) (some-injective e)
        (Reads-ok _)
  Reads-named_loop required ((name, i) ∷ xs) fs (short, small, h) e =
      let (d, p, e₁) = >>=?-some (get_elem? ds i) _ fs e in
      let (fields, q, e₂) = >>=?-some (named_meaning ds required xs) _ fs e₁ in
      subst
        (λ x.
          Reads (named_field_loop ds required (suc (length xs))) (named_bytes ((name, i) ∷ xs))
            (λ r. (x, r)))
        (some-injective e₂)
        (Reads-bind _ (Reads-bytes name short) (
          Reads-bind _ (Reads-position ds i d small p)
            (Reads-last _ (Reads-named_loop required xs fields h q))))

  Reads-object_loop :
      (input : Bool) (xs : List (ObjectField × ℕ)) (fs : FieldsV2)
      → AllFields xs
      → object_meaning ds xs ≡ some fs
      → Reads (object_field_loop ds input (length xs)) (object_bytes input xs) (λ r. (fs, r))
  unfolding object_field_loop
  Reads-object_loop input [] fs h e =
      subst (λ x. Reads (object_field_loop ds input 0) [] (λ r. (x, r))) (some-injective e)
        (Reads-ok _)
  Reads-object_loop input ((f, source) ∷ xs) fs (n, small_card, short, small, small_source, h) e =
      let (required, o, e₀) = >>=?-some (required_meaning true f.card) _ fs e in
      let (d, p, e₁) = >>=?-some (get_elem? ds f.position) _ fs e₀ in
      let (fields, q, e₂) = >>=?-some (object_meaning ds xs) _ fs e₁ in
      subst
        (λ x.
          Reads (object_field_loop ds input (suc (length xs)))
            (object_bytes input ((f, source) ∷ xs)) (λ r. (x, r)))
        (some-injective e₂)
        (Reads-bind _ (Reads-discard 4 f.flags n) (
          Reads-bind _ (Reads-uint8 f.card small_card) (
            Reads-known _ (cardinality_lem f.card required o) (
              Reads-bind _ (Reads-bytes f.name short) (
                Reads-bind _ (Reads-position ds f.position d small p) (
                  Reads-bind _ (Reads-source input source small_source)
                    (Reads-last _ (Reads-object_loop input xs fields h q))))))))

  pub Reads-listed :
      (union : Bool) (is : List ℕ) (fs : FieldsV2)
      → Positions is
      → listed_meaning ds union is ≡ some fs
      → Reads (scalar_fields ds union) (counted is) (λ r. (fs, r))
  unfolding scalar_fields
  Reads-listed union is fs (n, h) e =
      Reads-bind _ (Reads-uint16 (length is) n) (Reads-listed_loop union is fs h e)

  pub Reads-numbered :
      (is : List ℕ) (fs : FieldsV2)
      → Positions is
      → numbered_meaning ds 0 is ≡ some fs
      → Reads (numbered_fields ds) (counted is) (λ r. (fs, r))
  unfolding numbered_fields
  Reads-numbered is fs (n, h) e =
      Reads-bind _ (Reads-uint16 (length is) n) (Reads-numbered_loop 0 is fs h e)

  pub Reads-named :
      (required : Bool) (xs : List (List ℕ × ℕ)) (fs : FieldsV2)
      → Names xs
      → named_meaning ds required xs ≡ some fs
      → Reads (named_fields ds required) (named xs) (λ r. (fs, r))
  unfolding named_fields
  Reads-named required xs fs (n, h) e =
      Reads-bind _ (Reads-uint16 (length xs) n) (Reads-named_loop required xs fs h e)

  pub Reads-objects :
      (input : Bool) (xs : List (ObjectField × ℕ)) (fs : FieldsV2)
      → Objects xs
      → object_meaning ds xs ≡ some fs
      → Reads (object_fields ds input) (objects input xs) (λ r. (fs, r))
  unfolding object_fields
  Reads-objects input xs fs (n, h) e =
      Reads-bind _ (Reads-uint16 (length xs) n) (Reads-object_loop input xs fs h e)
