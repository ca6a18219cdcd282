-- ===== src/Descriptor/PopV2.antt =====
-- internal/descriptor/descriptor_v2.go: `PopV2`, which reads the descriptions of protocol 2.
pub mod Calls
pub mod Fuel
pub mod FieldLists
pub mod Shapes
pub mod RoundTrip
use edgedb_go.Common.{
  ℕ, zero, suc, ◌+◌, ◌==◌, leb, length, if◌then◌else◌, Outcome, ok, err, ◌>>=◌, lift, Bool, true,
  false, Option, none, some, List, [], ◌∷◌, ◌++◌,
}
use edgedb_go.Buff.Reader.{Reader, pop_uint8, pop_uint16, pop_uint32, pop_uuid, pop_bytes, discard}
use edgedb_go.Descriptor.{
  DescriptorType, set, object, base_scalar, scalar, tuple, named_tuple, array, enum, input_shape,
  range, object_shape, compound, multi_range, sql_record, type_of, id_zero, PopError, Popped,
  unknown_descriptor_type, unexpected_operation, out_of_fuel, itoa, pop_position, cardinality,
  assert_array_dimensions, discard_enum_member_names,
}
use edgedb_go.Descriptor.Pop.{last}

-- The type, the ID, the name, whether it is defined by the schema, the ancestors, and the fields.
mutual
  pub data V2 : Type 0 where
    v2 : DescriptorType → List ℕ → List ℕ → Bool → FieldsV2 → FieldsV2 → V2

  -- A field has a name, a descriptor, whether it is required, and whether it is part of a union.
  pub data FieldsV2 : Type 0 where
    no_fields : FieldsV2
    field : List ℕ → V2 → Bool → Bool → FieldsV2 → FieldsV2

-- `V2{}`
abbrev pub zero_v2 : V2
zero_v2 = v2 set id_zero [] false no_fields no_fields

abbrev pub only : V2 → FieldsV2
only d = field [] d false false no_fields

-- `if !input { r.PopUint16() }`
pop_source_type : Bool → Reader → Popped Reader
pop_source_type true r = ok r
pop_source_type false r = do (source, r₁) ← lift (pop_uint16 r); ok r₁

-- `r.PopString()` and `r.PopUint8()`, and then the ancestors.
unfoldable pub pop_name : Reader → Popped (List ℕ × Reader)
pop_name r = do
  (name, r₁) ← lift (pop_bytes r)
  (schema_defined, r₂) ← lift (pop_uint8 r₁)
  ok (name, r₂)

-- The operation of a compound type: whether it is a union.
unfoldable pub union_operation : ℕ → Popped Bool
union_operation t =
    if t == 1 then ok true else if t == 2 then ok false else err (unexpected_operation t)

unfoldable pub pop_other : ℕ → Reader → Popped (V2 × Reader)
pop_other typ r =
    if leb 0x80 typ
    then (do (text, r₁) ← lift (pop_bytes r); ok (zero_v2, r₁))
    else err (unknown_descriptor_type typ)

module _ (ds : List V2) where
  -- The loops of the functions below, each with `n` fields more to read.
  scalar_field_loop : Bool → ℕ → Reader → Popped (FieldsV2 × Reader)
  unfolding pop_position
  scalar_field_loop union zero r = ok (no_fields, r)
  scalar_field_loop union (suc n) r = do
    (d, r₁) ← pop_position ds r
    (fields, r₂) ← scalar_field_loop union n r₁
    ok (field [] d false union fields, r₂)

  numbered_field_loop : ℕ → ℕ → Reader → Popped (FieldsV2 × Reader)
  unfolding pop_position itoa
  numbered_field_loop zero i r = ok (no_fields, r)
  numbered_field_loop (suc n) i r = do
    (d, r₁) ← pop_position ds r
    (fields, r₂) ← numbered_field_loop n (i + 1) r₁
    ok (field (itoa i) d false false fields, r₂)

  named_field_loop : Bool → ℕ → Reader → Popped (FieldsV2 × Reader)
  unfolding pop_position
  named_field_loop required zero r = ok (no_fields, r)
  named_field_loop required (suc n) r = do
    (name, r₁) ← lift (pop_bytes r)
    (d, r₂) ← pop_position ds r₁
    (fields, r₃) ← named_field_loop required n r₂
    ok (field name d required false fields, r₃)

  object_field_loop : Bool → ℕ → Reader → Popped (FieldsV2 × Reader)
  unfolding cardinality pop_position pop_source_type
  object_field_loop input zero r = ok (no_fields, r)
  object_field_loop input (suc n) r = do
    r₁ ← lift (discard 4 r)
    (card, r₂) ← lift (pop_uint8 r₁)
    required ← cardinality card
    (name, r₃) ← lift (pop_bytes r₂)
    (d, r₄) ← pop_position ds r₃
    r₅ ← pop_source_type input r₄
    (fields, r₆) ← object_field_loop input n r₅
    ok (field name d required false fields, r₆)

  unfoldable pub scalar_fields : Bool → Reader → Popped (FieldsV2 × Reader)
  unfolding scalar_field_loop
  scalar_fields union r = do (n, r₁) ← lift (pop_uint16 r); scalar_field_loop union n r₁

  unfoldable pub numbered_fields : Reader → Popped (FieldsV2 × Reader)
  unfolding numbered_field_loop
  numbered_fields r = do (n, r₁) ← lift (pop_uint16 r); numbered_field_loop n 0 r₁

  unfoldable pub named_fields : Bool → Reader → Popped (FieldsV2 × Reader)
  unfolding named_field_loop
  named_fields required r = do (n, r₁) ← lift (pop_uint16 r); named_field_loop required n r₁

  unfoldable pub object_fields : Bool → Reader → Popped (FieldsV2 × Reader)
  unfolding object_field_loop
  object_fields input r = do (n, r₁) ← lift (pop_uint16 r); object_field_loop input n r₁

  -- The `switch` of `PopV2`. A named tuple gets the type of a tuple.
  pub pop_case : ℕ → List ℕ → Option DescriptorType → Reader → Popped (V2 × Reader)
  unfolding pop_position scalar_fields numbered_fields named_fields object_fields pop_name
      union_operation pop_other
  pop_case typ id (some set) r = do
    (d, r₁) ← pop_position ds r
    ok (v2 set id [] false no_fields (only d), r₁)
  pop_case typ id (some object) r = do
    (schema_defined, r₁) ← lift (pop_uint8 r)
    (object_type, r₂) ← lift (pop_uint16 r₁)
    (fields, r₃) ← object_fields false r₂
    ok (v2 object id [] true no_fields fields, r₃)
  pop_case typ id (some scalar) r = do
    (name, r₁) ← pop_name r
    (ancestors, r₂) ← scalar_fields false r₁
    ok (v2 scalar id name true ancestors no_fields, r₂)
  pop_case typ id (some tuple) r = do
    (name, r₁) ← pop_name r
    (ancestors, r₂) ← numbered_fields r₁
    (fields, r₃) ← numbered_fields r₂
    ok (v2 tuple id name true ancestors fields, r₃)
  pop_case typ id (some named_tuple) r = do
    (name, r₁) ← pop_name r
    (ancestors, r₂) ← numbered_fields r₁
    (fields, r₃) ← named_fields false r₂
    ok (v2 tuple id name true ancestors fields, r₃)
  pop_case typ id (some array) r = do
    (name, r₁) ← pop_name r
    (ancestors, r₂) ← scalar_fields false r₁
    (d, r₃) ← pop_position ds r₂
    r₄ ← assert_array_dimensions r₃
    ok (v2 array id name true ancestors (only d), r₄)
  pop_case typ id (some enum) r = do
    (name, r₁) ← pop_name r
    (ancestors, r₂) ← scalar_fields false r₁
    r₃ ← discard_enum_member_names r₂
    ok (v2 enum id name true ancestors no_fields, r₃)
  pop_case typ id (some input_shape) r = do
    (fields, r₁) ← object_fields true r
    ok (v2 input_shape id [] true no_fields fields, r₁)
  pop_case typ id (some range) r = do
    (name, r₁) ← pop_name r
    (ancestors, r₂) ← scalar_fields false r₁
    (d, r₃) ← pop_position ds r₂
    ok (v2 range id name true ancestors (only d), r₃)
  pop_case typ id (some object_shape) r = do
    (name, r₁) ← pop_name r
    ok (v2 object_shape id name true no_fields no_fields, r₁)
  pop_case typ id (some compound) r = do
    (name, r₁) ← pop_name r
    (t, r₂) ← lift (pop_uint8 r₁)
    union ← union_operation t
    (fields, r₃) ← scalar_fields union r₂
    ok (v2 compound id name true no_fields fields, r₃)
  pop_case typ id (some multi_range) r = do
    (name, r₁) ← pop_name r
    (ancestors, r₂) ← scalar_fields false r₁
    (d, r₃) ← pop_position ds r₂
    ok (
      v2 multi_range id name true ancestors (only (v2 range id_zero [] false no_fields (only d))),
      r₃,
    )
  pop_case typ id (some sql_record) r = do
    (fields, r₁) ← named_fields true r
    ok (v2 sql_record id [] false no_fields fields, r₁)
  pop_case typ id _ r = pop_other typ r

  -- A round of the loop, up to `append`. The length in front of a descriptor is not used.
  unfoldable pub pop_one : Reader → Popped (V2 × Reader)
  unfolding pop_case type_of
  pop_one r = do
    (size, r₁) ← lift (pop_uint32 r)
    (typ, r₂) ← lift (pop_uint8 r₁)
    (id, r₃) ← lift (pop_uuid r₂)
    pop_case typ id (type_of typ) r₃

unfoldable pub pop_loop : ℕ → List V2 → Reader → Popped (V2 × Reader)
unfolding pop_one
pop_loop zero ds r = err out_of_fuel
pop_loop (suc fuel) ds r =
    if length r.buf == 0
    then (do d ← last ds; ok (d, r))
    else (do (d, r₁) ← pop_one ds r; pop_loop fuel (ds ++ d ∷ []) r₁)

-- `PopV2`, with what it leaves of the reader.
unfoldable pub pop_v2 : Reader → Popped (V2 × Reader)
unfolding pop_loop
pop_v2 r =
    if length r.buf == 0
    then ok (v2 tuple id_zero [] false no_fields no_fields, r)
    else pop_loop (length r.buf + 1) [] r
