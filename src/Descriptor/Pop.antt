-- ===== src/Descriptor/Pop.antt =====
-- internal/descriptor/descriptor.go: `Pop`. Its loop runs on fuel: the number of bytes and one more
-- round is more than it takes, as each round reads a byte at least.
pub mod Shapes
pub mod RoundTrip
pub mod Calls
pub mod Fuel
use edgedb_go.Common.{
  ℕ, zero, suc, ◌+◌, ◌==◌, leb, length, if◌then◌else◌, Outcome, ok, err, panic, ◌>>=◌, lift, Bool,
  true, false, Option, none, some, List, [], ◌∷◌, ◌++◌,
}
use edgedb_go.Buff.Reader.{Reader, pop_uint8, pop_uint16, pop_uuid, pop_bytes, discard}
use edgedb_go.Descriptor.{
  DescriptorType, set, object, base_scalar, scalar, tuple, named_tuple, array, enum, input_shape,
  range, type_of, Descriptor, descriptor, Fields, no_fields, field, only, zero_descriptor, id_zero,
  Popped, unknown_descriptor_type, out_of_fuel, itoa, pop_position, cardinality,
  assert_array_dimensions, discard_enum_member_names,
}
use edgedb_go.Descriptor.Version.{ProtocolVersion, gte}

-- Whether a field is required.
unfoldable pub pop_required : ProtocolVersion → Reader → Popped (Bool × Reader)
unfolding cardinality
pop_required version r =
    if gte version (record { major = 0; minor = 11 })
    then (do
      r₁ ← lift (discard 4 r)
      (card, r₂) ← lift (pop_uint8 r₁)
      required ← cardinality card
      ok (required, r₂))
    else (do r₁ ← lift (discard 1 r); ok (true, r₁))

module _ (version : ProtocolVersion) (ds : List Descriptor) where
  -- The loops of `objectFields`, `tupleFields` and `namedTupleFields`: `n` fields more.
  pub object_field_loop : ℕ → Reader → Popped (Fields × Reader)
  unfolding pop_required pop_position
  object_field_loop zero r = ok (no_fields, r)
  object_field_loop (suc n) r = do
    (required, r₁) ← pop_required version r
    (name, r₂) ← lift (pop_bytes r₁)
    (d, r₃) ← pop_position ds r₂
    (fields, r₄) ← object_field_loop n r₃
    ok (field name d required fields, r₄)

  unfoldable pub object_fields : Reader → Popped (Fields × Reader)
  unfolding object_field_loop
  object_fields r = do (n, r₁) ← lift (pop_uint16 r); object_field_loop n r₁

module _ (ds : List Descriptor) where
  pub tuple_field_loop : ℕ → ℕ → Reader → Popped (Fields × Reader)
  unfolding pop_position itoa
  tuple_field_loop zero i r = ok (no_fields, r)
  tuple_field_loop (suc n) i r = do
    (d, r₁) ← pop_position ds r
    (fields, r₂) ← tuple_field_loop n (i + 1) r₁
    ok (field (itoa i) d false fields, r₂)

  unfoldable pub tuple_fields : Reader → Popped (Fields × Reader)
  unfolding tuple_field_loop
  tuple_fields r = do (n, r₁) ← lift (pop_uint16 r); tuple_field_loop n 0 r₁

  pub named_tuple_field_loop : ℕ → Reader → Popped (Fields × Reader)
  unfolding pop_position
  named_tuple_field_loop zero r = ok (no_fields, r)
  named_tuple_field_loop (suc n) r = do
    (name, r₁) ← lift (pop_bytes r)
    (d, r₂) ← pop_position ds r₁
    (fields, r₃) ← named_tuple_field_loop n r₂
    ok (field name d false fields, r₃)

  unfoldable pub named_tuple_fields : Reader → Popped (Fields × Reader)
  unfolding named_tuple_field_loop
  named_tuple_fields r = do (n, r₁) ← lift (pop_uint16 r); named_tuple_field_loop n r₁

-- The default of the `switch`: an annotation leaves `desc` as it is.
unfoldable pub pop_other : ℕ → Reader → Popped (Descriptor × Reader)
pop_other typ r =
    if leb 0x80 typ
    then (do (text, r₁) ← lift (pop_bytes r); ok (zero_descriptor, r₁))
    else err (unknown_descriptor_type typ)

-- The `switch` of `Pop`.
pub pop_case :
    ProtocolVersion
    → List Descriptor
    → ℕ
    → List ℕ
    → Option DescriptorType
    → Reader
    → Popped (Descriptor × Reader)
unfolding pop_other object_fields tuple_fields named_tuple_fields pop_position
pop_case version ds typ id (some set) r = do
  (d, r₁) ← pop_position ds r
  ok (descriptor set id (only d), r₁)
pop_case version ds typ id (some object) r = do
  (fields, r₁) ← object_fields version ds r
  ok (descriptor object id fields, r₁)
pop_case version ds typ id (some input_shape) r = do
  (fields, r₁) ← object_fields version ds r
  ok (descriptor input_shape id fields, r₁)
pop_case version ds typ id (some base_scalar) r = ok (descriptor base_scalar id no_fields, r)
pop_case version ds typ id (some scalar) r = do
  (d, r₁) ← pop_position ds r
  ok (descriptor scalar id (only d), r₁)
pop_case version ds typ id (some tuple) r = do
  (fields, r₁) ← tuple_fields ds r
  ok (descriptor tuple id fields, r₁)
pop_case version ds typ id (some named_tuple) r = do
  (fields, r₁) ← named_tuple_fields ds r
  ok (descriptor named_tuple id fields, r₁)
pop_case version ds typ id (some array) r = do
  (d, r₁) ← pop_position ds r
  r₂ ← assert_array_dimensions r₁
  ok (descriptor array id (only d), r₂)
pop_case version ds typ id (some enum) r = do
  r₁ ← discard_enum_member_names r
  ok (descriptor enum id no_fields, r₁)
pop_case version ds typ id (some range) r = do
  (d, r₁) ← pop_position ds r
  ok (descriptor range id (only d), r₁)
pop_case version ds typ id _ r = pop_other typ r

-- A round of the loop, up to `append`.
unfoldable pub pop_one : ProtocolVersion → List Descriptor → Reader → Popped (Descriptor × Reader)
unfolding pop_case type_of
pop_one version ds r = do
  (typ, r₁) ← lift (pop_uint8 r)
  (id, r₂) ← lift (pop_uuid r₁)
  pop_case version ds typ id (type_of typ) r₂

-- `descriptors[len(descriptors)-1]`
abbrev pub last : {A : Type 0} → List A → Popped A
last [] = panic
last (d ∷ []) = ok d
last (d ∷ (e ∷ ds)) = last (e ∷ ds)

unfoldable pub pop_loop :
    ℕ → ProtocolVersion → List Descriptor → Reader → Popped (Descriptor × Reader)
unfolding pop_one
pop_loop zero version ds r = err out_of_fuel
pop_loop (suc fuel) version ds r =
    if length r.buf == 0
    then (do d ← last ds; ok (d, r))
    else (do (d, r₁) ← pop_one version ds r; pop_loop fuel version (ds ++ d ∷ []) r₁)

-- `Pop`, with what it leaves of the reader.
unfoldable pub pop : ProtocolVersion → Reader → Popped (Descriptor × Reader)
unfolding pop_loop
pop version r =
    if length r.buf == 0
    then ok (descriptor tuple id_zero no_fields, r)
    else pop_loop (length r.buf + 1) version [] r
