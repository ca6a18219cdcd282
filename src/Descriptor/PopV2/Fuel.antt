-- ===== src/Descriptor/PopV2/Fuel.antt =====
-- The loop of `PopV2` ends: a round reads a byte at least.
use edgedb_go.Common.{
  ℕ, zero, suc, ◌+◌, ◌<◌, ◌≤◌, ◌==◌, ◌≢◌, subst, arith, err, ◌>>=◌, lift, true, false, Bool-cases,
  inl, inr, Option, some, List, [], ◌∷◌, ◌++◌, length,
}
use edgedb_go.Buff.Reader.{Reader, pop_word, pop_uint8, pop_uint16, pop_uint32, pop_uuid}
use edgedb_go.Descriptor.{
  DescriptorType, set, object, scalar, tuple, named_tuple, array, enum, input_shape, range,
  object_shape, compound, multi_range, sql_record, out_of_fuel, Popped, pop_position, type_of,
  assert_array_dimensions, discard_enum_member_names,
}
use edgedb_go.Descriptor.Pop.{last}
use edgedb_go.Descriptor.Pop.Calls.{
  Ends, >>=-Ends, Shorter, Ends-mono, chain, chain_reader, word-Ends, byte-Ends, uint16-Ends,
  uuid-Ends, position-Ends, dimensions-Ends, enum-Ends,
}
use edgedb_go.Descriptor.PopV2.{
  V2, FieldsV2, scalar_fields, numbered_fields, named_fields, object_fields, pop_name,
  union_operation, pop_case, pop_one, pop_loop, pop_v2,
}
use edgedb_go.Descriptor.Pop.Fuel.{last-Ends}
use edgedb_go.Descriptor.PopV2.Calls.{
  scalar-Ends, numbered-Ends, named-Ends, object-Ends, name-Ends, union-Ends, other-Ends,
}

module _ (ds : List V2) where
  -- The name and the ancestors, and then the rest.
  with_ancestors :
      (r : Reader) (k : List ℕ → FieldsV2 × Reader → Popped (V2 × Reader))
      → ((name : List ℕ) (a : FieldsV2) (r' : Reader)
          → Ends (k name (a, r')) (Shorter (length r'.buf)))
      → Ends (pop_name r >>= λ p. scalar_fields ds false p.1 >>= k p.0) (Shorter (length r.buf))
  with_ancestors r k h = chain (length r.buf) (pop_name r) _ (name-Ends r) (λ name r₁.
      chain (length r₁.buf) (scalar_fields ds false r₁) _ (scalar-Ends ds false r₁)
        (λ a r₂. h name a r₂))

  case-Ends :
      (typ : ℕ) (id : List ℕ) (t : Option DescriptorType) (r : Reader)
      → Ends (pop_case ds typ id t r) (Shorter (length r.buf))
  unfolding pop_case
  case-Ends typ id (some set) r =
      chain (length r.buf) (pop_position ds r) _ (position-Ends ds r) (λ d r₁. omega arith)
  case-Ends typ id (some object) r =
      chain (length r.buf) (lift (pop_uint8 r)) _ (byte-Ends r) (λ b r₁.
        chain (length r₁.buf) (lift (pop_uint16 r₁)) _ (uint16-Ends r₁) (λ t r₂.
          chain (length r₂.buf) (object_fields ds false r₂) _ (object-Ends ds false r₂)
            (λ fields r₃. omega arith)))
  case-Ends typ id (some scalar) r = with_ancestors r _ (λ name a r₂. omega arith)
  case-Ends typ id (some tuple) r = chain (length r.buf) (pop_name r) _ (name-Ends r) (λ name r₁.
      chain (length r₁.buf) (numbered_fields ds r₁) _ (numbered-Ends ds r₁) (λ a r₂.
        chain (length r₂.buf) (numbered_fields ds r₂) _ (numbered-Ends ds r₂)
          (λ fields r₃. omega arith)))
  case-Ends typ id (some named_tuple) r =
      chain (length r.buf) (pop_name r) _ (name-Ends r) (λ name r₁.
        chain (length r₁.buf) (numbered_fields ds r₁) _ (numbered-Ends ds r₁) (λ a r₂.
          chain (length r₂.buf) (named_fields ds false r₂) _ (named-Ends ds false r₂)
            (λ fields r₃. omega arith)))
  case-Ends typ id (some array) r = with_ancestors r _ (λ name a r₂.
      chain (length r₂.buf) (pop_position ds r₂) _ (position-Ends ds r₂) (λ d r₃.
        chain_reader (length r₃.buf) (assert_array_dimensions r₃) _ (dimensions-Ends r₃)
          (λ r₄. omega arith)))
  case-Ends typ id (some enum) r = with_ancestors r _ (λ name a r₂.
      chain_reader (length r₂.buf) (discard_enum_member_names r₂) _ (enum-Ends r₂)
        (λ r₃. omega arith))
  case-Ends typ id (some input_shape) r =
      chain (length r.buf) (object_fields ds true r) _ (object-Ends ds true r)
        (λ fields r₁. omega arith)
  case-Ends typ id (some range) r = with_ancestors r _ (λ name a r₂.
      chain (length r₂.buf) (pop_position ds r₂) _ (position-Ends ds r₂) (λ d r₃. omega arith))
  case-Ends typ id (some object_shape) r =
      chain (length r.buf) (pop_name r) _ (name-Ends r) (λ name r₁. omega arith)
  case-Ends typ id (some compound) r = chain (length r.buf) (pop_name r) _ (name-Ends r) (λ name r₁.
      chain (length r₁.buf) (lift (pop_uint8 r₁)) _ (byte-Ends r₁) (λ t r₂.
        >>=-Ends (union_operation t) _ (λ b. Unit) (Shorter (length r₂.buf)) (union-Ends t)
          (λ union u.
            chain (length r₂.buf) (scalar_fields ds union r₂) _ (scalar-Ends ds union r₂)
              (λ fields r₃. omega arith))))
  case-Ends typ id (some multi_range) r = with_ancestors r _ (λ name a r₂.
      chain (length r₂.buf) (pop_position ds r₂) _ (position-Ends ds r₂) (λ d r₃. omega arith))
  case-Ends typ id (some sql_record) r =
      chain (length r.buf) (named_fields ds true r) _ (named-Ends ds true r)
        (λ fields r₁. omega arith)
  case-Ends typ id t r = other-Ends typ r

  one-Ends : (r : Reader) → Ends (pop_one ds r) (λ p. length p.1.buf + 1 ≤ length r.buf)
  unfolding pop_one pop_uint32
  one-Ends r =
      >>=-Ends (lift (pop_word 4 r)) _ (λ p. length p.1.buf + 4 ≤ length r.buf)
        (λ p. length p.1.buf + 1 ≤ length r.buf) (word-Ends 4 r)
        (λ p h.
          Ends-mono _ (Shorter (length p.1.buf)) (λ q. length q.1.buf + 1 ≤ length r.buf)
            (chain (length p.1.buf) (lift (pop_uint8 p.1)) _ (byte-Ends p.1) (λ typ r₁.
              chain (length r₁.buf) (lift (pop_uuid r₁)) _ (uuid-Ends r₁)
                (λ id r₂. case-Ends typ id (type_of typ) r₂)))
            (λ q h'. omega arith))

loop-Ends :
    (fuel : ℕ) (ds : List V2) (r : Reader)
    → length r.buf < fuel
    → Ends (pop_loop fuel ds r) (λ p. Unit)
unfolding pop_loop
loop-Ends zero ds r h = absurd (omega arith)
loop-Ends (suc fuel) ds r h = elim (Bool-cases (length r.buf == 0)) [
  | inl at_end ↦ rw at_end (>>=-Ends (last ds) _ (λ d. Unit) (λ p. Unit) (last-Ends ds) (λ d u. tt))
  | inr more ↦ rw more (
      >>=-Ends (pop_one ds r) _ (λ p. length p.1.buf + 1 ≤ length r.buf) (λ p. Unit) (one-Ends ds r)
        (λ p shorter. loop-Ends fuel (ds ++ p.0 ∷ []) p.1 (omega arith)))
]

whole-Ends : (r : Reader) → Ends (pop_v2 r) (λ p. Unit)
unfolding pop_v2
whole-Ends r = elim (Bool-cases (length r.buf == 0)) [
  | inl nothing ↦ rw nothing tt
  | inr more ↦ rw more (loop-Ends (length r.buf + 1) [] r (omega arith))
]

-- Whatever bytes are in the buffer, the fuel of the loop, a round for each byte and one more, does not
-- run out.
pop_v2-ends : (r : Reader) → pop_v2 r ≢ err out_of_fuel
pop_v2-ends r h = subst (λ m. Ends m (λ p. Unit)) h (whole-Ends r)
