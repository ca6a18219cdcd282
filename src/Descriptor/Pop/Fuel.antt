-- ===== src/Descriptor/Pop/Fuel.antt =====
-- The loop of `Pop` ends: a round reads a byte at least.
use edgedb_go.Common.{
  ℕ, zero, suc, ◌+◌, ◌<◌, ◌≤◌, ◌==◌, ◌≢◌, subst, arith, leb, err, lift, Bool-cases, inl, inr,
  Option, some, List, [], ◌∷◌, ◌++◌, length,
}
use edgedb_go.Buff.Reader.{Reader, pop_uint8, pop_uint16, pop_uuid, pop_bytes}
use edgedb_go.Descriptor.{
  DescriptorType, set, object, base_scalar, scalar, tuple, named_tuple, array, enum, input_shape,
  range, Descriptor, out_of_fuel, pop_position, type_of, assert_array_dimensions,
  discard_enum_member_names,
}
use edgedb_go.Descriptor.Version.{ProtocolVersion}
use edgedb_go.Descriptor.Pop.{
  object_fields, tuple_fields, named_tuple_fields, pop_other, pop_case, pop_one, last, pop_loop,
  pop,
}
use edgedb_go.Descriptor.Pop.Calls.{
  Ends, >>=-Ends, Shorter, Ends-mono, chain, chain_reader, uint8-Ends, uint16-Ends, uuid-Ends,
  bytes-Ends, position-Ends, object_loop-Ends, tuple_loop-Ends, named_loop-Ends, dimensions-Ends,
  enum-Ends,
}

other-Ends : (typ : ℕ) (r : Reader) → Ends (pop_other typ r) (Shorter (length r.buf))
unfolding pop_other
other-Ends typ r = elim (Bool-cases (leb 0x80 typ)) [
  | inl annotation ↦
      rw annotation
        (chain (length r.buf) (lift (pop_bytes r)) _ (bytes-Ends r) (λ text r₁. omega arith))
  | inr unknown ↦ rw unknown tt
]

module _ (version : ProtocolVersion) (ds : List Descriptor) where
  case-Ends :
      (typ : ℕ) (id : List ℕ) (t : Option DescriptorType) (r : Reader)
      → Ends (pop_case version ds typ id t r) (Shorter (length r.buf))
  unfolding pop_case object_fields tuple_fields named_tuple_fields
  case-Ends typ id (some set) r =
      chain (length r.buf) (pop_position ds r) _ (position-Ends ds r) (λ d r₁. omega arith)
  case-Ends typ id (some scalar) r =
      chain (length r.buf) (pop_position ds r) _ (position-Ends ds r) (λ d r₁. omega arith)
  case-Ends typ id (some range) r =
      chain (length r.buf) (pop_position ds r) _ (position-Ends ds r) (λ d r₁. omega arith)
  case-Ends typ id (some object) r =
      chain (length r.buf) (object_fields version ds r) _
        (chain (length r.buf) (lift (pop_uint16 r)) _ (uint16-Ends r)
          (λ n r₁. object_loop-Ends version ds n r₁))
        (λ fields r₁. omega arith)
  case-Ends typ id (some input_shape) r =
      chain (length r.buf) (object_fields version ds r) _
        (chain (length r.buf) (lift (pop_uint16 r)) _ (uint16-Ends r)
          (λ n r₁. object_loop-Ends version ds n r₁))
        (λ fields r₁. omega arith)
  case-Ends typ id (some tuple) r =
      chain (length r.buf) (tuple_fields ds r) _
        (chain (length r.buf) (lift (pop_uint16 r)) _ (uint16-Ends r)
          (λ n r₁. tuple_loop-Ends ds n 0 r₁))
        (λ fields r₁. omega arith)
  case-Ends typ id (some named_tuple) r =
      chain (length r.buf) (named_tuple_fields ds r) _
        (chain (length r.buf) (lift (pop_uint16 r)) _ (uint16-Ends r)
          (λ n r₁. named_loop-Ends ds n r₁))
        (λ fields r₁. omega arith)
  case-Ends typ id (some base_scalar) r = omega arith
  case-Ends typ id (some array) r =
      chain (length r.buf) (pop_position ds r) _ (position-Ends ds r) (λ d r₁.
        chain_reader (length r₁.buf) (assert_array_dimensions r₁) _ (dimensions-Ends r₁)
          (λ r₂. omega arith))
  case-Ends typ id (some enum) r =
      chain_reader (length r.buf) (discard_enum_member_names r) _ (enum-Ends r) (λ r₁. omega arith)
  case-Ends typ id t r = other-Ends typ r

  one-Ends : (r : Reader) → Ends (pop_one version ds r) (λ p. length p.1.buf + 1 ≤ length r.buf)
  unfolding pop_one
  one-Ends r =
      >>=-Ends (lift (pop_uint8 r)) _ (λ p. length p.1.buf + 1 ≤ length r.buf)
        (λ p. length p.1.buf + 1 ≤ length r.buf) (uint8-Ends r)
        (λ p h.
          Ends-mono _ (Shorter (length p.1.buf)) (λ q. length q.1.buf + 1 ≤ length r.buf)
            (chain (length p.1.buf) (lift (pop_uuid p.1)) _ (uuid-Ends p.1)
              (λ id r₂. case-Ends p.0 id (type_of p.0) r₂))
            (λ q h'. omega arith))

pub last-Ends : {A : Type 0} (ds : List A) → Ends (last ds) (λ d. Unit)
last-Ends [] = tt
last-Ends (d ∷ []) = tt
last-Ends (d ∷ (e ∷ ds)) = last-Ends (e ∷ ds)

loop-Ends :
    (fuel : ℕ) (version : ProtocolVersion) (ds : List Descriptor) (r : Reader)
    → length r.buf < fuel
    → Ends (pop_loop fuel version ds r) (λ p. Unit)
unfolding pop_loop
loop-Ends zero version ds r h = absurd (omega arith)
loop-Ends (suc fuel) version ds r h = elim (Bool-cases (length r.buf == 0)) [
  | inl at_end ↦ rw at_end (>>=-Ends (last ds) _ (λ d. Unit) (λ p. Unit) (last-Ends ds) (λ d u. tt))
  | inr more ↦ rw more (
      >>=-Ends (pop_one version ds r) _ (λ p. length p.1.buf + 1 ≤ length r.buf) (λ p. Unit)
        (one-Ends version ds r)
        (λ p shorter. loop-Ends fuel version (ds ++ p.0 ∷ []) p.1 (omega arith)))
]

whole-Ends : (version : ProtocolVersion) (r : Reader) → Ends (pop version r) (λ p. Unit)
unfolding pop
whole-Ends version r = elim (Bool-cases (length r.buf == 0)) [
  | inl nothing ↦ rw nothing tt
  | inr more ↦ rw more (loop-Ends (length r.buf + 1) version [] r (omega arith))
]

-- Whatever bytes are in the buffer, the fuel of the loop, a round for each byte and one more, does not
-- run out.
pop-ends : (version : ProtocolVersion) (r : Reader) → pop version r ≢ err out_of_fuel
pop-ends version r h = subst (λ m. Ends m (λ p. Unit)) h (whole-Ends version r)
