-- ===== src/Descriptor/PopV2/Calls.antt =====
-- The calls of a round of `PopV2` come to an end and leave no more bytes than there were.
use edgedb_go.Common.{
  ℕ, zero, suc, ◌+◌, ◌≤◌, arith, leb, lift, Bool, true, false, Bool-cases, inl, inr, List, length,
}
use edgedb_go.Buff.Reader.{Reader, pop_uint8, pop_uint16, pop_bytes, discard}
use edgedb_go.Descriptor.{pop_position, cardinality}
use edgedb_go.Descriptor.Pop.Calls.{
  Ends, >>=-Ends, Shorter, chain, chain_reader, byte-Ends, uint16-Ends, bytes-Ends, position-Ends,
  cardinality-Ends, discard-Ends,
}
use edgedb_go.Descriptor.PopV2.{
  V2, scalar_field_loop, numbered_field_loop, named_field_loop, pop_source_type, object_field_loop,
  scalar_fields, numbered_fields, named_fields, object_fields, pop_name, union_operation, pop_other,
}

source_type-Ends :
    (input : Bool) (r : Reader)
    → Ends (pop_source_type input r) (λ r'. length r'.buf ≤ length r.buf)
unfolding pop_source_type
source_type-Ends true r = omega arith
source_type-Ends false r =
    >>=-Ends (lift (pop_uint16 r)) _ (Shorter (length r.buf)) (λ r'. length r'.buf ≤ length r.buf)
      (uint16-Ends r) (λ p h. h)

pub name-Ends : (r : Reader) → Ends (pop_name r) (Shorter (length r.buf))
unfolding pop_name
name-Ends r = chain (length r.buf) (lift (pop_bytes r)) _ (bytes-Ends r) (λ name r₁.
    chain (length r₁.buf) (lift (pop_uint8 r₁)) _ (byte-Ends r₁) (λ schema_defined r₂. omega arith))

pub union-Ends : (t : ℕ) → Ends (union_operation t) (λ b. Unit)
unfolding union_operation
union-Ends t = ground arith

pub other-Ends : (typ : ℕ) (r : Reader) → Ends (pop_other typ r) (Shorter (length r.buf))
unfolding pop_other
other-Ends typ r = elim (Bool-cases (leb 0x80 typ)) [
  | inl annotation ↦
      rw annotation
        (chain (length r.buf) (lift (pop_bytes r)) _ (bytes-Ends r) (λ text r₁. omega arith))
  | inr unknown ↦ rw unknown tt
]

module _ (ds : List V2) where
  scalar_loop-Ends :
      (union : Bool) (n : ℕ) (r : Reader)
      → Ends (scalar_field_loop ds union n r) (Shorter (length r.buf))
  unfolding scalar_field_loop
  scalar_loop-Ends union zero r = omega arith
  scalar_loop-Ends union (suc n) r =
      chain (length r.buf) (pop_position ds r) _ (position-Ends ds r) (λ d r₁.
        chain (length r₁.buf) (scalar_field_loop ds union n r₁) _ (scalar_loop-Ends union n r₁)
          (λ fields r₂. omega arith))

  numbered_loop-Ends :
      (n i : ℕ) (r : Reader) → Ends (numbered_field_loop ds n i r) (Shorter (length r.buf))
  unfolding numbered_field_loop
  numbered_loop-Ends zero i r = omega arith
  numbered_loop-Ends (suc n) i r =
      chain (length r.buf) (pop_position ds r) _ (position-Ends ds r) (λ d r₁.
        chain (length r₁.buf) (numbered_field_loop ds n (i + 1) r₁) _
          (numbered_loop-Ends n (i + 1) r₁) (λ fields r₂. omega arith))

  named_loop-Ends :
      (required : Bool) (n : ℕ) (r : Reader)
      → Ends (named_field_loop ds required n r) (Shorter (length r.buf))
  unfolding named_field_loop
  named_loop-Ends required zero r = omega arith
  named_loop-Ends required (suc n) r =
      chain (length r.buf) (lift (pop_bytes r)) _ (bytes-Ends r) (λ name r₁.
        chain (length r₁.buf) (pop_position ds r₁) _ (position-Ends ds r₁) (λ d r₂.
          chain (length r₂.buf) (named_field_loop ds required n r₂) _
            (named_loop-Ends required n r₂) (λ fields r₃. omega arith)))

  object_loop-Ends :
      (input : Bool) (n : ℕ) (r : Reader)
      → Ends (object_field_loop ds input n r) (Shorter (length r.buf))
  unfolding object_field_loop
  object_loop-Ends input zero r = omega arith
  object_loop-Ends input (suc n) r =
      chain_reader (length r.buf) (lift (discard 4 r)) _ (discard-Ends 4 r) (λ r₁.
        chain (length r₁.buf) (lift (pop_uint8 r₁)) _ (byte-Ends r₁) (λ card r₂.
          >>=-Ends (cardinality card) _ (λ b. Unit) (Shorter (length r₂.buf))
            (cardinality-Ends card)
            (λ required u. chain (length r₂.buf) (lift (pop_bytes r₂)) _ (bytes-Ends r₂) (λ name r₃.
              chain (length r₃.buf) (pop_position ds r₃) _ (position-Ends ds r₃) (λ d r₄.
                chain_reader (length r₄.buf) (pop_source_type input r₄) _
                  (source_type-Ends input r₄)
                  (λ r₅.
                    chain (length r₅.buf) (object_field_loop ds input n r₅) _
                      (object_loop-Ends input n r₅) (λ fields r₆. omega arith)))))))

  pub scalar-Ends :
      (union : Bool) (r : Reader) → Ends (scalar_fields ds union r) (Shorter (length r.buf))
  unfolding scalar_fields
  scalar-Ends union r =
      chain (length r.buf) (lift (pop_uint16 r)) _ (uint16-Ends r)
        (λ n r₁. scalar_loop-Ends union n r₁)

  pub numbered-Ends : (r : Reader) → Ends (numbered_fields ds r) (Shorter (length r.buf))
  unfolding numbered_fields
  numbered-Ends r =
      chain (length r.buf) (lift (pop_uint16 r)) _ (uint16-Ends r)
        (λ n r₁. numbered_loop-Ends n 0 r₁)

  pub named-Ends :
      (required : Bool) (r : Reader) → Ends (named_fields ds required r) (Shorter (length r.buf))
  unfolding named_fields
  named-Ends required r =
      chain (length r.buf) (lift (pop_uint16 r)) _ (uint16-Ends r)
        (λ n r₁. named_loop-Ends required n r₁)

  pub object-Ends :
      (input : Bool) (r : Reader) → Ends (object_fields ds input r) (Shorter (length r.buf))
  unfolding object_fields
  object-Ends input r =
      chain (length r.buf) (lift (pop_uint16 r)) _ (uint16-Ends r)
        (λ n r₁. object_loop-Ends input n r₁)
