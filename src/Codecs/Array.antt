-- ===== src/Codecs/Array.antt =====
-- internal/codecs/array.go, and setSliceLen of set.go. A Go slice is its backing array from its
-- start to its capacity, or nil; the codec of the elements is a parameter.
pub mod RoundTrip
use edgedb_go.Common.{
  ℕ, zero, suc, ◌+◌, ◌-◌, ◌%◌, ◌^◌, ◌==◌, ltb, leb, if◌then◌else◌, Outcome, NoError, ok, err, panic,
  ◌>>=◌, Bool, true, false, Option, none, some,
}
use edgedb_go.Common.{lift, List, [], ◌∷◌, ◌++◌, length, take}
use edgedb_go.Buff.Writer.{Writer, push_uint32, begin_bytes, end_bytes}
use edgedb_go.Buff.Reader.{Reader, Read, pop_uint32, discard, pop_slice}
use edgedb_go.Codecs.Interface.{EncodeError, missing_value, unexpected_type}

-- What reflection finds in the argument: a slice with its elements, a nil slice, or no slice.
pub data SliceArgument (A : Type 0) : Type 0 where
  slice : List A → SliceArgument A
  nil_slice : SliceArgument A
  no_slice : SliceArgument A

module _ {A : Type 0} (child : A → Writer → Outcome EncodeError Writer) where
  encode_elements : List A → Writer → Outcome EncodeError Writer
  encode_elements [] w = ok w
  encode_elements (v ∷ vs) w = do w' ← child v w; encode_elements vs w'

  -- `uint32(elmCount)` wraps.
  unfoldable pub encode_array : SliceArgument A → Bool → Writer → Outcome EncodeError Writer
  unfolding encode_elements
  encode_array no_slice required w = err unexpected_type
  encode_array nil_slice required w =
      if required then err missing_value else lift (push_uint32 0xffffffff w)
  encode_array (slice vs) required w = do
    w₁ ← lift (begin_bytes w)
    w₂ ← lift (push_uint32 1 w₁)
    w₃ ← lift (push_uint32 0 w₂)
    w₄ ← lift (push_uint32 0 w₃)
    w₅ ← lift (push_uint32 (length vs) w₄)
    w₆ ← lift (push_uint32 1 w₅)
    w₇ ← encode_elements vs w₆
    lift (end_bytes w₇)

abbrev pub replicate : {A : Type 0} → ℕ → A → List A
replicate zero a = []
replicate (suc n) a = a ∷ replicate n a

-- A slice that the code leaves: its elements, or a header whose length is a negative int32, here by
-- its bits, over memory that is there.
pub data SliceValue (A : Type 0) : Type 0 where
  elements : List A → SliceValue A
  negative_length : ℕ → SliceValue A

-- The places of a slice of `n` elements, which is not negative: zero values in new memory where the
-- capacity is too small, and else what the memory holds.
unfoldable pub slice_places : {A : Type 0} → A → Option (List A) → ℕ → List A
slice_places zero_value none n = replicate n zero_value
slice_places zero_value (some memory) n =
    if ltb (length memory) n then replicate n zero_value else take n memory

-- `setSliceLen(slice, typ, n)` for the bits of an int32: `MakeSlice` panics at a negative length.
unfoldable pub set_slice_len : {A : Type 0} → A → Option (List A) → ℕ → Read (SliceValue A)
unfolding slice_places
set_slice_len zero_value memory n =
    if leb (2 ^ 31) n
    then elim memory [ none ↦ panic | some places ↦ ok (negative_length n) ]
    else ok (elements (slice_places zero_value memory n))

-- `int(upper - lower + 1)` on int32s, as the bits of one.
unfoldable pub element_count : ℕ → ℕ → ℕ
element_count upper lower = (upper + 2 ^ 32 - lower + 1) % 2 ^ 32

module _ {A : Type 0} (child : Reader → Read (A × Reader)) where
  -- One round of the loop: an element of length 0xffffffff leaves its place as it is.
  decode_element : A → Reader → Read (A × Reader)
  decode_element old r = do
    (size, r₁) ← pop_uint32 r
    if size == 0xffffffff
        then ok (old, r₁)
        else (do (sub, r₂) ← pop_slice size r₁; (v, sub') ← child sub; ok (v, r₂))

  decode_elements : List A → Reader → Read (List A × Reader)
  unfolding decode_element
  decode_elements [] r = ok ([], r)
  decode_elements (old ∷ places) r = do
    (v, r₁) ← decode_element old r
    (vs, r₂) ← decode_elements places r₁
    ok (v ∷ vs, r₂)

  -- The loop has no round where the length is negative.
  decode_places : SliceValue A → Reader → Read (SliceValue A × Reader)
  unfolding decode_elements
  decode_places (negative_length n) r = ok (negative_length n, r)
  decode_places (elements places) r = do (vs, r₁) ← decode_elements places r; ok (elements vs, r₁)

  -- `memory` is what the slice at `out` was before.
  unfoldable pub decode_array : A → Option (List A) → Reader → Read (SliceValue A × Reader)
  unfolding set_slice_len element_count decode_places
  decode_array zero_value memory r = do
    (dimensions, r₁) ← pop_uint32 r
    r₂ ← discard 8 r₁
    if dimensions == 0 then (do s ← set_slice_len zero_value memory 0; ok (s, r₂)) else (do
      (upper, r₃) ← pop_uint32 r₂
      (lower, r₄) ← pop_uint32 r₃
      s ← set_slice_len zero_value memory (element_count upper lower)
      decode_places s r₄)
