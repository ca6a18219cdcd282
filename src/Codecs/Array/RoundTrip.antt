-- ===== src/Codecs/Array/RoundTrip.antt =====
-- Arrays of any lawful codec are read back.
use edgedb_go.Common.{
  ℕ, zero, suc, ◌^◌, ◌<◌, ltb, leb, ok, ◌≡◌, ◌≢◌, refl, ap, sym, ◌∙◌, arith, Bool, false, Option,
  none, some, ne→==, Bool-cases, inl, inr,
}
use edgedb_go.Common.{
  lift, List, [], ◌∷◌, ◌++◌, length, length-append, length-take, append_assoc, append-nil,
}
use edgedb_go.Common.Bytes.{be_bytes, length-be_bytes}
use edgedb_go.Buff.Writer.{Writer, Written, begin_bytes, end_bytes}
use edgedb_go.Buff.Writer.Blocks.{end_bytes_lem}
use edgedb_go.Buff.Writer.Words.{appended, push_uint32_lem}
use edgedb_go.Buff.Reader.{Reader, Read, pop_slice, simple_reader}
use edgedb_go.Buff.Reader.Words.{pop_lem, pop_uint32_lem, discard_lem}
use edgedb_go.Codecs.Interface.{IsCodec}
use edgedb_go.Codecs.Interface.Arguments.{block}
use edgedb_go.Codecs.Array.{
  encode_elements, encode_array, slice, replicate, elements, slice_places, decode_element,
  decode_elements, element_count, decode_array,
}

abbrev pub blocks : {A : Type 0} → (A → List ℕ) → List A → List ℕ
blocks payload [] = []
blocks payload (v ∷ vs) = block (payload v) ++ blocks payload vs

-- One dimension, two reserved words, the upper and the lower bound, and the elements.
abbrev pub array_bytes : {A : Type 0} → (A → List ℕ) → List A → List ℕ
array_bytes payload vs =
    be_bytes 4 1
    ++ (be_bytes 4 0
        ++ (be_bytes 4 0 ++ (be_bytes 4 (length vs) ++ (be_bytes 4 1 ++ blocks payload vs))))

abbrev pub All : {A : Type 0} → (A → Type 0) → List A → Type 0
All P [] = Unit
All P (v ∷ vs) = P v × All P vs

length-replicate : {A : Type 0} (n : ℕ) (a : A) → length (replicate n a) ≡ n
length-replicate zero a = refl
length-replicate (suc n) a = omega (arith, length-replicate n a)

length-slice_places :
    {A : Type 0} (a : A) (memory : Option (List A)) (n : ℕ) → length (slice_places a memory n) ≡ n
unfolding slice_places
length-slice_places a none n = length-replicate n a
length-slice_places a (some memory) n = elim (Bool-cases (ltb (length memory) n)) [
  | inl small ↦ rw small (length-replicate n a)
  | inr large ↦ rw large (length-take n memory (ground arith))
]

count : (n : ℕ) → n < 2 ^ 31 → element_count n 1 ≡ n
unfolding element_count
count n h = omega arith

not_negative : (n : ℕ) → n < 2 ^ 31 → leb (2 ^ 31) n ≡ false
not_negative n h = ground arith

module _ {A : Type 0} (encode_data : A → Writer → Written Writer)
    (decode : Reader → Read (A × Reader)) (Dom : A → Type 0) (payload : A → List ℕ)
    (codec : IsCodec encode_data decode Dom payload) where
  encode_elements_lem :
      (vs : List A) (w : Writer)
      → encode_elements (λ v w'. lift (encode_data v w')) vs w ≡ ok (appended w (blocks payload vs))
  unfolding encode_elements
  encode_elements_lem [] w = rw append-nil refl
  encode_elements_lem (v ∷ vs) w =
      rw (codec.encodes v w, encode_elements_lem vs (appended w (block (payload v))), append_assoc)
        refl

  -- Inside a message `Encode` appends a slice as the number of its bytes and the bytes of the array.
  pub encode_array_lem :
      (vs : List A) (required : Bool) (w : Writer)
      → w.msg_pos ≢ 0
      → encode_array (λ v w'. lift (encode_data v w')) (slice vs) required w
        ≡ ok (appended w (block (array_bytes payload vs)))
  unfolding encode_array begin_bytes
  encode_array_lem vs required w h = rw (ne→== w.msg_pos 0 h) (
      rw
        (
          push_uint32_lem, push_uint32_lem, push_uint32_lem, push_uint32_lem, push_uint32_lem,
          encode_elements_lem,
        )
        (ap (λ b. lift (end_bytes (record w { buf = b; byte_pos = length w.buf ∷ w.byte_pos })))
            (simp (append_assoc) refl)
          ∙ ap lift (end_bytes_lem w (array_bytes payload vs))))

  abbrev Fits : A → Type 0
  Fits v = Dom v × (length (payload v) < 0xffffffff)

  decode_element_lem :
      (v old : A) (back : List ℕ) (r : Reader)
      → Fits v
      → r.buf ≡ block (payload v) ++ back
      → decode_element decode old r ≡ ok (v, record r { buf = back })
  unfolding decode_element pop_slice simple_reader
  decode_element_lem v old back r (dom, short) e =
      let size = length (payload v) in
      rw
        (
          pop_uint32_lem size (payload v ++ back) r (e ∙ append_assoc (be_bytes 4 size) _ back)
              (omega arith),
          ne→== size 0xffffffff (omega arith),
          pop_lem size (payload v) back (record r { buf = payload v ++ back }) refl refl,
          codec.decodes v [] (simple_reader (payload v)) dom (sym (append-nil (payload v))),
        )
        refl

  decode_elements_lem :
      (vs places : List A) (rest : List ℕ) (r : Reader)
      → length places ≡ length vs
      → All Fits vs
      → r.buf ≡ blocks payload vs ++ rest
      → decode_elements decode places r ≡ ok (vs, record r { buf = rest })
  unfolding decode_elements
  decode_elements_lem [] [] rest r n h e = ap (λ b. ok ([], record r { buf = b })) e
  decode_elements_lem [] (old ∷ places) rest r n h e = absurd (omega arith)
  decode_elements_lem (v ∷ vs) [] rest r n h e = absurd (omega arith)
  decode_elements_lem (v ∷ vs) (old ∷ places) rest r n (fits, h) e =
      rw
        (
          decode_element_lem v old (blocks payload vs ++ rest) r fits
              (e ∙ append_assoc (block (payload v)) (blocks payload vs) rest),
          decode_elements_lem vs places rest (record r { buf = blocks payload vs ++ rest })
              (omega arith) h refl,
        )
        refl

  -- The bytes of an array of fewer than 2^31 elements, each of the domain of the element's codec and
  -- of fewer than 0xffffffff bytes, are read back as its elements, whatever slice the target held,
  -- and what follows the array is left in the buffer.
  pub decode_array_lem :
      (vs : List A) (zero_value : A) (memory : Option (List A)) (rest : List ℕ) (r : Reader)
      → All Fits vs
      → length vs < 2 ^ 31
      → r.buf ≡ array_bytes payload vs ++ rest
      → decode_array decode zero_value memory r ≡ ok (elements vs, record r { buf = rest })
  unfolding decode_array
  decode_array_lem vs zero_value memory rest r h n e =
      let tail = blocks payload vs ++ rest in
      let bounds = be_bytes 4 (length vs) ++ (be_bytes 4 1 ++ tail) in
      let reserved = be_bytes 4 0 ++ be_bytes 4 0 in
      rw
        (
          pop_uint32_lem 1 (reserved ++ bounds) r (e ∙ simp (append_assoc) refl) (omega arith),
          discard_lem 8 reserved bounds (record r { buf = reserved ++ bounds }) refl
              (omega (arith, length-append (be_bytes 4 0) (be_bytes 4 0), length-be_bytes 4 0)),
          pop_uint32_lem (length vs) (be_bytes 4 1 ++ tail) (record r { buf = bounds }) refl
              (omega arith),
          pop_uint32_lem 1 tail (record r { buf = be_bytes 4 1 ++ tail }) refl (omega arith),
          count (length vs) n,
          not_negative (length vs) n,
          decode_elements_lem vs (slice_places zero_value memory (length vs)) rest
              (record r { buf = tail }) (length-slice_places zero_value memory (length vs)) h refl,
        )
        refl
