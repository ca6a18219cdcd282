-- ===== src/Codecs/Interface/Arguments.antt =====
-- What `Encode` writes for each kind of argument.
use edgedb_go.Common.{
  ℕ, ◌==◌, Outcome, ok, err, ◌≡◌, refl, ap, arith, Bool, true, false, Bool-cases, none, some, ◌⊎◌,
  inl, inr, List, ◌++◌, length, append_assoc, if◌then◌else◌,
}
use edgedb_go.Common.Bytes.{be_bytes}
use edgedb_go.Buff.Writer.{Writer, Written}
use edgedb_go.Buff.Writer.Words.{appended, push_uint32_lem, push_bytes_lem}
use edgedb_go.Buff.Reader.{Reader, Read}
use edgedb_go.Codecs.Interface.{
  IsCodec, EncodeError, missing_value, wrong_number_of_bytes, unexpected_type, marshaler_error,
  Argument, plain, optional, marshaler, optional_marshaler, other_type, encode_optional,
  encode_marshaler, encode,
}

-- The bytes of a value on the wire behind their number, and the mark of a missing value.
abbrev pub block : List ℕ → List ℕ
block bs = be_bytes 4 (length bs) ++ bs

abbrev pub missing_mark : List ℕ
missing_mark = be_bytes 4 0xffffffff

-- The bytes that stand for a marshaled value, or the error.
abbrev pub marshaled_bytes : List ℕ ⊎ ℕ → ℕ → EncodeError ⊎ List ℕ
marshaled_bytes (inr e) size = inl (marshaler_error e)
marshaled_bytes (inl bs) size =
    if length bs == size then inr (block bs) else inl (wrong_number_of_bytes size (length bs))

abbrev pub missing_bytes : Bool → EncodeError ⊎ List ℕ
missing_bytes true = inl missing_value
missing_bytes false = inr missing_mark

abbrev pub argument_bytes :
    {A : Type 0} → (A → List ℕ) → ℕ → Argument A → Bool → EncodeError ⊎ List ℕ
argument_bytes payload size (plain v) required = inr (block (payload v))
argument_bytes payload size (optional (some v)) required = inr (block (payload v))
argument_bytes payload size (optional none) required = missing_bytes required
argument_bytes payload size (marshaler m) required = marshaled_bytes m size
argument_bytes payload size (optional_marshaler true m) required = missing_bytes required
argument_bytes payload size (optional_marshaler false m) required = marshaled_bytes m size
argument_bytes payload size other_type required = inl unexpected_type

-- Append the bytes, or return the error.
abbrev pub append_or_fail : Writer → EncodeError ⊎ List ℕ → Outcome EncodeError Writer
append_or_fail w (inl e) = err e
append_or_fail w (inr bs) = ok (appended w bs)

encode_marshaler_lem :
    (m : List ℕ ⊎ ℕ) (size : ℕ) (w : Writer)
    → encode_marshaler m size w ≡ append_or_fail w (marshaled_bytes m size)
unfolding encode_marshaler
encode_marshaler_lem (inr e) size w = refl
encode_marshaler_lem (inl bs) size w = elim (Bool-cases (length bs == size)) [
  | inl same ↦
      rw (same, push_uint32_lem size w, push_bytes_lem, append_assoc)
        (ap (λ n. ok (appended w (be_bytes 4 n ++ bs))) (ground arith))
  | inr differ ↦ rw differ refl
]

encode_missing :
    (required : Bool) (x : Outcome EncodeError Writer) (w : Writer)
    → encode_optional true required x w ≡ append_or_fail w (missing_bytes required)
unfolding encode_optional
encode_missing true x w = refl
encode_missing false x w = rw (push_uint32_lem 0xffffffff w) refl

encode_present :
    (required : Bool) (x : Outcome EncodeError Writer) (w : Writer)
    → encode_optional false required x w ≡ x
unfolding encode_optional
encode_present required x w = refl

-- On every kind of argument `Encode` returns the error of the description, or appends exactly the
-- bytes of the description: a missing value is an error where it is required and the mark 0xffffffff
-- where it is not, and a marshaled value of a wrong size is an error.
pub encode-argument_bytes :
    {A : Type 0} (encode_data : A → Writer → Written Writer) (decode : Reader → Read (A × Reader))
    (Dom : A → Type 0) (payload : A → List ℕ)
    → IsCodec encode_data decode Dom payload
    → (size : ℕ) (a : Argument A) (required : Bool) (w : Writer)
    → encode encode_data size a required w
      ≡ append_or_fail w (argument_bytes payload size a required)
unfolding encode
encode-argument_bytes ed d D p c size (plain v) required w = rw (c.encodes v w) refl
encode-argument_bytes ed d D p c size (optional none) required w = encode_missing required (ok w) w
encode-argument_bytes ed d D p c size (optional (some v)) required w =
    rw (c.encodes v w) (encode_present required (ok (appended w (block (p v)))) w)
encode-argument_bytes ed d D p c size (marshaler m) required w = encode_marshaler_lem m size w
encode-argument_bytes ed d D p c size (optional_marshaler true m) required w =
    encode_missing required (encode_marshaler m size w) w
encode-argument_bytes ed d D p c size (optional_marshaler false m) required w =
    encode_marshaler_lem m size w
encode-argument_bytes ed d D p c size other_type required w = refl
