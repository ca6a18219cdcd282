-- ===== src/Codecs/Interface.antt =====
-- What a codec is to the codecs that contain it, the optional and marshalled arguments that all
-- `Encode` methods take alike, and encodeOptional and encodeMarshaler of internal/codecs/utils.go.
pub mod Arguments
use edgedb_go.Common.{
  ℕ, ◌+◌, ◌==◌, if◌then◌else◌, Outcome, NoError, ok, err, panic, blocked, ◌>>=◌, ◌≡◌, Bool, true,
  false, not, ◌&&◌, Option, none, some, ◌⊎◌, inl, inr, List, ◌++◌, length, lift,
}
use edgedb_go.Common.Bytes.{be_bytes}
use edgedb_go.Buff.Writer.{Writer, Written, push_uint32, push_bytes}
use edgedb_go.Buff.Writer.Words.{appended}
use edgedb_go.Buff.Reader.{Reader, Read}

-- `payload` are the bytes of a value of the domain. `encode_data` appends their number and them;
-- `decode` takes them off the front of the buffer and leaves the rest.
pub record IsCodec {A : Type 0} (encode_data : A → Writer → Written Writer)
    (decode : Reader → Read (A × Reader)) (Dom : A → Type 0) (payload : A → List ℕ) : Type 0 where
  pub encodes :
      (v : A) (w : Writer)
      → encode_data v w ≡ ok (appended w (be_bytes 4 (length (payload v)) ++ payload v))
  pub decodes :
      (v : A) (rest : List ℕ) (r : Reader)
      → Dom v
      → r.buf ≡ payload v ++ rest
      → decode r ≡ ok (v, record r { buf = rest })

pub data EncodeError : Type 0 where
  missing_value : EncodeError
  wrong_number_of_bytes : ℕ → ℕ → EncodeError
  unexpected_type : EncodeError
  -- the error that a marshaler of the user's returned
  marshaler_error : ℕ → EncodeError

-- The types that the `switch` of an `Encode` method tells apart, for the Go type `A`.
pub data Argument (A : Type 0) : Type 0 where
  plain : A → Argument A
  optional : Option A → Argument A
  marshaler : List ℕ ⊎ ℕ → Argument A
  optional_marshaler : Bool → List ℕ ⊎ ℕ → Argument A
  other_type : Argument A

unfoldable pub encode_optional :
    Bool → Bool → Outcome EncodeError Writer → Writer → Outcome EncodeError Writer
encode_optional missing required encode w =
    if missing && required
    then err missing_value
    else if missing
    then lift (push_uint32 0xffffffff w)
    else encode

unfoldable pub encode_marshaler : List ℕ ⊎ ℕ → ℕ → Writer → Outcome EncodeError Writer
encode_marshaler (inr e) size w = err (marshaler_error e)
encode_marshaler (inl bytes) size w =
    if not (length bytes == size)
    then err (wrong_number_of_bytes size (length bytes))
    else lift (push_uint32 size w) >>= λ w'. lift (push_bytes bytes w')

-- The `Encode` method of a codec whose marshaled values have `size` bytes. What `Get` returns of
-- a missing value is not encoded.
unfoldable pub encode :
    {A : Type 0}
    → (A → Writer → Written Writer)
    → ℕ
    → Argument A
    → Bool
    → Writer
    → Outcome EncodeError Writer
unfolding encode_optional encode_marshaler
encode encode_data size (plain v) required w = lift (encode_data v w)
encode encode_data size (optional none) required w = encode_optional true required (ok w) w
encode encode_data size (optional (some v)) required w =
    encode_optional false required (lift (encode_data v w)) w
encode encode_data size (marshaler m) required w = encode_marshaler m size w
encode encode_data size (optional_marshaler missing m) required w =
    encode_optional missing required (encode_marshaler m size w) w
encode encode_data size other_type required w = err unexpected_type
