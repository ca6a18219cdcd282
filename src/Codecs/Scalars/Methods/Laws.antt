-- ===== src/Codecs/Scalars/Methods/Laws.antt =====
-- The methods of each scalar codec agree with one another, on every kind of argument.
use edgedb_go.Common.{ℕ, Outcome, ok, ◌≡◌, refl, Bool, Option, some, List, ◌++◌}
use edgedb_go.Common.Bytes.{be_bytes}
use edgedb_go.Buff.Writer.{Writer, Written}
use edgedb_go.Buff.Reader.{Reader, Read}
use edgedb_go.Codecs.Interface.{IsCodec, EncodeError, Argument, encode}
use edgedb_go.Codecs.Interface.Arguments.{argument_bytes, append_or_fail, encode-argument_bytes}
use edgedb_go.Codecs.Scalars.{
  encode_int16, encode_int32, encode_int64, encode_float32, encode_float64, encode_local_date_time,
  encode_local_date, encode_local_time, encode_duration, encode_relative_duration,
  encode_date_duration, decode_int16, decode_int32, decode_int64, decode_float32, decode_float64,
  decode_local_date_time, decode_local_date, decode_local_time, decode_duration,
  decode_relative_duration, decode_date_duration,
}
use edgedb_go.Codecs.Scalars.RoundTrips.{
  IsWord, RelativeWordsFit, DateWordsFit, local_date_time_bytes, local_date_bytes, duration_bytes,
  relative_duration_bytes, date_duration_bytes, int16-IsCodec, int32-IsCodec, int64-IsCodec,
  float32-IsCodec, float64-IsCodec, local_date_time-IsCodec, local_date-IsCodec, local_time-IsCodec,
  duration-IsCodec, relative_duration-IsCodec, date_duration-IsCodec,
}
use edgedb_go.Codecs.Scalars.Methods.{
  decode_set, encode_int16_argument, encode_int32_argument, encode_int64_argument,
  encode_float32_argument, encode_float64_argument, encode_local_date_time_argument,
  encode_local_date_argument, encode_local_time_argument, encode_duration_argument,
  encode_relative_duration_argument, encode_date_duration_argument, decode_optional_int16,
  decode_optional_int32, decode_optional_int64, decode_optional_float32, decode_optional_float64,
  decode_optional_local_date_time, decode_optional_local_date, decode_optional_local_time,
  decode_optional_duration, decode_optional_relative_duration, decode_optional_date_duration,
}

-- For the payloads of the values of a domain, in `size` bytes where they are marshaled: `encodes` says
-- that `Encode` appends the bytes of every kind of argument or returns its error, and the other two
-- that `Decode` and the decoder of the optional type take a payload off the front of the buffer.
pub record IsScalarCodec {A : Type 0}
    (encode_argument : Argument A → Bool → Writer → Outcome EncodeError Writer)
    (decode : Reader → Read (A × Reader)) (decode_optional : Reader → Read (Option A × Reader))
    (Dom : A → Type 0) (payload : A → List ℕ) (size : ℕ) : Type 0 where
  pub encodes :
      (a : Argument A) (required : Bool) (w : Writer)
      → encode_argument a required w ≡ append_or_fail w (argument_bytes payload size a required)
  pub decodes :
      (v : A) (rest : List ℕ) (r : Reader)
      → Dom v
      → r.buf ≡ payload v ++ rest
      → decode r ≡ ok (v, record r { buf = rest })
  pub decodes_optional :
      (v : A) (rest : List ℕ) (r : Reader)
      → Dom v
      → r.buf ≡ payload v ++ rest
      → decode_optional r ≡ ok (some v, record r { buf = rest })

IsCodec-methods :
    {A : Type 0} (encode_data : A → Writer → Written Writer) (decode : Reader → Read (A × Reader))
    (Dom : A → Type 0) (payload : A → List ℕ) (size : ℕ)
    → IsCodec encode_data decode Dom payload
    → IsScalarCodec (encode encode_data size) decode (decode_set decode) Dom payload size
unfolding decode_set
IsCodec-methods ed d D p size c = record {
  encodes = encode-argument_bytes ed d D p c size;
  decodes = c.decodes;
  decodes_optional = λ v rest r dom e. rw (c.decodes v rest r dom e) refl;
}

-- Int16Codec.
int16-IsScalarCodec :
    IsScalarCodec encode_int16_argument decode_int16 decode_optional_int16
      (IsWord 16)
      (be_bytes 2)
      2
unfolding encode_int16_argument decode_optional_int16
int16-IsScalarCodec =
    IsCodec-methods encode_int16 decode_int16 (IsWord 16) (be_bytes 2) 2 int16-IsCodec

-- Int32Codec.
int32-IsScalarCodec :
    IsScalarCodec encode_int32_argument decode_int32 decode_optional_int32
      (IsWord 32)
      (be_bytes 4)
      4
unfolding encode_int32_argument decode_optional_int32
int32-IsScalarCodec =
    IsCodec-methods encode_int32 decode_int32 (IsWord 32) (be_bytes 4) 4 int32-IsCodec

-- Int64Codec.
int64-IsScalarCodec :
    IsScalarCodec encode_int64_argument decode_int64 decode_optional_int64
      (IsWord 64)
      (be_bytes 8)
      8
unfolding encode_int64_argument decode_optional_int64
int64-IsScalarCodec =
    IsCodec-methods encode_int64 decode_int64 (IsWord 64) (be_bytes 8) 8 int64-IsCodec

-- Float32Codec.
float32-IsScalarCodec :
    IsScalarCodec encode_float32_argument decode_float32 decode_optional_float32
      (IsWord 32)
      (be_bytes 4)
      4
unfolding encode_float32_argument decode_optional_float32
float32-IsScalarCodec =
    IsCodec-methods encode_float32 decode_float32 (IsWord 32) (be_bytes 4) 4 float32-IsCodec

-- Float64Codec.
float64-IsScalarCodec :
    IsScalarCodec encode_float64_argument decode_float64 decode_optional_float64
      (IsWord 64)
      (be_bytes 8)
      8
unfolding encode_float64_argument decode_optional_float64
float64-IsScalarCodec =
    IsCodec-methods encode_float64 decode_float64 (IsWord 64) (be_bytes 8) 8 float64-IsCodec

-- LocalDateTimeCodec.
local_date_time-IsScalarCodec :
    IsScalarCodec encode_local_date_time_argument decode_local_date_time
      decode_optional_local_date_time
      (IsWord 64)
      (local_date_time_bytes)
      8
unfolding encode_local_date_time_argument decode_optional_local_date_time
local_date_time-IsScalarCodec =
    IsCodec-methods encode_local_date_time decode_local_date_time (IsWord 64)
      (local_date_time_bytes) 8 local_date_time-IsCodec

-- LocalDateCodec: on every kind of argument `Encode` appends the length and the payload of the
-- value or the mark of a missing one, or returns the error that is due, and `Decode` and the
-- decoder of the optional type read the payload back and leave what follows it. The payload of a
-- value whose words fit their widths is the four bytes of the days less 730119, modulo 2 ^ 32; a
-- marshaled value has 4 bytes.
local_date-IsScalarCodec :
    IsScalarCodec encode_local_date_argument decode_local_date decode_optional_local_date
      (IsWord 32)
      (local_date_bytes)
      4
unfolding encode_local_date_argument decode_optional_local_date
local_date-IsScalarCodec =
    IsCodec-methods encode_local_date decode_local_date (IsWord 32) (local_date_bytes) 4
      local_date-IsCodec

-- LocalTimeCodec: on every kind of argument `Encode` appends the length and the payload of the
-- value or the mark of a missing one, or returns the error that is due, and `Decode` and the
-- decoder of the optional type read the payload back and leave what follows it. The payload of a
-- value whose words fit their widths is the eight bytes of its microseconds; a marshaled value has
-- 8 bytes.
local_time-IsScalarCodec :
    IsScalarCodec encode_local_time_argument decode_local_time decode_optional_local_time
      (IsWord 64)
      (be_bytes 8)
      8
unfolding encode_local_time_argument decode_optional_local_time
local_time-IsScalarCodec =
    IsCodec-methods encode_local_time decode_local_time (IsWord 64) (be_bytes 8) 8
      local_time-IsCodec

-- DurationCodec: on every kind of argument `Encode` appends the length and the payload of the value
-- or the mark of a missing one, or returns the error that is due, and `Decode` and the decoder of
-- the optional type read the payload back and leave what follows it. The payload of a value whose
-- words fit their widths is the eight bytes of its microseconds and eight zero bytes; a marshaled
-- value has 16 bytes.
duration-IsScalarCodec :
    IsScalarCodec encode_duration_argument decode_duration decode_optional_duration
      (IsWord 64)
      (duration_bytes)
      16
unfolding encode_duration_argument decode_optional_duration
duration-IsScalarCodec =
    IsCodec-methods encode_duration decode_duration (IsWord 64) (duration_bytes) 16 duration-IsCodec

-- RelativeDurationCodec.
relative_duration-IsScalarCodec :
    IsScalarCodec encode_relative_duration_argument decode_relative_duration
      decode_optional_relative_duration
      (RelativeWordsFit)
      (relative_duration_bytes)
      16
unfolding encode_relative_duration_argument decode_optional_relative_duration
relative_duration-IsScalarCodec =
    IsCodec-methods encode_relative_duration decode_relative_duration (RelativeWordsFit)
      (relative_duration_bytes) 16 relative_duration-IsCodec

-- DateDurationCodec.
date_duration-IsScalarCodec :
    IsScalarCodec encode_date_duration_argument decode_date_duration decode_optional_date_duration
      (DateWordsFit)
      (date_duration_bytes)
      16
unfolding encode_date_duration_argument decode_optional_date_duration
date_duration-IsScalarCodec =
    IsCodec-methods encode_date_duration decode_date_duration (DateWordsFit) (date_duration_bytes)
      16 date_duration-IsCodec

-- The codecs of int16, int32, int64, float32 and float64: on every kind of argument `Encode` appends the
-- length and the payload of the value or the mark of a missing one, or returns the error that is due,
-- and `Decode` and the decoder of the optional type read the payload back and leave what follows it.
-- The payload of a value that fits its width is its bits in 2, 4, 8, 4 and 8 bytes, and a marshaled
-- value has as many.
number-IsScalarCodec :
    (IsScalarCodec encode_int16_argument decode_int16 decode_optional_int16
      (IsWord 16)
      (be_bytes 2)
      2)
    × (IsScalarCodec encode_int32_argument decode_int32 decode_optional_int32
        (IsWord 32)
        (be_bytes 4)
        4)
    × (IsScalarCodec encode_int64_argument decode_int64 decode_optional_int64
        (IsWord 64)
        (be_bytes 8)
        8)
    × (IsScalarCodec encode_float32_argument decode_float32 decode_optional_float32
        (IsWord 32)
        (be_bytes 4)
        4)
    × (IsScalarCodec encode_float64_argument decode_float64 decode_optional_float64
        (IsWord 64)
        (be_bytes 8)
        8)
number-IsScalarCodec = (
  int16-IsScalarCodec, int32-IsScalarCodec, int64-IsScalarCodec, float32-IsScalarCodec,
  float64-IsScalarCodec,
)

-- The codecs of the local date and time, the local date, the local time, the duration, the relative
-- duration and the date duration: on every kind of argument `Encode` appends the length and the
-- payload of the value or the mark of a missing one, or returns the error that is due, and `Decode` and
-- the decoder of the optional type read the payload back and leave what follows it. The payload of a
-- value whose words fit their widths is, in this order: the eight bytes of the microseconds less
-- 63082281600000000 modulo 2^64, the four bytes of the days less 730119 modulo 2^32, the eight bytes of
-- the microseconds, those and eight zero bytes, the microseconds, days and months in eight, four and
-- four bytes, and eight zero bytes with the days and months in four bytes each.
date_time-IsScalarCodec :
    (IsScalarCodec encode_local_date_time_argument decode_local_date_time
      decode_optional_local_date_time
      (IsWord 64)
      (local_date_time_bytes)
      8)
    × (IsScalarCodec encode_local_date_argument decode_local_date decode_optional_local_date
        (IsWord 32)
        (local_date_bytes)
        4)
    × (IsScalarCodec encode_local_time_argument decode_local_time decode_optional_local_time
        (IsWord 64)
        (be_bytes 8)
        8)
    × (IsScalarCodec encode_duration_argument decode_duration decode_optional_duration
        (IsWord 64)
        (duration_bytes)
        16)
    × (IsScalarCodec encode_relative_duration_argument decode_relative_duration
        decode_optional_relative_duration
        (RelativeWordsFit)
        (relative_duration_bytes)
        16)
    × (IsScalarCodec encode_date_duration_argument decode_date_duration
        decode_optional_date_duration
        (DateWordsFit)
        (date_duration_bytes)
        16)
date_time-IsScalarCodec = (
  local_date_time-IsScalarCodec, local_date-IsScalarCodec, local_time-IsScalarCodec,
  duration-IsScalarCodec, relative_duration-IsScalarCodec, date_duration-IsScalarCodec,
)
