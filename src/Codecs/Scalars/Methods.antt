-- ===== src/Codecs/Scalars/Methods.antt =====
-- The methods `Encode` of the scalar codecs, and the methods `Decode` of the decoders for optional
-- types, of numbers.go and datetime.go in internal/codecs.
pub mod Laws
use edgedb_go.Common.{ℕ, Outcome, ok, ◌>>=◌, Bool, Option, some}
use edgedb_go.Buff.Writer.{Writer}
use edgedb_go.Buff.Reader.{Reader, Read}
use edgedb_go.Codecs.Interface.{EncodeError, Argument, encode}
use edgedb_go.Codecs.Scalars.{
  RelativeDuration, DateDuration, encode_int16, encode_int32, encode_int64, encode_float32,
  encode_float64, encode_local_date_time, encode_local_date, encode_local_time, encode_duration,
  encode_relative_duration, encode_date_duration, decode_int16, decode_int32, decode_int64,
  decode_float32, decode_float64, decode_local_date_time, decode_local_date, decode_local_time,
  decode_duration, decode_relative_duration, decode_date_duration,
}

-- The value and the flag `set` beside it.
decode_set : {A : Type 0} → (Reader → Read (A × Reader)) → Reader → Read (Option A × Reader)
decode_set decode r = do (v, r') ← decode r; ok (some v, r')

pub encode_int16_argument : Argument ℕ → Bool → Writer → Outcome EncodeError Writer
encode_int16_argument = encode encode_int16 2

pub decode_optional_int16 : Reader → Read (Option ℕ × Reader)
unfolding decode_set
decode_optional_int16 = decode_set decode_int16

pub encode_int32_argument : Argument ℕ → Bool → Writer → Outcome EncodeError Writer
encode_int32_argument = encode encode_int32 4

pub decode_optional_int32 : Reader → Read (Option ℕ × Reader)
unfolding decode_set
decode_optional_int32 = decode_set decode_int32

pub encode_int64_argument : Argument ℕ → Bool → Writer → Outcome EncodeError Writer
encode_int64_argument = encode encode_int64 8

pub decode_optional_int64 : Reader → Read (Option ℕ × Reader)
unfolding decode_set
decode_optional_int64 = decode_set decode_int64

pub encode_float32_argument : Argument ℕ → Bool → Writer → Outcome EncodeError Writer
encode_float32_argument = encode encode_float32 4

pub decode_optional_float32 : Reader → Read (Option ℕ × Reader)
unfolding decode_set
decode_optional_float32 = decode_set decode_float32

pub encode_float64_argument : Argument ℕ → Bool → Writer → Outcome EncodeError Writer
encode_float64_argument = encode encode_float64 8

pub decode_optional_float64 : Reader → Read (Option ℕ × Reader)
unfolding decode_set
decode_optional_float64 = decode_set decode_float64

pub encode_local_date_time_argument : Argument ℕ → Bool → Writer → Outcome EncodeError Writer
encode_local_date_time_argument = encode encode_local_date_time 8

pub decode_optional_local_date_time : Reader → Read (Option ℕ × Reader)
unfolding decode_set
decode_optional_local_date_time = decode_set decode_local_date_time

pub encode_local_date_argument : Argument ℕ → Bool → Writer → Outcome EncodeError Writer
encode_local_date_argument = encode encode_local_date 4

pub decode_optional_local_date : Reader → Read (Option ℕ × Reader)
unfolding decode_set
decode_optional_local_date = decode_set decode_local_date

pub encode_local_time_argument : Argument ℕ → Bool → Writer → Outcome EncodeError Writer
encode_local_time_argument = encode encode_local_time 8

pub decode_optional_local_time : Reader → Read (Option ℕ × Reader)
unfolding decode_set
decode_optional_local_time = decode_set decode_local_time

pub encode_duration_argument : Argument ℕ → Bool → Writer → Outcome EncodeError Writer
encode_duration_argument = encode encode_duration 16

pub decode_optional_duration : Reader → Read (Option ℕ × Reader)
unfolding decode_set
decode_optional_duration = decode_set decode_duration

pub encode_relative_duration_argument :
    Argument RelativeDuration → Bool → Writer → Outcome EncodeError Writer
encode_relative_duration_argument = encode encode_relative_duration 16

pub decode_optional_relative_duration : Reader → Read (Option RelativeDuration × Reader)
unfolding decode_set
decode_optional_relative_duration = decode_set decode_relative_duration

pub encode_date_duration_argument :
    Argument DateDuration → Bool → Writer → Outcome EncodeError Writer
encode_date_duration_argument = encode encode_date_duration 16

pub decode_optional_date_duration : Reader → Read (Option DateDuration × Reader)
unfolding decode_set
decode_optional_date_duration = decode_set decode_date_duration
