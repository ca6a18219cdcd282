-- ===== src/Codecs/Scalars.antt =====
-- The scalar codecs of internal/codecs: numbers.go, bool.go, str.go, uuid.go, and those of datetime.go
-- that copy words. A Go integer is its bit pattern, as the codecs reinterpret it: an `int16` is
-- a number below 2 ^ 16, and a float its IEEE bits. The functions are the methods `encodeData` and
-- `Decode`; Scalars/Methods has the methods `Encode` and the decoders for optional types.
pub mod RoundTrips
pub mod Methods
use edgedb_go.Common.{ℕ, ◌+◌, ◌-◌, ◌%◌, ◌^◌, ◌>>=◌, ok, if◌then◌else◌, Bool, List, length}
use edgedb_go.Buff.Writer.{
  Writer, Written, push_uint8, push_uint16, push_uint32, push_uint64, push_bytes, push_string,
}
use edgedb_go.Buff.Reader.{
  Reader, Read, pop, pop_uint8, pop_uint16, pop_uint32, pop_uint64, pop_uuid, discard,
}

unfoldable pub encode_int16 : ℕ → Writer → Written Writer
encode_int16 v w = do w' ← push_uint32 2 w; push_uint16 v w'

unfoldable pub decode_int16 : Reader → Read (ℕ × Reader)
decode_int16 r = pop_uint16 r

unfoldable pub encode_int32 : ℕ → Writer → Written Writer
encode_int32 v w = do w' ← push_uint32 4 w; push_uint32 v w'

unfoldable pub decode_int32 : Reader → Read (ℕ × Reader)
decode_int32 r = pop_uint32 r

unfoldable pub encode_int64 : ℕ → Writer → Written Writer
encode_int64 v w = do w' ← push_uint32 8 w; push_uint64 v w'

unfoldable pub decode_int64 : Reader → Read (ℕ × Reader)
decode_int64 r = pop_uint64 r

-- `math.Float32bits` and `math.Float64bits` reinterpret; a float is its bits here.
unfoldable pub encode_float32 : ℕ → Writer → Written Writer
encode_float32 v w = do w' ← push_uint32 4 w; push_uint32 v w'

unfoldable pub decode_float32 : Reader → Read (ℕ × Reader)
decode_float32 r = pop_uint32 r

unfoldable pub encode_float64 : ℕ → Writer → Written Writer
encode_float64 v w = do w' ← push_uint32 8 w; push_uint64 v w'

unfoldable pub decode_float64 : Reader → Read (ℕ × Reader)
decode_float64 r = pop_uint64 r

-- `Decode` copies the byte into the memory of a `bool`, so the value is the byte.
unfoldable pub encode_bool : Bool → Writer → Written Writer
encode_bool v w = do w' ← push_uint32 1 w; push_uint8 (if v then 1 else 0) w'

unfoldable pub decode_bool : Reader → Read (ℕ × Reader)
decode_bool r = pop_uint8 r

unfoldable pub encode_uuid : List ℕ → Writer → Written Writer
encode_uuid v w = do w' ← push_uint32 16 w; push_bytes v w'

unfoldable pub decode_uuid : Reader → Read (List ℕ × Reader)
decode_uuid r = pop_uuid r

-- `Decode` takes the whole buffer.
unfoldable pub encode_str : List ℕ → Writer → Written Writer
encode_str v w = push_string v w

unfoldable pub decode_str : Reader → Read (List ℕ × Reader)
decode_str r = do r' ← discard (length r.buf) r; ok (r.buf, r')

-- `usec - 63_082_281_600_000_000` on a uint64
unfoldable pub encode_local_date_time : ℕ → Writer → Written Writer
encode_local_date_time usec w = do
  w' ← push_uint32 8 w
  push_uint64 ((usec + 2 ^ 64 - 63_082_281_600_000_000) % 2 ^ 64) w'

unfoldable pub decode_local_date_time : Reader → Read (ℕ × Reader)
decode_local_date_time r = do (v, r') ← pop_uint64 r; ok ((v + 63_082_281_600_000_000) % 2 ^ 64, r')

-- `days - 730119` on a uint32
unfoldable pub encode_local_date : ℕ → Writer → Written Writer
encode_local_date days w = do
  w' ← push_uint32 4 w
  push_uint32 ((days + 2 ^ 32 - 730119) % 2 ^ 32) w'

unfoldable pub decode_local_date : Reader → Read (ℕ × Reader)
decode_local_date r = do (v, r') ← pop_uint32 r; ok ((v + 730119) % 2 ^ 32, r')

unfoldable pub encode_local_time : ℕ → Writer → Written Writer
encode_local_time usec w = do w' ← push_uint32 8 w; push_uint64 usec w'

unfoldable pub decode_local_time : Reader → Read (ℕ × Reader)
decode_local_time r = pop_uint64 r

unfoldable pub encode_duration : ℕ → Writer → Written Writer
encode_duration v w = do
  w₁ ← push_uint32 16 w
  w₂ ← push_uint64 v w₁
  w₃ ← push_uint32 0 w₂
  push_uint32 0 w₃

unfoldable pub decode_duration : Reader → Read (ℕ × Reader)
decode_duration r = do (v, r') ← pop_uint64 r; r'' ← discard 8 r'; ok (v, r'')

-- relativeDurationLayout
pub record RelativeDuration : Type 0 where
  pub microseconds : ℕ
  pub days : ℕ
  pub months : ℕ

unfoldable pub encode_relative_duration : RelativeDuration → Writer → Written Writer
encode_relative_duration d w = do
  w₁ ← push_uint32 16 w
  w₂ ← push_uint64 d.microseconds w₁
  w₃ ← push_uint32 d.days w₂
  push_uint32 d.months w₃

unfoldable pub decode_relative_duration : Reader → Read (RelativeDuration × Reader)
decode_relative_duration r = do
  (microseconds, r₁) ← pop_uint64 r
  (days, r₂) ← pop_uint32 r₁
  (months, r₃) ← pop_uint32 r₂
  ok (record { microseconds = microseconds; days = days; months = months }, r₃)

-- dateDurationLayout
pub record DateDuration : Type 0 where
  pub days : ℕ
  pub months : ℕ

unfoldable pub encode_date_duration : DateDuration → Writer → Written Writer
encode_date_duration d w = do
  w₁ ← push_uint32 16 w
  w₂ ← push_uint64 0 w₁
  w₃ ← push_uint32 d.days w₂
  push_uint32 d.months w₃

unfoldable pub decode_date_duration : Reader → Read (DateDuration × Reader)
decode_date_duration r = do
  r₁ ← discard 8 r
  (days, r₂) ← pop_uint32 r₁
  (months, r₃) ← pop_uint32 r₂
  ok (record { days = days; months = months }, r₃)
