-- ===== src/Codecs/Scalars/RoundTrips.antt =====
-- Each scalar codec reads back what it writes.
use edgedb_go.Common.{
  ℕ, ◌+◌, ◌-◌, ◌%◌, ◌^◌, ◌<◌, ◌>>=◌, ok, ◌≡◌, refl, ap, ◌∙◌, arith, List, ◌++◌, length,
  append_assoc, length-append,
}
use edgedb_go.Common.Bytes.{be_bytes, length-be_bytes}
use edgedb_go.Buff.Writer.{Writer, push_uint32, push_uint64}
use edgedb_go.Buff.Writer.Words.{appended, push_uint16_lem, push_uint32_lem, push_uint64_lem}
use edgedb_go.Buff.Reader.Words.{pop_uint16_lem, pop_uint32_lem, pop_uint64_lem, discard_lem}
use edgedb_go.Codecs.Interface.{IsCodec}
use edgedb_go.Codecs.Scalars.{
  encode_int16, decode_int16, encode_int32, decode_int32, encode_int64, decode_int64,
  encode_float32, decode_float32, encode_float64, decode_float64, encode_local_time,
  decode_local_time, encode_local_date_time, decode_local_date_time, encode_local_date,
  decode_local_date, encode_duration, decode_duration, RelativeDuration, encode_relative_duration,
  decode_relative_duration, DateDuration, encode_date_duration, decode_date_duration,
}

abbrev pub IsWord : ℕ → ℕ → Type 0
IsWord bits v = v < 2 ^ bits

pub int16-IsCodec : IsCodec encode_int16 decode_int16 (IsWord 16) (be_bytes 2)
unfolding encode_int16 decode_int16
int16-IsCodec = record {
  encodes =
      λ v w. rw (push_uint32_lem 2 w, push_uint16_lem, append_assoc, length-be_bytes 2 v) refl;
  decodes = λ v rest r d e. pop_uint16_lem v rest r e d;
}

pub int32-IsCodec : IsCodec encode_int32 decode_int32 (IsWord 32) (be_bytes 4)
unfolding encode_int32 decode_int32
int32-IsCodec = record {
  encodes =
      λ v w. rw (push_uint32_lem 4 w, push_uint32_lem, append_assoc, length-be_bytes 4 v) refl;
  decodes = λ v rest r d e. pop_uint32_lem v rest r e d;
}

pub float32-IsCodec : IsCodec encode_float32 decode_float32 (IsWord 32) (be_bytes 4)
unfolding encode_float32 decode_float32
float32-IsCodec = record {
  encodes =
      λ v w. rw (push_uint32_lem 4 w, push_uint32_lem, append_assoc, length-be_bytes 4 v) refl;
  decodes = λ v rest r d e. pop_uint32_lem v rest r e d;
}

-- A word of eight bytes behind their number.
encode_word64 :
    (v : ℕ) (w : Writer)
    → (push_uint32 8 w >>= λ w'. push_uint64 v w')
      ≡ ok (appended w (be_bytes 4 (length (be_bytes 8 v)) ++ be_bytes 8 v))
encode_word64 v w =
    rw (push_uint32_lem 8 w, push_uint64_lem, append_assoc, length-be_bytes 8 v) refl

pub int64-IsCodec : IsCodec encode_int64 decode_int64 (IsWord 64) (be_bytes 8)
unfolding encode_int64 decode_int64
int64-IsCodec = record {
  encodes = encode_word64;
  decodes = λ v rest r d e. pop_uint64_lem v rest r e d;
}

pub float64-IsCodec : IsCodec encode_float64 decode_float64 (IsWord 64) (be_bytes 8)
unfolding encode_float64 decode_float64
float64-IsCodec = record {
  encodes = encode_word64;
  decodes = λ v rest r d e. pop_uint64_lem v rest r e d;
}

pub local_time-IsCodec : IsCodec encode_local_time decode_local_time (IsWord 64) (be_bytes 8)
unfolding encode_local_time decode_local_time
local_time-IsCodec = record {
  encodes = encode_word64;
  decodes = λ v rest r d e. pop_uint64_lem v rest r e d;
}

-- The microseconds from 2000-01-01 on, as a uint64.
abbrev pub local_date_time_bytes : ℕ → List ℕ
local_date_time_bytes usec = be_bytes 8 ((usec + 2 ^ 64 - 63_082_281_600_000_000) % 2 ^ 64)

pub local_date_time-IsCodec :
    IsCodec encode_local_date_time decode_local_date_time (IsWord 64) local_date_time_bytes
unfolding encode_local_date_time decode_local_date_time
local_date_time-IsCodec = record {
  encodes =
      λ v w. rw (push_uint32_lem 8 w, push_uint64_lem, append_assoc, length-be_bytes 8 _) refl;
  decodes = λ v rest r d e.
      rw (pop_uint64_lem ((v + 2 ^ 64 - 63_082_281_600_000_000) % 2 ^ 64) rest r e (omega arith))
        (ap (λ n. ok (n, record r { buf = rest })) (omega arith));
}

abbrev pub local_date_bytes : ℕ → List ℕ
local_date_bytes days = be_bytes 4 ((days + 2 ^ 32 - 730119) % 2 ^ 32)

pub local_date-IsCodec : IsCodec encode_local_date decode_local_date (IsWord 32) local_date_bytes
unfolding encode_local_date decode_local_date
local_date-IsCodec = record {
  encodes =
      λ v w. rw (push_uint32_lem 4 w, push_uint32_lem, append_assoc, length-be_bytes 4 _) refl;
  decodes = λ v rest r d e.
      rw (pop_uint32_lem ((v + 2 ^ 32 - 730119) % 2 ^ 32) rest r e (omega arith))
        (ap (λ n. ok (n, record r { buf = rest })) (omega arith));
}

-- Sixteen bytes made of a word of eight and two of four.
abbrev sixteen : ℕ → ℕ → ℕ → List ℕ
sixteen a b c = be_bytes 8 a ++ (be_bytes 4 b ++ be_bytes 4 c)

length-sixteen : (a b c : ℕ) → length (sixteen a b c) ≡ 16
length-sixteen a b c = omega (
  arith,
  length-append (be_bytes 8 a) (be_bytes 4 b ++ be_bytes 4 c),
  length-append (be_bytes 4 b) (be_bytes 4 c),
  length-be_bytes 8 a,
  length-be_bytes 4 b,
  length-be_bytes 4 c,
)

abbrev pub duration_bytes : ℕ → List ℕ
duration_bytes v = sixteen v 0 0

abbrev pub relative_duration_bytes : RelativeDuration → List ℕ
relative_duration_bytes d = sixteen d.microseconds d.days d.months

abbrev pub date_duration_bytes : DateDuration → List ℕ
date_duration_bytes d = sixteen 0 d.days d.months

pub duration-IsCodec : IsCodec encode_duration decode_duration (IsWord 64) duration_bytes
unfolding encode_duration decode_duration
duration-IsCodec = record {
  encodes = λ v w.
      rw (push_uint32_lem 16 w, push_uint64_lem)
        (simp (push_uint32_lem, append_assoc, length-sixteen v 0 0) refl);
  decodes = λ v rest r d e.
      rw
        (pop_uint64_lem v ((be_bytes 4 0 ++ be_bytes 4 0) ++ rest) r
          (e ∙ append_assoc (be_bytes 8 v) (be_bytes 4 0 ++ be_bytes 4 0) rest) d)
        (rw
          (discard_lem 8 (be_bytes 4 0 ++ be_bytes 4 0) rest
            (record r { buf = (be_bytes 4 0 ++ be_bytes 4 0) ++ rest }) refl
            (omega (arith, length-append (be_bytes 4 0) (be_bytes 4 0), length-be_bytes 4 0)))
          refl);
}

abbrev pub RelativeWordsFit : RelativeDuration → Type 0
RelativeWordsFit d = IsWord 64 d.microseconds × IsWord 32 d.days × IsWord 32 d.months

pub relative_duration-IsCodec :
    IsCodec encode_relative_duration decode_relative_duration RelativeWordsFit
      relative_duration_bytes
unfolding encode_relative_duration decode_relative_duration
relative_duration-IsCodec = record {
  encodes = λ d w.
      rw (push_uint32_lem 16 w, push_uint64_lem)
        (simp (push_uint32_lem, append_assoc, length-sixteen d.microseconds d.days d.months) refl);
  decodes = λ d rest r dom e.
      let days = be_bytes 4 d.days in
      let months = be_bytes 4 d.months in
      rw
        (pop_uint64_lem d.microseconds ((days ++ months) ++ rest) r
          (e ∙ append_assoc (be_bytes 8 d.microseconds) (days ++ months) rest) dom.0)
        (rw
          (
            pop_uint32_lem d.days (months ++ rest) (record r { buf = (days ++ months) ++ rest })
                (append_assoc days months rest) dom.1,
            pop_uint32_lem d.months rest (record r { buf = months ++ rest }) refl dom.2,
          )
          refl);
}

abbrev pub DateWordsFit : DateDuration → Type 0
DateWordsFit d = IsWord 32 d.days × IsWord 32 d.months

pub date_duration-IsCodec :
    IsCodec encode_date_duration decode_date_duration DateWordsFit date_duration_bytes
unfolding encode_date_duration decode_date_duration
date_duration-IsCodec = record {
  encodes = λ d w.
      rw (push_uint32_lem 16 w, push_uint64_lem)
        (simp (push_uint32_lem, append_assoc, length-sixteen 0 d.days d.months) refl);
  decodes = λ d rest r dom e.
      let days = be_bytes 4 d.days in
      let months = be_bytes 4 d.months in
      rw
        (discard_lem 8 (be_bytes 8 0) ((days ++ months) ++ rest) r
          (e ∙ append_assoc (be_bytes 8 0) (days ++ months) rest) (length-be_bytes 8 0))
        (rw
          (
            pop_uint32_lem d.days (months ++ rest) (record r { buf = (days ++ months) ++ rest })
                (append_assoc days months rest) dom.0,
            pop_uint32_lem d.months rest (record r { buf = months ++ rest }) refl dom.1,
          )
          refl);
}
