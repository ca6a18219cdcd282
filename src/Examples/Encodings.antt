-- ===== src/Examples/Encodings.antt =====
-- internal/codecs at concrete values.
use edgedb_go.Common.{ℕ, ◌≡◌, refl, ok, arith, lift, List, [], ◌∷◌, ◌++◌, true, none, some}
use edgedb_go.Common.Bytes.{be_bytes}
use edgedb_go.Buff.Writer.{Writer}
use edgedb_go.Buff.Writer.Words.{appended}
use edgedb_go.Buff.Reader.{Reader}
use edgedb_go.Codecs.Interface.{optional, encode}
use edgedb_go.Codecs.Interface.Arguments.{
  block, argument_bytes, append_or_fail, encode-argument_bytes,
}
use edgedb_go.Codecs.Scalars.{encode_int16, decode_int16, encode_int32, decode_int32}
use edgedb_go.Codecs.Scalars.RoundTrips.{IsWord, int16-IsCodec, int32-IsCodec}
use edgedb_go.Codecs.Array.{slice, elements, encode_array, decode_array}
use edgedb_go.Codecs.Array.RoundTrip.{array_bytes, encode_array_lem, decode_array_lem}

-- A writer inside a message.
abbrev writer : Writer
writer = record { buf = 80 ∷ 0 ∷ 0 ∷ 0 ∷ 0 ∷ []; msg_pos = 1; byte_pos = [] }

abbrev two : List ℕ
two = 7 ∷ 4_294_967_295 ∷ []

encode_array_lem_example :
    encode_array (λ v w'. lift (encode_int32 v w')) (slice two) true writer
    ≡ ok (appended writer (block (array_bytes (be_bytes 4) two)))
encode_array_lem_example =
    encode_array_lem encode_int32 decode_int32 (IsWord 32) (be_bytes 4) int32-IsCodec two true
      writer (omega arith)

abbrev array_reader : Reader
array_reader = record {
  to_be_deserialized = none;
  held = none;
  err = none;
  buf = array_bytes (be_bytes 4) two ++ 1 ∷ [];
  msg_type = 0;
  released = [];
}

-- The target held a slice with room for one element.
decode_array_lem_example :
    decode_array decode_int32 0 (some (5 ∷ [])) array_reader
    ≡ ok (elements two, record array_reader { buf = 1 ∷ [] })
unfolding be_bytes
decode_array_lem_example =
    decode_array_lem encode_int32 decode_int32 (IsWord 32) (be_bytes 4) int32-IsCodec two 0
      (some (5 ∷ [])) (1 ∷ []) array_reader
      ((omega arith, omega arith), ((omega arith, omega arith), tt)) (omega arith) refl

encode-argument_bytes_example :
    encode encode_int16 2 (optional (some 258)) true writer
    ≡ append_or_fail writer (argument_bytes (be_bytes 2) 2 (optional (some 258)) true)
encode-argument_bytes_example =
    encode-argument_bytes encode_int16 decode_int16 (IsWord 16) (be_bytes 2) int16-IsCodec 2
      (optional (some 258)) true writer
