-- ===== src/Examples/Buffers.antt =====
-- internal/buff at concrete messages and chunks.
use edgedb_go.Common.{ℕ, ok, ◌≡◌, refl, arith, List, [], ◌∷◌, ◌++◌, true, false, none, some}
use edgedb_go.Common.Bytes.{be_value, be_bytes}
use edgedb_go.Buff.Writer.{
  Writer, begin_message, end_message, begin_bytes, end_bytes, push_bytes, put_at,
}
use edgedb_go.Buff.Writer.Blocks.{
  Blocks, raw, nested, nil, cons, write_block, write_blocks, block_bytes, blocks_bytes,
  write_message, message_bytes, write_message_lem,
}
use edgedb_go.Buff.Reader.{Reader, Data}
use edgedb_go.Buff.Reader.Feed.{next}
use edgedb_go.Buff.Reader.Feed.Messages.{Delivered, next-message_bytes, next-write_message}
use edgedb_go.Buff.Reader.Feed.Release.{account, next-account}

abbrev chunk : ℕ → List ℕ → Data
chunk id buf = record { id = id; buf = buf; err = none }

-- One message of type 90 with the content 1 2 3, in three chunks, and two bytes of the next message.
abbrev three_chunks : List Data
three_chunks =
    chunk 1 (90 ∷ 0 ∷ 0 ∷ []) ∷ chunk 2 (0 ∷ 7 ∷ 1 ∷ []) ∷ chunk 3 (2 ∷ 3 ∷ 67 ∷ 0 ∷ []) ∷ []

abbrev reader : Reader
reader = record {
  to_be_deserialized = some three_chunks;
  held = none;
  err = none;
  buf = [];
  msg_type = 0;
  released = [];
}

abbrev read_reader : Reader
read_reader = record {
  to_be_deserialized = some [];
  held = some (chunk 3 (67 ∷ 0 ∷ []));
  err = none;
  buf = 1 ∷ 2 ∷ 3 ∷ [];
  msg_type = 90;
  released = 1 ∷ 2 ∷ [];
}

abbrev content : List ℕ
content = 1 ∷ 2 ∷ 3 ∷ []

next-message_bytes_example :
    (r' : Reader) × (next false reader ≡ ok (true, r')) × Delivered 90 content (67 ∷ 0 ∷ []) r'
unfolding message_bytes be_bytes
next-message_bytes_example =
    next-message_bytes 90 content (67 ∷ 0 ∷ []) reader (omega arith) (omega arith)
      (three_chunks, refl, (refl, (refl, (refl, tt)))) refl refl

next-account_example : account read_reader ≡ account reader
unfolding next be_value
next-account_example = next-account false true reader read_reader refl

abbrev writer : Writer
writer = record { buf = []; msg_pos = 0; byte_pos = [] }

abbrev body : Blocks
body = cons (raw (1 ∷ [])) (cons (nested (cons (raw (2 ∷ 3 ∷ [])) nil)) nil)

write_message_lem_example :
    write_message 90 body writer
    ≡ ok (record writer { buf = [] ++ message_bytes 90 (blocks_bytes body) })
write_message_lem_example = write_message_lem 90 body writer refl refl

-- The bytes of that message.
abbrev written : List ℕ
written = 90 ∷ 0 ∷ 0 ∷ 0 ∷ 11 ∷ 1 ∷ 0 ∷ 0 ∷ 0 ∷ 2 ∷ 2 ∷ 3 ∷ []

abbrev written_chunks : List Data
written_chunks = chunk 1 (90 ∷ 0 ∷ 0 ∷ 0 ∷ 11 ∷ 1 ∷ []) ∷ chunk 2 (0 ∷ 0 ∷ 0 ∷ 2 ∷ 2 ∷ 3 ∷ []) ∷ []

next-write_message_example :
    (r' : Reader) × (next false (record reader { to_be_deserialized = some written_chunks })
      ≡ ok (true, r'))
    × Delivered 90 (blocks_bytes body) [] r'
unfolding write_message write_block write_blocks block_bytes blocks_bytes begin_message end_message
    begin_bytes end_bytes push_bytes put_at be_bytes
next-write_message_example =
    next-write_message 90 body writer (record writer { buf = written }) []
      (record reader { to_be_deserialized = some written_chunks }) refl refl refl refl (omega arith)
      (ground arith) (written_chunks, refl, (refl, (refl, tt))) refl refl
