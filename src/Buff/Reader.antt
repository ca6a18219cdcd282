-- ===== src/Buff/Reader.antt =====
-- internal/buff/read.go. The channel of socket data is the list of what will still be received;
-- a receive from an empty one blocks. `Release` is recorded by the name of the released data.
-- A slice's capacity is its length wherever the code slices up to the end of `Buf`, so a slice
-- expression panics exactly when it reaches past the length.
pub mod Words
pub mod Reads
pub mod Feed
use edgedb_go.Common.{
  ℕ, ◌-◌, ◌==◌, ltb, leb, if◌then◌else◌, Outcome, NoError, ok, panic, blocked, ◌>>=◌,
}
use edgedb_go.Common.{List, [], ◌∷◌, ◌++◌, length, take, drop, Option, none, some}
use edgedb_go.Common.Bytes.{be_value}

pub data ReadError : Type 0 where
  -- an error that the socket returned, by a number that names it
  socket : ℕ → ReadError
  -- "cannot finish: unread data in buffer", with the message type
  unread_data : ℕ → ReadError

-- soc.Data
pub record Data : Type 0 where
  pub id : ℕ
  pub buf : List ℕ
  pub err : Option ℕ

-- `held` is the field `data`.
pub record Reader : Type 0 where
  pub to_be_deserialized : Option (List Data)
  pub held : Option Data
  pub err : Option ReadError
  pub buf : List ℕ
  pub msg_type : ℕ
  pub released : List ℕ

-- The methods return their errors beside the reader.
abbrev pub Read : Type 0 → Type 0
Read A = Outcome NoError A

unfoldable pub new_reader : List Data → Reader
new_reader stream = record {
  to_be_deserialized = some stream;
  held = none;
  err = none;
  buf = [];
  msg_type = 0;
  released = [];
}

unfoldable pub simple_reader : List ℕ → Reader
simple_reader buf = record {
  to_be_deserialized = none;
  held = none;
  err = none;
  buf = buf;
  msg_type = 0;
  released = [];
}

unfoldable pub pop : ℕ → Reader → Read (List ℕ × Reader)
pop n r = if ltb (length r.buf) n then panic else ok (take n r.buf, record r { buf = drop n r.buf })

unfoldable pub discard : ℕ → Reader → Read Reader
discard n r = if ltb (length r.buf) n then panic else ok (record r { buf = drop n r.buf })

unfoldable pub discard_message : Reader → Reader
discard_message r = record r { buf = [] }

unfoldable pub pop_word : ℕ → Reader → Read (ℕ × Reader)
unfolding pop
pop_word n r = do (bytes, r') ← pop n r; ok (be_value bytes, r')

unfoldable pub pop_uint8 : Reader → Read (ℕ × Reader)
unfolding pop_word
pop_uint8 = pop_word 1

unfoldable pub pop_uint16 : Reader → Read (ℕ × Reader)
unfolding pop_word
pop_uint16 = pop_word 2

unfoldable pub pop_uint32 : Reader → Read (ℕ × Reader)
unfolding pop_word
pop_uint32 = pop_word 4

unfoldable pub pop_uint64 : Reader → Read (ℕ × Reader)
unfolding pop_word
pop_uint64 = pop_word 8

unfoldable pub pop_uuid : Reader → Read (List ℕ × Reader)
unfolding pop
pop_uuid = pop 16

-- A reader of the first `n` bytes, and the reader of the others.
unfoldable pub pop_slice : ℕ → Reader → Read (Reader × Reader)
unfolding pop simple_reader
pop_slice n r = do (bytes, r') ← pop n r; ok (simple_reader bytes, r')

-- `PopBytes` and `PopString`
unfoldable pub pop_bytes : Reader → Read (List ℕ × Reader)
unfolding pop_uint32 pop
pop_bytes r = do (n, r') ← pop_uint32 r; pop n r'
