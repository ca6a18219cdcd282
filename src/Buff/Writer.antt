-- ===== src/Buff/Writer.antt =====
-- internal/buff/write.go. A method returns the new writer, or `panic` where the Go method panics.
pub mod Blocks
pub mod Words
pub mod Requests
use edgedb_go.Common.{
  ℕ, zero, suc, ◌+◌, ◌-◌, ◌==◌, ltb, if◌then◌else◌, Outcome, NoError, ok, panic, ◌>>=◌,
}
use edgedb_go.Common.{List, [], ◌∷◌, ◌++◌, length, take, drop, Bool, true, false, not}
use edgedb_go.Common.Bytes.{be_bytes}

-- `byte_pos` holds the top of Go's stack first.
pub record Writer : Type 0 where
  pub buf : List ℕ
  pub msg_pos : ℕ
  pub byte_pos : List ℕ

-- The methods of a writer return no error.
abbrev pub Written : Type 0 → Type 0
Written A = Outcome NoError A

-- `&Writer{buf: alocatedMemory[:0]}`
abbrev pub new_writer : Writer
new_writer = record { buf = []; msg_pos = 0; byte_pos = [] }

-- The bytes to send, and the writer that is left.
unfoldable pub unwrap : Writer → Written (List ℕ × Writer)
unwrap w =
    if not (w.msg_pos == 0)
    then panic
    else if length w.buf == 0
    then panic
    else ok (w.buf, record w { buf = [] })

unfoldable pub push_bytes : List ℕ → Writer → Written Writer
push_bytes val w = ok (record w { buf = w.buf ++ val })

unfoldable pub push_uint8 : ℕ → Writer → Written Writer
push_uint8 val w = ok (record w { buf = w.buf ++ val ∷ [] })

-- `binary.BigEndian.PutUint32(buf[pos:], ...)` over the bytes of the word; a short slice panics.
unfoldable pub put_at : ℕ → List ℕ → List ℕ → Written (List ℕ)
put_at pos word buf =
    if ltb (length buf) (pos + length word)
    then panic
    else ok (take pos buf ++ (word ++ drop (pos + length word) buf))

-- The zero bytes are appended first and then overwritten by the word.
push_word : List ℕ → List ℕ → Writer → Written Writer
push_word zeros word w = do
  buf ← put_at (length w.buf) word (w.buf ++ zeros)
  ok (record w { buf = buf })

unfoldable pub push_uint16 : ℕ → Writer → Written Writer
unfolding push_word
push_uint16 val = push_word (0 ∷ 0 ∷ []) (be_bytes 2 val)

unfoldable pub push_uint32 : ℕ → Writer → Written Writer
unfolding push_word
push_uint32 val = push_word (0 ∷ 0 ∷ 0 ∷ 0 ∷ []) (be_bytes 4 val)

unfoldable pub push_uint64 : ℕ → Writer → Written Writer
unfolding push_word
push_uint64 val = push_word (0 ∷ 0 ∷ 0 ∷ 0 ∷ 0 ∷ 0 ∷ 0 ∷ 0 ∷ []) (be_bytes 8 val)

-- `val[:]` of the 16 bytes of a UUID
unfoldable pub push_uuid : List ℕ → Writer → Written Writer
push_uuid val w = ok (record w { buf = w.buf ++ val })

-- `uint32(len(val))` and the bytes of the string
unfoldable pub push_string : List ℕ → Writer → Written Writer
push_string val w = do w' ← push_uint32 (length val) w; push_bytes val w'

unfoldable pub begin_bytes : Writer → Written Writer
begin_bytes w =
    if w.msg_pos == 0
    then panic
    else ok (record w { buf = w.buf ++ 0 ∷ 0 ∷ 0 ∷ 0 ∷ []; byte_pos = length w.buf ∷ w.byte_pos })

-- `uint32(len(w.buf) - pos - 4)` is never negative: `pos` was the length before four zeros.
end_block : List ℕ → Writer → Written Writer
end_block [] w = panic
end_block (pos ∷ rest) w = do
  buf ← put_at pos (be_bytes 4 (length w.buf - pos - 4)) w.buf
  ok (record w { buf = buf; byte_pos = rest })

unfoldable pub end_bytes : Writer → Written Writer
unfolding end_block
end_bytes w = end_block w.byte_pos w

unfoldable pub begin_message : ℕ → Writer → Written Writer
begin_message m_type w =
    if not (w.msg_pos == 0)
    then panic
    else ok (record w { buf = w.buf ++ m_type ∷ 0 ∷ 0 ∷ 0 ∷ 0 ∷ []; msg_pos = 1 + length w.buf })

unfoldable pub end_message : Writer → Written Writer
end_message w = if w.msg_pos == 0 then panic else if not (length w.byte_pos == 0) then panic else do
  buf ← put_at w.msg_pos (be_bytes 4 (length w.buf - w.msg_pos)) w.buf
  ok (record w { buf = buf; msg_pos = 0 })
