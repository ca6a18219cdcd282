-- ===== src/Buff/Writer/Words.antt =====
-- What the `Push` methods append.
use edgedb_go.Common.{ℕ, ok, ◌≡◌, refl, sym, List, [], ◌∷◌, ◌++◌, length, append_assoc, append-nil}
use edgedb_go.Common.Bytes.{be_bytes, length-be_bytes}
use edgedb_go.Buff.Writer.{
  Writer, put_at, push_word, push_uint8, push_uint16, push_uint32, push_uint64, push_bytes,
  push_string,
}
use edgedb_go.Buff.Writer.Blocks.{put_at-segment}

abbrev pub appended : Writer → List ℕ → Writer
appended w bs = record w { buf = w.buf ++ bs }

push_word_lem :
    (zeros word : List ℕ) (w : Writer)
    → length zeros ≡ length word
    → push_word zeros word w ≡ ok (appended w word)
unfolding push_word
push_word_lem zeros word w h = rw at_end refl
  where
    at_end : put_at (length w.buf) word (w.buf ++ zeros) ≡ ok (w.buf ++ word)
    at_end = rw (append-nil, append-nil) at (put_at-segment w.buf zeros word [] h)

pub push_uint16_lem : (v : ℕ) (w : Writer) → push_uint16 v w ≡ ok (appended w (be_bytes 2 v))
unfolding push_uint16
push_uint16_lem v w = push_word_lem _ (be_bytes 2 v) w (sym (length-be_bytes 2 v))

pub push_uint32_lem : (v : ℕ) (w : Writer) → push_uint32 v w ≡ ok (appended w (be_bytes 4 v))
unfolding push_uint32
push_uint32_lem v w = push_word_lem _ (be_bytes 4 v) w (sym (length-be_bytes 4 v))

pub push_uint64_lem : (v : ℕ) (w : Writer) → push_uint64 v w ≡ ok (appended w (be_bytes 8 v))
unfolding push_uint64
push_uint64_lem v w = push_word_lem _ (be_bytes 8 v) w (sym (length-be_bytes 8 v))

pub push_uint8_lem : (v : ℕ) (w : Writer) → push_uint8 v w ≡ ok (appended w (v ∷ []))
unfolding push_uint8
push_uint8_lem v w = refl

pub push_bytes_lem : (bs : List ℕ) (w : Writer) → push_bytes bs w ≡ ok (appended w bs)
unfolding push_bytes
push_bytes_lem bs w = refl

pub push_string_lem :
    (s : List ℕ) (w : Writer) → push_string s w ≡ ok (appended w (be_bytes 4 (length s) ++ s))
unfolding push_string
push_string_lem s w = rw (push_uint32_lem (length s) w, push_bytes_lem, append_assoc) refl
