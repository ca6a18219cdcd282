-- ===== src/Buff/Reader/Words.antt =====
-- What the `Pop` methods read from the front of the buffer.
use edgedb_go.Common.{ℕ, ap, false, ◌^◌, ◌<◌, ltb, ok, ◌≡◌, refl, arith, ge→ltb}
use edgedb_go.Common.{
  List, ◌∷◌, ◌++◌, length, length-append, take-length-append, drop-length-append,
}
use edgedb_go.Common.Bytes.{be_bytes, length-be_bytes, be_value-be_bytes}
use edgedb_go.Buff.Reader.{
  Reader, pop, discard, pop_word, pop_uint8, pop_uint16, pop_uint32, pop_uint64,
}

pub pop_lem :
    (n : ℕ) (front back : List ℕ) (r : Reader)
    → r.buf ≡ front ++ back
    → length front ≡ n
    → pop n r ≡ ok (front, record r { buf = back })
unfolding pop
pop_lem n front back r e h = simp (e, ← h, fits, take-length-append, drop-length-append) refl
  where
    fits : ltb (length (front ++ back)) (length front) ≡ false
    fits = ge→ltb _ _ (omega (arith, length-append front back))

-- A word that was written in `n` bytes is read back.
pub pop_word_lem :
    (n v : ℕ) (back : List ℕ) (r : Reader)
    → r.buf ≡ be_bytes n v ++ back
    → v < 256 ^ n
    → pop_word n r ≡ ok (v, record r { buf = back })
unfolding pop_word
pop_word_lem n v back r e h =
    rw (pop_lem n (be_bytes n v) back r e (length-be_bytes n v), be_value-be_bytes n v h) refl

pub pop_uint8_lem :
    (b : ℕ) (back : List ℕ) (r : Reader)
    → r.buf ≡ b ∷ back
    → b < 256
    → pop_uint8 r ≡ ok (b, record r { buf = back })
unfolding pop_uint8 be_bytes
pop_uint8_lem b back r e h = pop_word_lem 1 b back r (rw e (ap (λ t. t ∷ back) (omega arith))) h

pub pop_uint32_lem :
    (v : ℕ) (back : List ℕ) (r : Reader)
    → r.buf ≡ be_bytes 4 v ++ back
    → v < 2 ^ 32
    → pop_uint32 r ≡ ok (v, record r { buf = back })
unfolding pop_uint32
pop_uint32_lem v back r e h = pop_word_lem 4 v back r e h

pub pop_uint16_lem :
    (v : ℕ) (back : List ℕ) (r : Reader)
    → r.buf ≡ be_bytes 2 v ++ back
    → v < 2 ^ 16
    → pop_uint16 r ≡ ok (v, record r { buf = back })
unfolding pop_uint16
pop_uint16_lem v back r e h = pop_word_lem 2 v back r e h

pub pop_uint64_lem :
    (v : ℕ) (back : List ℕ) (r : Reader)
    → r.buf ≡ be_bytes 8 v ++ back
    → v < 2 ^ 64
    → pop_uint64 r ≡ ok (v, record r { buf = back })
unfolding pop_uint64
pop_uint64_lem v back r e h = pop_word_lem 8 v back r e h

pub discard_lem :
    (n : ℕ) (front back : List ℕ) (r : Reader)
    → r.buf ≡ front ++ back
    → length front ≡ n
    → discard n r ≡ ok (record r { buf = back })
unfolding discard
discard_lem n front back r e h = simp (e, ← h, fits, drop-length-append) refl
  where
    fits : ltb (length (front ++ back)) (length front) ≡ false
    fits = ge→ltb _ _ (omega (arith, length-append front back))
