-- ===== src/Buff/Writer/Blocks.antt =====
-- What a client's calls leave in the buffer: nested length-prefixed blocks inside a message.
use edgedb_go.Common.{ℕ, ◌+◌, ◌-◌, ltb, ok, ◌>>=◌, ◌≡◌, ◌≢◌, refl, sym, arith}
use edgedb_go.Common.{List, [], ◌∷◌, ◌++◌, length, drop, length-append, append_assoc, append-nil}
use edgedb_go.Common.{take-length-append, drop-length-append, ge→ltb, ne→==, false}
use edgedb_go.Common.Bytes.{be_bytes, length-be_bytes}
use edgedb_go.Buff.Writer.{
  Writer, Written, push_bytes, put_at, begin_bytes, end_bytes, begin_message, end_message,
}

-- Overwriting a segment by another of the same length.
pub put_at-segment :
    (front old new back : List ℕ)
    → length old ≡ length new
    → put_at (length front) new (front ++ (old ++ back)) ≡ ok (front ++ (new ++ back))
unfolding put_at
put_at-segment front old new back h = rw (fits, dropped) (rw take-length-append refl)
  where
    fits : ltb (length (front ++ (old ++ back))) (length front + length new) ≡ false
    fits = ge→ltb _ _ (omega (arith, length-append front (old ++ back), length-append old back))

    total : length front + length new ≡ length (front ++ old)
    total = omega (arith, length-append front old)

    dropped : drop (length front + length new) (front ++ (old ++ back)) ≡ back
    dropped = rw (total, ← append_assoc) (drop-length-append (front ++ old) back)

mutual
  -- The calls between `BeginMessage` and `EndMessage`: plain bytes, and blocks between `BeginBytes`
  -- and `EndBytes`, one after the other and inside one another.
  pub data Block : Type 0 where
    raw : List ℕ → Block
    nested : Blocks → Block

  pub data Blocks : Type 0 where
    nil : Blocks
    cons : Block → Blocks → Blocks

unfoldable mutual
  pub write_block : Block → Writer → Written Writer
  write_block (raw bs) w = push_bytes bs w
  write_block (nested bs) w = do w' ← begin_bytes w; w'' ← write_blocks bs w'; end_bytes w''

  pub write_blocks : Blocks → Writer → Written Writer
  write_blocks nil w = ok w
  write_blocks (cons b bs) w = do w' ← write_block b w; write_blocks bs w'

unfoldable mutual
  -- The bytes on the wire: a nested block is its length in four bytes and its content.
  pub block_bytes : Block → List ℕ
  block_bytes (raw bs) = bs
  block_bytes (nested bs) = be_bytes 4 (length (blocks_bytes bs)) ++ blocks_bytes bs

  pub blocks_bytes : Blocks → List ℕ
  blocks_bytes nil = []
  blocks_bytes (cons b bs) = block_bytes b ++ blocks_bytes bs

-- `EndBytes` right after `body` was written into the block that `BeginBytes` opened on `w`.
pub end_bytes_lem :
    (w : Writer) (body : List ℕ)
    → end_bytes (record w {
      buf = (w.buf ++ 0 ∷ 0 ∷ 0 ∷ 0 ∷ []) ++ body;
      byte_pos = length w.buf ∷ w.byte_pos;
    })
      ≡ ok (record w { buf = w.buf ++ (be_bytes 4 (length body) ++ body) })
unfolding end_bytes
end_bytes_lem w body =
    rw (size, append_assoc)
      (rw
        (put_at-segment w.buf (0 ∷ 0 ∷ 0 ∷ 0 ∷ []) (be_bytes 4 (length body)) body
          (sym (length-be_bytes 4 _)))
        refl)
  where
    size : length ((w.buf ++ 0 ∷ 0 ∷ 0 ∷ 0 ∷ []) ++ body) - length w.buf - 4 ≡ length body
    size = omega (
      arith,
      length-append (w.buf ++ 0 ∷ 0 ∷ 0 ∷ 0 ∷ []) body,
      length-append w.buf (0 ∷ 0 ∷ 0 ∷ 0 ∷ []),
    )

mutual
  unfolding write_block write_blocks block_bytes blocks_bytes push_bytes begin_bytes

  write_block_lem :
      (b : Block) (w : Writer)
      → w.msg_pos ≢ 0
      → write_block b w ≡ ok (record w { buf = w.buf ++ block_bytes b })
  write_block_lem (raw bs) w h = refl
  write_block_lem (nested bs) w h =
      rw
        (
          ne→== w.msg_pos 0 h,
          write_blocks_lem bs
              (record w { buf = w.buf ++ 0 ∷ 0 ∷ 0 ∷ 0 ∷ []; byte_pos = length w.buf ∷ w.byte_pos })
              h,
        )
        (end_bytes_lem w (blocks_bytes bs))

  write_blocks_lem :
      (bs : Blocks) (w : Writer)
      → w.msg_pos ≢ 0
      → write_blocks bs w ≡ ok (record w { buf = w.buf ++ blocks_bytes bs })
  write_blocks_lem nil w h = rw append-nil refl
  write_blocks_lem (cons b bs) w h =
      rw
        (
          write_block_lem b w h,
          write_blocks_lem bs (record w { buf = w.buf ++ block_bytes b }) h,
          append_assoc,
        )
        refl

-- `EndMessage` right after `body` was written into the message that `BeginMessage` opened on `w`.
pub end_message_lem :
    (w : Writer) (m_type : ℕ) (body : List ℕ)
    → w.byte_pos ≡ []
    → end_message (record w {
      buf = (w.buf ++ m_type ∷ 0 ∷ 0 ∷ 0 ∷ 0 ∷ []) ++ body;
      msg_pos = 1 + length w.buf;
    })
      ≡ ok (record w {
        buf = w.buf ++ (m_type ∷ (be_bytes 4 (length body + 4) ++ body));
        msg_pos = 0;
      })
unfolding end_message
end_message_lem w m_type body k =
    rw (ne→== (1 + length w.buf) 0 (omega arith), k, size, grouped, start)
      (rw
        (put_at-segment front zeros (be_bytes 4 (length body + 4)) body (sym (length-be_bytes 4 _)))
        (rw append_assoc refl))
  where
    front : List ℕ
    front = w.buf ++ m_type ∷ []

    zeros : List ℕ
    zeros = 0 ∷ 0 ∷ 0 ∷ 0 ∷ []

    start : 1 + length w.buf ≡ length front
    start = omega (arith, length-append w.buf (m_type ∷ []))

    size :
        length ((w.buf ++ m_type ∷ 0 ∷ 0 ∷ 0 ∷ 0 ∷ []) ++ body) - (1 + length w.buf)
        ≡ length body + 4
    size =
        omega (
          arith,
          length-append (w.buf ++ m_type ∷ zeros) body,
          length-append w.buf (m_type ∷ zeros),
        )

    grouped : (w.buf ++ m_type ∷ 0 ∷ 0 ∷ 0 ∷ 0 ∷ []) ++ body ≡ front ++ (zeros ++ body)
    grouped = rw (append_assoc, append_assoc) refl

unfoldable pub write_message : ℕ → Blocks → Writer → Written Writer
write_message m_type bs w = do
  w' ← begin_message m_type w
  w'' ← write_blocks bs w'
  end_message w''

-- The bytes of a message: its type, the length of what follows, and its content.
unfoldable pub message_bytes : ℕ → List ℕ → List ℕ
message_bytes m_type body = m_type ∷ (be_bytes 4 (length body + 4) ++ body)

-- `BeginMessage`, the calls of the blocks, and `EndMessage` append the type of the message, the length
-- of what follows, and the content, in which the length of each nested block stands in front of it.
-- No message and no block of bytes is open before.
pub write_message_lem :
    (m_type : ℕ) (bs : Blocks) (w : Writer)
    → w.msg_pos ≡ 0
    → w.byte_pos ≡ []
    → write_message m_type bs w
      ≡ ok (record w { buf = w.buf ++ message_bytes m_type (blocks_bytes bs) })
unfolding write_message message_bytes begin_message end_message
write_message_lem m_type bs w h k =
    rw
      (
        h,
        write_blocks_lem bs
            (record w { buf = w.buf ++ m_type ∷ 0 ∷ 0 ∷ 0 ∷ 0 ∷ []; msg_pos = 1 + length w.buf })
            (omega arith),
      )
      (end_message_lem w m_type (blocks_bytes bs) k)
