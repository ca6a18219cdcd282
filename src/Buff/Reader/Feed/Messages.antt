-- ===== src/Buff/Reader/Feed/Messages.antt =====
-- `Next` on the bytes of whole messages.
use edgedb_go.Common.{
  ℕ, ◌+◌, ◌-◌, ◌^◌, ◌<◌, ok, ◌>>=◌, ◌≡◌, refl, ap, sym, ◌∙◌, arith, ge→ltb, take-ge,
}
use edgedb_go.Common.{
  List, [], ◌∷◌, ◌++◌, length, length-append, append_assoc, append-nil, append_split,
}
use edgedb_go.Common.{Bool, true, false, Option, none, some}
use edgedb_go.Common.Bytes.{be_bytes, length-be_bytes}
use edgedb_go.Buff.Writer.{Writer}
use edgedb_go.Buff.Writer.Blocks.{
  message_bytes, Blocks, blocks_bytes, write_message, write_message_lem,
}
use edgedb_go.Buff.Reader.{Reader, Data, Read}
use edgedb_go.Buff.Reader.Words.{pop_uint8_lem, pop_uint32_lem}
use edgedb_go.Buff.Reader.Feed.{
  release_empty, receive, next_end, next_header, next_message, next_select, next,
}
use edgedb_go.Buff.Reader.Feed.Delivery.{
  IsOpen, IsClean, pending, Fed, feed-Fed, release_empty-keeps, receive-first, pending-held,
}

-- `Next` returned true, with a message of this type and content in `Buf`, no error, and `rest` still
-- to come.
pub record Delivered (m_type : ℕ) (body rest : List ℕ) (r : Reader) : Type 0 where
  pub msg_type : r.msg_type ≡ m_type
  pub content : r.buf ≡ body
  pub still : pending r ≡ rest
  pub is_open : IsOpen r
  pub no_error : r.err ≡ none

abbrev Delivers : Read (Bool × Reader) → ℕ → List ℕ → List ℕ → Type 0
Delivers result m_type body rest =
    (r' : Reader) × (result ≡ ok (true, r')) × Delivered m_type body rest r'

-- The end of `Next`: the content was fed.
next_end-Delivers :
    (m_type : ℕ) (body rest : List ℕ) (r : Reader)
    → Fed (length body + 4 - 4) (body ++ rest) m_type r
    → Delivers (next_end (length body + 4) (none, r)) m_type body rest
unfolding next_end
next_end-Delivers m_type body rest r fed =
    let (content, still) =
      append_split r.buf (pending r) body rest fed.split (omega (arith, fed.size)) in
    let whole : length r.buf ≡ length body + 4 - 4 = fed.size in
    (
      record r { err = none; buf = r.buf },
      simp
          (
            ge→ltb (length r.buf) (length body + 4 - 4) (omega arith),
            take-ge (length body + 4 - 4) r.buf (omega arith),
          )
          refl,
      record {
        msg_type = fed.msg_type;
        content = content;
        still = still;
        is_open = fed.is_open;
        no_error = refl;
      },
    )

-- The header was fed: the type and the length are popped, and the content is fed.
next_header-Delivers :
    (m_type : ℕ) (body rest : List ℕ) (r : Reader)
    → m_type < 256
    → length body + 4 < 2 ^ 32
    → IsOpen r
    → r.buf ≡ m_type ∷ be_bytes 4 (length body + 4)
    → pending r ≡ body ++ rest
    → Delivers (next_header (none, r)) m_type body rest
unfolding next_header
next_header-Delivers m_type body rest r small fits opened b p =
    let header = be_bytes 4 (length body + 4) in
    let (r', e, fed) =
      feed-Fed (length body + 4) 4 (record r { err = none; buf = []; msg_type = m_type })
        (body ++ rest) opened refl p (omega arith) (omega (arith, length-append body rest)) in
    let (r'', q, d) = next_end-Delivers m_type body rest r' fed in
    (
      r'',
      rw
          (
            pop_uint8_lem m_type header (record r { err = none }) b small,
            pop_uint32_lem (length body + 4) []
                (record r { err = none; buf = header; msg_type = m_type }) (sym (append-nil header))
                fits,
            e,
          )
          q,
      d,
    )

next_message-Delivers :
    (m_type : ℕ) (body rest : List ℕ) (r : Reader)
    → m_type < 256
    → length body + 4 < 2 ^ 32
    → IsOpen r
    → r.buf ≡ []
    → pending r ≡ message_bytes m_type body ++ rest
    → Delivers (next_message (none, r)) m_type body rest
unfolding next_message message_bytes
next_message-Delivers m_type body rest r small fits opened b p =
    let header : List ℕ = m_type ∷ be_bytes 4 (length body + 4) in
    let cut : pending r ≡ header ++ (body ++ rest) =
      p ∙ ap (λ t. m_type ∷ t) (append_assoc (be_bytes 4 (length body + 4)) body rest) in
    let five : length header ≡ 5 = omega (arith, length-be_bytes 4 (length body + 4)) in
    let (r', e, fed) =
      feed-Fed 5 0 r (header ++ (body ++ rest)) opened b cut (omega arith)
        (omega (arith, length-append header (body ++ rest))) in
    let (front, back) =
      append_split r'.buf (pending r') header (body ++ rest) fed.split (omega (arith, fed.size)) in
    let (r'', q, d) = next_header-Delivers m_type body rest r' small fits fed.is_open front back in
    (r'', rw e q, d)

-- `Next` takes the receive: the channel brings a first chunk.
next_fresh-Delivers :
    (m_type : ℕ) (body rest : List ℕ) (stream : List Data) (r : Reader)
    → m_type < 256
    → length body + 4 < 2 ^ 32
    → r.to_be_deserialized ≡ some stream
    → IsClean stream
    → r.held ≡ none
    → r.buf ≡ []
    → pending r ≡ message_bytes m_type body ++ rest
    → Delivers (receive r >>= next_message) m_type body rest
unfolding message_bytes
next_fresh-Delivers m_type body rest [] r small fits e clean h b p =
    absurd (omega (arith, ap length (sym p ∙ pending-held none [] r h e)))
next_fresh-Delivers m_type body rest (d ∷ stream) r small fits e clean h b p =
    rw (receive-first d stream r e clean.0) (
      next_message-Delivers m_type body rest
        (record r { to_be_deserialized = some stream; held = some d }) small fits
        (stream, refl, clean.1) b (sym (pending-held none (d ∷ stream) r h e) ∙ p))

next_select-Delivers :
    (m_type : ℕ) (body rest : List ℕ) (held : Option Data) (r : Reader)
    → m_type < 256
    → length body + 4 < 2 ^ 32
    → IsOpen r
    → r.held ≡ held
    → r.buf ≡ []
    → pending r ≡ message_bytes m_type body ++ rest
    → Delivers (next_select false r) m_type body rest
unfolding next_select
next_select-Delivers m_type body rest none r small fits (stream, e, clean) h b p =
    let (r', q, d) = next_fresh-Delivers m_type body rest stream r small fits e clean h b p in
    (r', ground (arith, q), d)
next_select-Delivers m_type body rest (some x) r small fits opened h b p =
    let (r', q, d) = next_message-Delivers m_type body rest r small fits opened b p in
    (r', ground (arith, q), d)

next-select :
    (done : Bool) (r : Reader)
    → IsOpen r
    → r.buf ≡ []
    → next done r ≡ next_select done (record (release_empty r) { msg_type = 0 })
unfolding next
next-select done r (stream, e, clean) b = ground arith

-- Whatever chunks the socket cuts them into, the bytes of a message that stand next to come make
-- `Next` return true with the type and the content of that message, and leave the bytes behind it
-- to come. The reader is open with an empty `Buf`, the type is a byte, and the length fits 32 bits.
pub next-message_bytes :
    (m_type : ℕ) (body rest : List ℕ) (r : Reader)
    → m_type < 256
    → length body + 4 < 2 ^ 32
    → IsOpen r
    → r.buf ≡ []
    → pending r ≡ message_bytes m_type body ++ rest
    → (r' : Reader) × (next false r ≡ ok (true, r')) × Delivered m_type body rest r'
next-message_bytes m_type body rest r small fits opened b p =
    let (kept, same_channel, same_buf, same_type) = release_empty-keeps r in
    rw (next-select false r opened b) (
      next_select-Delivers m_type body rest (release_empty r).held
        (record (release_empty r) { msg_type = 0 }) small fits
        (opened.0, same_channel ∙ opened.1, opened.2) refl (same_buf ∙ b) (kept ∙ p))

-- What the calls of a writer leave in an empty buffer between `BeginMessage` and `EndMessage` is,
-- sent in any chunks and followed by any bytes, one message for `Next`, of the same type and with
-- the bytes of the blocks as its content. The type is a byte and the length fits 32 bits; the writer
-- is new, the reader open with an empty `Buf`.
pub next-write_message :
    (m_type : ℕ) (bs : Blocks) (w w' : Writer) (rest : List ℕ) (r : Reader)
    → w.buf ≡ []
    → w.msg_pos ≡ 0
    → w.byte_pos ≡ []
    → write_message m_type bs w ≡ ok w'
    → m_type < 256
    → length (blocks_bytes bs) + 4 < 2 ^ 32
    → IsOpen r
    → r.buf ≡ []
    → pending r ≡ w'.buf ++ rest
    → (r' : Reader) × (next false r ≡ ok (true, r')) × Delivered m_type (blocks_bytes bs) rest r'
next-write_message m_type bs w w' rest r fresh out closed written small fits opened b p =
    next-message_bytes m_type (blocks_bytes bs) rest r small fits opened b
      (p ∙ ap (λ t. t ++ rest) sent)
  where
    sent : w'.buf ≡ message_bytes m_type (blocks_bytes bs)
    sent = cc (written, write_message_lem m_type bs w out closed, fresh)
