-- ===== src/Buff/Writer/Requests.antt =====
-- A buffer of one message, from a new writer to what is sent.
use edgedb_go.Common.{ℕ, suc, ◌+◌, ok, ◌>>=◌, ◌≡◌, refl, arith, List, ◌++◌, length, ne→==}
use edgedb_go.Common.Bytes.{be_bytes}
use edgedb_go.Buff.Writer.{Writer, Written, new_writer, begin_message, end_message, unwrap}
use edgedb_go.Buff.Writer.Blocks.{message_bytes, end_message_lem}
use edgedb_go.Buff.Writer.Words.{appended}

-- What is sent for calls that append `body` in a new writer is one message with that content.
pub unwrap-message :
    (m_type : ℕ) (body : List ℕ) (write : Writer → Written Writer)
    → ((w : Writer) → write w ≡ ok (appended w body))
    → (do w₁ ← begin_message m_type new_writer; w₂ ← write w₁; w₃ ← end_message w₂; unwrap w₃)
      ≡ ok (message_bytes m_type body, new_writer)
unfolding begin_message unwrap message_bytes
unwrap-message m_type body write h =
    rw (h, end_message_lem new_writer m_type body refl)
      (rw (ne→== (suc (length (be_bytes 4 (length body + 4) ++ body))) 0 (omega arith)) refl)
