-- ===== src/Client/Protocol/Granular/Requests.antt =====
-- What execute2pX of internal/client/granularflow2pX.go sends.
use edgedb_go.Common.{ℕ, if◌then◌else◌, Outcome, ok, ◌>>=◌, lift, map_err, List}
use edgedb_go.Buff.Writer.{
  Writer, new_writer, begin_message, end_message, push_uint8, push_uint16, push_uint64, push_string,
  push_uuid, unwrap,
}
use edgedb_go.Descriptor.Version.{ProtocolVersion, gte}
use edgedb_go.Client.Protocol.{FlowError, invalid_argument, invalid_state, execute_type, sync_type}
use edgedb_go.Client.Protocol.Granular.{Encoder, CodecPair, GranularQuery}

-- Between `BeginMessage` and the first `EndMessage`.
write_execute :
    {V : Type 0}
    → ProtocolVersion
    → GranularQuery V
    → Encoder
    → CodecPair V
    → Writer
    → Outcome FlowError Writer
write_execute version q state_enc cdcs w = do
  w₁ ← lift (push_uint16 0 w)
  w₂ ← lift (push_uint64 q.capabilities w₁)
  w₃ ← lift (push_uint64 0 w₂)
  w₄ ← lift (push_uint64 0 w₃)
  w₅ ← lift (if gte version (record { major = 3; minor = 0 }) then push_uint8 q.lang w₄ else ok w₄)
  w₆ ← lift (push_uint8 q.fmt w₅)
  w₇ ← lift (push_uint8 q.exp_card w₆)
  w₈ ← lift (push_string q.cmd w₇)
  w₉ ← lift (push_uuid state_enc.in_id w₈)
  w₁₀ ← map_err invalid_state (state_enc.encode w₉)
  w₁₁ ← lift (push_uuid cdcs.args.in_id w₁₀)
  w₁₂ ← lift (push_uuid cdcs.out.out_id w₁₁)
  map_err invalid_argument (cdcs.args.encode w₁₂)

unfoldable pub execute_request :
    {V : Type 0}
    → ProtocolVersion
    → GranularQuery V
    → Encoder
    → CodecPair V
    → Outcome FlowError (List ℕ × Writer)
unfolding write_execute
execute_request version q state_enc cdcs = do
  w₁ ← lift (begin_message execute_type new_writer)
  w₂ ← write_execute version q state_enc cdcs w₁
  w₃ ← lift (end_message w₂)
  w₄ ← lift (begin_message sync_type w₃)
  w₅ ← lift (end_message w₄)
  lift (unwrap w₅)
