-- ===== src/Client/Protocol/Parse.antt =====
-- parse2pX of internal/client/granularflow2pX.go.
pub mod Descriptions
pub mod Answers
pub mod Delivered
use edgedb_go.Common.{
  ℕ, ◌==◌, if◌then◌else◌, Bool, true, false, ◌⊎◌, inl, inr, Option, none, some, List, [], ◌∷◌,
  Outcome, ok, err, ◌>>=◌, lift, map_err, caught,
}
use edgedb_go.Buff.Writer.{
  Writer, new_writer, begin_message, end_message, push_uint8, push_uint16, push_uint64, push_string,
  push_uuid, unwrap,
}
use edgedb_go.Buff.Reader.{Reader}
use edgedb_go.Descriptor.Version.{ProtocolVersion, gte}
use edgedb_go.Descriptor.PopV2.{V2}
use edgedb_go.Client.Env.{OutOfFuel}
use edgedb_go.Client.Protocol.{
  FlowError, invalid_state, connection_closed, state_descriptor, state_ids, state_codec, wrap_all,
  command_data_description_type, error_response_type, ready_for_command_type,
  state_data_description_type, parse_type, sync_type,
}
use edgedb_go.Client.Protocol.Messages.{
  Conn, Handled, decode_error_response_msg, decode_ready_for_command_msg, fall_through,
}
use edgedb_go.Client.Protocol.Loop.{Flow, message_loop}
use edgedb_go.Client.Protocol.Script.{read_err}
use edgedb_go.Client.Protocol.Granular.{
  Encoder, GranularQuery, CacheCall, pop_description, decode_command_data_description_msg_2px,
}
use edgedb_go.Client.Protocol.Execute.{Builders}

-- The variables of the flow with those of the connection; a nil `desc` is `none`.
pub record Parsing (C : Type 0) : Type 0 where
  pub conn : Conn C
  pub state_enc : Encoder
  pub calls : List CacheCall
  pub desc : Option (V2 × V2)
  pub err : Option FlowError

-- The error that parse2pX returns, the description beside it, the variables and the reader.
abbrev pub Parsed : Type 0 → Type 0
Parsed C = Outcome OutOfFuel (Option FlowError × (Option (V2 × V2) × (Parsing C × Reader)))

unfoldable pub wrap_error : {C : Type 0} → Option FlowError → Flow (Parsing C) → Flow (Parsing C)
wrap_error e f = record f { state = record (f.state) { err = wrap_all (f.state.err ∷ e ∷ []) } }

module _ {C V : Type 0} (version : ProtocolVersion) (builders : Builders C V)
    (q : GranularQuery V) where
  -- Between `BeginMessage` and the first `EndMessage`.
  write_parse : Encoder → Writer → Outcome FlowError Writer
  write_parse state_enc w = do
    w₁ ← lift (push_uint16 0 w)
    w₂ ← lift (push_uint64 q.capabilities w₁)
    w₃ ← lift (push_uint64 0 w₂)
    w₄ ← lift (push_uint64 0 w₃)
    w₅ ←
        lift (if gte version (record { major = 3; minor = 0 }) then push_uint8 q.lang w₄ else ok w₄)
    w₆ ← lift (push_uint8 q.fmt w₅)
    w₇ ← lift (push_uint8 q.exp_card w₆)
    w₈ ← lift (push_string q.cmd w₇)
    w₉ ← lift (push_uuid state_enc.in_id w₈)
    map_err invalid_state (state_enc.encode w₉)

  unfoldable pub parse_request : Encoder → Outcome FlowError (List ℕ × Writer)
  unfolding write_parse
  parse_request state_enc = do
    w₁ ← lift (begin_message parse_type new_writer)
    w₂ ← write_parse state_enc w₁
    w₃ ← lift (end_message w₂)
    w₄ ← lift (begin_message sync_type w₃)
    w₅ ← lift (end_message w₄)
    lift (unwrap w₅)

  -- `case CommandDataDescription`: with an error the description is nil.
  unfoldable pub on_description : Flow (Parsing C) → Reader → Handled (Flow (Parsing C))
  unfolding wrap_error
  on_description f r = do
    (d, r') ← decode_command_data_description_msg_2px builders.unmarshal q f.state.calls r
    elim d.result [
      | inl e ↦ ok (
        none,
        (
          wrap_error (some e)
              (record f { state = record (f.state) { calls = d.calls; desc = none } }),
          r',
        ),
      )
      | inr descs ↦ ok (
        none,
        (
          wrap_error none
              (record f { state = record (f.state) { calls = d.calls; desc = some descs } }),
          r',
        ),
      )
    ]

  -- `case StateDataDescription`
  unfoldable pub on_state_description : Flow (Parsing C) → Reader → Handled (Flow (Parsing C))
  unfolding wrap_error
  on_state_description f r = do
    (result, r') ← pop_description state_descriptor state_ids r
    elim result [
      | inl e ↦ ok (none, (wrap_error (some e) f, r'))
      | inr desc ↦ do
        built ← caught (builders.state_encoder desc)
        elim built [
          | inl e ↦ ok (none, (wrap_error (some (state_codec e)) f, r'))
          | inr enc ↦ ok (none, (record f { state = record (f.state) { state_enc = enc } }, r'))
        ]
    ]

  -- The `switch` on the type of the message.
  unfoldable pub parse_type_2px : ℕ → Flow (Parsing C) → Reader → Handled (Flow (Parsing C))
  unfolding on_description on_state_description wrap_error
  parse_type_2px m_type f r =
      if m_type == state_data_description_type
      then on_state_description f r
      else if m_type == command_data_description_type
      then on_description f r
      else if m_type == ready_for_command_type
      then (do r' ← decode_ready_for_command_msg r; ok (none, (record f { done = true }, r')))
      else if m_type == error_response_type
      then (do (e, r') ← decode_error_response_msg q.cmd r; ok (none, (wrap_error (some e) f, r')))
      else do
        (e, (c, r')) ← fall_through version builders.config builders.config_v2 f.state.conn r
        ok (e, (record f { state = record (f.state) { conn = c } }, r'))

  unfoldable pub handle_parse : Flow (Parsing C) → Reader → Handled (Flow (Parsing C))
  unfolding parse_type_2px
  handle_parse f r = parse_type_2px r.msg_type f r

  -- What is behind the loop, for `r.Err` and `err`.
  unfoldable pub finish_parse : Option FlowError → Option FlowError → Parsing C → Reader → Parsed C
  finish_parse none none x r = ok (none, (x.desc, (x, r)))
  finish_parse a b x r = ok (wrap_all (a ∷ b ∷ []), (none, (x, r)))

  -- The variables at the start.
  abbrev pub start_parse : Parsing C → Flow (Parsing C)
  start_parse x = record { done = false; state = record x { desc = none; err = none } }

  -- `write_all` is the socket's WriteAll, and `picks` what the select of `Next` takes.
  module _ (write_all : List ℕ → Option FlowError) (picks : Reader → Bool) where
    unfoldable pub parse_loop : ℕ → Parsing C → Reader → Parsed C
    unfolding handle_parse finish_parse read_err
    parse_loop fuel x r = do
      (returned, (f, r')) ← message_loop picks handle_parse fuel (start_parse x) r
      elim returned [
        | some e ↦ ok (some e, (none, (f.state, r')))
        | none ↦ finish_parse (read_err r') f.state.err f.state r'
      ]

    unfoldable pub parse_2px : ℕ → Parsing C → Reader → Parsed C
    unfolding parse_request parse_loop
    parse_2px fuel x r = do
      request ← lift (caught (parse_request x.state_enc))
      elim request [
        | inl e ↦ ok (some e, (none, (x, r)))
        | inr (bytes, w) ↦ elim (write_all bytes) [
          | some e ↦ ok (some (connection_closed e), (none, (x, r)))
          | none ↦ parse_loop fuel x r
        ]
      ]
