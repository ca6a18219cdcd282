-- ===== src/Client/Protocol/Execute.antt =====
-- execute2pX of internal/client/granularflow2pX.go.
pub mod Replies
pub mod Answers
pub mod Delivered
use edgedb_go.Common.{
  ℕ, ◌==◌, not, ◌&&◌, if◌then◌else◌, Bool, true, false, ◌⊎◌, inl, inr, Option, none, some, List, [],
  ◌∷◌, ◌++◌, Outcome, NoError, ok, err, panic, ◌>>=◌, lift, map_err, caught,
}
use edgedb_go.Buff.Writer.{
  Writer, new_writer, begin_message, end_message, push_uint8, push_uint16, push_uint64, push_string,
  push_uuid, unwrap,
}
use edgedb_go.Buff.Reader.{Reader, Read}
use edgedb_go.Descriptor.{Descriptor}
use edgedb_go.Descriptor.Version.{ProtocolVersion, gte}
use edgedb_go.Descriptor.PopV2.{V2}
use edgedb_go.Client.Env.{OutOfFuel}
use edgedb_go.Client.Protocol.{
  FlowError, invalid_argument, invalid_state, connection_closed, zero_results, state_descriptor,
  state_ids, state_codec, wrap_all, command_complete_type, command_data_description_type, data_type,
  error_response_type, ready_for_command_type, state_data_description_type, execute_type, sync_type,
}
use edgedb_go.Client.Protocol.Warnings.{Warning}
use edgedb_go.Client.Protocol.Messages.{
  Conn, Handled, Built, decode_error_response_msg, decode_ready_for_command_msg, fall_through,
}
use edgedb_go.Client.Protocol.Loop.{Flow, message_loop}
use edgedb_go.Client.Protocol.Script.{read_err}
use edgedb_go.Client.Protocol.Granular.Requests.{execute_request}
use edgedb_go.Client.Protocol.Granular.{
  Decoder, Encoder, CodecPair, GranularQuery, flat, json_format, null_format, at_most_one,
  CacheCall, put_codecs, Row, Described, pop_description, decode_data_msg,
  decode_command_data_description_msg_2px, decode_command_complete_msg_2px,
}

-- What the flow calls and does not contain: BuildDecoder at the type of the configuration,
-- BuildEncoderV2 and BuildDecoderV2 for the query, codecs.JSONBytes, state.BuildEncoderV2, and
-- json.Unmarshal of warnings.
pub record Builders (C V : Type 0) : Type 0 where
  pub config : Descriptor → Built C
  pub config_v2 : V2 → Built C
  pub encoder : V2 → Outcome ℕ Encoder
  pub decoder : V2 → Outcome ℕ (Decoder V)
  pub json_bytes : Decoder V
  pub state_encoder : V2 → Outcome ℕ Encoder
  pub unmarshal : List ℕ → ℕ ⊎ List (Option Warning)

-- The variables of the flow with those of the connection. `rows` is `tmp`, and `out` what `q.out`
-- points to where the query has one row; a nil `cdcs` is `none`.
pub record Exec (C V : Type 0) : Type 0 where
  pub conn : Conn C
  pub state_enc : Encoder
  pub calls : List CacheCall
  pub cdcs : Option (CodecPair V)
  pub err : Option FlowError
  pub rows : List V
  pub out : V

-- `err == errZeroResults`
unfoldable pub is_zero_results : Option FlowError → Bool
is_zero_results (some zero_results) = true
is_zero_results _ = false

unfoldable pub forget_zero_results : Option FlowError → Option FlowError
unfolding is_zero_results
forget_zero_results e = if is_zero_results e then none else e

-- `err` after the error of decodeDataMsg.
unfoldable pub after_row : Option FlowError → Option FlowError → Option FlowError
unfolding forget_zero_results
after_row e none = forget_zero_results e
after_row e (some x) =
    forget_zero_results (if is_zero_results e then some x else wrap_all (e ∷ some x ∷ []))

unfoldable pub wrap_err : {C V : Type 0} → Option FlowError → Flow (Exec C V) → Flow (Exec C V)
wrap_err e f = record f { state = record (f.state) { err = wrap_all (f.state.err ∷ e ∷ []) } }

-- The error that execute2pX returns, the rows that it sets the slice of the caller to, and the
-- variables and the reader that it leaves.
abbrev pub Executed : Type 0 → Type 0 → Type 0
Executed C V = Outcome OutOfFuel (Option FlowError × (Option (List V) × (Exec C V × Reader)))

module _ {C V : Type 0} (version : ProtocolVersion) (builders : Builders C V)
    (q : GranularQuery V) where
  -- codecsFromDescriptors2pX
  out_decoder : V2 → Outcome ℕ (Decoder V)
  out_decoder desc = if q.fmt == json_format then ok builders.json_bytes else builders.decoder desc

  unfoldable pub codecs_from_descriptors_2px : V2 × V2 → Outcome FlowError (CodecPair V)
  unfolding out_decoder
  codecs_from_descriptors_2px (i, o) = do
    encoder ← map_err invalid_argument (builders.encoder i)
    decoder ← map_err invalid_argument (out_decoder o)
    ok (record { args = encoder; out = decoder })

  -- The codecs for the descriptors: without descriptors a nil pointer is read.
  rebuild : Described → Read (FlowError ⊎ CodecPair V)
  unfolding codecs_from_descriptors_2px
  rebuild d = elim d.result [
    | inl e ↦ panic
    | inr descs ↦ caught (codecs_from_descriptors_2px descs)
  ]

  -- `case CommandDataDescription`
  unfoldable pub on_command_data_description : Flow (Exec C V) → Reader → Handled (Flow (Exec C V))
  unfolding rebuild wrap_err
  on_command_data_description f r = do
    (d, r') ← decode_command_data_description_msg_2px builders.unmarshal q f.state.calls r
    built ← rebuild d
    elim built [
      | inl e ↦ ok (
        none,
        (
          wrap_err (some e)
              (record f { state = record (f.state) { calls = d.calls; cdcs = none } }),
          r',
        ),
      )
      | inr cdcs ↦ ok (
        none,
        (
          record f {
            state = record (f.state) {
              calls = d.calls ++ put_codecs cdcs.args.in_id cdcs.out.out_id ∷ [];
              cdcs = some cdcs;
            };
          },
          r',
        ),
      )
    ]

  -- `case StateDataDescription`, with decodeStateDataDescription2pX
  unfoldable pub on_state_data_description : Flow (Exec C V) → Reader → Handled (Flow (Exec C V))
  unfolding wrap_err
  on_state_data_description f r = do
    (result, r') ← pop_description state_descriptor state_ids r
    elim result [
      | inl e ↦ ok (none, (wrap_err (some e) f, r'))
      | inr desc ↦ do
        built ← caught (builders.state_encoder desc)
        elim built [
          | inl e ↦ ok (none, (wrap_err (some (state_codec e)) f, r'))
          | inr enc ↦ ok (none, (record f { state = record (f.state) { state_enc = enc } }, r'))
        ]
    ]

  -- `case Data`
  unfoldable pub on_data : Flow (Exec C V) → Reader → Handled (Flow (Exec C V))
  unfolding after_row
  on_data f r = do
    (row, r') ← decode_data_msg q f.state.cdcs f.state.out r
    ok (
      none,
      (
        record f {
          state = record (f.state) {
            err = after_row f.state.err row.error;
            rows = elim row.appended [ none ↦ f.state.rows | some v ↦ f.state.rows ++ v ∷ [] ];
            out = row.out;
          };
        },
        r',
      ),
    )

  -- The `switch` on the type of the message.
  unfoldable pub execute_type_2px : ℕ → Flow (Exec C V) → Reader → Handled (Flow (Exec C V))
  unfolding on_command_data_description on_state_data_description on_data wrap_err
      forget_zero_results
  execute_type_2px m_type f r =
      if m_type == state_data_description_type
      then on_state_data_description f r
      else if m_type == command_data_description_type
      then on_command_data_description f r
      else if m_type == data_type
      then on_data f r
      else if m_type == command_complete_type
      then (do
        (calls, r') ← decode_command_complete_msg_2px f.state.calls r
        ok (none, (record f { state = record (f.state) { calls = calls } }, r')))
      else if m_type == ready_for_command_type
      then (do r' ← decode_ready_for_command_msg r; ok (none, (record f { done = true }, r')))
      else if m_type == error_response_type
      then (do
        (e, r') ← decode_error_response_msg q.cmd r
        ok (
          none,
          (
            record f {
              state = record (f.state) {
                err = wrap_all (forget_zero_results f.state.err ∷ some e ∷ []);
              };
            },
            r',
          ),
        ))
      else do
        (e, (c, r')) ← fall_through version builders.config builders.config_v2 f.state.conn r
        ok (e, (record f { state = record (f.state) { conn = c } }, r'))

  unfoldable pub handle_execute : Flow (Exec C V) → Reader → Handled (Flow (Exec C V))
  unfolding execute_type_2px
  handle_execute f r = execute_type_2px r.msg_type f r

  -- `q.out.Set(tmp)`: the rows that the slice of the caller holds afterwards, where it is set.
  unfoldable pub set_rows : Exec C V → Option (List V)
  unfolding flat
  set_rows x = if not (flat q) && not (q.fmt == null_format) then some x.rows else none

  -- The variables at the start: `err` is the error of an answer without rows.
  unfoldable pub start_execute : Exec C V → CodecPair V → Flow (Exec C V)
  start_execute x cdcs = record {
    done = false;
    state = record x {
      cdcs = some cdcs;
      err = if q.exp_card == at_most_one then some zero_results else none;
      rows = [];
    };
  }

  -- What is behind the loop, for `r.Err`.
  unfoldable pub finish_execute : Option FlowError → Exec C V → Reader → Executed C V
  unfolding set_rows
  finish_execute none x r = ok (x.err, (set_rows x, (x, r)))
  finish_execute (some e) x r = ok (wrap_all (x.err ∷ some e ∷ []), (none, (x, r)))

  -- `write_all` is the socket's WriteAll, and `picks` what the select of `Next` takes.
  module _ (write_all : List ℕ → Option FlowError) (picks : Reader → Bool) where
    unfoldable pub execute_loop : ℕ → Exec C V → CodecPair V → Reader → Executed C V
    unfolding handle_execute finish_execute start_execute read_err
    execute_loop fuel x cdcs r = do
      (returned, (f, r')) ← message_loop picks handle_execute fuel (start_execute x cdcs) r
      elim returned [
        | some e ↦ ok (some e, (none, (f.state, r')))
        | none ↦ finish_execute (read_err r') f.state r'
      ]

    unfoldable pub execute_2px : ℕ → Exec C V → CodecPair V → Reader → Executed C V
    unfolding execute_loop
    execute_2px fuel x cdcs r = do
      request ← lift (caught (execute_request version q x.state_enc cdcs))
      elim request [
        | inl e ↦ ok (some e, (none, (x, r)))
        | inr (bytes, w) ↦ elim (write_all bytes) [
          | some e ↦ ok (some (connection_closed e), (none, (x, r)))
          | none ↦ execute_loop fuel x cdcs r
        ]
      ]
