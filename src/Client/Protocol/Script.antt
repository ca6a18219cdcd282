-- ===== src/Client/Protocol/Script.antt =====
-- execScriptFlow of internal/client/scriptflow.go.
pub mod Replies
pub mod Answers
use edgedb_go.Common.{
  ℕ, ◌==◌, not, Bool, if◌then◌else◌, true, false, Option, none, some, List, [], ◌∷◌, Outcome,
  NoError, ok, err, ◌>>=◌, lift,
}
use edgedb_go.Common.Bytes.{be_bytes}
use edgedb_go.Buff.Writer.{
  Writer, Written, new_writer, begin_message, end_message, push_string, unwrap,
}
use edgedb_go.Buff.Reader.{Reader, ReadError}
use edgedb_go.Descriptor.{Descriptor}
use edgedb_go.Descriptor.Version.{ProtocolVersion}
use edgedb_go.Descriptor.PopV2.{V2}
use edgedb_go.Client.Env.{OutOfFuel}
use edgedb_go.Client.Protocol.{
  FlowError, reading, state_not_supported, wrap_all, command_complete_type, ready_for_command_type,
  error_response_type, execute_script_type,
}
use edgedb_go.Client.Protocol.Headers.{Headers, write_headers_0px}
use edgedb_go.Client.Protocol.Messages.{
  Conn, Handled, Built, decode_error_response_msg, decode_command_complete_msg_0px,
  decode_ready_for_command_msg, fall_through,
}
use edgedb_go.Client.Protocol.Loop.{Flow, message_loop}

-- What a script needs of a query: its text, its capabilities, and the number of entries of its state.
pub record Query : Type 0 where
  pub cmd : List ℕ
  pub capabilities : ℕ
  pub state_size : ℕ

-- header.AllowCapabilities
abbrev pub allow_capabilities : ℕ
allow_capabilities = 0xff04

unfoldable pub headers_0px : Query → Headers
headers_0px q = (allow_capabilities, be_bytes 8 q.capabilities) ∷ []

-- The variables of a flow whose error is `err`.
pub record Local (C : Type 0) : Type 0 where
  pub conn : Conn C
  pub err : Option FlowError

-- `r.Err` as an error
unfoldable pub read_err : Reader → Option FlowError
read_err r = elim r.err [ none ↦ none | some e ↦ some (reading e) ]

-- The error that a flow returns, with the connection and the reader after it.
abbrev pub Flowed : Type 0 → Type 0
Flowed C = Outcome OutOfFuel (Option FlowError × (Conn C × Reader))

-- What a script flow sends.
unfoldable pub write_script : Query → Writer → Written Writer
unfolding headers_0px
write_script q w = do w₁ ← write_headers_0px (headers_0px q) w; push_string q.cmd w₁

unfoldable pub script_request : Query → Written (List ℕ × Writer)
unfolding write_script
script_request q = do
  w₁ ← begin_message execute_script_type new_writer
  w₂ ← write_script q w₁
  w₃ ← end_message w₂
  unwrap w₃

-- `case ErrorResponse`
unfoldable pub on_error_response :
    {C : Type 0} → Query → Flow (Local C) → Reader → Handled (Flow (Local C))
on_error_response q f r = do
  (e, r') ← decode_error_response_msg q.cmd r
  ok (
    none,
    (record f { state = record (f.state) { err = wrap_all (f.state.err ∷ some e ∷ []) } }, r'),
  )

-- `case ReadyForCommand`
unfoldable pub on_ready_for_command :
    {C : Type 0} → Flow (Local C) → Reader → Handled (Flow (Local C))
on_ready_for_command f r = do
  r' ← decode_ready_for_command_msg r
  ok (none, (record f { done = true }, r'))

module _ {C : Type 0} (version : ProtocolVersion) (build : Descriptor → Built C)
    (build_v2 : V2 → Built C) where
  -- `default`
  unfoldable pub on_other : Flow (Local C) → Reader → Handled (Flow (Local C))
  on_other f r = do
    (e, (c, r')) ← fall_through version build build_v2 f.state.conn r
    ok (e, (record f { state = record (f.state) { conn = c } }, r'))

  -- The `switch` on the type of the message.
  unfoldable pub handle_type : ℕ → Query → Flow (Local C) → Reader → Handled (Flow (Local C))
  unfolding on_error_response on_ready_for_command on_other
  handle_type m_type q f r =
      if m_type == command_complete_type
      then (do r' ← decode_command_complete_msg_0px r; ok (none, (f, r')))
      else if m_type == ready_for_command_type
      then on_ready_for_command f r
      else if m_type == error_response_type
      then on_error_response q f r
      else on_other f r

  unfoldable pub handle_script : Query → Flow (Local C) → Reader → Handled (Flow (Local C))
  unfolding handle_type
  handle_script q f r = handle_type r.msg_type q f r

  -- `write_all` is the socket's WriteAll, and `picks` what the select of `Next` takes.
  module _ (write_all : List ℕ → Option FlowError) (picks : Reader → Bool) where
    -- The loop and what is behind it.
    script_loop : ℕ → Query → Conn C → Reader → Flowed C
    unfolding handle_script read_err
    script_loop fuel q c r = do
      (returned, (f, r')) ←
          message_loop picks (handle_script q) fuel
            (record { done = false; state = record { conn = c; err = none } }) r
      elim returned [
        | some e ↦ ok (some e, (f.state.conn, r'))
        | none ↦ ok (wrap_all (f.state.err ∷ read_err r' ∷ []), (f.state.conn, r'))
      ]

    unfoldable pub exec_script_flow : ℕ → Query → Conn C → Reader → Flowed C
    unfolding script_request script_loop
    exec_script_flow fuel q c r =
        if not (q.state_size == 0) then ok (some state_not_supported, (c, r)) else do
          (bytes, w) ← lift (script_request q)
          elim (write_all bytes) [ some e ↦ ok (some e, (c, r)) | none ↦ script_loop fuel q c r ]
