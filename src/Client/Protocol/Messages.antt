-- ===== src/Client/Protocol/Messages.antt =====
-- What the flows make of a message: decodeErrorResponseMsg of internal/client/error.go, the messages
-- that end a command in granularflow0pX.go, and fallThrough of fallthrough.go.
pub mod Bodies
pub mod Unread
use edgedb_go.Common.{
  ℕ, ◌==◌, if◌then◌else◌, Bool, true, false, ◌⊎◌, inl, inr, Option, none, some, List, [], ◌∷◌,
  Outcome, NoError, ok, err, panic, ◌>>=◌, lift, map_err, caught,
}
use edgedb_go.Buff.Reader.{
  Reader, Read, discard, pop_uint8, pop_uint16, pop_uint32, pop_uuid, pop_bytes, pop_slice,
}
use edgedb_go.Descriptor.{Descriptor, descriptor}
use edgedb_go.Descriptor.Version.{ProtocolVersion, gte}
use edgedb_go.Descriptor.Pop.{pop}
use edgedb_go.Descriptor.PopV2.{V2, v2, pop_v2}
use edgedb_go.Client.Protocol.{
  FlowError, decode_line_no, decode_byte_no, decode_concurrency, config_descriptor, config_ids,
  config_codec, config_value, unexpected_message, unknown_parameter, joined, log_message_type,
  parameter_status_type, same_string, atoi,
}
use edgedb_go.Client.Protocol.Headers.{Headers, get_header, decode_loop, ignore_headers}
use edgedb_go.Client.Protocol.Warnings.{Warning, warning_err}

-- The keys of the headers of an error.
abbrev pub hint : ℕ
hint = 0x0001

abbrev pub position_start : ℕ
position_start = 0xfff1

abbrev pub line_start : ℕ
line_start = 0xfff3

-- The two pointers that are returned.
position_from : List ℕ → List ℕ → Outcome FlowError (Option ℕ × Option ℕ)
position_from line_no_raw byte_no_raw = elim (atoi line_no_raw) [
  | none ↦ err (decode_line_no line_no_raw)
  | some line_no ↦ elim (atoi byte_no_raw) [
    | none ↦ err (decode_byte_no byte_no_raw)
    | some byte_no ↦ ok (some line_no, some byte_no)
  ]
]

unfoldable pub position_from_headers : Headers → Outcome FlowError (Option ℕ × Option ℕ)
unfolding position_from
position_from_headers headers = elim (get_header line_start headers) [
  | none ↦ ok (none, none)
  | some line_no_raw ↦ elim (get_header position_start headers) [
    | none ↦ ok (none, none)
    | some byte_no_raw ↦ position_from line_no_raw byte_no_raw
  ]
]

-- `headers[hint]`, "" where it is missing
unfoldable pub get_hint : Headers → List ℕ
get_hint headers = elim (get_header hint headers) [ none ↦ [] | some text ↦ text ]

-- The error of a response once its parts are popped.
unfoldable pub response_error : ℕ → List ℕ → Headers → List ℕ → Read FlowError
unfolding position_from_headers get_hint
response_error code message headers query = do
  position ← caught (position_from_headers headers)
  elim position [
    | inl e ↦ do
      w ←
          warning_err
            (record { code = code; message = message; hint = []; line = none; start = none }) query
      ok (joined w e)
    | inr (line, start) ↦
        warning_err
          (record {
            code = code;
            message = message;
            hint = get_hint headers;
            line = line;
            start = start;
          })
          query
  ]

unfoldable pub decode_error_response_msg : List ℕ → Reader → Read (FlowError × Reader)
unfolding response_error
decode_error_response_msg query r = do
  r₁ ← discard 1 r
  (code, r₂) ← pop_uint32 r₁
  (message, r₃) ← pop_bytes r₂
  (n, r₄) ← pop_uint16 r₃
  (headers, r₅) ← decode_loop n [] r₄
  e ← response_error code message headers query
  ok (e, r₅)

unfoldable pub decode_command_complete_msg_0px : Reader → Read Reader
decode_command_complete_msg_0px r = do r₁ ← ignore_headers r; (status, r₂) ← pop_bytes r₁; ok r₂

unfoldable pub decode_ready_for_command_msg : Reader → Read Reader
decode_ready_for_command_msg r = do r₁ ← ignore_headers r; discard 1 r₁

-- The names of parameters.
abbrev pub pgaddr : List ℕ
pgaddr = 112 ∷ 103 ∷ 97 ∷ 100 ∷ 100 ∷ 114 ∷ []

abbrev pub pgdsn : List ℕ
pgdsn = 112 ∷ 103 ∷ 100 ∷ 115 ∷ 110 ∷ []

-- "suggested_pool_concurrency"
abbrev pub suggested_pool_concurrency : List ℕ
suggested_pool_concurrency =
    115 ∷ 117 ∷ 103 ∷ 103 ∷ 101 ∷ 115 ∷ 116 ∷ 101 ∷ 100 ∷ 95 ∷ 112 ∷ 111 ∷ 111 ∷ 108 ∷ 95 ∷ 99 ∷ 111
    ∷ 110 ∷ 99 ∷ 117 ∷ 114 ∷ 114 ∷ 101 ∷ 110 ∷ 99 ∷ 121 ∷ []

-- "system_config"
abbrev pub system_config : List ℕ
system_config = 115 ∷ 121 ∷ 115 ∷ 116 ∷ 101 ∷ 109 ∷ 95 ∷ 99 ∷ 111 ∷ 110 ∷ 102 ∷ 105 ∷ 103 ∷ []

-- What the messages set of a protocolConnection: of `server_settings` the first entry of a name is
-- its value, and `C` is the type of the decoded configuration.
pub record Conn (C : Type 0) : Type 0 where
  pub server_settings : List (List ℕ × ℕ)
  pub config : Option C

-- A decoder of the configuration, or the error of building it, as a number.
abbrev pub Built : Type 0 → Type 0
Built C = Outcome ℕ (Reader → Outcome ℕ C)

-- A handler's result: the error with which its flow returns, if it does.
abbrev pub Handled : Type 0 → Type 0
Handled S = Read (Option FlowError × (S × Reader))

-- `version` is the connection's protocol version. `build` and `build_v2` stand for BuildDecoder and
-- BuildDecoderV2 at the type of the configuration.
module _ {C : Type 0} (version : ProtocolVersion) (build : Descriptor → Built C)
    (build_v2 : V2 → Built C) where
  -- The codec that is built, and the value that it decodes behind the descriptor.
  decode_built : Built C → Reader → Outcome FlowError C
  decode_built built p = do
    decode ← map_err config_codec built
    (n, p₁) ← lift (pop_uint32 p)
    (value, p₂) ← lift (pop_slice n p₁)
    map_err config_value (decode value)

  config_of : Descriptor → List ℕ → Reader → Outcome FlowError C
  unfolding decode_built
  config_of (descriptor typ desc_id fields) id p =
      if same_string desc_id id
      then decode_built (build (descriptor typ desc_id fields)) p
      else err (config_ids id desc_id)

  decode_config : Reader → Outcome FlowError C
  unfolding config_of
  decode_config p = do
    (n, p₁) ← lift (pop_uint32 p)
    (d, p₂) ← lift (pop_slice n p₁)
    (id, d₁) ← lift (pop_uuid d)
    (desc, d₂) ← map_err config_descriptor (pop version d₁)
    config_of desc id p₂

  config_of_v2 : V2 → List ℕ → Reader → Outcome FlowError C
  unfolding decode_built
  config_of_v2 (v2 typ desc_id name implicit fields others) id p =
      if same_string desc_id id
      then decode_built (build_v2 (v2 typ desc_id name implicit fields others)) p
      else err (config_ids id desc_id)

  decode_config_v2 : Reader → Outcome FlowError C
  unfolding config_of_v2
  decode_config_v2 p = do
    (n, p₁) ← lift (pop_uint32 p)
    (d, p₂) ← lift (pop_slice n p₁)
    (id, d₁) ← lift (pop_uuid d)
    (desc, d₂) ← map_err config_descriptor (pop_v2 d₁)
    config_of_v2 desc id p₂

  -- `case "suggested_pool_concurrency"`
  unfoldable pub set_concurrency : Conn C → Reader → Handled (Conn C)
  set_concurrency c r = do
    (text, r') ← pop_bytes r
    elim (atoi text) [
      | none ↦ ok (some (decode_concurrency text), (c, r'))
      | some i ↦ ok (
        none,
        (record c { server_settings = (suggested_pool_concurrency, i) ∷ c.server_settings }, r'),
      )
    ]

  -- `case "system_config"`
  set_config : (Reader → Outcome FlowError C) → Conn C → Reader → Handled (Conn C)
  set_config decode c r = do
    (n, r₁) ← pop_uint32 r
    (p, r₂) ← pop_slice n r₁
    decoded ← caught (decode p)
    elim decoded [
      | inl e ↦ ok (some e, (c, r₂))
      | inr cfg ↦ ok (none, (record c { config = some cfg }, r₂))
    ]

  -- The inner `switch`: the case of pgaddr is empty and reads nothing.
  unfoldable pub parameter_status :
      (Reader → Outcome FlowError C) → List ℕ → Conn C → Reader → Handled (Conn C)
  unfolding set_concurrency set_config
  parameter_status decode name c r =
      if same_string name pgaddr
      then ok (none, (c, r))
      else if same_string name pgdsn
      then (do (dsn, r') ← pop_bytes r; ok (none, (c, r')))
      else if same_string name suggested_pool_concurrency
      then set_concurrency c r
      else if same_string name system_config
      then set_config decode c r
      else ok (some (unknown_parameter name), (c, r))

  unfoldable pub log_message : Conn C → Reader → Handled (Conn C)
  log_message c r = do
    (severity, r₁) ← pop_uint8 r
    (code, r₂) ← pop_uint32 r₁
    (message, r₃) ← pop_bytes r₂
    r₄ ← ignore_headers r₃
    ok (none, (c, r₄))

  -- The outer `switch` on the type of the message, which the two functions have alike.
  unfoldable pub fall_through_on :
      ℕ → (Reader → Outcome FlowError C) → Conn C → Reader → Handled (Conn C)
  unfolding parameter_status log_message
  fall_through_on m_type decode c r =
      if m_type == parameter_status_type
      then (do (name, r') ← pop_bytes r; parameter_status decode name c r')
      else if m_type == log_message_type
      then log_message c r
      else ok (some (unexpected_message m_type), (c, r))

  unfoldable pub fall_through : Conn C → Reader → Handled (Conn C)
  unfolding fall_through_on decode_config decode_config_v2
  fall_through c r =
      if gte version (record { major = 2; minor = 0 })
      then fall_through_on r.msg_type decode_config_v2 c r
      else fall_through_on r.msg_type decode_config c r
