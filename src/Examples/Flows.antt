-- ===== src/Examples/Flows.antt =====
-- The flows of internal/client on concrete messages.
use edgedb_go.Common.{
  ℕ, ◌+◌, ◌<◌, ◌^◌, ok, err, ◌≡◌, refl, ◌∙◌, arith, List, [], ◌∷◌, ◌++◌, length, take, drop,
  take-append-drop, append-nil, Bool, true, false, Option, none, some, ap,
}
use edgedb_go.Common.Bytes.{be_bytes}
use edgedb_go.Buff.Writer.{new_writer}
use edgedb_go.Buff.Writer.Words.{appended}
use edgedb_go.Buff.Reader.{Reader, unread_data}
use edgedb_go.Buff.Reader.Reads.{text}
use edgedb_go.Buff.Reader.Feed.{next}
use edgedb_go.Buff.Reader.Feed.Signal.{Awaits, Idle}
use edgedb_go.Descriptor.{Descriptor}
use edgedb_go.Descriptor.Version.{ProtocolVersion}
use edgedb_go.Descriptor.PopV2.{V2}
use edgedb_go.Client.Protocol.{
  FlowError, from_code, positioned, zero_results, foreign, wrap_all, atoi, parameter_status_type,
}
use edgedb_go.Client.Protocol.Headers.{
  Headers, get_header, set_header, decode_headers_0px, write_headers_0px,
}
use edgedb_go.Client.Protocol.Headers.Laws.{Distinct, decode_headers-write_headers, set_all}
use edgedb_go.Client.Protocol.Errors.{any, found_in, wrap_all-found}
use edgedb_go.Client.Protocol.Warnings.{
  Warning, warning_err, rune_count, replace_tabs, spaces, hint_or_error,
}
use edgedb_go.Client.Protocol.Warnings.Positions.{
  line_ends, last_line, first_line, warning_err-position,
}
use edgedb_go.Client.Protocol.Messages.{Conn, Built, pgaddr, fall_through, response_error}
use edgedb_go.Client.Protocol.Messages.Bodies.{ready_for_command_bytes, logged, pool_concurrency}
use edgedb_go.Client.Protocol.Messages.Unread.{fall_through-pgaddr}
use edgedb_go.Client.Protocol.Loop.Delivery.{wire}
use edgedb_go.Client.Protocol.Script.{Query, exec_script_flow}
use edgedb_go.Client.Protocol.Script.Replies.{Reply, error_response, aside, reply_type, reply_bytes}
use edgedb_go.Client.Protocol.Script.Answers.{
  AllBefore, answer, errors_after, conn_after, exec_script_flow-answer,
}

abbrev two_headers : Headers
two_headers = (0xff04, 1 ∷ 2 ∷ []) ∷ (0x1001, []) ∷ []

two_headers-Distinct : Distinct two_headers
unfolding Distinct
two_headers-Distinct = ((omega arith, tt), (tt, tt))

decode_headers-write_headers_example :
    (bytes : List ℕ) × (write_headers_0px two_headers new_writer ≡ ok (appended new_writer bytes))
    × ((back : List ℕ) (r : Reader)
        → r.buf ≡ bytes ++ back
        → (m : Headers) × (decode_headers_0px r ≡ ok (m, record r { buf = back }))
          × ((key : ℕ) → get_header key m ≡ get_header key two_headers))
decode_headers-write_headers_example =
    decode_headers-write_headers two_headers new_writer
      (omega arith, (omega arith, omega arith, (omega arith, omega arith, tt))) two_headers-Distinct

abbrev is_foreign : FlowError → Bool
is_foreign (foreign n) = true
is_foreign _ = false

abbrev two_errors : List (Option FlowError)
two_errors = some zero_results ∷ none ∷ some (foreign 3) ∷ []

wrap_all-found_example : found_in is_foreign (wrap_all two_errors) ≡ any is_foreign two_errors
wrap_all-found_example = wrap_all-found is_foreign two_errors (λ wrapped. refl)

-- The second line is a tab, U+00E9 in two bytes, and an x; the warning is about the x.
abbrev before_x : List ℕ
before_x = 97 ∷ 10 ∷ 9 ∷ 195 ∷ 169 ∷ []

abbrev warning : Warning
warning = record {
  code = 0x04_00_00_00;
  message = 98 ∷ [];
  hint = [];
  line = some 2;
  start = some 5;
}

warning_err-position_example :
    warning_err warning (before_x ++ 120 ∷ (10 ∷ []))
    ≡ ok (
        from_code 0x04_00_00_00 (
          positioned
            (98 ∷ [])
            (1 + line_ends before_x)
            (1 + rune_count (replace_tabs (last_line before_x)))
            (replace_tabs (last_line before_x ++ first_line (120 ∷ (10 ∷ []))))
            (spaces (rune_count (replace_tabs (last_line before_x))))
            (hint_or_error [])))
unfolding line_ends
warning_err-position_example =
    warning_err-position warning before_x (10 ∷ []) 120 (omega arith) (omega arith) refl refl

-- The caret is below the x, in the third column.
warning_shown :
    warning_err warning (before_x ++ 120 ∷ (10 ∷ []))
    ≡ ok (
        from_code 0x04_00_00_00 (
          positioned
            (98 ∷ [])
            2
            3
            (32 ∷ 195 ∷ 169 ∷ 120 ∷ [])
            (32 ∷ 32 ∷ [])
            (101 ∷ 114 ∷ 114 ∷ 111 ∷ 114 ∷ [])))
unfolding warning_err
warning_shown = refl

abbrev version : ProtocolVersion
version = record { major = 2; minor = 0 }

abbrev build : Descriptor → Built ℕ
build d = err 1

abbrev build_v2 : V2 → Built ℕ
build_v2 d = err 1

abbrev query : Query
query = record { cmd = 100 ∷ 10 ∷ 120 ∷ []; capabilities = 4; state_size = 0 }

abbrev connection : Conn ℕ
connection = record { server_settings = []; config = none }

-- A log message, an error at the second line, and a parameter.
abbrev replies : List Reply
replies =
    aside (logged 20 1 (104 ∷ []) [])
    ∷ error_response 120 0x04_00_00_00 (101 ∷ []) ((0xfff1, 50 ∷ []) ∷ (0xfff3, 50 ∷ []) ∷ [])
    ∷ aside (pool_concurrency (53 ∷ []) 5)
    ∷ []

abbrev answer_bytes : List ℕ
answer_bytes = wire reply_type reply_bytes (answer replies [] 73)

-- The answer in two chunks.
abbrev flow_reader : Reader
flow_reader = record {
  to_be_deserialized = some (
      record { id = 1; buf = take 7 answer_bytes; err = none }
      ∷ record { id = 2; buf = drop 7 answer_bytes; err = none }
      ∷ []);
  held = none;
  err = none;
  buf = [];
  msg_type = 0;
  released = [];
}

flow_reader-Awaits : Awaits answer_bytes flow_reader
flow_reader-Awaits = record {
  is_open = (_, refl, (refl, (refl, tt)));
  no_rest = refl;
  still =
      ap (λ t. take 7 answer_bytes ++ t) (append-nil (drop 7 answer_bytes))
      ∙ take-append-drop 7 answer_bytes;
  no_error = refl;
}

abbrev sent : List ℕ → Option FlowError
sent bytes = none

abbrev picks : Reader → Bool
picks r = true

syntax_error : FlowError
syntax_error =
    from_code 0x04_00_00_00
      (positioned (101 ∷ []) 2 1 (120 ∷ []) [] (101 ∷ 114 ∷ 114 ∷ 111 ∷ 114 ∷ []))

response_error_run :
    response_error 0x04_00_00_00
      (101 ∷ [])
      (set_all [] ((0xfff1, 50 ∷ []) ∷ (0xfff3, 50 ∷ []) ∷ []))
      query.cmd
    ≡ ok syntax_error
unfolding response_error warning_err set_header get_header atoi syntax_error
response_error_run = refl

pool_concurrency_run : atoi (53 ∷ []) ≡ some 5
unfolding atoi
pool_concurrency_run = refl

replies-AllBefore : AllBefore query replies
unfolding be_bytes
replies-AllBefore = (
  tt,
  (omega arith, omega arith, omega arith, (omega arith, tt)),
  omega arith,
  (
    tt,
    (
      omega arith,
      omega arith,
      (omega arith, (omega arith, omega arith, (omega arith, omega arith, tt))),
      (syntax_error, response_error_run),
    ),
    omega arith,
    (tt, (omega arith, pool_concurrency_run), omega arith, tt),
  ),
)

ready-size : length (ready_for_command_bytes [] 73) + 4 < 2 ^ 32
unfolding be_bytes
ready-size = omega arith

exec_script_flow-answer_example :
    (r' : Reader) × (exec_script_flow version build build_v2 sent picks 5 query connection
        flow_reader
      ≡ ok (errors_after query replies none, (conn_after replies connection, r')))
    × Idle r'
exec_script_flow-answer_example =
    exec_script_flow-answer version build build_v2 sent picks 5 query connection replies [] 73
      flow_reader refl refl (λ r p. refl) replies-AllBefore (omega arith, tt) ready-size
      (omega arith) flow_reader-Awaits

abbrev pgaddr_reader : Reader
pgaddr_reader = record (flow_reader) {
  msg_type = parameter_status_type;
  buf = text pgaddr ++ text (49 ∷ []);
}

fall_through-pgaddr_example :
    (r' : Reader) × (fall_through version build build_v2 connection pgaddr_reader
      ≡ ok (none, (connection, r')))
    × (next false r' ≡ ok (false, record r' { err = some (unread_data parameter_status_type) }))
fall_through-pgaddr_example =
    fall_through-pgaddr version build build_v2 connection pgaddr_reader (49 ∷ []) _ false refl refl
      refl
