-- ===== src/Examples/Executes.antt =====
-- execute2pX of internal/client on concrete messages.
use edgedb_go.Common.{
  ℕ, ◌+◌, ◌<◌, ◌^◌, ok, err, panic, inr, ◌≡◌, refl, ◌∙◌, arith, List, [], ◌∷◌, ◌++◌, length, take,
  drop, take-append-drop, append-nil, Bool, true, false, Option, none, some, ap, ◌>>=◌,
}
use edgedb_go.Common.Bytes.{be_bytes, be_value}
use edgedb_go.Buff.Writer.{
  Writer, begin_message, push_uint16, put_at, push_uint64, push_uint8, push_string, push_uint32,
  push_bytes, push_uuid, end_message, unwrap,
}
use edgedb_go.Buff.Reader.{
  Reader, Read, pop_uint8, pop_uint16, pop_uint32, pop_uint64, pop_uuid, pop_slice, simple_reader,
}
use edgedb_go.Buff.Reader.Feed.Signal.{Awaits, Idle}
use edgedb_go.Descriptor.{id_zero}
use edgedb_go.Descriptor.Version.{ProtocolVersion, gte}
use edgedb_go.Descriptor.PopV2.{pop_v2}
use edgedb_go.Client.Protocol.{FlowError, same_string}
use edgedb_go.Client.Protocol.Messages.Bodies.{ready_for_command_bytes, logged}
use edgedb_go.Client.Protocol.Loop.Delivery.{wire}
use edgedb_go.Client.Protocol.Granular.{
  decode_command_data_description_msg_2px, Decoder, Encoder, CodecPair, GranularQuery, flat,
  at_most_one, many_results,
}
use edgedb_go.Client.Protocol.Granular.Requests.{execute_request}
use edgedb_go.Client.Protocol.Execute.{execute_2px, Builders, Exec, on_command_data_description}
use edgedb_go.Client.Protocol.Execute.Replies.{
  ExecReply, row, completed, other, exec_type, exec_bytes,
}
use edgedb_go.Client.Protocol.Execute.Answers.{AllBefore, exec_answer}
use edgedb_go.Client.Protocol.Execute.Delivered.{execute_2px-answer}

abbrev pub version : ProtocolVersion
version = record { major = 3; minor = 0 }

-- A row is one byte.
abbrev pub one_byte : ℕ → Reader → Read (Option ℕ × ℕ)
one_byte memory p = do (v, p') ← pop_uint8 p; ok (none, v)

abbrev pub decoder : Decoder ℕ
decoder = record { out_id = id_zero; decode = one_byte }

abbrev pub encoder : Encoder
encoder = record { in_id = id_zero; encode = λ w. ok w }

abbrev cdcs : CodecPair ℕ
cdcs = record { args = encoder; out = decoder }

abbrev pub builders : Builders ℕ ℕ
builders = record {
  config = λ d. err 1;
  config_v2 = λ d. err 1;
  encoder = λ d. ok encoder;
  decoder = λ d. ok decoder;
  json_bytes = decoder;
  state_encoder = λ d. ok encoder;
  unmarshal = λ text. inr [];
}

abbrev pub query : ℕ → GranularQuery ℕ
query card = record {
  cmd = 120 ∷ [];
  fmt = 0x62;
  exp_card = card;
  lang = 0x45;
  capabilities = 1;
  warning_handler = λ es. none;
  zero_row = 0;
}

abbrev variables : Exec ℕ ℕ
variables = record {
  conn = record { server_settings = []; config = none };
  state_enc = encoder;
  calls = [];
  cdcs = none;
  err = none;
  rows = [];
  out = 0;
}

abbrev replies : List (ExecReply ℕ)
replies =
    row (7 ∷ []) 7
    ∷ other (logged 20 1 (104 ∷ []) [])
    ∷ row (9 ∷ []) 9
    ∷ completed [] 8 (83 ∷ []) id_zero []
    ∷ []

abbrev answer_bytes : List ℕ
answer_bytes = wire exec_type exec_bytes (exec_answer replies [] 73)

-- The answer in two chunks.
abbrev answer_reader : Reader
answer_reader = record {
  to_be_deserialized = some (
      record { id = 1; buf = take 12 answer_bytes; err = none }
      ∷ record { id = 2; buf = drop 12 answer_bytes; err = none }
      ∷ []);
  held = none;
  err = none;
  buf = [];
  msg_type = 0;
  released = [];
}

answer_reader-Awaits : Awaits answer_bytes answer_reader
answer_reader-Awaits = record {
  is_open = (_, refl, (refl, (refl, tt)));
  no_rest = refl;
  still =
      ap (λ t. take 12 answer_bytes ++ t) (append-nil (drop 12 answer_bytes))
      ∙ take-append-drop 12 answer_bytes;
  no_error = refl;
}

abbrev pub sent : List ℕ → Option FlowError
sent bytes = none

abbrev pub picks : Reader → Bool
picks r = true

replies-AllBefore : AllBefore (120 ∷ []) cdcs replies
unfolding be_bytes pop_uint8 simple_reader be_value
replies-AllBefore = (
  tt,
  (omega arith, λ memory. refl),
  omega arith,
  (
    tt,
    (omega arith, omega arith, omega arith, (omega arith, tt)),
    omega arith,
    (
      tt,
      (omega arith, λ memory. refl),
      omega arith,
      (
        tt,
        ((omega arith, tt), omega arith, omega arith, refl, omega arith, (λ e. refl)),
        omega arith,
        tt,
      ),
    ),
  ),
)

pub ready-size : length (ready_for_command_bytes [] 73) + 4 < 2 ^ 32
unfolding be_bytes
ready-size = omega arith

request :
    (bytes : List ℕ) × ((w : Writer) × (execute_request version (query many_results) encoder cdcs
        ≡ ok (bytes, w)))
unfolding execute_request be_bytes gte begin_message push_uint16 put_at push_uint64 push_uint8
    push_string push_uint32 push_bytes push_uuid end_message unwrap
request = (_, (_, refl))

execute_2px-answer_example :
    (x' : Exec ℕ ℕ) × ((r' : Reader) × (execute_2px version builders
          (query many_results)
          sent
          picks
          6
          variables
          cdcs
          answer_reader
        ≡ ok (none, (some (7 ∷ 9 ∷ []), (x', r'))))
      × (x'.out ≡ 0)
      × Idle r')
unfolding flat
execute_2px-answer_example =
    execute_2px-answer version builders (query many_results) cdcs sent picks 6 variables replies []
      73 request.0 request.1.0 answer_reader request.1.1 refl (λ r p. refl) replies-AllBefore
      (omega arith, tt) ready-size (omega arith) answer_reader-Awaits

-- A description of many rows, for a query of at most one.
abbrev description_reader : Reader
description_reader = simple_reader (
    (0 ∷ 0 ∷ [])
    ++ (be_bytes 8 0 ++ (many_results ∷ (id_zero ++ (be_bytes 4 0 ++ (id_zero ++ be_bytes 4 0))))))

-- The error of the cardinality is not returned: the codecs are built from a nil pointer.
mismatch_panics :
    on_command_data_description version builders
      (query at_most_one)
      (record { done = false; state = variables })
      description_reader
    ≡ panic
unfolding on_command_data_description decode_command_data_description_msg_2px be_bytes pop_v2
    pop_uint16 simple_reader be_value pop_uint64 pop_uint8 pop_uuid pop_uint32 pop_slice same_string
mismatch_panics = refl
