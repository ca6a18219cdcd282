-- ===== src/Examples/Parses.antt =====
-- parse2pX of internal/client on concrete messages.
use edgedb_go.Common.{
  ℕ, ok, ◌≡◌, refl, ◌∙◌, arith, List, [], ◌∷◌, ◌++◌, take, drop, take-append-drop, append-nil, none,
  some, ap, true, false,
}
use edgedb_go.Common.Bytes.{be_bytes}
use edgedb_go.Buff.Writer.{
  Writer, begin_message, push_uint16, put_at, push_uint64, push_uint8, push_string, push_uint32,
  push_bytes, push_uuid, end_message, unwrap,
}
use edgedb_go.Buff.Reader.{Reader}
use edgedb_go.Buff.Reader.Feed.Signal.{Awaits, Idle}
use edgedb_go.Descriptor.{id_zero, scalar, set}
use edgedb_go.Descriptor.PopV2
use edgedb_go.Descriptor.Version.{gte}
use edgedb_go.Descriptor.PopV2.{V2, v2, no_fields}
use edgedb_go.Client.Protocol.Loop.Delivery.{wire}
use edgedb_go.Client.Protocol.Messages.Bodies.{logged}
use edgedb_go.Client.Protocol.Granular.{many_results, v2_id}
use edgedb_go.Client.Protocol.Parse.{Parsing, parse_request, parse_2px}
use edgedb_go.Client.Protocol.Parse.Descriptions.{Wired, WiredFits}
use edgedb_go.Client.Protocol.Parse.Answers.{
  ParseReply, described, other, parse_reply_type, parse_reply_bytes, AllBefore, parse_answer,
}
use edgedb_go.Client.Protocol.Parse.Delivered.{parse_2px-answer}
use edgedb_go.Descriptor.WireV2.{Block, description_bytes}
use edgedb_go.Descriptor.WireV2
use edgedb_go.Examples.Executes.{version, encoder, builders, query, sent, picks, ready-size}

-- Two blocks: the scalar type "n", and a set of it.
abbrev n_block : Block
n_block = record {
  size = 24;
  id = id_zero;
  shape = WireV2.a_scalar (record { name = 110 ∷ []; schema_defined = 1 }) [];
}

abbrev set_block : Block
set_block = record { size = 19; id = id_zero; shape = WireV2.a_set 0 }

abbrev n_type : V2
n_type = v2 scalar id_zero (110 ∷ []) true no_fields no_fields

abbrev set_type : V2
set_type = v2 set id_zero [] false no_fields (PopV2.only n_type)

-- The arguments are the scalar, and the rows a set of it.
abbrev arguments : Wired
arguments = record { blocks = n_block ∷ []; before = []; desc = n_type }

abbrev rows : Wired
rows = record { blocks = n_block ∷ set_block ∷ []; before = n_type ∷ []; desc = set_type }

arguments-WiredFits : WiredFits arguments
unfolding be_bytes v2_id
arguments-WiredFits = (ground arith, refl, refl, omega arith)

rows-WiredFits : WiredFits rows
unfolding be_bytes v2_id
rows-WiredFits = (ground arith, refl, refl, omega arith)

abbrev replies : List ParseReply
replies = other (logged 20 1 (104 ∷ []) []) ∷ described 1 many_results arguments rows ∷ []

replies-AllBefore : AllBefore (query many_results) replies
unfolding be_bytes v2_id
replies-AllBefore = (
  tt,
  (omega arith, omega arith, omega arith, (omega arith, tt)),
  omega arith,
  (tt, (omega arith, omega arith, arguments-WiredFits, rows-WiredFits, refl), omega arith, tt),
)

abbrev answer_bytes : List ℕ
answer_bytes = wire parse_reply_type parse_reply_bytes (parse_answer replies [] 73)

-- The answer in two chunks.
abbrev answer_reader : Reader
answer_reader = record {
  to_be_deserialized = some (
      record { id = 1; buf = take 30 answer_bytes; err = none }
      ∷ record { id = 2; buf = drop 30 answer_bytes; err = none }
      ∷ []);
  held = none;
  err = none;
  buf = [];
  msg_type = 0;
  released = [];
}

answer_reader-Awaits : Awaits answer_bytes answer_reader
answer_reader-Awaits = record {
  is_open = (_, refl, (refl, (refl, tt)));
  no_rest = refl;
  still =
      ap (λ t. take 30 answer_bytes ++ t) (append-nil (drop 30 answer_bytes))
      ∙ take-append-drop 30 answer_bytes;
  no_error = refl;
}

abbrev variables : Parsing ℕ
variables = record {
  conn = record { server_settings = []; config = none };
  state_enc = encoder;
  calls = [];
  desc = none;
  err = none;
}

request :
    (bytes : List ℕ) × ((w : Writer) × (parse_request version builders (query many_results) encoder
        ≡ ok (bytes, w)))
unfolding parse_request be_bytes gte begin_message push_uint16 put_at push_uint64 push_uint8
    push_string push_uint32 push_bytes push_uuid end_message unwrap
request = (_, (_, refl))

parse_2px-answer_example :
    (x' : Parsing ℕ) × ((r' : Reader) × (parse_2px version builders
          (query many_results)
          sent
          picks
          4
          variables
          answer_reader
        ≡ ok (none, (some (n_type, set_type), (x', r'))))
      × Idle r')
parse_2px-answer_example =
    parse_2px-answer version builders (query many_results) sent picks 4 variables replies [] 73
      request.0 request.1.0 answer_reader request.1.1 refl (λ r p. refl) replies-AllBefore
      (omega arith, tt) ready-size (omega arith) answer_reader-Awaits
