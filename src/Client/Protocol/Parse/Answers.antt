-- ===== src/Client/Protocol/Parse/Answers.antt =====
-- parse2pX on an answer that the socket brings in any chunks.
use edgedb_go.Common.{
  ℕ, ◌+◌, ◌^◌, ◌<◌, ◌==◌, ◌&&◌, true, false, Option, none, some, List, [], ◌∷◌, ◌++◌, length, ok,
  ◌≡◌, refl, ap, ◌∙◌, arith,
}
use edgedb_go.Buff.Reader.{Reader}
use edgedb_go.Buff.Reader.Reads.{Reads-last, Reads-whole, Reads-then}
use edgedb_go.Descriptor.Version.{ProtocolVersion}
use edgedb_go.Descriptor.PopV2.{V2}
use edgedb_go.Client.Protocol.{
  FlowError, wrap_all, present, wrap_present, command_data_description_type, error_response_type,
  ready_for_command_type,
}
use edgedb_go.Client.Protocol.Headers.{Headers}
use edgedb_go.Client.Protocol.Headers.Laws.{HeadersFit, set_all}
use edgedb_go.Client.Protocol.Messages.{response_error}
use edgedb_go.Client.Protocol.Messages.Bodies.{
  error_response_bytes, decode_error_response_msg-Reads, ready_for_command_bytes,
  decode_ready_for_command_msg-Reads, Aside, logged, pool_concurrency, pg_dsn, aside_type,
  aside_bytes, AsideFits, heard, fall_through-Aside,
}
use edgedb_go.Client.Protocol.Loop.{Flow}
use edgedb_go.Client.Protocol.Loop.Delivery.{steps, Finishes, Handles}
use edgedb_go.Client.Protocol.Script.Answers.{wrap_all-none}
use edgedb_go.Client.Protocol.Granular.{GranularQuery, at_most_one, many_results}
use edgedb_go.Client.Protocol.Execute.{Builders}
use edgedb_go.Client.Protocol.Execute.Answers.{wraps}
use edgedb_go.Client.Protocol.Parse.{
  Parsing, wrap_error, on_description, parse_type_2px, handle_parse, finish_parse,
}
use edgedb_go.Client.Protocol.Parse.Descriptions.{
  Wired, WiredFits, described_bytes, described_calls, decode_description-Wired,
}

-- `described` has the capabilities, the cardinality, and what describes the arguments and the rows.
pub data ParseReply : Type 0 where
  described : ℕ → ℕ → Wired → Wired → ParseReply
  failed : ℕ → ℕ → List ℕ → Headers → FlowError → ParseReply
  other : Aside → ParseReply
  ready : Headers → ℕ → ParseReply

abbrev pub parse_reply_type : ParseReply → ℕ
parse_reply_type (described capabilities card i o) = command_data_description_type
parse_reply_type (failed severity code message headers e) = error_response_type
parse_reply_type (other a) = aside_type a
parse_reply_type (ready headers state) = ready_for_command_type

abbrev pub parse_reply_bytes : ParseReply → List ℕ
parse_reply_bytes (described capabilities card i o) = described_bytes capabilities card i o
parse_reply_bytes (failed severity code message headers e) =
    error_response_bytes severity code message headers
parse_reply_bytes (other a) = aside_bytes a
parse_reply_bytes (ready headers state) = ready_for_command_bytes headers state

-- The numbers and lengths fit their bytes, the blocks describe types, and the cardinality is none
-- that the query excludes.
abbrev pub ParseFits : {V : Type 0} → GranularQuery V → ParseReply → Type 0
ParseFits q (described capabilities card i o) =
    (capabilities < 2 ^ 64)
    × (card < 256)
    × WiredFits i
    × WiredFits o
    × ((q.exp_card == at_most_one && card == many_results) ≡ false)
ParseFits q (failed severity code message headers e) =
    (code < 2 ^ 32)
    × (length message < 2 ^ 32)
    × HeadersFit headers
    × (response_error code message (set_all [] headers) q.cmd ≡ ok e)
ParseFits q (other a) = AsideFits a
ParseFits q (ready headers state) = HeadersFit headers

-- What a reply does to the variables of the flow.
abbrev pub parsed : {C : Type 0} → ParseReply → Flow (Parsing C) → Flow (Parsing C)
parsed (described capabilities card i o) f = record f {
  state = record (f.state) {
    calls = described_calls capabilities i o f.state.calls;
    desc = some (i.desc, o.desc);
    err = wrap_all (f.state.err ∷ none ∷ []);
  };
}
parsed (failed severity code message headers e) f = record f {
  state = record (f.state) { err = wrap_all (f.state.err ∷ some e ∷ []) };
}
parsed (other a) f = record f { state = record (f.state) { conn = heard a f.state.conn } }
parsed (ready headers state) f = record f { done = true }

-- The replies fit their bytes, and none of them is the one that ends the answer.
abbrev pub Waits : ParseReply → Type 0
Waits (ready headers state) = ⊥
Waits _ = Unit

abbrev pub AllBefore : {V : Type 0} → GranularQuery V → List ParseReply → Type 0
AllBefore q [] = Unit
AllBefore q (m ∷ ms) =
    Waits m × ParseFits q m × (length (parse_reply_bytes m) + 4 < 2 ^ 32) × AllBefore q ms

-- The replies and behind them the message that ends the answer.
abbrev pub parse_answer : List ParseReply → Headers → ℕ → List ParseReply
parse_answer ms headers state = ms ++ ready headers state ∷ []

-- The errors of the answer, and the last description in it.
abbrev pub parse_failures : List ParseReply → List FlowError
parse_failures [] = []
parse_failures (failed severity code message headers e ∷ ms) = e ∷ parse_failures ms
parse_failures (m ∷ ms) = parse_failures ms

abbrev pub last_described : Option (V2 × V2) → List ParseReply → Option (V2 × V2)
last_described d [] = d
last_described d (described capabilities card i o ∷ ms) = last_described (some (i.desc, o.desc)) ms
last_described d (m ∷ ms) = last_described d ms

-- The description is returned where no error is.
abbrev pub unless_error : Option FlowError → Option (V2 × V2) → Option (V2 × V2)
unless_error none d = d
unless_error (some e) d = none

parse_reply_type-small : (m : ParseReply) → parse_reply_type m < 256
parse_reply_type-small (described capabilities card i o) = omega arith
parse_reply_type-small (failed severity code message headers e) = omega arith
parse_reply_type-small (other (logged severity code message headers)) = omega arith
parse_reply_type-small (other a) = omega arith
parse_reply_type-small (ready headers state) = omega arith

parsed-done :
    {C : Type 0} (m : ParseReply) (f : Flow (Parsing C)) → Waits m → (parsed m f).done ≡ f.done
parsed-done (described capabilities card i o) f w = refl
parsed-done (failed severity code message headers e) f w = refl
parsed-done (other a) f w = refl
parsed-done (ready headers state) f w = absurd w

pub parse_answer-steps :
    {C V : Type 0} (q : GranularQuery V) (ms : List ParseReply) (headers : Headers) (state : ℕ)
    (f : Flow (Parsing C))
    → AllBefore q ms
    → ((steps parsed (parse_answer ms headers state) f).state.err
        ≡ wraps f.state.err (parse_failures ms))
      × ((steps parsed (parse_answer ms headers state) f).state.desc
          ≡ last_described f.state.desc ms)
parse_answer-steps q [] headers state f h = (refl, refl)
parse_answer-steps q (described capabilities card i o ∷ ms) headers state f (w, fits, n, h) =
    let (e, d) =
      parse_answer-steps q ms headers state (parsed (described capabilities card i o) f) h in
    (e ∙ ap (λ t. wraps t (parse_failures ms)) (wrap_all-none f.state.err), d)
parse_answer-steps q (failed severity code message hs x ∷ ms) headers state f (w, fits, n, h) =
    parse_answer-steps q ms headers state (parsed (failed severity code message hs x) f) h
parse_answer-steps q (other a ∷ ms) headers state f (w, fits, n, h) =
    parse_answer-steps q ms headers state (parsed (other a) f) h
parse_answer-steps q (ready hs st ∷ ms) headers state f (w, fits, n, h) = absurd w

pub parse_answer-Finishes :
    {C V : Type 0} (q : GranularQuery V) (ms : List ParseReply) (headers : Headers) (state : ℕ)
    (f : Flow (Parsing C))
    → AllBefore q ms
    → f.done ≡ false
    → HeadersFit headers
    → length (ready_for_command_bytes headers state) + 4 < 2 ^ 32
    → Finishes parse_reply_type parse_reply_bytes parsed
        (λ m f. ParseFits q m)
        (parse_answer ms headers state)
        f
parse_answer-Finishes q [] headers state f h d fit n = (d, omega arith, n, fit, refl)
parse_answer-Finishes q (m ∷ ms) headers state f (w, fits, size, h) d fit n = (
  d,
  parse_reply_type-small m,
  size,
  fits,
  parse_answer-Finishes q ms headers state (parsed m f) h (parsed-done m f w ∙ d) fit n,
)

module _ {C V : Type 0} (version : ProtocolVersion) (builders : Builders C V)
    (q : GranularQuery V) where
  parse_type-Reply :
      (m : ParseReply) (f : Flow (Parsing C)) (r : Reader)
      → ParseFits q m
      → r.msg_type ≡ parse_reply_type m
      → r.buf ≡ parse_reply_bytes m
      → parse_type_2px version builders q (parse_reply_type m) f r
        ≡ ok (none, (parsed m f, record r { buf = [] }))
  unfolding parse_type_2px on_description wrap_error
  parse_type-Reply (described capabilities card i o) f r (small, byte, h, k, fits) t b =
      Reads-whole r
        (Reads-then _
          (decode_description-Wired q builders.unmarshal f.state.calls capabilities card i o small
            byte h k fits)
          (λ r. refl))
        b
  parse_type-Reply (failed severity code message headers e) f r (small, short, hs, p) t b =
      Reads-whole r
        (Reads-last _
          (decode_error_response_msg-Reads q.cmd severity code message headers e small short hs p))
        b
  parse_type-Reply (other (logged severity code message headers)) f r fits t b =
      rw
        (fall_through-Aside version builders.config builders.config_v2
          (logged severity code message headers) f.state.conn r fits t b)
        refl
  parse_type-Reply (other (pool_concurrency digits i)) f r fits t b =
      rw
        (fall_through-Aside version builders.config builders.config_v2 (pool_concurrency digits i)
          f.state.conn r fits t b)
        refl
  parse_type-Reply (other (pg_dsn dsn)) f r fits t b =
      rw
        (fall_through-Aside version builders.config builders.config_v2 (pg_dsn dsn) f.state.conn r
          fits t b)
        refl
  parse_type-Reply (ready headers state) f r hs t b =
      Reads-whole r (Reads-last _ (decode_ready_for_command_msg-Reads headers state hs)) b

  pub handle_parse-Handles :
      Handles parse_reply_type parse_reply_bytes parsed
        (λ m f. ParseFits q m)
        (handle_parse version builders q)
  unfolding handle_parse
  handle_parse-Handles m f r fits t b =
      ap (λ x. parse_type_2px version builders q x f r) t ∙ parse_type-Reply m f r fits t b

  pub finish_parse-none :
      (e : Option FlowError) (x : Parsing C) (r : Reader)
      → finish_parse version builders q none e x r ≡ ok (e, (unless_error e x.desc, (x, r)))
  unfolding finish_parse wrap_all present wrap_present
  finish_parse-none none x r = refl
  finish_parse-none (some e) x r = refl
