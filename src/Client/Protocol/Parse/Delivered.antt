-- ===== src/Client/Protocol/Parse/Delivered.antt =====
-- The whole of parse2pX.
use edgedb_go.Common.{
  ℕ, ◌+◌, ◌^◌, ◌<◌, Bool, Option, none, List, [], ◌∷◌, length, length-append, ok, ◌≡◌, refl, ap,
  ◌∙◌, arith,
}
use edgedb_go.Buff.Writer.{Writer}
use edgedb_go.Buff.Reader.{Reader}
use edgedb_go.Buff.Reader.Feed.Signal.{Awaits, Idle}
use edgedb_go.Descriptor.Version.{ProtocolVersion}
use edgedb_go.Descriptor.PopV2.{V2}
use edgedb_go.Client.Protocol.{FlowError}
use edgedb_go.Client.Protocol.Headers.{Headers}
use edgedb_go.Client.Protocol.Headers.Laws.{HeadersFit}
use edgedb_go.Client.Protocol.Messages.Bodies.{ready_for_command_bytes}
use edgedb_go.Client.Protocol.Loop.{Flow, message_loop}
use edgedb_go.Client.Protocol.Loop.Delivery.{wire, steps, Picks, message_loop-wire}
use edgedb_go.Client.Protocol.Script.{read_err}
use edgedb_go.Client.Protocol.Script.Answers.{read_err-none}
use edgedb_go.Client.Protocol.Granular.{GranularQuery}
use edgedb_go.Client.Protocol.Execute.{Builders}
use edgedb_go.Client.Protocol.Execute.Answers.{wraps}
use edgedb_go.Client.Protocol.Parse.{
  Parsing, parse_request, handle_parse, finish_parse, start_parse, parse_loop, parse_2px,
}
use edgedb_go.Client.Protocol.Parse.Answers.{
  ParseReply, ready, parse_reply_type, parse_reply_bytes, ParseFits, parsed, AllBefore,
  parse_answer, parse_failures, last_described, unless_error, parse_answer-steps,
  parse_answer-Finishes, handle_parse-Handles, finish_parse-none,
}

module _ {C V : Type 0} (version : ProtocolVersion) (builders : Builders C V) (q : GranularQuery V)
    (write_all : List ℕ → Option FlowError) (picks : Reader → Bool) where
  finished :
      (r' : Reader) (x : Parsing C) (e : Option FlowError) (d : Option (V2 × V2))
      → Idle r'
      → x.err ≡ e
      → x.desc ≡ d
      → finish_parse version builders q (read_err r') x.err x r'
        ≡ ok (e, (unless_error e d, (x, r')))
  finished r' x e d idle error desc =
      ap (λ t. finish_parse version builders q t x.err x r') (read_err-none r' idle.no_error)
      ∙ ap (λ t. finish_parse version builders q none t x r') error
      ∙ finish_parse-none version builders q e x r'
      ∙ ap (λ t. ok (e, (unless_error e t, (x, r')))) desc

  loop_answer :
      (fuel : ℕ) (x : Parsing C) (r r' : Reader) (f : Flow (Parsing C)) (e : Option FlowError)
      (d : Option (V2 × V2))
      → message_loop picks
          (handle_parse version builders q)
          fuel
          (start_parse version builders q x)
          r
        ≡ ok (none, (f, r'))
      → Idle r'
      → f.state.err ≡ e
      → f.state.desc ≡ d
      → parse_loop version builders q write_all picks fuel x r
        ≡ ok (e, (unless_error e d, (f.state, r')))
  unfolding parse_loop
  loop_answer fuel x r r' f e d loops idle error desc =
      rw loops (finished r' f.state e d idle error desc)

  -- A Parse is encoded without an error and the socket takes it. The server answers with any number
  -- of descriptions without headers, and so without warnings, of errors and log messages, and of
  -- the parameters suggested_pool_concurrency, whose value is an integer, and pgdsn, in any order,
  -- then with ReadyForCommand, and with nothing else; the socket brings the answer in any chunks.
  -- Then parse2pX returns the errors wrapped one after the other, each by wrapAll with the result
  -- of those before it, and without an error the descriptors of the last description, if one came:
  -- those that its blocks describe, one for the arguments and one for the rows. The reader is idle
  -- before, with the bytes of the answer to come, and after, so that the next flow can use it. The
  -- messages fit their bytes, the blocks describe types, no description says Many for a query of at
  -- most one, Err returns for the errors, the fuel is two more than the number of messages without
  -- ReadyForCommand or greater, and Next takes the signal where nothing is to come.
  pub parse_2px-answer :
      (fuel : ℕ) (x : Parsing C) (ms : List ParseReply) (headers : Headers) (state : ℕ)
      (bytes : List ℕ) (w : Writer) (r : Reader)
      → parse_request version builders q x.state_enc ≡ ok (bytes, w)
      → write_all bytes ≡ none
      → Picks picks
      → AllBefore q ms
      → HeadersFit headers
      → length (ready_for_command_bytes headers state) + 4 < 2 ^ 32
      → length ms + 1 < fuel
      → Awaits (wire parse_reply_type parse_reply_bytes (parse_answer ms headers state)) r
      → (x' : Parsing C) × ((r' : Reader) × (parse_2px version builders q write_all picks fuel x r
            ≡ ok (
              wraps none (parse_failures ms),
              (unless_error (wraps none (parse_failures ms)) (last_described none ms), (x', r')),
            ))
          × Idle r')
  unfolding parse_2px
  parse_2px-answer fuel x ms headers state bytes w r request sent fair h fit n enough a =
      let start = start_parse version builders q x in
      let (r', loops, idle) =
        message_loop-wire parse_reply_type parse_reply_bytes parsed (λ m f. ParseFits q m) picks
          (handle_parse version builders q) fuel (parse_answer ms headers state) start r
          (handle_parse-Handles version builders q) fair
          (omega (arith, length-append ms (ready headers state ∷ [])))
          (parse_answer-Finishes q ms headers state start h refl fit n) a in
      let (error, desc) = parse_answer-steps q ms headers state start h in
      let f = steps parsed (parse_answer ms headers state) start in
      (
        f.state,
        (r', rw (request, sent) (loop_answer fuel x r r' f _ _ loops idle error desc), idle),
      )
