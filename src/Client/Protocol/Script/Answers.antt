-- ===== src/Client/Protocol/Script/Answers.antt =====
-- The whole of a script flow: what is sent, what comes back, and what the flow returns.
use edgedb_go.Common.{
  ℕ, ◌+◌, ◌^◌, ◌<◌, ◌==◌, not, Bool, true, false, Option, none, some, List, [], ◌∷◌, ◌++◌, length,
  length-append, ok, ◌≡◌, refl, ap, ◌∙◌, arith,
}
use edgedb_go.Buff.Writer.Blocks.{message_bytes}
use edgedb_go.Buff.Reader.{Reader}
use edgedb_go.Buff.Reader.Reads.{text}
use edgedb_go.Buff.Reader.Feed.Signal.{Awaits, Idle}
use edgedb_go.Descriptor.{Descriptor}
use edgedb_go.Descriptor.Version.{ProtocolVersion}
use edgedb_go.Descriptor.PopV2.{V2}
use edgedb_go.Client.Protocol.{FlowError, wrap_all, present, wrap_present, execute_script_type}
use edgedb_go.Client.Protocol.Headers.{Headers}
use edgedb_go.Client.Protocol.Headers.Laws.{headers_bytes, HeadersFit, set_all}
use edgedb_go.Client.Protocol.Messages.{Conn, Built, response_error}
use edgedb_go.Client.Protocol.Messages.Bodies.{logged, heard, ready_for_command_bytes}
use edgedb_go.Client.Protocol.Loop.{Flow}
use edgedb_go.Client.Protocol.Loop.Delivery.{wire, steps, Finishes, Picks, message_loop-wire}
use edgedb_go.Client.Protocol.Script.{
  Query, Local, handle_script, script_loop, exec_script_flow, read_err, headers_0px,
}
use edgedb_go.Client.Protocol.Script.Replies.{
  Reply, command_complete, error_response, aside, ready_for_command, reply_type, reply_bytes,
  ReplyFits, replied, wrapped, handle_script-Handles, script_request_lem,
}

-- The replies fit their bytes, and none of them is the one that ends the answer.
abbrev pub Waits : Reply → Type 0
Waits (ready_for_command headers state) = ⊥
Waits _ = Unit

abbrev pub AllBefore : Query → List Reply → Type 0
AllBefore q [] = Unit
AllBefore q (m ∷ ms) =
    Waits m × ReplyFits q m × (length (reply_bytes m) + 4 < 2 ^ 32) × AllBefore q ms

-- The errors of the server, each wrapped by wrapAll with the result of those before it, and the
-- connection with what it was told.
abbrev pub errors_after : Query → List Reply → Option FlowError → Option FlowError
errors_after q [] e = e
errors_after q (error_response severity code message headers ∷ ms) e =
    errors_after q ms (wrapped e (response_error code message (set_all [] headers) q.cmd))
errors_after q (m ∷ ms) e = errors_after q ms e

abbrev pub conn_after : {C : Type 0} → List Reply → Conn C → Conn C
conn_after [] c = c
conn_after (aside a ∷ ms) c = conn_after ms (heard a c)
conn_after (m ∷ ms) c = conn_after ms c

reply_type-small : (m : Reply) → reply_type m < 256
reply_type-small (command_complete headers status) = omega arith
reply_type-small (error_response severity code message headers) = omega arith
reply_type-small (aside (logged severity code message headers)) = omega arith
reply_type-small (aside a) = omega arith
reply_type-small (ready_for_command headers state) = omega arith

replied-done :
    {C : Type 0} (q : Query) (m : Reply) (f : Flow (Local C))
    → Waits m
    → (replied q m f).done ≡ f.done
replied-done q (command_complete headers status) f w = refl
replied-done q (error_response severity code message headers) f w = refl
replied-done q (aside a) f w = refl
replied-done q (ready_for_command headers state) f w = absurd w

-- The replies and behind them the message that ends the answer.
abbrev pub answer : List Reply → Headers → ℕ → List Reply
answer ms headers state = ms ++ ready_for_command headers state ∷ []

answer-steps :
    {C : Type 0} (q : Query) (ms : List Reply) (headers : Headers) (state : ℕ) (f : Flow (Local C))
    → AllBefore q ms
    → steps (replied q) (answer ms headers state) f ≡ record {
      done = true;
      state = record { conn = conn_after ms f.state.conn; err = errors_after q ms f.state.err };
    }
answer-steps q [] headers state f h = refl
answer-steps q (command_complete hs status ∷ ms) headers state f (w, fit, n, h) =
    answer-steps q ms headers state f h
answer-steps q (error_response severity code message hs ∷ ms) headers state f (w, fit, n, h) =
    answer-steps q ms headers state _ h
answer-steps q (aside a ∷ ms) headers state f (w, fit, n, h) = answer-steps q ms headers state _ h
answer-steps q (ready_for_command hs st ∷ ms) headers state f (w, fit, n, h) = absurd w

answer-Finishes :
    {C : Type 0} (q : Query) (ms : List Reply) (headers : Headers) (state : ℕ) (f : Flow (Local C))
    → AllBefore q ms
    → f.done ≡ false
    → HeadersFit headers
    → length (ready_for_command_bytes headers state) + 4 < 2 ^ 32
    → Finishes reply_type reply_bytes (replied q) (λ m f. ReplyFits q m) (answer ms headers state) f
answer-Finishes q [] headers state f h d fit n = (d, omega arith, n, fit, refl)
answer-Finishes q (m ∷ ms) headers state f (w, fits, size, h) d fit n = (
  d,
  reply_type-small m,
  size,
  fits,
  answer-Finishes q ms headers state (replied q m f) h (replied-done q m f w ∙ d) fit n,
)

pub wrap_all-none : (e : Option FlowError) → wrap_all (e ∷ none ∷ []) ≡ e
unfolding wrap_all present wrap_present
wrap_all-none none = refl
wrap_all-none (some e) = refl

pub read_err-none : (r : Reader) → r.err ≡ none → read_err r ≡ none
unfolding read_err
read_err-none r e = rw e refl

module _ {C : Type 0} (version : ProtocolVersion) (build : Descriptor → Built C)
    (build_v2 : V2 → Built C) (write_all : List ℕ → Option FlowError) (picks : Reader → Bool) where
  script_loop-answer :
      (fuel : ℕ) (q : Query) (c : Conn C) (ms : List Reply) (headers : Headers) (state : ℕ)
      (r : Reader)
      → Picks picks
      → AllBefore q ms
      → HeadersFit headers
      → length (ready_for_command_bytes headers state) + 4 < 2 ^ 32
      → length ms + 1 < fuel
      → Awaits (wire reply_type reply_bytes (answer ms headers state)) r
      → (r' : Reader) × (script_loop version build build_v2 write_all picks fuel q c r
          ≡ ok (errors_after q ms none, (conn_after ms c, r')))
        × Idle r'
  unfolding script_loop
  script_loop-answer fuel q c ms headers state r fair h fit n enough a =
      let start : Flow (Local C) = record {
        done = false;
        state = record { conn = c; err = none };
      } in
      let (r', loops, idle) =
        message_loop-wire reply_type reply_bytes (replied q) (λ m f. ReplyFits q m) picks
          (handle_script version build build_v2 q) fuel (answer ms headers state) start r
          (handle_script-Handles version build build_v2 q) fair
          (omega (arith, length-append ms (ready_for_command headers state ∷ [])))
          (answer-Finishes q ms headers state start h refl fit n) a in
      (
        r',
        rw (loops, answer-steps q ms headers state start h, read_err-none r' idle.no_error)
            (ap (λ e. ok (e, (conn_after ms c, r'))) (wrap_all-none (errors_after q ms none))),
        idle,
      )

  -- A script without state goes out as one message of its headers and its text, which the socket
  -- takes. The server answers with any number of CommandComplete, error and log messages and of the
  -- parameters suggested_pool_concurrency, whose value is an integer, and pgdsn, in any order, then
  -- with ReadyForCommand, and with nothing else; the socket brings the answer in any chunks. Then
  -- the flow returns nil where no error is in the answer, the error where one is, and else the
  -- errors wrapped one after the other, each by wrapAll with the result of those before it; the
  -- connection is as before but for the concurrencies that the answer suggested, and the reader is
  -- idle, so that the next flow can use it. Before the answer the reader is idle as well, with the
  -- bytes of the answer to come. The messages fit their bytes, Err returns for the errors among
  -- them, the fuel is two more than their number without ReadyForCommand or greater, and Next takes
  -- the signal where nothing is to come.
  pub exec_script_flow-answer :
      (fuel : ℕ) (q : Query) (c : Conn C) (ms : List Reply) (headers : Headers) (state : ℕ)
      (r : Reader)
      → q.state_size ≡ 0
      → write_all (message_bytes execute_script_type (headers_bytes (headers_0px q) ++ text q.cmd))
        ≡ none
      → Picks picks
      → AllBefore q ms
      → HeadersFit headers
      → length (ready_for_command_bytes headers state) + 4 < 2 ^ 32
      → length ms + 1 < fuel
      → Awaits (wire reply_type reply_bytes (answer ms headers state)) r
      → (r' : Reader) × (exec_script_flow version build build_v2 write_all picks fuel q c r
          ≡ ok (errors_after q ms none, (conn_after ms c, r')))
        × Idle r'
  unfolding exec_script_flow
  exec_script_flow-answer fuel q c ms headers state r stateless sent fair h fit n enough a =
      let (r', e, idle) = script_loop-answer fuel q c ms headers state r fair h fit n enough a in
      let goes_on : not (q.state_size == 0) ≡ false = rw stateless refl in
      (r', rw (goes_on, script_request_lem q, sent) e, idle)
