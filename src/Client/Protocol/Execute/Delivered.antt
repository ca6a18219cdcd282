-- ===== src/Client/Protocol/Execute/Delivered.antt =====
-- execute2pX on an answer that the socket brings in any chunks.
use edgedb_go.Common.{
  ℕ, ◌+◌, ◌^◌, ◌<◌, ◌==◌, not, ◌&&◌, if◌then◌else◌, Bool, false, Option, none, some, List, [], ◌∷◌,
  length, length-append, ok, ◌≡◌, refl, ap, ◌∙◌, arith, inl, inr, Bool-cases,
}
use edgedb_go.Buff.Writer.{Writer}
use edgedb_go.Buff.Reader.{Reader}
use edgedb_go.Buff.Reader.Feed.Signal.{Awaits, Idle}
use edgedb_go.Descriptor.Version.{ProtocolVersion}
use edgedb_go.Client.Protocol.{FlowError}
use edgedb_go.Client.Protocol.Headers.{Headers}
use edgedb_go.Client.Protocol.Headers.Laws.{HeadersFit}
use edgedb_go.Client.Protocol.Messages.Bodies.{logged, ready_for_command_bytes}
use edgedb_go.Client.Protocol.Loop.{Flow, message_loop}
use edgedb_go.Client.Protocol.Loop.Delivery.{wire, steps, Finishes, Picks, message_loop-wire}
use edgedb_go.Client.Protocol.Script.Answers.{read_err-none}
use edgedb_go.Client.Protocol.Granular.{CodecPair, GranularQuery, flat, at_most_one, null_format}
use edgedb_go.Client.Protocol.Granular.Requests.{execute_request}
use edgedb_go.Client.Protocol.Execute.{
  Builders, Exec, handle_execute, set_rows, start_execute, finish_execute, execute_loop,
  execute_2px,
}
use edgedb_go.Client.Protocol.Execute.Replies.{
  ExecReply, row, completed, failed, other, ready, exec_type, exec_bytes, ExecFits, executed,
  handle_execute-Handles,
}
use edgedb_go.Client.Protocol.Execute.Answers.{
  AllBefore, exec_answer, rows_of, last_row, answer_error, executed-cdcs, answer-Left,
  err_after-answer,
}

exec_type-small : {V : Type 0} (m : ExecReply V) → exec_type m < 256
exec_type-small (row bytes v) = omega arith
exec_type-small (completed headers capabilities status id state) = omega arith
exec_type-small (failed severity code message headers e) = omega arith
exec_type-small (other (logged severity code message headers)) = omega arith
exec_type-small (other a) = omega arith
exec_type-small (ready headers state) = omega arith

abbrev Fits :
    {C V : Type 0} → GranularQuery V → CodecPair V → ExecReply V → Flow (Exec C V) → Type 0
Fits q cdcs m f = ExecFits q.cmd cdcs m × (f.state.cdcs ≡ some cdcs)

module _ {C V : Type 0} (version : ProtocolVersion) (builders : Builders C V) (q : GranularQuery V)
    (cdcs : CodecPair V) where
  exec_answer-Finishes :
      (ms : List (ExecReply V)) (headers : Headers) (state : ℕ) (f : Flow (Exec C V))
      → AllBefore q.cmd cdcs ms
      → f.done ≡ false
      → f.state.cdcs ≡ some cdcs
      → HeadersFit headers
      → length (ready_for_command_bytes headers state) + 4 < 2 ^ 32
      → Finishes exec_type exec_bytes
          (executed (flat q))
          (Fits q cdcs)
          (exec_answer ms headers state)
          f
  exec_answer-Finishes [] headers state f h d c fit n = (d, omega arith, n, (fit, c), refl)
  exec_answer-Finishes (m ∷ ms) headers state f (w, fits, size, h) d c fit n =
      let (same, waits) = executed-cdcs q.cmd cdcs (flat q) m f w in
      (
        d,
        exec_type-small m,
        size,
        (fits, c),
        exec_answer-Finishes ms headers state (executed (flat q) m f) h (waits ∙ d) (same ∙ c) fit
            n,
      )

module _ {C V : Type 0} (version : ProtocolVersion) (builders : Builders C V) (q : GranularQuery V)
    (cdcs : CodecPair V) (write_all : List ℕ → Option FlowError) (picks : Reader → Bool) where
  set_rows-answer :
      (ms : List (ExecReply V)) (x' : Exec C V)
      → (flat q ≡ false → x'.rows ≡ rows_of ms)
      → set_rows version builders q x'
        ≡ (if not (flat q) && not (q.fmt == null_format) then some (rows_of ms) else none)
  unfolding set_rows
  set_rows-answer ms x' h = elim (Bool-cases (flat q)) [
    | inl e ↦ rw e refl
    | inr e ↦ rw (e, h e) refl
  ]

  finished :
      (e : Option FlowError) (rows : Option (List V)) (x : Exec C V) (r' : Reader)
      → x.err ≡ e
      → set_rows version builders q x ≡ rows
      → finish_execute version builders q none x r' ≡ ok (e, (rows, (x, r')))
  unfolding finish_execute
  finished e rows x r' error set =
      ap (λ t. ok (t, (set_rows version builders q x, (x, r')))) error
      ∙ ap (λ t. ok (e, (t, (x, r')))) set

  -- The part behind the loop.
  loop_answer :
      (fuel : ℕ) (x : Exec C V) (r r' : Reader) (f : Flow (Exec C V)) (e : Option FlowError)
      (rows : Option (List V))
      → message_loop picks
          (handle_execute version builders q)
          fuel
          (start_execute version builders q x cdcs)
          r
        ≡ ok (none, (f, r'))
      → Idle r'
      → f.state.err ≡ e
      → set_rows version builders q f.state ≡ rows
      → execute_loop version builders q write_all picks fuel x cdcs r
        ≡ ok (e, (rows, (f.state, r')))
  unfolding execute_loop
  loop_answer fuel x r r' f e rows loops idle error set = rw loops (
      ap (λ t. finish_execute version builders q t f.state r') (read_err-none r' idle.no_error)
      ∙ finished e rows f.state r' error set)

  -- An Execute is encoded without an error and the socket takes it. The server answers with any
  -- number of rows, errors, CommandComplete and log messages and of the parameters
  -- suggested_pool_concurrency, whose value is an integer, and pgdsn, in any order, then with
  -- ReadyForCommand, and with nothing else; the socket brings the answer in any chunks. Then
  -- execute2pX returns the errors wrapped one after the other, each by wrapAll with the result of
  -- those before it; without an error it returns the error of no results where no row came for a
  -- query of at most one, and else nil. Where the query has many rows, neither as JSON nor in the
  -- null format, the slice of the caller is set to the decoded rows in their order; where it has at
  -- most one or its rows come as JSON, its variable holds the last row, if one came. The reader is
  -- idle before, with the bytes of the answer to come, and after, so that the next flow can use it.
  -- The messages fit their bytes, a CommandComplete with the id of zeros has no state, each row
  -- decodes to its value whatever the memory held, Err returns for the errors and for none of them
  -- the error of no results, the fuel is two more than the number of messages without
  -- ReadyForCommand or greater, and Next takes the signal where nothing is to come.
  pub execute_2px-answer :
      (fuel : ℕ) (x : Exec C V) (ms : List (ExecReply V)) (headers : Headers) (state : ℕ)
      (bytes : List ℕ) (w : Writer) (r : Reader)
      → execute_request version q x.state_enc cdcs ≡ ok (bytes, w)
      → write_all bytes ≡ none
      → Picks picks
      → AllBefore q.cmd cdcs ms
      → HeadersFit headers
      → length (ready_for_command_bytes headers state) + 4 < 2 ^ 32
      → length ms + 1 < fuel
      → Awaits (wire exec_type exec_bytes (exec_answer ms headers state)) r
      → (x' : Exec C V) × ((r' : Reader) × (execute_2px version builders q write_all picks fuel x
              cdcs r
            ≡ ok (
              answer_error (q.exp_card == at_most_one) ms,
              (
                if not (flat q) && not (q.fmt == null_format) then some (rows_of ms) else none,
                (x', r'),
              ),
            ))
          × (x'.out ≡ (if flat q then last_row x.out ms else x.out))
          × Idle r')
  unfolding execute_2px start_execute
  execute_2px-answer fuel x ms headers state bytes w r request sent fair h fit n enough a =
      let start = start_execute version builders q x cdcs in
      let (r', loops, idle) =
        message_loop-wire exec_type exec_bytes (executed (flat q)) (Fits q cdcs) picks
          (handle_execute version builders q) fuel (exec_answer ms headers state) start r
          (handle_execute-Handles version builders q cdcs) fair
          (omega (arith, length-append ms (ready headers state ∷ [])))
          (exec_answer-Finishes version builders q cdcs ms headers state start h refl refl fit n)
          a in
      let l = answer-Left q.cmd cdcs (flat q) ms headers state start h in
      (
        (steps (executed (flat q)) (exec_answer ms headers state) start).state,
        (
          r',
          rw (request, sent)
              (loop_answer fuel x r r'
                (steps (executed (flat q)) (exec_answer ms headers state) start) _ _ loops idle
                (l.left_err ∙ err_after-answer q.cmd cdcs ms (q.exp_card == at_most_one) h)
                (set_rows-answer ms
                  (steps (executed (flat q)) (exec_answer ms headers state) start).state
                  l.left_rows)),
          l.left_out,
          idle,
        ),
      )
