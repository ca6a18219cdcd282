-- ===== src/Client/Protocol/Execute/Answers.antt =====
-- What execute2pX returns for a whole answer.
use edgedb_go.Common.{
  ℕ, ◌+◌, ◌^◌, ◌<◌, if◌then◌else◌, Bool, true, false, Option, none, some, List, [], ◌∷◌, ◌++◌,
  length, append_assoc, append-nil, ◌≡◌, refl, sym, ◌∙◌,
}
use edgedb_go.Client.Protocol.{FlowError, zero_results, wrap_all, present, wrap_present}
use edgedb_go.Client.Protocol.Headers.{Headers}
use edgedb_go.Client.Protocol.Loop.{Flow}
use edgedb_go.Client.Protocol.Loop.Delivery.{steps}
use edgedb_go.Client.Protocol.Granular.{CodecPair}
use edgedb_go.Client.Protocol.Execute.{Exec, is_zero_results, forget_zero_results}
use edgedb_go.Client.Protocol.Execute.Replies.{
  ExecReply, row, completed, failed, other, ready, exec_bytes, ExecFits, executed,
}

-- The replies fit their bytes, and none of them is the one that ends the answer.
abbrev pub Waits : {V : Type 0} → ExecReply V → Type 0
Waits (ready headers state) = ⊥
Waits _ = Unit

abbrev pub AllBefore : {V : Type 0} → List ℕ → CodecPair V → List (ExecReply V) → Type 0
AllBefore query cdcs [] = Unit
AllBefore query cdcs (m ∷ ms) =
    Waits m × ExecFits query cdcs m × (length (exec_bytes m) + 4 < 2 ^ 32) × AllBefore query cdcs ms

-- The replies and behind them the message that ends the answer.
abbrev pub exec_answer : {V : Type 0} → List (ExecReply V) → Headers → ℕ → List (ExecReply V)
exec_answer ms headers state = ms ++ ready headers state ∷ []

-- The rows of an answer, the last of them, and its errors.
abbrev pub rows_of : {V : Type 0} → List (ExecReply V) → List V
rows_of [] = []
rows_of (row bytes v ∷ ms) = v ∷ rows_of ms
rows_of (m ∷ ms) = rows_of ms

abbrev pub last_row : {V : Type 0} → V → List (ExecReply V) → V
last_row out [] = out
last_row out (row bytes v ∷ ms) = last_row v ms
last_row out (m ∷ ms) = last_row out ms

abbrev pub failures : {V : Type 0} → List (ExecReply V) → List FlowError
failures [] = []
failures (failed severity code message headers e ∷ ms) = e ∷ failures ms
failures (m ∷ ms) = failures ms

-- A row or an error is among the replies.
abbrev pub served : {V : Type 0} → List (ExecReply V) → Bool
served [] = false
served (row bytes v ∷ ms) = true
served (failed severity code message headers e ∷ ms) = true
served (m ∷ ms) = served ms

-- wrapAll of errors in turn.
abbrev pub wraps : Option FlowError → List FlowError → Option FlowError
wraps e [] = e
wraps e (x ∷ xs) = wraps (wrap_all (e ∷ some x ∷ [])) xs

-- The error of an answer: that of no results for a query of at most one to which nothing came, or
-- The errors that came, wrapped, or the error of no results.
abbrev pub answer_error : {V : Type 0} → Bool → List (ExecReply V) → Option FlowError
answer_error single ms =
    if served ms then wraps none (failures ms) else if single then some zero_results else none

-- The error after the replies.
unfoldable pub err_after : {V : Type 0} → List (ExecReply V) → Option FlowError → Option FlowError
err_after [] e = e
err_after (row bytes v ∷ ms) e = err_after ms (forget_zero_results e)
err_after (failed severity code message headers x ∷ ms) e =
    err_after ms (wrap_all (forget_zero_results e ∷ some x ∷ []))
err_after (m ∷ ms) e = err_after ms e

wrap_all-nonzero :
    (e : Option FlowError) (x : FlowError)
    → is_zero_results (some x) ≡ false
    → is_zero_results (wrap_all (e ∷ some x ∷ [])) ≡ false
unfolding wrap_all present wrap_present is_zero_results
wrap_all-nonzero none x h = h
wrap_all-nonzero (some e) x h = refl

forget-nonzero : (e : Option FlowError) → is_zero_results e ≡ false → forget_zero_results e ≡ e
unfolding forget_zero_results
forget-nonzero e h = rw h refl

module _ {V : Type 0} (query : List ℕ) (cdcs : CodecPair V) where
  err_after-nonzero :
      (ms : List (ExecReply V)) (e : Option FlowError)
      → AllBefore query cdcs ms
      → is_zero_results e ≡ false
      → err_after ms e ≡ wraps e (failures ms)
  unfolding err_after
  err_after-nonzero [] e h z = refl
  err_after-nonzero (row bytes v ∷ ms) e (w, fits, n, h) z =
      rw (forget-nonzero e z) (err_after-nonzero ms e h z)
  err_after-nonzero (failed severity code message headers x ∷ ms) e (w, fits, n, h) z =
      rw (forget-nonzero e z)
        (err_after-nonzero ms (wrap_all (e ∷ some x ∷ [])) h (wrap_all-nonzero e x fits.4))
  err_after-nonzero (completed headers capabilities status id state ∷ ms) e (w, fits, n, h) z =
      err_after-nonzero ms e h z
  err_after-nonzero (other a ∷ ms) e (w, fits, n, h) z = err_after-nonzero ms e h z
  err_after-nonzero (ready headers state ∷ ms) e (w, fits, n, h) z = absurd w

  pub err_after-answer :
      (ms : List (ExecReply V)) (single : Bool)
      → AllBefore query cdcs ms
      → err_after ms (if single then some zero_results else none) ≡ answer_error single ms
  unfolding err_after is_zero_results forget_zero_results
  err_after-answer [] single h = refl
  err_after-answer (row bytes v ∷ ms) true (w, fits, n, h) = err_after-nonzero ms none h refl
  err_after-answer (row bytes v ∷ ms) false (w, fits, n, h) = err_after-nonzero ms none h refl
  err_after-answer (failed severity code message headers x ∷ ms) true (w, fits, n, h) =
      err_after-nonzero ms _ h (wrap_all-nonzero none x fits.4)
  err_after-answer (failed severity code message headers x ∷ ms) false (w, fits, n, h) =
      err_after-nonzero ms _ h (wrap_all-nonzero none x fits.4)
  err_after-answer (completed headers capabilities status id state ∷ ms) single (w, fits, n, h) =
      err_after-answer ms single h
  err_after-answer (other a ∷ ms) single (w, fits, n, h) = err_after-answer ms single h
  err_after-answer (ready headers state ∷ ms) single (w, fits, n, h) = absurd w

  pub executed-cdcs :
      {C : Type 0} (is_flat : Bool) (m : ExecReply V) (f : Flow (Exec C V))
      → Waits m
      → ((executed is_flat m f).state.cdcs ≡ f.state.cdcs) × ((executed is_flat m f).done ≡ f.done)
  executed-cdcs true (row bytes v) f w = (refl, refl)
  executed-cdcs false (row bytes v) f w = (refl, refl)
  executed-cdcs is_flat (completed headers capabilities status id state) f w = (refl, refl)
  executed-cdcs is_flat (failed severity code message headers e) f w = (refl, refl)
  executed-cdcs is_flat (other a) f w = (refl, refl)
  executed-cdcs is_flat (ready headers state) f w = absurd w

  -- What the steps of an answer leave of the variables that are returned.
  pub record Left {C : Type 0} (is_flat : Bool) (ms : List (ExecReply V)) (f f' : Flow (Exec C V))
      : Type 0 where
    pub left_err : f'.state.err ≡ err_after ms f.state.err
    pub left_rows : is_flat ≡ false → f'.state.rows ≡ f.state.rows ++ rows_of ms
    pub left_out : f'.state.out ≡ (if is_flat then last_row f.state.out ms else f.state.out)

  pub answer-Left :
      {C : Type 0} (is_flat : Bool) (ms : List (ExecReply V)) (headers : Headers) (state : ℕ)
      (f : Flow (Exec C V))
      → AllBefore query cdcs ms
      → Left is_flat ms f (steps (executed is_flat) (exec_answer ms headers state) f)
  unfolding err_after
  answer-Left true [] headers state f h = record {
    left_err = refl;
    left_rows = λ e. sym (append-nil f.state.rows);
    left_out = refl;
  }
  answer-Left false [] headers state f h = record {
    left_err = refl;
    left_rows = λ e. sym (append-nil f.state.rows);
    left_out = refl;
  }
  answer-Left true (row bytes v ∷ ms) headers state f (w, fits, n, h) =
      let l = answer-Left true ms headers state (executed true (row bytes v) f) h in
      record { left_err = l.left_err; left_rows = λ e. absurd (cc); left_out = l.left_out }
  answer-Left false (row bytes v ∷ ms) headers state f (w, fits, n, h) =
      let l = answer-Left false ms headers state (executed false (row bytes v) f) h in
      record {
        left_err = l.left_err;
        left_rows = λ e. l.left_rows refl ∙ append_assoc f.state.rows (v ∷ []) (rows_of ms);
        left_out = l.left_out;
      }
  answer-Left is_flat (completed hs capabilities status id st ∷ ms) headers state f
        (w, fits, n, h) =
      let l =
        answer-Left is_flat ms headers state
          (executed is_flat (completed hs capabilities status id st) f) h in
      record { left_err = l.left_err; left_rows = l.left_rows; left_out = l.left_out }
  answer-Left is_flat (failed severity code message hs x ∷ ms) headers state f (w, fits, n, h) =
      let l =
        answer-Left is_flat ms headers state
          (executed is_flat (failed severity code message hs x) f) h in
      record { left_err = l.left_err; left_rows = l.left_rows; left_out = l.left_out }
  answer-Left is_flat (other a ∷ ms) headers state f (w, fits, n, h) =
      let l = answer-Left is_flat ms headers state (executed is_flat (other a) f) h in
      record { left_err = l.left_err; left_rows = l.left_rows; left_out = l.left_out }
  answer-Left is_flat (ready hs st ∷ ms) headers state f (w, fits, n, h) = absurd w
