-- ===== src/Client/Transactable/Queries.antt =====
-- `granularFlow`: how often a query is sent, and which are sent once only.
use edgedb_go.Common.{
  ℕ, zero, suc, ◌+◌, ◌≤◌, ◌<◌, ok, Returns, >>=-Returns, Returns-mono, ◌≡◌, ◌≢◌, refl, ◌∙◌, arith,
  true, false, Bool-cases, Option, none, some, inl, inr,
}
use edgedb_go.Client.Errors.{GoError, as_error_and, transaction_conflict_error}
use edgedb_go.Client.Retry.{RetryOptions, rule_for_exception}
use edgedb_go.Client.Env.{Env}
use edgedb_go.Client.Reconnect
use edgedb_go.Client.Reconnect.{
  ReconnectingConn, gives_up, pause, reconnect_loop, reconnect, max_time, ensure_connection,
}
use edgedb_go.Client.Reconnect.Laws.{IsClock}
use edgedb_go.Client.Reconnect.Sends.{
  CountsSends, Kept, SentOnce, reconnect-Returns, granular_flow-SentOnce,
}
use edgedb_go.Client.Transactable.{
  TransactableConn, Verdict, wait, give_up, query_verdict, State, Reply, needs_reconnect, decide,
  query_decide, keep_conn, query_reconnected, query_pass, query_loop, granular_flow,
}
use edgedb_go.Client.Transactable.Bounds.{IsWithin}

module _ {W : Type 0} (env : Env W) {sends : W → ℕ} (counts : CountsSends env sends)
    (clock : IsClock env) where
  -- What a pass leaves: at most `n` more queries, and the options and the wait of before.
  abbrev Passed : ℕ → TransactableConn → W → Option GoError × State env → Type 0
  Passed n c w (e, (c', w')) =
      (sends w' ≤ sends w + n)
      × (c'.reconnecting.wait_until_available ≡ c.reconnecting.wait_until_available)
      × (c'.retry_opts ≡ c.retry_opts)

  reconnected-Returns :
      (rounds q : ℕ) (c : TransactableConn) (w : W)
      → c.reconnecting.wait_until_available + 2 ≤ rounds
      → Returns (query_reconnected env rounds q (none, (c, w))) (Passed 1 c w)
  unfolding query_reconnected keep_conn SentOnce
  reconnected-Returns rounds q c w h =
      >>=-Returns (Reconnect.granular_flow env rounds q c.reconnecting w) _
        (SentOnce env counts clock c.reconnecting w) (Passed 1 c w)
        (granular_flow-SentOnce env counts clock rounds q c.reconnecting w h)
        (λ r k. (k.0, k.1, refl))

  flow_after-Returns :
      (rounds q : ℕ) (c : TransactableConn) (w : W)
      → c.reconnecting.wait_until_available + 2 ≤ rounds
      → (r : Option GoError × (ReconnectingConn × W)) → Kept env counts clock c.reconnecting w r
      → Returns (query_reconnected env rounds q (keep_conn env c r)) (Passed 1 c w)
  unfolding query_reconnected keep_conn Kept
  flow_after-Returns rounds q c w h (some x, (c', w')) k = (omega arith, k.1, refl)
  flow_after-Returns rounds q c w h (none, (c', w')) k =
      Returns-mono (query_reconnected env rounds q (none, (record c { reconnecting = c' }, w')))
        (Passed 1 (record c { reconnecting = c' }) w') (Passed 1 c w)
        (reconnected-Returns rounds q (record c { reconnecting = c' }) w' (omega arith))
        (λ p h'. (omega arith, h'.1 ∙ k.1, h'.2))

  query_pass-Returns :
      (rounds q : ℕ) (e : Option GoError) (c : TransactableConn) (w : W)
      → c.reconnecting.wait_until_available + 2 ≤ rounds
      → Returns (query_pass env rounds q e (c, w)) (Passed 1 c w)
  unfolding query_pass
  query_pass-Returns rounds q e c w h = elim (Bool-cases (needs_reconnect env e c.reconnecting w)) [
    | inl again ↦ rw again (
        >>=-Returns (reconnect env rounds true c.reconnecting w) _
          (Kept env counts clock c.reconnecting w) (Passed 1 c w)
          (reconnect-Returns env counts clock rounds true c.reconnecting w h)
          (flow_after-Returns rounds q c w h))
    | inr fine ↦ rw fine (reconnected-Returns rounds q c w h)
  ]

  -- The loop at pass `i`, with fuel for the passes up to `n`.
  Done : ℕ → ℕ → W → Option GoError × State env → Type 0
  Done n i w (e, (c, w')) = sends w' + i ≤ sends w + (n + 1)

  wait_below :
      (n i delay : ℕ) (capabilities : Option ℕ) (e : Option GoError) (o : RetryOptions)
      → IsWithin n o
      → query_verdict o capabilities i e ≡ wait delay
      → i < n
  unfolding query_verdict rule_for_exception
  wait_below n i delay none e o h v = absurd (cc)
  wait_below n i delay (some k) none o h v = absurd (cc)
  wait_below n i delay (some k) (some x) o h v = ground arith

  query_decide-Returns :
      (n i q : ℕ) (next : Option GoError → State env → Reply env) (e : Option GoError)
      (c : TransactableConn) (w w' : W)
      → IsWithin n c.retry_opts
      → i ≤ n
      → sends w' ≤ sends w + 1
      → ((e' : Option GoError) (w'' : W)
          → i + 1 ≤ n
          → Returns (next e' (c, w'')) (Done n (i + 1) w''))
      → Returns (query_decide env next q i (e, (c, w'))) (Done n i w)
  unfolding query_decide decide Done
  query_decide-Returns n i q next e c w w' within le once rest =
      go (query_verdict c.retry_opts known i e) refl
    where
      known : Option ℕ
      known = (env.cached_capabilities q w').0

      looked : W
      looked = (env.cached_capabilities q w').1

      go :
          (v : Verdict)
          → query_verdict c.retry_opts known i e ≡ v
          → Returns (decide env (λ w'' e'. next e' (c, w'')) e v (c, looked)) (Done n i w)
      go (give_up r) p = omega (arith, counts.looked q w')
      go (wait delay) p =
          Returns-mono (next e (c, env.sleep delay looked))
            (Done n (i + 1) (env.sleep delay looked)) (Done n i w)
            (rest e (env.sleep delay looked)
              (omega (arith, wait_below n i delay known e c.retry_opts within p)))
            (λ r h. omega (arith, counts.slept delay looked, counts.looked q w'))

  IsWithin-at : (n : ℕ) (o o' : RetryOptions) → o' ≡ o → IsWithin n o → IsWithin n o'
  IsWithin-at n o o' e h = rw e h

  query_loop-Returns :
      (fuel rounds n i q : ℕ) (e : Option GoError) (c : TransactableConn) (w : W)
      → c.reconnecting.wait_until_available + 2 ≤ rounds
      → IsWithin n c.retry_opts
      → i ≤ n
      → n < i + fuel
      → Returns (query_loop env fuel rounds q i e (c, w)) (Done n i w)
  unfolding query_loop query_decide Done
  query_loop-Returns zero rounds n i q e c w h within le enough = absurd (omega arith)
  query_loop-Returns (suc fuel) rounds n i q e c w h within le enough =
      >>=-Returns (query_pass env rounds q e (c, w)) _ (Passed 1 c w) (Done n i w)
        (query_pass-Returns rounds q e c w h)
        (λ p k.
          let here = IsWithin-at n c.retry_opts p.1.0.retry_opts k.2 within in
          query_decide-Returns n i q (query_loop env fuel rounds q (i + 1)) p.0 p.1.0 w p.1.1 here
            le k.0
            (λ e' w' le'.
              query_loop-Returns fuel rounds n (i + 1) q e' p.1.0 w' (omega (arith, h, k.1)) here
                le' (omega arith)))

  -- A query ends, and by then it was sent at most n times, where no retry rule allows more than n
  -- attempts, and n is 1 at least. n passes of the loop are enough, and in each reconnect two
  -- rounds more than the wait of the configuration has milliseconds, the unit of the clock, if a
  -- sleep moves the clock by its length and nothing turns the clock back.
  pub granular_flow-Returns :
      (fuel rounds n q : ℕ) (c : TransactableConn) (w : W)
      → c.reconnecting.wait_until_available + 2 ≤ rounds
      → IsWithin n c.retry_opts
      → 1 ≤ n
      → n ≤ fuel
      → Returns (granular_flow env fuel rounds q (c, w)) (λ r. sends r.1.1 ≤ sends w + n)
  unfolding granular_flow
  granular_flow-Returns fuel rounds n q c w h within one enough =
      Returns-mono (query_loop env fuel rounds q 1 none (c, w)) (Done n 1 w) _
        (query_loop-Returns fuel rounds n 1 q none c w h within one (omega arith))
        (λ r d. unfold Done in omega arith)

written_once :
    (o : RetryOptions) (capabilities : Option ℕ) (i : ℕ) (x : GoError)
    → capabilities ≢ some 0
    → as_error_and x (λ y. y.category transaction_conflict_error) ≡ false
    → query_verdict o capabilities i (some x) ≡ give_up (some x)
unfolding query_verdict
written_once o none i x writes no_conflict = refl
written_once o (some zero) i x writes no_conflict = absurd (writes refl)
written_once o (some (suc k)) i x writes no_conflict = ground arith

module _ {W : Type 0} (env : Env W) where
  -- A query that is not known to be read only is not sent again after an error that is not a
  -- TransactionConflictError: where the flow of a pass ends with such an error, the pass returns it,
  -- whatever rules and fuel are left. No reconnect is needed before the pass.
  pub mutation-sent_once :
      (fuel rounds i q : ℕ) (e : Option GoError) (c : TransactableConn) (r : ReconnectingConn)
      (w w₁ w₂ : W) (x : GoError) (capabilities : Option ℕ)
      → needs_reconnect env e c.reconnecting w ≡ false
      → Reconnect.granular_flow env rounds q c.reconnecting w ≡ ok (some x, (r, w₁))
      → env.cached_capabilities q w₁ ≡ (capabilities, w₂)
      → capabilities ≢ some 0
      → as_error_and x (λ y. y.category transaction_conflict_error) ≡ false
      → query_loop env (suc fuel) rounds q i e (c, w)
        ≡ ok (some x, (record c { reconnecting = r }, w₂))
  unfolding query_loop query_pass query_reconnected query_decide keep_conn decide
  mutation-sent_once fuel rounds i q e c r w w₁ w₂ x capabilities calm sent known writes
        no_conflict =
      simp (calm, sent, known, written_once c.retry_opts capabilities i x writes no_conflict) refl
