-- ===== src/Client/Transactable/Commits.antt =====
-- What a result of `tx` says of the commit.
use edgedb_go.Common.{
  ℕ, zero, suc, ◌+◌, Outcome, ok, IfReturns, >>=-IfReturns, ◌≡◌, ◌≢◌, refl, ap, arith, true,
  Bool-cases, Option, none, some, ◌⊎◌, inl, inr,
}
use edgedb_go.Client.Errors.{GoError, first_error, is_client_connection_error}
use edgedb_go.Client.Retry.{RetryOptions}
use edgedb_go.Client.Borrow.{BorrowableConn, unborrowed, transaction, borrow}
use edgedb_go.Client.Env.{Env, commit_transaction, OutOfFuel}
use edgedb_go.Client.Reconnect.{ReconnectingConn, reconnect}
use edgedb_go.Client.Tx.{Tx, TxOptions, new_tx, start, commit, rollback}
use edgedb_go.Client.Transactable.{
  TransactableConn, Pass, returned, at_error, Verdict, wait, give_up, tx_verdict, TxBlock, State,
  Reply, after_commit, after_rollback, after_action, after_start, attempt, needs_reconnect,
  reconnected, tx_pass, decide, tx_decide, tx_loop, set_borrowable, returning, tx_borrowed, tx,
}

module _ {W : Type 0} (env : Env W) where
  commit-sent :
      (t t' : Tx) (w w' : W)
      → commit env t w ≡ (none, (t', w'))
      → env.script_flow t.borrowable.conn commit_transaction w ≡ (none, w')
  unfolding commit
  commit-sent t t' w w' e = ground arith

  module _ (action : TxBlock env) where
    -- The block returned no error, and right after it a COMMIT returned none and led to `w`.
    abbrev pub Committed : W → Type 0
    Committed w =
        (conn : ℕ) × (t : Tx) × (before : W) × (after : W) × (action t before ≡ (none, after))
        × (env.script_flow conn commit_transaction after ≡ (none, w))

    abbrev Success : Pass × W → Type 0
    Success p = p.0 ≡ returned none → Committed p.1

    after_commit-Success :
        (e : Option GoError) (w : W) → (e ≡ none → Committed w) → Success (after_commit env e w)
    unfolding after_commit
    after_commit-Success none w h = λ q. h refl
    after_commit-Success (some x) w h = ground arith

    after_rollback-Success :
        (x : GoError) (e : Option GoError) (w : W) → Success (after_rollback env x e w)
    unfolding after_rollback
    after_rollback-Success x none w = λ q. cc
    after_rollback-Success x (some e) w = ground arith

    after_action-Success : (t : Tx) (w : W) → Success (after_action env t (action t w))
    unfolding after_action
    after_action-Success t w = go (action t w).0 refl
      where
        go :
            (e : Option GoError)
            → (action t w).0 ≡ e
            → Success (after_action env t (e, (action t w).1))
        go none q =
            let (e, (t', w')) = commit env t (action t w).1 in
            after_commit-Success e w' (λ n. (
              t.borrowable.conn,
              t,
              w,
              (action t w).1,
              cc q,
              commit-sent t t' (action t w).1 w' (cc n),
            ))
        go (some x) q = elim (Bool-cases (is_client_connection_error x)) [
          | inl lost ↦ rw lost (λ n. cc)
          | inr kept ↦
              rw kept
                (let (e, (t', w')) = rollback env t (action t w).1 in after_rollback-Success x e w')
        ]

    attempt-Success :
        (opts : TxOptions) (conn : ℕ) (w : W) → IfReturns (attempt env action opts conn w) Success
    unfolding attempt after_start
    attempt-Success opts conn w =
        >>=-IfReturns
          (start env
            (record {
              borrowable = record { conn = conn; reason = unborrowed };
              tx_status = new_tx;
              options = opts;
            })
            w)
          _ (λ r. Unit) Success (any _) go
      where
        any : (m : Outcome OutOfFuel (Option GoError × (Tx × W))) → IfReturns m (λ r. Unit)
        any (ok r) = tt
        any _ = tt

        go : (r : Option GoError × (Tx × W)) → Unit {0} → Success (after_start env action r)
        go (none, (t, w')) u = after_action-Success t w'
        go (some e, (t, w')) u = λ n. cc

    -- A pass that returns no error has committed; any other leaves nothing to say.
    abbrev Passed : Pass × (ℕ × State env) → Type 0
    Passed p = p.0 ≡ returned none → Committed p.1.1.1

    reconnected-Passed :
        (conn : ℕ) (c : TransactableConn) (r : Option GoError × (ReconnectingConn × W))
        → IfReturns (reconnected env action conn c r) Passed
    unfolding reconnected
    reconnected-Passed conn c (some e, (r, w)) = λ n. cc
    reconnected-Passed conn c (none, (r, w)) =
        >>=-IfReturns (attempt env action c.tx_opts r.borrowable.conn w) _ Success Passed
          (attempt-Success c.tx_opts r.borrowable.conn w) (λ p h. h)

    any-IfReturns {ℓ} : {A : Type ℓ} (m : Outcome OutOfFuel A) → IfReturns m (λ r. Unit)
    any-IfReturns (ok a) = tt
    any-IfReturns _ = tt

    tx_pass-Passed :
        (rounds conn : ℕ) (e : Option GoError) (c : TransactableConn) (w : W)
        → IfReturns (tx_pass env rounds action conn e (c, w)) Passed
    unfolding tx_pass
    tx_pass-Passed rounds conn e c w = elim (Bool-cases (needs_reconnect env e c.reconnecting w)) [
      | inl again ↦ rw again (
          >>=-IfReturns (reconnect env rounds true c.reconnecting w) _ (λ r. Unit) Passed
            (any-IfReturns (reconnect env rounds true c.reconnecting w))
            (λ r u. reconnected-Passed conn c r))
      | inr fine ↦ rw fine (
          >>=-IfReturns (attempt env action c.tx_opts conn w) _ Success Passed
            (attempt-Success c.tx_opts conn w) (λ p h. h))
    ]

    abbrev Result : Option GoError × State env → Type 0
    Result r = r.0 ≡ none → Committed r.1.1

    verdict-error :
        (o : RetryOptions) (i : ℕ) (x : GoError) (r : Option GoError)
        → tx_verdict o i (some x) ≡ give_up r
        → r ≢ none
    unfolding tx_verdict
    verdict-error o i x r h = ground arith

    tx_decide-Result :
        (next : ℕ → Option GoError → State env → Reply env) (i : ℕ) (p : Pass × (ℕ × State env))
        → Passed p
        → ((conn : ℕ) (e : Option GoError) (s : State env) → IfReturns (next conn e s) Result)
        → IfReturns (tx_decide env next i p) Result
    unfolding tx_decide
    tx_decide-Result next i (returned r, (conn, s)) h rest = λ n. h (ap returned n)
    tx_decide-Result next i (at_error e, (conn, (c, w))) h rest =
        go (tx_verdict c.retry_opts i (some e)) refl
      where
        go :
            (v : Verdict)
            → tx_verdict c.retry_opts i (some e) ≡ v
            → IfReturns (decide env (λ w' e'. next conn e' (c, w')) (some e) v (c, w)) Result
        go (give_up r) q = λ n. absurd (verdict-error c.retry_opts i e r q n)
        go (wait delay) q = rest conn (some e) (c, env.sleep delay w)

    tx_loop-Result :
        (fuel rounds i conn : ℕ) (e : Option GoError) (s : State env)
        → IfReturns (tx_loop env fuel rounds action i conn e s) Result
    unfolding tx_loop
    tx_loop-Result zero rounds i conn e s = tt
    tx_loop-Result (suc fuel) rounds i conn e (c, w) =
        >>=-IfReturns (tx_pass env rounds action conn e (c, w)) _ Passed Result
          (tx_pass-Passed rounds conn e c w)
          (λ p h.
            tx_decide-Result (tx_loop env fuel rounds action (i + 1)) i p h
              (λ conn' e' s'. tx_loop-Result fuel rounds (i + 1) conn' e' s'))

    returning-Result : (r : Option GoError × State env) → Result r → Result (returning env r)
    unfolding returning first_error
    returning-Result (none, (c, w)) h = λ n. h refl
    returning-Result (some e, (c, w)) h = λ n. cc

    tx-Result :
        (fuel rounds : ℕ) (c : TransactableConn) (w : W)
        → IfReturns (tx env fuel rounds action (c, w)) Result
    unfolding tx
    tx-Result fuel rounds c w = go (borrow transaction c.reconnecting.borrowable)
      where
        go :
            (b : (ℕ ⊎ GoError) × BorrowableConn)
            → IfReturns
                (tx_borrowed env fuel rounds action b.0 (set_borrowable env b.1 c, w))
                Result
        go (inr e, b) = λ n. cc
        go (inl conn, b) =
            >>=-IfReturns (tx_loop env fuel rounds action 1 conn none (set_borrowable env b c, w)) _
              Result Result (tx_loop-Result fuel rounds 1 conn none (set_borrowable env b c, w))
              (λ r h. returning-Result r h)

    -- A `tx` that returns no error ends with a COMMIT that returned none, sent right after a run of
    -- the block that returned none; nothing happens after it.
    pub tx-success :
        (fuel rounds : ℕ) (c c' : TransactableConn) (w w' : W)
        → tx env fuel rounds action (c, w) ≡ ok (none, (c', w'))
        → Committed w'
    tx-success fuel rounds c c' w w' e = (rw e at (tx-Result fuel rounds c w)) refl
