-- ===== src/Client/Transactable/Bounds.antt =====
-- `tx` ends, and runs the user's block at most as often as the retry rules allow.
use edgedb_go.Common.{
  ℕ, zero, suc, ◌+◌, ◌≤◌, ◌<◌, if◌then◌else◌, ok, Returns, >>=-Returns, Returns-mono, ◌≡◌, refl, ap,
  ◌∙◌, arith, true, Bool-cases, Option, none, some, ◌⊎◌, inl, inr,
}
use edgedb_go.Client.Errors.{GoError, is_client_connection_error}
use edgedb_go.Client.Retry.{RetryOptions, rule_for_exception}
use edgedb_go.Client.Borrow.{BorrowableConn, unborrowed, transaction, borrow}
use edgedb_go.Client.Env.{
  Env, Command, start_transaction, commit_transaction, rollback_transaction, OutOfFuel,
}
use edgedb_go.Client.Reconnect.{
  ReconnectingConn, gives_up, reconnect_loop, reconnect, max_time, pause,
}
use edgedb_go.Client.Tx.{
  Tx, TxOptions, serializable, TxStatus, new_tx, started_tx, start_tx_query, execute, start, commit,
  rollback,
}
use edgedb_go.Client.Transactable.{
  TransactableConn, Pass, returned, at_error, Verdict, wait, give_up, tx_verdict, TxBlock, State,
  Reply, after_commit, after_rollback, after_action, after_start, attempt, needs_reconnect,
  reconnected, tx_pass, decide, tx_decide, tx_loop, set_borrowable, tx_borrowed, tx,
}

-- No rule of the options allows more than `n` attempts.
pub record IsWithin (n : ℕ) (o : RetryOptions) : Type 0 where
  pub conflict : o.tx_conflict.attempts ≤ n
  pub network : o.network.attempts ≤ n

-- The transaction that an attempt begins with.
abbrev fresh_tx : TxOptions → ℕ → Tx
fresh_tx opts conn = record {
  borrowable = record { conn = conn; reason = unborrowed };
  tx_status = new_tx;
  options = opts;
}

module _ {W : Type 0} (env : Env W) where
  -- `runs` counts the runs of the block: a run adds one, and nothing else that happens does.
  pub record Counts (runs : W → ℕ) (action : TxBlock env) : Type 0 where
    pub ran : (t : Tx) (w : W) → runs (action t w).1 ≡ runs w + 1
    pub sent : (conn : ℕ) (q : Command) (w : W) → runs (env.script_flow conn q w).1 ≡ runs w
    pub connected : (w : W) → runs (env.connect w).1 ≡ runs w
    pub slept : (n : ℕ) (w : W) → runs (env.sleep n w) ≡ runs w

  module _ {runs : W → ℕ} {action : TxBlock env} (counts : Counts runs action) where
    runs-commit : (t : Tx) (w : W) → runs (commit env t w).1.1 ≡ runs w
    unfolding commit
    runs-commit t w = ground (arith, counts.sent t.borrowable.conn commit_transaction w)

    runs-rollback : (t : Tx) (w : W) → runs (rollback env t w).1.1 ≡ runs w
    unfolding rollback
    runs-rollback t w = ground (arith, counts.sent t.borrowable.conn rollback_transaction w)

    runs-after_commit : (e : Option GoError) (w : W) → runs (after_commit env e w).1 ≡ runs w
    unfolding after_commit
    runs-after_commit none w = refl
    runs-after_commit (some x) w = ground arith

    runs-after_rollback :
        (x : GoError) (e : Option GoError) (w : W) → runs (after_rollback env x e w).1 ≡ runs w
    unfolding after_rollback
    runs-after_rollback x none w = refl
    runs-after_rollback x (some e) w = ground arith

    runs-after_action :
        (t : Tx) (e : Option GoError) (w : W) → runs (after_action env t (e, w)).1 ≡ runs w
    unfolding after_action
    runs-after_action t none w =
        let (e, (t', w')) = commit env t w in runs-after_commit e w' ∙ runs-commit t w
    runs-after_action t (some x) w = elim (Bool-cases (is_client_connection_error x)) [
      | inl lost ↦ rw lost refl
      | inr kept ↦
          rw kept
            (let (e, (t', w')) = rollback env t w in runs-after_rollback x e w' ∙ runs-rollback t w)
    ]

    runs-execute :
        (q : Command) (s : TxStatus) (t : Tx) (w : W) → runs (execute env q s t w).1.1 ≡ runs w
    unfolding execute
    runs-execute q s t w = ground (arith, counts.sent t.borrowable.conn q w)

    -- A pass of the loop runs the block once or not at all.
    runs-after_start :
        (e : Option GoError) (t : Tx) (w : W)
        → runs (after_start env action (e, (t, w))).1 ≤ runs w + 1
    unfolding after_start
    runs-after_start (some e) t w = omega arith
    runs-after_start none t w =
        let (e, w') = action t w in omega (arith, runs-after_action t e w', counts.ran t w)

    start-ok :
        (opts : TxOptions) (conn : ℕ) (w : W)
        → opts.isolation ≡ serializable
        → start env (fresh_tx opts conn) w
          ≡ ok (
              execute env
                (start_transaction opts.read_only opts.deferrable)
                started_tx
                (fresh_tx opts conn)
                w)
    unfolding start start_tx_query
    start-ok opts conn w e = simp e refl

    -- With the one isolation level there is, an attempt returns, and runs the block at most once.
    attempt-Returns :
        (opts : TxOptions) (conn : ℕ) (w : W)
        → opts.isolation ≡ serializable
        → Returns (attempt env action opts conn w) (λ p. runs p.1 ≤ runs w + 1)
    unfolding attempt
    attempt-Returns opts conn w e =
        let q = start_transaction opts.read_only opts.deferrable in
        let (x, (t, w')) = execute env q started_tx (fresh_tx opts conn) w in
        rw (start-ok opts conn w e)
          (omega (arith, runs-after_start x t w', runs-execute q started_tx (fresh_tx opts conn) w))

    -- A single round is enough for `reconnect(ctx, true)`.
    reconnect-Returns :
        (rounds : ℕ) (c : ReconnectingConn) (w : W)
        → Returns (reconnect env (suc rounds) true c w) (λ r. runs r.1.1 ≡ runs w)
    unfolding reconnect reconnect_loop gives_up
    reconnect-Returns rounds c w = elim (Bool-cases c.is_closed) [
      | inl closed ↦ simp closed refl
      | inr live ↦ simp live (go (env.connect w).0)
    ]
      where
        go :
            (r : ℕ ⊎ GoError)
            → Returns {E = OutOfFuel} {A = Option GoError × (ReconnectingConn × W)}
                (elim r [
                  | inl conn ↦ ok (
                    none,
                    (
                      record c { borrowable = record c.borrowable { conn = conn } },
                      (env.connect w).1,
                    ),
                  )
                  | inr e ↦
                      let again =
                        reconnect_loop env rounds
                          (max_time env c w)
                          true
                          c
                          (pause env (env.connect w).1) in
                      if gives_up env true e (max_time env c w) (env.now (env.connect w).1)
                      then ok (some e, (c, (env.connect w).1))
                      else again
                ])
                (λ r'. runs r'.1.1 ≡ runs w)
        go (inl conn) = counts.connected w
        go (inr x) = counts.connected w

    -- What a pass leaves: the options of before, and at most one more run.
    abbrev Passed : TransactableConn → W → Pass × (ℕ × State env) → Type 0
    Passed c w (p, (conn, (c', w'))) =
        (runs w' ≤ runs w + 1) × (c'.tx_opts ≡ c.tx_opts) × (c'.retry_opts ≡ c.retry_opts)

    reconnected-Returns :
        (conn : ℕ) (c : TransactableConn) (w : W) (r : Option GoError × (ReconnectingConn × W))
        → c.tx_opts.isolation ≡ serializable
        → runs r.1.1 ≡ runs w
        → Returns (reconnected env action conn c r) (Passed c w)
    unfolding reconnected
    reconnected-Returns conn c w (some e, (r, w')) i h = (omega arith, refl, refl)
    reconnected-Returns conn c w (none, (r, w')) i h =
        >>=-Returns (attempt env action c.tx_opts r.borrowable.conn w') _ _ _
          (attempt-Returns c.tx_opts r.borrowable.conn w' i) (λ p k. (omega arith, refl, refl))

    tx_pass-Returns :
        (rounds conn : ℕ) (e : Option GoError) (c : TransactableConn) (w : W)
        → c.tx_opts.isolation ≡ serializable
        → Returns (tx_pass env (suc rounds) action conn e (c, w)) (Passed c w)
    unfolding tx_pass
    tx_pass-Returns rounds conn e c w i =
        elim (Bool-cases (needs_reconnect env e c.reconnecting w)) [
          | inl again ↦ rw again (
              >>=-Returns (reconnect env (suc rounds) true c.reconnecting w) _ _ _
                (reconnect-Returns rounds c.reconnecting w)
                (λ r h. reconnected-Returns conn c w r i h))
          | inr fine ↦ rw fine (
              >>=-Returns (attempt env action c.tx_opts conn w) _ _ _
                (attempt-Returns c.tx_opts conn w i) (λ p k. (k, refl, refl)))
        ]

    -- The loop at pass `i`, with fuel for the passes up to `n`.
    Done : ℕ → ℕ → W → Option GoError × State env → Type 0
    Done n i w (e, (c, w')) = runs w' + i ≤ runs w + (n + 1)

    wait_below :
        (n i delay : ℕ) (e : Option GoError) (o : RetryOptions)
        → IsWithin n o
        → tx_verdict o i e ≡ wait delay
        → i < n
    unfolding tx_verdict rule_for_exception
    wait_below n i delay none o h v = cc
    wait_below n i delay (some x) o h v = ground arith

    -- The passes behind pass `i` end within their bound.
    GoesOn : ℕ → ℕ → (ℕ → Option GoError → State env → Reply env) → Type 0
    GoesOn n i next =
        (conn : ℕ) (e : Option GoError) (c : TransactableConn) (w : W)
        → c.tx_opts.isolation ≡ serializable
        → IsWithin n c.retry_opts
        → i + 1 ≤ n
        → Returns (next conn e (c, w)) (Done n (i + 1) w)

    tx_decide-Returns :
        (n i : ℕ) (next : ℕ → Option GoError → State env → Reply env) (p : Pass) (conn : ℕ)
        (c : TransactableConn) (w w' : W)
        → c.tx_opts.isolation ≡ serializable
        → IsWithin n c.retry_opts
        → i ≤ n
        → runs w' ≤ runs w + 1
        → GoesOn n i next
        → Returns (tx_decide env next i (p, (conn, (c, w')))) (Done n i w)
    unfolding tx_decide Done GoesOn
    tx_decide-Returns n i next (returned r) conn c w w' iso within le once rest = omega arith
    tx_decide-Returns n i next (at_error e) conn c w w' iso within le once rest =
        go (tx_verdict c.retry_opts i (some e)) refl
      where
        go :
            (v : Verdict)
            → tx_verdict c.retry_opts i (some e) ≡ v
            → Returns (decide env (λ w'' e'. next conn e' (c, w'')) (some e) v (c, w')) (Done n i w)
        go (give_up r) q = omega arith
        go (wait delay) q =
            Returns-mono (next conn (some e) (c, env.sleep delay w'))
              (Done n (i + 1) (env.sleep delay w')) (Done n i w)
              (rest conn (some e) c (env.sleep delay w') iso within
                (omega (arith, wait_below n i delay (some e) c.retry_opts within q)))
              (λ r h. omega (arith, counts.slept delay w'))

    IsWithin-at : (n : ℕ) (o o' : RetryOptions) → o' ≡ o → IsWithin n o → IsWithin n o'
    IsWithin-at n o o' e h = rw e h

    tx_loop-Returns :
        (fuel rounds n i conn : ℕ) (e : Option GoError) (c : TransactableConn) (w : W)
        → c.tx_opts.isolation ≡ serializable
        → IsWithin n c.retry_opts
        → i ≤ n
        → n < i + fuel
        → Returns (tx_loop env fuel (suc rounds) action i conn e (c, w)) (Done n i w)
    unfolding tx_loop Done GoesOn
    tx_loop-Returns zero rounds n i conn e c w iso within le enough = absurd (omega arith)
    tx_loop-Returns (suc fuel) rounds n i conn e c w iso within le enough =
        >>=-Returns (tx_pass env (suc rounds) action conn e (c, w)) _ (Passed c w) _
          (tx_pass-Returns rounds conn e c w iso)
          λ p h.
            tx_decide-Returns n i (tx_loop env fuel (suc rounds) action (i + 1)) p.0 p.1.0 p.1.1.0 w
              p.1.1.1 (ap (λ o. o.isolation) h.1 ∙ iso)
              (IsWithin-at n c.retry_opts p.1.1.0.retry_opts h.2 within) le h.0
              (λ conn' e' c' w' iso' within' le'.
                tx_loop-Returns fuel rounds n (i + 1) conn' e' c' w' iso' within' le' (omega arith))

    -- `tx` on a connection whose options have the one isolation level returns, and by then has run
    -- the block at most `n` times, where no retry rule allows more than `n` attempts, and `n` is 1 at
    -- least. `n` passes of the loop, and one round of each reconnect, are enough.
    pub tx-Returns :
        (fuel rounds n : ℕ) (c : TransactableConn) (w : W)
        → c.tx_opts.isolation ≡ serializable
        → IsWithin n c.retry_opts
        → 1 ≤ n
        → n ≤ fuel
        → 1 ≤ rounds
        → Returns (tx env fuel rounds action (c, w)) (λ r. runs r.1.1 ≤ runs w + n)
    unfolding tx
    tx-Returns fuel zero n c w iso within one enough round = absurd (omega arith)
    tx-Returns fuel (suc rounds) n c w iso within one enough round =
        go (borrow transaction c.reconnecting.borrowable)
      where
        go :
            (b : (ℕ ⊎ GoError) × BorrowableConn)
            → Returns
                (tx_borrowed env fuel (suc rounds) action b.0 (set_borrowable env b.1 c, w))
                (λ r. runs r.1.1 ≤ runs w + n)
        go (inr e, b) = omega arith
        go (inl conn, b) =
            >>=-Returns
              (tx_loop env fuel (suc rounds) action 1 conn none (set_borrowable env b c, w)) _ _ _
              (tx_loop-Returns fuel rounds n 1 conn none (set_borrowable env b c) w iso within one
                (omega arith))
              (λ r h. unfold Done in omega arith)
