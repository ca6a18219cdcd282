-- ===== src/Client/Transactable.antt =====
-- internal/client/transactable.go: queries and transactions that are tried again.
pub mod Bounds
pub mod Commits
pub mod Queries
pub mod Single
use edgedb_go.Common.{
  ℕ, zero, suc, ◌+◌, leb, if◌then◌else◌, Outcome, ok, err, panic, blocked, ◌>>=◌, Bool, true, false,
  ◌&&◌, ◌||◌, ◌==◌, Option, none, some, ◌⊎◌, inl, inr,
}
use edgedb_go.Client.Errors.{
  Error, GoError, as_error_and, first_error, is_client_connection_error, should_retry,
  transaction_error, transaction_conflict_error,
}
use edgedb_go.Client.Retry.{RetryRule, RetryOptions, rule_for_exception}
use edgedb_go.Client.Borrow.{BorrowableConn, transaction, unborrowed, borrow, unborrow}
use edgedb_go.Client.Env.{Env, OutOfFuel, out_of_fuel}
use edgedb_go.Client.Reconnect
use edgedb_go.Client.Reconnect.{ReconnectingConn}
use edgedb_go.Client.Tx
use edgedb_go.Client.Tx.{Tx, TxOptions, new_tx}

pub record TransactableConn : Type 0 where
  pub reconnecting : ReconnectingConn
  pub tx_opts : TxOptions
  pub retry_opts : RetryOptions

-- A pass through the loop body ends with `return`, or with the error that the label `Error` looks at.
pub data Pass : Type 0 where
  returned : Option GoError → Pass
  at_error : GoError → Pass

-- What the code at the label `Error` does with the error of pass `i`: the time to wait before
-- the next pass, or the error to return.
pub data Verdict : Type 0 where
  wait : ℕ → Verdict
  give_up : Option GoError → Verdict

abbrev errors_as : Option GoError → Option Error
errors_as none = none
errors_as (some e) = e.as_error

unfoldable pub apply_rule : ℕ → Option GoError → RetryRule ⊎ GoError → Verdict
apply_rule i e (inr x) = give_up (some x)
apply_rule i e (inl rule) = if leb rule.attempts i then give_up e else wait (rule.backoff i)

-- The label `Error` of `tx`.
unfoldable pub tx_verdict : RetryOptions → ℕ → Option GoError → Verdict
unfolding apply_rule
tx_verdict opts i e = elim (errors_as e) [
  | none ↦ give_up e
  | some x ↦
      if x.has_tag should_retry then apply_rule i e (rule_for_exception x opts) else give_up e
]

-- The label `Error` of `granularFlow`, with what `getCachedCapabilities` found.
unfoldable pub query_verdict : RetryOptions → Option ℕ → ℕ → Option GoError → Verdict
unfolding apply_rule
query_verdict opts none i e = give_up e
query_verdict opts (some capabilities) i e = elim (errors_as e) [
  | none ↦ give_up e
  | some x ↦
      if x.has_tag should_retry && (capabilities == 0 || x.category transaction_conflict_error)
      then apply_rule i e (rule_for_exception x opts)
      else give_up e
]

module _ {W : Type 0} (env : Env W) where
  -- The user's block. It has the transaction, whose methods do not change its status.
  abbrev pub TxBlock : Type 0
  TxBlock = Tx → W → Option GoError × W

  abbrev pub State : Type 0
  State = TransactableConn × W

  after_commit : Option GoError → W → Pass × W
  after_commit none w = (returned none, w)
  after_commit (some x) w =
      if as_error_and x (λ y. y.category transaction_error && y.has_tag should_retry)
      then (at_error x, w)
      else (returned (some x), w)

  -- An EdgeDB error of the rollback is dropped, any other is returned.
  after_rollback : GoError → Option GoError → W → Pass × W
  after_rollback x none w = (at_error x, w)
  after_rollback x (some e) w = elim e.as_error [
    | none ↦ (returned (some e), w)
    | some y ↦ (at_error x, w)
  ]

  -- What comes after the action: the commit, or the rollback.
  after_action : Tx → Option GoError × W → Pass × W
  unfolding after_commit after_rollback
  after_action t (none, w) = let (e, (t', w')) = Tx.commit env t w in after_commit e w'
  after_action t (some x, w) =
      if is_client_connection_error x
      then (at_error x, w)
      else (let (e, (t', w')) = Tx.rollback env t w in after_rollback x e w')

  -- The block of `tx` with the transaction.
  after_start : TxBlock → Option GoError × (Tx × W) → Pass × W
  unfolding after_action
  after_start action (some e, (t, w)) = (at_error e, w)
  after_start action (none, (t, w)) = after_action t (action t w)

  attempt : TxBlock → TxOptions → ℕ → W → Outcome OutOfFuel (Pass × W)
  unfolding after_start
  attempt action opts conn w = do
    started ←
        Tx.start env
          (record {
            borrowable = record { conn = conn; reason = unborrowed };
            tx_status = new_tx;
            options = opts;
          })
          w
    ok (after_start action started)

  -- The test at the head of both loops.
  unfoldable pub needs_reconnect : Option GoError → ReconnectingConn → W → Bool
  needs_reconnect e c w = elim (errors_as e) [
    | none ↦ false
    | some x ↦ env.soc_closed c.borrowable.conn w
  ]

  -- A pass of the loop of `tx`, with the connection that the next pass has.
  reconnected :
      TxBlock
      → ℕ
      → TransactableConn
      → Option GoError × (ReconnectingConn × W)
      → Outcome OutOfFuel (Pass × (ℕ × State))
  unfolding attempt
  reconnected action conn c (some e, (r, w)) =
      ok (at_error e, (conn, (record c { reconnecting = r }, w)))
  reconnected action conn c (none, (r, w)) = do
    (p, w') ← attempt action c.tx_opts r.borrowable.conn w
    ok (p, (r.borrowable.conn, (record c { reconnecting = r }, w')))

  tx_pass : ℕ → TxBlock → ℕ → Option GoError → State → Outcome OutOfFuel (Pass × (ℕ × State))
  unfolding reconnected needs_reconnect
  tx_pass fuel action conn e (c, w) =
      if needs_reconnect e c.reconnecting w
      then Reconnect.reconnect env fuel true c.reconnecting w >>= reconnected action conn c
      else (do (p, w') ← attempt action c.tx_opts conn w; ok (p, (conn, (c, w'))))

  abbrev pub Reply : Type 0
  Reply = Outcome OutOfFuel (Option GoError × State)

  -- `time.Sleep(rule.backoff(i)); continue`, or the `return` behind it.
  decide : (W → Option GoError → Reply) → Option GoError → Verdict → State → Reply
  decide next e (give_up r) (c, w) = ok (r, (c, w))
  decide next e (wait n) (c, w) = next (env.sleep n w) e

  tx_decide : (ℕ → Option GoError → State → Reply) → ℕ → Pass × (ℕ × State) → Reply
  unfolding decide tx_verdict
  tx_decide next i (returned r, (conn, s)) = ok (r, s)
  tx_decide next i (at_error e, (conn, (c, w))) =
      decide (λ w' e'. next conn e' (c, w')) (some e) (tx_verdict c.retry_opts i (some e)) (c, w)

  -- The loop of `tx`: pass `i`, with the connection and the error that the pass before left.
  unfoldable pub tx_loop : ℕ → ℕ → TxBlock → ℕ → ℕ → Option GoError → State → Reply
  unfolding tx_pass tx_decide
  tx_loop zero rounds action i conn e s = err out_of_fuel
  tx_loop (suc fuel) rounds action i conn e s =
      tx_pass rounds action conn e s >>= tx_decide (tx_loop fuel rounds action (i + 1)) i

  set_borrowable : BorrowableConn → TransactableConn → TransactableConn
  set_borrowable b c = record c { reconnecting = record c.reconnecting { borrowable = b } }

  -- The deferred `unborrow`, whose error counts only where there is no other.
  returning : Option GoError × State → Option GoError × State
  unfolding set_borrowable
  returning (e, (c, w)) =
      let (u, b) = unborrow c.reconnecting.borrowable in (first_error e u, (set_borrowable b c, w))

  tx_borrowed : ℕ → ℕ → TxBlock → (ℕ ⊎ GoError) → State → Reply
  unfolding tx_loop returning
  tx_borrowed fuel rounds action (inr e) s = ok (some e, s)
  tx_borrowed fuel rounds action (inl conn) s = do
    result ← tx_loop fuel rounds action 1 conn none s
    ok (returning result)

  unfoldable pub tx : ℕ → ℕ → TxBlock → State → Reply
  unfolding tx_borrowed set_borrowable
  tx fuel rounds action (c, w) =
      let (conn, b) = borrow transaction c.reconnecting.borrowable in
      tx_borrowed fuel rounds action conn (set_borrowable b c, w)

  -- The label `Error` of `granularFlow`, behind the look at the cached capabilities.
  query_decide : (Option GoError → State → Reply) → ℕ → ℕ → Option GoError × State → Reply
  unfolding decide query_verdict
  query_decide next q i (e, (c, w)) =
      let (capabilities, w') = env.cached_capabilities q w in
      decide (λ w'' e'. next e' (c, w'')) e (query_verdict c.retry_opts capabilities i e) (c, w')

  keep_conn : TransactableConn → Option GoError × (ReconnectingConn × W) → Option GoError × State
  keep_conn c (e, (r, w)) = (e, (record c { reconnecting = r }, w))

  query_reconnected : ℕ → ℕ → Option GoError × State → Reply
  unfolding keep_conn
  query_reconnected rounds q (some e, s) = ok (some e, s)
  query_reconnected rounds q (none, (c, w)) = do
    p ← Reconnect.granular_flow env rounds q c.reconnecting w
    ok (keep_conn c p)

  query_pass : ℕ → ℕ → Option GoError → State → Reply
  unfolding query_reconnected needs_reconnect
  query_pass rounds q e (c, w) =
      if needs_reconnect e c.reconnecting w
      then (do
        p ← Reconnect.reconnect env rounds true c.reconnecting w
        query_reconnected rounds q (keep_conn c p))
      else query_reconnected rounds q (none, (c, w))

  pub query_loop : ℕ → ℕ → ℕ → ℕ → Option GoError → State → Reply
  unfolding query_pass query_decide
  query_loop zero rounds q i e s = err out_of_fuel
  query_loop (suc fuel) rounds q i e s =
      query_pass rounds q e s >>= query_decide (query_loop fuel rounds q (i + 1)) q i

  -- `transactableConn.granularFlow`
  unfoldable pub granular_flow : ℕ → ℕ → ℕ → State → Reply
  unfolding query_loop
  granular_flow fuel rounds q s = query_loop fuel rounds q 1 none s
