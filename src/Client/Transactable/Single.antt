-- ===== src/Client/Transactable/Single.antt =====
-- What `tx` does on errors that are not tried again, and what it leaves of the loan of its connection.
use edgedb_go.Common.{
  ℕ, suc, ok, IfReturns, >>=-IfReturns, ◌≡◌, refl, arith, true, false, ◌&&◌, Option, none, some,
  inl, inr,
}
use edgedb_go.Client.Errors.{
  Error, GoError, as_error_and, plain_client_error, unexpected_error_type, should_retry,
  transaction_error, transaction_conflict_error, client_error, Message, interface_error,
  borrowed_for_transaction, borrowed_for_subtransaction, existing_reason_unexpected,
}
use edgedb_go.Client.Retry.{RetryOptions, rule_for_exception}
use edgedb_go.Client.Borrow.{
  Reason, BorrowableConn, unborrowed, transaction, subtransaction, other_reason, borrow, unborrow,
  assert_unborrowed,
}
use edgedb_go.Client.Env.{Env, start_transaction, commit_transaction}
use edgedb_go.Client.Tx.{Tx, TxOptions, serializable, started_tx, start, commit}
use edgedb_go.Client.Transactable.{
  TransactableConn, give_up, tx_verdict, TxBlock, Reply, attempt, needs_reconnect, tx_loop,
  set_borrowable, returning, tx,
}

-- The transaction of a pass, once it has started.
abbrev started_with : TxOptions → ℕ → Tx
started_with opts conn = record {
  borrowable = record { conn = conn; reason = unborrowed };
  tx_status = started_tx;
  options = opts;
}

-- The message for a reason for which a connection is borrowed.
pub data TakenFor : Reason → Message → Type 0 where
  for_transaction : TakenFor transaction borrowed_for_transaction
  for_subtransaction : TakenFor subtransaction borrowed_for_subtransaction
  for_another : {n : ℕ} → TakenFor (other_reason n) existing_reason_unexpected

module _ {W : Type 0} (env : Env W) (action : TxBlock env) where
  -- A COMMIT that fails with an error that is not both a TransactionError and marked SHOULD_RETRY,
  -- such as a lost connection, may have been carried out: the pass returns that error, the block
  -- is not run again and nothing more is sent, whatever rules and fuel are left.
  pub commit-fails_once :
      (fuel rounds i conn : ℕ) (e : Option GoError) (c : TransactableConn) (w w₁ w₂ w₃ : W)
      (x : GoError)
      → c.tx_opts.isolation ≡ serializable
      → needs_reconnect env e c.reconnecting w ≡ false
      → env.script_flow conn (start_transaction c.tx_opts.read_only c.tx_opts.deferrable) w
        ≡ (none, w₁)
      → action (started_with c.tx_opts conn) w₁ ≡ (none, w₂)
      → env.script_flow conn commit_transaction w₂ ≡ (some x, w₃)
      → as_error_and x (λ y. y.category transaction_error && y.has_tag should_retry) ≡ false
      → tx_loop env (suc fuel) rounds action i conn e (c, w) ≡ ok (some x, (c, w₃))
  unfolding tx_loop attempt start commit assert_unborrowed
  commit-fails_once fuel rounds i conn e c w w₁ w₂ w₃ x iso calm began ran sent uncertain =
      simp (calm, iso, began, ran, sent, uncertain) refl

  no_rule :
      (o : RetryOptions) (i : ℕ) (x : GoError) (y : Error)
      → x.as_error ≡ some y
      → y.has_tag should_retry ≡ true
      → y.category transaction_conflict_error ≡ false
      → y.category client_error ≡ false
      → tx_verdict o i (some x) ≡ give_up (some (plain_client_error unexpected_error_type))
  unfolding tx_verdict rule_for_exception
  no_rule o i x y named tagged no_conflict no_client = ground arith

  -- An error marked SHOULD_RETRY for which no rule is there, as it is neither a
  -- TransactionConflictError nor a ClientError, is neither tried again nor returned: where the START
  -- TRANSACTION fails with it, the pass returns "unexpected error type" in its place.
  pub start-fails_no_rule :
      (fuel rounds i conn : ℕ) (e : Option GoError) (c : TransactableConn) (w w₁ : W) (x : GoError)
      (y : Error)
      → c.tx_opts.isolation ≡ serializable
      → needs_reconnect env e c.reconnecting w ≡ false
      → env.script_flow conn (start_transaction c.tx_opts.read_only c.tx_opts.deferrable) w
        ≡ (some x, w₁)
      → x.as_error ≡ some y
      → y.has_tag should_retry ≡ true
      → y.category transaction_conflict_error ≡ false
      → y.category client_error ≡ false
      → tx_loop env (suc fuel) rounds action i conn e (c, w)
        ≡ ok (some (plain_client_error unexpected_error_type), (c, w₁))
  unfolding tx_loop attempt start assert_unborrowed
  start-fails_no_rule fuel rounds i conn e c w w₁ x y iso calm began named tagged no_conflict
        no_client =
      simp (calm, iso, began, no_rule c.retry_opts i x y named tagged no_conflict no_client) refl

  unborrow-reason : (b : BorrowableConn) → (unborrow b).1.reason ≡ unborrowed
  unfolding unborrow
  unborrow-reason b = go b.reason refl
    where
      go : (r : Reason) → b.reason ≡ r → (unborrow b).1.reason ≡ unborrowed
      go unborrowed e = ground arith
      go transaction e = ground arith
      go subtransaction e = ground arith
      go (other_reason n) e = ground arith

  borrow-free : (b : BorrowableConn) → b.reason ≡ unborrowed → (borrow transaction b).0 ≡ inl b.conn
  unfolding borrow
  borrow-free b h = ground arith

  borrow-taken :
      (b : BorrowableConn) (m : Message)
      → TakenFor b.reason m
      → borrow transaction b ≡ (inr (interface_error m), b)
  unfolding borrow
  borrow-taken b m h = go b.reason m refl h
    where
      go :
          (r : Reason) (m' : Message)
          → b.reason ≡ r
          → TakenFor r m'
          → borrow transaction b ≡ (inr (interface_error m'), b)
      go _ _ e for_transaction = ground arith
      go _ _ e for_subtransaction = ground arith
      go _ _ e for_another = ground arith

  -- `tx` on a connection that nobody has borrowed leaves it unborrowed wherever it returns, with an
  -- error or with none.
  pub tx-unborrows :
      (fuel rounds : ℕ) (c : TransactableConn) (w : W)
      → c.reconnecting.borrowable.reason ≡ unborrowed
      → IfReturns
          (tx env fuel rounds action (c, w))
          (λ r. r.1.0.reconnecting.borrowable.reason ≡ unborrowed)
  unfolding tx returning set_borrowable
  tx-unborrows fuel rounds c w h =
      let b = (borrow transaction c.reconnecting.borrowable).1 in
      simp (borrow-free c.reconnecting.borrowable h) (
        >>=-IfReturns
          (tx_loop env fuel rounds action 1 c.reconnecting.borrowable.conn none
            (set_borrowable env b c, w))
          _ (λ r. Unit) _
          (any (
            tx_loop env fuel rounds action 1 c.reconnecting.borrowable.conn none
              (set_borrowable env b c, w)))
          (λ r u. unborrow-reason r.1.0.reconnecting.borrowable))
    where
      any : (m : Reply env) → IfReturns m (λ r. Unit)
      any (ok r) = tt
      any _ = tt

  -- On a connection that is borrowed for a transaction, for a subtransaction or for a reason that
  -- is not known, tx returns the error with the message that says so, runs nothing and changes
  -- nothing.
  pub tx-borrowed :
      (fuel rounds : ℕ) (c : TransactableConn) (w : W) (m : Message)
      → TakenFor c.reconnecting.borrowable.reason m
      → tx env fuel rounds action (c, w) ≡ ok (some (interface_error m), (c, w))
  unfolding tx set_borrowable
  tx-borrowed fuel rounds c w m h = rw (borrow-taken c.reconnecting.borrowable m h) refl
