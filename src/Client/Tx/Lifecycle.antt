-- ===== src/Client/Tx/Lifecycle.antt =====
-- The life of a transaction: which states its methods lead to, and what they do in a state that is
-- not theirs.
use edgedb_go.Common.{ℕ, Outcome, ok, panic, ◌≡◌, ◌≢◌, refl, arith, Option, none, some, ◌⊎◌}
use edgedb_go.Client.Errors.{GoError}
use edgedb_go.Client.Borrow.{BorrowableConn}
use edgedb_go.Client.Env.{
  Env, Command, start_transaction, commit_transaction, rollback_transaction, OutOfFuel,
}
use edgedb_go.Client.Tx.{
  Tx, TxStatus, TxOptions, IsolationLevel, serializable, unknown_level, new_tx, started_tx,
  committed_tx, rolled_back_tx, failed_tx, start_tx_query, execute, start, commit, rollback,
  tx_flow, borrowed_script_flow, after_execute,
}

abbrev pub IsDone : TxStatus → Type 0
IsDone s = (s ≡ committed_tx) ⊎ ((s ≡ rolled_back_tx) ⊎ (s ≡ failed_tx))

module _ {W : Type 0} (env : Env W) where
  -- What a method comes to whose state is `own`, whose command is `q`, and whose state for success is
  -- `success`: in its state it sends the command, and the error of the command decides.
  pub data Step (own success : TxStatus) (q : Command) (t : Tx) (w : W)
      : Option GoError × (Tx × W) → Type 0 where
    succeeds :
        {w' : W}
        → t.tx_status ≡ own
        → borrowed_script_flow env q t.borrowable w ≡ (none, w')
        → Step own success q t w (none, (record t { tx_status = success }, w'))
    fails :
        {e : GoError} {w' : W}
        → t.tx_status ≡ own
        → borrowed_script_flow env q t.borrowable w ≡ (some e, w')
        → Step own success q t w (some e, (record t { tx_status = failed_tx }, w'))
    refused : {e : GoError} → t.tx_status ≢ own → Step own success q t w (some e, (t, w))

  -- What `start` comes to: a step, or the panic of an isolation level that it does not know.
  pub data Starts (t : Tx) (w : W) : Outcome OutOfFuel (Option GoError × (Tx × W)) → Type 0 where
    returned :
        {r : Option GoError × (Tx × W)}
        → Step new_tx started_tx (start_transaction t.options.read_only t.options.deferrable) t w r
        → Starts t w (ok r)
    panics :
        (i : ℕ) → t.tx_status ≡ new_tx → t.options.isolation ≡ unknown_level i → Starts t w panic

  abbrev make : BorrowableConn → TxOptions → TxStatus → Tx
  make b o s = record { borrowable = b; tx_status = s; options = o }

  Step-execute :
      (own success : TxStatus) (q : Command) (t : Tx) (w : W)
      → t.tx_status ≡ own
      → Step own success q t w (execute env q success t w)
  unfolding execute
  Step-execute own success q t w h = go (borrowed_script_flow env q t.borrowable w) refl
    where
      go :
          (r : Option GoError × W)
          → borrowed_script_flow env q t.borrowable w ≡ r
          → Step own success q t w (after_execute env success t r)
      go (none, w') e = succeeds h e
      go (some x, w') e = fails h e

  commit-Step :
      (b : BorrowableConn) (o : TxOptions) (s : TxStatus) (w : W)
      → Step started_tx committed_tx commit_transaction (make b o s) w (commit env (make b o s) w)
  unfolding commit
  commit-Step b o started_tx w = Step-execute started_tx committed_tx commit_transaction _ w refl
  commit-Step b o new_tx w = refused (λ e. cc)
  commit-Step b o committed_tx w = refused (λ e. cc)
  commit-Step b o rolled_back_tx w = refused (λ e. cc)
  commit-Step b o failed_tx w = refused (λ e. cc)

  rollback-Step :
      (b : BorrowableConn) (o : TxOptions) (s : TxStatus) (w : W)
      → Step started_tx rolled_back_tx rollback_transaction
          (make b o s)
          w
          (rollback env (make b o s) w)
  unfolding rollback
  rollback-Step b o started_tx w =
      Step-execute started_tx rolled_back_tx rollback_transaction _ w refl
  rollback-Step b o new_tx w = refused (λ e. cc)
  rollback-Step b o committed_tx w = refused (λ e. cc)
  rollback-Step b o rolled_back_tx w = refused (λ e. cc)
  rollback-Step b o failed_tx w = refused (λ e. cc)

  start-Starts :
      (b : BorrowableConn) (o : TxOptions) (s : TxStatus) (w : W)
      → Starts (make b o s) w (start env (make b o s) w)
  unfolding start start_tx_query
  start-Starts b o new_tx w = go o.isolation refl
    where
      go :
          (i : IsolationLevel)
          → o.isolation ≡ i
          → Starts (make b o new_tx) w (start env (make b o new_tx) w)
      go serializable e = rw e (returned (Step-execute new_tx started_tx _ _ w refl))
      go (unknown_level i) e = rw e (panics i refl refl)
  start-Starts b o started_tx w = returned (refused (λ e. cc))
  start-Starts b o committed_tx w = returned (refused (λ e. cc))
  start-Starts b o rolled_back_tx w = returned (refused (λ e. cc))
  start-Starts b o failed_tx w = returned (refused (λ e. cc))

  -- What start, commit and rollback come to, on every branch. In its own state, which is new for
  -- start and started for the others, a method sends START TRANSACTION with the options, COMMIT or
  -- ROLLBACK on its connection and returns the error of that: with none the transaction is started,
  -- committed or rolled back, and with one it has failed. In any other state it returns an error,
  -- sends nothing and changes nothing. Only start of a new transaction whose isolation level is not
  -- serializable may panic.
  pub methods-Step :
      (t : Tx) (w : W)
      → Starts t w (start env t w)
        × Step started_tx committed_tx commit_transaction t w (commit env t w)
        × Step started_tx rolled_back_tx rollback_transaction t w (rollback env t w)
  methods-Step t w = (
    start-Starts t.borrowable t.options t.tx_status w,
    commit-Step t.borrowable t.options t.tx_status w,
    rollback-Step t.borrowable t.options t.tx_status w,
  )

  -- What a method of a transaction that is not in its state comes to: an error, and nothing else.
  abbrev pub Refused : Tx → W → Option GoError × (Tx × W) → Type 0
  Refused t w r = (e : GoError) × (r ≡ (some e, (t, w)))

  done-Refused :
      (b : BorrowableConn) (o : TxOptions) (s : TxStatus) (w : W) (run : ℕ → W → Option GoError × W)
      → IsDone s
      → ((e : GoError) × (start env (make b o s) w ≡ ok (some e, (make b o s, w))))
        × Refused (make b o s) w (commit env (make b o s) w)
        × Refused (make b o s) w (rollback env (make b o s) w)
        × ((e : GoError) × (tx_flow env run (make b o s) w ≡ (some e, w)))
  unfolding start commit rollback tx_flow
  done-Refused b o committed_tx w run d = ((_, refl), (_, refl), (_, refl), (_, refl))
  done-Refused b o rolled_back_tx w run d = ((_, refl), (_, refl), (_, refl), (_, refl))
  done-Refused b o failed_tx w run d = ((_, refl), (_, refl), (_, refl), (_, refl))
  done-Refused b o new_tx w run d = ground arith
  done-Refused b o started_tx w run d = ground arith

  -- A transaction that was committed, was rolled back or has failed is over: every method returns an
  -- error, sends nothing and changes nothing.
  pub done-is_final :
      (t : Tx) (w : W) (run : ℕ → W → Option GoError × W)
      → IsDone t.tx_status
      → ((e : GoError) × (start env t w ≡ ok (some e, (t, w))))
        × Refused t w (commit env t w)
        × Refused t w (rollback env t w)
        × ((e : GoError) × (tx_flow env run t w ≡ (some e, w)))
  done-is_final t w run d = done-Refused t.borrowable t.options t.tx_status w run d
