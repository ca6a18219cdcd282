-- ===== src/Examples/Transactions.antt =====
-- internal/client against a small server.
use edgedb_go.Common.{
  ℕ, ◌+◌, ◌==◌, ◌≤◌, if◌then◌else◌, Returns, IfReturns, ok, ◌≡◌, ◌⊎◌, refl, arith, Bool, true,
  false, Option, none, some, inr,
}
use edgedb_go.Client.Errors.{
  ErrorTag, ErrorCategory, GoError, foreign, should_retry, should_reconnect,
  client_connection_error, transaction_error, transaction_conflict_error, interface_error,
  connection_closed, borrowed_for_transaction, plain_client_error, unexpected_error_type,
  first_error,
}
use edgedb_go.Client.Retry.{RetryRule, new_retry_rule, rule_for_exception}
use edgedb_go.Client.Borrow.{Reason, unborrowed, transaction, borrow, assert_unborrowed, unborrow}
use edgedb_go.Client.Env.{Env, Command, start_transaction, commit_transaction, rollback_transaction}
use edgedb_go.Client.Reconnect.{reconnect, max_time}
use edgedb_go.Client.Reconnect.Laws.{IsClock, Ended, reconnect-ends}
use edgedb_go.Client.Tx.{
  Tx, new_tx_options, started_tx, failed_tx, committed_tx, rolled_back_tx, start, commit, rollback,
  tx_flow,
}
use edgedb_go.Client.Tx.Lifecycle.{Step, Starts, Refused, methods-Step, done-is_final}
use edgedb_go.Client.Transactable.{TransactableConn, needs_reconnect, tx_loop, tx}
use edgedb_go.Client.Transactable.Bounds.{Counts, tx-Returns}
use edgedb_go.Client.Transactable.Commits.{Committed, tx-success}
use edgedb_go.Client.Transactable.Single.{
  commit-fails_once, start-fails_no_rule, tx-unborrows, tx-borrowed, for_transaction,
}

abbrev is_tag : Bool → Bool → ErrorTag → Bool
is_tag retry reconnect should_retry = retry
is_tag retry reconnect should_reconnect = reconnect

abbrev is_conflict : ErrorCategory → Bool
is_conflict transaction_error = true
is_conflict transaction_conflict_error = true
is_conflict _ = false

abbrev is_connection : ErrorCategory → Bool
is_connection client_connection_error = true
is_connection _ = false

abbrev is_unavailable : ErrorCategory → Bool
is_unavailable _ = false

abbrev edge_error : ℕ → Bool → Bool → (ErrorCategory → Bool) → GoError
edge_error n retry reconnect category = record {
  message = foreign n;
  as_error = some (record { has_tag = is_tag retry reconnect; category = category });
  is_canceled = false;
  is_deadline_exceeded = false;
}

-- A conflict of transactions, a lost connection, and a backend that is not available.
abbrev conflict : GoError
conflict = edge_error 1 true false is_conflict

abbrev lost : GoError
lost = edge_error 2 false true is_connection

abbrev unavailable : GoError
unavailable = edge_error 3 true false is_unavailable

abbrev refused : GoError
refused = edge_error 4 true true is_connection

-- The clock, the runs of the block, and the number of scripts that were sent.
record World : Type 0 where
  clock : ℕ
  runs : ℕ
  sent : ℕ

-- A server that answers a script by the runs of the block up to then, and refuses connections.
abbrev server : (ℕ → Command → Option GoError) → Env World
server answer = record {
  script_flow = λ conn q w. (answer w.runs q, record w { sent = w.sent + 1 });
  granular_flow = λ conn q w. (none, w);
  conn_closed = λ conn w. false;
  soc_closed = λ conn w. false;
  close = λ conn w. (none, w);
  connect = λ w. (inr refused, record w { clock = w.clock + 1 });
  rnd_intn = λ n w. (5, w);
  now = λ w. w.clock;
  sleep = λ n w. record w { clock = w.clock + n };
  cached_capabilities = λ q w. (none, w);
  ctx_deadline = none;
}

-- The first COMMIT conflicts with another transaction.
abbrev conflict_once : ℕ → Command → Option GoError
conflict_once runs commit_transaction = if runs == 1 then some conflict else none
conflict_once runs _ = none

-- The connection is lost while a COMMIT runs.
abbrev commit_lost : ℕ → Command → Option GoError
commit_lost runs commit_transaction = some lost
commit_lost runs _ = none

abbrev start_unavailable : ℕ → Command → Option GoError
start_unavailable runs (start_transaction read_only deferrable) = some unavailable
start_unavailable runs _ = none

abbrev block : Tx → World → Option GoError × World
block t w = (none, record w { runs = w.runs + 1 })

abbrev rule : RetryRule
rule = new_retry_rule (λ i. 100)

abbrev conn_for : Reason → TransactableConn
conn_for reason = record {
  reconnecting = record {
    borrowable = record { conn = 1; reason = reason };
    wait_until_available = 30;
    is_closed = false;
  };
  tx_opts = new_tx_options;
  retry_opts = record { from_factory = true; tx_conflict = rule; network = rule };
}

abbrev begin : World
begin = record { clock = 0; runs = 0; sent = 0 }

counts : (answer : ℕ → Command → Option GoError) → Counts (server answer) (λ w. w.runs) block
counts answer = record {
  ran = λ t w. refl;
  sent = λ conn q w. refl;
  connected = λ w. refl;
  slept = λ n w. refl;
}

clock : IsClock (server conflict_once)
clock = record {
  slept = λ n w. omega arith;
  connected = λ w. omega arith;
  drawn = λ n w. omega arith;
}

tx-Returns_example :
    Returns
      (tx (server conflict_once) 3 1 block (conn_for unborrowed, begin))
      (λ r. r.1.1.runs ≤ begin.runs + 3)
tx-Returns_example =
    tx-Returns (server conflict_once) (counts conflict_once) 3 1 3 (conn_for unborrowed) begin refl
      (record { conflict = omega arith; network = omega arith }) (omega arith) (omega arith)
      (omega arith)

-- A conflict, a wait of 100 milliseconds, and the second COMMIT.
abbrev committed : World
committed = record { clock = 100; runs = 2; sent = 4 }

tx-success_example : Committed (server conflict_once) block committed
unfolding tx start commit borrow assert_unborrowed rule_for_exception first_error unborrow
tx-success_example =
    tx-success (server conflict_once) block 3 1 (conn_for unborrowed) (conn_for unborrowed) begin
      committed refl

commit-fails_once_example :
    tx_loop (server commit_lost) 3 1 block 1 1 none (conn_for transaction, begin)
    ≡ ok (some lost, (conn_for transaction, record { clock = 0; runs = 1; sent = 2 }))
unfolding needs_reconnect
commit-fails_once_example =
    commit-fails_once (server commit_lost) block 2 1 1 1 none (conn_for transaction) begin
      (record { clock = 0; runs = 0; sent = 1 }) (record { clock = 0; runs = 1; sent = 1 })
      (record { clock = 0; runs = 1; sent = 2 }) lost refl refl refl refl refl refl

start-fails_no_rule_example :
    tx_loop (server start_unavailable) 3 1 block 1 1 none (conn_for transaction, begin)
    ≡ ok (
      some (plain_client_error unexpected_error_type),
      (conn_for transaction, record { clock = 0; runs = 0; sent = 1 }),
    )
unfolding needs_reconnect
start-fails_no_rule_example =
    start-fails_no_rule (server start_unavailable) block 2 1 1 1 none (conn_for transaction) begin
      (record { clock = 0; runs = 0; sent = 1 }) unavailable
      (record { has_tag = is_tag true false; category = is_unavailable }) refl refl refl refl refl
      refl refl

tx-unborrows_example :
    IfReturns
      (tx (server conflict_once) 3 1 block (conn_for unborrowed, begin))
      (λ r. r.1.0.reconnecting.borrowable.reason ≡ unborrowed)
tx-unborrows_example =
    tx-unborrows (server conflict_once) block 3 1 (conn_for unborrowed) begin refl

tx-borrowed_example :
    tx (server conflict_once) 3 1 block (conn_for transaction, begin)
    ≡ ok (some (interface_error borrowed_for_transaction), (conn_for transaction, begin))
tx-borrowed_example =
    tx-borrowed (server conflict_once) block 3 1 (conn_for transaction) begin
      borrowed_for_transaction for_transaction

reconnect-ends_example :
    Returns
      (reconnect (server conflict_once) 32 false (conn_for unborrowed).reconnecting begin)
      (λ r.
        (((conn_for unborrowed).reconnecting.is_closed ≡ true)
          × (r ≡ (
            some (interface_error connection_closed),
            ((conn_for unborrowed).reconnecting, begin),
          )))
        ⊎ (((conn_for unborrowed).reconnecting.is_closed ≡ false)
            × Ended
                (server conflict_once)
                clock
                false
                (max_time (server conflict_once) (conn_for unborrowed).reconnecting begin)
                (conn_for unborrowed).reconnecting
                r))
reconnect-ends_example =
    reconnect-ends (server conflict_once) clock 32 false (conn_for unborrowed).reconnecting begin
      (omega arith)

abbrev failed : Tx
failed = record {
  borrowable = record { conn = 1; reason = unborrowed };
  tx_status = failed_tx;
  options = new_tx_options;
}

abbrev started : Tx
started = record {
  borrowable = record { conn = 1; reason = unborrowed };
  tx_status = started_tx;
  options = new_tx_options;
}

methods-Step_example :
    Starts (server commit_lost) started begin (start (server commit_lost) started begin)
    × Step
        (server commit_lost)
        started_tx
        committed_tx
        commit_transaction
        started
        begin
        (commit (server commit_lost) started begin)
    × Step
        (server commit_lost)
        started_tx
        rolled_back_tx
        rollback_transaction
        started
        begin
        (rollback (server commit_lost) started begin)
methods-Step_example = methods-Step (server commit_lost) started begin

done-is_final_example :
    ((e : GoError) × (start (server commit_lost) failed begin ≡ ok (some e, (failed, begin))))
    × Refused (server commit_lost) failed begin (commit (server commit_lost) failed begin)
    × Refused (server commit_lost) failed begin (rollback (server commit_lost) failed begin)
    × ((e : GoError) × (tx_flow (server commit_lost) (λ conn w. (none, w)) failed begin
          ≡ (some e, begin)))
done-is_final_example =
    done-is_final (server commit_lost) failed begin (λ conn w. (none, w)) (inr (inr refl))
