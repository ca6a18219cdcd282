-- ===== src/Client/Tx.antt =====
-- internal/client/transaction.go: the states of a transaction, and TxOptions of options.go.
pub mod Lifecycle
use edgedb_go.Common.{
  ℕ, Bool, true, false, if◌then◌else◌, Outcome, ok, panic, ◌>>=◌, Option, none, some,
}
use edgedb_go.Client.Errors.{
  GoError, interface_error, already_committed, already_rolled_back, in_error_state, not_yet_started,
  already_started,
}
use edgedb_go.Client.Borrow.{BorrowableConn, assert_unborrowed}
use edgedb_go.Client.Env.{
  Env, Command, start_transaction, commit_transaction, rollback_transaction, OutOfFuel,
}

pub data IsolationLevel : Type 0 where
  serializable : IsolationLevel
  unknown_level : ℕ → IsolationLevel

pub record TxOptions : Type 0 where
  pub from_factory : Bool
  pub read_only : Bool
  pub deferrable : Bool
  pub isolation : IsolationLevel

abbrev pub new_tx_options : TxOptions
new_tx_options = record {
  from_factory = true;
  read_only = false;
  deferrable = false;
  isolation = serializable;
}

set_isolation : IsolationLevel → TxOptions → Outcome OutOfFuel TxOptions
set_isolation serializable o = ok (record o { isolation = serializable })
set_isolation (unknown_level i) o = panic

unfoldable pub with_isolation : IsolationLevel → TxOptions → Outcome OutOfFuel TxOptions
unfolding set_isolation
with_isolation i o = set_isolation i o

unfoldable pub with_read_only : Bool → TxOptions → TxOptions
with_read_only r o = record o { read_only = r }

unfoldable pub with_deferrable : Bool → TxOptions → TxOptions
with_deferrable d o = record o { deferrable = d }

-- The query is kept as its two choices: READ ONLY or READ WRITE, DEFERRABLE or NOT DEFERRABLE.
start_query : IsolationLevel → TxOptions → Outcome OutOfFuel Command
start_query serializable o = ok (start_transaction o.read_only o.deferrable)
start_query (unknown_level i) o = panic

unfoldable pub start_tx_query : TxOptions → Outcome OutOfFuel Command
unfolding start_query
start_tx_query o = start_query o.isolation o

pub data TxStatus : Type 0 where
  new_tx started_tx committed_tx rolled_back_tx failed_tx : TxStatus

unfoldable pub assert_not_done : TxStatus → Option GoError
assert_not_done committed_tx = some (interface_error already_committed)
assert_not_done rolled_back_tx = some (interface_error already_rolled_back)
assert_not_done failed_tx = some (interface_error in_error_state)
assert_not_done _ = none

unfoldable pub assert_started : TxStatus → Option GoError
unfolding assert_not_done
assert_started started_tx = none
assert_started new_tx = some (interface_error not_yet_started)
assert_started s = assert_not_done s

pub record Tx : Type 0 where
  pub borrowable : BorrowableConn
  pub tx_status : TxStatus
  pub options : TxOptions

module _ {W : Type 0} (env : Env W) where
  -- `borrowableConn.scriptFlow`
  unfoldable pub borrowed_script_flow : Command → BorrowableConn → W → Option GoError × W
  borrowed_script_flow q c w = elim (assert_unborrowed c) [
    | some e ↦ (some e, w)
    | none ↦ env.script_flow c.conn q w
  ]

  -- The query of `execute` is always built: `newQuery` does not fail for the method "Execute".
  after_execute : TxStatus → Tx → Option GoError × W → Option GoError × (Tx × W)
  after_execute success t (none, w) = (none, (record t { tx_status = success }, w))
  after_execute success t (some e, w) = (some e, (record t { tx_status = failed_tx }, w))

  unfoldable pub execute : Command → TxStatus → Tx → W → Option GoError × (Tx × W)
  unfolding borrowed_script_flow after_execute
  execute cmd success t w = after_execute success t (borrowed_script_flow cmd t.borrowable w)

  start_new : TxStatus → Tx → W → Outcome OutOfFuel (Option GoError × (Tx × W))
  unfolding execute start_tx_query
  start_new started_tx t w = ok (some (interface_error already_started), (t, w))
  start_new s t w = do query ← start_tx_query t.options; ok (execute query started_tx t w)

  unfoldable pub start : Tx → W → Outcome OutOfFuel (Option GoError × (Tx × W))
  unfolding start_new assert_not_done
  start t w = elim (assert_not_done t.tx_status) [
    | some e ↦ ok (some e, (t, w))
    | none ↦ start_new t.tx_status t w
  ]

  unfoldable pub commit : Tx → W → Option GoError × (Tx × W)
  unfolding assert_started execute
  commit t w = elim (assert_started t.tx_status) [
    | some e ↦ (some e, (t, w))
    | none ↦ execute commit_transaction committed_tx t w
  ]

  unfoldable pub rollback : Tx → W → Option GoError × (Tx × W)
  unfolding assert_started execute
  rollback t w = elim (assert_started t.tx_status) [
    | some e ↦ (some e, (t, w))
    | none ↦ execute rollback_transaction rolled_back_tx t w
  ]

  -- `Tx.scriptFlow` and `Tx.granularFlow`, for `run` the method of the borrowed connection.
  unfoldable pub tx_flow : (ℕ → W → Option GoError × W) → Tx → W → Option GoError × W
  unfolding assert_started
  tx_flow run t w = elim (assert_started t.tx_status) [
    | some e ↦ (some e, w)
    | none ↦ elim (assert_unborrowed t.borrowable) [
      | some e ↦ (some e, w)
      | none ↦ run t.borrowable.conn w
    ]
  ]
