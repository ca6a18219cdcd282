-- ===== src/Client/Borrow.antt =====
-- internal/client/borrow.go: who may use a connection.
use edgedb_go.Common.{ℕ, Option, none, some, ◌⊎◌, inl, inr}
use edgedb_go.Client.Errors.{
  GoError, interface_error, borrowed_for_transaction, borrowed_for_subtransaction,
  unexpected_borrow_reason, existing_reason_unexpected, not_borrowed,
}

-- The strings that `reason` holds: "", "transaction", "subtransaction", and any other.
pub data Reason : Type 0 where
  unborrowed transaction subtransaction : Reason
  other_reason : ℕ → Reason

-- `conn` names a protocolConnection.
pub record BorrowableConn : Type 0 where
  pub conn : ℕ
  pub reason : Reason

-- The second `switch` of `borrow`.
lend : Reason → BorrowableConn → (ℕ ⊎ GoError) × BorrowableConn
lend transaction c = (inl c.conn, record c { reason = transaction })
lend subtransaction c = (inl c.conn, record c { reason = subtransaction })
lend unborrowed c = (inr (interface_error unexpected_borrow_reason), c)
lend (other_reason r) c = (inr (interface_error unexpected_borrow_reason), c)

-- The first `switch` of `borrow`, and that of `assertUnborrowed`.
unfoldable pub reason_error : Reason → Option GoError
reason_error unborrowed = none
reason_error transaction = some (interface_error borrowed_for_transaction)
reason_error subtransaction = some (interface_error borrowed_for_subtransaction)
reason_error (other_reason r) = some (interface_error existing_reason_unexpected)

unfoldable pub borrow : Reason → BorrowableConn → (ℕ ⊎ GoError) × BorrowableConn
unfolding reason_error lend
borrow reason c = elim (reason_error c.reason) [ some e ↦ (inr e, c) | none ↦ lend reason c ]

unfoldable pub assert_unborrowed : BorrowableConn → Option GoError
unfolding reason_error
assert_unborrowed c = reason_error c.reason

return_conn : Reason → BorrowableConn → Option GoError × BorrowableConn
return_conn unborrowed c = (some (interface_error not_borrowed), c)
return_conn reason c = (none, record c { reason = unborrowed })

unfoldable pub unborrow : BorrowableConn → Option GoError × BorrowableConn
unfolding return_conn
unborrow c = return_conn c.reason c
