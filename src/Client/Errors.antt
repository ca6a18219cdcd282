-- ===== src/Client/Errors.antt =====
-- internal/client/error.go: Go errors as the client looks at them.
use edgedb_go.Common.{ℕ, Bool, true, false, Option, none, some}

-- The tags and the categories of errors_gen.go that the modelled code asks for.
pub data ErrorTag : Type 0 where
  should_retry should_reconnect : ErrorTag

pub data ErrorCategory : Type 0 where
  client_error client_connection_error transaction_error transaction_conflict_error : ErrorCategory

-- The interface `Error`.
pub record Error : Type 0 where
  pub has_tag : ErrorTag → Bool
  pub category : ErrorCategory → Bool

-- The error texts of the modelled code; `foreign` stands for an error that the server, the network
-- or the user's code made, by a number that names it.
pub data Message : Type 0 where
  already_committed already_rolled_back in_error_state not_yet_started already_started : Message
  borrowed_for_transaction borrowed_for_subtransaction unexpected_borrow_reason : Message
  existing_reason_unexpected not_borrowed connection_closed released_twice client_closed : Message
  unexpected_error_type unreachable : Message
  foreign : ℕ → Message

-- What `errors.As(err, &edbErr)`, `errors.Is(err, context.Canceled)` and
-- `errors.Is(err, context.DeadlineExceeded)` find in the error's chain.
pub record GoError : Type 0 where
  pub message : Message
  pub as_error : Option Error
  pub is_canceled : Bool
  pub is_deadline_exceeded : Bool

-- interfaceError and clientError: no tag, and the category ClientError of these four.
abbrev client_category : ErrorCategory → Bool
client_category client_error = true
client_category _ = false

abbrev client_side : Message → GoError
client_side m = record {
  message = m;
  as_error = some (record { has_tag = λ t. false; category = client_category });
  is_canceled = false;
  is_deadline_exceeded = false;
}

abbrev pub interface_error : Message → GoError
interface_error = client_side

abbrev pub plain_client_error : Message → GoError
plain_client_error = client_side

unfoldable pub first_error : Option GoError → Option GoError → Option GoError
first_error (some a) b = some a
first_error none b = b

-- A test on the error that `errors.As` finds, false where it finds none.
abbrev pub as_error_and : GoError → (Error → Bool) → Bool
as_error_and e test = elim e.as_error [ some x ↦ test x | none ↦ false ]

unfoldable pub is_client_connection_error : GoError → Bool
is_client_connection_error e = as_error_and e (λ x. x.category client_connection_error)
