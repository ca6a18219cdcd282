-- ===== src/Client/Retry.antt =====
-- RetryRule and RetryOptions of internal/client/options.go.
use edgedb_go.Common.{
  ℕ, ltb, Bool, true, false, not, if◌then◌else◌, Outcome, NoError, ok, panic, ◌⊎◌, inl, inr, Option,
  none, some,
}
use edgedb_go.Client.Errors.{
  Error, GoError, plain_client_error, unexpected_error_type, client_error,
  transaction_conflict_error,
}

-- `backoff` gives the time to wait after an attempt; the default one adds a random part, which
-- is left to the function given here.
pub record RetryRule : Type 0 where
  pub from_factory : Bool
  pub attempts : ℕ
  pub backoff : ℕ → ℕ

pub record RetryOptions : Type 0 where
  pub from_factory : Bool
  pub tx_conflict : RetryRule
  pub network : RetryRule

pub data RetryCondition : Type 0 where
  tx_conflict network_error : RetryCondition
  other_condition : ℕ → RetryCondition

abbrev pub new_retry_rule : (ℕ → ℕ) → RetryRule
new_retry_rule default_backoff = record {
  from_factory = true;
  attempts = 3;
  backoff = default_backoff;
}

-- An `int` below 1 panics; the numbers here have no others below 1 than 0.
unfoldable pub with_attempts : ℕ → RetryRule → Outcome NoError RetryRule
with_attempts attempts r = if ltb attempts 1 then panic else ok (record r { attempts = attempts })

-- A nil function panics.
unfoldable pub with_backoff : Option (ℕ → ℕ) → RetryRule → Outcome NoError RetryRule
with_backoff none r = panic
with_backoff (some fn) r = ok (record r { backoff = fn })

unfoldable pub with_default : RetryRule → RetryOptions → Outcome NoError RetryOptions
with_default rule o =
    if not rule.from_factory then panic else ok (record o { tx_conflict = rule; network = rule })

-- `RetryOptions{fromFactory: true}.WithDefault(NewRetryRule())`: the zero rules are replaced.
unfoldable pub new_retry_options : (ℕ → ℕ) → Outcome NoError RetryOptions
unfolding with_default
new_retry_options default_backoff =
    let zero_rule : RetryRule = record { from_factory = false; attempts = 0; backoff = λ i. 0 } in
    with_default (new_retry_rule default_backoff)
      (record { from_factory = true; tx_conflict = zero_rule; network = zero_rule })

set_condition : RetryCondition → RetryRule → RetryOptions → Outcome NoError RetryOptions
set_condition tx_conflict rule o = ok (record o { tx_conflict = rule })
set_condition network_error rule o = ok (record o { network = rule })
set_condition (other_condition c) rule o = panic

unfoldable pub with_condition :
    RetryCondition → RetryRule → RetryOptions → Outcome NoError RetryOptions
unfolding set_condition
with_condition condition rule o =
    if not rule.from_factory then panic else set_condition condition rule o

-- The rule, or the error that no rule is there for this kind of error.
unfoldable pub rule_for_exception : Error → RetryOptions → RetryRule ⊎ GoError
rule_for_exception e o =
    if e.category transaction_conflict_error
    then inl o.tx_conflict
    else if e.category client_error
    then inl o.network
    else inr (plain_client_error unexpected_error_type)
