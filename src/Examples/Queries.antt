-- ===== src/Examples/Queries.antt =====
-- Queries of internal/client against a small server.
use edgedb_go.Common.{
  ℕ, ◌+◌, ◌==◌, ◌≤◌, if◌then◌else◌, Returns, ok, ◌≡◌, refl, arith, Bool, true, false, none, some,
  inr,
}
use edgedb_go.Client.Errors.{
  ErrorTag, ErrorCategory, GoError, foreign, should_retry, transaction_conflict_error,
}
use edgedb_go.Client.Retry.{RetryRule, new_retry_rule, rule_for_exception}
use edgedb_go.Client.Borrow.{unborrowed, assert_unborrowed}
use edgedb_go.Client.Env.{Env}
use edgedb_go.Client.Reconnect
use edgedb_go.Client.Reconnect.{ensure_connection}
use edgedb_go.Client.Reconnect.Laws.{IsClock}
use edgedb_go.Client.Reconnect.Sends.{CountsSends}
use edgedb_go.Client.Tx.{new_tx_options}
use edgedb_go.Client.Transactable.{TransactableConn, needs_reconnect, query_loop, granular_flow}
use edgedb_go.Client.Transactable.Queries.{granular_flow-Returns, mutation-sent_once}

abbrev retried : ErrorTag → Bool
retried should_retry = true
retried _ = false

abbrev conflicts : Bool → ErrorCategory → Bool
conflicts conflict transaction_conflict_error = conflict
conflicts conflict _ = false

-- A conflict, or an error that says nothing of what became of the query.
abbrev failure : Bool → GoError
failure conflict = record {
  message = foreign 1;
  as_error = some (record { has_tag = retried; category = conflicts conflict });
  is_canceled = false;
  is_deadline_exceeded = false;
}

record World : Type 0 where
  clock : ℕ
  sent : ℕ

-- A server at which the first query fails. The queries are known to write.
abbrev server : Bool → Env World
server conflict = record {
  script_flow = λ conn q w. (none, w);
  granular_flow = λ conn q w.
      (if w.sent == 0 then some (failure conflict) else none, record w { sent = w.sent + 1 });
  conn_closed = λ conn w. false;
  soc_closed = λ conn w. false;
  close = λ conn w. (none, w);
  connect = λ w. (inr (failure conflict), w);
  rnd_intn = λ n w. (5, w);
  now = λ w. w.clock;
  sleep = λ n w. record w { clock = w.clock + n };
  cached_capabilities = λ q w. (some 1, w);
  ctx_deadline = none;
}

abbrev rule : RetryRule
rule = new_retry_rule (λ i. 100)

abbrev conn : TransactableConn
conn = record {
  reconnecting = record {
    borrowable = record { conn = 1; reason = unborrowed };
    wait_until_available = 30;
    is_closed = false;
  };
  tx_opts = new_tx_options;
  retry_opts = record { from_factory = true; tx_conflict = rule; network = rule };
}

abbrev begin : World
begin = record { clock = 0; sent = 0 }

counts : CountsSends (server true) (λ w. w.sent)
counts = record {
  sent = λ conn q w. refl;
  connected = λ w. refl;
  drawn = λ n w. refl;
  slept = λ n w. refl;
  looked = λ q w. refl;
}

clock : IsClock (server true)
clock = record {
  slept = λ n w. omega arith;
  connected = λ w. omega arith;
  drawn = λ n w. omega arith;
}

-- The query that conflicts is sent again.
sent_twice :
    granular_flow (server true) 3 32 7 (conn, begin)
    ≡ ok (none, (conn, record { clock = 100; sent = 2 }))
unfolding granular_flow needs_reconnect Reconnect.granular_flow ensure_connection assert_unborrowed
    rule_for_exception
sent_twice = refl

granular_flow-Returns_example :
    Returns (granular_flow (server true) 3 32 7 (conn, begin)) (λ r. r.1.1.sent ≤ begin.sent + 3)
granular_flow-Returns_example =
    granular_flow-Returns (server true) counts clock 3 32 3 7 conn begin (omega arith)
      (record { conflict = omega arith; network = omega arith }) (omega arith) (omega arith)

mutation-sent_once_example :
    query_loop (server false) 3 32 7 1 none (conn, begin)
    ≡ ok (some (failure false), (conn, record { clock = 0; sent = 1 }))
unfolding needs_reconnect Reconnect.granular_flow ensure_connection assert_unborrowed
mutation-sent_once_example =
    mutation-sent_once (server false) 2 32 1 7 none conn conn.reconnecting begin
      (record { clock = 0; sent = 1 }) (record { clock = 0; sent = 1 }) (failure false) (some 1)
      refl refl refl (λ h. absurd (cc)) refl
