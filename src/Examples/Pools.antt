-- ===== src/Examples/Pools.antt =====
-- internal/client/client.go at a pool of two connections.
use edgedb_go.Common.{
  ℕ, ◌+◌, ◌≤◌, ◌≡◌, ◌≢◌, ◌⊎◌, refl, arith, true, false, Option, none, some, List, [], ◌∷◌, length,
}
use edgedb_go.Client.Pool.{
  System, Dial, Idle, timed, expired, idle_pool, acquire, poll_potential, connected, release,
  timer_fires, expire, take_out, idle_timeout, is_disabled, chosen_concurrency,
}
use edgedb_go.Client.Pool.Steps.{
  acquires, polls_potential, connects, releases, fires, expires, closes, closes_potential, close,
  close_potential, Reach, here, next,
}
use edgedb_go.Client.Pool.Balance.{live}
use edgedb_go.Client.Pool.Limits.{Reach-bounded, tokens-never_wait}
use edgedb_go.Client.Pool.Owners.{holders, Reach-holders}
use edgedb_go.Client.Pool.Closing.{ReachTimeless, starts, goes_on, close_complete, close_early}

abbrev dial : Dial
dial = record { connects = true; ctx_done = false; suggested = some 7; default_concurrency = 4 }

abbrev pool_of : Option Idle → ℕ → List ℕ → List ℕ → ℕ → System
pool_of free tokens used expiring made = record {
  pool = record {
    is_closed = false;
    free_conns = free;
    potential_conns = some tokens;
    concurrency = 2;
  };
  waiting = 0;
  connecting = 0;
  used = used;
  expiring = expiring;
  closing = none;
  collected = 0;
  closed = [];
  next_conn = made;
}

-- Two connections are made and handed out.
abbrev one_used : System
one_used = pool_of none 1 (0 ∷ []) [] 1

abbrev one_waits : System
one_waits = record one_used { waiting = 1 }

abbrev one_connects : System
one_connects = record (pool_of none 0 (0 ∷ []) [] 1) { connecting = 1 }

abbrev two_used : System
two_used = pool_of none 0 (1 ∷ 0 ∷ []) [] 2

one_used-Reach : Reach (idle_pool 2) one_used
unfolding acquire chosen_concurrency
one_used-Reach = next {t = idle_pool 2} (acquires dial) here (omega arith) refl

two_used-Reach : Reach (idle_pool 2) two_used
unfolding acquire poll_potential connected chosen_concurrency
two_used-Reach =
    next {t = one_connects} (connects true)
      (next {t = one_waits} polls_potential
        (next {t = one_used} (acquires dial) one_used-Reach (omega arith) refl) tt refl)
      tt refl

-- The first is released, and its timer fires.
abbrev one_idle : System
one_idle = pool_of (some (timed 0)) 0 (1 ∷ []) [] 2

abbrev one_fired : System
one_fired = pool_of (some expired) 0 (1 ∷ []) (0 ∷ []) 2

abbrev one_expired : System
one_expired = record (pool_of (some expired) 1 (1 ∷ []) [] 2) { closed = 0 ∷ [] }

one_fired-Reach : Reach (idle_pool 2) one_fired
unfolding release timer_fires idle_timeout is_disabled
one_fired-Reach =
    next {t = one_idle} fires (next {t = two_used} (releases false none 0) two_used-Reach tt refl)
      tt refl

one_expired-Reach : Reach (idle_pool 2) one_expired
unfolding expire
one_expired-Reach = next {t = one_fired} (expires 0) one_fired-Reach tt refl

-- Both are lost, and `Close` receives both tokens.
abbrev both_lost : System
both_lost = record (pool_of none 2 [] [] 2) { closed = 0 ∷ 1 ∷ [] }

abbrev both_received : System
both_received = record both_lost {
  pool = record both_lost.pool { is_closed = true; potential_conns = some 0 };
  closing = some 0;
  collected = 2;
}

two_used-Timeless : ReachTimeless (idle_pool 2) two_used
unfolding acquire poll_potential connected chosen_concurrency
two_used-Timeless =
    goes_on {t = one_connects} (connects true)
      (goes_on {t = one_waits} polls_potential
        (goes_on {t = one_used} (acquires dial)
          (goes_on {t = idle_pool 2} (acquires dial) starts (omega arith) tt refl) (omega arith) tt
          refl)
        tt tt refl)
      tt tt refl

both_lost-Timeless : ReachTimeless (idle_pool 2) both_lost
unfolding release
both_lost-Timeless =
    goes_on {t = record (pool_of none 1 (0 ∷ []) [] 2) { closed = 1 ∷ [] }} (releases true none 0)
      (goes_on {t = two_used} (releases true none 1) two_used-Timeless tt tt refl) tt tt refl

abbrev closing_state : ℕ → ℕ → ℕ → System
closing_state tokens rounds collected = record both_lost {
  pool = record both_lost.pool { is_closed = true; potential_conns = some tokens };
  closing = some rounds;
  collected = collected;
}

both_received-Timeless : ReachTimeless (idle_pool 2) both_received
unfolding close close_potential
both_received-Timeless =
    goes_on {t = closing_state 1 1 1} closes_potential
      (goes_on {t = closing_state 2 2 0} closes_potential
        (goes_on {t = both_lost} closes both_lost-Timeless tt tt refl) tt tt refl)
      tt tt refl

Reach-bounded_example :
    (live one_fired.free_conns
        + length one_fired.used
        + one_fired.connecting
        + length one_fired.expiring
      ≤ 2)
    × (one_fired.concurrency ≡ 2)
Reach-bounded_example = Reach-bounded 1 one_fired one_fired-Reach

tokens-never_wait_example :
    ((release true none 0 one_fired ≢ none) ⊎ (take_out 0 one_fired.used ≡ none))
    × ((connected false one_fired ≢ none) ⊎ (one_fired.connecting ≡ 0))
    × ((expire 0 one_fired ≢ none) ⊎ (take_out 0 one_fired.expiring ≡ none))
tokens-never_wait_example = tokens-never_wait 2 one_fired true false none 0 one_fired-Reach

Reach-holders_example : holders 0 one_fired ≤ 1
Reach-holders_example = Reach-holders 2 0 one_fired one_fired-Reach

close_complete_example :
    (both_received.collected ≡ 2)
    × (length both_received.used ≡ 0)
    × (both_received.connecting ≡ 0)
    × (live both_received.free_conns ≡ 0)
    × (length both_received.expiring ≡ 0)
close_complete_example = close_complete 1 both_received both_received-Timeless refl

close_early_example :
    (t : System) × Reach one_expired t
    × (t.closing ≡ none)
    × (t.is_closed ≡ true)
    × (t.used ≡ 1 ∷ [])
close_early_example =
    close_early 2 1 1 one_expired one_expired-Reach refl refl refl refl refl refl refl refl
