-- ===== src/Client/Pool/Steps.antt =====
-- `Close` of internal/client/client.go, and the steps of all goroutines that use the pool.
use edgedb_go.Common.{
  ℕ, zero, suc, ◌+◌, ◌≤◌, ◌==◌, if◌then◌else◌, Bool, true, not, ◌||◌, Option, none, some, ◌∷◌, ◌≡◌,
  ◌>>=?◌,
}
use edgedb_go.Client.Pool.{
  Idle, kept, timed, expired, System, Dial, set_free, pop_token, chosen_concurrency, acquire,
  poll_free, poll_potential, poll_ctx, connected, release, timer_fires, expire,
}

-- `Close` up to its loop. It waits for the lock while a call of `acquire` or another `Close` runs.
unfoldable pub close : System → Option System
close s = elim s.closing [
  | some n ↦ none
  | none ↦
      if not (s.waiting == 0) || not (s.connecting == 0)
      then none
      else if s.is_closed
      then some s
      else elim s.potential_conns [
        | none ↦ some (record s { pool = record s.pool { is_closed = true } })
        | some n ↦
            some
              (record s { pool = record s.pool { is_closed = true }; closing = some s.concurrency })
      ]
]

-- A round of the loop is one less.
next_round : System → Option System
next_round s = elim s.closing [ some (suc n) ↦ some (record s { closing = some n }) | _ ↦ none ]

-- A function from `freeConns` is called by `Close`, which closes the connection that it returns.
close_idle : Idle → System → System
unfolding set_free
close_idle expired s = set_free none s
close_idle (kept c) s = record (set_free none s) {
  collected = s.collected + 1;
  closed = c ∷ s.closed;
}
close_idle (timed c) s = record (set_free none s) {
  collected = s.collected + 1;
  closed = c ∷ s.closed;
}

-- The two cases of the select in the loop of `Close`.
unfoldable pub close_free : System → Option System
unfolding next_round close_idle
close_free s = elim s.free_conns [
  | none ↦ none
  | some i ↦ next_round s >>=? λ s'. some (close_idle i s')
]

unfoldable pub close_potential : System → Option System
unfolding next_round pop_token
close_potential s =
    next_round s >>=? λ s'. pop_token s' >>=? λ t. some (record t { collected = s.collected + 1 })

-- Behind the loop.
unfoldable pub close_returns : System → Option System
close_returns s = elim s.closing [ some zero ↦ some (record s { closing = none }) | _ ↦ none ]

pub data Event : Type 0 where
  acquires : Dial → Event
  polls_free polls_potential polls_ctx : Event
  connects : Bool → Event
  releases : Bool → Option ℕ → ℕ → Event
  fires : Event
  expires : ℕ → Event
  closes closes_free closes_potential returns : Event

abbrev pub step : Event → System → Option System
step (acquires d) s = acquire d s
step polls_free s = poll_free s
step polls_potential s = poll_potential s
step polls_ctx s = poll_ctx s
step (connects success) s = connected success s
step (releases lost timeout c) s = release lost timeout c s
step fires s = timer_fires s
step (expires c) s = expire c s
step closes s = close s
step closes_free s = close_free s
step closes_potential s = close_potential s
step returns s = close_returns s

-- The server suggests no pool of size 0, and there is a processor.
abbrev pub IsSound : Event → Type 0
IsSound (acquires d) = 1 ≤ chosen_concurrency d 0
IsSound _ = Unit

-- The states that the goroutines can bring the pool to.
pub data Reach (s : System) : System → Type 0 where
  here : Reach s s
  next : {t u : System} (e : Event) → Reach s t → IsSound e → step e t ≡ some u → Reach s u
