-- ===== src/Client/Pool/Limits.antt =====
-- How many connections the pool has at once, and that no token waits for room.
use edgedb_go.Common.{
  ℕ, suc, ◌+◌, ◌≤◌, ◌==◌, ◌≡◌, ◌≢◌, ◌⊎◌, inl, inr, refl, arith, Bool, Option, none, some, List,
  length, Bool-cases,
}
use edgedb_go.Client.Pool.{System, idle_pool, connected, take_out, release, expire}
use edgedb_go.Client.Pool.Steps.{Reach}
use edgedb_go.Client.Pool.Balance.{
  live, Balanced, BalancedAt, Reach-Balanced, Reach-concurrency, idle_pool-Balanced,
  length-take_out,
}

-- Whatever the goroutines do, the idle connections that can still be acquired, those in use, those
-- that are being made and those whose timer has fired and holds its token are together at most as
-- many as the concurrency that the user set, 1 or more, and the concurrency stays as it was set.
-- Every call of acquire before meets a concurrency of 1 at least that the server suggests, or a
-- default of 1 at least where it suggests none.
pub Reach-bounded :
    (k : ℕ) (s : System)
    → Reach (idle_pool (suc k)) s
    → (live s.free_conns + length s.used + s.connecting + length s.expiring ≤ suc k)
      × (s.concurrency ≡ suc k)
Reach-bounded k s r =
    let b = Reach-Balanced (idle_pool-Balanced (suc k)) r in
    let h = Reach-concurrency {k = k} refl r in (bound s.potential_conns b h, h)
  where
    bound :
        (p : Option ℕ)
        → BalancedAt p s
        → s.concurrency ≡ suc k
        → live s.free_conns + length s.used + s.connecting + length s.expiring ≤ suc k
    bound none b h = omega arith
    bound (some n) b h = omega arith

-- A token finds room in any state that the pool can reach where every call of acquire meets a
-- concurrency of 1 at least that the server suggests, or a default of 1 at least where it suggests
-- none: release of a connection in use, the return of newConn and the end of a timer do not wait
-- for room in the channel of tokens. The concurrency that the user set may be 0, which leaves the
-- choice to that suggestion or default.
pub tokens-never_wait :
    (k : ℕ) (s : System) (lost success : Bool) (timeout : Option ℕ) (c : ℕ)
    → Reach (idle_pool k) s
    → ((release lost timeout c s ≢ none) ⊎ (take_out c s.used ≡ none))
      × ((connected success s ≢ none) ⊎ (s.connecting ≡ 0))
      × ((expire c s ≢ none) ⊎ (take_out c s.expiring ≡ none))
unfolding release connected expire
tokens-never_wait k s lost success timeout c r =
    let b = Reach-Balanced (idle_pool-Balanced k) r in
    (frees b (take_out c s.used) refl, joins b, ends b (take_out c s.expiring) refl)
  where
    frees :
        Balanced s
        → (r : Option (List ℕ)) → take_out c s.used ≡ r
        → (release lost timeout c s ≢ none) ⊎ (take_out c s.used ≡ none)
    frees b none e = inr e
    frees b (some rest) e = inl (ground (arith, length-take_out c s.used rest e))

    joins : Balanced s → (connected success s ≢ none) ⊎ (s.connecting ≡ 0)
    joins b = elim (Bool-cases (s.connecting == 0)) [
      | inl free ↦ inr (ground arith)
      | inr busy ↦ inl (ground arith)
    ]

    ends :
        Balanced s
        → (r : Option (List ℕ)) → take_out c s.expiring ≡ r
        → (expire c s ≢ none) ⊎ (take_out c s.expiring ≡ none)
    ends b none e = inr e
    ends b (some rest) e = inl (ground (arith, length-take_out c s.expiring rest e))
