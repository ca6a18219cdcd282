-- ===== src/Client/Pool/Closing.antt =====
-- What `Close` of a Client waits for.
use edgedb_go.Common.{
  ℕ, zero, suc, ◌+◌, ◌≡◌, refl, ◌∙◌, arith, Bool, true, false, Option, none, some, List, [], ◌∷◌,
  length,
}
use edgedb_go.Client.Pool.{
  System, Idle, expired, idle_pool, acquire, chosen_concurrency, poll_free, poll_potential,
  poll_ctx, connected, take_out, release, expire,
}
use edgedb_go.Client.Pool.Steps.{
  close, close_free, close_potential, close_returns, Event, acquires, releases, fires, expires,
  closes, closes_free, closes_potential, returns, step, IsSound, Reach, here, next,
}
use edgedb_go.Client.Pool.Balance.{
  live, BalancedAt, Reach-Balanced, Reach-concurrency, idle_pool-Balanced,
}

-- The timer of no idle connection fires.
abbrev pub IsTimeless : Event → Type 0
IsTimeless fires = ⊥
IsTimeless _ = Unit

-- The states that the goroutines can bring the pool to while no timer fires.
pub data ReachTimeless (s : System) : System → Type 0 where
  starts : ReachTimeless s s
  goes_on :
      {t u : System} (e : Event)
      → ReachTimeless s t
      → IsSound e
      → IsTimeless e
      → step e t ≡ some u
      → ReachTimeless s u

ReachTimeless-Reach : {s t : System} → ReachTimeless s t → Reach s t
ReachTimeless-Reach starts = here
ReachTimeless-Reach (goes_on e r sound timeless q) = next e (ReachTimeless-Reach r) sound q

abbrev IsUsable : Option Idle → Type 0
IsUsable (some expired) = ⊥
IsUsable _ = Unit

-- Before `Close` nothing was received.
abbrev Untouched : Bool → ℕ → Type 0
Untouched false n = n ≡ 0
Untouched true n = Unit

-- Each round that `Close` has had received a token or a connection.
abbrev Rounds : Option ℕ → System → Type 0
Rounds none s = Untouched s.is_closed s.collected
Rounds (some n) s = (s.collected + n ≡ s.concurrency) × (s.is_closed ≡ true)

abbrev Counted : System → Type 0
Counted s = IsUsable s.free_conns × (s.expiring ≡ []) × Rounds s.closing s

step-Counted :
    (e : Event) (k : ℕ) (s t : System)
    → IsTimeless e
    → s.concurrency ≡ suc k
    → Counted s
    → step e s ≡ some t
    → Counted t
unfolding acquire chosen_concurrency poll_free poll_potential poll_ctx connected release expire
    close close_free close_potential close_returns
step-Counted fires k s t calm h c q = absurd calm
step-Counted (acquires d) k s t calm h c q = ground arith
step-Counted (releases lost timeout x) k s t calm h c q = go (take_out x s.used) refl
  where
    go : (r : Option (List ℕ)) → take_out x s.used ≡ r → Counted t
    go none e = ground arith
    go (some rest) e = ground arith
step-Counted (expires x) k s t calm h c q = go (take_out x s.expiring) refl
  where
    go : (r : Option (List ℕ)) → take_out x s.expiring ≡ r → Counted t
    go none e = ground arith
    go (some rest) e = ground arith
step-Counted _ k s t calm h c q = ground arith

ReachTimeless-Counted :
    {k : ℕ} {s t : System} → s.concurrency ≡ suc k → Counted s → ReachTimeless s t → Counted t
ReachTimeless-Counted h c starts = c
ReachTimeless-Counted {k} h c (goes_on {t} {u} e r sound calm q) =
    step-Counted e k t u calm (Reach-concurrency h (ReachTimeless-Reach r))
      (ReachTimeless-Counted h c r) q

-- When the loop of Close has ended in a pool in which no timer fired, every token and connection
-- was received, as many as the concurrency that the user set, 1 or more, and nothing is left: no
-- connection is in use, being made, idle, or held by a timer. Every call of acquire before meets a
-- concurrency of 1 at least that the server suggests, or a default of 1 at least where it suggests
-- none.
pub close_complete :
    (k : ℕ) (s : System)
    → ReachTimeless (idle_pool (suc k)) s
    → s.closing ≡ some 0
    → (s.collected ≡ suc k)
      × (length s.used ≡ 0)
      × (s.connecting ≡ 0)
      × (live s.free_conns ≡ 0)
      × (length s.expiring ≡ 0)
close_complete k s r ended =
    let r' = ReachTimeless-Reach r in
    go s.potential_conns (Reach-Balanced (idle_pool-Balanced (suc k)) r')
      (Reach-concurrency {k = k} refl r') (ReachTimeless-Counted {k = k} refl (tt, refl, refl) r)
  where
    go :
        (p : Option ℕ)
        → BalancedAt p s
        → s.concurrency ≡ suc k
        → Counted s
        → (s.collected ≡ suc k)
          × (length s.used ≡ 0)
          × (s.connecting ≡ 0)
          × (live s.free_conns ≡ 0)
          × (length s.expiring ≡ 0)
    go none b h c = absurd (ground arith)
    go (some n) b h c = ground arith

-- The rounds in which `Close` receives the tokens that are there.
tokens_received :
    (n : ℕ) (s t : System)
    → Reach s t
    → t.potential_conns ≡ some n
    → t.closing ≡ some n
    → (u : System) × Reach s u
      × (u.closing ≡ some 0)
      × (u.used ≡ t.used)
      × (u.is_closed ≡ t.is_closed)
unfolding close_potential
tokens_received zero s t r p q = (t, r, q, refl, refl)
tokens_received (suc n) s t r p q =
    let t' : System = record t {
      pool = record t.pool { potential_conns = some n };
      closing = some n;
      collected = t.collected + 1;
    } in
    tokens_received n s t' (next closes_potential r tt (ground arith)) refl refl

-- Close may return while a connection is in use: from every reachable state of an open pool with
-- one connection in use, in which no call runs, the function of an expired connection stands in the
-- channel of idle connections, and there are all tokens but one, the pool can come to a state in
-- which it is closed, Close has returned, and the connection is in use still. Every call of acquire
-- on the way to the first and to the second of these states meets a concurrency of 1 at least that
-- the server suggests, or a default of 1 at least where it suggests none.
pub close_early :
    (k n conn : ℕ) (s : System)
    → Reach (idle_pool k) s
    → s.used ≡ conn ∷ []
    → s.is_closed ≡ false
    → s.closing ≡ none
    → s.waiting ≡ 0
    → s.connecting ≡ 0
    → s.free_conns ≡ some expired
    → s.potential_conns ≡ some n
    → s.concurrency ≡ suc n
    → (t : System) × Reach s t × (t.closing ≡ none) × (t.is_closed ≡ true) × (t.used ≡ conn ∷ [])
unfolding close close_free close_returns
close_early k n conn s r one is_open calm w c f p all =
    let s₁ : System = record s {
      pool = record s.pool { is_closed = true };
      closing = some (suc n);
    } in
    let s₂ : System = record s {
      pool = record s.pool { is_closed = true; free_conns = none };
      closing = some n;
    } in
    let r₁ : Reach s s₁ = next {t = s} closes here tt (ground arith) in
    let r₂ : Reach s s₂ = next closes_free r₁ tt (ground arith) in
    let (u, r₃, e, same, closed) = tokens_received n s s₂ r₂ p refl in
    (record u { closing = none }, next returns r₃ tt (ground arith), refl, closed, same ∙ one)
