-- ===== src/Client/Pool/Balance.antt =====
-- The tokens and the connections of the pool add up to its concurrency.
use edgedb_go.Common.{
  ℕ, suc, ◌+◌, ◌≤◌, ◌==◌, ◌≡◌, refl, arith, Bool, Option, none, some, List, [], ◌∷◌, length,
  Bool-cases, inl, inr,
}
use edgedb_go.Client.Pool.{
  idle_pool, Idle, kept, timed, System, Dial, chosen_concurrency, acquire, poll_free,
  poll_potential, poll_ctx, connected, take_out, release, timer_fires, expire,
}
use edgedb_go.Client.Pool.Steps.{
  close, close_free, close_potential, close_returns, Event, acquires, polls_free, polls_potential,
  polls_ctx, connects, releases, fires, expires, closes, closes_free, closes_potential, returns,
  step, IsSound, Reach, here, next,
}

abbrev pub live : Option Idle → ℕ
live (some (kept c)) = 1
live (some (timed c)) = 1
live _ = 0

-- The places that are taken: idle connections, those in use, those that are being made, those whose
-- timer holds the token, and what `Close` has received.
abbrev pub taken : System → ℕ
taken s = live s.free_conns + length s.used + s.connecting + length s.expiring + s.collected

abbrev pub BalancedAt : Option ℕ → System → Type 0
BalancedAt none s = taken s ≡ 0
BalancedAt (some n) s = (n + taken s ≡ s.concurrency) × (1 ≤ s.concurrency)

abbrev pub Balanced : System → Type 0
Balanced s = BalancedAt s.potential_conns s

acquire-Balanced :
    (d : Dial) (s t : System)
    → 1 ≤ chosen_concurrency d 0
    → Balanced s
    → acquire d s ≡ some t
    → Balanced t
unfolding acquire chosen_concurrency
acquire-Balanced d s t sound b e = ground arith

poll_free-Balanced : (s t : System) → Balanced s → poll_free s ≡ some t → Balanced t
unfolding poll_free
poll_free-Balanced s t b e = ground arith

poll_potential-Balanced : (s t : System) → Balanced s → poll_potential s ≡ some t → Balanced t
unfolding poll_potential
poll_potential-Balanced s t b e = ground arith

poll_ctx-Balanced : (s t : System) → Balanced s → poll_ctx s ≡ some t → Balanced t
unfolding poll_ctx
poll_ctx-Balanced s t b e = ground arith

connected-Balanced :
    (success : Bool) (s t : System) → Balanced s → connected success s ≡ some t → Balanced t
unfolding connected
connected-Balanced success s t b e = ground arith

pub length-take_out :
    (c : ℕ) (xs ys : List ℕ) → take_out c xs ≡ some ys → length xs ≡ suc (length ys)
unfolding take_out
length-take_out c [] ys e = cc
length-take_out c (x ∷ xs) ys e = elim (Bool-cases (c == x)) [
  | inl same ↦ ground arith
  | inr other ↦ go (take_out c xs) refl (λ zs q. length-take_out c xs zs q)
]
  where
    go :
        (r : Option (List ℕ))
        → take_out c xs ≡ r
        → ((zs : List ℕ) → take_out c xs ≡ some zs → length xs ≡ suc (length zs))
        → suc (length xs) ≡ suc (length ys)
    go none q ih = ground arith
    go (some zs) q ih = ground (arith, ih zs q)

release-Balanced :
    (lost : Bool) (timeout : Option ℕ) (c : ℕ) (s t : System)
    → Balanced s
    → release lost timeout c s ≡ some t
    → Balanced t
unfolding release
release-Balanced lost timeout c s t b e = go (take_out c s.used) refl
  where
    go : (r : Option (List ℕ)) → take_out c s.used ≡ r → Balanced t
    go none q = ground arith
    go (some rest) q = ground (arith, length-take_out c s.used rest q)

timer_fires-Balanced : (s t : System) → Balanced s → timer_fires s ≡ some t → Balanced t
unfolding timer_fires
timer_fires-Balanced s t b e = ground arith

expire-Balanced : (c : ℕ) (s t : System) → Balanced s → expire c s ≡ some t → Balanced t
unfolding expire
expire-Balanced c s t b e = go (take_out c s.expiring) refl
  where
    go : (r : Option (List ℕ)) → take_out c s.expiring ≡ r → Balanced t
    go none q = ground arith
    go (some rest) q = ground (arith, length-take_out c s.expiring rest q)

close-Balanced : (s t : System) → Balanced s → close s ≡ some t → Balanced t
unfolding close
close-Balanced s t b e = ground arith

close_free-Balanced : (s t : System) → Balanced s → close_free s ≡ some t → Balanced t
unfolding close_free
close_free-Balanced s t b e = ground arith

close_potential-Balanced : (s t : System) → Balanced s → close_potential s ≡ some t → Balanced t
unfolding close_potential
close_potential-Balanced s t b e = ground arith

close_returns-Balanced : (s t : System) → Balanced s → close_returns s ≡ some t → Balanced t
unfolding close_returns
close_returns-Balanced s t b e = ground arith

step-Balanced : (e : Event) (s t : System) → IsSound e → Balanced s → step e s ≡ some t → Balanced t
step-Balanced (acquires d) s t sound b q = acquire-Balanced d s t sound b q
step-Balanced polls_free s t sound b q = poll_free-Balanced s t b q
step-Balanced polls_potential s t sound b q = poll_potential-Balanced s t b q
step-Balanced polls_ctx s t sound b q = poll_ctx-Balanced s t b q
step-Balanced (connects success) s t sound b q = connected-Balanced success s t b q
step-Balanced (releases lost timeout c) s t sound b q = release-Balanced lost timeout c s t b q
step-Balanced fires s t sound b q = timer_fires-Balanced s t b q
step-Balanced (expires c) s t sound b q = expire-Balanced c s t b q
step-Balanced closes s t sound b q = close-Balanced s t b q
step-Balanced closes_free s t sound b q = close_free-Balanced s t b q
step-Balanced closes_potential s t sound b q = close_potential-Balanced s t b q
step-Balanced returns s t sound b q = close_returns-Balanced s t b q

pub Reach-Balanced : {s t : System} → Balanced s → Reach s t → Balanced t
Reach-Balanced b here = b
Reach-Balanced b (next {t} {u} e r sound q) = step-Balanced e t u sound (Reach-Balanced b r) q

pub idle_pool-Balanced : (k : ℕ) → Balanced (idle_pool k)
idle_pool-Balanced k = refl

-- The concurrency that the user set stays.
step-concurrency :
    (e : Event) (k : ℕ) (s t : System)
    → s.concurrency ≡ suc k
    → step e s ≡ some t
    → t.concurrency ≡ suc k
unfolding acquire chosen_concurrency poll_free poll_potential poll_ctx connected release timer_fires
    expire close close_free close_potential close_returns
step-concurrency (acquires d) k s t h q = ground arith
step-concurrency (releases lost timeout c) k s t h q = go (take_out c s.used) refl
  where
    go : (r : Option (List ℕ)) → take_out c s.used ≡ r → t.concurrency ≡ suc k
    go none e = ground arith
    go (some rest) e = ground arith
step-concurrency (expires c) k s t h q = go (take_out c s.expiring) refl
  where
    go : (r : Option (List ℕ)) → take_out c s.expiring ≡ r → t.concurrency ≡ suc k
    go none e = ground arith
    go (some rest) e = ground arith
step-concurrency _ k s t h q = ground arith

pub Reach-concurrency :
    {k : ℕ} {s t : System} → s.concurrency ≡ suc k → Reach s t → t.concurrency ≡ suc k
Reach-concurrency h here = h
Reach-concurrency {k} h (next {t} {u} e r sound q) =
    step-concurrency e k t u (Reach-concurrency h r) q
