-- ===== src/Client/Pool/Owners.antt =====
-- Who has a connection: at most one user, idle slot or timer, and nobody once it is closed.
use edgedb_go.Common.{
  ℕ, ◌+◌, ◌≤◌, ◌<◌, ◌==◌, ◌≡◌, ◌⊎◌, inl, inr, refl, arith, Option, none, some, List, [], ◌∷◌,
  Bool-cases, if◌then◌else◌,
}
use edgedb_go.Client.Pool.{
  Idle, kept, timed, System, idle_pool, acquire, poll_free, poll_potential, poll_ctx, connected,
  take_out, release, timer_fires, expire,
}
use edgedb_go.Client.Pool.Steps.{
  close, close_free, close_potential, close_returns, Event, acquires, polls_free, polls_potential,
  polls_ctx, connects, releases, fires, expires, step, Reach, here, next,
}

abbrev pub count : ℕ → List ℕ → ℕ
count c [] = 0
count c (d ∷ ds) = (if c == d then 1 else 0) + count c ds

abbrev pub count_idle : ℕ → Option Idle → ℕ
count_idle c (some (kept d)) = if c == d then 1 else 0
count_idle c (some (timed d)) = if c == d then 1 else 0
count_idle c _ = 0

-- How often a connection stands among those in use, idle, held by a timer, or closed.
abbrev pub holders : ℕ → System → ℕ
holders c s = count c s.used + count_idle c s.free_conns + count c s.expiring + count c s.closed

-- Once at most, and not before `newConn` made it.
abbrev pub OwnedOnce : ℕ → System → Type 0
OwnedOnce c s = (holders c s ≤ 1) × ((holders c s ≡ 0) ⊎ (c < s.next_conn))

count-take_out :
    (c d : ℕ) (xs ys : List ℕ)
    → take_out d xs ≡ some ys
    → count c xs ≡ count c ys + (if c == d then 1 else 0)
unfolding take_out
count-take_out c d [] ys e = cc
count-take_out c d (x ∷ xs) ys e = elim (Bool-cases (d == x)) [
  | inl same ↦ ground arith
  | inr other ↦ go (take_out d xs) refl (λ zs q. count-take_out c d xs zs q)
]
  where
    go :
        (r : Option (List ℕ))
        → take_out d xs ≡ r
        → ((zs : List ℕ)
            → take_out d xs ≡ some zs
            → count c xs ≡ count c zs + (if c == d then 1 else 0))
        → count c (x ∷ xs) ≡ count c ys + (if c == d then 1 else 0)
    go none q ih = ground arith
    go (some zs) q ih = ground (arith, ih zs q)

step-OwnedOnce :
    (e : Event) (c : ℕ) (s t : System) → OwnedOnce c s → step e s ≡ some t → OwnedOnce c t
unfolding acquire poll_free poll_potential poll_ctx connected release timer_fires expire close
    close_free close_potential close_returns
step-OwnedOnce (acquires d) c s t h q = ground arith
step-OwnedOnce polls_free c s t h q = ground arith
step-OwnedOnce polls_potential c s t h q = ground arith
step-OwnedOnce polls_ctx c s t h q = ground arith
step-OwnedOnce (connects success) c s t h q = ground arith
step-OwnedOnce (releases lost timeout d) c s t h q = go (take_out d s.used) refl
  where
    go : (r : Option (List ℕ)) → take_out d s.used ≡ r → OwnedOnce c t
    go none e = ground arith
    go (some rest) e = ground (arith, count-take_out c d s.used rest e)
step-OwnedOnce fires c s t h q = ground arith
step-OwnedOnce (expires d) c s t h q = go (take_out d s.expiring) refl
  where
    go : (r : Option (List ℕ)) → take_out d s.expiring ≡ r → OwnedOnce c t
    go none e = ground arith
    go (some rest) e = ground (arith, count-take_out c d s.expiring rest e)
step-OwnedOnce _ c s t h q = ground arith

Reach-OwnedOnce : {s t : System} (c : ℕ) → OwnedOnce c s → Reach s t → OwnedOnce c t
Reach-OwnedOnce c h here = h
Reach-OwnedOnce c h (next {t} {u} e r sound q) = step-OwnedOnce e c t u (Reach-OwnedOnce c h r) q

-- In every state that the pool can reach a connection has at most one holder: it was handed to one
-- user, waits idle, is held by the timer that fired, or is closed, and it is so once. No two users
-- share it, and nobody is handed a closed one. Every call of acquire before meets a concurrency of
-- 1 at least that the server suggests, or a default of 1 at least where it suggests none.
pub Reach-holders : (k c : ℕ) (s : System) → Reach (idle_pool k) s → holders c s ≤ 1
Reach-holders k c s r = (Reach-OwnedOnce c (omega arith, inl refl) r).0
