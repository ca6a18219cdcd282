-- ===== src/Client/Reconnect/Laws.antt =====
-- `reconnect` ends: a pause moves the clock, and past the time limit the loop gives up.
use edgedb_go.Common.{
  ℕ, zero, suc, ◌+◌, ◌≤◌, ◌<◌, Returns, Returns-mono, ◌≡◌, refl, ap, arith, lt→ltb, Bool, true,
  false, ◌||◌, Bool-cases, ◌⊎◌, inl, inr, Option, none, some,
}
use edgedb_go.Client.Errors.{GoError, interface_error, connection_closed}
use edgedb_go.Client.Env.{Env}
use edgedb_go.Client.Reconnect.{
  ReconnectingConn, gives_up, pause, reconnect_loop, reconnect, max_time,
}

module _ {W : Type 0} (env : Env W) where
  -- A pause of at least ten milliseconds moves the clock, and connecting does not turn it back.
  pub record IsClock : Type 0 where
    pub slept : (n : ℕ) (w : W) → env.now w + n ≤ env.now (env.sleep n w)
    pub connected : (w : W) → env.now w ≤ env.now (env.connect w).1
    pub drawn : (n : ℕ) (w : W) → env.now w ≤ env.now (env.rnd_intn n w).1

  module _ (clock : IsClock) where
    pub now-pause : (w : W) → env.now w + 10 ≤ env.now (pause env w)
    unfolding pause
    now-pause w =
        let (n, w') = env.rnd_intn 200 w in
        omega (arith, clock.drawn 200 w, clock.slept (10 + n) w')

    -- With the time limit passed, every error makes the loop give up.
    pub gives_up-late :
        (single : Bool) (e : GoError) (limit now : ℕ)
        → limit < now
        → gives_up env single e limit now ≡ true
    unfolding gives_up
    gives_up-late single e limit now h = rw (lt→ltb limit now h) (or-true _)
      where
        or-true : (b : Bool) → (b || true) ≡ true
        or-true true = refl
        or-true false = refl

    -- What the loop ends with: the connection that was made last, or the error for which the last
    -- one failed, on which it gives up.
    abbrev pub Ended :
        Bool → ℕ → ReconnectingConn → Option GoError × (ReconnectingConn × W) → Type 0
    Ended single limit c (none, (c', w')) =
        (v : W) × (conn : ℕ) × (env.connect v ≡ (inl conn, w'))
        × (c' ≡ record c { borrowable = record c.borrowable { conn = conn } })
    Ended single limit c (some x, (c', w')) =
        (v : W) × (env.connect v ≡ (inr x, w'))
        × (gives_up env single x limit (env.now w') ≡ true)
        × (c' ≡ c)

    reconnect_loop-Returns :
        (fuel limit : ℕ) (single : Bool) (c : ReconnectingConn) (w : W)
        → 0 < fuel
        → limit + 1 < env.now w + fuel
        → Returns (reconnect_loop env fuel limit single c w) (Ended single limit c)
    unfolding reconnect_loop
    reconnect_loop-Returns zero limit single c w p h = absurd (omega arith)
    reconnect_loop-Returns (suc fuel) limit single c w p h =
        let w' : W = pause env (env.connect w).1 in
        go (env.connect w).0 refl (λ p' h'. reconnect_loop-Returns fuel limit single c w' p' h')
      where
        w' : W
        w' = (env.connect w).1

        go :
            (r : ℕ ⊎ GoError)
            → (env.connect w).0 ≡ r
            → (0 < fuel
                → limit + 1 < env.now (pause env w') + fuel
                → Returns
                    (reconnect_loop env fuel limit single c (pause env w'))
                    (Ended single limit c))
            → Returns (reconnect_loop env (suc fuel) limit single c w) (Ended single limit c)
        go (inl conn) e ih = rw (Returns, e) (w, conn, ap (λ r. (r, w')) e, refl)
        go (inr x) e ih = elim (Bool-cases (gives_up env single x limit (env.now w'))) [
          | inl stop ↦ rw (Returns, e, stop) (w, ap (λ r. (r, w')) e, stop, refl)
          | inr on ↦
              rw (Returns, e, on)
                (ih
                  (ground (arith, on, gives_up-late single x limit (env.now w'), clock.connected w))
                  (omega (arith, now-pause w', clock.connected w)))
        ]

    -- reconnect returns on at least two rounds more than waitUntilAvailable has milliseconds: on a
    -- closed connection with the error that says so, and else with the connection that the last try
    -- made, or with the error of the last try, on which it gives up. A sleep moves the clock by its
    -- length and nothing turns the clock back.
    pub reconnect-ends :
        (fuel : ℕ) (single : Bool) (c : ReconnectingConn) (w : W)
        → c.wait_until_available + 2 ≤ fuel
        → Returns (reconnect env fuel single c w) (λ r.
          ((c.is_closed ≡ true) × (r ≡ (some (interface_error connection_closed), (c, w))))
          ⊎ ((c.is_closed ≡ false) × Ended single (max_time env c w) c r))
    unfolding reconnect max_time
    reconnect-ends fuel single c w h = elim (Bool-cases c.is_closed) [
      | inl closed ↦ simp closed (inl (refl, refl))
      | inr live ↦ simp live (
          Returns-mono (reconnect_loop env fuel (max_time env c w) single c w) _ _
            (reconnect_loop-Returns fuel (max_time env c w) single c w (omega arith) (ground arith))
            (λ r d. inr (refl, d)))
    ]
