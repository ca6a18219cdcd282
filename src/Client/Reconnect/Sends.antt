-- ===== src/Client/Reconnect/Sends.antt =====
-- `reconnect` and `granularFlow` return, and how many queries are sent by then.
use edgedb_go.Common.{
  ℕ, zero, suc, ◌+◌, ◌≤◌, ◌<◌, Returns, >>=-Returns, Returns-mono, ◌≡◌, refl, ◌∙◌, arith, Bool,
  false, Bool-cases, Option, none, some, ◌⊎◌, inl, inr,
}
use edgedb_go.Client.Errors.{GoError}
use edgedb_go.Client.Borrow.{assert_unborrowed}
use edgedb_go.Client.Env.{Env}
use edgedb_go.Client.Reconnect.{
  ReconnectingConn, gives_up, pause, reconnect_loop, reconnect, max_time, ensure_connection,
  ensured, flow, granular_flow,
}
use edgedb_go.Client.Reconnect.Laws.{IsClock, gives_up-late, now-pause}

module _ {W : Type 0} (env : Env W) where
  -- `sends` counts the queries that were sent: a flow adds one, and nothing else that happens does.
  pub record CountsSends (sends : W → ℕ) : Type 0 where
    pub sent : (conn q : ℕ) (w : W) → sends (env.granular_flow conn q w).1 ≡ sends w + 1
    pub connected : (w : W) → sends (env.connect w).1 ≡ sends w
    pub drawn : (n : ℕ) (w : W) → sends (env.rnd_intn n w).1 ≡ sends w
    pub slept : (n : ℕ) (w : W) → sends (env.sleep n w) ≡ sends w
    pub looked : (q : ℕ) (w : W) → sends (env.cached_capabilities q w).1 ≡ sends w

  module _ {sends : W → ℕ} (counts : CountsSends sends) (clock : IsClock env) where
    -- What reconnecting leaves: the wait of the configuration, and the queries that were sent.
    unfoldable pub Kept : ReconnectingConn → W → Option GoError × (ReconnectingConn × W) → Type 0
    Kept c w (e, (c', w')) =
        (sends w' ≡ sends w) × (c'.wait_until_available ≡ c.wait_until_available)

    sends-pause : (w : W) → sends (pause env w) ≡ sends w
    unfolding pause
    sends-pause w =
        let (n, w') = env.rnd_intn 200 w in counts.slept (10 + n) w' ∙ counts.drawn 200 w

    reconnect_loop-Returns :
        (fuel limit : ℕ) (single : Bool) (c : ReconnectingConn) (w : W)
        → 0 < fuel
        → limit + 1 < env.now w + fuel
        → Returns (reconnect_loop env fuel limit single c w) (Kept c w)
    unfolding reconnect_loop Kept
    reconnect_loop-Returns zero limit single c w p h = absurd (omega arith)
    reconnect_loop-Returns (suc fuel) limit single c w p h =
        go (env.connect w).0 refl
          (λ p' h'. reconnect_loop-Returns fuel limit single c (pause env (env.connect w).1) p' h')
      where
        w' : W
        w' = (env.connect w).1

        go :
            (r : ℕ ⊎ GoError)
            → (env.connect w).0 ≡ r
            → (0 < fuel
                → limit + 1 < env.now (pause env w') + fuel
                → Returns
                    (reconnect_loop env fuel limit single c (pause env w'))
                    (Kept c (pause env w')))
            → Returns (reconnect_loop env (suc fuel) limit single c w) (Kept c w)
        go (inl conn) e ih = ground (arith, e, counts.connected w)
        go (inr x) e ih = elim (Bool-cases (gives_up env single x limit (env.now w'))) [
          | inl stop ↦ ground (arith, e, stop, counts.connected w)
          | inr on ↦
              let early : env.now w' ≤ limit =
                ground (arith, on, gives_up-late env clock single x limit (env.now w')) in
              ground (
                arith,
                e,
                on,
                early,
                Returns-mono (reconnect_loop env fuel limit single c (pause env w'))
                    (Kept c (pause env w')) (Kept c w)
                    (ih (omega (arith, now-pause env clock w', clock.connected w))
                      (omega (arith, now-pause env clock w', clock.connected w)))
                    (λ r k. (k.0 ∙ (sends-pause w' ∙ counts.connected w), k.1)),
              )
        ]

    pub reconnect-Returns :
        (rounds : ℕ) (single : Bool) (c : ReconnectingConn) (w : W)
        → c.wait_until_available + 2 ≤ rounds
        → Returns (reconnect env rounds single c w) (Kept c w)
    unfolding reconnect max_time Kept
    reconnect-Returns rounds single c w h =
        ground (arith, reconnect_loop-Returns rounds (max_time env c w) single c w)

    ensure_connection-Returns :
        (rounds : ℕ) (c : ReconnectingConn) (w : W)
        → c.wait_until_available + 2 ≤ rounds
        → Returns (ensure_connection env rounds c w) (Kept c w)
    unfolding ensure_connection Kept
    ensure_connection-Returns rounds c w h = ground (arith, reconnect-Returns rounds false c w h)

    -- What a flow leaves: one more query at most.
    unfoldable pub SentOnce :
        ReconnectingConn → W → Option GoError × (ReconnectingConn × W) → Type 0
    SentOnce c w (e, (c', w')) =
        (sends w' ≤ sends w + 1) × (c'.wait_until_available ≡ c.wait_until_available)

    ensured-Returns :
        (q : ℕ) (c : ReconnectingConn) (w : W) (r : Option GoError × (ReconnectingConn × W))
        → Kept c w r
        → Returns (ensured env (λ conn. env.granular_flow conn q) r) (SentOnce c w)
    unfolding ensured flow Kept SentOnce
    ensured-Returns q c w (some e, (c', w')) h = (omega arith, h.1)
    ensured-Returns q c w (none, (c', w')) h = go (assert_unborrowed c'.borrowable) refl
      where
        go :
            (a : Option GoError)
            → assert_unborrowed c'.borrowable ≡ a
            → Returns
                (ensured env (λ conn. env.granular_flow conn q) (none, (c', w')))
                (SentOnce c w)
        go (some x) e = ground (arith, e, h)
        go none e = ground (arith, e, h, counts.sent c'.borrowable.conn q w')

    pub granular_flow-SentOnce :
        (rounds q : ℕ) (c : ReconnectingConn) (w : W)
        → c.wait_until_available + 2 ≤ rounds
        → Returns (granular_flow env rounds q c w) (SentOnce c w)
    unfolding granular_flow
    granular_flow-SentOnce rounds q c w h =
        >>=-Returns (ensure_connection env rounds c w) _ (Kept c w) (SentOnce c w)
          (ensure_connection-Returns rounds c w h) (λ r k. ensured-Returns q c w r k)
