-- ===== src/Client/Reconnect.antt =====
-- internal/client/reconnect.go.
pub mod Laws
pub mod Sends
use edgedb_go.Common.{
  ℕ, zero, suc, ◌+◌, ◌==◌, ltb, if◌then◌else◌, Outcome, ok, err, ◌>>=◌, Bool, true, false, not,
  ◌&&◌, ◌||◌, Option, none, some, ◌⊎◌, inl, inr,
}
use edgedb_go.Client.Errors.{
  GoError, as_error_and, interface_error, connection_closed, released_twice,
  client_connection_error, should_reconnect,
}
use edgedb_go.Client.Borrow.{BorrowableConn, assert_unborrowed}
use edgedb_go.Client.Env.{Env, Command, OutOfFuel, out_of_fuel}

pub record ReconnectingConn : Type 0 where
  pub borrowable : BorrowableConn
  pub wait_until_available : ℕ
  pub is_closed : Bool

module _ {W : Type 0} (env : Env W) where
  -- What a method on a connection brings.
  abbrev pub Reply : Type 0
  Reply = Outcome OutOfFuel (Option GoError × (ReconnectingConn × W))

  -- The errors on which `reconnect` gives up.
  unfoldable pub gives_up : Bool → GoError → ℕ → ℕ → Bool
  gives_up single e max_time now =
      single
      || e.is_canceled
      || e.is_deadline_exceeded
      || not (as_error_and e (λ x. x.category client_connection_error))
      || not (as_error_and e (λ x. x.has_tag should_reconnect))
      || ltb max_time now

  -- `time.Sleep(time.Duration(10+rnd.Intn(200)) * time.Millisecond)`
  unfoldable pub pause : W → W
  pause w = let (n, w') = env.rnd_intn 200 w in env.sleep (10 + n) w'

  unfoldable pub reconnect_loop : ℕ → ℕ → Bool → ReconnectingConn → W → Reply
  reconnect_loop zero max_time single c w = err out_of_fuel
  reconnect_loop (suc fuel) max_time single c w =
      let (r, w') = env.connect w in
      elim r [
        | inl conn ↦ ok (none, (record c { borrowable = record c.borrowable { conn = conn } }, w'))
        | inr e ↦
            let again = reconnect_loop fuel max_time single c (pause w') in
            if gives_up single e max_time (env.now w') then ok (some e, (c, w')) else again
      ]

  -- `maxTime`: the wait of the configuration, or an earlier deadline of the context.
  unfoldable pub max_time : ReconnectingConn → W → ℕ
  max_time c w =
      let available = env.now w + c.wait_until_available in
      elim env.ctx_deadline [
        | none ↦ available
        | some deadline ↦ if ltb deadline available then deadline else available
      ]

  unfoldable pub reconnect : ℕ → Bool → ReconnectingConn → W → Reply
  unfolding max_time reconnect_loop
  reconnect fuel single c w =
      if c.is_closed
      then ok (some (interface_error connection_closed), (c, w))
      else reconnect_loop fuel (max_time c w) single c w

  -- Connection 0 is the nil pointer.
  unfoldable pub ensure_connection : ℕ → ReconnectingConn → W → Reply
  ensure_connection fuel c w =
      if not (c.borrowable.conn == 0)
        && (not (env.conn_closed c.borrowable.conn w) && not c.is_closed)
      then ok (none, (c, w))
      else reconnect fuel false c w

  -- `borrowableConn.scriptFlow` and `borrowableConn.granularFlow`
  flow : (ℕ → W → Option GoError × W) → ReconnectingConn → W → Reply
  flow run c w = elim (assert_unborrowed c.borrowable) [
    | some e ↦ ok (some e, (c, w))
    | none ↦ let (e, w') = run c.borrowable.conn w in ok (e, (c, w'))
  ]

  ensured : (ℕ → W → Option GoError × W) → Option GoError × (ReconnectingConn × W) → Reply
  unfolding flow
  ensured run (some e, p) = ok (some e, p)
  ensured run (none, (c, w)) = flow run c w

  unfoldable pub script_flow : ℕ → Command → ReconnectingConn → W → Reply
  unfolding ensure_connection ensured
  script_flow fuel q c w = ensure_connection fuel c w >>= ensured (λ conn. env.script_flow conn q)

  unfoldable pub granular_flow : ℕ → ℕ → ReconnectingConn → W → Reply
  unfolding ensure_connection ensured
  granular_flow fuel q c w =
      ensure_connection fuel c w >>= ensured (λ conn. env.granular_flow conn q)

  -- `Close`
  unfoldable pub close : ReconnectingConn → W → Option GoError × (ReconnectingConn × W)
  close c w =
      if c.is_closed
      then (some (interface_error released_twice), (c, w))
      else if not (c.borrowable.conn == 0) && not (env.conn_closed c.borrowable.conn w)
      then (let (e, w') = env.close c.borrowable.conn w in (e, (record c { is_closed = true }, w')))
      else (none, (record c { is_closed = true }, w))
