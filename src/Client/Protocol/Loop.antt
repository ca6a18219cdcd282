-- ===== src/Client/Protocol/Loop.antt =====
-- The loop `for r.Next(done.Chan)` that the flows of internal/client have in common, over the
-- `switch` of each.
pub mod Delivery
use edgedb_go.Common.{
  ℕ, zero, suc, Bool, true, false, ◌&&◌, Option, none, some, Outcome, ok, err, ◌>>=◌, lift,
}
use edgedb_go.Buff.Reader.{Reader}
use edgedb_go.Buff.Reader.Feed.{next}
use edgedb_go.Client.Env.{OutOfFuel, out_of_fuel}
use edgedb_go.Client.Protocol.{FlowError}
use edgedb_go.Client.Protocol.Messages.{Handled}

-- The local variables of a flow, and whether `done.Signal()` was called.
pub record Flow (S : Type 0) : Type 0 where
  pub done : Bool
  pub state : S

-- What the loop comes to: the error that a `return` inside it returns, if one does.
abbrev pub Looped : Type 0 → Type 0
Looped S = Outcome OutOfFuel (Option FlowError × (Flow S × Reader))

-- `picks` says that the `select` of `Next` takes the signal once it is sent, and not the receive:
-- with data ready beside the signal Go picks either. `handle` is the `switch`, on whose errors the
-- flow returns. A round takes one unit of fuel.
unfoldable pub message_loop :
    {S : Type 0}
    → (Reader → Bool)
    → (Flow S → Reader → Handled (Flow S))
    → ℕ
    → Flow S
    → Reader
    → Looped S
message_loop picks handle zero f r = err out_of_fuel
message_loop picks handle (suc fuel) f r =
    let again = message_loop picks handle fuel in
    do
      (more, r₁) ← lift (next (f.done && picks r) r)
      elim more [
        | false ↦ ok (none, (f, r₁))
        | true ↦ do
          (e, (f₁, r₂)) ← lift (handle f r₁)
          elim e [ none ↦ again f₁ r₂ | some x ↦ ok (some x, (f₁, r₂)) ]
      ]
