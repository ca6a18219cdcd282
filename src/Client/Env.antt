-- ===== src/Client/Env.antt =====
-- What a connection is to the code above it: a socket protocol run against the server, the clock and
-- the user's code. `W` is the state of all these; nothing is assumed of the functions.
use edgedb_go.Common.{ℕ, Bool, Option, ◌⊎◌}
use edgedb_go.Client.Errors.{GoError}

-- The scripts that a transaction sends, and any other by a number that names it.
pub data Command : Type 0 where
  start_transaction : Bool → Bool → Command
  commit_transaction rollback_transaction : Command
  script : ℕ → Command

-- A protocolConnection is named by a number, and 0 is the nil pointer.
-- `script_flow` and `granular_flow` are its methods, `conn_closed` its `isClosed`, `soc_closed` its
-- `soc.Closed`, `close` its `close`; `connect` is `connectWithTimeout`, `rnd_intn` is `rnd.Intn`,
-- and `cached_capabilities` is `getCachedCapabilities`, which moves the entry in its cache.
pub record Env (W : Type 0) : Type 0 where
  pub script_flow : ℕ → Command → W → Option GoError × W
  pub granular_flow : ℕ → ℕ → W → Option GoError × W
  pub conn_closed : ℕ → W → Bool
  pub soc_closed : ℕ → W → Bool
  pub close : ℕ → W → Option GoError × W
  pub connect : W → (ℕ ⊎ GoError) × W
  pub rnd_intn : ℕ → W → ℕ × W
  pub now : W → ℕ
  pub sleep : ℕ → W → W
  pub cached_capabilities : ℕ → W → Option ℕ × W
  pub ctx_deadline : Option ℕ

-- The loops of the code have no bound that is written down; they run on fuel here.
pub data OutOfFuel : Type 0 where
  out_of_fuel : OutOfFuel
