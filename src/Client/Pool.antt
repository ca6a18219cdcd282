-- ===== src/Client/Pool.antt =====
-- internal/client/client.go: the pool of connections that `acquire`, `release` and `Close` of a Client
-- share. Any number of goroutines are in these calls at once, and the timers of idle connections run
-- beside them; an event is a step that one of them makes between two points at which it can wait.
-- An event that would have to wait has no successor.
pub mod Steps
pub mod Balance
pub mod Limits
pub mod Owners
pub mod Closing
use edgedb_go.Common.{
  ℕ, zero, suc, ◌+◌, ◌-◌, ◌*◌, ◌%◌, ◌^◌, ◌==◌, ltb, leb, if◌then◌else◌, Bool, false, ◌||◌, Option,
  none, some, List, [], ◌∷◌, ◌>>=?◌,
}

-- What the function that waits in `freeConns` will return: the connection, with no timer beside it
-- or with one that has not fired, or nil, as the timer has fired.
pub data Idle : Type 0 where
  kept timed : ℕ → Idle
  expired : Idle

-- The fields of Client on which the pool works. `free_conns` is a channel of capacity 1 and
-- `potential_conns` the number of tokens in one of capacity `concurrency`, or nil.
pub record Pool : Type 0 where
  pub is_closed : Bool
  pub free_conns : Option Idle
  pub potential_conns : Option ℕ
  pub concurrency : ℕ

-- The pool with what is under way around it. `waiting` calls of `acquire` are in its select loop, and
-- `connecting` ones in `newConn` with a token; `used` are the connections that `acquire` returned
-- and `release` was not called for; the timers of those in `expiring` have fired and hold their
-- tokens still. `closing` is the number of rounds that the loop of a running `Close` has left, and
-- `collected` how many tokens and connections it has received. A connection is named by a number.
pub record System : Type 0 where
  pub pool : Pool
  pub open pool use *
  pub waiting : ℕ
  pub connecting : ℕ
  pub used : List ℕ
  pub expiring : List ℕ
  pub closing : Option ℕ
  pub collected : ℕ
  pub closed : List ℕ
  pub next_conn : ℕ

abbrev pub idle_pool : ℕ → System
idle_pool concurrency = record {
  pool = record {
    is_closed = false;
    free_conns = none;
    potential_conns = none;
    concurrency = concurrency;
  };
  waiting = 0;
  connecting = 0;
  used = [];
  expiring = [];
  closing = none;
  collected = 0;
  closed = [];
  next_conn = 0;
}

-- What a call of `acquire` meets: whether `newConn` and the context succeed, the server's
-- "suggested_pool_concurrency", and max(4, runtime.NumCPU()).
pub record Dial : Type 0 where
  pub connects : Bool
  pub ctx_done : Bool
  pub suggested : Option ℕ
  pub default_concurrency : ℕ

set_free : Option Idle → System → System
set_free i s = record s { pool = record s.pool { free_conns = i } }

set_potential : ℕ → System → System
set_potential n s = record s { pool = record s.pool { potential_conns = some n } }

-- `p.potentialConns <- struct{}{}`: it waits where the channel is nil or full.
unfoldable pub push_token : System → Option System
unfolding set_potential
push_token s = elim s.potential_conns [
  | none ↦ none
  | some n ↦ if ltb n s.concurrency then some (set_potential (n + 1) s) else none
]

-- `<-p.potentialConns`
unfoldable pub pop_token : System → Option System
unfolding set_potential
pop_token s = elim s.potential_conns [
  | none ↦ none
  | some zero ↦ none
  | some (suc n) ↦ some (set_potential n s)
]

unfoldable pub chosen_concurrency : Dial → ℕ → ℕ
chosen_concurrency d concurrency =
    if concurrency == 0
    then elim d.suggested [ some n ↦ n | none ↦ d.default_concurrency ]
    else concurrency

-- The first connection: the channel of tokens is made with room for all and one token less.
unfoldable pub first_conn : Dial → System → System
unfolding chosen_concurrency
first_conn d s =
    let n = chosen_concurrency d s.concurrency in
    if d.connects
    then record s {
      pool = record s.pool { concurrency = n; potential_conns = some (n - 1) };
      used = s.next_conn ∷ s.used;
      next_conn = s.next_conn + 1;
    }
    else s

-- A function from `freeConns` is called by an `acquire`.
call_idle : Idle → System → System
unfolding set_free
call_idle expired s = record (set_free none s) { waiting = s.waiting + 1 }
call_idle (kept c) s = record (set_free none s) { used = c ∷ s.used }
call_idle (timed c) s = record (set_free none s) { used = c ∷ s.used }

-- `acquire` up to its select loop. A running `Close` holds the lock.
unfoldable pub acquire : Dial → System → Option System
unfolding first_conn call_idle
acquire d s = elim s.closing [
  | some n ↦ none
  | none ↦ if s.is_closed then some s else elim s.potential_conns [
    | none ↦ some (first_conn d s)
    | some n ↦ if d.ctx_done then some s else elim s.free_conns [
      | none ↦ some (record s { waiting = s.waiting + 1 })
      | some i ↦ some (call_idle i s)
    ]
  ]
]

-- One call less in the select loop.
leave_loop : System → Option System
leave_loop s = if s.waiting == 0 then none else some (record s { waiting = s.waiting - 1 })

-- The three cases of the select loop.
unfoldable pub poll_free : System → Option System
unfolding leave_loop call_idle
poll_free s = elim s.free_conns [
  | none ↦ none
  | some i ↦ leave_loop s >>=? λ s'. some (call_idle i s')
]

unfoldable pub poll_potential : System → Option System
unfolding leave_loop pop_token
poll_potential s =
    leave_loop s >>=? λ s'. pop_token s' >>=? λ t. some (record t { connecting = s.connecting + 1 })

unfoldable pub poll_ctx : System → Option System
unfolding leave_loop
poll_ctx s = leave_loop s

-- The return of `newConn` in the loop: the connection, or the error behind the token's return.
unfoldable pub connected : Bool → System → Option System
unfolding push_token
connected success s =
    if s.connecting == 0
    then none
    else if success
    then some (record s {
      connecting = s.connecting - 1;
      used = s.next_conn ∷ s.used;
      next_conn = s.next_conn + 1;
    })
    else push_token (record s { connecting = s.connecting - 1 })

-- The list without one occurrence of the number, if it has one.
unfoldable pub take_out : ℕ → List ℕ → Option (List ℕ)
take_out c [] = none
take_out c (d ∷ ds) =
    let rest = take_out c ds in if c == d then some ds else rest >>=? λ ds'. some (d ∷ ds')

-- The timeout in nanoseconds as the bits of an int64, from `SessionIdleTimeout` in microseconds.
unfoldable pub idle_timeout : Option ℕ → ℕ
idle_timeout none = 30_000_000_000
idle_timeout (some t) = (1_000 * t) % 2 ^ 64

unfoldable pub is_disabled : ℕ → Bool
is_disabled timeout = timeout == 0 || leb (2 ^ 63) timeout

-- The token goes back and the connection is closed.
unfoldable pub drop_conn : ℕ → System → Option System
unfolding push_token
drop_conn c s = push_token s >>=? λ t. some (record t { closed = c ∷ s.closed })

-- The connection waits in `freeConns`, if there is room.
keep_conn : Idle → ℕ → System → Option System
unfolding drop_conn set_free
keep_conn i c s = elim s.free_conns [ none ↦ some (set_free (some i) s) | some j ↦ drop_conn c s ]

-- `release` of a connection in use: `lost` says that its error is a ClientConnectionError.
unfoldable pub release : Bool → Option ℕ → ℕ → System → Option System
unfolding keep_conn drop_conn take_out
release lost session_idle_timeout c s = take_out c s.used >>=? λ rest.
    let s' = record s { used = rest } in
    if lost
    then drop_conn c s'
    else keep_conn (if is_disabled (idle_timeout session_idle_timeout) then kept c else timed c) c
        s'

-- `time.After(timeout)` and `connChan <- nil` of the goroutine beside an idle connection.
unfoldable pub timer_fires : System → Option System
unfolding set_free
timer_fires s = elim s.free_conns [
  | some (timed c) ↦ some (record (set_free (some expired) s) { expiring = c ∷ s.expiring })
  | _ ↦ none
]

-- The rest of that goroutine.
unfoldable pub expire : ℕ → System → Option System
unfolding drop_conn take_out
expire c s = take_out c s.expiring >>=? λ rest. drop_conn c (record s { expiring = rest })
