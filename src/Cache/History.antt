-- ===== src/Cache/History.antt =====
-- A cache under any sequence of calls against the list of entries that it promises.
use edgedb_go.Common.{ℕ, ◌≤◌, ◌≡◌, refl, arith, ok, ◌>>=◌, Option, List, [], ◌∷◌}
use edgedb_go.Cache.{Cache, Run, new_cache, invalidate, get, put}
use edgedb_go.Cache.Recency.{Entry, find, touch, store, view}
use edgedb_go.Cache.Refinement.{Represents, Represents-new, Represents-invalidate, get-touch}
use edgedb_go.Cache.Storing.{put-store}

pub data Call (V : Type 0) : Type 0 where
  gets : ℕ → Call V
  puts : ℕ → V → Call V
  invalidates : Call V

module _ {V : Type 0} where
  -- What the calls of `Get` return, in order.
  unfoldable pub run : List (Call V) → Cache V → Run (List (Option V) × Cache V)
  run [] c = ok ([], c)
  run (gets k ∷ calls) c = do (v, c') ← get k c; (vs, c'') ← run calls c'; ok (v ∷ vs, c'')
  run (puts k v ∷ calls) c = do c' ← put 2 k v c; run calls c'
  run (invalidates ∷ calls) c = run calls (invalidate c)

  -- What they return of the list of entries.
  unfoldable pub promised : ℕ → List (Call V) → List (ℕ × V) → List (Option V)
  unfolding find touch store
  promised n [] l = []
  promised n (gets k ∷ calls) l = find k l ∷ promised n calls (touch k l)
  promised n (puts k v ∷ calls) l = promised n calls (store n k v l)
  promised n (invalidates ∷ calls) l = promised n calls []

  run-from :
      (calls : List (Call V)) (c : Cache V) (es : List (Entry V))
      → Represents c es
      → 1 ≤ c.max_len
      → (c' : Cache V) × (run calls c ≡ ok (promised c.max_len calls (view es), c'))
  unfolding run promised invalidate
  run-from [] c es r pos = (c, refl)
  run-from (gets k ∷ calls) c es r pos =
      let (c', es', q, r', seen, same) = get-touch c es k r in
      let (c'', q') = run-from calls c' es' r' (rw same pos) in (c'', rw (q, q', seen, same) refl)
  run-from (puts k v ∷ calls) c es r pos =
      let (c', es', q, r', seen, same) = put-store 2 k v c es r pos (omega arith) in
      let (c'', q') = run-from calls c' es' r' (rw same pos) in (c'', rw (q, q', seen, same) refl)
  run-from (invalidates ∷ calls) c es r pos =
      run-from calls (invalidate c) [] (Represents-invalidate c es r) pos

  -- Under any sequence of calls a new cache for one entry or more never panics, each `Put` returns
  -- within two rounds of its loop, and each `Get` returns what the list of the entries that were used
  -- last holds: the value that was stored last, or nothing if the key was driven out or never there.
  pub run-promised :
      (max_len : ℕ) (calls : List (Call V))
      → 1 ≤ max_len
      → (c : Cache V) × (run calls (new_cache max_len) ≡ ok (promised max_len calls [], c))
  run-promised max_len calls pos =
      run-from calls (new_cache max_len) [] (Represents-new max_len) pos
