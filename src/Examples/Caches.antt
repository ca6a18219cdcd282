-- ===== src/Examples/Caches.antt =====
-- internal/cache at a cache for two entries.
use edgedb_go.Common.{ℕ, ◌≡◌, arith, ok, none, some, List, [], ◌∷◌}
use edgedb_go.Cache.{Cache, new_cache}
use edgedb_go.Cache.History.{Call, gets, puts, invalidates, run, promised, run-promised}

-- The third key drives out the second, as the first was read in between.
abbrev calls : List (Call ℕ)
calls =
    puts 1 10
    ∷ puts 2 20
    ∷ gets 1
    ∷ puts 3 30
    ∷ gets 2
    ∷ gets 1
    ∷ puts 3 31
    ∷ gets 3
    ∷ invalidates
    ∷ gets 3
    ∷ []

run-promised_example :
    (c : Cache ℕ) × (run calls (new_cache 2)
      ≡ ok (some 10 ∷ none ∷ some 10 ∷ some 31 ∷ none ∷ [], c))
unfolding promised
run-promised_example = run-promised 2 calls (omega arith)
