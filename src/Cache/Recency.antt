-- ===== src/Cache/Recency.antt =====
-- What a cache promises: its entries, the one that was used last first, and at most so many. And
-- the lists of the entries that the nodes of the ring hold.
use edgedb_go.Common.{
  ℕ, ◌-◌, ◌==◌, ◌≡◌, ◌⊎◌, inl, inr, refl, ap, ◌∙◌, arith, false, Bool-cases, if◌then◌else◌, Option,
  none, some, List, [], ◌∷◌, ◌++◌, take,
}
use edgedb_go.Cache.Ring.{has, Distinct}

-- An entry of the cache, and the address of its node.
pub record Entry (V : Type 0) : Type 0 where
  pub addr : ℕ
  pub key : ℕ
  pub val : V

module _ {V : Type 0} where
  unfoldable pub find : ℕ → List (ℕ × V) → Option V
  find k [] = none
  find k ((j, v) ∷ l) = if k == j then some v else find k l

  unfoldable pub erase : ℕ → List (ℕ × V) → List (ℕ × V)
  erase k [] = []
  erase k ((j, v) ∷ l) = if k == j then l else (j, v) ∷ erase k l

  -- The entry that is read is the one used last.
  unfoldable pub touch : ℕ → List (ℕ × V) → List (ℕ × V)
  unfolding find erase
  touch k l = elim (find k l) [ none ↦ l | some v ↦ (k, v) ∷ erase k l ]

  -- A new entry drives the one out that was not used for the longest time, if there is no room.
  unfoldable pub store : ℕ → ℕ → V → List (ℕ × V) → List (ℕ × V)
  unfolding find erase
  store max_len k v l = elim (find k l) [
    | none ↦ (k, v) ∷ take (max_len - 1) l
    | some old ↦ (k, v) ∷ erase k l
  ]

  abbrev pub view : List (Entry V) → List (ℕ × V)
  view [] = []
  view (e ∷ es) = (e.key, e.val) ∷ view es

  abbrev pub addrs : List (Entry V) → List ℕ
  addrs [] = []
  addrs (e ∷ es) = e.addr ∷ addrs es

  abbrev pub keys : List (Entry V) → List ℕ
  keys [] = []
  keys (e ∷ es) = e.key ∷ keys es

  abbrev pub All : (Entry V → Type 0) → List (Entry V) → Type 0
  All P [] = Unit
  All P (e ∷ es) = P e × All P es

  pub addrs-append : (xs ys : List (Entry V)) → addrs (xs ++ ys) ≡ addrs xs ++ addrs ys
  addrs-append [] ys = refl
  addrs-append (x ∷ xs) ys = ap (λ t. x.addr ∷ t) (addrs-append xs ys)

  pub keys-append : (xs ys : List (Entry V)) → keys (xs ++ ys) ≡ keys xs ++ keys ys
  keys-append [] ys = refl
  keys-append (x ∷ xs) ys = ap (λ t. x.key ∷ t) (keys-append xs ys)

  -- The entry in the middle comes to the front.
  pub All-front :
      (P : Entry V → Type 0) (xs ys : List (Entry V)) (e : Entry V)
      → All P (xs ++ (e ∷ ys))
      → All P (e ∷ (xs ++ ys))
  All-front P [] ys e h = h
  All-front P (x ∷ xs) ys e (p, h) = let (q, r) = All-front P xs ys e h in (q, (p, r))

  pub All-mono :
      (P Q : Entry V → Type 0) (es : List (Entry V))
      → ((e : Entry V) → P e → Q e)
      → All P es
      → All Q es
  All-mono P Q [] f h = tt
  All-mono P Q (e ∷ es) f (p, h) = (f e p, All-mono P Q es f h)

  -- An entry of the key, or none.
  pub split_at :
      (k : ℕ) (es : List (Entry V))
      → ((has k (keys es) ≡ false) × (find k (view es) ≡ none))
        ⊎ ((xs : List (Entry V)) × (e : Entry V) × (ys : List (Entry V)) × (es ≡ xs ++ (e ∷ ys))
            × (e.key ≡ k)
            × (find k (view es) ≡ some e.val)
            × (erase k (view es) ≡ view (xs ++ ys)))
  unfolding find erase
  split_at k [] = inl (refl, refl)
  split_at k (e ∷ es) = elim (Bool-cases (k == e.key)) [
    | inl same ↦ inr ([], e, es, refl, ground arith, rw same refl, rw same refl)
    | inr other ↦ elim (split_at k es) [
      | inl (out, nothing) ↦ inl (ground arith, rw other nothing)
      | inr (xs, x, ys, p, q, r, s) ↦ inr (
        e ∷ xs,
        x,
        ys,
        ap (λ t. e ∷ t) p,
        q,
        rw other r,
        rw other (ap (λ t. (e.key, e.val) ∷ t) s),
      )
    ]
  ]

pub has-front : (k a : ℕ) (xs ys : List ℕ) → has k (a ∷ (xs ++ ys)) ≡ has k (xs ++ (a ∷ ys))
has-front k a [] ys = refl
has-front k a (x ∷ xs) ys = ground (arith, has-front k a xs ys)

pub Distinct-front :
    (a : ℕ) (xs ys : List ℕ) → Distinct (xs ++ (a ∷ ys)) → Distinct (a ∷ (xs ++ ys))
Distinct-front a [] ys d = d
Distinct-front a (x ∷ xs) ys (out, d) =
    let (p, q) = Distinct-front a xs ys d in
    let out' : has x (a ∷ (xs ++ ys)) ≡ false = has-front x a xs ys ∙ out in
    (ground arith, (ground arith, q))
