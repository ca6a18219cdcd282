-- ===== src/Cache/Pointers.antt =====
-- What the pointer code of the cache does to the ring of nodes behind `root`.
use edgedb_go.Common.{ℕ, ◌≡◌, ◌≢◌, ◌∙◌, arith, false, ok, some, List, ◌∷◌, ◌++◌}
use edgedb_go.Cache.{Nodes, update, bypass, push_front}
use edgedb_go.Cache.Ring.{
  has, Distinct, Linked, first_or, last_or, Linked-append, Linked-next, Linked-prev, Linked-bypass,
  Linked-push_front, last_or-ne, first_or-ne, has-append_front, has-append_back,
}
use edgedb_go.Cache.Recency.{Distinct-front, has-front}

module _ {V : Type 0} where
  pub record IsRing (h : Nodes V) (xs : List ℕ) : Type 0 where
    pub linked : Linked h.next h.prev 0 xs 0
    pub distinct : Distinct (0 ∷ xs)

  abbrev pub joined : Nodes V → ℕ → ℕ → Nodes V
  joined h p q = record h { next = update h.next p (some q); prev = update h.prev q (some p) }

  abbrev pub fronted : Nodes V → ℕ → ℕ → Nodes V
  fronted h n q = record h {
    next = update (update h.next n (h.next 0)) 0 (some n);
    prev = update (update h.prev n (some 0)) q (some n);
  }

  bypass_lem :
      (h : Nodes V) (n p q : ℕ)
      → h.prev n ≡ some p
      → h.next n ≡ some q
      → p ≢ n
      → q ≢ n
      → bypass n h ≡ ok (joined h p q)
  unfolding bypass
  bypass_lem h n p q before after out out' = ground arith

  push_front_lem :
      (h : Nodes V) (n q : ℕ) → h.next 0 ≡ some q → n ≢ 0 → push_front n h ≡ ok (fronted h n q)
  unfolding push_front
  push_front_lem h n q after out = ground arith

  pub bypass-IsRing :
      (h : Nodes V) (n : ℕ) (xs ys : List ℕ)
      → IsRing h (xs ++ (n ∷ ys))
      → (p : ℕ) × (q : ℕ) × (bypass n h ≡ ok (joined h p q)) × IsRing (joined h p q) (xs ++ ys)
  bypass-IsRing h n xs ys r =
      let p : ℕ = last_or 0 xs in
      let q : ℕ = first_or ys 0 in
      let (l₁, l₂) = Linked-append h.next h.prev 0 n 0 xs ys r.linked in
      let d = Distinct-front n xs ys r.distinct.1 in
      let zero_out : has 0 (n ∷ (xs ++ ys)) ≡ false = has-front 0 n xs ys ∙ r.distinct.0 in
      let before_out : has n (0 ∷ xs) ≡ false = ground (arith, has-append_front n xs ys) in
      let after_out : has n (0 ∷ ys) ≡ false = ground (arith, has-append_back n xs ys) in
      (
        p,
        q,
        bypass_lem h n p q (Linked-prev h.next h.prev 0 n xs l₁)
            (Linked-next h.next h.prev n 0 ys l₂) (last_or-ne n 0 xs before_out)
            (first_or-ne n 0 ys after_out),
        record {
          linked = Linked-bypass h.next h.prev n 0 0 xs ys l₁ l₂ (ground arith) (ground arith) d.1;
          distinct = (ground arith, d.1);
        },
      )

  pub push_front-IsRing :
      (h : Nodes V) (n : ℕ) (xs : List ℕ)
      → IsRing h xs
      → has n (0 ∷ xs) ≡ false
      → (q : ℕ) × (push_front n h ≡ ok (fronted h n q)) × IsRing (fronted h n q) (n ∷ xs)
  push_front-IsRing h n xs r out =
      let q : ℕ = first_or xs 0 in
      (
        q,
        push_front_lem h n q (Linked-next h.next h.prev 0 0 xs r.linked) (ground arith),
        record {
          linked = Linked-push_front h.next h.prev n 0 xs r.linked out r.distinct;
          distinct = ground arith;
        },
      )
