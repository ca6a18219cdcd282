-- ===== src/Cache/Refinement.antt =====
-- The methods of the cache do to its nodes what the list of its entries promises.
use edgedb_go.Common.{
  ℕ, suc, ◌≤◌, ◌<◌, ◌≡◌, inl, inr, refl, sym, ap, ◌∙◌, arith, false, ok, Option, none, some, List,
  [], ◌∷◌, ◌++◌, length, length-append,
}
use edgedb_go.Cache.{Nodes, Cache, lookup, new_cache, move_to_front, get, invalidate}
use edgedb_go.Cache.Ring.{has, Distinct}
use edgedb_go.Cache.Keys.{map_keys}
use edgedb_go.Cache.Pointers.{IsRing, joined, fronted, bypass-IsRing, push_front-IsRing}
use edgedb_go.Cache.Recency.{
  Entry, find, erase, touch, view, addrs, keys, All, addrs-append, keys-append, All-front, split_at,
  has-front, Distinct-front,
}

module _ {V : Type 0} where
  -- A node of the ring holds the entry, and the map leads from the key to it.
  abbrev pub Stored : Cache V → Entry V → Type 0
  Stored c e =
      (c.nodes.key e.addr ≡ some e.key)
      × (c.nodes.val e.addr ≡ some e.val)
      × (lookup e.key c.mp ≡ some e.addr)
      × (e.addr < c.fresh)

  -- The ring holds the entries in their order, the map holds their keys and no others, and there are
  -- not more than the cache may hold.
  pub record Represents (c : Cache V) (es : List (Entry V)) : Type 0 where
    pub ring : IsRing c.nodes (addrs es)
    pub stored : All (Stored c) es
    pub distinct : Distinct (keys es)
    pub absent : (k : ℕ) → has k (keys es) ≡ false → lookup k c.mp ≡ none
    pub mapped : Distinct (map_keys c.mp)
    pub size : length c.mp ≡ length es
    pub bounded : length es ≤ c.max_len
    pub fresh : 0 < c.fresh

  pub Represents-new : (max_len : ℕ) → Represents (new_cache {V = V} max_len) []
  unfolding lookup
  Represents-new max_len = record {
    ring = record { linked = (refl, refl); distinct = (refl, tt) };
    stored = tt;
    distinct = tt;
    absent = λ k h. refl;
    mapped = tt;
    size = refl;
    bounded = omega arith;
    fresh = omega arith;
  }

  -- The entry in the middle comes to the front of the ring.
  pub move_to_front_lem :
      (h : Nodes V) (xs ys : List (Entry V)) (e : Entry V)
      → IsRing h (addrs (xs ++ (e ∷ ys)))
      → (next' prev' : ℕ → Option ℕ) × (move_to_front e.addr h
          ≡ ok (record h { next = next'; prev = prev' }))
        × IsRing (record h { next = next'; prev = prev' }) (addrs (e ∷ (xs ++ ys)))
  unfolding move_to_front
  move_to_front_lem h xs ys e r =
      let r₀ : IsRing h (addrs xs ++ (e.addr ∷ addrs ys)) = rw addrs-append at r in
      let (p, q, b, r₁) = bypass-IsRing h e.addr (addrs xs) (addrs ys) r₀ in
      let d = Distinct-front e.addr (addrs xs) (addrs ys) r₀.distinct.1 in
      let zero_out : has 0 (e.addr ∷ (addrs xs ++ addrs ys)) ≡ false =
        has-front 0 e.addr (addrs xs) (addrs ys) ∙ r₀.distinct.0 in
      let (q', b', r₂) =
        push_front-IsRing (joined h p q) e.addr (addrs xs ++ addrs ys) r₁ (ground arith) in
      let h' = fronted (joined h p q) e.addr q' in (h'.next, h'.prev, rw b b', rw addrs-append r₂)

  abbrev pub relinked : Cache V → (ℕ → Option V) → (ℕ → Option ℕ) → (ℕ → Option ℕ) → Cache V
  relinked c val' next' prev' = record c {
    nodes = record c.nodes { val = val'; next = next'; prev = prev' };
  }

  pub Represents-front :
      (c : Cache V) (xs ys : List (Entry V)) (e : Entry V) (v : V) (val' : ℕ → Option V)
      (next' prev' : ℕ → Option ℕ)
      → Represents c (xs ++ (e ∷ ys))
      → IsRing (record c.nodes { next = next'; prev = prev' }) (addrs (e ∷ (xs ++ ys)))
      → All (Stored (relinked c val' next' prev')) (record e { val = v } ∷ (xs ++ ys))
      → Represents (relinked c val' next' prev') (record e { val = v } ∷ (xs ++ ys))
  Represents-front c xs ys e v val' next' prev' r ring stored =
      let same : length (xs ++ (e ∷ ys)) ≡ suc (length (xs ++ ys)) =
        omega (arith, length-append xs (e ∷ ys), length-append xs ys) in
      record {
        ring = record { linked = ring.linked; distinct = ring.distinct };
        stored = stored;
        distinct =
            rw keys-append
              (Distinct-front e.key (keys xs) (keys ys) (rw keys-append at r.distinct));
        absent = λ k out. r.absent k (
            rw keys-append (sym (has-front k e.key (keys xs) (keys ys)) ∙ (rw keys-append at out)));
        mapped = r.mapped;
        size = r.size ∙ same;
        bounded = omega (arith, r.bounded);
        fresh = r.fresh;
      }

  get-absent : (k : ℕ) (c : Cache V) → lookup k c.mp ≡ none → get k c ≡ ok (none, c)
  unfolding get
  get-absent k c e = ground arith

  get-present :
      (k n : ℕ) (c : Cache V) (h : Nodes V)
      → lookup k c.mp ≡ some n
      → move_to_front n c.nodes ≡ ok h
      → get k c ≡ ok (h.val n, record c { nodes = h })
  unfolding get
  get-present k n c h e m = rw (e, get) (rw m refl)

  touch-absent : (k : ℕ) (l : List (ℕ × V)) → find k l ≡ none → touch k l ≡ l
  unfolding touch
  touch-absent k l e = ground arith

  touch-present :
      (k : ℕ) (v : V) (l : List (ℕ × V)) → find k l ≡ some v → touch k l ≡ (k, v) ∷ erase k l
  unfolding touch
  touch-present k v l e = ground arith

  -- `Get` of a key that is there returns its value and makes its entry the one used last; of a key
  -- that is not there it returns nil and changes nothing.
  pub get-touch :
      (c : Cache V) (es : List (Entry V)) (k : ℕ)
      → Represents c es
      → (c' : Cache V) × (es' : List (Entry V)) × (get k c ≡ ok (find k (view es), c'))
        × Represents c' es'
        × (view es' ≡ touch k (view es))
        × (c'.max_len ≡ c.max_len)
  get-touch c es k r = elim (split_at k es) [
    | inl (out, nothing) ↦ (
      c,
      es,
      rw nothing (get-absent k c (r.absent k out)),
      r,
      sym (touch-absent k (view es) nothing),
      refl,
    )
    | inr (xs, e, ys, p, q, found, rest) ↦ present xs e ys p q found rest
  ]
    where
      present :
          (xs : List (Entry V)) (e : Entry V) (ys : List (Entry V))
          → es ≡ xs ++ (e ∷ ys)
          → e.key ≡ k
          → find k (view es) ≡ some e.val
          → erase k (view es) ≡ view (xs ++ ys)
          → (c' : Cache V) × (es' : List (Entry V)) × (get k c ≡ ok (find k (view es), c'))
            × Represents c' es'
            × (view es' ≡ touch k (view es))
            × (c'.max_len ≡ c.max_len)
      present xs e ys p q found rest =
          let r' : Represents c (xs ++ (e ∷ ys)) = rw p at r in
          let stored = All-front (Stored c) xs ys e r'.stored in
          let (next', prev', m, ring) = move_to_front_lem c.nodes xs ys e r'.ring in
          (
            relinked c c.nodes.val next' prev',
            e ∷ (xs ++ ys),
            get-present k e.addr c (record c.nodes { next = next'; prev = prev' })
                  (ap (λ j. lookup j c.mp) (sym q) ∙ stored.0.2) m
                ∙ ap (λ v. ok (v, relinked c c.nodes.val next' prev')) (stored.0.1 ∙ sym found),
            Represents-front c xs ys e e.val c.nodes.val next' prev' r' ring stored,
            ap (λ j. (j, e.val) ∷ view (xs ++ ys)) q
                ∙ ap (λ l. (k, e.val) ∷ l) (sym rest)
                ∙ sym (touch-present k e.val (view es) found),
            refl,
          )

  pub Represents-invalidate :
      (c : Cache V) (es : List (Entry V)) → Represents c es → Represents (invalidate c) []
  unfolding invalidate lookup
  Represents-invalidate c es r = record {
    ring = record { linked = (refl, refl); distinct = (refl, tt) };
    stored = tt;
    distinct = tt;
    absent = λ k h. refl;
    mapped = tt;
    size = refl;
    bounded = omega arith;
    fresh = r.fresh;
  }
