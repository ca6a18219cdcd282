-- ===== src/Cache/Storing.antt =====
-- `Put` stores the entry as the one used last.
use edgedb_go.Common.{
  ℕ, suc, ◌+◌, ◌-◌, ◌≤◌, ◌<◌, ◌≡◌, inl, inr, refl, sym, ap, ◌∙◌, arith, false, ok, Option, none,
  some, List, [], ◌∷◌, ◌++◌, length, take,
}
use edgedb_go.Cache.{
  Nodes, Cache, update, lookup, insert, evict, new_node, push_front, move_to_front, put,
}
use edgedb_go.Cache.Ring.{has, Linked-update_next, Linked-update_prev}
use edgedb_go.Cache.Keys.{lookup-insert, insert_new, has-map_keys}
use edgedb_go.Cache.Pointers.{IsRing, fronted, push_front-IsRing}
use edgedb_go.Cache.Recency.{Entry, find, erase, store, view, addrs, keys, All, All-front, split_at}
use edgedb_go.Cache.Refinement.{Stored, Represents, relinked, move_to_front_lem, Represents-front}
use edgedb_go.Cache.Eviction.{evict-Evicted}

module _ {V : Type 0} where
  -- The entries of other nodes keep their values.
  Stored-others :
      (c : Cache V) (n : ℕ) (v : V) (next' prev' : ℕ → Option ℕ) (es : List (Entry V))
      → has n (addrs es) ≡ false
      → All (Stored c) es
      → All (Stored (relinked c (update c.nodes.val n (some v)) next' prev')) es
  Stored-others c n v next' prev' [] out h = tt
  Stored-others c n v next' prev' (e ∷ es) out ((key, val, mapped, small), h) =
      ((key, ground arith, mapped, small), Stored-others c n v next' prev' es (ground arith) h)

  put-present :
      (fuel k n : ℕ) (v : V) (c : Cache V) (h : Nodes V)
      → lookup k c.mp ≡ some n
      → move_to_front n (record c.nodes { val = update c.nodes.val n (some v) }) ≡ ok h
      → put fuel k v c ≡ ok (record c { nodes = h })
  unfolding put
  put-present fuel k n v c h e m = rw (e, put) (rw m refl)

  put-absent :
      (fuel k : ℕ) (v : V) (c c' : Cache V) (h : Nodes V)
      → lookup k c.mp ≡ none
      → evict fuel c ≡ ok c'
      → push_front c'.fresh (new_node k v c'.nodes c'.fresh) ≡ ok h
      → put fuel k v c
        ≡ ok (record c' { mp = insert k c'.fresh c'.mp; nodes = h; fresh = c'.fresh + 1 })
  unfolding put
  put-absent fuel k v c c' h e q m = rw (e, put) (rw q (rw m refl))

  store-absent :
      (n k : ℕ) (v : V) (l : List (ℕ × V))
      → find k l ≡ none
      → store n k v l ≡ (k, v) ∷ take (n - 1) l
  unfolding store
  store-absent n k v l e = ground arith

  store-present :
      (n k : ℕ) (v old : V) (l : List (ℕ × V))
      → find k l ≡ some old
      → store n k v l ≡ (k, v) ∷ erase k l
  unfolding store
  store-present n k v old l e = ground arith

  abbrev Puts : ℕ → ℕ → V → Cache V → List (Entry V) → Type 0
  Puts fuel k v c es =
      (c' : Cache V) × (es' : List (Entry V)) × (put fuel k v c ≡ ok c')
      × Represents c' es'
      × (view es' ≡ store c.max_len k v (view es))
      × (c'.max_len ≡ c.max_len)

  -- The key is there: its node gets the value and comes to the front.
  put_old :
      (fuel k : ℕ) (v : V) (c : Cache V) (xs ys : List (Entry V)) (e : Entry V)
      → Represents c (xs ++ (e ∷ ys))
      → e.key ≡ k
      → find k (view (xs ++ (e ∷ ys))) ≡ some e.val
      → erase k (view (xs ++ (e ∷ ys))) ≡ view (xs ++ ys)
      → Puts fuel k v c (xs ++ (e ∷ ys))
  put_old fuel k v c xs ys e r q found rest =
      let (stored, others) = All-front (Stored c) xs ys e r.stored in
      let val' = update c.nodes.val e.addr (some v) in
      let (next', prev', m, ring) =
        move_to_front_lem (record c.nodes { val = val' }) xs ys e
          (record { linked = r.ring.linked; distinct = r.ring.distinct }) in
      (
        relinked c val' next' prev',
        record e { val = v } ∷ (xs ++ ys),
        put-present fuel k e.addr v c (record c.nodes { val = val'; next = next'; prev = prev' })
            (ap (λ j. lookup j c.mp) (sym q) ∙ stored.2) m,
        Represents-front c xs ys e v val' next' prev' r
            (record { linked = ring.linked; distinct = ring.distinct })
            (
              (stored.0, ground arith, stored.2, stored.3),
              Stored-others c e.addr v next' prev' (xs ++ ys) ring.distinct.1.0 others,
            ),
        ap (λ j. (j, v) ∷ view (xs ++ ys)) q
            ∙ ap (λ l. (k, v) ∷ l) (sym rest)
            ∙ sym (store-present c.max_len k v e.val (view (xs ++ (e ∷ ys))) found),
        refl,
      )

  -- A new node is the first of the ring.
  abbrev grown : Cache V → ℕ → V → ℕ → Cache V
  grown c k v q = record c {
    mp = insert k c.fresh c.mp;
    nodes = fronted (new_node k v c.nodes c.fresh) c.fresh q;
    fresh = c.fresh + 1;
  }

  fresh-out :
      (c : Cache V) (es : List (Entry V)) → All (Stored c) es → has c.fresh (addrs es) ≡ false
  fresh-out c [] h = refl
  fresh-out c (e ∷ es) ((key, val, mapped, small), h) = ground (arith, fresh-out c es h)

  Stored-grown :
      (c : Cache V) (k q : ℕ) (v : V) (es : List (Entry V))
      → has k (keys es) ≡ false
      → All (Stored c) es
      → All (Stored (grown c k v q)) es
  unfolding new_node
  Stored-grown c k q v [] out h = tt
  Stored-grown c k q v (e ∷ es) out ((key, val, mapped, small), h) = (
    (ground arith, ground arith, ground (arith, lookup-insert e.key k c.fresh c.mp), omega arith),
    Stored-grown c k q v es (ground arith) h,
  )

  new_node-IsRing :
      (h : Nodes V) (k n : ℕ) (v : V) (xs : List ℕ)
      → IsRing h xs
      → has n (0 ∷ xs) ≡ false
      → IsRing (new_node k v h n) xs
  unfolding new_node
  new_node-IsRing h k n v xs r out = record {
    linked =
        Linked-update_next _ _ n none 0 0 xs out
          (Linked-update_prev _ _ n none 0 0 xs out r.linked);
    distinct = r.distinct;
  }

  Represents-grown :
      (c : Cache V) (es : List (Entry V)) (k q : ℕ) (v : V)
      → Represents c es
      → length es < c.max_len
      → has k (keys es) ≡ false
      → IsRing (fronted (new_node k v c.nodes c.fresh) c.fresh q) (c.fresh ∷ addrs es)
      → Represents (grown c k v q) (record { addr = c.fresh; key = k; val = v } ∷ es)
  unfolding new_node
  Represents-grown c es k q v r room out ring =
      let missing = r.absent k out in
      record {
        ring = ring;
        stored = (
          (ground arith, ground arith, ground (arith, lookup-insert k k c.fresh c.mp), omega arith),
          Stored-grown c k q v es out r.stored,
        );
        distinct = (out, r.distinct);
        absent = λ j gone. ground (arith, lookup-insert j k c.fresh c.mp, r.absent j);
        mapped = rw (insert_new k c.fresh c.mp missing) (has-map_keys k c.mp missing, r.mapped);
        size = rw (insert_new k c.fresh c.mp missing) (ap suc r.size);
        bounded = omega arith;
        fresh = omega arith;
      }

  -- The key is not there: a node is made for it, behind the loop that drives out the oldest.
  put_new :
      (fuel k : ℕ) (v : V) (c : Cache V) (es : List (Entry V))
      → Represents c es
      → 1 ≤ c.max_len
      → 2 ≤ fuel
      → has k (keys es) ≡ false
      → find k (view es) ≡ none
      → Puts fuel k v c es
  put_new fuel k v c es r pos enough out nothing =
      let (c', es', q, done) = evict-Evicted fuel c es r pos enough in
      let r' = done.represents in
      let missing = done.missing k out in
      let unused : has c'.fresh (0 ∷ addrs es') ≡ false =
        ground (arith, fresh-out c' es' r'.stored, r'.fresh) in
      let (p, m, ring) =
        push_front-IsRing (new_node k v c'.nodes c'.fresh) c'.fresh (addrs es')
          (new_node-IsRing c'.nodes k c'.fresh v (addrs es') r'.ring unused) unused in
      (
        grown c' k v p,
        record { addr = c'.fresh; key = k; val = v } ∷ es',
        put-absent fuel k v c c' _ (r.absent k out) q m,
        Represents-grown c' es' k p v r' (rw (done.same_len) done.room) missing ring,
        ap (λ l. (k, v) ∷ l) done.kept ∙ sym (store-absent c.max_len k v (view es) nothing),
        done.same_len,
      )

  -- `Put` returns on two rounds of its loop or more, and makes the entry the one used last: the old
  -- entry of the key is gone, and where there was none and no room was left, the entry that was not
  -- used for the longest time is. The cache may hold an entry at all.
  pub put-store :
      (fuel k : ℕ) (v : V) (c : Cache V) (es : List (Entry V))
      → Represents c es
      → 1 ≤ c.max_len
      → 2 ≤ fuel
      → (c' : Cache V) × (es' : List (Entry V)) × (put fuel k v c ≡ ok c')
        × Represents c' es'
        × (view es' ≡ store c.max_len k v (view es))
        × (c'.max_len ≡ c.max_len)
  put-store fuel k v c es r pos enough = elim (split_at k es) [
    | inl (out, nothing) ↦ put_new fuel k v c es r pos enough out nothing
    | inr (xs, e, ys, p, q, found, rest) ↦
        rw p (put_old fuel k v c xs ys e (rw p at r) q (rw p at found) (rw p at rest))
  ]
