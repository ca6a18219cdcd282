-- ===== src/Cache/Eviction.antt =====
-- The loop of `Put` drives out the entry that was not used for the longest time, in one round.
use edgedb_go.Common.{
  ℕ, zero, suc, ◌-◌, ◌≤◌, ◌<◌, ◌==◌, leb, ◌≡◌, ◌⊎◌, inl, inr, refl, sym, ap, ◌∙◌, arith, true,
  false, Bool-cases, ok, Option, none, some, List, [], ◌∷◌, ◌++◌, length, length-append, take,
  take-ge, take-length-append, append-nil,
}
use edgedb_go.Cache.{Nodes, Cache, update, delete, remove, evict}
use edgedb_go.Cache.Ring.{
  has, has-append, last_or-append, Linked-prev, Linked-update_next, Linked-update_prev,
  has-append_front,
}
use edgedb_go.Cache.Keys.{lookup-delete, Distinct-delete, length-delete}
use edgedb_go.Cache.Pointers.{IsRing, joined, bypass-IsRing}
use edgedb_go.Cache.Recency.{
  Entry, view, addrs, keys, All, addrs-append, keys-append, All-front, has-front, Distinct-front,
}
use edgedb_go.Cache.Refinement.{Stored, Represents}

module _ {V : Type 0} where
  abbrev removed : Nodes V → ℕ → ℕ → ℕ → Nodes V
  removed h n p q = record h {
    next = update (update h.next p (some q)) n none;
    prev = update (update h.prev q (some p)) n none;
  }

  remove-IsRing :
      (h : Nodes V) (n : ℕ) (xs : List ℕ)
      → IsRing h (xs ++ (n ∷ []))
      → (p : ℕ) × (q : ℕ) × (remove n h ≡ ok (removed h n p q)) × IsRing (removed h n p q) xs
  unfolding remove
  remove-IsRing h n xs r =
      let (p, q, b, r') = bypass-IsRing h n xs [] r in
      let ring : IsRing (joined h p q) xs = rw append-nil at r' in
      let d = Distinct-front n xs [] r.distinct.1 in
      let zero_out : has 0 (n ∷ (xs ++ [])) ≡ false = has-front 0 n xs [] ∙ r.distinct.0 in
      let out : has n (0 ∷ xs) ≡ false = ground (arith, has-append_front n xs []) in
      (
        p,
        q,
        rw b refl,
        record {
          linked =
              Linked-update_next _ _ n none 0 0 xs out
                (Linked-update_prev _ _ n none 0 0 xs out ring.linked);
          distinct = ring.distinct;
        },
      )

  abbrev without : Cache V → ℕ → Nodes V → Cache V
  without c k h = record c { mp = delete (some k) c.mp; nodes = h }

  Stored-without :
      (c : Cache V) (k n p q : ℕ) (es : List (Entry V))
      → has k (keys es) ≡ false
      → All (Stored c) es
      → All (Stored (without c k (removed c.nodes n p q))) es
  Stored-without c k n p q [] out h = tt
  Stored-without c k n p q (e ∷ es) out ((key, val, mapped, small), h) = (
    (key, val, ground (arith, lookup-delete e.key k c.mp), small),
    Stored-without c k n p q es (ground arith) h,
  )

  -- The oldest entry is gone.
  Represents-without :
      (c : Cache V) (xs : List (Entry V)) (e : Entry V) (p q : ℕ)
      → Represents c (xs ++ (e ∷ []))
      → IsRing (removed c.nodes e.addr p q) (addrs xs)
      → Represents (without c e.key (removed c.nodes e.addr p q)) xs
  Represents-without c xs e p q r ring =
      let stored = All-front (Stored c) xs [] e r.stored in
      let d = Distinct-front e.key (keys xs) [] (rw keys-append at r.distinct) in
      let out : has e.key (keys xs) ≡ false = rw append-nil at d.0 in
      let shorter : length (xs ++ (e ∷ [])) ≡ suc (length xs) =
        omega (arith, length-append xs (e ∷ [])) in
      record {
        ring = ring;
        stored = Stored-without c e.key e.addr p q xs out (rw append-nil at stored.1);
        distinct = rw append-nil at d.1;
        absent = λ k gone. elim (Bool-cases (k == e.key)) [
          | inl same ↦ rw (lookup-delete, same) refl
          | inr other ↦
              rw (lookup-delete, other)
                (r.absent k (rw (keys-append, has-append, gone, other) refl))
        ];
        mapped = Distinct-delete e.key c.mp r.mapped;
        size = omega (arith, length-delete e.key e.addr c.mp r.mapped stored.0.2, r.size);
        bounded = omega (arith, r.bounded);
        fresh = r.fresh;
      }

  -- A list is empty or has a last entry.
  last_entry :
      (es : List (Entry V))
      → (es ≡ []) ⊎ ((xs : List (Entry V)) × (e : Entry V) × (es ≡ xs ++ (e ∷ [])))
  last_entry [] = inl refl
  last_entry (e ∷ es) = elim (last_entry es) [
    | inl none_left ↦ inr ([], e, ap (λ l. e ∷ l) none_left)
    | inr (xs, x, p) ↦ inr (e ∷ xs, x, ap (λ l. e ∷ l) p)
  ]

  -- What the loop leaves: room for one more, and the entries but for the oldest if there was none.
  pub record Evicted (c c' : Cache V) (es es' : List (Entry V)) : Type 0 where
    pub represents : Represents c' es'
    pub kept : view es' ≡ take (c.max_len - 1) (view es)
    pub room : length es' < c.max_len
    pub same_len : c'.max_len ≡ c.max_len
    pub missing : (k : ℕ) → has k (keys es) ≡ false → has k (keys es') ≡ false

  length-view : (es : List (Entry V)) → length (view es) ≡ length es
  length-view [] = refl
  length-view (e ∷ es) = ap suc (length-view es)

  view-append : (xs ys : List (Entry V)) → view (xs ++ ys) ≡ view xs ++ view ys
  view-append [] ys = refl
  view-append (x ∷ xs) ys = ap (λ t. (x.key, x.val) ∷ t) (view-append xs ys)

  evict-room : (fuel : ℕ) (c : Cache V) → length c.mp < c.max_len → evict (suc fuel) c ≡ ok c
  unfolding evict
  evict-room fuel c h = ground arith

  evict-full :
      (fuel n : ℕ) (c : Cache V) (h : Nodes V) (k : Option ℕ)
      → c.max_len ≤ length c.mp
      → c.nodes.prev 0 ≡ some n
      → c.nodes.key n ≡ k
      → remove n c.nodes ≡ ok h
      → evict (suc fuel) c ≡ evict fuel (record c { mp = delete k c.mp; nodes = h })
  unfolding evict
  evict-full fuel n c h k full oldest key gone =
      let t : leb c.max_len (length c.mp) ≡ true = ground arith in
      rw (t, oldest) (rw (gone, key) refl)

  take-all_but_last :
      (n : ℕ) (xs : List (Entry V)) (e : Entry V)
      → length xs ≡ n
      → take n (view (xs ++ (e ∷ []))) ≡ view xs
  take-all_but_last n xs e h =
      rw (view-append, ← h, ← length-view xs) (take-length-append (view xs) (view (e ∷ [])))

  -- With no room the first round drives out the last entry, and the second ends the loop.
  evict-last :
      (fuel : ℕ) (c : Cache V) (xs : List (Entry V)) (e : Entry V)
      → Represents c (xs ++ (e ∷ []))
      → c.max_len ≤ length c.mp
      → (c' : Cache V) × (evict (suc (suc fuel)) c ≡ ok c') × Evicted c c' (xs ++ (e ∷ [])) xs
  evict-last fuel c xs e r full =
      let stored = All-front (Stored c) xs [] e r.stored in
      let ring : IsRing c.nodes (addrs xs ++ (e.addr ∷ [])) = rw addrs-append at r.ring in
      let (p, q, gone, ring') = remove-IsRing c.nodes e.addr (addrs xs) ring in
      let c' : Cache V = without c e.key (removed c.nodes e.addr p q) in
      let next : Represents c' xs = Represents-without c xs e p q r ring' in
      let shorter : length (xs ++ (e ∷ [])) ≡ suc (length xs) =
        omega (arith, length-append xs (e ∷ [])) in
      (
        c',
        evict-full (suc fuel) e.addr c (removed c.nodes e.addr p q) (some e.key) full
              (Linked-prev c.nodes.next c.nodes.prev 0 0 (addrs xs ++ (e.addr ∷ [])) ring.linked
                ∙ ap some (last_or-append 0 e.addr (addrs xs)))
              stored.0.0 gone
            ∙ evict-room fuel c' (omega (arith, next.size, r.bounded)),
        record {
          represents = next;
          kept =
              sym (take-all_but_last (c.max_len - 1) xs e (omega (arith, r.bounded, r.size, full)));
          room = omega (arith, r.bounded);
          same_len = refl;
          missing = λ k out. has-append_front k (keys xs) (keys (e ∷ [])) (rw keys-append at out);
        },
      )

  -- The loop ends within two rounds where the cache may hold an entry at all.
  pub evict-Evicted :
      (fuel : ℕ) (c : Cache V) (es : List (Entry V))
      → Represents c es
      → 1 ≤ c.max_len
      → 2 ≤ fuel
      → (c' : Cache V) × (es' : List (Entry V)) × (evict fuel c ≡ ok c') × Evicted c c' es es'
  evict-Evicted zero c es r pos enough = absurd (omega arith)
  evict-Evicted (suc zero) c es r pos enough = absurd (omega arith)
  evict-Evicted (suc (suc fuel)) c es r pos enough =
      elim (Bool-cases (leb c.max_len (length c.mp))) [
        | inr small ↦ (
          c,
          es,
          evict-room (suc fuel) c (ground arith),
          record {
            represents = r;
            kept = sym (
                take-ge (c.max_len - 1) (view es)
                  (omega (arith, length-view es, r.size, few small)));
            room = omega (arith, r.size, few small);
            same_len = refl;
            missing = λ k h. h;
          },
        )
        | inl full ↦ elim (last_entry es) [
          | inl empty ↦ absurd (omega (arith, r.size, many full, ap length empty))
          | inr (xs, e, p) ↦ at_split (many full) xs e p
        ]
      ]
    where
      few : leb c.max_len (length c.mp) ≡ false → length c.mp < c.max_len
      few h = ground arith

      many : leb c.max_len (length c.mp) ≡ true → c.max_len ≤ length c.mp
      many h = ground arith

      at_split :
          c.max_len ≤ length c.mp
          → (xs : List (Entry V)) (e : Entry V) → es ≡ xs ++ (e ∷ [])
          → (c' : Cache V) × (es' : List (Entry V)) × (evict (suc (suc fuel)) c ≡ ok c')
            × Evicted c c' es es'
      at_split full xs e p =
          let (c', q, done) = evict-last fuel c xs e (rw p at r) full in (c', xs, q, rw p done)
