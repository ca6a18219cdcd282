-- ===== src/Cache/Ring.antt =====
-- Rings of nodes that are linked in both directions, and what taking a node out and putting one in
-- front does to them.
use edgedb_go.Common.{
  ℕ, ◌==◌, ◌≡◌, ◌≢◌, refl, arith, Bool, false, ◌||◌, Option, some, List, [], ◌∷◌, ◌++◌,
}
use edgedb_go.Cache.{update}

abbrev pub has : ℕ → List ℕ → Bool
has a [] = false
has a (b ∷ ys) = (a == b) || has a ys

abbrev pub Distinct : List ℕ → Type 0
Distinct [] = Unit
Distinct (a ∷ xs) = (has a xs ≡ false) × Distinct xs

-- From `a` through `xs` to `z`, by `nx` forwards and by `pv` backwards.
abbrev pub Linked : (ℕ → Option ℕ) → (ℕ → Option ℕ) → ℕ → List ℕ → ℕ → Type 0
Linked nx pv a [] z = (nx a ≡ some z) × (pv z ≡ some a)
Linked nx pv a (b ∷ ys) z = (nx a ≡ some b) × (pv b ≡ some a) × Linked nx pv b ys z

-- The first of `xs`, or `z`, and the last of `xs`, or `a`.
abbrev pub first_or : List ℕ → ℕ → ℕ
first_or [] z = z
first_or (b ∷ ys) z = b

abbrev pub last_or : ℕ → List ℕ → ℕ
last_or a [] = a
last_or a (b ∷ ys) = last_or b ys

pub has-append : (a : ℕ) (ys zs : List ℕ) → has a (ys ++ zs) ≡ (has a ys || has a zs)
has-append a [] zs = refl
has-append a (b ∷ ys) zs = ground (arith, has-append a ys zs)

pub Linked-append :
    (nx pv : ℕ → Option ℕ) (a b z : ℕ) (xs ys : List ℕ)
    → Linked nx pv a (xs ++ (b ∷ ys)) z
    → Linked nx pv a xs b × Linked nx pv b ys z
Linked-append nx pv a b z [] ys (p, q, l) = ((p, q), l)
Linked-append nx pv a b z (c ∷ xs) ys (p, q, l) =
    let (l₁, l₂) = Linked-append nx pv c b z xs ys l in ((p, q, l₁), l₂)

pub Linked-next :
    (nx pv : ℕ → Option ℕ) (a z : ℕ) (xs : List ℕ)
    → Linked nx pv a xs z
    → nx a ≡ some (first_or xs z)
Linked-next nx pv a z [] (p, q) = p
Linked-next nx pv a z (b ∷ xs) (p, q, l) = p

pub Linked-prev :
    (nx pv : ℕ → Option ℕ) (a z : ℕ) (xs : List ℕ)
    → Linked nx pv a xs z
    → pv z ≡ some (last_or a xs)
Linked-prev nx pv a z [] (p, q) = q
Linked-prev nx pv a z (b ∷ xs) (p, q, l) = Linked-prev nx pv b z xs l

-- A pointer of an address outside does not matter.
pub Linked-update_next :
    (nx pv : ℕ → Option ℕ) (n : ℕ) (v : Option ℕ) (a z : ℕ) (xs : List ℕ)
    → has n (a ∷ xs) ≡ false
    → Linked nx pv a xs z
    → Linked (update nx n v) pv a xs z
Linked-update_next nx pv n v a z [] out (p, q) = ground arith
Linked-update_next nx pv n v a z (b ∷ xs) out (p, q, l) =
    (ground arith, q, Linked-update_next nx pv n v b z xs (ground arith) l)

pub Linked-update_prev :
    (nx pv : ℕ → Option ℕ) (n : ℕ) (v : Option ℕ) (a z : ℕ) (xs : List ℕ)
    → has n (z ∷ xs) ≡ false
    → Linked nx pv a xs z
    → Linked nx (update pv n v) a xs z
Linked-update_prev nx pv n v a z [] out (p, q) = ground arith
Linked-update_prev nx pv n v a z (b ∷ xs) out (p, q, l) =
    (p, ground arith, Linked-update_prev nx pv n v b z xs (ground arith) l)

pub last_or-ne : (x a : ℕ) (xs : List ℕ) → has x (a ∷ xs) ≡ false → last_or a xs ≢ x
last_or-ne x a [] out = ground arith
last_or-ne x a (b ∷ xs) out = last_or-ne x b xs (ground arith)

pub has-append_front : (x : ℕ) (xs ys : List ℕ) → has x (xs ++ ys) ≡ false → has x xs ≡ false
has-append_front x [] ys out = refl
has-append_front x (y ∷ xs) ys out = ground (arith, has-append_front x xs ys)

pub has-append_back : (x : ℕ) (xs ys : List ℕ) → has x (xs ++ ys) ≡ false → has x ys ≡ false
has-append_back x [] ys out = out
has-append_back x (y ∷ xs) ys out = has-append_back x xs ys (ground arith)

pub first_or-ne : (x z : ℕ) (ys : List ℕ) → has x (z ∷ ys) ≡ false → first_or ys z ≢ x
first_or-ne x z [] out = ground arith
first_or-ne x z (b ∷ ys) out = ground arith

-- The neighbours of `n` are joined.
pub Linked-bypass :
    (nx pv : ℕ → Option ℕ) (n a z : ℕ) (xs ys : List ℕ)
    → Linked nx pv a xs n
    → Linked nx pv n ys z
    → has a (xs ++ ys) ≡ false
    → has z (xs ++ ys) ≡ false
    → Distinct (xs ++ ys)
    → Linked
        (update nx (last_or a xs) (some (first_or ys z)))
        (update pv (first_or ys z) (some (last_or a xs)))
        a
        (xs ++ ys)
        z
Linked-bypass nx pv n a z [] [] l r fa fz d = ground arith
Linked-bypass nx pv n a z [] (b ∷ ys) l (p, q, r) fa fz d = (
  ground arith,
  ground arith,
  Linked-update_next nx (update pv b (some a)) a (some b) b z ys fa
      (Linked-update_prev nx pv b (some a) b z ys (ground arith) r),
)
Linked-bypass nx pv n a z (c ∷ xs) ys (p, q, l) r fa fz d =
    let p' : last_or c xs ≢ a = last_or-ne a c xs (ground (arith, has-append_front a xs ys)) in
    let q' : first_or ys z ≢ c = first_or-ne c z ys (ground (arith, has-append_back c xs ys)) in
    (ground arith, ground arith, Linked-bypass nx pv n c z xs ys l r d.0 (ground arith) d.1)

-- A new node right behind `a`.
pub Linked-push_front :
    (nx pv : ℕ → Option ℕ) (n a : ℕ) (xs : List ℕ)
    → Linked nx pv a xs a
    → has n (a ∷ xs) ≡ false
    → Distinct (a ∷ xs)
    → Linked
        (update (update nx n (nx a)) a (some n))
        (update (update pv n (some a)) (first_or xs a) (some n))
        a
        (n ∷ xs)
        a
Linked-push_front nx pv n a [] (p, q) out d = ground arith
Linked-push_front nx pv n a (b ∷ xs) (p, q, l) out d =
    let l' = Linked-update_next _ _ a (some n) b a xs d.0 (
      Linked-update_next _ _ n (nx a) b a xs (ground arith) (
        Linked-update_prev _ _ b (some n) b a xs (ground arith)
          (Linked-update_prev _ _ n (some a) b a xs (ground arith) l))) in
    (ground arith, ground arith, (ground arith, ground arith, l'))

pub last_or-append : (a b : ℕ) (xs : List ℕ) → last_or a (xs ++ (b ∷ [])) ≡ b
last_or-append a b [] = refl
last_or-append a b (x ∷ xs) = last_or-append x b xs
