-- ===== src/Cache/Keys.antt =====
-- The map from keys to nodes.
use edgedb_go.Common.{
  ℕ, suc, ◌==◌, ◌≡◌, refl, ap, arith, false, Bool-cases, inl, inr, if◌then◌else◌, none, some, List,
  [], ◌∷◌, length,
}
use edgedb_go.Cache.{lookup, delete, insert}
use edgedb_go.Cache.Ring.{has, Distinct}

abbrev pub map_keys : List (ℕ × ℕ) → List ℕ
map_keys [] = []
map_keys ((j, a) ∷ m) = j ∷ map_keys m

pub lookup-delete :
    (j k : ℕ) (m : List (ℕ × ℕ))
    → lookup j (delete (some k) m) ≡ (if j == k then none else lookup j m)
unfolding lookup delete
lookup-delete j k [] = ground arith
lookup-delete j k ((i, a) ∷ m) = ground (arith, lookup-delete j k m)

pub lookup-insert :
    (j k a : ℕ) (m : List (ℕ × ℕ))
    → lookup j (insert k a m) ≡ (if j == k then some a else lookup j m)
unfolding lookup insert
lookup-insert j k a m = ground (arith, lookup-delete j k m)

pub has-map_keys : (k : ℕ) (m : List (ℕ × ℕ)) → lookup k m ≡ none → has k (map_keys m) ≡ false
unfolding lookup
has-map_keys k [] e = refl
has-map_keys k ((i, a) ∷ m) e = ground (arith, has-map_keys k m)

delete-absent : (k : ℕ) (m : List (ℕ × ℕ)) → has k (map_keys m) ≡ false → delete (some k) m ≡ m
unfolding delete
delete-absent k [] e = refl
delete-absent k ((i, a) ∷ m) e = ground (arith, delete-absent k m)

has-delete :
    (j k : ℕ) (m : List (ℕ × ℕ))
    → has j (map_keys m) ≡ false
    → has j (map_keys (delete (some k) m)) ≡ false
unfolding delete
has-delete j k [] e = refl
has-delete j k ((i, a) ∷ m) e = ground (arith, has-delete j k m)

pub Distinct-delete :
    (k : ℕ) (m : List (ℕ × ℕ)) → Distinct (map_keys m) → Distinct (map_keys (delete (some k) m))
unfolding delete
Distinct-delete k [] d = tt
Distinct-delete k ((i, a) ∷ m) (out, d) = elim (Bool-cases (k == i)) [
  | inl same ↦ rw same (Distinct-delete k m d)
  | inr other ↦ rw other (has-delete i k m out, Distinct-delete k m d)
]

pub length-delete :
    (k a : ℕ) (m : List (ℕ × ℕ))
    → Distinct (map_keys m)
    → lookup k m ≡ some a
    → suc (length (delete (some k) m)) ≡ length m
unfolding lookup delete
length-delete k a [] d e = cc
length-delete k a ((i, b) ∷ m) (out, d) e = elim (Bool-cases (k == i)) [
  | inl same ↦
      let q : i ≡ k = ground arith in
      rw same (ap (λ l. suc (length l)) (delete-absent k m (rw q at out)))
  | inr other ↦ rw other (ap suc (length-delete k a m d (rw (other, lookup) at e)))
]

-- A key that is not there.
pub insert_new : (k a : ℕ) (m : List (ℕ × ℕ)) → lookup k m ≡ none → insert k a m ≡ (k, a) ∷ m
unfolding insert
insert_new k a m e = rw (delete-absent k m (has-map_keys k m e)) refl
