-- ===== src/Cache.antt =====
-- internal/cache/cache.go: a least recently used cache. The nodes are a heap: an address is a number,
-- the address 0 is that of the field `root`, and nil is `none`. A call of a method runs while it holds
-- the mutex, so calls come one after the other.
pub mod Ring
pub mod Keys
pub mod Pointers
pub mod Recency
pub mod Refinement
pub mod Eviction
pub mod Storing
pub mod History
use edgedb_go.Common.{
  ℕ, zero, suc, ◌+◌, ◌==◌, leb, if◌then◌else◌, Outcome, ok, err, panic, ◌>>=◌, Option, none, some,
  List, [], ◌∷◌, length,
}

-- The fields of the nodes, each as a function of the address. A key is named by a number; that of
-- `root` is the nil interface.
pub record Nodes (V : Type 0) : Type 0 where
  pub key : ℕ → Option ℕ
  pub val : ℕ → Option V
  pub prev : ℕ → Option ℕ
  pub next : ℕ → Option ℕ

-- `cap` is `max_len` here; `mp` holds each key once. `fresh` is the address of the next new node.
pub record Cache (V : Type 0) : Type 0 where
  pub max_len : ℕ
  pub mp : List (ℕ × ℕ)
  pub nodes : Nodes V
  pub fresh : ℕ

-- The loop of `Put` runs on fuel.
pub data OutOfFuel : Type 0 where
  out_of_fuel : OutOfFuel

abbrev pub Run : Type 0 → Type 0
Run A = Outcome OutOfFuel A

abbrev pub update {ℓ} : {A : Type ℓ} → (ℕ → A) → ℕ → A → ℕ → A
update f a v b = if b == a then v else f b

-- The built-in map.
pub lookup : ℕ → List (ℕ × ℕ) → Option ℕ
lookup k [] = none
lookup k ((j, a) ∷ m) = if k == j then some a else lookup k m

pub delete : Option ℕ → List (ℕ × ℕ) → List (ℕ × ℕ)
delete none m = m
delete (some k) [] = []
delete (some k) ((j, a) ∷ m) = if k == j then delete (some k) m else (j, a) ∷ delete (some k) m

pub insert : ℕ → ℕ → List (ℕ × ℕ) → List (ℕ × ℕ)
unfolding delete
insert k a m = (k, a) ∷ delete (some k) m

-- A field of nil is a panic.
abbrev pub deref : Option ℕ → Run ℕ
deref none = panic
deref (some a) = ok a

module _ {V : Type 0} where
  abbrev pub new_cache : ℕ → Cache V
  new_cache max_len = record {
    max_len = max_len;
    mp = [];
    nodes = record {
      key = λ a. none;
      val = λ a. none;
      prev = update (λ a. none) 0 (some 0);
      next = update (λ a. none) 0 (some 0);
    };
    fresh = 1;
  }

  unfoldable pub invalidate : Cache V → Cache V
  invalidate c = record c {
    mp = [];
    nodes = record c.nodes {
      prev = update c.nodes.prev 0 (some 0);
      next = update c.nodes.next 0 (some 0);
    };
  }

  abbrev pub set_prev : ℕ → Option ℕ → Nodes V → Nodes V
  set_prev a p h = record h { prev = update h.prev a p }

  abbrev pub set_next : ℕ → Option ℕ → Nodes V → Nodes V
  set_next a p h = record h { next = update h.next a p }

  -- `n.prev.next = n.next` and `n.next.prev = n.prev`
  unfoldable pub bypass : ℕ → Nodes V → Run (Nodes V)
  bypass n h = do
    p ← deref (h.prev n)
    let h₁ = set_next p (h.next n) h
    q ← deref (h₁.next n)
    ok (set_prev q (h₁.prev n) h₁)

  unfoldable pub push_front : ℕ → Nodes V → Run (Nodes V)
  push_front n h = do
    let h₁ = set_prev n (some 0) h
    let h₂ = set_next n (h₁.next 0) h₁
    p ← deref (h₂.prev n)
    let h₃ = set_next p (some n) h₂
    q ← deref (h₃.next n)
    ok (set_prev q (some n) h₃)

  unfoldable pub move_to_front : ℕ → Nodes V → Run (Nodes V)
  unfolding bypass push_front
  move_to_front n h = do h' ← bypass n h; push_front n h'

  unfoldable pub remove : ℕ → Nodes V → Run (Nodes V)
  unfolding bypass
  remove n h = do h' ← bypass n h; ok (set_next n none (set_prev n none h'))

  -- `Get`
  get_found : Option ℕ → Cache V → Run (Option V × Cache V)
  unfolding move_to_front
  get_found none c = ok (none, c)
  get_found (some n) c = do h ← move_to_front n c.nodes; ok (h.val n, record c { nodes = h })

  unfoldable pub get : ℕ → Cache V → Run (Option V × Cache V)
  unfolding get_found lookup
  get id c = get_found (lookup id c.mp) c

  -- The loop of `Put`.
  unfoldable pub evict : ℕ → Cache V → Run (Cache V)
  unfolding remove delete
  evict zero c = err out_of_fuel
  evict (suc fuel) c =
      let round : Run (Cache V) = (do
        oldest ← deref (c.nodes.prev 0)
        h ← remove oldest c.nodes
        evict fuel (record c { mp = delete (c.nodes.key oldest) c.mp; nodes = h })) in
      if leb c.max_len (length c.mp) then round else ok c

  -- `&node{key: key, val: val}`
  unfoldable pub new_node : ℕ → V → Nodes V → ℕ → Nodes V
  new_node k v h n = record h {
    key = update h.key n (some k);
    val = update h.val n (some v);
    prev = update h.prev n none;
    next = update h.next n none;
  }

  put_found : ℕ → ℕ → V → Option ℕ → Cache V → Run (Cache V)
  unfolding move_to_front evict new_node push_front insert
  put_found fuel k v (some n) c = do
    h ← move_to_front n (record c.nodes { val = update c.nodes.val n (some v) })
    ok (record c { nodes = h })
  put_found fuel k v none c = do
    c' ← evict fuel c
    h ← push_front c'.fresh (new_node k v c'.nodes c'.fresh)
    ok (record c' { mp = insert k c'.fresh c'.mp; nodes = h; fresh = c'.fresh + 1 })

  unfoldable pub put : ℕ → ℕ → V → Cache V → Run (Cache V)
  unfolding put_found lookup
  put fuel k v c = put_found fuel k v (lookup k c.mp) c
