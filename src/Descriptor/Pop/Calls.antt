-- ===== src/Descriptor/Pop/Calls.antt =====
-- The calls of a round of `Pop` come to an end and leave no more bytes than there were.
use edgedb_go.Common.{
  ℕ, zero, suc, ◌+◌, ◌*◌, ◌≤◌, ◌==◌, ◌≡◌, refl, arith, ltb, Outcome, ok, err, panic, blocked, ◌>>=◌,
  lift, NoError, Bool-cases, inl, inr, List, length, length-drop,
}
use edgedb_go.Buff.Reader
use edgedb_go.Buff.Reader.{
  Reader, pop_word, pop_uint8, pop_uint16, pop_uint32, pop_uuid, pop_bytes, discard,
}
use edgedb_go.Descriptor.{
  Descriptor, Popped, PopError, out_of_fuel, at, pop_position, cardinality, assert_array_dimensions,
  discard_enum_member_names, discard_names,
}
use edgedb_go.Descriptor.Version.{ProtocolVersion, gte}
use edgedb_go.Descriptor.Pop.{
  pop_required, object_field_loop, tuple_field_loop, named_tuple_field_loop,
}

-- The call does not run out of fuel, and its result has the property if there is one.
abbrev pub Ends : {A : Type 0} → Popped A → (A → Type 0) → Type 0
Ends (ok a) P = P a
Ends (err out_of_fuel) P = ⊥
Ends (err _) P = Unit
Ends _ P = Unit

pub >>=-Ends :
    {A B : Type 0} (m : Popped A) (k : A → Popped B) (P : A → Type 0) (Q : B → Type 0)
    → Ends m P
    → ((a : A) → P a → Ends (k a) Q)
    → Ends (m >>= k) Q
>>=-Ends (ok a) k P Q h f = f a h
>>=-Ends (err out_of_fuel) k P Q h f = absurd h
>>=-Ends (err e) k P Q h f = tt
>>=-Ends panic k P Q h f = tt
>>=-Ends blocked k P Q h f = tt

-- No more bytes are left than before.
abbrev pub Shorter : {A : Type 0} → ℕ → A × Reader → Type 0
Shorter n p = length p.1.buf ≤ n

pop-Ends :
    (n : ℕ) (r : Reader) → Ends (lift (Reader.pop n r)) (λ p. length p.1.buf + n ≤ length r.buf)
unfolding Reader.pop
pop-Ends n r = elim (Bool-cases (ltb (length r.buf) n)) [
  | inl short ↦ rw short tt
  | inr long ↦ rw long (omega (arith, length-drop n r.buf (ground arith)))
]

pub discard-Ends :
    (n : ℕ) (r : Reader) → Ends (lift (discard n r)) (λ r'. length r'.buf ≤ length r.buf)
unfolding discard
discard-Ends n r = elim (Bool-cases (ltb (length r.buf) n)) [
  | inl short ↦ rw short tt
  | inr long ↦ rw long (omega (arith, length-drop n r.buf (ground arith)))
]

pub Ends-mono :
    {A : Type 0} (m : Popped A) (P Q : A → Type 0) → Ends m P → ((a : A) → P a → Q a) → Ends m Q
Ends-mono (ok a) P Q h f = f a h
Ends-mono (err out_of_fuel) P Q h f = absurd h
Ends-mono (err e) P Q h f = tt
Ends-mono panic P Q h f = tt
Ends-mono blocked P Q h f = tt

-- A call that leaves no more than it had, and one more such call.
pub chain :
    {A B : Type 0} (n : ℕ) (m : Popped (A × Reader)) (k : A × Reader → Popped (B × Reader))
    → Ends m (Shorter n)
    → ((a : A) (r : Reader) → Ends (k (a, r)) (Shorter (length r.buf)))
    → Ends (m >>= k) (Shorter n)
chain n m k h f = >>=-Ends m k (Shorter n) (Shorter n) h (λ p shorter.
    Ends-mono (k p) (Shorter (length p.1.buf)) (Shorter n) (f p.0 p.1) (λ q shorter'. omega arith))

-- The same for a call that leaves a reader only.
pub chain_reader :
    {B : Type 0} (n : ℕ) (m : Popped Reader) (k : Reader → Popped (B × Reader))
    → Ends m (λ r. length r.buf ≤ n)
    → ((r : Reader) → Ends (k r) (Shorter (length r.buf)))
    → Ends (m >>= k) (Shorter n)
chain_reader n m k h f =
    >>=-Ends m k (λ r. length r.buf ≤ n) (Shorter n) h
      (λ r shorter.
        Ends-mono (k r) (Shorter (length r.buf)) (Shorter n) (f r) (λ q shorter'. omega arith))

pub word-Ends :
    (n : ℕ) (r : Reader) → Ends (lift (pop_word n r)) (λ p. length p.1.buf + n ≤ length r.buf)
unfolding pop_word Reader.pop
word-Ends n r = elim (Bool-cases (ltb (length r.buf) n)) [
  | inl short ↦ rw short tt
  | inr long ↦ rw long (omega (arith, length-drop n r.buf (ground arith)))
]

pub uint8-Ends : (r : Reader) → Ends (lift (pop_uint8 r)) (λ p. length p.1.buf + 1 ≤ length r.buf)
unfolding pop_uint8
uint8-Ends r = word-Ends 1 r

pub byte-Ends : (r : Reader) → Ends (lift (pop_uint8 r)) (Shorter (length r.buf))
byte-Ends r =
    Ends-mono (lift (pop_uint8 r)) _ (Shorter (length r.buf)) (uint8-Ends r) (λ p h. omega arith)

pub uint16-Ends : (r : Reader) → Ends (lift (pop_uint16 r)) (Shorter (length r.buf))
unfolding pop_uint16
uint16-Ends r =
    Ends-mono (lift (pop_uint16 r)) _ (Shorter (length r.buf)) (word-Ends 2 r) (λ p h. omega arith)

pub uuid-Ends : (r : Reader) → Ends (lift (pop_uuid r)) (Shorter (length r.buf))
unfolding pop_uuid
uuid-Ends r =
    Ends-mono (lift (pop_uuid r)) _ (Shorter (length r.buf)) (pop-Ends 16 r) (λ p h. omega arith)

lift-bind :
    {A B : Type 0} (m : Outcome NoError A) (k : A → Outcome NoError B)
    → lift {E = PopError} (m >>= k) ≡ (lift m >>= λ a. lift (k a))
lift-bind (ok a) k = refl
lift-bind (err e) k = elim e [ ]
lift-bind panic k = refl
lift-bind blocked k = refl

pub bytes-Ends : (r : Reader) → Ends (lift (pop_bytes r)) (Shorter (length r.buf))
unfolding pop_bytes pop_uint32
bytes-Ends r = rw (lift-bind (pop_word 4 r) (λ p. Reader.pop p.0 p.1)) (
    chain (length r.buf) (lift (pop_word 4 r)) _
      (Ends-mono _ _ (Shorter (length r.buf)) (word-Ends 4 r) (λ p h. omega arith))
      (λ n r'. Ends-mono _ _ (Shorter (length r'.buf)) (pop-Ends n r') (λ p h. omega arith)))

at-Ends : {A : Type 0} (ds : List A) (i : ℕ) → Ends (at ds i) (λ d. Unit)
unfolding at
at-Ends ds i = ground arith

pub position-Ends :
    {A : Type 0} (ds : List A) (r : Reader) → Ends (pop_position ds r) (Shorter (length r.buf))
unfolding pop_position
position-Ends ds r = chain (length r.buf) (lift (pop_uint16 r)) _ (uint16-Ends r) (λ i r'.
    >>=-Ends (at ds i) _ (λ d. Unit) (Shorter (length r'.buf)) (at-Ends ds i) (λ d u. omega arith))

pub cardinality-Ends : (card : ℕ) → Ends (cardinality card) (λ b. Unit)
unfolding cardinality
cardinality-Ends card = ground arith

required-Ends :
    (version : ProtocolVersion) (r : Reader)
    → Ends (pop_required version r) (Shorter (length r.buf))
unfolding pop_required
required-Ends version r = elim (Bool-cases (gte version (record { major = 0; minor = 11 }))) [
  | inl new ↦ rw new (
      chain_reader (length r.buf) (lift (discard 4 r)) _ (discard-Ends 4 r) (λ r₁.
        chain (length r₁.buf) (lift (pop_uint8 r₁)) _ (byte-Ends r₁) (λ card r₂.
          >>=-Ends (cardinality card) _ (λ b. Unit) (Shorter (length r₂.buf))
            (cardinality-Ends card) (λ b u. omega arith))))
  | inr old ↦
      rw old
        (chain_reader (length r.buf) (lift (discard 1 r)) _ (discard-Ends 1 r) (λ r₁. omega arith))
]

pub object_loop-Ends :
    (version : ProtocolVersion) (ds : List Descriptor) (n : ℕ) (r : Reader)
    → Ends (object_field_loop version ds n r) (Shorter (length r.buf))
unfolding object_field_loop
object_loop-Ends version ds zero r = omega arith
object_loop-Ends version ds (suc n) r =
    chain (length r.buf) (pop_required version r) _ (required-Ends version r) (λ required r₁.
      chain (length r₁.buf) (lift (pop_bytes r₁)) _ (bytes-Ends r₁) (λ name r₂.
        chain (length r₂.buf) (pop_position ds r₂) _ (position-Ends ds r₂) (λ d r₃.
          chain (length r₃.buf) (object_field_loop version ds n r₃) _
            (object_loop-Ends version ds n r₃) (λ fields r₄. omega arith))))

pub tuple_loop-Ends :
    (ds : List Descriptor) (n i : ℕ) (r : Reader)
    → Ends (tuple_field_loop ds n i r) (Shorter (length r.buf))
unfolding tuple_field_loop
tuple_loop-Ends ds zero i r = omega arith
tuple_loop-Ends ds (suc n) i r =
    chain (length r.buf) (pop_position ds r) _ (position-Ends ds r) (λ d r₁.
      chain (length r₁.buf) (tuple_field_loop ds n (i + 1) r₁) _ (tuple_loop-Ends ds n (i + 1) r₁)
        (λ fields r₂. omega arith))

pub named_loop-Ends :
    (ds : List Descriptor) (n : ℕ) (r : Reader)
    → Ends (named_tuple_field_loop ds n r) (Shorter (length r.buf))
unfolding named_tuple_field_loop
named_loop-Ends ds zero r = omega arith
named_loop-Ends ds (suc n) r =
    chain (length r.buf) (lift (pop_bytes r)) _ (bytes-Ends r) (λ name r₁.
      chain (length r₁.buf) (pop_position ds r₁) _ (position-Ends ds r₁) (λ d r₂.
        chain (length r₂.buf) (named_tuple_field_loop ds n r₂) _ (named_loop-Ends ds n r₂)
          (λ fields r₃. omega arith)))

pub dimensions-Ends :
    (r : Reader) → Ends (assert_array_dimensions r) (λ r'. length r'.buf ≤ length r.buf)
unfolding assert_array_dimensions
dimensions-Ends r =
    >>=-Ends (lift (pop_uint16 r)) _ (Shorter (length r.buf)) (λ r'. length r'.buf ≤ length r.buf)
      (uint16-Ends r)
      (λ p h. elim (Bool-cases (p.0 == 0)) [
        | inl none_there ↦ rw none_there tt
        | inr some_there ↦ rw some_there (
            Ends-mono (lift (discard (4 * p.0) p.1)) _ (λ r'. length r'.buf ≤ length r.buf)
              (discard-Ends (4 * p.0) p.1) (λ r' h'. omega arith))
      ])

names-Ends : (n : ℕ) (r : Reader) → Ends (discard_names n r) (λ r'. length r'.buf ≤ length r.buf)
unfolding discard_names
names-Ends zero r = omega arith
names-Ends (suc n) r =
    >>=-Ends (lift (pop_bytes r)) _ (Shorter (length r.buf)) (λ r'. length r'.buf ≤ length r.buf)
      (bytes-Ends r)
      (λ p h.
        Ends-mono (discard_names n p.1) _ (λ r'. length r'.buf ≤ length r.buf) (names-Ends n p.1)
          (λ r' h'. omega arith))

pub enum-Ends :
    (r : Reader) → Ends (discard_enum_member_names r) (λ r'. length r'.buf ≤ length r.buf)
unfolding discard_enum_member_names
enum-Ends r =
    >>=-Ends (lift (pop_uint16 r)) _ (Shorter (length r.buf)) (λ r'. length r'.buf ≤ length r.buf)
      (uint16-Ends r)
      (λ p h.
        Ends-mono (discard_names p.0 p.1) _ (λ r'. length r'.buf ≤ length r.buf)
          (names-Ends p.0 p.1) (λ r' h'. omega arith))
