-- ===== src/Buff/Reader/Reads.antt =====
-- What the methods of a reader read from the front of the buffer, for chains of calls.
use edgedb_go.Common.{
  ℕ, ◌^◌, ◌<◌, ◌≡◌, refl, ap, ◌∙◌, Outcome, NoError, ok, ◌>>=◌, lift, List, [], ◌∷◌, ◌++◌, length,
  append_assoc, append-nil, sym,
}
use edgedb_go.Common.Bytes.{be_bytes}
use edgedb_go.Buff.Reader.{pop_slice, simple_reader}
use edgedb_go.Buff.Reader.{
  Reader, pop, pop_uint8, pop_uint16, pop_uint32, pop_uint64, pop_uuid, pop_bytes, discard,
}
use edgedb_go.Buff.Reader.Words.{
  pop_lem, pop_uint8_lem, pop_uint16_lem, pop_uint32_lem, pop_uint64_lem, discard_lem,
}

-- Where the bytes `front` stand next in the buffer, the call comes to `g` of the reader behind them.
pub record Reads {E B : Type 0} (f : Reader → Outcome E B) (front : List ℕ) (g : Reader → B)
    : Type 0 where
  pub reads :
      (back : List ℕ) (r : Reader) → r.buf ≡ front ++ back → f r ≡ ok (g (record r { buf = back }))

-- The call on a message of just these bytes.
pub Reads-whole :
    {E B : Type 0} {f : Reader → Outcome E B} {g : Reader → B} {xs : List ℕ} (r : Reader)
    → Reads f xs g
    → r.buf ≡ xs
    → f r ≡ ok (g (record r { buf = [] }))
Reads-whole {xs} r p e = p.reads [] r (e ∙ sym (append-nil xs))

pub Reads-bind :
    {E B C : Type 0} {f : Reader → Outcome E B} {g : Reader → B} {h : Reader → C} {xs ys : List ℕ}
    (k : B → Outcome E C)
    → Reads f xs g
    → Reads (λ r. k (g r)) ys h
    → Reads (λ r. f r >>= k) (xs ++ ys) h
Reads-bind {xs} {ys} k p q = record {
  reads = λ back r e.
      rw (p.reads (ys ++ back) r (e ∙ append_assoc xs ys back))
        (q.reads back (record r { buf = ys ++ back }) refl);
}

pub Reads-ok : {E B : Type 0} (h : Reader → B) → Reads {E = E} (λ r. ok (h r)) [] h
Reads-ok h = record { reads = λ back r e. ap (λ b. ok (h (record r { buf = b }))) e }

-- The last call of a chain, with nothing read behind it.
pub Reads-last :
    {E B C : Type 0} {f : Reader → Outcome E B} {g : Reader → B} {xs : List ℕ} (h : B → C)
    → Reads f xs g
    → Reads (λ r. f r >>= λ b. ok (h b)) xs (λ r. h (g r))
Reads-last h p = record { reads = λ back r e. rw (p.reads back r e) refl }

-- A step that reads nothing and is known to succeed.
pub Reads-known :
    {E A C : Type 0} {m : Outcome E A} {a : A} {ys : List ℕ} {h : Reader → C}
    (k : A → Reader → Outcome E C)
    → m ≡ ok a
    → Reads (k a) ys h
    → Reads (λ r. m >>= λ x. k x r) ys h
Reads-known k q p = record { reads = λ back r e. rw q (p.reads back r e) }

-- What follows the call reads nothing.
pub Reads-then :
    {E B C : Type 0} {f : Reader → Outcome E B} {g : Reader → B} {h : Reader → C} {xs : List ℕ}
    (k : B → Outcome E C)
    → Reads f xs g
    → ((r : Reader) → k (g r) ≡ ok (h r))
    → Reads (λ r. f r >>= k) xs h
Reads-then k p q = record {
  reads = λ back r e. rw (p.reads back r e) (q (record r { buf = back }));
}

-- The bytes of a string or of an annotation.
abbrev pub text : List ℕ → List ℕ
text bytes = be_bytes 4 (length bytes) ++ bytes

pub pop_uint8-Reads : (b : ℕ) → b < 256 → Reads pop_uint8 (b ∷ []) (λ r. (b, r))
pop_uint8-Reads b h = record { reads = λ back r e. pop_uint8_lem b back r e h }

pub pop_uint16-Reads : (v : ℕ) → v < 2 ^ 16 → Reads pop_uint16 (be_bytes 2 v) (λ r. (v, r))
pop_uint16-Reads v h = record { reads = λ back r e. pop_uint16_lem v back r e h }

pub pop_uint32-Reads : (v : ℕ) → v < 2 ^ 32 → Reads pop_uint32 (be_bytes 4 v) (λ r. (v, r))
pop_uint32-Reads v h = record { reads = λ back r e. pop_uint32_lem v back r e h }

pub pop_uint64-Reads : (v : ℕ) → v < 2 ^ 64 → Reads pop_uint64 (be_bytes 8 v) (λ r. (v, r))
pop_uint64-Reads v h = record { reads = λ back r e. pop_uint64_lem v back r e h }

pub pop-Reads : (n : ℕ) (front : List ℕ) → length front ≡ n → Reads (pop n) front (λ r. (front, r))
pop-Reads n front h = record { reads = λ back r e. pop_lem n front back r e h }

pub pop_uuid-Reads : (id : List ℕ) → length id ≡ 16 → Reads pop_uuid id (λ r. (id, r))
unfolding pop_uuid
pop_uuid-Reads id h = pop-Reads 16 id h

pub pop_bytes-Reads :
    (bytes : List ℕ) → length bytes < 2 ^ 32 → Reads pop_bytes (text bytes) (λ r. (bytes, r))
unfolding pop_bytes
pop_bytes-Reads bytes h =
    Reads-bind _ (pop_uint32-Reads (length bytes) h) (pop-Reads (length bytes) bytes refl)

pub discard-Reads : (n : ℕ) (front : List ℕ) → length front ≡ n → Reads (discard n) front (λ r. r)
discard-Reads n front h = record { reads = λ back r e. discard_lem n front back r e h }

pub pop_slice-Reads :
    (n : ℕ) (front : List ℕ)
    → length front ≡ n
    → Reads (pop_slice n) front (λ r. (simple_reader front, r))
unfolding pop_slice
pop_slice-Reads n front h = Reads-last _ (pop-Reads n front h)

-- The same calls inside a function that may return an error.
pub Reads-lift :
    {E B : Type 0} {f : Reader → Outcome NoError B} {g : Reader → B} {xs : List ℕ}
    → Reads f xs g
    → Reads {E = E} (λ r. lift (f r)) xs g
Reads-lift p = record { reads = λ back r e. ap lift (p.reads back r e) }

module _ {E : Type 0} where
  pub Reads-uint8 :
      (b : ℕ) → b < 256 → Reads {E = E} (λ r. lift (pop_uint8 r)) (b ∷ []) (λ r. (b, r))
  Reads-uint8 b h = Reads-lift (pop_uint8-Reads b h)

  pub Reads-uint16 :
      (v : ℕ) → v < 2 ^ 16 → Reads {E = E} (λ r. lift (pop_uint16 r)) (be_bytes 2 v) (λ r. (v, r))
  Reads-uint16 v h = Reads-lift (pop_uint16-Reads v h)

  pub Reads-uint32 :
      (v : ℕ) → v < 2 ^ 32 → Reads {E = E} (λ r. lift (pop_uint32 r)) (be_bytes 4 v) (λ r. (v, r))
  Reads-uint32 v h = Reads-lift (pop_uint32-Reads v h)

  pub Reads-uuid :
      (id : List ℕ) → length id ≡ 16 → Reads {E = E} (λ r. lift (pop_uuid r)) id (λ r. (id, r))
  Reads-uuid id h = Reads-lift (pop_uuid-Reads id h)

  pub Reads-bytes :
      (bytes : List ℕ)
      → length bytes < 2 ^ 32
      → Reads {E = E} (λ r. lift (pop_bytes r)) (text bytes) (λ r. (bytes, r))
  Reads-bytes bytes h = Reads-lift (pop_bytes-Reads bytes h)

  pub Reads-discard :
      (n : ℕ) (front : List ℕ)
      → length front ≡ n
      → Reads {E = E} (λ r. lift (discard n r)) front (λ r. r)
  Reads-discard n front h = Reads-lift (discard-Reads n front h)
