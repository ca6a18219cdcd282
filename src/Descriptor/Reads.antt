-- ===== src/Descriptor/Reads.antt =====
-- What the calls of the two `Pop` functions read from the front of the buffer.
pub use edgedb_go.Buff.Reader.Reads.{
  Reads, Reads-bind, Reads-known, Reads-ok, Reads-last, text, Reads-uint8, Reads-uint16,
  Reads-uint32, Reads-uuid, Reads-bytes, Reads-discard,
}
use edgedb_go.Common.{
  ℕ, ◌*◌, ◌^◌, ◌<◌, ◌≡◌, ◌≢◌, refl, arith, ok, some, List, [], ◌∷◌, ◌++◌, length, length-append,
  get_elem?, ne→==,
}
use edgedb_go.Common.Bytes.{be_bytes, length-be_bytes}
use edgedb_go.Buff.Reader.Words.{pop_uint16_lem}
use edgedb_go.Descriptor.{
  at, pop_position, assert_array_dimensions, discard_enum_member_names, discard_names,
}

at_lem : {A : Type 0} (ds : List A) (i : ℕ) (d : A) → get_elem? ds i ≡ some d → at ds i ≡ ok d
unfolding at
at_lem ds i d q = rw (q, at) refl

pub Reads-position :
    {A : Type 0} (ds : List A) (i : ℕ) (d : A)
    → i < 2 ^ 16
    → get_elem? ds i ≡ some d
    → Reads (pop_position ds) (be_bytes 2 i) (λ r. (d, r))
unfolding pop_position
Reads-position ds i d h q = record {
  reads = λ back r e. rw (pop_uint16_lem i back r e h, at_lem ds i d q) refl;
}

-- The bytes of a list of words of 4 bytes, and of a list of strings.
abbrev pub words : List ℕ → List ℕ
words [] = []
words (v ∷ vs) = be_bytes 4 v ++ words vs

abbrev pub texts : List (List ℕ) → List ℕ
texts [] = []
texts (name ∷ names) = text name ++ texts names

abbrev pub AllShort : List (List ℕ) → Type 0
AllShort [] = Unit
AllShort (name ∷ names) = (length name < 2 ^ 32) × AllShort names

length-words : (vs : List ℕ) → length (words vs) ≡ 4 * length vs
length-words [] = refl
length-words (v ∷ vs) =
    omega (arith, length-append (be_bytes 4 v) (words vs), length-be_bytes 4 v, length-words vs)

pub Reads-dimensions :
    (dimensions : List ℕ)
    → length dimensions < 2 ^ 16
    → length dimensions ≢ 0
    → Reads assert_array_dimensions (be_bytes 2 (length dimensions) ++ words dimensions) (λ r. r)
unfolding assert_array_dimensions
Reads-dimensions dimensions h some_dimension = Reads-bind _ (Reads-uint16 (length dimensions) h) (
    rw (ne→== (length dimensions) 0 some_dimension)
      (Reads-discard (4 * length dimensions) (words dimensions) (length-words dimensions)))

Reads-names :
    (names : List (List ℕ))
    → AllShort names
    → Reads (discard_names (length names)) (texts names) (λ r. r)
unfolding discard_names
Reads-names [] h = Reads-ok (λ r. r)
Reads-names (name ∷ names) (short, h) = Reads-bind _ (Reads-bytes name short) (Reads-names names h)

pub Reads-enum :
    (names : List (List ℕ))
    → length names < 2 ^ 16
    → AllShort names
    → Reads discard_enum_member_names (be_bytes 2 (length names) ++ texts names) (λ r. r)
unfolding discard_enum_member_names
Reads-enum names n h = Reads-bind _ (Reads-uint16 (length names) n) (Reads-names names h)
