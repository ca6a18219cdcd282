-- ===== src/Client/Protocol/Headers/Laws.antt =====
-- What the headers of a message are as bytes, and what is read from them.
use edgedb_go.Common.{
  ℕ, ◌%◌, ◌^◌, ◌<◌, ◌≡◌, ◌≢◌, refl, ap, sym, ◌∙◌, arith, ok, none, some, List, [], ◌∷◌, ◌++◌,
  length, append_assoc, append-nil, Option, same-cases, subst, inl, inr, ne→==, ◌==◌, if◌then◌else◌,
}
use edgedb_go.Common.Bytes.{be_bytes}
use edgedb_go.Buff.Reader.{Reader}
use edgedb_go.Buff.Reader.Reads.{
  Reads, Reads-bind, Reads-ok, text, pop_uint16-Reads, pop_bytes-Reads,
}
use edgedb_go.Buff.Writer.{Writer}
use edgedb_go.Buff.Writer.Words.{appended, push_uint16_lem, push_uint32_lem, push_bytes_lem}
use edgedb_go.Client.Protocol.Headers.{
  Headers, get_header, set_header, ignore_loop, ignore_headers, decode_loop, decode_headers_0px,
  write_loop, write_headers_0px, discard_headers_0px,
}

abbrev pub pairs_bytes : Headers → List ℕ
pairs_bytes [] = []
pairs_bytes ((key, val) ∷ headers) = be_bytes 2 key ++ (text val ++ pairs_bytes headers)

abbrev pub headers_bytes : Headers → List ℕ
headers_bytes headers = be_bytes 2 (length headers) ++ pairs_bytes headers

-- The keys are words of 16 bits, and the lengths of the values fit 32 bits.
abbrev pub AllFit : Headers → Type 0
AllFit [] = Unit
AllFit ((key, val) ∷ headers) = (key < 2 ^ 16) × (length val < 2 ^ 32) × AllFit headers

-- The number of headers fits 16 bits too.
abbrev pub HeadersFit : Headers → Type 0
HeadersFit headers = (length headers < 2 ^ 16) × AllFit headers

-- The map after the writes of a list of keys and values in turn.
abbrev pub set_all : Headers → Headers → Headers
set_all m [] = m
set_all m ((key, val) ∷ headers) = set_all (set_header key val m) headers

ignore_loop-Reads :
    (headers : Headers)
    → AllFit headers
    → Reads (λ r. ignore_loop (length headers) r) (pairs_bytes headers) (λ r. r)
unfolding ignore_loop
ignore_loop-Reads [] h = Reads-ok (λ r. r)
ignore_loop-Reads ((key, val) ∷ headers) (small, short, h) =
    Reads-bind _ (pop_uint16-Reads key small)
      (Reads-bind _ (pop_bytes-Reads val short) (ignore_loop-Reads headers h))

pub ignore_headers-Reads :
    (headers : Headers) → HeadersFit headers → Reads ignore_headers (headers_bytes headers) (λ r. r)
unfolding ignore_headers
ignore_headers-Reads headers (n, h) =
    Reads-bind _ (pop_uint16-Reads (length headers) n) (ignore_loop-Reads headers h)

pub discard_headers_0px-Reads :
    (headers : Headers)
    → HeadersFit headers
    → Reads discard_headers_0px (headers_bytes headers) (λ r. r)
unfolding discard_headers_0px
discard_headers_0px-Reads headers (n, h) =
    Reads-bind _ (pop_uint16-Reads (length headers) n) (ignore_loop-Reads headers h)

pub decode_loop-Reads :
    (m headers : Headers)
    → AllFit headers
    → Reads (decode_loop (length headers) m) (pairs_bytes headers) (λ r. (set_all m headers, r))
unfolding decode_loop
decode_loop-Reads m [] h = Reads-ok (λ r. (m, r))
decode_loop-Reads m ((key, val) ∷ headers) (small, short, h) =
    Reads-bind _ (pop_uint16-Reads key small) (
      Reads-bind _ (pop_bytes-Reads val short) (decode_loop-Reads (set_header key val m) headers h))

pub decode_headers_0px-Reads :
    (headers : Headers)
    → HeadersFit headers
    → Reads decode_headers_0px (headers_bytes headers) (λ r. (set_all [] headers, r))
unfolding decode_headers_0px
decode_headers_0px-Reads headers (n, h) =
    Reads-bind _ (pop_uint16-Reads (length headers) n) (decode_loop-Reads [] headers h)

-- The value of the last header with the key.
unfoldable pub last_header : ℕ → Headers → Option (List ℕ)
last_header key [] = none
last_header key ((k, val) ∷ headers) = elim (last_header key headers) [
  | some later ↦ some later
  | none ↦ if key == k then some val else none
]

get_header-set_header :
    (key k : ℕ) (val : List ℕ) (m : Headers)
    → get_header key (set_header k val m) ≡ (if key == k then some val else get_header key m)
unfolding get_header set_header
get_header-set_header key k val [] = refl
get_header-set_header key k val ((k', old) ∷ m) = ground (arith, get_header-set_header key k val m)

get_header-set_all :
    (key : ℕ) (m headers : Headers)
    → get_header key (set_all m headers)
      ≡ elim (last_header key headers) [ some val ↦ some val | none ↦ get_header key m ]
unfolding last_header
get_header-set_all key m [] = refl
get_header-set_all key m ((k, val) ∷ headers) =
    get_header-set_all key (set_header k val m) headers
    ∙ ground (arith, get_header-set_header key k val m)

Absent : ℕ → Headers → Type 0
Absent key [] = Unit
Absent key ((k, val) ∷ headers) = (key ≢ k) × Absent key headers

-- A map has no key twice.
unfoldable pub Distinct : Headers → Type 0
unfolding Absent
Distinct [] = Unit
Distinct ((key, val) ∷ headers) = Absent key headers × Distinct headers

last_header-Absent :
    (key : ℕ) (headers : Headers) → Absent key headers → last_header key headers ≡ none
unfolding last_header Absent
last_header-Absent key [] h = refl
last_header-Absent key ((k, val) ∷ headers) (other, h) =
    rw (last_header-Absent key headers h, ne→== key k other) refl

last_header-Distinct :
    (key : ℕ) (headers : Headers)
    → Distinct headers
    → last_header key headers ≡ get_header key headers
unfolding last_header get_header Distinct
last_header-Distinct key [] h = refl
last_header-Distinct key ((k, val) ∷ headers) (absent, h) = elim (same-cases key k) [
  | inl same ↦
      let none_later : last_header key headers ≡ none =
        last_header-Absent key headers (subst (λ x. Absent x headers) (sym same) absent) in
      ground (arith, none_later, same)
  | inr other ↦ ground (arith, last_header-Distinct key headers h)
]

write_loop_lem :
    (headers : Headers) (w : Writer)
    → AllFit headers
    → write_loop headers w ≡ ok (appended w (pairs_bytes headers))
unfolding write_loop
write_loop_lem [] w h = rw (append-nil w.buf) refl
write_loop_lem ((key, val) ∷ headers) w (small, short, h) =
    let whole : length val % 2 ^ 32 ≡ length val = omega arith in
    rw (whole, push_uint16_lem, push_uint32_lem, push_bytes_lem, write_loop_lem headers _ h)
      (ap (λ t. ok (record w { buf = t })) (simp (append_assoc) refl))

pub write_headers_0px_lem :
    (headers : Headers) (w : Writer)
    → HeadersFit headers
    → write_headers_0px headers w ≡ ok (appended w (headers_bytes headers))
unfolding write_headers_0px
write_headers_0px_lem headers w (n, h) =
    let whole : length headers % 2 ^ 16 ≡ length headers = omega arith in
    rw (whole, push_uint16_lem, write_loop_lem headers _ h, append_assoc) refl

get_header-written :
    (key : ℕ) (headers : Headers)
    → Distinct headers
    → get_header key (set_all [] headers) ≡ get_header key headers
unfolding get_header
get_header-written key headers distinct =
    ground (arith, get_header-set_all key [] headers, last_header-Distinct key headers distinct)

-- Written in any order and then decoded, the headers of a map come back: the decoded map has the same
-- value under every key, and the reader stands behind them. No key is there twice, the keys are words
-- of 16 bits, and the number of headers and the lengths of their values fit 16 and 32 bits.
pub decode_headers-write_headers :
    (headers : Headers) (w : Writer)
    → HeadersFit headers
    → Distinct headers
    → (bytes : List ℕ) × (write_headers_0px headers w ≡ ok (appended w bytes))
      × ((back : List ℕ) (r : Reader)
          → r.buf ≡ bytes ++ back
          → (m : Headers) × (decode_headers_0px r ≡ ok (m, record r { buf = back }))
            × ((key : ℕ) → get_header key m ≡ get_header key headers))
decode_headers-write_headers headers w fit distinct = (
  headers_bytes headers,
  write_headers_0px_lem headers w fit,
  λ back r e. (
    set_all [] headers,
    (decode_headers_0px-Reads headers fit).reads back r e,
    λ key. get_header-written key headers distinct,
  ),
)
