-- ===== src/Buff/Reader/Feed/Delivery.antt =====
-- `Next` finds the messages in the bytes of the socket, however these are cut into chunks.
use edgedb_go.Common.{ℕ, ◌+◌, ◌-◌, ◌≤◌, ◌<◌, ◌==◌, leb, ok, ◌>>=◌, ◌≡◌, refl, ap, sym, ◌∙◌, arith}
use edgedb_go.Common.{List, [], ◌∷◌, ◌++◌, length, take, drop, length-append, append_assoc}
use edgedb_go.Common.{
  ◌⊎◌, inl, inr, Bool-cases, ge→ltb, length-take, take-append-drop, drop-ge, true, Option, none,
  some,
}
use edgedb_go.Buff.Reader.{Reader, Data}
use edgedb_go.Buff.Reader.Feed.{
  Received, min, release_empty, receive, feed_loop, feed_held, feed_ready, feed_released, feed,
}

-- The bytes of the chunks that still come, and that none of them carries an error.
abbrev pub stream_bytes : List Data → List ℕ
stream_bytes [] = []
stream_bytes (d ∷ rest) = d.buf ++ stream_bytes rest

abbrev pub IsClean : List Data → Type 0
IsClean [] = Unit
IsClean (d ∷ rest) = (d.err ≡ none) × IsClean rest

abbrev pub held_bytes : Option Data → List ℕ
held_bytes none = []
held_bytes (some d) = d.buf

abbrev channel : Option (List Data) → List Data
channel none = []
channel (some stream) = stream

-- What the socket delivered and no call of `feed` has taken yet.
abbrev pub pending : Reader → List ℕ
pending r = held_bytes r.held ++ stream_bytes (channel r.to_be_deserialized)

-- The reader owns a channel on which no error comes.
abbrev pub IsOpen : Reader → Type 0
IsOpen r = (stream : List Data) × (r.to_be_deserialized ≡ some stream) × IsClean stream

-- `feed` left `n` bytes in `Buf`, the next ones of `bytes`, and the message type.
pub record Fed (n : ℕ) (bytes : List ℕ) (m_type : ℕ) (r' : Reader) : Type 0 where
  pub is_open : IsOpen r'
  pub size : length r'.buf ≡ n
  pub split : r'.buf ++ pending r' ≡ bytes
  pub msg_type : r'.msg_type ≡ m_type

min_bounds : (x y : ℕ) → (min x y ≤ x) × (min x y ≤ y) × ((min x y ≡ x) ⊎ (min x y ≡ y))
unfolding min
min_bounds x y = (ground arith, ground arith, ground arith)

feed_loop-Fed :
    (n : ℕ) (prev : Data) (stream : List Data) (r : Reader)
    → IsClean stream
    → length r.buf ≤ n
    → (length r.buf < n → prev.buf ≡ [])
    → n ≤ length r.buf + length (stream_bytes stream)
    → (r' : Reader) × (feed_loop n prev stream r ≡ ok (none, r'))
      × Fed n (r.buf ++ (prev.buf ++ stream_bytes stream)) r.msg_type r'
unfolding feed_loop
feed_loop-Fed n prev [] r clean le empty enough = (
  record r { to_be_deserialized = some []; held = some prev },
  ground arith,
  record { is_open = ([], refl, tt); size = omega arith; split = refl; msg_type = refl },
)
feed_loop-Fed n prev (d ∷ rest) r clean le empty enough = elim (Bool-cases (leb n (length r.buf))) [
  | inl full ↦ (
    record r { to_be_deserialized = some (d ∷ rest); held = some prev },
    rw full refl,
    record {
      is_open = (d ∷ rest, refl, clean);
      size = ground arith;
      split = refl;
      msg_type = refl;
    },
  )
  | inr more ↦
      rw (more, clean.0)
        (round (feed_loop-Fed n d' rest r' clean.1 le' empty' enough') (empty (ground arith)))
]
  where
    m : ℕ
    m = min (n - length r.buf) (length d.buf)

    d' : Data
    d' = record d { buf = drop m d.buf }

    r' : Reader
    r' = record r { buf = r.buf ++ take m d.buf; released = r.released ++ prev.id ∷ [] }

    bounds :
        (m ≤ n - length r.buf) × (m ≤ length d.buf) × ((m ≡ n - length r.buf) ⊎ (m ≡ length d.buf))
    bounds = min_bounds (n - length r.buf) (length d.buf)

    grown : length (r.buf ++ take m d.buf) ≡ length r.buf + m
    grown = omega (arith, length-append r.buf (take m d.buf), length-take m d.buf bounds.1)

    le' : length r'.buf ≤ n
    le' = omega (arith, grown, bounds)

    empty' : length r'.buf < n → d'.buf ≡ []
    empty' h = drop-ge m d.buf (omega (arith, grown, bounds))

    enough' : n ≤ length r'.buf + length (stream_bytes rest)
    enough' = omega (arith, grown, bounds, length-append d.buf (stream_bytes rest))

    round :
        (x : Reader) × (feed_loop n d' rest r' ≡ ok (none, x))
          × Fed n (r'.buf ++ (d'.buf ++ stream_bytes rest)) r.msg_type x
        → prev.buf ≡ []
        → (x : Reader) × (feed_loop n d' rest r' ≡ ok (none, x))
          × Fed n (r.buf ++ (prev.buf ++ (d.buf ++ stream_bytes rest))) r.msg_type x
    round (x, e, fed) nothing = (
      x,
      e,
      record {
        is_open = fed.is_open;
        size = fed.size;
        msg_type = fed.msg_type;
        split = rw nothing (
            fed.split
            ∙ rw append_assoc (
                ap (λ t. r.buf ++ t)
                  (rw (← append_assoc)
                    (ap (λ t. t ++ stream_bytes rest) (take-append-drop m d.buf)))));
      },
    )

length-zero {ℓ} : {A : Type ℓ} (xs : List A) → length xs ≡ 0 → xs ≡ []
length-zero [] h = refl
length-zero (x ∷ xs) h = absurd (omega arith)

-- Releasing an empty chunk loses nothing.
pub release_empty-keeps :
    (r : Reader)
    → (pending (release_empty r) ≡ pending r)
      × ((release_empty r).to_be_deserialized ≡ r.to_be_deserialized)
      × ((release_empty r).buf ≡ r.buf)
      × ((release_empty r).msg_type ≡ r.msg_type)
unfolding release_empty
release_empty-keeps r = go r.held refl
  where
    go :
        (h : Option Data)
        → r.held ≡ h
        → (pending (release_empty r) ≡ pending r)
          × ((release_empty r).to_be_deserialized ≡ r.to_be_deserialized)
          × ((release_empty r).buf ≡ r.buf)
          × ((release_empty r).msg_type ≡ r.msg_type)
    go none e = rw e (refl, refl, refl, refl)
    go (some d) e = ground (arith, length-zero d.buf)

feed_held-Fed :
    (n : ℕ) (d : Data) (r : Reader)
    → IsOpen r
    → r.held ≡ some d
    → n ≤ length (pending r)
    → (r' : Reader) × (feed_held n (some d) r ≡ ok (none, r')) × Fed n (pending r) r.msg_type r'
unfolding feed_held
feed_held-Fed n d r (stream, e, clean) h enough =
    rw (h, e) (regroup (feed_loop-Fed n d' stream r' clean le empty enough'))
  where
    m : ℕ
    m = min n (length d.buf)

    d' : Data
    d' = record d { buf = drop m d.buf }

    r' : Reader
    r' = record r { to_be_deserialized = some stream; held = some d; buf = take m d.buf }

    bounds : (m ≤ n) × (m ≤ length d.buf) × ((m ≡ n) ⊎ (m ≡ length d.buf))
    bounds = min_bounds n (length d.buf)

    taken : length (take m d.buf) ≡ m
    taken = length-take m d.buf bounds.1

    le : length r'.buf ≤ n
    le = omega (arith, taken, bounds)

    empty : length r'.buf < n → d'.buf ≡ []
    empty less = drop-ge m d.buf (omega (arith, taken, bounds))

    all : n ≤ length d.buf + length (stream_bytes stream)
    all = omega (arith, rw (h, e) at enough, length-append d.buf (stream_bytes stream))

    enough' : n ≤ length r'.buf + length (stream_bytes stream)
    enough' = omega (arith, taken, bounds, all)

    regroup :
        (x : Reader) × (feed_loop n d' stream r' ≡ ok (none, x))
          × Fed n (r'.buf ++ (d'.buf ++ stream_bytes stream)) r.msg_type x
        → (x : Reader) × (feed_loop n d' stream r' ≡ ok (none, x))
          × Fed n (d.buf ++ stream_bytes stream) r.msg_type x
    regroup (x, p, fed) = (
      x,
      p,
      record {
        is_open = fed.is_open;
        size = fed.size;
        msg_type = fed.msg_type;
        split =
            fed.split
            ∙ rw (← append_assoc) (ap (λ t. t ++ stream_bytes stream) (take-append-drop m d.buf));
      },
    )

-- The reader after `n` of the bytes `bytes` were fed to it.
abbrev pub Feeds : Received → ℕ → List ℕ → ℕ → Type 0
Feeds result n bytes m_type = (r' : Reader) × (result ≡ ok (none, r')) × Fed n bytes m_type r'

feed_ready-Fed :
    (size less : ℕ) (d : Data) (r : Reader) (bytes : List ℕ)
    → IsOpen r
    → r.held ≡ some d
    → pending r ≡ bytes
    → less ≤ size
    → size ≤ less + length bytes
    → Feeds (feed_ready size less (none, r)) (size - less) bytes r.msg_type
unfolding feed_ready
feed_ready-Fed size less d r bytes opened h p le enough =
    let n = size - less in
    let (r', e, fed) = feed_held-Fed n d r opened h (rw p (omega arith)) in
    (r', simp (ge→ltb size less le, h) e, rw p at fed)

pub receive-first :
    (d : Data) (rest : List Data) (r : Reader)
    → r.to_be_deserialized ≡ some (d ∷ rest)
    → d.err ≡ none
    → receive r ≡ ok (none, record r { to_be_deserialized = some rest; held = some d })
unfolding receive
receive-first d rest r e clean = ground arith

pub pending-held :
    (held : Option Data) (stream : List Data) (r : Reader)
    → r.held ≡ held
    → r.to_be_deserialized ≡ some stream
    → pending r ≡ held_bytes held ++ stream_bytes stream
pending-held held stream r h e = cc

-- With nothing held, the first chunk of the channel is taken.
feed_fresh-Fed :
    (size less : ℕ) (stream : List Data) (r : Reader) (bytes : List ℕ)
    → r.to_be_deserialized ≡ some stream
    → IsClean stream
    → r.held ≡ none
    → pending r ≡ bytes
    → less < size
    → size ≤ less + length bytes
    → Feeds (receive r >>= feed_ready size less) (size - less) bytes r.msg_type
feed_fresh-Fed size less [] r bytes e clean h p lt enough =
    absurd (omega (arith, ap length (sym p ∙ pending-held none [] r h e)))
feed_fresh-Fed size less (d ∷ rest) r bytes e clean h p lt enough =
    rw (receive-first d rest r e clean.0) (
      feed_ready-Fed size less d (record r { to_be_deserialized = some rest; held = some d }) bytes
        (rest, refl, clean.1) refl (sym (pending-held none (d ∷ rest) r h e) ∙ p) (omega arith)
        enough)

feed_released-Fed :
    (size less : ℕ) (held : Option Data) (r : Reader) (bytes : List ℕ)
    → r.held ≡ held
    → IsOpen r
    → pending r ≡ bytes
    → less < size
    → size ≤ less + length bytes
    → Feeds (feed_released size less r) (size - less) bytes r.msg_type
unfolding feed_released
feed_released-Fed size less none r bytes h opened p lt enough =
    let (r', e, fed) = feed_fresh-Fed size less opened.0 r bytes opened.1 opened.2 h p lt enough in
    (r', ground (arith, e), fed)
feed_released-Fed size less (some d) r bytes h opened p lt enough =
    let (r', e, fed) = feed_ready-Fed size less d r bytes opened h p (omega arith) enough in
    (r', ground (arith, e), fed)

feed_released-same :
    (size less : ℕ) (r : Reader) → (size == less) ≡ true → feed_released size less r ≡ ok (none, r)
unfolding feed_released
feed_released-same size less r e = rw e refl

-- On an open reader with an empty `Buf` and enough bytes to come, `feed` brings the next ones.
pub feed-Fed :
    (size less : ℕ) (r : Reader) (bytes : List ℕ)
    → IsOpen r
    → r.buf ≡ []
    → pending r ≡ bytes
    → less ≤ size
    → size ≤ less + length bytes
    → Feeds (feed size less r) (size - less) bytes r.msg_type
unfolding feed
feed-Fed size less r bytes (stream, e, clean) b p le enough =
    let (kept, same_channel, same_buf, same_type) = release_empty-keeps r in
    let opened : IsOpen (release_empty r) = (stream, same_channel ∙ e, clean) in
    elim (Bool-cases (size == less)) [
      | inl same ↦ (
        release_empty r,
        feed_released-same size less (release_empty r) same,
        record {
          is_open = opened;
          size = ground (arith, ap length (same_buf ∙ b));
          split = ap (λ t. t ++ pending (release_empty r)) (same_buf ∙ b) ∙ kept ∙ p;
          msg_type = same_type;
        },
      )
      | inr differ ↦
          let (r', q, fed) =
            feed_released-Fed size less (release_empty r).held (release_empty r) bytes refl opened
              (kept ∙ p) (ground arith) enough in
          (r', q, rw same_type at fed)
    ]
