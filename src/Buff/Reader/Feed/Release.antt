-- ===== src/Buff/Reader/Feed/Release.antt =====
-- Every chunk that the reader receives is released once, in the order of arrival, and not before
-- the reader has left it.
use edgedb_go.Common.{
  ℕ, ◌-◌, ◌==◌, ltb, leb, if◌then◌else◌, Outcome, NoError, ok, err, panic, blocked, ◌>>=◌, ◌≡◌,
  refl, ap, sym, arith,
}
use edgedb_go.Common.{
  List, [], ◌∷◌, ◌++◌, length, take, drop, append_assoc, Bool, true, false, Bool-cases, inl, inr,
  Option, none, some,
}
use edgedb_go.Buff.Reader.{
  Reader, Data, ReadError, unread_data, pop, pop_word, pop_uint8, pop_uint32,
}
use edgedb_go.Buff.Reader.Feed.{
  min, release_empty, take_data, receive, receive_from, feed_loop, feed_more, feed_held, feed_ready,
  feed_released, feed, next_end, next_header, next_message, next_select, next,
}

abbrev ids : List Data → List ℕ
ids [] = []
ids (d ∷ rest) = d.id ∷ ids rest

abbrev channel_ids : Option (List Data) → List ℕ
channel_ids none = []
channel_ids (some stream) = ids stream

abbrev held_ids : Option Data → List ℕ
held_ids none = []
held_ids (some d) = d.id ∷ []

-- The chunks in order: those released, the one that is held, those that still come.
abbrev pub account : Reader → List ℕ
account r = r.released ++ (held_ids r.held ++ channel_ids r.to_be_deserialized)

-- Where a call returns, the account is `l`.
abbrev pub Accounts {ℓ} : {A : Type ℓ} → List ℕ → Outcome NoError (A × Reader) → Type 0
Accounts l (ok (a, r)) = account r ≡ l
Accounts l _ = Unit

Accounts-at {ℓ} :
    {A : Type ℓ} (l l' : List ℕ) (m : Outcome NoError (A × Reader))
    → l ≡ l'
    → Accounts l m
    → Accounts l' m
Accounts-at l l' m e h = rw e at h

Accounts-elim {ℓ} :
    {A : Type ℓ} (l : List ℕ) (e : Option ℕ) (next' : Outcome NoError (A × Reader))
    (fail : ℕ → Outcome NoError (A × Reader))
    → Accounts l next'
    → ((x : ℕ) → Accounts l (fail x))
    → Accounts l (elim e [ none ↦ next' | some x ↦ fail x ])
Accounts-elim l none next' fail h k = h
Accounts-elim l (some x) next' fail h k = k x

feed_loop-Accounts :
    (n : ℕ) (prev : Data) (stream : List Data) (r : Reader)
    → Accounts (r.released ++ (prev.id ∷ ids stream)) (feed_loop n prev stream r)
unfolding feed_loop
feed_loop-Accounts n prev [] r = ground arith
feed_loop-Accounts n prev (d ∷ rest) r =
    let m = min (n - length r.buf) (length d.buf) in
    elim (Bool-cases (leb n (length r.buf))) [
      | inl full ↦ rw full refl
      | inr more ↦ rw more (
          Accounts-elim _ d.err _ _
            (Accounts-at _ _
              (feed_loop n (record d { buf = drop m d.buf }) rest
                (record r { buf = r.buf ++ take m d.buf; released = r.released ++ prev.id ∷ [] }))
              (append_assoc r.released (prev.id ∷ []) (d.id ∷ ids rest))
              (feed_loop-Accounts n (record d { buf = drop m d.buf }) rest
                (record r { buf = r.buf ++ take m d.buf; released = r.released ++ prev.id ∷ [] })))
            λ x. simp append_assoc refl)
    ]

>>=-Accounts {ℓ κ} :
    {A : Type ℓ} {B : Type κ} (l : List ℕ) (m : Outcome NoError (A × Reader))
    (f : A × Reader → Outcome NoError (B × Reader))
    → Accounts l m
    → ((a : A) (r : Reader) → account r ≡ l → Accounts l (f (a, r)))
    → Accounts l (m >>= f)
>>=-Accounts l (ok (a, r)) f h k = k a r h
>>=-Accounts l (err e) f h k = tt
>>=-Accounts l panic f h k = tt
>>=-Accounts l blocked f h k = tt

feed_more-Accounts :
    (n : ℕ) (prev : Data) (c : Option (List Data)) (r : Reader)
    → r.to_be_deserialized ≡ c
    → Accounts (r.released ++ (prev.id ∷ channel_ids c)) (feed_more n prev c r)
unfolding feed_more
feed_more-Accounts n prev none r e = ground arith
feed_more-Accounts n prev (some stream) r e = feed_loop-Accounts n prev stream r

feed_held-Accounts :
    (n : ℕ) (held : Option Data) (r : Reader)
    → r.held ≡ held
    → Accounts (account r) (feed_held n held r)
unfolding feed_held
feed_held-Accounts n none r h = tt
feed_held-Accounts n (some d) r h =
    let m = min n (length d.buf) in
    let r' = record r { buf = take m d.buf } in
    Accounts-at _ _ _
      (ap (λ t. r.released ++ (held_ids t ++ channel_ids r.to_be_deserialized)) (sym h))
      (feed_more-Accounts n (record d { buf = drop m d.buf }) r.to_be_deserialized r' refl)

feed_ready-Accounts :
    (size less : ℕ) (e : Option ReadError) (r : Reader)
    → Accounts (account r) (feed_ready size less (e, r))
unfolding feed_ready
feed_ready-Accounts size less (some e) r = refl
feed_ready-Accounts size less none r = elim (Bool-cases (ltb size less)) [
  | inl bad ↦ rw bad tt
  | inr fine ↦ rw fine (feed_held-Accounts (size - less) r.held r refl)
]

receive-Accounts : (r : Reader) → r.held ≡ none → Accounts (account r) (receive r)
unfolding receive
receive-Accounts r h = go r.to_be_deserialized refl
  where
    go :
        (c : Option (List Data))
        → r.to_be_deserialized ≡ c
        → Accounts (account r) (receive_from c r)
    go none e = tt
    go (some []) e = tt
    go (some (d ∷ rest)) e = took d.err refl
      where
        took : (x : Option ℕ) → d.err ≡ x → account (take_data d rest r).1 ≡ account r
        took none q = ground arith
        took (some x) q = ground (arith, append_assoc r.released (d.id ∷ []) (ids rest))

release_empty-account : (r : Reader) → account (release_empty r) ≡ account r
unfolding release_empty
release_empty-account r = go r.held refl
  where
    go : (h : Option Data) → r.held ≡ h → account (release_empty r) ≡ account r
    go none e = ground arith
    go (some d) e =
        ground (arith, append_assoc r.released (d.id ∷ []) (channel_ids r.to_be_deserialized))

feed_released-Accounts :
    (size less : ℕ) (held : Option Data) (r : Reader)
    → r.held ≡ held
    → Accounts (account r) (feed_released size less r)
unfolding feed_released
feed_released-Accounts size less held r h = elim (Bool-cases (size == less)) [
  | inl same ↦ rw same refl
  | inr differ ↦ rw differ (go r.held refl)
]
  where
    go :
        (h : Option Data)
        → r.held ≡ h
        → Accounts (account r) (elim h [
          | some d ↦ feed_ready size less (none, r)
          | none ↦ receive r >>= feed_ready size less
        ])
    go (some d) e = feed_ready-Accounts size less none r
    go none e =
        >>=-Accounts (account r) (receive r) (feed_ready size less) (receive-Accounts r e)
          (λ x r' k.
            Accounts-at _ _ (feed_ready size less (x, r')) k (feed_ready-Accounts size less x r'))

feed-Accounts : (size less : ℕ) (r : Reader) → Accounts (account r) (feed size less r)
unfolding feed
feed-Accounts size less r =
    Accounts-at _ _ _ (release_empty-account r)
      (feed_released-Accounts size less (release_empty r).held (release_empty r) refl)

pop_word-Accounts : (n : ℕ) (r : Reader) → Accounts (account r) (pop_word n r)
unfolding pop_word pop
pop_word-Accounts n r = elim (Bool-cases (ltb (length r.buf) n)) [
  | inl short ↦ rw short tt
  | inr fits ↦ rw fits refl
]

next_end-Accounts :
    (size : ℕ) (e : Option ReadError) (r : Reader) → Accounts (account r) (next_end size (e, r))
unfolding next_end
next_end-Accounts size (some e) r = refl
next_end-Accounts size none r = elim (Bool-cases (ltb (length r.buf) (size - 4))) [
  | inl short ↦ rw short tt
  | inr fits ↦ rw fits refl
]

next_header-Accounts :
    (e : Option ReadError) (r : Reader) → Accounts (account r) (next_header (e, r))
unfolding next_header pop_uint8 pop_uint32
next_header-Accounts (some e) r = refl
next_header-Accounts none r =
    >>=-Accounts (account r) (pop_uint8 (record r { err = none })) _
      (pop_word-Accounts 1 (record r { err = none }))
      λ t r₁ k.
        >>=-Accounts (account r) (pop_uint32 (record r₁ { msg_type = t })) _
          (Accounts-at _ _ _ k (pop_word-Accounts 4 (record r₁ { msg_type = t })))
          λ size r₂ k₂.
            >>=-Accounts (account r) (feed size 4 r₂) (next_end size)
              (Accounts-at _ _ _ k₂ (feed-Accounts size 4 r₂))
              λ e r₃ k₃. Accounts-at _ _ (next_end size (e, r₃)) k₃ (next_end-Accounts size e r₃)

next_message-Accounts :
    (e : Option ReadError) (r : Reader) → Accounts (account r) (next_message (e, r))
unfolding next_message
next_message-Accounts (some e) r = refl
next_message-Accounts none r =
    >>=-Accounts (account r) (feed 5 0 r) next_header (feed-Accounts 5 0 r)
      λ e r' k. Accounts-at _ _ (next_header (e, r')) k (next_header-Accounts e r')

next_select-Accounts : (done : Bool) (r : Reader) → Accounts (account r) (next_select done r)
unfolding next_select
next_select-Accounts done r = go r.held done refl
  where
    go :
        (h : Option Data) (done : Bool)
        → r.held ≡ h
        → Accounts (account r) (elim h [
          | some d ↦ next_message (none, r)
          | none ↦ elim done [ true ↦ ok (false, r) | false ↦ receive r >>= next_message ]
        ])
    go (some d) done e = next_message-Accounts none r
    go none true e = refl
    go none false e =
        >>=-Accounts (account r) (receive r) next_message (receive-Accounts r e)
          (λ x r' k. Accounts-at _ _ (next_message (x, r')) k (next_message-Accounts x r'))

next-all : (done : Bool) (r : Reader) → Accounts (account r) (next done r)
unfolding next
next-all done r = go r.to_be_deserialized
  where
    go :
        (c : Option (List Data))
        → Accounts (account r) (elim c [
          | none ↦ panic
          | some stream ↦
              if ltb 0 (length r.buf)
              then ok (false, record r { err = some (unread_data r.msg_type) })
              else next_select done (record (release_empty r) { msg_type = 0 })
        ])
    go none = tt
    go (some stream) = elim (Bool-cases (ltb 0 (length r.buf))) [
      | inl unread ↦ rw unread refl
      | inr empty ↦ rw empty (
          Accounts-at _ _ _ (release_empty-account r)
            (next_select-Accounts done (record (release_empty r) { msg_type = 0 })))
    ]

-- A call of `Next` that returns, with true, with false or with an error set, has moved chunks only
-- from the channel to the reader and from the reader to the released ones: those released, the one
-- held and those to come are in order the same chunks as before, none lost and none twice.
pub next-account :
    (done more : Bool) (r r' : Reader) → next done r ≡ ok (more, r') → account r' ≡ account r
next-account done more r r' e = rw e at (next-all done r)
