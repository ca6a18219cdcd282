-- ===== src/Buff/Reader/Feed.antt =====
-- `feed` and `Next` of internal/buff/read.go: messages out of the chunks that the socket delivers.
pub mod Delivery
pub mod Messages
pub mod Signal
pub mod Release
use edgedb_go.Common.{
  ℕ, ◌-◌, ◌==◌, ltb, leb, if◌then◌else◌, Outcome, NoError, ok, panic, blocked, ◌>>=◌,
}
use edgedb_go.Common.{
  List, [], ◌∷◌, ◌++◌, length, take, drop, Bool, true, false, Option, none, some,
}
use edgedb_go.Buff.Reader.{
  Reader, Data, ReadError, socket, unread_data, Read, pop_uint8, pop_uint32,
}

unfoldable pub min : ℕ → ℕ → ℕ
min x y = if ltb x y then x else y

-- `if r.data != nil && len(r.data.Buf) == 0 { r.data.Release(); r.data = nil }`
unfoldable pub release_empty : Reader → Reader
release_empty r = elim r.held [
  | none ↦ r
  | some d ↦
      if length d.buf == 0 then record r { held = none; released = r.released ++ d.id ∷ [] } else r
]

-- What `<-r.toBeDeserialized` brings: the data, or the error that it carries with it released.
abbrev pub Received : Type 0
Received = Outcome NoError (Option ReadError × Reader)

unfoldable pub take_data : Data → List Data → Reader → Option ReadError × Reader
take_data d rest r = elim d.err [
  | none ↦ (none, record r { to_be_deserialized = some rest; held = some d })
  | some e ↦ (
    some (socket e),
    record r { to_be_deserialized = some rest; held = none; released = r.released ++ d.id ∷ [] },
  )
]

-- A receive from a nil channel blocks for ever.
receive_from : Option (List Data) → Reader → Received
unfolding take_data
receive_from none r = blocked
receive_from (some []) r = blocked
receive_from (some (d ∷ rest)) r = ok (take_data d rest r)

unfoldable pub receive : Reader → Received
unfolding receive_from
receive r = receive_from r.to_be_deserialized r

-- The loop of `feed`: `prev` is `r.data`, and the list what the channel still brings.
unfoldable pub feed_loop : ℕ → Data → List Data → Reader → Received
feed_loop n prev [] r =
    if leb n (length r.buf)
    then ok (none, record r { to_be_deserialized = some []; held = some prev })
    else blocked
feed_loop n prev (d ∷ rest) r =
    let m = min (n - length r.buf) (length d.buf) in
    let next =
      feed_loop n (record d { buf = drop m d.buf }) rest
        (record r { buf = r.buf ++ take m d.buf; released = r.released ++ prev.id ∷ [] }) in
    if leb n (length r.buf)
    then ok (none, record r { to_be_deserialized = some (d ∷ rest); held = some prev })
    else elim d.err [
      | none ↦ next
      | some e ↦ ok (
        some (socket e),
        record r {
          to_be_deserialized = some rest;
          held = none;
          released = (r.released ++ prev.id ∷ []) ++ d.id ∷ [];
        },
      )
    ]

-- From a nil channel the loop can only end at once or block.
feed_more : ℕ → Data → Option (List Data) → Reader → Received
feed_more n prev (some stream) r = feed_loop n prev stream r
feed_more n prev none r =
    if leb n (length r.buf) then ok (none, record r { held = some prev }) else blocked

-- The first `m` bytes of the data that the reader holds, and then the loop.
feed_held : ℕ → Option Data → Reader → Received
unfolding feed_more feed_loop min
feed_held n none r = panic
feed_held n (some d) r =
    let m = min n (length d.buf) in
    feed_more n (record d { buf = drop m d.buf }) r.to_be_deserialized
      (record r { buf = take m d.buf })

-- What `feed` does once it holds data, or with the error that came in its place.
feed_ready : ℕ → ℕ → Option ReadError × Reader → Received
feed_ready size less (some e, r) = ok (some e, r)
feed_ready size less (none, r) = if ltb size less then panic else feed_held (size - less) r.held r

feed_released : ℕ → ℕ → Reader → Received
unfolding feed_ready feed_held receive
feed_released size less r = if size == less then ok (none, r) else elim r.held [
  | some d ↦ feed_ready size less (none, r)
  | none ↦ receive r >>= feed_ready size less
]

-- `feed(n)` for `n = size - less`: the length of a message counts its own four bytes, and a smaller
-- one makes `n` negative, at which the slice expression after the receive panics.
unfoldable pub feed : ℕ → ℕ → Reader → Received
unfolding release_empty feed_released
feed size less r = feed_released size less (release_empty r)

-- `r.Buf = r.Buf[:msgLen:msgLen]`, unless `feed` returned an error.
next_end : ℕ → Option ReadError × Reader → Read (Bool × Reader)
next_end size (some e, r) = ok (false, record r { err = some e })
next_end size (none, r) =
    if ltb (length r.buf) (size - 4)
    then panic
    else ok (true, record r { err = none; buf = take (size - 4) r.buf })

-- The part of `Next` behind `feed(5)`.
next_header : Option ReadError × Reader → Read (Bool × Reader)
unfolding pop_uint8 pop_uint32 feed next_end
next_header (some e, r) = ok (false, record r { err = some e })
next_header (none, r) = do
  (m_type, r₁) ← pop_uint8 (record r { err = none })
  (size, r₂) ← pop_uint32 (record r₁ { msg_type = m_type })
  fed ← feed size 4 r₂
  next_end size fed

next_message : Option ReadError × Reader → Read (Bool × Reader)
unfolding next_header
next_message (some e, r) = ok (false, record r { err = some e })
next_message (none, r) = do fed ← feed 5 0 r; next_header fed

-- The `select` of `Next`: `done` says that it takes the signal and not the receive.
next_select : Bool → Reader → Read (Bool × Reader)
unfolding next_message receive
next_select done r = elim r.held [
  | some d ↦ next_message (none, r)
  | none ↦ elim done [ true ↦ ok (false, r) | false ↦ receive r >>= next_message ]
]

unfoldable pub next : Bool → Reader → Read (Bool × Reader)
unfolding release_empty next_select
next done r = elim r.to_be_deserialized [
  | none ↦ panic
  | some stream ↦
      if ltb 0 (length r.buf)
      then ok (false, record r { err = some (unread_data r.msg_type) })
      else next_select done (record (release_empty r) { msg_type = 0 })
]
