-- ===== src/Client/Protocol/Loop/Delivery.antt =====
-- The loop of a flow on the messages of a server that the socket brings in any chunks.
use edgedb_go.Common.{
  ℕ, zero, suc, ◌+◌, ◌^◌, ◌<◌, Bool, true, false, ◌&&◌, none, List, [], ◌∷◌, ◌++◌, length, ok, ◌≡◌,
  refl, arith,
}
use edgedb_go.Buff.Writer.Blocks.{message_bytes}
use edgedb_go.Buff.Reader.{Reader}
use edgedb_go.Buff.Reader.Feed.Delivery.{pending}
use edgedb_go.Buff.Reader.Feed.Messages.{next-message_bytes}
use edgedb_go.Buff.Reader.Feed.Signal.{Awaits, Idle, next-signal}
use edgedb_go.Client.Protocol.Messages.{Handled}
use edgedb_go.Client.Protocol.Loop.{Flow, message_loop}

-- `M` are the messages of a server, each with its type and its content: the bytes of a list of them.
abbrev pub wire : {M : Type 0} → (M → ℕ) → (M → List ℕ) → List M → List ℕ
wire m_type m_body [] = []
wire m_type m_body (m ∷ ms) = message_bytes (m_type m) (m_body m) ++ wire m_type m_body ms

-- The variables after a list of messages, where `step` says what one of them does.
abbrev pub steps : {S M : Type 0} → (M → Flow S → Flow S) → List M → Flow S → Flow S
steps step [] f = f
steps step (m ∷ ms) f = steps step ms (step m f)

-- Where no bytes are to come, the select takes the signal.
abbrev pub Picks : (Reader → Bool) → Type 0
Picks picks = (r : Reader) → pending r ≡ [] → picks r ≡ true

-- `handle` takes a message that fits its bytes to its end, and changes the variables by `step`.
module _ {S M : Type 0} (m_type : M → ℕ) (m_body : M → List ℕ) (step : M → Flow S → Flow S)
    (Fits : M → Flow S → Type 0) where
  -- Each message is a message and fits, and the last one is the one at which the signal is sent.
  abbrev pub Finishes : List M → Flow S → Type 0
  Finishes [] f = f.done ≡ true
  Finishes (m ∷ ms) f =
      (f.done ≡ false)
      × (m_type m < 256)
      × (length (m_body m) + 4 < 2 ^ 32)
      × Fits m f
      × Finishes ms (step m f)

  abbrev pub Handles : (Flow S → Reader → Handled (Flow S)) → Type 0
  Handles handle =
      (m : M) (f : Flow S) (r : Reader)
      → Fits m f
      → r.msg_type ≡ m_type m
      → r.buf ≡ m_body m
      → handle f r ≡ ok (none, (step m f, record r { buf = [] }))

  -- The messages come in any chunks; a round for each and one for the signal are enough. All of them
  -- are handled in their order, and the reader is left idle.
  pub message_loop-wire :
      (picks : Reader → Bool) (handle : Flow S → Reader → Handled (Flow S)) (fuel : ℕ) (ms : List M)
      (f : Flow S) (r : Reader)
      → Handles handle
      → Picks picks
      → length ms < fuel
      → Finishes ms f
      → Awaits (wire m_type m_body ms) r
      → (r' : Reader) × (message_loop picks handle fuel f r ≡ ok (none, (steps step ms f, r')))
        × Idle r'
  unfolding message_loop
  message_loop-wire picks handle zero ms f r handles fair enough h a = absurd (omega arith)
  message_loop-wire picks handle (suc fuel) [] f r handles fair enough h a =
      let (r', q, idle') = next-signal r a in
      let taken : (f.done && picks r) ≡ true = rw (h, fair r a.still) refl in
      (r', rw (taken, q) refl, idle')
  message_loop-wire picks handle (suc fuel) (m ∷ ms) f r handles fair enough
        (waiting, byte, fits, fit, h) a =
      let (r₁, q, d) =
        next-message_bytes (m_type m) (m_body m) (wire m_type m_body ms) r byte fits a.is_open
          a.no_rest a.still in
      let handled = handles m f r₁ fit d.msg_type d.content in
      let (r', loops, idle) =
        message_loop-wire picks handle fuel ms (step m f) (record r₁ { buf = [] }) handles fair
          (omega arith) h
          (record {
            is_open = d.is_open;
            no_rest = refl;
            still = d.still;
            no_error = d.no_error;
          }) in
      let not_taken : (f.done && picks r) ≡ false = rw waiting refl in
      (r', rw (not_taken, q, handled) loops, idle)
