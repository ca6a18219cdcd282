-- ===== src/Buff/Reader/Feed/Signal.antt =====
-- `Next` once the signal of the flow was sent and nothing more is to come.
use edgedb_go.Common.{
  ℕ, ◌≤◌, true, false, Option, none, some, List, [], length, length-append, ok, ◌≡◌, refl, ap, ◌∙◌,
  arith,
}
use edgedb_go.Buff.Reader.{Reader, Data}
use edgedb_go.Buff.Reader.Feed.{release_empty, next, next_select}
use edgedb_go.Buff.Reader.Feed.Delivery.{IsOpen, pending, release_empty-keeps}

-- The reader stands between two messages: nothing is left of the one before, no error came, and these
-- bytes are still to come.
pub record Awaits (bytes : List ℕ) (r : Reader) : Type 0 where
  pub is_open : IsOpen r
  pub no_rest : r.buf ≡ []
  pub still : pending r ≡ bytes
  pub no_error : r.err ≡ none

-- The reader between two flows.
abbrev pub Idle : Reader → Type 0
Idle r = Awaits [] r

length-held : (d : Data) (r : Reader) → r.held ≡ some d → length d.buf ≤ length (pending r)
length-held d r e = rw e (omega (arith, length-append d.buf _))

release_empty-none :
    (r : Reader) (h : Option Data)
    → r.held ≡ h
    → pending r ≡ []
    → ((release_empty r).held ≡ none) × ((release_empty r).err ≡ r.err)
unfolding release_empty
release_empty-none r none e p = rw (e) (refl, refl)
release_empty-none r (some d) e p =
    let empty : length d.buf ≡ 0 = omega (arith, ap length p, length-held d r e) in
    rw (e, empty) (refl, refl)

-- Nothing is left and the signal is taken: `Next` returns false.
pub next-signal : (r : Reader) → Idle r → (r' : Reader) × (next true r ≡ ok (false, r')) × Idle r'
unfolding next next_select
next-signal r idle =
    let (stream, e, clean) = idle.is_open in
    let (same, same_channel, same_buf, same_type) = release_empty-keeps r in
    let (held, same_err) = release_empty-none r r.held refl idle.still in
    (
      record (release_empty r) { msg_type = 0 },
      ground (arith, e, held, idle.no_rest),
      record {
        is_open = (stream, same_channel ∙ e, clean);
        no_rest = same_buf ∙ idle.no_rest;
        still = same ∙ idle.still;
        no_error = same_err ∙ idle.no_error;
      },
    )
