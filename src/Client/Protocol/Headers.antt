-- ===== src/Client/Protocol/Headers.antt =====
-- internal/client/scriptflow.go: the headers of messages. A Go map is the list of its keys with
-- their values; `range` goes over it in any order.
use edgedb_go.Common.{
  ℕ, zero, suc, ◌==◌, if◌then◌else◌, Option, none, some, List, [], ◌∷◌, length, ok, ◌>>=◌, ◌%◌, ◌^◌,
}
use edgedb_go.Buff.Writer.{Writer, Written, push_uint16, push_uint32, push_bytes}
use edgedb_go.Buff.Reader.{Reader, Read, pop_uint16, pop_bytes}
pub mod Laws

-- header.Header0pX
abbrev pub Headers : Type 0
Headers = List (ℕ × List ℕ)

-- `headers[key]`
unfoldable pub get_header : ℕ → Headers → Option (List ℕ)
get_header key [] = none
get_header key ((k, val) ∷ headers) = if key == k then some val else get_header key headers

-- `headers[key] = val`
unfoldable pub set_header : ℕ → List ℕ → Headers → Headers
set_header key val [] = (key, val) ∷ []
set_header key val ((k, old) ∷ headers) =
    let rest = set_header key val headers in
    if key == k then (k, val) ∷ headers else (k, old) ∷ rest

ignore_loop : ℕ → Reader → Read Reader
ignore_loop zero r = ok r
ignore_loop (suc n) r = do (key, r₁) ← pop_uint16 r; (val, r₂) ← pop_bytes r₁; ignore_loop n r₂

unfoldable pub ignore_headers : Reader → Read Reader
unfolding ignore_loop
ignore_headers r = do (n, r') ← pop_uint16 r; ignore_loop n r'

unfoldable pub discard_headers_0px : Reader → Read Reader
unfolding ignore_loop
discard_headers_0px r = do (n, r') ← pop_uint16 r; ignore_loop n r'

-- `m` are the headers that the loop has put into the map.
unfoldable pub decode_loop : ℕ → Headers → Reader → Read (Headers × Reader)
unfolding set_header
decode_loop zero m r = ok (m, r)
decode_loop (suc n) m r = do
  (key, r₁) ← pop_uint16 r
  (val, r₂) ← pop_bytes r₁
  decode_loop n (set_header key val m) r₂

unfoldable pub decode_headers_0px : Reader → Read (Headers × Reader)
unfolding decode_loop
decode_headers_0px r = do (n, r') ← pop_uint16 r; decode_loop n [] r'

write_loop : Headers → Writer → Written Writer
write_loop [] w = ok w
write_loop ((key, val) ∷ headers) w = do
  w₁ ← push_uint16 key w
  w₂ ← push_uint32 (length val % 2 ^ 32) w₁
  w₃ ← push_bytes val w₂
  write_loop headers w₃

unfoldable pub write_headers_0px : Headers → Writer → Written Writer
unfolding write_loop
write_headers_0px headers w = do w' ← push_uint16 (length headers % 2 ^ 16) w; write_loop headers w'
