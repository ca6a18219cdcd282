-- ===== src/Descriptor/Version.antt =====
-- internal/internal.go: the versions of the protocol and their order.
use edgedb_go.Common.{
  ℕ, ◌+◌, ◌*◌, ◌^◌, ◌<◌, ◌==◌, ◌≡◌, arith, Bool, true, false, ◌&&◌, ltb, leb, if◌then◌else◌,
}

pub record ProtocolVersion : Type 0 where
  pub major : ℕ
  pub minor : ℕ

unfoldable pub gt : ProtocolVersion → ProtocolVersion → Bool
gt v other =
    if ltb other.major v.major
    then true
    else if ltb v.major other.major
    then false
    else ltb other.minor v.minor

unfoldable pub gte : ProtocolVersion → ProtocolVersion → Bool
unfolding gt
gte v other = if v.major == other.major && v.minor == other.minor then true else gt v other

unfoldable pub lt : ProtocolVersion → ProtocolVersion → Bool
lt v other =
    if ltb v.major other.major
    then true
    else if ltb other.major v.major
    then false
    else ltb v.minor other.minor

-- The version as one number.
abbrev pub rank : ProtocolVersion → ℕ
rank v = v.major * 2 ^ 16 + v.minor

-- The three comparisons of versions are those of the numbers that have the major version above its 16
-- bits of minor version.
pub compare-rank :
    (v other : ProtocolVersion)
    → v.minor < 2 ^ 16
    → other.minor < 2 ^ 16
    → (gt v other ≡ ltb (rank other) (rank v))
      × (gte v other ≡ leb (rank other) (rank v))
      × (lt v other ≡ ltb (rank v) (rank other))
unfolding gt gte lt
compare-rank v other h h' = (ground arith, ground arith, ground arith)
