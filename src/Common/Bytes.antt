-- ===== src/Common/Bytes.antt =====
-- encoding/binary's BigEndian, for words of any number of bytes: `be_bytes n v` is what PutUint
-- writes for the low 8 * n bits of `v`, and `be_value` is what Uint reads.
use Prim.Native.Nat.{ℕ, zero, suc, ◌+◌, ◌*◌, ◌/◌, ◌%◌, ◌^◌, ◌<◌}
use mathlib.Core.Path.{◌≡◌, refl, ◌∙◌}
use mathlib.Core.List.{List, [], ◌∷◌, ◌++◌}
use native.Mathlib.Omega.{arith}
use native.Mathlib.Nat.{pow-suc}
use edgedb_go.Common.Lists.{length, length-append}

be_fold : ℕ → List ℕ → ℕ
be_fold acc [] = acc
be_fold acc (b ∷ bs) = be_fold (acc * 256 + b) bs

unfoldable pub be_value : List ℕ → ℕ
unfolding be_fold
be_value bs = be_fold 0 bs

unfoldable pub be_bytes : ℕ → ℕ → List ℕ
be_bytes zero v = []
be_bytes (suc n) v = be_bytes n (v / 256) ++ v % 256 ∷ []

pub length-be_bytes : (n v : ℕ) → length (be_bytes n v) ≡ n
unfolding be_bytes
length-be_bytes zero v = refl
length-be_bytes (suc n) v =
    omega (arith, length-append (be_bytes n (v / 256)) (v % 256 ∷ []), length-be_bytes n (v / 256))

be_fold-append_one :
    (acc b : ℕ) (bs : List ℕ) → be_fold acc (bs ++ b ∷ []) ≡ be_fold acc bs * 256 + b
unfolding be_fold
be_fold-append_one acc b [] = refl
be_fold-append_one acc b (c ∷ bs) = be_fold-append_one (acc * 256 + c) b bs

div_pow : (v n : ℕ) → v < 256 ^ suc n → v / 256 < 256 ^ n
div_pow v n h = omega (arith, pow-suc 256 n)

pub be_value-be_bytes : (n v : ℕ) → v < 256 ^ n → be_value (be_bytes n v) ≡ v
unfolding be_value be_bytes
be_value-be_bytes zero v h = omega arith
be_value-be_bytes (suc n) v h =
    be_fold-append_one 0 (v % 256) (be_bytes n (v / 256))
    ∙ omega (arith, be_value-be_bytes n (v / 256) (div_pow v n h))
