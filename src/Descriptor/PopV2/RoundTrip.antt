-- ===== src/Descriptor/PopV2/RoundTrip.antt =====
-- `PopV2` reads what a description of types says.
use edgedb_go.Common.{
  ℕ, zero, suc, ◌+◌, ◌<◌, ◌≤◌, ◌≡◌, refl, ap, arith, ok, some, >>=?-some, List, [], ◌∷◌, ◌++◌,
  length, length-append, ne→==,
}
use edgedb_go.Common.Bytes.{be_bytes}
use edgedb_go.Buff.Reader.{Reader}
use edgedb_go.Descriptor.Pop.Shapes.{some-injective}
use edgedb_go.Descriptor.Pop.RoundTrip.{last-append}
use edgedb_go.Descriptor.PopV2.{V2, pop_one, pop_loop, pop_v2}
use edgedb_go.Descriptor.PopV2.Shapes.{shape-Case}
use edgedb_go.Descriptor.Reads.{Reads, Reads-bind, Reads-uint8, Reads-uint32, Reads-uuid}
use edgedb_go.Descriptor.WireV2.{
  Shape, a_set, Block, code, shape_bytes, block_bytes, description_bytes, meaning, meanings,
  ShapeFits, BlockFits, AllFit,
}

code-small : (s : Shape) → ShapeFits s → code s < 256
code-small (a_set i) h = omega arith
code-small s h = omega arith

Reads-one :
    (ds : List V2) (b : Block) (d : V2)
    → BlockFits b
    → meaning ds b.id b.shape ≡ some d
    → Reads (pop_one ds) (block_bytes b) (λ r. (d, r))
unfolding pop_one
Reads-one ds b d (small, n, h) e = Reads-bind _ (Reads-uint32 b.size small) (
    Reads-bind _ (Reads-uint8 (code b.shape) (code-small b.shape h))
      (Reads-bind _ (Reads-uuid b.id n) (shape-Case ds b.id b.shape d h e)))

-- A block has the byte of its type behind the four of its size.
block-nonempty : (b : Block) → 1 ≤ length (block_bytes b)
block-nonempty b =
    omega (arith, length-append (be_bytes 4 b.size) (code b.shape ∷ (b.id ++ shape_bytes b.shape)))

blocks-bytes : (bs : List Block) → length bs ≤ length (description_bytes bs)
blocks-bytes [] = omega arith
blocks-bytes (b ∷ bs) =
    omega (
      arith,
      length-append (block_bytes b) (description_bytes bs),
      block-nonempty b,
      blocks-bytes bs,
    )

pop_loop_lem :
    (fuel : ℕ) (bs : List Block) (ds es : List V2) (d : V2) (r : Reader)
    → length bs < fuel
    → AllFit bs
    → meanings ds bs ≡ some (es ++ d ∷ [])
    → r.buf ≡ description_bytes bs
    → pop_loop fuel ds r ≡ ok (d, record r { buf = [] })
unfolding pop_loop
pop_loop_lem zero bs ds es d r n h e q = absurd (omega arith)
pop_loop_lem (suc fuel) [] ds es d r n h e q = rw (q, some-injective e, last-append es d) refl
pop_loop_lem (suc fuel) (b ∷ bs) ds es d r n (fits, h) e q =
    let (x, p, e₁) = >>=?-some (meaning ds b.id b.shape) _ (es ++ d ∷ []) e in
    rw
      (
        ne→== (length r.buf) 0 (omega (arith, ap length q, blocks-bytes (b ∷ bs))),
        (Reads-one ds b x fits p).reads (description_bytes bs) r q,
      )
      (pop_loop_lem fuel bs (ds ++ x ∷ []) es d (record r { buf = description_bytes bs })
        (omega arith) h e₁ refl)

-- A description in which every number and length fits its bytes, every position names a block before it,
-- and every cardinality is a known one is read to its end, and PopV2 returns the descriptor of its last
-- block.
pub pop_v2-description :
    (bs : List Block) (es : List V2) (d : V2) (r : Reader)
    → AllFit bs
    → meanings [] bs ≡ some (es ++ d ∷ [])
    → r.buf ≡ description_bytes bs
    → pop_v2 r ≡ ok (d, record r { buf = [] })
unfolding pop_v2
pop_v2-description [] [] d r h e q = absurd (cc)
pop_v2-description [] (x ∷ es) d r h e q = absurd (cc)
pop_v2-description (b ∷ bs) es d r h e q =
    rw (ne→== (length r.buf) 0 (omega (arith, ap length q, blocks-bytes (b ∷ bs)))) (
      pop_loop_lem (length r.buf + 1) (b ∷ bs) [] es d r
        (omega (arith, ap length q, blocks-bytes (b ∷ bs))) h e q)
