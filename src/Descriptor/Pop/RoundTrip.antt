-- ===== src/Descriptor/Pop/RoundTrip.antt =====
-- `Pop` reads what a description of types says.
use edgedb_go.Common.{
  ℕ, zero, suc, ◌+◌, ◌<◌, ◌≤◌, ◌≡◌, refl, ap, sym, ◌∙◌, arith, ok, Bool, true, false, some,
  >>=?-some, List, [], ◌∷◌, ◌++◌, length, length-append, append_assoc, append-nil, ne→==,
}
use edgedb_go.Buff.Reader.{Reader}
use edgedb_go.Descriptor.{Descriptor, zero_descriptor}
use edgedb_go.Descriptor.Version.{ProtocolVersion}
use edgedb_go.Descriptor.Pop.{pop_one, last, pop_loop, pop}
use edgedb_go.Descriptor.Pop.Shapes.{has_cards, some-injective, shape-Case}
use edgedb_go.Descriptor.Reads.{Reads, Reads-bind, Reads-uint8, Reads-uuid}
use edgedb_go.Descriptor.Wire.{
  Shape, an_object, an_annotation, Block, code, block_bytes, description_bytes, meaning, meanings,
  ShapeFits, BlockFits, AllFit,
}

code-small : (cards : Bool) (s : Shape) → ShapeFits cards s → code s < 256
code-small cards (an_object false xs) h = omega arith
code-small cards (an_object true xs) h = omega arith
code-small cards s h = omega arith

pub last-append : {A : Type 0} (ds : List A) (d : A) → last (ds ++ d ∷ []) ≡ ok d
last-append [] d = refl
last-append (x ∷ []) d = refl
last-append (x ∷ (y ∷ ds)) d = last-append (y ∷ ds) d

blocks-bytes : (cards : Bool) (bs : List Block) → length bs ≤ length (description_bytes cards bs)
blocks-bytes cards [] = omega arith
blocks-bytes cards (b ∷ bs) =
    omega (
      arith,
      length-append (block_bytes cards b) (description_bytes cards bs),
      blocks-bytes cards bs,
    )

description_bytes-append :
    (cards : Bool) (bs bs' : List Block)
    → description_bytes cards (bs ++ bs')
      ≡ description_bytes cards bs ++ description_bytes cards bs'
description_bytes-append cards [] bs' = refl
description_bytes-append cards (b ∷ bs) bs' =
    ap (λ t. block_bytes cards b ++ t) (description_bytes-append cards bs bs')
    ∙ sym (
        append_assoc (block_bytes cards b) (description_bytes cards bs)
          (description_bytes cards bs'))

meanings-append :
    (cards : Bool) (bs bs' : List Block) (ds es : List Descriptor)
    → meanings cards ds bs ≡ some es
    → meanings cards ds (bs ++ bs') ≡ meanings cards es bs'
meanings-append cards [] bs' ds es e = ap (λ x. meanings cards x bs') (some-injective e)
meanings-append cards (b ∷ bs) bs' ds es e =
    let (x, p, e₁) = >>=?-some (meaning ds cards b.id b.shape) _ es e in
    rw p (meanings-append cards bs bs' (ds ++ x ∷ []) es e₁)

AllFit-append :
    (cards : Bool) (bs : List Block) (b : Block)
    → AllFit cards bs
    → BlockFits cards b
    → AllFit cards (bs ++ b ∷ [])
AllFit-append cards [] b h fits = (fits, tt)
AllFit-append cards (x ∷ bs) b (f, h) fits = (f, AllFit-append cards bs b h fits)

module _ (version : ProtocolVersion) (cards : Bool) (v : has_cards version ≡ cards) where
  Reads-one :
      (ds : List Descriptor) (b : Block) (d : Descriptor)
      → BlockFits cards b
      → meaning ds cards b.id b.shape ≡ some d
      → Reads (pop_one version ds) (block_bytes cards b) (λ r. (d, r))
  unfolding pop_one
  Reads-one ds b d (n, h) e =
      Reads-bind _ (Reads-uint8 (code b.shape) (code-small cards b.shape h))
        (Reads-bind _ (Reads-uuid b.id n) (shape-Case version cards v ds b.id b.shape d h e))

  pop_loop_lem :
      (fuel : ℕ) (bs : List Block) (ds es : List Descriptor) (d : Descriptor) (r : Reader)
      → length bs < fuel
      → AllFit cards bs
      → meanings cards ds bs ≡ some (es ++ d ∷ [])
      → r.buf ≡ description_bytes cards bs
      → pop_loop fuel version ds r ≡ ok (d, record r { buf = [] })
  unfolding pop_loop
  pop_loop_lem zero bs ds es d r n h e q = absurd (omega arith)
  pop_loop_lem (suc fuel) [] ds es d r n h e q = rw (q, some-injective e, last-append es d) refl
  pop_loop_lem (suc fuel) (b ∷ bs) ds es d r n (fits, h) e q =
      let (x, p, e₁) = >>=?-some (meaning ds cards b.id b.shape) _ (es ++ d ∷ []) e in
      let back = description_bytes cards bs in
      rw
        (
          ne→== (length r.buf) 0 (omega (arith, ap length q)),
          (Reads-one ds b x fits p).reads back r q,
        )
        (pop_loop_lem fuel bs (ds ++ x ∷ []) es d (record r { buf = back }) (omega arith) h e₁ refl)

  -- A description in which every number and length fits its bytes, every position names a block before
  -- it, and every cardinality is a known one is read to its end, and Pop returns the descriptor of its
  -- last block. The flags and the cardinality of a field are there as the version has them.
  pub pop-description :
      (bs : List Block) (es : List Descriptor) (d : Descriptor) (r : Reader)
      → AllFit cards bs
      → meanings cards [] bs ≡ some (es ++ d ∷ [])
      → r.buf ≡ description_bytes cards bs
      → pop version r ≡ ok (d, record r { buf = [] })
  unfolding pop
  pop-description [] [] d r h e q = absurd (cc)
  pop-description [] (x ∷ es) d r h e q = absurd (cc)
  pop-description (b ∷ bs) es d r h e q = rw (ne→== (length r.buf) 0 (omega (arith, ap length q))) (
      pop_loop_lem (length r.buf + 1) (b ∷ bs) [] es d r
        (omega (arith, ap length q, blocks-bytes cards (b ∷ bs))) h e q)

  -- An annotation is not passed over: behind a description that fits its bytes and refers to earlier
  -- blocks and known cardinalities only, an annotation makes Pop return the descriptor that has no
  -- field, the type Set and the ID of zeros, whatever the blocks before it describe.
  pub pop-annotation :
      (bs : List Block) (es : List Descriptor) (id bytes : List ℕ) (c : ℕ) (r : Reader)
      → AllFit cards bs
      → meanings cards [] bs ≡ some es
      → BlockFits cards (record { id = id; shape = an_annotation c bytes })
      → r.buf
        ≡ description_bytes cards bs
          ++ block_bytes cards (record { id = id; shape = an_annotation c bytes })
      → pop version r ≡ ok (zero_descriptor, record r { buf = [] })
  pop-annotation bs es id bytes c r h e fits q =
      let b : Block = record { id = id; shape = an_annotation c bytes } in
      pop-description (bs ++ b ∷ []) es zero_descriptor r (AllFit-append cards bs b h fits)
        (meanings-append cards bs (b ∷ []) [] es e)
        (q
          ∙ (ap (λ t. description_bytes cards bs ++ t) (sym (append-nil (block_bytes cards b)))
              ∙ sym (description_bytes-append cards bs (b ∷ []))))
