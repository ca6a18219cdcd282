-- ===== src/Client/Protocol/Warnings/Positions.antt =====
-- Where the caret of Warning.Err stands.
use edgedb_go.Common.{
  ℕ, zero, suc, ◌+◌, ◌-◌, ◌^◌, ◌<◌, ◌≤◌, ◌==◌, leb, if◌then◌else◌, false, some, List, [], ◌∷◌, ◌++◌,
  length, get_elem?, take, ok, ◌≡◌, ◌≢◌, refl, ap, arith, gt→leb, same-cases, inl, inr, ne→==,
  length-append, ◌∙◌,
}
use edgedb_go.Client.Protocol.{FlowError, from_code, positioned}
use edgedb_go.Client.Protocol.Warnings.{
  Warning, cons_first, split_lines, replace_tabs, rune_count, spaces, hint_or_error, int_sub,
  is_negative, byte_no_in_line, show_line, show_position, warning_err,
}

-- The number of line ends in a text, the part behind the last one, and the part before the first.
unfoldable pub line_ends : List ℕ → ℕ
line_ends [] = 0
line_ends (c ∷ cs) = if c == 10 then suc (line_ends cs) else line_ends cs

unfoldable pub last_line : List ℕ → List ℕ
unfolding line_ends
last_line [] = []
last_line (c ∷ cs) = let later = last_line cs in if line_ends (c ∷ cs) == 0 then c ∷ cs else later

unfoldable pub first_line : List ℕ → List ℕ
first_line [] = []
first_line (c ∷ cs) = let rest = first_line cs in if c == 10 then [] else c ∷ rest

-- The bytes of the first lines, with their line ends.
unfoldable offset : ℕ → List (List ℕ) → ℕ
offset zero lines = 0
offset (suc n) [] = 0
offset (suc n) (line ∷ lines) = suc (length line + offset n lines)

last_line-single : (cs : List ℕ) → line_ends cs ≡ 0 → last_line cs ≡ cs
unfolding last_line line_ends
last_line-single [] h = refl
last_line-single (c ∷ cs) h = ground arith

cons_first-here :
    (c : ℕ) (lines : List (List ℕ)) (line : List ℕ)
    → get_elem? lines 0 ≡ some line
    → get_elem? (cons_first c lines) 0 ≡ some (c ∷ line)
unfolding cons_first
cons_first-here c [] line h = absurd (cc)
cons_first-here c (l ∷ lines) line h = cc

cons_first-later :
    (c n : ℕ) (lines : List (List ℕ)) (line : List ℕ)
    → get_elem? lines (suc n) ≡ some line
    → (get_elem? (cons_first c lines) (suc n) ≡ some line)
      × (offset (suc n) (cons_first c lines) ≡ suc (offset (suc n) lines))
unfolding cons_first offset
cons_first-later c n [] line h = absurd (cc)
cons_first-later c n (l ∷ lines) line h = (h, omega arith)

-- A place and the line that it is in: the number of the line, its start and its text.
abbrev LineOf : List ℕ → List ℕ → List (List ℕ) → ℕ → List ℕ → ℕ → Type 0
LineOf pre post lines n before size =
    (get_elem? lines n ≡ some (before ++ first_line post)) × (offset n lines + length before ≡ size)

-- One more byte in front, which ends no line.
cons_first-LineOf :
    (c n : ℕ) (pre post : List ℕ) (lines : List (List ℕ))
    → line_ends pre ≡ n
    → LineOf pre post lines n (last_line pre) (length pre)
    → LineOf pre post
        (cons_first c lines)
        n
        (if n == 0 then c ∷ pre else last_line pre)
        (suc (length pre))
unfolding offset
cons_first-LineOf c zero pre post lines e (line, start) =
    let whole = last_line-single pre e in
    (cons_first-here c lines (pre ++ first_line post) (rw whole at line), omega arith)
cons_first-LineOf c (suc n) pre post lines e (line, start) =
    let (line', start') = cons_first-later c n lines (last_line pre ++ first_line post) line in
    rw (ne→== (suc n) 0 (omega arith)) (line', omega arith)

-- The line of the split at the number of the line ends before a place, and where it begins.
split_lines-LineOf :
    (pre post : List ℕ)
    → LineOf pre post (split_lines (pre ++ post)) (line_ends pre) (last_line pre) (length pre)
unfolding split_lines line_ends last_line first_line offset
split_lines-LineOf [] [] = (refl, refl)
split_lines-LineOf [] (c ∷ post) = elim (same-cases c 10) [
  | inl same ↦ rw (same) (refl, refl)
  | inr other ↦
      rw (ne→== c 10 other) (
        cons_first-here c (split_lines post) (first_line post) (split_lines-LineOf [] post).0,
        refl,
      )
]
split_lines-LineOf (c ∷ pre) post = elim (same-cases c 10) [
  | inl same ↦
      rw (same, ne→== (suc (line_ends pre)) 0 (omega arith))
        ((split_lines-LineOf pre post).0, omega (arith, (split_lines-LineOf pre post).1))
  | inr other ↦ rw (ne→== c 10 other) (
      cons_first-LineOf c (line_ends pre) pre post (split_lines (pre ++ post)) refl
        (split_lines-LineOf pre post))
]

line_ends-length : (cs : List ℕ) → line_ends cs ≤ length cs
unfolding line_ends
line_ends-length [] = omega arith
line_ends-length (c ∷ cs) = ground (arith, line_ends-length cs)

int_sub_lem : (a b : ℕ) → b ≤ a → a < 2 ^ 63 → int_sub a b ≡ a - b
unfolding int_sub
int_sub_lem a b h small = omega arith

byte_no_in_line_lem :
    (n : ℕ) (lines : List (List ℕ)) (b : ℕ)
    → offset n lines ≤ b
    → b < 2 ^ 63
    → byte_no_in_line n lines b ≡ b - offset n lines
unfolding byte_no_in_line offset
byte_no_in_line_lem zero lines b h small = omega arith
byte_no_in_line_lem (suc n) [] b h small = omega arith
byte_no_in_line_lem (suc n) (line ∷ lines) b h small =
    rw (int_sub_lem b (1 + length line) (omega arith) small) (
      omega
        (arith, byte_no_in_line_lem n lines (b - (1 + length line)) (omega arith) (omega arith)))

length-replace_tabs : (cs : List ℕ) → length (replace_tabs cs) ≡ length cs
unfolding replace_tabs
length-replace_tabs [] = refl
length-replace_tabs (c ∷ cs) = ap suc (length-replace_tabs cs)

take-replace_tabs : (xs ys : List ℕ) → take (length xs) (replace_tabs (xs ++ ys)) ≡ replace_tabs xs
unfolding replace_tabs
take-replace_tabs [] ys = refl
take-replace_tabs (x ∷ xs) ys = ap (λ t. (if x == 9 then 32 else x) ∷ t) (take-replace_tabs xs ys)

-- What is shown of a line with a place in it.
abbrev shown : Warning → ℕ → List ℕ → List ℕ → FlowError
shown w n before after = from_code w.code (
    positioned w.message (1 + n) (1 + rune_count (replace_tabs before))
      (replace_tabs (before ++ after)) (spaces (rune_count (replace_tabs before)))
      (hint_or_error w.hint))

show_line_lem :
    (w : Warning) (n : ℕ) (before after : List ℕ)
    → length before < length (before ++ after)
    → length before < 2 ^ 63
    → show_line w n (length before) (replace_tabs (before ++ after)) ≡ ok (shown w n before after)
unfolding show_line is_negative
show_line_lem w n before after inside small =
    let not_negative : leb (2 ^ 63) (length before) ≡ false = gt→leb _ _ small in
    let in_line : leb (length (replace_tabs (before ++ after))) (length before) ≡ false =
      gt→leb _ _ (omega (arith, length-replace_tabs (before ++ after))) in
    rw (not_negative, in_line, take-replace_tabs before after) refl

show_position_lem :
    (w : Warning) (lines : List (List ℕ)) (n start : ℕ) (before after : List ℕ)
    → get_elem? lines n ≡ some (before ++ after)
    → n < 2 ^ 63
    → start < 2 ^ 63
    → offset n lines + length before ≡ start
    → length before < length (before ++ after)
    → show_position w lines n start ≡ ok (shown w n before after)
unfolding show_position is_negative
show_position_lem w lines n start before after line few small h inside =
    let not_negative : leb (2 ^ 63) n ≡ false = gt→leb _ _ few in
    let place : byte_no_in_line n lines start ≡ length before =
      byte_no_in_line_lem n lines start (omega arith) small ∙ omega arith in
    rw (not_negative, line, place) (show_line_lem w n before after inside (omega arith))

warning_err-show :
    (w : Warning) (query : List ℕ) (line start : ℕ)
    → w.line ≡ some line
    → w.start ≡ some start
    → warning_err w query ≡ show_position w (split_lines query) (int_sub line 1) start
unfolding warning_err
warning_err-show w query line start l s = rw (l, s) refl

-- Err for a warning whose line and start are those of a byte of the query that ends no line: it
-- returns the code with the message, the number of that line, the column, the line with its tabs as
-- spaces, a padding of one space for each rune before the byte, and the hint. The number of the line
-- is one more than the number of line ends before the byte, the line is what stands between the line
-- ends around it, and the column one more than the runes in between. The length of the query is an
-- int.
pub warning_err-position :
    (w : Warning) (pre post : List ℕ) (c : ℕ)
    → c ≢ 10
    → length (pre ++ c ∷ post) < 2 ^ 63
    → w.line ≡ some (1 + line_ends pre)
    → w.start ≡ some (length pre)
    → warning_err w (pre ++ c ∷ post)
      ≡ ok (
          from_code w.code (
            positioned w.message
              (1 + line_ends pre)
              (1 + rune_count (replace_tabs (last_line pre)))
              (replace_tabs (last_line pre ++ first_line (c ∷ post)))
              (spaces (rune_count (replace_tabs (last_line pre))))
              (hint_or_error w.hint)))
unfolding first_line
warning_err-position w pre post c inner small l s =
    let (line, start) = split_lines-LineOf pre (c ∷ post) in
    let sizes = length-append pre (c ∷ post) in
    let ends = line_ends-length pre in
    let number : int_sub (1 + line_ends pre) 1 ≡ line_ends pre =
      int_sub_lem (1 + line_ends pre) 1 (omega arith) (omega arith) ∙ omega arith in
    let longer = length-append (last_line pre) (c ∷ first_line post) in
    let shows =
      show_position_lem w (split_lines (pre ++ c ∷ post)) (line_ends pre) (length pre)
        (last_line pre) (first_line (c ∷ post)) line (omega arith) (omega arith) start
        (rw (ne→== c 10 inner) (omega arith)) in
    warning_err-show w (pre ++ c ∷ post) (1 + line_ends pre) (length pre) l s
    ∙ ap (λ n. show_position w (split_lines (pre ++ c ∷ post)) n (length pre)) number
    ∙ shows
