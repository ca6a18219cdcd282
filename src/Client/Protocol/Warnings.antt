-- ===== src/Client/Protocol/Warnings.antt =====
-- Warning.Err of internal/client/warning.go. An int is its bit pattern in 64 bits, whose upper half
-- is negative.
pub mod Positions
use edgedb_go.Common.{
  ℕ, zero, suc, ◌+◌, ◌-◌, ◌%◌, ◌^◌, ◌==◌, ltb, leb, if◌then◌else◌, Bool, true, false, ◌&&◌, Option,
  none, some, List, [], ◌∷◌, length, get_elem?, take, NoError, Outcome, ok, panic,
}
use edgedb_go.Client.Protocol.{FlowError, from_code, plain, positioned}

pub record Warning : Type 0 where
  pub code : ℕ
  pub message : List ℕ
  pub hint : List ℕ
  pub line : Option ℕ
  pub start : Option ℕ

-- `strings.Split(query, "\n")`
cons_first : ℕ → List (List ℕ) → List (List ℕ)
cons_first c [] = (c ∷ []) ∷ []
cons_first c (line ∷ lines) = (c ∷ line) ∷ lines

unfoldable pub split_lines : List ℕ → List (List ℕ)
unfolding cons_first
split_lines [] = [] ∷ []
split_lines (c ∷ cs) = let rest = split_lines cs in if c == 10 then [] ∷ rest else cons_first c rest

-- `strings.ReplaceAll(line, "\t", " ")`
unfoldable pub replace_tabs : List ℕ → List ℕ
replace_tabs [] = []
replace_tabs (c ∷ cs) = (if c == 9 then 32 else c) ∷ replace_tabs cs

-- utf8.RuneCountInString: the bytes after the first that belong to the rune, none where the bytes
-- are no rune.
between : ℕ → ℕ → List ℕ → Bool
between lo hi [] = false
between lo hi (c ∷ cs) = leb lo c && leb c hi

rest_of : List ℕ → List ℕ
rest_of [] = []
rest_of (c ∷ cs) = cs

second_low : ℕ → ℕ
second_low b = if b == 0xe0 then 0xa0 else if b == 0xf0 then 0x90 else 0x80

second_high : ℕ → ℕ
second_high b = if b == 0xed then 0x9f else if b == 0xf4 then 0x8f else 0xbf

continuation : List ℕ → Bool
unfolding between
continuation cs = between 0x80 0xbf cs

rune_rest : ℕ → List ℕ → ℕ
unfolding between rest_of second_low second_high continuation
rune_rest b cs =
    let second = between (second_low b) (second_high b) cs in
    let third = second && continuation (rest_of cs) in
    let fourth = third && continuation (rest_of (rest_of cs)) in
    if ltb b 0xc2
    then 0
    else if ltb b 0xe0
    then (if second then 1 else 0)
    else if ltb b 0xf0
    then (if third then 2 else 0)
    else if ltb b 0xf5
    then (if fourth then 3 else 0)
    else 0

-- The runes that begin behind the next `skip` bytes.
count_runes : ℕ → List ℕ → ℕ
unfolding rune_rest
count_runes skip [] = 0
count_runes (suc skip) (b ∷ bs) = count_runes skip bs
count_runes zero (b ∷ bs) = 1 + count_runes (rune_rest b bs) bs

unfoldable pub rune_count : List ℕ → ℕ
unfolding count_runes
rune_count bs = count_runes 0 bs

-- `strings.Repeat(" ", n)`
unfoldable pub spaces : ℕ → List ℕ
spaces zero = []
spaces (suc n) = 32 ∷ spaces n

-- "error"
abbrev pub default_hint : List ℕ
default_hint = 101 ∷ 114 ∷ 114 ∷ 111 ∷ 114 ∷ []

unfoldable pub hint_or_error : List ℕ → List ℕ
hint_or_error [] = default_hint
hint_or_error (c ∷ cs) = c ∷ cs

-- `a - b` of ints
unfoldable pub int_sub : ℕ → ℕ → ℕ
int_sub a b = (a + (2 ^ 64 - b)) % 2 ^ 64

-- `x < 0`
unfoldable pub is_negative : ℕ → Bool
is_negative x = leb (2 ^ 63) x

-- The loop over the lines above: `byteNo -= 1 + len(lines[i])`.
unfoldable pub byte_no_in_line : ℕ → List (List ℕ) → ℕ → ℕ
unfolding int_sub
byte_no_in_line zero lines byte_no = byte_no
byte_no_in_line (suc n) [] byte_no = byte_no
byte_no_in_line (suc n) (line ∷ lines) byte_no =
    byte_no_in_line n lines (int_sub byte_no (1 + length line))

-- The error once the line is found and its tabs are replaced; `byte_no` counts from its start.
show_line : Warning → ℕ → ℕ → List ℕ → Outcome NoError FlowError
unfolding is_negative rune_count spaces hint_or_error
show_line w line_no byte_no line =
    if is_negative byte_no
    then panic
    else let runes = rune_count (take (if leb (length line) byte_no then 0 else byte_no) line) in
      ok (
        from_code w.code (
          positioned w.message (1 + line_no) (1 + runes) line (spaces runes)
            (hint_or_error w.hint)))

-- `lines[lineNo]` panics at a negative number; the number is compared with the length before.
show_position : Warning → List (List ℕ) → ℕ → ℕ → Outcome NoError FlowError
unfolding is_negative byte_no_in_line replace_tabs show_line
show_position w lines line_no start =
    if is_negative line_no then panic else elim (get_elem? lines line_no) [
      | none ↦ ok (from_code w.code (plain w.message))
      | some line ↦ show_line w line_no (byte_no_in_line line_no lines start) (replace_tabs line)
    ]

unfoldable pub warning_err : Warning → List ℕ → Outcome NoError FlowError
unfolding split_lines int_sub show_position
warning_err w query = elim w.line [
  | none ↦ ok (from_code w.code (plain w.message))
  | some line ↦ elim w.start [
    | none ↦ ok (from_code w.code (plain w.message))
    | some start ↦ show_position w (split_lines query) (int_sub line 1) start
  ]
]
