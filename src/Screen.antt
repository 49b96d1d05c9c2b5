-- ===== src/Screen.antt =====
-- The text screen of sys/kprintf.c: `kputchar`, `kprintf`, the clock in the corner, and `clr`.
-- A cell is a `short`: the attribute 7 above the character. `x` and `y` are `int`s, given by their bits.
pub mod Cursor
pub mod Number
use os.Common.{
  ℕ, zero, suc, ◌+◌, ◌-◌, ◌*◌, ◌/◌, ◌%◌, ◌^◌, Bool, true, false, ◌&&◌, Option, none, some, List, [],
  ◌∷◌, ◌++◌, ltb, leb, ◌==◌, if◌then◌else◌,
}
use os.Common.Links.{update}
use os.Strings.{write_digits}

-- WIDTH and HEIGHT.
abbrev pub width : ℕ
width = 80

abbrev pub height : ℕ
height = 24

-- `x`, `y`, the local buffer `arr`, and the video memory.
pub record Screen : Type 0 where
  pub x : ℕ
  pub y : ℕ
  pub arr : ℕ → ℕ
  pub video : ℕ → ℕ

-- BLACK|c for a character.
abbrev pub cell : ℕ → ℕ
cell c = 1792 + c

-- `x+y*WIDTH`, an `int`.
abbrev pub here : Screen → ℕ
here s = (s.x + s.y * width) % 2 ^ 32

-- A character into the low byte of a cell of the video memory, and into the buffer.
unfoldable pub put_cell : ℕ → Screen → Screen
put_cell c s = record s {
  video = update s.video (here s) (s.video (here s) / 256 * 256 + c);
  arr = update s.arr (here s) (cell c);
}

-- The character at the cursor, which moves on.
unfoldable pub put_char : ℕ → Screen → Screen
put_char c s = let t : Screen = put_cell c s in record t { x = t.x + 1 }

-- The cursor moves back, and the character there is cleared.
unfoldable pub moved_back : Screen → Screen
moved_back s =
    if s.x == 0
    then record s { y = (s.y + 2 ^ 32 - 1) % 2 ^ 32; x = width - 1 }
    else record s { x = s.x - 1 }

unfoldable pub back : Screen → Screen
back s = put_cell b' ' (moved_back s)

-- All rows move up by one; the last one is blank.
abbrev pub scrolled : (ℕ → ℕ) → ℕ → ℕ
scrolled cells i =
    if ltb i (1920 - width) then cells (i + width) else if ltb i 1920 then cell b' ' else cells i

-- Behind the conditional on the character: the end of a row, and of the screen.
unfoldable pub wrap_row : Screen → Screen
wrap_row s = if leb width s.x then record s { x = 0; y = (s.y + 1) % 2 ^ 32 } else s

unfoldable pub scroll : Screen → Screen
scroll s =
    if ltb s.y (2 ^ 31) && leb height s.y
    then record s {
      video = λ i. if ltb i 1920 then scrolled s.arr i else s.video i;
      arr = scrolled s.arr;
      y = height - 1;
      x = 0;
    }
    else s

unfoldable pub settle : Screen → Screen
settle s = scroll (wrap_row s)

-- `kputchar` of a character other than a tab. A `char` above 127 is negative and does nothing.
unfoldable pub put_plain : ℕ → Screen → Screen
put_plain c s =
    if c == b'\n'
    then settle (record s { x = 0; y = (s.y + 1) % 2 ^ 32 })
    else if c == b'\r'
    then settle (record s { x = 0 })
    else if leb b' ' c && ltb c 128
    then settle (put_char c s)
    else if c == 8
    then settle (back s)
    else s

-- The loop for a tab, whose counter is `cnt`.
unfoldable pub tab_loop : ℕ → ℕ → Screen → Option Screen
tab_loop zero cnt s = none
tab_loop (suc fuel) cnt s =
    let rest : Option Screen = tab_loop fuel cnt (put_plain b' ' s) in
    if ltb cnt 4 then rest else some (settle s)

-- `none` is missing fuel.
unfoldable pub kputchar : ℕ → ℕ → Screen → Option Screen
kputchar fuel c s = if c == b'\t' then tab_loop fuel 0 s else some (put_plain c s)

unfoldable pub kputs : ℕ → List ℕ → Screen → Option Screen
kputs fuel [] s = some s
kputs fuel (c ∷ cs) s = elim (kputchar fuel c s) [ none ↦ none | some t ↦ kputs fuel cs t ]

-- The string that `convert` writes, for an `unsigned long`.
unfoldable pub convert : ℕ → ℕ → Option (List ℕ)
convert i base = write_digits 65 base i []

-- A variable argument: the bits of an integer, or a string.
pub data Arg : Type 0 where
  number : ℕ → Arg
  text : List ℕ → Arg

-- What a conversion character writes, and the arguments left. A missing or wrong argument reads as 0.
abbrev pub take_number : List Arg → ℕ
take_number (number n ∷ args) = n
take_number _ = 0

abbrev pub take_text : List Arg → List ℕ
take_text (text s ∷ args) = s
take_text _ = []

abbrev pub rest_args : List Arg → List Arg
rest_args [] = []
rest_args (a ∷ args) = args

unfoldable pub conversion : ℕ → List Arg → Option (List ℕ × List Arg)
conversion c args =
    let word : ℕ → List ℕ → Option (List ℕ × List Arg) = λ base prefix.
      elim (convert (take_number args) base) [
        | none ↦ none
        | some digits ↦ some (prefix ++ digits, rest_args args)
      ] in
    let int : Option (List ℕ × List Arg) = elim (convert (take_number args % 2 ^ 32) 10) [
      | none ↦ none
      | some digits ↦ some (digits, rest_args args)
    ] in
    if c == b'c'
    then some (take_number args % 256 ∷ [], rest_args args)
    else if c == b'd'
    then int
    else if c == b's'
    then some (take_text args, rest_args args)
    else if c == b'x'
    then word 16 []
    else if c == b'p'
    then word 16 (b'0' ∷ b'x' ∷ [])
    else some ([], args)

-- The characters that `kprintf` puts. `none` is a format that ends in `%`: the loop goes on behind it.
unfoldable pub format : List ℕ → List Arg → Option (List ℕ)
format [] args = some []
format (c ∷ []) args = if c == b'%' then none else some (c ∷ [])
format (c ∷ d ∷ fmt) args =
    let plain : Option (List ℕ) = elim (format (d ∷ fmt) args) [
      | none ↦ none
      | some out ↦ some (c ∷ out)
    ] in
    let converted : Option (List ℕ) = elim (conversion d args) [
      | none ↦ none
      | some r ↦ elim (format fmt r.1) [ none ↦ none | some out ↦ some (r.0 ++ out) ]
    ] in
    if c == b'%' then converted else plain

unfoldable pub kprintf : ℕ → List ℕ → List Arg → Screen → Option Screen
kprintf fuel fmt args s = elim (format fmt args) [ none ↦ none | some out ↦ kputs fuel out s ]

-- `kputTime` of a number at a cell, for one that is not negative: the digits, in cells from there on.
unfoldable pub put_cells : List ℕ → ℕ → (ℕ → ℕ) → ℕ → ℕ
put_cells [] loc video = video
put_cells (c ∷ cs) loc video = put_cells cs (loc + 1) (update video loc (cell c))

-- The loop over the digits of `integer`, by fuel; at 0 there are none.
unfoldable pub time_digits : ℕ → ℕ → List ℕ → Option (List ℕ)
time_digits zero n done = none
time_digits (suc fuel) n done =
    let rest : Option (List ℕ) = time_digits fuel (n / 10) ((b'0' + n % 10) ∷ done) in
    if n == 0 then some done else rest

unfoldable pub time_text : ℕ → Option (List ℕ)
time_text n = if ltb n 10 then some (b'0' ∷ (b'0' + n) ∷ []) else time_digits 32 n []

unfoldable pub kput_time : ℕ → ℕ → (ℕ → ℕ) → Option (ℕ → ℕ)
kput_time n loc video = elim (time_text n) [ none ↦ none | some cs ↦ some (put_cells cs loc video) ]

-- `update_time`, whose argument `day` is not used. The clock is 15 cells before the end of 25 rows.
unfoldable pub update_time : ℕ → (ℕ → ℕ) → Option (ℕ → ℕ)
update_time sec video =
    let loc : ℕ = 1985 in
    elim (kput_time (sec / 3600) loc video) [
      | none ↦ none
      | some v1 ↦ elim (kput_time (sec % 3600 / 60) (loc + 3) (update v1 (loc + 2) (cell b':'))) [
        | none ↦ none
        | some v2 ↦ kput_time (sec % 3600 % 60) (loc + 6) (update v2 (loc + 5) (cell b':'))
      ]
    ]

unfoldable pub clr : Screen → Screen
clr s = record s {
  video = λ i. if ltb i 1920 then cell b' ' else s.video i;
  arr = λ i. if ltb i 1920 then cell b' ' else s.arr i;
  x = 0;
  y = 0;
}
