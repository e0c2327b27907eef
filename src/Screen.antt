-- ===== src/Screen.antt =====
-- source/Screen.cpp and Screen.hpp: the text screen, as a function from the indices of its 16-bit cells, of which 80
-- times 25 are video memory. `none` is a failed assertion. Characters are the bytes of `char`, which is signed.
pub mod Cursor
pub mod Text
mod Tests
use flix.Base.{
  ℕ, ◌+◌, ◌-◌, ◌*◌, ◌/◌, ◌%◌, ◌^◌, Bool, true, false, Option, none, some, List, [], ◌∷◌, zero, suc,
  assert, ◌>>=◌, ◌>>◌, ltb, leb, ◌==◌, if◌then◌else◌, assign,
}

pub data Color : Type 0 where
  black : Color
  blue : Color
  green : Color
  cyan : Color
  red : Color
  magenta : Color
  brown : Color
  light_grey : Color
  dark_grey : Color
  light_blue : Color
  light_green : Color
  light_cyan : Color
  light_red : Color
  light_magenta : Color
  light_brown : Color
  white : Color

abbrev pub color_code : Color → ℕ
color_code Color.black = 0
color_code Color.blue = 1
color_code Color.green = 2
color_code Color.cyan = 3
color_code Color.red = 4
color_code Color.magenta = 5
color_code Color.brown = 6
color_code Color.light_grey = 7
color_code Color.dark_grey = 8
color_code Color.light_blue = 9
color_code Color.light_green = 10
color_code Color.light_cyan = 11
color_code Color.light_red = 12
color_code Color.light_magenta = 13
color_code Color.light_brown = 14
color_code Color.white = 15

pub record Screen : Type 0 where
  pub cells : ℕ → ℕ
  pub x : ℕ
  pub y : ℕ

-- The value of a cell. A byte from 128 on is a negative `char`, whose sign fills the upper byte.
abbrev pub cell_value : ℕ → Color → Color → ℕ
cell_value c fg bg =
    if ltb c 128 then c + color_code fg * 2 ^ 8 + color_code bg * 2 ^ 12 else c + 0xff00

-- `clear`
unfoldable pub clear : Screen → Screen
clear s = record { cells = λ j. if ltb j (80 * 25) then 0 else s.cells j; x = 0; y = 0 }

-- `putChar` at a position.
unfoldable pub put_at : ℕ → ℕ → ℕ → Color → Color → Screen → Option Screen
put_at x y c fg bg s = do
  assert (ltb x 80)
  assert (ltb y 24)
  some (record s { cells = assign s.cells (y * 80 + x) (cell_value c fg bg) })

-- `scrollOneLine`
unfoldable pub scroll_one_line : Screen → Screen
scroll_one_line s = record s {
  cells =
      λ j. if ltb j (80 * 24) then s.cells (j + 80) else if ltb j (80 * 25) then 0 else s.cells j;
}

-- The cursor of a screen that moves to the next line, where the column has come to `x`.
abbrev pub wrap : Bool → ℕ → Screen → Screen
wrap true x s = record s { x = 0; y = s.y + 1 }
wrap false x s = record s { x = x }

-- The `switch` of `putChar`.
unfoldable pub write_char : ℕ → Color → Color → Screen → Option Screen
write_char c fg bg s =
    if c == 10
    then some (record s { x = 0; y = s.y + 1 })
    else if c == 13
    then some (record s { x = 0 })
    else if c == 8
    then put_at (s.x - 1) s.y 0 fg bg (record s { x = s.x - 1 })
    else if c == 9
    then (let x = s.x + (8 - s.x % 8) in some (wrap (leb 80 x) x s))
    else (do s₁ ← put_at s.x s.y c fg bg s; some (wrap (s₁.x + 1 == 80) (s₁.x + 1) s₁))

-- The end of `putChar`.
unfoldable pub settle : Screen → Option Screen
unfolding scroll_one_line
settle s =
    let s₁ = if s.y == 24 then (let t = scroll_one_line s in record t { y = t.y - 1 }) else s in
    do assert (ltb s₁.x 80); assert (ltb s₁.y 24); some s₁

unfoldable pub put_char : ℕ → Color → Color → Screen → Option Screen
put_char c fg bg s = do s₁ ← write_char c fg bg s; settle s₁

-- `putString` without its last step, `update_cursor`.
unfoldable pub put_string : List ℕ → Color → Color → Screen → Option Screen
put_string [] fg bg s = some s
put_string (c ∷ cs) fg bg s = do s₁ ← put_char c fg bg s; put_string cs fg bg s₁

-- The bytes that `updateCursor` writes, each with its port.
abbrev pub update_cursor : Screen → List (ℕ × ℕ)
update_cursor s =
    let location = (s.y * 80 + s.x) % 2 ^ 16 in
    (0x3d4, 14) ∷ (0x3d5, location / 2 ^ 8) ∷ (0x3d4, 15) ∷ (0x3d5, location % 2 ^ 8) ∷ []
