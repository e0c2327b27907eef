-- ===== src/Screen/Text.antt =====
-- source/Screen.cpp: what printed text looks like in video memory.
use flix.Base.{
  ℕ, zero, suc, ◌+◌, ◌*◌, ◌/◌, ◌%◌, ◌^◌, ◌<◌, ◌≤◌, ◌≡◌, refl, ◌∙◌, ap, Bool, true, false, some,
  List, [], ◌∷◌, ltb, ◌==◌, if◌then◌else◌, assign, assign_self, assign_ne, arith, >>=-some, length,
  get_or, sym, inl, inr, Bool-cases,
}
use mathlib.Core.Path.{subst}
use flix.Screen.{Screen, Color, color_code, cell_value, write_char, settle, put_char, put_string}
use flix.Screen.Cursor.{IsInside, put_at-runs}

-- No control characters, which move the cursor.
abbrev pub is_shown : ℕ → Bool
is_shown c =
    if c == 10
    then false
    else if c == 13
    then false
    else if c == 8
    then false
    else if c == 9
    then false
    else true

abbrev pub AllShown : List ℕ → Type 0
AllShown [] = Unit
AllShown (c ∷ cs) = (is_shown c ≡ true) × AllShown cs

-- What the cell of a character holds.
pub record IsCell (c : ℕ) (fg bg : Color) (cell : ℕ) : Type 0 where
  pub character : c < 256 → cell % 2 ^ 8 ≡ c
  pub front : c < 128 → cell / 2 ^ 8 % 2 ^ 4 ≡ color_code fg
  pub behind : c < 128 → cell / 2 ^ 12 ≡ color_code bg
  pub sign : 128 ≤ c → c < 256 → cell / 2 ^ 8 ≡ 0xff

color_code-small : (color : Color) → color_code color < 16
color_code-small Color.black = omega arith
color_code-small Color.blue = omega arith
color_code-small Color.green = omega arith
color_code-small Color.cyan = omega arith
color_code-small Color.red = omega arith
color_code-small Color.magenta = omega arith
color_code-small Color.brown = omega arith
color_code-small Color.light_grey = omega arith
color_code-small Color.dark_grey = omega arith
color_code-small Color.light_blue = omega arith
color_code-small Color.light_green = omega arith
color_code-small Color.light_cyan = omega arith
color_code-small Color.light_red = omega arith
color_code-small Color.light_magenta = omega arith
color_code-small Color.light_brown = omega arith
color_code-small Color.white = omega arith

cell_value-IsCell : (c : ℕ) (fg bg : Color) → IsCell c fg bg (cell_value c fg bg)
cell_value-IsCell c fg bg =
    let f = color_code-small fg in
    let b = color_code-small bg in
    elim (Bool-cases (ltb c 128)) [
      | inl low ↦
          let small : c < 128 = ground arith in
          let is : cell_value c fg bg ≡ c + color_code fg * 2 ^ 8 + color_code bg * 2 ^ 12 =
            rw low refl in
          record {
            character = λ _. ap (λ n. n % 2 ^ 8) is ∙ omega arith;
            front = λ _. ap (λ n. n / 2 ^ 8 % 2 ^ 4) is ∙ omega arith;
            behind = λ _. ap (λ n. n / 2 ^ 12) is ∙ omega arith;
            sign = λ more _. absurd (omega arith);
          }
      | inr high ↦
          let big : 128 ≤ c = ground arith in
          let is : cell_value c fg bg ≡ c + 0xff00 = rw high refl in
          record {
            character = λ less. ap (λ n. n % 2 ^ 8) is ∙ omega arith;
            front = λ less. absurd (omega arith);
            behind = λ less. absurd (omega arith);
            sign = λ _ less. ap (λ n. n / 2 ^ 8) is ∙ omega arith;
          }
    ]

-- What a text that fits the line leaves: its cells from index `start` on, and no other change.
pub record Shows (start : ℕ) (cs : List ℕ) (fg bg : Color) (s s' : Screen) : Type 0 where
  pub column : s'.x ≡ s.x + length cs
  pub line : s'.y ≡ s.y
  pub text : (i : ℕ) → i < length cs → IsCell (get_or cs i 0) fg bg (s'.cells (start + i))
  pub before : (j : ℕ) → j < start → s'.cells j ≡ s.cells j
  pub behind : (j : ℕ) → start + length cs ≤ j → s'.cells j ≡ s.cells j

put_char-shown :
    (c : ℕ) (fg bg : Color) (s : Screen)
    → is_shown c ≡ true
    → IsInside s
    → s.x + 1 < 80
    → put_char c fg bg s
      ≡ some
          (record s { cells = assign s.cells (s.y * 80 + s.x) (cell_value c fg bg); x = s.x + 1 })
unfolding put_char write_char settle
put_char-shown c fg bg s shown i room =
    let column = i.column in
    let line = i.line in
    let c₁ : (c == 10) ≡ false = ground arith in
    let c₂ : (c == 13) ≡ false = ground arith in
    let c₃ : (c == 8) ≡ false = ground arith in
    let c₄ : (c == 9) ≡ false = ground arith in
    let more : (s.x + 1 == 80) ≡ false = ground arith in
    let above : (s.y == 24) ≡ false = ground arith in
    let left : ltb (s.x + 1) 80 ≡ true = ground arith in
    let up : ltb s.y 24 ≡ true = ground arith in
    rw (c₁, c₂, c₃, c₄, put_at-runs s.x s.y c fg bg s column line, more, above, left, up) refl

Shows-cons :
    (start c : ℕ) (cs : List ℕ) (fg bg : Color) (s s' : Screen)
    → Shows
        (start + 1)
        cs
        fg
        bg
        (record s { cells = assign s.cells start (cell_value c fg bg); x = s.x + 1 })
        s'
    → Shows start (c ∷ cs) fg bg s s'
Shows-cons start c cs fg bg s s' h =
    let column = h.column in
    record {
      column = omega arith;
      line = h.line;
      text = elim [
        | zero ↦ λ _.
            subst (IsCell c fg bg)
              (sym (
                ap s'.cells (omega arith)
                ∙ h.before start (omega arith)
                ∙ assign_self s.cells start (cell_value c fg bg)))
              (cell_value-IsCell c fg bg)
        | suc i ↦ λ less.
            subst (λ j. IsCell (get_or cs i 0) fg bg (s'.cells j)) (omega arith)
              (h.text i (omega arith))
      ];
      before = λ j less. h.before j (omega arith) ∙ assign_ne s.cells start j _ (λ e. omega arith);
      behind = λ j more. h.behind j (omega arith) ∙ assign_ne s.cells start j _ (λ e. omega arith);
    }

-- A text without newlines, returns, backspaces and tabs that ends before the last column fills the
-- cells from the cursor on with its characters, one cell for each, moves the cursor behind it in the
-- same line, and changes no other cell. The low byte of a cell is the character; for a character
-- below 128 the next four bits are the color in front and the four above them the color behind, and
-- for another one the upper byte is 0xff.
pub put_string-Shows :
    (cs : List ℕ) (fg bg : Color) (s : Screen)
    → AllShown cs
    → IsInside s
    → s.x + length cs < 80
    → (s' : Screen) × (put_string cs fg bg s ≡ some s') × Shows (s.y * 80 + s.x) cs fg bg s s'
unfolding put_string
put_string-Shows [] fg bg s shown i room = (
  s,
  refl,
  record {
    column = omega arith;
    line = refl;
    text = λ j less. absurd (omega arith);
    before = λ j less. refl;
    behind = λ j more. refl;
  },
)
put_string-Shows (c ∷ cs) fg bg s shown i room =
    let s₁ : Screen = record s {
      cells = assign s.cells (s.y * 80 + s.x) (cell_value c fg bg);
      x = s.x + 1;
    } in
    let line = i.line in
    let (s', e, h) =
      put_string-Shows cs fg bg s₁ shown.1 (record { column = omega arith; line = line })
        (omega arith) in
    let next : s.y * 80 + (s.x + 1) ≡ s.y * 80 + s.x + 1 = omega arith in
    (
      s',
      >>=-some _ _ (put_char-shown c fg bg s shown.0 i (omega arith)) ∙ e,
      Shows-cons (s.y * 80 + s.x) c cs fg bg s s' (subst (λ n. Shows n cs fg bg s₁ s') next h),
    )
