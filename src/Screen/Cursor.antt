-- ===== src/Screen/Cursor.antt =====
-- source/Screen.cpp: the cursor stays in the first 24 lines, and nothing is written behind video memory.
use flix.Base.{
  ℕ, ◌+◌, ◌-◌, ◌*◌, ◌%◌, ◌<◌, ◌≤◌, ◌≡◌, refl, ◌∙◌, true, false, Option, some, List, [], ◌∷◌, ◌>>=◌,
  ltb, leb, ◌==◌, assign, arith, inl, inr, Bool-cases, >>=-some,
}
use flix.Screen.{
  Screen, Color, cell_value, put_at, scroll_one_line, wrap, write_char, settle, put_char,
  put_string,
}

pub record IsInside (s : Screen) : Type 0 where
  pub column : s.x < 80
  pub line : s.y < 24

-- Where `write_char` may leave the cursor.
record IsNear (s : Screen) : Type 0 where
  column : s.x < 80
  line : s.y ≤ 24

-- Memory behind the screen's 25 lines is as before.
pub record KeepsRest (s s' : Screen) : Type 0 where
  pub keeps : (j : ℕ) → 80 * 25 ≤ j → s'.cells j ≡ s.cells j

settle-IsInside :
    (s : Screen) → IsNear s → (s' : Screen) × (settle s ≡ some s') × IsInside s' × KeepsRest s s'
unfolding settle scroll_one_line
settle-IsInside s n =
    let column = n.column in
    let line = n.line in
    let left : ltb s.x 80 ≡ true = ground arith in
    elim (Bool-cases (s.y == 24)) [
      | inl bottom ↦
          let up : ltb (s.y - 1) 24 ≡ true = ground arith in
          let t = scroll_one_line s in
          (
            record t { y = t.y - 1 },
            rw (bottom, left, up) refl,
            record { column = column; line = ground arith },
            record {
              keeps = λ j h.
                  let far : ltb j (80 * 24) ≡ false = ground arith in
                  let far' : ltb j (80 * 25) ≡ false = ground arith in rw (far, far') refl;
            },
          )
      | inr above ↦
          let up : ltb s.y 24 ≡ true = ground arith in
          (
            s,
            rw (above, left, up) refl,
            record { column = column; line = ground arith },
            record { keeps = λ j h. refl },
          )
    ]

pub put_at-runs :
    (x y c : ℕ) (fg bg : Color) (s : Screen)
    → x < 80
    → y < 24
    → put_at x y c fg bg s
      ≡ some (record s { cells = assign s.cells (y * 80 + x) (cell_value c fg bg) })
unfolding put_at
put_at-runs x y c fg bg s h h' =
    let a : ltb x 80 ≡ true = ground arith in
    let b : ltb y 24 ≡ true = ground arith in rw (a, b) refl

assign-KeepsRest :
    (s : Screen) (x y v : ℕ)
    → x < 80
    → y < 24
    → (j : ℕ) → 80 * 25 ≤ j
    → assign s.cells (y * 80 + x) v j ≡ s.cells j
assign-KeepsRest s x y v h h' j far =
    let off : (j == y * 80 + x) ≡ false = ground arith in rw off refl

-- A step that ends well, near the first 24 lines.
Goes : Option Screen → Screen → Type 0
Goes r s = (s' : Screen) × (r ≡ some s') × IsNear s' × KeepsRest s s'

write_char-put :
    (c : ℕ) (fg bg : Color) (s : Screen)
    → IsInside s
    → Goes (put_at s.x s.y c fg bg s >>= λ s₁. some (wrap (s₁.x + 1 == 80) (s₁.x + 1) s₁)) s
unfolding Goes
write_char-put c fg bg s i =
    let column = i.column in
    let line = i.line in
    let cells = assign s.cells (s.y * 80 + s.x) (cell_value c fg bg) in
    let rest = assign-KeepsRest s s.x s.y (cell_value c fg bg) column line in
    elim (Bool-cases (s.x + 1 == 80)) [
      | inl last ↦ (
        record s { cells = cells; x = 0; y = s.y + 1 },
        >>=-some _ _ (put_at-runs s.x s.y c fg bg s column line) ∙ rw last refl,
        record { column = omega arith; line = omega arith },
        record { keeps = rest },
      )
      | inr more ↦ (
        record s { cells = cells; x = s.x + 1 },
        >>=-some _ _ (put_at-runs s.x s.y c fg bg s column line) ∙ rw more refl,
        record { column = ground arith; line = omega arith },
        record { keeps = rest },
      )
    ]

write_char-tab :
    (s : Screen)
    → IsInside s
    → Goes (some (wrap (leb 80 (s.x + (8 - s.x % 8))) (s.x + (8 - s.x % 8)) s)) s
unfolding Goes
write_char-tab s i =
    let column = i.column in
    let line = i.line in
    elim (Bool-cases (leb 80 (s.x + (8 - s.x % 8)))) [
      | inl over ↦ (
        record s { x = 0; y = s.y + 1 },
        rw over refl,
        record { column = omega arith; line = omega arith },
        record { keeps = λ j h. refl },
      )
      | inr more ↦ (
        record s { x = s.x + (8 - s.x % 8) },
        rw more refl,
        record { column = ground arith; line = omega arith },
        record { keeps = λ j h. refl },
      )
    ]

write_char-Goes : (c : ℕ) (fg bg : Color) (s : Screen) → IsInside s → Goes (write_char c fg bg s) s
unfolding write_char Goes
write_char-Goes c fg bg s i =
    let column = i.column in
    let line = i.line in
    elim (Bool-cases (c == 10)) [
      | inl newline ↦ (
        record s { x = 0; y = s.y + 1 },
        rw newline refl,
        record { column = omega arith; line = omega arith },
        record { keeps = λ j h. refl },
      )
      | inr c₁ ↦ elim (Bool-cases (c == 13)) [
        | inl return ↦ (
          record s { x = 0 },
          rw (c₁, return) refl,
          record { column = omega arith; line = omega arith },
          record { keeps = λ j h. refl },
        )
        | inr c₂ ↦ elim (Bool-cases (c == 8)) [
          | inl back ↦
              let t : Screen = record s { x = s.x - 1 } in
              (
                record t { cells = assign s.cells (s.y * 80 + (s.x - 1)) (cell_value 0 fg bg) },
                rw (c₁, c₂, back) (put_at-runs (s.x - 1) s.y 0 fg bg t (omega arith) line),
                record { column = omega arith; line = omega arith },
                record {
                  keeps = assign-KeepsRest s (s.x - 1) s.y (cell_value 0 fg bg) (omega arith) line;
                },
              )
          | inr c₃ ↦ elim (Bool-cases (c == 9)) [
            | inl tab ↦
                let (s', e, near, k) = write_char-tab s i in (s', rw (c₁, c₂, c₃, tab) e, near, k)
            | inr c₄ ↦
                let (s', e, near, k) = write_char-put c fg bg s i in
                (s', rw (c₁, c₂, c₃, c₄) e, near, k)
          ]
        ]
      ]
    ]

pub put_char-IsInside :
    (c : ℕ) (fg bg : Color) (s : Screen)
    → IsInside s
    → (s' : Screen) × (put_char c fg bg s ≡ some s') × IsInside s' × KeepsRest s s'
unfolding put_char Goes
put_char-IsInside c fg bg s i =
    let (s₁, e, near, k) = write_char-Goes c fg bg s i in
    let (s', e', inside, k') = settle-IsInside s₁ near in
    (s', >>=-some _ _ e ∙ e', inside, record { keeps = λ j h. k'.keeps j h ∙ k.keeps j h })

-- With the cursor in the first 24 lines, a text of any bytes is printed without a failed assertion;
-- the cursor stays there, and memory behind the 25 lines of the screen is as before.
pub put_string-IsInside :
    (cs : List ℕ) (fg bg : Color) (s : Screen)
    → IsInside s
    → (s' : Screen) × (put_string cs fg bg s ≡ some s') × IsInside s' × KeepsRest s s'
unfolding put_string
put_string-IsInside [] fg bg s i = (s, refl, i, record { keeps = λ j h. refl })
put_string-IsInside (c ∷ cs) fg bg s i =
    let (s₁, e, inside, k) = put_char-IsInside c fg bg s i in
    let (s', e', inside', k') = put_string-IsInside cs fg bg s₁ inside in
    (s', >>=-some _ _ e ∙ e', inside', record { keeps = λ j h. k'.keeps j h ∙ k.keeps j h })
