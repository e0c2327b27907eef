-- ===== src/Tty/Keys.antt =====
-- source/Keyboard.cpp: from the keys that are pressed to the bytes that are read.
use flix.Base.{
  ℕ, ◌+◌, ◌<◌, ◌≡◌, refl, ◌∙◌, Bool, true, false, Option, none, some, List, [], ◌∷◌, ltb, ◌==◌,
  if◌then◌else◌, arith, inl, inr, Bool-cases, >>=-some, get_or,
}
use flix.Screen.Cursor.{IsInside}
use flix.Tty.{
  Shifts, Console, feed_char, handle_key, handle_interrupt, handle_interrupts, qwerty_up_map,
  qwerty_low_map,
}
use flix.Tty.Lines.{Feeds, feed_input-IsInside}

-- An interrupt with any byte fails no assertion, and the cursor stays in the first 24 lines.
pub handle_interrupt-IsInside :
    (code : ℕ) (o : Console)
    → IsInside o.screen
    → (o' : Console) × (handle_interrupt code o ≡ some o') × IsInside o'.screen
unfolding handle_interrupt Feeds
handle_interrupt-IsInside code o i = fed (handle_key code o.shifts).1
  where
    fed :
        (c : Option ℕ)
        → (o' : Console) × (feed_char c (record o { shifts = (handle_key code o.shifts).0 })
            ≡ some o')
          × IsInside o'.screen
    fed none = (record o { shifts = (handle_key code o.shifts).0 }, refl, i)
    fed (some c) =
        let (stdin, fed) = feed_input-IsInside c o.tty o.screen i in
        let (_, s, e, inside) = fed in
        (
          record {
            shifts = (handle_key code o.shifts).0;
            tty = record { stdin = stdin };
            screen = s;
          },
          >>=-some _ _ e,
          inside,
        )

-- Any bytes from the keyboard, one after the other, with the cursor in the first 24 lines of the
-- screen, fail no assertion, and the cursor stays there.
pub handle_interrupts-IsInside :
    (codes : List ℕ) (o : Console)
    → IsInside o.screen
    → (o' : Console) × (handle_interrupts codes o ≡ some o') × IsInside o'.screen
unfolding handle_interrupts
handle_interrupts-IsInside [] o i = (o, refl, i)
handle_interrupts-IsInside (code ∷ codes) o i =
    let (o₁, e, inside) = handle_interrupt-IsInside code o i in
    let (o', e', inside') = handle_interrupts-IsInside codes o₁ inside in
    (o', >>=-some _ _ e ∙ e', inside')

-- A key that is typed, with the left shift key held or not.
pub record Key : Type 0 where
  pub code : ℕ
  pub shifted : Bool

-- The scan codes of pressing and releasing it.
abbrev pub codes_of : Key → List ℕ
codes_of k =
    if k.shifted then 0x2a ∷ k.code ∷ (k.code + 0x80) ∷ 0xaa ∷ [] else k.code ∷ (k.code + 0x80) ∷ []

abbrev pub char_of : Key → ℕ
char_of k = if k.shifted then get_or qwerty_up_map k.code 0 else get_or qwerty_low_map k.code 0

-- A key of the maps that is neither a modifier nor the backspace.
pub record IsPlain (k : Key) : Type 0 where
  pub below : k.code < 60
  pub not_left : (k.code == 0x2a) ≡ false
  pub not_right : (k.code == 0x36) ≡ false
  pub not_control : (k.code == 0x1d) ≡ false
  pub not_alt : (k.code == 0x38) ≡ false
  pub not_caps : (k.code == 0x3a) ≡ false
  pub not_back : (char_of k == 8) ≡ false

pub handle_key-press :
    (k : Key)
    → IsPlain k
    → handle_key k.code (record { left = k.shifted; right = false })
      ≡ (record { left = k.shifted; right = false }, some (char_of k))
unfolding handle_key
handle_key-press k p =
    let below = p.below in
    let inside : ltb k.code 60 ≡ true = ground arith in
    let no₁ : (k.code == 0xaa) ≡ false = ground arith in
    let no₂ : (k.code == 0xb6) ≡ false = ground arith in
    elim (Bool-cases k.shifted) [
      | inl up ↦
          rw (p.not_left, no₁, p.not_right, no₂, p.not_control, p.not_alt, p.not_caps, inside, up)
            refl
      | inr low ↦
          rw (p.not_left, no₁, p.not_right, no₂, p.not_control, p.not_alt, p.not_caps, inside, low)
            refl
    ]

release-low : (n m : ℕ) → m < 0x80 → (n + 0x80 == m) ≡ false
release-low n m h = ground arith

release-high : (n m : ℕ) → (n == m) ≡ false → (n + 0x80 == m + 0x80) ≡ false
release-high n m h = ground arith

release-ltb : (n : ℕ) → ltb (n + 0x80) 60 ≡ false
release-ltb n = ground arith

pub handle_key-release :
    (k : Key) (h : Shifts) → IsPlain k → handle_key (k.code + 0x80) h ≡ (h, none)
unfolding handle_key
handle_key-release k h p =
    rw
      (
        release-low k.code 0x2a (omega arith),
        release-high k.code 0x2a p.not_left,
        release-low k.code 0x36 (omega arith),
        release-high k.code 0x36 p.not_right,
        release-low k.code 0x1d (omega arith),
        release-low k.code 0x38 (omega arith),
        release-low k.code 0x3a (omega arith),
        release-ltb k.code,
      )
      refl
