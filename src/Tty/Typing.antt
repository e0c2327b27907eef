-- ===== src/Tty/Typing.antt =====
-- source/Keyboard.cpp and Tty.cpp: keys that are typed are read.
use flix.Base.{
  ℕ, ◌+◌, ◌≡◌, refl, ◌∙◌, sym, ap, Bool, true, false, some, List, [], ◌∷◌, ◌++◌, map, ◌==◌, arith,
  inl, inr, Bool-cases, >>=-some, take, drop,
}
use mathlib.Core.Path.{subst}
use mathlib.Core.List.{append_assoc, append-nil}
use flix.Screen.{Screen}
use flix.Screen.Cursor.{IsInside}
use flix.Tty.{Shifts, Console, Reading, read_into, handle_key, handle_interrupt, handle_interrupts}
use flix.Tty.Lines.{Feeds, feed_input-push}
use flix.Tty.Keys.{Key, codes_of, char_of, IsPlain, handle_key-press, handle_key-release}

-- No shift key is held.
abbrev pub idle : Shifts
idle = record { left = false; right = false }

abbrev console : Shifts → List ℕ → Screen → Console
console h stdin s = record { shifts = h; tty = record { stdin = stdin }; screen = s }

abbrev held : Bool → Shifts
held b = record { left = b; right = false }

-- What a key leaves: its character is read next, after what is there.
Types : Shifts → ℕ → List ℕ → Screen → ℕ → Type 0
Types h code stdin s c =
    (s' : Screen) × (handle_interrupt code (console h stdin s)
      ≡ some (console h (stdin ++ (c ∷ [])) s'))
    × IsInside s'

handle_interrupt-press :
    (k : Key) (b : Bool) (stdin : List ℕ) (s : Screen)
    → k.shifted ≡ b
    → IsPlain k
    → IsInside s
    → Types (held b) k.code stdin s (char_of k)
unfolding handle_interrupt Feeds Types
handle_interrupt-press k b stdin s same p i =
    let (_, s', e, inside) =
      feed_input-push (char_of k) (record { stdin = stdin }) s i p.not_back in
    subst (λ b. Types (held b) k.code stdin s (char_of k)) same
      (s', rw (handle_key-press k p) (>>=-some _ _ e), inside)

handle_interrupt-release :
    (k : Key) (o : Console) → IsPlain k → handle_interrupt (k.code + 0x80) o ≡ some o
unfolding handle_interrupt
handle_interrupt-release k o p = rw (handle_key-release k o.shifts p) refl

next :
    (code : ℕ) (codes : List ℕ) (o o₁ : Console)
    → handle_interrupt code o ≡ some o₁
    → handle_interrupts (code ∷ codes) o ≡ handle_interrupts codes o₁
unfolding handle_interrupts
next code codes o o₁ e = >>=-some _ _ e

shift_down :
    (o : Console)
    → handle_interrupt 0x2a o ≡ some (record o { shifts = record (o.shifts) { left = true } })
unfolding handle_interrupt handle_key
shift_down o = refl

shift_up :
    (o : Console)
    → handle_interrupt 0xaa o ≡ some (record o { shifts = record (o.shifts) { left = false } })
unfolding handle_interrupt handle_key
shift_up o = refl

-- One key.
handle_interrupts-codes_of :
    (k : Key) (codes stdin : List ℕ) (s : Screen)
    → IsPlain k
    → IsInside s
    → (s' : Screen) × (handle_interrupts (codes_of k ++ codes) (console idle stdin s)
        ≡ handle_interrupts codes (console idle (stdin ++ (char_of k ∷ [])) s'))
      × IsInside s'
handle_interrupts-codes_of k codes stdin s p i =
    unfold Types in
    elim (Bool-cases k.shifted) [
      | inl up ↦
          let (s', e, inside) = handle_interrupt-press k true stdin s up p i in
          let after : Console = console (held true) (stdin ++ (char_of k ∷ [])) s' in
          let spelled : codes_of k ++ codes ≡ 0x2a ∷ k.code ∷ (k.code + 0x80) ∷ 0xaa ∷ codes =
            rw up refl in
          (
            s',
            ap (λ l. handle_interrupts l (console idle stdin s)) spelled
                ∙ next 0x2a _ (console idle stdin s) (console (held true) stdin s) (shift_down _)
                ∙ next k.code _ (console (held true) stdin s) after e
                ∙ next (k.code + 0x80) _ after after (handle_interrupt-release k after p)
                ∙ next 0xaa codes after (console idle (stdin ++ (char_of k ∷ [])) s')
                    (shift_up after),
            inside,
          )
      | inr low ↦
          let (s', e, inside) = handle_interrupt-press k false stdin s low p i in
          let after : Console = console idle (stdin ++ (char_of k ∷ [])) s' in
          let spelled : codes_of k ++ codes ≡ k.code ∷ (k.code + 0x80) ∷ codes = rw low refl in
          (
            s',
            ap (λ l. handle_interrupts l (console idle stdin s)) spelled
                ∙ next k.code _ (console idle stdin s) after e
                ∙ next (k.code + 0x80) codes after after (handle_interrupt-release k after p),
            inside,
          )
    ]

-- The scan codes of a list of keys.
abbrev pub all_codes : List Key → List ℕ
all_codes [] = []
all_codes (k ∷ ks) = codes_of k ++ all_codes ks

abbrev pub AllPlain : List Key → Type 0
AllPlain [] = Unit
AllPlain (k ∷ ks) = IsPlain k × AllPlain ks

handle_interrupts-all_codes :
    (ks : List Key) (stdin : List ℕ) (s : Screen)
    → AllPlain ks
    → IsInside s
    → (s' : Screen) × (handle_interrupts (all_codes ks) (console idle stdin s)
        ≡ some (console idle (stdin ++ map char_of ks) s'))
      × IsInside s'
handle_interrupts-all_codes [] stdin s p i =
    (s, unfold handle_interrupts in ap (λ l. some (console idle l s)) (sym (append-nil stdin)), i)
handle_interrupts-all_codes (k ∷ ks) stdin s p i =
    let (s₁, e, inside) = handle_interrupts-codes_of k (all_codes ks) stdin s p.0 i in
    let (s', e', inside') =
      handle_interrupts-all_codes ks (stdin ++ (char_of k ∷ [])) s₁ p.1 inside in
    (
      s',
      e
          ∙ e'
          ∙ ap (λ l. some (console idle l s'))
              (append_assoc stdin (char_of k ∷ []) (map char_of ks)),
      inside',
    )

-- Keys of the maps, none a modifier or the backspace, that are pressed and released one after the
-- other, each with or without the left shift key, on an idle keyboard at an empty terminal, with the
-- cursor in the first 24 lines of the screen, fail no assertion and leave the keyboard idle; a read
-- of one byte or more then gives their characters in order, up to its size, and leaves the rest.
pub read_into-all_codes :
    (k : Key) (ks : List Key) (size : ℕ) (s : Screen)
    → AllPlain (k ∷ ks)
    → IsInside s
    → (o : Console) × (handle_interrupts
          (all_codes (k ∷ ks))
          (record { shifts = idle; tty = record { stdin = [] }; screen = s })
        ≡ some o)
      × (read_into (size + 1) o.tty
          ≡ Reading.done
              (take (size + 1) (map char_of (k ∷ ks)))
              (record { stdin = drop (size + 1) (map char_of (k ∷ ks)) }))
      × (o.shifts ≡ idle)
unfolding read_into
read_into-all_codes k ks size s p i =
    let (s', e, _) = handle_interrupts-all_codes (k ∷ ks) [] s p i in
    let some_size : (size + 1 == 0) ≡ false = ground arith in
    (console idle (map char_of (k ∷ ks)) s', e, rw some_size refl, refl)
