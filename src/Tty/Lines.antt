-- ===== src/Tty/Lines.antt =====
-- source/Tty.cpp: the terminal's queue of input.
use flix.Base.{
  ℕ, ◌≡◌, refl, sym, ap, Bool, false, some, List, [], ◌∷◌, ◌++◌, ◌==◌, arith, inl, inr, Bool-cases,
}
use mathlib.Core.Path.{subst}
use flix.Screen.{Screen, Color}
use flix.Screen.Cursor.{IsInside, put_char-IsInside}
use flix.Tty.{Tty, pop_back, stdin_empty, feed_input}

pop_back-append : (cs : List ℕ) (c : ℕ) → pop_back (cs ++ (c ∷ [])) ≡ cs
unfolding pop_back
pop_back-append [] c = refl
pop_back-append (a ∷ []) c = refl
pop_back-append (a ∷ b ∷ cs) c = ap (λ l. a ∷ l) (pop_back-append (b ∷ cs) c)

stdin_empty-append : (cs : List ℕ) (c : ℕ) → stdin_empty (cs ++ (c ∷ [])) ≡ false
stdin_empty-append [] c = refl
stdin_empty-append (a ∷ cs) c = refl

-- What a step of the terminal leaves.
unfoldable pub Feeds : ℕ → Tty → Screen → List ℕ → Type 0
Feeds byte t s stdin =
    (b : Bool) × (s' : Screen) × (feed_input byte t s ≡ some (b, record { stdin = stdin }, s'))
    × IsInside s'

pub feed_input-push :
    (byte : ℕ) (t : Tty) (s : Screen)
    → IsInside s
    → (byte == 8) ≡ false
    → Feeds byte t s (t.stdin ++ (byte ∷ []))
unfolding feed_input Feeds
feed_input-push byte t s i other =
    let (s₁, e, inside, _) = put_char-IsInside byte Color.light_grey Color.black s i in
    (byte == 10, s₁, rw (other, e) refl, inside)

pub feed_input-pop :
    (t : Tty) (s : Screen)
    → IsInside s
    → stdin_empty t.stdin ≡ false
    → Feeds 8 t s (pop_back t.stdin)
unfolding feed_input Feeds
feed_input-pop t s i some_input =
    let (s₁, e, inside, _) = put_char-IsInside 8 Color.light_grey Color.black s i in
    (false, s₁, rw (some_input, e) refl, inside)

-- A step on any byte.
pub feed_input-IsInside :
    (byte : ℕ) (t : Tty) (s : Screen) → IsInside s → (stdin : List ℕ) × Feeds byte t s stdin
feed_input-IsInside byte t s i = elim (Bool-cases (byte == 8)) [
  | inr other ↦ (t.stdin ++ (byte ∷ []), feed_input-push byte t s i other)
  | inl back ↦
      let same : byte ≡ 8 = ground arith in
      elim (Bool-cases (stdin_empty t.stdin)) [
        | inl none_left ↦
            (t.stdin, unfold Feeds in (false, s, unfold feed_input in rw (back, none_left) refl, i))
        | inr left ↦ (
          pop_back t.stdin,
          subst (λ d. Feeds d t s (pop_back t.stdin)) (sym same) (feed_input-pop t s i left),
        )
      ]
]
