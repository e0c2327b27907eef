-- ===== src/Memory/Growth.antt =====
-- Memory.cpp, `getFreePage`: how far the vector of frames grows.
use flix.Base.{
  ℕ, ◌+◌, ◌≤◌, ◌<◌, ◌≡◌, ap, sym, ◌∙◌, true, false, some, length, get_or, resize, ltb, leb, arith,
  inl, inr, Bool-cases, Option-cases, length-resize, length-set, ◌>>=◌, >>=-eq-some, Option,
}
use mathlib.Core.Option.{some-injective}
use flix.Memory.{Memory, grow, find_free, set_page_used, get_free_page}
use flix.Memory.Alloc.{find_free-length}

length-set_page_used :
    (p : ℕ) (m m' : Memory)
    → p < length m.frames
    → set_page_used p m ≡ some m'
    → length m'.frames ≡ length m.frames
unfolding set_page_used grow
length-set_page_used p m m' room e =
    let inside : leb (length m.frames) p ≡ false = ground arith in
    let below : ltb p (length m.frames) ≡ true = ground arith in
    elim (Bool-cases (get_or m.frames p false)) [
      | inl used ↦ let bad = rw (inside, below, used) at e in cc
      | inr free ↦
          let ran = rw (inside, below, free) at e in
          sym (ap (λ x. length x.frames) (some-injective _ _ ran)) ∙ length-set m.frames p true
    ]

take_page : ℕ → Memory → Option (ℕ × Memory)
take_page i g = do m₁ ← set_page_used i g; some (i, m₁)

-- A frame of the vector that is marked and handed out.
hand_out :
    (i page : ℕ) (g m' : Memory)
    → i < length g.frames
    → take_page i g ≡ some (page, m')
    → (page ≡ i) × (length m'.frames ≡ length g.frames)
unfolding take_page
hand_out i page g m' room e =
    let (m₁, used, last) = >>=-eq-some (set_page_used i g) _ e in
    let same : (i, m₁) ≡ (page, m') = some-injective _ _ last in
    (
      sym (ap (λ x. x.0) same),
      sym (ap (λ x. length x.1.frames) same) ∙ length-set_page_used i g m₁ room used,
    )

-- The frame lies in the vector or just after it, and the vector grows by 16 at most.
pub get_free_page-length :
    (m m' : Memory) (page : ℕ)
    → get_free_page m ≡ some (page, m')
    → (page ≤ length m.frames) × (length m'.frames ≤ length m.frames + 16)
unfolding get_free_page take_page
get_free_page-length m m' page e = elim (Option-cases (find_free m.frames 0)) [
  | inl full ↦
      let i = length m.frames in
      let wide : Memory = record m { frames = resize (i + 16) false m.frames } in
      let size : length wide.frames ≡ i + 16 = length-resize (i + 16) false m.frames in
      let (at, kept) = hand_out i page wide m' (omega arith) (rw (full, get_free_page) at e) in
      (omega arith, omega arith)
  | inr (i, found) ↦
      let inside : i < length m.frames = omega (arith, find_free-length m.frames 0 i found) in
      let (at, kept) = hand_out i page m m' inside (rw (found, get_free_page) at e) in
      (omega arith, omega arith)
]
