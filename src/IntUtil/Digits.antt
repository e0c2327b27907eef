-- ===== src/IntUtil/Digits.antt =====
-- IntUtil.cpp: what is printed reads back as the number.
use flix.Base.{
  ℕ, ◌+◌, ◌-◌, ◌*◌, ◌/◌, ◌%◌, ◌^◌, ◌<◌, ◌≤◌, ◌≡◌, refl, ◌∙◌, sym, ap, true, false, none, some, List,
  [], ◌∷◌, zero, suc, leb, ◌==◌, if◌then◌else◌, arith, inl, inr, Bool-cases,
}
use native.Mathlib.Nat.{
  div-add-mod', div-lt_iff_lt-mul, le-div_iff_mul-le, pow-suc, pow-zero, one-le-pow, mod-lt,
}
use flix.IntUtil.{digit_char, write_digits, uint_to_str}

abbrev char_digit : ℕ → ℕ
char_digit c = if leb 65 c then c - 55 else c - 48

-- Reading a number, from the digits read before.
abbrev pub read_digits : ℕ → ℕ → List ℕ → ℕ
read_digits base n [] = n
read_digits base n (c ∷ cs) = read_digits base (n * base + char_digit c) cs

char_digit-digit_char : (d : ℕ) → d < 36 → char_digit (digit_char d) ≡ d
char_digit-digit_char d h = ground arith

read_digits-step :
    (base value : ℕ) (acc : List ℕ)
    → 1 < base
    → base ≤ 36
    → read_digits base (value / base) (digit_char (value % base) ∷ acc) ≡ read_digits base value acc
read_digits-step base value acc low high =
    let digit : value % base < base = mod-lt value (omega arith) in
    let same = char_digit-digit_char (value % base) (omega (arith, digit)) in
    ap (λ d. read_digits base (value / base * base + d) acc) same
    ∙ ap (λ v. read_digits base v acc) (div-add-mod' value base)

quotient_lt : (n value base : ℕ) → 0 < base → value < base ^ suc n → value / base < base ^ n
quotient_lt n value base pos small = (div-lt_iff_lt-mul pos).1 (rw (pow-suc base n) at small)

write_digits-more :
    (n value base : ℕ) (acc : List ℕ)
    → (value / base == 0) ≡ false
    → write_digits (suc n) value base acc
      ≡ write_digits n (value / base) base (digit_char (value % base) ∷ acc)
unfolding write_digits
write_digits-more n value base acc e = rw e refl

write_digits-last :
    (n value base : ℕ) (acc : List ℕ)
    → 1 < base
    → base ≤ 36
    → (value / base == 0) ≡ true
    → (s : List ℕ) × (write_digits (suc n) value base acc ≡ some s)
      × (read_digits base 0 s ≡ read_digits base value acc)
unfolding write_digits
write_digits-last n value base acc low high e =
    let done : value / base ≡ 0 = ground arith in
    (
      digit_char (value % base) ∷ acc,
      rw e refl,
      ap (λ q. read_digits base q (digit_char (value % base) ∷ acc)) (sym done)
          ∙ read_digits-step base value acc low high,
    )

write_digits-read_digits :
    (n value base : ℕ) (acc : List ℕ)
    → 1 < base
    → base ≤ 36
    → value < base ^ suc n
    → (s : List ℕ) × (write_digits (suc n) value base acc ≡ some s)
      × (read_digits base 0 s ≡ read_digits base value acc)
write_digits-read_digits zero value base acc low high small =
    let quotient = quotient_lt 0 value base (omega arith) small in
    write_digits-last 0 value base acc low high (ground (arith, quotient, pow-zero base))
write_digits-read_digits (suc n) value base acc low high small =
    elim (Bool-cases (value / base == 0)) [
      | inl e ↦ write_digits-last (suc n) value base acc low high e
      | inr e ↦
          let quotient = quotient_lt (suc n) value base (omega arith) small in
          let (s, ran, reads) =
            write_digits-read_digits n (value / base) base (digit_char (value % base) ∷ acc) low
              high quotient in
          (
            s,
            write_digits-more (suc n) value base acc e ∙ ran,
            reads ∙ read_digits-step base value acc low high,
          )
    ]

-- In a base from 2 to 36, a number of at most 31 digits is printed inside the buffer, and the
-- characters read back as the number.
pub uint_to_str-read_digits :
    (value base : ℕ)
    → 1 < base
    → base ≤ 36
    → value < base ^ 31
    → (s : List ℕ) × (uint_to_str value base ≡ some s) × (read_digits base 0 s ≡ value)
unfolding uint_to_str
uint_to_str-read_digits value base low high small =
    write_digits-read_digits 30 value base [] low high small

write_digits-eq-none :
    (n value base : ℕ) (acc : List ℕ)
    → 1 < base
    → base ^ n ≤ value
    → write_digits n value base acc ≡ none
unfolding write_digits
write_digits-eq-none zero value base acc low large = refl
write_digits-eq-none (suc n) value base acc low large =
    let quotient : base ^ n ≤ value / base =
      (le-div_iff_mul-le (omega arith)).1 (rw (pow-suc base n) at large) in
    let more : (value / base == 0) ≡ false =
      ground (arith, quotient, one-le-pow n base (omega arith)) in
    rw more
      (write_digits-eq-none n (value / base) base (digit_char (value % base) ∷ acc) low quotient)

-- In a base above 1, a number of more than 31 digits leaves the result of uintToStr before the
-- buffer.
pub uint_to_str-eq-none :
    (value base : ℕ) → 1 < base → base ^ 31 ≤ value → uint_to_str value base ≡ none
unfolding uint_to_str
uint_to_str-eq-none value base low large = write_digits-eq-none 31 value base [] low large
