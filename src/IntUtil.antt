-- ===== src/IntUtil.antt =====
-- source/IntUtil.cpp: numbers printed into a buffer of 32 characters. A string is the list of its
-- characters up to the terminating zero; `none` is a result that points before the buffer.
pub mod Digits
mod Tests
use flix.Base.{
  ℕ, ◌+◌, ◌-◌, ◌/◌, ◌%◌, Bool, true, false, Option, none, some, List, [], ◌∷◌, zero, suc, leb, ltb,
  ◌==◌, if◌then◌else◌, ◌>>=◌, length, ◌&&◌,
}

-- The character of a digit, for bases up to 128, whose digits fit a signed `char`.
abbrev pub digit_char : ℕ → ℕ
digit_char d = if leb 10 d then d + 55 else d + 48

-- The loop, with the number of places that are left in front; `acc` is what it has written.
unfoldable pub write_digits : ℕ → ℕ → ℕ → List ℕ → Option (List ℕ)
write_digits zero value base acc = none
write_digits (suc n) value base acc =
    let rest = write_digits n (value / base) base (digit_char (value % base) ∷ acc) in
    if value / base == 0 then some (digit_char (value % base) ∷ acc) else rest

-- `uintToStr` and `ulongToStr`: the last of the 32 places is the terminating zero.
unfoldable pub uint_to_str : ℕ → ℕ → Option (List ℕ)
uint_to_str value base = write_digits 31 value base []

-- `intToStr` of a number that is not the least one: its sign, and its absolute value. The sign is left out if
-- no place is left for it.
unfoldable pub int_to_str : Bool → ℕ → ℕ → Option (List ℕ)
int_to_str neg value base =
    uint_to_str value base >>= (λ s. some (if neg && ltb (length s) 31 then 45 ∷ s else s))
