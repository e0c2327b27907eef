-- ===== src/IntUtil/Tests.antt =====
-- Numbers in several bases, and the theorems about printing at them.
use flix.Base.{ℕ, ◌≡◌, refl, some, List, [], ◌∷◌, arith, true}
use flix.IntUtil.{write_digits, uint_to_str, int_to_str}
use flix.IntUtil.Digits.{read_digits, uint_to_str-read_digits}

-- "FF"
hex_test : uint_to_str 255 16 ≡ some (70 ∷ 70 ∷ [])
unfolding uint_to_str write_digits
hex_test = refl

-- "-10"
negative_test : int_to_str true 10 10 ≡ some (45 ∷ 49 ∷ 48 ∷ [])
unfolding int_to_str uint_to_str write_digits
negative_test = refl

uint_to_str-read_digits_example :
    (s : List ℕ) × (uint_to_str 4095 16 ≡ some s) × (read_digits 16 0 s ≡ 4095)
uint_to_str-read_digits_example =
    uint_to_str-read_digits 4095 16 (omega arith) (omega arith) (omega arith)
