-- ===== src/Elf/Tests.antt =====
-- Runs of the loader, and the theorem about the stack at concrete arguments.
use flix.Base.{ℕ, ◌-◌, ◌<◌, ◌≤◌, ◌≡◌, ◌⊎◌, refl, true, false, List, [], ◌∷◌, arith}
use flix.Elf.{check_header, push_arguments, stack_base, stack_top, push_strings}
use flix.Elf.Arguments.{HoldsArguments, total_size, push_arguments-HoldsArguments}

check_header_test : check_header (0x7f ∷ 69 ∷ 76 ∷ 70 ∷ 2 ∷ []) ≡ true
unfolding check_header
check_header_test = refl

check_header_short_test : check_header (0x7f ∷ 69 ∷ []) ≡ false
unfolding check_header
check_header_short_test = refl

-- "ls" and "-l"
abbrev arguments : List (List ℕ)
arguments = (108 ∷ 115 ∷ []) ∷ (45 ∷ 108 ∷ []) ∷ []

abbrev zeroes : ℕ → ℕ
zeroes a = 0

push_arguments_test : (push_arguments arguments zeroes).0 ≡ stack_top - 6 - 8 - 16 - 8
unfolding push_arguments push_strings
push_arguments_test = refl

push_arguments-HoldsArguments_example :
    (address : List ℕ) × HoldsArguments arguments
      (push_arguments arguments zeroes).0
      (push_arguments arguments zeroes).1
      address
    × (stack_base ≤ (push_arguments arguments zeroes).0)
    × ((a : ℕ)
        → (a < stack_base ⊎ (stack_top ≤ a))
        → (push_arguments arguments zeroes).1 a ≡ zeroes a)
push_arguments-HoldsArguments_example =
    push_arguments-HoldsArguments arguments zeroes (unfold total_size in omega arith)
