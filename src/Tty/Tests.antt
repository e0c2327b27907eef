-- ===== src/Tty/Tests.antt =====
-- Runs of the terminal, and the theorems about it at concrete inputs.
use flix.Base.{◌+◌, ◌≡◌, refl, true, false, some, [], ◌∷◌, map, take, drop, arith}
use flix.Screen.{Screen}
use flix.Tty.{Console, Reading, read_into, handle_interrupts}
use flix.Tty.Keys.{Key, char_of, IsPlain}
use flix.Tty.Typing.{all_codes, idle, read_into-all_codes}

abbrev screen : Screen
screen = record { cells = λ j. 0; x = 79; y = 23 }

abbrev started : Console
started = record { shifts = idle; tty = record { stdin = [] }; screen = screen }

-- A, and the key for a line.
abbrev key_a : Key
key_a = record { code = 0x1e; shifted = true }

abbrev key_line : Key
key_line = record { code = 0x1c; shifted = false }

chars_test : map char_of (key_a ∷ key_line ∷ []) ≡ 65 ∷ 10 ∷ []
chars_test = refl

key_a-IsPlain : IsPlain key_a
key_a-IsPlain = record {
  below = omega arith;
  not_left = refl;
  not_right = refl;
  not_control = refl;
  not_alt = refl;
  not_caps = refl;
  not_back = refl;
}

key_line-IsPlain : IsPlain key_line
key_line-IsPlain = record {
  below = omega arith;
  not_left = refl;
  not_right = refl;
  not_control = refl;
  not_alt = refl;
  not_caps = refl;
  not_back = refl;
}

read_into-all_codes_example :
    (o : Console) × (handle_interrupts (all_codes (key_a ∷ key_line ∷ [])) started ≡ some o)
    × (read_into (9 + 1) o.tty
        ≡ Reading.done
            (take (9 + 1) (map char_of (key_a ∷ key_line ∷ [])))
            (record { stdin = drop (9 + 1) (map char_of (key_a ∷ key_line ∷ [])) }))
    × (o.shifts ≡ idle)
read_into-all_codes_example =
    read_into-all_codes key_a (key_line ∷ []) 9 screen (key_a-IsPlain, (key_line-IsPlain, tt))
      (record { column = omega arith; line = omega arith })
