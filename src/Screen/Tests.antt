-- ===== src/Screen/Tests.antt =====
-- Runs of the screen, and the theorems about it at concrete screens.
use flix.Base.{◌+◌, ◌*◌, ◌≡◌, refl, some, [], ◌∷◌, arith}
use flix.Screen.{Screen, Color, put_string}
use flix.Screen.Cursor.{IsInside, KeepsRest, put_string-IsInside}
use flix.Screen.Text.{Shows, put_string-Shows}

-- The last line, before the last column but one.
abbrev corner : Screen
corner = record { cells = λ j. 0; x = 78; y = 23 }

abbrev line_start : Screen
line_start = record { cells = λ j. 0; x = 0; y = 3 }

put_string-IsInside_example :
    (s' : Screen) × (put_string (65 ∷ 66 ∷ 10 ∷ 200 ∷ 8 ∷ []) Color.white Color.black corner
      ≡ some s')
    × IsInside s'
    × KeepsRest corner s'
put_string-IsInside_example =
    put_string-IsInside (65 ∷ 66 ∷ 10 ∷ 200 ∷ 8 ∷ []) Color.white Color.black corner
      (record { column = omega arith; line = omega arith })

put_string-Shows_example :
    (s' : Screen) × (put_string (72 ∷ 105 ∷ []) Color.green Color.black line_start ≡ some s')
    × Shows (3 * 80 + 0) (72 ∷ 105 ∷ []) Color.green Color.black line_start s'
put_string-Shows_example =
    put_string-Shows (72 ∷ 105 ∷ []) Color.green Color.black line_start (refl, (refl, tt))
      (record { column = omega arith; line = omega arith }) (omega arith)
