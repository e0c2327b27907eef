-- ===== src/Tty.antt =====
-- source/Tty.cpp and Keyboard.cpp: the terminal's input, its echo on the screen, and the keys that it comes from.
-- The mutex is left out; a waiting reader is woken when `feed_input` says so.
pub mod Lines
pub mod Keys
pub mod Typing
mod Tests
use flix.Base.{
  ℕ, ◌+◌, ◌-◌, Bool, true, false, Option, none, some, List, [], ◌∷◌, ◌++◌, zero, suc, assert, ◌>>=◌,
  ◌>>◌, ltb, leb, ◌==◌, if◌then◌else◌, ◌||◌, length, get_or, take, drop,
}
use flix.Screen.{Screen, Color, put_char, put_string}

-- `_stdin`
pub record Tty : Type 0 where
  pub stdin : List ℕ

-- `pop_back`
pub pop_back : List ℕ → List ℕ
pop_back [] = []
pop_back (c ∷ []) = []
pop_back (c ∷ d ∷ cs) = c ∷ pop_back (d ∷ cs)

abbrev stdin_empty : List ℕ → Bool
stdin_empty [] = true
stdin_empty (c ∷ cs) = false

-- The echo, in the default colors.
abbrev pub echo : ℕ → Screen → Option Screen
echo c s = put_char c Color.light_grey Color.black s

-- `feedInput`, with whether it notifies the readers.
unfoldable pub feed_input : ℕ → Tty → Screen → Option (Bool × Tty × Screen)
feed_input byte t s =
    if byte == 8
    then (if stdin_empty t.stdin
        then some (false, t, s)
        else (do s₁ ← echo byte s; some (false, record { stdin = pop_back t.stdin }, s₁)))
    else (do s₁ ← echo byte s; some (byte == 10, record { stdin = t.stdin ++ (byte ∷ []) }, s₁))

-- `print`, without the cursor's registers.
abbrev pub print : List ℕ → Screen → Option Screen
print buf s = put_string buf Color.light_grey Color.black s

pub data Reading : Type 0 where
  waits : Reading
  done : List ℕ → Tty → Reading

-- `readInto`, up to where it waits, or from where it has been woken.
unfoldable pub read_into : ℕ → Tty → Reading
read_into size t =
    if size == 0
    then Reading.done [] t
    else if stdin_empty t.stdin
    then Reading.waits
    else Reading.done (take size t.stdin) (record { stdin = drop size t.stdin })

-- `lshift` and `rshift`
pub record Shifts : Type 0 where
  pub left : Bool
  pub right : Bool

-- `QwertyUpMap` and `QwertyLowMap`, each with the zero at its end.
abbrev pub qwerty_up_map : List ℕ
qwerty_up_map =
    0 ∷ 27 ∷ 33 ∷ 64 ∷ 35 ∷ 36 ∷ 37 ∷ 94 ∷ 38 ∷ 42 ∷ 40 ∷ 41 ∷ 95 ∷ 43 ∷ 8 ∷ 9 ∷ 81 ∷ 87 ∷ 69 ∷ 82
    ∷ 84 ∷ 89 ∷ 85 ∷ 73 ∷ 79 ∷ 80 ∷ 123 ∷ 125 ∷ 10 ∷ 0 ∷ 65 ∷ 83 ∷ 68 ∷ 70 ∷ 71 ∷ 72 ∷ 74 ∷ 75 ∷ 76
    ∷ 58 ∷ 34 ∷ 126 ∷ 0 ∷ 124 ∷ 90 ∷ 88 ∷ 67 ∷ 86 ∷ 66 ∷ 78 ∷ 77 ∷ 60 ∷ 62 ∷ 63 ∷ 0 ∷ 42 ∷ 0 ∷ 32
    ∷ 0 ∷ 0 ∷ []

abbrev pub qwerty_low_map : List ℕ
qwerty_low_map =
    0 ∷ 27 ∷ 49 ∷ 50 ∷ 51 ∷ 52 ∷ 53 ∷ 54 ∷ 55 ∷ 56 ∷ 57 ∷ 48 ∷ 45 ∷ 61 ∷ 8 ∷ 9 ∷ 113 ∷ 119 ∷ 101
    ∷ 114 ∷ 116 ∷ 121 ∷ 117 ∷ 105 ∷ 111 ∷ 112 ∷ 91 ∷ 93 ∷ 10 ∷ 0 ∷ 97 ∷ 115 ∷ 100 ∷ 102 ∷ 103 ∷ 104
    ∷ 106 ∷ 107 ∷ 108 ∷ 59 ∷ 39 ∷ 96 ∷ 0 ∷ 92 ∷ 122 ∷ 120 ∷ 99 ∷ 118 ∷ 98 ∷ 110 ∷ 109 ∷ 44 ∷ 46 ∷ 47
    ∷ 0 ∷ 42 ∷ 0 ∷ 32 ∷ 0 ∷ 0 ∷ []

-- The `default` of the `switch`: the character of a key.
abbrev pub key_char : ℕ → Shifts → Option ℕ
key_char code k =
    if ltb code 60
    then some
        (if k.left || k.right then get_or qwerty_up_map code 0 else get_or qwerty_low_map code 0)
    else none

-- `handleInterrupt`: what it does to the shift keys, and the character that it feeds to the terminal.
unfoldable pub handle_key : ℕ → Shifts → Shifts × Option ℕ
handle_key code k =
    if code == 0x2a
    then (record k { left = true }, none)
    else if code == 0xaa
    then (record k { left = false }, none)
    else if code == 0x36
    then (record k { right = true }, none)
    else if code == 0xb6
    then (record k { right = false }, none)
    else if code == 0x1d
    then (k, none)
    else if code == 0x38
    then (k, none)
    else if code == 0x3a
    then (k, none)
    else (k, key_char code k)

-- The keyboard, the terminal and the screen.
pub record Console : Type 0 where
  pub shifts : Shifts
  pub tty : Tty
  pub screen : Screen

abbrev pub feed_char : Option ℕ → Console → Option Console
feed_char none o = some o
feed_char (some c) o = do
  (_, t, s) ← feed_input c o.tty o.screen
  some (record o { tty = t; screen = s })

unfoldable pub handle_interrupt : ℕ → Console → Option Console
handle_interrupt code o =
    let r = handle_key code o.shifts in feed_char r.1 (record o { shifts = r.0 })

unfoldable pub handle_interrupts : List ℕ → Console → Option Console
handle_interrupts [] o = some o
handle_interrupts (code ∷ codes) o = do o₁ ← handle_interrupt code o; handle_interrupts codes o₁
