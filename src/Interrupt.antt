-- ===== src/Interrupt.antt =====
-- source/Interrupt.cpp: the interrupt controllers and their masks. The ports are a parameter; bit `n` of the mask at
-- a data port is the line `n` of that controller.
pub mod Masks
pub mod Dispatch
pub mod Faulting
pub mod Saving
pub mod Ticking
pub mod Calling
pub mod Scopes
mod Tests
use flix.Base.{
  ℕ, ◌+◌, ◌-◌, ◌*◌, ◌/◌, ◌%◌, ◌≡◌, ◌≢◌, ◌<◌, Bool, true, false, zero, suc, ltb, ◌==◌, if◌then◌else◌,
}

-- `outb` and `inb`, of io.hpp, on what is behind the ports.
pub record Ports : Type 1 where
  pub State : Type 0
  pub outb : ℕ → ℕ → State → State
  pub inb : ℕ → State → ℕ

-- `x | (1 << n)` and `x & ~(1 << n)`
unfoldable pub set_bit : ℕ → ℕ → ℕ
set_bit zero x = x / 2 * 2 + 1
set_bit (suc n) x = set_bit n (x / 2) * 2 + x % 2

unfoldable pub clear_bit : ℕ → ℕ → ℕ
clear_bit zero x = x / 2 * 2
clear_bit (suc n) x = clear_bit n (x / 2) * 2 + x % 2

-- `PIC1_CMD`, `PIC1_DATA`, `PIC2_CMD` and `PIC2_DATA`
abbrev pub pic1_cmd : ℕ
pic1_cmd = 0x20

abbrev pub pic1_data : ℕ
pic1_data = 0x21

abbrev pub pic2_cmd : ℕ
pic2_cmd = 0xa0

abbrev pub pic2_data : ℕ
pic2_data = 0xa1

module _ (ports : Ports) where
  open ports use {State, outb, inb}

  -- `updateMask`, whose `value` has 8 bits.
  unfoldable pub update_mask : (ℕ → ℕ → ℕ) → ℕ → State → State
  update_mask op nb s =
      if ltb nb 8
      then outb pic1_data (op nb (inb pic1_data s) % 256) s
      else outb pic2_data (op (nb - 8) (inb pic2_data s) % 256) s

  unfoldable pub mask : ℕ → State → State
  mask nb s = update_mask set_bit nb s

  unfoldable pub unmask : ℕ → State → State
  unmask nb s = update_mask clear_bit nb s

  unfoldable pub init_pic : State → State
  init_pic s =
      let commands = outb pic2_cmd 0x11 (outb pic1_cmd 0x11 s) in
      let offsets = outb pic2_data 0x28 (outb pic1_data 0x20 commands) in
      let connections = outb pic2_data 0x02 (outb pic1_data 0x04 offsets) in
      let environment = outb pic2_data 0x01 (outb pic1_data 0x01 connections) in
      outb pic2_data 0x0 (outb pic1_data 0x0 environment)
