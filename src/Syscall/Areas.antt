-- ===== src/Syscall/Areas.antt =====
-- source/Syscall.cpp, `mmap`: areas of memory that get their frames when they are used.
use flix.Base.{ℕ, ◌+◌, ◌-◌, ◌*◌, ◌/◌, ◌^◌, ◌<◌, ◌≤◌, ◌≡◌, ◌⊎◌, true}
use flix.Paging.{Tables}
use flix.Paging.Access.{entry_at}
use flix.Paging.Coherent.{IsCoherent}
use flix.Paging.Directory.{Directory}
use flix.Paging.Faults.{is_deferred}

-- The pages of an area.
abbrev pub pages_of : ℕ → ℕ
pages_of length = (length + 0x1000 - 1) / 0x1000

-- What `mmap` leaves: an area at `start` that no page was in.
pub record Provides (start length : ℕ) (t t' : Tables 3) : Type 0 where
  pub coherent : IsCoherent 3 t'
  pub waits : (a : ℕ) → start ≤ a → a < start + length → is_deferred (entry_at 3 t' a) ≡ true
  pub others :
      (b : ℕ)
      → b < 2 ^ 48
      → (b < start ⊎ (start + pages_of length * 0x1000 ≤ b))
      → entry_at 3 t' b ≡ entry_at 3 t b
