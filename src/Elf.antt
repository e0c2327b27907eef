-- ===== src/Elf.antt =====
-- source/Elf.cpp, `exec`: the pages of a program's segments and stack, and the arguments on the stack. Memory is a
-- function from addresses to bytes.
pub mod Bytes
pub mod Arguments
mod Tests
use flix.Base.{
  ℕ, ◌+◌, ◌-◌, ◌*◌, ◌/◌, ◌%◌, ◌^◌, Bool, true, false, Option, none, some, List, [], ◌∷◌, ◌++◌, zero,
  suc, ◌>>=◌, ◌==◌, if◌then◌else◌, assign, length,
}
use flix.Paging.{Allocator}
use flix.Paging.Directory.{Directory, Machine, map_range}

-- `checkHeader`
unfoldable pub check_header : List ℕ → Bool
check_header (a ∷ b ∷ c ∷ d ∷ rest) =
    if a == 0x7f then (if b == 69 then (if c == 76 then d == 70 else false) else false) else false
check_header _ = false

-- The fields of `ElfProgramHeader` that map a segment.
pub record Segment : Type 0 where
  pub kind : ℕ
  pub vaddr : ℕ
  pub memsz : ℕ

-- `PT_LOAD`
abbrev pub pt_load : ℕ
pt_load = 1

abbrev pub stack_base : ℕ
stack_base = 0xf000000000

abbrev pub stack_top : ℕ
stack_top = 0xf000004000

module _ (alloc : Allocator) where
  open alloc use {State}

  -- The pages of the segments: `ATTR_RW | ATTR_PUBLIC`.
  unfoldable pub map_segments :
      List Segment → Directory → Machine State → Option (Directory × Machine State)
  map_segments [] d m = some (d, m)
  map_segments (p ∷ ps) d m =
      if p.kind == pt_load
      then (do
        (d₁, m₁) ← map_range alloc p.vaddr ((p.vaddr + p.memsz) % 2 ^ 64) 3 d m
        map_segments ps d₁ m₁)
      else map_segments ps d m

  abbrev pub map_stack : Directory → Machine State → Option (Directory × Machine State)
  map_stack d m = map_range alloc stack_base stack_top 3 d m

-- `memcpy`
unfoldable pub copy_bytes : ℕ → List ℕ → (ℕ → ℕ) → ℕ → ℕ
copy_bytes start [] bytes = bytes
copy_bytes start (b ∷ bs) bytes = copy_bytes (start + 1) bs (assign bytes start b)

-- A pointer or a number in memory: `n` bytes, the lowest first.
abbrev pub little_endian : ℕ → ℕ → List ℕ
little_endian zero v = []
little_endian (suc n) v = v % 2 ^ 8 ∷ little_endian n (v / 2 ^ 8)

abbrev pub word : ℕ → List ℕ
word = little_endian 8

abbrev pub store_word : ℕ → ℕ → (ℕ → ℕ) → ℕ → ℕ
store_word start v = copy_bytes start (word v)

-- The first loop over `args`: the addresses of the strings, the end of the free stack, and memory.
unfoldable pub push_strings : List (List ℕ) → ℕ → (ℕ → ℕ) → List ℕ × ℕ × (ℕ → ℕ)
push_strings [] cur_pos bytes = ([], cur_pos, bytes)
push_strings (arg ∷ args) cur_pos bytes =
    let pos = cur_pos - (length arg + 1) in
    let (address, last, bytes₁) = push_strings args pos (copy_bytes pos (arg ++ (0 ∷ [])) bytes) in
    (pos ∷ address, last, bytes₁)

-- The second loop.
unfoldable pub store_addresses : ℕ → List ℕ → (ℕ → ℕ) → ℕ → ℕ
store_addresses cur_pos [] bytes = bytes
store_addresses cur_pos (a ∷ address) bytes =
    store_addresses (cur_pos + 8) address (store_word cur_pos a bytes)

-- The stack with the arguments: the stack pointer, and memory.
unfoldable pub push_arguments : List (List ℕ) → (ℕ → ℕ) → ℕ × (ℕ → ℕ)
push_arguments args bytes =
    let (address, cur_pos, bytes₁) = push_strings args stack_top bytes in
    let end_addr = cur_pos - 8 - 8 * length address in
    let bytes₂ = store_addresses end_addr address (store_word (cur_pos - 8) 0 bytes₁) in
    (end_addr - 8, store_word (end_addr - 8) (length address) bytes₂)
