-- ===== src/Multiboot.antt =====
-- source/Multiboot.cpp: the tags that the boot loader leaves in memory, and the frames and pages of what they name.
-- Memory is a function from addresses to bytes; `none` is a failed assertion, a panic, or fuel that ran out. The
-- archive in the module is read in Vfs.
pub mod Chunks
pub mod Entries
pub mod Modules
mod Tests
use flix.Base.{
  ℕ, ◌+◌, ◌-◌, ◌*◌, ◌/◌, ◌%◌, ◌^◌, Bool, true, false, not, Option, none, some, zero, suc, assert,
  ◌>>=◌, ◌>>◌, ltb, ◌==◌, if◌then◌else◌,
}
use flix.Memory.{Memory, set_page_used, set_range_rounds}
use flix.Paging.{Allocator}
use flix.Paging.Directory.{Directory, Machine, map_page_to}

-- A number of `n` bytes, the lowest first.
unfoldable pub read_int : ℕ → (ℕ → ℕ) → ℕ → ℕ
read_int zero bytes a = 0
read_int (suc n) bytes a = bytes a + 2 ^ 8 * read_int n bytes (a + 1)

-- `MemoryMapEntry`
pub record MapEntry : Type 0 where
  pub base_addr : ℕ
  pub length : ℕ
  pub type : ℕ

abbrev pub map_entry_at : (ℕ → ℕ) → ℕ → MapEntry
map_entry_at bytes a = record {
  base_addr = read_int 8 bytes a;
  length = read_int 8 bytes (a + 8);
  type = read_int 4 bytes (a + 16);
}

-- The pages of an entry.
abbrev pub first_page : MapEntry → ℕ
first_page e = e.base_addr / 0x1000

abbrev pub last_page : MapEntry → ℕ
last_page e = (first_page e + (e.length + 0xfff) % 2 ^ 64 / 0x1000) % 2 ^ 64

-- `handleMemoryMapEntry`, whose loop is that of `setRangeUsed`.
unfoldable pub handle_memory_map_entry : MapEntry → Memory → Option Memory
handle_memory_map_entry e m =
    if e.type == 1 then some m else set_range_rounds (last_page e - first_page e) (first_page e) m

-- The loop of `prehandleMemoryMap`, with fuel.
unfoldable pub memory_map_rounds : ℕ → (ℕ → ℕ) → ℕ → ℕ → ℕ → Memory → Option Memory
memory_map_rounds zero bytes entry_size entry end m = none
memory_map_rounds (suc fuel) bytes entry_size entry end m =
    if ltb (entry + entry_size) end
    then (do
      m₁ ← handle_memory_map_entry (map_entry_at bytes entry) m
      memory_map_rounds fuel bytes entry_size (entry + entry_size) end m₁)
    else some m

-- `prehandleMemoryMap`: the size of the tag counts its 16 bytes of header, which `end` adds once more.
unfoldable pub prehandle_memory_map : (ℕ → ℕ) → ℕ → Memory → Option Memory
prehandle_memory_map bytes map m =
    let size = read_int 4 bytes (map + 4) in
    memory_map_rounds (size + 1) bytes (read_int 4 bytes (map + 8)) (map + 16) (map + 16 + size) m

-- `Module`
pub record Module : Type 0 where
  pub mod_start : ℕ
  pub mod_end : ℕ

abbrev pub module_at : (ℕ → ℕ) → ℕ → Module
module_at bytes a = record {
  mod_start = read_int 4 bytes (a + 8);
  mod_end = read_int 4 bytes (a + 12);
}

-- The rounds of the loop of `handleModule`.
abbrev pub module_pages : Module → ℕ
module_pages tag = (tag.mod_end - tag.mod_start + 0xfff) / 0x1000

unfoldable pub module_rounds : ℕ → ℕ → Memory → Option Memory
module_rounds zero paddr m = some m
module_rounds (suc n) paddr m = do
  m₁ ← set_page_used (paddr / 0x1000) m
  module_rounds n (paddr + 0x1000) m₁

unfoldable pub prehandle_module : Module → Memory → Option Memory
prehandle_module tag m = module_rounds (module_pages tag) tag.mod_start m

unfoldable pub prehandle_tag : (ℕ → ℕ) → ℕ → Memory → Option Memory
prehandle_tag bytes tag m =
    let type = read_int 4 bytes tag in
    if type == 3
    then prehandle_module (module_at bytes tag) m
    else if type == 6
    then prehandle_memory_map bytes tag m
    else some m

-- `ptrAlignSup(ptr, 8)`
abbrev pub ptr_align_sup8 : ℕ → ℕ
ptr_align_sup8 a = (a + 7) / 8 * 8

-- The loop of `handle` for the memory, with fuel: whether there is a memory map, and the frames.
unfoldable pub tag_rounds : ℕ → (ℕ → ℕ) → ℕ → Bool → Memory → Option (Bool × Memory)
tag_rounds zero bytes tag mem_found m = none
tag_rounds (suc fuel) bytes tag mem_found m =
    if read_int 4 bytes tag == 0 then some (mem_found, m) else (do
      m₁ ← prehandle_tag bytes tag m
      tag_rounds fuel bytes (ptr_align_sup8 (tag + read_int 4 bytes (tag + 4)))
          (if read_int 4 bytes tag == 6 then true else mem_found) m₁)

-- `prepareMemory`: there is no tag beyond the total size.
unfoldable pub prepare_memory : (ℕ → ℕ) → ℕ → Memory → Option Memory
prepare_memory bytes mboot m = do
  (mem_found, m₁) ← tag_rounds (read_int 4 bytes mboot) bytes (mboot + 8) false m
  assert mem_found
  some m₁

module _ (alloc : Allocator) where
  open alloc use {State}

  -- The pages of the module, with `ATTR_NOEXEC`.
  unfoldable pub map_module_rounds :
      ℕ → ℕ → ℕ → Directory → Machine State → Option (Directory × Machine State)
  map_module_rounds zero cur paddr d m = some (d, m)
  map_module_rounds (suc n) cur paddr d m = do
    (d₁, m₁) ← map_page_to alloc cur paddr 0x4 d m
    map_module_rounds n (cur + 0x1000) (paddr + 0x1000) d₁ m₁

  -- `handleModule`, from the stack's base and `_moduleRead`, which it sets.
  unfoldable pub handle_module :
      ℕ → Bool → Module → Directory → Machine State → Option (Bool × Directory × Machine State)
  handle_module base module_read tag d m = do
    assert (not module_read)
    (d₁, m₁) ← map_module_rounds (module_pages tag) base tag.mod_start d m
    some (true, d₁, m₁)

  -- `handleTag`, on `_moduleRead` and the kernel's directory; `base` is the stack's base.
  unfoldable pub handle_tag :
      (ℕ → ℕ) → ℕ → ℕ → Bool → Directory → Machine State → Option (Bool × Directory × Machine State)
  handle_tag bytes base tag module_read d m =
      if read_int 4 bytes tag == 3
      then handle_module base module_read (module_at bytes tag) d m
      else some (module_read, d, m)

  -- The loop of `handle` without the memory, with fuel.
  unfoldable pub handle_rounds :
      ℕ
      → (ℕ → ℕ)
      → ℕ
      → ℕ
      → Bool
      → Directory
      → Machine State
      → Option (Bool × Directory × Machine State)
  handle_rounds zero bytes base tag module_read d m = none
  handle_rounds (suc fuel) bytes base tag module_read d m =
      if read_int 4 bytes tag == 0 then some (module_read, d, m) else (do
        (module_read₁, d₁, m₁) ← handle_tag bytes base tag module_read d m
        handle_rounds fuel bytes base (ptr_align_sup8 (tag + read_int 4 bytes (tag + 4)))
            module_read₁ d₁ m₁)

  -- `handle`
  abbrev pub handle_information :
      (ℕ → ℕ) → ℕ → ℕ → Bool → Directory → Machine State → Option (Bool × Directory × Machine State)
  handle_information bytes base mboot module_read d m =
      handle_rounds (read_int 4 bytes mboot) bytes base (mboot + 8) module_read d m
