-- ===== src/Multiboot/Tests.antt =====
-- source/Multiboot.cpp: the code run on a small memory map.
use flix.Base.{
  ℕ, ◌+◌, ◌/◌, ◌%◌, ◌^◌, ◌≤◌, ◌<◌, ◌≡◌, refl, true, false, some, List, [], ◌∷◌, ◌++◌, get_or,
  replicate, ◌==◌, arith, Memᴰ,
}
use flix.Elf.{little_endian}
use flix.Memory.{Memory, is_used, set_page_used, set_range_rounds}
use flix.Multiboot.{
  MapEntry, Module, read_int, memory_map_rounds, prehandle_memory_map, handle_memory_map_entry,
  prepare_memory, tag_rounds, prehandle_tag,
}
use flix.Multiboot.Chunks.{covers, Reserves}
use flix.Multiboot.Entries.{prehandle_memory_map-Reserves}

-- A chunk that is free to use, and one that is reserved from 0x2000 on.
abbrev usable : MapEntry
usable = record { base_addr = 0; length = 0x1000; type = 1 }

abbrev kept : MapEntry
kept = record { base_addr = 0x2000; length = 0x1800; type = 2 }

abbrev encode : MapEntry → List ℕ
encode e =
    little_endian 8 e.base_addr
    ++ little_endian 8 e.length
    ++ little_endian 4 e.type
    ++ replicate 4 0

-- The tag of the memory map, and the last tag.
abbrev map_bytes : List ℕ
map_bytes =
    little_endian 4 6
    ++ little_endian 4 64
    ++ little_endian 4 24
    ++ little_endian 4 0
    ++ encode usable
    ++ encode kept
    ++ replicate 8 0

abbrev bytes : ℕ → ℕ
bytes a = get_or map_bytes a 0

abbrev no_frames : Memory
no_frames = record { frames = []; used_page_count = 0 }

covers_free : (q : ℕ) → covers kept q ≡ true → is_used no_frames q ≡ false
unfolding is_used
covers_free q inside = refl

prehandle_memory_map-Reserves_example :
    (m' : Memory) × (prehandle_memory_map bytes 0 no_frames ≡ some m')
    × Reserves (usable ∷ kept ∷ []) no_frames m'
    × ((e : MapEntry) (a : ℕ)
        → Memᴰ e (usable ∷ kept ∷ [])
        → (e.type == 1) ≡ false
        → e.base_addr % 0x1000 ≡ 0
        → e.base_addr + e.length + 0xfff < 2 ^ 64
        → e.base_addr ≤ a
        → a < e.base_addr + e.length
        → is_used m' (a / 0x1000) ≡ true)
unfolding read_int
prehandle_memory_map-Reserves_example =
    prehandle_memory_map-Reserves bytes 0 24 (usable ∷ kept ∷ []) no_frames refl refl (omega arith)
      (refl, (refl, tt)) ((λ q inside. cc), (λ q inside. cc), (covers_free, (λ q inside. refl), tt))

-- The information as a whole: 8 bytes of header before the tags.
abbrev information : ℕ → ℕ
information a = get_or (little_endian 4 80 ++ replicate 4 0 ++ map_bytes) a 0

prepare_memory_test :
    prepare_memory information 0 no_frames
    ≡ some
        (record { frames = false ∷ false ∷ true ∷ true ∷ replicate 12 false; used_page_count = 2 })
unfolding prepare_memory tag_rounds prehandle_tag prehandle_memory_map memory_map_rounds
    handle_memory_map_entry set_range_rounds set_page_used read_int
prepare_memory_test = refl

abbrev archive : Module
archive = record { mod_start = 0x5000; mod_end = 0x6800 }
