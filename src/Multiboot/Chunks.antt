-- ===== src/Multiboot/Chunks.antt =====
-- source/Multiboot.cpp, `handleMemoryMapEntry`: the frames of a chunk that is not free to use.
use flix.Base.{
  ℕ, ◌+◌, ◌-◌, ◌/◌, ◌%◌, ◌^◌, ◌≤◌, ◌<◌, ◌≡◌, refl, ◌∙◌, Bool, true, false, not, some, List, [], ◌∷◌,
  ltb, leb, ◌==◌, if◌then◌else◌, ◌&&◌, ◌||◌, ◌⊎◌, arith, inl, inr, Bool-cases,
}
use flix.Memory.{Memory, is_used, set_range_rounds}
use flix.Memory.Frames.{IsCounted}
use flix.Memory.Ranges.{set_range_rounds-Marked}
use flix.Multiboot.{MapEntry, map_entry_at, first_page, last_page, handle_memory_map_entry}

-- A frame that an entry takes, and one that some entry of a list takes.
abbrev pub covers : MapEntry → ℕ → Bool
covers e q = not (e.type == 1) && (leb (first_page e) q && ltb q (last_page e))

abbrev pub reserved : List MapEntry → ℕ → Bool
reserved [] q = false
reserved (e ∷ es) q = covers e q || reserved es q

-- The bytes of a reserved chunk lie in the frames that are taken for it, if it begins with a page.
pub covers-byte :
    (e : MapEntry) (a : ℕ)
    → (e.type == 1) ≡ false
    → e.base_addr % 0x1000 ≡ 0
    → e.base_addr + e.length + 0xfff < 2 ^ 64
    → e.base_addr ≤ a
    → a < e.base_addr + e.length
    → covers e (a / 0x1000) ≡ true
covers-byte e a kept aligned fits from below =
    let last : last_page e ≡ e.base_addr / 0x1000 + (e.length + 0xfff) / 0x1000 = omega arith in
    let low : leb (first_page e) (a / 0x1000) ≡ true = ground arith in
    let high : ltb (a / 0x1000) (last_page e) ≡ true = ground arith in rw (kept, low, high) refl

-- The chunks take free frames, each frame once.
abbrev pub IsApart : List MapEntry → Memory → Type 0
IsApart [] m = Unit
IsApart (e ∷ es) m =
    ((q : ℕ) → covers e q ≡ true → is_used m q ≡ false)
    × ((q : ℕ) → covers e q ≡ true → reserved es q ≡ false)
    × IsApart es m

-- `m'` is `m` with the frames of the chunks marked.
pub record Reserves (es : List MapEntry) (m m' : Memory) : Type 0 where
  pub reads : (q : ℕ) → is_used m' q ≡ (reserved es q || is_used m q)
  pub keeps : IsCounted m → IsCounted m'

-- Entries of a size, one after the other from an address.
abbrev pub HoldsEntries : (ℕ → ℕ) → ℕ → ℕ → List MapEntry → Type 0
HoldsEntries bytes entry_size a [] = Unit
HoldsEntries bytes entry_size a (e ∷ es) =
    (map_entry_at bytes a ≡ e) × HoldsEntries bytes entry_size (a + entry_size) es

-- One entry.
pub handle_memory_map_entry-Reserves :
    (e : MapEntry) (m : Memory)
    → ((q : ℕ) → covers e q ≡ true → is_used m q ≡ false)
    → (m' : Memory) × (handle_memory_map_entry e m ≡ some m') × Reserves (e ∷ []) m m'
unfolding handle_memory_map_entry set_range_rounds
handle_memory_map_entry-Reserves e m free = elim (Bool-cases (e.type == 1)) [
  | inl usable ↦ (m, rw usable refl, record { reads = λ q. rw usable refl; keeps = λ c. c })
  | inr kept ↦ chunk kept (Bool-cases (leb (first_page e) (last_page e)))
]
  where
    clear :
        (kept : (e.type == 1) ≡ false) (q : ℕ)
        → first_page e ≤ q
        → q < last_page e
        → is_used m q ≡ false
    clear kept q low high =
        let from : leb (first_page e) q ≡ true = ground arith in
        let to : ltb q (last_page e) ≡ true = ground arith in free q (rw (kept, from, to) refl)

    chunk :
        (e.type == 1) ≡ false
        → (leb (first_page e) (last_page e) ≡ true) ⊎ (leb (first_page e) (last_page e) ≡ false)
        → (m' : Memory) × (handle_memory_map_entry e m ≡ some m') × Reserves (e ∷ []) m m'
    chunk kept (inl up) =
        let (m', ran, r) =
          set_range_rounds-Marked (last_page e - first_page e) (first_page e) (last_page e) m
            (ground arith) (clear kept) in
        (m', rw kept ran, record { reads = λ q. r.reads q ∙ rw kept (either q); keeps = r.keeps })
      where
        either :
            (q : ℕ)
            → (if leb (first_page e) q && ltb q (last_page e) then true else is_used m q)
              ≡ ((leb (first_page e) q && ltb q (last_page e)) || false || is_used m q)
        either q = elim (Bool-cases (leb (first_page e) q && ltb q (last_page e))) [
          | inl inside ↦ rw inside refl
          | inr outside ↦ rw outside refl
        ]
    chunk kept (inr wrapped) =
        let rounds : last_page e - first_page e ≡ 0 = ground arith in
        (
          m,
          rw (kept, rounds) refl,
          record {
            reads = λ q.
                let none_there : (leb (first_page e) q && ltb q (last_page e)) ≡ false =
                  ground arith in
                rw (kept, none_there) refl;
            keeps = λ c. c;
          },
        )
