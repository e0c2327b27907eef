-- ===== src/Multiboot/Entries.antt =====
-- source/Multiboot.cpp, `prehandleMemoryMap`: the frames of the chunks that are not free to use.
use flix.Base.{
  ℕ, ◌+◌, ◌/◌, ◌%◌, ◌^◌, ◌≤◌, ◌<◌, ◌≡◌, refl, ap, sym, ◌∙◌, Bool, true, false, some, List, [], ◌∷◌,
  zero, suc, ltb, ◌==◌, ◌||◌, Memᴰ, arith, inl, inr, Bool-cases, >>=-some,
}
use mathlib.Core.List.Memᴰ
use flix.Memory.{Memory, is_used}
use flix.Multiboot.{
  MapEntry, read_int, handle_memory_map_entry, memory_map_rounds, prehandle_memory_map,
}
use flix.Multiboot.Chunks.{
  covers, reserved, covers-byte, IsApart, Reserves, HoldsEntries, handle_memory_map_entry-Reserves,
}

-- The frames that the other chunks take are as free as before.
IsApart-marked :
    (es : List MapEntry) (m m₁ : Memory)
    → ((q : ℕ) → reserved es q ≡ true → is_used m₁ q ≡ is_used m q)
    → IsApart es m
    → IsApart es m₁
IsApart-marked [] m m₁ same apart = tt
IsApart-marked (e ∷ es) m m₁ same (free, alone, rest) = (
  λ q inside. same q (rw inside refl) ∙ free q inside,
  alone,
  IsApart-marked es m m₁ (λ q inside. same q (or_true (covers e q) (reserved es q) inside)) rest,
)
  where
    or_true : (a b : Bool) → b ≡ true → (a || b) ≡ true
    or_true true b e = refl
    or_true false b e = e

-- The size of the entries together.
abbrev pub span : ℕ → List MapEntry → ℕ
span entry_size [] = 0
span entry_size (e ∷ es) = entry_size + span entry_size es

memory_map_rounds-Reserves :
    (fuel : ℕ) (bytes : ℕ → ℕ) (entry_size a end : ℕ) (es : List MapEntry) (m : Memory)
    → 16 ≤ entry_size
    → end ≡ a + span entry_size es + 16
    → span entry_size es < fuel
    → HoldsEntries bytes entry_size a es
    → IsApart es m
    → (m' : Memory) × (memory_map_rounds fuel bytes entry_size a end m ≡ some m') × Reserves es m m'
unfolding memory_map_rounds
memory_map_rounds-Reserves zero bytes entry_size a end es m wide at enough holds apart =
    absurd (omega arith)
memory_map_rounds-Reserves (suc fuel) bytes entry_size a end [] m wide at enough holds apart =
    let stop : ltb (a + entry_size) end ≡ false = ground arith in
    (m, rw stop refl, record { reads = λ q. refl; keeps = λ c. c })
memory_map_rounds-Reserves (suc fuel) bytes entry_size a end (e ∷ es) m wide at enough (here, holds)
      (free, alone, apart) =
    let go : ltb (a + entry_size) end ≡ true = ground arith in
    let (m₁, first, r₁) = handle_memory_map_entry-Reserves e m free in
    let same : (q : ℕ) → reserved es q ≡ true → is_used m₁ q ≡ is_used m q = λ q inside.
      elim (Bool-cases (covers e q)) [
        | inl taken ↦ let clash : false ≡ true = sym (alone q taken) ∙ inside in cc
        | inr other ↦ r₁.reads q ∙ rw other refl
      ] in
    let (m', rest, r) =
      memory_map_rounds-Reserves fuel bytes entry_size (a + entry_size) end es m₁ wide (omega arith)
        (omega arith) holds (IsApart-marked es m m₁ same apart) in
    (
      m',
      rw go (>>=-some _ _ (ap (λ x. handle_memory_map_entry x m) here ∙ first) ∙ rest),
      record {
        reads = λ q.
            r.reads q
            ∙ ap (λ b. reserved es q || b) (r₁.reads q)
            ∙ swap (covers e q) (reserved es q) (is_used m q);
        keeps = λ c. r.keeps (r₁.keeps c);
      },
    )
  where
    swap : (a b c : Bool) → (b || ((a || false) || c)) ≡ ((a || b) || c)
    swap true true c = refl
    swap true false c = refl
    swap false true c = refl
    swap false false c = refl

-- On a memory map tag whose size is its header and whole entries of 16 bytes or more, and whose
-- reserved chunks take free frames, each frame once: prehandleMemoryMap handles each of the entries,
-- marks the frames of the reserved ones and no others, and keeps the count of used frames right.
-- Every byte of a reserved chunk that begins with a page and ends a page or more below 2^64 lies in
-- a used frame.
pub prehandle_memory_map-Reserves :
    (bytes : ℕ → ℕ) (map entry_size : ℕ) (es : List MapEntry) (m : Memory)
    → read_int 4 bytes (map + 8) ≡ entry_size
    → read_int 4 bytes (map + 4) ≡ 16 + span entry_size es
    → 16 ≤ entry_size
    → HoldsEntries bytes entry_size (map + 16) es
    → IsApart es m
    → (m' : Memory) × (prehandle_memory_map bytes map m ≡ some m')
      × Reserves es m m'
      × ((e : MapEntry) (a : ℕ)
          → Memᴰ e es
          → (e.type == 1) ≡ false
          → e.base_addr % 0x1000 ≡ 0
          → e.base_addr + e.length + 0xfff < 2 ^ 64
          → e.base_addr ≤ a
          → a < e.base_addr + e.length
          → is_used m' (a / 0x1000) ≡ true)
unfolding prehandle_memory_map
prehandle_memory_map-Reserves bytes map entry_size es m step size wide holds apart =
    let (m', ran, r) =
      memory_map_rounds-Reserves (read_int 4 bytes (map + 4) + 1) bytes entry_size (map + 16)
        (map + 16 + read_int 4 bytes (map + 4)) es m wide (omega arith) (omega arith) holds apart in
    (
      m',
      ap
            (λ x.
              memory_map_rounds (read_int 4 bytes (map + 4) + 1) bytes x (map + 16)
                (map + 16 + read_int 4 bytes (map + 4)) m)
            step
          ∙ ran,
      r,
      λ e a mem kept aligned fits from below.
          r.reads (a / 0x1000)
          ∙ rw (reserved-mem e (a / 0x1000) es mem (covers-byte e a kept aligned fits from below))
              refl,
    )
  where
    reserved-mem :
        (e : MapEntry) (q : ℕ) (es : List MapEntry)
        → Memᴰ e es
        → covers e q ≡ true
        → reserved es q ≡ true
    reserved-mem e q [] mem inside = absurd (Memᴰ.not-nil mem)
    reserved-mem e q (x ∷ xs) mem inside = elim (Memᴰ.cases_cons mem) [
      | inl same ↦
          let here : covers x q ≡ true = ap (λ y. covers y q) (sym same) ∙ inside in rw here refl
      | inr rest ↦
          let there = reserved-mem e q xs rest inside in
          elim (Bool-cases (covers x q)) [ inl here ↦ rw here refl | inr off ↦ rw off there ]
    ]
