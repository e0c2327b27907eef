-- ===== src/PageHeap/Pool.antt =====
-- source/PageHeap.cpp: the pool is filled from the blocks that are always mapped.
use flix.Base.{
  ℕ, zero, suc, ◌+◌, ◌*◌, ◌^◌, ◌≤◌, ◌≡◌, refl, Bool, true, false, Option, none, some, List, [], ◌∷◌,
  ◌++◌, ltb, length, arith, length-set, length-resize, length-append,
}
use flix.Memory.{find_free}
use flix.Memory.Alloc.{find_free-length}
use flix.PageHeap.{World, refill_rounds}
use flix.PageHeap.Blocks.{pd_layout, chosen, grown, taken, alloc_block-taken}

chosen_le : (map : List Bool) (r : Option ℕ) → find_free map 0 ≡ r → chosen map r ≤ length map
chosen_le map none e = omega arith
chosen_le map (some i) e = omega (arith, find_free-length map 0 i e)

length-grown : (map : List Bool) (r : Option ℕ) → length (grown map r) ≤ length map + 1
length-grown map none = omega (arith, length-resize (length map + 1) false map)
length-grown map (some i) = omega arith

-- With one round for each block that the pool lacks, and as many blocks left among the 16 that are always mapped,
-- `refillPool` ends with a full pool.
pub refill_rounds-full :
    (heap_start page_heap_start n : ℕ) (w : World)
    → w.heap.allocating ≡ false
    → length w.heap.pool + n ≡ 16
    → length w.heap.map + n ≤ 16
    → (w' : World) × (refill_rounds (pd_layout heap_start page_heap_start) n w ≡ some (some w'))
      × (length w'.heap.pool ≡ 16)
unfolding refill_rounds
refill_rounds-full heap_start page_heap_start zero w idle lacks room =
    let full : ltb (length w.heap.pool) 16 ≡ false = ground arith in (w, rw full refl, omega arith)
refill_rounds-full heap_start page_heap_start (suc n) w idle lacks room =
    let r = find_free w.heap.map 0 in
    let low = chosen_le w.heap.map r refl in
    let i = chosen w.heap.map r in
    let w₁ = taken i (grown w.heap.map r) w in
    let block : ℕ × ℕ = (i, page_heap_start + i * 2 ^ 12 * 2) in
    let w₂ : World = record w₁ {
      heap = record (w₁.heap) { pool = w₁.heap.pool ++ (block ∷ []) };
    } in
    let e = alloc_block-taken heap_start page_heap_start w idle r refl (omega arith) in
    let more = length-append w.heap.pool (block ∷ []) in
    let size = length-set (grown w.heap.map r) i true in
    let wider = length-grown w.heap.map r in
    let (w', ran, full) =
      refill_rounds-full heap_start page_heap_start n w₂ refl (omega (arith, more))
        (omega (arith, size, wider)) in
    let short : ltb (length w.heap.pool) 16 ≡ true = ground arith in (w', rw (short, e) ran, full)
