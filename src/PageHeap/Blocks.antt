-- ===== src/PageHeap/Blocks.antt =====
-- source/PageHeap.cpp: blocks of the page heap of page tables, among those that are always mapped.
use flix.Base.{
  ℕ, ◌+◌, ◌-◌, ◌*◌, ◌/◌, ◌^◌, ◌<◌, ◌≡◌, refl, ◌∙◌, sym, ap, Bool, true, false, Option, none, some,
  List, ltb, leb, ◌==◌, if◌then◌else◌, length, get_or, set, resize, arith, inl, inr, Bool-cases,
  >>=-some, length-set, length-resize, get_or-set_self, get_or-set_ne, get_or-resize,
  get_or-length_le, ==_iff,
}
use mathlib.Core.Path.{subst}
use flix.Memory.{find_free}
use flix.Memory.Alloc.{find_free-Found, find_free-length}
use flix.PageHeap.{Layout, World, alloc_page, alloc_block, page_kmalloc, page_kfree}

-- `PdPageHeap`
abbrev pub pd_layout : ℕ → ℕ → Layout
pd_layout heap_start page_heap_start = record {
  block_size = 2;
  pool_size = 16;
  static_size = 32;
  heap_start = heap_start;
  page_heap_start = page_heap_start;
}

-- The lowest free block, or the one behind the map, from what the search has found.
abbrev pub chosen : List Bool → Option ℕ → ℕ
chosen map none = length map
chosen map (some i) = i

abbrev pub next_block : List Bool → ℕ
next_block map = chosen map (find_free map 0)

-- A world with a block taken, in a map that has room for it.
abbrev pub taken : ℕ → List Bool → World → World
taken i map w = record w {
  heap = record (w.heap) {
    used_block_count = w.heap.used_block_count + 1;
    allocating = false;
    map = set map i true;
  };
}

module _ (heap_start page_heap_start : ℕ) where
  abbrev pub layout : Layout
  layout = pd_layout heap_start page_heap_start

  alloc_page-taken :
      (i : ℕ) (w : World)
      → i < length w.heap.map
      → get_or w.heap.map i false ≡ false
      → i * 2 < 32
      → alloc_page layout i w ≡ some ((i, page_heap_start + i * 2 ^ 12 * 2), taken i w.heap.map w)
  unfolding alloc_page
  alloc_page-taken i w inside free static =
      let a : leb (length w.heap.map) i ≡ false = ground arith in
      let b : leb 32 (i * 2) ≡ false = ground arith in rw (a, free, b) refl

-- The map when the search of `allocBlock` has found a block, or has made room for one more.
abbrev pub grown : List Bool → Option ℕ → List Bool
grown map none = resize (length map + 1) false map
grown map (some i) = map

record Room (map : List Bool) (r : Option ℕ) : Type 0 where
  inside : chosen map r < length (grown map r)
  free : get_or map (chosen map r) false ≡ false
  reads : (j : ℕ) → get_or (grown map r) j false ≡ get_or map j false

grown-Room : (map : List Bool) (r : Option ℕ) → find_free map 0 ≡ r → Room map r
grown-Room map none e = record {
  inside = omega (arith, length-resize (length map + 1) false map);
  free = get_or-length_le map (length map) false (omega arith);
  reads = λ j. get_or-resize (length map + 1) map j false (omega arith);
}
grown-Room map (some i) e = record {
  inside = omega (arith, find_free-length map 0 i e);
  free = (find_free-Found map 0 i e).free i (omega arith);
  reads = λ j. refl;
}

module _ (heap_start page_heap_start : ℕ) (w : World) (idle : w.heap.allocating ≡ false) where
  pub alloc_block-taken :
      (r : Option ℕ)
      → find_free w.heap.map 0 ≡ r
      → chosen w.heap.map r * 2 < 32
      → alloc_block (layout heap_start page_heap_start) w
        ≡ some (
          (chosen w.heap.map r, page_heap_start + chosen w.heap.map r * 2 ^ 12 * 2),
          taken (chosen w.heap.map r) (grown w.heap.map r) w,
        )
  unfolding alloc_block
  alloc_block-taken none e static =
      let room = grown-Room w.heap.map none e in
      rw (idle, e)
        (alloc_page-taken heap_start page_heap_start (length w.heap.map)
          (record w { heap = record (w.heap) { map = grown w.heap.map none } }) room.inside
          (room.reads (length w.heap.map) ∙ room.free) static)
  alloc_block-taken (some i) e static =
      let room = grown-Room w.heap.map (some i) e in
      rw (idle, e) (alloc_page-taken heap_start page_heap_start i w room.inside room.free static)

get_or-set :
    (map : List Bool) (i j : ℕ) (b : Bool)
    → i < length map
    → get_or (set map i b) j false ≡ (if i == j then b else get_or map j false)
get_or-set map i j b inside = elim (Bool-cases (i == j)) [
  | inl e ↦
      let same : i ≡ j = (==_iff i j).0 e in rw (e, ← same) (get_or-set_self map i b false inside)
  | inr e ↦ rw e (get_or-set_ne map i j b false (ground arith))
]

module _ (heap_start page_heap_start : ℕ) (start : 0 < heap_start) (i : ℕ)
    (static : i * 2 < 32) where
  -- Giving back a block that is always mapped.
  page_kfree-static :
      (w : World)
      → i < length w.heap.map
      → get_or w.heap.map i false ≡ true
      → page_kfree (layout heap_start page_heap_start) (heap_start + i * 2 ^ 12 * 2) w
        ≡ some (record w {
          heap = record (w.heap) {
            used_block_count = w.heap.used_block_count - 1;
            map = set w.heap.map i false;
          };
        })
  unfolding page_kfree
  page_kfree-static w inside used =
      let nonzero : (heap_start + i * 2 ^ 12 * 2 == 0) ≡ false = ground arith in
      let index : (heap_start + i * 2 ^ 12 * 2 - heap_start) / 2 ^ 12 / 2 ≡ i = omega arith in
      let a : ltb i (length w.heap.map) ≡ true = ground arith in
      let b : leb 32 (i * 2) ≡ false = ground arith in rw (nonzero, index, a, used, b) refl

-- A block that `kmalloc` gives, and the world after `kfree` of it.
pub record RoundTrip (w w₁ w₂ : World) : Type 0 where
  pub free : get_or w.heap.map (next_block w.heap.map) false ≡ false
  pub taken :
      (j : ℕ)
      → get_or w₁.heap.map j false
        ≡ (if next_block w.heap.map == j then true else get_or w.heap.map j false)
  pub back : (j : ℕ) → get_or w₂.heap.map j false ≡ get_or w.heap.map j false
  pub count : w₂.heap.used_block_count ≡ w.heap.used_block_count

-- On the heap of page tables, at a base above 0 and while no block is being mapped, if the lowest
-- free block, or the one behind the map when none is free, lies in the 32 pages that are always
-- mapped: kmalloc succeeds with the virtual and the physical address of that block, which was free,
-- and marks it and no other; kfree of the address then succeeds, and the blocks and their count are
-- as before.
pub page_kfree-page_kmalloc :
    (heap_start page_heap_start : ℕ) (w : World)
    → 0 < heap_start
    → w.heap.allocating ≡ false
    → next_block w.heap.map * 2 < 32
    → (w₁ : World) × (w₂ : World) × (page_kmalloc (pd_layout heap_start page_heap_start) w
        ≡ some (
          (
            heap_start + next_block w.heap.map * 2 ^ 12 * 2,
            page_heap_start + next_block w.heap.map * 2 ^ 12 * 2,
          ),
          w₁,
        ))
      × (page_kfree
            (pd_layout heap_start page_heap_start)
            (heap_start + next_block w.heap.map * 2 ^ 12 * 2)
            w₁
          ≡ some w₂)
      × RoundTrip w w₁ w₂
unfolding page_kmalloc
page_kfree-page_kmalloc heap_start page_heap_start w start idle static =
    let i = next_block w.heap.map in
    let r = find_free w.heap.map 0 in
    let room = grown-Room w.heap.map r refl in
    let w₁ = taken i (grown w.heap.map r) w in
    let inside : i < length (set (grown w.heap.map r) i true) =
      subst (λ n. i < n) (sym (length-set (grown w.heap.map r) i true)) room.inside in
    let marked = get_or-set_self (grown w.heap.map r) i true false room.inside in
    let w₂ : World = record w₁ {
      heap = record (w₁.heap) {
        used_block_count = w₁.heap.used_block_count - 1;
        map = set w₁.heap.map i false;
      };
    } in
    (
      w₁,
      w₂,
      >>=-some _ _ (alloc_block-taken heap_start page_heap_start w idle r refl static),
      page_kfree-static heap_start page_heap_start start i static w₁ inside marked,
      record {
        free = room.free;
        taken = λ j.
            get_or-set (grown w.heap.map r) i j true room.inside
            ∙ ap (λ b. if i == j then true else b) (room.reads j);
        back = λ j.
            get_or-set (set (grown w.heap.map r) i true) i j false inside
            ∙ elim (Bool-cases (i == j)) [
              | inl e ↦
                  let same : i ≡ j = (==_iff i j).0 e in
                  rw e (sym room.free ∙ ap (λ k. get_or w.heap.map k false) same)
              | inr e ↦
                  rw e (get_or-set (grown w.heap.map r) i j true room.inside ∙ rw e (room.reads j))
            ];
        count = omega arith;
      },
    )
