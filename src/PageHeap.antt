-- ===== src/PageHeap.antt =====
-- source/PageHeap.cpp: blocks of pages for page tables, and the pool for tables that are made while a block is
-- being mapped. A block is its index with the physical address of its first page; `none` is a failed assertion.
pub mod Blocks
pub mod Pool
mod Tests
use flix.Base.{
  ℕ, ◌+◌, ◌-◌, ◌*◌, ◌/◌, ◌^◌, Bool, true, false, not, Option, none, some, List, [], ◌∷◌, ◌++◌, zero,
  suc, assert, ◌>>=◌, ◌>>◌, ltb, leb, ◌==◌, if◌then◌else◌, ◌||◌, length, get_or, set, resize,
}
use flix.Memory.{Memory, find_free, set_page_free}
use flix.Paging.{Allocator}
use flix.Paging.Directory.{Directory, Machine, map_page, unmap_page}

-- `BlockSize` and `StaticSize` in pages, `PoolSize` in blocks, `m_heapStart`, and the start of the static pages.
pub record Layout : Type 0 where
  pub block_size : ℕ
  pub pool_size : ℕ
  pub static_size : ℕ
  pub heap_start : ℕ
  pub page_heap_start : ℕ

pub record PageHeap : Type 0 where
  pub used_block_count : ℕ
  pub allocating : Bool
  pub map : List Bool
  pub pool : List (ℕ × ℕ)

-- The heap, with the kernel's directory, the frames, and `g_pagingReady`.
pub record World : Type 0 where
  pub heap : PageHeap
  pub kernel : Directory
  pub memory : Memory
  pub paging_ready : Bool

-- `m_pool.back()`, and the pool without it.
unfoldable pub pool_back : List (ℕ × ℕ) → Option ((ℕ × ℕ) × List (ℕ × ℕ))
pool_back [] = none
pool_back (b ∷ []) = some (b, [])
pool_back (b ∷ c ∷ bs) = do (last, rest) ← pool_back (c ∷ bs); some (last, b ∷ rest)

module _ (layout : Layout) where
  open layout use {block_size, pool_size, static_size, heap_start, page_heap_start}

  -- `pageToPtr` and `ptrToPage`
  abbrev pub page_to_ptr : ℕ → ℕ
  page_to_ptr index = heap_start + index * 2 ^ 12 * block_size

  abbrev pub ptr_to_page : ℕ → ℕ
  ptr_to_page ptr = (ptr - heap_start) / 2 ^ 12 / block_size

  -- `allocBlock` while a block is being mapped.
  unfoldable pub take_pool : PageHeap → Option ((ℕ × ℕ) × PageHeap)
  take_pool h = do
    assert (not (pool_size == 0))
    (block, rest) ← pool_back h.pool
    some (block, record h { pool = rest })

  -- The page heap as the mapping of one of its blocks uses it; `refillPool` returns at once.
  abbrev pub nested : Allocator
  nested = record {
    State = PageHeap;
    kmalloc = λ s. (do
      (block, h₁) ← take_pool s.heap
      some (block.1, record { heap = h₁; memory = s.memory }));
    refill_pool = some;
  }

  abbrev machine_of : World → Machine PageHeap
  machine_of w = record { paging_ready = w.paging_ready; memory = w.memory; heap = w.heap }

  abbrev after : World → Directory → Machine PageHeap → World
  after w d m = record w { heap = m.heap; kernel = d; memory = m.memory }

  -- `ATTR_RW | ATTR_NOEXEC`, on one page of a block.
  abbrev pub map_block_page : ℕ → World → Option (ℕ × World)
  map_block_page ptr w = do
    (phys, d, m) ← map_page nested ptr (0x1 + 0x4) w.kernel (machine_of w)
    some (phys, after w d m)

  -- The loop over the other pages of a block.
  unfoldable pub map_block_pages : ℕ → ℕ → World → Option World
  map_block_pages zero ptr w = some w
  map_block_pages (suc n) ptr w = do
    (_, w₁) ← map_block_page ptr w
    map_block_pages n (ptr + 2 ^ 12) w₁

  -- The physical address of a block that is being allocated.
  abbrev pub map_block : ℕ → World → Option (ℕ × World)
  map_block index w =
      if leb static_size (index * block_size)
      then (do
        (phys, w₁) ← map_block_page (page_to_ptr index) w
        w₂ ← map_block_pages (block_size - 1) (page_to_ptr index + 2 ^ 12) w₁
        some (phys, w₂))
      else some (page_heap_start + index * 2 ^ 12 * block_size, w)

  -- The map with room for a block.
  abbrev pub room_for : ℕ → List Bool → Option (List Bool)
  room_for index map =
      if leb (length map) index
      then (do assert (index == length map); some (resize (index + 1) false map))
      else some map

  unfoldable pub alloc_page : ℕ → World → Option ((ℕ × ℕ) × World)
  alloc_page index w = do
    assert (leb (length w.heap.map) index || not (get_or w.heap.map index false))
    map₁ ← room_for index w.heap.map
    (phys, w₁) ←
        map_block index
          (record w { heap = record (w.heap) { allocating = true; map = set map₁ index true } })
    some (
      (index, phys),
      record w₁ {
        heap = record (w₁.heap) {
          used_block_count = w₁.heap.used_block_count + 1;
          allocating = false;
        };
      },
    )

  -- The search is for the first `false` of a vector, as in `Memory`.
  unfoldable pub alloc_block : World → Option ((ℕ × ℕ) × World)
  alloc_block w =
      if w.heap.allocating
      then (do (block, h) ← take_pool w.heap; some (block, record w { heap = h }))
      else elim (find_free w.heap.map 0) [
        | some i ↦ alloc_page i w
        | none ↦
            let index = length w.heap.map in
            alloc_page index
              (record w { heap = record (w.heap) { map = resize (index + 1) false w.heap.map } })
      ]

  -- `kmalloc`: the virtual and the physical address.
  unfoldable pub page_kmalloc : World → Option ((ℕ × ℕ) × World)
  page_kmalloc w = do (block, w₁) ← alloc_block w; some ((page_to_ptr block.0, block.1), w₁)

  -- The loop of `kfree` over the pages of a block.
  unfoldable pub unmap_block_pages : ℕ → ℕ → World → Option World
  unmap_block_pages zero ptr w = some w
  unmap_block_pages (suc n) ptr w = do
    (phys, d) ← unmap_page ptr w.kernel (machine_of w)
    memory ← set_page_free (phys / 2 ^ 12) w.memory
    unmap_block_pages n (ptr + 2 ^ 12) (record w { kernel = d; memory = memory })

  -- `kfree`
  unfoldable pub page_kfree : ℕ → World → Option World
  page_kfree ptr w = if ptr == 0 then some w else (do
    let index = ptr_to_page ptr
    assert (ltb index (length w.heap.map))
    assert (get_or w.heap.map index false)
    w₁ ← if leb static_size (index * block_size) then unmap_block_pages block_size ptr w else some w
    some (record w₁ {
      heap = record (w₁.heap) {
        used_block_count = w₁.heap.used_block_count - 1;
        map = set w₁.heap.map index false;
      };
    }))

  -- `refillPool`, with fuel for its loop; the outer `none` is fuel that ran out.
  unfoldable pub refill_rounds : ℕ → World → Option (Option World)
  refill_rounds zero w = if ltb (length w.heap.pool) pool_size then none else some (some w)
  refill_rounds (suc n) w =
      if ltb (length w.heap.pool) pool_size
      then elim (alloc_block w) [
        | none ↦ some none
        | some (block, w₁) ↦
            refill_rounds n
              (record w₁ { heap = record (w₁.heap) { pool = w₁.heap.pool ++ (block ∷ []) } })
      ]
      else some (some w)

  unfoldable pub refill_pool : ℕ → World → Option (Option World)
  refill_pool n w = if w.heap.allocating then some (some w) else refill_rounds n w
