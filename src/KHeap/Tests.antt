-- ===== src/KHeap/Tests.antt =====
-- Runs of the heap, and the theorems about it at concrete heaps.
use flix.Base.{
  ℕ, ◌/◌, ◌≡◌, refl, Bool, true, false, Option, none, some, List, [], ◌∷◌, ◌++◌, arith,
  if◌then◌else◌, ◌==◌,
}
use flix.KHeap.{
  KHeap, Header, kmalloc, kfree, take_whole, take_enlarged, take_last, enlarge_rounds, enlarge_page,
  take_found, split_block, enlarge_heap, block_size_for,
}
use flix.KHeap.Walk.{Block, IsHeap, IsFresh}
use flix.KHeap.Taken.{Taken}
use flix.KHeap.Alloc.{kmalloc-Taken}
use flix.KHeap.Free.{Holds, kfree-Holds}

abbrev header_of : Bool → ℕ → Header
header_of u n = record { used = u; size_upper = n / 4 }

abbrev zeroed : ℕ → Header
zeroed a = header_of false 0

-- One page at 0x1000: a used block of 16 bytes, a free one of 16, and a used one of 4064.
abbrev small_header : ℕ → Header
small_header a =
    if a == 0x1000
    then header_of true 16
    else if a == 0x1010
    then header_of false 16
    else if a == 0x1020
    then header_of true 4064
    else zeroed a

abbrev small : KHeap
small = record {
  heap_start = 0x1000;
  heap_end = 0x2000;
  last_block = 0x1020;
  header = small_header;
  mapped = [];
  maps = λ a. true;
}

abbrev small_front : List Block
small_front = record { size = 16; used = true } ∷ record { size = 16; used = false } ∷ []

abbrev small_last : Block
small_last = record { size = 4064; used = true }

small-IsHeap : IsHeap small small_front small_last
small-IsHeap = record {
  walk = (refl, refl, omega arith, refl, (refl, refl, omega arith, refl, refl));
  last_size = refl;
  last_used = refl;
  last_min = omega arith;
  last_aligned = refl;
  ends = refl;
  pages = refl;
}

small-IsFresh : IsFresh small
small-IsFresh a low = ground arith

kmalloc-Taken_example :
    (p : ℕ) × (h' : KHeap) × (kmalloc 100 small ≡ some (p, h'))
    × Taken 104 small small_front small_last p h'
kmalloc-Taken_example =
    kmalloc-Taken 100 small small_front small_last small-IsHeap small-IsFresh (omega arith)
      (omega arith) (omega arith) (λ a low high. refl)

kfree-Holds_example :
    Holds (kfree 0x1004 small) ([] ++ record { address = 0x1020; size = 4064 } ∷ [])
kfree-Holds_example =
    kfree-Holds small small_front small_last [] (record { address = 0x1000; size = 16 })
      (record { address = 0x1020; size = 4064 } ∷ []) small-IsHeap refl

-- What a call returns, and where the heap ends after it.
abbrev outcome : Option (ℕ × KHeap) → Option (ℕ × ℕ)
outcome none = none
outcome (some (p, h)) = some (p, h.heap_end)

-- A free block of exactly the asked size is passed over: the heap grows by a page instead.
exact_fit_test : outcome (kmalloc 12 small) ≡ some (0x2004, 0x3000)
unfolding kmalloc take_found take_enlarged enlarge_heap take_last block_size_for enlarge_rounds
    enlarge_page split_block
exact_fit_test = refl

-- A block that is smaller by a word would have been taken.
near_fit_test : outcome (kmalloc 8 small) ≡ some (0x1014, 0x2000)
unfolding kmalloc take_found take_whole block_size_for
near_fit_test = refl

-- The same heap, with a word left over in the page that is mapped next.
abbrev dirty : KHeap
dirty = record small { header = λ a. if a == 0x2000 then header_of true 0 else small_header a }

-- The new block keeps the used bit that it finds, and an assertion fails in the second round.
dirty_test : outcome (kmalloc 5000 dirty) ≡ none
unfolding kmalloc take_found take_enlarged enlarge_heap take_last block_size_for enlarge_rounds
    enlarge_page split_block
dirty_test = refl

-- The size wraps: a request of almost 4 GB gets a block with no room at all.
wrap_test : block_size_for 0xfffffffd ≡ 4
unfolding block_size_for
wrap_test = refl
