-- ===== src/KHeap.antt =====
-- source/KHeap.cpp and KHeap.hpp: the kernel's heap. Blocks lie one behind the other from
-- `m_heapStart` to `m_heapEnd`; a block's header is the word at its address. Addresses are numbers,
-- `nullptr` is 0, `none` is a failed assertion. The `uint32_t` arithmetic wraps as written.
pub mod Walk
pub mod Search
pub mod Grow
pub mod Replace
pub mod Divide
pub mod Taken
pub mod Alloc
pub mod Free
mod Tests
use flix.Base.{
  ℕ, ◌+◌, ◌-◌, ◌*◌, ◌/◌, ◌%◌, ◌^◌, Bool, true, false, not, Option, none, some, List, ◌∷◌, [], zero,
  suc, assert, ◌>>=◌, ◌>>◌, ltb, leb, ◌==◌, if◌then◌else◌, ◌&&◌,
}

abbrev pub header_size : ℕ
header_size = 4

abbrev pub block_min_size : ℕ
block_min_size = 8

abbrev pub page_size : ℕ
page_size = 4096

abbrev pub u32 : ℕ → ℕ
u32 n = n % 2 ^ 32

-- `HeapBlock::State`: the size is kept without its two low bits.
pub record Header : Type 0 where
  pub used : Bool
  pub size_upper : ℕ

abbrev pub get_size : Header → ℕ
get_size b = b.size_upper * 4

pub set_size : ℕ → Header → Option Header
set_size n b = do assert (n % 4 == 0); some (record b { size_upper = n / 4 })

-- The heap. `header a` is the word at address `a` read as a header, also where no block begins.
-- `mapped` logs the pages that `enlargeHeap` has had mapped, latest first, and
-- `maps` is whether `mapPage` succeeds on an address of the kernel: it needs a frame, and blocks of the page heap.
pub record KHeap : Type 0 where
  pub heap_start : ℕ
  pub heap_end : ℕ
  pub last_block : ℕ
  pub header : ℕ → Header
  pub mapped : List ℕ
  pub maps : ℕ → Bool

abbrev pub update : (ℕ → Header) → ℕ → Header → ℕ → Header
update f a b q = if q == a then b else f q

abbrev pub write : ℕ → Header → KHeap → KHeap
write a b h = record h { header = update h.header a b }

abbrev pub set_used : ℕ → Bool → KHeap → KHeap
set_used a u h = write a (record (h.header a) { used = u }) h

abbrev pub resize_block : ℕ → ℕ → KHeap → Option KHeap
resize_block a n h = do b ← set_size n (h.header a); some (write a b h)

-- `init`, given the heap's base, what memory holds there, and the multiboot size that is read there.
pub init : ℕ → (ℕ → Bool) → (ℕ → Header) → ℕ → Option KHeap
unfolding set_size
init base maps memory mb_size =
    let block_size = (mb_size + 3) / 4 * 4 + header_size in
    do
      assert (ltb block_min_size block_size)
      h₁ ← resize_block base block_size (record {
        heap_start = base;
        heap_end = base + 0x200000;
        last_block = base + block_size;
        header = memory;
        mapped = [];
        maps = maps;
      })
      h₂ ← resize_block (base + block_size) (0x200000 - block_size) (set_used base true h₁)
      some (set_used (base + block_size) false h₂)

-- `splitBlock`: the heap after it, and the address of the second part.
pub split_block : ℕ → ℕ → KHeap → Option (ℕ × KHeap)
unfolding set_size
split_block block size h =
    let full_size = get_size (h.header block) in
    let next_block = block + size in
    do
      assert (not (h.header block).used)
      assert (leb size (u32 (full_size + 2 ^ 32 - block_min_size)))
      h₁ ← resize_block block size h
      h₂ ← resize_block next_block (u32 (full_size + 2 ^ 32 - size)) h₁
      some (next_block, set_used next_block false h₂)

-- How the search of `kmalloc` ends: at a block to be taken whole, at one to be split, or past the
-- end, with the last block that was visited.
pub data Scan : Type 0 where
  whole : ℕ → Scan
  split : ℕ → Scan
  exhausted : ℕ → Scan

-- One block of the search; `rest` is what follows if it is passed over.
abbrev pub choose : ℕ → ℕ → Header → Option Scan → Option Scan
choose size ptr b rest =
    if b.used
    then rest
    else if ltb size (get_size b) && leb (get_size b - block_min_size) size
    then some (whole ptr)
    else if ltb size (get_size b)
    then some (split ptr)
    else rest

abbrev pub visit : ℕ → ℕ → KHeap → Option Scan → Option Scan
visit size ptr h rest = do
  assert (leb ptr h.last_block)
  assert (leb block_min_size (get_size (h.header ptr)))
  choose size ptr (h.header ptr) rest

-- The `while` loop of `kmalloc`, with fuel.
pub scan : ℕ → ℕ → ℕ → ℕ → KHeap → Option Scan
scan zero size block ptr h = none
scan (suc fuel) size block ptr h =
    let rest = scan fuel size ptr (ptr + get_size (h.header ptr)) h in
    if ltb ptr h.heap_end then visit size ptr h rest else some (exhausted block)

-- The last block is used: a block of size 0 begins behind it. Its used bit is left as it was found.
pub start_block : KHeap → Option KHeap
start_block h =
    let block = h.last_block + get_size (h.header h.last_block) in
    do
      assert (block % page_size == 0)
      assert (ltb block h.heap_end)
      h₁ ← resize_block block 0 h
      some (record h₁ { last_block = block })

-- One round of `enlargeHeap`; `none` is also a failure inside `mapPage`.
pub enlarge_page : KHeap → Option KHeap
unfolding start_block set_size
enlarge_page h =
    let h₁ = record h { heap_end = h.heap_end + page_size; mapped = h.heap_end ∷ h.mapped } in
    do
      assert (h.maps h.heap_end)
      h₂ ← if (h.header h.last_block).used then start_block h₁ else some h₁
      resize_block h₂.last_block (u32 (get_size (h₂.header h₂.last_block) + page_size)) h₂

pub enlarge_rounds : ℕ → KHeap → Option KHeap
enlarge_rounds zero h = some h
enlarge_rounds (suc n) h = do h₁ ← enlarge_page h; enlarge_rounds n h₁

abbrev pub ends_at_end : KHeap → Bool
ends_at_end h = h.last_block + get_size (h.header h.last_block) == h.heap_end

pub enlarge_heap : ℕ → KHeap → Option KHeap
enlarge_heap page_count h = do h₁ ← enlarge_rounds page_count h; assert (ends_at_end h₁); some h₁

-- The three ways in which `kmalloc` ends.
pub take_whole : ℕ → ℕ → KHeap → Option (ℕ × KHeap)
take_whole size block h = do
  assert (leb size (get_size (h.header block)))
  some (block + header_size, set_used block true h)

pub take_split : ℕ → ℕ → KHeap → Option (ℕ × KHeap)
take_split size block h = do
  (next, h₁) ← split_block block size h
  let h₂ =
      set_used block true (if block == h.last_block then record h₁ { last_block = next } else h₁)
  assert (not (h₂.header next).used)
  assert (leb block_min_size (get_size (h₂.header next)))
  assert (leb size (get_size (h₂.header block)))
  some (block + header_size, h₂)

-- The tail of `kmalloc`, on the last block of the enlarged heap.
pub take_last : ℕ → KHeap → Option (ℕ × KHeap)
take_last size h =
    let block = h.last_block in
    do
      assert (leb size (get_size (h.header block)))
      h₁ ←
          if leb size (u32 (get_size (h.header block) + 2 ^ 32 - block_min_size))
          then split_block block size h >>= (λ r. some (record (r.1) { last_block = r.0 }))
          else some h
      let h₂ = set_used block true h₁
      assert (leb size (get_size (h₂.header block)))
      assert (ends_at_end h₂)
      some (block + header_size, h₂)

pub take_enlarged : ℕ → ℕ → KHeap → Option (ℕ × KHeap)
take_enlarged size block h =
    let last = h.header block in
    let block_size = if last.used then 0 else get_size last in
    do
      assert (block == h.last_block)
      h₁ ← enlarge_heap (u32 (size + 2 ^ 32 - block_size + page_size - 1) / page_size) h
      take_last size h₁

pub take_found : ℕ → Scan → KHeap → Option (ℕ × KHeap)
take_found size (whole block) h = take_whole size block h
take_found size (split block) h = take_split size block h
take_found size (exhausted block) h = take_enlarged size block h

-- The asked size with its header, rounded up to the alignment.
pub block_size_for : ℕ → ℕ
block_size_for n = u32 (u32 (n + header_size) + 3) / 4 * 4

pub kmalloc : ℕ → KHeap → Option (ℕ × KHeap)
unfolding scan
kmalloc n h =
    let size = block_size_for n in
    let found = scan (h.heap_end - h.heap_start + 1) size 0 h.heap_start h in
    if n == 0 then some (0, h) else found >>= (λ r. take_found size r h)

pub kfree : ℕ → KHeap → KHeap
kfree ptr h = if ptr == 0 then h else set_used (ptr - header_size) false h
