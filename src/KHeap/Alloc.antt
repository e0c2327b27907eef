-- ===== src/KHeap/Alloc.antt =====
-- KHeap.cpp: `kmalloc` and `kfree` on a well-formed heap.
use flix.Base.{
  ℕ, ◌+◌, ◌-◌, ◌*◌, ◌/◌, ◌%◌, ◌^◌, ◌≤◌, ◌<◌, ◌≡◌, refl, ◌∙◌, sym, true, false, List, [], ◌∷◌, ◌++◌,
  Option, some, arith, inl, inr, ◌==◌, ==-refl, leb, Bool-cases, dec_lt,
}
use mathlib.Core.List.{append-nil}
use flix.KHeap.{
  KHeap, u32, page_size, set_used, take_last, take_enlarged, take_found, block_size_for, kmalloc,
  Scan, whole, split, exhausted,
}
use flix.KHeap.Walk.{
  Block, Walks-le, IsHeap, IsFresh, IsHeap-Walks, live, live_from, live_from-append,
}
use flix.KHeap.Search.{
  Outcome, Cut, takes, splits, runs_out, IsPassed, AllPassed, AllBefore-snoc, scan_ends,
  visited_last-snoc,
}
use flix.KHeap.Grow.{grown_front, free_size, free_block, enlarge_heap-Grown}
use flix.KHeap.Replace.{At}
use flix.KHeap.Divide.{
  Parts, divided, divided-Parts, divided-Replaces, split_block-split_heap, split_heap-heap_end,
  marked-Replaces,
}
use flix.KHeap.Taken.{Taken, Taken-from, Replaces-Taken, take_split-Taken, take_whole-Taken}

abbrev Serves : ℕ → KHeap → List Block → Block → Option (ℕ × KHeap) → Type 0
Serves size h front last r =
    (p : ℕ) × (h' : KHeap) × (r ≡ some (p, h')) × Taken size h front last p h'

-- The last block of a heap.
last_At :
    (h : KHeap) (front : List Block) (last : Block)
    → IsHeap h front last
    → At h front last h.last_block
last_At h front last v = record {
  before = front;
  block = last;
  after = [];
  parts = refl;
  reaches = v.walk;
  rest = (v.last_size, v.last_used, v.last_min, v.last_aligned, v.ends);
}

take_last-whole :
    (h : KHeap) (front : List Block) (size s : ℕ)
    → IsHeap h front (free_block s)
    → size ≤ s
    → s < size + 8
    → s < 2 ^ 32
    → Serves size h front (free_block s) (take_last size h)
unfolding take_last last_At
take_last-whole h front size s v room tight small =
    let e₁ : leb size s ≡ true = ground arith in
    let e₂ : leb size (u32 (s + 2 ^ 32 - 8)) ≡ false = ground (arith, v.last_min) in
    let e₃ : (h.last_block + s == h.heap_end) ≡ true = ground (arith, v.ends) in
    (
      h.last_block + 4,
      set_used h.last_block true h,
      simp (v.last_size, e₁, e₂, ==-refl, e₃),
      Replaces-Taken h (set_used h.last_block true h) front (free_block s) v h.last_block
          (last_At h front (free_block s) v) _ _ _ s
          (marked-Replaces h front (free_block s) h.last_block (last_At h front (free_block s) v)
            true)
          size refl refl room,
    )

take_last-split :
    (h : KHeap) (front : List Block) (size s : ℕ)
    → IsHeap h front (free_block s)
    → 8 ≤ size
    → size % 4 ≡ 0
    → size + 8 ≤ s
    → s < 2 ^ 32
    → Serves size h front (free_block s) (take_last size h)
unfolding take_last last_At
take_last-split h front size s v large even room small =
    let e₁ : leb size s ≡ true = ground arith in
    let e₂ : leb size (u32 (s + 2 ^ 32 - 8)) ≡ true = ground arith in
    let e₃ : leb size size ≡ true = ground arith in
    let e₄ : (m + size + (s - size) == h.heap_end) ≡ true = ground (arith, v.ends) in
    let split =
      split_block-split_heap h m size s v.last_used v.last_size room small even v.last_aligned in
    (
      m + 4,
      divided m size s (m + size) h,
      simp (
        v.last_size, e₁, e₂, split, split_heap-heap_end, parts.first_size, e₃, parts.second_size,
        e₄,
      ),
      Replaces-Taken h (divided m size s (m + size) h) front (free_block s) v m
          (last_At h front (free_block s) v) _ _ _ size
          (divided-Replaces h front (free_block s) m size (m + size)
            (last_At h front (free_block s) v) large even room (ground arith))
          size refl refl (omega arith),
    )
  where
    m : ℕ
    m = h.last_block

    parts : Parts m size s (m + size) h
    parts = divided-Parts m size s (m + size) h large even v.last_aligned (omega arith)

take_last-Serves :
    (h : KHeap) (front : List Block) (size s : ℕ)
    → IsHeap h front (free_block s)
    → 8 ≤ size
    → size % 4 ≡ 0
    → size ≤ s
    → s < 2 ^ 32
    → Serves size h front (free_block s) (take_last size h)
take_last-Serves h front size s v large even room small = elim (dec_lt s (size + 8)) [
  | yes tight ↦ take_last-whole h front size s v room tight small
  | no roomy ↦ take_last-split h front size s v large even (omega arith) small
]

-- What is allocated does not change when the heap is enlarged.
live-grown :
    (h h' : KHeap) (front : List Block) (last : Block) (s : ℕ)
    → IsHeap h front last
    → h'.heap_start ≡ h.heap_start
    → live h' (grown_front front last) (free_block s) ≡ live h front last
live-grown h h' front last s v same = elim (Bool-cases last.used) [
  | inl u ↦ rw same (simp u (longer u))
  | inr u ↦ rw same (simp u (larger u))
]
  where
    longer :
        last.used ≡ true
        → live_from h.heap_start ((front ++ last ∷ []) ++ free_block s ∷ [])
          ≡ live_from h.heap_start (front ++ last ∷ [])
    longer u =
        live_from-append h.header h.heap_start (front ++ last ∷ []) (free_block s ∷ []) h.heap_end
          (IsHeap-Walks h front last v)
        ∙ append-nil _

    larger :
        last.used ≡ false
        → live_from h.heap_start (front ++ free_block s ∷ [])
          ≡ live_from h.heap_start (front ++ last ∷ [])
    larger u =
        live_from-append h.header h.heap_start front (free_block s ∷ []) h.last_block v.walk
        ∙ sym (live_from-append h.header h.heap_start front (last ∷ []) h.last_block v.walk ∙ rw u)

-- `mapPage` succeeds on the pages that a request of a size can need.
abbrev pub MapsFor : ℕ → KHeap → Type 0
MapsFor size h = (a : ℕ) → h.heap_end ≤ a → a < h.heap_end + (size + page_size) → h.maps a ≡ true

-- No block fits: the heap is enlarged, and the last block serves the request.
take_enlarged-Serves :
    (h : KHeap) (front : List Block) (last : Block) (size : ℕ)
    → IsHeap h front last
    → IsFresh h
    → IsPassed size last
    → 8 ≤ size
    → size % 4 ≡ 0
    → size + page_size < 2 ^ 32
    → MapsFor size h
    → Serves size h front last (take_enlarged size h.last_block h)
unfolding take_enlarged
take_enlarged-Serves h front last size v fresh passed large even small maps =
    let (h₁, ran, (valid, x)) =
      enlarge_heap-Grown pages h front last v fresh (λ u. omega (arith, all_used u))
        (omega (arith, unused)) (λ a low high. maps a low (omega (arith, unused))) in
    let (p, h', served, t) =
      take_last-Serves h₁ (grown_front front last) size (free_size last + pages * page_size) valid
        large even (omega (arith, unused)) (omega (arith, unused)) in
    (
      p,
      h',
      simp (==-refl, v.last_used, v.last_size, words, ran, served),
      Taken-from t (omega arith) (sym (live-grown h h₁ front last _ v x.same_start)) x.fresh,
    )
  where
    pages : ℕ
    pages = (size + page_size - 1 - free_size last) / page_size

    unused : free_size last ≤ size
    unused = ground (arith, passed)

    all_used : last.used ≡ true → free_size last ≡ 0
    all_used u = rw u

    words : u32 (size + 2 ^ 32 - free_size last + page_size - 1) / page_size ≡ pages
    words = omega (arith, unused)

Cut-At :
    {size : ℕ} (h : KHeap) (front : List Block) (last : Block) (m : ℕ)
    → Cut size h h.heap_start (front ++ last ∷ []) m
    → At h front last m
Cut-At h front last m c = record {
  before = c.before;
  block = c.block;
  after = c.after;
  parts = c.parts;
  reaches = c.reaches;
  rest = c.rest;
}

AllPassed-last :
    (size : ℕ) (front : List Block) (last : Block)
    → AllPassed size (front ++ last ∷ [])
    → IsPassed size last
AllPassed-last size [] last a = a.0
AllPassed-last size (b ∷ front) last a = AllPassed-last size front last a.1

-- Every way in which the search can end is served.
take_found-Serves :
    (h : KHeap) (front : List Block) (last : Block) (size : ℕ) (r : Scan)
    → IsHeap h front last
    → IsFresh h
    → 8 ≤ size
    → size % 4 ≡ 0
    → size + page_size < 2 ^ 32
    → MapsFor size h
    → h.heap_end < h.heap_start + 2 ^ 32
    → Outcome size 0 h h.heap_start (front ++ last ∷ []) r
    → Serves size h front last (take_found size r h)
unfolding take_found Cut-At
take_found-Serves h front last size (whole m) v fresh large even small maps total
      (takes _ c low high) =
    take_whole-Taken h front last v m size (Cut-At h front last m c) c.free (omega arith)
take_found-Serves h front last size (split m) v fresh large even small maps total (splits _ c low) =
    take_split-Taken h front last v m size (Cut-At h front last m c) c.free large even (omega arith)
      (omega (
        arith,
        Walks-le h.header h.heap_start c.before m c.reaches,
        Walks-le h.header (m + c.block.size) c.after h.heap_end c.rest.4,
      ))
take_found-Serves h front last size (exhausted m) v fresh large even small maps total
      (runs_out _ a e) =
    let at : m ≡ h.last_block =
      sym e ∙ visited_last-snoc h.header 0 h.heap_start front last h.last_block v.walk in
    rw at (
      take_enlarged-Serves h front last size v fresh (AllPassed-last size front last a) large even
        small maps)

block_size_for-eq : (n : ℕ) → n + 7 < 2 ^ 32 → block_size_for n ≡ (n + 7) / 4 * 4
unfolding block_size_for
block_size_for-eq n h = omega arith

-- On a well-formed heap of less than 4 GB whose unmapped part is zeroed, an allocation of n bytes
-- with 0 < n and n + 8192 < 2^32, where mapPage succeeds on the n + 8192 bytes behind the heap's end
-- and does not itself allocate from the heap: it succeeds without a failed assertion; the heap stays
-- well formed and the areas in use are the old ones with one more, which has room for n bytes and
-- its header.
pub kmalloc-Taken :
    (n : ℕ) (h : KHeap) (front : List Block) (last : Block)
    → IsHeap h front last
    → IsFresh h
    → 0 < n
    → n + 2 * page_size < 2 ^ 32
    → h.heap_end < h.heap_start + 2 ^ 32
    → ((a : ℕ) → h.heap_end ≤ a → a < h.heap_end + (n + 2 * page_size) → h.maps a ≡ true)
    → (p : ℕ) × (h' : KHeap) × (kmalloc n h ≡ some (p, h')) × Taken (n + 4) h front last p h'
unfolding kmalloc
kmalloc-Taken n h front last v fresh pos small total maps =
    let size = block_size_for n in
    let sized = block_size_for-eq n (omega arith) in
    let (r, found, out) =
      scan_ends (h.heap_end - h.heap_start + 1) size 0 h.heap_start h (front ++ last ∷ [])
        (omega (arith, Walks-le h.header h.heap_start _ h.heap_end (IsHeap-Walks h front last v)))
        (IsHeap-Walks h front last v)
        (AllBefore-snoc h.header h.heap_start front last h.last_block v.walk) in
    let (p, h', ran, t) =
      take_found-Serves h front last size r v fresh (omega (arith, sized)) (omega (arith, sized))
        (omega (arith, sized)) (λ a low high. maps a low (omega (arith, sized))) total out in
    let asked : (n == 0) ≡ false = ground arith in
    (
      p,
      h',
      simp (asked, found, ran),
      Taken-from {size = n + 4} t (omega (arith, sized)) refl (λ f. f),
    )
