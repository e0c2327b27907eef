-- ===== src/KHeap/Grow.antt =====
-- KHeap.cpp: `enlargeHeap` makes the last block, or a new one behind it, larger by whole pages.
use flix.Base.{
  ℕ, ◌+◌, ◌*◌, ◌/◌, ◌%◌, ◌^◌, ◌<◌, ◌≤◌, ◌≡◌, refl, ◌∙◌, true, false, List, [], ◌∷◌, ◌++◌, some,
  zero, suc, arith, ◌==◌, ==-refl, ltb, if◌then◌else◌, Bool-cases, inl, inr,
}
use mathlib.Core.Path.{subst}
use flix.KHeap.{
  KHeap, Header, get_size, update, u32, page_size, enlarge_page, enlarge_rounds, enlarge_heap,
  ends_at_end,
}
use flix.KHeap.Walk.{Block, Walks-frame, update-ne, update_self, IsHeap, IsFresh, IsHeap-Walks}

-- What a run of `enlargeHeap` leaves as it was, and how far it moves the end.
pub record Extends (h h' : KHeap) (pages : ℕ) : Type 0 where
  pub same_start : h'.heap_start ≡ h.heap_start
  pub new_end : h'.heap_end ≡ h.heap_end + pages * page_size
  pub fresh : IsFresh h → IsFresh h'

-- `mapPage` succeeds on the pages that follow the heap's end.
abbrev pub Maps : KHeap → ℕ → Type 0
Maps h pages = (a : ℕ) → h.heap_end ≤ a → a < h.heap_end + pages * page_size → h.maps a ≡ true

abbrev pub free_block : ℕ → Block
free_block s = record { size = s; used = false }

abbrev sized : ℕ → Header → Header
sized n b = record b { size_upper = n / 4 }

-- The heap after one page behind a free last block.
abbrev stretched : KHeap → ℕ → KHeap
stretched h s = record h {
  heap_end = h.heap_end + page_size;
  mapped = h.heap_end ∷ h.mapped;
  header = update h.header h.last_block (sized (s + page_size) (h.header h.last_block));
}

enlarge_page-stretched :
    (h : KHeap) (s : ℕ)
    → (h.header h.last_block).used ≡ false
    → get_size (h.header h.last_block) ≡ s
    → s + page_size < 2 ^ 32
    → s % 4 ≡ 0
    → h.maps h.heap_end ≡ true
    → enlarge_page h ≡ some (stretched h s)
unfolding enlarge_page
enlarge_page-stretched h s free size small aligned maps =
    let fits : u32 (s + page_size) ≡ s + page_size = omega arith in
    let even : ((s + page_size) % 4 == 0) ≡ true = ground arith in
    simp (maps, free, size, fits, even)

stretched-IsHeap :
    (h : KHeap) (front : List Block) (s : ℕ)
    → IsHeap h front (free_block s)
    → IsHeap (stretched h s) front (free_block (s + page_size))
stretched-IsHeap h front s v = record {
  walk =
      Walks-frame h.header (stretched h s).header h.heap_start front h.last_block
        (λ q low high. update-ne h.header h.last_block q _ (omega arith)) v.walk;
  last_size =
      rw (update_self h.header h.last_block (sized (s + page_size) (h.header h.last_block)))
        (omega (arith, v.last_aligned));
  last_used =
      rw (update_self h.header h.last_block (sized (s + page_size) (h.header h.last_block)))
        v.last_used;
  last_min = omega arith;
  last_aligned = omega (arith, v.last_aligned);
  ends = omega (arith, v.ends);
  pages = omega (arith, v.pages);
}

-- The heap after one page behind a used last block: a new block begins at the old end.
abbrev appended : KHeap → KHeap
appended h = record h {
  heap_end = h.heap_end + page_size;
  mapped = h.heap_end ∷ h.mapped;
  last_block = h.heap_end;
  header =
      update (update h.header h.heap_end (sized 0 (h.header h.heap_end))) h.heap_end
        (sized page_size (h.header h.heap_end));
}

enlarge_page-appended :
    (h : KHeap)
    → (h.header h.last_block).used ≡ true
    → h.last_block + get_size (h.header h.last_block) ≡ h.heap_end
    → h.heap_end % page_size ≡ 0
    → h.maps h.heap_end ≡ true
    → enlarge_page h ≡ some (appended h)
unfolding enlarge_page
enlarge_page-appended h used ends pages maps =
    let even : (h.heap_end % page_size == 0) ≡ true = ground arith in
    let inside : ltb h.heap_end (h.heap_end + page_size) ≡ true = ground arith in
    simp (maps, used, ends, even, inside, ==-refl)

appended-IsHeap :
    (h : KHeap) (front : List Block) (last : Block)
    → IsHeap h front last
    → IsFresh h
    → IsHeap (appended h) (front ++ last ∷ []) (free_block page_size)
appended-IsHeap h front last v fresh = record {
  walk =
      Walks-frame h.header (appended h).header h.heap_start (front ++ last ∷ []) h.heap_end
        (λ q low high.
          ground (arith, update-ne h.header h.heap_end q (sized 0 (h.header h.heap_end))))
        (IsHeap-Walks h front last v);
  last_size = ground arith;
  last_used = ground (arith, fresh h.heap_end);
  last_min = omega arith;
  last_aligned = omega arith;
  ends = omega arith;
  pages = omega (arith, v.pages);
}

-- `pages` more pages behind a free last block.
rounds-free :
    (pages : ℕ) (h : KHeap) (front : List Block) (s : ℕ)
    → IsHeap h front (free_block s)
    → s + pages * page_size < 2 ^ 32
    → Maps h pages
    → (h' : KHeap) × (enlarge_rounds pages h ≡ some h')
      × IsHeap h' front (free_block (s + pages * page_size))
      × Extends h h' pages
unfolding enlarge_rounds
rounds-free zero h front s v small maps = (
  h,
  refl,
  let e : s + 0 * page_size ≡ s = omega arith in rw e v,
  record { same_start = refl; new_end = omega arith; fresh = λ f. f },
)
rounds-free (suc n) h front s v small maps =
    let step =
      enlarge_page-stretched h s v.last_used v.last_size (omega arith) v.last_aligned
        (maps h.heap_end (omega arith) (omega arith)) in
    let (h', ran, v', x) =
      rounds-free n (stretched h s) front (s + page_size) (stretched-IsHeap h front s v)
        (omega arith) (λ a low high. maps a (omega arith) (omega arith)) in
    (
      h',
      rw step ran,
      let e : s + suc n * page_size ≡ s + page_size + n * page_size = omega arith in rw e v',
      record {
        same_start = x.same_start;
        new_end = omega (arith, x.new_end);
        fresh = λ f. x.fresh (λ a low. ground (arith, f a, v.last_used));
      },
    )

-- The blocks behind which `enlargeHeap` leaves the heap's last block, and that block's size before.
abbrev pub grown_front : List Block → Block → List Block
grown_front front last = if last.used then front ++ last ∷ [] else front

abbrev pub free_size : Block → ℕ
free_size last = if last.used then 0 else last.size

abbrev pub Grown : KHeap → List Block → Block → ℕ → KHeap → Type 0
Grown h front last pages h' =
    IsHeap h' (grown_front front last) (free_block (free_size last + pages * page_size))
    × Extends h h' pages

ends_at_end-true :
    (h : KHeap) (front : List Block) (last : Block) → IsHeap h front last → ends_at_end h ≡ true
ends_at_end-true h front last v = ground (arith, v.ends, v.last_size)

-- `pages` more pages behind a used last block: one begins the new block, the others enlarge it.
rounds-used :
    (pages : ℕ) (h : KHeap) (front : List Block) (last : Block)
    → IsHeap h front last
    → IsFresh h
    → last.used ≡ true
    → 0 < pages
    → pages * page_size < 2 ^ 32
    → Maps h pages
    → (h' : KHeap) × (enlarge_rounds pages h ≡ some h')
      × IsHeap h' (front ++ last ∷ []) (free_block (0 + pages * page_size))
      × Extends h h' pages
unfolding enlarge_rounds
rounds-used zero h front last v fresh u pos small maps = absurd (omega arith)
rounds-used (suc n) h front last v fresh u pos small maps =
    let step =
      enlarge_page-appended h (v.last_used ∙ u) (omega (arith, v.last_size, v.ends)) v.pages
        (maps h.heap_end (omega arith) (omega arith)) in
    let (h', ran, v', x) =
      rounds-free n (appended h) (front ++ last ∷ []) page_size
        (appended-IsHeap h front last v fresh) (omega arith)
        (λ a low high. maps a (omega arith) (omega arith)) in
    (
      h',
      rw step ran,
      let e : 0 + suc n * page_size ≡ page_size + n * page_size = omega arith in rw e v',
      record {
        same_start = x.same_start;
        new_end = omega (arith, x.new_end);
        fresh = λ f. x.fresh (λ a low. ground (arith, f a, f h.heap_end));
      },
    )

free_block-eta : (b : Block) → b.used ≡ false → b ≡ free_block b.size
free_block-eta b u = ground arith

rounds-Grown :
    (pages : ℕ) (h : KHeap) (front : List Block) (last : Block)
    → IsHeap h front last
    → IsFresh h
    → (last.used ≡ true → 0 < pages)
    → free_size last + pages * page_size < 2 ^ 32
    → Maps h pages
    → (h' : KHeap) × (enlarge_rounds pages h ≡ some h') × Grown h front last pages h'
rounds-Grown pages h front last v fresh needed small maps = elim (Bool-cases last.used) [
  | inl u ↦
      let (h', ran, grown, x) =
        rounds-used pages h front last v fresh u (needed u) (ground (arith, u)) maps in
      (h', ran, simp u (grown, x))
  | inr u ↦
      let (h', ran, grown, x) =
        rounds-free pages h front last.size (subst (IsHeap h front) (free_block-eta last u) v)
          (ground (arith, u)) maps in
      (h', ran, simp u (grown, x))
]

-- `enlargeHeap` succeeds on memory that is zeroed, and leaves a free last block with all the pages.
pub enlarge_heap-Grown :
    (pages : ℕ) (h : KHeap) (front : List Block) (last : Block)
    → IsHeap h front last
    → IsFresh h
    → (last.used ≡ true → 0 < pages)
    → free_size last + pages * page_size < 2 ^ 32
    → Maps h pages
    → (h' : KHeap) × (enlarge_heap pages h ≡ some h') × Grown h front last pages h'
unfolding enlarge_heap
enlarge_heap-Grown pages h front last v fresh needed small maps =
    let (h', ran, grown) = rounds-Grown pages h front last v fresh needed small maps in
    (h', rw (ran, ends_at_end-true h' _ _ grown.0), grown)
