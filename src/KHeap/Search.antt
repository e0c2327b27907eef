-- ===== src/KHeap/Search.antt =====
-- KHeap.cpp: the search of `kmalloc` is a first fit over the list of blocks, and ends.
use flix.Base.{
  ℕ, ◌+◌, ◌≤◌, ◌<◌, ◌≡◌, refl, ◌∙◌, ap, true, false, List, [], ◌∷◌, ◌++◌, Option, some, zero, suc,
  arith, ◌⊎◌, inl, inr, Bool-cases, ltb, leb, dec_lt,
}
use flix.KHeap.{KHeap, Header, get_size, Scan, whole, split, exhausted, choose, scan}
use flix.KHeap.Walk.{Block, Walks, Walks-le}

-- A block that the search passes over: it is used, or too small. One that has just the asked size
-- is passed over too.
abbrev pub IsPassed : ℕ → Block → Type 0
IsPassed size b = (b.used ≡ true) ⊎ (b.size ≤ size)

abbrev pub AllPassed : ℕ → List Block → Type 0
AllPassed size [] = Unit
AllPassed size (b ∷ bs) = IsPassed size b × AllPassed size bs

-- The blocks `bs` from `ptr` on, cut at the free block at `m`, before which all are passed over.
pub record Cut (size : ℕ) (h : KHeap) (ptr : ℕ) (bs : List Block) (m : ℕ) : Type 0 where
  pub before : List Block
  pub block : Block
  pub after : List Block
  pub parts : bs ≡ before ++ block ∷ after
  pub reaches : Walks h.header ptr before m
  pub rest : Walks h.header m (block ∷ after) h.heap_end
  pub passed : AllPassed size before
  pub free : block.used ≡ false

-- Where the variable `block` of the loop ends up.
abbrev pub visited_last : ℕ → ℕ → List Block → ℕ
visited_last block ptr [] = block
visited_last block ptr (b ∷ bs) = visited_last ptr (ptr + b.size) bs

pub data Outcome (size block : ℕ) (h : KHeap) (ptr : ℕ) (bs : List Block) : Scan → Type 0 where
  takes :
      (m : ℕ) (c : Cut size h ptr bs m)
      → size < c.block.size
      → c.block.size ≤ size + 8
      → Outcome size block h ptr bs (whole m)
  splits :
      (m : ℕ) (c : Cut size h ptr bs m)
      → size + 8 < c.block.size
      → Outcome size block h ptr bs (split m)
  runs_out :
      (m : ℕ)
      → AllPassed size bs
      → visited_last block ptr bs ≡ m
      → Outcome size block h ptr bs (exhausted m)

Cut-here :
    (size : ℕ) (h : KHeap) (ptr : ℕ) (b : Block) (bs : List Block)
    → Walks h.header ptr (b ∷ bs) h.heap_end
    → b.used ≡ false
    → Cut size h ptr (b ∷ bs) ptr
Cut-here size h ptr b bs w u = record {
  before = [];
  block = b;
  after = bs;
  parts = refl;
  reaches = refl;
  rest = w;
  passed = tt;
  free = u;
}

Cut-later :
    {size : ℕ} {h : KHeap} {ptr : ℕ} (b : Block) {bs : List Block} {m : ℕ}
    → Walks h.header ptr (b ∷ bs) h.heap_end
    → IsPassed size b
    → Cut size h (ptr + b.size) bs m
    → Cut size h ptr (b ∷ bs) m
Cut-later b w p c = record {
  before = b ∷ c.before;
  block = c.block;
  after = c.after;
  parts = ap (◌∷◌ b) c.parts;
  reaches = (w.0, w.1, w.2, w.3, c.reaches);
  rest = c.rest;
  passed = (p, c.passed);
  free = c.free;
}

Outcome-later :
    {size block : ℕ} {h : KHeap} {ptr : ℕ} (b : Block) {bs : List Block} {r : Scan}
    → Walks h.header ptr (b ∷ bs) h.heap_end
    → IsPassed size b
    → Outcome size ptr h (ptr + b.size) bs r
    → Outcome size block h ptr (b ∷ bs) r
unfolding Cut-later
Outcome-later b w p (takes m c low high) = takes m (Cut-later b w p c) low high
Outcome-later b w p (splits m c low) = splits m (Cut-later b w p c) low
Outcome-later b w p (runs_out m a e) = runs_out m (p, a) e

abbrev pub Search : ℕ → ℕ → ℕ → ℕ → KHeap → List Block → Type 0
Search fuel size block ptr h bs =
    (r : Scan) × (scan fuel size block ptr h ≡ some r) × Outcome size block h ptr bs r

scan-visit :
    (fuel size block ptr s : ℕ) (h : KHeap)
    → ptr < h.heap_end
    → ptr ≤ h.last_block
    → get_size (h.header ptr) ≡ s
    → 8 ≤ s
    → scan (suc fuel) size block ptr h
      ≡ choose size ptr (h.header ptr) (scan fuel size ptr (ptr + s) h)
unfolding scan
scan-visit fuel size block ptr s h inside ordered same large =
    let e₁ : ltb ptr h.heap_end ≡ true = ground arith in
    let e₂ : leb ptr h.last_block ≡ true = ground arith in
    let e₃ : leb 8 (get_size (h.header ptr)) ≡ true = ground arith in rw (e₁, e₂, e₃, same)

scan-end :
    (fuel size block ptr : ℕ) (h : KHeap)
    → ptr ≡ h.heap_end
    → scan (suc fuel) size block ptr h ≡ some (exhausted block)
unfolding scan
scan-end fuel size block ptr h e = let done : ltb ptr h.heap_end ≡ false = ground arith in rw done

-- What `choose` does with a block of the list.
choose-used :
    (size ptr : ℕ) (b : Header) (r : Option Scan) → b.used ≡ true → choose size ptr b r ≡ r
choose-used size ptr b r u = rw u

choose-small :
    (size ptr : ℕ) (b : Header) (r : Option Scan) → get_size b ≤ size → choose size ptr b r ≡ r
choose-small size ptr b r h = ground arith

choose-whole :
    (size ptr : ℕ) (b : Header) (r : Option Scan)
    → b.used ≡ false
    → size < get_size b
    → get_size b ≤ size + 8
    → choose size ptr b r ≡ some (whole ptr)
choose-whole size ptr b r u low high = ground arith

choose-split :
    (size ptr : ℕ) (b : Header) (r : Option Scan)
    → b.used ≡ false
    → size + 8 < get_size b
    → choose size ptr b r ≡ some (split ptr)
choose-split size ptr b r u low = ground arith

-- Every block of the list begins at or before `last`.
abbrev pub AllBefore : ℕ → ℕ → List Block → Type 0
AllBefore last a [] = Unit
AllBefore last a (b ∷ bs) = (a ≤ last) × AllBefore last (a + b.size) bs

pub AllBefore-snoc :
    (f : ℕ → Header) (a : ℕ) (bs : List Block) (c : Block) (m : ℕ)
    → Walks f a bs m
    → AllBefore m a (bs ++ c ∷ [])
AllBefore-snoc f a [] c m w = (omega arith, tt)
AllBefore-snoc f a (b ∷ bs) c m w =
    (omega (arith, Walks-le f (a + b.size) bs m w.4), AllBefore-snoc f (a + b.size) bs c m w.4)

-- With fuel above the distance to the end, the loop ends with one of the three outcomes.
pub scan_ends :
    (fuel size block ptr : ℕ) (h : KHeap) (bs : List Block)
    → h.heap_end < ptr + fuel
    → Walks h.header ptr bs h.heap_end
    → AllBefore h.last_block ptr bs
    → Search fuel size block ptr h bs
unfolding Cut-here
scan_ends zero size block ptr h bs enough w last =
    absurd (omega (arith, Walks-le h.header ptr bs h.heap_end w))
scan_ends (suc fuel) size block ptr h [] enough w last =
    (exhausted block, scan-end fuel size block ptr h w, runs_out block tt refl)
scan_ends (suc fuel) size block ptr h (b ∷ bs) enough w last =
    let inside : ptr < h.heap_end =
      omega (arith, Walks-le h.header (ptr + b.size) bs h.heap_end w.4) in
    let step = scan-visit fuel size block ptr b.size h inside last.0 w.0 w.2 in
    let (r, ran, out) = scan_ends fuel size ptr (ptr + b.size) h bs (omega arith) w.4 last.1 in
    let rest = scan fuel size ptr (ptr + b.size) h in
    let hd = h.header ptr in
    elim (Bool-cases b.used) [
      | inl u ↦
          (r, step ∙ choose-used size ptr hd rest (w.1 ∙ u) ∙ ran, Outcome-later b w (inl u) out)
      | inr u ↦ elim (dec_lt size b.size) [
        | no small ↦ (
          r,
          step ∙ choose-small size ptr hd rest (omega arith) ∙ ran,
          Outcome-later b w (inr (omega arith)) out,
        )
        | yes large ↦ elim (dec_lt (size + 8) b.size) [
          | no tight ↦ (
            whole ptr,
            step ∙ choose-whole size ptr hd rest (w.1 ∙ u) (omega arith) (omega arith),
            takes ptr (Cut-here size h ptr b bs w u) large (omega arith),
          )
          | yes roomy ↦ (
            split ptr,
            step ∙ choose-split size ptr hd rest (w.1 ∙ u) (omega arith),
            splits ptr (Cut-here size h ptr b bs w u) roomy,
          )
        ]
      ]
    ]

pub visited_last-snoc :
    (f : ℕ → Header) (block a : ℕ) (bs : List Block) (c : Block) (m : ℕ)
    → Walks f a bs m
    → visited_last block a (bs ++ c ∷ []) ≡ m
visited_last-snoc f block a [] c m w = w
visited_last-snoc f block a (b ∷ bs) c m w = visited_last-snoc f a (a + b.size) bs c m w.4
