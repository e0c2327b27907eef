-- ===== src/KHeap/Free.antt =====
-- KHeap.cpp: `kfree`, `init`, and the areas in use.
use flix.Base.{
  ℕ, ◌+◌, ◌-◌, ◌*◌, ◌/◌, ◌%◌, ◌<◌, ◌≡◌, refl, ◌∙◌, ap, Bool, true, false, List, [], ◌∷◌, ◌++◌, some,
  arith, inl, inr, ◌==◌, ltb, Bool-cases,
}
use flix.KHeap.{KHeap, Header, page_size, set_used, write, kfree, init}
use flix.KHeap.Walk.{
  Block, Walks, IsHeap, IsHeap-Walks, Live, live, live_from, live_from-append, Disjoint,
  live_from-Disjoint,
}
use flix.KHeap.Replace.{At, Replaced, replace}
use flix.KHeap.Divide.{marked-Replaces}

-- On a well-formed heap the areas in use lie inside the heap, in order, and none overlaps another.
pub live-Disjoint :
    (h : KHeap) (front : List Block) (last : Block)
    → IsHeap h front last
    → Disjoint h.heap_start (live h front last) h.heap_end
live-Disjoint h front last v =
    live_from-Disjoint h.header h.heap_start _ h.heap_end (IsHeap-Walks h front last v)

-- Where the area `l` of the list stands among the blocks.
record Located (f : ℕ → Header) (a : ℕ) (bs : List Block) (e : ℕ) (xs : List Live) (l : Live)
    (ys : List Live) : Type 0 where
  before : List Block
  block : Block
  after : List Block
  parts : bs ≡ before ++ block ∷ after
  reaches : Walks f a before l.address
  rest : Walks f l.address (block ∷ after) e
  left : live_from a before ≡ xs
  right : live_from (l.address + block.size) after ≡ ys

Located-later :
    (f : ℕ → Header) (a : ℕ) (b : Block) (bs : List Block) (e : ℕ) (xs xs' : List Live) (l : Live)
    (ys : List Live)
    → Walks f a (b ∷ bs) e
    → live_from a (b ∷ []) ++ xs ≡ xs'
    → Located f (a + b.size) bs e xs l ys
    → Located f a (b ∷ bs) e xs' l ys
Located-later f a b bs e xs xs' l ys w grown at = record {
  before = b ∷ at.before;
  block = at.block;
  after = at.after;
  parts = ap (◌∷◌ b) at.parts;
  reaches = (w.0, w.1, w.2, w.3, at.reaches);
  rest = at.rest;
  left = ground (arith, at.left, grown);
  right = at.right;
}

locate :
    (f : ℕ → Header) (a : ℕ) (bs : List Block) (e : ℕ) (xs : List Live) (l : Live) (ys : List Live)
    → Walks f a bs e
    → live_from a bs ≡ xs ++ l ∷ ys
    → Located f a bs e xs l ys
locate f a [] e [] l ys w eq = cc
locate f a [] e (x ∷ xs) l ys w eq = cc
locate f a (b ∷ bs) e [] l ys w eq = elim (Bool-cases b.used) [
  | inl u ↦
      let same : a ≡ l.address = ground arith in
      record {
        before = [];
        block = b;
        after = bs;
        parts = refl;
        reaches = same;
        rest = rw (← same) w;
        left = refl;
        right = ground arith;
      }
  | inr u ↦
      Located-later f a b bs e [] [] l ys w (rw u)
        (locate f (a + b.size) bs e [] l ys w.4 (ground arith))
]
locate f a (b ∷ bs) e (x ∷ xs) l ys w eq = elim (Bool-cases b.used) [
  | inl u ↦
      Located-later f a b bs e xs (x ∷ xs) l ys w (ground arith)
        (locate f (a + b.size) bs e xs l ys w.4 (ground arith))
  | inr u ↦
      Located-later f a b bs e (x ∷ xs) (x ∷ xs) l ys w (rw u)
        (locate f (a + b.size) bs e (x ∷ xs) l ys w.4 (ground arith))
]

-- `h'` is a well-formed heap in which the areas `ls` are in use.
pub record Holds (h' : KHeap) (ls : List Live) : Type 0 where
  pub front : List Block
  pub last : Block
  pub valid : IsHeap h' front last
  pub areas : live h' front last ≡ ls

-- Freeing an allocated pointer takes its area out of use and no other, and the heap stays well
-- formed.
pub kfree-Holds :
    (h : KHeap) (front : List Block) (last : Block) (xs : List Live) (l : Live) (ys : List Live)
    → IsHeap h front last
    → live h front last ≡ xs ++ l ∷ ys
    → Holds (kfree (l.address + 4) h) (xs ++ ys)
unfolding kfree
kfree-Holds h front last xs l ys v in_use =
    let back : l.address + 4 - 4 ≡ l.address = omega arith in
    let some_ptr : (l.address + 4 == 0) ≡ false = ground arith in
    rw (some_ptr, back)
      (record {
        front = done.front;
        last = done.last;
        valid = done.valid;
        areas =
            ap (live_from h.heap_start) done.listed
            ∙ live_from-append h.header h.heap_start at.before _ l.address at.reaches
            ∙ rw (at.left, at.right);
      })
  where
    at : Located h.header h.heap_start (front ++ last ∷ []) h.heap_end xs l ys
    at = locate h.header h.heap_start _ h.heap_end xs l ys (IsHeap-Walks h front last v) in_use

    c : At h front last l.address
    c = record {
      before = at.before;
      block = at.block;
      after = at.after;
      parts = at.parts;
      reaches = at.reaches;
      rest = at.rest;
    }

    done :
        Replaced
          (set_used l.address false h)
          (at.before ++ (record { size = at.block.size; used = false } ∷ at.after))
    done =
        replace h (set_used l.address false h) front last v l.address c [] _ l.address
          (marked-Replaces h front last l.address c false)

-- init on a page-aligned base, with multiboot information of more than 4 bytes and less than 1 MB,
-- makes a well-formed heap of 2 MB whose one area in use is that information.
pub init-Holds :
    (base : ℕ) (maps : ℕ → Bool) (memory : ℕ → Header) (mb_size : ℕ)
    → base % page_size ≡ 0
    → 4 < mb_size
    → mb_size < 0x100000
    → (h : KHeap) × (init base maps memory mb_size ≡ some h)
      × (h.heap_end ≡ base + 0x200000)
      × Holds h (record { address = base; size = (mb_size + 3) / 4 * 4 + 4 } ∷ [])
unfolding init
init-Holds base maps memory mb_size aligned low high =
    let e₁ : ltb 8 total ≡ true = ground arith in
    let e₂ : (total % 4 == 0) ≡ true = ground arith in
    let e₃ : ((0x200000 - total) % 4 == 0) ≡ true = ground arith in
    (
      h,
      simp (e₁, e₂, e₃),
      refl,
      record {
        front = record { size = total; used = true } ∷ [];
        last = record { size = 0x200000 - total; used = false };
        valid = record {
          walk = (ground arith, ground arith, omega arith, omega arith, refl);
          last_size = ground arith;
          last_used = ground arith;
          last_min = omega arith;
          last_aligned = omega arith;
          ends = omega arith;
          pages = omega arith;
        };
        areas = refl;
      },
    )
  where
    total : ℕ
    total = (mb_size + 3) / 4 * 4 + 4

    h₁ : KHeap
    h₁ = set_used base true (
        write base (record (memory base) { size_upper = total / 4 })
          (record {
            heap_start = base;
            heap_end = base + 0x200000;
            last_block = base + total;
            header = memory;
            mapped = [];
            maps = maps;
          }))

    h : KHeap
    h = set_used (base + total) false (
        write (base + total)
          (record (h₁.header (base + total)) { size_upper = (0x200000 - total) / 4 }) h₁)
