-- ===== src/KHeap/Taken.antt =====
-- KHeap.cpp: what it means that a free block has been allocated, taken whole or split.
use flix.Base.{
  ℕ, ◌+◌, ◌-◌, ◌%◌, ◌^◌, ◌≤◌, ◌<◌, ◌≡◌, refl, ◌∙◌, ap, Bool, true, false, List, [], ◌∷◌, ◌++◌, some,
  arith, inr, ◌==◌, if◌then◌else◌, leb,
}
use flix.KHeap.{KHeap, get_size, set_used, take_whole, take_split}
use flix.KHeap.Walk.{
  Block, Walks, Walks-le, Walks-join, IsHeap, IsFresh, Live, live, live_from, live_from-append,
}
use flix.KHeap.Replace.{At, Replaces, Replaced, replace}
use flix.KHeap.Divide.{
  marked-Replaces, split_heap, split_block-split_heap, divided, Parts, divided-Parts,
  divided-Replaces,
}

-- `h'` is `h` with one more block in use: it begins at `block` and has at least `size` bytes. The
-- areas in use before are in use still, at the same places and with the same sizes.
pub record Taken (size : ℕ) (h : KHeap) (front : List Block) (last : Block) (p : ℕ) (h' : KHeap)
    : Type 0 where
  pub block : ℕ
  pub total : ℕ
  pub pointer : p ≡ block + 4
  pub room : size ≤ total
  pub front' : List Block
  pub last' : Block
  pub valid : IsHeap h' front' last'
  pub below : List Live
  pub above : List Live
  pub old : live h front last ≡ below ++ above
  pub new : live h' front' last' ≡ below ++ record { address = block; size = total } ∷ above
  pub fresh : IsFresh h → IsFresh h'

-- The same, seen from an earlier heap with the same areas in use, for a smaller request.
pub Taken-from :
    {size size' : ℕ} {h₁ h : KHeap} {front₁ front : List Block} {last₁ last : Block} {p : ℕ}
    {h' : KHeap}
    → Taken size' h₁ front₁ last₁ p h'
    → size ≤ size'
    → live h front last ≡ live h₁ front₁ last₁
    → (IsFresh h → IsFresh h₁)
    → Taken size h front last p h'
Taken-from t smaller same fresh = record {
  block = t.block;
  total = t.total;
  pointer = t.pointer;
  room = omega (arith, t.room);
  front' = t.front';
  last' = t.last';
  valid = t.valid;
  below = t.below;
  above = t.above;
  old = same ∙ t.old;
  new = t.new;
  fresh = λ f. t.fresh (fresh f);
}

module _ (h h' : KHeap) (front : List Block) (last : Block) (v : IsHeap h front last) (m : ℕ)
    (c : At h front last m) (xs : List Block) (y : Block) (k total : ℕ)
    (r : Replaces h h' m c.block.size xs y k) where
  pieces : Walks h'.header m (xs ++ y ∷ []) (m + c.block.size)
  pieces = Walks-join h'.header m xs (y ∷ []) k (m + c.block.size) r.first r.second

  -- A free block was replaced by blocks of which only the first is in use.
  pub Replaces-Taken :
      (size : ℕ)
      → c.block.used ≡ false
      → live_from m (xs ++ y ∷ []) ≡ record { address = m; size = total } ∷ []
      → size ≤ total
      → Taken size h front last (m + 4) h'
  Replaces-Taken size free one room = record {
    block = m;
    total = total;
    pointer = refl;
    room = room;
    front' = done.front;
    last' = done.last;
    valid = done.valid;
    below = live_from h.heap_start c.before;
    above = live_from (m + c.block.size) c.after;
    old =
        ap (live_from h.heap_start) c.parts
        ∙ live_from-append h.header h.heap_start c.before (c.block ∷ c.after) m c.reaches
        ∙ rw free;
    new =
        rw (done.listed, r.same_start)
          (live_from-append h.header h.heap_start c.before ((xs ++ y ∷ []) ++ c.after) m c.reaches
            ∙ rw (
              live_from-append h'.header m (xs ++ y ∷ []) c.after (m + c.block.size) pieces,
              one,
            ));
    fresh = λ f a low.
        rw
          (r.outside a (
            inr (
              omega (
                arith,
                Walks-le h.header (m + c.block.size) c.after h.heap_end c.rest.4,
                r.same_end,
              ))))
          (f a (omega (arith, r.same_end)));
  }
    where
      done : Replaced h' (c.before ++ ((xs ++ y ∷ []) ++ c.after))
      done = replace h h' front last v m c xs y k r

relast :
    (b : Bool) (n : ℕ) (h : KHeap)
    → (if b then record h { last_block = n } else h)
      ≡ record h { last_block = if b then n else h.last_block }
relast true n h = refl
relast false n h = refl

take_split-divided :
    (h : KHeap) (m size full : ℕ)
    → (h.header m).used ≡ false
    → get_size (h.header m) ≡ full
    → 8 ≤ size
    → size + 8 ≤ full
    → full < 2 ^ 32
    → size % 4 ≡ 0
    → full % 4 ≡ 0
    → take_split size m h
      ≡ some (m + 4, divided m size full (if m == h.last_block then m + size else h.last_block) h)
unfolding take_split
take_split-divided h m size full free is_full large room small even even' =
    let split = split_block-split_heap h m size full free is_full room small even even' in
    let kept : (split_heap m size full h).last_block ≡ h.last_block = unfold split_heap in refl in
    let e₁ : leb 8 (full - size) ≡ true = ground arith in
    let e₂ : leb size size ≡ true = ground arith in
    simp (split, relast, kept, parts.second_used, parts.second_size, parts.first_size, e₁, e₂)
  where
    parts : Parts m size full (if m == h.last_block then m + size else h.last_block) h
    parts = divided-Parts m size full _ h large even even' (omega arith)

-- The run of `kmalloc` on a block that is split, and its effect.
pub take_split-Taken :
    (h : KHeap) (front : List Block) (last : Block) (v : IsHeap h front last) (m size : ℕ)
    (c : At h front last m)
    → c.block.used ≡ false
    → 8 ≤ size
    → size % 4 ≡ 0
    → size + 8 ≤ c.block.size
    → c.block.size < 2 ^ 32
    → (p : ℕ) × (h' : KHeap) × (take_split size m h ≡ some (p, h')) × Taken size h front last p h'
take_split-Taken h front last v m size c free large even room small = (
  m + 4,
  divided m size c.block.size l h,
  take_split-divided h m size c.block.size (c.rest.1 ∙ free) c.rest.0 large room small even
      c.rest.3,
  Replaces-Taken h (divided m size c.block.size l h) front last v m c _ _ _ size
      (divided-Replaces h front last m size l c large even room refl) size free refl (omega arith),
)
  where
    l : ℕ
    l = if m == h.last_block then m + size else h.last_block

-- The same for a block that is taken whole.
pub take_whole-Taken :
    (h : KHeap) (front : List Block) (last : Block) (v : IsHeap h front last) (m size : ℕ)
    (c : At h front last m)
    → c.block.used ≡ false
    → size ≤ c.block.size
    → (p : ℕ) × (h' : KHeap) × (take_whole size m h ≡ some (p, h')) × Taken size h front last p h'
unfolding take_whole
take_whole-Taken h front last v m size c free room = (
  m + 4,
  set_used m true h,
  let e : leb size (get_size (h.header m)) ≡ true = ground (arith, c.rest) in rw e,
  Replaces-Taken h (set_used m true h) front last v m c _ _ _ c.block.size
      (marked-Replaces h front last m c true) size free refl room,
)
