-- ===== src/KHeap/Divide.antt =====
-- KHeap.cpp: what `splitBlock` leaves: two blocks in the place of one.
use flix.Base.{
  ℕ, ◌+◌, ◌-◌, ◌/◌, ◌%◌, ◌^◌, ◌≤◌, ◌<◌, ◌≡◌, refl, Bool, true, false, List, [], ◌∷◌, some, arith,
  ◌⊎◌, ◌==◌, if◌then◌else◌, leb,
}
use flix.KHeap.{KHeap, Header, get_size, u32, write, set_used, split_block}
use flix.KHeap.Walk.{Block, update-ne}
use flix.KHeap.Replace.{At, Replaces}

abbrev pub sized : ℕ → Header → Header
sized n b = record b { size_upper = n / 4 }

-- `setUsed` on a block.
pub marked-Replaces :
    (h : KHeap) (front : List Block) (last : Block) (m : ℕ) (c : At h front last m) (u : Bool)
    → Replaces h (set_used m u h) m c.block.size [] (record { size = c.block.size; used = u }) m
marked-Replaces h front last m c u = record {
  same_start = refl;
  same_end = refl;
  new_last = ground arith;
  outside = λ q far. update-ne h.header m q (record (h.header m) { used = u }) (omega arith);
  first = refl;
  second = (ground arith, ground arith, c.rest.2, c.rest.3, refl);
}

-- The heap after `splitBlock`, the first part marked as used and `l` as the last block.
unfoldable pub split_heap : ℕ → ℕ → ℕ → KHeap → KHeap
split_heap m size full h =
    let h₁ = write m (sized size (h.header m)) h in
    let h₂ = write (m + size) (sized (full - size) (h₁.header (m + size))) h₁ in
    set_used (m + size) false h₂

pub split_heap-heap_end :
    (m size full : ℕ) (h : KHeap) → (split_heap m size full h).heap_end ≡ h.heap_end
unfolding split_heap
split_heap-heap_end m size full h = refl

pub split_block-split_heap :
    (h : KHeap) (m size full : ℕ)
    → (h.header m).used ≡ false
    → get_size (h.header m) ≡ full
    → size + 8 ≤ full
    → full < 2 ^ 32
    → size % 4 ≡ 0
    → full % 4 ≡ 0
    → split_block m size h ≡ some (m + size, split_heap m size full h)
unfolding split_block split_heap
split_block-split_heap h m size full free is_full room small even even' =
    let e₁ : leb size (u32 (full + 2 ^ 32 - 8)) ≡ true = ground arith in
    let e₂ : u32 (full + 2 ^ 32 - size) ≡ full - size = omega arith in
    let e₃ : (size % 4 == 0) ≡ true = ground arith in
    let e₄ : ((full - size) % 4 == 0) ≡ true = ground arith in simp (is_full, free, e₁, e₂, e₃, e₄)

-- What `take_split` and the tail of `kmalloc` leave.
abbrev pub divided : ℕ → ℕ → ℕ → ℕ → KHeap → KHeap
divided m size full l h = set_used m true (record (split_heap m size full h) { last_block = l })

-- The headers of the two parts.
pub record Parts (m size full l : ℕ) (h : KHeap) : Type 0 where
  pub first_size : get_size ((divided m size full l h).header m) ≡ size
  pub first_used : ((divided m size full l h).header m).used ≡ true
  pub second_size : get_size ((divided m size full l h).header (m + size)) ≡ full - size
  pub second_used : ((divided m size full l h).header (m + size)).used ≡ false

pub divided-Parts :
    (m size full l : ℕ) (h : KHeap)
    → 8 ≤ size
    → size % 4 ≡ 0
    → full % 4 ≡ 0
    → size ≤ full
    → Parts m size full l h
unfolding split_heap
divided-Parts m size full l h large even even' room = record {
  first_size = ground arith;
  first_used = ground arith;
  second_size = ground arith;
  second_used = ground arith;
}

pub divided-Replaces :
    (h : KHeap) (front : List Block) (last : Block) (m size l : ℕ) (c : At h front last m)
    → 8 ≤ size
    → size % 4 ≡ 0
    → size + 8 ≤ c.block.size
    → l ≡ (if m == h.last_block then m + size else h.last_block)
    → Replaces h
        (divided m size c.block.size l h)
        m
        c.block.size
        (record { size = size; used = true } ∷ [])
        (record { size = c.block.size - size; used = false })
        (m + size)
divided-Replaces h front last m size l c large even room placed = record {
  same_start = unfold split_heap in refl;
  same_end = unfold split_heap in refl;
  new_last = placed;
  outside = outside;
  first = (parts.first_size, parts.first_used, large, even, refl);
  second =
      (parts.second_size, parts.second_used, omega arith, omega (arith, c.rest.3), omega arith);
}
  where
    parts : Parts m size c.block.size l h
    parts = divided-Parts m size c.block.size l h large even c.rest.3 (omega arith)

    outside :
        (q : ℕ)
        → (q < m) ⊎ (m + c.block.size ≤ q)
        → (divided m size c.block.size l h).header q ≡ h.header q
    outside q far =
        let e₁ : (q == m) ≡ false = ground arith in
        let e₂ : (q == m + size) ≡ false = ground arith in unfold split_heap in rw (e₁, e₂)
