-- ===== src/KHeap/Replace.antt =====
-- KHeap.cpp: rewriting the headers inside one block of a well-formed heap.
use flix.Base.{
  ℕ, ◌+◌, ◌≤◌, ◌<◌, ◌≡◌, refl, ◌∙◌, sym, List, [], ◌∷◌, ◌++◌, arith, ◌⊎◌, inl, inr, ◌==◌,
  if◌then◌else◌,
}
use mathlib.Core.List.{append-nil, append_assoc}
use mathlib.Core.Path.{subst}
use flix.KHeap.{KHeap, Header}
use flix.KHeap.Walk.{Block, Walks, Walks-le, Walks-frame, Walks-join, IsHeap}

-- A list with one more element at the end, cut at an element: the cut is at the end or before it.
snoc_cut {ℓ} :
    {A : Type ℓ} (front before : List A) (last b : A) (after : List A)
    → front ++ last ∷ [] ≡ before ++ b ∷ after
    → ((after ≡ []) × (front ≡ before) × (last ≡ b))
      ⊎ ((mid : List A) × (after ≡ mid ++ last ∷ []) × (front ≡ before ++ b ∷ mid))
snoc_cut [] [] last b after e = inl (cc, refl, cc)
snoc_cut [] (c ∷ []) last b after e = cc
snoc_cut [] (c ∷ d ∷ before) last b after e = cc
snoc_cut (f ∷ front) [] last b after e = inr (front, cc, cc)
snoc_cut (f ∷ front) (c ∷ before) last b after e =
    let same : f ≡ c = cc in
    elim (snoc_cut front before last b after (cc)) [
      | inl (x, y, z) ↦ inl (x, cc, z)
      | inr (mid, x, y) ↦ inr (mid, x, cc)
    ]

-- A list of blocks from a given address ends at one address only.
Walks-unique :
    (f : ℕ → Header) (a : ℕ) (bs : List Block) (m n : ℕ) → Walks f a bs m → Walks f a bs n → m ≡ n
Walks-unique f a [] m n w v = sym w ∙ v
Walks-unique f a (b ∷ bs) m n w v = Walks-unique f (a + b.size) bs m n w.4 v.4

pub Walks-cut :
    (f : ℕ → Header) (a : ℕ) (bs cs : List Block) (e : ℕ)
    → Walks f a (bs ++ cs) e
    → (m : ℕ) × Walks f a bs m × Walks f m cs e
Walks-cut f a [] cs e w = (a, refl, w)
Walks-cut f a (b ∷ bs) cs e w =
    let (m, v, u) = Walks-cut f (a + b.size) bs cs e w.4 in (m, (w.0, w.1, w.2, w.3, v), u)

-- The block `b` at `m`, in the list of a heap's blocks.
pub record At (h : KHeap) (front : List Block) (last : Block) (m : ℕ) : Type 0 where
  pub before : List Block
  pub block : Block
  pub after : List Block
  pub parts : front ++ last ∷ [] ≡ before ++ block ∷ after
  pub reaches : Walks h.header h.heap_start before m
  pub rest : Walks h.header m (block ∷ after) h.heap_end

-- `h'` has the blocks `xs` and `y` where `h` has the block at `m`; `k` is where `y` begins.
pub record Replaces (h h' : KHeap) (m size : ℕ) (xs : List Block) (y : Block) (k : ℕ) : Type 0 where
  pub same_start : h'.heap_start ≡ h.heap_start
  pub same_end : h'.heap_end ≡ h.heap_end
  pub new_last : h'.last_block ≡ (if m == h.last_block then k else h.last_block)
  pub outside : (q : ℕ) → (q < m) ⊎ (m + size ≤ q) → h'.header q ≡ h.header q
  pub first : Walks h'.header m xs k
  pub second : Walks h'.header k (y ∷ []) (m + size)

pub record Replaced (h' : KHeap) (blocks : List Block) : Type 0 where
  pub front : List Block
  pub last : Block
  pub valid : IsHeap h' front last
  pub listed : front ++ last ∷ [] ≡ blocks

module _ (h h' : KHeap) (front : List Block) (last : Block) (v : IsHeap h front last) (m : ℕ)
    (c : At h front last m) (xs : List Block) (y : Block) (k : ℕ)
    (r : Replaces h h' m c.block.size xs y k) where
  walk_before : Walks h'.header h'.heap_start c.before m
  walk_before = rw r.same_start (
      Walks-frame h.header h'.header h.heap_start c.before m (λ q low high. r.outside q (inl high))
        c.reaches)

  -- The block is the last one.
  replace_last :
      Walks h.header m (c.block ∷ []) h.heap_end
      → front ≡ c.before
      → Replaced h' (c.before ++ (xs ++ y ∷ []))
  replace_last rest f = record {
    front = c.before ++ xs;
    last = y;
    valid = record {
      walk = rw moved (Walks-join h'.header h'.heap_start c.before xs m k walk_before r.first);
      last_size = rw moved r.second.0;
      last_used = rw moved r.second.1;
      last_min = r.second.2;
      last_aligned = r.second.3;
      ends = omega (arith, moved, r.second.4, rest.4, r.same_end);
      pages = rw r.same_end v.pages;
    };
    listed = append_assoc c.before xs (y ∷ []);
  }
    where
      at_last : m ≡ h.last_block
      at_last =
          Walks-unique h.header h.heap_start c.before m h.last_block c.reaches
            (subst (λ bs. Walks h.header h.heap_start bs h.last_block) f v.walk)

      moved : h'.last_block ≡ k
      moved = ground (arith, r.new_last, at_last)

  -- Other blocks lie behind it.
  replace_inner :
      (mid : List Block)
      → Walks h.header m (c.block ∷ (mid ++ last ∷ [])) h.heap_end
      → front ≡ c.before ++ c.block ∷ mid
      → Replaced h' (c.before ++ ((xs ++ y ∷ []) ++ (mid ++ last ∷ [])))
  replace_inner mid rest f = record {
    front = c.before ++ ((xs ++ y ∷ []) ++ mid);
    last = last;
    valid = record {
      walk = rw moved (
          Walks-join h'.header h'.heap_start c.before ((xs ++ y ∷ []) ++ mid) m h.last_block
            walk_before
            (Walks-join h'.header m (xs ++ y ∷ []) mid (m + c.block.size) h.last_block
              (Walks-join h'.header m xs (y ∷ []) k (m + c.block.size) r.first r.second) behind));
      last_size = rw (moved, same_header) v.last_size;
      last_used = rw (moved, same_header) v.last_used;
      last_min = v.last_min;
      last_aligned = v.last_aligned;
      ends = omega (arith, moved, r.same_end, v.ends);
      pages = rw r.same_end v.pages;
    };
    listed = simp append_assoc;
  }
    where
      cut :
          (n : ℕ) × Walks h.header h.heap_start c.before n
          × Walks h.header n (c.block ∷ mid) h.last_block
      cut =
          Walks-cut h.header h.heap_start c.before (c.block ∷ mid) h.last_block
            (subst (λ bs. Walks h.header h.heap_start bs h.last_block) f v.walk)

      inner : Walks h.header m (c.block ∷ mid) h.last_block
      inner =
          subst (λ n. Walks h.header n (c.block ∷ mid) h.last_block)
            (Walks-unique h.header h.heap_start c.before cut.0 m cut.1 c.reaches) cut.2

      below : m + c.block.size ≤ h.last_block
      below = Walks-le h.header (m + c.block.size) mid h.last_block inner.4

      behind : Walks h'.header (m + c.block.size) mid h.last_block
      behind =
          Walks-frame h.header h'.header (m + c.block.size) mid h.last_block
            (λ q low high. r.outside q (inr low)) inner.4

      moved : h'.last_block ≡ h.last_block
      moved = ground (arith, r.new_last, below, inner.2)

      same_header : h'.header h.last_block ≡ h.header h.last_block
      same_header = r.outside h.last_block (inr below)

  -- The heap stays well formed, and its list of blocks changes in one place.
  pub replace : Replaced h' (c.before ++ ((xs ++ y ∷ []) ++ c.after))
  replace = elim (snoc_cut front c.before last c.block c.after c.parts) [
    | inl (e, f, _) ↦
        rw (e, append-nil (xs ++ y ∷ []))
          (replace_last (subst (λ bs. Walks h.header m (c.block ∷ bs) h.heap_end) e c.rest) f)
    | inr (mid, e, f) ↦
        rw e
          (replace_inner mid (subst (λ bs. Walks h.header m (c.block ∷ bs) h.heap_end) e c.rest) f)
  ]
