-- ===== src/Memory/Frames.antt =====
-- Memory.cpp: what `setPageUsed` and `setPageFree` do to the frame map and to the count.
use flix.Base.{
  ℕ, ◌+◌, ◌-◌, ◌≤◌, ◌<◌, ◌≡◌, refl, ap, sym, ◌∙◌, Bool, true, false, none, some, List, [], ◌∷◌,
  zero, suc, length, get_or, set, resize, ltb, leb, if◌then◌else◌, ◌==◌, arith, Bool-cases, inl,
  inr, get_or-set_self, get_or-set_ne, get_or-resize, get_or-length_le, length-resize, ==_iff,
  lt→ltb,
}
use flix.Memory.{Memory, is_used, grow, set_page_used, set_page_free, int_align_sup}

pub count_used : List Bool → ℕ
count_used [] = 0
count_used (true ∷ fs) = suc (count_used fs)
count_used (false ∷ fs) = count_used fs

-- `_usedPageCount` is the number of frames that are marked.
pub record IsCounted (m : Memory) : Type 0 where
  pub counted : m.used_page_count ≡ count_used m.frames

get_or-set :
    (fs : List Bool) (i j : ℕ) (b : Bool)
    → i < length fs
    → get_or (set fs i b) j false ≡ (if i == j then b else get_or fs j false)
get_or-set fs i j b h = elim (Bool-cases (i == j)) [
  | inl e ↦ let same : i ≡ j = (==_iff i j).0 e in rw (e, ← same) (get_or-set_self fs i b false h)
  | inr e ↦ rw e (get_or-set_ne fs i j b false (ground arith))
]

count_used-set-true :
    (fs : List Bool) (i : ℕ)
    → i < length fs
    → get_or fs i false ≡ false
    → count_used (set fs i true) ≡ count_used fs + 1
unfolding count_used
count_used-set-true [] i h e = elim h [ ]
count_used-set-true (true ∷ fs) zero h e = cc
count_used-set-true (false ∷ fs) zero h e = omega arith
count_used-set-true (true ∷ fs) (suc i) h e =
    omega (arith, count_used-set-true fs i (omega arith) e)
count_used-set-true (false ∷ fs) (suc i) h e = count_used-set-true fs i (omega arith) e

count_used-set-false :
    (fs : List Bool) (i : ℕ)
    → get_or fs i false ≡ true
    → count_used (set fs i false) + 1 ≡ count_used fs
unfolding count_used
count_used-set-false [] i e = cc
count_used-set-false (true ∷ fs) zero e = omega arith
count_used-set-false (false ∷ fs) zero e = cc
count_used-set-false (true ∷ fs) (suc i) e = omega (arith, count_used-set-false fs i e)
count_used-set-false (false ∷ fs) (suc i) e = count_used-set-false fs i e

pub count_used-resize :
    (n : ℕ) (fs : List Bool) → length fs ≤ n → count_used (resize n false fs) ≡ count_used fs
unfolding count_used
count_used-resize zero [] h = refl
count_used-resize zero (f ∷ fs) h = absurd (omega arith)
count_used-resize (suc n) [] h = count_used-resize n [] (omega arith)
count_used-resize (suc n) (true ∷ fs) h = ap suc (count_used-resize n fs (omega arith))
count_used-resize (suc n) (false ∷ fs) h = count_used-resize n fs (omega arith)

-- `m'` is `m` with the mark of frame `page` set to `b`.
pub record Marked (page : ℕ) (b : Bool) (m m' : Memory) : Type 0 where
  pub reads : (q : ℕ) → is_used m' q ≡ (if page == q then b else is_used m q)
  pub keeps : IsCounted m → IsCounted m'

-- Growing the vector changes no mark, and leaves room for the frame.
record Grown (page : ℕ) (m g : Memory) : Type 0 where
  room : page < length g.frames
  same : (q : ℕ) → get_or g.frames q false ≡ get_or m.frames q false
  total : count_used g.frames ≡ count_used m.frames
  count : g.used_page_count ≡ m.used_page_count

grow-Grown : (page : ℕ) (m : Memory) → Grown page m (grow page m)
unfolding grow int_align_sup
grow-Grown page m = elim (Bool-cases (leb (length m.frames) page)) [
  | inl e ↦ rw e (record {
    room = omega (arith, length-resize (int_align_sup (page + 1) 4) false m.frames);
    same = λ q. get_or-resize (int_align_sup (page + 1) 4) m.frames q false (ground arith);
    total = count_used-resize (int_align_sup (page + 1) 4) m.frames (ground arith);
    count = refl;
  })
  | inr e ↦ rw e (record { room = ground arith; same = λ q. refl; total = refl; count = refl })
]

-- A free frame can be marked: the call succeeds, marks that frame alone and counts it.
pub set_page_used-Marked :
    (page : ℕ) (m : Memory)
    → is_used m page ≡ false
    → (m' : Memory) × (set_page_used page m ≡ some m') × Marked page true m m'
unfolding set_page_used is_used
set_page_used-Marked page m free = (
  record g { frames = set g.frames page true; used_page_count = g.used_page_count + 1 },
  rw (lt→ltb page (length g.frames) room, same page ∙ free),
  record {
    reads = λ q. get_or-set g.frames page q true room ∙ ground (arith, same q);
    keeps = λ c. record { counted = ap next (count ∙ c.counted ∙ sym total) ∙ sym marks };
  },
)
  where
    g : Memory
    g = grow page m

    open (grow-Grown page m) use {room, same, total, count}

    next : ℕ → ℕ
    next n = n + 1

    marks : count_used (set g.frames page true) ≡ count_used g.frames + 1
    marks = count_used-set-true g.frames page room (same page ∙ free)

-- Marking a used frame is a failed assertion.
pub set_page_used-eq-none :
    (page : ℕ) (m : Memory) → is_used m page ≡ true → set_page_used page m ≡ none
unfolding set_page_used is_used
set_page_used-eq-none page m used = rw (lt→ltb page _ f.room, f.same page ∙ used)
  where
    f : Grown page m (grow page m)
    f = grow-Grown page m

-- A used frame can be freed.
pub set_page_free-Marked :
    (page : ℕ) (m : Memory)
    → is_used m page ≡ true
    → (m' : Memory) × (set_page_free page m ≡ some m') × Marked page false m m'
unfolding set_page_free is_used
set_page_free-Marked page m used = (
  record m { frames = set m.frames page false; used_page_count = m.used_page_count - 1 },
  rw (lt→ltb page (length m.frames) room, used),
  record {
    reads = λ q. get_or-set m.frames page q false room;
    keeps = λ c. record { counted = omega (arith, c.counted, unmarks) };
  },
)
  where
    room : page < length m.frames
    room = elim (Bool-cases (ltb page (length m.frames))) [
      | inl e ↦ ground arith
      | inr e ↦ absurd (ground (arith, get_or-length_le m.frames page false))
    ]

    unmarks : count_used (set m.frames page false) + 1 ≡ count_used m.frames
    unmarks = count_used-set-false m.frames page used

pub set_page_free-eq-none :
    (page : ℕ) (m : Memory) → is_used m page ≡ false → set_page_free page m ≡ none
unfolding set_page_free is_used
set_page_free-eq-none page m free = elim (Bool-cases (ltb page (length m.frames))) [
  | inl e ↦ rw (e, free)
  | inr e ↦ rw e
]
