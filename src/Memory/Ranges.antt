-- ===== src/Memory/Ranges.antt =====
-- Memory.cpp: `setRangeUsed` and `completeRangeUsed`.
use flix.Base.{
  ℕ, ◌+◌, ◌-◌, ◌≤◌, ◌<◌, ◌≡◌, refl, ap, ◌∙◌, true, false, ◌&&◌, none, some, zero, suc, length, ltb,
  leb, if◌then◌else◌, arith, inl, inr, Bool-cases, get_or-length_le,
}
use flix.Memory.{
  Memory, is_used, set_page_used, set_range_rounds, set_range_used, complete_page,
  complete_range_rounds, complete_range_used,
}
use flix.Memory.Frames.{IsCounted, set_page_used-Marked, set_page_used-eq-none}

-- `m'` is `m` with the frames from `start` up to `stop` marked.
pub record RangeMarked (start stop : ℕ) (m m' : Memory) : Type 0 where
  pub reads : (q : ℕ) → is_used m' q ≡ (if leb start q && ltb q stop then true else is_used m q)
  pub keeps : IsCounted m → IsCounted m'

-- One more frame at the lower end.
RangeMarked-step :
    (start stop : ℕ) (m n m' : Memory)
    → start < stop
    → ((q : ℕ) → is_used n q ≡ (if leb start q && leb q start then true else is_used m q))
    → (IsCounted m → IsCounted n)
    → RangeMarked (start + 1) stop n m'
    → RangeMarked start stop m m'
RangeMarked-step start stop m n m' lt first counts r = record {
  reads = λ q. ground (arith, r.reads q, first q);
  keeps = λ c. r.keeps (counts c);
}

RangeMarked-nil : (start stop : ℕ) (m : Memory) → stop ≤ start → RangeMarked start stop m m
RangeMarked-nil start stop m h = record { reads = λ q. ground arith; keeps = λ c. c }

pub set_range_rounds-Marked :
    (n start stop : ℕ) (m : Memory)
    → start + n ≡ stop
    → ((q : ℕ) → start ≤ q → q < stop → is_used m q ≡ false)
    → (m' : Memory) × (set_range_rounds n start m ≡ some m') × RangeMarked start stop m m'
unfolding set_range_rounds
set_range_rounds-Marked zero start stop m e free =
    (m, refl, RangeMarked-nil start stop m (omega arith))
set_range_rounds-Marked (suc n) start stop m e free =
    let (next, ran, marked) =
      set_page_used-Marked start m (free start (omega arith) (omega arith)) in
    let (m', rest, r) =
      set_range_rounds-Marked n (start + 1) stop next (omega arith)
        (λ q low high. ground (arith, marked.reads q, free q)) in
    (
      m',
      rw ran rest,
      RangeMarked-step start stop m next m' (omega arith) (λ q. ground (arith, marked.reads q))
          marked.keeps r,
    )

-- A range of free frames can be marked at once: those frames and no others become used, and the
-- count stays right.
pub set_range_used-RangeMarked :
    (start stop : ℕ) (m : Memory)
    → start ≤ stop
    → ((q : ℕ) → start ≤ q → q < stop → is_used m q ≡ false)
    → (m' : Memory) × (set_range_used start stop m ≡ some m') × RangeMarked start stop m m'
unfolding set_range_used
set_range_used-RangeMarked start stop m h free =
    let (m', ran, r) = set_range_rounds-Marked (stop - start) start stop m (omega arith) free in
    (m', let ordered : leb start stop ≡ true = ground arith in rw ordered ran, r)

set_range_rounds-eq-none :
    (n start q : ℕ) (m : Memory)
    → start ≤ q
    → q < start + n
    → is_used m q ≡ true
    → set_range_rounds n start m ≡ none
unfolding set_range_rounds
set_range_rounds-eq-none zero start q m low high used = absurd (omega arith)
set_range_rounds-eq-none (suc n) start q m low high used = elim (Bool-cases (is_used m start)) [
  | inl e ↦ rw (set_page_used-eq-none start m e)
  | inr e ↦
      let (next, ran, marked) = set_page_used-Marked start m e in
      rw ran (
        set_range_rounds-eq-none n (start + 1) q next (ground arith) (omega arith)
          (ground (arith, marked.reads q)))
]

-- If any frame of the range is in use already, setRangeUsed stops at a failed assertion.
pub set_range_used-eq-none :
    (start stop q : ℕ) (m : Memory)
    → start ≤ q
    → q < stop
    → is_used m q ≡ true
    → set_range_used start stop m ≡ none
unfolding set_range_used
set_range_used-eq-none start stop q m low high used =
    let ordered : leb start stop ≡ true = ground arith in
    rw ordered (set_range_rounds-eq-none (stop - start) start q m low (omega arith) used)

complete_page-used : (page : ℕ) (m : Memory) → is_used m page ≡ true → complete_page page m ≡ some m
unfolding complete_page is_used
complete_page-used page m used = ground (arith, get_or-length_le m.frames page false)

complete_page-free :
    (page : ℕ) (m : Memory) → is_used m page ≡ false → complete_page page m ≡ set_page_used page m
unfolding complete_page is_used
complete_page-free page m free = elim (Bool-cases (leb (length m.frames) page)) [
  | inl e ↦ rw e
  | inr e ↦ rw (e, free)
]

complete_page-Marked :
    (page : ℕ) (m : Memory)
    → (m' : Memory) × (complete_page page m ≡ some m')
      × ((q : ℕ) → is_used m' q ≡ (if leb page q && leb q page then true else is_used m q))
      × (IsCounted m → IsCounted m')
complete_page-Marked page m = elim (Bool-cases (is_used m page)) [
  | inl e ↦ (m, complete_page-used page m e, λ q. ground (arith, e, at q), λ c. c)
  | inr e ↦
      let (m', ran, marked) = set_page_used-Marked page m e in
      (m', complete_page-free page m e ∙ ran, λ q. ground (arith, marked.reads q), marked.keeps)
]
  where
    at : (q : ℕ) → page ≡ q → is_used m page ≡ is_used m q
    at q e = ap (is_used m) e

complete_range_rounds-Marked :
    (n start stop : ℕ) (m : Memory)
    → start + n ≡ stop
    → (m' : Memory) × (complete_range_rounds n start m ≡ some m') × RangeMarked start stop m m'
unfolding complete_range_rounds
complete_range_rounds-Marked zero start stop m e =
    (m, refl, RangeMarked-nil start stop m (omega arith))
complete_range_rounds-Marked (suc n) start stop m e =
    let (next, ran, first, counts) = complete_page-Marked start m in
    let (m', rest, r) = complete_range_rounds-Marked n (start + 1) stop next (omega arith) in
    (m', rw ran rest, RangeMarked-step start stop m next m' (omega arith) first counts r)

-- completeRangeUsed never fails on an ordered range, whatever was marked before, and leaves the
-- whole range marked, every other frame as it was, and the count right.
pub complete_range_used-RangeMarked :
    (start stop : ℕ) (m : Memory)
    → start ≤ stop
    → (m' : Memory) × (complete_range_used start stop m ≡ some m') × RangeMarked start stop m m'
unfolding complete_range_used
complete_range_used-RangeMarked start stop m h =
    let (m', ran, r) = complete_range_rounds-Marked (stop - start) start stop m (omega arith) in
    (m', let ordered : leb start stop ≡ true = ground arith in rw ordered ran, r)
