-- ===== src/TaskManager/Tids.antt =====
-- TaskManager.cpp: `updateNextTid` finds a free tid, and `std::set` keeps its order.
use flix.Base.{
  ℕ, ◌+◌, ◌^◌, ◌≤◌, ◌<◌, ◌≡◌, true, false, some, List, [], ◌∷◌, zero, suc, arith, ltb, leb, ◌==◌,
  if◌then◌else◌, inl, inr, Bool-cases, length, dec_lt,
}
use flix.TaskManager.{Task, get_task}
use flix.TaskManager.Next.{Ascending}
use flix.TaskManager.Life.{u32, is_some, update_next_tid, insert_task, remove_task}

-- How many tasks have a tid of at least `n`.
count_from : ℕ → List Task → ℕ
count_from n [] = 0
count_from n (t ∷ ts) = if leb n t.tid then count_from n ts + 1 else count_from n ts

count_from-le : (n : ℕ) (ts : List Task) → count_from n ts ≤ length ts
unfolding count_from
count_from-le n [] = omega arith
count_from-le n (t ∷ ts) = ground (arith, count_from-le n ts)

count_from_mono : (n : ℕ) (ts : List Task) → count_from (n + 1) ts ≤ count_from n ts
unfolding count_from
count_from_mono n [] = omega arith
count_from_mono n (t ∷ ts) = ground (arith, count_from_mono n ts)

count_from-taken :
    (n : ℕ) (ts : List Task)
    → is_some (get_task n ts) ≡ true
    → count_from (n + 1) ts < count_from n ts
unfolding count_from get_task
count_from-taken n [] e = cc
count_from-taken n (t ∷ ts) e = elim (Bool-cases (t.tid == n)) [
  | inl u ↦ ground (arith, count_from_mono n ts)
  | inr u ↦ ground (arith, count_from-taken n ts)
]

-- The tid that the loop ends at: free, and the first such from `tid` on.
pub record IsFreeTid (tid : ℕ) (ts : List Task) (t : ℕ) : Type 0 where
  pub from : tid ≤ t
  pub small : t < 2 ^ 32
  pub free : is_some (get_task t ts) ≡ false
  pub first : (k : ℕ) → tid ≤ k → k < t → is_some (get_task k ts) ≡ true

free_tid :
    (fuel tid : ℕ) (ts : List Task)
    → count_from tid ts < fuel
    → tid + count_from tid ts < 2 ^ 32
    → (t : ℕ) × (update_next_tid fuel tid ts ≡ some t) × IsFreeTid tid ts t
unfolding update_next_tid
free_tid zero tid ts enough small = absurd (omega arith)
free_tid (suc fuel) tid ts enough small = elim (Bool-cases (is_some (get_task tid ts))) [
  | inl taken ↦
      let fewer = count_from-taken tid ts taken in
      let (t, ran, f) = free_tid fuel (tid + 1) ts (omega (arith, fewer)) (omega (arith, fewer)) in
      let step : u32 (tid + 1) ≡ tid + 1 = omega (arith, f.small, f.from) in
      (
        t,
        rw (taken, step) ran,
        record {
          from = omega (arith, f.from);
          small = f.small;
          free = f.free;
          first = λ k low high. elim (dec_lt tid k) [
            | yes after ↦ f.first k (omega arith) high
            | no here ↦ let same : k ≡ tid = omega arith in rw same taken
          ];
        },
      )
  | inr free ↦ (
    tid,
    rw free,
    record {
      from = omega arith;
      small = omega arith;
      free = free;
      first = λ k low high. absurd (omega arith);
    },
  )
]

-- If _nextTid and the number of tasks add up to less than 2^32, updateNextTid ends, at the first tid
-- from _nextTid on that no task has.
pub update_next_tid-IsFreeTid :
    (tid : ℕ) (ts : List Task)
    → tid + length ts < 2 ^ 32
    → (t : ℕ) × (update_next_tid (length ts + 1) tid ts ≡ some t) × IsFreeTid tid ts t
update_next_tid-IsFreeTid tid ts small =
    free_tid (length ts + 1) tid ts (omega (arith, count_from-le tid ts))
      (omega (arith, count_from-le tid ts))

pub insert_task-Ascending :
    (lo : ℕ) (t : Task) (ts : List Task)
    → Ascending lo ts
    → lo < t.tid
    → t.tid < 2 ^ 32
    → is_some (get_task t.tid ts) ≡ false
    → Ascending lo (insert_task t ts)
unfolding insert_task get_task
insert_task-Ascending lo t [] a low small free = (low, small, tt)
insert_task-Ascending lo t (s ∷ ss) a low small free = elim (Bool-cases (ltb t.tid s.tid)) [
  | inl u ↦ rw u (low, small, (ground arith, a.1, a.2))
  | inr u ↦
      let other : (s.tid == t.tid) ≡ false = elim (Bool-cases (s.tid == t.tid)) [
        | inl e ↦ ground arith
        | inr e ↦ e
      ] in
      rw u (a.0, a.1, insert_task-Ascending s.tid t ss a.2 (ground arith) small (ground arith))
]

Ascending-lower : (lo lo' : ℕ) (ts : List Task) → lo' ≤ lo → Ascending lo ts → Ascending lo' ts
Ascending-lower lo lo' [] h a = tt
Ascending-lower lo lo' (t ∷ ts) h a = (omega arith, a.1, a.2)

pub remove_task-Ascending :
    (lo k : ℕ) (ts : List Task) → Ascending lo ts → Ascending lo (remove_task k ts)
unfolding remove_task
remove_task-Ascending lo k [] a = tt
remove_task-Ascending lo k (t ∷ ts) a = elim (Bool-cases (t.tid == k)) [
  | inl u ↦ rw u (Ascending-lower t.tid lo ts (omega arith) a.2)
  | inr u ↦ rw u (a.0, a.1, remove_task-Ascending t.tid k ts a.2)
]
