-- ===== src/TaskManager/Next.antt =====
-- TaskManager.cpp: `getNext` ends, and chooses the runnable task that comes next in cyclic order.
use flix.Base.{
  ℕ, ◌+◌, ◌%◌, ◌^◌, ◌≤◌, ◌<◌, ◌≡◌, refl, ◌∙◌, sym, ap, Bool, true, false, Option, none, some, List,
  [], ◌∷◌, zero, suc, arith, ltb, ◌&&◌, if◌then◌else◌, inl, inr, Bool-cases, Option-cases,
}
use flix.TaskManager.{Task, TaskManager, is_runnable, upper_bound, get_next_loop, get_next}

-- The tids rise strictly, from above `lo`, and stay below 2 ^ 32.
abbrev pub Ascending : ℕ → List Task → Type 0
Ascending lo [] = Unit
Ascending lo (t ∷ ts) = (lo < t.tid) × (t.tid < 2 ^ 32) × Ascending t.tid ts

-- The first runnable task with a tid above `id`.
unfoldable pub first_after : ℕ → List Task → Option Task
first_after id [] = none
first_after id (t ∷ ts) =
    let rest = first_after id ts in if ltb id t.tid && is_runnable t.state then some t else rest

abbrev pub or_else : Option Task → Option Task → Option Task
or_else none other = other
or_else (some t) other = some t

-- The choice in cyclic order: after the active task, or else from the start.
abbrev pub cyclic_next : ℕ → List Task → Option Task
cyclic_next active ts = or_else (first_after active ts) (first_after 0 ts)

-- Past the end of the set there is no runnable task either.
first_after-end : (id : ℕ) (ts : List Task) → upper_bound id ts ≡ none → first_after id ts ≡ none
unfolding first_after upper_bound
first_after-end id [] e = refl
first_after-end id (t ∷ ts) e = ground (arith, first_after-end id ts)

first_after-runnable :
    (id : ℕ) (ts : List Task) (t : Task)
    → upper_bound id ts ≡ some t
    → is_runnable t.state ≡ true
    → first_after id ts ≡ some t
unfolding first_after upper_bound
first_after-runnable id [] t e r = cc
first_after-runnable id (s ∷ ts) t e r = ground (arith, first_after-runnable id ts t)

-- Below all tids the starting point does not matter.
first_after-below :
    (lo id id' : ℕ) (ts : List Task)
    → Ascending lo ts
    → id ≤ lo
    → id' ≤ lo
    → first_after id ts ≡ first_after id' ts
unfolding first_after
first_after-below lo id id' [] a h h' = refl
first_after-below lo id id' (t ∷ ts) a h h' =
    let rest = first_after-below t.tid id id' ts a.2 (omega arith) (omega arith) in
    let e : ltb id t.tid ≡ true = ground arith in
    let e' : ltb id' t.tid ≡ true = ground arith in rw (e, e', rest)

-- A task that cannot run may be passed by one step of the tid.
first_after-skip :
    (lo id : ℕ) (ts : List Task) (t : Task)
    → Ascending lo ts
    → upper_bound id ts ≡ some t
    → is_runnable t.state ≡ false
    → first_after id ts ≡ first_after (id + 1) ts
unfolding first_after upper_bound
first_after-skip lo id [] t a e r = cc
first_after-skip lo id (s ∷ ts) t a e r = elim (Bool-cases (ltb id s.tid)) [
  | inl u ↦ ground (arith, first_after-below s.tid id (id + 1) ts a.2)
  | inr u ↦ ground (arith, first_after-skip s.tid id ts t a.2)
]

upper_bound-lt :
    (lo id : ℕ) (ts : List Task) (t : Task)
    → Ascending lo ts
    → upper_bound id ts ≡ some t
    → (id < t.tid) × (t.tid < 2 ^ 32)
unfolding upper_bound
upper_bound-lt lo id [] t a e = cc
upper_bound-lt lo id (s ∷ ts) t a e = elim (Bool-cases (ltb id s.tid)) [
  | inl u ↦ ground arith
  | inr u ↦ upper_bound-lt s.tid id ts t a.2 (ground arith)
]

-- One step of the loop, where the first task above `id` cannot run.
loop-skip :
    (fuel id : ℕ) (looped : Bool) (ts : List Task) (t : Task)
    → upper_bound id ts ≡ some t
    → is_runnable t.state ≡ false
    → id + 1 < 2 ^ 32
    → get_next_loop (suc fuel) id looped ts ≡ get_next_loop fuel (id + 1) looped ts
unfolding get_next_loop
loop-skip fuel id looped ts t e r small =
    let step : (id + 1) % 2 ^ 32 ≡ id + 1 = omega arith in rw (e, get_next_loop, r, step)

loop-runnable :
    (fuel id : ℕ) (looped : Bool) (ts : List Task) (t : Task)
    → upper_bound id ts ≡ some t
    → is_runnable t.state ≡ true
    → get_next_loop (suc fuel) id looped ts ≡ some (some t)
unfolding get_next_loop
loop-runnable fuel id looped ts t e r = rw (e, get_next_loop, r)

-- The second pass ends at the first runnable task above `id`, or at the end.
second_pass :
    (fuel id lo : ℕ) (ts : List Task)
    → Ascending lo ts
    → id < 2 ^ 32
    → 2 ^ 32 ≤ id + fuel
    → get_next_loop fuel id true ts ≡ some (first_after id ts)
second_pass zero id lo ts a small enough = absurd (omega arith)
second_pass (suc fuel) id lo ts a small enough = elim (Option-cases (upper_bound id ts)) [
  | inl e ↦ unfold get_next_loop in rw (e, get_next_loop, first_after-end id ts e)
  | inr (t, e) ↦
      let bounds = upper_bound-lt lo id ts t a e in
      elim (Bool-cases (is_runnable t.state)) [
        | inl r ↦ rw (loop-runnable fuel id true ts t e r, first_after-runnable id ts t e r)
        | inr r ↦
            loop-skip fuel id true ts t e r (omega (arith, bounds))
            ∙ second_pass fuel (id + 1) lo ts a (omega (arith, bounds)) (omega arith)
            ∙ ap some (sym (first_after-skip lo id ts t a e r))
      ]
]

cyclic_next-skip :
    (lo id : ℕ) (ts : List Task) (t : Task)
    → Ascending lo ts
    → upper_bound id ts ≡ some t
    → is_runnable t.state ≡ false
    → cyclic_next (id + 1) ts ≡ cyclic_next id ts
cyclic_next-skip lo id ts t a e r = rw (first_after-skip lo id ts t a e r)

first_pass :
    (fuel id lo : ℕ) (ts : List Task)
    → Ascending lo ts
    → id < 2 ^ 32
    → 2 ^ 33 < id + fuel
    → get_next_loop fuel id false ts ≡ some (cyclic_next id ts)
first_pass zero id lo ts a small enough = absurd (omega arith)
first_pass (suc fuel) id lo ts a small enough = elim (Option-cases (upper_bound id ts)) [
  | inl e ↦
      unfold get_next_loop in
      rw (e, get_next_loop, first_after-end id ts e)
        (second_pass fuel 0 lo ts a (omega arith) (omega arith))
  | inr (t, e) ↦
      let bounds = upper_bound-lt lo id ts t a e in
      elim (Bool-cases (is_runnable t.state)) [
        | inl r ↦ rw (loop-runnable fuel id false ts t e r, first_after-runnable id ts t e r)
        | inr r ↦
            loop-skip fuel id false ts t e r (omega (arith, bounds))
            ∙ first_pass fuel (id + 1) lo ts a (omega (arith, bounds)) (omega arith)
            ∙ ap some (cyclic_next-skip lo id ts t a e r)
      ]
]

-- For tasks in the order of their tids and a 32-bit active tid, the loop of getNext always ends, and
-- its result is the first runnable task in cyclic order after the active one.
pub get_next-cyclic_next :
    (m : TaskManager) (lo : ℕ)
    → Ascending lo m.tasks
    → m.active_task < 2 ^ 32
    → get_next m ≡ some (cyclic_next m.active_task m.tasks)
unfolding get_next
get_next-cyclic_next m lo a small =
    first_pass (2 ^ 33 + 2) m.active_task lo m.tasks a small (omega arith)
