-- ===== src/TaskManager/Timer.antt =====
-- TaskManager.cpp: the timer ticks exactly while two tasks or more can run.
use flix.Base.{ℕ, ◌+◌, ◌≡◌, refl, true, false, some, List, [], ◌∷◌, map, arith, ltb, if◌then◌else◌}
use flix.TaskManager.{TaskManager, Task, is_runnable, get_task, finds_second, do_interrupt_masking}
use flix.TaskManager.Life.{insert_task, remove_task}
use flix.TaskManager.Keys.{key}

unfoldable pub count_runnable : List Task → ℕ
count_runnable [] = 0
count_runnable (t ∷ ts) = if is_runnable t.state then count_runnable ts + 1 else count_runnable ts

-- The timer is masked if fewer than two tasks can run, and only then.
pub record IsTimerRight (m : TaskManager) : Type 0 where
  pub timer : m.timer_masked ≡ ltb (count_runnable m.tasks) 2

finds_second-true : (ts : List Task) → finds_second true ts ≡ ltb 0 (count_runnable ts)
unfolding finds_second count_runnable
finds_second-true [] = refl
finds_second-true (t ∷ ts) = ground (arith, finds_second-true ts)

finds_second-false : (ts : List Task) → finds_second false ts ≡ ltb 1 (count_runnable ts)
unfolding finds_second count_runnable
finds_second-false [] = refl
finds_second-false (t ∷ ts) = ground (arith, finds_second-true ts, finds_second-false ts)

-- `doInterruptMasking` sets the timer right, whatever it was, and changes no task.
pub do_interrupt_masking-IsTimerRight : (m : TaskManager) → IsTimerRight (do_interrupt_masking m)
unfolding do_interrupt_masking
do_interrupt_masking-IsTimerRight m = record {
  timer = rw (finds_second-false m.tasks) (ground arith);
}

-- Who can run depends on the keys of the tasks alone.
pub keys-count_runnable :
    (ts ts' : List Task) → map key ts' ≡ map key ts → count_runnable ts' ≡ count_runnable ts
unfolding count_runnable
keys-count_runnable [] [] e = refl
keys-count_runnable [] (t ∷ ts) e = cc
keys-count_runnable (t ∷ ts) [] e = cc
keys-count_runnable (t ∷ ts) (s ∷ ss) e =
    let same : s.state ≡ t.state = ground arith in ground (arith, keys-count_runnable ts ss)

pub insert_task-count_runnable :
    (t : Task) (ts : List Task)
    → is_runnable t.state ≡ false
    → count_runnable (insert_task t ts) ≡ count_runnable ts
unfolding count_runnable insert_task
insert_task-count_runnable t [] r = rw r
insert_task-count_runnable t (s ∷ ss) r = ground (arith, insert_task-count_runnable t ss r)

pub remove_task-count_runnable :
    (k : ℕ) (ts : List Task) (t : Task)
    → get_task k ts ≡ some t
    → is_runnable t.state ≡ false
    → count_runnable (remove_task k ts) ≡ count_runnable ts
unfolding count_runnable remove_task get_task
remove_task-count_runnable k [] t e r = cc
remove_task-count_runnable k (s ∷ ss) t e r = ground (arith, remove_task-count_runnable k ss t)
