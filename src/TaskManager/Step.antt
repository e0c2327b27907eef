-- ===== src/TaskManager/Step.antt =====
-- TaskManager.cpp: every operation keeps the set ordered and the timer right.
use flix.Base.{
  ℕ, ◌+◌, ◌^◌, ◌<◌, ◌≡◌, refl, ap, not, Option, none, some, length, assert, >>=-eq-some,
}
use mathlib.Core.Option.{some-injective}
use mathlib.Core.Path.{subst}
use flix.TaskManager.{TaskManager, Task, get_next, prepare_me_for_sleep, wake_up_task}
use flix.TaskManager.Life.{
  add_task, end_current_task, reaped, blocked, wait_for, may_resume, all_zombie, Switch,
  schedule_next, switch_to,
}
use flix.TaskManager.Valid.{IsValid, keys-IsValid, sleep-IsValid, wake-IsValid, end-IsValid}
use flix.TaskManager.Adding.{add-IsValid}
use flix.TaskManager.Waiting.{wait_for-Keeps}

-- One operation of the manager. A task can be added while there are tids left.
pub data Step (m : TaskManager) : TaskManager → Type 0 where
  adds :
      (t : Task) (tid : ℕ) (m' : TaskManager)
      → 0 < m.next_tid
      → m.next_tid + length m.tasks < 2 ^ 32
      → add_task t m ≡ some (tid, m')
      → Step m m'
  sleeps : (m' : TaskManager) → prepare_me_for_sleep m ≡ some m' → Step m m'
  wakes : (tid : ℕ) → Step m (wake_up_task tid m)
  ends : (m' : TaskManager) → end_current_task m ≡ some m' → Step m m'
  waits : (tid : ℕ) (m' : TaskManager) → wait_for tid m ≡ some (blocked tid m') → Step m m'
  reaps : (tid : ℕ) (m' : TaskManager) → wait_for tid m ≡ some (reaped tid m') → Step m m'
  switches :
      (base : ℕ) (m' : TaskManager) (s : Switch) → schedule_next base m ≡ some (m', s) → Step m m'

switch_to-IsValid :
    (base : ℕ) (next : Option Task) (m m' : TaskManager) (s : Switch)
    → IsValid m
    → switch_to base next m ≡ some (m', s)
    → IsValid m'
unfolding switch_to
switch_to-IsValid base none m m' s v e =
    subst IsValid (ap (λ r. r.0) (some-injective _ _ e)) (keys-IsValid m _ refl refl v)
switch_to-IsValid base (some t) m m' s v e =
    let (done, e₁, r₁) = >>=-eq-some (assert (may_resume t)) _ e in
    subst IsValid (ap (λ r. r.0) (some-injective _ _ r₁)) (keys-IsValid m _ refl refl v)

schedule-IsValid :
    (base : ℕ) (m m' : TaskManager) (s : Switch)
    → IsValid m
    → schedule_next base m ≡ some (m', s)
    → IsValid m'
unfolding schedule_next
schedule-IsValid base m m' s v e =
    let (done, e₁, r₁) = >>=-eq-some (assert (not (all_zombie m.tasks))) _ e in
    let (next, e₂, r₂) = >>=-eq-some (get_next m) _ r₁ in switch_to-IsValid base next m m' s v r₂

pub Step-IsValid : {m m' : TaskManager} → Step m m' → IsValid m → IsValid m'
Step-IsValid {m} (adds t tid m' pos room e) v = add-IsValid t tid m m' v pos room e
Step-IsValid {m} (sleeps m' e) v = sleep-IsValid m m' v.ordered e
Step-IsValid {m} (wakes tid) v = wake-IsValid tid m v.ordered
Step-IsValid {m} (ends m' e) v = end-IsValid m m' v.ordered e
Step-IsValid {m} (waits tid m' e) v = wait_for-Keeps tid m (blocked tid m') v e
Step-IsValid {m} (reaps tid m' e) v = wait_for-Keeps tid m (reaped tid m') v e
Step-IsValid {m} (switches base m' s e) v = schedule-IsValid base m m' s v e

-- Runs of any length.
pub data Reach (m : TaskManager) : TaskManager → Type 0 where
  here : Reach m m
  later : {n k : TaskManager} → Reach m n → Step n k → Reach m k

-- In a run of any operations of the task manager, in any order, the tasks stay in the order of their
-- tids, which are distinct and above 0, and the timer is masked exactly if fewer than two tasks can
-- run. Tasks are added only while _nextTid has not come around.
pub Reach-IsValid : {m m' : TaskManager} → Reach m m' → IsValid m → IsValid m'
Reach-IsValid here v = v
Reach-IsValid (later r st) v = Step-IsValid st (Reach-IsValid r v)
