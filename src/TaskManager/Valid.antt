-- ===== src/TaskManager/Valid.antt =====
-- TaskManager.cpp: what a task manager is between its operations, and that a task that sleeps, wakes or ends keeps it so.
use flix.Base.{
  ℕ, ◌≡◌, refl, ◌∙◌, sym, ap, not, some, List, [], ◌∷◌, map, arith, ltb, ◌==◌, inl, inr, Bool-cases,
  Option-cases, assert, >>=-eq-some,
}
use mathlib.Core.Option.{some-injective}
use mathlib.Core.Path.{subst}
use flix.TaskManager.{
  runnable, sleeping, zombie, TaskManager, Task, get_task, modify, set_state, do_interrupt_masking,
  prepare_me_for_sleep, wake_up_task,
}
use flix.TaskManager.Next.{Ascending}
use flix.TaskManager.Keys.{key, keys-Ascending}
use flix.TaskManager.Timer.{IsTimerRight, do_interrupt_masking-IsTimerRight, keys-count_runnable}
use flix.TaskManager.Life.{wake_first, notify_one, end_current_task}

-- The tasks stand in the order of their tids, which are 32-bit numbers above 0, and the timer is
-- masked exactly if fewer than two of them can run.
pub record IsValid (m : TaskManager) : Type 0 where
  pub ordered : Ascending 0 m.tasks
  pub timer : IsTimerRight m

-- Changes of a task that keep its tid keep the order.
pub modify-Ascending :
    (lo k : ℕ) (f : Task → Task) (ts : List Task)
    → ((t : Task) → (f t).tid ≡ t.tid)
    → Ascending lo ts
    → Ascending lo (modify k f ts)
unfolding modify
modify-Ascending lo k f [] h a = tt
modify-Ascending lo k f (t ∷ ts) h a = elim (Bool-cases (t.tid == k)) [
  | inl e ↦
      rw e (omega (arith, h t), omega (arith, h t), rw (h t) (modify-Ascending t.tid k f ts h a.2))
  | inr e ↦ rw e (a.0, a.1, modify-Ascending t.tid k f ts h a.2)
]

pub masked-IsValid : (m : TaskManager) → Ascending 0 m.tasks → IsValid (do_interrupt_masking m)
masked-IsValid m a = record {
  ordered = unfold do_interrupt_masking in a;
  timer = do_interrupt_masking-IsTimerRight m;
}

-- A change that keeps the keys and the mask keeps the manager valid.
pub keys-IsValid :
    (m m' : TaskManager)
    → map key m'.tasks ≡ map key m.tasks
    → m'.timer_masked ≡ m.timer_masked
    → IsValid m
    → IsValid m'
keys-IsValid m m' e same v = record {
  ordered = keys-Ascending 0 m.tasks m'.tasks e v.ordered;
  timer = record {
    timer = same ∙ v.timer.timer ∙ ap (λ n. ltb n 2) (sym (keys-count_runnable m.tasks m'.tasks e));
  };
}

pub sleep-IsValid :
    (m m' : TaskManager) → Ascending 0 m.tasks → prepare_me_for_sleep m ≡ some m' → IsValid m'
unfolding prepare_me_for_sleep
sleep-IsValid m m' a e =
    let (t, e₁, r) = >>=-eq-some (get_task m.active_task m.tasks) _ e in
    subst IsValid (some-injective _ _ r)
      (masked-IsValid _ (modify-Ascending 0 t.tid (set_state sleeping) m.tasks (λ s. refl) a))

pub wake-IsValid : (tid : ℕ) (m : TaskManager) → Ascending 0 m.tasks → IsValid (wake_up_task tid m)
unfolding wake_up_task
wake-IsValid tid m a =
    masked-IsValid _ (modify-Ascending 0 tid (set_state runnable) m.tasks (λ s. refl) a)

wake_up_task-Ascending :
    (tid : ℕ) (m : TaskManager) → Ascending 0 m.tasks → Ascending 0 (wake_up_task tid m).tasks
wake_up_task-Ascending tid m a = (wake-IsValid tid m a).ordered

wake_first-Ascending :
    (tid : ℕ) (ws : List ℕ) (m : TaskManager)
    → Ascending 0 m.tasks
    → Ascending 0 (wake_first tid ws m).tasks
unfolding wake_first
wake_first-Ascending tid [] m a = a
wake_first-Ascending tid (w ∷ ws) m a =
    wake_up_task-Ascending w _ (modify-Ascending 0 tid _ m.tasks (λ s. refl) a)

notify_one-Ascending :
    (tid : ℕ) (m : TaskManager) → Ascending 0 m.tasks → Ascending 0 (notify_one tid m).tasks
unfolding notify_one
notify_one-Ascending tid m a = elim (Option-cases (get_task tid m.tasks)) [
  | inl e ↦ rw (e, notify_one) a
  | inr (t, e) ↦ rw (e, notify_one) (wake_first-Ascending tid t.waiters m a)
]

pub end-IsValid :
    (m m' : TaskManager) → Ascending 0 m.tasks → end_current_task m ≡ some m' → IsValid m'
unfolding end_current_task
end-IsValid m m' a e =
    let (t, e₁, r₁) = >>=-eq-some (get_task m.active_task m.tasks) _ e in
    let (done, e₂, r₂) = >>=-eq-some (assert (not (t.tid == 1))) _ r₁ in
    subst IsValid (some-injective _ _ r₂) (
      masked-IsValid _ (
        notify_one-Ascending t.tid _
          (modify-Ascending 0 t.tid (set_state zombie) m.tasks (λ s. refl) a)))
