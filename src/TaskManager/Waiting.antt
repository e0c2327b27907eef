-- ===== src/TaskManager/Waiting.antt =====
-- TaskManager.cpp: `wait` keeps the set ordered and the timer right.
use flix.Base.{
  ℕ, ◌≡◌, refl, ◌∙◌, sym, ap, true, false, some, [], ◌∷◌, ◌++◌, arith, ltb, ◌==◌, inl, inr,
  Bool-cases, Option-cases, ◌>>=◌, >>=-eq-some,
}
use mathlib.Core.Option.{some-injective}
use mathlib.Core.Path.{subst}
use flix.TaskManager.{
  TaskManager, Task, is_runnable, is_zombie, get_task, modify, prepare_me_for_sleep,
}
use flix.TaskManager.Keys.{unlink-keys, keys-Ascending}
use flix.TaskManager.Timer.{keys-count_runnable, remove_task-count_runnable}
use flix.TaskManager.Tids.{remove_task-Ascending}
use flix.TaskManager.Tree.{unlink}
use flix.TaskManager.Life.{remove_task, reap, Wait, refused, reaped, blocked, wait_on, wait_for}
use flix.TaskManager.Valid.{IsValid, modify-Ascending, sleep-IsValid}

-- Only a zombie is reaped, so that as many tasks can run as before.
reap-IsValid :
    (tid : ℕ) (t : Task) (m m' : TaskManager)
    → IsValid m
    → get_task tid m.tasks ≡ some t
    → is_zombie t.state ≡ true
    → reap tid m ≡ some m'
    → IsValid m'
unfolding reap
reap-IsValid tid t m m' v found ended e =
    let (s, e₁, r₁) = >>=-eq-some (get_task tid m.tasks) _ e in
    let (ts, e₂, r₂) = >>=-eq-some (unlink s (remove_task tid m.tasks)) _ r₁ in
    let idle : is_runnable t.state ≡ false = ground arith in
    let keys = unlink-keys s (remove_task tid m.tasks) ts e₂ in
    subst IsValid (some-injective _ _ r₂) (record {
      ordered =
          keys-Ascending 0 (remove_task tid m.tasks) ts keys
            (remove_task-Ascending 0 tid m.tasks v.ordered);
      timer = record {
        timer =
            v.timer.timer
            ∙ ap (λ n. ltb n 2)
                (sym (
                  keys-count_runnable (remove_task tid m.tasks) ts keys
                  ∙ remove_task-count_runnable tid m.tasks t found idle));
      };
    })

-- What `wait` leaves is valid, whichever way it goes.
abbrev pub Keeps : Wait → Type 0
Keeps refused = Unit
Keeps (reaped tid m) = IsValid m
Keeps (blocked tid m) = IsValid m

blocks-Keeps :
    (tid : ℕ) (m : TaskManager) (w : Wait)
    → IsValid m
    → (prepare_me_for_sleep (record m {
      tasks = modify tid (λ s. record s { waiters = s.waiters ++ m.active_task ∷ [] }) m.tasks;
    })
        >>= (λ m₁. some (blocked tid m₁)))
      ≡ some w
    → Keeps w
blocks-Keeps tid m w v e =
    let (m₁, e₁, r₁) = >>=-eq-some (prepare_me_for_sleep _) _ e in
    subst Keeps (some-injective _ _ r₁)
      (sleep-IsValid _ m₁ (modify-Ascending 0 tid _ m.tasks (λ s. refl) v.ordered) e₁)

reaps-Keeps :
    (tid : ℕ) (t : Task) (m : TaskManager) (w : Wait)
    → IsValid m
    → get_task tid m.tasks ≡ some t
    → is_zombie t.state ≡ true
    → (reap tid m >>= (λ m₁. some (reaped tid m₁))) ≡ some w
    → Keeps w
reaps-Keeps tid t m w v found z e =
    let (m₁, e₁, r₁) = >>=-eq-some (reap tid m) _ e in
    subst Keeps (some-injective _ _ r₁) (reap-IsValid tid t m m₁ v found z e₁)

wait_on-Keeps :
    (tid : ℕ) (t : Task) (m : TaskManager) (w : Wait)
    → IsValid m
    → get_task tid m.tasks ≡ some t
    → wait_on tid t m ≡ some w
    → Keeps w
unfolding wait_on
wait_on-Keeps tid t m w v found e = elim (Bool-cases (t.hh.parent == 0)) [
  | inl orphan ↦ let bad = rw orphan at e in cc
  | inr child ↦ elim (Bool-cases (t.hh.parent == m.active_task)) [
    | inr other ↦ subst Keeps (some-injective _ _ (rw (child, other) at e)) tt
    | inl mine ↦ elim (Bool-cases (is_zombie t.state)) [
      | inl z ↦ reaps-Keeps tid t m w v found z (rw (child, mine, z) at e)
      | inr z ↦ blocks-Keeps tid m w v (rw (child, mine, z) at e)
    ]
  ]
]

pub wait_for-Keeps :
    (tid : ℕ) (m : TaskManager) (w : Wait) → IsValid m → wait_for tid m ≡ some w → Keeps w
unfolding wait_for
wait_for-Keeps tid m w v e = elim (Option-cases (get_task tid m.tasks)) [
  | inl missing ↦ subst Keeps (some-injective _ _ (rw (missing, wait_for) at e)) tt
  | inr (t, found) ↦ wait_on-Keeps tid t m w v found (rw (found, wait_for) at e)
]
