-- ===== src/TaskManager/Adding.antt =====
-- TaskManager.cpp: `addTask` keeps the set ordered and the timer right.
use flix.Base.{
  ℕ, ◌+◌, ◌^◌, ◌<◌, ◌≡◌, refl, ◌∙◌, sym, ap, some, map, arith, ltb, ◌==◌, if◌then◌else◌, inl, inr,
  Bool-cases, length, >>=-eq-some,
}
use mathlib.Core.Option.{some-injective}
use mathlib.Core.Path.{subst}
use flix.TaskManager.{TaskManager, Task, is_runnable, get_task, modify, do_interrupt_masking}
use flix.TaskManager.Keys.{key, modify-keys, add_child-keys, keys-Ascending}
use flix.TaskManager.Timer.{keys-count_runnable, insert_task-count_runnable}
use flix.TaskManager.Tids.{update_next_tid-IsFreeTid, IsFreeTid, insert_task-Ascending}
use flix.TaskManager.Tree.{add_child, set_parent}
use flix.TaskManager.Life.{u32, moved, adopt, add_task, update_next_tid, insert_task}
use flix.TaskManager.Valid.{IsValid, masked-IsValid}

adopt-keys :
    (tid : ℕ) (t : Task) (m m' : TaskManager)
    → adopt tid t m ≡ some m'
    → (map key m'.tasks ≡ map key m.tasks) × (m'.timer_masked ≡ m.timer_masked)
unfolding adopt
adopt-keys tid t m m' e = elim (Bool-cases (t.hh.parent == 0)) [
  | inl z ↦
      let (active, e₁, r₁) = >>=-eq-some (get_task m.active_task m.tasks) _ (rw z at e) in
      let (ts, e₂, r₂) =
        >>=-eq-some (add_child active.tid tid (modify tid (set_parent active.tid) m.tasks)) _ r₁ in
      let same = some-injective _ _ r₂ in
      (
        ap (λ n. map key n.tasks) (sym same)
            ∙ add_child-keys active.tid tid _ ts e₂
            ∙ modify-keys tid (set_parent active.tid) m.tasks (λ s. refl),
        ap (λ n. n.timer_masked) (sym same),
      )
  | inr z ↦
      let (ts, e₁, r₁) = >>=-eq-some (add_child t.hh.parent tid m.tasks) _ (rw z at e) in
      let same = some-injective _ _ r₁ in
      (
        ap (λ n. map key n.tasks) (sym same) ∙ add_child-keys t.hh.parent tid _ ts e₁,
        ap (λ n. n.timer_masked) (sym same),
      )
]

-- The test behind which `addTask` links the task into the tree.
linked-keys :
    (tid : ℕ) (t : Task) (m m' : TaskManager)
    → (if ltb 1 tid then adopt tid t m else some m) ≡ some m'
    → (map key m'.tasks ≡ map key m.tasks) × (m'.timer_masked ≡ m.timer_masked)
linked-keys tid t m m' e = elim (Bool-cases (ltb 1 tid)) [
  | inl z ↦ adopt-keys tid t m m' (rw z at e)
  | inr z ↦
      let same = some-injective _ _ (rw z at e) in
      (ap (λ n. map key n.tasks) (sym same), ap (λ n. n.timer_masked) (sym same))
]

abbrev added : ℕ → Task → TaskManager → TaskManager
added tid t m = record m { next_tid = u32 (tid + 1); tasks = insert_task (moved tid t) m.tasks }

remasked-IsValid :
    (tid : ℕ) (t : Task) (m m₁ : TaskManager)
    → IsValid m
    → 0 < tid
    → IsFreeTid m.next_tid m.tasks tid
    → (map key m₁.tasks ≡ map key (added tid t m).tasks) × (m₁.timer_masked ≡ m.timer_masked)
    → IsValid (if is_runnable t.state then do_interrupt_masking m₁ else m₁)
remasked-IsValid tid t m m₁ v pos f same =
    let whole = insert_task-Ascending 0 (moved tid t) m.tasks v.ordered pos f.small f.free in
    let ordered = keys-Ascending 0 (added tid t m).tasks m₁.tasks same.0 whole in
    elim (Bool-cases (is_runnable t.state)) [
      | inl r ↦ rw r (masked-IsValid m₁ ordered)
      | inr r ↦ rw r (record {
        ordered = ordered;
        timer = record {
          timer =
              same.1
              ∙ v.timer.timer
              ∙ ap (λ n. ltb n 2)
                  (sym (
                    keys-count_runnable (added tid t m).tasks m₁.tasks same.0
                    ∙ insert_task-count_runnable (moved tid t) m.tasks r));
        };
      })
    ]

pub add-IsValid :
    (t : Task) (tid : ℕ) (m m' : TaskManager)
    → IsValid m
    → 0 < m.next_tid
    → m.next_tid + length m.tasks < 2 ^ 32
    → add_task t m ≡ some (tid, m')
    → IsValid m'
unfolding add_task
add-IsValid t tid m m' v pos room e =
    let (k, e₁, r₁) = >>=-eq-some (update_next_tid (length m.tasks + 1) m.next_tid m.tasks) _ e in
    let (m₁, e₂, r₂) =
      >>=-eq-some (if ltb 1 k then adopt k t (added k t m) else some (added k t m)) _ r₁ in
    let (k', ran, free) = update_next_tid-IsFreeTid m.next_tid m.tasks room in
    let f = subst (IsFreeTid m.next_tid m.tasks) (some-injective _ _ (sym ran ∙ e₁)) free in
    subst IsValid (ap (λ r. r.1) (some-injective _ _ r₂))
      (remasked-IsValid k t m m₁ v (omega (arith, f.from)) f (linked-keys k t (added k t m) m₁ e₂))
