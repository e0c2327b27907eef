-- ===== src/TaskManager/Life.antt =====
-- TaskManager.cpp: adding, scheduling, ending and reaping tasks.
use flix.Base.{
  ℕ, ◌+◌, ◌/◌, ◌%◌, ◌^◌, Bool, true, false, not, Option, none, some, List, [], ◌∷◌, ◌++◌, zero, suc,
  assert, ◌>>=◌, ◌>>◌, ltb, ◌==◌, if◌then◌else◌, ◌&&◌, ◌||◌, length,
}
use flix.TaskManager.{
  zombie, Task, TaskManager, is_zombie, is_runnable, get_task, get_next, modify, set_state,
  do_interrupt_masking, prepare_me_for_sleep, wake_up_task,
}
use flix.TaskManager.Tree.{add_child, set_parent, unlink}

abbrev pub u32 : ℕ → ℕ
u32 n = n % 2 ^ 32

abbrev pub is_some : Option Task → Bool
is_some none = false
is_some (some t) = true

-- The loop of `updateNextTid`, with fuel; `none` is fuel that ran out.
unfoldable pub update_next_tid : ℕ → ℕ → List Task → Option ℕ
update_next_tid zero tid ts = none
update_next_tid (suc fuel) tid ts =
    let rest = update_next_tid fuel (u32 (tid + 1)) ts in
    if is_some (get_task tid ts) then rest else some tid

-- `_tasks.insert(t)`, for a tid that is not in the set.
unfoldable pub insert_task : Task → List Task → List Task
insert_task t [] = t ∷ []
insert_task t (s ∷ ss) = if ltb t.tid s.tid then t ∷ s ∷ ss else s ∷ insert_task t ss

-- The parent's side of `addTask`.
unfoldable pub adopt : ℕ → Task → TaskManager → Option TaskManager
adopt tid t m =
    if t.hh.parent == 0
    then (do
      active ← get_task m.active_task m.tasks
      ts ← add_child active.tid tid (modify tid (set_parent active.tid) m.tasks)
      some (record m { tasks = ts }))
    else (do ts ← add_child t.hh.parent tid m.tasks; some (record m { tasks = ts }))

-- The task that the move constructors make: the previous sibling and the waiters are not moved.
abbrev pub moved : ℕ → Task → Task
moved tid t = record t { tid = tid; hh = record (t.hh) { prev_sibling = 0 }; waiters = [] }

-- `addTask`, whose last assertion reads a parent that was moved out and cannot fail: the new task's tid, and the manager.
unfoldable pub add_task : Task → TaskManager → Option (ℕ × TaskManager)
add_task t m = do
  tid ← update_next_tid (length m.tasks + 1) m.next_tid m.tasks
  let added = record m { next_tid = u32 (tid + 1); tasks = insert_task (moved tid t) m.tasks }
  m₁ ← if ltb 1 tid then adopt tid t added else some added
  some (tid, if is_runnable t.state then do_interrupt_masking m₁ else m₁)

-- Where a switch ends: in a task, or in the kernel's sleep.
pub data Switch : Type 0 where
  jumps : ℕ → Switch
  halts : Switch

abbrev pub all_zombie : List Task → Bool
all_zombie [] = true
all_zombie (t ∷ ts) = is_zombie t.state && all_zombie ts

-- The kernel may not be switched off in a user task: `cs == SYSTEM_CS || (rflags & (1 << 9))`.
abbrev pub may_resume : Task → Bool
may_resume t = t.cs == 8 || t.rflags / 2 ^ 9 % 2 == 1

-- `scheduleNext`, with `tryScheduleNext`, `enterSleep` and the two uses of `setKernelStack`;
-- `stack_base` is the kernel's own stack. The use of the task's directory is `enter`, in Interrupt/Dispatch.antt.
unfoldable pub switch_to : ℕ → Option Task → TaskManager → Option (TaskManager × Switch)
switch_to stack_base none m = some (record m { active_task = 0; ist1 = stack_base }, halts)
switch_to stack_base (some t) m = do
  assert (may_resume t)
  some (record m { active_task = t.tid; ist1 = t.kernel_stack_top }, jumps t.tid)

unfoldable pub schedule_next : ℕ → TaskManager → Option (TaskManager × Switch)
unfolding switch_to
schedule_next stack_base m = do
  assert (not (all_zombie m.tasks))
  next ← get_next m
  switch_to stack_base next m

-- `notify_one` on a task's `stateCond`: the first of its waiters is taken out and woken.
unfoldable pub wake_first : ℕ → List ℕ → TaskManager → TaskManager
wake_first tid [] m = m
wake_first tid (w ∷ ws) m =
    wake_up_task w (record m { tasks = modify tid (λ s. record s { waiters = ws }) m.tasks })

unfoldable pub notify_one : ℕ → TaskManager → TaskManager
unfolding wake_first
notify_one tid m = elim (get_task tid m.tasks) [ none ↦ m | some t ↦ wake_first tid t.waiters m ]

-- `terminateCurrentTask`, up to the switch.
unfoldable pub end_current_task : TaskManager → Option TaskManager
unfolding notify_one
end_current_task m = do
  t ← get_task m.active_task m.tasks
  assert (not (t.tid == 1))
  let ended = record m { active_task = 0; tasks = modify t.tid (set_state zombie) m.tasks }
  some (do_interrupt_masking (notify_one t.tid ended))

unfoldable pub terminate_current_task : ℕ → TaskManager → Option (TaskManager × Switch)
terminate_current_task stack_base m = do m₁ ← end_current_task m; schedule_next stack_base m₁

-- `_tasks.erase(iter)`, with the destructor of the task's place in the tree.
unfoldable pub remove_task : ℕ → List Task → List Task
remove_task tid [] = []
remove_task tid (t ∷ ts) = if t.tid == tid then ts else t ∷ remove_task tid ts

-- The end of `wait`, once the child is a zombie.
unfoldable pub reap : ℕ → TaskManager → Option TaskManager
reap tid m = do
  t ← get_task tid m.tasks
  ts ← unlink t (remove_task tid m.tasks)
  some (record m { tasks = ts })

-- How `wait` goes on: it returns -1, it has reaped the child, or it sleeps until the child ends
-- and then reaps it.
pub data Wait : Type 0 where
  refused : Wait
  reaped : ℕ → TaskManager → Wait
  blocked : ℕ → TaskManager → Wait

-- `wait` on the task `tid`, from the check of its parent on. A task with no parent is a null pointer
-- that is read.
unfoldable pub wait_on : ℕ → Task → TaskManager → Option Wait
wait_on tid t m =
    if t.hh.parent == 0
    then none
    else if not (t.hh.parent == m.active_task)
    then some refused
    else if is_zombie t.state
    then (do m₁ ← reap tid m; some (reaped tid m₁))
    else (do
      m₁ ← prepare_me_for_sleep (record m {
        tasks = modify tid (λ s. record s { waiters = s.waiters ++ m.active_task ∷ [] }) m.tasks;
      })
      some (blocked tid m₁))

unfoldable pub wait_for : ℕ → TaskManager → Option Wait
wait_for tid m = elim (get_task tid m.tasks) [ none ↦ some refused | some t ↦ wait_on tid t m ]

-- `wait`: -1 stands for the first child.
unfoldable pub wait : ℕ → TaskManager → Option Wait
unfolding wait_for
wait tid m =
    if tid == 0xffffffff
    then (do
      self ← get_task m.active_task m.tasks
      if self.hh.first_child == 0 then some refused else wait_for self.hh.first_child m)
    else wait_for tid m
