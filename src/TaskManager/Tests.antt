-- ===== src/TaskManager/Tests.antt =====
-- Runs of the task manager, and the theorems about it at concrete sets of tasks.
use flix.Base.{ℕ, ◌≡◌, refl, true, false, none, some, [], ◌∷◌, arith}
use flix.TaskManager.{
  no_registers, State, runnable, sleeping, zombie, Task, TaskManager, is_runnable, get_task,
  get_next, modify, do_interrupt_masking, wake_up_task,
}
use flix.TaskManager.Next.{cyclic_next, get_next-cyclic_next}
use flix.TaskManager.Fair.{IsChosen, get_next-IsChosen}
use flix.TaskManager.Timer.{count_runnable}
use flix.TaskManager.Tids.{IsFreeTid, update_next_tid-IsFreeTid}
use flix.TaskManager.Life.{
  update_next_tid, end_current_task, wait_for, wait_on, reap, remove_task, reaped, wait,
}
use flix.TaskManager.Tree.{unlink}
use flix.TaskManager.Valid.{IsValid}
use flix.TaskManager.Step.{ends, here, later, Reach-IsValid}

abbrev task : ℕ → ℕ → ℕ → State → Task
task tid parent first_child s = record {
  tid = tid;
  hh = record { parent = parent; first_child = first_child; next_sibling = 0; prev_sibling = 0 };
  state = s;
  waiters = [];
  cs = 0x23;
  rflags = 0x200;
  general = no_registers;
  kernel_stack_top = 0x9000;
}

-- Task 1 has the child 3, which runs; task 1 waits for it.
abbrev parent_waits : TaskManager
parent_waits = record {
  tasks = task 1 0 3 sleeping ∷ record (task 3 1 0 runnable) { waiters = 1 ∷ [] } ∷ [];
  active_task = 3;
  next_tid = 4;
  timer_masked = true;
  ist1 = 0;
}

-- After task 3 has ended.
abbrev child_ended : TaskManager
child_ended = record {
  tasks = task 1 0 3 runnable ∷ task 3 1 0 zombie ∷ [];
  active_task = 0;
  next_tid = 4;
  timer_masked = true;
  ist1 = 0;
}

-- After task 1 runs again and has reaped it.
abbrev child_reaped : TaskManager
child_reaped = record child_ended { tasks = task 1 0 0 runnable ∷ []; active_task = 1 }

end_test : end_current_task parent_waits ≡ some child_ended
unfolding end_current_task get_task modify wake_up_task do_interrupt_masking
end_test = refl

wait_test : wait_for 3 (record child_ended { active_task = 1 }) ≡ some (reaped 3 child_reaped)
unfolding wait_for wait_on reap unlink get_task modify remove_task
wait_test = refl

-- Waiting for task 1, which has no parent, reads through a null pointer.
wait_root_test : wait 1 (record child_ended { active_task = 1 }) ≡ none
unfolding wait wait_on get_task
wait_root_test = refl

parent_waits-IsValid : IsValid parent_waits
unfolding count_runnable
parent_waits-IsValid = record {
  ordered = (omega arith, omega arith, (omega arith, omega arith, tt));
  timer = record { timer = refl };
}

Reach-IsValid_example : IsValid child_ended
Reach-IsValid_example = Reach-IsValid (later here (ends child_ended end_test)) parent_waits-IsValid

-- Tasks 2 and 5 can run, 3 sleeps; 3 was active last.
abbrev three : TaskManager
three = record parent_waits {
  tasks = task 2 1 0 runnable ∷ task 3 1 0 sleeping ∷ task 5 1 0 runnable ∷ [];
}

get_next-cyclic_next_example : get_next three ≡ some (cyclic_next 3 three.tasks)
get_next-cyclic_next_example =
    get_next-cyclic_next three 0
      (omega arith, omega arith, (omega arith, omega arith, (omega arith, omega arith, tt)))
      (omega arith)

get_next-IsChosen_example :
    (t : Task) × (get_next three ≡ some (some t)) × IsChosen 3 three.tasks (task 2 1 0 runnable) t
get_next-IsChosen_example =
    get_next-IsChosen three 2 (task 2 1 0 runnable)
      (omega arith, omega arith, (omega arith, omega arith, (omega arith, omega arith, tt)))
      (omega arith) (unfold get_task in refl) refl

abbrev asleep : TaskManager
asleep = record parent_waits { tasks = task 2 1 0 sleeping ∷ [] }

asleep_idle : (k : ℕ) (r : Task) → get_task k asleep.tasks ≡ some r → is_runnable r.state ≡ false
unfolding get_task
asleep_idle k r e = ground arith

update_next_tid-IsFreeTid_example :
    (t : ℕ) × (update_next_tid 4 2 three.tasks ≡ some t) × IsFreeTid 2 three.tasks t
update_next_tid-IsFreeTid_example = update_next_tid-IsFreeTid 2 three.tasks (omega arith)
