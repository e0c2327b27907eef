-- ===== src/Sync/Tests.antt =====
-- Runs of semaphores and condition variables, and the theorems about them at concrete queues.
use flix.Base.{ℕ, ◌≡◌, refl, true, false, some, List, [], ◌∷◌, arith, ◌==◌, if◌then◌else◌}
use flix.TaskManager.{
  no_registers, State, runnable, sleeping, Task, TaskManager, get_task, modify,
  prepare_me_for_sleep, do_interrupt_masking,
}
use flix.Sync.{Waiter, WaitQueue, Semaphore, CondVar, Scene}
use flix.Sync.Queue.{Holds}
use flix.Sync.Permits.{Ledger}

abbrev task : ℕ → State → Task
task tid s = record {
  tid = tid;
  hh = record { parent = 1; first_child = 0; next_sibling = 0; prev_sibling = 0 };
  state = s;
  waiters = [];
  cs = 0x23;
  rflags = 0x200;
  general = no_registers;
  kernel_stack_top = 0x9000;
}

-- Task 2 runs; `s` is the state of task 3.
abbrev two : ℕ → State → State → TaskManager
two active s₂ s₃ = record {
  tasks = task 2 s₂ ∷ task 3 s₃ ∷ [];
  active_task = active;
  next_tid = 4;
  timer_masked = false;
  ist1 = 0;
}

abbrev one_waits : ℕ → Waiter
one_waits q =
    if q == 0x700
    then record { up = false; task = 3; next = 0 }
    else record { up = false; task = 0; next = 0 }

abbrev nothing : WaitQueue
nothing = record { first = 0; last = 0; cell = λ q. record { up = false; task = 0; next = 0 } }

abbrev queued : WaitQueue
queued = record { first = 0x700; last = 0x700; cell = one_waits }

queued-Holds : Holds queued (0x700 ∷ [])
queued-Holds = record { chain = (refl, omega arith, refl); ends = refl; distinct = (tt, tt) }

abbrev mutex : ℕ → WaitQueue → Semaphore
mutex n q = record { count = n; queue = q }

abbrev ledger : ℕ → WaitQueue → TaskManager → List ℕ → ℕ → Ledger
ledger n q m ws h = record { semaphore = mutex n q; tasks = m; waiting = ws; held = h }

abbrev asleep : TaskManager
asleep = record (two 3 runnable sleeping) { timer_masked = true }

sleep_test : prepare_me_for_sleep (two 3 runnable runnable) ≡ some asleep
unfolding prepare_me_for_sleep get_task modify do_interrupt_masking
sleep_test = refl

abbrev free : Ledger
free = ledger 1 nothing (two 2 runnable runnable) [] 0

abbrev contended : Ledger
contended = ledger 0 queued asleep (0x700 ∷ []) 1

abbrev condition : WaitQueue → ℕ → CondVar
condition q n = record { waiters = q; waiter_count = n }

-- Task 3 was woken without a notification; the mutex is free.
abbrev woken : Scene
woken = record {
  cond = condition queued 1;
  mutex = mutex 1 nothing;
  tasks = two 3 runnable runnable;
}
