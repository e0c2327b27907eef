-- ===== src/Sync.antt =====
-- source/Semaphore.cpp, Mutex.hpp and CondVar.cpp. Waiters lie on the stacks of the tasks that wait
-- and are linked into a list; a `Waiter*` is a number, 0 is `nullptr`. Each function runs with the
-- object's spin lock held, that is with interrupts off, and so is one step.
pub mod Queue
pub mod Permits
pub mod Broadcast
pub mod Spurious
mod Tests
use flix.Base.{
  ℕ, ◌+◌, ◌-◌, ◌%◌, ◌^◌, Bool, true, false, not, Option, none, some, List, [], ◌∷◌, zero, suc,
  assert, ◌>>=◌, ◌>>◌, ltb, ◌==◌, if◌then◌else◌,
}
use flix.TaskManager
use flix.TaskManager.{TaskManager}

-- `Semaphore::Waiter` and `CondVar::Waiter`.
pub record Waiter : Type 0 where
  pub up : Bool
  pub task : ℕ
  pub next : ℕ

-- `_firstWaiter` and `_lastWaiter`, with the memory that they point into.
pub record WaitQueue : Type 0 where
  pub first : ℕ
  pub last : ℕ
  pub cell : ℕ → Waiter

abbrev pub store : (ℕ → Waiter) → ℕ → Waiter → ℕ → Waiter
store f a w q = if q == a then w else f q

-- A new waiter at `a` goes to the end.
unfoldable pub push_waiter : ℕ → ℕ → WaitQueue → Option WaitQueue
push_waiter a task q =
    let fresh = store q.cell a (record { up = false; task = task; next = 0 }) in
    if q.last == 0
    then (do assert (q.first == 0); some (record { first = a; last = a; cell = fresh }))
    else some
        (record q { last = a; cell = store fresh q.last (record (fresh q.last) { next = a }) })

-- The first waiter is taken out, if there is one.
unfoldable pub pop_waiter : WaitQueue → WaitQueue
pop_waiter q = record q {
  first = (q.cell q.first).next;
  last = if q.first == q.last then 0 else q.last;
}

abbrev pub set_up : ℕ → WaitQueue → WaitQueue
set_up a q = record q { cell = store q.cell a (record (q.cell a) { up = true }) }

pub record Semaphore : Type 0 where
  pub count : ℕ
  pub queue : WaitQueue

-- Whether a call returns at once or leaves its task asleep.
pub data Entry : Type 0 where
  passes : Semaphore → TaskManager → Entry
  sleeps : Semaphore → TaskManager → Entry

-- `down`, up to the point where the task sleeps; `a` is where its waiter lies.
unfoldable pub down : ℕ → Semaphore → TaskManager → Option Entry
down a s m = if not (s.count == 0) then some (passes (record s { count = s.count - 1 }) m) else (do
  q ← push_waiter a m.active_task s.queue
  m₁ ← TaskManager.prepare_me_for_sleep m
  some (sleeps (record s { queue = q }) m₁))

-- The head of the loop of `down`, when the task runs again.
unfoldable pub down_again : ℕ → Semaphore → TaskManager → Option Entry
down_again a s m =
    if (s.queue.cell a).up
    then some (passes s m)
    else (do m₁ ← TaskManager.prepare_me_for_sleep m; some (sleeps s m₁))

unfoldable pub up : Semaphore → TaskManager → Option (Semaphore × TaskManager)
up s m =
    if s.queue.first == 0
    then (do assert (s.queue.last == 0); some (record s { count = (s.count + 1) % 2 ^ 32 }, m))
    else (do
      assert (not (s.queue.last == 0))
      let w = s.queue.first
      some (
        record s { queue = set_up w (pop_waiter s.queue) },
        TaskManager.wake_up_task (s.queue.cell w).task m,
      ))

pub record CondVar : Type 0 where
  pub waiters : WaitQueue
  pub waiter_count : ℕ

-- A condition variable with the mutex that is waited with, and the task manager.
pub record Scene : Type 0 where
  pub cond : CondVar
  pub mutex : Semaphore
  pub tasks : TaskManager

-- The head of the loop of `CondVar::wait`, up to the point where the task sleeps.
unfoldable pub sleep_round : Scene → Option Scene
sleep_round c = do
  m₁ ← TaskManager.prepare_me_for_sleep c.tasks
  (s, m₂) ← up c.mutex m₁
  some (record c { mutex = s; tasks = m₂ })

-- `CondVar::wait`, up to the point where the task sleeps.
unfoldable pub wait : ℕ → Scene → Option Scene
wait a c = do
  q ← push_waiter a c.tasks.active_task c.cond.waiters
  sleep_round (record c {
    cond = record { waiters = q; waiter_count = (c.cond.waiter_count + 1) % 2 ^ 32 };
  })

-- The loop's test, when the task runs again: `true` means that the condition was triggered, and the
-- mutex is to be locked again.
unfoldable pub wait_again : ℕ → Scene → Option (Scene × Bool)
wait_again a c =
    if (c.cond.waiters.cell a).up then some (c, true) else (do c₁ ← sleep_round c; some (c₁, false))

unfoldable pub notify_one : CondVar → TaskManager → Option (CondVar × TaskManager)
notify_one c m =
    if c.waiters.first == 0
    then (do assert (c.waiters.last == 0); some (c, m))
    else (let w = c.waiters.first in
        some (
          record {
            waiters = set_up w (pop_waiter c.waiters);
            waiter_count = (c.waiter_count + 2 ^ 32 - 1) % 2 ^ 32;
          },
          TaskManager.wake_up_task (c.waiters.cell w).task m,
        ))

-- The first loop of `notify_all`, with fuel: the waiters from `a` on.
unfoldable pub collect : ℕ → ℕ → (ℕ → Waiter) → Option (List ℕ)
collect zero a cell = none
collect (suc fuel) a cell =
    let rest = collect fuel (cell a).next cell in
    if a == 0 then some [] else (rest >>= (λ ws. some (a ∷ ws)))

-- The second loop.
unfoldable pub wake_all : List ℕ → WaitQueue → TaskManager → WaitQueue × TaskManager
wake_all [] q m = (q, m)
wake_all (w ∷ ws) q m = wake_all ws (set_up w q) (TaskManager.wake_up_task (q.cell w).task m)

unfoldable pub notify_all : ℕ → CondVar → TaskManager → Option (CondVar × TaskManager)
notify_all fuel c m = do
  ws ← collect fuel c.waiters.first c.waiters.cell
  let (q, m₁) = wake_all ws (record (c.waiters) { first = 0; last = 0 }) m
  some (record { waiters = q; waiter_count = 0 }, m₁)
