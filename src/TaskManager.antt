-- ===== src/TaskManager.antt =====
-- source/TaskManager.hpp and TaskManager.cpp: the set of tasks, the choice of the next one, the timer's
-- mask, and how tasks are added, put to sleep, woken, ended and reaped. `std::set<Task>` is the list
-- of its tasks in the order of their tids; a `Task*` is the task's tid, with 0 for `nullptr`; `none`
-- is a failed assertion or a panic. Locks and logging are left out.
pub mod Next
pub mod Fair
pub mod Timer
pub mod Tids
pub mod Tree
pub mod Life
pub mod Keys
pub mod Valid
pub mod Adding
pub mod Waiting
pub mod Step
pub mod Clone
mod Tests
use flix.Base.{
  ℕ, ◌+◌, ◌-◌, ◌*◌, ◌%◌, ◌^◌, Bool, true, false, not, Option, none, some, List, [], ◌∷◌, zero, suc,
  assert, ◌>>=◌, ◌>>◌, ltb, ◌==◌, if◌then◌else◌, ◌&&◌, ◌||◌,
}

pub data State : Type 0 where
  runnable sleeping zombie : State

-- `HierarchyHolder`, without its mutex.
pub record Hierarchy : Type 0 where
  pub parent : ℕ
  pub first_child : ℕ
  pub next_sibling : ℕ
  pub prev_sibling : ℕ

-- The registers of `Task::Context` but for `cs` and `rflags`.
pub record GeneralRegisters : Type 0 where
  pub r15 : ℕ
  pub r14 : ℕ
  pub r13 : ℕ
  pub r12 : ℕ
  pub rbx : ℕ
  pub rbp : ℕ
  pub r11 : ℕ
  pub r10 : ℕ
  pub r9 : ℕ
  pub r8 : ℕ
  pub rax : ℕ
  pub rcx : ℕ
  pub rdx : ℕ
  pub rsi : ℕ
  pub rdi : ℕ
  pub rip : ℕ
  pub rsp : ℕ
  pub ss : ℕ

-- What the constructor `Task task{}` leaves in them.
abbrev pub no_registers : GeneralRegisters
no_registers = record {
  r15 = 0;
  r14 = 0;
  r13 = 0;
  r12 = 0;
  rbx = 0;
  rbp = 0;
  r11 = 0;
  r10 = 0;
  r9 = 0;
  r8 = 0;
  rax = 0;
  rcx = 0;
  rdx = 0;
  rsi = 0;
  rdi = 0;
  rip = 0;
  rsp = 0;
  ss = 0;
}

-- `Task`: its context is `cs`, `rflags` and `general`.
pub record Task : Type 0 where
  pub tid : ℕ
  pub hh : Hierarchy
  pub state : State
  pub waiters : List ℕ
  pub cs : ℕ
  pub rflags : ℕ
  pub general : GeneralRegisters
  pub kernel_stack_top : ℕ

-- `timer_masked` is the bit of IRQ_TIMER in the interrupt controller's mask; `ist1` is the stack
-- that the task state segment names. `waiters` are the tids that wait on the task's `stateCond`.
pub record TaskManager : Type 0 where
  pub tasks : List Task
  pub active_task : ℕ
  pub next_tid : ℕ
  pub timer_masked : Bool
  pub ist1 : ℕ

abbrev pub is_runnable : State → Bool
is_runnable runnable = true
is_runnable _ = false

abbrev pub is_zombie : State → Bool
is_zombie zombie = true
is_zombie _ = false

abbrev pub is_sleeping : State → Bool
is_sleeping sleeping = true
is_sleeping _ = false

-- `_tasks.find(tid)`, as `getTask` returns it.
unfoldable pub get_task : ℕ → List Task → Option Task
get_task tid [] = none
get_task tid (t ∷ ts) = if t.tid == tid then some t else get_task tid ts

-- `_tasks.upper_bound(id)`.
pub upper_bound : ℕ → List Task → Option Task
upper_bound id [] = none
upper_bound id (t ∷ ts) = if ltb id t.tid then some t else upper_bound id ts

-- The loop of `getNext`, with fuel. The inner `none` is `_tasks.end()`.
pub get_next_loop : ℕ → ℕ → Bool → List Task → Option (Option Task)
get_next_loop zero id looped ts = none
get_next_loop (suc fuel) id looped ts = elim (upper_bound id ts) [
  | none ↦ elim looped [ true ↦ some none | false ↦ get_next_loop fuel 0 true ts ]
  | some t ↦ elim (is_runnable t.state) [
    | true ↦ some (some t)
    | false ↦ get_next_loop fuel ((id + 1) % 2 ^ 32) looped ts
  ]
]

-- The fuel covers one pass from the active task on and one from 0.
pub get_next : TaskManager → Option (Option Task)
get_next m = get_next_loop (2 ^ 33 + 2) m.active_task false m.tasks

-- The loop of `doInterruptMasking`: whether a second runnable task is found.
pub finds_second : Bool → List Task → Bool
finds_second found_first [] = false
finds_second found_first (t ∷ ts) =
    let rest = finds_second true ts in
    let skip = finds_second found_first ts in
    if is_runnable t.state then (if found_first then true else rest) else skip

unfoldable pub do_interrupt_masking : TaskManager → TaskManager
unfolding finds_second
do_interrupt_masking m = record m { timer_masked = not (finds_second false m.tasks) }

-- Writing to the task with a given tid.
unfoldable pub modify : ℕ → (Task → Task) → List Task → List Task
modify tid f [] = []
modify tid f (t ∷ ts) = (if t.tid == tid then f t else t) ∷ modify tid f ts

abbrev pub set_state : State → Task → Task
set_state s t = record t { state = s }

unfoldable pub prepare_me_for_sleep : TaskManager → Option TaskManager
prepare_me_for_sleep m = do
  task ← get_task m.active_task m.tasks
  some (do_interrupt_masking (record m { tasks = modify task.tid (set_state sleeping) m.tasks }))

unfoldable pub wake_up_task : ℕ → TaskManager → TaskManager
wake_up_task tid m =
    do_interrupt_masking (record m { tasks = modify tid (set_state runnable) m.tasks })
