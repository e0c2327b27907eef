-- ===== src/Interrupt/Dispatch.antt =====
-- source/Interrupt.cpp, `Interrupt::handle`: what each interrupt does to the kernel. The printing of the stack is left
-- out.
use flix.Base.{
  ℕ, ◌/◌, ◌%◌, ◌^◌, Bool, not, Option, none, some, assert, ◌>>=◌, ◌>>◌, ltb, leb, ◌==◌,
  if◌then◌else◌, ◌||◌, ◌&&◌, assign,
}
use flix.Paging.Directory.{Directory, Machine, handle_fault, use_directory}
use flix.Syscall.{InterruptState, Handler, system_cs}
use flix.Syscall
use flix.TaskManager.{Task, TaskManager, get_task, modify}
use flix.TaskManager.Life.{Switch, jumps, halts, may_resume, schedule_next, terminate_current_task}
use flix.Tty.{Console, handle_interrupt}
use flix.Interrupt.{Ports, pic1_cmd, pic2_cmd}

-- The rest of the registers that the processor and interrupt.asm push.
pub record Frame : Type 0 where
  pub int_no : ℕ
  pub err_code : ℕ
  pub registers : InterruptState

-- What the kernel consists of when an interrupt comes: `current` is the directory in use, which belongs to the task
-- `in_use`, and `directories` are those of the other tasks. `stack` is the address of a variable on the stack.
pub record Kernel (P S : Type 0) : Type 0 where
  pub controllers : P
  pub current : Directory
  pub in_use : ℕ
  pub directories : ℕ → Directory
  pub stack : ℕ
  pub machine : Machine S
  pub tm : TaskManager
  pub console : Console

-- The handler returns to where the interrupt came from, or never.
pub data Outcome : Type 0 where
  returns : Frame → Outcome
  switches : Switch → Outcome

-- `toTaskContext`, as the context of a task.
abbrev pub to_task_context : InterruptState → Task → Task
to_task_context st t = record t {
  cs = st.cs;
  rflags = st.rflags;
  general = record {
    r15 = st.r15;
    r14 = st.r14;
    r13 = st.r13;
    r12 = st.r12;
    rbx = st.rbx;
    rbp = st.rbp;
    r11 = st.r11;
    r10 = st.r10;
    r9 = st.r9;
    r8 = st.r8;
    rax = st.rax;
    rcx = st.rcx;
    rdx = st.rdx;
    rsi = st.rsi;
    rdi = st.rdi;
    rip = st.rip;
    rsp = st.rsp;
    ss = st.ss;
  };
}

-- `saveCurrentTask`
unfoldable pub save_current_task : InterruptState → TaskManager → Option TaskManager
save_current_task st m = do
  t ← get_task m.active_task m.tasks
  assert (may_resume (to_task_context st t))
  some (record m { tasks = modify t.tid (to_task_context st) m.tasks })

abbrev pub is_task_active : TaskManager → Bool
is_task_active m = not (m.active_task == 0)

module _ (ports : Ports) where
  -- The acknowledgement.
  unfoldable pub acknowledge : ℕ → ports.State → ports.State
  acknowledge int_no s =
      if leb int_no 47
      then ports.outb pic1_cmd 0x20 (if leb 40 int_no then ports.outb pic2_cmd 0x20 s else s)
      else s

module _ (ports : Ports) {S : Type 0} where
  -- The directory of a task.
  abbrev pub directory_of : ℕ → Kernel ports.State S → Directory
  directory_of tid k = assign k.directories k.in_use k.current tid

  -- `pageDirectory.use()` of the task that the processor goes to.
  unfoldable pub enter : Switch → Kernel ports.State S → Option (Kernel ports.State S × Outcome)
  enter (jumps tid) k = do
    m ← use_directory k.stack k.current (directory_of tid k) k.machine
    some (
      record k {
        current = directory_of tid k;
        in_use = tid;
        directories = assign k.directories k.in_use k.current;
        machine = m;
      },
      switches (jumps tid),
    )
  enter halts k = some (k, switches halts)

  -- A switch: `stack_base` is the kernel's own stack.
  abbrev pub switch_away : ℕ → Kernel ports.State S → Option (Kernel ports.State S × Outcome)
  switch_away stack_base k = do
    (m, to) ← schedule_next stack_base k.tm
    enter to (record k { tm = m })

  abbrev pub end_task : ℕ → Kernel ports.State S → Option (Kernel ports.State S × Outcome)
  end_task stack_base k = do
    (m, to) ← terminate_current_task stack_base k.tm
    enter to (record k { tm = m })

  -- The end of `handle`.
  abbrev pub leave : ℕ → Frame → Kernel ports.State S → Option (Kernel ports.State S × Outcome)
  leave stack_base s k =
      if is_task_active k.tm then some (k, returns s) else switch_away stack_base k

  -- A fault of the processor; `address` is the register `cr2`.
  unfoldable pub handle_exception :
      ℕ → ℕ → Frame → Kernel ports.State S → Option (Kernel ports.State S × Outcome)
  handle_exception stack_base address s k =
      if s.int_no == 14 && s.err_code % 2 == 0
      then (do
        (handled, d, m) ← handle_fault address k.current k.machine
        let after = record k { current = d; machine = m }
        if handled then some (after, returns s) else end_task stack_base after)
      else end_task stack_base k

  -- An interrupt of a device; `code` is what the keyboard's port gives.
  unfoldable pub handle_device :
      ℕ → ℕ → Frame → Kernel ports.State S → Option (Kernel ports.State S × Outcome)
  handle_device stack_base code s k =
      if s.int_no == 32
      then (do
        m ← if is_task_active k.tm then save_current_task s.registers k.tm else some k.tm
        switch_away stack_base (record k { tm = m }))
      else if s.int_no == 33
      then (do o ← handle_interrupt code k.console; leave stack_base s (record k { console = o }))
      else if s.int_no == 39
      then leave stack_base s k
      else none

  unfoldable pub handle_syscall :
      ℕ
      → ℕ
      → (ℕ → Option (Handler (Kernel ports.State S)))
      → Frame
      → Kernel ports.State S
      → Option (Kernel ports.State S × Outcome)
  handle_syscall stack_base last_id handlers s k = do
    (result, k₁) ← Syscall.handle last_id handlers s.registers k
    leave stack_base (record s { registers = record (s.registers) { rax = result } }) k₁

  -- `Interrupt::handle`, with the handlers of the system calls that return.
  unfoldable pub handle :
      ℕ
      → ℕ
      → ℕ
      → ℕ
      → (ℕ → Option (Handler (Kernel ports.State S)))
      → Frame
      → Kernel ports.State S
      → Option (Kernel ports.State S × Outcome)
  handle stack_base address code last_id handlers s k = do
    assert (s.registers.cs == system_cs || s.registers.rflags / 2 ^ 9 % 2 == 1)
    let acknowledged = record k { controllers = acknowledge ports s.int_no k.controllers }
    if ltb s.int_no 32
        then handle_exception stack_base address s acknowledged
        else if ltb s.int_no 48
        then handle_device stack_base code s acknowledged
        else if s.int_no == 0x80
        then handle_syscall stack_base last_id handlers s acknowledged
        else leave stack_base s acknowledged
