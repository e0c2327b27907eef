-- ===== src/Interrupt/Tests.antt =====
-- source/Interrupt.cpp: the code run on two registers behind the data ports.
use flix.Base.{
  List, [], ◌∷◌, ℕ, ◌+◌, ◌%◌, ◌^◌, ◌≡◌, refl, true, false, Option, none, some, ◌==◌, if◌then◌else◌,
  arith, assign, ◌-◌,
}
use flix.Paging.{empty}
use flix.Paging.Access.{entry_at}
use flix.Paging.Directory.{Directory}
use flix.Paging.Samples.{process, process-IsCoherent, machine, solo, page}
use flix.Syscall.{Handler, InterruptState, sys_call_executor, call, register_handler}
use flix.TaskManager.{runnable, no_registers, Task, TaskManager, get_task}
use flix.TaskManager.Life.{jumps}
use flix.TaskManager.Next.{first_after}
use flix.Interrupt.{Ports, pic1_data, pic2_data, mask, unmask}
use flix.Interrupt.Masks.{KeepsMasks, is_masked, mask-is_masked}
use flix.Interrupt.Dispatch.{Frame, Kernel, returns, switches, acknowledge, handle}
use flix.Interrupt.Calling.{handle-call}
use flix.Interrupt.Scopes.{Code, notice, then_do, disabled, enabled, run, notices, run-notices}
use flix.Interrupt.Ticking.{activate, save_active, handle-preempts, HasRegisters}

-- The two masks, and the number of acknowledgements.
record Registers : Type 0 where
  first : ℕ
  second : ℕ
  acknowledgements : ℕ

abbrev write : ℕ → ℕ → Registers → Registers
write port value r =
    if port == pic1_data
    then record r { first = value % 256 }
    else if port == pic2_data
    then record r { second = value % 256 }
    else record r { acknowledgements = r.acknowledgements + 1 }

abbrev registers : Ports
registers = record {
  State = Registers;
  outb = write;
  inb = λ port r. if port == pic1_data then r.first % 256 else r.second % 256;
}

abbrev registers-KeepsMasks : KeepsMasks registers
registers-KeepsMasks = record {
  IsIdle = λ r. Unit;
  started = λ a b c d e f r. tt;
  stays = λ v r idle. tt;
  byte = λ r. (omega arith, omega arith);
  first = λ v r idle small. omega arith;
  second = λ v r idle small. omega arith;
  first_stays = λ v r. refl;
  second_stays = λ v r. refl;
}

abbrev quiet : Registers
quiet = record { first = 0xfd; second = 0xff; acknowledgements = 0 }

mask-is_masked_example :
    (is_masked registers 10 (mask registers 9 quiet) ≡ is_masked registers 10 quiet)
    × (is_masked registers 10 (unmask registers 9 quiet) ≡ is_masked registers 10 quiet)
mask-is_masked_example =
    mask-is_masked registers registers-KeepsMasks 9 10 quiet tt (omega arith) (omega arith)

abbrev task : ℕ → Task
task tid = record {
  tid = tid;
  hh = record { parent = 0; first_child = 0; next_sibling = 0; prev_sibling = 0 };
  state = runnable;
  waiters = [];
  cs = 0x23;
  rflags = 0x200;
  general = no_registers;
  kernel_stack_top = 0x9000 + tid;
}

-- Tasks 1, 4 and 6 can run, and 4 does.
abbrev three_tasks : TaskManager
three_tasks = record {
  tasks = task 1 ∷ task 4 ∷ task 6 ∷ [];
  active_task = 4;
  next_tid = 7;
  timer_masked = false;
  ist1 = 0;
}

abbrev kernel_now : Kernel Registers ℕ
kernel_now = record {
  controllers = quiet;
  current = process;
  in_use = 4;
  directories = λ tid. process;
  stack = 0xffffffffc0000ff8;
  machine = machine;
  tm = three_tasks;
  console = record {
    shifts = record { left = false; right = false };
    tty = record { stdin = [] };
    screen = record { cells = λ j. 0; x = 0; y = 0 };
  };
}

abbrev no_handlers : ℕ → Option (Handler (Kernel Registers ℕ))
no_handlers id = none

abbrev interrupt : ℕ → ℕ → Frame
interrupt int_no err_code = record {
  int_no = int_no;
  err_code = err_code;
  registers = record {
    rax = 0;
    rdi = 0;
    rsi = 0;
    rdx = 0;
    rcx = 0;
    r8 = 0;
    cs = 0x23;
    rflags = 0x246;
    r15 = 0;
    r14 = 0;
    r13 = 0;
    r12 = 0;
    rbx = 0;
    rbp = 0;
    r11 = 0;
    r10 = 0;
    r9 = 0;
    rip = 0x401000;
    rsp = 0x7000;
    ss = 0;
  };
}

-- A directory whose page 0x1000 waits for its frame.
abbrev waiting : Directory
waiting = record {
  manager =
      solo 2 0
        (solo 1 0 (solo 0 0 (assign (λ j. empty) 1 (record (page (2 ^ 40 - 1)) { p = false }))));
  base = 7;
}

-- Task 6 has a directory of its own, with the same stack.
abbrev other_process : Directory
other_process = record process { base = 9 }

abbrev kernel_switching : Kernel Registers ℕ
kernel_switching = record kernel_now { directories = λ tid. other_process }

handle-preempts_example :
    (handle registers 0x8000 0 0 400 no_handlers (interrupt 32 0) kernel_switching
      ≡ some (
        record kernel_switching {
          controllers = write 0x20 0x20 quiet;
          tm = activate (task 6) (save_active (interrupt 32 0).registers three_tasks);
          current = other_process;
          in_use = 6;
          directories = assign kernel_switching.directories 4 process;
        },
        switches (jumps 6),
      ))
    × ((t' : Task) × (get_task 4 (save_active (interrupt 32 0).registers three_tasks).tasks
          ≡ some t')
        × HasRegisters (interrupt 32 0).registers (task 4) t')
    × ((tid : ℕ)
        → (tid == 4) ≡ false
        → get_task tid (save_active (interrupt 32 0).registers three_tasks).tasks
          ≡ get_task tid three_tasks.tasks)
unfolding get_task first_after acknowledge entry_at
handle-preempts_example =
    handle-preempts registers 0x8000 0 0 400 no_handlers (interrupt 32 0) kernel_switching 0
      (task 4) (task 6) refl refl
      (omega arith, omega arith, (omega arith, omega arith, (omega arith, omega arith, tt)))
      (omega arith) refl refl refl refl refl process-IsCoherent process-IsCoherent refl

-- A call with two arguments, whose handler adds them.
abbrev add_arguments : List ℕ → Kernel Registers ℕ → Option (ℕ × Kernel Registers ℕ)
add_arguments (a ∷ b ∷ []) k = some (a + b, k)
add_arguments _ k = none

handle-call_example :
    (hs : ℕ → Option (Handler (Kernel Registers ℕ))) × (st' : InterruptState) × (register_handler
        400 7
        (sys_call_executor 2 add_arguments)
        no_handlers
      ≡ some hs)
    × (call 7 (30 ∷ 12 ∷ []) (interrupt 0x80 0).registers ≡ some st')
    × (handle registers 0x8000 0 0 400 hs
          (record { int_no = 0x80; err_code = 0; registers = st' })
          kernel_now
        ≡ some (
          kernel_now,
          returns (record { int_no = 0x80; err_code = 0; registers = record st' { rax = 42 } }),
        ))
handle-call_example =
    handle-call registers 0x8000 0 0 400 7 0 42 (30 ∷ 12 ∷ []) add_arguments no_handlers
      (interrupt 0x80 0).registers kernel_now kernel_now (omega arith) (omega arith) refl refl refl

-- Code with interrupts off that switches them on for a while.
abbrev waits_inside : Code
waits_inside = disabled (then_do notice (then_do (enabled notice) notice))

run-notices_example : run waits_inside true ≡ some (notices waits_inside true, true)
run-notices_example = run-notices waits_inside true

notices_test : notices waits_inside true ≡ false ∷ true ∷ false ∷ []
unfolding notices
notices_test = refl
