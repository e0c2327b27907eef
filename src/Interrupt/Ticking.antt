-- ===== src/Interrupt/Ticking.antt =====
-- source/Interrupt.cpp, `Interrupt::handle`: the timer takes the processor from one task and gives it to the next.
use flix.Base.{
  ℕ, ◌^◌, ◌<◌, ◌≡◌, refl, ◌∙◌, ap, true, false, not, Option, some, assert-true, >>=-some, ◌==◌,
  if◌then◌else◌, inl, inr, Bool-cases, Option-cases, ==-refl, assign,
}
use flix.Paging.Access.{entry_at}
use flix.Paging.Coherent.{IsCoherent}
use flix.Paging.UserSpace.{use_directory-same}
use flix.Syscall.{Handler, InterruptState}
use flix.TaskManager.{Task, TaskManager, get_task, modify, get_next}
use flix.TaskManager.Keys.{modify-keys, keys-Ascending}
use flix.TaskManager.Life.{jumps, all_zombie, may_resume, schedule_next, switch_to}
use flix.TaskManager.Next.{Ascending, cyclic_next, get_next-cyclic_next}
use flix.Interrupt.{Ports}
use flix.Interrupt.Dispatch.{
  Frame, Kernel, switches, acknowledge, to_task_context, save_current_task, handle_device, handle,
  is_task_active, directory_of, enter,
}
use flix.Interrupt.Faulting.{is_interruptible}
use flix.Interrupt.Saving.{
  saved_task, saved, cyclic_next-modify, all_zombie-modify, get_task-modify, all_zombie-cyclic_next,
  get_task-tid,
}

-- The manager with the registers of the active task saved, and then with `next` active.
abbrev pub save_active : InterruptState → TaskManager → TaskManager
save_active st m = record m { tasks = modify m.active_task (to_task_context st) m.tasks }

abbrev pub activate : Task → TaskManager → TaskManager
activate next m = record m { active_task = next.tid; ist1 = next.kernel_stack_top }

-- A task `t'` that is `t` with the registers of an interrupt.
pub record HasRegisters (st : InterruptState) (t t' : Task) : Type 0 where
  pub cs : t'.cs ≡ st.cs
  pub rflags : t'.rflags ≡ st.rflags
  pub r15 : t'.general.r15 ≡ st.r15
  pub r14 : t'.general.r14 ≡ st.r14
  pub r13 : t'.general.r13 ≡ st.r13
  pub r12 : t'.general.r12 ≡ st.r12
  pub rbx : t'.general.rbx ≡ st.rbx
  pub rbp : t'.general.rbp ≡ st.rbp
  pub r11 : t'.general.r11 ≡ st.r11
  pub r10 : t'.general.r10 ≡ st.r10
  pub r9 : t'.general.r9 ≡ st.r9
  pub r8 : t'.general.r8 ≡ st.r8
  pub rax : t'.general.rax ≡ st.rax
  pub rcx : t'.general.rcx ≡ st.rcx
  pub rdx : t'.general.rdx ≡ st.rdx
  pub rsi : t'.general.rsi ≡ st.rsi
  pub rdi : t'.general.rdi ≡ st.rdi
  pub rip : t'.general.rip ≡ st.rip
  pub rsp : t'.general.rsp ≡ st.rsp
  pub ss : t'.general.ss ≡ st.ss
  pub tid : t'.tid ≡ t.tid
  pub hh : t'.hh ≡ t.hh
  pub state : t'.state ≡ t.state
  pub waiters : t'.waiters ≡ t.waiters
  pub kernel_stack_top : t'.kernel_stack_top ≡ t.kernel_stack_top

to_task_context-HasRegisters :
    (st : InterruptState) (t : Task) → HasRegisters st t (to_task_context st t)
to_task_context-HasRegisters st t = record {
  cs = refl;
  rflags = refl;
  r15 = refl;
  r14 = refl;
  r13 = refl;
  r12 = refl;
  rbx = refl;
  rbp = refl;
  r11 = refl;
  r10 = refl;
  r9 = refl;
  r8 = refl;
  rax = refl;
  rcx = refl;
  rdx = refl;
  rsi = refl;
  rdi = refl;
  rip = refl;
  rsp = refl;
  ss = refl;
  tid = refl;
  hh = refl;
  state = refl;
  waiters = refl;
  kernel_stack_top = refl;
}

module _ (st : InterruptState) (m : TaskManager) (t : Task)
    (at : get_task m.active_task m.tasks ≡ some t) (allowed : is_interruptible st ≡ true) where
  save_current_task-active : save_current_task st m ≡ some (save_active st m)
  unfolding save_current_task
  save_current_task-active =
      let same : t.tid ≡ m.active_task = get_task-tid m.active_task m.tasks t at in
      >>=-some _ _ at
      ∙ assert-true _ _ allowed
      ∙ ap (λ a. some (record m { tasks = modify a (to_task_context st) m.tasks })) same

  -- The switch after the registers are saved.
  schedule_next-save_active :
      (base lo : ℕ) (next : Task)
      → Ascending lo m.tasks
      → m.active_task < 2 ^ 32
      → cyclic_next m.active_task m.tasks ≡ some next
      → may_resume next ≡ true
      → schedule_next base (save_active st m)
        ≡ some (activate next (save_active st m), jumps next.tid)
  unfolding schedule_next switch_to
  schedule_next-save_active base lo next up small chosen resumes =
      let a = m.active_task in
      let after = save_active st m in
      let alive : not (all_zombie after.tasks) ≡ true =
        ap not (all_zombie-modify a st m.tasks ∙ all_zombie-cyclic_next a m.tasks next chosen) in
      let up' : Ascending lo after.tasks =
        keys-Ascending lo m.tasks after.tasks
          (modify-keys a (to_task_context st) m.tasks (λ x. refl)) up in
      let found : get_next after ≡ some (some (saved_task a st next)) =
        get_next-cyclic_next after lo up' small
        ∙ ap some (cyclic_next-modify a st a m.tasks ∙ ap (saved a st) chosen) in
      assert-true _ _ alive ∙ >>=-some _ _ found ∙ elim (Bool-cases (next.tid == a)) [
        | inl self ↦ rw self (assert-true _ _ allowed)
        | inr other ↦ rw other (assert-true _ _ resumes)
      ]

module _ (ports : Ports) {S : Type 0} (stack_base address code last_id : ℕ)
    (handlers : ℕ → Option (Handler (Kernel ports.State S))) (s : Frame)
    (k : Kernel ports.State S) where
  -- A timer interrupt while a task is active and may be interrupted: if the tasks are in the order
  -- of their tids, the active tid has 32 bits, the first runnable task in cyclic order after the
  -- active one may be resumed, paging is ready, and the directories in use and of that task are
  -- coherent and map the stack to the same page, then the first controller is acknowledged and the
  -- processor goes to that task, on its kernel stack and with its directory in use. The interrupted
  -- task has all the twenty registers of the interrupt, its other fields as before, and keeps its
  -- directory; every other task is as before.
  pub handle-preempts :
      (lo : ℕ) (t next : Task)
      → s.int_no ≡ 32
      → is_interruptible s.registers ≡ true
      → Ascending lo k.tm.tasks
      → k.tm.active_task < 2 ^ 32
      → get_task k.tm.active_task k.tm.tasks ≡ some t
      → is_task_active k.tm ≡ true
      → cyclic_next k.tm.active_task k.tm.tasks ≡ some next
      → may_resume next ≡ true
      → k.machine.paging_ready ≡ true
      → IsCoherent 3 k.current.manager
      → IsCoherent 3 (directory_of ports next.tid k).manager
      → entry_at 3 k.current.manager k.stack
        ≡ entry_at 3 (directory_of ports next.tid k).manager k.stack
      → (handle ports stack_base address code last_id handlers s k
          ≡ some (
            record k {
              controllers = ports.outb 0x20 0x20 k.controllers;
              tm = activate next (save_active s.registers k.tm);
              current = directory_of ports next.tid k;
              in_use = next.tid;
              directories = assign k.directories k.in_use k.current;
            },
            switches (jumps next.tid),
          ))
        × ((t' : Task) × (get_task k.tm.active_task (save_active s.registers k.tm).tasks ≡ some t')
            × HasRegisters s.registers t t')
        × ((tid : ℕ)
            → (tid == k.tm.active_task) ≡ false
            → get_task tid (save_active s.registers k.tm).tasks ≡ get_task tid k.tm.tasks)
  unfolding handle handle_device acknowledge enter
  handle-preempts lo t next timer allowed up small at active chosen resumes ready c c' same =
      let a = k.tm.active_task in
      let st = s.registers in
      let stored : (if is_task_active k.tm then save_current_task st k.tm else some k.tm)
          ≡ some (save_active st k.tm) =
        rw active (save_current_task-active st k.tm t at allowed) in
      (
        assert-true _ _ allowed
            ∙ rw timer (
                >>=-some _ _ stored
                ∙ >>=-some _ _ (
                    schedule_next-save_active st k.tm t at allowed stack_base lo next up small
                      chosen resumes)
                ∙ >>=-some _ _ (
                    use_directory-same k.machine ready k.stack k.current
                      (directory_of ports next.tid k) c c' same)),
        (
          to_task_context st t,
          let self : (t.tid == a) ≡ true =
                ap (λ x. x == a) (get_task-tid a k.tm.tasks t at) ∙ ==-refl a in
              get_task-modify a st a k.tm.tasks ∙ ap (saved a st) at ∙ rw self refl,
          to_task_context-HasRegisters st t,
        ),
        λ tid other.
            get_task-modify a st tid k.tm.tasks ∙ elim (Option-cases (get_task tid k.tm.tasks)) [
              | inl missing ↦ rw missing refl
              | inr (x, found) ↦
                  let off : (x.tid == a) ≡ false =
                    ap (λ y. y == a) (get_task-tid tid k.tm.tasks x found) ∙ other in
                  rw (found, off) refl
            ],
      )
