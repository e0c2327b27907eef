-- ===== src/Interrupt/Faulting.antt =====
-- source/Interrupt.cpp, `Interrupt::handle`: faults of the processor, and interrupts that nobody waits for.
use flix.Base.{
  ℕ, ◌/◌, ◌%◌, ◌^◌, ◌<◌, ◌≡◌, refl, ◌∙◌, Bool, true, false, Option, none, some, assert-true,
  >>=-some, ltb, leb, ◌==◌, if◌then◌else◌, ◌||◌, ◌&&◌, arith, inl, inr, Bool-cases,
}
use flix.Memory.{Memory}
use flix.Paging.Access.{entry_at}
use flix.Paging.Coherent.{IsCoherent}
use flix.Paging.Directory.{Directory}
use flix.Paging.Faults.{is_deferred, handle_fault-not_deferred}
use flix.Syscall.{Handler, system_cs, InterruptState}
use flix.Interrupt.{Ports}
use flix.Interrupt.Dispatch.{
  Frame, Kernel, Outcome, returns, end_task, acknowledge, handle_exception, handle,
}

-- The kernel, or a user program that can be interrupted.
abbrev pub is_interruptible : InterruptState → Bool
is_interruptible st = st.cs == system_cs || st.rflags / 2 ^ 9 % 2 == 1

-- A fault that a deferred page explains: the page was not present, and waits for its frame.
abbrev pub is_demand : {P S : Type 0} → ℕ → Frame → Kernel P S → Bool
is_demand address s k =
    s.int_no == 14 && s.err_code % 2 == 0 && is_deferred (entry_at 3 k.current.manager address)

module _ (ports : Ports) {S : Type 0} (stack_base address code last_id : ℕ)
    (handlers : ℕ → Option (Handler (Kernel ports.State S))) (s : Frame) (k : Kernel ports.State S)
    (interruptible : is_interruptible s.registers ≡ true) where
  abbrev acknowledged : Kernel ports.State S
  acknowledged = record k { controllers = acknowledge ports s.int_no k.controllers }

  handle-exception :
      s.int_no < 32
      → handle ports stack_base address code last_id handlers s k
        ≡ handle_exception ports stack_base address s acknowledged
  unfolding handle
  handle-exception low =
      let is : ltb s.int_no 32 ≡ true = ground arith in assert-true _ _ interruptible ∙ rw is refl

  -- Every other exception ends the active task.
  pub handle-ends :
      s.int_no < 32
      → IsCoherent 3 k.current.manager
      → is_demand address s k ≡ false
      → handle ports stack_base address code last_id handlers s k
        ≡ end_task ports stack_base acknowledged
  unfolding handle_exception
  handle-ends low c other =
      handle-exception low ∙ elim (Bool-cases (s.int_no == 14 && s.err_code % 2 == 0)) [
        | inl guard ↦
            let waits : is_deferred (entry_at 3 k.current.manager address) ≡ false = ground arith in
            rw guard (>>=-some _ _ (handle_fault-not_deferred address k.current k.machine c waits))
        | inr guard ↦ rw guard refl
      ]

-- The interrupts that the kernel acts on: the timer, the keyboard and the system call.
abbrev pub is_claimed : ℕ → Bool
is_claimed int_no = int_no == 32 || int_no == 33 || int_no == 0x80

-- What becomes of the other numbers: exceptions end the active task, the spurious line 7 of the first controller is
-- acknowledged, and the interrupts of neither controller are ignored.
abbrev pub unclaimed :
    (ports : Ports) {S : Type 0}
    → ℕ
    → Frame
    → Kernel ports.State S
    → Option (Kernel ports.State S × Outcome)
unclaimed ports stack_base s k =
    if ltb s.int_no 32
    then end_task ports stack_base (record k { controllers = ports.outb 0x20 0x20 k.controllers })
    else if s.int_no == 39
    then some (record k { controllers = ports.outb 0x20 0x20 k.controllers }, returns s)
    else if leb 48 s.int_no
    then some (k, returns s)
    else none
