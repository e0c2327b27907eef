-- ===== src/Interrupt/Calling.antt =====
-- source/Syscall.hpp and source/Interrupt.cpp: a system call from the registers of the program to the handler and back.
use flix.Base.{
  ℕ, ◌<◌, ◌≤◌, ◌≡◌, refl, ◌∙◌, ap, true, Option, some, List, [], ◌∷◌, length, assert-true, >>=-some,
  ltb, arith, assign, assign_self,
}
use flix.Syscall.{InterruptState, Handler, system_cs, sys_call_executor, call, register_handler}
use flix.Syscall
use flix.Interrupt.{Ports}
use flix.Interrupt.Dispatch.{Kernel, returns, acknowledge, is_task_active, handle_syscall, handle}
use flix.Interrupt.Faulting.{is_interruptible}

-- What `call` leaves in the registers: the number, and arguments that the executor reads.
record Passes {K : Type 0} (f : List ℕ → K → Option (ℕ × K)) (sc : ℕ) (args : List ℕ)
    (st st' : InterruptState) : Type 0 where
  number : st'.rax ≡ sc
  arguments : (k : K) → sys_call_executor (length args) f st' k ≡ f args k
  mode : is_interruptible st' ≡ is_interruptible st

call-Passes :
    {K : Type 0} (f : List ℕ → K → Option (ℕ × K)) (sc : ℕ) (args : List ℕ) (st : InterruptState)
    → length args ≤ 5
    → (st' : InterruptState) × (call sc args st ≡ some st') × Passes f sc args st st'
unfolding call sys_call_executor
call-Passes f sc [] st few = (_, refl, record { number = refl; arguments = λ k. refl; mode = refl })
call-Passes f sc (a₁ ∷ []) st few =
    (_, refl, record { number = refl; arguments = λ k. refl; mode = refl })
call-Passes f sc (a₁ ∷ a₂ ∷ []) st few =
    (_, refl, record { number = refl; arguments = λ k. refl; mode = refl })
call-Passes f sc (a₁ ∷ a₂ ∷ a₃ ∷ []) st few =
    (_, refl, record { number = refl; arguments = λ k. refl; mode = refl })
call-Passes f sc (a₁ ∷ a₂ ∷ a₃ ∷ a₄ ∷ []) st few =
    (_, refl, record { number = refl; arguments = λ k. refl; mode = refl })
call-Passes f sc (a₁ ∷ a₂ ∷ a₃ ∷ a₄ ∷ a₅ ∷ []) st few =
    (_, refl, record { number = refl; arguments = λ k. refl; mode = refl })
call-Passes f sc (a₁ ∷ a₂ ∷ a₃ ∷ a₄ ∷ a₅ ∷ a₆ ∷ more) st few = absurd (omega arith)

-- A system call with up to five arguments, by a program that may be interrupted, to a number below
-- last_id under which a handler is registered: the handler is called with the arguments that were
-- given to call, and if it returns with a task still active, the interrupt returns to the program
-- with the result in rax and the other registers as they were.
pub handle-call :
    (ports : Ports) {S : Type 0} (stack_base address code last_id sc err_code result : ℕ)
    (args : List ℕ) (f : List ℕ → Kernel ports.State S → Option (ℕ × Kernel ports.State S))
    (handlers : ℕ → Option (Handler (Kernel ports.State S))) (st : InterruptState)
    (k k' : Kernel ports.State S)
    → length args ≤ 5
    → sc < last_id
    → is_interruptible st ≡ true
    → f args k ≡ some (result, k')
    → is_task_active k'.tm ≡ true
    → (hs : ℕ → Option (Handler (Kernel ports.State S))) × (st' : InterruptState)
      × (register_handler last_id sc (sys_call_executor (length args) f) handlers ≡ some hs)
      × (call sc args st ≡ some st')
      × (handle ports stack_base address code last_id hs
            (record { int_no = 0x80; err_code = err_code; registers = st' })
            k
          ≡ some (
            k',
            returns (record {
              int_no = 0x80;
              err_code = err_code;
              registers = record st' { rax = result };
            }),
          ))
unfolding register_handler handle handle_syscall Syscall.handle acknowledge
handle-call ports stack_base address code last_id sc err_code result args f handlers st k k' few
      known allowed ran active =
    let (st', called, p) = call-Passes f sc args st few in
    let is : ltb sc last_id ≡ true = ground arith in
    let hs = assign handlers sc (some (sys_call_executor (length args) f)) in
    let may : is_interruptible st' ≡ true = p.mode ∙ allowed in
    let valid : ltb st'.rax last_id ≡ true = ap (λ x. ltb x last_id) p.number ∙ is in
    let found : hs st'.rax ≡ some (sys_call_executor (length args) f) =
      ap hs p.number ∙ assign_self handlers sc _ in
    let dispatched : Syscall.handle last_id hs st' k ≡ some (result, k') =
      assert-true _ _ may ∙ assert-true _ _ valid ∙ rw found (p.arguments k ∙ ran) in
    (
      hs,
      st',
      assert-true _ _ is,
      called,
      assert-true _ _ may ∙ >>=-some _ _ dispatched ∙ rw active refl,
    )
