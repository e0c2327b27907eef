-- ===== src/Syscall.antt =====
-- source/Syscall.cpp: the dispatch of system calls, and the handlers on files and on memory. A result of -1 is `none`
-- inside the result. The active task and the kernel behind it are passed explicitly.
pub mod Areas
pub mod Stat
mod Tests
use flix.Base.{
  ℕ, ◌+◌, ◌-◌, ◌*◌, ◌/◌, ◌%◌, ◌^◌, Bool, true, false, not, Option, none, some, List, [], ◌∷◌, zero,
  suc, assert, ◌>>=◌, ◌>>◌, ltb, ◌==◌, if◌then◌else◌, ◌&&◌, ◌||◌, assign, set,
}
use flix.Vfs.{Expected, value, unexpected, Handle, read}
use flix.FileManager.{open_file, close, get_handle}
use flix.Paging.{Allocator}
use flix.Paging.Directory.{Directory, Machine, map_page}

-- `InterruptState`, but for the number and the error code of the interrupt.
pub record InterruptState : Type 0 where
  pub r15 : ℕ
  pub r14 : ℕ
  pub r13 : ℕ
  pub r12 : ℕ
  pub rbx : ℕ
  pub rbp : ℕ
  pub r11 : ℕ
  pub r10 : ℕ
  pub r9 : ℕ
  pub r8 : ℕ
  pub rax : ℕ
  pub rcx : ℕ
  pub rdx : ℕ
  pub rsi : ℕ
  pub rdi : ℕ
  pub rip : ℕ
  pub cs : ℕ
  pub rflags : ℕ
  pub rsp : ℕ
  pub ss : ℕ

-- `DescTables::SYSTEM_CS`
abbrev pub system_cs : ℕ
system_cs = 0x8

-- A handler, from the registers and the kernel's state to its result.
abbrev pub Handler : Type 0 → Type 0
Handler K = InterruptState → K → Option (ℕ × K)

-- `last_id` comes from the generated list of system calls.
module _ {K : Type 0} (last_id : ℕ) where
  -- `registerHandler`, on `g_syscallHandlers`.
  unfoldable pub register_handler :
      ℕ → Handler K → (ℕ → Option (Handler K)) → Option (ℕ → Option (Handler K))
  register_handler id handler handlers = do
    assert (ltb id last_id)
    some (assign handlers id (some handler))

  unfoldable pub handle : (ℕ → Option (Handler K)) → InterruptState → K → Option (ℕ × K)
  handle handlers st k = do
    assert (st.cs == system_cs || st.rflags / 2 ^ 9 % 2 == 1)
    assert (ltb st.rax last_id)
    elim (handlers st.rax) [ some handler ↦ handler st k | none ↦ some (0, k) ]

  -- `syscallHandler`: the result goes back in `rax`.
  unfoldable pub syscall_handler :
      (ℕ → Option (Handler K)) → InterruptState → K → Option (InterruptState × K)
  unfolding handle
  syscall_handler handlers st k = do
    (result, k₁) ← handle handlers st k
    some (record st { rax = result % 2 ^ 64 }, k₁)

-- `SysCallExecutor`, for each number of arguments; `none` is a template that is not there. A handler without a result
-- gives 0.
unfoldable pub sys_call_executor : {K : Type 0} → ℕ → (List ℕ → K → Option (ℕ × K)) → Handler K
sys_call_executor zero f st k = f [] k
sys_call_executor (suc zero) f st k = f (st.rdi ∷ []) k
sys_call_executor (suc (suc zero)) f st k = f (st.rdi ∷ st.rsi ∷ []) k
sys_call_executor (suc (suc (suc zero))) f st k = f (st.rdi ∷ st.rsi ∷ st.rdx ∷ []) k
sys_call_executor (suc (suc (suc (suc zero)))) f st k = f (st.rdi ∷ st.rsi ∷ st.rdx ∷ st.rcx ∷ []) k
sys_call_executor (suc (suc (suc (suc (suc zero))))) f st k =
    f (st.rdi ∷ st.rsi ∷ st.rdx ∷ st.rcx ∷ st.r8 ∷ []) k
sys_call_executor (suc (suc (suc (suc (suc (suc n)))))) f st k = none

-- `call`, for each number of arguments: the registers with which it interrupts.
unfoldable pub call : ℕ → List ℕ → InterruptState → Option InterruptState
call sc [] st = some (record st { rax = sc })
call sc (a₁ ∷ []) st = some (record st { rax = sc; rdi = a₁ })
call sc (a₁ ∷ a₂ ∷ []) st = some (record st { rax = sc; rdi = a₁; rsi = a₂ })
call sc (a₁ ∷ a₂ ∷ a₃ ∷ []) st = some (record st { rax = sc; rdi = a₁; rsi = a₂; rdx = a₃ })
call sc (a₁ ∷ a₂ ∷ a₃ ∷ a₄ ∷ []) st =
    some (record st { rax = sc; rdi = a₁; rsi = a₂; rdx = a₃; rcx = a₄ })
call sc (a₁ ∷ a₂ ∷ a₃ ∷ a₄ ∷ a₅ ∷ []) st =
    some (record st { rax = sc; rdi = a₁; rsi = a₂; rdx = a₃; rcx = a₄; r8 = a₅ })
call sc (a₁ ∷ a₂ ∷ a₃ ∷ a₄ ∷ a₅ ∷ a₆ ∷ more) st = none

-- `arch_prctl`: the register that is written, and its upper and lower half.
abbrev pub arch_prctl : ℕ → ℕ → List (ℕ × ℕ × ℕ)
arch_prctl code address =
    if code == 0x1002 then (0xc0000100, address / 2 ^ 32 % 2 ^ 32, address % 2 ^ 32) ∷ [] else []

-- `open`, from the handle or the error of the file; `openat` ignores the directory.
abbrev pub fd_result : Expected ℕ → Option ℕ
fd_result (unexpected e) = none
fd_result (value fd) = some fd

abbrev pub hndl_open : Expected Handle → List (Option Handle) → Option ℕ × List (Option Handle)
hndl_open file files = let (fd, files₁) = open_file file files in (fd_result fd, files₁)

abbrev pub hndl_close : ℕ → List (Option Handle) → Option ℕ × List (Option Handle)
hndl_close fd files =
    let (closed, files₁) = close fd files in (if closed then some 0 else none, files₁)

-- `read`: the bytes, whose number is the result. The outer `none` is a copy from outside the file.
unfoldable pub hndl_read :
    ℕ → ℕ → List (Option Handle) → Option (Option (List ℕ) × List (Option Handle))
hndl_read fd count files = elim (get_handle fd files) [
  | none ↦ some (none, files)
  | some h ↦ (do (bytes, h₁) ← read count h; some (some bytes, set files fd (some h₁)))
]

-- `ATTR_RW | ATTR_PUBLIC | ATTR_DEFER | ATTR_NOEXEC`
abbrev pub area_attributes : ℕ
area_attributes = 0x1 + 0x2 + 0x8 + 0x4

-- `curPtr` at the start.
abbrev pub first_area : ℕ
first_area = 0xff005000

module _ (alloc : Allocator) where
  open alloc use {State}

  -- The loop of `mmap`, which counts the pages down.
  unfoldable pub mmap_rounds :
      ℕ → ℕ → Directory → Machine State → Option (ℕ × Directory × Machine State)
  mmap_rounds zero cur_ptr d m = some (cur_ptr, d, m)
  mmap_rounds (suc nb_pages) cur_ptr d m = do
    (_, d₁, m₁) ← map_page alloc cur_ptr area_attributes d m
    mmap_rounds nb_pages ((cur_ptr + 0x1000) % 2 ^ 64) d₁ m₁

  -- `mmap`: its result, and `curPtr` afterwards.
  unfoldable pub mmap :
      ℕ → ℕ → Directory → Machine State → Option (ℕ × ℕ × Directory × Machine State)
  mmap length cur_ptr d m = if length == 0 then some (0, cur_ptr, d, m) else (do
    (cur_ptr₁, d₁, m₁) ← mmap_rounds ((length + 0x1000 - 1) % 2 ^ 64 / 0x1000) cur_ptr d m
    some (cur_ptr, cur_ptr₁, d₁, m₁))
