-- ===== src/Syscall/Tests.antt =====
-- Runs of system calls, and the theorems about them at concrete inputs.
use flix.Base.{ℕ, [], ◌∷◌, ◌+◌, ◌≡◌, refl, Option, some, none, ◌>>=◌}
use flix.Syscall.{InterruptState, handle, register_handler}
use flix.Syscall.Stat.{File, newfstatat, newfstatat-relative}
use flix.Vfs.{Inode, Handle, file, folder, cons, nil}

-- The registered handler is called, and a number without one gives 0.
abbrev last_id : ℕ
last_id = 400

abbrev getpid : InterruptState → ℕ → Option (ℕ × ℕ)
getpid st k = some (7, k + 1)

abbrev registers : ℕ → InterruptState
registers rax = record {
  rax = rax;
  rdi = 0;
  rsi = 0;
  rdx = 0;
  rcx = 0;
  r8 = 0;
  cs = 0x33;
  rflags = 0x202;
  r15 = 0;
  r14 = 0;
  r13 = 0;
  r12 = 0;
  rbx = 0;
  rbp = 0;
  r11 = 0;
  r10 = 0;
  r9 = 0;
  rip = 0;
  rsp = 0;
  ss = 0;
}

handle_test :
    (register_handler last_id 39 getpid (λ id. none) >>= λ handlers.
    handle last_id handlers (registers 39) 0)
    ≡ some (7, 1)
unfolding register_handler handle
handle_test = refl

handle_unknown_test :
    (register_handler last_id 39 getpid (λ id. none) >>= λ handlers.
    handle last_id handlers (registers 40) 0)
    ≡ some (0, 0)
unfolding register_handler handle
handle_unknown_test = refl

-- The file "b" in the root, and a descriptor of a file for a path from it.
abbrev root : Inode
root = folder [] 0x4000 (cons (file (98 ∷ []) 0x81a4 2 (7 ∷ 8 ∷ [])) nil)

abbrev no_file : Handle → Option File
no_file h = some (record { name = 98 ∷ []; mode = 0x81a4; size = 2 })

newfstatat-relative_example :
    newfstatat no_file 1 root
      (some 0)
      (98 ∷ [])
      0
      (some (record { bytes = 7 ∷ 8 ∷ []; pos = 0 }) ∷ [])
    ≡ some none
newfstatat-relative_example =
    newfstatat-relative no_file 0 root (some 0) (98 ∷ []) 0
      (some (record { bytes = 7 ∷ 8 ∷ []; pos = 0 }) ∷ [])
