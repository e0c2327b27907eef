-- ===== src/TaskManager/Clone.antt =====
-- source/TaskManager.cpp, `clone`: the copy of the user's memory into a new directory, page by page. The contents of
-- memory are a function from frames to the bytes at their offsets; `none` is a failed assertion or a page fault.
pub mod Attributes
pub mod Pages
pub mod Round
pub mod Plan
pub mod Loop
pub mod Copied
pub mod Spaces
mod Tests
use flix.Base.{
  ℕ, ◌+◌, ◌*◌, ◌/◌, ◌^◌, Bool, true, false, Option, none, some, List, [], ◌∷◌, ◌>>=◌, if◌then◌else◌,
  assign,
}
use flix.Paging.{Entry, Allocator}
use flix.Paging.Directory.{
  Directory, Machine, get_attributes, attr_defer, map_page, map_page_to, unmap_page,
  get_physical_address, map_kernel,
}
use flix.Paging.Visits.{Visit, user_pages}
use flix.TaskManager.{GeneralRegisters, no_registers, Task, TaskManager, runnable}
use flix.TaskManager.Life.{add_task}

abbrev pub Contents : Type 0
Contents = ℕ → ℕ → ℕ

-- `bufferPage`
abbrev pub buffer_page : ℕ
buffer_page = 0xffffffffaa000000

-- `memcpy` of a page, from one page-aligned address to another, in the directory in use.
unfoldable pub copy_page : {S : Type 0} → ℕ → ℕ → Directory → Machine S → Contents → Option Contents
copy_page to from d m contents = do
  target ← get_physical_address to d m
  to_phys ← target
  source ← get_physical_address from d m
  from_phys ← source
  some (assign contents (to_phys / 2 ^ 12) (contents (from_phys / 2 ^ 12)))

-- The two directories, the machine, and the contents of memory.
pub record Cloning (S : Type 0) : Type 0 where
  pub parent : Directory
  pub child : Directory
  pub machine : Machine S
  pub contents : Contents

module _ (alloc : Allocator) where
  open alloc use {State}

  -- The page of the buffer is mapped to the new frame, filled, and unmapped.
  unfoldable pub fill_page : ℕ → ℕ → Cloning State → Option (Cloning State)
  fill_page address phys c = do
    (d₁, m₁) ← map_page_to alloc buffer_page phys (0x1 + 0x4) c.parent c.machine
    contents ← copy_page buffer_page address d₁ m₁ c.contents
    (_, d₂) ← unmap_page buffer_page d₁ m₁
    some (record c { parent = d₂; machine = m₁; contents = contents })

  -- The callback of `clone`.
  unfoldable pub clone_visit : Visit → Cloning State → Option (Cloning State)
  clone_visit v c = do
    (phys, child, machine) ← map_page alloc v.address (get_attributes v.entry) c.child c.machine
    let mapped = record c { child = child; machine = machine }
    if attr_defer (get_attributes v.entry) then some mapped else fill_page v.address phys mapped

  unfoldable pub clone_pages : List Visit → Cloning State → Option (Cloning State)
  clone_pages [] c = some c
  clone_pages (v ∷ vs) c = do c₁ ← clone_visit v c; clone_pages vs c₁

  -- The loop of `clone`, into a directory that `mapKernel` has made.
  unfoldable pub clone_memory :
      ℕ → Directory → Directory → Machine State → Contents → Option (Cloning State)
  clone_memory vbase kernel parent m contents = do
    (child, m₁) ← map_kernel alloc vbase kernel m
    clone_pages (user_pages parent.manager)
        (record { parent = parent; child = child; machine = m₁; contents = contents })

-- `DescTables::USER_DS | 0x3`
abbrev user_ss : ℕ
user_ss = 0x1b

-- `newUserTask`, of the fields that are modelled.
abbrev pub new_user_task : ℕ → Task
new_user_task kernel_stack_top = record {
  tid = 0;
  hh = record { parent = 0; first_child = 0; next_sibling = 0; prev_sibling = 0 };
  state = runnable;
  waiters = [];
  cs = 0x23;
  rflags = 0x200;
  general = record no_registers { ss = user_ss };
  kernel_stack_top = kernel_stack_top;
}

-- The end of `clone`: the new task resumes where the call of the old one does, with 0 for its result. `kernel_stack` is the block of the
-- stack page heap.
unfoldable pub add_clone : ℕ → ℕ → ℕ → GeneralRegisters → TaskManager → Option (ℕ × TaskManager)
add_clone kernel_stack cs rflags general tm =
    add_task
      (record (new_user_task (kernel_stack + 0x4000)) {
        cs = cs;
        rflags = rflags;
        general = record general { rax = 0 };
      })
      tm
