-- ===== src/Lib.antt =====
-- Verification of the FliX kernel.
--
-- The kernel manages page frames (source/Memory.cpp), a heap for its own data (source/KHeap.cpp), and a
-- set of tasks (source/TaskManager.cpp) that wait for each other on semaphores, mutexes and condition
-- variables (source/Semaphore.cpp, source/Mutex.hpp, source/CondVar.cpp). Files come from a Cpio archive
-- (source/Cpio.cpp) and are found by path (source/Fs.cpp); a task has a table of open files
-- (source/FileManager.cpp) and a page directory (source/PageDirectory.cpp), whose pages are frames
-- and whose tables come from the page heap (source/PageHeap.cpp).
-- Keys go from the keyboard (source/Keyboard.cpp) to the terminal (source/Tty.cpp), which echoes them on the
-- screen (source/Screen.cpp). Programs call the kernel (source/Syscall.cpp) for files and memory, and are loaded
-- from files (source/Elf.cpp). Interrupts (source/Interrupt.cpp) take the processor from one task to the next, give
-- deferred pages their frames, and bring keys and system calls; source/DescTables.cpp names their handlers. At the start
-- the boot loader's information (source/Multiboot.cpp) says which frames are taken.
-- The heap is guarded by a mutex; a semaphore puts the active task to sleep and wakes tasks by the task manager;
-- the task manager turns the timer off when fewer than two tasks can run.
--
-- Memory       source/Memory.cpp: `Memory::getFreePage` is `get_free_page`, and so on. Frames are the
--              proofs about single frames, Alloc and Growth about allocation, Ranges about ranges.
-- KHeap        source/KHeap.cpp: `KHeap::kmalloc` is `kmalloc`, `splitBlock` is `split_block`, `enlargeHeap`
--              is `enlarge_heap`. The search of `kmalloc` is `scan`, and the three ways in which it ends are
--              `take_whole`, `take_split` and `take_enlarged`. Walk states what a well-formed heap is, Search
--              is about the search, Grow about new pages, Replace, Divide and Taken about blocks that are changed,
--              Alloc about `kmalloc`, Free about `kfree` and `init`.
-- TaskManager  source/TaskManager.hpp and source/TaskManager.cpp: Tree is `HierarchyHolder`, Life has the
--              operations that add, switch, end and reap tasks. Next and Fair are about `getNext`, Timer about
--              the timer's mask, Tids about tids, Keys about writes that keep the tids, Valid, Adding and
--              Waiting about single operations, Step about runs. Clone is `clone`: `clone_visit` is its callback,
--              `fill_page` the way of a page through the buffer; Attributes, Pages, Round, Plan and Loop are about
--              pages, rounds and the loop, Copied and Spaces about the two user spaces.
-- Sync         Semaphores and condition variables. Queue is about the linked waiters, Permits about runs of
--              `down` and `up`, Broadcast about `notify_all`, Spurious about wake-ups without a notification.
-- Vfs          source/Fs.cpp, source/Fs.hpp and source/Cpio.cpp: `fs::split` is `split`, `fs::lookup` is
--              `lookup_from` from an inode and `lookup` from the root, the handles of files are `Handle`. Archive
--              has `makeFile` and `readArchive`. Split is about the parts of paths, Children, Insert and Files about the
--              tree before and after `makeFile`, Reading about `readArchive`, Lookup about what a path leads to,
--              Relative about paths from a file, Links about the count of links, Handles about reads.
-- Paging       source/PageManager.hpp: the tables are `Tables 3`, `getPage` is `get_page` for the entry it finds,
--              `set_page` for a write through it, and `reach_page` with an initializer. Directory has the operations
--              of source/PageDirectory.cpp by their names; Visits has `forEachUserPage` as `user_pages`, and Release
--              has `unmapUserSpace`. Access and Coherent are about entries and tables, Mapping and Laws about pages
--              that are mapped, Faults and Defer about faults, Visited and Order about the walk, Kernel about
--              `mapKernel`, UserSpace about the frames that are given back, Samples has directories for Tests.
-- PageHeap     source/PageHeap.cpp: `allocBlock` is `alloc_block`, `kmalloc` is `page_kmalloc` and `kfree` is `page_kfree`.
--              While a block is being mapped, the page heap is the allocator `nested`, which takes from the pool.
--              Blocks is about blocks that are given and taken back, Pool about the filling of the pool.
-- FileManager  source/FileManager.cpp: `open` is `open_file`, from the handle that the inode gave. Table is about
--              the entries of the table.
-- Screen       source/Screen.cpp: `putChar` is `put_char`, made of `write_char`, its switch, and `settle`, what follows.
--              Cursor is about the bounds, Text about the cells that a text fills.
-- Tty          source/Tty.cpp and source/Keyboard.cpp: `handleInterrupt` is `handle_interrupt`, which feeds the
--              terminal with `feed_input`, which echoes on the screen. Lines is about the queue of input, Keys about
--              scan codes, Typing about keys that are typed and read.
-- Syscall      source/Syscall.cpp: `handle` is the dispatch, `hndl_open`, `hndl_close` and `hndl_read` the handlers on
--              files, `mmap` that on memory, about which is Areas; Stat is `newfstatat`. `call` and
--              `sys_call_executor` pass the arguments, as source/Syscall.hpp does.
-- Interrupt    source/Interrupt.cpp: `mask` and `unmask`, about which is Masks. Dispatch has `Interrupt::handle` as
--              `handle`, on the kernel as a whole: Faulting is about exceptions and unclaimed interrupts, Saving and
--              Ticking about the timer, Calling about system calls. Scopes has `DisableInterrupts` and
--              `EnableInterrupts` of source/Util.hpp.
-- DescTables   source/DescTables.cpp: `init_idt` and `init_tr`. Gates and Tss decode what they write.
-- Multiboot    source/Multiboot.cpp: `prehandleMemoryMap` is `prehandle_memory_map`, and so on. Chunks and Entries are
--              about the memory map, Modules about the frames of the module.
-- Elf          source/Elf.cpp: parts of `exec`; `push_arguments` lays the stack out. Bytes is about memory, Arguments
--              about the stack.
-- IntUtil      source/IntUtil.cpp: numbers printed in a base. Digits reads them back.
-- Base         Shared names, Boolean tests on numbers, assertions, and lists.
--
-- State is passed explicitly. A failed assertion, a panic and the reading of a null pointer are `none`.
-- Unsigned numbers keep their wrap-around where the code can reach it. Pointers are numbers, and 0 is the
-- null pointer.
--
-- Fuel: the search of `kmalloc` has one round for each byte of the heap and one more, and each block has at
-- least 8 bytes. `getNext` has 2^33 + 2 rounds, which pass over all tids twice. `updateNextTid` has one round
-- for each task and one more, `notify_all` one for each waiter and one more, `readArchive` one for each file and
-- one for the trailer, `memory_map_rounds` one for each byte of its tag and one more. `refill_pool` has one for
-- each block that is missing. `lookup` has one round for each link, and no amount is enough for a loop of links.
--
-- Not modelled: what the blocks of the heap contain, the stack and the instructions of a switch of tasks, spin locks
-- (on one processor a section with interrupts off is one step), and the parts of the kernel that have no file here:
-- start-up, the assembly of entry and return, debug output, the timer's frequency, the small containers, and the
-- handlers that replace a program. The heap does not see what mapPage does for its pages: `maps` says whether it
-- succeeds. The page directory takes the page heap as a parameter, `Allocator`: theorems that need a block say so
-- by the hypotheses `Serves` and `Refills`, by which it may take frames for itself but no frame in use. The
-- tables of the kernel that directories share are copied, and the tables of a directory that is destroyed are not
-- followed.
pub mod Base
pub mod Memory
pub mod KHeap
pub mod TaskManager
pub mod Sync
pub mod Vfs
pub mod FileManager
pub mod IntUtil
pub mod Paging
pub mod PageHeap
pub mod Screen
pub mod Tty
pub mod Syscall
pub mod Elf
pub mod DescTables
pub mod Interrupt
pub mod Multiboot
