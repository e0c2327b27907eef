-- ===== src/Paging.antt =====
-- source/PageManager.hpp: page tables of any number of levels, and the entries of PageDirectory.hpp. Level 0
-- is the page table, level 3 the whole manager. A manager is the tree that hangs on it: an array is a
-- function from its indices, which stay below 512, and `m_nextLayouts[i]` is the next table or `none`.
pub mod Access
pub mod Coherent
pub mod Directory
pub mod Mapping
pub mod Laws
pub mod Faults
pub mod Defer
pub mod Ranges
pub mod Visits
pub mod Visited
pub mod Order
pub mod Kernel
pub mod Release
pub mod UserSpace
pub mod Samples
mod Tests
use flix.Base.{
  ℕ, ◌+◌, ◌-◌, ◌*◌, ◌/◌, ◌%◌, ◌^◌, Bool, true, false, not, Option, none, some, zero, suc, assert,
  ◌>>=◌, ◌>>◌, ◌==◌, if◌then◌else◌, ◌||◌, ◌&&◌, assign,
}
use flix.Memory.{Memory}

-- `PageTableEntry`, with the fields that the code reads or writes.
pub record Entry : Type 0 where
  pub p : Bool
  pub writable : Bool
  pub us : Bool
  pub nx : Bool
  pub base : ℕ

-- After `memset`.
abbrev pub empty : Entry
empty = record { p = false; writable = false; us = false; nx = false; base = 0 }

-- `INVALID_PAGE` and `INVALID_PHYS`
abbrev pub invalid_page : ℕ
invalid_page = 2 ^ 40 - 1

abbrev pub invalid_phys : ℕ
invalid_phys = (2 ^ 40 - 1) * 2 ^ 12

abbrev pub is_valid : Entry → Bool
is_valid e = e.p || e.base == invalid_page

-- The tables of a level above 0.
pub record Node (T : Type 0) : Type 0 where
  pub entries : ℕ → Entry
  pub next : ℕ → Option T

abbrev pub Tables : ℕ → Type 0
Tables zero = ℕ → Entry
Tables (suc n) = Node (Tables n)

-- The constructors: everything is zero.
abbrev pub new_tables : (n : ℕ) → Tables n
new_tables zero = λ i. empty
new_tables (suc n) = record { entries = λ i. empty; next = λ i. none }

-- `indexFromAddress` at a level.
abbrev pub index : ℕ → ℕ → ℕ
index n address = address / 2 ^ (12 + 9 * n) % 2 ^ 9

-- `getPage`: the entry, or a null pointer; `none` is the failed assertion.
pub get_page : (n : ℕ) → Tables n → ℕ → Option (Option Entry)
get_page zero t a = some (some (t (index 0 a)))
get_page (suc n) t a = elim (t.next (index (suc n) a)) [
  | none ↦ assert (not (t.entries (index (suc n) a)).p) >> some none
  | some u ↦ get_page n u a
]

-- A write through the pointer that `getPage` returned.
pub set_page : (n : ℕ) → Tables n → ℕ → Entry → Tables n
set_page zero t a e = assign t (index 0 a) e
set_page (suc n) t a e = elim (t.next (index (suc n) a)) [
  | none ↦ t
  | some u ↦ record t { next = assign t.next (index (suc n) a) (some (set_page n u a e)) }
]

-- What the page heap works on: its own state and the frames.
pub record Supply (S : Type 0) : Type 0 where
  pub heap : S
  pub memory : Memory

-- The page heap that new tables come from, `PdAllocator`: `kmalloc` gives the physical address of a block. Both
-- operations may take frames, by `getFreePage`.
pub record Allocator : Type 1 where
  pub State : Type 0
  pub kmalloc : Supply State → Option (ℕ × Supply State)
  pub refill_pool : Supply State → Option (Supply State)

-- The entry of a table that was just made, with `AttributeSetter<0x3>`.
abbrev pub table_entry : ℕ → Entry → Entry
table_entry physical e = record e {
  p = true;
  base = physical / 2 ^ 12 % 2 ^ 40;
  writable = true;
  us = true;
}

module _ (alloc : Allocator) where
  open alloc use {State, kmalloc}

  -- `getPage` with an initializer: the tables on the way to the page are there afterwards.
  pub reach_page : (n : ℕ) → Tables n → ℕ → Supply State → Option (Tables n × Supply State)
  reach_page zero t a s = some (t, s)
  reach_page (suc n) t a s = elim (t.next (index (suc n) a)) [
    | some u ↦ (do
      (u₁, s₁) ← reach_page n u a s
      some (record t { next = assign t.next (index (suc n) a) (some u₁) }, s₁))
    | none ↦ (do
      assert (not (t.entries (index (suc n) a)).p)
      (physical, s₁) ← kmalloc s
      (u, s₂) ← reach_page n (new_tables n) a s₁
      some (
        record {
          entries =
              assign t.entries (index (suc n) a)
                (table_entry physical (t.entries (index (suc n) a)));
          next = assign t.next (index (suc n) a) (some u);
        },
        s₂,
      ))
  ]
