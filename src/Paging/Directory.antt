-- ===== src/Paging/Directory.antt =====
-- source/PageDirectory.cpp and PageDirectory.hpp: mapping and unmapping pages, faults, and the kernel's part.
-- `none` is a failed assertion, a panic, or the reading of a null pointer. The page heap is a parameter, which
-- may take frames: what it maps for itself, in the kernel's directory, is not part of the directory at hand. A subtree that `map_kernel`
-- shares with the kernel's directory is copied.
use flix.Base.{
  ℕ, ◌+◌, ◌-◌, ◌*◌, ◌/◌, ◌%◌, ◌^◌, Bool, true, false, not, Option, none, some, zero, suc, assert,
  ◌>>=◌, ◌>>◌, ◌==◌, if◌then◌else◌, ◌||◌, ◌&&◌, ltb, assign,
}
use flix.Memory.{Memory, get_free_page}
use flix.Paging.{
  Supply, Entry, Tables, new_tables, index, get_page, set_page, invalid_page, invalid_phys,
  Allocator, table_entry, reach_page,
}

-- `ATTR_RW`, `ATTR_PUBLIC`, `ATTR_NOEXEC` and `ATTR_DEFER` of a set of attributes.
abbrev pub attr_rw : ℕ → Bool
attr_rw attributes = attributes % 2 == 1

abbrev pub attr_public : ℕ → Bool
attr_public attributes = attributes / 2 % 2 == 1

abbrev pub attr_noexec : ℕ → Bool
attr_noexec attributes = attributes / 4 % 2 == 1

abbrev pub attr_defer : ℕ → Bool
attr_defer attributes = attributes / 8 % 2 == 1

-- `AttributeSetter`: it sets flags, and clears none but `p`.
abbrev pub set_attributes : ℕ → Entry → Entry
set_attributes attributes e = record e {
  writable = e.writable || attr_rw attributes;
  us = e.us || attr_public attributes;
  nx = e.nx || attr_noexec attributes;
  p = e.p && not (attr_defer attributes);
}

-- `getAttributes`
abbrev pub get_attributes : Entry → ℕ
get_attributes e =
    (if e.writable then 1 else 0)
    + (if e.us then 2 else 0)
    + (if e.nx then 4 else 0)
    + (if not e.p && e.base == invalid_page then 8 else 0)

-- `m_manager`, and the base in `m_directory`.
pub record Directory : Type 0 where
  pub manager : Tables 3
  pub base : ℕ

-- `g_pagingReady`, the frames, and the state of the page heap.
pub record Machine (S : Type 0) : Type 0 where
  pub paging_ready : Bool
  pub memory : Memory
  pub heap : S

abbrev pub phys_of : Entry → ℕ
phys_of e = e.base * 2 ^ 12

-- The entry of a page that is mapped to `paddr`.
abbrev pub mapped_entry : ℕ → ℕ → Entry → Entry
mapped_entry paddr attributes e =
    set_attributes attributes (record e { p = true; base = paddr / 2 ^ 12 % 2 ^ 40 })

-- The guards of `_mapPageTo`, and its `switch`.
abbrev pub may_map : ℕ → ℕ → Bool
may_map vaddr attributes =
    not (ltb vaddr 0xffffffff00000000 && not (attr_public attributes))
    && not (ltb 0xffffffffc0000000 vaddr && attr_public attributes)
    && ltb attributes 16

module _ {S : Type 0} where
  -- `unmapPage`: the physical address that the page pointed to.
  unfoldable pub unmap_page : ℕ → Directory → Machine S → Option (ℕ × Directory)
  unmap_page vaddr d m = do
    assert m.paging_ready
    page ← get_page 3 d.manager vaddr
    e ← page
    assert e.p
    some (
      phys_of e,
      record d { manager = set_page 3 d.manager vaddr (record e { p = false; base = 0 }) },
    )

  -- `getPhysicalAddress`; `isPageMapped` is whether there is one, and `resolve` gives `INVALID_PHYS` for none.
  unfoldable pub get_physical_address : ℕ → Directory → Machine S → Option (Option ℕ)
  get_physical_address vaddr d m = do
    assert m.paging_ready
    page ← get_page 3 d.manager vaddr
    some (page >>= (λ e. if e.p then some (phys_of e) else none))

  abbrev pub is_page_mapped : ℕ → Directory → Machine S → Option Bool
  is_page_mapped vaddr d m = do
    assert m.paging_ready
    page ← get_page 3 d.manager vaddr
    some (elim page [ none ↦ false | some e ↦ e.p ])

  abbrev pub resolve : ℕ → Directory → Machine S → Option ℕ
  resolve vaddr d m = do
    assert m.paging_ready
    page ← get_page 3 d.manager vaddr
    some (elim page [ none ↦ invalid_phys | some e ↦ if e.p then phys_of e else invalid_phys ])

  -- `use`, where `current` is the directory in use and `var` an address on the stack.
  unfoldable pub use_directory : ℕ → Directory → Directory → Machine S → Option (Machine S)
  use_directory var current d m =
      if m.paging_ready
      then (do
        before ← resolve var current m
        after ← resolve var d m
        assert (before == after)
        some m)
      else some (record m { paging_ready = true })

  -- `handleFault`: whether the fault was handled.
  abbrev pub fill_deferred :
      ℕ → Entry → Directory → Machine S → Option (Bool × Directory × Machine S)
  fill_deferred vaddr e d m = do
    (page, memory) ← get_free_page m.memory
    let filled = record e { p = true; base = page % 2 ^ 40 }
    some (
      true,
      record d { manager = set_page 3 d.manager vaddr filled },
      record m { memory = memory },
    )

  unfoldable pub handle_fault : ℕ → Directory → Machine S → Option (Bool × Directory × Machine S)
  handle_fault vaddr d m = do
    page ← get_page 3 d.manager vaddr
    elim page [
      | none ↦ some (false, d, m)
      | some e ↦
          if e.p || not (e.base == invalid_page)
          then some (false, d, m)
          else fill_deferred vaddr e d m
    ]

module _ (alloc : Allocator) where
  open alloc use {State, kmalloc, refill_pool}

  -- `mapPageToF`
  unfoldable pub map_page_to_f :
      ℕ → ℕ → ℕ → Tables 3 → Supply State → Option (Tables 3 × Supply State)
  map_page_to_f vaddr paddr attributes t s = do
    (t₁, s₁) ← reach_page alloc 3 t vaddr s
    page ← get_page 3 t₁ vaddr
    e ← page
    assert (not e.p)
    some (set_page 3 t₁ vaddr (mapped_entry paddr attributes e), s₁)

  -- `_mapPageTo`
  unfoldable pub map_page_raw :
      ℕ → ℕ → ℕ → Directory → Machine State → Option (Directory × Machine State)
  unfolding map_page_to_f
  map_page_raw vaddr paddr attributes d m = do
    assert (may_map vaddr attributes)
    (t, s) ←
        map_page_to_f vaddr paddr attributes d.manager (record { heap = m.heap; memory = m.memory })
    some (record d { manager = t }, record m { heap = s.heap; memory = s.memory })

  unfoldable pub map_page_to :
      ℕ → ℕ → ℕ → Directory → Machine State → Option (Directory × Machine State)
  unfolding map_page_raw
  map_page_to vaddr paddr attributes d m = do
    assert m.paging_ready
    (d₁, m₁) ← map_page_raw vaddr paddr attributes d m
    s ← refill_pool (record { heap = m₁.heap; memory = m₁.memory })
    some (d₁, record m₁ { heap = s.heap; memory = s.memory })

  -- The physical address that `mapPage` maps to.
  abbrev pub choose_target : ℕ → Memory → Option (ℕ × Memory)
  choose_target attributes memory =
      if attr_defer attributes then some (invalid_phys, memory) else (do
        (page, memory₁) ← get_free_page memory
        assert (not (page == 2 ^ 40 - 1))
        some (page * 2 ^ 12 % 2 ^ 64, memory₁))

  unfoldable pub map_page :
      ℕ → ℕ → Directory → Machine State → Option (ℕ × Directory × Machine State)
  map_page vaddr attributes d m = do
    assert m.paging_ready
    (target, memory) ← choose_target attributes m.memory
    (d₁, m₁) ← map_page_to vaddr target attributes d (record m { memory = memory })
    some (target, d₁, m₁)

  -- The rounds of `mapRangeTo`, which go on while `vastart < vaend`.
  pub map_rounds_to : ℕ → ℕ → ℕ → ℕ → Directory → Machine State → Option (Directory × Machine State)
  map_rounds_to zero vastart pastart attributes d m = some (d, m)
  map_rounds_to (suc n) vastart pastart attributes d m = do
    (d₁, m₁) ← map_page_raw vastart pastart attributes d m
    map_rounds_to n (vastart + 0x1000) (pastart + 0x1000) attributes d₁ m₁

  pub map_range_to : ℕ → ℕ → ℕ → ℕ → Directory → Machine State → Option (Directory × Machine State)
  map_range_to vastart vaend pastart attributes d m =
      map_rounds_to ((vaend - vastart + 0xfff) / 0x1000) vastart pastart attributes d m

  -- The rounds of `mapRange`.
  unfoldable pub map_rounds :
      ℕ → ℕ → ℕ → Directory → Machine State → Option (Directory × Machine State)
  map_rounds zero vastart attributes d m = some (d, m)
  map_rounds (suc n) vastart attributes d m = do
    (target, d₁, m₁) ← map_page vastart attributes d m
    map_rounds n (vastart + 0x1000) attributes d₁ m₁

  pub map_range : ℕ → ℕ → ℕ → Directory → Machine State → Option (Directory × Machine State)
  map_range vastart vaend attributes d m =
      map_rounds ((vaend - vastart + 0xfff) / 0x1000) vastart attributes d m

  -- `createPm`
  unfoldable pub create_pm : Machine State → Option (Directory × Machine State)
  create_pm m = do
    (physical, s) ← kmalloc (record { heap = m.heap; memory = m.memory })
    some (
      record { manager = new_tables 3; base = physical / 2 ^ 12 % 2 ^ 40 },
      record m { heap = s.heap; memory = s.memory },
    )

  -- The first table below the manager, made if it is not there.
  unfoldable pub reach_next :
      Tables 3 → ℕ → Supply State → Option (Tables 2 × Tables 3 × Supply State)
  reach_next t a s = elim (t.next (index 3 a)) [
    | some u ↦ some (u, t, s)
    | none ↦ (do
      assert (not (t.entries (index 3 a)).p)
      (physical, s₁) ← kmalloc s
      some (
        new_tables 2,
        record {
          entries = assign t.entries (index 3 a) (table_entry physical (t.entries (index 3 a)));
          next = assign t.next (index 3 a) (some (new_tables 2));
        },
        s₁,
      ))
  ]

  -- `mapTo<2>`: the entry of level 2 and its table are those of `other`.
  unfoldable pub map_to : Tables 3 → Tables 3 → ℕ → Supply State → Option (Tables 3 × Supply State)
  unfolding reach_next
  map_to t other a s = do
    theirs ← other.next (index 3 a)
    (mine, t₁, s₁) ← reach_next t a s
    let shared : Tables 2 = record {
      entries = assign mine.entries (index 2 a) (theirs.entries (index 2 a));
      next = assign mine.next (index 2 a) (theirs.next (index 2 a));
    }
    some (record t₁ { next = assign t₁.next (index 3 a) (some shared) }, s₁)

  -- `mapKernel`, from the kernel's directory and `Symbols::getKernelVBase()`.
  unfoldable pub map_kernel : ℕ → Directory → Machine State → Option (Directory × Machine State)
  unfolding create_pm map_to
  map_kernel vbase kernel m = do
    (d, m₁) ← create_pm m
    (t, s) ← map_to d.manager kernel.manager vbase (record { heap = m₁.heap; memory = m₁.memory })
    let top = index 3 0xffffffff00000000
    let public : Tables 3 = record t {
      entries = assign t.entries top (record (t.entries top) { us = true });
    }
    some (record d { manager = public }, record m₁ { heap = s.heap; memory = s.memory })
