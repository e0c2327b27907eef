-- ===== src/Paging/Samples.antt =====
-- Directories for the runs of the paging code.
use flix.Base.{
  ◌>>=◌, >>=-some, ℕ, ◌+◌, ◌*◌, ◌≡◌, refl, ◌∙◌, sym, ap, true, false, none, some, suc, arith, ◌==◌,
  [], ◌∷◌, inl, inr, Bool-cases, assign,
}
use flix.Memory.Growth.{get_free_page-length}
use flix.Memory.Alloc.{get_free_page-Allocates}
use flix.Memory.{get_free_page, is_used}
use flix.Paging.{Entry, empty, Tables, new_tables, index, Allocator, table_entry}
use flix.Paging.Access.{entry_at, entry_at-next, entry_at-none}
use flix.Paging.Coherent.{TakesFrames-refl, Refills, IsCoherent, Serves, assign-IsCoherent}
use flix.Paging.Directory.{Directory, Machine}
use flix.Paging.UserSpace.{IsMapped, OwnsFrames}

-- A page heap that takes a frame for each block.
abbrev pub blocks : Allocator
blocks = record {
  State = ℕ;
  kmalloc = λ s. (do
    (page, memory) ← get_free_page s.memory
    some (page * 0x1000, record { heap = s.heap + 1; memory = memory }));
  refill_pool = some;
}

pub blocks-Serves : Serves blocks
blocks-Serves s =
    let (page, memory, a) = get_free_page-Allocates s.memory in
    let (low, grown) = get_free_page-length s.memory memory page a.runs in
    (
      (page * 0x1000, record { heap = s.heap + 1; memory = memory }),
      >>=-some _ _ a.runs,
      record {
        keeps = λ q used. ground (arith, a.marked.reads q);
        counts = a.marked.keeps;
        grows = omega arith;
      },
    )

pub blocks-Refills : Refills blocks
blocks-Refills s = (s, refl, TakesFrames-refl s.memory 1)

-- Frames 0, 1 and 3 are used.
abbrev pub machine : Machine ℕ
machine = record {
  paging_ready = true;
  memory = record { frames = true ∷ true ∷ false ∷ true ∷ []; used_page_count = 3 };
  heap = 5;
}

abbrev pub fresh : Directory
fresh = record { manager = new_tables 3; base = 9 }

-- A table with one entry and one next table.
abbrev pub solo : (n : ℕ) → ℕ → Tables n → Tables (suc n)
solo n i u = record {
  entries = assign (λ j. empty) i (table_entry 0x3000 empty);
  next = assign (λ j. none) i (some u);
}

pub solo-IsCoherent : (n i : ℕ) (u : Tables n) → IsCoherent n u → IsCoherent (suc n) (solo n i u)
solo-IsCoherent n i u c j = elim (Bool-cases (j == i)) [
  | inl same ↦ rw same c
  | inr other ↦ rw other refl
]

-- What the table maps lies under its index.
solo-entry :
    (n i : ℕ) (u : Tables n) (a : ℕ)
    → (entry_at (suc n) (solo n i u) a).p ≡ true
    → (index (suc n) a ≡ i) × (entry_at (suc n) (solo n i u) a ≡ entry_at n u a)
solo-entry n i u a present = elim (Bool-cases (index (suc n) a == i)) [
  | inl same ↦ (ground arith, entry_at-next n (solo n i u) a u (rw same refl))
  | inr other ↦
      let gone = entry_at-none n (solo n i u) a (rw other refl) in
      let bad : false ≡ true = sym (ap (λ e. e.p) gone) ∙ present in cc
]

abbrev pub page : ℕ → Entry
page frame = record { p = true; writable = true; us = true; nx = false; base = frame }

-- One page of the kernel, at its base address.
abbrev pub kernel_half : Tables 2
kernel_half = solo 1 511 (solo 0 0 (assign (λ j. empty) 0 (page 3)))

abbrev pub kernel : Directory
kernel = record { manager = solo 2 511 kernel_half; base = 1 }

pub kernel-IsCoherent : IsCoherent 3 kernel.manager
kernel-IsCoherent =
    solo-IsCoherent 2 511 kernel_half (solo-IsCoherent 1 511 _ (solo-IsCoherent 0 0 _ tt))

abbrev pub user_table : ℕ → Entry
user_table = assign (λ j. empty) 1 (page 1)

abbrev pub user_half : Tables 2
user_half = solo 1 0 (solo 0 0 user_table)

-- The kernel's half, and the user page 0x1000.
abbrev pub process : Directory
process = record {
  manager = record {
    entries = assign kernel.manager.entries 0 (table_entry 0x3000 empty);
    next = assign kernel.manager.next 0 (some user_half);
  };
  base = 2;
}

pub process-IsCoherent : IsCoherent 3 process.manager
process-IsCoherent =
    assign-IsCoherent 2 kernel.manager kernel-IsCoherent process.manager 0 user_half
      (solo-IsCoherent 1 0 _ (solo-IsCoherent 0 0 _ tt)) (λ j. refl)
      (λ j ne. let off : (j == 0) ≡ false = ground arith in rw off refl)

-- 0x1000 is the only page of the user's half.
process-page : (a : ℕ) → IsMapped process.manager a → a ≡ 0x1000
process-page a h =
    let low = h.lower in
    let aligned = h.aligned in
    elim (Bool-cases (index 3 a == 0)) [
      | inl first ↦
          let e₃ = entry_at-next 2 process.manager a user_half (rw first refl) in
          let (i₂, e₂) = solo-entry 1 0 _ a (sym (ap (λ e. e.p) e₃) ∙ h.present) in
          let (i₁, e₁) = solo-entry 0 0 user_table a (sym (ap (λ e. e.p) (e₃ ∙ e₂)) ∙ h.present) in
          let leaf : (entry_at 0 user_table a).p ≡ true =
            sym (ap (λ e. e.p) (e₃ ∙ e₂ ∙ e₁)) ∙ h.present in
          elim (Bool-cases (index 0 a == 1)) [
            | inl here ↦ ground arith
            | inr off ↦
                let shown : (user_table (index 0 a)).p ≡ true = unfold entry_at in leaf in
                let bad : false ≡ true = rw off at shown in cc
          ]
      | inr later ↦
          let top : (index 3 a == 511) ≡ false = ground arith in
          let gone = entry_at-none 2 process.manager a (rw later (rw top refl)) in
          let bad : false ≡ true = sym (ap (λ e. e.p) gone) ∙ h.present in cc
    ]

pub process-OwnsFrames : OwnsFrames process.manager machine.memory
process-OwnsFrames = record {
  used = λ a h.
      ap (λ x. is_used machine.memory (entry_at 3 process.manager x).base) (process-page a h)
      ∙ unfold is_used in unfold entry_at in refl;
  apart = λ a b h h' same. process-page a h ∙ sym (process-page b h');
}
