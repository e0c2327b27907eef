-- ===== src/Paging/Kernel.antt =====
-- source/PageDirectory.cpp, `mapKernel`: what a directory shares with the kernel's.
use flix.Base.{
  ℕ, ◌/◌, ◌%◌, ◌^◌, ◌≡◌, refl, ◌∙◌, sym, ap, Bool, true, false, none, some, arith, ◌==◌,
  if◌then◌else◌, ◌&&◌, inl, inr, Bool-cases, assign,
}
use flix.Paging.{Supply, empty, Tables, new_tables, index, Allocator, table_entry}
use flix.Paging.Access.{
  entry_at, entry_at-next, entry_at-none, entry_at-congr, entry_at-new, entry_at-assign_same,
  entry_at-assign_other,
}
use flix.Paging.Coherent.{
  TakesFrames-trans, TakesFrames, IsCoherent, new_tables-IsCoherent, Serves, next-IsCoherent,
  assign-IsCoherent,
}
use flix.Paging.Directory.{Directory, Machine, create_pm, reach_next, map_to, map_kernel}

-- The addresses of the gigabyte that holds `vbase`.
abbrev pub in_kernel : ℕ → ℕ → Bool
in_kernel vbase a = (index 3 a == index 3 vbase) && (index 2 a == index 2 vbase)

-- The table below the manager, whose place `i` is that of the kernel's.
abbrev shared : Tables 2 → ℕ → Tables 2
shared theirs i = record {
  entries = assign (λ j. empty) i (theirs.entries i);
  next = assign (λ j. none) i (theirs.next i);
}

shared-IsCoherent :
    (theirs : Tables 2) (i : ℕ) → IsCoherent 2 theirs → IsCoherent 2 (shared theirs i)
shared-IsCoherent theirs i c j = elim (Bool-cases (j == i)) [
  | inl same ↦ rw same (c i)
  | inr other ↦ rw other refl
]

entry_at-shared :
    (theirs : Tables 2) (vbase a : ℕ)
    → entry_at 2 (shared theirs (index 2 vbase)) a
      ≡ (if index 2 a == index 2 vbase then entry_at 2 theirs a else empty)
entry_at-shared theirs vbase a = elim (Bool-cases (index 2 a == index 2 vbase)) [
  | inl same ↦
      let place : index 2 a ≡ index 2 vbase = ground arith in
      let next : (shared theirs (index 2 vbase)).next (index 2 a) ≡ theirs.next (index 2 a) =
        rw same (ap theirs.next (sym place)) in
      entry_at-congr 1 theirs (shared theirs (index 2 vbase)) a next ∙ rw same refl
  | inr other ↦ entry_at-none 1 (shared theirs (index 2 vbase)) a (rw other refl) ∙ rw other refl
]

-- A directory that has the kernel's entries in the gigabyte of `vbase`, and no other page.
pub record SharesKernel (vbase : ℕ) (kernel t : Tables 3) : Type 0 where
  pub coherent : IsCoherent 3 t
  pub reads : (a : ℕ) → entry_at 3 t a ≡ (if in_kernel vbase a then entry_at 3 kernel a else empty)

module _ (vbase : ℕ) (kernel : Tables 3) (theirs : Tables 2) (c : IsCoherent 3 kernel)
    (there : kernel.next (index 3 vbase) ≡ some theirs) where
  top-SharesKernel :
      (t : Tables 3)
      → ((j : ℕ)
          → t.next j ≡ assign (λ i. none) (index 3 vbase) (some (shared theirs (index 2 vbase))) j)
      → ((j : ℕ) → (j == index 3 vbase) ≡ false → (t.entries j).p ≡ false)
      → SharesKernel vbase kernel t
  top-SharesKernel t next entries = record {
    coherent =
        assign-IsCoherent 2 (new_tables 3) (new_tables-IsCoherent 3) t (index 3 vbase)
          (shared theirs (index 2 vbase))
          (shared-IsCoherent theirs (index 2 vbase)
            (next-IsCoherent 2 kernel c (index 3 vbase) theirs there))
          next (λ j ne. entries j (ground arith));
    reads = λ a. elim (Bool-cases (index 3 a == index 3 vbase)) [
      | inl same ↦
          let place : index 3 a ≡ index 3 vbase = ground arith in
          entry_at-assign_same 2 (new_tables 3) t vbase a (shared theirs (index 2 vbase)) next same
          ∙ entry_at-shared theirs vbase a
          ∙ ap (λ e. if index 2 a == index 2 vbase then e else empty)
              (sym (entry_at-next 2 kernel a theirs (ap kernel.next place ∙ there)))
          ∙ rw same refl
      | inr other ↦
          entry_at-assign_other 2 (new_tables 3) t vbase a (shared theirs (index 2 vbase)) next
            other
          ∙ entry_at-new 3 a
          ∙ rw other refl
    ];
  }

-- The manager that `map_kernel` builds, when its block of the page heap is at `physical`.
abbrev built : ℕ → Tables 2 → ℕ → Tables 3
built vbase theirs physical =
    let fresh : Tables 3 = record {
      entries = assign (λ i. empty) (index 3 vbase) (table_entry physical empty);
      next =
          assign (assign (λ i. none) (index 3 vbase) (some (new_tables 2))) (index 3 vbase)
            (some (shared theirs (index 2 vbase)));
    } in
    let top = index 3 0xffffffff00000000 in
    record fresh { entries = assign fresh.entries top (record (fresh.entries top) { us = true }) }

built-entry :
    (vbase : ℕ) (theirs : Tables 2) (physical j : ℕ)
    → (j == index 3 vbase) ≡ false
    → ((built vbase theirs physical).entries j).p ≡ false
built-entry vbase theirs physical j other = elim (Bool-cases (j == 511)) [
  | inl same ↦
      let place : j ≡ 511 = ground arith in
      let away : (511 == index 3 vbase) ≡ false =
        ap (λ i. i == index 3 vbase) (sym place) ∙ other in
      rw same (rw away refl)
  | inr off ↦ rw off (rw other refl)
]

module _ (alloc : Allocator) (serves : Serves alloc) where
  open alloc use {State}

  -- mapKernel succeeds where the kernel's directory has a table for the address. The new directory has
  -- the kernel's entries in the gigabyte of that address and no other page; only the page heap
  -- and the frames that it takes change.
  pub map_kernel-SharesKernel :
      (vbase : ℕ) (kernel : Directory) (m : Machine State) (theirs : Tables 2)
      → IsCoherent 3 kernel.manager
      → kernel.manager.next (index 3 vbase) ≡ some theirs
      → (d : Directory) × (s : Supply State) × (map_kernel alloc vbase kernel m
          ≡ some (d, record m { heap = s.heap; memory = s.memory }))
        × SharesKernel vbase kernel.manager d.manager
        × TakesFrames m.memory s.memory 2
  unfolding map_kernel create_pm map_to reach_next
  map_kernel-SharesKernel vbase kernel m theirs c there =
      let ((physical, s₁), e₁, x₁) = serves (record { heap = m.heap; memory = m.memory }) in
      let ((physical', s₂), e₂, x₂) = serves s₁ in
      let d : Directory = record {
        manager = built vbase theirs physical';
        base = physical / 2 ^ 12 % 2 ^ 40;
      } in
      (
        d,
        s₂,
        rw (e₁, there, e₂) refl,
        top-SharesKernel vbase kernel.manager theirs c there d.manager
            (λ j. elim (Bool-cases (j == index 3 vbase)) [
              | inl same ↦ rw same refl
              | inr other ↦ rw other refl
            ])
            (built-entry vbase theirs physical'),
        TakesFrames-trans m.memory s₁.memory s₂.memory 1 1 2 (omega arith) x₁ x₂,
      )
