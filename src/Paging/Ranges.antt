-- ===== src/Paging/Ranges.antt =====
-- source/PageDirectory.cpp, `mapRange` with `ATTR_DEFER`: pages in a row that wait for their frames.
use flix.Base.{
  ℕ, zero, suc, ◌+◌, ◌*◌, ◌/◌, ◌%◌, ◌^◌, ◌<◌, ◌≤◌, ◌≡◌, ◌≢◌, refl, ◌∙◌, ap, true, false, some,
  arith, >>=-some, inl, inr, Bool-cases,
}
use flix.Paging.{Supply, Entry, Tables, index, invalid_phys, Allocator}
use flix.Paging.Access.{entry_at, same_page}
use flix.Paging.Coherent.{
  TakesFrames-trans, TakesFrames-refl, TakesFrames, Refills, IsCoherent, Serves,
}
use flix.Paging.Directory.{Directory, Machine, attr_defer, mapped_entry, may_map, map_rounds}
use flix.Paging.Mapping.{Mapped, Mapped-self}
use flix.Paging.Faults.{is_deferred}
use flix.Paging.Defer.{map_page-deferred}

-- Addresses of 48 bits are on the same page if their page numbers are.
pub same_page-number :
    (a b : ℕ) → same_page 3 a b ≡ true → b / 2 ^ 12 % 2 ^ 36 ≡ a / 2 ^ 12 % 2 ^ 36
unfolding same_page
same_page-number a b h =
    let i₀ : index 0 b ≡ index 0 a = ground arith in
    let i₁ : index 1 b ≡ index 1 a = ground arith in
    let i₂ : index 2 b ≡ index 2 a = ground arith in
    let i₃ : index 3 b ≡ index 3 a = ground arith in omega arith

pub same_page-eq-false :
    (a b : ℕ) → a < 2 ^ 48 → b < 2 ^ 48 → a / 2 ^ 12 ≢ b / 2 ^ 12 → same_page 3 a b ≡ false
same_page-eq-false a b h h' ne = elim (Bool-cases (same_page 3 a b)) [
  | inl same ↦ let number = same_page-number a b same in absurd (ne (omega arith))
  | inr other ↦ other
]

pub same_page_base : (a : ℕ) → same_page 3 (a / 2 ^ 12 * 2 ^ 12) a ≡ true
unfolding same_page
same_page_base a =
    let i₀ : index 0 a ≡ index 0 (a / 2 ^ 12 * 2 ^ 12) = omega arith in
    let i₁ : index 1 a ≡ index 1 (a / 2 ^ 12 * 2 ^ 12) = omega arith in
    let i₂ : index 2 a ≡ index 2 (a / 2 ^ 12 * 2 ^ 12) = omega arith in
    let i₃ : index 3 a ≡ index 3 (a / 2 ^ 12 * 2 ^ 12) = omega arith in ground arith

-- `t'` has `n` deferred pages from `start` on, and is `t` elsewhere.
pub record Reserves (n start : ℕ) (t t' : Tables 3) : Type 0 where
  pub coherent : IsCoherent 3 t'
  pub waits : (j : ℕ) → j < n → is_deferred (entry_at 3 t' (start + j * 2 ^ 12)) ≡ true
  pub others :
      (b : ℕ)
      → ((j : ℕ) → j < n → same_page 3 (start + j * 2 ^ 12) b ≡ false)
      → entry_at 3 t' b ≡ entry_at 3 t b

mapped_entry-deferred :
    (attributes : ℕ) (e : Entry)
    → attr_defer attributes ≡ true
    → is_deferred (mapped_entry invalid_phys attributes e) ≡ true
mapped_entry-deferred attributes e defer = rw defer refl

Reserves-suc :
    (n start : ℕ) (e : Entry) (t t₁ t' : Tables 3)
    → start + suc n * 2 ^ 12 ≤ 2 ^ 48
    → is_deferred e ≡ true
    → Mapped start e t t₁
    → Reserves n (start + 2 ^ 12) t₁ t'
    → Reserves (suc n) start t t'
Reserves-suc n start e t t₁ t' fits waits w r = record {
  coherent = r.coherent;
  waits = elim [
    | zero ↦ λ _.
        ap (λ a. is_deferred (entry_at 3 t' a)) (omega arith)
        ∙ ap is_deferred (
            r.others start (λ j less.
              same_page-eq-false (start + 2 ^ 12 + j * 2 ^ 12) start (omega arith) (omega arith)
                (λ c. omega arith))
            ∙ Mapped-self t t₁ start e w)
        ∙ waits
    | suc j ↦
        λ less. ap (λ a. is_deferred (entry_at 3 t' a)) (omega arith) ∙ r.waits j (omega arith)
  ];
  others = λ b away.
      let here : same_page 3 start b ≡ false =
        ap (λ a. same_page 3 a b) (omega arith) ∙ away 0 (omega arith) in
      r.others b (λ j less. ap (λ a. same_page 3 a b) (omega arith) ∙ away (suc j) (omega arith))
      ∙ w.reads b
      ∙ rw here refl;
}

module _ (alloc : Allocator) (serves : Serves alloc) where
  open alloc use {State}

  module _ (refills : Refills alloc) where
    pub map_rounds-Reserves :
        (n start attributes : ℕ) (d : Directory) (m : Machine State)
        → start + n * 2 ^ 12 ≤ 2 ^ 48
        → m.paging_ready ≡ true
        → attr_defer attributes ≡ true
        → ((a : ℕ) → a < 2 ^ 48 → may_map a attributes ≡ true)
        → IsCoherent 3 d.manager
        → ((j : ℕ) → j < n → (entry_at 3 d.manager (start + j * 2 ^ 12)).p ≡ false)
        → (t : Tables 3) × (s : Supply State) × (map_rounds alloc n start attributes d m
            ≡ some (record d { manager = t }, record m { heap = s.heap; memory = s.memory }))
          × Reserves n start d.manager t
          × TakesFrames m.memory s.memory (n * 4)
    unfolding map_rounds
    map_rounds-Reserves zero start attributes d m fits ready defer allowed c free = (
      d.manager,
      (record { heap = m.heap; memory = m.memory }),
      refl,
      record { coherent = c; waits = λ j less. absurd (omega arith); others = λ b away. refl },
      TakesFrames-refl m.memory 0,
    )
    map_rounds-Reserves (suc n) start attributes d m fits ready defer allowed c free =
        let entry = mapped_entry invalid_phys attributes (entry_at 3 d.manager start) in
        let gone : (entry_at 3 d.manager start).p ≡ false =
          ap (λ a. (entry_at 3 d.manager a).p) (omega arith) ∙ free 0 (omega arith) in
        let (t₁, s₁, e, w, x) =
          map_page-deferred alloc serves refills start attributes d m ready
            (allowed start (omega arith)) defer c gone in
        let later : (j : ℕ) → j < n → (entry_at 3 t₁ (start + 2 ^ 12 + j * 2 ^ 12)).p ≡ false =
          λ j less.
            let away : same_page 3 start (start + 2 ^ 12 + j * 2 ^ 12) ≡ false =
              same_page-eq-false start (start + 2 ^ 12 + j * 2 ^ 12) (omega arith) (omega arith)
                (λ c. omega arith) in
            let same : entry_at 3 t₁ (start + 2 ^ 12 + j * 2 ^ 12)
                ≡ entry_at 3 d.manager (start + 2 ^ 12 + j * 2 ^ 12) =
              w.reads (start + 2 ^ 12 + j * 2 ^ 12) ∙ rw away refl in
            ap (λ e. e.p) same
            ∙ ap (λ a. (entry_at 3 d.manager a).p) (omega arith)
            ∙ free (suc j) (omega arith) in
        let (t', s', e', r, y) =
          map_rounds-Reserves n (start + 2 ^ 12) attributes (record d { manager = t₁ })
            (record m { heap = s₁.heap; memory = s₁.memory }) (omega arith) ready defer allowed
            w.coherent later in
        (
          t',
          s',
          >>=-some _ _ e ∙ e',
          Reserves-suc n start entry d.manager t₁ t' fits
              (mapped_entry-deferred attributes (entry_at 3 d.manager start) defer) w r,
          TakesFrames-trans m.memory s₁.memory s'.memory 4 (n * 4) (suc n * 4) (omega arith) x y,
        )
