-- ===== src/Paging/Coherent.antt =====
-- PageManager.hpp, `getEntryImpl`: tables are made on demand and map nothing at first.
use flix.Base.{
  length, ◌≤◌, ◌^◌, ◌*◌, ◌+◌, ℕ, ◌≡◌, ◌≢◌, refl, ◌∙◌, sym, ap, true, false, Option, none, some,
  zero, suc, arith, ◌==◌, assign, assign_self, assign_ne, inl, inr, Bool-cases, Option-cases,
}
use flix.Memory.Frames.{IsCounted}
use flix.Memory.{is_used, Memory}
use mathlib.Core.Path.{subst}
use flix.Paging.{
  Supply, Entry, empty, Tables, new_tables, index, get_page, set_page, Allocator, table_entry,
  reach_page,
}
use flix.Paging.Access.{
  entry_at, On, HasPage, entry_at-next, entry_at-none, entry_at-new, entry_at-assign_same,
  entry_at-assign_other, set_page-next,
}

-- An entry that is present has a next table.
abbrev pub IsCoherent : (n : ℕ) → Tables n → Type 0
IsCoherent zero t = Unit
IsCoherent (suc n) t = (i : ℕ) → On (IsCoherent n) ((t.entries i).p ≡ false) (t.next i)

pub new_tables-IsCoherent : (n : ℕ) → IsCoherent n (new_tables n)
new_tables-IsCoherent zero = tt
new_tables-IsCoherent (suc n) = λ i. refl

module _ (n : ℕ) (t : Tables (suc n)) (coherent : IsCoherent (suc n) t) where
  pub next-IsCoherent : (i : ℕ) (u : Tables n) → t.next i ≡ some u → IsCoherent n u
  next-IsCoherent i u e = subst (On (IsCoherent n) ((t.entries i).p ≡ false)) e (coherent i)

  pub absent : (i : ℕ) → t.next i ≡ none → (t.entries i).p ≡ false
  absent i e = subst (On (IsCoherent n) ((t.entries i).p ≡ false)) e (coherent i)

  -- Another table in a place, with any entry in front of it.
  pub assign-IsCoherent :
      (t' : Tables (suc n)) (i : ℕ) (u : Tables n)
      → IsCoherent n u
      → ((j : ℕ) → t'.next j ≡ assign t.next i (some u) j)
      → ((j : ℕ) → j ≢ i → (t'.entries j).p ≡ (t.entries j).p)
      → IsCoherent (suc n) t'
  assign-IsCoherent t' i u c next entries j = elim (Bool-cases (j == i)) [
    | inl same ↦
        let here : t'.next j ≡ some u = next j ∙ rw same refl in
        subst (On (IsCoherent n) ((t'.entries j).p ≡ false)) (sym here) c
    | inr other ↦
        let ne : j ≢ i = ground arith in
        let there : t'.next j ≡ t.next j = next j ∙ rw other refl in
        subst (On (IsCoherent n) ((t'.entries j).p ≡ false)) (sym there)
          (subst (λ b. On (IsCoherent n) (b ≡ false) (t.next j)) (sym (entries j ne)) (coherent j))
  ]

abbrev pub entry_of : Option Entry → Entry
entry_of none = empty
entry_of (some e) = e

-- `getPage` fails no assertion, and finds what the address maps to.
pub get_page-entry_at :
    (n : ℕ) (t : Tables n) (a : ℕ)
    → IsCoherent n t
    → (r : Option Entry) × (get_page n t a ≡ some r) × (entry_of r ≡ entry_at n t a)
unfolding get_page
get_page-entry_at zero t a c = (some (t (index 0 a)), refl, unfold entry_at in refl)
get_page-entry_at (suc n) t a c = elim (Option-cases (t.next (index (suc n) a))) [
  | inl m ↦ (
    none,
    rw (m, get_page) (rw (absent n t c (index (suc n) a) m) refl),
    sym (entry_at-none n t a m),
  )
  | inr (u, m) ↦
      let (r, e, same) = get_page-entry_at n u a (next-IsCoherent n t c (index (suc n) a) u m) in
      (r, rw (m, get_page) e, same ∙ sym (entry_at-next n t a u m))
]

pub get_page-HasPage :
    (n : ℕ) (t : Tables n) (a : ℕ) → HasPage n t a → get_page n t a ≡ some (some (entry_at n t a))
unfolding get_page
get_page-HasPage zero t a h = unfold entry_at in refl
get_page-HasPage (suc n) t a h = elim (Option-cases (t.next (index (suc n) a))) [
  | inl m ↦ let bad = rw m at h in absurd bad
  | inr (u, m) ↦
      let has : HasPage n u a = rw m at h in
      rw (m, get_page)
        (get_page-HasPage n u a has ∙ ap (λ x. some (some x)) (sym (entry_at-next n t a u m)))
]

pub set_page-IsCoherent :
    (n : ℕ) (t : Tables n) (a : ℕ) (e : Entry)
    → IsCoherent n t
    → HasPage n t a
    → IsCoherent n (set_page n t a e)
set_page-IsCoherent zero t a e c h = tt
set_page-IsCoherent (suc n) t a e c h = elim (Option-cases (t.next (index (suc n) a))) [
  | inl m ↦ let bad = rw m at h in absurd bad
  | inr (u, m) ↦
      let has : HasPage n u a = rw m at h in
      subst (IsCoherent (suc n)) (sym (set_page-next n t a e u m)) (
        assign-IsCoherent n t c
          (record t { next = assign t.next (index (suc n) a) (some (set_page n u a e)) })
          (index (suc n) a) (set_page n u a e)
          (set_page-IsCoherent n u a e (next-IsCoherent n t c (index (suc n) a) u m) has)
          (λ j. refl) (λ j ne. refl))
]

-- What `getPage` with an initializer leaves.
pub record Reached (n : ℕ) (t : Tables n) (a : ℕ) (t' : Tables n) : Type 0 where
  pub coherent : IsCoherent n t'
  pub has : HasPage n t' a
  pub maps : (b : ℕ) → entry_at n t' b ≡ entry_at n t b

-- What `n` operations of the page heap do to the frames: those in use stay in use, their number stays right, and the
-- vector of frames grows by 2^10 at most with each.
pub record TakesFrames (m m' : Memory) (n : ℕ) : Type 0 where
  pub keeps : (q : ℕ) → is_used m q ≡ true → is_used m' q ≡ true
  pub counts : IsCounted m → IsCounted m'
  pub grows : length m'.frames ≤ length m.frames + n * 2 ^ 10

pub TakesFrames-refl : (m : Memory) (n : ℕ) → TakesFrames m m n
TakesFrames-refl m n = record { keeps = λ q used. used; counts = λ c. c; grows = omega arith }

pub TakesFrames-trans :
    (m m₁ m' : Memory) (i j n : ℕ)
    → i + j ≤ n
    → TakesFrames m m₁ i
    → TakesFrames m₁ m' j
    → TakesFrames m m' n
TakesFrames-trans m m₁ m' i j n fits x y =
    let low = x.grows in
    let high = y.grows in
    record {
      keeps = λ q used. y.keeps q (x.keeps q used);
      counts = λ c. y.counts (x.counts c);
      grows = omega arith;
    }

-- A frame that is free afterwards was free before.
pub TakesFrames-free :
    (m m' : Memory) (n q : ℕ) → TakesFrames m m' n → is_used m' q ≡ false → is_used m q ≡ false
TakesFrames-free m m' n q x free = elim (Bool-cases (is_used m q)) [
  | inl used ↦ let clash = sym (x.keeps q used) ∙ free in cc
  | inr before ↦ before
]

-- The page heap always has a block, and always fills its pool.
abbrev pub Serves : Allocator → Type 0
Serves alloc =
    (s : Supply alloc.State)
    → (r : ℕ × Supply alloc.State) × (alloc.kmalloc s ≡ some r)
      × TakesFrames s.memory (r.1).memory 1

abbrev pub Refills : Allocator → Type 0
Refills alloc =
    (s : Supply alloc.State)
    → (s' : Supply alloc.State) × (alloc.refill_pool s ≡ some s') × TakesFrames s.memory s'.memory 1

module _ (n : ℕ) (t : Tables (suc n)) (coherent : IsCoherent (suc n) t) (a : ℕ) where
  -- The next table stands in its place, and the entry in front of it is any.
  Reached-next :
      (t' : Tables (suc n)) (u : Tables n)
      → IsCoherent n u
      → HasPage n u a
      → ((b : ℕ)
          → (index (suc n) b == index (suc n) a) ≡ true
          → entry_at n u b ≡ entry_at (suc n) t b)
      → ((j : ℕ) → t'.next j ≡ assign t.next (index (suc n) a) (some u) j)
      → ((j : ℕ) → j ≢ index (suc n) a → (t'.entries j).p ≡ (t.entries j).p)
      → Reached (suc n) t a t'
  Reached-next t' u c has maps next entries = record {
    coherent = assign-IsCoherent n t coherent t' (index (suc n) a) u c next entries;
    has =
        subst (On (λ u. HasPage n u a) ⊥)
          (sym (next (index (suc n) a) ∙ assign_self t.next (index (suc n) a) (some u))) has;
    maps = λ b. elim (Bool-cases (index (suc n) b == index (suc n) a)) [
      | inl same ↦ entry_at-assign_same n t t' a b u next same ∙ maps b same
      | inr other ↦ entry_at-assign_other n t t' a b u next other
    ];
  }

module _ (alloc : Allocator) (serves : Serves alloc) where
  open alloc use {State, kmalloc}

  pub reach_page-Reached :
      (n : ℕ) (t : Tables n) (a : ℕ) (s : Supply State)
      → IsCoherent n t
      → (t' : Tables n) × (s' : Supply State) × (reach_page alloc n t a s ≡ some (t', s'))
        × Reached n t a t'
        × TakesFrames s.memory s'.memory n
  unfolding reach_page
  reach_page-Reached zero t a s c = (
    t,
    s,
    refl,
    record { coherent = tt; has = tt; maps = λ b. refl },
    TakesFrames-refl s.memory 0,
  )
  reach_page-Reached (suc n) t a s c = elim (Option-cases (t.next (index (suc n) a))) [
    | inr (u, m) ↦
        let (u₁, s₁, e, r, x) =
          reach_page-Reached n u a s (next-IsCoherent n t c (index (suc n) a) u m) in
        let t' : Tables (suc n) = record t { next = assign t.next (index (suc n) a) (some u₁) } in
        (
          t',
          s₁,
          rw (m, reach_page) (rw e refl),
          Reached-next n t c a t' u₁ r.coherent r.has
              (λ b same.
                let place : index (suc n) b ≡ index (suc n) a = ground arith in
                r.maps b ∙ sym (entry_at-next n t b u (ap t.next place ∙ m)))
              (λ j. refl) (λ j ne. refl),
          TakesFrames-trans s.memory s₁.memory s₁.memory n 0 (suc n) (omega arith) x
              (TakesFrames-refl s₁.memory 0),
        )
    | inl m ↦
        let ((physical, s₁), e₁, x₁) = serves s in
        let (u, s₂, e, r, x) = reach_page-Reached n (new_tables n) a s₁ (new_tables-IsCoherent n) in
        let front = table_entry physical (t.entries (index (suc n) a)) in
        let t' : Tables (suc n) = record {
          entries = assign t.entries (index (suc n) a) front;
          next = assign t.next (index (suc n) a) (some u);
        } in
        (
          t',
          s₂,
          rw (m, reach_page) (rw (absent n t c (index (suc n) a) m, e₁, e) refl),
          Reached-next n t c a t' u r.coherent r.has
              (λ b same.
                let place : index (suc n) b ≡ index (suc n) a = ground arith in
                r.maps b ∙ entry_at-new n b ∙ sym (entry_at-none n t b (ap t.next place ∙ m)))
              (λ j. refl)
              (λ j ne. ap (λ x. x.p) (assign_ne t.entries (index (suc n) a) j front ne)),
          TakesFrames-trans s.memory s₁.memory s₂.memory 1 n (suc n) (omega arith) x₁ x,
        )
  ]
