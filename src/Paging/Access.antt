-- ===== src/Paging/Access.antt =====
-- PageManager.hpp: what a manager maps, as a function from addresses to entries.
use flix.Base.{
  ℕ, ◌≡◌, ◌≢◌, refl, ◌∙◌, sym, ap, Bool, true, false, Option, none, some, zero, suc, arith, ◌==◌,
  if◌then◌else◌, ◌&&◌, assign, assign_self, inl, inr, Bool-cases, Option-cases, ==-refl,
}
use mathlib.Core.Path.{subst}
use flix.Paging.{Entry, empty, Tables, new_tables, index, set_page}

-- The entry of an address; where a table is missing, the empty one.
unfoldable pub entry_at : (n : ℕ) → Tables n → ℕ → Entry
entry_at zero t a = t (index 0 a)
entry_at (suc n) t a = elim (t.next (index (suc n) a)) [ none ↦ empty | some u ↦ entry_at n u a ]

-- Two addresses with the same entry.
unfoldable pub same_page : ℕ → ℕ → ℕ → Bool
same_page zero a b = index 0 b == index 0 a
same_page (suc n) a b = (index (suc n) b == index (suc n) a) && same_page n a b

abbrev pub On {ℓ} : {A : Type 0} → (A → Type ℓ) → Type ℓ → Option A → Type ℓ
On P q none = q
On P q (some u) = P u

-- All the tables on the way to an address are there.
abbrev pub HasPage : (n : ℕ) → Tables n → ℕ → Type 0
HasPage zero t a = Unit
HasPage (suc n) t a = On (λ u. HasPage n u a) ⊥ (t.next (index (suc n) a))

pub entry_at-next :
    (n : ℕ) (t : Tables (suc n)) (a : ℕ) (u : Tables n)
    → t.next (index (suc n) a) ≡ some u
    → entry_at (suc n) t a ≡ entry_at n u a
unfolding entry_at
entry_at-next n t a u e = rw (e, entry_at) refl

pub entry_at-none :
    (n : ℕ) (t : Tables (suc n)) (a : ℕ)
    → t.next (index (suc n) a) ≡ none
    → entry_at (suc n) t a ≡ empty
unfolding entry_at
entry_at-none n t a e = rw (e, entry_at) refl

pub entry_at-new : (n a : ℕ) → entry_at n (new_tables n) a ≡ empty
unfolding entry_at
entry_at-new zero a = refl
entry_at-new (suc n) a = refl

same_page-index : (n a b : ℕ) → same_page n a b ≡ true → index n b ≡ index n a
unfolding same_page
same_page-index zero a b h = ground arith
same_page-index (suc n) a b h = ground arith

same_page-true :
    (n a b : ℕ) (x y : Entry)
    → (index (suc n) b == index (suc n) a) ≡ true
    → (if same_page (suc n) a b then x else y) ≡ (if same_page n a b then x else y)
unfolding same_page
same_page-true n a b x y h = rw h refl

same_page-false :
    (n a b : ℕ) (x y : Entry)
    → (index (suc n) b == index (suc n) a) ≡ false
    → (if same_page (suc n) a b then x else y) ≡ y
unfolding same_page
same_page-false n a b x y h = rw h refl

-- Only the next table on the way counts.
pub entry_at-congr :
    (n : ℕ) (t t' : Tables (suc n)) (a : ℕ)
    → t'.next (index (suc n) a) ≡ t.next (index (suc n) a)
    → entry_at (suc n) t' a ≡ entry_at (suc n) t a
unfolding entry_at
entry_at-congr n t t' a e = rw (e, entry_at) refl

pub set_page-next :
    (n : ℕ) (t : Tables (suc n)) (a : ℕ) (e : Entry) (u : Tables n)
    → t.next (index (suc n) a) ≡ some u
    → set_page (suc n) t a e
      ≡ record t { next = assign t.next (index (suc n) a) (some (set_page n u a e)) }
unfolding set_page
set_page-next n t a e u m = rw (m, set_page) refl

-- A next table that is put in its place stands for the addresses of its index.
pub entry_at-assign_same :
    (n : ℕ) (t t' : Tables (suc n)) (a b : ℕ) (u : Tables n)
    → ((i : ℕ) → t'.next i ≡ assign t.next (index (suc n) a) (some u) i)
    → (index (suc n) b == index (suc n) a) ≡ true
    → entry_at (suc n) t' b ≡ entry_at n u b
entry_at-assign_same n t t' a b u next same =
    entry_at-next n t' b u (next (index (suc n) b) ∙ rw same refl)

pub entry_at-assign_other :
    (n : ℕ) (t t' : Tables (suc n)) (a b : ℕ) (u : Tables n)
    → ((i : ℕ) → t'.next i ≡ assign t.next (index (suc n) a) (some u) i)
    → (index (suc n) b == index (suc n) a) ≡ false
    → entry_at (suc n) t' b ≡ entry_at (suc n) t b
entry_at-assign_other n t t' a b u next other =
    entry_at-congr n t t' b (next (index (suc n) b) ∙ rw other refl)

-- A write changes the entry of the addresses on that page and no other.
pub entry_at-set_page :
    (n : ℕ) (t : Tables n) (a b : ℕ) (e : Entry)
    → HasPage n t a
    → entry_at n (set_page n t a e) b ≡ (if same_page n a b then e else entry_at n t b)
entry_at-set_page zero t a b e h = unfold set_page in unfold entry_at in unfold same_page in refl
entry_at-set_page (suc n) t a b e h = elim (Option-cases (t.next (index (suc n) a))) [
  | inl m ↦ let bad = rw m at h in absurd bad
  | inr (u, m) ↦
      let has : HasPage n u a = rw m at h in
      let t' : Tables (suc n) = record t {
        next = assign t.next (index (suc n) a) (some (set_page n u a e));
      } in
      ap (λ x. entry_at (suc n) x b) (set_page-next n t a e u m)
      ∙ elim (Bool-cases (index (suc n) b == index (suc n) a)) [
        | inl same ↦
            let place : index (suc n) b ≡ index (suc n) a = ground arith in
            entry_at-assign_same n t t' a b (set_page n u a e) (λ i. refl) same
            ∙ entry_at-set_page n u a b e has
            ∙ ap (λ x. if same_page n a b then e else x)
                (sym (entry_at-next n t b u (ap t.next place ∙ m)))
            ∙ sym (same_page-true n a b _ _ same)
        | inr other ↦
            entry_at-assign_other n t t' a b (set_page n u a e) (λ i. refl) other
            ∙ sym (same_page-false n a b _ _ other)
      ]
]

pub same_page_refl : (n a : ℕ) → same_page n a a ≡ true
unfolding same_page
same_page_refl zero a = ==-refl (index 0 a)
same_page_refl (suc n) a = rw (==-refl (index (suc n) a)) (same_page_refl n a)

pub HasPage-set_page :
    (n : ℕ) (t : Tables n) (a : ℕ) (e : Entry) → HasPage n t a → HasPage n (set_page n t a e) a
HasPage-set_page zero t a e h = tt
HasPage-set_page (suc n) t a e h = elim (Option-cases (t.next (index (suc n) a))) [
  | inl m ↦ let bad = rw m at h in absurd bad
  | inr (u, m) ↦
      let has : HasPage n u a = rw m at h in
      subst (λ x. HasPage (suc n) x a) (sym (set_page-next n t a e u m))
        (subst (On (λ u. HasPage n u a) ⊥)
          (sym (assign_self t.next (index (suc n) a) (some (set_page n u a e))))
          (HasPage-set_page n u a e has))
]

-- An entry that is not empty stands in a table.
pub HasPage-base : (n : ℕ) (t : Tables n) (a : ℕ) → (entry_at n t a).base ≢ 0 → HasPage n t a
HasPage-base zero t a ne = tt
HasPage-base (suc n) t a ne = elim (Option-cases (t.next (index (suc n) a))) [
  | inl m ↦ absurd (ne (ap (λ e. e.base) (entry_at-none n t a m)))
  | inr (u, m) ↦
      let deeper : HasPage n u a =
        HasPage-base n u a (λ z. ne (ap (λ e. e.base) (entry_at-next n t a u m) ∙ z)) in
      subst (On (λ u. HasPage n u a) ⊥) (sym m) deeper
]

pub entry_at_same :
    (n : ℕ) (t : Tables n) (a b : ℕ) → same_page n a b ≡ true → entry_at n t b ≡ entry_at n t a
unfolding same_page
entry_at_same zero t a b h = unfold entry_at in ap t (ground arith)
entry_at_same (suc n) t a b h =
    let place : index (suc n) b ≡ index (suc n) a = ground arith in
    let lower : same_page n a b ≡ true = ground arith in
    elim (Option-cases (t.next (index (suc n) a))) [
      | inl m ↦ entry_at-none n t b (ap t.next place ∙ m) ∙ sym (entry_at-none n t a m)
      | inr (u, m) ↦
          entry_at-next n t b u (ap t.next place ∙ m)
          ∙ entry_at_same n u a b lower
          ∙ sym (entry_at-next n t a u m)
    ]
