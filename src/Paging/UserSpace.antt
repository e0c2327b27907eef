-- ===== src/Paging/UserSpace.antt =====
-- source/PageDirectory.cpp, `unmapUserSpace`: what becomes of the user pages and of their frames.
use flix.Base.{
  ℕ, ◌%◌, ◌^◌, ◌<◌, ◌≡◌, ◌≢◌, refl, ◌∙◌, ap, true, false, Option, none, some, ◌==◌, if◌then◌else◌,
  ◌>>=◌, ◌>>◌, assert, assert-true, >>=-some, ==-refl,
}
use flix.Memory.{Memory, is_used}
use flix.Memory.Frames.{IsCounted}
use flix.Paging.{Entry, Tables, invalid_phys}
use flix.Paging.Access.{entry_at}
use flix.Paging.Coherent.{IsCoherent, get_page-entry_at, entry_of}
use flix.Paging.Directory.{Directory, Machine, use_directory, resolve, phys_of}
use flix.Paging.Visits.{Visit}

-- An address of a page of the user's half that is present.
pub record IsMapped (t : Tables 3) (a : ℕ) : Type 0 where
  pub lower : a < 2 ^ 47
  pub aligned : a % 2 ^ 12 ≡ 0
  pub present : (entry_at 3 t a).p ≡ true

-- The present user pages hold used frames, each page a frame of its own.
pub record OwnsFrames (t : Tables 3) (m : Memory) : Type 0 where
  pub used : (a : ℕ) → IsMapped t a → is_used m (entry_at 3 t a).base ≡ true
  pub apart :
      (a b : ℕ)
      → IsMapped t a
      → IsMapped t b
      → (entry_at 3 t a).base ≡ (entry_at 3 t b).base
      → a ≡ b

-- The frames of the present user pages are free in `m'`, and those that others use in `m` are still in use.
pub record Released (t : Tables 3) (m m' : Memory) : Type 0 where
  pub freed : (a : ℕ) → IsMapped t a → is_used m' (entry_at 3 t a).base ≡ false
  pub kept :
      (q : ℕ)
      → ((a : ℕ) → IsMapped t a → (entry_at 3 t a).base ≢ q)
      → is_used m q ≡ true
      → is_used m' q ≡ true
  pub counted : IsCounted m → IsCounted m'

module _ (t : Tables 3) where
  visit_of : ℕ → Visit
  visit_of a = record { address = a; entry = entry_at 3 t a }

module _ {S : Type 0} (m : Machine S) (ready : m.paging_ready ≡ true) where
  target_of : Entry → ℕ
  target_of e = if e.p then phys_of e else invalid_phys

  resolve-entry_at :
      (a : ℕ) (d : Directory)
      → IsCoherent 3 d.manager
      → resolve a d m ≡ some (target_of (entry_at 3 d.manager a))
  unfolding target_of
  resolve-entry_at a d c =
      let (r, e, same) = get_page-entry_at 3 d.manager a c in
      assert-true _ _ ready ∙ >>=-some _ _ e ∙ found r ∙ ap (λ x. some (target_of x)) same
    where
      found :
          (r : Option Entry)
          → some (elim r [ none ↦ invalid_phys | some e ↦ if e.p then phys_of e else invalid_phys ])
            ≡ some (target_of (entry_of r))
      found none = refl
      found (some e) = refl

  -- The stack is where it was.
  pub use_directory-same :
      (var : ℕ) (current d : Directory)
      → IsCoherent 3 current.manager
      → IsCoherent 3 d.manager
      → entry_at 3 current.manager var ≡ entry_at 3 d.manager var
      → use_directory var current d m ≡ some m
  unfolding use_directory
  use_directory-same var current d c c' same =
      ap
        (λ b.
          if b
          then (do
            before ← resolve var current m
            after ← resolve var d m
            assert (before == after)
            some m)
          else some (record m { paging_ready = true }))
        ready
      ∙ >>=-some _ _ (resolve-entry_at var current c)
      ∙ >>=-some _ _ (resolve-entry_at var d c')
      ∙ assert-true _ _ (
          ap (λ x. target_of x == target_of (entry_at 3 d.manager var)) same
          ∙ ==-refl (target_of (entry_at 3 d.manager var)))
