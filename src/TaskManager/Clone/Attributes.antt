-- ===== src/TaskManager/Clone/Attributes.antt =====
-- source/PageDirectory.hpp, `getAttributes`: the attributes of an entry give the same entry again.
use flix.Base.{
  ℕ, ◌+◌, ◌*◌, ◌/◌, ◌%◌, ◌^◌, ◌<◌, ◌≡◌, refl, ◌∙◌, Bool, true, false, not, arith, if◌then◌else◌,
  ltb,
}
use flix.Paging.{Entry, empty, invalid_page, invalid_phys, is_valid}
use flix.Paging.Directory.{
  get_attributes, attr_rw, attr_public, attr_noexec, attr_defer, mapped_entry, may_map,
}
use flix.Paging.Faults.{is_deferred}

-- The attributes by their bits.
abbrev attributes : Bool → Bool → Bool → Bool → ℕ
attributes w u x d =
    (if w then 1 else 0) + (if u then 2 else 0) + (if x then 4 else 0) + (if d then 8 else 0)

record Bits (w u x d : Bool) : Type 0 where
  rw_bit : attr_rw (attributes w u x d) ≡ w
  public_bit : attr_public (attributes w u x d) ≡ u
  noexec_bit : attr_noexec (attributes w u x d) ≡ x
  defer_bit : attr_defer (attributes w u x d) ≡ d
  small : ltb (attributes w u x d) 16 ≡ true

attributes-Bits : (w u x d : Bool) → Bits w u x d
attributes-Bits w u x d = ground arith

pub attr_defer-get_attributes : (e : Entry) → attr_defer (get_attributes e) ≡ is_deferred e
attr_defer-get_attributes e = (attributes-Bits e.writable e.us e.nx (is_deferred e)).defer_bit

-- A user page may be mapped again where it was.
pub may_map-get_attributes :
    (a : ℕ) (e : Entry) → a < 2 ^ 47 → e.us ≡ true → may_map a (get_attributes e) ≡ true
may_map-get_attributes a e low user =
    let b = attributes-Bits e.writable e.us e.nx (is_deferred e) in
    let public : attr_public (get_attributes e) ≡ true = b.public_bit ∙ user in
    let under : ltb 0xffffffffc0000000 a ≡ false = ground arith in
    let fits : ltb (get_attributes e) 16 ≡ true = b.small in rw (public, under, fits) (ground arith)

-- The entry that an empty one becomes.
copied :
    (e : Entry) (phys : ℕ)
    → mapped_entry phys (get_attributes e) empty
      ≡ record e { p = not (is_deferred e); base = phys / 2 ^ 12 % 2 ^ 40 }
copied e phys =
    let b = attributes-Bits e.writable e.us e.nx (is_deferred e) in
    λ k. record {
      p = not (b.defer_bit k);
      writable = b.rw_bit k;
      us = b.public_bit k;
      nx = b.noexec_bit k;
      base = phys / 2 ^ 12 % 2 ^ 40;
    }

pub mapped_entry-present :
    (e : Entry) (frame : ℕ)
    → e.p ≡ true
    → frame < 2 ^ 40
    → mapped_entry (frame * 2 ^ 12) (get_attributes e) empty ≡ record e { base = frame }
mapped_entry-present e frame here small =
    let same : not (is_deferred e) ≡ e.p = rw here refl in
    let base : frame * 2 ^ 12 / 2 ^ 12 % 2 ^ 40 ≡ frame = omega arith in
    copied e (frame * 2 ^ 12) ∙ (λ k. record e { p = same k; base = base k })

pub mapped_entry-deferred :
    (e : Entry)
    → is_valid e ≡ true
    → e.p ≡ false
    → mapped_entry invalid_phys (get_attributes e) empty ≡ e
mapped_entry-deferred e valid gone =
    let base : invalid_page ≡ e.base = ground arith in
    let same : not (is_deferred e) ≡ e.p = ground arith in
    copied e invalid_phys ∙ (λ k. record e { p = same k; base = base k })
