-- ===== src/Paging/Visits.antt =====
-- source/PageDirectory.cpp, `forEachUserPage`: the pages that its callback is called with, in order.
-- The `|` of addresses that share no bit is their sum.
use flix.Base.{
  ℕ, ◌+◌, ◌-◌, ◌*◌, ◌%◌, ◌^◌, ◌<◌, ◌≡◌, refl, ◌∙◌, sym, ap, true, Option, none, some, suc, arith,
  if◌then◌else◌, leb, ltb, List, [], ◌∷◌, Memᴰ, concat_range, inl, inr, mem_of-concat_range,
  Bool-cases,
}
use mathlib.Core.List.Memᴰ
use flix.Paging.{Entry, Tables, index, is_valid}
use flix.Paging.Access.{entry_at, entry_at-next, same_page, entry_at_same}

-- The arguments of the callback; `physAddr` is of the entry.
pub record Visit : Type 0 where
  pub address : ℕ
  pub entry : Entry

-- `extendSign`
abbrev pub extend_sign : ℕ → ℕ
extend_sign ptr =
    if ltb (ptr % 2 ^ 48) (2 ^ 47) then ptr % 2 ^ 48 else ptr % 2 ^ 48 + (2 ^ 64 - 2 ^ 48)

-- The inner loops: `add` is the address that the outer loops have made up.
unfoldable pub visit_table : Tables 0 → ℕ → List Visit
visit_table t add =
    concat_range (2 ^ 9) 0 (λ i.
      if is_valid (t i) then (record { address = add + i * 2 ^ 12; entry = t i }) ∷ [] else [])

-- The rest of a round that skips tables that are missing.
abbrev pub in_table {ℓ} : {T : Type ℓ} → (T → List Visit) → Option T → List Visit
in_table f none = []
in_table f (some u) = f u

unfoldable pub visit_directory : Tables 1 → ℕ → List Visit
visit_directory t add =
    concat_range (2 ^ 9) 0 (λ i. in_table (λ u. visit_table u (add + i * 2 ^ 21)) (t.next i))

unfoldable pub visit_pointers : Tables 2 → ℕ → List Visit
visit_pointers t add = concat_range (2 ^ 9) 0 (λ i.
    if leb 0xffff00000000 (add + i * 2 ^ 30)
    then []
    else in_table (λ u. visit_directory u (add + i * 2 ^ 30)) (t.next i))

unfoldable pub user_pages : Tables 3 → List Visit
user_pages t =
    concat_range (2 ^ 9) 0
      (λ i. in_table (λ u. visit_pointers u (extend_sign (i * 2 ^ 39))) (t.next i))

in_table-some :
    {T : Type 0} (v : Visit) (f : T → List Visit) (o : Option T)
    → Memᴰ v (in_table f o)
    → (u : T) × (o ≡ some u) × Memᴰ v (f u)
in_table-some v f none m = absurd (Memᴰ.not-nil m)
in_table-some v f (some u) m = (u, refl, m)

-- What a page looks like from the base address of the loop.
record At (n : ℕ) (t : Tables n) (v : Visit) (offset : ℕ) : Type 0 where
  aligned : offset % 2 ^ 12 ≡ 0
  entry : entry_at n t offset ≡ v.entry
  valid : is_valid v.entry ≡ true

visit_table-At :
    (t : Tables 0) (add : ℕ) (v : Visit)
    → Memᴰ v (visit_table t add)
    → (offset : ℕ) × (v.address ≡ add + offset) × (offset < 2 ^ 21) × At 0 t v offset
unfolding visit_table
visit_table-At t add v m =
    let (i, from, below, here) = mem_of-concat_range (2 ^ 9) 0 _ m in
    elim (Bool-cases (is_valid (t i))) [
      | inl valid ↦
          let only : Memᴰ v ((record { address = add + i * 2 ^ 12; entry = t i }) ∷ []) =
            rw valid at here in
          let same = Memᴰ.eq_of_singleton only in
          let place : index 0 (i * 2 ^ 12) ≡ i = omega arith in
          (
            i * 2 ^ 12,
            ap (λ x. x.address) same,
            omega arith,
            record {
              aligned = omega arith;
              entry = unfold entry_at in ap t place ∙ sym (ap (λ x. x.entry) same);
              valid = ap (λ x. is_valid x.entry) same ∙ valid;
            },
          )
      | inr invalid ↦ let nothing : Memᴰ v [] = rw invalid at here in absurd (Memᴰ.not-nil nothing)
    ]

-- One loop further out.
At-next :
    (n : ℕ) (t : Tables (suc n)) (u : Tables n) (v : Visit) (i offset outer : ℕ)
    → t.next i ≡ some u
    → At n u v offset
    → index (suc n) outer ≡ i
    → same_page n offset outer ≡ true
    → outer % 2 ^ 12 ≡ 0
    → At (suc n) t v outer
At-next n t u v i offset outer m a place same aligned = record {
  aligned = aligned;
  entry =
      entry_at-next n t outer u (ap t.next place ∙ m)
      ∙ entry_at_same n u offset outer same
      ∙ a.entry;
  valid = a.valid;
}

visit_directory-At :
    (t : Tables 1) (add : ℕ) (v : Visit)
    → Memᴰ v (visit_directory t add)
    → (offset : ℕ) × (v.address ≡ add + offset) × (offset < 2 ^ 30) × At 1 t v offset
unfolding visit_directory
visit_directory-At t add v m =
    let (i, from, below, here) = mem_of-concat_range (2 ^ 9) 0 _ m in
    let (u, found, inner) =
      in_table-some v (λ u. visit_table u (add + i * 2 ^ 21)) (t.next i) here in
    let (offset, place, small, a) = visit_table-At u (add + i * 2 ^ 21) v inner in
    let aligned : offset % 2 ^ 12 ≡ 0 = a.aligned in
    let lower : index 0 (i * 2 ^ 21 + offset) ≡ index 0 offset = omega arith in
    (
      i * 2 ^ 21 + offset,
      omega arith,
      omega arith,
      At-next 0 t u v i offset (i * 2 ^ 21 + offset) found a (omega arith)
          (unfold same_page in ground arith) (omega arith),
    )

visit_pointers-At :
    (t : Tables 2) (add : ℕ) (v : Visit)
    → Memᴰ v (visit_pointers t add)
    → (offset : ℕ) × (v.address ≡ add + offset)
      × (offset < 2 ^ 39)
      × (add < 0xffff00000000)
      × At 2 t v offset
unfolding visit_pointers
visit_pointers-At t add v m =
    let (i, from, below, here) = mem_of-concat_range (2 ^ 9) 0 _ m in
    elim (Bool-cases (leb 0xffff00000000 (add + i * 2 ^ 30))) [
      | inl skip ↦ let nothing : Memᴰ v [] = rw skip at here in absurd (Memᴰ.not-nil nothing)
      | inr go ↦
          let kept : Memᴰ v (in_table (λ u. visit_directory u (add + i * 2 ^ 30)) (t.next i)) =
            rw go at here in
          let (u, found, inner) =
            in_table-some v (λ u. visit_directory u (add + i * 2 ^ 30)) (t.next i) kept in
          let (offset, place, small, a) = visit_directory-At u (add + i * 2 ^ 30) v inner in
          let aligned : offset % 2 ^ 12 ≡ 0 = a.aligned in
          let lower : index 0 (i * 2 ^ 30 + offset) ≡ index 0 offset = omega arith in
          let lower' : index 1 (i * 2 ^ 30 + offset) ≡ index 1 offset = omega arith in
          (
            i * 2 ^ 30 + offset,
            omega arith,
            omega arith,
            ground arith,
            At-next 1 t u v i offset (i * 2 ^ 30 + offset) found a (omega arith)
                (unfold same_page in ground arith) (omega arith),
          )
    ]

-- What a visited page is: a valid entry, of a page in the lower half of the addresses.
pub record IsUserPage (t : Tables 3) (v : Visit) : Type 0 where
  pub lower : v.address < 2 ^ 47
  pub aligned : v.address % 2 ^ 12 ≡ 0
  pub entry : entry_at 3 t v.address ≡ v.entry
  pub valid : is_valid v.entry ≡ true

pub extend_sign_low : (i : ℕ) → i < 2 ^ 8 → extend_sign (i * 2 ^ 39) ≡ i * 2 ^ 39
extend_sign_low i low =
    let below : ltb (i * 2 ^ 39 % 2 ^ 48) (2 ^ 47) ≡ true = ground arith in rw below (omega arith)

extend_sign-lower :
    (i : ℕ)
    → i < 2 ^ 9
    → extend_sign (i * 2 ^ 39) < 0xffff00000000
    → (i < 2 ^ 8) × (extend_sign (i * 2 ^ 39) ≡ i * 2 ^ 39)
extend_sign-lower i small low =
    let fits : i * 2 ^ 39 % 2 ^ 48 ≡ i * 2 ^ 39 = omega arith in
    elim (Bool-cases (ltb (i * 2 ^ 39 % 2 ^ 48) (2 ^ 47))) [
      | inl below ↦ (ground arith, rw below fits)
      | inr above ↦
          let high : i * 2 ^ 39 % 2 ^ 48 + (2 ^ 64 - 2 ^ 48) < 0xffff00000000 = rw above at low in
          absurd (omega arith)
    ]

pub user_pages-IsUserPage : (t : Tables 3) (v : Visit) → Memᴰ v (user_pages t) → IsUserPage t v
unfolding user_pages
user_pages-IsUserPage t v m =
    let (i, from, below, here) = mem_of-concat_range (2 ^ 9) 0 _ m in
    let (u, found, inner) =
      in_table-some v (λ u. visit_pointers u (extend_sign (i * 2 ^ 39))) (t.next i) here in
    let (offset, place, small, low, a) = visit_pointers-At u (extend_sign (i * 2 ^ 39)) v inner in
    let (half, plain) = extend_sign-lower i below low in
    let aligned : offset % 2 ^ 12 ≡ 0 = a.aligned in
    let sum : v.address ≡ i * 2 ^ 39 + offset = omega arith in
    let lower : index 0 (i * 2 ^ 39 + offset) ≡ index 0 offset = omega arith in
    let lower' : index 1 (i * 2 ^ 39 + offset) ≡ index 1 offset = omega arith in
    let lower'' : index 2 (i * 2 ^ 39 + offset) ≡ index 2 offset = omega arith in
    let outer =
      At-next 2 t u v i offset (i * 2 ^ 39 + offset) found a (omega arith)
        (unfold same_page in ground arith) (omega arith) in
    record {
      lower = omega arith;
      aligned = omega arith;
      entry = ap (entry_at 3 t) sum ∙ outer.entry;
      valid = outer.valid;
    }
