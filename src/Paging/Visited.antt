-- ===== src/Paging/Visited.antt =====
-- source/PageDirectory.cpp, `forEachUserPage`: every user page is visited, in the order of the addresses.
use flix.Base.{
  ℕ, ◌+◌, ◌*◌, ◌%◌, ◌^◌, ◌<◌, ◌≡◌, ◌∙◌, sym, ap, true, false, Option, some, suc, arith, leb, List,
  Memᴰ, inl, inr, ◌↔◌, mem-concat_range, Option-cases,
}
use mathlib.Core.Path.{subst}
use flix.Paging.{Entry, empty, Tables, index, is_valid}
use flix.Paging.Access.{entry_at, entry_at-next, entry_at-none}
use flix.Paging.Visits.{
  Visit, extend_sign, visit_table, visit_directory, visit_pointers, user_pages, in_table,
  IsUserPage, user_pages-IsUserPage, extend_sign_low,
}

-- A valid entry stands in a table that is there.
valid-next :
    (n : ℕ) (t : Tables (suc n)) (a : ℕ) (e : Entry)
    → entry_at (suc n) t a ≡ e
    → is_valid e ≡ true
    → (u : Tables n) × (t.next (index (suc n) a) ≡ some u) × (entry_at n u a ≡ e)
valid-next n t a e same valid = elim (Option-cases (t.next (index (suc n) a))) [
  | inl m ↦
      let bad : is_valid empty ≡ true = ap is_valid (sym (entry_at-none n t a m) ∙ same) ∙ valid in
      cc
  | inr (u, m) ↦ (u, m, sym (entry_at-next n t a u m) ∙ same)
]

mem-in_table :
    {T : Type 0} (v : Visit) (f : T → List Visit) (o : Option T) (u : T)
    → o ≡ some u
    → Memᴰ v (f u)
    → Memᴰ v (in_table f o)
mem-in_table v f o u e m = subst (λ o. Memᴰ v (in_table f o)) (sym e) m

module _ (v : Visit) (valid : is_valid v.entry ≡ true) where
  mem-visit_table :
      (t : Tables 0) (add : ℕ)
      → entry_at 0 t v.address ≡ v.entry
      → v.address ≡ add + index 0 v.address * 2 ^ 12
      → Memᴰ v (visit_table t add)
  unfolding visit_table entry_at
  mem-visit_table t add same place =
      let i = index 0 v.address in
      let here : v ≡ record { address = add + i * 2 ^ 12; entry = t i } =
        λ k. record { address = place k; entry = sym same k } in
      let shown : is_valid (t i) ≡ true = ap is_valid same ∙ valid in
      mem-concat_range (2 ^ 9) 0 i _ (omega arith) (omega arith) (rw shown (Memᴰ.head here))

  mem-visit_directory :
      (t : Tables 1) (add : ℕ)
      → entry_at 1 t v.address ≡ v.entry
      → v.address ≡ add + index 1 v.address * 2 ^ 21 + index 0 v.address * 2 ^ 12
      → Memᴰ v (visit_directory t add)
  unfolding visit_directory
  mem-visit_directory t add same place =
      let (u, m, lower) = valid-next 0 t v.address v.entry same valid in
      mem-concat_range (2 ^ 9) 0 (index 1 v.address) _ (omega arith) (omega arith) (
        mem-in_table v (λ u. visit_table u (add + index 1 v.address * 2 ^ 21)) _ u m
          (mem-visit_table u _ lower place))

  mem-visit_pointers :
      (t : Tables 2) (add : ℕ)
      → entry_at 2 t v.address ≡ v.entry
      → v.address
        ≡ add + index 2 v.address * 2 ^ 30 + index 1 v.address * 2 ^ 21 + index 0 v.address * 2 ^ 12
      → v.address < 2 ^ 47
      → Memᴰ v (visit_pointers t add)
  unfolding visit_pointers
  mem-visit_pointers t add same place low =
      let (u, m, lower) = valid-next 1 t v.address v.entry same valid in
      let go : leb 0xffff00000000 (add + index 2 v.address * 2 ^ 30) ≡ false = ground arith in
      mem-concat_range (2 ^ 9) 0 (index 2 v.address) _ (omega arith) (omega arith) (
        rw go (
          mem-in_table v (λ u. visit_directory u (add + index 2 v.address * 2 ^ 30)) _ u m
            (mem-visit_directory u _ lower place)))

  mem-user_pages :
      (t : Tables 3)
      → entry_at 3 t v.address ≡ v.entry
      → v.address % 2 ^ 12 ≡ 0
      → v.address < 2 ^ 47
      → Memᴰ v (user_pages t)
  unfolding user_pages
  mem-user_pages t same aligned low =
      let (u, m, lower) = valid-next 2 t v.address v.entry same valid in
      let plain = extend_sign_low (index 3 v.address) (omega arith) in
      mem-concat_range (2 ^ 9) 0 (index 3 v.address) _ (omega arith) (omega arith) (
        mem-in_table v (λ u. visit_pointers u (extend_sign (index 3 v.address * 2 ^ 39))) _ u m
          (mem-visit_pointers u _ lower (omega arith) low))

-- forEachUserPage calls its callback with an entry and an address exactly if the address is below
-- 2^47 and a multiple of the page size, the entry is that of the address, and it is valid, which a
-- mapped and a deferred page's is.
pub mem-user_pages_iff : (t : Tables 3) (v : Visit) → Memᴰ v (user_pages t) ↔ IsUserPage t v
mem-user_pages_iff t v =
    (user_pages-IsUserPage t v, λ u. mem-user_pages v u.valid t u.entry u.aligned u.lower)
