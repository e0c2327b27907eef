-- ===== src/Paging/Faults.antt =====
-- source/PageDirectory.cpp, `handleFault`: the first access to a page that was mapped with `ATTR_DEFER`.
use flix.Base.{
  ℕ, ◌%◌, ◌^◌, ◌<◌, ◌≡◌, refl, ◌∙◌, ap, Bool, true, false, not, Option, none, some, arith, ◌==◌,
  if◌then◌else◌, ◌&&◌, ◌||◌, >>=-some, ◌≢◌,
}
use flix.Memory.{Memory, get_free_page}
use flix.Paging.{Entry, Tables, set_page, invalid_page}
use flix.Paging.Access.{entry_at, HasPage-base}
use flix.Paging.Coherent.{IsCoherent, get_page-HasPage, get_page-entry_at, entry_of}
use flix.Paging.Directory.{Directory, Machine, fill_deferred, handle_fault}
use flix.Paging.Mapping.{Mapped, set_page-Mapped}

-- A page whose frame is still to come.
abbrev pub is_deferred : Entry → Bool
is_deferred e = not e.p && e.base == invalid_page

module _ {S : Type 0} (vaddr : ℕ) (d : Directory) (m : Machine S) where
  abbrev answer : Option Entry → Option (Bool × Directory × Machine S)
  answer none = some (false, d, m)
  answer (some e) =
      if e.p || not (e.base == invalid_page) then some (false, d, m) else fill_deferred vaddr e d m

  -- A fault on an address whose page is not deferred is not handled, and changes nothing.
  pub handle_fault-not_deferred :
      IsCoherent 3 d.manager
      → is_deferred (entry_at 3 d.manager vaddr) ≡ false
      → handle_fault vaddr d m ≡ some (false, d, m)
  unfolding handle_fault
  handle_fault-not_deferred c other =
      let (r, e, same) = get_page-entry_at 3 d.manager vaddr c in
      >>=-some _ _ e ∙ refused r (ap is_deferred same ∙ other)
    where
      refused :
          (r : Option Entry) → is_deferred (entry_of r) ≡ false → answer r ≡ some (false, d, m)
      refused none off = refl
      refused (some e) off =
          let guard : (e.p || not (e.base == invalid_page)) ≡ true = ground arith in rw guard refl

  -- A fault on a deferred page is handled: the page gets the lowest free frame, which is marked, and
  -- keeps its attributes; no other page and no other frame changes.
  pub handle_fault-deferred :
      (page : ℕ) (memory : Memory)
      → IsCoherent 3 d.manager
      → is_deferred (entry_at 3 d.manager vaddr) ≡ true
      → get_free_page m.memory ≡ some (page, memory)
      → page < 2 ^ 40
      → (t : Tables 3) × (handle_fault vaddr d m
          ≡ some (true, record d { manager = t }, record m { memory = memory }))
        × Mapped vaddr (record (entry_at 3 d.manager vaddr) { p = true; base = page }) d.manager t
  unfolding handle_fault
  handle_fault-deferred page memory c deferred got small =
      let e = entry_at 3 d.manager vaddr in
      let nonzero : e.base ≢ 0 = λ z. ground arith in
      let has = HasPage-base 3 d.manager vaddr nonzero in
      let filled : Entry = record e { p = true; base = page } in
      let guard : (e.p || not (e.base == invalid_page)) ≡ false = ground arith in
      let fits : page % 2 ^ 40 ≡ page = omega arith in
      (
        set_page 3 d.manager vaddr filled,
        >>=-some _ _ (get_page-HasPage 3 d.manager vaddr has) ∙ rw (guard, got, fits) refl,
        set_page-Mapped d.manager d.manager vaddr filled c has (λ b. refl),
      )
