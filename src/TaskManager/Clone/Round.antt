-- ===== src/TaskManager/Clone/Round.antt =====
-- source/TaskManager.cpp, `clone`: a round of the loop over the user's pages.
use flix.Base.{
  ℕ, ◌+◌, ◌-◌, ◌*◌, ◌%◌, ◌^◌, ◌<◌, ◌≤◌, ◌≡◌, refl, ◌∙◌, sym, ap, true, false, some, arith, ◌==◌,
  >>=-some, assign, inl, inr, Bool-cases, length, ==-refl, ==_iff,
}
use mathlib.Core.Path.{subst}
use flix.Memory.{is_used}
use flix.Memory.Alloc.{get_free_page-Allocates}
use flix.Memory.Growth.{get_free_page-length}
use flix.Paging.{Entry, empty, Allocator, is_valid, invalid_phys}
use flix.Paging.Access.{entry_at}
use flix.Paging.Coherent.{Refills, IsCoherent, Serves}
use flix.Paging.Directory.{Directory, Machine, get_attributes, attr_defer, mapped_entry, may_map}
use flix.Paging.Mapping.{Mapped, map_page-Mapped}
use flix.Paging.Faults.{is_deferred}
use flix.Paging.Defer.{map_page-deferred}
use flix.Paging.Visits.{Visit}
use flix.TaskManager.Clone.{Cloning, buffer_page, clone_visit}
use flix.TaskManager.Clone.Attributes.{
  attr_defer-get_attributes, may_map-get_attributes, mapped_entry-present, mapped_entry-deferred,
}
use flix.TaskManager.Clone.Pages.{Spares, fill_page-Spares}

-- The loop can go on: both directories are coherent, and the buffer is not mapped.
pub record Ready {S : Type 0} (c : Cloning S) : Type 0 where
  pub paging : c.machine.paging_ready ≡ true
  pub parent : IsCoherent 3 c.parent.manager
  pub child : IsCoherent 3 c.child.manager
  pub idle : (entry_at 3 c.parent.manager buffer_page).p ≡ false

-- A page that the loop can clone: a user page of the parent where the child has none.
pub record Clonable {S : Type 0} (c : Cloning S) (v : Visit) : Type 0 where
  pub lower : v.address < 2 ^ 47
  pub aligned : v.address % 2 ^ 12 ≡ 0
  pub public : v.entry.us ≡ true
  pub valid : is_valid v.entry ≡ true
  pub entry : entry_at 3 c.parent.manager v.address ≡ v.entry
  pub vacant : entry_at 3 c.child.manager v.address ≡ empty

-- A round on `v`, which gives the child the entry `e`.
pub record Round {S : Type 0} (v : Visit) (e : Entry) (c c' : Cloning S) : Type 0 where
  pub paging : c'.machine.paging_ready ≡ true
  pub parent : Spares c.parent.manager c'.parent.manager
  pub child : Mapped v.address e c.child.manager c'.child.manager
  pub keeps : (q : ℕ) → is_used c.machine.memory q ≡ true → is_used c'.machine.memory q ≡ true
  pub bytes : (q : ℕ) → is_used c.machine.memory q ≡ true → c'.contents q ≡ c.contents q
  pub grows : length c'.machine.memory.frames ≤ length c.machine.memory.frames + 2 ^ 14

-- A round on a page that is present gives the child frame `page`.
pub record Filled {S : Type 0} (v : Visit) (page : ℕ) (c c' : Cloning S) : Type 0 where
  pub round : Round v (record (v.entry) { base = page }) c c'
  pub free : is_used c.machine.memory page ≡ false
  pub taken : is_used c'.machine.memory page ≡ true
  pub copied : c'.contents page ≡ c.contents v.entry.base

module _ (alloc : Allocator) (serves : Serves alloc) (refills : Refills alloc) (v : Visit)
    (c : Cloning alloc.State) (ready : Ready c) (h : Clonable c v) where
  open alloc use {State}

  apart :
      (q page : ℕ)
      → is_used c.machine.memory q ≡ true
      → is_used c.machine.memory page ≡ false
      → (q == page) ≡ false
  apart q page used free = elim (Bool-cases (q == page)) [
    | inl same ↦
        let place : q ≡ page = (==_iff q page).0 same in
        let clash : true ≡ false = sym used ∙ ap (is_used c.machine.memory) place ∙ free in cc
    | inr other ↦ other
  ]

  allowed : may_map v.address (get_attributes v.entry) ≡ true
  allowed = may_map-get_attributes v.address v.entry h.lower h.public

  pub clone_visit-Filled :
      v.entry.p ≡ true
      → length c.machine.memory.frames < 2 ^ 40 - 1
      → (page : ℕ) × (c' : Cloning State) × (clone_visit alloc v c ≡ some c') × Filled v page c c'
  unfolding clone_visit
  clone_visit-Filled here room =
      let (page, memory, a) = get_free_page-Allocates c.machine.memory in
      let (low, grown) = get_free_page-length c.machine.memory memory page a.runs in
      let now : attr_defer (get_attributes v.entry) ≡ false =
        attr_defer-get_attributes v.entry ∙ rw here refl in
      let (t, s, mapped, w, x) =
        map_page-Mapped alloc serves refills v.address (get_attributes v.entry) c.child c.machine
          page memory ready.paging allowed now ready.child (ap (λ e. e.p) h.vacant) a.runs
          (omega arith) in
      let child : Directory = record (c.child) { manager = t } in
      let m₁ : Machine State = record (c.machine) { memory = s.memory; heap = s.heap } in
      let c₁ : Cloning State = record c { child = child; machine = m₁ } in
      let (t', s', filled, spares, y) =
        fill_page-Spares alloc serves refills v.address page c₁ ready.paging h.lower (omega arith)
          ready.parent ready.idle (ap (λ e. e.p) h.entry ∙ here) in
      let placed : mapped_entry (page * 2 ^ 12) (get_attributes v.entry)
            (entry_at 3 c.child.manager v.address)
          ≡ record (v.entry) { base = page } =
        ap (mapped_entry (page * 2 ^ 12) (get_attributes v.entry)) h.vacant
        ∙ mapped_entry-present v.entry page here (omega arith) in
      (
        page,
        record c₁ {
          parent = record (c.parent) { manager = t' };
          machine = record m₁ { heap = s'.heap; memory = s'.memory };
          contents =
              assign c.contents page (c.contents (entry_at 3 c.parent.manager v.address).base);
        },
        >>=-some _ _ mapped ∙ rw now filled,
        record {
          round = record {
            paging = ready.paging;
            parent = spares;
            child = subst (λ e. Mapped v.address e c.child.manager t) placed w;
            keeps = λ q used. y.keeps q (x.keeps q (ground (arith, a.marked.reads q)));
            bytes =
                λ q used. let off : (q == page) ≡ false = apart q page used a.free in rw off refl;
            grows = let more = x.grows in let more' = y.grows in omega arith;
          };
          free = a.free;
          taken = y.keeps page (x.keeps page (a.marked.reads page ∙ rw (==-refl page) refl));
          copied = rw (==-refl page) (ap (λ e. c.contents e.base) h.entry);
        },
      )

  pub clone_visit-Round :
      v.entry.p ≡ false
      → (c' : Cloning State) × (clone_visit alloc v c ≡ some c') × Round v v.entry c c'
  unfolding clone_visit
  clone_visit-Round gone =
      let valid = h.valid in
      let waits : is_deferred v.entry ≡ true = ground arith in
      let defer : attr_defer (get_attributes v.entry) ≡ true =
        attr_defer-get_attributes v.entry ∙ waits in
      let (t, s, mapped, w, x) =
        map_page-deferred alloc serves refills v.address (get_attributes v.entry) c.child c.machine
          ready.paging allowed defer ready.child (ap (λ e. e.p) h.vacant) in
      let placed : mapped_entry invalid_phys (get_attributes v.entry)
            (entry_at 3 c.child.manager v.address)
          ≡ v.entry =
        ap (mapped_entry invalid_phys (get_attributes v.entry)) h.vacant
        ∙ mapped_entry-deferred v.entry h.valid gone in
      (
        record c {
          child = record (c.child) { manager = t };
          machine = record (c.machine) { heap = s.heap; memory = s.memory };
        },
        >>=-some _ _ mapped ∙ rw defer refl,
        record {
          paging = ready.paging;
          parent = record { coherent = ready.parent; idle = ready.idle; reads = λ b off. refl };
          child = subst (λ e. Mapped v.address e c.child.manager t) placed w;
          keeps = x.keeps;
          bytes = λ q used. refl;
          grows = let more = x.grows in omega arith;
        },
      )
