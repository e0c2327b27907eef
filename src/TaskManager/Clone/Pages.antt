-- ===== src/TaskManager/Clone/Pages.antt =====
-- source/TaskManager.cpp, `clone`: the copy of one page's contents, by way of the buffer page of the parent.
use flix.Base.{
  ℕ, ◌+◌, ◌*◌, ◌/◌, ◌^◌, ◌<◌, ◌≡◌, refl, ◌∙◌, ap, true, false, Option, none, some, arith,
  if◌then◌else◌, ◌>>=◌, assert-true, >>=-some, assign, inl, inr, Bool-cases,
}
use flix.Paging.{Supply, Entry, Tables, Allocator}
use flix.Paging.Access.{entry_at, same_page}
use flix.Paging.Coherent.{TakesFrames, Refills, IsCoherent, Serves, get_page-entry_at, entry_of}
use flix.Paging.Directory.{Directory, Machine, get_physical_address, phys_of, mapped_entry}
use flix.Paging.Mapping.{
  Mapped, Mapped-self, unmapped, map_page_to-Mapped, get_physical_address-Mapped, unmap_page-Mapped,
}
use flix.Paging.Ranges.{same_page-number}
use flix.TaskManager.Clone.{Contents, Cloning, buffer_page, copy_page, fill_page}

-- The buffer lies outside of the user's half.
pub same_page-buffer_page : (a : ℕ) → a < 2 ^ 47 → same_page 3 buffer_page a ≡ false
same_page-buffer_page a low = elim (Bool-cases (same_page 3 buffer_page a)) [
  | inl same ↦ let number = same_page-number buffer_page a same in absurd (omega arith)
  | inr other ↦ other
]

-- `t'` is coherent, maps nothing at the buffer, and has the entries of `t` elsewhere.
pub record Spares (t t' : Tables 3) : Type 0 where
  pub coherent : IsCoherent 3 t'
  pub idle : (entry_at 3 t' buffer_page).p ≡ false
  pub reads : (b : ℕ) → same_page 3 buffer_page b ≡ false → entry_at 3 t' b ≡ entry_at 3 t b

pub Spares-trans : (t t₁ t' : Tables 3) → Spares t t₁ → Spares t₁ t' → Spares t t'
Spares-trans t t₁ t' s s' = record {
  coherent = s'.coherent;
  idle = s'.idle;
  reads = λ b off. s'.reads b off ∙ s.reads b off;
}

module _ {S : Type 0} (m : Machine S) (ready : m.paging_ready ≡ true) where
  get_physical_address-present :
      (a : ℕ) (d : Directory)
      → IsCoherent 3 d.manager
      → (entry_at 3 d.manager a).p ≡ true
      → get_physical_address a d m ≡ some (some (phys_of (entry_at 3 d.manager a)))
  unfolding get_physical_address
  get_physical_address-present a d c here =
      let (r, e, same) = get_page-entry_at 3 d.manager a c in
      assert-true _ _ ready
      ∙ >>=-some _ _ e
      ∙ found r (ap (λ x. x.p) same ∙ here)
      ∙ ap (λ x. some (some (phys_of x))) same
    where
      found :
          (r : Option Entry)
          → (entry_of r).p ≡ true
          → some (r >>= (λ e. if e.p then some (phys_of e) else none))
            ≡ some (some (phys_of (entry_of r)))
      found none off = cc
      found (some e) on = rw on refl

  copy_page-Mapped :
      (a page : ℕ) (e : Entry) (t : Tables 3) (d : Directory) (contents : Contents)
      → Mapped buffer_page e t d.manager
      → e.p ≡ true
      → phys_of e ≡ page * 2 ^ 12
      → (entry_at 3 d.manager a).p ≡ true
      → copy_page buffer_page a d m contents
        ≡ some (assign contents page (contents (entry_at 3 d.manager a).base))
  unfolding copy_page
  copy_page-Mapped a page e t d contents w on at here =
      let target : get_physical_address buffer_page d m ≡ some (some (page * 2 ^ 12)) =
        get_physical_address-Mapped m ready buffer_page d t e w ∙ rw (on, at) refl in
      let to : page * 2 ^ 12 / 2 ^ 12 ≡ page = omega arith in
      let from : phys_of (entry_at 3 d.manager a) / 2 ^ 12 ≡ (entry_at 3 d.manager a).base =
        omega arith in
      >>=-some _ _ target
      ∙ >>=-some _ _ (get_physical_address-present a d w.coherent here)
      ∙ (λ k. some (assign contents (to k) (contents (from k))))

module _ (alloc : Allocator) (serves : Serves alloc) (refills : Refills alloc) where
  open alloc use {State}

  -- A frame gets the contents of a page of the user's half that is present; of the parent's entries only the
  -- buffer's changes.
  pub fill_page-Spares :
      (a page : ℕ) (c : Cloning State)
      → c.machine.paging_ready ≡ true
      → a < 2 ^ 47
      → page < 2 ^ 40
      → IsCoherent 3 c.parent.manager
      → (entry_at 3 c.parent.manager buffer_page).p ≡ false
      → (entry_at 3 c.parent.manager a).p ≡ true
      → (t : Tables 3) × (s : Supply State) × (fill_page alloc a (page * 2 ^ 12) c
          ≡ some (record c {
            parent = record (c.parent) { manager = t };
            machine = record (c.machine) { heap = s.heap; memory = s.memory };
            contents = assign c.contents page (c.contents (entry_at 3 c.parent.manager a).base);
          }))
        × Spares c.parent.manager t
        × TakesFrames c.machine.memory s.memory 4
  unfolding fill_page
  fill_page-Spares a page c ready low small coherent idle here =
      let old = entry_at 3 c.parent.manager buffer_page in
      let e = mapped_entry (page * 2 ^ 12) (0x1 + 0x4) old in
      let off = same_page-buffer_page a low in
      let (t, s, ran, w, x) =
        map_page_to-Mapped alloc serves refills buffer_page (page * 2 ^ 12) (0x1 + 0x4) c.parent
          c.machine ready refl coherent idle in
      let d₁ : Directory = record (c.parent) { manager = t } in
      let m₁ : Machine State = record (c.machine) { heap = s.heap; memory = s.memory } in
      let reads : entry_at 3 t a ≡ entry_at 3 c.parent.manager a = w.reads a ∙ rw off refl in
      let at : phys_of e ≡ page * 2 ^ 12 = omega arith in
      let copied =
        copy_page-Mapped m₁ ready a page e c.parent.manager d₁ c.contents w refl at
          (ap (λ x. x.p) reads ∙ here) in
      let (t', back, w') = unmap_page-Mapped m₁ ready buffer_page d₁ c.parent.manager e w refl in
      (
        t',
        s,
        >>=-some _ _ ran
            ∙ >>=-some _ _ copied
            ∙ >>=-some _ _ back
            ∙ ap
                (λ x. some (record c {
                  parent = record (c.parent) { manager = t' };
                  machine = record (c.machine) { heap = s.heap; memory = s.memory };
                  contents = assign c.contents page (c.contents x.base);
                }))
                reads,
        record {
          coherent = w'.coherent;
          idle = ap (λ x. x.p) (Mapped-self t t' buffer_page (unmapped e) w');
          reads = λ b other. w'.reads b ∙ rw other refl ∙ w.reads b ∙ rw other refl;
        },
        x,
      )
