-- ===== src/Paging/Mapping.antt =====
-- source/PageDirectory.cpp: `mapPageTo`, `mapPage` and `unmapPage`, by the entry of every address.
use flix.Base.{
  ℕ, ◌-◌, ◌*◌, ◌/◌, ◌%◌, ◌^◌, ◌<◌, ◌≡◌, refl, ◌∙◌, ap, true, false, Option, none, some, arith, ◌==◌,
  if◌then◌else◌, ◌>>=◌, ◌>>◌, assert, >>=-some, assert-true,
}
use flix.Memory.{Memory, get_free_page}
use flix.Paging.{Supply, Entry, Tables, get_page, set_page, Allocator}
use flix.Paging.Access.{
  entry_at, same_page, HasPage, entry_at-set_page, same_page_refl, HasPage-set_page,
}
use flix.Paging.Coherent.{
  Refills, TakesFrames-trans, TakesFrames, IsCoherent, get_page-HasPage, set_page-IsCoherent,
  Serves, reach_page-Reached, get_page-entry_at, entry_of,
}
use flix.Paging.Directory.{
  Directory, Machine, attr_defer, mapped_entry, phys_of, may_map, map_page_to_f, map_page_raw,
  map_page_to, map_page, choose_target, unmap_page, get_physical_address,
}

-- `t'` is `t` with the entry `e` for the page of address `a`.
pub record Mapped (a : ℕ) (e : Entry) (t t' : Tables 3) : Type 0 where
  pub coherent : IsCoherent 3 t'
  pub has : HasPage 3 t' a
  pub reads : (b : ℕ) → entry_at 3 t' b ≡ (if same_page 3 a b then e else entry_at 3 t b)

pub set_page-Mapped :
    (t t' : Tables 3) (a : ℕ) (e : Entry)
    → IsCoherent 3 t'
    → HasPage 3 t' a
    → ((b : ℕ) → entry_at 3 t' b ≡ entry_at 3 t b)
    → Mapped a e t (set_page 3 t' a e)
set_page-Mapped t t' a e c h maps = record {
  coherent = set_page-IsCoherent 3 t' a e c h;
  has = HasPage-set_page 3 t' a e h;
  reads = λ b. entry_at-set_page 3 t' a b e h ∙ ap (λ x. if same_page 3 a b then e else x) (maps b);
}

pub Mapped-self : (t t' : Tables 3) (a : ℕ) (e : Entry) → Mapped a e t t' → entry_at 3 t' a ≡ e
Mapped-self t t' a e w = w.reads a ∙ rw (same_page_refl 3 a) refl

-- `getPage` after the mapping.
pub get_page-Mapped :
    (t t' : Tables 3) (a : ℕ) (e : Entry) → Mapped a e t t' → get_page 3 t' a ≡ some (some e)
get_page-Mapped t t' a e w =
    get_page-HasPage 3 t' a w.has ∙ ap (λ x. some (some x)) (Mapped-self t t' a e w)

module _ (alloc : Allocator) (serves : Serves alloc) where
  open alloc use {State}

  map_page_to_f-Mapped :
      (vaddr paddr attributes : ℕ) (t : Tables 3) (s : Supply State)
      → IsCoherent 3 t
      → (entry_at 3 t vaddr).p ≡ false
      → (t' : Tables 3) × (s' : Supply State) × (map_page_to_f alloc vaddr paddr attributes t s
          ≡ some (t', s'))
        × Mapped vaddr (mapped_entry paddr attributes (entry_at 3 t vaddr)) t t'
        × TakesFrames s.memory s'.memory 3
  unfolding map_page_to_f
  map_page_to_f-Mapped vaddr paddr attributes t s c free =
      let (t₁, s₁, e, r, x) = reach_page-Reached alloc serves 3 t vaddr s c in
      let entry = mapped_entry paddr attributes (entry_at 3 t vaddr) in
      let found : get_page 3 t₁ vaddr ≡ some (some (entry_at 3 t vaddr)) =
        get_page-HasPage 3 t₁ vaddr r.has ∙ ap (λ x. some (some x)) (r.maps vaddr) in
      (
        set_page 3 t₁ vaddr entry,
        s₁,
        rw (e, found, free) refl,
        set_page-Mapped t t₁ vaddr entry r.coherent r.has r.maps,
        x,
      )

  module _ (refills : Refills alloc) where
    -- Mapping a page succeeds where the attributes are allowed for the address and the page is not
    -- mapped. The page then has the physical address and its attributes, no other address changes, and
    -- only the page heap and the frames that it took have changed beside.
    pub map_page_to-Mapped :
        (vaddr paddr attributes : ℕ) (d : Directory) (m : Machine State)
        → m.paging_ready ≡ true
        → may_map vaddr attributes ≡ true
        → IsCoherent 3 d.manager
        → (entry_at 3 d.manager vaddr).p ≡ false
        → (t : Tables 3) × (s : Supply State) × (map_page_to alloc vaddr paddr attributes d m
            ≡ some (record d { manager = t }, record m { heap = s.heap; memory = s.memory }))
          × Mapped vaddr (mapped_entry paddr attributes (entry_at 3 d.manager vaddr)) d.manager t
          × TakesFrames m.memory s.memory 4
    unfolding map_page_to map_page_raw
    map_page_to-Mapped vaddr paddr attributes d m ready allowed c free =
        let (t, s, e, w, x) =
          map_page_to_f-Mapped vaddr paddr attributes d.manager
            (record { heap = m.heap; memory = m.memory }) c free in
        let (s', f, y) = refills s in
        (
          t,
          s',
          rw (ready, allowed, e, f) refl,
          w,
          TakesFrames-trans m.memory s.memory s'.memory 3 1 4 (omega arith) x y,
        )

    -- Without deferral, the page is given the lowest free frame.
    pub map_page-Mapped :
        (vaddr attributes : ℕ) (d : Directory) (m : Machine State) (page : ℕ) (memory : Memory)
        → m.paging_ready ≡ true
        → may_map vaddr attributes ≡ true
        → attr_defer attributes ≡ false
        → IsCoherent 3 d.manager
        → (entry_at 3 d.manager vaddr).p ≡ false
        → get_free_page m.memory ≡ some (page, memory)
        → page < 2 ^ 40 - 1
        → (t : Tables 3) × (s : Supply State) × (map_page alloc vaddr attributes d m
            ≡ some (
              page * 2 ^ 12,
              record d { manager = t },
              record m { memory = s.memory; heap = s.heap },
            ))
          × Mapped vaddr
              (mapped_entry (page * 2 ^ 12) attributes (entry_at 3 d.manager vaddr))
              d.manager
              t
          × TakesFrames memory s.memory 4
    unfolding map_page
    map_page-Mapped vaddr attributes d m page memory ready allowed now c free got small =
        let (t, s, e, w, x) =
          map_page_to-Mapped vaddr (page * 2 ^ 12) attributes d (record m { memory = memory }) ready
            allowed c free in
        let valid : (page == 2 ^ 40 - 1) ≡ false = ground arith in
        let fits : page * 2 ^ 12 % 2 ^ 64 ≡ page * 2 ^ 12 = omega arith in
        let chosen : choose_target alloc attributes m.memory ≡ some (page * 2 ^ 12, memory) =
          rw (now, got, valid, fits) refl in
        (t, s, assert-true _ _ ready ∙ >>=-some _ _ chosen ∙ >>=-some _ _ e, w, x)

-- What `unmapPage` leaves in the entry.
abbrev pub unmapped : Entry → Entry
unmapped e = record e { p = false; base = 0 }

abbrev pub frame_of : ℕ → ℕ
frame_of paddr = paddr / 2 ^ 12 % 2 ^ 40

module _ {S : Type 0} (m : Machine S) (ready : m.paging_ready ≡ true) (vaddr : ℕ)
    (d : Directory) where
  module _ (t : Tables 3) (e : Entry) (w : Mapped vaddr e t d.manager) where
    pub get_physical_address-Mapped :
        get_physical_address vaddr d m ≡ some (if e.p then some (phys_of e) else none)
    unfolding get_physical_address
    get_physical_address-Mapped = rw (ready, get_page-Mapped t d.manager vaddr e w) refl

    pub unmap_page-Mapped :
        e.p ≡ true
        → (t' : Tables 3) × (unmap_page vaddr d m ≡ some (phys_of e, record d { manager = t' }))
          × Mapped vaddr (unmapped e) d.manager t'
    unfolding unmap_page
    unmap_page-Mapped present = (
      set_page 3 d.manager vaddr (unmapped e),
      rw (ready, get_page-Mapped t d.manager vaddr e w, present) refl,
      set_page-Mapped d.manager d.manager vaddr (unmapped e) w.coherent w.has (λ b. refl),
    )

  -- What `unmapPage` and a failed mapping do on a page that is not there.
  pub unmap_page-eq-none :
      IsCoherent 3 d.manager → (entry_at 3 d.manager vaddr).p ≡ false → unmap_page vaddr d m ≡ none
  unfolding unmap_page
  unmap_page-eq-none c gone =
      let (r, e, same) = get_page-entry_at 3 d.manager vaddr c in
      assert-true _ _ ready ∙ >>=-some _ _ e ∙ missing r (ap (λ y. y.p) same ∙ gone)
    where
      missing :
          (r : Option Entry)
          → (entry_of r).p ≡ false
          → (r >>= λ e.
              let result : ℕ × Directory =
                (phys_of e, record d { manager = set_page 3 d.manager vaddr (unmapped e) }) in
              assert e.p >> some result)
            ≡ none
      missing none off = refl
      missing (some e) off = rw off refl
