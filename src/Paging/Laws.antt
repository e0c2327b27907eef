-- ===== src/Paging/Laws.antt =====
-- source/PageDirectory.cpp: mapping a page and unmapping it again, and the mappings that are refused.
use flix.Base.{==-refl, ℕ, ◌-◌, ◌*◌, ◌^◌, ◌<◌, ◌≡◌, refl, ◌∙◌, ap, true, false, none, some, arith}
use flix.Memory.{Memory, is_used, get_free_page}
use flix.Memory.Alloc.{Allocates-of_runs}
use flix.Paging.{Entry, Allocator}
use flix.Paging.Access.{entry_at, same_page}
use flix.Paging.Coherent.{Refills, IsCoherent, Serves}
use flix.Paging.Directory.{
  Directory, Machine, attr_defer, mapped_entry, phys_of, may_map, map_page_to, map_page, unmap_page,
  get_physical_address,
}
use flix.Paging.Mapping.{
  unmapped, map_page_to-Mapped, map_page-Mapped, get_physical_address-Mapped, unmap_page-Mapped,
}

-- Mapping with attributes but `ATTR_DEFER`.
mapped_entry-present :
    (paddr attributes : ℕ) (e : Entry)
    → attr_defer attributes ≡ false
    → (mapped_entry paddr attributes e).p ≡ true
mapped_entry-present paddr attributes e now = rw now refl

phys_of-mapped_entry :
    (frame attributes : ℕ) (e : Entry)
    → frame < 2 ^ 40
    → phys_of (mapped_entry (frame * 2 ^ 12) attributes e) ≡ frame * 2 ^ 12
phys_of-mapped_entry frame attributes e small = omega arith

module _ (alloc : Allocator) (serves : Serves alloc) where
  open alloc use {State}

  module _ (refills : Refills alloc) where
    -- On a coherent directory, with paging ready, attributes that are allowed for the address and
    -- without ATTR_DEFER, a page that is not present and a frame number below 2^40: mapPageTo
    -- succeeds and the page is found at the frame, unmapPage then gives the frame's address back,
    -- after which the page has no physical address, and addresses on other pages have the entries
    -- that they had before.
    pub unmap_page-map_page_to :
        (vaddr frame attributes : ℕ) (d : Directory) (m : Machine State)
        → m.paging_ready ≡ true
        → may_map vaddr attributes ≡ true
        → attr_defer attributes ≡ false
        → frame < 2 ^ 40
        → IsCoherent 3 d.manager
        → (entry_at 3 d.manager vaddr).p ≡ false
        → (d₁ : Directory) × (m₁ : Machine State) × (d₂ : Directory) × (map_page_to alloc vaddr
              (frame * 2 ^ 12)
              attributes
              d
              m
            ≡ some (d₁, m₁))
          × (get_physical_address vaddr d₁ m₁ ≡ some (some (frame * 2 ^ 12)))
          × (unmap_page vaddr d₁ m₁ ≡ some (frame * 2 ^ 12, d₂))
          × (get_physical_address vaddr d₂ m₁ ≡ some none)
          × ((b : ℕ)
              → same_page 3 vaddr b ≡ false
              → entry_at 3 d₂.manager b ≡ entry_at 3 d.manager b)
    unmap_page-map_page_to vaddr frame attributes d m ready allowed now small c free =
        let entry = mapped_entry (frame * 2 ^ 12) attributes (entry_at 3 d.manager vaddr) in
        let (t, s, ran, w, x) =
          map_page_to-Mapped alloc serves refills vaddr (frame * 2 ^ 12) attributes d m ready
            allowed c free in
        let d₁ : Directory = record d { manager = t } in
        let m₁ : Machine State = record m { heap = s.heap; memory = s.memory } in
        let present =
          mapped_entry-present (frame * 2 ^ 12) attributes (entry_at 3 d.manager vaddr) now in
        let where_to = phys_of-mapped_entry frame attributes (entry_at 3 d.manager vaddr) small in
        let (t', back, w') = unmap_page-Mapped m₁ ready vaddr d₁ d.manager entry w present in
        (
          d₁,
          m₁,
          record d { manager = t' },
          ran,
          get_physical_address-Mapped m₁ ready vaddr d₁ d.manager entry w
              ∙ rw (present, where_to) refl,
          back ∙ ap (λ x. some (x, record d { manager = t' })) where_to,
          get_physical_address-Mapped m₁ ready vaddr (record d { manager = t' }) t (unmapped entry)
              w',
          λ b other. w'.reads b ∙ rw other refl ∙ w.reads b ∙ rw other refl,
        )

    -- On a coherent directory, with paging ready, attributes that are allowed for the address and
    -- without ATTR_DEFER, a page that is not present and a frame number from getFreePage below 2^40
    -- - 1: mapPage succeeds, the page is found at that frame, which was free and is now
    -- marked, used frames stay used, and no other page's entry changes.
    pub map_page-get_free_page :
        (vaddr attributes : ℕ) (d : Directory) (m : Machine State) (page : ℕ) (memory : Memory)
        → m.paging_ready ≡ true
        → may_map vaddr attributes ≡ true
        → attr_defer attributes ≡ false
        → IsCoherent 3 d.manager
        → (entry_at 3 d.manager vaddr).p ≡ false
        → get_free_page m.memory ≡ some (page, memory)
        → page < 2 ^ 40 - 1
        → (d₁ : Directory) × (m₁ : Machine State) × (map_page alloc vaddr attributes d m
            ≡ some (page * 2 ^ 12, d₁, m₁))
          × (get_physical_address vaddr d₁ m₁ ≡ some (some (page * 2 ^ 12)))
          × (is_used m.memory page ≡ false)
          × (is_used m₁.memory page ≡ true)
          × ((q : ℕ) → is_used m.memory q ≡ true → is_used m₁.memory q ≡ true)
          × ((b : ℕ)
              → same_page 3 vaddr b ≡ false
              → entry_at 3 d₁.manager b ≡ entry_at 3 d.manager b)
    map_page-get_free_page vaddr attributes d m page memory ready allowed now c free got small =
        let entry = mapped_entry (page * 2 ^ 12) attributes (entry_at 3 d.manager vaddr) in
        let (t, s, ran, w, x) =
          map_page-Mapped alloc serves refills vaddr attributes d m page memory ready allowed now c
            free got small in
        let m₁ : Machine State = record m { memory = s.memory; heap = s.heap } in
        let a = Allocates-of_runs m.memory page memory got in
        (
          record d { manager = t },
          m₁,
          ran,
          get_physical_address-Mapped m₁ ready vaddr (record d { manager = t }) d.manager entry w
              ∙ rw
                  (
                    mapped_entry-present (page * 2 ^ 12) attributes (entry_at 3 d.manager vaddr)
                        now,
                    phys_of-mapped_entry page attributes (entry_at 3 d.manager vaddr) (omega arith),
                  )
                  refl,
          a.free,
          x.keeps page (a.marked.reads page ∙ rw (==-refl page) refl),
          λ q used. x.keeps q (ground (arith, a.marked.reads q)),
          λ b other. w.reads b ∙ rw other refl,
        )
