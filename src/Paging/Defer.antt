-- ===== src/Paging/Defer.antt =====
-- source/PageDirectory.cpp: `mapPage` with `ATTR_DEFER`, and the faults on the page that follow.
use flix.Base.{ℕ, ◌*◌, ◌^◌, ◌≡◌, ◌∙◌, true, false, some, >>=-some, assert-true}
use flix.Memory.{Memory}
use flix.Paging.{Supply, Tables, invalid_phys, Allocator}
use flix.Paging.Access.{entry_at, same_page}
use flix.Paging.Coherent.{TakesFrames, Refills, IsCoherent, Serves}
use flix.Paging.Directory.{
  Directory, Machine, attr_defer, mapped_entry, may_map, map_page, get_physical_address,
  handle_fault,
}
use flix.Paging.Mapping.{Mapped, map_page_to-Mapped}

-- The first fault on a page gives it a frame and leaves `memory`, and the second is not handled; `d` is the directory
-- before the page was mapped.
abbrev pub FilledByFault :
    {S : Type 0} → ℕ → ℕ → Memory → Directory → Directory → Machine S → Type 0
FilledByFault {S} vaddr page memory d d₁ m₁ =
    (d₂ : Directory) × (m₂ : Machine S) × (handle_fault vaddr d₁ m₁ ≡ some (true, d₂, m₂))
    × (get_physical_address vaddr d₂ m₂ ≡ some (some (page * 2 ^ 12)))
    × (m₂.memory ≡ memory)
    × (handle_fault vaddr d₂ m₂ ≡ some (false, d₂, m₂))
    × ((b : ℕ) → same_page 3 vaddr b ≡ false → entry_at 3 d₂.manager b ≡ entry_at 3 d.manager b)

module _ (alloc : Allocator) (serves : Serves alloc) where
  open alloc use {State}

  module _ (refills : Refills alloc) where
    pub map_page-deferred :
        (vaddr attributes : ℕ) (d : Directory) (m : Machine State)
        → m.paging_ready ≡ true
        → may_map vaddr attributes ≡ true
        → attr_defer attributes ≡ true
        → IsCoherent 3 d.manager
        → (entry_at 3 d.manager vaddr).p ≡ false
        → (t : Tables 3) × (s : Supply State) × (map_page alloc vaddr attributes d m
            ≡ some (
              invalid_phys,
              record d { manager = t },
              record m { heap = s.heap; memory = s.memory },
            ))
          × Mapped vaddr
              (mapped_entry invalid_phys attributes (entry_at 3 d.manager vaddr))
              d.manager
              t
          × TakesFrames m.memory s.memory 4
    unfolding map_page
    map_page-deferred vaddr attributes d m ready allowed defer c free =
        let (t, s, e, w, x) =
          map_page_to-Mapped alloc serves refills vaddr invalid_phys attributes d m ready allowed c
            free in
        (t, s, assert-true _ _ ready ∙ rw defer (>>=-some _ _ e), w, x)
