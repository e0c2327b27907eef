-- ===== src/Paging/Tests.antt =====
-- Runs of the paging code, and the theorems about it at concrete directories.
use flix.Base.{◌≡◌, refl, Bool, true, false, Option, some, [], ◌∷◌, Memᴰ, ◌↔◌, ◌>>=◌}
use flix.Memory.{Memory, get_free_page, find_free, set_page_used}
use flix.Paging.{get_page, set_page, reach_page}
use flix.Paging.Access.{entry_at}
use flix.Paging.Directory.{Directory, map_page_to, unmap_page}
use flix.Paging.Visits.{Visit, user_pages, IsUserPage}
use flix.Paging.Visited.{mem-user_pages_iff}
use flix.Paging.Samples.{blocks, machine, fresh, process}

-- After `getFreePage`.
abbrev next_memory : Memory
next_memory = record { frames = true ∷ true ∷ true ∷ true ∷ []; used_page_count = 4 }

get_free_page_test : get_free_page machine.memory ≡ some (2, next_memory)
unfolding get_free_page find_free set_page_used
get_free_page_test = refl

-- The visit of the page of `process`.
abbrev visit : Visit
visit = record {
  address = 0x1000;
  entry = record { p = true; writable = true; us = true; nx = false; base = 1 };
}

mem-user_pages_iff_example :
    Memᴰ visit (user_pages process.manager) ↔ IsUserPage process.manager visit
mem-user_pages_iff_example = mem-user_pages_iff process.manager visit

-- Unmapping leaves the rights in the entry: a page that is mapped again without `ATTR_RW` can still be written.
abbrev remapped : Option Bool
remapped = do
  (d₁, m₁) ← map_page_to blocks 0x7000 0x3000 3 fresh machine
  (_, d₂) ← unmap_page 0x7000 d₁ m₁
  (d₃, m₃) ← map_page_to blocks 0x7000 0x3000 2 d₂ m₁
  some (entry_at 3 d₃.manager 0x7000).writable

remapped_test : remapped ≡ some true
unfolding map_page_to unmap_page entry_at reach_page get_page set_page get_free_page set_page_used
remapped_test = refl
