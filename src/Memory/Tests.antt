-- ===== src/Memory/Tests.antt =====
-- Runs of the frame map, and the theorems about it at concrete maps.
use flix.Base.{ℕ, ◌≤◌, ◌<◌, ◌≡◌, refl, true, false, some, [], ◌∷◌, get_or-length_le}
use flix.Memory.{Memory, is_used, get_free_page, set_page_used}
use flix.Memory.Alloc.{Allocates, get_free_page-Allocates}

-- Frames 0 and 2 are used.
abbrev sparse : Memory
sparse = record { frames = true ∷ false ∷ true ∷ []; used_page_count = 2 }

abbrev filled : Memory
filled = record { frames = true ∷ true ∷ true ∷ []; used_page_count = 3 }

get_free_page_test : get_free_page sparse ≡ some (1, filled)
unfolding get_free_page set_page_used
get_free_page_test = refl

get_free_page-Allocates_example : (page : ℕ) × (m' : Memory) × Allocates filled page m'
get_free_page-Allocates_example = get_free_page-Allocates filled

sparse_from_3 : (q : ℕ) → 3 ≤ q → q < 40 → is_used sparse q ≡ false
unfolding is_used
sparse_from_3 q low high = get_or-length_le sparse.frames q false low
