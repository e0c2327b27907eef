-- ===== src/Memory.antt =====
-- source/Memory.cpp and Memory.hpp: the map of physical page frames. A frame number is a `page_t`;
-- `none` is a failed assertion. Also `intAlignSup` of Util.hpp.
pub mod Frames
pub mod Alloc
pub mod Growth
pub mod Ranges
mod Tests
use flix.Base.{
  ℕ, ◌+◌, ◌-◌, ◌*◌, ◌/◌, ◌^◌, Bool, true, false, not, Option, none, some, List, [], ◌∷◌, zero, suc,
  length, get_or, set, resize, assert, ◌>>=◌, ◌>>◌, ltb, leb, if◌then◌else◌, ◌||◌,
}

pub record Memory : Type 0 where
  pub frames : List Bool
  pub used_page_count : ℕ

-- `intAlignSup(base, 1 << k)`: `& ~(val - 1)` clears the low `k` bits of the sum.
unfoldable pub int_align_sup : ℕ → ℕ → ℕ
int_align_sup base k = (base + 2 ^ k - 1) / 2 ^ k * 2 ^ k

-- `_frames[page]`; a frame past the end of the vector is free.
unfoldable pub is_used : Memory → ℕ → Bool
is_used m page = get_or m.frames page false

-- The `resize` at the head of `setPageUsed`.
grow : ℕ → Memory → Memory
unfolding int_align_sup
grow page m =
    if leb (length m.frames) page
    then record m { frames = resize (int_align_sup (page + 1) 4) false m.frames }
    else m

unfoldable pub set_page_used : ℕ → Memory → Option Memory
unfolding grow
set_page_used page m =
    let g = grow page m in
    do
      assert (ltb page (length g.frames))
      assert (not (get_or g.frames page false))
      some (record g { frames = set g.frames page true; used_page_count = g.used_page_count + 1 })

pub set_page_free : ℕ → Memory → Option Memory
set_page_free page m = do
  assert (ltb page (length m.frames))
  assert (get_or m.frames page false)
  some (record m { frames = set m.frames page false; used_page_count = m.used_page_count - 1 })

-- The loop of `getFreePage`, from index `i` on.
unfoldable pub find_free : List Bool → ℕ → Option ℕ
find_free [] i = none
find_free (used ∷ rest) i = let later = find_free rest (i + 1) in if used then later else some i

unfoldable pub get_free_page : Memory → Option (ℕ × Memory)
unfolding find_free
get_free_page m = elim (find_free m.frames 0) [
  | some i ↦ do m' ← set_page_used i m; some (i, m')
  | none ↦
      let i = length m.frames in
      do m' ← set_page_used i (record m { frames = resize (i + 16) false m.frames }); some (i, m')
]

-- The loop of `setRangeUsed`, by the number of rounds left.
unfoldable pub set_range_rounds : ℕ → ℕ → Memory → Option Memory
set_range_rounds zero page m = some m
set_range_rounds (suc n) page m = do m' ← set_page_used page m; set_range_rounds n (page + 1) m'

pub set_range_used : ℕ → ℕ → Memory → Option Memory
unfolding set_range_rounds
set_range_used start stop m = do assert (leb start stop); set_range_rounds (stop - start) start m

-- One round of `completeRangeUsed`.
complete_page : ℕ → Memory → Option Memory
complete_page page m =
    if leb (length m.frames) page || not (get_or m.frames page false)
    then set_page_used page m
    else some m

complete_range_rounds : ℕ → ℕ → Memory → Option Memory
complete_range_rounds zero page m = some m
complete_range_rounds (suc n) page m = do
  m' ← complete_page page m
  complete_range_rounds n (page + 1) m'

pub complete_range_used : ℕ → ℕ → Memory → Option Memory
unfolding complete_range_rounds
complete_range_used start stop m = do
  assert (leb start stop)
  complete_range_rounds (stop - start) start m
