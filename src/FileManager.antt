-- ===== src/FileManager.antt =====
-- source/FileManager.cpp: the table of open files of a task. A handle is of any type `H`; `none` in the
-- table is a null pointer.
pub mod Table
mod Tests
use flix.Base.{
  ℕ, ◌+◌, ◌-◌, ◌<◌, Bool, true, false, not, Option, none, some, List, [], ◌∷◌, ◌++◌, zero, suc, ltb,
  if◌then◌else◌, length, get_or, set,
}
use flix.Vfs.{IoError, Expected, value, unexpected}

module _ {H : Type 0} where
  abbrev pub is_null : Option H → Bool
  is_null none = true
  is_null (some h) = false

  -- The loop of `open`: the first free entry from `i` on.
  unfoldable pub free_entry : List (Option H) → ℕ → Option ℕ
  free_entry [] i = none
  free_entry (f ∷ fs) i = let rest = free_entry fs (i + 1) in if is_null f then some i else rest

  -- Where `open` puts a handle.
  abbrev pub put_handle : H → List (Option H) → Option ℕ → ℕ × List (Option H)
  put_handle h files (some i) = (i, set files i (some h))
  put_handle h files none = (length files, files ++ some h ∷ [])

  -- `open`, from the handle or the error of the inode.
  unfoldable pub open_file : Expected H → List (Option H) → Expected ℕ × List (Option H)
  open_file (unexpected e) files = (unexpected e, files)
  open_file (value h) files =
      let (i, files₁) = put_handle h files (free_entry files 0) in (value i, files₁)

  -- `close`, for a file descriptor that is not negative; `false` is the result -1.
  unfoldable pub close : ℕ → List (Option H) → Bool × List (Option H)
  close fd files = if ltb fd (length files) then (true, set files fd none) else (false, files)

  unfoldable pub get_handle : ℕ → List (Option H) → Option H
  get_handle fd files = if ltb fd (length files) then get_or files fd none else none

  -- The constructor, from the handles for input and output.
  abbrev pub standard_files : H → H → List (Option H)
  standard_files std_in std_out = some std_in ∷ some std_out ∷ some std_out ∷ []
