-- ===== src/FileManager/Tests.antt =====
-- The table of open files, and the theorems about it at a concrete table.
use flix.Base.{ℕ, ◌≡◌, refl, true, Option, none, some, List, [], ◌∷◌}
use flix.Vfs.{value}
use flix.FileManager.{open_file, close, standard_files}
use flix.FileManager.Table.{Opened, open_file-Opened}

-- Handles named by numbers; the second entry is free.
abbrev files : List (Option ℕ)
files = some 10 ∷ none ∷ some 12 ∷ []

close_test : close {H = ℕ} 1 (standard_files 10 12) ≡ (true, some 10 ∷ none ∷ some 12 ∷ [])
unfolding close
close_test = refl

open_file-Opened_example :
    (fd : ℕ) × (files' : List (Option ℕ)) × (open_file (value 20) files ≡ (value fd, files'))
    × Opened 20 files fd files'
open_file-Opened_example = open_file-Opened 20 files
