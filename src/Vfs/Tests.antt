-- ===== src/Vfs/Tests.antt =====
-- A small archive, and the theorems about paths, links and handles at it.
use flix.Base.{ℕ, ◌≡◌, refl, true, false, none, some, List, [], ◌∷◌, ◌++◌, arith}
use flix.Vfs.{
  String, slash, Inodes, file, folder, nil, cons, find, found, failed, not_found, lookup,
  lookup_from, walk, child, split_from, Handle, read,
}
use flix.Vfs.Archive.{Contents, made, make_file}
use flix.Vfs.Archive.{read_archive}
use flix.Vfs.Reading.{Entry, archive, make_files, read_archive-archive}
use flix.Vfs.Split.{join}
use flix.Vfs.Files.{lookup-make_file_new, lookup-make_file_old}
use flix.Vfs.Links.{lookup-circular}
use flix.Vfs.Handles.{read-read}

-- "a" and "b".
abbrev a : String
a = 97 ∷ []

abbrev b : String
b = 98 ∷ []

abbrev text : Contents
text = record { mode = 0x81a4; size = 2; bytes = 7 ∷ 8 ∷ [] }

-- The root's children once "a/b" is there.
abbrev tree : Inodes
tree = cons (folder a 0x4000 (cons (file b 0x81a4 2 (7 ∷ 8 ∷ [])) nil)) nil

-- And "a/a" besides.
abbrev larger : Inodes
larger =
    cons
      (folder a 0x4000
        (cons (file b 0x81a4 2 (7 ∷ 8 ∷ [])) (cons (file a 0x81a4 2 (7 ∷ 8 ∷ [])) nil)))
      nil

make_test : make_file [] (join (a ∷ b ∷ [])) text nil ≡ some (made tree)
unfolding make_file find
make_test = refl

make_more_test : make_file [] (join (a ∷ a ∷ [])) text tree ≡ some (made larger)
unfolding make_file find
make_more_test = refl

-- A directory of the archive that is a file here: the next file in it takes it for a folder.
directory_test : make_file [] (join (a ∷ b ∷ [])) text (cons (file a 0x41ed 0 []) nil) ≡ none
unfolding make_file find
directory_test = refl

missing_test : lookup 1 (folder [] 0 nil) (slash ∷ join (a ∷ b ∷ [])) true ≡ some (failed not_found)
unfolding lookup lookup_from walk child find split_from
missing_test = refl

present_test :
    lookup 1 (folder [] 0 tree) (slash ∷ join (a ∷ b ∷ [])) true
    ≡ some (found (some (file b 0x81a4 2 (7 ∷ 8 ∷ []))))
unfolding lookup lookup_from walk child find split_from
present_test = refl

lookup-make_file_new_example :
    lookup 1 (folder [] 0 tree) (slash ∷ join (a ∷ b ∷ [])) false
    ≡ some (found (some (file b 0x81a4 2 (7 ∷ 8 ∷ []))))
lookup-make_file_new_example =
    lookup-make_file_new 0 [] a 0 nil tree (b ∷ []) text false
      ((refl, (omega arith, tt)), ((refl, (omega arith, tt)), tt)) missing_test make_test refl

lookup-make_file_old_example :
    lookup 1 (folder [] 0 larger) (slash ∷ join (a ∷ b ∷ [])) true
    ≡ some (found (some (file b 0x81a4 2 (7 ∷ 8 ∷ []))))
lookup-make_file_old_example =
    lookup-make_file_old 0 [] a a 0 tree larger (a ∷ []) (b ∷ []) text b 0x81a4 2 (7 ∷ 8 ∷ [])
      ((refl, (omega arith, tt)), ((refl, (omega arith, tt)), tt))
      ((refl, (omega arith, tt)), ((refl, (omega arith, tt)), tt)) present_test make_more_test

-- The link "a" to "a".
abbrev looping : Inodes
looping = cons (file a 0xa1ff 1 a) nil

lookup-circular_example : lookup 1000 (folder [] 0 looping) (slash ∷ a) false ≡ none
lookup-circular_example =
    lookup-circular 1000 [] a a 0xa1ff 0 1 looping a (refl, (omega arith, tt)) (unfold find in refl)
      refl (omega arith) refl

abbrev handle : Handle
handle = record { bytes = 5 ∷ 6 ∷ 7 ∷ []; pos = 1 }

read-read_example :
    (xs : List ℕ) × (ys : List ℕ) × (h₁ : Handle) × (h₂ : Handle) × (read 1 handle ≡ some (xs, h₁))
    × (read 4 h₁ ≡ some (ys, h₂))
    × (read 5 handle ≡ some (xs ++ ys, h₂))
read-read_example = read-read 1 4 handle (omega arith) (omega arith)

-- Past the end of the data, `read` copies from outside of it.
read_past_test : read 1 (record handle { pos = 4 }) ≡ none
unfolding read
read_past_test = refl

-- The archive with the file "a/b".
abbrev entry : Entry
entry = record { name = 97 ∷ slash ∷ 98 ∷ []; mode = 0x81a4; bytes = 7 ∷ 8 ∷ [] }

read_test : read_archive 2 (archive (entry ∷ [])) nil ≡ some tree
unfolding read_archive make_file find
read_test = refl

read_archive-archive_example :
    read_archive 2 (archive (entry ∷ [])) nil ≡ make_files (entry ∷ []) nil
read_archive-archive_example = read_archive-archive (entry ∷ []) nil (
  record {
    c_name = (omega arith, (omega arith, (omega arith, tt)));
    other = refl;
    name_fits = omega arith;
    mode_fits = omega arith;
    bytes_fit = omega arith;
  },
  tt,
)
