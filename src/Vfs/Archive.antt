-- ===== src/Vfs/Archive.antt =====
-- source/Cpio.cpp: the tree that an archive is read into.
use flix.Base.{
  ℕ, ◌+◌, ◌-◌, ◌*◌, ◌%◌, ◌^◌, zero, suc, drop, get_or, resize, true, false, not, Option, none, some,
  List, [], ◌∷◌, ◌++◌, ◌==◌, if◌then◌else◌, assert, ◌>>=◌, ◌>>◌,
}
use flix.Vfs.{
  String, c_string, slash, equals, is_empty, Inode, Inodes, file, folder, nil, cons, name_of,
  is_dir, find,
}

-- What is set on the inode of a file after `makeFile` has returned it.
pub record Contents : Type 0 where
  pub mode : ℕ
  pub size : ℕ
  pub bytes : List ℕ

-- The children of a folder after `makeFile`, or its `nullptr`.
pub data Made : Type 0 where
  made : Inodes → Made
  refused : Made

abbrev pub push_back : Inode → Inodes → Inodes
push_back j nil = cons j nil
push_back j (cons i is) = cons i (push_back j is)

-- The first child of a name is changed in place.
abbrev pub replace : String → Inode → Inodes → Inodes
replace name j nil = nil
replace name j (cons i is) =
    if equals (name_of i) name then cons j is else cons i (replace name j is)

abbrev pub made_map : (Inodes → Inodes) → Made → Made
made_map f (made is) = made (f is)
made_map f refused = refused

-- A child that was found. A file with the mode of a directory is cast to a folder: `none`.
abbrev pub enter : (Inodes → Option Made) → String → Inodes → Inode → Option Made
enter rest name is (file n m s d) = if is_dir m then none else some refused
enter rest name is (folder n m js) =
    if is_dir m
    then (rest js >>= (λ r. some (made_map (λ ks. replace name (folder n m ks) is) r)))
    else some refused

-- A part of the path that is a folder; `rest` goes on in the folder.
abbrev pub descend : (Inodes → Option Made) → String → Inodes → Option Made → Option Made
descend rest name is created = elim (find name is) [
  | none ↦ created
  | some i ↦ enter rest name is i
]

abbrev pub create : (Inodes → Option Made) → String → Inodes → Option Made
create rest name is =
    rest nil >>= (λ r. some (made_map (λ ks. push_back (folder name 0x4000 ks) is) r))

-- `makeFile` in the folder `curInode`; `acc` are the characters from `start` on.
unfoldable pub make_file : String → String → Contents → Inodes → Option Made
make_file acc [] c is =
    assert (not (is_empty acc)) >> some (made (push_back (file acc c.mode c.size c.bytes) is))
make_file acc (x ∷ xs) c is = elim (x == slash) [
  | true ↦
      assert (not (is_empty acc))
      >> descend (λ js. make_file [] xs c js) acc is (create (λ js. make_file [] xs c js) acc is)
  | false ↦ make_file (acc ++ x ∷ []) xs c is
]

-- A 16-bit field of `CpioFileBlock`, with the low byte first. The memory behind the archive reads as zeros.
abbrev pub field : List ℕ → ℕ → ℕ
field memory at = get_or memory at 0 + 2 ^ 8 * get_or memory (at + 1) 0

-- `curfile->filesize_hi << 16 | curfile->filesize_lo`
abbrev pub file_size : List ℕ → ℕ
file_size memory = 2 ^ 16 * field memory 22 + field memory 24

-- "TRAILER!!!"
abbrev pub trailer : String
trailer = 84 ∷ 82 ∷ 65 ∷ 73 ∷ 76 ∷ 69 ∷ 82 ∷ 33 ∷ 33 ∷ 33 ∷ []

-- The tree when `makeFile` has returned.
abbrev pub tree_after : Made → Inodes → Inodes
tree_after (made js) is = js
tree_after refused is = is

-- What stands behind `n` bytes that are rounded up to an even number.
abbrev pub skip : ℕ → List ℕ → List ℕ
skip n memory = drop (n + n % 2) memory

-- What is made of one entry: its name, and what stands behind the header and the name.
abbrev pub add_entry : List ℕ → String → List ℕ → Inodes → Option Made
add_entry memory name behind is =
    make_file [] (c_string name)
      (record {
        mode = field memory 6;
        size = file_size memory;
        bytes = resize (file_size memory) 0 behind;
      })
      is

-- The loop of `readArchive`, with fuel, at `ptr`; `none` is a panic.
unfoldable pub read_archive : ℕ → List ℕ → Inodes → Option Inodes
read_archive zero memory is = none
read_archive (suc fuel) memory is =
    let name_size = field memory 20 in
    let name = resize (name_size - 1) 0 (drop 26 memory) in
    let behind = skip name_size (drop 26 memory) in
    let rest =
      add_entry memory name behind is
      >>= (λ r. read_archive fuel (skip (file_size memory) behind) (tree_after r is)) in
    assert (field memory 0 == 0o70707)
    >> assert (not (name_size == 0))
    >> (if equals name trailer then some is else rest)
