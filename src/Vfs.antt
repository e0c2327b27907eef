-- ===== src/Vfs.antt =====
-- source/Fs.cpp and Fs.hpp: paths and their lookup; and the inodes and file handles of source/Cpio.cpp.
-- A character is its code, and a string or a buffer the list of its characters. `none` for a
-- `shared_ptr` is a null pointer.
pub mod Archive
pub mod Split
pub mod Children
pub mod Insert
pub mod Lookup
pub mod Relative
pub mod Files
pub mod Reading
pub mod Links
pub mod Handles
mod Tests
use flix.Base.{
  ℕ, ◌+◌, ◌-◌, ◌/◌, ◌%◌, ◌^◌, Bool, true, false, not, Option, none, some, List, [], ◌∷◌, ◌++◌, zero,
  suc, min, ltb, leb, ◌==◌, if◌then◌else◌, ◌&&◌, ◌||◌, assert, ◌>>=◌, ◌>>◌, length, take, drop,
}

abbrev pub String : Type 0
String = List ℕ

-- `'/'`
abbrev pub slash : ℕ
slash = 47

abbrev pub equals : String → String → Bool
equals [] [] = true
equals [] (d ∷ ds) = false
equals (c ∷ cs) [] = false
equals (c ∷ cs) (d ∷ ds) = (c == d) && equals cs ds

abbrev pub is_empty : String → Bool
is_empty [] = true
is_empty (c ∷ cs) = false

pub data IoError : Type 0 where
  invalid_path not_found not_seekable not_readable not_writable not_a_directory not_a_file : IoError

-- `IoExpected<T>`
pub data Expected {ℓ} (A : Type ℓ) : Type ℓ where
  value : A → Expected A
  unexpected : IoError → Expected A

-- `CpioFileInode` and `CpioFolderInode`: the name, the mode, and the size with the data or the children.
mutual
  pub data Inode : Type 0 where
    file : String → ℕ → ℕ → List ℕ → Inode
    folder : String → ℕ → Inodes → Inode

  pub data Inodes : Type 0 where
    nil : Inodes
    cons : Inode → Inodes → Inodes

abbrev pub name_of : Inode → String
name_of (file n m s d) = n
name_of (folder n m cs) = n

abbrev pub mode_of : Inode → ℕ
mode_of (file n m s d) = m
mode_of (folder n m cs) = m

abbrev pub size_of : Inode → ℕ
size_of (file n m s d) = s
size_of (folder n m cs) = 0

-- `(mode & S_IFMT) == S_IFLNK`, and the same with `S_IFDIR`; modes have 16 bits.
abbrev pub is_link : ℕ → Bool
is_link mode = mode / 2 ^ 12 % 2 ^ 4 == 0xa

abbrev pub is_dir : ℕ → Bool
is_dir mode = mode / 2 ^ 12 % 2 ^ 4 == 0x4

-- The loop of `CpioFolderInode::lookup`.
unfoldable pub find : String → Inodes → Option Inode
find name nil = none
find name (cons i is) = if equals (name_of i) name then some i else find name is

-- `Inode::lookup`
unfoldable pub child : String → Inode → Expected Inode
unfolding find
child name (file n m s d) = unexpected not_a_directory
child name (folder n m is) = elim (find name is) [ none ↦ unexpected not_found | some i ↦ value i ]

-- `CpioFileHandle`: the data of its file, and `_pos`.
pub record Handle : Type 0 where
  pub bytes : List ℕ
  pub pos : ℕ

-- `Inode::open`
abbrev pub open_inode : Inode → Expected Handle
open_inode (file n m s d) = value (record { bytes = d; pos = 0 })
open_inode (folder n m is) = unexpected not_a_file

pub data Whence : Type 0 where
  begin current end : Whence

unfoldable pub lseek : ℕ → Whence → Handle → ℕ × Handle
lseek position begin h = (position, record h { pos = position })
lseek position current h = let p = (h.pos + position) % 2 ^ 64 in (p, record h { pos = p })
lseek position end h = let p = (length h.bytes + position) % 2 ^ 64 in (p, record h { pos = p })

-- `read`, with the bytes that it copies; `none` is a copy from outside the data.
unfoldable pub read : ℕ → Handle → Option (List ℕ × Handle)
read size h =
    let n = min size ((length h.bytes + 2 ^ 64 - h.pos) % 2 ^ 64) in
    do
      assert (leb (h.pos + n) (length h.bytes))
      some (take n (drop h.pos h.bytes), record h { pos = (h.pos + n) % 2 ^ 64 })

-- The loop of `split`; `acc` are the characters from `lastiter` on.
pub split_from : Bool → ℕ → String → String → List String
split_from merge val acc [] = if not (is_empty acc) || not merge then acc ∷ [] else []
split_from merge val acc (c ∷ cs) = elim (c == val) [
  | true ↦
      let rest = split_from merge val [] cs in
      if not merge || not (is_empty acc) then acc ∷ rest else rest
  | false ↦ split_from merge val (acc ++ c ∷ []) cs
]

abbrev pub split : String → ℕ → Bool → List String
split str val merge = split_from merge val [] str

-- The loop of `lookup` over the parts of a path: `curInode` and `lastLevel` at its end, a part that is not
-- found, or a null pointer that is read.
pub data Walk : Type 0 where
  reached : Option Inode → Option Inode → Walk
  missing : Walk
  null : Walk

pub walk : Option Inode → Option Inode → List String → Walk
walk last cur [] = reached cur last
walk last none (p ∷ ps) = null
walk last (some i) (p ∷ ps) = elim (child p i) [
  | unexpected e ↦ missing
  | value j ↦ walk (some i) (some j) ps
]

-- What `lookup` returns, or that it reads through a null pointer.
pub data Found : Type 0 where
  found : Option Inode → Found
  failed : IoError → Found
  null_read : Found

abbrev pub max_path_length : ℕ
max_path_length = 256

-- A buffer read as a C string.
abbrev pub c_string : List ℕ → String
c_string [] = []
c_string (c ∷ cs) = if c == 0 then [] else c ∷ c_string cs

-- `lookup` behind its loop; `again` looks the target of a link up.
abbrev pub follow : (String → Option Found) → Bool → Inode → Option Found
follow again no_follow cur =
    if not (is_link (mode_of cur)) || no_follow
    then some (found (some cur))
    else if ltb max_path_length (size_of cur)
    then some (failed invalid_path)
    else elim (open_inode cur) [
      | unexpected e ↦ some (failed e)
      | value h ↦ again (c_string (take (size_of cur) h.bytes))
    ]

-- Behind the loop, from its result.
abbrev pub arrive : (Option Inode → String → Option Found) → Bool → Walk → Option Found
arrive again no_follow null = some null_read
arrive again no_follow missing = some (failed not_found)
arrive again no_follow (reached none last) = some null_read
arrive again no_follow (reached (some cur) last) = follow (again last) no_follow cur

-- `lookup` from an inode, with fuel; `none` is fuel that ran out.
pub lookup_from : ℕ → Inode → Option Inode → String → Bool → ℕ → Option Found
lookup_from zero root inode path no_follow indirection_left = none
lookup_from (suc fuel) root inode [] no_follow indirection_left = some (found inode)
lookup_from (suc fuel) root inode (c ∷ cs) no_follow indirection_left =
    arrive
      (λ last target.
        lookup_from fuel root last target no_follow ((indirection_left + 2 ^ 8 - 1) % 2 ^ 8))
      no_follow (walk none (if c == slash then some root else inode) (split (c ∷ cs) slash true))

-- `lookup` from the root.
pub lookup : ℕ → Inode → String → Bool → Option Found
lookup fuel root [] no_follow = some (failed invalid_path)
lookup fuel root (c ∷ cs) no_follow =
    if c == slash
    then lookup_from fuel root (some root) cs no_follow 128
    else some (failed invalid_path)
