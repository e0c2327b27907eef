-- ===== src/Syscall/Stat.antt =====
-- source/Syscall.cpp, `newfstatat`: what is known of a file by its path. The outer `none` is fuel that ran out in the
-- lookup, or a null pointer that is read; the inner one is the result -1.
use flix.Base.{
  ℕ, ◌+◌, ◌/◌, ◌%◌, ◌^◌, ◌≡◌, refl, ◌∙◌, ap, Bool, false, Option, none, some, List, [], ◌∷◌, suc,
  ◌==◌, if◌then◌else◌, Option-cases, inl, inr, Bool-cases,
}
use flix.Vfs.{
  String, slash, Inode, file, mode_of, size_of, Handle, Found, found, failed, null_read,
  lookup_from,
}
use flix.Vfs.Relative.{lookup_from-file}
use flix.FileManager.{get_handle}

-- `struct stat`, of the fields that are set.
pub record Stat : Type 0 where
  pub st_nlink : ℕ
  pub st_size : ℕ
  pub st_mode : ℕ
  pub st_blksize : ℕ
  pub st_blocks : ℕ

abbrev pub stat_of : Inode → Stat
stat_of target = record {
  st_nlink = 1;
  st_size = size_of target;
  st_mode = mode_of target;
  st_blksize = 1;
  st_blocks = (size_of target + 511) / 512;
}

-- `flags & AT_SYMLINK_NOFOLLOW`
abbrev pub no_follow_flag : ℕ → Bool
no_follow_flag flags = flags / 2 ^ 8 % 2 == 1

-- The end of the handler.
abbrev pub stat_found : Option Found → Option (Option Stat)
stat_found none = none
stat_found (some null_read) = none
stat_found (some (failed e)) = some none
stat_found (some (found none)) = none
stat_found (some (found (some target))) = some (some (stat_of target))

-- The file that a handle was opened on: its name, its mode and its size.
pub record File : Type 0 where
  pub name : String
  pub mode : ℕ
  pub size : ℕ

-- `getInode`, of `CpioFileHandle` and of the handles that have none.
abbrev pub get_inode : Option File → Handle → Option Inode
get_inode none h = none
get_inode (some f) h = some (file f.name f.mode f.size h.bytes)

-- `newfstatat`; a negative `dirfd` is `none`. `file_of` says which file a handle was opened on.
unfoldable pub newfstatat :
    (Handle → Option File)
    → ℕ
    → Inode
    → Option ℕ
    → String
    → ℕ
    → List (Option Handle)
    → Option (Option Stat)
newfstatat file_of fuel root dirfd [] flags files = some none
newfstatat file_of fuel root dirfd (c ∷ cs) flags files =
    if c == slash
    then stat_found (lookup_from fuel root none (c ∷ cs) (no_follow_flag flags) 128)
    else elim dirfd [
      | none ↦ some none
      | some fd ↦ elim (get_handle fd files) [
        | none ↦ some none
        | some h ↦ elim (get_inode (file_of h) h) [
          | none ↦ some none
          | some inode ↦
              stat_found (lookup_from fuel root (some inode) (c ∷ cs) (no_follow_flag flags) 128)
        ]
      ]
    ]

-- The path is absolute.
abbrev pub starts_with_slash : String → Bool
starts_with_slash [] = false
starts_with_slash (c ∷ cs) = c == slash

-- newfstatat gives -1 for every path that does not begin with a slash, whatever descriptor it is
-- given, and otherwise what is known of the file that the lookup of the path finds, or -1 if it
-- finds none.
pub newfstatat-relative :
    (file_of : Handle → Option File) (fuel : ℕ) (root : Inode) (dirfd : Option ℕ) (path : String)
    (flags : ℕ) (files : List (Option Handle))
    → newfstatat file_of (suc fuel) root dirfd path flags files ≡ (
        if starts_with_slash path
        then stat_found (lookup_from (suc fuel) root none path (no_follow_flag flags) 128)
        else some none)
unfolding newfstatat
newfstatat-relative file_of fuel root dirfd [] flags files = refl
newfstatat-relative file_of fuel root dirfd (c ∷ cs) flags files = elim (Bool-cases (c == slash)) [
  | inl absolute ↦ rw absolute refl
  | inr relative ↦ from dirfd relative ∙ rw relative refl
]
  where
    answer : Option Inode → Option (Option Stat)
    answer none = some none
    answer (some inode) =
        stat_found (lookup_from (suc fuel) root (some inode) (c ∷ cs) (no_follow_flag flags) 128)

    at : (f : Option File) (h : Handle) → (c == slash) ≡ false → answer (get_inode f h) ≡ some none
    at none h relative = refl
    at (some f) h relative = ap stat_found (
        lookup_from-file fuel root f.name f.mode f.size h.bytes c cs (no_follow_flag flags) 128
          relative)

    from :
        (d : Option ℕ)
        → (c == slash) ≡ false
        → newfstatat file_of (suc fuel) root d (c ∷ cs) flags files ≡ some none
    from none relative = rw relative refl
    from (some fd) relative = elim (Option-cases (get_handle fd files)) [
      | inl closed ↦ rw (relative, closed) refl
      | inr (h, e) ↦ rw (relative, e) (at (file_of h) h relative)
    ]
