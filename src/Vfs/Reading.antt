-- ===== src/Vfs/Reading.antt =====
-- Cpio.cpp, `readArchive`: the tree that is read from an archive.
use flix.Base.{
  ℕ, ◌+◌, ◌-◌, ◌*◌, ◌/◌, ◌%◌, ◌^◌, ◌<◌, ◌≡◌, ◌≢◌, refl, ◌∙◌, ap, Bool, true, false, not, Option,
  some, List, [], ◌∷◌, ◌++◌, suc, arith, ◌==◌, if◌then◌else◌, ◌>>=◌, ◌>>◌, length, drop, resize,
  inl, inr, Bool-cases, assert,
}
use mathlib.Core.Path.{fun_ext}
use flix.Vfs.{String, equals, Inodes, c_string}
use flix.Vfs.Archive.{
  Contents, make_file, field, file_size, trailer, tree_after, skip, read_archive,
}

-- A file of an archive.
pub record Entry : Type 0 where
  pub name : String
  pub mode : ℕ
  pub bytes : List ℕ

-- A zero behind an odd number of bytes.
abbrev pub padded : ℕ → List ℕ → List ℕ
padded n rest = if n % 2 == 0 then rest else 0 ∷ rest

abbrev pub low : ℕ → ℕ
low n = n % 2 ^ 8

abbrev pub high : ℕ → ℕ
high n = n / 2 ^ 8

-- A name with its terminating zero.
abbrev pub closed : String → List ℕ
closed name = name ++ 0 ∷ []

-- A header in front of what follows; the fields that are not read are 0.
abbrev pub header : ℕ → ℕ → ℕ → List ℕ → List ℕ
header mode name_size size rest =
    0xc7
    ∷ 0x71
    ∷ 0
    ∷ 0
    ∷ 0
    ∷ 0
    ∷ low mode
    ∷ high mode
    ∷ 0
    ∷ 0
    ∷ 0
    ∷ 0
    ∷ 0
    ∷ 0
    ∷ 0
    ∷ 0
    ∷ 0
    ∷ 0
    ∷ 0
    ∷ 0
    ∷ low name_size
    ∷ high name_size
    ∷ low (size / 2 ^ 16)
    ∷ high (size / 2 ^ 16)
    ∷ low (size % 2 ^ 16)
    ∷ high (size % 2 ^ 16)
    ∷ rest

-- The entry in front of the rest of the archive.
abbrev pub encode : Entry → List ℕ → List ℕ
encode e rest =
    header e.mode (length (closed e.name)) (length e.bytes)
      (closed e.name ++ padded (length (closed e.name)) (e.bytes ++ padded (length e.bytes) rest))

abbrev pub archive : List Entry → List ℕ
archive [] = header 0 11 0 (closed trailer ++ 0 ∷ [])
archive (e ∷ es) = encode e (archive es)

abbrev pub contents : Entry → Contents
contents e = record { mode = e.mode; size = length e.bytes; bytes = e.bytes }

-- The files are made one after the other; one that is refused is left out.
abbrev pub make_files : List Entry → Inodes → Option Inodes
make_files [] is = some is
make_files (e ∷ es) is =
    make_file [] e.name (contents e) is >>= (λ r. make_files es (tree_after r is))

abbrev pub NoZero : String → Type 0
NoZero [] = Unit
NoZero (c ∷ cs) = (c ≢ 0) × NoZero cs

-- What an archive can hold.
pub record IsEntry (e : Entry) : Type 0 where
  pub c_name : NoZero e.name
  pub other : equals e.name trailer ≡ false
  pub name_fits : length (closed e.name) < 2 ^ 16
  pub mode_fits : e.mode < 2 ^ 16
  pub bytes_fit : length e.bytes < 2 ^ 32

abbrev pub AllEntries : List Entry → Type 0
AllEntries [] = Unit
AllEntries (e ∷ es) = IsEntry e × AllEntries es

resize-append : (xs ys : List ℕ) → resize (length xs) 0 (xs ++ ys) ≡ xs
resize-append [] ys = refl
resize-append (x ∷ xs) ys = ap (λ t. x ∷ t) (resize-append xs ys)

drop-append : (xs ys : List ℕ) → drop (length xs) (xs ++ ys) ≡ ys
drop-append [] ys = refl
drop-append (x ∷ xs) ys = drop-append xs ys

drop-append_suc : (xs ys : List ℕ) → drop (suc (length xs)) (xs ++ 0 ∷ ys) ≡ ys
drop-append_suc [] ys = refl
drop-append_suc (x ∷ xs) ys = drop-append_suc xs ys

length-closed : (s : String) → length (closed s) ≡ suc (length s)
length-closed [] = refl
length-closed (c ∷ cs) = ap suc (length-closed cs)

resize-closed : (s : String) (ys : List ℕ) → resize (length s) 0 (closed s ++ ys) ≡ s
resize-closed [] ys = refl
resize-closed (c ∷ cs) ys = ap (λ t. c ∷ t) (resize-closed cs ys)

c_string-NoZero : (s : String) → NoZero s → c_string s ≡ s
c_string-NoZero [] h = refl
c_string-NoZero (c ∷ cs) h =
    let more : (c == 0) ≡ false = ground (arith, h.0) in
    rw more (ap (λ t. c ∷ t) (c_string-NoZero cs h.1))

skip-append : (xs ys : List ℕ) → skip (length xs) (xs ++ padded (length xs) ys) ≡ ys
skip-append xs ys = elim (Bool-cases (length xs % 2 == 0)) [
  | inl e ↦
      let even : length xs + length xs % 2 ≡ length xs = ground arith in
      rw (even, e) (drop-append xs ys)
  | inr e ↦
      let odd : length xs + length xs % 2 ≡ suc (length xs) = ground arith in
      rw (odd, e) (drop-append_suc xs ys)
]

read_name : (s : String) (ys : List ℕ) → resize (length (closed s) - 1) 0 (closed s ++ ys) ≡ s
read_name s ys =
    let same : length (closed s) - 1 ≡ length s = omega (arith, length-closed s) in
    rw same (resize-closed s ys)

field_parts : (n : ℕ) → n % 2 ^ 8 + 2 ^ 8 * (n / 2 ^ 8) ≡ n
field_parts n = omega arith

-- One round of the loop, from what it has found: whether there is a name, the name, the bytes, and what
-- stands behind the entry.
abbrev round : ℕ → ℕ → ℕ → Inodes → Bool → String → List ℕ → List ℕ → Option Inodes
round fuel mode size is named name bytes rest =
    assert named
    >> (if equals name trailer
        then some is
        else (make_file [] (c_string name) (record { mode = mode; size = size; bytes = bytes }) is
            >>= (λ r. read_archive fuel rest (tree_after r is))))

-- The same, from the fields of the header and what stands behind it.
abbrev round_at : ℕ → List ℕ → Inodes → ℕ → ℕ → ℕ → Option Inodes
round_at fuel x is name_size size mode =
    round fuel mode size is (not (name_size == 0)) (resize (name_size - 1) 0 x)
      (resize size 0 (skip name_size x)) (skip size (skip name_size x))

round-read :
    (fuel mode size : ℕ) (is : Inodes) (name : String) (bytes rest : List ℕ)
    → NoZero name
    → equals name trailer ≡ false
    → round fuel mode size is true name bytes rest ≡ (
        make_file [] name (record { mode = mode; size = size; bytes = bytes }) is
        >>= (λ r. read_archive fuel rest (tree_after r is)))
round-read fuel mode size is name bytes rest z other = rw (other, c_string-NoZero name z) refl

round_at-encode :
    (fuel : ℕ) (e : Entry) (rest : List ℕ) (is : Inodes)
    → IsEntry e
    → round_at fuel
        (closed e.name ++ padded (length (closed e.name)) (e.bytes ++ padded (length e.bytes) rest))
        is
        (length (closed e.name))
        (length e.bytes)
        e.mode
      ≡ (make_file [] e.name (contents e) is >>= (λ r. read_archive fuel rest (tree_after r is)))
round_at-encode fuel e rest is h =
    let tail = e.bytes ++ padded (length e.bytes) rest in
    let x = closed e.name ++ padded (length (closed e.name)) tail in
    let size = length e.bytes in
    let named : not (length (closed e.name) == 0) ≡ true = ground (arith, length-closed e.name) in
    let behind : skip (length (closed e.name)) x ≡ tail = skip-append (closed e.name) tail in
    ap
      (λ b.
        round fuel e.mode size is b (resize (length (closed e.name) - 1) 0 x)
          (resize size 0 (skip (length (closed e.name)) x))
          (skip size (skip (length (closed e.name)) x)))
      named
    ∙ ap
        (λ n.
          round fuel e.mode size is true n (resize size 0 (skip (length (closed e.name)) x))
            (skip size (skip (length (closed e.name)) x)))
        (read_name e.name _)
    ∙ ap (λ t. round fuel e.mode size is true e.name (resize size 0 t) (skip size t)) behind
    ∙ ap (λ t. round fuel e.mode size is true e.name t (skip size tail)) (resize-append e.bytes _)
    ∙ ap (λ t. round fuel e.mode size is true e.name e.bytes t) (skip-append e.bytes rest)
    ∙ round-read fuel e.mode size is e.name e.bytes rest h.c_name h.other

read_archive-encode :
    (fuel : ℕ) (e : Entry) (rest : List ℕ) (is : Inodes)
    → IsEntry e
    → read_archive (suc fuel) (encode e rest) is
      ≡ (make_file [] e.name (contents e) is >>= (λ r. read_archive fuel rest (tree_after r is)))
unfolding read_archive
read_archive-encode fuel e rest is h =
    let m = encode e rest in
    let x =
      closed e.name ++ padded (length (closed e.name)) (e.bytes ++ padded (length e.bytes) rest) in
    let size : file_size (encode e rest) ≡ length e.bytes = omega arith in
    ap (λ n. round_at fuel x is n (file_size m) (field m 6)) (field_parts (length (closed e.name)))
    ∙ ap (λ n. round_at fuel x is (length (closed e.name)) n (field m 6)) size
    ∙ ap (λ n. round_at fuel x is (length (closed e.name)) (length e.bytes) n) (field_parts e.mode)
    ∙ round_at-encode fuel e rest is h

-- An archive of files, whose names have no zero and are not the trailer's and whose lengths and
-- modes fit their fields, is read by making them one after the other, each with its mode, size and
-- bytes, without those that makeFile refuses; the loop ends with one round for each file and one for
-- the trailer.
pub read_archive-archive :
    (es : List Entry) (is : Inodes)
    → AllEntries es
    → read_archive (suc (length es)) (archive es) is ≡ make_files es is
unfolding read_archive
read_archive-archive [] is h = refl
read_archive-archive (e ∷ es) is h =
    read_archive-encode (suc (length es)) e (archive es) is h.0
    ∙ ap (λ f. make_file [] e.name (contents e) is >>= f)
        (fun_ext (λ r. read_archive-archive es (tree_after r is) h.1))
