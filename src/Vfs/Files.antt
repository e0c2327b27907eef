-- ===== src/Vfs/Files.antt =====
-- Cpio.cpp, `makeFile`, seen through `lookup` of Fs.cpp.
use flix.Base.{
  ℕ, ◌≡◌, refl, ◌∙◌, sym, ap, Bool, true, false, not, Option, none, some, List, [], ◌∷◌, suc,
  Bool-cases, Option-cases, ◌||◌, inl, inr,
}
use mathlib.Core.Path.{subst}
use mathlib.Core.Option.{some-injective}
use flix.Vfs.{
  String, slash, equals, name_of, Inode, Inodes, file, folder, nil, cons, find, mode_of, is_link,
  is_dir, Found, found, failed, null_read, not_found, lookup,
}
use flix.Vfs.Archive.{
  Contents, Made, made, refused, made_map, descend, push_back, replace, make_file,
}
use flix.Vfs.Split.{AllParts, join, put, make_file-put}
use flix.Vfs.Insert.{at, new_file, at-put_new, at-put_old}
use flix.Vfs.Lookup.{lookup-at, lookup-at-none}

stays-true : (b : Bool) → (not b || true) ≡ true
stays-true true = refl
stays-true false = refl

new_file-mode : (p : String) (ps : List String) (c : Contents) → mode_of (new_file p ps c) ≡ c.mode
new_file-mode p [] c = refl
new_file-mode p (q ∷ qs) c = new_file-mode q qs c

abbrev inode_of : Option Found → Option Inode
inode_of (some (found i)) = i
inode_of (some (failed e)) = none
inode_of (some null_read) = none
inode_of none = none

-- What a look-up says about the place.
at_of_found :
    (k : ℕ) (n p : String) (m : ℕ) (is : Inodes) (i : Inode) (ps : List String)
    → AllParts (p ∷ ps)
    → lookup (suc k) (folder n m is) (slash ∷ join (p ∷ ps)) true ≡ some (found (some i))
    → at p ps is ≡ some i
at_of_found k n p m is i ps parts h = elim (Option-cases (at p ps is)) [
  | inl e ↦ let bad = sym (lookup-at-none k n p m is ps true parts e) ∙ h in cc
  | inr (j, e) ↦
      let same = sym (lookup-at k n p m is j ps true parts e (stays-true _)) ∙ h in
      e ∙ ap inode_of same
]

at_of_missing :
    (k : ℕ) (n p : String) (m : ℕ) (is : Inodes) (ps : List String)
    → AllParts (p ∷ ps)
    → lookup (suc k) (folder n m is) (slash ∷ join (p ∷ ps)) true ≡ some (failed not_found)
    → at p ps is ≡ none
at_of_missing k n p m is ps parts h = elim (Option-cases (at p ps is)) [
  | inl e ↦ e
  | inr (j, e) ↦ let bad = sym (lookup-at k n p m is j ps true parts e (stays-true _)) ∙ h in cc
]

-- On a path of parts that are not empty and have no slash, at which lookup finds nothing: if
-- makeFile makes a file, and so does not meet a file where it needs a directory, lookup then finds
-- that file; a link is found if links are not followed.
pub lookup-make_file_new :
    (k : ℕ) (n p : String) (m : ℕ) (is is' : Inodes) (ps : List String) (c : Contents)
    (no_follow : Bool)
    → AllParts (p ∷ ps)
    → lookup (suc k) (folder n m is) (slash ∷ join (p ∷ ps)) true ≡ some (failed not_found)
    → make_file [] (join (p ∷ ps)) c is ≡ some (made is')
    → (not (is_link c.mode) || no_follow) ≡ true
    → lookup (suc k) (folder n m is') (slash ∷ join (p ∷ ps)) no_follow
      ≡ some (found (some (new_file p ps c)))
lookup-make_file_new k n p m is is' ps c no_follow parts free ran stays =
    let new = at_of_missing k n p m is ps parts free in
    let put_ran = sym (make_file-put p ps c is parts) ∙ ran in
    lookup-at k n p m is' (new_file p ps c) ps no_follow parts
      (at-put_new p ps c is is' new put_ran) (rw (new_file-mode p ps c) stays)

-- On paths of parts that are not empty and have no slash, makeFile changes no file: each path that
-- leads to a file leads to the same file afterwards, if links are not followed.
pub lookup-make_file_old :
    (k : ℕ) (n p r : String) (m : ℕ) (is is' : Inodes) (ps rs : List String) (c : Contents)
    (name : String) (mode size : ℕ) (d : List ℕ)
    → AllParts (p ∷ ps)
    → AllParts (r ∷ rs)
    → lookup (suc k) (folder n m is) (slash ∷ join (r ∷ rs)) true
      ≡ some (found (some (file name mode size d)))
    → make_file [] (join (p ∷ ps)) c is ≡ some (made is')
    → lookup (suc k) (folder n m is') (slash ∷ join (r ∷ rs)) true
      ≡ some (found (some (file name mode size d)))
lookup-make_file_old k n p r m is is' ps rs c name mode size d parts parts' old ran =
    let before = at_of_found k n r m is (file name mode size d) rs parts' old in
    let put_ran = sym (make_file-put p ps c is parts) ∙ ran in
    lookup-at k n r m is' (file name mode size d) rs true parts'
      (at-put_old r rs p ps c is is' name mode size d before put_ran) (stays-true _)

-- No file has the mode of a directory.
abbrev mutual
  pub IsTree : Inodes → Type 0
  IsTree nil = Unit
  IsTree (cons i is) = IsProper i × IsTree is

  pub IsProper : Inode → Type 0
  IsProper (file n m s d) = is_dir m ≡ false
  IsProper (folder n m is) = IsTree is

find-IsProper : (p : String) (i : Inode) (is : Inodes) → IsTree is → find p is ≡ some i → IsProper i
unfolding find
find-IsProper p i nil t h = cc
find-IsProper p i (cons k is) t h = elim (Bool-cases (equals (name_of k) p)) [
  | inl e ↦ subst IsProper (some-injective _ _ (rw e at h)) t.0
  | inr e ↦ find-IsProper p i is t.1 (rw e at h)
]

put-returns :
    (p : String) (ps : List String) (c : Contents) (is : Inodes)
    → IsTree is
    → (r : Made) × (put p ps c is ≡ some r)
put-returns p [] c is t = (made (push_back (file p c.mode c.size c.bytes) is), refl)
put-returns p (q ∷ qs) c is t = elim (Option-cases (find p is)) [
  | inl e ↦
      let (r, e') = put-returns q qs c nil tt in
      (made_map (λ ks. push_back (folder p 0x4000 ks) is) r, rw (e, descend) (rw e' refl))
  | inr (file n m s d, e) ↦
      let proper : is_dir m ≡ false = find-IsProper p (file n m s d) is t e in
      (refused, rw (e, descend) (rw proper refl))
  | inr (folder n m js, e) ↦
      let (r, e') = put-returns q qs c js (find-IsProper p (folder n m js) is t e) in
      elim (Bool-cases (is_dir m)) [
        | inl d ↦
            (made_map (λ ks. replace p (folder n m ks) is) r, rw (e, descend) (rw d (rw e' refl)))
        | inr d ↦ (refused, rw (e, descend) (rw d refl))
      ]
]

-- In a tree where no file has the mode of a directory, makeFile fails no assertion and takes no file
-- for a folder, on every path of parts that are not empty and have no slash.
pub make_file-returns :
    (p : String) (ps : List String) (c : Contents) (is : Inodes)
    → AllParts (p ∷ ps)
    → IsTree is
    → (r : Made) × (make_file [] (join (p ∷ ps)) c is ≡ some r)
make_file-returns p ps c is parts t =
    let (r, e) = put-returns p ps c is t in (r, make_file-put p ps c is parts ∙ e)
