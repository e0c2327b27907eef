-- ===== src/Vfs/Links.antt =====
-- Fs.cpp, `lookup`: the count of links that may be followed.
use flix.Base.{
  ℕ, ◌+◌, ◌-◌, ◌%◌, ◌^◌, ◌≡◌, ◌≤◌, refl, ◌∙◌, ap, Bool, true, false, Option, none, some, List, [],
  ◌∷◌, zero, suc, ◌==◌, if◌then◌else◌, take, ltb, le→ltb-eq-false,
}
use mathlib.Core.Path.{fun_ext}
use flix.Vfs.{
  String, slash, Inode, Inodes, file, folder, find, is_link, walk, arrive, lookup_from, lookup,
  split, c_string, max_path_length,
}
use flix.Vfs.Split.{IsPart}
use flix.Vfs.Lookup.{again, walk-find, lookup_from-join}

-- The number of links that are left to follow has no effect on the result of lookup.
pub lookup_from-ignores_limit :
    (k : ℕ) (root : Inode) (inode : Option Inode) (path : String) (no_follow : Bool)
    (left left' : ℕ)
    → lookup_from k root inode path no_follow left ≡ lookup_from k root inode path no_follow left'
unfolding lookup_from
lookup_from-ignores_limit zero root inode path no_follow left left' = refl
lookup_from-ignores_limit (suc k) root inode [] no_follow left left' = refl
lookup_from-ignores_limit (suc k) root inode (c ∷ cs) no_follow left left' =
    let same : again k root no_follow left ≡ again k root no_follow left' =
      fun_ext
        (λ last. fun_ext (λ target. lookup_from-ignores_limit k root last target no_follow _ _)) in
    ap
      (λ f.
        arrive f no_follow
          (walk none (if c == slash then some root else inode) (split (c ∷ cs) slash true)))
      same

circular-from :
    (k left : ℕ) (root : Inode) (n m p : String) (mode mode' size : ℕ) (is : Inodes) (d : List ℕ)
    → IsPart p
    → find p is ≡ some (file m mode size d)
    → is_link mode ≡ true
    → size ≤ max_path_length
    → c_string (take size d) ≡ p
    → lookup_from k root (some (folder n mode' is)) p false left ≡ none
unfolding lookup_from walk
circular-from zero left root n m p mode mode' size is d part f l short target = refl
circular-from (suc k) left root n m p mode mode' size is d part f l short target =
    let rest =
      circular-from k ((left + 2 ^ 8 - 1) % 2 ^ 8) root n m p mode mode' size is d part f l short
        target in
    let small : ltb max_path_length size ≡ false = le→ltb-eq-false _ _ short in
    lookup_from-join k root (folder n mode' is) p [] false left (part, tt)
    ∙ ap (arrive (again k root false left) false)
        (walk-find none n p mode' is (file m mode size d) [] f)
    ∙ rw (l, small, target) rest

-- A link in the root folder, of at most 256 bytes, whose target is its own name, not empty and
-- without a slash, is followed without end: lookup returns on no amount of fuel.
pub lookup-circular :
    (k : ℕ) (n m p : String) (mode mode' size : ℕ) (is : Inodes) (d : List ℕ)
    → IsPart p
    → find p is ≡ some (file m mode size d)
    → is_link mode ≡ true
    → size ≤ max_path_length
    → c_string (take size d) ≡ p
    → lookup k (folder n mode' is) (slash ∷ p) false ≡ none
unfolding lookup
lookup-circular k n m p mode mode' size is d part f l short target =
    circular-from k 128 (folder n mode' is) n m p mode mode' size is d part f l short target
