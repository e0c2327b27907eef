-- ===== src/Vfs/Lookup.antt =====
-- Fs.cpp, `lookup`: what a path leads to in a folder.
use flix.Base.{
  ℕ, ◌+◌, ◌-◌, ◌%◌, ◌^◌, ◌≡◌, ◌≢◌, refl, ◌∙◌, ap, Bool, true, false, not, Option, none, some, List,
  [], ◌∷◌, ◌++◌, suc, arith, ◌==◌, inl, inr, Option-cases, ◌||◌,
}
use flix.Vfs.{
  String, slash, Inode, Inodes, file, folder, find, mode_of, is_link, child, reached, missing, walk,
  Found, found, failed, not_found, arrive, lookup_from, lookup, split,
}
use flix.Vfs.Split.{AllParts, join, split-join}
use flix.Vfs.Insert.{at, at-nil}

-- The loop of `lookup` over one part.
pub walk-find :
    (last : Option Inode) (n p : String) (m : ℕ) (is : Inodes) (j : Inode) (ps : List String)
    → find p is ≡ some j
    → walk last (some (folder n m is)) (p ∷ ps) ≡ walk (some (folder n m is)) (some j) ps
unfolding walk child
walk-find last n p m is j ps e = rw (e, walk) refl

walk-missing :
    (last : Option Inode) (n p : String) (m : ℕ) (is : Inodes) (ps : List String)
    → find p is ≡ none
    → walk last (some (folder n m is)) (p ∷ ps) ≡ missing
unfolding walk child
walk-missing last n p m is ps e = rw (e, walk) refl

-- It reaches what stands at the path.
walk-at :
    (last : Option Inode) (n p : String) (m : ℕ) (is : Inodes) (i : Inode) (ps : List String)
    → at p ps is ≡ some i
    → (l : Option Inode) × (walk last (some (folder n m is)) (p ∷ ps) ≡ reached (some i) l)
unfolding walk
walk-at last n p m is i [] h = (some (folder n m is), walk-find last n p m is i [] h)
walk-at last n p m is i (q ∷ qs) h = elim (Option-cases (find p is)) [
  | inl e ↦ let bad = rw (e, at-nil q qs) at h in cc
  | inr (file n' m' s d, e) ↦ let bad = rw (e, at-nil q qs) at h in cc
  | inr (folder n' m' js, e) ↦
      let (l, r) = walk-at (some (folder n m is)) n' q m' js i qs (rw e at h) in
      (l, walk-find last n p m is (folder n' m' js) (q ∷ qs) e ∙ r)
]

walk-at-none :
    (last : Option Inode) (n p : String) (m : ℕ) (is : Inodes) (ps : List String)
    → at p ps is ≡ none
    → walk last (some (folder n m is)) (p ∷ ps) ≡ missing
unfolding walk child
walk-at-none last n p m is [] h = walk-missing last n p m is [] h
walk-at-none last n p m is (q ∷ qs) h = elim (Option-cases (find p is)) [
  | inl e ↦ walk-missing last n p m is (q ∷ qs) e
  | inr (file n' m' s d, e) ↦ walk-find last n p m is (file n' m' s d) (q ∷ qs) e
  | inr (folder n' m' js, e) ↦
      walk-find last n p m is (folder n' m' js) (q ∷ qs) e
      ∙ walk-at-none (some (folder n m is)) n' q m' js qs (rw e at h)
]

-- The look-ups of a link's target.
abbrev pub again : ℕ → Inode → Bool → ℕ → Option Inode → String → Option Found
again k root no_follow left last target =
    lookup_from k root last target no_follow ((left + 2 ^ 8 - 1) % 2 ^ 8)

lookup_from-split :
    (k : ℕ) (root dir : Inode) (c : ℕ) (cs : String) (no_follow : Bool) (left : ℕ)
    → c ≢ 47
    → lookup_from (suc k) root (some dir) (c ∷ cs) no_follow left
      ≡ arrive
          (again k root no_follow left)
          no_follow
          (walk none (some dir) (split (c ∷ cs) slash true))
unfolding lookup_from
lookup_from-split k root dir c cs no_follow left h =
    let other : (c == slash) ≡ false = ground arith in rw other refl

pub lookup_from-join :
    (k : ℕ) (root dir : Inode) (p : String) (ps : List String) (no_follow : Bool) (left : ℕ)
    → AllParts (p ∷ ps)
    → lookup_from (suc k) root (some dir) (join (p ∷ ps)) no_follow left
      ≡ arrive (again k root no_follow left) no_follow (walk none (some dir) (p ∷ ps))
lookup_from-join k root dir [] ps no_follow left h = let bad = h.0.0 in cc
lookup_from-join k root dir (c ∷ cs) [] no_follow left h =
    lookup_from-split k root dir c cs no_follow left h.0.1.0
    ∙ ap (λ t. arrive (again k root no_follow left) no_follow (walk none (some dir) t))
        (split-join ((c ∷ cs) ∷ []) h)
lookup_from-join k root dir (c ∷ cs) (q ∷ qs) no_follow left h =
    lookup_from-split k root dir c (cs ++ slash ∷ join (q ∷ qs)) no_follow left h.0.1.0
    ∙ ap (λ t. arrive (again k root no_follow left) no_follow (walk none (some dir) t))
        (split-join ((c ∷ cs) ∷ q ∷ qs) h)

pub lookup-at :
    (k : ℕ) (n p : String) (m : ℕ) (is : Inodes) (i : Inode) (ps : List String) (no_follow : Bool)
    → AllParts (p ∷ ps)
    → at p ps is ≡ some i
    → (not (is_link (mode_of i)) || no_follow) ≡ true
    → lookup (suc k) (folder n m is) (slash ∷ join (p ∷ ps)) no_follow ≡ some (found (some i))
unfolding lookup
lookup-at k n p m is i ps no_follow parts h stays =
    let (l, r) = walk-at none n p m is i ps h in
    lookup_from-join k (folder n m is) (folder n m is) p ps no_follow 128 parts ∙ rw (r, stays) refl

pub lookup-at-none :
    (k : ℕ) (n p : String) (m : ℕ) (is : Inodes) (ps : List String) (no_follow : Bool)
    → AllParts (p ∷ ps)
    → at p ps is ≡ none
    → lookup (suc k) (folder n m is) (slash ∷ join (p ∷ ps)) no_follow ≡ some (failed not_found)
unfolding lookup
lookup-at-none k n p m is ps no_follow parts h =
    lookup_from-join k (folder n m is) (folder n m is) p ps no_follow 128 parts
    ∙ rw (walk-at-none none n p m is ps h) refl
