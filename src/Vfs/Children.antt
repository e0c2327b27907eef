-- ===== src/Vfs/Children.antt =====
-- Cpio.cpp: the children of a folder by their names, before and after a change.
use flix.Base.{
  ◌≡◌, refl, ◌∙◌, sym, ap, true, false, none, some, [], ◌∷◌, arith, ◌==◌, inl, inr, Bool-cases,
  if◌then◌else◌,
}
use mathlib.Core.Path.{subst}
use mathlib.Core.Option.{some-injective}
use flix.Vfs.{String, equals, Inode, Inodes, nil, cons, find, name_of}
use flix.Vfs.Archive.{push_back, replace}

equals_refl : (p : String) → equals p p ≡ true
equals_refl [] = refl
equals_refl (c ∷ cs) = ground (arith, equals_refl cs)

pub equals→eq : (p q : String) → equals p q ≡ true → p ≡ q
equals→eq [] [] h = refl
equals→eq [] (d ∷ ds) h = cc
equals→eq (c ∷ cs) [] h = cc
equals→eq (c ∷ cs) (d ∷ ds) h = elim (Bool-cases (c == d)) [
  | inl e ↦ let same : c ≡ d = ground arith in rw (same, equals→eq cs ds (rw e at h)) refl
  | inr e ↦ let bad = rw e at h in cc
]

-- A new name goes to the end.
pub find-push_back_new :
    (p : String) (j : Inode) (is : Inodes)
    → name_of j ≡ p
    → find p is ≡ none
    → find p (push_back j is) ≡ some j
unfolding find
find-push_back_new p j nil n h = rw (n, equals_refl p) refl
find-push_back_new p j (cons i is) n h = elim (Bool-cases (equals (name_of i) p)) [
  | inl e ↦ let bad = rw e at h in cc
  | inr e ↦ rw e (find-push_back_new p j is n (rw e at h))
]

pub find-push_back_old :
    (p : String) (i j : Inode) (is : Inodes) → find p is ≡ some i → find p (push_back j is) ≡ some i
unfolding find
find-push_back_old p i j nil h = cc
find-push_back_old p i j (cons k is) h = elim (Bool-cases (equals (name_of k) p)) [
  | inl e ↦ rw e (rw e at h)
  | inr e ↦ rw e (find-push_back_old p i j is (rw e at h))
]

-- What is found has the name.
find-name :
    (p : String) (i : Inode) (is : Inodes) → find p is ≡ some i → equals (name_of i) p ≡ true
unfolding find
find-name p i nil h = cc
find-name p i (cons k is) h = elim (Bool-cases (equals (name_of k) p)) [
  | inl e ↦ subst (λ t. equals (name_of t) p ≡ true) (some-injective _ _ (rw e at h)) e
  | inr e ↦ find-name p i is (rw e at h)
]

pub find-replace_self :
    (p : String) (i j : Inode) (is : Inodes)
    → find p is ≡ some i
    → name_of j ≡ name_of i
    → find p (replace p j is) ≡ some j
unfolding find
find-replace_self p i j nil h n = cc
find-replace_self p i j (cons k is) h n = elim (Bool-cases (equals (name_of k) p)) [
  | inl e ↦
      let same : equals (name_of j) p ≡ true = rw n (find-name p i (cons k is) h) in
      rw e (rw (same, find) refl)
  | inr e ↦ rw e (rw (e, find) (find-replace_self p i j is (rw e at h) n))
]

find-skip :
    (r : String) (k : Inode) (is : Inodes)
    → equals (name_of k) r ≡ false
    → find r (cons k is) ≡ find r is
unfolding find
find-skip r k is e = rw e refl

pub find-replace_ne :
    (p r : String) (i j : Inode) (is : Inodes)
    → find p is ≡ some i
    → name_of j ≡ name_of i
    → equals p r ≡ false
    → find r (replace p j is) ≡ find r is
unfolding find
find-replace_ne p r i j nil h n ne = refl
find-replace_ne p r i j (cons k is) h n ne = elim (Bool-cases (equals (name_of k) p)) [
  | inl e ↦
      let is_p = n ∙ equals→eq _ _ (find-name p i (cons k is) h) in
      let j_skips : equals (name_of j) r ≡ false = rw is_p ne in
      let k_skips : equals (name_of k) r ≡ false = rw (equals→eq (name_of k) p e) ne in
      rw e (find-skip r j is j_skips ∙ sym (find-skip r k is k_skips))
  | inr e ↦ rw e (
      ap (λ t. if equals (name_of k) r then some k else t)
        (find-replace_ne p r i j is (rw e at h) n ne))
]
