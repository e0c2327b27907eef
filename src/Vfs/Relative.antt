-- ===== src/Vfs/Relative.antt =====
-- source/Fs.cpp, `lookup`: a path that is followed from a file leads nowhere.
use flix.Base.{
  ℕ, suc, ◌≡◌, refl, Bool, true, false, some, List, [], ◌∷◌, ◌++◌, ◌==◌, inl, inr, Bool-cases,
}
use flix.Vfs.{
  String, slash, file, Inode, failed, not_found, split_from, split, walk, child, lookup_from,
}

-- A path behind a character that is no separator has a first part.
split_from-cons :
    (val a : ℕ) (acc cs : String)
    → (p : String) × (ps : List String) × (split_from true val (a ∷ acc) cs ≡ p ∷ ps)
unfolding split_from
split_from-cons val a acc [] = (_, _, refl)
split_from-cons val a acc (c ∷ cs) = elim (Bool-cases (c == val)) [
  | inl stop ↦ (a ∷ acc, split_from true val [] cs, rw (stop, split_from) refl)
  | inr go ↦
      let (p, ps, e) = split_from-cons val a (acc ++ c ∷ []) cs in (p, ps, rw (go, split_from) e)
]

split-cons :
    (c : ℕ) (cs : String)
    → (c == slash) ≡ false
    → (p : String) × (ps : List String) × (split (c ∷ cs) slash true ≡ p ∷ ps)
unfolding split_from
split-cons c cs relative =
    let (p, ps, e) = split_from-cons slash c [] cs in (p, ps, rw (relative, split_from) e)

pub lookup_from-file :
    (fuel : ℕ) (root : Inode) (name : String) (mode size : ℕ) (bytes : List ℕ) (c : ℕ) (cs : String)
    (no_follow : Bool) (left : ℕ)
    → (c == slash) ≡ false
    → lookup_from (suc fuel) root (some (file name mode size bytes)) (c ∷ cs) no_follow left
      ≡ some (failed not_found)
unfolding lookup_from walk child
lookup_from-file fuel root name mode size bytes c cs no_follow left relative =
    let (p, ps, e) = split-cons c cs relative in rw (lookup_from, relative) (rw e refl)
