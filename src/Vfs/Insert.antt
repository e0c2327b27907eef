-- ===== src/Vfs/Insert.antt =====
-- Cpio.cpp: the files of the tree before and after `makeFile`.
use flix.Base.{
  ℕ, ◌≡◌, refl, ◌∙◌, sym, ap, Option, none, some, List, [], ◌∷◌, inl, inr, >>=-eq-some, Bool-cases,
  Option-cases,
}
use mathlib.Core.Path.{subst}
use mathlib.Core.Option.{some-injective}
use flix.Vfs.{String, equals, Inode, Inodes, file, folder, nil, find, is_dir}
use flix.Vfs.Archive.{
  Contents, Made, made, refused, push_back, replace, made_map, enter, descend, create,
}
use flix.Vfs.Split.{put}
use flix.Vfs.Children.{
  equals→eq, find-push_back_new, find-push_back_old, find-replace_self, find-replace_ne,
}

-- The inode at a path of a first part and further ones, in the children of a folder.
abbrev pub children_of : Option Inode → Inodes
children_of none = nil
children_of (some (file n m s d)) = nil
children_of (some (folder n m is)) = is

abbrev pub at : String → List String → Inodes → Option Inode
at p [] is = find p is
at p (q ∷ qs) is = at q qs (children_of (find p is))

pub at-nil : (p : String) (ps : List String) → at p ps nil ≡ none
unfolding find
at-nil p [] = refl
at-nil p (q ∷ qs) = at-nil q qs

last_part : String → List String → String
last_part p [] = p
last_part p (q ∷ qs) = last_part q qs

-- The file that `makeFile` makes.
abbrev pub new_file : String → List String → Contents → Inode
new_file p [] c = file p c.mode c.size c.bytes
new_file p (q ∷ qs) c = new_file q qs c

-- What a step into a folder did: a new folder at the end, or a folder that was found.
data Entered (rest : Inodes → Option Made) (p : String) (is is' : Inodes) : Type 0 where
  creates :
      (ks : Inodes)
      → find p is ≡ none
      → rest nil ≡ some (made ks)
      → is' ≡ push_back (folder p 0x4000 ks) is
      → Entered rest p is is'
  enters :
      (n : String) (m : ℕ) (js ks : Inodes)
      → find p is ≡ some (folder n m js)
      → rest js ≡ some (made ks)
      → is' ≡ replace p (folder n m ks) is
      → Entered rest p is is'

abbrev inodes_of : Made → Inodes
inodes_of (made is) = is
inodes_of refused = nil

made_map-inv :
    (f : Inodes → Inodes) (r : Made) (is : Inodes)
    → made_map f r ≡ made is
    → (ks : Inodes) × (r ≡ made ks) × (is ≡ f ks)
made_map-inv f (made ks) is h = (ks, refl, sym (ap inodes_of h))
made_map-inv f refused is h = cc

enter-Entered :
    (rest : Inodes → Option Made) (p : String) (i : Inode) (is is' : Inodes)
    → find p is ≡ some i
    → enter rest p is i ≡ some (made is')
    → Entered rest p is is'
enter-Entered rest p (file n m s d) is is' f h = elim (Bool-cases (is_dir m)) [
  | inl e ↦ let bad = rw e at h in cc
  | inr e ↦ let bad = rw e at h in cc
]
enter-Entered rest p (folder n m js) is is' f h = elim (Bool-cases (is_dir m)) [
  | inr e ↦ let bad = rw e at h in cc
  | inl e ↦
      let (r, e₁, r₁) = >>=-eq-some (rest js) _ (rw e at h) in
      let (ks, e₂, e₃) =
        made_map-inv (λ ks. replace p (folder n m ks) is) r is' (some-injective _ _ r₁) in
      enters n m js ks f (e₁ ∙ ap some e₂) e₃
]

descend-Entered :
    (rest : Inodes → Option Made) (p : String) (is is' : Inodes)
    → descend rest p is (create rest p is) ≡ some (made is')
    → Entered rest p is is'
descend-Entered rest p is is' h = elim (Option-cases (find p is)) [
  | inl e ↦
      let (r, e₁, r₁) = >>=-eq-some (rest nil) _ (rw (e, descend) at h) in
      let (ks, e₂, e₃) =
        made_map-inv (λ ks. push_back (folder p 0x4000 ks) is) r is' (some-injective _ _ r₁) in
      creates ks e (e₁ ∙ ap some e₂) e₃
  | inr (i, e) ↦ enter-Entered rest p i is is' e (rw (e, descend) at h)
]

-- A file that was not there is found at its path.
pub at-put_new :
    (p : String) (ps : List String) (c : Contents) (is is' : Inodes)
    → at p ps is ≡ none
    → put p ps c is ≡ some (made is')
    → at p ps is' ≡ some (new_file p ps c)
at-put_new p [] c is is' new h =
    let same = ap inodes_of (some-injective _ _ h) in
    subst (λ t. find p t ≡ some (new_file p [] c)) same (find-push_back_new p _ is refl new)
at-put_new p (q ∷ qs) c is is' new h = elim (descend-Entered (put q qs c) p is is' h) [
  | creates ks e r s ↦
      rw (s, find-push_back_new p (folder p 0x4000 ks) is refl e)
        (at-put_new q qs c nil ks (at-nil q qs) r)
  | enters n m js ks e r s ↦
      rw (s, find-replace_self p (folder n m js) (folder n m ks) is e refl)
        (at-put_new q qs c js ks (rw e at new) r)
]

at-folder :
    (r : String) (rs : List String) (is is' : Inodes) (i : Inode)
    → find r is' ≡ find r is
    → at r rs is ≡ some i
    → at r rs is' ≡ some i
at-folder r [] is is' i e h = e ∙ h
at-folder r (q ∷ qs) is is' i e h = rw e h

at-find :
    (r : String) (rs : List String) (is : Inodes) (i : Inode)
    → at r rs is ≡ some i
    → (k : Inode) × (find r is ≡ some k)
at-find r [] is i h = (i, h)
at-find r (q ∷ qs) is i h = elim (Option-cases (find r is)) [
  | inl e ↦ let bad = rw (e, at-nil q qs) at h in cc
  | inr (k, e) ↦ (k, e)
]

at-push_back :
    (r : String) (rs : List String) (is : Inodes) (i j : Inode)
    → at r rs is ≡ some i
    → at r rs (push_back j is) ≡ some i
at-push_back r rs is i j h =
    let (k, e) = at-find r rs is i h in
    at-folder r rs is (push_back j is) i (find-push_back_old r k j is e ∙ sym e) h

at-file_folder :
    (p q : String) (is js : Inodes) (n m : String) (mode mode' size : ℕ) (d : List ℕ)
    → p ≡ q
    → find p is ≡ some (folder m mode' js)
    → find q is ≡ some (file n mode size d)
    → ⊥
at-file_folder p q is js n m mode mode' size d same e h = cc

-- Every file that was there is found as before.
pub at-put_old :
    (r : String) (rs : List String) (p : String) (ps : List String) (c : Contents) (is is' : Inodes)
    (n : String) (mode size : ℕ) (d : List ℕ)
    → at r rs is ≡ some (file n mode size d)
    → put p ps c is ≡ some (made is')
    → at r rs is' ≡ some (file n mode size d)
at-put_old r rs p [] c is is' n mode size d old h =
    let same = ap inodes_of (some-injective _ _ h) in
    subst (λ t. at r rs t ≡ some (file n mode size d)) same (at-push_back r rs is _ _ old)
at-put_old r rs p (q ∷ qs) c is is' n mode size d old h =
    elim (descend-Entered (put q qs c) p is is' h) [
      | creates ks e e' s ↦ rw s (at-push_back r rs is _ _ old)
      | enters n' m' js ks e e' s ↦ elim (Bool-cases (equals p r)) [
        | inr ne ↦ rw s (
            at-folder r rs is (replace p (folder n' m' ks) is) _
              (find-replace_ne p r (folder n' m' js) (folder n' m' ks) is e refl ne) old)
        | inl eq ↦ rw s (
            inside rs (equals→eq p r eq) js ks n' m' e old
              (λ r₂ rs₂ o. at-put_old r₂ rs₂ q qs c js ks n mode size d o e'))
      ]
    ]
  where
    inside :
        (rs : List String)
        → p ≡ r
        → (js ks : Inodes) (n' : String) (m' : ℕ) → find p is ≡ some (folder n' m' js)
        → at r rs is ≡ some (file n mode size d)
        → ((r₂ : String) (rs₂ : List String)
            → at r₂ rs₂ js ≡ some (file n mode size d)
            → at r₂ rs₂ ks ≡ some (file n mode size d))
        → at r rs (replace p (folder n' m' ks) is) ≡ some (file n mode size d)
    inside [] same js ks n' m' e old step =
        absurd (at-file_folder p r is js n n' mode m' size d same e old)
    inside (q ∷ qs) same js ks n' m' e old step =
        let here : find r is ≡ some (folder n' m' js) = rw⁻¹ same e in
        let there : find r (replace p (folder n' m' ks) is) ≡ some (folder n' m' ks) =
          rw⁻¹ same (find-replace_self p (folder n' m' js) (folder n' m' ks) is e refl) in
        rw there (step q qs (rw here at old))
