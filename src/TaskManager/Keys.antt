-- ===== src/TaskManager/Keys.antt =====
-- TaskManager.hpp and TaskManager.cpp: linking tasks into the tree changes neither their tids nor
-- their states.
use flix.Base.{
  ℕ, ◌≡◌, refl, ◌∙◌, sym, ap, Bool, true, false, some, List, [], ◌∷◌, map, arith, ◌==◌,
  if◌then◌else◌, inl, inr, Bool-cases, assert, >>=-eq-some,
}
use mathlib.Core.Option.{some-injective}
use flix.TaskManager.{State, Task, get_task, modify}
use flix.TaskManager.Next.{Ascending}
use flix.TaskManager.Tree.{
  push_before, add_child, detach, unlink, set_first_child, set_next_sibling, set_prev_sibling,
}

abbrev pub key : Task → ℕ × State
key t = (t.tid, t.state)

pub modify-keys :
    (k : ℕ) (f : Task → Task) (ts : List Task)
    → ((t : Task) → key (f t) ≡ key t)
    → map key (modify k f ts) ≡ map key ts
unfolding modify
modify-keys k f [] h = refl
modify-keys k f (t ∷ ts) h = elim (Bool-cases (t.tid == k)) [
  | inl e ↦ rw (e, h t, modify-keys k f ts h)
  | inr e ↦ rw (e, modify-keys k f ts h)
]

-- A write under a test.
abbrev modify_unless : Bool → ℕ → (Task → Task) → List Task → List Task
modify_unless b k f ts = if b then ts else modify k f ts

modify_unless-keys :
    (b : Bool) (k : ℕ) (f : Task → Task) (ts : List Task)
    → ((t : Task) → key (f t) ≡ key t)
    → map key (modify_unless b k f ts) ≡ map key ts
modify_unless-keys true k f ts h = refl
modify_unless-keys false k f ts h = modify-keys k f ts h

push_before-keys :
    (first child : ℕ) (ts ts' : List Task)
    → push_before first child ts ≡ some ts'
    → map key ts' ≡ map key ts
unfolding push_before
push_before-keys first child ts ts' e =
    ground (arith, modify-keys first (set_prev_sibling child) ts (λ t. refl))

pub add_child-keys :
    (parent child : ℕ) (ts ts' : List Task)
    → add_child parent child ts ≡ some ts'
    → map key ts' ≡ map key ts
unfolding add_child
add_child-keys parent child ts ts' e =
    let (p, e₁, r₁) = >>=-eq-some (get_task parent ts) _ e in
    let (ts₁, e₂, r₂) = >>=-eq-some (push_before p.hh.first_child child ts) _ r₁ in
    let (c, e₃, r₃) = >>=-eq-some (get_task child ts₁) _ r₂ in
    ground (
      arith,
      push_before-keys p.hh.first_child child ts ts₁ e₂,
      modify-keys child (set_next_sibling p.hh.first_child) ts₁ (λ t. refl),
      modify-keys parent (set_first_child child)
          (modify child (set_next_sibling p.hh.first_child) ts₁) (λ t. refl),
    )

detach-keys :
    (t : Task) (ts ts' : List Task) → detach t t.hh ts ≡ some ts' → map key ts' ≡ map key ts
detach-keys t ts ts' e =
    let (p, e₁, r₁) = >>=-eq-some (get_task t.hh.parent ts) _ e in
    let (done, e₂, r₂) = >>=-eq-some (assert (t.hh.first_child == 0)) _ r₁ in
    let ts₁ =
      if p.hh.first_child == t.tid
      then modify t.hh.parent (set_first_child t.hh.next_sibling) ts
      else ts in
    let ts₂ =
      modify_unless (t.hh.prev_sibling == 0) t.hh.prev_sibling (set_next_sibling t.hh.next_sibling)
        ts₁ in
    let k₁ : map key ts₁ ≡ map key ts =
      ground (arith, modify-keys t.hh.parent (set_first_child t.hh.next_sibling) ts (λ t. refl)) in
    let k₂ =
      modify_unless-keys (t.hh.prev_sibling == 0) t.hh.prev_sibling
        (set_next_sibling t.hh.next_sibling) ts₁ (λ t. refl) in
    let k₃ =
      modify_unless-keys (t.hh.next_sibling == 0) t.hh.next_sibling
        (set_prev_sibling t.hh.prev_sibling) ts₂ (λ t. refl) in
    ap (map key) (sym (some-injective _ _ r₂)) ∙ k₃ ∙ k₂ ∙ k₁

pub unlink-keys :
    (t : Task) (ts ts' : List Task) → unlink t ts ≡ some ts' → map key ts' ≡ map key ts
unfolding unlink
unlink-keys t ts ts' e = elim (Bool-cases (t.hh.parent == 0)) [
  | inl z ↦ ap (map key) (sym (some-injective _ _ (rw z at e)))
  | inr z ↦ detach-keys t ts ts' (rw z at e)
]

-- Two lists with the same keys have the same order and the same states.
pub keys-Ascending :
    (lo : ℕ) (ts ts' : List Task) → map key ts' ≡ map key ts → Ascending lo ts → Ascending lo ts'
keys-Ascending lo [] [] e a = tt
keys-Ascending lo [] (t ∷ ts) e a = cc
keys-Ascending lo (t ∷ ts) [] e a = cc
keys-Ascending lo (t ∷ ts) (s ∷ ss) e a =
    let same : s.tid ≡ t.tid = ground arith in
    (
      omega (arith, same),
      omega (arith, same),
      rw same (keys-Ascending t.tid ts ss (ground arith) a.2),
    )
