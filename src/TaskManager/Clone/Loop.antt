-- ===== src/TaskManager/Clone/Loop.antt =====
-- source/TaskManager.cpp, `clone`: what the loop over the user's pages does.
use flix.Base.{
  ℕ, ◌+◌, ◌≡◌, ◌≢◌, refl, ◌∙◌, sym, ap, true, false, some, arith, >>=-some, inl, inr, Bool-cases,
  List, [], ◌∷◌, Memᴰ, Ascending,
}
use mathlib.Core.List.Memᴰ
use mathlib.Core.Path.{subst}
use flix.Memory.{is_used}
use flix.Paging.{Entry, Allocator}
use flix.Paging.Access.{entry_at}
use flix.Paging.Coherent.{Refills, Serves}
use flix.Paging.Mapping.{Mapped-self}
use flix.Paging.Order.{key}
use flix.Paging.Visits.{Visit}
use flix.TaskManager.Clone.{Cloning, clone_pages}
use flix.TaskManager.Clone.Pages.{Spares-trans}
use flix.TaskManager.Clone.Plan.{Plan, Copy, Cloned, Cloned-nil, later, Ready-Round, Plan-Round}
use flix.TaskManager.Clone.Round.{Ready, Round, Filled, clone_visit-Filled, clone_visit-Round}

module _ {S : Type 0} (v : Visit) (vs : List Visit) (c c₁ : Cloning S) (e : Entry) (hi : ℕ)
    (up : Ascending key (key v + 1) hi vs) (plan : Plan (v ∷ vs) c) (r : Round v e c c₁) where
  module _ (c' : Cloning S) (l : Cloned vs c₁ c') where
    -- What the round gives the child is there at the end.
    entry_first : entry_at 3 c'.child.manager v.address ≡ e
    entry_first =
        l.others v.address (later v vs c c₁ e hi up plan r)
        ∙ Mapped-self c.child.manager c₁.child.manager v.address e r.child

    free_before : (q : ℕ) → is_used c₁.machine.memory q ≡ false → is_used c.machine.memory q ≡ false
    free_before q free = elim (Bool-cases (is_used c.machine.memory q)) [
      | inl used ↦ let clash = sym (r.keeps q used) ∙ free in cc
      | inr before ↦ before
    ]

    Copy-later : (w : Visit) → Memᴰ w vs → w.entry.p ≡ true → Copy w c.machine.memory c.contents c'
    Copy-later w mem here =
        let k = l.copy w mem here in
        record {
          frame = k.frame;
          entry = k.entry;
          free = free_before k.frame k.free;
          taken = k.taken;
          bytes = k.bytes ∙ r.bytes w.entry.base (plan.used w (Memᴰ.tail mem) here);
        }

    -- The first page against a later one.
    apart_first :
        is_used c₁.machine.memory e.base ≡ true
        → (w : Visit) → Memᴰ w vs
        → w.entry.p ≡ true
        → (entry_at 3 c'.child.manager v.address).base
          ≢ (entry_at 3 c'.child.manager w.address).base
    apart_first taken w mem here same =
        let k = l.copy w mem here in
        let place : e.base ≡ k.frame =
          sym (ap (λ x. x.base) entry_first) ∙ same ∙ ap (λ x. x.base) k.entry in
        let clash : true ≡ false = sym taken ∙ ap (is_used c₁.machine.memory) place ∙ k.free in cc

    Cloned-cons :
        (v.entry.p ≡ true
          → Copy v c.machine.memory c.contents c' × (is_used c₁.machine.memory e.base ≡ true))
        → (v.entry.p ≡ false → e ≡ v.entry)
        → Cloned (v ∷ vs) c c'
    Cloned-cons present gone = record {
      parent = Spares-trans c.parent.manager c₁.parent.manager c'.parent.manager r.parent l.parent;
      coherent = l.coherent;
      others = λ b away.
          let off = away v (Memᴰ.head refl) in
          l.others b (λ w mem. away w (Memᴰ.tail mem)) ∙ r.child.reads b ∙ rw off refl;
      copy = λ w mem here. elim (Memᴰ.cases_cons mem) [
        | inl same ↦
            subst (λ x. Copy x c.machine.memory c.contents c') (sym same)
              ((present (ap (λ x. x.entry.p) (sym same) ∙ here)).0)
        | inr rest ↦ Copy-later w rest here
      ];
      deferred = λ w mem here. elim (Memᴰ.cases_cons mem) [
        | inl same ↦
            subst (λ x. entry_at 3 c'.child.manager x.address ≡ x.entry) (sym same)
              (entry_first ∙ gone (ap (λ x. x.entry.p) (sym same) ∙ here))
        | inr rest ↦ l.deferred w rest here
      ];
      apart = λ x y mx my here there same. elim (Memᴰ.cases_cons mx) [
        | inl first ↦ elim (Memᴰ.cases_cons my) [
          | inl first' ↦ ap (λ x. x.address) (first ∙ sym first')
          | inr rest' ↦ absurd (
              apart_first ((present (ap (λ x. x.entry.p) (sym first) ∙ here)).1) y rest' there
                (ap (λ x. (entry_at 3 c'.child.manager x.address).base) (sym first) ∙ same))
        ]
        | inr rest ↦ elim (Memᴰ.cases_cons my) [
          | inl first' ↦ absurd (
              apart_first ((present (ap (λ x. x.entry.p) (sym first') ∙ there)).1) x rest here
                (ap (λ x. (entry_at 3 c'.child.manager x.address).base) (sym first') ∙ sym same))
          | inr rest' ↦ l.apart x y rest rest' here there same
        ]
      ];
      keeps = λ q used. l.keeps q (r.keeps q used);
      bytes = λ q used. l.bytes q (r.keeps q used) ∙ r.bytes q used;
    }

Cloned-Filled :
    {S : Type 0} (v : Visit) (vs : List Visit) (c c₁ c' : Cloning S) (page hi : ℕ)
    → Ascending key (key v + 1) hi vs
    → Plan (v ∷ vs) c
    → v.entry.p ≡ true
    → Filled v page c c₁
    → Cloned vs c₁ c'
    → Cloned (v ∷ vs) c c'
Cloned-Filled v vs c c₁ c' page hi up plan here f l =
    let e : Entry = record (v.entry) { base = page } in
    Cloned-cons v vs c c₁ e hi up plan f.round c' l
      (λ shown. (
        record {
          frame = page;
          entry = entry_first v vs c c₁ e hi up plan f.round c' l;
          free = f.free;
          taken = l.keeps page f.taken;
          bytes = l.bytes page f.taken ∙ f.copied;
        },
        f.taken,
      ))
      (λ gone. let clash : true ≡ false = sym here ∙ gone in cc)

module _ (alloc : Allocator) (serves : Serves alloc) (refills : Refills alloc) where
  open alloc use {State}

  pub clone_pages-Cloned :
      (vs : List Visit) (c : Cloning State) (lo hi : ℕ)
      → Ready c
      → Ascending key lo hi vs
      → Plan vs c
      → (c' : Cloning State) × (clone_pages alloc vs c ≡ some c') × Cloned vs c c'
  unfolding clone_pages
  clone_pages-Cloned [] c lo hi ready up plan = (c, refl, Cloned-nil c ready)
  clone_pages-Cloned (v ∷ vs) c lo hi ready up plan =
      let h = plan.clonable v (Memᴰ.head refl) in
      elim (Bool-cases v.entry.p) [
        | inl here ↦
            let room = plan.room in
            let (page, c₁, ran, f) =
              clone_visit-Filled alloc serves refills v c ready h here (omega arith) in
            let e : Entry = record (v.entry) { base = page } in
            let (c', rest, l) =
              clone_pages-Cloned vs c₁ (key v + 1) hi (Ready-Round v vs c c₁ e hi up.1 plan f.round)
                up.1 (Plan-Round v vs c c₁ e hi up.1 plan f.round) in
            (c', >>=-some _ _ ran ∙ rest, Cloned-Filled v vs c c₁ c' page hi up.1 plan here f l)
        | inr gone ↦
            let (c₁, ran, r) = clone_visit-Round alloc serves refills v c ready h gone in
            let (c', rest, l) =
              clone_pages-Cloned vs c₁ (key v + 1) hi (Ready-Round v vs c c₁ v.entry hi up.1 plan r)
                up.1 (Plan-Round v vs c c₁ v.entry hi up.1 plan r) in
            (
              c',
              >>=-some _ _ ran ∙ rest,
              Cloned-cons v vs c c₁ v.entry hi up.1 plan r c' l
                  (λ here. let clash : true ≡ false = sym here ∙ gone in cc) (λ off. refl),
            )
      ]
