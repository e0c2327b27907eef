-- ===== src/TaskManager/Clone/Plan.antt =====
-- source/TaskManager.cpp, `clone`: the pages that the loop has still to copy, and those that it has copied.
use flix.Base.{
  ℕ, ◌+◌, ◌-◌, ◌*◌, ◌^◌, ◌<◌, ◌≡◌, refl, ◌∙◌, true, false, arith, length, List, [], ◌∷◌, Memᴰ,
  Ascending, le_of-Ascending,
}
use mathlib.Core.List.Memᴰ
use flix.Memory.{Memory, is_used}
use flix.Paging.{Entry}
use flix.Paging.Access.{entry_at, same_page}
use flix.Paging.Coherent.{IsCoherent}
use flix.Paging.Ranges.{same_page-eq-false}
use flix.Paging.Order.{key}
use flix.Paging.Visits.{Visit}
use flix.TaskManager.Clone.{Contents, Cloning}
use flix.TaskManager.Clone.Pages.{Spares, same_page-buffer_page}
use flix.TaskManager.Clone.Round.{Ready, Clonable, Round}

-- The pages still to be cloned: those that are present have used frames, and there are frame numbers for the copies.
pub record Plan {S : Type 0} (vs : List Visit) (c : Cloning S) : Type 0 where
  pub clonable : (v : Visit) → Memᴰ v vs → Clonable c v
  pub used :
      (v : Visit) → Memᴰ v vs → v.entry.p ≡ true → is_used c.machine.memory v.entry.base ≡ true
  pub room : length c.machine.memory.frames + 2 ^ 14 * length vs < 2 ^ 40 - 1

-- A present page has a frame of its own in the child, which was free, with the same contents and attributes.
pub record Copy {S : Type 0} (v : Visit) (m : Memory) (contents : Contents) (c' : Cloning S)
    : Type 0 where
  pub frame : ℕ
  pub entry : entry_at 3 c'.child.manager v.address ≡ record (v.entry) { base = frame }
  pub free : is_used m frame ≡ false
  pub taken : is_used c'.machine.memory frame ≡ true
  pub bytes : c'.contents frame ≡ contents v.entry.base

pub record Cloned {S : Type 0} (vs : List Visit) (c c' : Cloning S) : Type 0 where
  pub parent : Spares c.parent.manager c'.parent.manager
  pub coherent : IsCoherent 3 c'.child.manager
  pub others :
      (b : ℕ)
      → ((v : Visit) → Memᴰ v vs → same_page 3 v.address b ≡ false)
      → entry_at 3 c'.child.manager b ≡ entry_at 3 c.child.manager b
  pub copy : (v : Visit) → Memᴰ v vs → v.entry.p ≡ true → Copy v c.machine.memory c.contents c'
  pub deferred :
      (v : Visit) → Memᴰ v vs → v.entry.p ≡ false → entry_at 3 c'.child.manager v.address ≡ v.entry
  pub apart :
      (v w : Visit)
      → Memᴰ v vs
      → Memᴰ w vs
      → v.entry.p ≡ true
      → w.entry.p ≡ true
      → (entry_at 3 c'.child.manager v.address).base ≡ (entry_at 3 c'.child.manager w.address).base
      → v.address ≡ w.address
  pub keeps : (q : ℕ) → is_used c.machine.memory q ≡ true → is_used c'.machine.memory q ≡ true
  pub bytes : (q : ℕ) → is_used c.machine.memory q ≡ true → c'.contents q ≡ c.contents q

-- The loop's end.
pub Cloned-nil : {S : Type 0} (c : Cloning S) → Ready c → Cloned [] c c
Cloned-nil c ready = record {
  parent = record { coherent = ready.parent; idle = ready.idle; reads = λ b off. refl };
  coherent = ready.child;
  others = λ b off. refl;
  copy = λ v mem. absurd (Memᴰ.not-nil mem);
  deferred = λ v mem. absurd (Memᴰ.not-nil mem);
  apart = λ v w mem. absurd (Memᴰ.not-nil mem);
  keeps = λ q used. used;
  bytes = λ q used. refl;
}

module _ {S : Type 0} (v : Visit) (vs : List Visit) (c c₁ : Cloning S) (e : Entry) (hi : ℕ)
    (up : Ascending key (key v + 1) hi vs) (plan : Plan (v ∷ vs) c) (r : Round v e c c₁) where
  -- The pages that come later are other pages.
  pub later : (w : Visit) → Memᴰ w vs → same_page 3 w.address v.address ≡ false
  later w mem =
      let h = plan.clonable v (Memᴰ.head refl) in
      let k = plan.clonable w (Memᴰ.tail mem) in
      let after = le_of-Ascending key (key v + 1) hi vs up mem in
      let low = h.lower in
      let low' = k.lower in
      let flat = h.aligned in
      let flat' = k.aligned in
      same_page-eq-false w.address v.address (omega arith) (omega arith)
        (λ same. absurd (omega arith))

  earlier : (w : Visit) → Memᴰ w vs → same_page 3 v.address w.address ≡ false
  earlier w mem =
      let h = plan.clonable v (Memᴰ.head refl) in
      let k = plan.clonable w (Memᴰ.tail mem) in
      let after = le_of-Ascending key (key v + 1) hi vs up mem in
      let low = h.lower in
      let low' = k.lower in
      let flat = h.aligned in
      let flat' = k.aligned in
      same_page-eq-false v.address w.address (omega arith) (omega arith)
        (λ same. absurd (omega arith))

  pub Ready-Round : Ready c₁
  Ready-Round = record {
    paging = r.paging;
    parent = r.parent.coherent;
    child = r.child.coherent;
    idle = r.parent.idle;
  }

  pub Plan-Round : Plan vs c₁
  Plan-Round = record {
    clonable = λ w mem.
        let k = plan.clonable w (Memᴰ.tail mem) in
        let off = earlier w mem in
        record {
          lower = k.lower;
          aligned = k.aligned;
          public = k.public;
          valid = k.valid;
          entry = r.parent.reads w.address (same_page-buffer_page w.address k.lower) ∙ k.entry;
          vacant = r.child.reads w.address ∙ rw off refl ∙ k.vacant;
        };
    used = λ w mem here. r.keeps w.entry.base (plan.used w (Memᴰ.tail mem) here);
    room = let more = plan.room in let grown = r.grows in omega arith;
  }
