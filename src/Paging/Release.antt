-- ===== src/Paging/Release.antt =====
-- source/PageDirectory.cpp, `unmapUserSpace`: a new user space, and the frames of the old one given back. The tables
-- of the old one, which its destructor frees, are left out.
use flix.Base.{
  ℕ, ◌+◌, ◌≡◌, ◌≢◌, refl, ◌∙◌, sym, ap, Bool, true, false, Option, some, arith, ◌==◌, if◌then◌else◌,
  ◌>>=◌, ◌>>◌, assert, >>=-some, List, [], ◌∷◌, Memᴰ, Ascending, le_of-Ascending, inl, inr,
  Bool-cases, ==-refl,
}
use mathlib.Core.List.Memᴰ
use mathlib.Core.Path.{subst}
use flix.Memory.{Memory, is_used, set_page_free}
use flix.Memory.Frames.{Marked, IsCounted, set_page_free-Marked}
use flix.Paging.{Allocator, invalid_page}
use flix.Paging.Directory.{Directory, Machine, map_kernel, use_directory}
use flix.Paging.Visits.{Visit, user_pages}
use flix.Paging.Order.{key}

-- The callback of `unmapUserSpace`.
unfoldable pub free_visit : Visit → Memory → Option Memory
free_visit v memory =
    if v.entry.p
    then set_page_free v.entry.base memory
    else (do assert (v.entry.base == invalid_page); some memory)

pub free_pages : List Visit → Memory → Option Memory
free_pages [] memory = some memory
free_pages (v ∷ vs) memory = do memory₁ ← free_visit v memory; free_pages vs memory₁

module _ (alloc : Allocator) where
  open alloc use {State}

  -- `var` is the address of a variable of `use` on the stack.
  unfoldable pub unmap_user_space :
      Bool → ℕ → ℕ → Directory → Directory → Machine State → Option (Directory × Machine State)
  unmap_user_space main_is_me var vbase kernel d m = do
    (new_pd, m₁) ← map_kernel alloc vbase kernel m
    m₂ ← if main_is_me then use_directory var d new_pd m₁ else some m₁
    memory ← free_pages (user_pages d.manager) m₂.memory
    some (new_pd, record m₂ { memory = memory })

-- The pages of a list hold used frames, each a frame of its own, or wait for one.
pub record HoldFrames (vs : List Visit) (m : Memory) : Type 0 where
  pub used : (v : Visit) → Memᴰ v vs → v.entry.p ≡ true → is_used m v.entry.base ≡ true
  pub apart :
      (v w : Visit)
      → Memᴰ v vs
      → Memᴰ w vs
      → v.entry.p ≡ true
      → w.entry.p ≡ true
      → v.entry.base ≡ w.entry.base
      → v.address ≡ w.address
  pub deferred : (v : Visit) → Memᴰ v vs → v.entry.p ≡ false → v.entry.base ≡ invalid_page

-- What freeing them leaves.
pub record Freed (vs : List Visit) (m m' : Memory) : Type 0 where
  pub freed : (v : Visit) → Memᴰ v vs → v.entry.p ≡ true → is_used m' v.entry.base ≡ false
  pub kept :
      (q : ℕ)
      → ((v : Visit) → Memᴰ v vs → v.entry.p ≡ true → v.entry.base ≢ q)
      → is_used m' q ≡ is_used m q
  pub counted : IsCounted m → IsCounted m'

module _ (v : Visit) (vs : List Visit) (m : Memory) (hi : ℕ) (up : Ascending key (key v + 1) hi vs)
    (h : HoldFrames (v ∷ vs) m) where
  others :
      v.entry.p ≡ true → (w : Visit) → Memᴰ w vs → w.entry.p ≡ true → v.entry.base ≢ w.entry.base
  others here w mem there same =
      let place = h.apart v w (Memᴰ.head refl) (Memᴰ.tail mem) here there same in
      let later = le_of-Ascending key (key v + 1) hi vs up mem in
      absurd (omega (arith, place, later))

  -- The rest of the pages, once the first frame is free.
  HoldFrames-rest :
      (m₁ : Memory) → v.entry.p ≡ true → Marked v.entry.base false m m₁ → HoldFrames vs m₁
  HoldFrames-rest m₁ here marked = record {
    used = λ w mem there.
        let ne = others here w mem there in
        let off : (v.entry.base == w.entry.base) ≡ false = ground arith in
        marked.reads w.entry.base ∙ rw off (h.used w (Memᴰ.tail mem) there);
    apart = λ x y mx my. h.apart x y (Memᴰ.tail mx) (Memᴰ.tail my);
    deferred = λ w mem. h.deferred w (Memᴰ.tail mem);
  }

  Freed-cons :
      (m₁ m' : Memory)
      → v.entry.p ≡ true
      → Marked v.entry.base false m m₁
      → Freed vs m₁ m'
      → Freed (v ∷ vs) m m'
  Freed-cons m₁ m' here marked f = record {
    freed = λ w mem there. elim (Memᴰ.cases_cons mem) [
      | inl same ↦
          subst (λ x. is_used m' x.entry.base ≡ false) (sym same)
            (f.kept v.entry.base (λ x later shown e. others here x later shown (sym e))
              ∙ marked.reads v.entry.base
              ∙ rw (==-refl v.entry.base) refl)
      | inr later ↦ f.freed w later there
    ];
    kept = λ q none.
        let ne = none v (Memᴰ.head refl) here in
        let off : (v.entry.base == q) ≡ false = ground arith in
        f.kept q (λ w mem. none w (Memᴰ.tail mem)) ∙ marked.reads q ∙ rw off refl;
    counted = λ c. f.counted (marked.keeps c);
  }

  -- A page that waits for a frame frees none.
  Freed-deferred : (m' : Memory) → v.entry.p ≡ false → Freed vs m m' → Freed (v ∷ vs) m m'
  Freed-deferred m' gone f = record {
    freed = λ w mem there. elim (Memᴰ.cases_cons mem) [
      | inl same ↦
          let clash : false ≡ true = sym gone ∙ sym (ap (λ x. x.entry.p) same) ∙ there in cc
      | inr later ↦ f.freed w later there
    ];
    kept = λ q none. f.kept q (λ w mem. none w (Memᴰ.tail mem));
    counted = f.counted;
  }

pub free_pages-Freed :
    (vs : List Visit) (m : Memory) (lo hi : ℕ)
    → Ascending key lo hi vs
    → HoldFrames vs m
    → (m' : Memory) × (free_pages vs m ≡ some m') × Freed vs m m'
unfolding free_pages
free_pages-Freed [] m lo hi up h = (
  m,
  refl,
  record { freed = λ v mem. absurd (Memᴰ.not-nil mem); kept = λ q none. refl; counted = λ c. c },
)
free_pages-Freed (v ∷ vs) m lo hi up h = elim (Bool-cases v.entry.p) [
  | inl here ↦
      let (m₁, ran, marked) =
        set_page_free-Marked v.entry.base m (h.used v (Memᴰ.head refl) here) in
      let (m', rest, f) =
        free_pages-Freed vs m₁ (key v + 1) hi up.1
          (HoldFrames-rest v vs m hi up.1 h m₁ here marked) in
      let first : free_visit v m ≡ some m₁ = unfold free_visit in rw here ran in
      (m', >>=-some _ _ first ∙ rest, Freed-cons v vs m hi up.1 h m₁ m' here marked f)
  | inr gone ↦
      let left : HoldFrames vs m = record {
        used = λ w mem. h.used w (Memᴰ.tail mem);
        apart = λ x y mx my. h.apart x y (Memᴰ.tail mx) (Memᴰ.tail my);
        deferred = λ w mem. h.deferred w (Memᴰ.tail mem);
      } in
      let (m', rest, f) = free_pages-Freed vs m (key v + 1) hi up.1 left in
      let waits : (v.entry.base == invalid_page) ≡ true =
        ap (λ b. b == invalid_page) (h.deferred v (Memᴰ.head refl) gone) in
      let first : free_visit v m ≡ some m = unfold free_visit in rw (gone, waits) refl in
      (m', >>=-some _ _ first ∙ rest, Freed-deferred v vs m hi up.1 h m' gone f)
]
