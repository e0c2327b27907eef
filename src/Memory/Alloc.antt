-- ===== src/Memory/Alloc.antt =====
-- Memory.cpp: `getFreePage` hands out the lowest free frame.
use flix.Base.{
  ℕ, ◌+◌, ◌≤◌, ◌<◌, ◌≡◌, refl, ap, sym, ◌∙◌, Bool, true, false, none, some, List, [], ◌∷◌, zero,
  suc, length, get_or, resize, if◌then◌else◌, ◌==◌, arith, inl, inr, Option-cases, get_or-resize,
  get_or-length_le, ==-refl,
}
use mathlib.Core.Path.{subst}
use mathlib.Core.Option.{some-injective}
use flix.Memory.{Memory, is_used, find_free, get_free_page, set_page_free}
use flix.Memory.Frames.{
  Marked, IsCounted, count_used-resize, set_page_used-Marked, set_page_free-Marked,
}

-- The first free frame of `fs`, where the vector's frame 0 is numbered `i`.
pub record Found (fs : List Bool) (i p : ℕ) : Type 0 where
  pub from : i ≤ p
  pub free : (j : ℕ) → i + j ≡ p → get_or fs j false ≡ false
  pub lowest : (j : ℕ) → i + j < p → get_or fs j false ≡ true

pub find_free-Found : (fs : List Bool) (i p : ℕ) → find_free fs i ≡ some p → Found fs i p
unfolding find_free
find_free-Found [] i p e = cc
find_free-Found (false ∷ fs) i p e = record {
  from = ground arith;
  free = λ j h. let same : j ≡ 0 = ground arith in rw same refl;
  lowest = λ j h. absurd (ground arith);
}
find_free-Found (true ∷ fs) i p e =
    let f = find_free-Found fs (i + 1) p e in
    record {
      from = omega (arith, f.from);
      free = elim [
        | zero ↦ λ h. absurd (omega (arith, f.from))
        | suc j ↦ λ h. f.free j (omega arith)
      ];
      lowest = elim [ zero ↦ λ h. refl | suc j ↦ λ h. f.lowest j (omega arith) ];
    }

pub find_free-length : (fs : List Bool) (i p : ℕ) → find_free fs i ≡ some p → p < i + length fs
unfolding find_free
find_free-length [] i p e = cc
find_free-length (false ∷ fs) i p e = ground arith
find_free-length (true ∷ fs) i p e = omega (arith, find_free-length fs (i + 1) p e)

pub find_free-none :
    (fs : List Bool) (i : ℕ)
    → find_free fs i ≡ none
    → (j : ℕ) → j < length fs
    → get_or fs j false ≡ true
unfolding find_free
find_free-none [] i e j h = elim h [ ]
find_free-none (false ∷ fs) i e j h = cc
find_free-none (true ∷ fs) i e zero h = refl
find_free-none (true ∷ fs) i e (suc j) h = find_free-none fs (i + 1) e j (omega arith)

-- A call of `getFreePage` on `m` that hands out frame `page` and leaves `m'`.
pub record Allocates (m : Memory) (page : ℕ) (m' : Memory) : Type 0 where
  pub runs : get_free_page m ≡ some (page, m')
  pub free : is_used m page ≡ false
  pub lowest : (q : ℕ) → q < page → is_used m q ≡ true
  pub marked : Marked page true m m'

reuse : (m : Memory) (p : ℕ) → find_free m.frames 0 ≡ some p → (m' : Memory) × Allocates m p m'
unfolding get_free_page is_used
reuse m p e =
    let f = find_free-Found m.frames 0 p e in
    let free = f.free p (omega arith) in
    let (m', ran, marked) = set_page_used-Marked p m free in
    (
      m',
      record {
        runs = rw (e, get_free_page, ran);
        free = free;
        lowest = λ q h. f.lowest q (omega arith);
        marked = marked;
      },
    )

widen : Memory → Memory
widen m = record m { frames = resize (length m.frames + 16) false m.frames }

widen-is_used : (m : Memory) (q : ℕ) → is_used (widen m) q ≡ is_used m q
unfolding widen is_used
widen-is_used m q = get_or-resize (length m.frames + 16) m.frames q false (omega arith)

widen-IsCounted : (m : Memory) → IsCounted m → IsCounted (widen m)
unfolding widen
widen-IsCounted m c = record {
  counted = c.counted ∙ sym (count_used-resize (length m.frames + 16) m.frames (omega arith));
}

extend :
    (m : Memory) → find_free m.frames 0 ≡ none → (m' : Memory) × Allocates m (length m.frames) m'
unfolding get_free_page widen
extend m e =
    let (m', ran, marked) =
      set_page_used-Marked (length m.frames) (widen m) (widen-is_used m _ ∙ past) in
    (
      m',
      record {
        runs = rw (e, get_free_page, ran);
        free = past;
        lowest = λ q h. unfold is_used in find_free-none m.frames 0 e q h;
        marked = record {
          reads = λ q.
              marked.reads q
              ∙ ap (λ b. if length m.frames == q then true else b) (widen-is_used m q);
          keeps = λ c. marked.keeps (widen-IsCounted m c);
        };
      },
    )
  where
    past : is_used m (length m.frames) ≡ false
    past = unfold is_used in get_or-length_le m.frames (length m.frames) false (omega arith)

-- getFreePage never fails: it hands out the lowest frame that was free, marks that frame and no
-- other, and keeps the count of used frames right.
pub get_free_page-Allocates : (m : Memory) → (page : ℕ) × (m' : Memory) × Allocates m page m'
get_free_page-Allocates m = elim (Option-cases (find_free m.frames 0)) [
  | inl e ↦ let (m', a) = extend m e in (length m.frames, m', a)
  | inr (p, e) ↦ let (m', a) = reuse m p e in (p, m', a)
]

pub Allocates-of_runs :
    (m : Memory) (page : ℕ) (m' : Memory) → get_free_page m ≡ some (page, m') → Allocates m page m'
Allocates-of_runs m page m' e =
    let (p, n, a) = get_free_page-Allocates m in
    subst (λ r. Allocates m r.0 r.1) (some-injective _ _ (sym a.runs ∙ e)) a

-- A frame that was just handed out can be given back, and then every frame is marked as before, and
-- a right count of used frames is right again.
pub set_page_free-get_free_page :
    (m : Memory) (page : ℕ) (m' : Memory)
    → get_free_page m ≡ some (page, m')
    → (m'' : Memory) × (set_page_free page m' ≡ some m'')
      × ((q : ℕ) → is_used m'' q ≡ is_used m q)
      × (IsCounted m → IsCounted m'')
set_page_free-get_free_page m page m' e =
    let a = Allocates-of_runs m page m' e in
    let (m'', ran, freed) =
      set_page_free-Marked page m' (a.marked.reads page ∙ rw (==-refl page)) in
    (
      m'',
      ran,
      λ q. ground (arith, freed.reads q, a.marked.reads q, a.free),
      λ c. freed.keeps (a.marked.keeps c),
    )
