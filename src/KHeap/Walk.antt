-- ===== src/KHeap/Walk.antt =====
-- KHeap.cpp: the blocks of the heap as a list, and how a write to a header changes it.
use flix.Base.{
  ℕ, ◌+◌, ◌%◌, ◌≤◌, ◌<◌, ◌≡◌, Bool, false, List, [], ◌∷◌, ◌++◌, arith, if◌then◌else◌, ◌≢◌,
  Bool-cases, inl, inr,
}
use flix.KHeap.{KHeap, Header, get_size, update, page_size}

-- A block: its size, and whether it is used.
pub record Block : Type 0 where
  pub size : ℕ
  pub used : Bool

-- From `a` to `e` the headers describe the blocks of the list, one behind the other.
abbrev pub Walks : (ℕ → Header) → ℕ → List Block → ℕ → Type 0
Walks f a [] e = a ≡ e
Walks f a (b ∷ bs) e =
    (get_size (f a) ≡ b.size)
    × ((f a).used ≡ b.used)
    × (8 ≤ b.size)
    × (b.size % 4 ≡ 0)
    × Walks f (a + b.size) bs e

pub Walks-le : (f : ℕ → Header) (a : ℕ) (bs : List Block) (e : ℕ) → Walks f a bs e → a ≤ e
Walks-le f a [] e w = omega arith
Walks-le f a (b ∷ bs) e w = omega (arith, Walks-le f (a + b.size) bs e w.4)

-- Headers elsewhere do not matter.
pub Walks-frame :
    (f g : ℕ → Header) (a : ℕ) (bs : List Block) (e : ℕ)
    → ((q : ℕ) → a ≤ q → q < e → g q ≡ f q)
    → Walks f a bs e
    → Walks g a bs e
Walks-frame f g a [] e same w = w
Walks-frame f g a (b ∷ bs) e same w =
    let below : a + b.size ≤ e = Walks-le f (a + b.size) bs e w.4 in
    let here : g a ≡ f a = same a (omega arith) (omega arith) in
    (
      rw here w.0,
      rw here w.1,
      w.2,
      w.3,
      Walks-frame f g (a + b.size) bs e (λ q low high. same q (omega arith) high) w.4,
    )

pub Walks-join :
    (f : ℕ → Header) (a : ℕ) (bs cs : List Block) (m e : ℕ)
    → Walks f a bs m
    → Walks f m cs e
    → Walks f a (bs ++ cs) e
Walks-join f a [] cs m e w v = rw w v
Walks-join f a (b ∷ bs) cs m e w v = (w.0, w.1, w.2, w.3, Walks-join f (a + b.size) bs cs m e w.4 v)

pub update-ne : (f : ℕ → Header) (a q : ℕ) (h : Header) → q ≢ a → update f a h q ≡ f q
update-ne f a q h ne = ground arith

pub update_self : (f : ℕ → Header) (a : ℕ) (h : Header) → update f a h a ≡ h
update_self f a h = ground arith

-- The blocks in use, with their addresses.
pub record Live : Type 0 where
  pub address : ℕ
  pub size : ℕ

abbrev pub live_from : ℕ → List Block → List Live
live_from a [] = []
live_from a (b ∷ bs) =
    let rest = live_from (a + b.size) bs in
    if b.used then record { address = a; size = b.size } ∷ rest else rest

pub live_from-append :
    (f : ℕ → Header) (a : ℕ) (bs cs : List Block) (m : ℕ)
    → Walks f a bs m
    → live_from a (bs ++ cs) ≡ live_from a bs ++ live_from m cs
live_from-append f a [] cs m w = rw w
live_from-append f a (b ∷ bs) cs m w =
    let ih = live_from-append f (a + b.size) bs cs m w.4 in ground (arith, ih)

-- The areas of a list lie in order between `a` and `e`, none overlapping the next.
abbrev pub Disjoint : ℕ → List Live → ℕ → Type 0
Disjoint a [] e = a ≤ e
Disjoint a (l ∷ ls) e = (a ≤ l.address) × (8 ≤ l.size) × Disjoint (l.address + l.size) ls e

Disjoint-weaken : (a a' : ℕ) (ls : List Live) (e : ℕ) → a' ≤ a → Disjoint a ls e → Disjoint a' ls e
Disjoint-weaken a a' [] e h d = omega arith
Disjoint-weaken a a' (l ∷ ls) e h d = (omega arith, d.1, d.2)

pub live_from-Disjoint :
    (f : ℕ → Header) (a : ℕ) (bs : List Block) (e : ℕ)
    → Walks f a bs e
    → Disjoint a (live_from a bs) e
live_from-Disjoint f a [] e w = omega arith
live_from-Disjoint f a (b ∷ bs) e w =
    let ih = live_from-Disjoint f (a + b.size) bs e w.4 in
    elim (Bool-cases b.used) [
      | inl u ↦ rw u (omega arith, w.2, ih)
      | inr u ↦ rw u (Disjoint-weaken (a + b.size) a (live_from (a + b.size) bs) e (omega arith) ih)
    ]

-- A well-formed heap: the blocks of `front`, and behind them the last block.
pub record IsHeap (h : KHeap) (front : List Block) (last : Block) : Type 0 where
  pub walk : Walks h.header h.heap_start front h.last_block
  pub last_size : get_size (h.header h.last_block) ≡ last.size
  pub last_used : (h.header h.last_block).used ≡ last.used
  pub last_min : 8 ≤ last.size
  pub last_aligned : last.size % 4 ≡ 0
  pub ends : h.last_block + last.size ≡ h.heap_end
  pub pages : h.heap_end % page_size ≡ 0

-- The header words behind the heap have a clear used bit, as in memory that is zeroed.
abbrev pub IsFresh : KHeap → Type 0
IsFresh h = (a : ℕ) → h.heap_end ≤ a → (h.header a).used ≡ false

pub IsHeap-Walks :
    (h : KHeap) (front : List Block) (last : Block)
    → IsHeap h front last
    → Walks h.header h.heap_start (front ++ last ∷ []) h.heap_end
IsHeap-Walks h front last v =
    Walks-join h.header h.heap_start front (last ∷ []) h.last_block h.heap_end v.walk
      (v.last_size, v.last_used, v.last_min, v.last_aligned, v.ends)

-- The areas that are allocated.
abbrev pub live : KHeap → List Block → Block → List Live
live h front last = live_from h.heap_start (front ++ last ∷ [])
