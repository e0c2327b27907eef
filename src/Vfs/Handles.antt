-- ===== src/Vfs/Handles.antt =====
-- Cpio.cpp, `CpioFileHandle`: reading and seeking.
use flix.Base.{
  ℕ, ◌+◌, ◌-◌, ◌%◌, ◌^◌, ◌≡◌, ◌≤◌, ◌<◌, refl, ◌∙◌, sym, ap, true, some, List, [], ◌∷◌, ◌++◌, zero,
  suc, min, arith, leb, length, take, drop,
}
use flix.Vfs.{Handle, read}

-- The bytes that are copied: as many as are asked for and there.
abbrev pub count : ℕ → Handle → ℕ
count size h = min size (length h.bytes - h.pos)

abbrev pub bytes_read : ℕ → Handle → List ℕ
bytes_read size h = take (count size h) (drop h.pos h.bytes)

abbrev pub after_read : ℕ → Handle → Handle
after_read size h = record h { pos = h.pos + count size h }

pub read-within :
    (size : ℕ) (h : Handle)
    → h.pos ≤ length h.bytes
    → length h.bytes < 2 ^ 64
    → read size h ≡ some (bytes_read size h, after_read size h)
unfolding read
read-within size h inside small =
    let left : (length h.bytes + 2 ^ 64 - h.pos) % 2 ^ 64 ≡ length h.bytes - h.pos = omega arith in
    let fits : leb (h.pos + count size h) (length h.bytes) ≡ true = ground arith in
    let wraps : (h.pos + count size h) % 2 ^ 64 ≡ h.pos + count size h = omega arith in
    rw left (simp (fits, wraps))

take-nil : (n : ℕ) → take {A = ℕ} n [] ≡ []
take-nil zero = refl
take-nil (suc n) = refl

drop-nil : (n : ℕ) → drop {A = ℕ} n [] ≡ []
drop-nil zero = refl
drop-nil (suc n) = refl

take-add : (m n : ℕ) (xs : List ℕ) → take (m + n) xs ≡ take m xs ++ take n (drop m xs)
take-add zero n xs = let e : 0 + n ≡ n = omega arith in rw e refl
take-add (suc m) n [] = take-nil (suc m + n) ∙ sym (take-nil n)
take-add (suc m) n (x ∷ xs) =
    let e : suc m + n ≡ suc (m + n) = omega arith in rw e (ap (λ t. x ∷ t) (take-add m n xs))

drop-add : (m n : ℕ) (xs : List ℕ) → drop (m + n) xs ≡ drop n (drop m xs)
drop-add zero n xs = let e : 0 + n ≡ n = omega arith in rw e refl
drop-add (suc m) n [] = drop-nil (suc m + n) ∙ sym (drop-nil n)
drop-add (suc m) n (x ∷ xs) =
    let e : suc m + n ≡ suc (m + n) = omega arith in rw e (drop-add m n xs)

-- From a position inside a file of less than 2^64 bytes, two reads one after the other both succeed,
-- and copy the same bytes and end at the same position as one read of both sizes.
pub read-read :
    (a b : ℕ) (h : Handle)
    → h.pos ≤ length h.bytes
    → length h.bytes < 2 ^ 64
    → (xs : List ℕ) × (ys : List ℕ) × (h₁ : Handle) × (h₂ : Handle) × (read a h ≡ some (xs, h₁))
      × (read b h₁ ≡ some (ys, h₂))
      × (read (a + b) h ≡ some (xs ++ ys, h₂))
read-read a b h inside small =
    let h₁ = after_read a h in
    let both : count (a + b) h ≡ count a h + count b h₁ = omega arith in
    let bytes : bytes_read (a + b) h ≡ bytes_read a h ++ bytes_read b h₁ =
      ap (λ n. take n (drop h.pos h.bytes)) both
      ∙ take-add (count a h) (count b h₁) (drop h.pos h.bytes)
      ∙ ap (λ t. bytes_read a h ++ take (count b h₁) t)
          (sym (drop-add h.pos (count a h) h.bytes)) in
    let ends : h.pos + count (a + b) h ≡ h.pos + count a h + count b h₁ = omega arith in
    (
      bytes_read a h,
      bytes_read b h₁,
      h₁,
      after_read b h₁,
      read-within a h inside small,
      read-within b h₁ (omega arith) small,
      read-within (a + b) h inside small
          ∙ ap (λ t. some (t, after_read (a + b) h)) bytes
          ∙ ap (λ q. some (bytes_read a h ++ bytes_read b h₁, record h { pos = q })) ends,
    )
