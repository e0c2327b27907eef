-- ===== src/Interrupt/Masks.antt =====
-- source/Interrupt.cpp, `mask` and `unmask`: one line changes, and no other.
use flix.Base.{
  ℕ, ◌+◌, ◌-◌, ◌*◌, ◌/◌, ◌%◌, ◌≡◌, ◌<◌, ◌≤◌, refl, ◌∙◌, ap, Bool, true, false, zero, suc, ltb, ◌==◌,
  if◌then◌else◌, arith, inl, inr, Bool-cases,
}
use flix.Interrupt.{
  Ports, set_bit, clear_bit, pic1_cmd, pic2_cmd, pic1_data, pic2_data, update_mask, mask, unmask,
  init_pic,
}

unfoldable pub bit : ℕ → ℕ → Bool
bit zero x = x % 2 == 1
bit (suc n) x = bit n (x / 2)

bit-set_bit : (n x i : ℕ) → bit i (set_bit n x) ≡ (if i == n then true else bit i x)
unfolding bit set_bit
bit-set_bit zero x zero = ground arith
bit-set_bit zero x (suc i) =
    let half : (x / 2 * 2 + 1) / 2 ≡ x / 2 = omega arith in
    let off : (suc i == 0) ≡ false = ground arith in ap (bit i) half ∙ rw off refl
bit-set_bit (suc n) x zero = ground arith
bit-set_bit (suc n) x (suc i) =
    let half : (set_bit n (x / 2) * 2 + x % 2) / 2 ≡ set_bit n (x / 2) = omega arith in
    let same : (suc i == suc n) ≡ (i == n) = ground arith in
    ap (bit i) half ∙ bit-set_bit n (x / 2) i ∙ rw same refl

bit-clear_bit : (n x i : ℕ) → bit i (clear_bit n x) ≡ (if i == n then false else bit i x)
unfolding bit clear_bit
bit-clear_bit zero x zero = ground arith
bit-clear_bit zero x (suc i) =
    let half : (x / 2 * 2) / 2 ≡ x / 2 = omega arith in
    let off : (suc i == 0) ≡ false = ground arith in ap (bit i) half ∙ rw off refl
bit-clear_bit (suc n) x zero = ground arith
bit-clear_bit (suc n) x (suc i) =
    let half : (clear_bit n (x / 2) * 2 + x % 2) / 2 ≡ clear_bit n (x / 2) = omega arith in
    let same : (suc i == suc n) ≡ (i == n) = ground arith in
    ap (bit i) half ∙ bit-clear_bit n (x / 2) i ∙ rw same refl

double : ℕ → ℕ
double zero = 1
double (suc k) = 2 * double k

set_bit_bound : (n k x : ℕ) → n < k → x < double k → set_bit n x < double k
unfolding set_bit double
set_bit_bound n zero x h small = absurd (omega arith)
set_bit_bound zero (suc k) x h small = omega arith
set_bit_bound (suc n) (suc k) x h small =
    let inner = set_bit_bound n k (x / 2) (omega arith) (omega arith) in omega arith

clear_bit_bound : (n x : ℕ) → clear_bit n x ≤ x
unfolding clear_bit
clear_bit_bound zero x = omega arith
clear_bit_bound (suc n) x = let inner = clear_bit_bound n (x / 2) in omega arith

-- A line of the two controllers is masked.
unfoldable pub is_masked : (ports : Ports) → ℕ → ports.State → Bool
is_masked ports nb s =
    if ltb nb 8 then bit nb (ports.inb pic1_data s) else bit (nb - 8) (ports.inb pic2_data s)

-- What the controllers do at their data ports: once the four words of the initialization are given to each, a byte that
-- is written to a data port is read back there until that port is written again.
pub record KeepsMasks (ports : Ports) : Type 1 where
  pub IsIdle : ports.State → Type 0
  pub started :
      (vector₁ vector₂ line₁ line₂ mode₁ mode₂ : ℕ) (s : ports.State)
      → IsIdle (
          ports.outb pic2_data mode₂ (
            ports.outb pic1_data mode₁ (
              ports.outb pic2_data line₂ (
                ports.outb pic1_data line₁ (
                  ports.outb pic2_data vector₂ (
                    ports.outb pic1_data vector₁
                      (ports.outb pic2_cmd 0x11 (ports.outb pic1_cmd 0x11 s))))))))
  pub stays : (v : ℕ) (s : ports.State) → IsIdle s → IsIdle (ports.outb pic1_data v s)
  pub byte : (s : ports.State) → (ports.inb pic1_data s < 256) × (ports.inb pic2_data s < 256)
  pub first :
      (v : ℕ) (s : ports.State)
      → IsIdle s
      → v < 256
      → ports.inb pic1_data (ports.outb pic1_data v s) ≡ v
  pub second :
      (v : ℕ) (s : ports.State)
      → IsIdle s
      → v < 256
      → ports.inb pic2_data (ports.outb pic2_data v s) ≡ v
  pub first_stays :
      (v : ℕ) (s : ports.State)
      → ports.inb pic1_data (ports.outb pic2_data v s) ≡ ports.inb pic1_data s
  pub second_stays :
      (v : ℕ) (s : ports.State)
      → ports.inb pic2_data (ports.outb pic1_data v s) ≡ ports.inb pic2_data s

module _ (ports : Ports) (keeps : KeepsMasks ports) where
  open ports use {State, outb, inb}

  -- An operation that sets the bit of its line to `b` does so for one line of sixteen.
  update_mask-is_masked :
      (op : ℕ → ℕ → ℕ) (b : Bool) (nb i : ℕ) (s : State)
      → ((n x j : ℕ) → bit j (op n x) ≡ (if j == n then b else bit j x))
      → ((n x : ℕ) → n < 8 → x < 256 → op n x < 256)
      → keeps.IsIdle s
      → nb < 16
      → i < 16
      → is_masked ports i (update_mask ports op nb s) ≡ (if i == nb then b else is_masked ports i s)
  unfolding is_masked update_mask
  update_mask-is_masked op b nb i s sets fits idle low low' =
      let (byte₁, byte₂) = keeps.byte s in
      elim (Bool-cases (ltb nb 8)) [
        | inl one ↦
            let v = op nb (inb pic1_data s) in
            let small = fits nb (inb pic1_data s) (ground arith) byte₁ in
            let value : v % 256 ≡ v = omega arith in
            elim (Bool-cases (ltb i 8)) [
              | inl here ↦
                  rw (one, here, value)
                    (ap (bit i) (keeps.first v s idle small) ∙ sets nb (inb pic1_data s) i)
              | inr there ↦
                  let off : (i == nb) ≡ false = ground arith in
                  rw (one, there, off) (ap (bit (i - 8)) (keeps.second_stays (v % 256) s))
            ]
        | inr two ↦
            let v = op (nb - 8) (inb pic2_data s) in
            let small = fits (nb - 8) (inb pic2_data s) (ground arith) byte₂ in
            let value : v % 256 ≡ v = omega arith in
            elim (Bool-cases (ltb i 8)) [
              | inl there ↦
                  let off : (i == nb) ≡ false = ground arith in
                  rw (two, there, off) (ap (bit i) (keeps.first_stays (v % 256) s))
              | inr here ↦
                  let same : (i - 8 == nb - 8) ≡ (i == nb) = ground arith in
                  rw (two, here, value)
                    (ap (bit (i - 8)) (keeps.second v s idle small)
                      ∙ sets (nb - 8) (inb pic2_data s) (i - 8)
                      ∙ rw same refl)
            ]
      ]

  -- On controllers that are set up and read back what is written to their data ports, mask masks one
  -- of the sixteen lines and unmask opens it; the other lines stay as they are.
  pub mask-is_masked :
      (nb i : ℕ) (s : State)
      → keeps.IsIdle s
      → nb < 16
      → i < 16
      → (is_masked ports i (mask ports nb s) ≡ (if i == nb then true else is_masked ports i s))
        × (is_masked ports i (unmask ports nb s) ≡ (if i == nb then false else is_masked ports i s))
  unfolding mask unmask double
  mask-is_masked nb i s idle low low' = (
    update_mask-is_masked set_bit true nb i s bit-set_bit
        (λ n x h small. set_bit_bound n 8 x h small) idle low low',
    update_mask-is_masked clear_bit false nb i s bit-clear_bit
        (λ n x h small. let under = clear_bit_bound n x in omega arith) idle low low',
  )

  bit-zero : (i : ℕ) → bit i 0 ≡ false
  unfolding bit
  bit-zero zero = refl
  bit-zero (suc i) = bit-zero i

  -- After initPic no line is masked.
  pub init_pic-is_masked : (i : ℕ) (s : State) → is_masked ports i (init_pic ports s) ≡ false
  unfolding init_pic is_masked
  init_pic-is_masked i s =
      let idle = keeps.started 0x20 0x28 0x04 0x02 0x01 0x01 s in
      elim (Bool-cases (ltb i 8)) [
        | inl here ↦
            rw here
              (ap (bit i) (keeps.first_stays 0 _ ∙ keeps.first 0 _ idle (omega arith)) ∙ bit-zero i)
        | inr there ↦ rw there (
            ap (bit (i - 8)) (keeps.second 0 _ (keeps.stays 0 _ idle) (omega arith))
            ∙ bit-zero (i - 8))
      ]
