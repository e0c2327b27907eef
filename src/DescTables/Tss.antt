-- ===== src/DescTables/Tss.antt =====
-- source/DescTables.cpp, `initTr`: the descriptor of the task state segment as the processor reads it.
use flix.Base.{
  ℕ, ◌+◌, ◌*◌, ◌/◌, ◌%◌, ◌^◌, ◌<◌, ◌≡◌, ◌∙◌, List, length, get_or, set, arith, get_or-set_self,
  get_or-set_ne, length-set,
}
use flix.DescTables.{value_low, value_high, tss_entry, tss_selector, init_tr}

-- The base address and the limit that two words of the table encode.
abbrev pub base_of : ℕ → ℕ → ℕ
base_of low high = low / 2 ^ 16 % 2 ^ 24 + low / 2 ^ 56 % 2 ^ 8 * 2 ^ 24 + high % 2 ^ 32 * 2 ^ 32

abbrev pub limit_of : ℕ → ℕ
limit_of low = low % 2 ^ 16 + low / 2 ^ 48 % 2 ^ 4 * 2 ^ 16

-- An available 64-bit task state segment that is present, for the kernel alone, with its limit in bytes.
pub record IsTss (base limit low high : ℕ) : Type 0 where
  pub address : base_of low high ≡ base
  pub size : limit_of low ≡ limit
  pub kind : low / 2 ^ 40 % 2 ^ 5 ≡ 0x9
  pub privilege_level : low / 2 ^ 45 % 4 ≡ 0
  pub present : low / 2 ^ 47 % 2 ≡ 1
  pub in_bytes : low / 2 ^ 55 % 2 ≡ 0
  pub zeros : high / 2 ^ 32 ≡ 0

tss_entry-IsTss :
    (tss : ℕ)
    → tss < 2 ^ 64
    → IsTss tss 0x67 (value_low (tss_entry tss)) (value_high (tss_entry tss))
tss_entry-IsTss tss small = record {
  address = omega arith;
  size = omega arith;
  kind = omega arith;
  privilege_level = omega arith;
  present = omega arith;
  in_bytes = omega arith;
  zeros = omega arith;
}

-- In a table of seven entries and for a 64-bit address, initTr writes a descriptor that the
-- processor decodes to that address and the limit 0x67, present, available, in bytes, and for the
-- kernel alone. The five entries before it and the size of the table are as before.
pub init_tr-IsTss :
    (tss : ℕ) (gdt : List ℕ)
    → tss < 2 ^ 64
    → length gdt ≡ 7
    → IsTss tss 0x67
        (get_or (init_tr tss gdt) (tss_selector / 8) 0)
        (get_or (init_tr tss gdt) (tss_selector / 8 + 1) 0)
      × ((i : ℕ) → i < tss_selector / 8 → get_or (init_tr tss gdt) i 0 ≡ get_or gdt i 0)
      × (length (init_tr tss gdt) ≡ 7)
unfolding init_tr
init_tr-IsTss tss gdt small size =
    let e = tss_entry tss in
    let first = set gdt 5 (value_low e) in
    let kept : length first ≡ 7 = length-set gdt 5 (value_low e) ∙ size in
    let low : get_or (init_tr tss gdt) 5 0 ≡ value_low e =
      get_or-set_ne first 6 5 (value_high e) 0 (omega arith)
      ∙ get_or-set_self gdt 5 (value_low e) 0 (omega arith) in
    let high : get_or (init_tr tss gdt) 6 0 ≡ value_high e =
      get_or-set_self first 6 (value_high e) 0 (omega arith) in
    (
      rw (low, high) (tss_entry-IsTss tss small),
      λ i h.
          get_or-set_ne first 6 i (value_high e) 0 (omega arith)
          ∙ get_or-set_ne gdt 5 i (value_low e) 0 (omega arith),
      length-set first 6 (value_high e) ∙ kept,
    )
