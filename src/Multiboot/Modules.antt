-- ===== src/Multiboot/Modules.antt =====
-- source/Multiboot.cpp, `prehandleModule`: the frames of the module.
use flix.Base.{ℕ, zero, suc, ◌+◌, ◌/◌, ◌≤◌, ◌<◌, ◌≡◌, refl, ap, ◌∙◌, false, some, arith, ◌>>=◌}
use flix.Memory.{Memory, set_range_rounds}
use flix.Memory.Ranges.{RangeMarked, set_range_rounds-Marked}
use flix.Memory.{is_used, set_page_used}
use flix.Multiboot.{Module, module_pages, module_rounds, prehandle_module}

module_rounds-set_range_rounds :
    (n paddr page : ℕ) (m : Memory)
    → paddr / 0x1000 ≡ page
    → module_rounds n paddr m ≡ set_range_rounds n page m
unfolding module_rounds set_range_rounds
module_rounds-set_range_rounds zero paddr page m at = refl
module_rounds-set_range_rounds (suc n) paddr page m at = rw at (
    ap (λ f. set_page_used page m >>= f)
      (λ k m₁. module_rounds-set_range_rounds n (paddr + 0x1000) (page + 1) m₁ (omega arith) k))

-- prehandleModule marks the frames of a module whose frames are free.
pub prehandle_module-RangeMarked :
    (tag : Module) (m : Memory)
    → ((q : ℕ)
        → tag.mod_start / 0x1000 ≤ q
        → q < tag.mod_start / 0x1000 + module_pages tag
        → is_used m q ≡ false)
    → (m' : Memory) × (prehandle_module tag m ≡ some m')
      × RangeMarked (tag.mod_start / 0x1000) (tag.mod_start / 0x1000 + module_pages tag) m m'
unfolding prehandle_module
prehandle_module-RangeMarked tag m free =
    let page = tag.mod_start / 0x1000 in
    let (m', ran, r) =
      set_range_rounds-Marked (module_pages tag) page (page + module_pages tag) m refl free in
    (m', module_rounds-set_range_rounds (module_pages tag) tag.mod_start page m refl ∙ ran, r)
