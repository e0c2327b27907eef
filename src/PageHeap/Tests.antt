-- ===== src/PageHeap/Tests.antt =====
-- Runs of the page heap, and the theorem about it at a concrete heap.
use flix.Base.{◌≡◌, refl, true, false, some, [], ◌∷◌, arith, length, ◌>>=◌}
use flix.Memory.{find_free}
use flix.Paging.{new_tables}
use flix.PageHeap.{
  World, alloc_page, alloc_block, page_kmalloc, page_kfree, refill_rounds, refill_pool,
}
use flix.PageHeap.Blocks.{pd_layout, RoundTrip, page_kfree-page_kmalloc}

-- Blocks 0 and 2 are taken.
abbrev world : World
world = record {
  heap = record {
    used_block_count = 2;
    allocating = false;
    map = true ∷ false ∷ true ∷ [];
    pool = [];
  };
  kernel = record { manager = new_tables 3; base = 1 };
  memory = record { frames = []; used_page_count = 0 };
  paging_ready = true;
}

page_kfree-page_kmalloc_example :
    (w₁ : World) × (w₂ : World) × (page_kmalloc (pd_layout 0xffffffffd0000000 0x400000) world
      ≡ some ((0xffffffffd0002000, 0x402000), w₁))
    × (page_kfree (pd_layout 0xffffffffd0000000 0x400000) 0xffffffffd0002000 w₁ ≡ some w₂)
    × RoundTrip world w₁ w₂
unfolding find_free
page_kfree-page_kmalloc_example =
    page_kfree-page_kmalloc 0xffffffffd0000000 0x400000 world (omega arith) refl (omega arith)

-- An empty heap fills its pool of 16 blocks from the static pages.
abbrev empty_world : World
empty_world = record world {
  heap = record { used_block_count = 0; allocating = false; map = []; pool = [] };
}

refill_pool_test :
    (refill_pool (pd_layout 0xffffffffd0000000 0x400000) 16 empty_world >>= λ r.
    r >>= λ w. some (length w.heap.pool))
    ≡ some 16
unfolding refill_pool refill_rounds alloc_block alloc_page find_free
refill_pool_test = refl
