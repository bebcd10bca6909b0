-- ===== src/Heap/Tests.antt =====
-- Tests of kernel/memory/heap.c, and its theorems at concrete inputs.
use null_os.Prelude.{
  ℕ, ◌+◌, ◌-◌, ◌<◌, ◌≤◌, ◌≢◌, ◌≡◌, refl, ◌⊎◌, inl, inr, arith, Bool, true, false, some, [], ◌∷◌,
  replicate,
}
use null_os.Pmm.{Pmm}
use null_os.Heap.{
  Block, Heap, init, heap_expand, kmalloc, kfree, heap_base, heap_max, heap_initial_size,
  magic_free, magic_used, kmalloc_rounds, first_fit, pass, take_block, free_block, free_after,
  merge_next, absorb,
}
use null_os.Heap.Layout.{Laid, IsHeap, live}
use null_os.Heap.Fit.{NoneFits}
use null_os.Heap.Malloc.{aligned, Allocated, kmalloc_lem}
use null_os.Heap.Free.{LiveAt, NotLive, BlockAt, Freed}
use null_os.Heap.Kfree.{kfree_lem}
use null_os.Heap.Start.{initial_block, init-IsHeap}

abbrev maps : (virt phys : ℕ) → Pmm → Bool × Pmm
maps virt phys p = (true, p)

abbrev memory : Pmm
memory = record { bitmap = replicate 64 0; total = 2048; used = 0 }

abbrev unstarted : Heap
unstarted = record { blocks = []; end = heap_base; pmm = memory }

init-IsHeap_example :
    IsHeap (init maps unstarted)
    × ((((heap_expand maps heap_initial_size unstarted).0 ≡ false)
          × ((init maps unstarted).blocks ≡ []))
        ⊎ (((heap_expand maps heap_initial_size unstarted).0 ≡ true)
            × ((init maps unstarted).blocks ≡ initial_block ∷ [])))
init-IsHeap_example = init-IsHeap maps unstarted refl refl

abbrev first : Block
first = record { address = heap_base; magic = magic_used; size = 64 }

abbrev hole : Block
hole = record { address = heap_base + 80; magic = magic_free; size = 200 }

abbrev last : Block
last = record { address = heap_base + 296; magic = magic_used; size = 3784 }

-- A page with a free block between two that are handed out.
abbrev one_page : Heap
one_page = record { blocks = first ∷ hole ∷ last ∷ []; end = heap_base + 4096; pmm = memory }

one_page-IsHeap : IsHeap one_page
unfolding Laid
one_page-IsHeap = record {
  laid = (
    record { after = omega arith; aligned = refl; whole = refl; known = inl refl },
    (
      record { after = omega arith; aligned = refl; whole = refl; known = inr (refl, refl) },
      (record { after = omega arith; aligned = refl; whole = refl; known = inl refl }, omega arith),
    ),
  );
  end_aligned = refl;
  end_in = omega arith;
}

split_hole :
    kmalloc maps 30 one_page
    ≡ some (
      heap_base + 96,
      record one_page {
        blocks =
            first
            ∷ record { address = heap_base + 80; magic = magic_used; size = 32 }
            ∷ record { address = heap_base + 128; magic = magic_free; size = 152 }
            ∷ last
            ∷ [];
      },
    )
unfolding kmalloc kmalloc_rounds first_fit pass take_block
split_hole = refl

-- The first block merges with the hole, and the last one then with both.
all_merged :
    (kfree (heap_base + 312) (kfree (heap_base + 16) one_page)).blocks
    ≡ record { address = heap_base; magic = magic_free; size = 4080 } ∷ []
unfolding kfree free_block free_after merge_next absorb
all_merged = refl

abbrev request : ℕ
request = 30

kmalloc_lem_example :
    (((request ≡ 0) ⊎ (heap_max - heap_base < request))
      × (kmalloc maps request one_page ≡ some (0, one_page)))
    ⊎ ((request ≢ 0)
        × (request ≤ heap_max - heap_base)
        × (((u : Heap) × (kmalloc maps request one_page ≡ some (0, u))
              × NoneFits (aligned request) one_page.blocks
              × (live u.blocks ≡ live one_page.blocks)
              × IsHeap u)
            ⊎ ((ptr : ℕ) × (u : Heap) × (kmalloc maps request one_page ≡ some (ptr, u))
                × Allocated request ptr one_page u)))
kmalloc_lem_example = kmalloc_lem maps request one_page one_page-IsHeap

first-BlockAt : BlockAt (heap_base + 16) one_page.blocks
unfolding BlockAt
first-BlockAt = inl refl

kfree_lem_example :
    (LiveAt (heap_base + 16) one_page.blocks
      × Freed (heap_base + 16) one_page.blocks (kfree (heap_base + 16) one_page).blocks
      × IsHeap (kfree (heap_base + 16) one_page))
    ⊎ (((heap_base + 16 ≡ 0) ⊎ BlockAt (heap_base + 16) one_page.blocks)
        × NotLive (heap_base + 16) one_page.blocks
        × (kfree (heap_base + 16) one_page ≡ one_page))
kfree_lem_example = kfree_lem (heap_base + 16) one_page one_page-IsHeap (inr first-BlockAt)
