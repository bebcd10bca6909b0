-- ===== src/Heap/Start.antt =====
-- `heap_init`.
use null_os.Prelude.{
  ℕ, ◌-◌, ◌≤◌, ◌≡◌, refl, sym, ap, subst, ◌∙◌, ◌⊎◌, inl, inr, arith, Bool, true, false, Bool-cases,
  [], ◌∷◌,
}
use null_os.Pmm.{Pmm}
use null_os.Heap.{
  Block, Heap, init, heap_expand, expand_pages, heap_base, heap_initial_size, magic_free,
  header_size,
}
use null_os.Heap.Layout.{Laid, IsHeap}
use null_os.Heap.Grow.{Expanded, expand_pages-Expanded}

Laid-nil : (from to : ℕ) → from ≤ to → Laid false from [] to
unfolding Laid
Laid-nil from to le = le

-- One free block over the space that the heap starts with.
abbrev pub initial_block : Block
initial_block = record {
  address = heap_base;
  magic = magic_free;
  size = heap_initial_size - header_size;
}

module _ (map_page : (virt phys : ℕ) → Pmm → Bool × Pmm) (h : Heap) where
  initial : Bool × Heap
  initial = expand_pages map_page 64 h

  first_block : Block
  unfolding initial
  first_block = record {
    address = heap_base;
    magic = magic_free;
    size = initial.1.end - heap_base - header_size;
  }

  init-true : initial.0 ≡ true → record initial.1 { blocks = first_block ∷ [] } ≡ init map_page h
  unfolding init heap_expand initial first_block
  init-true grown = ground (arith, grown)

  init-false : initial.0 ≡ false → initial.1 ≡ init map_page h
  unfolding init heap_expand initial
  init-false stuck = ground (arith, stuck)

  first-IsHeap :
      h.end ≡ heap_base
      → initial.0 ≡ true
      → Expanded 64 h initial
      → IsHeap (record initial.1 { blocks = first_block ∷ [] })
  unfolding Laid first_block
  first-IsHeap start grown g = record {
    laid = (
      record {
        after = omega arith;
        aligned = refl;
        whole = omega (arith, start, g.all_pages grown);
        known = inr (refl, refl);
      },
      omega (arith, start, g.all_pages grown),
    );
    end_aligned = g.end_aligned;
    end_in = g.end_in;
  }

  -- `heap_init` on a heap with no block that ends where it starts leaves a well-formed heap: with no
  -- block where the heap could not grow by 256 KB, and with one free block of 256 KB less its header
  -- where it did.
  pub init-IsHeap :
      h.blocks ≡ []
      → h.end ≡ heap_base
      → IsHeap (init map_page h)
        × ((((heap_expand map_page heap_initial_size h).0 ≡ false)
              × ((init map_page h).blocks ≡ []))
            ⊎ (((heap_expand map_page heap_initial_size h).0 ≡ true)
                × ((init map_page h).blocks ≡ initial_block ∷ [])))
  unfolding initial first_block heap_expand
  init-IsHeap empty start =
      let g = expand_pages-Expanded map_page 64 h (omega (arith, start)) (omega (arith, start)) in
      elim (Bool-cases initial.0) [
        | inl grown ↦
            subst
              (λ (u : Heap).
                IsHeap u
                × (((initial.0 ≡ false) × (u.blocks ≡ []))
                    ⊎ ((initial.0 ≡ true) × (u.blocks ≡ initial_block ∷ []))))
              (init-true grown)
              (
                first-IsHeap start grown g,
                inr (
                  grown,
                  ap (λ n. (record { address = heap_base; magic = magic_free; size = n }) ∷ [])
                      {x = initial.1.end - heap_base - header_size}
                      {y = heap_initial_size - header_size}
                      (omega (arith, start, g.all_pages grown)),
                ),
              )
        | inr stuck ↦
            subst
              (λ (u : Heap).
                IsHeap u
                × (((initial.0 ≡ false) × (u.blocks ≡ []))
                    ⊎ ((initial.0 ≡ true) × (u.blocks ≡ initial_block ∷ []))))
              (init-false stuck) (unchanged g, inl (stuck, g.same_blocks ∙ empty))
      ]
    where
      unchanged : Expanded 64 h initial → IsHeap initial.1
      unchanged g = record {
        laid =
            subst (λ bs. Laid false heap_base bs initial.1.end) (sym (g.same_blocks ∙ empty))
              (Laid-nil heap_base initial.1.end (omega (arith, start, g.upward)));
        end_aligned = g.end_aligned;
        end_in = g.end_in;
      }
