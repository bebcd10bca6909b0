-- ===== src/Heap/Malloc.antt =====
-- `kmalloc`: what it returns, and that two rounds are enough.
use native.Mathlib.Decide.{ℕ_discrete, dec_lt}
use null_os.Prelude.{
  ℕ, suc, ◌+◌, ◌-◌, ◌*◌, ◌/◌, ◌%◌, ◌^◌, ◌≤◌, ◌<◌, ◌≡◌, refl, sym, ap, subst, ◌∙◌, ◌≢◌, ◌⊎◌, inl,
  inr, arith, Bool, true, false, Bool-cases, some, List,
}
use null_os.Pmm.{Pmm, page_size}
use null_os.Heap.{
  Block, Heap, nothing_fits, found, first_fit, append_block, heap_expand, expand_pages, grow,
  kmalloc, kmalloc_rounds, heap_base, heap_max, magic_free, header_size,
}
use null_os.Heap.Layout.{Laid, IsHeap, live, Laid-to}
use null_os.Heap.Fit.{NoneFits, Handed, first_fit_lem}
use null_os.Heap.Grow.{Expanded, expand_pages-Expanded, append_block_lem}

-- The size that `kmalloc` looks for.
abbrev pub aligned : ℕ → ℕ
aligned size = (size + 3) / 4 * 4

module _ (map_page : (virt phys : ℕ) → Pmm → Bool × Pmm) (h : Heap) (v : IsHeap h) where
  -- A block in the list stays one by growth, which then holds a free block that is big enough.
  record Grown (size : ℕ) (u : Heap) : Type 0 where
    heap : IsHeap u
    same_live : live u.blocks ≡ live h.blocks
    has_room : NoneFits size u.blocks → ⊥

  pages : ℕ → ℕ
  pages size = ((size + header_size + page_size - 1) % 2 ^ 32) / page_size

  expanded : ℕ → Bool × Heap
  unfolding pages
  expanded size = expand_pages map_page (pages size) h

  new_space : ℕ → Block
  unfolding expanded
  new_space size = record {
    address = h.end;
    magic = magic_free;
    size = (expanded size).1.end - h.end - header_size;
  }

  grow-false :
      (size : ℕ) → (expanded size).0 ≡ false → grow map_page size h ≡ (false, (expanded size).1)
  unfolding grow heap_expand expanded pages
  grow-false size e = ground (arith, e)

  grow-true :
      (size : ℕ)
      → (expanded size).0 ≡ true
      → grow map_page size h ≡ (
        true,
        record (expanded size).1 {
          blocks = append_block (new_space size) (expanded size).1.blocks;
        },
      )
  unfolding grow heap_expand expanded pages new_space
  grow-true size e = ground (arith, e)

  after-Grown :
      (size : ℕ)
      → size ≤ heap_max - heap_base
      → size % 4 ≡ 0
      → Expanded (pages size) h (expanded size)
      → (expanded size).0 ≡ true
      → Grown size (record (expanded size).1 {
        blocks = append_block (new_space size) (expanded size).1.blocks;
      })
  unfolding pages new_space
  after-Grown size small whole g grown =
      let more =
        append_block_lem (new_space size) (expanded size).1.end refl g.end_in heap_base h.blocks
          (omega (arith, v.end_aligned)) (omega (arith, g.all_pages grown))
          (omega (arith, g.all_pages grown)) v.laid in
      record {
        heap = record {
          laid =
              subst
                (λ bs.
                  Laid false heap_base (append_block (new_space size) bs) (expanded size).1.end)
                (sym g.same_blocks) more.0;
          end_aligned = g.end_aligned;
          end_in = g.end_in;
        };
        same_live = ap (λ bs. live (append_block (new_space size) bs)) g.same_blocks ∙ more.1;
        has_room = λ none.
            let short =
              more.2 size (
                subst (λ bs. NoneFits size (append_block (new_space size) bs)) g.same_blocks
                  none) in
            omega (arith, short, g.all_pages grown);
      }

  grow-cases :
      (size : ℕ)
      → size ≤ heap_max - heap_base
      → size % 4 ≡ 0
      → ((u : Heap) × (grow map_page size h ≡ (false, u))
          × (live u.blocks ≡ live h.blocks)
          × IsHeap u)
        ⊎ ((u : Heap) × (grow map_page size h ≡ (true, u)) × Grown size u)
  unfolding expanded
  grow-cases size small whole =
      let g = expand_pages-Expanded map_page (pages size) h v.end_in v.end_aligned in
      elim (Bool-cases (expanded size).0) [
        | inl grown ↦ inr (_, grow-true size grown, after-Grown size small whole g grown)
        | inr stuck ↦ inl (
          (expanded size).1,
          grow-false size stuck,
          ap live g.same_blocks,
          record {
            laid =
                subst (λ bs. Laid false heap_base bs (expanded size).1.end) (sym g.same_blocks)
                  (Laid-to false heap_base h.blocks h.end (expanded size).1.end g.upward v.laid);
            end_aligned = g.end_aligned;
            end_in = g.end_in;
          },
        )
      ]

  module _ (fuel size : ℕ) (positive : size ≢ 0) (small : size ≤ heap_max - heap_base) where
    round-found :
        (ptr : ℕ) (bs : List Block)
        → first_fit (aligned size) h.blocks ≡ found ptr bs
        → kmalloc_rounds map_page (suc fuel) size h ≡ some (ptr, record h { blocks = bs })
    unfolding kmalloc_rounds
    round-found ptr bs e = ground (arith, e)

    round-stuck :
        (u : Heap)
        → first_fit (aligned size) h.blocks ≡ nothing_fits
        → grow map_page (aligned size) h ≡ (false, u)
        → kmalloc_rounds map_page (suc fuel) size h ≡ some (0, u)
    unfolding kmalloc_rounds
    round-stuck u e g = ground (arith, e, g)

    round-again :
        (u : Heap)
        → first_fit (aligned size) h.blocks ≡ nothing_fits
        → grow map_page (aligned size) h ≡ (true, u)
        → kmalloc_rounds map_page (suc fuel) size h ≡ kmalloc_rounds map_page fuel (aligned size) u
    unfolding kmalloc_rounds
    round-again u e g = ground (arith, e, g)

-- A block of at least `size` bytes was handed out at `ptr`, and all those handed out before stay.
pub record Allocated (size ptr : ℕ) (h u : Heap) : Type 0 where
  pub handed : Handed size ptr h.blocks u.blocks
  pub heap : IsHeap u

Handed-le :
    (size size' ptr : ℕ) (bs bs' cs : List Block)
    → size ≤ size'
    → live bs' ≡ live bs
    → Handed size' ptr bs' cs
    → Handed size ptr bs cs
Handed-le size size' ptr bs bs' cs le same d = record {
  before = d.before;
  block = d.block;
  after = d.after;
  was = sym same ∙ d.was;
  is = d.is;
  here = d.here;
  enough = omega (arith, d.enough);
}

module _ (map_page : (virt phys : ℕ) → Pmm → Bool × Pmm) where
  -- A round on a heap with a free block that is big enough hands one out, whatever fuel is left.
  round-Allocated :
      (fuel size : ℕ) (h : Heap)
      → IsHeap h
      → size ≢ 0
      → size ≤ heap_max - heap_base
      → (NoneFits (aligned size) h.blocks → ⊥)
      → (ptr : ℕ) × (u : Heap) × (kmalloc_rounds map_page (suc fuel) size h ≡ some (ptr, u))
        × Allocated (aligned size) ptr h u
  round-Allocated fuel size h v positive small room =
      elim (first_fit_lem (aligned size) false heap_base h.end h.blocks (omega arith) v.laid) [
        | inl (e, full) ↦ absurd (room full)
        | inr (ptr, bs, e, f) ↦ (
          ptr,
          record h { blocks = bs },
          round-found map_page h v fuel size positive small ptr bs e,
          record {
            handed = f.handed;
            heap = record { laid = f.laid; end_aligned = v.end_aligned; end_in = v.end_in };
          },
        )
      ]

  -- The round after a growth.
  second_round-Allocated :
      (h : Heap) (v : IsHeap h) (fuel size' : ℕ) (u : Heap)
      → Grown map_page h v size' u
      → size' ≢ 0
      → size' ≤ heap_max - heap_base
      → aligned size' ≡ size'
      → (ptr : ℕ) × (w : Heap) × (kmalloc_rounds map_page (suc fuel) size' u ≡ some (ptr, w))
        × Allocated size' ptr u w
  second_round-Allocated h v fuel size' u grown positive small same =
      subst
        (λ k.
          (ptr : ℕ) × (w : Heap) × (kmalloc_rounds map_page (suc fuel) size' u ≡ some (ptr, w))
          × Allocated k ptr u w)
        same
        (round-Allocated fuel size' u grown.heap positive small
          (λ full. grown.has_room (subst (λ k. NoneFits k u.blocks) same full)))

  -- Any fuel of two or more gives the same result.
  pub kmalloc_cases :
      (fuel size : ℕ) (h : Heap)
      → IsHeap h
      → size ≢ 0
      → size ≤ heap_max - heap_base
      → ((u : Heap) × (kmalloc_rounds map_page (suc (suc fuel)) size h ≡ some (0, u))
          × NoneFits (aligned size) h.blocks
          × (live u.blocks ≡ live h.blocks)
          × IsHeap u)
        ⊎ ((ptr : ℕ) × (u : Heap) × (kmalloc_rounds map_page (suc (suc fuel)) size h
              ≡ some (ptr, u))
            × Allocated size ptr h u)
  kmalloc_cases fuel size h v positive small =
      elim (first_fit_lem (aligned size) false heap_base h.end h.blocks (omega arith) v.laid) [
        | inr (ptr, bs, e, f) ↦ inr (
          ptr,
          record h { blocks = bs },
          round-found map_page h v (suc fuel) size positive small ptr bs e,
          record {
            handed =
                Handed-le size (aligned size) ptr h.blocks h.blocks bs (omega arith) refl f.handed;
            heap = record { laid = f.laid; end_aligned = v.end_aligned; end_in = v.end_in };
          },
        )
        | inl (e, full) ↦
            elim (grow-cases map_page h v (aligned size) (omega arith) (omega arith)) [
              | inl (u, g, same, w) ↦
                  inl (
                    u,
                    round-stuck map_page h v (suc fuel) size positive small u e g,
                    full,
                    same,
                    w,
                  )
              | inr (u, g, grown) ↦
                  let (ptr, w, r, a) =
                    second_round-Allocated h v fuel (aligned size) u grown (omega arith)
                      (omega arith) (omega arith) in
                  inr (
                    ptr,
                    w,
                    round-again map_page h v (suc fuel) size positive small u e g ∙ r,
                    record {
                      handed =
                          Handed-le size _ ptr h.blocks u.blocks w.blocks (omega arith)
                            grown.same_live a.handed;
                      heap = a.heap;
                    },
                  )
            ]
      ]

kmalloc-refused :
    (map_page : (virt phys : ℕ) → Pmm → Bool × Pmm) (size : ℕ) (h : Heap)
    → (size ≡ 0) ⊎ (heap_max - heap_base < size)
    → kmalloc map_page size h ≡ some (0, h)
unfolding kmalloc kmalloc_rounds
kmalloc-refused map_page size h (inl nothing) = ground (arith, nothing)
kmalloc-refused map_page size h (inr big) = ground (arith, big)

-- `kmalloc` on a well-formed heap always returns. For 0 bytes or more than 4 MB it returns 0 and
-- changes nothing. Of any other size it returns 0, only if no free block is big enough, with the same blocks
-- handed out; or it hands out one more, of at least `size` bytes. The heap is
-- well formed again: no two blocks overlap, and no two neighbours are free.
pub kmalloc_lem :
    (map_page : (virt phys : ℕ) → Pmm → Bool × Pmm) (size : ℕ) (h : Heap)
    → IsHeap h
    → (((size ≡ 0) ⊎ (heap_max - heap_base < size)) × (kmalloc map_page size h ≡ some (0, h)))
      ⊎ ((size ≢ 0)
          × (size ≤ heap_max - heap_base)
          × (((u : Heap) × (kmalloc map_page size h ≡ some (0, u))
                × NoneFits (aligned size) h.blocks
                × (live u.blocks ≡ live h.blocks)
                × IsHeap u)
              ⊎ ((ptr : ℕ) × (u : Heap) × (kmalloc map_page size h ≡ some (ptr, u))
                  × Allocated size ptr h u)))
unfolding kmalloc
kmalloc_lem map_page size h v = elim (ℕ_discrete size 0) [
  | yes zero_size ↦ inl (inl zero_size, kmalloc-refused map_page size h (inl zero_size))
  | no positive ↦ elim (dec_lt (heap_max - heap_base) size) [
    | yes big ↦ inl (inr big, kmalloc-refused map_page size h (inr big))
    | no small ↦ inr (
      positive,
      omega (arith, small),
      kmalloc_cases map_page 0 size h v positive (omega (arith, small)),
    )
  ]
]
