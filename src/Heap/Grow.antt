-- ===== src/Heap/Grow.antt =====
-- `heap_expand`, and new space at the end of the list.
use native.Mathlib.Decide.{ℕ_discrete, dec_le}
use null_os.Prelude.{
  ℕ, zero, suc, ◌+◌, ◌*◌, ◌%◌, ◌≤◌, ◌<◌, ◌≡◌, refl, sym, ap, subst, ◌⊎◌, inl, inr, arith, Bool,
  true, false, Bool-cases, List, [], ◌∷◌, if◌then◌else◌,
}
use null_os.Pmm.{Pmm, alloc_page_at, free_page, page_size}
use null_os.Heap.{Block, Heap, append_block, expand_pages, heap_max, header_size}
use null_os.Heap.Layout.{is_free, past, Fits, Laid, live}
use null_os.Heap.Fit.{NoneFits}

-- The blocks stay, and the end moves by whole pages: by all `n` of them if the expansion succeeds.
pub record Expanded (n : ℕ) (h : Heap) (r : Bool × Heap) : Type 0 where
  pub same_blocks : r.1.blocks ≡ h.blocks
  pub upward : h.end ≤ r.1.end
  pub end_in : r.1.end ≤ heap_max
  pub end_aligned : r.1.end % 4096 ≡ 0
  pub all_pages : r.0 ≡ true → r.1.end ≡ h.end + n * page_size

expand_pages-suc :
    (map_page : (virt phys : ℕ) → Pmm → Bool × Pmm) (n : ℕ) (h : Heap)
    → h.end ≤ heap_max
    → ((pmm' : Pmm) × (expand_pages map_page (suc n) h ≡ (false, record h { pmm = pmm' })))
      ⊎ ((pmm' : Pmm) × (h.end + page_size ≤ heap_max)
          × (expand_pages map_page (suc n) h
              ≡ expand_pages map_page n
                  (record { blocks = h.blocks; end = h.end + page_size; pmm = pmm' })))
unfolding expand_pages
expand_pages-suc map_page n h inside = elim (dec_le (h.end + page_size) heap_max) [
  | no past ↦ inl (h.pmm, ground arith)
  | yes room ↦ elim (ℕ_discrete phys 0) [
    | yes nothing ↦ inl (taken, ground arith)
    | no some_page ↦ elim (Bool-cases (map_page h.end phys taken).0) [
      | inr unmapped ↦ inl (free_page phys (map_page h.end phys taken).1, ground arith)
      | inl mapped ↦ inr ((map_page h.end phys taken).1, room, ground arith)
    ]
  ]
]
  where
    phys : ℕ
    phys = (alloc_page_at h.end h.pmm).0

    taken : Pmm
    taken = (alloc_page_at h.end h.pmm).1

expand_pages-zero :
    (map_page : (virt phys : ℕ) → Pmm → Bool × Pmm) (h : Heap)
    → (true, h) ≡ expand_pages map_page 0 h
unfolding expand_pages
expand_pages-zero map_page h = refl

pub expand_pages-Expanded :
    (map_page : (virt phys : ℕ) → Pmm → Bool × Pmm) (n : ℕ) (h : Heap)
    → h.end ≤ heap_max
    → h.end % 4096 ≡ 0
    → Expanded n h (expand_pages map_page n h)
expand_pages-Expanded map_page zero h inside aligned =
    subst (Expanded 0 h) (expand_pages-zero map_page h) (record {
      same_blocks = refl;
      upward = omega arith;
      end_in = inside;
      end_aligned = aligned;
      all_pages = λ _. omega arith;
    })
expand_pages-Expanded map_page (suc n) h inside aligned =
    elim (expand_pages-suc map_page n h inside) [
      | inl (pmm', e) ↦ subst (Expanded (suc n) h) (sym e) (record {
        same_blocks = refl;
        upward = omega arith;
        end_in = inside;
        end_aligned = aligned;
        all_pages = λ grown. absurd (cc (grown));
      })
      | inr (pmm', room, e) ↦
          let next : Heap = record { blocks = h.blocks; end = h.end + page_size; pmm = pmm' } in
          let g = expand_pages-Expanded map_page n next room (omega (arith, aligned)) in
          subst (Expanded (suc n) h) (sym e) (record {
            same_blocks = g.same_blocks;
            upward = omega (arith, g.upward);
            end_in = g.end_in;
            end_aligned = g.end_aligned;
            all_pages = λ grown. omega (arith, g.all_pages grown);
          })
    ]

module _ (new : Block) (to : ℕ) (free : is_free new ≡ true) (end_small : to ≤ heap_max) where
  new-Laid :
      (from : ℕ)
      → from ≤ new.address
      → past new ≤ to
      → new.address % 4 ≡ 0
      → new.size % 4 ≡ 0
      → Laid false from (new ∷ []) to
  unfolding Laid
  new-Laid from after inside aligned whole = (
    record { after = after; aligned = aligned; whole = whole; known = inr (ground arith, refl) },
    inside,
  )

  joined : Block → Block
  joined b = record b { size = b.size + (header_size + new.size) }

  append_block-joined :
      (b : Block)
      → is_free b ≡ true
      → past b ≤ new.address
      → past new ≤ to
      → append_block new (b ∷ []) ≡ joined b ∷ []
  unfolding append_block joined
  append_block-joined b joins order inside = ground arith

  append_block-apart : (b : Block) → is_free b ≡ false → append_block new (b ∷ []) ≡ b ∷ new ∷ []
  unfolding append_block
  append_block-apart b apart = ground arith

  append_last :
      (f : Bool) (from : ℕ) (b : Block)
      → new.address % 4 ≡ 0
      → new.size % 4 ≡ 0
      → past new ≤ to
      → Fits f from b
      → past b ≤ new.address
      → Laid f from (append_block new (b ∷ [])) to
        × (live (append_block new (b ∷ [])) ≡ live (b ∷ []))
  unfolding Laid live joined
  append_last f from b aligned whole inside fits order = elim (Bool-cases (is_free b)) [
    | inl joins ↦
        subst (λ cs. Laid f from cs to × (live cs ≡ live (b ∷ [])))
          (sym (append_block-joined b joins order inside))
          (
            (
              record {
                after = fits.after;
                aligned = fits.aligned;
                whole = omega (arith, fits.whole);
                known = fits.known;
              },
              omega arith,
            ),
            ground (arith, joins),
          )
    | inr apart ↦
        subst (λ cs. Laid f from cs to × (live cs ≡ live (b ∷ [])))
          (sym (append_block-apart b apart))
          (
            (
              fits,
              subst (λ g. Laid g (past b) (new ∷ []) to) (sym apart)
                  (new-Laid (past b) order inside aligned whole),
            ),
            ground arith,
          )
  ]

  append_last-NoneFits :
      (size : ℕ) (b : Block)
      → past new ≤ to
      → past b ≤ new.address
      → NoneFits size (append_block new (b ∷ []))
      → new.size < size
  unfolding NoneFits joined
  append_last-NoneFits size b inside order none = elim (Bool-cases (is_free b)) [
    | inl joins ↦
        let small = subst (NoneFits size) (append_block-joined b joins order inside) none in
        omega (arith, small.0 joins)
    | inr apart ↦
        let small = subst (NoneFits size) (append_block-apart b apart) none in small.1.0 free
  ]

  -- The list stays laid out, and the same blocks are handed out.
  append_block-Laid :
      (f : Bool) (from : ℕ) (b : Block) (bs : List Block)
      → new.address % 4 ≡ 0
      → new.size % 4 ≡ 0
      → past new ≤ to
      → Laid f from (b ∷ bs) new.address
      → Laid f from (append_block new (b ∷ bs)) to
        × (live (append_block new (b ∷ bs)) ≡ live (b ∷ bs))
  unfolding Laid append_block live
  append_block-Laid f from b [] aligned whole inside (fits, later) =
      append_last f from b aligned whole inside fits later
  append_block-Laid f from b (c ∷ bs) aligned whole inside (fits, later) =
      let rest = append_block-Laid (is_free b) (past b) c bs aligned whole inside later in
      ((fits, rest.0), ap (λ l. if is_free b then l else b ∷ l) rest.1)

  -- The last block is free and at least as large as the new one.
  append_block-NoneFits :
      (size : ℕ) (f : Bool) (from : ℕ) (b : Block) (bs : List Block)
      → past new ≤ to
      → Laid f from (b ∷ bs) new.address
      → NoneFits size (append_block new (b ∷ bs))
      → new.size < size
  unfolding Laid append_block NoneFits
  append_block-NoneFits size f from b [] inside (fits, later) none =
      append_last-NoneFits size b inside later none
  append_block-NoneFits size f from b (c ∷ bs) inside (fits, later) (_, none) =
      append_block-NoneFits size (is_free b) (past b) c bs inside later none

  alone :
      (from : ℕ)
      → new.address % 4 ≡ 0
      → new.size % 4 ≡ 0
      → past new ≤ to
      → Laid false from [] new.address
      → Laid false from (append_block new []) to
        × (live (append_block new []) ≡ [])
        × ((size : ℕ) → NoneFits size (append_block new []) → new.size < size)
  unfolding append_block live NoneFits Laid
  alone from aligned whole inside order =
      (new-Laid from order inside aligned whole, ground arith, λ size none. none.0 free)

  -- New space at the end of any list that is laid out from the start of the heap.
  pub append_block_lem :
      (from : ℕ) (bs : List Block)
      → new.address % 4 ≡ 0
      → new.size % 4 ≡ 0
      → past new ≤ to
      → Laid false from bs new.address
      → Laid false from (append_block new bs) to
        × (live (append_block new bs) ≡ live bs)
        × ((size : ℕ) → NoneFits size (append_block new bs) → new.size < size)
  unfolding live
  append_block_lem from (b ∷ bs) aligned whole inside laid =
      let both = append_block-Laid false from b bs aligned whole inside laid in
      (both.0, both.1, λ size. append_block-NoneFits size false from b bs inside laid)
  append_block_lem from [] aligned whole inside laid = alone from aligned whole inside laid
