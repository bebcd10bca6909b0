-- ===== src/Heap/Kfree.antt =====
-- `kfree` of NULL and of any pointer of the heap's list.
use native.Mathlib.Decide.{ℕ_discrete}
use null_os.Prelude.{
  ℕ, ◌+◌, ◌≤◌, ◌≡◌, refl, sym, ap, subst, ◌≢◌, ◌⊎◌, inl, inr, arith, Bool, true, false, Bool-cases,
  List, [], ◌∷◌,
}
use null_os.Heap.{
  Block, Heap, absorb, merge_next, free_after, free_block, kfree, heap_base, heap_max, magic_used,
  header_size,
}
use null_os.Heap.Layout.{is_free, past, Fits, Laid, IsHeap, Laid-tail}
use null_os.Heap.Free.{
  LiveAt, NotLive, BlockAt, Freed, freed, Result, free_first-Result, absorb-Result, cons-Result,
}

-- A block that is handed out lies past the start of the list.
LiveAt-from :
    (ptr : ℕ) (f : Bool) (from : ℕ) (bs : List Block) (to : ℕ)
    → Laid f from bs to
    → LiveAt ptr bs
    → from + header_size ≤ ptr
unfolding LiveAt Laid
LiveAt-from ptr f from [] to laid at = absurd (cc (at))
LiveAt-from ptr f from (b ∷ bs) to (fits, later) (inl (used, here)) =
    omega (arith, fits.after, here)
LiveAt-from ptr f from (b ∷ bs) to (fits, later) (inr at) =
    omega (arith, fits.after, LiveAt-from ptr (is_free b) (past b) bs to later at)

free_after-absorb :
    (ptr : ℕ) (p b : Block) (bs : List Block)
    → b.address + header_size ≡ ptr
    → b.magic ≡ magic_used
    → is_free p ≡ true
    → absorb p (merge_next (freed b) bs) ≡ free_after ptr p (b ∷ bs)
unfolding free_after
free_after-absorb ptr p b bs here used free = ground (arith, here, used, free)

free_after-merge_next :
    (ptr : ℕ) (p b : Block) (bs : List Block)
    → b.address + header_size ≡ ptr
    → b.magic ≡ magic_used
    → is_free p ≡ false
    → p ∷ merge_next (freed b) bs ≡ free_after ptr p (b ∷ bs)
unfolding free_after
free_after-merge_next ptr p b bs here used apart = ground (arith, here, used, apart)

free_after-cons :
    (ptr : ℕ) (p b : Block) (bs : List Block)
    → b.address + header_size ≢ ptr
    → p ∷ free_after ptr b bs ≡ free_after ptr p (b ∷ bs)
unfolding free_after
free_after-cons ptr p b bs elsewhere = ground (arith, elsewhere)

module _ (ptr to : ℕ) (inside : to ≤ heap_max) where
  free_after-Result :
      (f : Bool) (from : ℕ) (p : Block) (bs : List Block)
      → Fits f from p
      → Laid (is_free p) (past p) bs to
      → LiveAt ptr bs
      → Result ptr f from to (p ∷ bs) (free_after ptr p bs)
  unfolding LiveAt
  free_after-Result f from p [] first laid at = absurd (cc (at))
  free_after-Result f from p (b ∷ bs) first laid (inl (used, here)) =
      let (fits, later) = Laid-tail (is_free p) (past p) b bs to laid in
      elim (Bool-cases (is_free p)) [
        | inl free ↦
            subst (Result ptr f from to (p ∷ b ∷ bs)) (free_after-absorb ptr p b bs here used free)
              (absorb-Result ptr to inside f from p b bs free used here first fits later)
        | inr apart ↦
            subst (Result ptr f from to (p ∷ b ∷ bs))
              (free_after-merge_next ptr p b bs here used apart)
              (cons-Result ptr to inside f from p (b ∷ bs) _ first (
                subst (λ g. Result ptr g (past p) to (b ∷ bs) (merge_next (freed b) bs)) (sym apart)
                  (free_first-Result ptr to inside (past p) b bs used here
                    (subst (λ g. Fits g (past p) b) apart fits) later)))
      ]
  free_after-Result f from p (b ∷ bs) first laid (inr at) =
      let (fits, later) = Laid-tail (is_free p) (past p) b bs to laid in
      let beyond = LiveAt-from ptr (is_free b) (past b) bs to later at in
      subst (Result ptr f from to (p ∷ b ∷ bs))
        (free_after-cons ptr p b bs (λ e. absurd (omega (arith, e, beyond))))
        (cons-Result ptr to inside f from p (b ∷ bs) _ first
          (free_after-Result (is_free p) (past p) b bs fits later at))

free_block-first :
    (ptr : ℕ) (b : Block) (bs : List Block)
    → b.address + header_size ≡ ptr
    → b.magic ≡ magic_used
    → merge_next (freed b) bs ≡ free_block ptr (b ∷ bs)
unfolding free_block
free_block-first ptr b bs here used = ground (arith, here, used)

free_block-later :
    (ptr : ℕ) (b : Block) (bs : List Block)
    → b.address + header_size ≢ ptr
    → free_after ptr b bs ≡ free_block ptr (b ∷ bs)
unfolding free_block
free_block-later ptr b bs elsewhere = ground (arith, elsewhere)

free_block-Result :
    (ptr to from : ℕ) (bs : List Block)
    → to ≤ heap_max
    → Laid false from bs to
    → LiveAt ptr bs
    → Result ptr false from to bs (free_block ptr bs)
unfolding LiveAt
free_block-Result ptr to from [] inside laid at = absurd (cc (at))
free_block-Result ptr to from (b ∷ bs) inside laid (inl (used, here)) =
    let (fits, later) = Laid-tail false from b bs to laid in
    subst (Result ptr false from to (b ∷ bs)) (free_block-first ptr b bs here used)
      (free_first-Result ptr to inside from b bs used here fits later)
free_block-Result ptr to from (b ∷ bs) inside laid (inr at) =
    let (fits, later) = Laid-tail false from b bs to laid in
    let beyond = LiveAt-from ptr (is_free b) (past b) bs to later at in
    subst (Result ptr false from to (b ∷ bs))
      (free_block-later ptr b bs (λ e. absurd (omega (arith, e, beyond))))
      (free_after-Result ptr to inside false from b bs fits later at)

-- A pointer at which nothing is handed out changes nothing.
free_after-NotLive :
    (ptr : ℕ) (p : Block) (bs : List Block) → NotLive ptr bs → free_after ptr p bs ≡ p ∷ bs
unfolding NotLive free_after
free_after-NotLive ptr p [] no_block = refl
free_after-NotLive ptr p (b ∷ bs) (not_here, no_block) =
    ground (arith, not_here, free_after-NotLive ptr b bs no_block)

free_block-NotLive : (ptr : ℕ) (bs : List Block) → NotLive ptr bs → free_block ptr bs ≡ bs
unfolding NotLive free_block
free_block-NotLive ptr [] no_block = refl
free_block-NotLive ptr (b ∷ bs) (not_here, no_block) =
    ground (arith, not_here, free_after-NotLive ptr b bs no_block)

live_or_not : (ptr : ℕ) (bs : List Block) → LiveAt ptr bs ⊎ NotLive ptr bs
unfolding LiveAt NotLive
live_or_not ptr [] = inr refl
live_or_not ptr (b ∷ bs) = elim (ℕ_discrete b.magic magic_used) [
  | no unused ↦ elim (live_or_not ptr bs) [
    | inl at ↦ inl (inr at)
    | inr no_block ↦ inr (λ used. absurd (unused used), no_block)
  ]
  | yes used ↦ elim (ℕ_discrete (b.address + header_size) ptr) [
    | yes here ↦ inl (inl (used, here))
    | no elsewhere ↦ elim (live_or_not ptr bs) [
      | inl at ↦ inl (inr at)
      | inr no_block ↦ inr (λ _. elsewhere, no_block)
    ]
  ]
]

-- `kfree` on a well-formed heap, of NULL or of a pointer behind a header of the list. If that block is
-- handed out, this one block is no longer, the heap is well formed again (no two free blocks are
-- neighbours), and its blocks cover as many bytes as before, so that a merge loses none; else (NULL, or
-- a double free) nothing changes.
pub kfree_lem :
    (ptr : ℕ) (h : Heap)
    → IsHeap h
    → (ptr ≡ 0) ⊎ BlockAt ptr h.blocks
    → (LiveAt ptr h.blocks × Freed ptr h.blocks (kfree ptr h).blocks × IsHeap (kfree ptr h))
      ⊎ (((ptr ≡ 0) ⊎ BlockAt ptr h.blocks) × NotLive ptr h.blocks × (kfree ptr h ≡ h))
unfolding kfree
kfree_lem ptr h v known = elim (live_or_not ptr h.blocks) [
  | inr no_block ↦ inr (
    known,
    no_block,
    ap (λ bs. record h { blocks = bs }) (free_block-NotLive ptr h.blocks no_block),
  )
  | inl at ↦
      let (d, laid) = free_block-Result ptr h.end heap_base h.blocks v.end_in v.laid at in
      inl (at, d, record { laid = laid; end_aligned = v.end_aligned; end_in = v.end_in })
]
