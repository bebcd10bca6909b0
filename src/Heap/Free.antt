-- ===== src/Heap/Free.antt =====
-- `kfree`: a block goes back, merged with its free neighbours.
use null_os.Prelude.{
  ℕ, ◌+◌, ◌%◌, ◌^◌, ◌≤◌, ◌≡◌, refl, sym, subst, ◌≢◌, ◌⊎◌, inl, inr, arith, Bool, true, false,
  Bool-cases, List, [], ◌∷◌, ◌++◌,
}
use null_os.Heap.{Block, absorb, merge_next, heap_max, magic_free, magic_used, header_size}
use null_os.Heap.Layout.{is_free, past, Fits, Laid, live, Laid-from, Laid-bounds}

-- The pointer is that of a block that is handed out.
unfoldable pub LiveAt : ℕ → List Block → Type 0
LiveAt ptr [] = true ≡ false
LiveAt ptr (b ∷ bs) = ((b.magic ≡ magic_used) × (b.address + header_size ≡ ptr)) ⊎ LiveAt ptr bs

unfoldable pub NotLive : ℕ → List Block → Type 0
NotLive ptr [] = true ≡ true
NotLive ptr (b ∷ bs) = (b.magic ≡ magic_used → b.address + header_size ≢ ptr) × NotLive ptr bs

-- The header before the pointer is one of the list.
unfoldable pub BlockAt : ℕ → List Block → Type 0
BlockAt ptr [] = true ≡ false
BlockAt ptr (b ∷ bs) = (b.address + header_size ≡ ptr) ⊎ BlockAt ptr bs

-- The bytes that the blocks of a list cover, headers and all.
unfoldable pub covered : List Block → ℕ
covered [] = 0
covered (b ∷ bs) = header_size + b.size + covered bs

-- The block at `ptr` is no longer among those that are handed out, and no byte of the list is lost.
pub record Freed (ptr : ℕ) (bs cs : List Block) : Type 0 where
  pub before : List Block
  pub block : Block
  pub after : List Block
  pub was : live bs ≡ before ++ (block ∷ after)
  pub is : live cs ≡ before ++ after
  pub here : block.address + header_size ≡ ptr
  pub same_bytes : covered cs ≡ covered bs

abbrev pub freed : Block → Block
freed b = record b { magic = magic_free }

-- A freed block merged with what follows: a free block of some size, and the list after it.
record Merged (b : Block) (bs : List Block) (to : ℕ) : Type 0 where
  size : ℕ
  rest : List Block
  shape : merge_next (freed b) bs ≡ record (freed b) { size = size } ∷ rest
  whole : size % 4 ≡ 0
  laid : Laid true (b.address + header_size + size) rest to
  same_live : live rest ≡ live bs
  same_bytes : size + covered rest ≡ b.size + covered bs

merge_next-free :
    (b c : Block) (bs : List Block)
    → is_free c ≡ true
    → past c ≤ heap_max
    → past b ≤ c.address
    → merge_next (freed b) (c ∷ bs)
      ≡ record (freed b) { size = b.size + (header_size + c.size) } ∷ bs
unfolding merge_next absorb
merge_next-free b c bs free inside order = ground arith

merge_next-used :
    (b c : Block) (bs : List Block)
    → is_free c ≡ false
    → merge_next (freed b) (c ∷ bs) ≡ freed b ∷ c ∷ bs
unfolding merge_next
merge_next-used b c bs used = ground arith

merge_next-Merged :
    (b : Block) (bs : List Block) (to : ℕ)
    → to ≤ heap_max
    → b.size % 4 ≡ 0
    → Laid false (past b) bs to
    → Merged b bs to
unfolding Laid live merge_next covered
merge_next-Merged b [] to inside whole laid = record {
  size = b.size;
  rest = [];
  shape = refl;
  whole = whole;
  laid = laid;
  same_live = refl;
  same_bytes = refl;
}
merge_next-Merged b (c ∷ bs) to inside whole (fits, later) = elim (Bool-cases (is_free c)) [
  | inl free ↦ record {
    size = b.size + (header_size + c.size);
    rest = bs;
    shape =
        merge_next-free b c bs free (omega (arith, Laid-bounds (is_free c) (past c) bs to later))
          fits.after;
    whole = omega (arith, fits.whole);
    laid =
        Laid-from true (past c) _ bs to (omega (arith, fits.after))
          (subst (λ g. Laid g (past c) bs to) free later);
    same_live = ground (arith, free);
    same_bytes = omega arith;
  }
  | inr used ↦ record {
    size = b.size;
    rest = c ∷ bs;
    shape = merge_next-used b c bs used;
    whole = whole;
    laid = (
      record {
        after = fits.after;
        aligned = fits.aligned;
        whole = fits.whole;
        known = inl (used_magic used fits.known);
      },
      later,
    );
    same_live = refl;
    same_bytes = refl;
  }
]
  where
    used_magic :
        {P : Type 0}
        → is_free c ≡ false
        → (c.magic ≡ magic_used) ⊎ ((c.magic ≡ magic_free) × P)
        → c.magic ≡ magic_used
    used_magic used (inl u) = u
    used_magic used (inr (e, _)) = absurd (ground (arith, e))

used-is_free : (b : Block) → b.magic ≡ magic_used → is_free b ≡ false
used-is_free b used = ground (arith, used)

-- The result of freeing the block at `ptr`, laid out as before.
abbrev pub Result : ℕ → Bool → (from to : ℕ) → (bs cs : List Block) → Type 0
Result ptr f from to bs cs = Freed ptr bs cs × Laid f from cs to

module _ (ptr to : ℕ) (inside : to ≤ heap_max) where
  -- The first block is the one, and no free block stands before it.
  pub free_first-Result :
      (from : ℕ) (b : Block) (bs : List Block)
      → b.magic ≡ magic_used
      → b.address + header_size ≡ ptr
      → Fits false from b
      → Laid (is_free b) (past b) bs to
      → Result ptr false from to (b ∷ bs) (merge_next (freed b) bs)
  unfolding Laid live covered
  free_first-Result from b bs used here fits later =
      let m =
        merge_next-Merged b bs to inside fits.whole
          (subst (λ g. Laid g (past b) bs to) (used-is_free b used) later) in
      subst (Result ptr false from to (b ∷ bs)) (sym m.shape) (
        record {
          before = [];
          block = b;
          after = live bs;
          was = ground (arith, used);
          is = m.same_live;
          here = here;
          same_bytes = omega (arith, m.same_bytes);
        },
        (
          record {
            after = fits.after;
            aligned = fits.aligned;
            whole = m.whole;
            known = inr (refl, refl);
          },
          m.laid,
        ),
      )

  absorbed : Block → (s : ℕ) → Block
  absorbed p s = record p { size = (p.size + (header_size + s)) % 2 ^ 32 }

  -- The block stands after a free block `p`, which takes it in.
  pub absorb-Result :
      (f : Bool) (from : ℕ) (p b : Block) (bs : List Block)
      → is_free p ≡ true
      → b.magic ≡ magic_used
      → b.address + header_size ≡ ptr
      → Fits f from p
      → Fits (is_free p) (past p) b
      → Laid (is_free b) (past b) bs to
      → Result ptr f from to (p ∷ b ∷ bs) (absorb p (merge_next (freed b) bs))
  unfolding Laid live covered absorb absorbed
  absorb-Result f from p b bs free used here first fits later =
      let m =
        merge_next-Merged b bs to inside fits.whole
          (subst (λ g. Laid g (past b) bs to) (used-is_free b used) later) in
      let bounds = Laid-bounds true (b.address + header_size + m.size) m.rest to m.laid in
      subst (λ cs. Result ptr f from to (p ∷ b ∷ bs) (absorb p cs)) (sym m.shape)
        (
          record {
            before = [];
            block = b;
            after = live bs;
            was = ground (arith, free, used);
            is = ground (arith, free, m.same_live);
            here = here;
            same_bytes = omega (arith, m.same_bytes, bounds, fits.after);
          },
          (
            record {
              after = first.after;
              aligned = first.aligned;
              whole = omega (arith, first.whole, m.whole, bounds, fits.after);
              known = first.known;
            },
            subst (λ g. Laid g (past (absorbed p m.size)) m.rest to) (sym free)
                (Laid-from true (b.address + header_size + m.size) _ m.rest to
                  (omega (arith, bounds, fits.after)) m.laid),
          ),
        )

  -- A block that stays in front.
  pub cons-Result :
      (f : Bool) (from : ℕ) (p : Block) (bs cs : List Block)
      → Fits f from p
      → Result ptr (is_free p) (past p) to bs cs
      → Result ptr f from to (p ∷ bs) (p ∷ cs)
  unfolding Laid live covered
  cons-Result f from p bs cs fits (d, laid) = elim (Bool-cases (is_free p)) [
    | inl free ↦ (
      record {
        before = d.before;
        block = d.block;
        after = d.after;
        was = ground (arith, d.was, free);
        is = ground (arith, d.is, free);
        here = d.here;
        same_bytes = omega (arith, d.same_bytes);
      },
      (fits, laid),
    )
    | inr used ↦ (
      record {
        before = p ∷ d.before;
        block = d.block;
        after = d.after;
        was = ground (arith, d.was, used);
        is = ground (arith, d.is, used);
        here = d.here;
        same_bytes = omega (arith, d.same_bytes);
      },
      (fits, laid),
    )
  ]
