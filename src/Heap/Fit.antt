-- ===== src/Heap/Fit.antt =====
-- The walk of `kmalloc`: the first free block that is big enough.
use native.Mathlib.Decide.{dec_le}
use null_os.Prelude.{
  ℕ, ◌+◌, ◌-◌, ◌%◌, ◌≤◌, ◌<◌, ◌≡◌, refl, sym, ap, subst, ◌∙◌, ◌⊎◌, inl, inr, arith, Bool, true,
  false, Bool-cases, List, [], ◌∷◌, ◌++◌,
}
use null_os.Heap.{
  Block, nothing_fits, found, pass, first_fit, take_block, magic_free, magic_used, header_size,
}
use null_os.Heap.Layout.{is_free, past, Fits, Laid, live, Laid-tail, Laid-used}

-- The block at `ptr` of at least `size` bytes is new among those that are handed out.
pub record Handed (size ptr : ℕ) (bs cs : List Block) : Type 0 where
  pub before : List Block
  pub block : Block
  pub after : List Block
  pub was : live bs ≡ before ++ after
  pub is : live cs ≡ before ++ (block ∷ after)
  pub here : ptr ≡ block.address + header_size
  pub enough : size ≤ block.size

-- No free block is big enough.
unfoldable pub NoneFits : ℕ → List Block → Type 0
NoneFits size [] = true ≡ true
NoneFits size (b ∷ bs) = (is_free b ≡ true → b.size < size) × NoneFits size bs

pub record Found (size ptr : ℕ) (f : Bool) (from to : ℕ) (bs cs : List Block) : Type 0 where
  pub handed : Handed size ptr bs cs
  pub laid : Laid f from cs to

module _ (size : ℕ) (b : Block) (bs : List Block) (f : Bool) (from to : ℕ) where
  taken : Block
  taken = record b { magic = magic_used; size = size }

  rest : Block
  rest = record {
    address = b.address + header_size + size;
    magic = magic_free;
    size = b.size - size - header_size;
  }

  split-Found :
      is_free b ≡ true
      → size % 4 ≡ 0
      → size + header_size + 4 ≤ b.size
      → Laid f from (b ∷ bs) to
      → Found size (b.address + header_size) f from to (b ∷ bs) (taken ∷ rest ∷ bs)
  unfolding Laid live taken rest
  split-Found free whole room (fits, later) = record {
    handed = record {
      before = [];
      block = taken;
      after = live bs;
      was = ground arith;
      is = refl;
      here = refl;
      enough = omega arith;
    };
    laid = (
      record { after = fits.after; aligned = fits.aligned; whole = whole; known = inl refl },
      (
        record {
          after = omega arith;
          aligned = omega (arith, fits.aligned);
          whole = omega (arith, fits.whole);
          known = inr (refl, refl);
        },
        subst (λ e. Laid true e bs to) {x = past b} {y = past rest} (omega (arith, room))
            (subst (λ g. Laid g (past b) bs to) free later),
      ),
    );
  }

  whole-Found :
      is_free b ≡ true
      → size ≤ b.size
      → Laid f from (b ∷ bs) to
      → Found size
          (b.address + header_size)
          f
          from
          to
          (b ∷ bs)
          (record b { magic = magic_used } ∷ bs)
  unfolding Laid live
  whole-Found free enough (fits, later) = record {
    handed = record {
      before = [];
      block = record b { magic = magic_used };
      after = live bs;
      was = ground arith;
      is = refl;
      here = refl;
      enough = enough;
    };
    laid = (
      record { after = fits.after; aligned = fits.aligned; whole = fits.whole; known = inl refl },
      Laid-used (is_free b) (past b) bs to later,
    );
  }

  take_block-Found :
      is_free b ≡ true
      → size % 4 ≡ 0
      → size ≤ b.size
      → Laid f from (b ∷ bs) to
      → Found size (b.address + header_size) f from to (b ∷ bs) (take_block size b ++ bs)
  unfolding take_block taken rest
  take_block-Found free whole enough laid = elim (dec_le (size + header_size + 4) b.size) [
    | yes room ↦
        let e : taken ∷ rest ∷ bs ≡ take_block size b ++ bs = ground arith in
        subst (Found size (b.address + header_size) f from to (b ∷ bs)) e
          (split-Found free whole room laid)
    | no tight ↦
        let e : record b { magic = magic_used } ∷ bs ≡ take_block size b ++ bs = ground arith in
        subst (Found size (b.address + header_size) f from to (b ∷ bs)) e
          (whole-Found free enough laid)
  ]

Found-cons :
    (size ptr : ℕ) (b : Block) (f : Bool) (from to : ℕ) (bs cs : List Block)
    → Fits f from b
    → Found size ptr (is_free b) (past b) to bs cs
    → Found size ptr f from to (b ∷ bs) (b ∷ cs)
unfolding Laid live
Found-cons size ptr b f from to bs cs fits g = elim (Bool-cases (is_free b)) [
  | inl free ↦ record {
    handed = record {
      before = g.handed.before;
      block = g.handed.block;
      after = g.handed.after;
      was = ground (arith, g.handed.was);
      is = ground (arith, g.handed.is);
      here = g.handed.here;
      enough = g.handed.enough;
    };
    laid = (fits, g.laid);
  }
  | inr used ↦ record {
    handed = record {
      before = b ∷ g.handed.before;
      block = g.handed.block;
      after = g.handed.after;
      was = ground (arith, g.handed.was);
      is = ground (arith, g.handed.is);
      here = g.handed.here;
      enough = g.handed.enough;
    };
    laid = (fits, g.laid);
  }
]

first_fit-take_block :
    (size : ℕ) (b : Block) (bs : List Block)
    → is_free b ≡ true
    → size ≤ b.size
    → first_fit size (b ∷ bs) ≡ found (b.address + header_size) (take_block size b ++ bs)
unfolding first_fit
first_fit-take_block size b bs free enough = ground arith

first_fit-pass :
    (size : ℕ) (b : Block) (bs : List Block) (f : Bool)
    → (b.magic ≡ magic_used) ⊎ ((b.magic ≡ magic_free) × (f ≡ false))
    → (is_free b ≡ true → b.size < size)
    → first_fit size (b ∷ bs) ≡ pass b (first_fit size bs)
unfolding first_fit
first_fit-pass size b bs f known small = elim (Bool-cases (is_free b)) [
  | inl free ↦ let short = small free in ground (arith, short)
  | inr used ↦ elim known [ inl u ↦ ground (arith, u) | inr (e, _) ↦ ground (arith, e) ]
]

first_fit-nil : (size : ℕ) → first_fit size [] ≡ nothing_fits
unfolding first_fit
first_fit-nil size = refl

pass-nothing_fits : (b : Block) → pass b nothing_fits ≡ nothing_fits
unfolding pass
pass-nothing_fits b = refl

pass-found : (b : Block) (ptr : ℕ) (cs : List Block) → pass b (found ptr cs) ≡ found ptr (b ∷ cs)
unfolding pass
pass-found b ptr cs = refl

fits_or_not :
    (size : ℕ) (b : Block)
    → ((is_free b ≡ true) × (size ≤ b.size)) ⊎ (is_free b ≡ true → b.size < size)
fits_or_not size b = elim (dec_le size b.size) [
  | no short ↦ inr (λ _. omega arith)
  | yes enough ↦ elim (Bool-cases (is_free b)) [
    | inl free ↦ inl (free, enough)
    | inr used ↦ inr (λ free. absurd (true_not_false (sym free ∙ used)))
  ]
]
  where
    true_not_false : true ≡ false → ⊥
    true_not_false e = cc (e)

-- The walk over a list that is laid out meets no broken header: it finds no block and there is none,
-- or it hands out one of at least `size` bytes and the list is laid out again.
pub first_fit_lem :
    (size : ℕ) (f : Bool) (from to : ℕ) (bs : List Block)
    → size % 4 ≡ 0
    → Laid f from bs to
    → ((first_fit size bs ≡ nothing_fits) × NoneFits size bs)
      ⊎ ((ptr : ℕ) × (cs : List Block) × (first_fit size bs ≡ found ptr cs)
          × Found size ptr f from to bs cs)
unfolding NoneFits
first_fit_lem size f from to [] whole laid = inl (first_fit-nil size, refl)
first_fit_lem size f from to (b ∷ bs) whole laid = elim (fits_or_not size b) [
  | inl (free, enough) ↦ inr (
    b.address + header_size,
    take_block size b ++ bs,
    first_fit-take_block size b bs free enough,
    take_block-Found size b bs f from to free whole enough laid,
  )
  | inr small ↦
      elim (first_fit_lem size (is_free b) (past b) to bs whole (Laid-tail f from b bs to laid).1) [
        | inl (e, none) ↦ inl (
          first_fit-pass size b bs f (Laid-tail f from b bs to laid).0.known small
              ∙ ap (pass b) e
              ∙ pass-nothing_fits b,
          (small, none),
        )
        | inr (ptr, cs, e, g) ↦ inr (
          ptr,
          b ∷ cs,
          first_fit-pass size b bs f (Laid-tail f from b bs to laid).0.known small
              ∙ ap (pass b) e
              ∙ pass-found b ptr cs,
          Found-cons size ptr b f from to bs cs (Laid-tail f from b bs to laid).0 g,
        )
      ]
]
