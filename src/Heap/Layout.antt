-- ===== src/Heap/Layout.antt =====
-- The layout of the heap: blocks in increasing order that do not overlap, and no two free neighbours.
use null_os.Prelude.{
  ℕ, ◌+◌, ◌%◌, ◌≤◌, ◌≡◌, refl, ◌⊎◌, inl, inr, arith, Bool, false, List, [], ◌∷◌, ◌==◌,
  if◌then◌else◌,
}
use null_os.Heap.{Block, Heap, heap_base, heap_max, magic_free, magic_used, header_size}

abbrev pub is_free : Block → Bool
is_free b = b.magic == magic_free

abbrev pub past : Block → ℕ
past b = b.address + header_size + b.size

-- A block at `from` or later, after a free block if `free_before`.
pub record Fits (free_before : Bool) (from : ℕ) (b : Block) : Type 0 where
  pub after : from ≤ b.address
  pub aligned : b.address % 4 ≡ 0
  pub whole : b.size % 4 ≡ 0
  pub known : (b.magic ≡ magic_used) ⊎ ((b.magic ≡ magic_free) × (free_before ≡ false))

unfoldable pub Laid : (free_before : Bool) (from : ℕ) → List Block → (to : ℕ) → Type 0
Laid free_before from [] to = from ≤ to
Laid free_before from (b ∷ bs) to = Fits free_before from b × Laid (is_free b) (past b) bs to

pub record IsHeap (h : Heap) : Type 0 where
  pub laid : Laid false heap_base h.blocks h.end
  pub end_aligned : h.end % 4096 ≡ 0
  pub end_in : h.end ≤ heap_max

-- The blocks that are handed out, in order.
unfoldable pub live : List Block → List Block
live [] = []
live (b ∷ bs) = if is_free b then live bs else b ∷ live bs

-- What comes before a list that is laid out.
pub Laid-from :
    (f : Bool) (from from' : ℕ) (bs : List Block) (to : ℕ)
    → from' ≤ from
    → Laid f from bs to
    → Laid f from' bs to
unfolding Laid
Laid-from f from from' [] to le h = omega arith
Laid-from f from from' (b ∷ bs) to le (fits, later) = (
  record {
    after = omega (arith, fits.after);
    aligned = fits.aligned;
    whole = fits.whole;
    known = fits.known;
  },
  later,
)

pub Laid-used :
    (f : Bool) (from : ℕ) (bs : List Block) (to : ℕ) → Laid f from bs to → Laid false from bs to
unfolding Laid
Laid-used f from [] to h = h
Laid-used f from (b ∷ bs) to (fits, later) = (
  record {
    after = fits.after;
    aligned = fits.aligned;
    whole = fits.whole;
    known = known fits.known;
  },
  later,
)
  where
    known :
        (b.magic ≡ magic_used) ⊎ ((b.magic ≡ magic_free) × (f ≡ false))
        → (b.magic ≡ magic_used) ⊎ ((b.magic ≡ magic_free) × (false ≡ false))
    known (inl u) = inl u
    known (inr (e, _)) = inr (e, refl)

pub Laid-to :
    (f : Bool) (from : ℕ) (bs : List Block) (to to' : ℕ)
    → to ≤ to'
    → Laid f from bs to
    → Laid f from bs to'
unfolding Laid
Laid-to f from [] to to' le h = omega arith
Laid-to f from (b ∷ bs) to to' le (fits, later) =
    (fits, Laid-to (is_free b) (past b) bs to to' le later)

-- The list lies before its end.
pub Laid-bounds : (f : Bool) (from : ℕ) (bs : List Block) (to : ℕ) → Laid f from bs to → from ≤ to
unfolding Laid
Laid-bounds f from [] to h = h
Laid-bounds f from (b ∷ bs) to (fits, later) =
    omega (arith, fits.after, Laid-bounds (is_free b) (past b) bs to later)

pub Laid-tail :
    (f : Bool) (from : ℕ) (b : Block) (bs : List Block) (to : ℕ)
    → Laid f from (b ∷ bs) to
    → Fits f from b × Laid (is_free b) (past b) bs to
unfolding Laid
Laid-tail f from b bs to laid = laid
