-- ===== src/Pmm/Bitmap.antt =====
-- The bit operations of pmm.c on the bitmap: what a test reads after a set or a clear.
use null_os.Prelude.{
  ℕ, zero, suc, ◌+◌, ◌-◌, ◌*◌, ◌/◌, ◌%◌, ◌^◌, ◌≤◌, ◌<◌, ◌≡◌, ap, ap₂, ◌∙◌, ◌≢◌, arith, List, length,
  get_or, set, length-set, get_or-set_self, get_or-set_ne, get_or-replicate, length-replicate,
  replicate,
}
use native.Mathlib.Decide.{ℕ_discrete}
use null_os.Prelude.Bits.{
  bit, clear_mask, bit-bit_or_self, bit-bit_or_ne, bit_or-lt, bit-bit_and_self, bit-bit_and_ne,
  bit_and-le, bit-ones,
}
use null_os.Pmm.{
  Pmm, bitmap_set, bitmap_clear, bitmap_test, pmm_bitmap_size, pmm_max_pages, all_used,
}

-- 64 words of 32 bits.
pub record HasWords (p : Pmm) : Type 0 where
  pub size : length p.bitmap ≡ pmm_bitmap_size
  pub fits : (i : ℕ) → get_or p.bitmap i 0 < 2 ^ 32

set-fits :
    (xs : List ℕ) (i v : ℕ)
    → ((j : ℕ) → get_or xs j 0 < 2 ^ 32)
    → v < 2 ^ 32
    → i < length xs
    → (j : ℕ) → get_or (set xs i v) j 0 < 2 ^ 32
set-fits xs i v h hv hi j = elim (ℕ_discrete i j) [
  | yes e ↦ rw (← e, get_or-set_self xs i v 0 hi) hv
  | no ne ↦ rw (get_or-set_ne xs i j v 0 ne) (h j)
]

module _ (page : ℕ) {p : Pmm} (inside : page < pmm_max_pages) (w : HasWords p) where
  pub bitmap_set-HasWords : HasWords (bitmap_set page p)
  unfolding bitmap_set
  bitmap_set-HasWords = record {
    size = length-set p.bitmap _ _ ∙ w.size;
    fits =
        set-fits p.bitmap (page / 32) _ w.fits
          (bit_or-lt 32 (get_or p.bitmap (page / 32) 0) (page % 32) (w.fits (page / 32))
            (omega arith))
          (omega (arith, w.size));
  }

  pub bitmap_clear-HasWords : HasWords (bitmap_clear page p)
  unfolding bitmap_clear
  bitmap_clear-HasWords = record {
    size = length-set p.bitmap _ _ ∙ w.size;
    fits =
        set-fits p.bitmap (page / 32) _ w.fits
          (omega (
            arith,
            bit_and-le (get_or p.bitmap (page / 32) 0) (clear_mask 32 (page % 32)),
            w.fits (page / 32),
          ))
          (omega (arith, w.size));
  }

  pub test-set_self : bitmap_test (bitmap_set page p) page ≡ 1
  unfolding bitmap_set bitmap_test
  test-set_self =
      rw (get_or-set_self p.bitmap (page / 32) _ 0 (omega (arith, w.size)))
        (bit-bit_or_self (get_or p.bitmap (page / 32) 0) (page % 32))

  pub test-set_ne : (j : ℕ) → j ≢ page → bitmap_test (bitmap_set page p) j ≡ bitmap_test p j
  unfolding bitmap_set bitmap_test
  test-set_ne j ne = elim (ℕ_discrete (page / 32) (j / 32)) [
    | yes e ↦
        rw (← e, get_or-set_self p.bitmap (page / 32) _ 0 (omega (arith, w.size)))
          (bit-bit_or_ne (get_or p.bitmap (page / 32) 0) (page % 32) (j % 32) (omega arith))
    | no other ↦ ap (λ t. bit t (j % 32)) (get_or-set_ne p.bitmap (page / 32) (j / 32) _ 0 other)
  ]

  pub test-clear_self : bitmap_test (bitmap_clear page p) page ≡ 0
  unfolding bitmap_clear bitmap_test
  test-clear_self =
      rw (get_or-set_self p.bitmap (page / 32) _ 0 (omega (arith, w.size)))
        (bit-bit_and_self 32 (get_or p.bitmap (page / 32) 0) (page % 32) (omega arith))

  pub test-clear_ne : (j : ℕ) → j ≢ page → bitmap_test (bitmap_clear page p) j ≡ bitmap_test p j
  unfolding bitmap_clear bitmap_test
  test-clear_ne j ne = elim (ℕ_discrete (page / 32) (j / 32)) [
    | yes e ↦
        rw (← e, get_or-set_self p.bitmap (page / 32) _ 0 (omega (arith, w.size)))
          (bit-bit_and_ne 32 (get_or p.bitmap (page / 32) 0) (page % 32) (j % 32) (omega arith)
            (w.fits (page / 32)) (omega arith))
    | no other ↦ ap (λ t. bit t (j % 32)) (get_or-set_ne p.bitmap (page / 32) (j / 32) _ 0 other)
  ]

-- A test reads 0 or 1.
pub test-le_one : (p : Pmm) (j : ℕ) → bitmap_test p j ≤ 1
unfolding bitmap_test
test-le_one p j = omega arith

-- In a word of all ones every page is used.
pub test_full_word :
    (p : Pmm) (i b : ℕ) → get_or p.bitmap i 0 ≡ 2 ^ 32 - 1 → b < 32 → bitmap_test p (i * 32 + b) ≡ 1
unfolding bitmap_test
test_full_word p i b e h =
    ap₂ (λ x y. bit (get_or p.bitmap x 0) y) {x = (i * 32 + b) / 32} {y = i} {u = (i * 32 + b) % 32}
      {v = b} (omega arith) (omega arith)
    ∙ ap (λ t. bit t b) e
    ∙ bit-ones 32 b h

pub replicate-fits : (n i v bound : ℕ) → v < bound → 0 < bound → get_or (replicate n v) i 0 < bound
replicate-fits zero i v bound h k = k
replicate-fits (suc n) zero v bound h k = h
replicate-fits (suc n) (suc i) v bound h k = replicate-fits n i v bound h k

abbrev ones : ℕ
ones = 0xffff_ffff

pub all_used-HasWords : HasWords all_used
all_used-HasWords = record {
  size = length-replicate 64 ones;
  fits = λ i. replicate-fits 64 i 0xffff_ffff (2 ^ 32) (omega arith) (omega arith);
}

pub test-all_used : (j : ℕ) → j < pmm_max_pages → bitmap_test all_used j ≡ 1
unfolding bitmap_test
test-all_used j h =
    rw (get_or-replicate 64 (j / 32) (2 ^ 32 - 1) 0 (omega arith))
      (bit-ones 32 (j % 32) (omega arith))
