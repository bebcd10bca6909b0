-- ===== src/Pmm/Count.antt =====
-- `pmm_used` counts the set bits of the managed pages: the invariant of pmm.c, and what taking and
-- dropping one page do to it.
use native.Mathlib.Decide.{ℕ_discrete}
use null_os.Prelude.{ℕ, zero, suc, ◌+◌, ◌≤◌, ◌<◌, ◌≡◌, refl, sym, ap, ◌≢◌, arith}
use null_os.Pmm.{
  Pmm, bitmap_test, bitmap_set, bitmap_clear, take_page, drop_page, pmm_max_pages, free_pages,
  total_pages,
}
use null_os.Pmm.Bitmap.{
  HasWords, bitmap_set-HasWords, bitmap_clear-HasWords, test-set_self, test-set_ne, test-clear_self,
  test-clear_ne, test-le_one,
}

-- The sum of `f` below `n`.
abbrev pub sum_below : ℕ → (ℕ → ℕ) → ℕ
sum_below zero f = 0
sum_below (suc n) f = sum_below n f + f n

pub sum_below-eq :
    (n : ℕ) (f g : ℕ → ℕ) → ((j : ℕ) → j < n → f j ≡ g j) → sum_below n f ≡ sum_below n g
sum_below-eq zero f g h = refl
sum_below-eq (suc n) f g h =
    omega (arith, sum_below-eq n f g (λ j lt. h j (omega arith)), h n (omega arith))

pub sum_below_bump :
    (n k : ℕ) (f g : ℕ → ℕ)
    → ((j : ℕ) → j ≢ k → f j ≡ g j)
    → g k ≡ f k + 1
    → k < n
    → sum_below n g ≡ sum_below n f + 1
sum_below_bump zero k f g h e lt = absurd (omega arith)
sum_below_bump (suc n) k f g h e lt = elim (ℕ_discrete k n) [
  | yes at ↦ omega (arith, sum_below-eq n f g (λ j below. h j (omega arith)), ap f at, ap g at)
  | no other ↦
      omega (arith, sum_below_bump n k f g h e (omega arith), h n (λ e'. other (omega arith)))
]

pub sum_below-le : (n : ℕ) (f : ℕ → ℕ) → ((j : ℕ) → f j ≤ 1) → sum_below n f ≤ n
sum_below-le zero f h = omega arith
sum_below-le (suc n) f h = omega (arith, sum_below-le n f h, h n)

pub sum_below-pos : (n k : ℕ) (f : ℕ → ℕ) → k < n → f k ≡ 1 → 1 ≤ sum_below n f
sum_below-pos zero k f lt e = absurd (omega arith)
sum_below-pos (suc n) k f lt e = elim (ℕ_discrete k n) [
  | yes at ↦ omega (arith, ap f at)
  | no other ↦ omega (arith, sum_below-pos n k f (omega arith) e)
]

-- The pages from `m` to `n` all count, one each.
pub sum_below_ones :
    (m d : ℕ) (f : ℕ → ℕ)
    → ((j : ℕ) → m ≤ j → j < m + d → f j ≡ 1)
    → (n : ℕ) → n ≡ m + d
    → sum_below n f ≡ sum_below m f + d
sum_below_ones m zero f h n e = omega (arith, ap (λ t. sum_below t f) {x = n} {y = m} (omega arith))
sum_below_ones m (suc d) f h n e = omega (
  arith,
  ap (λ t. sum_below t f) {x = n} {y = suc (m + d)} (omega arith),
  h (m + d) (omega arith) (omega arith),
  sum_below_ones m d f (λ j le lt. h j le (omega arith)) (m + d) refl,
)

abbrev pub count_used : Pmm → ℕ
count_used p = sum_below p.total (bitmap_test p)

pub record IsValid (p : Pmm) : Type 0 where
  pub words : HasWords p
  pub managed : p.total ≤ pmm_max_pages
  pub counted : p.used ≡ count_used p

-- Free and used pages make up the total.
pub free_pages-add-used : {p : Pmm} → IsValid p → free_pages p + p.used ≡ total_pages p
unfolding free_pages total_pages
free_pages-add-used {p} v =
    omega (arith, v.managed, v.counted, sum_below-le p.total (bitmap_test p) (test-le_one p))

-- The tests of `q` are those of `p`, but for `page`, which reads `b`.
pub record Flips (page b : ℕ) (p q : Pmm) : Type 0 where
  pub at_page : bitmap_test q page ≡ b
  pub elsewhere : (j : ℕ) → j ≢ page → bitmap_test q j ≡ bitmap_test p j
  pub same_total : q.total ≡ p.total

module _ (page : ℕ) {p : Pmm} (v : IsValid p) (inside : page < p.total) where
  in_bitmap : page < pmm_max_pages
  in_bitmap = omega (arith, v.managed)

  pub take_page-Flips : Flips page 1 p (take_page page p)
  unfolding take_page bitmap_test bitmap_set
  take_page-Flips = record {
    at_page = test-set_self page in_bitmap v.words;
    elsewhere = test-set_ne page in_bitmap v.words;
    same_total = refl;
  }

  pub drop_page-Flips : Flips page 0 p (drop_page page p)
  unfolding drop_page bitmap_test bitmap_clear
  drop_page-Flips = record {
    at_page = test-clear_self page in_bitmap v.words;
    elsewhere = test-clear_ne page in_bitmap v.words;
    same_total = refl;
  }

  take_page-HasWords : HasWords (take_page page p)
  unfolding take_page
  take_page-HasWords =
      let w = bitmap_set-HasWords page in_bitmap v.words in record { size = w.size; fits = w.fits }

  drop_page-HasWords : HasWords (drop_page page p)
  unfolding drop_page
  drop_page-HasWords =
      let w = bitmap_clear-HasWords page in_bitmap v.words in
      record { size = w.size; fits = w.fits }

  count_take : bitmap_test p page ≡ 0 → count_used (take_page page p) ≡ count_used p + 1
  unfolding take_page bitmap_set
  count_take free =
      (sum_below_bump p.total page (bitmap_test p) (bitmap_test (take_page page p))
        (λ j ne. sym (take_page-Flips.elsewhere j ne))
        (omega (arith, take_page-Flips.at_page, free)) inside)

  count_drop : bitmap_test p page ≢ 0 → count_used p ≡ count_used (drop_page page p) + 1
  unfolding drop_page bitmap_clear
  count_drop taken =
      (sum_below_bump p.total page (bitmap_test (drop_page page p)) (bitmap_test p)
        drop_page-Flips.elsewhere
        (omega (arith, drop_page-Flips.at_page, taken, test-le_one p page)) inside)

  used_bound : p.used ≤ pmm_max_pages
  used_bound =
      omega (arith, v.counted, v.managed, sum_below-le p.total (bitmap_test p) (test-le_one p))

  pub used_take : (take_page page p).used ≡ p.used + 1
  unfolding take_page bitmap_set
  used_take = omega (arith, used_bound)

  pub used_drop : bitmap_test p page ≢ 0 → (drop_page page p).used + 1 ≡ p.used
  unfolding drop_page bitmap_clear
  used_drop taken = omega (arith, used_bound, v.counted, count_drop taken)

  pub take_page-IsValid : bitmap_test p page ≡ 0 → IsValid (take_page page p)
  take_page-IsValid free = record {
    words = take_page-HasWords;
    managed = omega (arith, take_page-Flips.same_total, v.managed);
    counted = omega (arith, used_take, count_take free, v.counted);
  }

  pub drop_page-IsValid : bitmap_test p page ≢ 0 → IsValid (drop_page page p)
  drop_page-IsValid taken = record {
    words = drop_page-HasWords;
    managed = omega (arith, drop_page-Flips.same_total, v.managed);
    counted = omega (arith, used_drop taken, count_drop taken, v.counted);
  }
