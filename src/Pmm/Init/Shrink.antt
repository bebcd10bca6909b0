-- ===== src/Pmm/Init/Shrink.antt =====
-- `pmm_init` on a machine with less than 8 MB: the pages past the last usable byte.
use native.Mathlib.Decide.{ℕ_discrete, dec_lt}
use null_os.Prelude.{ℕ, ◌+◌, ◌-◌, ◌*◌, ◌/◌, ◌≤◌, ◌<◌, ◌≡◌, ap, subst, ◌∙◌, arith}
use null_os.Pmm.{Pmm, bitmap_test, page_size, pmm_max_pages, pmm_limit_addr, shrink, u32}
use null_os.Prelude.Bytes.{sub_u32}
use null_os.Pmm.Bitmap.{test-le_one}
use null_os.Pmm.Count.{IsValid, sum_below, sum_below_ones, sum_below-le}
use null_os.Pmm.Init.Loop.{Freed}

-- After the number of managed pages is cut down: the free pages are still those of `C`, and no page
-- of `C` is left out.
pub record Managed (C : ℕ → Type 0) (p : Pmm) : Type 0 where
  pub valid : IsValid p
  pub some_page : 1 ≤ p.total
  pub free : (j : ℕ) → j < p.total → C j → bitmap_test p j ≡ 0
  pub taken : (j : ℕ) → j < p.total → ¬ C j → bitmap_test p j ≡ 1
  pub beyond : (j : ℕ) → p.total ≤ j → j < pmm_max_pages → ¬ C j

abbrev cut : ℕ → Pmm → Pmm
cut managed p = record p { used = sub_u32 p.used (pmm_max_pages - managed); total = managed }

sub_u32_cancel :
    {used count managed : ℕ}
    → used ≡ count + (pmm_max_pages - managed)
    → count ≤ managed
    → managed ≤ pmm_max_pages
    → sub_u32 used (pmm_max_pages - managed) ≡ count
sub_u32_cancel e c m = omega arith

cut-IsValid :
    (C : ℕ → Type 0) (highest managed : ℕ) (p : Pmm)
    → Freed C (highest, p)
    → highest ≡ managed * page_size
    → managed ≤ pmm_max_pages
    → IsValid (cut managed p)
unfolding bitmap_test
cut-IsValid C highest managed p f e le = record {
  words = record { size = f.valid.words.size; fits = f.valid.words.fits };
  managed = le;
  counted = sub_u32_cancel used_eq (sum_below-le managed (bitmap_test p) (test-le_one p)) le;
}
  where
    used_eq : p.used ≡ sum_below managed (bitmap_test p) + (pmm_max_pages - managed)
    used_eq =
        f.valid.counted
        ∙ ap (λ t. sum_below t (bitmap_test p)) f.all_managed
        ∙ sum_below_ones managed (pmm_max_pages - managed) (bitmap_test p)
            (λ j after lt. f.taken j (omega arith) (λ c. omega (arith, f.below j (omega arith) c)))
            pmm_max_pages (omega arith)

pub shrink-Managed : (C : ℕ → Type 0) (s : ℕ × Pmm) → Freed C s → Managed C (shrink s)
unfolding shrink bitmap_test
shrink-Managed C (highest, p) f = elim (ℕ_discrete highest 0) [
  | yes none_free ↦ subst (Managed C) {x = p} (ground arith) whole
  | no some_free ↦ elim (dec_lt highest pmm_limit_addr) [
    | no top ↦ subst (Managed C) {x = p} (ground arith) whole
    | yes lower ↦
        let e : cut managed p ≡ shrink (highest, p) = ground arith in
        subst (Managed C) e (record {
          valid = cut-IsValid C highest managed p f (omega (arith, f.whole)) (omega arith);
          some_page = omega (arith, f.whole);
          free = λ j lt c. f.free j (omega arith) c;
          taken = λ j lt c. f.taken j (omega arith) c;
          beyond = λ j ge lt c. omega (arith, f.below j lt c, f.whole);
        })
  ]
]
  where
    managed : ℕ
    managed = u32 (highest / page_size)

    whole : Managed C p
    whole = record {
      valid = f.valid;
      some_page = omega (arith, f.all_managed);
      free = λ j lt c. f.free j (omega (arith, f.all_managed)) c;
      taken = λ j lt c. f.taken j (omega (arith, f.all_managed)) c;
      beyond = λ j ge lt. absurd (omega (arith, f.all_managed));
    }
