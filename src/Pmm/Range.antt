-- ===== src/Pmm/Range.antt =====
-- `pmm_mark_used` and `pmm_mark_free`: exactly the managed pages of the range change.
use native.Mathlib.Decide.{ℕ_discrete, dec_lt}
use null_os.Prelude.{
  ℕ, zero, suc, ◌+◌, ◌-◌, ◌/◌, ◌%◌, ◌^◌, ◌≤◌, ◌<◌, ◌≡◌, refl, ap, subst, ◌∙◌, ◌⊎◌, inl, inr, arith,
  ltb, ◌==◌, if◌then◌else◌,
}
use null_os.Pmm.{
  Pmm, bitmap_test, take_page, drop_page, mark_used_from, mark_used, mark_free_from, mark_free,
  pages_of, page_size,
}
use null_os.Pmm.Bitmap.{test-le_one}
use null_os.Pmm.Count.{
  IsValid, Flips, take_page-Flips, take_page-IsValid, drop_page-Flips, drop_page-IsValid,
}

-- In `q` the managed pages from `lo` up to `hi` read `b`, and all others as in `p`.
pub record Marked (lo hi b : ℕ) (p q : Pmm) : Type 0 where
  pub covered : (j : ℕ) → lo ≤ j → j < hi → j < p.total → bitmap_test q j ≡ b
  pub outside : (j : ℕ) → (j < lo) ⊎ (hi ≤ j) ⊎ (p.total ≤ j) → bitmap_test q j ≡ bitmap_test p j
  pub same_total : q.total ≡ p.total
  pub valid : IsValid q

module _ (b lo : ℕ) where
  Marked-none : {p : Pmm} (hi : ℕ) → IsValid p → (hi ≤ lo) ⊎ (p.total ≤ lo) → Marked lo hi b p p
  Marked-none {p} hi v h = record {
    covered = λ j le lt inside. absurd (omega arith);
    outside = λ j _. refl;
    same_total = refl;
    valid = v;
  }

  -- One page, then the rest of the range.
  Marked-cons :
      {p q r : Pmm} (hi : ℕ)
      → lo < hi
      → lo < p.total
      → Flips lo b p q
      → Marked (suc lo) hi b q r
      → Marked lo hi b p r
  Marked-cons {p} {q} {r} hi room inside f m = record {
    covered = λ j le lt managed. elim (ℕ_discrete j lo) [
      | yes at ↦ m.outside j (inl (omega arith)) ∙ ap (bitmap_test q) at ∙ f.at_page
      | no other ↦ m.covered j (omega arith) lt (omega (arith, f.same_total))
    ];
    outside = λ j away.
        m.outside j (elim away [
          | inl below ↦ inl (omega arith)
          | inr (inl past) ↦ inr (inl past)
          | inr (inr past) ↦ inr (inr (omega (arith, f.same_total)))
        ])
        ∙ f.elsewhere j (elim away [
          | inl below ↦ omega arith
          | inr (inl past) ↦ omega arith
          | inr (inr past) ↦ omega arith
        ]);
    same_total = m.same_total ∙ f.same_total;
    valid = m.valid;
  }

  -- A page that reads `b` already needs no change.
  Flips-none : {p : Pmm} → bitmap_test p lo ≡ b → Flips lo b p p
  Flips-none e = record { at_page = e; elsewhere = λ j _. refl; same_total = refl }

mark_used_from_step :
    (rounds page i lo : ℕ) (p : Pmm)
    → (page + i) % 2 ^ 32 ≡ lo
    → mark_used_from (suc rounds) page i p ≡ (
        if ltb lo p.total
        then mark_used_from rounds page
            (i + 1)
            (if bitmap_test p lo == 0 then take_page lo p else p)
        else p)
unfolding mark_used_from
mark_used_from_step rounds page i lo p e = rw e

mark_used_from-Marked :
    (rounds page i lo : ℕ) (p : Pmm)
    → IsValid p
    → lo ≡ page + i
    → page + i + rounds < 2 ^ 32
    → Marked lo (lo + rounds) 1 p (mark_used_from rounds page i p)
unfolding mark_used_from
mark_used_from-Marked zero page i lo p v e fits = Marked-none 1 lo (lo + 0) v (inl (omega arith))
mark_used_from-Marked (suc rounds) page i lo p v e fits = elim (dec_lt lo p.total) [
  | no past ↦
      let stop : p ≡ mark_used_from (suc rounds) page i p =
        ground (arith, mark_used_from_step rounds page i lo p (omega arith)) in
      subst (Marked lo (lo + suc rounds) 1 p) stop
        (Marked-none 1 lo (lo + suc rounds) v (inr (omega arith)))
  | yes inside ↦ elim (ℕ_discrete (bitmap_test p lo) 0) [
    | yes free ↦
        let next : mark_used_from rounds page (i + 1) (take_page lo p)
            ≡ mark_used_from (suc rounds) page i p =
          ground (arith, mark_used_from_step rounds page i lo p (omega arith)) in
        subst (Marked lo (lo + suc rounds) 1 p) next (
          Marked-cons 1 lo (lo + suc rounds) (omega arith) inside (take_page-Flips lo v inside) (
            subst
              (λ hi.
                Marked (suc lo) hi 1 (take_page lo p)
                  (mark_used_from rounds page (i + 1) (take_page lo p)))
              {x = suc lo + rounds} {y = lo + suc rounds} (omega arith)
              (mark_used_from-Marked rounds page (i + 1) (suc lo) (take_page lo p)
                (take_page-IsValid lo v inside free) (omega arith) (omega arith))))
    | no taken ↦
        let next : mark_used_from rounds page (i + 1) p ≡ mark_used_from (suc rounds) page i p =
          ground (arith, mark_used_from_step rounds page i lo p (omega arith)) in
        subst (Marked lo (lo + suc rounds) 1 p) next (
          Marked-cons 1 lo (lo + suc rounds) (omega arith) inside
            (Flips-none 1 lo (omega (arith, taken, test-le_one p lo)))
            (subst (λ hi. Marked (suc lo) hi 1 p (mark_used_from rounds page (i + 1) p))
              {x = suc lo + rounds} {y = lo + suc rounds} (omega arith)
              (mark_used_from-Marked rounds page (i + 1) (suc lo) p v (omega arith) (omega arith))))
  ]
]

mark_free_from_step :
    (rounds page i lo : ℕ) (p : Pmm)
    → (page + i) % 2 ^ 32 ≡ lo
    → mark_free_from (suc rounds) page i p ≡ (
        if ltb lo p.total
        then mark_free_from rounds page
            (i + 1)
            (if bitmap_test p lo == 0 then p else drop_page lo p)
        else p)
unfolding mark_free_from
mark_free_from_step rounds page i lo p e = rw e

mark_free_from-Marked :
    (rounds page i lo : ℕ) (p : Pmm)
    → IsValid p
    → lo ≡ page + i
    → page + i + rounds < 2 ^ 32
    → Marked lo (lo + rounds) 0 p (mark_free_from rounds page i p)
unfolding mark_free_from
mark_free_from-Marked zero page i lo p v e fits = Marked-none 0 lo (lo + 0) v (inl (omega arith))
mark_free_from-Marked (suc rounds) page i lo p v e fits = elim (dec_lt lo p.total) [
  | no past ↦
      let stop : p ≡ mark_free_from (suc rounds) page i p =
        ground (arith, mark_free_from_step rounds page i lo p (omega arith)) in
      subst (Marked lo (lo + suc rounds) 0 p) stop
        (Marked-none 0 lo (lo + suc rounds) v (inr (omega arith)))
  | yes inside ↦ elim (ℕ_discrete (bitmap_test p lo) 0) [
    | yes free ↦
        let next : mark_free_from rounds page (i + 1) p ≡ mark_free_from (suc rounds) page i p =
          ground (arith, mark_free_from_step rounds page i lo p (omega arith)) in
        subst (Marked lo (lo + suc rounds) 0 p) next (
          Marked-cons 0 lo (lo + suc rounds) (omega arith) inside (Flips-none 0 lo (free)) (
            subst (λ hi. Marked (suc lo) hi 0 p (mark_free_from rounds page (i + 1) p))
              {x = suc lo + rounds} {y = lo + suc rounds} (omega arith)
              (mark_free_from-Marked rounds page (i + 1) (suc lo) p v (omega arith) (omega arith))))
    | no taken ↦
        let next : mark_free_from rounds page (i + 1) (drop_page lo p)
            ≡ mark_free_from (suc rounds) page i p =
          ground (arith, mark_free_from_step rounds page i lo p (omega arith)) in
        subst (Marked lo (lo + suc rounds) 0 p) next (
          Marked-cons 0 lo (lo + suc rounds) (omega arith) inside (drop_page-Flips lo v inside) (
            subst
              (λ hi.
                Marked (suc lo) hi 0 (drop_page lo p)
                  (mark_free_from rounds page (i + 1) (drop_page lo p)))
              {x = suc lo + rounds} {y = lo + suc rounds} (omega arith)
              (mark_free_from-Marked rounds page (i + 1) (suc lo) (drop_page lo p)
                (drop_page-IsValid lo v inside taken) (omega arith) (omega arith))))
  ]
]

-- `pmm_mark_used`, on a valid bitmap, takes exactly the managed ones of the first `size / 4096` pages,
-- rounded up, from the page that `addr` lies in on, and keeps the bitmap valid. Of a range that starts
-- inside a page this may leave out the last page that the range touches.
pub mark_used-Marked :
    (addr size : ℕ) (p : Pmm)
    → IsValid p
    → addr < 2 ^ 32
    → size + page_size ≤ 2 ^ 32
    → let lo = addr / page_size in
      Marked lo (lo + (size + page_size - 1) / page_size) 1 p (mark_used addr size p)
unfolding mark_used
mark_used-Marked addr size p v ha hs =
    subst (λ n. Marked (addr / page_size) (addr / page_size + n) 1 p (mark_used addr size p))
      {x = pages_of size} {y = (size + page_size - 1) / page_size} (omega arith)
      (mark_used_from-Marked (pages_of size) (addr / page_size) 0 (addr / page_size) p v
        (omega arith) (omega arith))

-- `pmm_mark_free` releases these pages, and no other.
pub mark_free-Marked :
    (addr size : ℕ) (p : Pmm)
    → IsValid p
    → addr < 2 ^ 32
    → size + page_size ≤ 2 ^ 32
    → let lo = addr / page_size in
      Marked lo (lo + (size + page_size - 1) / page_size) 0 p (mark_free addr size p)
unfolding mark_free
mark_free-Marked addr size p v ha hs =
    subst (λ n. Marked (addr / page_size) (addr / page_size + n) 0 p (mark_free addr size p))
      {x = pages_of size} {y = (size + page_size - 1) / page_size} (omega arith)
      (mark_free_from-Marked (pages_of size) (addr / page_size) 0 (addr / page_size) p v
        (omega arith) (omega arith))
