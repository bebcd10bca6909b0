-- ===== src/Pmm/Free.antt =====
-- `pmm_free_page`, and that it undoes an allocation.
use native.Mathlib.Decide.{ℕ_discrete, dec_le}
use null_os.Prelude.{ℕ, ◌+◌, ◌/◌, ◌≤◌, ◌<◌, ◌≡◌, sym, ap, subst, ◌∙◌, ◌≢◌, ◌⊎◌, inl, inr, arith}
use null_os.Pmm.{
  Pmm, bitmap_test, drop_page, alloc_page, free_page, free_pages, total_pages, page_size,
}
use null_os.Pmm.Count.{
  IsValid, Flips, drop_page-Flips, drop_page-IsValid, used_drop, free_pages-add-used,
}
use null_os.Pmm.Alloc.{Handed, alloc_page_lem}

pub record Returned (p : Pmm) (page : ℕ) (q : Pmm) : Type 0 where
  pub managed : page < p.total
  pub was_used : bitmap_test p page ≢ 0
  pub flips : Flips page 0 p q
  pub valid : IsValid q
  pub one_more : free_pages q ≡ free_pages p + 1

-- `pmm_free_page` ignores a page that is not managed or already free, and else frees exactly that
-- page, also when `addr` points into its middle.
pub free_page_lem :
    (addr : ℕ) {p : Pmm}
    → IsValid p
    → (((p.total ≤ addr / page_size) ⊎ (bitmap_test p (addr / page_size) ≡ 0))
        × (free_page addr p ≡ p))
      ⊎ Returned p (addr / page_size) (free_page addr p)
unfolding free_page total_pages
free_page_lem addr {p} v = elim (dec_le p.total (addr / page_size)) [
  | yes past ↦ inl (inl past, ground arith)
  | no inside ↦ elim (ℕ_discrete (bitmap_test p (addr / page_size)) 0) [
    | yes free ↦ inl (inr free, ground arith)
    | no taken ↦
        let e : drop_page (addr / page_size) p ≡ free_page addr p = ground arith in
        let h : addr / page_size < p.total = omega arith in
        inr (
          subst (Returned p (addr / page_size)) e (record {
            managed = h;
            was_used = taken;
            flips = drop_page-Flips (addr / page_size) v h;
            valid = drop_page-IsValid (addr / page_size) v h taken;
            one_more = omega (
              arith,
              free_pages-add-used v,
              free_pages-add-used (drop_page-IsValid (addr / page_size) v h taken),
              used_drop (addr / page_size) v h taken,
              (drop_page-Flips (addr / page_size) v h).same_total,
            );
          }))
  ]
]

-- The state is as it was: the same pages in use, the same number managed, the same counter.
pub record SamePages (p q : Pmm) : Type 0 where
  pub tests : (j : ℕ) → bitmap_test q j ≡ bitmap_test p j
  pub same_total : q.total ≡ p.total
  pub same_used : q.used ≡ p.used

undo :
    (page addr : ℕ) {p q r : Pmm}
    → IsValid p
    → addr / page_size ≡ page
    → Handed p page q
    → Returned q (addr / page_size) r
    → SamePages p r
unfolding total_pages
undo page addr {p} {q} {r} v e handed back = record {
  tests = λ j. elim (ℕ_discrete j page) [
    | yes at ↦
        rw (at, ← e)
          (back.flips.at_page ∙ sym (subst (λ k. bitmap_test p k ≡ 0) (sym e) handed.was_free))
    | no other ↦ back.flips.elsewhere j (λ w. other (w ∙ e)) ∙ handed.flips.elsewhere j other
  ];
  same_total = back.flips.same_total ∙ handed.flips.same_total;
  same_used = omega (
    arith,
    free_pages-add-used v,
    free_pages-add-used back.valid,
    back.one_more,
    handed.one_fewer,
    back.flips.same_total,
    handed.flips.same_total,
  );
}

-- A page that `pmm_alloc_page` returned and that is freed at once leaves every page, the total and
-- the counter as they were before.
pub free_page-alloc_page :
    {p : Pmm}
    → IsValid p
    → (alloc_page p).0 ≢ 0
    → SamePages p (free_page (alloc_page p).0 (alloc_page p).1)
free_page-alloc_page {p} v got = elim (alloc_page_lem v) [
  | inl (e, u) ↦ absurd (got (ap (λ r. r.0) e))
  | inr (page, e, u, handed) ↦ elim (free_page_lem (alloc_page p).0 handed.valid) [
    | inl (inl past, _) ↦ absurd (omega (arith, handed.managed, handed.flips.same_total))
    | inl (inr free, _) ↦ absurd (
        omega (
          arith,
          handed.flips.at_page,
          free,
          ap (bitmap_test (alloc_page p).1) {x = (alloc_page p).0 / page_size} {y = page}
              (omega arith),
        ))
    | inr back ↦ undo page (alloc_page p).0 v (omega arith) handed back
  ]
]
