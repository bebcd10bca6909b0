-- ===== src/Pmm/Init/Loop.antt =====
-- The loop of `pmm_init` over the memory map: which pages it has released after each region.
use native.Mathlib.Decide.{ℕ_discrete, dec_le, dec_lt}
use null_os.Prelude.{
  ℕ, ◌+◌, ◌-◌, ◌*◌, ◌/◌, ◌%◌, ◌^◌, ◌≤◌, ◌<◌, ◌≡◌, refl, sym, subst, ◌∙◌, ◌⊎◌, ◌↔◌, inl, inr, arith,
  List, [], ◌∷◌,
}
use null_os.Pmm.{
  Pmm, BootMemRegion, bitmap_test, boot_mem_usable, page_size, pmm_max_pages, pmm_limit_addr,
  region_start, region_end, free_region, free_regions, all_used, mark_free, u32,
}
use null_os.Pmm.Bitmap.{test-all_used, all_used-HasWords}
use null_os.Pmm.Count.{IsValid, sum_below_ones}
use null_os.Pmm.Range.{Marked, mark_free-Marked}

-- The region is usable RAM and holds the whole of page `j`.
abbrev pub Holds : BootMemRegion → ℕ → Type 0
Holds r j =
    (r.kind ≡ boot_mem_usable)
    × (r.base ≤ j * page_size)
    × (j * page_size + page_size ≤ r.base + r.length)

-- Some region of the map does.
abbrev pub Backed : List BootMemRegion → ℕ → Type 0
Backed [] j = ⊥
Backed (r ∷ rs) j = Holds r j ⊎ Backed rs j

-- No region wraps round the end of the 64-bit address space.
abbrev pub NoWrap : List BootMemRegion → Type 0
NoWrap [] = Unit {0}
NoWrap (r ∷ rs) = (r.base + r.length + page_size ≤ 2 ^ 64) × NoWrap rs

-- The loop over the map: exactly the pages of `C` are free, and they end by `highest`.
pub record Freed (C : ℕ → Type 0) (s : ℕ × Pmm) : Type 0 where
  pub valid : IsValid s.1
  pub all_managed : s.1.total ≡ pmm_max_pages
  pub whole : s.0 % page_size ≡ 0
  pub capped : s.0 ≤ pmm_limit_addr
  pub free : (j : ℕ) → j < pmm_max_pages → C j → bitmap_test s.1 j ≡ 0
  pub taken : (j : ℕ) → j < pmm_max_pages → ¬ C j → bitmap_test s.1 j ≡ 1
  pub below : (j : ℕ) → j < pmm_max_pages → C j → j * page_size < s.0

pub all_used-IsValid : IsValid all_used
all_used-IsValid = record {
  words = all_used-HasWords;
  managed = omega arith;
  counted = sym (
      sum_below_ones 0 pmm_max_pages (bitmap_test all_used)
        (λ j _ lt. test-all_used j (omega arith)) pmm_max_pages (omega arith));
}

pub Freed-start : Freed (λ j. ⊥) (0, all_used)
Freed-start = record {
  valid = all_used-IsValid;
  all_managed = refl;
  whole = refl;
  capped = omega arith;
  free = λ j _ c. absurd c;
  taken = λ j lt _. test-all_used j lt;
  below = λ j _ c. absurd c;
}

-- The pages of a region, in terms of its rounded ends.
Holds-rounded :
    (r : BootMemRegion) (j : ℕ)
    → r.base + r.length + page_size ≤ 2 ^ 64
    → j < pmm_max_pages
    → Holds r j ↔ (
        (r.kind ≡ boot_mem_usable)
        × (region_start r ≤ j * page_size)
        × (j * page_size + page_size ≤ region_end r))
unfolding region_start region_end
Holds-rounded r j fits h =
    (λ u. (u.0, omega arith, ground arith), λ u. (u.0, omega arith, ground arith))

module _ (C : ℕ → Type 0) (r : BootMemRegion) {highest : ℕ} {p : Pmm} where
  skip-Freed :
      ((j : ℕ) → j < pmm_max_pages → ¬ Holds r j)
      → Freed C (highest, p)
      → Freed (λ j. C j ⊎ Holds r j) (highest, p)
  skip-Freed none_held f = record {
    valid = f.valid;
    all_managed = f.all_managed;
    whole = f.whole;
    capped = f.capped;
    free = λ j lt c. elim c [ inl old ↦ f.free j lt old | inr new ↦ absurd (none_held j lt new) ];
    taken = λ j lt c. f.taken j lt (λ old. c (inl old));
    below = λ j lt c. elim c [ inl old ↦ f.below j lt old | inr new ↦ absurd (none_held j lt new) ];
  }

  free-Freed :
      (top : ℕ) {q : Pmm} (lo hi : ℕ)
      → Freed C (highest, p)
      → Marked lo hi 0 p q
      → ((j : ℕ) → j < pmm_max_pages → Holds r j ↔ ((lo ≤ j) × (j < hi)))
      → highest ≤ top
      → hi * page_size ≤ top
      → top % page_size ≡ 0
      → top ≤ pmm_limit_addr
      → Freed (λ j. C j ⊎ Holds r j) (top, q)
  free-Freed top {q} lo hi f m holds up reach whole capped = record {
    valid = m.valid;
    all_managed = m.same_total ∙ f.all_managed;
    whole = whole;
    capped = capped;
    free = λ j lt c. elim (dec_le lo j) [
      | no before ↦ m.outside j (inl (omega arith)) ∙ old j lt c (λ h. before ((holds j lt).0 h).0)
      | yes after ↦ elim (dec_lt j hi) [
        | yes within ↦ m.covered j after within (omega (arith, f.all_managed))
        | no past ↦
            m.outside j (inr (inl (omega arith))) ∙ old j lt c (λ h. past ((holds j lt).0 h).1)
      ]
    ];
    taken = λ j lt c.
        m.outside j (elim (dec_le lo j) [
          | no before ↦ inl (omega arith)
          | yes after ↦ elim (dec_lt j hi) [
            | yes within ↦ absurd (c (inr ((holds j lt).1 (after, within))))
            | no past ↦ inr (inl (omega arith))
          ]
        ])
        ∙ f.taken j lt (λ was. c (inl was));
    below = λ j lt c. elim c [
      | inl was ↦ omega (arith, f.below j lt was)
      | inr new ↦ omega (arith, (holds j lt).0 new)
    ];
  }
    where
      old : (j : ℕ) → j < pmm_max_pages → C j ⊎ Holds r j → ¬ Holds r j → bitmap_test p j ≡ 0
      old j lt c not_held = elim c [ inl was ↦ f.free j lt was | inr new ↦ absurd (not_held new) ]

mark_free-Freed :
    (C : ℕ → Type 0) (r : BootMemRegion) (start end top : ℕ) {highest : ℕ} {p : Pmm}
    → Freed C (highest, p)
    → start % page_size ≡ 0
    → end % page_size ≡ 0
    → start < end
    → end ≤ pmm_limit_addr
    → ((j : ℕ)
        → j < pmm_max_pages
        → Holds r j ↔ ((start ≤ j * page_size) × (j * page_size + page_size ≤ end)))
    → highest ≤ top
    → end ≤ top
    → top % page_size ≡ 0
    → top ≤ pmm_limit_addr
    → Freed (λ j. C j ⊎ Holds r j) (top, mark_free (u32 start) (u32 (end - start)) p)
mark_free-Freed C r start end top {highest} {p} f ws we lt le holds up reach whole capped =
    free-Freed C r top (u32 start / page_size)
      (u32 start / page_size + (u32 (end - start) + page_size - 1) / page_size) f
      (mark_free-Marked (u32 start) (u32 (end - start)) p f.valid (omega arith) (omega arith))
      (λ j inside. (
        λ h. let k = (holds j inside).0 h in (omega (arith, k), omega (arith, k)),
        λ k. (holds j inside).1 (omega arith, omega arith),
      ))
      up (omega arith) whole capped

region_start-whole : (r : BootMemRegion) → region_start r % page_size ≡ 0
unfolding region_start
region_start-whole r = omega arith

region_end-whole :
    (r : BootMemRegion) → (region_end r % page_size ≡ 0) × (region_end r ≤ pmm_limit_addr)
unfolding region_end
region_end-whole r = (ground arith, ground arith)

free_region-Freed :
    (C : ℕ → Type 0) (r : BootMemRegion) (highest : ℕ) (p : Pmm)
    → r.base + r.length + page_size ≤ 2 ^ 64
    → Freed C (highest, p)
    → Freed (λ j. C j ⊎ Holds r j) (free_region r (highest, p))
unfolding free_region
free_region-Freed C r highest p fits f = elim (ℕ_discrete r.kind boot_mem_usable) [
  | no other ↦
      let e : (highest, p) ≡ free_region r (highest, p) = ground arith in
      subst (Freed (λ j. C j ⊎ Holds r j)) e (skip-Freed C r (λ j lt h. other h.0) f)
  | yes usable ↦ elim (dec_le (region_end r) (region_start r)) [
    | yes empty ↦
        let e : (highest, p) ≡ free_region r (highest, p) = ground arith in
        subst (Freed (λ j. C j ⊎ Holds r j)) e
          (skip-Freed C r (λ j lt h. omega (arith, empty, (Holds-rounded r j fits lt).0 h)) f)
    | no room ↦ elim (dec_lt highest (region_end r)) [
      | yes higher ↦
          let e : (
            region_end r,
            mark_free (u32 (region_start r)) (u32 (region_end r - region_start r)) p,
          )
              ≡ free_region r (highest, p) =
            ground arith in
          subst (Freed (λ j. C j ⊎ Holds r j)) e (
            grown usable (region_end r) (omega arith) (omega arith) (region_end-whole r).0
              (region_end-whole r).1 (omega arith))
      | no lower ↦
          let e : (
            highest,
            mark_free (u32 (region_start r)) (u32 (region_end r - region_start r)) p,
          )
              ≡ free_region r (highest, p) =
            ground arith in
          subst (Freed (λ j. C j ⊎ Holds r j)) e
            (grown usable highest (omega arith) (omega arith) f.whole f.capped (omega arith))
    ]
  ]
]
  where
    grown :
        r.kind ≡ boot_mem_usable
        → (top : ℕ) → highest ≤ top
        → region_end r ≤ top
        → top % page_size ≡ 0
        → top ≤ pmm_limit_addr
        → region_start r < region_end r
        → Freed
            (λ j. C j ⊎ Holds r j)
            (top, mark_free (u32 (region_start r)) (u32 (region_end r - region_start r)) p)
    grown usable top up reach whole capped room =
        mark_free-Freed C r (region_start r) (region_end r) top f (region_start-whole r)
          (region_end-whole r).0 room (region_end-whole r).1
          (λ j lt. (
            (λ h. let k = (Holds-rounded r j fits lt).0 h in (k.1, k.2)),
            λ k. (Holds-rounded r j fits lt).1 (usable, k.0, k.1),
          ))
          up reach whole capped

pub Freed-iff :
    (C D : ℕ → Type 0) {s : ℕ × Pmm}
    → ((j : ℕ) → C j → D j)
    → ((j : ℕ) → D j → C j)
    → Freed C s
    → Freed D s
Freed-iff C D to from f = record {
  valid = f.valid;
  all_managed = f.all_managed;
  whole = f.whole;
  capped = f.capped;
  free = λ j lt d. f.free j lt (from j d);
  taken = λ j lt d. f.taken j lt (λ c. d (to j c));
  below = λ j lt d. f.below j lt (from j d);
}

pub free_regions-Freed :
    (rs : List BootMemRegion) (C : ℕ → Type 0) (s : ℕ × Pmm)
    → NoWrap rs
    → Freed C s
    → Freed (λ j. C j ⊎ Backed rs j) (free_regions rs s)
unfolding free_regions
free_regions-Freed [] C s w f =
    Freed-iff C (λ j. C j ⊎ ⊥) (λ j c. inl c) (λ j c. elim c [ inl h ↦ h | inr h ↦ absurd h ]) f
free_regions-Freed (r ∷ rs) C s w f =
    Freed-iff (λ j. (C j ⊎ Holds r j) ⊎ Backed rs j) (λ j. C j ⊎ (Holds r j ⊎ Backed rs j))
      (λ j c. elim c [ inl (inl h) ↦ inl h | inl (inr h) ↦ inr (inl h) | inr h ↦ inr (inr h) ])
      (λ j c. elim c [ inl h ↦ inl (inl h) | inr (inl h) ↦ inl (inr h) | inr (inr h) ↦ inr h ])
      (free_regions-Freed rs (λ j. C j ⊎ Holds r j) (free_region r s) w.1
        (free_region-Freed C r s.0 s.1 w.0 f))
