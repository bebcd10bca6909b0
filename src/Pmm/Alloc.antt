-- ===== src/Pmm/Alloc.antt =====
-- `pmm_alloc_page` and `pmm_alloc_page_at`: which page they hand out, and when they fail.
use native.Mathlib.Decide.{ℕ_discrete, dec_le}
use null_os.Prelude.{
  ℕ, zero, suc, ◌+◌, ◌-◌, ◌*◌, ◌/◌, ◌%◌, ◌^◌, ◌≤◌, ◌<◌, ◌≡◌, refl, sym, ap, subst, ◌∙◌, ◌≢◌, ◌⊎◌,
  ◌↔◌, inl, inr, none, some, arith, get_or,
}
use null_os.Pmm.{
  Pmm, bitmap_test, take_page, scan_bits, scan_words, alloc_page, alloc_page_at, free_pages,
  total_pages, page_size,
}
use null_os.Pmm.Bitmap.{test_full_word, test-le_one}
use null_os.Pmm.Count.{
  IsValid, Flips, take_page-Flips, take_page-IsValid, used_take, free_pages-add-used,
  sum_below_ones,
}

-- Every managed page below `n` is in use.
abbrev pub UsedBelow : Pmm → ℕ → Type 0
UsedBelow p n = (j : ℕ) → j < n → j < p.total → bitmap_test p j ≢ 0

UsedBelow-mono : (p : Pmm) (m n : ℕ) → m ≤ n → UsedBelow p n → UsedBelow p m
UsedBelow-mono p m n h u j lt = u j (omega arith)

UsedBelow-suc : (p : Pmm) (n : ℕ) → UsedBelow p n → bitmap_test p n ≢ 0 → UsedBelow p (suc n)
UsedBelow-suc p n u taken j lt inside = elim (ℕ_discrete j n) [
  | yes e ↦ λ z. taken (ap (bitmap_test p) (sym e) ∙ z)
  | no ne ↦ u j (omega arith) inside
]

-- What a scan returns: nothing is free, or the lowest free page, now taken.
abbrev pub Outcome : Pmm → ℕ × Pmm → Type 0
Outcome p r =
    ((r ≡ (0, p)) × UsedBelow p p.total)
    ⊎ ((page : ℕ) × (page < p.total)
        × (bitmap_test p page ≡ 0)
        × UsedBelow p page
        × (r ≡ (page * page_size, take_page page p)))

scan_bits-Outcome :
    (rounds i b : ℕ) (p : Pmm)
    → b + rounds ≡ 32
    → UsedBelow p (i * 32 + b)
    → ((scan_bits rounds i b p ≡ none) × UsedBelow p (i * 32 + 32))
      ⊎ ((r : ℕ × Pmm) × (scan_bits rounds i b p ≡ some r) × Outcome p r)
unfolding scan_bits
scan_bits-Outcome zero i b p e u =
    inl (refl, UsedBelow-mono p (i * 32 + 32) (i * 32 + b) (omega arith) u)
scan_bits-Outcome (suc rounds) i b p e u = elim (dec_le p.total (i * 32 + b)) [
  | yes past ↦ inr ((0, p), ground arith, inl (refl, UsedBelow-mono p p.total (i * 32 + b) past u))
  | no inside ↦ elim (ℕ_discrete (bitmap_test p (i * 32 + b)) 0) [
    | yes free ↦ inr (
      ((i * 32 + b) * page_size, take_page (i * 32 + b) p),
      ground arith,
      inr (i * 32 + b, omega arith, free, u, refl),
    )
    | no taken ↦
        elim (scan_bits-Outcome rounds i (b + 1) p (omega arith) (
          UsedBelow-mono p (i * 32 + (b + 1)) (suc (i * 32 + b)) (omega arith)
            (UsedBelow-suc p (i * 32 + b) u taken))) [
              | inl (n, rest) ↦ inl (ground arith, rest)
              | inr (r, s, out) ↦ inr (r, ground arith, out)
            ]
  ]
]

full_word-UsedBelow :
    (p : Pmm) (i : ℕ)
    → get_or p.bitmap i 0 ≡ 2 ^ 32 - 1
    → UsedBelow p (i * 32)
    → UsedBelow p (i * 32 + 32)
full_word-UsedBelow p i e u j lt inside = elim (dec_le (i * 32) j) [
  | yes here ↦ omega (
    arith,
    test_full_word p i (j - i * 32) e (omega arith),
    ap (bitmap_test p) {x = i * 32 + (j - i * 32)} {y = j} (omega arith),
  )
  | no below ↦ u j (omega arith) inside
]

scan_words-Outcome :
    (rounds i : ℕ) (p : Pmm)
    → p.total ≤ (i + rounds) * 32
    → UsedBelow p (i * 32)
    → Outcome p (scan_words rounds i p)
unfolding scan_words
scan_words-Outcome zero i p h u = inl (refl, UsedBelow-mono p p.total (i * 32) (omega arith) u)
scan_words-Outcome (suc rounds) i p h u = elim (ℕ_discrete (get_or p.bitmap i 0) 0xffff_ffff) [
  | yes full ↦
      let e : scan_words rounds (i + 1) p ≡ scan_words (suc rounds) i p = ground arith in
      subst (Outcome p) e (
        scan_words-Outcome rounds (i + 1) p (omega arith) (
          UsedBelow-mono p ((i + 1) * 32) (i * 32 + 32) (omega arith)
            (full_word-UsedBelow p i full u)))
  | no mixed ↦
      elim (scan_bits-Outcome 32 i 0 p refl
        (UsedBelow-mono p (i * 32 + 0) (i * 32) (omega arith) u)) [
          | inl (n, rest) ↦
              let e : scan_words rounds (i + 1) p ≡ scan_words (suc rounds) i p = ground arith in
              subst (Outcome p) e (
                scan_words-Outcome rounds (i + 1) p (omega arith)
                  (UsedBelow-mono p ((i + 1) * 32) (i * 32 + 32) (omega arith) rest))
          | inr (r, s, out) ↦
              let e : r ≡ scan_words (suc rounds) i p = ground arith in subst (Outcome p) e out
        ]
]

-- `page` was free and is now the only difference: one free page fewer.
pub record Handed (p : Pmm) (page : ℕ) (q : Pmm) : Type 0 where
  pub managed : page < p.total
  pub was_free : bitmap_test p page ≡ 0
  pub flips : Flips page 1 p q
  pub valid : IsValid q
  pub one_fewer : free_pages q + 1 ≡ free_pages p

take_page-Handed :
    (page : ℕ) {p : Pmm}
    → IsValid p
    → page < p.total
    → bitmap_test p page ≡ 0
    → Handed p page (take_page page p)
unfolding total_pages
take_page-Handed page {p} v h free = record {
  managed = h;
  was_free = free;
  flips = take_page-Flips page v h;
  valid = take_page-IsValid page v h free;
  one_fewer = omega (
    arith,
    free_pages-add-used v,
    free_pages-add-used (take_page-IsValid page v h free),
    used_take page v h,
    (take_page-Flips page v h).same_total,
  );
}

-- `pmm_alloc_page` on a valid bitmap: either it returns 0, changes nothing and every managed page is
-- in use, or it returns the address of the lowest free page and takes exactly that page.
pub alloc_page_lem :
    {p : Pmm}
    → IsValid p
    → ((alloc_page p ≡ (0, p)) × UsedBelow p p.total)
      ⊎ ((page : ℕ) × ((alloc_page p).0 ≡ page * page_size)
          × UsedBelow p page
          × Handed p page (alloc_page p).1)
unfolding alloc_page
alloc_page_lem {p} v =
    elim (scan_words-Outcome 64 0 p (omega (arith, v.managed)) (λ j lt _. absurd (omega arith))) [
      | inl out ↦ inl out
      | inr (page, h, free, u, e) ↦ inr (
        page,
        ap (λ r. r.0) e,
        u,
        subst (λ r. Handed p page r.1) (sym e) (take_page-Handed page v h free),
      )
    ]

-- The count of used pages is the total exactly when no managed page is free.
pub free_pages-full : {p : Pmm} → IsValid p → UsedBelow p p.total → free_pages p ≡ 0
unfolding total_pages
free_pages-full {p} v u = omega (
  arith,
  free_pages-add-used v,
  v.counted,
  sum_below_ones 0 p.total (bitmap_test p)
      (λ j _ lt. omega (arith, u j (omega arith) (omega arith), test-le_one p j)) p.total
      (omega arith),
)

-- With page 0 in use, as `pmm_init` leaves it, the result 0 means that memory is exhausted.
alloc_page-zero_iff :
    {p : Pmm} → IsValid p → bitmap_test p 0 ≢ 0 → ((alloc_page p).0 ≡ 0) ↔ (free_pages p ≡ 0)
alloc_page-zero_iff {p} v reserved = elim (alloc_page_lem v) [
  | inl (e, u) ↦ (λ _. free_pages-full v u, λ _. ap (λ r. r.0) e)
  | inr (page, e, u, handed) ↦ (
    λ z. absurd (
        reserved
          (subst (λ k. bitmap_test p k ≡ 0) {x = page} {y = 0} (omega arith) handed.was_free)),
    λ z. absurd (omega (arith, handed.one_fewer)),
  )
]

-- `pmm_alloc_page_at`: the page at exactly `addr`, if it is aligned, managed and free.
pub alloc_page_at_lem :
    (addr : ℕ) {p : Pmm}
    → IsValid p
    → (((addr % page_size ≢ 0)
          ⊎ (p.total ≤ addr / page_size)
          ⊎ (bitmap_test p (addr / page_size) ≢ 0))
        × (alloc_page_at addr p ≡ (0, p)))
      ⊎ ((addr % page_size ≡ 0)
          × ((alloc_page_at addr p).0 ≡ addr)
          × Handed p (addr / page_size) (alloc_page_at addr p).1)
unfolding alloc_page_at
alloc_page_at_lem addr {p} v = elim (ℕ_discrete (addr % page_size) 0) [
  | no ragged ↦ inl (inl ragged, ground arith)
  | yes aligned ↦ elim (dec_le p.total (addr / page_size)) [
    | yes past ↦ inl (inr (inl past), ground arith)
    | no inside ↦ elim (ℕ_discrete (bitmap_test p (addr / page_size)) 0) [
      | no taken ↦ inl (inr (inr taken), ground arith)
      | yes free ↦
          let e : (addr, take_page (addr / page_size) p) ≡ alloc_page_at addr p = ground arith in
          inr (
            aligned,
            sym (ap (λ r. r.0) e),
            subst (λ r. Handed p (addr / page_size) r.1) e
                (take_page-Handed (addr / page_size) v (omega arith) free),
          )
    ]
  ]
]
