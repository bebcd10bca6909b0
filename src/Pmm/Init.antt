-- ===== src/Pmm/Init.antt =====
-- `pmm_init`: the bootloader's memory map decides which pages can be handed out.
pub mod Loop
pub mod Shrink
use native.Mathlib.Decide.{ℕ_discrete, dec_le, dec_lt}
use null_os.Prelude.{
  ℕ, zero, suc, ◌+◌, ◌-◌, ◌*◌, ◌/◌, ◌%◌, ◌^◌, ◌≤◌, ◌<◌, ◌≡◌, refl, sym, ap, subst, ◌∙◌, ◌≢◌, ◌⊎◌,
  ◌↔◌, inl, inr, arith, List, [], ◌∷◌,
}
use null_os.Pmm.{
  Pmm, BootMemRegion, bitmap_test, boot_mem_usable, page_size, pmm_max_pages, pmm_limit_addr,
  region_start, region_end, free_region, free_regions, shrink, init, all_used, mark_free, mark_used,
  u32,
}
use null_os.Pmm.Bitmap.{HasWords, test-all_used, all_used-HasWords, test-le_one}
use null_os.Pmm.Count.{IsValid, count_used, sum_below, sum_below_ones, sum_below-le}
use null_os.Pmm.Range.{Marked, mark_used-Marked, mark_free-Marked}
use Loop.{
  Freed, Holds, Backed, NoWrap, Freed-iff, Freed-start, free_regions-Freed, all_used-IsValid,
}
use Shrink.{Managed, shrink-Managed}

Holds-dec : (r : BootMemRegion) (j : ℕ) → Dec (Holds r j)
Holds-dec r j = elim (ℕ_discrete r.kind boot_mem_usable) [
  | no other ↦ no (λ h. other h.0)
  | yes usable ↦ elim (dec_le r.base (j * page_size)) [
    | no before ↦ no (λ h. before h.1)
    | yes after ↦ elim (dec_le (j * page_size + page_size) (r.base + r.length)) [
      | no past ↦ no (λ h. past h.2)
      | yes within ↦ yes (usable, after, within)
    ]
  ]
]

Backed-dec : (rs : List BootMemRegion) (j : ℕ) → Dec (Backed rs j)
Backed-dec [] j = no (λ h. h)
Backed-dec (r ∷ rs) j = elim (Holds-dec r j) [
  | yes held ↦ yes (inl held)
  | no other ↦ elim (Backed-dec rs j) [
    | yes later ↦ yes (inr later)
    | no none ↦ no (λ h. elim h [ inl held ↦ other held | inr later ↦ none later ])
  ]
]

-- The pages below 4 MB are taken again at the end.
reserve : Pmm → Pmm
reserve p = mark_used 0x100000 0x300000 (mark_used 0 0x100000 p)

reserve-Marked : (p : Pmm) → IsValid p → Marked 0 1024 1 p (reserve p)
unfolding reserve
reserve-Marked p v = record {
  covered = λ j _ lt inside. elim (dec_lt j 256) [
    | yes low ↦
        high.outside j (inl (omega arith)) ∙ first.covered j (omega arith) (omega arith) inside
    | no low ↦ high.covered j (omega arith) (omega arith) (omega (arith, first.same_total))
  ];
  outside = λ j away.
      high.outside j (
        inr (elim away [
          | inl none ↦ absurd (omega arith)
          | inr (inl past) ↦ inl (omega arith)
          | inr (inr past) ↦ inr (omega (arith, first.same_total))
        ]))
      ∙ first.outside j (
          inr (elim away [
            | inl none ↦ absurd (omega arith)
            | inr (inl past) ↦ inl (omega arith)
            | inr (inr past) ↦ inr past
          ]));
  same_total = high.same_total ∙ first.same_total;
  valid = high.valid;
}
  where
    first : Marked 0 256 1 p (mark_used 0 0x100000 p)
    first = mark_used-Marked 0 0x100000 p v (omega arith) (omega arith)

    high :
        Marked 256 1024 1
          (mark_used 0 0x100000 p)
          (mark_used 0x100000 0x300000 (mark_used 0 0x100000 p))
    high =
        mark_used-Marked 0x100000 0x300000 (mark_used 0 0x100000 p) first.valid (omega arith)
          (omega arith)

-- What `pmm_init` promises of a memory map: a page can be handed out exactly when it lies above 4 MB
-- and whole in a usable region, and the pages that are not managed are in no usable region.
pub record Initialised (backed : ℕ → Type 0) (p : Pmm) : Type 0 where
  pub valid : IsValid p
  pub free_iff : (j : ℕ) → j < p.total → (bitmap_test p j ≡ 0) ↔ ((1024 ≤ j) × backed j)
  pub unmanaged : (j : ℕ) → p.total ≤ j → j < pmm_max_pages → ¬ backed j
  pub page_zero : bitmap_test p 0 ≡ 1

reserve-Initialised :
    (C : ℕ → Type 0) (p : Pmm) → ((j : ℕ) → Dec (C j)) → Managed C p → Initialised C (reserve p)
reserve-Initialised C p dec m = record {
  valid = r.valid;
  free_iff = λ j lt. (
    λ z. elim (dec_le 1024 j) [
      | no low ↦
          absurd
            (omega (arith, r.covered j (omega arith) (omega arith) (omega (arith, r.same_total))))
      | yes high ↦ elim (dec j) [
        | yes c ↦ (high, c)
        | no c ↦
            absurd (
              omega
                (arith, r.outside j (inr (inl high)), m.taken j (omega (arith, r.same_total)) c))
      ]
    ],
    λ h. r.outside j (inr (inl h.0)) ∙ m.free j (omega (arith, r.same_total)) h.1,
  );
  unmanaged = λ j ge lt. m.beyond j (omega (arith, r.same_total)) lt;
  page_zero = r.covered 0 (omega arith) (omega arith) m.some_page;
}
  where
    r : Marked 0 1024 1 p (reserve p)
    r = reserve-Marked p m.valid

-- After `pmm_init` on a memory map, a managed page is free exactly when it lies at or above 4 MB and
-- whole in a usable region; no page of a usable region below 8 MB is left unmanaged, page 0 is in
-- use, and the counter agrees with the bitmap. The regions do not wrap round the address space.
pub init-Initialised :
    (r : BootMemRegion) (rs : List BootMemRegion)
    → NoWrap (r ∷ rs)
    → Initialised (Backed (r ∷ rs)) (init (r ∷ rs))
unfolding init reserve
init-Initialised r rs w = reserve-Initialised (Backed (r ∷ rs)) _ (Backed-dec (r ∷ rs)) (
    shrink-Managed (Backed (r ∷ rs)) (free_regions (r ∷ rs) (0, all_used)) (
      Freed-iff (λ j. ⊥ ⊎ Backed (r ∷ rs) j) (Backed (r ∷ rs))
        (λ j c. elim c [ inl h ↦ absurd h | inr h ↦ h ]) (λ j c. inr c)
        (free_regions-Freed (r ∷ rs) (λ j. ⊥) (0, all_used) w Freed-start)))

-- With no memory map `pmm_init` assumes that 1 MB to 8 MB is usable: pages 1024 to 2047 are free.
pub init_fallback : Initialised (λ j. (256 ≤ j) × (j < pmm_max_pages)) (init [])
unfolding init reserve
init_fallback =
    reserve-Initialised _ _
      (λ j. elim (dec_le 256 j) [
        | no low ↦ no (λ h. low h.0)
        | yes high ↦ elim (dec_lt j pmm_max_pages) [
          | yes lt ↦ yes (high, lt)
          | no ge ↦ no (λ h. ge h.1)
        ]
      ])
      (record {
        valid = m.valid;
        some_page = omega (arith, m.same_total);
        free = λ j lt c. m.covered j (omega arith) (omega arith) (omega (arith, m.same_total));
        taken = λ j lt c.
            m.outside j (
              inl (elim (dec_lt j 256) [
                | yes low ↦ low
                | no high ↦ absurd (c (omega arith, omega (arith, m.same_total)))
              ]))
            ∙ test-all_used j (omega (arith, m.same_total));
        beyond = λ j ge lt. absurd (omega (arith, m.same_total));
      })
  where
    m : Marked 256 2048 0 all_used (mark_free 0x100000 (pmm_limit_addr - 0x100000) all_used)
    m =
        mark_free-Marked 0x100000 (pmm_limit_addr - 0x100000) all_used all_used-IsValid
          (omega arith) (omega arith)
