-- ===== src/Vmm/User.antt =====
-- `vmm_map_user_page`: every way it can end.
use native.Mathlib.Decide.{dec_lt}
use null_os.Prelude.{
  ℕ, ◌*◌, ◌/◌, ◌%◌, ◌^◌, ◌≤◌, ◌<◌, ◌≡◌, sym, ap, subst, ◌∙◌, ◌≢◌, ◌⊎◌, inl, inr, arith, Bool, true,
  false, Bool-cases,
}
use null_os.Pmm.{Pmm, bitmap_test, alloc_page, page_size}
use null_os.Pmm.Count.{IsValid, Flips}
use null_os.Pmm.Alloc.{Handed, UsedBelow, alloc_page_lem}
use null_os.Vmm.{
  Memory, Vmm, mapped, err_range, err_nomem, put, install_table, map_user_page, is_present,
  pde_address, pte_address, entry, user_flags, identity_end,
}
use null_os.Vmm.Walk.{IsSpace, SameWalk, SameWalk-trans}
use null_os.Vmm.Map.{Mapped, write-Mapped}
use null_os.Vmm.Table.{installed-SameWalk, installed-IsSpace, installed_self}

Mapped-after :
    (dir virt phys : ℕ) (m m' m'' : Memory)
    → ((a : ℕ) → a < 2 ^ 32 → SameWalk dir a m m')
    → Mapped dir virt phys m' m''
    → Mapped dir virt phys m m''
Mapped-after dir virt phys m m' m'' same step = record {
  here = step.here;
  elsewhere = λ a lt ne. SameWalk-trans dir a m m' m'' (same a lt) (step.elsewhere a lt ne);
}

module _ (dir virt phys : ℕ) (s : Vmm) (high : identity_end ≤ virt) where
  map_user_page-present :
      is_present (s.mem (pde_address dir virt)) ≡ true
      → map_user_page dir virt phys s ≡ (
        mapped,
        record s {
          mem = put (pte_address (s.mem (pde_address dir virt)) virt) (entry phys user_flags) s.mem;
        },
      )
  unfolding map_user_page
  map_user_page-present there = ground (arith, there, high)

  map_user_page-full :
      is_present (s.mem (pde_address dir virt)) ≡ false
      → alloc_page s.pmm ≡ (0, s.pmm)
      → map_user_page dir virt phys s ≡ (err_nomem, s)
  unfolding map_user_page
  map_user_page-full absent e = ground (arith, absent, e, high)

  map_user_page-installed :
      (pt : ℕ) (q : Pmm)
      → is_present (s.mem (pde_address dir virt)) ≡ false
      → alloc_page s.pmm ≡ (pt, q)
      → pt ≢ 0
      → pt < identity_end
      → map_user_page dir virt phys s ≡ (
        mapped,
        record s {
          mem =
              put
                (pte_address (entry pt user_flags) virt)
                (entry phys user_flags)
                (install_table dir virt pt s.mem);
          pmm = q;
        },
      )
  unfolding map_user_page
  map_user_page-installed pt q absent e some_page low =
      ground (arith, absent, e, high, some_page, low)

-- The entry in a table that has just been installed.
fresh-Mapped :
    (dir virt phys pt : ℕ) (s : Vmm) (q : Pmm)
    → IsSpace dir s
    → virt < 2 ^ 32
    → identity_end ≤ virt
    → is_present (s.mem (pde_address dir virt)) ≡ false
    → pt % 4096 ≡ 0
    → bitmap_test s.pmm (pt / 4096) ≡ 0
    → Flips (pt / 4096) 1 s.pmm q
    → IsValid q
    → let m =
        put
          (pte_address (entry pt user_flags) virt)
          (entry phys user_flags)
          (install_table dir virt pt s.mem) in
      Mapped dir virt phys s.mem m × IsSpace dir (record s { mem = m; pmm = q })
unfolding install_table
fresh-Mapped dir virt phys pt s q v small high absent aligned was_free taken good =
    let self = installed_self dir virt pt s q v small high absent aligned was_free taken good in
    let after : Vmm = record s { mem = install_table dir virt pt s.mem; pmm = q } in
    let w = installed-IsSpace dir virt pt s q v small high absent aligned was_free taken good in
    let there : is_present (after.mem (pde_address dir virt)) ≡ true =
      ap is_present_of self ∙ present_entry pt aligned in
    let (m, x) = write-Mapped dir virt phys after w small there high in
    subst
      (λ e.
        let m =
          put (pte_address e virt) (entry phys user_flags) (install_table dir virt pt s.mem) in
        Mapped dir virt phys s.mem m × IsSpace dir (record s { mem = m; pmm = q }))
      self
      (
        Mapped-after dir virt phys s.mem after.mem _
            (installed-SameWalk dir virt pt s q v small high absent aligned was_free taken good) m,
        x,
      )
  where
    is_present_of : ℕ → Bool
    is_present_of e = is_present e

    present_entry : (pt : ℕ) → pt % 4096 ≡ 0 → is_present (entry pt user_flags) ≡ true
    present_entry pt aligned = ground (arith, aligned)

map_user_page-refused :
    (dir virt phys : ℕ) (s : Vmm)
    → virt < identity_end
    → map_user_page dir virt phys s ≡ (err_range, s)
unfolding map_user_page
map_user_page-refused dir virt phys s low = ground (arith, low)

taken :
    {dir virt phys : ℕ} {s : Vmm} (page : ℕ)
    → IsSpace dir s
    → virt < 2 ^ 32
    → identity_end ≤ virt
    → is_present (s.mem (pde_address dir virt)) ≡ false
    → (alloc_page s.pmm).0 ≡ page * page_size
    → Handed s.pmm page (alloc_page s.pmm).1
    → (u : Vmm) × (identity_end ≤ virt)
      × (map_user_page dir virt phys s ≡ (mapped, u))
      × Mapped dir virt phys s.mem u.mem
      × IsSpace dir u
taken {dir} {virt} {phys} {s} page v small high absent e handed =
    let same : page * page_size / 4096 ≡ page = omega arith in
    let not_null : page ≢ 0 =
      λ null. absurd (omega (arith, handed.was_free, v.null_taken, ap (bitmap_test s.pmm) null)) in
    let (m, w) =
      fresh-Mapped dir virt phys (page * page_size) s (alloc_page s.pmm).1 v small high absent
        (omega arith) (ap (bitmap_test s.pmm) same ∙ handed.was_free)
        (subst (λ k. Flips k 1 s.pmm (alloc_page s.pmm).1) (sym same) handed.flips) handed.valid in
    (
      _,
      high,
      map_user_page-installed dir virt phys s high (page * page_size) (alloc_page s.pmm).1 absent
          (ap (λ k. (k, (alloc_page s.pmm).1)) e) (omega (arith, not_null))
          (omega (arith, handed.managed, v.pmm_valid.managed)),
      m,
      w,
    )

-- `vmm_map_user_page` in a well-formed space refuses an address below 8 MB and changes nothing; or it
-- finds no page for a new page table, all being in use, and changes nothing; or it maps the page of
-- `virt` to that of `phys` for user code, no other page of the space changes its mapping, and the
-- space is well formed again.
pub map_user_page_lem :
    (dir virt phys : ℕ) (s : Vmm)
    → IsSpace dir s
    → virt < 2 ^ 32
    → ((virt < identity_end) × (map_user_page dir virt phys s ≡ (err_range, s)))
      ⊎ ((identity_end ≤ virt)
          × UsedBelow s.pmm s.pmm.total
          × (map_user_page dir virt phys s ≡ (err_nomem, s)))
      ⊎ ((u : Vmm) × (identity_end ≤ virt)
          × (map_user_page dir virt phys s ≡ (mapped, u))
          × Mapped dir virt phys s.mem u.mem
          × IsSpace dir u)
map_user_page_lem dir virt phys s v small = elim (dec_lt virt identity_end) [
  | yes low ↦ inl (low, map_user_page-refused dir virt phys s low)
  | no high ↦ elim (Bool-cases (is_present (s.mem (pde_address dir virt)))) [
    | inl there ↦
        let (m, w) = write-Mapped dir virt phys s v small there (omega (arith, high)) in
        inr (
          inr (
            _,
            omega (arith, high),
            map_user_page-present dir virt phys s (omega (arith, high)) there,
            m,
            w,
          ))
    | inr absent ↦ elim (alloc_page_lem v.pmm_valid) [
      | inl (e, full) ↦ inr (
          inl (
            omega (arith, high),
            full,
            map_user_page-full dir virt phys s (omega (arith, high)) absent e,
          ))
      | inr (page, e, below, handed) ↦
          inr (inr (taken page v small (omega (arith, high)) absent e handed))
    ]
  ]
]
