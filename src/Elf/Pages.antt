-- ===== src/Elf/Pages.antt =====
-- The pages of a segment: each of them mapped for user code, and no other page of the space touched.
use native.Mathlib.Decide.{dec_le}
use null_os.Prelude.{
  ℕ, zero, suc, ◌+◌, ◌-◌, ◌*◌, ◌/◌, ◌%◌, ◌^◌, ◌≤◌, ◌<◌, ◌≡◌, refl, sym, ap, subst, ◌∙◌, ◌≢◌, ◌⊎◌,
  inl, inr, arith, true, false,
}
use null_os.Pmm.{Pmm, bitmap_test, alloc_page, free_page, free_pages, page_size}
use null_os.Pmm.Count.{IsValid}
use null_os.Pmm.Alloc.{Handed, UsedBelow, alloc_page_lem, free_pages-full}
use null_os.Pmm.Free.{free_page_lem}
use null_os.Vmm.{Vmm, mapped, err_nomem, zero_4kb, map_user_page, dir_index, get_user_phys_from_dir}
use null_os.Vmm.Words.{zero_4kb-outside}
use null_os.Vmm.Walk.{IsSpace, SameWalk, SameWalk-entries, SameWalk-trans, pde_at}
use null_os.Vmm.Map.{Mapped, IsSpace-same}
use null_os.Vmm.User.{map_user_page_lem}
use null_os.Elf.{Phdr, map_pages, map_segment, page_start, page_end, is_loaded, elf_user_limit}
use null_os.Elf.Check.{InBounds}

module _ (dir page : ℕ) (s : Vmm) (q : Pmm) (v : IsSpace dir s) (handed : Handed s.pmm page q) where
  abbrev cleared : Vmm
  cleared = record s { mem = zero_4kb (page * page_size) s.mem; pmm = q }

  not_taken : (j : ℕ) → bitmap_test s.pmm j ≡ 1 → j ≢ page
  not_taken j used e = absurd (omega (arith, used, handed.was_free, ap (bitmap_test s.pmm) e))

  still_taken : (j : ℕ) → bitmap_test s.pmm j ≡ 1 → bitmap_test q j ≡ 1
  still_taken j used = handed.flips.elsewhere j (not_taken j used) ∙ used

  same_dir : (d : ℕ) → d < 1024 → pde_at dir d cleared.mem ≡ pde_at dir d s.mem
  same_dir d lt =
      zero_4kb-outside (page * page_size) s.mem (dir + d * 4) (omega arith)
        (λ e. not_taken (dir / 4096) v.dir_taken (omega (arith, e, v.aligned)))

  -- A page that has just been taken is in no walk.
  cleared-SameWalk : (a : ℕ) → a < 2 ^ 32 → SameWalk dir a s.mem cleared.mem
  cleared-SameWalk a lt =
      SameWalk-entries dir a s.mem cleared.mem (same_dir (dir_index a) (omega arith)) (λ there.
        zero_4kb-outside (page * page_size) s.mem _ (omega arith)
          (λ e. not_taken _ (v.tables_taken (dir_index a) (omega arith) there) (omega (arith, e))))

  with_pmm : IsSpace dir (record s { pmm = q })
  with_pmm = record {
    aligned = v.aligned;
    pmm_valid = handed.valid;
    null_taken = still_taken 0 v.null_taken;
    dir_taken = still_taken _ v.dir_taken;
    tables_taken = λ d lt there. still_taken _ (v.tables_taken d lt there);
    apart_dir = v.apart_dir;
    apart = v.apart;
    kernel_tables = v.kernel_tables;
    user_tables = v.user_tables;
  }

  cleared-IsSpace : IsSpace dir cleared
  cleared-IsSpace = IsSpace-same dir (record s { pmm = q }) cleared.mem with_pmm same_dir

-- Every page from `va` on, `n` of them, is open to user code, and the others are as they were.
pub record Loaded (n va dir : ℕ) (s u : Vmm) : Type 0 where
  pub space : IsSpace dir u
  pub inside : (a : ℕ) → va ≤ a → a < va + n * page_size → get_user_phys_from_dir dir a u.mem ≢ 0
  pub outside :
      (a : ℕ) → a < 2 ^ 32 → (a < va) ⊎ (va + n * page_size ≤ a) → SameWalk dir a s.mem u.mem

-- At most one page is free: the one that is handed back when there is none for its page table.
abbrev pub OutOfMemory : Vmm → Type 0
OutOfMemory u = free_pages u.pmm ≤ 1

free_page-few :
    (addr : ℕ) (q : Pmm) → IsValid q → UsedBelow q q.total → free_pages (free_page addr q) ≤ 1
free_page-few addr q v full = elim (free_page_lem addr v) [
  | inl (_, e) ↦ omega (arith, ap free_pages e, free_pages-full v full)
  | inr back ↦ omega (arith, back.one_more, free_pages-full v full)
]

module _ (n va dir : ℕ) (s : Vmm) where
  map_pages-full : alloc_page s.pmm ≡ (0, s.pmm) → map_pages (suc n) va dir s ≡ (false, s)
  unfolding map_pages
  map_pages-full e = ground (arith, e)

  map_pages-stuck :
      (phys : ℕ) (q : Pmm) (u : Vmm)
      → phys ≢ 0
      → alloc_page s.pmm ≡ (phys, q)
      → map_user_page dir va phys (record s { mem = zero_4kb phys s.mem; pmm = q }) ≡ (err_nomem, u)
      → map_pages (suc n) va dir s ≡ (false, record u { pmm = free_page phys u.pmm })
  unfolding map_pages
  map_pages-stuck phys q u some_page e r = ground (arith, some_page, e, r)

  map_pages-later :
      (phys : ℕ) (q : Pmm) (u : Vmm)
      → phys ≢ 0
      → alloc_page s.pmm ≡ (phys, q)
      → map_user_page dir va phys (record s { mem = zero_4kb phys s.mem; pmm = q }) ≡ (mapped, u)
      → map_pages (suc n) va dir s ≡ map_pages n (va + page_size) dir u
  unfolding map_pages
  map_pages-later phys q u some_page e r = ground (arith, some_page, e, r)

Loaded-suc :
    (n va dir phys : ℕ) (s z u w : Vmm)
    → va % 4096 ≡ 0
    → va + suc n * page_size ≤ elf_user_limit
    → phys % 4096 ≡ 0
    → phys ≢ 0
    → ((a : ℕ) → a < 2 ^ 32 → SameWalk dir a s.mem z.mem)
    → Mapped dir va phys z.mem u.mem
    → Loaded n (va + page_size) dir u w
    → Loaded (suc n) va dir s w
Loaded-suc n va dir phys s z u w aligned room whole some_page same step more = record {
  space = more.space;
  inside = λ a lo hi. elim (dec_le (va + page_size) a) [
    | yes later ↦ more.inside a later (omega arith)
    | no here ↦ λ nothing.
        let kept = (more.outside a (omega arith) (inl (omega (arith, here)))).user in
        let is = step.here a (omega arith) (omega (arith, here)) in
        some_page (omega (arith, kept, is, nothing))
  ];
  outside = λ a lt out. SameWalk-trans dir a s.mem z.mem w.mem (same a lt) (
      SameWalk-trans dir a z.mem u.mem w.mem (step.elsewhere a lt (λ e. outside_page a out e))
        (more.outside a lt (outside_rest a out)));
}
  where
    outside_page : (a : ℕ) → (a < va) ⊎ (va + suc n * page_size ≤ a) → a / 4096 ≢ va / 4096
    outside_page a (inl below) e = absurd (omega (arith, below, e))
    outside_page a (inr above) e = absurd (omega (arith, above, e))

    outside_rest :
        (a : ℕ)
        → (a < va) ⊎ (va + suc n * page_size ≤ a)
        → (a < va + page_size) ⊎ (va + page_size + n * page_size ≤ a)
    outside_rest a (inl below) = inl (omega arith)
    outside_rest a (inr above) = inr (omega arith)

-- The next page, and those after it by `more`.
next_page :
    (n va dir page : ℕ) (s : Vmm)
    → IsSpace dir s
    → va % 4096 ≡ 0
    → 0x800000 ≤ va
    → va + suc n * page_size ≤ elf_user_limit
    → (alloc_page s.pmm).0 ≡ page * page_size
    → Handed s.pmm page (alloc_page s.pmm).1
    → ((u : Vmm)
        → IsSpace dir u
        → (((map_pages n (va + page_size) dir u).0 ≡ false)
            × OutOfMemory (map_pages n (va + page_size) dir u).1)
          ⊎ (((map_pages n (va + page_size) dir u).0 ≡ true)
              × Loaded n (va + page_size) dir u (map_pages n (va + page_size) dir u).1))
    → (((map_pages (suc n) va dir s).0 ≡ false) × OutOfMemory (map_pages (suc n) va dir s).1)
      ⊎ (((map_pages (suc n) va dir s).0 ≡ true)
          × Loaded (suc n) va dir s (map_pages (suc n) va dir s).1)
next_page n va dir page s v aligned high room e handed more =
    elim (map_user_page_lem dir va (page * page_size) z z-IsSpace (omega (arith, room))) [
      | inl (low, _) ↦ absurd (omega (arith, high, low))
      | inr (inl (_, full, r)) ↦
          let stuck =
            map_pages-stuck n va dir s (page * page_size) (alloc_page s.pmm).1 z some_page taken
              r in
          inl (
            ap (λ p. p.0) stuck,
            subst (λ p. OutOfMemory p.1) (sym stuck)
                (free_page-few (page * page_size) z.pmm z-IsSpace.pmm_valid full),
          )
      | inr (inr (u, _, r, step, w)) ↦
          let later =
            map_pages-later n va dir s (page * page_size) (alloc_page s.pmm).1 u some_page taken
              r in
          elim (more u w) [
            | inl (stuck, full) ↦
                inl (ap (λ p. p.0) later ∙ stuck, subst (λ p. OutOfMemory p.1) (sym later) full)
            | inr (done, loaded) ↦ inr (
              ap (λ p. p.0) later ∙ done,
              subst (λ p. Loaded (suc n) va dir s p.1) (sym later)
                  (Loaded-suc n va dir (page * page_size) s z u _ aligned room (omega arith)
                    some_page same step loaded),
            )
          ]
    ]
  where
    z : Vmm
    z = cleared dir page s (alloc_page s.pmm).1 v handed

    z-IsSpace : IsSpace dir z
    z-IsSpace = cleared-IsSpace dir page s (alloc_page s.pmm).1 v handed

    same : (a : ℕ) → a < 2 ^ 32 → SameWalk dir a s.mem z.mem
    same = cleared-SameWalk dir page s (alloc_page s.pmm).1 v handed

    taken : alloc_page s.pmm ≡ (page * page_size, (alloc_page s.pmm).1)
    taken = ap (λ k. (k, (alloc_page s.pmm).1)) e

    some_page : page * page_size ≢ 0
    some_page null =
        not_taken dir page s (alloc_page s.pmm).1 v handed 0 v.null_taken (omega (arith, null))

Loaded-zero : (va dir : ℕ) (s : Vmm) → IsSpace dir s → Loaded 0 va dir s s
Loaded-zero va dir s v = record {
  space = v;
  inside = λ a lo hi. absurd (omega arith);
  outside = λ a lt _. record { phys = refl; user = refl };
}

map_pages-zero : (va dir : ℕ) (s : Vmm) → (true, s) ≡ map_pages 0 va dir s
unfolding map_pages
map_pages-zero va dir s = refl

map_pages_lem :
    (n va dir : ℕ) (s : Vmm)
    → IsSpace dir s
    → va % 4096 ≡ 0
    → 0x800000 ≤ va
    → va + n * page_size ≤ elf_user_limit
    → (((map_pages n va dir s).0 ≡ false) × OutOfMemory (map_pages n va dir s).1)
      ⊎ (((map_pages n va dir s).0 ≡ true) × Loaded n va dir s (map_pages n va dir s).1)
map_pages_lem zero va dir s v aligned high room =
    let e = map_pages-zero va dir s in
    inr (sym (ap (λ p. p.0) e), subst (λ p. Loaded 0 va dir s p.1) e (Loaded-zero va dir s v))
map_pages_lem (suc n) va dir s v aligned high room = elim (alloc_page_lem v.pmm_valid) [
  | inl (e, full) ↦
      let stuck = map_pages-full n va dir s e in
      inl (
        ap (λ p. p.0) stuck,
        subst (λ p. OutOfMemory p.1) (sym stuck) (omega (arith, free_pages-full v.pmm_valid full)),
      )
  | inr (page, e, below, handed) ↦
      next_page n va dir page s v aligned high room e handed
        (λ u w. map_pages_lem n (va + page_size) dir u w (omega arith) (omega arith) (omega arith))
]

-- The number of pages of a segment.
abbrev pages : Phdr → ℕ
pages ph = (page_end ph - page_start ph) / page_size

-- Mapping a segment that has passed the checks, in a well-formed space, fails only with at most one
-- page left free; else every address of the segment is open to user code, no page outside
-- those of the segment changes its mapping, and the space is well formed again.
pub map_segment_lem :
    (ph : Phdr) (size dir : ℕ) (s : Vmm)
    → InBounds size ph
    → is_loaded ph ≡ true
    → IsSpace dir s
    → (((map_segment ph dir s).0 ≡ false) × OutOfMemory (map_segment ph dir s).1)
      ⊎ (((map_segment ph dir s).0 ≡ true)
          × IsSpace dir (map_segment ph dir s).1
          × ((a : ℕ)
              → ph.p_vaddr ≤ a
              → a < ph.p_vaddr + ph.p_memsz
              → get_user_phys_from_dir dir a (map_segment ph dir s).1.mem ≢ 0)
          × ((a : ℕ)
              → a < 2 ^ 32
              → (a / 4096 < ph.p_vaddr / 4096) ⊎ (ph.p_vaddr + ph.p_memsz ≤ a / 4096 * 4096)
              → SameWalk dir a s.mem (map_segment ph dir s).1.mem))
unfolding map_segment page_start page_end
map_segment_lem ph size dir s g loaded v =
    elim (map_pages_lem (pages ph) (page_start ph) dir s v (omega arith)
      (omega (arith, g.above_kernel)) (omega (arith, g.below_stack))) [
        | inl (stuck, full) ↦ inl (stuck, full)
        | inr (done, l) ↦ inr (
          done,
          l.space,
          (λ a lo hi. l.inside a (omega arith) (omega (arith, g.below_stack))),
          (λ a lt out. l.outside a lt (far a out)),
        )
      ]
  where
    far :
        (a : ℕ)
        → (a / 4096 < ph.p_vaddr / 4096) ⊎ (ph.p_vaddr + ph.p_memsz ≤ a / 4096 * 4096)
        → (a < page_start ph) ⊎ (page_start ph + pages ph * page_size ≤ a)
    far a (inl below) = inl (omega (arith, below))
    far a (inr above) = inr (omega (arith, above, g.below_stack))
