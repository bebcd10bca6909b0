-- ===== src/Vmm/Directory.antt =====
-- `vmm_create_directory`: a space with the kernel's mappings and nothing for user code.
use native.Mathlib.Decide.{ℕ_discrete, dec_lt}
use null_os.Prelude.{
  ℕ, ◌+◌, ◌*◌, ◌/◌, ◌^◌, ◌≤◌, ◌<◌, ◌≡◌, refl, sym, ap, subst, ◌∙◌, ◌≢◌, ◌⊎◌, inl, inr, arith, true,
  false,
}
use null_os.Pmm.{Pmm, bitmap_test, alloc_page, page_size}
use null_os.Pmm.Count.{IsValid}
use null_os.Pmm.Alloc.{Handed, UsedBelow, alloc_page_lem}
use null_os.Vmm.{
  Memory, Vmm, put, zero_4kb, create_directory, is_present, is_user, frame, dir_index, pte_address,
  identity_end, page_dir_addr, get_phys, get_phys_from_dir, get_user_phys_from_dir,
}
use null_os.Vmm.Words.{put_self, put_ne, zero_4kb-inside, zero_4kb-outside}
use null_os.Vmm.Walk.{IsSpace, pde_at, get_user_phys-nothing, get_phys-same}

-- The kernel's own directory, as `vmm_init` leaves it.
pub record IsKernel (s : Vmm) : Type 0 where
  pub pmm_valid : IsValid s.pmm
  pub null_taken : bitmap_test s.pmm 0 ≡ 1
  pub dir_taken : bitmap_test s.pmm (page_dir_addr / 4096) ≡ 1
  pub tables_taken : (d : ℕ) → d < 2 → bitmap_test s.pmm (pde_at page_dir_addr d s.mem / 4096) ≡ 1
  pub kernel_only : (d : ℕ) → d < 2 → is_user (pde_at page_dir_addr d s.mem) ≡ false
  pub apart : frame (pde_at page_dir_addr 0 s.mem) ≢ frame (pde_at page_dir_addr 1 s.mem)

-- The space at `dir`: the first 8 MB are the kernel's, user code reaches nothing, and the words of
-- other pages stay.
pub record Created (dir : ℕ) (s u : Vmm) : Type 0 where
  pub space : IsSpace dir u
  pub kernel :
      (virt : ℕ) → virt < identity_end → get_phys_from_dir dir virt u.mem ≡ get_phys virt s.mem
  pub no_user : (virt : ℕ) → virt < 2 ^ 32 → get_user_phys_from_dir dir virt u.mem ≡ 0
  pub others : (a : ℕ) → frame a ≢ dir → u.mem a ≡ s.mem a

module _ (page : ℕ) (s : Vmm) (q : Pmm) (k : IsKernel s) (handed : Handed s.pmm page q) where
  dir : ℕ
  dir = page * page_size

  zeroed : Memory
  unfolding dir
  zeroed = zero_4kb dir s.mem

  first : Memory
  unfolding dir zeroed
  first = put dir (zeroed page_dir_addr) zeroed

  cloned : Memory
  unfolding dir first
  cloned = put (dir + 4) (first (page_dir_addr + 4)) first

  not_taken : (j : ℕ) → bitmap_test s.pmm j ≡ 1 → j ≢ page
  not_taken j used e = absurd (omega (arith, used, handed.was_free, ap (bitmap_test s.pmm) e))

  still_taken : (j : ℕ) → bitmap_test s.pmm j ≡ 1 → bitmap_test q j ≡ 1
  still_taken j used = handed.flips.elsewhere j (not_taken j used) ∙ used

  other_words : (a : ℕ) → frame a ≢ dir → cloned a ≡ s.mem a
  unfolding cloned first zeroed dir
  other_words a out =
      put_ne (dir + 4) _ first a (λ e. out (omega (arith, e)))
      ∙ put_ne dir _ zeroed a (λ e. out (omega (arith, e)))
      ∙ zero_4kb-outside dir s.mem a (omega arith) out

  zero_entry : pde_at dir 0 cloned ≡ pde_at page_dir_addr 0 s.mem
  unfolding cloned first zeroed dir
  zero_entry =
      put_ne (dir + 4) _ first (dir + 0 * 4) (λ e. absurd (omega (arith, e)))
      ∙ put_self dir _ zeroed (dir + 0 * 4) (omega arith)
      ∙ zero_4kb-outside dir s.mem page_dir_addr (omega arith)
          (λ e. not_taken 768 k.dir_taken (omega (arith, e)))

  one_entry : pde_at dir 1 cloned ≡ pde_at page_dir_addr 1 s.mem
  unfolding cloned first zeroed dir
  one_entry =
      put_self (dir + 4) _ first (dir + 1 * 4) (omega arith)
      ∙ put_ne dir _ zeroed (page_dir_addr + 4) (λ e. not_taken 768 k.dir_taken (omega (arith, e)))
      ∙ zero_4kb-outside dir s.mem (page_dir_addr + 4) (omega arith)
          (λ e. not_taken 768 k.dir_taken (omega (arith, e)))

  high_entry : (d : ℕ) → 2 ≤ d → d < 1024 → pde_at dir d cloned ≡ 0
  unfolding cloned first zeroed dir
  high_entry d lo lt =
      put_ne (dir + 4) _ first (dir + d * 4) (λ e. absurd (omega (arith, e)))
      ∙ put_ne dir _ zeroed (dir + d * 4) (λ e. absurd (omega (arith, e)))
      ∙ zero_4kb-inside dir s.mem d (dir + d * 4) lt refl

  low_entry : (d : ℕ) → d < 2 → pde_at dir d cloned ≡ pde_at page_dir_addr d s.mem
  low_entry d lt = elim (ℕ_discrete d 0) [
    | yes here ↦
        subst (λ d. pde_at dir d cloned ≡ pde_at page_dir_addr d s.mem) (sym here) zero_entry
    | no positive ↦
        let one : 1 ≡ d = omega (arith, positive) in
        subst (λ d. pde_at dir d cloned ≡ pde_at page_dir_addr d s.mem) one one_entry
  ]

  -- What holds of the kernel's two entries, and of the empty ones, holds of all.
  each_entry :
      (P : ℕ → ℕ → Type 0)
      → ((d : ℕ) → d < 2 → P d (pde_at page_dir_addr d s.mem))
      → ((d : ℕ) → 2 ≤ d → P d 0)
      → (d : ℕ) → d < 1024
      → P d (pde_at dir d cloned)
  each_entry P low high d lt = elim (dec_lt d 2) [
    | yes kernel ↦ subst (P d) (sym (low_entry d kernel)) (low d kernel)
    | no user ↦ subst (P d) (sym (high_entry d (omega arith) lt)) (high d (omega arith))
  ]

  kernel_apart :
      (d e : ℕ)
      → d < 2
      → e < 2
      → frame (pde_at page_dir_addr d s.mem) ≡ frame (pde_at page_dir_addr e s.mem)
      → d ≡ e
  kernel_apart d e lt lt' same = elim (ℕ_discrete d e) [
    | yes here ↦ here
    | no ne ↦ elim (ℕ_discrete d 0) [
      | yes zero_d ↦
          let one_e : e ≡ 1 = omega (arith, ne, zero_d) in
          absurd (
            k.apart (
              subst
                (λ x. frame (pde_at page_dir_addr x s.mem) ≡ frame (pde_at page_dir_addr 1 s.mem))
                zero_d
                (subst
                  (λ y. frame (pde_at page_dir_addr d s.mem) ≡ frame (pde_at page_dir_addr y s.mem))
                  one_e same)))
      | no pos_d ↦
          let one_d : d ≡ 1 = omega (arith, pos_d) in
          let zero_e : e ≡ 0 = omega (arith, ne, one_d) in
          absurd (
            k.apart (
              sym (
                subst
                  (λ x. frame (pde_at page_dir_addr x s.mem) ≡ frame (pde_at page_dir_addr 0 s.mem))
                  one_d
                  (subst
                    (λ y.
                      frame (pde_at page_dir_addr d s.mem) ≡ frame (pde_at page_dir_addr y s.mem))
                    zero_e same))))
    ]
  ]

  not_dir :
      (virt : ℕ)
      → virt < identity_end
      → frame (pte_address (pde_at page_dir_addr (dir_index virt) s.mem) virt) ≢ dir
  unfolding dir
  not_dir virt low e =
      not_taken _ (k.tables_taken (dir_index virt) (omega arith)) (omega (arith, e))

  not_user : (virt : ℕ) → virt < 2 ^ 32 → is_user (pde_at dir (dir_index virt) cloned) ≡ false
  not_user virt lt =
      each_entry (λ d e. is_user e ≡ false) (λ d low. k.kernel_only d low) (λ d lo. refl)
        (dir_index virt) (omega arith)

  cloned-IsSpace : IsSpace dir (record s { mem = cloned; pmm = q })
  unfolding dir
  cloned-IsSpace = record {
    aligned = omega arith;
    pmm_valid = handed.valid;
    null_taken = still_taken 0 k.null_taken;
    dir_taken =
        ap (bitmap_test q) {x = page * page_size / 4096} {y = page} (omega arith)
        ∙ handed.flips.at_page;
    tables_taken =
        each_entry (λ d e. is_present e ≡ true → bitmap_test q (e / 4096) ≡ 1)
          (λ d lt _. still_taken _ (k.tables_taken d lt)) (λ d lo there. absurd (cc (there)));
    apart_dir =
        each_entry (λ d e. is_present e ≡ true → frame e ≢ dir)
          (λ d lt _ e. not_taken _ (k.tables_taken d lt) (omega (arith, e)))
          (λ d lo there. absurd (cc (there)));
    apart = λ d e lt lt'.
        each_entry
          (λ d x.
            is_present x ≡ true
            → is_present (pde_at dir e cloned) ≡ true
            → frame x ≡ frame (pde_at dir e cloned)
            → d ≡ e)
          (λ d low there.
            each_entry
              (λ e y. is_present y ≡ true → frame (pde_at page_dir_addr d s.mem) ≡ frame y → d ≡ e)
              (λ e low' _. kernel_apart d e low low') (λ e lo there'. absurd (cc (there'))) e lt')
          (λ d lo there. absurd (cc (there))) d lt;
    kernel_tables =
        λ d lt. subst (λ e. is_user e ≡ false) (sym (low_entry d lt)) (k.kernel_only d lt);
    user_tables = λ d lo lt.
        subst (λ e. is_present e ≡ true → is_user e ≡ true) (sym (high_entry d lo lt))
          (λ there. absurd (cc (there)));
  }

  cloned-Created : Created dir s (record s { mem = cloned; pmm = q })
  unfolding get_phys
  cloned-Created = record {
    space = cloned-IsSpace;
    kernel = λ virt low.
        get_phys-same dir page_dir_addr virt cloned s.mem
          (pde_at page_dir_addr (dir_index virt) s.mem) (low_entry (dir_index virt) (omega arith))
          refl (other_words _ (not_dir virt low));
    no_user = λ virt lt. get_user_phys-nothing dir virt cloned _ refl (not_user virt lt);
    others = other_words;
  }

create_directory-cloned :
    (page : ℕ) (s : Vmm) (q : Pmm)
    → page ≢ 0
    → page * page_size < identity_end
    → alloc_page s.pmm ≡ (page * page_size, q)
    → (k : IsKernel s) (handed : Handed s.pmm page q)
    → create_directory s
      ≡ (dir page s q k handed, record s { mem = cloned page s q k handed; pmm = q })
unfolding create_directory dir zeroed first cloned
create_directory-cloned page s q not_null low e k handed = ground (arith, not_null, low, e)

create_directory-full : (s : Vmm) → alloc_page s.pmm ≡ (0, s.pmm) → create_directory s ≡ (0, s)
unfolding create_directory
create_directory-full s e = ground (arith, e)

-- `vmm_create_directory` next to a well-formed kernel directory finds all pages in use, returns 0 and
-- changes nothing; or it returns a page directory that is a well-formed space, in which the first 8 MB
-- are mapped as in the kernel's and user code reaches no address, and no word of another page changes.
pub create_directory_lem :
    (s : Vmm)
    → IsKernel s
    → (UsedBelow s.pmm s.pmm.total × (create_directory s ≡ (0, s)))
      ⊎ ((d : ℕ) × (u : Vmm) × (create_directory s ≡ (d, u)) × (d ≢ 0) × Created d s u)
unfolding dir
create_directory_lem s k = elim (alloc_page_lem k.pmm_valid) [
  | inl (e, full) ↦ inl (full, create_directory-full s e)
  | inr (page, e, below, handed) ↦
      let not_null : page ≢ 0 = λ null.
        absurd (omega (arith, handed.was_free, k.null_taken, ap (bitmap_test s.pmm) null)) in
      inr (
        page * page_size,
        _,
        create_directory-cloned page s (alloc_page s.pmm).1 not_null
            (omega (arith, handed.managed, k.pmm_valid.managed))
            (ap (λ a. (a, (alloc_page s.pmm).1)) e) k handed,
        (λ e. not_null (omega (arith, e))),
        cloned-Created page s (alloc_page s.pmm).1 k handed,
      )
]
