-- ===== src/Vmm/Start.antt =====
-- `vmm_init`: the identity map of the first 8 MB.
use native.Mathlib.Decide.{ℕ_discrete, dec_lt}
use null_os.Prelude.{ℕ, ◌+◌, ◌*◌, ◌/◌, ◌^◌, ◌≤◌, ◌<◌, ◌≡◌, refl, sym, ap, subst, ◌∙◌, arith, false}
use null_os.Pmm.{bitmap_test, page_size}
use null_os.Pmm.Count.{IsValid}
use null_os.Vmm.{
  Memory, Vmm, init, put, write_words, zero_4kb, entry, vmm_kernel, is_user, frame, dir_index,
  table_index, pte_address, identity_end, page_dir_addr, page_table_start, get_phys,
  get_user_phys_from_dir,
}
use null_os.Vmm.Words.{
  put_self, put_ne, zero_4kb-inside, zero_4kb-outside, write_words-inside, write_words-outside,
}
use null_os.Vmm.Walk.{pde_at, get_user_phys-nothing, get_phys-entry}
use null_os.Vmm.Directory.{IsKernel}

module _ (s : Vmm) where
  cleared : Memory
  cleared =
      zero_4kb (page_table_start + page_size)
        (zero_4kb page_table_start (zero_4kb page_dir_addr s.mem))

  low : Memory
  unfolding cleared
  low = write_words 1024 0 page_table_start (λ i. i * page_size + vmm_kernel) cleared

  high : Memory
  unfolding low
  high =
      write_words 1024 0 (page_table_start + page_size) (λ i. 0x400000 + i * page_size + vmm_kernel)
        low

  zero_entry : pde_at page_dir_addr 0 (init s).mem ≡ page_table_start + 3
  unfolding init
  zero_entry = put_ne _ _ _ _ (λ e. absurd (omega (arith, e))) ∙ put_self _ _ _ _ refl

  one_entry : pde_at page_dir_addr 1 (init s).mem ≡ page_table_start + page_size + 3
  unfolding init
  one_entry = put_self _ _ _ _ refl

  high_entry : (d : ℕ) → 2 ≤ d → d < 1024 → pde_at page_dir_addr d (init s).mem ≡ 0
  unfolding init high low cleared
  high_entry d lo lt =
      put_ne _ _ (put page_dir_addr (entry page_table_start vmm_kernel) high)
        (page_dir_addr + d * 4) (λ e. absurd (omega (arith, e)))
      ∙ put_ne _ _ high (page_dir_addr + d * 4) (λ e. absurd (omega (arith, e)))
      ∙ write_words-outside (page_table_start + page_size) _ 1024 0 low (page_dir_addr + d * 4)
          (λ j _ hi e. absurd (omega (arith, e)))
      ∙ write_words-outside page_table_start _ 1024 0 cleared (page_dir_addr + d * 4)
          (λ j _ hi e. absurd (omega (arith, e)))
      ∙ zero_4kb-outside (page_table_start + page_size) _ (page_dir_addr + d * 4) refl
          (λ e. absurd (omega (arith, e)))
      ∙ zero_4kb-outside page_table_start _ (page_dir_addr + d * 4) refl
          (λ e. absurd (omega (arith, e)))
      ∙ zero_4kb-inside page_dir_addr s.mem d (page_dir_addr + d * 4) lt refl

  low_word :
      (i : ℕ) → i < 1024 → (init s).mem (page_table_start + i * 4) ≡ i * page_size + vmm_kernel
  unfolding init high low cleared
  low_word i lt =
      put_ne _ _ (put page_dir_addr (entry page_table_start vmm_kernel) high)
        (page_table_start + i * 4) (λ e. absurd (omega (arith, e)))
      ∙ put_ne _ _ high (page_table_start + i * 4) (λ e. absurd (omega (arith, e)))
      ∙ write_words-outside (page_table_start + page_size) _ 1024 0 low (page_table_start + i * 4)
          (λ j _ hi e. absurd (omega (arith, e)))
      ∙ write_words-inside page_table_start (λ i. i * page_size + vmm_kernel) 1024 0 cleared i
          (page_table_start + i * 4) (omega arith) (omega arith) refl

  high_word :
      (i : ℕ)
      → i < 1024
      → (init s).mem (page_table_start + page_size + i * 4) ≡ 0x400000 + i * page_size + vmm_kernel
  unfolding init high low cleared
  high_word i lt =
      put_ne _ _ (put page_dir_addr (entry page_table_start vmm_kernel) high)
        (page_table_start + page_size + i * 4) (λ e. absurd (omega (arith, e)))
      ∙ put_ne _ _ high (page_table_start + page_size + i * 4) (λ e. absurd (omega (arith, e)))
      ∙ write_words-inside (page_table_start + page_size)
          (λ i. 0x400000 + i * page_size + vmm_kernel) 1024 0 low i
          (page_table_start + page_size + i * 4) (omega arith) (omega arith) refl

  low_entry :
      (d : ℕ) → d < 2 → pde_at page_dir_addr d (init s).mem ≡ page_table_start + d * page_size + 3
  low_entry d lt = elim (ℕ_discrete d 0) [
    | yes here ↦
        subst (λ d. pde_at page_dir_addr d (init s).mem ≡ page_table_start + d * page_size + 3)
          (sym here) zero_entry
    | no positive ↦
        let one : 1 ≡ d = omega (arith, positive) in
        subst (λ d. pde_at page_dir_addr d (init s).mem ≡ page_table_start + d * page_size + 3) one
          one_entry
  ]

  mapped_word :
      (virt : ℕ)
      → virt < identity_end
      → (init s).mem (pte_address (page_table_start + dir_index virt * page_size + 3) virt)
        ≡ frame virt + vmm_kernel
  mapped_word virt inside = elim (ℕ_discrete (dir_index virt) 0) [
    | yes first ↦
        ap (init s).mem {x = pte_address (page_table_start + dir_index virt * page_size + 3) virt}
          {y = page_table_start + table_index virt * 4} (omega (arith, first))
        ∙ low_word (table_index virt) (omega arith)
        ∙ omega (arith, first)
    | no second ↦
        ap (init s).mem {x = pte_address (page_table_start + dir_index virt * page_size + 3) virt}
          {y = page_table_start + page_size + table_index virt * 4} (omega (arith, second))
        ∙ high_word (table_index virt) (omega arith)
        ∙ omega (arith, second)
  ]

  pmm-init : (init s).pmm ≡ s.pmm
  unfolding init
  pmm-init = refl

  -- `vmm_init`, with every page below 4 MB in use in a valid page allocator, leaves a well-formed kernel directory: each address below 8 MB is mapped to itself, and
  -- user code reaches no address.
  pub init-IsKernel :
      IsValid s.pmm
      → ((page : ℕ) → page < 1024 → bitmap_test s.pmm page ≡ 1)
      → IsKernel (init s)
        × ((virt : ℕ) → virt < identity_end → get_phys virt (init s).mem ≡ virt)
        × ((virt : ℕ) → virt < 2 ^ 32 → get_user_phys_from_dir page_dir_addr virt (init s).mem ≡ 0)
  unfolding get_phys
  init-IsKernel valid reserved = (
    record {
      pmm_valid = pmm_valid;
      null_taken = reserved_page 0 (omega arith);
      dir_taken = reserved_page 768 (omega arith);
      tables_taken = λ d lt.
          subst (λ e. bitmap_test (init s).pmm (e / 4096) ≡ 1) (sym (low_entry d lt))
            (reserved_page _ (omega arith));
      kernel_only = λ d lt. subst (λ e. is_user e ≡ false) (sym (low_entry d lt)) (ground arith);
      apart = λ e. absurd (omega (arith, zero_entry, one_entry, e));
    },
    (λ virt inside.
        get_phys-entry page_dir_addr virt (init s).mem _ (frame virt + vmm_kernel)
          (low_entry (dir_index virt) (omega arith)) (mapped_word virt inside) (ground arith)
          (ground arith)
        ∙ omega arith),
    (λ virt lt. elim (dec_lt (dir_index virt) 2) [
      | yes kernel ↦
          get_user_phys-nothing page_dir_addr virt (init s).mem _
            (low_entry (dir_index virt) kernel) (ground arith)
      | no beyond ↦
          get_user_phys-nothing page_dir_addr virt (init s).mem 0
            (high_entry (dir_index virt) (omega (arith, beyond)) (omega arith)) refl
    ]),
  )
    where
      pmm_valid : IsValid (init s).pmm
      pmm_valid = subst IsValid (sym pmm-init) valid

      reserved_page : (page : ℕ) → page < 1024 → bitmap_test (init s).pmm page ≡ 1
      reserved_page page lt = ap (λ p. bitmap_test p page) pmm-init ∙ reserved page lt
