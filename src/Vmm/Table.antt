-- ===== src/Vmm/Table.antt =====
-- A new page table in a directory: no walk changes, and the space stays well formed.
use native.Mathlib.Decide.{ℕ_discrete}
use null_os.Prelude.{
  ℕ, ◌+◌, ◌*◌, ◌/◌, ◌%◌, ◌^◌, ◌≤◌, ◌<◌, ◌≡◌, refl, sym, ap, subst, ◌∙◌, ◌≢◌, arith, true, false,
}
use null_os.Pmm.{Pmm, bitmap_test}
use null_os.Pmm.Count.{IsValid, Flips}
use null_os.Vmm.{
  Memory, Vmm, zero_4kb, install_table, is_present, is_user, frame, dir_index, table_index,
  pde_address, pte_address, entry, user_flags,
}
use null_os.Vmm.Words.{put_self, put_ne, zero_4kb-inside, zero_4kb-outside}
use null_os.Vmm.Walk.{IsSpace, SameWalk, SameWalk-entries, SameWalk-empty, pde_at}

module _ (dir virt pt : ℕ) (s : Vmm) (q : Pmm) (v : IsSpace dir s) (small : virt < 2 ^ 32)
    (high : 0x800000 ≤ virt) (absent : is_present (s.mem (pde_address dir virt)) ≡ false)
    (aligned : pt % 4096 ≡ 0) (was_free : bitmap_test s.pmm (pt / 4096) ≡ 0)
    (taken : Flips (pt / 4096) 1 s.pmm q) (q-IsValid : IsValid q) where
  abbrev pub installed : Memory
  unfolding install_table
  installed = install_table dir virt pt s.mem

  not_dir : pt ≢ dir
  not_dir e =
      absurd (omega (arith, was_free, v.dir_taken, ap (λ d. bitmap_test s.pmm (d / 4096)) e))

  not_table :
      (d : ℕ) → d < 1024 → is_present (pde_at dir d s.mem) ≡ true → frame (pde_at dir d s.mem) ≢ pt
  not_table d lt there e = absurd (
      omega (
        arith,
        was_free,
        v.tables_taken d lt there,
        ap (bitmap_test s.pmm) {x = pde_at dir d s.mem / 4096} {y = pt / 4096} (omega (arith, e)),
      ))

  pub installed_self : installed (pde_address dir virt) ≡ entry pt user_flags
  unfolding install_table
  installed_self = put_self (pde_address dir virt) (entry pt user_flags) (zero_4kb pt s.mem) _ refl

  installed_ne :
      (d : ℕ) → d < 1024 → d ≢ dir_index virt → pde_at dir d installed ≡ pde_at dir d s.mem
  unfolding install_table
  installed_ne d lt ne =
      put_ne (pde_address dir virt) (entry pt user_flags) (zero_4kb pt s.mem) _
        (λ e. ne (omega (arith, e)))
      ∙ zero_4kb-outside pt s.mem _ aligned (λ e. not_dir (omega (arith, e, v.aligned, lt)))

  -- A word of the new table, and one of another page that is not the directory.
  installed_new : (i : ℕ) → i < 1024 → installed (pt + i * 4) ≡ 0
  unfolding install_table
  installed_new i lt =
      put_ne (pde_address dir virt) (entry pt user_flags) (zero_4kb pt s.mem) _
        (λ e. not_dir (omega (arith, e, aligned, v.aligned)))
      ∙ zero_4kb-inside pt s.mem i _ lt refl

  installed_old : (a : ℕ) → frame a ≢ dir → frame a ≢ pt → installed a ≡ s.mem a
  unfolding install_table
  installed_old a out out' =
      put_ne (pde_address dir virt) (entry pt user_flags) (zero_4kb pt s.mem) a
        (λ e. out (omega (arith, e, v.aligned)))
      ∙ zero_4kb-outside pt s.mem a aligned out'

  pub installed-SameWalk : (a : ℕ) → a < 2 ^ 32 → SameWalk dir a s.mem installed
  installed-SameWalk a lt = elim (ℕ_discrete (dir_index a) (dir_index virt)) [
    | yes same ↦
        SameWalk-empty dir a s.mem installed (entry pt user_flags)
          (subst (λ d. is_present (s.mem (dir + d * 4)) ≡ false) (sym same) absent)
          (ap (λ d. installed (dir + d * 4)) same ∙ installed_self)
          (ap installed {x = pte_address (entry pt user_flags) a} {y = pt + table_index a * 4}
              (omega (arith, aligned))
            ∙ installed_new (table_index a) (omega arith))
    | no other ↦
        SameWalk-entries dir a s.mem installed (installed_ne (dir_index a) (omega arith) other)
          (λ there.
            installed_old (pte_address (s.mem (pde_address dir a)) a)
              (λ e. v.apart_dir (dir_index a) (omega arith) there (omega (arith, e)))
              (λ e. not_table (dir_index a) (omega arith) there (omega (arith, e))))
  ]

  -- What holds of the new entry and of the old ones holds of all.
  each_entry :
      (P : ℕ → ℕ → Type 0)
      → P (dir_index virt) (entry pt user_flags)
      → ((d : ℕ) → d < 1024 → d ≢ dir_index virt → P d (pde_at dir d s.mem))
      → (d : ℕ) → d < 1024
      → P d (pde_at dir d installed)
  each_entry P new old d lt = elim (ℕ_discrete d (dir_index virt)) [
    | yes same ↦
        subst (λ k. P k (pde_at dir k installed)) (sym same)
          (subst (P (dir_index virt)) (sym installed_self) new)
    | no other ↦ subst (P d) (sym (installed_ne d lt other)) (old d lt other)
  ]

  still_taken : (j : ℕ) → bitmap_test s.pmm j ≡ 1 → bitmap_test q j ≡ 1
  still_taken j used =
      taken.elsewhere j (λ e. absurd (omega (arith, was_free, used, ap (bitmap_test s.pmm) e)))
      ∙ used

  pub installed-IsSpace : IsSpace dir (record s { mem = installed; pmm = q })
  installed-IsSpace = record {
    aligned = v.aligned;
    pmm_valid = q-IsValid;
    null_taken = still_taken 0 v.null_taken;
    dir_taken = still_taken (dir / 4096) v.dir_taken;
    tables_taken =
        each_entry (λ d e. is_present e ≡ true → bitmap_test q (e / 4096) ≡ 1)
          (λ _.
            ap (bitmap_test q) {x = entry pt user_flags / 4096} {y = pt / 4096}
              (omega (arith, aligned))
            ∙ taken.at_page)
          (λ d lt other there. still_taken (pde_at dir d s.mem / 4096) (v.tables_taken d lt there));
    apart_dir =
        each_entry (λ d e. is_present e ≡ true → frame e ≢ dir)
          (λ _ e. not_dir (omega (arith, e, aligned))) (λ d lt other. v.apart_dir d lt);
    apart = λ d e lt lt'.
        each_entry
          (λ d x.
            is_present x ≡ true
            → is_present (pde_at dir e installed) ≡ true
            → frame x ≡ frame (pde_at dir e installed)
            → d ≡ e)
          (each_entry
            (λ k y.
              is_present (entry pt user_flags) ≡ true
              → is_present y ≡ true
              → frame (entry pt user_flags) ≡ frame y
              → dir_index virt ≡ k)
            (λ _ _ _. refl)
            (λ k ltk other _ there same.
              absurd (not_table k ltk there (omega (arith, same, aligned))))
            e lt')
          (λ d ltd other.
            each_entry
              (λ k y.
                is_present (pde_at dir d s.mem) ≡ true
                → is_present y ≡ true
                → frame (pde_at dir d s.mem) ≡ frame y
                → d ≡ k)
              (λ there _ same. absurd (not_table d ltd there (omega (arith, same, aligned))))
              (λ k ltk _. v.apart d k ltd ltk) e lt')
          d lt;
    kernel_tables = λ d lt.
        subst (λ e. is_user e ≡ false)
          (sym (installed_ne d (omega arith) (λ e. absurd (omega (arith, e, high)))))
          (v.kernel_tables d lt);
    user_tables = λ d lo lt.
        each_entry (λ d e. 2 ≤ d → is_present e ≡ true → is_user e ≡ true)
          (λ _ _. ground (arith, aligned)) (λ d lt other lo'. v.user_tables d lo' lt) d lt lo;
  }
