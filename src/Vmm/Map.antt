-- ===== src/Vmm/Map.antt =====
-- A page-table entry is written: only the page that it is of changes.
use null_os.Prelude.{
  ℕ, ◌+◌, ◌*◌, ◌/◌, ◌%◌, ◌^◌, ◌≤◌, ◌<◌, ◌≡◌, sym, ap, subst, ◌∙◌, ◌≢◌, arith, true, false, ◌&&◌,
}
use null_os.Pmm.{bitmap_test}
use null_os.Vmm.{
  Memory, Vmm, put, is_present, is_user, frame, dir_index, pde_address, pte_address, entry,
  user_flags, get_user_phys_from_dir,
}
use null_os.Vmm.Words.{put_self, put_ne}
use null_os.Vmm.Walk.{IsSpace, SameWalk, SameWalk-entries, pde_at, get_user_phys-entry}

-- The directory is what a space is made of.
pub IsSpace-same :
    (dir : ℕ) (s : Vmm) (m' : Memory)
    → IsSpace dir s
    → ((d : ℕ) → d < 1024 → pde_at dir d m' ≡ pde_at dir d s.mem)
    → IsSpace dir (record s { mem = m' })
IsSpace-same dir s m' v same = record {
  aligned = v.aligned;
  pmm_valid = v.pmm_valid;
  null_taken = v.null_taken;
  dir_taken = v.dir_taken;
  tables_taken = λ d lt.
      subst (λ e. is_present e ≡ true → bitmap_test s.pmm (e / 4096) ≡ 1) (sym (same d lt))
        (v.tables_taken d lt);
  apart_dir =
      λ d lt. subst (λ e. is_present e ≡ true → frame e ≢ dir) (sym (same d lt)) (v.apart_dir d lt);
  apart = λ d e lt lt'.
      subst
        (λ x.
          is_present x ≡ true
          → is_present (pde_at dir e m') ≡ true
          → frame x ≡ frame (pde_at dir e m')
          → d ≡ e)
        (sym (same d lt))
        (subst
          (λ y.
            is_present (pde_at dir d s.mem) ≡ true
            → is_present y ≡ true
            → frame (pde_at dir d s.mem) ≡ frame y
            → d ≡ e)
          (sym (same e lt')) (v.apart d e lt lt'));
  kernel_tables =
      λ d lt. subst (λ e. is_user e ≡ false) (sym (same d (omega arith))) (v.kernel_tables d lt);
  user_tables = λ d lo lt.
      subst (λ e. is_present e ≡ true → is_user e ≡ true) (sym (same d lt)) (v.user_tables d lo lt);
}

entry-flags :
    (phys : ℕ) → is_present (entry phys user_flags) && is_user (entry phys user_flags) ≡ true
entry-flags phys = ground arith

-- What mapping `virt` to the page of `phys` does to the walks of a directory.
pub record Mapped (dir virt phys : ℕ) (m m' : Memory) : Type 0 where
  pub here :
      (a : ℕ)
      → a < 2 ^ 32
      → a / 4096 ≡ virt / 4096
      → get_user_phys_from_dir dir a m' ≡ frame phys + a % 4096
  pub elsewhere : (a : ℕ) → a < 2 ^ 32 → a / 4096 ≢ virt / 4096 → SameWalk dir a m m'

module _ (dir virt phys : ℕ) (s : Vmm) (v : IsSpace dir s) (small : virt < 2 ^ 32) where
  abbrev pub pde : ℕ
  pde = s.mem (pde_address dir virt)

  abbrev pub written : Memory
  written = put (pte_address pde virt) (entry phys user_flags) s.mem

  module _ (present : is_present pde ≡ true) where
    own_table : frame pde ≢ dir
    own_table = v.apart_dir (dir_index virt) (omega arith) present

    same_dir : (d : ℕ) → d < 1024 → pde_at dir d written ≡ pde_at dir d s.mem
    same_dir d lt = put_ne _ _ s.mem _ (λ e. own_table (omega (arith, e, v.aligned)))

    -- Another page of the same table, or a page of another one.
    elsewhere_walk : (a : ℕ) → a < 2 ^ 32 → a / 4096 ≢ virt / 4096 → SameWalk dir a s.mem written
    elsewhere_walk a lt ne =
        SameWalk-entries dir a s.mem written (same_dir (dir_index a) (omega arith)) (λ there.
          put_ne _ _ s.mem _ (λ e.
            let same_table : frame (s.mem (pde_address dir a)) ≡ frame pde = omega (arith, e) in
            let same_index =
              v.apart (dir_index a) (dir_index virt) (omega arith) (omega arith) there present
                same_table in
            ne (omega (arith, e, same_table, same_index))))

    here_walk :
        0x800000 ≤ virt
        → (a : ℕ) → a < 2 ^ 32
        → a / 4096 ≡ virt / 4096
        → get_user_phys_from_dir dir a written ≡ frame phys + a % 4096
    here_walk high a lt same =
        let is_pde : s.mem (pde_address dir a) ≡ pde =
          ap (λ d. s.mem (dir + d * 4)) {x = dir_index a} {y = dir_index virt}
            (omega (arith, same)) in
        let user = v.user_tables (dir_index virt) (omega arith) (omega arith) present in
        get_user_phys-entry dir a written pde (entry phys user_flags)
          (same_dir (dir_index a) (omega arith) ∙ is_pde)
          (put_self _ _ s.mem _ (omega (arith, same))) (ground (arith, present, user))
          (entry-flags phys)
        ∙ ap (λ f. f + a % 4096) {x = frame (entry phys user_flags)} {y = frame phys} (omega arith)

    pub write-Mapped :
        0x800000 ≤ virt
        → Mapped dir virt phys s.mem written × IsSpace dir (record s { mem = written })
    write-Mapped high = (
      record { here = here_walk high; elsewhere = elsewhere_walk },
      IsSpace-same dir s written v same_dir,
    )
