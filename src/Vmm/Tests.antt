-- ===== src/Vmm/Tests.antt =====
-- Tests of kernel/memory/vmm.c, and its theorems at concrete inputs.
use native.Mathlib.Decide.{ℕ_discrete, dec_lt}
use null_os.Prelude.{
  ℕ, ◌*◌, ◌^◌, ◌≤◌, ◌<◌, ◌≡◌, refl, sym, ap, subst, ◌∙◌, ◌≢◌, ◌⊎◌, inl, inr, arith, [],
}
use null_os.Pmm.{Pmm, bitmap_test, page_size}
use null_os.Pmm.Alloc.{UsedBelow}
use null_os.Pmm.Init.{init_fallback}
use null_os.Pmm.Bitmap.{test-le_one}
use null_os.Vmm.{
  Vmm, mapped, err_range, err_nomem, init, create_directory, map_user_page, get_phys,
  get_user_phys_from_dir, identity_end, page_dir_addr, page_table_start,
}
use null_os.Vmm.Walk.{IsSpace}
use null_os.Vmm.Map.{Mapped}
use null_os.Vmm.User.{map_user_page_lem}
use null_os.Vmm.Directory.{IsKernel, Created, create_directory_lem}
use null_os.Vmm.Start.{init-IsKernel}

abbrev pub reset_state : Vmm
reset_state = record { mem = λ a. a * 7; pt_next = page_table_start; pmm = null_os.Pmm.init [] }

total_pages : 2047 < reset_state.pmm.total
total_pages = elim (dec_lt 2047 reset_state.pmm.total) [
  | yes all ↦ all
  | no few ↦
      absurd
        (init_fallback.unmanaged 2047 (omega (arith, few)) (omega arith) (omega arith, omega arith))
]

low_taken : (page : ℕ) → page < 1024 → bitmap_test reset_state.pmm page ≡ 1
low_taken page lt = elim (ℕ_discrete (bitmap_test reset_state.pmm page) 0) [
  | yes free ↦
      absurd (
        omega
          (arith, lt, ((init_fallback.free_iff page (omega (arith, lt, total_pages))).0 free).0))
  | no used ↦ omega (arith, used, test-le_one reset_state.pmm page)
]

started-IsKernel : IsKernel (init reset_state)
started-IsKernel = (init-IsKernel reset_state init_fallback.valid low_taken).0

init-IsKernel_example :
    IsKernel (init reset_state)
    × ((virt : ℕ) → virt < identity_end → get_phys virt (init reset_state).mem ≡ virt)
    × ((virt : ℕ)
        → virt < 2 ^ 32
        → get_user_phys_from_dir page_dir_addr virt (init reset_state).mem ≡ 0)
init-IsKernel_example = init-IsKernel reset_state init_fallback.valid low_taken

abbrev pub started : Vmm
started = init reset_state

pmm-init : started.pmm ≡ reset_state.pmm
unfolding init
pmm-init = refl

create_directory_lem_example :
    (UsedBelow started.pmm started.pmm.total × (create_directory started ≡ (0, started)))
    ⊎ ((d : ℕ) × (u : Vmm) × (create_directory started ≡ (d, u)) × (d ≢ 0) × Created d started u)
create_directory_lem_example = create_directory_lem started started-IsKernel

-- The address space of a first process.
abbrev pub space : ℕ × Vmm
space = create_directory started

pub space-IsSpace : IsSpace space.0 space.1
space-IsSpace = elim (create_directory_lem started started-IsKernel) [
  | inl (full, e) ↦ absurd (full 1024 inside (omega (arith, inside)) free)
  | inr (d, u, e, some_page, c) ↦ subst (λ r. IsSpace r.0 r.1) (sym e) c.space
]
  where
    inside : 1024 < started.pmm.total
    inside = subst (λ p. 1024 < p.total) (sym pmm-init) (omega (arith, total_pages))

    free : bitmap_test started.pmm 1024 ≡ 0
    free =
        ap (λ p. bitmap_test p 1024) pmm-init
        ∙ (init_fallback.free_iff 1024 (omega (arith, total_pages))).1
            (omega arith, (omega arith, omega arith))

map_user_page_lem_example :
    ((0x800123 < identity_end)
      × (map_user_page space.0 0x800123 0x500000 space.1 ≡ (err_range, space.1)))
    ⊎ ((identity_end ≤ 0x800123)
        × UsedBelow space.1.pmm space.1.pmm.total
        × (map_user_page space.0 0x800123 0x500000 space.1 ≡ (err_nomem, space.1)))
    ⊎ ((u : Vmm) × (identity_end ≤ 0x800123)
        × (map_user_page space.0 0x800123 0x500000 space.1 ≡ (mapped, u))
        × Mapped space.0 0x800123 0x500000 space.1.mem u.mem
        × IsSpace space.0 u)
map_user_page_lem_example =
    map_user_page_lem space.0 0x800123 0x500000 space.1 space-IsSpace (omega arith)
