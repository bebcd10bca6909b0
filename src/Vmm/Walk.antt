-- ===== src/Vmm/Walk.antt =====
-- Walks of a page directory, and the spaces in which page tables do not overlap.
use null_os.Prelude.{
  ℕ, ◌+◌, ◌*◌, ◌/◌, ◌%◌, ◌≤◌, ◌<◌, ◌≡◌, refl, sym, ap, ◌∙◌, ◌≢◌, arith, true, false, Bool-cases,
  inl, inr, ◌&&◌, if◌then◌else◌,
}
use null_os.Pmm.{bitmap_test}
use null_os.Vmm.{
  Memory, Vmm, is_present, is_user, frame, pde_address, pte_address, get_phys_from_dir,
  get_user_phys_from_dir,
}
use null_os.Pmm.Count.{IsValid}

-- What a walk that ends in these two entries gives.
phys_of : (pde pte virt : ℕ) → ℕ
phys_of pde pte virt =
    if is_present pde then if is_present pte then frame pte + virt % 4096 else 0 else 0

user_of : (pde pte virt : ℕ) → ℕ
user_of pde pte virt =
    if is_present pde && is_user pde
    then if is_present pte && is_user pte then frame pte + virt % 4096 else 0
    else 0

-- A walk of `virt` gives the same in both memories.
pub record SameWalk (dir virt : ℕ) (m m' : Memory) : Type 0 where
  pub phys : get_phys_from_dir dir virt m' ≡ get_phys_from_dir dir virt m
  pub user : get_user_phys_from_dir dir virt m' ≡ get_user_phys_from_dir dir virt m

of_absent :
    (pde pte pte' virt : ℕ) → is_present pde ≡ false → phys_of pde pte virt ≡ phys_of pde pte' virt
unfolding phys_of
of_absent pde pte pte' virt absent = ground (arith, absent)

of_absent_user :
    (pde pte pte' virt : ℕ) → is_present pde ≡ false → user_of pde pte virt ≡ user_of pde pte' virt
unfolding user_of
of_absent_user pde pte pte' virt absent = ground (arith, absent)

-- The same directory entry, and the same table entry if there is a table.
pub SameWalk-entries :
    (dir virt : ℕ) (m m' : Memory)
    → m' (pde_address dir virt) ≡ m (pde_address dir virt)
    → (is_present (m (pde_address dir virt)) ≡ true
        → m' (pte_address (m (pde_address dir virt)) virt)
          ≡ m (pte_address (m (pde_address dir virt)) virt))
    → SameWalk dir virt m m'
unfolding get_phys_from_dir get_user_phys_from_dir phys_of user_of
SameWalk-entries dir virt m m' same_pde same_pte = elim (Bool-cases (is_present pde)) [
  | inl present ↦ record {
    phys =
        ap (λ e. phys_of e (m' (pte_address e virt)) virt) same_pde
        ∙ ap (λ e. phys_of pde e virt) (same_pte present);
    user =
        ap (λ e. user_of e (m' (pte_address e virt)) virt) same_pde
        ∙ ap (λ e. user_of pde e virt) (same_pte present);
  }
  | inr absent ↦ record {
    phys =
        ap (λ e. phys_of e (m' (pte_address e virt)) virt) same_pde
        ∙ of_absent pde (m' (pte_address pde virt)) (m (pte_address pde virt)) virt absent;
    user =
        ap (λ e. user_of e (m' (pte_address e virt)) virt) same_pde
        ∙ of_absent_user pde (m' (pte_address pde virt)) (m (pte_address pde virt)) virt absent;
  }
]
  where
    pde : ℕ
    pde = m (pde_address dir virt)

pub SameWalk-trans :
    (dir virt : ℕ) (m m' m'' : Memory)
    → SameWalk dir virt m m'
    → SameWalk dir virt m' m''
    → SameWalk dir virt m m''
SameWalk-trans dir virt m m' m'' first second = record {
  phys = second.phys ∙ first.phys;
  user = second.user ∙ first.user;
}

-- The directory entry `d`.
abbrev pub pde_at : (dir d : ℕ) → Memory → ℕ
pde_at dir d m = m (dir + d * 4)

-- A page directory whose tables are pages of their own, all of them taken from the page allocator.
pub record IsSpace (dir : ℕ) (s : Vmm) : Type 0 where
  pub aligned : dir % 4096 ≡ 0
  pub pmm_valid : IsValid s.pmm
  pub null_taken : bitmap_test s.pmm 0 ≡ 1
  pub dir_taken : bitmap_test s.pmm (dir / 4096) ≡ 1
  pub tables_taken :
      (d : ℕ)
      → d < 1024
      → is_present (pde_at dir d s.mem) ≡ true
      → bitmap_test s.pmm (pde_at dir d s.mem / 4096) ≡ 1
  pub apart_dir :
      (d : ℕ) → d < 1024 → is_present (pde_at dir d s.mem) ≡ true → frame (pde_at dir d s.mem) ≢ dir
  pub apart :
      (d e : ℕ)
      → d < 1024
      → e < 1024
      → is_present (pde_at dir d s.mem) ≡ true
      → is_present (pde_at dir e s.mem) ≡ true
      → frame (pde_at dir d s.mem) ≡ frame (pde_at dir e s.mem)
      → d ≡ e
  pub kernel_tables : (d : ℕ) → d < 2 → is_user (pde_at dir d s.mem) ≡ false
  pub user_tables :
      (d : ℕ)
      → 2 ≤ d
      → d < 1024
      → is_present (pde_at dir d s.mem) ≡ true
      → is_user (pde_at dir d s.mem) ≡ true

-- A walk that ends in a present user entry gives the page of that entry.
pub get_user_phys-entry :
    (dir virt : ℕ) (m : Memory) (pde pte : ℕ)
    → m (pde_address dir virt) ≡ pde
    → m (pte_address pde virt) ≡ pte
    → is_present pde && is_user pde ≡ true
    → is_present pte && is_user pte ≡ true
    → get_user_phys_from_dir dir virt m ≡ frame pte + virt % 4096
unfolding get_user_phys_from_dir user_of
get_user_phys-entry dir virt m pde pte is_pde is_pte user user' =
    ap (λ e. user_of e (m (pte_address e virt)) virt) is_pde
    ∙ ap (λ e. user_of pde e virt) is_pte
    ∙ both user user'
  where
    both :
        is_present pde && is_user pde ≡ true
        → is_present pte && is_user pte ≡ true
        → user_of pde pte virt ≡ frame pte + virt % 4096
    both user user' = rw (user, user') refl

-- A table with no entry gives what no table gives.
pub SameWalk-empty :
    (dir virt : ℕ) (m m' : Memory) (e : ℕ)
    → is_present (m (pde_address dir virt)) ≡ false
    → m' (pde_address dir virt) ≡ e
    → m' (pte_address e virt) ≡ 0
    → SameWalk dir virt m m'
unfolding get_phys_from_dir get_user_phys_from_dir phys_of user_of
SameWalk-empty dir virt m m' e absent is_pde is_pte = record {
  phys =
      ap (λ e. phys_of e (m' (pte_address e virt)) virt) is_pde
      ∙ ap (λ w. phys_of e w virt) is_pte
      ∙ nothing
      ∙ sym (nothing_there (m (pte_address (m (pde_address dir virt)) virt)));
  user =
      ap (λ e. user_of e (m' (pte_address e virt)) virt) is_pde
      ∙ ap (λ w. user_of e w virt) is_pte
      ∙ nothing_user
      ∙ sym (nothing_there_user (m (pte_address (m (pde_address dir virt)) virt)));
}
  where
    nothing : phys_of e 0 virt ≡ 0
    nothing = ground arith

    nothing_user : user_of e 0 virt ≡ 0
    nothing_user = ground arith

    nothing_there : (w : ℕ) → phys_of (m (pde_address dir virt)) w virt ≡ 0
    nothing_there w = ground (arith, absent)

    nothing_there_user : (w : ℕ) → user_of (m (pde_address dir virt)) w virt ≡ 0
    nothing_there_user w = ground (arith, absent)

-- Without a user entry in the directory there is nothing for user code.
pub get_user_phys-nothing :
    (dir virt : ℕ) (m : Memory) (pde : ℕ)
    → m (pde_address dir virt) ≡ pde
    → is_user pde ≡ false
    → get_user_phys_from_dir dir virt m ≡ 0
unfolding get_user_phys_from_dir user_of
get_user_phys-nothing dir virt m pde is_pde kernel =
    ap (λ e. user_of e (m (pte_address e virt)) virt) is_pde ∙ nothing (m (pte_address pde virt))
  where
    nothing : (w : ℕ) → user_of pde w virt ≡ 0
    nothing w = ground (arith, kernel)

-- Two directories, of two memories, with the same entries for `virt`.
pub get_phys-same :
    (dir dir' virt : ℕ) (m m' : Memory) (pde : ℕ)
    → m (pde_address dir virt) ≡ pde
    → m' (pde_address dir' virt) ≡ pde
    → m (pte_address pde virt) ≡ m' (pte_address pde virt)
    → get_phys_from_dir dir virt m ≡ get_phys_from_dir dir' virt m'
unfolding get_phys_from_dir phys_of
get_phys-same dir dir' virt m m' pde here there same =
    ap (λ e. phys_of e (m (pte_address e virt)) virt) here
    ∙ ap (λ w. phys_of pde w virt) same
    ∙ sym (ap (λ e. phys_of e (m' (pte_address e virt)) virt) there)

pub get_phys-entry :
    (dir virt : ℕ) (m : Memory) (pde pte : ℕ)
    → m (pde_address dir virt) ≡ pde
    → m (pte_address pde virt) ≡ pte
    → is_present pde ≡ true
    → is_present pte ≡ true
    → get_phys_from_dir dir virt m ≡ frame pte + virt % 4096
unfolding get_phys_from_dir phys_of
get_phys-entry dir virt m pde pte is_pde is_pte there there' =
    ap (λ e. phys_of e (m (pte_address e virt)) virt) is_pde
    ∙ ap (λ e. phys_of pde e virt) is_pte
    ∙ both there there'
  where
    both :
        is_present pde ≡ true
        → is_present pte ≡ true
        → phys_of pde pte virt ≡ frame pte + virt % 4096
    both there there' = rw (there, there') refl
