-- ===== src/Process/Pids.antt =====
-- Process ids: a slot is in use exactly when its pid is not 0, and no two slots share a pid.
use native.Mathlib.Decide.{ℕ_discrete, dec_le}
use null_os.Prelude.{
  ℕ, ◌+◌, ◌-◌, ◌%◌, ◌^◌, ◌≤◌, ◌<◌, ◌≡◌, refl, sym, ap, subst, ◌∙◌, ◌≢◌, ◌⊎◌, inl, inr, arith, true,
  false, none, some, length, map, modify, ◌==◌, length-modify, length-map, get_or_beyond,
}
use null_os.Process.{
  Table, Process, blocked, empty_slot, at, is_unused, claim_slot, alloc_pid, process_max,
}
use null_os.Process.Slots.{at-written_self, at-written_ne, at_mapped, find_unused-cases}

abbrev pub InUse : Process → Type 0
InUse p = is_unused p.state ≡ false

pub record IsValid (t : Table) : Type 0 where
  pub size : length t.procs ≡ process_max
  pub next_pos : 1 ≤ t.next_pid
  pub next_fits : t.next_pid < 2 ^ 32
  pub below_next : (i : ℕ) → (at t i).pid < t.next_pid
  pub used_iff : (i : ℕ) → is_unused (at t i).state ≡ ((at t i).pid == 0)
  pub distinct : (i j : ℕ) → i ≢ j → (at t i).pid ≢ 0 → (at t i).pid ≢ (at t j).pid

-- `u` differs from `t` in nothing that the invariant reads.
pub record SamePids (t u : Table) : Type 0 where
  pub same_size : length u.procs ≡ length t.procs
  pub same_next : u.next_pid ≡ t.next_pid
  pub same_pid : (i : ℕ) → (at u i).pid ≡ (at t i).pid
  pub same_use : (i : ℕ) → is_unused (at u i).state ≡ is_unused (at t i).state

pub SamePids-IsValid : {t u : Table} → SamePids t u → IsValid t → IsValid u
SamePids-IsValid {t} {u} s v = record {
  size = s.same_size ∙ v.size;
  next_pos = omega (arith, s.same_next, v.next_pos);
  next_fits = omega (arith, s.same_next, v.next_fits);
  below_next = λ i. omega (arith, s.same_pid i, s.same_next, v.below_next i);
  used_iff = λ i. s.same_use i ∙ v.used_iff i ∙ ap (λ n. n == 0) (sym (s.same_pid i));
  distinct = λ i j ne live e.
      v.distinct i j ne (λ z. live (s.same_pid i ∙ z)) (sym (s.same_pid i) ∙ e ∙ s.same_pid j);
}

-- A slot whose state changes, but not to or from unused, and whose pid stays.
pub written-SamePids :
    (t : Table) (i : ℕ) (f : Process → Process)
    → (f (at t i)).pid ≡ (at t i).pid
    → is_unused (f (at t i)).state ≡ is_unused (at t i).state
    → SamePids t (record t { procs = modify t.procs i f })
written-SamePids t i f keep_pid keep_use = record {
  same_size = length-modify t.procs i f;
  same_next = refl;
  same_pid = λ j. both (λ p. p.pid) keep_pid j;
  same_use = λ j. both (λ p. is_unused p.state) keep_use j;
}
  where
    both :
        {A : Type 0} (g : Process → A)
        → g (f (at t i)) ≡ g (at t i)
        → (j : ℕ) → g (at (record t { procs = modify t.procs i f }) j) ≡ g (at t j)
    both g e j = elim (ℕ_discrete i j) [
      | no ne ↦ ap g (at-written_ne t i f j ne)
      | yes here ↦ elim (dec_le (length t.procs) j) [
        | yes past ↦ ap g (
            get_or_beyond (modify t.procs i f) j empty_slot
              (omega (arith, length-modify t.procs i f))
            ∙ sym (get_or_beyond t.procs j empty_slot past))
        | no inside ↦
            subst (λ k. g (at (record t { procs = modify t.procs i f }) k) ≡ g (at t k)) here
              (ap g (at-written_self t i f (omega arith)) ∙ e)
      ]
    ]

pub mapped-SamePids :
    (t : Table) (f : Process → Process)
    → f empty_slot ≡ empty_slot
    → ((p : Process) → ((f p).pid ≡ p.pid) × (is_unused (f p).state ≡ is_unused p.state))
    → SamePids t (record t { procs = map f t.procs })
mapped-SamePids t f e keep = record {
  same_size = length-map t.procs f;
  same_next = refl;
  same_pid = λ i. ap (λ (p : Process). p.pid) (at_mapped t f i e) ∙ (keep (at t i)).0;
  same_use = λ i. ap (λ (p : Process). is_unused p.state) (at_mapped t f i e) ∙ (keep (at t i)).1;
}

-- What claiming a slot did: the lowest unused slot, a fresh pid, nothing else.
pub record Claimed (t : Table) (slot : ℕ) (u : Table) : Type 0 where
  pub in_table : slot < process_max
  pub was_unused : is_unused (at t slot).state ≡ true
  pub lowest : (j : ℕ) → j < slot → InUse (at t j)
  pub here :
      at u slot ≡ record (at t slot) { state = blocked; pid = t.next_pid; waiting_for_pid = 0 }
  pub elsewhere : (j : ℕ) → slot ≢ j → at u j ≡ at t j
  pub same_size : length u.procs ≡ length t.procs
  pub next : u.next_pid ≡ (t.next_pid + 1) % 2 ^ 32
  pub same_current : u.current ≡ t.current

pub claim_slot-cases :
    (t : Table)
    → length t.procs ≡ process_max
    → ((claim_slot t ≡ none) × ((j : ℕ) → j < process_max → InUse (at t j)))
      ⊎ ((slot : ℕ) × (u : Table) × (claim_slot t ≡ some (slot, u)) × Claimed t slot u)
unfolding claim_slot alloc_pid
claim_slot-cases t size = elim (find_unused-cases t.procs 0) [
  | inl (e, all) ↦ inl (rw (e, claim_slot), λ j h. all j (omega arith))
  | inr (slot, e, l) ↦ inr (
    slot,
    record t {
      procs =
          modify t.procs slot
            (λ p. record p { state = blocked; pid = t.next_pid; waiting_for_pid = 0 });
      next_pid = (t.next_pid + 1) % 2 ^ 32;
    },
    rw (e, claim_slot),
    record {
      in_table = omega (arith, l.in_table);
      was_unused =
          subst (λ n. is_unused (at t n).state ≡ true) {x = slot - 0} {y = slot} (omega arith)
            l.unused_there;
      lowest = λ j h.
          subst (λ n. InUse (at t n)) {x = j - 0} {y = j} (omega arith)
            (l.used_before j (omega arith) h);
      here = at-written_self t slot _ (omega (arith, l.in_table));
      elsewhere = λ j ne. at-written_ne t slot _ j ne;
      same_size = length-modify t.procs slot _;
      next = refl;
      same_current = refl;
    },
  )
]

-- A claim keeps the invariant while pids are left, and its pid is new.
pub Claimed-IsValid :
    {t u : Table} (slot : ℕ) → IsValid t → t.next_pid + 1 < 2 ^ 32 → Claimed t slot u → IsValid u
unfolding is_unused
Claimed-IsValid {t} {u} slot v room c = record {
  size = c.same_size ∙ v.size;
  next_pos = omega (arith, c.next);
  next_fits = omega (arith, c.next);
  below_next = λ i. elim (ℕ_discrete slot i) [
    | yes here ↦ subst (λ k. (at u k).pid < u.next_pid) here (omega (arith, pid_new, c.next))
    | no ne ↦ omega (arith, pid_old i ne, c.next, v.below_next i)
  ];
  used_iff = λ i. elim (ℕ_discrete slot i) [
    | yes here ↦
        subst (λ k. is_unused (at u k).state ≡ ((at u k).pid == 0)) here
          (ap (λ (p : Process). is_unused p.state) c.here ∙ ground (arith, pid_new, v.next_pos))
    | no ne ↦
        ap (λ (p : Process). is_unused p.state) (c.elsewhere i ne)
        ∙ v.used_iff i
        ∙ ap (λ n. n == 0) (sym (pid_old i ne))
  ];
  distinct = λ i j ne live e. elim (ℕ_discrete slot i) [
    | yes here ↦ omega (
      arith,
      ap (λ k. (at u k).pid) here,
      pid_new,
      pid_old j (λ e'. ne (sym here ∙ e')),
      v.below_next j,
      e,
    )
    | no other ↦ elim (ℕ_discrete slot j) [
      | yes there ↦
          omega (arith, ap (λ k. (at u k).pid) there, pid_new, pid_old i other, v.below_next i, e)
      | no third ↦
          v.distinct i j ne (λ z. live (pid_old i other ∙ z))
            (sym (pid_old i other) ∙ e ∙ pid_old j third)
    ]
  ];
}
  where
    pid_new : (at u slot).pid ≡ t.next_pid
    pid_new = ap (λ (p : Process). p.pid) c.here

    pid_old : (j : ℕ) → slot ≢ j → (at u j).pid ≡ (at t j).pid
    pid_old j ne = ap (λ (p : Process). p.pid) (c.elsewhere j ne)
