-- ===== src/Process/Exit.antt =====
-- `process_exit`: the slot becomes free, and exactly the processes that wait for this pid wake up.
use native.Mathlib.Decide.{ℕ_discrete}
use null_os.Prelude.{
  ℕ, Bool-cases, ◌<◌, ◌≡◌, refl, sym, ap, subst, ◌∙◌, ◌≢◌, ◌⊎◌, inl, inr, arith, true, map, modify,
  ◌==◌, ◌&&◌, length-modify,
}
use null_os.Process.{
  Table, Process, unused, ready, empty_slot, at, is_unused, is_blocked, exit, wake_waiter,
  process_max,
}
use null_os.Process.Slots.{at-written_self, at-written_ne, at_mapped}
use null_os.Process.Pids.{IsValid, InUse, SamePids-IsValid, mapped-SamePids}

abbrev killed : Process → Process
killed p = record p { state = unused; pid = 0 }

kill : ℕ → Table → Table
kill i t = record t { procs = modify t.procs i killed }

kill-IsValid : (i : ℕ) (t : Table) → i < process_max → IsValid t → IsValid (kill i t)
unfolding kill is_unused
kill-IsValid i t h v = record {
  size = length-modify t.procs i killed ∙ v.size;
  next_pos = v.next_pos;
  next_fits = v.next_fits;
  below_next = λ j. elim (ℕ_discrete i j) [
    | yes here ↦
        subst (λ k. (at (kill i t) k).pid < t.next_pid) here (omega (arith, pid_gone, v.next_pos))
    | no ne ↦ omega (arith, pid_old j ne, v.below_next j)
  ];
  used_iff = λ j. elim (ℕ_discrete i j) [
    | yes here ↦
        subst (λ k. is_unused (at (kill i t) k).state ≡ ((at (kill i t) k).pid == 0)) here
          (ap (λ (p : Process). is_unused p.state) gone
            ∙ ap (λ n. n == 0) {x = 0} {y = (at (kill i t) i).pid} (sym pid_gone))
    | no ne ↦
        ap (λ (p : Process). is_unused p.state) (at-written_ne t i killed j ne)
        ∙ v.used_iff j
        ∙ ap (λ n. n == 0) (sym (pid_old j ne))
  ];
  distinct = λ j k ne live e. elim (ℕ_discrete i j) [
    | yes here ↦ live (subst (λ n. (at (kill i t) n).pid ≡ 0) here pid_gone)
    | no other ↦ elim (ℕ_discrete i k) [
      | yes there ↦ live (e ∙ subst (λ n. (at (kill i t) n).pid ≡ 0) there pid_gone)
      | no third ↦
          v.distinct j k ne (λ z. live (pid_old j other ∙ z))
            (sym (pid_old j other) ∙ e ∙ pid_old k third)
    ]
  ];
}
  where
    gone : at (kill i t) i ≡ killed (at t i)
    gone = at-written_self t i killed (omega (arith, v.size))

    pid_gone : (at (kill i t) i).pid ≡ 0
    pid_gone = ap (λ (p : Process). p.pid) gone

    pid_old : (j : ℕ) → i ≢ j → (at (kill i t) j).pid ≡ (at t j).pid
    pid_old j ne = ap (λ (p : Process). p.pid) (at-written_ne t i killed j ne)

-- Waiting for this pid, and blocked.
abbrev pub WaitsFor : ℕ → Process → Type 0
WaitsFor pid p = (is_blocked p.state ≡ true) × (p.waiting_for_pid ≡ pid)

wake_waiter-cases :
    (pid : ℕ) (p : Process)
    → (WaitsFor pid p × (wake_waiter pid p ≡ record p { waiting_for_pid = 0; state = ready }))
      ⊎ ((¬ WaitsFor pid p) × (wake_waiter pid p ≡ p))
unfolding wake_waiter
wake_waiter-cases pid p = elim (Bool-cases (is_blocked p.state && (p.waiting_for_pid == pid))) [
  | inl both ↦ inl (ground arith, rw (both, wake_waiter))
  | inr missing ↦ inr (λ w. ground arith, rw (missing, wake_waiter))
]

wake_waiter-unused : (pid : ℕ) (p : Process) → p.state ≡ unused → wake_waiter pid p ≡ p
unfolding wake_waiter is_blocked
wake_waiter-unused pid p e = rw (e, wake_waiter)

-- What an exit does to the slot, to those that wait for its pid, and to all others.
pub record Exited (i : ℕ) (t u : Table) : Type 0 where
  pub freed : at u i ≡ record (at t i) { state = unused; pid = 0 }
  pub woken :
      (j : ℕ)
      → i ≢ j
      → WaitsFor (at t i).pid (at t j)
      → at u j ≡ record (at t j) { waiting_for_pid = 0; state = ready }
  pub untouched : (j : ℕ) → i ≢ j → ¬ WaitsFor (at t i).pid (at t j) → at u j ≡ at t j
  pub valid : IsValid u

wake_waiter-keeps :
    (pid : ℕ) (p : Process)
    → ((wake_waiter pid p).pid ≡ p.pid) × (is_unused (wake_waiter pid p).state ≡ is_unused p.state)
unfolding wake_waiter is_unused is_blocked
wake_waiter-keeps pid p = ground arith

-- `process_exit` on a slot in use frees that slot, wakes exactly the processes that are blocked in a
-- wait for its pid, leaves every other slot as it was and keeps pids unique.
pub exit_lem :
    (i : ℕ) (t : Table) → i < process_max → IsValid t → InUse (at t i) → Exited i t (exit i t)
unfolding exit kill
exit_lem i t h v used = subst (Exited i t) e (record {
  freed = rest i ∙ ap (wake_waiter pid) gone ∙ asleep;
  woken = λ j ne w. rest j ∙ ap (wake_waiter pid) (at-written_ne t i killed j ne) ∙ wakes j w;
  untouched = λ j ne w. rest j ∙ ap (wake_waiter pid) (at-written_ne t i killed j ne) ∙ keeps j w;
  valid =
      SamePids-IsValid
        (mapped-SamePids (kill i t) (wake_waiter pid) empty_stays (wake_waiter-keeps pid))
        (kill-IsValid i t h v);
})
  where
    pid : ℕ
    pid = (at t i).pid

    woken_all : Table
    woken_all = record t { procs = map (wake_waiter pid) (modify t.procs i killed) }

    e : woken_all ≡ exit i t
    e = rw (used, exit)

    empty_stays : wake_waiter pid empty_slot ≡ empty_slot
    empty_stays = wake_waiter-unused pid empty_slot refl

    rest : (j : ℕ) → at woken_all j ≡ wake_waiter pid (at (kill i t) j)
    rest j = at_mapped (kill i t) (wake_waiter pid) j empty_stays

    gone : at (kill i t) i ≡ killed (at t i)
    gone = at-written_self t i killed (omega (arith, v.size))

    asleep : wake_waiter pid (killed (at t i)) ≡ killed (at t i)
    asleep = wake_waiter-unused pid (killed (at t i)) refl

    wakes :
        (j : ℕ)
        → WaitsFor pid (at t j)
        → wake_waiter pid (at t j) ≡ record (at t j) { waiting_for_pid = 0; state = ready }
    wakes j w = ground (arith, wake_waiter-cases pid (at t j))

    keeps : (j : ℕ) → ¬ WaitsFor pid (at t j) → wake_waiter pid (at t j) ≡ at t j
    keeps j w = ground (arith, wake_waiter-cases pid (at t j))
