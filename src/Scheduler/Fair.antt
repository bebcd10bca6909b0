-- ===== src/Scheduler/Fair.antt =====
-- Round robin starves nobody.
use native.Mathlib.Decide.{ℕ_discrete}
use null_os.Prelude.{ℕ, zero, suc, ◌≤◌, ◌<◌, ◌≡◌, ap, subst, ◌∙◌, ◌≢◌, inl, inr, arith, true, some}
use null_os.Process.{Process, is_ready, process_max}
use null_os.Process.Slots.{at-written_ne}
use null_os.Scheduler.{Sched, pick, dispatch, resume, run_once, release_cpu}
use null_os.Scheduler.Pick.{distance, IsReady, pick_lem}

-- What the code between the two context switches does not do: it changes neither the scheduler's own
-- variables nor, of another process, that it is READY.
pub record Leaves (run : ℕ → Sched → Sched) (k : ℕ) : Type 0 where
  pub keeps_ready : (i : ℕ) (s : Sched) → i ≢ k → IsReady s k → IsReady (run i s) k
  pub keeps_index : (i : ℕ) (s : Sched) → (run i s).current_index ≡ s.current_index
  pub keeps_on : (i : ℕ) (s : Sched) → (run i s).scheduler_ready ≡ s.scheduler_ready

pub iterate {ℓ} : {A : Type ℓ} → ℕ → (A → A) → A → A
iterate zero f x = x
iterate (suc n) f x = iterate n f (f x)

nearest :
    (s : Sched) (i k : ℕ)
    → s.current_index < process_max
    → i < process_max
    → k < process_max
    → ¬ (distance s k < distance s i)
    → distance s k ≤ 0
    → i ≡ k
nearest s i k inside hi hk far le = omega arith

-- After slot `i` has run, slot `k` is strictly nearer.
closer :
    (s u : Sched) (i k : ℕ)
    → s.current_index < process_max
    → i < process_max
    → k < process_max
    → i ≢ k
    → u.current_index ≡ i
    → ¬ (distance s k < distance s i)
    → distance u k < distance s k
closer s u i k inside hi hk ne index far = omega arith

module _ (run : ℕ → Sched → Sched) (k : ℕ) (l : Leaves run k) where
  -- One call that runs another process.
  other_ran :
      (s : Sched) (i : ℕ)
      → s.scheduler_ready ≡ true
      → pick s ≡ some i
      → i ≢ k
      → IsReady s k
      → IsReady (run_once run s) k
        × ((run_once run s).current_index ≡ i)
        × ((run_once run s).scheduler_ready ≡ true)
  unfolding run_once resume dispatch
  other_ran s i on e ne ready =
      subst (λ u. IsReady u k × (u.current_index ≡ i) × (u.scheduler_ready ≡ true)) ran
        (still, l.keeps_index i _, l.keeps_on i _ ∙ on)
    where
      ran : resume i (run i (dispatch i s)) ≡ run_once run s
      ran = ground arith

      before : IsReady (dispatch i s) k
      before = ap (λ (p : Process). is_ready p.state) (at-written_ne s.table i _ k ne) ∙ ready

      still : IsReady (resume i (run i (dispatch i s))) k
      still =
          ap (λ (p : Process). is_ready p.state)
            (at-written_ne (run i (dispatch i s)).table i release_cpu k ne)
          ∙ l.keeps_ready i (dispatch i s) ne before

  -- At most `d` other processes run first.
  within :
      (d : ℕ) (s : Sched)
      → s.scheduler_ready ≡ true
      → s.current_index < process_max
      → k < process_max
      → IsReady s k
      → distance s k ≤ d
      → (n : ℕ) × (n ≤ d) × (pick (iterate n (run_once run) s) ≡ some k)
  unfolding iterate
  within zero s on inside hk ready le = elim (pick_lem s inside) [
    | inl (e, all) ↦ absurd (all k hk ready)
    | inr (i, e, hi, hit, closest) ↦
        (0, omega arith, e ∙ ap some (nearest s i k inside hi hk (λ lt. closest k hk lt ready) le))
  ]
  within (suc d) s on inside hk ready le = elim (pick_lem s inside) [
    | inl (e, all) ↦ absurd (all k hk ready)
    | inr (i, e, hi, hit, closest) ↦ elim (ℕ_discrete i k) [
      | yes here ↦ (0, omega arith, e ∙ ap some here)
      | no ne ↦
          let (ready', index', on') = other_ran s i on e ne ready in
          let (n, le', e') = within d (run_once run s) on' (omega (arith, index', hi)) hk ready' (
            omega (
              arith,
              index',
              closer s (run_once run s) i k inside hi hk ne index' (λ lt. closest k hk lt ready),
            )) in
          (suc n, omega arith, e')
    ]
  ]

  -- A READY process is picked at the latest by the sixteenth call of `scheduler_run_once`, if the
  -- code that runs in between leaves it READY and does not touch the scheduler's variables.
  pub starvation_free :
      (s : Sched)
      → s.scheduler_ready ≡ true
      → s.current_index < process_max
      → k < process_max
      → IsReady s k
      → (n : ℕ) × (n < process_max) × (pick (iterate n (run_once run) s) ≡ some k)
  starvation_free s on inside hk ready =
      let (n, le, e) = within 15 s on inside hk ready (omega arith) in (n, omega arith, e)
