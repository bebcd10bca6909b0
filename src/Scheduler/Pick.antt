-- ===== src/Scheduler/Pick.antt =====
-- Which process `scheduler_run_once` runs: the first READY one after the last that ran, cyclically.
use native.Mathlib.Decide.{ℕ_discrete}
use null_os.Prelude.{
  ℕ, zero, suc, ◌+◌, ◌-◌, ◌*◌, ◌%◌, ◌≤◌, ◌<◌, ◌≡◌, refl, ap, subst, ◌⊎◌, inl, inr, arith, true,
  false, Option, none, some, Bool-cases,
}
use null_os.Process.{is_ready, process_max}
use null_os.Scheduler.{Sched, slot_state, scan, pick}

-- The number of slots that the scan passes before slot `k`.
abbrev pub distance : Sched → ℕ → ℕ
distance s k = (k + 2 * process_max - (s.current_index + 1)) % process_max

abbrev pub IsReady : Sched → ℕ → Type 0
IsReady s i = is_ready (slot_state s i) ≡ true

-- The scan's slot number `n`.
abbrev pub nth : Sched → ℕ → ℕ
nth s n = (s.current_index + 1 + n) % process_max

abbrev Found : Sched → ℕ → Option ℕ → Type 0
Found s start r =
    ((r ≡ none) × ((n : ℕ) → start ≤ n → n < process_max → ¬ IsReady s (nth s n)))
    ⊎ ((m : ℕ) × (m < process_max)
        × (r ≡ some (nth s m))
        × IsReady s (nth s m)
        × ((n : ℕ) → start ≤ n → n < m → ¬ IsReady s (nth s n)))

scan-Found :
    (rounds start : ℕ) (s : Sched)
    → start + rounds ≡ process_max
    → Found s start (scan rounds start s)
unfolding scan
scan-Found zero start s e = inl (refl, λ n le lt. absurd (omega arith))
scan-Found (suc rounds) start s e = elim (Bool-cases (is_ready (slot_state s (nth s start)))) [
  | inl hit ↦ inr (start, omega arith, rw hit, hit, λ n le lt. absurd (omega arith))
  | inr miss ↦
      subst (Found s start) {x = scan rounds (start + 1) s} (rw miss)
        (elim (scan-Found rounds (start + 1) s (omega arith)) [
          | inl (r, all) ↦ inl (r, skip miss process_max all)
          | inr (m, lt, r, hit, all) ↦ inr (m, lt, r, hit, skip miss m all)
        ])
]
  where
    skip :
        is_ready (slot_state s (nth s start)) ≡ false
        → (m : ℕ) → ((n : ℕ) → start + 1 ≤ n → n < m → ¬ IsReady s (nth s n))
        → (n : ℕ) → start ≤ n
        → n < m
        → ¬ IsReady s (nth s n)
    skip miss m all n le lt = elim (ℕ_discrete n start) [
      | yes here ↦ λ h. cc (miss, h, ap (λ k. is_ready (slot_state s (nth s k))) here)
      | no later ↦ all n (omega arith) lt
    ]

-- The scan picks a READY slot such that every slot with a shorter way round is not READY, or there is
-- no READY slot at all.
pub pick_lem :
    (s : Sched)
    → s.current_index < process_max
    → ((pick s ≡ none) × ((k : ℕ) → k < process_max → ¬ IsReady s k))
      ⊎ ((i : ℕ) × (pick s ≡ some i)
          × (i < process_max)
          × IsReady s i
          × ((k : ℕ) → k < process_max → distance s k < distance s i → ¬ IsReady s k))
unfolding pick
pick_lem s inside = elim (scan-Found 16 0 s refl) [
  | inl (e, all) ↦ inl (
    e,
    λ k lt.
        subst (λ j. ¬ IsReady s j) (nth-distance k lt)
          (all (distance s k) (omega arith) (omega arith)),
  )
  | inr (m, lt, e, hit, all) ↦ inr (
    nth s m,
    e,
    omega arith,
    hit,
    λ k klt closer.
        subst (λ j. ¬ IsReady s j) (nth-distance k klt)
          (all (distance s k) (omega arith) (omega (arith, distance-nth m lt))),
  )
]
  where
    nth-distance : (k : ℕ) → k < process_max → nth s (distance s k) ≡ k
    nth-distance k lt = omega arith

    distance-nth : (m : ℕ) → m < process_max → distance s (nth s m) ≡ m
    distance-nth m lt = omega arith
