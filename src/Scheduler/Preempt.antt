-- ===== src/Scheduler/Preempt.antt =====
-- The timer interrupt: a running process keeps the CPU for ten ticks.
use native.Mathlib.Decide.{dec_le}
use null_os.Prelude.{
  ℕ, ◌+◌, ◌-◌, ◌%◌, ◌^◌, ◌≤◌, ◌<◌, ◌≡◌, ap, ◌∙◌, ◌≢◌, arith, true, some, length, length-map, modify,
  leb, if◌then◌else◌,
}
use null_os.Process.{
  Process, ready, running, at, is_running, is_sleeping, wake_sleepers, wake_sleeper,
}
use null_os.Process.Slots.{at-written_self, at-written_ne}
use null_os.Process.Sleep.{wake_sleepers_lem}
use null_os.Scheduler.{
  Sched, slot_state, timer_callback, tick, preempt, slice_over, yield, release_cpu, preempt_ticks,
}

preempt_at :
    (u : Sched) (i : ℕ)
    → u.table.current ≡ some i
    → preempt u ≡ (if slice_over i u then yield u else u)
unfolding preempt
preempt_at u i e = ground arith

yield_at :
    (u : Sched) (i : ℕ)
    → u.table.current ≡ some i
    → yield u ≡ record u { table = record (u.table) { procs = modify u.table.procs i release_cpu } }
unfolding yield
yield_at u i e = ground arith

module _ (s : Sched) (i n : ℕ) (on : s.scheduler_ready ≡ true) (cur : s.table.current ≡ some i)
    (inside : i < length s.table.procs) (runs : slot_state s i ≡ running)
    (since : s.ticks ≡ ((at s.table i).ticks_run + n) % 2 ^ 32)
    (fits : (at s.table i).ticks_run < 2 ^ 32) (short : n + 1 < 2 ^ 32) where
  now : ℕ
  now = (s.ticks + 1) % 2 ^ 32

  ticked : Sched
  unfolding now
  ticked = record s { ticks = now; table = wake_sleepers now s.table }

  still_running : at ticked.table i ≡ at s.table i
  unfolding ticked is_sleeping
  still_running = (wake_sleepers_lem now s.table i).1 λ d. cc (d.0)

  elapsed : (ticked.ticks + 2 ^ 32 - (at ticked.table i).ticks_run) % 2 ^ 32 ≡ n + 1
  unfolding ticked now
  elapsed = omega (arith, ap (λ (p : Process). p.ticks_run) still_running)

  over_iff : slice_over i ticked ≡ leb preempt_ticks (n + 1)
  unfolding slice_over is_running
  over_iff = rw (ap (λ (p : Process). p.state) still_running ∙ runs, elapsed)

  still_current : ticked.table.current ≡ some i
  unfolding ticked wake_sleepers
  still_current = cur

  still_inside : i < length ticked.table.procs
  unfolding ticked wake_sleepers
  still_inside = omega (arith, length-map s.table.procs (wake_sleeper now))

  after_tick : timer_callback s ≡ preempt ticked
  unfolding timer_callback tick ticked now
  after_tick = ap preempt (ground arith)

  callback : timer_callback s ≡ (if leb preempt_ticks (n + 1) then yield ticked else ticked)
  callback =
      after_tick
      ∙ preempt_at ticked i still_current
      ∙ ap (λ b. if b then yield ticked else ticked) over_iff

  yielded : yield ticked ≡ record ticked {
    table = record (ticked.table) { procs = modify ticked.table.procs i release_cpu };
  }
  yielded = yield_at ticked i still_current

  goes_on : n + 1 < preempt_ticks → timer_callback s ≡ ticked
  goes_on early = ground (arith, callback)

  taken_off :
      preempt_ticks ≤ n + 1
      → timer_callback s ≡ record ticked {
        table = record (ticked.table) { procs = modify ticked.table.procs i release_cpu };
      }
  taken_off late = ground (arith, callback, yielded)

  released :
      (at (record (ticked.table) { procs = modify ticked.table.procs i release_cpu }) i).state
      ≡ ready
  unfolding release_cpu is_running
  released =
      ap (λ (p : Process). p.state) (at-written_self ticked.table i release_cpu still_inside)
      ∙ ap (λ (p : Process). (release_cpu p).state) still_running
      ∙ ground (arith, runs)

  -- `n + 1` ticks after it was dispatched, a RUNNING process goes on if these are fewer than ten, and
  -- is made READY and leaves the CPU if they are ten or more; any other slot changes as the wake-up of
  -- sleepers changes it.
  pub timer_callback_lem :
      (n + 1 < preempt_ticks → slot_state (timer_callback s) i ≡ running)
      × (preempt_ticks ≤ n + 1 → slot_state (timer_callback s) i ≡ ready)
      × ((j : ℕ)
          → i ≢ j
          → at (timer_callback s).table j ≡ at (wake_sleepers ((s.ticks + 1) % 2 ^ 32) s.table) j)
  unfolding ticked now
  timer_callback_lem = (
    λ early.
        ap (λ u. slot_state u i) (goes_on early)
        ∙ ap (λ (p : Process). p.state) still_running
        ∙ runs,
    λ late. ap (λ u. slot_state u i) (taken_off late) ∙ released,
    λ j ne. elim (dec_le preempt_ticks (n + 1)) [
      | yes late ↦
          ap (λ u. at u.table j) (taken_off late) ∙ at-written_ne ticked.table i release_cpu j ne
      | no early ↦ ap (λ u. at u.table j) (goes_on (omega arith))
    ],
  )
