-- ===== src/Scheduler/Tests.antt =====
-- Tests of kernel/scheduler.c, and its theorems at concrete inputs.
use null_os.Prelude.{
  ℕ, ◌+◌, ◌%◌, ◌^◌, ◌≤◌, ◌<◌, ◌≡◌, ◌≢◌, refl, ◌⊎◌, arith, true, none, some, ◌∷◌, replicate,
}
use null_os.Process.{
  Process, ready, running, blocked, empty_slot, at, is_ready, is_running, process_max,
  wake_sleepers,
}
use null_os.Scheduler.{
  Sched, slot_state, pick, scan, dispatch, resume, run_once, release_cpu, timer_callback,
  preempt_ticks,
}
use null_os.Scheduler.Pick.{IsReady, distance, pick_lem}
use null_os.Scheduler.Fair.{Leaves, iterate, starvation_free}
use null_os.Scheduler.Preempt.{timer_callback_lem}

abbrev ready_process : Process
ready_process = record empty_slot { pid = 1; state = ready }

-- Slots 2 and 5 are READY, slot 2 ran last.
abbrev busy : Sched
busy = record {
  table = record {
    procs =
        empty_slot
        ∷ empty_slot
        ∷ ready_process
        ∷ record empty_slot { pid = 2; state = blocked }
        ∷ empty_slot
        ∷ record ready_process { pid = 3 }
        ∷ replicate 10 empty_slot;
    current = none;
    next_pid = 4;
  };
  scheduler_ready = true;
  current_index = 2;
  ticks = 100;
}

picks_next : pick busy ≡ some 5
unfolding pick scan is_ready
picks_next = refl

-- A process that only gives the CPU back.
abbrev idle : ℕ → Sched → Sched
idle i s = s

comes_round : pick (run_once idle busy) ≡ some 2
unfolding run_once pick scan is_ready dispatch resume release_cpu is_running
comes_round = refl

pick_lem_example :
    ((pick busy ≡ none) × ((k : ℕ) → k < process_max → ¬ IsReady busy k))
    ⊎ ((i : ℕ) × (pick busy ≡ some i)
        × (i < process_max)
        × IsReady busy i
        × ((k : ℕ) → k < process_max → distance busy k < distance busy i → ¬ IsReady busy k))
pick_lem_example = pick_lem busy (omega arith)

idle-Leaves : Leaves idle 2
idle-Leaves = record {
  keeps_ready = λ i s _ h. h;
  keeps_index = λ i s. refl;
  keeps_on = λ i s. refl;
}

starvation_free_example :
    (n : ℕ) × (n < process_max) × (pick (iterate n (run_once idle) busy) ≡ some 2)
unfolding is_ready
starvation_free_example =
    starvation_free idle 2 idle-Leaves busy refl (omega arith) (omega arith) refl

-- Slot 0 has run since tick 90.
abbrev in_ring3 : Sched
in_ring3 = record busy {
  table = record {
    procs =
        record empty_slot { pid = 1; state = running; ticks_run = 90 } ∷ replicate 15 empty_slot;
    current = some 0;
    next_pid = 2;
  };
}

timer_callback_lem_example :
    (10 + 1 < preempt_ticks → slot_state (timer_callback in_ring3) 0 ≡ running)
    × (preempt_ticks ≤ 10 + 1 → slot_state (timer_callback in_ring3) 0 ≡ ready)
    × ((j : ℕ)
        → 0 ≢ j
        → at (timer_callback in_ring3).table j
          ≡ at (wake_sleepers ((100 + 1) % 2 ^ 32) in_ring3.table) j)
timer_callback_lem_example =
    timer_callback_lem in_ring3 0 10 refl refl (omega arith) refl refl (omega arith) (omega arith)
