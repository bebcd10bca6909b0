-- ===== src/Scheduler.antt =====
-- kernel/scheduler.c and the timer interrupt of kernel/timer.c: cooperative round robin with a time
-- slice. What happens between the context switch to a process and the switch back is assembly and
-- the process's own code: a parameter `run`.
pub mod Pick
pub mod Fair
pub mod Preempt
mod Tests
use null_os.Prelude.{
  ℕ, zero, suc, ◌+◌, ◌-◌, ◌%◌, ◌^◌, Bool, true, false, ◌&&◌, not, Option, none, some, List, modify,
  leb, ◌==◌, if◌then◌else◌,
}
use null_os.Process.{
  Table, Process, State, ready, running, at, is_ready, is_running, process_max, set_current,
  wake_sleepers, sleep,
}
use null_os.Process

-- `scheduler_ready` and `current_index` beside the process table, and the tick counter of timer.c.
pub record Sched : Type 0 where
  pub table : Table
  pub scheduler_ready : Bool
  pub current_index : ℕ
  pub ticks : ℕ

-- PREEMPT_TICKS
abbrev pub preempt_ticks : ℕ
preempt_ticks = 10

-- `scheduler_init`
pub init : Sched → Sched
init s = record s {
  table = Process.init s.table;
  scheduler_ready = true;
  current_index = process_max - 1;
}

abbrev pub slot_state : Sched → ℕ → State
slot_state s i = (at s.table i).state

-- The scan of `scheduler_run_once`, with `rounds` slots left to look at.
pub scan : (rounds scanned : ℕ) → Sched → Option ℕ
scan zero scanned s = none
scan (suc rounds) scanned s =
    let index = (s.current_index + 1 + scanned) % process_max in
    let rest = scan rounds (scanned + 1) s in
    if is_ready (slot_state s index) then some index else rest

pub pick : Sched → Option ℕ
pick s = scan process_max 0 s

-- Up to the context switch.
pub dispatch : ℕ → Sched → Sched
dispatch index s = record s {
  current_index = index;
  table = record (set_current (some index) s.table) {
    procs =
        modify s.table.procs index
          (λ p. record p { state = running; runs = (p.runs + 1) % 2 ^ 32; ticks_run = s.ticks });
  };
}

-- `if (process->state == PROCESS_RUNNING) process->state = PROCESS_READY;`
pub release_cpu : Process → Process
release_cpu p = if is_running p.state then record p { state = ready } else p

-- After the switch back.
pub resume : ℕ → Sched → Sched
resume index s = record s {
  table = record (set_current none s.table) { procs = modify s.table.procs index release_cpu };
}

pub run_once : (run : ℕ → Sched → Sched) → Sched → Sched
run_once run s =
    if s.scheduler_ready
    then elim (pick s) [ none ↦ s | some index ↦ resume index (run index (dispatch index s)) ]
    else s

-- `scheduler_tick`
pub tick : ℕ → Sched → Sched
tick now s = if s.scheduler_ready then record s { table = wake_sleepers now s.table } else s

-- `scheduler_yield`, up to the switch back.
pub yield : Sched → Sched
yield s = elim s.table.current [
  | none ↦ s
  | some index ↦ record s {
    table = record (s.table) { procs = modify s.table.procs index release_cpu };
  }
]

-- `scheduler_sleep_current`, up to the switch back.
pub sleep_current : ℕ → Sched → Sched
sleep_current ticks s = elim s.table.current [
  | none ↦ s
  | some index ↦
      if ticks == 0 then yield s else record s { table = sleep index s.ticks ticks s.table }
]

-- The test of the timer interrupt: the current process has used up its time slice.
pub slice_over : ℕ → Sched → Bool
slice_over index s =
    is_running (slot_state s index)
    && leb preempt_ticks ((s.ticks + 2 ^ 32 - (at s.table index).ticks_run) % 2 ^ 32)

pub preempt : Sched → Sched
preempt s = elim s.table.current [
  | none ↦ s
  | some index ↦ if slice_over index s then yield s else s
]

-- `timer_callback`, up to the switch back of a preempted process.
pub timer_callback : Sched → Sched
timer_callback s = let now = (s.ticks + 1) % 2 ^ 32 in preempt (tick now (record s { ticks = now }))
