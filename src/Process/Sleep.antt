-- ===== src/Process/Sleep.antt =====
-- `process_sleep` and `process_wake_sleepers`: when a sleeping process runs again.
use null_os.Prelude.{
  ℕ, ◌+◌, ◌%◌, ◌^◌, ◌≤◌, ◌<◌, ◌≡◌, refl, ap, ◌∙◌, ◌⊎◌, inl, inr, arith, true, length,
}
use null_os.Process.{
  Table, Process, ready, sleeping, empty_slot, at, is_unused, is_sleeping, sleep, wake_sleeper,
  wake_sleepers, make_ready, is_blocked,
}
use null_os.Process.Slots.{at-written_self, at_mapped}
use null_os.Process.Pids.{IsValid, InUse, SamePids-IsValid, mapped-SamePids, written-SamePids}

-- Asleep, and due at or before `now`.
abbrev pub Due : ℕ → Process → Type 0
Due now p = (is_sleeping p.state ≡ true) × (p.wake_tick ≤ now)

wake_sleeper-empty : (now : ℕ) → wake_sleeper now empty_slot ≡ empty_slot
unfolding wake_sleeper is_sleeping
wake_sleeper-empty now = refl

pub at-wake_sleepers :
    (now : ℕ) (t : Table) (j : ℕ) → at (wake_sleepers now t) j ≡ wake_sleeper now (at t j)
unfolding wake_sleepers
at-wake_sleepers now t j = at_mapped t (wake_sleeper now) j (wake_sleeper-empty now)

wake_sleeper-Due :
    (now : ℕ) (p : Process) → Due now p → wake_sleeper now p ≡ record p { state = ready }
unfolding wake_sleeper
wake_sleeper-Due now p d = ground arith

wake_sleeper-early : (now : ℕ) (p : Process) → ¬ Due now p → wake_sleeper now p ≡ p
unfolding wake_sleeper
wake_sleeper-early now p d = ground arith

-- A timer tick makes exactly the sleepers ready whose tick has come, and changes nothing else.
pub wake_sleepers_lem :
    (now : ℕ) (t : Table) (j : ℕ)
    → (Due now (at t j) → at (wake_sleepers now t) j ≡ record (at t j) { state = ready })
      × (¬ Due now (at t j) → at (wake_sleepers now t) j ≡ at t j)
wake_sleepers_lem now t j = (
  λ d. at-wake_sleepers now t j ∙ wake_sleeper-Due now (at t j) d,
  λ d. at-wake_sleepers now t j ∙ wake_sleeper-early now (at t j) d,
)

-- A sleep of `ticks` from tick `start` on, in a slot in use: a tick before `start + ticks` leaves the
-- process asleep, and one at or after it makes the process ready, if the deadline does not wrap.
sleep-wake_sleepers :
    (i start ticks now : ℕ) (t : Table)
    → i < length t.procs
    → InUse (at t i)
    → start + ticks < 2 ^ 32
    → ((now < start + ticks → (at (wake_sleepers now (sleep i start ticks t)) i).state ≡ sleeping)
        × (start + ticks ≤ now → (at (wake_sleepers now (sleep i start ticks t)) i).state ≡ ready))
unfolding sleep wake_sleeper is_sleeping is_unused
sleep-wake_sleepers i start ticks now t h used fits = (
  λ early.
      ap (λ (p : Process). p.state) (at-wake_sleepers now (sleep i start ticks t) i)
      ∙ ground (arith, asleep),
  λ late.
      ap (λ (p : Process). p.state) (at-wake_sleepers now (sleep i start ticks t) i)
      ∙ ground (arith, asleep),
)
  where
    asleep :
        at (sleep i start ticks t) i
        ≡ record (at t i) { wake_tick = (start + ticks) % 2 ^ 32; state = sleeping }
    asleep = at-written_self t i _ h ∙ ground arith

le_or_lt : (a b : ℕ) → (a ≤ b) ⊎ (b < a)
le_or_lt a b = ground arith

-- A deadline past 2^32 ticks wraps to a tick that is long gone: the very next tick, even the current
-- one, makes the process ready, and it does not sleep at all.
sleep_wraps :
    (i start ticks now : ℕ) (t : Table)
    → i < length t.procs
    → InUse (at t i)
    → start < 2 ^ 32
    → ticks < 2 ^ 32
    → 2 ^ 32 ≤ start + ticks
    → start ≤ now
    → (at (wake_sleepers now (sleep i start ticks t)) i).state ≡ ready
unfolding sleep wake_sleeper is_sleeping is_unused
sleep_wraps i start ticks now t h used hs ht wraps later =
    ap (λ (p : Process). p.state) (at-wake_sleepers now (sleep i start ticks t) i)
    ∙ ground (arith, asleep)
  where
    asleep :
        at (sleep i start ticks t) i
        ≡ record (at t i) { wake_tick = (start + ticks) % 2 ^ 32; state = sleeping }
    asleep = at-written_self t i _ h ∙ ground arith

-- After a sleep of `ticks` from tick `start` on, in a slot in use, process_wake_sleepers at a tick
-- from `start` on leaves the process asleep where the deadline `start + ticks` is still to come and
-- does not reach 2^32; in every other case, also where the deadline wraps round, it makes the process
-- ready.
pub sleep_lem :
    (i start ticks now : ℕ) (t : Table)
    → i < length t.procs
    → InUse (at t i)
    → start < 2 ^ 32
    → ticks < 2 ^ 32
    → start ≤ now
    → ((now < start + ticks)
        × (start + ticks < 2 ^ 32)
        × ((at (wake_sleepers now (sleep i start ticks t)) i).state ≡ sleeping))
      ⊎ (((start + ticks ≤ now) ⊎ (2 ^ 32 ≤ start + ticks))
          × ((at (wake_sleepers now (sleep i start ticks t)) i).state ≡ ready))
sleep_lem i start ticks now t h used hs ht later = elim (le_or_lt (2 ^ 32) (start + ticks)) [
  | inl wraps ↦ inr (inr wraps, sleep_wraps i start ticks now t h used hs ht wraps later)
  | inr fits ↦ elim (le_or_lt (start + ticks) now) [
    | inl late ↦ inr (inl late, (sleep-wake_sleepers i start ticks now t h used fits).1 late)
    | inr early ↦ inl (early, fits, (sleep-wake_sleepers i start ticks now t h used fits).0 early)
  ]
]

wake_sleeper-keeps :
    (now : ℕ) (p : Process)
    → ((wake_sleeper now p).pid ≡ p.pid)
      × (is_unused (wake_sleeper now p).state ≡ is_unused p.state)
unfolding wake_sleeper is_unused is_sleeping
wake_sleeper-keeps now p = ground arith

pub wake_sleepers-IsValid : (now : ℕ) {t : Table} → IsValid t → IsValid (wake_sleepers now t)
unfolding wake_sleepers
wake_sleepers-IsValid now {t} v =
    SamePids-IsValid
      (mapped-SamePids t (wake_sleeper now) (wake_sleeper-empty now) (wake_sleeper-keeps now)) v

pub sleep-IsValid : (i now ticks : ℕ) {t : Table} → IsValid t → IsValid (sleep i now ticks t)
unfolding sleep is_unused
sleep-IsValid i now ticks {t} v =
    SamePids-IsValid (written-SamePids t i _ (ground arith) (ground arith)) v

pub make_ready-IsValid : (i : ℕ) {t : Table} → IsValid t → IsValid (make_ready i t)
unfolding make_ready is_unused is_blocked
make_ready-IsValid i {t} v =
    SamePids-IsValid (written-SamePids t i _ (ground arith) (ground arith)) v
