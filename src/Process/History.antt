-- ===== src/Process/History.antt =====
-- Any history of spawns, exits, sleeps and timer ticks from `process_init` on.
use native.Mathlib.Decide.{dec_lt}
use null_os.Prelude.{
  ℕ, ◌+◌, ◌^◌, ◌≤◌, ◌<◌, ◌≡◌, refl, sym, ap, subst, ◌∙◌, inl, inr, arith, Bool, true, false, List,
  [], ◌∷◌, length, length-map, Bool-cases, get_or_beyond, ◌==◌,
}
use null_os.Process.{
  Table, Process, empty_slot, at, is_unused, init, reset, spawn_user, exit, sleep, wake_sleepers,
  make_ready, process_max,
}
use null_os.Process.Slots.{at_mapped}
use null_os.Process.Pids.{IsValid}
use null_os.Process.Exit.{exit_lem}
use null_os.Process.Sleep.{wake_sleepers-IsValid, sleep-IsValid, make_ready-IsValid}
use null_os.Process.Spawn.{spawn_user_lem}

pub data Event : Type 0 where
  spawns : (name : List ℕ) (user_entry user_esp cr3 cwd_cluster : ℕ) (start_blocked : Bool) → Event
  exits : ℕ → Event
  sleeps : (i now ticks : ℕ) → Event
  ticks_at : ℕ → Event
  readies : ℕ → Event

exit-unused : (i : ℕ) (t : Table) → is_unused (at t i).state ≡ true → exit i t ≡ t
unfolding exit
exit-unused i t free = rw (free, exit)

next_pid-exit : (i : ℕ) (t : Table) → (exit i t).next_pid ≡ t.next_pid
unfolding exit
next_pid-exit i t = ground arith

next_pid-init : (t : Table) → (init t).next_pid ≡ 1
unfolding init
next_pid-init t = refl

-- Beyond the table there is only the empty slot.
in_use_below : (i : ℕ) {t : Table} → IsValid t → is_unused (at t i).state ≡ false → i < process_max
unfolding is_unused
in_use_below i {t} v used = elim (dec_lt i process_max) [
  | yes inside ↦ inside
  | no past ↦ cc (
    used,
    ap (λ (p : Process). is_unused p.state)
        (get_or_beyond t.procs i empty_slot (omega (arith, v.size))),
  )
]

init-IsValid : (t : Table) → length t.procs ≡ process_max → IsValid (init t)
unfolding init is_unused reset
init-IsValid t size = record {
  size = length-map t.procs reset ∙ size;
  next_pos = omega arith;
  next_fits = omega arith;
  below_next = λ i. omega (arith, no_pid i);
  used_iff = λ i.
      ap (λ (p : Process). is_unused p.state) (at_mapped t reset i refl)
      ∙ ap (λ n. n == 0) {x = 0} {y = (at (init t) i).pid} (sym (no_pid i));
  distinct = λ i j ne live e. live (no_pid i);
}
  where
    no_pid : (i : ℕ) → (at (init t) i).pid ≡ 0
    no_pid i = ap (λ (p : Process). p.pid) (at_mapped t reset i refl)

module _ (stacks bootstrap : ℕ) where
  unfoldable pub step : Table → Event → Table
  step t (spawns name entry esp cr3 cwd held) =
      (spawn_user stacks name entry esp cr3 cwd held bootstrap t).1
  step t (exits i) = exit i t
  step t (sleeps i now ticks) = sleep i now ticks t
  step t (ticks_at now) = wake_sleepers now t
  step t (readies i) = make_ready i t

  unfoldable pub run : Table → List Event → Table
  run t [] = t
  run t (e ∷ es) = run (step t e) es

  -- One event gives out one pid at most.
  abbrev Keeps : Table → Table → Type 0
  Keeps t u = IsValid u × (u.next_pid ≤ t.next_pid + 1)

  spawn-Keeps :
      (t : Table) (name : List ℕ) (entry esp cr3 cwd : ℕ) (held : Bool)
      → IsValid t
      → t.next_pid + 1 < 2 ^ 32
      → Keeps t (spawn_user stacks name entry esp cr3 cwd held bootstrap t).1
  spawn-Keeps t name entry esp cr3 cwd held v room =
      elim (spawn_user_lem stacks name entry esp cr3 cwd held bootstrap t v room) [
        | inl (_, e) ↦ subst (λ r. Keeps t r.1) (sym e) (v, omega arith)
        | inr (slot, u, e, s) ↦ subst (λ r. Keeps t r.1) (sym e) (s.valid, omega (arith, s.next))
      ]

  exit-Keeps : (t : Table) (i : ℕ) → IsValid t → Keeps t (exit i t)
  exit-Keeps t i v = elim (Bool-cases (is_unused (at t i).state)) [
    | inl free ↦ subst (Keeps t) (sym (exit-unused i t free)) (v, omega arith)
    | inr used ↦
        ((exit_lem i t (in_use_below i v used) v used).valid, omega (arith, next_pid-exit i t))
  ]

  step-Keeps : (t : Table) (e : Event) → IsValid t → t.next_pid + 1 < 2 ^ 32 → Keeps t (step t e)
  unfolding step sleep wake_sleepers make_ready
  step-Keeps t (spawns name entry esp cr3 cwd held) v room =
      spawn-Keeps t name entry esp cr3 cwd held v room
  step-Keeps t (exits i) v room = exit-Keeps t i v
  step-Keeps t (sleeps i now ticks) v room = (sleep-IsValid i now ticks v, omega arith)
  step-Keeps t (ticks_at now) v room = (wake_sleepers-IsValid now v, omega arith)
  step-Keeps t (readies i) v room = (make_ready-IsValid i v, omega arith)

  run-IsValid :
      (es : List Event) (t : Table)
      → IsValid t
      → t.next_pid + length es < 2 ^ 32
      → IsValid (run t es)
  unfolding run
  run-IsValid [] t v room = v
  run-IsValid (e ∷ es) t v room =
      let k = step-Keeps t e v (omega arith) in run-IsValid es (step t e) k.0 (omega (arith, k.1))

  -- After `process_init` and any history of fewer than 2^32 - 1 events, slots in use are exactly
  -- those with a pid other than 0, and no two of them share a pid.
  pub run-init-IsValid :
      (t : Table) (es : List Event)
      → length t.procs ≡ process_max
      → length es + 1 < 2 ^ 32
      → IsValid (run (init t) es)
  run-init-IsValid t es size short =
      run-IsValid es (init t) (init-IsValid t size) (omega (arith, next_pid-init t))
