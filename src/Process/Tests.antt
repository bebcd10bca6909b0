-- ===== src/Process/Tests.antt =====
-- Tests of kernel/process.c, and its theorems at concrete inputs.
use null_os.Prelude.{
  ℕ, ◌+◌, ◌^◌, ◌≤◌, ◌<◌, ◌≡◌, refl, ◌⊎◌, arith, true, false, none, some, List, [], ◌∷◌, replicate,
  length,
}
use null_os.Process.{
  Table, ready, blocked, sleeping, empty_slot, at, is_unused, init, reset, spawn_user, claim_slot,
  find_unused, alloc_pid, fill_user, build_initial_stack, stack_push, copy_name, until_nul, exit,
  sleep, wake_sleepers, process_max,
}
use null_os.Process.Pids.{IsValid, InUse}
use null_os.Process.Exit.{Exited, exit_lem}
use null_os.Process.Sleep.{Due, wake_sleepers_lem, sleep_lem}
use null_os.Process.Spawn.{Spawned, spawn_user_lem}
use null_os.Process.History.{Event, spawns, exits, run, step, run-init-IsValid}

abbrev blank : Table
blank = record { procs = replicate 16 empty_slot; current = none; next_pid = 0 }

abbrev stacks : ℕ
stacks = 0x110000

abbrev bootstrap : ℕ
bootstrap = 0x101234

abbrev shell_name : List ℕ
shell_name = b's' ∷ b'h' ∷ 0 ∷ b'x' ∷ []

abbrev two_programs : List Event
two_programs =
    spawns shell_name 0x800000 0x2002000 0x500000 0 false
    ∷ spawns [] 0x800000 0x2002000 0x501000 7 true
    ∷ []

abbrev two : Table
two = run stacks bootstrap (init blank) two_programs

two-IsValid : IsValid two
two-IsValid = run-init-IsValid stacks bootstrap blank two_programs refl (omega arith)

two_states :
    ((at two 0).state ≡ ready)
    × ((at two 1).state ≡ blocked)
    × ((at two 0).name ≡ b's' ∷ b'h' ∷ [])
    × (length (at two 1).name ≡ 11)
    × ((at two 1).pid ≡ 2)
unfolding run step init reset spawn_user claim_slot find_unused alloc_pid fill_user
    build_initial_stack stack_push copy_name until_nul is_unused
two_states = (refl, refl, refl, refl, refl)

first_used : InUse (at two 0)
unfolding run step init reset spawn_user claim_slot find_unused alloc_pid fill_user
    build_initial_stack stack_push is_unused
first_used = refl

two_next : two.next_pid ≡ 3
unfolding run step init reset spawn_user claim_slot find_unused alloc_pid fill_user
    build_initial_stack stack_push is_unused
two_next = refl

run-init-IsValid_example : IsValid (run stacks bootstrap (init blank) (exits 3 ∷ two_programs))
run-init-IsValid_example =
    run-init-IsValid stacks bootstrap blank (exits 3 ∷ two_programs) refl (omega arith)

exit_lem_example : Exited 0 two (exit 0 two)
exit_lem_example = exit_lem 0 two (omega arith) two-IsValid first_used

spawn_user_lem_example :
    (((bootstrap ≡ 0) ⊎ ((j : ℕ) → j < process_max → InUse (at two j)))
      × (spawn_user stacks shell_name 0x800000 0x2002000 0x502000 7 false bootstrap two
          ≡ (none, two)))
    ⊎ ((slot : ℕ) × (u : Table) × (spawn_user stacks shell_name 0x800000 0x2002000 0x502000 7 false
            bootstrap two
          ≡ (some slot, u))
        × Spawned stacks shell_name 0x800000 0x2002000 0x502000 7 false bootstrap two slot u)
spawn_user_lem_example =
    spawn_user_lem stacks shell_name 0x800000 0x2002000 0x502000 7 false bootstrap two two-IsValid
      (omega (arith, two_next))

abbrev asleep : Table
asleep = record blank {
  procs = record empty_slot { pid = 1; state = sleeping; wake_tick = 9 } ∷ replicate 15 empty_slot;
}

wake_sleepers_lem_example :
    (Due 9 (at asleep 0) → at (wake_sleepers 9 asleep) 0 ≡ record (at asleep 0) { state = ready })
    × (¬ Due 9 (at asleep 0) → at (wake_sleepers 9 asleep) 0 ≡ at asleep 0)
wake_sleepers_lem_example = wake_sleepers_lem 9 asleep 0

abbrev awake : Table
awake = record blank {
  procs = record empty_slot { pid = 1; state = ready } ∷ replicate 15 empty_slot;
}

sleep_lem_example :
    ((104 < 100 + 5)
      × (100 + 5 < 2 ^ 32)
      × ((at (wake_sleepers 104 (sleep 0 100 5 awake)) 0).state ≡ sleeping))
    ⊎ (((100 + 5 ≤ 104) ⊎ (2 ^ 32 ≤ 100 + 5))
        × ((at (wake_sleepers 104 (sleep 0 100 5 awake)) 0).state ≡ ready))
unfolding is_unused
sleep_lem_example =
    sleep_lem 0 100 5 104 awake (omega arith) refl (omega arith) (omega arith) (omega arith)
