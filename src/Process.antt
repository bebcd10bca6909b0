-- ===== src/Process.antt =====
-- kernel/process.c: the process table. A `process_t *` is the index of its slot, NULL is `none`.
-- The address space that `process_fork` copies is the business of the memory modules; here is the
-- table, the kernel stack that a new process starts on, and who sleeps, waits and wakes.
pub mod Slots
pub mod Pids
pub mod Exit
pub mod Sleep
pub mod Spawn
pub mod History
mod Tests
use null_os.Prelude.{
  ℕ, zero, suc, ◌+◌, ◌-◌, ◌*◌, ◌%◌, ◌^◌, Bool, true, false, ◌&&◌, Option, none, some, List, [], ◌∷◌,
  map, ltb, leb, ◌==◌, if◌then◌else◌, get_or, modify, replicate, length, take,
}

abbrev pub process_max : ℕ
process_max = 16

abbrev pub process_name_max : ℕ
process_name_max = 24

abbrev pub process_stack_size : ℕ
process_stack_size = 4096

-- `process_state_t`
pub data State : Type 0 where
  unused ready running sleeping blocked zombie : State

unfoldable pub is_unused : State → Bool
is_unused unused = true
is_unused _ = false

unfoldable pub is_ready : State → Bool
is_ready ready = true
is_ready _ = false

unfoldable pub is_running : State → Bool
is_running running = true
is_running _ = false

unfoldable pub is_sleeping : State → Bool
is_sleeping sleeping = true
is_sleeping _ = false

unfoldable pub is_blocked : State → Bool
is_blocked blocked = true
is_blocked _ = false

-- `process_t`. `kstack` holds the words of the kernel stack from `esp` up to its top, so that a push
-- is a `∷`. A redirect of -1 is `none`. `entry` and `user_stack` are 0 in every process.
pub record Process : Type 0 where
  pub pid : ℕ
  pub name : List ℕ
  pub state : State
  pub arg : ℕ
  pub esp : ℕ
  pub kstack : List ℕ
  pub stack : ℕ
  pub stack_size : ℕ
  pub cr3 : ℕ
  pub user_esp : ℕ
  pub wake_tick : ℕ
  pub ticks_run : ℕ
  pub runs : ℕ
  pub cwd_cluster : ℕ
  pub stdin_redirect : Option ℕ
  pub stdout_redirect : Option ℕ
  pub waiting_for_pid : ℕ

abbrev pub empty_slot : Process
empty_slot = record {
  pid = 0;
  name = [];
  state = unused;
  arg = 0;
  esp = 0;
  kstack = [];
  stack = 0;
  stack_size = 0;
  cr3 = 0;
  user_esp = 0;
  wake_tick = 0;
  ticks_run = 0;
  runs = 0;
  cwd_cluster = 0;
  stdin_redirect = none;
  stdout_redirect = none;
  waiting_for_pid = 0;
}

-- `process_table`, `current_process` and `next_pid`.
pub record Table : Type 0 where
  pub procs : List Process
  pub current : Option ℕ
  pub next_pid : ℕ

-- `process_init`. It leaves cr3, user_esp and the stack memory of a slot alone.
pub reset : Process → Process
reset p = record empty_slot { cr3 = p.cr3; user_esp = p.user_esp; kstack = p.kstack }

pub init : Table → Table
init t = record { procs = map reset t.procs; current = none; next_pid = 1 }

-- The process in a slot, `&process_table[i]`.
abbrev pub at : Table → ℕ → Process
at t i = get_or t.procs i empty_slot

-- `process_at`
pub process_at : Table → ℕ → Option ℕ
process_at t index = if leb process_max index then none else some index

pub set_current : Option ℕ → Table → Table
set_current p t = record t { current = p }

-- `alloc_pid`
pub alloc_pid : Table → ℕ × Table
alloc_pid t = (t.next_pid, record t { next_pid = (t.next_pid + 1) % 2 ^ 32 })

-- The scan for a slot in PROCESS_UNUSED, from slot `i` on.
pub find_unused : List Process → ℕ → Option ℕ
find_unused [] i = none
find_unused (p ∷ ps) i = if is_unused p.state then some i else find_unused ps (i + 1)

-- Claiming a slot: the scan, the pid and PROCESS_BLOCKED inside one interrupt-off section.
pub claim_slot : Table → Option (ℕ × Table)
claim_slot t = elim (find_unused t.procs 0) [
  | none ↦ none
  | some slot ↦
      let (pid, t') = alloc_pid t in
      some (
        slot,
        record t' {
          procs =
              modify t'.procs slot
                (λ p. record p { state = blocked; pid = pid; waiting_for_pid = 0 });
        },
      )
]

-- `stack_push` on a kernel stack: one word below `esp`.
pub stack_push : ℕ → Process → Process
stack_push value p = record p { esp = (p.esp + 2 ^ 32 - 4) % 2 ^ 32; kstack = value ∷ p.kstack }

-- `build_initial_stack`: the return address of the first context switch and four dummy registers.
pub build_initial_stack : ℕ → Process → Process
build_initial_stack bootstrap p = stack_push 0 (
    stack_push 0 (
      stack_push 0 (
        stack_push 0 (
          stack_push bootstrap
            (record p { esp = (p.stack + p.stack_size) % 2 ^ 32; kstack = [] })))))

-- `copy_name`: NUL ends a name, an absent or empty one becomes "kernel-task".
pub until_nul : List ℕ → List ℕ
until_nul [] = []
until_nul (c ∷ cs) = if c == 0 then [] else c ∷ until_nul cs

abbrev pub kernel_task : List ℕ
kernel_task = b'k' ∷ b'e' ∷ b'r' ∷ b'n' ∷ b'e' ∷ b'l' ∷ b'-' ∷ b't' ∷ b'a' ∷ b's' ∷ b'k' ∷ []

pub copy_name : List ℕ → List ℕ
copy_name src =
    take (process_name_max - 1) (elim (until_nul src) [ [] ↦ kernel_task | c ∷ cs ↦ c ∷ cs ])

-- Filling in a claimed slot of `process_spawn_user`.
pub fill_user :
    (name : List ℕ) (stack user_entry user_esp cr3 cwd_cluster bootstrap : ℕ) → Process → Process
fill_user name stack user_entry user_esp cr3 cwd_cluster bootstrap p =
    let q =
      build_initial_stack bootstrap (record p { stack = stack; stack_size = process_stack_size }) in
    record q {
      name = copy_name name;
      arg = user_entry;
      cr3 = cr3;
      user_esp = user_esp;
      wake_tick = 0;
      ticks_run = 0;
      runs = 0;
      cwd_cluster = cwd_cluster;
      stdin_redirect = none;
      stdout_redirect = none;
    }

-- `process_spawn_user`. `stacks` is the address of `process_stacks`; a NULL bootstrap is 0.
pub spawn_user :
    (stacks : ℕ) (name : List ℕ) (user_entry user_esp cr3 cwd_cluster : ℕ) (start_blocked : Bool)
    (bootstrap : ℕ)
    → Table
    → Option ℕ × Table
spawn_user stacks name user_entry user_esp cr3 cwd_cluster start_blocked bootstrap t =
    if bootstrap == 0 then (none, t) else elim (claim_slot t) [
      | none ↦ (none, t)
      | some (slot, t') ↦
          let filled =
            fill_user name (stacks + slot * process_stack_size) user_entry user_esp cr3 cwd_cluster
              bootstrap in
          let publish = λ (p : Process). if start_blocked then p else record p { state = ready } in
          (some slot, record t' { procs = modify t'.procs slot (λ p. publish (filled p)) })
    ]

-- `process_make_ready`, on a slot.
pub make_ready : ℕ → Table → Table
make_ready i t = record t {
  procs = modify t.procs i (λ p. if is_blocked p.state then record p { state = ready } else p);
}

-- One round of the loop of `process_exit` over the table.
pub wake_waiter : ℕ → Process → Process
wake_waiter exited_pid p =
    if is_blocked p.state && (p.waiting_for_pid == exited_pid)
    then record p { waiting_for_pid = 0; state = ready }
    else p

-- `process_exit`, on a slot.
pub exit : ℕ → Table → Table
exit i t =
    let exited_pid = (at t i).pid in
    if is_unused (at t i).state then t else record t {
      procs =
          map (wake_waiter exited_pid)
            (modify t.procs i (λ p. record p { state = unused; pid = 0 }));
    }

-- `process_sleep`, on a slot; the deadline wraps.
pub sleep : (i now ticks : ℕ) → Table → Table
sleep i now ticks t = record t {
  procs = modify t.procs i (λ p.
      if is_unused p.state
      then p
      else record p { wake_tick = (now + ticks) % 2 ^ 32; state = sleeping });
}

pub wake_sleeper : ℕ → Process → Process
wake_sleeper now p =
    if is_sleeping p.state && leb p.wake_tick now then record p { state = ready } else p

-- `process_wake_sleepers`
unfoldable pub wake_sleepers : ℕ → Table → Table
wake_sleepers now t = record t { procs = map (wake_sleeper now) t.procs }

-- `self->state = PROCESS_BLOCKED;`, as the drivers that put the current process to wait do.
pub block : ℕ → Table → Table
block i t = record t { procs = modify t.procs i (λ p. record p { state = blocked }) }
