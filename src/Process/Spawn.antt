-- ===== src/Process/Spawn.antt =====
-- `process_spawn_user`: the slot that a new process takes and the stack that it starts on.
use native.Mathlib.Decide.{ℕ_discrete}
use null_os.Prelude.{
  ℕ, ◌+◌, ◌-◌, ◌*◌, ◌%◌, ◌^◌, ◌<◌, ◌≡◌, sym, subst, ◌∙◌, ◌≢◌, ◌⊎◌, inl, inr, arith, Bool, true,
  none, some, List, [], ◌∷◌, modify, ==_of_ne, if◌then◌else◌,
}
use null_os.Process.{
  Table, Process, ready, blocked, at, is_unused, spawn_user, fill_user, build_initial_stack,
  stack_push, process_max, process_stack_size, copy_name,
}
use null_os.Process.Slots.{at-written_self, at-written_ne}
use null_os.Process.Pids.{
  IsValid, InUse, SamePids-IsValid, written-SamePids, claim_slot-cases, Claimed-IsValid,
}

module _ (stacks : ℕ) (name : List ℕ) (user_entry user_esp cr3 cwd_cluster : ℕ)
    (start_blocked : Bool) (bootstrap : ℕ) where
  -- The process as it stands in its slot: runnable, or held back if it was started blocked; its
  -- first context switch pops four zeros and returns to `bootstrap`.
  pub record Started (t : Table) (slot : ℕ) (p : Process) : Type 0 where
    pub new_pid : p.pid ≡ t.next_pid
    pub state_set : p.state ≡ (if start_blocked then blocked else ready)
    pub not_waiting : p.waiting_for_pid ≡ 0
    pub words : p.kstack ≡ 0 ∷ 0 ∷ 0 ∷ 0 ∷ bootstrap ∷ []
    pub esp_set :
        stacks + process_max * process_stack_size < 2 ^ 32
        → p.esp ≡ stacks + slot * process_stack_size + process_stack_size - 20
    pub entry_set : p.arg ≡ user_entry
    pub user_esp_set : p.user_esp ≡ user_esp
    pub cr3_set : p.cr3 ≡ cr3
    pub cwd_set : p.cwd_cluster ≡ cwd_cluster
    pub stdin_unset : p.stdin_redirect ≡ none
    pub stdout_unset : p.stdout_redirect ≡ none
    pub named : p.name ≡ copy_name name

  pub record Spawned (t : Table) (slot : ℕ) (u : Table) : Type 0 where
    pub real : bootstrap ≢ 0
    pub in_table : slot < process_max
    pub was_unused : is_unused (at t slot).state ≡ true
    pub lowest : (j : ℕ) → j < slot → InUse (at t j)
    pub started : Started t slot (at u slot)
    pub others : (j : ℕ) → slot ≢ j → at u j ≡ at t j
    pub valid : IsValid u
    pub next : u.next_pid ≡ (t.next_pid + 1) % 2 ^ 32

  publish : Process → Process
  publish p = if start_blocked then p else record p { state = ready }

  fill : ℕ → Process → Process
  fill slot =
      fill_user name (stacks + slot * process_stack_size) user_entry user_esp cr3 cwd_cluster
        bootstrap

  finished : ℕ → Table → Table
  finished slot t = record t { procs = modify t.procs slot (λ p. publish (fill slot p)) }

  publish-Started :
      (t : Table) (slot : ℕ) (q : Process)
      → slot < process_max
      → q ≡ record (at t slot) { state = blocked; pid = t.next_pid; waiting_for_pid = 0 }
      → Started t slot (publish (fill slot q))
  unfolding publish fill fill_user build_initial_stack stack_push
  publish-Started t slot q h e = record {
    new_pid = ground arith;
    state_set = ground arith;
    not_waiting = ground arith;
    words = ground arith;
    esp_set = λ fits. ground arith;
    entry_set = ground arith;
    user_esp_set = ground arith;
    cr3_set = ground arith;
    cwd_set = ground arith;
    stdin_unset = ground arith;
    stdout_unset = ground arith;
    named = ground arith;
  }

  -- `process_spawn_user` without a bootstrap, or with every slot in use, returns NULL and changes
  -- nothing. Only with a bootstrap, and with a slot that is not in use, it starts the process in the lowest unused slot, leaves the other slots as they
  -- were and keeps pids unique. Fewer than 2^32 - 1 pids have been given out.
  pub spawn_user_lem :
      (t : Table)
      → IsValid t
      → t.next_pid + 1 < 2 ^ 32
      → ((((bootstrap ≡ 0) ⊎ ((j : ℕ) → j < process_max → InUse (at t j)))
            × (spawn_user stacks name user_entry user_esp cr3 cwd_cluster start_blocked bootstrap t
                ≡ (none, t)))
          ⊎ ((slot : ℕ) × (u : Table) × (spawn_user stacks name user_entry user_esp cr3 cwd_cluster
                  start_blocked bootstrap t
                ≡ (some slot, u))
              × Spawned t slot u))
  unfolding spawn_user finished publish fill fill_user build_initial_stack stack_push is_unused
  spawn_user_lem t v room = elim (ℕ_discrete bootstrap 0) [
    | yes null ↦ inl (inl null, ground arith)
    | no real ↦ elim (claim_slot-cases t v.size) [
      | inl (e, full) ↦ inl (inr full, ground arith)
      | inr (slot, t', e, c) ↦ inr (
        slot,
        finished slot t',
        rw (e, spawn_user) (rw (==_of_ne bootstrap 0 real)),
        record {
          real = real;
          in_table = c.in_table;
          was_unused = c.was_unused;
          lowest = c.lowest;
          started =
              subst (Started t slot)
                (sym (at-written_self t' slot _ (omega (arith, c.same_size, v.size, c.in_table))))
                (publish-Started t slot (at t' slot) c.in_table (c.here));
          others = λ j ne. at-written_ne t' slot _ j ne ∙ c.elsewhere j ne;
          valid =
              SamePids-IsValid (written-SamePids t' slot _ (ground arith) (ground (arith, c.here)))
                (Claimed-IsValid slot v room c);
          next = c.next;
        },
      )
    ]
  ]
