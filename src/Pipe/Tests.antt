-- ===== src/Pipe/Tests.antt =====
-- Tests of kernel/pipe.c, and its theorems at concrete inputs.
use null_os.Prelude.{
  ℕ, ◌<◌, ◌≡◌, refl, sym, subst, ◌⊎◌, arith, true, none, some, List, [], ◌∷◌, ◌++◌, replicate,
  length-replicate, get_or-replicate_default,
}
use null_os.Process.{Table, empty_slot}
use null_os.Pipe.{
  Pipes, failed, returned, pipe_at, pipe_max, pipe_buf_size, no_pipe, create, read_section,
  write_section, read_bytes, write_bytes, release_read, release_write, open_pipe, create_from, wake,
}
use null_os.Pipe.Ring.{contents}
use null_os.Pipe.Section.{IsPipe, IsValid, Moved}
use null_os.Pipe.Reading.{Delivered, ReaderBlocked, read_section_lem}
use null_os.Pipe.Writing.{Stored, WriterBlocked, write_section_lem}
use null_os.Pipe.Refs.{ReadEnd, WriteEnd, release_ends_lem}
use null_os.Pipe.Create.{Created, create_lem}
use null_os.Pipe.Stream.{
  Section, opens, reads, writes, drops_writer, perform, run, sent, received, AllAllowed, Allowed,
  received_by, flow,
}

abbrev procs : Table
procs = record { procs = replicate 16 empty_slot; current = some 3; next_pid = 5 }

-- A pool as the kernel starts with it.
abbrev fresh : Pipes
fresh = record { pipes = replicate pipe_max no_pipe; table = procs }

no_pipe-IsPipe : IsPipe no_pipe
unfolding no_pipe
no_pipe-IsPipe = record {
  ring = record {
    size = length-replicate {A = ℕ} pipe_buf_size 0;
    tail_in = omega arith;
    count_in = omega arith;
    head_at = refl;
  };
  reader_waits = λ w e. absurd (cc (e));
  writer_waits = λ w e. absurd (cc (e));
}

fresh-IsValid : IsValid fresh
fresh-IsValid = record {
  size = refl;
  each = λ i. subst IsPipe (sym (get_or-replicate_default pipe_max i no_pipe)) no_pipe-IsPipe;
}

-- Pipe 0 open, with "abc" written to it.
abbrev opened : Pipes
opened = run (opens ∷ []) fresh

abbrev abc : List ℕ
abc = b'a' ∷ b'b' ∷ b'c' ∷ []

abbrev filled : Pipes
filled = run (writes 0 abc 0 ∷ []) opened

abbrev opening : List Section
opening = opens ∷ []

opening-AllAllowed : AllAllowed 7 opening fresh
unfolding AllAllowed Allowed create create_from no_pipe open_pipe
opening-AllAllowed = (λ e. absurd (cc (e)), refl)

opened-IsValid : IsValid opened
opened-IsValid = (flow 7 opening fresh fresh-IsValid opening-AllAllowed).1

opened_state :
    ((pipe_at opened 0).read_refs ≡ 1)
    × ((pipe_at opened 0).count ≡ 0)
    × ((create fresh).0 ≡ some 0)
unfolding run perform create create_from no_pipe open_pipe
opened_state = (refl, refl, refl)

filling-AllAllowed : AllAllowed 0 (writes 0 abc 0 ∷ []) opened
unfolding AllAllowed Allowed
filling-AllAllowed = ((omega arith, omega arith), refl)

filled-IsValid : IsValid filled
filled-IsValid = (flow 0 (writes 0 abc 0 ∷ []) opened opened-IsValid filling-AllAllowed).1

filled-contents : contents (pipe_at filled 0) ≡ abc
unfolding run perform create create_from no_pipe open_pipe write_section write_bytes
filled-contents = refl

read_two : (read_section 0 2 filled).0 ≡ returned (b'a' ∷ b'b' ∷ [])
unfolding run perform create create_from no_pipe open_pipe write_section write_bytes read_section
    read_bytes
read_two = refl

-- A reader that finds the pipe empty sleeps, and the next write wakes it.
abbrev conversation : List Section
conversation = reads 0 10 ∷ writes 0 abc 1 ∷ reads 0 1 ∷ drops_writer 0 ∷ reads 0 7 ∷ []

conversation-AllAllowed : AllAllowed 0 conversation opened
unfolding AllAllowed Allowed
conversation-AllAllowed =
    (omega arith, ((omega arith, omega arith), (omega arith, (omega arith, (omega arith, refl)))))

conversation-received : received 0 conversation opened ≡ b'b' ∷ b'c' ∷ []
unfolding received received_by run perform create create_from no_pipe open_pipe write_section
    write_bytes read_section read_bytes release_write wake
conversation-received = refl

flow_example :
    (contents (pipe_at opened 0) ++ sent 0 conversation opened
      ≡ received 0 conversation opened ++ contents (pipe_at (run conversation opened) 0))
    × IsValid (run conversation opened)
flow_example = flow 0 conversation opened opened-IsValid conversation-AllAllowed

read_section_lem_example :
    Delivered 0 2 filled (read_section 0 2 filled)
    ⊎ (((pipe_at filled 0).count ≡ 0)
        × (((pipe_at filled 0).write_refs ≡ 0) ⊎ (filled.table.current ≡ none))
        × (read_section 0 2 filled ≡ (returned [], filled)))
    ⊎ ((self : ℕ) × ReaderBlocked 0 self filled (read_section 0 2 filled))
read_section_lem_example = read_section_lem 0 2 filled filled-IsValid (omega arith)

write_section_lem_example :
    ((((pipe_at filled 0).read_refs ≡ 0)
        ⊎ (((pipe_at filled 0).count ≡ pipe_buf_size) × (filled.table.current ≡ none)))
      × (write_section 0 abc 1 filled ≡ (failed, filled)))
    ⊎ Stored 0 abc 1 filled (write_section 0 abc 1 filled)
    ⊎ ((self : ℕ) × WriterBlocked 0 self filled (write_section 0 abc 1 filled))
write_section_lem_example =
    write_section_lem 0 abc 1 filled filled-IsValid (omega arith) (omega arith)

release_ends_lem_example :
    (ReadEnd
        (pipe_at filled 0)
        (pipe_at (release_read 0 filled) 0)
        filled.table
        (release_read 0 filled).table
      × Moved 0 [] [] filled (release_read 0 filled))
    × (WriteEnd
          (pipe_at filled 0)
          (pipe_at (release_write 0 filled) 0)
          filled.table
          (release_write 0 filled).table
        × Moved 0 [] [] filled (release_write 0 filled))
release_ends_lem_example = release_ends_lem 0 filled filled-IsValid (omega arith)

create_lem_example :
    ((create filled ≡ (none, filled)) × ((k : ℕ) → k < pipe_max → (pipe_at filled k).used ≡ true))
    ⊎ ((i : ℕ) × (u : Pipes) × (create filled ≡ (some i, u)) × Created filled i u)
create_lem_example = create_lem filled filled-IsValid
