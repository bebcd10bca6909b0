-- ===== src/Pipe.antt =====
-- kernel/pipe.c: the pool of in-kernel pipes. Each function here is one section between `cli` and
-- `sti`, so that a history of sections is an interleaving; a buffer pointer is never NULL.
pub mod Ring
pub mod Stream
pub mod Section
pub mod Reading
pub mod Writing
pub mod Refs
pub mod Create
pub mod Copies
mod Tests
use null_os.Prelude.{
  ℕ, zero, suc, ◌+◌, ◌-◌, ◌%◌, ◌^◌, Bool, true, false, ◌&&◌, Option, none, some, List, [], ◌∷◌, ltb,
  leb, ◌==◌, if◌then◌else◌, get_or, set, replicate, length, take, drop,
}
use null_os.Process.{Table, State, blocked, make_ready, block}

abbrev pub pipe_max : ℕ
pipe_max = 8

abbrev pub pipe_buf_size : ℕ
pipe_buf_size = 512

-- `pipe_t`. A waiter is the slot of a process.
pub record Pipe : Type 0 where
  pub buf : List ℕ
  pub head : ℕ
  pub tail : ℕ
  pub count : ℕ
  pub used : Bool
  pub read_refs : ℕ
  pub write_refs : ℕ
  pub read_waiter : Option ℕ
  pub write_waiter : Option ℕ

pub no_pipe : Pipe
no_pipe = record {
  buf = replicate pipe_buf_size 0;
  head = 0;
  tail = 0;
  count = 0;
  used = false;
  read_refs = 0;
  write_refs = 0;
  read_waiter = none;
  write_waiter = none;
}

-- `pipe_table`, and the process table whose states it changes.
pub record Pipes : Type 0 where
  pub pipes : List Pipe
  pub table : Table

abbrev pub pipe_at : Pipes → ℕ → Pipe
pipe_at s i = get_or s.pipes i no_pipe

abbrev pub put_pipe : ℕ → Pipe → Pipes → Pipes
put_pipe i p s = record s { pipes = set s.pipes i p }

-- `pipe_create`: the first slot that is not used.
pub open_pipe : Pipe → Pipe
open_pipe p = record p {
  head = 0;
  tail = 0;
  count = 0;
  used = true;
  read_refs = 1;
  write_refs = 1;
  read_waiter = none;
  write_waiter = none;
}

pub create_from : List Pipe → ℕ → Option (ℕ × List Pipe)
create_from [] i = none
create_from (p ∷ ps) i =
    let later = create_from ps (i + 1) in
    if p.used
    then elim later [ none ↦ none | some (j, ps') ↦ some (j, p ∷ ps') ]
    else some (i, open_pipe p ∷ ps)

pub create : Pipes → Option ℕ × Pipes
create s = elim (create_from s.pipes 0) [
  | none ↦ (none, s)
  | some (i, ps) ↦ (some i, record s { pipes = ps })
]

-- `if (w && w->state == PROCESS_BLOCKED) w->state = PROCESS_READY;`
pub wake : Option ℕ → Table → Table
wake none t = t
wake (some w) t = make_ready w t

-- The copy loop of `pipe_read`, with `room` bytes left to fill.
pub read_bytes : (room : ℕ) → Pipe → List ℕ × Pipe
read_bytes zero p = ([], p)
read_bytes (suc room) p =
    let rest =
      read_bytes room (record p { tail = (p.tail + 1) % pipe_buf_size; count = p.count - 1 }) in
    if p.count == 0 then ([], p) else (get_or p.buf p.tail 0 ∷ rest.0, rest.1)

-- How a section of `pipe_read` or `pipe_write` ends: it returns -1, it returns, it blocks the caller,
-- which tries again when it wakes up, or it goes round the loop at once.
pub data Reply (A : Type 0) : Type 0 where
  failed : Reply A
  returned : A → Reply A
  blocks : Reply A
  again : A → Reply A

-- `pipe_read`, one round: the reply is the bytes read, none at the end of the file.
pub read_section : (idx len : ℕ) → Pipes → Reply (List ℕ) × Pipes
read_section idx len s =
    let p = pipe_at s idx in
    let (bytes, q) = read_bytes len p in
    if leb pipe_max idx
    then (failed, s)
    else if ltb 0 p.count
    then (
      returned bytes,
      record (put_pipe idx (record q { write_waiter = none }) s) {
        table = wake p.write_waiter s.table;
      },
    )
    else if p.write_refs == 0
    then (returned [], s)
    else elim s.table.current [
      | none ↦ (returned [], s)
      | some self ↦ (
        blocks,
        record (put_pipe idx (record p { read_waiter = some self }) s) {
          table = block self s.table;
        },
      )
    ]

-- The copy loop of `pipe_write`.
pub write_bytes : List ℕ → Pipe → Pipe
write_bytes [] p = p
write_bytes (b ∷ bs) p = write_bytes bs (record p {
  buf = set p.buf p.head b;
  head = (p.head + 1) % pipe_buf_size;
  count = p.count + 1;
})

-- `pipe_write`, one round, with the first `written` bytes of `buf` in the pipe already: the reply is
-- the new number of bytes written.
pub write_section : (idx : ℕ) (buf : List ℕ) (written : ℕ) → Pipes → Reply ℕ × Pipes
write_section idx buf written s =
    let p = pipe_at s idx in
    let free_space = pipe_buf_size - p.count in
    let remaining = length buf - written in
    let to_write = if ltb remaining free_space then remaining else free_space in
    let q = write_bytes (take to_write (drop written buf)) p in
    if leb pipe_max idx
    then (failed, s)
    else if p.read_refs == 0
    then (failed, s)
    else if ltb 0 free_space
    then (
      if written + to_write == length buf
          then returned (written + to_write)
          else again (written + to_write),
      record (put_pipe idx (record q { read_waiter = none }) s) {
        table = wake p.read_waiter s.table;
      },
    )
    else elim s.table.current [
      | none ↦ (failed, s)
      | some self ↦ (
        blocks,
        record (put_pipe idx (record p { write_waiter = some self }) s) {
          table = block self s.table;
        },
      )
    ]

-- `pipe_add_read_ref` and `pipe_add_write_ref`
pub add_read_ref : ℕ → Pipes → Pipes
add_read_ref idx s =
    let p = pipe_at s idx in
    if leb pipe_max idx
    then s
    else put_pipe idx (record p { read_refs = (p.read_refs + 1) % 2 ^ 32 }) s

pub add_write_ref : ℕ → Pipes → Pipes
add_write_ref idx s =
    let p = pipe_at s idx in
    if leb pipe_max idx
    then s
    else put_pipe idx (record p { write_refs = (p.write_refs + 1) % 2 ^ 32 }) s

-- `pipe_release_read`: the last reader gone, a blocked writer wakes up; both ends gone, the slot is
-- free again. `read_refs` is decremented only above 0.
pub release_read : ℕ → Pipes → Pipes
release_read idx s =
    let p = pipe_at s idx in
    let refs = p.read_refs - 1 in
    let q = record p {
      read_refs = refs;
      used = if (refs == 0) && (p.write_refs == 0) then false else p.used;
    } in
    if leb pipe_max idx
    then s
    else if refs == 0
    then record (put_pipe idx (record q { write_waiter = none }) s) {
      table = wake p.write_waiter s.table;
    }
    else put_pipe idx q s

pub release_write : ℕ → Pipes → Pipes
release_write idx s =
    let p = pipe_at s idx in
    let refs = p.write_refs - 1 in
    let q = record p {
      write_refs = refs;
      used = if (p.read_refs == 0) && (refs == 0) then false else p.used;
    } in
    if leb pipe_max idx
    then s
    else if refs == 0
    then record (put_pipe idx (record q { read_waiter = none }) s) {
      table = wake p.read_waiter s.table;
    }
    else put_pipe idx q s
