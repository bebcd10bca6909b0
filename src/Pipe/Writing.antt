-- ===== src/Pipe/Writing.antt =====
-- `pipe_write`: every way in which one round can end.
use native.Mathlib.Decide.{ℕ_discrete, dec_lt}
use null_os.Prelude.{
  ℕ, ◌+◌, ◌-◌, ◌≤◌, ◌<◌, ◌≡◌, refl, sym, ap, subst, ◌∙◌, ◌≢◌, ◌⊎◌, inl, inr, arith, none, some,
  Option-cases, List, [], ◌++◌, length, take, drop, min, length-take, length-drop, ltb, ◌==◌,
  if◌then◌else◌, append-nil,
}
use null_os.Process.{block}
use null_os.Pipe.{
  Pipe, Pipes, Reply, failed, returned, blocks, again, pipe_at, put_pipe, pipe_max, pipe_buf_size,
  write_section, write_bytes, wake,
}
use null_os.Pipe.Ring.{contents, Wrote, write_bytes-Wrote}
use null_os.Pipe.Section.{IsPipe, IsValid, Moved, put_self, put_ne, put-IsValid}

-- The number of bytes that fit, of those not yet written.
abbrev pub fitting : Pipe → List ℕ → ℕ → ℕ
fitting p buf written = min (length buf - written) (pipe_buf_size - p.count)

-- There was room: the next bytes are appended, a waiting reader is woken, and the round returns if
-- these were the last and goes round again if not.
pub record Stored (i : ℕ) (buf : List ℕ) (written : ℕ) (s : Pipes) (r : Reply ℕ × Pipes)
    : Type 0 where
  pub has_reader : (pipe_at s i).read_refs ≢ 0
  pub has_room : (pipe_at s i).count < pipe_buf_size
  pub reply :
      let n = written + fitting (pipe_at s i) buf written in
      ((n ≡ length buf) × (r.0 ≡ returned n))
      ⊎ ((n < length buf) × (r.0 ≡ again n) × ((pipe_at r.1 i).count ≡ pipe_buf_size))
  pub appended :
      contents (pipe_at r.1 i)
      ≡ contents (pipe_at s i) ++ take (fitting (pipe_at s i) buf written) (drop written buf)
  pub unregistered : (pipe_at r.1 i).read_waiter ≡ none
  pub woken : r.1.table ≡ wake (pipe_at s i).read_waiter s.table
  pub moved : Moved i [] (take (fitting (pipe_at s i) buf written) (drop written buf)) s r.1

-- The pipe was full: the caller is registered and blocked.
pub record WriterBlocked (i self : ℕ) (s : Pipes) (r : Reply ℕ × Pipes) : Type 0 where
  pub full : (pipe_at s i).count ≡ pipe_buf_size
  pub has_reader : (pipe_at s i).read_refs ≢ 0
  pub is_current : s.table.current ≡ some self
  pub reply : r.0 ≡ blocks
  pub registered : (pipe_at r.1 i).write_waiter ≡ some self
  pub asleep : r.1.table ≡ block self s.table
  pub moved : Moved i [] [] s r.1

smaller-min : (a b : ℕ) → (if ltb a b then a else b) ≡ min a b
smaller-min a b = ground arith

module _ (i : ℕ) (buf : List ℕ) (written : ℕ) (s : Pipes) (v : IsValid s) (h : i < pipe_max) where
  p : Pipe
  p = pipe_at s i

  n : ℕ
  unfolding p
  n = fitting p buf written

  bytes : List ℕ
  unfolding n
  bytes = take n (drop written buf)

  after : Pipe
  unfolding bytes
  after = record (write_bytes bytes p) { read_waiter = none }

  store : Reply ℕ × Pipes
  unfolding n after
  store = (
    if written + n == length buf then returned (written + n) else again (written + n),
    record (put_pipe i after s) { table = wake p.read_waiter s.table },
  )

  length-bytes : length bytes ≡ n
  unfolding bytes n
  length-bytes = omega (
    arith,
    length-take {0} (fitting p buf written) (drop written buf),
    length-drop {0} written buf,
  )

  put : Wrote bytes p (write_bytes bytes p)
  unfolding p n
  put =
      write_bytes-Wrote bytes p (v.each i).ring
        (omega (arith, length-bytes, n_fits, (v.each i).ring.count_in))
    where
      n_fits : n ≤ pipe_buf_size - p.count
      n_fits = omega arith

  after-IsPipe : p.read_refs ≢ 0 → p.count < pipe_buf_size → IsPipe after
  unfolding p after
  after-IsPipe reader room = record {
    ring = record {
      size = put.ring.size;
      tail_in = put.ring.tail_in;
      count_in = put.ring.count_in;
      head_at = put.ring.head_at;
    };
    reader_waits = λ w e. absurd (cc (e));
    writer_waits =
        λ w e. absurd (omega (arith, room, (v.each i).writer_waits w (sym put.same_waiters.1 ∙ e)));
  }

  here : pipe_at store.1 i ≡ after
  unfolding store
  here = put_self s i after v h

  store-Stored :
      written ≤ length buf
      → p.read_refs ≢ 0
      → p.count < pipe_buf_size
      → Stored i buf written s store
  unfolding p store after bytes n
  store-Stored part reader room = record {
    has_reader = reader;
    has_room = room;
    reply = elim (ℕ_discrete (written + n) (length buf)) [
      | yes done ↦ inl (done, ground arith)
      | no more ↦ inr (
        omega arith,
        ground arith,
        omega (
          arith,
          ap (λ (q : Pipe). q.count) here,
          put.counted,
          length-bytes,
          room,
          (v.each i).ring.count_in,
        ),
      )
    ];
    appended = ap contents here ∙ put.queue;
    unregistered = ap (λ (q : Pipe). q.read_waiter) here;
    woken = refl;
    moved = record {
      queue = sym (ap contents here ∙ put.queue);
      others = λ j ne. put_ne s i after v h j ne;
      valid = put-IsValid s i after v h (wake p.read_waiter s.table) (after-IsPipe reader room);
    };
  }

  wait : ℕ → Reply ℕ × Pipes
  unfolding p
  wait self = (
    blocks,
    record (put_pipe i (record p { write_waiter = some self }) s) { table = block self s.table },
  )

  wait-WriterBlocked :
      (self : ℕ)
      → p.count ≡ pipe_buf_size
      → p.read_refs ≢ 0
      → s.table.current ≡ some self
      → WriterBlocked i self s (wait self)
  unfolding p wait
  wait-WriterBlocked self full reader current = record {
    full = full;
    has_reader = reader;
    is_current = current;
    reply = refl;
    registered = ap (λ (q : Pipe). q.write_waiter) there;
    asleep = refl;
    moved = record {
      queue = append-nil (contents p) ∙ sym (ap contents there);
      others = λ j ne. put_ne s i waiting v h j ne;
      valid = put-IsValid s i waiting v h (block self s.table) (record {
        ring = record {
          size = (v.each i).ring.size;
          tail_in = (v.each i).ring.tail_in;
          count_in = (v.each i).ring.count_in;
          head_at = (v.each i).ring.head_at;
        };
        reader_waits = (v.each i).reader_waits;
        writer_waits = λ w e. (full, reader);
      });
    };
  }
    where
      waiting : Pipe
      waiting = record p { write_waiter = some self }

      there : pipe_at (wait self).1 i ≡ waiting
      there = put_self s i waiting v h

  pub write_section_lem :
      written ≤ length buf
      → ((((pipe_at s i).read_refs ≡ 0)
            ⊎ (((pipe_at s i).count ≡ pipe_buf_size) × (s.table.current ≡ none)))
          × (write_section i buf written s ≡ (failed, s)))
        ⊎ Stored i buf written s (write_section i buf written s)
        ⊎ ((self : ℕ) × WriterBlocked i self s (write_section i buf written s))
  unfolding write_section p store wait after bytes n
  write_section_lem part = elim (ℕ_discrete (pipe_at s i).read_refs 0) [
    | yes broken ↦ inl (inl broken, ground arith)
    | no reader ↦ elim (dec_lt (pipe_at s i).count pipe_buf_size) [
      | yes room ↦
          let e : store ≡ write_section i buf written s =
            ground
              (arith, smaller-min (length buf - written) (pipe_buf_size - (pipe_at s i).count)) in
          inr (inl (subst (Stored i buf written s) e (store-Stored part reader room)))
      | no past ↦ elim (Option-cases s.table.current) [
        | inl nobody ↦ inl (inr (omega (arith, (v.each i).ring.count_in), nobody), ground arith)
        | inr (self, current) ↦
            let e : wait self ≡ write_section i buf written s = ground arith in
            inr (
              inr (
                self,
                subst (WriterBlocked i self s) e (
                    wait-WriterBlocked self (omega (arith, (v.each i).ring.count_in)) reader
                      current),
              ))
      ]
    ]
  ]
