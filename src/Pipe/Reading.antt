-- ===== src/Pipe/Reading.antt =====
-- `pipe_read`: every way in which one round can end.
use native.Mathlib.Decide.{ℕ_discrete}
use null_os.Prelude.{
  ℕ, ◌<◌, ◌≡◌, refl, sym, ap, subst, ◌∙◌, ◌≢◌, ◌⊎◌, inl, inr, arith, none, some, Option-cases, List,
  [], ◌++◌, take, drop, take-append-drop, append-nil,
}
use null_os.Process.{block}
use null_os.Pipe.{
  Pipe, Pipes, Reply, returned, blocks, pipe_at, put_pipe, pipe_max, read_section, read_bytes, wake,
}
use null_os.Pipe.Ring.{contents, Read, read_bytes-Read}
use null_os.Pipe.Section.{IsValid, Moved, put_self, put_ne, put-IsValid}

-- Bytes were there: as many as fit are returned, from the front, and a waiting writer is woken.
pub record Delivered (i len : ℕ) (s : Pipes) (r : Reply (List ℕ) × Pipes) : Type 0 where
  pub some_bytes : (pipe_at s i).count ≢ 0
  pub reply : r.0 ≡ returned (take len (contents (pipe_at s i)))
  pub left : contents (pipe_at r.1 i) ≡ drop len (contents (pipe_at s i))
  pub unregistered : (pipe_at r.1 i).write_waiter ≡ none
  pub woken : r.1.table ≡ wake (pipe_at s i).write_waiter s.table
  pub moved : Moved i (take len (contents (pipe_at s i))) [] s r.1

-- Nothing was there but a writer: the caller is registered and blocked.
pub record ReaderBlocked (i self : ℕ) (s : Pipes) (r : Reply (List ℕ) × Pipes) : Type 0 where
  pub empty : (pipe_at s i).count ≡ 0
  pub has_writer : (pipe_at s i).write_refs ≢ 0
  pub is_current : s.table.current ≡ some self
  pub reply : r.0 ≡ blocks
  pub registered : (pipe_at r.1 i).read_waiter ≡ some self
  pub asleep : r.1.table ≡ block self s.table
  pub moved : Moved i [] [] s r.1

module _ (i len : ℕ) (s : Pipes) (v : IsValid s) (h : i < pipe_max) where
  p : Pipe
  p = pipe_at s i

  deliver : Reply (List ℕ) × Pipes
  unfolding p
  deliver =
      let out = read_bytes len p in
      (
        returned out.0,
        record (put_pipe i (record out.1 { write_waiter = none }) s) {
          table = wake p.write_waiter s.table;
        },
      )

  got : Read len p (read_bytes len p)
  unfolding p
  got = read_bytes-Read len p (v.each i).ring

  deliver-Delivered : p.count ≢ 0 → Delivered i len s deliver
  unfolding p deliver
  deliver-Delivered some_bytes = record {
    some_bytes = some_bytes;
    reply = ap returned got.bytes;
    left = ap contents here ∙ got.queue;
    unregistered = ap (λ (q : Pipe). q.write_waiter) here;
    woken = refl;
    moved = record {
      queue =
          append-nil (contents p)
          ∙ sym (take-append-drop len (contents p))
          ∙ ap (λ c. take len (contents p) ++ c) (sym (ap contents here ∙ got.queue));
      others = λ j ne. put_ne s i after v h j ne;
      valid = put-IsValid s i after v h (wake p.write_waiter s.table) (record {
        ring = record {
          size = got.ring.size;
          tail_in = got.ring.tail_in;
          count_in = got.ring.count_in;
          head_at = got.ring.head_at;
        };
        reader_waits =
            λ w e. absurd (some_bytes ((v.each i).reader_waits w (sym got.same_waiters.0 ∙ e)).0);
        writer_waits = λ w e. absurd (cc (e));
      });
    };
  }
    where
      after : Pipe
      after = record (read_bytes len p).1 { write_waiter = none }

      here : pipe_at deliver.1 i ≡ after
      here = put_self s i after v h

  wait : ℕ → Reply (List ℕ) × Pipes
  unfolding p
  wait self = (
    blocks,
    record (put_pipe i (record p { read_waiter = some self }) s) { table = block self s.table },
  )

  wait-ReaderBlocked :
      (self : ℕ)
      → p.count ≡ 0
      → p.write_refs ≢ 0
      → s.table.current ≡ some self
      → ReaderBlocked i self s (wait self)
  unfolding p wait
  wait-ReaderBlocked self empty writer current = record {
    empty = empty;
    has_writer = writer;
    is_current = current;
    reply = refl;
    registered = ap (λ (q : Pipe). q.read_waiter) here;
    asleep = refl;
    moved = record {
      queue = append-nil (contents p) ∙ sym (ap contents here);
      others = λ j ne. put_ne s i after v h j ne;
      valid = put-IsValid s i after v h (block self s.table) (record {
        ring = record {
          size = (v.each i).ring.size;
          tail_in = (v.each i).ring.tail_in;
          count_in = (v.each i).ring.count_in;
          head_at = (v.each i).ring.head_at;
        };
        reader_waits = λ w e. (empty, writer);
        writer_waits = (v.each i).writer_waits;
      });
    };
  }
    where
      after : Pipe
      after = record p { read_waiter = some self }

      here : pipe_at (wait self).1 i ≡ after
      here = put_self s i after v h

  pub read_section_lem :
      Delivered i len s (read_section i len s)
      ⊎ (((pipe_at s i).count ≡ 0)
          × (((pipe_at s i).write_refs ≡ 0) ⊎ (s.table.current ≡ none))
          × (read_section i len s ≡ (returned [], s)))
      ⊎ ((self : ℕ) × ReaderBlocked i self s (read_section i len s))
  unfolding read_section p deliver wait
  read_section_lem = elim (ℕ_discrete (pipe_at s i).count 0) [
    | no some_bytes ↦
        let e : deliver ≡ read_section i len s = ground arith in
        inl (subst (Delivered i len s) e (deliver-Delivered some_bytes))
    | yes empty ↦ elim (ℕ_discrete (pipe_at s i).write_refs 0) [
      | yes closed ↦ inr (inl (empty, inl closed, ground arith))
      | no writer ↦ elim (Option-cases s.table.current) [
        | inl nobody ↦ inr (inl (empty, inr nobody, ground arith))
        | inr (self, current) ↦
            let e : wait self ≡ read_section i len s = ground arith in
            inr (
              inr (
                self,
                subst (ReaderBlocked i self s) e (wait-ReaderBlocked self empty writer current),
              ))
      ]
    ]
  ]
