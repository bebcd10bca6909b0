-- ===== src/Pipe/Refs.antt =====
-- Opening a pipe, and the reference counts of its two ends.
use native.Mathlib.Decide.{ℕ_discrete}
use null_os.Prelude.{
  ℕ, ◌+◌, ◌-◌, ◌%◌, ◌^◌, ◌<◌, ◌≡◌, refl, sym, ap, subst, ◌∙◌, ◌≢◌, ◌⊎◌, arith, Bool, false, ◌&&◌,
  none, [], append-nil, ◌==◌, if◌then◌else◌,
}
use null_os.Process.{Table}
use null_os.Pipe.{
  Pipe, Pipes, pipe_at, put_pipe, pipe_max, wake, add_read_ref, add_write_ref, release_read,
  release_write,
}
use null_os.Pipe.Ring.{contents}
use null_os.Pipe.Section.{IsPipe, IsValid, Moved, put_self, put_ne, put-IsValid}

-- A pipe whose buffer and waiters are those of `p`, with other counts of references.
with_refs-IsPipe :
    (p : Pipe) (u : Bool) (r w : ℕ)
    → IsPipe p
    → (p.read_refs ≢ 0 → r ≢ 0)
    → (p.write_refs ≢ 0 → w ≢ 0)
    → IsPipe (record p { used = u; read_refs = r; write_refs = w })
with_refs-IsPipe p u r w g hr hw = record {
  ring = record {
    size = g.ring.size;
    tail_in = g.ring.tail_in;
    count_in = g.ring.count_in;
    head_at = g.ring.head_at;
  };
  reader_waits = λ k e. ((g.reader_waits k e).0, hw (g.reader_waits k e).1);
  writer_waits = λ k e. ((g.writer_waits k e).0, hr (g.writer_waits k e).1);
}

-- The buffer stays: no byte moves.
still :
    (i : ℕ) (q : Pipe) (t : Table) (s : Pipes)
    → IsValid s
    → i < pipe_max
    → contents q ≡ contents (pipe_at s i)
    → IsPipe q
    → Moved i [] [] s (record (put_pipe i q s) { table = t })
still i q t s v h e g = record {
  queue = append-nil (contents (pipe_at s i)) ∙ sym (ap contents (put_self s i q v h) ∙ e);
  others = λ j ne. put_ne s i q v h j ne;
  valid = put-IsValid s i q v h t g;
}

-- What releasing the read end does to the pipe, and to the process table.
pub record ReadEnd (p q : Pipe) (t t' : Table) : Type 0 where
  pub one_fewer : q.read_refs ≡ p.read_refs - 1
  pub same_others : q.write_refs ≡ p.write_refs
  pub freed : q.read_refs ≡ 0 → q.write_refs ≡ 0 → q.used ≡ false
  pub kept : (q.read_refs ≢ 0) ⊎ (q.write_refs ≢ 0) → q.used ≡ p.used
  pub last_wakes : q.read_refs ≡ 0 → (q.write_waiter ≡ none) × (t' ≡ wake p.write_waiter t)
  pub others_wait : q.read_refs ≢ 0 → (q.write_waiter ≡ p.write_waiter) × (t' ≡ t)

abbrev read_dropped : Pipe → Pipe
read_dropped p = record p {
  read_refs = p.read_refs - 1;
  used = if (p.read_refs - 1 == 0) && (p.write_refs == 0) then false else p.used;
}

abbrev read_gone : Pipe → Pipe
read_gone p = record (read_dropped p) { write_waiter = none }

read_gone-End :
    (p : Pipe) (t : Table) → p.read_refs - 1 ≡ 0 → ReadEnd p (read_gone p) t (wake p.write_waiter t)
read_gone-End p t last = record {
  one_fewer = refl;
  same_others = refl;
  freed = λ r w. ground arith;
  kept = λ h. ground arith;
  last_wakes = λ _. (refl, refl);
  others_wait = λ more. absurd (more last);
}

read_dropped-End : (p : Pipe) (t : Table) → p.read_refs - 1 ≢ 0 → ReadEnd p (read_dropped p) t t
read_dropped-End p t more = record {
  one_fewer = refl;
  same_others = refl;
  freed = λ r w. ground arith;
  kept = λ h. ground arith;
  last_wakes = λ last. absurd (more last);
  others_wait = λ _. (refl, refl);
}

-- `pipe_release_read` on a pipe of the pool takes one reader off, frees the slot exactly when no
-- reference is left, wakes a waiting writer exactly when the last reader is gone, and moves no byte.
pub release_read_lem :
    (i : ℕ) (s : Pipes)
    → IsValid s
    → i < pipe_max
    → ReadEnd (pipe_at s i) (pipe_at (release_read i s) i) s.table (release_read i s).table
      × Moved i [] [] s (release_read i s)
unfolding release_read
release_read_lem i s v h = elim (ℕ_discrete (p.read_refs - 1) 0) [
  | yes last ↦
      let e : record (put_pipe i (read_gone p) s) { table = wake p.write_waiter s.table }
          ≡ release_read i s =
        ground arith in
      subst Result e (
        subst (λ q. ReadEnd p q s.table (wake p.write_waiter s.table))
            (sym (put_self s i (read_gone p) v h)) (read_gone-End p s.table last),
        still i (read_gone p) (wake p.write_waiter s.table) s v h refl (gone_good last),
      )
  | no more ↦
      let e : put_pipe i (read_dropped p) s ≡ release_read i s = ground arith in
      subst Result e (
        subst (λ q. ReadEnd p q s.table s.table) (sym (put_self s i (read_dropped p) v h))
            (read_dropped-End p s.table more),
        still i (read_dropped p) s.table s v h refl (dropped_good more),
      )
]
  where
    p : Pipe
    p = pipe_at s i

    Result : Pipes → Type 0
    Result u = ReadEnd p (pipe_at u i) s.table u.table × Moved i [] [] s u

    g : IsPipe p
    g = v.each i

    dropped_good : p.read_refs - 1 ≢ 0 → IsPipe (read_dropped p)
    dropped_good more = with_refs-IsPipe p _ _ _ g (λ _. more) (λ w. w)

    gone_good : p.read_refs - 1 ≡ 0 → IsPipe (read_gone p)
    gone_good last = record {
      ring = record {
        size = g.ring.size;
        tail_in = g.ring.tail_in;
        count_in = g.ring.count_in;
        head_at = g.ring.head_at;
      };
      reader_waits = g.reader_waits;
      writer_waits = λ k e. absurd (cc (e));
    }

-- What releasing the write end does to the pipe, and to the process table.
pub record WriteEnd (p q : Pipe) (t t' : Table) : Type 0 where
  pub one_fewer : q.write_refs ≡ p.write_refs - 1
  pub same_others : q.read_refs ≡ p.read_refs
  pub freed : q.read_refs ≡ 0 → q.write_refs ≡ 0 → q.used ≡ false
  pub kept : (q.read_refs ≢ 0) ⊎ (q.write_refs ≢ 0) → q.used ≡ p.used
  pub last_wakes : q.write_refs ≡ 0 → (q.read_waiter ≡ none) × (t' ≡ wake p.read_waiter t)
  pub others_wait : q.write_refs ≢ 0 → (q.read_waiter ≡ p.read_waiter) × (t' ≡ t)

abbrev write_dropped : Pipe → Pipe
write_dropped p = record p {
  write_refs = p.write_refs - 1;
  used = if (p.read_refs == 0) && (p.write_refs - 1 == 0) then false else p.used;
}

abbrev write_gone : Pipe → Pipe
write_gone p = record (write_dropped p) { read_waiter = none }

write_gone-End :
    (p : Pipe) (t : Table)
    → p.write_refs - 1 ≡ 0
    → WriteEnd p (write_gone p) t (wake p.read_waiter t)
write_gone-End p t last = record {
  one_fewer = refl;
  same_others = refl;
  freed = λ r w. ground arith;
  kept = λ h. ground arith;
  last_wakes = λ _. (refl, refl);
  others_wait = λ more. absurd (more last);
}

write_dropped-End : (p : Pipe) (t : Table) → p.write_refs - 1 ≢ 0 → WriteEnd p (write_dropped p) t t
write_dropped-End p t more = record {
  one_fewer = refl;
  same_others = refl;
  freed = λ r w. ground arith;
  kept = λ h. ground arith;
  last_wakes = λ last. absurd (more last);
  others_wait = λ _. (refl, refl);
}

-- `pipe_release_write` on a pipe of the pool takes one writer off, frees the slot exactly when no
-- reference is left, wakes a waiting reader exactly when the last writer is gone, and moves no byte.
pub release_write_lem :
    (i : ℕ) (s : Pipes)
    → IsValid s
    → i < pipe_max
    → WriteEnd (pipe_at s i) (pipe_at (release_write i s) i) s.table (release_write i s).table
      × Moved i [] [] s (release_write i s)
unfolding release_write
release_write_lem i s v h = elim (ℕ_discrete (p.write_refs - 1) 0) [
  | yes last ↦
      let e : record (put_pipe i (write_gone p) s) { table = wake p.read_waiter s.table }
          ≡ release_write i s =
        ground arith in
      subst Result e (
        subst (λ q. WriteEnd p q s.table (wake p.read_waiter s.table))
            (sym (put_self s i (write_gone p) v h)) (write_gone-End p s.table last),
        still i (write_gone p) (wake p.read_waiter s.table) s v h refl (gone_good last),
      )
  | no more ↦
      let e : put_pipe i (write_dropped p) s ≡ release_write i s = ground arith in
      subst Result e (
        subst (λ q. WriteEnd p q s.table s.table) (sym (put_self s i (write_dropped p) v h))
            (write_dropped-End p s.table more),
        still i (write_dropped p) s.table s v h refl (dropped_good more),
      )
]
  where
    p : Pipe
    p = pipe_at s i

    Result : Pipes → Type 0
    Result u = WriteEnd p (pipe_at u i) s.table u.table × Moved i [] [] s u

    g : IsPipe p
    g = v.each i

    dropped_good : p.write_refs - 1 ≢ 0 → IsPipe (write_dropped p)
    dropped_good more = with_refs-IsPipe p _ _ _ g (λ r. r) (λ _. more)

    gone_good : p.write_refs - 1 ≡ 0 → IsPipe (write_gone p)
    gone_good last = record {
      ring = record {
        size = g.ring.size;
        tail_in = g.ring.tail_in;
        count_in = g.ring.count_in;
        head_at = g.ring.head_at;
      };
      reader_waits = λ k e. absurd (cc (e));
      writer_waits = g.writer_waits;
    }

pub release_ends_lem :
    (i : ℕ) (s : Pipes)
    → IsValid s
    → i < pipe_max
    → (ReadEnd (pipe_at s i) (pipe_at (release_read i s) i) s.table (release_read i s).table
        × Moved i [] [] s (release_read i s))
      × (WriteEnd (pipe_at s i) (pipe_at (release_write i s) i) s.table (release_write i s).table
          × Moved i [] [] s (release_write i s))
release_ends_lem i s v h = (release_read_lem i s v h, release_write_lem i s v h)

-- `pipe_add_read_ref` and `pipe_add_write_ref` move no byte, and keep the pool valid below 2^32
-- references.
pub add_read_ref-Moved :
    (i : ℕ) (s : Pipes)
    → IsValid s
    → i < pipe_max
    → (pipe_at s i).read_refs + 1 < 2 ^ 32
    → Moved i [] [] s (add_read_ref i s)
unfolding add_read_ref
add_read_ref-Moved i s v h room =
    let e : put_pipe i (record (pipe_at s i) { read_refs = ((pipe_at s i).read_refs + 1) % 2 ^ 32 })
          s
        ≡ add_read_ref i s =
      ground arith in
    subst (Moved i [] [] s) e (
      still i _ s.table s v h refl
        (with_refs-IsPipe (pipe_at s i) _ _ _ (v.each i) (λ _. omega arith) (λ w. w)))

pub add_write_ref-Moved :
    (i : ℕ) (s : Pipes)
    → IsValid s
    → i < pipe_max
    → (pipe_at s i).write_refs + 1 < 2 ^ 32
    → Moved i [] [] s (add_write_ref i s)
unfolding add_write_ref
add_write_ref-Moved i s v h room =
    let e : put_pipe i
          (record (pipe_at s i) { write_refs = ((pipe_at s i).write_refs + 1) % 2 ^ 32 }) s
        ≡ add_write_ref i s =
      ground arith in
    subst (Moved i [] [] s) e (
      still i _ s.table s v h refl
        (with_refs-IsPipe (pipe_at s i) _ _ _ (v.each i) (λ r. r) (λ _. omega arith)))
