-- ===== src/Pipe/Section.antt =====
-- One round of `pipe_read` and of `pipe_write`: every way it can end, and the invariant of the pool.
use native.Mathlib.Decide.{ℕ_discrete}
use null_os.Prelude.{
  ℕ, ◌<◌, ◌≡◌, sym, subst, ◌∙◌, ◌≢◌, arith, some, List, ◌++◌, length, length-set, get_or-set_self,
  get_or-set_ne,
}
use null_os.Process.{Table}
use null_os.Pipe.{Pipe, Pipes, pipe_at, put_pipe, pipe_max, pipe_buf_size, no_pipe}
use null_os.Pipe.Ring.{IsRing, contents}

-- A registered reader waits on an empty pipe that still has a writer, and a registered writer on a
-- full one that still has a reader.
pub record IsPipe (p : Pipe) : Type 0 where
  pub ring : IsRing p
  pub reader_waits : (w : ℕ) → p.read_waiter ≡ some w → (p.count ≡ 0) × (p.write_refs ≢ 0)
  pub writer_waits :
      (w : ℕ) → p.write_waiter ≡ some w → (p.count ≡ pipe_buf_size) × (p.read_refs ≢ 0)

pub record IsValid (s : Pipes) : Type 0 where
  pub size : length s.pipes ≡ pipe_max
  pub each : (i : ℕ) → IsPipe (pipe_at s i)

module _ (s : Pipes) (i : ℕ) (p : Pipe) (v : IsValid s) (h : i < pipe_max) where
  pub put_self : pipe_at (put_pipe i p s) i ≡ p
  put_self = get_or-set_self s.pipes i p no_pipe (omega (arith, v.size))

  pub put_ne : (j : ℕ) → i ≢ j → pipe_at (put_pipe i p s) j ≡ pipe_at s j
  put_ne j ne = get_or-set_ne s.pipes i j p no_pipe ne

  pub put-IsValid : (t : Table) → IsPipe p → IsValid (record (put_pipe i p s) { table = t })
  put-IsValid t good = record {
    size = length-set s.pipes i p ∙ v.size;
    each = λ j. elim (ℕ_discrete i j) [
      | yes here ↦
          subst (λ k. IsPipe (pipe_at (put_pipe i p s) k)) here (subst IsPipe (sym put_self) good)
      | no ne ↦ subst IsPipe (sym (put_ne j ne)) (v.each j)
    ];
  }

-- What a section does to pipe `i`: `out` bytes leave at the front of its queue, `inn` bytes come in at
-- the end, and no other pipe changes.
pub record Moved (i : ℕ) (out inn : List ℕ) (s u : Pipes) : Type 0 where
  pub queue : contents (pipe_at s i) ++ inn ≡ out ++ contents (pipe_at u i)
  pub others : (j : ℕ) → i ≢ j → pipe_at u j ≡ pipe_at s j
  pub valid : IsValid u
