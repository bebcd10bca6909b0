-- ===== src/Pipe/Copies.antt =====
-- A reference that is added to an end and released again.
use null_os.Prelude.{
  ℕ, ◌+◌, ◌-◌, ◌^◌, ◌<◌, ◌≡◌, refl, ap, ◌∙◌, ◌≢◌, arith, length, set-set, set-get_or,
  get_or-set_self, Bool-cases, inl, inr, ◌==◌, leb_of_lt, ==_of_ne,
}
use null_os.Pipe.{
  Pipe, Pipes, no_pipe, pipe_at, put_pipe, pipe_max, add_read_ref, add_write_ref, release_read,
  release_write,
}

-- Writing a pipe and then the old one back.
put_back : (i : ℕ) (q : Pipe) (s : Pipes) → put_pipe i (pipe_at s i) (put_pipe i q s) ≡ s
put_back i q s =
    ap (λ l. record s { pipes = l })
      (set-set s.pipes i q (pipe_at s i) ∙ set-get_or s.pipes i no_pipe)

added_read :
    (i : ℕ) (s : Pipes)
    → i < pipe_max
    → (pipe_at s i).read_refs + 1 < 2 ^ 32
    → add_read_ref i s
      ≡ put_pipe i (record (pipe_at s i) { read_refs = (pipe_at s i).read_refs + 1 }) s
unfolding add_read_ref
added_read i s inside few =
    rw (leb_of_lt pipe_max i inside)
      (ap (λ n. put_pipe i (record (pipe_at s i) { read_refs = n }) s) (omega arith))

released_read :
    (i : ℕ) (s : Pipes)
    → i < pipe_max
    → (pipe_at s i).read_refs - 1 ≢ 0
    → release_read i s
      ≡ put_pipe i (record (pipe_at s i) { read_refs = (pipe_at s i).read_refs - 1 }) s
unfolding release_read
released_read i s inside more =
    rw (leb_of_lt pipe_max i inside, ==_of_ne ((pipe_at s i).read_refs - 1) 0 more) refl

pub release_read-add_read_ref :
    (i : ℕ) (s : Pipes)
    → length s.pipes ≡ pipe_max
    → i < pipe_max
    → (pipe_at s i).read_refs ≢ 0
    → (pipe_at s i).read_refs + 1 < 2 ^ 32
    → release_read i (add_read_ref i s) ≡ s
release_read-add_read_ref i s len inside some_ref few =
    ap (release_read i) (added_read i s inside few)
    ∙ released_read i (put_pipe i more s) inside
        (omega (arith, some_ref, ap (λ p. p.read_refs) here))
    ∙ ap (λ p. put_pipe i (record p { read_refs = p.read_refs - 1 }) (put_pipe i more s)) here
    ∙ ap (λ n. put_pipe i (record (pipe_at s i) { read_refs = n }) (put_pipe i more s))
        {x = (pipe_at s i).read_refs + 1 - 1} {y = (pipe_at s i).read_refs} (omega arith)
    ∙ put_back i more s
  where
    more : Pipe
    more = record (pipe_at s i) { read_refs = (pipe_at s i).read_refs + 1 }

    here : pipe_at (put_pipe i more s) i ≡ more
    here = get_or-set_self s.pipes i more no_pipe (omega arith)

added_write :
    (i : ℕ) (s : Pipes)
    → i < pipe_max
    → (pipe_at s i).write_refs + 1 < 2 ^ 32
    → add_write_ref i s
      ≡ put_pipe i (record (pipe_at s i) { write_refs = (pipe_at s i).write_refs + 1 }) s
unfolding add_write_ref
added_write i s inside few =
    rw (leb_of_lt pipe_max i inside)
      (ap (λ n. put_pipe i (record (pipe_at s i) { write_refs = n }) s) (omega arith))

released_write :
    (i : ℕ) (s : Pipes)
    → i < pipe_max
    → (pipe_at s i).write_refs - 1 ≢ 0
    → release_write i s
      ≡ put_pipe i (record (pipe_at s i) { write_refs = (pipe_at s i).write_refs - 1 }) s
unfolding release_write
released_write i s inside more =
    rw (leb_of_lt pipe_max i inside, ==_of_ne ((pipe_at s i).write_refs - 1) 0 more)
      (elim (Bool-cases ((pipe_at s i).read_refs == 0)) [ inl e ↦ rw e refl | inr e ↦ rw e refl ])

pub release_write-add_write_ref :
    (i : ℕ) (s : Pipes)
    → length s.pipes ≡ pipe_max
    → i < pipe_max
    → (pipe_at s i).write_refs ≢ 0
    → (pipe_at s i).write_refs + 1 < 2 ^ 32
    → release_write i (add_write_ref i s) ≡ s
release_write-add_write_ref i s len inside some_ref few =
    ap (release_write i) (added_write i s inside few)
    ∙ released_write i (put_pipe i more s) inside
        (omega (arith, some_ref, ap (λ p. p.write_refs) here))
    ∙ ap (λ p. put_pipe i (record p { write_refs = p.write_refs - 1 }) (put_pipe i more s)) here
    ∙ ap (λ n. put_pipe i (record (pipe_at s i) { write_refs = n }) (put_pipe i more s))
        {x = (pipe_at s i).write_refs + 1 - 1} {y = (pipe_at s i).write_refs} (omega arith)
    ∙ put_back i more s
  where
    more : Pipe
    more = record (pipe_at s i) { write_refs = (pipe_at s i).write_refs + 1 }

    here : pipe_at (put_pipe i more s) i ≡ more
    here = get_or-set_self s.pipes i more no_pipe (omega arith)
