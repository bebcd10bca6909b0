-- ===== src/Pipe/Create.antt =====
-- `pipe_create`: the first slot that is not used.
use null_os.Prelude.{
  ℕ, zero, suc, ◌+◌, ◌<◌, ◌≡◌, refl, ap, ◌≢◌, ◌⊎◌, inl, inr, arith, true, false, Bool-cases, none,
  some, List, [], ◌∷◌, length, get_or, set,
}
use null_os.Pipe.{Pipe, Pipes, pipe_at, put_pipe, pipe_max, no_pipe, open_pipe, create_from, create}
use null_os.Pipe.Ring.{contents}
use null_os.Pipe.Section.{IsPipe, IsValid, put_self, put_ne, put-IsValid}

-- Slot `j - start` of the list is the first that is not used, and is opened.
record Opened (ps : List Pipe) (start j : ℕ) (qs : List Pipe) : Type 0 where
  position : ℕ
  placed : j ≡ start + position
  in_pool : position < length ps
  was_free : (get_or ps position no_pipe).used ≡ false
  first : (k : ℕ) → k < position → (get_or ps k no_pipe).used ≡ true
  result : qs ≡ set ps position (open_pipe (get_or ps position no_pipe))

Opened-cons :
    (p : Pipe) (ps qs : List Pipe) (start j : ℕ)
    → p.used ≡ true
    → Opened ps (start + 1) j qs
    → Opened (p ∷ ps) start j (p ∷ qs)
Opened-cons p ps qs start j used o = record {
  position = suc o.position;
  placed = omega (arith, o.placed);
  in_pool = omega (arith, o.in_pool);
  was_free = o.was_free;
  first = before;
  result = ap (◌∷◌ p) o.result;
}
  where
    before : (k : ℕ) → k < suc o.position → (get_or (p ∷ ps) k no_pipe).used ≡ true
    before zero lt = used
    before (suc k) lt = o.first k (omega arith)

create_from-Opened :
    (ps : List Pipe) (start : ℕ)
    → ((create_from ps start ≡ none)
        × ((k : ℕ) → k < length ps → (get_or ps k no_pipe).used ≡ true))
      ⊎ ((j : ℕ) × (qs : List Pipe) × (create_from ps start ≡ some (j, qs)) × Opened ps start j qs)
unfolding create_from
create_from-Opened [] start = inl (refl, λ k lt. absurd (omega arith))
create_from-Opened (p ∷ ps) start = elim (Bool-cases p.used) [
  | inr free ↦ inr (
    start,
    open_pipe p ∷ ps,
    ground arith,
    record {
      position = 0;
      placed = omega arith;
      in_pool = omega arith;
      was_free = free;
      first = λ k lt. absurd (omega arith);
      result = refl;
    },
  )
  | inl used ↦ elim (create_from-Opened ps (start + 1)) [
    | inl (e, all) ↦ inl (ground arith, all_used used all)
    | inr (j, qs, e, o) ↦ inr (j, p ∷ qs, ground arith, Opened-cons p ps qs start j used o)
  ]
]
  where
    all_used :
        p.used ≡ true
        → ((k : ℕ) → k < length ps → (get_or ps k no_pipe).used ≡ true)
        → (k : ℕ) → k < length (p ∷ ps)
        → (get_or (p ∷ ps) k no_pipe).used ≡ true
    all_used used all zero lt = used
    all_used used all (suc k) lt = all k (omega arith)

-- The new pipe is empty, with one reader and one writer and nobody waiting.
pub record Created (s : Pipes) (i : ℕ) (u : Pipes) : Type 0 where
  pub in_pool : i < pipe_max
  pub was_free : (pipe_at s i).used ≡ false
  pub first : (k : ℕ) → k < i → (pipe_at s k).used ≡ true
  pub now_used : (pipe_at u i).used ≡ true
  pub empty : contents (pipe_at u i) ≡ []
  pub one_reader : (pipe_at u i).read_refs ≡ 1
  pub one_writer : (pipe_at u i).write_refs ≡ 1
  pub others : (j : ℕ) → i ≢ j → pipe_at u j ≡ pipe_at s j
  pub valid : IsValid u

create-eq :
    (s : Pipes) (j k : ℕ) (qs rs : List Pipe)
    → create_from s.pipes 0 ≡ some (j, qs)
    → j ≡ k
    → qs ≡ rs
    → create s ≡ (some k, record s { pipes = rs })
unfolding create
create-eq s j k qs rs e same_place same = ground arith

open_pipe-IsPipe : (p : Pipe) → IsPipe p → IsPipe (open_pipe p)
unfolding open_pipe
open_pipe-IsPipe p good = record {
  ring = record {
    size = good.ring.size;
    tail_in = omega arith;
    count_in = omega arith;
    head_at = refl;
  };
  reader_waits = λ w e. absurd (cc (e));
  writer_waits = λ w e. absurd (cc (e));
}

put_pipe-Created :
    (s : Pipes) (i : ℕ)
    → i < pipe_max
    → IsValid s
    → (pipe_at s i).used ≡ false
    → ((k : ℕ) → k < i → (pipe_at s k).used ≡ true)
    → Created s i (put_pipe i (open_pipe (pipe_at s i)) s)
unfolding open_pipe
put_pipe-Created s i h v free before = record {
  in_pool = h;
  was_free = free;
  first = before;
  now_used = ap (λ (q : Pipe). q.used) here;
  empty = ap contents here;
  one_reader = ap (λ (q : Pipe). q.read_refs) here;
  one_writer = ap (λ (q : Pipe). q.write_refs) here;
  others = λ j ne. put_ne s i (open_pipe (pipe_at s i)) v h j ne;
  valid =
      put-IsValid s i (open_pipe (pipe_at s i)) v h s.table
        (open_pipe-IsPipe (pipe_at s i) (v.each i));
}
  where
    here : pipe_at (put_pipe i (open_pipe (pipe_at s i)) s) i ≡ open_pipe (pipe_at s i)
    here = put_self s i (open_pipe (pipe_at s i)) v h

-- `pipe_create` on a valid pool returns -1 and changes nothing if all eight pipes are used, and else
-- opens the first that is not: empty, with one reference to each end. The others stay as they are.
pub create_lem :
    (s : Pipes)
    → IsValid s
    → ((create s ≡ (none, s)) × ((k : ℕ) → k < pipe_max → (pipe_at s k).used ≡ true))
      ⊎ ((i : ℕ) × (u : Pipes) × (create s ≡ (some i, u)) × Created s i u)
unfolding create
create_lem s v = elim (create_from-Opened s.pipes 0) [
  | inl (e, all) ↦ inl (ground arith, λ k lt. all k (omega (arith, v.size)))
  | inr (j, qs, e, o) ↦ inr (
    o.position,
    put_pipe o.position (open_pipe (pipe_at s o.position)) s,
    create-eq s j o.position qs (set s.pipes o.position (open_pipe (pipe_at s o.position))) e
        (omega (arith, o.placed)) o.result,
    put_pipe-Created s o.position (omega (arith, o.in_pool, v.size)) v o.was_free o.first,
  )
]
