-- ===== src/Pipe/Stream.antt =====
-- A pipe as a stream: any interleaving of the sections that its readers, its writers and the
-- scheduler run.
use native.Mathlib.Decide.{ℕ_discrete}
use null_os.Prelude.{
  ℕ, ◌+◌, ◌-◌, ◌^◌, ◌≤◌, ◌<◌, ◌≡◌, refl, sym, ap, subst, ◌∙◌, ◌≢◌, inl, inr, arith, Bool, true,
  false, Option, some, List, [], ◌∷◌, ◌++◌, append-nil, append_assoc, length, take, drop, ◌==◌,
  ==_of_ne, ==_refl, if◌then◌else◌,
}
use null_os.Process.{Table}
use null_os.Pipe.{
  Pipes, Reply, failed, returned, blocks, again, pipe_at, pipe_max, create, read_section,
  write_section, add_read_ref, add_write_ref, release_read, release_write,
}
use null_os.Pipe.Ring.{contents}
use null_os.Pipe.Section.{IsValid, Moved}
use null_os.Pipe.Reading.{read_section_lem}
use null_os.Pipe.Writing.{write_section_lem, fitting}
use null_os.Pipe.Refs.{release_read_lem, release_write_lem, add_read_ref-Moved, add_write_ref-Moved}
use null_os.Pipe.Create.{create_lem}

-- `runs` is whatever the scheduler and the processes do to the process table between two sections.
pub data Section : Type 0 where
  opens : Section
  reads : (idx len : ℕ) → Section
  writes : (idx : ℕ) (buf : List ℕ) (written : ℕ) → Section
  adds_reader : ℕ → Section
  adds_writer : ℕ → Section
  drops_reader : ℕ → Section
  drops_writer : ℕ → Section
  runs : Table → Section

unfoldable pub perform : Section → Pipes → Pipes
perform opens s = (create s).1
perform (reads idx len) s = (read_section idx len s).1
perform (writes idx buf written) s = (write_section idx buf written s).1
perform (adds_reader idx) s = add_read_ref idx s
perform (adds_writer idx) s = add_write_ref idx s
perform (drops_reader idx) s = release_read idx s
perform (drops_writer idx) s = release_write idx s
perform (runs t) s = record s { table = t }

-- A section the kernel runs: on a pipe of the pool, which the caller has tested, with a writer's
-- counter inside its buffer and no count of references at its end. Pipe `i` is not opened anew.
unfoldable pub Allowed : ℕ → Section → Pipes → Type 0
Allowed i opens s = (create s).0 ≢ some i
Allowed i (reads idx len) s = idx < pipe_max
Allowed i (writes idx buf written) s = (idx < pipe_max) × (written ≤ length buf)
Allowed i (adds_reader idx) s = (idx < pipe_max) × ((pipe_at s idx).read_refs + 1 < 2 ^ 32)
Allowed i (adds_writer idx) s = (idx < pipe_max) × ((pipe_at s idx).write_refs + 1 < 2 ^ 32)
Allowed i (drops_reader idx) s = idx < pipe_max
Allowed i (drops_writer idx) s = idx < pipe_max
Allowed i (runs t) s = true ≡ true

abbrev pub bytes_of : Reply (List ℕ) → List ℕ
bytes_of failed = []
bytes_of (returned bytes) = bytes
bytes_of blocks = []
bytes_of (again bytes) = bytes

abbrev pub taken_of : List ℕ → ℕ → Reply ℕ → List ℕ
taken_of buf written failed = []
taken_of buf written (returned n) = take (n - written) (drop written buf)
taken_of buf written blocks = []
taken_of buf written (again n) = take (n - written) (drop written buf)

-- The bytes a section gives to the readers of pipe `i`, and those it takes from its writers, as the
-- values the section returns say.
unfoldable pub received_by : ℕ → Section → Pipes → List ℕ
received_by i opens s = []
received_by i (reads idx len) s = if i == idx then bytes_of (read_section idx len s).0 else []
received_by i (writes idx buf written) s = []
received_by i (adds_reader idx) s = []
received_by i (adds_writer idx) s = []
received_by i (drops_reader idx) s = []
received_by i (drops_writer idx) s = []
received_by i (runs t) s = []

unfoldable pub sent_by : ℕ → Section → Pipes → List ℕ
sent_by i opens s = []
sent_by i (reads idx len) s = []
sent_by i (writes idx buf written) s =
    if i == idx then taken_of buf written (write_section idx buf written s).0 else []
sent_by i (adds_reader idx) s = []
sent_by i (adds_writer idx) s = []
sent_by i (drops_reader idx) s = []
sent_by i (drops_writer idx) s = []
sent_by i (runs t) s = []

unfoldable pub run : List Section → Pipes → Pipes
run [] s = s
run (e ∷ es) s = run es (perform e s)

unfoldable pub AllAllowed : ℕ → List Section → Pipes → Type 0
AllAllowed i [] s = true ≡ true
AllAllowed i (e ∷ es) s = Allowed i e s × AllAllowed i es (perform e s)

unfoldable pub received : ℕ → List Section → Pipes → List ℕ
received i [] s = []
received i (e ∷ es) s = received_by i e s ++ received i es (perform e s)

unfoldable pub sent : ℕ → List Section → Pipes → List ℕ
sent i [] s = []
sent i (e ∷ es) s = sent_by i e s ++ sent i es (perform e s)

abbrev Flows : ℕ → (out inn : List ℕ) → Pipes → Pipes → Type 0
Flows i out inn s u = (contents (pipe_at s i) ++ inn ≡ out ++ contents (pipe_at u i)) × IsValid u

-- The part of a section's traffic that concerns pipe `i`.
Flows-Moved :
    (i j : ℕ) (out inn : List ℕ) (s u : Pipes)
    → Moved j out inn s u
    → Flows i (if i == j then out else []) (if i == j then inn else []) s u
Flows-Moved i j out inn s u m = elim (ℕ_discrete i j) [
  | yes here ↦
      let yes_eq : (i == j) ≡ true = ap (λ k. i == k) (sym here) ∙ ==_refl i in
      (
        subst
            (λ b.
              contents (pipe_at s i) ++ (if b then inn else [])
              ≡ (if b then out else []) ++ contents (pipe_at u i))
            (sym yes_eq)
            (subst (λ k. contents (pipe_at s k) ++ inn ≡ out ++ contents (pipe_at u k)) (sym here)
              m.queue),
        m.valid,
      )
  | no ne ↦ (
    subst
        (λ b.
          contents (pipe_at s i) ++ (if b then inn else [])
          ≡ (if b then out else []) ++ contents (pipe_at u i))
        (sym (==_of_ne i j ne))
        (append-nil (contents (pipe_at s i)) ∙ ap contents (sym (m.others i (λ e. ne (sym e))))),
    m.valid,
  )
]

Moved-refl : (j : ℕ) (s : Pipes) → IsValid s → Moved j [] [] s s
Moved-refl j s v = record {
  queue = append-nil (contents (pipe_at s j));
  others = λ k ne. refl;
  valid = v;
}

read_section-Moved :
    (j len : ℕ) (s : Pipes)
    → IsValid s
    → j < pipe_max
    → Moved j (bytes_of (read_section j len s).0) [] s (read_section j len s).1
read_section-Moved j len s v h = elim (read_section_lem j len s v h) [
  | inl d ↦ subst (λ r. Moved j (bytes_of r) [] s (read_section j len s).1) (sym d.reply) d.moved
  | inr (inl (empty, closed, e)) ↦
      subst (λ (r : Reply (List ℕ) × Pipes). Moved j (bytes_of r.0) [] s r.1) (sym e)
        (Moved-refl j s v)
  | inr (inr (self, b)) ↦
      subst (λ r. Moved j (bytes_of r) [] s (read_section j len s).1) (sym b.reply) b.moved
]

write_section-Moved :
    (j : ℕ) (buf : List ℕ) (written : ℕ) (s : Pipes)
    → IsValid s
    → j < pipe_max
    → written ≤ length buf
    → Moved j []
        (taken_of buf written (write_section j buf written s).0)
        s
        (write_section j buf written s).1
write_section-Moved j buf written s v h part = elim (write_section_lem j buf written s v h part) [
  | inl (why, e) ↦
      subst (λ (r : Reply ℕ × Pipes). Moved j [] (taken_of buf written r.0) s r.1) (sym e)
        (Moved-refl j s v)
  | inr (inl d) ↦ elim d.reply [
    | inl (done, e) ↦
        subst (λ bytes. Moved j [] bytes s (write_section j buf written s).1)
          (sym (
            ap (taken_of buf written) e
            ∙ ap (λ k. take k (drop written buf)) {x = written + n - written} {y = n}
                (omega arith)))
          d.moved
    | inr (more, e, full) ↦
        subst (λ bytes. Moved j [] bytes s (write_section j buf written s).1)
          (sym (
            ap (taken_of buf written) e
            ∙ ap (λ k. take k (drop written buf)) {x = written + n - written} {y = n}
                (omega arith)))
          d.moved
  ]
  | inr (inr (self, b)) ↦
      subst (λ r. Moved j [] (taken_of buf written r) s (write_section j buf written s).1)
        (sym b.reply) b.moved
]
  where
    n : ℕ
    n = fitting (pipe_at s j) buf written

nothing : (b : Bool) → ◌≡◌ {A = List ℕ} (if b then [] else []) []
nothing true = refl
nothing false = refl

quiet : (i j : ℕ) (s u : Pipes) → Moved j [] [] s u → Flows i [] [] s u
quiet i j s u m =
    subst (λ (l : List ℕ). Flows i l l s u) (nothing (i == j)) (Flows-Moved i j [] [] s u m)

perform-Flows :
    (i : ℕ) (e : Section) (s : Pipes)
    → IsValid s
    → Allowed i e s
    → Flows i (received_by i e s) (sent_by i e s) s (perform e s)
unfolding perform Allowed received_by sent_by
perform-Flows i opens s v other = elim (create_lem s v) [
  | inl (e, full) ↦
      subst (λ (r : Option ℕ × Pipes). Flows i [] [] s r.1) (sym e)
        (append-nil (contents (pipe_at s i)), v)
  | inr (j, u, e, c) ↦
      subst (λ (r : Option ℕ × Pipes). Flows i [] [] s r.1) (sym e)
        (
          append-nil (contents (pipe_at s i))
              ∙ ap contents (
                  sym (
                    c.others i
                      (λ same. other (ap (λ (r : Option ℕ × Pipes). r.0) e ∙ ap some same)))),
          c.valid,
        )
]
perform-Flows i (reads idx len) s v h =
    subst (λ inn. Flows i (received_by i (reads idx len) s) inn s (perform (reads idx len) s))
      (nothing (i == idx)) (Flows-Moved i idx _ [] s _ (read_section-Moved idx len s v h))
perform-Flows i (writes idx buf written) s v (h, part) =
    subst
      (λ out.
        Flows i out (sent_by i (writes idx buf written) s) s (perform (writes idx buf written) s))
      (nothing (i == idx))
      (Flows-Moved i idx [] _ s _ (write_section-Moved idx buf written s v h part))
perform-Flows i (adds_reader idx) s v (h, room) =
    quiet i idx s _ (add_read_ref-Moved idx s v h room)
perform-Flows i (adds_writer idx) s v (h, room) =
    quiet i idx s _ (add_write_ref-Moved idx s v h room)
perform-Flows i (drops_reader idx) s v h = quiet i idx s _ (release_read_lem idx s v h).1
perform-Flows i (drops_writer idx) s v h = quiet i idx s _ (release_write_lem idx s v h).1
perform-Flows i (runs t) s v h =
    (append-nil (contents (pipe_at s i)), record { size = v.size; each = v.each })

Flows-append :
    (i : ℕ) (out out' inn inn' : List ℕ) (s u w : Pipes)
    → Flows i out inn s u
    → Flows i out' inn' u w
    → Flows i (out ++ out') (inn ++ inn') s w
Flows-append i out out' inn inn' s u w (here, v) (there, v') = (
  sym (append_assoc (contents (pipe_at s i)) inn inn')
      ∙ ap (λ c. c ++ inn') here
      ∙ append_assoc out (contents (pipe_at u i)) inn'
      ∙ ap (λ c. out ++ c) there
      ∙ sym (append_assoc out out' (contents (pipe_at w i))),
  v',
)

-- In any interleaving of sections, from a valid pool on, that does not open pipe `i` anew: the bytes
-- that were in pipe `i` and those its writers have put in, in order, are the bytes its readers have
-- got and those still in it, and the pool is valid again, so that a registered reader waits on an
-- empty pipe with a writer, and a registered writer on a full pipe with a reader.
pub flow :
    (i : ℕ) (es : List Section) (s : Pipes)
    → IsValid s
    → AllAllowed i es s
    → (contents (pipe_at s i) ++ sent i es s ≡ received i es s ++ contents (pipe_at (run es s) i))
      × IsValid (run es s)
unfolding run AllAllowed received sent
flow i [] s v _ = (append-nil (contents (pipe_at s i)), v)
flow i (e ∷ es) s v (first, later) =
    let here = perform-Flows i e s v first in
    Flows-append i _ _ _ _ s (perform e s) _ here (flow i es (perform e s) here.1 later)
