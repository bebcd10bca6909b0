-- ===== src/Pipe/Ring.antt =====
-- The circular buffer of a pipe holds a queue of bytes, oldest first.
use native.Mathlib.Decide.{ℕ_discrete}
use null_os.Prelude.{
  ℕ, zero, suc, ◌+◌, ◌-◌, ◌%◌, ◌≤◌, ◌<◌, ◌≡◌, refl, sym, ap, ap₂, subst, ◌∙◌, ◌≢◌, ◌⊎◌, inl, inr,
  arith, List, [], ◌∷◌, ◌++◌, append_assoc, append-nil, length, get_or, set, take, drop, length-set,
  get_or-set_self, get_or-set_ne,
}
use null_os.Pipe.{Pipe, pipe_buf_size, read_bytes, write_bytes}

-- The `n` bytes from index `start` on, round the end of the buffer.
abbrev pub window : List ℕ → (start n : ℕ) → List ℕ
window buf start zero = []
window buf start (suc n) = get_or buf start 0 ∷ window buf ((start + 1) % pipe_buf_size) n

abbrev pub contents : Pipe → List ℕ
contents p = window p.buf p.tail p.count

pub record IsRing (p : Pipe) : Type 0 where
  pub size : length p.buf ≡ pipe_buf_size
  pub tail_in : p.tail < pipe_buf_size
  pub count_in : p.count ≤ pipe_buf_size
  pub head_at : p.head ≡ (p.tail + p.count) % pipe_buf_size

pub length-window : (buf : List ℕ) (start n : ℕ) → length (window buf start n) ≡ n
length-window buf start zero = refl
length-window buf start (suc n) = ap suc (length-window buf ((start + 1) % pipe_buf_size) n)

-- A byte stored just past a window is its new last byte.
window-set :
    (buf : List ℕ) (b n start at : ℕ)
    → length buf ≡ pipe_buf_size
    → start < pipe_buf_size
    → n < pipe_buf_size
    → at ≡ (start + n) % pipe_buf_size
    → window (set buf at b) start (suc n) ≡ window buf start n ++ (b ∷ [])
window-set buf b zero start at size hs hn e =
    ap (λ x. x ∷ [])
      (ap (λ i. get_or (set buf i b) start 0) {x = at} {y = start} (omega arith)
        ∙ get_or-set_self buf start b 0 (omega arith))
window-set buf b (suc n) start at size hs hn e =
    ap₂ ◌∷◌ (get_or-set_ne buf at start b 0 (omega arith)) (
      window-set buf b n ((start + 1) % pipe_buf_size) at size (omega arith) (omega arith)
        (omega arith))

-- The queue after one byte has been put in.
abbrev pushed : ℕ → Pipe → Pipe
pushed b p = record p {
  buf = set p.buf p.head b;
  head = (p.head + 1) % pipe_buf_size;
  count = p.count + 1;
}

pushed-IsRing : (b : ℕ) (p : Pipe) → IsRing p → p.count < pipe_buf_size → IsRing (pushed b p)
pushed-IsRing b p r room = record {
  size = length-set p.buf p.head b ∙ r.size;
  tail_in = r.tail_in;
  count_in = omega arith;
  head_at = omega (arith, r.head_at);
}

contents-pushed :
    (b : ℕ) (p : Pipe)
    → IsRing p
    → p.count < pipe_buf_size
    → contents (pushed b p) ≡ contents p ++ (b ∷ [])
contents-pushed b p r room =
    ap (window (set p.buf p.head b) p.tail) {x = p.count + 1} {y = suc p.count} (omega arith)
    ∙ window-set p.buf b p.count p.tail p.head r.size r.tail_in room r.head_at

-- All that the bytes put in change: the queue grows by them at its end.
pub record Wrote (bytes : List ℕ) (p q : Pipe) : Type 0 where
  pub ring : IsRing q
  pub queue : contents q ≡ contents p ++ bytes
  pub counted : q.count ≡ p.count + length bytes
  pub same_refs : (q.read_refs ≡ p.read_refs) × (q.write_refs ≡ p.write_refs) × (q.used ≡ p.used)
  pub same_waiters : (q.read_waiter ≡ p.read_waiter) × (q.write_waiter ≡ p.write_waiter)

Wrote-cons :
    (b : ℕ) (bytes : List ℕ) (p q : Pipe)
    → IsRing p
    → p.count < pipe_buf_size
    → Wrote bytes (pushed b p) q
    → Wrote (b ∷ bytes) p q
Wrote-cons b bytes p q r room w = record {
  ring = w.ring;
  queue =
      w.queue
      ∙ ap (λ c. c ++ bytes) (contents-pushed b p r room)
      ∙ append_assoc (contents p) (b ∷ []) bytes;
  counted = omega (arith, w.counted);
  same_refs = w.same_refs;
  same_waiters = w.same_waiters;
}

pub write_bytes-Wrote :
    (bytes : List ℕ) (p : Pipe)
    → IsRing p
    → p.count + length bytes ≤ pipe_buf_size
    → Wrote bytes p (write_bytes bytes p)
unfolding write_bytes
write_bytes-Wrote [] p r fits = record {
  ring = r;
  queue = sym (append-nil (contents p));
  counted = omega arith;
  same_refs = (refl, refl, refl);
  same_waiters = (refl, refl);
}
write_bytes-Wrote (b ∷ bytes) p r fits =
    Wrote-cons b bytes p (write_bytes bytes (pushed b p)) r (omega arith)
      (write_bytes-Wrote bytes (pushed b p) (pushed-IsRing b p r (omega arith)) (omega arith))

-- All that the bytes taken out change: they were the first of the queue.
pub record Read (room : ℕ) (p : Pipe) (out : List ℕ × Pipe) : Type 0 where
  pub ring : IsRing out.1
  pub bytes : out.0 ≡ take room (contents p)
  pub queue : contents out.1 ≡ drop room (contents p)
  pub counted : out.1.count + length out.0 ≡ p.count
  pub same_refs :
      (out.1.read_refs ≡ p.read_refs) × (out.1.write_refs ≡ p.write_refs) × (out.1.used ≡ p.used)
  pub same_waiters : (out.1.read_waiter ≡ p.read_waiter) × (out.1.write_waiter ≡ p.write_waiter)

abbrev popped : Pipe → Pipe
popped p = record p { tail = (p.tail + 1) % pipe_buf_size; count = p.count - 1 }

popped-IsRing : (p : Pipe) → IsRing p → p.count ≢ 0 → IsRing (popped p)
popped-IsRing p r some_left = record {
  size = r.size;
  tail_in = omega arith;
  count_in = omega (arith, r.count_in);
  head_at = omega (arith, r.head_at, r.count_in);
}

contents-popped :
    (p : Pipe) → p.count ≢ 0 → contents p ≡ get_or p.buf p.tail 0 ∷ contents (popped p)
contents-popped p some_left =
    ap (window p.buf p.tail) {x = p.count} {y = suc (p.count - 1)} (omega arith)

Read-cons :
    (room : ℕ) (p : Pipe) (out : List ℕ × Pipe)
    → p.count ≢ 0
    → Read room (popped p) out
    → Read (suc room) p (get_or p.buf p.tail 0 ∷ out.0, out.1)
Read-cons room p out some_left r = record {
  ring = r.ring;
  bytes =
      ap (◌∷◌ (get_or p.buf p.tail 0)) r.bytes
      ∙ ap (take (suc room)) (sym (contents-popped p some_left));
  queue = r.queue ∙ ap (drop (suc room)) (sym (contents-popped p some_left));
  counted = omega (arith, r.counted);
  same_refs = r.same_refs;
  same_waiters = r.same_waiters;
}

Read-none : (room : ℕ) (p : Pipe) → IsRing p → (room ≡ 0) ⊎ (p.count ≡ 0) → Read room p ([], p)
Read-none zero p r h = record {
  ring = r;
  bytes = refl;
  queue = refl;
  counted = omega arith;
  same_refs = (refl, refl, refl);
  same_waiters = (refl, refl);
}
Read-none (suc room) p r (inl h) = absurd (omega arith)
Read-none (suc room) p r (inr empty) = record {
  ring = r;
  bytes = sym (ap (take (suc room)) (ap (window p.buf p.tail) empty));
  queue =
      ap (window p.buf p.tail) empty ∙ sym (ap (drop (suc room)) (ap (window p.buf p.tail) empty));
  counted = omega arith;
  same_refs = (refl, refl, refl);
  same_waiters = (refl, refl);
}

pub read_bytes-Read : (room : ℕ) (p : Pipe) → IsRing p → Read room p (read_bytes room p)
unfolding read_bytes
read_bytes-Read zero p r = Read-none zero p r (inl refl)
read_bytes-Read (suc room) p r = elim (ℕ_discrete p.count 0) [
  | yes empty ↦
      let e : ([], p) ≡ read_bytes (suc room) p = ground arith in
      subst (Read (suc room) p) e (Read-none (suc room) p r (inr empty))
  | no some_left ↦
      let e : (
        get_or p.buf p.tail 0 ∷ (read_bytes room (popped p)).0,
        (read_bytes room (popped p)).1,
      )
          ≡ read_bytes (suc room) p =
        ground arith in
      subst (Read (suc room) p) e (
        Read-cons room p (read_bytes room (popped p)) some_left
          (read_bytes-Read room (popped p) (popped-IsRing p r some_left)))
]
