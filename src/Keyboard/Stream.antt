-- ===== src/Keyboard/Stream.antt =====
-- The keyboard as a stream: any interleaving of key interrupts and reads.
use null_os.Prelude.{
  ℕ, ◌≡◌, sym, ap, ◌∙◌, inl, inr, Bool-cases, Option, none, some, List, [], ◌∷◌, ◌++◌, append-nil,
  append_assoc, if◌then◌else◌,
}
use null_os.Keyboard.{
  Ring, Keyboard, pop, keyboard_callback, getchar_nowait, raw_nowait, getchar, haschar,
}
use null_os.Keyboard.Typing.{IsKeyboard, typed_by_key, keyboard_callback-Typed}
use null_os.Keyboard.Queue.{queue, pop_lem}

pub data Event : Type 0 where
  interrupts : ℕ → Event
  reads_char : Event
  waits_char : (codes : List ℕ) → Event
  reads_raw : Event

unfoldable pub step : Event → Keyboard → Keyboard
step (interrupts scancode) k = keyboard_callback scancode k
step reads_char k = (getchar_nowait k).1
step (waits_char codes) k = (getchar codes k).1
step reads_raw k = (raw_nowait k).1

-- The characters that come in while `keyboard_getchar` halts.
unfoldable pub typed_while : (codes : List ℕ) → Keyboard → List ℕ
typed_while [] k = []
typed_while (scancode ∷ codes) k =
    let later = typed_by_key scancode k ++ typed_while codes (keyboard_callback scancode k) in
    if haschar k then [] else later

-- The characters that a step adds.
unfoldable pub typed_by : Event → Keyboard → List ℕ
typed_by (interrupts scancode) k = typed_by_key scancode k
typed_by reads_char k = []
typed_by (waits_char codes) k = typed_while codes k
typed_by reads_raw k = []

abbrev pub as_list : Option ℕ → List ℕ
as_list none = []
as_list (some c) = c ∷ []

-- The characters that a step returns.
unfoldable pub returned_by : Event → Keyboard → List ℕ
returned_by (interrupts scancode) k = []
returned_by reads_char k = as_list (getchar_nowait k).0
returned_by (waits_char codes) k = as_list (getchar codes k).0
returned_by reads_raw k = []

unfoldable pub run : List Event → Keyboard → Keyboard
run [] k = k
run (e ∷ es) k = run es (step e k)

unfoldable pub typed : List Event → Keyboard → List ℕ
typed [] k = []
typed (e ∷ es) k = typed_by e k ++ typed es (step e k)

unfoldable pub returned : List Event → Keyboard → List ℕ
returned [] k = []
returned (e ∷ es) k = returned_by e k ++ returned es (step e k)

-- A read that does not wait.
getchar_nowait-flow :
    (k : Keyboard)
    → IsKeyboard k
    → (queue k.chars ≡ as_list (getchar_nowait k).0 ++ queue (getchar_nowait k).1.chars)
      × IsKeyboard (getchar_nowait k).1
unfolding getchar_nowait
getchar_nowait-flow k v = (
  elim (pop_lem k.chars v.chars).1 [
    | inl (empty, e) ↦ sym (ap (λ (p : Option ℕ × Ring). as_list p.0 ++ queue p.1) e)
    | inr (c, out, rest) ↦ rest ∙ sym (ap (λ o. as_list o ++ queue (pop k.chars).1) out)
  ],
  record { chars = (pop_lem k.chars v.chars).0; raws = v.raws },
)

-- A read that waits: what came in meanwhile, up to its return.
getchar-flow :
    (codes : List ℕ) (k : Keyboard)
    → IsKeyboard k
    → (queue k.chars ++ typed_while codes k
        ≡ as_list (getchar codes k).0 ++ queue (getchar codes k).1.chars)
      × IsKeyboard (getchar codes k).1
unfolding getchar typed_while
getchar-flow [] k v = let (q, w) = getchar_nowait-flow k v in (append-nil (queue k.chars) ∙ q, w)
getchar-flow (scancode ∷ codes) k v =
    let (q, w) = getchar_nowait-flow k v in
    let (typed_now, x) = keyboard_callback-Typed scancode k v in
    let (later, y) = getchar-flow codes (keyboard_callback scancode k) x in
    elim (Bool-cases (haschar k)) [
      | inl some_wait ↦ rw (getchar, typed_while, some_wait) (append-nil (queue k.chars) ∙ q, w)
      | inr empty ↦
          rw (getchar, typed_while, empty)
            (
              sym (
                    append_assoc (queue k.chars) (typed_by_key scancode k)
                      (typed_while codes (keyboard_callback scancode k)))
                  ∙ ap (λ l. l ++ typed_while codes (keyboard_callback scancode k)) (sym typed_now)
                  ∙ later,
              y,
            )
    ]

-- One step: what waited and what came in is what went out and what waits.
step-flow :
    (e : Event) (k : Keyboard)
    → IsKeyboard k
    → (queue k.chars ++ typed_by e k ≡ returned_by e k ++ queue (step e k).chars)
      × IsKeyboard (step e k)
unfolding step typed_by returned_by getchar_nowait raw_nowait
step-flow (interrupts scancode) k v =
    let (q, w) = keyboard_callback-Typed scancode k v in (sym q, w)
step-flow reads_raw k v =
    (append-nil (queue k.chars), record { chars = v.chars; raws = (pop_lem k.raws v.raws).0 })
step-flow reads_char k v =
    let (q, w) = getchar_nowait-flow k v in (append-nil (queue k.chars) ∙ q, w)
step-flow (waits_char codes) k v = getchar-flow codes k v

-- In any interleaving of key interrupts and reads, those that wait and those that do not, from a
-- keyboard whose rings are in range, the characters that waited and those typed since, in order, are
-- those returned and those that still wait; the rings stay in range. A key with a character is typed if
-- fewer than 255 wait, whatever the modifiers.
pub keyboard_flow :
    (es : List Event) (k : Keyboard)
    → IsKeyboard k
    → (queue k.chars ++ typed es k ≡ returned es k ++ queue (run es k).chars)
      × IsKeyboard (run es k)
unfolding run typed returned
keyboard_flow [] k v = (append-nil (queue k.chars), v)
keyboard_flow (e ∷ es) k v =
    let (here, w) = step-flow e k v in
    let (there, x) = keyboard_flow es (step e k) w in
    (
      sym (append_assoc (queue k.chars) (typed_by e k) (typed es (step e k)))
          ∙ ap (λ l. l ++ typed es (step e k)) here
          ∙ append_assoc (returned_by e k) (queue (step e k).chars) (typed es (step e k))
          ∙ ap (λ l. returned_by e k ++ l) there
          ∙ sym (
              append_assoc (returned_by e k) (returned es (step e k))
                (queue (run es (step e k)).chars)),
      x,
    )
