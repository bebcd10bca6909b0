-- ===== src/Keyboard/Queue.antt =====
-- A ring of the keyboard holds a queue of at most 255 entries, oldest first.
use native.Mathlib.Decide.{ℕ_discrete}
use null_os.Prelude.{
  ℕ, zero, suc, ◌+◌, ◌-◌, ◌%◌, ◌<◌, ◌≡◌, sym, ap, ap₂, subst, ◌∙◌, ◌⊎◌, inl, inr, arith, Bool, true,
  false, Option, none, some, List, [], ◌∷◌, ◌++◌, length, get_or, set, length-set, get_or-set_self,
  get_or-set_ne, ltb, if◌then◌else◌,
}
use null_os.Keyboard.{Ring, kb_buffer_size, push, pop}

abbrev pub entries : List ℕ → (start n : ℕ) → List ℕ
entries buf start zero = []
entries buf start (suc n) = get_or buf start 0 ∷ entries buf ((start + 1) % kb_buffer_size) n

-- The number of entries between the tail and the head.
abbrev pub held : Ring → ℕ
held r = (r.head + kb_buffer_size - r.tail) % kb_buffer_size

abbrev pub queue : Ring → List ℕ
queue r = entries r.buf r.tail (held r)

pub record IsRing (r : Ring) : Type 0 where
  pub size : length r.buf ≡ kb_buffer_size
  pub head_in : r.head < kb_buffer_size
  pub tail_in : r.tail < kb_buffer_size

entries-set :
    (buf : List ℕ) (b n start at : ℕ)
    → length buf ≡ kb_buffer_size
    → start < kb_buffer_size
    → n < kb_buffer_size
    → at ≡ (start + n) % kb_buffer_size
    → entries (set buf at b) start (suc n) ≡ entries buf start n ++ (b ∷ [])
entries-set buf b zero start at size hs hn e =
    ap (λ x. x ∷ [])
      (ap (λ i. get_or (set buf i b) start 0) {x = at} {y = start} (omega arith)
        ∙ get_or-set_self buf start b 0 (omega arith))
entries-set buf b (suc n) start at size hs hn e =
    ap₂ ◌∷◌ (get_or-set_ne buf at start b 0 (omega arith)) (
      entries-set buf b n ((start + 1) % kb_buffer_size) at size (omega arith) (omega arith)
        (omega arith))

abbrev pub pushed : ℕ → List ℕ → (room : Bool) → List ℕ
pushed c l room = if room then l ++ (c ∷ []) else l

-- An entry comes in at the end, and is lost if 255 entries are held.
pub push_lem :
    (c : ℕ) (r : Ring)
    → IsRing r
    → IsRing (push c r) × (queue (push c r) ≡ pushed c (queue r) (ltb (held r) 255))
unfolding push
push_lem c r v = elim (ℕ_discrete ((r.head + 1) % kb_buffer_size) r.tail) [
  | yes full ↦
      let e : r ≡ push c r = ground arith in
      let no_room : ltb (held r) 255 ≡ false = ground (arith, v.head_in, v.tail_in) in
      (
        subst IsRing e v,
        subst (λ u. queue u ≡ pushed c (queue r) (ltb (held r) 255)) e
            (sym (ap (pushed c (queue r)) no_room)),
      )
  | no room ↦
      let after : Ring = record r {
        buf = set r.buf r.head c;
        head = (r.head + 1) % kb_buffer_size;
      } in
      let e : after ≡ push c r = ground arith in
      let has_room : ltb (held r) 255 ≡ true = ground (arith, v.head_in, v.tail_in) in
      (
        subst IsRing e (record {
          size = length-set r.buf r.head c ∙ v.size;
          head_in = omega arith;
          tail_in = v.tail_in;
        }),
        subst (λ u. queue u ≡ pushed c (queue r) (ltb (held r) 255)) e
            (ap (entries after.buf r.tail) {x = held after} {y = suc (held r)}
                (omega (arith, v.head_in, v.tail_in, room))
              ∙ entries-set r.buf c (held r) r.tail r.head v.size v.tail_in (omega arith)
                  (omega (arith, v.head_in, v.tail_in))
              ∙ sym (ap (pushed c (queue r)) has_room)),
      )
]

-- The oldest entry comes out.
pub pop_lem :
    (r : Ring)
    → IsRing r
    → IsRing (pop r).1
      × (((queue r ≡ []) × (pop r ≡ (none, r)))
          ⊎ ((c : ℕ) × ((pop r).0 ≡ some c) × (queue r ≡ c ∷ queue (pop r).1)))
unfolding pop
pop_lem r v = elim (ℕ_discrete r.head r.tail) [
  | yes empty ↦
      let e : (none, r) ≡ pop r = ground arith in
      (
        subst (λ (p : Option ℕ × Ring). IsRing p.1) e v,
        inl (ap (entries r.buf r.tail) {x = held r} {y = 0} (omega (arith, v.tail_in)), sym e),
      )
  | no some_entry ↦
      let after : Ring = record r { tail = (r.tail + 1) % kb_buffer_size } in
      let e : (some (get_or r.buf r.tail 0), after) ≡ pop r = ground arith in
      (
        subst (λ (p : Option ℕ × Ring). IsRing p.1) e
            (record { size = v.size; head_in = v.head_in; tail_in = omega arith }),
        inr (
          get_or r.buf r.tail 0,
          sym (ap (λ (p : Option ℕ × Ring). p.0) e),
          ap (entries r.buf r.tail) {x = held r} {y = suc (held after)}
                (omega (arith, v.head_in, v.tail_in, some_entry))
              ∙ ap (λ (p : Option ℕ × Ring). get_or r.buf r.tail 0 ∷ queue p.1) e,
        ),
      )
]
