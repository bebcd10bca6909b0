-- ===== src/Process/Slots.antt =====
-- The table of kernel/process.c as an array of slots: reading a slot after a write, and the scan for
-- a free one.
use native.Mathlib.Decide.{ℕ_discrete}
use null_os.Prelude.{
  ℕ, zero, suc, ◌+◌, ◌≤◌, ◌<◌, ◌≡◌, refl, ap, subst, ◌-◌, ◌∙◌, ◌≢◌, ◌⊎◌, inl, inr, arith, true,
  false, none, some, List, [], ◌∷◌, map, length, get_or, modify, get_or-modify_self,
  get_or-modify_ne, get_or-map, Bool-cases,
}
use null_os.Process.{Table, Process, empty_slot, at, is_unused, find_unused}

-- A write to slot `i` is read in slot `i` alone.
module _ (t : Table) (i : ℕ) (f : Process → Process) where
  abbrev pub written : Table
  written = record t { procs = modify t.procs i f }

  pub at-written_self : i < length t.procs → at written i ≡ f (at t i)
  at-written_self h = get_or-modify_self t.procs i f empty_slot h

  pub at-written_ne : (j : ℕ) → i ≢ j → at written j ≡ at t j
  at-written_ne j ne = get_or-modify_ne t.procs i j f empty_slot ne

-- An update that leaves the empty slot alone acts on every slot.
pub at_mapped :
    (t : Table) (f : Process → Process) (i : ℕ)
    → f empty_slot ≡ empty_slot
    → at (record t { procs = map f t.procs }) i ≡ f (at t i)
at_mapped t f i e =
    subst (λ d. get_or (map f t.procs) i d ≡ f (at t i)) e (get_or-map t.procs f i empty_slot)

-- The scan finds the lowest unused slot.
pub record Lowest (ps : List Process) (start slot : ℕ) : Type 0 where
  pub from_start : start ≤ slot
  pub in_table : slot < start + length ps
  pub unused_there : is_unused (get_or ps (slot - start) empty_slot).state ≡ true
  pub used_before :
      (j : ℕ) → start ≤ j → j < slot → is_unused (get_or ps (j - start) empty_slot).state ≡ false

get_or_next :
    (p : Process) (ps : List Process) (k : ℕ)
    → 1 ≤ k
    → get_or (p ∷ ps) k empty_slot ≡ get_or ps (k - 1) empty_slot
get_or_next p ps zero h = absurd (omega arith)
get_or_next p ps (suc k) h = ap (λ n. get_or ps n empty_slot) {x = k} {y = suc k - 1} (omega arith)

Lowest-cons :
    (p : Process) (ps : List Process) (start slot : ℕ)
    → is_unused p.state ≡ false
    → Lowest ps (start + 1) slot
    → Lowest (p ∷ ps) start slot
Lowest-cons p ps start slot used l = record {
  from_start = omega (arith, l.from_start);
  in_table = omega (arith, l.in_table);
  unused_there =
      ap (λ (q : Process). is_unused q.state)
        (get_or_next p ps (slot - start) (omega (arith, l.from_start))
          ∙ ap (λ n. get_or ps n empty_slot) {x = slot - start - 1} {y = slot - (start + 1)}
              (omega arith))
      ∙ l.unused_there;
  used_before = λ j le lt. elim (ℕ_discrete j start) [
    | yes here ↦
        ap (λ n. is_unused (get_or (p ∷ ps) n empty_slot).state) {x = j - start} {y = 0}
          (omega arith)
        ∙ used
    | no later ↦
        ap (λ (q : Process). is_unused q.state)
          (get_or_next p ps (j - start) (omega arith)
            ∙ ap (λ n. get_or ps n empty_slot) {x = j - start - 1} {y = j - (start + 1)}
                (omega arith))
        ∙ l.used_before j (omega arith) lt
  ];
}

pub find_unused-cases :
    (ps : List Process) (start : ℕ)
    → ((find_unused ps start ≡ none)
        × ((j : ℕ) → j < length ps → is_unused (get_or ps j empty_slot).state ≡ false))
      ⊎ ((slot : ℕ) × (find_unused ps start ≡ some slot) × Lowest ps start slot)
unfolding find_unused
find_unused-cases [] start = inl (refl, λ j h. absurd (omega arith))
find_unused-cases (p ∷ ps) start = elim (Bool-cases (is_unused p.state)) [
  | inl free ↦ inr (
    start,
    rw free,
    record {
      from_start = omega arith;
      in_table = omega arith;
      unused_there =
          ap (λ n. is_unused (get_or (p ∷ ps) n empty_slot).state) {x = start - start} {y = 0}
            (omega arith)
          ∙ free;
      used_before = λ j le lt. absurd (omega arith);
    },
  )
  | inr used ↦ elim (find_unused-cases ps (start + 1)) [
    | inl (e, all) ↦ inl (rw used e, used_all used all)
    | inr (slot, e, l) ↦ inr (slot, rw used e, Lowest-cons p ps start slot used l)
  ]
]
  where
    used_all :
        is_unused p.state ≡ false
        → ((j : ℕ) → j < length ps → is_unused (get_or ps j empty_slot).state ≡ false)
        → (j : ℕ) → j < length (p ∷ ps)
        → is_unused (get_or (p ∷ ps) j empty_slot).state ≡ false
    used_all used all zero h = used
    used_all used all (suc j) h = all j (omega arith)
