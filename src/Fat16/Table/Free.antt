-- ===== src/Fat16/Table/Free.antt =====
-- kernel/fs/fat16.c: `fat16_free_chain` ends, and what it frees.
use mathlib.Core.Option.{some-injective}
use native.Mathlib.Decide.{ℕ_discrete, dec_lt}
use mathlib.Core.List.{Memᴰ}
use mathlib.Core.List.Memᴰ
use null_os.Prelude.{
  ℕ, zero, suc, ◌+◌, ◌≤◌, ◌≡◌, refl, sym, ap, subst, ◌∙◌, ◌≢◌, inl, inr, true, false, Bool-cases,
  some, List, [], ◌∷◌, length, get_or, set, arith, length-set, get_or-set_self, get_or-set_ne,
  get_or_beyond,
}
use null_os.Fat16.{Volume, entry, set_entry, is_cluster, free_chain_rounds, free_chain}
use null_os.Fat16.Table.{Chain, ended, linked, Chain-once}

-- The entries of `cs` set to 0.
pub clear : List ℕ → Volume → Volume
clear [] v = v
clear (c ∷ cs) v = clear cs (set_entry c 0 v)

entry-set_entry_ne : (v : Volume) (c d x : ℕ) → c ≢ d → entry (set_entry c x v) d ≡ entry v d
entry-set_entry_ne v c d x ne = get_or-set_ne v.fat c d x 0 ne

-- A table has no entry that is not 0 out of its bounds.
pub entry-set_entry_zero : (v : Volume) (c : ℕ) → entry (set_entry c 0 v) c ≡ 0
entry-set_entry_zero v c = elim (dec_lt c (length v.fat)) [
  | yes inside ↦ get_or-set_self v.fat c 0 0 inside
  | no beyond ↦ get_or_beyond (set v.fat c 0) c 0 (omega (arith, length-set v.fat c 0))
]

Chain-set_entry :
    (v : Volume) (c x d : ℕ) (cs : List ℕ)
    → Chain v d cs
    → (Memᴰ c cs → ⊥)
    → Chain (set_entry c x v) d cs
Chain-set_entry v c x d [] (ended e) out = ended e
Chain-set_entry v c x d (d' ∷ cs) (linked e k) out = linked e (
    subst (λ y. Chain (set_entry c x v) y cs)
      (sym (entry-set_entry_ne v c d x (λ p. out (Memᴰ.head p))))
      (Chain-set_entry v c x (entry v d) cs k (λ m. out (Memᴰ.tail m))))

-- One round of the loop.
round-ended :
    (fuel c : ℕ) (v : Volume) → is_cluster c ≡ false → free_chain_rounds (suc fuel) c v ≡ some v
unfolding free_chain_rounds
round-ended fuel c v e = rw e

round-linked :
    (fuel c : ℕ) (v : Volume)
    → is_cluster c ≡ true
    → free_chain_rounds (suc fuel) c v ≡ free_chain_rounds fuel (entry v c) (set_entry c 0 v)
unfolding free_chain_rounds
round-linked fuel c v e = rw e

no_rounds : (c : ℕ) (v u : Volume) → free_chain_rounds 0 c v ≡ some u → ⊥
unfolding free_chain_rounds
no_rounds c v u e = cc

-- A run of the loop that ends has cleared the chain, whatever its fuel.
free_chain_rounds-clear :
    (fuel c : ℕ) (cs : List ℕ) (v u : Volume)
    → Chain v c cs
    → free_chain_rounds fuel c v ≡ some u
    → u ≡ clear cs v
unfolding clear
free_chain_rounds-clear zero c cs v u k e = absurd (no_rounds c v u e)
free_chain_rounds-clear (suc fuel) c [] v u (ended f) e =
    some-injective u v (sym e ∙ round-ended fuel c v f)
free_chain_rounds-clear (suc fuel) c (c' ∷ cs) v u (linked f k) e =
    free_chain_rounds-clear fuel (entry v c) cs (set_entry c 0 v) u
      (Chain-set_entry v c 0 (entry v c) cs k (Chain-once v c cs (linked f k)))
      (sym (round-linked fuel c v f) ∙ e)

-- The loop ends: every round but the last two clears an entry that is not 0.
occupied : List ℕ → ℕ
occupied [] = 0
occupied (zero ∷ ws) = occupied ws
occupied (suc w ∷ ws) = suc (occupied ws)

occupied-le : (ws : List ℕ) → occupied ws ≤ length ws
unfolding occupied
occupied-le [] = omega arith
occupied-le (zero ∷ ws) = omega (arith, occupied-le ws)
occupied-le (suc w ∷ ws) = omega (arith, occupied-le ws)

occupied-set : (ws : List ℕ) (c : ℕ) → get_or ws c 0 ≢ 0 → suc (occupied (set ws c 0)) ≡ occupied ws
unfolding occupied
occupied-set [] c ne = absurd (ne refl)
occupied-set (zero ∷ ws) zero ne = absurd (ne refl)
occupied-set (suc w ∷ ws) zero ne = refl
occupied-set (zero ∷ ws) (suc c) ne = occupied-set ws c ne
occupied-set (suc w ∷ ws) (suc c) ne = ap suc (occupied-set ws c ne)

zero-is_cluster : is_cluster 0 ≡ false
unfolding is_cluster
zero-is_cluster = refl

free_chain_rounds-ends :
    (fuel c : ℕ) (v : Volume)
    → occupied v.fat + 2 ≤ fuel
    → (u : Volume) × (free_chain_rounds fuel c v ≡ some u)
free_chain_rounds-ends zero c v le = absurd (omega arith)
free_chain_rounds-ends (suc zero) c v le = absurd (omega arith)
free_chain_rounds-ends (suc (suc fuel)) c v le = elim (Bool-cases (is_cluster c)) [
  | inr f ↦ (v, round-ended (suc fuel) c v f)
  | inl t ↦ elim (ℕ_discrete (entry v c) 0) [
    | yes z ↦ (
      set_entry c 0 v,
      round-linked (suc fuel) c v t
          ∙ round-ended fuel (entry v c) (set_entry c 0 v) (ap is_cluster z ∙ zero-is_cluster),
    )
    | no nz ↦
        let (u, e) =
          free_chain_rounds-ends (suc fuel) (entry v c) (set_entry c 0 v)
            (omega (arith, occupied-set v.fat c nz)) in
        (u, round-linked (suc fuel) c v t ∙ e)
  ]
]

-- `fat16_free_chain` ends whatever the table holds, also where its links run in a circle.
pub free_chain-terminates : (c : ℕ) (v : Volume) → (u : Volume) × (free_chain c v ≡ some u)
unfolding free_chain
free_chain-terminates c v =
    free_chain_rounds-ends (length v.fat + 2) c v (omega (arith, occupied-le v.fat))

-- The clusters `cs` are free in `u`; all else is as in `v`.
pub record Freed (cs : List ℕ) (v u : Volume) : Type 0 where
  pub freed : (d : ℕ) → Memᴰ d cs → entry u d ≡ 0
  pub kept : (d : ℕ) → (Memᴰ d cs → ⊥) → entry u d ≡ entry v d
  pub same_disk : u.disk ≡ v.disk
  pub same_layout : u.layout ≡ v.layout
  pub same_size : length u.fat ≡ length v.fat

clear-keeps_zero : (cs : List ℕ) (v : Volume) (d : ℕ) → entry v d ≡ 0 → entry (clear cs v) d ≡ 0
unfolding clear
clear-keeps_zero [] v d z = z
clear-keeps_zero (c ∷ cs) v d z = clear-keeps_zero cs (set_entry c 0 v) d (elim (ℕ_discrete c d) [
  | yes e ↦ subst (λ x. entry (set_entry c 0 v) x ≡ 0) e (entry-set_entry_zero v c)
  | no ne ↦ entry-set_entry_ne v c d 0 ne ∙ z
])

Freed-cons :
    (c : ℕ) (cs : List ℕ) (v : Volume)
    → Freed cs (set_entry c 0 v) (clear cs (set_entry c 0 v))
    → Freed (c ∷ cs) v (clear cs (set_entry c 0 v))
Freed-cons c cs v rest = record {
  freed = λ d m. elim (Memᴰ.cases_cons m) [
    | inl e ↦
        clear-keeps_zero cs (set_entry c 0 v) d
          (subst (λ x. entry (set_entry c 0 v) x ≡ 0) (sym e) (entry-set_entry_zero v c))
    | inr n ↦ rest.freed d n
  ];
  kept = λ d out.
      rest.kept d (λ m. out (Memᴰ.tail m))
      ∙ entry-set_entry_ne v c d 0 (λ e. out (Memᴰ.head (sym e)));
  same_disk = rest.same_disk;
  same_layout = rest.same_layout;
  same_size = rest.same_size ∙ length-set v.fat c 0;
}

clear-Freed : (cs : List ℕ) (v : Volume) → Freed cs v (clear cs v)
unfolding clear
clear-Freed [] v = record {
  freed = λ d m. absurd (Memᴰ.not-nil m);
  kept = λ d out. refl;
  same_disk = refl;
  same_layout = refl;
  same_size = refl;
}
clear-Freed (c ∷ cs) v = Freed-cons c cs v (clear-Freed cs (set_entry c 0 v))

-- Of a chain that ends, `fat16_free_chain` frees every cluster, and it changes nothing else.
pub free_chain-Freed :
    (c : ℕ) (cs : List ℕ) (v : Volume)
    → Chain v c cs
    → (u : Volume) × (free_chain c v ≡ some u) × Freed cs v u
unfolding free_chain
free_chain-Freed c cs v k =
    let (u, e) = free_chain-terminates c v in
    (
      u,
      e,
      subst (Freed cs v) (sym (free_chain_rounds-clear (length v.fat + 2) c cs v u k e))
          (clear-Freed cs v),
    )
