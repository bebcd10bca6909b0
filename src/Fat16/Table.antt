-- ===== src/Fat16/Table.antt =====
-- kernel/fs/fat16.c, the allocation table: which cluster `fat16_alloc_cluster` hands out, and chains
-- of clusters.
pub mod Free
use native.Mathlib.Decide.{ℕ_discrete, dec_lt}
use mathlib.Core.List.{Memᴰ}
use mathlib.Core.List.Memᴰ
use null_os.Prelude.{
  ℕ, zero, suc, ◌+◌, ◌-◌, ◌≤◌, ◌<◌, ◌≡◌, refl, sym, ap, subst, ◌∙◌, ◌≢◌, ◌⊎◌, inl, inr, Bool, true,
  false, Bool-cases, Option, none, some, List, [], ◌∷◌, length, get_or, set, arith, length-set,
  get_or-set_self, get_or-set_ne, get_or_beyond, ==_of_ne,
}
use null_os.Fat16.{
  Volume, entry, set_entry, end_of_chain, is_cluster, free_chain_rounds, free_chain, alloc_from,
  alloc_cluster,
}

-- What `fat16_alloc_cluster` returns: the lowest free cluster, now the end of a chain, or nothing is
-- free.
pub AllUsed : Volume → (c to : ℕ) → Type 0
AllUsed v c to = (d : ℕ) → c ≤ d → d < to → entry v d ≢ 0

pub data Allocated (v : Volume) (to : ℕ) : ℕ × Volume → Type 0 where
  lowest_free :
      (c : ℕ)
      → 2 ≤ c
      → c < to
      → entry v c ≡ 0
      → AllUsed v 2 c
      → Allocated v to (c, set_entry c end_of_chain v)
  disk_full : AllUsed v 2 to → Allocated v to (0, v)

AllUsed-suc : (v : Volume) (c : ℕ) → AllUsed v 2 c → entry v c ≢ 0 → AllUsed v 2 (c + 1)
unfolding AllUsed
AllUsed-suc v c used taken d le lt = elim (ℕ_discrete d c) [
  | yes e ↦ λ z. taken (ap (entry v) (sym e) ∙ z)
  | no ne ↦ used d le (omega arith)
]

AllUsed-to : (v : Volume) (c to : ℕ) → c ≡ to → AllUsed v 2 c → AllUsed v 2 to
AllUsed-to v c to e used = subst (AllUsed v 2) e used

alloc_from-Allocated :
    (n c : ℕ) (v : Volume) → 2 ≤ c → AllUsed v 2 c → Allocated v (c + n) (alloc_from n c v)
unfolding alloc_from
alloc_from-Allocated zero c v le used = disk_full (AllUsed-to v c (c + 0) (omega arith) used)
alloc_from-Allocated (suc n) c v le used = elim (ℕ_discrete (entry v c) 0) [
  | yes free ↦ rw free (lowest_free c le (omega arith) free used)
  | no taken ↦ rw (==_of_ne (entry v c) 0 taken) (
      subst (λ to. Allocated v to (alloc_from n (c + 1) v)) {x = c + 1 + n} {y = c + suc n}
        (omega arith) (alloc_from-Allocated n (c + 1) v (omega arith) (AllUsed-suc v c used taken)))
]

-- `fat16_alloc_cluster` hands out the lowest free cluster, as the end of a chain; it returns 0, and
-- changes nothing, exactly when no cluster is free.
pub alloc_cluster-Allocated :
    (v : Volume) → Allocated v (2 + (v.layout.total_clusters - 2)) (alloc_cluster v)
unfolding alloc_cluster AllUsed
alloc_cluster-Allocated v =
    alloc_from-Allocated (v.layout.total_clusters - 2) 2 v (omega arith)
      (λ d le lt. absurd (omega arith))

-- Chains: the clusters that the table links from one on, up to an entry that is no cluster.
pub data Chain (v : Volume) : ℕ → List ℕ → Type 0 where
  ended : {c : ℕ} → is_cluster c ≡ false → Chain v c []
  linked : {c : ℕ} {cs : List ℕ} → is_cluster c ≡ true → Chain v (entry v c) cs → Chain v c (c ∷ cs)

Chain-unique : (v : Volume) (c : ℕ) (cs ds : List ℕ) → Chain v c cs → Chain v c ds → cs ≡ ds
Chain-unique v c [] [] (ended e) (ended f) = refl
Chain-unique v c [] (d ∷ ds) (ended e) (linked f k) = absurd (cc)
Chain-unique v c (d ∷ cs) [] (linked e k) (ended f) = absurd (cc)
Chain-unique v c (d ∷ cs) (d' ∷ ds) (linked e k) (linked f l) =
    ap (◌∷◌ c) (Chain-unique v (entry v c) cs ds k l)

pub Chain-head : (v : Volume) (c d : ℕ) (cs : List ℕ) → Chain v c (d ∷ cs) → c ≡ d
Chain-head v c d cs (linked e k) = refl

pub Chain-is_cluster :
    (v : Volume) (c d : ℕ) (cs : List ℕ) → Chain v c (d ∷ cs) → is_cluster c ≡ true
Chain-is_cluster v c d cs (linked e k) = e

pub Chain-tail : (v : Volume) (c d : ℕ) (cs : List ℕ) → Chain v c (d ∷ cs) → Chain v (entry v c) cs
Chain-tail v c d cs (linked e k) = k

-- The chain from one of its members on.
Chain-from :
    (v : Volume) (c d : ℕ) (cs : List ℕ)
    → Chain v c cs
    → Memᴰ d cs
    → (ds : List ℕ) × (Chain v d (d ∷ ds)) × (length ds < length cs)
Chain-from v c d [] k m = absurd (Memᴰ.not-nil m)
Chain-from v c d (c' ∷ cs) (linked e k) (Memᴰ.head p) =
    (cs, subst (λ x. Chain v x (x ∷ cs)) (sym p) (linked e k), omega arith)
Chain-from v c d (c' ∷ cs) (linked e k) (Memᴰ.tail m) =
    let (ds, l, lt) = Chain-from v (entry v c) d cs k m in (ds, l, omega (arith, lt))

-- No cluster of a chain that ends stands in it twice.
pub Chain-once : (v : Volume) (c : ℕ) (cs : List ℕ) → Chain v c (c ∷ cs) → Memᴰ c cs → ⊥
Chain-once v c cs k m =
    let (ds, l, lt) = Chain-from v (entry v c) c cs (Chain-tail v c c cs k) m in
    omega (arith, lt, ap length (Chain-unique v c (c ∷ cs) (c ∷ ds) k l))
