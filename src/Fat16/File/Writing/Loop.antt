-- ===== src/Fat16/File/Writing/Loop.antt =====
-- kernel/fs/fat16.c: the loop of `fat16_write_file` over the clusters: the chain that it builds and the
-- data in it, or a full disk.
use native.Mathlib.Decide.{dec_lt}
use mathlib.Core.List.{Memᴰ}
use mathlib.Core.List.Memᴰ
use null_os.Prelude.{
  ℕ, zero, suc, ◌+◌, ◌-◌, ◌*◌, ◌≤◌, ◌<◌, ◌≡◌, ◌≢◌, refl, sym, ap, subst, ◌∙◌, true, Option, none,
  some, List, [], ◌∷◌, ◌==◌, if◌then◌else◌, length, get_or, drop, arith, length-drop, get_or_beyond,
  ==_of_ne,
}
use null_os.Fat16.{Volume, entry, end_of_chain, is_cluster, alloc_cluster, bytes_per_cluster}
use null_os.Fat16.Table.{alloc_cluster-Allocated, AllUsed, Chain, ended, linked}
use null_os.Fat16.File.{write_clusters}
use null_os.Fat16.File.Reading.{contents}
use null_os.Fat16.File.Writing.{AllWorks, filled}
use null_os.Fat16.File.Writing.Clusters.{IsLaidOut, Grown}
use null_os.Fat16.File.Writing.Links.{new_table, new_table-first, new_table-next, new_table-link}
use null_os.Fat16.File.Writing.Round.{
  Outcome, extended, no_room, Round, one_more, full, body, write_clusters-body, round,
}

-- Nothing is left to write.
Grown-nothing : (v : Volume) (ks : List ℕ) → AllWorks v → Grown v ks [] [] v
unfolding contents
Grown-nothing v ks works = record {
  same_layout = refl;
  works = works;
  sizes = λ l e. e;
  table_size = refl;
  free_before = λ d m. absurd (Memᴰ.not-nil m);
  others = λ l out. refl;
  fits = omega arith;
  holds = ap (λ m. filled m []) {x = 0} {y = 0 * bytes_per_cluster v} (omega arith);
  kept = λ d out. refl;
}

some_bytes : (v : Volume) → IsLaidOut v.layout (length v.fat) → 1 ≤ bytes_per_cluster v
unfolding bytes_per_cluster
some_bytes v h = omega (arith, h.some_sectors)

module _ (p first : ℕ) (bytes : List ℕ) (v : Volume) (h : IsLaidOut v.layout (length v.fat))
    (ended_at : entry v (suc p) ≡ end_of_chain) (is_one : is_cluster (suc p) ≡ true) where
  in_table : suc p < length v.fat
  in_table = elim (dec_lt (suc p) (length v.fat)) [
    | yes lt ↦ lt
    | no ge ↦ absurd (omega (arith, get_or_beyond v.fat (suc p) 0 (omega arith), ended_at))
  ]

  link_taken :
      (c : ℕ)
      → 2 ≤ c
      → c < v.layout.total_clusters
      → 2 ≤ suc p
      → entry v c ≡ 0
      → get_or (new_table (suc p) c v) (suc p) 0 ≢ 0
  link_taken c low high le free z = omega (
    arith,
    new_table-link v c (omega (arith, h.in_table, high)) p
        (λ e. omega (arith, ended_at, subst (λ x. entry v x ≡ 0) (sym e) free)) in_table
        (omega (arith, h.few_clusters)),
    z,
    low,
  )

  grow_on : (r : Option ℕ × Volume) → Round v (suc p) first bytes r → Outcome v p first bytes r
  grow_on r (full u used) = no_room u used
  grow_on r (one_more c cs u g at_prev k) =
      subst (λ n. Outcome v p first bytes (some n, u)) {x = first}
        {y = if suc p == 0 then c else first} (rw (==_of_ne (suc p) 0 (λ e. omega (arith, e))) refl)
        (extended (c ∷ cs) u g (linked is_one (subst (λ x. Chain u x (c ∷ cs)) (sym link) k)))
    where
      not_new : Memᴰ (suc p) (c ∷ cs) → ⊥
      not_new m = omega (arith, ended_at, (g.free_before (suc p) m).0)

      bounds : (2 ≤ c) × (c < v.layout.total_clusters)
      bounds = ((g.free_before c (Memᴰ.head refl)).1, (g.free_before c (Memᴰ.head refl)).2)

      link : entry u (suc p) ≡ c
      link =
          at_prev not_new
          ∙ new_table-link v c (omega (arith, h.in_table, bounds)) p (λ e. not_new (Memᴰ.head e))
              in_table (omega (arith, h.few_clusters, bounds))

pub write_clusters-Outcome :
    (fuel p first : ℕ) (bytes : List ℕ) (v : Volume)
    → IsLaidOut v.layout (length v.fat)
    → AllWorks v
    → length bytes ≤ fuel
    → entry v (suc p) ≡ end_of_chain
    → is_cluster (suc p) ≡ true
    → Outcome v p first bytes (write_clusters fuel (suc p) first bytes v)
unfolding write_clusters is_cluster
write_clusters-Outcome fuel p first [] v h works le e is_one =
    extended [] v (Grown-nothing v (suc p ∷ []) works)
      (linked is_one (subst (λ x. Chain v x []) (sym e) (ended refl)))
write_clusters-Outcome zero p first (b ∷ bs) v h works le e is_one = absurd (omega arith)
write_clusters-Outcome (suc fuel) p first (b ∷ bs) v h works le e is_one =
    subst (Outcome v p first (b ∷ bs)) (sym (write_clusters-body fuel (suc p) first b bs v)) (
      grow_on p first (b ∷ bs) v h e is_one (body fuel (suc p) first b bs v (alloc_cluster v)) (
        round fuel (suc p) first b bs v h works (λ c inside. new_table-next v c inside p)
          (link_taken p first (b ∷ bs) v h e is_one)
          (λ c w h' works' e' one'.
            write_clusters-Outcome fuel c (if suc p == 0 then suc c else first)
              (drop (bytes_per_cluster v) (b ∷ bs)) w h' works'
              (omega (arith, length-drop (bytes_per_cluster v) (b ∷ bs), some_bytes v h)) e' one')
          (alloc_cluster v) (alloc_cluster-Allocated v)))

-- The whole loop, from no cluster on.
pub data Filling (v : Volume) (bytes : List ℕ) : Option ℕ × Volume → Type 0 where
  filling :
      (first : ℕ) (cs : List ℕ) (u : Volume)
      → Grown v (0 ∷ cs) cs bytes u
      → Chain u first cs
      → first < 65536
      → (bytes ≡ [] → first ≡ 0)
      → Filling v bytes (some first, u)
  disk_is_full :
      (u : Volume) → AllUsed u 2 (2 + (v.layout.total_clusters - 2)) → Filling v bytes (none, u)

module _ (bytes : List ℕ) (v : Volume) (h : IsLaidOut v.layout (length v.fat))
    (some_data : bytes ≢ []) where
  fill_on : (r : Option ℕ × Volume) → Round v 0 0 bytes r → Filling v bytes r
  fill_on r (full u used) = disk_is_full u used
  fill_on r (one_more c cs u g at_prev k) =
      filling c (c ∷ cs) u g k (omega (arith, h.few_clusters, (g.free_before c (Memᴰ.head refl)).2))
        (λ e. absurd (some_data e))

pub write_clusters-Filling :
    (bytes : List ℕ) (v : Volume)
    → IsLaidOut v.layout (length v.fat)
    → AllWorks v
    → Filling v bytes (write_clusters (length bytes) 0 0 bytes v)
unfolding write_clusters is_cluster
write_clusters-Filling [] v h works =
    filling 0 [] v (Grown-nothing v (0 ∷ []) works) (ended refl) (omega arith) (λ e. refl)
write_clusters-Filling (b ∷ bs) v h works =
    subst (Filling v (b ∷ bs)) (sym (write_clusters-body (length bs) 0 0 b bs v)) (
      fill_on (b ∷ bs) v h (λ e. cc) (body (length bs) 0 0 b bs v (alloc_cluster v))
        (round (length bs) 0 0 b bs v h works (new_table-first v)
          (λ c low high le free z. omega arith)
          (λ c w h' works' e' one'.
            write_clusters-Outcome (length bs) c (if 0 == 0 then suc c else 0)
              (drop (bytes_per_cluster v) (b ∷ bs)) w h' works'
              (omega (arith, length-drop (bytes_per_cluster v) (b ∷ bs), some_bytes v h)) e' one')
          (alloc_cluster v) (alloc_cluster-Allocated v)))
