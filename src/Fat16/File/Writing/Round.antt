-- ===== src/Fat16/File/Writing/Round.antt =====
-- kernel/fs/fat16.c: one round of the loop of `fat16_write_file` over the clusters, with the outcome of
-- those after it.
use native.Mathlib.Decide.{ℕ_discrete}
use mathlib.Core.List.{Memᴰ}
use null_os.Prelude.{
  ℕ, zero, suc, ◌+◌, ◌-◌, ◌≤◌, ◌<◌, ◌≡◌, ◌≢◌, refl, sym, ap, subst, ◌∙◌, Bool, true, Option, none,
  some, List, ◌∷◌, ◌==◌, if◌then◌else◌, length, get_or, drop, arith, ==_of_ne,
}
use null_os.Fat16.{
  Volume, entry, set_entry, end_of_chain, chain_end, is_cluster, alloc_cluster, cluster_to_lba,
  bytes_per_cluster,
}
use null_os.Fat16.Table.{Allocated, lowest_free, disk_full, AllUsed, Chain}
use null_os.Fat16.File.{link_after, write_sectors, write_clusters}
use null_os.Fat16.File.Writing.{AllWorks, on_disk, SectorsWritten, write_sectors-SectorsWritten}
use null_os.Fat16.File.Writing.Clusters.{
  IsLaidOut, Grown, Grown-cons, cluster_to_lba-start, cluster_end,
}
use null_os.Fat16.File.Writing.Links.{Linked, new_table, linked_volume}

-- What the loop leaves where it goes on behind the cluster `suc p`, the end of a chain.
pub data Outcome (v : Volume) (p first : ℕ) (bytes : List ℕ) : Option ℕ × Volume → Type 0 where
  extended :
      (cs : List ℕ) (u : Volume)
      → Grown v (suc p ∷ cs) cs bytes u
      → Chain u (suc p) (suc p ∷ cs)
      → Outcome v p first bytes (some first, u)
  no_room :
      (u : Volume)
      → AllUsed u 2 (2 + (v.layout.total_clusters - 2))
      → Outcome v p first bytes (none, u)

-- One round, with the outcome of those after it.
pub data Round (v : Volume) (prev first : ℕ) (bytes : List ℕ) : Option ℕ × Volume → Type 0 where
  one_more :
      (c : ℕ) (cs : List ℕ) (u : Volume)
      → Grown v (prev ∷ c ∷ cs) (c ∷ cs) bytes u
      → ((Memᴰ prev (c ∷ cs) → ⊥) → entry u prev ≡ get_or (new_table prev c v) prev 0)
      → Chain u c (c ∷ cs)
      → Round v prev first bytes (some (if prev == 0 then c else first), u)
  full :
      (u : Volume)
      → AllUsed u 2 (2 + (v.layout.total_clusters - 2))
      → Round v prev first bytes (none, u)

cluster_from_bounds : (c n : ℕ) → 2 ≤ c → c < n → n ≤ chain_end → is_cluster c ≡ true
unfolding is_cluster
cluster_from_bounds c n low high le = ground arith

-- The body of the loop, once `fat16_alloc_cluster` has returned `r`.
abbrev pub body : (fuel prev first b : ℕ) (bs : List ℕ) → Volume → ℕ × Volume → Option ℕ × Volume
body fuel prev first b bs v r =
    let written =
      write_sectors v.layout.sectors_per_cluster (cluster_to_lba v (r.0)) (b ∷ bs)
        (set_entry (r.0) end_of_chain (link_after prev (r.0) (r.1))) in
    let rest =
      write_clusters fuel (r.0) (if prev == 0 then r.0 else first)
        (drop (bytes_per_cluster v) (b ∷ bs)) (written.1) in
    if r.0 == 0 then (none, r.1) else (if written.0 then rest else (none, written.1))

pub write_clusters-body :
    (fuel prev first b : ℕ) (bs : List ℕ) (v : Volume)
    → write_clusters (suc fuel) prev first (b ∷ bs) v
      ≡ body fuel prev first b bs v (alloc_cluster v)
unfolding write_clusters
write_clusters-body fuel prev first b bs v = refl

module _ (fuel prev first b : ℕ) (bs : List ℕ) (v : Volume) (h : IsLaidOut v.layout (length v.fat))
    (works : AllWorks v) (table : (c : ℕ) → c < length v.fat → Linked v prev c (new_table prev c v))
    (link_taken : (c : ℕ)
      → 2 ≤ c
      → c < v.layout.total_clusters
      → 2 ≤ prev
      → entry v c ≡ 0
      → get_or (new_table prev c v) prev 0 ≢ 0)
    (further : (c : ℕ) (w : Volume)
      → IsLaidOut w.layout (length w.fat)
      → AllWorks w
      → entry w (suc c) ≡ end_of_chain
      → is_cluster (suc c) ≡ true
      → Outcome w c (if prev == 0 then suc c else first) (drop (bytes_per_cluster v) (b ∷ bs)) (
          write_clusters fuel
            (suc c)
            (if prev == 0 then suc c else first)
            (drop (bytes_per_cluster v) (b ∷ bs))
            w)) where
  module _ (c : ℕ) (low : 2 ≤ suc c) (high : suc c < v.layout.total_clusters)
      (free : entry v (suc c) ≡ 0) where
    abbrev fat : List ℕ
    fat = new_table prev (suc c) v

    links : Linked v prev (suc c) fat
    links = table (suc c) (omega (arith, h.in_table, high))

    w :
        SectorsWritten v.layout.sectors_per_cluster
          (cluster_to_lba v (suc c))
          (b ∷ bs)
          (record v { fat = fat })
    w =
        write_sectors-SectorsWritten v.layout.sectors_per_cluster (cluster_to_lba v (suc c))
          (b ∷ bs) (record v { fat = fat }) works
          (omega (
            arith,
            cluster_to_lba-start v (suc c) h low high,
            cluster_end v.layout (length v.fat) (suc c) h low high,
          ))

    abbrev written : Volume
    written = on_disk w.after (record v { fat = fat })

    abbrev result : Option ℕ × Volume
    result =
        write_clusters fuel (suc c) (if prev == 0 then suc c else first)
          (drop (bytes_per_cluster v) (b ∷ bs)) written

    body-result : body fuel prev first b bs v (suc c, set_entry (suc c) end_of_chain v) ≡ result
    body-result = rw (==_of_ne (suc c) 0 (λ e. omega (arith, e))) (
        ap
          (λ (r : Bool × Volume).
            if r.0
            then write_clusters fuel (suc c) (if prev == 0 then suc c else first)
                (drop (bytes_per_cluster v) (b ∷ bs)) r.1
            else (none, r.1))
          (ap (write_sectors v.layout.sectors_per_cluster (cluster_to_lba v (suc c)) (b ∷ bs))
              (linked_volume prev (suc c) v)
            ∙ w.result))

    taken : get_or fat (suc c) 0 ≢ 0
    taken e = absurd (cc (links.at_new, e))

    still_free : (d : ℕ) → 2 ≤ d → d ≢ suc c → get_or fat d 0 ≡ 0 → entry v d ≡ 0
    still_free d le ne z = elim (ℕ_discrete d prev) [
      | yes same ↦ absurd (
          link_taken (suc c) low high (subst (λ x. 2 ≤ x) same le) free
            (subst (λ x. get_or fat x 0 ≡ 0) same z))
      | no other ↦ sym (links.elsewhere d ne other) ∙ z
    ]

    from_rest :
        (r : Option ℕ × Volume)
        → Outcome written c
            (if prev == 0 then suc c else first)
            (drop (bytes_per_cluster v) (b ∷ bs))
            r
        → Round v prev first (b ∷ bs) r
    from_rest r (no_room u used) = full u used
    from_rest r (extended cs u g k) =
        one_more (suc c) cs u
          (Grown-cons v prev (suc c) fat (b ∷ bs) h works free low high links.size taken still_free
            links.elsewhere w cs u g)
          (λ out. g.kept prev out) k

    with_taken :
        Round v prev first
          (b ∷ bs)
          (body fuel prev first b bs v (suc c, set_entry (suc c) end_of_chain v))
    with_taken = subst (Round v prev first (b ∷ bs)) (sym body-result) (
        from_rest result (
          further c written (subst (IsLaidOut v.layout) (sym links.size) h) works links.at_new
            (cluster_from_bounds (suc c) v.layout.total_clusters low high h.few_clusters)))

  pub round :
      (r : ℕ × Volume)
      → Allocated v (2 + (v.layout.total_clusters - 2)) r
      → Round v prev first (b ∷ bs) (body fuel prev first b bs v r)
  round r (disk_full used) = full v used
  round r (lowest_free zero low high free below) = absurd (omega arith)
  round r (lowest_free (suc c) low high free below) = with_taken c low (omega arith) free
