-- ===== src/Fat16/Directory/Listing/Region.antt =====
-- kernel/fs/fat16.c: `dir_iter_next_sector` goes through the sectors that the layout of the volume gives
-- a directory.
use mathlib.Core.List.{Memᴰ}
use null_os.Prelude.{
  ℕ, zero, suc, ◌+◌, ◌-◌, ◌^◌, ◌≤◌, ◌<◌, ◌≡◌, ◌≢◌, refl, ap, subst, ◌∙◌, true, false, List, [], ◌∷◌,
  ◌++◌, length, arith, le→leb, leb_of_lt, ==_of_ne,
}
use null_os.Prelude.Bytes.{add_u32}
use null_os.Fat16.{Volume, read_sector, is_cluster, next_cluster, cluster_to_lba, entry}
use null_os.Fat16.Table.{Chain, ended, Chain-tail, Chain-is_cluster}
use null_os.Fat16.Region.{region_sectors, chain_sectors}
use null_os.Fat16.File.Reading.{Readable, is_cluster-bounds, next_cluster-Chain}
use null_os.Fat16.File.Writing.Clusters.{
  IsLaidOut, cluster_start, cluster_end, cluster_to_lba-start,
}
use null_os.Fat16.File.Patching.Clusters.{OnVolume}
use null_os.Fat16.File.Patching.Rounds.{Chain-at_next}
use null_os.Fat16.Directory.{
  DirIter, dir_iter_init, sector, end_of_dir, root_next_sector, sub_read, dir_iter_next_sector,
}
use null_os.Fat16.Directory.Listing.{Sectors, no_more, one_more}

-- The sectors of the root directory, which has a region of its own, and of a subdirectory, which has a
-- chain of clusters of the data region.
pub data IsDirectory (v : Volume) : (cluster : ℕ) → List (ℕ × List ℕ) → Type 0 where
  is_root :
      v.layout.root_start_lba + v.layout.root_sector_count < 2 ^ 32
      → IsDirectory v 0 (region_sectors v.layout.root_sector_count v.layout.root_start_lba v)
  is_sub :
      (c : ℕ) (cs : List ℕ)
      → Chain v c (c ∷ cs)
      → OnVolume v.layout (c ∷ cs)
      → IsDirectory v c (chain_sectors v (c ∷ cs))

abbrev in_root : ℕ → DirIter
in_root k = record { dir_cluster = 0; root_sector = k; cluster = 0; cluster_sector = 0 }

root-end :
    (k : ℕ) (v : Volume)
    → v.layout.root_sector_count ≤ k
    → dir_iter_next_sector (in_root k) v ≡ end_of_dir
unfolding dir_iter_next_sector root_next_sector
root-end k v le = rw (le→leb v.layout.root_sector_count k le) refl

root-next :
    (k : ℕ) (v : Volume)
    → Readable v
    → k < v.layout.root_sector_count
    → v.layout.root_start_lba + v.layout.root_sector_count < 2 ^ 32
    → dir_iter_next_sector (in_root k) v
      ≡ sector
          (v.layout.root_start_lba + k)
          (v.disk.sectors (v.layout.root_start_lba + k))
          (in_root (k + 1))
unfolding dir_iter_next_sector root_next_sector read_sector
root-next k v r lt fits =
    rw (leb_of_lt v.layout.root_sector_count k lt, r.works (add_u32 v.layout.root_start_lba k))
      (ap (λ l. sector l (v.disk.sectors l) (in_root (k + 1)))
        {x = add_u32 v.layout.root_start_lba k} {y = v.layout.root_start_lba + k} (omega arith))

root-Sectors :
    (n k : ℕ) (v : Volume)
    → Readable v
    → v.layout.root_start_lba + v.layout.root_sector_count < 2 ^ 32
    → k + n ≡ v.layout.root_sector_count
    → Sectors v (in_root k) (region_sectors n (v.layout.root_start_lba + k) v)
unfolding region_sectors
root-Sectors zero k v r fits e = no_more (root-end k v (omega (arith, e)))
root-Sectors (suc n) k v r fits e =
    one_more (v.layout.root_start_lba + k) (v.disk.sectors (v.layout.root_start_lba + k))
      (in_root (k + 1)) (root-next k v r (omega (arith, e)) fits)
      (subst (λ l. Sectors v (in_root (k + 1)) (region_sectors n l v))
        {x = v.layout.root_start_lba + (k + 1)} {y = v.layout.root_start_lba + k + 1} (omega arith)
        (root-Sectors n (k + 1) v r fits (omega (arith, e))))

Chain-stops : (v : Volume) (c : ℕ) → Chain v c [] → is_cluster c ≡ false
Chain-stops v c (ended stop) = stop

-- A subdirectory that starts at cluster `d`, at sector `j` of cluster `c`.
abbrev in_sub : (d c j : ℕ) → DirIter
in_sub d c j = record { dir_cluster = d; root_sector = 0; cluster = c; cluster_sector = j }

module _ (v : Volume) (r : Readable v) (h : IsLaidOut v.layout (length v.fat)) (d : ℕ)
    (sub : d ≢ 0) where
  sub_read-sector :
      (c j : ℕ)
      → 2 ≤ c
      → c < v.layout.total_clusters
      → j < v.layout.sectors_per_cluster
      → sub_read (in_sub d c j) v
        ≡ sector
            (cluster_start v.layout c + j)
            (v.disk.sectors (cluster_start v.layout c + j))
            (in_sub d c (j + 1))
  unfolding sub_read read_sector
  sub_read-sector c j low high lt =
      rw (sub_read, read_sector, r.works (add_u32 (cluster_to_lba v c) j))
        (ap (λ l. sector l (v.disk.sectors l) (in_sub d c (j + 1)))
          {x = add_u32 (cluster_to_lba v c) j} {y = cluster_start v.layout c + j}
          (omega (
            arith,
            cluster_to_lba-start v c h low high,
            cluster_end v.layout (length v.fat) c h low high,
          )))

  same_cluster :
      (c j : ℕ)
      → is_cluster c ≡ true
      → j < v.layout.sectors_per_cluster
      → dir_iter_next_sector (in_sub d c j) v ≡ sub_read (in_sub d c j) v
  unfolding dir_iter_next_sector
  same_cluster c j e lt =
      rw (dir_iter_next_sector, ==_of_ne d 0 sub, e, leb_of_lt v.layout.sectors_per_cluster j lt)
        refl

  other_cluster :
      (c e : ℕ)
      → is_cluster c ≡ true
      → next_cluster v c ≡ e
      → is_cluster e ≡ true
      → dir_iter_next_sector (in_sub d c v.layout.sectors_per_cluster) v ≡ sub_read (in_sub d e 0) v
  unfolding dir_iter_next_sector
  other_cluster c e here next there =
      rw
        (
          dir_iter_next_sector,
          ==_of_ne d 0 sub,
          here,
          le→leb v.layout.sectors_per_cluster v.layout.sectors_per_cluster (omega arith),
          next,
          there,
        )
        refl

  no_cluster :
      (c : ℕ)
      → is_cluster c ≡ true
      → is_cluster (next_cluster v c) ≡ false
      → dir_iter_next_sector (in_sub d c v.layout.sectors_per_cluster) v ≡ end_of_dir
  unfolding dir_iter_next_sector
  no_cluster c here last =
      rw
        (
          dir_iter_next_sector,
          ==_of_ne d 0 sub,
          here,
          le→leb v.layout.sectors_per_cluster v.layout.sectors_per_cluster (omega arith),
          last,
        )
        refl

  next_cluster-end :
      (c : ℕ)
      → c < v.layout.total_clusters
      → Chain v c (c ∷ [])
      → is_cluster (next_cluster v c) ≡ false
  unfolding next_cluster
  next_cluster-end c high k =
      ap is_cluster {x = next_cluster v c} {y = entry v c}
        (ground (arith, is_cluster-bounds c (Chain-is_cluster v c c [] k), h.in_table, high))
      ∙ Chain-stops v (entry v c) (Chain-tail v c c [] k)

  -- From sector `j` of cluster `c` on, `n` more of this cluster and those of the later ones.
  sub-Sectors :
      (ds : List ℕ) (c n j : ℕ)
      → Chain v c (c ∷ ds)
      → OnVolume v.layout (c ∷ ds)
      → j + n ≡ v.layout.sectors_per_cluster
      → Sectors v
          (in_sub d c j)
          (region_sectors n (cluster_start v.layout c + j) v ++ chain_sectors v ds)
  unfolding region_sectors chain_sectors
  sub-Sectors [] c zero j k on e =
      subst (λ i. Sectors v (in_sub d c i) []) {x = v.layout.sectors_per_cluster} {y = j}
        (omega (arith, e))
        (no_more (
          no_cluster c (Chain-is_cluster v c c [] k)
            (next_cluster-end c (on c (Memᴰ.head refl)).1 k)))
  sub-Sectors (b ∷ ds) c zero j k on e =
      subst (λ i. Sectors v (in_sub d c i) (chain_sectors v (b ∷ ds)))
        {x = v.layout.sectors_per_cluster} {y = j} (omega (arith, e))
        (from_next (
          sub-Sectors ds b (v.layout.sectors_per_cluster - 1) 1 (Chain-at_next v c b ds k)
            (λ x m. on x (Memᴰ.tail m)) (omega (arith, h.some_sectors))))
    where
      from_next :
          Sectors v (in_sub d b 1) (
            region_sectors (v.layout.sectors_per_cluster - 1) (cluster_start v.layout b + 1) v
            ++ chain_sectors v ds)
          → Sectors v (in_sub d c v.layout.sectors_per_cluster) (chain_sectors v (b ∷ ds))
      from_next s =
          subst
            (λ n.
              Sectors v (in_sub d c v.layout.sectors_per_cluster)
                (region_sectors n (cluster_start v.layout b) v ++ chain_sectors v ds))
            {x = suc (v.layout.sectors_per_cluster - 1)} {y = v.layout.sectors_per_cluster}
            (omega (arith, h.some_sectors))
            (one_more (cluster_start v.layout b) (v.disk.sectors (cluster_start v.layout b))
              (in_sub d b 1)
              (other_cluster c b (Chain-is_cluster v c c (b ∷ ds) k) (next_cluster-Chain v c b ds k)
                  (Chain-is_cluster v b b ds (Chain-at_next v c b ds k))
                ∙ sub_read-sector b 0 (on b (Memᴰ.tail (Memᴰ.head refl))).0
                    (on b (Memᴰ.tail (Memᴰ.head refl))).1 (omega (arith, h.some_sectors))
                ∙ ap (λ l. sector l (v.disk.sectors l) (in_sub d b 1))
                    {x = cluster_start v.layout b + 0} {y = cluster_start v.layout b} (omega arith))
              s)
  sub-Sectors ds c (suc n) j k on e =
      one_more (cluster_start v.layout c + j) (v.disk.sectors (cluster_start v.layout c + j))
        (in_sub d c (j + 1))
        (same_cluster c j (Chain-is_cluster v c c ds k) (omega (arith, e))
          ∙ sub_read-sector c j (on c (Memᴰ.head refl)).0 (on c (Memᴰ.head refl)).1
              (omega (arith, e)))
        (subst (λ l. Sectors v (in_sub d c (j + 1)) (region_sectors n l v ++ chain_sectors v ds))
          {x = cluster_start v.layout c + (j + 1)} {y = cluster_start v.layout c + j + 1}
          (omega arith) (sub-Sectors ds c n (j + 1) k on (omega (arith, e))))

-- The iterator goes through exactly these sectors.
pub IsDirectory-Sectors :
    (v : Volume) (c : ℕ) (ss : List (ℕ × List ℕ))
    → Readable v
    → IsLaidOut v.layout (length v.fat)
    → IsDirectory v c ss
    → Sectors v (dir_iter_init c) ss
unfolding dir_iter_init chain_sectors
IsDirectory-Sectors v _ _ r h (is_root fits) =
    subst (λ l. Sectors v (in_root 0) (region_sectors v.layout.root_sector_count l v))
      {x = v.layout.root_start_lba + 0} {y = v.layout.root_start_lba} (omega arith)
      (root-Sectors v.layout.root_sector_count 0 v r fits (omega arith))
IsDirectory-Sectors v _ _ r h (is_sub c cs k on) =
    subst
      (λ l.
        Sectors v (in_sub c c 0)
          (region_sectors v.layout.sectors_per_cluster l v ++ chain_sectors v cs))
      {x = cluster_start v.layout c + 0} {y = cluster_start v.layout c} (omega arith)
      (sub-Sectors v r h c (λ z. omega (arith, z, (on c (Memᴰ.head refl)).0)) cs c
        v.layout.sectors_per_cluster 0 k on (omega arith))
