-- ===== src/Fat16/Region.antt =====
-- kernel/fs/fat16.c: where the layout of a volume puts the sectors of a cluster, of a chain and of the
-- root directory. The sums are those of the format, which do not wrap around.
use mathlib.Core.List.{Memᴰ}
use null_os.Prelude.{
  ℕ, zero, suc, ◌+◌, ◌^◌, ◌≤◌, ◌<◌, ◌≡◌, refl, sym, ap, ap₂, ◌∙◌, List, [], ◌∷◌, ◌++◌, length,
  append_assoc, arith,
}
use null_os.Prelude.Bytes.{add_u32}
use null_os.Fat16.{Volume}
use null_os.Fat16.File.Reading.{sectors_bytes, cluster_bytes, contents}
use null_os.Fat16.File.Writing.Clusters.{
  IsLaidOut, cluster_start, cluster_end, cluster_to_lba-start,
}
use null_os.Fat16.File.Patching.Clusters.{OnVolume}

-- `n` sectors from `lba` on, with their numbers.
unfoldable pub region_sectors : (n lba : ℕ) → Volume → List (ℕ × List ℕ)
region_sectors zero lba v = []
region_sectors (suc n) lba v = (lba, v.disk.sectors lba) ∷ region_sectors n (lba + 1) v

-- Cluster 2 is the first of the data region; the sectors of clusters, one cluster after the other.
unfoldable pub chain_sectors : Volume → List ℕ → List (ℕ × List ℕ)
chain_sectors v [] = []
chain_sectors v (c ∷ cs) =
    region_sectors v.layout.sectors_per_cluster (cluster_start v.layout c) v ++ chain_sectors v cs

-- The bytes of sectors, put together.
unfoldable pub bytes_in : List (ℕ × List ℕ) → List ℕ
bytes_in [] = []
bytes_in (s ∷ ss) = s.1 ++ bytes_in ss

bytes_in-append : (ss ts : List (ℕ × List ℕ)) → bytes_in (ss ++ ts) ≡ bytes_in ss ++ bytes_in ts
unfolding bytes_in
bytes_in-append [] ts = refl
bytes_in-append (s ∷ ss) ts =
    ap (λ l. s.1 ++ l) (bytes_in-append ss ts)
    ∙ sym (append_assoc (s.1) (bytes_in ss) (bytes_in ts))

sectors_bytes-region :
    (n lba : ℕ) (v : Volume)
    → lba + n < 2 ^ 32
    → sectors_bytes n lba v ≡ bytes_in (region_sectors n lba v)
unfolding sectors_bytes bytes_in region_sectors
sectors_bytes-region zero lba v fits = refl
sectors_bytes-region (suc n) lba v fits =
    ap (λ l. v.disk.sectors lba ++ l)
      (ap (λ k. sectors_bytes n k v) {x = add_u32 lba 1} {y = lba + 1} (omega arith)
        ∙ sectors_bytes-region n (lba + 1) v (omega arith))

cluster_bytes-region :
    (v : Volume) (c : ℕ)
    → IsLaidOut v.layout (length v.fat)
    → 2 ≤ c
    → c < v.layout.total_clusters
    → cluster_bytes v c
      ≡ bytes_in (region_sectors v.layout.sectors_per_cluster (cluster_start v.layout c) v)
unfolding cluster_bytes
cluster_bytes-region v c h low high =
    ap (λ k. sectors_bytes v.layout.sectors_per_cluster k v) (cluster_to_lba-start v c h low high)
    ∙ sectors_bytes-region v.layout.sectors_per_cluster (cluster_start v.layout c) v
        (cluster_end v.layout (length v.fat) c h low high)

pub contents-chain_sectors :
    (v : Volume) (cs : List ℕ)
    → IsLaidOut v.layout (length v.fat)
    → OnVolume v.layout cs
    → contents v cs ≡ bytes_in (chain_sectors v cs)
unfolding contents chain_sectors bytes_in
contents-chain_sectors v [] h on = refl
contents-chain_sectors v (c ∷ cs) h on =
    ap₂ (λ x y. x ++ y)
      (cluster_bytes-region v c h (on c (Memᴰ.head refl)).0 (on c (Memᴰ.head refl)).1)
      (contents-chain_sectors v cs h (λ d m. on d (Memᴰ.tail m)))
    ∙ sym (
        bytes_in-append (region_sectors v.layout.sectors_per_cluster (cluster_start v.layout c) v)
          (chain_sectors v cs))
