-- ===== src/Fat16/File/Reading/Clusters.antt =====
-- kernel/fs/fat16.c: `fat16_read_at` reads a file along its chain of clusters.
use null_os.Prelude.{
  ℕ, zero, suc, ◌+◌, ◌-◌, ◌*◌, ◌/◌, ◌%◌, ◌≤◌, ◌<◌, ◌≡◌, refl, sym, ap, ◌∙◌, true, List, [], ◌∷◌,
  ◌++◌, length, take, drop, arith, length-append, drop-drop, length-take, length-drop, take-nil,
  ==_of_ne, leb_of_lt,
}
use null_os.Prelude.Bytes.{add_u32}
use null_os.Fat16.{Volume, next_cluster, cluster_to_lba, bytes_per_cluster, chain_end}
use null_os.Fat16.Table.{Chain, Chain-head, Chain-is_cluster}
use null_os.Fat16.File.{read_sectors, read_clusters}
use null_os.Fat16.File.Reading.{
  cluster_bytes, contents, Readable, length-sectors_bytes, split_read, read_sectors-eq,
  drop-sectors_bytes, is_cluster-bounds, Chain-next, cluster_to_lba-lt,
}

-- The part of a cluster that one round of the loop over the clusters reads.
read_cluster-eq :
    (c off want : ℕ) (v : Volume)
    → Readable v
    → off < bytes_per_cluster v
    → read_sectors
        (v.layout.sectors_per_cluster - off / 512)
        (add_u32 (cluster_to_lba v c) (off / 512))
        (off % 512)
        want
        v
      ≡ (take want (drop off (cluster_bytes v c)), true)
unfolding bytes_per_cluster cluster_bytes
read_cluster-eq c off want v r lt =
    read_sectors-eq (v.layout.sectors_per_cluster - off / 512)
      (add_u32 (cluster_to_lba v c) (off / 512)) (off % 512) want v r (omega arith)
    ∙ ap (λ l. (take want (drop (off % 512) l), true))
        (sym (
          drop-sectors_bytes (off / 512) v.layout.sectors_per_cluster (cluster_to_lba v c) v r
            (omega arith) (cluster_to_lba-lt v c)))
    ∙ ap (λ l. (take want l, true))
        (drop-drop (off % 512) (off / 512 * 512) (cluster_bytes v c)
          ∙ ap (λ k. drop k (cluster_bytes v c)) {x = off / 512 * 512 + off % 512} {y = off}
              (omega arith))

read_clusters-none : (fuel c off : ℕ) (v : Volume) → read_clusters fuel c off 0 v ≡ []
unfolding read_clusters
read_clusters-none zero c off v = refl
read_clusters-none (suc fuel) c off v = refl

read_clusters-step :
    (fuel c off w : ℕ) (bytes : List ℕ) (v : Volume)
    → c < chain_end
    → read_sectors
        (v.layout.sectors_per_cluster - off / 512)
        (add_u32 (cluster_to_lba v c) (off / 512))
        (off % 512)
        (suc w)
        v
      ≡ (bytes, true)
    → read_clusters (suc fuel) c off (suc w) v
      ≡ bytes ++ read_clusters fuel (next_cluster v c) 0 (suc w - length bytes) v
unfolding read_clusters
read_clusters-step fuel c off w bytes v lt e =
    rw (e, ==_of_ne (suc w) 0 (λ z. omega (arith, z)), leb_of_lt chain_end c lt) refl

pub length-cluster_bytes :
    (c : ℕ) (v : Volume) → Readable v → length (cluster_bytes v c) ≡ bytes_per_cluster v
unfolding cluster_bytes bytes_per_cluster
length-cluster_bytes c v r =
    length-sectors_bytes v.layout.sectors_per_cluster (cluster_to_lba v c) v r

-- What one round leaves to the later ones.
left_after : (c off want : ℕ) → Volume → ℕ
left_after c off want v = want - length (take want (drop off (cluster_bytes v c)))

left_after-lem :
    (c off want : ℕ) (v : Volume)
    → Readable v
    → left_after c off want v ≡ want - (bytes_per_cluster v - off)
unfolding left_after
left_after-lem c off want v r = omega (
  arith,
  length-take want (drop off (cluster_bytes v c)),
  length-drop off (cluster_bytes v c),
  length-cluster_bytes c v r,
)

one_round :
    (fuel c off w : ℕ) (rest : List ℕ) (v : Volume)
    → Readable v
    → off < bytes_per_cluster v
    → c < chain_end
    → read_clusters fuel (next_cluster v c) 0 (left_after c off (suc w) v) v
      ≡ take (left_after c off (suc w) v) rest
    → read_clusters (suc fuel) c off (suc w) v ≡ take (suc w) (drop off (cluster_bytes v c ++ rest))
unfolding left_after
one_round fuel c off w rest v r lt inside e =
    read_clusters-step fuel c off w (take (suc w) (drop off (cluster_bytes v c))) v inside
      (read_cluster-eq c off (suc w) v r lt)
    ∙ ap (λ l. take (suc w) (drop off (cluster_bytes v c)) ++ l) e
    ∙ split_read off (suc w) (cluster_bytes v c) rest (omega (arith, length-cluster_bytes c v r))

-- The loop reads what is wanted of the bytes of the chain.
pub read_clusters-eq :
    (fuel c off want : ℕ) (cs : List ℕ) (v : Volume)
    → Readable v
    → Chain v c cs
    → off < bytes_per_cluster v
    → want + off ≤ length (contents v cs)
    → want ≤ fuel
    → read_clusters fuel c off want v ≡ take want (drop off (contents v cs))
unfolding contents
read_clusters-eq fuel c off zero cs v r k lt le enough = read_clusters-none fuel c off v
read_clusters-eq zero c off (suc w) cs v r k lt le enough = absurd (omega arith)
read_clusters-eq (suc fuel) c off (suc w) [] v r k lt le enough = absurd (omega arith)
read_clusters-eq (suc fuel) c off (suc w) (c' ∷ []) v r k lt le enough =
    one_round fuel c off w [] v r lt (is_cluster-bounds c (Chain-is_cluster v c c' [] k)).1 (
      ap (λ n. read_clusters fuel (next_cluster v c) 0 n v) nothing
      ∙ read_clusters-none fuel (next_cluster v c) 0 v
      ∙ sym (take-nil (left_after c off (suc w) v)))
    ∙ ap (λ x. take (suc w) (drop off (cluster_bytes v x ++ []))) (Chain-head v c c' [] k)
  where
    nothing : left_after c off (suc w) v ≡ 0
    nothing = omega (
      arith,
      left_after-lem c off (suc w) v r,
      length-append (cluster_bytes v c') [],
      length-cluster_bytes c' v r,
    )
read_clusters-eq (suc fuel) c off (suc w) (c' ∷ d ∷ ds) v r k lt le enough =
    one_round fuel c off w (contents v (d ∷ ds)) v r lt
      (is_cluster-bounds c (Chain-is_cluster v c c' (d ∷ ds) k)).1
      (read_clusters-eq fuel (next_cluster v c) 0 (left_after c off (suc w) v) (d ∷ ds) v r
        (Chain-next v c c' d ds k) (omega arith)
        (omega (
          arith,
          left_after-lem c off (suc w) v r,
          length-append (cluster_bytes v c') (contents v (d ∷ ds)),
          length-cluster_bytes c' v r,
        ))
        (omega (arith, left_after-lem c off (suc w) v r)))
    ∙ ap (λ x. take (suc w) (drop off (cluster_bytes v x ++ contents v (d ∷ ds))))
        (Chain-head v c c' (d ∷ ds) k)
