-- ===== src/Fat16/File/Reading.antt =====
-- kernel/fs/fat16.c: `fat16_read_at` against the bytes of the file, which are those of the clusters of
-- its chain, one after the other.
pub mod Clusters
pub mod Whole
pub mod Data
use native.Mathlib.Decide.{ℕ_discrete, dec_le}
use null_os.Prelude.{
  ℕ, zero, suc, ◌+◌, ◌-◌, ◌*◌, ◌/◌, ◌%◌, ◌^◌, ◌≤◌, ◌<◌, ◌≡◌, refl, sym, ap, ap₂, subst, ◌∙◌, ◌≢◌,
  Bool, true, false, Option, none, some, List, [], ◌∷◌, ◌++◌, length, get_or, get_or_beyond, take,
  drop, arith, min, length-append, take-append, drop-append, drop-drop, take-min, drop-all,
  length-take, length-drop, append-nil, take-nil, drop-nil, ==_of_ne, leb_of_lt,
}
use null_os.Prelude.Bytes.{add_u32}
use null_os.Fat16.{
  Volume, entry, is_cluster, next_cluster, cluster_to_lba, bytes_per_cluster, read_sector,
  chain_end,
}
use null_os.Fat16.Table.{Chain, ended, linked, Chain-head, Chain-tail, Chain-is_cluster}
use null_os.Fat16.File.{seek, read_sectors, read_clusters, read_at}

-- The bytes of `n` sectors, of a cluster and of a chain.
unfoldable pub sectors_bytes : (n lba : ℕ) → Volume → List ℕ
sectors_bytes zero lba v = []
sectors_bytes (suc n) lba v = v.disk.sectors lba ++ sectors_bytes n (add_u32 lba 1) v

unfoldable pub cluster_bytes : Volume → ℕ → List ℕ
cluster_bytes v c = sectors_bytes v.layout.sectors_per_cluster (cluster_to_lba v c) v

unfoldable pub contents : Volume → List ℕ → List ℕ
contents v [] = []
contents v (c ∷ cs) = cluster_bytes v c ++ contents v cs

-- Every sector can be read.
pub record Readable (v : Volume) : Type 0 where
  pub works : (lba : ℕ) → v.disk.faulty lba ≡ false
  pub whole : (lba : ℕ) → length (v.disk.sectors lba) ≡ 512

pub length-sectors_bytes :
    (n lba : ℕ) (v : Volume) → Readable v → length (sectors_bytes n lba v) ≡ n * 512
unfolding sectors_bytes
length-sectors_bytes zero lba v r = refl
length-sectors_bytes (suc n) lba v r = omega (
  arith,
  length-append (v.disk.sectors lba) (sectors_bytes n (add_u32 lba 1) v),
  r.whole lba,
  length-sectors_bytes n (add_u32 lba 1) v r,
)

-- Reading from one part, and the rest from the next.
pub split_read :
    (off want : ℕ) (part rest : List ℕ)
    → off ≤ length part
    → take want (drop off part) ++ take (want - length (take want (drop off part))) rest
      ≡ take want (drop off (part ++ rest))
split_read off want part rest le =
    ap (λ k. take want (drop off part) ++ take k rest)
      {x = want - length (take want (drop off part))} {y = want - length (drop off part)}
      (omega (arith, length-take want (drop off part)))
    ∙ sym (take-append want (drop off part) rest)
    ∙ ap (λ k. take want (drop off part ++ drop k rest)) {x = 0} {y = off - length part}
        (omega arith)
    ∙ ap (take want) (sym (drop-append off part rest))

-- The same with what is copied of a sector.
split_sector :
    (off want : ℕ) (part rest : List ℕ)
    → length part ≡ 512
    → off < 512
    → take (min want (512 - off)) (drop off part) ++ take (want - min want (512 - off)) rest
      ≡ take want (drop off (part ++ rest))
split_sector off want part rest len lt =
    ap (λ l. l ++ take (want - min want (512 - off)) rest)
      (take-min want (512 - off) (drop off part) (omega (arith, len, length-drop off part)))
    ∙ ap (λ k. take want (drop off part) ++ take k rest) {x = want - min want (512 - off)}
        {y = want - length (take want (drop off part))}
        (omega (arith, len, length-take want (drop off part), length-drop off part))
    ∙ split_read off want part rest (omega arith)

pub cluster_to_lba-lt : (v : Volume) (c : ℕ) → cluster_to_lba v c < 2 ^ 32
unfolding cluster_to_lba
cluster_to_lba-lt v c = omega arith

read_sectors-step :
    (n lba off w : ℕ) (v : Volume)
    → Readable v
    → read_sectors (suc n) lba off (suc w) v ≡ (
      take (min (suc w) (512 - off)) (drop off (v.disk.sectors lba))
          ++ (read_sectors n (add_u32 lba 1) 0 (suc w - min (suc w) (512 - off)) v).0,
      (read_sectors n (add_u32 lba 1) 0 (suc w - min (suc w) (512 - off)) v).1,
    )
unfolding read_sectors read_sector
read_sectors-step n lba off w v r =
    rw (r.works lba, ==_of_ne (suc w) 0 (λ e. omega (arith, e))) refl

pub read_sectors-eq :
    (n lba off want : ℕ) (v : Volume)
    → Readable v
    → off < 512
    → read_sectors n lba off want v ≡ (take want (drop off (sectors_bytes n lba v)), true)
unfolding read_sectors sectors_bytes
read_sectors-eq zero lba off want v r lt = rw (drop-nil off, take-nil want) refl
read_sectors-eq (suc n) lba off zero v r lt = refl
read_sectors-eq (suc n) lba off (suc w) v r lt =
    read_sectors-step n lba off w v r
    ∙ ap
        (λ (p : List ℕ × Bool).
          (take (min (suc w) (512 - off)) (drop off (v.disk.sectors lba)) ++ p.0, p.1))
        (read_sectors-eq n (add_u32 lba 1) 0 (suc w - min (suc w) (512 - off)) v r (omega arith))
    ∙ ap (λ l. (l, true))
        (split_sector off (suc w) (v.disk.sectors lba) (sectors_bytes n (add_u32 lba 1) v)
          (r.whole lba) lt)

-- The sectors of a cluster from one of them on.
pub drop-sectors_bytes :
    (k n lba : ℕ) (v : Volume)
    → Readable v
    → k ≤ n
    → lba < 2 ^ 32
    → drop (k * 512) (sectors_bytes n lba v) ≡ sectors_bytes (n - k) (add_u32 lba k) v
unfolding sectors_bytes
drop-sectors_bytes zero n lba v r le lt =
    ap₂ (λ m l. sectors_bytes m l v) {x = n} {y = n - 0} (omega arith) (omega arith)
drop-sectors_bytes (suc k) zero lba v r le lt = absurd (omega arith)
drop-sectors_bytes (suc k) (suc n) lba v r le lt =
    drop-append (suc k * 512) (v.disk.sectors lba) (sectors_bytes n (add_u32 lba 1) v)
    ∙ ap
        (λ l.
          l ++ drop (suc k * 512 - length (v.disk.sectors lba)) (sectors_bytes n (add_u32 lba 1) v))
        (drop-all (suc k * 512) (v.disk.sectors lba) (omega (arith, r.whole lba)))
    ∙ ap (λ j. drop j (sectors_bytes n (add_u32 lba 1) v))
        {x = suc k * 512 - length (v.disk.sectors lba)} {y = k * 512} (omega (arith, r.whole lba))
    ∙ drop-sectors_bytes k n (add_u32 lba 1) v r (omega arith) (omega arith)
    ∙ ap₂ (λ m l. sectors_bytes m l v) (omega arith) (omega arith)

pub is_cluster-bounds : (c : ℕ) → is_cluster c ≡ true → (2 ≤ c) × (c < chain_end)
unfolding is_cluster
is_cluster-bounds c e = ground arith

-- `fat16_next_cluster` goes on along a chain.
pub next_cluster-Chain :
    (v : Volume) (c d : ℕ) (ds : List ℕ) → Chain v c (c ∷ d ∷ ds) → next_cluster v c ≡ d
unfolding next_cluster
next_cluster-Chain v c d ds k = ground (
  arith,
  is_cluster-bounds c (Chain-is_cluster v c c (d ∷ ds) k),
  is_cluster-bounds (entry v c) (Chain-is_cluster v (entry v c) d ds (Chain-tail v c c (d ∷ ds) k)),
  get_or_beyond v.fat c 0,
  Chain-head v (entry v c) d ds (Chain-tail v c c (d ∷ ds) k),
)

pub Chain-next :
    (v : Volume) (c c' d : ℕ) (ds : List ℕ)
    → Chain v c (c' ∷ d ∷ ds)
    → Chain v (next_cluster v c) (d ∷ ds)
Chain-next v c c' d ds k =
    subst (λ x. Chain v x (d ∷ ds))
      (Chain-head v (entry v c) d ds (Chain-tail v c c' (d ∷ ds) k)
        ∙ sym (
            next_cluster-Chain v c d ds
              (subst (λ x. Chain v c (x ∷ d ∷ ds)) (sym (Chain-head v c c' (d ∷ ds) k)) k)))
      (Chain-tail v c c' (d ∷ ds) k)
