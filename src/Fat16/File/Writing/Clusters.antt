-- ===== src/Fat16/File/Writing/Clusters.antt =====
-- kernel/fs/fat16.c: where clusters lie on the disk, and what one round of the loop of
-- `fat16_write_file` over new clusters adds to a file.
use native.Mathlib.Decide.{dec_lt}
use mathlib.Core.List.{Memᴰ}
use mathlib.Core.List.Memᴰ
use null_os.Prelude.{
  ℕ, zero, suc, ◌+◌, ◌-◌, ◌*◌, ◌%◌, ◌^◌, ◌≤◌, ◌<◌, ◌≡◌, ◌≢◌, refl, sym, ap, ap₂, subst, ◌∙◌, ◌⊎◌,
  inl, inr, List, ◌∷◌, ◌++◌, length, get_or, drop, arith, length-drop,
}
use null_os.Prelude.Bytes.{add_u32, sub_u32}
use null_os.Fat16.{Volume, Layout, entry, chain_end, cluster_to_lba, bytes_per_cluster}
use null_os.Fat16.File.Reading.{sectors_bytes, cluster_bytes, contents}
use null_os.Fat16.File.Writing.{AllWorks, on_disk, SectorsWritten, filled, filled-split}

-- The regions of a volume: the tables before the data, every cluster in 32 bits of sectors and in the
-- table, fewer of them than the marks of a chain's end.
pub record IsLaidOut (l : Layout) (table_size : ℕ) : Type 0 where
  pub some_sectors : 1 ≤ l.sectors_per_cluster
  pub tables_first : l.fat_start_lba + l.num_fats * l.fat_size_sectors ≤ l.data_start_lba
  pub no_wrap : l.data_start_lba + l.total_clusters * l.sectors_per_cluster < 2 ^ 32
  pub few_clusters : l.total_clusters ≤ chain_end
  pub in_table : l.total_clusters ≤ table_size
  pub whole_table : table_size ≡ l.fat_size_sectors * 256

abbrev pub cluster_start : Layout → ℕ → ℕ
cluster_start l c = l.data_start_lba + (c - 2) * l.sectors_per_cluster

abbrev pub InCluster : Layout → (c lba : ℕ) → Type 0
InCluster l c lba = (cluster_start l c ≤ lba) × (lba < cluster_start l c + l.sectors_per_cluster)

rows : (a b s : ℕ) → a < b → a * s + s ≤ b * s
rows a b s lt = grind arith

pub cluster_end :
    (l : Layout) (n c : ℕ)
    → IsLaidOut l n
    → 2 ≤ c
    → c < l.total_clusters
    → cluster_start l c + l.sectors_per_cluster < 2 ^ 32
cluster_end l n c h le lt =
    omega (arith, rows (c - 2) l.total_clusters l.sectors_per_cluster (omega arith), h.no_wrap)

pub cluster_to_lba-start :
    (v : Volume) (c : ℕ)
    → IsLaidOut v.layout (length v.fat)
    → 2 ≤ c
    → c < v.layout.total_clusters
    → cluster_to_lba v c ≡ cluster_start v.layout c
unfolding cluster_to_lba
cluster_to_lba-start v c h le lt =
    ap (λ k. (v.layout.data_start_lba + k * v.layout.sectors_per_cluster) % 2 ^ 32)
      {x = sub_u32 c 2} {y = c - 2} (omega (arith, h.few_clusters))
    ∙ omega (arith, cluster_end v.layout (length v.fat) c h le lt)

pub clusters_apart :
    (l : Layout) (c d lba : ℕ) → 2 ≤ c → 2 ≤ d → c ≢ d → InCluster l c lba → InCluster l d lba → ⊥
clusters_apart l c d lba hc hd ne (a, b) (a', b') = elim (dec_lt c d) [
  | yes lt ↦ omega (arith, rows (c - 2) (d - 2) l.sectors_per_cluster (omega arith), b, a')
  | no ge ↦ omega (arith, rows (d - 2) (c - 2) l.sectors_per_cluster (omega arith), b', a)
]

outside_cluster :
    (l : Layout) (c lba : ℕ)
    → (InCluster l c lba → ⊥)
    → (lba < cluster_start l c) ⊎ (cluster_start l c + l.sectors_per_cluster ≤ lba)
outside_cluster l c lba out = elim (dec_lt lba (cluster_start l c)) [
  | yes before ↦ inl before
  | no not_before ↦ elim (dec_lt lba (cluster_start l c + l.sectors_per_cluster)) [
    | yes inside ↦ absurd (out (omega arith, inside))
    | no beyond ↦ inr (omega arith)
  ]
]

-- Sectors are the same where the disks agree.
pub sectors_bytes-agree :
    (n lba : ℕ) (u w : Volume)
    → lba + n < 2 ^ 32
    → ((l : ℕ) → lba ≤ l → l < lba + n → u.disk.sectors l ≡ w.disk.sectors l)
    → sectors_bytes n lba u ≡ sectors_bytes n lba w
unfolding sectors_bytes
sectors_bytes-agree zero lba u w fits same = refl
sectors_bytes-agree (suc n) lba u w fits same =
    ap₂ (λ x y. x ++ y) (same lba (omega arith) (omega arith))
      (sectors_bytes-agree n (add_u32 lba 1) u w (omega arith)
        (λ l le lt. same l (omega (arith, le, fits)) (omega (arith, lt, fits))))

-- What new clusters `cs` with the data `bytes` in them have changed: the table at `ks`, and the sectors
-- of these clusters.
pub record Grown (v : Volume) (ks cs : List ℕ) (bytes : List ℕ) (u : Volume) : Type 0 where
  pub same_layout : u.layout ≡ v.layout
  pub works : AllWorks u
  pub sizes : (l : ℕ) → length (v.disk.sectors l) ≡ 512 → length (u.disk.sectors l) ≡ 512
  pub table_size : length u.fat ≡ length v.fat
  pub free_before : (d : ℕ) → Memᴰ d cs → (entry v d ≡ 0) × (2 ≤ d) × (d < v.layout.total_clusters)
  pub others :
      (l : ℕ)
      → ((d : ℕ) → Memᴰ d cs → InCluster v.layout d l → ⊥)
      → u.disk.sectors l ≡ v.disk.sectors l
  pub fits : length bytes ≤ length cs * bytes_per_cluster v
  pub holds : contents u cs ≡ filled (length cs * bytes_per_cluster v) bytes
  pub kept : (d : ℕ) → (Memᴰ d ks → ⊥) → entry u d ≡ entry v d

-- A round: a free cluster `c` is taken, the table is then `fat`, and the data goes to the sectors of
-- `c`; what the later rounds add to that.
module _ (v : Volume) (prev c : ℕ) (fat bytes : List ℕ) (h : IsLaidOut v.layout (length v.fat))
    (works : AllWorks v) (free : entry v c ≡ 0) (low : 2 ≤ c) (high : c < v.layout.total_clusters)
    (same_size : length fat ≡ length v.fat) (taken : get_or fat c 0 ≢ 0)
    (still_free : (d : ℕ) → 2 ≤ d → d ≢ c → get_or fat d 0 ≡ 0 → entry v d ≡ 0)
    (same_entries : (d : ℕ) → d ≢ c → d ≢ prev → get_or fat d 0 ≡ entry v d)
    (w : SectorsWritten v.layout.sectors_per_cluster
      (cluster_to_lba v c)
      bytes
      (record v { fat = fat })) where
  abbrev pub written : Volume
  written = on_disk w.after (record v { fat = fat })

  start : cluster_to_lba v c ≡ cluster_start v.layout c
  start = cluster_to_lba-start v c h low high

  written_elsewhere : (l : ℕ) → (InCluster v.layout c l → ⊥) → w.after l ≡ v.disk.sectors l
  written_elsewhere l out = elim (outside_cluster v.layout c l out) [
    | inl before ↦ w.others l (inl (omega (arith, before, start)))
    | inr beyond ↦ w.others l (inr (omega (arith, beyond, start)))
  ]

  module _ (cs : List ℕ) (u : Volume)
      (g : Grown written (c ∷ cs) cs (drop (bytes_per_cluster v) bytes) u) where
    not_again : (d : ℕ) → Memᴰ d cs → d ≢ c
    not_again d m e = taken (subst (λ x. get_or fat x 0 ≡ 0) e (g.free_before d m).0)

    apart : (l d : ℕ) → InCluster v.layout c l → Memᴰ d cs → InCluster v.layout d l → ⊥
    apart l d inside m there =
        clusters_apart v.layout d c l (g.free_before d m).1 low (not_again d m) there inside

    cluster_kept : cluster_bytes u c ≡ filled (bytes_per_cluster v) bytes
    unfolding cluster_bytes bytes_per_cluster cluster_to_lba
    cluster_kept =
        ap
          (λ (l : Layout).
            sectors_bytes l.sectors_per_cluster
              ((l.data_start_lba + sub_u32 c 2 * l.sectors_per_cluster) % 2 ^ 32) u)
          g.same_layout
        ∙ sectors_bytes-agree v.layout.sectors_per_cluster (cluster_to_lba v c) u written
            (omega (arith, start, cluster_end v.layout (length v.fat) c h low high))
            (λ l le lt.
              g.others l (λ d m. apart l d (omega (arith, le, start), omega (arith, lt, start)) m))
        ∙ w.holds

    pub Grown-cons : Grown v (prev ∷ c ∷ cs) (c ∷ cs) bytes u
    unfolding contents bytes_per_cluster
    Grown-cons = record {
      same_layout = g.same_layout;
      works = g.works;
      sizes = λ l e. g.sizes l (w.sizes l e);
      table_size = g.table_size ∙ same_size;
      free_before = λ d m. elim (Memᴰ.cases_cons m) [
        | inl e ↦
            subst (λ x. (entry v x ≡ 0) × (2 ≤ x) × (x < v.layout.total_clusters)) (sym e)
              (free, low, high)
        | inr n ↦ (
          still_free d (g.free_before d n).1 (not_again d n) (g.free_before d n).0,
          (g.free_before d n).1,
          (g.free_before d n).2,
        )
      ];
      others = λ l out.
          g.others l (λ d m. out d (Memᴰ.tail m)) ∙ written_elsewhere l (out c (Memᴰ.head refl));
      fits = omega (arith, g.fits, length-drop (bytes_per_cluster v) bytes);
      holds =
          ap₂ (λ x y. x ++ y) cluster_kept g.holds
          ∙ filled-split (bytes_per_cluster v) (length cs * bytes_per_cluster v) bytes
          ∙ ap (λ m. filled m bytes) {x = bytes_per_cluster v + length cs * bytes_per_cluster v}
              {y = length (c ∷ cs) * bytes_per_cluster v} (omega arith);
      kept = λ d out.
          g.kept d (λ m. out (Memᴰ.tail m))
          ∙ same_entries d (λ e. out (Memᴰ.tail (Memᴰ.head e))) (λ e. out (Memᴰ.head e));
    }
