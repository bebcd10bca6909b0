-- ===== src/Fat16/File/Patching/Clusters.antt =====
-- kernel/fs/fat16.c: what the rounds of the writing loop of `fat16_write_at` store in the clusters of a
-- file, put together.
use mathlib.Core.List.{Memᴰ}
use null_os.Prelude.{
  ℕ, ◌+◌, ◌≤◌, ◌<◌, ◌≡◌, refl, sym, ap, ap₂, subst, ◌∙◌, List, [], ◌∷◌, ◌++◌, length, arith,
}
use null_os.Prelude.Bytes.{store_bytes, store_bytes_right, store_bytes-append}
use null_os.Fat16.{Volume, Layout, cluster_to_lba, bytes_per_cluster}
use null_os.Fat16.File.Reading.{cluster_bytes, contents, Readable}
use null_os.Fat16.File.Reading.Clusters.{length-cluster_bytes}
use null_os.Fat16.File.Writing.{on_disk}
use null_os.Fat16.File.Writing.Clusters.{
  IsLaidOut, InCluster, cluster_start, cluster_end, cluster_to_lba-start, clusters_apart,
  sectors_bytes-agree,
}

-- Clusters of the data region.
abbrev pub OnVolume : Layout → List ℕ → Type 0
OnVolume l cs = (d : ℕ) → Memᴰ d cs → (2 ≤ d) × (d < l.total_clusters)

-- The bytes are stored from byte `off` of the clusters `cs` on; no other sector changes.
pub record Patched (v : Volume) (s : ℕ → List ℕ) (cs : List ℕ) (off : ℕ) (bytes : List ℕ)
    (after : ℕ → List ℕ) : Type 0 where
  pub holds : contents (on_disk after v) cs ≡ store_bytes off bytes (contents (on_disk s v) cs)
  pub others : (l : ℕ) → ((d : ℕ) → Memᴰ d cs → InCluster v.layout d l → ⊥) → after l ≡ s l
  pub sizes : (l : ℕ) → length (after l) ≡ length (s l)

pub Patched-none : (v : Volume) (s : ℕ → List ℕ) (cs : List ℕ) (off : ℕ) → Patched v s cs off [] s
Patched-none v s cs off = record { holds = refl; others = λ l out. refl; sizes = λ l. refl }

pub Patched-append :
    {v : Volume} {s t u : ℕ → List ℕ} {cs : List ℕ} {off : ℕ} {part left : List ℕ}
    → Patched v s cs off part t
    → Patched v t cs (off + length part) left u
    → Patched v s cs off (part ++ left) u
Patched-append {v} {s} {t} {u} {cs} {off} {part} {left} p q = record {
  holds =
      q.holds
      ∙ ap (store_bytes (off + length part) left) p.holds
      ∙ sym (store_bytes-append off part left (contents (on_disk s v) cs));
  others = λ l out. q.others l out ∙ p.others l out;
  sizes = λ l. q.sizes l ∙ p.sizes l;
}

pub Patched-Readable :
    {v : Volume} {s t : ℕ → List ℕ} {cs : List ℕ} {off : ℕ} {bytes : List ℕ}
    → Patched v s cs off bytes t
    → Readable (on_disk s v)
    → Readable (on_disk t v)
Patched-Readable p r = record { works = r.works; whole = λ l. p.sizes l ∙ r.whole l }

module _ (v : Volume) (h : IsLaidOut v.layout (length v.fat)) where
  cluster_bytes-agree :
      (s t : ℕ → List ℕ) (c : ℕ)
      → 2 ≤ c
      → c < v.layout.total_clusters
      → ((l : ℕ) → InCluster v.layout c l → s l ≡ t l)
      → cluster_bytes (on_disk s v) c ≡ cluster_bytes (on_disk t v) c
  unfolding cluster_bytes cluster_to_lba
  cluster_bytes-agree s t c low high same =
      sectors_bytes-agree v.layout.sectors_per_cluster (cluster_to_lba v c) (on_disk s v)
        (on_disk t v) (omega (arith, start, cluster_end v.layout (length v.fat) c h low high))
        (λ l le lt. same l (omega (arith, le, start), omega (arith, lt, start)))
    where
      start : cluster_to_lba v c ≡ cluster_start v.layout c
      start = cluster_to_lba-start v c h low high

  pub contents-agree :
      (s t : ℕ → List ℕ) (cs : List ℕ)
      → OnVolume v.layout cs
      → ((d l : ℕ) → Memᴰ d cs → InCluster v.layout d l → s l ≡ t l)
      → contents (on_disk s v) cs ≡ contents (on_disk t v) cs
  unfolding contents
  contents-agree s t [] on same = refl
  contents-agree s t (c ∷ cs) on same =
      ap₂ (λ x y. x ++ y)
        (cluster_bytes-agree s t c (on c (Memᴰ.head refl)).0 (on c (Memᴰ.head refl)).1
          (λ l inside. same c l (Memᴰ.head refl) inside))
        (contents-agree s t cs (λ d m. on d (Memᴰ.tail m))
          (λ d l m inside. same d l (Memᴰ.tail m) inside))

  -- No sector lies in two clusters of a chain.
  pub apart :
      (c l : ℕ) (ds : List ℕ)
      → OnVolume v.layout (c ∷ ds)
      → (Memᴰ c ds → ⊥)
      → InCluster v.layout c l
      → (d : ℕ) → Memᴰ d ds
      → InCluster v.layout d l
      → ⊥
  apart c l ds on once inside d m there =
      clusters_apart v.layout d c l (on d (Memᴰ.tail m)).0 (on c (Memᴰ.head refl)).0
        (λ e. once (subst (λ x. Memᴰ x ds) e m)) there inside

  -- What is stored in the later clusters, seen from an earlier one on.
  pub Patched-next :
      {s t : ℕ → List ℕ} {ds bytes : List ℕ} {off : ℕ}
      → (c : ℕ) → Readable (on_disk s v)
      → OnVolume v.layout (c ∷ ds)
      → (Memᴰ c ds → ⊥)
      → Patched v s ds off bytes t
      → Patched v s (c ∷ ds) (bytes_per_cluster v + off) bytes t
  unfolding contents bytes_per_cluster
  Patched-next {s} {t} {ds} {bytes} {off} c r on once p = record {
    holds =
        ap₂ (λ x y. x ++ y)
          (cluster_bytes-agree t s c (on c (Memᴰ.head refl)).0 (on c (Memᴰ.head refl)).1
            (λ l inside. p.others l (apart c l ds on once inside)))
          p.holds
        ∙ sym (
            store_bytes_right (cluster_bytes (on_disk s v) c) off bytes (contents (on_disk s v) ds))
        ∙ ap (λ k. store_bytes k bytes (cluster_bytes (on_disk s v) c ++ contents (on_disk s v) ds))
            {x = length (cluster_bytes (on_disk s v) c) + off} {y = bytes_per_cluster v + off}
            (omega (arith, length-cluster_bytes c (on_disk s v) r));
    others = λ l out. p.others l (λ d m. out d (Memᴰ.tail m));
    sizes = p.sizes;
  }
