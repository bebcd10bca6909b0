-- ===== src/Fat16/File/Patching/Part.antt =====
-- kernel/fs/fat16.c: one round of the writing loop of `fat16_write_at`, in a cluster of the file.
use native.Mathlib.Decide.{ℕ_discrete}
use mathlib.Core.List.{Memᴰ}
use null_os.Prelude.{
  ℕ, ◌+◌, ◌*◌, ◌/◌, ◌%◌, ◌^◌, ◌≤◌, ◌<◌, ◌≡◌, refl, sym, ap, ap₂, subst, ◌∙◌, List, ◌∷◌, ◌++◌,
  length, arith, true, false,
}
use null_os.Prelude.Bytes.{add_u32, store_bytes, length-store_bytes, store_bytes_left}
use null_os.Fat16.{Volume, cluster_to_lba, bytes_per_cluster}
use null_os.Fat16.File.{write_part}
use null_os.Fat16.File.Reading.{cluster_bytes, contents, Readable}
use null_os.Fat16.File.Reading.Clusters.{length-cluster_bytes}
use null_os.Fat16.File.Writing.{on_disk, stored_at_self, stored_at_other}
use null_os.Fat16.File.Writing.Clusters.{
  IsLaidOut, InCluster, cluster_start, cluster_end, cluster_to_lba-start,
}
use null_os.Fat16.File.Patching.{patched_sector, sectors_bytes-patched, write_part-patched}
use null_os.Fat16.File.Patching.Clusters.{OnVolume, Patched, contents-agree, apart}

module _ (v : Volume) (h : IsLaidOut v.layout (length v.fat)) (s : ℕ → List ℕ)
    (r : Readable (on_disk s v)) (c off : ℕ) (part : List ℕ) (low : 2 ≤ c)
    (high : c < v.layout.total_clusters) (inside : off < bytes_per_cluster v)
    (fits : off % 512 + length part ≤ 512) where
  abbrev pub part_lba : ℕ
  part_lba = cluster_to_lba v c + off / 512

  abbrev pub after_part : ℕ → List ℕ
  after_part = patched_sector part_lba (off % 512) part (on_disk s v)

  sector_inside : off / 512 < v.layout.sectors_per_cluster
  unfolding bytes_per_cluster
  sector_inside = omega (arith, inside)

  start : cluster_to_lba v c ≡ cluster_start v.layout c
  start = cluster_to_lba-start v c h low high

  no_wrap : cluster_to_lba v c + v.layout.sectors_per_cluster < 2 ^ 32
  no_wrap = omega (arith, start, cluster_end v.layout (length v.fat) c h low high)

  in_cluster : InCluster v.layout c part_lba
  in_cluster = (omega (arith, start, sector_inside), omega (arith, start, sector_inside))

  -- The round writes these bytes.
  pub write_part-round :
      write_part (add_u32 (cluster_to_lba v c) (off / 512)) (off % 512) part false (on_disk s v)
      ≡ (true, on_disk after_part v)
  write_part-round =
      ap (λ l. write_part l (off % 512) part false (on_disk s v))
        {x = add_u32 (cluster_to_lba v c) (off / 512)} {y = part_lba}
        (omega (arith, no_wrap, sector_inside))
      ∙ write_part-patched part_lba (off % 512) part (on_disk s v) r fits

  cluster_bytes-patched :
      cluster_bytes (on_disk after_part v) c ≡ store_bytes off part (cluster_bytes (on_disk s v) c)
  unfolding cluster_bytes cluster_to_lba
  cluster_bytes-patched =
      sectors_bytes-patched v.layout.sectors_per_cluster (off / 512) (cluster_to_lba v c)
        (off % 512) part (on_disk s v) r sector_inside no_wrap fits
      ∙ ap (λ k. store_bytes k part (cluster_bytes (on_disk s v) c))
          {x = off / 512 * 512 + off % 512} {y = off} (omega arith)

  after_sizes : (l : ℕ) → length (after_part l) ≡ length (s l)
  after_sizes l = elim (ℕ_discrete l part_lba) [
    | yes same ↦
        ap length (
          ap after_part same
          ∙ stored_at_self part_lba (store_bytes (off % 512) part (s part_lba)) (on_disk s v))
        ∙ length-store_bytes (off % 512) part (s part_lba)
        ∙ ap (λ k. length (s k)) (sym same)
    | no other ↦
        ap length (
          stored_at_other part_lba l (store_bytes (off % 512) part (s part_lba)) (on_disk s v)
            other)
  ]

  elsewhere : (l : ℕ) → (InCluster v.layout c l → ⊥) → after_part l ≡ s l
  elsewhere l out =
      stored_at_other part_lba l (store_bytes (off % 512) part (s part_lba)) (on_disk s v)
        (λ e. out (subst (InCluster v.layout c) (sym e) in_cluster))

  part_in_cluster : off + length part ≤ length (cluster_bytes (on_disk s v) c)
  unfolding bytes_per_cluster
  part_in_cluster = omega (arith, fits, inside, length-cluster_bytes c (on_disk s v) r)

  pub part-Patched :
      (ds : List ℕ)
      → OnVolume v.layout (c ∷ ds)
      → (Memᴰ c ds → ⊥)
      → Patched v s (c ∷ ds) off part after_part
  unfolding contents
  part-Patched ds on once = record {
    holds =
        ap₂ (λ x y. x ++ y) cluster_bytes-patched
          (contents-agree v h after_part s ds (λ d m. on d (Memᴰ.tail m))
            (λ d l m there. elsewhere l (λ here. apart v h c l ds on once here d m there)))
        ∙ sym (
            store_bytes_left off part (cluster_bytes (on_disk s v) c) (contents (on_disk s v) ds)
              part_in_cluster);
    others = λ l out. elsewhere l (out c (Memᴰ.head refl));
    sizes = after_sizes;
  }
