-- ===== src/Fat16/File/Writing/Commit.antt =====
-- kernel/fs/fat16.c: the last steps of `fat16_write_file`: the entry and the tables, beside the data.
use native.Mathlib.Decide.{ℕ_discrete}
use mathlib.Core.List.{Memᴰ}
use null_os.Prelude.{
  ℕ, ◌+◌, ◌-◌, ◌*◌, ◌%◌, ◌^◌, ◌≤◌, ◌<◌, ◌≡◌, refl, sym, ap, ap₂, subst, ◌∙◌, inr, Bool, false, some,
  List, [], ◌∷◌, ◌++◌, ◌==◌, if◌then◌else◌, length, arith, ==_of_ne,
}
use null_os.Prelude.Bytes.{length-store_bytes}
use null_os.Fat16.{Volume, Disk, entry, flush_fat, bytes_per_cluster, cluster_to_lba}
use null_os.Fat16.Table.{Chain, ended, linked}
use null_os.Fat16.Dirent.{Dirent, dirent_at, dirent_bytes, store_dirent}
use null_os.Fat16.Dirent.Bytes.{Sized, dirent_at-store_dirent}
use null_os.Fat16.Directory.{ok, err, io_error, Found, status}
use null_os.Fat16.Directory.Place.{InSlot}
use null_os.Fat16.File.{update_entry, commit_file}
use null_os.Fat16.File.Reading.{cluster_bytes, contents, Readable}
use null_os.Fat16.File.Writing.{
  on_disk, stored_at, write_sector-works, stored_at_self, stored_at_other, filled,
}
use null_os.Fat16.File.Writing.Clusters.{
  IsLaidOut, InCluster, sectors_bytes-agree, cluster_to_lba-start, cluster_end,
}
use null_os.Fat16.File.Writing.Flush.{Flushed, flush_fat-Flushed}

-- The contents of clusters are the same where the disks agree on them.
contents-agree :
    (cs : List ℕ) (u : Volume) (s : ℕ → List ℕ)
    → IsLaidOut u.layout (length u.fat)
    → ((d : ℕ) → Memᴰ d cs → (2 ≤ d) × (d < u.layout.total_clusters))
    → ((l : ℕ) (d : ℕ) → Memᴰ d cs → InCluster u.layout d l → s l ≡ u.disk.sectors l)
    → contents (on_disk s u) cs ≡ contents u cs
unfolding contents cluster_bytes cluster_to_lba
contents-agree [] u s h inside same = refl
contents-agree (c ∷ cs) u s h inside same =
    ap₂ (λ x y. x ++ y)
      (sectors_bytes-agree u.layout.sectors_per_cluster (cluster_to_lba u c) (on_disk s u) u
        (omega (arith, start, cluster_end u.layout (length u.fat) c h bounds.0 bounds.1))
        (λ l le lt. same l c (Memᴰ.head refl) (omega (arith, le, start), omega (arith, lt, start))))
      (contents-agree cs u s h (λ d m. inside d (Memᴰ.tail m)) (λ l d m. same l d (Memᴰ.tail m)))
  where
    bounds : (2 ≤ c) × (c < u.layout.total_clusters)
    bounds = inside c (Memᴰ.head refl)

    start : cluster_to_lba u c ≡ u.layout.data_start_lba + (c - 2) * u.layout.sectors_per_cluster
    start = cluster_to_lba-start u c h bounds.0 bounds.1

pub Chain-on_disk :
    (u : Volume) (s : ℕ → List ℕ) (c : ℕ) (cs : List ℕ) → Chain u c cs → Chain (on_disk s u) c cs
Chain-on_disk u s c [] (ended e) = ended e
Chain-on_disk u s c (d ∷ cs) (linked e k) = linked e (Chain-on_disk u s (entry u c) cs k)

-- The entry of the file once the data is written.
abbrev pub saved_entry : Found → (first size : ℕ) → Dirent
saved_entry f first size = record f.found { first_cluster = first; size = size }

-- The file holds the data: its entry on the disk leads to a chain with the data, and zeros behind it.
pub record Saved (v : Volume) (f : Found) (bytes : List ℕ) (first : ℕ) (cs : List ℕ) (u : Volume)
    : Type 0 where
  pub entry_on_disk :
      dirent_at (u.disk.sectors f.found_lba) f.found_index ≡ saved_entry f first (length bytes)
  pub chain : Chain u first cs
  pub fits : length bytes ≤ length cs * bytes_per_cluster v
  pub holds : contents u cs ≡ filled (length cs * bytes_per_cluster v) bytes
  pub readable : Readable u
  pub same_layout : u.layout ≡ v.layout

entry_first :
    (bytes : List ℕ) (first : ℕ)
    → (bytes ≡ [] → first ≡ 0)
    → (if length bytes == 0 then 0 else first) ≡ first
entry_first [] first h = sym (h refl)
entry_first (b ∷ bs) first h = rw (==_of_ne (length (b ∷ bs)) 0 (λ e. omega (arith, e))) refl

-- The last steps: the entry, then the tables.
module _ (v : Volume) (f : Found) (bytes : List ℕ) (first : ℕ) (cs fat : List ℕ) (disk : Disk)
    (r : Readable v) (h : IsLaidOut v.layout (length fat)) (at : InSlot v f) (sized : Sized f.found)
    (small : length bytes < 2 ^ 32) (first_small : first < 65536)
    (first_none : bytes ≡ [] → first ≡ 0) (works : (l : ℕ) → disk.faulty l ≡ false)
    (sizes : (l : ℕ) → length (disk.sectors l) ≡ 512)
    (inside : (d : ℕ) → Memᴰ d cs → (2 ≤ d) × (d < v.layout.total_clusters))
    (chain : Chain (record { layout = v.layout; fat = fat; disk = disk }) first cs)
    (fits : length bytes ≤ length cs * bytes_per_cluster v)
    (holds : contents (record { layout = v.layout; fat = fat; disk = disk }) cs
      ≡ filled (length cs * bytes_per_cluster v) bytes)
    (after_tables : v.layout.fat_start_lba + v.layout.num_fats * v.layout.fat_size_sectors
      ≤ f.found_lba)
    (apart : (d : ℕ) → Memᴰ d cs → InCluster v.layout d f.found_lba → ⊥) where
  abbrev pub filled_volume : Volume
  filled_volume = record { layout = v.layout; fat = fat; disk = disk }

  abbrev pub new_entry : Dirent
  new_entry = record (dirent_at f.dir_buf f.found_index) {
    first_cluster = (if length bytes == 0 then 0 else first) % 65536;
    size = length bytes;
  }

  abbrev pub new_sector : List ℕ
  new_sector = store_dirent f.found_index new_entry f.dir_buf

  abbrev pub stored : Volume
  stored = on_disk (stored_at f.found_lba new_sector filled_volume) filled_volume

  pub flushed :
      Flushed stored v.layout.fat_start_lba
        (v.layout.fat_start_lba + v.layout.num_fats * v.layout.fat_size_sectors)
        (flush_fat stored)
  flushed = flush_fat-Flushed stored h works

  abbrev pub final : Volume
  final = on_disk flushed.after stored

  buffer_size : length f.dir_buf ≡ 512
  buffer_size = ap length at.buffer ∙ r.whole f.found_lba

  new_size : length new_sector ≡ 512
  unfolding store_dirent
  new_size =
      length-store_bytes (f.found_index * 32) (dirent_bytes new_entry) f.dir_buf ∙ buffer_size

  pub commit-final : commit_file f (length bytes) (some first, filled_volume) ≡ (ok tt, final)
  unfolding commit_file update_entry status
  commit-final =
      ap (λ (p : Bool × Volume). if p.0 then status (flush_fat p.1) else (err io_error, p.1))
        (write_sector-works f.found_lba new_sector filled_volume (works f.found_lba))
      ∙ ap status flushed.result

  same_entry : new_entry ≡ saved_entry f first (length bytes)
  same_entry =
      ap₂ (λ (e : Dirent) (n : ℕ). record e { first_cluster = n; size = length bytes })
        (sym at.entry_of)
        (ap (λ n. n % 65536) (entry_first bytes first first_none) ∙ omega (arith, first_small))

  new_entry-Sized : Sized new_entry
  new_entry-Sized = subst Sized (sym same_entry) (record {
    name_size = sized.name_size;
    ext_size = sized.ext_size;
    reserved_size = sized.reserved_size;
    time_size = sized.time_size;
    date_size = sized.date_size;
    first_cluster_size = first_small;
    size_size = small;
  })

  kept_sector : flushed.after f.found_lba ≡ new_sector
  kept_sector =
      flushed.others f.found_lba (inr after_tables)
      ∙ stored_at_self f.found_lba new_sector filled_volume

  final_sizes : (l : ℕ) → length (flushed.after l) ≡ 512
  final_sizes l = flushed.sizes l (elim (ℕ_discrete l f.found_lba) [
    | yes same ↦
        ap (λ k. length (stored_at f.found_lba new_sector filled_volume k)) same
        ∙ ap length (stored_at_self f.found_lba new_sector filled_volume)
        ∙ new_size
    | no other ↦ ap length (stored_at_other f.found_lba l new_sector filled_volume other) ∙ sizes l
  ])

  kept_data : (l d : ℕ) → Memᴰ d cs → InCluster v.layout d l → flushed.after l ≡ disk.sectors l
  kept_data l d m there =
      flushed.others l (inr (omega (arith, h.tables_first, there)))
      ∙ stored_at_other f.found_lba l new_sector filled_volume
          (λ e. apart d m (subst (InCluster v.layout d) e there))

  pub final-Saved : Saved v f bytes first cs final
  final-Saved = record {
    entry_on_disk =
        ap (λ b. dirent_at b f.found_index) kept_sector
        ∙ dirent_at-store_dirent f.found_index new_entry f.dir_buf new_entry-Sized
            (omega (arith, buffer_size, at.slot))
        ∙ same_entry;
    chain = Chain-on_disk filled_volume flushed.after first cs chain;
    fits = fits;
    holds = contents-agree cs filled_volume flushed.after h inside kept_data ∙ holds;
    readable = record { works = works; whole = final_sizes };
    same_layout = refl;
  }
