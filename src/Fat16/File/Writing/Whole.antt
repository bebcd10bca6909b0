-- ===== src/Fat16/File/Writing/Whole.antt =====
-- kernel/fs/fat16.c: `fat16_write_file` as a whole: the data that `fat16_read_at` then reads.
use native.Mathlib.Decide.{ℕ_discrete}
use mathlib.Core.List.{Memᴰ}
use mathlib.Core.List.Memᴰ
use null_os.Prelude.{
  ℕ, ◌+◌, ◌-◌, ◌*◌, ◌^◌, ◌≤◌, ◌<◌, ◌≡◌, sym, ap, ap₂, subst, ◌∙◌, ◌⊎◌, inl, inr, true, false,
  Option, some, List, [], ◌∷◌, length, get_or, arith,
}
use null_os.Fat16.{Volume, Disk, Layout, entry, free_chain, bytes_per_cluster}
use null_os.Fat16.Table.{AllUsed, Chain}
use null_os.Fat16.Table.Free.{Freed, free_chain-Freed}
use null_os.Fat16.Dirent.{is_directory, to_8_3}
use null_os.Fat16.Dirent.Bytes.{Sized}
use null_os.Fat16.Directory.{Result, ok, err, io_error, Found, dir_lookup}
use null_os.Fat16.Directory.Place.{InSlot, dir_lookup-InSlot}
use null_os.Fat16.File.{write_clusters, commit_file, write_file}
use null_os.Fat16.File.Reading.{contents, Readable}
use null_os.Fat16.File.Writing.{filled}
use null_os.Fat16.File.Writing.Clusters.{IsLaidOut, InCluster}
use null_os.Fat16.File.Writing.Loop.{Filling, filling, disk_is_full, write_clusters-Filling}
use null_os.Fat16.File.Writing.Commit.{Saved, commit-final, final-Saved}

mem_or_not : (d : ℕ) (l : List ℕ) → Memᴰ d l ⊎ (Memᴰ d l → ⊥)
mem_or_not d [] = inr (λ m. Memᴰ.not-nil m)
mem_or_not d (c ∷ l) = elim (ℕ_discrete d c) [
  | yes same ↦ inl (Memᴰ.head same)
  | no other ↦ elim (mem_or_not d l) [
    | inl m ↦ inl (Memᴰ.tail m)
    | inr out ↦ inr (λ m. elim (Memᴰ.cases_cons m) [ inl e ↦ other e | inr n ↦ out n ])
  ]
]

-- The sector of the directory lies behind the tables, and in no cluster that is free or belongs to the
-- file.
pub record IsApart (v : Volume) (old : List ℕ) (lba : ℕ) : Type 0 where
  pub after_tables : v.layout.fat_start_lba + v.layout.num_fats * v.layout.fat_size_sectors ≤ lba
  pub no_cluster :
      (c : ℕ)
      → 2 ≤ c
      → c < v.layout.total_clusters
      → (entry v c ≡ 0) ⊎ Memᴰ c old
      → InCluster v.layout c lba
      → ⊥

-- What `fat16_write_file` returns: the data is saved, or no cluster is free.
pub data SaveOutcome (v : Volume) (f : Found) (bytes : List ℕ)
    : Result (Unit {0}) × Volume → Type 0 where
  saved :
      (first : ℕ) (cs : List ℕ) (u : Volume)
      → Saved v f bytes first cs u
      → SaveOutcome v f bytes (ok tt, u)
  no_space :
      (u : Volume)
      → AllUsed u 2 (2 + (v.layout.total_clusters - 2))
      → SaveOutcome v f bytes (err io_error, u)

module _ (v : Volume) (f : Found) (bytes old : List ℕ) (r : Readable v)
    (h : IsLaidOut v.layout (length v.fat)) (at : InSlot v f) (sized : Sized f.found)
    (small : length bytes < 2 ^ 32) (apart : IsApart v old f.found_lba) (fat : List ℕ)
    (same_size : length fat ≡ length v.fat)
    (was_free : (d : ℕ) → get_or fat d 0 ≡ 0 → (entry v d ≡ 0) ⊎ Memᴰ d old) where
  abbrev freed_volume : Volume
  freed_volume = record v { fat = fat }

  commit_each :
      (x : Option ℕ × Volume)
      → Filling freed_volume bytes x
      → SaveOutcome v f bytes (commit_file f (length bytes) x)
  unfolding commit_file bytes_per_cluster
  commit_each x (disk_is_full u used) = no_space u used
  commit_each x (filling first cs u g k few first_none) =
      subst (λ w. SaveOutcome v f bytes (commit_file f (length bytes) (some first, w))) (sym same)
        (subst (SaveOutcome v f bytes)
          (sym (
            commit-final v f bytes first cs u.fat u.disk r h' at sized small few first_none g.works
              sizes inside chain g.fits holds apart.after_tables none_there))
          (saved first cs _ (
            final-Saved v f bytes first cs u.fat u.disk r h' at sized small few first_none g.works
              sizes inside chain g.fits holds apart.after_tables none_there)))
    where
      same : u ≡ record { layout = v.layout; fat = u.fat; disk = u.disk }
      same =
          ap
            (λ (l : Layout).
              let w : Volume = record { layout = l; fat = u.fat; disk = u.disk } in w)
            g.same_layout

      h' : IsLaidOut v.layout (length u.fat)
      h' = subst (IsLaidOut v.layout) (sym (g.table_size ∙ same_size)) h

      sizes : (l : ℕ) → length (u.disk.sectors l) ≡ 512
      sizes l = g.sizes l (r.whole l)

      inside : (d : ℕ) → Memᴰ d cs → (2 ≤ d) × (d < v.layout.total_clusters)
      inside d m = ((g.free_before d m).1, (g.free_before d m).2)

      chain : Chain (record { layout = v.layout; fat = u.fat; disk = u.disk }) first cs
      chain = subst (λ w. Chain w first cs) same k

      holds :
          contents (record { layout = v.layout; fat = u.fat; disk = u.disk }) cs
          ≡ filled (length cs * bytes_per_cluster v) bytes
      holds =
          subst (λ w. contents w cs ≡ filled (length cs * bytes_per_cluster v) bytes) same g.holds

      none_there : (d : ℕ) → Memᴰ d cs → InCluster v.layout d f.found_lba → ⊥
      none_there d m =
          apart.no_cluster d (g.free_before d m).1 (g.free_before d m).2
            (was_free d (g.free_before d m).0)

write_file-found :
    (parent : ℕ) (name bytes : List ℕ) (v u : Volume) (f : Found)
    → v.layout.ready ≡ true
    → dir_lookup parent (to_8_3 name) v ≡ ok f
    → is_directory f.found ≡ false
    → free_chain f.found.first_cluster v ≡ some u
    → write_file parent name bytes v
      ≡ commit_file f (length bytes) (write_clusters (length bytes) 0 0 bytes u)
unfolding write_file
write_file-found parent name bytes v u f ready found plain freed = ground arith

-- `fat16_write_file`, of a file that the directory has, on a volume whose sectors all work: the data is
-- saved, or the disk is full.
pub write_file-SaveOutcome :
    (parent : ℕ) (name bytes : List ℕ) (v : Volume) (f : Found) (old : List ℕ)
    → v.layout.ready ≡ true
    → Readable v
    → IsLaidOut v.layout (length v.fat)
    → dir_lookup parent (to_8_3 name) v ≡ ok f
    → is_directory f.found ≡ false
    → Sized f.found
    → Chain v f.found.first_cluster old
    → IsApart v old f.found_lba
    → length bytes < 2 ^ 32
    → SaveOutcome v f bytes (write_file parent name bytes v)
write_file-SaveOutcome parent name bytes v f old ready r h found plain sized k apart small =
    subst (SaveOutcome v f bytes)
      (sym (
        write_file-found parent name bytes v u f ready found plain freed.1
        ∙ ap (λ w. commit_file f (length bytes) (write_clusters (length bytes) 0 0 bytes w)) same))
      (commit_each v f bytes old r h (dir_lookup-InSlot (to_8_3 name) v parent f found) sized small
        apart u.fat fr.same_size was_free
        (write_clusters (length bytes) 0 0 bytes (record v { fat = u.fat }))
        (write_clusters-Filling bytes (record v { fat = u.fat })
          (subst (IsLaidOut v.layout) (sym fr.same_size) h) r.works))
  where
    freed : (u : Volume) × (free_chain f.found.first_cluster v ≡ some u) × Freed old v u
    freed = free_chain-Freed f.found.first_cluster old v k

    u : Volume
    u = freed.0

    fr : Freed old v u
    fr = freed.2

    same : u ≡ record v { fat = u.fat }
    same =
        ap₂
          (λ (l : Layout) (d : Disk).
            let w : Volume = record { layout = l; fat = u.fat; disk = d } in w)
          fr.same_layout fr.same_disk

    was_free : (d : ℕ) → entry u d ≡ 0 → (entry v d ≡ 0) ⊎ Memᴰ d old
    was_free d z = elim (mem_or_not d old) [
      | inl m ↦ inr m
      | inr out ↦ inl (sym (fr.kept d out) ∙ z)
    ]
