-- ===== src/Fat16/Directory/Listing/Tests.antt =====
-- kernel/fs/fat16.c: a subdirectory of two clusters, the first of which holds deleted entries only, and
-- the theorem about its lookups at it.
use mathlib.Core.List.Memᴰ
use null_os.Prelude.{
  ℕ, ◌<◌, ◌≡◌, refl, arith, true, false, List, [], ◌∷◌, ◌++◌, replicate, length, length-replicate,
  if◌then◌else◌, ◌==◌, Bool-cases, inl, inr,
}
use null_os.Fat16.{Volume, is_cluster}
use null_os.Fat16.Table.{Chain, linked, ended}
use null_os.Fat16.Region.{chain_sectors, region_sectors}
use null_os.Fat16.Dirent.{Dirent, dirent_bytes, store_dirent, space}
use null_os.Fat16.Directory.{dir_lookup, readdir, dir_fuel}
use null_os.Fat16.Directory.Listing.{slots}
use null_os.Fat16.Directory.Listing.Region.{is_sub}
use null_os.Fat16.Directory.Listing.Search.{visible, first_named, shown, listed_at, directory-list}
use null_os.Fat16.File.Reading.{Readable}
use null_os.Fat16.File.Writing.Clusters.{IsLaidOut}
use null_os.Fat16.File.Patching.Clusters.{OnVolume}

-- "AB.C"
abbrev ab_c : Dirent
ab_c = record {
  name = 65 ∷ 66 ∷ replicate 6 space;
  ext = 67 ∷ space ∷ space ∷ [];
  attr = 0x20;
  reserved = replicate 10 0;
  time = 0;
  date = 0;
  first_cluster = 0;
  size = 0;
}

abbrev second_sector : List ℕ
second_sector = store_dirent 0 ab_c (replicate 512 0)

abbrev two_clusters : Volume
two_clusters = record {
  layout = record {
    ready = true;
    fat_start_lba = 1;
    root_start_lba = 2;
    data_start_lba = 3;
    root_sector_count = 1;
    sectors_per_cluster = 1;
    fat_size_sectors = 1;
    total_clusters = 6;
    num_fats = 1;
  };
  fat = 0xFFF8 ∷ 0xFFFF ∷ 3 ∷ 0xFFFF ∷ replicate 252 0;
  disk = record {
    sectors = λ l. if l == 4 then second_sector else replicate 512 0xE5;
    faulty = λ l. false;
  };
}

second_size : length second_sector ≡ 512
unfolding store_dirent dirent_bytes
second_size = refl

two_clusters-Readable : Readable two_clusters
two_clusters-Readable = record {
  works = λ lba. refl;
  whole = λ lba. elim (Bool-cases (lba == 4)) [
    | inl second ↦ rw second second_size
    | inr other ↦ rw other (length-replicate {A = ℕ} 512 0xE5)
  ];
}

two_clusters-IsLaidOut : IsLaidOut two_clusters.layout (length two_clusters.fat)
two_clusters-IsLaidOut = record {
  some_sectors = omega arith;
  tables_first = omega arith;
  no_wrap = omega arith;
  few_clusters = omega arith;
  in_table = omega arith;
  whole_table = refl;
}

two_clusters-Chain : Chain two_clusters 2 (2 ∷ 3 ∷ [])
unfolding is_cluster
two_clusters-Chain = linked refl (linked refl (ended refl))

two_clusters-OnVolume : OnVolume two_clusters.layout (2 ∷ 3 ∷ [])
two_clusters-OnVolume d m = elim (Memᴰ.cases_cons m) [
  | inl e ↦ (omega (arith, e), omega (arith, e))
  | inr n ↦ elim (Memᴰ.cases_cons n) [
    | inl e ↦ (omega (arith, e), omega (arith, e))
    | inr none_left ↦ absurd (Memᴰ.not-nil none_left)
  ]
]

abbrev sub_sectors : List (ℕ × List ℕ)
sub_sectors = chain_sectors two_clusters (2 ∷ 3 ∷ [])

enough_rounds : length sub_sectors < dir_fuel two_clusters
unfolding dir_fuel chain_sectors region_sectors
enough_rounds = omega arith

directory-list_example :
    (dir_lookup 2 (ab_c.name ++ ab_c.ext) two_clusters
      ≡ first_named (ab_c.name ++ ab_c.ext) (visible (slots sub_sectors)))
    × (readdir 2 0 two_clusters ≡ listed_at 0 (shown (visible (slots sub_sectors))))
directory-list_example =
    directory-list 2 0 (ab_c.name ++ ab_c.ext) sub_sectors two_clusters refl two_clusters-Readable
      two_clusters-IsLaidOut (is_sub 2 (3 ∷ []) two_clusters-Chain two_clusters-OnVolume)
      enough_rounds
