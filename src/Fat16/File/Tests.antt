-- ===== src/Fat16/File/Tests.antt =====
-- kernel/fs/fat16.c: `fat16_write_file` and `fat16_write_at` on volumes with one file in their root
-- directory, and the theorems at them.
use mathlib.Core.List.Memᴰ
use null_os.Prelude.{
  some, take, drop, min, ◌-◌, ◌≤◌, ◌*◌, ℕ, ◌≡◌, refl, arith, true, false, List, [], ◌∷◌, replicate,
  length, length-replicate, if◌then◌else◌, ◌==◌, Bool-cases, inl, inr,
}
use null_os.Fat16.{Volume, is_cluster, read_sector, bytes_per_cluster}
use null_os.Fat16.Table.{Chain, linked, ended}
use null_os.Fat16.Dirent.{
  Dirent, dirent_at, dirent_bytes, store_dirent, space, is_directory, is_volume_id, to_8_3, is_dots,
  base_name, skip_to_dot, after_dot, padded, toupper,
}
use null_os.Fat16.Dirent.Bytes.{Sized}
use null_os.Fat16.Directory.{
  ok, Found, dir_lookup, walk, walk_result, scan, lookup_visit, dir_iter_init, dir_iter_next_sector,
  root_next_sector, dir_fuel, is_hidden, equal_bytes,
}
use null_os.Fat16.Region.{chain_sectors, bytes_in}
use null_os.Fat16.File.{write_file, write_at, read_at}
use null_os.Fat16.File.Reading.Data.{read_at-chain_sectors}
use null_os.Fat16.File.Patching.Clusters.{OnVolume}
use null_os.Fat16.File.Patching.ReadBack.{WrittenInPlace, write_at-read_at}
use null_os.Fat16.File.Reading.{Readable}
use null_os.Fat16.File.Writing.Clusters.{IsLaidOut}
use null_os.Fat16.File.Writing.Whole.{IsApart}
use null_os.Fat16.File.Writing.ReadBack.{WriteOutcome, write_file-read_at}

-- "AB.C", with one cluster.
abbrev ab_c : Dirent
ab_c = record {
  name = 65 ∷ 66 ∷ replicate 6 space;
  ext = 67 ∷ space ∷ space ∷ [];
  attr = 0x20;
  reserved = replicate 10 0;
  time = 0;
  date = 0;
  first_cluster = 2;
  size = 5;
}

abbrev zeros : List ℕ
zeros = replicate 512 0

abbrev root_sector : Dirent → List ℕ
root_sector e = store_dirent 0 e zeros

abbrev volume_of : Dirent → (fat : List ℕ) → Volume
volume_of e fat = record {
  layout = record {
    ready = true;
    fat_start_lba = 1;
    root_start_lba = 2;
    data_start_lba = 3;
    root_sector_count = 1;
    sectors_per_cluster = 1;
    fat_size_sectors = 1;
    total_clusters = 6;
    num_fats = 1;
  };
  fat = fat;
  disk = record { sectors = λ l. if l == 2 then root_sector e else zeros; faulty = λ l. false };
}

abbrev one_file : Volume
one_file = volume_of ab_c (0xFFF8 ∷ 0xFFFF ∷ 0xFFFF ∷ replicate 253 0)

abbrev ab_c_found : Found
ab_c_found = record { found = ab_c; found_lba = 2; found_index = 0; dir_buf = root_sector ab_c }

-- "ab.c"
abbrev ab_c_name : List ℕ
ab_c_name = 97 ∷ 98 ∷ 46 ∷ 99 ∷ []

volume_of-Readable :
    (e : Dirent) (fat : List ℕ) → length (root_sector e) ≡ 512 → Readable (volume_of e fat)
volume_of-Readable e fat size = record {
  works = λ lba. refl;
  whole = λ lba. elim (Bool-cases (lba == 2)) [
    | inl root ↦ rw root size
    | inr other ↦ rw other (length-replicate {A = ℕ} 512 0)
  ];
}

one_file-Readable : Readable one_file
unfolding store_dirent dirent_bytes
one_file-Readable = volume_of-Readable ab_c one_file.fat refl

one_file-IsLaidOut : IsLaidOut one_file.layout (length one_file.fat)
one_file-IsLaidOut = record {
  some_sectors = omega arith;
  tables_first = omega arith;
  no_wrap = omega arith;
  few_clusters = omega arith;
  in_table = omega arith;
  whole_table = refl;
}

is_found : dir_lookup 0 (to_8_3 ab_c_name) one_file ≡ ok ab_c_found
unfolding dir_lookup walk_result walk scan lookup_visit dir_iter_init dir_iter_next_sector
    root_next_sector read_sector dir_fuel dirent_at dirent_bytes store_dirent is_hidden is_volume_id
    equal_bytes to_8_3 is_dots base_name skip_to_dot after_dot padded toupper
is_found = refl

plain_file : is_directory ab_c ≡ false
unfolding is_directory
plain_file = refl

ab_c-Sized : Sized ab_c
ab_c-Sized = record {
  name_size = refl;
  ext_size = refl;
  reserved_size = refl;
  time_size = omega arith;
  date_size = omega arith;
  first_cluster_size = omega arith;
  size_size = omega arith;
}

ab_c-Chain : Chain one_file 2 (2 ∷ [])
unfolding is_cluster
ab_c-Chain = linked refl (ended refl)

root-IsApart : IsApart one_file (2 ∷ []) 2
root-IsApart = record {
  after_tables = omega arith;
  no_cluster = λ c low high free inside. omega (arith, inside);
}

-- 600 bytes over two clusters, and 10 of them across the boundary.
write_file-read_at_example :
    WriteOutcome one_file ab_c_found
      (replicate 600 7)
      507
      10
      (write_file 0 ab_c_name (replicate 600 7) one_file)
write_file-read_at_example =
    write_file-read_at 0 ab_c_name (replicate 600 7) one_file ab_c_found (2 ∷ []) 507 10 refl
      one_file-Readable one_file-IsLaidOut is_found plain_file ab_c-Sized ab_c-Chain root-IsApart
      (omega arith) (omega arith) (omega arith)

-- "AB.C" with 600 bytes, in two clusters.
abbrev long_ab_c : Dirent
long_ab_c = record ab_c { size = 600 }

abbrev long_file : Volume
long_file = volume_of long_ab_c (0xFFF8 ∷ 0xFFFF ∷ 3 ∷ 0xFFFF ∷ replicate 252 0)

abbrev long_found : Found
long_found = record {
  found = long_ab_c;
  found_lba = 2;
  found_index = 0;
  dir_buf = root_sector long_ab_c;
}

long_file-Readable : Readable long_file
unfolding store_dirent dirent_bytes
long_file-Readable = volume_of-Readable long_ab_c long_file.fat refl

long_file-IsLaidOut : IsLaidOut long_file.layout (length long_file.fat)
long_file-IsLaidOut = record {
  some_sectors = omega arith;
  tables_first = omega arith;
  no_wrap = omega arith;
  few_clusters = omega arith;
  in_table = omega arith;
  whole_table = refl;
}

long_is_found : dir_lookup 0 (to_8_3 ab_c_name) long_file ≡ ok long_found
unfolding dir_lookup walk_result walk scan lookup_visit dir_iter_init dir_iter_next_sector
    root_next_sector read_sector dir_fuel dirent_at dirent_bytes store_dirent is_hidden is_volume_id
    equal_bytes to_8_3 is_dots base_name skip_to_dot after_dot padded toupper
long_is_found = refl

long_plain_file : is_directory long_ab_c ≡ false
unfolding is_directory
long_plain_file = refl

long_ab_c-Chain : Chain long_file 2 (2 ∷ 3 ∷ [])
unfolding is_cluster
long_ab_c-Chain = linked refl (linked refl (ended refl))

long_ab_c-OnVolume : OnVolume long_file.layout (2 ∷ 3 ∷ [])
long_ab_c-OnVolume d m = elim (Memᴰ.cases_cons m) [
  | inl e ↦ (omega (arith, e), omega (arith, e))
  | inr n ↦ elim (Memᴰ.cases_cons n) [
    | inl e ↦ (omega (arith, e), omega (arith, e))
    | inr none ↦ absurd (Memᴰ.not-nil none)
  ]
]

long_ab_c_size : long_ab_c.size ≤ length {A = ℕ} (2 ∷ 3 ∷ []) * bytes_per_cluster long_file
unfolding bytes_per_cluster
long_ab_c_size = omega arith

-- Ten bytes across the boundary of the clusters.
read_at-chain_sectors_example :
    read_at 2 507 10 600 long_file
    ≡ some (take (min 10 (600 - 507)) (drop 507 (bytes_in (chain_sectors long_file (2 ∷ 3 ∷ [])))))
read_at-chain_sectors_example =
    read_at-chain_sectors 2 507 10 600 (2 ∷ 3 ∷ []) long_file refl long_file-Readable
      long_file-IsLaidOut long_ab_c-Chain long_ab_c-OnVolume long_ab_c_size (omega arith)
      (omega arith)

-- Ten bytes across the boundary of the clusters, and the thirty around them.
write_at-read_at_example :
    WrittenInPlace long_file long_ab_c
      (2 ∷ 3 ∷ [])
      507
      500
      30
      (replicate 10 7)
      (write_at 0 ab_c_name 507 (replicate 10 7) long_file)
write_at-read_at_example =
    write_at-read_at 0 ab_c_name 507 (replicate 10 7) long_file long_found 500 30 refl
      long_file-Readable long_file-IsLaidOut long_is_found long_plain_file (omega arith)
      (omega arith) (omega arith) (omega arith) (omega arith) (2 ∷ 3 ∷ []) long_ab_c-Chain
      long_ab_c-OnVolume long_ab_c_size
