-- ===== src/Fat16/Directory/Tests.antt =====
-- kernel/fs/fat16.c: an entry inserted in an empty root directory, and the theorem at it.
use null_os.Prelude.{
  ℕ, ◌<◌, ◌≡◌, refl, arith, true, false, List, [], ◌∷◌, ◌++◌, replicate, length, length-replicate,
}
use null_os.Fat16.{Volume, read_sector, write_sector}
use null_os.Fat16.Dirent.{Dirent, dirent_at, is_volume_id, space}
use null_os.Fat16.Dirent.Bytes.{Sized}
use null_os.Fat16.Directory.{
  missing, ok, err, Found, dir_iter_init, dir_iter_next_sector, root_next_sector, scan, walk,
  walk_result, dir_fuel, lookup_visit, dir_lookup, insert_visit, status, dir_insert,
}
use null_os.Fat16.Region.{region_sectors}
use null_os.Fat16.Directory.Listing.Region.{IsDirectory, is_root}
use null_os.Fat16.File.Reading.{Readable}
use null_os.Fat16.File.Writing.Clusters.{IsLaidOut}
use null_os.Fat16.Directory.Insert.{is_free, AllTaken, taken, entries_from}
use null_os.Fat16.Directory.Insert.Lookup.{entries}
use null_os.Fat16.Directory.Insert.After.{dir_lookup-dir_insert}

abbrev empty_root : Volume
empty_root = record {
  layout = record {
    ready = true;
    fat_start_lba = 1;
    root_start_lba = 2;
    data_start_lba = 3;
    root_sector_count = 1;
    sectors_per_cluster = 1;
    fat_size_sectors = 1;
    total_clusters = 6;
    num_fats = 1;
  };
  fat = 0xFFF8 ∷ 0xFFFF ∷ replicate 254 0;
  disk = record { sectors = λ l. replicate 512 0; faulty = λ l. false };
}

abbrev root_bytes : List (ℕ × List ℕ)
root_bytes = (2, replicate 512 0) ∷ []

root-IsDirectory : IsDirectory empty_root 0 root_bytes
unfolding region_sectors
root-IsDirectory = is_root (omega arith)

empty_root-Readable : Readable empty_root
empty_root-Readable = record { works = λ lba. refl; whole = λ lba. length-replicate {A = ℕ} 512 0 }

empty_root-IsLaidOut : IsLaidOut empty_root.layout (length empty_root.fat)
empty_root-IsLaidOut = record {
  some_sectors = omega arith;
  tables_first = omega arith;
  no_wrap = omega arith;
  few_clusters = omega arith;
  in_table = omega arith;
  whole_table = refl;
}

root_fuel : 1 < dir_fuel empty_root
unfolding dir_fuel
root_fuel = omega arith

-- "AB.C"
abbrev ab_c : Dirent
ab_c = record {
  name = 65 ∷ 66 ∷ replicate 6 space;
  ext = 67 ∷ space ∷ space ∷ [];
  attr = 0x20;
  reserved = replicate 10 0;
  time = 0;
  date = 0;
  first_cluster = 0;
  size = 0;
}

ab_c-Sized : Sized ab_c
ab_c-Sized = record {
  name_size = refl;
  ext_size = refl;
  reserved_size = refl;
  time_size = omega arith;
  date_size = omega arith;
  first_cluster_size = omega arith;
  size_size = omega arith;
}

ab_c_file : is_volume_id ab_c ≡ false
unfolding is_volume_id
ab_c_file = refl

free_slot : AllTaken (entries root_bytes) → ⊥
unfolding entries entries_from is_free dirent_at
free_slot (taken e k) = cc (e)

absent : dir_lookup 0 (ab_c.name ++ ab_c.ext) empty_root ≡ err missing
unfolding dir_lookup walk_result walk scan lookup_visit dir_iter_init dir_iter_next_sector
    root_next_sector read_sector dir_fuel dirent_at
absent = refl

inserted : (dir_insert 0 ab_c empty_root).0 ≡ ok tt
unfolding dir_insert walk scan insert_visit dir_iter_init dir_iter_next_sector root_next_sector
    read_sector dir_fuel dirent_at status write_sector
inserted = refl

dir_lookup-dir_insert_example :
    (f : Found) × (dir_lookup 0 (ab_c.name ++ ab_c.ext) ((dir_insert 0 ab_c empty_root).1) ≡ ok f)
    × (f.found ≡ ab_c)
dir_lookup-dir_insert_example =
    dir_lookup-dir_insert 0 ab_c root_bytes empty_root ((dir_insert 0 ab_c empty_root).1) ab_c-Sized
      (λ z. omega (arith, z), λ z. omega (arith, z)) ab_c_file empty_root-Readable
      empty_root-IsLaidOut root-IsDirectory root_fuel free_slot absent
      (λ i. (inserted i, (dir_insert 0 ab_c empty_root).1))
