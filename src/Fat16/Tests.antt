-- ===== src/Fat16/Tests.antt =====
-- kernel/fs/fat16.c: small volumes, runs on them, and the theorems at concrete inputs.
use null_os.Prelude.{ℕ, true, false, some, List, [], ◌∷◌, ◌++◌, replicate, ◌≡◌, refl, arith}
use null_os.Fat16.{Volume, free_chain}
use null_os.Fat16.Table.Free.{free_chain-terminates}
use null_os.Fat16.Dirent.{Dirent, to_8_3, slash, toupper, padded, dirent_display_name}
use null_os.Fat16.Dirent.Names.{none_left, plain, Stored, to_8_3-display}
use null_os.Fat16.Resolve.{create, mkdir}
use null_os.Fat16.File.{write_file}

abbrev small_volume : Volume
small_volume = record {
  layout = record {
    ready = true;
    fat_start_lba = 1;
    root_start_lba = 2;
    data_start_lba = 3;
    root_sector_count = 1;
    sectors_per_cluster = 1;
    fat_size_sectors = 1;
    total_clusters = 6;
    num_fats = 1;
  };
  fat = 0xFFF8 ∷ 0xFFFF ∷ replicate 6 0;
  disk = record { sectors = λ l. replicate 512 0; faulty = λ l. false };
}

-- "/d", "/d/a.b" and "a.b"
abbrev d_path : List ℕ
d_path = slash ∷ 100 ∷ []

abbrev a_name : List ℕ
a_name = 97 ∷ 46 ∷ 98 ∷ []

abbrev a_path : List ℕ
a_path = d_path ++ slash ∷ a_name

abbrev payload : List ℕ
payload = replicate 600 7

abbrev with_dir : Volume
with_dir = (mkdir 0 d_path small_volume).1

abbrev with_file : Volume
with_file = (create 0 a_path with_dir).1

abbrev written_file : Volume
written_file = (write_file 2 a_name payload with_file).1

-- A table whose entries 2 and 3 run in a circle.
abbrev circular_table : Volume
circular_table = record small_volume { fat = 0xFFF8 ∷ 0xFFFF ∷ 3 ∷ 2 ∷ [] }

free_chain-terminates_example : (u : Volume) × (free_chain 2 circular_table ≡ some u)
free_chain-terminates_example = free_chain-terminates 2 circular_table

-- "AB.C"
abbrev ab_c : Dirent
ab_c = record {
  name = padded 8 (65 ∷ 66 ∷ []);
  ext = padded 3 (67 ∷ []);
  attr = 0x20;
  reserved = replicate 10 0;
  time = 0;
  date = 0;
  first_cluster = 0;
  size = 0;
}

ab_c-Stored : Stored ab_c (65 ∷ 66 ∷ []) (67 ∷ [])
unfolding toupper
ab_c-Stored = record {
  base-IsPlain =
      plain 65 refl refl (λ z. omega (arith, z)) refl
        (plain 66 refl refl (λ z. omega (arith, z)) refl none_left);
  suffix-IsPlain = plain 67 refl refl (λ z. omega (arith, z)) refl none_left;
  base_short = omega arith;
  suffix_short = omega arith;
  stored_name = refl;
  stored_ext = refl;
}

to_8_3-display_example : to_8_3 (dirent_display_name ab_c) ≡ ab_c.name ++ ab_c.ext
to_8_3-display_example = to_8_3-display ab_c (65 ∷ 66 ∷ []) (67 ∷ []) ab_c-Stored
