-- ===== src/Fat16/Resolve/Tests.antt =====
-- kernel/fs/fat16.c: paths on a small volume, and the theorem at one.
use null_os.Prelude.{
  ℕ, ◌≡◌, refl, arith, true, false, List, [], ◌∷◌, replicate, ◌==◌, if◌then◌else◌,
}
use null_os.Fat16.{Volume}
use null_os.Fat16.Dirent.{Dirent, slash, space, store_dirent}
use null_os.Fat16.Resolve.{resolve_path, is_absolute}
use null_os.Fat16.Resolve.Paths.{
  components, components_from, follow_all, AllShort, none_long, one_short, resolve_path-follow_all,
}

-- A directory "D" in the root directory.
abbrev d_dir : Dirent
d_dir = record {
  name = 68 ∷ replicate 7 space;
  ext = replicate 3 space;
  attr = 0x10;
  reserved = replicate 10 0;
  time = 0;
  date = 0;
  first_cluster = 2;
  size = 0;
}

abbrev root_sector : List ℕ
root_sector = store_dirent 0 d_dir (replicate 512 0)

abbrev with_d : Volume
with_d = record {
  layout = record {
    ready = true;
    fat_start_lba = 1;
    root_start_lba = 2;
    data_start_lba = 3;
    root_sector_count = 1;
    sectors_per_cluster = 1;
    fat_size_sectors = 1;
    total_clusters = 6;
    num_fats = 1;
  };
  fat = 0xFFF8 ∷ 0xFFFF ∷ 0xFFFF ∷ replicate 253 0;
  disk = record {
    sectors = λ l. if l == 2 then root_sector else replicate 512 0;
    faulty = λ l. false;
  };
}

-- "/d//a.b/"
abbrev d_path : List ℕ
d_path = slash ∷ 100 ∷ slash ∷ slash ∷ 97 ∷ 46 ∷ 98 ∷ slash ∷ []

two_components : components d_path ≡ (100 ∷ []) ∷ (97 ∷ 46 ∷ 98 ∷ []) ∷ []
unfolding components_from
two_components = refl

d_path-AllShort : AllShort (components d_path)
unfolding components_from
d_path-AllShort = one_short (omega arith) (one_short (omega arith) none_long)

resolve_path-follow_all_example :
    resolve_path 5 d_path with_d
    ≡ follow_all (if is_absolute d_path then 0 else 5) (components d_path) with_d
resolve_path-follow_all_example = resolve_path-follow_all 5 d_path with_d d_path-AllShort
