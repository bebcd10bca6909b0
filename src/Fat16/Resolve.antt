-- ===== src/Fat16/Resolve.antt =====
-- kernel/fs/fat16.c: paths, and what is found or made at the end of one: `path_next_component`,
-- `resolve_path`, `fat16_resolve_dir`, `fat16_find`, `fat16_create`, `fat16_mkdir`, `fat16_get_path`.
-- A path is the list of its characters; the pointers are not null.
pub mod Paths
mod Tests
use null_os.Prelude.{
  ℕ, zero, suc, ◌+◌, ◌-◌, ◌%◌, Bool, true, false, not, ◌||◌, none, some, List, [], ◌∷◌, ◌++◌, ltb,
  leb, ◌==◌, if◌then◌else◌, length, take, drop, replicate,
}
use null_os.Fat16.{
  Volume, write_sector, chain_end, cluster_to_lba, alloc_cluster, free_chain, flush_fat,
  sector_size,
}
use null_os.Fat16.Dirent.{
  Dirent, store_dirent, attr_directory, attr_archive, is_directory, is_volume_id, to_8_3, dot,
  slash,
}
use null_os.Fat16.Directory.{
  Fault, missing, io_error, not_directory, endless, Result, ok, err, ◌>>=◌, Found, dir_lookup,
  dir_insert, dir_find_child_name, zero_sectors, status,
}

abbrev pub path_component_max : ℕ
path_component_max = 64

pub skip_slashes : List ℕ → List ℕ
skip_slashes [] = []
skip_slashes (c ∷ cs) = let rest = skip_slashes cs in if c == slash then rest else c ∷ cs

-- The characters of the next component, `n` at most, and what follows them.
pub component : (n : ℕ) → List ℕ → List ℕ × List ℕ
component zero cs = ([], cs)
component (suc n) [] = ([], [])
component (suc n) (c ∷ cs) =
    let (name, rest) = component n cs in if c == slash then ([], c ∷ cs) else (c ∷ name, rest)

pub path_next_component : List ℕ → List ℕ × List ℕ
path_next_component path =
    let (name, rest) = component (path_component_max - 1) path in (name, skip_slashes rest)

-- The directory that holds the last component of a path, and the 8.3 name of that component.
pub record Place : Type 0 where
  pub parent : ℕ
  pub name83 : List ℕ

pub subdirectory : Found → Result ℕ
subdirectory f = if is_directory f.found then ok f.found.first_cluster else err missing

-- The loop of `resolve_path`. A component of a path that is not empty has a character, so that the
-- length of the path bounds the rounds.
pub resolve_rounds : (fuel dir : ℕ) (comp path : List ℕ) → Volume → Result Place
resolve_rounds fuel dir comp [] v = ok (record { parent = dir; name83 = to_8_3 comp })
resolve_rounds zero dir comp (c ∷ path) v = err endless
resolve_rounds (suc fuel) dir comp (c ∷ path) v =
    let (next, rest) = path_next_component (c ∷ path) in
    do f ← dir_lookup dir (to_8_3 comp) v; sub ← subdirectory f; resolve_rounds fuel sub next rest v

pub is_absolute : List ℕ → Bool
is_absolute [] = false
is_absolute (c ∷ cs) = c == slash

pub resolve_from : (dir : ℕ) → List ℕ → Volume → Result Place
resolve_from dir [] v = err missing
resolve_from dir (c ∷ path) v =
    let (comp, rest) = path_next_component (c ∷ path) in
    resolve_rounds (length path + 1) dir comp rest v

pub resolve_path : (cwd : ℕ) → List ℕ → Volume → Result Place
resolve_path cwd path v = resolve_from (if is_absolute path then 0 else cwd) (skip_slashes path) v

-- "" and "/" are the root.
pub is_root_path : List ℕ → Bool
is_root_path [] = true
is_root_path (c ∷ []) = c == slash
is_root_path (c ∷ d ∷ _) = false

pub directory_cluster : Found → Result ℕ
directory_cluster f = if is_directory f.found then ok f.found.first_cluster else err not_directory

pub resolve_dir : (cwd : ℕ) → List ℕ → Volume → Result ℕ
resolve_dir cwd path v =
    if not v.layout.ready
    then err io_error
    else if is_root_path path
    then ok 0
    else do p ← resolve_path cwd path v; f ← dir_lookup p.parent p.name83 v; directory_cluster f

pub record FileFound : Type 0 where
  pub file_cluster : ℕ
  pub file_size : ℕ
  pub file_parent : ℕ

pub plain_file : (parent : ℕ) → Found → Result FileFound
plain_file parent f =
    if is_volume_id f.found || is_directory f.found
    then err missing
    else ok (record {
      file_cluster = f.found.first_cluster;
      file_size = f.found.size;
      file_parent = parent;
    })

pub find : (dir_cluster : ℕ) → List ℕ → Volume → Result FileFound
find dir path v =
    if not v.layout.ready
    then err missing
    else do p ← resolve_path dir path v; f ← dir_lookup p.parent p.name83 v; plain_file p.parent f

-- The entry that `fat16_create` and `fat16_mkdir` insert.
pub new_dirent : (name83 : List ℕ) (attr cluster : ℕ) → Dirent
new_dirent name83 attr cluster = record {
  name = take 8 name83;
  ext = drop 8 name83;
  attr = attr;
  reserved = replicate 10 0;
  time = 0;
  date = 0;
  first_cluster = cluster % 65536;
  size = 0;
}

-- A file that exists is kept, a directory of its name is an error; the value is the parent.
pub create_at : Place → Result Found → Volume → Result ℕ × Volume
create_at p (ok f) v = (if is_directory f.found then err io_error else ok p.parent, v)
create_at p (err missing) v =
    let (r, u) = dir_insert p.parent (new_dirent p.name83 attr_archive 0) v in
    (r >>= λ _. ok p.parent, u)
create_at p (err io_error) v = (err io_error, v)
create_at p (err not_directory) v = (err io_error, v)
create_at p (err endless) v = (err endless, v)

-- Every result of `resolve_path` but 1 is -1 here.
pub as_error : {A : Type 0} → Fault → Result A
as_error endless = err endless
as_error missing = err io_error
as_error io_error = err io_error
as_error not_directory = err io_error

pub create : (dir_cluster : ℕ) → List ℕ → Volume → Result ℕ × Volume
create dir path v =
    if not v.layout.ready then (err io_error, v) else elim (resolve_path dir path v) [
      | err e ↦ (as_error e, v)
      | ok p ↦ create_at p (dir_lookup p.parent p.name83 v) v
    ]

-- "." and ".." of a new directory, in a sector of zeros.
pub dot_entries : (new parent : ℕ) → List ℕ
dot_entries new parent =
    store_dirent 1 (new_dirent (to_8_3 (dot ∷ dot ∷ [])) attr_directory parent)
      (store_dirent 0 (new_dirent (to_8_3 (dot ∷ [])) attr_directory new) (replicate sector_size 0))

-- The chain of the new directory is given back when its entry cannot be inserted.
pub mkdir_insert : (new : ℕ) → Place → Volume → Result (Unit {0}) × Volume
mkdir_insert new p v =
    let (r, u) = dir_insert p.parent (new_dirent p.name83 attr_directory new) v in
    elim r [
      | ok _ ↦ status (flush_fat u)
      | err endless ↦ (err endless, u)
      | err _ ↦ elim (free_chain new u) [ none ↦ (err endless, u) | some w ↦ (err io_error, w) ]
    ]

pub mkdir_new : Place → Volume → Result (Unit {0}) × Volume
mkdir_new p v =
    let (new, u) = alloc_cluster v in
    let lba = cluster_to_lba u new in
    let (zeroed, w) = zero_sectors u.layout.sectors_per_cluster lba u in
    let (stored, x) = write_sector lba (dot_entries new p.parent) w in
    if new == 0
    then (err io_error, u)
    else if not zeroed
    then (err io_error, w)
    else (if not stored then (err io_error, x) else mkdir_insert new p x)

pub mkdir_at : Place → Result Found → Volume → Result (Unit {0}) × Volume
mkdir_at p (ok f) v = (if is_directory f.found then ok tt else err io_error, v)
mkdir_at p (err missing) v = mkdir_new p v
mkdir_at p (err io_error) v = (err io_error, v)
mkdir_at p (err not_directory) v = (err io_error, v)
mkdir_at p (err endless) v = (err endless, v)

pub mkdir : (dir_cluster : ℕ) → List ℕ → Volume → Result (Unit {0}) × Volume
mkdir dir path v =
    if not v.layout.ready then (err io_error, v) else elim (resolve_path dir path v) [
      | err e ↦ (as_error e, v)
      | ok p ↦ mkdir_at p (dir_lookup p.parent p.name83 v) v
    ]

abbrev pub path_max_depth : ℕ
path_max_depth = 16

-- `tmp` has 127 characters beside the NUL; `tail` is what stands at its end.
abbrev pub path_room : ℕ
path_room = 127

-- The walk from a directory up to the root.
pub path_rounds : (fuel cluster : ℕ) (tail : List ℕ) → Volume → Result (List ℕ)
path_rounds fuel zero tail v = ok tail
path_rounds zero (suc c) tail v = err io_error
path_rounds (suc fuel) (suc c) tail v =
    if ltb (suc c) 2 || leb chain_end (suc c) then err io_error else do
      up ← dir_lookup (suc c) (to_8_3 (dot ∷ dot ∷ [])) v
      name ← dir_find_child_name up.found.first_cluster (suc c) v
      if ltb (path_room - length tail) (length name + 1)
          then err io_error
          else path_rounds fuel up.found.first_cluster (slash ∷ name ++ tail) v

-- What is copied to `out`, where it fits. A lookup that finds nothing is an error here.
pub fitting : (out_size : ℕ) → Result (List ℕ) → Result (List ℕ)
fitting out_size (ok path) = if ltb out_size (length path + 1) then err io_error else ok path
fitting out_size (err e) = as_error e

pub get_path : (dir_cluster out_size : ℕ) → Volume → Result (List ℕ)
get_path dir out_size v =
    if ltb out_size 2
    then err io_error
    else if dir == 0
    then ok (slash ∷ [])
    else if not v.layout.ready
    then err io_error
    else fitting out_size (path_rounds path_max_depth dir [] v)
