-- ===== src/Fat16/Directory.antt =====
-- kernel/fs/fat16.c: the walk over the sectors of a directory, `dir_lookup`, `fat16_readdir`,
-- `dir_find_child_name` and `dir_insert`. A walk over a chain that runs in a circle never ends in the
-- C code: here it is the error `endless`.
pub mod Listing
pub mod Place
pub mod Insert
mod Tests
use null_os.Prelude.{
  ℕ, zero, suc, ◌+◌, ◌*◌, ◌%◌, Bool, true, false, not, ◌&&◌, ◌||◌, Option, none, some, List, [],
  ◌∷◌, ◌++◌, ltb, leb, ◌==◌, if◌then◌else◌, length, get_or, replicate,
}
use null_os.Prelude.Bytes.{add_u32}
use null_os.Fat16.{
  Volume, read_sector, write_sector, end_of_chain, is_cluster, next_cluster, cluster_to_lba,
  alloc_cluster, set_entry, flush_fat, sector_size,
}
use null_os.Fat16.Dirent.{
  Dirent, dirent_at, store_dirent, per_sector, dirent_empty, dirent_deleted, first_byte,
  is_directory, is_volume_id, dirent_display_name, dot,
}

-- The values other than 1 that the lookups return: 0, -1 and -2; and no return at all.
pub data Fault : Type 0 where
  missing io_error not_directory endless : Fault

pub data Result (A : Type 0) : Type 0 where
  ok : A → Result A
  err : Fault → Result A

infixl 1 ◌>>=◌
abbrev pub ◌>>=◌ : {A B : Type 0} → Result A → (A → Result B) → Result B
ok a >>= f = f a
err e >>= f = err e

-- `dir_iter_t`
pub record DirIter : Type 0 where
  pub dir_cluster : ℕ
  pub root_sector : ℕ
  pub cluster : ℕ
  pub cluster_sector : ℕ

unfoldable pub dir_iter_init : ℕ → DirIter
dir_iter_init c = record { dir_cluster = c; root_sector = 0; cluster = c; cluster_sector = 0 }

-- The results 1, 0 and -1 of `dir_iter_next_sector`.
pub data NextSector : Type 0 where
  sector : (lba : ℕ) → List ℕ → DirIter → NextSector
  end_of_dir : NextSector
  failed : NextSector

-- The part of the function that reads, for the root and for a subdirectory.
unfoldable pub root_next_sector : DirIter → Volume → NextSector
root_next_sector it v =
    let lba = add_u32 v.layout.root_start_lba it.root_sector in
    if leb v.layout.root_sector_count it.root_sector
    then end_of_dir
    else elim (read_sector lba v.disk) [
      | none ↦ failed
      | some bytes ↦ sector lba bytes (record it { root_sector = it.root_sector + 1 })
    ]

pub sub_read : DirIter → Volume → NextSector
sub_read it v =
    let lba = add_u32 (cluster_to_lba v it.cluster) it.cluster_sector in
    elim (read_sector lba v.disk) [
      | none ↦ failed
      | some bytes ↦ sector lba bytes (record it { cluster_sector = it.cluster_sector + 1 })
    ]

unfoldable pub dir_iter_next_sector : DirIter → Volume → NextSector
dir_iter_next_sector it v =
    let next = next_cluster v it.cluster in
    if it.dir_cluster == 0
    then root_next_sector it v
    else if not (is_cluster it.cluster)
    then end_of_dir
    else if leb v.layout.sectors_per_cluster it.cluster_sector
    then (if is_cluster next
        then sub_read (record it { cluster = next; cluster_sector = 0 }) v
        else end_of_dir)
    else sub_read it v

-- What the body of a loop over entries does at one entry: it returns from the function, or goes on.
pub data Visit (A S : Type 0) : Type 0 where
  return : A → Visit A S
  go_on : S → Visit A S

-- How the walk over the sectors ends: the function returned, the directory ended with the iterator
-- at its last sector, a sector could not be read, or the walk goes on for ever.
pub data Walk (A S : Type 0) : Type 0 where
  returned : A → Walk A S
  exhausted : DirIter → S → Walk A S
  broken : Walk A S
  circular : Walk A S

module _ {A S : Type 0} (visit : (lba : ℕ) (bytes : List ℕ) (i : ℕ) → Dirent → S → Visit A S) where
  -- The loop over the entries of a sector, `n` of them from `i` on.
  unfoldable pub scan : (n i lba : ℕ) → List ℕ → S → Visit A S
  scan zero i lba bytes s = go_on s
  scan (suc n) i lba bytes s = elim (visit lba bytes i (dirent_at bytes i) s) [
    | return a ↦ return a
    | go_on s' ↦ scan n (i + 1) lba bytes s'
  ]

  unfoldable pub walk : (fuel : ℕ) → DirIter → S → Volume → Walk A S
  walk zero it s v = circular
  walk (suc fuel) it s v = elim (dir_iter_next_sector it v) [
    | end_of_dir ↦ exhausted it s
    | failed ↦ broken
    | sector lba bytes it' ↦ elim (scan per_sector 0 lba bytes s) [
      | return a ↦ returned a
      | go_on s' ↦ walk fuel it' s' v
    ]
  ]

-- A chain that does not run in a circle has no cluster twice, so that this many rounds end.
unfoldable pub dir_fuel : Volume → ℕ
dir_fuel v = v.layout.root_sector_count + (length v.fat + 2) * v.layout.sectors_per_cluster + 2

-- The entries that the loops pass over.
unfoldable pub is_hidden : Dirent → Bool
is_hidden e = (first_byte e == dirent_deleted) || is_volume_id e

unfoldable pub equal_bytes : List ℕ → List ℕ → Bool
equal_bytes [] [] = true
equal_bytes (x ∷ xs) (y ∷ ys) = (x == y) && equal_bytes xs ys
equal_bytes [] (y ∷ ys) = false
equal_bytes (x ∷ xs) [] = false

-- `*out_entry`, `*out_lba`, `*out_index`, and the sector that `dir_buf` then holds.
pub record Found : Type 0 where
  pub found : Dirent
  pub found_lba : ℕ
  pub found_index : ℕ
  pub dir_buf : List ℕ

unfoldable pub lookup_visit :
    List ℕ
    → (lba : ℕ) (bytes : List ℕ) (i : ℕ) → Dirent
    → Unit {0}
    → Visit (Result Found) (Unit {0})
lookup_visit name83 lba bytes i e s =
    if first_byte e == dirent_empty
    then return (err missing)
    else if is_hidden e || not (equal_bytes (e.name ++ e.ext) name83)
    then go_on s
    else return (ok (record { found = e; found_lba = lba; found_index = i; dir_buf = bytes }))

unfoldable pub walk_result : {A S : Type 0} → Walk (Result A) S → Result A
walk_result (returned r) = r
walk_result (exhausted it s) = err missing
walk_result broken = err io_error
walk_result circular = err endless

unfoldable pub dir_lookup : ℕ → List ℕ → Volume → Result Found
dir_lookup c name83 v = walk_result (walk (lookup_visit name83) (dir_fuel v) (dir_iter_init c) tt v)

-- `fat16_readdir`: the entry with `idx` visible ones before it. The state is `found`.
pub record Listed : Type 0 where
  pub listed_name : List ℕ
  pub listed_size : ℕ
  pub is_dir : Bool

pub readdir_visit : ℕ → (lba : ℕ) (bytes : List ℕ) (i : ℕ) → Dirent → ℕ → Visit (Result Listed) ℕ
readdir_visit idx lba bytes i e count =
    let entry : Listed = record {
      listed_name = dirent_display_name e;
      listed_size = e.size;
      is_dir = is_directory e;
    } in
    if first_byte e == dirent_empty
    then return (err missing)
    else if is_hidden e || (first_byte e == dot)
    then go_on count
    else (if count == idx then return (ok entry) else go_on (count + 1))

-- An I/O error is the end of the listing, too.
pub readdir_result : Result Listed → Result Listed
readdir_result (err io_error) = err missing
readdir_result (err missing) = err missing
readdir_result (err not_directory) = err not_directory
readdir_result (err endless) = err endless
readdir_result (ok l) = ok l

pub readdir : (dir_cluster idx : ℕ) → Volume → Result Listed
readdir c idx v =
    if not v.layout.ready
    then err missing
    else readdir_result (walk_result (walk (readdir_visit idx) (dir_fuel v) (dir_iter_init c) 0 v))

-- `dir_find_child_name`
pub child_visit :
    ℕ → (lba : ℕ) (bytes : List ℕ) (i : ℕ) → Dirent → Unit {0} → Visit (Result (List ℕ)) (Unit {0})
child_visit child lba bytes i e s =
    if first_byte e == dirent_empty
    then return (err missing)
    else if is_hidden e
        || not (is_directory e)
        || (first_byte e == dot)
        || not (e.first_cluster == child)
    then go_on s
    else return (ok (dirent_display_name e))

pub dir_find_child_name : (parent child : ℕ) → Volume → Result (List ℕ)
dir_find_child_name parent child v =
    walk_result (walk (child_visit child) (dir_fuel v) (dir_iter_init parent) tt v)

-- `dir_insert`: the first free slot, as the sector to write. A full subdirectory grows by a cluster.
pub insert_visit :
    Dirent → (lba : ℕ) (bytes : List ℕ) (i : ℕ) → Dirent → Unit {0} → Visit (ℕ × List ℕ) (Unit {0})
insert_visit entry lba bytes i e s =
    if (first_byte e == dirent_empty) || (first_byte e == dirent_deleted)
    then return (lba, store_dirent i entry bytes)
    else go_on s

pub zero_sectors : (n lba : ℕ) → Volume → Bool × Volume
zero_sectors zero lba v = (true, v)
zero_sectors (suc n) lba v =
    let (ok_write, u) = write_sector lba (replicate sector_size 0) v in
    let rest = zero_sectors n (add_u32 lba 1) u in if ok_write then rest else (false, u)

-- -1 for a write that fails.
unfoldable pub status : Bool × Volume → Result (Unit {0}) × Volume
status (true, v) = (ok tt, v)
status (false, v) = (err io_error, v)

pub link_cluster : (last new : ℕ) → Volume → Result (Unit {0}) × Volume
link_cluster last new v =
    status (flush_fat (set_entry new end_of_chain (set_entry last (new % 65536) v)))

pub grow_directory : DirIter → Dirent → Volume → Result (Unit {0}) × Volume
grow_directory it entry v =
    let (new, u) = alloc_cluster v in
    let lba = cluster_to_lba u new in
    let (zeroed, w) = zero_sectors u.layout.sectors_per_cluster lba u in
    let (stored, x) = write_sector lba (store_dirent 0 entry (replicate sector_size 0)) w in
    if new == 0
    then (err io_error, u)
    else if not zeroed
    then (err io_error, w)
    else (if not stored then (err io_error, x) else link_cluster it.cluster new x)

pub dir_insert : ℕ → Dirent → Volume → Result (Unit {0}) × Volume
dir_insert c entry v = elim (walk (insert_visit entry) (dir_fuel v) (dir_iter_init c) tt v) [
  | returned slot ↦ status (write_sector (slot.0) (slot.1) v)
  | exhausted it s ↦ if c == 0 then (err io_error, v) else grow_directory it entry v
  | broken ↦ (err io_error, v)
  | circular ↦ (err endless, v)
]
