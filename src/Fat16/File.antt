-- ===== src/Fat16/File.antt =====
-- kernel/fs/fat16.c: the contents of a file: `fat16_write_file`, `fat16_write_at`, `fat16_read_at`.
-- The buffers are not null.
pub mod Reading
pub mod Writing
mod Tests
pub mod Patching
use null_os.Prelude.{
  ℕ, zero, suc, ◌+◌, ◌-◌, ◌*◌, ◌/◌, ◌%◌, ◌^◌, Bool, true, false, not, ◌&&◌, ◌||◌, Option, none,
  some, List, [], ◌∷◌, ◌++◌, ltb, leb, ◌==◌, if◌then◌else◌, length, take, drop, replicate, min, max,
}
use null_os.Prelude.Bytes.{add_u32, store_bytes}
use null_os.Fat16.{
  Volume, read_sector, write_sector, chain_end, end_of_chain, is_cluster, entry, set_entry,
  next_cluster, cluster_to_lba, alloc_cluster, free_chain, flush_fat, bytes_per_cluster,
}
use null_os.Fat16.Dirent.{Dirent, dirent_at, store_dirent, is_directory, to_8_3}
use null_os.Fat16.Directory.{
  Fault, missing, io_error, not_directory, endless, Result, ok, err, Found, dir_lookup, status,
}
use null_os.Fat16.Resolve.{as_error}

-- `fat16_read_at`: the walk to the cluster of byte `pos`. No value is the end of the chain.
pub seek : (rounds cluster : ℕ) → Volume → Option ℕ
seek zero cluster v = some cluster
seek (suc n) cluster v =
    let rest = seek n (next_cluster v cluster) v in
    if leb chain_end (next_cluster v cluster) then none else rest

-- The loop over the `n` sectors of a cluster from `lba` on, the first of them from byte `off` on: what
-- it reads of the `want` bytes, and whether all sectors could be read.
pub read_sectors : (n lba off want : ℕ) → Volume → List ℕ × Bool
read_sectors zero lba off want v = ([], true)
read_sectors (suc n) lba off want v =
    let copy = min want (512 - off) in
    let (rest, fine) = read_sectors n (add_u32 lba 1) 0 (want - copy) v in
    if want == 0 then ([], true) else elim (read_sector lba v.disk) [
      | none ↦ ([], false)
      | some bytes ↦ (take copy (drop off bytes) ++ rest, fine)
    ]

-- The loop over the clusters; each has a sector, so that every round reads a byte.
pub read_clusters : (fuel cluster off want : ℕ) → Volume → List ℕ
read_clusters zero cluster off want v = []
read_clusters (suc fuel) cluster off want v =
    let lba = add_u32 (cluster_to_lba v cluster) (off / 512) in
    let (bytes, fine) =
      read_sectors (v.layout.sectors_per_cluster - off / 512) lba (off % 512) want v in
    let rest = read_clusters fuel (next_cluster v cluster) 0 (want - length bytes) v in
    if (want == 0) || leb chain_end cluster then [] else (if fine then bytes ++ rest else bytes)

-- The bytes read, and no value for -1.
pub read_at : (first_cluster pos len file_size : ℕ) → Volume → Option (List ℕ)
read_at first pos len file_size v =
    let want = if ltb file_size (add_u32 pos len) then file_size - pos else len in
    let bpc = bytes_per_cluster v in
    if not v.layout.ready || (len == 0)
    then none
    else if leb file_size pos
    then some []
    else elim (seek (pos / bpc) first v) [
      | none ↦ some []
      | some cluster ↦ some (read_clusters want cluster (pos % bpc) want v)
    ]

-- `fat16_write_file`: the loop over the `n` sectors of a cluster; the last data is followed by zeros.
pub padded_sector : List ℕ → List ℕ
padded_sector bytes = take 512 (bytes ++ replicate 512 0)

pub write_sectors : (n lba : ℕ) → List ℕ → Volume → Bool × Volume
write_sectors zero lba bytes v = (true, v)
write_sectors (suc n) lba bytes v =
    let (fine, u) = write_sector lba (padded_sector bytes) v in
    let rest = write_sectors n (add_u32 lba 1) (drop 512 bytes) u in
    if fine then rest else (false, u)

-- `g_fat[prev] = next`, where there is a previous cluster.
pub link_after : (prev next : ℕ) → Volume → Volume
link_after zero next v = v
link_after (suc prev) next v = set_entry (suc prev) (next % 65536) v

-- The loop over the clusters, with the data that is left; the value is `first_new`.
pub write_clusters : (fuel prev first : ℕ) → List ℕ → Volume → Option ℕ × Volume
write_clusters fuel prev first [] v = (some first, v)
write_clusters zero prev first (b ∷ bytes) v = (none, v)
write_clusters (suc fuel) prev first (b ∷ bytes) v =
    let (c, allocated) = alloc_cluster v in
    let linked = set_entry c end_of_chain (link_after prev c allocated) in
    let (fine, u) =
      write_sectors v.layout.sectors_per_cluster (cluster_to_lba v c) (b ∷ bytes) linked in
    let rest =
      write_clusters fuel c (if prev == 0 then c else first)
        (drop (bytes_per_cluster v) (b ∷ bytes)) u in
    if c == 0 then (none, allocated) else (if fine then rest else (none, u))

pub update_entry : Found → (first size : ℕ) → Volume → Bool × Volume
update_entry f first size v =
    write_sector f.found_lba
      (store_dirent f.found_index
        (record (dirent_at f.dir_buf f.found_index) { first_cluster = first % 65536; size = size })
        f.dir_buf)
      v

pub commit_file : Found → (len : ℕ) → Option ℕ × Volume → Result (Unit {0}) × Volume
commit_file f len (none, v) = (err io_error, v)
commit_file f len (some first, v) =
    let (fine, u) = update_entry f (if len == 0 then 0 else first) len v in
    if fine then status (flush_fat u) else (err io_error, u)

pub write_file : (parent : ℕ) (name bytes : List ℕ) → Volume → Result (Unit {0}) × Volume
write_file parent name bytes v =
    if not v.layout.ready then (err io_error, v) else elim (dir_lookup parent (to_8_3 name) v) [
      | err e ↦ (as_error e, v)
      | ok f ↦
          if is_directory f.found
          then (err io_error, v)
          else elim (free_chain f.found.first_cluster v) [
            | none ↦ (err endless, v)
            | some u ↦ commit_file f (length bytes) (write_clusters (length bytes) 0 0 bytes u)
          ]
    ]

-- `fat16_write_at`: the variables that its loops change, and whether they go on.
pub record Cursor : Type 0 where
  pub volume : Volume
  pub at_cluster : ℕ
  pub fat_dirty : Bool
  pub fresh : Bool

-- The next cluster of the chain, or a new one at its end; no value is a full disk.
pub advance : Cursor → Option Cursor × Volume
advance k =
    let next = entry k.volume k.at_cluster in
    let (c, u) = alloc_cluster k.volume in
    if is_cluster next
    then (some (record k { at_cluster = next; fresh = false }), k.volume)
    else if c == 0
    then (none, u)
    else (
      some (record {
        volume = set_entry k.at_cluster (c % 65536) u;
        at_cluster = c;
        fat_dirty = true;
        fresh = true;
      }),
      u,
    )

-- The loop to the cluster that holds byte `pos`; where the disk is full, the changed table is written.
pub seek_grow : (rounds : ℕ) → Cursor → Option Cursor × Volume
seek_grow zero k = (some k, k.volume)
seek_grow (suc n) k =
    let (next, u) = advance k in
    elim next [
      | some k' ↦ seek_grow n k'
      | none ↦ (none, if k.fat_dirty then (flush_fat u).1 else u)
    ]

-- One round of the writing loop: the sector that holds byte `off` of the cluster.
pub sector_before : (lba n : ℕ) (fresh : Bool) → Volume → Option (List ℕ)
sector_before lba n fresh v =
    if leb 512 n || fresh then some (replicate 512 0) else read_sector lba v.disk

pub write_part : (lba sec_off : ℕ) (part : List ℕ) (fresh : Bool) → Volume → Bool × Volume
write_part lba sec_off part fresh v = elim (sector_before lba (length part) fresh v) [
  | none ↦ (false, v)
  | some old ↦ write_sector lba (store_bytes sec_off part old) v
]

-- The writing loop: how many bytes of `bytes` were written. Every round writes one at least.
pub write_loop : (fuel off : ℕ) (bytes : List ℕ) → Cursor → ℕ × Cursor
write_loop zero off bytes k = (0, k)
write_loop (suc fuel) off [] k = (0, k)
write_loop (suc fuel) off (b ∷ bytes) k =
    let part = take (512 - off % 512) (b ∷ bytes) in
    let left = drop (512 - off % 512) (b ∷ bytes) in
    let bpc = bytes_per_cluster k.volume in
    let lba = add_u32 (cluster_to_lba k.volume k.at_cluster) (off / 512) in
    let (fine, u) = write_part lba (off % 512) part k.fresh k.volume in
    let here = record k { volume = u } in
    let n = length part in
    elim (leb bpc (off + n) && not (length left == 0)) [
      | false ↦
          let (m, end) = write_loop fuel (off + n) left here in
          if fine then (n + m, end) else (0, k)
      | true ↦
          let (next, w) = advance here in
          elim next [
            | some k' ↦
                let (m, end) = write_loop fuel 0 left k' in if fine then (n + m, end) else (0, k)
            | none ↦ if fine then (n, record here { volume = w }) else (0, k)
          ]
    ]

-- What `fat16_write_at` returns: the bytes written, `*out_first_cluster` and `*out_size`.
pub record Written : Type 0 where
  pub written : ℕ
  pub out_first_cluster : ℕ
  pub out_size : ℕ

pub update_after :
    (parent : ℕ) (name83 : List ℕ) (w : Written) (changed : Bool) → Volume → Result Written × Volume
update_after parent name83 w false v = (if w.written == 0 then err io_error else ok w, v)
update_after parent name83 w true v = elim (dir_lookup parent name83 v) [
  | err e ↦ (as_error e, v)
  | ok f ↦
      let (fine, u) = update_entry f w.out_first_cluster w.out_size v in
      if not fine || (w.written == 0) then (err io_error, u) else (ok w, u)
]

-- Step 3: the table first, then the entry.
pub commit_at :
    (parent : ℕ) (name83 : List ℕ) (e : Dirent) (first pos : ℕ)
    → ℕ × Cursor
    → Result Written × Volume
commit_at parent name83 e first pos (n, k) =
    let new_size = max e.size (pos + n) in
    let (fine, u) = if k.fat_dirty then flush_fat k.volume else (true, k.volume) in
    let changed = not (new_size == e.size) || not (first == e.first_cluster) in
    if not fine
    then (err io_error, u)
    else update_after parent name83
        (record { written = n; out_first_cluster = first; out_size = new_size }) changed u

-- Step 1, of a file with no cluster and of one with a chain.
pub start_at : (e : Dirent) (pos : ℕ) → Volume → Option (ℕ × Cursor) × Volume
start_at e pos v =
    let (c, u) = alloc_cluster v in
    elim (ltb e.first_cluster 2) [
      | true ↦
          if c == 0
          then (none, u)
          else (some (c, record { volume = u; at_cluster = c; fat_dirty = true; fresh = true }), u)
      | false ↦
          let start : Cursor = record {
            volume = v;
            at_cluster = e.first_cluster;
            fat_dirty = false;
            fresh = false;
          } in
          let (k, w) = seek_grow (pos / bytes_per_cluster v) start in
          elim k [ some k' ↦ (some (e.first_cluster, k'), w) | none ↦ (none, w) ]
    ]

pub write_at_entry :
    (parent : ℕ) (name83 : List ℕ) (e : Dirent) (pos : ℕ) (bytes : List ℕ)
    → Volume
    → Result Written × Volume
write_at_entry parent name83 e pos bytes v =
    let (start, u) = start_at e pos v in
    elim start [
      | none ↦ (err io_error, u)
      | some s ↦
          commit_at parent name83 e (s.0) pos
            (write_loop (length bytes) (pos % bytes_per_cluster v) bytes (s.1))
    ]

pub write_at :
    (parent : ℕ) (name : List ℕ) (pos : ℕ) (bytes : List ℕ) → Volume → Result Written × Volume
write_at parent name pos bytes v =
    if not v.layout.ready then (err io_error, v) else elim (dir_lookup parent (to_8_3 name) v) [
      | err e ↦ (as_error e, v)
      | ok f ↦
          if is_directory f.found
            || ltb f.found.size pos
            || ltb (2 ^ 32 - 1 - pos) (length bytes)
            || (ltb f.found.first_cluster 2 && not (pos == 0))
          then (err io_error, v)
          else if length bytes == 0
          then (
            ok (record {
              written = 0;
              out_first_cluster = f.found.first_cluster;
              out_size = f.found.size;
            }),
            v,
          )
          else write_at_entry parent (to_8_3 name) f.found pos bytes v
    ]
