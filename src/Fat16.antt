-- ===== src/Fat16.antt =====
-- kernel/fs/fat16.c: the volume, its sectors and its file allocation table. The cached table `g_fat`
-- and the disk change; the rest is set by `fat16_init`. A sector of the disk works or it does not.
mod Tests
pub mod Dirent
pub mod Directory
pub mod Resolve
pub mod File
pub mod Region
pub mod Table
use null_os.Prelude.{
  ℕ, zero, suc, ◌+◌, ◌-◌, ◌*◌, ◌/◌, ◌%◌, ◌^◌, Bool, true, false, not, ◌&&◌, ◌||◌, Option, none,
  some, List, [], ◌∷◌, ◌++◌, ltb, leb, ◌==◌, if◌then◌else◌, length, get_or, set, take, drop,
  replicate,
}
use null_os.Prelude.Bytes.{get_u16, get_u32, add_u32, sub_u32, u16_bytes}
use null_os.Pmm.{Pmm}
use null_os.Heap.{Heap, kmalloc, kfree}

abbrev pub sector_size : ℕ
sector_size = 512

-- The end of a chain, and every value from here on ends one.
abbrev pub end_of_chain : ℕ
end_of_chain = 0xFFFF

abbrev pub chain_end : ℕ
chain_end = 0xFFF8

-- The fields of `bpb_t` that are read.
pub record Bpb : Type 0 where
  pub bytes_per_sector : ℕ
  pub bpb_sectors_per_cluster : ℕ
  pub reserved_sectors : ℕ
  pub bpb_num_fats : ℕ
  pub root_entry_count : ℕ
  pub total_sectors_16 : ℕ
  pub bpb_fat_size_sectors : ℕ
  pub total_sectors_32 : ℕ

pub bpb : List ℕ → Bpb
bpb s = record {
  bytes_per_sector = get_u16 s 11;
  bpb_sectors_per_cluster = get_or s 13 0;
  reserved_sectors = get_u16 s 14;
  bpb_num_fats = get_or s 16 0;
  root_entry_count = get_u16 s 17;
  total_sectors_16 = get_u16 s 19;
  bpb_fat_size_sectors = get_u16 s 22;
  total_sectors_32 = get_u32 s 32;
}

-- The variables `g_*` that `fat16_init` sets.
pub record Layout : Type 0 where
  pub ready : Bool
  pub fat_start_lba : ℕ
  pub root_start_lba : ℕ
  pub data_start_lba : ℕ
  pub root_sector_count : ℕ
  pub sectors_per_cluster : ℕ
  pub fat_size_sectors : ℕ
  pub total_clusters : ℕ
  pub num_fats : ℕ

pub record Disk : Type 0 where
  pub sectors : ℕ → List ℕ
  pub faulty : ℕ → Bool

pub record Volume : Type 0 where
  pub layout : Layout
  pub fat : List ℕ
  pub disk : Disk

-- `block_read_sector` and `block_write_sector`: no value and `false` are -1.
unfoldable pub read_sector : ℕ → Disk → Option (List ℕ)
read_sector lba d = if d.faulty lba then none else some (d.sectors lba)

unfoldable pub write_sector : ℕ → List ℕ → Volume → Bool × Volume
write_sector lba bytes v = if v.disk.faulty lba then (false, v) else (
  true,
  record v { disk = record v.disk { sectors = λ l. if l == lba then bytes else v.disk.sectors l } },
)

-- The words of the table in the `n` sectors from `lba` on, and whether all could be read.
pub words_of : List ℕ → List ℕ
words_of [] = []
words_of (low ∷ []) = []
words_of (low ∷ high ∷ rest) = (low + high * 256) ∷ words_of rest

pub load_fat : (n lba : ℕ) → Disk → Option (List ℕ)
load_fat zero lba d = some []
load_fat (suc n) lba d = elim (read_sector lba d) [
  | none ↦ none
  | some bytes ↦ elim (load_fat n (lba + 1) d) [
    | none ↦ none
    | some rest ↦ some (words_of bytes ++ rest)
  ]
]

-- What `fat16_init` computes from the parameter block.
pub layout_of : Bpb → Layout
layout_of b =
    let root_start = (b.reserved_sectors + b.bpb_num_fats * b.bpb_fat_size_sectors) % 2 ^ 32 in
    let root_sectors = (b.root_entry_count * 32 + 511) / 512 in
    let data_start = (root_start + root_sectors) % 2 ^ 32 in
    let total = if b.total_sectors_16 == 0 then b.total_sectors_32 else b.total_sectors_16 in
    record {
      ready = false;
      fat_start_lba = b.reserved_sectors;
      root_start_lba = root_start;
      data_start_lba = data_start;
      root_sector_count = root_sectors;
      sectors_per_cluster = b.bpb_sectors_per_cluster;
      fat_size_sectors = b.bpb_fat_size_sectors;
      total_clusters = (sub_u32 total data_start / b.bpb_sectors_per_cluster + 2) % 2 ^ 32;
      num_fats = b.bpb_num_fats;
    }

abbrev pub bpb_ok : Bpb → Bool
bpb_ok b =
    (b.bytes_per_sector == 512)
    && not (b.bpb_fat_size_sectors == 0)
    && not (b.bpb_num_fats == 0)
    && not (b.bpb_sectors_per_cluster == 0)

abbrev pub not_ready : Volume → Volume
not_ready v = record v { layout = record v.layout { ready = false } }

-- `fat16_init`; the table is cached in the kernel heap.
module _ (map_page : (virt phys : ℕ) → Pmm → Bool × Pmm) where
  pub init : Heap → Volume → Bool × (Heap × Volume)
  init h v = elim (read_sector 0 v.disk) [
    | none ↦ (false, (h, not_ready v))
    | some boot ↦
        let l = layout_of (bpb boot) in
        if not (bpb_ok (bpb boot))
        then (false, (h, not_ready v))
        else elim (kmalloc map_page (l.fat_size_sectors * 512) h) [
          | none ↦ (false, (h, record v { layout = l; fat = [] }))
          | some (ptr, h') ↦
              if ptr == 0
              then (false, (h', record v { layout = l; fat = [] }))
              else elim (load_fat l.fat_size_sectors l.fat_start_lba v.disk) [
                | none ↦ (false, (kfree ptr h', record v { layout = l; fat = [] }))
                | some fat ↦
                    (true, (h', record v { layout = record l { ready = true }; fat = fat }))
              ]
        ]
  ]

pub bytes_per_cluster : Volume → ℕ
bytes_per_cluster v = v.layout.sectors_per_cluster * 512

-- `g_fat[cluster]`. The C code does not compare the index with the size of the table.
abbrev pub entry : Volume → ℕ → ℕ
entry v cluster = get_or v.fat cluster 0

abbrev pub set_entry : ℕ → ℕ → Volume → Volume
set_entry cluster next v = record v { fat = set v.fat cluster next }

pub next_cluster : Volume → ℕ → ℕ
next_cluster v cluster =
    if (length v.fat == 0) || ltb cluster 2 then end_of_chain else entry v cluster

pub cluster_to_lba : Volume → ℕ → ℕ
cluster_to_lba v cluster =
    (v.layout.data_start_lba + sub_u32 cluster 2 * v.layout.sectors_per_cluster) % 2 ^ 32

-- The bytes of the table, sector by sector.
pub bytes_of : List ℕ → List ℕ
bytes_of [] = []
bytes_of (w ∷ ws) = u16_bytes w ++ bytes_of ws

-- The two loops of `fat16_flush_fat`: `n` sectors of one copy, and `copies` copies.
pub flush_copy : (n s base : ℕ) → Volume → Bool × Volume
flush_copy zero s base v = (true, v)
flush_copy (suc n) s base v =
    let (ok, u) = write_sector (add_u32 base s) (bytes_of (take 256 (drop (s * 256) v.fat))) v in
    let rest = flush_copy n (s + 1) base u in if ok then rest else (false, u)

pub flush_copies : (copies f : ℕ) → Volume → Bool × Volume
flush_copies zero f v = (true, v)
flush_copies (suc copies) f v =
    let base = (v.layout.fat_start_lba + f * v.layout.fat_size_sectors) % 2 ^ 32 in
    let (ok, u) = flush_copy v.layout.fat_size_sectors 0 base v in
    let rest = flush_copies copies (f + 1) u in if ok then rest else (false, u)

pub flush_fat : Volume → Bool × Volume
flush_fat v = flush_copies v.layout.num_fats 0 v

pub is_cluster : ℕ → Bool
is_cluster c = leb 2 c && ltb c chain_end

-- The loop of `fat16_free_chain`, which ends at an entry that is no cluster.
pub free_chain_rounds : (fuel cluster : ℕ) → Volume → Option Volume
free_chain_rounds zero cluster v = none
free_chain_rounds (suc fuel) cluster v =
    let rest = free_chain_rounds fuel (entry v cluster) (set_entry cluster 0 v) in
    if is_cluster cluster then rest else some v

-- Every round but the last clears an entry that is not 0, so that the size of the table is enough.
pub free_chain : ℕ → Volume → Option Volume
free_chain cluster v = free_chain_rounds (length v.fat + 2) cluster v

-- The loop of `fat16_alloc_cluster`, over `n` clusters from `c` on; 0 is a full disk.
pub alloc_from : (n c : ℕ) → Volume → ℕ × Volume
alloc_from zero c v = (0, v)
alloc_from (suc n) c v =
    let rest = alloc_from n (c + 1) v in
    if entry v c == 0 then (c, set_entry c end_of_chain v) else rest

pub alloc_cluster : Volume → ℕ × Volume
alloc_cluster v = alloc_from (v.layout.total_clusters - 2) 2 v
