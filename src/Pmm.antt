-- ===== src/Pmm.antt =====
-- kernel/memory/pmm.c: the physical memory manager, a bitmap of 2048 pages of 4 KB.
-- A word of the bitmap is a `uint32_t` as a number; the console output is left out.
pub mod Bitmap
pub mod Count
pub mod Alloc
pub mod Free
pub mod Range
pub mod Init
mod Tests
use null_os.Prelude.Bytes.{sub_u32}
use Prim.Native.Nat.{bit_and, bit_or}
use null_os.Prelude.{
  ℕ, zero, suc, ◌+◌, ◌-◌, ◌*◌, ◌/◌, ◌%◌, ◌^◌, Bool, true, false, ◌||◌, ◌&&◌, not, Option, none,
  some, List, [], ◌∷◌, ltb, leb, ◌==◌, if◌then◌else◌, get_or, set, replicate,
}
use null_os.Prelude.Bits.{bit, clear_mask}

abbrev pub page_size : ℕ
page_size = 4096

abbrev pub pmm_limit_addr : ℕ
pmm_limit_addr = 0x800000

-- PMM_MAX_PAGES, `PMM_LIMIT_ADDR / PAGE_SIZE`
abbrev pub pmm_max_pages : ℕ
pmm_max_pages = 2048

-- PMM_BITMAP_SIZE, `PMM_MAX_PAGES / 32`
abbrev pub pmm_bitmap_size : ℕ
pmm_bitmap_size = 64

abbrev pub u32 : ℕ → ℕ
u32 n = n % 2 ^ 32

abbrev pub u64 : ℕ → ℕ
u64 n = n % 2 ^ 64

-- The bitmap at PMM_BITMAP_ADDR, `pmm_total` and `pmm_used`.
pub record Pmm : Type 0 where
  pub bitmap : List ℕ
  pub total : ℕ
  pub used : ℕ

pub bitmap_set : ℕ → Pmm → Pmm
bitmap_set page p = record p {
  bitmap = set p.bitmap (page / 32) (bit_or (get_or p.bitmap (page / 32) 0) (2 ^ (page % 32)));
}

pub bitmap_clear : ℕ → Pmm → Pmm
bitmap_clear page p = record p {
  bitmap =
      set p.bitmap (page / 32)
        (bit_and (get_or p.bitmap (page / 32) 0) (clear_mask 32 (page % 32)));
}

pub bitmap_test : Pmm → ℕ → ℕ
bitmap_test p page = bit (get_or p.bitmap (page / 32) 0) (page % 32)

-- `bitmap_set(page); pmm_used++;`
pub take_page : ℕ → Pmm → Pmm
take_page page p = record q { used = u32 (q.used + 1) }
  where
    q : Pmm
    q = bitmap_set page p

-- `bitmap_clear(page); pmm_used--;`
pub drop_page : ℕ → Pmm → Pmm
drop_page page p = record q { used = sub_u32 q.used 1 }
  where
    q : Pmm
    q = bitmap_clear page p

-- The number of pages that `size` bytes take; the sum wraps.
abbrev pub pages_of : ℕ → ℕ
pages_of size = u32 (size + page_size - 1) / page_size

-- The loop of `pmm_mark_used`, with `rounds` rounds left before `i` reaches `n`.
pub mark_used_from : (rounds page i : ℕ) → Pmm → Pmm
mark_used_from zero page i p = p
mark_used_from (suc rounds) page i p =
    let here = u32 (page + i) in
    let next = if bitmap_test p here == 0 then take_page here p else p in
    let rest = mark_used_from rounds page (i + 1) next in if ltb here p.total then rest else p

pub mark_used : (addr size : ℕ) → Pmm → Pmm
mark_used addr size p = mark_used_from (pages_of size) (addr / page_size) 0 p

pub mark_free_from : (rounds page i : ℕ) → Pmm → Pmm
mark_free_from zero page i p = p
mark_free_from (suc rounds) page i p =
    let here = u32 (page + i) in
    let next = if bitmap_test p here == 0 then p else drop_page here p in
    let rest = mark_free_from rounds page (i + 1) next in if ltb here p.total then rest else p

pub mark_free : (addr size : ℕ) → Pmm → Pmm
mark_free addr size p = mark_free_from (pages_of size) (addr / page_size) 0 p

pub free_pages : Pmm → ℕ
free_pages p = sub_u32 p.total p.used

pub total_pages : Pmm → ℕ
total_pages p = p.total

-- The inner loop of `pmm_alloc_page` over the bits of word `i`; `none` when it runs through.
pub scan_bits : (rounds i b : ℕ) → Pmm → Option (ℕ × Pmm)
scan_bits zero i b p = none
scan_bits (suc rounds) i b p =
    let page = i * 32 + b in
    let rest = scan_bits rounds i (b + 1) p in
    if leb p.total page
    then some (0, p)
    else if bitmap_test p page == 0
    then some (page * page_size, take_page page p)
    else rest

-- The outer loop over the words.
pub scan_words : (rounds i : ℕ) → Pmm → ℕ × Pmm
scan_words zero i p = (0, p)
scan_words (suc rounds) i p =
    let rest = scan_words rounds (i + 1) p in
    if get_or p.bitmap i 0 == 0xffff_ffff
    then rest
    else elim (scan_bits 32 i 0 p) [ none ↦ rest | some r ↦ r ]

pub alloc_page : Pmm → ℕ × Pmm
alloc_page p = scan_words pmm_bitmap_size 0 p

pub alloc_page_at : ℕ → Pmm → ℕ × Pmm
alloc_page_at addr p =
    let page = addr / page_size in
    if not (addr % page_size == 0)
    then (0, p)
    else if leb p.total page || not (bitmap_test p page == 0)
    then (0, p)
    else (addr, take_page page p)

pub free_page : ℕ → Pmm → Pmm
free_page addr p =
    let page = addr / page_size in
    if leb p.total page || (bitmap_test p page == 0) then p else drop_page page p

-- `boot_mem_region_t` of kernel/hal.h, and BOOT_MEM_USABLE.
pub record BootMemRegion : Type 0 where
  pub base : ℕ
  pub length : ℕ
  pub kind : ℕ

abbrev pub boot_mem_usable : ℕ
boot_mem_usable = 1

-- A region rounded inward to whole pages, its end capped at the limit.
pub region_start : BootMemRegion → ℕ
region_start r = u64 (r.base + page_size - 1) / page_size * page_size

pub region_end : BootMemRegion → ℕ
region_end r =
    let end = u64 (r.base + r.length) / page_size * page_size in
    if ltb pmm_limit_addr end then pmm_limit_addr else end

-- One round of the loop over the memory map, with `highest` beside the state.
pub free_region : BootMemRegion → ℕ × Pmm → ℕ × Pmm
free_region r (highest, p) =
    if not (r.kind == boot_mem_usable) || leb (region_end r) (region_start r)
    then (highest, p)
    else (
      if ltb highest (region_end r) then region_end r else highest,
      mark_free (u32 (region_start r)) (u32 (region_end r - region_start r)) p,
    )

pub free_regions : List BootMemRegion → ℕ × Pmm → ℕ × Pmm
free_regions [] s = s
free_regions (r ∷ rs) s = free_regions rs (free_region r s)

-- Pages past the last usable byte are not managed.
pub shrink : ℕ × Pmm → Pmm
shrink (highest, p) =
    let managed = u32 (highest / page_size) in
    if not (highest == 0) && ltb highest pmm_limit_addr
    then record p { used = sub_u32 p.used (pmm_max_pages - managed); total = managed }
    else p

-- Every page used; no address is free yet.
abbrev pub all_used : Pmm
all_used = record {
  bitmap = replicate pmm_bitmap_size 0xffff_ffff;
  total = pmm_max_pages;
  used = pmm_max_pages;
}

-- `pmm_init`. The list is `map[0..nregions)`; the empty one is the fallback.
pub init : List BootMemRegion → Pmm
init [] =
    mark_used 0x100000 0x300000
      (mark_used 0 0x100000 (mark_free 0x100000 (pmm_limit_addr - 0x100000) all_used))
init (r ∷ rs) =
    mark_used 0x100000 0x300000
      (mark_used 0 0x100000 (shrink (free_regions (r ∷ rs) (0, all_used))))
