-- ===== src/Heap.antt =====
-- kernel/memory/heap.c: the kernel heap. The doubly linked list of headers is a list of blocks, whose
-- neighbours are `next` and `prev`; the address of a block is that of its header.
pub mod Layout
pub mod Fit
pub mod Grow
pub mod Malloc
pub mod Free
pub mod Kfree
pub mod Start
mod Tests
use null_os.Prelude.{
  ℕ, zero, suc, ◌+◌, ◌-◌, ◌*◌, ◌/◌, ◌%◌, ◌^◌, Bool, true, false, ◌&&◌, ◌||◌, Option, none, some,
  List, [], ◌∷◌, ◌++◌, ltb, leb, ◌==◌, if◌then◌else◌,
}
use null_os.Pmm.{Pmm, alloc_page_at, free_page, page_size}

abbrev pub heap_base : ℕ
heap_base = 0x400000

abbrev pub heap_max : ℕ
heap_max = 0x800000

abbrev pub magic_free : ℕ
magic_free = 0xDEAD1234

abbrev pub magic_used : ℕ
magic_used = 0xBEEF5678

abbrev pub header_size : ℕ
header_size = 16

abbrev pub heap_initial_size : ℕ
heap_initial_size = 256 * 1024

-- `block_header_t`
pub record Block : Type 0 where
  pub address : ℕ
  pub magic : ℕ
  pub size : ℕ

-- `heap_start_ptr` with its list, `heap_end`, and the page allocator that the heap grows from.
pub record Heap : Type 0 where
  pub blocks : List Block
  pub end : ℕ
  pub pmm : Pmm

-- Splits a free block if there is leftover space, and marks its front as used.
pub take_block : ℕ → Block → List Block
take_block size b =
    if leb (size + header_size + 4) b.size
    then record b { magic = magic_used; size = size }
      ∷ record {
        address = b.address + header_size + size;
        magic = magic_free;
        size = b.size - size - header_size;
      }
      ∷ []
    else record b { magic = magic_used } ∷ []

-- What the walk of `kmalloc` ends in: a broken header, the end of the list, or a block.
pub data Walk : Type 0 where
  corrupt : Walk
  nothing_fits : Walk
  found : (ptr : ℕ) → List Block → Walk

-- The walk, with the blocks that `kmalloc` has passed put back.
pub pass : Block → Walk → Walk
pass b corrupt = corrupt
pass b nothing_fits = nothing_fits
pass b (found ptr bs) = found ptr (b ∷ bs)

pub first_fit : ℕ → List Block → Walk
first_fit size [] = nothing_fits
first_fit size (b ∷ bs) =
    let later = first_fit size bs in
    if (b.magic == magic_free) || (b.magic == magic_used)
    then if (b.magic == magic_free) && leb size b.size
      then found (b.address + header_size) (take_block size b ++ bs)
      else pass b later
    else corrupt

-- Puts new space at the end of the list, in one block with a free last block.
pub append_block : Block → List Block → List Block
append_block new [] = new ∷ []
append_block new (b ∷ []) =
    if b.magic == magic_free
    then record b { size = (b.size + (header_size + new.size)) % 2 ^ 32 } ∷ []
    else b ∷ new ∷ []
append_block new (b ∷ c ∷ bs) = b ∷ append_block new (c ∷ bs)

-- `hdr->size += HEADER_SIZE + hdr->next->size` with the next block taken out of the list.
pub absorb : Block → List Block → List Block
absorb b [] = b ∷ []
absorb b (c ∷ bs) = record b { size = (b.size + (header_size + c.size)) % 2 ^ 32 } ∷ bs

pub merge_next : Block → List Block → List Block
merge_next b [] = b ∷ []
merge_next b (c ∷ bs) = if c.magic == magic_free then absorb b (c ∷ bs) else b ∷ c ∷ bs

-- Frees the block of `ptr` after a first block `p`, which it may be merged with.
pub free_after : ℕ → Block → List Block → List Block
free_after ptr p [] = p ∷ []
free_after ptr p (b ∷ bs) =
    let later = free_after ptr b bs in
    let merged = merge_next (record b { magic = magic_free }) bs in
    if b.address + header_size == ptr
    then if b.magic == magic_used
      then if p.magic == magic_free then absorb p merged else p ∷ merged
      else p ∷ b ∷ bs
    else p ∷ later

pub free_block : ℕ → List Block → List Block
free_block ptr [] = []
free_block ptr (b ∷ bs) =
    if b.address + header_size == ptr
    then if b.magic == magic_used then merge_next (record b { magic = magic_free }) bs else b ∷ bs
    else free_after ptr b bs

-- `kfree` at a pointer whose header is one of the list; another pointer is no pointer of the heap,
-- and what its header says is not in the model.
pub kfree : ℕ → Heap → Heap
kfree ptr h = record h { blocks = free_block ptr h.blocks }

pub free_bytes : List Block → ℕ
free_bytes [] = 0
free_bytes (b ∷ bs) =
    if b.magic == magic_free then (b.size + free_bytes bs) % 2 ^ 32 else free_bytes bs

-- `vmm_map_page(virt, phys, VMM_KERNEL)`, which may itself take a page for a page table.
module _ (map_page : (virt phys : ℕ) → Pmm → Bool × Pmm) where
  -- The loop of `heap_expand`, for the pages still needed.
  pub expand_pages : ℕ → Heap → Bool × Heap
  expand_pages zero h = (true, h)
  expand_pages (suc n) h =
      let (phys, taken) = alloc_page_at h.end h.pmm in
      let (mapped, after) = map_page h.end phys taken in
      let more = expand_pages n (record h { end = (h.end + page_size) % 2 ^ 32; pmm = after }) in
      if ltb heap_max ((h.end + page_size) % 2 ^ 32)
      then (false, h)
      else if phys == 0
      then (false, record h { pmm = taken })
      else if mapped
      then more
      else (false, record h { pmm = free_page phys after })

  pub heap_expand : ℕ → Heap → Bool × Heap
  heap_expand size h = expand_pages (((size + page_size - 1) % 2 ^ 32) / page_size) h

  -- `heap_init`, which leaves the list empty if the heap cannot grow.
  pub init : Heap → Heap
  init h =
      let (grown, u) = heap_expand heap_initial_size h in
      if grown
      then record u {
        blocks =
            record {
              address = heap_base;
              magic = magic_free;
              size = u.end - heap_base - header_size;
            }
            ∷ [];
      }
      else u

  -- The end of `kmalloc`: the heap grows by enough pages, in a block of its own or in the last one. The
  -- pages of a growth that fails half way stay in the heap, in no block.
  pub grow : ℕ → Heap → Bool × Heap
  grow size h =
      let (grown, u) = heap_expand (size + header_size) h in
      if grown
      then (
        true,
        record u {
          blocks =
              append_block
                (record { address = h.end; magic = magic_free; size = u.end - h.end - header_size })
                u.blocks;
        },
      )
      else (false, u)

  -- `kmalloc`, which calls itself after it has grown the heap, on fuel: 0 is NULL.
  pub kmalloc_rounds : (fuel : ℕ) → ℕ → Heap → Option (ℕ × Heap)
  kmalloc_rounds zero size h = none
  kmalloc_rounds (suc fuel) size h =
      let aligned = (size + 3) / 4 * 4 in
      let (grown, u) = grow aligned h in
      let again = kmalloc_rounds fuel aligned u in
      if size == 0
      then some (0, h)
      else if ltb (heap_max - heap_base) size
      then some (0, h)
      else elim (first_fit aligned h.blocks) [
        | corrupt ↦ some (0, h)
        | found ptr bs ↦ some (ptr, record h { blocks = bs })
        | nothing_fits ↦ if grown then again else some (0, u)
      ]

  -- Two rounds are enough.
  pub kmalloc : ℕ → Heap → Option (ℕ × Heap)
  kmalloc size h = kmalloc_rounds 2 size h
