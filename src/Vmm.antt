-- ===== src/Vmm.antt =====
-- kernel/memory/vmm.c: page directories and page tables in physical memory. Memory is a function from
-- the address of a 32-bit word to the word; loading CR3 and flushing the TLB have no part in it.
pub mod Words
pub mod Walk
pub mod Map
pub mod Table
pub mod User
pub mod Directory
pub mod Start
pub mod Tests
use null_os.Prelude.{
  ℕ, zero, suc, ◌+◌, ◌-◌, ◌*◌, ◌/◌, ◌%◌, ◌^◌, Bool, true, false, ◌&&◌, ltb, leb, ◌==◌,
  if◌then◌else◌,
}
use Prim.Native.Nat.{bit_or}
use null_os.Pmm.{Pmm, alloc_page, free_page, page_size}

abbrev pub page_dir_addr : ℕ
page_dir_addr = 0x300000

abbrev pub page_table_start : ℕ
page_table_start = 0x301000

abbrev pub page_table_end : ℕ
page_table_end = 0x341000

-- `VMM_KERNEL` is present and writable; a user entry has `VMM_USER` too.
abbrev pub vmm_kernel : ℕ
vmm_kernel = 3

abbrev pub user_flags : ℕ
user_flags = 7

-- The end of the identity-mapped memory, in which the kernel reaches a page by its physical address.
abbrev pub identity_end : ℕ
identity_end = 0x800000

abbrev pub Memory : Type 0
Memory = ℕ → ℕ

-- `pt_next`, memory, and the page allocator that user page tables come from.
pub record Vmm : Type 0 where
  pub mem : Memory
  pub pt_next : ℕ
  pub pmm : Pmm

pub data MapResult : Type 0 where
  mapped : MapResult
  err_range : MapResult
  err_nomem : MapResult

unfoldable pub put : (address word : ℕ) → Memory → Memory
put address word m = λ a. if a == address then word else m a

-- A loop that writes `f i` to word `i` of a page, for `n` words from word `i` on.
pub write_words : (n i page : ℕ) (f : ℕ → ℕ) → Memory → Memory
write_words zero i page f m = m
write_words (suc n) i page f m = write_words n (i + 1) page f (put (page + i * 4) (f i) m)

pub zero_4kb : ℕ → Memory → Memory
zero_4kb page m = write_words 1024 0 page (λ i. 0) m

-- `e & VMM_PRESENT`, `e & VMM_USER` and `e & 0xFFFFF000`
abbrev pub is_present : ℕ → Bool
is_present e = e % 2 == 1

abbrev pub is_user : ℕ → Bool
is_user e = e / 4 % 2 == 1

abbrev pub frame : ℕ → ℕ
frame e = e / 4096 * 4096

abbrev pub dir_index : ℕ → ℕ
dir_index virt = virt / 2 ^ 22

abbrev pub table_index : ℕ → ℕ
table_index virt = virt / 4096 % 1024

-- The entry of a page, and of a table: its address has no low bits, and `|` adds the flags to it.
abbrev pub entry : (phys flags : ℕ) → ℕ
entry phys flags = frame phys + flags

abbrev pub pde_address : (dir virt : ℕ) → ℕ
pde_address dir virt = dir + dir_index virt * 4

abbrev pub pte_address : (pde virt : ℕ) → ℕ
pte_address pde virt = frame pde + table_index virt * 4

pub get_phys_from_dir : (dir virt : ℕ) → Memory → ℕ
get_phys_from_dir dir virt m =
    let pde = m (pde_address dir virt) in
    let pte = m (pte_address pde virt) in
    if is_present pde then if is_present pte then frame pte + virt % 4096 else 0 else 0

pub get_user_phys_from_dir : (dir virt : ℕ) → Memory → ℕ
get_user_phys_from_dir dir virt m =
    let pde = m (pde_address dir virt) in
    let pte = m (pte_address pde virt) in
    if is_present pde && is_user pde
    then if is_present pte && is_user pte then frame pte + virt % 4096 else 0
    else 0

pub get_phys : ℕ → Memory → ℕ
get_phys virt m = get_phys_from_dir page_dir_addr virt m

-- `map_page_early`, which `vmm_map_page` is but for the TLB.
pub map_page : (virt phys flags : ℕ) → Vmm → MapResult × Vmm
map_page virt phys flags s =
    let pde = s.mem (pde_address page_dir_addr virt) in
    let new_pde = entry s.pt_next vmm_kernel in
    let pte = entry phys (bit_or (flags % 4096) 1) in
    if is_present pde
    then (mapped, record s { mem = put (pte_address pde virt) pte s.mem })
    else if leb page_table_end s.pt_next
    then (err_nomem, s)
    else (
      mapped,
      record s {
        mem =
            put (pte_address new_pde virt) pte
              (put (pde_address page_dir_addr virt) new_pde (zero_4kb s.pt_next s.mem));
        pt_next = s.pt_next + page_size;
      },
    )

pub unmap_page : ℕ → Vmm → Vmm
unmap_page virt s =
    let pde = s.mem (pde_address page_dir_addr virt) in
    if is_present pde then record s { mem = put (pte_address pde virt) 0 s.mem } else s

-- A new table for `virt`, at the page `pt`.
pub install_table : (dir virt pt : ℕ) → Memory → Memory
install_table dir virt pt m = put (pde_address dir virt) (entry pt user_flags) (zero_4kb pt m)

pub map_user_page : (dir virt phys : ℕ) → Vmm → MapResult × Vmm
map_user_page dir virt phys s =
    let pde = s.mem (pde_address dir virt) in
    let pte = entry phys user_flags in
    let (pt, q) = alloc_page s.pmm in
    if ltb virt identity_end
    then (err_range, s)
    else if is_present pde
    then (mapped, record s { mem = put (pte_address pde virt) pte s.mem })
    else if pt == 0
    then (err_nomem, record s { pmm = q })
    else if leb identity_end pt
    then (err_nomem, record s { pmm = free_page pt q })
    else (
      mapped,
      record s {
        mem = put (pte_address (entry pt user_flags) virt) pte (install_table dir virt pt s.mem);
        pmm = q;
      },
    )

-- `vmm_create_directory`: 0 is failure.
pub create_directory : Vmm → ℕ × Vmm
create_directory s =
    let (dir, q) = alloc_page s.pmm in
    let zeroed = zero_4kb dir s.mem in
    let first = put dir (zeroed page_dir_addr) zeroed in
    if dir == 0
    then (0, record s { pmm = q })
    else if leb identity_end dir
    then (0, record s { pmm = free_page dir q })
    else (dir, record s { mem = put (dir + 4) (first (page_dir_addr + 4)) first; pmm = q })

-- `vmm_init`: the first 8 MB mapped to themselves, for the kernel only. The loop that clears three
-- pages at once is three loops here.
pub init : Vmm → Vmm
init s =
    let second_table = page_table_start + page_size in
    let cleared =
      zero_4kb second_table (zero_4kb page_table_start (zero_4kb page_dir_addr s.mem)) in
    let low = write_words 1024 0 page_table_start (λ i. i * page_size + vmm_kernel) cleared in
    let high = write_words 1024 0 second_table (λ i. 0x400000 + i * page_size + vmm_kernel) low in
    record s {
      mem =
          put (page_dir_addr + 4) (entry second_table vmm_kernel)
            (put page_dir_addr (entry page_table_start vmm_kernel) high);
    }
