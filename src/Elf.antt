-- ===== src/Elf.antt =====
-- kernel/elf.c: the checks of an ELF image before anything of it is mapped, and the mapping of the
-- pages of a segment. The image is a list of bytes, of which `size` is the length.
pub mod Check
pub mod Format
pub mod Pages
mod Tests
use null_os.Prelude.{
  ℕ, zero, suc, ◌+◌, ◌-◌, ◌*◌, ◌/◌, ◌%◌, ◌^◌, Bool, true, false, not, ◌&&◌, ◌||◌, List, [], ◌∷◌,
  ltb, leb, ◌==◌, if◌then◌else◌, length, get_or,
}
use null_os.Prelude.Bytes.{get_u16, get_u32}
use null_os.Pmm.{alloc_page, free_page, page_size}
use null_os.Vmm.{Vmm, MapResult, mapped, err_range, err_nomem, zero_4kb, map_user_page}

abbrev pub elf_user_limit : ℕ
elf_user_limit = 0x02000000

abbrev pub elf_max_phnum : ℕ
elf_max_phnum = 64

-- The fields of `elf32_ehdr_t` and `elf32_phdr_t` that are read.
pub record Ehdr : Type 0 where
  pub e_type : ℕ
  pub e_machine : ℕ
  pub e_entry : ℕ
  pub e_phoff : ℕ
  pub e_phentsize : ℕ
  pub e_phnum : ℕ

pub record Phdr : Type 0 where
  pub p_type : ℕ
  pub p_offset : ℕ
  pub p_vaddr : ℕ
  pub p_filesz : ℕ
  pub p_memsz : ℕ

pub ehdr : List ℕ → Ehdr
ehdr b = record {
  e_type = get_u16 b 16;
  e_machine = get_u16 b 18;
  e_entry = get_u32 b 24;
  e_phoff = get_u32 b 28;
  e_phentsize = get_u16 b 42;
  e_phnum = get_u16 b 44;
}

pub phdr_address : Ehdr → ℕ → ℕ
phdr_address e i = (e.e_phoff + i * e.e_phentsize) % 2 ^ 32

pub phdr : List ℕ → ℕ → Phdr
phdr b i =
    let at = phdr_address (ehdr b) i in
    record {
      p_type = get_u32 b at;
      p_offset = get_u32 b (at + 4);
      p_vaddr = get_u32 b (at + 8);
      p_filesz = get_u32 b (at + 16);
      p_memsz = get_u32 b (at + 20);
    }

pub ident_ok : List ℕ → Bool
ident_ok b =
    (get_or b 0 0 == 0x7F)
    && (get_or b 1 0 == b'E')
    && (get_or b 2 0 == b'L')
    && (get_or b 3 0 == b'F')
    && (get_or b 4 0 == 1)
    && (get_or b 5 0 == 1)

-- The header, with a table of program headers that lies in the file.
pub header_ok : List ℕ → Bool
header_ok b =
    let e = ehdr b in
    leb 52 (length b)
    && ident_ok b
    && (e.e_type == 2)
    && (e.e_machine == 3)
    && leb e.e_phnum elf_max_phnum
    && ((e.e_phnum == 0)
        || (leb 32 e.e_phentsize && leb (e.e_phoff + e.e_phnum * e.e_phentsize) (length b)))

abbrev pub is_loaded : Phdr → Bool
is_loaded ph = (ph.p_type == 1) && not (ph.p_memsz == 0)

pub phdr_ok : (size : ℕ) → Phdr → Bool
phdr_ok size ph =
    if is_loaded ph
    then leb ph.p_filesz ph.p_memsz
      && ((ph.p_filesz == 0) || leb (ph.p_offset + ph.p_filesz) size)
      && leb 0x800000 ph.p_vaddr
      && leb (ph.p_vaddr + ph.p_memsz) elf_user_limit
    else true

-- The first loop of `elf_load`, over `n` headers from `i` on.
pub phdrs_ok : (n i : ℕ) → List ℕ → Bool
phdrs_ok zero i b = true
phdrs_ok (suc n) i b = phdr_ok (length b) (phdr b i) && phdrs_ok n (i + 1) b

-- All checks of `elf_load` before it maps a page.
pub validate : List ℕ → Bool
validate b = header_ok b && phdrs_ok (ehdr b).e_phnum 0 b

pub page_start : Phdr → ℕ
page_start ph = ph.p_vaddr / 4096 * 4096

pub page_end : Phdr → ℕ
page_end ph = (ph.p_vaddr + ph.p_memsz + 0xFFF) % 2 ^ 32 / 4096 * 4096

abbrev pub is_mapped : MapResult → Bool
is_mapped mapped = true
is_mapped err_range = false
is_mapped err_nomem = false

-- The loop that maps fresh pages, for `n` pages from `va` on; false is -1.
pub map_pages : (n va dir : ℕ) → Vmm → Bool × Vmm
map_pages zero va dir s = (true, s)
map_pages (suc n) va dir s =
    let (phys, q) = alloc_page s.pmm in
    let zeroed = record s { mem = zero_4kb phys s.mem; pmm = q } in
    let (r, u) = map_user_page dir va phys zeroed in
    let later = map_pages n (va + page_size) dir u in
    if phys == 0
    then (false, record s { pmm = q })
    else if is_mapped r
    then later
    else (false, record u { pmm = free_page phys u.pmm })

pub map_segment : Phdr → (dir : ℕ) → Vmm → Bool × Vmm
map_segment ph dir s = map_pages ((page_end ph - page_start ph) / page_size) (page_start ph) dir s
