-- ===== src/Elf/Tests.antt =====
-- Tests of kernel/elf.c, and its theorems at concrete inputs.
use null_os.Prelude.{
  ℕ, ◌+◌, ◌*◌, ◌/◌, ◌^◌, ◌≤◌, ◌<◌, ◌≡◌, refl, ◌≢◌, ◌⊎◌, ◌↔◌, arith, true, false, List, [], ◌∷◌,
  ◌++◌, replicate, length, set,
}
use null_os.Vmm.{get_user_phys_from_dir}
use null_os.Vmm.Walk.{IsSpace, SameWalk}
use null_os.Vmm.Tests.{space, space-IsSpace}
use null_os.Elf.{
  Phdr, ehdr, phdr, phdr_address, ident_ok, header_ok, phdr_ok, phdrs_ok, validate, map_segment,
}
use null_os.Elf.Check.{InBounds, header_at, phdr_address-inside}
use null_os.Elf.Format.{Accepted, validate-Accepted_iff}
use null_os.Elf.Pages.{OutOfMemory, map_segment_lem}

-- Four bytes of code at 0x800010, in a segment of two pages.
abbrev image : List ℕ
image =
    (0x7F ∷ b'E' ∷ b'L' ∷ b'F' ∷ 1 ∷ 1 ∷ 1 ∷ replicate 9 0)
    ++ (2 ∷ 0 ∷ 3 ∷ 0 ∷ 1 ∷ 0 ∷ 0 ∷ 0 ∷ 0x10 ∷ 0 ∷ 0x80 ∷ 0 ∷ 52 ∷ 0 ∷ 0 ∷ 0 ∷ replicate 8 0)
    ++ (52 ∷ 0 ∷ 32 ∷ 0 ∷ 1 ∷ 0 ∷ replicate 6 0)
    ++ (1
        ∷ 0
        ∷ 0
        ∷ 0
        ∷ 84
        ∷ 0
        ∷ 0
        ∷ 0
        ∷ 0x10
        ∷ 0
        ∷ 0x80
        ∷ 0
        ∷ 0
        ∷ 0
        ∷ 0
        ∷ 0
        ∷ 4
        ∷ 0
        ∷ 0
        ∷ 0
        ∷ 0
        ∷ 0x20
        ∷ 0
        ∷ 0
        ∷ replicate 8 0)
    ++ (0x90 ∷ 0x90 ∷ 0xEB ∷ 0xFE ∷ [])

validate-image : validate image ≡ true
unfolding validate header_ok phdrs_ok phdr_ok ehdr phdr phdr_address ident_ok
validate-image = refl

-- The same with a segment in the kernel's part of memory.
abbrev hostile : List ℕ
hostile = set image 62 0x10

validate-hostile : validate hostile ≡ false
unfolding validate header_ok phdrs_ok phdr_ok ehdr phdr phdr_address ident_ok
validate-hostile = refl

one_header : (ehdr image).e_phnum ≡ 1
unfolding ehdr
one_header = refl

size-image : length image ≡ 88
size-image = refl

validate-Accepted_iff_example : (validate image ≡ true) ↔ Accepted image
validate-Accepted_iff_example = validate-Accepted_iff image (omega (arith, size-image))

phdr_address-inside_example :
    (phdr_address (ehdr image) 0 ≡ header_at image 0) × (header_at image 0 + 32 ≤ length image)
phdr_address-inside_example =
    phdr_address-inside image (omega (arith, size-image)) validate-image 0
      (omega (arith, one_header))

abbrev code : Phdr
code = record { p_type = 1; p_offset = 84; p_vaddr = 0x800010; p_filesz = 4; p_memsz = 0x2000 }

code-InBounds : InBounds 88 code
code-InBounds = record {
  fits = omega arith;
  in_file = λ _. omega arith;
  above_kernel = omega arith;
  below_stack = omega arith;
}

map_segment_lem_example :
    (((map_segment code space.0 space.1).0 ≡ false)
      × OutOfMemory (map_segment code space.0 space.1).1)
    ⊎ (((map_segment code space.0 space.1).0 ≡ true)
        × IsSpace space.0 (map_segment code space.0 space.1).1
        × ((a : ℕ)
            → 0x800010 ≤ a
            → a < 0x800010 + 0x2000
            → get_user_phys_from_dir space.0 a (map_segment code space.0 space.1).1.mem ≢ 0)
        × ((a : ℕ)
            → a < 2 ^ 32
            → (a / 4096 < 0x800010 / 4096) ⊎ (0x800010 + 0x2000 ≤ a / 4096 * 4096)
            → SameWalk space.0 a space.1.mem (map_segment code space.0 space.1).1.mem))
map_segment_lem_example = map_segment_lem code 88 space.0 space.1 code-InBounds refl space-IsSpace
