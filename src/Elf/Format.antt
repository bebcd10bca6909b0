-- ===== src/Elf/Format.antt =====
-- kernel/elf.c: the checks of `elf_load` against the layout of an ELF file, byte by byte.
use null_os.Prelude.{
  ℕ, ◌+◌, ◌*◌, ◌^◌, ◌≤◌, ◌<◌, ◌≡◌, refl, sym, ap, subst, ◌∙◌, ◌≢◌, ◌↔◌, arith, true, List, [], ◌∷◌,
  length, take, get_or,
}
use null_os.Prelude.Bytes.{get_u16, get_u32}
use null_os.Elf.{Phdr, ehdr, phdr, phdr_address, ident_ok, is_loaded, validate}
use null_os.Elf.Check.{InBounds, Checked, validate-Checked_iff, header_at, table_inside}

-- The segment of the program header at byte `at`: its data lies in the file, and its memory from 8 MB up
-- to 32 MB, where the user stack is.
pub record Loadable (b : List ℕ) (at : ℕ) : Type 0 where
  pub fits : get_u32 b (at + 16) ≤ get_u32 b (at + 20)
  pub in_file : get_u32 b (at + 16) ≢ 0 → get_u32 b (at + 4) + get_u32 b (at + 16) ≤ length b
  pub above_kernel : 0x800000 ≤ get_u32 b (at + 8)
  pub below_stack : get_u32 b (at + 8) + get_u32 b (at + 20) ≤ 0x2000000

-- The magic, 32 bits, little endian.
abbrev pub elf_ident : List ℕ
elf_ident = 0x7F ∷ b'E' ∷ b'L' ∷ b'F' ∷ 1 ∷ 1 ∷ []

-- An image that is safe to load.
pub record Accepted (b : List ℕ) : Type 0 where
  pub whole_header : 52 ≤ length b
  pub ident : take 6 b ≡ elf_ident
  pub executable : (get_u16 b 16 ≡ 2) × (get_u16 b 18 ≡ 3)
  pub few : get_u16 b 44 ≤ 64
  pub table :
      get_u16 b 44 ≢ 0
      → (32 ≤ get_u16 b 42) × (get_u32 b 28 + get_u16 b 44 * get_u16 b 42 ≤ length b)
  pub segments :
      (i : ℕ)
      → i < get_u16 b 44
      → get_u32 b (header_at b i) ≡ 1
      → get_u32 b (header_at b i + 20) ≢ 0
      → Loadable b (header_at b i)

first_six :
    (b : List ℕ)
    → 6 ≤ length b
    → take 6 b
      ≡ get_or b 0 0 ∷ get_or b 1 0 ∷ get_or b 2 0 ∷ get_or b 3 0 ∷ get_or b 4 0 ∷ get_or b 5 0 ∷ []
first_six [] le = absurd (omega arith)
first_six (x ∷ []) le = absurd (omega arith)
first_six (x ∷ y ∷ []) le = absurd (omega arith)
first_six (x ∷ y ∷ z ∷ []) le = absurd (omega arith)
first_six (x ∷ y ∷ z ∷ t ∷ []) le = absurd (omega arith)
first_six (x ∷ y ∷ z ∷ t ∷ u ∷ []) le = absurd (omega arith)
first_six (x ∷ y ∷ z ∷ t ∷ u ∷ w ∷ b) le = refl

module _ (b : List ℕ) (whole : 52 ≤ length b) where
  ident_ok-take : ident_ok b ≡ true → take 6 b ≡ elf_ident
  unfolding ident_ok
  ident_ok-take ok =
      let e0 : get_or b 0 0 ≡ 0x7F = ground (arith, ok) in
      let e1 : get_or b 1 0 ≡ b'E' = ground (arith, ok) in
      let e2 : get_or b 2 0 ≡ b'L' = ground (arith, ok) in
      let e3 : get_or b 3 0 ≡ b'F' = ground (arith, ok) in
      let e4 : get_or b 4 0 ≡ 1 = ground (arith, ok) in
      let e5 : get_or b 5 0 ≡ 1 = ground (arith, ok) in
      first_six b (omega (arith, whole)) ∙ rw (e0, e1, e2, e3, e4, e5) refl

  take-ident_ok : take 6 b ≡ elf_ident → ident_ok b ≡ true
  unfolding ident_ok
  take-ident_ok e =
      let byte : (i : ℕ) → get_or (take 6 b) i 0 ≡ get_or elf_ident i 0 =
        λ i. ap (λ l. get_or l i 0) e in
      let six = first_six b (omega (arith, whole)) in
      let e0 : get_or b 0 0 ≡ 0x7F = sym (ap (λ l. get_or l 0 0) six) ∙ byte 0 in
      let e1 : get_or b 1 0 ≡ b'E' = sym (ap (λ l. get_or l 1 0) six) ∙ byte 1 in
      let e2 : get_or b 2 0 ≡ b'L' = sym (ap (λ l. get_or l 2 0) six) ∙ byte 2 in
      let e3 : get_or b 3 0 ≡ b'F' = sym (ap (λ l. get_or l 3 0) six) ∙ byte 3 in
      let e4 : get_or b 4 0 ≡ 1 = sym (ap (λ l. get_or l 4 0) six) ∙ byte 4 in
      let e5 : get_or b 5 0 ≡ 1 = sym (ap (λ l. get_or l 5 0) six) ∙ byte 5 in
      rw (e0, e1, e2, e3, e4, e5) refl

-- A program header that is read at `at`.
abbrev phdr_from : List ℕ → ℕ → Phdr
phdr_from b at = record {
  p_type = get_u32 b at;
  p_offset = get_u32 b (at + 4);
  p_vaddr = get_u32 b (at + 8);
  p_filesz = get_u32 b (at + 16);
  p_memsz = get_u32 b (at + 20);
}

phdr-phdr_from :
    (b : List ℕ) (i : ℕ)
    → phdr_address (ehdr b) i ≡ header_at b i
    → phdr b i ≡ phdr_from b (header_at b i)
unfolding phdr
phdr-phdr_from b i e = ap (phdr_from b) e

loaded_iff : (ph : Phdr) → (is_loaded ph ≡ true) ↔ ((ph.p_type ≡ 1) × (ph.p_memsz ≢ 0))
loaded_iff ph = (λ e. (ground (arith, e), λ z. ground (arith, e, z)), λ h. ground (arith, h.0, h.1))

module _ (b : List ℕ) (small : length b < 2 ^ 32) where
  segment-Loadable :
      (c : Checked b) (i : ℕ) → i < get_u16 b 44 → phdr b i ≡ phdr_from b (header_at b i)
  unfolding ehdr
  segment-Loadable c i lt =
      let t = c.table (omega (arith, lt)) in
      phdr-phdr_from b i (table_inside b i small lt t.0 t.1).0

  Checked-Accepted : Checked b → Accepted b
  unfolding ehdr
  Checked-Accepted c = record {
    whole_header = c.whole_header;
    ident = ident_ok-take b c.whole_header c.ident;
    executable = c.executable;
    few = c.few;
    table = c.table;
    segments = λ i lt is_load some_memory.
        let here = segment-Loadable c i lt in
        let g : InBounds (length b) (phdr_from b (header_at b i)) =
          subst (InBounds (length b)) here (
            c.segments i lt (
              subst (λ ph. is_loaded ph ≡ true) (sym here)
                ((loaded_iff (phdr_from b (header_at b i))).1 (is_load, some_memory)))) in
        record {
          fits = g.fits;
          in_file = g.in_file;
          above_kernel = g.above_kernel;
          below_stack = g.below_stack;
        };
  }

  Accepted-Checked : Accepted b → Checked b
  unfolding ehdr
  Accepted-Checked a = record {
    whole_header = a.whole_header;
    ident = take-ident_ok b a.whole_header a.ident;
    executable = a.executable;
    few = a.few;
    table = a.table;
    segments = λ i lt loaded.
        let t = a.table (omega (arith, lt)) in
        let here = phdr-phdr_from b i (table_inside b i small lt t.0 t.1).0 in
        let (is_load, some_memory) =
          (loaded_iff (phdr_from b (header_at b i))).0
            (subst (λ ph. is_loaded ph ≡ true) here loaded) in
        let g = a.segments i lt is_load some_memory in
        subst (InBounds (length b)) (sym here) (record {
          fits = g.fits;
          in_file = g.in_file;
          above_kernel = g.above_kernel;
          below_stack = g.below_stack;
        });
  }

-- The checks of `elf_load` pass exactly for a file below 4 GB with a whole header that starts with the
-- bytes of a 32-bit little-endian ELF file, whose type is an executable and whose machine is x86, with at
-- most 64 program headers, of 32 bytes at least, that end inside the file; each of them that is to be
-- loaded, at the byte where the format puts it, has its data in the file, no more of it than memory, and
-- its memory from 8 MB up to 32 MB. The fields are read from the bytes of the file.
pub validate-Accepted_iff : (b : List ℕ) → length b < 2 ^ 32 → (validate b ≡ true) ↔ Accepted b
validate-Accepted_iff b small = (
  λ ok. Checked-Accepted b small ((validate-Checked_iff b).0 ok),
  λ a. (validate-Checked_iff b).1 (Accepted-Checked b small a),
)
