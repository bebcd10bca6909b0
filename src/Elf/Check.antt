-- ===== src/Elf/Check.antt =====
-- The checks of `elf_load`: what they accept.
use native.Mathlib.Decide.{ℕ_discrete}
use null_os.Prelude.{
  ℕ, zero, suc, ◌+◌, ◌*◌, ◌^◌, ◌≤◌, ◌<◌, ◌≡◌, refl, subst, ◌≢◌, ◌↔◌, inl, inr, arith, true,
  Bool-cases, List, length,
}
use null_os.Prelude.Bytes.{get_u16, get_u32}
use null_os.Elf.{
  Phdr, ehdr, phdr, phdr_address, ident_ok, header_ok, phdr_ok, phdrs_ok, validate, is_loaded,
  elf_user_limit, elf_max_phnum,
}

-- A segment that is to be loaded lies in the file and in the user part of memory.
pub record InBounds (size : ℕ) (ph : Phdr) : Type 0 where
  pub fits : ph.p_filesz ≤ ph.p_memsz
  pub in_file : ph.p_filesz ≢ 0 → ph.p_offset + ph.p_filesz ≤ size
  pub above_kernel : 0x800000 ≤ ph.p_vaddr
  pub below_stack : ph.p_vaddr + ph.p_memsz ≤ elf_user_limit

-- An image that passes, in terms of the fields that are read.
pub record Checked (b : List ℕ) : Type 0 where
  pub whole_header : 52 ≤ length b
  pub ident : ident_ok b ≡ true
  pub executable : ((ehdr b).e_type ≡ 2) × ((ehdr b).e_machine ≡ 3)
  pub few : (ehdr b).e_phnum ≤ elf_max_phnum
  pub table :
      (ehdr b).e_phnum ≢ 0
      → (32 ≤ (ehdr b).e_phentsize)
        × ((ehdr b).e_phoff + (ehdr b).e_phnum * (ehdr b).e_phentsize ≤ length b)
  pub segments :
      (i : ℕ) → i < (ehdr b).e_phnum → is_loaded (phdr b i) ≡ true → InBounds (length b) (phdr b i)

phdr_ok-InBounds :
    (size : ℕ) (ph : Phdr) → phdr_ok size ph ≡ true → is_loaded ph ≡ true → InBounds size ph
unfolding phdr_ok
phdr_ok-InBounds size ph ok loaded = record {
  fits = ground (arith, ok, loaded);
  in_file = λ some_data. ground (arith, ok, loaded, some_data);
  above_kernel = ground (arith, ok, loaded);
  below_stack = ground (arith, ok, loaded);
}

InBounds-phdr_ok :
    (size : ℕ) (ph : Phdr) → (is_loaded ph ≡ true → InBounds size ph) → phdr_ok size ph ≡ true
unfolding phdr_ok
InBounds-phdr_ok size ph good = elim (Bool-cases (is_loaded ph)) [
  | inr skipped ↦ ground (arith, skipped)
  | inl loaded ↦
      let g = good loaded in
      ground (arith, loaded, g.fits, g.in_file, g.above_kernel, g.below_stack)
]

phdrs_ok-each :
    (n i : ℕ) (b : List ℕ)
    → phdrs_ok n i b ≡ true
    → (j : ℕ) → i ≤ j
    → j < i + n
    → phdr_ok (length b) (phdr b j) ≡ true
unfolding phdrs_ok
phdrs_ok-each zero i b ok j lo hi = absurd (omega arith)
phdrs_ok-each (suc n) i b ok j lo hi = elim (ℕ_discrete i j) [
  | yes here ↦ subst (λ k. phdr_ok (length b) (phdr b k) ≡ true) here (ground (arith, ok))
  | no later ↦ phdrs_ok-each n (i + 1) b (ground (arith, ok)) j (omega arith) (omega arith)
]

each-phdrs_ok :
    (n i : ℕ) (b : List ℕ)
    → ((j : ℕ) → i ≤ j → j < i + n → phdr_ok (length b) (phdr b j) ≡ true)
    → phdrs_ok n i b ≡ true
unfolding phdrs_ok
each-phdrs_ok zero i b each = refl
each-phdrs_ok (suc n) i b each =
    let first = each i (omega arith) (omega arith) in
    let later = each-phdrs_ok n (i + 1) b (λ j lo hi. each j (omega arith) (omega arith)) in
    ground (arith, first, later)

record Header (b : List ℕ) : Type 0 where
  whole_header : 52 ≤ length b
  ident : ident_ok b ≡ true
  executable : ((ehdr b).e_type ≡ 2) × ((ehdr b).e_machine ≡ 3)
  few : (ehdr b).e_phnum ≤ elf_max_phnum
  table :
      (ehdr b).e_phnum ≢ 0
      → (32 ≤ (ehdr b).e_phentsize)
        × ((ehdr b).e_phoff + (ehdr b).e_phnum * (ehdr b).e_phentsize ≤ length b)

header_ok-Header : (b : List ℕ) → header_ok b ≡ true → Header b
unfolding header_ok
header_ok-Header b ok = record {
  whole_header = ground (arith, ok);
  ident = ground (arith, ok);
  executable = (ground (arith, ok), ground (arith, ok));
  few = ground (arith, ok);
  table = λ some_headers. (ground (arith, ok, some_headers), ground (arith, ok, some_headers));
}

Header-header_ok : (b : List ℕ) → Header b → header_ok b ≡ true
unfolding header_ok
Header-header_ok b h = elim (ℕ_discrete (ehdr b).e_phnum 0) [
  | yes none_at_all ↦ ground (arith, none_at_all, h.whole_header, h.ident, h.executable, h.few)
  | no some_headers ↦
      let t = h.table some_headers in
      ground (arith, t.0, t.1, h.whole_header, h.ident, h.executable, h.few)
]

validate-and :
    (b : List ℕ) → validate b ≡ true → (header_ok b ≡ true) × (phdrs_ok (ehdr b).e_phnum 0 b ≡ true)
unfolding validate
validate-and b ok = (ground (arith, ok), ground (arith, ok))

and-validate :
    (b : List ℕ) → header_ok b ≡ true → phdrs_ok (ehdr b).e_phnum 0 b ≡ true → validate b ≡ true
unfolding validate
and-validate b ok ok' = ground (arith, ok, ok')

pub validate-Checked_iff : (b : List ℕ) → (validate b ≡ true) ↔ Checked b
validate-Checked_iff b = (
  λ ok.
      let (head_ok, all_ok) = validate-and b ok in
      let h = header_ok-Header b head_ok in
      record {
        whole_header = h.whole_header;
        ident = h.ident;
        executable = h.executable;
        few = h.few;
        table = h.table;
        segments = λ i lt loaded.
            phdr_ok-InBounds (length b) (phdr b i)
              (phdrs_ok-each (ehdr b).e_phnum 0 b all_ok i (omega arith) (omega (arith, lt)))
              loaded;
      },
  λ a.
      and-validate b
        (Header-header_ok b (record {
          whole_header = a.whole_header;
          ident = a.ident;
          executable = a.executable;
          few = a.few;
          table = a.table;
        }))
        (each-phdrs_ok (ehdr b).e_phnum 0 b
          (λ j lo hi. InBounds-phdr_ok (length b) (phdr b j) (a.segments j (omega (arith, hi))))),
)

-- Where the format puts program header `i`.
abbrev pub header_at : List ℕ → ℕ → ℕ
header_at b i = get_u32 b 28 + i * get_u16 b 42

row_inside : (off i n w size : ℕ) → i < n → 32 ≤ w → off + n * w ≤ size → off + i * w + 32 ≤ size
row_inside off i n w size lt entry fits =
    let whole : (i + 1) * w ≤ n * w = grind (arith, lt) in grind (arith, entry, fits, whole)

pub table_inside :
    (b : List ℕ) (i : ℕ)
    → length b < 2 ^ 32
    → i < (ehdr b).e_phnum
    → 32 ≤ (ehdr b).e_phentsize
    → (ehdr b).e_phoff + (ehdr b).e_phnum * (ehdr b).e_phentsize ≤ length b
    → (phdr_address (ehdr b) i ≡ header_at b i) × (header_at b i + 32 ≤ length b)
unfolding phdr_address ehdr
table_inside b i small lt entry fits =
    let inside : header_at b i + 32 ≤ length b =
      row_inside (get_u32 b 28) i (get_u16 b 44) (get_u16 b 42) (length b) lt entry fits in
    (omega (arith, inside, small), inside)

-- Every program header of an image that passes, which is shorter than 4 GB, is read where the format
-- puts it, the sum taken without wrapping around, and lies inside the file.
pub phdr_address-inside :
    (b : List ℕ)
    → length b < 2 ^ 32
    → validate b ≡ true
    → (i : ℕ) → i < (ehdr b).e_phnum
    → (phdr_address (ehdr b) i ≡ header_at b i) × (header_at b i + 32 ≤ length b)
phdr_address-inside b small ok i lt =
    let t = (header_ok-Header b (validate-and b ok).0).table (omega (arith, lt)) in
    table_inside b i small lt t.0 t.1
