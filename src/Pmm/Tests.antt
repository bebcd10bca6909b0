-- ===== src/Pmm/Tests.antt =====
-- Tests of kernel/memory/pmm.c, and its theorems at concrete inputs.
use native.Mathlib.Omega.{arith}
use null_os.Prelude.{
  ℕ, zero, suc, get_or, ◌^◌, ◌+◌, ◌*◌, ◌/◌, ◌%◌, ◌≤◌, ◌<◌, ◌≡◌, refl, ◌≢◌, ◌⊎◌, [], ◌∷◌, replicate,
}
use null_os.Pmm.{
  Pmm, BootMemRegion, bitmap_test, bitmap_set, bitmap_clear, take_page, drop_page, mark_used_from,
  mark_used, mark_free, free_pages, total_pages, scan_bits, scan_words, alloc_page, alloc_page_at,
  free_page, init, page_size,
}
use null_os.Pmm.Bitmap.{replicate-fits}
use null_os.Pmm.Count.{IsValid, free_pages-add-used}
use null_os.Pmm.Alloc.{Handed, UsedBelow, alloc_page_lem, alloc_page_at_lem}
use null_os.Pmm.Free.{Returned, SamePages, free_page_lem, free_page-alloc_page}
use null_os.Pmm.Range.{Marked, mark_used-Marked, mark_free-Marked}
use null_os.Pmm.Init.Loop.{Backed}
use null_os.Pmm.Init.{Initialised, init-Initialised}

-- A machine with usable RAM from 1 MB to 6 MB and a reserved region above.
abbrev ram : BootMemRegion
ram = record { base = 0x100000; length = 0x500000; kind = 1 }

abbrev reserved : BootMemRegion
reserved = record { base = 0x600000; length = 0x10000; kind = 2 }

abbrev booted : Pmm
booted = init (ram ∷ reserved ∷ [])

booted-Initialised : Initialised (Backed (ram ∷ reserved ∷ [])) booted
booted-Initialised = init-Initialised ram (reserved ∷ []) (omega arith)

-- A small bitmap: 40 pages, the first 33 in use.
abbrev small : Pmm
small = record { bitmap = 0xffff_ffff ∷ 1 ∷ replicate 62 0; total = 40; used = 33 }

alloc-small : (alloc_page small).0 ≡ 33 * page_size
unfolding alloc_page scan_words scan_bits bitmap_test
alloc-small = refl

free-small : (free_page (33 * page_size) (alloc_page small).1).used ≡ 33
unfolding alloc_page scan_words scan_bits bitmap_test take_page bitmap_set free_page drop_page
    bitmap_clear
free-small = refl

mark-small : (mark_used (34 * page_size) 8000 small).bitmap ≡ 0xffff_ffff ∷ 13 ∷ replicate 62 0
unfolding mark_used mark_used_from bitmap_test take_page bitmap_set
mark-small = refl

free_pages-add-used_example : free_pages booted + booted.used ≡ total_pages booted
free_pages-add-used_example = free_pages-add-used booted-Initialised.valid

alloc_page_lem_example :
    ((alloc_page booted ≡ (0, booted)) × UsedBelow booted booted.total)
    ⊎ ((page : ℕ) × ((alloc_page booted).0 ≡ page * page_size)
        × UsedBelow booted page
        × Handed booted page (alloc_page booted).1)
alloc_page_lem_example = alloc_page_lem booted-Initialised.valid

alloc_page_at_lem_example :
    (((0x400000 % page_size ≢ 0)
        ⊎ (booted.total ≤ 0x400000 / page_size)
        ⊎ (bitmap_test booted (0x400000 / page_size) ≢ 0))
      × (alloc_page_at 0x400000 booted ≡ (0, booted)))
    ⊎ ((0x400000 % page_size ≡ 0)
        × ((alloc_page_at 0x400000 booted).0 ≡ 0x400000)
        × Handed booted (0x400000 / page_size) (alloc_page_at 0x400000 booted).1)
alloc_page_at_lem_example = alloc_page_at_lem 0x400000 booted-Initialised.valid

free_page_lem_example :
    (((booted.total ≤ 0x401234 / page_size) ⊎ (bitmap_test booted (0x401234 / page_size) ≡ 0))
      × (free_page 0x401234 booted ≡ booted))
    ⊎ Returned booted (0x401234 / page_size) (free_page 0x401234 booted)
free_page_lem_example = free_page_lem 0x401234 booted-Initialised.valid

small-fits : (i : ℕ) → get_or small.bitmap i 0 < 2 ^ 32
small-fits zero = omega arith
small-fits (suc zero) = omega arith
small-fits (suc (suc i)) = replicate-fits 62 i 0 (2 ^ 32) (omega arith) (omega arith)

small-IsValid : IsValid small
unfolding bitmap_test
small-IsValid = record {
  words = record { size = refl; fits = small-fits };
  managed = omega arith;
  counted = refl;
}

free_page-alloc_page_example : SamePages small (free_page (alloc_page small).0 (alloc_page small).1)
unfolding alloc_page scan_words scan_bits bitmap_test
free_page-alloc_page_example = free_page-alloc_page small-IsValid (omega arith)

mark_used-Marked_example : Marked 34 36 1 small (mark_used (34 * page_size) 8000 small)
mark_used-Marked_example =
    mark_used-Marked (34 * page_size) 8000 small small-IsValid (omega arith) (omega arith)

mark_free-Marked_example : Marked 30 36 0 small (mark_free (30 * page_size + 7) 24576 small)
mark_free-Marked_example =
    mark_free-Marked (30 * page_size + 7) 24576 small small-IsValid (omega arith) (omega arith)

init-Initialised_example : Initialised (Backed (ram ∷ reserved ∷ [])) (init (ram ∷ reserved ∷ []))
init-Initialised_example = init-Initialised ram (reserved ∷ []) (omega arith)
