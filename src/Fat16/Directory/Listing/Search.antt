-- ===== src/Fat16/Directory/Listing/Search.antt =====
-- kernel/fs/fat16.c: `dir_lookup` and `fat16_readdir` against the list of the entries.
use null_os.Prelude.{
  ℕ, zero, suc, ◌+◌, ◌<◌, ◌≡◌, refl, sym, ap, ◌∙◌, Bool, true, false, not, List, [], ◌∷◌, ◌++◌,
  ◌==◌, ◌||◌, ◌/◌, ◌%◌, if◌then◌else◌, length, inl, inr, arith, Bool-cases, ==_iff, ==_of_ne,
}
use null_os.Fat16.{Volume}
use null_os.Fat16.Dirent.{
  Dirent, dirent_empty, first_byte, is_directory, is_volume_id, dirent_display_name, dot,
}
use null_os.Fat16.Directory.{
  missing, Result, ok, err, dir_iter_init, walk, dir_fuel, is_hidden, equal_bytes, Found,
  lookup_visit, dir_lookup, Listed, readdir_visit, readdir_result, readdir,
}
use null_os.Fat16.File.Reading.{Readable}
use null_os.Fat16.File.Writing.Clusters.{IsLaidOut}
use null_os.Fat16.Directory.Listing.Region.{IsDirectory, IsDirectory-Sectors}
use null_os.Fat16.Directory.Listing.{
  Slot, slot_entry, Sectors, slots, run, walk-Searched, outcome, walk_result-Searched,
}

-- Deleted, or with the attribute of a label (bit 3).
abbrev passed_over : Dirent → Bool
passed_over e = (first_byte e == 0xE5) || (e.attr / 8 % 2 == 1)

-- The entries up to the end mark that no loop passes over.
unfoldable pub visible : List Slot → List Slot
visible [] = []
visible (x ∷ xs) =
    let rest = visible xs in
    if first_byte (slot_entry x) == dirent_empty
    then []
    else (if passed_over (slot_entry x) then rest else x ∷ rest)

abbrev name_of : Dirent → List ℕ
name_of e = e.name ++ e.ext

unfoldable pub first_named : List ℕ → List Slot → Result Found
first_named name83 [] = err missing
first_named name83 (x ∷ xs) =
    let rest = first_named name83 xs in
    if equal_bytes (name_of (slot_entry x)) name83
    then ok (record {
      found = slot_entry x;
      found_lba = x.slot_lba;
      found_index = x.slot_index;
      dir_buf = x.slot_bytes;
    })
    else rest

run-first_named :
    (name83 : List ℕ) (xs : List Slot) (s : Unit {0})
    → outcome (run (lookup_visit name83) xs s) ≡ first_named name83 (visible xs)
unfolding run outcome first_named visible lookup_visit is_hidden is_volume_id
run-first_named name83 [] s = refl
run-first_named name83 (x ∷ xs) s = elim (Bool-cases (first_byte (slot_entry x) == dirent_empty)) [
  | inl last ↦ rw (last, outcome, run, lookup_visit, is_hidden, is_volume_id) refl
  | inr more ↦ elim (Bool-cases (passed_over (slot_entry x))) [
    | inl hidden ↦
        rw (more, hidden, outcome, run, lookup_visit, is_hidden, is_volume_id)
          (run-first_named name83 xs s)
    | inr shown ↦ elim (Bool-cases (equal_bytes (name_of (slot_entry x)) name83)) [
      | inl same ↦ rw (more, shown, same, outcome, run, lookup_visit, is_hidden, is_volume_id) refl
      | inr other ↦
          rw (more, shown, other, outcome, run, lookup_visit, is_hidden, is_volume_id)
            (run-first_named name83 xs s)
    ]
  ]
]

pub dir_lookup-first_named :
    (c : ℕ) (name83 : List ℕ) (ss : List (ℕ × List ℕ)) (v : Volume)
    → Sectors v (dir_iter_init c) ss
    → length ss < dir_fuel v
    → dir_lookup c name83 v ≡ first_named name83 (visible (slots ss))
unfolding dir_lookup
dir_lookup-first_named c name83 ss v k lt =
    walk_result-Searched (run (lookup_visit name83) (slots ss) tt)
      (walk (lookup_visit name83) (dir_fuel v) (dir_iter_init c) tt v)
      (walk-Searched (lookup_visit name83) (dir_fuel v) (dir_iter_init c) ss tt v k lt)
    ∙ run-first_named name83 (slots ss) tt

-- The entries that a listing shows: those whose name does not start with a dot.
pub shown : List Slot → List Dirent
shown [] = []
shown (x ∷ xs) =
    let rest = shown xs in if first_byte (slot_entry x) == dot then rest else slot_entry x ∷ rest

pub listed_at : ℕ → List Dirent → Result Listed
listed_at i [] = err missing
listed_at zero (e ∷ es) =
    ok (record {
      listed_name = dirent_display_name e;
      listed_size = e.size;
      is_dir = is_directory e;
    })
listed_at (suc i) (e ∷ es) = listed_at i es

-- At an entry that is shown, the search ends or goes on with one more.
run-shown :
    (idx count : ℕ) (x : Slot) (xs : List Slot)
    → (first_byte (slot_entry x) == dirent_empty) ≡ false
    → passed_over (slot_entry x) ≡ false
    → (first_byte (slot_entry x) == dot) ≡ false
    → ((i : ℕ)
        → outcome (run (readdir_visit (count + 1 + i)) xs (count + 1))
          ≡ listed_at i (shown (visible xs)))
    → outcome (run (readdir_visit (count + idx)) (x ∷ xs) count)
      ≡ listed_at idx (slot_entry x ∷ shown (visible xs))
unfolding run outcome listed_at readdir_visit is_hidden is_volume_id
run-shown zero count x xs more plain other rest =
    rw (more, plain, other, (==_iff count (count + 0)).1 (omega arith), outcome, run, readdir_visit)
      refl
run-shown (suc i) count x xs more plain other rest =
    rw
      (
        more,
        plain,
        other,
        ==_of_ne count (count + suc i) (λ e. omega (arith, e)),
        outcome,
        run,
        readdir_visit,
      )
      (ap (λ n. outcome (run (readdir_visit n) xs (count + 1))) {x = count + suc i}
          {y = count + 1 + i} (omega arith)
        ∙ rest i)

run-listed_at :
    (idx count : ℕ) (xs : List Slot)
    → outcome (run (readdir_visit (count + idx)) xs count) ≡ listed_at idx (shown (visible xs))
unfolding run outcome listed_at visible shown readdir_visit is_hidden is_volume_id
run-listed_at idx count [] = refl
run-listed_at idx count (x ∷ xs) = elim (Bool-cases (first_byte (slot_entry x) == dirent_empty)) [
  | inl last ↦ rw (last, outcome, run, readdir_visit, is_hidden, is_volume_id) refl
  | inr more ↦ elim (Bool-cases (passed_over (slot_entry x))) [
    | inl hidden ↦
        rw (more, hidden, outcome, run, readdir_visit, is_hidden, is_volume_id)
          (run-listed_at idx count xs)
    | inr plain ↦ elim (Bool-cases (first_byte (slot_entry x) == dot)) [
      | inl dots ↦
          rw (more, plain, dots, outcome, run, readdir_visit, is_hidden, is_volume_id)
            (run-listed_at idx count xs)
      | inr other ↦
          run-shown idx count x xs more plain other (λ i. run-listed_at i (count + 1) xs)
          ∙ sym (rw (more, plain, other) refl)
    ]
  ]
]

ready_listing : (r : Bool) (x : Result Listed) → r ≡ true → (if not r then err missing else x) ≡ x
ready_listing r x e = rw e refl

readdir_result-listed_at :
    (idx : ℕ) (es : List Dirent) → readdir_result (listed_at idx es) ≡ listed_at idx es
unfolding readdir_result listed_at
readdir_result-listed_at idx [] = refl
readdir_result-listed_at zero (e ∷ es) = refl
readdir_result-listed_at (suc i) (e ∷ es) = readdir_result-listed_at i es

readdir-listed_at :
    (c idx : ℕ) (ss : List (ℕ × List ℕ)) (v : Volume)
    → v.layout.ready ≡ true
    → Sectors v (dir_iter_init c) ss
    → length ss < dir_fuel v
    → readdir c idx v ≡ listed_at idx (shown (visible (slots ss)))
unfolding readdir
readdir-listed_at c idx ss v ready k lt =
    ready_listing v.layout.ready _ ready
    ∙ ap readdir_result (
        walk_result-Searched (run (readdir_visit idx) (slots ss) 0)
          (walk (readdir_visit idx) (dir_fuel v) (dir_iter_init c) 0 v)
          (walk-Searched (readdir_visit idx) (dir_fuel v) (dir_iter_init c) ss 0 v k lt)
        ∙ ap (λ n. outcome (run (readdir_visit n) (slots ss) 0)) {x = idx} {y = 0 + idx}
            (omega arith)
        ∙ run-listed_at idx 0 (slots ss))
    ∙ readdir_result-listed_at idx (shown (visible (slots ss)))

pub directory-list :
    (c idx : ℕ) (name83 : List ℕ) (ss : List (ℕ × List ℕ)) (v : Volume)
    → v.layout.ready ≡ true
    → Readable v
    → IsLaidOut v.layout (length v.fat)
    → IsDirectory v c ss
    → length ss < dir_fuel v
    → (dir_lookup c name83 v ≡ first_named name83 (visible (slots ss)))
      × (readdir c idx v ≡ listed_at idx (shown (visible (slots ss))))
directory-list c idx name83 ss v ready r h d lt =
    let k = IsDirectory-Sectors v c ss r h d in
    (dir_lookup-first_named c name83 ss v k lt, readdir-listed_at c idx ss v ready k lt)
