-- ===== src/Fat16/Directory/Insert/After.antt =====
-- kernel/fs/fat16.c: an entry that `dir_insert` stored is the one that `dir_lookup` finds.
use mathlib.Core.Option.{some-injective}
use null_os.Prelude.{
  ℕ, zero, suc, ◌+◌, ◌<◌, ◌≡◌, ◌≢◌, refl, sym, ap, ap₂, ◌∙◌, inl, inr, Bool, true, false, not, ◌||◌,
  Option, none, some, List, [], ◌∷◌, ◌++◌, map, map-append, ◌==◌, if◌then◌else◌, length, arith,
  Bool-cases, ==_refl,
}
use null_os.Fat16.{Volume, write_sector}
use null_os.Fat16.Dirent.{
  Dirent, dirent_at, per_sector, dirent_empty, dirent_deleted, first_byte, is_volume_id,
}
use null_os.Fat16.Dirent.Bytes.{Sized}
use null_os.Fat16.Directory.{
  Fault, missing, io_error, Result, ok, err, DirIter, dir_iter_init, Walk, returned, exhausted,
  walk, dir_fuel, is_hidden, equal_bytes, Found, dir_lookup, insert_visit, status, dir_insert,
  grow_directory, endless, broken, circular,
}
use null_os.Fat16.File.Reading.{Readable}
use null_os.Fat16.File.Writing.Clusters.{IsLaidOut}
use null_os.Fat16.Directory.Listing.Region.{IsDirectory, IsDirectory-Sectors}
use null_os.Fat16.Directory.Listing.{Slot, slot_entry, slots_from, Sectors, slots}
use null_os.Fat16.Directory.Listing.Search.{first_named, visible, dir_lookup-first_named}
use null_os.Fat16.Directory.Insert.{
  patched, patch_all, Sectors-patched, is_free, AllTaken, taken, Replaced, entries_from,
}
use null_os.Fat16.Directory.Insert.Lookup.{entries, Placed, in_slot, is_full, walk-Placed}

-- The first entry of a name, as the entry only.
named : List ℕ → List Dirent → Option Dirent
named name83 [] = none
named name83 (e ∷ es) =
    let rest = named name83 es in
    if first_byte e == dirent_empty
    then none
    else (if is_hidden e || not (equal_bytes (e.name ++ e.ext) name83) then rest else some e)

found_entry : Result Found → Option Dirent
found_entry (ok f) = some f.found
found_entry (err e) = none

found_entry-named :
    (name83 : List ℕ) (xs : List Slot)
    → found_entry (first_named name83 (visible xs)) ≡ named name83 (map slot_entry xs)
unfolding found_entry first_named visible named is_hidden is_volume_id
found_entry-named name83 [] = refl
found_entry-named name83 (x ∷ xs) = elim (Bool-cases (first_byte (slot_entry x) == dirent_empty)) [
  | inl last ↦ rw (last, found_entry, first_named, visible) refl
  | inr more ↦ elim (Bool-cases (is_hidden (slot_entry x))) [
    | inl hidden ↦ rw (more, hidden) (found_entry-named name83 xs)
    | inr plain ↦
        elim (Bool-cases (equal_bytes ((slot_entry x).name ++ (slot_entry x).ext) name83)) [
          | inl same ↦ rw (more, plain, same) refl
          | inr other ↦ rw (more, plain, other) (found_entry-named name83 xs)
        ]
  ]
]

map-slots_from :
    (n i lba : ℕ) (bytes : List ℕ)
    → map slot_entry (slots_from n i lba bytes) ≡ entries_from n i bytes
unfolding slots_from entries_from
map-slots_from zero i lba bytes = refl
map-slots_from (suc n) i lba bytes =
    ap (◌∷◌ (dirent_at bytes i)) (map-slots_from n (i + 1) lba bytes)

map-slots : (ss : List (ℕ × List ℕ)) → map slot_entry (slots ss) ≡ entries ss
unfolding slots entries
map-slots [] = refl
map-slots (s ∷ ss) =
    map-append slot_entry (slots_from per_sector 0 (s.0) (s.1)) (slots ss)
    ∙ ap₂ (λ x y. x ++ y) (map-slots_from per_sector 0 (s.0) (s.1)) (map-slots ss)

lookup-named :
    (c : ℕ) (name83 : List ℕ) (ss : List (ℕ × List ℕ)) (v : Volume)
    → Sectors v (dir_iter_init c) ss
    → length ss < dir_fuel v
    → found_entry (dir_lookup c name83 v) ≡ named name83 (entries ss)
lookup-named c name83 ss v k lt =
    ap found_entry (dir_lookup-first_named c name83 ss v k lt)
    ∙ found_entry-named name83 (slots ss)
    ∙ ap (named name83) (map-slots ss)

in_use : (d : Dirent) → (first_byte d == dirent_empty) ≡ true → is_free d ≡ false → ⊥
unfolding is_free
in_use d e f = cc (sym (ap (λ b. b || (first_byte d == dirent_deleted)) e) ∙ f)

or-false : (a b : Bool) → (a || b) ≡ false → (a ≡ false) × (b ≡ false)
or-false true b e = absurd (cc (e))
or-false false b e = (refl, e)

some-none : {A : Type 0} {a : A} → some a ≡ none → ⊥
some-none e = cc (e)

-- Entries in use that do not have the name are passed over.
named_before :
    (name83 : List ℕ) (before rest after : List Dirent)
    → AllTaken before
    → named name83 (before ++ rest) ≡ none
    → named name83 (before ++ after) ≡ named name83 after
unfolding named
named_before name83 [] rest after k e = refl
named_before name83 (d ∷ ds) rest after (taken f k) e =
    elim (Bool-cases (first_byte d == dirent_empty)) [
      | inl last ↦ absurd (in_use d last f)
      | inr more ↦ elim (Bool-cases (is_hidden d || not (equal_bytes (d.name ++ d.ext) name83))) [
        | inl passed ↦
            rw (more, passed)
              (named_before name83 ds rest after k (sym (skipped (ds ++ rest) more passed) ∙ e))
        | inr this ↦ absurd (some-none (sym (met (ds ++ rest) more this) ∙ e))
      ]
    ]
  where
    skipped :
        (l : List Dirent)
        → (first_byte d == dirent_empty) ≡ false
        → (is_hidden d || not (equal_bytes (d.name ++ d.ext) name83)) ≡ true
        → named name83 (d ∷ l) ≡ named name83 l
    skipped l more passed = rw (more, passed) refl

    met :
        (l : List Dirent)
        → (first_byte d == dirent_empty) ≡ false
        → (is_hidden d || not (equal_bytes (d.name ++ d.ext) name83)) ≡ false
        → named name83 (d ∷ l) ≡ some d
    met l more this = rw (more, this) refl

equal_bytes_refl : (l : List ℕ) → equal_bytes l l ≡ true
unfolding equal_bytes
equal_bytes_refl [] = refl
equal_bytes_refl (x ∷ xs) = rw (==_refl x) (equal_bytes_refl xs)

named_self :
    (e : Dirent) (es : List Dirent)
    → is_free e ≡ false
    → is_volume_id e ≡ false
    → named (e.name ++ e.ext) (e ∷ es) ≡ some e
unfolding named is_free is_hidden
named_self e es f w =
    let (used, kept) = or-false (first_byte e == dirent_empty) (first_byte e == dirent_deleted) f in
    rw (used, kept, w, equal_bytes_refl (e.name ++ e.ext)) refl

-- A write that succeeds.
status-bad :
    (lba : ℕ) (b : List ℕ) (v : Volume)
    → v.disk.faulty lba ≡ true
    → status (write_sector lba b v) ≡ (err io_error, v)
unfolding status write_sector
status-bad lba b v bad = rw bad refl

status-good :
    (lba : ℕ) (b : List ℕ) (v : Volume)
    → v.disk.faulty lba ≡ false
    → status (write_sector lba b v) ≡ (ok tt, patched lba b v)
unfolding status write_sector patched
status-good lba b v good = rw good refl

err-ok : {x : Fault} {a : Unit {0}} → err x ≡ ok a → ⊥
err-ok e = cc (e)

write_sector-ok :
    (lba : ℕ) (b : List ℕ) (v u : Volume)
    → status (write_sector lba b v) ≡ (ok tt, u)
    → u ≡ patched lba b v
write_sector-ok lba b v u e = elim (Bool-cases (v.disk.faulty lba)) [
  | inl bad ↦ absurd (err-ok (ap (λ r. r.0) (sym (status-bad lba b v bad) ∙ e)))
  | inr good ↦ ap (λ r. r.1) (sym e ∙ status-good lba b v good)
]

-- The sector that was written, where a slot was free.
Written : Dirent → Volume → Volume → List (ℕ × List ℕ) → Type 0
Written e v u ss =
    (lba : ℕ) × (b : List ℕ) × (u ≡ patched lba b v)
    × Replaced e (entries ss) (entries (patch_all lba b ss))

Placed-Written :
    (e : Dirent) (v u : Volume) (ss : List (ℕ × List ℕ)) (x : Walk (ℕ × List ℕ) (Unit {0}))
    (grow : DirIter → Result (Unit {0}) × Volume) (y z : Result (Unit {0}) × Volume)
    → Placed e v ss x
    → (AllTaken (entries ss) → ⊥)
    → elim x [
      | returned slot ↦ status (write_sector (slot.0) (slot.1) v)
      | exhausted it s ↦ grow it
      | broken ↦ y
      | circular ↦ z
    ]
      ≡ (ok tt, u)
    → Written e v u ss
unfolding Written
Placed-Written e v u ss _ grow y z (in_slot lba b here r) free done =
    (lba, b, write_sector-ok lba b v u done, r)
Placed-Written e v u ss _ grow y z (is_full it k) free done = absurd (free k)

found_entry-some :
    (r : Result Found) (e : Dirent)
    → found_entry r ≡ some e
    → (f : Found) × (r ≡ ok f) × (f.found ≡ e)
unfolding found_entry
found_entry-some (ok f) e p = (f, refl, some-injective f.found e p)
found_entry-some (err x) e p = absurd (cc (p))

dir_insert-Written :
    (c : ℕ) (e : Dirent) (ss : List (ℕ × List ℕ)) (v u : Volume)
    → Sized e
    → ((lba : ℕ) → length (v.disk.sectors lba) ≡ 512)
    → Sectors v (dir_iter_init c) ss
    → length ss < dir_fuel v
    → (AllTaken (entries ss) → ⊥)
    → dir_insert c e v ≡ (ok tt, u)
    → Written e v u ss
unfolding dir_insert
dir_insert-Written c e ss v u z whole k lt free done =
    Placed-Written e v u ss (walk (insert_visit e) (dir_fuel v) (dir_iter_init c) tt v)
      (λ it. if c == 0 then (err io_error, v) else grow_directory it e v) (err io_error, v)
      (err endless, v) (walk-Placed e (dir_fuel v) (dir_iter_init c) ss v z whole k lt) free done

length-patch_all :
    (at : ℕ) (b : List ℕ) (ss : List (ℕ × List ℕ)) → length (patch_all at b ss) ≡ length ss
unfolding patch_all
length-patch_all at b [] = refl
length-patch_all at b (s ∷ ss) = ap suc (length-patch_all at b ss)

-- The lookup in the volume with the written sector.
found_after :
    (c lba : ℕ) (b : List ℕ) (e : Dirent) (ss : List (ℕ × List ℕ)) (v : Volume)
    → is_free e ≡ false
    → is_volume_id e ≡ false
    → Sectors v (dir_iter_init c) ss
    → length ss < dir_fuel v
    → dir_lookup c (e.name ++ e.ext) v ≡ err missing
    → Replaced e (entries ss) (entries (patch_all lba b ss))
    → found_entry (dir_lookup c (e.name ++ e.ext) (patched lba b v)) ≡ some e
unfolding found_entry patched dir_fuel
found_after c lba b e ss v f w k lt absent r =
    lookup-named c (e.name ++ e.ext) (patch_all lba b ss) (patched lba b v)
      (Sectors-patched lba b v (dir_iter_init c) ss k) (omega (arith, length-patch_all lba b ss))
    ∙ ap (named (e.name ++ e.ext)) r.is
    ∙ named_before (e.name ++ e.ext) r.before (r.old ∷ r.after) (e ∷ r.after') r.before_taken (
        ap (named (e.name ++ e.ext)) (sym r.was)
        ∙ sym (lookup-named c (e.name ++ e.ext) ss v k lt)
        ∙ ap found_entry absent)
    ∙ named_self e r.after' f w

-- An entry that `dir_insert` stored in a free slot is found, if its name starts with neither 0 nor 0xE5,
-- the marks of a free slot, it is no label, and its fields have their sizes: on a volume whose sectors can
-- be read and whose regions do not overlap, in the root directory or in a subdirectory whose chain ends
-- and lies in the data region, with fewer sectors than the walk has rounds, where no entry had its name,
-- `dir_lookup` of its name then returns the entry itself.
pub dir_lookup-dir_insert :
    (c : ℕ) (e : Dirent) (ss : List (ℕ × List ℕ)) (v u : Volume)
    → Sized e
    → (first_byte e ≢ 0) × (first_byte e ≢ 0xE5)
    → is_volume_id e ≡ false
    → Readable v
    → IsLaidOut v.layout (length v.fat)
    → IsDirectory v c ss
    → length ss < dir_fuel v
    → (AllTaken (entries ss) → ⊥)
    → dir_lookup c (e.name ++ e.ext) v ≡ err missing
    → dir_insert c e v ≡ (ok tt, u)
    → (f : Found) × (dir_lookup c (e.name ++ e.ext) u ≡ ok f) × (f.found ≡ e)
unfolding Written is_free
dir_lookup-dir_insert c e ss v u z marks w r h d lt free absent done =
    let k = IsDirectory-Sectors v c ss r h d in
    let (lba, b, same, p) = dir_insert-Written c e ss v u z r.whole k lt free done in
    found_entry-some (dir_lookup c (e.name ++ e.ext) u) e (
      ap (λ x. found_entry (dir_lookup c (e.name ++ e.ext) x)) same
      ∙ found_after c lba b e ss v (ground (arith, marks)) w k lt absent p)
