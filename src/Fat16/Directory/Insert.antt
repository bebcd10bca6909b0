-- ===== src/Fat16/Directory/Insert.antt =====
-- kernel/fs/fat16.c: an entry that `dir_insert` stores in a free slot is the one that `dir_lookup` finds.
-- Here are the volume with one sector changed, and the search of a sector for a free slot.
pub mod Lookup
pub mod After
use null_os.Prelude.{
  ℕ, zero, suc, ◌+◌, ◌*◌, ◌≤◌, ◌<◌, ◌≡◌, refl, sym, ap, ap₂, subst, ◌∙◌, ◌≢◌, ◌⊎◌, inl, inr, Bool,
  true, false, not, ◌&&◌, ◌||◌, Option, none, some, List, [], ◌∷◌, ◌++◌, map, ◌==◌, if◌then◌else◌,
  length, arith, Bool-cases, leb, ==_iff, ==_refl,
}
use null_os.Prelude.Bytes.{add_u32}
use null_os.Fat16.{
  Volume, Disk, read_sector, write_sector, cluster_to_lba, next_cluster, is_cluster,
}
use null_os.Fat16.Dirent.{
  Dirent, dirent_at, store_dirent, per_sector, dirent_empty, dirent_deleted, first_byte,
}
use null_os.Fat16.Dirent.Bytes.{Sized, dirent_at-store_dirent, dirent_at-store_dirent_before}
use null_os.Fat16.Directory.{
  Fault, missing, io_error, Result, ok, err, DirIter, dir_iter_init, NextSector, sector, end_of_dir,
  failed, root_next_sector, sub_read, dir_iter_next_sector, Visit, return, go_on, Walk, returned,
  exhausted, scan, walk, dir_fuel, is_hidden, equal_bytes, Found, dir_lookup, insert_visit, status,
  dir_insert,
}
use null_os.Fat16.Directory.Listing.{
  Slot, slot_entry, slots_from, Sectors, no_more, one_more, slots, run, scan-run, walk-Searched,
  Searched,
}

-- The volume with other bytes in one sector.
pub patched : ℕ → List ℕ → Volume → Volume
patched at b v = record v {
  disk = record v.disk { sectors = λ l. if l == at then b else v.disk.sectors l };
}

pub patch : ℕ → List ℕ → (lba : ℕ) → List ℕ → List ℕ
patch at b lba bytes = if lba == at then b else bytes

patch_next : ℕ → List ℕ → NextSector → NextSector
patch_next at b (sector lba bytes it) = sector lba (patch at b lba bytes) it
patch_next at b end_of_dir = end_of_dir
patch_next at b failed = failed

root_next_sector-patched :
    (at : ℕ) (b : List ℕ) (it : DirIter) (v : Volume)
    → root_next_sector it (patched at b v) ≡ patch_next at b (root_next_sector it v)
unfolding root_next_sector patched patch_next patch read_sector
root_next_sector-patched at b it v =
    elim (Bool-cases (leb v.layout.root_sector_count it.root_sector)) [
      | inl past ↦ rw past refl
      | inr inside ↦
          elim (Bool-cases (v.disk.faulty (add_u32 v.layout.root_start_lba it.root_sector))) [
            | inl bad ↦ rw (inside, bad) refl
            | inr good ↦ rw (inside, good) refl
          ]
    ]

sub_read-patched :
    (at : ℕ) (b : List ℕ) (it : DirIter) (v : Volume)
    → sub_read it (patched at b v) ≡ patch_next at b (sub_read it v)
unfolding sub_read patched patch_next patch read_sector cluster_to_lba
sub_read-patched at b it v =
    elim (Bool-cases (v.disk.faulty (add_u32 (cluster_to_lba v it.cluster) it.cluster_sector))) [
      | inl bad ↦ rw (bad, sub_read, read_sector) refl
      | inr good ↦ rw (good, sub_read, read_sector) refl
    ]

next_sector_patched :
    (at : ℕ) (b : List ℕ) (it : DirIter) (v : Volume)
    → dir_iter_next_sector it (patched at b v) ≡ patch_next at b (dir_iter_next_sector it v)
unfolding dir_iter_next_sector patch_next patched next_cluster
next_sector_patched at b it v = elim (Bool-cases (it.dir_cluster == 0)) [
  | inl root ↦ rw root (root_next_sector-patched at b it v)
  | inr sub ↦ elim (Bool-cases (is_cluster it.cluster)) [
    | inr stop ↦ rw (sub, stop) refl
    | inl here ↦ elim (Bool-cases (leb v.layout.sectors_per_cluster it.cluster_sector)) [
      | inr more ↦ rw (sub, here, more) (sub_read-patched at b it v)
      | inl full ↦ elim (Bool-cases (is_cluster (next_cluster v it.cluster))) [
        | inr stop ↦ rw (sub, here, full, stop) refl
        | inl next ↦
            rw (sub, here, full, next)
              (sub_read-patched at b
                (record it { cluster = next_cluster v it.cluster; cluster_sector = 0 }) v)
      ]
    ]
  ]
]

pub patch_all : ℕ → List ℕ → List (ℕ × List ℕ) → List (ℕ × List ℕ)
patch_all at b [] = []
patch_all at b (s ∷ ss) = (s.0, patch at b (s.0) (s.1)) ∷ patch_all at b ss

pub Sectors-patched :
    (at : ℕ) (b : List ℕ) (v : Volume) (it : DirIter) (ss : List (ℕ × List ℕ))
    → Sectors v it ss
    → Sectors (patched at b v) it (patch_all at b ss)
unfolding patch_all patch_next
Sectors-patched at b v it [] (no_more e) =
    no_more (next_sector_patched at b it v ∙ ap (patch_next at b) e)
Sectors-patched at b v it (_ ∷ ss) (one_more lba bytes it' e k) =
    one_more lba (patch at b lba bytes) it' (next_sector_patched at b it v ∙ ap (patch_next at b) e)
      (Sectors-patched at b v it' ss k)

-- The bytes of a sector are those that the disk has there: patching them with themselves changes
-- nothing.
patched_self : (lba : ℕ) (v : Volume) → patched lba (v.disk.sectors lba) v ≡ v
unfolding patched
patched_self lba v = λ i. record v { disk = record v.disk { sectors = λ l. same l i } }
  where
    same : (l : ℕ) → (if l == lba then v.disk.sectors lba else v.disk.sectors l) ≡ v.disk.sectors l
    same l = elim (Bool-cases (l == lba)) [
      | inl e ↦ rw e (ap v.disk.sectors (sym ((==_iff l lba).0 e)))
      | inr e ↦ rw e refl
    ]

got : NextSector → List ℕ
got (sector lba bytes it) = bytes
got end_of_dir = []
got failed = []

pub next_sector_bytes :
    (it it' : DirIter) (lba : ℕ) (bytes : List ℕ) (v : Volume)
    → dir_iter_next_sector it v ≡ sector lba bytes it'
    → bytes ≡ v.disk.sectors lba
unfolding got patch_next patch
next_sector_bytes it it' lba bytes v e =
    sym (ap got e)
    ∙ ap (λ u. got (dir_iter_next_sector it u)) (sym (patched_self lba v))
    ∙ ap got (next_sector_patched lba (v.disk.sectors lba) it v)
    ∙ ap (λ x. got (patch_next lba (v.disk.sectors lba) x)) e
    ∙ ap (λ c. if c then v.disk.sectors lba else bytes) (==_refl lba)

-- Entries that are in use, and where the first that is not stands.
unfoldable pub is_free : Dirent → Bool
is_free e = (first_byte e == dirent_empty) || (first_byte e == dirent_deleted)

pub data AllTaken : List Dirent → Type 0 where
  none_taken : AllTaken []
  taken : {e : Dirent} {es : List Dirent} → is_free e ≡ false → AllTaken es → AllTaken (e ∷ es)

pub AllTaken-append : (es fs : List Dirent) → AllTaken es → AllTaken fs → AllTaken (es ++ fs)
AllTaken-append [] fs none_taken h = h
AllTaken-append (e ∷ es) fs (taken t k) h = taken t (AllTaken-append es fs k h)

-- The lists differ from the first free entry on, where the second has `e`.
pub record Replaced (e : Dirent) (es fs : List Dirent) : Type 0 where
  pub before : List Dirent
  pub old : Dirent
  pub after : List Dirent
  pub after' : List Dirent
  pub before_taken : AllTaken before
  pub was : es ≡ before ++ old ∷ after
  pub is : fs ≡ before ++ e ∷ after'

unfoldable pub entries_from : (n i : ℕ) → List ℕ → List Dirent
entries_from zero i bytes = []
entries_from (suc n) i bytes = dirent_at bytes i ∷ entries_from n (i + 1) bytes

-- One sector: its entries before the one at `j` stay when that is stored.
pub data Scanned (e : Dirent) (n i lba : ℕ) (bytes : List ℕ)
    : Visit (ℕ × List ℕ) (Unit {0}) → Type 0 where
  free_at :
      (j : ℕ)
      → i ≤ j
      → Replaced e (entries_from n i bytes) (entries_from n i (store_dirent j e bytes))
      → Scanned e n i lba bytes (return (lba, store_dirent j e bytes))
  all_taken : AllTaken (entries_from n i bytes) → Scanned e n i lba bytes (go_on tt)

scan-free :
    (e : Dirent) (n i lba : ℕ) (bytes : List ℕ)
    → is_free (dirent_at bytes i) ≡ true
    → scan (insert_visit e) (suc n) i lba bytes tt ≡ return (lba, store_dirent i e bytes)
unfolding scan insert_visit is_free
scan-free e n i lba bytes f = rw (f, scan, insert_visit) refl

scan-taken :
    (e : Dirent) (n i lba : ℕ) (bytes : List ℕ)
    → is_free (dirent_at bytes i) ≡ false
    → scan (insert_visit e) (suc n) i lba bytes tt ≡ scan (insert_visit e) n (i + 1) lba bytes tt
unfolding scan insert_visit is_free
scan-taken e n i lba bytes f = rw (f, scan, insert_visit) refl

Scanned-later :
    (e : Dirent) (n i lba : ℕ) (bytes : List ℕ) (w : Visit (ℕ × List ℕ) (Unit {0}))
    → is_free (dirent_at bytes i) ≡ false
    → Scanned e n (i + 1) lba bytes w
    → Scanned e (suc n) i lba bytes w
unfolding entries_from
Scanned-later e n i lba bytes _ f (all_taken k) = all_taken (taken f k)
Scanned-later e n i lba bytes _ f (free_at j le r) = free_at j (omega arith) (record {
  before = dirent_at bytes i ∷ r.before;
  old = r.old;
  after = r.after;
  after' = r.after';
  before_taken = taken f r.before_taken;
  was = ap (◌∷◌ (dirent_at bytes i)) r.was;
  is = ap₂ (λ x l. x ∷ l) (dirent_at-store_dirent_before j i e bytes (omega arith)) r.is;
})

no_entries :
    (e : Dirent) (i lba : ℕ) (bytes : List ℕ)
    → Scanned e 0 i lba bytes (scan (insert_visit e) 0 i lba bytes tt)
unfolding scan entries_from
no_entries e i lba bytes = all_taken none_taken

pub scan-Scanned :
    (e : Dirent) (n i lba : ℕ) (bytes : List ℕ)
    → Sized e
    → (i + n) * 32 ≤ length bytes
    → Scanned e n i lba bytes (scan (insert_visit e) n i lba bytes tt)
unfolding entries_from
scan-Scanned e zero i lba bytes z le = no_entries e i lba bytes
scan-Scanned e (suc n) i lba bytes z le = elim (Bool-cases (is_free (dirent_at bytes i))) [
  | inl f ↦ subst (Scanned e (suc n) i lba bytes) (sym (scan-free e n i lba bytes f)) (
      free_at i (omega arith) (record {
        before = [];
        old = dirent_at bytes i;
        after = entries_from n (i + 1) bytes;
        after' = entries_from n (i + 1) (store_dirent i e bytes);
        before_taken = none_taken;
        was = refl;
        is =
            ap (λ x. x ∷ entries_from n (i + 1) (store_dirent i e bytes))
              (dirent_at-store_dirent i e bytes z (omega arith));
      }))
  | inr f ↦ subst (Scanned e (suc n) i lba bytes) (sym (scan-taken e n i lba bytes f)) (
      Scanned-later e n i lba bytes (scan (insert_visit e) n (i + 1) lba bytes tt) f
        (scan-Scanned e n (i + 1) lba bytes z (omega arith)))
]
