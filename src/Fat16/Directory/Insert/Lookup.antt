-- ===== src/Fat16/Directory/Insert/Lookup.antt =====
-- kernel/fs/fat16.c: what the walk of `dir_insert` finds.
use null_os.Prelude.{
  ℕ, zero, suc, ◌<◌, ◌≡◌, refl, sym, ap, subst, ◌∙◌, List, [], ◌∷◌, ◌++◌, append_assoc, length,
  arith, ==_of_ne, ==_refl,
}
use null_os.Fat16.{Volume}
use null_os.Fat16.Dirent.{Dirent, store_dirent, per_sector}
use null_os.Fat16.Dirent.Bytes.{Sized}
use null_os.Fat16.Directory.{
  DirIter, Visit, return, go_on, Walk, returned, exhausted, scan, walk, insert_visit,
}
use null_os.Fat16.Directory.Listing.{Sectors, no_more, one_more}
use null_os.Fat16.Directory.Listing.{walk-end, walk-sector}
use null_os.Fat16.Directory.Insert.{
  patch, patch_all, next_sector_bytes, AllTaken, none_taken, AllTaken-append, Replaced,
  entries_from, Scanned, free_at, all_taken, scan-Scanned,
}

-- The entries of all sectors.
unfoldable pub entries : List (ℕ × List ℕ) → List Dirent
entries [] = []
entries (s ∷ ss) = entries_from per_sector 0 (s.1) ++ entries ss

Replaced-append :
    (e : Dirent) (es fs gs hs : List Dirent) → Replaced e es fs → Replaced e (es ++ gs) (fs ++ hs)
Replaced-append e es fs gs hs r = record {
  before = r.before;
  old = r.old;
  after = r.after ++ gs;
  after' = r.after' ++ hs;
  before_taken = r.before_taken;
  was = ap (λ l. l ++ gs) r.was ∙ append_assoc r.before (r.old ∷ r.after) gs;
  is = ap (λ l. l ++ hs) r.is ∙ append_assoc r.before (e ∷ r.after') hs;
}

Replaced-prepend :
    (e : Dirent) (es fs gs : List Dirent)
    → AllTaken gs
    → Replaced e es fs
    → Replaced e (gs ++ es) (gs ++ fs)
Replaced-prepend e es fs gs k r = record {
  before = gs ++ r.before;
  old = r.old;
  after = r.after;
  after' = r.after';
  before_taken = AllTaken-append gs r.before k r.before_taken;
  was = ap (λ l. gs ++ l) r.was ∙ sym (append_assoc gs r.before (r.old ∷ r.after));
  is = ap (λ l. gs ++ l) r.is ∙ sym (append_assoc gs r.before (e ∷ r.after'));
}

returns-go_on : {A S : Type 0} {a : A} {s : S} → return a ≡ go_on s → ⊥
returns-go_on e = cc (e)

-- What the walk of `dir_insert` finds: the sector to write, or that all entries are in use.
pub data Placed (e : Dirent) (v : Volume) (ss : List (ℕ × List ℕ))
    : Walk (ℕ × List ℕ) (Unit {0}) → Type 0 where
  in_slot :
      (lba : ℕ) (b : List ℕ)
      → scan (insert_visit e) per_sector 0 lba (v.disk.sectors lba) tt ≡ return (lba, b)
      → Replaced e (entries ss) (entries (patch_all lba b ss))
      → Placed e v ss (returned (lba, b))
  is_full : (it : DirIter) → AllTaken (entries ss) → Placed e v ss (exhausted it tt)

-- A sector with no free slot, before the others.
Placed-taken :
    (e : Dirent) (v : Volume) (lba : ℕ) (bytes : List ℕ) (ss : List (ℕ × List ℕ))
    (x : Walk (ℕ × List ℕ) (Unit {0}))
    → bytes ≡ v.disk.sectors lba
    → scan (insert_visit e) per_sector 0 lba bytes tt ≡ go_on tt
    → AllTaken (entries_from per_sector 0 bytes)
    → Placed e v ss x
    → Placed e v ((lba, bytes) ∷ ss) x
unfolding entries patch_all patch
Placed-taken e v lba bytes ss _ same scanned k (is_full it l) =
    is_full it (AllTaken-append (entries_from per_sector 0 bytes) (entries ss) k l)
Placed-taken e v lba bytes ss _ same scanned k (in_slot at b here r) = in_slot at b here (
    rw (==_of_ne lba at other) (
      Replaced-prepend e (entries ss) (entries (patch_all at b ss))
        (entries_from per_sector 0 bytes) k r))
  where
    other : lba ≡ at → ⊥
    other p = returns-go_on (
        sym here
        ∙ ap (λ l. scan (insert_visit e) per_sector 0 l (v.disk.sectors l) tt) (sym p)
        ∙ ap (λ l. scan (insert_visit e) per_sector 0 lba l tt) (sym same)
        ∙ scanned)

-- The step of the walk, given what the scan of its first sector found.
Placed-sector :
    (e : Dirent) (v : Volume) (lba : ℕ) (bytes : List ℕ) (ss : List (ℕ × List ℕ))
    (w : Visit (ℕ × List ℕ) (Unit {0})) (rest : Unit {0} → Walk (ℕ × List ℕ) (Unit {0}))
    → bytes ≡ v.disk.sectors lba
    → scan (insert_visit e) per_sector 0 lba bytes tt ≡ w
    → Scanned e per_sector 0 lba bytes w
    → Placed e v ss (rest tt)
    → Placed e v ((lba, bytes) ∷ ss) (elim w [ return a ↦ returned a | go_on s ↦ rest s ])
unfolding entries patch_all patch
Placed-sector e v lba bytes ss _ rest same scanned (all_taken k) later =
    Placed-taken e v lba bytes ss (rest tt) same scanned k later
Placed-sector e v lba bytes ss _ rest same scanned (free_at j le r) later =
    in_slot lba (store_dirent j e bytes)
      (subst
        (λ x. scan (insert_visit e) per_sector 0 lba x tt ≡ return (lba, store_dirent j e bytes))
        same scanned)
      (rw (==_refl lba) (
        Replaced-append e (entries_from per_sector 0 bytes)
          (entries_from per_sector 0 (store_dirent j e bytes)) (entries ss)
          (entries (patch_all lba (store_dirent j e bytes) ss)) r))

pub walk-Placed :
    (e : Dirent) (fuel : ℕ) (it : DirIter) (ss : List (ℕ × List ℕ)) (v : Volume)
    → Sized e
    → ((lba : ℕ) → length (v.disk.sectors lba) ≡ 512)
    → Sectors v it ss
    → length ss < fuel
    → Placed e v ss (walk (insert_visit e) fuel it tt v)
unfolding entries
walk-Placed e zero it ss v z whole k lt = absurd (omega arith)
walk-Placed e (suc fuel) it [] v z whole (no_more p) lt =
    subst (Placed e v []) (sym (walk-end (insert_visit e) fuel it tt v p)) (is_full it none_taken)
walk-Placed e (suc fuel) it (_ ∷ ss) v z whole (one_more lba bytes it' p k) lt =
    subst (Placed e v ((lba, bytes) ∷ ss))
      (sym (walk-sector (insert_visit e) fuel lba bytes it it' tt v p))
      (Placed-sector e v lba bytes ss (scan (insert_visit e) per_sector 0 lba bytes tt)
        (λ s. walk (insert_visit e) fuel it' s v) same refl
        (scan-Scanned e per_sector 0 lba bytes z (omega (arith, ap length same, whole lba)))
        (walk-Placed e fuel it' ss v z whole k (omega arith)))
  where
    same : bytes ≡ v.disk.sectors lba
    same = next_sector_bytes it it' lba bytes v p
