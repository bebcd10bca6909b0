-- ===== src/Fat16/Directory/Listing.antt =====
-- kernel/fs/fat16.c: a directory as the list of its entries, and the walks over its sectors as searches
-- of that list.
pub mod Region
pub mod Search
mod Tests
use null_os.Prelude.{ℕ, zero, suc, ◌+◌, ◌<◌, ◌≡◌, refl, ◌∙◌, List, [], ◌∷◌, ◌++◌, length, arith}
use null_os.Fat16.{Volume}
use null_os.Fat16.Dirent.{Dirent, dirent_at, per_sector}
use null_os.Fat16.Directory.{
  missing, Result, err, DirIter, sector, end_of_dir, dir_iter_next_sector, Visit, return, go_on,
  Walk, returned, exhausted, scan, walk, walk_result,
}

-- A place for an entry: its sector, with the bytes there, and its index.
pub record Slot : Type 0 where
  pub slot_lba : ℕ
  pub slot_bytes : List ℕ
  pub slot_index : ℕ

abbrev pub slot_entry : Slot → Dirent
slot_entry x = dirent_at x.slot_bytes x.slot_index

unfoldable pub slots_from : (n i lba : ℕ) → List ℕ → List Slot
slots_from zero i lba bytes = []
slots_from (suc n) i lba bytes =
    record { slot_lba = lba; slot_bytes = bytes; slot_index = i } ∷ slots_from n (i + 1) lba bytes

-- The sectors that the iterator goes through, all of which can be read.
pub data Sectors (v : Volume) : DirIter → List (ℕ × List ℕ) → Type 0 where
  no_more : {it : DirIter} → dir_iter_next_sector it v ≡ end_of_dir → Sectors v it []
  one_more :
      {it : DirIter} {ss : List (ℕ × List ℕ)} (lba : ℕ) (bytes : List ℕ) (it' : DirIter)
      → dir_iter_next_sector it v ≡ sector lba bytes it'
      → Sectors v it' ss
      → Sectors v it ((lba, bytes) ∷ ss)

unfoldable pub slots : List (ℕ × List ℕ) → List Slot
slots [] = []
slots (s ∷ ss) = slots_from per_sector 0 (s.0) (s.1) ++ slots ss

module _ {A S : Type 0} (visit : (lba : ℕ) (bytes : List ℕ) (i : ℕ) → Dirent → S → Visit A S) where
  pub run : List Slot → S → Visit A S
  run [] s = go_on s
  run (x ∷ xs) s = elim (visit x.slot_lba x.slot_bytes x.slot_index (slot_entry x) s) [
    | return a ↦ return a
    | go_on s' ↦ run xs s'
  ]

  -- The rest of a search, where nothing was returned so far.
  abbrev onward : Visit A S → (S → Visit A S) → Visit A S
  onward w f = elim w [ return a ↦ return a | go_on s ↦ f s ]

  onward-congr :
      (w : Visit A S) (f g : S → Visit A S) → ((s : S) → f s ≡ g s) → onward w f ≡ onward w g
  onward-congr (return a) f g h = refl
  onward-congr (go_on s) f g h = h s

  onward_assoc :
      (w : Visit A S) (f g : S → Visit A S) → onward w (λ s. onward (f s) g) ≡ onward (onward w f) g
  onward_assoc (return a) f g = refl
  onward_assoc (go_on s) f g = refl

  pub scan-run :
      (n i lba : ℕ) (bytes : List ℕ) (s : S)
      → scan visit n i lba bytes s ≡ run (slots_from n i lba bytes) s
  unfolding scan run slots_from
  scan-run zero i lba bytes s = refl
  scan-run (suc n) i lba bytes s =
      onward-congr (visit lba bytes i (dirent_at bytes i) s) (scan visit n (i + 1) lba bytes)
        (run (slots_from n (i + 1) lba bytes)) (scan-run n (i + 1) lba bytes)

  run-append : (xs ys : List Slot) (s : S) → run (xs ++ ys) s ≡ onward (run xs s) (run ys)
  unfolding run
  run-append [] ys s = refl
  run-append (x ∷ xs) ys s =
      onward-congr (visit x.slot_lba x.slot_bytes x.slot_index (slot_entry x) s) (run (xs ++ ys))
        (λ s'. onward (run xs s') (run ys)) (run-append xs ys)
      ∙ onward_assoc (visit x.slot_lba x.slot_bytes x.slot_index (slot_entry x) s) (run xs) (run ys)

-- How a walk ends that can read all sectors of the directory.
pub data Searched {A S : Type 0} : Visit A S → Walk A S → Type 0 where
  found : (a : A) → Searched (return a) (returned a)
  searched : (s : S) (it : DirIter) → Searched (go_on s) (exhausted it s)

module _ {A S : Type 0} (visit : (lba : ℕ) (bytes : List ℕ) (i : ℕ) → Dirent → S → Visit A S) where
  pub walk-end :
      (fuel : ℕ) (it : DirIter) (s : S) (v : Volume)
      → dir_iter_next_sector it v ≡ end_of_dir
      → walk visit (suc fuel) it s v ≡ exhausted it s
  unfolding walk
  walk-end fuel it s v e = rw (e, walk) refl

  pub walk-sector :
      (fuel lba : ℕ) (bytes : List ℕ) (it it' : DirIter) (s : S) (v : Volume)
      → dir_iter_next_sector it v ≡ sector lba bytes it'
      → walk visit (suc fuel) it s v ≡ elim (scan visit per_sector 0 lba bytes s) [
        | return a ↦ returned a
        | go_on s' ↦ walk visit fuel it' s' v
      ]
  unfolding walk
  walk-sector fuel lba bytes it it' s v e = rw (e, walk) refl

  nothing : (s : S) (it : DirIter) → Searched (run visit [] s) (exhausted it s)
  unfolding run
  nothing s it = searched s it

  pub walk-Searched :
      (fuel : ℕ) (it : DirIter) (ss : List (ℕ × List ℕ)) (s : S) (v : Volume)
      → Sectors v it ss
      → length ss < fuel
      → Searched (run visit (slots ss) s) (walk visit fuel it s v)
  unfolding slots
  walk-Searched zero it ss s v k lt = absurd (omega arith)
  walk-Searched (suc fuel) it [] s v (no_more e) lt = rw (walk-end fuel it s v e) (nothing s it)
  walk-Searched (suc fuel) it (_ ∷ ss) s v (one_more lba bytes it' e k) lt =
      rw
        (
          walk-sector fuel lba bytes it it' s v e,
          scan-run visit per_sector 0 lba bytes s,
          run-append visit (slots_from per_sector 0 lba bytes) (slots ss) s,
        )
        (go (run visit (slots_from per_sector 0 lba bytes) s)
          (λ s'. walk-Searched fuel it' ss s' v k (omega arith)))
    where
      go :
          (w : Visit A S)
          → ((s' : S) → Searched (run visit (slots ss) s') (walk visit fuel it' s' v))
          → Searched
              (onward visit w (run visit (slots ss)))
              (elim w [ return a ↦ returned a | go_on s' ↦ walk visit fuel it' s' v ])
      go (return a) h = found a
      go (go_on s') h = h s'

-- What a search that returned nothing comes to.
pub outcome : {A S : Type 0} → Visit (Result A) S → Result A
outcome (return r) = r
outcome (go_on s) = err missing

pub walk_result-Searched :
    {A S : Type 0} (w : Visit (Result A) S) (x : Walk (Result A) S)
    → Searched w x
    → walk_result x ≡ outcome w
unfolding walk_result outcome
walk_result-Searched _ _ (found a) = refl
walk_result-Searched _ _ (searched s it) = refl
