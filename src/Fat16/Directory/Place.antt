-- ===== src/Fat16/Directory/Place.antt =====
-- kernel/fs/fat16.c: where `dir_lookup` finds an entry: the sector that it returns, as it is on the
-- disk, and the slot in it.
use null_os.Prelude.{
  ℕ, zero, suc, ◌+◌, ◌≤◌, ◌<◌, ◌≡◌, refl, subst, Bool, true, false, not, ◌||◌, Bool-cases, inl, inr,
  List, ◌++◌, ◌==◌, if◌then◌else◌, leb, arith, none, some,
}
use null_os.Prelude.Bytes.{add_u32}
use null_os.Fat16.{Volume, read_sector, is_cluster, next_cluster, cluster_to_lba}
use null_os.Fat16.Dirent.{dirent_at, per_sector, first_byte, dirent_empty}
use null_os.Fat16.Directory.{
  Result, ok, err, Found, Visit, return, go_on, Walk, returned, exhausted, broken, circular,
  NextSector, sector, end_of_dir, failed, DirIter, sub_read, root_next_sector, dir_iter_next_sector,
  lookup_visit, scan, walk, walk_result, dir_lookup, dir_iter_init, dir_fuel, is_hidden,
  equal_bytes,
}

-- The entry stands in the slot of the sector, and the sector on the disk.
pub record InSlot (v : Volume) (f : Found) : Type 0 where
  pub buffer : f.dir_buf ≡ v.disk.sectors f.found_lba
  pub slot : f.found_index < per_sector
  pub entry_of : f.found ≡ dirent_at f.dir_buf f.found_index

abbrev InSlotResult : Volume → Result Found → Type 0
InSlotResult v (ok f) = InSlot v f
InSlotResult v (err e) = Unit {0}

abbrev InSlotVisit : Volume → Visit (Result Found) (Unit {0}) → Type 0
InSlotVisit v (return r) = InSlotResult v r
InSlotVisit v (go_on s) = Unit {0}

abbrev InSlotWalk : Volume → Walk (Result Found) (Unit {0}) → Type 0
InSlotWalk v (returned r) = InSlotResult v r
InSlotWalk v (exhausted it s) = Unit {0}
InSlotWalk v broken = Unit {0}
InSlotWalk v circular = Unit {0}

module _ (name83 : List ℕ) (v : Volume) (lba : ℕ) (bytes : List ℕ)
    (read : bytes ≡ v.disk.sectors lba) where
  visit-InSlot :
      (i : ℕ) (s : Unit {0})
      → i < per_sector
      → InSlotVisit v (lookup_visit name83 lba bytes i (dirent_at bytes i) s)
  unfolding lookup_visit
  visit-InSlot i s lt = elim (Bool-cases (first_byte (dirent_at bytes i) == dirent_empty)) [
    | inl empty ↦ rw empty tt
    | inr used ↦
        elim (Bool-cases (
          is_hidden (dirent_at bytes i)
          || not (equal_bytes ((dirent_at bytes i).name ++ (dirent_at bytes i).ext) name83))) [
            | inl other ↦ rw (used, other) tt
            | inr same ↦ rw (used, same) (record { buffer = read; slot = lt; entry_of = refl })
          ]
  ]

  after_visit :
      (w : Visit (Result Found) (Unit {0})) (rest : Unit {0} → Visit (Result Found) (Unit {0}))
      → InSlotVisit v w
      → ((s : Unit {0}) → InSlotVisit v (rest s))
      → InSlotVisit v (elim w [ return a ↦ return a | go_on s ↦ rest s ])
  after_visit (return r) rest h k = h
  after_visit (go_on s) rest h k = k s

  scan-InSlot :
      (n i : ℕ) (s : Unit {0})
      → i + n ≤ per_sector
      → InSlotVisit v (scan (lookup_visit name83) n i lba bytes s)
  unfolding scan
  scan-InSlot zero i s le = tt
  scan-InSlot (suc n) i s le =
      after_visit (lookup_visit name83 lba bytes i (dirent_at bytes i) s)
        (λ s'. scan (lookup_visit name83) n (i + 1) lba bytes s') (visit-InSlot i s (omega arith))
        (λ s'. scan-InSlot n (i + 1) s' (omega arith))

-- A sector that the iterator returns is one of the disk.
data SectorRead (v : Volume) : NextSector → Type 0 where
  is_read :
      (lba : ℕ) (bytes : List ℕ) (it : DirIter)
      → bytes ≡ v.disk.sectors lba
      → SectorRead v (sector lba bytes it)
  at_end : SectorRead v end_of_dir
  at_fault : SectorRead v failed

read_either :
    (lba : ℕ) (it : DirIter) (v : Volume)
    → SectorRead v
        (elim (read_sector lba v.disk) [ none ↦ failed | some bytes ↦ sector lba bytes it ])
unfolding read_sector
read_either lba it v = elim (Bool-cases (v.disk.faulty lba)) [
  | inl bad ↦ rw bad at_fault
  | inr good ↦ rw good (is_read lba (v.disk.sectors lba) it refl)
]

chosen_read :
    (b : Bool) (v : Volume) (x y : NextSector)
    → SectorRead v x
    → SectorRead v y
    → SectorRead v (if b then x else y)
chosen_read true v x y h k = h
chosen_read false v x y h k = k

next_sector-SectorRead : (it : DirIter) (v : Volume) → SectorRead v (dir_iter_next_sector it v)
unfolding dir_iter_next_sector root_next_sector sub_read
next_sector-SectorRead it v =
    chosen_read (it.dir_cluster == 0) v _ _
      (chosen_read (leb v.layout.root_sector_count it.root_sector) v _ _ at_end (
        read_either (add_u32 v.layout.root_start_lba it.root_sector)
          (record it { root_sector = it.root_sector + 1 }) v))
      (chosen_read (not (is_cluster it.cluster)) v _ _ at_end (
        chosen_read (leb v.layout.sectors_per_cluster it.cluster_sector) v _ _
          (chosen_read (is_cluster next) v _ _
            (read_either (add_u32 (cluster_to_lba v next) 0)
              (record it { cluster = next; cluster_sector = 0 + 1 }) v)
            at_end)
          (read_either (add_u32 (cluster_to_lba v it.cluster) it.cluster_sector)
            (record it { cluster_sector = it.cluster_sector + 1 }) v)))
  where
    next : ℕ
    next = next_cluster v it.cluster

module _ (name83 : List ℕ) (v : Volume) where
  after_scan :
      (w : Visit (Result Found) (Unit {0})) (rest : Unit {0} → Walk (Result Found) (Unit {0}))
      → InSlotVisit v w
      → ((s : Unit {0}) → InSlotWalk v (rest s))
      → InSlotWalk v (elim w [ return a ↦ returned a | go_on s ↦ rest s ])
  after_scan (return r) rest h k = h
  after_scan (go_on s) rest h k = k s

  after_sector :
      (x : NextSector) (it : DirIter) (s : Unit {0})
      (rest : DirIter → Unit {0} → Walk (Result Found) (Unit {0}))
      → SectorRead v x
      → ((it' : DirIter) (s' : Unit {0}) → InSlotWalk v (rest it' s'))
      → InSlotWalk v (elim x [
        | end_of_dir ↦ exhausted it s
        | failed ↦ broken
        | sector lba bytes it' ↦ elim (scan (lookup_visit name83) per_sector 0 lba bytes s) [
          | return a ↦ returned a
          | go_on s' ↦ rest it' s'
        ]
      ])
  after_sector x it s rest (is_read lba bytes it' h) k =
      after_scan (scan (lookup_visit name83) per_sector 0 lba bytes s) (rest it')
        (scan-InSlot name83 v lba bytes h per_sector 0 s (omega arith)) (k it')
  after_sector x it s rest at_end k = tt
  after_sector x it s rest at_fault k = tt

  walk-InSlot :
      (fuel : ℕ) (it : DirIter) (s : Unit {0})
      → InSlotWalk v (walk (lookup_visit name83) fuel it s v)
  unfolding walk
  walk-InSlot zero it s = tt
  walk-InSlot (suc fuel) it s =
      after_sector (dir_iter_next_sector it v) it s
        (λ it' s'. walk (lookup_visit name83) fuel it' s' v) (next_sector-SectorRead it v)
        (λ it' s'. walk-InSlot fuel it' s')

  result-InSlot :
      (w : Walk (Result Found) (Unit {0})) → InSlotWalk v w → InSlotResult v (walk_result w)
  unfolding walk_result
  result-InSlot (returned r) h = h
  result-InSlot (exhausted it s) h = tt
  result-InSlot broken h = tt
  result-InSlot circular h = tt

  pub dir_lookup-InSlot : (c : ℕ) (f : Found) → dir_lookup c name83 v ≡ ok f → InSlot v f
  unfolding dir_lookup
  dir_lookup-InSlot c f e = subst (InSlotResult v) e (
      result-InSlot (walk (lookup_visit name83) (dir_fuel v) (dir_iter_init c) tt v)
        (walk-InSlot (dir_fuel v) (dir_iter_init c) tt))
