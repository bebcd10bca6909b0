-- ===== src/Fat16/File/Patching/ReadBack.antt =====
-- kernel/fs/fat16.c: `fat16_write_at` inside a file, and what `fat16_read_at` then returns.
use mathlib.Core.List.{Memᴰ}
use native.Mathlib.Nat.{div-lt_iff_lt-mul, div-add-mod', mod-lt}
use null_os.Prelude.{
  ℕ, ◌+◌, ◌-◌, ◌*◌, ◌/◌, ◌%◌, ◌^◌, ◌<◌, ◌≤◌, ◌≡◌, sym, ap, ap₂, subst, ◌∙◌, List, [], ◌∷◌, ◌++◌,
  length, take, drop, min, arith, true, false, some, Option, take-append-drop,
}
use null_os.Prelude.Bytes.{store_bytes, take-store_bytes, drop-store_bytes}
use null_os.Fat16.{Volume, bytes_per_cluster}
use null_os.Fat16.Dirent.{Dirent, is_directory, to_8_3}
use null_os.Fat16.Directory.{Result, ok, Found, dir_lookup}
use null_os.Fat16.Table.{Chain, Chain-head, Chain-is_cluster}
use null_os.Fat16.File.{Cursor, seek_grow, write_at, Written, read_at, write_loop}
use null_os.Fat16.File.Reading.{contents, Readable, is_cluster-bounds}
use null_os.Fat16.File.Reading.Whole.{read_at-contents, length-contents, positive_factor}
use null_os.Fat16.File.Writing.{on_disk}
use null_os.Fat16.File.Writing.Clusters.{IsLaidOut, InCluster}
use null_os.Fat16.File.Writing.Commit.{Chain-on_disk}
use null_os.Fat16.File.Patching.Clusters.{OnVolume, Patched, Patched-Readable}
use null_os.Fat16.File.Patching.Loop.{in_file}
use null_os.Fat16.File.Patching.Rounds.{Looped}
use null_os.Fat16.File.Patching.Fuel.{write_loop-WritesAll}
use null_os.Fat16.File.Patching.Seek.{Sought, seek_grow-Sought}
use null_os.Fat16.File.Patching.Whole.{start_at-seek, write_at_entry-in_file, write_at-entry}

-- `l` with `bytes` in place of what stands from `pos` on.
abbrev pub overwritten : (pos : ℕ) → List ℕ → List ℕ → List ℕ
overwritten pos bytes l = take pos l ++ (bytes ++ drop (pos + length bytes) l)

store_bytes-overwritten :
    (pos : ℕ) (bytes l : List ℕ)
    → pos + length bytes ≤ length l
    → store_bytes pos bytes l ≡ overwritten pos bytes l
store_bytes-overwritten pos bytes l fits =
    sym (take-append-drop pos (store_bytes pos bytes l))
    ∙ ap₂ (λ x y. x ++ y) (take-store_bytes pos bytes l) (drop-store_bytes pos bytes l fits)

-- What `fat16_write_at` returns, what the clusters then hold, that no other sector changes (the table
-- and the layout are those of `v`), and what a read at `at` then returns.
pub record WrittenInPlace (v : Volume) (e : Dirent) (cs : List ℕ) (pos at len : ℕ) (bytes : List ℕ)
    (out : Result Written × Volume) : Type 0 where
  pub after : ℕ → List ℕ
  pub result : out ≡ (
    ok (record { written = length bytes; out_first_cluster = e.first_cluster; out_size = e.size }),
    on_disk after v,
  )
  pub holds : contents (on_disk after v) cs ≡ overwritten pos bytes (contents v cs)
  pub others :
      (l : ℕ) → ((d : ℕ) → Memᴰ d cs → InCluster v.layout d l → ⊥) → after l ≡ v.disk.sectors l
  pub reads :
      read_at e.first_cluster at len e.size (on_disk after v)
      ≡ some (take (min len (e.size - at)) (drop at (overwritten pos bytes (contents v cs))))

sum_of_rows : (q n b : ℕ) → (q + n) * b ≡ q * b + n * b
sum_of_rows q n b = grind arith

room_behind :
    (pos len q m n all b : ℕ)
    → q * b + m ≡ pos
    → q + n ≡ all
    → pos + len ≤ all * b
    → m + len ≤ n * b
room_behind pos len q m n all b e f room =
    omega (arith, e, room, sum_of_rows q n b, ap (λ t. t * b) f)

-- The walk and the loop, one after the other.
in_place :
    (v : Volume) (h : IsLaidOut v.layout (length v.fat)) (c pos : ℕ) (bytes ds : List ℕ)
    (sought : Option Cursor × Volume)
    → Readable v
    → pos + length bytes ≤ length (c ∷ ds) * bytes_per_cluster v
    → 1 ≤ bytes_per_cluster v
    → (s : Sought v (pos / bytes_per_cluster v) (c ∷ ds) sought)
    → Looped v v.disk.sectors
        (c ∷ ds)
        pos
        bytes
        (write_loop (length bytes) (pos % bytes_per_cluster v) bytes (in_file v s.place))
in_place v h c pos bytes ds sought r room one s = record {
  after = l.after;
  last = l.last;
  result = l.result;
  patched =
      subst (λ o. Patched v v.disk.sectors (c ∷ ds) o bytes l.after)
        (div-add-mod' pos (bytes_per_cluster v))
        (s.in_whole l.after (pos % bytes_per_cluster v) bytes l.patched);
}
  where
    rest_room :
        pos % bytes_per_cluster v + length bytes ≤ length (s.place ∷ s.behind) * bytes_per_cluster v
    rest_room =
        room_behind pos (length bytes) (pos / bytes_per_cluster v) (pos % bytes_per_cluster v)
          (length (s.place ∷ s.behind)) (length (c ∷ ds)) (bytes_per_cluster v)
          (div-add-mod' pos (bytes_per_cluster v)) s.count room

    l :
        Looped v v.disk.sectors
          (s.place ∷ s.behind)
          (pos % bytes_per_cluster v)
          bytes
          (write_loop (length bytes) (pos % bytes_per_cluster v) bytes (in_file v s.place))
    l =
        write_loop-WritesAll v h (length bytes) v.disk.sectors (pos % bytes_per_cluster v) s.place
          bytes s.behind r s.chain s.on_volume (λ some. mod-lt pos one) rest_room (omega arith)

module _ (parent : ℕ) (name : List ℕ) (pos : ℕ) (bytes : List ℕ) (v : Volume) (f : Found)
    (at len : ℕ) (ready : v.layout.ready ≡ true) (r : Readable v)
    (h : IsLaidOut v.layout (length v.fat)) (found : dir_lookup parent (to_8_3 name) v ≡ ok f)
    (plain : is_directory f.found ≡ false) (one : 1 ≤ length bytes)
    (inside : pos + length bytes ≤ f.found.size) (small : f.found.size < 2 ^ 32)
    (one_read : 1 ≤ len) (no_wrap : at + len < 2 ^ 32) where
  Looped-WrittenInPlace :
      (cs : List ℕ)
      → Chain v f.found.first_cluster cs
      → f.found.size ≤ length cs * bytes_per_cluster v
      → 2 ≤ f.found.first_cluster
      → (s : Sought v
          (pos / bytes_per_cluster v)
          cs
          (seek_grow (pos / bytes_per_cluster v) (in_file v f.found.first_cluster)))
      → Looped v v.disk.sectors cs pos bytes
          (write_loop (length bytes) (pos % bytes_per_cluster v) bytes (in_file v s.place))
      → WrittenInPlace v f.found cs pos at len bytes (write_at parent name pos bytes v)
  unfolding bytes_per_cluster
  Looped-WrittenInPlace cs k fits low s l = record {
    after = l.after;
    result =
        write_at-entry parent name pos bytes v f ready found plain low one inside small
        ∙ write_at_entry-in_file parent (to_8_3 name) f.found pos l.last bytes (in_file v s.place)
            (on_disk l.after v) v (start_at-seek f.found pos v (in_file v s.place) low s.result)
            l.result one inside;
    holds = holds;
    others = l.patched.others;
    reads =
        read_at-contents f.found.first_cluster at len f.found.size cs (on_disk l.after v) ready
          (Patched-Readable l.patched r) (Chain-on_disk v l.after f.found.first_cluster cs k) fits
          one_read no_wrap
        ∙ ap (λ c. some (take (min len (f.found.size - at)) (drop at c))) holds;
  }
    where
      holds : contents (on_disk l.after v) cs ≡ overwritten pos bytes (contents v cs)
      holds =
          l.patched.holds
          ∙ store_bytes-overwritten pos bytes (contents v cs)
              (omega (arith, inside, fits, length-contents cs v r))

  -- `fat16_write_at` of at least one byte that ends inside a file, whose entry the directory has, whose
  -- size is below 2^32 and at most what the clusters of its chain hold, which lie in the data region, on
  -- a mounted volume whose sectors all work and whose regions do not overlap, writes all the bytes: the clusters
  -- of the file then hold the new bytes in place of the old ones from `pos` on and are else as they
  -- were, no sector outside them changes, nor the table, and `fat16_read_at`, of at least one byte and
  -- without overflow, returns the part of the file that it is asked for, with the new bytes in it.
  pub write_at-read_at :
      (cs : List ℕ)
      → Chain v f.found.first_cluster cs
      → OnVolume v.layout cs
      → f.found.size ≤ length cs * bytes_per_cluster v
      → WrittenInPlace v f.found cs pos at len bytes (write_at parent name pos bytes v)
  write_at-read_at [] k on fits = absurd (omega (arith, fits, one, inside))
  write_at-read_at (c ∷ ds) k on fits =
      Looped-WrittenInPlace (c ∷ ds) k fits
        (is_cluster-bounds f.found.first_cluster
          (Chain-is_cluster v f.found.first_cluster c ds k)).0
        sought (in_place v h c pos bytes ds _ r (omega (arith, fits, inside)) some_room sought)
    where
      head : f.found.first_cluster ≡ c
      head = Chain-head v f.found.first_cluster c ds k

      some_room : 1 ≤ bytes_per_cluster v
      some_room =
          positive_factor pos (length (c ∷ ds)) (bytes_per_cluster v)
            (omega (arith, fits, one, inside))

      sought :
          Sought v
            (pos / bytes_per_cluster v)
            (c ∷ ds)
            (seek_grow (pos / bytes_per_cluster v) (in_file v f.found.first_cluster))
      sought =
          subst
            (λ x.
              Sought v (pos / bytes_per_cluster v) (c ∷ ds)
                (seek_grow (pos / bytes_per_cluster v) (in_file v x)))
            (sym head)
            (seek_grow-Sought v h (pos / bytes_per_cluster v) c ds r
              (subst (λ x. Chain v x (c ∷ ds)) head k) on
              ((div-lt_iff_lt-mul some_room).1 (omega (arith, fits, one, inside))))
