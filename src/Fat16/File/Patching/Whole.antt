-- ===== src/Fat16/File/Patching/Whole.antt =====
-- kernel/fs/fat16.c: `fat16_write_at` as a whole, where the file does not grow.
use null_os.Prelude.{
  ℕ, ◌+◌, ◌-◌, ◌/◌, ◌%◌, ◌^◌, ◌<◌, ◌≤◌, ◌≡◌, refl, ap, ◌∙◌, List, length, max, arith, Bool, true,
  false, not, ◌||◌, some, if◌then◌else◌, ltb, ◌==◌, ==_of_ne, ==_refl,
}
use null_os.Fat16.{Volume, bytes_per_cluster}
use null_os.Fat16.Dirent.{Dirent, is_directory, to_8_3}
use null_os.Fat16.Directory.{ok, err, Found, dir_lookup, io_error}
use null_os.Fat16.File.{
  Cursor, seek_grow, start_at, write_loop, commit_at, update_after, write_at_entry, write_at,
}
use null_os.Fat16.File.Patching.Loop.{in_file}

pub start_at-seek :
    (e : Dirent) (pos : ℕ) (v : Volume) (k : Cursor)
    → 2 ≤ e.first_cluster
    → seek_grow (pos / bytes_per_cluster v) (in_file v e.first_cluster) ≡ (some k, v)
    → start_at e pos v ≡ (some (e.first_cluster, k), v)
unfolding start_at
start_at-seek e pos v k le s = rw (start_at, below, s, s) refl
  where
    below : ltb e.first_cluster 2 ≡ false
    below = ground arith

commit_at-in_file :
    (parent : ℕ) (name83 : List ℕ) (e : Dirent) (pos n c : ℕ) (u : Volume)
    → 1 ≤ n
    → pos + n ≤ e.size
    → commit_at parent name83 e e.first_cluster pos (n, in_file u c)
      ≡ (ok (record { written = n; out_first_cluster = e.first_cluster; out_size = e.size }), u)
unfolding commit_at update_after
commit_at-in_file parent name83 e pos n c u one inside =
    ap
      (λ size.
        update_after parent name83
          (record { written = n; out_first_cluster = e.first_cluster; out_size = size })
          (not (size == e.size) || not (e.first_cluster == e.first_cluster)) u)
      {x = max e.size (pos + n)} {y = e.size} (ground arith)
    ∙ rw (==_refl e.size, ==_refl e.first_cluster, ==_of_ne n 0 (λ z. omega (arith, z, one))) refl

pub write_at_entry-in_file :
    (parent : ℕ) (name83 : List ℕ) (e : Dirent) (pos c : ℕ) (bytes : List ℕ) (k : Cursor)
    (u v : Volume)
    → start_at e pos v ≡ (some (e.first_cluster, k), v)
    → write_loop (length bytes) (pos % bytes_per_cluster v) bytes k ≡ (length bytes, in_file u c)
    → 1 ≤ length bytes
    → pos + length bytes ≤ e.size
    → write_at_entry parent name83 e pos bytes v ≡ (
      ok (record {
        written = length bytes;
        out_first_cluster = e.first_cluster;
        out_size = e.size;
      }),
      u,
    )
unfolding write_at_entry
write_at_entry-in_file parent name83 e pos c bytes k u v s w one inside =
    rw (write_at_entry, s, w) (commit_at-in_file parent name83 e pos (length bytes) c u one inside)

-- The guards of the function.
is_ready : {A : Type 0} (r : Bool) (x y : A) → r ≡ true → (if not r then x else y) ≡ y
is_ready r x y e = rw e refl

pub write_at-entry :
    (parent : ℕ) (name : List ℕ) (pos : ℕ) (bytes : List ℕ) (v : Volume) (f : Found)
    → v.layout.ready ≡ true
    → dir_lookup parent (to_8_3 name) v ≡ ok f
    → is_directory f.found ≡ false
    → 2 ≤ f.found.first_cluster
    → 1 ≤ length bytes
    → pos + length bytes ≤ f.found.size
    → f.found.size < 2 ^ 32
    → write_at parent name pos bytes v ≡ write_at_entry parent (to_8_3 name) f.found pos bytes v
unfolding write_at
write_at-entry parent name pos bytes v f ready found plain low one inside small =
    rw
      (
        write_at,
        found,
        plain,
        in_size,
        no_wrap,
        has_chain,
        ==_of_ne (length bytes) 0 (λ z. omega (arith, z, one)),
      )
      (is_ready v.layout.ready (err io_error, v)
        (write_at_entry parent (to_8_3 name) f.found pos bytes v) ready)
  where
    in_size : ltb f.found.size pos ≡ false
    in_size = ground arith

    no_wrap : ltb (2 ^ 32 - 1 - pos) (length bytes) ≡ false
    no_wrap = ground arith

    has_chain : ltb f.found.first_cluster 2 ≡ false
    has_chain = ground arith
