-- ===== src/Fat16/File/Writing/ReadBack.antt =====
-- kernel/fs/fat16.c: what `fat16_read_at` reads of a file that `fat16_write_file` has written.
use null_os.Prelude.{
  ℕ, ◌+◌, ◌-◌, ◌*◌, ◌^◌, ◌≤◌, ◌<◌, ◌≡◌, sym, ap, subst, ◌∙◌, true, false, some, List, ◌++◌, length,
  take, drop, replicate, min, arith, take-append, drop-append, length-drop, append-nil, take-all,
  take-min,
}
use null_os.Fat16.{Volume, Layout, bytes_per_cluster}
use null_os.Fat16.Table.{AllUsed, Chain}
use null_os.Fat16.Dirent.{is_directory, to_8_3}
use null_os.Fat16.Dirent.Bytes.{Sized}
use null_os.Fat16.Directory.{Result, ok, err, io_error, Found, dir_lookup}
use null_os.Fat16.File.{write_file, read_at}
use null_os.Fat16.File.Reading.{Readable}
use null_os.Fat16.File.Reading.Whole.{read_at-contents}
use null_os.Fat16.File.Writing.{filled}
use null_os.Fat16.File.Writing.Clusters.{IsLaidOut}
use null_os.Fat16.File.Writing.Commit.{Saved}
use null_os.Fat16.File.Writing.Whole.{IsApart, SaveOutcome, saved, no_space, write_file-SaveOutcome}

part_of_filled :
    (m pos len : ℕ) (bytes : List ℕ)
    → length bytes ≤ m
    → take (min len (length bytes - pos)) (drop pos (filled m bytes)) ≡ take len (drop pos bytes)
part_of_filled m pos len bytes fits =
    ap (λ l. take (min len (length bytes - pos)) (drop pos (l ++ zeros))) (take-all m bytes fits)
    ∙ ap (take (min len (length bytes - pos))) (drop-append pos bytes zeros)
    ∙ take-append (min len (length bytes - pos)) (drop pos bytes) (drop (pos - length bytes) zeros)
    ∙ ap
        (λ k.
          take (min len (length bytes - pos)) (drop pos bytes)
          ++ take k (drop (pos - length bytes) zeros))
        {x = min len (length bytes - pos) - length (drop pos bytes)} {y = 0}
        (omega (arith, length-drop pos bytes))
    ∙ append-nil (take (min len (length bytes - pos)) (drop pos bytes))
    ∙ take-min len (length bytes - pos) (drop pos bytes) (omega (arith, length-drop pos bytes))
  where
    zeros : List ℕ
    zeros = replicate (m - length bytes) 0

Saved-read_at :
    (v u : Volume) (f : Found) (bytes cs : List ℕ) (first pos len : ℕ)
    → v.layout.ready ≡ true
    → Saved v f bytes first cs u
    → 1 ≤ len
    → pos + len < 2 ^ 32
    → read_at first pos len (length bytes) u ≡ some (take len (drop pos bytes))
unfolding bytes_per_cluster
Saved-read_at v u f bytes cs first pos len ready s some_len no_wrap =
    read_at-contents first pos len (length bytes) cs u
      (ap (λ (l : Layout). l.ready) s.same_layout ∙ ready) s.readable s.chain
      (subst (λ (l : Layout). length bytes ≤ length cs * (l.sectors_per_cluster * 512))
        (sym s.same_layout) s.fits)
      some_len no_wrap
    ∙ ap (λ l. some (take (min len (length bytes - pos)) (drop pos l))) s.holds
    ∙ ap some (part_of_filled (length cs * bytes_per_cluster v) pos len bytes s.fits)

-- What `fat16_write_file` returns, and what is then read at `pos`.
pub data WriteOutcome (v : Volume) (f : Found) (bytes : List ℕ) (pos len : ℕ)
    : Result (Unit {0}) × Volume → Type 0 where
  readable :
      (first : ℕ) (cs : List ℕ) (u : Volume)
      → Saved v f bytes first cs u
      → read_at first pos len (length bytes) u ≡ some (take len (drop pos bytes))
      → WriteOutcome v f bytes pos len (ok tt, u)
  no_cluster_free :
      (u : Volume)
      → AllUsed u 2 (2 + (v.layout.total_clusters - 2))
      → WriteOutcome v f bytes pos len (err io_error, u)

-- `fat16_write_file` of a file whose entry the directory has and whose old chain ends, on a mounted
-- volume whose sectors all work, whose regions do not overlap, and where the sector of the entry is no part of
-- a table, of a free cluster or of the file: it succeeds, the entry on the disk then leads to a chain
-- that holds the data and zeros behind it, and `fat16_read_at` returns any part of the data; or it
-- fails with no cluster left that is free.
pub write_file-read_at :
    (parent : ℕ) (name bytes : List ℕ) (v : Volume) (f : Found) (old : List ℕ) (pos len : ℕ)
    → v.layout.ready ≡ true
    → Readable v
    → IsLaidOut v.layout (length v.fat)
    → dir_lookup parent (to_8_3 name) v ≡ ok f
    → is_directory f.found ≡ false
    → Sized f.found
    → Chain v f.found.first_cluster old
    → IsApart v old f.found_lba
    → length bytes < 2 ^ 32
    → 1 ≤ len
    → pos + len < 2 ^ 32
    → WriteOutcome v f bytes pos len (write_file parent name bytes v)
write_file-read_at parent name bytes v f old pos len ready r h found plain sized k apart small
      some_len no_wrap =
    outcome (write_file parent name bytes v)
      (write_file-SaveOutcome parent name bytes v f old ready r h found plain sized k apart small)
  where
    outcome :
        (x : Result (Unit {0}) × Volume)
        → SaveOutcome v f bytes x
        → WriteOutcome v f bytes pos len x
    outcome x (saved first cs u s) =
        readable first cs u s (Saved-read_at v u f bytes cs first pos len ready s some_len no_wrap)
    outcome x (no_space u used) = no_cluster_free u used
