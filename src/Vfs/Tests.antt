-- ===== src/Vfs/Tests.antt =====
-- kernel/fs/vfs.c: open files, runs on them, and the theorems at concrete inputs.
use null_os.Prelude.{
  ℕ, ◌+◌, ◌^◌, ◌<◌, ◌≢◌, ◌≡◌, refl, arith, true, false, none, some, List, [], ◌∷◌, ◌++◌, replicate,
  take, drop,
}
use null_os.Process.{empty_slot}
use null_os.Pipe.{Pipes, no_pipe}
use null_os.Fat16.{Volume}
use null_os.Vfs.{
  Ramfs, ramfs, pipe_read, Fd, Files, ramfs_init, ramfs_find, ramfs_scan, same_string, vfs_close,
  vfs_dup,
}
use null_os.Vfs.Ends.{end_refs, vfs_close-vfs_dup}
use null_os.Vfs.Stream.{in_ramfs, no_lengths, one_length, total, vfs_reads, vfs_reads-file}

abbrev no_volume : Volume
no_volume = record {
  layout = record {
    ready = false;
    fat_start_lba = 0;
    root_start_lba = 0;
    data_start_lba = 0;
    root_sector_count = 0;
    sectors_per_cluster = 0;
    fat_size_sectors = 0;
    total_clusters = 0;
    num_fats = 0;
  };
  fat = [];
  disk = record { sectors = λ l. []; faulty = λ l. true };
}

-- An image of one file, "ab", of eight bytes.
abbrev image_bytes : List ℕ
image_bytes =
    (1 ∷ 0 ∷ 0 ∷ 0 ∷ [])
    ++ (97 ∷ 98 ∷ replicate 30 0)
    ++ (44 ∷ 0 ∷ 0 ∷ 0 ∷ 8 ∷ 0 ∷ 0 ∷ 0 ∷ [])
    ++ (10 ∷ 11 ∷ 12 ∷ 13 ∷ 14 ∷ 15 ∷ 16 ∷ 17 ∷ [])

abbrev image : Ramfs
image = record { image = some image_bytes; ramfs_size = 52; ramfs_nfiles = 1 }

-- Pipe 0 has one reader and one writer, and a writer that waits.
abbrev pool : Pipes
pool = record {
  pipes =
      record no_pipe { used = true; read_refs = 1; write_refs = 1; write_waiter = some 3 }
      ∷ replicate 7 no_pipe;
  table = record { procs = replicate 16 empty_slot; current = some 2; next_pid = 5 };
}

abbrev files : Files
files = record { ramfs_image = image; volume = no_volume; pipes = pool }

abbrev ab_file : Fd
ab_file = record {
  used = true;
  backend = ramfs;
  first = 44;
  size = 8;
  pos = 1;
  parent_cluster = 0;
  name = 97 ∷ 98 ∷ [];
}

abbrev reading_end : Fd
reading_end = record ab_file { backend = pipe_read; first = 0; name = [] }

loaded : ramfs_init (some image_bytes) 52 (record image { image = none }) ≡ image
unfolding ramfs_init
loaded = refl

found_entry : ramfs_find (97 ∷ 98 ∷ []) image ≡ some (44, 8)
unfolding ramfs_find ramfs_scan same_string
found_entry = refl

-- The sum of an offset and a size wraps around, and the entry passes the check against the image's size.
abbrev wrapping_image : Ramfs
wrapping_image = record {
  image =
      some ((1 ∷ 0 ∷ 0 ∷ 0 ∷ 97 ∷ replicate 31 0) ++ (255 ∷ 255 ∷ 255 ∷ 255 ∷ 2 ∷ 0 ∷ 0 ∷ 0 ∷ []));
  ramfs_size = 44;
  ramfs_nfiles = 1;
}

wrapping_entry : ramfs_find (97 ∷ []) wrapping_image ≡ some (0xFFFF_FFFF, 2)
unfolding ramfs_find ramfs_scan same_string
wrapping_entry = refl

one_ref : end_refs pipe_read 0 pool ≢ 0
unfolding end_refs
one_ref = λ e. omega (arith, e)

few_refs : end_refs pipe_read 0 pool + 1 < 2 ^ 32
unfolding end_refs
few_refs = omega arith

vfs_close-vfs_dup_example :
    vfs_close reading_end (vfs_dup reading_end files) ≡ (record reading_end { used = false }, files)
vfs_close-vfs_dup_example =
    vfs_close-vfs_dup reading_end files refl (omega arith) refl one_ref few_refs

vfs_reads-file_example :
    vfs_reads (3 ∷ 2 ∷ 10 ∷ []) ab_file files
    ≡ some (take (total (3 ∷ 2 ∷ 10 ∷ [])) (drop 1 (take 8 (drop 44 image_bytes))))
vfs_reads-file_example =
    vfs_reads-file (3 ∷ 2 ∷ 10 ∷ []) (take 8 (drop 44 image_bytes)) ab_file files
      (in_ramfs image_bytes refl refl (omega arith)) refl (omega arith)
      (one_length 3 (omega arith) (omega arith) (
        one_length 2 (omega arith) (omega arith)
          (one_length 10 (omega arith) (omega arith) no_lengths)))
