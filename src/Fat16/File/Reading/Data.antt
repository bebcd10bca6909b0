-- ===== src/Fat16/File/Reading/Data.antt =====
-- kernel/fs/fat16.c: `fat16_read_at` against the sectors that the layout of the volume gives a file.
use null_os.Prelude.{
  ℕ, ◌+◌, ◌-◌, ◌*◌, ◌^◌, ◌≤◌, ◌<◌, ◌≡◌, ap, ◌∙◌, true, some, List, length, take, drop, min,
}
use null_os.Fat16.{Volume, bytes_per_cluster}
use null_os.Fat16.Table.{Chain}
use null_os.Fat16.Region.{chain_sectors, bytes_in, contents-chain_sectors}
use null_os.Fat16.File.{read_at}
use null_os.Fat16.File.Reading.{Readable}
use null_os.Fat16.File.Reading.Whole.{read_at-contents}
use null_os.Fat16.File.Writing.Clusters.{IsLaidOut}
use null_os.Fat16.File.Patching.Clusters.{OnVolume}

-- On a mounted volume whose sectors can be read and whose regions do not overlap, `fat16_read_at` of at least
-- one byte, where `pos + len` does not overflow, returns the bytes from `pos` on of the sectors of the
-- file: those of its clusters in the order of the chain, cluster `c` from sector `c - 2` times the
-- sectors of a cluster of the data region on. They are `len` bytes, or as many as stand before the end
-- of the file, of which the size is at most that of the chain.
pub read_at-chain_sectors :
    (first pos len size : ℕ) (cs : List ℕ) (v : Volume)
    → v.layout.ready ≡ true
    → Readable v
    → IsLaidOut v.layout (length v.fat)
    → Chain v first cs
    → OnVolume v.layout cs
    → size ≤ length cs * bytes_per_cluster v
    → 1 ≤ len
    → pos + len < 2 ^ 32
    → read_at first pos len size v
      ≡ some (take (min len (size - pos)) (drop pos (bytes_in (chain_sectors v cs))))
read_at-chain_sectors first pos len size cs v ready r h k on fits some_len no_wrap =
    read_at-contents first pos len size cs v ready r k fits some_len no_wrap
    ∙ ap (λ l. some (take (min len (size - pos)) (drop pos l))) (contents-chain_sectors v cs h on)
