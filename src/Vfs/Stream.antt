-- ===== src/Vfs/Stream.antt =====
-- kernel/fs/vfs.c: consecutive reads of a file, from the image in memory or from a FAT16 volume.
use mathlib.Core.Option as Option
use native.Mathlib.Decide.{ℕ_discrete}
use null_os.Prelude.{
  ℕ, ◌+◌, ◌-◌, ◌*◌, ◌^◌, ◌≤◌, ◌<◌, ◌≡◌, refl, sym, ap, ◌∙◌, ◌≢◌, Bool, true, false, not, ◌||◌,
  Option, none, some, List, [], ◌∷◌, ◌++◌, ◌==◌, if◌then◌else◌, length, take, drop, min, arith,
  length-take, length-drop, drop-take, take-take, drop-drop, take_split, ==_of_ne,
}
use null_os.Prelude.Bytes.{add_u32, sub_u32}
use null_os.Pipe.{Reply, failed, returned, blocks, again, read_section}
use null_os.Fat16.{bytes_per_cluster}
use null_os.Fat16.Table.{Chain}
use null_os.Fat16.File.Reading.{Readable}
use null_os.Fat16.File.Reading.Data.{read_at-chain_sectors}
use null_os.Fat16.Region.{chain_sectors, bytes_in}
use null_os.Fat16.File.Writing.Clusters.{IsLaidOut}
use null_os.Fat16.File.Patching.Clusters.{OnVolume}
use null_os.Vfs.{
  Backend, ramfs, fat16, pipe_read, pipe_write, no_backend, Fd, Files, read_ramfs, read_fat16,
  vfs_read,
}

-- The bytes of the file behind a descriptor.
pub data Holds (fd : Fd) (s : Files) : List ℕ → Type 0 where
  in_ramfs :
      (bytes : List ℕ)
      → fd.backend ≡ ramfs
      → s.ramfs_image.image ≡ some bytes
      → fd.first + fd.size ≤ length bytes
      → Holds fd s (take fd.size (drop fd.first bytes))
  in_fat16 :
      (cs : List ℕ)
      → fd.backend ≡ fat16
      → s.volume.layout.ready ≡ true
      → Readable s.volume
      → IsLaidOut s.volume.layout (length s.volume.fat)
      → Chain s.volume fd.first cs
      → OnVolume s.volume.layout cs
      → fd.size ≤ length cs * bytes_per_cluster s.volume
      → Holds fd s (take fd.size (bytes_in (chain_sectors s.volume cs)))

abbrev moved : ℕ → Fd → Fd
moved n fd = record fd { pos = fd.pos + n }

-- What is wanted of the rest of the file.
take_rest :
    (n size pos : ℕ) (xs : List ℕ)
    → take n (drop pos (take size xs)) ≡ take (min n (size - pos)) (drop pos xs)
take_rest n size pos xs =
    ap (take n) (drop-take pos size xs) ∙ take-take n (size - pos) (drop pos xs)

read_fat16-lem :
    (n : ℕ) (cs : List ℕ) (fd : Fd) (s : Files)
    → s.volume.layout.ready ≡ true
    → Readable s.volume
    → IsLaidOut s.volume.layout (length s.volume.fat)
    → Chain s.volume fd.first cs
    → OnVolume s.volume.layout cs
    → fd.size ≤ length cs * bytes_per_cluster s.volume
    → 1 ≤ n
    → fd.pos ≤ fd.size
    → fd.size + n < 2 ^ 32
    → read_fat16 n fd s ≡ (
      returned (take n (drop fd.pos (take fd.size (bytes_in (chain_sectors s.volume cs))))),
      moved
          (length (take n (drop fd.pos (take fd.size (bytes_in (chain_sectors s.volume cs))))))
          fd,
    )
unfolding read_fat16
read_fat16-lem n cs fd s ready r h k on fits one le no_wrap =
    rw
      (
        read_at-chain_sectors fd.first fd.pos n fd.size cs s.volume ready r h k on fits one
            (omega arith),
        read_fat16,
      )
      (ap (λ k. (returned out, record fd { pos = k })) {x = add_u32 fd.pos (length out)}
          {y = fd.pos + length out} (omega (arith, length-take m rest))
        ∙ ap (λ l. (returned l, moved (length l) fd))
            (sym (take_rest n fd.size fd.pos (bytes_in (chain_sectors s.volume cs)))))
  where
    m : ℕ
    m = min n (fd.size - fd.pos)

    rest : List ℕ
    rest = drop fd.pos (bytes_in (chain_sectors s.volume cs))

    out : List ℕ
    out = take m rest

read_ramfs-lem :
    (n : ℕ) (bytes : List ℕ) (fd : Fd) (s : Files)
    → s.ramfs_image.image ≡ some bytes
    → fd.first + fd.size ≤ length bytes
    → fd.pos ≤ fd.size
    → fd.size + n < 2 ^ 32
    → read_ramfs n fd s ≡ (
      returned (take n (drop fd.pos (take fd.size (drop fd.first bytes)))),
      moved (length (take n (drop fd.pos (take fd.size (drop fd.first bytes))))) fd,
    )
unfolding read_ramfs
read_ramfs-lem n bytes fd s e fits le no_wrap = elim (ℕ_discrete (fd.size - fd.pos) 0) [
  | yes z ↦
      rw (e, avail, z)
        (ap (λ k. (returned [], record fd { pos = k })) {x = fd.pos} {y = fd.pos + 0} (omega arith)
          ∙ ap (λ l. (returned l, moved (length l) fd))
              (ap (λ k. take k rest) {x = 0} {y = min n (fd.size - fd.pos)} (omega (arith, z))
                ∙ whole))
  | no more ↦
      rw (e, avail, ==_of_ne (fd.size - fd.pos) 0 more)
        (ap (λ l. (returned (take m l), record fd { pos = add_u32 fd.pos m }))
            (sym (drop-drop fd.pos fd.first bytes))
          ∙ ap (λ k. (returned (take m rest), record fd { pos = k })) {x = add_u32 fd.pos m}
              {y = fd.pos + length (take m rest)}
              (omega (
                arith,
                length-take m rest,
                length-drop fd.pos (drop fd.first bytes),
                length-drop fd.first bytes,
              ))
          ∙ ap (λ l. (returned l, moved (length l) fd)) whole)
]
  where
    m : ℕ
    m = min n (fd.size - fd.pos)

    rest : List ℕ
    rest = drop fd.pos (drop fd.first bytes)

    avail : sub_u32 fd.size fd.pos ≡ fd.size - fd.pos
    avail = omega arith

    whole : take m rest ≡ take n (drop fd.pos (take fd.size (drop fd.first bytes)))
    whole = sym (take_rest n fd.size fd.pos (drop fd.first bytes))

-- The guards of `vfs_read` and its choice of a backend.
module _ {A : Type 0} where
  abbrev chosen : Bool → Bool → Backend → (x r f p : A) → A
  chosen u z b x r f p =
      if not u || z
      then x
      else elim b [ ramfs ↦ r | fat16 ↦ f | pipe_read ↦ p | pipe_write ↦ x | no_backend ↦ x ]

  chosen-eq :
      (u z : Bool) (b c : Backend) (x r f p : A)
      → u ≡ true
      → z ≡ false
      → b ≡ c
      → chosen u z b x r f p ≡ chosen true false c x r f p
  chosen-eq u z b c x r f p d e g = λ i. chosen (d i) (e i) (g i) x r f p

vfs_read-chosen :
    (b : Backend) (n : ℕ) (fd : Fd) (s : Files)
    → fd.used ≡ true
    → n ≢ 0
    → fd.backend ≡ b
    → vfs_read n fd s
      ≡ chosen true false b
          (failed, (fd, s))
          ((read_ramfs n fd s).0, ((read_ramfs n fd s).1, s))
          ((read_fat16 n fd s).0, ((read_fat16 n fd s).1, s))
          (
            (read_section fd.first n s.pipes).0,
            (fd, record s { pipes = (read_section fd.first n s.pipes).1 }),
          )
unfolding vfs_read
vfs_read-chosen b n fd s used_fd some_bytes e =
    chosen-eq fd.used (n == 0) fd.backend b (failed, (fd, s))
      ((read_ramfs n fd s).0, ((read_ramfs n fd s).1, s))
      ((read_fat16 n fd s).0, ((read_fat16 n fd s).1, s))
      (
        (read_section fd.first n s.pipes).0,
        (fd, record s { pipes = (read_section fd.first n s.pipes).1 }),
      )
      used_fd (==_of_ne n 0 some_bytes) e

-- One read returns the next bytes of the file, and moves the position past them.
vfs_read-lem :
    (n : ℕ) (fd : Fd) (s : Files) (file : List ℕ)
    → Holds fd s file
    → fd.used ≡ true
    → 1 ≤ n
    → fd.pos ≤ fd.size
    → fd.size + n < 2 ^ 32
    → vfs_read n fd s
      ≡ (returned (take n (drop fd.pos file)), (moved (length (take n (drop fd.pos file))) fd, s))
vfs_read-lem n fd s _ (in_ramfs bytes b e fits) used_fd one le no_wrap =
    vfs_read-chosen ramfs n fd s used_fd (λ z. absurd (omega (arith, z))) b
    ∙ ap (λ p. (p.0, (p.1, s))) (read_ramfs-lem n bytes fd s e fits le no_wrap)
vfs_read-lem n fd s _ (in_fat16 cs b ready r h k on fits) used_fd one le no_wrap =
    vfs_read-chosen fat16 n fd s used_fd (λ z. absurd (omega (arith, z))) b
    ∙ ap (λ p. (p.0, (p.1, s))) (read_fat16-lem n cs fd s ready r h k on fits one le no_wrap)

-- What a read returned, before what the later ones return; no value where one of them returns nothing.
abbrev followed_by :
    (Fd → Files → Option (List ℕ)) → Reply (List ℕ) × (Fd × Files) → Option (List ℕ)
followed_by rest (returned bytes, (fd, s)) = Option.map (λ l. bytes ++ l) (rest fd s)
followed_by rest (failed, _) = none
followed_by rest (blocks, _) = none
followed_by rest (again _, _) = none

-- The bytes of consecutive reads of the given lengths, put together.
pub vfs_reads : List ℕ → Fd → Files → Option (List ℕ)
vfs_reads [] fd s = some []
vfs_reads (n ∷ ns) fd s = followed_by (vfs_reads ns) (vfs_read n fd s)

-- The lengths are positive, and no position wraps around.
pub data Lengths (size : ℕ) : List ℕ → Type 0 where
  no_lengths : Lengths size []
  one_length :
      (n : ℕ) {ns : List ℕ} → 1 ≤ n → size + n < 2 ^ 32 → Lengths size ns → Lengths size (n ∷ ns)

pub total : List ℕ → ℕ
total [] = 0
total (n ∷ ns) = n + total ns

Holds-moved :
    (k : ℕ) (fd : Fd) (s : Files) (file : List ℕ) → Holds fd s file → Holds (moved k fd) s file
Holds-moved k fd s _ (in_ramfs bytes b e fits) = in_ramfs bytes b e fits
Holds-moved k fd s _ (in_fat16 cs b ready r h l on fits) = in_fat16 cs b ready r h l on fits

Holds-length : (fd : Fd) (s : Files) (file : List ℕ) → Holds fd s file → length file ≤ fd.size
Holds-length fd s _ (in_ramfs bytes b e fits) =
    omega (arith, length-take fd.size (drop fd.first bytes))
Holds-length fd s _ (in_fat16 cs b ready r h l on fits) =
    omega (arith, length-take fd.size (bytes_in (chain_sectors s.volume cs)))

-- Consecutive reads, each of at least one byte and without overflow if added to the size, of an open
-- descriptor whose position is at most its size, and whose file lies whole in the image in memory, or is
-- no longer than its ending chain in the data region of a mounted FAT16 volume whose sectors can be read and
-- whose regions do not overlap: together they return the bytes of the file from the position on, as one
-- read of the total length does; nothing is skipped and nothing is read twice.
pub vfs_reads-file :
    (ns file : List ℕ) (fd : Fd) (s : Files)
    → Holds fd s file
    → fd.used ≡ true
    → fd.pos ≤ fd.size
    → Lengths fd.size ns
    → vfs_reads ns fd s ≡ some (take (total ns) (drop fd.pos file))
unfolding vfs_reads total
vfs_reads-file [] file fd s h used_fd le no_lengths = refl
vfs_reads-file (_ ∷ ns) file fd s h used_fd le (one_length n one no_wrap later) =
    ap (followed_by (vfs_reads ns)) (vfs_read-lem n fd s file h used_fd one le no_wrap)
    ∙ ap (Option.map (λ l. bytes ++ l)) (
        vfs_reads-file ns file (moved (length bytes) fd) s (Holds-moved (length bytes) fd s file h)
          used_fd
          (omega (
            arith,
            length-take n (drop fd.pos file),
            length-drop fd.pos file,
            Holds-length fd s file h,
          ))
          later)
    ∙ ap (λ l. some (bytes ++ take (total ns) l)) (sym (drop-drop (length bytes) fd.pos file))
    ∙ ap some (take_split n (total ns) (drop fd.pos file))
  where
    bytes : List ℕ
    bytes = take n (drop fd.pos file)
