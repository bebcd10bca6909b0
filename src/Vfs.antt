-- ===== src/Vfs.antt =====
-- kernel/fs/vfs.c and kernel/ramfs.c: open files over the three things that can lie behind one, the
-- read-only image in memory, a FAT16 volume, and the ends of pipes. The pointers are not null. A read
-- or a write of a pipe is one round of it, as in Pipe.antt, which may block.
pub mod Ends
pub mod Stream
mod Tests
use null_os.Prelude.{
  ℕ, zero, suc, ◌+◌, ◌-◌, ◌*◌, ◌%◌, ◌^◌, Bool, true, false, not, ◌&&◌, ◌||◌, Option, none, some,
  List, [], ◌∷◌, ltb, leb, ◌==◌, if◌then◌else◌, length, get_or, take, drop, min,
}
use null_os.Prelude.Bytes.{get_u32, add_u32, sub_u32}
use null_os.Pipe.{
  Pipes, Reply, failed, returned, blocks, again, read_section, write_section, add_read_ref,
  add_write_ref, release_read, release_write,
}
use null_os.Fat16.{Volume}
use null_os.Fat16.Dirent.{slash}
use null_os.Fat16.Directory.{Fault, missing, io_error, not_directory, endless, Result, ok, err}
use null_os.Fat16.Resolve.{FileFound, find, create, as_error}
use null_os.Fat16.File.{Written, read_at, write_at, write_file}

-- `ramfs_base`, `ramfs_size` and `ramfs_nfiles`; an image is the list of its bytes.
pub record Ramfs : Type 0 where
  pub image : Option (List ℕ)
  pub ramfs_size : ℕ
  pub ramfs_nfiles : ℕ

-- `ramfs_init`, of a pointer that may be null.
pub ramfs_init : Option (List ℕ) → (size : ℕ) → Ramfs → Ramfs
ramfs_init none size r = r
ramfs_init (some bytes) size r =
    if ltb size 4
    then r
    else record { image = some bytes; ramfs_size = size; ramfs_nfiles = get_u32 bytes 0 }

abbrev pub ramfs_entry_size : ℕ
ramfs_entry_size = 40

-- The C string at the start of the bytes is `name`.
pub same_string : (name bytes : List ℕ) → Bool
same_string [] [] = true
same_string [] (b ∷ bs) = b == 0
same_string (a ∷ name) [] = false
same_string (a ∷ name) (b ∷ bs) = (a == b) && same_string name bs

-- The loop over `n` entries from byte `at` of the image on: the offset and the size of the file.
pub ramfs_scan : (n at : ℕ) (name bytes : List ℕ) → Ramfs → Option (ℕ × ℕ)
ramfs_scan zero at name bytes r = none
ramfs_scan (suc n) at name bytes r =
    let offset = get_u32 bytes (at + 32) in
    let size = get_u32 bytes (at + 36) in
    let rest = ramfs_scan n (at + ramfs_entry_size) name bytes r in
    if not (same_string name (drop at bytes))
    then rest
    else (if ltb r.ramfs_size (add_u32 offset size) then none else some (offset, size))

pub ramfs_find : (name : List ℕ) → Ramfs → Option (ℕ × ℕ)
ramfs_find name r = elim r.image [
  | none ↦ none
  | some bytes ↦ ramfs_scan r.ramfs_nfiles 4 name bytes r
]

-- `vfs_backend_t` and `vfs_fd_t`. The name is its characters before the NUL.
pub data Backend : Type 0 where
  no_backend ramfs fat16 pipe_read pipe_write : Backend

pub record Fd : Type 0 where
  pub used : Bool
  pub backend : Backend
  pub first : ℕ
  pub size : ℕ
  pub pos : ℕ
  pub parent_cluster : ℕ
  pub name : List ℕ

-- What the dispatcher calls.
pub record Files : Type 0 where
  pub ramfs_image : Ramfs
  pub volume : Volume
  pub pipes : Pipes

abbrev pub fd_name_max : ℕ
fd_name_max = 31

pub vfs_store_name : List ℕ → List ℕ
vfs_store_name name = take fd_name_max name

-- What follows the last slash of the path; `last` follows the last one so far.
pub last_component : (last path : List ℕ) → List ℕ
last_component last [] = last
last_component last (c ∷ path) =
    let here = last_component path path in
    let before = last_component last path in if c == slash then here else before

pub vfs_store_final_component : List ℕ → List ℕ
vfs_store_final_component path = vfs_store_name (last_component path path)

pub ramfs_fd : (name : List ℕ) (offset size : ℕ) → Fd
ramfs_fd name offset size = record {
  used = true;
  backend = ramfs;
  first = offset;
  size = size;
  pos = 0;
  parent_cluster = 0;
  name = vfs_store_name name;
}

pub fat16_fd : (path : List ℕ) (cluster size parent : ℕ) → Fd
fat16_fd path cluster size parent = record {
  used = true;
  backend = fat16;
  first = cluster;
  size = size;
  pos = 0;
  parent_cluster = parent;
  name = vfs_store_final_component path;
}

-- `vfs_open`: `err` is -1, or no return.
pub open_fat16 : (cwd : ℕ) (path : List ℕ) → Volume → Result Fd
open_fat16 cwd path v = elim (find cwd path v) [
  | err e ↦ as_error e
  | ok f ↦ ok (fat16_fd path f.file_cluster f.file_size f.file_parent)
]

pub vfs_open : (cwd : ℕ) (path : List ℕ) → Files → Result Fd
vfs_open cwd path s = elim (ramfs_find path s.ramfs_image) [
  | some entry ↦ ok (ramfs_fd path (entry.0) (entry.1))
  | none ↦ if s.volume.layout.ready then open_fat16 cwd path s.volume else err io_error
]

-- `vfs_create`: an open file, or one that is made in the volume and then looked up.
pub create_fat16 : (cwd : ℕ) (path : List ℕ) → Volume → Result Fd × Volume
create_fat16 cwd path v =
    let (made, u) = create cwd path v in
    elim made [
      | err e ↦ (as_error e, u)
      | ok parent ↦ elim (find cwd path u) [
        | err e ↦ (as_error e, u)
        | ok f ↦ (ok (fat16_fd path f.file_cluster f.file_size parent), u)
      ]
    ]

pub vfs_create : (cwd : ℕ) (path : List ℕ) → Files → Result Fd × Files
vfs_create cwd path s =
    let (made, u) = create_fat16 cwd path s.volume in
    elim (vfs_open cwd path s) [
      | ok fd ↦ (ok fd, s)
      | err endless ↦ (err endless, s)
      | err _ ↦ if s.volume.layout.ready then (made, record s { volume = u }) else (err io_error, s)
    ]

-- `vfs_read`, of each kind of file.
pub read_ramfs : (len : ℕ) → Fd → Files → Reply (List ℕ) × Fd
read_ramfs len fd s =
    let avail = sub_u32 fd.size fd.pos in
    let n = min len avail in
    elim s.ramfs_image.image [
      | none ↦ (failed, fd)
      | some bytes ↦ if avail == 0 then (returned [], fd) else (
        returned (take n (drop (fd.first + fd.pos) bytes)),
        record fd { pos = add_u32 fd.pos n },
      )
    ]

pub read_fat16 : (len : ℕ) → Fd → Files → Reply (List ℕ) × Fd
read_fat16 len fd s = elim (read_at fd.first fd.pos len fd.size s.volume) [
  | none ↦ (failed, fd)
  | some bytes ↦ (returned bytes, record fd { pos = add_u32 fd.pos (length bytes) })
]

pub vfs_read : (len : ℕ) → Fd → Files → Reply (List ℕ) × (Fd × Files)
vfs_read len fd s =
    let (ram_bytes, ram_fd) = read_ramfs len fd s in
    let (disk_bytes, disk_fd) = read_fat16 len fd s in
    let (pipe_bytes, ps) = read_section fd.first len s.pipes in
    if not fd.used || (len == 0) then (failed, (fd, s)) else elim fd.backend [
      | ramfs ↦ (ram_bytes, (ram_fd, s))
      | fat16 ↦ (disk_bytes, (disk_fd, s))
      | pipe_read ↦ (pipe_bytes, (fd, record s { pipes = ps }))
      | pipe_write ↦ (failed, (fd, s))
      | no_backend ↦ (failed, (fd, s))
    ]

-- `vfs_write`: `written` counts the bytes that a pipe has taken already. A short write of a file is -1;
-- a walk that never ends lets the caller wait for ever.
pub write_fat16 : List ℕ → Fd → Files → Reply ℕ × (Fd × Files)
write_fat16 bytes fd s =
    let (r, v) = write_at fd.parent_cluster fd.name fd.pos bytes s.volume in
    elim r [
      | err endless ↦ (blocks, (fd, record s { volume = v }))
      | err _ ↦ (failed, (fd, record s { volume = v }))
      | ok w ↦ (
        if w.written == length bytes then returned 0 else failed,
        (
          record fd {
            first = w.out_first_cluster;
            size = w.out_size;
            pos = add_u32 fd.pos w.written;
          },
          record s { volume = v },
        ),
      )
    ]

pub vfs_write : (bytes : List ℕ) (written : ℕ) → Fd → Files → Reply ℕ × (Fd × Files)
vfs_write bytes written fd s =
    let (sent, ps) = write_section fd.first bytes written s.pipes in
    let disk = write_fat16 bytes fd s in
    if not fd.used then (failed, (fd, s)) else elim fd.backend [
      | pipe_write ↦ (sent, (fd, record s { pipes = ps }))
      | fat16 ↦ if length bytes == 0 then (returned 0, (fd, s)) else disk
      | ramfs ↦ (failed, (fd, s))
      | pipe_read ↦ (failed, (fd, s))
      | no_backend ↦ (failed, (fd, s))
    ]

pub vfs_write_all : (bytes : List ℕ) → Fd → Files → Result (Unit {0}) × Files
vfs_write_all bytes fd s =
    let (r, v) = write_file fd.parent_cluster fd.name bytes s.volume in
    if not fd.used
    then (err io_error, s)
    else elim fd.backend [ fat16 ↦ (r, record s { volume = v }) | _ ↦ (err io_error, s) ]

-- `vfs_close` and `vfs_dup`.
pub release_end : Fd → Pipes → Pipes
release_end fd ps = elim fd.backend [
  | pipe_read ↦ release_read fd.first ps
  | pipe_write ↦ release_write fd.first ps
  | _ ↦ ps
]

pub vfs_close : Fd → Files → Fd × Files
vfs_close fd s =
    (record fd { used = false }, if fd.used then record s { pipes = release_end fd s.pipes } else s)

pub add_end_ref : Fd → Pipes → Pipes
add_end_ref fd ps = elim fd.backend [
  | pipe_read ↦ add_read_ref fd.first ps
  | pipe_write ↦ add_write_ref fd.first ps
  | _ ↦ ps
]

pub vfs_dup : Fd → Files → Files
vfs_dup fd s = if fd.used then record s { pipes = add_end_ref fd s.pipes } else s
