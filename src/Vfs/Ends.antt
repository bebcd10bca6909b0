-- ===== src/Vfs/Ends.antt =====
-- kernel/fs/vfs.c: `vfs_dup` and `vfs_close` count the copies of a pipe's end.
use null_os.Prelude.{ℕ, ◌+◌, ◌^◌, ◌<◌, ◌≡◌, refl, ap, ◌∙◌, ◌≢◌, true, false, length, if◌then◌else◌}
use null_os.Pipe.{Pipes, pipe_at, pipe_max}
use null_os.Pipe.Copies.{release_read-add_read_ref, release_write-add_write_ref}
use null_os.Vfs.{
  Backend, no_backend, ramfs, fat16, pipe_read, pipe_write, Fd, Files, release_end, vfs_close,
  add_end_ref, vfs_dup,
}

-- How many references the end has that the descriptor stands for; what is no pipe has itself.
unfoldable pub end_refs : Backend → ℕ → Pipes → ℕ
end_refs pipe_read i ps = (pipe_at ps i).read_refs
end_refs pipe_write i ps = (pipe_at ps i).write_refs
end_refs no_backend i ps = 1
end_refs ramfs i ps = 1
end_refs fat16 i ps = 1

release_end-add_end_ref :
    (b : Backend) (fd : Fd) (ps : Pipes)
    → fd.backend ≡ b
    → length ps.pipes ≡ pipe_max
    → fd.first < pipe_max
    → end_refs b fd.first ps ≢ 0
    → end_refs b fd.first ps + 1 < 2 ^ 32
    → release_end fd (add_end_ref fd ps) ≡ ps
unfolding release_end add_end_ref end_refs
release_end-add_end_ref no_backend fd ps e len inside held few = rw e refl
release_end-add_end_ref ramfs fd ps e len inside held few = rw e refl
release_end-add_end_ref fat16 fd ps e len inside held few = rw e refl
release_end-add_end_ref pipe_read fd ps e len inside held few =
    rw e (release_read-add_read_ref fd.first ps len inside held few)
release_end-add_end_ref pipe_write fd ps e len inside held few =
    rw e (release_write-add_write_ref fd.first ps len inside held few)

vfs_dup-used :
    (fd : Fd) (s : Files)
    → fd.used ≡ true
    → vfs_dup fd s ≡ record s { pipes = add_end_ref fd s.pipes }
unfolding vfs_dup
vfs_dup-used fd s e = ap (λ b. if b then record s { pipes = add_end_ref fd s.pipes } else s) e

vfs_close-used :
    (fd : Fd) (s : Files)
    → fd.used ≡ true
    → vfs_close fd s ≡ (record fd { used = false }, record s { pipes = release_end fd s.pipes })
unfolding vfs_close
vfs_close-used fd s e =
    ap
      (λ b.
        (record fd { used = false }, if b then record s { pipes = release_end fd s.pipes } else s))
      e

-- Closing one copy of an open descriptor undoes what `vfs_dup` counted for it: the pool of pipes, their
-- waiters and the process table are again what they were before the copy was made. The descriptor's
-- end is held, in a pool of all pipes, fewer than 2^32 - 1 times.
pub vfs_close-vfs_dup :
    (fd : Fd) (s : Files)
    → length s.pipes.pipes ≡ pipe_max
    → fd.first < pipe_max
    → fd.used ≡ true
    → end_refs fd.backend fd.first s.pipes ≢ 0
    → end_refs fd.backend fd.first s.pipes + 1 < 2 ^ 32
    → vfs_close fd (vfs_dup fd s) ≡ (record fd { used = false }, s)
vfs_close-vfs_dup fd s len inside open_fd held few =
    ap (vfs_close fd) (vfs_dup-used fd s open_fd)
    ∙ vfs_close-used fd (record s { pipes = add_end_ref fd s.pipes }) open_fd
    ∙ ap (λ ps. (record fd { used = false }, record s { pipes = ps }))
        (release_end-add_end_ref fd.backend fd s.pipes refl len inside held few)
