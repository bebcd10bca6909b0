-- ===== src/Fat16/File/Patching/Rounds.antt =====
-- kernel/fs/fat16.c: the rounds of the writing loop of `fat16_write_at`, one after the other.
use mathlib.Core.List.{Memᴰ}
use null_os.Prelude.{
  ℕ, suc, ◌+◌, ◌-◌, ◌/◌, ◌%◌, ◌≤◌, ◌<◌, ◌≡◌, ◌≢◌, refl, ap, subst, ◌∙◌, List, [], ◌∷◌, ◌++◌, length,
  arith, true, false, some, length-take, length-drop, take-append-drop,
}
use null_os.Prelude.Bytes.{add_u32}
use null_os.Fat16.{Volume, cluster_to_lba, bytes_per_cluster, entry}
use null_os.Fat16.Table.{Chain, Chain-head, Chain-tail, Chain-once}
use null_os.Fat16.File.{Cursor, advance, write_part, write_loop}
use null_os.Fat16.File.Reading.{Readable}
use null_os.Fat16.File.Writing.{on_disk}
use null_os.Fat16.File.Writing.Clusters.{IsLaidOut}
use null_os.Fat16.File.Patching.Clusters.{
  OnVolume, Patched, Patched-none, Patched-append, Patched-next, Patched-Readable,
}
use null_os.Fat16.File.Patching.{patched_sector}
use null_os.Fat16.File.Patching.Part.{write_part-round, part-Patched}
use null_os.Fat16.File.Patching.Loop.{
  in_file, advance-Chain, part, left, write_loop-here, write_loop-next, write_loop-nil,
}

-- The loop wrote all the bytes.
pub record Looped (v : Volume) (s : ℕ → List ℕ) (cs : List ℕ) (off : ℕ) (bytes : List ℕ)
    (out : ℕ × Cursor) : Type 0 where
  pub after : ℕ → List ℕ
  pub last : ℕ
  pub result : out ≡ (length bytes, in_file (on_disk after v) last)
  pub patched : Patched v s cs off bytes after

pub Looped-none :
    (v : Volume) (s : ℕ → List ℕ) (cs : List ℕ) (fuel off c : ℕ)
    → Looped v s cs off [] (write_loop fuel off [] (in_file (on_disk s v) c))
Looped-none v s cs fuel off c = record {
  after = s;
  last = c;
  result = write_loop-nil fuel off (in_file (on_disk s v) c);
  patched = Patched-none v s cs off;
}

-- A part, and what is left after it.
Looped-append :
    {v : Volume} {s t : ℕ → List ℕ} {cs : List ℕ} {off : ℕ} {start end bytes : List ℕ}
    {later out : ℕ × Cursor}
    → Patched v s cs off start t
    → (l : Looped v t cs (off + length start) end later) → start ++ end ≡ bytes
    → length start + length end ≡ length bytes
    → out ≡ (length start + later.0, later.1)
    → Looped v s cs off bytes out
Looped-append {v} {s} {t} {cs} {off} {start} {end} {bytes} p l e n o = record {
  after = l.after;
  last = l.last;
  result =
      o
      ∙ ap (λ (r : ℕ × Cursor). (length start + r.0, r.1)) l.result
      ∙ ap (λ k. (k, in_file (on_disk l.after v) l.last)) n;
  patched = subst (λ k. Patched v s cs off k l.after) e (Patched-append p l.patched);
}

Looped-next :
    (v : Volume) (h : IsLaidOut v.layout (length v.fat)) (t : ℕ → List ℕ) (c : ℕ)
    (ds bytes : List ℕ) (out : ℕ × Cursor)
    → Readable (on_disk t v)
    → OnVolume v.layout (c ∷ ds)
    → (Memᴰ c ds → ⊥)
    → Looped v t ds 0 bytes out
    → Looped v t (c ∷ ds) (bytes_per_cluster v) bytes out
Looped-next v h t c ds bytes out r on once l = record {
  after = l.after;
  last = l.last;
  result = l.result;
  patched =
      subst (λ o. Patched v t (c ∷ ds) o bytes l.after) {x = bytes_per_cluster v + 0}
        {y = bytes_per_cluster v} (omega arith) (Patched-next v h c r on once l.patched);
}

pub Chain-at_next :
    (v : Volume) (c d : ℕ) (ds : List ℕ) → Chain v c (c ∷ d ∷ ds) → Chain v d (d ∷ ds)
Chain-at_next v c d ds k =
    subst (λ x. Chain v x (d ∷ ds)) (Chain-head v (entry v c) d ds (Chain-tail v c c (d ∷ ds) k))
      (Chain-tail v c c (d ∷ ds) k)

-- One round: the disk after it, and what it adds to the later rounds.
abbrev pub after_round : Volume → (ℕ → List ℕ) → (c off : ℕ) → List ℕ → ℕ → List ℕ
after_round v s c off bytes =
    patched_sector (cluster_to_lba v c + off / 512) (off % 512) (part off bytes) (on_disk s v)

module _ (v : Volume) (h : IsLaidOut v.layout (length v.fat)) (s : ℕ → List ℕ)
    (r : Readable (on_disk s v)) (fuel off b c : ℕ) (bytes ds : List ℕ) (k : Chain v c (c ∷ ds))
    (on : OnVolume v.layout (c ∷ ds)) (inside : off < bytes_per_cluster v) where
  abbrev now : List ℕ
  now = part off (b ∷ bytes)

  abbrev later : List ℕ
  later = left off (b ∷ bytes)

  abbrev stored : ℕ → List ℕ
  stored = after_round v s c off (b ∷ bytes)

  fits : off % 512 + length now ≤ 512
  fits = omega (arith, length-take (512 - off % 512) (b ∷ bytes))

  pub sizes : length now + length later ≡ length (b ∷ bytes)
  sizes =
      omega (
        arith,
        length-take (512 - off % 512) (b ∷ bytes),
        length-drop (512 - off % 512) (b ∷ bytes),
      )

  pub up_to_end : off + length now ≤ bytes_per_cluster v
  unfolding bytes_per_cluster
  up_to_end = omega (arith, fits, inside)

  once : Memᴰ c ds → ⊥
  once = Chain-once v c ds k

  pub stored-Patched : Patched v s (c ∷ ds) off now stored
  stored-Patched =
      part-Patched v h s r c off now (on c (Memᴰ.head refl)).0 (on c (Memᴰ.head refl)).1 inside fits
        ds on once

  pub stored-Readable : Readable (on_disk stored v)
  stored-Readable = Patched-Readable stored-Patched r

  written :
      write_part (add_u32 (cluster_to_lba v c) (off / 512)) (off % 512) now false (on_disk s v)
      ≡ (true, on_disk stored v)
  written =
      write_part-round v h s r c off now (on c (Memᴰ.head refl)).0 (on c (Memᴰ.head refl)).1 inside
        fits

  pub round-past :
      (k' : Cursor)
      → bytes_per_cluster v ≤ off + length now
      → length later ≢ 0
      → advance (in_file (on_disk stored v) c) ≡ (some k', on_disk stored v)
      → Looped v stored (c ∷ ds) (bytes_per_cluster v) later (write_loop fuel 0 later k')
      → Looped v s
          (c ∷ ds)
          off
          (b ∷ bytes)
          (write_loop (suc fuel) off (b ∷ bytes) (in_file (on_disk s v) c))
  unfolding bytes_per_cluster cluster_to_lba
  round-past k' over some_left moves l =
      Looped-append stored-Patched
        (subst (λ o. Looped v stored (c ∷ ds) o later (write_loop fuel 0 later k'))
          {x = bytes_per_cluster v} {y = off + length now} (omega (arith, over, up_to_end)) l)
        (take-append-drop (512 - off % 512) (b ∷ bytes)) sizes
        (write_loop-next fuel off b bytes (in_file (on_disk s v) c) (on_disk stored v) k'
          (on_disk stored v) written over some_left moves)

  pub round-here :
      (bytes_per_cluster v ≤ off + length now → length later ≡ 0)
      → Looped v stored
          (c ∷ ds)
          (off + length now)
          later
          (write_loop fuel (off + length now) later (in_file (on_disk stored v) c))
      → Looped v s
          (c ∷ ds)
          off
          (b ∷ bytes)
          (write_loop (suc fuel) off (b ∷ bytes) (in_file (on_disk s v) c))
  unfolding bytes_per_cluster cluster_to_lba
  round-here stays l =
      Looped-append stored-Patched l (take-append-drop (512 - off % 512) (b ∷ bytes)) sizes (
        write_loop-here fuel off b bytes (in_file (on_disk s v) c) (on_disk stored v) written stays)

pub round-next :
    (v : Volume) (h : IsLaidOut v.layout (length v.fat)) (s : ℕ → List ℕ)
    (r : Readable (on_disk s v)) (fuel off b c d : ℕ) (bytes ds : List ℕ)
    (k : Chain v c (c ∷ d ∷ ds)) (on : OnVolume v.layout (c ∷ d ∷ ds))
    (inside : off < bytes_per_cluster v)
    → bytes_per_cluster v ≤ off + length (part off (b ∷ bytes))
    → length (left off (b ∷ bytes)) ≢ 0
    → Looped v (after_round v s c off (b ∷ bytes)) (d ∷ ds) 0 (left off (b ∷ bytes)) (
        write_loop fuel 0
          (left off (b ∷ bytes))
          (in_file (on_disk (after_round v s c off (b ∷ bytes)) v) d))
    → Looped v s
        (c ∷ d ∷ ds)
        off
        (b ∷ bytes)
        (write_loop (suc fuel) off (b ∷ bytes) (in_file (on_disk s v) c))
round-next v h s r fuel off b c d bytes ds k on inside over some_left l =
    round-past v h s r fuel off b c bytes (d ∷ ds) k on inside
      (in_file (on_disk (after_round v s c off (b ∷ bytes)) v) d) over some_left
      (advance-Chain v (on_disk (after_round v s c off (b ∷ bytes)) v) c d ds refl k)
      (Looped-next v h (after_round v s c off (b ∷ bytes)) c (d ∷ ds) (left off (b ∷ bytes)) _
        (stored-Readable v h s r fuel off b c bytes (d ∷ ds) k on inside) on
        (Chain-once v c (d ∷ ds) k) l)
