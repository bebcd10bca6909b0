-- ===== src/Fat16/File/Patching/Fuel.antt =====
-- kernel/fs/fat16.c: the writing loop of `fat16_write_at` writes everything: the fuel of the model, the
-- number of bytes, is enough.
use native.Mathlib.Decide.{dec_le, ℕ_discrete}
use mathlib.Core.List.{Memᴰ}
use null_os.Prelude.{
  ℕ, zero, suc, ◌+◌, ◌-◌, ◌*◌, ◌%◌, ◌≤◌, ◌<◌, ◌≡◌, ◌≢◌, List, [], ◌∷◌, length, arith, length-drop,
}
use null_os.Fat16.{Volume, bytes_per_cluster}
use null_os.Fat16.Table.{Chain}
use null_os.Fat16.File.{write_loop}
use null_os.Fat16.File.Reading.{Readable}
use null_os.Fat16.File.Writing.{on_disk}
use null_os.Fat16.File.Writing.Clusters.{IsLaidOut}
use null_os.Fat16.File.Patching.Clusters.{OnVolume}
use null_os.Fat16.File.Patching.Loop.{in_file, part, left}
use null_os.Fat16.File.Patching.Rounds.{
  Looped, Looped-none, after_round, sizes, stored-Readable, round-here, round-next, Chain-at_next,
}

-- With this much fuel the loop writes all the bytes, in the clusters that the file has.
abbrev WritesAll : Volume → (fuel : ℕ) → Type 0
WritesAll v fuel =
    (s : ℕ → List ℕ) (off c : ℕ) (bytes ds : List ℕ)
    → Readable (on_disk s v)
    → Chain v c (c ∷ ds)
    → OnVolume v.layout (c ∷ ds)
    → (1 ≤ length bytes → off < bytes_per_cluster v)
    → off + length bytes ≤ length (c ∷ ds) * bytes_per_cluster v
    → length bytes ≤ fuel
    → Looped v s (c ∷ ds) off bytes (write_loop fuel off bytes (in_file (on_disk s v) c))

round-Looped :
    (v : Volume) (h : IsLaidOut v.layout (length v.fat)) (fuel : ℕ)
    → WritesAll v fuel
    → (s : ℕ → List ℕ) (off b c : ℕ) (bytes ds : List ℕ) → Readable (on_disk s v)
    → Chain v c (c ∷ ds)
    → OnVolume v.layout (c ∷ ds)
    → off < bytes_per_cluster v
    → off + length (b ∷ bytes) ≤ length (c ∷ ds) * bytes_per_cluster v
    → length bytes ≤ fuel
    → Looped v s
        (c ∷ ds)
        off
        (b ∷ bytes)
        (write_loop (suc fuel) off (b ∷ bytes) (in_file (on_disk s v) c))
round-Looped v h fuel rest s off b c bytes ds r k on inside room enough =
    elim (dec_le (bytes_per_cluster v) (off + length (part off (b ∷ bytes)))) [
      | no under ↦ here (λ over. absurd (under over)) (λ some. omega (arith, under))
      | yes over ↦ elim (ℕ_discrete (length (left off (b ∷ bytes))) 0) [
        | yes done ↦ here (λ o. done) (λ some. absurd (omega (arith, some, done)))
        | no some_left ↦ past ds k on room over some_left
      ]
    ]
  where
    shorter : length (left off (b ∷ bytes)) ≤ fuel
    shorter = omega (arith, enough, length-drop (512 - off % 512) (b ∷ bytes))

    here :
        (bytes_per_cluster v ≤ off + length (part off (b ∷ bytes))
          → length (left off (b ∷ bytes)) ≡ 0)
        → (1 ≤ length (left off (b ∷ bytes))
            → off + length (part off (b ∷ bytes)) < bytes_per_cluster v)
        → Looped v s
            (c ∷ ds)
            off
            (b ∷ bytes)
            (write_loop (suc fuel) off (b ∷ bytes) (in_file (on_disk s v) c))
    here stays further = round-here v h s r fuel off b c bytes ds k on inside stays (
        rest (after_round v s c off (b ∷ bytes)) (off + length (part off (b ∷ bytes))) c
          (left off (b ∷ bytes)) ds (stored-Readable v h s r fuel off b c bytes ds k on inside) k on
          further (omega (arith, room, sizes v h s r fuel off b c bytes ds k on inside)) shorter)

    past :
        (es : List ℕ)
        → Chain v c (c ∷ es)
        → OnVolume v.layout (c ∷ es)
        → off + length (b ∷ bytes) ≤ length (c ∷ es) * bytes_per_cluster v
        → bytes_per_cluster v ≤ off + length (part off (b ∷ bytes))
        → length (left off (b ∷ bytes)) ≢ 0
        → Looped v s
            (c ∷ es)
            off
            (b ∷ bytes)
            (write_loop (suc fuel) off (b ∷ bytes) (in_file (on_disk s v) c))
    past [] k' on' room' over some_left =
        absurd
          (omega (arith, room', over, some_left, sizes v h s r fuel off b c bytes [] k' on' inside))
    past (d ∷ es) k' on' room' over some_left =
        round-next v h s r fuel off b c d bytes es k' on' inside over some_left (
          rest (after_round v s c off (b ∷ bytes)) 0 d (left off (b ∷ bytes)) es
            (stored-Readable v h s r fuel off b c bytes (d ∷ es) k' on' inside)
            (Chain-at_next v c d es k') (λ x m. on' x (Memᴰ.tail m)) (λ some. omega (arith, inside))
            (omega (arith, room', over, sizes v h s r fuel off b c bytes (d ∷ es) k' on' inside))
            shorter)

pub write_loop-WritesAll :
    (v : Volume) (h : IsLaidOut v.layout (length v.fat)) (fuel : ℕ) → WritesAll v fuel
write_loop-WritesAll v h fuel s off c [] ds r k on inside room enough =
    Looped-none v s (c ∷ ds) fuel off c
write_loop-WritesAll v h zero s off c (b ∷ bytes) ds r k on inside room enough =
    absurd (omega arith)
write_loop-WritesAll v h (suc fuel) s off c (b ∷ bytes) ds r k on inside room enough =
    round-Looped v h fuel (write_loop-WritesAll v h fuel) s off b c bytes ds r k on
      (inside (omega arith)) room (omega arith)
