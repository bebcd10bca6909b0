-- ===== src/Fat16/File/Patching/Loop.antt =====
-- kernel/fs/fat16.c: the writing loop of `fat16_write_at` over the clusters that the file has.
use native.Mathlib.Decide.{dec_le}
use null_os.Prelude.{
  ℕ, zero, suc, ◌+◌, ◌-◌, ◌/◌, ◌%◌, ◌≤◌, ◌≡◌, ◌≢◌, refl, subst, List, [], ◌∷◌, length, take, drop,
  arith, true, false, some, le→leb, leb_of_lt, ==_of_ne,
}
use null_os.Prelude.Bytes.{add_u32}
use null_os.Fat16.{Volume, cluster_to_lba, bytes_per_cluster, is_cluster, entry}
use null_os.Fat16.Table.{Chain, Chain-head, Chain-tail, Chain-is_cluster}
use null_os.Fat16.File.{Cursor, advance, write_part, write_loop}

-- Where the loops stand in a file that does not grow.
abbrev pub in_file : Volume → ℕ → Cursor
in_file v c = record { volume = v; at_cluster = c; fat_dirty = false; fresh = false }

pub advance-Chain :
    (v u : Volume) (c d : ℕ) (ds : List ℕ)
    → u.fat ≡ v.fat
    → Chain v c (c ∷ d ∷ ds)
    → advance (in_file u c) ≡ (some (in_file u d), u)
unfolding advance
advance-Chain v u c d ds same k =
    rw (advance, same, Chain-head v (entry v c) d ds (Chain-tail v c c (d ∷ ds) k), next_is_cluster)
      refl
  where
    next_is_cluster : is_cluster d ≡ true
    next_is_cluster =
        subst (λ x. is_cluster x ≡ true)
          (Chain-head v (entry v c) d ds (Chain-tail v c c (d ∷ ds) k))
          (Chain-is_cluster v (entry v c) d ds (Chain-tail v c c (d ∷ ds) k))

-- What goes to a sector from its byte `off % 512` on, and what is left.
abbrev pub part : ℕ → List ℕ → List ℕ
part off bytes = take (512 - off % 512) bytes

abbrev pub left : ℕ → List ℕ → List ℕ
left off bytes = drop (512 - off % 512) bytes

-- A round of the loop whose part could be written.
module _ (fuel off b : ℕ) (bytes : List ℕ) (k : Cursor) (u : Volume) where
  abbrev WrittenPart : Type 0
  WrittenPart =
      write_part (add_u32 (cluster_to_lba k.volume k.at_cluster) (off / 512)) (off % 512)
        (part off (b ∷ bytes)) k.fresh k.volume
      ≡ (true, u)

  pub write_loop-here :
      WrittenPart
      → (bytes_per_cluster k.volume ≤ off + length (part off (b ∷ bytes))
          → length (left off (b ∷ bytes)) ≡ 0)
      → write_loop (suc fuel) off (b ∷ bytes) k ≡ (
        length (part off (b ∷ bytes))
            + (write_loop fuel
                (off + length (part off (b ∷ bytes)))
                (left off (b ∷ bytes))
                (record k { volume = u })).0,
        (write_loop fuel
            (off + length (part off (b ∷ bytes)))
            (left off (b ∷ bytes))
            (record k { volume = u })).1,
      )
  unfolding write_loop
  write_loop-here e stays =
      elim (dec_le (bytes_per_cluster k.volume) (off + length (part off (b ∷ bytes)))) [
        | yes over ↦
            rw
              (
                write_loop,
                le→leb (bytes_per_cluster k.volume) (off + length (part off (b ∷ bytes))) over,
                stays over,
                e,
              )
              refl
        | no under ↦
            rw
              (
                write_loop,
                leb_of_lt (bytes_per_cluster k.volume) (off + length (part off (b ∷ bytes)))
                    (omega arith),
                e,
              )
              refl
      ]

  pub write_loop-next :
      (k' : Cursor) (w : Volume)
      → WrittenPart
      → bytes_per_cluster k.volume ≤ off + length (part off (b ∷ bytes))
      → length (left off (b ∷ bytes)) ≢ 0
      → advance (record k { volume = u }) ≡ (some k', w)
      → write_loop (suc fuel) off (b ∷ bytes) k ≡ (
        length (part off (b ∷ bytes)) + (write_loop fuel 0 (left off (b ∷ bytes)) k').0,
        (write_loop fuel 0 (left off (b ∷ bytes)) k').1,
      )
  unfolding write_loop
  write_loop-next k' w e over some_left moves =
      rw
        (
          write_loop,
          le→leb (bytes_per_cluster k.volume) (off + length (part off (b ∷ bytes))) over,
          ==_of_ne (length (left off (b ∷ bytes))) 0 some_left,
          e,
          moves,
          e,
        )
        refl

pub write_loop-nil : (fuel off : ℕ) (k : Cursor) → write_loop fuel off [] k ≡ (0, k)
unfolding write_loop
write_loop-nil zero off k = refl
write_loop-nil (suc fuel) off k = refl
