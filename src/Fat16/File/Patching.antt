-- ===== src/Fat16/File/Patching.antt =====
-- kernel/fs/fat16.c: one round of the writing loop of `fat16_write_at`, in a cluster that the file has:
-- the bytes are stored over those of the cluster.
pub mod Clusters
pub mod Part
pub mod Loop
pub mod Rounds
pub mod Fuel
pub mod Seek
pub mod Whole
pub mod ReadBack
use native.Mathlib.Decide.{ℕ_discrete, dec_le}
use null_os.Prelude.{
  ℕ, zero, suc, ◌+◌, ◌-◌, ◌*◌, ◌/◌, ◌%◌, ◌^◌, ◌≤◌, ◌<◌, ◌≡◌, ◌≢◌, refl, sym, ap, ap₂, subst, ◌∙◌,
  Bool, true, false, ◌||◌, Option, none, some, List, [], ◌∷◌, ◌++◌, length, take, drop, replicate,
  min, leb, if◌then◌else◌, ◌==◌, arith, length-append, length-replicate, le→leb, leb_of_lt,
}
use null_os.Prelude.Bytes.{
  add_u32, store_bytes, length-store_bytes, store_bytes_left, store_bytes_right, store_bytes_whole,
}
use null_os.Fat16.{Volume, read_sector, write_sector}
use null_os.Fat16.File.{sector_before, write_part}
use null_os.Fat16.File.Reading.{sectors_bytes, length-sectors_bytes, Readable}
use null_os.Fat16.File.Writing.{
  on_disk, stored_at, write_sector-works, stored_at_self, stored_at_other,
}
use null_os.Fat16.File.Writing.Clusters.{sectors_bytes-agree}

-- The disk after a part of the sector is stored over.
abbrev pub patched_sector : (lba at : ℕ) (part : List ℕ) → Volume → ℕ → List ℕ
patched_sector lba at part v = stored_at lba (store_bytes at part (v.disk.sectors lba)) v

-- A part of one of `n` sectors, over their bytes.
pub sectors_bytes-patched :
    (n j lba at : ℕ) (part : List ℕ) (v : Volume)
    → Readable v
    → j < n
    → lba + n < 2 ^ 32
    → at + length part ≤ 512
    → sectors_bytes n lba (on_disk (patched_sector (lba + j) at part v) v)
      ≡ store_bytes (j * 512 + at) part (sectors_bytes n lba v)
unfolding sectors_bytes
sectors_bytes-patched zero j lba at part v r lt fits inside = absurd (omega arith)
sectors_bytes-patched (suc n) zero lba at part v r lt fits inside =
    ap₂ (λ x y. x ++ y)
      (ap (λ l. stored_at l (store_bytes at part (v.disk.sectors l)) v lba) {x = lba + 0} {y = lba}
          (omega arith)
        ∙ stored_at_self lba (store_bytes at part (v.disk.sectors lba)) v)
      (sectors_bytes-agree n (add_u32 lba 1) (on_disk (patched_sector (lba + 0) at part v) v) v
        (omega arith)
        (λ l le out.
          stored_at_other (lba + 0) l (store_bytes at part (v.disk.sectors (lba + 0))) v
            (λ e. omega (arith, le, e, fits))))
    ∙ sym (
        store_bytes_left at part (v.disk.sectors lba) (sectors_bytes n (add_u32 lba 1) v)
          (omega (arith, r.whole lba)))
    ∙ ap (λ k. store_bytes k part (v.disk.sectors lba ++ sectors_bytes n (add_u32 lba 1) v))
        {x = at} {y = 0 * 512 + at} (omega arith)
sectors_bytes-patched (suc n) (suc j) lba at part v r lt fits inside =
    ap₂ (λ x y. x ++ y)
      (stored_at_other (lba + suc j) lba (store_bytes at part (v.disk.sectors (lba + suc j))) v
        (λ e. omega (arith, e)))
      (ap (λ l. sectors_bytes n (add_u32 lba 1) (on_disk (patched_sector l at part v) v))
          {x = lba + suc j} {y = add_u32 lba 1 + j} (omega arith)
        ∙ sectors_bytes-patched n j (add_u32 lba 1) at part v r (omega arith) (omega arith) inside)
    ∙ sym (
        store_bytes_right (v.disk.sectors lba) (j * 512 + at) part
          (sectors_bytes n (add_u32 lba 1) v))
    ∙ ap (λ k. store_bytes k part (v.disk.sectors lba ++ sectors_bytes n (add_u32 lba 1) v))
        {x = length (v.disk.sectors lba) + (j * 512 + at)} {y = suc j * 512 + at}
        (omega (arith, r.whole lba))

-- A sector that is written whole is not read before.
pub write_part-patched :
    (lba at : ℕ) (part : List ℕ) (v : Volume)
    → Readable v
    → at + length part ≤ 512
    → write_part lba at part false v ≡ (true, on_disk (patched_sector lba at part v) v)
unfolding write_part sector_before read_sector
write_part-patched lba at part v r inside = elim (dec_le 512 (length part)) [
  | yes full ↦
      rw (write_part, sector_before, le→leb 512 (length part) full)
        (ap (λ l. write_sector lba l v) (over_all full)
          ∙ write_sector-works lba (store_bytes at part (v.disk.sectors lba)) v (r.works lba))
  | no some_left ↦
      rw
        (
          write_part,
          sector_before,
          read_sector,
          leb_of_lt 512 (length part) (omega arith),
          r.works lba,
        )
        (write_sector-works lba (store_bytes at part (v.disk.sectors lba)) v (r.works lba))
]
  where
    whole : (l : List ℕ) → length l ≡ 512 → 512 ≤ length part → store_bytes at part l ≡ part
    whole l e full =
        ap (λ k. store_bytes k part l) {x = at} {y = 0} (omega (arith, full, inside))
        ∙ store_bytes_whole part l (omega (arith, e, full, inside))

    over_all :
        512 ≤ length part
        → store_bytes at part (replicate 512 0) ≡ store_bytes at part (v.disk.sectors lba)
    over_all full =
        whole (replicate 512 0) (length-replicate {A = ℕ} 512 0) full
        ∙ sym (whole (v.disk.sectors lba) (r.whole lba) full)
