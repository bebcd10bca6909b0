-- ===== src/Fat16/File/Writing.antt =====
-- kernel/fs/fat16.c: the loop of `fat16_write_file` over the sectors of a cluster: the data, and zeros
-- behind it.
pub mod Clusters
pub mod Links
pub mod Round
pub mod Loop
pub mod Flush
pub mod Commit
pub mod Whole
pub mod ReadBack
use native.Mathlib.Decide.{dec_le, ℕ_discrete}
use null_os.Prelude.{
  ℕ, zero, suc, ◌+◌, ◌-◌, ◌*◌, ◌%◌, ◌^◌, ◌≤◌, ◌<◌, ◌≡◌, ◌≢◌, refl, sym, ap, ap₂, subst, ◌∙◌, ◌⊎◌,
  inl, inr, Bool, true, false, List, [], ◌∷◌, ◌++◌, length, take, drop, replicate, arith,
  append_assoc, append-nil, length-append, length-drop, length-replicate, length-take, take-append,
  take-all, take-nil, drop-all, take-drop_rest, replicate-append, take-replicate, ==_refl, ==_of_ne,
  ◌==◌, if◌then◌else◌, min,
}
use null_os.Prelude.Bytes.{add_u32}
use null_os.Fat16.{Volume, write_sector}
use null_os.Fat16.File.{padded_sector, write_sectors}
use null_os.Fat16.File.Reading.{sectors_bytes}

-- `m` bytes: those given, as far as they go, and zeros.
abbrev pub filled : (m : ℕ) → List ℕ → List ℕ
filled m bytes = take m bytes ++ replicate (m - length bytes) 0

filled-nil : (k : ℕ) → filled k [] ≡ replicate k 0
filled-nil k = ap₂ (λ x n. x ++ replicate n 0) (take-nil k) (omega arith)

filled_short :
    (m : ℕ) (bytes : List ℕ)
    → length bytes ≤ m
    → filled m bytes ≡ bytes ++ replicate (m - length bytes) 0
filled_short m bytes le = ap (λ l. l ++ replicate (m - length bytes) 0) (take-all m bytes le)

filled_long : (m : ℕ) (bytes : List ℕ) → m ≤ length bytes → filled m bytes ≡ take m bytes
filled_long m bytes le =
    ap (λ n. take m bytes ++ replicate n 0) {x = m - length bytes} {y = 0} (omega arith)
    ∙ append-nil (take m bytes)

pub filled-split :
    (m k : ℕ) (bytes : List ℕ) → filled m bytes ++ filled k (drop m bytes) ≡ filled (m + k) bytes
filled-split m k bytes = elim (dec_le (length bytes) m) [
  | yes short ↦
      ap₂ (λ x y. x ++ y) (filled_short m bytes short)
        (ap (λ l. filled k l) (drop-all m bytes short) ∙ filled-nil k)
      ∙ append_assoc bytes (replicate (m - length bytes) 0) (replicate k 0)
      ∙ ap (λ l. bytes ++ l) (replicate-append (m - length bytes) k 0)
      ∙ ap (λ n. bytes ++ replicate n 0) {x = m - length bytes + k} {y = m + k - length bytes}
          (omega arith)
      ∙ sym (filled_short (m + k) bytes (omega arith))
  | no long ↦
      ap (λ l. l ++ filled k (drop m bytes)) (filled_long m bytes (omega arith))
      ∙ sym (
          append_assoc (take m bytes) (take k (drop m bytes))
            (replicate (k - length (drop m bytes)) 0))
      ∙ ap₂ (λ x y. x ++ replicate y 0) (take-drop_rest m k bytes)
          (omega (arith, length-drop m bytes))
]

padded_sector-filled : (bytes : List ℕ) → padded_sector bytes ≡ filled 512 bytes
unfolding padded_sector
padded_sector-filled bytes =
    take-append 512 bytes (replicate 512 0)
    ∙ ap (λ l. take 512 bytes ++ l) (take-replicate (512 - length bytes) 512 0 (omega arith))

pub length-filled : (m : ℕ) (bytes : List ℕ) → length (filled m bytes) ≡ m
length-filled m bytes = omega (
  arith,
  length-append (take m bytes) (replicate (m - length bytes) 0),
  length-take m bytes,
  length-replicate {A = ℕ} (m - length bytes) 0,
)

-- A volume whose disk holds other sectors.
abbrev pub on_disk : (ℕ → List ℕ) → Volume → Volume
on_disk s v = record v { disk = record v.disk { sectors = s } }

abbrev pub AllWorks : Volume → Type 0
AllWorks v = (l : ℕ) → v.disk.faulty l ≡ false

abbrev pub stored_at : (lba : ℕ) (bytes : List ℕ) → Volume → ℕ → List ℕ
stored_at lba bytes v l = if l == lba then bytes else v.disk.sectors l

pub write_sector-works :
    (lba : ℕ) (bytes : List ℕ) (v : Volume)
    → v.disk.faulty lba ≡ false
    → write_sector lba bytes v ≡ (true, on_disk (stored_at lba bytes v) v)
unfolding write_sector
write_sector-works lba bytes v e = rw e refl

pub stored_at_self : (lba : ℕ) (bytes : List ℕ) (v : Volume) → stored_at lba bytes v lba ≡ bytes
stored_at_self lba bytes v = rw (==_refl lba) refl

pub stored_at_other :
    (lba l : ℕ) (bytes : List ℕ) (v : Volume) → l ≢ lba → stored_at lba bytes v l ≡ v.disk.sectors l
stored_at_other lba l bytes v ne = rw (==_of_ne l lba ne) refl

-- What the loop leaves on the disk: the data and zeros in the `n` sectors, and every other sector as
-- it was.
pub record SectorsWritten (n lba : ℕ) (bytes : List ℕ) (v : Volume) : Type 0 where
  pub after : ℕ → List ℕ
  pub result : write_sectors n lba bytes v ≡ (true, on_disk after v)
  pub holds : sectors_bytes n lba (on_disk after v) ≡ filled (n * 512) bytes
  pub others : (l : ℕ) → (l < lba) ⊎ (lba + n ≤ l) → after l ≡ v.disk.sectors l
  pub sizes : (l : ℕ) → length (v.disk.sectors l) ≡ 512 → length (after l) ≡ 512

SectorsWritten-suc :
    (n lba : ℕ) (bytes : List ℕ) (v : Volume)
    → AllWorks v
    → lba + suc n < 2 ^ 32
    → SectorsWritten n
        (add_u32 lba 1)
        (drop 512 bytes)
        (on_disk (stored_at lba (padded_sector bytes) v) v)
    → SectorsWritten (suc n) lba bytes v
unfolding write_sectors sectors_bytes
SectorsWritten-suc n lba bytes v works fits rest = record {
  after = rest.after;
  result =
      ap
        (λ (r : Bool × Volume).
          if r.0 then write_sectors n (add_u32 lba 1) (drop 512 bytes) r.1 else (false, r.1))
        (write_sector-works lba (padded_sector bytes) v (works lba))
      ∙ rest.result;
  holds =
      ap₂ (λ x y. x ++ y) (here ∙ padded_sector-filled bytes) rest.holds
      ∙ filled-split 512 (n * 512) bytes
      ∙ ap (λ m. filled m bytes) {x = 512 + n * 512} {y = suc n * 512} (omega arith);
  others = λ l out.
      rest.others l (further l out) ∙ stored_at_other lba l (padded_sector bytes) v (outside l out);
  sizes = λ l e. rest.sizes l (stored_sizes l e);
}
  where
    next : add_u32 lba 1 ≡ lba + 1
    next = omega arith

    here : rest.after lba ≡ padded_sector bytes
    here = rest.others lba (inl (omega (arith, next))) ∙ stored_at_self lba (padded_sector bytes) v

    outside : (l : ℕ) → (l < lba) ⊎ (lba + suc n ≤ l) → l ≢ lba
    outside l (inl lt) e = omega (arith, lt, e)
    outside l (inr le) e = omega (arith, le, e)

    further :
        (l : ℕ) → (l < lba) ⊎ (lba + suc n ≤ l) → (l < add_u32 lba 1) ⊎ (add_u32 lba 1 + n ≤ l)
    further l (inl lt) = inl (omega (arith, lt, next))
    further l (inr le) = inr (omega (arith, le, next))

    stored_sizes :
        (l : ℕ)
        → length (v.disk.sectors l) ≡ 512
        → length (stored_at lba (padded_sector bytes) v l) ≡ 512
    stored_sizes l e = elim (ℕ_discrete l lba) [
      | yes same ↦
          ap (λ k. length (stored_at lba (padded_sector bytes) v k)) same
          ∙ ap length (stored_at_self lba (padded_sector bytes) v ∙ padded_sector-filled bytes)
          ∙ length-filled 512 bytes
      | no other ↦ ap length (stored_at_other lba l (padded_sector bytes) v other) ∙ e
    ]

pub write_sectors-SectorsWritten :
    (n lba : ℕ) (bytes : List ℕ) (v : Volume)
    → AllWorks v
    → lba + n < 2 ^ 32
    → SectorsWritten n lba bytes v
unfolding write_sectors sectors_bytes
write_sectors-SectorsWritten zero lba bytes v works fits = record {
  after = v.disk.sectors;
  result = refl;
  holds =
      ap (λ k. replicate k 0) {x = 0} {y = 0 - length bytes} (omega arith)
      ∙ ap (λ m. filled m bytes) {x = 0} {y = 0 * 512} (omega arith);
  others = λ l out. refl;
  sizes = λ l e. e;
}
write_sectors-SectorsWritten (suc n) lba bytes v works fits =
    SectorsWritten-suc n lba bytes v works fits (
      write_sectors-SectorsWritten n (add_u32 lba 1) (drop 512 bytes)
        (on_disk (stored_at lba (padded_sector bytes) v) v) works (omega arith))
