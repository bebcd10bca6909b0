-- ===== src/Fat16/File/Writing/Flush.antt =====
-- kernel/fs/fat16.c: `fat16_flush_fat` writes the sectors of the tables, and no other.
use native.Mathlib.Decide.{ℕ_discrete}
use null_os.Prelude.{
  ℕ, zero, suc, ◌+◌, ◌*◌, ◌%◌, ◌^◌, ◌≤◌, ◌<◌, ◌≡◌, ◌≢◌, refl, sym, ap, subst, ◌∙◌, ◌⊎◌, inl, inr,
  Bool, true, false, List, [], ◌∷◌, length, take, drop, arith, length-take, length-drop,
  if◌then◌else◌,
}
use null_os.Prelude.Bytes.{add_u32}
use null_os.Fat16.{Volume, Layout, write_sector, bytes_of, flush_copy, flush_copies, flush_fat}
use null_os.Fat16.File.Writing.{
  AllWorks, on_disk, stored_at, write_sector-works, stored_at_self, stored_at_other,
}
use null_os.Fat16.File.Writing.Clusters.{IsLaidOut}

-- The sectors from `lo` to `hi` are written, whole.
pub record Flushed (v : Volume) (lo hi : ℕ) (r : Bool × Volume) : Type 0 where
  pub after : ℕ → List ℕ
  pub result : r ≡ (true, on_disk after v)
  pub others : (l : ℕ) → (l < lo) ⊎ (hi ≤ l) → after l ≡ v.disk.sectors l
  pub sizes : (l : ℕ) → length (v.disk.sectors l) ≡ 512 → length (after l) ≡ 512

length-bytes_of : (ws : List ℕ) → length (bytes_of ws) ≡ 2 * length ws
unfolding bytes_of
length-bytes_of [] = refl
length-bytes_of (w ∷ ws) = omega (arith, length-bytes_of ws)

table_sector : (s : ℕ) → Volume → List ℕ
table_sector s v = bytes_of (take 256 (drop (s * 256) v.fat))

length-table_sector :
    (s : ℕ) (v : Volume) → (s + 1) * 256 ≤ length v.fat → length (table_sector s v) ≡ 512
unfolding table_sector
length-table_sector s v le = omega (
  arith,
  length-bytes_of (take 256 (drop (s * 256) v.fat)),
  length-take 256 (drop (s * 256) v.fat),
  length-drop (s * 256) v.fat,
)

-- One write, and a later part that is flushed.
Flushed-after :
    (v : Volume) (lba hi : ℕ) (bytes : List ℕ) (r : Bool × Volume)
    → length bytes ≡ 512
    → lba < hi
    → Flushed (on_disk (stored_at lba bytes v) v) (lba + 1) hi r
    → Flushed v lba hi r
Flushed-after v lba hi bytes r size lt f = record {
  after = f.after;
  result = f.result;
  others = λ l out. f.others l (further l out) ∙ stored_at_other lba l bytes v (outside l out);
  sizes = λ l e. f.sizes l (elim (ℕ_discrete l lba) [
    | yes same ↦
        ap (λ k. length (stored_at lba bytes v k)) same
        ∙ ap length (stored_at_self lba bytes v)
        ∙ size
    | no other ↦ ap length (stored_at_other lba l bytes v other) ∙ e
  ]);
}
  where
    outside : (l : ℕ) → (l < lba) ⊎ (hi ≤ l) → l ≢ lba
    outside l (inl before) e = omega (arith, before, e)
    outside l (inr beyond) e = omega (arith, beyond, lt, e)

    further : (l : ℕ) → (l < lba) ⊎ (hi ≤ l) → (l < lba + 1) ⊎ (hi ≤ l)
    further l (inl before) = inl (omega (arith, before))
    further l (inr beyond) = inr beyond

Flushed-none : (v : Volume) (lo hi : ℕ) → Flushed v lo hi (true, v)
Flushed-none v lo hi = record {
  after = v.disk.sectors;
  result = refl;
  others = λ l out. refl;
  sizes = λ l e. e;
}

flush_copy-Flushed :
    (n s base : ℕ) (v : Volume)
    → AllWorks v
    → base + s + n < 2 ^ 32
    → (s + n) * 256 ≤ length v.fat
    → Flushed v (base + s) (base + s + n) (flush_copy n s base v)
unfolding flush_copy table_sector
flush_copy-Flushed zero s base v works fits le = Flushed-none v (base + s) (base + s + 0)
flush_copy-Flushed (suc n) s base v works fits le =
    subst (Flushed v (base + s) (base + s + suc n))
      (sym (
        ap (λ (r : Bool × Volume). if r.0 then flush_copy n (s + 1) base r.1 else (false, r.1))
          (ap (λ l. write_sector l (table_sector s v) v) {x = add_u32 base s} {y = base + s}
              (omega arith)
            ∙ write_sector-works (base + s) (table_sector s v) v (works (base + s)))))
      (Flushed-after v (base + s) (base + s + suc n) (table_sector s v)
        (flush_copy n (s + 1) base next) (length-table_sector s v (omega arith)) (omega arith)
        (subst (λ lo. Flushed next lo (base + s + suc n) (flush_copy n (s + 1) base next))
          {x = base + (s + 1)} {y = base + s + 1} (omega arith)
          (subst (λ hi. Flushed next (base + (s + 1)) hi (flush_copy n (s + 1) base next))
            {x = base + (s + 1) + n} {y = base + s + suc n} (omega arith)
            (flush_copy-Flushed n (s + 1) base next works (omega arith) (omega arith)))))
  where
    next : Volume
    next = on_disk (stored_at (base + s) (table_sector s v) v) v

Flushed-both :
    (v : Volume) (lo mid hi : ℕ) (a : ℕ → List ℕ) (r : Bool × Volume)
    → lo ≤ mid
    → mid ≤ hi
    → ((l : ℕ) → (l < lo) ⊎ (mid ≤ l) → a l ≡ v.disk.sectors l)
    → ((l : ℕ) → length (v.disk.sectors l) ≡ 512 → length (a l) ≡ 512)
    → Flushed (on_disk a v) mid hi r
    → Flushed v lo hi r
Flushed-both v lo mid hi a r le le' others sizes f = record {
  after = f.after;
  result = f.result;
  others = λ l out. f.others l (second l out) ∙ others l (first l out);
  sizes = λ l e. f.sizes l (sizes l e);
}
  where
    first : (l : ℕ) → (l < lo) ⊎ (hi ≤ l) → (l < lo) ⊎ (mid ≤ l)
    first l (inl before) = inl before
    first l (inr beyond) = inr (omega (arith, beyond, le'))

    second : (l : ℕ) → (l < lo) ⊎ (hi ≤ l) → (l < mid) ⊎ (hi ≤ l)
    second l (inl before) = inl (omega (arith, before, le))
    second l (inr beyond) = inr beyond

abbrev table_start : Layout → ℕ → ℕ
table_start l f = l.fat_start_lba + f * l.fat_size_sectors

more_tables : (a b n : ℕ) → a ≤ b → a * n ≤ b * n
more_tables a b n le = grind arith

one_table : (f n : ℕ) → (f + 1) * n ≡ f * n + n
one_table f n = grind arith

flush_copies-Flushed :
    (copies f : ℕ) (v : Volume)
    → IsLaidOut v.layout (length v.fat)
    → AllWorks v
    → f + copies ≤ v.layout.num_fats
    → Flushed v
        (table_start v.layout f)
        (table_start v.layout (f + copies))
        (flush_copies copies f v)
unfolding flush_copies
flush_copies-Flushed zero f v h works le =
    Flushed-none v (table_start v.layout f) (table_start v.layout (f + 0))
flush_copies-Flushed (suc copies) f v h works le =
    subst (Flushed v (table_start v.layout f) (table_start v.layout (f + suc copies)))
      (sym (
        ap
          (λ b.
            let r = flush_copy v.layout.fat_size_sectors 0 b v in
            if r.0 then flush_copies copies (f + 1) r.1 else (false, r.1))
          {x = table_start v.layout f % 2 ^ 32} {y = table_start v.layout f}
          (omega (arith, inside, h.no_wrap))
        ∙ ap (λ (r : Bool × Volume). if r.0 then flush_copies copies (f + 1) r.1 else (false, r.1))
            here.result))
      (Flushed-both v (table_start v.layout f) (table_start v.layout (f + 1))
        (table_start v.layout (f + suc copies)) here.after (flush_copies copies (f + 1) next)
        (omega (arith, one_table f v.layout.fat_size_sectors))
        (omega
          (arith, more_tables (f + 1) (f + suc copies) v.layout.fat_size_sectors (omega arith)))
        (λ l out. here.others l (near l out)) here.sizes
        (subst
          (λ k.
            Flushed next (table_start v.layout (f + 1)) (table_start v.layout k)
              (flush_copies copies (f + 1) next))
          {x = f + 1 + copies} {y = f + suc copies} (omega arith)
          (flush_copies-Flushed copies (f + 1) next h works (omega (arith, le)))))
  where
    inside : table_start v.layout f + v.layout.fat_size_sectors ≤ v.layout.data_start_lba
    inside = omega (
      arith,
      h.tables_first,
      one_table f v.layout.fat_size_sectors,
      more_tables (f + 1) v.layout.num_fats v.layout.fat_size_sectors (omega (arith, le)),
    )

    here :
        Flushed v
          (table_start v.layout f + 0)
          (table_start v.layout f + 0 + v.layout.fat_size_sectors)
          (flush_copy v.layout.fat_size_sectors 0 (table_start v.layout f) v)
    here =
        flush_copy-Flushed v.layout.fat_size_sectors 0 (table_start v.layout f) v works
          (omega (arith, inside, h.no_wrap)) (omega (arith, h.whole_table))

    next : Volume
    next = on_disk here.after v

    near :
        (l : ℕ)
        → (l < table_start v.layout f) ⊎ (table_start v.layout (f + 1) ≤ l)
        → (l < table_start v.layout f + 0)
          ⊎ (table_start v.layout f + 0 + v.layout.fat_size_sectors ≤ l)
    near l (inl before) = inl (omega (arith, before))
    near l (inr beyond) = inr (omega (arith, beyond, one_table f v.layout.fat_size_sectors))

-- With every sector working, the tables are written and nothing else.
pub flush_fat-Flushed :
    (v : Volume)
    → IsLaidOut v.layout (length v.fat)
    → AllWorks v
    → Flushed v v.layout.fat_start_lba
        (v.layout.fat_start_lba + v.layout.num_fats * v.layout.fat_size_sectors)
        (flush_fat v)
unfolding flush_fat
flush_fat-Flushed v h works =
    subst
      (λ lo.
        Flushed v lo (v.layout.fat_start_lba + v.layout.num_fats * v.layout.fat_size_sectors)
          (flush_copies v.layout.num_fats 0 v))
      {x = table_start v.layout 0} {y = v.layout.fat_start_lba} (omega arith)
      (subst
        (λ n.
          Flushed v (table_start v.layout 0) (table_start v.layout n)
            (flush_copies v.layout.num_fats 0 v))
        {x = 0 + v.layout.num_fats} {y = v.layout.num_fats} (omega arith)
        (flush_copies-Flushed v.layout.num_fats 0 v h works (omega arith)))
