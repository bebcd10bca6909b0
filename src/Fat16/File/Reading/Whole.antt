-- ===== src/Fat16/File/Reading/Whole.antt =====
-- kernel/fs/fat16.c: `fat16_read_at` as a whole: the seek, and what is read from there on.
use native.Mathlib.Decide.{dec_le}
use null_os.Prelude.{
  ℕ, zero, suc, ◌+◌, ◌-◌, ◌*◌, ◌/◌, ◌%◌, ◌^◌, ◌≤◌, ◌<◌, ◌≡◌, refl, sym, ap, ◌∙◌, Bool, true, false,
  not, ◌||◌, if◌then◌else◌, ltb, leb, ◌==◌, Option, none, some, List, [], ◌∷◌, ◌++◌, length, take,
  drop, arith, min, length-append, drop-append, drop-drop, drop-all, length-drop, drop-nil,
  ==_of_ne, leb_of_lt, le→leb, le→leb,
}
use null_os.Prelude.Bytes.{add_u32}
use null_os.Fat16.{Volume, next_cluster, bytes_per_cluster, chain_end}
use null_os.Fat16.Table.{Chain, Chain-is_cluster}
use null_os.Fat16.File.{seek, read_clusters, read_at}
use null_os.Fat16.File.Reading.{cluster_bytes, contents, Readable, is_cluster-bounds, Chain-next}
use null_os.Fat16.File.Reading.Clusters.{length-cluster_bytes, read_clusters-eq}
use native.Mathlib.Nat.{div-lt_iff_lt-mul, div-add-mod', mod-lt}

-- The walk to the cluster of a byte.
pub length-contents :
    (cs : List ℕ) (v : Volume)
    → Readable v
    → length (contents v cs) ≡ length cs * bytes_per_cluster v
unfolding contents
length-contents [] v r = omega arith
length-contents (c ∷ cs) v r = omega (
  arith,
  length-append (cluster_bytes v c) (contents v cs),
  length-cluster_bytes c v r,
  length-contents cs v r,
)

data Seeking (v : Volume) (n : ℕ) (cs : List ℕ) : Option ℕ → Type 0 where
  found : (c : ℕ) → Chain v c (drop n cs) → Seeking v n cs (some c)

seek-Seeking :
    (n c : ℕ) (cs : List ℕ) (v : Volume)
    → Chain v c cs
    → n < length cs
    → Seeking v n cs (seek n c v)
unfolding seek
seek-Seeking zero c cs v k lt = found c k
seek-Seeking (suc n) c [] v k lt = absurd (omega arith)
seek-Seeking (suc n) c (c' ∷ []) v k lt = absurd (omega arith)
seek-Seeking (suc n) c (c' ∷ d ∷ ds) v k lt =
    rw
      (leb_of_lt chain_end (next_cluster v c)
        (is_cluster-bounds (next_cluster v c)
          (Chain-is_cluster v (next_cluster v c) d ds (Chain-next v c c' d ds k))).1)
      (further (seek n (next_cluster v c) v)
        (seek-Seeking n (next_cluster v c) (d ∷ ds) v (Chain-next v c c' d ds k) (omega arith)))
  where
    further : (o : Option ℕ) → Seeking v n (d ∷ ds) o → Seeking v (suc n) (c' ∷ d ∷ ds) o
    further o (found x l) = found x l

contents-drop :
    (n : ℕ) (cs : List ℕ) (v : Volume)
    → Readable v
    → drop (n * bytes_per_cluster v) (contents v cs) ≡ contents v (drop n cs)
unfolding contents
contents-drop zero cs v r =
    ap (λ k. drop k (contents v cs)) {x = 0 * bytes_per_cluster v} {y = 0} (omega arith)
contents-drop (suc n) [] v r = drop-nil (suc n * bytes_per_cluster v)
contents-drop (suc n) (c ∷ cs) v r =
    drop-append (suc n * bytes_per_cluster v) (cluster_bytes v c) (contents v cs)
    ∙ ap (λ l. l ++ drop (suc n * bytes_per_cluster v - length (cluster_bytes v c)) (contents v cs))
        (drop-all (suc n * bytes_per_cluster v) (cluster_bytes v c)
          (omega (arith, length-cluster_bytes c v r)))
    ∙ ap (λ j. drop j (contents v cs))
        {x = suc n * bytes_per_cluster v - length (cluster_bytes v c)} {y = n * bytes_per_cluster v}
        (omega (arith, length-cluster_bytes c v r))
    ∙ contents-drop n cs v r

-- What is wanted: `len` bytes, or those before the end of the file.
pub positive_factor : (x a b : ℕ) → x < a * b → 1 ≤ b
positive_factor x a zero lt = absurd (omega arith)
positive_factor x a (suc b) lt = omega arith

-- From the cluster of byte `pos` on.
read_found :
    (pos want : ℕ) (cs : List ℕ) (v : Volume) (o : Option ℕ)
    → Readable v
    → Seeking v (pos / bytes_per_cluster v) cs o
    → 1 ≤ bytes_per_cluster v
    → pos + want ≤ length (contents v cs)
    → elim o [
      | none ↦ some []
      | some cluster ↦ some (read_clusters want cluster (pos % bytes_per_cluster v) want v)
    ]
      ≡ some (take want (drop pos (contents v cs)))
read_found pos want cs v o r (found c k) one inside = ap some (
    read_clusters-eq want c (pos % bytes_per_cluster v) want (drop (pos / bytes_per_cluster v) cs) v
      r k (mod-lt pos one) enough (omega arith)
    ∙ ap (λ l. take want (drop (pos % bytes_per_cluster v) l))
        (sym (contents-drop (pos / bytes_per_cluster v) cs v r))
    ∙ ap (take want) (
        drop-drop (pos % bytes_per_cluster v) (pos / bytes_per_cluster v * bytes_per_cluster v)
          (contents v cs)
        ∙ ap (λ k. drop k (contents v cs)) (div-add-mod' pos (bytes_per_cluster v))))
  where
    enough :
        want + pos % bytes_per_cluster v ≤ length (contents v (drop (pos / bytes_per_cluster v) cs))
    enough = omega (
      arith,
      ap length (contents-drop (pos / bytes_per_cluster v) cs v r),
      length-drop (pos / bytes_per_cluster v * bytes_per_cluster v) (contents v cs),
      div-add-mod' pos (bytes_per_cluster v),
    )

-- The guards of the function.
guarded :
    {A : Type 0} (r z p : Bool) (x y w : A)
    → r ≡ true
    → z ≡ false
    → (if not r || z then x else (if p then y else w)) ≡ (if p then y else w)
guarded r z p x y w e f = rw (e, f) refl

wanted :
    (pos len size : ℕ)
    → pos < size
    → pos + len < 2 ^ 32
    → (if ltb size (add_u32 pos len) then size - pos else len) ≡ min len (size - pos)
wanted pos len size inside no_wrap = ground arith

read_inside :
    (first pos want size : ℕ) (cs : List ℕ) (v : Volume)
    → Readable v
    → Chain v first cs
    → size ≤ length cs * bytes_per_cluster v
    → pos < size
    → want ≤ size - pos
    → elim (seek (pos / bytes_per_cluster v) first v) [
      | none ↦ some []
      | some cluster ↦ some (read_clusters want cluster (pos % bytes_per_cluster v) want v)
    ]
      ≡ some (take want (drop pos (contents v cs)))
read_inside first pos want size cs v r k fits inside le =
    read_found pos want cs v (seek (pos / bytes_per_cluster v) first v) r
      (seek-Seeking (pos / bytes_per_cluster v) first cs v k
        ((div-lt_iff_lt-mul some_room).1 (omega arith)))
      some_room (omega (arith, length-contents cs v r))
  where
    some_room : 1 ≤ bytes_per_cluster v
    some_room = positive_factor pos (length cs) (bytes_per_cluster v) (omega arith)

-- On a volume whose sectors can be read, `fat16_read_at` returns the bytes from `pos` on of the
-- clusters of the file, put together: `len` of them, or as many as stand before the end of the file.
-- The size is at most that of the chain, and `pos + len` does not overflow.
pub read_at-contents :
    (first pos len size : ℕ) (cs : List ℕ) (v : Volume)
    → v.layout.ready ≡ true
    → Readable v
    → Chain v first cs
    → size ≤ length cs * bytes_per_cluster v
    → 1 ≤ len
    → pos + len < 2 ^ 32
    → read_at first pos len size v ≡ some (take (min len (size - pos)) (drop pos (contents v cs)))
unfolding read_at
read_at-contents first pos len size cs v ready r k fits some_len no_wrap =
    guarded v.layout.ready (len == 0) (leb size pos) none (some []) _ ready
      (==_of_ne len 0 (λ e. omega (arith, e)))
    ∙ elim (dec_le size pos) [
      | yes past ↦ rw (le→leb size pos past) (
          ap (λ n. some (take n (drop pos (contents v cs)))) {x = 0} {y = min len (size - pos)}
            (omega arith))
      | no inside ↦ rw (leb_of_lt size pos (omega arith)) (
          ap
            (λ w. elim (seek (pos / bytes_per_cluster v) first v) as (λ _. Option (List ℕ)) [
              | none ↦ some []
              | some cluster ↦ some (read_clusters w cluster (pos % bytes_per_cluster v) w v)
            ])
            (wanted pos len size (omega arith) no_wrap)
          ∙ read_inside first pos (min len (size - pos)) size cs v r k fits (omega arith)
              (omega arith))
    ]
