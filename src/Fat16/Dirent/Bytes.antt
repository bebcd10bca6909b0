-- ===== src/Fat16/Dirent/Bytes.antt =====
-- kernel/fs/fat16.c: an entry read back from the bytes that it was stored as, and the entries before it.
use null_os.Prelude.{
  ℕ, zero, suc, ◌+◌, ◌-◌, ◌*◌, ◌^◌, ◌≤◌, ◌<◌, ◌≡◌, refl, sym, ap, ap₂, ◌∙◌, List, [], ◌∷◌, ◌++◌,
  length, get_or, take, drop, arith, min, length-append, drop-drop, drop-take, take-take,
  append_assoc, append-nil,
}
use null_os.Prelude.Bytes.{
  take-store_bytes, drop-store_bytes, take_part, drop_part, get_u16, get_u32, u16_bytes, u32_bytes,
  store_bytes,
}
use null_os.Fat16.Dirent.{Dirent, dirent_at, dirent_bytes, store_dirent}

-- The fields have the sizes that they have on the disk.
pub record Sized (e : Dirent) : Type 0 where
  pub name_size : length e.name ≡ 8
  pub ext_size : length e.ext ≡ 3
  pub reserved_size : length e.reserved ≡ 10
  pub time_size : e.time < 65536
  pub date_size : e.date < 65536
  pub first_cluster_size : e.first_cluster < 65536
  pub size_size : e.size < 2 ^ 32

get_or-drop : (n k : ℕ) (l : List ℕ) → get_or (drop n l) k 0 ≡ get_or l (n + k) 0
get_or-drop zero k l = ap (λ j. get_or l j 0) {x = k} {y = 0 + k} (omega arith)
get_or-drop (suc n) k [] = refl
get_or-drop (suc n) k (x ∷ l) =
    get_or-drop n k l ∙ ap (λ j. get_or (x ∷ l) j 0) {x = suc (n + k)} {y = suc n + k} (omega arith)

-- The bytes of an entry part by part, with what follows them.
words : Dirent → List ℕ → List ℕ
words e rest =
    u16_bytes e.time
    ++ (u16_bytes e.date ++ (u16_bytes e.first_cluster ++ (u32_bytes e.size ++ rest)))

parts : Dirent → List ℕ → List ℕ
parts e rest = e.name ++ (e.ext ++ (e.attr ∷ (e.reserved ++ words e rest)))

dirent_bytes-parts : (e : Dirent) (rest : List ℕ) → dirent_bytes e ++ rest ≡ parts e rest
unfolding dirent_bytes parts words
dirent_bytes-parts e rest = simp append_assoc

-- The entry at the start of such bytes.
pub decoded : List ℕ → Dirent
decoded b = record {
  name = take 8 b;
  ext = take 3 (drop 8 b);
  attr = get_or b 11 0;
  reserved = take 10 (drop 12 b);
  time = get_u16 b 22;
  date = get_u16 b 24;
  first_cluster = get_u16 b 26;
  size = get_u32 b 28;
}

dirent_at-decoded : (b : List ℕ) (i : ℕ) → dirent_at b i ≡ decoded (drop (i * 32) b)
unfolding dirent_at decoded
dirent_at-decoded b i = refl

module _ (e : Dirent) (sized : Sized e) (rest : List ℕ) where
  drop_name : drop 8 (parts e rest) ≡ e.ext ++ (e.attr ∷ (e.reserved ++ words e rest))
  unfolding parts
  drop_name = drop_part 8 e.name (e.ext ++ (e.attr ∷ (e.reserved ++ words e rest))) sized.name_size

  drop_ext : drop 11 (parts e rest) ≡ e.attr ∷ (e.reserved ++ words e rest)
  drop_ext =
      sym (drop-drop 3 8 (parts e rest))
      ∙ ap (drop 3) drop_name
      ∙ drop_part 3 e.ext (e.attr ∷ (e.reserved ++ words e rest)) sized.ext_size

  drop_attr : drop 12 (parts e rest) ≡ e.reserved ++ words e rest
  drop_attr = sym (drop-drop 1 11 (parts e rest)) ∙ ap (drop 1) drop_ext

  drop_reserved : drop 22 (parts e rest) ≡ words e rest
  drop_reserved =
      sym (drop-drop 10 12 (parts e rest))
      ∙ ap (drop 10) drop_attr
      ∙ drop_part 10 e.reserved (words e rest) sized.reserved_size

  word_at : (k : ℕ) → get_or (parts e rest) (22 + k) 0 ≡ get_or (words e rest) k 0
  word_at k = sym (get_or-drop 22 k (parts e rest)) ∙ ap (λ l. get_or l k 0) drop_reserved

  decoded-parts : decoded (parts e rest) ≡ e
  unfolding decoded parts words
  decoded-parts = λ i. record {
    name = name_eq i;
    ext = ext_eq i;
    attr = attr_eq i;
    reserved = reserved_eq i;
    time = time_eq i;
    date = date_eq i;
    first_cluster = cluster_eq i;
    size = size_eq i;
  }
    where
      b : List ℕ
      b = parts e rest

      name_eq : take 8 b ≡ e.name
      name_eq = take_part 8 e.name _ sized.name_size

      ext_eq : take 3 (drop 8 b) ≡ e.ext
      ext_eq = ap (take 3) drop_name ∙ take_part 3 e.ext _ sized.ext_size

      attr_eq : get_or b 11 0 ≡ e.attr
      attr_eq = sym (get_or-drop 11 0 b) ∙ ap (λ l. get_or l 0 0) drop_ext

      reserved_eq : take 10 (drop 12 b) ≡ e.reserved
      reserved_eq = ap (take 10) drop_attr ∙ take_part 10 e.reserved _ sized.reserved_size

      time_eq : get_u16 b 22 ≡ e.time
      time_eq = omega (arith, word_at 0, word_at 1, sized.time_size)

      date_eq : get_u16 b 24 ≡ e.date
      date_eq = omega (arith, word_at 2, word_at 3, sized.date_size)

      cluster_eq : get_u16 b 26 ≡ e.first_cluster
      cluster_eq = omega (arith, word_at 4, word_at 5, sized.first_cluster_size)

      size_eq : get_u32 b 28 ≡ e.size
      size_eq = omega (arith, word_at 6, word_at 7, word_at 8, word_at 9, sized.size_size)

length-parts : (e : Dirent) → Sized e → length (parts e []) ≡ 32
unfolding parts words
length-parts e z = omega (
  arith,
  length-append e.name (e.ext ++ (e.attr ∷ (e.reserved ++ words e []))),
  length-append e.ext (e.attr ∷ (e.reserved ++ words e [])),
  length-append e.reserved (words e []),
  z.name_size,
  z.ext_size,
  z.reserved_size,
)

length-dirent_bytes : (e : Dirent) → Sized e → length (dirent_bytes e) ≡ 32
length-dirent_bytes e z =
    ap length (sym (append-nil (dirent_bytes e)) ∙ dirent_bytes-parts e []) ∙ length-parts e z

-- The stored entry is read back.
pub dirent_at-store_dirent :
    (i : ℕ) (e : Dirent) (b : List ℕ)
    → Sized e
    → i * 32 + 32 ≤ length b
    → dirent_at (store_dirent i e b) i ≡ e
unfolding store_dirent
dirent_at-store_dirent i e b z le =
    dirent_at-decoded (store_bytes (i * 32) (dirent_bytes e) b) i
    ∙ ap decoded (
        drop-store_bytes (i * 32) (dirent_bytes e) b (omega (arith, length-dirent_bytes e z))
        ∙ dirent_bytes-parts e (drop (i * 32 + length (dirent_bytes e)) b))
    ∙ decoded-parts e z (drop (i * 32 + length (dirent_bytes e)) b)

take_within : (m n : ℕ) (l : List ℕ) → m ≤ n → take m (take n l) ≡ take m l
take_within m n l le = take-take m n l ∙ ap (λ j. take j l) {x = min m n} {y = m} (omega arith)

get_or-take : (n k : ℕ) (l : List ℕ) → k < n → get_or (take n l) k 0 ≡ get_or l k 0
get_or-take zero k l lt = absurd (omega arith)
get_or-take (suc n) k [] lt = refl
get_or-take (suc n) zero (x ∷ l) lt = refl
get_or-take (suc n) (suc k) (x ∷ l) lt = get_or-take n k l (omega arith)

-- Entries before the stored one stay.
decoded-take : (n : ℕ) (b : List ℕ) → 32 ≤ n → decoded (take n b) ≡ decoded b
unfolding decoded
decoded-take n b le = λ i. record {
  name = take_within 8 n b (omega arith) i;
  ext = (ap (take 3) (drop-take 8 n b) ∙ take_within 3 (n - 8) (drop 8 b) (omega arith)) i;
  attr = get_or-take n 11 b (omega arith) i;
  reserved =
      (ap (take 10) (drop-take 12 n b) ∙ take_within 10 (n - 12) (drop 12 b) (omega arith)) i;
  time = word 22 (omega arith) i;
  date = word 24 (omega arith) i;
  first_cluster = word 26 (omega arith) i;
  size = word 28 (omega arith) i + word 30 (omega arith) i * 65536;
}
  where
    word : (k : ℕ) → k + 1 < n → get_u16 (take n b) k ≡ get_u16 b k
    word k lt =
        ap₂ (λ x y. x + y * 256) (get_or-take n k b (omega arith)) (get_or-take n (k + 1) b lt)

pub dirent_at-store_dirent_before :
    (i j : ℕ) (e : Dirent) (b : List ℕ) → j < i → dirent_at (store_dirent i e b) j ≡ dirent_at b j
unfolding store_dirent
dirent_at-store_dirent_before i j e b lt =
    dirent_at-decoded (store_bytes (i * 32) (dirent_bytes e) b) j
    ∙ sym (decoded-take (i * 32 - j * 32) (drop (j * 32) stored) (omega arith))
    ∙ ap decoded (
        sym (drop-take (j * 32) (i * 32) stored)
        ∙ ap (drop (j * 32)) (take-store_bytes (i * 32) (dirent_bytes e) b)
        ∙ drop-take (j * 32) (i * 32) b)
    ∙ decoded-take (i * 32 - j * 32) (drop (j * 32) b) (omega arith)
    ∙ sym (dirent_at-decoded b j)
  where
    stored : List ℕ
    stored = store_bytes (i * 32) (dirent_bytes e) b
