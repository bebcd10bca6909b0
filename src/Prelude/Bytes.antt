-- ===== src/Prelude/Bytes.antt =====
-- Little-endian fields of a sequence of bytes, and bytes stored over others.
use Prim.Native.Nat.{ℕ, zero, suc, ◌+◌, ◌-◌, ◌*◌, ◌/◌, ◌%◌, ◌^◌, ◌≤◌, ◌<◌, min}
use mathlib.Core.Path.{◌≡◌, refl, sym, ap, ap₂, ◌∙◌}
use mathlib.Core.List.{List, [], ◌∷◌, ◌++◌, append-nil}
use native.Mathlib.Omega.{arith}
use null_os.Prelude.Lists.{
  length, get_or, set, take, drop, take-take, length-set, get_or-set_self, get_or-set_ne, drop-all,
}

abbrev pub get_u16 : List ℕ → ℕ → ℕ
get_u16 b at = get_or b at 0 + get_or b (at + 1) 0 * 256

abbrev pub get_u32 : List ℕ → ℕ → ℕ
get_u32 b at = get_u16 b at + get_u16 b (at + 2) * 65536

abbrev pub add_u32 : ℕ → ℕ → ℕ
add_u32 x y = (x + y) % 2 ^ 32

abbrev pub sub_u32 : ℕ → ℕ → ℕ
sub_u32 x y = (x + 2 ^ 32 - y) % 2 ^ 32

-- The bytes of a 16-bit and of a 32-bit word.
abbrev pub u16_bytes : ℕ → List ℕ
u16_bytes n = n % 256 ∷ n / 256 % 256 ∷ []

abbrev pub u32_bytes : ℕ → List ℕ
u32_bytes n = n % 256 ∷ n / 256 % 256 ∷ n / 65536 % 256 ∷ n / 16777216 % 256 ∷ []

-- `bytes` stored from index `at` on; what does not fit is lost.
abbrev pub store_bytes : (at : ℕ) → List ℕ → List ℕ → List ℕ
store_bytes at [] l = l
store_bytes at (b ∷ bs) l = store_bytes (suc at) bs (set l at b)

pub length-store_bytes : (at : ℕ) (bs l : List ℕ) → length (store_bytes at bs l) ≡ length l
length-store_bytes at [] l = refl
length-store_bytes at (b ∷ bs) l = length-store_bytes (suc at) bs (set l at b) ∙ length-set l at b

pub get_or-store_bytes_before :
    (at : ℕ) (bs l : List ℕ) (i : ℕ) → i < at → get_or (store_bytes at bs l) i 0 ≡ get_or l i 0
get_or-store_bytes_before at [] l i lt = refl
get_or-store_bytes_before at (b ∷ bs) l i lt =
    get_or-store_bytes_before (suc at) bs (set l at b) i (omega arith)
    ∙ get_or-set_ne l at i b 0 (λ e. absurd (omega (arith, e)))

pub get_or-store_bytes_after :
    (at : ℕ) (bs l : List ℕ) (i : ℕ)
    → at + length bs ≤ i
    → get_or (store_bytes at bs l) i 0 ≡ get_or l i 0
get_or-store_bytes_after at [] l i le = refl
get_or-store_bytes_after at (b ∷ bs) l i le =
    get_or-store_bytes_after (suc at) bs (set l at b) i (omega arith)
    ∙ get_or-set_ne l at i b 0 (λ e. absurd (omega (arith, e)))

pub get_or-store_bytes :
    (at : ℕ) (bs l : List ℕ) (i : ℕ)
    → at + length bs ≤ length l
    → i < length bs
    → get_or (store_bytes at bs l) (at + i) 0 ≡ get_or bs i 0
get_or-store_bytes at [] l i le lt = absurd (omega arith)
get_or-store_bytes at (b ∷ bs) l zero le lt =
    ap (λ k. get_or (store_bytes (suc at) bs (set l at b)) k 0) {x = at + 0} {y = at} (omega arith)
    ∙ get_or-store_bytes_before (suc at) bs (set l at b) at (omega arith)
    ∙ get_or-set_self l at b 0 (omega arith)
get_or-store_bytes at (b ∷ bs) l (suc i) le lt =
    ap (λ k. get_or (store_bytes (suc at) bs (set l at b)) k 0) {x = at + suc i} {y = suc at + i}
      (omega arith)
    ∙ get_or-store_bytes (suc at) bs (set l at b) i (omega (arith, length-set l at b)) (omega arith)

-- What a store leaves, before it and after it.
take-set : (l : List ℕ) (i b : ℕ) → take i (set l i b) ≡ take i l
take-set [] zero b = refl
take-set [] (suc i) b = refl
take-set (x ∷ l) zero b = refl
take-set (x ∷ l) (suc i) b = ap (◌∷◌ x) (take-set l i b)

take_less : (m n : ℕ) (k l : List ℕ) → m ≤ n → take n k ≡ take n l → take m k ≡ take m l
take_less m n k l le e =
    ap (λ j. take j k) {x = m} {y = min m n} (omega arith)
    ∙ sym (take-take m n k)
    ∙ ap (take m) e
    ∙ take-take m n l
    ∙ ap (λ j. take j l) {x = min m n} {y = m} (omega arith)

pub take-store_bytes : (at : ℕ) (bs l : List ℕ) → take at (store_bytes at bs l) ≡ take at l
take-store_bytes at [] l = refl
take-store_bytes at (b ∷ bs) l =
    take_less at (suc at) (store_bytes (suc at) bs (set l at b)) (set l at b) (omega arith)
      (take-store_bytes (suc at) bs (set l at b))
    ∙ take-set l at b

drop-set : (l : List ℕ) (i j b : ℕ) → i < j → drop j (set l i b) ≡ drop j l
drop-set [] i j b lt = refl
drop-set (x ∷ l) zero (suc j) b lt = refl
drop-set (x ∷ l) (suc i) (suc j) b lt = drop-set l i j b (omega arith)
drop-set (x ∷ l) i zero b lt = absurd (omega arith)

drop-cons : (l : List ℕ) (i : ℕ) → i < length l → drop i l ≡ get_or l i 0 ∷ drop (suc i) l
drop-cons [] i lt = absurd (omega arith)
drop-cons (x ∷ l) zero lt = refl
drop-cons (x ∷ l) (suc i) lt = drop-cons l i (omega arith)

pub drop-store_bytes :
    (at : ℕ) (bs l : List ℕ)
    → at + length bs ≤ length l
    → drop at (store_bytes at bs l) ≡ bs ++ drop (at + length bs) l
drop-store_bytes at [] l le = ap (λ j. drop j l) {x = at} {y = at + 0} (omega arith)
drop-store_bytes at (b ∷ bs) l le =
    drop-cons (store_bytes (suc at) bs (set l at b)) at
      (omega (arith, length-store_bytes (suc at) bs (set l at b), length-set l at b))
    ∙ ap₂ (λ x k. x ∷ k)
        (get_or-store_bytes_before (suc at) bs (set l at b) at (omega arith)
          ∙ get_or-set_self l at b 0 (omega arith))
        (drop-store_bytes (suc at) bs (set l at b) (omega (arith, length-set l at b))
          ∙ ap (λ k. bs ++ k)
              (drop-set l at (suc at + length bs) b (omega arith)
                ∙ ap (λ j. drop j l) {x = suc at + length bs} {y = at + suc (length bs)}
                    (omega arith)))

-- Parts of known lengths.
pub take_part : (n : ℕ) (k l : List ℕ) → length k ≡ n → take n (k ++ l) ≡ k
take_part n [] l e = ap (λ j. take j l) (sym e)
take_part zero (x ∷ k) l e = absurd (omega (arith, e))
take_part (suc n) (x ∷ k) l e = ap (◌∷◌ x) (take_part n k l (omega (arith, e)))

pub drop_part : (n : ℕ) (k l : List ℕ) → length k ≡ n → drop n (k ++ l) ≡ l
drop_part n [] l e = ap (λ j. drop j l) (sym e)
drop_part zero (x ∷ k) l e = absurd (omega (arith, e))
drop_part (suc n) (x ∷ k) l e = drop_part n k l (omega (arith, e))

-- A store in one of two parts, two stores behind each other, and one over everything.
set_left : (k l : List ℕ) (i b : ℕ) → i < length k → set (k ++ l) i b ≡ set k i b ++ l
set_left [] l i b lt = absurd (omega arith)
set_left (x ∷ k) l zero b lt = refl
set_left (x ∷ k) l (suc i) b lt = ap (◌∷◌ x) (set_left k l i b (omega arith))

pub store_bytes_left :
    (at : ℕ) (bs k l : List ℕ)
    → at + length bs ≤ length k
    → store_bytes at bs (k ++ l) ≡ store_bytes at bs k ++ l
store_bytes_left at [] k l le = refl
store_bytes_left at (b ∷ bs) k l le =
    ap (store_bytes (suc at) bs) (set_left k l at b (omega arith))
    ∙ store_bytes_left (suc at) bs (set k at b) l (omega (arith, length-set k at b))

store_bytes_next :
    (at x : ℕ) (bs l : List ℕ) → store_bytes (suc at) bs (x ∷ l) ≡ x ∷ store_bytes at bs l
store_bytes_next at x [] l = refl
store_bytes_next at x (b ∷ bs) l = store_bytes_next (suc at) x bs (set l at b)

pub store_bytes_right :
    (k : List ℕ) (at : ℕ) (bs l : List ℕ)
    → store_bytes (length k + at) bs (k ++ l) ≡ k ++ store_bytes at bs l
store_bytes_right [] at bs l = ap (λ j. store_bytes j bs l) {x = 0 + at} {y = at} (omega arith)
store_bytes_right (x ∷ k) at bs l =
    ap (λ j. store_bytes j bs (x ∷ (k ++ l))) {x = length (x ∷ k) + at} {y = suc (length k + at)}
      (omega arith)
    ∙ store_bytes_next (length k + at) x bs (k ++ l)
    ∙ ap (◌∷◌ x) (store_bytes_right k at bs l)

pub store_bytes-append :
    (at : ℕ) (cs bs l : List ℕ)
    → store_bytes at (cs ++ bs) l ≡ store_bytes (at + length cs) bs (store_bytes at cs l)
store_bytes-append at [] bs l = ap (λ j. store_bytes j bs l) {x = at} {y = at + 0} (omega arith)
store_bytes-append at (a ∷ cs) bs l =
    store_bytes-append (suc at) cs bs (set l at a)
    ∙ ap (λ j. store_bytes j bs (store_bytes (suc at) cs (set l at a))) {x = suc at + length cs}
        {y = at + length (a ∷ cs)} (omega arith)

pub store_bytes_whole : (bs l : List ℕ) → length bs ≡ length l → store_bytes 0 bs l ≡ bs
store_bytes_whole bs l e =
    drop-store_bytes 0 bs l (omega (arith, e))
    ∙ ap (λ k. bs ++ k) (drop-all (0 + length bs) l (omega (arith, e)))
    ∙ append-nil bs
