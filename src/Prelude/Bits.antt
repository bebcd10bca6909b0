-- ===== src/Prelude/Bits.antt =====
-- Bits of a machine word: `(w >> k) & 1`, `w |= 1 << k` and `w &= ~(1 << k)` at a variable `k`.
use Prim.Native.Nat.{
  ℕ, zero, suc, ◌+◌, ◌-◌, ◌*◌, ◌/◌, ◌%◌, ◌^◌, ◌≤◌, ◌<◌, min, max, digits, bit_and, bit_or,
  bit_and-bitwise, bit_or-bitwise,
}
use mathlib.Core.Path.{◌≡◌, refl, sym, ap, ◌∙◌}
use mathlib.Core.Logic.{◌≢◌}
use native.Mathlib.Omega.{arith}
use native.Mathlib.Nat.{pow-suc, div-div-eq-div-mul}

-- `digits` does not depend on its fuel, as long as there is enough for the left operand.
module _ (tail : ℕ → ℕ) (digit : ℕ → ℕ → ℕ) where
  same_digits : (x y u v : ℕ) → x ≤ u → x ≤ v → digits tail digit u x y ≡ digits tail digit v x y
  same_digits zero y (suc u) (suc v) _ _ = refl
  same_digits zero y (suc u) zero _ _ = refl
  same_digits zero y zero (suc v) _ _ = refl
  same_digits zero y zero zero _ _ = refl
  same_digits (suc x) y zero v h _ = absurd (omega (arith, h))
  same_digits (suc x) y (suc u) zero _ h = absurd (omega (arith, h))
  same_digits (suc x) y (suc u) (suc v) hu hv =
      let halved = same_digits (suc x / 2) (y / 2) u v (omega (arith, hu)) (omega (arith, hv)) in
      omega (arith, halved)

zero-bit_and : (b : ℕ) → bit_and 0 b ≡ 0
zero-bit_and b = bit_and-bitwise 0 b

zero-bit_or : (b : ℕ) → bit_or 0 b ≡ b
zero-bit_or b = bit_or-bitwise 0 b

-- The lowest digit apart from the half.
pub bit_and-halves : (w m : ℕ) → bit_and w m ≡ min (w % 2) (m % 2) + 2 * bit_and (w / 2) (m / 2)
bit_and-halves zero m = omega (arith, zero-bit_and m, zero-bit_and (m / 2))
bit_and-halves (suc v) m =
    let same =
      same_digits (λ y. 0) min (suc v / 2) (m / 2) v (suc v / 2) (omega arith) (omega arith) in
    omega (arith, same, bit_and-bitwise (suc v) m, bit_and-bitwise (suc v / 2) (m / 2))

pub bit_or-halves : (w m : ℕ) → bit_or w m ≡ max (w % 2) (m % 2) + 2 * bit_or (w / 2) (m / 2)
bit_or-halves zero m = omega (arith, zero-bit_or m, zero-bit_or (m / 2))
bit_or-halves (suc v) m =
    let same =
      same_digits (λ y. y) max (suc v / 2) (m / 2) v (suc v / 2) (omega arith) (omega arith) in
    omega (arith, same, bit_or-bitwise (suc v) m, bit_or-bitwise (suc v / 2) (m / 2))

bit_or-zero_fuel : (n a : ℕ) → a ≤ n → bit_or a 0 ≡ a
bit_or-zero_fuel n zero h = zero-bit_or 0
bit_or-zero_fuel zero (suc a) h = absurd (omega arith)
bit_or-zero_fuel (suc n) (suc a) h =
    omega (arith, bit_or-halves (suc a) 0, bit_or-zero_fuel n (suc a / 2) (omega arith))

pub bit_or-zero : (a : ℕ) → bit_or a 0 ≡ a
bit_or-zero a = bit_or-zero_fuel a a (omega arith)

-- `(w >> k) & 1`
abbrev pub bit : ℕ → ℕ → ℕ
bit w k = w / 2 ^ k % 2

-- `~(1U << k)` in `n` bits
abbrev pub clear_mask : ℕ → ℕ → ℕ
clear_mask n k = 2 ^ n - 1 - 2 ^ k

pub pow_pos : (k : ℕ) → 1 ≤ 2 ^ k
pow_pos zero = omega arith
pow_pos (suc k) = omega (arith, pow-suc 2 k, pow_pos k)

pub bit-suc : (w k : ℕ) → bit w (suc k) ≡ bit (w / 2) k
bit-suc w k =
    ap (λ t. t % 2)
      (ap (λ t. w / t) {x = 2 ^ suc k} {y = 2 * 2 ^ k} (omega (arith, pow-suc 2 k)) ∙ sym_div w k)
  where
    sym_div : (w k : ℕ) → w / (2 * 2 ^ k) ≡ w / 2 / 2 ^ k
    sym_div w k = omega (arith, div-div-eq-div-mul w 2 (2 ^ k))

pub bit-zero : (w : ℕ) → bit w 0 ≡ w % 2
bit-zero w = omega arith

-- Setting a bit.
half-bit_or : (a b : ℕ) → bit_or a b / 2 ≡ bit_or (a / 2) (b / 2)
half-bit_or a b = omega (arith, bit_or-halves a b)

half-bit_and : (a b : ℕ) → bit_and a b / 2 ≡ bit_and (a / 2) (b / 2)
half-bit_and a b = omega (arith, bit_and-halves a b)

half-pow : (k : ℕ) → 2 ^ suc k / 2 ≡ 2 ^ k
half-pow k = omega (arith, pow-suc 2 k)

pub bit-bit_or_self : (w k : ℕ) → bit (bit_or w (2 ^ k)) k ≡ 1
bit-bit_or_self w zero = omega (arith, bit_or-halves w 1)
bit-bit_or_self w (suc k) = rw (bit-suc, half-bit_or, half-pow) (bit-bit_or_self (w / 2) k)

pub bit-bit_or_ne : (w k j : ℕ) → j ≢ k → bit (bit_or w (2 ^ k)) j ≡ bit w j
bit-bit_or_ne w zero zero h = absurd (h refl)
bit-bit_or_ne w zero (suc j) h = rw (bit-suc (bit_or w 1) j, half-bit_or, bit_or-zero, bit-suc w j)
bit-bit_or_ne w (suc k) zero h = omega (arith, bit_or-halves w (2 ^ suc k), pow-suc 2 k)
bit-bit_or_ne w (suc k) (suc j) h =
    rw (bit-suc (bit_or w (2 ^ suc k)) j, half-bit_or, half-pow)
      (bit-bit_or_ne (w / 2) k j (λ e. h (ap suc e)) ∙ sym (bit-suc w j))

pub bit_or-lt : (n w k : ℕ) → w < 2 ^ n → k < n → bit_or w (2 ^ k) < 2 ^ n
bit_or-lt zero w k h p = absurd (omega arith)
bit_or-lt (suc n) w zero h p = omega (arith, bit_or-halves w 1, bit_or-zero (w / 2), pow-suc 2 n)
bit_or-lt (suc n) w (suc k) h p = omega (
  arith,
  bit_or-halves w (2 ^ suc k),
  half-pow k,
  ap (bit_or (w / 2)) (half-pow k),
  pow-suc 2 n,
  bit_or-lt n (w / 2) k (omega (arith, pow-suc 2 n)) (omega arith),
)

-- Clearing a bit.
pow_lt : (k n : ℕ) → k < n → 2 ^ k < 2 ^ n
pow_lt k zero h = absurd (omega arith)
pow_lt zero (suc n) h = omega (arith, pow-suc 2 n, pow_pos n)
pow_lt (suc k) (suc n) h = omega (arith, pow-suc 2 n, pow-suc 2 k, pow_lt k n (omega arith))

half-ones : (n : ℕ) → (2 ^ suc n - 1) / 2 ≡ 2 ^ n - 1
half-ones n = omega (arith, pow-suc 2 n, pow_pos n)

bit_and-ones : (n w : ℕ) → w < 2 ^ n → bit_and w (2 ^ n - 1) ≡ w
bit_and-ones zero w h = omega (
  arith,
  bit_and-halves w 0,
  ap (λ t. bit_and t 0) {x = w / 2} {y = 0} (omega arith),
  zero-bit_and 0,
)
bit_and-ones (suc n) w h = omega (
  arith,
  bit_and-halves w (2 ^ suc n - 1),
  ap (bit_and (w / 2)) (half-ones n),
  pow-suc 2 n,
  pow_pos n,
  bit_and-ones n (w / 2) (omega (arith, pow-suc 2 n)),
)

half-clear_zero : (n : ℕ) → clear_mask (suc n) 0 / 2 ≡ 2 ^ n - 1
half-clear_zero n = omega (arith, pow-suc 2 n, pow_pos n)

half-clear_suc : (n k : ℕ) → k < n → clear_mask (suc n) (suc k) / 2 ≡ clear_mask n k
half-clear_suc n k h = omega (arith, pow-suc 2 n, pow-suc 2 k, pow_lt k n h)

pub bit-bit_and_self : (n w k : ℕ) → k < n → bit (bit_and w (clear_mask n k)) k ≡ 0
bit-bit_and_self zero w k h = absurd (omega arith)
bit-bit_and_self (suc n) w zero h =
    omega (arith, bit_and-halves w (clear_mask (suc n) 0), pow-suc 2 n, pow_pos n)
bit-bit_and_self (suc n) w (suc k) h =
    rw (bit-suc, half-bit_and, half-clear_suc n k (omega arith))
      (bit-bit_and_self n (w / 2) k (omega arith))

pub bit-bit_and_ne :
    (n w k j : ℕ) → k < n → w < 2 ^ n → j ≢ k → bit (bit_and w (clear_mask n k)) j ≡ bit w j
bit-bit_and_ne zero w k j h p d = absurd (omega arith)
bit-bit_and_ne (suc n) w zero zero h p d = absurd (d refl)
bit-bit_and_ne (suc n) w zero (suc j) h p d =
    rw (bit-suc (bit_and w (clear_mask (suc n) 0)) j, half-bit_and, half-clear_zero n, bit-suc w j)
      (ap (λ t. bit t j) (bit_and-ones n (w / 2) (omega (arith, pow-suc 2 n))))
bit-bit_and_ne (suc n) w (suc k) zero h p d = omega (
  arith,
  bit_and-halves w (clear_mask (suc n) (suc k)),
  pow-suc 2 n,
  pow-suc 2 k,
  pow_lt k n (omega arith),
)
bit-bit_and_ne (suc n) w (suc k) (suc j) h p d =
    rw
      (
        bit-suc (bit_and w (clear_mask (suc n) (suc k))) j,
        half-bit_and,
        half-clear_suc n k (omega arith),
      )
      (bit-bit_and_ne n (w / 2) k j (omega arith) (omega (arith, pow-suc 2 n)) (λ e. d (ap suc e))
        ∙ sym (bit-suc w j))

bit_and-le_fuel : (n a b : ℕ) → a ≤ n → bit_and a b ≤ a
bit_and-le_fuel n zero b h = omega (arith, zero-bit_and b)
bit_and-le_fuel zero (suc a) b h = absurd (omega arith)
bit_and-le_fuel (suc n) (suc a) b h =
    omega (arith, bit_and-halves (suc a) b, bit_and-le_fuel n (suc a / 2) (b / 2) (omega arith))

pub bit_and-le : (a b : ℕ) → bit_and a b ≤ a
bit_and-le a b = bit_and-le_fuel a a b (omega arith)

-- Every bit of the word of `n` ones is set.
pub bit-ones : (n k : ℕ) → k < n → bit (2 ^ n - 1) k ≡ 1
bit-ones zero k h = absurd (omega arith)
bit-ones (suc n) zero h = omega (arith, pow-suc 2 n, pow_pos n)
bit-ones (suc n) (suc k) h = rw (bit-suc, half-ones) (bit-ones n k (omega arith))
