-- ===== src/BootConfig/RoundTrip.antt =====
-- kernel/bootcfg.c: what `parse_u32` reads of the characters that `fmt_u32` writes.
use null_os.Prelude.{
  ℕ, zero, suc, ◌+◌, ◌-◌, ◌*◌, ◌/◌, ◌%◌, ◌<◌, ◌≤◌, ◌≡◌, refl, sym, ap, ◌∙◌, true, false, ◌||◌, none,
  some, List, [], ◌∷◌, ltb, ◌==◌, length, arith, ltb_of_le, Bool-cases, inl, inr, ==_iff, ==_of_ne,
  Option-cases,
}
use null_os.BootConfig.Text.{Lacks, lacks_none, lacks_one}
use null_os.BootConfig.Numbers.{digit, parse_digits, digit_char, fmt_digits}

-- The numbers that `fuel` digits hold.
unfoldable pub room : (base fuel : ℕ) → ℕ
room base zero = 1
room base (suc fuel) = base * room base fuel

-- What a base has to be for the digits to be read back.
pub record IsBase (base : ℕ) : Type 0 where
  less : (v : ℕ) → v / base ≤ v
  quotient : (v r : ℕ) → v < base * r → v / base < r
  again : (v : ℕ) → v / base * base + v % base ≡ v
  below : (v : ℕ) → v ≤ 0xFFFF_FFFF → v / base ≤ (0xFFFF_FFFF - v % base) / base
  read_back : (v : ℕ) → digit base (digit_char (v % base)) ≡ some (v % base)

digit_10 : (d : ℕ) → d < 10 → digit 10 (digit_char d) ≡ some d
unfolding digit digit_char
digit_10 d h = ground arith

digit_16 : (d : ℕ) → d < 16 → digit 16 (digit_char d) ≡ some d
unfolding digit digit_char
digit_16 d h = ground arith

pub decimal-IsBase : IsBase 10
decimal-IsBase = record {
  less = λ v. omega arith;
  quotient = λ v r h. omega (arith, h);
  again = λ v. omega arith;
  below = λ v h. omega (arith, h);
  read_back = λ v. digit_10 (v % 10) (omega arith);
}

pub hexadecimal-IsBase : IsBase 16
hexadecimal-IsBase = record {
  less = λ v. omega arith;
  quotient = λ v r h. omega (arith, h);
  again = λ v. omega arith;
  below = λ v h. omega (arith, h);
  read_back = λ v. digit_16 (v % 16) (omega arith);
}

one_digit :
    (base r c d : ℕ) (cs : List ℕ)
    → digit base c ≡ some d
    → r ≤ (0xFFFF_FFFF - d) / base
    → parse_digits base r (c ∷ cs) ≡ parse_digits base (r * base + d) cs
unfolding parse_digits
one_digit base r c d cs e le = rw (parse_digits, e, ltb_of_le ((0xFFFF_FFFF - d) / base) r le) refl

pub parse_digits-fmt_digits :
    (fuel base v : ℕ) (tmp : List ℕ)
    → IsBase base
    → v ≤ 0xFFFF_FFFF
    → v < room base fuel
    → parse_digits base 0 (fmt_digits fuel base v tmp) ≡ parse_digits base v tmp
unfolding fmt_digits room
parse_digits-fmt_digits zero base v tmp b le lt =
    ap (λ n. parse_digits base n tmp) {x = 0} {y = v} (omega (arith, lt))
parse_digits-fmt_digits (suc fuel) base v tmp b le lt = elim (Bool-cases (v == 0)) [
  | inl none_left ↦
      rw none_left
        (ap (λ n. parse_digits base n tmp) {x = 0} {y = v} (sym ((==_iff v 0).0 none_left)))
  | inr some_left ↦ rw some_left (
      parse_digits-fmt_digits fuel base (v / base) (digit_char (v % base) ∷ tmp) b
        (omega (arith, b.less v, le)) (b.quotient v (room base fuel) lt)
      ∙ one_digit base (v / base) (digit_char (v % base)) (v % base) tmp (b.read_back v)
          (b.below v le)
      ∙ ap (λ n. parse_digits base n tmp) (b.again v))
]

-- The characters of a number.
pub data AllAbove (x : ℕ) : List ℕ → Type 0 where
  above_none : AllAbove x []
  above_one : {c : ℕ} {cs : List ℕ} → x < c → AllAbove x cs → AllAbove x (c ∷ cs)

pub AllAbove-Lacks : (x y : ℕ) (l : List ℕ) → y ≤ x → AllAbove x l → Lacks y l
AllAbove-Lacks x y [] le above_none = lacks_none
AllAbove-Lacks x y (c ∷ l) le (above_one lt h) =
    lacks_one (==_of_ne c y (λ e. omega (arith, lt, le, e))) (AllAbove-Lacks x y l le h)

digit_char_above : (d : ℕ) → 47 < digit_char d
unfolding digit_char
digit_char_above d = ground arith

pub fmt_digits-AllAbove :
    (fuel base v : ℕ) (tmp : List ℕ) → AllAbove 47 tmp → AllAbove 47 (fmt_digits fuel base v tmp)
unfolding fmt_digits
fmt_digits-AllAbove zero base v tmp h = h
fmt_digits-AllAbove (suc fuel) base v tmp h = elim (Bool-cases (v == 0)) [
  | inl none_left ↦ rw none_left h
  | inr some_left ↦ rw some_left (
      fmt_digits-AllAbove fuel base (v / base) (digit_char (v % base) ∷ tmp)
        (above_one (digit_char_above (v % base)) h))
]

pub length-fmt_digits :
    (fuel base v : ℕ) (tmp : List ℕ)
    → (length tmp ≤ length (fmt_digits fuel base v tmp))
      × (length (fmt_digits fuel base v tmp) ≤ fuel + length tmp)
unfolding fmt_digits
length-fmt_digits zero base v tmp = (omega arith, omega arith)
length-fmt_digits (suc fuel) base v tmp = elim (Bool-cases (v == 0)) [
  | inl none_left ↦ rw none_left (omega arith, omega arith)
  | inr some_left ↦ rw some_left (
    omega (arith, (length-fmt_digits fuel base (v / base) (digit_char (v % base) ∷ tmp)).0),
    omega (arith, (length-fmt_digits fuel base (v / base) (digit_char (v % base) ∷ tmp)).1),
  )
]

-- An x stands in no decimal number.
pub digit_other : (c : ℕ) → (c == 120) || (c == 88) ≡ true → digit 10 c ≡ none
unfolding digit
digit_other c h = ground arith

bad_digit_stops :
    (base r c : ℕ) (cs : List ℕ) → digit base c ≡ none → parse_digits base r (c ∷ cs) ≡ none
unfolding parse_digits
bad_digit_stops base r c cs e = rw (parse_digits, e) refl

second_over :
    (base r c d : ℕ) (cs : List ℕ)
    → digit base c ≡ some d
    → ltb ((0xFFFF_FFFF - d) / base) r ≡ true
    → parse_digits base r (c ∷ cs) ≡ none
unfolding parse_digits
second_over base r c d cs e over = rw (parse_digits, e, over) refl

second_under :
    (base r c d : ℕ) (cs : List ℕ)
    → digit base c ≡ some d
    → ltb ((0xFFFF_FFFF - d) / base) r ≡ false
    → parse_digits base r (c ∷ cs) ≡ parse_digits base (r * base + d) cs
unfolding parse_digits
second_under base r c d cs e under = rw (parse_digits, e, under) refl

pub bad_second_stops :
    (base r c d : ℕ) (cs : List ℕ) → digit base d ≡ none → parse_digits base r (c ∷ d ∷ cs) ≡ none
bad_second_stops base r c d cs e = elim (Option-cases (digit base c)) [
  | inl nothing ↦ bad_digit_stops base r c (d ∷ cs) nothing
  | inr (x, found) ↦ elim (Bool-cases (ltb ((0xFFFF_FFFF - x) / base) r)) [
    | inl over ↦ second_over base r c x (d ∷ cs) found over
    | inr under ↦
        second_under base r c x (d ∷ cs) found under ∙ bad_digit_stops base (r * base + x) d cs e
  ]
]
