-- ===== src/BootConfig/Values.antt =====
-- kernel/bootcfg.c: a number that `bootcfg_buf_set_u32` or `bootcfg_buf_set_hex32` puts in, read
-- again by `bootcfg_buf_get_u32`.
use null_os.Prelude.{
  ℕ, suc, ◌+◌, ◌^◌, ◌/◌, ◌%◌, ◌<◌, ◌≤◌, ◌≡◌, ◌⊎◌, refl, sym, ap, ◌∙◌, Bool, true, false, ◌||◌,
  Option, none, some, List, [], ◌∷◌, ◌++◌, ◌==◌, if◌then◌else◌, length, arith, Bool-cases, inl, inr,
  ==_iff, take-all, lt→ltb,
}
use null_os.BootConfig.{config_size, newline, key_valid, buf_get, buf_set}
use null_os.BootConfig.Text.{Setting, Lacks}
use null_os.BootConfig.Store.{Encodes, line_start}
use null_os.BootConfig.Change.{Without}
use null_os.BootConfig.Writing.{new_length, buf_set-Stored}
use null_os.BootConfig.Numbers.{
  digit, parse_digits, or_default, is_hexadecimal, parse_u32, digit_char, fmt_digits, fmt_u32,
  buf_get_u32, buf_set_u32, buf_set_hex32,
}
use null_os.BootConfig.RoundTrip.{
  IsBase, room, decimal-IsBase, hexadecimal-IsBase, parse_digits-fmt_digits, AllAbove, above_none,
  above_one, AllAbove-Lacks, fmt_digits-AllAbove, length-fmt_digits, digit_other, bad_second_stops,
}

not_hexadecimal :
    (c d : ℕ) (cs : List ℕ) → (d == 120) || (d == 88) ≡ false → is_hexadecimal (c ∷ d ∷ cs) ≡ false
unfolding is_hexadecimal
not_hexadecimal c d cs h = ground arith

read_decimal :
    (l : List ℕ) (def : ℕ)
    → is_hexadecimal l ≡ false
    → parse_u32 l def ≡ or_default def (parse_digits 10 0 l)
unfolding parse_u32
read_decimal l def e = rw e refl

read_hexadecimal :
    (l : List ℕ) (def : ℕ)
    → 1 ≤ length l
    → parse_u32 (48 ∷ 120 ∷ l) def ≡ or_default def (parse_digits 16 0 l)
unfolding parse_u32 is_hexadecimal
read_hexadecimal l def le = rw (lt→ltb 2 (suc (suc (length l))) (omega (arith, le))) refl

or_default-some : (def n : ℕ) (o : Option ℕ) → o ≡ some n → or_default def o ≡ n
unfolding or_default
or_default-some def n o e = ap (or_default def) e

parse_decimal : (l : List ℕ) (n def : ℕ) → parse_digits 10 0 l ≡ some n → parse_u32 l def ≡ n
unfolding is_hexadecimal
parse_decimal [] n def e = read_decimal [] def refl ∙ or_default-some def n (parse_digits 10 0 []) e
parse_decimal (c ∷ []) n def e =
    read_decimal (c ∷ []) def refl ∙ or_default-some def n (parse_digits 10 0 (c ∷ [])) e
parse_decimal (c ∷ d ∷ cs) n def e = elim (Bool-cases ((d == 120) || (d == 88))) [
  | inl letter ↦ absurd (cc (bad_second_stops 10 0 c d cs (digit_other d letter), e))
  | inr plain ↦
      read_decimal (c ∷ d ∷ cs) def (not_hexadecimal c d cs plain)
      ∙ or_default-some def n (parse_digits 10 0 (c ∷ d ∷ cs)) e
]

abbrev last_zero : ℕ → List ℕ
last_zero v = if v == 0 then 48 ∷ [] else []

digits_read :
    (base v : ℕ)
    → IsBase base
    → parse_digits base 0 (48 ∷ []) ≡ some 0
    → v < 2 ^ 32
    → 2 ^ 32 ≤ room base 10
    → parse_digits base 0 (fmt_digits 10 base v (last_zero v)) ≡ some v
unfolding parse_digits
digits_read base v b z lt enough =
    parse_digits-fmt_digits 10 base v (last_zero v) b (omega (arith, lt))
      (omega (arith, lt, enough))
    ∙ elim (Bool-cases (v == 0)) [
      | inl nothing ↦
          let zero_v : v ≡ 0 = (==_iff v 0).0 nothing in
          ap (parse_digits base v) (ap (λ t. if t then 48 ∷ [] else []) nothing)
          ∙ ap (λ n. parse_digits base n (48 ∷ [])) zero_v
          ∙ z
          ∙ ap some (sym zero_v)
      | inr some_left ↦ ap (parse_digits base v) (ap (λ t. if t then 48 ∷ [] else []) some_left)
    ]

zero_10 : parse_digits 10 0 (48 ∷ []) ≡ some 0
unfolding parse_digits digit
zero_10 = refl

zero_16 : parse_digits 16 0 (48 ∷ []) ≡ some 0
unfolding parse_digits digit
zero_16 = refl

room_10 : 2 ^ 32 ≤ room 10 10
unfolding room
room_10 = omega arith

room_16 : 2 ^ 32 ≤ room 16 10
unfolding room
room_16 = omega arith

some_digits : (base v : ℕ) → 1 ≤ length (fmt_digits 10 base v (last_zero v))
unfolding fmt_digits
some_digits base v = elim (Bool-cases (v == 0)) [
  | inl nothing ↦ rw nothing (omega arith)
  | inr some_left ↦
      rw some_left (length-fmt_digits 9 base (v / base) (digit_char (v % base) ∷ [])).0
]

parse_u32-fmt_u32 : (v def : ℕ) (hex : Bool) → v < 2 ^ 32 → parse_u32 (fmt_u32 v hex) def ≡ v
unfolding fmt_u32
parse_u32-fmt_u32 v def false lt =
    parse_decimal (fmt_digits 10 10 v (last_zero v)) v def
      (digits_read 10 v decimal-IsBase zero_10 lt room_10)
parse_u32-fmt_u32 v def true lt =
    read_hexadecimal (fmt_digits 10 16 v (last_zero v)) def (some_digits 16 v)
    ∙ or_default-some def v (parse_digits 16 0 (fmt_digits 10 16 v (last_zero v)))
        (digits_read 16 v hexadecimal-IsBase zero_16 lt room_16)

last_zero-AllAbove : (v : ℕ) → AllAbove 47 (last_zero v)
last_zero-AllAbove v = elim (Bool-cases (v == 0)) [
  | inl nothing ↦ rw nothing (above_one (omega arith) above_none)
  | inr some_left ↦ rw some_left above_none
]

fmt_u32-AllAbove : (v : ℕ) (hex : Bool) → AllAbove 47 (fmt_u32 v hex)
unfolding fmt_u32
fmt_u32-AllAbove v false = fmt_digits-AllAbove 10 10 v (last_zero v) (last_zero-AllAbove v)
fmt_u32-AllAbove v true =
    above_one (omega arith)
      (above_one (omega arith) (fmt_digits-AllAbove 10 16 v (last_zero v) (last_zero-AllAbove v)))

length-last_zero : (v : ℕ) → length (last_zero v) ≤ 1
length-last_zero v = elim (Bool-cases (v == 0)) [
  | inl nothing ↦ rw nothing (omega arith)
  | inr some_left ↦ rw some_left (omega arith)
]

length-fmt_u32 : (v : ℕ) (hex : Bool) → length (fmt_u32 v hex) ≤ 15
unfolding fmt_u32
length-fmt_u32 v false =
    omega (arith, (length-fmt_digits 10 10 v (last_zero v)).1, length-last_zero v)
length-fmt_u32 v true =
    omega (arith, (length-fmt_digits 10 16 v (last_zero v)).1, length-last_zero v)

some-fmt_u32 : (v : ℕ) (hex : Bool) → 1 ≤ length (fmt_u32 v hex)
unfolding fmt_u32
some-fmt_u32 v false = some_digits 10 v
some-fmt_u32 v true = omega arith

number_read :
    (key : List ℕ) (def : ℕ) (buf l : List ℕ)
    → buf_get key 16 buf ≡ some l
    → 1 ≤ length l
    → buf_get_u32 key def buf ≡ parse_u32 l def
unfolding buf_get_u32
number_read key def buf [] e le = absurd (omega (arith, le))
number_read key def buf (c ∷ cs) e le = rw (buf_get_u32, e) refl

-- `bootcfg_buf_set_u32` and `bootcfg_buf_set_hex32`.
abbrev pub set_number : (hex : Bool) (key : List ℕ) (value : ℕ) (buf : List ℕ) → Option (List ℕ)
set_number false key value buf = buf_set_u32 key value buf
set_number true key value buf = buf_set_hex32 key value buf

set_number_same :
    (hex : Bool) (key : List ℕ) (v : ℕ) (buf : List ℕ)
    → set_number hex key v buf ≡ buf_set key (fmt_u32 v hex) buf
unfolding buf_set_u32 buf_set_hex32
set_number_same false key v buf = refl
set_number_same true key v buf = refl

abbrev pub number : (key : List ℕ) (v : ℕ) (hex : Bool) → Setting
number key v hex = record { key = key; value = fmt_u32 v hex }

-- What storing a number does where the settings `rest` and the new one take `n` characters.
abbrev pub NumberOutcome :
    (hex : Bool) (key : List ℕ) (v def n : ℕ) (rest : List Setting) (buf : List ℕ) → Type 0
NumberOutcome hex key v def n rest buf =
    ((n < config_size)
      × ((after : List ℕ) × (set_number hex key v buf ≡ some after)
          × Encodes (rest ++ (number key v hex ∷ [])) after
          × (buf_get_u32 key def after ≡ v)))
    ⊎ ((config_size ≤ n) × (set_number hex key v buf ≡ none))

-- `bootcfg_buf_set_u32` and `bootcfg_buf_set_hex32`, with a valid key and a number of 32 bits, on a
-- sector that holds a list of settings with the key at most once: where the new line fits, the
-- sector then holds the other settings and the new one, and `bootcfg_buf_get_u32` of the key is the
-- number, whichever of the two has written it; otherwise the result is -1.
pub buf_get_u32-set_number :
    (hex : Bool) (key : List ℕ) (v def : ℕ) (es rest : List Setting) (buf : List ℕ)
    → v < 2 ^ 32
    → Encodes es buf
    → length buf ≡ config_size
    → Without key es rest
    → key_valid key ≡ true
    → NumberOutcome hex key v def (line_start rest + new_length (number key v hex)) rest buf
buf_get_u32-set_number hex key v def es rest buf lt h size w valid =
    elim (buf_set-Stored e es rest buf 16 h size w valid clean_0 clean_newline
      (λ q. absurd (omega (arith, q)))) [
        | inl (fits, (after, eq, s)) ↦ inl (
          fits,
          (
            after,
            set_number_same hex key v buf ∙ eq,
            s.holds,
            number_read key def after l
                  (s.read_back ∙ ap some (take-all 15 l (length-fmt_u32 v hex)))
                  (some-fmt_u32 v hex)
                ∙ parse_u32-fmt_u32 v def hex lt,
          ),
        )
        | inr (full, eq) ↦ inr (full, set_number_same hex key v buf ∙ eq)
      ]
  where
    l : List ℕ
    l = fmt_u32 v hex

    e : Setting
    e = number key v hex

    clean_0 : Lacks 0 l
    clean_0 = AllAbove-Lacks 47 0 l (omega arith) (fmt_u32-AllAbove v hex)

    clean_newline : Lacks newline l
    clean_newline = AllAbove-Lacks 47 newline l (omega arith) (fmt_u32-AllAbove v hex)
