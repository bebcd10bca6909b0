-- ===== src/BootConfig/Numbers.antt =====
-- kernel/bootcfg.c: numbers as values, in decimal or in hexadecimal after "0x".
use null_os.Prelude.{
  ℕ, zero, suc, ◌+◌, ◌-◌, ◌*◌, ◌/◌, ◌%◌, Bool, true, false, ◌&&◌, ◌||◌, Option, none, some, List,
  [], ◌∷◌, ltb, leb, ◌==◌, if◌then◌else◌, length, get_or, drop,
}
use null_os.BootConfig.{buf_get, buf_set}

unfoldable pub digit : (base c : ℕ) → Option ℕ
digit base c =
    if leb 48 c && leb c 57
    then some (c - 48)
    else if (base == 16) && leb 97 c && leb c 102
    then some (c - 97 + 10)
    else (if (base == 16) && leb 65 c && leb c 70 then some (c - 65 + 10) else none)

unfoldable pub parse_digits : (base r : ℕ) → List ℕ → Option ℕ
parse_digits base r [] = some r
parse_digits base r (c ∷ cs) = elim (digit base c) [
  | none ↦ none
  | some d ↦
      let rest = parse_digits base (r * base + d) cs in
      if ltb ((0xFFFF_FFFF - d) / base) r then none else rest
]

unfoldable pub or_default : ℕ → Option ℕ → ℕ
or_default def none = def
or_default def (some n) = n

unfoldable pub is_hexadecimal : List ℕ → Bool
is_hexadecimal v =
    ltb 2 (length v) && (get_or v 0 0 == 48) && ((get_or v 1 0 == 120) || (get_or v 1 0 == 88))

-- `parse_u32`: a decimal number, or a hexadecimal one after "0x".
unfoldable pub parse_u32 : List ℕ → (def : ℕ) → ℕ
parse_u32 v def =
    if is_hexadecimal v
    then or_default def (parse_digits 16 0 (drop 2 v))
    else or_default def (parse_digits 10 0 v)

unfoldable pub buf_get_u32 : (key : List ℕ) (def : ℕ) (buf : List ℕ) → ℕ
buf_get_u32 key def buf = elim (buf_get key 16 buf) [
  | none ↦ def
  | some [] ↦ def
  | some (c ∷ cs) ↦ parse_u32 (c ∷ cs) def
]

-- `fmt_u32`: the digits stand in ten characters, filled from the end.
unfoldable pub digit_char : ℕ → ℕ
digit_char d = if ltb d 10 then 48 + d else 97 + (d - 10)

unfoldable pub fmt_digits : (fuel base value : ℕ) (tmp : List ℕ) → List ℕ
fmt_digits zero base value tmp = tmp
fmt_digits (suc fuel) base value tmp =
    let rest = fmt_digits fuel base (value / base) (digit_char (value % base) ∷ tmp) in
    if value == 0 then tmp else rest

unfoldable pub fmt_u32 : (value : ℕ) (hex : Bool) → List ℕ
fmt_u32 value hex =
    let tmp = if value == 0 then 48 ∷ [] else [] in
    if hex then 48 ∷ 120 ∷ fmt_digits 10 16 value tmp else fmt_digits 10 10 value tmp

unfoldable pub buf_set_u32 : (key : List ℕ) (value : ℕ) (buf : List ℕ) → Option (List ℕ)
buf_set_u32 key value buf = buf_set key (fmt_u32 value false) buf

unfoldable pub buf_set_hex32 : (key : List ℕ) (value : ℕ) (buf : List ℕ) → Option (List ℕ)
buf_set_hex32 key value buf = buf_set key (fmt_u32 value true) buf
