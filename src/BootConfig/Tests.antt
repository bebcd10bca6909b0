-- ===== src/BootConfig/Tests.antt =====
-- kernel/bootcfg.c at concrete sectors.
use null_os.Prelude.{ℕ, ◌+◌, ◌≡◌, refl, true, List, [], ◌∷◌, ◌++◌, replicate, arith}
use null_os.BootConfig.{magic, key_valid, all_key_chars, key_char, has_magic, has_prefix, cfg_reset}
use null_os.BootConfig.Numbers.{parse_u32, parse_digits, digit, or_default, is_hexadecimal}
use null_os.BootConfig.Text.{
  Setting, text, lacks_none, lacks_one, IsClean, all_none, all_one, absent_none,
}
use null_os.BootConfig.Store.{Encodes, line_start}
use null_os.BootConfig.Change.{without_one}
use null_os.BootConfig.Values.{NumberOutcome, number, buf_get_u32-set_number}
use null_os.BootConfig.Writing.{SetOutcome, new_length, buf_set-Stored}

-- "a=1", and the same key with the value "23".
abbrev old_setting : Setting
old_setting = record { key = 97 ∷ []; value = 49 ∷ [] }

abbrev new_setting : Setting
new_setting = record { key = 97 ∷ []; value = 50 ∷ 51 ∷ [] }

abbrev sector : List ℕ
sector = magic ++ ((97 ∷ 61 ∷ 49 ∷ 10 ∷ []) ++ replicate 489 0)

old_setting-IsClean : IsClean old_setting
old_setting-IsClean = record {
  key_no_nul = lacks_one refl lacks_none;
  key_no_newline = lacks_one refl lacks_none;
  key_no_equals = lacks_one refl lacks_none;
  value_no_nul = lacks_one refl lacks_none;
  value_no_newline = lacks_one refl lacks_none;
}

sector-Encodes : Encodes (old_setting ∷ []) sector
unfolding text
sector-Encodes = record { clean = all_one old_setting-IsClean all_none; zeros = 489; shape = refl }

valid_a : key_valid (97 ∷ []) ≡ true
unfolding key_valid all_key_chars key_char
valid_a = refl

magic_after_reset : has_magic cfg_reset ≡ true
unfolding has_magic has_prefix cfg_reset
magic_after_reset = refl

hexadecimal : parse_u32 (48 ∷ 120 ∷ 49 ∷ 70 ∷ []) 7 ≡ 31
unfolding parse_u32 or_default parse_digits digit is_hexadecimal
hexadecimal = refl

-- 4294967296 does not fit.
too_large : parse_u32 (52 ∷ 50 ∷ 57 ∷ 52 ∷ 57 ∷ 54 ∷ 55 ∷ 50 ∷ 57 ∷ 54 ∷ []) 7 ≡ 7
unfolding parse_u32 or_default parse_digits digit is_hexadecimal
too_large = refl

buf_set-Stored_example :
    SetOutcome new_setting [] 16 (line_start [] + new_length new_setting) sector
buf_set-Stored_example =
    buf_set-Stored new_setting (old_setting ∷ []) [] sector 16 sector-Encodes refl
      (without_one [] (49 ∷ []) [] absent_none absent_none) valid_a
      (lacks_one refl (lacks_one refl lacks_none)) (lacks_one refl (lacks_one refl lacks_none))
      (λ e. absurd (omega (arith, e)))

buf_get_u32-set_number_example :
    NumberOutcome true
      (97 ∷ [])
      0xDEAD_BEEF
      7
      (line_start [] + new_length (number (97 ∷ []) 0xDEAD_BEEF true))
      []
      sector
buf_get_u32-set_number_example =
    buf_get_u32-set_number true (97 ∷ []) 0xDEAD_BEEF 7 (old_setting ∷ []) [] sector (omega arith)
      sector-Encodes refl (without_one [] (49 ∷ []) [] absent_none absent_none) valid_a
