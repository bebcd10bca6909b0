-- ===== src/BootConfig.antt =====
-- kernel/bootcfg.c: the key=value store in one sector of text. A buffer is the list of its 512
-- characters, a C string the list of its characters before the NUL; the pointers are not null.
pub mod Text
pub mod Store
pub mod Change
pub mod Writing
pub mod Numbers
pub mod RoundTrip
pub mod Values
pub mod Sector
pub mod Tests
use null_os.Prelude.{
  ℕ, zero, suc, ◌+◌, ◌-◌, ◌*◌, ◌/◌, ◌%◌, ◌^◌, Bool, true, false, not, ◌&&◌, ◌||◌, Option, none,
  some, List, [], ◌∷◌, ◌++◌, ltb, leb, ◌==◌, if◌then◌else◌, length, get_or, set, take, drop,
  replicate, min,
}
use null_os.Prelude.Bytes.{get_u16, store_bytes}
use null_os.Fat16.{Disk, Volume, read_sector, write_sector}

abbrev pub config_size : ℕ
config_size = 512

-- "# nullos-config v1\n"
abbrev pub magic : List ℕ
magic =
    35 ∷ 32 ∷ 110 ∷ 117 ∷ 108 ∷ 108 ∷ 111 ∷ 115 ∷ 45 ∷ 99 ∷ 111 ∷ 110 ∷ 102 ∷ 105 ∷ 103 ∷ 32 ∷ 118
    ∷ 49 ∷ 10 ∷ []

abbrev pub magic_len : ℕ
magic_len = 19

abbrev pub key_max : ℕ
key_max = 31

abbrev pub newline : ℕ
newline = 10

abbrev pub equals : ℕ
equals = 61

pub cfg_reset : List ℕ
cfg_reset = magic ++ replicate (config_size - magic_len) 0

pub has_prefix : (prefix buf : List ℕ) → Bool
has_prefix [] buf = true
has_prefix (m ∷ ms) [] = false
has_prefix (m ∷ ms) (c ∷ cs) = (m == c) && has_prefix ms cs

pub has_magic : List ℕ → Bool
has_magic buf = has_prefix magic buf

pub key_char : ℕ → Bool
key_char c = (leb 97 c && leb c 122) || (leb 48 c && leb c 57) || (c == 95)

pub all_key_chars : List ℕ → Bool
all_key_chars [] = true
all_key_chars (c ∷ cs) = key_char c && all_key_chars cs

pub key_valid : List ℕ → Bool
key_valid key = not (length key == 0) && leb (length key) key_max && all_key_chars key

-- The characters up to the first NUL, and those up to the end of the line.
pub until_nul : List ℕ → List ℕ
until_nul [] = []
until_nul (c ∷ cs) = let rest = until_nul cs in if c == 0 then [] else c ∷ rest

pub line_of : List ℕ → List ℕ
line_of [] = []
line_of (c ∷ cs) = let rest = line_of cs in if c == newline then [] else c ∷ rest

-- The text after the magic line.
pub text_of : List ℕ → List ℕ
text_of buf = until_nul (drop magic_len buf)

-- The line is the key, an equals sign and a value.
pub key_matches : (key line : List ℕ) → Bool
key_matches [] [] = false
key_matches [] (c ∷ line) = c == equals
key_matches (k ∷ key) [] = false
key_matches (k ∷ key) (c ∷ line) = (k == c) && key_matches key line

-- The loop of `find_key`, from character `i` of the buffer on: where the line of the key starts and
-- ends. A line takes a character at least, so that the length of the text is enough.
pub find_lines : (fuel : ℕ) (key : List ℕ) (i : ℕ) (text : List ℕ) → Option (ℕ × ℕ)
find_lines fuel key i [] = none
find_lines zero key i (c ∷ cs) = none
find_lines (suc fuel) key i (c ∷ cs) =
    let n = length (line_of (c ∷ cs)) in
    let rest = find_lines fuel key (i + n + 1) (drop (n + 1) (c ∷ cs)) in
    if key_matches key (line_of (c ∷ cs)) then some (i, i + n) else rest

pub find_key : (key buf : List ℕ) → Option (ℕ × ℕ)
find_key key buf = find_lines (length (text_of buf)) key magic_len (text_of buf)

pub cfg_used : List ℕ → ℕ
cfg_used buf = magic_len + length (text_of buf)

-- `bootcfg_buf_get`: no value is -1.
pub buf_get : (key : List ℕ) (max : ℕ) (buf : List ℕ) → Option (List ℕ)
buf_get key max buf = if (max == 0) || not (key_valid key) then none else elim (find_key key buf) [
  | none ↦ none
  | some line ↦
      let start = line.0 + length key + 1 in
      some (take (min (line.1 - start) (max - 1)) (drop start buf))
]

-- The line from `start` to `end` with its newline taken out, and zeros moved up behind.
pub line_length : (line : ℕ × ℕ) → List ℕ → ℕ
line_length line buf = line.1 - line.0 + (if get_or buf (line.1) 0 == newline then 1 else 0)

pub remove_line : (line : ℕ × ℕ) → List ℕ → List ℕ
remove_line line buf =
    take (line.0) buf
    ++ (drop (line.0 + line_length line buf) buf ++ replicate (line_length line buf) 0)

pub has_newline : List ℕ → Bool
has_newline [] = false
has_newline (c ∷ cs) = (c == newline) || has_newline cs

abbrev pub new_line : (key value : List ℕ) → List ℕ
new_line key value = key ++ (equals ∷ (value ++ (newline ∷ [])))

pub append_line : (key value buf : List ℕ) → List ℕ
append_line key value buf = store_bytes (cfg_used buf) (new_line key value ++ (0 ∷ [])) buf

-- `bootcfg_buf_set`: no value is -1, where the buffer stays as it is.
pub buf_set : (key value buf : List ℕ) → Option (List ℕ)
buf_set key value buf =
    let new_len = length key + 1 + length value + 1 in
    if not (key_valid key) || has_newline value then none else elim (find_key key buf) [
      | none ↦
          if ltb (config_size - 1) (cfg_used buf + new_len)
          then none
          else some (append_line key value buf)
      | some line ↦
          if ltb (config_size - 1) (cfg_used buf - line_length line buf + new_len)
          then none
          else some (append_line key value (remove_line line buf))
    ]

-- `bootcfg_buf_remove`: the result 1 or 0, and the buffer; no value is -1.
pub buf_remove : (key buf : List ℕ) → Option (Bool × List ℕ)
buf_remove key buf = if not (key_valid key) then none else elim (find_key key buf) [
  | none ↦ some (false, buf)
  | some line ↦ some (true, remove_line line buf)
]
