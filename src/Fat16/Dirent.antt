-- ===== src/Fat16/Dirent.antt =====
-- kernel/fs/fat16.c: directory entries and their 8.3 names. A C string is the list of its characters
-- before the NUL, a sector the list of its 512 bytes.
pub mod Names
pub mod Bytes
use null_os.Prelude.{
  ℕ, zero, suc, ◌+◌, ◌-◌, ◌*◌, ◌/◌, ◌%◌, Bool, true, false, ◌&&◌, ◌||◌, List, [], ◌∷◌, ◌++◌, map,
  ltb, leb, ◌==◌, if◌then◌else◌, length, get_or, take, drop, replicate,
}
use null_os.Prelude.Bytes.{get_u16, get_u32, u16_bytes, u32_bytes, store_bytes}

-- `fat16_dirent_t`
pub record Dirent : Type 0 where
  pub name : List ℕ
  pub ext : List ℕ
  pub attr : ℕ
  pub reserved : List ℕ
  pub time : ℕ
  pub date : ℕ
  pub first_cluster : ℕ
  pub size : ℕ

abbrev pub dirent_size : ℕ
dirent_size = 32

abbrev pub per_sector : ℕ
per_sector = 16

abbrev pub attr_directory : ℕ
attr_directory = 0x10

abbrev pub attr_archive : ℕ
attr_archive = 0x20

abbrev pub dirent_empty : ℕ
dirent_empty = 0

abbrev pub dirent_deleted : ℕ
dirent_deleted = 0xE5

abbrev pub dot : ℕ
dot = 46

abbrev pub space : ℕ
space = 32

abbrev pub slash : ℕ
slash = 47

-- Entry `i` of a sector, and the bytes of an entry.
unfoldable pub dirent_at : List ℕ → ℕ → Dirent
dirent_at sector i =
    let b = drop (i * 32) sector in
    record {
      name = take 8 b;
      ext = take 3 (drop 8 b);
      attr = get_or b 11 0;
      reserved = take 10 (drop 12 b);
      time = get_u16 b 22;
      date = get_u16 b 24;
      first_cluster = get_u16 b 26;
      size = get_u32 b 28;
    }

unfoldable pub dirent_bytes : Dirent → List ℕ
dirent_bytes e =
    e.name
    ++ e.ext
    ++ e.attr ∷ e.reserved
    ++ u16_bytes e.time
    ++ u16_bytes e.date
    ++ u16_bytes e.first_cluster
    ++ u32_bytes e.size

-- The bytes of an entry stored as entry `i` of a sector.
unfoldable pub store_dirent : ℕ → Dirent → List ℕ → List ℕ
store_dirent i e sector = store_bytes (i * 32) (dirent_bytes e) sector

-- `e->attr & ATTR_DIRECTORY` and `e->attr & ATTR_VOLUME_ID`.
unfoldable pub is_directory : Dirent → Bool
is_directory e = (e.attr / 16 % 2) == 1

unfoldable pub is_volume_id : Dirent → Bool
is_volume_id e = (e.attr / 8 % 2) == 1

abbrev pub first_byte : Dirent → ℕ
first_byte e = get_or e.name 0 0

unfoldable pub toupper : ℕ → ℕ
toupper c = if leb 97 c && leb c 122 then c - 32 else c

-- The loop over the base name: at most `n` characters before a dot, and what follows them.
unfoldable pub base_name : (n : ℕ) → List ℕ → List ℕ × List ℕ
base_name zero cs = ([], cs)
base_name (suc n) [] = ([], [])
base_name (suc n) (c ∷ cs) =
    let (base, rest) = base_name n cs in if c == dot then ([], c ∷ cs) else (toupper c ∷ base, rest)

unfoldable pub skip_to_dot : List ℕ → List ℕ
skip_to_dot [] = []
skip_to_dot (c ∷ cs) = let rest = skip_to_dot cs in if c == dot then c ∷ cs else rest

-- What follows the dot that `skip_to_dot` stands on.
unfoldable pub after_dot : List ℕ → List ℕ
after_dot [] = []
after_dot (c ∷ cs) = cs

-- `out` is filled with spaces first.
unfoldable pub padded : ℕ → List ℕ → List ℕ
padded n cs = cs ++ replicate (n - length cs) space

-- "." and ".."
unfoldable pub is_dots : List ℕ → Bool
is_dots [] = false
is_dots (c ∷ []) = c == dot
is_dots (c ∷ d ∷ []) = (c == dot) && (d == dot)
is_dots (c ∷ d ∷ _ ∷ _) = false

unfoldable pub to_8_3 : List ℕ → List ℕ
to_8_3 name =
    let (base, rest) = base_name 8 name in
    let ext = map toupper (take 3 (after_dot (skip_to_dot rest))) in
    if is_dots name then padded 11 name else padded 8 base ++ padded 3 ext

-- The characters before the first space.
pub before_space : List ℕ → List ℕ
before_space [] = []
before_space (c ∷ cs) = let rest = before_space cs in if c == space then [] else c ∷ rest

pub all_spaces : List ℕ → Bool
all_spaces [] = true
all_spaces (c ∷ cs) = (c == space) && all_spaces cs

pub dirent_display_name : Dirent → List ℕ
dirent_display_name e =
    if all_spaces e.ext
    then before_space e.name
    else before_space e.name ++ dot ∷ before_space e.ext
