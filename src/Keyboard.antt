-- ===== src/Keyboard.antt =====
-- kernel/keyboard.c: the interrupt handler and its two rings of 256, of characters and of raw codes.
pub mod Queue
pub mod Typing
pub mod Stream
mod Tests
use null_os.Prelude.{
  ℕ, zero, suc, ◌+◌, ◌-◌, ◌%◌, Bool, true, false, ◌&&◌, ◌||◌, Option, none, some, List, [], ◌∷◌,
  ltb, leb, ◌==◌, if◌then◌else◌, get_or, set, replicate,
}

abbrev pub kb_buffer_size : ℕ
kb_buffer_size = 256

abbrev pub scancode_map : List ℕ
scancode_map =
    0
    ∷ 27
    ∷ 49
    ∷ 50
    ∷ 51
    ∷ 52
    ∷ 53
    ∷ 54
    ∷ 55
    ∷ 56
    ∷ 57
    ∷ 48
    ∷ 45
    ∷ 61
    ∷ 8
    ∷ 9
    ∷ 113
    ∷ 119
    ∷ 101
    ∷ 114
    ∷ 116
    ∷ 121
    ∷ 117
    ∷ 105
    ∷ 111
    ∷ 112
    ∷ 91
    ∷ 93
    ∷ 10
    ∷ 0
    ∷ 97
    ∷ 115
    ∷ 100
    ∷ 102
    ∷ 103
    ∷ 104
    ∷ 106
    ∷ 107
    ∷ 108
    ∷ 59
    ∷ 39
    ∷ 96
    ∷ 0
    ∷ 92
    ∷ 122
    ∷ 120
    ∷ 99
    ∷ 118
    ∷ 98
    ∷ 110
    ∷ 109
    ∷ 44
    ∷ 46
    ∷ 47
    ∷ 0
    ∷ 42
    ∷ 0
    ∷ 32
    ∷ replicate 70 0

abbrev pub scancode_map_shift : List ℕ
scancode_map_shift =
    0
    ∷ 27
    ∷ 33
    ∷ 64
    ∷ 35
    ∷ 36
    ∷ 37
    ∷ 94
    ∷ 38
    ∷ 42
    ∷ 40
    ∷ 41
    ∷ 95
    ∷ 43
    ∷ 8
    ∷ 9
    ∷ 81
    ∷ 87
    ∷ 69
    ∷ 82
    ∷ 84
    ∷ 89
    ∷ 85
    ∷ 73
    ∷ 79
    ∷ 80
    ∷ 123
    ∷ 125
    ∷ 10
    ∷ 0
    ∷ 65
    ∷ 83
    ∷ 68
    ∷ 70
    ∷ 71
    ∷ 72
    ∷ 74
    ∷ 75
    ∷ 76
    ∷ 58
    ∷ 34
    ∷ 126
    ∷ 0
    ∷ 124
    ∷ 90
    ∷ 88
    ∷ 67
    ∷ 86
    ∷ 66
    ∷ 78
    ∷ 77
    ∷ 60
    ∷ 62
    ∷ 63
    ∷ 0
    ∷ 42
    ∷ 0
    ∷ 32
    ∷ replicate 70 0

-- `kb_buffer`, `kb_head` and `kb_tail`, and the same of the raw codes. One slot stays free.
pub record Ring : Type 0 where
  pub buf : List ℕ
  pub head : ℕ
  pub tail : ℕ

pub record Keyboard : Type 0 where
  pub chars : Ring
  pub raws : Ring
  pub ctrl_pressed : Bool
  pub shift_pressed : Bool

pub push : ℕ → Ring → Ring
push c r =
    let next = (r.head + 1) % kb_buffer_size in
    if next == r.tail then r else record r { buf = set r.buf r.head c; head = next }

-- The oldest entry, if there is one; reading it out does not wait.
pub pop : Ring → Option ℕ × Ring
pop r =
    if r.head == r.tail
    then (none, r)
    else (some (get_or r.buf r.tail 0), record r { tail = (r.tail + 1) % kb_buffer_size })

-- The character of a key, 0 if it has none: Ctrl+C is 3.
pub char_of : ℕ → Keyboard → ℕ
char_of scancode k =
    if k.ctrl_pressed && (scancode == 0x2E)
    then 3
    else get_or (if k.shift_pressed then scancode_map_shift else scancode_map) (scancode % 128) 0

-- The code with a bit for each modifier; a press is below 128, so `|` adds them.
pub raw_of : ℕ → Keyboard → ℕ
raw_of scancode k =
    scancode + (if k.ctrl_pressed then 0x100 else 0) + (if k.shift_pressed then 0x200 else 0)

pub store : ℕ → Keyboard → Keyboard
store scancode k =
    let c = char_of scancode k in
    record k {
      raws = push (raw_of scancode k) k.raws;
      chars = if c == 0 then k.chars else push c k.chars;
    }

-- `keyboard_callback`, of the code that the port gives.
pub keyboard_callback : ℕ → Keyboard → Keyboard
keyboard_callback scancode k =
    if scancode == 0x1D
    then record k { ctrl_pressed = true }
    else if scancode == 0x9D
    then record k { ctrl_pressed = false }
    else if (scancode == 0x2A) || (scancode == 0x36)
    then record k { shift_pressed = true }
    else if (scancode == 0xAA) || (scancode == 0xB6)
    then record k { shift_pressed = false }
    else if leb 128 scancode
    then k
    else store scancode k

pub flush : Keyboard → Keyboard
flush k = record k {
  chars = record k.chars { head = 0; tail = 0 };
  raws = record k.raws { head = 0; tail = 0 };
}

-- `keyboard_getchar_nowait` and `keyboard_raw_nowait`: no value is -1.
pub getchar_nowait : Keyboard → Option ℕ × Keyboard
getchar_nowait k = ((pop k.chars).0, record k { chars = (pop k.chars).1 })

pub raw_nowait : Keyboard → Option ℕ × Keyboard
raw_nowait k = ((pop k.raws).0, record k { raws = (pop k.raws).1 })

pub haschar : Keyboard → Bool
haschar k = if k.chars.head == k.chars.tail then false else true

-- `keyboard_getchar`, where these codes come in while it halts: no value where it halts still.
pub getchar : (codes : List ℕ) → Keyboard → Option ℕ × Keyboard
getchar [] k = getchar_nowait k
getchar (scancode ∷ codes) k =
    let later = getchar codes (keyboard_callback scancode k) in
    if haschar k then getchar_nowait k else later
