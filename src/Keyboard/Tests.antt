-- ===== src/Keyboard/Tests.antt =====
-- Tests of kernel/keyboard.c, and its theorem at a concrete input.
use null_os.Prelude.{
  ℕ, ◌≡◌, refl, arith, true, false, List, [], ◌∷◌, ◌++◌, replicate, length-replicate,
}
use null_os.Keyboard.{
  Ring, Keyboard, flush, keyboard_callback, store, push, pop, char_of, raw_of, getchar_nowait,
  raw_nowait, haschar, getchar,
}
use null_os.Keyboard.Queue.{IsRing, queue}
use null_os.Keyboard.Typing.{IsKeyboard}
use null_os.Keyboard.Stream.{
  Event, interrupts, reads_char, waits_char, step, typed, returned, returned_by, run, keyboard_flow,
}

abbrev blank : Ring
blank = record { buf = replicate 256 0; head = 250; tail = 250 }

abbrev off : Keyboard
off = record { chars = blank; raws = blank; ctrl_pressed = false; shift_pressed = false }

off-IsKeyboard : IsKeyboard off
off-IsKeyboard = record { chars = blank-IsRing; raws = blank-IsRing }
  where
    blank-IsRing : IsRing blank
    blank-IsRing = record {
      size = length-replicate {A = ℕ} 256 0;
      head_in = omega arith;
      tail_in = omega arith;
    }

-- A read that waits for Shift and "a", Shift released, "a", a read, Ctrl and "c".
abbrev keys : List Event
keys =
    waits_char (0x2A ∷ 0x1E ∷ [])
    ∷ interrupts 0xAA
    ∷ interrupts 0x1E
    ∷ reads_char
    ∷ interrupts 0x1D
    ∷ interrupts 0x2E
    ∷ []

keys-returned : returned keys off ≡ b'A' ∷ b'a' ∷ []
unfolding returned returned_by step keyboard_callback store push pop char_of raw_of getchar_nowait
    raw_nowait getchar haschar
keys-returned = refl

keys-queue : queue (run keys off).chars ≡ 3 ∷ []
unfolding run step keyboard_callback store push pop char_of raw_of getchar_nowait raw_nowait getchar
    haschar
keys-queue = refl

keys-haschar : haschar (run keys off) ≡ true
unfolding run step keyboard_callback store push pop char_of raw_of getchar_nowait raw_nowait getchar
    haschar
keys-haschar = refl

flushed : queue (flush (run keys off)).chars ≡ []
unfolding flush
flushed = refl

keyboard_flow_example :
    (queue off.chars ++ typed keys off ≡ returned keys off ++ queue (run keys off).chars)
    × IsKeyboard (run keys off)
keyboard_flow_example = keyboard_flow keys off off-IsKeyboard
