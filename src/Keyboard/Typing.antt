-- ===== src/Keyboard/Typing.antt =====
-- kernel/keyboard.c: what `keyboard_callback` adds to the characters that wait.
use null_os.Prelude.{
  ℕ, ◌≡◌, refl, sym, ap, subst, ◌∙◌, inl, inr, arith, Bool, true, false, not, ◌&&◌, ◌||◌,
  Bool-cases, List, [], ◌∷◌, ◌++◌, append-nil, ltb, ◌==◌, if◌then◌else◌,
}
use null_os.Keyboard.{Keyboard, push, char_of, raw_of, store, keyboard_callback}
use null_os.Keyboard.Queue.{IsRing, queue, held, pushed, push_lem}

pub record IsKeyboard (k : Keyboard) : Type 0 where
  pub chars : IsRing k.chars
  pub raws : IsRing k.raws

-- The press of a key that is no Ctrl or Shift.
abbrev pub is_press : ℕ → Bool
is_press scancode =
    ltb scancode 128 && not ((scancode == 0x1D) || (scancode == 0x2A) || (scancode == 0x36))

-- The character of a key that has one, if fewer than 255 wait.
unfoldable pub typed_by_key : ℕ → Keyboard → List ℕ
typed_by_key scancode k =
    if is_press scancode && not (char_of scancode k == 0) && ltb (held k.chars) 255
    then char_of scancode k ∷ []
    else []

store-IsKeyboard : (scancode : ℕ) (k : Keyboard) → IsKeyboard k → IsKeyboard (store scancode k)
unfolding store
store-IsKeyboard scancode k v = elim (Bool-cases (char_of scancode k == 0)) [
  | inl silent ↦
      let e : k.chars ≡ (store scancode k).chars = ground (arith, silent) in
      record {
        chars = subst IsRing e v.chars;
        raws = (push_lem (raw_of scancode k) k.raws v.raws).0;
      }
  | inr sounds ↦
      let e : push (char_of scancode k) k.chars ≡ (store scancode k).chars =
        ground (arith, sounds) in
      record {
        chars = subst IsRing e (push_lem (char_of scancode k) k.chars v.chars).0;
        raws = (push_lem (raw_of scancode k) k.raws v.raws).0;
      }
]

-- What an interrupt does to the waiting characters.
abbrev pub Typed : ℕ → Keyboard → Keyboard → Type 0
Typed scancode k u = (queue u.chars ≡ queue k.chars ++ typed_by_key scancode k) × IsKeyboard u

Typed-none :
    (scancode : ℕ) (k u : Keyboard)
    → IsKeyboard k
    → is_press scancode ≡ false
    → u.chars ≡ k.chars
    → u.raws ≡ k.raws
    → Typed scancode k u
unfolding typed_by_key
Typed-none scancode k u v quiet same same_raws = (
  ap queue same ∙ sym (append-nil (queue k.chars)) ∙ ap (λ l. queue k.chars ++ l) nothing,
  record { chars = subst IsRing (sym same) v.chars; raws = subst IsRing (sym same_raws) v.raws },
)
  where
    nothing : [] ≡ typed_by_key scancode k
    nothing = ground (arith, quiet)

store-Typed :
    (scancode : ℕ) (k : Keyboard)
    → IsKeyboard k
    → is_press scancode ≡ true
    → Typed scancode k (store scancode k)
unfolding typed_by_key store
store-Typed scancode k v press = (
  elim (Bool-cases (char_of scancode k == 0)) [
    | inl silent ↦
        ap (λ (b : Bool). queue (if b then k.chars else push (char_of scancode k) k.chars)) silent
        ∙ sym (append-nil (queue k.chars))
        ∙ ap (λ l. queue k.chars ++ l) (nothing silent)
    | inr sounds ↦
        ap (λ (b : Bool). queue (if b then k.chars else push (char_of scancode k) k.chars)) sounds
        ∙ (push_lem (char_of scancode k) k.chars v.chars).1
        ∙ lost_or_typed sounds
  ],
  store-IsKeyboard scancode k v,
)
  where
    nothing : (char_of scancode k == 0) ≡ true → [] ≡ typed_by_key scancode k
    nothing silent = ground (arith, silent)

    all_typed :
        (char_of scancode k == 0) ≡ false
        → ltb (held k.chars) 255 ≡ true
        → char_of scancode k ∷ [] ≡ typed_by_key scancode k
    all_typed sounds room = rw (press, sounds, room) refl

    all_lost : ltb (held k.chars) 255 ≡ false → [] ≡ typed_by_key scancode k
    all_lost full = ground (arith, full)

    lost_or_typed :
        (char_of scancode k == 0) ≡ false
        → pushed (char_of scancode k) (queue k.chars) (ltb (held k.chars) 255)
          ≡ queue k.chars ++ typed_by_key scancode k
    lost_or_typed sounds = elim (Bool-cases (ltb (held k.chars) 255)) [
      | inl room ↦
          ap (pushed (char_of scancode k) (queue k.chars)) room
          ∙ ap (λ l. queue k.chars ++ l) (all_typed sounds room)
      | inr full ↦
          ap (pushed (char_of scancode k) (queue k.chars)) full
          ∙ sym (append-nil (queue k.chars))
          ∙ ap (λ l. queue k.chars ++ l) (all_lost full)
    ]

keyboard_callback-store :
    (scancode : ℕ) (k : Keyboard)
    → is_press scancode ≡ true
    → store scancode k ≡ keyboard_callback scancode k
unfolding keyboard_callback
keyboard_callback-store scancode k press = ground (arith, press)

keyboard_callback-quiet :
    (scancode : ℕ) (k : Keyboard)
    → is_press scancode ≡ false
    → ((keyboard_callback scancode k).chars ≡ k.chars)
      × ((keyboard_callback scancode k).raws ≡ k.raws)
unfolding keyboard_callback
keyboard_callback-quiet scancode k quiet = (ground (arith, quiet), ground (arith, quiet))

pub keyboard_callback-Typed :
    (scancode : ℕ) (k : Keyboard) → IsKeyboard k → Typed scancode k (keyboard_callback scancode k)
keyboard_callback-Typed scancode k v = elim (Bool-cases (is_press scancode)) [
  | inl press ↦
      subst (Typed scancode k) (keyboard_callback-store scancode k press)
        (store-Typed scancode k v press)
  | inr quiet ↦
      let same = keyboard_callback-quiet scancode k quiet in
      Typed-none scancode k (keyboard_callback scancode k) v quiet same.0 same.1
]
