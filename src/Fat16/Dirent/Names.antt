-- ===== src/Fat16/Dirent/Names.antt =====
-- kernel/fs/fat16.c: 8.3 names. `dirent_display_name` and `to_8_3` are inverse on the names that a
-- directory can hold, and `to_8_3` fills its 11 bytes for every name.
use null_os.Prelude.{
  ℕ, zero, suc, ◌-◌, ◌≤◌, ◌≡◌, ◌≢◌, refl, sym, ap, ap₂, ◌∙◌, true, false, List, [], ◌∷◌, ◌++◌, map,
  ◌==◌, length, take, replicate, arith, inl, inr, Bool-cases, length-map, length-append,
  length-replicate, length-take, take-all,
}
use null_os.Fat16.Dirent.{
  Dirent, dot, space, toupper, base_name, skip_to_dot, after_dot, padded, is_dots, to_8_3,
  before_space, all_spaces, dirent_display_name,
}

-- Characters of a stored name: no dot, no space, no lower-case letter, and no NUL, which would end the
-- displayed name early.
pub data IsPlain : List ℕ → Type 0 where
  none_left : IsPlain []
  plain :
      (c : ℕ) {cs : List ℕ}
      → (c == dot) ≡ false
      → (c == space) ≡ false
      → c ≢ 0
      → toupper c ≡ c
      → IsPlain cs
      → IsPlain (c ∷ cs)

-- Spaces end what is displayed.
before_space-padded :
    (n : ℕ) (cs : List ℕ) → IsPlain cs → before_space (cs ++ replicate n space) ≡ cs
unfolding before_space
before_space-padded zero [] p = refl
before_space-padded (suc n) [] p = refl
before_space-padded n (c ∷ cs) (plain _ d s nz u p) = rw s (ap (◌∷◌ c) (before_space-padded n cs p))

all_spaces-replicate : (n : ℕ) → all_spaces (replicate n space) ≡ true
unfolding all_spaces
all_spaces-replicate zero = refl
all_spaces-replicate (suc n) = all_spaces-replicate n

all_spaces-cons : (c : ℕ) (cs : List ℕ) → (c == space) ≡ false → all_spaces (c ∷ cs) ≡ false
unfolding all_spaces
all_spaces-cons c cs e = rw e refl

-- The base name of a displayed name, and the extension.
base_name-plain :
    (n : ℕ) (cs rest : List ℕ)
    → IsPlain cs
    → length cs ≤ n
    → base_name n (cs ++ dot ∷ rest) ≡ (cs, dot ∷ rest)
unfolding base_name
base_name-plain zero [] rest p le = refl
base_name-plain (suc n) [] rest p le = refl
base_name-plain zero (c ∷ cs) rest p le = absurd (omega arith)
base_name-plain (suc n) (c ∷ cs) rest (plain _ d s nz u p) le =
    rw (d, u, base_name-plain n cs rest p (omega arith)) refl

base_name-only : (n : ℕ) (cs : List ℕ) → IsPlain cs → length cs ≤ n → base_name n cs ≡ (cs, [])
unfolding base_name
base_name-only zero [] p le = refl
base_name-only (suc n) [] p le = refl
base_name-only zero (c ∷ cs) p le = absurd (omega arith)
base_name-only (suc n) (c ∷ cs) (plain _ d s nz u p) le =
    rw (d, u, base_name-only n cs p (omega arith)) refl

map-toupper : (cs : List ℕ) → IsPlain cs → map toupper cs ≡ cs
map-toupper [] p = refl
map-toupper (c ∷ cs) (plain _ d s nz u p) = ap₂ (λ x l. x ∷ l) u (map-toupper cs p)

-- A displayed name is not "." or "..".
is_dots-plain : (c : ℕ) (cs : List ℕ) → (c == dot) ≡ false → is_dots (c ∷ cs) ≡ false
unfolding is_dots
is_dots-plain c [] e = e
is_dots-plain c (d ∷ []) e = rw e refl
is_dots-plain c (d ∷ f ∷ cs) e = refl

-- `to_8_3` of a base name, with and without an extension.
to_8_3-with :
    (b x : List ℕ)
    → IsPlain b
    → IsPlain x
    → length b ≤ 8
    → length x ≤ 3
    → is_dots (b ++ dot ∷ x) ≡ false
    → to_8_3 (b ++ dot ∷ x) ≡ padded 8 b ++ padded 3 x
unfolding to_8_3 after_dot skip_to_dot
to_8_3-with b x p q short three dots =
    rw (dots, base_name-plain 8 b x p short, take-all 3 x three, map-toupper x q) refl

to_8_3-without :
    (b : List ℕ)
    → IsPlain b
    → length b ≤ 8
    → is_dots b ≡ false
    → to_8_3 b ≡ padded 8 b ++ padded 3 []
unfolding to_8_3 after_dot skip_to_dot
to_8_3-without b p short dots = rw (dots, base_name-only 8 b p short) refl

is_dots-IsPlain : (b : List ℕ) → IsPlain b → is_dots b ≡ false
unfolding is_dots
is_dots-IsPlain [] p = refl
is_dots-IsPlain (c ∷ cs) (plain _ d s nz u p) = is_dots-plain c cs d

is_dots-with :
    (b : List ℕ) (c : ℕ) (x : List ℕ)
    → IsPlain b
    → (c == dot) ≡ false
    → is_dots (b ++ dot ∷ c ∷ x) ≡ false
unfolding is_dots
is_dots-with [] c [] p d = d
is_dots-with [] c (y ∷ x) p d = refl
is_dots-with (a ∷ b) c x (plain _ e s nz u p) d = is_dots-plain a (b ++ dot ∷ c ∷ x) e

-- An entry whose name and extension are padded with spaces.
pub record Stored (e : Dirent) (base suffix : List ℕ) : Type 0 where
  pub base-IsPlain : IsPlain base
  pub suffix-IsPlain : IsPlain suffix
  pub base_short : length base ≤ 8
  pub suffix_short : length suffix ≤ 3
  pub stored_name : e.name ≡ padded 8 base
  pub stored_ext : e.ext ≡ padded 3 suffix

display-without :
    (e : Dirent) (b : List ℕ)
    → IsPlain b
    → e.name ≡ padded 8 b
    → e.ext ≡ padded 3 []
    → dirent_display_name e ≡ b
unfolding dirent_display_name padded
display-without e b p n x =
    rw (n, x, all_spaces-replicate 3) (before_space-padded (8 - length b) b p)

display-with :
    (e : Dirent) (b x : List ℕ) (c : ℕ)
    → IsPlain b
    → IsPlain (c ∷ x)
    → e.name ≡ padded 8 b
    → e.ext ≡ padded 3 (c ∷ x)
    → dirent_display_name e ≡ b ++ dot ∷ c ∷ x
unfolding dirent_display_name padded
display-with e b x c p (plain _ d s nz u q) n y =
    rw (n, y, some_character)
      (ap₂ (λ k l. k ++ dot ∷ l) (before_space-padded (8 - length b) b p)
        (before_space-padded (3 - length (c ∷ x)) (c ∷ x) (plain c d s nz u q)))
  where
    some_character : all_spaces (c ∷ (x ++ replicate (3 - length (c ∷ x)) space)) ≡ false
    some_character = all_spaces-cons c (x ++ replicate (3 - length (c ∷ x)) space) s

-- The name that an entry is shown under leads back to the entry: `to_8_3` of the displayed name is the
-- stored name and extension, whose characters, up to the spaces that fill them, are neither NUL, dots,
-- spaces nor lower-case letters.
pub to_8_3-display :
    (e : Dirent) (base suffix : List ℕ)
    → Stored e base suffix
    → to_8_3 (dirent_display_name e) ≡ e.name ++ e.ext
to_8_3-display e b [] h =
    ap to_8_3 (display-without e b h.base-IsPlain h.stored_name h.stored_ext)
    ∙ to_8_3-without b h.base-IsPlain h.base_short (is_dots-IsPlain b h.base-IsPlain)
    ∙ ap₂ (λ u v. u ++ v) (sym h.stored_name) (sym h.stored_ext)
to_8_3-display e b (c ∷ x) h =
    ap to_8_3 (display-with e b x c h.base-IsPlain h.suffix-IsPlain h.stored_name h.stored_ext)
    ∙ to_8_3-with b (c ∷ x) h.base-IsPlain h.suffix-IsPlain h.base_short h.suffix_short
        (is_dots-with b c x h.base-IsPlain (no_dot c x h.suffix-IsPlain))
    ∙ ap₂ (λ u v. u ++ v) (sym h.stored_name) (sym h.stored_ext)
  where
    no_dot : (c : ℕ) (x : List ℕ) → IsPlain (c ∷ x) → (c == dot) ≡ false
    no_dot c x (plain _ d s nz u q) = d

-- The 11 bytes.
length-padded : (n : ℕ) (cs : List ℕ) → length cs ≤ n → length (padded n cs) ≡ n
unfolding padded
length-padded n cs le = omega (
  arith,
  length-append cs (replicate (n - length cs) space),
  length-replicate (n - length cs) space,
)

length-base_name : (n : ℕ) (cs : List ℕ) → length ((base_name n cs).0) ≤ n
unfolding base_name
length-base_name zero cs = omega arith
length-base_name (suc n) [] = omega arith
length-base_name (suc n) (c ∷ cs) = elim (Bool-cases (c == dot)) [
  | inl e ↦ rw e (omega arith)
  | inr e ↦ rw e (omega (arith, length-base_name n cs))
]

length-is_dots : (cs : List ℕ) → is_dots cs ≡ true → length cs ≤ 11
unfolding is_dots
length-is_dots [] e = omega arith
length-is_dots (c ∷ []) e = omega arith
length-is_dots (c ∷ d ∷ []) e = omega arith
length-is_dots (c ∷ d ∷ f ∷ cs) e = cc

-- `to_8_3` writes exactly the 11 bytes of its array, whatever the name.
pub length-to_8_3 : (cs : List ℕ) → length (to_8_3 cs) ≡ 11
unfolding to_8_3
length-to_8_3 cs = elim (Bool-cases (is_dots cs)) [
  | inl e ↦ rw e (length-padded 11 cs (length-is_dots cs e))
  | inr e ↦ rw e (
      omega (
        arith,
        length-append (padded 8 ((base_name 8 cs).0)) (padded 3 extension),
        length-padded 8 ((base_name 8 cs).0) (length-base_name 8 cs),
        length-padded 3 extension (
            omega (
              arith,
              length-map (take 3 (after_dot (skip_to_dot ((base_name 8 cs).1)))) toupper,
              length-take 3 (after_dot (skip_to_dot ((base_name 8 cs).1))),
            )),
      ))
]
  where
    extension : List ℕ
    extension = map toupper (take 3 (after_dot (skip_to_dot ((base_name 8 cs).1))))
