-- ===== src/BootConfig/Text.antt =====
-- kernel/bootcfg.c: the text of a list of entries, and what `find_key` finds in it.
use null_os.Prelude.{
  ℕ, zero, suc, ◌+◌, ◌<◌, ◌≡◌, refl, sym, ap, ap₂, ◌∙◌, ◌≢◌, true, false, none, some, List, [], ◌∷◌,
  ◌++◌, ◌==◌, length, drop, replicate, arith, Bool-cases, inl, inr, ==_refl, ==_iff, append_assoc,
  append-nil, length-append,
}
use null_os.BootConfig.{newline, equals, until_nul, line_of, key_matches, find_lines, new_line}

pub record Setting : Type 0 where
  pub key : List ℕ
  pub value : List ℕ

unfoldable pub text : List Setting → List ℕ
text [] = []
text (e ∷ es) = new_line e.key e.value ++ text es

-- The character does not occur.
pub data Lacks (x : ℕ) : List ℕ → Type 0 where
  lacks_none : Lacks x []
  lacks_one : {c : ℕ} {cs : List ℕ} → (c == x) ≡ false → Lacks x cs → Lacks x (c ∷ cs)

pub Lacks-append : (x : ℕ) (k l : List ℕ) → Lacks x k → Lacks x l → Lacks x (k ++ l)
Lacks-append x [] l lacks_none h = h
Lacks-append x (c ∷ k) l (lacks_one e g) h = lacks_one e (Lacks-append x k l g h)

-- A setting that a line can hold.
pub record IsClean (e : Setting) : Type 0 where
  pub key_no_nul : Lacks 0 e.key
  pub key_no_newline : Lacks newline e.key
  pub key_no_equals : Lacks equals e.key
  pub value_no_nul : Lacks 0 e.value
  pub value_no_newline : Lacks newline e.value

pub data AllClean : List Setting → Type 0 where
  all_none : AllClean []
  all_one : {e : Setting} {es : List Setting} → IsClean e → AllClean es → AllClean (e ∷ es)

-- No setting has the key.
pub data Absent (k : List ℕ) : List Setting → Type 0 where
  absent_none : Absent k []
  absent_one : {e : Setting} {es : List Setting} → k ≢ e.key → Absent k es → Absent k (e ∷ es)

abbrev pub body : Setting → List ℕ
body e = e.key ++ (equals ∷ e.value)

pub line-body :
    (e : Setting) (rest : List ℕ) → new_line e.key e.value ++ rest ≡ body e ++ (newline ∷ rest)
line-body e rest = simp append_assoc

line_of-append : (l rest : List ℕ) → Lacks newline l → line_of (l ++ (newline ∷ rest)) ≡ l
unfolding line_of
line_of-append [] rest h = refl
line_of-append (c ∷ l) rest (lacks_one e h) = rw e (ap (◌∷◌ c) (line_of-append l rest h))

body-Lacks : (e : Setting) → IsClean e → Lacks newline (body e)
body-Lacks e h =
    Lacks-append newline e.key (equals ∷ e.value) h.key_no_newline
      (lacks_one refl h.value_no_newline)

key_matches_self : (k l : List ℕ) → key_matches k (k ++ (equals ∷ l)) ≡ true
unfolding key_matches
key_matches_self [] l = refl
key_matches_self (c ∷ k) l = rw (==_refl c) (key_matches_self k l)

key_matches_other :
    (k j l : List ℕ)
    → Lacks equals k
    → Lacks equals j
    → k ≢ j
    → key_matches k (j ++ (equals ∷ l)) ≡ false
unfolding key_matches
key_matches_other [] [] l g h ne = absurd (ne refl)
key_matches_other [] (d ∷ j) l g (lacks_one e h) ne = e
key_matches_other (c ∷ k) [] l (lacks_one e g) h ne = rw e refl
key_matches_other (c ∷ k) (d ∷ j) l (lacks_one e g) (lacks_one f h) ne =
    elim (Bool-cases (c == d)) [
      | inr other ↦ rw other refl
      | inl same ↦
          rw same
            (key_matches_other k j l g h (λ p. ne (ap₂ (λ x y. x ∷ y) ((==_iff c d).0 same) p)))
    ]

drop_line : (l rest : List ℕ) → drop (length l + 1) (l ++ (newline ∷ rest)) ≡ rest
drop_line [] rest = refl
drop_line (c ∷ l) rest =
    ap (λ n. drop n (c ∷ (l ++ (newline ∷ rest)))) {x = length (c ∷ l) + 1} {y = suc (length l + 1)}
      (omega arith)
    ∙ drop_line l rest

-- One line of the search, of a text that starts with the line `l`.
find_lines-here :
    (fuel i : ℕ) (key l rest : List ℕ)
    → Lacks newline l
    → key_matches key l ≡ true
    → find_lines (suc fuel) key i (l ++ (newline ∷ rest)) ≡ some (i, i + length l)
unfolding find_lines
find_lines-here fuel i key [] rest h e = rw (line_of-append [] rest h, e) refl
find_lines-here fuel i key (c ∷ l) rest h e = rw (line_of-append (c ∷ l) rest h, e) refl

find_lines_skip :
    (fuel i : ℕ) (key l rest : List ℕ)
    → Lacks newline l
    → key_matches key l ≡ false
    → find_lines (suc fuel) key i (l ++ (newline ∷ rest))
      ≡ find_lines fuel key (i + length l + 1) rest
unfolding find_lines
find_lines_skip fuel i key [] rest h e = rw (line_of-append [] rest h, e) refl
find_lines_skip fuel i key (c ∷ l) rest h e =
    rw (line_of-append (c ∷ l) rest h, e)
      (ap (find_lines fuel key (i + length (c ∷ l) + 1)) (drop_line (c ∷ l) rest))

no_text : (fuel i : ℕ) (k : List ℕ) → find_lines fuel k i [] ≡ none
unfolding find_lines
no_text zero i k = refl
no_text (suc fuel) i k = refl

no_fuel : (i : ℕ) (k l rest : List ℕ) → find_lines 0 k i (l ++ (newline ∷ rest)) ≡ none
unfolding find_lines
no_fuel i k [] rest = refl
no_fuel i k (c ∷ l) rest = refl

-- The search of a text.
pub find_lines-Absent :
    (fuel i : ℕ) (k : List ℕ) (es : List Setting)
    → Lacks equals k
    → AllClean es
    → Absent k es
    → find_lines fuel k i (text es) ≡ none
unfolding text
find_lines-Absent fuel i k [] g all_none absent_none = no_text fuel i k
find_lines-Absent zero i k (e ∷ es) g (all_one h hs) (absent_one ne ms) =
    ap (find_lines 0 k i) (line-body e (text es)) ∙ no_fuel i k (body e) (text es)
find_lines-Absent (suc fuel) i k (e ∷ es) g (all_one h hs) (absent_one ne ms) =
    ap (find_lines (suc fuel) k i) (line-body e (text es))
    ∙ find_lines_skip fuel i k (body e) (text es) (body-Lacks e h)
        (key_matches_other k e.key e.value g h.key_no_equals ne)
    ∙ find_lines-Absent fuel (i + length (body e) + 1) k es g hs ms

pub find_lines-present :
    (fuel i : ℕ) (e : Setting) (before after : List Setting)
    → IsClean e
    → AllClean before
    → Absent e.key before
    → length before < fuel
    → find_lines fuel e.key i (text (before ++ (e ∷ after)))
      ≡ some (i + length (text before), i + length (text before) + length (body e))
unfolding text
find_lines-present zero i e before after h hs ms lt = absurd (omega arith)
find_lines-present (suc fuel) i e [] after h all_none absent_none lt =
    ap (find_lines (suc fuel) e.key i) (line-body e (text after))
    ∙ find_lines-here fuel i e.key (body e) (text after) (body-Lacks e h)
        (key_matches_self e.key e.value)
    ∙ ap₂ (λ x y. some (x, y)) {x = i} {y = i + 0} (omega arith) (omega arith)
find_lines-present (suc fuel) i e (d ∷ ds) after h (all_one g hs) (absent_one ne ms) lt =
    ap (find_lines (suc fuel) e.key i) (line-body d (text (ds ++ (e ∷ after))))
    ∙ find_lines_skip fuel i e.key (body d) (text (ds ++ (e ∷ after))) (body-Lacks d g)
        (key_matches_other e.key d.key d.value h.key_no_equals g.key_no_equals ne)
    ∙ find_lines-present fuel (i + length (body d) + 1) e ds after h hs ms (omega arith)
    ∙ ap₂ (λ x y. some (x, y)) {x = i + length (body d) + 1 + length (text ds)}
        {y = i + length (new_line d.key d.value ++ text ds)}
        (omega
          (arith, ap length (line-body d (text ds)), length-append (body d) (newline ∷ text ds)))
        (omega
          (arith, ap length (line-body d (text ds)), length-append (body d) (newline ∷ text ds)))

-- Before its zeros the buffer is the text.
until_nul-zeros : (n : ℕ) → until_nul (replicate n 0) ≡ []
unfolding until_nul
until_nul-zeros zero = refl
until_nul-zeros (suc n) = refl

until_nul-append : (l rest : List ℕ) → Lacks 0 l → until_nul (l ++ rest) ≡ l ++ until_nul rest
unfolding until_nul
until_nul-append [] rest h = refl
until_nul-append (c ∷ l) rest (lacks_one e h) = rw e (ap (◌∷◌ c) (until_nul-append l rest h))

text-Lacks : (es : List Setting) → AllClean es → Lacks 0 (text es)
unfolding text
text-Lacks [] all_none = lacks_none
text-Lacks (e ∷ es) (all_one h hs) =
    Lacks-append 0 (new_line e.key e.value) (text es)
      (Lacks-append 0 e.key (equals ∷ (e.value ++ (newline ∷ []))) h.key_no_nul (
        lacks_one refl
          (Lacks-append 0 e.value (newline ∷ []) h.value_no_nul (lacks_one refl lacks_none))))
      (text-Lacks es hs)

pub until_nul-text :
    (es : List Setting) (n : ℕ) → AllClean es → until_nul (text es ++ replicate n 0) ≡ text es
until_nul-text es n h =
    until_nul-append (text es) (replicate n 0) (text-Lacks es h)
    ∙ ap (λ l. text es ++ l) (until_nul-zeros n)
    ∙ append-nil (text es)

pub text-append : (es fs : List Setting) → text (es ++ fs) ≡ text es ++ text fs
unfolding text
text-append [] fs = refl
text-append (e ∷ es) fs =
    ap (λ l. new_line e.key e.value ++ l) (text-append es fs)
    ∙ sym (append_assoc (new_line e.key e.value) (text es) (text fs))
