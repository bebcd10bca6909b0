-- ===== src/BootConfig/Change.antt =====
-- kernel/bootcfg.c: what `bootcfg_buf_set` makes of a buffer that holds a list of settings.
use null_os.Prelude.{
  ℕ, suc, ◌+◌, ◌-◌, ◌≤◌, ◌≡◌, refl, sym, ap, ap₂, ◌∙◌, true, false, List, [], ◌∷◌, ◌++◌, ◌==◌,
  length, get_or, take, drop, replicate, arith, Bool-cases, inl, inr, ==_iff, append_assoc,
  append-nil, length-append, length-replicate, replicate-append, take-append-drop,
}
use null_os.Prelude.Bytes.{take-store_bytes, drop-store_bytes, take_part, drop_part, store_bytes}
use null_os.BootConfig.{
  magic, magic_len, newline, equals, key_char, all_key_chars, key_valid, cfg_used, line_length,
  remove_line, has_newline, new_line, append_line,
}
use null_os.BootConfig.Text.{
  Setting, text, Lacks, lacks_none, lacks_one, IsClean, all_none, all_one, Absent, body,
  text-append,
}
use null_os.BootConfig.Store.{Encodes, text_of-Encodes, around_line, AllClean-append, line_start}

-- The settings `es` without the one of the key.
pub data Without (k : List ℕ) : (es rest : List Setting) → Type 0 where
  without_any : {es : List Setting} → Absent k es → Without k es es
  without_one :
      (before : List Setting) (value : List ℕ) (after : List Setting)
      → Absent k before
      → Absent k after
      → Without k (before ++ (record { key = k; value = value } ∷ after)) (before ++ after)

-- A valid key is free of the characters that end a key.
key_char-Lacks : (x : ℕ) (k : List ℕ) → key_char x ≡ false → all_key_chars k ≡ true → Lacks x k
unfolding all_key_chars
key_char-Lacks x [] e h = lacks_none
key_char-Lacks x (c ∷ k) e h = elim (Bool-cases (c == x)) [
  | inr other ↦ lacks_one other (key_char-Lacks x k e (ground arith))
  | inl same ↦ absurd (cc (ap key_char ((==_iff c x).0 same), e, h))
]

valid_chars : (k : List ℕ) → key_valid k ≡ true → all_key_chars k ≡ true
unfolding key_valid
valid_chars k h = ground arith

pub valid-IsClean :
    (e : Setting) → key_valid e.key ≡ true → Lacks 0 e.value → Lacks newline e.value → IsClean e
unfolding key_char
valid-IsClean e valid z n = record {
  key_no_nul = key_char-Lacks 0 e.key refl (valid_chars e.key valid);
  key_no_newline = key_char-Lacks newline e.key refl (valid_chars e.key valid);
  key_no_equals = key_char-Lacks equals e.key refl (valid_chars e.key valid);
  value_no_nul = z;
  value_no_newline = n;
}

pub has_newline-Lacks : (l : List ℕ) → Lacks newline l → has_newline l ≡ false
unfolding has_newline
has_newline-Lacks [] lacks_none = refl
has_newline-Lacks (c ∷ l) (lacks_one e h) = rw (e, has_newline-Lacks l h) refl

-- A store at the end of a part.
store_after :
    (k l r bs : List ℕ)
    → length l ≡ length bs
    → store_bytes (length k) bs (k ++ (l ++ r)) ≡ k ++ (bs ++ r)
store_after k l r bs e =
    sym (take-append-drop (length k) (store_bytes (length k) bs (k ++ (l ++ r))))
    ∙ ap₂ (λ x y. x ++ y)
        (take-store_bytes (length k) bs (k ++ (l ++ r)) ∙ take_part (length k) k (l ++ r) refl)
        (drop-store_bytes (length k) bs (k ++ (l ++ r))
            (omega (arith, e, length-append k (l ++ r), length-append l r))
          ∙ ap (λ x. bs ++ x)
              (ap (drop (length k + length bs)) (sym (append_assoc k l r))
                ∙ drop_part (length k + length bs) (k ++ l) r
                    (omega (arith, e, length-append k l))))

length-new_line : (e : Setting) → length (new_line e.key e.value) ≡ length (body e) + 1
length-new_line e = omega (
  arith,
  length-append e.key (equals ∷ (e.value ++ (newline ∷ []))),
  length-append e.value (newline ∷ []),
  length-append e.key (equals ∷ e.value),
)

pub cfg_used-Encodes :
    (es : List Setting) (buf : List ℕ) → Encodes es buf → cfg_used buf ≡ line_start es
unfolding cfg_used
cfg_used-Encodes es buf h = ap (λ l. magic_len + length l) (text_of-Encodes es buf h)

text_one :
    (es : List Setting) (e : Setting) (left : ℕ)
    → magic ++ ((text es ++ text (e ∷ [])) ++ replicate (suc left) 0)
      ≡ (magic ++ text es) ++ ((new_line e.key e.value ++ (0 ∷ [])) ++ replicate left 0)
unfolding text
text_one es e left = simp (append_assoc, append-nil)

-- Appending the line of a setting, where the zeros have room for it.
pub append_line-Encodes :
    (es : List Setting) (e : Setting) (buf : List ℕ) (h : Encodes es buf)
    → IsClean e
    → length (body e) + 2 ≤ h.zeros
    → Encodes (es ++ (e ∷ [])) (append_line e.key e.value buf)
unfolding append_line
append_line-Encodes es e buf h c room = record {
  clean = AllClean-append es (e ∷ []) h.clean (all_one c all_none);
  zeros = h.zeros - (length (body e) + 1);
  shape =
      ap₂ (λ n l. store_bytes n line l)
        (cfg_used-Encodes es buf h ∙ sym (length-append magic (text es))) split
      ∙ store_after (magic ++ text es) (replicate (length (body e) + 2) 0) (replicate left 0) line (
          length-replicate (length (body e) + 2) 0
          ∙ omega (arith, length-append (new_line e.key e.value) (0 ∷ []), length-new_line e))
      ∙ joined
      ∙ ap (λ n. magic ++ (text (es ++ (e ∷ [])) ++ replicate n 0)) {x = suc left}
          {y = h.zeros - (length (body e) + 1)} (omega arith);
}
  where
    line : List ℕ
    line = new_line e.key e.value ++ (0 ∷ [])

    left : ℕ
    left = h.zeros - (length (body e) + 2)

    split : buf ≡ (magic ++ text es) ++ (replicate (length (body e) + 2) 0 ++ replicate left 0)
    split =
        h.shape
        ∙ sym (append_assoc magic (text es) (replicate h.zeros 0))
        ∙ ap (λ l. (magic ++ text es) ++ l)
            (ap (λ n. replicate n 0) {x = h.zeros} {y = length (body e) + 2 + left} (omega arith)
              ∙ sym (replicate-append (length (body e) + 2) left 0))

    joined :
        (magic ++ text es) ++ (line ++ replicate left 0)
        ≡ magic ++ (text (es ++ (e ∷ [])) ++ replicate (suc left) 0)
    joined = sym (
        ap (λ l. magic ++ (l ++ replicate (suc left) 0)) (text-append es (e ∷ []))
        ∙ text_one es e left)

-- Removing the line of a setting.
get_or_after : (k l : List ℕ) (x : ℕ) → get_or (k ++ (x ∷ l)) (length k) 0 ≡ x
get_or_after [] l x = refl
get_or_after (y ∷ k) l x = get_or_after k l x

pub line_length-Encodes :
    (before : List Setting) (e : Setting) (after : List Setting) (buf : List ℕ)
    → Encodes (before ++ (e ∷ after)) buf
    → line_length (line_start before, line_start before + length (body e)) buf ≡ length (body e) + 1
unfolding line_length
line_length-Encodes before e after buf h = rw at_newline (omega arith)
  where
    shape :
        buf ≡ ((magic ++ text before) ++ body e) ++ (newline ∷ (text after ++ replicate h.zeros 0))
    shape =
        h.shape
        ∙ around_line before e after h.zeros
        ∙ sym (
            append_assoc (magic ++ text before) (body e)
              (newline ∷ (text after ++ replicate h.zeros 0)))

    at_newline : get_or buf (line_start before + length (body e)) 0 ≡ newline
    at_newline =
        ap (λ l. get_or l (line_start before + length (body e)) 0) shape
        ∙ ap
            (λ n.
              get_or
                (((magic ++ text before) ++ body e)
                  ++ (newline ∷ (text after ++ replicate h.zeros 0)))
                n 0)
            {x = line_start before + length (body e)}
            {y = length ((magic ++ text before) ++ body e)}
            (omega (
              arith,
              length-append (magic ++ text before) (body e),
              length-append magic (text before),
            ))
        ∙ get_or_after ((magic ++ text before) ++ body e) (text after ++ replicate h.zeros 0)
            newline

pub remove_line-Encodes :
    (before : List Setting) (e : Setting) (after : List Setting) (buf : List ℕ)
    (h : Encodes (before ++ (e ∷ after)) buf)
    → remove_line (line_start before, line_start before + length (body e)) buf
      ≡ magic ++ (text (before ++ after) ++ replicate (h.zeros + (length (body e) + 1)) 0)
unfolding remove_line
remove_line-Encodes before e after buf h =
    ap (λ n. take (line_start before) buf ++ (drop (line_start before + n) buf ++ replicate n 0))
      (line_length-Encodes before e after buf h)
    ∙ ap₂ (λ x y. x ++ (y ++ replicate gap 0)) front back
    ∙ joined
  where
    gap : ℕ
    gap = length (body e) + 1

    tail : List ℕ
    tail = text after ++ replicate h.zeros 0

    shape : buf ≡ (magic ++ text before) ++ (body e ++ (newline ∷ tail))
    shape = h.shape ∙ around_line before e after h.zeros

    front : take (line_start before) buf ≡ magic ++ text before
    front =
        ap (take (line_start before)) shape
        ∙ take_part (line_start before) (magic ++ text before) (body e ++ (newline ∷ tail))
            (length-append magic (text before))

    split :
        (magic ++ text before) ++ (body e ++ (newline ∷ tail))
        ≡ ((magic ++ text before) ++ (body e ++ (newline ∷ []))) ++ tail
    split = simp append_assoc

    back : drop (line_start before + gap) buf ≡ tail
    back =
        ap (drop (line_start before + gap)) (shape ∙ split)
        ∙ drop_part (line_start before + gap) ((magic ++ text before) ++ (body e ++ (newline ∷ [])))
            tail
            (omega (
              arith,
              length-append (magic ++ text before) (body e ++ (newline ∷ [])),
              length-append magic (text before),
              length-append (body e) (newline ∷ []),
            ))

    grouped :
        (magic ++ text before) ++ (tail ++ replicate gap 0)
        ≡ magic ++ (text before ++ (text after ++ (replicate h.zeros 0 ++ replicate gap 0)))
    grouped = simp append_assoc

    joined :
        (magic ++ text before) ++ (tail ++ replicate gap 0)
        ≡ magic ++ (text (before ++ after) ++ replicate (h.zeros + gap) 0)
    joined =
        grouped
        ∙ ap (λ l. magic ++ (text before ++ (text after ++ l))) (replicate-append h.zeros gap 0)
        ∙ ap (λ l. magic ++ l)
            (sym (append_assoc (text before) (text after) (replicate (h.zeros + gap) 0)))
        ∙ ap (λ l. magic ++ (l ++ replicate (h.zeros + gap) 0)) (sym (text-append before after))
