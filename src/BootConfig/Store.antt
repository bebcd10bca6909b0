-- ===== src/BootConfig/Store.antt =====
-- kernel/bootcfg.c: a buffer as a list of settings, what `bootcfg_buf_get` reads of it, and what
-- `bootcfg_buf_set` and `bootcfg_buf_remove` make of it.
use null_os.Prelude.{
  ℕ, ◌+◌, ◌-◌, ◌≤◌, ◌≡◌, refl, ap, ap₂, ◌∙◌, ◌≢◌, Bool, true, false, ◌||◌, not, Option, none, some,
  List, [], ◌∷◌, ◌++◌, ◌==◌, if◌then◌else◌, length, take, drop, replicate, min, arith, ==_of_ne,
  append_assoc, append-nil, length-append, take-min, take-append,
}
use null_os.Prelude.Bytes.{drop_part}
use null_os.BootConfig.{
  magic, magic_len, newline, equals, key_valid, text_of, find_key, buf_get, find_lines, until_nul,
}
use null_os.BootConfig.Text.{
  Setting, text, Lacks, IsClean, AllClean, all_none, all_one, Absent, body, line-body,
  find_lines-Absent, find_lines-present, until_nul-text, text-append,
}

-- The buffer holds the settings, in their order, and zeros behind them.
pub record Encodes (es : List Setting) (buf : List ℕ) : Type 0 where
  pub clean : AllClean es
  pub zeros : ℕ
  pub shape : buf ≡ magic ++ (text es ++ replicate zeros 0)

pub text_of-Encodes : (es : List Setting) (buf : List ℕ) → Encodes es buf → text_of buf ≡ text es
unfolding text_of
text_of-Encodes es buf h =
    ap (λ l. until_nul (drop magic_len l)) h.shape ∙ until_nul-text es h.zeros h.clean

find_key-Encodes :
    (k : List ℕ) (es : List Setting) (buf : List ℕ)
    → Encodes es buf
    → find_key k buf ≡ find_lines (length (text es)) k magic_len (text es)
unfolding find_key
find_key-Encodes k es buf h =
    ap (λ l. find_lines (length l) k magic_len l) (text_of-Encodes es buf h)

length-text : (es : List Setting) → length es ≤ length (text es)
unfolding text
length-text [] = omega arith
length-text (e ∷ es) = omega (
  arith,
  ap length (line-body e (text es)),
  length-append (body e) (newline ∷ text es),
  length-text es,
)

pub AllClean-before : (es fs : List Setting) → AllClean (es ++ fs) → AllClean es
AllClean-before [] fs h = all_none
AllClean-before (e ∷ es) fs (all_one g h) = all_one g (AllClean-before es fs h)

pub AllClean-after : (es fs : List Setting) → AllClean (es ++ fs) → AllClean fs
AllClean-after [] fs h = h
AllClean-after (e ∷ es) fs (all_one g h) = AllClean-after es fs h

pub AllClean-append : (es fs : List Setting) → AllClean es → AllClean fs → AllClean (es ++ fs)
AllClean-append [] fs all_none h = h
AllClean-append (e ∷ es) fs (all_one g k) h = all_one g (AllClean-append es fs k h)

first-IsClean : (e : Setting) (es : List Setting) → AllClean (e ∷ es) → IsClean e
first-IsClean e es (all_one g h) = g

AllClean-at :
    (before : List Setting) (e : Setting) (after : List Setting)
    → AllClean (before ++ (e ∷ after))
    → IsClean e
AllClean-at before e after h = first-IsClean e after (AllClean-after before (e ∷ after) h)

abbrev pub line_start : List Setting → ℕ
line_start before = magic_len + length (text before)

pub find_key-present :
    (before : List Setting) (e : Setting) (after : List Setting) (buf : List ℕ)
    → Encodes (before ++ (e ∷ after)) buf
    → Absent e.key before
    → find_key e.key buf ≡ some (line_start before, line_start before + length (body e))
find_key-present before e after buf h absent =
    find_key-Encodes e.key (before ++ (e ∷ after)) buf h
    ∙ find_lines-present (length (text (before ++ (e ∷ after)))) magic_len e before after
        (AllClean-at before e after h.clean) (AllClean-before before (e ∷ after) h.clean) absent
        (omega (arith, length-text (before ++ (e ∷ after)), length-append before (e ∷ after)))

pub find_key-Absent :
    (k : List ℕ) (es : List Setting) (buf : List ℕ)
    → Encodes es buf
    → Lacks equals k
    → Absent k es
    → find_key k buf ≡ none
find_key-Absent k es buf h clean absent =
    find_key-Encodes k es buf h
    ∙ find_lines-Absent (length (text es)) magic_len k es clean h.clean absent

-- The buffer before and after the value, and before and after the line.
around_value :
    (before : List Setting) (e : Setting) (after : List Setting) (n : ℕ)
    → magic ++ (text (before ++ (e ∷ after)) ++ replicate n 0)
      ≡ (magic ++ (text before ++ (e.key ++ (equals ∷ []))))
        ++ (e.value ++ (newline ∷ (text after ++ replicate n 0)))
unfolding text
around_value before e after n =
    ap (λ l. magic ++ (l ++ replicate n 0)) (text-append before (e ∷ after)) ∙ simp append_assoc

pub around_line :
    (before : List Setting) (e : Setting) (after : List Setting) (n : ℕ)
    → magic ++ (text (before ++ (e ∷ after)) ++ replicate n 0)
      ≡ (magic ++ text before) ++ (body e ++ (newline ∷ (text after ++ replicate n 0)))
unfolding text
around_line before e after n =
    ap (λ l. magic ++ (l ++ replicate n 0)) (text-append before (e ∷ after)) ∙ simp append_assoc

-- What `bootcfg_buf_get` reads, for a key that the buffer has and for one that it has not.
length-before_value :
    (before : List Setting) (e : Setting)
    → length (magic ++ (text before ++ (e.key ++ (equals ∷ []))))
      ≡ line_start before + length e.key + 1
length-before_value before e = omega (
  arith,
  length-append magic (text before ++ (e.key ++ (equals ∷ []))),
  length-append (text before) (e.key ++ (equals ∷ [])),
  length-append e.key (equals ∷ []),
)

value_part : (n m : ℕ) (v rest : List ℕ) → length v ≡ n → take (min n m) (v ++ rest) ≡ take m v
value_part n m v rest e =
    take-append (min n m) v rest
    ∙ ap₂ (λ x y. x ++ y)
        (ap (λ k. take k v) {x = min n m} {y = min m n} (omega arith)
          ∙ take-min m n v (omega (arith, e)))
        (ap (λ k. take k rest) {x = min n m - length v} {y = 0} (omega (arith, e)))
    ∙ append-nil (take m v)

opened :
    {A : Type 0} (z k : Bool) (x y : A) → z ≡ false → k ≡ true → (if z || not k then x else y) ≡ y
opened z k x y e f = rw (e, f) refl

pub buf_get-present :
    (before : List Setting) (e : Setting) (after : List Setting) (buf : List ℕ) (max : ℕ)
    → Encodes (before ++ (e ∷ after)) buf
    → Absent e.key before
    → key_valid e.key ≡ true
    → max ≢ 0
    → buf_get e.key max buf ≡ some (take (max - 1) e.value)
unfolding buf_get
buf_get-present before e after buf max h absent valid some_room =
    opened (max == 0) (key_valid e.key) none _ (==_of_ne max 0 some_room) valid
    ∙ ap
        (λ o. elim o as (λ _. Option (List ℕ)) [
          | none ↦ none
          | some line ↦ some (
              take (min (line.1 - (line.0 + length e.key + 1)) (max - 1))
                (drop (line.0 + length e.key + 1) buf))
        ])
        (find_key-present before e after buf h absent)
    ∙ ap (λ l. some (take (min n (max - 1)) (drop start l)))
        (h.shape ∙ around_value before e after h.zeros)
    ∙ ap (λ l. some (take (min n (max - 1)) l))
        (drop_part start (magic ++ (text before ++ (e.key ++ (equals ∷ []))))
          (e.value ++ (newline ∷ (text after ++ replicate h.zeros 0)))
          (length-before_value before e))
    ∙ ap some (
        value_part n (max - 1) e.value (newline ∷ (text after ++ replicate h.zeros 0))
          (omega (arith, length-append e.key (equals ∷ e.value))))
  where
    start : ℕ
    start = line_start before + length e.key + 1

    n : ℕ
    n = line_start before + length (body e) - start

pub buf_get-Absent :
    (k : List ℕ) (es : List Setting) (buf : List ℕ) (max : ℕ)
    → Encodes es buf
    → Lacks equals k
    → Absent k es
    → key_valid k ≡ true
    → max ≢ 0
    → buf_get k max buf ≡ none
unfolding buf_get
buf_get-Absent k es buf max h clean absent valid some_room =
    opened (max == 0) (key_valid k) none _ (==_of_ne max 0 some_room) valid
    ∙ ap
        (λ o. elim o as (λ _. Option (List ℕ)) [
          | none ↦ none
          | some line ↦ some (
              take (min (line.1 - (line.0 + length k + 1)) (max - 1))
                (drop (line.0 + length k + 1) buf))
        ])
        (find_key-Absent k es buf h clean absent)
