-- ===== src/BootConfig/Writing.antt =====
-- kernel/bootcfg.c: `bootcfg_buf_set` as a change of the list of settings.
use null_os.Prelude.{
  ℕ, ◌+◌, ◌-◌, ◌≤◌, ◌<◌, ◌≡◌, refl, sym, ap, subst, ◌∙◌, ◌≢◌, ◌⊎◌, true, false, none, some, List,
  [], ◌∷◌, ◌++◌, if◌then◌else◌, length, take, arith, Bool-cases, inl, inr, length-append,
  append_assoc, length-replicate, ltb, ltb→lt, replicate,
}
use null_os.Prelude.Bytes.{length-store_bytes}
use null_os.BootConfig.{
  config_size, magic, newline, equals, key_valid, find_key, cfg_used, buf_get, line_length,
  remove_line, has_newline, new_line, append_line, buf_set,
}
use null_os.BootConfig.Text.{
  Setting, text, Lacks, IsClean, AllClean, Absent, absent_none, absent_one, body, text-append,
  line-body,
}
use null_os.BootConfig.Store.{
  Encodes, find_key-present, find_key-Absent, buf_get-present, AllClean-append, AllClean-before,
  AllClean-after, line_start,
}
use null_os.BootConfig.Change.{
  Without, without_any, without_one, valid-IsClean, has_newline-Lacks, append_line-Encodes,
  remove_line-Encodes, line_length-Encodes, cfg_used-Encodes,
}

length-Encodes :
    (es : List Setting) (buf : List ℕ) (h : Encodes es buf) → length buf ≡ line_start es + h.zeros
length-Encodes es buf h = omega (
  arith,
  ap length h.shape,
  length-append magic (text es ++ replicate h.zeros 0),
  length-append (text es) (replicate h.zeros 0),
  length-replicate {A = ℕ} h.zeros 0,
)

length-text_around :
    (before : List Setting) (e : Setting) (after : List Setting)
    → length (text (before ++ (e ∷ after))) ≡ length (text (before ++ after)) + length (body e) + 1
unfolding text
length-text_around before e after = omega (
  arith,
  ap length (text-append before (e ∷ after)),
  length-append (text before) (text (e ∷ after)),
  ap length (line-body e (text after)),
  length-append (body e) (newline ∷ text after),
  ap length (text-append before after),
  length-append (text before) (text after),
)

Absent-append :
    (k : List ℕ) (es fs : List Setting) → Absent k es → Absent k fs → Absent k (es ++ fs)
Absent-append k [] fs absent_none h = h
Absent-append k (e ∷ es) fs (absent_one ne g) h = absent_one ne (Absent-append k es fs g h)

-- The buffer holds the settings and then the new one, and the value of the new one is read back.
pub record Stored (e : Setting) (rest : List Setting) (max : ℕ) (buf : List ℕ) : Type 0 where
  pub holds : Encodes (rest ++ (e ∷ [])) buf
  pub one_sector : length buf ≡ config_size
  pub read_back : buf_get e.key max buf ≡ some (take (max - 1) e.value)

append_line-Stored :
    (e : Setting) (rest : List Setting) (max : ℕ) (buf : List ℕ)
    → Encodes rest buf
    → length buf ≡ config_size
    → Absent e.key rest
    → IsClean e
    → key_valid e.key ≡ true
    → max ≢ 0
    → line_start rest + (length (body e) + 1) < config_size
    → Stored e rest max (append_line e.key e.value buf)
unfolding append_line
append_line-Stored e rest max buf h size absent clean valid some_room fits = record {
  holds = after;
  one_sector = length-store_bytes (cfg_used buf) (new_line e.key e.value ++ (0 ∷ [])) buf ∙ size;
  read_back =
      buf_get-present rest e [] (append_line e.key e.value buf) max after absent valid some_room;
}
  where
    after : Encodes (rest ++ (e ∷ [])) (append_line e.key e.value buf)
    after =
        append_line-Encodes rest e buf h clean
          (omega (arith, size, length-Encodes rest buf h, fits))

abbrev pub new_length : Setting → ℕ
new_length e = length e.key + 1 + length e.value + 1

length-body : (e : Setting) → new_length e ≡ length (body e) + 1
length-body e = omega (arith, length-append e.key (equals ∷ e.value))

set_new :
    (e : Setting) (buf : List ℕ)
    → key_valid e.key ≡ true
    → has_newline e.value ≡ false
    → find_key e.key buf ≡ none
    → buf_set e.key e.value buf ≡ (
        if ltb (config_size - 1) (cfg_used buf + new_length e)
        then none
        else some (append_line e.key e.value buf))
unfolding buf_set
set_new e buf v n f = rw (v, n, f) refl

set_again :
    (e : Setting) (buf : List ℕ) (line : ℕ × ℕ)
    → key_valid e.key ≡ true
    → has_newline e.value ≡ false
    → find_key e.key buf ≡ some line
    → buf_set e.key e.value buf ≡ (
        if ltb (config_size - 1) (cfg_used buf - line_length line buf + new_length e)
        then none
        else some (append_line e.key e.value (remove_line line buf)))
unfolding buf_set
set_again e buf line v n f = rw (v, n, f) refl

not_over : (n : ℕ) → ltb (config_size - 1) n ≡ false → n < config_size
not_over n under = ground arith

chosen :
    {A : Type 0} (n : ℕ) (a : A)
    → ((n < config_size) × ((if ltb (config_size - 1) n then none else some a) ≡ some a))
      ⊎ ((config_size ≤ n) × ((if ltb (config_size - 1) n then none else some a) ≡ none))
chosen n a = elim (Bool-cases (ltb (config_size - 1) n)) [
  | inl over ↦ inr (omega (arith, ltb→lt (config_size - 1) n over), rw over refl)
  | inr under ↦ inl (not_over n under, rw under refl)
]

-- What `bootcfg_buf_set` does where the settings `rest` and the new one take `n` characters.
abbrev pub SetOutcome : (e : Setting) (rest : List Setting) (max n : ℕ) (buf : List ℕ) → Type 0
SetOutcome e rest max n buf =
    ((n < config_size)
      × ((after : List ℕ) × (buf_set e.key e.value buf ≡ some after) × Stored e rest max after))
    ⊎ ((config_size ≤ n) × (buf_set e.key e.value buf ≡ none))

outcome :
    (e : Setting) (rest : List Setting) (max m n : ℕ) (buf emptied : List ℕ)
    → m ≡ n
    → n ≡ line_start rest + (length (body e) + 1)
    → buf_set e.key e.value buf
      ≡ (if ltb (config_size - 1) m then none else some (append_line e.key e.value emptied))
    → Encodes rest emptied
    → length emptied ≡ config_size
    → Absent e.key rest
    → IsClean e
    → key_valid e.key ≡ true
    → max ≢ 0
    → SetOutcome e rest max n buf
outcome e rest max m n buf emptied q p eq h size absent clean valid some_room =
    elim (chosen m (append_line e.key e.value emptied)) [
      | inl (fits, taken) ↦ inl (
        omega (arith, fits, q),
        (
          append_line e.key e.value emptied,
          eq ∙ taken,
          append_line-Stored e rest max emptied h size absent clean valid some_room
              (omega (arith, fits, p, q)),
        ),
      )
      | inr (full, taken) ↦ inr (omega (arith, full, q), eq ∙ taken)
    ]

Encodes-removed :
    (before : List Setting) (e : Setting) (after : List Setting) (buf : List ℕ)
    → Encodes (before ++ (e ∷ after)) buf
    → Encodes
        (before ++ after)
        (remove_line (line_start before, line_start before + length (body e)) buf)
Encodes-removed before e after buf h = record {
  clean = AllClean-append before after (AllClean-before before (e ∷ after) h.clean) (
      AllClean-after (before ++ (e ∷ [])) after
        (subst AllClean (sym (append_assoc before (e ∷ []) after)) h.clean));
  zeros = h.zeros + (length (body e) + 1);
  shape = remove_line-Encodes before e after buf h;
}

length-removed :
    (before : List Setting) (e : Setting) (after : List Setting) (buf : List ℕ)
    → Encodes (before ++ (e ∷ after)) buf
    → length (remove_line (line_start before, line_start before + length (body e)) buf) ≡ length buf
length-removed before e after buf h = omega (
  arith,
  ap length (remove_line-Encodes before e after buf h),
  length-append magic (text (before ++ after) ++ replicate (h.zeros + (length (body e) + 1)) 0),
  length-append (text (before ++ after)) (replicate (h.zeros + (length (body e) + 1)) 0),
  length-replicate {A = ℕ} (h.zeros + (length (body e) + 1)) 0,
  length-Encodes (before ++ (e ∷ after)) buf h,
  length-text_around before e after,
)

-- `bootcfg_buf_set`, with a valid key and a value of one line, on a sector that holds a list of
-- settings with the key at most once: where the new line fits, with the old line of the key taken
-- out, the sector then holds the other settings in their order and the new one at the end, and
-- `bootcfg_buf_get` of the key reads the value, cut to the room the caller gives; otherwise the
-- result is -1.
pub buf_set-Stored :
    (e : Setting) (es rest : List Setting) (buf : List ℕ) (max : ℕ)
    → Encodes es buf
    → length buf ≡ config_size
    → Without e.key es rest
    → key_valid e.key ≡ true
    → Lacks 0 e.value
    → Lacks newline e.value
    → max ≢ 0
    → SetOutcome e rest max (line_start rest + new_length e) buf
buf_set-Stored e es rest buf max h size (without_any absent) valid z n some_room =
    outcome e es max (cfg_used buf + new_length e) (line_start es + new_length e) buf buf
      (ap (λ k. k + new_length e) (cfg_used-Encodes es buf h))
      (ap (λ k. line_start es + k) (length-body e))
      (set_new e buf valid (has_newline-Lacks e.value n)
        (find_key-Absent e.key es buf h clean.key_no_equals absent))
      h size absent clean valid some_room
  where
    clean : IsClean e
    clean = valid-IsClean e valid z n
buf_set-Stored e es rest buf max h size (without_one before v after g a) valid z n some_room =
    outcome e rest max (cfg_used buf - line_length line buf + new_length e)
      (line_start rest + new_length e) buf (remove_line line buf)
      (omega (
        arith,
        cfg_used-Encodes es buf h,
        line_length-Encodes before d after buf h,
        length-text_around before d after,
      ))
      (ap (λ k. line_start rest + k) (length-body e))
      (set_again e buf line valid (has_newline-Lacks e.value n)
        (find_key-present before d after buf h g))
      emptied (length-removed before d after buf h ∙ size) (Absent-append e.key before after g a)
      (valid-IsClean e valid z n) valid some_room
  where
    d : Setting
    d = record { key = e.key; value = v }

    line : ℕ × ℕ
    line = (line_start before, line_start before + length (body d))

    emptied : Encodes rest (remove_line line buf)
    emptied = Encodes-removed before d after buf h
