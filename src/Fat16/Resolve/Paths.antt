-- ===== src/Fat16/Resolve/Paths.antt =====
-- kernel/fs/fat16.c: `resolve_path` against the walk along the components of a path, which are its
-- longest parts without a slash.
use mathlib.Core.Path.{fun_ext}
use null_os.Prelude.{
  ℕ, zero, suc, ◌+◌, ◌-◌, ◌≤◌, ◌<◌, ◌≡◌, ◌/◌, ◌%◌, refl, sym, ap, ap₂, subst, ◌∙◌, true, false,
  Bool-cases, inl, inr, List, [], ◌∷◌, ◌++◌, ◌==◌, if◌then◌else◌, length, arith, append_assoc,
  append-nil,
}
use null_os.Fat16.{Volume}
use null_os.Fat16.Dirent.{slash, to_8_3, is_directory}
use null_os.Fat16.Directory.{Result, ok, err, missing, ◌>>=◌, Found, dir_lookup}
use null_os.Fat16.Resolve.{
  path_component_max, skip_slashes, component, path_next_component, Place, subdirectory,
  resolve_rounds, is_absolute, resolve_from, resolve_path,
}

abbrev ended_word : List ℕ → List (List ℕ) → List (List ℕ)
ended_word [] ws = ws
ended_word (c ∷ w) ws = (c ∷ w) ∷ ws

-- The components of a path, of which `w` has been read of the first.
unfoldable pub components_from : (w path : List ℕ) → List (List ℕ)
components_from w [] = ended_word w []
components_from w (c ∷ path) =
    let next = ended_word w (components_from [] path) in
    let more = components_from (w ++ c ∷ []) path in if c == slash then next else more

abbrev pub components : List ℕ → List (List ℕ)
components path = components_from [] path

-- Goes on below the entry that was found, if its attribute says that it is a directory (bit 4).
abbrev pub below : Found → (ℕ → Result Place) → Result Place
below f k = if f.found.attr / 16 % 2 == 1 then k f.found.first_cluster else err missing

-- From directory `dir`, every component but the last leads to a subdirectory.
unfoldable pub follow : (dir : ℕ) (comp : List ℕ) (rest : List (List ℕ)) → Volume → Result Place
follow dir comp [] v = ok (record { parent = dir; name83 = to_8_3 comp })
follow dir comp (w ∷ ws) v = do
  f ← dir_lookup dir (to_8_3 comp) v
  below f (λ sub. follow sub w ws v)

abbrev pub follow_all : (dir : ℕ) → List (List ℕ) → Volume → Result Place
follow_all dir [] v = err missing
follow_all dir (w ∷ ws) v = follow dir w ws v

-- Every component fits its buffer.
pub data AllShort : List (List ℕ) → Type 0 where
  none_long : AllShort []
  one_short :
      {w : List ℕ} {ws : List (List ℕ)}
      → length w < path_component_max
      → AllShort ws
      → AllShort (w ∷ ws)

-- The first component of a path that starts with one, and what follows it.
first_word : List ℕ → List ℕ
first_word [] = []
first_word (c ∷ cs) = let rest = first_word cs in if c == slash then [] else c ∷ rest

after_word : List ℕ → List ℕ
after_word [] = []
after_word (c ∷ cs) = let rest = after_word cs in if c == slash then c ∷ cs else rest

component-first_word :
    (n : ℕ) (p : List ℕ) → length (first_word p) ≤ n → component n p ≡ (first_word p, after_word p)
unfolding component first_word after_word
component-first_word zero [] le = refl
component-first_word (suc n) [] le = refl
component-first_word zero (c ∷ cs) le = elim (Bool-cases (c == slash)) [
  | inl end ↦ rw end refl
  | inr more ↦ absurd (omega (arith, (rw more at le)))
]
component-first_word (suc n) (c ∷ cs) le = elim (Bool-cases (c == slash)) [
  | inl end ↦ rw end refl
  | inr more ↦ rw more (
      ap (λ (x : List ℕ × List ℕ). (c ∷ x.0, x.1))
        (component-first_word n cs (omega (arith, (rw more at le)))))
]

components-slash : (c : ℕ) (cs : List ℕ) → (c == slash) ≡ true → components (c ∷ cs) ≡ components cs
unfolding components_from
components-slash c cs e = rw e refl

components_from-first_word :
    (w p : List ℕ)
    → components_from w p ≡ ended_word (w ++ first_word p) (components (after_word p))
unfolding components_from first_word after_word
components_from-first_word w [] = ap (λ x. ended_word x []) (sym (append-nil w))
components_from-first_word w (c ∷ cs) = elim (Bool-cases (c == slash)) [
  | inl end ↦ rw end (ap₂ ended_word (sym (append-nil w)) (sym (components-slash c cs end)))
  | inr more ↦ rw more (
      components_from-first_word (w ++ c ∷ []) cs
      ∙ ap (λ x. ended_word x (components (after_word cs)))
          (append_assoc w (c ∷ []) (first_word cs)))
]

components-skip_slashes : (p : List ℕ) → components (skip_slashes p) ≡ components p
unfolding skip_slashes
components-skip_slashes [] = refl
components-skip_slashes (c ∷ cs) = elim (Bool-cases (c == slash)) [
  | inl yes_one ↦ rw yes_one (components-skip_slashes cs ∙ sym (components-slash c cs yes_one))
  | inr none ↦ rw none refl
]

is_absolute-skip_slashes : (p : List ℕ) → is_absolute (skip_slashes p) ≡ false
unfolding skip_slashes is_absolute
is_absolute-skip_slashes [] = refl
is_absolute-skip_slashes (c ∷ cs) = elim (Bool-cases (c == slash)) [
  | inl yes_one ↦ rw yes_one (is_absolute-skip_slashes cs)
  | inr none ↦ rw none none
]

length-skip_slashes : (p : List ℕ) → length (skip_slashes p) ≤ length p
unfolding skip_slashes
length-skip_slashes [] = omega arith
length-skip_slashes (c ∷ cs) = ground (arith, length-skip_slashes cs)

length-after_word : (p : List ℕ) → length (after_word p) ≤ length p
unfolding after_word
length-after_word [] = omega arith
length-after_word (c ∷ cs) = ground (arith, length-after_word cs)

-- A path that starts with a component.
module _ (c : ℕ) (cs : List ℕ) (starts : is_absolute (c ∷ cs) ≡ false) where
  components-first :
      components (c ∷ cs) ≡ first_word (c ∷ cs) ∷ components (skip_slashes (after_word (c ∷ cs)))
  unfolding first_word is_absolute
  components-first =
      components_from-first_word [] (c ∷ cs)
      ∙ rw starts
          (ap (λ x. (c ∷ first_word cs) ∷ x) (sym (components-skip_slashes (after_word (c ∷ cs)))))

  rest_shorter : length (skip_slashes (after_word (c ∷ cs))) ≤ length cs
  unfolding after_word is_absolute
  rest_shorter =
      rw starts (omega (arith, length-skip_slashes (after_word cs), length-after_word cs))

first_short : (w : List ℕ) (ws : List (List ℕ)) → AllShort (w ∷ ws) → length w < path_component_max
first_short w ws (one_short lt h) = lt

rest_short : (w : List ℕ) (ws : List (List ℕ)) → AllShort (w ∷ ws) → AllShort ws
rest_short w ws (one_short lt h) = h

next-first_word :
    (p : List ℕ)
    → length (first_word p) < path_component_max
    → path_next_component p ≡ (first_word p, skip_slashes (after_word p))
unfolding path_next_component
next-first_word p lt =
    ap (λ (x : List ℕ × List ℕ). (x.0, skip_slashes x.1))
      (component-first_word (path_component_max - 1) p (omega (arith, lt)))

subdirectory-below : (f : Found) (k : ℕ → Result Place) → (subdirectory f >>= k) ≡ below f k
unfolding subdirectory is_directory
subdirectory-below f k = elim (Bool-cases (f.found.attr / 16 % 2 == 1)) [
  | inl directory ↦ rw directory refl
  | inr file ↦ rw file refl
]

resolve_rounds-follow :
    (fuel dir : ℕ) (comp path : List ℕ) (v : Volume)
    → is_absolute path ≡ false
    → AllShort (components path)
    → length path ≤ fuel
    → resolve_rounds fuel dir comp path v ≡ follow dir comp (components path) v
unfolding resolve_rounds follow components_from
resolve_rounds-follow fuel dir comp [] v starts short le = refl
resolve_rounds-follow zero dir comp (c ∷ cs) v starts short le = absurd (omega arith)
resolve_rounds-follow (suc fuel) dir comp (c ∷ cs) v starts short le =
    ap
      (λ (x : List ℕ × List ℕ). dir_lookup dir (to_8_3 comp) v >>= λ f.
        subdirectory f >>= λ sub. resolve_rounds fuel sub x.0 x.1 v)
      (next-first_word (c ∷ cs) (first_short (first_word (c ∷ cs)) (components rest) all_short))
    ∙ ap (λ (k : ℕ → Result Place). dir_lookup dir (to_8_3 comp) v >>= λ f. subdirectory f >>= k)
        (fun_ext (λ sub.
          resolve_rounds-follow fuel sub (first_word (c ∷ cs)) (skip_slashes (after_word (c ∷ cs)))
            v (is_absolute-skip_slashes (after_word (c ∷ cs)))
            (rest_short (first_word (c ∷ cs)) (components rest) all_short)
            (omega (arith, rest_shorter c cs starts))))
    ∙ ap (λ (k : Found → Result Place). dir_lookup dir (to_8_3 comp) v >>= k)
        (fun_ext
          (λ f. subdirectory-below f (λ sub. follow sub (first_word (c ∷ cs)) (components rest) v)))
    ∙ ap (λ ws. follow dir comp ws v) (sym (components-first c cs starts))
  where
    rest : List ℕ
    rest = skip_slashes (after_word (c ∷ cs))

    all_short : AllShort (first_word (c ∷ cs) ∷ components rest)
    all_short = subst AllShort (components-first c cs starts) short

resolve_from-follow_all :
    (dir : ℕ) (path : List ℕ) (v : Volume)
    → is_absolute path ≡ false
    → AllShort (components path)
    → resolve_from dir path v ≡ follow_all dir (components path) v
unfolding resolve_from components_from
resolve_from-follow_all dir [] v starts short = refl
resolve_from-follow_all dir (c ∷ cs) v starts short =
    ap (λ (x : List ℕ × List ℕ). resolve_rounds (length cs + 1) dir x.0 x.1 v)
      (next-first_word (c ∷ cs) (first_short (first_word (c ∷ cs)) (components rest) all_short))
    ∙ resolve_rounds-follow (length cs + 1) dir (first_word (c ∷ cs)) rest v
        (is_absolute-skip_slashes (after_word (c ∷ cs)))
        (rest_short (first_word (c ∷ cs)) (components rest) all_short)
        (omega (arith, rest_shorter c cs starts))
    ∙ ap (λ ws. follow_all dir ws v) (sym (components-first c cs starts))
  where
    rest : List ℕ
    rest = skip_slashes (after_word (c ∷ cs))

    all_short : AllShort (first_word (c ∷ cs) ∷ components rest)
    all_short = subst AllShort (components-first c cs starts) short

pub resolve_path-follow_all :
    (cwd : ℕ) (path : List ℕ) (v : Volume)
    → AllShort (components path)
    → resolve_path cwd path v ≡ follow_all (if is_absolute path then 0 else cwd) (components path) v
unfolding resolve_path
resolve_path-follow_all cwd path v short =
    resolve_from-follow_all (if is_absolute path then 0 else cwd) (skip_slashes path) v
      (is_absolute-skip_slashes path) (subst AllShort (sym (components-skip_slashes path)) short)
    ∙ ap (λ ws. follow_all (if is_absolute path then 0 else cwd) ws v)
        (components-skip_slashes path)
