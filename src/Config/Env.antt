-- ===== src/Config/Env.antt =====
-- core/config.c: the loader of the .env file. The environment is the list of its variables, the file the
-- list of its lines as fgets hands them out, each up to its first zero byte.
use dobby_ai.Base.{
  ℕ, ◌+◌, ◌-◌, ◌≡◌, refl, sym, ap, ◌∙◌, inl, inr, Bool, true, false, ◌&&◌, ◌||◌, Bool-cases, Option,
  none, some, Option-cases, List, [], ◌∷◌, ◌++◌, Bytes, codes, arith, str_eq, eq_of_str_eq,
  is_empty, leb, ◌==◌, if◌then◌else◌, length, take, drop, get_or,
}
use dobby_ai.Text.{skip_spaces, split_char, is_prefix, is_space}

abbrev pub Environment : Type 0
Environment = List (Bytes × Bytes)

unfoldable pub getenv : Bytes → Environment → Option Bytes
getenv key [] = none
getenv key ((k, v) ∷ env) = let rest = getenv key env in if str_eq k key then some v else rest

-- setenv(key, val, 0)
unfoldable pub setenv_new : Bytes → Bytes → Environment → Environment
setenv_new key val env = elim (getenv key env) [ none ↦ env ++ ((key, val) ∷ []) | some v ↦ env ]

-- the text without the bytes at its end that pass the test
unfoldable pub strip_end : (ℕ → Bool) → Bytes → Bytes
strip_end p [] = []
strip_end p (c ∷ s) = let rest = strip_end p s in if is_empty rest && p c then [] else c ∷ rest

abbrev pub is_newline : ℕ → Bool
is_newline c = c == 10 || c == 13

abbrev pub is_quoted : Bytes → Bool
is_quoted [] = false
is_quoted (c ∷ s) = leb 1 (length s) && ((c == 34 || c == 39) && get_or s (length s - 1) 0 == c)

-- the value without its outer quotes
unfoldable pub env_value : Bytes → Bytes
env_value text =
    let val = skip_spaces text in if is_quoted val then take (length val - 2) (drop 1 val) else val

abbrev pub is_comment : Bytes → Bool
is_comment [] = true
is_comment (c ∷ s) = c == 35 || c == 59

abbrev pub env_setting : Option (Bytes × Bytes) → Option (Bytes × Bytes)
env_setting none = none
env_setting (some (key, val)) =
    let k = strip_end is_space key in if is_empty k then none else some (k, env_value val)

-- the setting on a line, if there is one
unfoldable pub env_line : Bytes → Option (Bytes × Bytes)
env_line line =
    let s = skip_spaces (strip_end is_newline line) in
    let setting = skip_spaces (if is_prefix (codes "export ") s then drop 7 s else s) in
    if is_comment s then none else env_setting (split_char 61 setting)

abbrev pub set_line : Option (Bytes × Bytes) → Environment → ℕ × Environment
set_line none env = (0, env)
set_line (some (key, val)) env = (1, setenv_new key val env)

unfoldable pub env_lines : List Bytes → Environment → ℕ × Environment
env_lines [] env = (0, env)
env_lines (line ∷ lines) env =
    let (n, env') = set_line (env_line line) env in
    let (m, env'') = env_lines lines env' in (n + m, env'')

-- how many settings the file has, and the new environment
unfoldable pub env_load : Option (List Bytes) → Environment → ℕ × Environment
env_load none env = (0, env)
env_load (some lines) env = env_lines lines env

-- the value that a line has for a variable, or else `rest`
abbrev pub setting_or : Bytes → Option Bytes → Option (Bytes × Bytes) → Option Bytes
setting_or key rest none = rest
setting_or key rest (some (k, v)) = if str_eq k key then some v else rest

-- The value of a variable's first setting in a file.
abbrev pub first_setting : Bytes → List Bytes → Option Bytes
first_setting key [] = none
first_setting key (line ∷ lines) = setting_or key (first_setting key lines) (env_line line)

abbrev pub or_else : Option Bytes → Option Bytes → Option Bytes
or_else none o = o
or_else (some v) o = some v

getenv-append :
    (key k v : Bytes) (env : Environment)
    → getenv key (env ++ ((k, v) ∷ []))
      ≡ or_else (getenv key env) (if str_eq k key then some v else none)
unfolding getenv
getenv-append key k v [] = refl
getenv-append key k v ((a, b) ∷ env) = elim (Bool-cases (str_eq a key)) [
  | inl e ↦ rw e refl
  | inr e ↦ rw e (getenv-append key k v env)
]

abbrev add_missing : Bytes → Bytes → Environment → Option Bytes → Environment
add_missing k v env none = env ++ ((k, v) ∷ [])
add_missing k v env (some old) = env

setenv_new-add_missing :
    (k v : Bytes) (env : Environment) → setenv_new k v env ≡ add_missing k v env (getenv k env)
unfolding setenv_new
setenv_new-add_missing k v env = ground arith

or_else-none : (o : Option Bytes) → or_else o none ≡ o
or_else-none none = refl
or_else-none (some v) = refl

-- A variable that is there keeps its value.
getenv-setenv_new :
    (key k v : Bytes) (env : Environment)
    → getenv key (setenv_new k v env)
      ≡ or_else (getenv key env) (if str_eq k key then some v else none)
getenv-setenv_new key k v env =
    ap (getenv key) (setenv_new-add_missing k v env) ∙ (elim (Option-cases (getenv k env)) [
      | inl e ↦ ap (λ o. getenv key (add_missing k v env o)) e ∙ getenv-append key k v env
      | inr (old, e) ↦ ap (λ o. getenv key (add_missing k v env o)) e ∙ kept old e
    ])
  where
    kept :
        (old : Bytes)
        → getenv k env ≡ some old
        → getenv key env ≡ or_else (getenv key env) (if str_eq k key then some v else none)
    kept old e = elim (Bool-cases (str_eq k key)) [
      | inl h ↦ by_value (getenv key env) (sym (ap (λ n. getenv n env) (eq_of_str_eq k key h)) ∙ e)
      | inr h ↦ rw h (sym (or_else-none (getenv key env)))
    ]
      where
        by_value :
            (o : Option Bytes)
            → o ≡ some old
            → o ≡ or_else o (if str_eq k key then some v else none)
        by_value o q = q ∙ sym (ap (λ x. or_else x (if str_eq k key then some v else none)) q)

or_else_assoc :
    (a : Option Bytes) (b : Bool) (v : Bytes) (rest : Option Bytes)
    → or_else (or_else a (if b then some v else none)) rest ≡ or_else a (if b then some v else rest)
or_else_assoc none true v rest = refl
or_else_assoc none false v rest = refl
or_else_assoc (some x) b v rest = refl

set_line-getenv :
    (key : Bytes) (o : Option (Bytes × Bytes)) (env : Environment) (rest : Option Bytes)
    → or_else (getenv key (set_line o env).1) rest
      ≡ or_else (getenv key env) (setting_or key rest o)
set_line-getenv key none env rest = refl
set_line-getenv key (some (k, v)) env rest =
    ap (λ o. or_else o rest) (getenv-setenv_new key k v env)
    ∙ or_else_assoc (getenv key env) (str_eq k key) v rest

env_lines-getenv :
    (key : Bytes) (lines : List Bytes) (env : Environment)
    → getenv key (env_lines lines env).1 ≡ or_else (getenv key env) (first_setting key lines)
unfolding env_lines
env_lines-getenv key [] env = sym (or_else-none (getenv key env))
env_lines-getenv key (line ∷ lines) env =
    env_lines-getenv key lines (set_line (env_line line) env).1
    ∙ set_line-getenv key (env_line line) env (first_setting key lines)

-- After env_load a variable has the value that it had before, and if it had none, the value of its first
-- setting in the file, if there is one: what the shell exported is never overwritten.
pub getenv-env_load :
    (key : Bytes) (lines : List Bytes) (env : Environment)
    → getenv key (env_load (some lines) env).1 ≡ or_else (getenv key env) (first_setting key lines)
unfolding env_load
getenv-env_load key lines env = env_lines-getenv key lines env
