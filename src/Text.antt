-- ===== src/Text.antt =====
-- core/types.c, the string helpers. A C string is the list of its bytes, a null pointer is `none`;
-- the functions of string.h and ctype.h that the program calls are written out here.
pub mod Trim
pub mod TrimUnique
pub mod Affix
pub mod Search
pub mod Sanitize
use dobby_ai.Base.{
  ℕ, zero, suc, ◌+◌, ◌-◌, ◌≡◌, Bool, true, false, ◌&&◌, ◌||◌, Option, none, some, List, [], ◌∷◌,
  Bytes, ltb, leb, ◌==◌, if◌then◌else◌, length, get_or, take, drop, str_eq, is_empty, map,
}

-- isspace in the C locale: blank, \t, \n, \v, \f, \r
unfoldable pub is_space : ℕ → Bool
is_space c = c == 32 || (leb 9 c && leb c 13)

-- while (isspace(*s)) s++;
unfoldable pub skip_spaces : Bytes → Bytes
skip_spaces [] = []
skip_spaces (c ∷ s) = if is_space c then skip_spaces s else c ∷ s

-- while (end > s && isspace(*end)) end--;  `end` is an index from `s` here
unfoldable pub trim_back : Bytes → ℕ → ℕ
trim_back s zero = zero
trim_back s (suc e) = if is_space (get_or s (suc e) 0) then trim_back s e else suc e

-- *(end + 1) = '\0' cuts the text behind `end`
unfoldable pub trim_end : Bytes → Bytes
unfolding trim_back
trim_end s = if is_empty s then s else take (suc (trim_back s (length s - 1))) s

unfoldable pub str_trim : Bytes → Bytes
unfolding skip_spaces trim_end is_space
str_trim s = trim_end (skip_spaces s)

-- strncmp(s, prefix, strlen(prefix)) == 0
unfoldable pub is_prefix : Bytes → Bytes → Bool
is_prefix [] s = true
is_prefix (p ∷ ps) [] = false
is_prefix (p ∷ ps) (c ∷ s) = c == p && is_prefix ps s

unfoldable pub str_starts_with : Option Bytes → Option Bytes → Bool
unfolding is_prefix
str_starts_with none p = false
str_starts_with (some s) none = false
str_starts_with (some s) (some p) = is_prefix p s

unfoldable pub str_ends_with : Option Bytes → Option Bytes → Bool
unfolding str_eq
str_ends_with none p = false
str_ends_with (some s) none = false
str_ends_with (some s) (some p) =
    if ltb (length s) (length p) then false else str_eq (drop (length s - length p) s) p

-- `malloc` does not fail in the model.
unfoldable pub strndup : Option Bytes → ℕ → Option Bytes
strndup none n = none
strndup (some s) n = some (take (if ltb n (length s) then n else length s) s)

-- strchr(s, c): the text before the first `c`, and the text behind it
unfoldable pub split_char : ℕ → Bytes → Option (Bytes × Bytes)
split_char c [] = none
split_char c (x ∷ s) =
    if x == c
    then some ([], s)
    else elim (split_char c s) [ none ↦ none | some (a, b) ↦ some (x ∷ a, b) ]

-- strstr(s, needle): the text before the first occurrence, and the text from it on
unfoldable pub split_sub : Bytes → Bytes → Option (Bytes × Bytes)
unfolding is_prefix
split_sub needle [] = if is_empty needle then some ([], []) else none
split_sub needle (x ∷ s) =
    if is_prefix needle (x ∷ s)
    then some ([], x ∷ s)
    else elim (split_sub needle s) [ none ↦ none | some (a, b) ↦ some (x ∷ a, b) ]

-- strstr(s, needle) != NULL
abbrev pub contains : Bytes → Bytes → Bool
contains needle s = elim (split_sub needle s) [ none ↦ false | some hit ↦ true ]

-- tolower in the C locale
abbrev pub to_lower : ℕ → ℕ
to_lower c = if leb 65 c && leb c 90 then c + 32 else c

-- strcasecmp(a, b) == 0
unfoldable pub str_case_eq : Bytes → Bytes → Bool
str_case_eq a b = str_eq (map to_lower a) (map to_lower b)

-- strcasestr(s, needle) != NULL
unfoldable pub contains_case : Bytes → Bytes → Bool
contains_case needle s = contains (map to_lower needle) (map to_lower s)

-- what stands before the first `c`, or all of the text
unfoldable pub cut_at : ℕ → Bytes → Bytes
cut_at c s = elim (split_char c s) [ none ↦ s | some (before, behind) ↦ before ]
