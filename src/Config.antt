-- ===== src/Config.antt =====
-- core/config.c: the table of settings and the loader of the INI file. The file is the list of its
-- lines as fgets hands them out, and atoi is an argument.
pub mod Table
pub mod Env
use dobby_ai.Base.{
  ℕ, ◌-◌, Bool, true, false, ◌&&◌, ◌||◌, Option, none, some, List, [], ◌∷◌, ◌++◌, Bytes, codes,
  str_eq, leb, ltb, ◌==◌, if◌then◌else◌, length, take, drop, get_or,
}
use dobby_ai.Text.{skip_spaces, str_trim, split_char}

abbrev pub max_entries : ℕ
max_entries = 256

abbrev pub max_key_len : ℕ
max_key_len = 128

-- `config_entry_t`
pub record ConfigEntry : Type 0 where
  pub section : Bytes
  pub key : Bytes
  pub value : Bytes

-- strcmp on the section and on the key
unfoldable pub is_entry : Bytes → Bytes → ConfigEntry → Bool
is_entry section key e = str_eq e.section section && str_eq e.key key

unfoldable pub config_create : List ConfigEntry
config_create = []

unfoldable pub find_value : Bytes → Bytes → List ConfigEntry → Option Bytes
find_value section key [] = none
find_value section key (e ∷ entries) =
    let rest = find_value section key entries in
    if is_entry section key e then some e.value else rest

abbrev pub or_default : Option Bytes → Option Bytes → Option Bytes
or_default none d = d
or_default (some v) d = some v

-- A table that is a null pointer gives the default.
unfoldable pub config_get : Option (List ConfigEntry) → Bytes → Bytes → Option Bytes → Option Bytes
config_get none section key default_val = default_val
config_get (some entries) section key default_val =
    or_default (find_value section key entries) default_val

unfoldable pub config_get_int :
    {Z : Type 0} → (Bytes → Z) → Option (List ConfigEntry) → Bytes → Bytes → Z → Z
config_get_int atoi cfg section key default_val = elim (config_get cfg section key none) [
  | none ↦ default_val
  | some val ↦ atoi val
]

unfoldable pub config_get_bool : Option (List ConfigEntry) → Bytes → Bytes → Bool → Bool
config_get_bool cfg section key default_val = elim (config_get cfg section key none) [
  | none ↦ default_val
  | some val ↦ str_eq val (codes "true") || (str_eq val (codes "yes") || str_eq val (codes "1"))
]

-- the table with the value of the first entry replaced; `none` where there is no such entry
unfoldable pub update_entry : Bytes → Bytes → Bytes → List ConfigEntry → Option (List ConfigEntry)
update_entry section key value [] = none
update_entry section key value (e ∷ entries) =
    let rest = update_entry section key value entries in
    if is_entry section key e
    then some (record e { value = value } ∷ entries)
    else elim rest [ none ↦ none | some es ↦ some (e ∷ es) ]

-- A full table is left as it is, even for a setting that it has; a new entry's names are cut to
-- 127 bytes.
unfoldable pub config_set : List ConfigEntry → Bytes → Bytes → Bytes → List ConfigEntry
config_set entries section key value =
    if leb max_entries (length entries)
    then entries
    else elim (update_entry section key value entries) [
      | some es ↦ es
      | none ↦
          entries
          ++ (record {
            section = take (max_key_len - 1) section;
            key = take (max_key_len - 1) key;
            value = value;
          }
              ∷ [])
    ]

-- if (vlen > 0 && val[vlen - 1] == '\n') val[vlen - 1] = '\0';
unfoldable pub strip_newline : Bytes → Bytes
strip_newline val =
    if ltb 0 (length val) && get_or val (length val - 1) 0 == 10
    then take (length val - 1) val
    else val

-- "key = value" in the current section
unfoldable pub load_setting : List ConfigEntry → Bytes → Bytes → List ConfigEntry
load_setting entries current_section s = elim (split_char 61 s) [
  | none ↦ entries
  | some (key, val) ↦
      config_set entries current_section (str_trim key) (strip_newline (str_trim val))
]

-- "[section]"; without the closing bracket the section stays
unfoldable pub load_section : Bytes → Bytes → Bytes
load_section current_section s = elim (split_char 93 s) [
  | none ↦ current_section
  | some (header, rest) ↦ take (max_key_len - 1) (drop 1 header)
]

-- one line without its leading white space: the table and the section behind it
unfoldable pub load_config_line : List ConfigEntry → Bytes → Bytes → List ConfigEntry × Bytes
load_config_line entries current_section [] = (entries, current_section)
load_config_line entries current_section (c ∷ s) =
    if c == 35 || c == 59
    then (entries, current_section)
    else if c == 91
    then (entries, load_section current_section (c ∷ s))
    else (load_setting entries current_section (c ∷ s), current_section)

unfoldable pub load_config_lines : List ConfigEntry → Bytes → List Bytes → List ConfigEntry
load_config_lines entries current_section [] = entries
load_config_lines entries current_section (line ∷ lines) =
    let (entries', section') = load_config_line entries current_section (skip_spaces line) in
    load_config_lines entries' section' lines

-- `none` where the file cannot be opened
unfoldable pub config_load : Option (List Bytes) → List ConfigEntry
config_load none = config_create
config_load (some lines) = load_config_lines config_create (codes "general") lines
