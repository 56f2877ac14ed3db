-- ===== src/Memory.antt =====
-- memory/md_memory.c: facts in the sections of one markdown file. The file is its bytes, none where
-- there is no file; whether it can be written is an argument.
pub mod Lines
pub mod Files
pub mod Entry
pub mod Recall
pub mod Rounds
pub mod Placed
pub mod Sections
pub mod RoundTrip
pub mod Keeps
pub mod Losses
use dobby_ai.Base.{
  ℕ, ◌-◌, Bool, true, false, not, ◌&&◌, ◌||◌, Option, none, some, List, [], ◌∷◌, ◌++◌, Bytes, codes,
  str_eq, is_empty, ltb, leb, ◌==◌, if◌then◌else◌, length, take, drop,
}
use dobby_ai.Text.{str_trim, is_prefix, split_char, cut_at, contains_case}

abbrev pub user_information : Bytes
user_information = codes "User Information"

abbrev pub preferences : Bytes
preferences = codes "Preferences"

abbrev pub project_context : Bytes
project_context = codes "Project Context"

abbrev pub important_notes : Bytes
important_notes = codes "Important Notes"

abbrev pub canonical_sections : List Bytes
canonical_sections = user_information ∷ preferences ∷ project_context ∷ important_notes ∷ []

-- the first section that holds the category, or is held by it, whatever the case
unfoldable pub nearest_section : Bytes → List Bytes → Option Bytes
nearest_section category [] = none
nearest_section category (s ∷ sections) =
    let rest = nearest_section category sections in
    if contains_case category s || contains_case s category then some s else rest

-- the keyword heuristics
unfoldable pub guess_section : Bytes → Bytes
guess_section category =
    if contains_case (codes "user") category || contains_case (codes "person") category
    then user_information
    else if contains_case (codes "pref") category || contains_case (codes "setting") category
    then preferences
    else if contains_case (codes "project") category || contains_case (codes "task") category
    then project_context
    else important_notes

unfoldable pub canonicalise_section : Option Bytes → Bytes
canonicalise_section none = important_notes
canonicalise_section (some category) = elim (nearest_section category canonical_sections) [
  | none ↦ guess_section category
  | some s ↦ s
]

-- The lines of a text with their newlines; the last one may lack it.
abbrev pub onto_line : ℕ → List Bytes → List Bytes
onto_line c [] = (c ∷ []) ∷ []
onto_line c (l ∷ lines) = (c ∷ l) ∷ lines

unfoldable pub split_lines : Bytes → List Bytes
split_lines [] = []
split_lines (c ∷ s) =
    let rest = split_lines s in if c == 10 then (10 ∷ []) ∷ rest else onto_line c rest

abbrev pub line_cap : ℕ
line_cap = 2047

-- `linebuf`, which holds 2047 bytes of a line
abbrev pub linebuf : Bytes → Bytes
linebuf line = take line_cap line

-- strbuf_append_len(&out, linebuf, len): a line of 2048 bytes ends in the terminator in place of its
-- newline, and a longer one is read past the end of `linebuf`, a fault.
unfoldable pub copy_line : Bytes → Option Bytes
copy_line line =
    if leb (length line) line_cap
    then some line
    else if length line == 2048
    then some (linebuf line ++ (0 ∷ []))
    else none

abbrev pub is_heading : Bytes → Bool
is_heading line = is_prefix (codes "## ") (linebuf line)

abbrev pub is_bullet : Bytes → Bool
is_bullet line = is_prefix (codes "- ") (linebuf line)

-- strncpy(heading, linebuf + 3, 255), cut at the newline
unfoldable pub heading_text : Bytes → Bytes
heading_text line = cut_at 10 (take 255 (drop 3 (linebuf line)))

-- A key of 512 bytes or more is left out.
abbrev pub fit_key : Bytes → Bytes
fit_key k = if ltb (length k) 512 then k else []

-- the trimmed text between the dash and the colon of a bullet
unfoldable pub bullet_key : Bytes → Bytes
bullet_key line = elim (split_char 58 (drop 2 (linebuf line))) [
  | none ↦ str_trim []
  | some (k, rest) ↦ str_trim (fit_key k)
]

pub record StoreState : Type 0 where
  pub in_target : Bool
  pub key_written : Bool
  pub section_found : Bool

abbrev pub line_of : Bytes → Bytes
line_of bullet = bullet ++ (10 ∷ [])

-- what a heading does: the line of the fact is put before it if the target section ends here
unfoldable pub pass_heading : Bytes → Bytes → StoreState → Bytes → List Bytes × StoreState
pass_heading section bullet st line =
    let ends = st.in_target && not st.key_written in
    let enters = str_eq (cut_at 13 (heading_text line)) section in
    if is_heading line
    then (
      if ends then line_of bullet ∷ [] else [],
      record {
        in_target = enters;
        key_written = if ends then true else st.key_written;
        section_found = if enters then true else st.section_found;
      },
    )
    else ([], st)

-- the line itself, or the new line of the fact in its place
unfoldable pub put_line : Bytes → Bytes → StoreState → Bytes → Option (Bytes × StoreState)
put_line key bullet st line =
    if st.in_target && (is_bullet line && str_eq (bullet_key line) key)
    then some (line_of bullet, record st { key_written = true })
    else elim (copy_line line) [ none ↦ none | some l ↦ some (l, st) ]

abbrev pub before_lines :
    List Bytes → Bytes → Option (List Bytes × StoreState) → Option (List Bytes × StoreState)
before_lines pre l none = none
before_lines pre l (some (rest, st)) = some (pre ++ (l ∷ rest), st)

-- The loop over the lines: the pieces of the new file.
unfoldable pub store_lines :
    Bytes → Bytes → Bytes → List Bytes → StoreState → Option (List Bytes × StoreState)
store_lines section key bullet [] st = some ([], st)
store_lines section key bullet (line ∷ lines) st =
    let (pre, st') = pass_heading section bullet st line in
    elim (put_line key bullet st' line) [
      | none ↦ none
      | some (l, st'') ↦ before_lines pre l (store_lines section key bullet lines st'')
    ]

-- what is put behind the last line
unfoldable pub store_end : Bytes → Bytes → StoreState → List Bytes
store_end section bullet st =
    if st.key_written
    then []
    else if not st.section_found
    then (10 ∷ []) ∷ line_of (codes "## " ++ section) ∷ (10 ∷ []) ∷ line_of bullet ∷ []
    else line_of bullet ∷ []

abbrev pub join_lines : List Bytes → Bytes
join_lines [] = []
join_lines (l ∷ lines) = l ++ join_lines lines

abbrev pub store_start : StoreState
store_start = record { in_target = false; key_written = false; section_found = false }

-- snprintf(bullet, 2048, "- %s: %s", key, value)
unfoldable pub bullet_of : Bytes → Bytes → Bytes
bullet_of key value = take line_cap (codes "- " ++ (key ++ (codes ": " ++ value)))

unfoldable pub store_text : Bytes → Bytes → Bytes → Bytes → Option Bytes
store_text section key bullet content =
    elim (store_lines section key bullet (split_lines content) store_start) [
      | none ↦ none
      | some (lines, st) ↦ some (join_lines lines ++ join_lines (store_end section bullet st))
    ]

-- what memory_recall gives; the comparison with a null key is a fault
pub data Recalled : Type 0 where
  recall_fault not_found : Recalled
  value_of : Bytes → Recalled

-- a bullet in the section, against the key; `none` to go on
unfoldable pub match_bullet : Option Bytes → Bytes → Option Recalled
match_bullet key line = elim (split_char 58 (drop 2 (linebuf line))) [
  | none ↦ none
  | some (k, rest) ↦ elim key [
    | none ↦ some recall_fault
    | some key ↦
        if str_eq (str_trim (fit_key k)) key
        then some (value_of (str_trim (take 511 rest)))
        else none
  ]
]

unfoldable pub recall_lines : Bytes → Option Bytes → List Bytes → Bool → Recalled
recall_lines section key [] in_target = not_found
recall_lines section key (line ∷ lines) in_target =
    if is_heading line
    then recall_lines section key lines (str_eq (str_trim (heading_text line)) section)
    else let rest = recall_lines section key lines in_target in
      if in_target && is_bullet line
      then elim (match_bullet key line) [ none ↦ rest | some r ↦ r ]
      else rest
