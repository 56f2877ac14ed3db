-- ===== src/Memory/Files.antt =====
-- memory/md_memory.c: the operations on the file, the migration of old files, and the tools.
use dobby_ai.Base.{
  ℕ, ◌*◌, Bool, true, false, Option, none, some, List, [], ◌∷◌, ◌++◌, Bytes, codes, str_eq,
  is_empty, ltb, if◌then◌else◌, length,
}
use dobby_ai.Json.{JsonOps, get_object_item, get_string_value}
use dobby_ai.Text.{str_ends_with, cut_at, contains_case}
use dobby_ai.Memory.{
  canonicalise_section, split_lines, linebuf, copy_line, bullet_of, store_text, Recalled,
  recall_lines, important_notes,
}

abbrev pub max_file_size : ℕ
max_file_size = 256 * 1024

abbrev pub memory_file : Bytes
memory_file = codes "MEMORY.md"

-- A file that is empty, or too large, reads as the empty text; a text ends at its first zero byte.
unfoldable pub read_memory_file : Option Bytes → Bytes
read_memory_file none = []
read_memory_file (some bytes) = if ltb max_file_size (length bytes) then [] else cut_at 0 bytes

pub data StoreResult : Type 0 where
  stored key_and_value_required io_error : StoreResult

-- fputs of the text and the rename over the file; a failure leaves the file as it was
unfoldable pub write_memory_file : Bool → Option Bytes → Bytes → StoreResult × Option Bytes
write_memory_file writable file content =
    if writable then (stored, some (cut_at 0 content)) else (io_error, file)

-- `none` is a fault.
unfoldable pub store_entry :
    Bool → Option Bytes → Bytes → Bytes → Option Bytes → Option (StoreResult × Option Bytes)
store_entry writable category key value file =
    elim (store_text (canonicalise_section category) key (bullet_of key value)
      (read_memory_file file)) [
        | none ↦ none
        | some content ↦ some (write_memory_file writable file content)
      ]

unfoldable pub memory_store :
    Bool
    → Option Bytes
    → Option Bytes
    → Option Bytes
    → Option Bytes
    → Option (StoreResult × Option Bytes)
memory_store writable category none value file = some (key_and_value_required, file)
memory_store writable category (some key) none file = some (key_and_value_required, file)
memory_store writable category (some key) (some value) file =
    if is_empty key
    then some (key_and_value_required, file)
    else store_entry writable category key value file

unfoldable pub memory_recall : Option Bytes → Option Bytes → Option Bytes → Recalled
memory_recall category key file =
    recall_lines (canonicalise_section category) key (split_lines (read_memory_file file)) false

-- the lines that hold the query, whatever the case; `none` is a fault
unfoldable pub search_lines : Bytes → List Bytes → Option (List Bytes)
search_lines query [] = some []
search_lines query (line ∷ lines) =
    let rest = search_lines query lines in
    if contains_case query (linebuf line)
    then elim (copy_line line) [
      | none ↦ none
      | some l ↦ elim rest [ none ↦ none | some ls ↦ some ((codes "  " ++ l) ∷ ls) ]
    ]
    else rest

abbrev pub concat : List Bytes → Bytes
concat [] = []
concat (l ∷ lines) = l ++ concat lines

abbrev pub results_text : Bytes → List Bytes → Bytes
results_text query [] = codes "No memories matching \"" ++ (query ++ codes "\".")
results_text query (l ∷ lines) =
    codes "Results for \"" ++ (query ++ (codes "\":\n\n" ++ concat (l ∷ lines)))

unfoldable pub memory_search : Bytes → Option Bytes → Option Bytes
memory_search query file = elim (search_lines query (split_lines (read_memory_file file))) [
  | none ↦ none
  | some lines ↦ some (cut_at 0 (results_text query lines))
]

unfoldable pub memory_get_context : Option Bytes → Bytes
memory_get_context file =
    codes
      "## Persistent Memory\nBelow is your long-term memory. Use memory_store to update it, memory_recall to look up a specific fact.\n\n"
    ++ read_memory_file file

abbrev pub initial_memory : Bytes
initial_memory =
    codes
      "# Long-term Memory\n\nThis file stores important information that should persist across sessions.\n\n## User Information\n\n## Preferences\n\n## Project Context\n\n## Important Notes\n"

unfoldable pub create_initial_memory : Bool → Option Bytes
create_initial_memory writable = if writable then some initial_memory else none

-- One entry of the directory, with its text, none where it cannot be opened.
pub record LegacyFile : Type 0 where
  pub d_name : Bytes
  pub text : Option Bytes

unfoldable pub is_legacy : LegacyFile → Bool
is_legacy f =
    if str_ends_with (some f.d_name) (some (codes ".md"))
    then (if str_eq f.d_name memory_file then false else true)
    else false

-- The file's text under its name in the notes; what memory_store answers is not looked at, and the
-- old file is deleted in any case.
unfoldable pub migrate_file : Bool → LegacyFile → Option Bytes → Option (Option Bytes)
migrate_file writable f file = elim f.text [
  | none ↦ some file
  | some text ↦
      if is_empty text
      then some file
      else elim (memory_store writable (some important_notes) (some f.d_name) (some text) file) [
        | none ↦ none
        | some (result, file') ↦ some file'
      ]
]

unfoldable pub migrate_legacy_files : Bool → List LegacyFile → Option Bytes → Option (Option Bytes)
migrate_legacy_files writable [] file = some file
migrate_legacy_files writable (f ∷ files) file =
    let skipped = migrate_legacy_files writable files file in
    if is_legacy f
    then elim (migrate_file writable f file) [
      | none ↦ none
      | some file' ↦ migrate_legacy_files writable files file'
    ]
    else skipped

unfoldable pub memory_create : Bool → List LegacyFile → Option Bytes → Option (Option Bytes)
memory_create writable files none =
    migrate_legacy_files writable files (create_initial_memory writable)
memory_create writable files (some bytes) = migrate_legacy_files writable files (some bytes)

module _ {J : Type 0} (ops : JsonOps J) where
  -- "category" stands in for a missing "section"
  unfoldable pub section_argument : Option J → Option Bytes
  section_argument args = elim (get_string_value ops (get_object_item ops args (codes "section"))) [
    | none ↦ get_string_value ops (get_object_item ops args (codes "category"))
    | some s ↦ some s
  ]

  unfoldable pub tool_memory_store :
      Bool → Option J → Option Bytes → Option (StoreResult × Option Bytes)
  tool_memory_store writable args file =
      memory_store writable (section_argument args)
        (get_string_value ops (get_object_item ops args (codes "key")))
        (get_string_value ops (get_object_item ops args (codes "value"))) file

  unfoldable pub tool_memory_recall : Option J → Option Bytes → Recalled
  tool_memory_recall args file =
      memory_recall (section_argument args)
        (get_string_value ops (get_object_item ops args (codes "key"))) file

  -- the outer `none` is the error that a query is required
  unfoldable pub tool_memory_search : Option J → Option Bytes → Option (Option Bytes)
  tool_memory_search args file =
      elim (get_string_value ops (get_object_item ops args (codes "query"))) [
        | none ↦ none
        | some query ↦ if is_empty query then none else some (memory_search query file)
      ]
