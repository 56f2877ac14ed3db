-- ===== src/History.antt =====
-- history/history.c: the log in one file. The file is its bytes, none where there is no file; the local
-- date and time as texts, and whether the file can be written, are arguments.
pub mod Days
use dobby_ai.Base.{
  ℕ, suc, ◌-◌, Bool, true, false, ◌||◌, Option, none, some, List, [], ◌∷◌, ◌++◌, Bytes, codes,
  str_eq, is_empty, ltb, ◌==◌, if◌then◌else◌, length, take, drop, get_elem?,
}
use dobby_ai.Text.{is_prefix, cut_at}

abbrev pub category_names : List Bytes
category_names =
    codes "System Event"
    ∷ codes "Tool Execution"
    ∷ codes "Memory Update"
    ∷ codes "Model Change"
    ∷ codes "API Call"
    ∷ codes "Error"
    ∷ codes "Feature"
    ∷ codes "Fix"
    ∷ []

-- A category is not negative here.
unfoldable pub category_name : ℕ → Bytes
category_name category = elim (get_elem? category_names category) [
  | none ↦ codes "Event"
  | some n ↦ n
]

-- the pieces that fgets hands out, of at most `cap` bytes; `left` more fit into the first
abbrev pub onto_piece : ℕ → List Bytes → List Bytes
onto_piece c [] = (c ∷ []) ∷ []
onto_piece c (l ∷ lines) = (c ∷ l) ∷ lines

unfoldable pub fgets_pieces : ℕ → ℕ → Bytes → List Bytes
fgets_pieces cap left [] = []
fgets_pieces cap left (c ∷ s) =
    let next = fgets_pieces cap cap s in
    let more = fgets_pieces cap (left - 1) s in
    if c == 10 || left == 1 then (c ∷ []) ∷ next else onto_piece c more

-- the last date heading among the pieces, else `date`
unfoldable pub last_heading : Bytes → List Bytes → Bytes
last_heading date [] = date
last_heading date (line ∷ lines) =
    last_heading (if is_prefix (codes "## 20") line then take 10 (cut_at 0 (drop 3 line)) else date)
      lines

-- in the last 4 KB of the file
unfoldable pub detect_last_date : Option Bytes → Bytes
detect_last_date none = []
detect_last_date (some file) =
    last_heading [] (fgets_pieces 255 255 (drop (length file - 4096) file))

abbrev pub file_header : Bytes
file_header =
    codes
      "\n\n# History\n\nChronological, append-only log of significant agent events.\n\nPurpose: auditability, debugging, execution traceability.\n\n**This file must never be rewritten or reordered.**\n\n---\n\n"

unfoldable pub ensure_file : Bool → Option Bytes → Option Bytes
ensure_file writable none = if writable then some file_header else none
ensure_file writable (some file) = some file

-- `struct history`, with the file
pub record History : Type 0 where
  pub file : Option Bytes
  pub last_date : Bytes

unfoldable pub history_create : Bool → Option Bytes → History
history_create writable file =
    let f = ensure_file writable file in record { file = f; last_date = detect_last_date f }

-- the text cut at its newlines
abbrev pub start_line : ℕ → List Bytes → List Bytes
start_line c [] = (c ∷ []) ∷ []
start_line c (l ∷ lines) = (c ∷ l) ∷ lines

unfoldable pub detail_lines : Bytes → List Bytes
detail_lines [] = []
detail_lines (c ∷ s) = let rest = detail_lines s in if c == 10 then [] ∷ rest else start_line c rest

-- a line of the details as a bullet; an empty one is left out
abbrev pub bullet : Bytes → Bytes
bullet [] = []
bullet (c ∷ s) =
    if c == 45 || c == 42 then c ∷ (s ++ (10 ∷ [])) else codes "- " ++ (c ∷ (s ++ (10 ∷ [])))

unfoldable pub details_text : List Bytes → Bytes
details_text [] = []
details_text (l ∷ lines) = bullet l ++ details_text lines

abbrev pub or_no_details : Option Bytes → Bytes
or_no_details none = []
or_no_details (some d) = d

-- an entry without its date
unfoldable pub entry_text : ℕ → Bytes → Option Bytes → Bytes → Bytes
entry_text category title details time =
    codes "### ["
    ++ (category_name category
        ++ (codes "] "
            ++ (title
                ++ (codes "\n- Time: "
                    ++ (time
                        ++ (10
                            ∷ (details_text (detail_lines (or_no_details details))
                                ++ (10 ∷ []))))))))

abbrev pub date_heading : Bytes → Bytes
date_heading date = codes "\n## " ++ (date ++ codes "\n\n")

-- fopen for appending, and the writing
unfoldable pub append_entry : Bytes → Bytes → Option Bytes → Bytes → Bytes
append_entry date last_date file text =
    or_no_details file ++ (if str_eq date last_date then text else date_heading date ++ text)

unfoldable pub history_log :
    Bool → Bytes → Bytes → ℕ → Option Bytes → Option Bytes → Option History → Option History
history_log writable date time category title details none = none
history_log writable date time category none details (some h) = some h
history_log writable date time category (some title) details (some h) =
    if writable
    then some (record {
      file = some (append_entry date h.last_date h.file (entry_text category title details time));
      last_date = if str_eq date h.last_date then h.last_date else take 15 date;
    })
    else some h
