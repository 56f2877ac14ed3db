-- ===== src/FileTool.antt =====
-- tools/file_ops/file_tool.c: the five file tools, behind the allowlist of paths. The file system is a
-- parameter: what each system call answers, with the text of the error.
pub mod Paths
use dobby_ai.Base.{
  ℕ, zero, suc, ◌*◌, Bool, true, false, ◌||◌, Option, none, some, List, [], ◌∷◌, ◌++◌, Bytes, codes,
  str_eq, ltb, ◌==◌, if◌then◌else◌, length, take,
}
use dobby_ai.Text.{cut_at, contains_case}
use dobby_ai.Text.Sanitize.{sanitize_output}
use dobby_ai.Json.{JsonOps, get_object_item, get_string_value}
use dobby_ai.Allowlist.{Allowlist, acl_path, allowlist_is_enabled, allowlist_check}

abbrev pub max_file_size : ℕ
max_file_size = 10 * 1024 * 1024

pub data Answer (A : Type 0) : Type 0 where
  errno : Bytes → Answer A
  got : A → Answer A

pub record Stat : Type 0 where
  pub st_size : ℕ
  pub is_dir : Bool

-- The system calls on a file system `W`. An entry's name is not empty.
pub record Os (W : Type 0) : Type 0 where
  pub stat : W → Bytes → Answer Stat
  pub read : W → Bytes → ℕ → Answer Bytes
  -- fopen for writing, and fwrite: the number of bytes written
  pub write : W → Bytes → Bytes → Answer ℕ × W
  pub read_dir : W → Bytes → Answer (List Bytes)
  pub unlink : W → Bytes → Option Bytes × W

pub record Entry : Type 0 where
  pub name : Bytes
  pub is_dir : Option Bool
  pub size : Option ℕ

-- what the tools answer
pub data FileAnswer : Type 0 where
  path_required path_and_content_required pattern_required path_not_allowed too_large : FileAnswer
  os_error : Bytes → FileAnswer
  file_content : Bytes → ℕ → Option Bytes → FileAnswer
  written : Bytes → ℕ → FileAnswer
  entries : Bytes → List Entry → FileAnswer
  matches : Bytes → List Bytes → FileAnswer
  deleted : Bytes → FileAnswer

-- snprintf(full_path, 1024, "%s/%s", ...)
abbrev pub full_path : Bytes → Bytes → Bytes
full_path dir name = take 1023 (dir ++ (codes "/" ++ name))

abbrev pub or_here : Option Bytes → Bytes
or_here none = codes "."
or_here (some path) = path

abbrev pub is_hidden : Bytes → Bool
is_hidden [] = false
is_hidden (c ∷ name) = c == 46

abbrev pub argument : {J : Type 0} → JsonOps J → Option J → Bytes → Option Bytes
argument ops args k = get_string_value ops (get_object_item ops args k)

module _ (fnmatch : Bytes → Bytes → Bool → Bool) where
  -- no list is no limit
  unfoldable pub check_path : Option Allowlist → Bytes → Bool
  check_path none path = true
  check_path (some al) path =
      if allowlist_is_enabled al acl_path then allowlist_check fnmatch al acl_path path else true

module _ {W : Type 0} (os : Os W) where
  unfoldable pub read_content : W → Bytes → ℕ → FileAnswer
  read_content w path size = elim (os.read w path size) [
    | errno e ↦ os_error e
    | got content ↦ file_content path size (sanitize_output (some (cut_at 0 content)))
  ]

  unfoldable pub read_file : W → Bytes → FileAnswer
  read_file w path = elim (os.stat w path) [
    | errno e ↦ os_error e
    | got st ↦ if ltb max_file_size st.st_size then too_large else read_content w path st.st_size
  ]

  unfoldable pub write_file : W → Bytes → Bytes → FileAnswer × W
  write_file w path content =
      let (r, w') = os.write w path content in
      (elim r [ errno e ↦ os_error e | got n ↦ written path n ], w')

  unfoldable pub delete_file : W → Bytes → FileAnswer × W
  delete_file w path =
      let (r, w') = os.unlink w path in (elim r [ none ↦ deleted path | some e ↦ os_error e ], w')

  abbrev entry_of : Bytes → Answer Stat → Entry
  entry_of name (errno e) = record { name = name; is_dir = none; size = none }
  entry_of name (got st) = record {
    name = name;
    is_dir = some st.is_dir;
    size = if st.is_dir then none else some st.st_size;
  }

  unfoldable pub list_entries : W → Bytes → List Bytes → List Entry
  list_entries w path [] = []
  list_entries w path (name ∷ names) =
      let rest = list_entries w path names in
      if str_eq name (codes ".") || str_eq name (codes "..")
      then rest
      else entry_of name (os.stat w (full_path path name)) ∷ rest

  unfoldable pub list_dir : W → Bytes → FileAnswer
  list_dir w path = elim (os.read_dir w path) [
    | errno e ↦ os_error e
    | got names ↦ entries path (list_entries w path names)
  ]

  -- the loop over a directory; `recurse` searches a directory in it
  unfoldable pub search_entries : W → Bytes → (Bytes → List Bytes) → Bytes → List Bytes → List Bytes
  search_entries w pattern recurse dir [] = []
  search_entries w pattern recurse dir (name ∷ names) =
      let rest = search_entries w pattern recurse dir names in
      if is_hidden name then rest else elim (os.stat w (full_path dir name)) [
        | errno e ↦ rest
        | got st ↦
            if st.is_dir
            then recurse (full_path dir name) ++ rest
            else if contains_case pattern name
            then full_path dir name ∷ rest
            else rest
      ]

  -- The number is how many levels are left: six at the start.
  unfoldable pub search_recursive : ℕ → W → Bytes → Bytes → List Bytes
  search_recursive zero w pattern dir = []
  search_recursive (suc n) w pattern dir = elim (os.read_dir w dir) [
    | errno e ↦ []
    | got names ↦ search_entries w pattern (λ d. search_recursive n w pattern d) dir names
  ]

  module _ (fnmatch : Bytes → Bytes → Bool → Bool) (al : Option Allowlist) where
    unfoldable pub write_checked : Bytes → Bytes → W → FileAnswer × W
    write_checked path content w =
        if check_path fnmatch al path
        then (if ltb max_file_size (length content)
            then (too_large, w)
            else write_file w path content)
        else (path_not_allowed, w)

    unfoldable pub search_checked : Bytes → Bytes → W → FileAnswer
    search_checked pattern path w =
        if check_path fnmatch al path
        then matches pattern (search_recursive 6 w pattern path)
        else path_not_allowed

  module _ {J : Type 0} (ops : JsonOps J) (fnmatch : Bytes → Bytes → Bool → Bool)
      (al : Option Allowlist) where
    unfoldable pub file_read_exec : Option J → W → FileAnswer
    file_read_exec args w = elim (argument ops args (codes "path")) [
      | none ↦ path_required
      | some path ↦ if check_path fnmatch al path then read_file w path else path_not_allowed
    ]

    unfoldable pub file_write_exec : Option J → W → FileAnswer × W
    file_write_exec args w = elim (argument ops args (codes "path")) [
      | none ↦ (path_and_content_required, w)
      | some path ↦ elim (argument ops args (codes "content")) [
        | none ↦ (path_and_content_required, w)
        | some content ↦ write_checked fnmatch al path content w
      ]
    ]

    unfoldable pub file_list_exec : Option J → W → FileAnswer
    file_list_exec args w =
        let path = or_here (argument ops args (codes "path")) in
        if check_path fnmatch al path then list_dir w path else path_not_allowed

    unfoldable pub file_search_exec : Option J → W → FileAnswer
    file_search_exec args w = elim (argument ops args (codes "pattern")) [
      | none ↦ pattern_required
      | some pattern ↦
          search_checked fnmatch al pattern (or_here (argument ops args (codes "path"))) w
    ]

    unfoldable pub file_delete_exec : Option J → W → FileAnswer × W
    file_delete_exec args w = elim (argument ops args (codes "path")) [
      | none ↦ (path_required, w)
      | some path ↦ if check_path fnmatch al path then delete_file w path else (path_not_allowed, w)
    ]
