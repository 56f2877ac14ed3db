-- ===== src/Allowlist.antt =====
-- security/allowlist.c: the rules for commands, paths, endpoints and addresses, their check, and the
-- loading of the configuration file. fnmatch is an argument: the pattern, the text, and whether
-- case is ignored.
pub mod Check
pub mod Rules
pub mod Load
use dobby_ai.Base.{
  ℕ, ◌+◌, Bool, true, false, ◌&&◌, ◌||◌, Option, none, some, List, [], ◌∷◌, ◌++◌, Bytes, codes,
  is_empty, str_eq, ltb, leb, ◌==◌, if◌then◌else◌, length, get_elem?, map,
}
use dobby_ai.Text.{str_case_eq, str_trim, is_prefix, str_starts_with, split_char}

abbrev pub max_rules : ℕ
max_rules = 256

-- `acl_type_t`
pub data AclType : Type 0 where
  acl_command acl_path acl_endpoint acl_email : AclType

-- `acl_list_t`; the count is the length of the list.
pub record AclList : Type 0 where
  pub rules : List Bytes
  pub enabled : Bool

-- `struct allowlist`, the four lists by their types
pub record Allowlist : Type 0 where
  pub commands : AclList
  pub paths : AclList
  pub endpoints : AclList
  pub emails : AclList

-- what `result_t` says here
pub data AclResult : Type 0 where
  ok max_rules_reached : AclResult

-- al->lists[type]
abbrev pub list_of : Allowlist → AclType → AclList
list_of al acl_command = al.commands
list_of al acl_path = al.paths
list_of al acl_endpoint = al.endpoints
list_of al acl_email = al.emails

abbrev pub with_list : Allowlist → AclType → AclList → Allowlist
with_list al acl_command l = record al { commands = l }
with_list al acl_path l = record al { paths = l }
with_list al acl_endpoint l = record al { endpoints = l }
with_list al acl_email l = record al { emails = l }

unfoldable pub allowlist_create : Allowlist
allowlist_create =
    let off : AclList = record { rules = []; enabled = false } in
    record { commands = off; paths = off; endpoints = off; emails = off }

unfoldable pub allowlist_add : Allowlist → AclType → Bytes → AclResult × Allowlist
allowlist_add al type pattern =
    let list = list_of al type in
    if leb max_rules (length list.rules)
    then (max_rules_reached, al)
    else (ok, with_list al type (record { rules = list.rules ++ (pattern ∷ []); enabled = true }))

unfoldable pub allowlist_is_enabled : Allowlist → AclType → Bool
allowlist_is_enabled al type = (list_of al type).enabled

unfoldable pub allowlist_set_enabled : Allowlist → AclType → Bool → Allowlist
allowlist_set_enabled al type enabled =
    with_list al type (record (list_of al type) { enabled = enabled })

unfoldable pub allowlist_rule_count : Allowlist → AclType → ℕ
allowlist_rule_count al type = length (list_of al type).rules

-- The index is not negative here.
unfoldable pub allowlist_rule_pattern : Allowlist → AclType → ℕ → Option Bytes
allowlist_rule_pattern al type i =
    if leb (length (list_of al type).rules) i then none else get_elem? (list_of al type).rules i

module _ (fnmatch : Bytes → Bytes → Bool → Bool) where
  -- the command's name, before the first blank, against the pattern
  unfoldable pub name_permits : Bytes → Bytes → Bool
  name_permits pattern value = elim (split_char 32 value) [
    | none ↦ false
    | some (cmd, args) ↦ fnmatch pattern cmd false
  ]

  -- the switch in the loop over the rules
  unfoldable pub rule_permits : AclType → Bytes → Bytes → Bool
  rule_permits acl_command pattern value = fnmatch pattern value false || name_permits pattern value
  rule_permits acl_path pattern value = str_starts_with (some value) (some pattern)
  rule_permits acl_endpoint pattern value = str_starts_with (some value) (some pattern)
  rule_permits acl_email pattern value = fnmatch pattern value true

  unfoldable pub check_rules : AclType → List Bytes → Bytes → Bool
  check_rules type [] value = false
  check_rules type (p ∷ rules) value =
      let rest = check_rules type rules value in if rule_permits type p value then true else rest

  unfoldable pub allowlist_check : Allowlist → AclType → Bytes → Bool
  allowlist_check al type value =
      let list = list_of al type in if list.enabled then check_rules type list.rules value else true

-- the rules without the first one that is the pattern up to case
unfoldable pub remove_rule : Bytes → List Bytes → Option (List Bytes)
remove_rule pattern [] = none
remove_rule pattern (r ∷ rules) =
    let rest = remove_rule pattern rules in
    if str_case_eq r pattern
    then some rules
    else elim rest [ none ↦ none | some rs ↦ some (r ∷ rs) ]

unfoldable pub allowlist_remove : Allowlist → AclType → Bytes → Bool × Allowlist
allowlist_remove al type pattern =
    let list = list_of al type in
    elim (remove_rule pattern list.rules) [
      | none ↦ (false, al)
      | some rules ↦ (
        true,
        with_list al type
            (record { rules = rules; enabled = if is_empty rules then false else list.enabled }),
      )
    ]

-- the fields between the commas
unfoldable pub fields : ℕ → Bytes → Bytes → List Bytes
fields c field [] = field ∷ []
fields c field (x ∷ s) = if x == c then field ∷ fields c [] s else fields c (field ++ (x ∷ [])) s

-- The loop over strtok: a field that is empty, or blank, adds nothing.
unfoldable pub add_tokens : Allowlist → AclType → List Bytes → Allowlist
add_tokens al type [] = al
add_tokens al type (token ∷ tokens) =
    let trimmed = str_trim token in
    add_tokens (if is_empty trimmed then al else (allowlist_add al type trimmed).1) type tokens

-- the section that a header opens
unfoldable pub header_type : Bytes → Option AclType
header_type s =
    if str_eq s (codes "[commands]")
    then some acl_command
    else if str_eq s (codes "[paths]")
    then some acl_path
    else if str_eq s (codes "[endpoints]")
    then some acl_endpoint
    else if str_eq s (codes "[email]")
    then some acl_email
    else none

-- "allow = a, b, c"; another line that is no header changes nothing
unfoldable pub load_values : Allowlist → AclType → Bytes → Allowlist
load_values al type s =
    if is_prefix (codes "allow") s
    then elim (split_char 61 s) [
      | none ↦ al
      | some (before, vals) ↦ add_tokens al type (fields 44 [] (str_trim vals))
    ]
    else al

-- one line of the file, trimmed
unfoldable pub load_line : Allowlist → AclType → Bytes → Allowlist × AclType
load_line al type [] = (al, type)
load_line al type (c ∷ s) = if c == 35 then (al, type) else elim (header_type (c ∷ s)) [
  | some header ↦ (al, header)
  | none ↦ (load_values al type (c ∷ s), type)
]

unfoldable pub load_lines : Allowlist → AclType → List Bytes → Allowlist
load_lines al type [] = al
load_lines al type (line ∷ lines) =
    let (al', type') = load_line al type (str_trim line) in load_lines al' type' lines

-- The file's lines as fgets hands them out; `none` where the file cannot be opened.
unfoldable pub allowlist_load : Allowlist → Option (List Bytes) → Allowlist
allowlist_load al none = al
allowlist_load al (some lines) = load_lines al acl_command lines
