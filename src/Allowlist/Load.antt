-- ===== src/Allowlist/Load.antt =====
-- Loading keeps the lists within their arrays, whatever the file holds.
use dobby_ai.Base.{
  ◌≤◌, ◌≡◌, refl, ◌⊎◌, inl, inr, Bool, true, false, Option, none, some, List, [], ◌∷◌, ◌++◌, arith,
  Bytes, leb, length, length-append, is_empty, codes, Bool-cases, Option-cases, ◌==◌, if◌then◌else◌,
}
use dobby_ai.Text.{str_trim, split_char, is_prefix}
use dobby_ai.Allowlist.{
  AclType, acl_command, acl_path, acl_endpoint, acl_email, AclList, Allowlist, list_of, with_list,
  max_rules, allowlist_create, allowlist_add, fields, add_tokens, header_type, load_values,
  load_line, load_lines, allowlist_load,
}

with_list-either :
    (al : Allowlist) (type other : AclType) (l : AclList)
    → (list_of (with_list al type l) other ≡ l)
      ⊎ (list_of (with_list al type l) other ≡ list_of al other)
with_list-either al acl_command acl_command l = inl refl
with_list-either al acl_command acl_path l = inr refl
with_list-either al acl_command acl_endpoint l = inr refl
with_list-either al acl_command acl_email l = inr refl
with_list-either al acl_path acl_command l = inr refl
with_list-either al acl_path acl_path l = inl refl
with_list-either al acl_path acl_endpoint l = inr refl
with_list-either al acl_path acl_email l = inr refl
with_list-either al acl_endpoint acl_command l = inr refl
with_list-either al acl_endpoint acl_path l = inr refl
with_list-either al acl_endpoint acl_endpoint l = inl refl
with_list-either al acl_endpoint acl_email l = inr refl
with_list-either al acl_email acl_command l = inr refl
with_list-either al acl_email acl_path l = inr refl
with_list-either al acl_email acl_endpoint l = inr refl
with_list-either al acl_email acl_email l = inl refl

-- no list holds more rules than its array has places
abbrev pub IsBounded : Allowlist → Type 0
IsBounded al = (type : AclType) → length (list_of al type).rules ≤ max_rules

pub create-IsBounded : IsBounded allowlist_create
unfolding allowlist_create
create-IsBounded acl_command = omega arith
create-IsBounded acl_path = omega arith
create-IsBounded acl_endpoint = omega arith
create-IsBounded acl_email = omega arith

add-IsBounded :
    (al : Allowlist) (type : AclType) (p : Bytes)
    → IsBounded al
    → IsBounded (allowlist_add al type p).1
unfolding allowlist_add
add-IsBounded al type p v other =
    elim (Bool-cases (leb max_rules (length (list_of al type).rules))) [
      | inl full ↦ rw full (v other)
      | inr room ↦ rw room (at_other room (with_list-either al type other _))
    ]
  where
    added : AclList
    added = record { rules = (list_of al type).rules ++ (p ∷ []); enabled = true }

    at_other :
        leb max_rules (length (list_of al type).rules) ≡ false
        → (list_of (with_list al type added) other ≡ added)
          ⊎ (list_of (with_list al type added) other ≡ list_of al other)
        → length (list_of (with_list al type added) other).rules ≤ max_rules
    at_other room (inl e) =
        rw e (ground (arith, room, length-append (list_of al type).rules (p ∷ [])))
    at_other room (inr e) = rw e (v other)

add_tokens-IsBounded :
    (al : Allowlist) (type : AclType) (tokens : List Bytes)
    → IsBounded al
    → IsBounded (add_tokens al type tokens)
unfolding add_tokens
add_tokens-IsBounded al type [] v = v
add_tokens-IsBounded al type (t ∷ tokens) v =
    add_tokens-IsBounded
      (if is_empty (str_trim t) then al else (allowlist_add al type (str_trim t)).1) type tokens
      (one (is_empty (str_trim t)))
  where
    one : (b : Bool) → IsBounded (if b then al else (allowlist_add al type (str_trim t)).1)
    one true = v
    one false = add-IsBounded al type (str_trim t) v

load_values-IsBounded :
    (al : Allowlist) (type : AclType) (s : Bytes) → IsBounded al → IsBounded (load_values al type s)
load_values-IsBounded al type s v = elim (Bool-cases (is_prefix (codes "allow") s)) [
  | inr e ↦ rw (no_allow e) v
  | inl e ↦ elim (Option-cases (split_char 61 s)) [
    | inl n ↦ rw (no_value e n) v
    | inr ((before, vals), n) ↦ rw (a_value before vals e n) (add_tokens-IsBounded al type _ v)
  ]
]
  where
    no_allow : is_prefix (codes "allow") s ≡ false → load_values al type s ≡ al
    no_allow e = unfold load_values in rw e

    no_value :
        is_prefix (codes "allow") s ≡ true → split_char 61 s ≡ none → load_values al type s ≡ al
    no_value e n = unfold load_values in rw (e, n)

    a_value :
        (before vals : Bytes)
        → is_prefix (codes "allow") s ≡ true
        → split_char 61 s ≡ some (before, vals)
        → load_values al type s ≡ add_tokens al type (fields 44 [] (str_trim vals))
    a_value before vals e n = unfold load_values in rw (e, n)

load_line-IsBounded :
    (al : Allowlist) (type : AclType) (s : Bytes) → IsBounded al → IsBounded (load_line al type s).0
unfolding load_line
load_line-IsBounded al type [] v = v
load_line-IsBounded al type (c ∷ s) v = elim (Bool-cases (c == 35)) [
  | inl e ↦ rw e v
  | inr e ↦ elim (Option-cases (header_type (c ∷ s))) [
    | inl n ↦ rw (e, n) (load_values-IsBounded al type (c ∷ s) v)
    | inr (header, n) ↦ rw (e, n) v
  ]
]

load_lines-IsBounded :
    (al : Allowlist) (type : AclType) (lines : List Bytes)
    → IsBounded al
    → IsBounded (load_lines al type lines)
unfolding load_lines
load_lines-IsBounded al type [] v = v
load_lines-IsBounded al type (line ∷ lines) v =
    load_lines-IsBounded (load_line al type (str_trim line)).0 (load_line al type (str_trim line)).1
      lines (load_line-IsBounded al type (str_trim line) v)

-- Loading a configuration file into lists of at most 256 rules each leaves lists of at most 256
-- rules each, whatever the file's lines are.
pub allowlist_load-IsBounded :
    (al : Allowlist) (file : Option (List Bytes))
    → IsBounded al
    → IsBounded (allowlist_load al file)
unfolding allowlist_load
allowlist_load-IsBounded al none v = v
allowlist_load-IsBounded al (some lines) v = load_lines-IsBounded al acl_command lines v
