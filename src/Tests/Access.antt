-- ===== src/Tests/Access.antt =====
-- The allowlist at concrete rules; the pattern matcher compares texts.
use dobby_ai.Base.{◌≡◌, refl, Bool, true, Bytes, codes, str_eq}
use dobby_ai.Allowlist.{
  Allowlist, AclType, acl_command, acl_path, acl_email, allowlist_create, allowlist_add,
  allowlist_remove, allowlist_check, check_rules, rule_permits, allowlist_load,
}
use dobby_ai.Allowlist.Rules.{allowlist_remove-opens}

abbrev pub fnmatch : Bytes → Bytes → Bool → Bool
fnmatch pattern text casefold = str_eq pattern text

abbrev pub one_rule : Allowlist
one_rule = (allowlist_add allowlist_create acl_path (codes "/tmp/")).1

abbrev two_rules : Allowlist
two_rules = (allowlist_add one_rule acl_path (codes "/home/u/")).1

abbrev file : Bytes
file = codes "/tmp/a"

allowlist_remove-opens_example :
    allowlist_check fnmatch
      (allowlist_remove one_rule acl_path (codes "/TMP/")).1
      acl_path
      (codes "/etc/passwd")
    ≡ true
unfolding allowlist_add allowlist_create allowlist_remove dobby_ai.Allowlist.remove_rule
    dobby_ai.Text.str_case_eq str_eq
allowlist_remove-opens_example =
    allowlist_remove-opens fnmatch one_rule acl_path (codes "/TMP/") (codes "/etc/passwd") refl refl
