-- ===== src/Allowlist/Rules.antt =====
-- Adding, removing and loading rules: what the check answers afterwards, and the bound on a list.
use dobby_ai.Base.{
  ◌<◌, ◌≡◌, refl, sym, ap, ◌∙◌, inl, inr, Bool, true, false, ◌||◌, Option, none, some, List, [],
  ◌∷◌, ◌++◌, arith, Bytes, leb, length, is_empty, Bool-cases, if◌then◌else◌,
}
use dobby_ai.Text.{str_case_eq}
use dobby_ai.Allowlist.{
  AclType, acl_command, acl_path, acl_endpoint, acl_email, AclList, Allowlist, list_of, with_list,
  max_rules, allowlist_add, allowlist_remove, allowlist_check, check_rules, rule_permits,
  remove_rule,
}

list_of-with_list :
    (al : Allowlist) (type : AclType) (l : AclList) → list_of (with_list al type l) type ≡ l
list_of-with_list al acl_command l = refl
list_of-with_list al acl_path l = refl
list_of-with_list al acl_endpoint l = refl
list_of-with_list al acl_email l = refl

module _ (fnmatch : Bytes → Bytes → Bool → Bool) where
  check_rules-append :
      (type : AclType) (rules more : List Bytes) (value : Bytes)
      → check_rules fnmatch type (rules ++ more) value
        ≡ check_rules fnmatch type rules value || check_rules fnmatch type more value
  unfolding check_rules
  check_rules-append type [] more value = refl
  check_rules-append type (p ∷ rules) more value =
      elim (Bool-cases (rule_permits fnmatch type p value)) [
        | inl e ↦ rw e
        | inr e ↦ rw e (check_rules-append type rules more value)
      ]

  check_rules-one :
      (type : AclType) (p value : Bytes)
      → check_rules fnmatch type (p ∷ []) value ≡ rule_permits fnmatch type p value
  unfolding check_rules
  check_rules-one type p value = ground arith

  -- After a rule has been added to a list with room, a value passes exactly when an old rule or the
  -- new one permits it; so the first rule of a list that was not enabled turns the others away.
  pub allowlist_add-check :
      (al : Allowlist) (type : AclType) (p value : Bytes)
      → length (list_of al type).rules < max_rules
      → allowlist_check fnmatch (allowlist_add al type p).1 type value
        ≡ check_rules fnmatch type (list_of al type).rules value
          || rule_permits fnmatch type p value
  unfolding allowlist_add allowlist_check
  allowlist_add-check al type p value room =
      let has_room : leb max_rules (length (list_of al type).rules) ≡ false = ground arith in
      rw (has_room, list_of-with_list)
        (check_rules-append type (list_of al type).rules (p ∷ []) value
          ∙ ap (λ b. check_rules fnmatch type (list_of al type).rules value || b)
              (check_rules-one type p value))

  abbrev Narrows : AclType → List Bytes → Bytes → Option (List Bytes) → Type 0
  Narrows type rules value none = Unit
  Narrows type rules value (some rs) =
      check_rules fnmatch type rs value ≡ true → check_rules fnmatch type rules value ≡ true

  keep_first : Bytes → Option (List Bytes) → Option (List Bytes)
  keep_first r none = none
  keep_first r (some rs) = some (r ∷ rs)

  keep_first-Narrows :
      (type : AclType) (r : Bytes) (rules : List Bytes) (value : Bytes) (o : Option (List Bytes))
      → Narrows type rules value o
      → Narrows type (r ∷ rules) value (keep_first r o)
  unfolding keep_first check_rules
  keep_first-Narrows type r rules value none n = tt
  keep_first-Narrows type r rules value (some rs) n = λ h.
      elim (Bool-cases (rule_permits fnmatch type r value)) [
        | inl e ↦ rw e
        | inr e ↦ rw e (n (sym (rw e) ∙ h))
      ]

  remove_rule-hit :
      (pattern r : Bytes) (rules : List Bytes)
      → str_case_eq r pattern ≡ true
      → remove_rule pattern (r ∷ rules) ≡ some rules
  unfolding remove_rule
  remove_rule-hit pattern r rules e = rw e

  remove_rule-miss :
      (pattern r : Bytes) (rules : List Bytes)
      → str_case_eq r pattern ≡ false
      → remove_rule pattern (r ∷ rules) ≡ keep_first r (remove_rule pattern rules)
  unfolding remove_rule keep_first
  remove_rule-miss pattern r rules e = rw e

  tail-Narrows :
      (type : AclType) (r : Bytes) (rules : List Bytes) (value : Bytes)
      → Narrows type (r ∷ rules) value (some rules)
  unfolding check_rules
  tail-Narrows type r rules value h = elim (Bool-cases (rule_permits fnmatch type r value)) [
    | inl e ↦ rw e
    | inr e ↦ rw e h
  ]

  remove_rule-Narrows :
      (type : AclType) (pattern : Bytes) (rules : List Bytes) (value : Bytes)
      → Narrows type rules value (remove_rule pattern rules)
  remove_rule-Narrows type pattern [] value = unfold remove_rule in tt
  remove_rule-Narrows type pattern (r ∷ rules) value = elim (Bool-cases (str_case_eq r pattern)) [
    | inl e ↦ rw (remove_rule-hit pattern r rules e) (tail-Narrows type r rules value)
    | inr e ↦
        rw (remove_rule-miss pattern r rules e)
          (keep_first-Narrows type r rules value _ (remove_rule-Narrows type pattern rules value))
  ]

  -- what a removal answers
  abbrev removed : Allowlist → AclType → Option (List Bytes) → Bool × Allowlist
  removed al type none = (false, al)
  removed al type (some rules) = (
    true,
    with_list al type (record {
      rules = rules;
      enabled = if is_empty rules then false else (list_of al type).enabled;
    }),
  )

  allowlist_remove-eq :
      (al : Allowlist) (type : AclType) (pattern : Bytes)
      → allowlist_remove al type pattern
        ≡ removed al type (remove_rule pattern (list_of al type).rules)
  unfolding allowlist_remove
  allowlist_remove-eq al type pattern = ground arith

  removed-check :
      (al : Allowlist) (type : AclType) (value : Bytes) (o : Option (List Bytes))
      → Narrows type (list_of al type).rules value o
      → is_empty (list_of (removed al type o).1 type).rules ≡ false
      → allowlist_check fnmatch (removed al type o).1 type value ≡ true
      → allowlist_check fnmatch al type value ≡ true
  unfolding allowlist_check
  removed-check al type value none n some_left h = h
  removed-check al type value (some rules) n some_left h =
      let left : is_empty rules ≡ false =
        ap (λ l. is_empty l.rules) (sym (list_of-with_list al type _)) ∙ some_left in
      elim (Bool-cases (list_of al type).enabled) [
        | inl e ↦ rw e (n (sym (rw (list_of-with_list, left, e)) ∙ h))
        | inr e ↦ rw e
      ]

  -- A removal that leaves a rule in the list lets nothing pass that did not pass before.
  pub allowlist_remove-narrows :
      (al : Allowlist) (type : AclType) (pattern value : Bytes)
      → is_empty (list_of (allowlist_remove al type pattern).1 type).rules ≡ false
      → allowlist_check fnmatch (allowlist_remove al type pattern).1 type value ≡ true
      → allowlist_check fnmatch al type value ≡ true
  allowlist_remove-narrows al type pattern value = rw allowlist_remove-eq (
      removed-check al type value _
        (remove_rule-Narrows type pattern (list_of al type).rules value))

  removed-opens :
      (al : Allowlist) (type : AclType) (value : Bytes) (o : Option (List Bytes))
      → (removed al type o).0 ≡ true
      → is_empty (list_of (removed al type o).1 type).rules ≡ true
      → allowlist_check fnmatch (removed al type o).1 type value ≡ true
  unfolding allowlist_check
  removed-opens al type value none done gone = cc
  removed-opens al type value (some rules) done gone =
      let empty : is_empty rules ≡ true =
        ap (λ l. is_empty l.rules) (sym (list_of-with_list al type _)) ∙ gone in
      rw (list_of-with_list, empty)

  -- The removal of a list's last rule switches the list off: every value passes then.
  pub allowlist_remove-opens :
      (al : Allowlist) (type : AclType) (pattern value : Bytes)
      → (allowlist_remove al type pattern).0 ≡ true
      → is_empty (list_of (allowlist_remove al type pattern).1 type).rules ≡ true
      → allowlist_check fnmatch (allowlist_remove al type pattern).1 type value ≡ true
  allowlist_remove-opens al type pattern value =
      rw allowlist_remove-eq
        (removed-opens al type value (remove_rule pattern (list_of al type).rules))
