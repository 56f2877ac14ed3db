-- ===== src/Allowlist/Check.antt =====
-- What the check permits, and what adding and removing a rule does to it.
use dobby_ai.Base.{
  ◌≡◌, refl, sym, ◌∙◌, ◌↔◌, ◌⊎◌, inl, inr, Bool, true, false, ◌||◌, List, [], ◌∷◌, ◌++◌, Bytes,
  Bool-cases, Option-cases,
}
use dobby_ai.Text.{split_char}
use dobby_ai.Text.Search.{Avoids, split_char-some, split_char-append}
use dobby_ai.Text.Affix.{str_starts_with_iff}
use dobby_ai.Allowlist.{
  AclType, acl_command, acl_path, acl_endpoint, acl_email, Allowlist, list_of, allowlist_check,
  check_rules, rule_permits, name_permits,
}

-- Some element satisfies the predicate.
abbrev pub Any {ℓ} : {A : Type ℓ} → (A → Type 0) → List A → Type 0
Any P [] = ⊥
Any P (x ∷ xs) = P x ⊎ Any P xs

module _ (fnmatch : Bytes → Bytes → Bool → Bool) where
  -- the value, or the part of it before its first blank, matches the pattern
  abbrev pub NamePermits : Bytes → Bytes → Type 0
  NamePermits pattern value =
      (cmd : Bytes) × (args : Bytes) × (value ≡ cmd ++ (32 ∷ args))
      × Avoids 32 cmd
      × (fnmatch pattern cmd false ≡ true)

  abbrev pub Permits : AclType → Bytes → Bytes → Type 0
  Permits acl_command pattern value =
      (fnmatch pattern value false ≡ true) ⊎ NamePermits pattern value
  Permits acl_path pattern value = (rest : Bytes) × (value ≡ pattern ++ rest)
  Permits acl_endpoint pattern value = (rest : Bytes) × (value ≡ pattern ++ rest)
  Permits acl_email pattern value = fnmatch pattern value true ≡ true

  name_permits-NamePermits :
      (pattern value : Bytes)
      → (name_permits fnmatch pattern value ≡ true)
      → NamePermits pattern value
  unfolding name_permits
  name_permits-NamePermits pattern value h = elim (Option-cases (split_char 32 value)) [
    | inl e ↦ cc (e, h)
    | inr ((cmd, args), e) ↦
        let (eq, avoids) = split_char-some 32 value cmd args e in
        (cmd, args, eq, avoids, sym (rw (e, name_permits)) ∙ h)
  ]

  name_permits-of :
      (pattern value : Bytes)
      → NamePermits pattern value
      → name_permits fnmatch pattern value ≡ true
  unfolding name_permits
  name_permits-of pattern value (cmd, args, eq, avoids, m) =
      rw (eq, split_char-append 32 cmd args avoids, name_permits) m

  rule_permits-Permits :
      (type : AclType) (p value : Bytes)
      → rule_permits fnmatch type p value ≡ true
      → Permits type p value
  unfolding rule_permits
  rule_permits-Permits acl_command p value h = elim (Bool-cases (fnmatch p value false)) [
    | inl e ↦ inl e
    | inr e ↦ inr (name_permits-NamePermits p value (sym (rw e) ∙ h))
  ]
  rule_permits-Permits acl_path p value h = (str_starts_with_iff value p).0 h
  rule_permits-Permits acl_endpoint p value h = (str_starts_with_iff value p).0 h
  rule_permits-Permits acl_email p value h = h

  rule_permits-of :
      (type : AclType) (p value : Bytes)
      → Permits type p value
      → rule_permits fnmatch type p value ≡ true
  unfolding rule_permits
  rule_permits-of acl_command p value (inl e) = rw e
  rule_permits-of acl_command p value (inr n) =
      rw (name_permits-of p value n) (or_true (fnmatch p value false))
    where
      or_true : (b : Bool) → b || true ≡ true
      or_true true = refl
      or_true false = refl
  rule_permits-of acl_path p value h = (str_starts_with_iff value p).1 h
  rule_permits-of acl_endpoint p value h = (str_starts_with_iff value p).1 h
  rule_permits-of acl_email p value h = h

  check_rules-Any :
      (type : AclType) (rules : List Bytes) (value : Bytes)
      → check_rules fnmatch type rules value ≡ true
      → Any (λ p. Permits type p value) rules
  unfolding check_rules
  check_rules-Any type [] value h = cc
  check_rules-Any type (p ∷ rules) value h = elim (Bool-cases (rule_permits fnmatch type p value)) [
    | inl e ↦ inl (rule_permits-Permits type p value e)
    | inr e ↦ inr (check_rules-Any type rules value (sym (rw e) ∙ h))
  ]

  check_rules-of :
      (type : AclType) (rules : List Bytes) (value : Bytes)
      → Any (λ p. Permits type p value) rules
      → check_rules fnmatch type rules value ≡ true
  unfolding check_rules
  check_rules-of type [] value a = elim a [ ]
  check_rules-of type (p ∷ rules) value (inl h) = rw (rule_permits-of type p value h)
  check_rules-of type (p ∷ rules) value (inr a) =
      elim (Bool-cases (rule_permits fnmatch type p value)) [
        | inl e ↦ rw e
        | inr e ↦ rw e (check_rules-of type rules value a)
      ]

  pub allowlist_check_iff :
      (al : Allowlist) (type : AclType) (value : Bytes)
      → (allowlist_check fnmatch al type value ≡ true) ↔ (
          ((list_of al type).enabled ≡ false)
          ⊎ Any (λ p. Permits type p value) (list_of al type).rules)
  unfolding allowlist_check
  allowlist_check_iff al type value = elim (Bool-cases (list_of al type).enabled) [
    | inl e ↦ (
      λ h. inr (check_rules-Any type (list_of al type).rules value (sym (rw e) ∙ h)),
      λ s. elim s [
        | inl off ↦ cc (off, e)
        | inr a ↦ rw e (check_rules-of type (list_of al type).rules value a)
      ],
    )
    | inr e ↦ (λ h. inl e, λ s. rw e)
  ]
