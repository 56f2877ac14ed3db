-- ===== src/FileTool/Paths.antt =====
-- tools/file_ops/file_tool.c: which paths the tools reach.
use dobby_ai.Base.{
  ℕ, zero, suc, ◌-◌, ◌≤◌, ◌≡◌, refl, sym, ap, ◌∙◌, subst, ◌⊎◌, inl, inr, Bool, true, false,
  Bool-cases, Option, none, some, List, [], ◌∷◌, ◌++◌, append_assoc, Bytes, codes, arith, All,
  All-append, if◌then◌else◌, length, take,
}
use dobby_ai.Text.{contains_case}
use dobby_ai.Json.{JsonOps}
use dobby_ai.Allowlist.{Allowlist, acl_path, list_of, allowlist_is_enabled, allowlist_check}
use dobby_ai.Allowlist.Check.{Any, Permits, allowlist_check_iff}
use dobby_ai.FileTool.{
  Os, Stat, Answer, errno, got, FileAnswer, matches, path_required, path_and_content_required,
  pattern_required, path_not_allowed, too_large, os_error, file_content, written, entries, deleted,
  full_path, is_hidden, check_path, search_entries, search_recursive, search_checked,
  file_search_exec, or_here, argument,
}

take-append :
    {A : Type 0} (n : ℕ) (p s : List A)
    → length p ≤ n
    → take n (p ++ s) ≡ p ++ take (n - length p) s
take-append n [] s h = ap (λ m. take m s) (omega arith)
take-append zero (x ∷ p) s h = absurd (omega arith)
take-append (suc n) (x ∷ p) s h =
    ap (◌∷◌ x) (take-append n p s (omega arith) ∙ ap (λ m. p ++ take m s) (omega arith))

module _ (fnmatch : Bytes → Bytes → Bool → Bool) where
  -- The rules are short enough for the buffer of a path.
  abbrev pub ShortRules : Option Allowlist → Type 0
  ShortRules none = Unit
  ShortRules (some al) = All (λ p. length p ≤ 1023) (list_of al acl_path).rules

  -- Every match in the answer is a path that the check permits.
  abbrev pub MatchesPermitted : Option Allowlist → FileAnswer → Type 0
  MatchesPermitted al (matches pattern found) =
      All (λ path. check_path fnmatch al path ≡ true) found
  MatchesPermitted al path_required = Unit
  MatchesPermitted al path_and_content_required = Unit
  MatchesPermitted al pattern_required = Unit
  MatchesPermitted al path_not_allowed = Unit
  MatchesPermitted al too_large = Unit
  MatchesPermitted al (os_error e) = Unit
  MatchesPermitted al (file_content path n c) = Unit
  MatchesPermitted al (written path n) = Unit
  MatchesPermitted al (entries path es) = Unit
  MatchesPermitted al (deleted path) = Unit

  check_path-allowlist_check :
      (al : Allowlist) (path : Bytes)
      → check_path fnmatch (some al) path ≡ allowlist_check fnmatch al acl_path path
  unfolding check_path allowlist_is_enabled allowlist_check
  check_path-allowlist_check al path = elim (Bool-cases (list_of al acl_path).enabled) [
    | inl e ↦ rw e refl
    | inr e ↦ rw e refl
  ]

  extend-Permits :
      (p path name : Bytes)
      → length p ≤ 1023
      → Permits fnmatch acl_path p path
      → Permits fnmatch acl_path p (full_path path name)
  extend-Permits p path name h (rest, e) = (
    take (1023 - length p) (rest ++ (codes "/" ++ name)),
    ap (λ s. full_path s name) e
        ∙ ap (take 1023) (append_assoc p rest (codes "/" ++ name))
        ∙ take-append 1023 p (rest ++ (codes "/" ++ name)) h,
  )

  extend-Any :
      (path name : Bytes) (rules : List Bytes)
      → All (λ p. length p ≤ 1023) rules
      → Any (λ p. Permits fnmatch acl_path p path) rules
      → Any (λ p. Permits fnmatch acl_path p (full_path path name)) rules
  extend-Any path name [] h a = a
  extend-Any path name (p ∷ rules) (h, hs) (inl a) = inl (extend-Permits p path name h a)
  extend-Any path name (p ∷ rules) (h, hs) (inr a) = inr (extend-Any path name rules hs a)

  -- What is in a permitted directory is permitted.
  full_path-permitted :
      (al : Option Allowlist) (path name : Bytes)
      → ShortRules al
      → check_path fnmatch al path ≡ true
      → check_path fnmatch al (full_path path name) ≡ true
  full_path-permitted none path name h e = unfold check_path in refl
  full_path-permitted (some al) path name h e =
      check_path-allowlist_check al (full_path path name)
      ∙ (allowlist_check_iff fnmatch al acl_path (full_path path name)).1 (
          extended (
            (allowlist_check_iff fnmatch al acl_path path).0
              (sym (check_path-allowlist_check al path) ∙ e)))
    where
      extended :
          ((list_of al acl_path).enabled ≡ false)
            ⊎ Any (λ p. Permits fnmatch acl_path p path) (list_of al acl_path).rules
          → ((list_of al acl_path).enabled ≡ false)
            ⊎ Any
                (λ p. Permits fnmatch acl_path p (full_path path name))
                (list_of al acl_path).rules
      extended (inl off) = inl off
      extended (inr a) = inr (extend-Any path name (list_of al acl_path).rules h a)

  module _ {W : Type 0} (os : Os W) (w : W) (pattern : Bytes) (al : Option Allowlist)
      (short : ShortRules al) where
    abbrev IsPermitted : Bytes → Type 0
    IsPermitted path = check_path fnmatch al path ≡ true

    -- the loop's step at an entry
    abbrev found_at : (Bytes → List Bytes) → Bytes → Bytes → List Bytes → Answer Stat → List Bytes
    found_at recurse path name rest (errno e) = rest
    found_at recurse path name rest (got st) =
        if st.is_dir
        then recurse path ++ rest
        else if contains_case pattern name
        then path ∷ rest
        else rest

    search_entries-cons :
        (recurse : Bytes → List Bytes) (dir name : Bytes) (names : List Bytes)
        → search_entries os w pattern recurse dir (name ∷ names) ≡ (
            if is_hidden name
            then search_entries os w pattern recurse dir names
            else found_at recurse
                (full_path dir name)
                name
                (search_entries os w pattern recurse dir names)
                (os.stat w (full_path dir name)))
    unfolding search_entries
    search_entries-cons recurse dir name names = ground arith

    found_at-IsPermitted :
        (recurse : Bytes → List Bytes) (path name : Bytes) (rest : List Bytes) (a : Answer Stat)
        → ((d : Bytes) → IsPermitted d → All IsPermitted (recurse d))
        → IsPermitted path
        → All IsPermitted rest
        → All IsPermitted (found_at recurse path name rest a)
    found_at-IsPermitted recurse path name rest (errno e) r p h = h
    found_at-IsPermitted recurse path name rest (got st) r p h = elim (Bool-cases st.is_dir) [
      | inl d ↦ rw d (All-append IsPermitted (recurse path) rest (r path p) h)
      | inr d ↦ rw d (matching (contains_case pattern name))
    ]
      where
        matching : (b : Bool) → All IsPermitted (if b then path ∷ rest else rest)
        matching true = (p, h)
        matching false = h

    search_entries-IsPermitted :
        (recurse : Bytes → List Bytes) (dir : Bytes) (names : List Bytes)
        → ((d : Bytes) → IsPermitted d → All IsPermitted (recurse d))
        → IsPermitted dir
        → All IsPermitted (search_entries os w pattern recurse dir names)
    search_entries-IsPermitted recurse dir [] r p = unfold search_entries in tt
    search_entries-IsPermitted recurse dir (name ∷ names) r p =
        subst (All IsPermitted) (sym (search_entries-cons recurse dir name names))
          (elim (Bool-cases (is_hidden name)) [
            | inl e ↦ rw e (search_entries-IsPermitted recurse dir names r p)
            | inr e ↦ rw e (
                found_at-IsPermitted recurse (full_path dir name) name _
                  (os.stat w (full_path dir name)) r (full_path-permitted al dir name short p)
                  (search_entries-IsPermitted recurse dir names r p))
          ])

    abbrev search_names : ℕ → Bytes → Answer (List Bytes) → List Bytes
    search_names n dir (errno e) = []
    search_names n dir (got names) =
        search_entries os w pattern (λ d. search_recursive os n w pattern d) dir names

    search_recursive-names :
        (n : ℕ) (dir : Bytes)
        → search_recursive os (suc n) w pattern dir ≡ search_names n dir (os.read_dir w dir)
    unfolding search_recursive
    search_recursive-names n dir = ground arith

    search_names-IsPermitted :
        (n : ℕ) (dir : Bytes)
        → IsPermitted dir
        → ((d : Bytes) → IsPermitted d → All IsPermitted (search_recursive os n w pattern d))
        → (a : Answer (List Bytes)) → All IsPermitted (search_names n dir a)
    search_names-IsPermitted n dir p r (errno e) = tt
    search_names-IsPermitted n dir p r (got names) =
        search_entries-IsPermitted (λ d. search_recursive os n w pattern d) dir names r p

    search_recursive-IsPermitted :
        (n : ℕ) (dir : Bytes)
        → IsPermitted dir
        → All IsPermitted (search_recursive os n w pattern dir)
    search_recursive-IsPermitted zero dir p = unfold search_recursive in tt
    search_recursive-IsPermitted (suc n) dir p =
        subst (All IsPermitted) (sym (search_recursive-names n dir)) (
          search_names-IsPermitted n dir p (λ d q. search_recursive-IsPermitted n d q)
            (os.read_dir w dir))

    search_checked-permitted :
        (path : Bytes) → MatchesPermitted al (search_checked os fnmatch al pattern path w)
    unfolding search_checked
    search_checked-permitted path = elim (Bool-cases (check_path fnmatch al path)) [
      | inl e ↦ rw e (search_recursive-IsPermitted 6 path e)
      | inr e ↦ rw e tt
    ]

-- Every path that file_search gives is one that the check of paths permits, however deep it was found,
-- when no path rule is longer than 1023 bytes.
pub file_search_exec-MatchesPermitted :
    {J W : Type 0} (os : Os W) (ops : JsonOps J) (fnmatch : Bytes → Bytes → Bool → Bool)
    (al : Option Allowlist) (args : Option J) (w : W)
    → ShortRules fnmatch al
    → MatchesPermitted fnmatch al (file_search_exec os ops fnmatch al args w)
unfolding file_search_exec
file_search_exec-MatchesPermitted os ops fnmatch al args w short =
    by_pattern (argument ops args (codes "pattern"))
  where
    by_pattern :
        (o : Option Bytes)
        → MatchesPermitted fnmatch al (elim o [
          | none ↦ pattern_required
          | some pattern ↦
              search_checked os fnmatch al pattern (or_here (argument ops args (codes "path"))) w
        ])
    by_pattern none = tt
    by_pattern (some pattern) =
        search_checked-permitted fnmatch os w pattern al short
          (or_here (argument ops args (codes "path")))

rule-Any :
    (fnmatch : Bytes → Bytes → Bool → Bool) (before behind : List Bytes) (rule rest : Bytes)
    → Any (λ p. Permits fnmatch acl_path p (rule ++ rest)) (before ++ (rule ∷ behind))
rule-Any fnmatch [] behind rule rest = inl (rest, refl)
rule-Any fnmatch (p ∷ before) behind rule rest = inr (rule-Any fnmatch before behind rule rest)

-- A path that goes from a permitted directory up by ".." to anywhere passes the check of paths.
pub check_path-dotdot :
    (fnmatch : Bytes → Bytes → Bool → Bool) (al : Allowlist) (before behind : List Bytes)
    (rule rest : Bytes)
    → (list_of al acl_path).rules ≡ before ++ (rule ∷ behind)
    → check_path fnmatch (some al) (rule ++ (codes "/../" ++ rest)) ≡ true
check_path-dotdot fnmatch al before behind rule rest e =
    check_path-allowlist_check fnmatch al (rule ++ (codes "/../" ++ rest))
    ∙ (allowlist_check_iff fnmatch al acl_path (rule ++ (codes "/../" ++ rest))).1 (
        inr (
          subst (Any (λ p. Permits fnmatch acl_path p (rule ++ (codes "/../" ++ rest)))) (sym e)
            (rule-Any fnmatch before behind rule (codes "/../" ++ rest))))
