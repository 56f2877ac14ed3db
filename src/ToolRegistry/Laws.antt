-- ===== src/ToolRegistry/Laws.antt =====
-- What the tool table promises: capacity, complete entries, and searches that find what was
-- registered first.
use dobby_ai.Base.{
  ◌≤◌, ◌<◌, ◌≡◌, refl, ap, ◌∙◌, true, false, Option, none, some, List, [], ◌∷◌, ◌++◌, arith, Bytes,
  leb, if◌then◌else◌, length, length-append, All, All-append, str_eq, Bool-cases, inl, inr, ◌≢◌,
  Option-cases,
}
use dobby_ai.ToolRegistry.{
  max_tools, Tool, Lookup, fault, missing, found, has_both, tool_register, name_test, tool_find,
}

module _ {E : Type 0} where
  -- a tool that can be looked up and run
  pub record IsComplete (t : Tool E) : Type 0 where
    pub named : Bytes
    pub runs : E
    pub name_is : t.name ≡ some named
    pub execute_is : t.execute ≡ some runs

  abbrev pub IsValid : List (Tool E) → Type 0
  IsValid tools = (length tools ≤ max_tools) × All IsComplete tools

  has_both-IsComplete :
      (n : Option Bytes) (e : Option E)
      → has_both n e ≡ true
      → (m : Bytes) × (f : E) × (n ≡ some m) × (e ≡ some f)
  unfolding has_both
  has_both-IsComplete none e h = cc
  has_both-IsComplete (some n) none h = cc
  has_both-IsComplete (some n) (some e) h = (n, e, refl, refl)

  complete : (t : Tool E) → has_both t.name t.execute ≡ true → IsComplete t
  complete t h =
      let (m, f, p, q) = has_both-IsComplete t.name t.execute h in
      record { named = m; runs = f; name_is = p; execute_is = q }

  -- Registering keeps the table within its 64 places and every entry with a name and a function,
  -- whatever tool is offered.
  pub register-IsValid :
      (tools : List (Tool E)) (t : Tool E) → IsValid tools → IsValid (tool_register tools t).1
  unfolding tool_register
  register-IsValid tools t v = elim (Bool-cases (leb max_tools (length tools))) [
    | inl full ↦ rw full v
    | inr room ↦ elim (Bool-cases (has_both t.name t.execute)) [
      | inl ok ↦
          rw (room, ok)
            (
              ground (arith, length-append tools (t ∷ [])),
              All-append IsComplete tools (t ∷ []) v.1 (complete t ok, tt),
            )
      | inr bad ↦ rw (room, bad) v
    ]
  ]

  abbrev pub or_else : Lookup (Tool E) → Lookup (Tool E) → Lookup (Tool E)
  or_else missing r = r
  or_else fault r = fault
  or_else (found t) r = found t

  find-cons :
      (x : Tool E) (xs : List (Tool E)) (name : Bytes) (c : IsComplete x)
      → tool_find (x ∷ xs) (some name)
        ≡ (if str_eq c.named name then found x else tool_find xs (some name))
  unfolding tool_find name_test
  find-cons x xs name c = rw (c.name_is, name_test)

  -- A search goes through the entries in the order of registration.
  find-append :
      (xs ys : List (Tool E)) (name : Bytes)
      → All IsComplete xs
      → tool_find (xs ++ ys) (some name)
        ≡ or_else (tool_find xs (some name)) (tool_find ys (some name))
  find-append [] ys name h = unfold tool_find in refl
  find-append (x ∷ xs) ys name (c, h) = elim (Bool-cases (str_eq c.named name)) [
    | inl e ↦ rw (find-cons x (xs ++ ys) name c, find-cons x xs name c, e) refl
    | inr e ↦
        rw (find-cons x (xs ++ ys) name c, find-cons x xs name c, e) (find-append xs ys name h)
  ]

  -- In a table of complete tools a search by a name never faults.
  pub find-ne-fault :
      (xs : List (Tool E)) (name : Bytes) → All IsComplete xs → tool_find xs (some name) ≢ fault
  find-ne-fault [] name h e = unfold tool_find in cc
  find-ne-fault (x ∷ xs) name (c, h) e = elim (Bool-cases (str_eq c.named name)) [
    | inl t ↦ cc (find-cons x xs name c, t)
    | inr t ↦ find-ne-fault xs name h (cc (find-cons x xs name c, t, e))
  ]

  -- After a tool is registered, a search by any name gives what it gave before; only where it gave
  -- nothing, the name of the new tool gives the new tool. So an earlier tool of the same name is
  -- never replaced.
  pub find-register :
      (tools : List (Tool E)) (t : Tool E) (c : IsComplete t) (name : Bytes)
      → IsValid tools
      → length tools < max_tools
      → tool_find (tool_register tools t).1 (some name)
        ≡ or_else (tool_find tools (some name)) (if str_eq c.named name then found t else missing)
  unfolding tool_register
  find-register tools t c name v room =
      let open_place : leb max_tools (length tools) ≡ false = ground arith in
      let whole : has_both t.name t.execute ≡ true =
        rw (c.name_is, c.execute_is) (unfold has_both in refl) in
      rw (open_place, whole)
        (find-append tools (t ∷ []) name v.1
          ∙ ap (or_else (tool_find tools (some name)))
              (rw (find-cons t [] name c) (unfold tool_find in refl)))

  -- A search by a null name faults as soon as the table holds a tool.
  pub find-null : (t : Tool E) (tools : List (Tool E)) → tool_find (t ∷ tools) none ≡ fault
  unfolding tool_find name_test
  find-null t tools = elim (Option-cases t.name) [
    | inl e ↦ rw (e, name_test)
    | inr (n, e) ↦ rw (e, name_test)
  ]
