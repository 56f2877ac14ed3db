-- ===== src/Subagent/Prompt.antt =====
-- tools/subagent/subagent.c: the system prompt of a sub-agent.
use dobby_ai.Base.{
  ℕ, zero, suc, ◌≤◌, ◌<◌, ◌≡◌, refl, sym, ap, ◌∙◌, subst, inl, inr, Bool-cases, Option, none, some,
  List, [], ◌∷◌, ◌++◌, append_assoc, append-nil, Bytes, arith, is_empty, leb, if◌then◌else◌, length,
  take, length-append, length-take, take-of_length_le, take-append_length,
}
use dobby_ai.Agent.{Agent, agent_create, agent_add_system_part, max_system_parts}
use dobby_ai.Subagent.{Slot, make_agent, clone_parts, add_context, add_parts, id_block, ctx_block}

take-take_append :
    {A : Type 0} (n : ℕ) (xs ys : List A) → take n (take n xs ++ ys) ≡ take n (xs ++ ys)
take-take_append zero xs ys = refl
take-take_append (suc n) [] ys = refl
take-take_append (suc n) (x ∷ xs) ys = ap (◌∷◌ x) (take-take_append n xs ys)

-- the first sixteen parts
abbrev pub first_parts : List Bytes → List Bytes
first_parts parts = take max_system_parts parts

abbrev pub context_parts : Option Bytes → List Bytes
context_parts none = []
context_parts (some c) = if is_empty c then [] else ctx_block c ∷ []

full_parts : (xs ys : List Bytes) → length xs ≡ max_system_parts → xs ≡ first_parts (xs ++ ys)
full_parts xs ys h = sym (subst (λ n. take n (xs ++ ys) ≡ xs) h (take-append_length xs ys))

module _ {J : Type 0} where
  -- an agent that has the first sixteen of some parts
  abbrev Has : List Bytes → Agent J → Type 0
  Has parts ag = ag.system_parts ≡ first_parts parts

  Has-fits :
      (parts : List Bytes) (ag : Agent J) → Has parts ag → length ag.system_parts ≤ max_system_parts
  Has-fits parts ag h =
      subst (λ ps. length ps ≤ max_system_parts) (sym h)
        (omega (arith, length-take max_system_parts parts))

  add_part-first :
      (ag : Agent J) (p : Bytes)
      → length ag.system_parts ≤ max_system_parts
      → Has (ag.system_parts ++ (p ∷ [])) (agent_add_system_part ag p)
  unfolding agent_add_system_part
  add_part-first ag p h = elim (Bool-cases (leb max_system_parts (length ag.system_parts))) [
    | inl e ↦
        let is_full : length ag.system_parts ≡ max_system_parts = ground (arith, e, h) in
        rw e (full_parts ag.system_parts (p ∷ []) is_full)
    | inr e ↦
        let is_short : length ag.system_parts < max_system_parts = ground (arith, e) in
        rw e (
          sym (
            take-of_length_le max_system_parts (ag.system_parts ++ (p ∷ []))
              (omega (arith, is_short, length-append ag.system_parts (p ∷ [])))))
  ]

  add_part-Has :
      (parts : List Bytes) (ag : Agent J) (p : Bytes)
      → Has parts ag
      → Has (parts ++ (p ∷ [])) (agent_add_system_part ag p)
  add_part-Has parts ag p h =
      add_part-first ag p (Has-fits parts ag h)
      ∙ ap (λ ps. first_parts (ps ++ (p ∷ []))) h
      ∙ take-take_append max_system_parts parts (p ∷ [])

  add_parts-Has :
      (parts more : List Bytes) (ag : Agent J)
      → Has parts ag
      → Has (parts ++ more) (add_parts ag more)
  add_parts-Has parts [] ag h = h ∙ ap first_parts (sym (append-nil parts))
  add_parts-Has parts (p ∷ more) ag h =
      add_parts-Has (parts ++ (p ∷ [])) more (agent_add_system_part ag p)
        (add_part-Has parts ag p h)
      ∙ ap first_parts (append_assoc parts (p ∷ []) more)

  abbrev pub template_parts : Option (Agent J) → List Bytes
  template_parts none = []
  template_parts (some t) = t.system_parts

  clone_parts-Has :
      (tmpl : Option (Agent J)) → Has (template_parts tmpl) (clone_parts tmpl agent_create)
  unfolding agent_create
  clone_parts-Has none = refl
  clone_parts-Has (some t) = add_parts-Has [] t.system_parts agent_create refl

  add_context-Has :
      (parts : List Bytes) (context : Option Bytes) (ag : Agent J)
      → Has parts ag
      → Has (parts ++ context_parts context) (add_context context ag)
  add_context-Has parts none ag h = h ∙ ap first_parts (sym (append-nil parts))
  add_context-Has parts (some c) ag h = elim (Bool-cases (is_empty c)) [
    | inl e ↦ rw e (h ∙ ap first_parts (sym (append-nil parts)))
    | inr e ↦ rw e (add_part-Has parts ag (ctx_block c) h)
  ]

-- The system parts of a sub-agent are the first sixteen of the template's parts, the block that tells it
-- who it is, and the block with the context if one is given: with a template of sixteen parts or more the
-- sub-agent gets neither of the two blocks.
pub make_agent-parts :
    {J : Type 0} (tmpl : Option (Agent J)) (sl : Slot J)
    → (make_agent tmpl sl).system_parts
      ≡ first_parts (template_parts tmpl ++ (id_block sl ∷ context_parts sl.context))
unfolding make_agent
make_agent-parts tmpl sl =
    add_context-Has (template_parts tmpl ++ (id_block sl ∷ [])) sl.context _
      (add_part-Has (template_parts tmpl) _ (id_block sl) (clone_parts-Has tmpl))
    ∙ ap first_parts
        (append_assoc (template_parts tmpl) (id_block sl ∷ []) (context_parts sl.context))
