-- ===== src/Agent/Bounds.antt =====
-- The message array never overflows, and the first message is never compacted away.
use dobby_ai.Base.{
  ℕ, zero, suc, ◌+◌, ◌-◌, ◌≤◌, ◌<◌, ◌≡◌, refl, sym, ap, ◌∙◌, inl, inr, some, List, [], ◌∷◌, ◌++◌,
  arith, ltb, leb, length, get_elem?, take, drop, length-append, length-take, length-drop, min,
  Bool-cases, ltb→lt, take-of_length_le,
}
use dobby_ai.Agent.{
  Message, Agent, max_messages_cap, limit, cut_start, walk_back, agent_compact_history,
  agent_add_message, agent_pop_last_message, pop_to, roll_back,
}

module _ {J : Type 0} where
  pub limit_bounds : (ag : Agent J) → (1 ≤ limit ag) × (limit ag ≤ max_messages_cap)
  unfolding limit
  limit_bounds ag = ground arith

  pub walk_back_bounds :
      (ms : List (Message J)) (c : ℕ) → (walk_back ms c ≤ c) × (min c 2 ≤ walk_back ms c)
  unfolding walk_back
  walk_back_bounds ms zero = omega arith
  walk_back_bounds ms (suc c) = ground (arith, walk_back_bounds ms c)

  pub cut_start_bounds :
      (ag : Agent J)
      → (cut_start ag ≤ length ag.messages) × (min 2 (length ag.messages) ≤ cut_start ag)
  unfolding cut_start
  cut_start_bounds ag = ground arith

  -- Compaction removes a message at least from a history of two or more, and keeps a shorter one.
  pub compact-length :
      (ag : Agent J)
      → (length (agent_compact_history ag).messages ≤ length ag.messages)
        × (2 ≤ length ag.messages
            → suc (length (agent_compact_history ag).messages) ≤ length ag.messages)
  unfolding agent_compact_history
  compact-length ag =
      let e : ℕ = walk_back ag.messages (cut_start ag) in
      ground (
        arith,
        walk_back_bounds ag.messages (cut_start ag),
        cut_start_bounds ag,
        length-append (take 1 ag.messages) (drop e ag.messages),
        length-take 1 ag.messages,
        length-drop e ag.messages,
      )

  -- Adding a message to a history that fits the array leaves one that fits the array.
  pub add-fits :
      (ag : Agent J) (m : Message J)
      → length ag.messages ≤ max_messages_cap
      → length (agent_add_message ag m).messages ≤ max_messages_cap
  unfolding agent_add_message
  add-fits ag m h = ground (
    arith,
    limit_bounds ag,
    compact-length ag,
    length-append ag.messages (m ∷ []),
    length-append (agent_compact_history ag).messages (m ∷ []),
  )

  pub length-pop : (ms : List (Message J)) → length (agent_pop_last_message ms) ≡ length ms - 1
  unfolding agent_pop_last_message
  length-pop [] = omega arith
  length-pop (m ∷ []) = omega arith
  length-pop (m ∷ n ∷ ms) = omega (arith, length-pop (n ∷ ms))

  pub take-pop :
      (n : ℕ) (ms : List (Message J))
      → n < length ms
      → take n (agent_pop_last_message ms) ≡ take n ms
  unfolding agent_pop_last_message
  take-pop zero ms h = refl
  take-pop (suc n) [] h = refl
  take-pop (suc n) (m ∷ []) h = absurd (omega arith)
  take-pop (suc n) (m ∷ k ∷ ms) h = ap (◌∷◌ m) (take-pop n (k ∷ ms) (omega arith))

  -- The rollback loop leaves the first `pre` messages.
  pop_to-eq-take :
      (f pre : ℕ) (ms : List (Message J)) → length ms ≤ pre + f → pop_to f pre ms ≡ take pre ms
  unfolding pop_to
  pop_to-eq-take zero pre ms h = sym (take-of_length_le pre ms (omega arith))
  pop_to-eq-take (suc f) pre ms h = elim (Bool-cases (ltb pre (length ms))) [
    | inl more ↦ rw more (
        pop_to-eq-take f pre (agent_pop_last_message ms) (omega (arith, length-pop ms))
        ∙ take-pop pre ms (ltb→lt pre (length ms) more))
    | inr done ↦ rw done (sym (take-of_length_le pre ms (ground arith)))
  ]

  pub roll_back-eq-take :
      (pre : ℕ) (ag : Agent J) → roll_back pre ag ≡ record ag { messages = take pre ag.messages }
  unfolding roll_back
  roll_back-eq-take pre ag = rw (pop_to-eq-take (length ag.messages) pre ag.messages (omega arith))

  pub roll_back-fits :
      (pre : ℕ) (ag : Agent J)
      → length ag.messages ≤ max_messages_cap
      → length (roll_back pre ag).messages ≤ max_messages_cap
  roll_back-fits pre ag h = rw roll_back-eq-take (omega (arith, length-take pre ag.messages))

  -- The first message stays first: compaction never removes it.
  get_elem?-append_zero :
      (xs ys : List (Message J)) (m : Message J)
      → get_elem? xs 0 ≡ some m
      → get_elem? (xs ++ ys) 0 ≡ some m
  get_elem?-append_zero [] ys m h = cc
  get_elem?-append_zero (x ∷ xs) ys m h = h

  get_elem?-take_one :
      (xs : List (Message J)) (m : Message J)
      → get_elem? xs 0 ≡ some m
      → get_elem? (take 1 xs) 0 ≡ some m
  get_elem?-take_one [] m h = cc
  get_elem?-take_one (x ∷ xs) m h = h

  compact-first :
      (ag : Agent J) (m : Message J)
      → get_elem? ag.messages 0 ≡ some m
      → get_elem? (agent_compact_history ag).messages 0 ≡ some m
  unfolding agent_compact_history
  compact-first ag m h = elim (Bool-cases (leb (walk_back ag.messages (cut_start ag)) 1)) [
    | inl keep ↦ rw keep h
    | inr cut ↦
        rw cut (get_elem?-append_zero (take 1 ag.messages) _ m (get_elem?-take_one ag.messages m h))
  ]

  pub add-first :
      (ag : Agent J) (m sys : Message J)
      → get_elem? ag.messages 0 ≡ some sys
      → get_elem? (agent_add_message ag m).messages 0 ≡ some sys
  unfolding agent_add_message
  add-first ag m sys h = elim (Bool-cases (leb (limit ag) (length ag.messages))) [
    | inl at_limit ↦ rw at_limit (
        get_elem?-append_zero (agent_compact_history ag).messages (m ∷ []) sys
          (compact-first ag sys h))
    | inr below ↦ rw below (get_elem?-append_zero ag.messages (m ∷ []) sys h)
  ]
