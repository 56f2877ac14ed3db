-- ===== src/Agent/Compact.antt =====
-- What compaction removes, and what follows for a turn that reaches the limit.
use dobby_ai.Base.{
  ℕ, zero, suc, ◌+◌, ◌-◌, ◌*◌, ◌≤◌, ◌<◌, ◌≡◌, refl, ap, ◌∙◌, ap₂, ◌⊎◌, inl, inr, Bool, true, false,
  ◌&&◌, some, List, [], ◌∷◌, ◌++◌, arith, Bytes, codes, ltb, leb, length, get_or, take, drop,
  length-append, Bool-cases, is_empty, take-of_length_le,
}
use dobby_ai.Agent.{
  Message, Agent, no_message, message_has_tool_calls, nonempty_calls, limit, cut_start, walk_back,
  agent_compact_history, agent_add_message, roll_back,
}
use dobby_ai.Agent.Bounds.{roll_back-eq-take, walk_back_bounds, cut_start_bounds, compact-length}
use dobby_ai.Agent.Chat.{Env, chat_loop, chat_turn, agent_chat, ensure_system, plain_message}
use dobby_ai.Agent.Induct.{chat_loop-suc, answered, response}

-- The number of messages that a history may have: the one that is set, if it is one from 1 to 128.
abbrev pub IsLimit : ℕ → ℕ → Type 0
IsLimit asked l =
    ((1 ≤ asked) × (asked ≤ 128) × (l ≡ asked)) ⊎ (((asked ≡ 0) ⊎ (128 < asked)) × (l ≡ 128))

second_test : (a b : Bool) → (a && b) ≡ true → b ≡ true
second_test a b e = ground arith

below_or_last : (j c : ℕ) → j < suc c → (j ≡ c) ⊎ (j < c)
below_or_last j c h = ground arith

module _ {J : Type 0} where
  walk_back-stops :
      (ms : List (Message J)) (c : ℕ)
      → (walk_back ms c ≤ 2)
        ⊎ ((last : ℕ) × (walk_back ms c ≡ suc last)
            × (message_has_tool_calls (get_or ms last no_message) ≡ false))
  unfolding walk_back
  walk_back-stops ms zero = inl (omega arith)
  walk_back-stops ms (suc c) = elim (Bool-cases (ltb 2 (suc c))) [
    | inl far ↦ elim (Bool-cases (message_has_tool_calls (get_or ms c no_message))) [
      | inl t ↦ rw (far, t) (walk_back-stops ms c)
      | inr t ↦ rw (far, t) (inr (c, refl, t))
    ]
    | inr near ↦ rw near (inl (ground arith))
  ]

  -- Behind the place where the walk stops, every message up to its start carries tool calls.
  walk_back-skips :
      (ms : List (Message J)) (c j : ℕ)
      → walk_back ms c ≤ j
      → j < c
      → message_has_tool_calls (get_or ms j no_message) ≡ true
  unfolding walk_back
  walk_back-skips ms zero j h k = absurd (omega arith)
  walk_back-skips ms (suc c) j h k =
      elim (Bool-cases (ltb 2 (suc c) && message_has_tool_calls (get_or ms c no_message))) [
        | inl on ↦ elim (below_or_last j c k) [
          | inl e ↦ rw e (second_test _ _ on)
          | inr less ↦ walk_back-skips ms c j (ground (arith, h, on)) less
        ]
        | inr off ↦ absurd (ground (arith, h, k, off))
      ]

  limit-IsLimit : (ag : Agent J) → IsLimit ag.max_messages (limit ag)
  unfolding limit
  limit-IsLimit ag = ground arith

  cut_start-reach : (ag : Agent J) → (cut_start ag ≤ 2) ⊎ (4 * (cut_start ag - 1) ≤ limit ag)
  unfolding cut_start
  cut_start-reach ag = ground arith

  below-cut_start :
      (ag : Agent J) (j : ℕ) → 2 ≤ j → j < length ag.messages → 4 * j ≤ limit ag → j < cut_start ag
  unfolding cut_start
  below-cut_start ag j low h q = ground (arith, h, q, low)

  cut-reach : (ag : Agent J) (cut : ℕ) → cut ≤ cut_start ag → (cut ≤ 2) ⊎ (4 * (cut - 1) ≤ limit ag)
  cut-reach ag cut h = elim (cut_start-reach ag) [
    | inl e ↦ inl (omega (arith, e, h))
    | inr e ↦ inr (omega (arith, e, h))
  ]

  -- Compaction of a history of two messages or more cuts out one block behind the first message:
  -- from index 1 up to some end. The end is 2 at least, inside the history, and above 2 it is at most
  -- one more than a quarter of the limit, which is the number set for the agent if it is one from 1
  -- to 128, and else 128. The block goes as far as that allows, but back over messages with tool
  -- calls: every message from the end up to the index that is a quarter of the limit carries tool calls,
  -- and if the block has more than one message, its last one carries none.
  pub compact_block :
      (ag : Agent J)
      → 2 ≤ length ag.messages
      → (cut l : ℕ) × ((agent_compact_history ag).messages
          ≡ take 1 ag.messages ++ drop cut ag.messages)
        × IsLimit ag.max_messages l
        × (2 ≤ cut)
        × (cut ≤ length ag.messages)
        × ((cut ≤ 2) ⊎ (4 * (cut - 1) ≤ l))
        × ((j : ℕ)
            → cut ≤ j
            → j < length ag.messages
            → 4 * j ≤ l
            → message_has_tool_calls (get_or ag.messages j no_message) ≡ true)
        × ((cut ≤ 2)
            ⊎ ((last : ℕ) × (cut ≡ suc last)
                × (message_has_tool_calls (get_or ag.messages last no_message) ≡ false)))
  unfolding agent_compact_history
  compact_block ag h =
      let e : ℕ = walk_back ag.messages (cut_start ag) in
      let low : 2 ≤ e =
        omega (arith, walk_back_bounds ag.messages (cut_start ag), cut_start_bounds ag) in
      let cuts : leb e 1 ≡ false = ground arith in
      (
        e,
        limit ag,
        rw cuts refl,
        limit-IsLimit ag,
        low,
        omega (arith, walk_back_bounds ag.messages (cut_start ag), cut_start_bounds ag),
        cut-reach ag e (walk_back_bounds ag.messages (cut_start ag)).0,
        λ j from inside q.
            walk_back-skips ag.messages (cut_start ag) j from
              (below-cut_start ag j (omega (arith, low, from)) inside q),
        walk_back-stops ag.messages (cut_start ag),
      )

  get_or-middle :
      (xs : List (Message J)) (a : Message J) (ys : List (Message J))
      → get_or (xs ++ (a ∷ ys)) (length xs) no_message ≡ a
  get_or-middle [] a ys = refl
  get_or-middle (x ∷ xs) a ys = get_or-middle xs a ys

  drop-middle :
      (xs : List (Message J)) (a : Message J) (ys : List (Message J))
      → drop (suc (length xs)) (xs ++ (a ∷ ys)) ≡ ys
  drop-middle [] a ys = refl
  drop-middle (x ∷ xs) a ys = drop-middle xs a ys

  walk_back-here :
      (ms : List (Message J)) (c : ℕ)
      → message_has_tool_calls (get_or ms c no_message) ≡ false
      → walk_back ms (suc c) ≡ suc c
  unfolding walk_back
  walk_back-here ms c h = ground arith

  compact-at :
      (ag : Agent J) (k : ℕ)
      → walk_back ag.messages (cut_start ag) ≡ suc (suc k)
      → (agent_compact_history ag).messages ≡ take 1 ag.messages ++ drop (suc (suc k)) ag.messages
  unfolding agent_compact_history
  compact-at ag k h = let cuts : leb (suc (suc k)) 1 ≡ false = ground arith in rw (h, cuts)

  -- The cut looks at the last removed message only: where it falls behind a message without tool
  -- calls, say the first of several tool results, everything up to there goes, the assistant's
  -- message with the calls included, and the next result stays, directly behind the first message.
  pub compact_orphans :
      (ag : Agent J) (sys result next : Message J) (old rest : List (Message J))
      → ag.messages ≡ sys ∷ (old ++ (result ∷ next ∷ rest))
      → cut_start ag ≡ length old + 2
      → message_has_tool_calls result ≡ false
      → (agent_compact_history ag).messages ≡ sys ∷ next ∷ rest
  compact_orphans ag sys result next old rest e c h =
      compact-at ag (length old) (
        ap₂ walk_back e (c' ∙ refl)
        ∙ walk_back-here (sys ∷ (old ++ (result ∷ next ∷ rest))) (suc (length old))
            (rw (get_or-middle old result (next ∷ rest)) h))
      ∙ ap (λ ms. take 1 ms ++ drop (suc (suc (length old))) ms) e
      ∙ ap (◌∷◌ sys) (drop-middle old result (next ∷ rest))
    where
      c' : cut_start ag ≡ suc (suc (length old))
      c' = omega (arith, c)

module _ {J E : Type 0} (env : Env J E) where
  is_empty-of_length : (ms : List (Message J)) → 0 < length ms → is_empty ms ≡ false
  is_empty-of_length [] h = absurd (omega arith)
  is_empty-of_length (m ∷ ms) h = refl

  add_full :
      (ag : Agent J) (m : Message J)
      → limit ag ≤ length ag.messages
      → agent_add_message ag m ≡ record (agent_compact_history ag) {
        messages = (agent_compact_history ag).messages ++ (m ∷ []);
      }
  unfolding agent_add_message
  add_full ag m h = let full : leb (limit ag) (length ag.messages) ≡ true = ground arith in rw full

  roll_back-short : (pre : ℕ) (ag : Agent J) → length ag.messages ≤ pre → roll_back pre ag ≡ ag
  roll_back-short pre ag h =
      roll_back-eq-take pre ag
      ∙ ap (λ ms. record ag { messages = ms }) (take-of_length_le pre ag.messages h)

  -- A turn on a history that is not empty.
  agent_chat-old :
      (ag : Agent J) (user : Bytes)
      → is_empty user ≡ false
      → is_empty ag.messages ≡ false
      → agent_chat env ag (some user)
        ≡ chat_loop env ag.max_iterations 0
            (length ag.messages)
            (agent_add_message ag (plain_message (codes "user") (some user)))
  unfolding agent_chat chat_turn ensure_system
  agent_chat-old ag user text old = rw (text, old)

  failed-once :
      (n pre : ℕ) (ag : Agent J) (e : Bytes)
      → (response env 0 ag).error ≡ some e
      → chat_loop env (suc n) 0 pre ag ≡ some (some e, roll_back pre ag)
  failed-once n pre ag e bad =
      chat_loop-suc env n 0 pre ag
      ∙ ap
          (λ o.
            answered env n 0 pre ag (response env 0 ag) o
              (nonempty_calls (response env 0 ag).tool_calls))
          bad

  -- A turn that starts at the limit compacts the history before the user's message is added. When
  -- its first request then fails, nothing is rolled back: the user's message stays in the history,
  -- and the messages that were compacted away are gone.
  pub full_error_keeps_user :
      (ag : Agent J) (user e : Bytes) (n : ℕ)
      → limit ag ≤ length ag.messages
      → 2 ≤ length ag.messages
      → is_empty user ≡ false
      → ag.max_iterations ≡ suc n
      → ((a : Agent J) → (response env 0 a).error ≡ some e)
      → let cut = agent_compact_history ag in
        agent_chat env ag (some user)
        ≡ some (
          some e,
          record cut { messages = cut.messages ++ (plain_message (codes "user") (some user) ∷ []) },
        )
  full_error_keeps_user ag user e n full two text it bad =
      let m : Message J = plain_message (codes "user") (some user) in
      let fits : length (agent_add_message ag m).messages ≤ length ag.messages =
        rw (add_full ag m full) (
          omega (
            arith,
            (compact-length ag).1 two,
            length-append (agent_compact_history ag).messages (m ∷ []),
          )) in
      agent_chat-old ag user text (is_empty-of_length ag.messages (omega arith))
      ∙ ap (λ k. chat_loop env k 0 (length ag.messages) (agent_add_message ag m)) it
      ∙ failed-once n (length ag.messages) (agent_add_message ag m) e (bad (agent_add_message ag m))
      ∙ ap (λ a. some (some e, a))
          (roll_back-short (length ag.messages) (agent_add_message ag m) fits ∙ add_full ag m full)
