-- ===== src/Agent/Rollback.antt =====
-- A turn that stays below the limit either answers or leaves the history as it found it.
use dobby_ai.Base.{
  ℕ, zero, suc, ◌+◌, ◌*◌, ◌≤◌, ◌<◌, ◌≡◌, refl, ap, ◌∙◌, inl, inr, Bool, true, false, Option, none,
  some, List, [], ◌∷◌, ◌++◌, append_assoc, arith, Bytes, codes, if◌then◌else◌, length,
  length-append, Bool-cases, is_empty, take-append_length,
}
use dobby_ai.Agent.{
  Message, Agent, or_empty, limit, agent_add_message, roll_back, build_system_prompt,
}
use dobby_ai.Agent.Bounds.{roll_back-eq-take, limit_bounds}
use dobby_ai.Agent.Think.{strip_think_tags}
use dobby_ai.Agent.Chat.{
  final_answer, Env, LlmResponse, chat_loop, chat_turn, agent_chat, ensure_system, call_list,
  assistant_message, plain_message,
}
use dobby_ai.Agent.Induct.{chat_loop-suc, answered, then_loop, response}
use dobby_ai.Agent.Calls.{
  with_messages, limit-messages, add_below, Ran, ran, faulted, run_calls-Ran, Answers-length,
}

module _ {J E : Type 0} (env : Env J E) (base : List (Message J)) (user : Message J) where
  -- How a turn ends that began with the history `base`: a fault; a reply with the history put
  -- back; or the answer, at the end of a history that goes on from `base` with the user's message.
  pub data Outcome : Option (Option Bytes × Agent J) → Type 0 where
    faulted_turn : Outcome none
    restored :
        (reply : Option Bytes) (ag : Agent J) → ag.messages ≡ base → Outcome (some (reply, ag))
    completed :
        (reply : Option Bytes) (ag : Agent J) (between : List (Message J)) (final : Message J)
        → ag.messages ≡ base ++ (user ∷ (between ++ (final ∷ [])))
        → final.role ≡ codes "assistant"
        → final.content ≡ or_empty reply
        → Outcome (some (reply, ag))

  -- the history in a turn
  abbrev so_far : List (Message J) → List (Message J)
  so_far between = base ++ (user ∷ between)

  restore :
      (reply : Option Bytes) (ag : Agent J) (between : List (Message J))
      → Outcome (some (reply, roll_back (length base) (with_messages ag (so_far between))))
  restore reply ag between = restored reply _ (
      ap (λ a. a.messages) (roll_back-eq-take (length base) (with_messages ag (so_far between)))
      ∙ take-append_length base (user ∷ between))

  so_far-append :
      (between more : List (Message J)) → so_far between ++ more ≡ so_far (between ++ more)
  so_far-append between more = append_assoc base (user ∷ between) more

  length-so_far :
      (between : List (Message J)) → length (so_far between) ≡ length base + 1 + length between
  length-so_far between = omega (arith, length-append base (user ∷ between))

  -- a message added in a turn, below the limit
  add-so_far :
      (ag : Agent J) (between : List (Message J)) (m : Message J)
      → length base + 1 + length between < limit ag
      → agent_add_message (with_messages ag (so_far between)) m
        ≡ with_messages ag (so_far (between ++ (m ∷ [])))
  add-so_far ag between m h =
      add_below (with_messages ag (so_far between)) m
        (omega (arith, length-so_far between, limit-messages ag (so_far between)))
      ∙ ap (with_messages ag) (so_far-append between (m ∷ []))

  Running : ℕ → ℕ → Agent J → List (Message J) → Type 0
  Running n iter ag between =
      Outcome (chat_loop env n iter (length base) (with_messages ag (so_far between)))

  then_loop-Outcome :
      (n iter : ℕ) (ag : Agent J) (between : List (Message J)) (calls : List J)
      (o : Option (Agent J))
      → Ran env (with_messages ag (so_far between)) calls o
      → ((rs : List (Message J))
          → length rs ≡ length calls
          → Running n (iter + 1) ag (between ++ rs))
      → Outcome (then_loop env n iter (length base) o)
  then_loop-Outcome n iter ag between calls o faulted rest = faulted_turn
  then_loop-Outcome n iter ag between calls o (ran rs a) rest =
      rw so_far-append (unfold Running in rest rs (Answers-length env a))

  final-Outcome :
      (ag : Agent J) (between : List (Message J)) (resp : LlmResponse J) (clean : Option Bytes)
      → strip_think_tags resp.content ≡ clean
      → length base + 1 + length between < limit ag
      → Outcome (final_answer env (with_messages ag (so_far between)) resp clean)
  final-Outcome ag between resp none e h = elim (Bool-cases env.is_strdup_nonnull) [
    | inl faults ↦ rw faults faulted_turn
    | inr copies ↦ rw copies (
        rw (add-so_far ag between (assistant_message env resp none) h)
          (completed _ _ between (assistant_message env resp none) refl refl (ap or_empty e)))
  ]
  final-Outcome ag between resp (some s) e h =
      rw (add-so_far ag between (assistant_message env resp none) h)
        (completed _ _ between (assistant_message env resp none) refl refl (ap or_empty e))

  answered-Outcome :
      (n iter : ℕ) (ag : Agent J) (between : List (Message J)) (resp : LlmResponse J)
      (e : Option Bytes) (b : Bool)
      → length base + 1 + length between + 1 + length (call_list resp.tool_calls) ≤ limit ag
      → ((more : List (Message J))
          → length more ≤ 1 + length (call_list resp.tool_calls)
          → Running n (iter + 1) ag (between ++ more))
      → Outcome (answered env n iter (length base) (with_messages ag (so_far between)) resp e b)
  answered-Outcome n iter ag between resp (some e) b h rest = restore (some e) ag between
  answered-Outcome n iter ag between resp none false h rest =
      final-Outcome ag between resp (strip_think_tags resp.content) refl (omega arith)
  answered-Outcome n iter ag between resp none true h rest =
      let m = assistant_message env resp resp.tool_calls in
      let calls = call_list resp.tool_calls in
      let whole : length (so_far (between ++ (m ∷ []))) + length calls ≤ limit ag =
        omega (arith, length-so_far (between ++ (m ∷ [])), length-append between (m ∷ [])) in
      rw (add-so_far ag between m (omega arith)) (
        then_loop-Outcome n iter ag (between ++ (m ∷ [])) calls _
          (run_calls-Ran env calls (with_messages ag (so_far (between ++ (m ∷ []))))
            (omega (arith, limit-messages ag (so_far (between ++ (m ∷ []))))))
          λ rs e. rw (append_assoc between (m ∷ []) rs) (rest (m ∷ rs) (omega arith)))

  module _ (k : ℕ)
      (few : (i : ℕ) (ag : Agent J) → length (call_list (response env i ag).tool_calls) ≤ k) where
    chat_loop-Outcome :
        (n iter : ℕ) (ag : Agent J) (between : List (Message J))
        → length base + 1 + length between + n * (k + 1) ≤ limit ag
        → Running n iter ag between
    unfolding Running
    chat_loop-Outcome zero iter ag between h = unfold chat_loop in restore (some _) ag between
    chat_loop-Outcome (suc n) iter ag between h = rw (chat_loop-suc env) (
        answered-Outcome n iter ag between (response env iter (with_messages ag (so_far between))) _
          _ (grind (arith, few iter (with_messages ag (so_far between))))
          λ more le. chat_loop-Outcome n (iter + 1) ag (between ++ more) (
            grind
              (arith, few iter (with_messages ag (so_far between)), length-append between more)))

module _ {J E : Type 0} (env : Env J E) where
  -- the history that a turn starts from: the system message, if there was none
  abbrev pub history : Agent J → List (Message J)
  history ag =
      if is_empty ag.messages
      then plain_message (codes "system") (some (build_system_prompt ag.system_parts)) ∷ []
      else ag.messages

  nil_of_is_empty : (ms : List (Message J)) → is_empty ms ≡ true → ms ≡ []
  nil_of_is_empty [] h = refl
  nil_of_is_empty (m ∷ ms) h = cc

  ensure_system-eq-history : (ag : Agent J) → ensure_system env ag ≡ with_messages ag (history ag)
  unfolding ensure_system
  ensure_system-eq-history ag = elim (Bool-cases (is_empty ag.messages)) [
    | inl e ↦
        let none_yet : ag.messages ≡ [] = nil_of_is_empty ag.messages e in
        rw e (
          add_below ag _ (omega (arith, limit_bounds ag, ap (λ ms. length ms) none_yet))
          ∙ ap
              (λ ms. with_messages ag (
                ms
                ++ (plain_message (codes "system") (some (build_system_prompt ag.system_parts))
                    ∷ [])))
              none_yet)
    | inr e ↦ rw e refl
  ]

  -- If no answer asks for more than `k` tools and the limit leaves room for a whole turn, a call of
  -- agent_chat that does not fault ends in one of two ways: the history is the one before the turn
  -- (with the system message, if it was empty), or it goes on from that one with the user's message
  -- and ends with an assistant's message whose content is the text that was returned,
  -- empty for a null one.
  pub agent_chat-Outcome :
      (k : ℕ) (ag : Agent J) (user : Bytes)
      → ((i : ℕ) (a : Agent J) → length (call_list (response env i a).tool_calls) ≤ k)
      → is_empty user ≡ false
      → length (history ag) + 1 + ag.max_iterations * (k + 1) ≤ limit ag
      → Outcome env
          (history ag)
          (plain_message (codes "user") (some user))
          (agent_chat env ag (some user))
  unfolding agent_chat chat_turn
  agent_chat-Outcome k ag user few text room =
      let m : Message J = plain_message (codes "user") (some user) in
      rw
        (
          text,
          ensure_system-eq-history ag,
          add_below (with_messages ag (history ag)) m
              (omega (arith, limit-messages ag (history ag))),
        )
        (unfold Running in
          chat_loop-Outcome env (history ag) m k few ag.max_iterations 0 ag [] (omega arith))
