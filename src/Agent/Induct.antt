-- ===== src/Agent/Induct.antt =====
-- An invariant of the history that adding a message and rolling back keep is an invariant of a
-- turn.
use dobby_ai.Base.{
  ℕ, zero, suc, ◌+◌, ◌≡◌, Bool, true, false, Option, none, some, List, [], ◌∷◌, arith, Bytes, codes,
  length, Bool-cases, inl, inr,
}
use dobby_ai.Json.{get_object_item, get_string_value}
use dobby_ai.Agent.{Message, Agent, nonempty_calls, agent_add_message, roll_back}
use dobby_ai.Agent.Think.{strip_think_tags}
use dobby_ai.Agent.Wire.{build_messages_json}
use dobby_ai.Agent.Chat.{
  Env, run_call, run_calls, chat_loop, call_result, call_list, assistant_message, final_answer,
  tool_message, LlmResponse,
}

module _ {J E : Type 0} (env : Env J E) where
  -- What a turn leaves satisfies `P`, if it returns.
  abbrev pub Leaves : (Agent J → Type 0) → Option (Option Bytes × Agent J) → Type 0
  Leaves P none = Unit
  Leaves P (some (reply, ag)) = P ag

  abbrev pub LeavesAgent : (Agent J → Type 0) → Option (Agent J) → Type 0
  LeavesAgent P none = Unit
  LeavesAgent P (some ag) = P ag

  -- what the loop over the calls does with the result of one call
  abbrev pub after_call :
      Agent J → Option Bytes → Option Bytes → Option (Option Bytes) → Option (Agent J)
  after_call ag call_id tool_name none = none
  after_call ag call_id tool_name (some result) =
      some (agent_add_message ag (tool_message result call_id tool_name))

  pub run_call-after :
      (ag : Agent J) (tc : J)
      → let func = env.ops.get_item (codes "function") tc in
        let tool_name = get_string_value env.ops (get_object_item env.ops func (codes "name")) in
        run_call env ag tc
        ≡ after_call ag
            (get_string_value env.ops (env.ops.get_item (codes "id") tc))
            tool_name
            (call_result env (length ag.messages) tool_name func)
  unfolding run_call
  run_call-after ag tc = ground arith

  abbrev pub and_then : Option (Agent J) → List J → Option (Agent J)
  and_then none calls = none
  and_then (some ag) calls = run_calls env ag calls

  pub run_calls-cons :
      (ag : Agent J) (tc : J) (calls : List J)
      → run_calls env ag (tc ∷ calls) ≡ and_then (run_call env ag tc) calls
  unfolding run_calls
  run_calls-cons ag tc calls = ground arith

  abbrev pub then_loop : ℕ → ℕ → ℕ → Option (Agent J) → Option (Option Bytes × Agent J)
  then_loop n iter pre none = none
  then_loop n iter pre (some ag) = chat_loop env n (iter + 1) pre ag

  -- what an iteration does with the provider's answer: its error, and whether it asks for tools
  abbrev pub answered :
      ℕ → ℕ → ℕ → Agent J → LlmResponse J → Option Bytes → Bool → Option (Option Bytes × Agent J)
  answered n iter pre ag resp (some e) b = some (some e, roll_back pre ag)
  answered n iter pre ag resp none true = then_loop n iter pre (
      run_calls env (agent_add_message ag (assistant_message env resp resp.tool_calls))
        (call_list resp.tool_calls))
  answered n iter pre ag resp none false = final_answer env ag resp (strip_think_tags resp.content)

  abbrev pub response : ℕ → Agent J → LlmResponse J
  response iter ag = env.chat_complete iter (build_messages_json env.ops env.fmt ag.messages)

  pub chat_loop-suc :
      (n iter pre : ℕ) (ag : Agent J)
      → chat_loop env (suc n) iter pre ag
        ≡ answered n iter pre ag
            (response iter ag)
            (response iter ag).error
            (nonempty_calls (response iter ag).tool_calls)
  unfolding chat_loop
  chat_loop-suc n iter pre ag = ground arith

  module _ (P : Agent J → Type 0)
      (add : (ag : Agent J) (m : Message J) → P ag → P (agent_add_message ag m)) where
    after_call_inv :
        (ag : Agent J) (call_id tool_name : Option Bytes) (r : Option (Option Bytes))
        → P ag
        → LeavesAgent P (after_call ag call_id tool_name r)
    after_call_inv ag call_id tool_name none p = tt
    after_call_inv ag call_id tool_name (some r) p = add ag _ p

    pub run_call_inv : (ag : Agent J) (tc : J) → P ag → LeavesAgent P (run_call env ag tc)
    run_call_inv ag tc p = rw run_call-after (after_call_inv ag _ _ _ p)

    and_then_inv :
        (o : Option (Agent J)) (calls : List J)
        → LeavesAgent P o
        → ((ag : Agent J) → P ag → LeavesAgent P (run_calls env ag calls))
        → LeavesAgent P (and_then o calls)
    and_then_inv none calls p k = tt
    and_then_inv (some ag) calls p k = k ag p

    pub run_calls_inv :
        (calls : List J) (ag : Agent J) → P ag → LeavesAgent P (run_calls env ag calls)
    run_calls_inv [] ag p = unfold run_calls in p
    run_calls_inv (tc ∷ calls) ag p =
        rw run_calls-cons
          (and_then_inv (run_call env ag tc) calls (run_call_inv ag tc p) (run_calls_inv calls))

    module _ (pre : ℕ) (back : (ag : Agent J) → P ag → P (roll_back pre ag)) where
      answered_inv :
          (n iter : ℕ) (ag : Agent J) (resp : LlmResponse J) (e : Option Bytes) (b : Bool)
          → P ag
          → ((iter : ℕ) (ag : Agent J) → P ag → Leaves P (chat_loop env n iter pre ag))
          → Leaves P (answered n iter pre ag resp e b)
      answered_inv n iter ag resp (some e) b p k = back ag p
      answered_inv n iter ag resp none false p k = final_inv (strip_think_tags resp.content)
        where
          final_inv : (clean : Option Bytes) → Leaves P (final_answer env ag resp clean)
          final_inv none = elim (Bool-cases env.is_strdup_nonnull) [
            | inl e ↦ rw e tt
            | inr e ↦ rw e (add ag _ p)
          ]
          final_inv (some s) = add ag _ p
      answered_inv n iter ag resp none true p k =
          loop_inv _ (run_calls_inv (call_list resp.tool_calls) _ (add ag _ p))
        where
          loop_inv : (o : Option (Agent J)) → LeavesAgent P o → Leaves P (then_loop n iter pre o)
          loop_inv none q = tt
          loop_inv (some ag') q = k (iter + 1) ag' q

      pub chat_loop_inv :
          (n iter : ℕ) (ag : Agent J) → P ag → Leaves P (chat_loop env n iter pre ag)
      chat_loop_inv zero iter ag p = unfold chat_loop in back ag p
      chat_loop_inv (suc n) iter ag p =
          rw chat_loop-suc (answered_inv n iter ag (response iter ag) _ _ p (chat_loop_inv n))
