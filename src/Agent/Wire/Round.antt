-- ===== src/Agent/Wire/Round.antt =====
-- The request behind a round of tool calls has the calls and a result for each of them.
use dobby_ai.Base.{
  ◌+◌, ◌<◌, ◌≡◌, refl, ap, ◌∙◌, subst, some, List, [], ◌∷◌, ◌++◌, append_assoc, arith, codes,
  length, length-append,
}
use dobby_ai.Agent.{Message, Agent, limit, agent_add_message}
use dobby_ai.Agent.Chat.{Env, LlmResponse, run_calls, assistant_message}
use dobby_ai.Agent.Calls.{Answers, none_left, next, run_calls-Answers, add_below, limit-messages}
use dobby_ai.Agent.Wire.{WireCall, WireMessage, wire_calls, wire_message, build_messages_json}
use dobby_ai.Agent.Wire.Exchange.{
  SentCalls, SentResults, no_more, result, wire_calls-SentCalls, build-append, wire-tool,
  wire-calls, wire-role,
}

module _ {J E : Type 0} (env : Env J E) where
  Answers-SentResults :
      (calls : List J) (rs : List (Message J))
      → Answers env calls rs
      → SentResults env.ops env.fmt calls (build_messages_json env.ops env.fmt rs)
  unfolding build_messages_json
  Answers-SentResults _ _ none_left = no_more
  Answers-SentResults _ _ (next tc calls m ms role id rest) =
      let (tool, same) = wire-tool env.ops env.fmt m role in
      result tc calls _ _ tool (same ∙ id) (Answers-SentResults calls ms rest)

  abbrev build : List (Message J) → List (WireMessage J)
  build ms = build_messages_json env.ops env.fmt ms

  -- the request, from the history that the round has left
  request :
      (before after rs : List (Message J)) (m : Message J)
      → after ≡ (before ++ (m ∷ [])) ++ rs
      → build after ≡ build before ++ (wire_message env.ops env.fmt m ∷ build rs)
  unfolding build_messages_json
  request before after rs m e =
      ap build (e ∙ append_assoc before (m ∷ []) rs) ∙ build-append env.ops env.fmt before (m ∷ rs)

  -- When the model's answer with tool calls and the results fit the limit, and the calls have run
  -- without a fault, then the next request holds, in this order: all that the request before the
  -- answer would hold, the answer with its calls, and one tool message for each call, under the
  -- call's id. The calls stand in the answer in order, with their ids, names and arguments, those without
  -- a function left out; the arguments are an object or a text as the provider's flag says: a stored
  -- text is parsed for the one and kept for the other, a stored node is copied or printed, and
  -- where there is nothing to send it is an empty object.
  pub run_calls-sent :
      (ag ag' : Agent J) (resp : LlmResponse J) (calls : List J)
      → length ag.messages + length calls < limit ag
      → run_calls env (agent_add_message ag (assistant_message env resp (some calls))) calls
        ≡ some ag'
      → (w : WireMessage J) × (cs : List (WireCall J)) × (ws : List (WireMessage J))
        × (build_messages_json env.ops env.fmt ag'.messages
            ≡ build_messages_json env.ops env.fmt ag.messages ++ (w ∷ ws))
        × (w.role ≡ codes "assistant")
        × (w.tool_calls ≡ some cs)
        × SentCalls env.ops env.fmt calls cs
        × SentResults env.ops env.fmt calls ws
  run_calls-sent ag ag' resp calls room h =
      let m = assistant_message env resp (some calls) in
      let ms : List (Message J) = ag.messages ++ (m ∷ []) in
      let added : agent_add_message ag m ≡ record ag { messages = ms } =
        add_below ag m (omega (arith, room)) in
      let (rs, e, answers) =
        run_calls-Answers env (record ag { messages = ms }) ag' calls
          (omega (arith, room, length-append ag.messages (m ∷ []), limit-messages ag ms))
          (subst (λ a. run_calls env a calls ≡ some ag') added h) in
      (
        wire_message env.ops env.fmt m,
        wire_calls env.ops env.fmt calls,
        build rs,
        request ag.messages ag'.messages rs m e,
        wire-role env.ops env.fmt m,
        wire-calls env.ops env.fmt m calls refl,
        wire_calls-SentCalls env.ops env.fmt calls,
        Answers-SentResults calls rs answers,
      )
