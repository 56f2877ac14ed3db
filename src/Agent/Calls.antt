-- ===== src/Agent/Calls.antt =====
-- Below the limit, the tool calls of an answer each get one result, in order.
use dobby_ai.Base.{
  suc, ◌+◌, ◌≤◌, ◌<◌, ◌≡◌, refl, sym, ap, subst, false, Option, none, some, List, [], ◌∷◌, ◌++◌,
  append-nil, append_assoc, arith, Bytes, codes, leb, length, length-append,
}
use dobby_ai.Json.{get_string_value}
use dobby_ai.Agent.{Message, Agent, limit, agent_add_message}
use dobby_ai.Agent.Chat.{Env, run_calls, tool_message}
use dobby_ai.Agent.Induct.{run_call-after, run_calls-cons, after_call, and_then}

module _ {J : Type 0} where
  abbrev pub with_messages : Agent J → List (Message J) → Agent J
  with_messages ag ms = record ag { messages = ms }

  pub limit-messages :
      (ag : Agent J) (ms : List (Message J)) → limit (record ag { messages = ms }) ≡ limit ag
  unfolding limit
  limit-messages ag ms = refl

  -- Below the limit a message is put behind the others and nothing else changes.
  pub add_below :
      (ag : Agent J) (m : Message J)
      → length ag.messages < limit ag
      → agent_add_message ag m ≡ record ag { messages = ag.messages ++ (m ∷ []) }
  unfolding agent_add_message
  add_below ag m h = let e : leb (limit ag) (length ag.messages) ≡ false = ground arith in rw e

module _ {J E : Type 0} (env : Env J E) where
  -- The results stand for the calls, in their order, each under the id of its call.
  pub data Answers : List J → List (Message J) → Type 0 where
    none_left : Answers [] []
    next :
        (tc : J) (calls : List J) (m : Message J) (ms : List (Message J))
        → m.role ≡ codes "tool"
        → m.tool_call_id ≡ get_string_value env.ops (env.ops.get_item (codes "id") tc)
        → Answers calls ms
        → Answers (tc ∷ calls) (m ∷ ms)

  -- What run_calls gives: a fault, or the results behind the history.
  pub data Ran (ag : Agent J) (calls : List J) : Option (Agent J) → Type 0 where
    faulted : Ran ag calls none
    ran :
        (rs : List (Message J))
        → Answers calls rs
        → Ran ag calls (some (with_messages ag (ag.messages ++ rs)))

  pub Answers-length :
      {calls : List J} {rs : List (Message J)} → Answers calls rs → length rs ≡ length calls
  Answers-length none_left = refl
  Answers-length (next _ _ _ _ _ _ a) = ap suc (Answers-length a)

  Ran-nil : (ag : Agent J) → Ran ag [] (some ag)
  Ran-nil ag =
      subst (λ ms. Ran ag [] (some (with_messages ag ms))) (append-nil ag.messages)
        (ran [] none_left)

  Ran-cons :
      (ag : Agent J) (tc : J) (calls : List J) (m : Message J) (o : Option (Agent J))
      → m.role ≡ codes "tool"
      → m.tool_call_id ≡ get_string_value env.ops (env.ops.get_item (codes "id") tc)
      → Ran (with_messages ag (ag.messages ++ (m ∷ []))) calls o
      → Ran ag (tc ∷ calls) o
  Ran-cons ag tc calls m none r i faulted = faulted
  Ran-cons ag tc calls m (some _) r i (ran rs a) =
      subst (λ ms. Ran ag (tc ∷ calls) (some (with_messages ag ms)))
        (sym (append_assoc ag.messages (m ∷ []) rs)) (ran (m ∷ rs) (next tc calls m rs r i a))

  Ran-step :
      (ag : Agent J) (tc : J) (calls : List J) (name : Option Bytes) (o : Option (Option Bytes))
      → length ag.messages < limit ag
      → ((m : Message J)
          → let ag' = with_messages ag (ag.messages ++ (m ∷ [])) in
            Ran ag' calls (run_calls env ag' calls))
      → Ran ag (tc ∷ calls) (
          and_then env
            (after_call env ag (get_string_value env.ops (env.ops.get_item (codes "id") tc)) name o)
            calls)
  Ran-step ag tc calls name none h rest = faulted
  Ran-step ag tc calls name (some r) h rest =
      let m = tool_message r (get_string_value env.ops (env.ops.get_item (codes "id") tc)) name in
      rw (add_below ag m h) (Ran-cons ag tc calls m _ refl refl (rest m))

  pub run_calls-Ran :
      (calls : List J) (ag : Agent J)
      → length ag.messages + length calls ≤ limit ag
      → Ran ag calls (run_calls env ag calls)
  run_calls-Ran [] ag h = unfold run_calls in Ran-nil ag
  run_calls-Ran (tc ∷ calls) ag h =
      rw (run_calls-cons env, run_call-after env)
        (Ran-step ag tc calls _ _ (omega arith) λ m.
          run_calls-Ran calls (with_messages ag (ag.messages ++ (m ∷ []))) (
            omega (
              arith,
              length-append ag.messages (m ∷ []),
              limit-messages ag (ag.messages ++ (m ∷ [])),
            )))

  Ran-elim :
      {ag : Agent J} {calls : List J} {o : Option (Agent J)} (ag' : Agent J)
      → Ran ag calls o
      → o ≡ some ag'
      → (rs : List (Message J)) × (ag'.messages ≡ ag.messages ++ rs) × Answers calls rs
  Ran-elim ag' faulted e = cc
  Ran-elim ag' (ran rs a) e = (rs, ground arith, a)

  -- While the limit is not reached, running the tool calls of an answer appends one message for
  -- each call, in the order of the calls, with the role of a tool and the id of its call; nothing
  -- that was in the history changes.
  pub run_calls-Answers :
      (ag ag' : Agent J) (calls : List J)
      → length ag.messages + length calls ≤ limit ag
      → run_calls env ag calls ≡ some ag'
      → (rs : List (Message J)) × (ag'.messages ≡ ag.messages ++ rs) × Answers calls rs
  run_calls-Answers ag ag' calls h = Ran-elim ag' (run_calls-Ran calls ag h)
