-- ===== src/Agent/Total.antt =====
-- agent_chat returns, with a reply that is not null.
use dobby_ai.Base.{
  ℕ, zero, suc, ◌+◌, ◌≡◌, ◌≢◌, refl, ◌⊎◌, inl, inr, Bool, true, false, Option, none, some, List, [],
  ◌∷◌, arith, Bytes, All, Bool-cases, is_empty, codes,
}
use dobby_ai.Json.{get_object_item, get_string_value}
use dobby_ai.ToolRegistry.{Tool, Lookup, fault, missing, found, tool_find}
use dobby_ai.ToolRegistry.Laws.{IsComplete, find-ne-fault}
use dobby_ai.Agent.{Agent, nonempty_calls}
use dobby_ai.Agent.Think.{strip_think_tags}
use dobby_ai.Agent.Think.Laws.{strip_think_tags-Stripped}
use dobby_ai.Agent.Chat.{
  Env, LlmResponse, run_call, run_calls, chat_loop, chat_turn, agent_chat, call_result, call_list,
  final_answer, ensure_system, empty_message_error, unknown_tool, parse_tool_arguments,
}
use dobby_ai.Agent.Induct.{
  after_call, run_call-after, and_then, run_calls-cons, then_loop, answered, response,
  chat_loop-suc,
}

module _ {ℓ} {A : Type ℓ} where
  abbrev pub Returns : Option A → Type 0
  Returns none = ⊥
  Returns (some a) = Unit

module _ {J : Type 0} where
  -- there is an end, and the reply is not null
  abbrev pub Replies : Option (Option Bytes × Agent J) → Type 0
  Replies none = ⊥
  Replies (some (none, ag)) = ⊥
  Replies (some (some reply, ag)) = Unit

  replied :
      (o : Option (Option Bytes × Agent J))
      → Replies o
      → (reply : Bytes) × (ag : Agent J) × (o ≡ some (some reply, ag))
  replied none ok = elim ok [ ]
  replied (some (none, ag)) ok = elim ok [ ]
  replied (some (some reply, ag)) ok = (reply, ag, refl)

module _ {J E : Type 0} (env : Env J E) where
  abbrev pub call_name : J → Option Bytes
  call_name tc =
      get_string_value env.ops
        (get_object_item env.ops (env.ops.get_item (codes "function") tc) (codes "name"))

  -- the call has a function with a name
  abbrev pub IsNamed : J → Type 0
  IsNamed tc = (name : Bytes) × (call_name tc ≡ some name)

  -- Every call is named, and there is an error, a call or a text.
  abbrev pub IsUsable : LlmResponse J → Type 0
  IsUsable resp =
      All IsNamed (call_list resp.tool_calls)
      × (((e : Bytes) × (resp.error ≡ some e))
          ⊎ ((nonempty_calls resp.tool_calls ≡ true)
              ⊎ ((text : Bytes) × (resp.content ≡ some text))))

  after_call-Returns :
      (ag : Agent J) (call_id tool_name : Option Bytes) (r : Option (Option Bytes))
      → Returns r
      → Returns (after_call env ag call_id tool_name r)
  after_call-Returns ag call_id tool_name none ok = elim ok [ ]
  after_call-Returns ag call_id tool_name (some r) ok = tt

  lookup_result : ℕ → Option J → Lookup (Tool E) → Option (Option Bytes)
  lookup_result n func fault = none
  lookup_result n func missing = some (some unknown_tool)
  lookup_result n func (found tool) = some (env.run_tool n tool (parse_tool_arguments env func))

  lookup_result-Returns :
      (n : ℕ) (func : Option J) (r : Lookup (Tool E)) → r ≢ fault → Returns (lookup_result n func r)
  unfolding lookup_result
  lookup_result-Returns n func fault ne = ne refl
  lookup_result-Returns n func missing ne = tt
  lookup_result-Returns n func (found tool) ne = tt

  call_result-lookup :
      (n : ℕ) (name : Option Bytes) (func : Option J)
      → call_result env n name func ≡ lookup_result n func (tool_find env.tools name)
  unfolding call_result lookup_result
  call_result-lookup n name func = ground arith

  module _ (complete : All IsComplete env.tools) where
    run_call-Returns : (ag : Agent J) (tc : J) → IsNamed tc → Returns (run_call env ag tc)
    run_call-Returns ag tc (name, e) = rw (run_call-after env) (
        after_call-Returns ag _ _ _ (
          rw (call_result-lookup, e)
            (lookup_result-Returns _ _ _ (find-ne-fault env.tools name complete))))

    and_then-Returns :
        (o : Option (Agent J)) (calls : List J)
        → Returns o
        → ((ag : Agent J) → Returns (run_calls env ag calls))
        → Returns (and_then env o calls)
    and_then-Returns none calls ok k = elim ok [ ]
    and_then-Returns (some ag) calls ok k = k ag

    run_calls-Returns :
        (calls : List J) (ag : Agent J) → All IsNamed calls → Returns (run_calls env ag calls)
    run_calls-Returns [] ag ok = unfold run_calls in tt
    run_calls-Returns (tc ∷ calls) ag (n, ok) = rw (run_calls-cons env) (
        and_then-Returns (run_call env ag tc) calls (run_call-Returns ag tc n)
          (λ ag'. run_calls-Returns calls ag' ok))

    then_loop-Replies :
        (n iter pre : ℕ) (o : Option (Agent J))
        → Returns o
        → ((ag : Agent J) → Replies (chat_loop env n (iter + 1) pre ag))
        → Replies (then_loop env n iter pre o)
    then_loop-Replies n iter pre none ok k = elim ok [ ]
    then_loop-Replies n iter pre (some ag) ok k = k ag

    strip-Returns : (text : Bytes) → Returns (strip_think_tags (some text))
    strip-Returns text = let (visible, e, s) = strip_think_tags-Stripped text in rw e tt

    final-Replies :
        (ag : Agent J) (resp : LlmResponse J) (clean : Option Bytes)
        → Returns clean
        → Replies (final_answer env ag resp clean)
    final-Replies ag resp none ok = elim ok [ ]
    final-Replies ag resp (some s) ok = tt

    answered-Replies :
        (n iter pre : ℕ) (ag : Agent J) (resp : LlmResponse J) (e : Option Bytes) (b : Bool)
        → resp.error ≡ e
        → nonempty_calls resp.tool_calls ≡ b
        → IsUsable resp
        → ((ag : Agent J) → Replies (chat_loop env n (iter + 1) pre ag))
        → Replies (answered env n iter pre ag resp e b)
    answered-Replies n iter pre ag resp (some e) b p q u k = tt
    answered-Replies n iter pre ag resp none true p q (named, u) k =
        then_loop-Replies n iter pre _ (run_calls-Returns (call_list resp.tool_calls) _ named) k
    answered-Replies n iter pre ag resp none false p q (named, u) k = elim u [
      | inl (e, bad) ↦ cc (p, bad)
      | inr (inl some_calls) ↦ cc (q, some_calls)
      | inr (inr (text, c)) ↦ final-Replies ag resp _ (rw c (strip-Returns text))
    ]

    module _ (usable : (i : ℕ) (a : Agent J) → IsUsable (response env i a)) where
      chat_loop-Replies : (n iter pre : ℕ) (ag : Agent J) → Replies (chat_loop env n iter pre ag)
      chat_loop-Replies zero iter pre ag = unfold chat_loop in tt
      chat_loop-Replies (suc n) iter pre ag = rw (chat_loop-suc env) (
          answered-Replies n iter pre ag (response env iter ag) _ _ refl refl (usable iter ag)
            (chat_loop-Replies n (iter + 1) pre))

  -- If every registered tool is complete, and every answer of the provider is an error, a text or a
  -- list of calls, with a name for every call, then agent_chat ends without a fault, and its reply is
  -- not null, for every history and every message.
  pub agent_chat-returns :
      (ag : Agent J) (user : Option Bytes)
      → All IsComplete env.tools
      → ((i : ℕ) (a : Agent J) → IsUsable (response env i a))
      → (reply : Bytes) × (ag' : Agent J) × (agent_chat env ag user ≡ some (some reply, ag'))
  unfolding agent_chat chat_turn
  agent_chat-returns ag none complete usable = (_, _, refl)
  agent_chat-returns ag (some user) complete usable = elim (Bool-cases (is_empty user)) [
    | inl e ↦ (empty_message_error, ag, rw e refl)
    | inr e ↦
        rw e (
          replied _ (chat_loop-Replies complete usable (ensure_system env ag).max_iterations 0 _ _))
  ]
