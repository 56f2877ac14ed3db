-- ===== src/Worker.antt =====
-- bus/agent_worker.c: what the worker thread does with one message from the inbound queue, and with
-- a run of them. The clock and the factory's answers come with each message.
pub mod Caller
pub mod Isolation
pub mod Routing
use dobby_ai.Base.{
  ℕ, Bool, true, false, Option, none, some, List, [], ◌∷◌, Bytes, codes, get_or, if◌then◌else◌,
}
use dobby_ai.Session.{Session, SessionManager, blank, session_get_or_create, session_release}
use dobby_ai.Session.Update.{write_slot}
use dobby_ai.Agent.{Agent}
use dobby_ai.Agent.Chat.{Env, agent_chat, empty_message_error}
use dobby_ai.Bus.{InboundMsg, OutboundMsg, outbound_msg_new, response_pair_from_meta, or_empty}

-- A response goes to the caller that waits at an address, or to the outbound queue.
pub data Delivery : Type 0 where
  reply_to : ℕ → Option Bytes → Delivery
  publish : OutboundMsg → Delivery

-- A message with what the outside answers while it is handled.
pub record Job (J : Type 0) : Type 0 where
  pub msg : InboundMsg
  pub made : Option (Agent J)
  pub looked_up : ℕ
  pub released : ℕ

abbrev pub unavailable : Bytes
unavailable = codes "Error: agent unavailable (session table full)."

module _ {J E : Type 0} (env : Env J E) (scan_hex : Bytes → Option ℕ) where
  unfoldable pub deliver : InboundMsg → Option Bytes → Delivery
  deliver msg response = elim (response_pair_from_meta scan_hex msg.metadata) [
    | some rp ↦ reply_to rp response
    | none ↦ publish (
        outbound_msg_new (some msg.channel) (some msg.chat_id) (some (or_empty response))
          msg.metadata)
  ]

  -- agent_chat on the agent of a slot, which the call changes in place; a null agent is answered
  -- with the error of agent_chat.
  unfoldable pub chat_at :
      SessionManager (Agent J) → ℕ → Bytes → Option (Option Bytes × SessionManager (Agent J))
  chat_at sm idx content =
      let s = get_or sm.slots idx blank in
      elim s.agent [
        | none ↦ some (some empty_message_error, sm)
        | some ag ↦ elim (agent_chat env ag (some content)) [
          | none ↦ none
          | some (reply, ag') ↦ some (reply, write_slot sm idx (record s { agent = some ag' }))
        ]
      ]

  -- One round of worker_loop; `none` is a fault in agent_chat.
  unfoldable pub handle_message :
      SessionManager (Agent J) → Job J → Option (Delivery × SessionManager (Agent J))
  handle_message sm job =
      let msg = job.msg in
      let (slot, sm') = session_get_or_create sm msg.channel msg.chat_id job.made job.looked_up in
      elim slot [
        | none ↦ some (deliver msg (some unavailable), sm')
        | some idx ↦ elim (chat_at sm' idx msg.content) [
          | none ↦ none
          | some (reply, sm'') ↦ some (deliver msg reply, session_release sm'' idx job.released)
        ]
      ]

  -- The messages that the queue hands out while the worker runs, in their order.
  unfoldable pub worker_loop :
      SessionManager (Agent J) → List (Job J) → Option (List Delivery × SessionManager (Agent J))
  worker_loop sm [] = some ([], sm)
  worker_loop sm (job ∷ jobs) = elim (handle_message sm job) [
    | none ↦ none
    | some (d, sm') ↦ elim (worker_loop sm' jobs) [
      | none ↦ none
      | some (ds, sm'') ↦ some (d ∷ ds, sm'')
    ]
  ]
