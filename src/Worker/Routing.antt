-- ===== src/Worker/Routing.antt =====
-- Every message that the worker handles is answered once, to where it came from.
use dobby_ai.Base.{
  ℕ, ◌≡◌, refl, subst, inl, inr, Option, none, some, List, [], ◌∷◌, arith, Bytes, get_or,
  Option-cases,
}
use dobby_ai.Worker.Caller.{Names, from_meta-Names, Names-from_meta}
use dobby_ai.Session.{SessionManager, blank, session_release}
use dobby_ai.Session.Update.{write_slot}
use dobby_ai.Agent.{Agent}
use dobby_ai.Agent.Chat.{Env, agent_chat, empty_message_error}
use dobby_ai.Bus.{InboundMsg, outbound_msg_new, response_pair_from_meta, or_empty}
use dobby_ai.Worker.{
  Delivery, reply_to, publish, Job, deliver, handle_message, worker_loop, unavailable,
}
use dobby_ai.Worker.Isolation.{
  opened, release_reply, write_reply, handle-none, handle-some, chat_at-none, chat_at-some,
}

-- the text of a reply, which is empty where there is none
pub data Says : Option Bytes → Bytes → Type 0 where
  a_text : (text : Bytes) → Says (some text) text
  no_text : Says none []

-- To the waiting caller that the metadata names; to the channel and the chat that the message
-- came from, if it names none.
pub data Routed (scan_hex : Bytes → Option ℕ) (msg : InboundMsg) (response : Option Bytes)
    : Delivery → Type 0 where
  to_caller :
      (rp : ℕ)
      → Names scan_hex msg.metadata rp
      → Routed scan_hex msg response (reply_to rp response)
  to_queue :
      (content : Bytes)
      → ((rp : ℕ) → Names scan_hex msg.metadata rp → ⊥)
      → Says response content
      → Routed scan_hex msg response (
          publish (record {
            channel = msg.channel;
            chat_id = msg.chat_id;
            content = content;
            metadata = msg.metadata;
          }))

module _ {J E : Type 0} (env : Env J E) (scan_hex : Bytes → Option ℕ) where
  -- How a message is answered: with an error if the table has no session for it; else by a turn of
  -- the session's agent, which stays in the slot, and the slot gets the time of the release.
  pub data Answered (sm : SessionManager (Agent J)) (job : Job J)
      : Option Bytes → SessionManager (Agent J) → Type 0 where
    turned_away :
        (opened env scan_hex sm job).0 ≡ none
        → Answered sm job (some unavailable) (opened env scan_hex sm job).1
    no_agent :
        (idx : ℕ)
        → (opened env scan_hex sm job).0 ≡ some idx
        → (get_or (opened env scan_hex sm job).1.slots idx blank).agent ≡ none
        → Answered sm job
            (some empty_message_error)
            (session_release (opened env scan_hex sm job).1 idx job.released)
    chatted :
        (idx : ℕ) (ag ag' : Agent J) (reply : Option Bytes)
        → (opened env scan_hex sm job).0 ≡ some idx
        → (get_or (opened env scan_hex sm job).1.slots idx blank).agent ≡ some ag
        → agent_chat env ag (some job.msg.content) ≡ some (reply, ag')
        → Answered sm job reply (
            session_release
              (write_slot
                (opened env scan_hex sm job).1
                idx
                (record (get_or (opened env scan_hex sm job).1.slots idx blank) {
                  agent = some ag';
                }))
              idx
              job.released)

  abbrev pub Handled :
      SessionManager (Agent J) → Job J → Delivery → SessionManager (Agent J) → Type 0
  Handled sm job d sm' =
      (reply : Option Bytes) × Answered sm job reply sm' × Routed scan_hex job.msg reply d

  -- one delivery for each message, in order, each from the table that the one before has left
  pub data AllRouted
      : SessionManager (Agent J)
        → List (Job J)
        → List Delivery
        → SessionManager (Agent J)
        → Type 0 where
    no_more : (sm : SessionManager (Agent J)) → AllRouted sm [] [] sm
    also :
        (sm sm' sm'' : SessionManager (Agent J)) (job : Job J) (jobs : List (Job J)) (d : Delivery)
        (ds : List Delivery)
        → Handled sm job d sm'
        → AllRouted sm' jobs ds sm''
        → AllRouted sm (job ∷ jobs) (d ∷ ds) sm''

  queued :
      (msg : InboundMsg) (response : Option Bytes)
      → ((rp : ℕ) → Names scan_hex msg.metadata rp → ⊥)
      → Routed scan_hex msg response (
          publish (
            outbound_msg_new
              (some msg.channel)
              (some msg.chat_id)
              (some (or_empty response))
              msg.metadata))
  unfolding outbound_msg_new
  queued msg none unnamed = to_queue [] unnamed no_text
  queued msg (some text) unnamed = to_queue text unnamed (a_text text)

  deliver-Routed :
      (msg : InboundMsg) (response : Option Bytes)
      → Routed scan_hex msg response (deliver env scan_hex msg response)
  unfolding deliver
  deliver-Routed msg response =
      elim (Option-cases (response_pair_from_meta scan_hex msg.metadata)) [
        | inl e ↦
            rw (e, deliver)
              (queued msg response
                (λ rp named. absurd (cc (e, Names-from_meta scan_hex msg.metadata rp named))))
        | inr (rp, e) ↦ rw (e, deliver) (to_caller rp (from_meta-Names scan_hex msg.metadata rp e))
      ]

  abbrev GoesBack :
      SessionManager (Agent J) → Job J → Option (Delivery × SessionManager (Agent J)) → Type 0
  GoesBack sm job none = Unit
  GoesBack sm job (some (d, sm')) = Handled sm job d sm'

  release-GoesBack :
      (sm : SessionManager (Agent J)) (job : Job J) (idx : ℕ) (ag : Agent J)
      (r : Option (Option Bytes × Agent J))
      → (opened env scan_hex sm job).0 ≡ some idx
      → (get_or (opened env scan_hex sm job).1.slots idx blank).agent ≡ some ag
      → agent_chat env ag (some job.msg.content) ≡ r
      → GoesBack sm job (
          release_reply env scan_hex job idx
            (write_reply env scan_hex (opened env scan_hex sm job).1 idx r))
  release-GoesBack sm job idx ag none o a c = tt
  release-GoesBack sm job idx ag (some (reply, ag')) o a c =
      (reply, chatted idx ag ag' reply o a c, deliver-Routed job.msg reply)

  handle-GoesBack :
      (sm : SessionManager (Agent J)) (job : Job J)
      → GoesBack sm job (handle_message env scan_hex sm job)
  handle-GoesBack sm job = elim (Option-cases (opened env scan_hex sm job).0) [
    | inl e ↦
        rw (handle-none env scan_hex sm job e)
          (some unavailable, turned_away e, deliver-Routed job.msg (some unavailable))
    | inr (idx, e) ↦
        rw (handle-some env scan_hex sm job idx e)
          (elim (Option-cases (get_or (opened env scan_hex sm job).1.slots idx blank).agent) [
            | inl a ↦ rw (chat_at-none env scan_hex (opened env scan_hex sm job).1 idx _ a) (
              some empty_message_error,
              no_agent idx e a,
              deliver-Routed job.msg (some empty_message_error),
            )
            | inr (ag, a) ↦
                rw (chat_at-some env scan_hex (opened env scan_hex sm job).1 idx _ ag a)
                  (release-GoesBack sm job idx ag _ e a refl)
          ])
  ]

  -- the answers of the rest behind the first
  abbrev put_before :
      Delivery
      → Option (List Delivery × SessionManager (Agent J))
      → Option (List Delivery × SessionManager (Agent J))
  put_before d none = none
  put_before d (some (ds, sm)) = some (d ∷ ds, sm)

  abbrev LoopRouted :
      SessionManager (Agent J)
      → List (Job J)
      → Option (List Delivery × SessionManager (Agent J))
      → Type 0
  LoopRouted sm jobs none = Unit
  LoopRouted sm jobs (some (ds, sm')) = AllRouted sm jobs ds sm'

  put_before-LoopRouted :
      (sm sm' : SessionManager (Agent J)) (job : Job J) (jobs : List (Job J)) (d : Delivery)
      (o : Option (List Delivery × SessionManager (Agent J)))
      → Handled sm job d sm'
      → LoopRouted sm' jobs o
      → LoopRouted sm (job ∷ jobs) (put_before d o)
  put_before-LoopRouted sm sm' job jobs d none r h = tt
  put_before-LoopRouted sm sm' job jobs d (some (ds, sm'')) r h = also sm sm' sm'' job jobs d ds r h

  loop-LoopRouted :
      (sm : SessionManager (Agent J)) (jobs : List (Job J))
      → LoopRouted sm jobs (worker_loop env scan_hex sm jobs)
  unfolding worker_loop
  loop-LoopRouted sm [] = no_more sm
  loop-LoopRouted sm (job ∷ jobs) = elim (Option-cases (handle_message env scan_hex sm job)) [
    | inl e ↦ rw (stops e) tt
    | inr ((d, sm'), e) ↦ rw (goes_on d sm' e) (
        put_before-LoopRouted sm sm' job jobs d (worker_loop env scan_hex sm' jobs)
          (subst (GoesBack sm job) e (handle-GoesBack sm job)) (loop-LoopRouted sm' jobs))
  ]
    where
      stops :
          handle_message env scan_hex sm job ≡ none
          → worker_loop env scan_hex sm (job ∷ jobs) ≡ none
      stops e = rw (e, worker_loop)

      goes_on :
          (d : Delivery) (sm' : SessionManager (Agent J))
          → handle_message env scan_hex sm job ≡ some (d, sm')
          → worker_loop env scan_hex sm (job ∷ jobs)
            ≡ put_before d (worker_loop env scan_hex sm' jobs)
      goes_on d sm' e = rw (e, worker_loop) (ground arith)

  -- When the worker has gone through a run of messages without a fault, there is one delivery for
  -- each message, in the order of the messages. It carries the reply of the message's turn: that of
  -- the agent of the session that was looked up in the table as the message before has left it, or an
  -- error if there is no session or no agent. If the metadata has the tag rp= with an address that
  -- is not null behind its first place, the delivery is the reply to the caller that waits there;
  -- if not, it goes to the outbound queue, for the channel and the chat that the message came from,
  -- with its metadata, and empty if the reply is null.
  pub worker_loop-AllRouted :
      (sm sm' : SessionManager (Agent J)) (jobs : List (Job J)) (ds : List Delivery)
      → worker_loop env scan_hex sm jobs ≡ some (ds, sm')
      → AllRouted sm jobs ds sm'
  worker_loop-AllRouted sm sm' jobs ds e = subst (LoopRouted sm jobs) e (loop-LoopRouted sm jobs)
