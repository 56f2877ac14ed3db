-- ===== src/Worker/Isolation.antt =====
-- The worker keeps the session table well formed, and a message of one conversation leaves the live
-- sessions of the others alone.
use dobby_ai.Base.{
  ℕ, ◌<◌, ◌≡◌, ◌≢◌, refl, sym, ap, ◌∙◌, subst, inl, inr, true, false, Option, none, some, arith,
  Bytes, get_or, Option-cases, get_or-set_ne, eq_of_str_eq,
}
use dobby_ai.Session.{
  Session, SessionManager, session_max, blank, session_key, session_get_or_create, session_release,
  is_stale,
}
use dobby_ai.Session.Evict.{IsValid}
use dobby_ai.Session.Isolation.{get_or_create-IsValid, get_or_create_keeps, get_or_create_again}
use dobby_ai.Session.Update.{write_slot, write_slot-IsValid, release-IsValid}
use dobby_ai.Agent.{Agent}
use dobby_ai.Agent.Chat.{Env, agent_chat, empty_message_error}
use dobby_ai.Worker.{Delivery, Job, deliver, chat_at, handle_message, unavailable}

-- The slot `idx` may have changed, but not its key.
data Wrote {A : Type 0} (sm : SessionManager A) (idx : ℕ) : SessionManager A → Type 0 where
  same : Wrote sm idx sm
  wrote :
      (s : Session A)
      → s.in_use ≡ (get_or sm.slots idx blank).in_use
      → s.key ≡ (get_or sm.slots idx blank).key
      → Wrote sm idx (write_slot sm idx s)

module _ {J E : Type 0} (env : Env J E) (scan_hex : Bytes → Option ℕ) where
  data Chatted (sm : SessionManager (Agent J)) (idx : ℕ)
      : Option (Option Bytes × SessionManager (Agent J)) → Type 0 where
    faulted : Chatted sm idx none
    answered :
        (reply : Option Bytes) (sm' : SessionManager (Agent J))
        → Wrote sm idx sm'
        → Chatted sm idx (some (reply, sm'))

  abbrev pub write_reply :
      SessionManager (Agent J)
      → ℕ
      → Option (Option Bytes × Agent J)
      → Option (Option Bytes × SessionManager (Agent J))
  write_reply sm idx none = none
  write_reply sm idx (some (reply, ag')) =
      some (reply, write_slot sm idx (record (get_or sm.slots idx blank) { agent = some ag' }))

  write_reply-Chatted :
      (sm : SessionManager (Agent J)) (idx : ℕ) (r : Option (Option Bytes × Agent J))
      → Chatted sm idx (write_reply sm idx r)
  write_reply-Chatted sm idx none = faulted
  write_reply-Chatted sm idx (some (reply, ag')) = answered reply _ (wrote _ refl refl)

  pub chat_at-none :
      (sm : SessionManager (Agent J)) (idx : ℕ) (content : Bytes)
      → (get_or sm.slots idx blank).agent ≡ none
      → chat_at env scan_hex sm idx content ≡ some (some empty_message_error, sm)
  unfolding chat_at
  chat_at-none sm idx content e = rw (e, chat_at)

  pub chat_at-some :
      (sm : SessionManager (Agent J)) (idx : ℕ) (content : Bytes) (ag : Agent J)
      → (get_or sm.slots idx blank).agent ≡ some ag
      → chat_at env scan_hex sm idx content ≡ write_reply sm idx (agent_chat env ag (some content))
  unfolding chat_at
  chat_at-some sm idx content ag e = rw (e, chat_at) (ground arith)

  chat_at-Chatted :
      (sm : SessionManager (Agent J)) (idx : ℕ) (content : Bytes)
      → Chatted sm idx (chat_at env scan_hex sm idx content)
  chat_at-Chatted sm idx content = elim (Option-cases (get_or sm.slots idx blank).agent) [
    | inl e ↦ rw (chat_at-none sm idx content e) (answered _ sm same)
    | inr (ag, e) ↦
        rw (chat_at-some sm idx content ag e)
          (write_reply-Chatted sm idx (agent_chat env ag (some content)))
  ]

  abbrev pub release_reply :
      Job J
      → ℕ
      → Option (Option Bytes × SessionManager (Agent J))
      → Option (Delivery × SessionManager (Agent J))
  release_reply job idx none = none
  release_reply job idx (some (reply, sm')) =
      some (deliver env scan_hex job.msg reply, session_release sm' idx job.released)

  abbrev pub opened : SessionManager (Agent J) → Job J → Option ℕ × SessionManager (Agent J)
  opened sm job = session_get_or_create sm job.msg.channel job.msg.chat_id job.made job.looked_up

  pub handle-none :
      (sm : SessionManager (Agent J)) (job : Job J)
      → (opened sm job).0 ≡ none
      → handle_message env scan_hex sm job
        ≡ some (deliver env scan_hex job.msg (some unavailable), (opened sm job).1)
  unfolding handle_message
  handle-none sm job e = rw (e, handle_message)

  pub handle-some :
      (sm : SessionManager (Agent J)) (job : Job J) (idx : ℕ)
      → (opened sm job).0 ≡ some idx
      → handle_message env scan_hex sm job
        ≡ release_reply job idx (chat_at env scan_hex (opened sm job).1 idx job.msg.content)
  unfolding handle_message
  handle-some sm job idx e = rw (e, handle_message) (ground arith)

  Wrote-IsValid :
      {sm sm' : SessionManager (Agent J)} {idx : ℕ}
      → IsValid sm
      → idx < session_max
      → Wrote sm idx sm'
      → IsValid sm'
  Wrote-IsValid v b same = v
  Wrote-IsValid {sm} {idx = idx} v b (wrote s u k) = write_slot-IsValid sm idx s v b u k

  Wrote-keeps :
      {sm sm' : SessionManager (Agent J)} {idx : ℕ} (j : ℕ)
      → j ≢ idx
      → Wrote sm idx sm'
      → get_or sm'.slots j blank ≡ get_or sm.slots j blank
  Wrote-keeps j ne same = refl
  Wrote-keeps {sm} {idx = idx} j ne (wrote s u k) =
      get_or-set_ne sm.slots idx j s blank (λ e. ne (sym e))

  release-keeps :
      (sm : SessionManager (Agent J)) (idx now j : ℕ)
      → j ≢ idx
      → get_or (session_release sm idx now).slots j blank ≡ get_or sm.slots j blank
  unfolding session_release
  release-keeps sm idx now j ne = get_or-set_ne sm.slots idx j _ blank (λ e. ne (sym e))

  -- what the worker leaves in the table
  abbrev Leaves :
      (SessionManager (Agent J) → Type 0) → Option (Delivery × SessionManager (Agent J)) → Type 0
  Leaves P none = Unit
  Leaves P (some (d, sm)) = P sm

  reply-IsValid :
      (job : Job J) (sm : SessionManager (Agent J)) (idx : ℕ)
      (r : Option (Option Bytes × SessionManager (Agent J)))
      → IsValid sm
      → idx < session_max
      → Chatted sm idx r
      → Leaves IsValid (release_reply job idx r)
  reply-IsValid job sm idx _ v b faulted = tt
  reply-IsValid job sm idx _ v b (answered reply sm' w) =
      release-IsValid sm' idx job.released (Wrote-IsValid v b w) b

  reply-keeps :
      (job : Job J) (sm : SessionManager (Agent J)) (idx j : ℕ)
      (r : Option (Option Bytes × SessionManager (Agent J)))
      → j ≢ idx
      → Chatted sm idx r
      → Leaves (λ a. get_or a.slots j blank ≡ get_or sm.slots j blank) (release_reply job idx r)
  reply-keeps job sm idx j _ ne faulted = tt
  reply-keeps job sm idx j _ ne (answered reply sm' w) =
      release-keeps sm' idx job.released j ne ∙ Wrote-keeps j ne w

  handle-IsValid :
      (sm : SessionManager (Agent J)) (job : Job J)
      → IsValid sm
      → Leaves IsValid (handle_message env scan_hex sm job)
  handle-IsValid sm job v =
      let ok = get_or_create-IsValid sm job.msg.channel job.msg.chat_id job.made job.looked_up v in
      elim (Option-cases (opened sm job).0) [
        | inl e ↦ rw (handle-none sm job e) ok
        | inr (idx, e) ↦
            let held =
              get_or_create_again sm job.msg.channel job.msg.chat_id job.made none job.looked_up 0
                idx v e in
            rw (handle-some sm job idx e) (
              reply-IsValid job (opened sm job).1 idx _ ok held.0.0
                (chat_at-Chatted (opened sm job).1 idx job.msg.content))
      ]

  other_slot :
      (sm : SessionManager (Agent J)) (job : Job J) (j idx : ℕ)
      → IsValid sm
      → (opened sm job).0 ≡ some idx
      → (get_or sm.slots j blank).key ≢ session_key job.msg.channel job.msg.chat_id
      → get_or (opened sm job).1.slots j blank ≡ get_or sm.slots j blank
      → j ≢ idx
  other_slot sm job j idx v e other kept at =
      let held =
        (get_or_create_again sm job.msg.channel job.msg.chat_id job.made none job.looked_up 0 idx v
          e).0.1 in
      let key : Bytes = session_key job.msg.channel job.msg.chat_id in
      let mine : (get_or (opened sm job).1.slots idx blank).key ≡ key =
        eq_of_str_eq _ key (ground arith) in
      other (
        ap (λ s. s.key) (sym kept)
        ∙ ap (λ i. (get_or (opened sm job).1.slots i blank).key) at
        ∙ mine)

  handle-keeps :
      (sm : SessionManager (Agent J)) (job : Job J) (j : ℕ)
      → IsValid sm
      → (get_or sm.slots j blank).in_use ≡ true
      → is_stale job.looked_up sm.ttl_seconds (get_or sm.slots j blank) ≡ false
      → (get_or sm.slots j blank).key ≢ session_key job.msg.channel job.msg.chat_id
      → Leaves
          (λ a. get_or a.slots j blank ≡ get_or sm.slots j blank)
          (handle_message env scan_hex sm job)
  handle-keeps sm job j v used live other =
      let kept =
        get_or_create_keeps sm job.msg.channel job.msg.chat_id job.made job.looked_up j v used
          live in
      elim (Option-cases (opened sm job).0) [
        | inl e ↦ rw (handle-none sm job e) kept
        | inr (idx, e) ↦ rw (handle-some sm job idx e) (
            subst (λ x. Leaves (λ a. get_or a.slots j blank ≡ x) (answer idx)) kept
              (reply-keeps job (opened sm job).1 idx j _ (other_slot sm job j idx v e other kept)
                (chat_at-Chatted (opened sm job).1 idx job.msg.content)))
      ]
    where
      answer : ℕ → Option (Delivery × SessionManager (Agent J))
      answer idx =
          release_reply job idx (chat_at env scan_hex (opened sm job).1 idx job.msg.content)

  Leaves-elim :
      (P : SessionManager (Agent J) → Type 0) (o : Option (Delivery × SessionManager (Agent J)))
      (d : Delivery) (sm : SessionManager (Agent J))
      → Leaves P o
      → o ≡ some (d, sm)
      → P sm
  Leaves-elim P none d sm p e = cc
  Leaves-elim P (some (q, a)) d sm p e = let eq : a ≡ sm = ground arith in subst P eq p

  -- The worker's handling of a message keeps the session table well formed, and a session in use
  -- that is not stale and has another key than the message's conversation keeps its slot, its
  -- agent with the whole history, and its time.
  pub handle_isolated :
      (sm sm' : SessionManager (Agent J)) (job : Job J) (d : Delivery) (j : ℕ)
      → IsValid sm
      → (get_or sm.slots j blank).in_use ≡ true
      → is_stale job.looked_up sm.ttl_seconds (get_or sm.slots j blank) ≡ false
      → (get_or sm.slots j blank).key ≢ session_key job.msg.channel job.msg.chat_id
      → handle_message env scan_hex sm job ≡ some (d, sm')
      → IsValid sm' × (get_or sm'.slots j blank ≡ get_or sm.slots j blank)
  handle_isolated sm sm' job d j v used live other e = (
    Leaves-elim IsValid (handle_message env scan_hex sm job) d sm' (handle-IsValid sm job v) e,
    Leaves-elim (λ a. get_or a.slots j blank ≡ get_or sm.slots j blank)
        (handle_message env scan_hex sm job) d sm' (handle-keeps sm job j v used live other) e,
  )
