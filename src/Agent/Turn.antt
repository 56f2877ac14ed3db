-- ===== src/Agent/Turn.antt =====
-- A whole turn of agent_chat keeps the array bound and the first message.
use dobby_ai.Base.{
  ℕ, zero, suc, ◌≤◌, ◌<◌, ◌≡◌, refl, subst, inl, inr, false, Option, none, some, List, [], ◌∷◌,
  arith, Bytes, length, Bool-cases, is_empty, get_elem?, take,
}
use dobby_ai.Agent.{Message, Agent, max_messages_cap, roll_back}
use dobby_ai.Agent.Bounds.{add-fits, roll_back-fits, add-first, roll_back-eq-take}
use dobby_ai.Agent.Chat.{Env, chat_turn, agent_chat, ensure_system}
use dobby_ai.Agent.Induct.{Leaves, chat_loop_inv}

module _ {J E : Type 0} (env : Env J E) where
  Leaves-elim :
      (P : Agent J → Type 0) (o : Option (Option Bytes × Agent J)) (r : Option Bytes) (ag : Agent J)
      → Leaves env P o
      → o ≡ some (r, ag)
      → P ag
  Leaves-elim P none r ag p e = cc
  Leaves-elim P (some (q, a)) r ag p e = let same : a ≡ ag = ground arith in subst P same p

  chat-Leaves :
      (P : Agent J → Type 0) (ag : Agent J) (user : Option Bytes)
      → P ag
      → ((u : Bytes) → Leaves env P (chat_turn env ag u))
      → Leaves env P (agent_chat env ag user)
  unfolding agent_chat
  chat-Leaves P ag none p k = p
  chat-Leaves P ag (some u) p k = elim (Bool-cases (is_empty u)) [
    | inl e ↦ rw e p
    | inr e ↦ rw e (k u)
  ]

  abbrev Fits : Agent J → Type 0
  Fits ag = length ag.messages ≤ max_messages_cap

  ensure_system-Fits : (ag : Agent J) → Fits ag → Fits (ensure_system env ag)
  unfolding ensure_system
  ensure_system-Fits ag h = elim (Bool-cases (is_empty ag.messages)) [
    | inl e ↦ rw e (add-fits ag _ h)
    | inr e ↦ rw e h
  ]

  -- The message array never overflows: a turn that starts with at most 128 messages ends with at
  -- most 128, whatever the provider and the tools answer, and however it ends.
  pub agent_chat-fits :
      (ag ag' : Agent J) (user reply : Option Bytes)
      → length ag.messages ≤ max_messages_cap
      → agent_chat env ag user ≡ some (reply, ag')
      → length ag'.messages ≤ max_messages_cap
  agent_chat-fits ag ag' user reply h = Leaves-elim Fits (agent_chat env ag user) reply ag' (
      chat-Leaves Fits ag user h λ u.
        unfold chat_turn in
        chat_loop_inv env Fits add-fits _ (roll_back-fits _) _ 0 _
          (add-fits _ _ (ensure_system-Fits ag h)))

  abbrev Begins : Message J → Agent J → Type 0
  Begins sys ag = get_elem? ag.messages 0 ≡ some sys

  take-first :
      (n : ℕ) (ms : List (Message J)) (sys : Message J)
      → 0 < n
      → get_elem? ms 0 ≡ some sys
      → get_elem? (take n ms) 0 ≡ some sys
  take-first zero ms sys p h = absurd (omega arith)
  take-first (suc n) [] sys p h = cc
  take-first (suc n) (m ∷ ms) sys p h = h

  roll_back-first :
      (pre : ℕ) (sys : Message J)
      → 0 < pre
      → (ag : Agent J) → Begins sys ag
      → Begins sys (roll_back pre ag)
  roll_back-first pre sys p ag h = rw roll_back-eq-take (take-first pre ag.messages sys p h)

  nonempty_of_first :
      (ms : List (Message J)) (sys : Message J) → get_elem? ms 0 ≡ some sys → 0 < length ms
  nonempty_of_first [] sys h = cc
  nonempty_of_first (m ∷ ms) sys h = omega arith

  turn-first :
      (ag : Agent J) (sys : Message J) (u : Bytes)
      → Begins sys (ensure_system env ag)
      → Leaves env (Begins sys) (chat_turn env ag u)
  unfolding chat_turn
  turn-first ag sys u h =
      chat_loop_inv env (Begins sys) (λ a m. add-first a m sys) _
        (roll_back-first _ sys (nonempty_of_first _ sys h)) _ 0 _
        (add-first (ensure_system env ag) _ sys h)

  is_empty_of_first :
      (ms : List (Message J)) (sys : Message J) → get_elem? ms 0 ≡ some sys → is_empty ms ≡ false
  is_empty_of_first [] sys h = cc
  is_empty_of_first (m ∷ ms) sys h = refl

  -- The first message of a history, the system message, is still the first after every turn,
  -- compactions and rollbacks included.
  pub agent_chat-first :
      (ag ag' : Agent J) (sys : Message J) (user reply : Option Bytes)
      → get_elem? ag.messages 0 ≡ some sys
      → agent_chat env ag user ≡ some (reply, ag')
      → get_elem? ag'.messages 0 ≡ some sys
  agent_chat-first ag ag' sys user reply h =
      Leaves-elim (Begins sys) (agent_chat env ag user) reply ag' (
        chat-Leaves (Begins sys) ag user h λ u.
          turn-first ag sys u (unfold ensure_system in rw (is_empty_of_first ag.messages sys h) h))
