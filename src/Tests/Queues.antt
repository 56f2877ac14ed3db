-- ===== src/Tests/Queues.antt =====
-- The queues and the worker at concrete runs.
use dobby_ai.Base.{
  ℕ, zero, suc, ◌+◌, ◌-◌, ◌*◌, ◌&&◌, leb, if◌then◌else◌, ◌<◌, ◌≤◌, ◌≡◌, ◌≢◌, refl, ap, Bool, true,
  false, Option, none, some, List, [], ◌∷◌, ◌++◌, arith, Bytes, codes, length, get_or,
}
use dobby_ai.Agent.{Agent, agent_create}
use dobby_ai.Agent.Chat.{Env}
use dobby_ai.Session.{SessionManager, blank, session_manager_create, session_get_or_create}
use dobby_ai.Session.Evict.{create-IsValid}
use dobby_ai.Session.Isolation.{get_or_create-IsValid}
use dobby_ai.Bus.{Bq, bq_init, q_push, q_pop, bus_queue_depth, InboundMsg}
use dobby_ai.Bus.Queue.{contents}
use dobby_ai.Bus.Fifo.{Op, push, pop, shutdown, start, run, bus_fifo}
use dobby_ai.Worker.{Delivery, Job, handle_message, worker_loop}
use dobby_ai.Worker.Isolation.{handle_isolated}
use dobby_ai.Worker.Routing.{AllRouted, worker_loop-AllRouted}

abbrev numbers : Bq ℕ
numbers = bq_init

abbrev schedule : List (Op ℕ)
schedule = push 5 ∷ pop ∷ push 6 ∷ shutdown ∷ pop ∷ pop ∷ []

bus_fifo_example :
    let t = run start schedule in
    (t.accepted ≡ t.consumed ++ contents t.queue) × (t.queue.count ≤ bus_queue_depth)
bus_fifo_example = bus_fifo schedule

-- a JSON library for texts only, and a provider that greets
abbrev env : Env Bytes ℕ
env = record {
  ops = record {
    get_item = λ k j. none;
    get_string = λ j. some j;
    value_int = λ j. 0;
    is_true = λ j. false;
    items = λ j. [];
    parse = λ s. some s;
    print = λ j. some j;
    empty_object = [];
  };
  fmt = record {
    tool_result_include_name = true;
    assistant_tool_call_empty_content = false;
    tool_args_as_object = true;
  };
  chat_complete = λ i ms. record { content = some (codes "hi"); tool_calls = none; error = none };
  tools = [];
  run_tool = λ n t j. none;
  is_strdup_nonnull = false;
}

-- Lower-case digits are enough here.
abbrev hex_digit : ℕ → Option ℕ
hex_digit c =
    if leb 48 c && leb c 57
    then some (c - 48)
    else if leb 97 c && leb c 102
    then some (c - 87)
    else none

abbrev read_hex : ℕ → Bytes → ℕ
read_hex acc [] = acc
read_hex acc (c ∷ s) = elim (hex_digit c) [ none ↦ acc | some d ↦ read_hex (acc * 16 + d) s ]

abbrev scan_hex : Bytes → Option ℕ
scan_hex [] = none
scan_hex (c ∷ s) = elim (hex_digit c) [ none ↦ none | some d ↦ some (read_hex d s) ]

abbrev message : Bytes → Option Bytes → InboundMsg
message channel metadata = record {
  channel = channel;
  sender_id = codes "u";
  chat_id = codes "1";
  content = codes "hello";
  metadata = metadata;
}

abbrev job : Bytes → Option Bytes → Job Bytes
job channel metadata = record {
  msg = message channel metadata;
  made = some agent_create;
  looked_up = 100;
  released = 101;
}

abbrev opened : Option ℕ × SessionManager (Agent Bytes)
opened =
    session_get_or_create (session_manager_create 3600) (codes "cli") (codes "1")
      (some agent_create) 90

abbrev or_zero : Option ℕ → ℕ
or_zero none = 0
or_zero (some n) = n

abbrev place : ℕ
place = or_zero opened.0

abbrev table_after : Option (Delivery × SessionManager (Agent Bytes)) → SessionManager (Agent Bytes)
table_after none = opened.1
table_after (some (d, sm)) = sm

abbrev delivery_of : Option (Delivery × SessionManager (Agent Bytes)) → Delivery
delivery_of none = Delivery.reply_to 0 none
delivery_of (some (d, sm)) = d

abbrev handled : Option (Delivery × SessionManager (Agent Bytes))
handled = handle_message env scan_hex opened.1 (job (codes "web") none)

abbrev is_some {ℓ} : {A : Type ℓ} → Option A → Bool
is_some none = false
is_some (some a) = true

some_of_handled :
    (o : Option (Delivery × SessionManager (Agent Bytes)))
    → is_some o ≡ true
    → o ≡ some (delivery_of o, table_after o)
some_of_handled none e = cc
some_of_handled (some (d, sm)) e = refl

abbrev first : Bytes → ℕ
first [] = 0
first (c ∷ s) = c

cli_ne_web : codes "cli:1" ≢ codes "web:1"
cli_ne_web e = let same : 99 ≡ 119 = ap first e in absurd (omega (arith, same))

handle_isolated_example :
    dobby_ai.Session.Evict.IsValid (table_after handled)
    × (get_or (table_after handled).slots place blank ≡ get_or opened.1.slots place blank)
unfolding handle_message session_get_or_create dobby_ai.Session.find_slot dobby_ai.Session.find_from
    session_manager_create dobby_ai.Session.djb2 dobby_ai.Session.session_key
    dobby_ai.Session.open_slot dobby_ai.Session.session_release dobby_ai.Base.str_eq
    dobby_ai.Worker.chat_at dobby_ai.Worker.deliver dobby_ai.Agent.Chat.agent_chat
    dobby_ai.Agent.Chat.chat_turn dobby_ai.Agent.Chat.chat_loop dobby_ai.Agent.Chat.ensure_system
    agent_create dobby_ai.Agent.agent_add_message dobby_ai.Agent.Chat.run_calls
    dobby_ai.Agent.Think.strip_loop dobby_ai.Agent.Think.strip_think_tags
    dobby_ai.Agent.build_system_prompt dobby_ai.Agent.limit dobby_ai.Text.split_sub
    dobby_ai.Text.str_trim dobby_ai.Bus.response_pair_from_meta dobby_ai.Bus.outbound_msg_new
handle_isolated_example =
    handle_isolated env scan_hex opened.1 (table_after handled) (job (codes "web") none)
      (delivery_of handled) place
      (get_or_create-IsValid (session_manager_create 3600) (codes "cli") (codes "1")
        (some agent_create) 90 (create-IsValid 3600))
      refl refl cli_ne_web (some_of_handled handled refl)

abbrev jobs : List (Job Bytes)
jobs =
    job (codes "web") none
    ∷ job (codes "cli") (some (codes "rp=7f"))
    ∷ job (codes "cli") (some (codes "rp=0"))
    ∷ []

abbrev looped : Option (List Delivery × SessionManager (Agent Bytes))
looped = worker_loop env scan_hex opened.1 jobs

abbrev deliveries : Option (List Delivery × SessionManager (Agent Bytes)) → List Delivery
deliveries none = []
deliveries (some (ds, sm)) = ds

abbrev table_left :
    Option (List Delivery × SessionManager (Agent Bytes)) → SessionManager (Agent Bytes)
table_left none = opened.1
table_left (some (ds, sm)) = sm

some_of_looped :
    (o : Option (List Delivery × SessionManager (Agent Bytes)))
    → is_some o ≡ true
    → o ≡ some (deliveries o, table_left o)
some_of_looped none e = cc
some_of_looped (some (ds, sm)) e = refl

worker_loop-AllRouted_example :
    AllRouted env scan_hex opened.1 jobs (deliveries looped) (table_left looped)
unfolding worker_loop handle_message session_get_or_create dobby_ai.Session.find_slot
    dobby_ai.Session.find_from session_manager_create dobby_ai.Session.djb2
    dobby_ai.Session.session_key dobby_ai.Session.open_slot dobby_ai.Session.session_release
    dobby_ai.Base.str_eq dobby_ai.Worker.chat_at dobby_ai.Worker.deliver
    dobby_ai.Agent.Chat.agent_chat dobby_ai.Agent.Chat.chat_turn dobby_ai.Agent.Chat.chat_loop
    dobby_ai.Agent.Chat.ensure_system agent_create dobby_ai.Agent.agent_add_message
    dobby_ai.Agent.Chat.run_calls dobby_ai.Agent.Think.strip_loop
    dobby_ai.Agent.Think.strip_think_tags dobby_ai.Agent.build_system_prompt dobby_ai.Agent.limit
    dobby_ai.Text.split_sub dobby_ai.Text.str_trim dobby_ai.Bus.response_pair_from_meta
    dobby_ai.Bus.outbound_msg_new
worker_loop-AllRouted_example =
    worker_loop-AllRouted env scan_hex opened.1 (table_left looped) jobs (deliveries looped)
      (some_of_looped looped refl)
