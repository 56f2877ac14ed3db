-- ===== src/Bus.antt =====
-- bus/bus.c: the two bounded queues between the channels and the agent, and the response pair of a
-- synchronous caller. Each function is one step under its lock; a call that has to wait answers
-- `waits` and is made again after another thread's step.
pub mod Queue
pub mod Fifo
use dobby_ai.Base.{
  zero, suc, ℕ, ◌+◌, ◌-◌, ◌%◌, Bool, true, false, not, ◌&&◌, Option, none, some, List, [], ◌∷◌,
  Bytes, codes, leb, ◌==◌, if◌then◌else◌, get_or, set, replicate, drop,
}
use dobby_ai.Text.{split_sub}

abbrev pub bus_queue_depth : ℕ
bus_queue_depth = 64

-- `inbound_msg_t` and `outbound_msg_t`
pub record InboundMsg : Type 0 where
  pub channel : Bytes
  pub sender_id : Bytes
  pub chat_id : Bytes
  pub content : Bytes
  pub metadata : Option Bytes

pub record OutboundMsg : Type 0 where
  pub channel : Bytes
  pub chat_id : Bytes
  pub content : Bytes
  pub metadata : Option Bytes

abbrev pub or_empty : Option Bytes → Bytes
or_empty none = []
or_empty (some s) = s

-- A null text is replaced by the empty text; allocation does not fail.
unfoldable pub inbound_msg_new :
    Option Bytes → Option Bytes → Option Bytes → Option Bytes → Option Bytes → InboundMsg
inbound_msg_new channel sender_id chat_id content metadata = record {
  channel = or_empty channel;
  sender_id = or_empty sender_id;
  chat_id = or_empty chat_id;
  content = or_empty content;
  metadata = metadata;
}

unfoldable pub outbound_msg_new :
    Option Bytes → Option Bytes → Option Bytes → Option Bytes → OutboundMsg
outbound_msg_new channel chat_id content metadata = record {
  channel = or_empty channel;
  chat_id = or_empty chat_id;
  content = or_empty content;
  metadata = metadata;
}

-- `bq_t`: a ring of 64 places; an empty place is `none`.
pub record Bq (A : Type 0) : Type 0 where
  pub items : List (Option A)
  pub head : ℕ
  pub tail : ℕ
  pub count : ℕ

-- what a push answers; a rejected item is freed
pub data Push (A : Type 0) : Type 0 where
  push_waits : Push A
  rejected : Push A
  pushed : Bq A → Push A

-- what a pop answers; `drained` is the null pointer
pub data Pop (A : Type 0) : Type 0 where
  pop_waits : Pop A
  drained : Pop A
  popped : Option A → Bq A → Pop A

module _ {A : Type 0} where
  unfoldable pub bq_init : Bq A
  bq_init = record { items = replicate bus_queue_depth none; head = 0; tail = 0; count = 0 }

  unfoldable pub q_push : Bq A → A → Bool → Push A
  q_push q item shut_down =
      if leb bus_queue_depth q.count && not shut_down
      then push_waits
      else if shut_down
      then rejected
      else pushed (record q {
        items = set q.items q.tail (some item);
        tail = (q.tail + 1) % bus_queue_depth;
        count = q.count + 1;
      })

  unfoldable pub q_pop : Bq A → Bool → Pop A
  q_pop q shut_down =
      if q.count == 0 && not shut_down
      then pop_waits
      else if q.count == 0
      then drained
      else popped (get_or q.items q.head none)
          (record q { head = (q.head + 1) % bus_queue_depth; count = q.count - 1 })

  unfoldable pub q_size : Bq A → ℕ
  q_size q = q.count

-- `struct bus`
pub record Bus : Type 0 where
  pub inbound : Bq InboundMsg
  pub outbound : Bq OutboundMsg
  pub shut_down : Bool

unfoldable pub bus_create : Bus
unfolding bq_init
bus_create = record { inbound = bq_init; outbound = bq_init; shut_down = false }

-- the waiting threads are woken, and make their calls again
unfoldable pub bus_shutdown : Bus → Bus
bus_shutdown b = record b { shut_down = true }

unfoldable pub bus_publish_inbound : Bus → InboundMsg → Push InboundMsg
bus_publish_inbound b m = q_push b.inbound m b.shut_down

unfoldable pub bus_consume_inbound : Bus → Pop InboundMsg
bus_consume_inbound b = q_pop b.inbound b.shut_down

unfoldable pub bus_publish_outbound : Bus → OutboundMsg → Push OutboundMsg
bus_publish_outbound b m = q_push b.outbound m b.shut_down

unfoldable pub bus_consume_outbound : Bus → Pop OutboundMsg
bus_consume_outbound b = q_pop b.outbound b.shut_down

unfoldable pub bus_inbound_size : Bus → ℕ
bus_inbound_size b = q_size b.inbound

unfoldable pub bus_outbound_size : Bus → ℕ
bus_outbound_size b = q_size b.outbound

-- `response_pair_t`
pub record ResponsePair : Type 0 where
  pub response : Option Bytes
  pub is_done : Bool

pub data Wait : Type 0 where
  still_waits : Wait
  returns : Option Bytes → ResponsePair → Wait

unfoldable pub response_pair_init : ResponsePair
response_pair_init = record { response = none; is_done = false }

unfoldable pub response_pair_deliver : ResponsePair → Option Bytes → ResponsePair
response_pair_deliver rp resp = record { response = resp; is_done = true }

unfoldable pub response_pair_wait : ResponsePair → Wait
response_pair_wait rp =
    if rp.is_done then returns rp.response (record rp { response = none }) else still_waits

-- The address behind the tag; 0 is the null pointer. `scan_hex` stands for sscanf with the format of a
-- hexadecimal number.
abbrev pub as_pointer : Option ℕ → Option ℕ
as_pointer none = none
as_pointer (some zero) = none
as_pointer (some (suc n)) = some (suc n)

unfoldable pub response_pair_from_meta : (Bytes → Option ℕ) → Option Bytes → Option ℕ
response_pair_from_meta scan_hex none = none
response_pair_from_meta scan_hex (some metadata) = elim (split_sub (codes "rp=") metadata) [
  | none ↦ none
  | some (before, tag) ↦ as_pointer (scan_hex (drop 3 tag))
]
