-- ===== src/Channel.antt =====
-- channels/channel.c: the table of channels and the dispatcher that hands outbound messages to them.
-- Sending itself is the channel's; the dispatcher answers what it does with each message.
use dobby_ai.Base.{
  ℕ, ◌≡◌, sym, ◌∙◌, inl, inr, Bool, true, false, ◌||◌, Option, none, some, List, [], ◌∷◌, ◌++◌,
  Bytes, codes, is_empty, str_eq, leb, if◌then◌else◌, length, Bool-cases,
}
use dobby_ai.Bus.{OutboundMsg}

abbrev pub channel_reg_max : ℕ
channel_reg_max = 16

-- `struct channel`, as far as the table and the dispatcher look at it
pub record Channel : Type 0 where
  pub name : Bytes
  pub has_send : Bool

unfoldable pub channel_find_in : List Channel → Bytes → Option Channel
channel_find_in [] name = none
channel_find_in (ch ∷ channels) name =
    let rest = channel_find_in channels name in if str_eq ch.name name then some ch else rest

unfoldable pub channel_find : List Channel → Option Bytes → Option Channel
channel_find channels none = none
channel_find channels (some name) = channel_find_in channels name

abbrev pub is_found : Option Channel → Bool
is_found none = false
is_found (some ch) = true

-- A null pointer, an empty name, a full table and a name that is there already change nothing.
unfoldable pub channel_register : List Channel → Option Channel → List Channel
channel_register channels none = channels
channel_register channels (some ch) =
    if is_empty ch.name
    then channels
    else if leb channel_reg_max (length channels)
    then channels
    else if is_found (channel_find_in channels ch.name)
    then channels
    else channels ++ (ch ∷ [])

unfoldable pub channel_count : List Channel → ℕ
channel_count channels = length channels

-- what the dispatcher does with a message
pub data Dispatch : Type 0 where
  sent : Channel → OutboundMsg → Dispatch
  dropped_background : Dispatch
  unknown_channel : Dispatch

unfoldable pub unsent : OutboundMsg → Dispatch
unsent msg =
    if str_eq msg.channel (codes "heartbeat") || str_eq msg.channel (codes "scheduler")
    then dropped_background
    else unknown_channel

unfoldable pub dispatch : List Channel → OutboundMsg → Dispatch
dispatch channels msg = elim (channel_find channels (some msg.channel)) [
  | none ↦ unsent msg
  | some ch ↦ if ch.has_send then sent ch msg else unsent msg
]

-- the messages in the order of the outbound queue
unfoldable pub dispatcher_fn : List Channel → List OutboundMsg → List Dispatch
dispatcher_fn channels [] = []
dispatcher_fn channels (msg ∷ msgs) = dispatch channels msg ∷ dispatcher_fn channels msgs

find_in-append :
    (channels more : List Channel) (name : Bytes) (ch : Channel)
    → channel_find_in channels name ≡ some ch
    → channel_find_in (channels ++ more) name ≡ some ch
unfolding channel_find_in
find_in-append [] more name ch e = cc
find_in-append (c ∷ channels) more name ch e = elim (Bool-cases (str_eq c.name name)) [
  | inl h ↦ rw h (sym (rw h) ∙ e)
  | inr h ↦ rw h (find_in-append channels more name ch (sym (rw h) ∙ e))
]

-- A channel that is found under a name is still found under it after any registration.
pub channel_find-register :
    (channels : List Channel) (name : Bytes) (ch : Channel) (new : Option Channel)
    → channel_find channels (some name) ≡ some ch
    → channel_find (channel_register channels new) (some name) ≡ some ch
unfolding channel_find channel_register
channel_find-register channels name ch none e = e
channel_find-register channels name ch (some new) e = elim (Bool-cases (is_empty new.name)) [
  | inl p ↦ rw p e
  | inr p ↦ elim (Bool-cases (leb channel_reg_max (length channels))) [
    | inl q ↦ rw (p, q) e
    | inr q ↦ elim (Bool-cases (is_found (channel_find_in channels new.name))) [
      | inl r ↦ rw (p, q, r) e
      | inr r ↦ rw (p, q, r) (find_in-append channels (new ∷ []) name ch e)
    ]
  ]
]
