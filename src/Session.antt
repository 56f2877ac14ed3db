-- ===== src/Session.antt =====
-- session/session.c, the per-channel session table: 64 slots with linear probing over a djb2 hash.
-- An agent is any value; the factory's answer and the clock are arguments, one reading of the clock
-- for a call. The pointer that a function returns is the index of its slot. The mutex makes each
-- function one step.
pub mod Probe
pub mod Evict
pub mod Open
pub mod Create
pub mod Isolation
pub mod Update
pub mod Keys
use Prim.Native.Nat.{bit_xor}
use dobby_ai.Base.{
  ℕ, zero, suc, ◌+◌, ◌-◌, ◌*◌, ◌%◌, ◌^◌, Bool, true, false, not, ◌&&◌, Option, none, some, List, [],
  ◌∷◌, ◌++◌, Bytes, ltb, leb, if◌then◌else◌, get_or, set, take, replicate, str_eq,
}

abbrev pub session_key_max : ℕ
session_key_max = 320

abbrev pub session_max : ℕ
session_max = 64

abbrev pub session_ttl_default : ℕ
session_ttl_default = 3600

-- `session_t`
pub record Session (A : Type 0) : Type 0 where
  pub key : Bytes
  pub agent : Option A
  pub last_active : ℕ
  pub in_use : Bool

-- `struct session_manager`, without the lock and the factory's pointer
pub record SessionManager (A : Type 0) : Type 0 where
  pub slots : List (Session A)
  pub ttl_seconds : ℕ
  pub count : ℕ

-- memset(s, 0, sizeof(*s))
abbrev pub blank : {A : Type 0} → Session A
blank = record { key = []; agent = none; last_active = 0; in_use = false }

-- unsigned int h: h * 33 ^ c over 32 bits
unfoldable pub djb2_from : ℕ → Bytes → ℕ
djb2_from h [] = h
djb2_from h (c ∷ s) = djb2_from (bit_xor (h * 33 % 2 ^ 32) c) s

unfoldable pub djb2 : Bytes → ℕ
unfolding djb2_from
djb2 s = djb2_from 5381 s

-- snprintf(key, sizeof(key), "%s:%s", channel, chat_id)
unfoldable pub session_key : Bytes → Bytes → Bytes
session_key channel chat_id = take (session_key_max - 1) (channel ++ (b':' ∷ chat_id))

abbrev pub is_none {ℓ} : {A : Type ℓ} → Option A → Bool
is_none none = true
is_none (some a) = false

module _ {A : Type 0} where
  unfoldable pub session_manager_create : ℕ → SessionManager A
  session_manager_create ttl = record {
    slots = replicate session_max blank;
    ttl_seconds = if ltb 0 ttl then ttl else session_ttl_default;
    count = 0;
  }

  -- every session in use is destroyed
  unfoldable pub session_manager_destroy : List (Session A) → List (Session A)
  session_manager_destroy [] = []
  session_manager_destroy (s ∷ rest) = record s { in_use = false } ∷ session_manager_destroy rest

  abbrev pub matches : Session A → Bytes → Bool
  matches s key = s.in_use && str_eq s.key key

  -- The probing loop with `n` rounds left, at round `i`.
  unfoldable pub find_from : List (Session A) → ℕ → Bytes → ℕ → ℕ → Option ℕ → Option ℕ
  find_from slots start key zero i first_empty = first_empty
  find_from slots start key (suc n) i first_empty =
      let idx = (start + i) % session_max in
      let s = get_or slots idx blank in
      let rest =
        find_from slots start key n (i + 1)
          (if not s.in_use && is_none first_empty then some idx else first_empty) in
      if matches s key then some idx else rest

  unfoldable pub find_slot : SessionManager A → Bytes → Option ℕ
  find_slot sm key = find_from sm.slots (djb2 key % session_max) key session_max 0 none

  -- difftime(now, last_active) >= ttl
  abbrev pub is_stale : ℕ → ℕ → Session A → Bool
  is_stale now ttl s = leb (s.last_active + ttl) now

  -- The loop over the slots: the new slots, the count of sessions, and how many were evicted.
  unfoldable pub evict_slots : ℕ → ℕ → List (Session A) → ℕ → ℕ → List (Session A) × ℕ × ℕ
  evict_slots now ttl [] count evicted = ([], count, evicted)
  evict_slots now ttl (s ∷ rest) count evicted =
      let gone = s.in_use && is_stale now ttl s in
      let (rest', c, e) =
        evict_slots now ttl rest (if gone then count - 1 else count)
          (if gone then evicted + 1 else evicted) in
      ((if gone then blank else s) ∷ rest', c, e)

  unfoldable pub evict_locked : SessionManager A → ℕ → ℕ × SessionManager A
  evict_locked sm now =
      let (slots, count, evicted) = evict_slots now sm.ttl_seconds sm.slots sm.count 0 in
      (evicted, record sm { slots = slots; count = count })

  -- The session at a slot that find_slot chose: the old one, or a new one if the factory gives
  -- an agent.
  unfoldable pub open_slot :
      SessionManager A → ℕ → Bytes → Option A → ℕ → Option ℕ × SessionManager A
  open_slot sm idx key made now =
      if (get_or sm.slots idx blank).in_use then (some idx, sm) else elim made [
        | none ↦ (none, sm)
        | some agent ↦ (
          some idx,
          record sm {
            slots = set sm.slots idx (record {
              key = take (session_key_max - 1) key;
              agent = some agent;
              last_active = now;
              in_use = true;
            });
            count = sm.count + 1;
          },
        )
      ]

  -- When the table is full, stale sessions are evicted and the search is made once more.
  unfoldable pub session_get_or_create :
      SessionManager A → Bytes → Bytes → Option A → ℕ → Option ℕ × SessionManager A
  session_get_or_create sm channel chat_id made now =
      let key = session_key channel chat_id in
      elim (find_slot sm key) [
        | some idx ↦ open_slot sm idx key made now
        | none ↦
            let sm' = (evict_locked sm now).1 in
            elim (find_slot sm' key) [
              | none ↦ (none, sm')
              | some idx ↦ open_slot sm' idx key made now
            ]
      ]

  unfoldable pub session_release : SessionManager A → ℕ → ℕ → SessionManager A
  session_release sm idx now = record sm {
    slots = set sm.slots idx (record (get_or sm.slots idx blank) { last_active = now });
  }

  unfoldable pub session_evict_stale : SessionManager A → ℕ → ℕ × SessionManager A
  session_evict_stale sm now = evict_locked sm now

  unfoldable pub session_count : SessionManager A → ℕ
  session_count sm = sm.count
