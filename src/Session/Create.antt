-- ===== src/Session/Create.antt =====
-- session_get_or_create as a whole: the search, the eviction of a full table, and the second search.
use dobby_ai.Base.{ℕ, ◌<◌, ◌≡◌, true, Option, none, some, arith, Bytes, get_or}
use dobby_ai.Session.{
  SessionManager, session_max, blank, find_slot, evict_locked, open_slot, session_key,
  session_get_or_create,
}
use dobby_ai.Session.Probe.{Found, full, find_slot-Found}
use dobby_ai.Session.Open.{Opened, open_slot-Opened}

module _ {A : Type 0} where
  -- What session_get_or_create does: it opens a slot of the table, or of the table after an
  -- eviction if every slot is in use by another key; or it gives up when the eviction frees none.
  pub data Created (sm : SessionManager A) (key : Bytes) (made : Option A) (now : ℕ)
      : Option ℕ × SessionManager A → Type 0 where
    direct :
        (r : Option ℕ × SessionManager A) → Opened sm key made now r → Created sm key made now r
    evicting :
        (r : Option ℕ × SessionManager A)
        → ((j : ℕ) → j < session_max → (get_or sm.slots j blank).in_use ≡ true)
        → Opened (evict_locked sm now).1 key made now r
        → Created sm key made now r
    refused :
        ((j : ℕ) → j < session_max → (get_or (evict_locked sm now).1.slots j blank).in_use ≡ true)
        → Created sm key made now (none, (evict_locked sm now).1)

  module _ (sm : SessionManager A) (key : Bytes) (made : Option A) (now : ℕ) where
    retry : Option ℕ → Option ℕ × SessionManager A
    retry none = (none, (evict_locked sm now).1)
    retry (some idx) = open_slot (evict_locked sm now).1 idx key made now

    retry-Created :
        (o : Option ℕ)
        → ((j : ℕ) → j < session_max → (get_or sm.slots j blank).in_use ≡ true)
        → Found (evict_locked sm now).1.slots key o
        → Created sm key made now (retry o)
    unfolding retry
    retry-Created none used (full a b) = refused a
    retry-Created (some idx) used fd =
        evicting _ used (open_slot-Opened (evict_locked sm now).1 key made now idx fd)

    attempt : Option ℕ → Option ℕ × SessionManager A
    attempt none = retry (find_slot (evict_locked sm now).1 key)
    attempt (some idx) = open_slot sm idx key made now

    attempt-Created : (o : Option ℕ) → Found sm.slots key o → Created sm key made now (attempt o)
    unfolding attempt
    attempt-Created none (full used _) =
        retry-Created _ used (find_slot-Found (evict_locked sm now).1 key)
    attempt-Created (some idx) fd = direct _ (open_slot-Opened sm key made now idx fd)

  get_or_create-attempt :
      (sm : SessionManager A) (channel chat_id : Bytes) (made : Option A) (now : ℕ)
      → session_get_or_create sm channel chat_id made now
        ≡ attempt sm
            (session_key channel chat_id)
            made
            now
            (find_slot sm (session_key channel chat_id))
  unfolding session_get_or_create attempt retry
  get_or_create-attempt sm channel chat_id made now = ground arith

  pub get_or_create-Created :
      (sm : SessionManager A) (channel chat_id : Bytes) (made : Option A) (now : ℕ)
      → Created sm
          (session_key channel chat_id)
          made
          now
          (session_get_or_create sm channel chat_id made now)
  get_or_create-Created sm channel chat_id made now = rw get_or_create-attempt (
      attempt-Created sm (session_key channel chat_id) made now _
        (find_slot-Found sm (session_key channel chat_id)))
