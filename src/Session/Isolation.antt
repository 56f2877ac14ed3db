-- ===== src/Session/Isolation.antt =====
-- What callers of the session table rely on: the table stays well formed, the returned session has
-- the asked key, the same key finds the same session again, and live sessions are left alone.
use dobby_ai.Base.{
  ℕ, ◌+◌, ◌-◌, ◌<◌, ◌≡◌, refl, sym, ap, ◌∙◌, subst, inl, inr, true, false, Option, none, some,
  arith, Bytes, get_or, set, take, str_eq_iff, get_or-set_self,
}
use dobby_ai.Session.{
  Session, SessionManager, session_max, session_key_max, blank, matches, is_stale, find_slot,
  session_key, session_get_or_create, open_slot,
}
use dobby_ai.Session.Probe.{Found, hit, free, full, find_slot-Found}
use dobby_ai.Session.Evict.{IsValid, evict-IsValid, evict_live}
use dobby_ai.Session.Open.{
  Opened, old, failed, new, fresh, add-IsValid, get_or-set, session_key-Fits, Fits, matches-in_use,
}
use dobby_ai.Session.Create.{Created, direct, evicting, refused, get_or_create-Created}

module _ {A : Type 0} where
  Opened-IsValid :
      {sm : SessionManager A} {key : Bytes} {made : Option A} {now : ℕ}
      {r : Option ℕ × SessionManager A}
      → Fits key
      → IsValid sm
      → Opened sm key made now r
      → IsValid r.1
  Opened-IsValid f v (old idx b m) = v
  Opened-IsValid f v (failed e) = v
  Opened-IsValid {sm} {key} {now = now} f v (new idx a b e empty other) =
      add-IsValid sm idx key a now v f b empty other

  Created-IsValid :
      (sm : SessionManager A) {key : Bytes} {made : Option A} (now : ℕ)
      {r : Option ℕ × SessionManager A}
      → Fits key
      → IsValid sm
      → Created sm key made now r
      → IsValid r.1
  Created-IsValid sm now f v (direct _ o) = Opened-IsValid f v o
  Created-IsValid sm now f v (evicting _ _ o) = Opened-IsValid f (evict-IsValid sm now v) o
  Created-IsValid sm now f v (refused _) = evict-IsValid sm now v

  -- session_get_or_create keeps the table well formed: 64 slots, a count that is the number of
  -- sessions in use, and no two sessions with one key; whatever the factory and the clock do.
  pub get_or_create-IsValid :
      (sm : SessionManager A) (channel chat_id : Bytes) (made : Option A) (now : ℕ)
      → IsValid sm
      → IsValid (session_get_or_create sm channel chat_id made now).1
  get_or_create-IsValid sm channel chat_id made now v =
      Created-IsValid sm now (session_key-Fits channel chat_id) v
        (get_or_create-Created sm channel chat_id made now)

  -- The slot is in range, in use, and holds the key.
  abbrev pub Holds : SessionManager A → Bytes → ℕ → Type 0
  Holds sm key idx = (idx < session_max) × (matches (get_or sm.slots idx blank) key ≡ true)

  matches-fresh : (key : Bytes) (a : A) (now : ℕ) → Fits key → matches (fresh key a now) key ≡ true
  matches-fresh key a now f = (str_eq_iff (take (session_key_max - 1) key) key).1 f

  new-Holds :
      (sm : SessionManager A) (key : Bytes) (a : A) (now idx : ℕ)
      → Fits key
      → IsValid sm
      → idx < session_max
      → Holds
          (record sm { slots = set sm.slots idx (fresh key a now); count = sm.count + 1 })
          key
          idx
  new-Holds sm key a now idx f v b = (
    b,
    rw (get_or-set_self sm.slots idx (fresh key a now) blank (omega (arith, v.sized)))
        (matches-fresh key a now f),
  )

  Opened-Holds :
      {sm : SessionManager A} {key : Bytes} {made : Option A} {now : ℕ}
      {r : Option ℕ × SessionManager A} (idx : ℕ)
      → Fits key
      → IsValid sm
      → Opened sm key made now r
      → r.0 ≡ some idx
      → Holds r.1 key idx
  Opened-Holds {sm} {key} idx f v (old i b m) e =
      let same : i ≡ idx = ground arith in subst (Holds sm key) same (b, m)
  Opened-Holds idx f v (failed h) e = cc
  Opened-Holds {sm} {key} {now = now} idx f v (new i a b h empty other) e =
      let same : i ≡ idx = ground arith in
      subst
        (Holds (record sm { slots = set sm.slots i (fresh key a now); count = sm.count + 1 }) key)
        same (new-Holds sm key a now i f v b)

  Created-Holds :
      (sm : SessionManager A) {key : Bytes} {made : Option A} (now : ℕ)
      {r : Option ℕ × SessionManager A} (idx : ℕ)
      → Fits key
      → IsValid sm
      → Created sm key made now r
      → r.0 ≡ some idx
      → Holds r.1 key idx
  Created-Holds sm now idx f v (direct _ o) e = Opened-Holds idx f v o e
  Created-Holds sm now idx f v (evicting _ _ o) e = Opened-Holds idx f (evict-IsValid sm now v) o e
  Created-Holds sm now idx f v (refused _) e = cc

  find_slot_unique :
      (sm : SessionManager A) (key : Bytes) (idx : ℕ) (o : Option ℕ)
      → IsValid sm
      → Holds sm key idx
      → Found sm.slots key o
      → o ≡ some idx
  find_slot_unique sm key idx o v h (hit i b m) = ap some (
      v.unique i idx (matches-in_use (get_or sm.slots i blank) key m)
        (matches-in_use (get_or sm.slots idx blank) key h.1)
        (same_key (get_or sm.slots i blank) m ∙ sym (same_key (get_or sm.slots idx blank) h.1)))
    where
      same_key : (s : Session A) → matches s key ≡ true → s.key ≡ key
      same_key s m = (str_eq_iff s.key key).0 (ground arith)
  find_slot_unique sm key idx o v h (free i b e other) = cc (other idx h.0, h.1)
  find_slot_unique sm key idx o v h (full used other) = cc (other idx h.0, h.1)

  -- A session that exists is returned as it is, and the table is not changed: nothing is evicted
  -- and no agent is made.
  get_or_create_held :
      (sm : SessionManager A) (channel chat_id : Bytes) (made : Option A) (now idx : ℕ)
      → IsValid sm
      → Holds sm (session_key channel chat_id) idx
      → session_get_or_create sm channel chat_id made now ≡ (some idx, sm)
  get_or_create_held sm channel chat_id made now idx v h =
      let key : Bytes = session_key channel chat_id in
      let found : find_slot sm key ≡ some idx =
        find_slot_unique sm key idx _ v h (find_slot-Found sm key) in
      let used : (get_or sm.slots idx blank).in_use ≡ true =
        matches-in_use (get_or sm.slots idx blank) key h.1 in
      unfold session_get_or_create open_slot in rw (found, session_get_or_create) (rw used)

  pub get_or_create_again :
      (sm : SessionManager A) (channel chat_id : Bytes) (made made' : Option A) (now now' idx : ℕ)
      → IsValid sm
      → (session_get_or_create sm channel chat_id made now).0 ≡ some idx
      → let sm' = (session_get_or_create sm channel chat_id made now).1 in
        Holds sm' (session_key channel chat_id) idx
        × (session_get_or_create sm' channel chat_id made' now' ≡ (some idx, sm'))
  get_or_create_again sm channel chat_id made made' now now' idx v e =
      let held =
        Created-Holds sm now idx (session_key-Fits channel chat_id) v
          (get_or_create-Created sm channel chat_id made now) e in
      (
        held,
        get_or_create_held _ channel chat_id made' now' idx
            (get_or_create-IsValid sm channel chat_id made now v) held,
      )

  Opened-keeps :
      {sm : SessionManager A} {key : Bytes} {made : Option A} {now : ℕ}
      {r : Option ℕ × SessionManager A} (j : ℕ)
      → IsValid sm
      → Opened sm key made now r
      → (get_or sm.slots j blank).in_use ≡ true
      → get_or r.1.slots j blank ≡ get_or sm.slots j blank
  Opened-keeps j v (old i b m) u = refl
  Opened-keeps j v (failed h) u = refl
  Opened-keeps {sm} {key} {now = now} j v (new i a b h empty other) u =
      elim (get_or-set sm.slots i j (fresh key a now) (omega (arith, v.sized))) [
        | inl (e, _) ↦ absurd (taken e)
        | inr (_, e) ↦ e
      ]
    where
      taken : j ≡ i → ⊥
      taken e = cc (e, empty, u)

  Created-keeps :
      (sm : SessionManager A) {key : Bytes} {made : Option A} (now : ℕ)
      {r : Option ℕ × SessionManager A} (j : ℕ)
      → IsValid sm
      → Created sm key made now r
      → (get_or sm.slots j blank).in_use ≡ true
      → is_stale now sm.ttl_seconds (get_or sm.slots j blank) ≡ false
      → get_or r.1.slots j blank ≡ get_or sm.slots j blank
  Created-keeps sm now j v (direct _ o) u live = Opened-keeps j v o u
  Created-keeps sm now j v (evicting _ _ o) u live =
      let same = evict_live sm now j live in
      Opened-keeps j (evict-IsValid sm now v) o (ap (λ s. s.in_use) same ∙ u) ∙ same
  Created-keeps sm now j v (refused _) u live = evict_live sm now j live

  -- Whatever session_get_or_create does for one key, evictions included, a session in use that has
  -- not idled for the limit keeps its slot, its key, its agent and its time.
  pub get_or_create_keeps :
      (sm : SessionManager A) (channel chat_id : Bytes) (made : Option A) (now j : ℕ)
      → IsValid sm
      → (get_or sm.slots j blank).in_use ≡ true
      → is_stale now sm.ttl_seconds (get_or sm.slots j blank) ≡ false
      → get_or (session_get_or_create sm channel chat_id made now).1.slots j blank
        ≡ get_or sm.slots j blank
  get_or_create_keeps sm channel chat_id made now j v u live =
      Created-keeps sm now j v (get_or_create-Created sm channel chat_id made now) u live

  refusal :
      (sm : SessionManager A) {key : Bytes} (a : A) (now : ℕ) {r : Option ℕ × SessionManager A}
      → Created sm key (some a) now r
      → r.0 ≡ none
      → (j : ℕ) → j < session_max
      → (get_or r.1.slots j blank).in_use ≡ true
  refusal sm a now (direct _ (old i b m)) e = cc
  refusal sm a now (direct _ (failed h)) e = cc
  refusal sm a now (direct _ (new i x b h empty other)) e = cc
  refusal sm a now (evicting _ _ (old i b m)) e = cc
  refusal sm a now (evicting _ _ (failed h)) e = cc
  refusal sm a now (evicting _ _ (new i x b h empty other)) e = cc
  refusal sm a now (refused used) e = used

  -- While the factory gives agents, a session is refused only when all 64 slots are still in use
  -- after the eviction.
  pub get_or_create_refused :
      (sm : SessionManager A) (channel chat_id : Bytes) (a : A) (now : ℕ)
      → (session_get_or_create sm channel chat_id (some a) now).0 ≡ none
      → (j : ℕ) → j < session_max
      → (get_or (session_get_or_create sm channel chat_id (some a) now).1.slots j blank).in_use
        ≡ true
  get_or_create_refused sm channel chat_id a now e =
      refusal sm a now (get_or_create-Created sm channel chat_id (some a) now) e
