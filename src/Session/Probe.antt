-- ===== src/Session/Probe.antt =====
-- find_slot probes every slot: it returns the session of the key, or else a free slot, or else
-- nothing.
use dobby_ai.Base.{
  ℕ, zero, suc, ◌+◌, ◌-◌, ◌%◌, ◌<◌, ◌≡◌, subst, ◌⊎◌, inl, inr, true, false, not, ◌&&◌, Option, none,
  some, List, arith, Bytes, if◌then◌else◌, get_or, Bool-cases,
}
use dobby_ai.Session.{
  Session, SessionManager, session_max, blank, is_none, matches, djb2, find_from, find_slot,
}

module _ {A : Type 0} where
  -- What the search may answer.
  pub data Found (slots : List (Session A)) (key : Bytes) : Option ℕ → Type 0 where
    hit :
        (idx : ℕ)
        → idx < session_max
        → matches (get_or slots idx blank) key ≡ true
        → Found slots key (some idx)
    free :
        (idx : ℕ)
        → idx < session_max
        → (get_or slots idx blank).in_use ≡ false
        → ((j : ℕ) → j < session_max → matches (get_or slots j blank) key ≡ false)
        → Found slots key (some idx)
    full :
        ((j : ℕ) → j < session_max → (get_or slots j blank).in_use ≡ true)
        → ((j : ℕ) → j < session_max → matches (get_or slots j blank) key ≡ false)
        → Found slots key none

  module _ (slots : List (Session A)) (start : ℕ) (key : Bytes) where
    abbrev at : ℕ → Session A
    at k = get_or slots ((start + k) % session_max) blank

    -- what is known of the first free slot after the rounds below `i`
    data First (i : ℕ) : Option ℕ → Type 0 where
      unseen : ((k : ℕ) → k < i → (at k).in_use ≡ true) → First i none
      seen : (e : ℕ) → e < session_max → (get_or slots e blank).in_use ≡ false → First i (some e)

    First-next :
        (i : ℕ) (first : Option ℕ)
        → First i first
        → First
            (i + 1)
            (if not (at i).in_use && is_none first then some ((start + i) % session_max) else first)
    First-next i none (unseen h) = elim (Bool-cases (at i).in_use) [
      | inl used ↦ rw used (unseen (λ k lt. go k lt used))
      | inr empty ↦ rw empty (seen ((start + i) % session_max) (omega arith) empty)
    ]
      where
        go : (k : ℕ) → k < i + 1 → (at i).in_use ≡ true → (at k).in_use ≡ true
        go k lt used = elim (eq_or_lt k lt) [ inl e ↦ rw e used | inr l ↦ h k l ]
          where
            eq_or_lt : (k : ℕ) → k < i + 1 → (k ≡ i) ⊎ (k < i)
            eq_or_lt k lt = omega arith
    First-next i (some e) (seen _ b h) = elim (Bool-cases (at i).in_use) [
      | inl used ↦ rw used (seen e b h)
      | inr empty ↦ rw empty (seen e b h)
    ]

    abbrev Unmatched : ℕ → Type 0
    Unmatched i = (k : ℕ) → k < i → matches (at k) key ≡ false

    Unmatched-next : (i : ℕ) → Unmatched i → matches (at i) key ≡ false → Unmatched (i + 1)
    Unmatched-next i h m k lt = elim (eq_or_lt k lt) [ inl e ↦ rw e m | inr l ↦ h k l ]
      where
        eq_or_lt : (k : ℕ) → k < i + 1 → (k ≡ i) ⊎ (k < i)
        eq_or_lt k lt = omega arith

    -- The rounds visit every slot.
    at_all :
        (P : Session A → Type 0)
        → start < session_max
        → ((k : ℕ) → k < session_max → P (at k))
        → (j : ℕ) → j < session_max
        → P (get_or slots j blank)
    at_all P s h j lt =
        let k : ℕ = (j + session_max - start) % session_max in
        let e : (start + k) % session_max ≡ j = omega arith in
        subst (λ n. P (get_or slots n blank)) e (h k (omega arith))

    find_from-Found :
        (n i : ℕ) (first : Option ℕ)
        → start < session_max
        → i + n ≡ session_max
        → First i first
        → Unmatched i
        → Found slots key (find_from slots start key n i first)
    unfolding find_from
    find_from-Found zero i none s e (unseen h) u =
        full (at_all (λ x. x.in_use ≡ true) s (λ k lt. h k (omega arith)))
          (at_all (λ x. matches x key ≡ false) s (λ k lt. u k (omega arith)))
    find_from-Found zero i (some idx) s e (seen _ b h) u =
        free idx b h (at_all (λ x. matches x key ≡ false) s (λ k lt. u k (omega arith)))
    find_from-Found (suc n) i first s e f u = elim (Bool-cases (matches (at i) key)) [
      | inl m ↦ rw m (hit ((start + i) % session_max) (omega arith) m)
      | inr m ↦ rw m (
          find_from-Found n (i + 1) _ s (omega arith) (First-next i first f) (Unmatched-next i u m))
    ]

  -- The probing loop answers with the slot in use that holds the key; without one, with a free
  -- slot; and with nothing only if all 64 slots are in use by other keys.
  pub find_slot-Found :
      (sm : SessionManager A) (key : Bytes) → Found sm.slots key (find_slot sm key)
  unfolding find_slot
  find_slot-Found sm key =
      find_from-Found sm.slots (djb2 key % session_max) key session_max 0 none (omega arith)
        (omega arith) (unseen (λ k lt. absurd (omega arith))) (λ k lt. absurd (omega arith))
