-- ===== src/Session/Open.antt =====
-- session_get_or_create: what it returns, what it keeps, and the invariant.
use dobby_ai.Base.{
  ℕ, zero, suc, ◌+◌, ◌-◌, ◌<◌, ◌≡◌, ◌≢◌, refl, sym, ap, ◌∙◌, subst, ◌⊎◌, inl, inr, true, false,
  Option, none, some, List, [], ◌∷◌, arith, Bytes, length, get_or, set, take, count_if, length-set,
  get_or-set_self, get_or-set_ne, str_eq_iff,
}
use native.Mathlib.Decide.{ℕ_discrete}
use dobby_ai.Session.{
  Session, SessionManager, session_max, session_key_max, blank, matches, open_slot, session_key,
}
use dobby_ai.Session.Probe.{Found, hit, free}
use dobby_ai.Session.Evict.{IsValid}

-- A key that fits into a slot.
abbrev pub Fits : Bytes → Type 0
Fits key = take (session_key_max - 1) key ≡ key

take-take : (n : ℕ) (s : Bytes) → take n (take n s) ≡ take n s
take-take zero s = refl
take-take (suc n) [] = refl
take-take (suc n) (c ∷ s) = ap (◌∷◌ c) (take-take n s)

pub session_key-Fits : (channel chat_id : Bytes) → Fits (session_key channel chat_id)
unfolding session_key
session_key-Fits channel chat_id = take-take (session_key_max - 1) _

module _ {A : Type 0} where
  -- the session that is written for a new key
  abbrev pub fresh : Bytes → A → ℕ → Session A
  fresh key agent now = record {
    key = take (session_key_max - 1) key;
    agent = some agent;
    last_active = now;
    in_use = true;
  }

  count_if-set :
      (slots : List (Session A)) (i : ℕ) (s : Session A)
      → i < length slots
      → (get_or slots i blank).in_use ≡ false
      → s.in_use ≡ true
      → count_if (λ x. x.in_use) (set slots i s) ≡ count_if (λ x. x.in_use) slots + 1
  count_if-set [] i s h e k = absurd (omega arith)
  count_if-set (x ∷ xs) zero s h e k = rw (e, k) (omega arith)
  count_if-set (x ∷ xs) (suc i) s h e k = omega (arith, count_if-set xs i s (omega arith) e k)

  pub get_or-set :
      (slots : List (Session A)) (i j : ℕ) (s : Session A)
      → i < length slots
      → ((j ≡ i) × (get_or (set slots i s) j blank ≡ s))
        ⊎ ((j ≢ i) × (get_or (set slots i s) j blank ≡ get_or slots j blank))
  get_or-set slots i j s h = elim (ℕ_discrete j i) [
    | yes e ↦ inl (e, rw e (get_or-set_self slots i s blank h))
    | no ne ↦ inr (ne, get_or-set_ne slots i j s blank (λ e. ne (sym e)))
  ]

  pub in_use-inside :
      (slots : List (Session A)) (j : ℕ) → (get_or slots j blank).in_use ≡ true → j < length slots
  in_use-inside [] j h = cc
  in_use-inside (x ∷ xs) zero h = omega arith
  in_use-inside (x ∷ xs) (suc j) h = omega (arith, in_use-inside xs j h)

  pub add-IsValid :
      (sm : SessionManager A) (idx : ℕ) (key : Bytes) (agent : A) (now : ℕ)
      → IsValid sm
      → Fits key
      → idx < session_max
      → (get_or sm.slots idx blank).in_use ≡ false
      → ((j : ℕ) → j < session_max → matches (get_or sm.slots j blank) key ≡ false)
      → IsValid (record sm { slots = set sm.slots idx (fresh key agent now); count = sm.count + 1 })
  add-IsValid sm idx key agent now v f b empty other = record {
    sized = length-set sm.slots idx s ∙ v.sized;
    counted = omega (arith, v.counted, count_if-set sm.slots idx s inside empty refl);
    unique = uni;
  }
    where
      s : Session A
      s = fresh key agent now

      inside : idx < length sm.slots
      inside = omega (arith, v.sized)

      within : (j : ℕ) → (get_or sm.slots j blank).in_use ≡ true → j < session_max
      within j used = omega (arith, v.sized, in_use-inside sm.slots j used)

      -- no slot in use holds the new key
      clash :
          (j : ℕ) → (get_or sm.slots j blank).in_use ≡ true → (get_or sm.slots j blank).key ≢ s.key
      clash j used e =
          cc (
            other j (within j used),
            used,
            (str_eq_iff (get_or sm.slots j blank).key key).1 (e ∙ f),
          )

      uni :
          (i j : ℕ)
          → (get_or (set sm.slots idx s) i blank).in_use ≡ true
          → (get_or (set sm.slots idx s) j blank).in_use ≡ true
          → (get_or (set sm.slots idx s) i blank).key ≡ (get_or (set sm.slots idx s) j blank).key
          → i ≡ j
      uni i j p q e = elim (get_or-set sm.slots idx i s inside) [
        | inl (ei, si) ↦ elim (get_or-set sm.slots idx j s inside) [
          | inl (ej, _) ↦ ei ∙ sym ej
          | inr (_, sj) ↦ absurd (
              clash j (subst (λ x. x.in_use ≡ true) sj q)
                (sym (ap (λ x. x.key) sj) ∙ sym e ∙ ap (λ x. x.key) si))
        ]
        | inr (_, si) ↦ elim (get_or-set sm.slots idx j s inside) [
          | inl (_, sj) ↦ absurd (
              clash i (subst (λ x. x.in_use ≡ true) si p)
                (sym (ap (λ x. x.key) si) ∙ e ∙ ap (λ x. x.key) sj))
          | inr (_, sj) ↦
              v.unique i j (subst (λ x. x.in_use ≡ true) si p) (subst (λ x. x.in_use ≡ true) sj q)
                (sym (ap (λ x. x.key) si) ∙ e ∙ ap (λ x. x.key) sj)
        ]
      ]

  -- What a call at the slot that the search chose gives: the old session, a failure of the
  -- factory, or the new session in a free slot.
  pub data Opened (sm : SessionManager A) (key : Bytes) (made : Option A) (now : ℕ)
      : Option ℕ × SessionManager A → Type 0 where
    old :
        (idx : ℕ)
        → idx < session_max
        → matches (get_or sm.slots idx blank) key ≡ true
        → Opened sm key made now (some idx, sm)
    failed : made ≡ none → Opened sm key made now (none, sm)
    new :
        (idx : ℕ) (agent : A)
        → idx < session_max
        → made ≡ some agent
        → (get_or sm.slots idx blank).in_use ≡ false
        → ((j : ℕ) → j < session_max → matches (get_or sm.slots j blank) key ≡ false)
        → Opened sm key made now (
          some idx,
          record sm { slots = set sm.slots idx (fresh key agent now); count = sm.count + 1 },
        )

  pub matches-in_use : (s : Session A) (key : Bytes) → matches s key ≡ true → s.in_use ≡ true
  matches-in_use s key h = ground arith

  pub open_slot-Opened :
      (sm : SessionManager A) (key : Bytes) (made : Option A) (now idx : ℕ)
      → Found sm.slots key (some idx)
      → Opened sm key made now (open_slot sm idx key made now)
  unfolding open_slot
  open_slot-Opened sm key made now idx (hit _ b m) =
      rw (matches-in_use (get_or sm.slots idx blank) key m) (old idx b m)
  open_slot-Opened sm key none now idx (free _ b e o) = rw e (failed refl)
  open_slot-Opened sm key (some a) now idx (free _ b e o) = rw e (new idx a b refl e o)
