-- ===== src/Session/Evict.antt =====
-- The well-formed session table, and the eviction of stale sessions.
use dobby_ai.Base.{
  ℕ, zero, suc, ◌+◌, ◌-◌, ◌≡◌, refl, sym, ap, ◌∙◌, subst, inl, inr, Bool, true, false, ◌&&◌, List,
  [], ◌∷◌, map, arith, if◌then◌else◌, length, get_or, count_if, Bool-cases, replicate,
  length-replicate,
}
use dobby_ai.Session.{
  Session, SessionManager, session_max, blank, is_stale, evict_slots, evict_locked,
  session_manager_create, session_evict_stale,
}

module _ {A : Type 0} where
  -- 64 slots, the count of those in use, and no key in two of them.
  pub record IsValid (sm : SessionManager A) : Type 0 where
    pub sized : length sm.slots ≡ session_max
    pub counted : sm.count ≡ count_if (λ s. s.in_use) sm.slots
    pub unique :
        (i j : ℕ)
        → (get_or sm.slots i blank).in_use ≡ true
        → (get_or sm.slots j blank).in_use ≡ true
        → (get_or sm.slots i blank).key ≡ (get_or sm.slots j blank).key
        → i ≡ j

  get_or-replicate : (n i : ℕ) → get_or (replicate n (blank {A = A})) i blank ≡ blank
  get_or-replicate zero i = refl
  get_or-replicate (suc n) zero = refl
  get_or-replicate (suc n) (suc i) = get_or-replicate n i

  count_if-replicate :
      (s : Session A) (n : ℕ) → s.in_use ≡ false → count_if (λ x. x.in_use) (replicate n s) ≡ 0
  count_if-replicate s zero h = refl
  count_if-replicate s (suc n) h = ground (arith, count_if-replicate s n h)

  -- A new table is well formed and empty.
  pub create-IsValid : (ttl : ℕ) → IsValid (session_manager_create ttl)
  unfolding session_manager_create
  create-IsValid ttl = record {
    sized = length-replicate session_max (blank {A = A});
    counted = sym (count_if-replicate blank session_max refl);
    unique = λ i j p q e. cc (p, ap (λ s. s.in_use) (get_or-replicate session_max i));
  }

  -- What one round of the eviction does to a slot.
  abbrev pub evict_one : ℕ → ℕ → Session A → Session A
  evict_one now ttl s = if s.in_use && is_stale now ttl s then blank else s

  abbrev pub is_gone : ℕ → ℕ → Session A → Bool
  is_gone now ttl s = s.in_use && is_stale now ttl s

  evict_slots_lem :
      (now ttl : ℕ) (slots : List (Session A)) (count evicted : ℕ)
      → evict_slots now ttl slots count evicted ≡ (
        map (evict_one now ttl) slots,
        count - count_if (is_gone now ttl) slots,
        evicted + count_if (is_gone now ttl) slots,
      )
  unfolding evict_slots
  evict_slots_lem now ttl [] count evicted = ground arith
  evict_slots_lem now ttl (s ∷ rest) count evicted = elim (Bool-cases (is_gone now ttl s)) [
    | inl g ↦ rw (g, evict_slots_lem now ttl rest (count - 1) (evicted + 1)) (ground arith)
    | inr g ↦ rw (g, evict_slots_lem now ttl rest count evicted) (ground arith)
  ]

  get_or-evict :
      (now ttl : ℕ) (slots : List (Session A)) (j : ℕ)
      → get_or (map (evict_one now ttl) slots) j blank ≡ evict_one now ttl (get_or slots j blank)
  get_or-evict now ttl [] j = refl
  get_or-evict now ttl (s ∷ rest) zero = refl
  get_or-evict now ttl (s ∷ rest) (suc j) = get_or-evict now ttl rest j

  count_if-evict :
      (now ttl : ℕ) (slots : List (Session A))
      → count_if (λ s. s.in_use) (map (evict_one now ttl) slots) + count_if (is_gone now ttl) slots
        ≡ count_if (λ s. s.in_use) slots
  count_if-evict now ttl [] = refl
  count_if-evict now ttl (s ∷ rest) = ground (arith, count_if-evict now ttl rest)

  length-map : (f : Session A → Session A) (xs : List (Session A)) → length (map f xs) ≡ length xs
  length-map f [] = refl
  length-map f (x ∷ xs) = ap suc (length-map f xs)

  -- Eviction empties exactly the slots in use whose idle time has reached the limit, leaves every
  -- other slot as it is, and the reported number is what the count has lost.
  pub evict_exact :
      (sm : SessionManager A) (now : ℕ)
      → IsValid sm
      → let (n, sm') = session_evict_stale sm now in
        ((j : ℕ)
          → get_or sm'.slots j blank ≡ evict_one now sm.ttl_seconds (get_or sm.slots j blank))
        × (sm'.count + n ≡ sm.count)
  unfolding session_evict_stale evict_locked
  evict_exact sm now v = rw evict_slots_lem (
    get_or-evict now sm.ttl_seconds sm.slots,
    omega (arith, v.counted, count_if-evict now sm.ttl_seconds sm.slots),
  )

  evict_one-live :
      (now ttl : ℕ) (s : Session A) → is_stale now ttl s ≡ false → evict_one now ttl s ≡ s
  evict_one-live now ttl s h = ground arith

  -- A slot that is not stale is left as it is.
  pub evict_live :
      (sm : SessionManager A) (now j : ℕ)
      → is_stale now sm.ttl_seconds (get_or sm.slots j blank) ≡ false
      → get_or (evict_locked sm now).1.slots j blank ≡ get_or sm.slots j blank
  unfolding evict_locked
  evict_live sm now j h = rw evict_slots_lem (
      get_or-evict now sm.ttl_seconds sm.slots j
      ∙ evict_one-live now sm.ttl_seconds (get_or sm.slots j blank) h)

  evict_one-in_use :
      (now ttl : ℕ) (s : Session A) → (evict_one now ttl s).in_use ≡ true → evict_one now ttl s ≡ s
  evict_one-in_use now ttl s h = elim (Bool-cases (is_gone now ttl s)) [
    | inl g ↦ absurd (ground arith)
    | inr g ↦ rw g refl
  ]

  -- A slot that is in use after the eviction was not touched by it.
  evict-keeps :
      (now ttl : ℕ) (slots : List (Session A)) (j : ℕ)
      → (get_or (map (evict_one now ttl) slots) j blank).in_use ≡ true
      → get_or (map (evict_one now ttl) slots) j blank ≡ get_or slots j blank
  evict-keeps now ttl slots j h =
      get_or-evict now ttl slots j
      ∙ evict_one-in_use now ttl (get_or slots j blank)
          (subst (λ s. s.in_use ≡ true) (get_or-evict now ttl slots j) h)

  -- Eviction keeps the table well formed.
  pub evict-IsValid :
      (sm : SessionManager A) (now : ℕ) → IsValid sm → IsValid (evict_locked sm now).1
  unfolding evict_locked
  evict-IsValid sm now v = rw evict_slots_lem (record {
    sized = length-map (evict_one now sm.ttl_seconds) sm.slots ∙ v.sized;
    counted = omega (arith, v.counted, count_if-evict now sm.ttl_seconds sm.slots);
    unique = λ i j. uni i j;
  })
    where
      after : List (Session A)
      after = map (evict_one now sm.ttl_seconds) sm.slots

      was :
          (i : ℕ)
          → (get_or after i blank).in_use ≡ true
          → get_or after i blank ≡ get_or sm.slots i blank
      was i = evict-keeps now sm.ttl_seconds sm.slots i

      uni :
          (i j : ℕ)
          → (get_or after i blank).in_use ≡ true
          → (get_or after j blank).in_use ≡ true
          → (get_or after i blank).key ≡ (get_or after j blank).key
          → i ≡ j
      uni i j p q e =
          v.unique i j (subst (λ s. s.in_use ≡ true) (was i p) p)
            (subst (λ s. s.in_use ≡ true) (was j q) q)
            (sym (ap (λ s. s.key) (was i p)) ∙ e ∙ ap (λ s. s.key) (was j q))
