-- ===== src/Scheduler/Spacing.antt =====
-- The starts of each task of the table lie an interval apart.
use dobby_ai.Base.{
  ℕ, zero, suc, ◌+◌, ◌*◌, ◌≤◌, ◌≡◌, ◌≢◌, refl, sym, ◌∙◌, subst, inl, inr, Bool, true, List, [], ◌∷◌,
  ◌++◌, arith, All, ◌==◌, ==_iff, map, Bool-cases, if◌then◌else◌,
}
use dobby_ai.Scheduler.{Task, Fired, fire, is_due, tick, scheduler_thread}
use dobby_ai.Scheduler.Due.{
  started, fired_id, HasUniqueIds, tick-started, started-id, started-HasUniqueIds,
}

-- how often a number is among what was started, in one round and in some rounds
abbrev pub count : ℕ → List Fired → ℕ
count id [] = 0
count id (f ∷ fired) = (if fired_id f == id then 1 else 0) + count id fired

abbrev pub starts : ℕ → List (List Fired) → ℕ
starts id [] = 0
starts id (fired ∷ rounds) = count id fired + starts id rounds

abbrev starts_now : ℕ → Task → ℕ
starts_now now t = if is_due now t then 1 else 0

count-append : (id : ℕ) (fs gs : List Fired) → count id (fs ++ gs) ≡ count id fs + count id gs
count-append id [] gs = omega arith
count-append id (f ∷ fs) gs = omega (arith, count-append id fs gs)

count-fire_le : (has_bus : Bool) (id : ℕ) (t : Task) → count id (fire has_bus t) ≤ 1
count-fire_le has_bus id t = ground arith

count-fire_ne : (has_bus : Bool) (id : ℕ) (t : Task) → t.id ≢ id → count id (fire has_bus t) ≡ 0
count-fire_ne has_bus id t ne = ground (arith, (==_iff t.id id).0)

module _ (has_bus : Bool) (now : ℕ) where
  count-tick_cons :
      (id : ℕ) (t : Task) (tasks : List Task)
      → t.id ≢ id
      → count id (tick has_bus now (t ∷ tasks)).1 ≡ count id (tick has_bus now tasks).1
  unfolding tick
  count-tick_cons id t tasks ne = elim (Bool-cases (is_due now t)) [
    | inl e ↦ rw e (
        omega (
          arith,
          count-append id (fire has_bus t) (tick has_bus now tasks).1,
          count-fire_ne has_bus id t ne,
        ))
    | inr e ↦ rw e refl
  ]

  count-tick_ne :
      (id : ℕ) (tasks : List Task)
      → All (λ u. u.id ≢ id) tasks
      → count id (tick has_bus now tasks).1 ≡ 0
  count-tick_ne id [] others = unfold tick in refl
  count-tick_ne id (t ∷ tasks) (ne, others) =
      count-tick_cons id t tasks ne ∙ count-tick_ne id tasks others

  count-tick_head :
      (t : Task) (tasks : List Task)
      → All (λ u. u.id ≢ t.id) tasks
      → count t.id (tick has_bus now (t ∷ tasks)).1 ≤ starts_now now t
  unfolding tick
  count-tick_head t tasks others = elim (Bool-cases (is_due now t)) [
    | inl e ↦ rw e (
        omega (
          arith,
          count-append t.id (fire has_bus t) (tick has_bus now tasks).1,
          count-fire_le has_bus t.id t,
          count-tick_ne t.id tasks others,
        ))
    | inr e ↦ rw e (omega (arith, count-tick_ne t.id tasks others))
  ]

  count-tick_tail :
      (t : Task) (tasks us : List Task)
      → All (λ u. u.id ≢ t.id) us
      → All (λ u. count u.id (tick has_bus now tasks).1 ≤ starts_now now u) us
      → All (λ u. count u.id (tick has_bus now (t ∷ tasks)).1 ≤ starts_now now u) us
  count-tick_tail t tasks [] others h = tt
  count-tick_tail t tasks (u ∷ us) (ne, others) (h, hs) =
      (rw (count-tick_cons u.id t tasks (λ e. ne (sym e))) h, count-tick_tail t tasks us others hs)

  -- In one round a task is started once at most, and only if it is due.
  count-tick :
      (tasks : List Task)
      → HasUniqueIds tasks
      → All (λ t. count t.id (tick has_bus now tasks).1 ≤ starts_now now t) tasks
  count-tick [] unique = tt
  count-tick (t ∷ tasks) (others, unique) = (
    count-tick_head t tasks others,
    count-tick_tail t tasks tasks others (count-tick tasks unique),
  )

due-time : (now : ℕ) (t : Task) → is_due now t ≡ true → t.last_run + t.interval_sec ≤ now
unfolding is_due
due-time now t h = ground arith

one_more :
    (c n d last now end : ℕ) → c ≤ 1 → n * d + now ≤ end → last + d ≤ now → (c + n) * d + last ≤ end
one_more zero n d last now end b h k = grind (arith, h, k)
one_more (suc zero) n d last now end b h k = grind (arith, h, k)
one_more (suc (suc c)) n d last now end b h k = absurd (omega (arith, b))

no_more : (c n d last end : ℕ) → c ≤ 0 → n * d + last ≤ end → (c + n) * d + last ≤ end
no_more zero n d last end b h = grind (arith, h)
no_more (suc c) n d last end b h = absurd (omega (arith, b))

-- the interval fits once more for the start of this round
fits_round :
    (now end c n : ℕ) (t : Task)
    → c ≤ starts_now now t
    → n * (started now t).interval_sec + (started now t).last_run ≤ end
    → (c + n) * t.interval_sec + t.last_run ≤ end
fits_round now end c n t = elim (Bool-cases (is_due now t)) [
  | inl e ↦ rw e (λ b h. one_more c n t.interval_sec t.last_run now end b h (due-time now t e))
  | inr e ↦ rw e (λ b h. no_more c n t.interval_sec t.last_run end b h)
]

abbrev Fits : ℕ → List (List Fired) → Task → Type 0
Fits end rounds t = starts t.id rounds * t.interval_sec + t.last_run ≤ end

Fits-cons :
    (now end : ℕ) (fired : List Fired) (rounds : List (List Fired)) (us : List Task)
    → All (λ u. count u.id fired ≤ starts_now now u) us
    → All (Fits end rounds) (map (started now) us)
    → All (Fits end (fired ∷ rounds)) us
Fits-cons now end fired rounds [] c h = tt
Fits-cons now end fired rounds (u ∷ us) (c, cs) (h, hs) = (
  fits_round now end (count u.id fired) (starts u.id rounds) u c (
      subst (λ id. starts id rounds * (started now u).interval_sec + (started now u).last_run ≤ end)
        (started-id now u) h),
  Fits-cons now end fired rounds us cs hs,
)

started-bound :
    (now end : ℕ) (us : List Task)
    → now ≤ end
    → All (λ u. u.last_run ≤ end) us
    → All (λ u. u.last_run ≤ end) (map (started now) us)
started-bound now end [] h l = tt
started-bound now end (u ∷ us) h (l, ls) = (
  elim (Bool-cases (is_due now u)) [ inl e ↦ rw e h | inr e ↦ rw e l ],
  started-bound now end us h ls,
)

unstarted : (end : ℕ) (us : List Task) → All (λ u. u.last_run ≤ end) us → All (Fits end []) us
unstarted end [] l = tt
unstarted end (u ∷ us) (l, ls) = (omega (arith, l), unstarted end us ls)

-- In a table in which no two tasks have one number, and in rounds at any times up to `end`, which is
-- not before the last run of any task: each task is started so rarely that an interval for each of its
-- starts fits between its last start before and `end`.
pub scheduler_thread-spacing :
    (has_bus : Bool) (times : List ℕ) (tasks : List Task) (end : ℕ)
    → All (λ now. now ≤ end) times
    → HasUniqueIds tasks
    → All (λ t. t.last_run ≤ end) tasks
    → let rounds = (scheduler_thread has_bus times tasks).1 in
      All (λ t. starts t.id rounds * t.interval_sec + t.last_run ≤ end) tasks
unfolding scheduler_thread
scheduler_thread-spacing has_bus [] tasks end h unique l = unstarted end tasks l
scheduler_thread-spacing has_bus (now ∷ times) tasks end (h, hs) unique l =
    Fits-cons now end (tick has_bus now tasks).1
      (scheduler_thread has_bus times (tick has_bus now tasks).0).1 tasks
      (count-tick has_bus now tasks unique)
      (rw (tick-started has_bus now tasks) (
        scheduler_thread-spacing has_bus times (map (started now) tasks) end hs
          (started-HasUniqueIds now tasks unique) (started-bound now end tasks h l)))
