-- ===== src/Subagent/Slots.antt =====
-- tools/subagent/subagent.c: which slot each walk over the table stops at.
use dobby_ai.Base.{
  ℕ, zero, suc, ◌+◌, ◌≤◌, ◌<◌, ◌≡◌, inl, inr, true, false, ◌&&◌, Bool-cases, Option, none, some,
  List, [], ◌∷◌, codes, arith, ltb, ◌==◌, length, get_or, set,
}
use dobby_ai.Subagent.{
  Slot, blank, is_idle, is_running, is_completed, sa_timeout, slot_set_result, time_out, first_idle,
  oldest,
}

module _ {J : Type 0} where
  abbrev pub timed : ℕ → Slot J → Slot J
  timed now sl =
      slot_set_result (record sl { state = sa_timeout; finished_at = now })
        (some (codes "[Subagent timed out]"))

  -- The watchdog finds nothing, or one running slot with its id.
  pub data TimedOut (now id : ℕ) (slots : List (Slot J)) : List (Slot J) → Type 0 where
    nothing : TimedOut now id slots slots
    cancels :
        (i : ℕ)
        → i < length slots
        → (get_or slots i blank).id ≡ id
        → is_running (get_or slots i blank).state ≡ true
        → TimedOut now id slots (set slots i (timed now (get_or slots i blank)))

  TimedOut-cons :
      (now id : ℕ) (sl : Slot J) (slots rest : List (Slot J))
      → TimedOut now id slots rest
      → TimedOut now id (sl ∷ slots) (sl ∷ rest)
  TimedOut-cons now id sl slots _ nothing = nothing
  TimedOut-cons now id sl slots _ (cancels i l e r) = cancels (suc i) (omega arith) e r

  pub time_out-TimedOut :
      (now id : ℕ) (slots : List (Slot J)) → TimedOut now id slots (time_out now id slots)
  unfolding time_out
  time_out-TimedOut now id [] = nothing
  time_out-TimedOut now id (sl ∷ slots) =
      elim (Bool-cases ((sl.id == id) && (is_running sl.state && sl.thread_valid))) [
        | inl e ↦ rw e (cancels 0 (omega arith) (id_of e) (running_of e))
        | inr e ↦ rw e (TimedOut-cons now id sl slots _ (time_out-TimedOut now id slots))
      ]
    where
      id_of : (sl.id == id) && (is_running sl.state && sl.thread_valid) ≡ true → sl.id ≡ id
      id_of e = ground arith

      running_of :
          (sl.id == id) && (is_running sl.state && sl.thread_valid) ≡ true
          → is_running sl.state ≡ true
      running_of e = ground arith

  -- The first idle slot, or none is idle.
  pub data Idle (slots : List (Slot J)) (k : ℕ) : Option ℕ → Type 0 where
    no_idle :
        ((j : ℕ) → j < length slots → is_idle (get_or slots j blank).state ≡ false)
        → Idle slots k none
    idle_at :
        (j n : ℕ)
        → n ≡ k + j
        → j < length slots
        → is_idle (get_or slots j blank).state ≡ true
        → Idle slots k (some n)

  Idle-cons :
      (sl : Slot J) (slots : List (Slot J)) (k : ℕ) (o : Option ℕ)
      → is_idle sl.state ≡ false
      → Idle slots (suc k) o
      → Idle (sl ∷ slots) k o
  Idle-cons sl slots k _ e (no_idle h) = no_idle none_before
    where
      none_before :
          (j : ℕ) → j < suc (length slots) → is_idle (get_or (sl ∷ slots) j blank).state ≡ false
      none_before zero l = e
      none_before (suc j) l = h j (omega arith)
  Idle-cons sl slots k _ e (idle_at j n q l t) = idle_at (suc j) n (omega arith) (omega arith) t

  pub first_idle-Idle : (slots : List (Slot J)) (k : ℕ) → Idle slots k (first_idle slots k)
  unfolding first_idle
  first_idle-Idle [] k = no_idle (λ j l. absurd (omega arith))
  first_idle-Idle (sl ∷ slots) k = elim (Bool-cases (is_idle sl.state)) [
    | inl e ↦ rw e (idle_at 0 k (omega arith) (omega arith) e)
    | inr e ↦ rw e (Idle-cons sl slots k _ e (first_idle-Idle slots (suc k)))
  ]

  -- Every completed slot finished at `t` or later.
  abbrev pub From : ℕ → List (Slot J) → Type 0
  From t slots =
      (j : ℕ)
      → j < length slots
      → is_completed (get_or slots j blank).state ≡ true
      → t ≤ (get_or slots j blank).finished_at

  From-cons :
      (t : ℕ) (sl : Slot J) (slots : List (Slot J))
      → (is_completed sl.state ≡ true → t ≤ sl.finished_at)
      → From t slots
      → From t (sl ∷ slots)
  From-cons t sl slots h f zero l c = h c
  From-cons t sl slots h f (suc j) l c = f j (omega arith) c

  -- The completed slot that finished first, if one finished before the time given.
  pub data Oldest (slots : List (Slot J)) (k best_time : ℕ) (best_idx : Option ℕ)
      : Option ℕ → Type 0 where
    none_before : From best_time slots → Oldest slots k best_time best_idx best_idx
    oldest_at :
        (j n : ℕ)
        → n ≡ k + j
        → j < length slots
        → is_completed (get_or slots j blank).state ≡ true
        → (get_or slots j blank).finished_at < best_time
        → From (get_or slots j blank).finished_at slots
        → Oldest slots k best_time best_idx (some n)

  taken-Oldest :
      (sl : Slot J) (slots : List (Slot J)) (k best_time : ℕ) (best_idx o : Option ℕ)
      → is_completed sl.state ≡ true
      → sl.finished_at < best_time
      → Oldest slots (suc k) sl.finished_at (some k) o
      → Oldest (sl ∷ slots) k best_time best_idx o
  taken-Oldest sl slots k t b _ c l (none_before f) =
      oldest_at 0 k (omega arith) (omega arith) c l
        (From-cons sl.finished_at sl slots (λ c'. omega arith) f)
  taken-Oldest sl slots k t b _ c l (oldest_at j n q l' c' e f) =
      oldest_at (suc j) n (omega arith) (omega arith) c' (omega arith)
        (From-cons _ sl slots (λ c''. omega arith) f)

  passed-Oldest :
      (sl : Slot J) (slots : List (Slot J)) (k best_time : ℕ) (best_idx o : Option ℕ)
      → (is_completed sl.state ≡ true → best_time ≤ sl.finished_at)
      → Oldest slots (suc k) best_time best_idx o
      → Oldest (sl ∷ slots) k best_time best_idx o
  passed-Oldest sl slots k t b _ h (none_before f) = none_before (From-cons t sl slots h f)
  passed-Oldest sl slots k t b _ h (oldest_at j n q l c e f) =
      oldest_at (suc j) n (omega arith) (omega arith) c e
        (From-cons _ sl slots (λ d. omega (arith, h d)) f)

  pub oldest-Oldest :
      (slots : List (Slot J)) (k best_time : ℕ) (best_idx : Option ℕ)
      → Oldest slots k best_time best_idx (oldest slots k best_time best_idx)
  unfolding oldest
  oldest-Oldest [] k t b = none_before (λ j l. absurd (omega arith))
  oldest-Oldest (sl ∷ slots) k t b =
      elim (Bool-cases (is_completed sl.state && ltb sl.finished_at t)) [
        | inl e ↦ rw e (
            taken-Oldest sl slots k t b _ (completed_of e) (before_of e)
              (oldest-Oldest slots (suc k) sl.finished_at (some k)))
        | inr e ↦
            rw e (passed-Oldest sl slots k t b _ (later_of e) (oldest-Oldest slots (suc k) t b))
      ]
    where
      completed_of :
          is_completed sl.state && ltb sl.finished_at t ≡ true → is_completed sl.state ≡ true
      completed_of e = ground arith

      before_of : is_completed sl.state && ltb sl.finished_at t ≡ true → sl.finished_at < t
      before_of e = ground arith

      later_of :
          is_completed sl.state && ltb sl.finished_at t ≡ false
          → is_completed sl.state ≡ true
          → t ≤ sl.finished_at
      later_of e c = ground arith
