-- ===== src/Session/Update.antt =====
-- Writing to the session of a slot without changing its key.
use dobby_ai.Base.{
  ℕ, zero, suc, ◌+◌, ◌<◌, ◌≡◌, refl, sym, ap, ◌∙◌, inl, inr, List, [], ◌∷◌, arith, length, get_or,
  set, count_if, length-set, if◌then◌else◌,
}
use dobby_ai.Session.{Session, SessionManager, session_max, blank, session_release}
use dobby_ai.Session.Evict.{IsValid}
use dobby_ai.Session.Open.{get_or-set}

module _ {A : Type 0} where
  count_if-same :
      (slots : List (Session A)) (i : ℕ) (s : Session A)
      → s.in_use ≡ (get_or slots i blank).in_use
      → count_if (λ x. x.in_use) (set slots i s) ≡ count_if (λ x. x.in_use) slots
  count_if-same [] i s e = refl
  count_if-same (x ∷ xs) zero s e = ap (λ b. (if b then 1 else 0) + count_if (λ x. x.in_use) xs) e
  count_if-same (x ∷ xs) (suc i) s e = omega (arith, count_if-same xs i s e)

  abbrev pub write_slot : SessionManager A → ℕ → Session A → SessionManager A
  write_slot sm idx s = record sm { slots = set sm.slots idx s }

  pub write_slot-IsValid :
      (sm : SessionManager A) (idx : ℕ) (s : Session A)
      → IsValid sm
      → idx < session_max
      → s.in_use ≡ (get_or sm.slots idx blank).in_use
      → s.key ≡ (get_or sm.slots idx blank).key
      → IsValid (write_slot sm idx s)
  write_slot-IsValid sm idx s v b used key = record {
    sized = length-set sm.slots idx s ∙ v.sized;
    counted = v.counted ∙ sym (count_if-same sm.slots idx s used);
    unique = λ i j p q e.
        v.unique i j (sym (used_as i) ∙ p) (sym (used_as j) ∙ q) (sym (keys i) ∙ e ∙ keys j);
  }
    where
      inside : idx < length sm.slots
      inside = omega (arith, v.sized)

      used_as :
          (i : ℕ) → (get_or (set sm.slots idx s) i blank).in_use ≡ (get_or sm.slots i blank).in_use
      used_as i = elim (get_or-set sm.slots idx i s inside) [
        | inl (e, h) ↦
            ap (λ x. x.in_use) h ∙ used ∙ ap (λ k. (get_or sm.slots k blank).in_use) (sym e)
        | inr (_, h) ↦ ap (λ x. x.in_use) h
      ]

      keys : (i : ℕ) → (get_or (set sm.slots idx s) i blank).key ≡ (get_or sm.slots i blank).key
      keys i = elim (get_or-set sm.slots idx i s inside) [
        | inl (e, h) ↦ ap (λ x. x.key) h ∙ key ∙ ap (λ k. (get_or sm.slots k blank).key) (sym e)
        | inr (_, h) ↦ ap (λ x. x.key) h
      ]

  pub release-IsValid :
      (sm : SessionManager A) (idx now : ℕ)
      → IsValid sm
      → idx < session_max
      → IsValid (session_release sm idx now)
  unfolding session_release
  release-IsValid sm idx now v b = write_slot-IsValid sm idx _ v b refl refl
