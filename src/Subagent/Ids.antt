-- ===== src/Subagent/Ids.antt =====
-- tools/subagent/subagent.c: the ids of the pool, and what happens to a sub-agent.
use dobby_ai.Base.{
  ℕ, zero, suc, ◌≤◌, ◌<◌, ◌≡◌, ◌≢◌, inl, inr, refl, sym, ap, ◌∙◌, subst, true, false, Bool-cases,
  Option, arith, ◌==◌, ==_iff, length, get_or, set, get_or-set_self, get_or-set_ne, length-set,
  length-replicate, replicate,
}
use dobby_ai.Agent.{Agent}
use dobby_ai.Agent.Chat.{Env}
use dobby_ai.Subagent.{
  SubagentState, Slot, Pool, blank, slot_at, is_idle, max_slots, subagent_pool_create,
}
use dobby_ai.Subagent.Life.{
  Reach, here, then_step, Goes, done, error, timeout, late_done, late_error, stays_timeout,
  IsCoherent, over, Change, goes_on, is_new, Moved, unmoved, moved,
}
use dobby_ai.Subagent.Moves.{Step-Moved}

differ : true ≡ false → ⊥
differ h = ground arith

pub Goes-not_idle : (s t : SubagentState) → Goes s t → (is_idle s ≡ false) × (is_idle t ≡ false)
Goes-not_idle _ _ done = (refl, refl)
Goes-not_idle _ _ error = (refl, refl)
Goes-not_idle _ _ timeout = (refl, refl)
Goes-not_idle _ _ late_done = (refl, refl)
Goes-not_idle _ _ late_error = (refl, refl)
Goes-not_idle _ _ stays_timeout = (refl, refl)

module _ {J : Type 0} where
  -- The table has eight slots; ids are below the next one, those of the slots in use are different.
  pub record IsPool (pool : Pool J) : Type 0 where
    pub size : length pool.slots ≡ max_slots
    pub next_pos : 0 < pool.next_id
    pub below : (j : ℕ) → (slot_at pool j).id < pool.next_id
    pub distinct :
        (i j : ℕ)
        → is_idle (slot_at pool i).state ≡ false
        → is_idle (slot_at pool j).state ≡ false
        → (slot_at pool i).id ≡ (slot_at pool j).id
        → i ≡ j
    pub coherent : (j : ℕ) → j < length pool.slots → IsCoherent (slot_at pool j)

  -- a slot of the new table: the written one, or an old one
  pub data At (pool pool' : Pool J) (i : ℕ) (new : Slot J) (j : ℕ) : Type 0 where
    written : i ≡ j → slot_at pool' j ≡ new → At pool pool' i new j
    kept : i ≢ j → slot_at pool' j ≡ slot_at pool j → At pool pool' i new j

  pub at :
      (pool pool' : Pool J) (i : ℕ) (new : Slot J) (j : ℕ)
      → i < length pool.slots
      → pool'.slots ≡ set pool.slots i new
      → At pool pool' i new j
  at pool pool' i new j l e = elim (Bool-cases (i == j)) [
    | inl h ↦
        let same : i ≡ j = (==_iff i j).0 h in
        written same (
          ap (λ xs. get_or xs j blank) e
          ∙ subst (λ k. get_or (set pool.slots i new) k blank ≡ new) same
              (get_or-set_self pool.slots i new blank l))
    | inr h ↦
        let other : i ≢ j = λ same. absurd (ground arith) in
        kept other (ap (λ xs. get_or xs j blank) e ∙ get_or-set_ne pool.slots i j new blank other)
  ]

  Change-below :
      (n n' : ℕ) (old new : Slot J) → old.id < n → Change n old n' new → (n ≤ n') × (new.id < n')
  Change-below n _ old _ h (goes_on new g) = (omega arith, omega (arith, g.keeps_id, h))
  Change-below n _ old _ h (is_new new r e c) = (omega arith, omega (arith, e))

  Change-IsCoherent : (n n' : ℕ) (old new : Slot J) → Change n old n' new → IsCoherent new
  Change-IsCoherent n _ old _ (goes_on new g) = g.stays_coherent
  Change-IsCoherent n _ old _ (is_new new r e c) = c

  -- the written slot's id is no other slot's
  Change-fresh :
      (pool : Pool J) (i j n' : ℕ) (new : Slot J)
      → IsPool pool
      → i ≢ j
      → Change pool.next_id (slot_at pool i) n' new
      → is_idle new.state ≡ false
      → is_idle (slot_at pool j).state ≡ false
      → new.id ≡ (slot_at pool j).id
      → ⊥
  Change-fresh pool i j _ _ v d (goes_on new g) a b e =
      d (v.distinct i j (Goes-not_idle _ _ g.goes).0 b (sym g.keeps_id ∙ e))
  Change-fresh pool i j _ _ v d (is_new new r h c) a b e = absurd (omega (arith, v.below j, h, e))

  written-distinct :
      (pool pool' : Pool J) (i : ℕ) (new : Slot J)
      → IsPool pool
      → Change pool.next_id (slot_at pool i) pool'.next_id new
      → (j k : ℕ) → At pool pool' i new j
      → At pool pool' i new k
      → is_idle (slot_at pool' j).state ≡ false
      → is_idle (slot_at pool' k).state ≡ false
      → (slot_at pool' j).id ≡ (slot_at pool' k).id
      → j ≡ k
  written-distinct pool pool' i new v c j k (written p e) (written q f) a b h = sym p ∙ q
  written-distinct pool pool' i new v c j k (written p e) (kept q f) a b h = absurd (
      Change-fresh pool i k _ new v q c (subst (λ s. is_idle s.state ≡ false) e a)
        (subst (λ s. is_idle s.state ≡ false) f b) (sym (ap (λ s. s.id) e) ∙ h ∙ ap (λ s. s.id) f))
  written-distinct pool pool' i new v c j k (kept p e) (written q f) a b h = absurd (
      Change-fresh pool i j _ new v p c (subst (λ s. is_idle s.state ≡ false) f b)
        (subst (λ s. is_idle s.state ≡ false) e a)
        (sym (ap (λ s. s.id) f) ∙ sym h ∙ ap (λ s. s.id) e))
  written-distinct pool pool' i new v c j k (kept p e) (kept q f) a b h =
      v.distinct j k (subst (λ s. is_idle s.state ≡ false) e a)
        (subst (λ s. is_idle s.state ≡ false) f b) (sym (ap (λ s. s.id) e) ∙ h ∙ ap (λ s. s.id) f)

  written-below :
      (pool pool' : Pool J) (i : ℕ) (new : Slot J)
      → IsPool pool
      → Change pool.next_id (slot_at pool i) pool'.next_id new
      → (j : ℕ) → At pool pool' i new j
      → (slot_at pool' j).id < pool'.next_id
  written-below pool pool' i new v c j (written p e) =
      subst (λ s. s.id < pool'.next_id) (sym e) (Change-below _ _ _ new (v.below i) c).1
  written-below pool pool' i new v c j (kept p e) =
      let grows : pool.next_id ≤ pool'.next_id = (Change-below _ _ _ new (v.below i) c).0 in
      subst (λ s. s.id < pool'.next_id) (sym e) (omega (arith, grows, v.below j))

  written-IsCoherent :
      (pool pool' : Pool J) (i : ℕ) (new : Slot J)
      → IsPool pool
      → Change pool.next_id (slot_at pool i) pool'.next_id new
      → (j : ℕ) → j < length pool.slots
      → At pool pool' i new j
      → IsCoherent (slot_at pool' j)
  written-IsCoherent pool pool' i new v c j l (written p e) =
      subst IsCoherent (sym e) (Change-IsCoherent _ _ _ new c)
  written-IsCoherent pool pool' i new v c j l (kept p e) = subst IsCoherent (sym e) (v.coherent j l)

  pub Moved-IsPool : (pool pool' : Pool J) → IsPool pool → Moved pool pool' → IsPool pool'
  Moved-IsPool pool _ v unmoved = v
  Moved-IsPool pool pool' v (moved i new _ l c e) = record {
    size = same_size ∙ v.size;
    next_pos = omega (arith, v.next_pos, (Change-below _ _ _ new (v.below i) c).0);
    below = λ j. written-below pool pool' i new v c j (at pool pool' i new j l e);
    distinct = λ j k.
        written-distinct pool pool' i new v c j k (at pool pool' i new j l e)
          (at pool pool' i new k l e);
    coherent = λ j h.
        written-IsCoherent pool pool' i new v c j (subst (λ n. j < n) same_size h)
          (at pool pool' i new j l e);
  }
    where
      same_size : length pool'.slots ≡ length pool.slots
      same_size = ap length e ∙ length-set pool.slots i new

  blank_at : (n j : ℕ) → get_or (replicate n (blank {J = J})) j blank ≡ blank
  blank_at zero j = refl
  blank_at (suc n) zero = refl
  blank_at (suc n) (suc j) = blank_at n j

  -- A new pool is well formed.
  pub create-IsPool :
      (tmpl : Option (Agent J)) (timeout_sec : ℕ) → IsPool (subagent_pool_create tmpl timeout_sec)
  unfolding subagent_pool_create
  create-IsPool tmpl timeout_sec = record {
    size = length-replicate max_slots (blank {J = J});
    next_pos = omega arith;
    below = λ j. subst (λ s. s.id < 1) (sym (blank_at max_slots j)) (omega arith);
    distinct =
        λ i j a b h. absurd (differ (ap (λ s. is_idle s.state) (sym (blank_at max_slots i)) ∙ a));
    coherent = λ j h. subst IsCoherent (sym (blank_at max_slots j)) (over refl refl);
  }

-- The table keeps eight slots, ids stay below the next one and the sub-agents in the table have
-- different ids, whatever steps the threads make, from a pool where this holds.
pub Reach-IsPool :
    {J E : Type 0} (env : Env J E) (pool pool' : Pool J)
    → Reach env pool pool'
    → IsPool pool
    → IsPool pool'
Reach-IsPool env pool _ here v = v
Reach-IsPool env pool _ (then_step pool' pool'' r s) v =
    let v' : IsPool pool' = Reach-IsPool env pool pool' r v in
    Moved-IsPool pool' pool'' v' (Step-Moved env pool' pool'' v'.coherent s)
