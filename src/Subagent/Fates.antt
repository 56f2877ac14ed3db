-- ===== src/Subagent/Fates.antt =====
-- tools/subagent/subagent.c: what a step does to each sub-agent.
use dobby_ai.Base.{ℕ, ◌≡◌, sym, subst, false}
use dobby_ai.Agent.Chat.{Env}
use dobby_ai.Subagent.{Slot, Pool, slot_at, is_running}
use dobby_ai.Subagent.Life.{Step, GoesOn, Change, goes_on, is_new, Moved, unmoved, moved}
use dobby_ai.Subagent.Moves.{Step-Moved}
use dobby_ai.Subagent.Ids.{IsPool, At, written, kept, at}

-- what a step may have done to one slot
pub data Fate {J : Type 0} (n : ℕ) (old : Slot J) : Slot J → Type 0 where
  untouched : Fate n old old
  went_on : (new : Slot J) → GoesOn old new → Fate n old new
  replaced : (new : Slot J) → is_running old.state ≡ false → new.id ≡ n → Fate n old new

Fate-Change : {J : Type 0} (n n' : ℕ) (old new : Slot J) → Change n old n' new → Fate n old new
Fate-Change n _ old _ (goes_on new g) = went_on new g
Fate-Change n _ old _ (is_new new r e c) = replaced new r e

Fate-at :
    {J : Type 0} (pool pool' : Pool J) (i j : ℕ) (new : Slot J)
    → Change pool.next_id (slot_at pool i) pool'.next_id new
    → At pool pool' i new j
    → Fate pool.next_id (slot_at pool j) (slot_at pool' j)
Fate-at pool pool' i j new c (written p e) =
    subst (Fate pool.next_id (slot_at pool j)) (sym e)
      (subst (λ k. Fate pool.next_id (slot_at pool k) new) p (Fate-Change _ _ _ new c))
Fate-at pool pool' i j new c (kept p e) =
    subst (Fate pool.next_id (slot_at pool j)) (sym e) untouched

Moved-Fate :
    {J : Type 0} (pool pool' : Pool J)
    → Moved pool pool'
    → (j : ℕ) → Fate pool.next_id (slot_at pool j) (slot_at pool' j)
Moved-Fate pool _ unmoved j = untouched
Moved-Fate pool pool' (moved i new _ l c e) j =
    Fate-at pool pool' i j new c (at pool pool' i new j l e)

-- A step of a well-formed pool leaves a slot as it is, or takes the same sub-agent from running to done,
-- error or timeout, or from timeout to done or error by a late answer, or else puts the next id into a
-- slot that was not running: no running sub-agent is evicted.
pub Step-Fate :
    {J E : Type 0} (env : Env J E) (pool pool' : Pool J)
    → IsPool pool
    → Step env pool pool'
    → (j : ℕ) → Fate pool.next_id (slot_at pool j) (slot_at pool' j)
Step-Fate env pool pool' v s = Moved-Fate pool pool' (Step-Moved env pool pool' v.coherent s)
