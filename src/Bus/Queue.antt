-- ===== src/Bus/Queue.antt =====
-- The ring is a queue: a push puts the item behind the others, a pop takes the oldest.
use dobby_ai.Base.{
  ℕ, zero, suc, ◌+◌, ◌-◌, ◌%◌, ◌≤◌, ◌<◌, ◌≡◌, ◌≢◌, refl, sym, ap, ap₂, ◌∙◌, inl, inr, Bool-cases,
  Bool, true, false, Option, none, some, List, [], ◌∷◌, ◌++◌, arith, leb, ◌==◌, length, length-set,
  length-append, length-replicate, get_or, set, get_or-set_self, get_or-set_ne,
}
use dobby_ai.Bus.{
  bus_queue_depth, Bq, Push, push_waits, rejected, pushed, Pop, pop_waits, drained, popped, bq_init,
  q_push, q_pop,
}

suc_of_ne_zero : (n : ℕ) → (n == 0) ≡ false → (m : ℕ) × (n ≡ suc m)
suc_of_ne_zero zero h = absurd (ground arith)
suc_of_ne_zero (suc n) h = (n, refl)

module _ {A : Type 0} where
  pub record IsValid (q : Bq A) : Type 0 where
    pub sized : length q.items ≡ bus_queue_depth
    pub head_in : q.head < bus_queue_depth
    pub bounded : q.count ≤ bus_queue_depth
    pub tail_at : q.tail ≡ (q.head + q.count) % bus_queue_depth

  -- the `n` places from `h` on, going round the ring
  abbrev pub slice : List (Option A) → ℕ → ℕ → List (Option A)
  slice items h zero = []
  slice items h (suc n) = slice items h n ++ (get_or items ((h + n) % bus_queue_depth) none ∷ [])

  -- what the queue holds, the oldest first
  abbrev pub contents : Bq A → List (Option A)
  contents q = slice q.items q.head q.count

  length-slice : (items : List (Option A)) (h n : ℕ) → length (slice items h n) ≡ n
  length-slice items h zero = refl
  length-slice items h (suc n) = omega (
    arith,
    length-slice items h n,
    length-append (slice items h n) (get_or items ((h + n) % bus_queue_depth) none ∷ []),
  )

  -- a write outside of the slice
  slice-set :
      (items : List (Option A)) (h n i : ℕ) (v : Option A)
      → ((k : ℕ) → k < n → i ≢ (h + k) % bus_queue_depth)
      → slice (set items i v) h n ≡ slice items h n
  slice-set items h zero i v apart = refl
  slice-set items h (suc n) i v apart = rw (
    slice-set items h n i v (λ k lt. apart k (omega arith)),
    get_or-set_ne items i ((h + n) % bus_queue_depth) v none (apart n (omega arith)),
  )

  -- the first place, and the rest of the slice
  slice-first :
      (items : List (Option A)) (h n : ℕ)
      → h < bus_queue_depth
      → slice items h (suc n) ≡ get_or items h none ∷ slice items ((h + 1) % bus_queue_depth) n
  slice-first items h zero lt = ap (λ i. get_or items i none ∷ []) (omega arith)
  slice-first items h (suc n) lt =
      let e : (h + suc n) % bus_queue_depth ≡ ((h + 1) % bus_queue_depth + n) % bus_queue_depth =
        omega arith in
      rw (slice-first items h n lt, e)

  pub init-IsValid : IsValid bq_init
  unfolding bq_init
  init-IsValid = record {
    sized = length-replicate bus_queue_depth nothing;
    head_in = omega arith;
    bounded = omega arith;
    tail_at = omega arith;
  }
    where
      nothing : Option A
      nothing = none

  -- the queue after an accepted push
  abbrev after : Bq A → A → Bq A
  after q item = record q {
    items = set q.items q.tail (some item);
    tail = (q.tail + 1) % bus_queue_depth;
    count = q.count + 1;
  }

  after-IsValid :
      (q : Bq A) (item : A) → IsValid q → q.count < bus_queue_depth → IsValid (after q item)
  after-IsValid q item v less = record {
    sized = length-set q.items q.tail (some item) ∙ v.sized;
    head_in = v.head_in;
    bounded = omega arith;
    tail_at = omega (arith, v.tail_at);
  }

  slice-suc :
      (items : List (Option A)) (h n m : ℕ)
      → m ≡ suc n
      → slice items h m ≡ slice items h n ++ (get_or items ((h + n) % bus_queue_depth) none ∷ [])
  slice-suc items h n m e = ap (slice items h) e

  after-contents :
      (q : Bq A) (item : A)
      → IsValid q
      → q.count < bus_queue_depth
      → contents (after q item) ≡ contents q ++ (some item ∷ [])
  after-contents q item v less =
      slice-suc (set q.items q.tail (some item)) q.head q.count (q.count + 1) (omega arith)
      ∙ ap₂ (λ xs x. xs ++ (x ∷ []))
          (slice-set q.items q.head q.count q.tail (some item)
            (λ k lt e. absurd (omega (arith, v.tail_at, v.head_in))))
          (ap (λ i. get_or (set q.items q.tail (some item)) i none) (sym v.tail_at)
            ∙ get_or-set_self q.items q.tail (some item) none (omega (arith, v.sized, v.tail_at)))

  -- What a push may answer.
  pub data PushSpec (q : Bq A) (item : A) (shut_down : Bool) : Push A → Type 0 where
    full : q.count ≡ bus_queue_depth → shut_down ≡ false → PushSpec q item shut_down push_waits
    closed : shut_down ≡ true → PushSpec q item shut_down rejected
    room :
        (q' : Bq A)
        → q.count < bus_queue_depth
        → shut_down ≡ false
        → IsValid q'
        → contents q' ≡ contents q ++ (some item ∷ [])
        → PushSpec q item shut_down (pushed q')

  -- A push waits exactly at a full open queue, is rejected exactly after the shutdown, and
  -- otherwise puts the item behind those that the queue holds.
  pub q_push-PushSpec :
      (q : Bq A) (item : A) (shut_down : Bool)
      → IsValid q
      → PushSpec q item shut_down (q_push q item shut_down)
  unfolding q_push
  q_push-PushSpec q item true v = elim (Bool-cases (leb bus_queue_depth q.count)) [
    | inl f ↦ rw f (closed refl)
    | inr f ↦ rw f (closed refl)
  ]
  q_push-PushSpec q item false v = elim (Bool-cases (leb bus_queue_depth q.count)) [
    | inl f ↦ rw f (full (ground arith) refl)
    | inr f ↦
        let less : q.count < bus_queue_depth = ground arith in
        rw f (
          room (after q item) less refl (after-IsValid q item v less)
            (after-contents q item v less))
  ]

  pub data PopSpec (q : Bq A) (shut_down : Bool) : Pop A → Type 0 where
    empty : q.count ≡ 0 → shut_down ≡ false → PopSpec q shut_down pop_waits
    ended : q.count ≡ 0 → shut_down ≡ true → PopSpec q shut_down drained
    oldest :
        (item : Option A) (q' : Bq A)
        → IsValid q'
        → contents q ≡ item ∷ contents q'
        → PopSpec q shut_down (popped item q')

  pop-at :
      (q : Bq A) (n : ℕ) (b : Bool)
      → IsValid q
      → q.count ≡ suc n
      → PopSpec q b (
          popped
            (get_or q.items q.head none)
            (record q { head = (q.head + 1) % bus_queue_depth; count = q.count - 1 }))
  pop-at q n b v e =
      oldest _ _
        (record {
          sized = v.sized;
          head_in = omega arith;
          bounded = omega (arith, v.bounded);
          tail_at = omega (arith, v.tail_at, v.bounded);
        })
        (let less : n ≡ q.count - 1 = omega (arith, e) in
          ap (slice q.items q.head) e
          ∙ slice-first q.items q.head n v.head_in
          ∙ ap (λ k. get_or q.items q.head none ∷ slice q.items ((q.head + 1) % bus_queue_depth) k)
              less)

  -- A pop waits exactly at an empty open queue, answers with the null pointer exactly at an empty
  -- queue after the shutdown, and otherwise takes the oldest item: what is published before the
  -- shutdown can still be consumed after it.
  pub q_pop-PopSpec :
      (q : Bq A) (shut_down : Bool) → IsValid q → PopSpec q shut_down (q_pop q shut_down)
  unfolding q_pop
  q_pop-PopSpec q b v = elim (Bool-cases (q.count == 0)) [
    | inl z ↦ at_zero b z
    | inr nz ↦ let (n, e) = suc_of_ne_zero q.count nz in rw nz (pop-at q n b v e)
  ]
    where
      at_zero : (b : Bool) → (q.count == 0) ≡ true → PopSpec q b (q_pop q b)
      at_zero true z = rw z (ended (ground arith) refl)
      at_zero false z = rw z (empty (ground arith) refl)
