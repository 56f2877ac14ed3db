-- ===== src/Memory/Placed.antt =====
-- Where the loop puts the fact, the search finds it.
use dobby_ai.Base.{
  ◌≡◌, refl, sym, ap, ◌∙◌, inl, inr, true, false, not, ◌&&◌, Bool, some, List, [], ◌∷◌, arith,
  Bytes, All, str_eq, Bool-cases, if◌then◌else◌,
}
use dobby_ai.Text.{cut_at}
use dobby_ai.Memory.{
  bullet_of, is_heading, is_bullet, bullet_key, heading_text, recall_lines, StoreState,
  pass_heading, store_lines,
}
use dobby_ai.Memory.Entry.{IsFact, match_bullet-other}
use dobby_ai.Memory.Recall.{IsFileLine, recall-heading, recall-other, recall-outside, recall-text}
use dobby_ai.Memory.Rounds.{
  Done, Ends, Finds, before-Ends, before-two, entered, fact, fact-IsPiece, fact-found,
  heading-no_bullet, pass-end, pass-on, pass-text, piece, put-copy, put-fact, round, store_end-done,
}

module _ (section key value : Bytes) (f : IsFact key value) where
  -- a round section key value f that puts nothing before the line, when the fact is written
  pub Done-round :
      (l : Bytes) (ls : List Bytes) (st st' : StoreState)
      → IsFileLine section l
      → pass_heading section (bullet_of key value) st l ≡ ([], st')
      → st'.key_written ≡ true
      → ((st : StoreState)
          → st.key_written ≡ true
          → Ends section key value f
              (Done section key value f)
              (store_lines section key (bullet_of key value) ls st))
      → Ends section key value f
          (Done section key value f)
          (store_lines section key (bullet_of key value) (l ∷ ls) st)
  Done-round l ls st st' v p w rest =
      elim (Bool-cases (st'.in_target && (is_bullet l && str_eq (bullet_key l) key))) [
        | inl e ↦
            let st'' : StoreState = record st' { key_written = true } in
            rw
              (round section key value f l ls [] (fact section key value f) st st' st'' p
                (put-fact section key value f st' l e))
              (before-Ends section key value f (Done section key value f) (Done section key value f)
                (fact section key value f) _ (fact-IsPiece section key value f) (rest st'' refl)
                (λ ls s d. d))
        | inr e ↦
            rw
              (round section key value f l ls [] l st st' st' p
                (put-copy section key value f st' l v e))
              (before-Ends section key value f (Done section key value f) (Done section key value f)
                l _ (piece section key value f l v) (rest st' w) (λ ls s d. d))
      ]

  -- Once the fact is written, the other lines follow.
  pub Done-Ends :
      (ls : List Bytes) (st : StoreState)
      → All (IsFileLine section) ls
      → st.key_written ≡ true
      → Ends section key value f
          (Done section key value f)
          (store_lines section key (bullet_of key value) ls st)
  Done-Ends [] st v w = unfold store_lines in rw (store_end-done section key value f st w) (tt, w)
  Done-Ends (l ∷ ls) st (v, vs) w = elim (Bool-cases (is_heading l)) [
    | inl h ↦
        Done-round l ls st (entered section key value f st l st.key_written) v
          (pass-on section key value f st l h (closed st w)) w (λ s d. Done-Ends ls s vs d)
    | inr h ↦
        Done-round l ls st st v (pass-text section key value f st l h) w
          (λ s d. Done-Ends ls s vs d)
  ]
    where
      closed :
          (st : StoreState) → st.key_written ≡ true → (st.in_target && not st.key_written) ≡ false
      closed st w = ground arith

  -- the state before the fact is written
  abbrev pub open_at : Bool → StoreState
  open_at b = record { in_target = b; key_written = false; section_found = b }

  pub if_same : (b : Bool) → (if b then true else false) ≡ b
  if_same true = refl
  if_same false = refl

  pub find-heading :
      (b : Bool) (l : Bytes) (ls : List Bytes)
      → IsFileLine section l
      → All (IsFileLine section) ls
      → is_heading l ≡ true
      → ((b : Bool)
          → Ends section key value f
              (Finds section key value f b)
              (store_lines section key (bullet_of key value) ls (open_at b)))
      → Ends section key value f
          (Finds section key value f b)
          (store_lines section key (bullet_of key value) (l ∷ ls) (open_at b))
  find-heading true l ls v vs h rest =
      let st' : StoreState = entered section key value f (open_at true) l true in
      rw
        (round section key value f l ls (fact section key value f ∷ []) l (open_at true) st' st'
          (pass-end section key value f (open_at true) l h refl)
          (put-copy section key value f st' l v
            (heading-no_bullet section key value f st'.in_target l h)))
        (before-two section key value f (Done section key value f) (Finds section key value f true)
          l _ (piece section key value f l v) (Done-Ends ls st' vs refl)
          (λ ls s. fact-found section key value f (ls)))
  find-heading false l ls v vs h rest =
      let e : Bool = str_eq (cut_at 13 (heading_text l)) section in
      let same : entered section key value f (open_at false) l false ≡ open_at e =
        ap (λ x. record { in_target = e; key_written = false; section_found = x }) (if_same e) in
      rw
        (round section key value f l ls [] l (open_at false) (open_at e) (open_at e)
          (pass-on section key value f (open_at false) l h refl ∙ ap (λ s. ([], s)) same)
          (put-copy section key value f (open_at e) l v
            (heading-no_bullet section key value f e l h)))
        (before-Ends section key value f (Finds section key value f e)
          (Finds section key value f false) l _ (piece section key value f l v) (rest e)
          (λ ls s d.
            recall-heading section (some key) l ls false h
            ∙ ap (recall_lines section (some key) ls) (sym v.agrees)
            ∙ d))

  pub find-text :
      (b : Bool) (l : Bytes) (ls : List Bytes)
      → IsFileLine section l
      → All (IsFileLine section) ls
      → is_heading l ≡ false
      → Ends section key value f
          (Finds section key value f b)
          (store_lines section key (bullet_of key value) ls (open_at b))
      → Ends section key value f
          (Finds section key value f b)
          (store_lines section key (bullet_of key value) (l ∷ ls) (open_at b))
  find-text false l ls v vs h rest =
      rw
        (round section key value f l ls [] l (open_at false) (open_at false) (open_at false)
          (pass-text section key value f (open_at false) l h)
          (put-copy section key value f (open_at false) l v refl))
        (before-Ends section key value f (Finds section key value f false)
          (Finds section key value f false) l _ (piece section key value f l v) rest
          (λ ls s d. recall-outside section (some key) l ls h ∙ d))
  find-text true l ls v vs h rest = elim (Bool-cases (is_bullet l)) [
    | inr t ↦
        rw
          (round section key value f l ls [] l (open_at true) (open_at true) (open_at true)
            (pass-text section key value f (open_at true) l h)
            (put-copy section key value f (open_at true) l v (rw t)))
          (before-Ends section key value f (Finds section key value f true)
            (Finds section key value f true) l _ (piece section key value f l v) rest
            (λ ls s d. recall-text section (some key) l ls h t ∙ d))
    | inl t ↦ elim (Bool-cases (str_eq (bullet_key l) key)) [
      | inl m ↦
          let st'' : StoreState = record (open_at true) { key_written = true } in
          rw
            (round section key value f l ls [] (fact section key value f) (open_at true)
              (open_at true) st'' (pass-text section key value f (open_at true) l h)
              (put-fact section key value f (open_at true) l (rw (t, m))))
            (before-Ends section key value f (Done section key value f)
              (Finds section key value f true) (fact section key value f) _
              (fact-IsPiece section key value f) (Done-Ends ls st'' vs refl)
              (λ ls s d. fact-found section key value f ls))
      | inr m ↦
          rw
            (round section key value f l ls [] l (open_at true) (open_at true) (open_at true)
              (pass-text section key value f (open_at true) l h)
              (put-copy section key value f (open_at true) l v (rw (t, m))))
            (before-Ends section key value f (Finds section key value f true)
              (Finds section key value f true) l _ (piece section key value f l v) rest
              (λ ls s d. recall-other section (some key) l ls h t (match_bullet-other key l m) ∙ d))
    ]
  ]
