-- ===== src/Memory/Rounds.antt =====
-- The rounds of the loop that stores a fact.
use dobby_ai.Base.{
  ◌≡◌, refl, ap, ◌∙◌, true, false, not, ◌&&◌, Bool, Option, none, some, List, [], ◌∷◌, ◌++◌, arith,
  Bytes, All, str_eq, if◌then◌else◌,
}
use dobby_ai.Text.{cut_at}
use dobby_ai.Memory.{
  linebuf, line_of, bullet_of, is_heading, is_bullet, bullet_key, heading_text, value_of,
  recall_lines, StoreState, pass_heading, put_line, before_lines, store_lines, store_end,
}
use dobby_ai.Memory.Entry.{
  IsFact, bullet-IsLine, bullet-no_zero, bullet-is_heading, bullet-is_bullet, match-bullet,
}
use dobby_ai.Memory.Recall.{IsFileLine, IsPiece, copy-line, prefix-other, recall-hit}

module _ (section key value : Bytes) (f : IsFact key value) where
  abbrev pub fact : Bytes
  fact = line_of (bullet_of key value)

  pub fact-IsPiece : IsPiece section fact
  fact-IsPiece = (bullet-IsLine key value f, bullet-no_zero key value f)

  pub fact-found :
      (ls : List Bytes) → recall_lines section (some key) (fact ∷ ls) true ≡ value_of value
  fact-found ls =
      recall-hit section (some key) fact ls (value_of value) (bullet-is_heading key value f)
        (bullet-is_bullet key value f) (match-bullet key value f)

  abbrev pub then_put :
      List Bytes → List Bytes → Option (Bytes × StoreState) → Option (List Bytes × StoreState)
  then_put pre ls none = none
  then_put pre ls (some (l, st)) =
      before_lines pre l (store_lines section key (bullet_of key value) ls st)

  pub store-cons :
      (l : Bytes) (ls : List Bytes) (st : StoreState)
      → let (pre, st') = pass_heading section (bullet_of key value) st l in
        store_lines section key (bullet_of key value) (l ∷ ls) st
        ≡ then_put pre ls (put_line key (bullet_of key value) st' l)
  unfolding store_lines
  store-cons l ls st = ground arith

  -- What the rest of the loop has to give, after `done` was put out: pieces, and behind them the end.
  abbrev pub Ends : (List Bytes → StoreState → Type 0) → Option (List Bytes × StoreState) → Type 0
  Ends P none = ⊥
  Ends P (some (ls, st)) =
      All (IsPiece section) (ls ++ store_end section (bullet_of key value) st)
      × P (ls ++ store_end section (bullet_of key value) st) st

  abbrev pub Done : List Bytes → StoreState → Type 0
  Done ls st = st.key_written ≡ true

  abbrev pub Finds : Bool → List Bytes → StoreState → Type 0
  Finds b ls st = recall_lines section (some key) ls b ≡ value_of value

  pub before-Ends :
      (P Q : List Bytes → StoreState → Type 0) (l : Bytes) (o : Option (List Bytes × StoreState))
      → IsPiece section l
      → Ends P o
      → ((ls : List Bytes) (st : StoreState) → P ls st → Q (l ∷ ls) st)
      → Ends Q (before_lines [] l o)
  before-Ends P Q l none p e k = elim e [ ]
  before-Ends P Q l (some (ls, st)) p (ps, e) k = ((p, ps), k _ st e)

  pub before-two :
      (P Q : List Bytes → StoreState → Type 0) (l : Bytes) (o : Option (List Bytes × StoreState))
      → IsPiece section l
      → Ends P o
      → ((ls : List Bytes) (st : StoreState) → Q (fact ∷ ls) st)
      → Ends Q (before_lines (fact ∷ []) l o)
  before-two P Q l none p e k = elim e [ ]
  before-two P Q l (some (ls, st)) p (ps, e) k = ((fact-IsPiece, (p, ps)), k _ st)

  pub put-copy :
      (st : StoreState) (l : Bytes)
      → IsFileLine section l
      → (st.in_target && (is_bullet l && str_eq (bullet_key l) key)) ≡ false
      → put_line key (bullet_of key value) st l ≡ some (l, st)
  unfolding put_line
  put-copy st l v e = rw (e, copy-line section l v.fits)

  pub put-fact :
      (st : StoreState) (l : Bytes)
      → (st.in_target && (is_bullet l && str_eq (bullet_key l) key)) ≡ true
      → put_line key (bullet_of key value) st l ≡ some (fact, record st { key_written = true })
  unfolding put_line
  put-fact st l e = rw e

  pub pass-text :
      (st : StoreState) (l : Bytes)
      → is_heading l ≡ false
      → pass_heading section (bullet_of key value) st l ≡ ([], st)
  unfolding pass_heading
  pass-text st l h = rw h

  abbrev pub entered : StoreState → Bytes → Bool → StoreState
  entered st l written =
      let enters = str_eq (cut_at 13 (heading_text l)) section in
      record {
        in_target = enters;
        key_written = written;
        section_found = if enters then true else st.section_found;
      }

  pub pass-on :
      (st : StoreState) (l : Bytes)
      → is_heading l ≡ true
      → (st.in_target && not st.key_written) ≡ false
      → pass_heading section (bullet_of key value) st l ≡ ([], entered st l st.key_written)
  unfolding pass_heading
  pass-on st l h e = rw (h, e)

  pub pass-end :
      (st : StoreState) (l : Bytes)
      → is_heading l ≡ true
      → (st.in_target && not st.key_written) ≡ true
      → pass_heading section (bullet_of key value) st l ≡ (fact ∷ [], entered st l true)
  unfolding pass_heading
  pass-end st l h e = rw (h, e)

  -- the loop at a line, by what the two parts of a round give
  pub round :
      (l : Bytes) (ls pre : List Bytes) (out : Bytes) (st st' st'' : StoreState)
      → pass_heading section (bullet_of key value) st l ≡ (pre, st')
      → put_line key (bullet_of key value) st' l ≡ some (out, st'')
      → store_lines section key (bullet_of key value) (l ∷ ls) st
        ≡ before_lines pre out (store_lines section key (bullet_of key value) ls st'')
  round l ls pre out st st' st'' p q =
      store-cons l ls st
      ∙ ap (λ x. then_put x.0 ls (put_line key (bullet_of key value) x.1 l)) p
      ∙ ap (then_put pre ls) q

  pub heading-no_bullet :
      (b : Bool) (l : Bytes)
      → is_heading l ≡ true
      → (b && (is_bullet l && str_eq (bullet_key l) key)) ≡ false
  heading-no_bullet b l h = rw (prefix-other section (linebuf l) h) (and_false b)
    where
      and_false : (b : Bool) → b && false ≡ false
      and_false true = refl
      and_false false = refl

  pub piece : (l : Bytes) → IsFileLine section l → IsPiece section l
  piece l v = (v.is_line, v.no_zero)

  pub store_end-done :
      (st : StoreState) → st.key_written ≡ true → store_end section (bullet_of key value) st ≡ []
  unfolding store_end
  store_end-done st w = rw w
