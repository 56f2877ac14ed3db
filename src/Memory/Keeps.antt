-- ===== src/Memory/Keeps.antt =====
-- Storing a fact leaves the search for every other key of the section as it was.
use dobby_ai.Base.{
  ◌≡◌, ◌⊎◌, refl, sym, ap, ◌∙◌, subst, inl, inr, true, false, not, ◌&&◌, Bool, Option, none, some,
  List, [], ◌∷◌, ◌++◌, arith, Bytes, codes, All, str_eq, Bool-cases, eq_of_str_eq, if◌then◌else◌,
}
use dobby_ai.Text.{cut_at}
use dobby_ai.Memory.{
  line_of, bullet_of, is_heading, is_bullet, bullet_key, heading_text, match_bullet, Recalled,
  recall_lines, StoreState, store_start, before_lines, store_lines, store_end, split_lines,
  canonicalise_section,
}
use dobby_ai.Memory.Entry.{
  IsFact, bullet-is_heading, bullet-is_bullet, match_bullet-other, bullet_key-fact,
}
use dobby_ai.Memory.Recall.{
  IsFileLine, IsPiece, recall-heading, recall-other, recall-outside, recall-text,
}
use dobby_ai.Memory.Rounds.{
  fact, fact-IsPiece, Ends, before-Ends, entered, heading-no_bullet, pass-end, pass-on, pass-text,
  piece, put-copy, put-fact, round, store_end-done,
}
use dobby_ai.Memory.Placed.{open_at, if_same}
use dobby_ai.Memory.Sections.{IsSection, canonicalise_section-IsSection}
use dobby_ai.Memory.RoundTrip.{
  newline-IsPiece, newline_text, newline_bullet, IsReadable, Recalls, memory_store-Recalls,
}
use dobby_ai.Memory.Files.{read_memory_file, memory_store, memory_recall}

module _ (section key value : Bytes) (c : IsSection section) (f : IsFact key value) (other : Bytes)
    (differs : str_eq key other ≡ false) where
  abbrev search : List Bytes → Bool → Recalled
  search ls b = recall_lines section (some other) ls b

  -- what the line of a text that is no heading makes of the search of the rest
  abbrev line_result : Bool → Bytes → Recalled → Recalled
  line_result b l rest =
      if b && is_bullet l
      then elim (match_bullet (some other) l) [ none ↦ rest | some r ↦ r ]
      else rest

  search-line :
      (l : Bytes) (ls : List Bytes) (b : Bool)
      → is_heading l ≡ false
      → search (l ∷ ls) b ≡ line_result b l (search ls b)
  unfolding recall_lines
  search-line l ls b h = rw h refl

  search-same :
      (l : Bytes) (xs ys : List Bytes) (b : Bool)
      → is_heading l ≡ false
      → search xs b ≡ search ys b
      → search (l ∷ xs) b ≡ search (l ∷ ys) b
  search-same l xs ys b h e =
      search-line l xs b h ∙ ap (line_result b l) e ∙ sym (search-line l ys b h)

  -- a fact of the stored key is passed over
  search-skip :
      (l : Bytes) (ls : List Bytes)
      → is_heading l ≡ false
      → is_bullet l ≡ true
      → bullet_key l ≡ key
      → search (l ∷ ls) true ≡ search ls true
  search-skip l ls h b k =
      recall-other section (some other) l ls h b
        (match_bullet-other other l (ap (λ x. str_eq x other) k ∙ differs))

  search-fact : (ls : List Bytes) → search (fact section key value f ∷ ls) true ≡ search ls true
  search-fact ls =
      search-skip (fact section key value f) ls (bullet-is_heading key value f)
        (bullet-is_bullet key value f) (bullet_key-fact key value f)

  search-heading :
      (l : Bytes) (xs ys : List Bytes) (b : Bool)
      → IsFileLine section l
      → is_heading l ≡ true
      → search xs (str_eq (cut_at 13 (heading_text l)) section)
        ≡ search ys (str_eq (cut_at 13 (heading_text l)) section)
      → search (l ∷ xs) b ≡ search (l ∷ ys) b
  search-heading l xs ys b v h e =
      recall-heading section (some other) l xs b h
      ∙ subst (λ d. search xs d ≡ search ys d) v.agrees e
      ∙ sym (recall-heading section (some other) l ys b h)

  abbrev Keeps : List Bytes → Bool → List Bytes → StoreState → Type 0
  Keeps ls b out st = search out b ≡ search ls b

  abbrev KeepsAll : List Bytes → StoreState → Type 0
  KeepsAll ls st =
      Ends section key value f (Keeps ls st.in_target)
        (store_lines section key (bullet_of key value) ls st)

  -- The states that the loop goes through.
  abbrev Good : StoreState → Type 0
  Good st = (st.key_written ≡ true) ⊎ (st ≡ open_at section key value f st.in_target)

  before-both :
      (P Q : List Bytes → StoreState → Type 0) (l : Bytes) (o : Option (List Bytes × StoreState))
      → IsPiece section l
      → Ends section key value f P o
      → ((ls : List Bytes) (st : StoreState) → P ls st → Q (fact section key value f ∷ l ∷ ls) st)
      → Ends section key value f Q (before_lines (fact section key value f ∷ []) l o)
  before-both P Q l none p e k = elim e [ ]
  before-both P Q l (some (ls, st)) p (ps, e) k =
      ((fact-IsPiece section key value f, (p, ps)), k _ st e)

  entered-Good :
      (st : StoreState) (l : Bytes)
      → Good st
      → (st.in_target && not st.key_written) ≡ false
      → Good (entered section key value f st l st.key_written)
  entered-Good st l (inl w) e = inl w
  entered-Good st l (inr o) e = inr (
      ap
        (λ x. record {
          in_target = enters;
          key_written = x;
          section_found = if enters then true else st.section_found;
        })
        (ap (λ s. s.key_written) o)
      ∙ ap
          (λ y. record {
            in_target = enters;
            key_written = false;
            section_found = if enters then true else y;
          })
          (ap (λ s. s.section_found) o ∙ outside (ap (λ s. s.key_written) o))
      ∙ ap (λ z. record { in_target = enters; key_written = false; section_found = z })
          (if_same section key value f enters))
    where
      enters : Bool
      enters = str_eq (cut_at 13 (heading_text l)) section

      outside : st.key_written ≡ false → st.in_target ≡ false
      outside w = ground arith

  done-nil : (st : StoreState) → st.key_written ≡ true → KeepsAll [] st
  unfolding store_lines
  done-nil st w = rw (store_end-done section key value f st w) (tt, refl)

  open-nil : (b : Bool) → KeepsAll [] (open_at section key value f b)
  unfolding store_lines store_end
  open-nil true = ((fact-IsPiece section key value f, tt), search-fact [])
  open-nil false = (
    (
      newline-IsPiece section key value c f,
      (c.heading, (newline-IsPiece section key value c f, (fact-IsPiece section key value f, tt))),
    ),
    recall-outside section (some other) (10 ∷ []) _ (newline_text section key value c f)
        ∙ recall-heading section (some other) (line_of (codes "## " ++ section)) _ false c.is_one
        ∙ ap (search ((10 ∷ []) ∷ fact section key value f ∷ [])) c.reads
        ∙ recall-text section (some other) (10 ∷ []) _ (newline_text section key value c f)
            (newline_bullet section key value c f)
        ∙ search-fact []
        ∙ nothing,
  )
    where
      nothing : search [] true ≡ search [] false
      nothing = unfold recall_lines in refl

  keep-nil : (st : StoreState) → Good st → KeepsAll [] st
  keep-nil st (inl w) = done-nil st w
  keep-nil st (inr o) = subst (KeepsAll []) (sym o) (open-nil st.in_target)

  ends_section :
      (st : StoreState) → (st.in_target && not st.key_written) ≡ true → st.in_target ≡ true
  ends_section st e = ground arith

  before_heading :
      (l : Bytes) (out ls : List Bytes) (st : StoreState)
      → IsFileLine section l
      → is_heading l ≡ true
      → st.in_target ≡ true
      → search out (str_eq (cut_at 13 (heading_text l)) section)
        ≡ search ls (str_eq (cut_at 13 (heading_text l)) section)
      → search (fact section key value f ∷ l ∷ out) st.in_target ≡ search (l ∷ ls) st.in_target
  before_heading l out ls st v h t d =
      subst (λ b. search (fact section key value f ∷ l ∷ out) b ≡ search (l ∷ ls) b) (sym t)
        (search-fact (l ∷ out) ∙ search-heading l out ls true v h d)

  replaced :
      (l : Bytes) (out ls : List Bytes) (st : StoreState)
      → is_heading l ≡ false
      → (st.in_target && (is_bullet l && str_eq (bullet_key l) key)) ≡ true
      → search out st.in_target ≡ search ls st.in_target
      → search (fact section key value f ∷ out) st.in_target ≡ search (l ∷ ls) st.in_target
  replaced l out ls st h e d =
      subst (λ b. search (fact section key value f ∷ out) b ≡ search (l ∷ ls) b) (sym inside)
        (search-fact out
          ∙ subst (λ b. search out b ≡ search ls b) inside d
          ∙ sym (search-skip l ls h a_bullet (eq_of_str_eq (bullet_key l) key same_key)))
    where
      inside : st.in_target ≡ true
      inside = ground arith

      a_bullet : is_bullet l ≡ true
      a_bullet = ground arith

      same_key : str_eq (bullet_key l) key ≡ true
      same_key = ground arith

  keep-heading :
      (l : Bytes) (ls : List Bytes) (st : StoreState)
      → IsFileLine section l
      → is_heading l ≡ true
      → Good st
      → ((st : StoreState) → Good st → KeepsAll ls st)
      → KeepsAll (l ∷ ls) st
  keep-heading l ls st v h g rest = elim (Bool-cases (st.in_target && not st.key_written)) [
    | inl e ↦
        let st' : StoreState = entered section key value f st l true in
        rw
          (round section key value f l ls (fact section key value f ∷ []) l st st' st'
            (pass-end section key value f st l h e)
            (put-copy section key value f st' l v
              (heading-no_bullet section key value f st'.in_target l h)))
          (before-both (Keeps ls st'.in_target) (Keeps (l ∷ ls) st.in_target) l _
            (piece section key value f l v) (rest st' (inl refl))
            (λ out s d. before_heading l out ls st v h (ends_section st e) d))
    | inr e ↦
        let st' : StoreState = entered section key value f st l st.key_written in
        rw
          (round section key value f l ls [] l st st' st' (pass-on section key value f st l h e) (
            put-copy section key value f st' l v
              (heading-no_bullet section key value f st'.in_target l h)))
          (before-Ends section key value f (Keeps ls st'.in_target) (Keeps (l ∷ ls) st.in_target) l
            _ (piece section key value f l v) (rest st' (entered-Good st l g e))
            (λ out s d. search-heading l out ls st.in_target v h d))
  ]

  keep-text :
      (l : Bytes) (ls : List Bytes) (st : StoreState)
      → IsFileLine section l
      → is_heading l ≡ false
      → Good st
      → ((st : StoreState) → Good st → KeepsAll ls st)
      → KeepsAll (l ∷ ls) st
  keep-text l ls st v h g rest =
      elim (Bool-cases (st.in_target && (is_bullet l && str_eq (bullet_key l) key))) [
        | inl e ↦
            let st'' : StoreState = record st { key_written = true } in
            rw
              (round section key value f l ls [] (fact section key value f) st st st''
                (pass-text section key value f st l h) (put-fact section key value f st l e))
              (before-Ends section key value f (Keeps ls st.in_target) (Keeps (l ∷ ls) st.in_target)
                (fact section key value f) _ (fact-IsPiece section key value f)
                (rest st'' (inl refl)) (λ out s d. replaced l out ls st h e d))
        | inr e ↦
            rw
              (round section key value f l ls [] l st st st (pass-text section key value f st l h)
                (put-copy section key value f st l v e))
              (before-Ends section key value f (Keeps ls st.in_target) (Keeps (l ∷ ls) st.in_target)
                l _ (piece section key value f l v) (rest st g)
                (λ out s d. search-same l out ls st.in_target h d))
      ]

  keep-Ends :
      (ls : List Bytes) (st : StoreState) → All (IsFileLine section) ls → Good st → KeepsAll ls st
  keep-Ends [] st v g = keep-nil st g
  keep-Ends (l ∷ ls) st (v, vs) g = elim (Bool-cases (is_heading l)) [
    | inl h ↦ keep-heading l ls st v h g (λ s d. keep-Ends ls s vs d)
    | inr h ↦ keep-text l ls st v h g (λ s d. keep-Ends ls s vs d)
  ]

-- Storing a fact under the conditions of memory_recall-memory_store succeeds and leaves what
-- memory_recall gives for every other key in the same category as it was.
pub memory_recall-other :
    (category : Option Bytes) (key value other : Bytes) (file : Option Bytes)
    → IsFact key value
    → str_eq key other ≡ false
    → All (IsFileLine (canonicalise_section category)) (split_lines (read_memory_file file))
    → IsReadable (memory_store true category (some key) (some value) file)
    → Recalls category other
        (memory_recall category (some other) file)
        (memory_store true category (some key) (some value) file)
unfolding memory_recall
memory_recall-other category key value other file f differs v small =
    memory_store-Recalls category key value file f other _ small (
      keep-Ends (canonicalise_section category) key value (canonicalise_section-IsSection category)
        f other differs (split_lines (read_memory_file file)) store_start v (inr refl))
