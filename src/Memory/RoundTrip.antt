-- ===== src/Memory/RoundTrip.antt =====
-- A fact that has been stored in the file is recalled from it.
use dobby_ai.Base.{
  All-weaken, ◌≤◌, ◌≡◌, refl, sym, ap, ◌∙◌, subst, inl, inr, true, false, Bool, Option, none, some,
  List, [], ◌∷◌, ◌++◌, arith, Bytes, codes, All, ltb, length, is_empty, Bool-cases,
}
use dobby_ai.Text.{is_prefix, cut_at}
use dobby_ai.Memory.{
  Recalled, line_of, bullet_of, is_heading, value_of, recall_lines, StoreState, store_start,
  store_lines, store_end, store_text, split_lines, join_lines, canonicalise_section,
}
use dobby_ai.Memory.Lines.{whole, split-join_lines, join-append, Avoids-join, cut_at-Avoids}
use dobby_ai.Memory.Entry.{IsFact}
use dobby_ai.Memory.Sections.{IsSection, canonicalise_section-IsSection}
use dobby_ai.Memory.Recall.{IsFileLine, IsPiece, recall-outside, recall-text, recall-heading}
use dobby_ai.Memory.Rounds.{fact, fact-IsPiece, fact-found, Ends, Finds}
use dobby_ai.Memory.Placed.{open_at, find-heading, find-text}
use dobby_ai.Memory.Files.{
  read_memory_file, memory_store, store_entry, write_memory_file, memory_recall, stored,
  StoreResult, max_file_size,
}

module _ (section key value : Bytes) (c : IsSection section) (f : IsFact key value) where
  pub newline-IsPiece : IsPiece section (10 ∷ [])
  newline-IsPiece = (whole [] tt, (refl, tt))

  pub newline_text : is_heading (10 ∷ []) ≡ false
  newline_text = unfold is_prefix in refl

  pub newline_bullet : is_prefix (codes "- ") (10 ∷ []) ≡ false
  newline_bullet = unfold is_prefix in refl

  new_section-found :
      recall_lines section
        (some key)
        ((10 ∷ []) ∷ line_of (codes "## " ++ section) ∷ (10 ∷ []) ∷ fact section key value f ∷ [])
        false
      ≡ value_of value
  new_section-found =
      recall-outside section (some key) (10 ∷ []) _ newline_text
      ∙ recall-heading section (some key) (line_of (codes "## " ++ section)) _ false c.is_one
      ∙ ap (recall_lines section (some key) ((10 ∷ []) ∷ fact section key value f ∷ [])) c.reads
      ∙ recall-text section (some key) (10 ∷ []) _ newline_text newline_bullet
      ∙ fact-found section key value f []

  pub find-nil :
      (b : Bool)
      → Ends section key value f
          (Finds section key value f b)
          (store_lines section key (bullet_of key value) [] (open_at section key value f b))
  unfolding store_lines store_end
  find-nil true = ((fact-IsPiece section key value f, tt), fact-found section key value f [])
  find-nil false = (
    (newline-IsPiece, (c.heading, (newline-IsPiece, (fact-IsPiece section key value f, tt)))),
    new_section-found,
  )

  find-Ends :
      (ls : List Bytes) (b : Bool)
      → All (IsFileLine section) ls
      → Ends section key value f
          (Finds section key value f b)
          (store_lines section key (bullet_of key value) ls (open_at section key value f b))
  find-Ends [] b v = find-nil b
  find-Ends (l ∷ ls) b (v, vs) = elim (Bool-cases (is_heading l)) [
    | inl h ↦ find-heading section key value f b l ls v vs h (λ d. find-Ends ls d vs)
    | inr h ↦ find-text section key value f b l ls v vs h (find-Ends ls b vs)
  ]

  abbrev texts : Option (List Bytes × StoreState) → Option Bytes
  texts none = none
  texts (some (ls, st)) =
      some (join_lines ls ++ join_lines (store_end section (bullet_of key value) st))

  store_text-texts :
      (content : Bytes)
      → store_text section key (bullet_of key value) content
        ≡ texts (store_lines section key (bullet_of key value) (split_lines content) store_start)
  unfolding store_text
  store_text-texts content = ground arith

  -- the text that was written, and what the search finds in it
  abbrev pub Written : Bytes → Recalled → Option Bytes → Type 0
  Written asked r none = ⊥
  Written asked r (some content) =
      (cut_at 0 content ≡ content)
      × (recall_lines section (some asked) (split_lines content) false ≡ r)

  -- What the loop leaves is pieces, in which the search gives `r`.
  abbrev pub Leaves : Bytes → Recalled → Option (List Bytes × StoreState) → Type 0
  Leaves asked r =
      Ends section key value f (λ ls st. recall_lines section (some asked) ls false ≡ r)

  join_both :
      (ls : List Bytes) (st : StoreState)
      → join_lines ls ++ join_lines (store_end section (bullet_of key value) st)
        ≡ join_lines (ls ++ store_end section (bullet_of key value) st)
  join_both ls st = sym (join-append ls (store_end section (bullet_of key value) st))

  pieces-Written :
      (asked : Bytes) (r : Recalled) (pieces : List Bytes)
      → All (IsPiece section) pieces
      → recall_lines section (some asked) pieces false ≡ r
      → Written asked r (some (join_lines pieces))
  pieces-Written asked r pieces a found = (
    cut_at-Avoids 0 (join_lines pieces) (Avoids-join 0 pieces (All-weaken pieces (λ l p. p.1) a)),
    ap (λ ls. recall_lines section (some asked) ls false)
          (split-join_lines pieces (All-weaken pieces (λ l p. p.0) a))
        ∙ found,
  )

  texts-Written :
      (asked : Bytes) (r : Recalled) (o : Option (List Bytes × StoreState))
      → Leaves asked r o
      → Written asked r (texts o)
  texts-Written asked r none e = elim e [ ]
  texts-Written asked r (some (ls, st)) (pieces, found) =
      subst (λ t. Written asked r (some t)) (sym (join_both ls st))
        (pieces-Written asked r _ pieces found)

  pub store_text-Written :
      (asked : Bytes) (r : Recalled) (content : Bytes)
      → Leaves asked r
          (store_lines section key (bullet_of key value) (split_lines content) store_start)
      → Written asked r (store_text section key (bullet_of key value) content)
  store_text-Written asked r content e =
      subst (Written asked r) (sym (store_text-texts content)) (texts-Written asked r _ e)

-- the file that memory_store leaves is one the next read takes
abbrev pub IsReadable : Option (StoreResult × Option Bytes) → Type 0
IsReadable none = Unit
IsReadable (some (result, none)) = Unit
IsReadable (some (result, some bytes)) = length bytes ≤ max_file_size

abbrev pub Recalls : Option Bytes → Bytes → Recalled → Option (StoreResult × Option Bytes) → Type 0
Recalls category asked r none = ⊥
Recalls category asked r (some (result, file)) =
    (result ≡ stored) × (memory_recall category (some asked) file ≡ r)

abbrev pub after : Option Bytes → Option (StoreResult × Option Bytes)
after none = none
after (some content) = some (stored, some (cut_at 0 content))

abbrev pub new_text : Option Bytes → Bytes → Bytes → Option Bytes → Option Bytes
new_text category key value file =
    store_text (canonicalise_section category) key (bullet_of key value) (read_memory_file file)

pub memory_store-after :
    (category : Option Bytes) (key value : Bytes) (file : Option Bytes)
    → is_empty key ≡ false
    → memory_store true category (some key) (some value) file
      ≡ after (new_text category key value file)
unfolding memory_store store_entry write_memory_file
memory_store-after category key value file h = rw h (written (new_text category key value file))
  where
    written :
        (o : Option Bytes)
        → elim o [ none ↦ none | some content ↦ some (write_memory_file true file content) ]
          ≡ after o
    written none = refl
    written (some content) = refl

pub read-small :
    (bytes : Bytes) → length bytes ≤ max_file_size → read_memory_file (some bytes) ≡ cut_at 0 bytes
unfolding read_memory_file
read-small bytes h = let e : ltb max_file_size (length bytes) ≡ false = ground arith in rw e

after-Recalls :
    (category : Option Bytes) (key value : Bytes) (f : IsFact key value) (asked : Bytes)
    (r : Recalled) (o : Option Bytes)
    → Written
        (canonicalise_section category)
        key
        value
        (canonicalise_section-IsSection category)
        f
        asked
        r
        o
    → IsReadable (after o)
    → Recalls category asked r (after o)
unfolding memory_recall
after-Recalls category key value f asked r none w small = elim w [ ]
after-Recalls category key value f asked r (some content) (same, found) small = (
  refl,
  ap (λ t. recall_lines (canonicalise_section category) (some asked) (split_lines t) false) read
      ∙ found,
)
  where
    read : read_memory_file (some (cut_at 0 content)) ≡ content
    read = read-small (cut_at 0 content) small ∙ ap (cut_at 0) same ∙ same

pub memory_store-Recalls :
    (category : Option Bytes) (key value : Bytes) (file : Option Bytes) (f : IsFact key value)
    (asked : Bytes) (r : Recalled)
    → IsReadable (memory_store true category (some key) (some value) file)
    → Leaves
        (canonicalise_section category)
        key
        value
        (canonicalise_section-IsSection category)
        f
        asked
        r
        (store_lines
          (canonicalise_section category)
          key
          (bullet_of key value)
          (split_lines (read_memory_file file))
          store_start)
    → Recalls category asked r (memory_store true category (some key) (some value) file)
memory_store-Recalls category key value file f asked r small l =
    let e : memory_store true category (some key) (some value) file
        ≡ after (new_text category key value file) =
      memory_store-after category key value file f.key_given in
    subst (Recalls category asked r) (sym e) (
      after-Recalls category key value f asked r (new_text category key value file)
        (store_text-Written (canonicalise_section category) key value
          (canonicalise_section-IsSection category) f asked r (read_memory_file file) l)
        (subst IsReadable e small))

-- Storing a trimmed key without a colon and a trimmed value, of fewer than 512 and at most 509 bytes
-- and on one line each, succeeds where the file can be written, and recalling the key
-- in the same category then gives the value, when the lines of the file are whole, of at most 2047
-- bytes, with headings that both functions read alike, and the new file is at most 256 KB.
pub memory_recall-memory_store :
    (category : Option Bytes) (key value : Bytes) (file : Option Bytes)
    → IsFact key value
    → All (IsFileLine (canonicalise_section category)) (split_lines (read_memory_file file))
    → IsReadable (memory_store true category (some key) (some value) file)
    → Recalls category key
        (value_of value)
        (memory_store true category (some key) (some value) file)
memory_recall-memory_store category key value file f v small =
    memory_store-Recalls category key value file f key (value_of value) small (
      find-Ends (canonicalise_section category) key value (canonicalise_section-IsSection category)
        f (split_lines (read_memory_file file)) false v)
