-- ===== src/Memory/Recall.antt =====
-- A fact that has been stored is recalled.
use dobby_ai.Base.{
  ◌≤◌, ◌≡◌, true, false, Bool, Option, none, some, List, [], ◌∷◌, arith, Bytes, codes, leb, length,
  str_eq,
}
use dobby_ai.Text.{str_trim, is_prefix, cut_at}
use dobby_ai.Text.Search.{Avoids}
use dobby_ai.Memory.{
  line_cap, is_heading, is_bullet, heading_text, copy_line, match_bullet, Recalled, recall_lines,
}
use dobby_ai.Memory.Lines.{IsLine}

module _ (section : Bytes) where
  -- A line of the file: whole, short enough for the buffer, and if it is a heading, then the store's
  -- and the search's reading of it agree on whether it is the section's.
  pub record IsFileLine (l : Bytes) : Type 0 where
    pub is_line : IsLine l
    pub fits : length l ≤ line_cap
    pub no_zero : Avoids 0 l
    pub agrees :
        str_eq (cut_at 13 (heading_text l)) section ≡ str_eq (str_trim (heading_text l)) section

  -- What a piece of the new file is made of.
  abbrev pub IsPiece : Bytes → Type 0
  IsPiece l = IsLine l × Avoids 0 l

  pub copy-line : (l : Bytes) → length l ≤ line_cap → copy_line l ≡ some l
  unfolding copy_line
  copy-line l h = let e : leb (length l) line_cap ≡ true = ground arith in rw e

  pub prefix-other :
      (s : Bytes) → is_prefix (codes "## ") s ≡ true → is_prefix (codes "- ") s ≡ false
  unfolding is_prefix
  prefix-other [] h = cc
  prefix-other (c ∷ s) h = ground arith

  -- how the search goes over a line
  pub recall-heading :
      (key : Option Bytes) (l : Bytes) (ls : List Bytes) (b : Bool)
      → is_heading l ≡ true
      → recall_lines section key (l ∷ ls) b
        ≡ recall_lines section key ls (str_eq (str_trim (heading_text l)) section)
  unfolding recall_lines
  recall-heading key l ls b h = rw h

  pub recall-hit :
      (key : Option Bytes) (l : Bytes) (ls : List Bytes) (r : Recalled)
      → is_heading l ≡ false
      → is_bullet l ≡ true
      → match_bullet key l ≡ some r
      → recall_lines section key (l ∷ ls) true ≡ r
  unfolding recall_lines
  recall-hit key l ls r h b m = rw (h, b, m)

  pub recall-outside :
      (key : Option Bytes) (l : Bytes) (ls : List Bytes)
      → is_heading l ≡ false
      → recall_lines section key (l ∷ ls) false ≡ recall_lines section key ls false
  unfolding recall_lines
  recall-outside key l ls h = rw h

  pub recall-text :
      (key : Option Bytes) (l : Bytes) (ls : List Bytes)
      → is_heading l ≡ false
      → is_bullet l ≡ false
      → recall_lines section key (l ∷ ls) true ≡ recall_lines section key ls true
  unfolding recall_lines
  recall-text key l ls h b = rw (h, b)

  pub recall-other :
      (key : Option Bytes) (l : Bytes) (ls : List Bytes)
      → is_heading l ≡ false
      → is_bullet l ≡ true
      → match_bullet key l ≡ none
      → recall_lines section key (l ∷ ls) true ≡ recall_lines section key ls true
  unfolding recall_lines
  recall-other key l ls h b m = rw (h, b, m)
