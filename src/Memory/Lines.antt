-- ===== src/Memory/Lines.antt =====
-- Cutting a text into lines and joining them again.
use dobby_ai.Base.{
  ℕ, ◌≡◌, refl, sym, ap, ◌∙◌, inl, inr, false, Bool-cases, List, [], ◌∷◌, ◌++◌, append_assoc, Bytes,
  All, All-append, ◌==◌, ==_iff,
}
use dobby_ai.Text.{cut_at}
use dobby_ai.Text.Search.{Avoids, split_char-none}
use dobby_ai.Memory.{split_lines, onto_line, join_lines, line_of}

-- a text without a newline, and then a newline
pub data IsLine : Bytes → Type 0 where
  whole : (body : Bytes) → Avoids 10 body → IsLine (line_of body)

join-onto_line :
    (c : ℕ) (lines : List Bytes) → join_lines (onto_line c lines) ≡ c ∷ join_lines lines
join-onto_line c [] = refl
join-onto_line c (l ∷ lines) = refl

-- Nothing is lost by the cutting.
pub join-split_lines : (s : Bytes) → join_lines (split_lines s) ≡ s
unfolding split_lines
join-split_lines [] = refl
join-split_lines (c ∷ s) = elim (Bool-cases (c == 10)) [
  | inl e ↦ rw e (ap (◌∷◌ 10) (join-split_lines s) ∙ ap (λ x. x ∷ s) (sym ((==_iff c 10).0 e)))
  | inr e ↦ rw e (join-onto_line c (split_lines s) ∙ ap (◌∷◌ c) (join-split_lines s))
]

split-line :
    (body rest : Bytes)
    → Avoids 10 body
    → split_lines (body ++ (10 ∷ rest)) ≡ line_of body ∷ split_lines rest
unfolding split_lines
split-line [] rest a = refl
split-line (c ∷ body) rest (e, a) = rw (e, split-line body rest a) refl

split-first : (l s : Bytes) → IsLine l → split_lines (l ++ s) ≡ l ∷ split_lines s
split-first _ s (whole body a) =
    ap split_lines (append_assoc body (10 ∷ []) s) ∙ split-line body s a

-- Whole lines are cut where they were joined.
pub split-join_lines :
    (lines : List Bytes) → All IsLine lines → split_lines (join_lines lines) ≡ lines
split-join_lines [] a = unfold split_lines in refl
split-join_lines (l ∷ lines) (h, a) =
    split-first l (join_lines lines) h ∙ ap (◌∷◌ l) (split-join_lines lines a)

pub join-append : (a b : List Bytes) → join_lines (a ++ b) ≡ join_lines a ++ join_lines b
join-append [] b = refl
join-append (l ∷ a) b =
    ap (◌++◌ l) (join-append a b) ∙ sym (append_assoc l (join_lines a) (join_lines b))

pub Avoids-join : (c : ℕ) (lines : List Bytes) → All (Avoids c) lines → Avoids c (join_lines lines)
Avoids-join c [] a = tt
Avoids-join c (l ∷ lines) (h, a) =
    All-append (λ x. (x == c) ≡ false) l (join_lines lines) h (Avoids-join c lines a)

pub cut_at-Avoids : (c : ℕ) (s : Bytes) → Avoids c s → cut_at c s ≡ s
unfolding cut_at
cut_at-Avoids c s a = rw (split_char-none c s a, cut_at)
