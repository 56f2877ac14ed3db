-- ===== src/Agent/Think/Laws.antt =====
-- strip_think_tags always returns, leaves text without a tag as it is but for white space at the
-- ends, and cuts a closed block out.
use dobby_ai.Base.{
  ℕ, zero, suc, ◌<◌, ◌≡◌, sym, ap, ◌∙◌, subst, Option, none, some, ◌++◌, arith, Bytes, length, drop,
  length-append, length-drop, Option-cases, inl, inr,
}
use dobby_ai.Text.{split_sub, str_trim}
use dobby_ai.Text.Search.{split_sub-some, IsFirst, Without, split_sub-none, split_sub-IsFirst}
use dobby_ai.Text.Affix.{split_of_is_prefix}
use dobby_ai.Agent.Think.{open_tag, close_tag, strip_loop, strip_think_tags}

-- What is left behind a closed block is shorter than the text.
rest-shorter :
    (p before start inside end : Bytes)
    → split_sub open_tag p ≡ some (before, start)
    → split_sub close_tag (drop 7 start) ≡ some (inside, end)
    → length (drop 8 end) < length p
rest-shorter p before start inside end h k =
    let (whole, tag) = split_sub-some open_tag p before start h in
    let (rest, e) = split_of_is_prefix open_tag start tag in
    let (whole', _) = split_sub-some close_tag (drop 7 start) inside end k in
    omega (
      arith,
      ap (λ t. length t) whole,
      length-append before start,
      ap (λ t. length t) e,
      length-append open_tag rest,
      length-drop 7 start,
      ap (λ t. length t) whole',
      length-append inside end,
      length-drop 8 end,
    )

abbrev join : Bytes → Option Bytes → Option Bytes
join before none = none
join before (some rest) = some (before ++ rest)

strip_loop-plain : (f : ℕ) (p : Bytes) → split_sub open_tag p ≡ none → strip_loop (suc f) p ≡ some p
unfolding strip_loop
strip_loop-plain f p h = rw (h, strip_loop)

strip_loop-unclosed :
    (f : ℕ) (p before start : Bytes)
    → split_sub open_tag p ≡ some (before, start)
    → split_sub close_tag (drop 7 start) ≡ none
    → strip_loop (suc f) p ≡ some before
unfolding strip_loop
strip_loop-unclosed f p before start h k = rw (h, strip_loop) (rw (k, strip_loop))

strip_loop-closed :
    (f : ℕ) (p before start inside end : Bytes)
    → split_sub open_tag p ≡ some (before, start)
    → split_sub close_tag (drop 7 start) ≡ some (inside, end)
    → strip_loop (suc f) p ≡ join before (strip_loop f (drop 8 end))
unfolding strip_loop
strip_loop-closed f p before start inside end h k = rw (h, strip_loop) (rw (k, strip_loop))

-- How the visible part of a text comes about. Here `before` ends where the first opening tag is, and
-- `inside` where the first closing tag behind it is.
pub data Stripped : Bytes → Bytes → Type 0 where
  plain : (p : Bytes) → Without open_tag p → Stripped p p
  unclosed :
      (p before tail : Bytes)
      → p ≡ before ++ (open_tag ++ tail)
      → IsFirst open_tag p before
      → Without close_tag tail
      → Stripped p before
  closed :
      (p before inside end rest : Bytes)
      → p ≡ before ++ (open_tag ++ (inside ++ (close_tag ++ end)))
      → IsFirst open_tag p before
      → IsFirst close_tag (inside ++ (close_tag ++ end)) inside
      → Stripped end rest
      → Stripped p (before ++ rest)

-- a hit of the opening tag, as an equation
opened :
    (p before start : Bytes)
    → split_sub open_tag p ≡ some (before, start)
    → p ≡ before ++ (open_tag ++ drop 7 start)
opened p before start h =
    let (whole, tag) = split_sub-some open_tag p before start h in
    let (rest, e) = split_of_is_prefix open_tag start tag in
    whole ∙ ap (◌++◌ before) (e ∙ ap (λ t. open_tag ++ drop 7 t) (sym e))

shut :
    (p inside end : Bytes)
    → split_sub close_tag p ≡ some (inside, end)
    → p ≡ inside ++ (close_tag ++ drop 8 end)
shut p inside end h =
    let (whole, tag) = split_sub-some close_tag p inside end h in
    let (rest, e) = split_of_is_prefix close_tag end tag in
    whole ∙ ap (◌++◌ inside) (e ∙ ap (λ t. close_tag ++ drop 8 t) (sym e))

strip_loop-Stripped :
    (f : ℕ) (p : Bytes)
    → length p < f
    → (out : Bytes) × (strip_loop f p ≡ some out) × Stripped p out
strip_loop-Stripped zero p h = absurd (omega arith)
strip_loop-Stripped (suc f) p h = elim (Option-cases (split_sub open_tag p)) [
  | inl e ↦ (p, strip_loop-plain f p e, plain p (split_sub-none open_tag p e))
  | inr (hit, e) ↦ elim (Option-cases (split_sub close_tag (drop 7 hit.1))) [
    | inl n ↦ (
      hit.0,
      strip_loop-unclosed f p hit.0 hit.1 e n,
      unclosed p hit.0 (drop 7 hit.1) (opened p hit.0 hit.1 e)
          (split_sub-IsFirst open_tag p hit.0 hit.1 e) (split_sub-none close_tag _ n),
    )
    | inr (tail, k) ↦
        let less : length (drop 8 tail.1) < length p =
          rest-shorter p hit.0 hit.1 tail.0 tail.1 e k in
        let (out, r, s) = strip_loop-Stripped f (drop 8 tail.1) (omega arith) in
        (
          hit.0 ++ out,
          strip_loop-closed f p hit.0 hit.1 tail.0 tail.1 e k ∙ ap (join hit.0) r,
          closed p hit.0 tail.0 (drop 8 tail.1) out
              (opened p hit.0 hit.1 e
                ∙ ap (λ t. hit.0 ++ (open_tag ++ t)) (shut (drop 7 hit.1) tail.0 tail.1 k))
              (split_sub-IsFirst open_tag p hit.0 hit.1 e)
              (subst (λ t. IsFirst close_tag t tail.0) (shut (drop 7 hit.1) tail.0 tail.1 k)
                (split_sub-IsFirst close_tag (drop 7 hit.1) tail.0 tail.1 k))
              s,
        )
  ]
]

-- strip_think_tags returns for every text: the text with the white space trimmed off, after each
-- block from the first opening tag to the first closing tag behind it has been cut out, the
-- search going on behind the block, and all from an opening tag on that no closing tag follows.
pub strip_think_tags-Stripped :
    (s : Bytes)
    → (visible : Bytes) × (strip_think_tags (some s) ≡ some (str_trim visible)) × Stripped s visible
unfolding strip_think_tags
strip_think_tags-Stripped s =
    let (out, e, d) = strip_loop-Stripped (suc (length s)) s (omega arith) in
    (out, rw (e, strip_think_tags), d)
