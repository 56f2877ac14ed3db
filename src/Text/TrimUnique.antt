-- ===== src/Text/TrimUnique.antt =====
-- Trimming gives back a trimmed text from between white space.
use dobby_ai.Base.{
  ℕ, zero, suc, ◌+◌, ◌-◌, ◌≤◌, ◌<◌, ◌≡◌, refl, sym, ap, ◌∙◌, inl, inr, true, false, [], ◌∷◌, ◌++◌,
  arith, Bytes, leb, length, length-append, get_or, take, take-append_length, Bool-cases,
}
use dobby_ai.Text.{is_space, skip_spaces, trim_back, trim_end, str_trim}
use dobby_ai.Text.Trim.{IsSpaces, IsTrimmed, empty, full, trim_end-cons, trim_end-nil}

skip_spaces-append : (pre s : Bytes) → IsSpaces pre → skip_spaces (pre ++ s) ≡ skip_spaces s
unfolding skip_spaces
skip_spaces-append [] s sp = refl
skip_spaces-append (c ∷ pre) s (e, sp) = rw e (skip_spaces-append pre s sp)

skip_spaces_all : (s : Bytes) → IsSpaces s → skip_spaces s ≡ []
unfolding skip_spaces
skip_spaces_all [] sp = refl
skip_spaces_all (c ∷ s) (e, sp) = rw e (skip_spaces_all s sp)

-- the last visible index, where all behind it up to the start of the search is white space
trim_back-to :
    (s : Bytes) (k e : ℕ)
    → k ≤ e
    → is_space (get_or s k 0) ≡ false
    → ((i : ℕ) → k < i → i ≤ e → is_space (get_or s i 0) ≡ true)
    → trim_back s e ≡ k
unfolding trim_back
trim_back-to s k zero le v sp = omega arith
trim_back-to s k (suc e) le v sp = elim (Bool-cases (leb k e)) [
  | inl t ↦
      rw (sp (suc e) (ground arith) (omega arith))
        (trim_back-to s k e (ground arith) v (λ i lo hi. sp i lo (omega arith)))
  | inr f ↦
      let last : k ≡ suc e = ground arith in
      rw (sym (ap (λ i. is_space (get_or s i 0)) last) ∙ v) (sym last)
]

get_or-append_right : (s t : Bytes) (i : ℕ) → get_or (s ++ t) (length s + i) 0 ≡ get_or t i 0
get_or-append_right [] t i = let e : 0 + i ≡ i = omega arith in ap (λ n. get_or t n 0) e
get_or-append_right (c ∷ s) t i =
    let e : suc (length s) + i ≡ suc (length s + i) = omega arith in
    ap (λ n. get_or (c ∷ (s ++ t)) n 0) e ∙ get_or-append_right s t i

IsSpaces-get_or : (s : Bytes) (i : ℕ) → IsSpaces s → i < length s → is_space (get_or s i 0) ≡ true
IsSpaces-get_or [] i sp h = absurd (omega arith)
IsSpaces-get_or (c ∷ s) zero (e, sp) h = e
IsSpaces-get_or (c ∷ s) (suc i) (e, sp) h = IsSpaces-get_or s i sp (omega arith)

get_or-append_left : (s t : Bytes) (i : ℕ) → i < length s → get_or (s ++ t) i 0 ≡ get_or s i 0
get_or-append_left [] t i h = absurd (omega arith)
get_or-append_left (c ∷ s) t zero h = refl
get_or-append_left (c ∷ s) t (suc i) h = get_or-append_left s t i (omega arith)

-- White space around a trimmed text is all that str_trim takes off.
pub str_trim-between :
    (pre s post : Bytes)
    → IsSpaces pre
    → IsTrimmed s
    → IsSpaces post
    → str_trim (pre ++ (s ++ post)) ≡ s
unfolding str_trim
str_trim-between pre [] post sp empty sq =
    ap trim_end (skip_spaces-append pre post sp ∙ skip_spaces_all post sq) ∙ trim_end-nil
str_trim-between pre (c ∷ s) post sp (full _ _ v w) sq =
    let at : trim_back (c ∷ (s ++ post)) (length (s ++ post)) ≡ length s =
      trim_back-to (c ∷ (s ++ post)) (length s) (length (s ++ post))
        (omega (arith, length-append s post))
        (ap is_space (get_or-append_left (c ∷ s) post (length s) (omega arith)) ∙ w)
        (λ i lo hi.
          let e : i ≡ suc (length s) + (i - suc (length s)) = omega (arith, lo) in
          ap (λ n. is_space (get_or (c ∷ (s ++ post)) n 0)) e
          ∙ ap is_space (get_or-append_right (c ∷ s) post (i - suc (length s)))
          ∙ IsSpaces-get_or post (i - suc (length s)) sq
              (omega (arith, length-append s post, lo, hi))) in
    ap trim_end (skip_spaces-append pre (c ∷ (s ++ post)) sp ∙ visible_start)
    ∙ trim_end-cons c (s ++ post)
    ∙ ap (λ k. take (suc k) (c ∷ (s ++ post))) at
    ∙ take-append_length (c ∷ s) post
  where
    visible_start : skip_spaces (c ∷ (s ++ post)) ≡ c ∷ (s ++ post)
    visible_start = unfold skip_spaces in rw v
