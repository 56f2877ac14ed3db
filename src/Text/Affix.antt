-- ===== src/Text/Affix.antt =====
-- str_starts_with and str_ends_with decide whether a text is an affix of another.
use dobby_ai.Base.{
  ◌-◌, ◌≡◌, refl, sym, ap, ◌∙◌, ◌↔◌, inl, inr, true, some, [], ◌∷◌, ◌++◌, arith, Bytes, ltb, length,
  take, drop, Bool-cases, str_eq_iff, take-append-drop, drop-append_length, length-append,
}
use dobby_ai.Text.{is_prefix, str_starts_with, str_ends_with}

pub is_prefix-append : (p s : Bytes) → is_prefix p (p ++ s) ≡ true
unfolding is_prefix
is_prefix-append [] s = refl
is_prefix-append (c ∷ p) s = ground (arith, is_prefix-append p s)

pub split_of_is_prefix : (p s : Bytes) → is_prefix p s ≡ true → (rest : Bytes) × (s ≡ p ++ rest)
unfolding is_prefix
split_of_is_prefix [] s h = (s, refl)
split_of_is_prefix (c ∷ p) [] h = cc
split_of_is_prefix (c ∷ p) (x ∷ s) h =
    let (rest, e) = split_of_is_prefix p s (ground arith) in (rest, ground (arith, e))

-- str_starts_with answers true exactly when the text is the prefix with something behind it.
pub str_starts_with_iff :
    (s p : Bytes) → (str_starts_with (some s) (some p) ≡ true) ↔ ((rest : Bytes) × (s ≡ p ++ rest))
unfolding str_starts_with
str_starts_with_iff s p = (split_of_is_prefix p s, λ h. rw (h.1) (is_prefix-append p h.0))

-- str_ends_with answers true exactly when the text is the suffix with something before it.
pub str_ends_with_iff :
    (s p : Bytes) → (str_ends_with (some s) (some p) ≡ true) ↔ ((front : Bytes) × (s ≡ front ++ p))
unfolding str_ends_with
str_ends_with_iff s p = (there, back)
  where
    there : str_ends_with (some s) (some p) ≡ true → (front : Bytes) × (s ≡ front ++ p)
    there h = elim (Bool-cases (ltb (length s) (length p))) [
      | inl short ↦ absurd (ground arith)
      | inr long ↦ (
        take (length s - length p) s,
        sym (take-append-drop (length s - length p) s)
            ∙ ap (◌++◌ (take (length s - length p) s))
                ((str_eq_iff (drop (length s - length p) s) p).0 (ground arith)),
      )
    ]

    same : (front : Bytes) → length (front ++ p) - length p ≡ length front
    same front = omega (arith, length-append front p)

    back : ((front : Bytes) × (s ≡ front ++ p)) → str_ends_with (some s) (some p) ≡ true
    back (front, e) = rw e (
        ground (
          arith,
          length-append front p,
          ap (λ n. drop n (front ++ p)) (same front),
          drop-append_length front p,
          (str_eq_iff p p).1 refl,
        ))
