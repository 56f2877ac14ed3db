-- ===== src/Text/Search.antt =====
-- What the searches for a byte and for a text find: the first occurrence, with the text split there.
use dobby_ai.Base.{
  ℕ, suc, ◌≤◌, ◌≡◌, ◌≢◌, length, refl, ap, inl, inr, true, false, none, some, [], ◌∷◌, ◌++◌, arith,
  Bytes, ◌==◌, All, Bool-cases, Option-cases, ==_iff,
}
use dobby_ai.Text.Affix.{is_prefix-append, split_of_is_prefix}
use dobby_ai.Text.{split_char, split_sub, is_prefix}

abbrev pub Avoids : ℕ → Bytes → Type 0
Avoids c s = All (λ x. (x == c) ≡ false) s

-- A hit splits the text at the first occurrence.
pub split_char-some :
    (c : ℕ) (s a b : Bytes) → split_char c s ≡ some (a, b) → (s ≡ a ++ (c ∷ b)) × Avoids c a
unfolding split_char
split_char-some c [] a b h = cc
split_char-some c (x ∷ s) a b h = elim (Bool-cases (x == c)) [
  | inl e ↦ ground (arith, (==_iff x c).0 e)
  | inr ne ↦ elim (Option-cases (split_char c s)) [
    | inl n ↦ absurd (ground arith)
    | inr (q, r) ↦
        let ih = split_char-some c s q.0 q.1 r in
        let ea : a ≡ x ∷ q.0 = ground arith in
        let eb : b ≡ q.1 = ground arith in rw (ea, eb) (ap (◌∷◌ x) ih.0, (ne, ih.1))
  ]
]

pub split_char-none : (c : ℕ) (s : Bytes) → Avoids c s → split_char c s ≡ none
unfolding split_char
split_char-none c [] h = refl
split_char-none c (x ∷ s) h = ground (arith, split_char-none c s h.1)

-- With nothing before it, the byte is found where it stands.
pub split_char-append :
    (c : ℕ) (a b : Bytes) → Avoids c a → split_char c (a ++ (c ∷ b)) ≡ some (a, b)
unfolding split_char
split_char-append c [] b h = ground arith
split_char-append c (x ∷ a) b h = ground (arith, split_char-append c a b h.1)

-- A hit of the text search splits the text, and the second part starts with the needle.
pub split_sub-some :
    (n s a b : Bytes) → split_sub n s ≡ some (a, b) → (s ≡ a ++ b) × (is_prefix n b ≡ true)
unfolding split_sub
split_sub-some [] [] a b h = ground arith
split_sub-some (c ∷ n) [] a b h = absurd (ground arith)
split_sub-some n (x ∷ s) a b h = elim (Bool-cases (is_prefix n (x ∷ s))) [
  | inl e ↦ ground arith
  | inr ne ↦ elim (Option-cases (split_sub n s)) [
    | inl e ↦ absurd (ground arith)
    | inr (q, r) ↦
        let ih = split_sub-some n s q.0 q.1 r in
        let ea : a ≡ x ∷ q.0 = ground arith in
        let eb : b ≡ q.1 = ground arith in rw (ea, eb) (ap (◌∷◌ x) ih.0, ih.1)
  ]
]

-- `before` is the part in front of the first `n` of `s`: another place of `n` is not further left.
abbrev pub IsFirst : Bytes → Bytes → Bytes → Type 0
IsFirst n s before = (x y : Bytes) → s ≡ x ++ (n ++ y) → length before ≤ length x

-- `n` is nowhere in `s`
abbrev pub Without : Bytes → Bytes → Type 0
Without n s = (x y : Bytes) → s ≢ x ++ (n ++ y)

tail_eq : (a b : ℕ) (s t : Bytes) → a ∷ s ≡ b ∷ t → s ≡ t
tail_eq a b s t e = cc e

prefix_of_eq : (n s y : Bytes) → s ≡ n ++ y → is_prefix n s ≡ true
prefix_of_eq n s y e = rw e (is_prefix-append n y)

-- The text search misses only what is nowhere.
pub split_sub-none : (n s : Bytes) → split_sub n s ≡ none → Without n s
unfolding split_sub
split_sub-none [] [] h x y e = cc h
split_sub-none (c ∷ n) [] h [] y e = cc e
split_sub-none n [] h (a ∷ x) y e = cc e
split_sub-none n (b ∷ s) h [] y e =
    let p = prefix_of_eq n (b ∷ s) y e in absurd (ground (arith, p, h))
split_sub-none n (b ∷ s) h (a ∷ x) y e = elim (Option-cases (split_sub n s)) [
  | inl m ↦ split_sub-none n s m x y (tail_eq _ _ _ _ e)
  | inr (q, r) ↦ absurd (ground (arith, h, r))
]

later :
    (n s : Bytes) (d : ℕ) (q x y : Bytes)
    → is_prefix n (d ∷ s) ≡ false
    → d ∷ s ≡ x ++ (n ++ y)
    → IsFirst n s q
    → length (d ∷ q) ≤ length x
later n s d q [] y ne e first = let p = prefix_of_eq n (d ∷ s) y e in absurd (cc (p, ne))
later n s d q (a ∷ x) y ne e first = omega (arith, first x y (tail_eq _ _ _ _ e))

-- The text search finds the first place.
pub split_sub-IsFirst : (n s a b : Bytes) → split_sub n s ≡ some (a, b) → IsFirst n s a
unfolding split_sub
split_sub-IsFirst [] [] a b h x y e = let z : a ≡ [] = ground arith in rw z (omega arith)
split_sub-IsFirst (c ∷ n) [] a b h x y e = absurd (ground arith)
split_sub-IsFirst n (d ∷ s) a b h x y e = elim (Bool-cases (is_prefix n (d ∷ s))) [
  | inl p ↦ let z : a ≡ [] = ground arith in rw z (omega arith)
  | inr ne ↦ elim (Option-cases (split_sub n s)) [
    | inl m ↦ absurd (ground arith)
    | inr (q, r) ↦
        let z : a ≡ d ∷ q.0 = ground arith in
        rw z (later n s d q.0 x y ne e (split_sub-IsFirst n s q.0 q.1 r))
  ]
]

le_of_suc : {m n : ℕ} → suc m ≤ suc n → m ≤ n
le_of_suc h = omega (arith, h)

starts_here : (n s : Bytes) → is_prefix n s ≡ true → split_sub n s ≡ some ([], s)
unfolding split_sub
starts_here [] [] p = refl
starts_here (c ∷ n) [] p = cc p
starts_here n (d ∷ s) p = rw p refl

-- At the first place of the needle the text is split.
pub split_sub-at :
    (n a y : Bytes) → IsFirst n (a ++ (n ++ y)) a → split_sub n (a ++ (n ++ y)) ≡ some (a, n ++ y)
unfolding split_sub
split_sub-at n [] y first = starts_here n (n ++ y) (is_prefix-append n y)
split_sub-at n (c ∷ a) y first = elim (Bool-cases (is_prefix n (c ∷ (a ++ (n ++ y))))) [
  | inl p ↦
      let (rest, e) = split_of_is_prefix n (c ∷ (a ++ (n ++ y))) p in
      absurd (omega (arith, first [] rest e))
  | inr ne ↦
      ground (arith, split_sub-at n a y (λ x z e. le_of_suc (first (c ∷ x) z (ap (◌∷◌ c) e))))
]
