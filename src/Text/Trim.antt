-- ===== src/Text/Trim.antt =====
-- str_trim removes the white space at both ends, and nothing else.
use dobby_ai.Base.{
  ℕ, zero, suc, ◌≤◌, ◌<◌, ◌≡◌, refl, sym, ap, ◌∙◌, inl, inr, true, false, [], ◌∷◌, ◌++◌, arith,
  Bytes, length, get_or, take, drop, All, Bool-cases, take-append-drop, drop-eq-cons, length-take,
}
use dobby_ai.Text.{is_space, skip_spaces, trim_back, trim_end, str_trim}

abbrev pub IsSpaces : Bytes → Type 0
IsSpaces s = All (λ c. is_space c ≡ true) s

-- Empty, or with no white space at either end.
pub data IsTrimmed : Bytes → Type 0 where
  empty : IsTrimmed []
  full :
      (c : ℕ) (s : Bytes)
      → is_space c ≡ false
      → is_space (get_or (c ∷ s) (length s) 0) ≡ false
      → IsTrimmed (c ∷ s)

pub skip_spaces-split : (s : Bytes) → (pre : Bytes) × IsSpaces pre × (s ≡ pre ++ skip_spaces s)
unfolding skip_spaces
skip_spaces-split [] = ([], tt, refl)
skip_spaces-split (c ∷ s) = elim (Bool-cases (is_space c)) [
  | inl e ↦ let (pre, sp, eq) = skip_spaces-split s in (c ∷ pre, (e, sp), rw e (ap (◌∷◌ c) eq))
  | inr e ↦ ([], tt, rw e refl)
]

-- What skip_spaces leaves is empty or starts with a visible byte.
pub data StartsVisible : Bytes → Type 0 where
  nothing : StartsVisible []
  visible : (c : ℕ) (s : Bytes) → is_space c ≡ false → StartsVisible (c ∷ s)

pub skip_spaces-StartsVisible : (s : Bytes) → StartsVisible (skip_spaces s)
unfolding skip_spaces
skip_spaces-StartsVisible [] = nothing
skip_spaces-StartsVisible (c ∷ s) = elim (Bool-cases (is_space c)) [
  | inl e ↦ rw e (skip_spaces-StartsVisible s)
  | inr e ↦ rw e (visible c s e)
]

pub trim_back-le : (s : Bytes) (e : ℕ) → trim_back s e ≤ e
unfolding trim_back
trim_back-le s zero = omega arith
trim_back-le s (suc e) = ground (arith, trim_back-le s e)

-- All behind the cut is white space, if all behind the start of the search is.
pub trim_back-IsSpaces :
    (s : Bytes) (e : ℕ)
    → e < length s
    → IsSpaces (drop (suc e) s)
    → IsSpaces (drop (suc (trim_back s e)) s)
unfolding trim_back
trim_back-IsSpaces s zero h sp = sp
trim_back-IsSpaces s (suc e) h sp = elim (Bool-cases (is_space (get_or s (suc e) 0))) [
  | inl t ↦ rw t (trim_back-IsSpaces s e (omega arith) (rw (drop-eq-cons (suc e) s 0 h) (t, sp)))
  | inr t ↦ rw t sp
]

pub trim_back-visible :
    (s : Bytes) (e : ℕ)
    → is_space (get_or s 0 0) ≡ false
    → is_space (get_or s (trim_back s e) 0) ≡ false
unfolding trim_back
trim_back-visible s zero v = v
trim_back-visible s (suc e) v = elim (Bool-cases (is_space (get_or s (suc e) 0))) [
  | inl t ↦ rw t (trim_back-visible s e v)
  | inr t ↦ rw t t
]

get_or-take : (n : ℕ) (s : Bytes) → n < length s → get_or (take (suc n) s) n 0 ≡ get_or s n 0
get_or-take n [] h = absurd (omega arith)
get_or-take zero (c ∷ s) h = refl
get_or-take (suc n) (c ∷ s) h = get_or-take n s (omega arith)

drop-length : (s : Bytes) → drop (length s) s ≡ []
drop-length [] = refl
drop-length (c ∷ s) = drop-length s

pub trim_end-cons :
    (c : ℕ) (s : Bytes) → trim_end (c ∷ s) ≡ take (suc (trim_back (c ∷ s) (length s))) (c ∷ s)
unfolding trim_end
trim_end-cons c s = ap (λ e. take (suc (trim_back (c ∷ s) e)) (c ∷ s)) (omega arith)

pub trim_end-nil : trim_end [] ≡ []
unfolding trim_end
trim_end-nil = refl

-- What trim_end does to a text that starts with a visible byte.
trim_end-split :
    (s : Bytes)
    → StartsVisible s
    → (post : Bytes) × IsSpaces post × (s ≡ trim_end s ++ post) × IsTrimmed (trim_end s)
trim_end-split [] nothing = rw trim_end-nil ([], tt, refl, empty)
trim_end-split (c ∷ s) (visible _ _ v) =
    let k : ℕ = trim_back (c ∷ s) (length s) in
    let bound : k ≤ length s = trim_back-le (c ∷ s) (length s) in
    let cut : length (take k s) ≡ k = omega (arith, length-take k s) in
    let seen : is_space (get_or (c ∷ take k s) k 0) ≡ false =
      rw (get_or-take k (c ∷ s) (omega arith)) (trim_back-visible (c ∷ s) (length s) v) in
    rw trim_end-cons (
      drop k s,
      trim_back-IsSpaces (c ∷ s) (length s) (omega arith) (rw (drop-length s) tt),
      sym (take-append-drop (suc k) (c ∷ s)),
      full c (take k s) v (rw cut seen),
    )

-- str_trim returns the text between some leading and some trailing white space, and the result is
-- empty or has a visible byte at both ends.
pub str_trim-split :
    (s : Bytes)
    → (pre post : Bytes) × IsSpaces pre
      × IsSpaces post
      × (s ≡ pre ++ (str_trim s ++ post))
      × IsTrimmed (str_trim s)
unfolding str_trim
str_trim-split s =
    let (pre, sp, e) = skip_spaces-split s in
    let (post, sq, e', t) = trim_end-split (skip_spaces s) (skip_spaces-StartsVisible s) in
    (pre, post, sp, sq, e ∙ ap (◌++◌ pre) e', t)
