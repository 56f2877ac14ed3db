-- ===== src/Memory/Entry.antt =====
-- The line of a fact: how the search for a key reads it.
use dobby_ai.Base.{
  ◌≤◌, ◌<◌, ◌≡◌, refl, sym, ap, ◌∙◌, subst, inl, inr, true, false, none, some, [], ◌∷◌, ◌++◌,
  append_assoc, arith, Bytes, codes, All-append, length, length-append, take, drop,
  take-of_length_le, append-nil, is_empty, str_eq, str_eq_refl, Option-cases, ltb,
}
use dobby_ai.Text.{str_trim, split_char, is_prefix, is_space}
use dobby_ai.Text.Trim.{IsTrimmed}
use dobby_ai.Text.TrimUnique.{str_trim-between}
use dobby_ai.Text.Search.{Avoids, split_char-append}
use dobby_ai.Memory.{
  linebuf, line_cap, line_of, bullet_of, is_heading, is_bullet, bullet_key, fit_key, match_bullet,
  value_of,
}
use dobby_ai.Memory.Lines.{IsLine, whole}

-- A key and a value that are kept whole: trimmed, on one line, and short.
pub record IsFact (key value : Bytes) : Type 0 where
  pub key_trimmed : IsTrimmed key
  pub key_given : is_empty key ≡ false
  pub key_short : length key < 512
  pub key_no_colon : Avoids 58 key
  pub key_no_newline : Avoids 10 key
  pub key_no_zero : Avoids 0 key
  pub value_trimmed : IsTrimmed value
  pub value_short : length value ≤ 509
  pub value_no_newline : Avoids 10 value
  pub value_no_zero : Avoids 0 value

abbrev pub fact_line : Bytes → Bytes → Bytes
fact_line key value = codes "- " ++ (key ++ (codes ": " ++ (value ++ (10 ∷ []))))

match_bullet-hit :
    (key line k rest : Bytes)
    → split_char 58 (drop 2 (linebuf line)) ≡ some (k, rest)
    → str_trim (fit_key k) ≡ key
    → match_bullet (some key) line ≡ some (value_of (str_trim (take 511 rest)))
unfolding match_bullet str_trim
match_bullet-hit key line k rest e h = rw (e, match_bullet, h, str_eq_refl key)

-- A bullet whose key is another one is passed over.
pub match_bullet-other :
    (key line : Bytes) → str_eq (bullet_key line) key ≡ false → match_bullet (some key) line ≡ none
unfolding match_bullet bullet_key str_eq
match_bullet-other key line h = elim (Option-cases (split_char 58 (drop 2 (linebuf line)))) [
  | inl e ↦ rw (e, match_bullet)
  | inr ((k, rest), e) ↦
      let other : str_eq (str_trim (fit_key k)) key ≡ false = sym (rw (e, bullet_key)) ∙ h in
      rw (e, match_bullet, other)
]

module _ (key value : Bytes) (f : IsFact key value) where
  length-fact : length (codes "- " ++ (key ++ (codes ": " ++ value))) ≤ 1024
  length-fact = omega (arith, length-append key (codes ": " ++ value), f.key_short, f.value_short)

  pub bullet_of-eq : bullet_of key value ≡ codes "- " ++ (key ++ (codes ": " ++ value))
  unfolding bullet_of
  bullet_of-eq =
      take-of_length_le line_cap (codes "- " ++ (key ++ (codes ": " ++ value)))
        (omega (arith, length-fact))

  pub line_of-bullet : line_of (bullet_of key value) ≡ fact_line key value
  line_of-bullet =
      ap (λ b. b ++ (10 ∷ [])) bullet_of-eq
      ∙ ap (λ s. codes "- " ++ s) (append_assoc key (codes ": " ++ value) (10 ∷ []))

  pub bullet-IsLine : IsLine (line_of (bullet_of key value))
  bullet-IsLine = whole (bullet_of key value) (
      subst (Avoids 10) (sym bullet_of-eq) (
        refl,
        (
          refl,
          All-append _ key (codes ": " ++ value) f.key_no_newline
              (refl, (refl, f.value_no_newline)),
        ),
      ))

  pub bullet-no_zero : Avoids 0 (line_of (bullet_of key value))
  bullet-no_zero = subst (Avoids 0) (sym line_of-bullet) (
    refl,
    (
      refl,
      All-append _ key (codes ": " ++ (value ++ (10 ∷ []))) f.key_no_zero
          (refl, (refl, All-append _ value (10 ∷ []) f.value_no_zero (refl, tt))),
    ),
  )

  length-fact_line : length (fact_line key value) ≤ line_cap
  length-fact_line = omega (
    arith,
    length-append key (codes ": " ++ (value ++ (10 ∷ []))),
    length-append value (10 ∷ []),
    f.key_short,
    f.value_short,
  )

  linebuf-bullet : linebuf (line_of (bullet_of key value)) ≡ fact_line key value
  linebuf-bullet =
      ap linebuf line_of-bullet ∙ take-of_length_le line_cap (fact_line key value) length-fact_line

  pub bullet-is_heading : is_heading (line_of (bullet_of key value)) ≡ false
  bullet-is_heading = ap (is_prefix (codes "## ")) linebuf-bullet ∙ (unfold is_prefix in refl)

  pub bullet-is_bullet : is_bullet (line_of (bullet_of key value)) ≡ true
  bullet-is_bullet = ap (is_prefix (codes "- ")) linebuf-bullet ∙ (unfold is_prefix in refl)

  trim-key : str_trim (fit_key key) ≡ key
  trim-key =
      let fits : ltb (length key) 512 ≡ true = ground (arith, f.key_short) in
      rw fits (ap str_trim (sym (append-nil key)) ∙ str_trim-between [] key [] tt f.key_trimmed tt)

  trim-value : str_trim (take 511 (32 ∷ (value ++ (10 ∷ [])))) ≡ value
  trim-value =
      ap str_trim (
        take-of_length_le 511 (32 ∷ (value ++ (10 ∷ [])))
          (omega (arith, length-append value (10 ∷ []), f.value_short)))
      ∙ str_trim-between (32 ∷ []) value (10 ∷ []) (blank, tt) f.value_trimmed (newline, tt)
    where
      blank : is_space 32 ≡ true
      blank = unfold is_space in refl

      newline : is_space 10 ≡ true
      newline = unfold is_space in refl

  -- The line of a fact answers the search for its key with its value.
  pub match-bullet : match_bullet (some key) (line_of (bullet_of key value)) ≡ some (value_of value)
  match-bullet =
      match_bullet-hit key (line_of (bullet_of key value)) key (32 ∷ (value ++ (10 ∷ [])))
        (ap (λ l. split_char 58 (drop 2 l)) linebuf-bullet
          ∙ split_char-append 58 key (32 ∷ (value ++ (10 ∷ []))) f.key_no_colon)
        trim-key
      ∙ ap (λ v. some (value_of v)) trim-value

  -- The key of a fact is read back from its line.
  pub bullet_key-fact : bullet_key (line_of (bullet_of key value)) ≡ key
  unfolding bullet_key
  bullet_key-fact =
      let split : split_char 58 (drop 2 (linebuf (line_of (bullet_of key value))))
          ≡ some (key, 32 ∷ (value ++ (10 ∷ []))) =
        ap (λ l. split_char 58 (drop 2 l)) linebuf-bullet
        ∙ split_char-append 58 key (32 ∷ (value ++ (10 ∷ []))) f.key_no_colon in
      rw (split, bullet_key) trim-key
