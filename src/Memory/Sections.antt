-- ===== src/Memory/Sections.antt =====
-- The sections of the file, and the names they go by.
use dobby_ai.Base.{
  ◌==◌, ℕ, ◌≡◌, refl, sym, ◌∙◌, inl, inr, true, false, ◌||◌, Bool, Option, none, some, List, [],
  ◌∷◌, ◌++◌, arith, Bytes, codes, All, str_eq, Bool-cases, if◌then◌else◌,
}
use dobby_ai.Text.{str_trim, is_prefix, cut_at, contains_case, is_space}
use dobby_ai.Text.Search.{Avoids}
use dobby_ai.Memory.{
  line_of, is_heading, heading_text, canonical_sections, nearest_section, guess_section,
  canonicalise_section, user_information, preferences, project_context, important_notes,
}
use dobby_ai.Memory.Lines.{whole}
use dobby_ai.Memory.Recall.{IsPiece}

-- The heading of a section is read back as its name.
pub record IsSection (section : Bytes) : Type 0 where
  pub heading : IsPiece section (line_of (codes "## " ++ section))
  pub is_one : is_heading (line_of (codes "## " ++ section)) ≡ true
  pub reads : str_eq (str_trim (heading_text (line_of (codes "## " ++ section)))) section ≡ true

abbrev pub avoids : ℕ → Bytes → Bool
avoids c [] = true
avoids c (x ∷ s) = if x == c then false else avoids c s

pub avoids-Avoids : (c : ℕ) (s : Bytes) → avoids c s ≡ true → Avoids c s
avoids-Avoids c [] h = tt
avoids-Avoids c (x ∷ s) h = elim (Bool-cases (x == c)) [
  | inl e ↦ absurd (ground arith)
  | inr e ↦ (e, avoids-Avoids c s (sym (rw e refl) ∙ h))
]

abbrev IsName : Bytes → Type 0
IsName section =
    (avoids 10 (codes "## " ++ section) ≡ true)
    × ((avoids 0 (line_of (codes "## " ++ section)) ≡ true)
        × ((is_heading (line_of (codes "## " ++ section)) ≡ true)
            × (str_eq (str_trim (heading_text (line_of (codes "## " ++ section)))) section ≡ true)))

name-IsSection : (section : Bytes) → IsName section → IsSection section
name-IsSection section (a, (z, (h, r))) = record {
  heading = (
    whole (codes "## " ++ section) (avoids-Avoids 10 (codes "## " ++ section) a),
    avoids-Avoids 0 (line_of (codes "## " ++ section)) z,
  );
  is_one = h;
  reads = r;
}

user_information-IsSection : IsSection user_information
unfolding is_prefix str_eq str_trim heading_text cut_at dobby_ai.Text.split_char
user_information-IsSection = name-IsSection user_information (refl, (refl, (refl, refl)))

preferences-IsSection : IsSection preferences
unfolding is_prefix str_eq str_trim heading_text cut_at dobby_ai.Text.split_char
preferences-IsSection = name-IsSection preferences (refl, (refl, (refl, refl)))

project_context-IsSection : IsSection project_context
unfolding is_prefix str_eq str_trim heading_text cut_at dobby_ai.Text.split_char
project_context-IsSection = name-IsSection project_context (refl, (refl, (refl, refl)))

important_notes-IsSection : IsSection important_notes
unfolding is_prefix str_eq str_trim heading_text cut_at dobby_ai.Text.split_char
important_notes-IsSection = name-IsSection important_notes (refl, (refl, (refl, refl)))

abbrev Named : Option Bytes → Type 0
Named none = Unit
Named (some section) = IsSection section

if_both : {A : Type 0} (P : A → Type 0) (b : Bool) (x y : A) → P x → P y → P (if b then x else y)
if_both P true x y p q = p
if_both P false x y p q = q

nearest_section-Named :
    (category : Bytes) (sections : List Bytes)
    → All IsSection sections
    → Named (nearest_section category sections)
unfolding nearest_section
nearest_section-Named category [] a = tt
nearest_section-Named category (s ∷ sections) (h, a) =
    if_both Named (contains_case category s || contains_case s category) (some s)
      (nearest_section category sections) h (nearest_section-Named category sections a)

guess_section-IsSection : (category : Bytes) → IsSection (guess_section category)
unfolding guess_section
guess_section-IsSection category =
    if_both IsSection _ user_information _ user_information-IsSection (
      if_both IsSection _ preferences _ preferences-IsSection
        (if_both IsSection _ project_context _ project_context-IsSection important_notes-IsSection))

named_or :
    (o : Option Bytes) (other : Bytes)
    → Named o
    → IsSection other
    → IsSection (elim o [ none ↦ other | some s ↦ s ])
named_or none other n h = h
named_or (some s) other n h = n

-- Every category stands for one of the four sections.
pub canonicalise_section-IsSection :
    (category : Option Bytes) → IsSection (canonicalise_section category)
unfolding canonicalise_section
canonicalise_section-IsSection none = important_notes-IsSection
canonicalise_section-IsSection (some category) =
    named_or (nearest_section category canonical_sections) (guess_section category)
      (nearest_section-Named category canonical_sections (
        user_information-IsSection,
        (preferences-IsSection, (project_context-IsSection, (important_notes-IsSection, tt))),
      ))
      (guess_section-IsSection category)
