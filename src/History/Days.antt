-- ===== src/History/Days.antt =====
-- history/history.c: the entries of one day stand under one heading.
use dobby_ai.Base.{
  ℕ, ◌≤◌, ◌≡◌, refl, sym, ap, ◌∙◌, inl, inr, true, Bool-cases, Option, none, some, List, [], ◌∷◌,
  ◌++◌, append_assoc, append-nil, Bytes, All, length, take, take-of_length_le, str_eq, eq_of_str_eq,
  if◌then◌else◌,
}
use dobby_ai.History.{History, history_log, append_entry, entry_text, date_heading, or_no_details}

-- one call of history_log
pub record Call : Type 0 where
  pub date : Bytes
  pub time : Bytes
  pub category : ℕ
  pub title : Bytes
  pub details : Option Bytes

abbrev pub text_of : Call → Bytes
text_of c = entry_text c.category c.title c.details c.time

abbrev pub log_all : List Call → Option History → Option History
log_all [] h = h
log_all (c ∷ calls) h =
    log_all calls (history_log true c.date c.time c.category (some c.title) c.details h)

-- the days, each with the texts of its entries
pub record Day : Type 0 where
  pub date : Bytes
  pub texts : Bytes

abbrev pub add_call : Call → List Day → List Day
add_call c [] = record { date = c.date; texts = text_of c } ∷ []
add_call c (d ∷ days) =
    if str_eq d.date c.date
    then record { date = d.date; texts = text_of c ++ d.texts } ∷ days
    else record { date = c.date; texts = text_of c } ∷ d ∷ days

abbrev pub days_of : List Call → List Day
days_of [] = []
days_of (c ∷ calls) = add_call c (days_of calls)

abbrev pub days_text : List Day → Bytes
days_text [] = []
days_text (d ∷ days) = date_heading d.date ++ (d.texts ++ days_text days)

-- the first day goes on with the day before, if it is the same
abbrev pub after_day : Bytes → List Day → Bytes
after_day last [] = []
after_day last (d ∷ days) =
    (if str_eq d.date last then [] else date_heading d.date) ++ (d.texts ++ days_text days)

after_add_call :
    (last : Bytes) (c : Call) (days : List Day)
    → after_day last (add_call c days)
      ≡ (if str_eq c.date last then [] else date_heading c.date)
        ++ (text_of c ++ after_day c.date days)
after_add_call last c [] = refl
after_add_call last c (d ∷ days) = elim (Bool-cases (str_eq d.date c.date)) [
  | inl e ↦ rw e (
      ap
        (λ x.
          (if str_eq x last then [] else date_heading x)
          ++ ((text_of c ++ d.texts) ++ days_text days))
        (eq_of_str_eq d.date c.date e)
      ∙ ap (λ s. (if str_eq c.date last then [] else date_heading c.date) ++ s)
          (append_assoc (text_of c) d.texts (days_text days)))
  | inr e ↦ rw e refl
]

abbrev pub file_text : Option History → Bytes
file_text none = []
file_text (some h) = or_no_details h.file

-- what one call leaves
abbrev logged : Call → History → History
logged c h = record {
  file = some (append_entry c.date h.last_date h.file (text_of c));
  last_date = if str_eq c.date h.last_date then h.last_date else take 15 c.date;
}

history_log-logged :
    (c : Call) (h : History)
    → history_log true c.date c.time c.category (some c.title) c.details (some h)
      ≡ some (logged c h)
unfolding history_log
history_log-logged c h = refl

logged-last_date : (c : Call) (h : History) → length c.date ≤ 15 → (logged c h).last_date ≡ c.date
logged-last_date c h l = elim (Bool-cases (str_eq c.date h.last_date)) [
  | inl e ↦ rw e (sym (eq_of_str_eq c.date h.last_date e))
  | inr e ↦ rw e (take-of_length_le 15 c.date l)
]

append_entry-heading :
    (date last : Bytes) (file : Option Bytes) (text : Bytes)
    → append_entry date last file text
      ≡ or_no_details file ++ ((if str_eq date last then [] else date_heading date) ++ text)
unfolding append_entry
append_entry-heading date last file text = elim (Bool-cases (str_eq date last)) [
  | inl e ↦ rw e refl
  | inr e ↦ rw e refl
]

logged-after :
    (c : Call) (h : History) (days : List Day)
    → or_no_details (logged c h).file ++ after_day c.date days
      ≡ or_no_details h.file ++ after_day h.last_date (add_call c days)
logged-after c h days =
    ap (λ s. s ++ after_day c.date days)
      (append_entry-heading c.date h.last_date h.file (text_of c))
    ∙ append_assoc (or_no_details h.file) (heading ++ text_of c) (after_day c.date days)
    ∙ ap (λ s. or_no_details h.file ++ s)
        (append_assoc heading (text_of c) (after_day c.date days)
          ∙ sym (after_add_call h.last_date c days))
  where
    heading : Bytes
    heading = if str_eq c.date h.last_date then [] else date_heading c.date

-- The log only grows, and what a series of calls adds is its days, each with one heading and then the
-- entries of the day in order, where the first day has no heading if it is the date of the last entry
-- before; when the file can be written and a date has at most 15 bytes.
pub log_all-days :
    (calls : List Call) (h : History)
    → All (λ c. length c.date ≤ 15) calls
    → file_text (log_all calls (some h))
      ≡ file_text (some h) ++ after_day h.last_date (days_of calls)
log_all-days [] h a = sym (append-nil (or_no_details h.file))
log_all-days (c ∷ calls) h (l, a) =
    ap (λ x. file_text (log_all calls x)) (history_log-logged c h)
    ∙ log_all-days calls (logged c h) a
    ∙ ap (λ d. or_no_details (logged c h).file ++ after_day d (days_of calls))
        (logged-last_date c h l)
    ∙ logged-after c h (days_of calls)
