-- ===== src/Config/Table.antt =====
-- Reading a setting after it has been set.
use dobby_ai.Base.{
  ◌-◌, ◌<◌, ◌≤◌, ◌≡◌, refl, subst, sym, ap, ◌∙◌, inl, inr, true, false, Option, none, some, List,
  [], ◌∷◌, ◌++◌, arith, Bytes, str_eq_refl, leb, length, take, take-of_length_le, Bool-cases,
  Option-cases,
}
use dobby_ai.Config.{
  ConfigEntry, max_entries, max_key_len, is_entry, find_value, or_default, config_get, update_entry,
  config_set,
}

abbrev with_value : Bytes → ConfigEntry → ConfigEntry
with_value value e = record e { value = value }

-- an update, one entry further back
abbrev behind : ConfigEntry → Option (List ConfigEntry) → Option (List ConfigEntry)
behind e none = none
behind e (some es) = some (e ∷ es)

update-miss :
    (section key value : Bytes) (e : ConfigEntry) (entries : List ConfigEntry)
    → is_entry section key e ≡ false
    → update_entry section key value (e ∷ entries)
      ≡ behind e (update_entry section key value entries)
unfolding update_entry
update-miss section key value e entries m = rw m

update-hit :
    (section key value : Bytes) (e : ConfigEntry) (entries : List ConfigEntry)
    → is_entry section key e ≡ true
    → update_entry section key value (e ∷ entries) ≡ some (with_value value e ∷ entries)
unfolding update_entry
update-hit section key value e entries m = rw m

find-miss :
    (section key : Bytes) (e : ConfigEntry) (entries : List ConfigEntry)
    → is_entry section key e ≡ false
    → find_value section key (e ∷ entries) ≡ find_value section key entries
unfolding find_value
find-miss section key e entries m = rw m

find-hit :
    (section key : Bytes) (e : ConfigEntry) (entries : List ConfigEntry)
    → is_entry section key e ≡ true
    → find_value section key (e ∷ entries) ≡ some e.value
unfolding find_value
find-hit section key e entries m = rw m

-- What a search gives in the table that an update made, if it made one.
abbrev Updated : Bytes → Bytes → Bytes → Option (List ConfigEntry) → Type 0
Updated section key value none = Unit
Updated section key value (some es) = find_value section key es ≡ some value

behind-Updated :
    (section key value : Bytes) (e : ConfigEntry) (o : Option (List ConfigEntry))
    → is_entry section key e ≡ false
    → Updated section key value o
    → Updated section key value (behind e o)
behind-Updated section key value e none m u = tt
behind-Updated section key value e (some es) m u = find-miss section key e es m ∙ u

with_value-is_entry :
    (section key value : Bytes) (e : ConfigEntry)
    → is_entry section key (with_value value e) ≡ is_entry section key e
unfolding is_entry
with_value-is_entry section key value e = refl

update-Updated :
    (section key value : Bytes) (entries : List ConfigEntry)
    → Updated section key value (update_entry section key value entries)
update-Updated section key value [] = unfold update_entry in tt
update-Updated section key value (e ∷ entries) = elim (Bool-cases (is_entry section key e)) [
  | inl m ↦ rw (update-hit section key value e entries m) (
      find-hit section key (with_value value e) entries
        (with_value-is_entry section key value e ∙ m))
  | inr m ↦
      rw (update-miss section key value e entries m)
        (behind-Updated section key value e _ m (update-Updated section key value entries))
]

-- Without an entry to update, a search finds nothing, and an entry put behind is found.
update-none :
    (section key value : Bytes) (entries : List ConfigEntry) (new : ConfigEntry)
    → update_entry section key value entries ≡ none
    → is_entry section key new ≡ true
    → find_value section key (entries ++ (new ∷ [])) ≡ some new.value
update-none section key value [] new n m = find-hit section key new [] m
update-none section key value (e ∷ entries) new n m = elim (Bool-cases (is_entry section key e)) [
  | inl h ↦ cc (n, update-hit section key value e entries h)
  | inr h ↦
      find-miss section key e (entries ++ (new ∷ [])) h
      ∙ update-none section key value entries new
          (behind-none (update_entry section key value entries)
            (sym (update-miss section key value e entries h) ∙ n))
          m
]
  where
    behind-none : (o : Option (List ConfigEntry)) → behind e o ≡ none → o ≡ none
    behind-none none q = refl
    behind-none (some es) q = cc

cut-is_entry :
    (section key value : Bytes)
    → length section < max_key_len
    → length key < max_key_len
    → is_entry section key (record {
      section = take (max_key_len - 1) section;
      key = take (max_key_len - 1) key;
      value = value;
    })
      ≡ true
unfolding is_entry
cut-is_entry section key value s k =
    rw
      (
        take-of_length_le (max_key_len - 1) section (omega arith),
        take-of_length_le (max_key_len - 1) key (omega arith),
        str_eq_refl section,
      )
      (str_eq_refl key)

-- After a setting is set in a table with room, under names of less than 128 bytes, reading it gives
-- the new value, whether the table had the setting before or not.
pub config_get-set :
    (entries : List ConfigEntry) (section key value : Bytes) (default_val : Option Bytes)
    → length entries < max_entries
    → length section < max_key_len
    → length key < max_key_len
    → config_get (some (config_set entries section key value)) section key default_val ≡ some value
unfolding config_get config_set
config_get-set entries section key value default_val room s k =
    let has_room : leb max_entries (length entries) ≡ false = ground arith in
    elim (Option-cases (update_entry section key value entries)) [
      | inl n ↦
          rw (has_room, n)
            (ap (λ o. or_default o default_val)
              (update-none section key value entries _ n (cut-is_entry section key value s k)))
      | inr (es, n) ↦ rw (has_room, n) (ap (λ o. or_default o default_val) (updated es n))
    ]
  where
    updated :
        (es : List ConfigEntry)
        → update_entry section key value entries ≡ some es
        → find_value section key es ≡ some value
    updated es n = subst (Updated section key value) n (update-Updated section key value entries)

-- In a full table nothing is set, not even the new value of a setting that it has.
pub config_set-full :
    (entries : List ConfigEntry) (section key section' key' value : Bytes)
    (default_val : Option Bytes)
    → max_entries ≤ length entries
    → config_get (some (config_set entries section key value)) section' key' default_val
      ≡ config_get (some entries) section' key' default_val
unfolding config_set
config_set-full entries section key section' key' value default_val full =
    let no_room : leb max_entries (length entries) ≡ true = ground arith in rw no_room refl
