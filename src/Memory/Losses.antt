-- ===== src/Memory/Losses.antt =====
-- What a file's size, and its lines' lengths, do to a store.
use dobby_ai.Base.{
  ◌<◌, ◌≡◌, refl, sym, ap, ◌∙◌, true, false, inl, inr, Bool-cases, Option, none, some, List, [],
  ◌∷◌, ◌++◌, arith, Bytes, leb, ltb, length, ◌==◌, is_empty,
}
use dobby_ai.Memory.{
  line_cap, copy_line, is_bullet, bullet_of, pass_heading, put_line, before_lines, StoreState,
  store_lines, store_start, store_text, split_lines, canonicalise_section,
}
use dobby_ai.Memory.RoundTrip.{after, new_text, memory_store-after}
use dobby_ai.Memory.Files.{read_memory_file, memory_store, max_file_size}

read-too_large :
    (bytes : Bytes)
    → max_file_size < length bytes
    → read_memory_file (some bytes) ≡ read_memory_file none
unfolding read_memory_file
read-too_large bytes h = let e : ltb max_file_size (length bytes) ≡ true = ground arith in rw e

-- A file of more than 256 KB is overwritten as if it were not there: all its facts are lost.
pub memory_store-too_large :
    (category : Option Bytes) (key value bytes : Bytes)
    → max_file_size < length bytes
    → is_empty key ≡ false
    → memory_store true category (some key) (some value) (some bytes)
      ≡ memory_store true category (some key) (some value) none
memory_store-too_large category key value bytes h k =
    memory_store-after category key value (some bytes) k
    ∙ ap (λ t. after (store_text (canonicalise_section category) key (bullet_of key value) t))
        (read-too_large bytes h)
    ∙ sym (memory_store-after category key value none k)

copy_line-long : (line : Bytes) → 2048 < length line → copy_line line ≡ none
unfolding copy_line
copy_line-long line h =
    let fits : leb (length line) line_cap ≡ false = ground arith in
    let equal : (length line == 2048) ≡ false = ground arith in rw (fits, equal)

module _ (section key bullet : Bytes) where
  put-long :
      (st : StoreState) (line : Bytes)
      → 2048 < length line
      → is_bullet line ≡ false
      → put_line key bullet st line ≡ none
  unfolding put_line
  put-long st line h b = elim (Bool-cases st.in_target) [
    | inl t ↦ rw (t, b, copy_line-long line h)
    | inr t ↦ rw (t, copy_line-long line h)
  ]

  abbrev then_put :
      List Bytes → List Bytes → Option (Bytes × StoreState) → Option (List Bytes × StoreState)
  then_put pre ls none = none
  then_put pre ls (some (l, st)) = before_lines pre l (store_lines section key bullet ls st)

  store-line :
      (l : Bytes) (ls : List Bytes) (st : StoreState)
      → let (pre, st') = pass_heading section bullet st l in
        store_lines section key bullet (l ∷ ls) st ≡ then_put pre ls (put_line key bullet st' l)
  unfolding store_lines
  store-line l ls st = ground arith

  then_put-none :
      (pre ls : List Bytes) (o : Option (Bytes × StoreState))
      → ((l : Bytes) (st : StoreState) → store_lines section key bullet ls st ≡ none)
      → then_put pre ls o ≡ none
  then_put-none pre ls none h = refl
  then_put-none pre ls (some (l, st)) h = rw (h l st) refl

  store_lines-long :
      (before behind : List Bytes) (line : Bytes) (st : StoreState)
      → 2048 < length line
      → is_bullet line ≡ false
      → store_lines section key bullet (before ++ (line ∷ behind)) st ≡ none
  store_lines-long [] behind line st h b =
      store-line line behind st
      ∙ ap (then_put (pass_heading section bullet st line).0 behind)
          (put-long (pass_heading section bullet st line).1 line h b)
  store_lines-long (l ∷ before) behind line st h b =
      store-line l (before ++ (line ∷ behind)) st
      ∙ then_put-none (pass_heading section bullet st l).0 (before ++ (line ∷ behind))
          (put_line key bullet (pass_heading section bullet st l).1 l)
          (λ out st''. store_lines-long before behind line st'' h b)

long_text :
    (section key bullet content : Bytes)
    → store_lines section key bullet (split_lines content) store_start ≡ none
    → store_text section key bullet content ≡ none
unfolding store_text
long_text section key bullet content e = ground arith

-- A line of more than 2048 bytes, its newline included, that is not a fact makes a store with a key run
-- past the end of the line's copy, wherever it stands in the file and whatever is stored.
pub memory_store-long_line :
    (category : Option Bytes) (key value : Bytes) (file : Option Bytes) (before behind : List Bytes)
    (line : Bytes)
    → is_empty key ≡ false
    → split_lines (read_memory_file file) ≡ before ++ (line ∷ behind)
    → 2048 < length line
    → is_bullet line ≡ false
    → memory_store true category (some key) (some value) file ≡ none
memory_store-long_line category key value file before behind line k e h b =
    memory_store-after category key value file k ∙ ap after no_text
  where
    no_text : new_text category key value file ≡ none
    no_text =
        long_text (canonicalise_section category) key (bullet_of key value) (read_memory_file file)
          (ap
              (λ ls.
                store_lines (canonicalise_section category) key (bullet_of key value) ls
                  store_start)
              e
            ∙ store_lines-long (canonicalise_section category) key (bullet_of key value) before
                behind line store_start h b)
