-- ===== src/Tests/Facts.antt =====
-- A small file of facts.
use dobby_ai.Base.{
  ℕ, suc, ◌<◌, ◌≡◌, refl, subst, sym, true, false, Option, none, some, Bytes, codes,
  length-replicate, replicate, arith, str_eq, All,
}
use dobby_ai.Text.{str_trim, is_space}
use dobby_ai.Text.Trim.{IsTrimmed, full}
use dobby_ai.Memory.Sections.{avoids-Avoids}
use dobby_ai.Memory.{value_of, canonicalise_section, split_lines, bullet_of, is_bullet}
use dobby_ai.Memory.Entry.{IsFact}
use dobby_ai.Memory.Lines.{whole}
use dobby_ai.Memory.Recall.{IsFileLine}
use dobby_ai.Memory.RoundTrip.{memory_recall-memory_store, Recalls, IsReadable}
use dobby_ai.Memory.Keeps.{memory_recall-other}
use dobby_ai.Memory.Losses.{memory_store-too_large}
use dobby_ai.Memory.Files.{memory_recall, memory_store, stored, max_file_size, read_memory_file}

abbrev category : Option Bytes
category = none

abbrev key : Bytes
key = codes "name"

abbrev value : Bytes
value = codes "Ann"

abbrev file : Option Bytes
file = some (codes "## Important Notes\n- name: Bo\n")

key-IsTrimmed : IsTrimmed key
unfolding is_space
key-IsTrimmed = full 110 (codes "ame") refl refl

value-IsTrimmed : IsTrimmed value
unfolding is_space
value-IsTrimmed = full 65 (codes "nn") refl refl

name-IsFact : IsFact key value
name-IsFact = record {
  key_trimmed = key-IsTrimmed;
  key_given = refl;
  key_short = omega arith;
  key_no_colon = avoids-Avoids 58 key refl;
  key_no_newline = avoids-Avoids 10 key refl;
  key_no_zero = avoids-Avoids 0 key refl;
  value_trimmed = value-IsTrimmed;
  value_short = omega arith;
  value_no_newline = avoids-Avoids 10 value refl;
  value_no_zero = avoids-Avoids 0 value refl;
}

heading_line-IsFileLine : IsFileLine (canonicalise_section category) (codes "## Important Notes\n")
unfolding str_trim dobby_ai.Text.cut_at dobby_ai.Memory.heading_text dobby_ai.Text.split_char
heading_line-IsFileLine = record {
  is_line = whole (codes "## Important Notes") (avoids-Avoids 10 (codes "## Important Notes") refl);
  fits = omega arith;
  no_zero = avoids-Avoids 0 (codes "## Important Notes\n") refl;
  agrees = refl;
}

fact_line-IsFileLine : IsFileLine (canonicalise_section category) (codes "- name: Bo\n")
unfolding str_trim dobby_ai.Text.cut_at dobby_ai.Memory.heading_text dobby_ai.Text.split_char
fact_line-IsFileLine = record {
  is_line = whole (codes "- name: Bo") (avoids-Avoids 10 (codes "- name: Bo") refl);
  fits = omega arith;
  no_zero = avoids-Avoids 0 (codes "- name: Bo\n") refl;
  agrees = refl;
}

file_lines : All (IsFileLine (canonicalise_section category)) (split_lines (read_memory_file file))
unfolding split_lines read_memory_file dobby_ai.Text.cut_at dobby_ai.Text.split_char
file_lines = (heading_line-IsFileLine, (fact_line-IsFileLine, tt))

stored_file :
    memory_store true category (some key) (some value) file
    ≡ some (stored, some (codes "## Important Notes\n- name: Ann\n"))
unfolding memory_store dobby_ai.Memory.Files.store_entry dobby_ai.Memory.store_text
    dobby_ai.Memory.store_lines split_lines read_memory_file dobby_ai.Text.cut_at
    dobby_ai.Text.split_char dobby_ai.Memory.put_line dobby_ai.Memory.pass_heading
    dobby_ai.Text.is_prefix str_eq dobby_ai.Memory.heading_text canonicalise_section
    dobby_ai.Memory.copy_line dobby_ai.Memory.bullet_key str_trim
    dobby_ai.Memory.Files.write_memory_file bullet_of dobby_ai.Memory.store_end is_space
    dobby_ai.Text.skip_spaces dobby_ai.Text.trim_back dobby_ai.Text.trim_end
stored_file = refl

stored_is_small : IsReadable (memory_store true category (some key) (some value) file)
stored_is_small = subst IsReadable (sym stored_file) (omega arith)

memory_recall-memory_store_example :
    Recalls category key (value_of value) (memory_store true category (some key) (some value) file)
memory_recall-memory_store_example =
    memory_recall-memory_store category key value file name-IsFact file_lines stored_is_small

abbrev large_file : Bytes
large_file = replicate (suc max_file_size) 65

memory_store-too_large_example :
    memory_store true category (some key) (some value) (some large_file)
    ≡ memory_store true category (some key) (some value) none
memory_store-too_large_example =
    memory_store-too_large category key value large_file
      (subst (λ n. max_file_size < n) (sym (length-replicate {A = ℕ} (suc max_file_size) 65))
        (omega arith))
      refl

abbrev city : Bytes
city = codes "city"

name_is_not_city : str_eq key city ≡ false
unfolding str_eq
name_is_not_city = refl

memory_recall-other_example :
    Recalls category city
      (memory_recall category (some city) file)
      (memory_store true category (some key) (some value) file)
memory_recall-other_example =
    memory_recall-other category key value city file name-IsFact name_is_not_city file_lines
      stored_is_small
