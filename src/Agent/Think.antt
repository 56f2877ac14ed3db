-- ===== src/Agent/Think.antt =====
-- agent/agent.c, strip_think_tags: the reasoning between think tags is cut out of an answer.
pub mod Laws
use dobby_ai.Base.{ℕ, zero, suc, Option, none, some, [], ◌++◌, Bytes, codes, length, drop}
use dobby_ai.Text.{split_sub, str_trim}

abbrev pub open_tag : Bytes
open_tag = codes "<think>"

abbrev pub close_tag : Bytes
close_tag = codes "</think>"

-- The loop on the text that is left, on fuel. The end of the text ends it, an unclosed tag too.
unfoldable pub strip_loop : ℕ → Bytes → Option Bytes
strip_loop zero p = none
strip_loop (suc f) p = elim (split_sub open_tag p) [
  | none ↦ some p
  | some (before, start) ↦ elim (split_sub close_tag (drop 7 start)) [
    | none ↦ some before
    | some (inside, end) ↦ elim (strip_loop f (drop 8 end)) [
      | none ↦ none
      | some rest ↦ some (before ++ rest)
    ]
  ]
]

-- A null input gives a null output; the fuel is the length of the text and one round more.
unfoldable pub strip_think_tags : Option Bytes → Option Bytes
strip_think_tags none = none
strip_think_tags (some s) = elim (strip_loop (suc (length s)) s) [
  | none ↦ none
  | some t ↦ some (str_trim t)
]
