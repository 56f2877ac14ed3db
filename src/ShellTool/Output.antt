-- ===== src/ShellTool/Output.antt =====
-- tools/shell/shell_tool.c: the size of the output, and what a command's rule lets through.
use dobby_ai.Base.{
  ℕ, ◌+◌, ◌-◌, ◌≤◌, ◌≡◌, refl, sym, ◌∙◌, subst, inl, inr, Bool, true, false, Bool-cases, Option,
  none, some, Option-cases, List, [], ◌∷◌, ◌++◌, Bytes, codes, arith, ltb, leb, if◌then◌else◌,
  length, take, length-append, length-take,
}
use dobby_ai.Text.{cut_at, split_char}
use dobby_ai.Text.Search.{Avoids, split_char-some}
use dobby_ai.Allowlist.{Allowlist, acl_command, list_of, allowlist_is_enabled, allowlist_check}
use dobby_ai.Allowlist.Check.{Any, Permits, allowlist_check_iff}
use dobby_ai.ShellTool.{
  max_output_size, Poll, polled, drain, Ran, poll_child, with_note, last_drain, ShellRun, ran,
  shell_run_timed, command_permitted,
}

differ : true ≡ false → ⊥
differ h = ground arith

cut_at-length : (c : ℕ) (s : Bytes) → length (cut_at c s) ≤ length s
cut_at-length c s = elim (Option-cases (split_char c s)) [
  | inl e ↦ subst (λ t. length t ≤ length s) (sym (whole e)) (omega arith)
  | inr ((before, behind), e) ↦
      let eq : s ≡ before ++ (c ∷ behind) = (split_char-some c s before behind e).0 in
      subst (λ t. length t ≤ length s) (sym (part before behind e))
        (subst (λ t. length before ≤ length t) (sym eq)
          (omega (arith, length-append before (c ∷ behind))))
]
  where
    whole : split_char c s ≡ none → cut_at c s ≡ s
    whole e = unfold cut_at in rw (e, cut_at) refl

    part : (before behind : Bytes) → split_char c s ≡ some (before, behind) → cut_at c s ≡ before
    part before behind e = unfold cut_at in rw (e, cut_at) refl

-- The buffer never holds more than 32 KB.
drain-fits :
    (sb : Bytes) (chunks : List Bytes)
    → length sb ≤ max_output_size
    → length (drain sb chunks) ≤ max_output_size
unfolding drain
drain-fits sb [] h = h
drain-fits sb (chunk ∷ chunks) h = elim (Bool-cases (ltb (length sb) max_output_size)) [
  | inl e ↦
      rw e
        (drain-fits (sb ++ cut_at 0 (take (max_output_size - length sb) chunk)) chunks piece_fits)
  | inr e ↦ rw e (drain-fits sb chunks h)
]
  where
    piece : Bytes
    piece = take (max_output_size - length sb) chunk

    piece_fits : length (sb ++ cut_at 0 piece) ≤ max_output_size
    piece_fits = omega (
      arith,
      length-append sb (cut_at 0 piece),
      cut_at-length 0 piece,
      length-take (max_output_size - length sb) chunk,
    )

-- at most 32 KB, and a note
abbrev pub IsCapped : Ran → Type 0
IsCapped r = length r.output ≤ max_output_size + 42

with_note-fits :
    (timed_out : Bool) (sb : Bytes)
    → length sb ≤ max_output_size
    → length (with_note timed_out sb) ≤ max_output_size + 42
unfolding with_note
with_note-fits true sb h =
    omega (arith, length-append sb (codes "\n[dobby: command timed out and was killed]"))
with_note-fits false sb h = elim (Bool-cases (leb max_output_size (length sb))) [
  | inl e ↦ rw e (omega (arith, length-append sb (codes "\n[dobby: output truncated]")))
  | inr e ↦ rw e (omega arith)
]

abbrev Polls : Option Ran → Type 0
Polls none = ⊥
Polls (some r) = length r.output ≤ max_output_size

-- how a round ends
abbrev ends : Bytes → Bool → Option Ran → Option (Option ℕ) → Option Ran
ends sb late rest (some code) = some (record { output = sb; exit_code = code; timed_out = false })
ends sb late rest none =
    if late then some (record { output = sb; exit_code = none; timed_out = true }) else rest

poll_child-cons :
    (sb : Bytes) (p : Poll) (polls : List Poll)
    → poll_child sb (p ∷ polls)
      ≡ ends (drain sb p.chunks) p.is_late (poll_child (drain sb p.chunks) polls) p.exited
unfolding poll_child
poll_child-cons sb p polls = ground arith

ends-Polls :
    (sb : Bytes) (late : Bool) (rest : Option Ran) (exited : Option (Option ℕ))
    → length sb ≤ max_output_size
    → (late ≡ false → Polls rest)
    → Polls (ends sb late rest exited)
ends-Polls sb late rest (some code) h r = h
ends-Polls sb true rest none h r = h
ends-Polls sb false rest none h r = r refl

-- a deadline in some round ends the loop there at the latest
poll_child-Polls :
    (sb : Bytes) (before behind : List Poll) (p : Poll)
    → length sb ≤ max_output_size
    → p.is_late ≡ true
    → Polls (poll_child sb (before ++ (p ∷ behind)))
poll_child-Polls sb [] behind p h late = subst Polls (sym (poll_child-cons sb p behind)) (
    ends-Polls (drain sb p.chunks) p.is_late _ p.exited (drain-fits sb p.chunks h)
      (λ f. absurd (differ (sym late ∙ f))))
poll_child-Polls sb (q ∷ before) behind p h late =
    subst Polls (sym (poll_child-cons sb q (before ++ (p ∷ behind)))) (
      ends-Polls (drain sb q.chunks) q.is_late _ q.exited (drain-fits sb q.chunks h)
        (λ f. poll_child-Polls (drain sb q.chunks) before behind p (drain-fits sb q.chunks h) late))

abbrev ran_last : List Bytes → Option Ran → Option ShellRun
ran_last chunks none = none
ran_last chunks (some r) = some (ran (last_drain chunks r))

ran_last-IsCapped :
    (chunks : List Bytes) (o : Option Ran)
    → Polls o
    → (r : Ran) × (ran_last chunks o ≡ some (ran r)) × IsCapped r
unfolding last_drain
ran_last-IsCapped chunks none h = elim h [ ]
ran_last-IsCapped chunks (some r) h = (
  last_drain chunks r,
  refl,
  with_note-fits r.timed_out (drain r.output chunks) (drain-fits r.output chunks h),
)

shell_run_timed-ran_last :
    (polls : List Poll) (chunks : List Bytes)
    → shell_run_timed (polled polls chunks) ≡ ran_last chunks (poll_child [] polls)
unfolding shell_run_timed
shell_run_timed-ran_last polls chunks = ground arith

-- shell_run_timed returns when the deadline is past in some round, whatever the command writes, and its
-- output is at most 32 KB and a note of 42 bytes.
pub shell_run_timed-returns :
    (before behind : List Poll) (p : Poll) (chunks : List Bytes)
    → p.is_late ≡ true
    → (r : Ran) × (shell_run_timed (polled (before ++ (p ∷ behind)) chunks) ≡ some (ran r))
      × IsCapped r
shell_run_timed-returns before behind p chunks late =
    let (r, e, c) =
      ran_last-IsCapped chunks _ (poll_child-Polls [] before behind p (omega arith) late) in
    (r, shell_run_timed-ran_last (before ++ (p ∷ behind)) chunks ∙ e, c)

module _ (fnmatch : Bytes → Bytes → Bool → Bool) where
  name-Any :
      (before behind : List Bytes) (rule name rest : Bytes)
      → Avoids 32 name
      → fnmatch rule name false ≡ true
      → Any (λ p. Permits fnmatch acl_command p (name ++ (32 ∷ rest))) (before ++ (rule ∷ behind))
  name-Any [] behind rule name rest a m = inl (inr (name, rest, refl, a, m))
  name-Any (q ∷ before) behind rule name rest a m = inr (name-Any before behind rule name rest a m)

  permitted-check :
      (l : Allowlist) (command : Bytes)
      → allowlist_check fnmatch l acl_command command ≡ true
      → command_permitted fnmatch (some l) command ≡ true
  unfolding command_permitted
  permitted-check l command h = elim (Bool-cases (allowlist_is_enabled l acl_command)) [
    | inl e ↦ rw e h
    | inr e ↦ rw e refl
  ]

  -- A rule that matches a command's name, without a blank in it, lets every text behind the name and a
  -- blank through: further commands too.
  pub command_permitted-chain :
      (l : Allowlist) (before behind : List Bytes) (rule name rest : Bytes)
      → (list_of l acl_command).rules ≡ before ++ (rule ∷ behind)
      → Avoids 32 name
      → fnmatch rule name false ≡ true
      → command_permitted fnmatch (some l) (name ++ (32 ∷ rest)) ≡ true
  command_permitted-chain l before behind rule name rest e a m =
      permitted-check l (name ++ (32 ∷ rest)) (
        (allowlist_check_iff fnmatch l acl_command (name ++ (32 ∷ rest))).1 (
          inr (
            subst (Any (λ p. Permits fnmatch acl_command p (name ++ (32 ∷ rest)))) (sym e)
              (name-Any before behind rule name rest a m))))
