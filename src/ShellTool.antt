-- ===== src/ShellTool.antt =====
-- tools/shell/shell_tool.c: shell commands behind the allowlist of commands. What the child does is a
-- parameter: the rounds of the loop that polls it. The output buffer is its text.
pub mod Output
use dobby_ai.Base.{
  ℕ, zero, suc, ◌+◌, ◌-◌, ◌*◌, ◌==◌, Bool, true, false, ◌||◌, Option, none, some, List, [], ◌∷◌,
  ◌++◌, Bytes, codes, is_empty, ltb, leb, if◌then◌else◌, length, take,
}
use dobby_ai.Text.{cut_at}
use dobby_ai.Text.Sanitize.{sanitize_output}
use dobby_ai.Json.{JsonOps, get_object_item, get_string_value}
use dobby_ai.Allowlist.{Allowlist, acl_command, allowlist_is_enabled, allowlist_check}

abbrev pub max_output_size : ℕ
max_output_size = 32 * 1024

abbrev pub default_timeout : ℕ
default_timeout = 30

-- One round: the pieces that the pipe gives, each of at most 4095 bytes; whether the child has ended,
-- with its exit code, none for a signal; and whether the deadline has passed.
pub record Poll : Type 0 where
  pub chunks : List Bytes
  pub exited : Option (Option ℕ)
  pub is_late : Bool

-- What happens to the child: the error's text when there is none, or the rounds, and what the pipe still
-- holds at the end.
pub data Child : Type 0 where
  spawn_error : Bytes → Child
  polled : List Poll → List Bytes → Child

-- the pieces behind the buffer, up to 32 KB; a piece ends at its first zero byte. The code reads while
-- there is something to read; the pieces of a round are finitely many here, so a child that never lets the
-- pipe run empty is not covered.
unfoldable pub drain : Bytes → List Bytes → Bytes
drain sb [] = sb
drain sb (chunk ∷ chunks) =
    if ltb (length sb) max_output_size
    then drain (sb ++ cut_at 0 (take (max_output_size - length sb) chunk)) chunks
    else drain sb chunks

-- The output and the exit code, none for a signal or a timeout.
pub record Ran : Type 0 where
  pub output : Bytes
  pub exit_code : Option ℕ
  pub timed_out : Bool

-- The loop; `none` is still running.
unfoldable pub poll_child : Bytes → List Poll → Option Ran
poll_child sb [] = none
poll_child sb (p ∷ polls) =
    let sb' = drain sb p.chunks in
    let rest = poll_child sb' polls in
    elim p.exited [
      | some code ↦ some (record { output = sb'; exit_code = code; timed_out = false })
      | none ↦
          if p.is_late
          then some (record { output = sb'; exit_code = none; timed_out = true })
          else rest
    ]

abbrev pub timeout_note : Bytes
timeout_note = codes "\n[dobby: command timed out and was killed]"

abbrev pub truncated_note : Bytes
truncated_note = codes "\n[dobby: output truncated]"

-- the note behind the output
unfoldable pub with_note : Bool → Bytes → Bytes
with_note timed_out sb =
    if timed_out
    then sb ++ timeout_note
    else if leb max_output_size (length sb)
    then sb ++ truncated_note
    else sb

unfoldable pub last_drain : List Bytes → Ran → Ran
last_drain chunks r = record r { output = with_note r.timed_out (drain r.output chunks) }

pub data ShellRun : Type 0 where
  not_spawned : Bytes → ShellRun
  ran : Ran → ShellRun

-- `none` is still running.
unfoldable pub shell_run_timed : Child → Option ShellRun
shell_run_timed (spawn_error e) = some (not_spawned e)
shell_run_timed (polled polls chunks) = elim (poll_child [] polls) [
  | none ↦ none
  | some r ↦ some (ran (last_drain chunks r))
]

pub data ShellAnswer : Type 0 where
  command_required : ShellAnswer
  command_not_permitted : Bytes → ShellAnswer
  spawn_failed : Bytes → ShellAnswer
  shell_result : Bytes → Option ℕ → Option Bytes → ShellAnswer

abbrev pub shell_answer : Bytes → ShellRun → ShellAnswer
shell_answer command (not_spawned e) = spawn_failed e
shell_answer command (ran r) = shell_result command r.exit_code (sanitize_output (some r.output))

-- the timeout in seconds; `none` is one that is missing, or not a number
unfoldable pub timeout_of : Option ℕ → ℕ
timeout_of none = default_timeout
timeout_of (some t) = if t == 0 || ltb 300 t then default_timeout else t

module _ (fnmatch : Bytes → Bytes → Bool → Bool) (al : Option Allowlist) where
  unfoldable pub command_permitted : Bytes → Bool
  command_permitted command = elim al [
    | none ↦ true
    | some l ↦
        if allowlist_is_enabled l acl_command
        then allowlist_check fnmatch l acl_command command
        else true
  ]

  -- `child` is what a command does with a timeout.
  unfoldable pub run_command : (Bytes → ℕ → Child) → Bytes → Option ℕ → Option ShellAnswer
  run_command child command timeout =
      if command_permitted command
      then elim (shell_run_timed (child command (timeout_of timeout))) [
        | none ↦ none
        | some r ↦ some (shell_answer command r)
      ]
      else some (command_not_permitted command)

  module _ {J : Type 0} (ops : JsonOps J) (is_number : J → Bool) (child : Bytes → ℕ → Child) where
    abbrev number_of : Option J → Option ℕ
    number_of none = none
    number_of (some j) = if is_number j then some (ops.value_int j) else none

    unfoldable pub shell_execute : Option J → Option ShellAnswer
    shell_execute args = elim (get_string_value ops (get_object_item ops args (codes "command"))) [
      | none ↦ some command_required
      | some command ↦
          if is_empty command
          then some command_required
          else run_command child command (number_of (get_object_item ops args (codes "timeout")))
    ]
