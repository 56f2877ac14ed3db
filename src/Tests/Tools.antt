-- ===== src/Tests/Tools.antt =====
-- The file tools on a small tree, and a shell command that runs into its deadline.
use dobby_ai.Base.{
  ◌≡◌, refl, true, false, Option, none, some, List, [], ◌∷◌, Bytes, codes, str_eq, arith,
  if◌then◌else◌,
}
use dobby_ai.Json.{JsonOps}
use dobby_ai.Allowlist.{allowlist_add, allowlist_create}
use dobby_ai.FileTool.{Os, errno, got, file_search_exec}
use dobby_ai.FileTool.Paths.{ShortRules, MatchesPermitted, file_search_exec-MatchesPermitted}
use dobby_ai.ShellTool.{Poll, polled, Ran, ran, shell_run_timed}
use dobby_ai.ShellTool.Output.{IsCapped, shell_run_timed-returns}
use dobby_ai.Tests.Access.{fnmatch, one_rule}

abbrev Args : Type 0
Args = List (Bytes × Bytes)

abbrev lookup : Bytes → Args → Option Args
lookup k [] = none
lookup k ((name, value) ∷ args) = if str_eq name k then some ((value, []) ∷ []) else lookup k args

abbrev head_text : Args → Option Bytes
head_text [] = none
head_text ((s, t) ∷ args) = some s

abbrev ops : JsonOps Args
ops = record {
  get_item = lookup;
  get_string = head_text;
  value_int = λ j. 0;
  is_true = λ j. false;
  items = λ j. [];
  parse = λ s. none;
  print = λ j. none;
  empty_object = [];
}

-- a directory with a file and a directory of the same two names in it, and so on
abbrev os : Os Unit
os = record {
  stat = λ w path. got (record { st_size = 3; is_dir = str_eq path (codes "/tmp/sub") });
  read = λ w path n. errno (codes "closed");
  write = λ w path content. (errno (codes "closed"), w);
  read_dir = λ w path. got (codes "sub" ∷ codes "a.txt" ∷ []);
  unlink = λ w path. (none, w);
}

abbrev search : Args
search = (codes "pattern", codes ".TXT") ∷ (codes "path", codes "/tmp/") ∷ []

short : ShortRules fnmatch (some one_rule)
unfolding allowlist_add allowlist_create
short = (omega arith, tt)

file_search_exec-MatchesPermitted_example :
    MatchesPermitted fnmatch
      (some one_rule)
      (file_search_exec os ops fnmatch (some one_rule) (some search) tt)
file_search_exec-MatchesPermitted_example =
    file_search_exec-MatchesPermitted os ops fnmatch (some one_rule) (some search) tt short

abbrev started : Poll
started = record { chunks = codes "working\n" ∷ []; exited = none; is_late = false }

abbrev late : Poll
late = record { chunks = []; exited = none; is_late = true }

shell_run_timed-returns_example :
    (r : Ran) × (shell_run_timed (polled (started ∷ late ∷ []) []) ≡ some (ran r)) × IsCapped r
shell_run_timed-returns_example = shell_run_timed-returns (started ∷ []) [] late [] refl
