-- ===== src/Subagent/Reports.antt =====
-- tools/subagent/subagent.c: what subagent_status and the snapshot report of the pool, and the tools'
-- arguments. A JSON object is the list of the calls that add its fields.
use dobby_ai.Base.{
  ℕ, Bool, not, ◌||◌, Option, none, some, List, [], ◌∷◌, ◌++◌, Bytes, codes, ◌==◌, if◌then◌else◌,
}
use dobby_ai.Json.{JsonOps, get_object_item, get_string_value}
use dobby_ai.Subagent.{Slot, Pool, state_str, is_idle, is_running, or_text}
use dobby_ai.Subagent.Tool.{Spawned, tool_spawn}

-- cJSON_AddNumberToObject, cJSON_AddStringToObject, and the former with difftime of two times
pub data Field : Type 0 where
  number : Bytes → ℕ → Field
  text : Bytes → Bytes → Field
  seconds : Bytes → ℕ → ℕ → Field

pub data Status : Type 0 where
  listing : List (List Field) → Status
  report : List Field → Status
  not_found_or_recycled : ℕ → Status

abbrev pub still_running : Bytes
still_running = codes "Still running. Call subagent_status again later to check."

module _ {J : Type 0} where
  abbrev pub result_field : Slot J → List Field
  result_field sl = elim sl.result [
    | none ↦ []
    | some r ↦ if is_running sl.state then [] else text (codes "result") r ∷ []
  ]

  abbrev pub head_fields : Bytes → ℕ → Slot J → List Field
  head_fields id_name now sl =
      number id_name sl.id
      ∷ text (codes "name") (or_text sl.name [])
      ∷ text (codes "status") (state_str sl.state)
      ∷ text (codes "task") (or_text sl.task [])
      ∷ seconds (codes "elapsed_sec") now sl.started_at
      ∷ []

  unfoldable pub list_slots : Bytes → ℕ → List (Slot J) → List (List Field)
  list_slots id_name now [] = []
  list_slots id_name now (sl ∷ slots) =
      let rest = list_slots id_name now slots in
      if is_idle sl.state then rest else (head_fields id_name now sl ++ result_field sl) ∷ rest

  unfoldable pub slot_report : ℕ → Slot J → List Field
  slot_report now sl =
      head_fields (codes "subagent_id") now sl
      ++ (if is_running sl.state
          then text (codes "note") still_running ∷ []
          else text (codes "result") (or_text sl.result (codes "(no result)"))
            ∷ seconds (codes "duration_sec") sl.finished_at sl.started_at
            ∷ [])

  unfoldable pub find_report : ℕ → ℕ → List (Slot J) → Status
  find_report now target [] = not_found_or_recycled target
  find_report now target (sl ∷ slots) =
      let rest = find_report now target slots in
      if not (sl.id == target) || is_idle sl.state then rest else report (slot_report now sl)

  -- `none` is an id that is missing, or not a number.
  unfoldable pub tool_status : ℕ → Option ℕ → Pool J → Status
  tool_status now none pool = listing (list_slots (codes "subagent_id") now pool.slots)
  tool_status now (some target) pool = find_report now target pool.slots

  unfoldable pub subagent_pool_json : ℕ → Option (Pool J) → List (List Field)
  subagent_pool_json now none = []
  subagent_pool_json now (some pool) = list_slots (codes "id") now pool.slots

  module _ (ops : JsonOps J) (is_number : J → Bool) where
    abbrev number_of : Option J → Option ℕ
    number_of none = none
    number_of (some j) = if is_number j then some (ops.value_int j) else none

    unfoldable pub status_tool : ℕ → Option J → Pool J → Status
    status_tool now args pool =
        tool_status now (number_of (get_object_item ops args (codes "subagent_id"))) pool

    unfoldable pub spawn_tool : Bool → ℕ → Option J → Pool J → Spawned J
    spawn_tool created now args pool =
        tool_spawn created now (get_string_value ops (get_object_item ops args (codes "name")))
          (get_string_value ops (get_object_item ops args (codes "task")))
          (get_string_value ops (get_object_item ops args (codes "context"))) pool
