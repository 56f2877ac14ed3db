-- ===== src/Json.antt =====
-- The calls of the bundled JSON library (core/cJSON.h) that the agent and its tools make. The
-- library is not modelled: a value of `JsonOps` stands for it.
use dobby_ai.Base.{ℕ, Bool, Option, none, some, List, Bytes}

pub record JsonOps (J : Type 0) : Type 0 where
  -- cJSON_GetObjectItem on an object
  pub get_item : Bytes → J → Option J
  -- the text of a string node, nothing for another node
  pub get_string : J → Option Bytes
  -- the number of a node, cut to an int
  pub value_int : J → ℕ
  pub is_true : J → Bool
  -- the elements of an array
  pub items : J → List J
  pub parse : Bytes → Option J
  pub print : J → Option Bytes
  pub empty_object : J

module _ {J : Type 0} (ops : JsonOps J) where
  -- cJSON_GetObjectItem on a pointer that may be null
  abbrev pub get_object_item : Option J → Bytes → Option J
  get_object_item none k = none
  get_object_item (some j) k = ops.get_item k j

  -- cJSON_GetStringValue on a pointer that may be null
  abbrev pub get_string_value : Option J → Option Bytes
  get_string_value none = none
  get_string_value (some j) = ops.get_string j
