-- ===== src/Agent/Wire/Exchange.antt =====
-- What the provider finds in the request that follows a round of tool calls.
use dobby_ai.Base.{
  ◌≡◌, refl, ap, inl, inr, Bool, true, false, Option, none, some, List, [], ◌∷◌, ◌++◌, Bytes, codes,
  if◌then◌else◌, Option-cases, str_eq,
}
use dobby_ai.Json.{JsonOps, get_string_value}
use dobby_ai.Agent.{Message}
use dobby_ai.Agent.Wire.{
  MsgFormat, WireArgs, text, object, WireCall, WireMessage, args_object, args_text, wire_call,
  wire_calls, wire_message, build_messages_json,
}

module _ {J : Type 0} (ops : JsonOps J) (fmt : MsgFormat) where
  -- The arguments of a call, as they are stored and as they are sent; the Boolean is the flag of the
  -- provider that takes an object.
  pub data SentArgs (stored : Option J) : Bool → WireArgs J → Type 0 where
    no_object : stored ≡ none → SentArgs stored true (object ops.empty_object)
    no_text : stored ≡ none → SentArgs stored false (text (codes "{}"))
    decoded :
        (j n : J) (s : Bytes)
        → stored ≡ some j
        → ops.get_string j ≡ some s
        → ops.parse s ≡ some n
        → SentArgs stored true (object n)
    undecoded :
        (j : J) (s : Bytes)
        → stored ≡ some j
        → ops.get_string j ≡ some s
        → ops.parse s ≡ none
        → SentArgs stored true (object ops.empty_object)
    copied : (j : J) → stored ≡ some j → ops.get_string j ≡ none → SentArgs stored true (object j)
    kept :
        (j : J) (s : Bytes)
        → stored ≡ some j
        → ops.get_string j ≡ some s
        → SentArgs stored false (text s)
    printed :
        (j : J) (s : Bytes)
        → stored ≡ some j
        → ops.get_string j ≡ none
        → ops.print j ≡ some s
        → SentArgs stored false (text s)
    unprinted :
        (j : J)
        → stored ≡ some j
        → ops.get_string j ≡ none
        → ops.print j ≡ none
        → SentArgs stored false (text (codes "{}"))

  -- The calls of an answer as they are sent back: in order, each with its id, its name and its
  -- arguments; one without a function is left out.
  pub data SentCalls : List J → List (WireCall J) → Type 0 where
    all_sent : SentCalls [] []
    sent :
        (tc func : J) (calls : List J) (c : WireCall J) (cs : List (WireCall J))
        → ops.get_item (codes "function") tc ≡ some func
        → c.call_id ≡ get_string_value ops (ops.get_item (codes "id") tc)
        → c.function_name ≡ get_string_value ops (ops.get_item (codes "name") func)
        → SentArgs (ops.get_item (codes "arguments") func) fmt.tool_args_as_object c.arguments
        → SentCalls calls cs
        → SentCalls (tc ∷ calls) (c ∷ cs)
    left_out :
        (tc : J) (calls : List J) (cs : List (WireCall J))
        → ops.get_item (codes "function") tc ≡ none
        → SentCalls calls cs
        → SentCalls (tc ∷ calls) cs

  -- One tool message for each call, in order, under the id of the call.
  pub data SentResults : List J → List (WireMessage J) → Type 0 where
    no_more : SentResults [] []
    result :
        (tc : J) (calls : List J) (w : WireMessage J) (ws : List (WireMessage J))
        → w.role ≡ codes "tool"
        → w.tool_call_id ≡ get_string_value ops (ops.get_item (codes "id") tc)
        → SentResults calls ws
        → SentResults (tc ∷ calls) (w ∷ ws)

  object-SentArgs : (stored : Option J) → SentArgs stored true (object (args_object ops fmt stored))
  unfolding args_object
  object-SentArgs none = no_object refl
  object-SentArgs (some j) = elim (Option-cases (ops.get_string j)) [
    | inl e ↦ rw (e, args_object) (copied j refl e)
    | inr (s, e) ↦ elim (Option-cases (ops.parse s)) [
      | inl p ↦ rw (e, args_object) (rw p (undecoded j s refl e p))
      | inr (n, p) ↦ rw (e, args_object) (rw p (decoded j n s refl e p))
    ]
  ]

  text-SentArgs : (stored : Option J) → SentArgs stored false (text (args_text ops fmt stored))
  unfolding args_text
  text-SentArgs none = no_text refl
  text-SentArgs (some j) = elim (Option-cases (ops.get_string j)) [
    | inr (s, e) ↦ rw (e, args_text) (kept j s refl e)
    | inl e ↦ elim (Option-cases (ops.print j)) [
      | inl p ↦ rw (e, args_text) (rw p (unprinted j refl e p))
      | inr (s, p) ↦ rw (e, args_text) (rw p (printed j s refl e p))
    ]
  ]

  args-SentArgs :
      (b : Bool) (stored : Option J)
      → SentArgs stored b
          (if b then object (args_object ops fmt stored) else text (args_text ops fmt stored))
  args-SentArgs true stored = object-SentArgs stored
  args-SentArgs false stored = text-SentArgs stored

  no_function :
      (tc : J) (calls : List J)
      → ops.get_item (codes "function") tc ≡ none
      → wire_calls ops fmt (tc ∷ calls) ≡ wire_calls ops fmt calls
  unfolding wire_calls
  no_function tc calls e = rw (e, wire_calls)

  a_function :
      (tc f : J) (calls : List J)
      → ops.get_item (codes "function") tc ≡ some f
      → wire_calls ops fmt (tc ∷ calls) ≡ wire_call ops fmt tc f ∷ wire_calls ops fmt calls
  unfolding wire_calls
  a_function tc f calls e = rw (e, wire_calls)

  wire_call-SentArgs :
      (tc func : J)
      → SentArgs
          (ops.get_item (codes "arguments") func)
          fmt.tool_args_as_object
          (wire_call ops fmt tc func).arguments
  unfolding wire_call
  wire_call-SentArgs tc func =
      args-SentArgs fmt.tool_args_as_object (ops.get_item (codes "arguments") func)

  wire_call-fields :
      (tc func : J)
      → ((wire_call ops fmt tc func).call_id ≡ get_string_value ops (ops.get_item (codes "id") tc))
        × ((wire_call ops fmt tc func).function_name
            ≡ get_string_value ops (ops.get_item (codes "name") func))
  unfolding wire_call
  wire_call-fields tc func = (refl, refl)

  pub wire_calls-SentCalls : (calls : List J) → SentCalls calls (wire_calls ops fmt calls)
  wire_calls-SentCalls [] = unfold wire_calls in all_sent
  wire_calls-SentCalls (tc ∷ calls) = elim (Option-cases (ops.get_item (codes "function") tc)) [
    | inl e ↦ rw (no_function tc calls e) (left_out tc calls _ e (wire_calls-SentCalls calls))
    | inr (f, e) ↦ rw (a_function tc f calls e) (
        sent tc f calls _ _ e (wire_call-fields tc f).0 (wire_call-fields tc f).1
          (wire_call-SentArgs tc f) (wire_calls-SentCalls calls))
  ]

  pub build-append :
      (xs ys : List (Message J))
      → build_messages_json ops fmt (xs ++ ys)
        ≡ build_messages_json ops fmt xs ++ build_messages_json ops fmt ys
  unfolding build_messages_json
  build-append [] ys = refl
  build-append (x ∷ xs) ys = ap (◌∷◌ (wire_message ops fmt x)) (build-append xs ys)

  pub wire-tool :
      (m : Message J)
      → m.role ≡ codes "tool"
      → ((wire_message ops fmt m).role ≡ codes "tool")
        × ((wire_message ops fmt m).tool_call_id ≡ m.tool_call_id)
  unfolding wire_message str_eq
  wire-tool m e = (e, ap (λ r. if str_eq r (codes "tool") then m.tool_call_id else none) e)

  pub wire-calls :
      (m : Message J) (calls : List J)
      → m.tool_calls ≡ some calls
      → (wire_message ops fmt m).tool_calls ≡ some (wire_calls ops fmt calls)
  unfolding wire_message
  wire-calls m calls e = rw e refl

  pub wire-role : (m : Message J) → (wire_message ops fmt m).role ≡ m.role
  unfolding wire_message
  wire-role m = refl
