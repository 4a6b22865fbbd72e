-- ===== src/Client/Types.antt =====
-- The types of the REST surface, as tests of a JSON value: sdk/typescript/src/types.ts. An interface
-- is met by an object with its required properties, each of its type, whose optional properties, where
-- they are there, have theirs; further properties are allowed.
use wop.Prelude.{String, Bool, true, false, ◌&&◌, List, [], ◌∷◌, all, any, ◌==◌, maybe}
use wop.Json.{Json, Fields, items, end, field, find_field, bool, num, str, arr, obj}

abbrev pub is_string : Json → Bool
is_string (str s) = true
is_string _ = false

abbrev pub is_number : Json → Bool
is_number (num n) = true
is_number _ = false

abbrev pub is_boolean : Json → Bool
is_boolean (bool b) = true
is_boolean _ = false

-- `unknown`
abbrev pub is_unknown : Json → Bool
is_unknown v = true

-- A union of literals.
abbrev pub is_one_of : List String → Json → Bool
is_one_of names (str s) = any (λ (n : String). n == s) names
is_one_of names _ = false

-- `readonly T[]`
abbrev pub is_array_of : (Json → Bool) → Json → Bool
is_array_of test (arr vs) = all test (items vs)
is_array_of test _ = false

abbrev pub all_fields : (Json → Bool) → Fields → Bool
all_fields test end = true
all_fields test (field k v fs) = test v && all_fields test fs

-- `Record<string, T>`
abbrev pub is_record_of : (Json → Bool) → Json → Bool
is_record_of test (obj fs) = all_fields test fs
is_record_of test _ = false

-- `name: T` and `name?: T`
pub data Property : Type 0 where
  required optional : String → (Json → Bool) → Property

abbrev pub has_property : Fields → Property → Bool
has_property fs (required name test) = maybe (find_field name fs) false test
has_property fs (optional name test) = maybe (find_field name fs) true test

-- `interface { … }`
abbrev pub is_object_with : List Property → Json → Bool
is_object_with properties (obj fs) = all (has_property fs) properties
is_object_with properties _ = false

abbrev pub is_run_status : Json → Bool
is_run_status = is_one_of (
    "pending" ∷ "running" ∷ "paused" ∷ "waiting-approval" ∷ "waiting-input" ∷ "completed" ∷ "failed"
    ∷ "cancelled" ∷ [])

abbrev limits : List Property
limits =
    required "clarificationRounds" is_number
    ∷ required "schemaRounds" is_number
    ∷ required "envelopesPerTurn" is_number
    ∷ optional "maxNodeExecutions" is_number
    ∷ []

abbrev implementation : List Property
implementation =
    optional "name" is_string ∷ optional "version" is_string ∷ optional "vendor" is_string ∷ []

unfoldable pub is_capabilities : Json → Bool
is_capabilities = is_object_with (
    required "protocolVersion" is_string
    ∷ required "supportedEnvelopes" (is_array_of is_string)
    ∷ required "schemaVersions" (is_record_of is_number)
    ∷ required "limits" (is_object_with limits)
    ∷ optional "extensions" (is_record_of is_unknown)
    ∷ optional "implementation" (is_object_with implementation)
    ∷ optional "engineVersion" is_number
    ∷ optional "eventLogSchemaVersion" is_number
    ∷ optional "supportedTransports"
        (is_array_of (is_one_of ("rest" ∷ "mcp" ∷ "a2a" ∷ "grpc" ∷ [])))
    ∷ optional "configurable" (is_record_of is_unknown)
    ∷ optional "observability" (is_record_of is_unknown)
    ∷ optional "minClientVersion" is_string
    ∷ [])

abbrev run_error : List Property
run_error = optional "code" is_string ∷ optional "message" is_string ∷ []

unfoldable pub is_run_snapshot : Json → Bool
is_run_snapshot = is_object_with (
    required "runId" is_string
    ∷ required "workflowId" is_string
    ∷ required "status" is_run_status
    ∷ optional "currentNodeId" is_string
    ∷ optional "startedAt" is_string
    ∷ optional "completedAt" is_string
    ∷ optional "nodeStates" (is_record_of is_unknown)
    ∷ optional "variables" (is_record_of is_unknown)
    ∷ optional "channels" (is_record_of is_unknown)
    ∷ optional "error" (is_object_with run_error)
    ∷ [])

-- `RunConfigurable`; the index signature allows all else.
unfoldable pub is_run_configurable : Json → Bool
is_run_configurable = is_object_with (
    optional "recursionLimit" is_number
    ∷ optional "model" is_string
    ∷ optional "temperature" is_number
    ∷ optional "maxTokens" is_number
    ∷ optional "promptOverrides" (is_record_of is_string)
    ∷ [])

unfoldable pub is_create_run_request : Json → Bool
unfolding is_run_configurable
is_create_run_request = is_object_with (
    required "workflowId" is_string
    ∷ optional "inputs" (is_record_of is_unknown)
    ∷ optional "tenantId" is_string
    ∷ optional "scopeId" is_string
    ∷ optional "callbackUrl" is_string
    ∷ optional "configurable" is_run_configurable
    ∷ optional "tags" (is_array_of is_string)
    ∷ optional "metadata" (is_record_of is_unknown)
    ∷ [])

unfoldable pub is_create_run_response : Json → Bool
is_create_run_response = is_object_with (
    required "runId" is_string
    ∷ required "status" is_run_status
    ∷ required "eventsUrl" is_string
    ∷ optional "statusUrl" is_string
    ∷ [])

unfoldable pub is_cancel_run_response : Json → Bool
is_cancel_run_response = is_object_with (
    required "runId" is_string
    ∷ required "status" (is_one_of ("cancelled" ∷ "cancelling" ∷ []))
    ∷ [])

unfoldable pub is_run_event_doc : Json → Bool
is_run_event_doc = is_object_with (
    required "eventId" is_string
    ∷ required "runId" is_string
    ∷ optional "nodeId" is_string
    ∷ required "type" is_string
    ∷ required "payload" is_unknown
    ∷ required "timestamp" is_string
    ∷ required "sequence" is_number
    ∷ optional "schemaVersion" is_number
    ∷ optional "engineVersion" is_string
    ∷ optional "causationId" is_string
    ∷ [])

unfoldable pub is_poll_events_response : Json → Bool
unfolding is_run_event_doc
is_poll_events_response =
    is_object_with
      (required "events" (is_array_of is_run_event_doc) ∷ required "isComplete" is_boolean ∷ [])

unfoldable pub is_error_envelope : Json → Bool
is_error_envelope = is_object_with (
    required "error" is_string
    ∷ required "message" is_string
    ∷ optional "details" (is_record_of is_unknown)
    ∷ [])
