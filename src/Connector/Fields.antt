-- ===== src/Connector/Fields.antt =====
-- `validate_stream`, `validate_management_group` and `validate_action`: constraints on fields.
use azure_iot_ops_cli_extens.Base.{
  ℕ, String, ◌<>◌, Bool, true, false, ◌&&◌, not, List, [], ◌∷◌, if◌then◌else◌, contains, string_eq,
  str_nat, ltb,
}
use azure_iot_ops_cli_extens.Base.Exec.{Exc, validation, Outcome, returned}
use azure_iot_ops_cli_extens.Base.Outcomes.{◌>>=◌, ◌>>◌, raise_if}
use azure_iot_ops_cli_extens.Base.Json.{
  Json, null, bool, pos, str, json_truthy, is_null, get, json_len,
}
use azure_iot_ops_cli_extens.Connector.{Host, text}

abbrev pub at_most : String → ℕ → ℕ → Exc
at_most what most n = validation (
    what
    <> (" must be at most "
        <> (str_nat most <> (" characters. Got " <> (str_nat n <> " characters.")))))

-- `if len(v) > most: raise`
unfoldable pub check_length : String → ℕ → Json → Outcome (Unit {0})
unfolding json_len
check_length what most v = do n ← json_len v; raise_if (ltb most n) (at_most what most n)

-- A required field, not empty and of a bounded length.
unfoldable pub check_required : String → ℕ → Json → Outcome (Unit {0})
unfolding check_length
check_required what most v =
    raise_if (not (json_truthy v)) (validation (what <> " is required."))
    >> check_length what most v

-- `if v and len(v) > most: raise`
unfoldable pub check_optional : String → ℕ → Json → Outcome (Unit {0})
unfolding check_length
check_optional what most v = if json_truthy v then check_length what most v else returned tt

-- `isinstance(v, int) and not v < 0`; a bool is an int.
abbrev pub is_natural : Json → Bool
is_natural (bool b) = true
is_natural (pos n) = true
is_natural _ = false

abbrev pub valid_action_types : List String
valid_action_types = "Call" ∷ "Read" ∷ "Write" ∷ []

-- `v in valid_action_types`
abbrev pub is_action_type : Json → Bool
is_action_type (str s) = contains valid_action_types s
is_action_type _ = false

unfoldable pub validate_stream : Json → Outcome (Unit {0})
unfolding check_required
validate_stream stream = do name ← get "name" (str "") stream; check_required "Stream name" 128 name

module _ (H : Host) where
  unfoldable pub check_timeout : String → Json → Outcome (Unit {0})
  check_timeout what v =
      raise_if (not (is_null v) && not (is_natural v))
        (validation (what <> (" must be a non-negative integer. Got: " <> text H v)))

  unfoldable pub check_action_type : Json → Outcome (Unit {0})
  check_action_type v = raise_if (json_truthy v && not (is_action_type v)) (
      validation
        ("Action actionType must be one of ['Call', 'Read', 'Write']. Got: '" <> (text H v <> "'")))

  unfoldable pub validate_management_group : Json → Outcome (Unit {0})
  unfolding check_required check_optional check_timeout
  validate_management_group mgmt_group = do
    name ← get "name" (str "") mgmt_group
    check_required "Management group name" 128 name
    default_topic ← get "defaultTopic" null mgmt_group
    check_optional "Management group defaultTopic" 128 default_topic
    timeout ← get "defaultTimeoutInSeconds" null mgmt_group
    check_timeout "Management group defaultTimeoutInSeconds" timeout

  unfoldable pub validate_action : Json → Outcome (Unit {0})
  unfolding check_required check_optional check_timeout check_action_type
  validate_action action = do
    name ← get "name" (str "") action
    target_uri ← get "targetUri" (str "") action
    check_required "Action name" 128 name
    check_required "Action targetUri" 512 target_uri
    topic ← get "topic" null action
    check_optional "Action topic" 128 topic
    timeout ← get "timeoutInSeconds" null action
    check_timeout "Action timeoutInSeconds" timeout
    action_type ← get "actionType" null action
    check_action_type action_type
