-- ===== src/Upgrade.antt =====
-- azext_edge/edge/providers/orchestration/upgrade2.py: the upgrade of an IoT Operations deployment.
-- The packaged version parser and the URL parser of the standard library are parameters.
pub mod Compat
pub mod Config
pub mod Apply
pub mod Checks
pub mod Cluster
pub mod Delta
pub mod Drive
pub mod Entries
pub mod Extension
pub mod Order
pub mod Payload
pub mod Plan
pub mod Queue
pub mod Quiet
pub mod Rows
pub mod SecretSync
pub mod Sending
pub mod Shown
pub mod Table
pub mod Validate
use Prim.Native.Nat.{Ordering}
pub use azure_iot_ops_cli_extens.ExtensionTypes.{
  extension_type_platform, extension_type_acs, extension_type_ssc, extension_type_ops,
  extension_type_cm,
}
use azure_iot_ops_cli_extens.Base.{
  ℕ, String, Bool, true, false, Option, none, some, List, [], ◌∷◌, if◌then◌else◌, truthy, get_or,
  string_eq,
}
use azure_iot_ops_cli_extens.Base.Dict.{Dict}
use azure_iot_ops_cli_extens.Base.Exec.{Outcome, returned}
use azure_iot_ops_cli_extens.Base.Outcomes.{◌>>=◌}

-- `semver.version.Version`: versions compare by their order, which all its operators follow.
pub record Semver : Type 1 where
  pub Version : Type 0
  pub parse : String → Outcome Version
  pub major : Version → ℕ
  pub minor : Version → ℕ
  pub text : Version → String
  pub compare : Version → Version → Ordering

-- `urllib.parse.urlparse(text)`, its host name and its port; reading either may raise.
pub record Urls : Type 0 where
  pub hostname : String → Outcome (Option String)
  pub port : String → Outcome (Option ℕ)

pub data ExtensionOperation : Type 0 where
  create update delete : ExtensionOperation

-- `operation_type in [CREATE, DELETE]`
abbrev pub is_update : ExtensionOperation → Bool
is_update update = true
is_update _ = false

-- A value that is not None and not "".
abbrev pub text_or : Option String → String → String
text_or none d = d
text_or (some s) d = if truthy s then s else d

-- `a or b` on optional texts.
abbrev pub or_else : Option String → Option String → Option String
or_else none b = b
or_else (some s) b = if truthy s then some s else b

-- The truth value of an optional text.
abbrev pub given : Option String → Bool
given none = false
given (some s) = truthy s

-- The names of the extension types in messages and options.
abbrev pub moniker_cm : String
moniker_cm = "certManager"

abbrev pub moniker_ops : String
moniker_ops = "iotOperations"

abbrev pub extension_type_to_moniker_map : Dict String String
extension_type_to_moniker_map =
    (extension_type_cm, moniker_cm)
    ∷ (extension_type_platform, "platform")
    ∷ (extension_type_ssc, "secretStore")
    ∷ (extension_type_acs, "containerStorage")
    ∷ (extension_type_ops, moniker_ops)
    ∷ []

abbrev pub extension_moniker_to_alias_map : Dict String String
extension_moniker_to_alias_map =
    (moniker_cm, "cm")
    ∷ ("platform", "plat")
    ∷ ("secretStore", "ssc")
    ∷ ("containerStorage", "acs")
    ∷ (moniker_ops, "ops")
    ∷ []

abbrev pub provisioning_state_success : String
provisioning_state_success = "Succeeded"

abbrev pub provisioning_state_failed : String
provisioning_state_failed = "Failed"

-- The version and the release train that a source names.
pub record VersionMap : Type 0 where
  pub version : Option String
  pub train : Option String

abbrev pub no_versions : VersionMap
no_versions = record { version = none; train = none }

-- An extension's payload; a missing configuration is the empty one.
pub record InstalledExtension : Type 0 where
  pub name : String
  pub extension_type : String
  pub version : Option String
  pub release_train : Option String
  pub provisioning_state : Option String
  pub configuration : Dict String String

abbrev pub min_instance_version_v2 : String
min_instance_version_v2 = "1.2.36"

abbrev pub min_instance_version_v1_for_v2_upgrade : String
min_instance_version_v1_for_v2_upgrade = "1.1.59"

abbrev pub min_instance_version_for_cm_migrate : String
min_instance_version_for_cm_migrate = "1.2.83"

abbrev pub min_instance_version_for_opcua_connector_template : String
min_instance_version_for_opcua_connector_template = "1.4.72"

abbrev pub opcua_connector_template_name_prefix : String
opcua_connector_template_name_prefix = "azureiotoperationsconnectorforopcua-"

-- The comparisons of versions, by their order.
module _ (SV : Semver) where
  unfoldable pub lt_version : SV.Version → SV.Version → Bool
  lt_version v w = elim (SV.compare v w) [ Ordering.lt ↦ true | _ ↦ false ]

  unfoldable pub same_version : SV.Version → SV.Version → Bool
  same_version v w = elim (SV.compare v w) [ Ordering.eq ↦ true | _ ↦ false ]

  unfoldable pub ge_version : SV.Version → SV.Version → Bool
  ge_version v w = elim (SV.compare v w) [ Ordering.lt ↦ false | _ ↦ true ]

  unfoldable pub gt_version : SV.Version → SV.Version → Bool
  gt_version v w = elim (SV.compare v w) [ Ordering.gt ↦ true | _ ↦ false ]

  -- `semver.parse(target) >= semver.parse(min)`
  unfoldable pub parsed_at_least : String → String → Outcome Bool
  unfolding ge_version
  parsed_at_least target min = do t ← SV.parse target; m ← SV.parse min; returned (ge_version t m)
