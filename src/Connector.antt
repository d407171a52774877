-- ===== src/Connector.antt =====
-- azext_edge/edge/providers/adr/validator.py: the validation of parts of an asset by the metadata of
-- the connector that serves its endpoint. The clients, the files that are shipped with the program,
-- the environment, `json` and `jsonschema` are parameters.
pub mod Fields
pub mod Accepted
pub mod Templates
pub mod Metadata
pub mod Endpoint
pub mod Config
pub mod Destinations
pub mod Resources
pub mod Device
pub mod Asset
pub mod Cached
pub mod Matching
pub mod Targets
pub mod Events
use azure_iot_ops_cli_extens.Base.{
  ℕ, String, ◌<>◌, Bool, true, false, Option, none, some, List, [], ◌∷◌, if◌then◌else◌, get_or,
  truthy, join,
}
use azure_iot_ops_cli_extens.Base.Dict.{Dict}
use azure_iot_ops_cli_extens.Base.Exec.{Exc, attribute_error, Outcome, returned, raised}
use azure_iot_ops_cli_extens.Base.Json.{Json, str}

-- What `json.loads` makes of a text, and of the bytes of an artifact.
pub data Loaded : Type 0 where
  loaded : Json → Loaded
  malformed undecodable : String → Loaded

-- A file of the program: missing, not readable, or read.
pub data File : Type 0 where
  absent : File
  unreadable : String → File
  contents : Loaded → File

-- `jsonschema.validate(instance, schema)`
pub data Verdict : Type 0 where
  conforms : Verdict
  invalid bad_schema : String → Verdict

-- `show` is `str` of a value that is no text. A list of templates is one call, over all its pages.
pub record Host : Type 1 where
  pub World : Type 0
  pub Content : Type 0
  pub subscription_id : Option String
  pub config_media_type : Option String
  pub schema_folder : String
  pub opcua_file : File
  pub schema_file : File
  pub show : Json → String
  pub loads : String → Loaded
  pub load_content : Content → Loaded
  pub check : Json → Json → Verdict
  pub list_templates : Option String → Option String → World → Outcome (List Json) × World
  pub fetch_first_layer : String → Option String → World → Outcome Content × World
  pub get_device : Option String → Option String → String → String → World → Outcome Json × World

-- `self`: None is the document `null`.
pub record Validator : Type 0 where
  pub resource_group_name : Option String
  pub instance_name : Option String
  pub endpoint_type : Option String
  pub endpoint_version : Option String
  pub metadata : Json
  pub matched_endpoint : Json

-- `a or b`
abbrev pub or_default : Option String → String → String
or_default none b = b
or_default (some a) b = if truthy a then a else b

-- `str(v)`
abbrev pub text : Host → Json → String
text H (str s) = s
text H v = H.show v

-- `f"{v}"` of what may be None.
abbrev pub option_text : Option String → String
option_text o = get_or o "None"

-- `o.lower()` fails on None.
abbrev pub present : Option String → Outcome String
present none = raised (attribute_error "'NoneType' object has no attribute 'lower'")
present (some s) = returned s

abbrev pub lowerable : Json → Outcome String
lowerable (str s) = returned s
lowerable _ = raised (attribute_error "object has no attribute 'lower'")
