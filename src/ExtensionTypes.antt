-- ===== src/ExtensionTypes.antt =====
-- The extension types of azext_edge/edge/providers/orchestration/common.py.
use azure_iot_ops_cli_extens.Base.{String}

abbrev pub extension_type_platform : String
extension_type_platform = "microsoft.iotoperations.platform"

abbrev pub extension_type_acs : String
extension_type_acs = "microsoft.arc.containerstorage"

abbrev pub extension_type_ssc : String
extension_type_ssc = "microsoft.azure.secretstore"

abbrev pub extension_type_ops : String
extension_type_ops = "microsoft.iotoperations"

abbrev pub extension_type_cm : String
extension_type_cm = "microsoft.certmanagement"
