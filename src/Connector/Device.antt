-- ===== src/Connector/Device.antt =====
-- The documents of an asset and of a device: the reference to a device, and its endpoints.
use azure_iot_ops_cli_extens.Base.{[], if◌then◌else◌}
use azure_iot_ops_cli_extens.Base.Exec.{Outcome, returned}
use azure_iot_ops_cli_extens.Base.Outcomes.{◌>>=◌}
use azure_iot_ops_cli_extens.Base.Json.{Json, null, dict, json_truthy, get}

-- `asset.get("deviceRef") or asset.get("properties", {}).get("deviceRef", {})`
unfoldable pub device_reference : Json → Outcome Json
unfolding get json_truthy
device_reference asset = do
  own ← get "deviceRef" null asset
  if json_truthy own
      then returned own
      else (do properties ← get "properties" (dict []) asset; get "deviceRef" (dict []) properties)

-- `device.get("properties", {}).get("endpoints", {}).get("inbound", {})`
unfoldable pub inbound_endpoints : Json → Outcome Json
unfolding get
inbound_endpoints device = do
  properties ← get "properties" (dict []) device
  endpoints ← get "endpoints" (dict []) properties
  get "inbound" (dict []) endpoints
