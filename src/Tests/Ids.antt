-- ===== src/Tests/Ids.antt =====
-- Resource ids and their order at concrete ids.
use azure_iot_ops_cli_extens.Base.{
  ◌≡◌, refl, String, none, some, [], ◌∷◌, lower, split, join, string_eq, nat_eq,
}
use azure_iot_ops_cli_extens.ResourceId.{Parts, matched, parse_resource_id, resource_id, to_args}
use azure_iot_ops_cli_extens.ResourceId.Segments.{IsWellFormed}
use azure_iot_ops_cli_extens.ResourceId.RoundTrip.{parse_resource_id-resource_id}
use azure_iot_ops_cli_extens.ResourceMap.{sorted_resources}
use azure_iot_ops_cli_extens.ResourceMap.Order.{IsDeepestFirst, sorted_resources-IsDeepestFirst}
use azure_iot_ops_cli_extens.Tests.Deletions.{device, endpoint}

-- An id with a child under a provider of its own.
abbrev device_parts : Parts
device_parts = record {
  subscription = "s";
  resource_group = some "g";
  namespace = some "Microsoft.DeviceRegistry";
  type = some "namespaces";
  name = some "ns";
  children = record { namespace = none; type = "devices"; name = "d" } ∷ [];
}

abbrev device_id : String
device_id =
    "/subscriptions/s/resourceGroups/g/providers/Microsoft.DeviceRegistry/namespaces/ns/devices/d"

device_parts-IsWellFormed : IsWellFormed device_parts
unfolding split string_eq nat_eq lower
device_parts-IsWellFormed = (refl, refl, (refl, refl, refl, ((refl, refl, refl), tt)))

device_id_built : resource_id (to_args (matched device_parts)) ≡ some device_id
unfolding resource_id join string_eq
device_id_built = refl

parse_resource_id-resource_id_example : parse_resource_id device_id ≡ matched device_parts
parse_resource_id-resource_id_example =
    parse_resource_id-resource_id device_parts device_id device_parts-IsWellFormed device_id_built

sorted_resources-IsDeepestFirst_example : IsDeepestFirst (sorted_resources (device ∷ endpoint ∷ []))
sorted_resources-IsDeepestFirst_example = sorted_resources-IsDeepestFirst (device ∷ endpoint ∷ [])
