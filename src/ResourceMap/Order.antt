-- ===== src/ResourceMap/Order.antt =====
-- The order in which resources are listed and deleted.
use mathlib.Core.List.{Perm}
use azure_iot_ops_cli_extens.Base.{
  ◌≤◌, ◌<◌, ◌≡◌, refl, true, false, List, [], ◌∷◌, arith, nat_eq, String, ◌<>◌, split, length,
  length-append, ◌≢◌,
}
use azure_iot_ops_cli_extens.Base.Sorted.{sorted_desc-perm, sorted_desc-Descending, Descending}
use azure_iot_ops_cli_extens.ResourceId.{slash}
use azure_iot_ops_cli_extens.ResourceId.Split.{split-append, split-ne-nil}
use azure_iot_ops_cli_extens.ResourceMap.{Resource, segments, key_lt, sorted_resources}

key_lt→segments-le : (a b : Resource) → key_lt a b ≡ true → segments a ≤ segments b
unfolding key_lt
key_lt→segments-le a b h = ground arith

key_lt-false→segments-le : (a b : Resource) → key_lt a b ≡ false → segments b ≤ segments a
unfolding key_lt
key_lt-false→segments-le a b h = ground arith

-- Deepest first: no resource has more segments than one that stands before it.
abbrev pub IsDeepestFirst : List Resource → Type 0
IsDeepestFirst = Descending segments

-- In the sorted resources none has more segments than one before it.
pub sorted_resources-IsDeepestFirst : (rs : List Resource) → IsDeepestFirst (sorted_resources rs)
unfolding sorted_resources
sorted_resources-IsDeepestFirst =
    sorted_desc-Descending key_lt segments key_lt→segments-le key_lt-false→segments-le

-- The sort keeps every resource.
sorted_resources-perm : (rs : List Resource) → Perm (sorted_resources rs) rs
unfolding sorted_resources
sorted_resources-perm rs = sorted_desc-perm key_lt rs

length-pos : (ps : List String) → ps ≢ [] → 0 < length ps
length-pos [] h = absurd (h refl)
length-pos (p ∷ ps) h = omega arith

-- A resource whose id continues another's has more segments.
segments-child :
    (parent child : Resource) (rest : String)
    → child.resource_id ≡ parent.resource_id <> ("/" <> rest)
    → segments parent < segments child
unfolding segments
segments-child parent child rest e =
    rw (e, split-append parent.resource_id rest, length-append)
      (omega (arith, length-pos (split slash rest) (split-ne-nil rest)))
