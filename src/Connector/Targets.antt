-- ===== src/Connector/Targets.antt =====
-- What `_validate_and_apply_destination` accepts.
use azure_iot_ops_cli_extens.Base.{
  String, none, some, ◌≡◌, refl, ◌∙◌, Bool, true, false, ◌&&◌, ◌||◌, not, List, [], ◌∷◌, map,
  string_eq, all, get_or, contains, truthy,
}
use azure_iot_ops_cli_extens.Base.Dict.{lookup}
use azure_iot_ops_cli_extens.Base.Exec.{returned, is_returned}
use azure_iot_ops_cli_extens.Base.Outcomes.{raise_if-then}
use azure_iot_ops_cli_extens.Base.Json.{
  Json, null, bool, pos, negsuc, float, str, arr, obj, Fields, entries, elements, of_elements,
  json_truthy, get, elements-of_elements,
}
use azure_iot_ops_cli_extens.Base.JsonEqual.{json_eq, is_in, str-is_in, other-is_in}
use azure_iot_ops_cli_extens.Connector.{Host}
use azure_iot_ops_cli_extens.Connector.Destinations.{
  Kind, datasets, datapoints, events, is_refused, destinations_of, check_targets, check_existing,
  check_supported, check_against, validate_and_apply_destination,
}

abbrev pub value : String → Fields → Json
value k fs = get_or (lookup k (entries fs)) null

-- The targets that a destination may have, where those of the metadata are texts: one of them, or
-- a value that is false in Python, such as None, for a destination without a target.
abbrev pub allows : List String → Json → Bool
allows ts (str s) = not (truthy s) || contains ts s
allows ts v = not (json_truthy v)

-- What is no dict has no target.
abbrev pub allows_destination : List String → Json → Bool
allows_destination ts (obj fs) = allows ts (value "target" fs)
allows_destination ts _ = true

-- The destinations that a resource may have: none, or a list of which each is allowed.
abbrev pub are_supported : List String → Json → Bool
are_supported ts null = true
are_supported ts (arr dests) = all (allows_destination ts) (elements dests)
are_supported ts _ = false

not_and_not : (b c : Bool) → not (b && not c) ≡ (not b || c)
not_and_not true true = refl
not_and_not true false = refl
not_and_not false c = refl

module _ (ts : List String) where
  refuses_other :
      (v : Json)
      → ((s : String) → json_eq v (str s) ≡ false)
      → not (json_truthy v && not (is_in v (map str ts))) ≡ not (json_truthy v)
  refuses_other v differs = rw (other-is_in v differs ts) (and_true (json_truthy v))
    where
      and_true : (b : Bool) → not (b && true) ≡ not b
      and_true true = refl
      and_true false = refl

  target-allows : (v : Json) → not (json_truthy v && not (is_in v (map str ts))) ≡ allows ts v
  unfolding json_truthy json_eq
  target-allows (str s) = rw (str-is_in s ts) (not_and_not (truthy s) (contains ts s))
  target-allows null = refl
  target-allows (bool b) = refuses_other (bool b) (λ s. refl)
  target-allows (pos n) = refuses_other (pos n) (λ s. refl)
  target-allows (negsuc n) = refuses_other (negsuc n) (λ s. refl)
  target-allows (float t) = refuses_other (float t) (λ s. refl)
  target-allows (arr vs) = refuses_other (arr vs) (λ s. refl)
  target-allows (obj fs) = refuses_other (obj fs) (λ s. refl)

  is_refused-allows : (d : Json) → not (is_refused (map str ts) d) ≡ allows_destination ts d
  unfolding json_truthy
  is_refused-allows (obj fs) = target-allows (value "target" fs)
  is_refused-allows null = refl
  is_refused-allows (bool b) = refl
  is_refused-allows (pos n) = refl
  is_refused-allows (negsuc n) = refl
  is_refused-allows (float t) = refl
  is_refused-allows (str s) = refl
  is_refused-allows (arr vs) = refl

  module _ (H : Host) where
    check_targets-returned :
        (dests : List Json)
        → is_returned (check_targets H (of_elements (map str ts)) dests)
          ≡ all (allows_destination ts) dests
    unfolding check_targets
    check_targets-returned [] = refl
    check_targets-returned (d ∷ ds) =
        raise_if-then (is_refused (elements (of_elements (map str ts))) d) _
          (λ _. check_targets H (of_elements (map str ts)) ds)
        ∙ rw (check_targets-returned ds, elements-of_elements (map str ts), is_refused-allows d)
            refl

    check_existing-returned :
        (v : Json)
        → is_returned (check_existing H (of_elements (map str ts)) v) ≡ are_supported ts v
    unfolding check_existing
    check_existing-returned null = refl
    check_existing-returned (arr dests) = check_targets-returned (elements dests)
    check_existing-returned (bool b) = refl
    check_existing-returned (pos n) = refl
    check_existing-returned (negsuc n) = refl
    check_existing-returned (float t) = refl
    check_existing-returned (str t) = refl
    check_existing-returned (obj fs) = refl

-- Where an endpoint of the metadata has the destinations of a kind of resources.
pub data Declares (endpoint meta : Fields) : Kind → Type 0 where
  of_datasets :
      {sets : Fields}
      → lookup "datasets" (entries endpoint) ≡ some (obj sets)
      → lookup "destinations" (entries sets) ≡ some (obj meta)
      → Declares endpoint meta datasets
  of_datapoints :
      {sets points : Fields}
      → lookup "datasets" (entries endpoint) ≡ some (obj sets)
      → lookup "dataPoints" (entries sets) ≡ some (obj points)
      → lookup "destinations" (entries points) ≡ some (obj meta)
      → Declares endpoint meta datapoints
  of_events :
      {groups inner : Fields}
      → lookup "eventGroups" (entries endpoint) ≡ some (obj groups)
      → lookup "events" (entries groups) ≡ some (obj inner)
      → lookup "destinations" (entries inner) ≡ some (obj meta)
      → Declares endpoint meta events

Declares-destinations_of :
    (endpoint meta : Fields) (kind : Kind)
    → Declares endpoint meta kind
    → destinations_of kind (obj endpoint) ≡ returned (obj meta)
unfolding destinations_of get
Declares-destinations_of endpoint meta datasets (of_datasets a b) = rw (a, b) refl
Declares-destinations_of endpoint meta datapoints (of_datapoints a b c) = rw (a, b, c) refl
Declares-destinations_of endpoint meta events (of_events a b c) = rw (a, b, c) refl

-- Where the metadata of an endpoint lists texts as the supported destinations and has no default
-- destination, the validation of a resource returns exactly if the resource has no destinations,
-- or has a list of them in which each target is missing, a value that is false in Python, or one
-- of the texts.
pub validate_and_apply_destination-returned :
    (H : Host) (kind : Kind) (endpoint meta : Fields) (t : String) (ts : List String) (rs : Fields)
    → Declares endpoint meta kind
    → lookup "supportedDestinations" (entries meta) ≡ some (arr (of_elements (map str (t ∷ ts))))
    → lookup "defaultDestination" (entries meta) ≡ none
    → is_returned (validate_and_apply_destination H kind (obj endpoint) (obj rs))
      ≡ are_supported (t ∷ ts) (value "destinations" rs)
unfolding validate_and_apply_destination check_against check_supported get json_truthy
validate_and_apply_destination-returned H kind endpoint meta t ts rs h k d =
    rw (Declares-destinations_of endpoint meta kind h, k, d)
      (check_existing-returned (t ∷ ts) H (value "destinations" rs))
