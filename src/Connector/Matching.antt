-- ===== src/Connector/Matching.antt =====
-- `_get_endpoint_metadata` against a search for the first endpoint that serves the validator.
use azure_iot_ops_cli_extens.Base.{
  String, ◌≡◌, refl, Bool, true, false, ◌&&◌, not, Option, none, some, List, [], ◌∷◌, map,
  if◌then◌else◌, ◌==◌, string_eq, lower, truthy, find, get_or, Bool-cases, inl, inr,
}
use azure_iot_ops_cli_extens.Base.Dict.{lookup}
use azure_iot_ops_cli_extens.Base.Exec.{Exc, Outcome, returned, raised}
use azure_iot_ops_cli_extens.Base.Outcomes.{◌>>=◌}
use azure_iot_ops_cli_extens.Base.Json.{
  Json, null, bool, pos, negsuc, float, str, arr, obj, nil, Fields, entries, elements, of_elements,
  is_null, json_truthy, get, elements-of_elements,
}
use azure_iot_ops_cli_extens.Connector.{Host, Validator, text}
use azure_iot_ops_cli_extens.Connector.Endpoint.{is_match, first_match, descriptions, find_endpoint}

-- An endpoint of the metadata whose type is a text.
pub record Inbound : Type 0 where
  pub document : Fields
  pub endpoint_type : String
  pub is_type : lookup "endpointType" (entries document) ≡ some (str endpoint_type)

abbrev pub documents : List Inbound → List Json
documents = map (λ (i : Inbound). obj i.document)

-- What is returned, without the errors.
abbrev pub result : {A : Type 0} → Outcome A → Option A
result (returned a) = some a
result (raised e) = none

abbrev pub document_of : Option Inbound → Option Json
document_of none = none
document_of (some i) = some (obj i.document)

none_result :
    (o : Outcome (List Json)) (f : List Json → Exc)
    → result {A = Json} (o >>= λ a. raised (f a)) ≡ none
none_result (returned a) f = refl
none_result (raised e) f = refl

module _ (H : Host) where
  -- The versions of a validator and of an endpoint: they agree where one side has none, and else
  -- where their texts are the same.
  abbrev pub agrees : Option String → Json → Bool
  agrees none ev = true
  agrees (some version) null = true
  agrees (some version) (str t) = t == version
  agrees (some version) ev = H.show ev == version

  compatible-agrees :
      (own : Option String) (ev : Json)
      → elim own [ none ↦ true | some version ↦ if is_null ev then true else text H ev == version ]
        ≡ agrees own ev
  compatible-agrees none ev = refl
  compatible-agrees (some version) null = refl
  compatible-agrees (some version) (str t) = refl
  compatible-agrees (some version) (bool b) = refl
  compatible-agrees (some version) (pos n) = refl
  compatible-agrees (some version) (negsuc n) = refl
  compatible-agrees (some version) (float t) = refl
  compatible-agrees (some version) (arr vs) = refl
  compatible-agrees (some version) (obj fs) = refl

module _ (H : Host) (v : Validator) (own : String) where
  -- The types agree, letter case aside, and the versions where both sides have one.
  abbrev pub serves : Inbound → Bool
  serves i =
      truthy i.endpoint_type
      && ((lower i.endpoint_type == lower own)
          && agrees H v.endpoint_version (get_or (lookup "version" (entries i.document)) null))

  module _ (typed : v.endpoint_type ≡ some own) where
    is_match-serves : (i : Inbound) → is_match H v (obj i.document) ≡ returned (serves i)
    unfolding is_match get json_truthy
    is_match-serves i =
        rw (i.is_type, typed)
          (go (truthy i.endpoint_type) (lower i.endpoint_type == lower own)
            (compatible-agrees H v.endpoint_version _))
      where
        go :
            (b c : Bool) {d e : Bool}
            → d ≡ e
            → (if not b then returned false else (if c then returned d else returned false))
              ≡ returned (b && (c && e))
        go true true h = rw h refl
        go true false h = refl
        go false c h = refl

    first_match-find :
        (is : List Inbound)
        → first_match H v (documents is) ≡ returned (document_of (find serves is))
    unfolding first_match
    first_match-find [] = refl
    first_match-find (i ∷ is) = elim (Bool-cases (serves i)) [
      | inl h ↦ rw (is_match-serves i, h) refl
      | inr h ↦ rw (is_match-serves i, h) (first_match-find is)
    ]

    found_result :
        (o : Option Json) (rest : Outcome Json)
        → result rest ≡ none
        → result (elim o [ some endpoint ↦ returned endpoint | none ↦ rest ]) ≡ o
    found_result none rest h = h
    found_result (some endpoint) rest h = refl

    -- Where the metadata is there and each of its endpoints has a text as its type,
    -- `_get_endpoint_metadata` without an earlier match gives the first endpoint whose type is not
    -- empty and agrees, letter case aside, and whose version agrees where both sides have one; it
    -- raises if there is none.
    pub find_endpoint-find :
        (is : List Inbound)
        → is_null v.metadata ≡ false
        → get "inboundEndpoints" (arr nil) v.metadata ≡ returned (arr (of_elements (documents is)))
        → result (find_endpoint H v) ≡ document_of (find serves is)
    unfolding find_endpoint
    find_endpoint-find is m h =
        rw (m, h, elements-of_elements (documents is), first_match-find is)
          (found_result (document_of (find serves is)) _
            (none_result (descriptions H v (elements (of_elements (documents is)))) _))
