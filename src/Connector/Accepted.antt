-- ===== src/Connector/Accepted.antt =====
-- What `validate_action` and `validate_management_group` accept, field by field.
use Prim.Native.String.{String}
use azure_iot_ops_cli_extens.Base.{
  ℕ, suc, zero, ◌≡◌, refl, ◌∙◌, Bool, true, false, ◌&&◌, ◌||◌, not, [], ◌∷◌, contains, string_eq,
  get_or, ltb, leb, arith, length, str_len, truthy, sym, if◌then◌else◌,
}
use azure_iot_ops_cli_extens.Base.Dict.{lookup}
use azure_iot_ops_cli_extens.Base.Exec.{Outcome, returned, raised, is_returned}
use azure_iot_ops_cli_extens.Base.Outcomes.{◌>>=◌, ◌>>◌, raise_if, raise_if-then, raise_if-returned}
use azure_iot_ops_cli_extens.Base.Json.{
  Json, null, bool, pos, negsuc, float, str, arr, obj, nil, cons, end, field, Fields, entries,
  elements, json_truthy, is_null, get, json_len,
}
use azure_iot_ops_cli_extens.Connector.{Host}
use azure_iot_ops_cli_extens.Connector.Fields.{
  at_most, check_length, check_required, check_optional, is_natural, is_action_type, check_timeout,
  check_action_type, validate_management_group, validate_action,
}

-- A text, a list or a dict of a length between the bounds.
abbrev pub is_between : ℕ → ℕ → Json → Bool
is_between least most (str s) = leb least (str_len s) && leb (str_len s) most
is_between least most (arr vs) = leb least (length (elements vs)) && leb (length (elements vs)) most
is_between least most (obj fs) = leb least (length (entries fs)) && leb (length (entries fs)) most
is_between least most _ = false

-- The same without a lower bound, or any other value that is false in Python, such as None.
abbrev pub is_at_most : ℕ → Json → Bool
is_at_most most (str s) = leb (str_len s) most
is_at_most most (arr vs) = leb (length (elements vs)) most
is_at_most most (obj fs) = leb (length (entries fs)) most
is_at_most most v = not (json_truthy v)

-- No timeout, or a whole number that is not negative.
abbrev pub is_timeout : Json → Bool
is_timeout null = true
is_timeout (pos n) = true
is_timeout _ = false

-- One of the three types, or a value that is false in Python, such as None.
abbrev pub is_type : Json → Bool
is_type (str s) = not (truthy s) || contains ("Call" ∷ "Read" ∷ "Write" ∷ []) s
is_type v = not (json_truthy v)

abbrev pub is_bool : Json → Bool
is_bool (bool b) = true
is_bool _ = false

-- What a field of a document holds.
abbrev pub entry : String → Json → Fields → Json
entry k default fs = get_or (lookup k (entries fs)) default

-- The statements in a row, as tests in a row.
then_returned :
    (m : Outcome (Unit {0})) (k : Outcome (Unit {0}))
    → is_returned (m >> k) ≡ (is_returned m && is_returned k)
then_returned (returned a) k = refl
then_returned (raised e) k = refl

and_returned :
    (m k : Outcome (Unit {0})) {a b : Bool}
    → is_returned m ≡ a
    → is_returned k ≡ b
    → is_returned (m >> k) ≡ (a && b)
and_returned m k h l = then_returned m k ∙ rw (h, l) refl

-- A length that is tested, where there is one.
fits : ℕ → Json → Bool
fits most v = elim (json_len v) [ raised _ ↦ false | returned n ↦ leb n most ]

check_length-fits :
    (what : String) (most : ℕ) (v : Json) → is_returned (check_length what most v) ≡ fits most v
unfolding check_length fits
check_length-fits what most v = go (json_len v)
  where
    go :
        (o : Outcome ℕ)
        → is_returned (o >>= λ n. raise_if (ltb most n) (at_most what most n))
          ≡ elim o [ raised _ ↦ false | returned n ↦ leb n most ]
    go (returned n) = raise_if-returned (ltb most n) _ ∙ ground arith
    go (raised e) = refl

not_and_not : (b c : Bool) → not (b && not c) ≡ (not b || c)
not_and_not true true = refl
not_and_not true false = refl
not_and_not false c = refl

double_not : (b c : Bool) → (not (not b) && c) ≡ (b && c)
double_not true c = refl
double_not false c = refl

positive : (n : ℕ) → leb 1 (suc n) ≡ true
positive n = ground arith

nonnegative : (n : ℕ) → leb 0 n ≡ true
nonnegative n = ground arith

required-is_between : (most : ℕ) (v : Json) → (json_truthy v && fits most v) ≡ is_between 1 most v
unfolding json_truthy json_len fits str_len
required-is_between most (str String.[]) = refl
required-is_between most (str (String.◌∷◌ c s)) = rw (positive (str_len s)) refl
required-is_between most (arr nil) = refl
required-is_between most (arr (cons v vs)) = rw (positive (length (elements vs))) refl
required-is_between most (obj end) = refl
required-is_between most (obj (field k v fs)) = rw (positive (length (entries fs))) refl
required-is_between most null = refl
required-is_between most (bool true) = refl
required-is_between most (bool false) = refl
required-is_between most (pos zero) = refl
required-is_between most (pos (suc n)) = refl
required-is_between most (negsuc n) = refl
required-is_between most (float t) = ground arith

optional-is_at_most :
    (most : ℕ) (v : Json) → (not (json_truthy v) || fits most v) ≡ is_at_most most v
unfolding json_truthy json_len fits str_len
optional-is_at_most most (str String.[]) = sym (nonnegative most)
optional-is_at_most most (str (String.◌∷◌ c s)) = refl
optional-is_at_most most (arr nil) = sym (nonnegative most)
optional-is_at_most most (arr (cons v vs)) = refl
optional-is_at_most most (obj end) = sym (nonnegative most)
optional-is_at_most most (obj (field k v fs)) = refl
optional-is_at_most most null = refl
optional-is_at_most most (bool true) = refl
optional-is_at_most most (bool false) = refl
optional-is_at_most most (pos zero) = refl
optional-is_at_most most (pos (suc n)) = refl
optional-is_at_most most (negsuc n) = refl
optional-is_at_most most (float t) = ground arith

natural-is_timeout :
    (v : Json) → is_bool v ≡ false → not (not (is_null v) && not (is_natural v)) ≡ is_timeout v
natural-is_timeout (bool b) h = ground (arith, h)
natural-is_timeout null h = refl
natural-is_timeout (pos n) h = refl
natural-is_timeout (negsuc n) h = refl
natural-is_timeout (float t) h = refl
natural-is_timeout (str s) h = refl
natural-is_timeout (arr vs) h = refl
natural-is_timeout (obj fs) h = refl

action_type-is_type : (v : Json) → not (json_truthy v && not (is_action_type v)) ≡ is_type v
unfolding json_truthy
action_type-is_type (str s) = not_and_not (truthy s) _
action_type-is_type null = refl
action_type-is_type (bool b) = ground arith
action_type-is_type (pos n) = ground arith
action_type-is_type (negsuc n) = refl
action_type-is_type (float t) = ground arith
action_type-is_type (arr vs) = ground arith
action_type-is_type (obj fs) = ground arith

check_required-is_between :
    (what : String) (most : ℕ) (v : Json)
    → is_returned (check_required what most v) ≡ is_between 1 most v
unfolding check_required
check_required-is_between what most v =
    raise_if-then (not (json_truthy v)) _ (λ _. check_length what most v)
    ∙ (rw (check_length-fits what most v) (double_not (json_truthy v) _)
        ∙ required-is_between most v)

check_optional-is_at_most :
    (what : String) (most : ℕ) (v : Json)
    → is_returned (check_optional what most v) ≡ is_at_most most v
unfolding check_optional
check_optional-is_at_most what most v =
    go (json_truthy v) (check_length what most v) (check_length-fits what most v)
    ∙ optional-is_at_most most v
  where
    go :
        (b : Bool) (m : Outcome (Unit {0})) {c : Bool}
        → is_returned m ≡ c
        → is_returned (if b then m else returned tt) ≡ (not b || c)
    go true m h = h
    go false m h = refl

module _ (H : Host) where
  check_timeout-is_timeout :
      (what : String) (v : Json)
      → is_bool v ≡ false
      → is_returned (check_timeout H what v) ≡ is_timeout v
  unfolding check_timeout
  check_timeout-is_timeout what v h = raise_if-returned _ _ ∙ natural-is_timeout v h

  check_action_type-is_type : (v : Json) → is_returned (check_action_type H v) ≡ is_type v
  unfolding check_action_type
  check_action_type-is_type v = raise_if-returned _ _ ∙ action_type-is_type v

  abbrev pub is_action : Fields → Bool
  is_action fs =
      is_between 1 128 (entry "name" (str "") fs)
      && (is_between 1 512 (entry "targetUri" (str "") fs)
          && (is_at_most 128 (entry "topic" null fs)
              && (is_timeout (entry "timeoutInSeconds" null fs)
                  && is_type (entry "actionType" null fs))))

  -- Where its timeout is no bool, `validate_action` accepts an action exactly if its name has a
  -- length from 1 to 128, its target from 1 to 512, its topic of at most 128 if it has one, its
  -- timeout is missing or a non-negative integer, and its type is missing, a value that is false
  -- in Python, or one of Call, Read and Write.
  pub validate_action-returned :
      (fs : Fields)
      → is_bool (entry "timeoutInSeconds" null fs) ≡ false
      → is_returned (validate_action H (obj fs)) ≡ is_action fs
  unfolding validate_action get
  validate_action-returned fs h = and_returned _ _ (check_required-is_between "Action name" 128 _) (
      and_returned _ _ (check_required-is_between "Action targetUri" 512 _) (
        and_returned _ _ (check_optional-is_at_most "Action topic" 128 _) (
          and_returned _ _ (check_timeout-is_timeout "Action timeoutInSeconds" _ h)
            (check_action_type-is_type _))))

  abbrev is_management_group : Fields → Bool
  is_management_group fs =
      is_between 1 128 (entry "name" (str "") fs)
      && (is_at_most 128 (entry "defaultTopic" null fs)
          && is_timeout (entry "defaultTimeoutInSeconds" null fs))

  validate_management_group-returned :
      (fs : Fields)
      → is_bool (entry "defaultTimeoutInSeconds" null fs) ≡ false
      → is_returned (validate_management_group H (obj fs)) ≡ is_management_group fs
  unfolding validate_management_group get
  validate_management_group-returned fs h =
      and_returned _ _ (check_required-is_between "Management group name" 128 _) (
        and_returned _ _ (check_optional-is_at_most "Management group defaultTopic" 128 _)
          (check_timeout-is_timeout "Management group defaultTimeoutInSeconds" _ h))
