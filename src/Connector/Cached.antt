-- ===== src/Connector/Cached.antt =====
-- The cache of `_get_metadata`: what it keeps and what a second call finds.
use mathlib.Core.Path.{subst}
use azure_iot_ops_cli_extens.Base.{
  String, ◌≡◌, refl, sym, ap, ◌∙◌, Bool, true, false, not, Option, none, some, if◌then◌else◌, ◌==◌,
  string_eq, arith, Option-cases, inl, inr,
}
use azure_iot_ops_cli_extens.Base.Dict.{lookup, lookup-insert, lookup-insert_self}
use azure_iot_ops_cli_extens.Base.Exec.{
  Outcome, returned, raised, Exec, ◌>>=◌, ◌>>◌, pure, and_then,
}
use azure_iot_ops_cli_extens.Base.Outcomes.{lift, returned-injective}
use azure_iot_ops_cli_extens.Base.Json.{Json, null, is_null, json_truthy}
use azure_iot_ops_cli_extens.Connector.{Host, Validator}
use azure_iot_ops_cli_extens.Connector.Templates.{match_templates}
use azure_iot_ops_cli_extens.Connector.Metadata.{
  Process, is_local, make_metadata_cache_key, call, store, load_local_opcua_metadata,
  get_connector_metadata_schema, validate_connector_metadata, fetch_connector_metadata_from_oci,
  fetch_by_template, fetch_metadata, read_through, get_metadata,
}

module _ (H : Host) (key : String) where
  -- The entries of the other keys stay.
  abbrev pub Keeps : {A : Type 0} → Exec (Process H) A → Type 0
  Keeps m =
      (s : Process H) (j : String)
      → (j == key) ≡ false
      → lookup j (m s).1.metadata_cache ≡ lookup j s.metadata_cache

  -- A document that is returned is under the key.
  abbrev pub Stores : Exec (Process H) Json → Type 0
  Stores m =
      (s : Process H) (a : Json)
      → (m s).0 ≡ returned a
      → is_null a ≡ false
      → lookup key (m s).1.metadata_cache ≡ some a

  Keeps-bind :
      {A B : Type 0} (m : Exec (Process H) A) (f : A → Exec (Process H) B)
      → Keeps m
      → ((a : A) → Keeps (f a))
      → Keeps (m >>= f)
  unfolding ◌>>=◌
  Keeps-bind {A} {B} m f h k s j d = go (m s).0 (m s).1 (h s j d)
    where
      go :
          (o : Outcome A) (t : Process H)
          → lookup j t.metadata_cache ≡ lookup j s.metadata_cache
          → lookup j (and_then o t f).1.metadata_cache ≡ lookup j s.metadata_cache
      go (returned a) t e = k a t j d ∙ e
      go (raised x) t e = e

  Stores-bind :
      {A : Type 0} (m : Exec (Process H) A) (f : A → Exec (Process H) Json)
      → ((a : A) → Stores (f a))
      → Stores (m >>= f)
  unfolding ◌>>=◌
  Stores-bind {A} m f k s b = go (m s).0 (m s).1
    where
      go :
          (o : Outcome A) (t : Process H)
          → (and_then o t f).0 ≡ returned b
          → is_null b ≡ false
          → lookup key (and_then o t f).1.metadata_cache ≡ some b
      go (returned a) t h n = k a t b h n
      go (raised x) t h n = absurd (ground (arith, h))

  Keeps-if :
      {A : Type 0} (b : Bool) (m k : Exec (Process H) A)
      → Keeps m
      → Keeps k
      → Keeps (if b then m else k)
  Keeps-if true m n h k = h
  Keeps-if false m n h k = k

  Stores-if :
      (b : Bool) (m k : Exec (Process H) Json) → Stores m → Stores k → Stores (if b then m else k)
  Stores-if true m n h k = h
  Stores-if false m n h k = k

  Keeps-call : {A : Type 0} (f : H.World → Outcome A × H.World) → Keeps (call H f)
  unfolding call
  Keeps-call f s j d = refl

  Keeps-lift : {A : Type 0} (o : Outcome A) → Keeps (lift o)
  Keeps-lift o s j d = refl

  Keeps-call_bind :
      {A B : Type 0} (g : H.World → Outcome A × H.World) (f : A → Exec (Process H) B)
      → ((a : A) → Keeps (f a))
      → Keeps (call H g >>= f)
  Keeps-call_bind g f k = Keeps-bind (call H g) f (Keeps-call g) k

  Keeps-lift_bind :
      {A B : Type 0} (o : Outcome A) (f : A → Exec (Process H) B)
      → ((a : A) → Keeps (f a))
      → Keeps (lift o >>= f)
  Keeps-lift_bind o f k = Keeps-bind (lift o) f (Keeps-lift o) k

  Keeps-store : (v : Json) → Keeps (store H key v >> pure v)
  unfolding store ◌>>=◌
  Keeps-store v s j d = rw (lookup-insert, d) refl

  Stores-store : (v : Json) → Stores (store H key v >> pure v)
  unfolding store ◌>>=◌
  Stores-store v s a h n =
      lookup-insert_self key v s.metadata_cache ∙ ap some (returned-injective v a h)

  Stores-null : Stores (pure null)
  Stores-null s a h n = absurd (ground (arith, h, n))

  Keeps-schema : Keeps (get_connector_metadata_schema H)
  unfolding get_connector_metadata_schema
  Keeps-schema s j d = ground arith

  Keeps-validate :
      (metadata : Json) (ref : String) → Keeps (validate_connector_metadata H metadata ref)
  unfolding validate_connector_metadata
  Keeps-validate metadata ref =
      Keeps-bind (get_connector_metadata_schema H) _ Keeps-schema
        λ schema. Keeps-lift_bind _ _ λ _. Keeps-lift_bind _ _ λ found s j d. refl

  Keeps-oci : (ref : String) → Keeps (fetch_connector_metadata_from_oci H ref)
  unfolding fetch_connector_metadata_from_oci
  Keeps-oci ref = Keeps-call_bind _ _ λ content. Keeps-lift_bind _ _ λ metadata.
      Keeps-bind (validate_connector_metadata H metadata ref) _ (Keeps-validate metadata ref)
        λ _. Keeps-lift_bind _ _ λ endpoints. Keeps-lift_bind _ _ λ n s j d. refl

  Keeps-template : (o : Option Json) → Keeps (fetch_by_template H key o)
  unfolding fetch_by_template
  Keeps-template none = λ s j d. refl
  Keeps-template (some template) = Keeps-lift_bind _ _ λ properties.
      Keeps-lift_bind _ _ λ reference.
        Keeps-if (not (json_truthy reference)) _ _ (λ s j d. refl)
          (Keeps-lift_bind _ _ λ ref.
            Keeps-bind (fetch_connector_metadata_from_oci H ref) _ (Keeps-oci ref) Keeps-store)

  Stores-template : (o : Option Json) → Stores (fetch_by_template H key o)
  unfolding fetch_by_template
  Stores-template none = Stores-null
  Stores-template (some template) = Stores-bind (lift _) _ λ properties.
      Stores-bind (lift _) _ λ reference. Stores-if (not (json_truthy reference)) _ _ Stores-null (
        Stores-bind (lift _) _
          λ ref. Stores-bind (fetch_connector_metadata_from_oci H ref) _ Stores-store)

  Keeps-fetch : (v : Validator) → Keeps (fetch_metadata H v key)
  unfolding fetch_metadata
  Keeps-fetch v =
      Keeps-if (is_local v) _ _ (Keeps-lift_bind (load_local_opcua_metadata H) _ Keeps-store) (
        Keeps-call_bind _ _
          λ templates. Keeps-lift_bind (match_templates H v templates) _ Keeps-template)

  Stores-fetch : (v : Validator) → Stores (fetch_metadata H v key)
  unfolding fetch_metadata
  Stores-fetch v =
      Stores-if (is_local v) _ _ (Stores-bind (lift (load_local_opcua_metadata H)) _ Stores-store) (
        Stores-bind (call H _) _
          λ templates. Stores-bind (lift (match_templates H v templates)) _ Stores-template)

module _ (H : Host) (v : Validator) (key : String) where
  -- What a hit is, and a miss.
  read_through-hit :
      (s : Process H) (m : Json)
      → lookup key s.metadata_cache ≡ some m
      → read_through H v key s ≡ (returned m, s)
  unfolding read_through
  read_through-hit s m h = rw (read_through, h) refl

  read_through-miss :
      (s : Process H)
      → lookup key s.metadata_cache ≡ none
      → read_through H v key s ≡ fetch_metadata H v key s
  unfolding read_through
  read_through-miss s h = rw (read_through, h) refl

  abbrev IsCoherent : Process H → Outcome Json × Process H → Type 0
  IsCoherent s run =
      ((j : String)
        → (j == key) ≡ false
        → lookup j run.1.metadata_cache ≡ lookup j s.metadata_cache)
      × ((m : Json)
          → run.0 ≡ returned m
          → is_null m ≡ false
          → read_through H v key run.1 ≡ (returned m, run.1))

  read_through-IsCoherent : (s : Process H) → IsCoherent s (read_through H v key s)
  read_through-IsCoherent s = elim (Option-cases (lookup key s.metadata_cache)) [
    | inl miss ↦ subst (IsCoherent s) (sym (read_through-miss s miss)) (
      Keeps-fetch H key v s,
      λ m h n. read_through-hit (fetch_metadata H v key s).1 m (Stores-fetch H key v s m h n),
    )
    | inr (m, hit) ↦ subst (IsCoherent s) (sym (read_through-hit s m hit)) (
      λ j d. refl,
      λ m' h n. read_through-hit s m hit ∙ ap (λ x. (returned x, s)) (returned-injective m m' h),
    )
  ]

-- `_get_metadata` leaves the cached entries of other keys as they were, and once it has returned a
-- document, a second call returns the same one and leaves the process, the world outside with it,
-- as it is.
pub get_metadata-cached :
    (H : Host) (v : Validator) (s : Process H)
    → ((j : String)
        → (j == make_metadata_cache_key H v) ≡ false
        → lookup j (get_metadata H v s).1.metadata_cache ≡ lookup j s.metadata_cache)
      × ((m : Json)
          → (get_metadata H v s).0 ≡ returned m
          → is_null m ≡ false
          → get_metadata H v (get_metadata H v s).1 ≡ (returned m, (get_metadata H v s).1))
unfolding get_metadata
get_metadata-cached H v s = read_through-IsCoherent H v (make_metadata_cache_key H v) s
