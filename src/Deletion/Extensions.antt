-- ===== src/Deletion/Extensions.antt =====
-- `_discover_extensions`: which extensions a deletion takes.
use mathlib.Core.List.{append-nil, append_assoc}
use azure_iot_ops_cli_extens.Base.{
  ◌≡◌, refl, sym, ap, ◌∙◌, String, Bool, true, false, Option, none, some, List, [], ◌∷◌, ◌++◌, map,
  arith, if◌then◌else◌, keep, contains, ◌==◌, string_eq, text-ne, truthy,
}
use azure_iot_ops_cli_extens.Base.Exec.{returned}
use azure_iot_ops_cli_extens.ResourceMap.{Resource}
use azure_iot_ops_cli_extens.Deletion.Manager.{Manager}
use azure_iot_ops_cli_extens.Deletion.Discovery.{
  Extension, Found, type_of, to_extension, classify, track, scan_extensions, dep_extension_types,
  extension_type_ops, extension_type_acs, Services, add_acs, should_include_acs,
  discover_extensions, text_or_empty,
}

abbrev pub is_dependency : Extension → Bool
is_dependency ext = contains dep_extension_types (type_of ext)

abbrev pub has_type : String → Extension → Bool
has_type t ext = type_of ext == t

-- The last extension with a property.
abbrev pub last_with : (Extension → Bool) → List Extension → Option Resource → Option Resource
last_with p [] d = d
last_with p (ext ∷ exts) d = last_with p exts (if p ext then some (to_extension ext) else d)

track-found :
    (ext : Extension) (f : Found)
    → ((track ext f).manager.dep_extensions ≡ f.manager.dep_extensions)
      × ((track ext f).manager.aio_extension ≡ f.manager.aio_extension)
      × ((track ext f).acs_extension ≡ f.acs_extension)
unfolding track
track-found ext f = ground arith

classify-deps :
    (ext : Extension) (f : Found)
    → (classify ext f).manager.dep_extensions ≡ (
        if is_dependency ext
        then f.manager.dep_extensions ++ to_extension ext ∷ []
        else f.manager.dep_extensions)
unfolding classify
classify-deps ext f = ground (
  arith,
  text-ne extension_type_ops "microsoft.certmanagement" refl,
  text-ne extension_type_ops "microsoft.iotoperations.platform" refl,
  text-ne extension_type_ops "microsoft.azure.secretstore" refl,
  text-ne extension_type_acs "microsoft.certmanagement" refl,
  text-ne extension_type_acs "microsoft.iotoperations.platform" refl,
  text-ne extension_type_acs "microsoft.azure.secretstore" refl,
)

classify-special :
    (ext : Extension) (f : Found)
    → ((classify ext f).manager.aio_extension ≡ (
        if has_type extension_type_ops ext
        then some (to_extension ext)
        else f.manager.aio_extension))
      × ((classify ext f).acs_extension
          ≡ (if has_type extension_type_acs ext then some (to_extension ext) else f.acs_extension))
unfolding classify
classify-special ext f = ground (arith, text-ne extension_type_ops extension_type_acs refl)

-- The scan keeps the dependencies in the order of the list, and the last extension of the
-- operations' type and of the storage's.
pub scan_extensions-lem :
    (exts : List Extension) (f : Found)
    → ((scan_extensions exts f).manager.dep_extensions
        ≡ f.manager.dep_extensions ++ map to_extension (keep is_dependency exts))
      × ((scan_extensions exts f).manager.aio_extension
          ≡ last_with (has_type extension_type_ops) exts f.manager.aio_extension)
      × ((scan_extensions exts f).acs_extension
          ≡ last_with (has_type extension_type_acs) exts f.acs_extension)
unfolding scan_extensions
scan_extensions-lem [] f = (sym (append-nil f.manager.dep_extensions), refl, refl)
scan_extensions-lem (ext ∷ exts) f =
    let next = track ext (classify ext f) in
    let tracked = track-found ext (classify ext f) in
    let special = classify-special ext f in
    let rest = scan_extensions-lem exts next in
    (
      rest.0
          ∙ ap (λ ds. ds ++ map to_extension (keep is_dependency exts))
              (tracked.0 ∙ classify-deps ext f)
          ∙ taken f.manager.dep_extensions (is_dependency ext),
      rest.1 ∙ ap (λ o. last_with (has_type extension_type_ops) exts o) (tracked.1 ∙ special.0),
      rest.2 ∙ ap (λ o. last_with (has_type extension_type_acs) exts o) (tracked.2 ∙ special.1),
    )
  where
    taken :
        (ds : List Resource) (b : Bool)
        → (if b then ds ++ to_extension ext ∷ [] else ds)
            ++ map to_extension (keep is_dependency exts)
          ≡ ds
            ++ map to_extension
                (if b then ext ∷ keep is_dependency exts else keep is_dependency exts)
    taken ds true =
        append_assoc ds (to_extension ext ∷ []) (map to_extension (keep is_dependency exts))
    taken ds false = refl

-- The version of the last extension of the operations' type.
abbrev pub last_version : List Extension → Option String → Option String
last_version [] v = v
last_version (ext ∷ exts) v =
    last_version exts
      (if has_type extension_type_ops ext then some (text_or_empty ext.version) else v)

step-rest :
    (ext : Extension) (f : Found)
    → ((track ext (classify ext f)).manager.instance ≡ f.manager.instance)
      × ((track ext (classify ext f)).aio_version ≡ (
          if has_type extension_type_ops ext
          then some (text_or_empty ext.version)
          else f.aio_version))
unfolding track classify
step-rest ext f = ground arith

scan_extensions-rest :
    (exts : List Extension) (f : Found)
    → ((scan_extensions exts f).manager.instance ≡ f.manager.instance)
      × ((scan_extensions exts f).aio_version ≡ last_version exts f.aio_version)
unfolding scan_extensions
scan_extensions-rest [] f = (refl, refl)
scan_extensions-rest (ext ∷ exts) f =
    let step = step-rest ext f in
    let rest = scan_extensions-rest exts (track ext (classify ext f)) in
    (rest.0 ∙ step.0, rest.1 ∙ ap (last_version exts) step.1)

-- The storage extension, where the version of the operations is old enough.
abbrev pub gated_storage : Services → Manager → List Extension → List Resource
gated_storage S m exts = elim (last_with (has_type extension_type_acs) exts none) [
  | none ↦ []
  | some acs ↦ if should_include_acs S (last_version exts none) m.instance then acs ∷ [] else []
]

add_acs-deps :
    (S : Services) (f : Found) (acs : Option Resource) (version : Option String) (m : Manager)
    → f.acs_extension ≡ acs
    → f.aio_version ≡ version
    → f.manager.instance ≡ m.instance
    → (add_acs S f).dep_extensions
      ≡ f.manager.dep_extensions ++ elim acs [
        | none ↦ []
        | some a ↦ if should_include_acs S version m.instance then a ∷ [] else []
      ]
unfolding add_acs
add_acs-deps S f none version m p q r = rw p (sym (append-nil f.manager.dep_extensions))
add_acs-deps S f (some a) version m p q r = rw p (
    gate (should_include_acs S f.aio_version f.manager.instance)
    ∙ ap (λ b. f.manager.dep_extensions ++ (if b then a ∷ [] else []))
        (ap (λ v. should_include_acs S v f.manager.instance) q
          ∙ ap (λ i. should_include_acs S version i) r))
  where
    gate :
        (b : Bool)
        → (if b
            then record (f.manager) { dep_extensions = f.manager.dep_extensions ++ a ∷ [] }
            else f.manager).dep_extensions
          ≡ f.manager.dep_extensions ++ (if b then a ∷ [] else [])
    gate true = refl
    gate false = sym (append-nil f.manager.dep_extensions)

-- Where a cluster is known and its extensions are listed, the dependencies taken are those of the
-- dependency types in the order of the list, and behind them the last storage extension if the
-- version gate lets it through.
pub discover_extensions-deps :
    (S : Services) (m : Manager) (exts : List Extension)
    → truthy (text_or_empty m.cluster_name) ≡ true
    → S.list_extensions m.resource_group_name (text_or_empty m.cluster_name) ≡ returned exts
    → (discover_extensions S m).1.dep_extensions
      ≡ (m.dep_extensions ++ map to_extension (keep is_dependency exts)) ++ gated_storage S m exts
unfolding discover_extensions
discover_extensions-deps S m exts h k =
    let start : Found = record { manager = m; aio_version = none; acs_extension = none } in
    let scan = scan_extensions-lem exts start in
    let rest = scan_extensions-rest exts start in
    rw (h, k)
      (add_acs-deps S (scan_extensions exts start) _ _ m scan.2 rest.1 rest.0
        ∙ ap (λ ds. ds ++ gated_storage S m exts) scan.0)
