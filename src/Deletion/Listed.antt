-- ===== src/Deletion/Listed.antt =====
-- The categories of `_execute`, and the steps that they list.
use mathlib.Core.Path.{subst}
use mathlib.Core.List.{append_assoc}
use azure_iot_ops_cli_extens.Base.{
  String, ◌≡◌, refl, sym, ◌∙◌, Bool, true, false, ◌||◌, not, Option, none, some, List, [], ◌∷◌,
  ◌++◌, arith, if◌then◌else◌, All, contains, eq_self, is_some, length, nonempty, ◌==◌, string_eq,
}
use azure_iot_ops_cli_extens.Base.Dict.{Dict, lookup}
use azure_iot_ops_cli_extens.Base.Exec.{Exc, raised}
use azure_iot_ops_cli_extens.ResourceMap.{Resource}
use azure_iot_ops_cli_extens.Workflow
use azure_iot_ops_cli_extens.Workflow.{StepState, active, complete, failed, Display}
use azure_iot_ops_cli_extens.Workflow.Steps.{NodupKeys, init-entry_of}
use azure_iot_ops_cli_extens.Cloud.{Request, Cloud, Run}
use azure_iot_ops_cli_extens.Deletion.Manager.{
  Manager, categories, step_instance, step_sync_rules, step_aio_ext, step_dep_extensions,
  wanted_deps, count_label, option_list, step_cl_resources, step_custom_location, names, entry_if,
}
use azure_iot_ops_cli_extens.Deletion.Safety.{is_value_error, Good, Fits, IsHonest}
use azure_iot_ops_cli_extens.Deletion.Execute.{execute}
use azure_iot_ops_cli_extens.Deletion.KnownSteps.{AllShown, execute_steps-Safe}

-- The steps that the categories list.
abbrev Finds : Option (List String) → String → Type 0
Finds none st = ⊥
Finds (some steps) st = contains steps st ≡ true

abbrev Listed : Manager → String → String → Type 0
Listed m c st = Finds (lookup c (categories m)) st

module _ {V : Type 0} where
  -- A section under another key does not matter, and one under the key is found.
  skip :
      (c k : String) (b : Bool) (v : V) (d : Dict String V)
      → (c == k) ≡ false
      → lookup c (entry_if b k v ++ d) ≡ lookup c d
  unfolding lookup
  skip c k true v d h = ground (arith, h)
  skip c k false v d h = refl

  hit :
      (c : String) (b : Bool) (v : V) (d : Dict String V)
      → b ≡ true
      → lookup c (entry_if b c v ++ d) ≡ some v
  unfolding lookup
  hit c true v d h = ground arith
  hit c false v d h = absurd (ground arith)

  hit_last : (c : String) (b : Bool) (v : V) → b ≡ true → lookup c (entry_if b c v) ≡ some v
  unfolding lookup
  hit_last c true v h = ground arith
  hit_last c false v h = absurd (ground arith)

contains_middle :
    (before : List String) (x : String) (after : List String)
    → contains (before ++ x ∷ after) x ≡ true
contains_middle [] x after = ground (arith, eq_self x)
contains_middle (b ∷ before) x after = ground (arith, contains_middle before x after)

contains-names :
    (before : List String) (rs : List Resource)
    → All (λ (r : Resource). contains (before ++ names rs) r.display_name ≡ true) rs
contains-names before [] = tt
contains-names before (r ∷ rs) = (
  contains_middle before r.display_name (names rs),
  subst (λ l. All (λ (r : Resource). contains l r.display_name ≡ true) rs)
      (append_assoc before (r.display_name ∷ []) (names rs))
      (contains-names (before ++ r.display_name ∷ []) rs),
)

All-Listed :
    (m : Manager) (c : String) (rs : List Resource)
    → (nonempty rs ≡ true → lookup c (categories m) ≡ some (names rs))
    → All (λ (r : Resource). Listed m c r.display_name) rs
All-Listed m c [] h = tt
All-Listed m c (r ∷ rs) h =
    subst (λ o. All (λ (x : Resource). Finds o x.display_name) (r ∷ rs)) (sym (h refl))
      (contains-names [] (r ∷ rs))

-- The sections of a manager's state, found under their keys.
module _ (m : Manager) where
  categories-instance :
      is_some m.instance_resource ≡ true
      → lookup step_instance (categories m) ≡ some (names (option_list m.instance_resource))
  unfolding categories
  categories-instance h = hit step_instance _ _ _ h

  categories-cl_resources :
      nonempty m.cl_resources ≡ true
      → lookup step_cl_resources (categories m) ≡ some (count_label (length m.cl_resources) ∷ [])
  unfolding categories string_eq
  categories-cl_resources h = skip _ step_instance _ _ _ refl ∙ hit step_cl_resources _ _ _ h

  categories-sync_rules :
      nonempty m.sync_rules ≡ true
      → lookup step_sync_rules (categories m) ≡ some (names m.sync_rules)
  unfolding categories string_eq
  categories-sync_rules h =
      skip _ step_instance _ _ _ refl
      ∙ skip _ step_cl_resources _ _ _ refl
      ∙ hit step_sync_rules _ _ _ h

  categories-custom_location :
      is_some m.cl_resource ≡ true
      → lookup step_custom_location (categories m) ≡ some (names (option_list m.cl_resource))
  unfolding categories string_eq
  categories-custom_location h =
      skip _ step_instance _ _ _ refl
      ∙ skip _ step_cl_resources _ _ _ refl
      ∙ skip _ step_sync_rules _ _ _ refl
      ∙ hit step_custom_location _ _ _ h

  categories-extension :
      is_some m.aio_extension ≡ true
      → lookup step_aio_ext (categories m) ≡ some (names (option_list m.aio_extension))
  unfolding categories string_eq
  categories-extension h =
      skip _ step_instance _ _ _ refl
      ∙ skip _ step_cl_resources _ _ _ refl
      ∙ skip _ step_sync_rules _ _ _ refl
      ∙ skip _ step_custom_location _ _ _ refl
      ∙ hit step_aio_ext _ _ _ h

  categories-dep_extensions :
      nonempty (wanted_deps m) ≡ true
      → lookup step_dep_extensions (categories m) ≡ some (names (wanted_deps m))
  unfolding categories string_eq
  categories-dep_extensions h =
      skip _ step_instance _ _ _ refl
      ∙ skip _ step_cl_resources _ _ _ refl
      ∙ skip _ step_sync_rules _ _ _ refl
      ∙ skip _ step_custom_location _ _ _ refl
      ∙ skip _ step_aio_ext _ _ _ refl
      ∙ hit_last step_dep_extensions _ _ h

nonempty-option_list : (o : Option Resource) → nonempty (option_list o) ≡ true → is_some o ≡ true
nonempty-option_list none h = h
nonempty-option_list (some r) h = refl

Listed-AllShown :
    (C : Cloud Request) (honest : IsHonest C) (m : Manager) → AllShown C honest (Listed m) m
Listed-AllShown C honest m = record {
  instance_shown =
      All-Listed m _ _ λ n. categories-instance m (nonempty-option_list m.instance_resource n);
  cl_resources_shown = λ n.
      subst (λ o. Finds o (count_label (length m.cl_resources))) (sym (categories-cl_resources m n))
        (contains_middle [] (count_label (length m.cl_resources)) []);
  sync_rules_shown = All-Listed m _ _ (categories-sync_rules m);
  custom_location_shown =
      All-Listed m _ _ λ n. categories-custom_location m (nonempty-option_list m.cl_resource n);
  extension_shown =
      All-Listed m _ _ λ n. categories-extension m (nonempty-option_list m.aio_extension n);
  dep_extensions_shown = All-Listed m _ _ (categories-dep_extensions m);
}

-- No section of the key.
abbrev Absent : String → Dict String (List String) → Type 0
Absent c d = is_some (lookup c d) ≡ false

absent :
    (c k : String) (b : Bool) (v : List String) (d : Dict String (List String))
    → (c == k) ≡ false
    → Absent c d
    → Absent c (entry_if b k v ++ d)
absent c k b v d h a = rw (skip c k b v d h) a

Absent-last :
    (c k : String) (b : Bool) (v : List String) → (c == k) ≡ false → Absent c (entry_if b k v)
unfolding lookup
Absent-last c k true v h = ground (arith, h)
Absent-last c k false v h = refl

nodup :
    (k : String) (b : Bool) (v : List String) (d : Dict String (List String))
    → Absent k d
    → NodupKeys d
    → NodupKeys (entry_if b k v ++ d)
nodup k true v d a h = (a, h)
nodup k false v d a h = h

nodup_last : (k : String) (b : Bool) (v : List String) → NodupKeys (entry_if b k v)
unfolding lookup
nodup_last k true v = (refl, tt)
nodup_last k false v = tt

categories-NodupKeys : (m : Manager) → NodupKeys (categories m)
unfolding categories string_eq
categories-NodupKeys m =
    nodup step_instance _ _ _
      (absent _ step_cl_resources _ _ _ refl (
        absent _ step_sync_rules _ _ _ refl (
          absent _ step_custom_location _ _ _ refl
            (absent _ step_aio_ext _ _ _ refl (Absent-last _ step_dep_extensions _ _ refl)))))
      (nodup step_cl_resources _ _ _
        (absent _ step_sync_rules _ _ _ refl (
          absent _ step_custom_location _ _ _ refl
            (absent _ step_aio_ext _ _ _ refl (Absent-last _ step_dep_extensions _ _ refl))))
        (nodup step_sync_rules _ _ _
          (absent _ step_custom_location _ _ _ refl
            (absent _ step_aio_ext _ _ _ refl (Absent-last _ step_dep_extensions _ _ refl)))
          (nodup step_custom_location _ _ _
            (absent _ step_aio_ext _ _ _ refl (Absent-last _ step_dep_extensions _ _ refl))
            (nodup step_aio_ext _ _ _ (Absent-last _ step_dep_extensions _ _ refl)
              (nodup_last step_dep_extensions _ _)))))

init-Fits :
    (m : Manager) (title : String) (quiet : Bool)
    → Fits (Listed m) (Workflow.init title (categories m) quiet)
init-Fits m title quiet c st h =
    rw (init-entry_of title (categories m) quiet (categories-NodupKeys m) c st)
      (go (lookup c (categories m)) h)
  where
    go :
        (o : Option (List String))
        → Finds o st
        → ((Workflow.init title (categories m) quiet).no_progress
            || is_some (elim o as (λ _. Option Workflow.Entry) [
              | none ↦ none
              | some steps ↦ if contains steps st then some Workflow.fresh_entry else none
            ]))
          ≡ true
    go none h = absurd h
    go (some steps) h = ground (arith, h)

-- Where the clients raise no ValueError, `_execute` raises none, so that the step table refuses
-- none of its updates.
pub execute-no_value_error :
    (C : Cloud Request) (m : Manager) (s : Run C)
    → IsHonest C
    → (e : Exc) → (execute C m s).0 ≡ raised e
    → is_value_error e ≡ false
unfolding execute
execute-no_value_error C m s honest e h = subst (Good (λ _. Unit)) h (
    (execute_steps-Safe C honest (Listed m) m (Listed-AllShown C honest m)).good
      (record {
        world = s.world;
        display = Workflow.init "Deleting IoT Operations" (categories m) (not m.render_progress);
        requests = s.requests;
      })
      (init-Fits m "Deleting IoT Operations" (not m.render_progress)))
