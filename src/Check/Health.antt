-- ===== src/Check/Health.antt =====
-- The status of a pod, as a function of its phase and its conditions.
use azure_iot_ops_cli_extens.Base.{
  ◌≡◌, refl, String, Bool, true, false, ◌&&◌, ◌||◌, not, some, List, [], ◌∷◌, ◌++◌, arith,
  if◌then◌else◌, is_some, any, Option-cases, Bool-cases, inl, inr, ◌==◌, string_eq, contains,
  nonempty, map, eq_self,
}
use azure_iot_ops_cli_extens.Base.Dict.{Dict, lookup, values}
use azure_iot_ops_cli_extens.Base.Exec.{Outcome-cases, returned}
use azure_iot_ops_cli_extens.Base.Exec.{is_returned}
use azure_iot_ops_cli_extens.Check.{CheckTaskStatus, warning, error, is_error}
use azure_iot_ops_cli_extens.Check.Pod.{
  Condition, pod_condition_text_map, normalized, known_condition_values, Loop, holds, judge,
  condition_label, condition_result, condition_value, value_text, file_result, gather, verdict,
  start_loop,
}

-- A condition of a known type.
abbrev pub is_known : Condition → Bool
is_known c = is_some (lookup c.type pod_condition_text_map)

-- A known condition that does not hold.
abbrev pub is_bad : Condition → Bool
is_bad c = is_known c && not (holds c)

-- A condition that is shown as irregular.
abbrev pub is_odd : Condition → Bool
is_odd c = not (contains known_condition_values (normalized (condition_label c)))

-- A condition of a type that is not known, but reads like the label of one that is.
abbrev pub is_lookalike : Condition → Bool
is_lookalike c = not (is_known c) && not (is_odd c)

-- A known condition that does not hold makes an error, but not of a pod that succeeded; then the
-- phase counts, and an irregular condition is a warning.
abbrev pub pod_status : Bool → CheckTaskStatus → List Condition → CheckTaskStatus
pod_status succeeded phase_status cs =
    if not succeeded && any is_bad cs
    then error
    else if any is_odd cs && not (is_error phase_status)
    then warning
    else phase_status

lookup-values :
    (k v : String) (d : Dict String String) → lookup k d ≡ some v → contains (values d) v ≡ true
unfolding lookup
lookup-values k v [] h = absurd (ground arith)
lookup-values k v ((j, w) ∷ d) h = elim (Bool-cases (k == j)) [
  | inl e ↦ ground (arith, eq_self v)
  | inr e ↦ ground (arith, lookup-values k v d)
]

contains-map :
    (f : String → String) (x : String) (xs : List String)
    → contains xs x ≡ true
    → contains (map f xs) (f x) ≡ true
contains-map f x [] h = absurd (ground arith)
contains-map f x (y ∷ xs) h = elim (Bool-cases (x == y)) [
  | inl e ↦ ground (arith, eq_self (f x))
  | inr e ↦ ground (arith, contains-map f x xs)
]

nonempty-snoc {ℓ} : {A : Type ℓ} (x : A) (xs : List A) → nonempty (xs ++ x ∷ []) ≡ true
nonempty-snoc x [] = refl
nonempty-snoc x (_ ∷ _) = refl

label-is_known : (c : Condition) → is_known c ≡ true → is_odd c ≡ false
unfolding known_condition_values
label-is_known c h = elim (Option-cases (lookup c.type pod_condition_text_map)) [
  | inl e ↦ absurd (ground arith)
  | inr (label, e) ↦
      let found : contains known_condition_values (normalized label) ≡ true =
        contains-map normalized label (values pod_condition_text_map)
          (lookup-values c.type label pod_condition_text_map e) in
      ground arith
]

module _ (succeeded : Bool) (c : Condition) (l l' : Loop) where
  file_result-ready : file_result c l ≡ returned l' → l'.ready ≡ l.ready
  unfolding file_result
  file_result-ready h = ground arith

  file_result-eval : file_result c l ≡ returned l' → l'.eval_status ≡ l.eval_status
  unfolding file_result
  file_result-eval h = ground arith

  file_result-unknown :
      file_result c l ≡ returned l'
      → nonempty l'.unknown_results ≡ (is_odd c || nonempty l.unknown_results)
  unfolding file_result
  file_result-unknown h = ground (
    arith,
    nonempty-snoc (condition_result c l (value_text (condition_value c))) l.unknown_results,
  )

module _ (succeeded : Bool) (c : Condition) (l : Loop) where
  judge-ready : (judge succeeded c l).ready ≡ (l.ready && not (not succeeded && is_bad c))
  judge-ready = ground arith

  judge-eval :
      (judge succeeded c l).eval_status
      ≡ (if not succeeded && is_bad c then error else l.eval_status)
  judge-eval = ground arith

  judge-unknown : (judge succeeded c l).unknown_results ≡ l.unknown_results
  judge-unknown = ground arith

  judge-deco : (is_some (judge succeeded c l).deco) ≡ (is_known c || is_some l.deco)
  judge-deco = ground arith

  -- A condition is filed, unless it only looks like a known one.
  file_result-returned :
      is_lookalike c ≡ false → is_returned (file_result c (judge succeeded c l)) ≡ true
  unfolding file_result
  file_result-returned h = ground (arith, judge-deco, label-is_known c)

-- What the loop leaves behind.
record Gathered (succeeded : Bool) (cs : List Condition) (l l' : Loop) : Type 0 where
  pub ready : l'.ready ≡ (l.ready && not (not succeeded && any is_bad cs))
  pub eval_status :
      l'.eval_status ≡ (if not succeeded && any is_bad cs then error else l.eval_status)
  pub unknown : nonempty l'.unknown_results ≡ (nonempty l.unknown_results || any is_odd cs)

gather-Gathered :
    (succeeded : Bool) (cs : List Condition) (l l' : Loop)
    → gather succeeded cs l ≡ returned l'
    → Gathered succeeded cs l l'
unfolding gather
gather-Gathered succeeded [] l l' h = record {
  ready = ground arith;
  eval_status = ground arith;
  unknown = ground arith;
}
gather-Gathered succeeded (c ∷ cs) l l' h =
    elim (Outcome-cases (file_result c (judge succeeded c l))) [
      | inl (e, p) ↦ absurd (ground arith)
      | inr (m, p) ↦
          let rest = gather-Gathered succeeded cs m l' (ground arith) in
          record {
            ready = ground (
              arith,
              rest.ready,
              file_result-ready succeeded c (judge succeeded c l) m p,
              judge-ready succeeded c l,
            );
            eval_status = ground (
              arith,
              rest.eval_status,
              file_result-eval succeeded c (judge succeeded c l) m p,
              judge-eval succeeded c l,
            );
            unknown = ground (
              arith,
              rest.unknown,
              file_result-unknown succeeded c (judge succeeded c l) m p,
              judge-unknown succeeded c l,
            );
          }
    ]

-- The status of a pod whose conditions could be gathered.
pub gather-verdict :
    (succeeded : Bool) (status : CheckTaskStatus) (phase : String) (cs : List Condition) (l : Loop)
    → gather succeeded cs (start_loop status phase) ≡ returned l
    → verdict l ≡ pod_status succeeded status cs
gather-verdict succeeded status phase cs l h =
    let g = gather-Gathered succeeded cs (start_loop status phase) l h in
    ground (arith, g.ready, g.eval_status, g.unknown)

pub gather-returned :
    (succeeded : Bool) (cs : List Condition) (l : Loop)
    → any is_lookalike cs ≡ false
    → is_returned (gather succeeded cs l) ≡ true
unfolding gather
gather-returned succeeded [] l h = refl
gather-returned succeeded (c ∷ cs) l h =
    elim (Outcome-cases (file_result c (judge succeeded c l))) [
      | inl (e, p) ↦ absurd (ground (arith, file_result-returned succeeded c l))
      | inr (m, p) ↦ ground (arith, gather-returned succeeded cs m)
    ]
