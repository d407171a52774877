-- ===== src/Deletion/Guards.antt =====
-- The guards of `do_work`.
use azure_iot_ops_cli_extens.Base.{
  ◌≡◌, ◌⊎◌, refl, Bool, true, ◌||◌, Option, none, some, List, [], ◌∷◌, ◌++◌, arith, is_some,
  nonempty, string_eq, truthy, map, false, ◌==◌, String, lower, get_or, Bool-cases, inl, inr, eq→≡,
  eq_self,
}
use azure_iot_ops_cli_extens.Base.Exec.{is_returned}
use azure_iot_ops_cli_extens.ResourceMap.{Resource, sorted_resources, key_lt}
use azure_iot_ops_cli_extens.Base.Sorted.{nonempty-sorted_desc}
use azure_iot_ops_cli_extens.Cloud.{Request, Cloud, Run}
use azure_iot_ops_cli_extens.Deletion.Manager.{Manager, ClusterInfo, has_work, option_list}
use azure_iot_ops_cli_extens.Deletion.Discovery.{Services, text_or_empty}
use azure_iot_ops_cli_extens.Deletion.Execute.{execute}
use azure_iot_ops_cli_extens.Deletion.Plan.{plan}
use azure_iot_ops_cli_extens.Deletion.Work.{
  should_continue_prompt, check_status, connectivity_gate, discover, approve_and_execute, do_work,
}

-- The clusters that a run may go on with: any where --force is given, none that was resolved, or
-- one whose payload reports that it is connected.
pub data Passes (force : Bool) : Option ClusterInfo → Type 0 where
  forced : {cluster : Option ClusterInfo} → force ≡ true → Passes force cluster
  unresolved : Passes force none
  connected :
      {c : ClusterInfo} {status : String}
      → c.connectivity_status ≡ some (some status)
      → lower status ≡ "connected"
      → Passes force (some c)

-- All that must hold before a request is sent.
pub record IsApproved (S : Services) (confirm_yes force answer : Bool) (m : Manager) : Type 0 where
  pub named :
      (truthy (text_or_empty m.requested_cluster) || truthy (text_or_empty m.instance_name)) ≡ true
  pub discovered : is_returned (discover S m).0 ≡ true
  pub passes : Passes force (discover S m).1.cluster_resource
  pub work : has_work (discover S m).1 ≡ true
  pub confirmed : (confirm_yes || answer) ≡ true

check_status-connected :
    (status : String) → is_returned (check_status (some status)) ≡ true → lower status ≡ "connected"
unfolding check_status
check_status-connected status h = elim (Bool-cases (lower status == "connected")) [
  | inl e ↦ eq→≡ (lower status) "connected" e
  | inr n ↦ ground arith
]

check_status-unknown : is_returned (check_status (some "Unknown")) ≡ false
unfolding check_status lower string_eq
check_status-unknown = refl

module _ (c : ClusterInfo) where
  resolved-Passes :
      (o : Option (Option String))
      → c.connectivity_status ≡ o
      → is_returned (check_status (get_or o (some "Unknown"))) ≡ true
      → Passes false (some c)
  unfolding check_status
  resolved-Passes (some (some status)) e h = connected e (check_status-connected status h)
  resolved-Passes (some none) e h = ground arith
  resolved-Passes none e h = ground (arith, check_status-unknown, h)

connectivity_gate-Passes :
    (force : Bool) (cluster : Option ClusterInfo)
    → is_returned (connectivity_gate force cluster) ≡ true
    → Passes force cluster
unfolding connectivity_gate
connectivity_gate-Passes force none h = unresolved
connectivity_gate-Passes true (some c) h = forced refl
connectivity_gate-Passes false (some c) h = resolved-Passes c c.connectivity_status refl h

Passes-connectivity_gate :
    (force : Bool) (cluster : Option ClusterInfo)
    → Passes force cluster
    → is_returned (connectivity_gate force cluster) ≡ true
unfolding connectivity_gate check_status
Passes-connectivity_gate force none p = refl
Passes-connectivity_gate true (some c) p = refl
Passes-connectivity_gate false (some c) (forced h) = ground (arith, h)
Passes-connectivity_gate false (some c) (connected e l) =
    rw (e, l, eq_self {A = String} "connected") refl

module _ (C : Cloud Request) (S : Services) (confirm_yes force answer : Bool) (m : Manager)
    (s : Run C) where
  -- The tests behind the discovery.
  IsOpen : Manager → Type 0
  IsOpen m' =
      (is_returned (connectivity_gate force m'.cluster_resource) ≡ true)
      × (has_work m' ≡ true)
      × ((confirm_yes || answer) ≡ true)

  approve_and_execute-cases :
      (m' : Manager)
      → IsOpen m' × (approve_and_execute C S confirm_yes force answer m' s ≡ execute C m' s)
        ⊎ ((¬ IsOpen m') × ((approve_and_execute C S confirm_yes force answer m' s).1 ≡ s))
  unfolding IsOpen approve_and_execute should_continue_prompt
  approve_and_execute-cases m' = ground arith

  IsApproved-IsOpen : IsApproved S confirm_yes force answer m → IsOpen (discover S m).1
  unfolding IsOpen
  IsApproved-IsOpen a = (
    Passes-connectivity_gate force (discover S m).1.cluster_resource a.passes,
    a.work,
    a.confirmed,
  )

  -- If there is a name, a discovery that returns, something to delete, a confirmation, and
  -- --force, no cluster that was resolved, or one that reports itself connected, `do_work` is the
  -- run of `_execute` on what was discovered; else it leaves the world, the display and the
  -- requests as they were.
  pub do_work-cases :
      IsApproved S confirm_yes force answer m
        × (do_work C S confirm_yes force answer m s ≡ execute C (discover S m).1 s)
      ⊎ (¬ IsApproved S confirm_yes force answer m)
        × ((do_work C S confirm_yes force answer m s).1 ≡ s)
  unfolding do_work IsOpen
  do_work-cases = ground (
    arith,
    connectivity_gate-Passes force (discover S m).1.cluster_resource,
    IsApproved-IsOpen,
    approve_and_execute-cases (discover S m).1,
  )

nonempty-map : {A B : Type 0} (f : A → B) (xs : List A) → nonempty (map f xs) ≡ nonempty xs
nonempty-map f [] = refl
nonempty-map f (_ ∷ _) = refl

nonempty-append : {A : Type 0} (xs ys : List A) → nonempty (xs ++ ys) ≡ (nonempty xs || nonempty ys)
nonempty-append [] ys = refl
nonempty-append (_ ∷ _) ys = refl

nonempty-option_list : {A : Type 0} (o : Option A) → nonempty (option_list o) ≡ is_some o
nonempty-option_list none = refl
nonempty-option_list (some _) = refl

nonempty-sorted : (rs : List Resource) → nonempty (sorted_resources rs) ≡ nonempty rs
unfolding sorted_resources
nonempty-sorted rs = nonempty-sorted_desc key_lt rs

-- `_has_work` is true exactly where `_execute` has a request to send.
pub has_work-plan : (C : Cloud Request) (m : Manager) → has_work m ≡ nonempty (plan C m)
unfolding has_work plan
has_work-plan C m =
    rw
      (
        nonempty-append, nonempty-map, nonempty-option_list, nonempty-append, nonempty-map,
        nonempty-sorted, nonempty-append, nonempty-map, nonempty-append, nonempty-map,
        nonempty-option_list, nonempty-append, nonempty-map, nonempty-option_list, nonempty-map,
      )
      (ground arith)
