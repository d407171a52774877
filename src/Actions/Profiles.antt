-- ===== src/Actions/Profiles.antt =====
-- `_discover_dataflow_profile` against a search of a list, on clients whose answers stay the same.
use azure_iot_ops_cli_extens.Base.{
  String, ◌≡◌, refl, sym, ap, ◌∙◌, Bool, true, false, Option, some, List, [], ◌∷◌, if◌then◌else◌,
  string_eq, truthy, find, keep, arith, Bool-cases, inl, inr, eq→≡,
}
use azure_iot_ops_cli_extens.Base.Exec.{
  Exc, Outcome, returned, raised, Exec, ◌>>=◌, pure, try_except, and_then, handle, raise,
  is_returned,
}
use azure_iot_ops_cli_extens.Base.Json.{Json, str, get}
use azure_iot_ops_cli_extens.Cloud.{Run}
use azure_iot_ops_cli_extens.Actions.{
  Address, Clients, default_dataflow_profile, is_missing, ask, exists,
}
use azure_iot_ops_cli_extens.Actions.Discovery.{
  is_passed_over, search_profiles, discover_dataflow_profile,
}

-- The listed documents have these names; a document without a name has the empty one.
abbrev pub HaveNames : List Json → List String → Type 0
HaveNames [] [] = Unit
HaveNames (p ∷ ps) (n ∷ ns) = (get "name" (str "") p ≡ returned (str n)) × HaveNames ps ns
HaveNames _ _ = ⊥

-- The gets leave the world alone and answer by the target; the error of one is that it is missing.
pub record IsStationary (V : Clients) (answer : Address → Outcome Json) : Type 0 where
  pub gets : (t : Address) (w : V.cloud.World) → V.get_target t w ≡ (answer t, w)
  pub missing : (t : Address) (e : Exc) → answer t ≡ raised e → is_missing e ≡ true

module _ (V : Clients) (answer : Address → Outcome Json) (fixed : IsStationary V answer) where
  answered :
      (o : Outcome Json) (s : Run V.cloud)
      → ((e : Exc) → o ≡ raised e → is_missing e ≡ true)
      → handle
          (and_then o s (λ _. pure true)).0
          (and_then o s (λ _. pure true)).1
          (λ e. if is_missing e then pure false else raise e)
        ≡ (returned (is_returned o), s)
  answered (returned a) s h = refl
  answered (raised e) s h = rw (h e refl) refl

  exists-answer :
      (t : Address) (s : Run V.cloud) → exists V t s ≡ (returned (is_returned (answer t)), s)
  unfolding exists ask try_except ◌>>=◌
  exists-answer t s = rw (fixed.gets t s.world) (answered (answer t) s (fixed.missing t))

  -- The profile has the resource.
  abbrev pub holds : (String → Address) → String → Bool
  holds get_resource profile = is_returned (answer (get_resource profile))

  search-passed_over :
      (g : String → Address) (p : Json) (ps : List Json) (n : String) (s : Run V.cloud)
      → get "name" (str "") p ≡ returned (str n)
      → is_passed_over n ≡ true
      → search_profiles V g (p ∷ ps) s ≡ search_profiles V g ps s
  unfolding search_profiles ◌>>=◌
  search-passed_over g p ps n s h k = rw (h, k) refl

  search-looked :
      (g : String → Address) (p : Json) (ps : List Json) (n : String) (s : Run V.cloud)
      → get "name" (str "") p ≡ returned (str n)
      → is_passed_over n ≡ false
      → search_profiles V g (p ∷ ps) s
        ≡ (if holds g n then pure (some n) else search_profiles V g ps) s
  unfolding search_profiles ◌>>=◌
  search-looked g p ps n s h k = rw (h, k, exists-answer (g n) s) refl

  skipped-find :
      (P : String → Bool) (n : String) (ns : List String)
      → P default_dataflow_profile ≡ false
      → is_passed_over n ≡ true
      → find P (keep truthy (n ∷ ns)) ≡ find P (keep truthy ns)
  skipped-find P n ns d k = elim (Bool-cases (truthy n)) [
    | inl t ↦ rw (t, ap P (eq→≡ n default_dataflow_profile (ground (arith, t, k))), d) refl
    | inr t ↦ rw t refl
  ]

  looked-find :
      (P : String → Bool) (n : String) (ns : List String)
      → is_passed_over n ≡ false
      → find P (keep truthy (n ∷ ns)) ≡ (if P n then some n else find P (keep truthy ns))
  looked-find P n ns k = elim (Bool-cases (truthy n)) [
    | inl t ↦ rw t refl
    | inr t ↦ absurd (ground (arith, t, k))
  ]

  if_some-result :
      (b : Bool) (n : String) (m : Exec (Run V.cloud) (Option String)) (o : Option String)
      (s : Run V.cloud)
      → m s ≡ (returned o, s)
      → (if b then pure (some n) else m) s ≡ (returned (if b then some n else o), s)
  if_some-result true n m o s h = refl
  if_some-result false n m o s h = h

  search-find :
      (g : String → Address) (ps : List Json) (ns : List String) (s : Run V.cloud)
      → HaveNames ps ns
      → holds g default_dataflow_profile ≡ false
      → search_profiles V g ps s ≡ (returned (find (holds g) (keep truthy ns)), s)
  unfolding search_profiles
  search-find g [] [] s h d = refl
  search-find g (p ∷ ps) (n ∷ ns) s h d = elim (Bool-cases (is_passed_over n)) [
    | inl k ↦
        search-passed_over g p ps n s h.0 k
        ∙ (search-find g ps ns s h.1 d
            ∙ (ap (λ o. (returned o, s)) (sym (skipped-find (holds g) n ns d k))))
    | inr k ↦
        search-looked g p ps n s h.0 k
        ∙ (if_some-result (holds g n) n (search_profiles V g ps) _ s (search-find g ps ns s h.1 d)
            ∙ ap (λ o. (returned o, s)) (sym (looked-find (holds g) n ns k)))
  ]
  search-find g [] (_ ∷ _) s h d = absurd h
  search-find g (_ ∷ _) [] s h d = absurd h

  -- Where the answers of the clients do not change, a get fails only because its resource is
  -- missing, and the listed profiles have these names, `_discover_dataflow_profile` finds the
  -- first profile that has the resource among the default one and then the listed ones with a name
  -- that is not empty, and changes nothing.
  pub discover_dataflow_profile-find :
      (name group : String) (g : String → Address) (ps : List Json) (ns : List String)
      (s : Run V.cloud)
      → V.list_profiles group name s.world ≡ (returned ps, s.world)
      → HaveNames ps ns
      → discover_dataflow_profile V name group g s
        ≡ (returned (find (holds g) (default_dataflow_profile ∷ keep truthy ns)), s)
  unfolding discover_dataflow_profile ask ◌>>=◌
  discover_dataflow_profile-find name group g ps ns s l h =
      elim (Bool-cases (holds g default_dataflow_profile)) [
        | inl d ↦ rw (exists-answer (g default_dataflow_profile) s, d) refl
        | inr d ↦
            rw (exists-answer (g default_dataflow_profile) s, d, l) (search-find g ps ns s h d)
      ]
