-- ===== src/Check/Coverage.antt =====
-- The states of a `CheckManager` that calls on it reach, as a step relation.
use mathlib.Core.Path.{subst}
use azure_iot_ops_cli_extens.Base.{
  ◌≤◌, ◌≡◌, refl, String, Bool, true, ◌&&◌, ◌||◌, Option, none, some, List, [], ◌∷◌, ◌++◌, arith,
  if◌then◌else◌, is_some, All, All-append, Option-cases, Bool-cases, inl, inr, ◌==◌, string_eq,
  truthy,
}
use azure_iot_ops_cli_extens.Base.Dict.{Dict, lookup-nil}
use azure_iot_ops_cli_extens.Base.Exec.{Exec}
use azure_iot_ops_cli_extens.Check.{CheckTaskStatus, skipped}
use azure_iot_ops_cli_extens.Check.Severity.{severity, worse, overrides-worse}
use azure_iot_ops_cli_extens.Check.Manager.{
  Evaluation, Target, CheckManager, new, add_target, change_target, set_target_conditions, at,
  add_target_conditions, raise_status, process_status, set_target_status, add_target_eval,
  add_display, non_empty_text,
}
use azure_iot_ops_cli_extens.Check.Gathering.{
  target_of, change_target-target, change_target-worst, add_target-target, add_target-worst,
  process_status-target, process_status-worst, add_target_eval-target, add_target_eval-worst,
}

module _ (V D : Type 0) (is_truthy : V → Bool) where
  -- The calls that a check makes on its manager; a call that raises may be caught by the caller.
  pub data Operation : Type 0 where
    add_target_op : String → String → Option (List String) → Option String → Operation
    set_conditions_op : String → Option (List String) → String → Operation
    add_conditions_op : String → List String → String → Operation
    set_status_op : String → CheckTaskStatus → String → Operation
    add_eval_op :
        String → CheckTaskStatus → Option V → String → Option String → Option String → Operation
    add_display_op : String → D → String → Operation

  abbrev pub apply_op : Operation → Exec (CheckManager V D) (Unit {0})
  apply_op (add_target_op t n c d) = add_target t n c d
  apply_op (set_conditions_op t c n) = set_target_conditions t c n
  apply_op (add_conditions_op t c n) = add_target_conditions t c n
  apply_op (set_status_op t s n) = set_target_status t s n
  apply_op (add_eval_op t s v n r k) = add_target_eval is_truthy t s v n r k
  apply_op (add_display_op t d n) = add_display t d n

  pub data Reachable : CheckManager V D → Type 0 where
    start : (name desc : String) → Reachable (new name desc)
    step : (op : Operation) (m : CheckManager V D) → Reachable m → Reachable (apply_op op m).1

abbrev pub Covered : {V : Type 0} → CheckTaskStatus → Target V → Type 0
Covered worst x =
    All (λ e. severity e.status ≤ severity x.status) x.evaluations
    × (severity x.status ≤ severity worst)

abbrev pub Covers : {V D : Type 0} → CheckManager V D → Type 0
Covers {V} m = (t n : String) (x : Target V) → target_of t n m ≡ some x → Covered m.worst_status x

worse_left : (s t : CheckTaskStatus) → severity s ≤ severity (worse s t)
worse_left s t = ground arith

worse_right : (s t : CheckTaskStatus) → severity t ≤ severity (worse s t)
worse_right s t = ground arith

module _ {V : Type 0} where
  All-lift :
      (a b : CheckTaskStatus) (es : List (Evaluation V))
      → severity a ≤ severity b
      → All (λ e. severity e.status ≤ severity a) es
      → All (λ e. severity e.status ≤ severity b) es
  All-lift a b [] h k = tt
  All-lift a b (e ∷ es) h k = (omega (arith, h, k.0), All-lift a b es h k.1)

  Covered-lift :
      (a b : CheckTaskStatus) (x : Target V) → severity a ≤ severity b → Covered a x → Covered b x
  Covered-lift a b x h k = (k.0, omega (arith, h, k.1))

  Covered-raise :
      (s worst : CheckTaskStatus) (x : Target V)
      → Covered worst x
      → Covered (worse s worst) (record {
        conditions = x.conditions;
        evaluations = x.evaluations;
        status = worse s x.status;
        description = x.description;
      })
  Covered-raise s worst x k = (
    All-lift x.status (worse s x.status) x.evaluations (worse_right s x.status) k.0,
    ground (arith, k.1),
  )

  Covered-append :
      (s worst : CheckTaskStatus) (x : Target V) (e : Evaluation V)
      → e.status ≡ s
      → Covered worst x
      → Covered (worse s worst) (record {
        conditions = x.conditions;
        evaluations = x.evaluations ++ e ∷ [];
        status = worse s x.status;
        description = x.description;
      })
  Covered-append s worst x e same k =
      let lifted = Covered-raise s worst x k in
      (
        All-append (λ e. severity e.status ≤ severity (worse s x.status)) x.evaluations (e ∷ [])
            lifted.0 (rw same (worse_left s x.status), tt),
        lifted.1,
      )

module _ {V D : Type 0} where
  -- A call that changes one target, and does not lower the worst status.
  Covers-change :
      (m m' : CheckManager V D) (tn ns : String) (f : Target V → Target V)
      → ((t n : String)
          → target_of t n m' ≡ (
              if t == tn && n == ns
              then elim (target_of t n m) [ none ↦ none | some x ↦ some (f x) ]
              else target_of t n m))
      → severity m.worst_status ≤ severity m'.worst_status
      → ((x : Target V)
          → is_some (target_of tn ns m) ≡ true
          → Covered m.worst_status x
          → Covered m'.worst_status (f x))
      → Covers m
      → Covers m'
  Covers-change m m' tn ns f h w k c t n x e = elim (Bool-cases (t == tn && n == ns)) [
    | inl here ↦ elim (Option-cases (target_of t n m)) [
      | inl g ↦ absurd (ground (arith, h t n))
      | inr (y, g) ↦
          let same : f y ≡ x = ground (arith, h t n) in
          let there : is_some (target_of tn ns m) ≡ true = ground arith in
          subst (Covered m'.worst_status) same (k y there (c t n y g))
    ]
    | inr there ↦ Covered-lift m.worst_status m'.worst_status x w (c t n x (ground (arith, h t n)))
  ]

  change_target-Covers :
      (tn ns : String) (f : Target V → Target V) (m : CheckManager V D)
      → ((x : Target V) → Covered m.worst_status x → Covered m.worst_status (f x))
      → Covers m
      → Covers (change_target tn ns f m).1
  change_target-Covers tn ns f m k c =
      Covers-change m (change_target tn ns f m).1 tn ns f (change_target-target tn ns f m)
        (rw (change_target-worst tn ns f m) (ground arith))
        (λ x _ h. rw (change_target-worst tn ns f m) (k x h)) c

  process_status-Covers :
      (tn : String) (s : CheckTaskStatus) (ns : String) (m : CheckManager V D)
      → Covers m
      → Covers (process_status tn s ns m).1
  process_status-Covers tn s ns m c =
      Covers-change m (process_status tn s ns m).1 tn ns (raise_status s)
        (process_status-target tn s ns m)
        (ground (arith, process_status-worst tn s ns m, worse_right s m.worst_status))
        (λ x p h.
          rw (process_status-worst tn s ns m, p, overrides-worse s x.status)
            (Covered-raise s m.worst_status x h))
        c

  add_target-Covers :
      (tn ns : String) (conditions : Option (List String)) (description : Option String)
      (m : CheckManager V D)
      → Covers m
      → Covers (add_target tn ns conditions description m).1
  add_target-Covers tn ns conditions description m c t n x e =
      rw (add_target-worst tn ns conditions description m)
        (elim (Bool-cases ((truthy ns || is_some (target_of tn ns m)) && (t == tn && n == ns))) [
          | inl here ↦
              let cleared : x.evaluations ≡ [] =
                ground (arith, add_target-target tn ns conditions description m t n) in
              let skips : x.status ≡ skipped =
                ground (arith, add_target-target tn ns conditions description m t n) in
              rw (cleared, skips) (tt, ground arith)
          | inr there ↦
              c t n x (ground (arith, add_target-target tn ns conditions description m t n))
        ])

  add_target_eval-Covers :
      (is_truthy : V → Bool) (tn : String) (s : CheckTaskStatus) (value : Option V) (ns : String)
      (name kind : Option String) (m : CheckManager V D)
      → Covers m
      → Covers (add_target_eval is_truthy tn s value ns name kind m).1
  add_target_eval-Covers is_truthy tn s value ns name kind m c =
      let e : Evaluation V = record {
        status = s;
        name = non_empty_text name;
        value = elim value [ none ↦ none | some v ↦ if is_truthy v then some v else none ];
        kind = non_empty_text kind;
      } in
      Covers-change m (add_target_eval is_truthy tn s value ns name kind m).1 tn ns
        (λ x. record {
          conditions = x.conditions;
          evaluations = x.evaluations ++ e ∷ [];
          status = worse s x.status;
          description = x.description;
        })
        (add_target_eval-target is_truthy tn s value ns name kind m)
        (ground (
          arith,
          add_target_eval-worst is_truthy tn s value ns name kind m,
          worse_right s m.worst_status,
        ))
        (λ x p h.
          rw (add_target_eval-worst is_truthy tn s value ns name kind m, p)
            (Covered-append s m.worst_status x e refl h))
        c

  apply_op-Covers :
      (is_truthy : V → Bool) (op : Operation V D is_truthy) (m : CheckManager V D)
      → Covers m
      → Covers (apply_op V D is_truthy op m).1
  unfolding set_target_conditions add_target_conditions set_target_status add_display
  apply_op-Covers is_truthy (add_target_op t n cs d) m c = add_target-Covers t n cs d m c
  apply_op-Covers is_truthy (set_conditions_op t cs n) m c =
      change_target-Covers t n _ m (λ x h. h) c
  apply_op-Covers is_truthy (add_conditions_op t cs n) m c =
      change_target-Covers t n _ m (λ x h. h) c
  apply_op-Covers is_truthy (set_status_op t s n) m c = process_status-Covers t s n m c
  apply_op-Covers is_truthy (add_eval_op t s v n r k) m c =
      add_target_eval-Covers is_truthy t s v n r k m c
  apply_op-Covers is_truthy (add_display_op t d n) m c = c

-- In every state that calls on a `CheckManager` reach, the status of a target is at least as bad
-- as each of its evaluations, and the worst status at least as bad as the status of every target.
pub Reachable-Covers :
    (V D : Type 0) (is_truthy : V → Bool) (m : CheckManager V D)
    → Reachable V D is_truthy m
    → Covers m
unfolding new at
Reachable-Covers V D is_truthy _ (start name desc) =
    λ t n x e. absurd (ground (arith, lookup-nil {V = Dict String (Target V)} t))
Reachable-Covers V D is_truthy _ (step op m r) =
    apply_op-Covers is_truthy op m (Reachable-Covers V D is_truthy m r)
