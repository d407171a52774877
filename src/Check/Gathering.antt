-- ===== src/Check/Gathering.antt =====
-- The operations of `CheckManager`, target by target.
use azure_iot_ops_cli_extens.Base.{
  ◌≡◌, String, Bool, ◌&&◌, ◌||◌, Option, none, some, List, [], ◌∷◌, ◌++◌, arith, if◌then◌else◌,
  get_or, is_some, Option-cases, inl, inr, ◌==◌, string_eq, truthy,
}
use azure_iot_ops_cli_extens.Base.Dict.{lookup, insert, lookup-insert, lookup-nil}
use azure_iot_ops_cli_extens.Base.Exec.{Outcome, ◌>>=◌}
use azure_iot_ops_cli_extens.Base.Exec.{is_returned}
use azure_iot_ops_cli_extens.Check.{CheckTaskStatus, skipped}
use azure_iot_ops_cli_extens.Check.Severity.{worse, overrides-worse}
use azure_iot_ops_cli_extens.Check.Manager.{
  Evaluation, Target, Nested, CheckManager, at, put, fresh, add_target, change_target,
  set_target_conditions, add_target_conditions, raise_status, process_status, append_eval,
  add_target_eval, non_empty_text,
}

pub at-put :
    {A : Type 0} (a b c d : String) (v : A) (n : Nested A)
    → at a b (put c d v n) ≡ (if a == c && b == d then some v else at a b n)
unfolding at put
at-put {A} a b c d v n = elim (Option-cases (lookup c n)) [
  | inl e ↦
      ground
        (arith, lookup-insert a c (insert d v []) n, lookup-insert b d v [], lookup-nil {V = A} b)
  | inr (inner, e) ↦
      ground (arith, lookup-insert a c (insert d v inner) n, lookup-insert b d v inner)
]

module _ {V D : Type 0} where
  -- A target of a check.
  abbrev pub target_of : String → String → CheckManager V D → Option (Target V)
  target_of target_name namespace m = at target_name namespace m.targets

  module _ (target_name : String) (status : CheckTaskStatus) (namespace : String)
      (m : CheckManager V D) where
    pub process_status-target :
        (t n : String)
        → target_of t n (process_status target_name status namespace m).1 ≡ (
            if t == target_name && n == namespace
            then elim (target_of t n m) [ none ↦ none | some x ↦ some (raise_status status x) ]
            else target_of t n m)
    unfolding process_status
    process_status-target t n = elim (Option-cases (target_of target_name namespace m)) [
      | inl e ↦ ground arith
      | inr (x, e) ↦
          ground (arith, at-put t n target_name namespace (raise_status status x) m.targets)
    ]

    pub process_status-worst : (process_status target_name status namespace m).1.worst_status ≡ (
        if is_some (target_of target_name namespace m)
        then worse status m.worst_status
        else m.worst_status)
    unfolding process_status
    process_status-worst = ground (arith, overrides-worse status m.worst_status)

  module _ (target_name namespace : String) (f : Target V → Target V) (m : CheckManager V D) where
    pub change_target-target :
        (t n : String)
        → target_of t n (change_target target_name namespace f m).1 ≡ (
            if t == target_name && n == namespace
            then elim (target_of t n m) [ none ↦ none | some x ↦ some (f x) ]
            else target_of t n m)
    unfolding change_target
    change_target-target t n = elim (Option-cases (target_of target_name namespace m)) [
      | inl e ↦ ground arith
      | inr (x, e) ↦ ground (arith, at-put t n target_name namespace (f x) m.targets)
    ]

    pub change_target-worst :
        (change_target target_name namespace f m).1.worst_status ≡ m.worst_status
    unfolding change_target
    change_target-worst = ground arith

    pub change_target-returned :
        is_returned (change_target target_name namespace f m).0
        ≡ is_some (target_of target_name namespace m)
    unfolding change_target
    change_target-returned = ground arith

    -- The set of targets stays the same.
    change_target-known :
        (t n : String)
        → is_some (target_of t n (change_target target_name namespace f m).1)
          ≡ is_some (target_of t n m)
    change_target-known t n = ground (arith, change_target-target t n)

  pub set_target_conditions-known :
      (target_name : String) (conditions : Option (List String)) (namespace : String)
      (m : CheckManager V D) (t n : String)
      → is_some (target_of t n (set_target_conditions target_name conditions namespace m).1)
        ≡ is_some (target_of t n m)
  unfolding set_target_conditions
  set_target_conditions-known target_name conditions namespace m t n =
      change_target-known target_name namespace _ m t n

  pub add_target_conditions-known :
      (target_name : String) (conditions : List String) (namespace : String) (m : CheckManager V D)
      (t n : String)
      → is_some (target_of t n (add_target_conditions target_name conditions namespace m).1)
        ≡ is_some (target_of t n m)
  unfolding add_target_conditions
  add_target_conditions-known target_name conditions namespace m t n =
      change_target-known target_name namespace _ m t n

  pub add_target_eval-returned :
      (is_truthy : V → Bool) (target_name : String) (status : CheckTaskStatus) (value : Option V)
      (namespace : String) (name kind : Option String) (m : CheckManager V D)
      → is_returned (add_target_eval is_truthy target_name status value namespace name kind m).0
        ≡ is_some (target_of target_name namespace m)
  unfolding add_target_eval ◌>>=◌ change_target process_status
  add_target_eval-returned is_truthy target_name status value namespace name kind m =
      let e : Evaluation V = record {
        status = status;
        name = non_empty_text name;
        value = elim value [ none ↦ none | some v ↦ if is_truthy v then some v else none ];
        kind = non_empty_text kind;
      } in
      elim (Option-cases (target_of target_name namespace m)) [
        | inl h ↦ ground arith
        | inr (x, h) ↦
            ground (
              arith,
              at-put target_name namespace target_name namespace (append_eval e x) m.targets,
            )
      ]

  -- `add_target` puts a new, empty target under its keys, which keeps an older description where
  -- it has none of its own, and changes no other target; with a namespace "" that is not there, it
  -- changes none.
  pub add_target-target :
      (target_name namespace : String) (conditions : Option (List String))
      (description : Option String) (m : CheckManager V D) (t n : String)
      → target_of t n (add_target target_name namespace conditions description m).1 ≡ (
          if (truthy namespace || is_some (target_of target_name namespace m))
            && (t == target_name && n == namespace)
          then some (record {
            conditions = conditions;
            evaluations = [];
            status = skipped;
            description = elim (non_empty_text description) [
              | some text ↦ some text
              | none ↦ elim (target_of target_name namespace m) [
                | none ↦ none
                | some old ↦ old.description
              ]
            ];
          })
          else target_of t n m)
  unfolding add_target at
  add_target-target target_name namespace conditions description m t n =
      let spaces = get_or (lookup target_name m.targets) [] in
      let made = insert namespace fresh spaces in
      let text : Option String → Option String =
        λ old. elim (non_empty_text description) [ some text ↦ some text | none ↦ old ] in
      let renewed : Option String → Target V = λ old. record {
        conditions = conditions;
        evaluations = [];
        status = skipped;
        description = text old;
      } in
      elim (Option-cases (lookup namespace spaces)) [
        | inr (old, e) ↦ ground (
          arith,
          lookup-insert t target_name (insert namespace (renewed old.description) spaces) m.targets,
          lookup-insert n namespace (renewed old.description) spaces,
          lookup-nil {V = Target V} namespace,
        )
        | inl e ↦ ground (
          arith,
          lookup-insert t target_name (insert namespace (renewed none) made) m.targets,
          lookup-insert t target_name spaces m.targets,
          lookup-insert n namespace (renewed none) made,
          lookup-insert n namespace fresh spaces,
          lookup-insert namespace namespace fresh spaces,
          lookup-nil {V = Target V} n,
        )
      ]

  pub add_target-worst :
      (target_name namespace : String) (conditions : Option (List String))
      (description : Option String) (m : CheckManager V D)
      → (add_target target_name namespace conditions description m).1.worst_status ≡ m.worst_status
  unfolding add_target
  add_target-worst target_name namespace conditions description m = ground arith

  -- `add_target_eval` appends one evaluation to its target and raises the status of the target to
  -- it; every other target is as before.
  pub add_target_eval-target :
      (is_truthy : V → Bool) (target_name : String) (status : CheckTaskStatus) (value : Option V)
      (namespace : String) (name kind : Option String) (m : CheckManager V D) (t n : String)
      → target_of t n (add_target_eval is_truthy target_name status value namespace name kind m).1
        ≡ (if t == target_name && n == namespace
            then elim (target_of t n m) [
              | none ↦ none
              | some x ↦ some (record {
                conditions = x.conditions;
                evaluations =
                    x.evaluations
                    ++ record {
                      status = status;
                      name = non_empty_text name;
                      value = elim value [
                        | none ↦ none
                        | some v ↦ if is_truthy v then some v else none
                      ];
                      kind = non_empty_text kind;
                    }
                      ∷ [];
                status = worse status x.status;
                description = x.description;
              })
            ]
            else target_of t n m)
  unfolding add_target_eval ◌>>=◌
  add_target_eval-target is_truthy target_name status value namespace name kind m t n =
      let e : Evaluation V = record {
        status = status;
        name = non_empty_text name;
        value = elim value [ none ↦ none | some v ↦ if is_truthy v then some v else none ];
        kind = non_empty_text kind;
      } in
      let after : Outcome (Unit {0}) × CheckManager V D =
        change_target target_name namespace (append_eval e) m in
      elim (Option-cases (target_of t n m)) [
        | inl h ↦ ground (
          arith,
          change_target-target target_name namespace (append_eval e) m t n,
          change_target-returned target_name namespace (append_eval e) m,
          process_status-target target_name status namespace after.1 t n,
        )
        | inr (x, h) ↦ ground (
          arith,
          change_target-target target_name namespace (append_eval e) m t n,
          change_target-returned target_name namespace (append_eval e) m,
          process_status-target target_name status namespace after.1 t n,
          overrides-worse status x.status,
        )
      ]

  -- `add_target_eval` makes the worst status the worse of the two if the target is there, and
  -- leaves it otherwise.
  pub add_target_eval-worst :
      (is_truthy : V → Bool) (target_name : String) (status : CheckTaskStatus) (value : Option V)
      (namespace : String) (name kind : Option String) (m : CheckManager V D)
      → (add_target_eval is_truthy target_name status value namespace name kind m).1.worst_status
        ≡ (if is_some (target_of target_name namespace m)
            then worse status m.worst_status
            else m.worst_status)
  unfolding add_target_eval ◌>>=◌ change_target process_status
  add_target_eval-worst is_truthy target_name status value namespace name kind m =
      let e : Evaluation V = record {
        status = status;
        name = non_empty_text name;
        value = elim value [ none ↦ none | some v ↦ if is_truthy v then some v else none ];
        kind = non_empty_text kind;
      } in
      elim (Option-cases (target_of target_name namespace m)) [
        | inl h ↦ ground arith
        | inr (x, h) ↦ ground (
          arith,
          at-put target_name namespace target_name namespace (append_eval e x) m.targets,
          overrides-worse status m.worst_status,
        )
      ]
