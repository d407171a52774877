-- ===== src/Base/Sends.antt =====
-- Rules for what a statement sends, by a log of it in the state, against a plan.
use mathlib.Core.List.{append-nil, append_assoc}
use mathlib.Core.Path.{subst}
use mathlib.Core.Path.{◌≡◌, refl, sym, ◌∙◌}
use mathlib.Core.Bool.{Bool, true, false}
use mathlib.Core.List.{List, [], ◌++◌}
use azure_iot_ops_cli_extens.Base.Outcomes.{lift, planned, planned-returned}
use azure_iot_ops_cli_extens.Base.Exec.{
  Exc, Outcome, returned, raised, Exec, ◌>>=◌, try_except, and_then, handle, is_returned,
}

module _ {S Q : Type 0} (log : S → List Q) where
  module _ {A : Type 0} where
    -- Whatever the outcome, a prefix of the plan is sent, and the whole plan where `done` holds.
    pub record Sends (done : Outcome A → Bool) (plan : List Q) (m : Exec (S) A) : Type 0 where
      pub sent : S → List Q
      pub unsent : S → List Q
      pub requests : (s : S) → log (m s).1 ≡ log s ++ sent s
      pub split : (s : S) → plan ≡ sent s ++ unsent s
      pub complete : (s : S) → done (m s).0 ≡ true → unsent s ≡ []

    pub Sends-quiet :
        (done : Outcome A → Bool) (m : Exec (S) A)
        → ((s : S) → log (m s).1 ≡ log s)
        → Sends done [] m
    Sends-quiet done m h = record {
      sent = λ s. [];
      unsent = λ s. [];
      requests = λ s. h s ∙ sym (append-nil (log s));
      split = λ s. refl;
      complete = λ s _. refl;
    }

  module _ {A B : Type 0} where
    -- One run of what follows a statement.
    Sends-and_then :
        (p q : List Q) (f : A → Exec (S) B)
        → ((a : A) → Sends is_returned q (f a))
        → (o : Outcome A) (s t : S) (sent unsent : List Q) → log t ≡ log s ++ sent
        → p ≡ sent ++ unsent
        → (is_returned o ≡ true → unsent ≡ [])
        → (sent' : List Q) × (unsent' : List Q) × (log (and_then o t f).1 ≡ log s ++ sent')
          × (p ++ q ≡ sent' ++ unsent')
          × (is_returned (and_then o t f).0 ≡ true → unsent' ≡ [])
    Sends-and_then p q f k (returned a) s t sent unsent r sp c = (
      sent ++ (k a).sent t,
      (k a).unsent t,
      (k a).requests t ∙ rw (r, append_assoc) refl,
      rw (sp, c refl, append-nil, (k a).split t, append_assoc) refl,
      (k a).complete t,
    )
    Sends-and_then p q f k (raised e) s t sent unsent r sp c =
        (sent, unsent ++ q, r, rw (sp, append_assoc) refl, λ h. cc)

    pub Sends-bind :
        {p q : List Q} (m : Exec (S) A) (f : A → Exec (S) B)
        → Sends is_returned p m
        → ((a : A) → Sends is_returned q (f a))
        → Sends is_returned (p ++ q) (m >>= f)
    unfolding ◌>>=◌
    Sends-bind {p} {q} m f k l = record {
      sent = λ s. (run s).0;
      unsent = λ s. (run s).1;
      requests = λ s. (run s).2;
      split = λ s. (run s).3;
      complete = λ s. (run s).4;
    }
      where
        run :
            (s : S)
            → (sent' : List Q) × (unsent' : List Q) × (log (and_then (m s).0 (m s).1 f).1
                ≡ log s ++ sent')
              × (p ++ q ≡ sent' ++ unsent')
              × (is_returned (and_then (m s).0 (m s).1 f).0 ≡ true → unsent' ≡ [])
        run s =
            Sends-and_then p q f l (m s).0 s (m s).1 (k.sent s) (k.unsent s) (k.requests s)
              (k.split s) (k.complete s)

  module _ {A : Type 0} where
    handle_requests :
        (h : Exc → Exec (S) A)
        → ((e : Exc) (s : S) → log (h e s).1 ≡ log s)
        → (o : Outcome A) (s : S) → log (handle o s h).1 ≡ log s
    handle_requests h q (returned a) s = refl
    handle_requests h q (raised e) s = q e s

    handle_complete :
        (done : Outcome A → Bool) (h : Exc → Exec (S) A) (unsent : List Q)
        → ((e : Exc) (s : S) → is_returned (h e s).0 ≡ true → done (raised e) ≡ true)
        → ((a : A) → done (returned a) ≡ true)
        → (o : Outcome A) (s : S) → (done o ≡ true → unsent ≡ [])
        → is_returned (handle o s h).0 ≡ true
        → unsent ≡ []
    handle_complete done h unsent k l (returned a) s c r = c (l a)
    handle_complete done h unsent k l (raised e) s c r = c (k e s r)

    -- A handler that sends nothing, and returns only for errors behind which all was sent.
    pub Sends-try_except :
        (done : Outcome A → Bool) {p : List Q} (m : Exec (S) A) (h : Exc → Exec (S) A)
        → Sends done p m
        → ((e : Exc) (s : S) → log (h e s).1 ≡ log s)
        → ((e : Exc) (s : S) → is_returned (h e s).0 ≡ true → done (raised e) ≡ true)
        → ((a : A) → done (returned a) ≡ true)
        → Sends is_returned p (try_except m h)
    unfolding try_except
    Sends-try_except done m h k quiet returns ok = record {
      sent = k.sent;
      unsent = k.unsent;
      requests = λ s. handle_requests h quiet (m s).0 (m s).1 ∙ k.requests s;
      split = k.split;
      complete = λ s. handle_complete done h (k.unsent s) returns ok (m s).0 (m s).1 (k.complete s);
    }

    pub Sends-cast :
        {done : Outcome A → Bool} {m : Exec (S) A} {p q : List Q}
        → p ≡ q
        → Sends done p m
        → Sends done q m
    Sends-cast {done} {m} e k = subst (λ x. Sends done x m) e k

    -- What is sent in any case is sent where `done` holds.
    pub Sends-always :
        (done : Outcome A → Bool) {p : List Q} {m : Exec (S) A}
        → Sends (λ _. true) p m
        → Sends done p m
    Sends-always done k = record {
      sent = k.sent;
      unsent = k.unsent;
      requests = k.requests;
      split = k.split;
      complete = λ s _. k.complete s refl;
    }

    -- A weaker claim of completeness.
    pub Sends-weaken :
        {done less : Outcome A → Bool} {p : List Q} {m : Exec (S) A}
        → ((o : Outcome A) → less o ≡ true → done o ≡ true)
        → Sends done p m
        → Sends less p m
    Sends-weaken {m} h k = record {
      sent = k.sent;
      unsent = k.unsent;
      requests = k.requests;
      split = k.split;
      complete = λ s d. k.complete s (h (m s).0 d);
    }

    -- Any handler that sends nothing.
    pub Sends-try_always :
        {p : List Q} (m : Exec (S) A) (h : Exc → Exec (S) A)
        → Sends (λ _. true) p m
        → ((e : Exc) (s : S) → log (h e s).1 ≡ log s)
        → Sends (λ _. true) p (try_except m h)
    unfolding try_except
    Sends-try_always m h k quiet = record {
      sent = k.sent;
      unsent = k.unsent;
      requests = λ s. handle_requests h quiet (m s).0 (m s).1 ∙ k.requests s;
      split = k.split;
      complete = λ s _. k.complete s refl;
    }

  module _ {A B : Type 0} where
    and_then_requests :
        (f : A → Exec (S) B)
        → ((a : A) (s : S) → log (f a s).1 ≡ log s)
        → (o : Outcome A) (s : S) → log (and_then o s f).1 ≡ log s
    and_then_requests f q (returned a) s = q a s
    and_then_requests f q (raised e) s = refl

    -- A rest that sends nothing.
    pub Sends-then_quiet :
        {p : List Q} (m : Exec (S) A) (f : A → Exec (S) B)
        → Sends (λ _. true) p m
        → ((a : A) (s : S) → log (f a s).1 ≡ log s)
        → Sends (λ _. true) p (m >>= f)
    unfolding ◌>>=◌
    Sends-then_quiet m f k quiet = record {
      sent = k.sent;
      unsent = k.unsent;
      requests = λ s. and_then_requests f quiet (m s).0 (m s).1 ∙ k.requests s;
      split = k.split;
      complete = λ s _. k.complete s refl;
    }

  module _ {A B : Type 0} where
    Sends-and_then_after :
        (done : Outcome B → Bool) (p : List Q) (f : A → Exec (S) B)
        → ((a : A) → Sends done p (f a))
        → (o : Outcome A) (s t : S) → log t ≡ log s
        → ((e : Exc) → o ≡ raised e → done (raised e) ≡ false)
        → (sent : List Q) × (unsent : List Q) × (log (and_then o t f).1 ≡ log s ++ sent)
          × (p ≡ sent ++ unsent)
          × (done (and_then o t f).0 ≡ true → unsent ≡ [])
    Sends-and_then_after done p f k (returned a) s t q h = (
      (k a).sent t,
      (k a).unsent t,
      (k a).requests t ∙ rw q refl,
      (k a).split t,
      (k a).complete t,
    )
    Sends-and_then_after done p f k (raised e) s t q h =
        ([], p, q ∙ sym (append-nil (log s)), refl, λ d. cc (h e refl))

    -- Behind a statement that sends nothing, and whose errors leave `done` open.
    pub Sends-after :
        (done : Outcome B → Bool) {p : List Q} (m : Exec (S) A) (f : A → Exec (S) B)
        → ((s : S) → log (m s).1 ≡ log s)
        → ((s : S) (e : Exc) → (m s).0 ≡ raised e → done (raised e) ≡ false)
        → ((a : A) → Sends done p (f a))
        → Sends done p (m >>= f)
    unfolding ◌>>=◌
    Sends-after done {p} m f quiet fails k = record {
      sent = λ s. (run s).0;
      unsent = λ s. (run s).1;
      requests = λ s. (run s).2;
      split = λ s. (run s).3;
      complete = λ s. (run s).4;
    }
      where
        run :
            (s : S)
            → (sent : List Q) × (unsent : List Q) × (log (and_then (m s).0 (m s).1 f).1
                ≡ log s ++ sent)
              × (p ≡ sent ++ unsent)
              × (done (and_then (m s).0 (m s).1 f).0 ≡ true → unsent ≡ [])
        run s = Sends-and_then_after done p f k (m s).0 s (m s).1 (quiet s) (fails s)

  module _ {A B : Type 0} where
    -- Behind an expression that may raise.
    pub Sends-lift :
        {p : List Q} (o : Outcome A) (f : A → Exec S B)
        → ((a : A) → o ≡ returned a → Sends is_returned p (f a))
        → Sends is_returned p (lift o >>= f)
    unfolding ◌>>=◌
    Sends-lift (returned a) f k = record {
      sent = (k a refl).sent;
      unsent = (k a refl).unsent;
      requests = (k a refl).requests;
      split = (k a refl).split;
      complete = (k a refl).complete;
    }
    Sends-lift {p} (raised e) f k = record {
      sent = λ s. [];
      unsent = λ s. p;
      requests = λ s. sym (append-nil (log s));
      split = λ s. refl;
      complete = λ s h. cc;
    }

    -- The same, where the plan is made of what the expression gives.
    pub Sends-planned :
        (o : Outcome A) (p : A → List Q) (f : A → Exec S B)
        → ((a : A) → Sends is_returned (p a) (f a))
        → Sends is_returned (planned o p) (lift o >>= f)
    Sends-planned o p f k = Sends-lift o f (λ a h. Sends-cast (planned-returned o p a h) (k a))

  module _ {A : Type 0} where
    -- A statement that always adds the same.
    pub Sends-sent :
        (done : Outcome A → Bool) (p : List Q) (m : Exec S A)
        → ((s : S) → log (m s).1 ≡ log s ++ p)
        → Sends done p m
    Sends-sent done p m h = record {
      sent = λ s. p;
      unsent = λ s. [];
      requests = h;
      split = λ s. sym (append-nil p);
      complete = λ s _. refl;
    }
