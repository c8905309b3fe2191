-- ===== src/Process/Rules.antt =====
-- Rules for scripts that keep a property of the record of what they asked.
use traust_contracts.Base.{
  Text, Bool, true, false, List, [], ◌∷◌, Result, Error, ok, err, process_error, os_error,
  if◌then◌else◌,
}
use traust_contracts.Process.Defs.{
  Reply, Machine, Action, pure, raise, require, lift, continue, ◌>>=◌, issue, checked, run, access,
  succeeds, succeeded, for_each, filter,
}

-- What holds of the record while a script runs, and what is left of it where the script raises.
pub record Policy (C : Type 0) : Type 1 where
  pub Fine : List (C × Reply) → Type 0
  pub Over : List (C × Reply) → Type 0
  pub over : (log : List (C × Reply)) → Fine log → Over log

module _ {C S : Type 0} where
  abbrev pub Post :
      {A : Type 0} → Policy C → (A → List (C × Reply) → Type 0) → Result A → Machine C S → Type 0
  Post policy Q (ok a) w = Q a w.log
  Post policy Q (err e) w = policy.Over w.log

  -- From a fine record a script that returns establishes `Q`, and one that raises has stopped.
  pub record Steps {A : Type 0} (policy : Policy C) (Q : A → List (C × Reply) → Type 0)
      (m : Action C S A) : Type 0 where
    pub runs : (w : Machine C S) → policy.Fine w.log → Post policy Q (m w).0 (m w).1

  abbrev pub Keeps : {A : Type 0} → Policy C → Action C S A → Type 0
  Keeps policy m = Steps policy (λ a log. policy.Fine log) m

  pub carry :
      (policy : Policy C) {A B : Type 0} (Q : A → List (C × Reply) → Type 0)
      (R : B → List (C × Reply) → Type 0) (r : Result A) (f : A → Action C S B) (w : Machine C S)
      → Post policy Q r w
      → ((a : A) (u : Machine C S) → Q a u.log → Post policy R (f a u).0 (f a u).1)
      → Post policy R (continue r f w).0 (continue r f w).1
  unfolding continue
  carry policy Q R (ok a) f w p next = next a w p
  carry policy Q R (err e) f w p next = p

  lifted :
      {A : Type 0} (policy : Policy C) (r : Result A) (w : Machine C S)
      → policy.Fine w.log
      → Post policy (λ a log. policy.Fine log) r w
  lifted policy (ok a) w c = c
  lifted policy (err e) w c = policy.over w.log c

module _ {C S : Type 0} {policy : Policy C} where
  module _ {A : Type 0} where
    pub Keeps-pure : (a : A) → Keeps {S = S} policy (pure a)
    unfolding pure
    Keeps-pure a = record { runs = λ w c. c }

    pub Keeps-raise : (e : Error) → Keeps {S = S} policy (raise {A = A} e)
    unfolding raise
    Keeps-raise e = record { runs = λ w c. policy.over w.log c }

    pub Keeps-lift : (r : Result A) → Keeps {S = S} policy (lift r)
    unfolding lift
    Keeps-lift r = record { runs = λ w c. lifted policy r w c }

    pub Keeps-if :
        (b : Bool) (m n : Action C S A)
        → Keeps {S = S} policy m
        → Keeps {S = S} policy n
        → Keeps {S = S} policy (if b then m else n)
    Keeps-if true m n km kn = km
    Keeps-if false m n km kn = kn

  module _ {A B : Type 0} where
    pub Steps-bind :
        (Q : A → List (C × Reply) → Type 0) (R : B → List (C × Reply) → Type 0) (m : Action C S A)
        (f : A → Action C S B)
        → Steps policy Q m
        → ((a : A) (w : Machine C S) → Q a w.log → Post policy R (f a w).0 (f a w).1)
        → Steps policy R (m >>= f)
    unfolding ◌>>=◌
    Steps-bind Q R m f km kf = record {
      runs = λ w c. carry policy Q R (m w).0 f (m w).1 (km.runs w c) kf;
    }

    pub Keeps-bind :
        (m : Action C S A) (f : A → Action C S B)
        → Keeps {S = S} policy m
        → ((a : A) → Keeps {S = S} policy (f a))
        → Keeps {S = S} policy (m >>= f)
    Keeps-bind m f km kf =
        Steps-bind (λ a log. policy.Fine log) (λ b log. policy.Fine log) m f km
          (λ a w c. (kf a).runs w c)

  pub Keeps-require : (b : Bool) (e : Error) → Keeps {S = S} policy (require b e)
  unfolding require
  Keeps-require true e = record { runs = λ w c. c }
  Keeps-require false e = record { runs = λ w c. policy.over w.log c }

  module _ (c : C)
      (plain : (reply : Reply) (log : List (C × Reply))
        → policy.Fine log
        → policy.Fine ((c, reply) ∷ log)) where
    pub Keeps-issue : Keeps {S = S} policy (issue c)
    unfolding issue
    Keeps-issue = record { runs = λ w k. plain (w.host w.log c) w.log k }

    pub Keeps-run : Keeps {S = S} policy (run c)
    unfolding run
    Keeps-run =
        Keeps-bind (issue c) (λ reply. lift (checked process_error reply)) Keeps-issue
          (λ reply. Keeps-lift (checked process_error reply))

    pub Keeps-access : Keeps {S = S} policy (access c)
    unfolding access
    Keeps-access =
        Keeps-bind (issue c) (λ reply. lift (checked os_error reply)) Keeps-issue
          (λ reply. Keeps-lift (checked os_error reply))

    pub Keeps-succeeds : Keeps {S = S} policy (succeeds c)
    unfolding succeeds
    Keeps-succeeds =
        Keeps-bind (issue c) (λ reply. pure (succeeded reply)) Keeps-issue
          (λ reply. Keeps-pure (succeeded reply))

  pub Keeps-for_each :
      {A : Type 0} (xs : List A) (body : A → Action C S (Unit {0}))
      → ((x : A) → Keeps {S = S} policy (body x))
      → Keeps {S = S} policy (for_each xs body)
  unfolding for_each
  Keeps-for_each [] body k = record { runs = λ w c. c }
  Keeps-for_each (x ∷ xs) body k = record {
    runs =
        (Keeps-bind (body x) (λ done. for_each xs body) (k x)
          (λ done. Keeps-for_each xs body k)).runs;
  }

  pub Keeps-filter :
      (xs : List Text) (body : Text → Action C S Bool)
      → ((x : Text) → Keeps {S = S} policy (body x))
      → Keeps {S = S} policy (filter xs body)
  unfolding filter
  Keeps-filter [] body k = record { runs = λ w c. c }
  Keeps-filter (x ∷ xs) body k = record {
    runs =
        (Keeps-bind (body x)
          (λ kept. filter xs body >>= λ rest. pure (if kept then x ∷ rest else rest)) (k x)
          (λ kept.
            Keeps-bind (filter xs body) (λ rest. pure (if kept then x ∷ rest else rest))
              (Keeps-filter xs body k)
              (λ rest. Keeps-pure (if kept then x ∷ rest else rest)))).runs;
  }
