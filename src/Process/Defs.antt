-- ===== src/Process/Defs.antt =====
-- Scripts that ask a machine to run processes and access files, and the record of what they asked.
use traust_contracts.Base.{
  Text, Bool, true, false, List, [], ◌∷◌, Result, Error, ok, err, process_error, os_error,
  if◌then◌else◌,
}

-- A process fails, or prints a text.
pub data Reply : Type 0 where
  failed : Reply
  printed : Text → Reply

abbrev pub succeeded : Reply → Bool
succeeded failed = false
succeeded (printed text) = true

unfoldable pub checked : Error → Reply → Result Text
checked e failed = err e
checked e (printed text) = ok text

-- The host answers a command from the commands before it. `log` has the newest event first; `own` is
-- what no command but the script's own touches.
pub record Machine (C S : Type 0) : Type 0 where
  pub host : List (C × Reply) → C → Reply
  pub log : List (C × Reply)
  pub own : S

abbrev pub Action {ℓ} : Type 0 → Type 0 → Type ℓ → Type ℓ
Action C S A = Machine C S → Result A × Machine C S

module _ {C S : Type 0} where
  infixl 5 ◌>>=◌ ◌>>◌
  unfoldable pub pure {ℓ} : {A : Type ℓ} → A → Action C S A
  pure a w = (ok a, w)

  unfoldable pub raise {ℓ} : {A : Type ℓ} → Error → Action C S A
  raise e w = (err e, w)

  unfoldable pub require : Bool → Error → Action C S (Unit {0})
  require true e w = (ok tt, w)
  require false e w = (err e, w)

  unfoldable pub lift {ℓ} : {A : Type ℓ} → Result A → Action C S A
  lift r w = (r, w)

  unfoldable pub continue {ℓ κ} :
      {A : Type ℓ} {B : Type κ} → Result A → (A → Action C S B) → Action C S B
  continue (ok a) f w = f a w
  continue (err e) f w = (err e, w)

  unfoldable pub ◌>>=◌ {ℓ κ} :
      {A : Type ℓ} {B : Type κ} → Action C S A → (A → Action C S B) → Action C S B
  unfolding continue
  ◌>>=◌ m f w = let (r, w') = m w in continue r f w'

  abbrev pub ◌>>◌ {ℓ κ} : {A : Type ℓ} {B : Type κ} → Action C S A → Action C S B → Action C S B
  m >> n = m >>= λ _. n

  unfoldable pub issue : C → Action C S Reply
  issue c w = let reply = w.host w.log c in (ok reply, record w { log = (c, reply) ∷ w.log })

  -- `subprocess.run(..., check=True)`, with what it printed.
  unfoldable pub run : C → Action C S Text
  unfolding issue checked
  run c = do reply ← issue c; lift (checked process_error reply)

  -- A read or a write of a file.
  unfoldable pub access : C → Action C S Text
  unfolding issue checked
  access c = do reply ← issue c; lift (checked os_error reply)

  -- `returncode == 0`, and a process whose failure is caught.
  unfoldable pub succeeds : C → Action C S Bool
  unfolding issue
  succeeds c = do reply ← issue c; pure (succeeded reply)

  unfoldable pub for_each {ℓ} :
      {A : Type ℓ} → List A → (A → Action C S (Unit {0})) → Action C S (Unit {0})
  for_each [] body w = (ok tt, w)
  for_each (x ∷ xs) body w = (body x >>= λ _. for_each xs body) w

  -- `[x for x in xs if body(x)]`
  unfoldable pub filter : List Text → (Text → Action C S Bool) → Action C S (List Text)
  filter [] body w = (ok [], w)
  filter (x ∷ xs) body w =
      (body x >>= (λ kept. filter xs body >>= λ rest. pure (if kept then x ∷ rest else rest))) w
