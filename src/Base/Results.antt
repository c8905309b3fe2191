-- ===== src/Base/Results.antt =====
-- Fallible code: the value, or the exception that was raised.
use mathlib.Core.Path.{◌≡◌, refl}
use mathlib.Core.Logic.{◌⊎◌, inl, inr}
use traust_contracts.Base.Texts.{Text}

-- `ingest_error` is IngestError with its message in parts: the context that a handler puts in
-- front, the detail, and the note that a failed ROLLBACK appends. The other constructors are
-- exceptions of Python, of the validators and of the database driver.
pub data Error : Type 0 where
  ingest_error : Text → Error → Error
  with_rollback_failure : Error → Error → Error
  message : Text → Error
  value_error key_error attribute_error type_error invalid_document driver_error : Error
  chain_error release_error git_error stop_iteration : Error
  process_error os_error : Error

pub data Result {i} (Value : Type i) : Type i where
  err : Error → Result Value
  ok : Value → Result Value

infixl 5 ◌>>=◌ ◌>>◌
-- What follows a call that returned.
abbrev pub ◌>>=◌ {i j} : {V : Type i} {W : Type j} → Result V → (V → Result W) → Result W
err raised >>= next = err raised
ok value >>= next = next value

abbrev pub ◌>>◌ {i j} : {V : Type i} {W : Type j} → Result V → Result W → Result W
first >> second = first >>= λ ignored. second

pub Result-cases {i} :
    {V : Type i} (r : Result V) → ((v : V) × (r ≡ ok v)) ⊎ ((e : Error) × (r ≡ err e))
Result-cases (err raised) = inr (raised, refl)
Result-cases (ok value) = inl (value, refl)

-- A sequence that returned had a first part that returned.
pub >>=-ok {i j} :
    {V : Type i} {W : Type j} (first : Result V) (next : V → Result W) {final : W}
    → first >>= next ≡ ok final
    → (value : V) × (first ≡ ok value) × (next value ≡ ok final)
>>=-ok (err raised) next done = absurd (cc)
>>=-ok (ok value) next done = (value, refl, done)
