-- ===== src/Storage/Store/Defs.antt =====
-- store.py: `_validate_binding`, `ingest` and what it calls. `Env` is what the code takes from
-- elsewhere: the hash, the validators, the storage profiles and Python's `str`.
use traust_contracts.Base.{
  ℕ, ◌≡◌, Text, String, codes, text_eq, option_text_eq, elem, str_eq, Bool, true, false, not, ◌&&◌,
  ◌||◌, List, [], ◌∷◌, ◌++◌, length, Option, none, some, if◌then◌else◌, Result, Error, ok, err,
  message, invalid_document, attribute_error,
}
use traust_contracts.Base
use traust_contracts.Py.{Json}
use traust_contracts.Storage.Identity.{
  Binding, field_error, identifier_bytes, references, binding_id,
}
use traust_contracts.Storage.Db.{
  BindingRow, find_binding, insert_evidence, insert_binding, insert_location, registered, is_some,
}
use traust_contracts.Storage.Exec.{
  on_postgres, Exec, pure, raise, lift, ◌>>=◌, ◌>>◌, now, statement, query, for_each, idle, begin,
  committing, labelled,
}
use traust_contracts.Storage.Project.{project}

-- An entry of storage/v1/profiles.json.
pub record Profile : Type 0 where
  pub required : List String
  pub roles : List Text

pub record Env : Type 0 where
  pub sha256 : List ℕ → Text
  pub validator : Text → Option (List ℕ → Result Json)
  pub profile : Text → Profile
  pub show : Json → Text

pub record IngestResult : Type 0 where
  pub digest : Text
  pub binding_id : Text
  pub already_bound : Bool

-- `getattr(binding, field)` of an optional field.
unfoldable pub field_of : String → Binding → Option Text
field_of name b =
    if str_eq name "subject_id"
    then b.subject_id
    else if str_eq name "run_id"
    then b.run_id
    else if str_eq name "layer_id"
    then b.layer_id
    else if str_eq name "supersedes_binding_id"
    then b.supersedes_binding_id
    else if str_eq name "role"
    then b.role
    else if str_eq name "product_repo_id"
    then b.product_repo_id
    else b.commit_sha

abbrev pub optional_fields : List String
optional_fields =
    "subject_id" ∷ "run_id" ∷ "layer_id" ∷ "supersedes_binding_id" ∷ "role" ∷ "product_repo_id"
    ∷ "commit_sha" ∷ []

check_identifier : String → Option Text → Result (Unit {0})
check_identifier name none = ok tt
check_identifier name (some v) = Base.◌>>=◌ (identifier_bytes name v) λ _. ok tt

unfoldable pub check_identifiers : List String → Binding → Result (Unit {0})
unfolding check_identifier
check_identifiers [] b = ok tt
check_identifiers (f ∷ fs) b =
    Base.◌>>=◌ (check_identifier f (field_of f b)) λ _. check_identifiers fs b

unfoldable pub check_role : List Text → Option Text → Result (Unit {0})
check_role roles none = ok tt
check_role roles (some role) =
    if elem role roles then ok tt else field_error "role" ": not allowed for this artifact"

unfoldable pub check_required : List String → Binding → Result (Unit {0})
check_required [] b = ok tt
check_required (f ∷ fs) b =
    let rest = check_required fs b in
    elim (field_of f b) [ none ↦ field_error f ": required value missing" | some v ↦ rest ]

check_scope : Text → Result (Unit {0})
check_scope [] = field_error "scope_id" ": required value missing"
check_scope (c ∷ cs) = ok tt

-- `_validate_binding`
unfoldable pub validate_binding : Profile → Binding → Result (Unit {0})
unfolding check_scope
validate_binding profile b = Base.◌>>=◌ (check_scope b.scope_id) λ _.
    Base.◌>>=◌ (identifier_bytes "scope_id" b.scope_id) λ _.
      Base.◌>>=◌ (check_identifiers optional_fields b)
        λ _. Base.◌>>=◌ (check_role profile.roles b.role) λ _. check_required profile.required b

abbrev pub run_validator : Option (List ℕ → Result Json) → List ℕ → Result Json
run_validator none payload = err (message (codes "unknown artifact schema"))
run_validator (some load) payload = load payload

-- The document and the references, once everything has been validated.
unfoldable pub validated : Env → Text → List ℕ → Binding → List Text → Result (Json × List Text)
unfolding codes
validated env artifact payload b refs =
    Base.◌>>=◌ (run_validator (env.validator artifact) payload) λ document.
      Base.◌>>=◌ (validate_binding (env.profile artifact) b)
        λ _. Base.◌>>=◌ (references refs) λ locations. ok (document, locations)

-- `record.binding == binding`, field by field.
unfoldable pub same_binding : Binding → Binding → Bool
same_binding a b =
    text_eq a.scope_id b.scope_id
    && option_text_eq a.subject_id b.subject_id
    && option_text_eq a.run_id b.run_id
    && option_text_eq a.layer_id b.layer_id
    && option_text_eq a.supersedes_binding_id b.supersedes_binding_id
    && option_text_eq a.role b.role
    && option_text_eq a.product_repo_id b.product_repo_id
    && option_text_eq a.commit_sha b.commit_sha

-- `_require_same_binding`
unfoldable pub require_same_binding : Text → Text → Binding → BindingRow → Result (Unit {0})
unfolding codes
require_same_binding artifact digest b row =
    if text_eq row.artifact_digest digest
      && text_eq row.artifact_name artifact
      && same_binding row.binding b
    then ok tt
    else err (message (codes "artifact binding identity collision"))

-- The fields that a supersession may not change.
unfoldable pub same_context : Text → Binding → BindingRow → Bool
same_context artifact b row =
    text_eq row.artifact_name artifact
    && text_eq row.binding.scope_id b.scope_id
    && option_text_eq row.binding.subject_id b.subject_id
    && option_text_eq row.binding.run_id b.run_id
    && option_text_eq row.binding.layer_id b.layer_id
    && option_text_eq row.binding.role b.role
    && option_text_eq row.binding.product_repo_id b.product_repo_id

unfoldable pub check_predecessor : Text → Binding → Option BindingRow → Result (Unit {0})
unfolding codes
check_predecessor artifact b none = err (message (codes "superseded artifact binding not found"))
check_predecessor artifact b (some row) =
    if same_context artifact b row
    then ok tt
    else err (message (codes "superseded artifact binding context mismatch"))

-- `_require_predecessor`, where the binding supersedes one.
unfoldable pub require_predecessor : Text → Text → Binding → Option Text → Exec (Unit {0})
unfolding codes check_predecessor
require_predecessor artifact bid b none = pure tt
require_predecessor artifact bid b (some predecessor) =
    if text_eq predecessor bid
    then raise (message (codes "artifact binding cannot supersede itself"))
    else do
      row ← query (λ db. find_binding predecessor db.bindings)
      lift (check_predecessor artifact b row)

-- `_register_locations`
unfoldable pub register_locations : Text → List Text → Exec (Unit {0})
register_locations bid locations = do
  at ← now
  for_each locations λ reference.
      statement
        (insert_location (record { binding_id = bid; reference = reference; registered_at = at }))

-- The advisory lock that PostgreSQL takes on the digest.
abbrev pub take_lock : Exec (Unit {0})
take_lock = on_postgres (query (λ _. tt))

-- The rest of the transaction when the identity is bound already.
unfoldable pub bind_again :
    Text → Text → Text → Binding → List Text → BindingRow → Exec IngestResult
bind_again artifact digest bid b locations row = do
  lift (require_same_binding artifact digest b row)
  register_locations bid locations
  pure (record { digest = digest; binding_id = bid; already_bound = true })

-- The rest of the transaction when it is not.
unfoldable pub bind_new :
    (Json → Text) → Text → List ℕ → Json → Text → Text → Binding → List Text → Exec IngestResult
bind_new show artifact payload document digest bid b locations = do
  require_predecessor artifact bid b b.supersedes_binding_id
  first ← now
  statement (
      insert_evidence
        (record { digest = digest; byte_size = length payload; first_ingested_at = first }))
  bound ← now
  statement λ db.
      insert_binding (registered "product_repo" db.registry)
        (record {
          binding_id = bid;
          artifact_digest = digest;
          artifact_name = artifact;
          binding = b;
          bound_at = bound;
        })
        db
  register_locations bid locations
  project show artifact document digest bid
  pure (record { digest = digest; binding_id = bid; already_bound = false })

unfoldable pub choose_branch :
    (Json → Text)
    → Text
    → List ℕ
    → Json
    → Text
    → Text
    → Binding
    → List Text
    → Option BindingRow
    → Exec IngestResult
choose_branch show artifact payload document digest bid b locations none =
    bind_new show artifact payload document digest bid b locations
choose_branch show artifact payload document digest bid b locations (some row) =
    bind_again artifact digest bid b locations row

-- The transaction of `ingest`, between BEGIN and COMMIT.
unfoldable pub ingest_body :
    (Json → Text) → Text → List ℕ → Json → Text → Text → Binding → List Text → Exec IngestResult
ingest_body show artifact payload document digest bid b locations = do
  take_lock
  existing ← query (λ db. find_binding bid db.bindings)
  choose_branch show artifact payload document digest bid b locations existing

abbrev pub artifact_label : Text → Text
artifact_label artifact = codes "artifact " ++ artifact

abbrev pub validation_label : Env → Text → Text
validation_label env artifact =
    (if is_some (env.validator artifact)
      then artifact_label artifact
      else codes "artifact <unknown>")
    ++ codes ": validation"

-- `ingest` from `_begin` on.
abbrev pub ingest_transaction :
    Env → Text → List ℕ → Binding → Json → List Text → Text → Exec IngestResult
ingest_transaction env artifact payload b document locations bid = do
  begin
  committing (artifact_label artifact)
      (ingest_body env.show artifact payload document (env.sha256 payload) bid b locations)

-- `ingest`, with its binding given.
unfoldable pub ingest : Env → Text → List ℕ → Binding → List Text → Exec IngestResult
unfolding codes
ingest env artifact payload b refs = do
  idle
  (document, locations) ←
      labelled (validation_label env artifact) (lift (validated env artifact payload b refs))
  bid ← lift (binding_id env.sha256 (env.sha256 payload) artifact b)
  ingest_transaction env artifact payload b document locations bid
