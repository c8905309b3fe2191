-- ===== src/Tests/Ingest.antt =====
-- `ingest`, `get_binding` and the query_* methods of v1/storage/store.py on one artifact. The hash
-- is a constant of the form of a digest.
use traust_contracts.Base.{
  ℕ, zero, suc, ◌++◌, All, ◌≡◌, refl, Text, String, codes, true, false, List, [], ◌∷◌, some, Error,
  ok, err, driver_error, ingest_error,
}
use traust_contracts.Py.{dumps_texts, Json, obj, end, field, str, nil, cons, arr, Fields}
use traust_contracts.Storage.Identity.{local, binding_id}
use traust_contracts.Storage.Db.{Db, empty, find_binding, BindingRow}
use traust_contracts.Storage.Exec.{Conn, sqlite, postgres}
use traust_contracts.Storage.Exec.Total.{Completed}
use traust_contracts.Storage.Store.{Env, IngestResult, ingest, validated, IsValid, IsValid-empty}
use traust_contracts.Storage.Store.Ingest.{Ingested, ingest-atomic, ingest-Ingested, ingest-IsValid}
use traust_contracts.Storage.Store.Retry.{Retried, ingest-again}
use traust_contracts.Storage.Identity.{
  references as references_of, identity_bytes, required_bytes, optional_bytes, role_bytes,
  identifier_bytes,
}
use traust_contracts.Storage.Identity.Utf8.{utf8_char}
use traust_contracts.Storage.Db.{
  insert_evidence, has_evidence, insert_binding, violates, has_successor, is_root, insert_location,
  has_location, insert_row, registered,
}
use traust_contracts.Storage.Exec.{
  ◌>>=◌, idle, labelled, lift, begin, committing, on_postgres, query, continue, statement, pure,
  now, for_each, commit, settle, attempt,
}
use traust_contracts.Storage.Values.{bind, boolean_value}
use traust_contracts.Storage.Project.{project, project_subjects}
use traust_contracts.Storage.Project.Columns.{upsert, sequence, col, req, opt, flag}
use traust_contracts.Storage.Store.{
  validate_binding, check_identifiers, field_of, check_role, check_required, ingest_body,
  choose_branch, bind_new, require_predecessor, register_locations,
}
use traust_contracts.Base.{text_eq, is, elem, option_text_eq}
use traust_contracts.Py.{each, section, item, get, lookup}
use traust_contracts.Storage.Exec.{rollback}
use traust_contracts.Storage.Store.Reads.{
  is_digest, get_binding, query_view, open_findings, view_name, no_scope,
}
use traust_contracts.Storage.Store.ReadOnly.{IsScope, query_view-scoped}
use traust_contracts.Storage.Store.Found.{Found, get_binding-Found}
use traust_contracts.Storage.Store.RoundTrip.{Recorded, get_binding-ingest}
use traust_contracts.Storage.Project.Appends.{Appended, project-Appended}

abbrev digits : ℕ → Text
digits zero = []
digits (suc n) = 48 ∷ digits n

-- A corpus registry of one subject.
abbrev subject : Fields
unfolding codes
subject = field (codes "subject_id") (str (codes "s")) (
    field (codes "tree") (str (codes "t")) (
      field (codes "ownership") (str (codes "owned"))
        (field (codes "business_unit") (str (codes "u")) end)))

abbrev registry_document : Json
unfolding codes
registry_document = obj (field (codes "subjects") (arr (cons (obj subject) nil)) end)

abbrev artifact : Text
unfolding codes
artifact = codes "corpus-registry"

abbrev env : Env
env = record {
  sha256 = λ bytes. digits 64;
  validator = λ name. some (λ payload. ok registry_document);
  profile = λ name. record { required = []; roles = [] };
  show = λ v. [];
}

abbrev payload : List ℕ
payload = 123 ∷ 125 ∷ []

abbrev fresh : Conn
fresh = record {
  dialect = postgres;
  committed = empty;
  work = empty;
  active = false;
  faults = [];
  clock = 5;
}

abbrev given_references : List Text
unfolding codes
given_references = codes "a" ∷ []

abbrev result : IngestResult
result = record { digest = digits 64; binding_id = digits 64; already_bound = false }

ingested : (ingest env artifact payload local given_references fresh).0 ≡ ok result
unfolding ingest validated ◌>>=◌ idle labelled lift validate_binding identifier_bytes utf8_char
    check_identifiers field_of check_role check_required references_of binding_id identity_bytes
    required_bytes optional_bytes role_bytes begin committing ingest_body on_postgres query continue
    statement choose_branch bind_new require_predecessor pure now insert_evidence has_evidence
    insert_binding violates find_binding has_successor is_root register_locations for_each
    insert_location has_location project project_subjects upsert insert_row sequence col req opt
    flag codes text_eq is elem each section item get lookup bind boolean_value commit settle attempt
    registered option_text_eq
ingested = refl

ingest-Ingested_example :
    ((ingest env artifact payload local given_references fresh).1.active ≡ false)
    × Ingested env artifact payload local result
        (ingest env artifact payload local given_references fresh).1.committed
ingest-Ingested_example =
    ingest-Ingested env artifact payload local given_references fresh result
      (IsValid-empty env.sha256) ingested

ingest-IsValid_example :
    IsValid env.sha256 (ingest env artifact payload local given_references fresh).1.committed
ingest-IsValid_example =
    ingest-IsValid env artifact payload local given_references fresh (IsValid-empty env.sha256)

abbrev after : Conn
after = (ingest env artifact payload local given_references fresh).1

in_tables : Ingested env artifact payload local result after.committed
in_tables =
    (ingest-Ingested env artifact payload local given_references fresh result
      (IsValid-empty env.sha256) ingested).1

after_idle : after.active ≡ false
after_idle =
    (ingest-Ingested env artifact payload local given_references fresh result
      (IsValid-empty env.sha256) ingested).0

after_faultless : after.faults ≡ []
unfolding ingest validated ◌>>=◌ idle labelled lift validate_binding identifier_bytes utf8_char
    check_identifiers field_of check_role check_required references_of binding_id identity_bytes
    required_bytes optional_bytes role_bytes begin committing ingest_body on_postgres query continue
    statement choose_branch bind_new require_predecessor pure now insert_evidence has_evidence
    insert_binding violates find_binding has_successor is_root register_locations for_each
    insert_location has_location project project_subjects upsert insert_row sequence col req opt
    flag codes text_eq is elem each section item get lookup bind boolean_value commit settle attempt
    registered option_text_eq
after_faultless = refl

validated_again :
    validated env artifact payload local given_references ≡ ok (registry_document, given_references)
unfolding validated validate_binding identifier_bytes utf8_char check_identifiers field_of
    check_role check_required references_of codes text_eq
validated_again = refl

identity_again : binding_id env.sha256 (env.sha256 payload) artifact local ≡ ok (digits 64)
unfolding binding_id identity_bytes required_bytes optional_bytes role_bytes identifier_bytes
    utf8_char codes
identity_again = refl

ingest-again_example :
    Completed
      (Retried after.committed (digits 64) (digits 64))
      (ingest env artifact payload local given_references after).0
      (ingest env artifact payload local given_references after).1
ingest-again_example =
    ingest-again env artifact payload local given_references after registry_document
      given_references (digits 64) after_idle after_faultless validated_again identity_again
      in_tables.bound

-- The third statement of the transaction raises.
abbrev failing : Conn
failing = record fresh { dialect = sqlite; faults = false ∷ false ∷ true ∷ [] }

abbrev failure : Error
unfolding codes
failure = ingest_error (codes "artifact corpus-registry") driver_error

failed_ingest : (ingest env artifact payload local given_references failing).0 ≡ err failure
unfolding ingest validated ◌>>=◌ idle labelled lift validate_binding identifier_bytes utf8_char
    check_identifiers field_of check_role check_required references_of binding_id identity_bytes
    required_bytes optional_bytes role_bytes begin committing ingest_body on_postgres query continue
    statement choose_branch bind_new require_predecessor pure now insert_evidence has_evidence
    insert_binding violates find_binding has_successor is_root register_locations for_each
    insert_location has_location project project_subjects upsert insert_row sequence col req opt
    flag codes text_eq is elem each section item get lookup bind boolean_value commit settle attempt
    registered option_text_eq rollback
failed_ingest = refl

ingest-atomic_example :
    (ingest env artifact payload local given_references failing).1.committed ≡ empty
ingest-atomic_example =
    ingest-atomic env artifact payload local given_references failing failed_ingest

is_digest_zeros : is_digest (digits 64) ≡ true
unfolding is_digest
is_digest_zeros = refl

get_binding-Found_example :
    Completed
      (λ got db. (after.committed ≡ db) × Found after.committed (digits 64) in_tables.bound.row got)
      (get_binding (digits 64) after).0
      (get_binding (digits 64) after).1
get_binding-Found_example =
    get_binding-Found env.sha256 (digits 64) in_tables.bound.row after in_tables.bound.valid
      after_idle after_faultless is_digest_zeros in_tables.bound.found

get_binding-ingest_example :
    Completed
      (λ got db. Recorded env artifact payload local result got)
      (get_binding (digits 64) after).0
      (get_binding (digits 64) after).1
get_binding-ingest_example =
    get_binding-ingest env artifact payload local given_references fresh result
      (IsValid-empty env.sha256) ingested after_faultless is_digest_zeros

-- A view that lists the bindings.
abbrev read_bindings : String → Text → Db → List BindingRow
read_bindings view scopes db = db.bindings

query_view-scoped_example :
    (query_view read_bindings open_findings [] after ≡ (err no_scope, after))
    × ((front : List Text) (s : Text) (rest : List Text) (e : Error)
        → All IsScope front
        → identifier_bytes "scope_id" s ≡ err e
        → query_view read_bindings open_findings (front ++ s ∷ rest) after ≡ (err e, after))
    × ((s : Text) (ss : List Text)
        → All IsScope (s ∷ ss)
        → after.faults ≡ []
        → Completed
            (λ rows db.
              (after.committed ≡ db)
              × (rows
                  ≡ read_bindings (view_name open_findings) (dumps_texts (s ∷ ss)) after.committed))
            (query_view read_bindings open_findings (s ∷ ss) after).0
            (query_view read_bindings open_findings (s ∷ ss) after).1)
query_view-scoped_example = query_view-scoped read_bindings open_findings after after_idle

-- The scope "a" is taken, so the view is read.
IsScope-a : IsScope (codes "a")
unfolding codes identifier_bytes utf8_char
IsScope-a = (_, refl)

reads_one_scope :
    Completed
      (λ rows db. (after.committed ≡ db) × (rows ≡ after.committed.bindings))
      (query_view read_bindings open_findings (codes "a" ∷ []) after).0
      (query_view read_bindings open_findings (codes "a" ∷ []) after).1
reads_one_scope = query_view-scoped_example.2 (codes "a") [] (IsScope-a, tt) after_faultless

projected : (project env.show artifact registry_document (digits 64) (digits 64) after).0 ≡ ok tt
unfolding ingest validated ◌>>=◌ idle labelled lift validate_binding identifier_bytes utf8_char
    check_identifiers field_of check_role check_required references_of binding_id identity_bytes
    required_bytes optional_bytes role_bytes begin committing ingest_body on_postgres query continue
    statement choose_branch bind_new require_predecessor pure now insert_evidence has_evidence
    insert_binding violates find_binding has_successor is_root register_locations for_each
    insert_location has_location project project_subjects upsert insert_row sequence col req opt
    flag codes text_eq is elem each section item get lookup bind boolean_value commit settle attempt
    registered option_text_eq
projected = refl

project-Appended_example :
    Appended
      (digits 64)
      (digits 64)
      after.work
      (project env.show artifact registry_document (digits 64) (digits 64) after).1.work
project-Appended_example =
    project-Appended env.show artifact registry_document (digits 64) (digits 64) after projected
