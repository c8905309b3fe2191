-- ===== src/Storage/Store/RoundTrip.antt =====
-- `get_binding` after `ingest`, in v1/storage/store.py.
use traust_contracts.Base.{ℕ, ◌≡◌, ◌∙◌, ap, Text, true, List, [], ok}
use traust_contracts.Storage.Identity.{Binding}
use traust_contracts.Storage.Db.Lookups.{find_binding-id}
use traust_contracts.Storage.Exec.{Conn}
use traust_contracts.Storage.Exec.Total.{Completed}
use traust_contracts.Storage.Store.Defs.{Env, IngestResult, ingest}
use traust_contracts.Storage.Store.Reads.{BindingRecord, is_digest, get_binding, binding_record}
use traust_contracts.Storage.Store.ReadOnly.{get_binding-row}
use traust_contracts.Storage.Store.Ingest.{ingest-Ingested}
use traust_contracts.Storage.Store.Valid.{IsValid}

-- The record says what was ingested.
pub record Recorded (env : Env) (artifact : Text) (payload : List ℕ) (b : Binding)
    (res : IngestResult) (got : BindingRecord) : Type 0 where
  pub id : got.binding_id ≡ res.binding_id
  pub digest : got.artifact_digest ≡ env.sha256 payload
  pub name : got.artifact_name ≡ artifact
  pub context : got.binding ≡ b

-- After an `ingest` that returned on valid tables, `get_binding` of the result's binding_id, when the
-- driver raises at no statement and the id has the form of a digest, returns the artifact's name,
-- the payload's hash and the binding that was given.
pub get_binding-ingest :
    (env : Env) (artifact : Text) (payload : List ℕ) (b : Binding) (refs : List Text) (c : Conn)
    (res : IngestResult)
    → IsValid env.sha256 c.committed
    → (ingest env artifact payload b refs c).0 ≡ ok res
    → (ingest env artifact payload b refs c).1.faults ≡ []
    → is_digest res.binding_id ≡ true
    → Completed
        (λ got db. Recorded env artifact payload b res got)
        (get_binding res.binding_id (ingest env artifact payload b refs c).1).0
        (get_binding res.binding_id (ingest env artifact payload b refs c).1).1
unfolding binding_record
get_binding-ingest env artifact payload b refs c res valid done calm digest =
    let (closed, in_) = ingest-Ingested env artifact payload b refs c res valid done in
    let held = in_.bound in
    let r = get_binding-row res.binding_id held.row _ closed calm digest held.found in
    record {
      value = r.value;
      returned = r.returned;
      closed = r.closed;
      faultless = r.faultless;
      post = record {
        id = ap (λ g. g.binding_id) r.post.1 ∙ find_binding-id res.binding_id _ held.row held.found;
        digest = ap (λ g. g.artifact_digest) r.post.1 ∙ held.digest_bound ∙ in_.digest;
        name = ap (λ g. g.artifact_name) r.post.1 ∙ held.name_bound;
        context = ap (λ g. g.binding) r.post.1 ∙ held.context_bound;
      };
    }
