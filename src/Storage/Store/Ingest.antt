-- ===== src/Storage/Store/Ingest.antt =====
-- `ingest` of v1/storage/store.py: all of it or nothing, and what a success leaves.
use traust_contracts.Base.{
  ◌≡◌, refl, sym, subst, Text, false, List, Option, none, some, Result, Error, ok, err, ℕ,
  Bool-cases, inl, inr, Result-cases,
}
use traust_contracts.Py.{Json}
use traust_contracts.Storage.Identity.{Binding, binding_id}
use traust_contracts.Storage.Db.{Db, BindingRow}
use traust_contracts.Storage.Exec.{Conn, lift, ◌>>=◌, statement, labelled, relabel}
use traust_contracts.Storage.Exec.Triples.{Triple}
use traust_contracts.Storage.Exec.Keeps.{Keeps, keeps_rules, Keeps-statement}
use traust_contracts.Storage.Exec.Atomic.{
  Outcome, begin-Outcome, idle-ready, idle-busy, continue-Outcome,
}
use traust_contracts.Storage.Project.{project}
use traust_contracts.Storage.Project.Frame.{Admits, project-Keeps}
use traust_contracts.Storage.Store.Defs.{
  Env, IngestResult, require_predecessor, register_locations, bind_again, bind_new, choose_branch,
  ingest_body, validated, validation_label, artifact_label, ingest_transaction, ingest,
}
use traust_contracts.Storage.Store.Valid.{IsValid}
use traust_contracts.Storage.Store.Body.{Bound, Stored, Triple-ingest_body}

-- What a caller may rely on after `ingest` has returned.
pub record Ingested (env : Env) (artifact : Text) (payload : List ℕ) (b : Binding)
    (res : IngestResult) (db : Db) : Type 0 where
  pub digest : res.digest ≡ env.sha256 payload
  pub identity : binding_id env.sha256 res.digest artifact b ≡ ok res.binding_id
  pub bound : Bound env.sha256 artifact res.digest res.binding_id b db

Keeps-anything : (run : Db → Result Db) → Keeps (λ _. Unit {0}) (statement run)
Keeps-anything run = Keeps-statement run (λ _ _ _ _. tt)

Admits-anything : (digest bid : Text) → Admits (λ _. Unit {0}) digest bid
Admits-anything digest bid = record { add = λ _ _ _ _ _ _ _. tt }

project-Quiet :
    (show : Json → Text) (artifact : Text) (d : Json) (digest bid : Text)
    → Keeps (λ _. Unit {0}) (project show artifact d digest bid)
project-Quiet show artifact d digest bid =
    project-Keeps digest bid (Admits-anything digest bid) show artifact d

ruleset anything = (keeps_rules, Keeps-anything, project-Quiet)

require-Keeps :
    (artifact bid : Text) (b : Binding) (o : Option Text)
    → Keeps (λ _. Unit {0}) (require_predecessor artifact bid b o)
unfolding require_predecessor
require-Keeps artifact bid b none = search anything depth 3
require-Keeps artifact bid b (some p) = search anything depth 8

choose-Keeps :
    (show : Json → Text) (artifact : Text) (payload : List ℕ) (document : Json) (digest bid : Text)
    (b : Binding) (locations : List Text) (existing : Option BindingRow)
    → Keeps
        (λ _. Unit {0})
        (choose_branch show artifact payload document digest bid b locations existing)
unfolding choose_branch bind_new bind_again register_locations
choose-Keeps show artifact payload document digest bid b locations none =
    search (anything, require-Keeps) depth 20
choose-Keeps show artifact payload document digest bid b locations (some row) =
    search anything depth 12

-- The steps of the transaction leave the committed database and the transaction's state alone.
pub body-Keeps :
    (show : Json → Text) (artifact : Text) (payload : List ℕ) (document : Json) (digest bid : Text)
    (b : Binding) (locations : List Text)
    → Keeps (λ _. Unit {0}) (ingest_body show artifact payload document digest bid b locations)
unfolding ingest_body
body-Keeps show artifact payload document digest bid b locations =
    search (keeps_rules, choose-Keeps) depth 8

module _ (env : Env) (artifact : Text) (payload : List ℕ) (b : Binding) (refs : List Text) where
  Stored-Ingested :
      (bid : Text) (res : IngestResult)
      → binding_id env.sha256 (env.sha256 payload) artifact b ≡ ok bid
      → {db : Db} → Stored env.sha256 artifact (env.sha256 payload) bid b res db
      → Ingested env artifact payload b res db
  Stored-Ingested bid res identity {db} s = record {
    digest = s.result_digest;
    identity =
        subst (λ d. binding_id env.sha256 d artifact b ≡ ok res.binding_id) (sym s.result_digest)
          (subst (λ i. binding_id env.sha256 (env.sha256 payload) artifact b ≡ ok i)
            (sym s.result_binding) identity);
    bound =
        subst (λ d. Bound env.sha256 artifact d res.binding_id b db) (sym s.result_digest)
          (subst (λ i. Bound env.sha256 artifact (env.sha256 payload) i b db) (sym s.result_binding)
            s.bound);
  }

  ingest-Outcome :
      {P : Db → Type 0} {Q : IngestResult → Db → Type 0}
      → ((document : Json) (bid : Text) (locations : List Text)
          → binding_id env.sha256 (env.sha256 payload) artifact b ≡ ok bid
          → Triple P
              (ingest_body env.show artifact payload document (env.sha256 payload) bid b locations)
              Q)
      → (c : Conn) → P c.committed
      → Outcome Q c.committed
          (ingest env artifact payload b refs c).0
          (ingest env artifact payload b refs c).1
  unfolding ingest ◌>>=◌ labelled lift
  ingest-Outcome t c p = elim (Bool-cases c.active) [
    | inl busy ↦ rw (idle-busy c busy) (record { done = λ a h. absurd (cc); failed = λ e h. refl })
    | inr ready ↦ rw (idle-ready c ready) (
        continue-Outcome {X = Json × List Text}
          (relabel (validation_label env artifact) (validated env artifact payload b refs))
          (λ x.
            lift (binding_id env.sha256 (env.sha256 payload) artifact b)
            >>= ingest_transaction env artifact payload b x.0 x.1)
          c
          λ x hx.
            continue-Outcome (binding_id env.sha256 (env.sha256 payload) artifact b)
              (ingest_transaction env artifact payload b x.0 x.1) c
              λ bid identity.
                begin-Outcome (artifact_label artifact) c
                  (body-Keeps env.show artifact payload x.0 _ bid b x.1).quiet
                  (t x.0 bid x.1 identity) p)
  ]

  -- When `ingest` raises, whatever the driver did at each statement, the database is as it was.
  pub ingest-atomic :
      (c : Conn) {e : Error}
      → (ingest env artifact payload b refs c).0 ≡ err e
      → (ingest env artifact payload b refs c).1.committed ≡ c.committed
  ingest-atomic c {e} h =
      (ingest-Outcome {P = λ _. Unit {0}} {Q = λ _ _. Unit {0}}
          (λ document bid locations _.
            (body-Keeps env.show artifact payload document (env.sha256 payload) bid b
              locations).kept)
          c tt).failed
        e h

  ingest-stored :
      (c : Conn)
      → IsValid env.sha256 c.committed
      → Outcome
          (Ingested env artifact payload b)
          c.committed
          (ingest env artifact payload b refs c).0
          (ingest env artifact payload b refs c).1
  ingest-stored c valid =
      ingest-Outcome {P = λ db. IsValid env.sha256 db}
        (λ document bid locations identity. record {
          post = λ c' res v h. Stored-Ingested bid res identity (
              (Triple-ingest_body env.sha256 artifact (env.sha256 payload) bid b env.show payload
                  document locations identity).post
                c' res v h);
        })
        c valid

  -- When `ingest` returns on valid tables, the transaction is closed, the result names the hash of
  -- the payload and the binding's identity, and the tables are valid and hold the binding.
  pub ingest-Ingested :
      (c : Conn) (res : IngestResult)
      → IsValid env.sha256 c.committed
      → (ingest env artifact payload b refs c).0 ≡ ok res
      → ((ingest env artifact payload b refs c).1.active ≡ false)
        × Ingested env artifact payload b res (ingest env artifact payload b refs c).1.committed
  ingest-Ingested c res valid h = (ingest-stored c valid).done res h

  -- `ingest` keeps the database valid whether it returns or raises, whatever the driver did at each
  -- statement.
  pub ingest-IsValid :
      (c : Conn)
      → IsValid env.sha256 c.committed
      → IsValid env.sha256 (ingest env artifact payload b refs c).1.committed
  ingest-IsValid c valid =
      let o = ingest-stored c valid in
      elim (Result-cases (ingest env artifact payload b refs c).0) [
        | inl (res, h) ↦ (o.done res h).1.bound.valid
        | inr (e, h) ↦ subst (λ db. IsValid env.sha256 db) (sym (o.failed e h)) valid
      ]
