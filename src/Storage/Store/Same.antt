-- ===== src/Storage/Store/Same.antt =====
-- `_require_same_binding` compares every field.
use traust_contracts.Base.{
  ◌≡◌, Text, text_eq_iff, option_text_eq_iff, text_eq_refl, option_text_eq_refl, true, ok, arith,
}
use traust_contracts.Storage.Identity.{Binding}
use traust_contracts.Storage.Db.{BindingRow}
use traust_contracts.Storage.Store.Defs.{same_binding, require_same_binding}

pub same_binding_sound : (a b : Binding) → same_binding a b ≡ true → a ≡ b
unfolding same_binding
same_binding_sound a b h =
    let e0 : a.scope_id ≡ b.scope_id = ground (arith, text_eq_iff a.scope_id b.scope_id) in
    let e1 : a.subject_id ≡ b.subject_id =
      ground (arith, option_text_eq_iff a.subject_id b.subject_id) in
    let e2 : a.run_id ≡ b.run_id = ground (arith, option_text_eq_iff a.run_id b.run_id) in
    let e3 : a.layer_id ≡ b.layer_id = ground (arith, option_text_eq_iff a.layer_id b.layer_id) in
    let e4 : a.supersedes_binding_id ≡ b.supersedes_binding_id =
      ground (arith, option_text_eq_iff a.supersedes_binding_id b.supersedes_binding_id) in
    let e5 : a.role ≡ b.role = ground (arith, option_text_eq_iff a.role b.role) in
    let e6 : a.product_repo_id ≡ b.product_repo_id =
      ground (arith, option_text_eq_iff a.product_repo_id b.product_repo_id) in
    let e7 : a.commit_sha ≡ b.commit_sha =
      ground (arith, option_text_eq_iff a.commit_sha b.commit_sha) in
    λ i. record {
      scope_id = e0 i;
      subject_id = e1 i;
      run_id = e2 i;
      layer_id = e3 i;
      supersedes_binding_id = e4 i;
      role = e5 i;
      product_repo_id = e6 i;
      commit_sha = e7 i;
    }

same_binding_complete : (a b : Binding) → a ≡ b → same_binding a b ≡ true
unfolding same_binding
same_binding_complete a b e = rw e (
    ground (
      arith,
      text_eq_refl b.scope_id,
      option_text_eq_refl b.subject_id,
      option_text_eq_refl b.run_id,
      option_text_eq_refl b.layer_id,
      option_text_eq_refl b.supersedes_binding_id,
      option_text_eq_refl b.role,
      option_text_eq_refl b.product_repo_id,
      option_text_eq_refl b.commit_sha,
    ))

pub require_same_binding_sound :
    (artifact digest : Text) (b : Binding) (row : BindingRow) {u : Unit {0}}
    → require_same_binding artifact digest b row ≡ ok u
    → (row.artifact_digest ≡ digest) × (row.artifact_name ≡ artifact) × (row.binding ≡ b)
unfolding require_same_binding
require_same_binding_sound artifact digest b row h = ground (
  arith,
  text_eq_iff row.artifact_digest digest,
  text_eq_iff row.artifact_name artifact,
  same_binding_sound row.binding b,
)

pub require_same_binding_complete :
    (artifact digest : Text) (b : Binding) (row : BindingRow)
    → row.artifact_digest ≡ digest
    → row.artifact_name ≡ artifact
    → row.binding ≡ b
    → require_same_binding artifact digest b row ≡ ok tt
unfolding require_same_binding
require_same_binding_complete artifact digest b row ed en eb = ground (
  arith,
  text_eq_iff row.artifact_digest digest,
  text_eq_iff row.artifact_name artifact,
  same_binding_complete row.binding b eb,
)
