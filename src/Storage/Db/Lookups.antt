-- ===== src/Storage/Db/Lookups.antt =====
-- What the lookups of store.py's statements return once a row has been added.
use traust_contracts.Base.{
  ◌≡◌, refl, Text, text_eq, text_eq_sound, text_eq_refl, true, List, [], ◌∷◌, ◌++◌, none, some,
  any-append, ◌⊎◌, inl, inr, arith, Bool-cases,
}
use traust_contracts.Storage.Db.Rows.{Evidence, BindingRow}
use traust_contracts.Storage.Db.Statements.{has_evidence, find_binding}

pub find_binding-append :
    (id : Text) (rows : List BindingRow) (r s : BindingRow)
    → find_binding id rows ≡ some s
    → find_binding id (rows ++ r ∷ []) ≡ some s
unfolding find_binding
find_binding-append id [] r s h = cc
find_binding-append id (q ∷ rows) r s h = ground (arith, find_binding-append id rows r s)

pub find_binding-new :
    (rows : List BindingRow) (r : BindingRow)
    → find_binding r.binding_id rows ≡ none
    → find_binding r.binding_id (rows ++ r ∷ []) ≡ some r
unfolding find_binding
find_binding-new [] r h = ground (arith, text_eq_refl r.binding_id)
find_binding-new (q ∷ rows) r h = ground (arith, find_binding-new rows r)

-- A lookup after the addition finds an old row or the new one.
pub find_binding-split :
    (id : Text) (rows : List BindingRow) (r s : BindingRow)
    → find_binding id (rows ++ r ∷ []) ≡ some s
    → (find_binding id rows ≡ some s) ⊎ ((r ≡ s) × (r.binding_id ≡ id))
unfolding find_binding
find_binding-split id [] r s h = elim (Bool-cases (text_eq r.binding_id id)) [
  | inl same ↦ inr (ground arith, text_eq_sound r.binding_id id same)
  | inr other ↦ absurd (ground arith)
]
find_binding-split id (q ∷ rows) r s h = ground (arith, find_binding-split id rows r s)

pub find_binding-id :
    (id : Text) (rows : List BindingRow) (s : BindingRow)
    → find_binding id rows ≡ some s
    → s.binding_id ≡ id
unfolding find_binding
find_binding-id id [] s h = cc
find_binding-id id (q ∷ rows) s h = elim (Bool-cases (text_eq q.binding_id id)) [
  | inl same ↦ ground (arith, text_eq_sound q.binding_id id same)
  | inr other ↦ ground (arith, find_binding-id id rows s)
]

pub has_evidence-append :
    (digest : Text) (es : List Evidence) (e : Evidence)
    → has_evidence digest es ≡ true
    → has_evidence digest (es ++ e ∷ []) ≡ true
unfolding has_evidence
has_evidence-append digest es e h =
    rw (any-append (λ x. text_eq x.digest digest) es (e ∷ []), h) refl

pub has_evidence-new :
    (es : List Evidence) (e : Evidence) → has_evidence e.digest (es ++ e ∷ []) ≡ true
unfolding has_evidence
has_evidence-new [] e = ground (arith, text_eq_refl e.digest)
has_evidence-new (x ∷ es) e = ground (arith, has_evidence-new es e)
