-- ===== src/Storage/Project/Appends.antt =====
-- `_project` of store.py appends projection rows of its own binding, and writes nothing else.
use traust_contracts.Base.{
  ◌≡◌, sym, ◌∙◌, ap, subst, Text, List, [], ◌∷◌, ◌++◌, Option-cases, ok, All, All-append, arith,
  ◌⊎◌, inl, inr,
}
use mathlib.Core.List.{append-nil, append_assoc}
use traust_contracts.Py.{Json}
use traust_contracts.Storage.Db.{Db, Row, insert_row, find_binding}
use traust_contracts.Storage.Exec.{Conn}
use traust_contracts.Storage.Project.Dispatch.{project}
use traust_contracts.Storage.Project.Frame.{Admits, project-Keeps}

-- The row is the binding's.
abbrev pub Own : Text → Text → Row → Type 0
Own digest bid r = (r.binding_id ≡ bid) × (r.artifact_digest ≡ digest)

pub record Appended (digest bid : Text) (before db : Db) : Type 0 where
  pub added : List Row
  pub own : All (Own digest bid) added
  pub whole : db ≡ record before { rows = before.rows ++ added }

insert_row-whole :
    (r : Row) (db db' : Db)
    → insert_row r db ≡ ok db'
    → (db' ≡ db) ⊎ (db' ≡ record db { rows = db.rows ++ r ∷ [] })
unfolding insert_row
insert_row-whole r db db' h = elim (Option-cases (find_binding r.binding_id db.bindings)) [
  | inl missing ↦ absurd (ground arith)
  | inr (owner, found) ↦ ground arith
]

module _ (digest bid : Text) (before : Db) where
  Admits-Appended : Admits (λ db. Appended digest bid before db) digest bid
  Admits-Appended = record {
    add = λ r db db' id same so_far h. elim (insert_row-whole r db db' h) [
      | inl kept ↦ subst (λ d. Appended digest bid before d) (sym kept) so_far
      | inr more ↦ record {
        added = so_far.added ++ r ∷ [];
        own = All-append (Own digest bid) so_far.added (r ∷ []) so_far.own ((id, same), tt);
        whole =
            more
            ∙ ap (λ (d : Db). record d { rows = d.rows ++ r ∷ [] }) so_far.whole
            ∙ ap {B = Db} (λ rows. record before { rows = rows })
                (append_assoc before.rows so_far.added (r ∷ []));
      }
    ];
  }

-- Where `_project` returns, the transaction sees the database as it was with rows of the given
-- binding and digest appended to the projection tables.
pub project-Appended :
    (show : Json → Text) (artifact : Text) (document : Json) (digest bid : Text) (c : Conn)
    → (project show artifact document digest bid c).0 ≡ ok tt
    → Appended digest bid c.work (project show artifact document digest bid c).1.work
project-Appended show artifact document digest bid c h =
    (project-Keeps digest bid (Admits-Appended digest bid c.work) show artifact document).kept.post
      c tt
      (record {
        added = [];
        own = tt;
        whole = ap {B = Db} (λ rows. record c.work { rows = rows }) (sym (append-nil c.work.rows));
      })
      h
