-- ===== src/Tests/Binding.antt =====
-- Identities and references of v1/storage/store.py, and the statements and the order of v1/sql.py.
use traust_contracts.Base.{
  ℕ, ◌≡◌, refl, Text, codes, elem, distinct_texts, Bool, true, false, List, [], ◌∷◌, ◌++◌, none,
  some, ok, All, any, sorted, ◌==◌,
}
use traust_contracts.Storage.Identity.{
  Binding, local, identity_bytes, references, identifier_bytes, required_bytes, optional_bytes,
  role_bytes,
}
use traust_contracts.Storage.Identity.Utf8.{utf8_char}
use traust_contracts.Storage.Identity.Injective.{SameIdentity, identity_bytes-injective}
use traust_contracts.Storage.Identity.References.{NonEmpty, references-distinct}
use traust_contracts.Storage.Exec.{sqlite, postgres}
use traust_contracts.Storage.Sql.{
  Listing, File, Folder, root, schema, views, order_files, absent, present_of, remaining, namespace,
}
use traust_contracts.Storage.Sql.Order.{Ordered, order_files-Ordered}
use traust_contracts.Storage.Sql.Statements.{
  bootstrap_statements, bootstrap_statements-whole, concat, split_lines, any_code,
}
use traust_contracts.Base.{◌⊎◌}
use traust_contracts.Py.{str}
use traust_contracts.Storage.Db.{text, null}
use traust_contracts.Storage.Values.{projected_text, escape_nul}
use traust_contracts.Storage.Values.Laws.{has_zero, projected_text-NoNul}

abbrev digest : Text
digest = 97 ∷ 98 ∷ []

abbrev name : Text
name = 114 ∷ []

abbrev of_run : Binding
of_run = record local { run_id = some (49 ∷ []); commit_sha = some (99 ∷ []) }

abbrev of_other_commit : Binding
of_other_commit = record local { run_id = some (49 ∷ []); commit_sha = none }

abbrev encoded : List ℕ
unfolding codes
encoded =
    codes "traust-binding-v1"
    ++ (0 ∷ 97 ∷ 98 ∷ 0 ∷ 114 ∷ 0 ∷ codes "local" ++ (0 ∷ 0 ∷ 1 ∷ 49 ∷ 0 ∷ 0 ∷ []))

identity_bytes-injective_example :
    (digest ≡ digest) × (name ≡ name) × SameIdentity of_run of_other_commit
unfolding codes identity_bytes required_bytes optional_bytes role_bytes identifier_bytes utf8_char
identity_bytes-injective_example =
    identity_bytes-injective digest name digest name of_run of_other_commit {z = encoded} refl refl

references-distinct_example :
    All NonEmpty (codes "a" ∷ codes "b" ∷ [])
    × (distinct_texts (codes "a" ∷ codes "b" ∷ []) ≡ true)
    × ((t : Text)
        → elem t (codes "a" ∷ codes "b" ∷ []) ≡ elem t (codes "a" ∷ codes "b" ∷ codes "a" ∷ []))
unfolding references codes utf8_char
references-distinct_example =
    references-distinct (codes "a" ∷ codes "b" ∷ codes "a" ∷ []) (codes "a" ∷ codes "b" ∷ []) refl

-- A statement is complete where it has a semicolon.
abbrev ends_complete : Text → Bool
ends_complete = any (λ c. c == 59)

abbrev two_statements : Text
two_statements = codes "A;" ++ 10 ∷ codes "B" ++ 10 ∷ codes ";" ++ 10 ∷ codes "-- c"

bootstrap_statements-whole_example :
    (leftover : Text) × (concat (bootstrap_statements ends_complete sqlite two_statements).0
        ++ leftover
      ≡ two_statements)
    × All (λ s. ends_complete s ≡ true) (bootstrap_statements ends_complete sqlite two_statements).0
    × ((bootstrap_statements ends_complete sqlite two_statements).1 ≡ ok tt
        → any_code (split_lines leftover) ≡ false)
bootstrap_statements-whole_example = bootstrap_statements-whole ends_complete two_statements

abbrev shipped : Listing
unfolding codes
shipped = record {
  namespace_present = true;
  schema_files = codes "report.sql" ∷ codes "product.sql" ∷ codes "finding.sql" ∷ [];
  view_files = codes "open.sql" ∷ codes "sla.sql" ∷ codes "current.sql" ∷ [];
  migration_names = [];
}

abbrev tables_first : List Text
unfolding codes
tables_first = codes "product.sql" ∷ []

abbrev views_first : List Text
unfolding codes
views_first = codes "sla.sql" ∷ codes "absent.sql" ∷ []

abbrev at_folder : Folder → Text → File
at_folder folder name_ = record { folder = folder; name = name_ }

abbrev shipped_files : List File
unfolding codes
shipped_files =
    at_folder root (codes "namespace.sql")
    ∷ at_folder schema (codes "product.sql")
    ∷ at_folder schema (codes "finding.sql")
    ∷ at_folder schema (codes "report.sql")
    ∷ at_folder views (codes "sla.sql")
    ∷ at_folder views (codes "current.sql")
    ∷ at_folder views (codes "open.sql")
    ∷ []

order_files-Ordered_example : Ordered shipped postgres tables_first views_first shipped_files
unfolding codes order_files absent present_of remaining namespace sorted
order_files-Ordered_example =
    order_files-Ordered shipped postgres tables_first views_first false refl

projected_text-NoNul_example :
    (text (97 ∷ codes "\\u0000") ≡ null)
    ⊎ ((t : Text) × (text (97 ∷ codes "\\u0000") ≡ text t) × (has_zero t ≡ false))
unfolding projected_text escape_nul
projected_text-NoNul_example = projected_text-NoNul (str (97 ∷ 0 ∷ [])) refl
