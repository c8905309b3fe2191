-- ===== src/Storage/Sql/Defs.antt =====
-- v1/sql.py: `bootstrap_files` and `bootstrap_statements`; v1/storage/sql.py: `bootstrap_files` and
-- `migration_files`. What the directories hold is an argument, and so is `sqlite3.complete_statement`.
use traust_contracts.Base.{
  ℕ, ◌+◌, ◌/◌, ◌%◌, ◌-◌, suc, zero, Text, codes, elem, sorted, Bool, true, false, not, ◌&&◌, ◌||◌,
  List, [], ◌∷◌, ◌++◌, map, if◌then◌else◌, Result, ok, err, message, value_error,
}
use traust_contracts.Storage.Exec.{Dialect, sqlite, postgres}

-- A file below the root of a dialect, by its folder and its name.
pub data Folder : Type 0 where
  root schema views migrations : Folder

pub record File : Type 0 where
  pub folder : Folder
  pub name : Text

-- What `glob` and `is_file` find below the directory of a dialect.
pub record Listing : Type 0 where
  pub namespace_present : Bool
  pub schema_files : List Text
  pub view_files : List Text
  pub migration_names : List Text

-- The name of the file with the stem.
abbrev pub sql_name : Text → Text
unfolding codes
sql_name stem = stem ++ codes ".sql"

-- `[name for name in names if name not in present]`
unfoldable pub absent : List Text → List Text → List Text
unfolding elem
absent [] present = []
absent (n ∷ names) present =
    let rest = absent names present in if elem n present then rest else n ∷ rest

-- The members of the second list that the first does not name: what is left after each `pop`.
unfoldable pub remaining : List Text → List Text → List Text
remaining taken present = absent present taken

-- `[views.pop(name) for name in view_order if name in views]`
unfoldable pub present_of : List Text → List Text → List Text
unfolding elem
present_of [] present = []
present_of (n ∷ names) present =
    let rest = present_of names present in if elem n present then n ∷ rest else rest

abbrev pub in_folder : Folder → List Text → List File
in_folder folder = map (λ name. record { folder = folder; name = name })

abbrev namespace_file : File
namespace_file = record { folder = root; name = codes "namespace.sql" }

unfoldable pub namespace : Dialect → List File
unfolding codes
namespace sqlite = []
namespace postgres = namespace_file ∷ []

abbrev pub namespace_absent : Dialect → Bool → Bool
namespace_absent sqlite present = false
namespace_absent postgres present = not present

abbrev pub is_empty : List Text → Bool
is_empty [] = true
is_empty (x ∷ xs) = false

-- `bootstrap_files` of v1/sql.py, its tables and its views by the names of their files.
unfoldable pub order_files : Listing → Dialect → List Text → List Text → Bool → Result (List File)
unfolding codes
order_files listing dialect first_tables view_order exact_tables =
    if not (is_empty (absent first_tables listing.schema_files))
      || namespace_absent dialect listing.namespace_present
    then err (message (codes "missing SQL contract"))
    else if exact_tables && not (is_empty (remaining first_tables listing.schema_files))
    then err value_error
    else ok (
        namespace dialect
        ++ in_folder schema first_tables
        ++ in_folder schema (sorted (remaining first_tables listing.schema_files))
        ++ in_folder views (present_of view_order listing.view_files)
        ++ in_folder views (sorted (remaining view_order listing.view_files)))

abbrev pub first_tables : List Text
unfolding codes
first_tables =
    map (λ s. sql_name (codes s))
      ("product" ∷ "repo" ∷ "product_repo" ∷ "artifact_evidence" ∷ "artifact_binding"
        ∷ "artifact_location" ∷ [])

-- `VIEW_ORDER`
abbrev pub view_order : List Text
unfolding codes
view_order = map codes (
    "binding_current.sql" ∷ "report_current.sql" ∷ "ownership_current.sql" ∷ "current_finding.sql"
    ∷ "threat_current.sql" ∷ "validation_current.sql" ∷ "finding_first_seen.sql"
    ∷ "finding_timeline.sql" ∷ "pqc_posture.sql" ∷ "sla_clock.sql" ∷ "sla_threshold.sql"
    ∷ "pattern_exposure.sql" ∷ "attack_coverage.sql" ∷ [])

-- `bootstrap_files` of v1/storage/sql.py
unfoldable pub bootstrap_files : Listing → Dialect → Result (List File)
bootstrap_files listing dialect = order_files listing dialect first_tables view_order false

-- `CONTRACT_VERSION` and `REVISION`
abbrev pub contract_version : Text
unfolding codes
contract_version = codes "v1"

abbrev pub revision : ℕ
revision = 6

-- `f"{n:03d}"` of a number below 1000.
unfoldable pub three_digits : ℕ → Text
three_digits n = (48 + (n / 100) % 10) ∷ (48 + (n / 10) % 10) ∷ (48 + n % 10) ∷ []

-- `f"{step:03d}_to_{step + 1:03d}.sql"`
unfoldable pub step_name : ℕ → Text
unfolding codes
step_name step = three_digits step ++ codes "_to_" ++ three_digits (suc step) ++ codes ".sql"

-- `range(from, from + count)`
unfoldable pub range_from : ℕ → ℕ → List ℕ
range_from start zero = []
range_from start (suc count) = start ∷ range_from (suc start) count

-- `migration_files`
unfoldable pub migration_files : Listing → ℕ → Result (List File)
unfolding codes
migration_files listing from_revision =
    let names = map step_name (range_from from_revision (revision - from_revision)) in
    if is_empty (absent names listing.migration_names)
    then ok (in_folder migrations names)
    else err (message (codes "missing migration"))
