-- ===== src/Lib.antt =====
-- Verification library of traust-contracts: the storage protocol of src/traust_contracts/v1/storage
-- (the SQL-first reference store), the OWASP risk rating of src/traust_contracts/v1/risk_rating.py,
-- the corpus configuration, the commit gates of ci/gates.py, release.py and ci/bump_downstream.py.
--
-- How the program hangs together. A producer validates an artifact, rates its findings with
-- `risk_rating.rate`, and gives the bytes to `Store.ingest`, which validates them, computes the
-- binding's identity over SHA-256, and in one transaction writes the evidence, the binding, the
-- locations and the rows of the artifact's projection. `Store.init` and `Store.migrate` bring a
-- database to the package's revision from the SQL files that v1/sql.py and v1/storage/sql.py put in
-- order; the register_* methods keep the product and repo registry that bindings refer to;
-- `get_binding` and the query_* methods read. The corpus configuration says which scope each tree of
-- artifacts is written under and which scopes a reader may ask for. The scripts of the repository
-- stand apart: release.py tags a version, ci/bump_downstream.py carries it down the chain of
-- repositories that pin it. The gates stand apart too: they lint the subjects of a range of commits,
-- say which version bump it asks for, and check that a merge request makes that bump.
--
-- Files and what they model.
-- Base, Py: shared lists, texts (lists of code points), errors and results; Python's JSON values.
-- RiskRating/Defs, RiskRating/Document: `rate` and `problems`. A mean of eight or four factors is kept as
-- its sum and the power of two that divides it, which is what the float and its rounding hold.
-- RiskRating/Levels, RiskRating/Agreement: their properties.
-- Storage/Identity: `Binding`, `_identifier_bytes`, `_text`, `_references`, `binding_id`.
-- Storage/Sql: `bootstrap_files`, `bootstrap_statements`, `migration_files`.
-- Storage/Db: the tables, and the statements of storage/v1/*/queries that the store executes.
-- Storage/Exec: the connection and the skeleton of a method: `_idle`, `_begin`, the statements, COMMIT,
-- and the handler that rolls back. Frame, Triples, Keeps, Atomic and Total are the rules for contracts
-- of such code.
-- Storage/Values: `_integer`, `_boolean`, `_projected_text`, `_json_or_none`, `_threat_score`,
-- `_skip_reason`.
-- Storage/Project: `_project` and each _project_* method, column by column.
-- Storage/Store/Defs: `ingest`; Registry: the register_* methods; Reads: `get_binding` and the query_*
-- methods; Bootstrap: `init` and `migrate`. Their siblings hold the invariant and the proofs.
-- Gates: HEADER_RE, MERGE_RE, REVERT_RE, `validate_subject` and `bump_level` of ci/gates.py; Gates/Mr its
-- scripts over ranges of commits and its `main`.
-- Config: `scope_slug` and `CorpusConfig` of src/traust_contracts/config.py, with `tree_meta`, `scope_for`
-- and `readable_scopes`. The `while` loop of `scope_slug` is recursion on fuel, the length of the text,
-- since each round removes a dash.
-- Downstream: ci/bump_downstream.py. Pins and Urls are its regular expressions over pyproject.toml and
-- remote urls, Host the processes it runs, Repo its `Git` and `gh` functions, Bumper and Reconcile the
-- changes to a hop, Commands `status`, `bump` and `chain`; the other files are their proofs.
-- Process: scripts that run processes and access files, and rules for what they keep true of the
-- record of what they asked. Downstream, Release and Gates/Mr are such scripts.
-- Release: release.py. Version is `semver_tuple`, `bump_version` and its regular expressions, Repo the
-- classes `Git` and `Repo`, Commands what `main` does for each subcommand; the other files are their
-- proofs.
-- Ledger: the table inventory, `bootstrap_files` and `migration_files` of v1/ledger/sql.py.
-- Tests: the theorems at concrete inputs.
--
-- The state. A connection has the database that is committed, the one that the open transaction
-- sees, a schedule that says for each statement in turn whether the driver raises at it, and a
-- clock. A statement that raises has no effect, and so has a COMMIT or a ROLLBACK that raises. The
-- registry's tables have their keys, foreign keys, NOT NULL columns and CHECK (... <> ''); an upsert
-- whose key is there inserts no id, on both dialects. Other writers are not modelled: a transaction
-- sees the database as it was when it began. On PostgreSQL the statements that take a lock or set
-- the scope are there and can raise.
--
-- The pin script, the release script and the gates are actions on the record of what they asked the
-- machine: a host answers each command from the commands before it, and a command fails or prints a
-- text. The file of pull requests is a table that the script reads and writes; a write of it does
-- not fail.
--
-- Parameters. The host of each script and `json.loads` of what `gh pr view` prints, SHA-256, the
-- tables of `str.lower` and `str.isalnum`, the JSON schema validators (each with the parse of the
-- bytes before it), the storage profiles, Python's `str` of a value that is no string, fresh UUIDs,
-- the contents of the packaged SQL files, what executing their text does,
-- `sqlite3.complete_statement`, the names of the views and the rows that a view has.
--
-- Errors. An IngestError is its message in parts: the context that a handler puts in front, the
-- detail, and the note of a failed ROLLBACK. The table name in the context of an error of `ingest`,
-- the file names in an error of v1/sql.py and the wording of `_error_detail` are left out.
--
-- The decimal text of a number is recursion on fuel, one more than the number, since each round
-- divides it by ten; `int` reads the text back. Other loops are structural recursion, on lists and
-- on texts. Numbers are unbounded, as in Python. Byte strings are lists of numbers below 256.
--
-- Not modelled: the type checks of arguments that Python's annotations state, the NOT NULL and CHECK
-- constraints on single columns of projection tables, json_valid on the encoded lists of the
-- registry, the SQL of the views, the loading of schemas and profiles, the detection of the driver,
-- the sections of src/traust_contracts/config.py other than the corpus's and their loading, the
-- printing, arguments and exit codes of `main` of ci/bump_downstream.py and release.py, the wording
-- of the errors of ci/gates.py, the other files of ci, validate.py and the generators of the DDL
-- models.
mod Base
pub mod Py
pub mod RiskRating
pub mod Storage
pub mod Gates
pub mod Config
mod Process
pub mod Downstream
pub mod Release
pub mod Ledger
pub mod Tests
