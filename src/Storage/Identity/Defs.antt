-- ===== src/Storage/Identity/Defs.antt =====
-- store.py: `Binding`, the checks of caller strings, and the bytes that `binding_id` hashes.
use traust_contracts.Base.{
  ℕ, ◌∷◌, [], ◌++◌, List, Text, String, codes, elem, Bool, Option, none, some, if◌then◌else◌,
  Result, ok, err, message, ◌>>=◌, ◌>>◌,
}
use traust_contracts.Storage.Identity.Utf8.{utf8, has_nul}

pub record Binding : Type 0 where
  pub scope_id : Text
  pub subject_id : Option Text
  pub run_id : Option Text
  pub layer_id : Option Text
  pub supersedes_binding_id : Option Text
  pub role : Option Text
  pub product_repo_id : Option Text
  pub commit_sha : Option Text

-- `Binding()`
abbrev pub local : Binding
unfolding codes
local = record {
  scope_id = codes "local";
  subject_id = none;
  run_id = none;
  layer_id = none;
  supersedes_binding_id = none;
  role = none;
  product_repo_id = none;
  commit_sha = none;
}

-- An IngestError whose message names a field.
abbrev pub field_error {ℓ} : {A : Type ℓ} → String → String → Result A
field_error field what = err (message (codes field ++ codes what))

abbrev encoded : String → Option (List ℕ) → Result (List ℕ)
encoded field none = field_error field ": invalid Unicode"
encoded field (some bytes) = ok bytes

unfoldable pub identifier_bytes : String → Text → Result (List ℕ)
unfolding utf8 codes
identifier_bytes field value =
    if has_nul value then field_error field ": NUL is not allowed" else encoded field (utf8 value)

-- `_text`: an optional text attribute, empty only when it is not required.
unfoldable pub text_attribute : String → Option Text → Bool → Result (Option Text)
unfolding identifier_bytes
text_attribute field none required =
    if required then field_error field ": required value missing" else ok none
text_attribute field (some []) required =
    if required then field_error field ": required value missing" else ok (some [])
text_attribute field (some (c ∷ s)) required = do identifier_bytes field (c ∷ s); ok (some (c ∷ s))

unfoldable pub dedup : List Text → List Text → Result (List Text)
unfolding identifier_bytes
dedup seen [] = ok seen
dedup seen ([] ∷ rest) = field_error "references" ": empty reference"
dedup seen ((c ∷ s) ∷ rest) =
    let more = dedup (if elem (c ∷ s) seen then seen else seen ++ (c ∷ s) ∷ []) rest in
    identifier_bytes "references" (c ∷ s) >> more

-- `_references`: deduplicated, in the order of first occurrence.
unfoldable pub references : List Text → Result (List Text)
unfolding dedup elem
references refs = dedup [] refs

abbrev pub binding_domain : List ℕ
unfolding codes
binding_domain = codes "traust-binding-v1" ++ 0 ∷ []

-- A required field, with the zero byte that ends it.
unfoldable pub required_bytes : String → Text → Result (List ℕ)
required_bytes field value = do bytes ← identifier_bytes field value; ok (bytes ++ 0 ∷ [])

-- An optional context field: 0, or 1, the bytes and the zero byte that ends them.
unfoldable pub optional_bytes : String → Option Text → Result (List ℕ)
optional_bytes field none = ok (0 ∷ [])
optional_bytes field (some value) = do
  bytes ← identifier_bytes field value
  ok (1 ∷ bytes ++ 0 ∷ [])

-- The role is trailing, and leaves nothing where it is absent.
unfoldable pub role_bytes : Option Text → Result (List ℕ)
role_bytes none = ok []
role_bytes (some value) = do bytes ← identifier_bytes "role" value; ok (1 ∷ bytes ++ 0 ∷ [])

-- What `binding_id` feeds to SHA-256.
unfoldable pub identity_bytes : Text → Text → Binding → Result (List ℕ)
unfolding codes
identity_bytes artifact_digest artifact_name binding = do
  digest ← required_bytes "artifact_digest" artifact_digest
  name ← required_bytes "artifact_name" artifact_name
  scope ← required_bytes "scope_id" binding.scope_id
  subject ← optional_bytes "subject_id" binding.subject_id
  run ← optional_bytes "run_id" binding.run_id
  layer ← optional_bytes "layer_id" binding.layer_id
  role ← role_bytes binding.role
  ok (binding_domain ++ (digest ++ (name ++ (scope ++ (subject ++ (run ++ (layer ++ role)))))))

-- `hashlib.sha256(encoded).hexdigest()`, with the hash of the standard library as an argument.
unfoldable pub binding_id : (List ℕ → Text) → Text → Text → Binding → Result Text
binding_id sha256 artifact_digest artifact_name binding = do
  encoded ← identity_bytes artifact_digest artifact_name binding
  ok (sha256 encoded)
