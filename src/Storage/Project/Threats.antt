-- ===== src/Storage/Project/Threats.antt =====
-- store.py: `_threat_rating_columns` and `_project_threats`.
use traust_contracts.Base.{
  Text, String, codes, is, Bool, true, false, not, ◌||◌, ◌&&◌, ◌==◌, leb, ◌+◌, ℕ, List, [], ◌∷◌,
  ◌++◌, Option, none, some, if◌then◌else◌, Result, ok, err,
}
use traust_contracts.Base
use traust_contracts.Py.{Json, get, section, each, truthy, or_else, str, lookup, pos, Fields, end}
use traust_contracts.Storage.Db.{SqlValue, null, text, integer, BindingRow, find_binding}
use traust_contracts.Storage.Values.{bind, json_or_none, to_str, threat_score}
use traust_contracts.Storage.Exec.{Exec, pure, lift, query, for_each, ◌>>=◌}
use traust_contracts.Storage.Project.Columns.{opt, enc, col, upsert}

abbrev null_columns : List (Result (String × SqlValue))
null_columns =
    col "risk_rating" (ok null)
    ∷ col "severity" (ok null)
    ∷ col "likelihood_score" (ok null)
    ∷ col "likelihood_level" (ok null)
    ∷ col "impact_score" (ok null)
    ∷ col "impact_level" (ok null)
    ∷ col "impact_basis" (ok null)
    ∷ []

-- `_threat_rating_columns`: the columns are NULL when the threat carries no rating.
unfoldable pub threat_rating_columns : Json → Result (List (Result (String × SqlValue)))
threat_rating_columns (Json.obj fs) = Base.◌>>=◌ (section "likelihood" (Json.obj fs)) λ likelihood.
    Base.◌>>=◌ (section "impact" (Json.obj fs)) λ impact. ok (
      col "risk_rating" (json_or_none (Json.obj fs))
      ∷ col "severity" (opt "severity" (Json.obj fs))
      ∷ col "likelihood_score" (opt "score" likelihood)
      ∷ col "likelihood_level" (opt "level" likelihood)
      ∷ col "impact_score" (opt "score" impact)
      ∷ col "impact_level" (opt "level" impact)
      ∷ col "impact_basis" (opt "basis" impact)
      ∷ [])
threat_rating_columns _ = ok null_columns

-- ASCII `lower`: no other character has a lower case that the test below could meet.
unfoldable pub lower : Text → Text
lower [] = []
lower (c ∷ s) = (if leb 65 c && leb c 90 then c + 32 else c) ∷ lower s

unfoldable pub begins : Text → Text → Bool
begins s [] = true
begins [] (d ∷ t) = false
begins (c ∷ s) (d ∷ t) = c == d && begins s t

-- `str(threat.get("threat", "")).lower().startswith("linddun:")`
abbrev linddun : (Json → Text) → Option Json → SqlValue
linddun show none = integer (pos 0)
linddun show (some v) =
    if begins (lower (to_str show v)) (codes "linddun:") then integer (pos 1) else integer (pos 0)

abbrev fields_of : Json → Fields
fields_of (Json.obj fs) = fs
fields_of _ = end

abbrev score_value : Option ℕ → SqlValue
score_value none = null
score_value (some n) = integer (pos n)

abbrev or_text : Option Text → Json → Json
or_text none v = v
or_text (some []) v = v
or_text (some (c ∷ s)) v = str (c ∷ s)

threat_row : (Json → Text) → Json → Json → Option Text → Text → Text → Json → Exec (Unit {0})
threat_row show document provenance subject_id digest bid threat = do
  threat_id ← lift (get "id" threat)
  if not (truthy threat_id) then pure tt else do
    system ← lift (get "system" document)
    target ← lift (get "target" provenance)
    own_subject ← lift (get "subject_id" document)
    rating ← lift (get "risk_rating" threat)
    rating_columns ← lift (threat_rating_columns rating)
    impact ← lift (get "impact" threat)
    likelihood ← lift (get "likelihood" threat)
    upsert "threat" digest bid (
        col "threat_key" (
          ok (text (to_str show (or_text subject_id system) ++ codes ":" ++ to_str show threat_id)))
        ∷ col "threat_id" (bind threat_id)
        ∷ col "model" (bind (or_else (or_else target system) (str [])))
        ∷ col "subject_id" (bind (or_text subject_id own_subject))
        ∷ col "product" (opt "system" document)
        ∷ col "statement" (opt "threat" threat)
        ∷ col "surface" (opt "surface" threat)
        ∷ col "asset" (opt "asset" threat)
        ∷ col "impact" (opt "impact" threat)
        ∷ col "likelihood" (opt "likelihood" threat)
        ∷ (rating_columns
            ++ (col "status" (opt "status" threat)
                ∷ col "controls" (opt "controls" threat)
                ∷ col "actors" (enc "actor" threat)
                ∷ col "evidence" (enc "evidence" threat)
                ∷ col "linddun" (ok (linddun show (lookup (codes "threat") (fields_of threat))))
                ∷ col "score" (
                    ok (
                      if truthy rating then null else score_value (threat_score impact likelihood)))
                ∷ col "attack_refs" (enc "attack_refs" threat)
                ∷ col "isolation_dimensions" (enc "isolation_dimensions" threat)
                ∷ col "isolation_boundaries" (enc "isolation_boundaries" threat)
                ∷ col "review_surfaces" (enc "review_surfaces" threat)
                ∷ [])))

-- `_binding_row(binding_id)[3]`
abbrev subject_of : Option BindingRow → Option Text
subject_of none = none
subject_of (some r) = r.binding.subject_id

-- `_project_threats`
unfoldable pub project_threats : (Json → Text) → Json → Text → Text → Exec (Unit {0})
unfolding threat_row
project_threats show document digest bid = do
  subject ← query (λ db. find_binding bid db.bindings)
  provenance ← lift (section "provenance" document)
  threats ← lift (each "threats" document)
  for_each threats (threat_row show document provenance (subject_of subject) digest bid)
