-- ===== src/Tests/Config.antt =====
-- src/traust_contracts/config.py on a corpus of a tree, an engagement and a probe.
use traust_contracts.Base.{
  ◌≡◌, ◌≢◌, refl, Text, codes, text_eq, elem, any, false, ◌&&◌, ◌||◌, none, [], ◌∷◌, err, key_error,
  leb,
}
use traust_contracts.Config.{
  Characters, CorpusConfig, TreeMeta, mode_business_unit, dashed, scope_slug, collapse,
  replace_doubles, has_double, starts_dash, ends_dash, strip_left, strip_right, keep_right,
  unexpected, scope_slug_lem, tree_meta, scope_for, names, engaged_names, readable_scopes, Readable,
  readable_scopes-Readable, scope_for-registered,
}

-- Lower-case letters and digits.
abbrev ascii : Characters
ascii = record { lower = λ s. s; is_alnum = λ c. leb 97 c && leb c 122 || leb 48 c && leb c 57 }

abbrev tagged : Text → Text → TreeMeta
tagged ownership business_unit = record {
  ownership = ownership;
  label = [];
  business_unit = business_unit;
  scope_id = none;
}

abbrev corpus : CorpusConfig
unfolding codes
corpus = record {
  trees =
      (codes "portfolio", tagged (codes "owned") (codes "hybrid (platforms)"))
      ∷ (codes "probe", tagged (codes "harness-qa") (codes "qa"))
      ∷ [];
  engagements =
      (
        codes "first",
        record { tree = codes "apart"; meta = tagged (codes "external-bu") (codes "apart unit") },
      )
      ∷ [];
  scope = record { mode = mode_business_unit; id = codes "local" };
}

scope_slug_lem_example :
    (has_double (codes "hybrid-platforms") ≡ false)
    × (starts_dash (codes "hybrid-platforms") ≡ false)
    × (ends_dash (codes "hybrid-platforms") ≡ false)
    × (any (unexpected ascii) (codes "hybrid-platforms") ≡ false)
unfolding codes scope_slug dashed collapse replace_doubles has_double starts_dash strip_left
    strip_right keep_right
scope_slug_lem_example = scope_slug_lem ascii (codes "hybrid (platforms)")

readable_scopes-Readable_example :
    Readable ascii corpus (codes "apart-unit" ∷ codes "hybrid-platforms" ∷ [])
unfolding codes scope_slug readable_scopes
readable_scopes-Readable_example = readable_scopes-Readable ascii corpus refl

scope_for-registered_example :
    (tree_meta corpus (codes "apart") ≢ none)
    × (scope_for ascii corpus (codes "apart") ≢ err key_error)
unfolding codes elem text_eq names engaged_names
scope_for-registered_example = scope_for-registered ascii corpus (codes "apart") refl
