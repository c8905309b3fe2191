-- ===== src/Config/Scopes.antt =====
-- config.py: what `readable_scopes` returns.
use traust_contracts.Base.{
  ◌≡◌, ◌≢◌, refl, sym, ◌∙◌, Option, none, some, is, Text, ap, subst, elem, distinct, distinct_texts,
  sorted, true, false, List, [], ok, >>=-ok, arith,
}
use traust_contracts.Storage.Sql.Names.{elem-sorted, distinct-sorted}
use traust_contracts.Config.Slug.{Characters}
use traust_contracts.Config.Corpus.{
  TreeMeta, CorpusConfig, tree_meta, scope_for, names, in_corpus, scopes_of, some_scope,
  readable_scopes,
}
use traust_contracts.Config.Registered.{tree_meta-names}
use traust_contracts.Config.Gathered.{
  elem-distinct, distinct-distinct, some_scope-ok, Member, scopes_of-Gathered, same-Gathered,
}

in_corpus_lem :
    (found : Option TreeMeta)
    → in_corpus found ≡ true
    → (meta : TreeMeta) × (found ≡ some meta) × (is meta.ownership "harness-qa" ≡ false)
unfolding in_corpus
in_corpus_lem none h = absurd (cc)
in_corpus_lem (some meta) h = (meta, refl, ground arith)

counted_lem :
    (found : Option TreeMeta) (meta : TreeMeta)
    → found ≡ some meta
    → is meta.ownership "harness-qa" ≡ false
    → in_corpus found ≡ true
unfolding in_corpus
counted_lem found meta e h = rw e (rw h refl)

module _ (chars : Characters) (config : CorpusConfig) where
  -- A tree whose artifacts are written under a scope that readers may query.
  pub record Writes (scope : Text) : Type 0 where
    pub tree : Text
    pub meta : TreeMeta
    pub found : tree_meta config tree ≡ some meta
    pub counted : is meta.ownership "harness-qa" ≡ false
    pub written : scope_for chars config tree ≡ ok scope

  pub record Readable (scopes : List Text) : Type 0 where
    pub not_empty : scopes ≢ []
    pub once : distinct_texts scopes ≡ true
    pub sound : (scope : Text) → elem scope scopes ≡ true → Writes scope
    pub complete :
        (tree : Text) (meta : TreeMeta)
        → tree ≢ []
        → tree_meta config tree ≡ some meta
        → is meta.ownership "harness-qa" ≡ false
        → (scope : Text) × (scope_for chars config tree ≡ ok scope) × (elem scope scopes ≡ true)

  Member-Writes : (scope : Text) → Member chars config (names config) scope → Writes scope
  Member-Writes scope w =
      let counted = in_corpus_lem (tree_meta config w.tree) w.counted in
      record {
        tree = w.tree;
        meta = counted.0;
        found = counted.1;
        counted = counted.2;
        written = w.written;
      }

  -- `readable_scopes` either raises or returns at least one scope, none twice: a scope is in the list
  -- only where `scope_for` writes it for a tree or engagement that is not "harness-qa", and
  -- `scope_for` returns a scope of the list for every such tree whose name is not empty.
  pub readable_scopes-Readable :
      {scopes : List Text} → readable_scopes chars config ≡ ok scopes → Readable scopes
  unfolding readable_scopes
  readable_scopes-Readable {scopes} h =
      let ran =
        >>=-ok (scopes_of chars config (names config))
          (λ found. some_scope (sorted (distinct found))) h in
      let found = ran.0 in
      let out = some_scope-ok (sorted (distinct found)) ran.2 in
      let r =
        same-Gathered chars config (names config) found scopes
          (λ t.
            ap (λ xs. elem t xs) (sym out.0)
            ∙ elem-sorted t (distinct found)
            ∙ elem-distinct t found)
          (scopes_of-Gathered chars config (names config) ran.1) in
      record {
        not_empty = out.1;
        once =
            subst (λ xs. distinct_texts xs ≡ true) out.0
              (distinct-sorted (distinct found) (distinct-distinct found));
        sound = λ scope e. Member-Writes scope (r.sound scope e);
        complete = λ tree meta named known counted.
            r.complete tree (tree_meta-names config tree meta named known)
              (counted_lem (tree_meta config tree) meta known counted);
      }
