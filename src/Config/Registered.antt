-- ===== src/Config/Registered.antt =====
-- config.py: every name that `readable_scopes` goes through has metadata.
use traust_contracts.Base.{
  ◌≡◌, refl, Text, elem, elem-append, true, Option, none, some, List, [], ◌∷◌, map, arith,
  text_eq_iff, err, key_error, ◌≢◌,
}
use traust_contracts.Config.Slug.{Characters}
use traust_contracts.Config.Corpus.{
  TreeMeta, EngagementMeta, CorpusConfig, find_tree, find_engagement, or_engagement, tree_meta,
  engaged_names, names, declared, scope_of, scope_in_mode, scope_for, mode_single,
  mode_business_unit, mode_tree, mode_explicit, ScopeMode, ScopeConfig,
}

found_tree :
    (items : List (Text × TreeMeta)) (tree : Text)
    → elem tree (map (λ item. item.0) items) ≡ true
    → find_tree items tree ≢ none
unfolding elem find_tree
found_tree [] tree h = absurd (cc)
found_tree (item ∷ items) tree h =
    ground (arith, found_tree items tree, text_eq_iff tree item.0, text_eq_iff item.0 tree)

found_engagement :
    (items : List (Text × EngagementMeta)) (tree : Text)
    → elem tree (engaged_names items) ≡ true
    → find_engagement items tree ≢ none
unfolding elem engaged_names find_engagement
found_engagement [] tree h = absurd (cc)
found_engagement (item ∷ items) tree h =
    ground (
      arith,
      found_engagement items tree,
      text_eq_iff tree item.1.tree,
      text_eq_iff item.1.tree tree,
    )

tree_meta_lem :
    (config : CorpusConfig) (tree : Text)
    → elem tree (names config) ≡ true
    → tree_meta config tree ≢ none
unfolding names tree_meta or_engagement
tree_meta_lem config tree h = ground (
  arith,
  elem-append tree (map (λ item. item.0) config.trees) (engaged_names config.engagements),
  found_tree config.trees tree,
  found_engagement config.engagements tree,
)

tree-names :
    (items : List (Text × TreeMeta)) (tree : Text)
    → find_tree items tree ≢ none
    → elem tree (map (λ item. item.0) items) ≡ true
unfolding elem find_tree
tree-names [] tree h = absurd (h refl)
tree-names (item ∷ items) tree h =
    ground (arith, tree-names items tree, text_eq_iff tree item.0, text_eq_iff item.0 tree)

engagement-names :
    (items : List (Text × EngagementMeta)) (tree : Text)
    → tree ≢ []
    → find_engagement items tree ≢ none
    → elem tree (engaged_names items) ≡ true
unfolding elem engaged_names find_engagement
engagement-names [] tree n h = absurd (h refl)
engagement-names (item ∷ items) tree n h = ground (
  arith,
  engagement-names items tree,
  text_eq_iff tree item.1.tree,
  text_eq_iff item.1.tree tree,
  text_eq_iff item.1.tree [],
)

pub tree_meta-names :
    (config : CorpusConfig) (tree : Text) (meta : TreeMeta)
    → tree ≢ []
    → tree_meta config tree ≡ some meta
    → elem tree (names config) ≡ true
unfolding names tree_meta or_engagement
tree_meta-names config tree meta n h = ground (
  arith,
  elem-append tree (map (λ item. item.0) config.trees) (engaged_names config.engagements),
  tree-names config.trees tree,
  engagement-names config.engagements tree n,
)

declared_lem : (scope_id : Option Text) → declared scope_id ≢ err key_error
unfolding declared
declared_lem none e = cc
declared_lem (some []) e = cc
declared_lem (some (c ∷ s)) e = cc

scope_in_mode_lem :
    (chars : Characters) (scope : ScopeConfig) (mode : ScopeMode) (tree : Text) (meta : TreeMeta)
    → scope_in_mode chars scope mode tree meta ≢ err key_error
unfolding scope_in_mode
scope_in_mode_lem chars scope mode_single tree meta e = cc
scope_in_mode_lem chars scope mode_business_unit tree meta e = cc
scope_in_mode_lem chars scope mode_tree tree meta e = cc
scope_in_mode_lem chars scope mode_explicit tree meta e = declared_lem meta.scope_id e

scope_of_lem :
    (chars : Characters) (scope : ScopeConfig) (tree : Text) (found : Option TreeMeta)
    → found ≢ none
    → scope_of chars scope tree found ≢ err key_error
unfolding scope_of
scope_of_lem chars scope tree none h e = absurd (h (cc))
scope_of_lem chars scope tree (some meta) h e = scope_in_mode_lem chars scope scope.mode tree meta e

-- `scope_for` raises no KeyError for a name that `readable_scopes` goes through, a tree's or an
-- engagement's: both are found by `tree_meta`.
pub scope_for-registered :
    (chars : Characters) (config : CorpusConfig) (tree : Text)
    → elem tree (names config) ≡ true
    → (tree_meta config tree ≢ none) × (scope_for chars config tree ≢ err key_error)
unfolding scope_for
scope_for-registered chars config tree h =
    let found = tree_meta_lem config tree h in
    (found, scope_of_lem chars config.scope tree (tree_meta config tree) found)
