-- ===== src/Config/Corpus.antt =====
-- config.py: `CorpusConfig`, the trees and engagements of a corpus and their storage scopes.
use traust_contracts.Base.{
  Text, codes, text_eq, is, distinct, sorted, Bool, false, not, Option, none, some, List, [], ◌∷◌,
  ◌++◌, map, Result, ok, err, ◌>>=◌, value_error, key_error, if◌then◌else◌,
}
use traust_contracts.Config.Slug.{Characters, scope_slug}

pub data ScopeMode : Type 0 where
  mode_single mode_business_unit mode_tree mode_explicit : ScopeMode

pub record ScopeConfig : Type 0 where
  pub mode : ScopeMode
  pub id : Text

pub record TreeMeta : Type 0 where
  pub ownership : Text
  pub label : Text
  pub business_unit : Text
  pub scope_id : Option Text

-- An `EngagementMeta` is the metadata of a tree, and the tree's name.
pub record EngagementMeta : Type 0 where
  pub tree : Text
  pub meta : TreeMeta

-- The two dicts in the order of their items.
pub record CorpusConfig : Type 0 where
  pub trees : List (Text × TreeMeta)
  pub engagements : List (Text × EngagementMeta)
  pub scope : ScopeConfig

unfoldable pub find_tree : List (Text × TreeMeta) → Text → Option TreeMeta
find_tree [] tree = none
find_tree (item ∷ items) tree = if text_eq item.0 tree then some item.1 else find_tree items tree

unfoldable pub find_engagement : List (Text × EngagementMeta) → Text → Option TreeMeta
find_engagement [] tree = none
find_engagement (item ∷ items) tree =
    if text_eq item.1.tree tree then some item.1.meta else find_engagement items tree

unfoldable pub or_engagement : Option TreeMeta → Option TreeMeta → Option TreeMeta
or_engagement (some meta) engaged = some meta
or_engagement none engaged = engaged

unfoldable pub tree_meta : CorpusConfig → Text → Option TreeMeta
unfolding find_tree find_engagement or_engagement
tree_meta config tree =
    or_engagement (find_tree config.trees tree) (find_engagement config.engagements tree)

-- The scope id that a tree declares; None and "" are none.
unfoldable pub declared : Option Text → Result Text
declared none = err value_error
declared (some []) = err value_error
declared (some (c ∷ s)) = ok (c ∷ s)

unfoldable pub scope_in_mode : Characters → ScopeConfig → ScopeMode → Text → TreeMeta → Result Text
unfolding declared
scope_in_mode chars scope mode_single tree meta = ok scope.id
scope_in_mode chars scope mode_business_unit tree meta = ok (scope_slug chars meta.business_unit)
scope_in_mode chars scope mode_tree tree meta = ok (scope_slug chars tree)
scope_in_mode chars scope mode_explicit tree meta = declared meta.scope_id

unfoldable pub scope_of : Characters → ScopeConfig → Text → Option TreeMeta → Result Text
unfolding scope_in_mode
scope_of chars scope tree none = err key_error
scope_of chars scope tree (some meta) = scope_in_mode chars scope scope.mode tree meta

unfoldable pub scope_for : Characters → CorpusConfig → Text → Result Text
unfolding scope_of tree_meta
scope_for chars config tree = scope_of chars config.scope tree (tree_meta config tree)

unfoldable pub engaged_names : List (Text × EngagementMeta) → List Text
engaged_names [] = []
engaged_names (item ∷ items) =
    if text_eq item.1.tree [] then engaged_names items else item.1.tree ∷ engaged_names items

-- `names` of `readable_scopes`
unfoldable pub names : CorpusConfig → List Text
unfolding engaged_names
names config = map (λ item. item.0) config.trees ++ engaged_names config.engagements

unfoldable pub in_corpus : Option TreeMeta → Bool
unfolding is codes
in_corpus none = false
in_corpus (some meta) = not (is meta.ownership "harness-qa")

-- The comprehension of `readable_scopes`, before its members are made a set.
unfoldable pub scopes_of : Characters → CorpusConfig → List Text → Result (List Text)
unfolding scope_for in_corpus
scopes_of chars config [] = ok []
scopes_of chars config (tree ∷ rest) =
    let more = scopes_of chars config rest in
    if in_corpus (tree_meta config tree)
    then scope_for chars config tree >>= (λ scope. more >>= λ scopes. ok (scope ∷ scopes))
    else more

unfoldable pub some_scope : List Text → Result (List Text)
some_scope [] = err value_error
some_scope (scope ∷ scopes) = ok (scope ∷ scopes)

unfoldable pub readable_scopes : Characters → CorpusConfig → Result (List Text)
unfolding scopes_of names some_scope distinct sorted
readable_scopes chars config =
    scopes_of chars config (names config) >>= λ scopes. some_scope (sorted (distinct scopes))
