-- ===== src/Storage/Store/Keyed.antt =====
-- The constraints of the registry's tables, which the upserts of v1/storage/store.py keep.
use traust_contracts.Base.{
  ◌≡◌, refl, subst, Text, String, option_text_eq_iff, str_eq_iff, Bool, true, false, not, ◌&&◌,
  List, [], ◌∷◌, Option, none, some, All, any, arith, Bool-cases, inl, inr,
}
use traust_contracts.Storage.Db.{
  Entry, entry_id, value_of, agree, natural_key, same_entry, refresh, registered, refers,
  parents_known, columns_valid, accepted,
}
use traust_contracts.Storage.Store.Registered.{same_entry-matches, entry_id-stable}

-- No two rows of a table have the same key.
unfoldable pub keys_once : List Entry → Bool
keys_once [] = true
keys_once (e ∷ es) = not (any (same_entry e) es) && keys_once es

agree_sym :
    (names : List String) (xs ys : List (String × Option Text))
    → agree names xs ys ≡ true
    → agree names ys xs ≡ true
unfolding agree
agree_sym [] xs ys h = refl
agree_sym (n ∷ names) xs ys h = ground (
  arith,
  agree_sym names xs ys,
  option_text_eq_iff (value_of n xs) (value_of n ys),
  option_text_eq_iff (value_of n ys) (value_of n xs),
)

agree_left :
    (names : List String) (xs ys zs : List (String × Option Text))
    → agree names xs ys ≡ true
    → agree names xs zs ≡ agree names ys zs
unfolding agree
agree_left [] xs ys zs h = refl
agree_left (n ∷ names) xs ys zs h = ground (
  arith,
  agree_left names xs ys zs,
  option_text_eq_iff (value_of n xs) (value_of n ys),
  option_text_eq_iff (value_of n xs) (value_of n zs),
  option_text_eq_iff (value_of n ys) (value_of n zs),
)

same_table : (e f : Entry) → same_entry e f ≡ true → e.table ≡ f.table
unfolding same_entry
same_table e f h = (str_eq_iff e.table f.table).0 (ground arith)

same_keys :
    (e f : Entry) → same_entry e f ≡ true → agree (natural_key f.table) e.values f.values ≡ true
unfolding same_entry
same_keys e f h =
    subst (λ t. agree (natural_key t) e.values f.values ≡ true) (same_table e f h) (ground arith)

same_entry_sym : (e f : Entry) → same_entry e f ≡ true → same_entry f e ≡ true
unfolding same_entry
same_entry_sym e f h = ground (
  arith,
  agree_sym (natural_key f.table) e.values f.values (same_keys e f h),
  str_eq_iff f.table e.table,
  same_table e f h,
)

-- The row that an upsert refreshes.
abbrev renewed : Entry → Entry → Entry
renewed e f = record f { values = e.values }

same_entry-renewed :
    (e f g : Entry) → same_entry e f ≡ true → same_entry (renewed e f) g ≡ same_entry f g
unfolding same_entry
same_entry-renewed e f g h =
    rw (agree_left (natural_key f.table) e.values f.values g.values (same_keys e f h)) refl

any-renewed :
    (e f : Entry) (gs : List Entry)
    → same_entry e f ≡ true
    → any (same_entry (renewed e f)) gs ≡ any (same_entry f) gs
any-renewed e f [] h = refl
any-renewed e f (g ∷ gs) h = ground (arith, same_entry-renewed e f g h, any-renewed e f gs h)

same_entry-into :
    (f e g : Entry) → same_entry e g ≡ true → same_entry f (renewed e g) ≡ same_entry f g
unfolding same_entry
same_entry-into f e g h = same_entry-matches f.table f.values e g h

any-refresh :
    (f e : Entry) (gs : List Entry)
    → same_entry e f ≡ false
    → any (same_entry f) gs ≡ false
    → any (same_entry f) (refresh e gs) ≡ false
unfolding refresh
any-refresh f e [] other h = ground (arith, same_entry_sym f e)
any-refresh f e (g ∷ gs) other h = elim (Bool-cases (same_entry e g)) [
  | inl same ↦ ground (arith, same_entry-into f e g same)
  | inr differs ↦ ground (arith, any-refresh f e gs other)
]

keys_once-refresh :
    (e : Entry) (es : List Entry) → keys_once es ≡ true → keys_once (refresh e es) ≡ true
unfolding keys_once refresh
keys_once-refresh e [] h = refl
keys_once-refresh e (f ∷ fs) h = elim (Bool-cases (same_entry e f)) [
  | inl same ↦ ground (arith, any-renewed e f fs same)
  | inr other ↦ ground (arith, keys_once-refresh e fs, any-refresh f e fs other)
]

registered-refresh :
    (table : String) (e : Entry) (es : List Entry) (id : Text)
    → registered table es id ≡ true
    → registered table (refresh e es) id ≡ true
unfolding registered refresh
registered-refresh table e [] id h = absurd (cc)
registered-refresh table e (f ∷ fs) id h = elim (Bool-cases (same_entry e f)) [
  | inl same ↦ ground (arith, h)
  | inr other ↦ ground (arith, registered-refresh table e fs id)
]

refers-refresh :
    (e : Entry) (es : List Entry) (table : String) (id : Option Text)
    → refers es table id ≡ true
    → refers (refresh e es) table id ≡ true
unfolding refers
refers-refresh e es table none h = h
refers-refresh e es table (some id) h = registered-refresh table e es id h

parents_known-refresh :
    (e g : Entry) (es : List Entry)
    → parents_known g es ≡ true
    → parents_known g (refresh e es) ≡ true
unfolding parents_known
parents_known-refresh e g es h = ground (
  arith,
  refers-refresh e es "product" (value_of "product_id" g.values),
  refers-refresh e es "repo" (value_of "repo_id" g.values),
  refers-refresh e es "product_repo" (value_of "product_repo_id" g.values),
)

-- A row keeps its own constraints, and so does one that is refreshed by such a row.
pub record Constrained (all : List Entry) (e : Entry) : Type 0 where
  pub columns : columns_valid e ≡ true
  pub parents : parents_known e all ≡ true

Constrained-renewed :
    (all : List Entry) (e f : Entry)
    → same_entry e f ≡ true
    → Constrained all e
    → Constrained all (renewed e f)
unfolding columns_valid parents_known
Constrained-renewed all e f same s = record {
  columns =
      subst (λ t. columns_valid (record e { table = t }) ≡ true) (same_table e f same) s.columns;
  parents =
      subst (λ t. parents_known (record e { table = t }) all ≡ true) (same_table e f same)
        s.parents;
}

All-refresh :
    (all : List Entry) (e : Entry) (es : List Entry)
    → Constrained all e
    → All (Constrained all) es
    → All (Constrained all) (refresh e es)
unfolding refresh
All-refresh all e [] s h = (s, tt)
All-refresh all e (f ∷ fs) s (h, hs) = elim (Bool-cases (same_entry e f)) [
  | inl same ↦ rw same (Constrained-renewed all e f same s, hs)
  | inr other ↦ rw other (h, All-refresh all e fs s hs)
]

later :
    (e : Entry) (all es : List Entry)
    → All (Constrained all) es
    → All (Constrained (refresh e all)) es
later e all [] h = tt
later e all (f ∷ fs) (h, hs) = (
  record { columns = h.columns; parents = parents_known-refresh e f all h.parents },
  later e all fs hs,
)

both_first : (a b c : Bool) → (a && b && c) ≡ true → (a ≡ true) × (b ≡ true)
both_first a b c h = (ground arith, ground arith)

-- The registry fulfils its constraints (the NOT NULL columns with their CHECKs, the foreign keys, and
-- one row for each key), and every key that had an id before has it still.
pub record Keyed (before entries : List Entry) : Type 0 where
  pub rows : All (Constrained entries) entries
  pub once : keys_once entries ≡ true
  pub stable :
      (table : String) (key : List (String × Option Text)) (id : Text)
      → entry_id table key before ≡ some id
      → entry_id table key entries ≡ some id

pub Keyed-refresh :
    (before entries : List Entry) (e : Entry)
    → accepted e entries ≡ true
    → Keyed before entries
    → Keyed before (refresh e entries)
unfolding accepted
Keyed-refresh before entries e h k =
    let fits = both_first (columns_valid e) (parents_known e entries) _ h in
    record {
      rows =
          All-refresh (refresh e entries) e entries
            (record { columns = fits.0; parents = parents_known-refresh e e entries fits.1 })
            (later e entries entries k.rows);
      once = keys_once-refresh e entries k.once;
      stable = λ table key id found.
          entry_id-stable table key id e entries (k.stable table key id found);
    }
