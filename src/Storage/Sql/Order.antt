-- ===== src/Storage/Sql/Order.antt =====
-- v1/sql.py: `bootstrap_files` has each table and each view once, the tables first.
use traust_contracts.Base.{
  ◌≡◌, ◌↔◌, refl, sym, ◌∙◌, ap, Text, text_eq_iff, text_eq_refl, elem, elem-append, distinct_texts,
  sorted, Bool, true, false, List, [], ◌∷◌, ◌++◌, ok, arith, Bool-cases, inl, inr,
}
use mathlib.Core.List.{append-nil, append_assoc, map-append}
use traust_contracts.Storage.Exec.{Dialect}
use traust_contracts.Storage.Sql.Defs.{
  Listing, schema, views, File, absent, remaining, present_of, namespace, namespace_absent,
  order_files, in_folder, is_empty,
}
use traust_contracts.Storage.Sql.Names.{
  elem-absent, elem-present_of, elem-sorted, distinct-sorted, distinct-absent, distinct-present_of,
  distinct-append,
}

-- The files are the namespace, the tables and then the views, each once.
pub record Ordered (listing : Listing) (dialect : Dialect) (first_tables view_order : List Text)
    (files : List File) : Type 0 where
  pub others : List Text
  pub view_names : List Text
  pub whole :
      files
      ≡ namespace dialect ++ in_folder schema (first_tables ++ others) ++ in_folder views view_names
  pub every_table : (t : Text) → elem t (first_tables ++ others) ≡ elem t listing.schema_files
  pub every_view : (t : Text) → elem t view_names ≡ elem t listing.view_files
  pub tables_once :
      distinct_texts first_tables ≡ true
      → distinct_texts listing.schema_files ≡ true
      → distinct_texts (first_tables ++ others) ≡ true
  pub views_once :
      distinct_texts view_order ≡ true
      → distinct_texts listing.view_files ≡ true
      → distinct_texts view_names ≡ true

absent-empty :
    (names present : List Text)
    → is_empty (absent names present) ≡ true
    → (t : Text) → elem t names ≡ true
    → elem t present ≡ true
unfolding absent elem
absent-empty [] present h t e = cc
absent-empty (n ∷ names) present h t e = elim (Bool-cases (elem n present)) [
  | inl there ↦
      let rest : is_empty (absent names present) ≡ true = ground arith in
      ground (arith, absent-empty names present rest t, text_eq_iff t n)
  | inr gone ↦ absurd (ground arith)
]

regroup :
    (ns : List File) (a b c d : List Text)
    → ns ++ in_folder schema a ++ in_folder schema b ++ in_folder views c ++ in_folder views d
      ≡ ns ++ in_folder schema (a ++ b) ++ in_folder views (c ++ d)
regroup ns a b c d = simp (append_assoc, map-append)

module _ (listing : Listing) (dialect : Dialect) (tables order : List Text) (exact : Bool) where
  abbrev left_tables : List Text
  left_tables = sorted (remaining tables listing.schema_files)

  abbrev ordered_views : List Text
  ordered_views = present_of order listing.view_files ++ sorted (remaining order listing.view_files)

  every_table_lem :
      is_empty (absent tables listing.schema_files) ≡ true
      → (t : Text) → elem t (tables ++ left_tables) ≡ elem t listing.schema_files
  unfolding remaining
  every_table_lem h t =
      let there = absent-empty tables listing.schema_files h t in
      ground (
        arith,
        elem-append t tables left_tables,
        elem-sorted t (absent listing.schema_files tables),
        elem-absent t listing.schema_files tables,
      )

  every_view_lem : (t : Text) → elem t ordered_views ≡ elem t listing.view_files
  unfolding remaining
  every_view_lem t = ground (
    arith,
    elem-append t (present_of order listing.view_files) (sorted (absent listing.view_files order)),
    elem-present_of t order listing.view_files,
    elem-sorted t (absent listing.view_files order),
    elem-absent t listing.view_files order,
  )

  tables_once_lem :
      distinct_texts tables ≡ true
      → distinct_texts listing.schema_files ≡ true
      → distinct_texts (tables ++ left_tables) ≡ true
  unfolding remaining
  tables_once_lem dt ds =
      distinct-append tables left_tables dt
        (distinct-sorted (absent listing.schema_files tables)
          (distinct-absent listing.schema_files tables ds))
        λ t h. ground (
          arith,
          elem-sorted t (absent listing.schema_files tables),
          elem-absent t listing.schema_files tables,
        )

  views_once_lem :
      distinct_texts order ≡ true
      → distinct_texts listing.view_files ≡ true
      → distinct_texts ordered_views ≡ true
  unfolding remaining
  views_once_lem dt ds =
      distinct-append (present_of order listing.view_files)
        (sorted (absent listing.view_files order)) (distinct-present_of order listing.view_files dt)
        (distinct-sorted (absent listing.view_files order)
          (distinct-absent listing.view_files order ds))
        λ t h. ground (
          arith,
          elem-sorted t (absent listing.view_files order),
          elem-present_of t order listing.view_files,
          elem-absent t listing.view_files order,
        )

  laid_out :
      {files : List File}
      → order_files listing dialect tables order exact ≡ ok files
      → files
        ≡ namespace dialect
          ++ in_folder schema tables
          ++ in_folder schema left_tables
          ++ in_folder views (present_of order listing.view_files)
          ++ in_folder views (sorted (remaining order listing.view_files))
  unfolding order_files
  laid_out h = ground arith

  -- Where `bootstrap_files` of v1/sql.py returns, its list is the namespace on PostgreSQL, then every
  -- schema file, `first_tables` first, then every view, and it names none twice when the directory's
  -- listing, `first_tables` and `view_order` do not.
  pub order_files-Ordered :
      {files : List File}
      → order_files listing dialect tables order exact ≡ ok files
      → Ordered listing dialect tables order files
  unfolding order_files
  order_files-Ordered {files} h = record {
    others = left_tables;
    view_names = ordered_views;
    whole =
        laid_out h
        ∙ regroup (namespace dialect) tables left_tables (present_of order listing.view_files)
            (sorted (remaining order listing.view_files));
    every_table = every_table_lem (ground arith);
    every_view = every_view_lem;
    tables_once = tables_once_lem;
    views_once = views_once_lem;
  }

absent-subset :
    (names present : List Text)
    → ((t : Text) → elem t names ≡ true → elem t present ≡ true)
    → is_empty (absent names present) ≡ true
unfolding absent elem
absent-subset [] present h = refl
absent-subset (n ∷ names) present h =
    let here : elem n present ≡ true = h n (ground (arith, text_eq_refl n)) in
    rw here (absent-subset names present (λ t e. h t (ground arith)))

is_empty-nil : (xs : List Text) → is_empty xs ≡ true → xs ≡ []
is_empty-nil [] h = refl
is_empty-nil (x ∷ xs) h = cc

module _ (listing : Listing) (dialect : Dialect) (tables order : List Text) where
  remaining-nil :
      {files : List File}
      → order_files listing dialect tables order true ≡ ok files
      → remaining tables listing.schema_files ≡ []
  unfolding order_files
  remaining-nil h = ground (arith, is_empty-nil (remaining tables listing.schema_files))

  sorted-remaining :
      {files : List File}
      → order_files listing dialect tables order true ≡ ok files
      → sorted (remaining tables listing.schema_files) ≡ []
  unfolding sorted
  sorted-remaining h = rw (remaining-nil h) refl

  -- The list that `bootstrap_files` of v1/sql.py returns with `exact_tables`.
  abbrev pub exact_list : List File
  exact_list =
      namespace dialect
      ++ in_folder schema tables
      ++ in_folder views
          (present_of order listing.view_files ++ sorted (remaining order listing.view_files))

  exact_list_lem :
      {files : List File}
      → order_files listing dialect tables order true ≡ ok files
      → files ≡ exact_list
  exact_list_lem h =
      let none_left = sorted-remaining h in
      let view_files =
        present_of order listing.view_files ++ sorted (remaining order listing.view_files) in
      laid_out listing dialect tables order true h
      ∙ regroup (namespace dialect) tables (sorted (remaining tables listing.schema_files))
          (present_of order listing.view_files) (sorted (remaining order listing.view_files))
      ∙ ap
          (λ xs. namespace dialect ++ in_folder schema (tables ++ xs) ++ in_folder views view_files)
          none_left
      ∙ ap (λ xs. namespace dialect ++ in_folder schema xs ++ in_folder views view_files)
          (append-nil tables)

  exact_tables_lem :
      {files : List File}
      → order_files listing dialect tables order true ≡ ok files
      → (t : Text) → elem t listing.schema_files ≡ elem t tables
  unfolding order_files
  exact_tables_lem h t =
      sym (every_table_lem listing dialect tables order true (ground arith) t)
      ∙ ap (λ xs. elem t (tables ++ xs)) (sorted-remaining h)
      ∙ ap (λ xs. elem t xs) (append-nil tables)

  namespace_there :
      {files : List File}
      → order_files listing dialect tables order true ≡ ok files
      → namespace_absent dialect listing.namespace_present ≡ false
  unfolding order_files
  namespace_there h = ground arith

  abbrev built_list : List File
  built_list =
      namespace dialect
      ++ in_folder schema tables
      ++ in_folder schema (sorted (remaining tables listing.schema_files))
      ++ in_folder views (present_of order listing.view_files)
      ++ in_folder views (sorted (remaining order listing.view_files))

  returned_list :
      ((t : Text) → elem t listing.schema_files ≡ elem t tables)
      → namespace_absent dialect listing.namespace_present ≡ false
      → order_files listing dialect tables order true ≡ ok built_list
  unfolding order_files remaining
  returned_list same there =
      let all_there = absent-subset tables listing.schema_files (λ t h. same t ∙ h) in
      let no_more = absent-subset listing.schema_files tables (λ t h. sym (same t) ∙ h) in
      rw (all_there, no_more, there) refl

  -- With `exact_tables`, `bootstrap_files` of v1/sql.py returns a list exactly where the directory has
  -- the files of `first_tables` and no other schema file, and the namespace on PostgreSQL, and the
  -- list is the namespace on PostgreSQL, the tables in their order, and the views.
  pub order_files-exact :
      (files : List File)
      → (order_files listing dialect tables order true ≡ ok files) ↔ (
          ((t : Text) → elem t listing.schema_files ≡ elem t tables)
          × (namespace_absent dialect listing.namespace_present ≡ false)
          × (files ≡ exact_list))
  order_files-exact files = (
    λ h. (exact_tables_lem h, namespace_there h, exact_list_lem h),
    λ (same, there, laid).
        let done = returned_list same there in done ∙ ap ok (exact_list_lem done ∙ sym laid),
  )
