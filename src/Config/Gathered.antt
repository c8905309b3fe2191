-- ===== src/Config/Gathered.antt =====
-- config.py: what the comprehension of `readable_scopes` gathers.
use traust_contracts.Base.{
  ◌≡◌, ◌≢◌, refl, sym, ◌∙◌, Text, text_eq, text_eq_iff, text_eq_refl, ap, subst, elem, distinct,
  distinct_texts, true, false, List, [], ◌∷◌, Result, err, ok, ◌>>=◌, if◌then◌else◌, arith,
  Bool-cases, inl, inr,
}
use traust_contracts.Config.Slug.{Characters}
use traust_contracts.Config.Corpus.{
  CorpusConfig, tree_meta, scope_for, in_corpus, scopes_of, some_scope,
}

pub elem-distinct : (t : Text) (ts : List Text) → elem t (distinct ts) ≡ elem t ts
unfolding elem distinct
elem-distinct t [] = refl
elem-distinct t (x ∷ ts) = ground (arith, elem-distinct t ts, text_eq_iff t x)

pub distinct-distinct : (ts : List Text) → distinct_texts (distinct ts) ≡ true
unfolding elem distinct distinct_texts
distinct-distinct [] = refl
distinct-distinct (x ∷ ts) = ground (arith, distinct-distinct ts, elem-distinct x ts)

both_ok :
    (r : Result Text) (m : Result (List Text)) {scopes : List Text}
    → r >>= (λ s. m >>= λ ss. ok (s ∷ ss)) ≡ ok scopes
    → (s : Text) × (more : List Text) × (r ≡ ok s) × (m ≡ ok more) × (scopes ≡ s ∷ more)
both_ok (err e) m h = absurd (cc)
both_ok (ok s) (err e) h = absurd (cc)
both_ok (ok s) (ok more) h = (s, more, refl, refl, ground arith)

pub some_scope-ok :
    (found : List Text) {scopes : List Text}
    → some_scope found ≡ ok scopes
    → (found ≡ scopes) × (scopes ≢ [])
unfolding some_scope
some_scope-ok [] h = absurd (cc)
some_scope-ok (s ∷ ss) h = (ground arith, λ e. cc)

module _ (chars : Characters) (config : CorpusConfig) where
  pub record Member (trees : List Text) (scope : Text) : Type 0 where
    pub tree : Text
    pub listed : elem tree trees ≡ true
    pub counted : in_corpus (tree_meta config tree) ≡ true
    pub written : scope_for chars config tree ≡ ok scope

  pub record Gathered (trees scopes : List Text) : Type 0 where
    pub sound : (scope : Text) → elem scope scopes ≡ true → Member trees scope
    pub complete :
        (tree : Text)
        → elem tree trees ≡ true
        → in_corpus (tree_meta config tree) ≡ true
        → (scope : Text) × (scope_for chars config tree ≡ ok scope) × (elem scope scopes ≡ true)

  widen :
      (tree : Text) (trees : List Text) {scope : Text}
      → Member trees scope
      → Member (tree ∷ trees) scope
  unfolding elem
  widen tree trees w = record {
    tree = w.tree;
    listed = ground (arith, w.listed);
    counted = w.counted;
    written = w.written;
  }

  none-Gathered : Gathered [] []
  unfolding elem
  none-Gathered = record { sound = λ scope h. absurd (cc); complete = λ tree h c. absurd (cc) }

  skip-Gathered :
      (tree : Text) (rest scopes : List Text)
      → in_corpus (tree_meta config tree) ≡ false
      → Gathered rest scopes
      → Gathered (tree ∷ rest) scopes
  unfolding elem
  skip-Gathered tree rest scopes left_out r = record {
    sound = λ scope h. widen tree rest (r.sound scope h);
    complete = λ t h c. elim (Bool-cases (text_eq t tree)) [
      | inl same ↦ absurd (ground (arith, text_eq_iff t tree))
      | inr other ↦ r.complete t (ground arith) c
    ];
  }

  keep-Gathered :
      (tree : Text) (rest : List Text) (s : Text) (more : List Text)
      → in_corpus (tree_meta config tree) ≡ true
      → scope_for chars config tree ≡ ok s
      → Gathered rest more
      → Gathered (tree ∷ rest) (s ∷ more)
  unfolding elem
  keep-Gathered tree rest s more counted written r = record {
    sound = λ scope h. elim (Bool-cases (text_eq scope s)) [
      | inl same ↦ record {
        tree = tree;
        listed = ground (arith, text_eq_refl tree);
        counted = counted;
        written = written ∙ ap ok (sym ((text_eq_iff scope s).0 same));
      }
      | inr other ↦ widen tree rest (r.sound scope (ground arith))
    ];
    complete = λ t h c. elim (Bool-cases (text_eq t tree)) [
      | inl same ↦ (
        s,
        ap (λ x. scope_for chars config x) ((text_eq_iff t tree).0 same) ∙ written,
        ground (arith, text_eq_refl s),
      )
      | inr other ↦
          let found = r.complete t (ground arith) c in (found.0, found.1, ground (arith, found.2))
    ];
  }

  kept :
      (tree : Text) (rest : List Text) {scopes : List Text}
      → in_corpus (tree_meta config tree) ≡ true
      → scopes_of chars config (tree ∷ rest) ≡ ok scopes
      → (s : Text) × (more : List Text) × (scope_for chars config tree ≡ ok s)
        × (scopes_of chars config rest ≡ ok more)
        × (scopes ≡ s ∷ more)
  unfolding scopes_of
  kept tree rest {scopes} counted h =
      both_ok (scope_for chars config tree) (scopes_of chars config rest) (
        subst
          (λ b.
            (if b
              then scope_for chars config tree
                >>= (λ s. scopes_of chars config rest >>= λ ss. ok (s ∷ ss))
              else scopes_of chars config rest)
            ≡ ok scopes)
          counted h)

  pub same-Gathered :
      (trees xs ys : List Text)
      → ((t : Text) → elem t ys ≡ elem t xs)
      → Gathered trees xs
      → Gathered trees ys
  same-Gathered trees xs ys same r = record {
    sound = λ scope h. r.sound scope (sym (same scope) ∙ h);
    complete = λ t h c. let found = r.complete t h c in (found.0, found.1, same found.0 ∙ found.2);
  }

  pub scopes_of-Gathered :
      (trees : List Text) {scopes : List Text}
      → scopes_of chars config trees ≡ ok scopes
      → Gathered trees scopes
  unfolding scopes_of
  scopes_of-Gathered [] {scopes} h = subst (λ xs. Gathered [] xs) (ground arith) none-Gathered
  scopes_of-Gathered (tree ∷ rest) {scopes} h =
      elim (Bool-cases (in_corpus (tree_meta config tree))) [
        | inl counted ↦
            let parts = kept tree rest counted h in
            subst (λ xs. Gathered (tree ∷ rest) xs) (sym parts.4)
              (keep-Gathered tree rest parts.0 parts.1 counted parts.2
                (scopes_of-Gathered rest parts.3))
        | inr left_out ↦
            skip-Gathered tree rest scopes left_out (scopes_of-Gathered rest (ground arith))
      ]
