-- ===== src/Downstream/Unnamed.antt =====
-- ci/bump_downstream.py: no entry begins in what `_pin_source` writes, nor in front of it.
use traust_contracts.Base.{
  ℕ, ◌==◌, ◌≡◌, ◌⊎◌, refl, sym, ◌∙◌, ap, Text, true, false, ==_iff, some, [], ◌∷◌, ◌++◌, arith,
  Bool-cases, inl, inr,
}
use traust_contracts.Py.{is_space}
use traust_contracts.Downstream.Pins.{Key, one, spaces, equals, key_at, after_brace, after_equals}
use traust_contracts.Downstream.Keys.{has_quote, is_some, space_r}
use traust_contracts.Downstream.Refill.{is_word, equals_again, equals-Sign}
use traust_contracts.Downstream.Repin.{space_quote}
use traust_contracts.Downstream.Lazy.{find_key_back}
use traust_contracts.Downstream.Named.{
  is_name, opens_brace, opens_entry, named_at, equals-opens_entry, name_head, name_tail,
  spaces_head,
}

gap_start :
    (before back gap : Text)
    → gap ≡ (spaces before).0 ++ b'=' ∷ back
    → (c : ℕ) × (rest : Text) × (gap ≡ c ∷ rest) × ((is_space c ≡ true) ⊎ (c ≡ b'='))
gap_start before back gap h = go (spaces before).0 refl
  where
    go :
        (front : Text)
        → (spaces before).0 ≡ front
        → (c : ℕ) × (rest : Text) × (gap ≡ c ∷ rest) × ((is_space c ≡ true) ⊎ (c ≡ b'='))
    go [] e = (b'=', back, h ∙ ap (λ x. x ++ b'=' ∷ back) e, inr refl)
    go (c ∷ front) e = (
      c,
      front ++ b'=' ∷ back,
      h ∙ ap (λ x. x ++ b'=' ∷ back) e,
      inl (spaces_head before c front e),
    )

not_named :
    (d c : ℕ) (dep rest : Text)
    → is_name (d ∷ dep) ≡ true
    → (is_space c ≡ true) ⊎ (c ≡ b'=')
    → named_at (d ∷ dep) (c ∷ rest) ≡ false
unfolding named_at
not_named d c dep rest h odd =
    let head = name_head d dep h in
    elim (Bool-cases (d == c)) [
      | inl same ↦ absurd (ground (arith, ==_iff d c, odd))
      | inr other ↦ rw other refl
    ]

pub unnamed_gap :
    (s gap tail z dep : Text)
    → equals s ≡ some (gap, tail)
    → is_name dep ≡ true
    → named_at dep (gap ++ b'"' ∷ z) ≡ false
unfolding named_at after_equals after_brace one
unnamed_gap s gap tail z [] e h =
    sym (equals-opens_entry [] (gap ++ b'"' ∷ z))
    ∙ ap (λ x. is_some (after_equals [] x)) (equals_again s gap tail z b'"' space_quote e)
unnamed_gap s gap tail z (d ∷ dep) e h =
    let sign = equals-Sign s gap tail e in
    let start = gap_start sign.before (spaces sign.beyond).0 gap sign.whole in
    ap (λ x. named_at (d ∷ dep) (x ++ b'"' ∷ z)) start.2
    ∙ not_named d start.0 dep (start.1 ++ b'"' ∷ z) h start.3

space_e : (is_space b'e' ≡ false) × (is_space b'v' ≡ false)
unfolding is_space
space_e = (refl, refl)

unnamed_rev :
    (f : Text)
    → ((dep : Text) → is_name dep ≡ true → named_at dep f ≡ false)
    → (dep : Text) → is_name dep ≡ true
    → named_at dep (b'r' ∷ b'e' ∷ b'v' ∷ f) ≡ false
unfolding named_at opens_entry
unnamed_rev f un [] h = ground (arith, space_r)
unnamed_rev f un (a ∷ []) h = ground (arith, space_e)
unnamed_rev f un (a ∷ b ∷ []) h = ground (arith, space_e)
unnamed_rev f un (a ∷ b ∷ c ∷ dep) h =
    ground (arith, un dep (name_tail c dep (name_tail b (c ∷ dep) (name_tail a (b ∷ c ∷ dep) h))))

module _ (a b c : ℕ) (o f : Text) (word : is_word a b c ≡ true) (q : has_quote o ≡ true) (key : Key)
    (there : key_at (a ∷ b ∷ c ∷ o) ≡ some key) where
  opens_brace_back :
      (x : Text)
      → opens_brace (x ++ b'r' ∷ b'e' ∷ b'v' ∷ f) ≡ true
      → opens_brace (x ++ a ∷ b ∷ c ∷ o) ≡ true
  unfolding opens_brace
  opens_brace_back [] h = absurd (ground (arith, space_r))
  opens_brace_back (d ∷ x) h =
      ground (arith, opens_brace_back x, find_key_back a b c o f word q key x there)

  opens_entry_back :
      (x : Text)
      → opens_entry (x ++ b'r' ∷ b'e' ∷ b'v' ∷ f) ≡ true
      → opens_entry (x ++ a ∷ b ∷ c ∷ o) ≡ true
  unfolding opens_entry
  opens_entry_back [] h = absurd (ground (arith, space_r))
  opens_entry_back (d ∷ x) h = ground (arith, opens_entry_back x, opens_brace_back x)

  -- An entry that begins in front of the key that is written began in front of the old one.
  pub named_back :
      ((dep : Text) → is_name dep ≡ true → named_at dep f ≡ false)
      → (dep x : Text) → is_name dep ≡ true
      → named_at dep (x ++ b'r' ∷ b'e' ∷ b'v' ∷ f) ≡ true
      → named_at dep (x ++ a ∷ b ∷ c ∷ o) ≡ true
  unfolding named_at
  named_back un [] x n h = opens_entry_back x h
  named_back un (d ∷ dep) [] n h = absurd (ground (arith, unnamed_rev f un (d ∷ dep) n))
  named_back un (d ∷ dep) (e ∷ x) n h = ground (arith, named_back un dep x (name_tail d dep n))
