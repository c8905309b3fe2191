-- ===== src/Storage/Identity/References.antt =====
-- What `_references` of v1/storage/store.py returns.
use traust_contracts.Base.{
  ◌≡◌, ◌≢◌, refl, ◌∙◌, subst, Text, text_eq, text_eq_iff, elem, elem-append, distinct_texts, Bool,
  true, false, ◌||◌, List, [], ◌∷◌, ◌++◌, ok, >>=-ok, arith, All, All-append, if◌then◌else◌,
  Bool-cases, inl, inr,
}
use traust_contracts.Storage.Identity.Defs.{identifier_bytes, references, dedup}

abbrev pub NonEmpty : Text → Type 0
NonEmpty s = s ≢ []

distinct-snoc :
    (xs : List Text) (s : Text)
    → distinct_texts xs ≡ true
    → elem s xs ≡ false
    → distinct_texts (xs ++ s ∷ []) ≡ true
unfolding elem distinct_texts
distinct-snoc [] s h e = refl
distinct-snoc (x ∷ xs) s h e =
    ground (arith, distinct-snoc xs s, elem-append x xs (s ∷ []), text_eq_iff s x, text_eq_iff x s)

extend : List Text → Text → List Text
extend seen s = if elem s seen then seen else seen ++ s ∷ []

extend-distinct :
    (seen : List Text) (s : Text)
    → distinct_texts seen ≡ true
    → distinct_texts (extend seen s) ≡ true
unfolding extend
extend-distinct seen s h = elim (Bool-cases (elem s seen)) [
  | inl old ↦ rw old h
  | inr new ↦ rw new (distinct-snoc seen s h new)
]

extend-All :
    (seen : List Text) (s : Text) → NonEmpty s → All NonEmpty seen → All NonEmpty (extend seen s)
unfolding extend
extend-All seen s n h = elim (Bool-cases (elem s seen)) [
  | inl old ↦ rw old h
  | inr new ↦ rw new (All-append NonEmpty seen (s ∷ []) h (n, tt))
]

extend-elem :
    (seen : List Text) (s t : Text) → elem t (extend seen s) ≡ (elem t seen || text_eq t s)
unfolding extend elem
extend-elem seen s t = ground (arith, elem-append t seen (s ∷ []), text_eq_iff t s, text_eq_iff s t)

or_assoc_under : (a b c d : Bool) → a ≡ (b || c) → (a || d) ≡ (b || (c || d))
or_assoc_under a b c d e = ground arith

-- The result and the texts, by what the loop has seen.
record Deduplicated (seen refs out : List Text) : Type 0 where
  filled : All NonEmpty out
  distinct : distinct_texts out ≡ true
  same : (t : Text) → elem t out ≡ (elem t seen || elem t refs)

dedup-Deduplicated :
    (seen refs : List Text) {out : List Text}
    → All NonEmpty seen
    → distinct_texts seen ≡ true
    → dedup seen refs ≡ ok out
    → Deduplicated seen refs out
unfolding dedup elem extend
dedup-Deduplicated seen [] {out} n d h =
    let same : seen ≡ out = cc in
    subst (λ x. Deduplicated seen [] x) same
      (record { filled = n; distinct = d; same = λ t. ground arith })
dedup-Deduplicated seen ([] ∷ rest) n d h = absurd (cc)
dedup-Deduplicated seen ((c ∷ s) ∷ rest) {out} n d h =
    let (bytes, hb, more) = >>=-ok (identifier_bytes "references" (c ∷ s)) _ h in
    let r =
      dedup-Deduplicated (extend seen (c ∷ s)) rest (extend-All seen (c ∷ s) (λ e. cc) n)
        (extend-distinct seen (c ∷ s) d) more in
    record {
      filled = r.filled;
      distinct = r.distinct;
      same = λ t. r.same t ∙ or_assoc_under _ (elem t seen) _ _ (extend-elem seen (c ∷ s) t);
    }

-- Where `_references` returns, it has every reference given, once and none empty, and no other.
pub references-distinct :
    (refs out : List Text)
    → references refs ≡ ok out
    → All NonEmpty out × (distinct_texts out ≡ true) × ((t : Text) → elem t out ≡ elem t refs)
unfolding references elem distinct_texts
references-distinct refs out h =
    let d = dedup-Deduplicated [] refs tt refl h in (d.filled, d.distinct, d.same)
