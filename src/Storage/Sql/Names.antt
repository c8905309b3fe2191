-- ===== src/Storage/Sql/Names.antt =====
-- v1/sql.py: which names its lists of files have, and how often.
use traust_contracts.Base.{
  ◌≡◌, refl, ◌∙◌, ap, Text, text_eq, text_eq_iff, text_eq_refl, elem, elem-append, distinct_texts,
  insert_sorted, sorted, true, false, not, ◌&&◌, ◌||◌, List, [], ◌∷◌, ◌++◌, arith,
}
use traust_contracts.Storage.Sql.Defs.{absent, present_of}

pub elem-absent :
    (t : Text) (names present : List Text)
    → elem t (absent names present) ≡ (elem t names && not (elem t present))
unfolding elem absent
elem-absent t [] present = refl
elem-absent t (n ∷ names) present = ground (arith, elem-absent t names present, text_eq_iff t n)

pub elem-present_of :
    (t : Text) (names present : List Text)
    → elem t (present_of names present) ≡ (elem t names && elem t present)
unfolding elem present_of
elem-present_of t [] present = refl
elem-present_of t (n ∷ names) present =
    ground (arith, elem-present_of t names present, text_eq_iff t n)

pub elem-insert_sorted :
    (t s : Text) (ts : List Text) → elem t (insert_sorted s ts) ≡ (text_eq t s || elem t ts)
unfolding elem insert_sorted
elem-insert_sorted t s [] = refl
elem-insert_sorted t s (x ∷ ts) = ground (arith, elem-insert_sorted t s ts)

pub elem-sorted : (t : Text) (ts : List Text) → elem t (sorted ts) ≡ elem t ts
unfolding elem sorted
elem-sorted t [] = refl
elem-sorted t (x ∷ ts) =
    elem-insert_sorted t x (sorted ts) ∙ ap (λ b. text_eq t x || b) (elem-sorted t ts)

pub distinct-insert_sorted :
    (s : Text) (ts : List Text)
    → distinct_texts ts ≡ true
    → elem s ts ≡ false
    → distinct_texts (insert_sorted s ts) ≡ true
unfolding elem insert_sorted distinct_texts
distinct-insert_sorted s [] d e = refl
distinct-insert_sorted s (x ∷ ts) d e = ground (
  arith,
  distinct-insert_sorted s ts,
  elem-insert_sorted x s ts,
  text_eq_iff s x,
  text_eq_iff x s,
)

pub distinct-sorted :
    (ts : List Text) → distinct_texts ts ≡ true → distinct_texts (sorted ts) ≡ true
unfolding elem sorted distinct_texts
distinct-sorted [] d = refl
distinct-sorted (x ∷ ts) d =
    distinct-insert_sorted x (sorted ts) (distinct-sorted ts (ground arith))
      (ground (arith, elem-sorted x ts))

pub distinct-absent :
    (names present : List Text)
    → distinct_texts names ≡ true
    → distinct_texts (absent names present) ≡ true
unfolding elem absent distinct_texts
distinct-absent [] present d = refl
distinct-absent (n ∷ names) present d =
    ground (arith, distinct-absent names present, elem-absent n names present)

pub distinct-present_of :
    (names present : List Text)
    → distinct_texts names ≡ true
    → distinct_texts (present_of names present) ≡ true
unfolding elem present_of distinct_texts
distinct-present_of [] present d = refl
distinct-present_of (n ∷ names) present d =
    ground (arith, distinct-present_of names present, elem-present_of n names present)

pub distinct-append :
    (xs ys : List Text)
    → distinct_texts xs ≡ true
    → distinct_texts ys ≡ true
    → ((t : Text) → elem t xs ≡ true → elem t ys ≡ false)
    → distinct_texts (xs ++ ys) ≡ true
unfolding elem distinct_texts
distinct-append [] ys dx dy apart = dy
distinct-append (x ∷ xs) ys dx dy apart =
    let here = apart x (ground (arith, text_eq_refl x)) in
    let rest = distinct-append xs ys (ground arith) dy (λ t h. apart t (ground arith)) in
    ground (arith, elem-append x xs ys)
