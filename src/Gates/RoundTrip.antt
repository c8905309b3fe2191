-- ===== src/Gates/RoundTrip.antt =====
-- ci/gates.py: HEADER_RE reads back the header of a subject that is written by the convention.
use traust_contracts.Base.{
  after, ◌==◌, ◌≡◌, refl, ◌∙◌, ap, Text, codes, Bool, true, false, not, [], ◌∷◌, ◌++◌, Option, none,
  some, if◌then◌else◌, arith, any,
}
use mathlib.Core.List.{append_assoc}
use traust_contracts.Gates.Subjects.{
  Kind, build, chore, ci, docs, feat, fix, perf, refactor, revert, style, test, kinds, kind_text,
  match_kind, close_scope, match_scope, match_breaking, line_end, match_subject, match_tail, Header,
  match_header, header_from_kind, header_from_scope, header_from_mark, validate_subject,
}

-- `(scope)`, where there is one.
abbrev scope_text : Option Text → Text
scope_text none = []
scope_text (some s) = 40 ∷ s ++ 41 ∷ []

abbrev mark : Bool → Text
mark true = 33 ∷ []
mark false = []

-- `type(scope)!: subject`
abbrev pub subject_text : Kind → Option Text → Bool → Text → Text
subject_text k scope breaking s =
    kind_text k ++ (scope_text scope ++ (mark breaking ++ (58 ∷ 32 ∷ s)))

-- A scope that is not empty and has no closing parenthesis.
abbrev pub is_scope : Option Text → Bool
is_scope none = true
is_scope (some []) = false
is_scope (some (c ∷ s)) = not (any (λ d. d == 41) (c ∷ s))

-- A description that is not empty and has no line feed.
abbrev pub is_line : Text → Bool
is_line [] = false
is_line (c ∷ s) = not (any (λ d. d == 10) (c ∷ s))

match_kind-kind_text :
    (k : Kind) (rest : Text) → match_kind kinds (kind_text k ++ rest) ≡ some (k, rest)
unfolding match_kind kind_text after codes
match_kind-kind_text build rest = refl
match_kind-kind_text chore rest = refl
match_kind-kind_text ci rest = refl
match_kind-kind_text docs rest = refl
match_kind-kind_text feat rest = refl
match_kind-kind_text fix rest = refl
match_kind-kind_text perf rest = refl
match_kind-kind_text refactor rest = refl
match_kind-kind_text revert rest = refl
match_kind-kind_text style rest = refl
match_kind-kind_text test rest = refl

close_scope-append :
    (s rest : Text) → any (λ d. d == 41) s ≡ false → close_scope (s ++ 41 ∷ rest) ≡ some rest
unfolding close_scope
close_scope-append [] rest h = refl
close_scope-append (c ∷ s) rest h = ground (arith, close_scope-append s rest)

line_end-lem : (s : Text) → any (λ d. d == 10) s ≡ false → line_end s ≡ true
unfolding line_end
line_end-lem [] h = refl
line_end-lem (c ∷ []) h = refl
line_end-lem (c ∷ d ∷ s) h = ground (arith, line_end-lem (d ∷ s))

match_tail-line : (s : Text) → is_line s ≡ true → match_tail (58 ∷ 32 ∷ s) ≡ true
unfolding match_tail match_subject after
match_tail-line [] h = cc
match_tail-line (c ∷ s) h = ground (arith, line_end-lem (c ∷ s))

match_breaking-mark :
    (breaking : Bool) (s : Text)
    → match_breaking (mark breaking ++ (58 ∷ 32 ∷ s)) ≡ (breaking, 58 ∷ 32 ∷ s)
unfolding match_breaking
match_breaking-mark true s = refl
match_breaking-mark false s = refl

match_scope-scope_text :
    (scope : Option Text) (breaking : Bool) (s : Text)
    → is_scope scope ≡ true
    → match_scope (scope_text scope ++ (mark breaking ++ (58 ∷ 32 ∷ s)))
      ≡ some (mark breaking ++ (58 ∷ 32 ∷ s))
unfolding match_scope
match_scope-scope_text none true s h = refl
match_scope-scope_text none false s h = refl
match_scope-scope_text (some []) breaking s h = cc
match_scope-scope_text (some (c ∷ scope)) breaking s h =
    rw (append_assoc scope (41 ∷ []) (mark breaking ++ (58 ∷ 32 ∷ s)))
      (ground (arith, close_scope-append scope (mark breaking ++ (58 ∷ 32 ∷ s))))

-- A subject that HEADER_RE matches has no error.
validate_subject-match_header :
    (s : Text) {h : Header} → match_header s ≡ some h → validate_subject s ≡ true
unfolding validate_subject
validate_subject-match_header s e = ground arith

match_header-subject_text :
    (k : Kind) (scope : Option Text) (breaking : Bool) (s : Text)
    → is_scope scope ≡ true
    → is_line s ≡ true
    → match_header (subject_text k scope breaking s)
      ≡ some (record { kind = k; breaking = breaking })
unfolding match_header header_from_kind header_from_scope header_from_mark
match_header-subject_text k scope breaking s hs hl =
    ap header_from_kind
      (match_kind-kind_text k (scope_text scope ++ (mark breaking ++ (58 ∷ 32 ∷ s))))
    ∙ ap (header_from_scope k) (match_scope-scope_text scope breaking s hs)
    ∙ ap (header_from_mark k) (match_breaking-mark breaking s)
    ∙ ap (λ b. if b then some (record { kind = k; breaking = breaking }) else none)
        (match_tail-line s hl)

-- `validate_subject` accepts, and HEADER_RE matches, a subject of the form type(scope)!: description, with or without the scope and
-- the mark, and the match reads back its type and its mark. The scope is not empty and has no closing
-- parenthesis, the description is not empty and has no line feed.
pub validate_subject-subject_text :
    (k : Kind) (scope : Option Text) (breaking : Bool) (s : Text)
    → is_scope scope ≡ true
    → is_line s ≡ true
    → (validate_subject (subject_text k scope breaking s) ≡ true)
      × (match_header (subject_text k scope breaking s)
          ≡ some (record { kind = k; breaking = breaking }))
validate_subject-subject_text k scope breaking s hs hl =
    let e = match_header-subject_text k scope breaking s hs hl in
    (validate_subject-match_header (subject_text k scope breaking s) e, e)
