-- ===== src/Storage/Sql/Statements.antt =====
-- v1/sql.py: `bootstrap_statements`.
use traust_contracts.Base.{
  ℕ, ◌≡◌, refl, sym, ◌∙◌, ap, ◌==◌, Text, Bool, true, false, not, ◌&&◌, ◌||◌, List, [], ◌∷◌, ◌++◌,
  if◌then◌else◌, Result, ok, err, value_error, arith, leb, Bool-cases, inl, inr, All,
}
use mathlib.Core.List.{append-nil, append_assoc}
use traust_contracts.Storage.Exec.{Dialect, sqlite, postgres}

-- The line boundaries of `str.splitlines`, but for "\r\n", which is one.
abbrev ends_line : ℕ → Bool
ends_line c = (leb 10 c && leb c 13) || (leb 28 c && leb c 30) || c == 133 || c == 8232 || c == 8233

abbrev carriage_return : ℕ → Text → Bool
carriage_return c [] = false
carriage_return c (d ∷ rest) = c == 13 && d == 10

abbrev onto_first : ℕ → List Text → List Text
onto_first c [] = (c ∷ []) ∷ []
onto_first c (line ∷ lines) = (c ∷ line) ∷ lines

-- `text.splitlines(keepends=True)`
unfoldable pub split_lines : Text → List Text
split_lines [] = []
split_lines (c ∷ rest) =
    let lines = split_lines rest in
    if ends_line c && not (carriage_return c rest) then (c ∷ []) ∷ lines else onto_first c lines

abbrev is_space : ℕ → Bool
is_space c =
    (leb 9 c && leb c 13)
    || (leb 28 c && leb c 32)
    || c == 133
    || c == 160
    || c == 5760
    || (leb 8192 c && leb c 8202)
    || c == 8232
    || c == 8233
    || c == 8239
    || c == 8287
    || c == 12288

-- `line.lstrip()`
unfoldable pub left_stripped : Text → Text
left_stripped [] = []
left_stripped (c ∷ s) = let rest = left_stripped s in if is_space c then rest else c ∷ s

abbrev is_comment : Text → Bool
is_comment (c ∷ d ∷ s) = c == 45 && d == 45
is_comment _ = false

abbrev blank : Text → Bool
blank [] = true
blank (c ∷ s) = false

-- Whether a line of the leftover counts: it is neither blank nor a comment.
unfoldable pub is_code : Text → Bool
unfolding left_stripped
is_code line = not (is_comment (left_stripped line)) && not (blank (left_stripped line))

unfoldable pub any_code : List Text → Bool
unfolding is_code
any_code [] = false
any_code (l ∷ ls) = is_code l || any_code ls

unfoldable pub concat : List Text → Text
concat [] = []
concat (s ∷ ss) = s ++ concat ss

concat-onto_first : (c : ℕ) (lines : List Text) → concat (onto_first c lines) ≡ c ∷ concat lines
unfolding concat
concat-onto_first c [] = refl
concat-onto_first c (line ∷ lines) = refl

pub split_lines-concat : (s : Text) → concat (split_lines s) ≡ s
unfolding concat split_lines
split_lines-concat [] = refl
split_lines-concat (c ∷ rest) = elim (Bool-cases (ends_line c && not (carriage_return c rest))) [
  | inl last ↦ rw last (ap (λ s. c ∷ s) (split_lines-concat rest))
  | inr inside ↦
      rw inside (concat-onto_first c (split_lines rest) ∙ ap (λ s. c ∷ s) (split_lines-concat rest))
]

module _ (complete : Text → Bool) where
  -- The loop over the lines: what it yields, and what it has left at the end.
  unfoldable pub statements_from : Text → List Text → List Text × Text
  statements_from statement [] = ([], statement)
  statements_from statement (line ∷ lines) =
      let fresh = statements_from [] lines in
      let same = statements_from (statement ++ line) lines in
      if complete (statement ++ line) then ((statement ++ line) ∷ fresh.0, fresh.1) else same

  -- `bootstrap_statements` of a file's text: the statements, and how the generator ends.
  unfoldable pub bootstrap_statements : Dialect → Text → List Text × Result (Unit {0})
  unfolding statements_from split_lines any_code
  bootstrap_statements postgres sql = (sql ∷ [], ok tt)
  bootstrap_statements sqlite sql =
      let (statements, leftover) = statements_from [] (split_lines sql) in
      (statements, (if any_code (split_lines leftover) then err value_error else ok tt))

  statements_from-concat :
      (statement : Text) (lines : List Text)
      → concat (statements_from statement lines).0 ++ (statements_from statement lines).1
        ≡ statement ++ concat lines
  unfolding concat statements_from
  statements_from-concat statement [] = sym (append-nil statement)
  statements_from-concat statement (line ∷ lines) =
      elim (Bool-cases (complete (statement ++ line))) [
        | inl whole ↦ rw whole (
            append_assoc (statement ++ line) (concat (statements_from [] lines).0)
              (statements_from [] lines).1
            ∙ ap (λ s. (statement ++ line) ++ s) (statements_from-concat [] lines)
            ∙ append_assoc statement line (concat lines))
        | inr part ↦ rw part (
            statements_from-concat (statement ++ line) lines
            ∙ append_assoc statement line (concat lines))
      ]

  statements_from-All :
      (statement : Text) (lines : List Text)
      → All (λ s. complete s ≡ true) (statements_from statement lines).0
  unfolding statements_from
  statements_from-All statement [] = tt
  statements_from-All statement (line ∷ lines) = elim (Bool-cases (complete (statement ++ line))) [
    | inl whole ↦ rw whole (whole, statements_from-All [] lines)
    | inr part ↦ rw part (statements_from-All (statement ++ line) lines)
  ]

  -- On SQLite the statements are the text cut into pieces, each complete, and what is left over after
  -- the last, of which no line is code when the generator ends without an exception.
  pub bootstrap_statements-whole :
      (sql : Text)
      → (leftover : Text) × (concat (bootstrap_statements sqlite sql).0 ++ leftover ≡ sql)
        × All (λ s. complete s ≡ true) (bootstrap_statements sqlite sql).0
        × ((bootstrap_statements sqlite sql).1 ≡ ok tt → any_code (split_lines leftover) ≡ false)
  unfolding bootstrap_statements
  bootstrap_statements-whole sql = (
    (statements_from [] (split_lines sql)).1,
    statements_from-concat [] (split_lines sql) ∙ split_lines-concat sql,
    statements_from-All [] (split_lines sql),
    λ h. ground arith,
  )
