-- ===== src/Config/Dashes.antt =====
-- config.py: what `scope_slug` returns.
use traust_contracts.Base.{
  ◌≡◌, refl, if◌then◌else◌, ◌==◌, ℕ, zero, suc, ◌≤◌, ◌<◌, Text, Bool, true, false, ◌&&◌, ◌||◌, [],
  ◌∷◌, map, length, any, not, arith,
}
use traust_contracts.Config.Slug.{
  Characters, dash, starts_dash, has_double, replace_doubles, collapse, strip_left, strip_right,
  keep_right, dashed, scope_slug,
}

-- The last character is a dash.
unfoldable pub ends_dash : Text → Bool
ends_dash [] = false
ends_dash (c ∷ []) = c == dash
ends_dash (c ∷ d ∷ s) = ends_dash (d ∷ s)

record Lengths (s : Text) : Type 0 where
  at_most : length (replace_doubles false s) ≤ length s
  shorter : has_double s ≡ true → length (replace_doubles false s) < length s
  pending_at_most : length (replace_doubles true s) ≤ suc (length s)
  pending_shorter : starts_dash s ≡ true → length (replace_doubles true s) ≤ length s
  pending_double : has_double s ≡ true → length (replace_doubles true s) ≤ length s

length-replace_doubles : (s : Text) → Lengths s
unfolding replace_doubles has_double starts_dash
length-replace_doubles [] = record {
  at_most = ground arith;
  shorter = ground arith;
  pending_at_most = ground arith;
  pending_shorter = ground arith;
  pending_double = ground arith;
}
length-replace_doubles (c ∷ s) =
    let r = length-replace_doubles s in
    record {
      at_most = ground (arith, r.at_most, r.pending_at_most);
      shorter =
          ground
            (arith, r.at_most, r.pending_at_most, r.shorter, r.pending_shorter, r.pending_double);
      pending_at_most = ground (arith, r.at_most, r.pending_at_most);
      pending_shorter = ground (arith, r.at_most);
      pending_double = ground (arith, r.at_most, r.shorter);
    }

collapse_lem : (fuel : ℕ) (s : Text) → length s ≤ fuel → has_double (collapse fuel s) ≡ false
unfolding collapse has_double
collapse_lem zero [] h = refl
collapse_lem zero (c ∷ s) h = absurd (ground arith)
collapse_lem (suc fuel) s h =
    let r = length-replace_doubles s in
    ground (arith, collapse_lem fuel (replace_doubles false s), r.shorter)

starts-strip_right : (s : Text) → starts_dash s ≡ false → starts_dash (strip_right s) ≡ false
unfolding starts_dash strip_right keep_right
starts-strip_right [] h = refl
starts-strip_right (c ∷ s) h = ground arith

double-strip_left : (s : Text) → has_double s ≡ false → has_double (strip_left s) ≡ false
unfolding has_double strip_left
double-strip_left [] h = refl
double-strip_left (c ∷ s) h = ground (arith, double-strip_left s)

double-strip_right : (s : Text) → has_double s ≡ false → has_double (strip_right s) ≡ false
unfolding has_double starts_dash strip_right keep_right
double-strip_right [] h = refl
double-strip_right (c ∷ s) h = ground (arith, double-strip_right s, starts-strip_right s)

starts-strip_left : (s : Text) → starts_dash (strip_left s) ≡ false
unfolding starts_dash strip_left
starts-strip_left [] = refl
starts-strip_left (c ∷ s) = ground (arith, starts-strip_left s)

ends-strip_right : (s : Text) → ends_dash (strip_right s) ≡ false
unfolding ends_dash strip_right keep_right
ends-strip_right [] = refl
ends-strip_right (c ∷ s) = ground (arith, ends-strip_right s)

module _ (chars : Characters) where
  -- A character that a scope id may not have.
  unfoldable pub unexpected : ℕ → Bool
  unexpected c = not (chars.is_alnum c || c == dash)

  unexpected-map :
      (s : Text) → any unexpected (map (λ c. if chars.is_alnum c then c else dash) s) ≡ false
  unfolding unexpected
  unexpected-map [] = refl
  unexpected-map (c ∷ s) = ground (arith, unexpected-map s)

  unexpected-dashed : (value : Text) → any unexpected (dashed chars value) ≡ false
  unfolding dashed
  unexpected-dashed value = unexpected-map (chars.lower value)

  unexpected-replace_doubles :
      (pending : Bool) (s : Text)
      → any unexpected s ≡ false
      → any unexpected (replace_doubles pending s) ≡ false
  unfolding replace_doubles unexpected
  unexpected-replace_doubles true [] h = ground arith
  unexpected-replace_doubles false [] h = refl
  unexpected-replace_doubles pending (c ∷ s) h =
      ground (arith, unexpected-replace_doubles (not pending && c == dash) s)

  unexpected-collapse :
      (fuel : ℕ) (s : Text) → any unexpected s ≡ false → any unexpected (collapse fuel s) ≡ false
  unfolding collapse
  unexpected-collapse zero s h = h
  unexpected-collapse (suc fuel) s h = ground (
    arith,
    unexpected-collapse fuel (replace_doubles false s) (unexpected-replace_doubles false s h),
  )

  unexpected-strip_left :
      (s : Text) → any unexpected s ≡ false → any unexpected (strip_left s) ≡ false
  unfolding strip_left
  unexpected-strip_left [] h = refl
  unexpected-strip_left (c ∷ s) h = ground (arith, unexpected-strip_left s)

  unexpected-strip_right :
      (s : Text) → any unexpected s ≡ false → any unexpected (strip_right s) ≡ false
  unfolding strip_right keep_right
  unexpected-strip_right [] h = refl
  unexpected-strip_right (c ∷ s) h = ground (arith, unexpected-strip_right s)

  -- `scope_slug` ends its loop with no two dashes in a row, whatever the text, and its result begins
  -- and ends with no dash and has only dashes and characters that `str.isalnum` accepts.
  pub scope_slug_lem :
      (value : Text)
      → (has_double (scope_slug chars value) ≡ false)
        × (starts_dash (scope_slug chars value) ≡ false)
        × (ends_dash (scope_slug chars value) ≡ false)
        × (any unexpected (scope_slug chars value) ≡ false)
  unfolding scope_slug
  scope_slug_lem value =
      let slug = dashed chars value in
      let single = collapse (length slug) slug in
      (
        double-strip_right (strip_left single)
            (double-strip_left single (collapse_lem (length slug) slug (ground arith))),
        starts-strip_right (strip_left single) (starts-strip_left single),
        ends-strip_right (strip_left single),
        unexpected-strip_right (strip_left single) (
            unexpected-strip_left single
              (unexpected-collapse (length slug) slug (unexpected-dashed value))),
      )
