-- ===== src/Storage/Values/Laws.antt =====
-- store.py: what the columns can hold after `_projected_text`.
use traust_contracts.Base.{
  ◌≡◌, refl, Text, codes, Bool, false, ◌==◌, [], ◌∷◌, ok, arith, any, ◌⊎◌, inl, inr,
}
use traust_contracts.Py.{Json, bool, int, float, str, arr, obj}
use traust_contracts.Storage.Db.{SqlValue, null, text}
use traust_contracts.Storage.Values.Defs.{escape_nul, projected_text}

abbrev pub has_zero : Text → Bool
has_zero = any (λ c. c == 0)

escape_nul-NoNul : (s : Text) → has_zero (escape_nul s) ≡ false
unfolding escape_nul codes
escape_nul-NoNul [] = refl
escape_nul-NoNul (c ∷ s) = ground (arith, escape_nul-NoNul s)

-- A column of `_projected_text` is NULL or a text without NUL.
pub projected_text-NoNul :
    (v : Json) {x : SqlValue}
    → projected_text v ≡ ok x
    → (x ≡ null) ⊎ ((t : Text) × (x ≡ text t) × (has_zero t ≡ false))
unfolding projected_text
projected_text-NoNul Json.null h = inl cc
projected_text-NoNul (str s) h = inr (escape_nul s, cc, escape_nul-NoNul s)
projected_text-NoNul (bool b) h = absurd (cc)
projected_text-NoNul (int i) h = absurd (cc)
projected_text-NoNul (float f) h = absurd (cc)
projected_text-NoNul (arr vs) h = absurd (cc)
projected_text-NoNul (obj fs) h = absurd (cc)
