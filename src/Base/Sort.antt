-- ===== src/Base/Sort.antt =====
-- `sorted` on texts, and the set built from a list of them.
use mathlib.Core.Bool.{Bool, true, false}
use mathlib.Core.List.{List, [], ◌∷◌}
use traust_contracts.Base.Tests.{ltb, if◌then◌else◌}
use traust_contracts.Base.Texts.{Text, elem}

-- `s <= t`, by code points.
unfoldable pub text_leb : Text → Text → Bool
text_leb [] t = true
text_leb (c ∷ s) [] = false
text_leb (c ∷ s) (d ∷ t) = if ltb c d then true else if ltb d c then false else text_leb s t

unfoldable pub insert_sorted : Text → List Text → List Text
unfolding text_leb
insert_sorted s [] = s ∷ []
insert_sorted s (t ∷ ts) = if text_leb s t then s ∷ t ∷ ts else t ∷ insert_sorted s ts

unfoldable pub sorted : List Text → List Text
unfolding insert_sorted
sorted [] = []
sorted (t ∷ ts) = insert_sorted t (sorted ts)

-- The distinct members, in the order of their last occurrence.
unfoldable pub distinct : List Text → List Text
unfolding elem
distinct [] = []
distinct (t ∷ ts) = let rest = distinct ts in if elem t ts then rest else t ∷ rest
