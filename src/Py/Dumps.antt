-- ===== src/Py/Dumps.antt =====
-- `json.dumps` with `ensure_ascii=False` and `separators=(",", ":")` on a list of strings.
use traust_contracts.Base.{
  ℕ, ◌+◌, ◌/◌, ◌%◌, ltb, ◌==◌, Text, if◌then◌else◌, List, [], ◌∷◌, ◌++◌, codes,
}

-- A hexadecimal digit.
hex_digit : ℕ → ℕ
hex_digit d = if ltb d 10 then 48 + d else 87 + d

-- The escape sequence of a code point, or the code point itself.
escaped : ℕ → Text
unfolding codes hex_digit
escaped c =
    if c == 34
    then codes "\\\""
    else if c == 92
    then codes "\\\\"
    else if c == 10
    then codes "\\n"
    else if c == 13
    then codes "\\r"
    else if c == 9
    then codes "\\t"
    else if c == 8
    then codes "\\b"
    else if c == 12
    then codes "\\f"
    else if ltb c 32
    then codes "\\u00" ++ (48 + c / 16) ∷ hex_digit (c % 16) ∷ []
    else c ∷ []

escaped_text : Text → Text
unfolding escaped
escaped_text [] = []
escaped_text (c ∷ s) = escaped c ++ escaped_text s

quoted : Text → Text
unfolding escaped_text
quoted s = 34 ∷ escaped_text s ++ 34 ∷ []

more_items : List Text → Text
unfolding quoted
more_items [] = 93 ∷ []
more_items (s ∷ ss) = 44 ∷ quoted s ++ more_items ss

-- `json.dumps(list_of_strings, ...)`
unfoldable pub dumps_texts : List Text → Text
unfolding more_items
dumps_texts [] = codes "[]"
dumps_texts (s ∷ ss) = 91 ∷ quoted s ++ more_items ss
