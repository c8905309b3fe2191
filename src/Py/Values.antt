-- ===== src/Py/Values.antt =====
-- JSON documents. A dict lists its entries in order, and a key has one entry.
use Prim.Native.Nat.{zero}
use traust_contracts.Base.{
  Text, String, codes, text_eq, is, elem, Bool, true, false, List, [], ◌∷◌, Option, none, some,
  if◌then◌else◌,
}
use traust_contracts.Base.{Result, ok, err, attribute_error, key_error, type_error, ◌>>=◌, ◌&&◌}
use traust_contracts.Py.Numbers.{ℤ, pos, Float, finite}

mutual
  pub data Json : Type 0 where
    null : Json
    bool : Bool → Json
    int : ℤ → Json
    float : Float → Json
    str : Text → Json
    arr : Items → Json
    obj : Fields → Json

  pub data Items : Type 0 where
    nil : Items
    cons : Json → Items → Items

  pub data Fields : Type 0 where
    end : Fields
    field : Text → Json → Fields → Fields

unfoldable pub lookup : Text → Fields → Option Json
unfolding text_eq
lookup k end = none
lookup k (field j v fs) = if text_eq j k then some v else lookup k fs

unfoldable pub keys : Fields → List Text
keys end = []
keys (field k v fs) = k ∷ keys fs

unfoldable pub elements : Items → List Json
elements nil = []
elements (cons v vs) = v ∷ elements vs

unfoldable pub array : List Json → Items
array [] = nil
array (v ∷ vs) = cons v (array vs)

abbrev or_null : Option Json → Json
or_null none = null
or_null (some v) = v

abbrev required : Option Json → Result Json
required none = err key_error
required (some v) = ok v

-- `d.get(key)`, which only a dict has.
unfoldable pub get : String → Json → Result Json
unfolding lookup codes
get key (obj fs) = ok (or_null (lookup (codes key) fs))
get key _ = err attribute_error

-- `d[key]` with a string key.
unfoldable pub item : String → Json → Result Json
unfolding lookup codes
item key (obj fs) = required (lookup (codes key) fs)
item key _ = err type_error

-- `bool(v)`
unfoldable pub truthy : Json → Bool
truthy null = false
truthy (bool b) = b
truthy (int (pos zero)) = false
truthy (int _) = true
truthy (float (finite (pos zero) k)) = false
truthy (float _) = true
truthy (str []) = false
truthy (str _) = true
truthy (arr nil) = false
truthy (arr _) = true
truthy (obj end) = false
truthy (obj _) = true

-- `v or other`
unfoldable pub or_else : Json → Json → Json
unfolding truthy
or_else v other = if truthy v then v else other

chars : Text → List Json
chars [] = []
chars (c ∷ s) = str (c ∷ []) ∷ chars s

key_values : List Text → List Json
key_values [] = []
key_values (k ∷ ks) = str k ∷ key_values ks

-- What `for x in v` runs through: the members, the keys, or the characters.
unfoldable pub iterate : Json → Result (List Json)
unfolding elements keys chars key_values
iterate (arr vs) = ok (elements vs)
iterate (obj fs) = ok (key_values (keys fs))
iterate (str s) = ok (chars s)
iterate _ = err type_error

-- `d.get(key) or {}`
unfoldable pub section : String → Json → Result Json
unfolding get or_else
section key d = do v ← get key d; ok (or_else v (obj end))

-- `d.get(key) or []`, run through.
unfoldable pub each : String → Json → Result (List Json)
unfolding get or_else iterate
each key d = do v ← get key d; iterate (or_else v (arr nil))

-- `v == "literal"` and `v in ("literal", ...)`
unfoldable pub is_text : Json → String → Bool
unfolding is
is_text (str s) literal = is s literal
is_text _ literal = false

unfoldable pub is_one_of : Json → List Text → Bool
unfolding elem
is_one_of (str s) names = elem s names
is_one_of _ names = false

unfoldable mutual
  -- Whether `json.dumps(v, allow_nan=False)` accepts every number of the value.
  pub all_finite : Json → Bool
  all_finite (float (finite m k)) = true
  all_finite (float _) = false
  all_finite (arr vs) = all_finite_items vs
  all_finite (obj fs) = all_finite_fields fs
  all_finite _ = true

  pub all_finite_items : Items → Bool
  all_finite_items nil = true
  all_finite_items (cons v vs) = all_finite v && all_finite_items vs

  pub all_finite_fields : Fields → Bool
  all_finite_fields end = true
  all_finite_fields (field k v fs) = all_finite v && all_finite_fields fs
