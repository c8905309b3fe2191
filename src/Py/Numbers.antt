-- ===== src/Py/Numbers.antt =====
-- Python's `int` and `float`. A finite float is a dyadic rational: `finite m k` is m / 2 ^ k.
use traust_contracts.Base.{ℕ, ◌+◌, ◌-◌, ◌*◌, ◌%◌, ◌^◌, ◌/◌, Bool, true, false, ltb, leb}
use traust_contracts.Base.{◌==◌, if◌then◌else◌, Option, none, some}

-- `negsuc n` is -(n + 1).
pub data ℤ : Type 0 where
  pos : ℕ → ℤ
  negsuc : ℕ → ℤ

pub data Float : Type 0 where
  finite : ℤ → ℕ → Float
  infinite : Bool → Float
  nan : Float

-- `0 <= i <= top`
unfoldable pub in_range : ℤ → ℕ → Bool
in_range (pos n) top = leb n top
in_range (negsuc n) top = false

unfoldable pub int_eq : ℤ → ℤ → Bool
int_eq (pos m) (pos n) = m == n
int_eq (pos m) (negsuc n) = false
int_eq (negsuc m) (pos n) = false
int_eq (negsuc m) (negsuc n) = m == n

-- `x < n` for an integer literal `n`.
unfoldable pub float_lt : Float → ℕ → Bool
float_lt (finite (pos m) k) n = ltb m (n * 2 ^ k)
float_lt (finite (negsuc m) k) n = true
float_lt (infinite negative) n = negative
float_lt nan n = false

-- `int(x)` where `x.is_integer()`, else nothing.
unfoldable pub integral : Float → Option ℤ
integral (finite (pos m) k) = if m % 2 ^ k == 0 then some (pos (m / 2 ^ k)) else none
integral (finite (negsuc m) k) =
    if (m + 1) % 2 ^ k == 0 then some (negsuc ((m + 1) / 2 ^ k - 1)) else none
integral (infinite negative) = none
integral nan = none

-- The distance |m / 2 ^ k - n / 2 ^ j|, times 2 ^ (k + j).
unfoldable pub distance : ℤ → ℕ → ℕ → ℕ → ℕ
distance (pos m) k n j = let a = m * 2 ^ j in let b = n * 2 ^ k in if leb b a then a - b else b - a
distance (negsuc m) k n j = (m + 1) * 2 ^ j + n * 2 ^ k

-- `abs(x - n / 2 ^ j) > 10**-3`. The float 10**-3 is 1152921504606847 / 2 ^ 60.
unfoldable pub differs : Float → ℕ → ℕ → Bool
unfolding distance
differs (finite m k) n j = ltb (1152921504606847 * 2 ^ (k + j)) (distance m k n j * 2 ^ 60)
differs (infinite negative) n j = true
differs nan n j = false
