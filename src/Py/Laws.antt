-- ===== src/Py/Laws.antt =====
-- Facts about numbers and dicts that proofs use with the operations shut.
use traust_contracts.Base.{ℕ, ◌≡◌, arith, false}
use traust_contracts.Py.Numbers.{pos, finite, differs}

-- A finite float does not differ from itself.
pub differs_self : (m k : ℕ) → differs (finite (pos m) k) m k ≡ false
unfolding differs
differs_self m k = ground arith
