-- ===== src/Prelude/Factorial.antt =====
-- `math.factorial`
use Prim.Native.Nat.{ℕ, zero, suc, ◌*◌}

unfoldable pub factorial : ℕ → ℕ
factorial zero = 1
factorial (suc n) = suc n * factorial n
