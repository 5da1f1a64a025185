-- ===== src/Int.antt =====
-- Integers over the native numbers: `negsuc n` is -(n + 1).
use tagents.Prelude.{ℕ, ◌+◌, ◌-◌, leb, if◌then◌else◌}

pub data ℤ : Type 0 where
  pos negsuc : ℕ → ℤ

-- `m - n`
unfoldable pub sub_nat : ℕ → ℕ → ℤ
sub_nat m n = if leb n m then pos (m - n) else negsuc (n - m - 1)

unfoldable pub add : ℤ → ℤ → ℤ
unfolding sub_nat
add (pos a) (pos b) = pos (a + b)
add (pos a) (negsuc b) = sub_nat a (b + 1)
add (negsuc a) (pos b) = sub_nat b (a + 1)
add (negsuc a) (negsuc b) = negsuc (a + b + 1)
