-- ===== src/Common/Int.antt =====
-- Signed integers: a score that may fall below zero.
use heimdall_backend.Common.{ℕ, ◌+◌, ◌-◌, leb, if◌then◌else◌, ◌≡◌, arith}

-- `negsuc n` is -(n + 1).
pub data ℤ : Type 0 where
  pos : ℕ → ℤ
  negsuc : ℕ → ℤ

-- `score -= amount`
unfoldable pub sub_amount : ℤ → ℕ → ℤ
sub_amount (pos n) amount = if leb amount n then pos (n - amount) else negsuc (amount - n - 1)
sub_amount (negsuc n) amount = negsuc (n + amount)

-- Subtracting in two steps is subtracting the sum.
pub sub_amount-add : (x : ℤ) (a b : ℕ) → sub_amount (sub_amount x a) b ≡ sub_amount x (a + b)
unfolding sub_amount
sub_amount-add (pos n) a b = ground arith
sub_amount-add (negsuc n) a b = ground arith
