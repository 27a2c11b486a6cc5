-- ===== src/Common/Digits.antt =====
-- Decimal digits, and int() of them.
use Prim.Native.Nat.{ℕ, ◌+◌, ◌-◌, ◌*◌}
use mathlib.Core.Bool.{Bool, true, ◌&&◌}
use mathlib.Core.List.{[], ◌∷◌}
use purdue_af.Common.Tests.{leb}
use purdue_af.Common.Text.{Text}

unfoldable pub is_digit : ℕ → Bool
is_digit c = leb b'0' c && leb c b'9'

unfoldable pub digits : Text → Bool
digits [] = true
digits (c ∷ cs) = is_digit c && digits cs

unfoldable pub int_from : ℕ → Text → ℕ
int_from n [] = n
int_from n (c ∷ cs) = int_from (n * 10 + (c - b'0')) cs

-- int() of digits
unfoldable pub int : Text → ℕ
int value = int_from 0 value
