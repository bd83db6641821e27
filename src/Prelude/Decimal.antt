-- ===== src/Prelude/Decimal.antt =====
-- Numbers as text, as `std::format` and `std::to_string` write them.
use Prim.Native.Nat.{ℕ, zero, suc, ◌+◌, ◌/◌, ◌%◌}
use mathlib.Core.List.{[], ◌∷◌}
use watchlist.Prelude.Int.{ℤ, pos, negsuc}
use watchlist.Prelude.Tests.{ltb, if◌then◌else◌}
use watchlist.Prelude.Text.{Bytes}

-- An `int` has at most ten digits.
decimal_loop : ℕ → ℕ → Bytes → Bytes
decimal_loop zero n rest = rest
decimal_loop (suc fuel) n rest =
    let more = decimal_loop fuel (n / 10) ((48 + n % 10) ∷ rest) in
    if ltb n 10 then (48 + n) ∷ rest else more

unfoldable pub format_int : ℤ → Bytes
unfolding decimal_loop
format_int (pos n) = decimal_loop 10 n []
format_int (negsuc n) = b'-' ∷ decimal_loop 10 (suc n) []
