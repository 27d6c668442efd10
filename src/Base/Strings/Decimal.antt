-- ===== src/Base/Strings/Decimal.antt =====
-- `to_string` of an unsigned integer.
use Prim.Native.Nat.{ℕ, zero, suc, ◌+◌, ◌/◌, ◌%◌}
use mathlib.Core.List.{List, [], ◌∷◌}
use portus_window.Base.Tests.{ltb, if◌then◌else◌}

-- The digits in front of those that are written. A number has fewer digits than its successor
-- counts, so the fuel is never used up.
unfoldable pub decimal_loop : ℕ → ℕ → List ℕ → List ℕ
decimal_loop zero n written = written
decimal_loop (suc fuel) n written =
    let more = decimal_loop fuel (n / 10) ((b'0' + n % 10) ∷ written) in
    if ltb n 10 then (b'0' + n) ∷ written else more

unfoldable pub decimal : ℕ → List ℕ
unfolding decimal_loop
decimal n = decimal_loop (suc n) n []
