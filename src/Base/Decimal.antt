-- ===== src/Base/Decimal.antt =====
-- Numbers printed in a template or by `toString`, and `padStart`.
use biofire.Base.Lists.{Text, length, replicate}
use biofire.Base.Tests.{ltb, if◌then◌else◌}
use Prim.Native.Nat.{ℕ, zero, suc, ◌+◌, ◌-◌, ◌/◌, ◌%◌}
use mathlib.Core.List.{◌∷◌, [], ◌++◌}

-- A number has at most as many digits as it counts, and one: that fuel is enough.
abbrev pub decimal_from : ℕ → ℕ → Text → Text
decimal_from zero n acc = acc
decimal_from (suc fuel) n acc =
    let digit = 48 + n % 10 in
    let rest = decimal_from fuel (n / 10) (digit ∷ acc) in if ltb n 10 then digit ∷ acc else rest

unfoldable pub decimal : ℕ → Text
decimal n = decimal_from (suc n) n []

-- `padStart(w, '0')`
abbrev pub pad_start : ℕ → Text → Text
pad_start w t = replicate (w - length t) 48 ++ t
