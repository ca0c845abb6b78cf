-- ===== src/Base/Text.antt =====
-- `str` of a number.
use Prim.Native.Nat.{ℕ, zero, suc, ◌/◌, ◌%◌, ◌+◌}
use Prim.Native.String.{String, slice, ◌++◌}
use kubecouncil.Base.Tests.{ltb, if◌then◌else◌}

-- The decimal digits on fuel; a number has no more digits than its successor.
unfoldable pub digits : ℕ → ℕ → String
digits zero n = ""
digits (suc fuel) n =
    let rest = digits fuel (n / 10) in
    let last = slice "0123456789" (n % 10) (n % 10 + 1) in if ltb n 10 then last else rest ++ last

unfoldable pub str : ℕ → String
str n = digits (suc n) n
