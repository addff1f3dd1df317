-- ===== src/Base/Numerals.antt =====
-- How Go prints a natural number: `%d`.
use chango_assistant.Base.Strings.{Text}
use chango_assistant.Base.Tests.{if◌then◌else◌, ltb}
use Prim.Native.Nat.{suc, zero, ℕ, ◌%◌, ◌+◌, ◌/◌}
use mathlib.Core.List.{[], ◌∷◌}

-- The digits in front of `rest`; the fuel is the number itself.
digits : ℕ → ℕ → Text → Text
digits zero n rest = (n % 10 + 48) ∷ rest
digits (suc fuel) n rest =
    let more = digits fuel (n / 10) ((n % 10 + 48) ∷ rest) in
    if ltb n 10 then (n + 48) ∷ rest else more

unfoldable pub decimal : ℕ → Text
unfolding digits
decimal n = digits n n []
