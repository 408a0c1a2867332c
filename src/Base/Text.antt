-- ===== src/Base/Text.antt =====
-- The formatting of the Rust standard library that messages rest on: decimal numbers, `join`, and
-- the `Debug` text of a `Duration`, which is a number of nanoseconds.
use Prim.Native.Nat.{ℕ, zero, suc, ◌/◌, ◌%◌}
use Prim.Native.String.{String, ◌++◌ as ◌<>◌}
use mathlib.Core.List.{List, [], ◌∷◌}
use modrun.Base.Tests.{ltb, if◌then◌else◌}
use modrun.Base.Equality.{◌==◌, nat_eq}

digit : ℕ → String
digit d =
    if d == 0
    then "0"
    else if d == 1
    then "1"
    else if d == 2
    then "2"
    else if d == 3
    then "3"
    else if d == 4
    then "4"
    else if d == 5
    then "5"
    else if d == 6
    then "6"
    else if d == 7
    then "7"
    else if d == 8
    then "8"
    else "9"

-- At most `fuel` digits beyond the first; a number has fewer digits than its value and one.
decimal_loop : ℕ → ℕ → String
unfolding digit
decimal_loop zero n = digit (n % 10)
decimal_loop (suc fuel) n =
    let rest = decimal_loop fuel (n / 10) in if ltb n 10 then digit n else rest <> digit (n % 10)

unfoldable pub decimal : ℕ → String
unfolding decimal_loop
decimal n = decimal_loop n n

-- `[..].join(sep)`
unfoldable pub join : String → List String → String
join sep [] = ""
join sep (s ∷ []) = s
join sep (s ∷ t ∷ rest) = s <> (sep <> join sep (t ∷ rest))

-- The digits after the point, `part` of `10 * divisor` units, without trailing zeros.
fraction : ℕ → ℕ → ℕ → String
unfolding digit
fraction zero part divisor = ""
fraction (suc places) part divisor =
    let rest = fraction places (part % divisor) (divisor / 10) in
    if part == 0 then "" else digit (part / divisor) <> rest

with_fraction : ℕ → ℕ → ℕ → ℕ → String → String
unfolding fraction decimal
with_fraction whole part places divisor unit =
    (if part == 0 then decimal whole else decimal whole <> ("." <> fraction places part divisor))
    <> unit

-- `{:?}` of a `Duration`.
unfoldable pub debug_duration : ℕ → String
unfolding with_fraction decimal
debug_duration nanos =
    if ltb nanos 1000
    then decimal nanos <> "ns"
    else if ltb nanos 1000000
    then with_fraction (nanos / 1000) (nanos % 1000) 3 100 "µs"
    else if ltb nanos 1000000000
    then with_fraction (nanos / 1000000) (nanos % 1000000) 6 100000 "ms"
    else with_fraction (nanos / 1000000000) (nanos % 1000000000) 9 100000000 "s"
