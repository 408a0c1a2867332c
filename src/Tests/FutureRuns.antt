-- ===== src/Tests/FutureRuns.antt =====
-- A run of joined futures.
use modrun.Base.{ℕ, List, [], ◌∷◌, arith}
use modrun.Error.{Result, ok, err, io}
use modrun.Future.{Future, join, try_join_all}
use modrun.Future.Sweep.{outcomes}
use modrun.Future.Join.{JoinsTo, try_join_all-JoinsTo}

-- The second future is ready first, and the third fails.
abbrev three : List (ℕ × Future (Result ℕ))
three =
    (1, record { pending = 3; ready = ok 10 })
    ∷ (2, record { pending = 0; ready = ok 20 })
    ∷ (3, record { pending = 1; ready = err (io "read" "closed") })
    ∷ []

try_join_all-JoinsTo_example : JoinsTo (outcomes three) (join 5 (try_join_all three))
try_join_all-JoinsTo_example = try_join_all-JoinsTo three 5 (omega arith)
