-- ===== src/App/Cleanup.antt =====
-- A start that fails is cleaned up.
use modrun.Base.{◌≢◌, arith}
use modrun.Error.{Error, ok, combine_results, with_cleanup}
use modrun.Lifecycle.Turn.{Turn, Await, returns}
use modrun.Lifecycle.Start
use modrun.App.{combined}
use modrun.App

pub combined-≢ : (e : Error) (a : Await) → combined e a ≢ returns (ok tt)
unfolding combine_results with_cleanup
combined-≢ e a = ground arith
