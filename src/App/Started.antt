-- ===== src/App/Started.antt =====
-- A start that succeeds.
use modrun.Base.{ℕ, ◌≤◌, ◌<◌, ◌≡◌, refl, Option, none, some, inl, inr, List, length, arith}
use modrun.Error.{Error, ok, err, panicked}
use modrun.Lifecycle.{starting}
use modrun.Lifecycle.Turn.{Turn, Await, returns, dropped, Run}
use modrun.Lifecycle.Start
use modrun.Lifecycle.Start.Outcome.{Succeeded, start-outcome}
use modrun.App.{Timing, BuiltApp, with_timeout, combined, start_hooks, roll_back}
use modrun.App
use modrun.App.Cleanup.{combined-≢}

-- The future returned before its time was over.
abbrev pub IsInTime : Option ℕ → Timing → Type 0
IsInTime none t = Unit
IsInTime (some d) t = t.elapsed < d

with_timeout-ok :
    (budget : Option ℕ) (t : Timing) (a : Await) (timed_out : Error)
    → with_timeout budget t a timed_out ≡ returns (ok tt)
    → (a ≡ returns (ok tt)) × IsInTime budget t
unfolding with_timeout
with_timeout-ok none t a timed_out e = (e, tt)
with_timeout-ok (some d) t (returns (ok _)) timed_out e = ground (arith, e)
with_timeout-ok (some d) t (returns (err x)) timed_out e = ground (arith, e)
with_timeout-ok (some d) t (returns (panicked m)) timed_out e = ground (arith, e)
with_timeout-ok (some d) t dropped timed_out e = ground (arith, e)

roll_back-ok :
    (us : List Turn) (u : Timing) (app : BuiltApp) (run : Run) (a : Await)
    → run.await ≡ a
    → (roll_back us u app run a).await ≡ returns (ok tt)
    → (roll_back us u app run a ≡ run) × (run.await ≡ returns (ok tt))
unfolding roll_back
roll_back-ok us u app run (returns (ok _)) e h = (refl, h)
roll_back-ok us u app run (returns (err x)) e h = absurd (combined-≢ x _ h)
roll_back-ok us u app run (returns (panicked m)) e h = (refl, h)
roll_back-ok us u app run dropped e h = (refl, h)

-- A start of the application that ends with `Ok`: every hook with an OnStart was entered and
-- completed, once and in registration order, the phase is Started, nothing was rolled back, and the
-- time budget of the start, if there is one, was kept.
pub start-Succeeded :
    (ts us : List Turn) (t u : Timing) (app : BuiltApp)
    → app.lifecycle.started ≤ length app.lifecycle.hooks
    → (App.start ts t us u app).await ≡ returns (ok tt)
    → Succeeded ts (record app.lifecycle { phase = starting }) (Start.start ts app.lifecycle)
      × (App.start ts t us u app ≡ start_hooks ts t app)
      × IsInTime app.start_budget t
unfolding App.start start_hooks
start-Succeeded ts us t u app inv e =
    let (same, ended) = roll_back-ok us u app (start_hooks ts t app) _ refl e in
    let (returned, in_time) =
      with_timeout-ok app.start_budget t (Start.start ts app.lifecycle).await _ ended in
    elim (start-outcome ts app.lifecycle inv) [
      | inl all ↦ (all, same, in_time)
      | inr r ↦ absurd (r.result returned)
    ]
