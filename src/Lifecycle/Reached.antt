-- ===== src/Lifecycle/Reached.antt =====
-- The states that the operations of a lifecycle reach.
use modrun.Base.{inl, inr, List, [], ◌∷◌, length-append, arith, subst, sym}
use modrun.Lifecycle.{
  State, Hook, Phase, registering, starting, started, stopping, new, append_in, append, to_entry,
  prepare_for_unwind,
}
use modrun.Lifecycle.Prepare.{prepare_for_unwind-inner_at}
use modrun.Lifecycle.Turn.{Turn}
use modrun.Lifecycle.Start.{start}
use modrun.Lifecycle.Start.Outcome.{start-outcome}
use modrun.Lifecycle.Stop.{stop, unwind_started}
use modrun.Lifecycle.Stop.Unwind.{unwind_started-eq-stop}
use modrun.Lifecycle.Stop.Fits.{Fits, stop-Fits}

-- By calls of the operations, in any order, each of which may run to its end or be dropped.
pub data Reached : State → Type 0 where
  created : Reached new
  appended : (s : State) (h : Hook) → Reached s → Reached (append s h).0
  was_started : (s : State) (ts : List Turn) → Reached s → Reached (start ts s).state
  was_prepared : (s : State) → Reached s → Reached (prepare_for_unwind s)
  was_stopped : (s : State) (ts : List Turn) → Reached s → Reached (stop ts s).state
  was_unwound : (s : State) (ts : List Turn) → Reached s → Reached (unwind_started ts s).state

append_in-Fits : (phase : Phase) (s : State) (h : Hook) → Fits s → Fits (append_in phase s h).0
unfolding append_in
append_in-Fits registering s h f = omega (arith, length-append s.hooks (to_entry h ∷ []))
append_in-Fits starting s h f = omega (arith, length-append s.hooks (to_entry h ∷ []))
append_in-Fits started s h f = f
append_in-Fits stopping s h f = f

append-Fits : (s : State) (h : Hook) → Fits s → Fits (append s h).0
unfolding append
append-Fits s h f = append_in-Fits s.phase s h f

start-Fits : (ts : List Turn) (s : State) → Fits s → Fits (start ts s).state
start-Fits ts s f = elim (start-outcome ts s f) [
  | inl r ↦ omega (arith, r.all)
  | inr r ↦ omega (arith, r.all)
]

prepare-Fits : (s : State) → Fits s → Fits (prepare_for_unwind s)
prepare-Fits s f = let (_, all, _, _) = prepare_for_unwind-inner_at s 0 f in omega (arith, all)

-- Whatever operations of a lifecycle are called, in whatever order, also where they are dropped in
-- the middle: no more hooks count as started than there are.
pub Reached-Fits : (s : State) → Reached s → Fits s
unfolding new
Reached-Fits _ created = omega arith
Reached-Fits _ (appended s h r) = append-Fits s h (Reached-Fits s r)
Reached-Fits _ (was_started s ts r) = start-Fits ts s (Reached-Fits s r)
Reached-Fits _ (was_prepared s r) = prepare-Fits s (Reached-Fits s r)
Reached-Fits _ (was_stopped s ts r) = stop-Fits ts s (Reached-Fits s r)
Reached-Fits _ (was_unwound s ts r) =
    subst (λ run. Fits run.state) (sym (unwind_started-eq-stop ts s))
      (stop-Fits ts s (Reached-Fits s r))
