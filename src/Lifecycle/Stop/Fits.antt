-- ===== src/Lifecycle/Stop/Fits.antt =====
-- A stop keeps the count of the started hooks within the hooks.
use modrun.Base.{◌≤◌, String, some, inl, inr, List, [], ◌∷◌, length, arith}
use modrun.Error.{Error, ok, err, panicked}
use modrun.Lifecycle.{State, HookEntryInner, stopping}
use modrun.Lifecycle.Entries.{length-set_inner}
use modrun.Lifecycle.Turn.{Turn, Await, returns, dropped, Run}
use modrun.Lifecycle.Stop.{write_back, pass_ended, stop_abandoned, end_stop, stop_loop, stop}
use modrun.Lifecycle.Stop.Plan.{Found, take_stop-cases}
use modrun.Lifecycle.Stop.Steps.{holding, stop_loop-Nothing, stop_loop-Found, stop_loop-dropped}

-- No more hooks count as started than there are.
abbrev pub Fits : State → Type 0
Fits s = s.started ≤ length s.hooks

write_back-Fits :
    (s : State) (errors : List Error) (r : Found s.hooks s.started) (hook : HookEntryInner)
    → Fits s
    → Fits (write_back (holding s errors r) r.index hook)
unfolding write_back
write_back-Fits s errors r hook h =
    omega (arith, length-set_inner r.left r.index (some hook), r.in_range, r.agree.same_length)

end_stop-Fits :
    (a : Await) (s : State) (errors : List Error) (r : Found s.hooks s.started) (name : String)
    (hook : HookEntryInner) (more : List Error → Run)
    → Fits s
    → ((es : List Error) → Fits (more es).state)
    → Fits (end_stop a (holding s errors r) r.index name hook errors more).state
unfolding end_stop stop_abandoned
end_stop-Fits (returns (ok _)) s errors r name hook more h ih = ih errors
end_stop-Fits (returns (err e)) s errors r name hook more h ih = ih _
end_stop-Fits (returns (panicked m)) s errors r name hook more h ih =
    write_back-Fits s errors r hook h
end_stop-Fits dropped s errors r name hook more h ih = write_back-Fits s errors r hook h

holding-Fits :
    (s : State) (errors : List Error) (r : Found s.hooks s.started)
    → Fits s
    → Fits (holding s errors r)
holding-Fits s errors r h = omega (arith, r.below, r.agree.same_length)

stop_loop-Fits :
    (ts : List Turn) (s : State) (errors : List Error) → Fits s → Fits (stop_loop ts s errors).state
unfolding pass_ended stop_abandoned
stop_loop-Fits [] s errors h = elim (take_stop-cases s.hooks s.started) [
  | inl r ↦ rw (stop_loop-Nothing s errors [] r) (omega arith)
  | inr r ↦ rw (stop_loop-dropped s errors r) (write_back-Fits s errors r r.hook h)
]
stop_loop-Fits (t ∷ ts) s errors h = elim (take_stop-cases s.hooks s.started) [
  | inl r ↦ rw (stop_loop-Nothing s errors (t ∷ ts) r) (omega arith)
  | inr r ↦ rw (stop_loop-Found s errors t ts r) (
      end_stop-Fits t.await s errors r _ _ _ h
        (λ es. stop_loop-Fits ts (holding s errors r) es (holding-Fits s errors r h)))
]

pub stop-Fits : (ts : List Turn) (s : State) → Fits s → Fits (stop ts s).state
unfolding stop
stop-Fits ts s h = stop_loop-Fits ts (record s { phase = stopping }) [] h
