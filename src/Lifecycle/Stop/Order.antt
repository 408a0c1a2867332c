-- ===== src/Lifecycle/Stop/Order.antt =====
-- Which hooks a stop runs, in which order, and what a cancelled stop leaves for the next one.
use native.Mathlib.Numerals.{add-one}
use modrun.Base.{
  ℕ, String, ◌≡◌, sym, ap, ◌∙◌, inl, inr, true, some, List, [], ◌∷◌, ◌++◌, All, arith,
}
use modrun.Error.{Error, ok, err, panicked}
use modrun.Lifecycle.{
  State, HookEntryInner, closure, object, ErasedHook, after_stop, has_stop, set_inner, inner_at,
  stopping,
}
use modrun.Lifecycle.Entries.{inner_at-set_inner, inner_at-set_inner_ne}
use modrun.Lifecycle.Turn.{Turn, Await, returns, dropped, Run, ended_stops}
use modrun.Lifecycle.Stop.{pass_ended, stop_abandoned, write_back, end_stop, stop_loop, stop}
use modrun.Lifecycle.Stop.Plan.{
  Nothing, Found, plan, stop_plan, stop_plan-agree, stop_plan-suc, stop_plan-zero, take_stop-cases,
}
use modrun.Lifecycle.Stop.Steps.{
  holding, drained, stop_loop-Nothing, stop_loop-dropped, stop_loop-Found,
}

-- A hook object that still answers that it has an OnStop once one was begun.
abbrev pub KeepsStop : Turn → Type 0
KeepsStop t = t.left.has_stop ≡ true

has_stop-after_stop :
    (hook : HookEntryInner) (h : ErasedHook)
    → has_stop hook ≡ true
    → h.has_stop ≡ true
    → has_stop (after_stop hook h) ≡ true
has_stop-after_stop (closure f g) h p q = p
has_stop-after_stop (object o) h p q = q

-- A hook that is written back is the first of the plan once more.
plan-write_back :
    (s : State) (errors : List Error) (r : Found s.hooks s.started) (hook : HookEntryInner)
    → has_stop hook ≡ true
    → plan (write_back (holding s errors r) r.index hook) ≡ plan s
unfolding write_back
plan-write_back s errors r hook h =
    let back = set_inner r.left r.index (some hook) in
    let here : inner_at back r.index ≡ some hook =
      inner_at-set_inner r.left r.index (some hook)
        (omega (arith, r.in_range, r.agree.same_length)) in
    let below : stop_plan back r.index ≡ stop_plan s.hooks r.index =
      stop_plan-agree back s.hooks r.index (λ j lt.
        inner_at-set_inner_ne r.left r.index j (some hook) (omega arith)
        ∙ r.agree.same_inner j lt) in
    ap (stop_plan back) (add-one r.index)
    ∙ (stop_plan-suc back r.index ∙ rw here (rw h (ap (λ xs. r.index ∷ xs) below ∙ sym r.first)))

one_less :
    (s : State) (errors : List Error) (r : Found s.hooks s.started) {xs : List ℕ}
    → xs ≡ stop_plan r.left r.index
    → r.index ∷ xs ≡ plan s
one_less s errors r e = rw e (
    ap (λ xs. r.index ∷ xs) (stop_plan-agree r.left s.hooks r.index r.agree.same_inner)
    ∙ sym r.first)

drained-plan :
    (s : State) (errors : List Error) (r : Nothing s.hooks s.started)
    → let run = pass_ended (drained s errors r) errors in
      ended_stops run.log ++ plan run.state ≡ plan s
unfolding pass_ended
drained-plan s errors r = stop_plan-zero r.left ∙ sym r.empty

-- What a round leaves of the plan, given what the rest of the loop leaves.
end_stop-conserves :
    (a : Await) (s : State) (errors : List Error) (r : Found s.hooks s.started) (name : String)
    (hook : HookEntryInner) (more : List Error → Run)
    → has_stop hook ≡ true
    → ((es : List Error)
        → ended_stops (more es).log ++ plan (more es).state ≡ stop_plan r.left r.index)
    → let run = end_stop a (holding s errors r) r.index name hook errors more in
      ended_stops run.log ++ plan run.state ≡ plan s
unfolding end_stop stop_abandoned
end_stop-conserves (returns (ok _)) s errors r name hook more h ih = one_less s errors r (ih errors)
end_stop-conserves (returns (err e)) s errors r name hook more h ih = one_less s errors r (ih _)
end_stop-conserves (returns (panicked m)) s errors r name hook more h ih =
    plan-write_back s errors r hook h
end_stop-conserves dropped s errors r name hook more h ih = plan-write_back s errors r hook h

stop_loop-conserves :
    (ts : List Turn) (s : State) (errors : List Error)
    → All KeepsStop ts
    → let run = stop_loop ts s errors in ended_stops run.log ++ plan run.state ≡ plan s
unfolding stop_abandoned
stop_loop-conserves [] s errors k = elim (take_stop-cases s.hooks s.started) [
  | inl r ↦ rw (stop_loop-Nothing s errors [] r) (drained-plan s errors r)
  | inr r ↦ rw (stop_loop-dropped s errors r) (plan-write_back s errors r r.hook r.stops)
]
stop_loop-conserves (t ∷ ts) s errors k = elim (take_stop-cases s.hooks s.started) [
  | inl r ↦ rw (stop_loop-Nothing s errors (t ∷ ts) r) (drained-plan s errors r)
  | inr r ↦ rw (stop_loop-Found s errors t ts r) (
      end_stop-conserves t.await s errors r _ _ _ (has_stop-after_stop r.hook t.left r.stops k.0)
        (λ es. stop_loop-conserves ts (holding s errors r) es k.1))
]

-- However the OnStop hooks end, and also where the stop is dropped in the middle: the hooks whose
-- OnStop ended, in the order in which they did, followed by the plan of the state that is left,
-- are the plan of the state before. So each hook's OnStop ends once, from the last to the first,
-- and a later stop goes on where this one was cancelled. Assumed is that a hook object does not
-- withdraw its OnStop while it runs.
pub stop-conserves :
    (ts : List Turn) (s : State)
    → All KeepsStop ts
    → ended_stops (stop ts s).log ++ plan (stop ts s).state ≡ plan s
unfolding stop
stop-conserves ts s k = stop_loop-conserves ts (record s { phase = stopping }) [] k
