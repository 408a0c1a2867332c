-- ===== src/Lifecycle/Stop/Unwind.antt =====
-- `unwind_started`, which counts the hooks before it stops them, and `stop`, which does not.
use mathlib.Core.Path.{fun_ext}
use modrun.Base.{
  ℕ, zero, suc, ◌≤◌, ◌≡◌, refl, sym, ap, ◌∙◌, inl, inr, ◌⊎◌, Option, none, List, [], ◌∷◌, arith,
}
use modrun.Error.{Error}
use modrun.Lifecycle.{
  State, HookEntry, Taken, after_stop, stopping, name_at, take_next_stop, take_stop,
}
use modrun.Lifecycle.Turn.{Turn, stop_executing, Run, after_events}
use modrun.Lifecycle.Stop.{
  last_round, stop_round, pass_ended, end_stop, stop_loop, stop_first, stop, unwind_started,
}
use modrun.Lifecycle.Stop.Plan.{Nothing, Found, take_stop-cases}
use modrun.Lifecycle.Stop.Steps.{
  holding, stop_loop-Nothing, stop_loop-Found, stop_first-Nothing, stop_first-Found,
}

take_stop-zero : (es : List HookEntry) (n : ℕ) → n ≡ 0 → take_stop es n ≡ (es, n, none)
unfolding take_stop
take_stop-zero es zero e = refl
take_stop-zero es (suc n) e = absurd (omega arith)

take_next_stop-zero : (s : State) → s.started ≡ 0 → take_next_stop s ≡ (s, none)
unfolding take_next_stop
take_next_stop-zero s e =
    ap (λ (x : List HookEntry × ℕ × Option Taken). (record s { hooks = x.0; started = x.1 }, x.2))
      (take_stop-zero s.hooks s.started e)

-- With no started hook both loops end at once, in the same state.
stop_loop-zero :
    (ts : List Turn) (s : State) (errors : List Error)
    → s.started ≡ 0
    → stop_loop ts s errors ≡ pass_ended s errors
unfolding stop_loop
stop_loop-zero [] s errors e =
    ap (λ (x : State × Option Taken). last_round x errors) (take_next_stop-zero s e)
stop_loop-zero (t ∷ ts) s errors e =
    ap (λ (x : State × Option Taken). stop_round t x errors (stop_loop ts))
      (take_next_stop-zero s e)

-- One round of both, once the rest of the loops is known to agree.
same_round :
    (count : ℕ) (t : Turn) (ts : List Turn) (s : State) (errors : List Error)
    → s.started ≤ suc count
    → ((s' : State) (es : List Error)
        → s'.started ≤ count
        → stop_first count ts s' es ≡ stop_loop ts s' es)
    → Nothing s.hooks s.started ⊎ Found s.hooks s.started
    → stop_first (suc count) (t ∷ ts) s errors ≡ stop_loop (t ∷ ts) s errors
same_round count t ts s errors le ih (inl r) =
    stop_first-Nothing s errors count (t ∷ ts) r ∙ sym (stop_loop-Nothing s errors (t ∷ ts) r)
same_round count t ts s errors le ih (inr r) =
    let agree =
      fun_ext (λ (es : List Error). ih (holding s errors r) es (omega (arith, r.below))) in
    stop_first-Found s errors count t ts r
    ∙ (ap
          (λ (k : List Error → Run).
            after_events (stop_executing r.index (name_at s.hooks r.index) ∷ []) (
              end_stop t.await (holding s errors r) r.index (name_at s.hooks r.index)
                (after_stop r.hook t.left) errors k))
          agree
        ∙ sym (stop_loop-Found s errors t ts r))

-- A count that covers the started hooks is no limit.
stop_first-eq-stop_loop :
    (count : ℕ) (ts : List Turn) (s : State) (errors : List Error)
    → s.started ≤ count
    → stop_first count ts s errors ≡ stop_loop ts s errors
unfolding stop_first stop_loop
stop_first-eq-stop_loop zero ts s errors le = sym (stop_loop-zero ts s errors (omega arith))
stop_first-eq-stop_loop (suc count) [] s errors le = refl
stop_first-eq-stop_loop (suc count) (t ∷ ts) s errors le =
    same_round count t ts s errors le (λ s' es h. stop_first-eq-stop_loop count ts s' es h)
      (take_stop-cases s.hooks s.started)

-- Unwinding and stopping run the same hooks to the same end, whatever the hooks do.
pub unwind_started-eq-stop : (ts : List Turn) (s : State) → unwind_started ts s ≡ stop ts s
unfolding unwind_started stop
unwind_started-eq-stop ts s =
    stop_first-eq-stop_loop s.started ts (record s { phase = stopping }) [] (omega arith)
