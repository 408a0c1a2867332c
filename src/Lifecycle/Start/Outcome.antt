-- ===== src/Lifecycle/Start/Outcome.antt =====
-- How a start ends: with every hook started, or at the hook that did not.
use modrun.Base.{
  ℕ, zero, suc, ◌+◌, ◌≤◌, ◌<◌, String, ◌≡◌, ◌≢◌, refl, sym, ap, ◌∙◌, ◌⊎◌, inl, inr, Bool, false,
  Option, none, List, [], ◌∷◌, ◌++◌, map, length, drop, arith, ltb, if◌then◌else◌, length-drop-add,
}
use modrun.Error.{ok, err, panicked}
use modrun.Lifecycle.{
  State, Hook, HookEntry, HookEntryInner, starting, started, stopping, to_entry, inner_at,
  prepare_for_unwind,
}
use modrun.Lifecycle.Prepare.{prepare_for_unwind-inner_at, unstarted}
use modrun.Lifecycle.Turn.{
  Turn, Await, returns, dropped, Run, start_executing, start_executed, after_events, starts,
  completed_starts,
}
use modrun.Lifecycle.Start.{finished, abandoned, end_start, start_inner, start}
use modrun.Lifecycle.Start.Plan.{
  Nothing, Found, first_start-cases, startable, start_plan, start_plan-nil,
}
use modrun.Lifecycle.Start.Rounds.{
  rest, plan, all_started, start_inner-Nothing, index, running, next, start_inner-dropped,
  start_inner-found, index-lt, length-running, running-gone, plan-next, next-inv, next-phase,
}

-- The hooks appended in the first `n` turns.
abbrev pub entries : ℕ → List Turn → List HookEntry
entries zero ts = []
entries (suc n) [] = []
entries (suc n) (t ∷ ts) = map to_entry t.appended ++ entries n ts

-- Every hook was started, in order, those appended on the way included.
pub record Succeeded (ts : List Turn) (s : State) (run : Run) : Type 0 where
  pub result : run.await ≡ returns (ok tt)
  pub phase : run.state.phase ≡ started
  pub all : run.state.started ≡ length run.state.hooks
  pub completed : completed_starts run.log ≡ starts run.log
  pub order : starts run.log ≡ plan s (entries (length (starts run.log)) ts)

-- The start ended at the hook `index`: its OnStart failed, panicked or was dropped. Those before it
-- were started in order; it is gone, and so is each later hook that has an OnStart.
pub record Interrupted (ts : List Turn) (s : State) (run : Run) : Type 0 where
  pub index : ℕ
  pub later : List ℕ
  pub result : run.await ≢ returns (ok tt)
  pub phase : run.state.phase ≡ stopping
  pub all : run.state.started ≡ length run.state.hooks
  pub last : starts run.log ≡ completed_starts run.log ++ index ∷ []
  pub order : starts run.log ++ later ≡ plan s (entries (length (completed_starts run.log)) ts)
  pub gone : inner_at run.state.hooks index ≡ none
  pub never : (j : ℕ) → index < j → startable (inner_at run.state.hooks j) ≡ false

startable-unstarted : (o : Option HookEntryInner) → startable (unstarted o) ≡ false
startable-unstarted o = ground arith

none-unstarted :
    (b : Bool) (o : Option HookEntryInner) → o ≡ none → (if b then o else unstarted o) ≡ none
none-unstarted b o e = ground arith

not_below : (i j : ℕ) → i < j → ltb j i ≡ false
not_below i j h = ground arith

module _ (s : State) (r : Found s.started (rest s)) (inv : s.started ≤ length s.hooks) where
  abbrev prepared : List Hook → State
  prepared hs = prepare_for_unwind (running s r hs)

  fits : (hs : List Hook) → index s r ≤ length (running s r hs).hooks
  fits hs = omega (arith, index-lt s r inv, length-running s r inv hs)

  gone-lem : (hs : List Hook) → inner_at (prepared hs).hooks (index s r) ≡ none
  gone-lem hs =
      (prepare_for_unwind-inner_at (running s r hs) (index s r) (fits hs)).0
      ∙ none-unstarted _ _ (running-gone s r inv hs)

  never-lem :
      (hs : List Hook) (j : ℕ) → index s r < j → startable (inner_at (prepared hs).hooks j) ≡ false
  never-lem hs j lt =
      ap startable (prepare_for_unwind-inner_at (running s r hs) j (fits hs)).0
      ∙ rw (not_below (index s r) j lt) (startable-unstarted (inner_at (running s r hs).hooks j))

  -- The runs that end at the hook of this round.
  interrupted :
      (ts : List Turn) (hs : List Hook) (run : Run)
      → run.await ≢ returns (ok tt)
      → run.state ≡ prepared hs
      → starts run.log ≡ index s r ∷ []
      → completed_starts run.log ≡ []
      → Interrupted ts s run
  interrupted ts hs run result state log none_done = record {
    index = index s r;
    later = start_plan (suc (index s r)) (drop (suc r.skipped) (rest s) ++ []);
    result = result;
    phase = rw state (prepare_for_unwind-inner_at (running s r hs) 0 (fits hs)).3;
    all = rw state (prepare_for_unwind-inner_at (running s r hs) 0 (fits hs)).1;
    last = log ∙ ap (λ xs. xs ++ index s r ∷ []) (sym none_done);
    order = rw log (rw none_done (sym (r.first [])));
    gone = rw state (gone-lem hs);
    never = λ j lt. rw state (never-lem hs j lt);
  }

  -- The runs in which the hook of this round starts, and the start goes on.
  continued :
      (t : Turn) (ts : List Turn) (run : Run) (name : String)
      → Succeeded ts (next s r t) run ⊎ Interrupted ts (next s r t) run
      → let run' =
          after_events
            (start_executing (index s r) name ∷ start_executed (index s r) name ∷ [])
            run in
        Succeeded (t ∷ ts) s run' ⊎ Interrupted (t ∷ ts) s run'
  continued t ts run name (inl h) = inl (record {
    result = h.result;
    phase = h.phase;
    all = h.all;
    completed = ap (λ xs. index s r ∷ xs) h.completed;
    order =
        ap (λ xs. index s r ∷ xs) h.order
        ∙ sym (plan-next s r inv t (entries (length (starts run.log)) ts));
  })
  continued t ts run name (inr h) = inr (record {
    index = h.index;
    later = h.later;
    result = h.result;
    phase = h.phase;
    all = h.all;
    last = ap (λ xs. index s r ∷ xs) h.last;
    order =
        ap (λ xs. index s r ∷ xs) h.order
        ∙ sym (plan-next s r inv t (entries (length (completed_starts run.log)) ts));
    gone = h.gone;
    never = h.never;
  })

  round-outcome :
      (a : Await) (t : Turn) (ts : List Turn) (run : Run) (name : String)
      → Succeeded ts (next s r t) run ⊎ Interrupted ts (next s r t) run
      → let run' =
          after_events
            (start_executing (index s r) name ∷ [])
            (end_start a (running s r t.appended) (index s r) name run) in
        Succeeded (t ∷ ts) s run' ⊎ Interrupted (t ∷ ts) s run'
  unfolding end_start abandoned
  round-outcome (returns (ok u)) t ts run name ih = continued t ts run name ih
  round-outcome (returns (err e)) t ts run name ih =
      inr (interrupted (t ∷ ts) t.appended _ (λ p. cc) refl refl refl)
  round-outcome (returns (panicked m)) t ts run name ih =
      inr (interrupted (t ∷ ts) t.appended _ (λ p. cc) refl refl refl)
  round-outcome dropped t ts run name ih =
      inr (interrupted (t ∷ ts) t.appended _ (λ p. cc) refl refl refl)

Nothing-Succeeded :
    (ts : List Turn) (s : State) (r : Nothing s.started (rest s))
    → s.started ≤ length s.hooks
    → Succeeded ts s (finished (all_started s r))
unfolding finished
Nothing-Succeeded ts s r inv = record {
  result = refl;
  phase = refl;
  all = length-drop-add s.started s.hooks inv;
  completed = refl;
  order = sym (r.passed [] ∙ start_plan-nil (s.started + length (rest s)));
}

start_inner-outcome :
    (ts : List Turn) (s : State)
    → s.phase ≡ starting
    → s.started ≤ length s.hooks
    → let run = start_inner ts s in Succeeded ts s run ⊎ Interrupted ts s run
unfolding abandoned
start_inner-outcome [] s e inv = elim (first_start-cases s.started (rest s)) [
  | inl r ↦ rw (start_inner-Nothing s [] r) (inl (Nothing-Succeeded [] s r inv))
  | inr r ↦
      rw (start_inner-dropped s r) (inr (interrupted s r inv [] [] _ (λ p. cc) refl refl refl))
]
start_inner-outcome (t ∷ ts) s e inv = elim (first_start-cases s.started (rest s)) [
  | inl r ↦ rw (start_inner-Nothing s (t ∷ ts) r) (inl (Nothing-Succeeded (t ∷ ts) s r inv))
  | inr r ↦ rw (start_inner-found s r t ts e) (
      round-outcome s r inv t.await t ts _ _
        (start_inner-outcome ts (next s r t) (next-phase s r t ∙ e) (next-inv s r inv t)))
]

-- Every start ends in one of two ways. Either it returns `Ok`: every hook with an OnStart was
-- entered and completed, once and in registration order, the hooks that were appended meanwhile
-- included, and the phase is Started. Or it ends at one hook, which fails, panics or is dropped:
-- the hooks before it completed in order, it and all later hooks with an OnStart are gone, so that
-- their OnStop cannot run, and the phase is Stopping.
pub start-outcome :
    (ts : List Turn) (s : State)
    → s.started ≤ length s.hooks
    → let run = start ts s in
      Succeeded ts (record s { phase = starting }) run
      ⊎ Interrupted ts (record s { phase = starting }) run
unfolding start
start-outcome ts s inv = start_inner-outcome ts (record s { phase = starting }) refl inv
