-- ===== src/Lifecycle/Start/Rounds.antt =====
-- One round of the loop of a start, for each thing that `first_start` can find.
use native.Mathlib.Numerals.{add-one}
use modrun.Base.{
  String, length-drop-add, ℕ, suc, ◌+◌, ◌≤◌, ◌<◌, ◌≡◌, refl, sym, ap, ◌∙◌, Option, some, none, List,
  [], ◌∷◌, ◌++◌, map, length, drop, arith, append_assoc, append-nil, drop-append, drop-drop,
  length-append,
}
use modrun.Error.{Result, ok}
use modrun.Lifecycle.{
  State, Hook, HookEntry, Taken, started, starting, to_entry, after_start, append, append_in,
  take_first, append_all, set_inner, inner_at, name_at, take_next_start,
}
use modrun.Lifecycle.Entries.{length-set_inner, inner_at-set_inner, drop-set_inner, inner_at-append}
use modrun.Lifecycle.Turn.{Turn, start_executing, after_events}
use modrun.Lifecycle.Start.{
  put_back, finished, abandoned, end_start, start_round, last_round, start_inner,
}
use modrun.Lifecycle.Start.Plan.{Nothing, Found, start_plan}

append-starting :
    (s : State) (h : Hook)
    → s.phase ≡ starting
    → append s h ≡ (record s { hooks = s.hooks ++ to_entry h ∷ [] }, ok tt)
unfolding append
append-starting s h e = ap (λ p. append_in p s h) e

-- While the start runs, hooks can be appended.
append_all-starting :
    (s : State) (hs : List Hook)
    → s.phase ≡ starting
    → append_all s hs ≡ record s { hooks = s.hooks ++ map to_entry hs }
unfolding append_all
append_all-starting s [] e =
    ap (λ (hooks : List HookEntry). record s { hooks = hooks }) (sym (append-nil s.hooks))
append_all-starting s (h ∷ hs) e =
    ap (λ (x : State × Result (Unit {0})). append_all x.0 hs) (append-starting s h e)
    ∙ (append_all-starting (record s { hooks = s.hooks ++ to_entry h ∷ [] }) hs e
        ∙ ap (λ (hooks : List HookEntry). record s { hooks = hooks })
            (append_assoc s.hooks (to_entry h ∷ []) (map to_entry hs)))

abbrev pub rest : State → List HookEntry
rest s = drop s.started s.hooks

-- The indices that the start has still to start, if `ds` are appended.
abbrev pub plan : State → List HookEntry → List ℕ
plan s ds = start_plan s.started (rest s ++ ds)

module _ (s : State) where
  abbrev pub all_started : Nothing s.started (rest s) → State
  all_started r = record s { started = s.started + length (rest s); phase = started }

  take_next_start-Nothing :
      (r : Nothing s.started (rest s)) → take_next_start s ≡ (all_started r, none)
  unfolding take_next_start
  take_next_start-Nothing r = ap (λ (x : ℕ × Option Taken). take_first s x.0 x.1) r.result

  pub start_inner-Nothing :
      (ts : List Turn) (r : Nothing s.started (rest s))
      → start_inner ts s ≡ finished (all_started r)
  unfolding start_inner
  start_inner-Nothing [] r = ap last_round (take_next_start-Nothing r)
  start_inner-Nothing (t ∷ ts) r =
      ap (λ (x : State × Option Taken). start_round t x (start_inner ts))
        (take_next_start-Nothing r)

module _ (s : State) (r : Found s.started (rest s)) where
  abbrev pub index : ℕ
  index = s.started + r.skipped

  abbrev pub name : String
  name = name_at (rest s) r.skipped

  abbrev taken : State
  taken = record s { started = index; hooks = set_inner s.hooks index none }

  -- The state while the OnStart of the found hook is awaited, and `hs` are appended.
  abbrev pub running : List Hook → State
  running hs = record taken { hooks = taken.hooks ++ map to_entry hs }

  -- The state once it has returned.
  abbrev pub next : Turn → State
  next t = put_back (running t.appended) index (after_start r.hook t.left)

  take_next_start-found : take_next_start s ≡ (taken, some (index, name, r.hook))
  unfolding take_next_start
  take_next_start-found = ap (λ (x : ℕ × Option Taken). take_first s x.0 x.1) r.result

  pub start_inner-dropped :
      start_inner [] s
      ≡ after_events (start_executing index name ∷ []) (abandoned (running []) index name)
  unfolding start_inner
  start_inner-dropped =
      ap last_round take_next_start-found
      ∙ ap
          (λ (hooks : List HookEntry).
            after_events (start_executing index name ∷ [])
              (abandoned (record taken { hooks = hooks }) index name))
          (sym (append-nil taken.hooks))

  pub start_inner-found :
      (t : Turn) (ts : List Turn)
      → s.phase ≡ starting
      → start_inner (t ∷ ts) s
        ≡ after_events
            (start_executing index name ∷ [])
            (end_start t.await (running t.appended) index name (start_inner ts (next t)))
  unfolding start_inner
  start_inner-found t ts e =
      ap (λ (x : State × Option Taken). start_round t x (start_inner ts)) take_next_start-found
      ∙ ap
          (λ (s' : State). after_events (start_executing index name ∷ []) (
            end_start t.await s' index name
              (start_inner ts (put_back s' index (after_start r.hook t.left)))))
          (append_all-starting taken t.appended e)

  pub next-phase : (t : Turn) → (next t).phase ≡ s.phase
  unfolding put_back
  next-phase t = refl

  module _ (inv : s.started ≤ length s.hooks) where
    pub index-lt : index < length s.hooks
    index-lt = omega (arith, length-drop-add s.started s.hooks inv, r.in_range)

    pub length-running :
        (hs : List Hook) → length (running hs).hooks ≡ length s.hooks + length (map to_entry hs)
    length-running hs =
        length-append taken.hooks (map to_entry hs)
        ∙ ap (λ (n : ℕ). n + length (map to_entry hs)) (length-set_inner s.hooks index none)

    pub running-gone : (hs : List Hook) → inner_at (running hs).hooks index ≡ none
    running-gone hs =
        inner_at-append taken.hooks (map to_entry hs) index
          (omega (arith, index-lt, length-set_inner s.hooks index none))
        ∙ inner_at-set_inner s.hooks index none index-lt

    rest-next :
        (t : Turn) → rest (next t) ≡ drop (suc r.skipped) (rest s) ++ map to_entry t.appended
    unfolding put_back
    rest-next t =
        let ds = map to_entry t.appended in
        let after = some (after_start r.hook t.left) in
        let lt = index-lt in
        let at : s.started + suc r.skipped ≡ suc index = omega arith in
        ap (λ (n : ℕ). drop n (set_inner (taken.hooks ++ ds) index after)) (add-one index)
        ∙ (drop-set_inner (taken.hooks ++ ds) index (suc index) after (omega arith)
            ∙ (drop-append (suc index) taken.hooks ds
                  (omega (arith, lt, length-set_inner s.hooks index none))
                ∙ ap (λ xs. xs ++ ds)
                    (drop-set_inner s.hooks index (suc index) none (omega arith)
                      ∙ (ap (λ n. drop n s.hooks) (sym at)
                          ∙ sym (drop-drop s.started (suc r.skipped) s.hooks)))))

    -- The hook that was started is the first of the plan, and what follows is the next plan.
    pub plan-next :
        (t : Turn) (ds : List HookEntry)
        → plan s (map to_entry t.appended ++ ds) ≡ index ∷ plan (next t) ds
    unfolding put_back
    plan-next t ds =
        r.first (map to_entry t.appended ++ ds)
        ∙ (ap (λ xs. index ∷ start_plan (suc index) xs)
              (sym (append_assoc (drop (suc r.skipped) (rest s)) (map to_entry t.appended) ds)
                ∙ ap (λ xs. xs ++ ds) (sym (rest-next t)))
            ∙ ap (λ (n : ℕ). index ∷ start_plan n (rest (next t) ++ ds)) (sym (add-one index)))

    pub next-inv : (t : Turn) → (next t).started ≤ length (next t).hooks
    unfolding put_back
    next-inv t = omega (
      arith,
      index-lt,
      length-running t.appended,
      length-set_inner (running t.appended).hooks index (some (after_start r.hook t.left)),
    )
