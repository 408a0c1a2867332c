-- ===== src/Lifecycle/Prepare.antt =====
-- `prepare_for_unwind`: which hooks an unwind will still find.
use modrun.Base.{
  ℕ, zero, suc, ◌+◌, ◌-◌, ◌≤◌, ◌≡◌, refl, ap, ◌∙◌, inl, inr, false, Option, none, some, List, [],
  ◌∷◌, ◌++◌, length, take, drop, arith, Bool-cases, ltb, if◌then◌else◌, length-append,
  length-take_le, length-drop-add,
}
use modrun.Lifecycle.{
  State, HookEntry, HookEntryInner, stopping, has_start, inner_at, drop_unstarted,
  prepare_for_unwind,
}
use modrun.Lifecycle.Entries.{inner_at-drop}

-- What is left of a hook that has not started: it stays only if it has no OnStart.
abbrev pub unstarted : Option HookEntryInner → Option HookEntryInner
unstarted none = none
unstarted (some hook) = if has_start hook then none else some hook

length-drop_unstarted : (es : List HookEntry) → length (drop_unstarted es) ≡ length es
unfolding drop_unstarted
length-drop_unstarted [] = refl
length-drop_unstarted (e ∷ es) = ground (arith, length-drop_unstarted es)

inner_at-drop_unstarted :
    (es : List HookEntry) (k : ℕ) → inner_at (drop_unstarted es) k ≡ unstarted (inner_at es k)
unfolding drop_unstarted
inner_at-drop_unstarted [] k = refl
inner_at-drop_unstarted (e ∷ es) zero = ground arith
inner_at-drop_unstarted (e ∷ es) (suc k) = ground (arith, inner_at-drop_unstarted es k)

inner_at-take_append :
    (n : ℕ) (es ds : List HookEntry) (j : ℕ)
    → n ≤ length es
    → inner_at (take n es ++ ds) j ≡ (if ltb j n then inner_at es j else inner_at ds (j - n))
inner_at-take_append zero es ds j h = ground arith
inner_at-take_append (suc n) [] ds j h = absurd (omega arith)
inner_at-take_append (suc n) (e ∷ es) ds zero h = ground arith
inner_at-take_append (suc n) (e ∷ es) ds (suc j) h = ground (arith, inner_at-take_append n es ds j)

behind :
    (n : ℕ) (es : List HookEntry) (j : ℕ)
    → ltb j n ≡ false
    → inner_at (drop_unstarted (drop n es)) (j - n) ≡ unstarted (inner_at es j)
behind n es j h =
    let at : n + (j - n) ≡ j = ground arith in
    inner_at-drop_unstarted (drop n es) (j - n)
    ∙ ap unstarted (inner_at-drop n (j - n) es ∙ ap (inner_at es) at)

-- `prepare_for_unwind` keeps every hook that has started, and of the others those without an
-- OnStart. All count as started then, and no hook can be appended any more.
pub prepare_for_unwind-inner_at :
    (s : State) (j : ℕ)
    → s.started ≤ length s.hooks
    → let s' = prepare_for_unwind s in
      (inner_at s'.hooks j
        ≡ (if ltb j s.started then inner_at s.hooks j else unstarted (inner_at s.hooks j)))
      × (s'.started ≡ length s'.hooks)
      × (length s'.hooks ≡ length s.hooks)
      × (s'.phase ≡ stopping)
unfolding prepare_for_unwind
prepare_for_unwind-inner_at s j h =
    let rest = drop s.started s.hooks in
    let sizes = length-append (take s.started s.hooks) (drop_unstarted rest) in
    let front = length-take_le s.started s.hooks h in
    let back = length-drop_unstarted rest in
    let whole = length-drop-add s.started s.hooks h in
    (
      inner_at-take_append s.started s.hooks (drop_unstarted rest) j h
          ∙ elim (Bool-cases (ltb j s.started)) [
            | inl e ↦ rw e refl
            | inr e ↦ rw e (behind s.started s.hooks j e)
          ],
      omega arith,
      omega arith,
      refl,
    )
