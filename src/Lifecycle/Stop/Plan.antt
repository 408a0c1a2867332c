-- ===== src/Lifecycle/Stop/Plan.antt =====
-- What `take_next_stop` finds, against the plan of a stop: the indices below `started` whose
-- hook is there and has an OnStop, from the last to the first.
use modrun.Base.{
  ℕ, zero, suc, ◌≤◌, ◌<◌, String, ◌≡◌, refl, sym, ap, ◌∙◌, ◌⊎◌, inl, inr, Bool, true, false, Option,
  none, some, List, [], ◌∷◌, length, arith, Bool-cases, Option-cases, if◌then◌else◌,
}
use modrun.Lifecycle.{
  State, HookEntry, HookEntryInner, has_stop, set_inner, inner_at, name_at, take_stop,
}
use modrun.Lifecycle.Entries.{
  length-set_inner, inner_at-set_inner, inner_at-set_inner_ne, name_at-set_inner, inner_at-lt,
}

abbrev pub stoppable : Option HookEntryInner → Bool
stoppable none = false
stoppable (some hook) = has_stop hook

unfoldable pub stop_plan : List HookEntry → ℕ → List ℕ
stop_plan hooks zero = []
stop_plan hooks (suc i) =
    if stoppable (inner_at hooks i) then i ∷ stop_plan hooks i else stop_plan hooks i

abbrev pub plan : State → List ℕ
plan s = stop_plan s.hooks s.started

pub stop_plan-suc :
    (es : List HookEntry) (i : ℕ)
    → stop_plan es (suc i)
      ≡ (if stoppable (inner_at es i) then i ∷ stop_plan es i else stop_plan es i)
unfolding stop_plan
stop_plan-suc es i = refl

pub stop_plan-zero : (es : List HookEntry) → stop_plan es 0 ≡ []
unfolding stop_plan
stop_plan-zero es = refl

-- The plan below an index reads only the hooks below it.
pub stop_plan-agree :
    (es ds : List HookEntry) (n : ℕ)
    → ((j : ℕ) → j < n → inner_at es j ≡ inner_at ds j)
    → stop_plan es n ≡ stop_plan ds n
unfolding stop_plan
stop_plan-agree es ds zero h = refl
stop_plan-agree es ds (suc n) h =
    rw (h n (omega arith), stop_plan-agree es ds n (λ j lt. h j (omega arith))) refl

-- The hooks `ds` are `es` but for hooks at the index `n` and above.
pub record Agree (es ds : List HookEntry) (n : ℕ) : Type 0 where
  pub same_length : length ds ≡ length es
  pub same_inner : (j : ℕ) → j < n → inner_at ds j ≡ inner_at es j
  pub same_name : (j : ℕ) → name_at ds j ≡ name_at es j

pub Agree-refl : (es : List HookEntry) (n : ℕ) → Agree es es n
Agree-refl es n = record { same_length = refl; same_inner = λ j lt. refl; same_name = λ j. refl }

pub Agree-trans :
    (es ds cs : List HookEntry) (m n : ℕ) → m ≤ n → Agree es ds n → Agree ds cs m → Agree es cs m
Agree-trans es ds cs m n le a b = record {
  same_length = b.same_length ∙ a.same_length;
  same_inner = λ j lt. b.same_inner j lt ∙ a.same_inner j (omega arith);
  same_name = λ j. b.same_name j ∙ a.same_name j;
}

pub Agree-set_inner :
    (es : List HookEntry) (i : ℕ) (o : Option HookEntryInner) → Agree es (set_inner es i o) i
Agree-set_inner es i o = record {
  same_length = length-set_inner es i o;
  same_inner = λ j lt. inner_at-set_inner_ne es i j o (omega arith);
  same_name = λ j. name_at-set_inner es i j o;
}

-- `take_stop` finds no hook, and there is none to find.
pub record Nothing (es : List HookEntry) (n : ℕ) : Type 0 where
  pub left : List HookEntry
  pub result : take_stop es n ≡ (left, 0, none)
  pub empty : stop_plan es n ≡ []

-- `take_stop` finds the first hook of the plan, takes it out, and leaves those below it.
pub record Found (es : List HookEntry) (n : ℕ) : Type 0 where
  pub left : List HookEntry
  pub index : ℕ
  pub hook : HookEntryInner
  pub result : take_stop es n ≡ (left, index, some (index, name_at es index, hook))
  pub first : stop_plan es n ≡ index ∷ stop_plan es index
  pub below : index < n
  pub in_range : index < length es
  pub stops : has_stop hook ≡ true
  pub gone : inner_at left index ≡ none
  pub agree : Agree es left index

-- One round of the loop that finds nothing at the index `i`, and goes on with the hooks `ds`.
skip_hook :
    (es ds : List HookEntry) (i : ℕ)
    → take_stop es (suc i) ≡ take_stop ds i
    → stoppable (inner_at es i) ≡ false
    → Agree es ds i
    → Nothing ds i ⊎ Found ds i
    → Nothing es (suc i) ⊎ Found es (suc i)
unfolding stop_plan
skip_hook es ds i same none_here agree (inl r) = inl (record {
  left = r.left;
  result = same ∙ r.result;
  empty = rw none_here (sym (stop_plan-agree ds es i agree.same_inner) ∙ r.empty);
})
skip_hook es ds i same none_here agree (inr r) = inr (record {
  left = r.left;
  index = r.index;
  hook = r.hook;
  result =
      same
      ∙ (r.result
          ∙ ap (λ (x : String). (r.left, r.index, some (r.index, x, r.hook)))
              (agree.same_name r.index));
  first = rw none_here (
      sym (stop_plan-agree ds es i agree.same_inner)
      ∙ (r.first
          ∙ ap (λ xs. r.index ∷ xs)
              (stop_plan-agree ds es r.index
                (λ j lt. agree.same_inner j (omega (arith, r.below))))));
  below = omega (arith, r.below);
  in_range = omega (arith, r.in_range, agree.same_length);
  stops = r.stops;
  gone = r.gone;
  agree = Agree-trans es ds r.left r.index i (omega (arith, r.below)) agree r.agree;
})

pub take_stop-cases : (es : List HookEntry) (n : ℕ) → Nothing es n ⊎ Found es n
unfolding take_stop stop_plan
take_stop-cases es zero = inl (record { left = es; result = refl; empty = refl })
take_stop-cases es (suc i) = elim (Option-cases (inner_at es i)) [
  | inl e ↦
      skip_hook es es i (rw (e, take_stop) refl) (rw e refl) (Agree-refl es i)
        (take_stop-cases es i)
  | inr (h, e) ↦ elim (Bool-cases (has_stop h)) [
    | inl stops ↦ inr (record {
      left = set_inner es i none;
      index = i;
      hook = h;
      result = rw (e, take_stop) (rw (stops, take_stop) refl);
      first = rw e (rw stops refl);
      below = omega arith;
      in_range = inner_at-lt es i h e;
      stops = stops;
      gone = inner_at-set_inner es i none (inner_at-lt es i h e);
      agree = Agree-set_inner es i none;
    })
    | inr silent ↦
        skip_hook es (set_inner es i none) i (rw (e, take_stop) (rw (silent, take_stop) refl))
          (rw e silent) (Agree-set_inner es i none) (take_stop-cases (set_inner es i none) i)
  ]
]
