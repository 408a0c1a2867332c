-- ===== src/Lifecycle/Start/Plan.antt =====
-- What the loop of `take_next_start` finds, against the plan of a start: the indices from
-- `started` on whose hook has an OnStart, in registration order.
use native.Mathlib.Nat.{add-zero}
use modrun.Base.{
  ℕ, suc, ◌+◌, ◌<◌, String, ◌≡◌, refl, sym, ap, ◌∙◌, ◌⊎◌, inl, inr, Bool, true, false, Option, none,
  some, List, [], ◌∷◌, ◌++◌, length, drop, arith, Bool-cases, Option-cases, if◌then◌else◌,
}
use modrun.Lifecycle.{HookEntry, HookEntryInner, Taken, has_start, name_at, first_start}

abbrev pub startable : Option HookEntryInner → Bool
startable none = false
startable (some hook) = has_start hook

pub start_plan : ℕ → List HookEntry → List ℕ
start_plan i [] = []
start_plan i (e ∷ es) =
    if startable e.inner then i ∷ start_plan (suc i) es else start_plan (suc i) es

pub start_plan-nil : (i : ℕ) → start_plan i [] ≡ []
unfolding start_plan
start_plan-nil i = refl

-- No hook of `es`, which stand from the index `i` on, is to be started.
pub record Nothing (i : ℕ) (es : List HookEntry) : Type 0 where
  pub result : first_start i es ≡ (i + length es, none)
  pub passed : (ds : List HookEntry) → start_plan i (es ++ ds) ≡ start_plan (i + length es) ds

-- The first hook of `es` to be started stands at the offset `skipped`.
pub record Found (i : ℕ) (es : List HookEntry) : Type 0 where
  pub skipped : ℕ
  pub hook : HookEntryInner
  pub result : first_start i es ≡ (i + skipped, some (i + skipped, name_at es skipped, hook))
  pub starts : has_start hook ≡ true
  pub in_range : skipped < length es
  pub first :
      (ds : List HookEntry)
      → start_plan i (es ++ ds)
        ≡ (i + skipped) ∷ start_plan (suc (i + skipped)) (drop (suc skipped) es ++ ds)

-- The results of `first_start` at an index.
none_from : ℕ → ℕ × Option Taken
none_from n = (n, none)

found_at : String → HookEntryInner → ℕ → ℕ × Option Taken
found_at name hook n = (n, some (n, name, hook))

skip_entry :
    (i : ℕ) (e : HookEntry) (es : List HookEntry)
    → first_start i (e ∷ es) ≡ first_start (suc i) es
    → startable e.inner ≡ false
    → Nothing (suc i) es ⊎ Found (suc i) es
    → Nothing i (e ∷ es) ⊎ Found i (e ∷ es)
unfolding start_plan none_from found_at
skip_entry i e es same idle (inl r) =
    let shift : suc i + length es ≡ i + suc (length es) = omega arith in
    inl (record {
      result = same ∙ (r.result ∙ ap none_from shift);
      passed = λ ds. rw idle (r.passed ds ∙ ap (λ n. start_plan n ds) shift);
    })
skip_entry i e es same idle (inr r) =
    let shift : suc i + r.skipped ≡ i + suc r.skipped = omega arith in
    inr (record {
      skipped = suc r.skipped;
      hook = r.hook;
      result = same ∙ (r.result ∙ ap (found_at (name_at es r.skipped) r.hook) shift);
      starts = r.starts;
      in_range = omega (arith, r.in_range);
      first = λ ds. rw idle (
          r.first ds
          ∙ ap (λ (n : ℕ). n ∷ start_plan (suc n) (drop (suc r.skipped) es ++ ds)) shift);
    })

pub first_start-cases : (i : ℕ) (es : List HookEntry) → Nothing i es ⊎ Found i es
unfolding first_start start_plan none_from found_at
first_start-cases i [] = inl (record {
  result = ap none_from (sym (add-zero i));
  passed = λ ds. ap (λ n. start_plan n ds) (sym (add-zero i));
})
first_start-cases i (e ∷ es) = elim (Option-cases e.inner) [
  | inl none_here ↦
      skip_entry i e es (rw (none_here, first_start) refl) (rw none_here refl)
        (first_start-cases (suc i) es)
  | inr (hook, here) ↦ elim (Bool-cases (has_start hook)) [
    | inl starts ↦
        let at : i ≡ i + 0 = sym (add-zero i) in
        inr (record {
          skipped = 0;
          hook = hook;
          result = rw (here, first_start) (rw (starts, first_start) (ap (found_at e.name hook) at));
          starts = starts;
          in_range = omega arith;
          first = λ ds. rw here (rw starts (ap (λ (n : ℕ). n ∷ start_plan (suc n) (es ++ ds)) at));
        })
    | inr idle ↦
        skip_entry i e es (rw (here, first_start) (rw (idle, first_start) refl)) (rw here idle)
          (first_start-cases (suc i) es)
  ]
]
