-- ===== src/Lifecycle.antt =====
-- The lifecycle registry (src/lifecycle.rs): the hooks, how many have started, and the phase.
-- A callback is a number that names it, and so is the state of a hook object. What an awaited
-- callback does is an argument of the functions that await it, a `Turn`.
pub mod Entries
pub mod Prepare
pub mod Turn
pub mod Start
pub mod Stop
pub mod Unwound
pub mod Reached
use modrun.Base.{
  ℕ, zero, suc, ◌+◌, String, Bool, true, false, Option, none, some, List, [], ◌∷◌, ◌++◌,
  if◌then◌else◌, length, take, drop,
}
use modrun.Error.{Result, ok, err, append_after_start, append_while_stopping}

-- Ad-hoc callbacks.
pub record HookFn : Type 0 where
  pub name : String
  pub on_start : Option ℕ
  pub on_stop : Option ℕ

-- Any other implementor of `Hook`: what its methods answer in the object's present state.
pub record ErasedHook : Type 0 where
  pub has_start : Bool
  pub has_stop : Bool
  pub object : ℕ

-- What can be appended; only a `HookFn` answers `closure_hook` with itself.
pub data Hook : Type 0 where
  hook_fn : HookFn → Hook
  custom : (name : String) → ErasedHook → Hook

pub data HookEntryInner : Type 0 where
  closure : (on_start on_stop : Option ℕ) → HookEntryInner
  object : ErasedHook → HookEntryInner

pub record HookEntry : Type 0 where
  pub name : String
  pub inner : Option HookEntryInner

pub data Phase : Type 0 where
  registering starting started stopping : Phase

pub record State : Type 0 where
  pub hooks : List HookEntry
  pub started : ℕ
  pub phase : Phase

pub new_hook : HookFn
new_hook = record { name = "unnamed"; on_start = none; on_stop = none }

pub named : HookFn → String → HookFn
named h name = record h { name = name }

pub with_start : HookFn → ℕ → HookFn
with_start h f = record h { on_start = some f }

pub with_stop : HookFn → ℕ → HookFn
with_stop h f = record h { on_stop = some f }

abbrev pub is_some {ℓ} : {A : Type ℓ} → Option A → Bool
is_some none = false
is_some (some _) = true

abbrev pub hook_name : Hook → String
hook_name (hook_fn h) = h.name
hook_name (custom name _) = name

abbrev pub erase_hook : Hook → HookEntryInner
erase_hook (hook_fn h) = closure h.on_start h.on_stop
erase_hook (custom _ h) = object h

abbrev pub has_start : HookEntryInner → Bool
has_start (closure on_start _) = is_some on_start
has_start (object h) = h.has_start

abbrev pub has_stop : HookEntryInner → Bool
has_stop (closure _ on_stop) = is_some on_stop
has_stop (object h) = h.has_stop

-- The hook once `on_start` was called: a closure's start callback is taken, and an object is in
-- whatever state its method leaves it.
abbrev pub after_start : HookEntryInner → ErasedHook → HookEntryInner
after_start (closure _ on_stop) h = closure none on_stop
after_start (object _) h = object h

-- The same for `on_stop`, whose closure can be called again.
abbrev pub after_stop : HookEntryInner → ErasedHook → HookEntryInner
after_stop (closure on_start on_stop) h = closure on_start on_stop
after_stop (object _) h = object h

pub new : State
new = record { hooks = []; started = 0; phase = registering }

abbrev pub to_entry : Hook → HookEntry
to_entry h = record { name = hook_name h; inner = some (erase_hook h) }

append_in : Phase → State → Hook → State × Result (Unit {0})
append_in registering s h = (record s { hooks = s.hooks ++ to_entry h ∷ [] }, ok tt)
append_in starting s h = (record s { hooks = s.hooks ++ to_entry h ∷ [] }, ok tt)
append_in started s h = (s, err append_after_start)
append_in stopping s h = (s, err append_while_stopping)

-- `Lifecycle::append`
pub append : State → Hook → State × Result (Unit {0})
unfolding append_in
append s h = append_in s.phase s h

unfoldable pub append_all : State → List Hook → State
unfolding append
append_all s [] = s
append_all s (h ∷ hs) = append_all (append s h).0 hs

-- `hooks[i].inner = inner`
pub set_inner : List HookEntry → ℕ → Option HookEntryInner → List HookEntry
set_inner [] i inner = []
set_inner (e ∷ es) zero inner = record e { inner = inner } ∷ es
set_inner (e ∷ es) (suc i) inner = e ∷ set_inner es i inner

abbrev pub Taken : Type 0
Taken = ℕ × String × HookEntryInner

-- The inner loop of `start_inner` from the index `i`, where the rest of the hooks begins: the
-- index that it stops at, and the hook there.
pub first_start : ℕ → List HookEntry → ℕ × Option Taken
first_start i [] = (i, none)
first_start i (e ∷ es) = elim e.inner [
  | none ↦ first_start (suc i) es
  | some hook ↦ elim (has_start hook) [
    | true ↦ (i, some (i, e.name, hook))
    | false ↦ first_start (suc i) es
  ]
]

take_first : State → ℕ → Option Taken → State × Option Taken
take_first s i none = (record s { started = i; phase = started }, none)
take_first s i (some taken) =
    (record s { started = i; hooks = set_inner s.hooks i none }, some taken)

-- The block of `start_inner` under one lock.
unfoldable pub take_next_start : State → State × Option Taken
unfolding first_start take_first set_inner
take_next_start s =
    let (i, found) = first_start s.started (drop s.started s.hooks) in take_first s i found

-- The hooks that `prepare_for_unwind` has still to walk: those with an OnStart are dropped.
pub drop_unstarted : List HookEntry → List HookEntry
drop_unstarted [] = []
drop_unstarted (e ∷ es) = elim e.inner [
  | none ↦ e ∷ drop_unstarted es
  | some hook ↦ (if has_start hook then record e { inner = none } else e) ∷ drop_unstarted es
]

unfoldable pub prepare_for_unwind : State → State
unfolding drop_unstarted
prepare_for_unwind s = record {
  hooks = take s.started s.hooks ++ drop_unstarted (drop s.started s.hooks);
  started = s.started + length (drop s.started s.hooks);
  phase = stopping;
}

abbrev pub inner_at : List HookEntry → ℕ → Option HookEntryInner
inner_at [] i = none
inner_at (e ∷ es) zero = e.inner
inner_at (e ∷ es) (suc i) = inner_at es i

abbrev pub name_at : List HookEntry → ℕ → String
name_at [] i = ""
name_at (e ∷ es) zero = e.name
name_at (e ∷ es) (suc i) = name_at es i

-- The loop of `take_next_stop`, from the number of started hooks down. An index is below the
-- number of hooks wherever the code calls it (`started` never passes it).
pub take_stop : List HookEntry → ℕ → List HookEntry × ℕ × Option Taken
unfolding set_inner
take_stop hooks zero = (hooks, zero, none)
take_stop hooks (suc i) = elim (inner_at hooks i) [
  | none ↦ take_stop hooks i
  | some hook ↦ elim (has_stop hook) [
    | true ↦ (set_inner hooks i none, i, some (i, name_at hooks i, hook))
    | false ↦ take_stop (set_inner hooks i none) i
  ]
]

pub take_next_stop : State → State × Option Taken
unfolding take_stop
take_next_stop s =
    let (hooks, n, found) = take_stop s.hooks s.started in
    (record s { hooks = hooks; started = n }, found)
