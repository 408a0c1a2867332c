-- ===== src/Container/Build.antt =====
-- The construction of the values that are needed, layer by layer (src/container/build.rs).
-- The events of tracing that it emits are left out.
pub mod Intact
pub mod Stored
pub mod Waves
pub mod Pending
use modrun.Base.{
  ℕ, suc, String, Bool, true, false, Option, none, some, List, [], ◌∷◌, if◌then◌else◌,
}
use modrun.Base.Assoc.{contains, add, discard}
use modrun.Error.{Error, Result, ok, err, panicked, cycle, expect, ◌>>=◌}
use modrun.Future.{Future, try_join_all, join}
use modrun.Future.Sweep.{total}
use modrun.Container.Types.{
  Constructed, ConstructOut, ready, fut, ProviderKey, is_group_member, DynProvider,
}
use modrun.Container.Keys.{key_eq}
use modrun.Container.State.{
  Container, enter_scope, leave_scope, take_provider, put_provider, key_name,
}
use modrun.Container.Storage.{store_constructed}
use modrun.Container.Aggregate.{store_group_member}
use modrun.Container.Construct.{Called, construct}

abbrev pub Keys : Type 0
Keys = List ProviderKey

abbrev pub Built : Type 0
Built = List (ProviderKey × Constructed)

abbrev pub Futures : Type 0
Futures = List (ProviderKey × Future (Result Constructed))

-- The keys that are about to be constructed are marked.
pub mark_all : Container → Keys → Container × Result (Unit {0})
unfolding contains add
mark_all c [] = (c, ok tt)
mark_all c (key ∷ keys) = elim (contains c.constructing key) [
  | true ↦ (c, err (cycle (key_name c key)))
  | false ↦ mark_all (record c { constructing = add c.constructing key }) keys
]

abbrev discard_all : Keys → Keys → Keys
discard_all marked [] = marked
discard_all marked (key ∷ keys) = discard_all (discard marked key) keys

-- `Drop` of `WaveGuard`
pub drop_guard : Container → Keys → Container
unfolding discard
drop_guard c keys = record c { constructing = discard_all c.constructing keys }

-- The provider goes back, and the scope; a panic passes over both.
abbrev after_call : ProviderKey → Called → Container × Result ConstructOut
after_call key called = elim called.out [
  | panicked m ↦ (called.container, panicked m)
  | ok out ↦ (put_provider called.container key called.provider, ok out)
  | err e ↦ (put_provider called.container key called.provider, err e)
]

abbrev call_taken : ProviderKey → Container → Option DynProvider → Container × Result ConstructOut
call_taken key c none = (c, panicked "pending key missing provider")
call_taken key c (some p) = after_call key (construct c p)

abbrev back_to : ℕ → Container × Result ConstructOut → Container × Result ConstructOut
back_to previous (c, ok out) = (leave_scope c previous, ok out)
back_to previous (c, err e) = (leave_scope c previous, err e)
back_to previous (c, panicked m) = (c, panicked m)

-- One constructor is called, in the scope of its key.
pub call_one : Container → ProviderKey → Container × Result ConstructOut
unfolding enter_scope leave_scope take_provider put_provider construct
call_one c key =
    let (c', previous) = enter_scope c key.scope in
    let (c'', taken) = take_provider c' key in back_to previous (call_taken key c'' taken)

-- The values that are ready at once go apart from the futures.
abbrev sorted : ProviderKey → ConstructOut → Built × Futures → Built × Futures
sorted key (ready made) (readies, futs) = ((key, made) ∷ readies, futs)
sorted key (fut f) (readies, futs) = (readies, (key, f) ∷ futs)

abbrev and_others :
    ProviderKey
    → Container × Result ConstructOut
    → (Container → Container × Result (Built × Futures))
    → Container × Result (Built × Futures)
and_others key (c, ok out) more =
    let (c', others) = more c in (c', others >>= λ o. ok (sorted key out o))
and_others key (c, err e) more = (c, err e)
and_others key (c, panicked m) more = (c, panicked m)

-- The constructors of a layer, up to the first that fails.
pub call_all : Container → Keys → Container × Result (Built × Futures)
unfolding call_one
call_all c [] = (c, ok ([], []))
call_all c (key ∷ keys) = and_others key (call_one c key) (λ c'. call_all c' keys)

pub store_one : Container → ProviderKey → Constructed → Container
unfolding store_group_member store_constructed
store_one c key made =
    if is_group_member key
    then store_group_member c key made.value
    else store_constructed c key.type_id made key.scope key.is_private

-- The values are stored, and their keys are pending no more.
pub store_all : Container → Keys → Built → Container × Keys
unfolding store_one discard
store_all c pending [] = (c, pending)
store_all c pending ((key, made) ∷ rest) =
    store_all (store_one c key made) (discard pending key) rest

-- The futures are polled once more than they answer `Pending` altogether, which is enough.
pub join_constructs : Futures → Result Built
unfolding join try_join_all
join_constructs [] = ok []
join_constructs ((key, f) ∷ []) = f.ready >>= λ made. ok ((key, made) ∷ [])
join_constructs (a ∷ b ∷ rest) =
    expect (join (suc (total (a ∷ b ∷ rest))) (try_join_all (a ∷ b ∷ rest))) "never ready"
    >>= λ joined. joined

-- The container, what is pending, and the result.
abbrev pub Progress : Type 0
Progress = Container × Keys × Result (Unit {0})

abbrev store_joined : Keys → Container × Keys → Result Built → Progress
store_joined wave (c, pending) (ok results) =
    let (c', pending') = store_all c pending results in (drop_guard c' wave, pending', ok tt)
store_joined wave (c, pending) (err e) = (drop_guard c wave, pending, err e)
store_joined wave (c, pending) (panicked m) = (drop_guard c wave, pending, panicked m)

abbrev store_called : Keys → Keys → Container × Result (Built × Futures) → Progress
store_called wave pending (c, ok (readies, futs)) =
    store_joined wave (store_all c pending readies) (join_constructs futs)
store_called wave pending (c, err e) = (drop_guard c wave, pending, err e)
store_called wave pending (c, panicked m) = (drop_guard c wave, pending, panicked m)

abbrev call_marked : Keys → Keys → Container × Result (Unit {0}) → Progress
call_marked wave pending (c, ok _) = store_called wave pending (call_all c wave)
call_marked wave pending (c, err e) = (c, pending, err e)
call_marked wave pending (c, panicked m) = (c, pending, panicked m)

pub run_wave : Container → Keys → Keys → Progress
unfolding mark_all call_all store_all drop_guard join_constructs
run_wave c wave pending = call_marked wave pending (mark_all c wave)

-- `self.layers[i].iter().copied().filter(|key| pending.contains(key))`
pub pending_in : Keys → Keys → Keys
unfolding contains
pending_in pending [] = []
pending_in pending (key ∷ keys) =
    let rest = pending_in pending keys in if contains pending key then key ∷ rest else rest

abbrev unless_failed : Progress → (Container → Keys → Progress) → Progress
unless_failed (c, pending, ok _) more = more c pending
unless_failed (c, pending, err e) more = (c, pending, err e)
unless_failed (c, pending, panicked m) more = (c, pending, panicked m)

-- The wave of one layer, if any of its keys is pending.
abbrev wave_of : Container → Keys → Keys → (Container → Keys → Progress) → Progress
wave_of c pending [] more = more c pending
wave_of c pending (key ∷ keys) more = unless_failed (run_wave c (key ∷ keys) pending) more

abbrev end_pending : Progress → Progress
end_pending (c, key ∷ keys, ok _) = (c, key ∷ keys, err (cycle (key_name c key)))
end_pending p = p

build_layers : List Keys → Container → Keys → Progress
unfolding run_wave pending_in
build_layers [] c pending = (c, pending, ok tt)
build_layers (layer ∷ layers) c [] = (c, [], ok tt)
build_layers (layer ∷ layers) c (k ∷ ks) =
    wave_of c (k ∷ ks) (pending_in (k ∷ ks) layer) (build_layers layers)

unfoldable pub build_pending : Container → Keys → Progress
unfolding build_layers key_name
build_pending c pending = end_pending (build_layers c.layers c pending)
