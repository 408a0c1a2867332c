-- ===== src/Container/Construct.antt =====
-- The call of a constructor: the closures that `into_provider`, `take_once_value_provider` and
-- `ensure_group_virtual` make (src/provide.rs, src/container/group.rs). A constructor of the program
-- is given by what it returns.
pub mod Rest
use modrun.Base.{String, Option, none, some, List, [], ◌∷◌}
use modrun.Error.{Error, Result, ok, err, panicked, constructor_error, ◌>>=◌}
use modrun.Future.{Future}
use modrun.Container.Types.{
  TypeId, group, type_name, Payload, Constructed, ConstructOut, ready, fut, Dep, UserResult, built,
  failed, ConstructFn, plain, fallible, plain_async, fallible_async, aggregate, take_once,
  DynProvider, dep_types,
}
use modrun.Container.State.{Container}
use modrun.Container.Storage.{pack, get_as}
use modrun.Container.Aggregate.{aggregate_group}

-- `$(container.get::<$A>()?,)+`
unfoldable pub get_all : Container → List Dep → Result (List Payload)
unfolding get_as
get_all c [] = ok []
get_all c ((t, _) ∷ deps) = do value ← get_as c t; values ← get_all c deps; ok (value ∷ values)

-- `.map_err(ctor_failed::<T>)?`, and the value packed.
pub pack_result : TypeId → UserResult → Result Constructed
unfolding pack
pack_result t (built value) = ok (pack t value)
pack_result t (failed source) = err (constructor_error (type_name t) source)

-- The future that maps the value of another.
abbrev pub after {ℓ κ} : {A : Type ℓ} {B : Type κ} → (A → B) → Future A → Future B
after f g = record { pending = g.pending; ready = f g.ready }

-- The container and the provider after the call.
pub record Called : Type 0 where
  pub container : Container
  pub provider : DynProvider
  pub out : Result ConstructOut

-- A constructor that reads the container and changes nothing.
abbrev reading : Container → DynProvider → (List Payload → Result ConstructOut) → Called
reading c p call = record { container = c; provider = p; out = get_all c (dep_types p) >>= call }

construct_with : Container → DynProvider → ConstructFn → Called
unfolding get_all pack_result pack aggregate_group
construct_with c p (plain call) = reading c p (λ args. ok (ready (pack p.result_type (call args))))
construct_with c p (fallible call) =
    reading c p (λ args. pack_result p.result_type (call args) >>= λ made. ok (ready made))
construct_with c p (plain_async call) =
    reading c p (λ args. ok (fut (after (λ value. ok (pack p.result_type value)) (call args))))
construct_with c p (fallible_async call) =
    reading c p (λ args. ok (fut (after (pack_result p.result_type) (call args))))
construct_with c p (aggregate element) =
    let (c', made) = aggregate_group c element (type_name (group element)) in
    record { container = c'; provider = p; out = made >>= λ m. ok (ready m) }
construct_with c p (take_once none) = record {
  container = c;
  provider = p;
  out = panicked "take_once_value_provider constructed more than once";
}
construct_with c p (take_once (some value)) = record {
  container = c;
  provider = record p { construct_fn = take_once none };
  out = ok (ready (pack p.result_type value));
}

unfoldable pub construct : Container → DynProvider → Called
unfolding construct_with
construct c p = construct_with c p p.construct_fn
