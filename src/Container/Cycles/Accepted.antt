-- ===== src/Container/Cycles/Accepted.antt =====
-- What `validate` accepts.
use modrun.Base.{ℕ, ◌≡◌, refl, List, inl, inr, nat_eq, pair_eq}
use modrun.Error.{ok}
use modrun.Scope.{ScopeId}
use modrun.Container.Types.{ProviderKey, Dep}
use modrun.Container.Keys.{key_eq}
use modrun.Container.State.{Container}
use modrun.Container.Validate.{check_all}
use modrun.Container.Validate.Checks.{IsValid, check_all-IsValid}
use modrun.Container.Layers.Edges.{Edge, dependency_edges}
use modrun.Container.Layers.Ends.{InLayers, IsRanked}
use modrun.Container.Layers.Frozen.{freeze_layers-Outcome, freeze_layers-IsRanked}
use modrun.Container.Inv.Reachable.{Reachable}
use modrun.Container.Cycles.{validate}

-- A container made by calls of its interface, whose dependency edges can be read, is accepted if
-- every dependency is bound, no required group is empty, and the dependencies have no cycle. Its
-- layers are set then: they hold every registered key once and no other, each in a later layer than
-- all that it depends on.
pub validate-accepts :
    (c : Container) (invokers : List (ScopeId × List Dep)) (edges : List Edge)
    (rank : ProviderKey → ℕ)
    → Reachable c
    → dependency_edges c ≡ ok edges
    → IsValid c invokers
    → IsRanked rank edges
    → (layers : List (List ProviderKey)) × (validate c invokers ≡ ok (record c { layers = layers }))
      × InLayers c.provider_order edges layers
unfolding validate
validate-accepts c invokers edges rank reach e valid ranked =
    let checked : check_all c invokers ≡ ok tt = (check_all-IsValid c invokers reach).1 valid in
    let (d, frozen) = (freeze_layers-IsRanked c edges reach e).1 (rank, ranked) in
    elim (freeze_layers-Outcome c edges reach e) [
      | inl (layers, f, h) ↦ (layers, rw (checked, f) refl, h)
      | inr (key, f, stuck) ↦ absurd (cc)
    ]
