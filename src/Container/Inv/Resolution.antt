-- ===== src/Container/Inv/Resolution.antt =====
-- What the searches of a container find that calls of its interface made.
use modrun.Base.{◌≡◌, ◌≢◌, refl, Option, none, some, List, [], ◌∷◌, nat_eq, pair_eq, arith}
use modrun.Base.Assoc.{get}
use modrun.Scope.{ScopeId}
use modrun.Container.Types.{TypeId, ProviderKey}
use modrun.Container.Keys.{type_eq, key_eq}
use modrun.Container.State.{Container}
use modrun.Container.Resolve.{lookup_value_in, resolve_in, can_resolve_in, keyed}
use modrun.Container.Resolve.Reference.{
  provider_binding, own_binding, broken, nearest, Finds, is_bound, nearest-Finds,
  can_resolve-is_bound, public_binding,
}
use modrun.Container.Inv.{Indexed}
use modrun.Container.Inv.Values.{Marked-IsMarked}
use modrun.Container.Inv.Reachable.{Reachable, reachable-Inv}

some-alias :
    (c : Container) (o : Option ProviderKey)
    → ((key : ProviderKey) → o ≡ some key → get c.providers key ≢ none)
    → elim o [
      | none ↦ none
      | some canon ↦ some (provider_binding (keyed canon (get c.providers canon)))
    ]
      ≢ some broken
unfolding keyed
some-alias c none h = ground arith
some-alias c (some key) h = ground (arith, h key refl)

own_sound :
    (c : Container) (id : TypeId) (scope : ScopeId)
    → Indexed c
    → own_binding c id scope ≢ some broken
unfolding own_binding
own_sound c id scope h e = ground (
  arith,
  some-alias c (get c.private_alias (id, scope)) (λ key q. (h.alias_key id scope key q).2),
)

nearest_sound :
    (c : Container) (id : TypeId) (chain : List ScopeId) → Indexed c → nearest c id chain ≢ broken
unfolding nearest public_binding
nearest_sound c id [] h e = ground arith
nearest_sound c id (scope ∷ chain) h e =
    ground (arith, own_sound c id scope h, nearest_sound c id chain h)

pub reachable-Finds :
    (c : Container) (id : TypeId) (chain : List ScopeId)
    → Reachable c
    → Finds (nearest c id chain) (lookup_value_in c id chain) (resolve_in c id chain)
      × (can_resolve_in c id chain ≡ is_bound (nearest c id chain))
reachable-Finds c id chain r =
    let h = reachable-Inv c r in
    let m = Marked-IsMarked c h.marked in
    (
      nearest-Finds c id chain m,
      can_resolve-is_bound c id chain m (nearest_sound c id chain h.indexed),
    )
