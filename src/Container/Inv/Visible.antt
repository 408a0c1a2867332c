-- ===== src/Container/Inv/Visible.antt =====
-- Where a registered provider is seen, and where it is not.
use modrun.Base.{◌≡◌, ◌≢◌, Bool, true, false, some, List, ◌∷◌, nat_eq, pair_eq, arith, subst}
use modrun.Base.Assoc.{get-insert, contains_key-get}
use modrun.Base.Lists.{All}
use modrun.Error.{ok}
use modrun.Scope.{ScopeId}
use modrun.Container.Types.{TypeId, singleton, DynProvider}
use modrun.Container.Keys.{type_eq, key_eq, key_beq_iff}
use modrun.Container.State.{Container}
use modrun.Container.Storage.{conflict, ensure_absent}
use modrun.Container.Resolve.{keyed}
use modrun.Container.Resolve.Reference.{own_binding, nearest, provided}
use modrun.Container.Register.{insert_provider, with_provider}
use modrun.Container.Inv.Isolation.{nearest-other}
use modrun.Container.Inv.Reachable.{Reachable, reachable-Inv}

pub accepted :
    (c d : Container) (p : DynProvider) (scope : ScopeId) (is_private : Bool)
    → insert_provider c p scope is_private ≡ ok d
    → (conflict c p.result_type scope is_private ≡ false)
      × (conflict c p.alias_type scope is_private ≡ false)
      × (with_provider c p scope is_private ≡ d)
unfolding insert_provider ensure_absent
accepted c d p scope is_private e = ground (arith, e)

own-new :
    (c : Container) (p : DynProvider) (scope : ScopeId)
    → conflict c p.result_type scope true ≡ false
    → conflict c p.alias_type scope true ≡ false
    → (own_binding (with_provider c p scope true) p.result_type scope
        ≡ some (provided (singleton p.result_type scope true) p))
      × (own_binding (with_provider c p scope true) p.alias_type scope
          ≡ some (provided (singleton p.result_type scope true) p))
unfolding own_binding conflict with_provider keyed
own-new c p scope h k =
    let key = singleton p.result_type scope true in
    ground (
      arith,
      h,
      k,
      contains_key-get c.values_private (p.result_type, scope),
      contains_key-get c.values_private (p.alias_type, scope),
      contains_key-get c.providers (singleton p.alias_type scope true),
      get-insert c.providers key key p,
      get-insert c.providers key (singleton p.alias_type scope true) p,
      get-insert c.private_alias (p.alias_type, scope) (p.alias_type, scope) key,
      key_beq_iff key key,
      key_beq_iff key (singleton p.alias_type scope true),
      type_eq.beq_iff p.alias_type p.alias_type,
      nat_eq.beq_iff scope scope,
    )

seen-new :
    (c d : Container) (p : DynProvider) (scope : ScopeId) (chain : List ScopeId)
    → insert_provider c p scope true ≡ ok d
    → (nearest d p.result_type (scope ∷ chain) ≡ provided (singleton p.result_type scope true) p)
      × (nearest d p.alias_type (scope ∷ chain) ≡ provided (singleton p.result_type scope true) p)
unfolding nearest
seen-new c d p scope chain e =
    let (h, k, same) = accepted c d p scope true e in
    subst
      (λ x.
        (nearest x p.result_type (scope ∷ chain) ≡ provided (singleton p.result_type scope true) p)
        × (nearest x p.alias_type (scope ∷ chain)
            ≡ provided (singleton p.result_type scope true) p))
      same (ground (arith, own-new c p scope h k))

-- A provider that is registered privately in a scope, in a container made by calls of its
-- interface: from the scope itself, both its type and the `Arc` of it mean the new provider,
-- whatever the ancestors bind; and along each chain of scopes that does not pass through the scope,
-- every type means what it meant before.
pub private_provider-nearest :
    (c d : Container) (p : DynProvider) (scope : ScopeId)
    → Reachable c
    → insert_provider c p scope true ≡ ok d
    → ((chain : List ScopeId)
        → (nearest d p.result_type (scope ∷ chain)
            ≡ provided (singleton p.result_type scope true) p)
          × (nearest d p.alias_type (scope ∷ chain)
              ≡ provided (singleton p.result_type scope true) p))
      × ((id : TypeId) (chain : List ScopeId)
          → All (λ s. s ≢ scope) chain
          → nearest d id chain ≡ nearest c id chain)
private_provider-nearest c d p scope r e = (
  λ chain. seen-new c d p scope chain e,
  λ id chain other.
      subst (λ x. nearest x id chain ≡ nearest c id chain) (accepted c d p scope true e).2
        (nearest-other c p scope (reachable-Inv c r).indexed id chain other),
)
