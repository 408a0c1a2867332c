-- ===== src/Container/Collect/Found.antt =====
-- A search for a provider finds one with its key.
use modrun.Base.{nat_eq, pair_eq, ◌<◌, ◌≡◌, Option, none, some, List, [], ◌∷◌, arith}
use modrun.Base.Assoc.{get}
use modrun.Base.Counts.{count}
use modrun.Error.{Result, ok, err, panicked, ◌>>=◌}
use modrun.Scope.{ScopeId, ancestors_from}
use modrun.Container.Types.{TypeId, ProviderKey, DynProvider}
use modrun.Container.Keys.{type_eq, key_eq}
use modrun.Container.State.{Container, provider_at}
use modrun.Container.Resolve.{resolve_provider, resolve_in, keyed_by, keyed, group_virtual_key}
use modrun.Container.Inv.Ordered.{Ordered}
use modrun.Container.Collect.{}
use modrun.Container.Collect.Closed.{}

module _ (c : Container) (ordered : Ordered c) where
  pub keyed_by-at :
      (o : Option ProviderKey) (key : ProviderKey) (p : DynProvider)
      → keyed_by c o ≡ some (key, p)
      → provider_at c key ≡ some p
  unfolding keyed_by keyed provider_at
  keyed_by-at none key p e = absurd (cc)
  keyed_by-at (some k) key p e = ground (arith, e)

  pub resolve_in-at :
      (id : TypeId) (chain : List ScopeId) (key : ProviderKey) (p : DynProvider)
      → resolve_in c id chain ≡ some (key, p)
      → provider_at c key ≡ some p
  unfolding resolve_in provider_at
  resolve_in-at id [] key p e = ground (
    arith,
    e,
    keyed_by-at (group_virtual_key c id) key p,
    keyed_by-at (get c.public_index id) key p,
  )
  resolve_in-at id (scope ∷ chain) key p e =
      ground (
        arith,
        e,
        resolve_in-at id chain key p,
        keyed_by-at (get c.private_alias (id, scope)) key p,
      )

  pub provider_at-known :
      (key : ProviderKey) (p : DynProvider)
      → provider_at c key ≡ some p
      → 0 < count c.provider_order key
  unfolding provider_at
  provider_at-known key p e = ground (arith, ordered.counted key, e)

  -- The key that is found is that of the provider that is found.
  pub resolve_provider-at :
      (id : TypeId) (from : ScopeId) (key : ProviderKey) (p : DynProvider)
      → resolve_provider c id from ≡ ok (some (key, p))
      → provider_at c key ≡ some p
  unfolding resolve_provider
  resolve_provider-at id from key p = found_in (ancestors_from c.scopes from)
    where
      found_in :
          (r : Result (List ScopeId))
          → (r >>= λ chain. ok (resolve_in c id chain)) ≡ ok (some (key, p))
          → provider_at c key ≡ some p
      found_in (ok chain) e =
          resolve_in-at id chain key p (let q : resolve_in c id chain ≡ some (key, p) = cc in q)
      found_in (err x) e = absurd (cc)
      found_in (panicked m) e = absurd (cc)
