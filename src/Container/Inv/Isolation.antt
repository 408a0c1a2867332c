-- ===== src/Container/Inv/Isolation.antt =====
-- What is private to a scope is not seen from elsewhere.
use modrun.Base.{
  ◌≡◌, ◌≢◌, refl, true, false, Option, none, some, List, [], ◌∷◌, nat_eq, pair_eq, arith, ap, ◌∙◌,
  sym,
}
use modrun.Base.Assoc.{get, get-insert}
use modrun.Base.Lists.{All}
use modrun.Scope.{ScopeId}
use modrun.Container.Types.{TypeId, ProviderKey, singleton, DynProvider, GroupRegistration}
use modrun.Container.Keys.{type_eq, key_eq, key_beq_iff}
use modrun.Container.State.{Container}
use modrun.Container.Resolve.{
  keyed, keyed_by, resolve_in, is_group_type, group_virtual_key, virtual_key_for, virtual_key_of,
}
use modrun.Container.Resolve.Reference.{own_binding, nearest, public_binding, provider_binding}
use modrun.Container.Register.{with_provider}
use modrun.Container.Inv.{Indexed}

reg_key :
    (c : Container) {k : ProviderKey} (r : Option GroupRegistration)
    → ((reg : GroupRegistration)
        → r ≡ some reg
        → (reg.virtual_key.is_private ≡ false) × (get c.providers reg.virtual_key ≢ none))
    → virtual_key_of r ≡ some k
    → k.is_private ≡ false
unfolding virtual_key_of
reg_key c none h e = absurd (cc e)
reg_key c (some reg) h e = ground (arith, h reg refl)

module _ (c : Container) (p : DynProvider) (scope : ScopeId) (h : Indexed c) where
  abbrev new_key : ProviderKey
  new_key = singleton p.result_type scope true

  abbrev after : Container
  after = with_provider c p scope true

  other_key : (k : ProviderKey) → k ≢ new_key → get after.providers k ≡ get c.providers k
  unfolding with_provider
  other_key k ne = ground (arith, get-insert c.providers new_key k p, key_beq_iff new_key k)

  other_alias :
      (id : TypeId) (s : ScopeId)
      → s ≢ scope
      → get after.private_alias (id, s) ≡ get c.private_alias (id, s)
  unfolding with_provider
  other_alias id s ne = ground (
    arith,
    get-insert c.private_alias (p.alias_type, scope) (id, s) new_key,
    nat_eq.beq_iff scope s,
  )

  -- Keys that are not the new one name what they named.
  keyed_alias :
      (o : Option ProviderKey)
      → ((k : ProviderKey) → o ≡ some k → k ≢ new_key)
      → elim o [ none ↦ none | some k ↦ some (provider_binding (keyed k (get after.providers k))) ]
        ≡ elim o [ none ↦ none | some k ↦ some (provider_binding (keyed k (get c.providers k))) ]
  keyed_alias none ne = refl
  keyed_alias (some k) ne = ap (λ x. some (provider_binding (keyed k x))) (other_key k (ne k refl))

  keyed_by-other :
      (o : Option ProviderKey)
      → ((k : ProviderKey) → o ≡ some k → k ≢ new_key)
      → keyed_by after o ≡ keyed_by c o
  unfolding keyed_by
  keyed_by-other none ne = refl
  keyed_by-other (some k) ne = ap (λ x. keyed k x) (other_key k (ne k refl))

  own-other : (id : TypeId) (s : ScopeId) → s ≢ scope → own_binding after id s ≡ own_binding c id s
  unfolding own_binding with_provider
  own-other id s ne = ground (
    arith,
    other_key (singleton id s true) (λ e. ne (ap (λ k. k.scope) e)),
    other_alias id s ne,
    keyed_alias (get c.private_alias (id, s))
        (λ k q e. ne (sym (h.alias_key id s k q).1 ∙ ap (λ k. k.scope) e)),
  )

  group_key :
      (o : Option TypeId) (k : ProviderKey) → virtual_key_for c o ≡ some k → k.is_private ≡ false
  unfolding virtual_key_for virtual_key_of
  group_key none k e = absurd (cc e)
  group_key (some element) k e =
      reg_key c (get c.groups.registrations element) (h.virtual_key element) e

  is_public : (k : ProviderKey) → k.is_private ≡ false → k ≢ new_key
  is_public k q e = ground (arith, q, ap (λ x. x.is_private) e)

  group_same :
      (id : TypeId)
      → (is_group_type after id ≡ is_group_type c id)
        × (group_virtual_key after id ≡ group_virtual_key c id)
  unfolding with_provider is_group_type group_virtual_key virtual_key_for
  group_same id = (refl, refl)

  resolve-other : (id : TypeId) → resolve_in after id [] ≡ resolve_in c id []
  unfolding resolve_in with_provider group_virtual_key
  resolve-other id = ground (
    arith,
    group_same id,
    keyed_by-other (group_virtual_key c id)
        (λ k q. is_public k (group_key (get c.groups.by_type id) k q)),
    keyed_by-other (get c.public_index id) (λ k q. is_public k (h.public_key id k q).0),
  )

  public-other : (id : TypeId) → public_binding after id ≡ public_binding c id
  unfolding public_binding with_provider
  public-other id = ground (arith, resolve-other id)

  pub nearest-other :
      (id : TypeId) (chain : List ScopeId)
      → All (λ s. s ≢ scope) chain
      → nearest after id chain ≡ nearest c id chain
  unfolding nearest
  nearest-other id [] ne = public-other id
  nearest-other id (s ∷ chain) (ne, rest) =
      ground (arith, own-other id s ne, nearest-other id chain rest)
