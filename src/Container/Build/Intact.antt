-- ===== src/Container/Build/Intact.antt =====
-- What the call of a constructor and the storing of its value leave as it was.
use modrun.Base.{
  ℕ, ◌≤◌, ◌<◌, ◌≡◌, refl, ◌∙◌, ap, Bool, true, false, Option, none, some, nat_eq, pair_eq, arith,
}
use modrun.Base.Assoc.{get, remove, get-insert, get-remove}
use modrun.Error.{Result, ok, err, panicked}
use modrun.Error.Gives.{if-cases}
use modrun.Scope.{ScopeId}
use modrun.Container.Types.{
  TypeId, DynAny, StoredValue, Constructed, ProviderKey, is_group_member, DynProvider,
}
use modrun.Container.Keys.{type_eq, key_eq, key_beq_iff, type_beq_iff}
use modrun.Container.State.{Container, enter_scope, leave_scope, take_provider, put_provider}
use modrun.Container.Storage.{store_value, store_alias, store_constructed}
use modrun.Container.Aggregate.{store_group_member}
use modrun.Container.Aggregate.Rest.{OnlyGroups}
use modrun.Container.Construct.Rest.{construct-OnlyGroups}
use modrun.Container.Construct.{Called, construct}
use modrun.Container.Inv.Ordered.{present}
use modrun.Container.Build.{after_call, call_taken, back_to, call_one, store_one}

-- 1 if the container has a value for the key, and 0 otherwise.
abbrev pub held : Container → ProviderKey → ℕ
held c key = elim key.is_private [
  | true ↦ present (get c.values_private (key.type_id, key.scope))
  | false ↦ present (get c.values_public key.type_id)
]

-- Nothing is marked or unmarked, the layers and the scope are the same, and so are the keys of the
-- providers; no value is lost.
pub record Intact (c d : Container) : Type 0 where
  pub constructing : d.constructing ≡ c.constructing
  pub layers : d.layers ≡ c.layers
  pub scope : d.active_scope ≡ c.active_scope
  pub registered : (k : ProviderKey) → present (get d.providers k) ≡ present (get c.providers k)
  pub values : (k : ProviderKey) → held c k ≤ held d k

pub Intact-refl : (c : Container) → Intact c c
Intact-refl c = record {
  constructing = refl;
  layers = refl;
  scope = refl;
  registered = λ k. refl;
  values = λ k. omega arith;
}

pub Intact-trans : (a b c : Container) → Intact a b → Intact b c → Intact a c
Intact-trans a b c h k = record {
  constructing = k.constructing ∙ h.constructing;
  layers = k.layers ∙ h.layers;
  scope = k.scope ∙ h.scope;
  registered = λ key. k.registered key ∙ h.registered key;
  values = λ key. omega (arith, h.values key, k.values key);
}

store_value-Intact :
    (c : Container) (id : TypeId) (v : StoredValue) (scope : ScopeId) (is_private : Bool)
    → Intact c (store_value c id v scope is_private)
unfolding store_value
store_value-Intact c id v scope true = record {
  constructing = refl;
  layers = refl;
  scope = refl;
  registered = λ k. refl;
  values = λ k. ground (arith, get-insert c.values_private (id, scope) (k.type_id, k.scope) v);
}
store_value-Intact c id v scope false = record {
  constructing = refl;
  layers = refl;
  scope = refl;
  registered = λ k. refl;
  values = λ k. ground (arith, get-insert c.values_public id k.type_id v);
}

store_alias-Intact :
    (c : Container) (alias : Option (TypeId × DynAny × TypeId)) (scope : ScopeId)
    (is_private : Bool)
    → Intact c (store_alias c alias scope is_private)
unfolding store_alias
store_alias-Intact c none scope is_private = Intact-refl c
store_alias-Intact c (some (id, handle, extract)) scope is_private =
    store_value-Intact c id (record { handle = handle; extract = some extract }) scope is_private

-- A value is stored: nothing is lost, and the key has a value unless it is a group member's.
pub store_one-Intact :
    (c : Container) (key : ProviderKey) (made : Constructed) → Intact c (store_one c key made)
unfolding store_one store_group_member store_constructed
store_one-Intact c key made =
    let c' = store_alias c made.arc_alias key.scope key.is_private in
    if-cases (Intact c) (is_group_member key) _ _
      (record {
        constructing = refl;
        layers = refl;
        scope = refl;
        registered = λ k. refl;
        values = λ k. omega arith;
      })
      (Intact-trans c c' _ (store_alias-Intact c made.arc_alias key.scope key.is_private) (
        store_value-Intact c' key.type_id (record { handle = made.value; extract = none }) key.scope
          key.is_private))

store_value-held :
    (c : Container) (id : TypeId) (v : StoredValue) (scope : ScopeId) (is_private : Bool)
    (ordinal : ℕ)
    → 0
      < held
          (store_value c id v scope is_private)
          (record { type_id = id; scope = scope; is_private = is_private; ordinal = ordinal })
unfolding store_value
store_value-held c id v scope true ordinal = ground (
  arith,
  get-insert c.values_private (id, scope) (id, scope) v,
  type_beq_iff id id,
  nat_eq.beq_iff scope scope,
)
store_value-held c id v scope false ordinal =
    ground (arith, get-insert c.values_public id id v, type_beq_iff id id)

pub store_one-held :
    (c : Container) (key : ProviderKey) (made : Constructed)
    → is_group_member key ≡ false
    → 0 < held (store_one c key made) key
unfolding store_one store_constructed
store_one-held c key made single = rw single (
    store_value-held (store_alias c made.arc_alias key.scope key.is_private) key.type_id
      (record { handle = made.value; extract = none }) key.scope key.is_private key.ordinal)

-- What the call of one constructor leaves behind. After a panic only the marks are the same.
abbrev pub After : {A : Type 0} → Container → Container × Result A → Type 0
After c (d, ok _) = Intact c d
After c (d, err _) = Intact c d
After c (d, panicked _) = d.constructing ≡ c.constructing

-- The container without the provider of the key, in another scope, that gets both back.
module _ (c : Container) (key : ProviderKey) (p : DynProvider)
    (there : get c.providers key ≡ some p) where
  abbrev taken : Container
  taken = record c { active_scope = key.scope; providers = remove c.providers key }

  returned-Intact :
      (d : Container) (q : DynProvider)
      → OnlyGroups taken d
      → Intact c (leave_scope (put_provider d key q) c.active_scope)
  unfolding leave_scope put_provider
  returned-Intact d q (g, e) = rw e (record {
    constructing = refl;
    layers = refl;
    scope = refl;
    registered = λ k. ground (
      arith,
      get-insert (remove c.providers key) key k q,
      get-remove c.providers key k,
      key_beq_iff key k,
      there,
    );
    values = λ k. omega arith;
  })

  after_call-After :
      (called : Called)
      → OnlyGroups taken called.container
      → After c (back_to c.active_scope (after_call key called))
  after_call-After called only =
      elim called.out
        as (λ out.
          After c (back_to c.active_scope (after_call key (record called { out = out })))) [
            | ok out ↦ returned-Intact called.container called.provider only
            | err e ↦ returned-Intact called.container called.provider only
            | panicked m ↦ let (g, e) = only in ap (λ d. d.constructing) e
          ]

call_taken-After :
    (c : Container) (key : ProviderKey) (found : Option DynProvider)
    → get c.providers key ≡ found
    → After c (
        back_to c.active_scope (
          call_taken key
            (record c { active_scope = key.scope; providers = remove c.providers key })
            found))
call_taken-After c key none gone = refl
call_taken-After c key (some p) there =
    after_call-After c key p there (construct (taken c key p there) p)
      (construct-OnlyGroups (taken c key p there) p)

-- After a constructor was called that did not panic, the container is intact.
pub call_one-After : (c : Container) (key : ProviderKey) → After c (call_one c key)
unfolding call_one enter_scope take_provider
call_one-After c key = call_taken-After c key (get c.providers key) refl
