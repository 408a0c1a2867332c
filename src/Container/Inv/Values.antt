-- ===== src/Container/Inv/Values.antt =====
-- Storing values keeps the invariant, and an invariant container is marked as its searches need.
use modrun.Base.{◌≡◌, refl, Bool, true, false, Option, none, some, nat_eq, pair_eq, arith}
use modrun.Base.Assoc.{get, get-insert}
use modrun.Scope.{ScopeId}
use modrun.Container.Types.{TypeId, StoredValue, Constructed, singleton}
use modrun.Container.Keys.{type_eq, key_eq}
use modrun.Container.State.{Container}
use modrun.Container.State.Marks.{has_mark-mark_scope}
use modrun.Container.Storage.{store_value, store_alias, store_constructed}
use modrun.Container.Resolve.Reference.{IsMarked, own_binding}
use modrun.Container.Inv.{Inv, Marked}

none_of {ℓ} : {A : Type ℓ} (o : Option A) → ((a : A) → o ≡ some a → ⊥) → o ≡ none
none_of none h = refl
none_of (some a) h = absurd (h a refl)

pub Marked-IsMarked : (c : Container) → Marked c → IsMarked c
unfolding own_binding
Marked-IsMarked c m scope id unmarked = ground (
  arith,
  none_of (get c.values_private (id, scope)) (λ v e. cc (m.value id scope v e)),
  none_of (get c.providers (singleton id scope true)) (λ p e. cc (m.provider id scope p e)),
  none_of (get c.private_alias (id, scope)) (λ k e. cc (m.alias id scope k e)),
)

store_value-Inv :
    (c : Container) (id : TypeId) (v : StoredValue) (scope : ScopeId) (is_private : Bool)
    → Inv c
    → Inv (store_value c id v scope is_private)
unfolding store_value
store_value-Inv c id v scope true h = record {
  marked = record {
    value = λ t s w.
        rw (get-insert c.values_private (id, scope) (t, s) v)
          (λ e. ground (arith, has_mark-mark_scope c.private_scopes scope s, h.marked.value t s w));
    provider = λ t s p e.
        ground (arith, has_mark-mark_scope c.private_scopes scope s, h.marked.provider t s p e);
    alias = λ t s k e.
        ground (arith, has_mark-mark_scope c.private_scopes scope s, h.marked.alias t s k e);
  };
  indexed = record {
    public_key = h.indexed.public_key;
    alias_key = h.indexed.alias_key;
    virtual_key = h.indexed.virtual_key;
  };
}
store_value-Inv c id v scope false h = record {
  marked = record { value = h.marked.value; provider = h.marked.provider; alias = h.marked.alias };
  indexed = record {
    public_key = h.indexed.public_key;
    alias_key = h.indexed.alias_key;
    virtual_key = h.indexed.virtual_key;
  };
}

-- What a constructor made can be stored at any time.
pub store_constructed-Inv :
    (c : Container) (id : TypeId) (made : Constructed) (scope : ScopeId) (is_private : Bool)
    → Inv c
    → Inv (store_constructed c id made scope is_private)
unfolding store_constructed
store_constructed-Inv c id made scope is_private h =
    elim made.arc_alias
      as (λ o. Inv (
        store_value (store_alias c o scope is_private) id
          (record { handle = made.value; extract = none }) scope is_private)) [
            | none ↦ store_value-Inv c id _ scope is_private h
            | some (t, handle, u) ↦
                store_value-Inv _ id _ scope is_private (store_value-Inv c t _ scope is_private h)
          ]
