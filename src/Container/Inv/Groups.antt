-- ===== src/Container/Inv/Groups.antt =====
-- The registration of groups and of their members keeps the invariant.
use modrun.Base.{ℕ, true, false, nat_eq, pair_eq, arith}
use modrun.Base.Assoc.{insert, get-insert}
use modrun.Scope.{ScopeId, root}
use modrun.Container.Types.{
  TypeId, arc, group, ProviderKey, singleton, DynProvider, new_group_virtual,
}
use modrun.Container.Keys.{type_eq, key_eq, key_beq_iff}
use modrun.Container.State.{Container}
use modrun.Container.Register.{register_group, add_member, member_key}
use modrun.Container.Inv.{Inv}

module _ (c : Container) (element : TypeId) where
  abbrev virtual : ProviderKey
  virtual = singleton (group element) root false

  pub register_group-Inv : Inv c → Inv (register_group c element)
  unfolding register_group
  register_group-Inv h = record {
    marked = record {
      value = h.marked.value;
      provider = λ t s p.
          rw (get-insert c.providers virtual (singleton t s true) (new_group_virtual element))
            (λ e. ground (arith, h.marked.provider t s p));
      alias = h.marked.alias;
    };
    indexed = record {
      public_key = λ t k.
          rw
            (
              get-insert (insert c.public_index (group element) virtual) (arc (group element)) t
                  virtual,
              get-insert c.public_index (group element) t virtual,
            )
            (λ e. ground (
              arith,
              h.indexed.public_key t k,
              get-insert c.providers virtual k (new_group_virtual element),
              key_beq_iff virtual k,
            ));
      alias_key = λ t s k e. ground (
        arith,
        h.indexed.alias_key t s k e,
        get-insert c.providers virtual k (new_group_virtual element),
      );
      virtual_key = λ t reg.
          rw
            (get-insert c.groups.registrations element t
              (record { element = element; virtual_key = virtual }))
            (λ e. ground (
              arith,
              h.indexed.virtual_key t reg,
              get-insert c.providers virtual reg.virtual_key (new_group_virtual element),
              key_beq_iff virtual reg.virtual_key,
            ));
    };
  }

-- A new member's key has an ordinal that no other binding names.
pub add_member-Inv :
    (c : Container) (element : TypeId) (p : DynProvider) (scope : ScopeId) (id : ℕ)
    → Inv c
    → Inv (add_member c element p scope id)
unfolding add_member
add_member-Inv c element p scope id h = record {
  marked = record {
    value = h.marked.value;
    provider = λ t s q.
        rw (get-insert c.providers (member_key p scope id) (singleton t s true) p) (λ e. ground (
          arith,
          h.marked.provider t s q,
          key_beq_iff (member_key p scope id) (singleton t s true),
        ));
    alias = h.marked.alias;
  };
  indexed = record {
    public_key = λ t k e.
        ground
          (arith, h.indexed.public_key t k e, get-insert c.providers (member_key p scope id) k p);
    alias_key = λ t s k e.
        ground
          (arith, h.indexed.alias_key t s k e, get-insert c.providers (member_key p scope id) k p);
    virtual_key = λ t reg e. ground (
      arith,
      h.indexed.virtual_key t reg e,
      get-insert c.providers (member_key p scope id) reg.virtual_key p,
    );
  };
}
