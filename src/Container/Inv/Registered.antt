-- ===== src/Container/Inv/Registered.antt =====
-- The registration of providers keeps the invariant.
use modrun.Base.{Bool, true, false, nat_eq, pair_eq, arith}
use modrun.Base.Assoc.{get, insert, get-insert}
use modrun.Scope.{ScopeId}
use modrun.Container.Types.{singleton, DynProvider}
use modrun.Container.Keys.{type_eq, key_eq, key_beq_iff}
use modrun.Container.State.{Container, new}
use modrun.Container.State.Marks.{has_mark-mark_scope}
use modrun.Container.Register.{with_provider}
use modrun.Container.Inv.{Inv, Marked, Indexed}

pub new-Inv : Inv new
unfolding new get
new-Inv = record {
  marked = record {
    value = λ id scope v e. cc;
    provider = λ id scope p e. cc;
    alias = λ id scope k e. cc;
  };
  indexed = record {
    public_key = λ id k e. absurd (cc);
    alias_key = λ id s k e. absurd (cc);
    virtual_key = λ e r p. absurd (cc);
  };
}

-- The new provider's own scope is marked, and the marks of the others stay.
pub with_provider-Marked :
    (c : Container) (p : DynProvider) (scope : ScopeId) (is_private : Bool)
    → Marked c
    → Marked (with_provider c p scope is_private)
unfolding with_provider
with_provider-Marked c p scope true m = record {
  value =
      λ id s v e. ground (arith, has_mark-mark_scope c.private_scopes scope s, m.value id s v e);
  provider = λ id s q.
      rw (get-insert c.providers (singleton p.result_type scope true) (singleton id s true) p) (λ e.
        ground (
          arith,
          has_mark-mark_scope c.private_scopes scope s,
          key_beq_iff (singleton p.result_type scope true) (singleton id s true),
          m.provider id s q,
        ));
  alias = λ id s k.
      rw
        (get-insert c.private_alias (p.alias_type, scope) (id, s)
          (singleton p.result_type scope true))
        (λ e. ground (arith, has_mark-mark_scope c.private_scopes scope s, m.alias id s k));
}
with_provider-Marked c p scope false m = record {
  value = λ id s v e. m.value id s v e;
  provider = λ id s q.
      rw (get-insert c.providers (singleton p.result_type scope false) (singleton id s true) p)
        (λ e. ground (arith, m.provider id s q));
  alias = λ id s k e. m.alias id s k e;
}

pub with_provider-Indexed :
    (c : Container) (p : DynProvider) (scope : ScopeId) (is_private : Bool)
    → Indexed c
    → Indexed (with_provider c p scope is_private)
unfolding with_provider
with_provider-Indexed c p scope true m = record {
  public_key = λ id k e.
      ground (
        arith,
        m.public_key id k e,
        get-insert c.providers (singleton p.result_type scope true) k p,
      );
  alias_key = λ id s k.
      rw
        (get-insert c.private_alias (p.alias_type, scope) (id, s)
          (singleton p.result_type scope true))
        (λ e. ground (
          arith,
          m.alias_key id s k,
          get-insert c.providers (singleton p.result_type scope true) k p,
          key_beq_iff (singleton p.result_type scope true) k,
          nat_eq.beq_iff scope s,
        ));
  virtual_key = λ el reg e. ground (
    arith,
    m.virtual_key el reg e,
    get-insert c.providers (singleton p.result_type scope true) reg.virtual_key p,
  );
}
with_provider-Indexed c p scope false m = record {
  public_key = λ id k.
      rw
        (
          get-insert (insert c.public_index p.result_type (singleton p.result_type scope false))
              p.alias_type id (singleton p.result_type scope false),
          get-insert c.public_index p.result_type id (singleton p.result_type scope false),
        )
        (λ e. ground (
          arith,
          m.public_key id k,
          get-insert c.providers (singleton p.result_type scope false) k p,
          key_beq_iff (singleton p.result_type scope false) k,
        ));
  alias_key = λ id s k e. ground (
    arith,
    m.alias_key id s k e,
    get-insert c.providers (singleton p.result_type scope false) k p,
  );
  virtual_key = λ el reg e. ground (
    arith,
    m.virtual_key el reg e,
    get-insert c.providers (singleton p.result_type scope false) reg.virtual_key p,
  );
}
