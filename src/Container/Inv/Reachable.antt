-- ===== src/Container/Inv/Reachable.antt =====
-- The containers that registration reaches: each keeps the invariant.
use modrun.Base.{◌≡◌, Bool, false, List, nat_eq, pair_eq, String}
use modrun.Base.Assoc.{contains_key}
use modrun.Error.{ok, expect}
use modrun.Error.Gives.{Gives, Gives-bind, Gives-any, Gives-ok, if-cases}
use modrun.Scope.{ScopeId, ScopeTree, root, child}
use modrun.Container.Types.{TypeId, arc, group, Payload, type_name, DynProvider, ValueNode}
use modrun.Container.Keys.{type_eq, key_eq}
use modrun.Container.State.{Container, new, enter_scope, leave_scope}
use modrun.Container.Storage.{insert_value, pack}
use modrun.Container.Storage.Checked.{after_checks}
use modrun.Container.Register.{
  insert_provider, with_provider, ensure_group_virtual, insert_group_member, next_id,
  require_group_element,
}
use modrun.Container.Inv.{Inv}
use modrun.Container.Inv.Registered.{new-Inv, with_provider-Marked, with_provider-Indexed}
use modrun.Container.Inv.Values.{store_constructed-Inv}
use modrun.Container.Inv.Groups.{register_group-Inv, add_member-Inv}

-- One call of the container's interface that succeeds.
pub data Step : Container → Container → Type 0 where
  provide :
      (c d : Container) (p : DynProvider) (scope : ScopeId) (is_private : Bool)
      → insert_provider c p scope is_private ≡ ok d
      → Step c d
  supply :
      (c d : Container) (t : TypeId) (v : Payload) (scope : ScopeId) (is_private : Bool)
      → insert_value c t v scope is_private ≡ ok d
      → Step c d
  declare : (c d : Container) (element : TypeId) → ensure_group_virtual c element ≡ ok d → Step c d
  contribute :
      (c d : Container) (element : TypeId) (p : DynProvider) (scope : ScopeId)
      → insert_group_member c element p scope ≡ ok d
      → Step c d
  require :
      (c : Container) (element : TypeId) (name : String)
      → Step c (require_group_element c element name)
  enter : (c : Container) (scope : ScopeId) → Step c ((enter_scope c scope).0)
  leave : (c : Container) (previous : ScopeId) → Step c (leave_scope c previous)
  nest :
      (c : Container) (parent : ScopeId) (name : String) (tree : ScopeTree) (scope : ScopeId)
      → child c.scopes parent name ≡ ok (tree, scope)
      → Step c (record c { scopes = tree })

-- The containers that registration can reach.
pub data Reachable : Container → Type 0 where
  start : Reachable new
  step : (c d : Container) → Reachable c → Step c d → Reachable d

with_provider-Inv :
    (c : Container) (p : DynProvider) (scope : ScopeId) (is_private : Bool)
    → Inv c
    → Inv (with_provider c p scope is_private)
with_provider-Inv c p scope is_private h = record {
  marked = with_provider-Marked c p scope is_private h.marked;
  indexed = with_provider-Indexed c p scope is_private h.indexed;
}

insert_provider-Inv :
    (c : Container) (p : DynProvider) (scope : ScopeId) (is_private : Bool)
    → Inv c
    → Gives Inv (insert_provider c p scope is_private)
unfolding insert_provider
insert_provider-Inv c p scope is_private h =
    after_checks Inv c p.result_type p.alias_type p.result_name p.result_name scope is_private _
      (with_provider-Inv c p scope is_private h)

nodes-Inv :
    (c : Container) (nodes : List ValueNode) → Inv c → Inv (record c { value_nodes = nodes })
nodes-Inv c nodes h = record {
  marked = record { value = h.marked.value; provider = h.marked.provider; alias = h.marked.alias };
  indexed = record {
    public_key = h.indexed.public_key;
    alias_key = h.indexed.alias_key;
    virtual_key = h.indexed.virtual_key;
  };
}

insert_value-Inv :
    (c : Container) (t : TypeId) (v : Payload) (scope : ScopeId) (is_private : Bool)
    → Inv c
    → Gives Inv (insert_value c t v scope is_private)
unfolding insert_value
insert_value-Inv c t v scope is_private h =
    after_checks Inv c t (arc t) (type_name t) (type_name (arc t)) scope is_private _
      (nodes-Inv _ _ (store_constructed-Inv c t (pack t v) scope is_private h))

ensure_group_virtual-Inv :
    (c : Container) (element : TypeId) → Inv c → Gives Inv (ensure_group_virtual c element)
unfolding ensure_group_virtual
ensure_group_virtual-Inv c element h =
    if-cases (Gives Inv) (contains_key c.groups.registrations element) (ok c) _ h (
      after_checks Inv c (group element) (arc (group element)) (type_name (group element))
        (type_name (arc (group element))) root false _ (register_group-Inv c element h))

insert_group_member-Inv :
    (c : Container) (element : TypeId) (p : DynProvider) (scope : ScopeId)
    → Inv c
    → Gives Inv (insert_group_member c element p scope)
unfolding insert_group_member
insert_group_member-Inv c element p scope h =
    Gives-bind Inv Inv (ensure_group_virtual c element) _ (ensure_group_virtual-Inv c element h)
      (λ c' h'.
        Gives-bind (λ _. Unit {0}) Inv
          (expect (next_id c'.groups.next_member_id) "group member id overflow") _ (Gives-any _)
          (λ id _. add_member-Inv c' element p scope id h'))

scope-Inv : (c : Container) (scope : ScopeId) → Inv c → Inv (record c { active_scope = scope })
scope-Inv c scope h = record {
  marked = record { value = h.marked.value; provider = h.marked.provider; alias = h.marked.alias };
  indexed = record {
    public_key = h.indexed.public_key;
    alias_key = h.indexed.alias_key;
    virtual_key = h.indexed.virtual_key;
  };
}

tree-Inv : (c : Container) (tree : ScopeTree) → Inv c → Inv (record c { scopes = tree })
tree-Inv c tree h = record {
  marked = record { value = h.marked.value; provider = h.marked.provider; alias = h.marked.alias };
  indexed = record {
    public_key = h.indexed.public_key;
    alias_key = h.indexed.alias_key;
    virtual_key = h.indexed.virtual_key;
  };
}

require_group_element-Inv :
    (c : Container) (element : TypeId) (name : String)
    → Inv c
    → Inv (require_group_element c element name)
unfolding require_group_element
require_group_element-Inv c element name h =
    if-cases Inv (contains_key c.groups.required element) c _ h (record {
      marked = record {
        value = h.marked.value;
        provider = h.marked.provider;
        alias = h.marked.alias;
      };
      indexed = record {
        public_key = h.indexed.public_key;
        alias_key = h.indexed.alias_key;
        virtual_key = h.indexed.virtual_key;
      };
    })

-- Each call that succeeds keeps the invariant.
pub Step-Inv : (c d : Container) → Inv c → Step c d → Inv d
unfolding enter_scope leave_scope
Step-Inv _ _ h (provide c d p scope is_private e) =
    Gives-ok Inv _ d (insert_provider-Inv c p scope is_private h) e
Step-Inv _ _ h (supply c d t v scope is_private e) =
    Gives-ok Inv _ d (insert_value-Inv c t v scope is_private h) e
Step-Inv _ _ h (declare c d element e) = Gives-ok Inv _ d (ensure_group_virtual-Inv c element h) e
Step-Inv _ _ h (contribute c d element p scope e) =
    Gives-ok Inv _ d (insert_group_member-Inv c element p scope h) e
Step-Inv _ _ h (require c element name) = require_group_element-Inv c element name h
Step-Inv _ _ h (enter c scope) = scope-Inv c scope h
Step-Inv _ _ h (leave c previous) = scope-Inv c previous h
Step-Inv _ _ h (nest c parent name tree scope e) = tree-Inv c tree h

-- A container that is made by calls of its interface that succeed, from the empty container on:
-- each scope that has a private value, provider or alias is marked in it; its public index and its
-- groups name public providers that are there, and a private alias of a scope names a private
-- provider of that scope that is there.
pub reachable-Inv : (c : Container) → Reachable c → Inv c
reachable-Inv _ start = new-Inv
reachable-Inv _ (step c d r s) = Step-Inv c d (reachable-Inv c r) s
