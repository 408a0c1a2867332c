-- ===== src/Container/Inv/Ordered/Steps.antt =====
-- Every registration that succeeds keeps the order of registration true to the providers.
use modrun.Base.{
  ◌∙◌, ◌+◌, ◌≡◌, refl, String, Bool, true, false, arith, nat_eq, pair_eq, if◌then◌else◌,
}
use modrun.Base.Assoc.{get, contains_key}
use modrun.Base.Counts.{count}
use modrun.Error.{ok, err, expect}
use modrun.Error.Gives.{Gives, Gives-bind, Gives-any, Gives-ok, if-cases}
use modrun.Scope.{ScopeId, root}
use modrun.Container.Types.{TypeId, arc, group, Payload, type_name, DynProvider}
use modrun.Container.Keys.{type_eq, key_eq}
use modrun.Container.State.{Container, new, enter_scope, leave_scope}
use modrun.Container.Storage.{
  conflict, conflict_error, ensure_absent, insert_value, store_constructed, store_alias,
  store_value, pack,
}
use modrun.Container.Storage.Checked.{after_checks}
use modrun.Container.Register.{
  insert_provider, ensure_group_virtual, insert_group_member, members_of, next_id,
  require_group_element,
}
use modrun.Container.Inv.Numbered.{next_id-lem}
use modrun.Container.Inv.Reachable.{
  Step, provide, supply, declare, contribute, require, enter, leave, nest, Reachable, start, step,
}
use modrun.Container.Inv.Ordered.{
  Ordered, with_provider-Ordered, register_group-Ordered, add_member-Ordered,
}

-- The parts of the container that the invariant reads are the same.
pub same-Ordered :
    (c d : Container)
    → d.constructing ≡ c.constructing
    → d.providers ≡ c.providers
    → d.public_index ≡ c.public_index
    → d.provider_order ≡ c.provider_order
    → d.groups.members ≡ c.groups.members
    → d.groups.registrations ≡ c.groups.registrations
    → d.groups.next_member_id ≡ c.groups.next_member_id
    → Ordered c
    → Ordered d
unfolding members_of
same-Ordered c d i a b e f g n h = record {
  idle = i ∙ h.idle;
  counted = λ k. rw (a, e) (h.counted k);
  indexed = λ id s. rw (a, b) (h.indexed id s);
  numbered = λ k. rw (a, n) (h.numbered k);
  members = λ el. rw (e, f) (h.members el);
  virtual_keys = rw (e, g) h.virtual_keys;
}

ensure_absent-free :
    (c : Container) (id : TypeId) (name : String) (scope : ScopeId) (is_private : Bool)
    → Gives (λ _. conflict c id scope is_private ≡ false) (ensure_absent c id name scope is_private)
unfolding ensure_absent
ensure_absent-free c id name scope is_private =
    elim (conflict c id scope is_private)
      as (λ b.
        Gives (λ _. b ≡ false)
          (if b then err (conflict_error c name scope is_private) else ok tt)) [
            | true ↦ tt
            | false ↦ refl
          ]

store_constructed-Ordered :
    (c : Container) (t : TypeId) (v : Payload) (scope : ScopeId) (is_private : Bool)
    → Ordered c
    → Ordered (store_constructed c t (pack t v) scope is_private)
unfolding store_constructed store_alias store_value pack
store_constructed-Ordered c t v scope true h = same-Ordered c _ refl refl refl refl refl refl refl h
store_constructed-Ordered c t v scope false h =
    same-Ordered c _ refl refl refl refl refl refl refl h

insert_provider-Ordered :
    (c : Container) (p : DynProvider) (scope : ScopeId) (is_private : Bool)
    → Ordered c
    → Gives Ordered (insert_provider c p scope is_private)
unfolding insert_provider
insert_provider-Ordered c p scope is_private h =
    Gives-bind _ Ordered _ _ (ensure_absent-free c p.result_type p.result_name scope is_private)
      (λ _ free.
        Gives-bind (λ _. Unit {0}) Ordered
          (ensure_absent c p.alias_type p.result_name scope is_private) _ (Gives-any _)
          (λ _ _. with_provider-Ordered c p scope is_private free h))

insert_value-Ordered :
    (c : Container) (t : TypeId) (v : Payload) (scope : ScopeId) (is_private : Bool)
    → Ordered c
    → Gives Ordered (insert_value c t v scope is_private)
unfolding insert_value
insert_value-Ordered c t v scope is_private h =
    after_checks Ordered c t (arc t) (type_name t) (type_name (arc t)) scope is_private _ (
      same-Ordered _ _ refl refl refl refl refl refl refl
        (store_constructed-Ordered c t v scope is_private h))

ensure_group_virtual-Ordered :
    (c : Container) (element : TypeId) → Ordered c → Gives Ordered (ensure_group_virtual c element)
unfolding ensure_group_virtual
ensure_group_virtual-Ordered c element h =
    if-cases (Gives Ordered) (contains_key c.groups.registrations element) (ok c) _ h (
      Gives-bind _ Ordered _ _
        (ensure_absent-free c (group element) (type_name (group element)) root false)
        (λ _ free.
          Gives-bind (λ _. Unit {0}) Ordered
            (ensure_absent c (arc (group element)) (type_name (arc (group element))) root false) _
            (Gives-any _) (λ _ _. register_group-Ordered c element free h)))

insert_group_member-Ordered :
    (c : Container) (element : TypeId) (p : DynProvider) (scope : ScopeId)
    → Ordered c
    → Gives Ordered (insert_group_member c element p scope)
unfolding insert_group_member
insert_group_member-Ordered c element p scope h =
    Gives-bind Ordered Ordered (ensure_group_virtual c element) _
      (ensure_group_virtual-Ordered c element h)
      (λ c' h'.
        Gives-bind (λ id. id ≡ c'.groups.next_member_id + 1) Ordered
          (expect (next_id c'.groups.next_member_id) "group member id overflow") _
          (next_id-lem c'.groups.next_member_id "group member id overflow")
          (λ id e. add_member-Ordered c' element p scope id e h'))

require_group_element-Ordered :
    (c : Container) (element : TypeId) (name : String)
    → Ordered c
    → Ordered (require_group_element c element name)
unfolding require_group_element
require_group_element-Ordered c element name h =
    if-cases Ordered (contains_key c.groups.required element) c _ h
      (same-Ordered c _ refl refl refl refl refl refl refl h)

Step-Ordered : (c d : Container) → Ordered c → Step c d → Ordered d
unfolding enter_scope leave_scope
Step-Ordered _ _ h (provide c d p scope is_private e) =
    Gives-ok Ordered _ d (insert_provider-Ordered c p scope is_private h) e
Step-Ordered _ _ h (supply c d t v scope is_private e) =
    Gives-ok Ordered _ d (insert_value-Ordered c t v scope is_private h) e
Step-Ordered _ _ h (declare c d element e) =
    Gives-ok Ordered _ d (ensure_group_virtual-Ordered c element h) e
Step-Ordered _ _ h (contribute c d element p scope e) =
    Gives-ok Ordered _ d (insert_group_member-Ordered c element p scope h) e
Step-Ordered _ _ h (require c element name) = require_group_element-Ordered c element name h
Step-Ordered _ _ h (enter c scope) = same-Ordered c _ refl refl refl refl refl refl refl h
Step-Ordered _ _ h (leave c previous) = same-Ordered c _ refl refl refl refl refl refl refl h
Step-Ordered _ _ h (nest c parent name tree scope e) =
    same-Ordered c _ refl refl refl refl refl refl refl h

new-Ordered : Ordered new
unfolding new get count members_of
new-Ordered = record {
  idle = refl;
  counted = λ k. refl;
  indexed = λ id s. omega arith;
  numbered = λ k there. absurd (omega arith);
  members = λ el. tt;
  virtual_keys = tt;
}

-- In a container made by calls of its interface: the order of registration names each provider
-- exactly once, and no other key; none is marked as under construction; no key has a number above that of the last group member; and the
-- members and the virtual keys of the groups are keys of the order.
pub reachable-Ordered : (c : Container) → Reachable c → Ordered c
reachable-Ordered _ start = new-Ordered
reachable-Ordered _ (step c d r s) = Step-Ordered c d (reachable-Ordered c r) s
