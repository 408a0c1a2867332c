-- ===== src/Container/Inv/Claimed/Once.antt =====
-- A type that is bound in a place stays bound there, and is not bound again.
use modrun.Base.{◌≡◌, refl, Bool, true, false, nat_eq, pair_eq, arith, String}
use modrun.Base.Assoc.{get-insert, contains_key, contains_key-get, insert}
use modrun.Error.{ok, err, expect}
use modrun.Error.Gives.{Gives, Gives-bind, Gives-any, Gives-ok, if-cases}
use modrun.Scope.{ScopeId, root}
use modrun.Container.Types.{TypeId, arc, group, Payload, singleton, type_name, DynProvider}
use modrun.Container.Keys.{type_eq, key_eq, key_beq_iff}
use modrun.Container.State.{Container, enter_scope, leave_scope}
use modrun.Container.Storage.{conflict, conflict_error, ensure_absent, insert_value, pack}
use modrun.Container.Register.{
  insert_provider, with_provider, ensure_group_virtual, insert_group_member, next_id,
  require_group_element,
}
use modrun.Container.Storage.Checked.{after_checks}
use modrun.Container.Inv.Reachable.{
  Step, provide, supply, declare, contribute, require, enter, leave, nest,
}
use modrun.Container.Inv.Claimed.{
  Claims, with_provider-Claims, store_constructed-Claims, register_group-Claims, add_member-Claims,
}

insert_provider-Claims :
    (c : Container) (p : DynProvider) (scope : ScopeId) (is_private : Bool)
    → Gives (Claims c) (insert_provider c p scope is_private)
unfolding insert_provider
insert_provider-Claims c p scope is_private =
    after_checks (Claims c) c p.result_type p.alias_type p.result_name p.result_name scope
      is_private _ (with_provider-Claims c p scope is_private)

insert_value-Claims :
    (c : Container) (t : TypeId) (v : Payload) (scope : ScopeId) (is_private : Bool)
    → Gives (Claims c) (insert_value c t v scope is_private)
unfolding insert_value Claims conflict
insert_value-Claims c t v scope is_private =
    after_checks (Claims c) c t (arc t) (type_name t) (type_name (arc t)) scope is_private _
      (store_constructed-Claims c t (pack t v) scope is_private)

ensure_group_virtual-Claims :
    (c : Container) (element : TypeId) → Gives (Claims c) (ensure_group_virtual c element)
unfolding ensure_group_virtual Claims
ensure_group_virtual-Claims c element =
    if-cases (Gives (Claims c)) (contains_key c.groups.registrations element) (ok c) _
      (λ id s b e. e)
      (after_checks (Claims c) c (group element) (arc (group element)) (type_name (group element))
        (type_name (arc (group element))) root false _ (register_group-Claims c element))

insert_group_member-Claims :
    (c : Container) (element : TypeId) (p : DynProvider) (scope : ScopeId)
    → Gives (Claims c) (insert_group_member c element p scope)
unfolding insert_group_member Claims
insert_group_member-Claims c element p scope =
    Gives-bind (Claims c) (Claims c) (ensure_group_virtual c element) _
      (ensure_group_virtual-Claims c element)
      (λ c' h.
        Gives-bind (λ _. Unit {0}) (Claims c)
          (expect (next_id c'.groups.next_member_id) "group member id overflow") _ (Gives-any _)
          (λ n _ id s b e. add_member-Claims c' element p scope n id s b (h id s b e)))

require-Claims :
    (c : Container) (element : TypeId) (name : String)
    → Claims c (require_group_element c element name)
unfolding require_group_element Claims conflict
require-Claims c element name =
    if-cases (Claims c) (contains_key c.groups.required element) c _ (λ id s b e. e)
      (λ id s b e. ground (arith))

Step-Claims : (c d : Container) → Step c d → Claims c d
unfolding enter_scope leave_scope Claims conflict
Step-Claims _ _ (provide c d p scope is_private e) =
    Gives-ok (Claims c) _ d (insert_provider-Claims c p scope is_private) e
Step-Claims _ _ (supply c d t v scope is_private e) =
    Gives-ok (Claims c) _ d (insert_value-Claims c t v scope is_private) e
Step-Claims _ _ (declare c d element e) =
    Gives-ok (Claims c) _ d (ensure_group_virtual-Claims c element) e
Step-Claims _ _ (contribute c d element p scope e) =
    Gives-ok (Claims c) _ d (insert_group_member-Claims c element p scope) e
Step-Claims _ _ (require c element name) = require-Claims c element name
Step-Claims _ _ (enter c scope) = λ id s b e. ground arith
Step-Claims _ _ (leave c previous) = λ id s b e. ground arith
Step-Claims _ _ (nest c parent name tree scope e) = λ id s b e. ground arith

-- Successive calls.
pub data Steps : Container → Container → Type 0 where
  done : (c : Container) → Steps c c
  next : (c d e : Container) → Step c d → Steps d e → Steps c e

pub Steps-Claims : (c d : Container) → Steps c d → Claims c d
unfolding Claims
Steps-Claims _ _ (done c) id s b h = h
Steps-Claims _ _ (next c d e step rest) id s b h =
    Steps-Claims d e rest id s b (Step-Claims c d step id s b h)

-- A registered provider claims its type and the `Arc` of it.
abbrev pub Claimed : DynProvider → ScopeId → Bool → Container → Type 0
Claimed p scope is_private d =
    (conflict d p.result_type scope is_private ≡ true)
    × (conflict d p.alias_type scope is_private ≡ true)

with_provider-Claimed :
    (c : Container) (p : DynProvider) (scope : ScopeId) (is_private : Bool)
    → Claimed p scope is_private (with_provider c p scope is_private)
unfolding with_provider conflict
with_provider-Claimed c p scope true =
    let key = singleton p.result_type scope true in
    ground (
      arith,
      contains_key-get (insert c.providers key p) key,
      contains_key-get (insert c.private_alias (p.alias_type, scope) key) (p.alias_type, scope),
      get-insert c.providers key key p,
      key_beq_iff key key,
      get-insert c.private_alias (p.alias_type, scope) (p.alias_type, scope) key,
      type_eq.beq_iff p.alias_type p.alias_type,
      nat_eq.beq_iff scope scope,
    )
with_provider-Claimed c p scope false =
    let key = singleton p.result_type scope false in
    let index = insert c.public_index p.result_type key in
    ground (
      arith,
      contains_key-get (insert index p.alias_type key) p.result_type,
      contains_key-get (insert index p.alias_type key) p.alias_type,
      get-insert index p.alias_type p.result_type key,
      get-insert index p.alias_type p.alias_type key,
      get-insert c.public_index p.result_type p.result_type key,
      type_eq.beq_iff p.alias_type p.alias_type,
      type_eq.beq_iff p.result_type p.result_type,
    )

pub insert_provider-Claimed :
    (c d : Container) (p : DynProvider) (scope : ScopeId) (is_private : Bool)
    → insert_provider c p scope is_private ≡ ok d
    → Claimed p scope is_private d
unfolding insert_provider
insert_provider-Claimed c d p scope is_private e =
    Gives-ok (Claimed p scope is_private) _ d
      (after_checks (Claimed p scope is_private) c p.result_type p.alias_type p.result_name
        p.result_name scope is_private _ (with_provider-Claimed c p scope is_private))
      e

refused :
    (c : Container) (t : TypeId) (name : String) (scope : ScopeId) (is_private : Bool)
    → conflict c t scope is_private ≡ true
    → ensure_absent c t name scope is_private ≡ err (conflict_error c name scope is_private)
unfolding ensure_absent
refused c t name scope is_private h = ground (arith, h)

-- Once a provider was registered in a place (publicly, or privately in a scope), then, whatever is
-- registered after it, a provider or a value of the same type is refused there, with the error
-- that names the type.
pub provided_once :
    (c d e : Container) (p q : DynProvider) (v : Payload) (scope : ScopeId) (is_private : Bool)
    → insert_provider c p scope is_private ≡ ok d
    → Steps d e
    → q.result_type ≡ p.result_type
    → (insert_provider e q scope is_private ≡ err (conflict_error e q.result_name scope is_private))
      × (insert_value e p.result_type v scope is_private
          ≡ err (conflict_error e (type_name p.result_type) scope is_private))
unfolding insert_provider insert_value Claims
provided_once c d e p q v scope is_private made later same =
    let taken =
      (Steps-Claims d e later) p.result_type scope is_private
        (insert_provider-Claimed c d p scope is_private made).0 in
    (
      rw (same, refused e p.result_type q.result_name scope is_private taken) refl,
      rw (refused e p.result_type (type_name p.result_type) scope is_private taken) refl,
    )
