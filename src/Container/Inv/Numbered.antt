-- ===== src/Container/Inv/Numbered.antt =====
-- The members of the groups are numbered: no two of an element have the same key.
use modrun.Base.{
  ℕ, ◌+◌, ◌≤◌, ◌≡◌, ◌≢◌, refl, sym, ap, subst, String, Bool, true, false, Option, none, some, All,
  List, [], ◌∷◌, ◌++◌, arith, nat_eq,
}
use modrun.Base.Assoc.{get, get-insert, contains_key}
use modrun.Error.{ok, expect}
use modrun.Error.Gives.{Gives, Gives-bind, Gives-ok, if-cases}
use modrun.Scope.{ScopeId, root}
use modrun.Container.Types.{TypeId, arc, group, Payload, type_name, ProviderKey, DynProvider}
use modrun.Container.Keys.{type_eq}
use modrun.Container.State.{Container, new, enter_scope, leave_scope}
use modrun.Container.Storage.{insert_value, store_constructed, store_alias, store_value, pack}
use modrun.Container.Storage.Checked.{after_checks}
use modrun.Container.Register.{
  insert_provider, with_provider, ensure_group_virtual, register_group, insert_group_member,
  add_member, members_of, member_key, next_id, require_group_element,
}
use modrun.Container.Aggregate.Members.{Distinct}
use modrun.Container.Inv.Reachable.{
  Step, provide, supply, declare, contribute, require, enter, leave, nest, Reachable, start, step,
}

-- Each list of members has distinct keys, numbered up to `n`.
abbrev AreNumbered : ℕ → List ProviderKey → Type 0
AreNumbered n keys = Distinct keys × All (λ (k : ProviderKey). k.ordinal ≤ n) keys

abbrev Numbered : Container → Type 0
Numbered c = (element : TypeId) → AreNumbered c.groups.next_member_id (members_of c element)

-- The members and their number are the same.
abbrev SameMembers : Container → Container → Type 0
SameMembers c d =
    ((element : TypeId) → members_of d element ≡ members_of c element)
    × (d.groups.next_member_id ≡ c.groups.next_member_id)

same-Numbered : (c d : Container) → SameMembers c d → Numbered c → Numbered d
same-Numbered c d (e, f) h element = rw (e element, f) (h element)

with_provider-SameMembers :
    (c : Container) (p : DynProvider) (scope : ScopeId) (is_private : Bool)
    → SameMembers c (with_provider c p scope is_private)
unfolding with_provider members_of
with_provider-SameMembers c p scope true = (λ element. refl, refl)
with_provider-SameMembers c p scope false = (λ element. refl, refl)

store_constructed-SameMembers :
    (c : Container) (t : TypeId) (v : Payload) (scope : ScopeId) (is_private : Bool)
    → SameMembers c (store_constructed c t (pack t v) scope is_private)
unfolding store_constructed store_alias store_value pack members_of
store_constructed-SameMembers c t v scope true = (λ element. refl, refl)
store_constructed-SameMembers c t v scope false = (λ element. refl, refl)

insert_provider-SameMembers :
    (c : Container) (p : DynProvider) (scope : ScopeId) (is_private : Bool)
    → Gives (SameMembers c) (insert_provider c p scope is_private)
unfolding insert_provider
insert_provider-SameMembers c p scope is_private =
    after_checks (SameMembers c) c p.result_type p.alias_type p.result_name p.result_name scope
      is_private _ (with_provider-SameMembers c p scope is_private)

insert_value-SameMembers :
    (c : Container) (t : TypeId) (v : Payload) (scope : ScopeId) (is_private : Bool)
    → Gives (SameMembers c) (insert_value c t v scope is_private)
unfolding insert_value members_of
insert_value-SameMembers c t v scope is_private =
    after_checks (SameMembers c) c t (arc t) (type_name t) (type_name (arc t)) scope is_private _
      (store_constructed-SameMembers c t v scope is_private)

register_group-SameMembers :
    (c : Container) (element : TypeId) → SameMembers c (register_group c element)
unfolding register_group members_of
register_group-SameMembers c element = (λ e. refl, refl)

ensure_group_virtual-SameMembers :
    (c : Container) (element : TypeId) → Gives (SameMembers c) (ensure_group_virtual c element)
unfolding ensure_group_virtual
ensure_group_virtual-SameMembers c element =
    if-cases (Gives (SameMembers c)) (contains_key c.groups.registrations element) (ok c) _
      (λ e. refl, refl)
      (after_checks (SameMembers c) c (group element) (arc (group element))
        (type_name (group element)) (type_name (arc (group element))) root false _
        (register_group-SameMembers c element))

require-SameMembers :
    (c : Container) (element : TypeId) (name : String)
    → SameMembers c (require_group_element c element name)
unfolding require_group_element members_of
require-SameMembers c element name =
    if-cases (SameMembers c) (contains_key c.groups.required element) c _ (λ e. refl, refl)
      (λ e. refl, refl)

-- One key more, with the next number.
append-AreNumbered :
    (n : ℕ) (keys : List ProviderKey) (key : ProviderKey)
    → key.ordinal ≡ n + 1
    → AreNumbered n keys
    → AreNumbered (n + 1) (keys ++ key ∷ [])
append-AreNumbered n [] key e h = ((tt, tt), (omega arith, tt))
append-AreNumbered n (k ∷ keys) key e ((ne, distinct), (le, les)) =
    let (rest_distinct, rest_les) = append-AreNumbered n keys key e (distinct, les) in
    ((new_differs keys ne, rest_distinct), (omega arith, rest_les))
  where
    new_differs : (ks : List ProviderKey) → All (λ j. k ≢ j) ks → All (λ j. k ≢ j) (ks ++ key ∷ [])
    new_differs [] h =
        (λ q. (let same : k.ordinal ≡ key.ordinal = ap (λ x. x.ordinal) q in omega arith), tt)
    new_differs (j ∷ ks) (h, hs) = (h, new_differs ks hs)

weaken-AreNumbered :
    (n : ℕ) (keys : List ProviderKey) → AreNumbered n keys → AreNumbered (n + 1) keys
weaken-AreNumbered n [] h = (tt, tt)
weaken-AreNumbered n (k ∷ keys) ((ne, distinct), (le, les)) =
    let (d, l) = weaken-AreNumbered n keys (distinct, les) in ((ne, d), (omega arith, l))

add_member-Numbered :
    (c : Container) (element : TypeId) (p : DynProvider) (scope : ScopeId) (id : ℕ)
    → id ≡ c.groups.next_member_id + 1
    → Numbered c
    → Numbered (add_member c element p scope id)
unfolding add_member members_of member_key
add_member-Numbered c element p scope id e h other =
    let key = member_key p scope id in
    let keys = members_of c element ++ key ∷ [] in
    let numbered_at : Option (List ProviderKey) → Type 0 =
      λ o. AreNumbered id (elim o [ none ↦ [] | some ks ↦ ks ]) in
    let more =
      subst (λ m. AreNumbered m keys) (sym e)
        (append-AreNumbered c.groups.next_member_id (members_of c element) key e (h element)) in
    let old =
      subst (λ m. AreNumbered m (members_of c other)) (sym e)
        (weaken-AreNumbered c.groups.next_member_id (members_of c other) (h other)) in
    subst numbered_at (sym (get-insert c.groups.members element other keys)) (
      if-cases numbered_at (type_eq.beq element other) (some keys) (get c.groups.members other) more
        old)

pub next_id-lem : (n : ℕ) (m : String) → Gives (λ id. id ≡ n + 1) (expect (next_id n) m)
unfolding next_id
next_id-lem n m = ground arith

insert_group_member-Numbered :
    (c : Container) (element : TypeId) (p : DynProvider) (scope : ScopeId)
    → Numbered c
    → Gives Numbered (insert_group_member c element p scope)
unfolding insert_group_member
insert_group_member-Numbered c element p scope h =
    Gives-bind (SameMembers c) Numbered (ensure_group_virtual c element) _
      (ensure_group_virtual-SameMembers c element)
      (λ c' same.
        Gives-bind (λ id. id ≡ c'.groups.next_member_id + 1) Numbered
          (expect (next_id c'.groups.next_member_id) "group member id overflow") _
          (next_id-lem c'.groups.next_member_id "group member id overflow")
          (λ id e. add_member-Numbered c' element p scope id e (same-Numbered c c' same h)))

Step-Numbered : (c d : Container) → Numbered c → Step c d → Numbered d
unfolding enter_scope leave_scope members_of
Step-Numbered _ _ h (provide c d p scope is_private e) =
    same-Numbered c d
      (Gives-ok (SameMembers c) _ d (insert_provider-SameMembers c p scope is_private) e) h
Step-Numbered _ _ h (supply c d t v scope is_private e) =
    same-Numbered c d
      (Gives-ok (SameMembers c) _ d (insert_value-SameMembers c t v scope is_private) e) h
Step-Numbered _ _ h (declare c d element e) =
    same-Numbered c d (Gives-ok (SameMembers c) _ d (ensure_group_virtual-SameMembers c element) e)
      h
Step-Numbered _ _ h (contribute c d element p scope e) =
    Gives-ok Numbered _ d (insert_group_member-Numbered c element p scope h) e
Step-Numbered _ _ h (require c element name) =
    same-Numbered c (require_group_element c element name) (require-SameMembers c element name) h
Step-Numbered _ _ h (enter c scope) = λ element. h element
Step-Numbered _ _ h (leave c previous) = λ element. h element
Step-Numbered _ _ h (nest c parent name tree scope e) = λ element. h element

new-Numbered : Numbered new
unfolding new members_of get
new-Numbered element = (tt, tt)

reachable-Numbered : (c : Container) → Reachable c → Numbered c
reachable-Numbered _ start = new-Numbered
reachable-Numbered _ (step c d r s) = Step-Numbered c d (reachable-Numbered c r) s

-- In a container made by calls of its interface, the members of a group are distinct keys, of which
-- none has a number above that of the last member registered, and so the next one is new.
pub reachable-Distinct :
    (c : Container) (element : TypeId)
    → Reachable c
    → Distinct (members_of c element)
      × All (λ (k : ProviderKey). k.ordinal ≤ c.groups.next_member_id) (members_of c element)
reachable-Distinct c element r = reachable-Numbered c r element
