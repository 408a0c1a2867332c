-- ===== src/Container/Inv/Ordered.antt =====
-- The order of registration names each provider once, and the groups name providers.
pub mod Steps
use modrun.Base.{
  ℕ, zero, suc, ◌+◌, ◌≤◌, ◌<◌, ◌≡◌, ◌≢◌, refl, sym, ap, subst, String, Bool, true, false, Option,
  none, some, All, List, [], ◌∷◌, ◌++◌, arith, nat_eq, pair_eq, if◌then◌else◌, length, Eq, ◌==◌,
}
use modrun.Base.Assoc.{Map, get, get-insert, insert, contains_key, contains_key-get}
use modrun.Base.Counts.{count, count-append, count-All, All-count}
use modrun.Error.{ok, err, expect}
use modrun.Error.Gives.{Gives, Gives-bind, Gives-any, Gives-ok, if-cases}
use modrun.Scope.{ScopeId, root}
use modrun.Container.Types.{
  TypeId, arc, group, Payload, type_name, ProviderKey, singleton, DynProvider, GroupRegistration,
  new_group_virtual,
}
use modrun.Container.Keys.{type_eq, key_eq, key_beq_iff, type_beq_iff}
use modrun.Container.State.{Container, new, enter_scope, leave_scope}
use modrun.Container.Storage.{
  conflict, conflict_error, ensure_absent, insert_value, store_constructed, store_alias,
  store_value, pack,
}
use modrun.Container.Storage.Checked.{after_checks}
use modrun.Container.Register.{
  insert_provider, with_provider, ensure_group_virtual, register_group, insert_group_member,
  add_member, members_of, member_key, next_id, require_group_element,
}
use modrun.Container.Inv.Numbered.{next_id-lem}
use modrun.Container.Inv.Reachable.{
  Step, provide, supply, declare, contribute, require, enter, leave, Reachable, start, step,
}

abbrev pub present {ℓ} : {A : Type ℓ} → Option A → ℕ
present none = 0
present (some _) = 1

pub record Ordered (c : Container) : Type 0 where
  pub idle : c.constructing ≡ []
  pub counted : (k : ProviderKey) → count c.provider_order k ≡ present (get c.providers k)
  pub indexed :
      (id : TypeId) (scope : ScopeId)
      → present (get c.providers (singleton id scope false)) ≤ present (get c.public_index id)
  pub numbered :
      (k : ProviderKey) → 0 < present (get c.providers k) → k.ordinal ≤ c.groups.next_member_id
  pub members :
      (element : TypeId)
      → All (λ (k : ProviderKey). 0 < count c.provider_order k) (members_of c element)
  pub virtual_keys :
      All
        (λ (reg : TypeId × GroupRegistration). 0 < count c.provider_order reg.1.virtual_key)
        c.groups.registrations

-- A longer order names what it named.
more-All :
    (order keys : List ProviderKey) (key : ProviderKey)
    → All (λ (k : ProviderKey). 0 < count order k) keys
    → All (λ (k : ProviderKey). 0 < count (order ++ key ∷ []) k) keys
more-All order [] key h = tt
more-All order (k ∷ keys) key (h, hs) =
    (ground (arith, h, count-append order (key ∷ []) k), more-All order keys key hs)

more-virtual :
    (order : List ProviderKey) (regs : List (TypeId × GroupRegistration)) (key : ProviderKey)
    → All (λ (reg : TypeId × GroupRegistration). 0 < count order reg.1.virtual_key) regs
    → All
        (λ (reg : TypeId × GroupRegistration). 0 < count (order ++ key ∷ []) reg.1.virtual_key)
        regs
more-virtual order [] key h = tt
more-virtual order ((_, reg) ∷ regs) key (h, hs) = (
  ground (arith, h, count-append order (key ∷ []) reg.virtual_key),
  more-virtual order regs key hs,
)

append-All {ℓ} :
    {A : Type ℓ} (P : A → Type 0) (xs : List A) (x : A) → All P xs → P x → All P (xs ++ x ∷ [])
append-All P [] x h p = (p, tt)
append-All P (y ∷ ys) x (q, h) p = (q, append-All P ys x h p)

All-insert {ℓ κ} :
    {K : Type ℓ} {V : Type κ} ⦃e : Eq K⦄ (P : K × V → Type 0) (m : Map K V) (k : K) (v : V)
    → P (k, v)
    → All P m
    → All P (insert m k v)
unfolding insert
All-insert P [] k v p h = (p, tt)
All-insert P ((j, w) ∷ m) k v p (q, h) =
    if-cases (All P) (j == k) ((k, v) ∷ m) ((j, w) ∷ insert m k v) (p, h)
      (q, All-insert P m k v p h)

count-new :
    (c : Container) (key k : ProviderKey) (p : DynProvider)
    → Ordered c
    → get c.providers key ≡ none
    → count (c.provider_order ++ key ∷ []) k ≡ present (get (insert c.providers key p) k)
unfolding count
count-new c key k p h free = ground (
  arith,
  h.counted k,
  count-append c.provider_order (key ∷ []) k,
  get-insert c.providers key k p,
  key_beq_iff key k,
  free,
)

with_provider-Ordered :
    (c : Container) (p : DynProvider) (scope : ScopeId) (is_private : Bool)
    → conflict c p.result_type scope is_private ≡ false
    → Ordered c
    → Ordered (with_provider c p scope is_private)
unfolding with_provider conflict members_of
with_provider-Ordered c p scope true free h =
    let key = singleton p.result_type scope true in
    let new_key : get c.providers key ≡ none =
      ground (arith, free, contains_key-get c.providers key) in
    record {
      idle = h.idle;
      counted = λ k. count-new c key k p h new_key;
      indexed = λ id s.
          ground (arith, h.indexed id s, get-insert c.providers key (singleton id s false) p);
      numbered = λ k there.
          ground (arith, h.numbered k, there, get-insert c.providers key k p, key_beq_iff key k);
      members = λ element. more-All c.provider_order (members_of c element) key (h.members element);
      virtual_keys = more-virtual c.provider_order c.groups.registrations key h.virtual_keys;
    }
with_provider-Ordered c p scope false free h =
    let key = singleton p.result_type scope false in
    let new_key : get c.providers key ≡ none =
      ground (
        arith,
        free,
        contains_key-get c.public_index p.result_type,
        h.indexed p.result_type scope,
      ) in
    record {
      idle = h.idle;
      counted = λ k. count-new c key k p h new_key;
      indexed = λ id s. ground (
        arith,
        h.indexed id s,
        get-insert c.providers key (singleton id s false) p,
        key_beq_iff key (singleton id s false),
        get-insert (insert c.public_index p.result_type key) p.alias_type id key,
        get-insert c.public_index p.result_type id key,
        type_beq_iff p.result_type id,
      );
      numbered = λ k there.
          ground (arith, h.numbered k, there, get-insert c.providers key k p, key_beq_iff key k);
      members = λ element. more-All c.provider_order (members_of c element) key (h.members element);
      virtual_keys = more-virtual c.provider_order c.groups.registrations key h.virtual_keys;
    }

register_group-Ordered :
    (c : Container) (element : TypeId)
    → conflict c (group element) root false ≡ false
    → Ordered c
    → Ordered (register_group c element)
unfolding register_group conflict members_of count
register_group-Ordered c element free h =
    let key = singleton (group element) root false in
    let new_key : get c.providers key ≡ none = ground (
      arith,
      free,
      contains_key-get c.public_index (group element),
      h.indexed (group element) root,
    ) in
    let p = new_group_virtual element in
    record {
      idle = h.idle;
      counted = λ k. count-new c key k p h new_key;
      indexed = λ id s. ground (
        arith,
        h.indexed id s,
        get-insert c.providers key (singleton id s false) p,
        key_beq_iff key (singleton id s false),
        get-insert (insert c.public_index (group element) key) (arc (group element)) id key,
        get-insert c.public_index (group element) id key,
        type_beq_iff (group element) id,
      );
      numbered = λ k there.
          ground (arith, h.numbered k, there, get-insert c.providers key k p, key_beq_iff key k);
      members = λ el. more-All c.provider_order (members_of c el) key (h.members el);
      virtual_keys =
          All-insert _ c.groups.registrations element _
            (ground (arith, count-append c.provider_order (key ∷ []) key, key_beq_iff key key))
            (more-virtual c.provider_order c.groups.registrations key h.virtual_keys);
    }

add_member-Ordered :
    (c : Container) (element : TypeId) (p : DynProvider) (scope : ScopeId) (id : ℕ)
    → id ≡ c.groups.next_member_id + 1
    → Ordered c
    → Ordered (add_member c element p scope id)
unfolding add_member members_of member_key count
add_member-Ordered c element p scope id e h =
    let key = member_key p scope id in
    let new_key : get c.providers key ≡ none = ground (arith, h.numbered key, e) in
    let here : 0 < count (c.provider_order ++ key ∷ []) key =
      ground (arith, count-append c.provider_order (key ∷ []) key, key_beq_iff key key) in
    let in_order : Option (List ProviderKey) → Type 0 = λ o.
      All (λ (k : ProviderKey). 0 < count (c.provider_order ++ key ∷ []) k)
        (elim o [ none ↦ [] | some ks ↦ ks ]) in
    record {
      idle = h.idle;
      counted = λ k. count-new c key k p h new_key;
      indexed = λ t s. ground (
        arith,
        h.indexed t s,
        get-insert c.providers key (singleton t s false) p,
        key_beq_iff key (singleton t s false),
        e,
      );
      numbered = λ k there.
          ground (arith, h.numbered k, there, get-insert c.providers key k p, key_beq_iff key k, e);
      members = λ el.
          subst in_order
            (sym (get-insert c.groups.members element el (members_of c element ++ key ∷ [])))
            (if-cases in_order (type_eq.beq element el) (some (members_of c element ++ key ∷ []))
              (get c.groups.members el)
              (append-All (λ k. 0 < count (c.provider_order ++ key ∷ []) k) (members_of c element)
                key (more-All c.provider_order (members_of c element) key (h.members element)) here)
              (more-All c.provider_order (members_of c el) key (h.members el)));
      virtual_keys = more-virtual c.provider_order c.groups.registrations key h.virtual_keys;
    }
