-- ===== src/Container/Aggregate/Members.antt =====
-- A group holds the values of its members, in registration order, and they are taken.
use modrun.Base.{String, ◌≡◌, ◌≢◌, refl, false, none, some, List, [], ◌∷◌, nat_eq, arith, All}
use modrun.Base.Assoc.{get, get-remove, contains}
use modrun.Error.{ok}
use modrun.Container.Types.{TypeId, group, Payload, items, to_payloads, ProviderKey}
use modrun.Container.Keys.{type_eq, key_eq, key_beq_iff, type_beq_iff}
use modrun.Container.State.{Container}
use modrun.Container.Storage.{pack}
use modrun.Container.Register.{members_of}
use modrun.Container.Aggregate.{
  without_member, take_group_member, take_packed_member, member_item, collect_members,
  collect_group_member_values, aggregate_group,
}

-- The value of each member is there, as a value of the element type.
abbrev pub Stored : TypeId → Container → List ProviderKey → List Payload → Type 0
Stored element c [] [] = Unit
Stored element c (k ∷ ks) (v ∷ vs) =
    (get c.groups.member_values k ≡ some (record { pointee = element; value = v }))
    × Stored element c ks vs
Stored element c _ _ = ⊥

-- No key stands twice.
abbrev pub Distinct : List ProviderKey → Type 0
Distinct [] = Unit
Distinct (k ∷ ks) = All (λ j. k ≢ j) ks × Distinct ks

-- The values of these members are gone, and nothing else is.
pub record Drained (keys : List ProviderKey) (c d : Container) : Type 0 where
  pub gone : All (λ k. get d.groups.member_values k ≡ none) keys
  pub kept :
      (j : ProviderKey)
      → contains keys j ≡ false
      → get d.groups.member_values j ≡ get c.groups.member_values j
  pub absent :
      (j : ProviderKey) → get c.groups.member_values j ≡ none → get d.groups.member_values j ≡ none

Stored-without :
    (element : TypeId) (c : Container) (k : ProviderKey) (ks : List ProviderKey) (vs : List Payload)
    → All (λ j. k ≢ j) ks
    → Stored element c ks vs
    → Stored element (without_member c k) ks vs
Stored-without element c k [] [] ne h = tt
Stored-without element c k (j ∷ ks) (v ∷ vs) (ne, rest) (h, hs) = (
  ground (arith, get-remove c.groups.member_values k j, key_beq_iff k j),
  Stored-without element c k ks vs rest hs,
)
Stored-without element c k [] (v ∷ vs) ne h = absurd h
Stored-without element c k (j ∷ ks) [] ne h = absurd h

item-stored :
    (element : TypeId) (name : String) (v : Payload)
    → member_item element name (some (record { pointee = element; value = v })) ≡ ok v
unfolding member_item take_packed_member
item-stored element name v = ground (arith, type_beq_iff element element)

Drained-cons :
    (c d : Container) (k : ProviderKey) (ks : List ProviderKey)
    → Drained ks (without_member c k) d
    → Drained (k ∷ ks) c d
unfolding contains
Drained-cons c d k ks h = record {
  gone =
      (h.absent k (ground (arith, get-remove c.groups.member_values k k, key_beq_iff k k)), h.gone);
  kept = λ j e. ground (arith, h.kept j, e, get-remove c.groups.member_values k j);
  absent = λ j e. ground (arith, h.absent j, e, get-remove c.groups.member_values k j);
}

collect_members-Drained :
    (element : TypeId) (name : String) (keys : List ProviderKey) (vs : List Payload) (c : Container)
    → Distinct keys
    → Stored element c keys vs
    → ((collect_members element name keys c).1 ≡ ok vs)
      × Drained keys c (collect_members element name keys c).0
unfolding collect_members take_group_member
collect_members-Drained element name [] [] c d h =
    (refl, record { gone = tt; kept = λ j e. refl; absent = λ j e. e })
collect_members-Drained element name (k ∷ ks) (v ∷ vs) c (ne, distinct) (h, hs) =
    let (same, drained) =
      collect_members-Drained element name ks vs (without_member c k) distinct
        (Stored-without element c k ks vs ne hs) in
    rw (h, item-stored element name v, same) (refl, Drained-cons c _ k ks drained)
collect_members-Drained element name [] (v ∷ vs) c d h = absurd h
collect_members-Drained element name (k ∷ ks) [] c d h = absurd h

-- Where each member of the group has its value, and no member stands twice: the group is made, it
-- holds these values in the order in which the members were registered, the values of the members
-- are gone from the container, and those of other groups' members are still there.
pub aggregate_group-Drained :
    (c : Container) (element : TypeId) (name : String) (vs : List Payload)
    → Distinct (members_of c element)
    → Stored element c (members_of c element) vs
    → ((aggregate_group c element name).1 ≡ ok (pack (group element) (items (to_payloads vs))))
      × Drained (members_of c element) c (aggregate_group c element name).0
unfolding aggregate_group collect_group_member_values
aggregate_group-Drained c element name vs d h =
    let (same, drained) = collect_members-Drained element name (members_of c element) vs c d h in
    (rw same refl, drained)
