-- ===== src/Container/Collect/Closed.antt =====
-- What is collected is closed under the dependencies, and how much is left to collect.
use modrun.Base.{
  subst, ℕ, suc, ◌≤◌, ◌<◌, ◌≡◌, true, false, some, List, [], ◌∷◌, ◌==◌, if◌then◌else◌, arith, All,
  ◌⊎◌, inl, inr, Bool-cases, length,
}
use modrun.Base.Assoc.{contains, add, contains-add}
use modrun.Base.Counts.{count}
use modrun.Base.Lists.{map-All}
use modrun.Error.{ok}
use modrun.Scope.{ScopeId}
use modrun.Container.Types.{TypeId, StoredValue, ProviderKey, Dep, DynProvider, dep_types}
use modrun.Container.Keys.{key_eq, key_beq_iff}
use modrun.Container.State.{Container, provider_at}
use modrun.Container.Resolve.{
  lookup_value_ref_from, resolve_provider, group_virtual_key, group_element_type,
}
use modrun.Container.Register.{members_of}
use modrun.Container.Build.{Keys}

-- How many keys of the order are not pending.
pub left : Keys → Keys → ℕ
left [] pending = 0
left (key ∷ keys) pending =
    let rest = left keys pending in if contains pending key then rest else suc rest

abbrev pub Grows : Keys → Keys → Type 0
Grows p q = (k : ProviderKey) → contains p k ≡ true → contains q k ≡ true

pub left-Grows : (keys p q : Keys) → Grows p q → left keys q ≤ left keys p
unfolding left
left-Grows [] p q h = omega arith
left-Grows (key ∷ keys) p q h = ground (arith, left-Grows keys p q h, h key)

pub add-Grows : (p : Keys) (key : ProviderKey) → Grows p (add p key)
add-Grows p key k h = ground (arith, h, contains-add p key k)

pub left-add :
    (keys p : Keys) (key : ProviderKey)
    → 0 < count keys key
    → contains p key ≡ false
    → left keys (add p key) < left keys p
unfolding left count
left-add [] p key there h = absurd (omega arith)
left-add (k ∷ keys) p key there h = ground (
  arith,
  left-add keys p key,
  left-Grows keys p (add p key) (add-Grows p key),
  there,
  h,
  contains-add p key k,
  key_beq_iff k key,
  key_beq_iff key k,
)

pub left_le : (keys p : Keys) → left keys p ≤ length keys
unfolding left
left_le [] p = omega arith
left_le (key ∷ keys) p = ground (arith, left_le keys p)

module _ (c : Container) where
  -- The type has a value in the scope, or its provider is in the set.
  abbrev pub Covered : Keys → ScopeId → TypeId → Type 0
  Covered q from id =
      ((v : StoredValue) × (lookup_value_ref_from c id from ≡ ok (some v)))
      ⊎ ((key : ProviderKey) × (p : DynProvider) × (resolve_provider c id from ≡ ok (some (key, p)))
          × (contains q key ≡ true))

  -- All that the key depends on has a value or is in the set: the dependencies of its provider, or,
  -- for the key of a group, the group's members.
  abbrev pub Closed : Keys → ProviderKey → Type 0
  Closed q key =
      ((p : DynProvider) × (provider_at c key ≡ some p)
        × All (λ (dep : Dep). Covered q key.scope dep.0) (dep_types p))
      ⊎ ((t element : TypeId) × (group_virtual_key c t ≡ some key)
          × (group_element_type c t ≡ some element)
          × All (λ (m : ProviderKey). contains q m ≡ true) (members_of c element))

  Covered-Grows :
      (p q : Keys) (from : ScopeId) (id : TypeId)
      → Grows p q
      → Covered p from id
      → Covered q from id
  Covered-Grows p q from id h (inl found) = inl found
  Covered-Grows p q from id h (inr (key, r, e, there)) = inr (key, r, e, h key there)

  pub Covered-All-Grows :
      (p q : Keys) (from : ScopeId) (deps : List Dep)
      → Grows p q
      → All (λ (dep : Dep). Covered p from dep.0) deps
      → All (λ (dep : Dep). Covered q from dep.0) deps
  Covered-All-Grows p q from deps h =
      map-All (λ (dep : Dep). Covered p from dep.0) (λ (dep : Dep). Covered q from dep.0)
        (λ dep. Covered-Grows p q from dep.0 h) deps

  Closed-Grows : (p q : Keys) (key : ProviderKey) → Grows p q → Closed p key → Closed q key
  Closed-Grows p q key h (inl (r, e, deps)) =
      inl (r, e, Covered-All-Grows p q key.scope (dep_types r) h deps)
  Closed-Grows p q key h (inr (t, element, e, f, ms)) =
      inr (t, element, e, f, map-All _ _ (λ m. h m) (members_of c element) ms)

  -- The set grew by keys that are closed in it.
  pub record Grown (p q : Keys) : Type 0 where
    pub more : Grows p q
    pub closed : (k : ProviderKey) → contains q k ≡ true → contains p k ≡ false → Closed q k

  pub Grown-refl : (p : Keys) → Grown p p
  Grown-refl p = record { more = λ k h. h; closed = λ k h n. absurd (cc) }

  pub Grown-trans : (p q r : Keys) → Grown p q → Grown q r → Grown p r
  Grown-trans p q r h k = record {
    more = λ key there. k.more key (h.more key there);
    closed = λ key there not_p. elim (Bool-cases (contains q key)) [
      | inl in_q ↦ Closed-Grows q r key k.more (h.closed key in_q not_p)
      | inr not_q ↦ k.closed key there not_q
    ];
  }

  -- One key more, which is closed in the end.
  pub Grown-add : (p q : Keys) (key : ProviderKey) → Grown (add p key) q → Closed q key → Grown p q
  Grown-add p q key h closed_key = record {
    more = λ k there. h.more k (add-Grows p key k there);
    closed = λ k there not_p. elim (Bool-cases (key == k)) [
      | inl same ↦ subst (Closed q) ((key_beq_iff key k).0 same) closed_key
      | inr other ↦ h.closed k there (ground (arith, not_p, other, contains-add p key k))
    ];
  }

  pub Grown-key : (p q : Keys) (key : ProviderKey) → Grown (add p key) q → contains q key ≡ true
  Grown-key p q key h = h.more key (ground (arith, contains-add p key key, key_beq_iff key key))
