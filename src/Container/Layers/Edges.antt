-- ===== src/Container/Layers/Edges.antt =====
-- The edges of the dependency graph as one list, read without a cache, and how the maps of
-- `freeze_layers` hold them.
use modrun.Base.{
  ℕ, suc, ◌≡◌, refl, true, false, Option, none, some, List, [], ◌∷◌, ◌++◌, if◌then◌else◌, ◌==◌,
  nat_eq, pair_eq, arith, Option-cases, inl, inr,
}
use modrun.Base.Assoc.{get, insert, get-insert}
use modrun.Error.{Result, ok, err, panicked, ◌>>=◌}
use modrun.Error.Agree.{Agree}
use modrun.Scope.{ScopeId}
use modrun.Container.Types.{TypeId, ProviderKey, Dep, DynProvider, dep_types, GroupRegistration}
use modrun.Container.Keys.{type_eq, key_eq, type_beq_iff}
use modrun.Container.State.{Container, provider_at}
use modrun.Container.Resolve.{value_satisfies}
use modrun.Container.Register.{members_of}
use modrun.Container.Layers.{Answers, from_cache, resolve_provider_key}

-- A provider, and one that depends on it.
abbrev pub Edge : Type 0
Edge = ProviderKey × ProviderKey

abbrev pub edge_to : ProviderKey → Option ProviderKey → List Edge → List Edge
edge_to key none edges = edges
edge_to key (some dep_key) edges = edges ++ (dep_key, key) ∷ []

-- The edges of one dependency: none if a value satisfies it or nothing provides it.
unfoldable pub dep_edges : Container → ProviderKey → List Dep → List Edge → Result (List Edge)
dep_edges c key [] edges = ok edges
dep_edges c key ((id, _) ∷ deps) edges =
    (value_satisfies c id key.scope >>= λ hit. elim hit [
      | true ↦ ok edges
      | false ↦ resolve_provider_key c id key.scope >>= λ found. ok (edge_to key found edges)
    ])
    >>= λ edges'. dep_edges c key deps edges'

abbrev pub provider_edges :
    Container → ProviderKey → Option DynProvider → List Edge → Result (List Edge)
provider_edges c key none edges = ok edges
provider_edges c key (some p) edges = dep_edges c key (dep_types p) edges

unfoldable pub providers_edges : Container → List ProviderKey → List Edge → Result (List Edge)
providers_edges c [] edges = ok edges
providers_edges c (key ∷ keys) edges =
    provider_edges c key (provider_at c key) edges >>= λ edges'. providers_edges c keys edges'

-- A group depends on its members.
unfoldable pub member_edges : ProviderKey → List ProviderKey → List Edge → List Edge
member_edges virtual_key [] edges = edges
member_edges virtual_key (key ∷ keys) edges =
    member_edges virtual_key keys (edges ++ (key, virtual_key) ∷ [])

unfoldable pub group_edges : Container → List (TypeId × GroupRegistration) → List Edge → List Edge
unfolding member_edges
group_edges c [] edges = edges
group_edges c ((_, reg) ∷ regs) edges =
    group_edges c regs (member_edges reg.virtual_key (members_of c reg.element) edges)

-- Each provider that is to be built before another, with that other.
unfoldable pub dependency_edges : Container → Result (List Edge)
unfolding providers_edges group_edges
dependency_edges c = providers_edges c c.provider_order [] >>= λ edges.
    ok (group_edges c c.groups.registrations edges)

-- How many edges lead into the key.
unfoldable pub into : List Edge → ProviderKey → ℕ
into [] k = 0
into ((_, t) ∷ edges) k = let rest = into edges k in if t == k then suc rest else rest

pub into-append :
    (edges : List Edge) (j t k : ProviderKey)
    → into (edges ++ (j, t) ∷ []) k ≡ (if t == k then suc (into edges k) else into edges k)
unfolding into
into-append [] j t k = refl
into-append ((i, u) ∷ edges) j t k = ground (arith, into-append edges j t k)

-- The answers that a cache has are those that the search gives.
abbrev pub IsSound : {V : Type 0} → (TypeId → ScopeId → Result V) → Answers V → Type 0
IsSound {V} search cache =
    (id : TypeId) (from : ScopeId) (hit : V)
    → get cache (id, from) ≡ some hit
    → search id from ≡ ok hit

module _ {V : Type 0} (search : TypeId → ScopeId → Result V) where
  abbrev pub Answered : Answers V × V → V → Type 0
  Answered found hit = IsSound search found.0 × (found.1 ≡ hit)

  insert-IsSound :
      (id : TypeId) (from : ScopeId) (cache : Answers V) (hit : V)
      → IsSound search cache
      → search id from ≡ ok hit
      → IsSound search (insert cache (id, from) hit)
  insert-IsSound id from cache hit s e t f b =
      rw (get-insert cache (id, from) (t, f) hit)
        (λ q. ground (arith, s t f b, type_beq_iff id t, nat_eq.beq_iff from f, e))

  fresh-IsSound :
      (id : TypeId) (from : ScopeId) (cache : Answers V) (r : Result V)
      → IsSound search cache
      → search id from ≡ r
      → Agree Answered (r >>= λ hit. ok (insert cache (id, from) hit, hit)) r
  fresh-IsSound id from cache (ok hit) s e = (insert-IsSound id from cache hit s e, refl)
  fresh-IsSound id from cache (err x) s e = refl
  fresh-IsSound id from cache (panicked m) s e = refl

  -- With the cache, the search gives what it gives without.
  pub from_cache-IsSound :
      (id : TypeId) (from : ScopeId) (cache : Answers V)
      → IsSound search cache
      → Agree Answered
          (from_cache (id, from) (search id from) cache (get cache (id, from)))
          (search id from)
  from_cache-IsSound id from cache s = elim (Option-cases (get cache (id, from))) [
    | inl none_there ↦ rw none_there (fresh-IsSound id from cache (search id from) s refl)
    | inr (hit, there) ↦ rw (there, s id from hit there) (s, refl)
  ]
