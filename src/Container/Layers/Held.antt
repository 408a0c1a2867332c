-- ===== src/Container/Layers/Held.antt =====
-- The maps that `freeze_layers` reads hold the edges of the dependency graph.
use modrun.Base.{
  ℕ, zero, suc, ◌+◌, ◌≤◌, ◌<◌, ◌≡◌, sym, Bool, true, false, Option, none, some, List, [], ◌∷◌, ◌++◌,
  ◌==◌, nat_eq, pair_eq, arith, All,
}
use modrun.Base.Assoc.{get, get-insert}
use modrun.Base.Counts.{count, count-append}
use modrun.Error.{ok, ◌>>=◌}
use modrun.Error.Agree.{Agree, Agree-bind, Agree-left}
use modrun.Container.Types.{TypeId, ProviderKey, Dep, DynProvider, dep_types, GroupRegistration}
use modrun.Container.Keys.{type_eq, key_eq, key_beq_iff}
use modrun.Container.State.{Container, provider_at}
use modrun.Container.Resolve.{value_satisfies}
use modrun.Container.Register.{members_of}
use modrun.Container.Layers.{
  Answers, Dependents, Graph, or_default, or_zero, resolve_provider_key, dependents_of,
  push_dependent, link, read_dep, read_deps, set_degree, read_provider, read_providers,
  add_member_edges, add_registration_edges, value_satisfies_cached, resolve_provider_key_cached,
}
use modrun.Container.Layers.Edges.{
  Edge, edge_to, dep_edges, provider_edges, providers_edges, member_edges, group_edges, into,
  into-append, IsSound, Answered, from_cache-IsSound,
}

-- The degree of a key that was seen so often.
abbrev pub degree_of : ℕ → ℕ → Option ℕ
degree_of zero n = none
degree_of (suc _) n = some n

abbrev pub HoldsEdges : List Edge → Dependents → Type 0
HoldsEdges edges m = (j k : ProviderKey) → count (dependents_of m j) k ≡ count edges (j, k)

-- The edges read so far are in the maps; `seen` are the keys with a degree.
pub record Holds (c : Container) (seen : List ProviderKey) (edges : List Edge) (g : Graph)
    : Type 0 where
  pub satisfied : IsSound (value_satisfies c) g.satisfied
  pub provider_keys : IsSound (resolve_provider_key c) g.provider_keys
  pub dependents : HoldsEdges edges g.dependents
  pub degrees : (k : ProviderKey) → get g.indegree k ≡ degree_of (count seen k) (into edges k)
  pub unseen : (k : ProviderKey) → count seen k ≡ 0 → into edges k ≡ 0

-- The same while the dependencies of a key are read, whose degree is counted apart.
record Reading (c : Container) (seen : List ProviderKey) (key : ProviderKey) (edges : List Edge)
    (s : Graph × ℕ) : Type 0 where
  satisfied : IsSound (value_satisfies c) s.0.satisfied
  provider_keys : IsSound (resolve_provider_key c) s.0.provider_keys
  dependents : HoldsEdges edges s.0.dependents
  degrees :
      (k : ProviderKey)
      → (key == k) ≡ false
      → get s.0.indegree k ≡ degree_of (count seen k) (into edges k)
  unseen : (k : ProviderKey) → (key == k) ≡ false → count seen k ≡ 0 → into edges k ≡ 0
  own : s.1 ≡ into edges key

pub push-HoldsEdges :
    (edges : List Edge) (m : Dependents) (dep_key key : ProviderKey)
    → HoldsEdges edges m
    → HoldsEdges (edges ++ (dep_key, key) ∷ []) (push_dependent m dep_key key)
unfolding push_dependent dependents_of count
push-HoldsEdges edges m dep_key key h j k = ground (
  arith,
  h j k,
  get-insert m dep_key j (or_default (get m dep_key) ++ key ∷ []),
  count-append (or_default (get m dep_key)) (key ∷ []) k,
  count-append edges ((dep_key, key) ∷ []) (j, k),
  key_beq_iff dep_key j,
)

module _ (c : Container) (seen : List ProviderKey) (key : ProviderKey) where
  link-Reading :
      (found : Option ProviderKey) (edges : List Edge) (s : Graph × ℕ)
      → Reading c seen key edges s
      → Reading c seen key (edge_to key found edges) (link key found s)
  unfolding link
  link-Reading none edges s h = h
  link-Reading (some dep_key) edges s h = record {
    satisfied = h.satisfied;
    provider_keys = h.provider_keys;
    dependents = push-HoldsEdges edges s.0.dependents dep_key key h.dependents;
    degrees = λ k ne. rw (into-append edges dep_key key k, ne) (h.degrees k ne);
    unseen = λ k ne e. ground (arith, into-append edges dep_key key k, h.unseen k ne e);
    own = ground (arith, into-append edges dep_key key key, key_beq_iff key key, h.own);
  }

  cached-Reading :
      (edges : List Edge) (s : Graph × ℕ) (satisfied : Answers Bool)
      (keys : Answers (Option ProviderKey))
      → Reading c seen key edges s
      → IsSound (value_satisfies c) satisfied
      → IsSound (resolve_provider_key c) keys
      → Reading c seen key edges (record s.0 { satisfied = satisfied; provider_keys = keys }, s.1)
  cached-Reading edges s satisfied keys h a b = record {
    satisfied = a;
    provider_keys = b;
    dependents = h.dependents;
    degrees = h.degrees;
    unseen = h.unseen;
    own = h.own;
  }

  abbrev Read : Graph × ℕ → List Edge → Type 0
  Read s edges = Reading c seen key edges s

  -- One dependency, once it is known whether a value satisfies it.
  Read-dep-Read :
      (id : TypeId) (edges : List Edge) (s : Graph × ℕ) (satisfied : Answers Bool) (hit : Bool)
      → Reading c seen key edges s
      → IsSound (value_satisfies c) satisfied
      → Agree Read
          (elim hit [
            | true ↦ ok (record s.0 { satisfied = satisfied }, s.1)
            | false ↦ resolve_provider_key_cached c id key.scope s.0.provider_keys >>= λ resolved.
                ok (
                  link key resolved.1
                    (record s.0 { satisfied = satisfied; provider_keys = resolved.0 }, s.1))
          ])
          (elim hit [
            | true ↦ ok edges
            | false ↦ resolve_provider_key c id key.scope >>= λ found. ok (edge_to key found edges)
          ])
  unfolding resolve_provider_key_cached
  Read-dep-Read id edges s satisfied true h a =
      cached-Reading edges s satisfied s.0.provider_keys h a h.provider_keys
  Read-dep-Read id edges s satisfied false h a =
      Agree-bind (Answered (resolve_provider_key c)) Read _ (resolve_provider_key c id key.scope) _
        _
        (from_cache-IsSound (resolve_provider_key c) id key.scope s.0.provider_keys h.provider_keys)
        (λ resolved found sound.
          rw sound.1
            (link-Reading found edges _ (cached-Reading edges s satisfied resolved.0 h a sound.0)))

  read_deps-Read :
      (deps : List Dep) (edges : List Edge) (s : Graph × ℕ)
      → Reading c seen key edges s
      → Agree Read (read_deps c key deps s) (dep_edges c key deps edges)
  unfolding read_deps dep_edges read_dep value_satisfies_cached
  read_deps-Read [] edges s h = h
  read_deps-Read ((id, name) ∷ deps) edges s h =
      Agree-bind Read Read _ _ _ _
        (Agree-bind (Answered (value_satisfies c)) Read _ (value_satisfies c id key.scope) _ _
          (from_cache-IsSound (value_satisfies c) id key.scope s.0.satisfied h.satisfied)
          (λ found hit sound. rw sound.1 (Read-dep-Read id edges s found.0 hit h sound.0)))
        (λ s' edges' h'. read_deps-Read deps edges' s' h')

  abbrev Ended : Graph → List Edge → Type 0
  Ended g edges = Holds c (key ∷ seen) edges g

  set_degree-Holds :
      (edges : List Edge) (s : Graph × ℕ)
      → count seen key ≡ 0
      → Reading c seen key edges s
      → Holds c (key ∷ seen) edges (set_degree key s)
  unfolding count
  set_degree-Holds edges s new_key h = record {
    satisfied = h.satisfied;
    provider_keys = h.provider_keys;
    dependents = h.dependents;
    degrees = λ k.
        rw (get-insert s.0.indegree key k s.1)
          (ground (arith, h.degrees k, key_beq_iff key k, h.own, new_key));
    unseen = λ k e. ground (arith, h.unseen k, key_beq_iff key k);
  }

  read_provider-Ended :
      (p : DynProvider) (edges : List Edge) (g : Graph)
      → count seen key ≡ 0
      → Holds c seen edges g
      → Agree Ended (read_provider c key (some p) g) (provider_edges c key (some p) edges)
  unfolding read_provider
  read_provider-Ended p edges g new_key h =
      Agree-left Read Ended (read_deps c key (dep_types p) (g, 0))
        (dep_edges c key (dep_types p) edges) (set_degree key)
        (read_deps-Read (dep_types p) edges (g, 0)
          (record {
            satisfied = h.satisfied;
            provider_keys = h.provider_keys;
            dependents = h.dependents;
            degrees = λ k _. h.degrees k;
            unseen = λ k _. h.unseen k;
            own = sym (h.unseen key new_key);
          }))
        (λ s edges' h'. set_degree-Holds edges' s new_key h')

-- The keys of the list are seen in their order.
abbrev pub onto : List ProviderKey → List ProviderKey → List ProviderKey
onto [] seen = seen
onto (key ∷ keys) seen = onto keys (key ∷ seen)

pub count-onto :
    (keys seen : List ProviderKey) (k : ProviderKey)
    → count (onto keys seen) k ≡ count keys k + count seen k
unfolding count
count-onto [] seen k = omega arith
count-onto (key ∷ keys) seen k = ground (arith, count-onto keys (key ∷ seen) k)

abbrev pub HasProvider : Container → ProviderKey → Type 0
HasProvider c key = (p : DynProvider) × (provider_at c key ≡ some p)

module _ (c : Container) where
  pub read_providers-Holds :
      (keys seen : List ProviderKey) (edges : List Edge) (g : Graph)
      → ((k : ProviderKey) → count keys k + count seen k ≤ 1)
      → All (HasProvider c) keys
      → Holds c seen edges g
      → Agree
          (λ g' edges'. Holds c (onto keys seen) edges' g')
          (read_providers c keys g)
          (providers_edges c keys edges)
  unfolding read_providers providers_edges count
  read_providers-Holds [] seen edges g once there h = h
  read_providers-Holds (key ∷ keys) seen edges g once ((p, e), there) h =
      Agree-bind (Ended c seen key) (λ g' edges'. Holds c (onto keys (key ∷ seen)) edges' g') _ _ _
        _
        (rw e (
          read_provider-Ended c seen key p edges g (ground (arith, once key, key_beq_iff key key))
            h))
        (λ g' edges' h'.
          read_providers-Holds keys (key ∷ seen) edges' g' (λ k. ground (arith, once k)) there h')

  add_member_edges-Holds :
      (virtual_key : ProviderKey) (members seen : List ProviderKey) (edges : List Edge) (g : Graph)
      → 0 < count seen virtual_key
      → Holds c seen edges g
      → Holds c seen
          (member_edges virtual_key members edges)
          (add_member_edges virtual_key members g)
  unfolding add_member_edges member_edges
  add_member_edges-Holds virtual_key [] seen edges g there h = h
  add_member_edges-Holds virtual_key (key ∷ members) seen edges g there h =
      add_member_edges-Holds virtual_key members seen (edges ++ (key, virtual_key) ∷ []) _ there
        (record {
          satisfied = h.satisfied;
          provider_keys = h.provider_keys;
          dependents = push-HoldsEdges edges g.dependents key virtual_key h.dependents;
          degrees = λ k.
              rw
                (
                  get-insert g.indegree virtual_key k (or_zero (get g.indegree virtual_key) + 1),
                  into-append edges key virtual_key k,
                )
                (ground
                  (arith, h.degrees k, h.degrees virtual_key, key_beq_iff virtual_key k, there));
          unseen = λ k e.
              ground (
                arith,
                into-append edges key virtual_key k,
                h.unseen k e,
                key_beq_iff virtual_key k,
              );
        })

  pub add_registration_edges-Holds :
      (regs : List (TypeId × GroupRegistration)) (seen : List ProviderKey) (edges : List Edge)
      (g : Graph)
      → All (λ (reg : TypeId × GroupRegistration). 0 < count seen reg.1.virtual_key) regs
      → Holds c seen edges g
      → Holds c seen (group_edges c regs edges) (add_registration_edges c regs g)
  unfolding add_registration_edges group_edges
  add_registration_edges-Holds [] seen edges g there h = h
  add_registration_edges-Holds ((_, reg) ∷ regs) seen edges g (known, there) h =
      add_registration_edges-Holds regs seen _ _ there
        (add_member_edges-Holds reg.virtual_key (members_of c reg.element) seen edges g known h)
