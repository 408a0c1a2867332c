-- ===== src/Container/Layers.antt =====
-- The order of construction: `freeze_layers` with its caches, and `cycle_error`
-- (src/container/graph.rs). An edge leads from a provider to one that depends on it.
pub mod Edges
pub mod Held
pub mod Missing
pub mod Waves
pub mod Inside
pub mod Ends
pub mod Frozen
use modrun.Base.{
  ℕ, zero, suc, ◌+◌, String, Bool, true, false, Option, none, some, List, [], ◌∷◌, ◌++◌, map,
  if◌then◌else◌, ltb, ◌==◌, nat_eq, pair_eq, length, drop,
}
use modrun.Base.Assoc.{Map, get, insert}
use modrun.Base.Counts.{sort_by_key}
use modrun.Base.Text.{join}
use modrun.Error.{Error, Result, ok, err, panicked, cycle, expect, ◌>>=◌}
use modrun.Scope.{ScopeId}
use modrun.Container.Types.{TypeId, ProviderKey, Dep, DynProvider, dep_types, GroupRegistration}
use modrun.Container.Keys.{type_eq, key_eq}
use modrun.Container.State.{Container, provider_at, order_index, key_name}
use modrun.Container.Resolve.{resolve_provider, value_satisfies}
use modrun.Container.Register.{members_of}

-- What a type means in a scope.
abbrev pub Answers : Type 0 → Type 0
Answers V = Map (TypeId × ScopeId) V

abbrev pub from_cache :
    {V : Type 0} → TypeId × ScopeId → Result V → Answers V → Option V → Result (Answers V × V)
from_cache at fresh cache (some hit) = ok (cache, hit)
from_cache at fresh cache none = fresh >>= λ hit. ok (insert cache at hit, hit)

pub value_satisfies_cached :
    Container → TypeId → ScopeId → Answers Bool → Result (Answers Bool × Bool)
unfolding get
value_satisfies_cached c id from cache =
    from_cache (id, from) (value_satisfies c id from) cache (get cache (id, from))

abbrev key_of : Option (ProviderKey × DynProvider) → Option ProviderKey
key_of none = none
key_of (some (key, _)) = some key

unfoldable pub resolve_provider_key : Container → TypeId → ScopeId → Result (Option ProviderKey)
unfolding resolve_provider
resolve_provider_key c id from = resolve_provider c id from >>= λ found. ok (key_of found)

pub resolve_provider_key_cached :
    Container
    → TypeId
    → ScopeId
    → Answers (Option ProviderKey)
    → Result (Answers (Option ProviderKey) × Option ProviderKey)
unfolding get
resolve_provider_key_cached c id from cache =
    from_cache (id, from) (resolve_provider_key c id from) cache (get cache (id, from))

abbrev pub Degrees : Type 0
Degrees = Map ProviderKey ℕ

abbrev pub Dependents : Type 0
Dependents = Map ProviderKey (List ProviderKey)

-- The local variables of `freeze_layers` while the edges are read.
pub record Graph : Type 0 where
  pub satisfied : Answers Bool
  pub provider_keys : Answers (Option ProviderKey)
  pub indegree : Degrees
  pub dependents : Dependents

abbrev pub no_edges : Graph
no_edges = record { satisfied = []; provider_keys = []; indegree = []; dependents = [] }

abbrev pub or_default : Option (List ProviderKey) → List ProviderKey
or_default none = []
or_default (some keys) = keys

abbrev pub or_zero : Option ℕ → ℕ
or_zero none = 0
or_zero (some n) = n

-- `dependents.get(key).into_iter().flatten()`
pub dependents_of : Dependents → ProviderKey → List ProviderKey
unfolding get
dependents_of m key = or_default (get m key)

-- `dependents.entry(dep_key).or_default().push(key)`
pub push_dependent : Dependents → ProviderKey → ProviderKey → Dependents
unfolding insert get
push_dependent m dep_key key = insert m dep_key (or_default (get m dep_key) ++ key ∷ [])

-- The provider of a dependency, if it has one. The number is `degree`.
pub link : ProviderKey → Option ProviderKey → Graph × ℕ → Graph × ℕ
unfolding push_dependent
link key none s = s
link key (some dep_key) (g, degree) =
    (record g { dependents = push_dependent g.dependents dep_key key }, degree + 1)

pub read_dep : Container → ProviderKey → TypeId → Graph × ℕ → Result (Graph × ℕ)
unfolding link value_satisfies_cached resolve_provider_key_cached
read_dep c key id (g, degree) = value_satisfies_cached c id key.scope g.satisfied >>= λ found.
    elim found.1 [
      | true ↦ ok (record g { satisfied = found.0 }, degree)
      | false ↦ resolve_provider_key_cached c id key.scope g.provider_keys >>= λ resolved. ok (
          link key resolved.1
            (record g { satisfied = found.0; provider_keys = resolved.0 }, degree))
    ]

pub read_deps : Container → ProviderKey → List Dep → Graph × ℕ → Result (Graph × ℕ)
unfolding read_dep
read_deps c key [] s = ok s
read_deps c key ((id, _) ∷ deps) s = read_dep c key id s >>= λ s'. read_deps c key deps s'

abbrev pub set_degree : ProviderKey → Graph × ℕ → Graph
set_degree key (g, degree) = record g { indegree = insert g.indegree key degree }

pub read_provider : Container → ProviderKey → Option DynProvider → Graph → Result Graph
unfolding read_deps insert
read_provider c key none g = ok g
read_provider c key (some p) g = read_deps c key (dep_types p) (g, 0) >>= λ s. ok (set_degree key s)

pub read_providers : Container → List ProviderKey → Graph → Result Graph
unfolding read_provider
read_providers c [] g = ok g
read_providers c (key ∷ keys) g =
    read_provider c key (provider_at c key) g >>= λ g'. read_providers c keys g'

-- The inner loop of `add_group_virtual_edges`.
pub add_member_edges : ProviderKey → List ProviderKey → Graph → Graph
unfolding push_dependent insert get
add_member_edges virtual_key [] g = g
add_member_edges virtual_key (member_key ∷ members) g =
    add_member_edges virtual_key members (record g {
      indegree = insert g.indegree virtual_key (or_zero (get g.indegree virtual_key) + 1);
      dependents = push_dependent g.dependents member_key virtual_key;
    })

pub add_registration_edges : Container → List (TypeId × GroupRegistration) → Graph → Graph
unfolding add_member_edges
add_registration_edges c [] g = g
add_registration_edges c ((_, reg) ∷ regs) g =
    add_registration_edges c regs (add_member_edges reg.virtual_key (members_of c reg.element) g)

pub add_group_virtual_edges : Container → Graph → Graph
unfolding add_registration_edges
add_group_virtual_edges c g = add_registration_edges c c.groups.registrations g

-- One dependent of a provider that is built; a degree of 0 would be lowered below 0.
pub lower :
    ProviderKey → Option ℕ → Degrees × List ProviderKey → Result (Degrees × List ProviderKey)
unfolding insert
lower key none s = panicked "dependent missing indegree"
lower key (some zero) s = panicked "attempt to subtract with overflow"
lower key (some (suc degree)) (degrees, next) =
    ok (insert degrees key degree, if degree == 0 then next ++ key ∷ [] else next)

pub lower_all : List ProviderKey → Degrees × List ProviderKey → Result (Degrees × List ProviderKey)
unfolding lower get
lower_all [] s = ok s
lower_all (key ∷ keys) s = lower key (get s.0 key) s >>= λ s'. lower_all keys s'

-- The dependents of the providers of one layer.
pub release :
    Dependents → List ProviderKey → Degrees × List ProviderKey → Result (Degrees × List ProviderKey)
unfolding lower_all dependents_of
release m [] s = ok s
release m (key ∷ keys) s = lower_all (dependents_of m key) s >>= λ s'. release m keys s'

-- The local variables of the loop over the layers.
pub record Wave : Type 0 where
  pub indegree : Degrees
  pub ready : List ProviderKey
  pub layers : List (List ProviderKey)
  pub built : ℕ

pub next_wave : Container → Dependents → Wave → Result Wave
unfolding release sort_by_key
next_wave c m w = release m w.ready (w.indegree, []) >>= λ s. ok (record {
  indegree = s.0;
  ready = sort_by_key (order_index c) s.1;
  layers = w.layers ++ w.ready ∷ [];
  built = w.built + length w.ready;
})

-- The loop over the layers, for at most as many rounds as the fuel.
pub waves : ℕ → Container → Dependents → Wave → Result Wave
unfolding next_wave
waves zero c m w = ok w
waves (suc n) c m w = elim w.ready [ [] ↦ ok w | _ ∷ _ ↦ next_wave c m w >>= λ w'. waves n c m w' ]

abbrev pub is_free : Option ℕ → Bool
is_free none = false
is_free (some n) = n == 0

abbrev pub is_blocked : Option ℕ → Bool
is_blocked none = false
is_blocked (some n) = ltb 0 n

-- The keys without a dependency that is to be built.
pub free_keys : Degrees → List ProviderKey → List ProviderKey
unfolding get
free_keys degrees [] = []
free_keys degrees (key ∷ keys) =
    let rest = free_keys degrees keys in if is_free (get degrees key) then key ∷ rest else rest

-- The first key of which a dependency is not built.
pub find_blocked : Degrees → List ProviderKey → Option ProviderKey
unfolding get
find_blocked degrees [] = none
find_blocked degrees (key ∷ keys) =
    let rest = find_blocked degrees keys in if is_blocked (get degrees key) then some key else rest

-- `path.iter().position(|k| *k == key).unwrap_or(0)`, from an index on.
abbrev position_from : ℕ → List ProviderKey → ProviderKey → ℕ
position_from i [] key = 0
position_from i (k ∷ path) key =
    let rest = position_from (suc i) path key in if k == key then i else rest

unfoldable pub cycle_error : Container → ProviderKey → List ProviderKey → Error
unfolding join
cycle_error c key path =
    cycle
      (join " -> " (map (key_name c) (drop (position_from 0 path key) path) ++ key_name c key ∷ []))

abbrev pub first_wave : Container → Graph → Wave
first_wave c g = record {
  indegree = g.indegree;
  ready = free_keys g.indegree c.provider_order;
  layers = [];
  built = 0;
}

pub finish_layers : Container → Wave → Result Container
unfolding find_blocked cycle_error
finish_layers c w =
    if w.built == length c.provider_order
    then ok (record c { layers = w.layers })
    else expect (find_blocked w.indegree c.provider_order)
        "unbuilt provider missing positive indegree"
      >>= λ key. err (cycle_error c key [])

-- Each round builds a provider that was not built, so one round more than there are is enough.
unfoldable pub freeze_layers : Container → Result Container
unfolding read_providers add_group_virtual_edges waves free_keys finish_layers
freeze_layers c = read_providers c c.provider_order no_edges >>= λ read.
    let g = add_group_virtual_edges c read in
    waves (suc (length c.provider_order)) c g.dependents (first_wave c g) >>= λ w. finish_layers c w
