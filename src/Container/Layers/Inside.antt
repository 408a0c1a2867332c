-- ===== src/Container/Layers/Inside.antt =====
-- The edges lead from and to registered providers.
use modrun.Base.{
  ◌<◌, ◌≡◌, refl, Bool, true, false, Option, none, some, List, [], ◌∷◌, ◌++◌, nat_eq, pair_eq,
  arith, All,
}
use modrun.Base.Assoc.{get}
use modrun.Base.Counts.{count, count-All, All-count}
use modrun.Error.{Result, ok, err, panicked, ◌>>=◌}
use modrun.Error.Gives.{Gives, Gives-bind, Gives-any, Gives-ok}
use modrun.Scope.{ScopeId, ancestors_from}
use modrun.Container.Types.{
  TypeId, ProviderKey, singleton, Dep, DynProvider, dep_types, GroupRegistration,
}
use modrun.Container.Keys.{type_eq, key_eq}
use modrun.Container.State.{Container, provider_at}
use modrun.Container.Resolve.{
  resolve_in, resolve_provider, keyed, keyed_by, value_satisfies, group_virtual_key,
}
use modrun.Container.Register.{members_of}
use modrun.Container.Inv.Ordered.{Ordered}
use modrun.Container.Layers.{resolve_provider_key, key_of}
use modrun.Container.Layers.Edges.{
  Edge, edge_to, dep_edges, provider_edges, providers_edges, member_edges, group_edges,
  dependency_edges,
}

module _ (c : Container) (h : Ordered c) where
  abbrev pub Known : ProviderKey → Type 0
  Known k = 0 < count c.provider_order k

  pub keyed_by-Known :
      (o : Option ProviderKey) (k : ProviderKey) → key_of (keyed_by c o) ≡ some k → Known k
  unfolding keyed_by keyed
  keyed_by-Known none k e = absurd (cc)
  keyed_by-Known (some key) k e = ground (arith, h.counted key, e)

  resolve_in-Known :
      (id : TypeId) (chain : List ScopeId) (k : ProviderKey)
      → key_of (resolve_in c id chain) ≡ some k
      → Known k
  unfolding resolve_in
  resolve_in-Known id [] k e = ground (
    arith,
    e,
    keyed_by-Known (group_virtual_key c id) k,
    keyed_by-Known (get c.public_index id) k,
  )
  resolve_in-Known id (scope ∷ chain) k e = ground (
    arith,
    e,
    resolve_in-Known id chain k,
    h.counted (singleton id scope true),
    keyed_by-Known (get c.private_alias (id, scope)) k,
  )

  abbrev pub Found : Option ProviderKey → Type 0
  Found found = (k : ProviderKey) → found ≡ some k → Known k

  pub resolve_provider_key-Found :
      (id : TypeId) (from : ScopeId) → Gives Found (resolve_provider_key c id from)
  unfolding resolve_provider_key resolve_provider
  resolve_provider_key-Found id from = answered (ancestors_from c.scopes from)
    where
      answered :
          (r : Result (List ScopeId))
          → Gives Found (r >>= (λ chain. ok (resolve_in c id chain)) >>= λ found. ok (key_of found))
      answered (ok chain) = λ k e. resolve_in-Known id chain k e
      answered (err x) = tt
      answered (panicked m) = tt

  abbrev Inside : List Edge → Type 0
  Inside edges = All (λ (e : Edge). Known e.0 × Known e.1) edges

  append-Inside :
      (edges : List Edge) (j k : ProviderKey)
      → Inside edges
      → Known j
      → Known k
      → Inside (edges ++ (j, k) ∷ [])
  append-Inside [] j k _ a b = ((a, b), tt)
  append-Inside (e ∷ edges) j k (i, is) a b = (i, append-Inside edges j k is a b)

  edge_to-Inside :
      (key : ProviderKey) (found : Option ProviderKey) (edges : List Edge)
      → Known key
      → Found found
      → Inside edges
      → Inside (edge_to key found edges)
  edge_to-Inside key none edges a f i = i
  edge_to-Inside key (some dep_key) edges a f i =
      append-Inside edges dep_key key i (f dep_key refl) a

  satisfied-Inside :
      (key : ProviderKey) (id : TypeId) (edges : List Edge) (hit : Bool)
      → Known key
      → Inside edges
      → Gives Inside (elim hit [
        | true ↦ ok edges
        | false ↦ resolve_provider_key c id key.scope >>= λ found. ok (edge_to key found edges)
      ])
  satisfied-Inside key id edges true a i = i
  satisfied-Inside key id edges false a i =
      Gives-bind Found Inside (resolve_provider_key c id key.scope) _
        (resolve_provider_key-Found id key.scope) (λ found f. edge_to-Inside key found edges a f i)

  dep_edges-Inside :
      (key : ProviderKey) (deps : List Dep) (edges : List Edge)
      → Known key
      → Inside edges
      → Gives Inside (dep_edges c key deps edges)
  unfolding dep_edges
  dep_edges-Inside key [] edges a i = i
  dep_edges-Inside key ((id, name) ∷ deps) edges a i =
      Gives-bind Inside Inside _ _
        (Gives-bind (λ _. Unit {0}) Inside (value_satisfies c id key.scope) _ (Gives-any _)
          (λ hit _. satisfied-Inside key id edges hit a i))
        (λ edges' i'. dep_edges-Inside key deps edges' a i')

  provider_edges-Inside :
      (key : ProviderKey) (o : Option DynProvider) (edges : List Edge)
      → Known key
      → Inside edges
      → Gives Inside (provider_edges c key o edges)
  provider_edges-Inside key none edges a i = i
  provider_edges-Inside key (some p) edges a i = dep_edges-Inside key (dep_types p) edges a i

  providers_edges-Inside :
      (keys : List ProviderKey) (edges : List Edge)
      → All Known keys
      → Inside edges
      → Gives Inside (providers_edges c keys edges)
  unfolding providers_edges
  providers_edges-Inside [] edges a i = i
  providers_edges-Inside (key ∷ keys) edges (a, more) i =
      Gives-bind Inside Inside _ _ (provider_edges-Inside key (provider_at c key) edges a i)
        (λ edges' i'. providers_edges-Inside keys edges' more i')

  member_edges-Inside :
      (virtual_key : ProviderKey) (members : List ProviderKey) (edges : List Edge)
      → Known virtual_key
      → All Known members
      → Inside edges
      → Inside (member_edges virtual_key members edges)
  unfolding member_edges
  member_edges-Inside virtual_key [] edges a ms i = i
  member_edges-Inside virtual_key (key ∷ members) edges a (m, ms) i =
      member_edges-Inside virtual_key members _ a ms (append-Inside edges key virtual_key i m a)

  group_edges-Inside :
      (regs : List (TypeId × GroupRegistration)) (edges : List Edge)
      → All (λ (reg : TypeId × GroupRegistration). Known reg.1.virtual_key) regs
      → Inside edges
      → Inside (group_edges c regs edges)
  unfolding group_edges
  group_edges-Inside [] edges a i = i
  group_edges-Inside ((_, reg) ∷ regs) edges (a, more) i = group_edges-Inside regs _ more (
      member_edges-Inside reg.virtual_key (members_of c reg.element) edges a (h.members reg.element)
        i)

  pub dependency_edges-Known :
      (edges : List Edge) (j k : ProviderKey)
      → dependency_edges c ≡ ok edges
      → 0 < count edges (j, k)
      → (0 < count c.provider_order j) × (0 < count c.provider_order k)
  unfolding dependency_edges
  dependency_edges-Known edges j k e there =
      All-count (λ (e : Edge). Known e.0 × Known e.1) edges (j, k)
        (Gives-ok Inside (dependency_edges c) edges
          (Gives-bind Inside Inside _ _
            (providers_edges-Inside c.provider_order []
              (count-All Known c.provider_order (λ k known. known)) tt)
            (λ read i. group_edges-Inside c.groups.registrations read h.virtual_keys i))
          e)
        there
