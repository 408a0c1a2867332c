-- ===== src/Container/Cycles.antt =====
-- The search for a cycle, and the whole of `validate` (`detect_cycles`, `visit` and `validate` in
-- src/container/graph.rs).
pub mod Accepted
use modrun.Base.{
  ℕ, zero, suc, String, Bool, true, false, Option, none, some, List, [], ◌∷◌, ◌++◌, length,
}
use modrun.Base.Assoc.{get, contains, add, discard}
use modrun.Error.{Error, Result, ok, err, panicked, cycle, ◌>>=◌, ◌>>◌}
use modrun.Scope.{ScopeId}
use modrun.Container.Types.{TypeId, ProviderKey, is_group_member, Dep, DynProvider, dep_types}
use modrun.Container.Keys.{key_eq}
use modrun.Container.State.{Container, provider_at}
use modrun.Container.Resolve.{value_satisfies}
use modrun.Container.Register.{members_of}
use modrun.Container.Validate.{check_all}
use modrun.Container.Layers.{resolve_provider_key, cycle_error, freeze_layers}

-- The arguments of `visit` that it changes.
pub record Visit : Type 0 where
  pub done : List ProviderKey
  pub on_path : List ProviderKey
  pub path : List ProviderKey

abbrev pub Visitor : Type 0
Visitor = ProviderKey → Visit → Result Visit

abbrev visit_found : Visitor → Option ProviderKey → Visit → Result Visit
visit_found more none s = ok s
visit_found more (some key) s = more key s

-- The loop over the dependencies; `more` is the recursive call.
pub visit_deps : Container → Visitor → ScopeId → List Dep → Visit → Result Visit
visit_deps c more scope [] s = ok s
visit_deps c more scope ((id, _) ∷ deps) s =
    (value_satisfies c id scope >>= λ hit. elim hit [
      | true ↦ ok s
      | false ↦ resolve_provider_key c id scope >>= λ found. visit_found more found s
    ])
    >>= λ s'. visit_deps c more scope deps s'

pub visit_members : Visitor → List ProviderKey → Visit → Result Visit
visit_members more [] s = ok s
visit_members more (key ∷ keys) s = more key s >>= λ s'. visit_members more keys s'

abbrev members_behind : Container → Option TypeId → List ProviderKey
members_behind c none = []
members_behind c (some element) = members_of c element

abbrev drop_last : List ProviderKey → List ProviderKey
drop_last [] = []
drop_last (key ∷ []) = []
drop_last (key ∷ k ∷ keys) = key ∷ drop_last (k ∷ keys)

abbrev enter_key : ProviderKey → Visit → Visit
enter_key key s = record s { on_path = add s.on_path key; path = s.path ++ key ∷ [] }

abbrev leave_key : ProviderKey → Visit → Visit
leave_key key s = record {
  done = add s.done key;
  on_path = discard s.on_path key;
  path = drop_last s.path;
}

abbrev visit_provider :
    Container → Visitor → ProviderKey → Option DynProvider → Visit → Result Visit
visit_provider c more key none s = ok (record s { on_path = discard (add s.on_path key) key })
visit_provider c more key (some p) s =
    visit_deps c more key.scope (dep_types p) (enter_key key s) >>= λ s'.
    visit_members more (members_behind c (get c.groups.virtual_to_element key)) s' >>= λ s''.
    ok (leave_key key s'')

-- The depth of the recursion is at most the fuel; each level has a further key on the path.
pub visit : ℕ → Container → Visitor
unfolding visit_deps visit_members contains add discard get provider_at cycle_error
visit zero c key s = panicked "stack overflow"
visit (suc n) c key s = elim (contains s.done key) [
  | true ↦ ok s
  | false ↦ elim (contains s.on_path key) [
    | true ↦ err (cycle_error c key s.path)
    | false ↦ visit_provider c (visit n c) key (provider_at c key) s
  ]
]

-- The loop of `detect_cycles`; group members are visited through their groups.
pub visit_all : Visitor → List ProviderKey → Visit → Result Visit
visit_all more [] s = ok s
visit_all more (key ∷ keys) s =
    (elim (is_group_member key) [ true ↦ ok s | false ↦ more key s ]) >>= λ s'.
    visit_all more keys s'

abbrev pub unvisited : Visit
unvisited = record { done = []; on_path = []; path = [] }

pub detect_cycles : Container → Result (Unit {0})
unfolding visit_all visit
detect_cycles c =
    visit_all (visit (suc (length c.provider_order)) c) c.provider_order unvisited >>= λ _. ok tt

-- The end of `validate`; the search names the cycle that `freeze_layers` met.
abbrev name_cycle : Container → Result Container → Result Container
name_cycle c (ok d) = ok d
name_cycle c (err (cycle _)) = detect_cycles c >> ok c
name_cycle c (err e) = err e
name_cycle c (panicked m) = panicked m

unfoldable pub validate : Container → List (ScopeId × List Dep) → Result Container
unfolding check_all freeze_layers detect_cycles
validate c invokers = check_all c invokers >> name_cycle c (freeze_layers c)
