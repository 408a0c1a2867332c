-- ===== src/Container/Collect.antt =====
-- The keys that are to be built for some types (`collect_pending` in src/container/graph.rs, and
-- `ensure_built` in src/container/build.rs).
pub mod Closed
pub mod Same
pub mod Found
pub mod Enough
pub mod Needed
use modrun.Base.{ℕ, zero, suc, String, Bool, true, false, Option, none, some, List, [], ◌∷◌, length}
use modrun.Base.Assoc.{contains, add}
use modrun.Error.{Result, ok, err, panicked, cycle, expect, ok_or, ◌>>=◌}
use modrun.Scope.{ScopeId, root}
use modrun.Container.Types.{TypeId, StoredValue, ProviderKey, Dep, DynProvider, dep_types}
use modrun.Container.Keys.{key_eq, key_beq}
use modrun.Container.State.{Container, provider_at, key_name}
use modrun.Container.Resolve.{
  lookup_value_ref_from, resolve_provider, missing_provider_error, group_virtual_key,
  group_element_type,
}
use modrun.Container.Register.{members_of}
use modrun.Container.Build.{Keys, Progress, build_pending}

-- The recursive call: a type, its name, the scope that it is needed in, and what is pending.
abbrev pub Collect : Type 0
Collect = TypeId → String → ScopeId → Keys → Result Keys

pub collect_deps : Collect → ScopeId → List Dep → Keys → Result Keys
collect_deps more scope [] pending = ok pending
collect_deps more scope ((id, name) ∷ deps) pending =
    more id name scope pending >>= λ pending'. collect_deps more scope deps pending'

pub collect_provider_pending : Container → Collect → ProviderKey → DynProvider → Keys → Result Keys
unfolding collect_deps contains add
collect_provider_pending c more key p pending = elim (contains c.constructing key) [
  | true ↦ err (cycle (key_name c key))
  | false ↦ elim (contains pending key) [
    | true ↦ ok pending
    | false ↦ collect_deps more key.scope (dep_types p) (add pending key)
  ]
]

pub collect_members_pending : Container → Collect → Keys → Keys → Result Keys
unfolding collect_provider_pending provider_at
collect_members_pending c more [] pending = ok pending
collect_members_pending c more (key ∷ keys) pending =
    expect (provider_at c key) "group member missing provider" >>= λ p.
    collect_provider_pending c more key p pending >>= λ pending'.
    collect_members_pending c more keys pending'

pub collect_group_pending : Container → Collect → TypeId → String → Keys → Result Keys
unfolding collect_members_pending contains add
collect_group_pending c more t name pending =
    ok_or (group_virtual_key c t) (missing_provider_error c name root) >>= λ virtual_key.
    elim (contains pending virtual_key) [
      | true ↦ ok pending
      | false ↦ expect (group_element_type c t) "group type missing element mapping" >>= λ element.
          collect_members_pending c more (members_of c element) (add pending virtual_key)
    ]

abbrev is_key : Option ProviderKey → ProviderKey → Bool
is_key none key = false
is_key (some k) key = key_beq k key

abbrev pub collect_resolved :
    Container → Collect → TypeId → String → ProviderKey × DynProvider → Keys → Result Keys
collect_resolved c more id name (key, p) pending = elim (is_key (group_virtual_key c id) key) [
  | true ↦ collect_group_pending c more id name pending
  | false ↦ collect_provider_pending c more key p pending
]

abbrev pub collect_unless :
    Container → Collect → TypeId → String → ScopeId → Keys → Option StoredValue → Result Keys
collect_unless c more id name from pending (some _) = ok pending
collect_unless c more id name from pending none = resolve_provider c id from >>= λ found.
    ok_or found (missing_provider_error c name from) >>= λ resolved.
    collect_resolved c more id name resolved pending

-- The depth of the recursion is at most the fuel; each level has a further key pending.
pub collect_pending : ℕ → Container → Collect
unfolding collect_group_pending collect_provider_pending
collect_pending zero c id name from pending = panicked "stack overflow"
collect_pending (suc n) c id name from pending = lookup_value_ref_from c id from >>= λ found.
    collect_unless c (collect_pending n c) id name from pending found

pub collect_all : Container → List Dep → Result Keys
unfolding collect_deps collect_pending
collect_all c roots =
    collect_deps (collect_pending (suc (length c.provider_order)) c) c.active_scope roots []

abbrev build_collected : Container → Result Keys → Progress
build_collected c (ok pending) = build_pending c pending
build_collected c (err e) = (c, [], err e)
build_collected c (panicked m) = (c, [], panicked m)

unfoldable pub ensure_built : Container → List Dep → Progress
unfolding collect_all build_pending
ensure_built c roots = build_collected c (collect_all c roots)
