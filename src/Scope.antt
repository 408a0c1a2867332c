-- ===== src/Scope.antt =====
-- The tree of module scopes (src/scope.rs). A scope is its index; the root is 0.
pub mod Chains
use modrun.Base.{
  ℕ, String, Option, none, some, List, [], ◌∷◌, ◌++◌, ltb, if◌then◌else◌, length, get_elem?,
}
use modrun.Error.{Result, ok, panicked, expect, ◌>>=◌}

abbrev pub ScopeId : Type 0
ScopeId = ℕ

abbrev pub root : ScopeId
root = 0

-- `nodes` are the scopes' names; `ancestors` are the chains from each scope up to the root.
pub record ScopeTree : Type 0 where
  pub nodes : List String
  pub ancestors : List (List ScopeId)

unfoldable pub new : ScopeTree
new = record { nodes = "<root>" ∷ []; ancestors = (root ∷ []) ∷ [] }

-- `u32::try_from`
to_u32 : ℕ → Option ℕ
to_u32 n = if ltb n 4294967296 then some n else none

-- `self.ancestors[scope]`, the chain that `ancestors_from` iterates over.
unfoldable pub ancestors_from : ScopeTree → ScopeId → Result (List ScopeId)
ancestors_from t scope = expect (get_elem? t.ancestors scope) "index out of bounds"

unfoldable pub child : ScopeTree → ScopeId → String → Result (ScopeTree × ScopeId)
unfolding to_u32 ancestors_from
child t parent name = do
  id ← expect (to_u32 (length t.nodes)) "scope id space exhausted"
  chain ← ancestors_from t parent
  ok (record { nodes = t.nodes ++ name ∷ []; ancestors = t.ancestors ++ (id ∷ chain) ∷ [] }, id)

name_or : Option String → String → String
name_or none d = d
name_or (some name) d = name

pub name_of : ScopeTree → ScopeId → String
unfolding name_or
name_of t scope = name_or (get_elem? t.nodes scope) "<unknown>"
