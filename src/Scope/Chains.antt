-- ===== src/Scope/Chains.antt =====
-- The ancestor chains: from a scope through its parents to the root.
use modrun.Base.{
  zero, suc, ◌<◌, String, ◌≡◌, refl, sym, ◌∙◌, inl, inr, Option, none, some, List, [], ◌∷◌, ◌++◌,
  length, get_elem?, arith, length-append, subst, lt→ltb, get_elem?-append, get_elem?-append_left,
  get_elem?-append_end, get_elem?-lt, get_elem?-bound,
}
use mathlib.Core.Path.{subst₂}
use modrun.Error.{ok, expect}
use modrun.Scope.{ScopeTree, ScopeId, root, new, child, ancestors_from, name_of}

-- A chain that begins at a scope, in which each scope is younger than its parent, up to the root.
pub data Chain : ScopeId → List ScopeId → Type 0 where
  at_root : (s : ScopeId) → s ≡ root → Chain s (s ∷ [])
  under : (s p : ScopeId) (rest : List ScopeId) → p < s → Chain p rest → Chain s (s ∷ rest)

pub record IsTree (t : ScopeTree) : Type 0 where
  pub same_size : length t.ancestors ≡ length t.nodes
  pub inhabited : 0 < length t.nodes
  pub chains : (s : ScopeId) (c : List ScopeId) → get_elem? t.ancestors s ≡ some c → Chain s c

pub new-IsTree : IsTree new
unfolding new
new-IsTree = record { same_size = refl; inhabited = omega arith; chains = root_chain }
  where
    root_chain :
        (s : ScopeId) (c : List ScopeId) → get_elem? ((root ∷ []) ∷ []) s ≡ some c → Chain s c
    root_chain zero c e =
        let same : root ∷ [] ≡ c = cc in subst (Chain root) same (at_root root refl)
    root_chain (suc s) c e = absurd (cc)

-- The tree once the scope is added under the chain of its parent.
abbrev grown : ScopeTree → String → List ScopeId → ScopeTree
grown t name chain = record {
  nodes = t.nodes ++ name ∷ [];
  ancestors = t.ancestors ++ (length t.nodes ∷ chain) ∷ [];
}

grown-IsTree :
    (t : ScopeTree) (name : String) (parent : ScopeId) (chain : List ScopeId)
    → IsTree t
    → get_elem? t.ancestors parent ≡ some chain
    → IsTree (grown t name chain)
grown-IsTree t name parent chain v e = record {
  same_size = omega (
    arith,
    v.same_size,
    length-append t.nodes (name ∷ []),
    length-append t.ancestors ((length t.nodes ∷ chain) ∷ []),
  );
  inhabited = omega (arith, v.inhabited, length-append t.nodes (name ∷ []));
  chains = λ s c found. elim (get_elem?-append t.ancestors (length t.nodes ∷ chain) s c found) [
    | inl old ↦ v.chains s c old
    | inr (at, same) ↦ subst₂ Chain (sym (at ∙ v.same_size)) (sym same) (
        under (length t.nodes) parent chain
          (omega (arith, v.same_size, get_elem?-bound t.ancestors parent chain e))
          (v.chains parent chain e))
  ];
}

-- What a new scope brings: it is the next index, its chain is its parent's behind itself, its name
-- is the given one, and the chains of the other scopes stay.
pub record Grown (t : ScopeTree) (parent : ScopeId) (name : String) (t' : ScopeTree) : Type 0 where
  pub chain : List ScopeId
  pub of_parent : ancestors_from t parent ≡ ok chain
  pub of_child : ancestors_from t' (length t.nodes) ≡ ok (length t.nodes ∷ chain)
  pub named : name_of t' (length t.nodes) ≡ name
  pub kept :
      (s : ScopeId) (c : List ScopeId) → ancestors_from t s ≡ ok c → ancestors_from t' s ≡ ok c
  pub tree : IsTree t'

expect-ok :
    (o : Option (List ScopeId)) (m : String) (c : List ScopeId) → expect o m ≡ ok c → o ≡ some c
expect-ok none m c e = absurd (cc)
expect-ok (some x) m c e = cc

-- Below the limit of 2^32 scopes, a child of any scope of the tree can be added; no step panics.
pub child-Grown :
    (t : ScopeTree) (parent : ScopeId) (name : String)
    → IsTree t
    → parent < length t.nodes
    → length t.nodes < 4294967296
    → (t' : ScopeTree) × (child t parent name ≡ ok (t', length t.nodes)) × Grown t parent name t'
unfolding child name_of
child-Grown t parent name v below room =
    let (chain, e) = get_elem?-lt t.ancestors parent (omega (arith, v.same_size)) in
    (
      grown t name chain,
      rw (lt→ltb (length t.nodes) 4294967296 room) (rw e refl),
      record {
        chain = chain;
        of_parent = rw e refl;
        of_child =
            rw (sym v.same_size)
              (rw (get_elem?-append_end t.ancestors (length t.ancestors ∷ chain)) refl);
        named = rw (get_elem?-append_end t.nodes name) refl;
        kept = λ s c p. rw (get_elem?-append_left t.ancestors _ s c (expect-ok _ _ c p)) refl;
        tree = grown-IsTree t name parent chain v e;
      },
    )
