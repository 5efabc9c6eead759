-- ===== src/Tree.antt =====
-- The tree that a roll stands for, as the function from a leaf's index to the leaf: what its nodes,
-- root, proofs and paths are. This is the specification of Cmt.
pub mod Digits
pub mod Change
use candyland.Prelude.{
  ℕ, zero, suc, ◌+◌, ◌-◌, ◌*◌, ◌%◌, List, shr, tabulate, put_at, ◌==◌, if◌then◌else◌,
}
use candyland.Cmt.Node.{Node, empty}

abbrev pub Leaves : Type 0
Leaves = ℕ → Node

-- The leaves with `v` at `j`.
abbrev pub replace : ℕ → Node → Leaves → Leaves
replace j v f = put_at j v f

abbrev pub no_leaves : Leaves
no_leaves _ = empty

-- The other child of the node's parent.
abbrev pub sibling : ℕ → ℕ
sibling q = if q % 2 == 0 then q + 1 else q - 1

module _ (hashv : Node → Node → Node) where
  -- The node at a level, the leaves' being 0, and at a place in that level.
  unfoldable pub node_at : Leaves → ℕ → ℕ → Node
  node_at f zero q = f q
  node_at f (suc level) q = hashv (node_at f level (q * 2)) (node_at f level (q * 2 + 1))

  abbrev pub root_of : ℕ → Leaves → Node
  root_of depth f = node_at f depth 0

  -- The nodes beside the path of leaf `i`, and those on it.
  abbrev pub proof_of : ℕ → Leaves → ℕ → List Node
  proof_of depth f i = tabulate depth (λ level. node_at f level (sibling (shr i level)))

  abbrev pub path_of : ℕ → Leaves → ℕ → List Node
  path_of depth f i = tabulate depth (λ level. node_at f level (shr i level))
