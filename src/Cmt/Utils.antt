-- ===== src/Cmt/Utils.antt =====
-- utils.rs. `hashv` is keccak over two nodes, of the crate solana_program: a parameter.
pub mod Recompute
pub mod Sound
use candyland.Prelude.{
  ℕ, zero, suc, ◌+◌, ◌-◌, Bool, not, ◌&&◌, List, [], ◌∷◌, ◌++◌, length, get_or, ltb, ◌==◌,
  if◌then◌else◌, bit_and, shr, done, panic,
}
use candyland.Cmt.Node.{Node, empty, Result}

-- `index >> depth & 1 == 0`: the node at this depth of the path is a left child.
abbrev pub is_left : ℕ → ℕ → Bool
is_left index depth = bit_and (shr index depth) 1 == 0

module _ (hashv : Node → Node → Node) where
  -- The new value of `*node`.
  unfoldable pub hash_to_parent : Node → Node → Bool → Node
  hash_to_parent node sibling left = if left then hashv node sibling else hashv sibling node

  -- `recompute` at a depth, with the siblings above it.
  unfoldable pub recompute_from : ℕ → Node → List Node → ℕ → Node
  recompute_from depth current_node [] index = current_node
  recompute_from depth current_node (sibling ∷ proof) index =
      recompute_from (suc depth) (hash_to_parent current_node sibling (is_left index depth)) proof
        index

  unfoldable pub recompute : Node → List Node → ℕ → Node
  recompute leaf proof index = recompute_from 0 leaf proof index

  -- The cache is read and never written.
  unfoldable pub empty_node_cached : ℕ → List Node → Node
  empty_node_cached zero cache = empty
  empty_node_cached (suc target) cache =
      let deeper = empty_node_cached target [] in
      let cached = ltb target (length cache) && not (get_or cache target empty == empty) in
      let lower_empty = if cached then get_or cache target empty else deeper in
      hashv lower_empty lower_empty

  unfoldable pub empty_node : ℕ → Node
  unfolding empty_node_cached
  empty_node level = empty_node_cached level []

  -- The empty nodes of `n` levels from `level` up.
  unfoldable pub empty_nodes : ℕ → ℕ → List Node
  empty_nodes level zero = []
  empty_nodes level (suc n) = empty_node level ∷ empty_nodes (suc level) n

  -- A proof longer than the tree is deep does not fit the slice.
  unfoldable pub fill_in_proof : ℕ → List Node → Result (List Node)
  fill_in_proof max_depth proof_vec =
      if ltb max_depth (length proof_vec)
      then panic
      else done (proof_vec ++ empty_nodes (length proof_vec) (max_depth - length proof_vec))
