-- ===== src/Cmt/ChangeLog.antt =====
-- `ChangeLog` and `Path` (state.rs), less their padding.
pub mod Patch
use candyland.Prelude.{
  ℕ, ◌+◌, ◌-◌, ◌*◌, ◌%◌, ◌^◌, suc, List, [], ◌∷◌, get_elem?, get_or, set, replicate, ltb, ◌==◌,
  if◌then◌else◌, bit_xor, leading_zeros, done, panic, in_range, ◌>>=◌,
}
use candyland.Cmt.Node.{Node, empty, Result}
use candyland.Cmt.Utils.{is_left, hash_to_parent}

-- One change of the tree: its new root, and the new nodes on the path from the leaf up.
pub record ChangeLog : Type 0 where
  pub root : Node
  pub path : List Node
  pub index : ℕ

-- `Path`: the rightmost leaf and its proof; `index` is one above that leaf's.
pub record ProofPath : Type 0 where
  pub proof : List Node
  pub leaf : Node
  pub index : ℕ

unfoldable pub default : ℕ → ChangeLog
default max_depth = record { root = empty; path = replicate max_depth empty; index = 0 }

unfoldable pub new : Node → List Node → ℕ → ChangeLog
new root path index = record { root = root; path = path; index = index }

-- `self.path[0]`
unfoldable pub get_leaf : ChangeLog → Result Node
get_leaf self = in_range (get_elem? self.path 0)

module _ (hashv : Node → Node → Node) where
  -- The loop over the proof, from level `i` on: the path written so far, and the node reached.
  unfoldable pub replace_path : ℕ → ℕ → List Node → Node → List Node → List Node × Node
  replace_path i index path node [] = (path, node)
  replace_path i index path node (sibling ∷ proof) =
      replace_path (suc i) index (set path i node)
        (hash_to_parent hashv node sibling (is_left index i)) proof

  -- Returns the new log beside the new root.
  unfoldable pub replace_and_recompute_path : ChangeLog → ℕ → Node → List Node → Node × ChangeLog
  replace_and_recompute_path self index node proof =
      let (path, root) = replace_path 0 index self.path node proof in
      (root, record { root = root; path = path; index = index })

-- The new `*proof` and `*leaf`. `critbit_index` underflows, and then is out of range, where the
-- indices differ only above the tree's depth.
unfoldable pub update_proof_or_leaf :
    ℕ → ChangeLog → ℕ → List Node → Node → Result (List Node × Node)
unfolding get_leaf
update_proof_or_leaf max_depth self leaf_index proof leaf =
    let padding = 32 - max_depth in
    let common_path_len = leading_zeros 32 (bit_xor leaf_index self.index * 2 ^ padding % 2 ^ 32) in
    let critbit_index = max_depth - 1 - common_path_len in
    if leaf_index == self.index
    then get_leaf self >>= (λ own. done (proof, own))
    else if ltb (max_depth - 1) common_path_len
    then panic
    else done (set proof critbit_index (get_or self.path critbit_index empty), leaf)
