-- ===== src/Cmt/Append.antt =====
-- merkle_roll.rs: `append`, which needs no proof.
pub mod Digits
use candyland.Prelude.{
  ℕ, zero, suc, ◌+◌, ◌-◌, ◌/◌, ◌%◌, ◌^◌, List, get_or, set, replicate, ltb, leb, ◌==◌,
  if◌then◌else◌, true, false, done, err, ◌>>=◌, ◌>>◌,
}
use candyland.Cmt.Node.{
  Node, empty, Result, cannot_append_empty_node, tree_full, tree_already_initialized,
}
use candyland.Cmt.Utils.{is_left, hash_to_parent, recompute, empty_node, empty_node_cached}
use candyland.Cmt.ChangeLog
use candyland.Cmt.Roll.{MerkleRoll, check_bounds}
use candyland.Cmt.Apply.{try_apply_proof, update_internal_counters}

-- The zeros below the lowest one of `x`, in a word of `w` bits.
unfoldable pub trailing_zeros : ℕ → ℕ → ℕ
trailing_zeros zero x = 0
trailing_zeros (suc w) x = if x % 2 == 0 then suc (trailing_zeros w (x / 2)) else 0

-- The variables of the loop of `append`.
pub record AppendLoop : Type 0 where
  pub node : Node
  pub intersection_node : Node
  pub proof : List Node
  pub change_list : List Node

module _ (max_depth max_buffer_size : ℕ) (hashv : Node → Node → Node) where
  -- The body of the loop at `i`, for the rightmost index `index` and its trailing zeros.
  unfoldable pub append_round : ℕ → ℕ → ℕ → AppendLoop → AppendLoop
  append_round index intersection i s =
      let sibling = empty_node_cached hashv i (replicate max_depth empty) in
      let own = get_or s.proof i empty in
      let below : AppendLoop = record {
        node = hash_to_parent hashv s.node sibling true;
        intersection_node = hash_to_parent hashv s.intersection_node own (is_left (index - 1) i);
        proof = set s.proof i sibling;
        change_list = set s.change_list i s.node;
      } in
      let meeting : AppendLoop = record {
        node = hash_to_parent hashv s.node s.intersection_node false;
        intersection_node = s.intersection_node;
        proof = set s.proof intersection s.intersection_node;
        change_list = set s.change_list i s.node;
      } in
      let above : AppendLoop = record {
        node = hash_to_parent hashv s.node own (is_left (index - 1) i);
        intersection_node = s.intersection_node;
        proof = s.proof;
        change_list = set s.change_list i s.node;
      } in
      if ltb i intersection then below else if i == intersection then meeting else above

  unfoldable pub append_rounds : ℕ → ℕ → ℕ → ℕ → AppendLoop → AppendLoop
  append_rounds index intersection i zero s = s
  append_rounds index intersection i (suc left) s =
      append_rounds index intersection (suc i) left (append_round index intersection i s)

  unfoldable pub initialize_tree_from_append :
      MerkleRoll → Node → List Node → Result (Node × MerkleRoll)
  initialize_tree_from_append self leaf proof =
      let old_root = recompute hashv empty proof 0 in
      if old_root == empty_node hashv max_depth
      then try_apply_proof max_depth max_buffer_size hashv self old_root empty leaf proof 0 false
      else err tree_already_initialized

  -- The case of `append` where the tree has leaves and room for one more.
  unfoldable pub append_leaf : MerkleRoll → Node → Node × MerkleRoll
  unfolding append_rounds
  append_leaf self leaf =
      let rightmost = self.rightmost_proof in
      let start : AppendLoop = record {
        node = leaf;
        intersection_node = rightmost.leaf;
        proof = rightmost.proof;
        change_list = replicate max_depth empty;
      } in
      let end =
        append_rounds rightmost.index (trailing_zeros 32 rightmost.index) 0 max_depth start in
      let self' = update_internal_counters max_depth max_buffer_size self in
      let log = ChangeLog.new end.node end.change_list rightmost.index in
      (
        end.node,
        record self' {
          change_logs = set self'.change_logs self'.active_index log;
          rightmost_proof = record { proof = end.proof; leaf = leaf; index = rightmost.index + 1 };
        },
      )

  unfoldable pub append : MerkleRoll → Node → Result (Node × MerkleRoll)
  append self node = do
    check_bounds max_depth max_buffer_size
    let index = self.rightmost_proof.index
    if node == empty
        then err cannot_append_empty_node
        else if leb (2 ^ max_depth) index
        then err tree_full
        else if index == 0
        then initialize_tree_from_append self node self.rightmost_proof.proof
        else done (append_leaf self node)
