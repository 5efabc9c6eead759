-- ===== src/Cmt/Api.antt =====
-- merkle_roll.rs: the public methods besides `append`.
use candyland.Prelude.{
  ℕ, ◌+◌, ◌-◌, ◌^◌, true, false, List, length, set, replicate, ltb, ◌==◌, if◌then◌else◌, done, err,
  assert, ◌>>=◌, ◌>>◌, tabulate,
}
use candyland.Cmt.Node.{
  Node, empty, Result, leaf_index_out_of_bounds, invalid_proof, leaf_contents_modified,
}
use candyland.Cmt.Utils.{recompute, empty_node, empty_node_cached, fill_in_proof}
use candyland.Cmt.Roll.{MerkleRoll, check_bounds, log_at}
use candyland.Cmt.Apply.{check_valid_leaf, try_apply_proof}
use candyland.Cmt.Append.{append}

module _ (max_depth max_buffer_size : ℕ) (hashv : Node → Node → Node) where
  -- The empty nodes by level, as both loops of `initialize` fill an array with them.
  unfoldable pub empty_levels : List Node
  empty_levels = tabulate max_depth (λ i. empty_node_cached hashv i (replicate max_depth empty))

  unfoldable pub initialize : MerkleRoll → Result (Node × MerkleRoll)
  initialize self = do
    check_bounds max_depth max_buffer_size
    log ← log_at max_depth max_buffer_size self 0
    let root = empty_node hashv max_depth
    let first = record log { root = root; path = empty_levels }
    done (
      root,
      record {
        sequence_number = 0;
        active_index = 0;
        buffer_size = 1;
        change_logs = set self.change_logs 0 first;
        rightmost_proof = record { proof = empty_levels; leaf = empty; index = 0 };
      },
    )

  -- The first log's path and index stay as they were; `index + 1` is checked.
  unfoldable pub initialize_with_root :
      MerkleRoll → Node → Node → List Node → ℕ → Result (Node × MerkleRoll)
  initialize_with_root self root rightmost_leaf proof index = do
    check_bounds max_depth max_buffer_size
    assert (length proof == max_depth)
    assert (ltb index (2 ^ 32 - 1))
    log ← log_at max_depth max_buffer_size self 0
    assert (root == recompute hashv rightmost_leaf proof index)
    done (
      root,
      record {
        sequence_number = 1;
        active_index = 0;
        buffer_size = 1;
        change_logs = set self.change_logs 0 (record log { root = root });
        rightmost_proof = record { proof = proof; leaf = rightmost_leaf; index = index + 1 };
      },
    )

  -- A proof that holds gives the default node.
  unfoldable pub prove_leaf : MerkleRoll → Node → Node → List Node → ℕ → Result Node
  prove_leaf self current_root leaf proof_vec leaf_index = do
    check_bounds max_depth max_buffer_size
    let check = do
      proof ← fill_in_proof hashv max_depth proof_vec
      (valid_root, _) ←
          check_valid_leaf max_depth max_buffer_size hashv self current_root leaf proof leaf_index
            true
      if valid_root then done empty else err invalid_proof
    if ltb self.rightmost_proof.index leaf_index then err leaf_index_out_of_bounds else check

  unfoldable pub set_leaf :
      MerkleRoll → Node → Node → Node → List Node → ℕ → Result (Node × MerkleRoll)
  set_leaf self current_root previous_leaf new_leaf proof_vec index = do
    check_bounds max_depth max_buffer_size
    let apply = do
      proof ← fill_in_proof hashv max_depth proof_vec
      try_apply_proof max_depth max_buffer_size hashv self current_root previous_leaf new_leaf proof
          index true
    if ltb self.rightmost_proof.index index then err leaf_index_out_of_bounds else apply

  -- A leaf that is no longer empty sends the new one to the end.
  unfoldable pub append_if_modified :
      MerkleRoll → Node → Result (Node × MerkleRoll) → Result (Node × MerkleRoll)
  append_if_modified self leaf (err leaf_contents_modified) =
      append max_depth max_buffer_size hashv self leaf
  append_if_modified self leaf outcome = outcome

  unfoldable pub fill_empty_or_append :
      MerkleRoll → Node → Node → List Node → ℕ → Result (Node × MerkleRoll)
  fill_empty_or_append self current_root leaf proof_vec index = do
    check_bounds max_depth max_buffer_size
    proof ← fill_in_proof hashv max_depth proof_vec
    append_if_modified self leaf (
        try_apply_proof max_depth max_buffer_size hashv self current_root empty leaf proof index
          false)
