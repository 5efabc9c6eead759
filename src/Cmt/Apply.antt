-- ===== src/Cmt/Apply.antt =====
-- merkle_roll.rs: a proof is brought up to date, checked and applied.
use candyland.Prelude.{
  ℕ, suc, ◌+◌, ◌-◌, ◌^◌, min, Bool, true, false, Option, none, some, List, set, ltb, ◌==◌,
  if◌then◌else◌, bit_and, done, err, panic, assert, ◌>>=◌, ◌>>◌,
}
use candyland.Cmt.Node.{Node, Result, invalid_proof, root_not_found, leaf_contents_modified}
use candyland.Cmt.Utils.{recompute}
use candyland.Cmt.ChangeLog.{get_leaf, replace_and_recompute_path, update_proof_or_leaf}
use candyland.Cmt.Roll.{
  MerkleRoll, mask, wrapping_sub, log_at, get_change_log, find_root_in_changelog, fast_forward,
}

module _ (max_depth max_buffer_size : ℕ) where
  -- The leaf and the proof after the fast-forward, and whether the leaf is unchanged. The loop
  -- visits each place of the buffer at most once, which bounds its rounds.
  unfoldable pub fast_forward_proof :
      MerkleRoll → Node → List Node → ℕ → ℕ → Bool → Result (Node × List Node × Bool)
  fast_forward_proof self leaf proof leaf_index changelog_buffer_index use_full_buffer = do
    (proof', updated_leaf) ←
        fast_forward max_depth max_buffer_size (suc max_buffer_size) self leaf_index use_full_buffer
          changelog_buffer_index proof leaf
    done (updated_leaf, proof', updated_leaf == leaf)

  -- Where the fast-forward starts, and whether it takes the whole buffer. `buffer_size - 1`
  -- underflows for a roll that is not initialized.
  unfoldable pub starting_point : MerkleRoll → Bool → Option ℕ → Result (ℕ × Bool)
  starting_point self allow_inferred_proof (some matching) = done (matching, false)
  starting_point self true none =
      if self.buffer_size == 0
      then panic
      else done (
        bit_and (wrapping_sub self.active_index (self.buffer_size - 1))
            (mask max_depth max_buffer_size),
        true,
      )
  starting_point self false none = err root_not_found

  unfoldable pub update_internal_counters : MerkleRoll → MerkleRoll
  update_internal_counters self = record self {
    active_index = bit_and (self.active_index + 1) (mask max_depth max_buffer_size);
    buffer_size =
        if ltb self.buffer_size max_buffer_size then self.buffer_size + 1 else self.buffer_size;
    sequence_number = min (self.sequence_number + 1) (2 ^ 64 - 1);
  }

  module _ (hashv : Node → Node → Node) where
    -- Whether the proof leads to the current root, beside the proof as it was brought up to date.
    unfoldable pub check_valid_leaf :
        MerkleRoll → Node → Node → List Node → ℕ → Bool → Result (Bool × List Node)
    unfolding fast_forward_proof starting_point
    check_valid_leaf self current_root leaf proof leaf_index allow_inferred_proof = do
      found ← find_root_in_changelog max_depth max_buffer_size self current_root
      (changelog_index, use_full_buffer) ← starting_point self allow_inferred_proof found
      (updated_leaf, proof', proof_leaf_unchanged) ←
          fast_forward_proof self leaf proof leaf_index changelog_index use_full_buffer
      let check = get_change_log max_depth max_buffer_size self >>= λ log.
          done (recompute hashv updated_leaf proof' leaf_index == log.root, proof')
      if proof_leaf_unchanged then check else err leaf_contents_modified

    -- The rightmost proof follows the change, or becomes that of the leaf just written.
    unfoldable pub update_buffers_from_proof :
        MerkleRoll → Node → List Node → ℕ → Result (Node × MerkleRoll)
    update_buffers_from_proof self start proof index = do
      old_log ← log_at max_depth max_buffer_size self self.active_index
      let (root, change_log) = replace_and_recompute_path hashv old_log index start proof
      let self' = record self { change_logs = set self.change_logs self.active_index change_log }
      let rightmost = self.rightmost_proof
      let follow =
          update_proof_or_leaf max_depth change_log (rightmost.index - 1) rightmost.proof
            rightmost.leaf
          >>= λ (p, l).
              done
                (root, record self' { rightmost_proof = record rightmost { proof = p; leaf = l } })
      let extend =
          assert (index == rightmost.index)
          >> (get_leaf change_log >>= λ l. done (
            root,
            record self' {
              rightmost_proof = record { proof = proof; leaf = l; index = index + 1 };
            },
          ))
      if ltb rightmost.index (2 ^ max_depth)
          then if ltb index rightmost.index then follow else extend
          else done (root, self')

    unfoldable pub try_apply_proof :
        MerkleRoll → Node → Node → Node → List Node → ℕ → Bool → Result (Node × MerkleRoll)
    try_apply_proof self current_root leaf new_leaf proof leaf_index allow_inferred_proof = do
      (valid_root, proof') ←
          check_valid_leaf self current_root leaf proof leaf_index allow_inferred_proof
      if valid_root
          then update_buffers_from_proof (update_internal_counters self) new_leaf proof' leaf_index
          else err invalid_proof
