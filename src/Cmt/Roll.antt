-- ===== src/Cmt/Roll.antt =====
-- merkle_roll.rs: `MerkleRoll`, over its depth and the size of its buffer. A method that changes
-- `self` returns the new roll beside its result; each returns an `Err` before its first write.
use candyland.Prelude.{
  ℕ, zero, suc, ◌+◌, ◌-◌, ◌%◌, ◌^◌, Bool, not, ◌&&◌, Option, none, some, List, get_elem?, replicate,
  ltb, ◌==◌, if◌then◌else◌, bit_and, done, panic, diverge, assert, in_range, ◌>>=◌, ◌>>◌,
}
use candyland.Cmt.Node.{Node, empty, Result}
use candyland.Cmt.ChangeLog
use candyland.Cmt.ChangeLog.{
  ChangeLog, ProofPath, get_leaf, replace_and_recompute_path, update_proof_or_leaf,
}

pub record MerkleRoll : Type 0 where
  pub sequence_number : ℕ
  pub active_index : ℕ
  pub buffer_size : ℕ
  pub change_logs : List ChangeLog
  pub rightmost_proof : ProofPath

abbrev pub wrapping_sub : ℕ → ℕ → ℕ
wrapping_sub a b = (a + 2 ^ 64 - b) % 2 ^ 64

module _ (max_depth max_buffer_size : ℕ) where
  -- The buffer's size is a power of two; at 0 the subtraction underflows.
  unfoldable pub check_bounds : Result (Unit {0})
  check_bounds = do
    assert (ltb max_depth 31)
    if max_buffer_size == 0
        then panic
        else assert (bit_and max_buffer_size (max_buffer_size - 1) == 0)

  unfoldable pub new : MerkleRoll
  new = record {
    sequence_number = 0;
    active_index = 0;
    buffer_size = 0;
    change_logs = replicate max_buffer_size (ChangeLog.default max_depth);
    rightmost_proof = record { proof = replicate max_depth empty; leaf = empty; index = 0 };
  }

  abbrev pub mask : ℕ
  mask = max_buffer_size - 1

  unfoldable pub log_at : MerkleRoll → ℕ → Result ChangeLog
  log_at self j = in_range (get_elem? self.change_logs j)

  unfoldable pub get_change_log : MerkleRoll → Result ChangeLog
  unfolding log_at
  get_change_log self = log_at self self.active_index

  -- The loop of `find_root_in_changelog` from `i` on, with `left` rounds to go.
  unfoldable pub find_root_from : ℕ → ℕ → MerkleRoll → Node → Result (Option ℕ)
  unfolding log_at
  find_root_from zero i self current_root = done none
  find_root_from (suc left) i self current_root =
      let j = bit_and (wrapping_sub self.active_index i) mask in
      log_at self j >>= λ log.
      let older = find_root_from left (i + 1) self current_root in
      if log.root == current_root then done (some j) else older

  unfoldable pub find_root_in_changelog : MerkleRoll → Node → Result (Option ℕ)
  unfolding find_root_from
  find_root_in_changelog self current_root = find_root_from self.buffer_size 0 self current_root

  -- The `loop` of `fast_forward_proof`: the proof and the leaf as it leaves them.
  unfoldable pub fast_forward :
      ℕ → MerkleRoll → ℕ → Bool → ℕ → List Node → Node → Result (List Node × Node)
  unfolding log_at
  fast_forward zero self leaf_index use_full_buffer changelog_buffer_index proof leaf = diverge
  fast_forward (suc fuel) self leaf_index use_full_buffer changelog_buffer_index proof leaf =
      let j = bit_and (changelog_buffer_index + 1) mask in
      let round = do
        log ← log_at self j
        (proof', leaf') ← update_proof_or_leaf max_depth log leaf_index proof leaf
        let rest = fast_forward fuel self leaf_index use_full_buffer j proof' leaf'
        if use_full_buffer && j == self.active_index then done (proof', leaf') else rest
      in if not use_full_buffer && changelog_buffer_index == self.active_index
        then done (proof, leaf)
        else round
