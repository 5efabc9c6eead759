-- ===== src/Cmt/Tests.antt =====
-- Runs of the roll on a small tree.
pub mod Calls
pub mod Steps
use candyland.Prelude.{
  shr, leading_zeros, ◌⊎◌, ℕ, zero, suc, ◌+◌, ◌-◌, ◌*◌, ◌^◌, ◌≤◌, ◌<◌, ◌≡◌, ◌≢◌, refl, sym, ap, ◌∙◌,
  arith, List, [], ◌∷◌, if◌then◌else◌, ◌==◌, done, err, inl, inr, lt_or_ge,
}
use native.Mathlib.Nat.{mul-le-mul}
use candyland.Cmt.Node.{Node, Result, tree_full, leaf_contents_modified}
use candyland.Cmt.Utils.{
  hash_to_parent, recompute_from, recompute, empty_node_cached, empty_node, empty_nodes,
  fill_in_proof,
}
use candyland.Cmt.ChangeLog
use candyland.Cmt.ChangeLog.{
  ChangeLog, ProofPath, get_leaf, replace_path, replace_and_recompute_path, update_proof_or_leaf,
}
use candyland.Cmt.Roll.{
  check_bounds, log_at, get_change_log, find_root_from, find_root_in_changelog, fast_forward,
}
use candyland.Cmt.Apply.{
  fast_forward_proof, starting_point, update_internal_counters, check_valid_leaf,
  update_buffers_from_proof, try_apply_proof,
}
use candyland.Cmt.Append.{
  trailing_zeros, append_round, append_rounds, initialize_tree_from_append, append_leaf,
}
use candyland.Cmt.Utils.Sound.{IsCollisionFree}
use candyland.Cmt.Roll.{MerkleRoll, new}
use candyland.Cmt.Append.{append}
use candyland.Cmt.Api.{
  empty_levels, initialize, set_leaf, prove_leaf, append_if_modified, fill_empty_or_append,
}
use candyland.Cmt.History.{History, IsRollOf, advance}
use candyland.Cmt.History.Initialized.{beginning, initialized, initialize_lem}
use candyland.Cmt.History.Appended.{append_lem, append_sound}
use candyland.Cmt.History.SetLeaf.{set_leaf_sound, set_leaf_complete}
use candyland.Cmt.History.Calls.{
  prove_leaf_sound, prove_leaf_complete, fill_empty_or_append_sound, fill_empty_or_append_complete,
}
use candyland.Cmt.History.Reach.{Reached, begun, appended, reached_lem}
use candyland.Tree.{Leaves, no_leaves, replace, root_of, proof_of}

-- A hash with no collisions.
unfoldable pub pair : Node → Node → Node
pair a b = (a + b) * (a + b) + a + 1

square_grows : (s t a c : ℕ) → a ≤ s → s < t → s * s + a + 1 ≢ t * t + c + 1
square_grows s t a c le lt e =
    omega
      (arith, mul-le-mul {n₁ = s + 1} {m₁ = s + 1} {n₂ = t} {m₂ = t} (omega arith) (omega arith))

pub pair-IsCollisionFree : IsCollisionFree pair
unfolding pair
pair-IsCollisionFree a b c d e = elim (lt_or_ge (a + b) (c + d)) [
  | inl lt ↦ absurd (square_grows (a + b) (c + d) a c (omega arith) lt e)
  | inr ge ↦ elim (lt_or_ge (c + d) (a + b)) [
    | inl gt ↦ absurd (square_grows (c + d) (a + b) c a (omega arith) gt (sym e))
    | inr le ↦
        let same : a + b ≡ c + d = omega arith in
        let left : a ≡ c = omega (arith, ap (λ (n : ℕ). n * n) same) in (left, omega arith)
  ]
]

abbrev pub roll0 : MerkleRoll
roll0 = initialized pair 2 1

abbrev pub log1 : ChangeLog
log1 = record { root = 1056; path = 5 ∷ 31 ∷ []; index = 0 }

-- The roll after 5 is appended.
abbrev pub roll1 : MerkleRoll
roll1 = record {
  sequence_number = 1;
  active_index = 1;
  buffer_size = 2;
  change_logs = record { root = 6; path = 0 ∷ 1 ∷ []; index = 0 } ∷ log1 ∷ [];
  rightmost_proof = record { proof = 0 ∷ 1 ∷ []; leaf = 5; index = 1 };
}

-- The roll after 9 takes the place of 5.
abbrev pub roll2 : MerkleRoll
roll2 = record {
  sequence_number = 2;
  active_index = 0;
  buffer_size = 2;
  change_logs = record { root = 8556; path = 9 ∷ 91 ∷ []; index = 0 } ∷ log1 ∷ [];
  rightmost_proof = record { proof = 0 ∷ 1 ∷ []; leaf = 9; index = 1 };
}

abbrev pub tree1 : Leaves
tree1 = replace 0 5 no_leaves

-- What `append`, `set_leaf`, `prove_leaf` and `fill_empty_or_append` make of them.
pub calls :
    (append 2 2 pair roll0 5 ≡ done (1056, roll1))
    × (set_leaf 2 2 pair roll1 1056 5 9 (0 ∷ 1 ∷ []) 0 ≡ done (8556, roll2))
    × (prove_leaf 2 2 pair roll1 1056 5 (0 ∷ 1 ∷ []) 0 ≡ done 0)
    × (fill_empty_or_append 2 2 pair roll0 6 5 (0 ∷ 1 ∷ []) 0 ≡ done (1056, roll1))
unfolding append set_leaf prove_leaf fill_empty_or_append append_if_modified
    initialize_tree_from_append try_apply_proof check_valid_leaf fast_forward_proof starting_point
    update_internal_counters update_buffers_from_proof check_bounds log_at get_change_log
    find_root_from find_root_in_changelog fast_forward get_leaf replace_path
    replace_and_recompute_path update_proof_or_leaf hash_to_parent recompute_from recompute
    empty_node_cached empty_node empty_nodes fill_in_proof initialized empty_levels pair shr
    leading_zeros ChangeLog.default
calls = (refl, refl, refl, refl)

pub roll0-IsRollOf : IsRollOf pair 2 1 roll0 beginning
roll0-IsRollOf = (initialize_lem pair 2 1 (omega arith) (omega arith)).1

abbrev pub history1 : History
history1 = advance 0 5 beginning

pub roll1-IsRollOf : IsRollOf pair 2 1 roll1 history1
unfolding initialized
roll1-IsRollOf =
    let (_, _, _, rolls) =
      append_sound pair pair-IsCollisionFree 2 1 (omega arith) (omega arith) (omega arith) roll0
        beginning roll0-IsRollOf 5 calls.0 in
    rolls
