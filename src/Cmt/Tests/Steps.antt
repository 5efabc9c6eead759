-- ===== src/Cmt/Tests/Steps.antt =====
-- The theorems on the roll's steps at a small tree.
use candyland.Cmt.Tests.{pair, pair-IsCollisionFree, log1, roll1, tree1, history1, roll1-IsRollOf}
use candyland.Prelude.{
  some, none, replicate, false, shr, ◌⊎◌, ℕ, ◌≤◌, ◌<◌, ◌≡◌, ◌≢◌, refl, arith, [], ◌∷◌, done,
}
use candyland.Cmt.Utils.{hash_to_parent, recompute_from, recompute, empty_node_cached, empty_node}
use candyland.Cmt.ChangeLog.{replace_and_recompute_path, update_proof_or_leaf}
use candyland.Cmt.Roll.{find_root_in_changelog, fast_forward}
use candyland.Tree.{replace, node_at, root_of, proof_of}
use candyland.Cmt.Utils.Recompute.{recompute-proof_of, empty_node_cached_lem, replicate-IsCache}
use candyland.Cmt.Utils.Sound.{recompute_sound}
use candyland.Cmt.ChangeLog.Patch.{log_of, replace_and_recompute_path_lem, update_proof_or_leaf_lem}
use candyland.Cmt.Ring.{place}
use candyland.Cmt.History.Window.{fast_forward_lem, find_root_lem}

recompute-proof_of_example :
    recompute pair (tree1 1) (proof_of pair 2 tree1 1) 1 ≡ root_of pair 2 tree1
recompute-proof_of_example = recompute-proof_of pair 2 tree1 1 (omega arith)

leads_to_root : recompute pair 5 (0 ∷ 1 ∷ []) 0 ≡ root_of pair 2 tree1
unfolding recompute recompute_from hash_to_parent pair shr node_at
leads_to_root = refl

recompute_sound_example : (5 ≡ tree1 0) × ((0 ∷ 1 ∷ []) ≡ proof_of pair 2 tree1 0)
recompute_sound_example =
    recompute_sound pair pair-IsCollisionFree 2 tree1 0 5 (0 ∷ 1 ∷ []) (omega arith) refl
      leads_to_root

empty_node_cached_lem_example : empty_node_cached pair 2 (replicate 2 0) ≡ empty_node pair 2
empty_node_cached_lem_example =
    empty_node_cached_lem pair 2 (replicate 2 0) (replicate-IsCache pair 2)

replace_and_recompute_path_lem_example :
    replace_and_recompute_path pair log1 1 7 (proof_of pair 2 tree1 1)
    ≡ (root_of pair 2 (replace 1 7 tree1), log_of pair 2 (replace 1 7 tree1) 1)
replace_and_recompute_path_lem_example =
    replace_and_recompute_path_lem pair 2 tree1 1 7 log1 (omega arith) refl

update_proof_or_leaf_lem_example :
    update_proof_or_leaf 2
      (log_of pair 2 (replace 2 7 tree1) 2)
      1
      (proof_of pair 2 tree1 1)
      (tree1 1)
    ≡ done (proof_of pair 2 (replace 2 7 tree1) 1, replace 2 7 tree1 1)
update_proof_or_leaf_lem_example =
    update_proof_or_leaf_lem pair 2 tree1 1 2 7 (omega arith) (omega arith) (omega arith)
      (omega arith)

fast_forward_lem_example :
    fast_forward 2 2 3 roll1 1 false
      (place 2 1 1)
      (proof_of pair 2 (history1.past 1) 1)
      (history1.past 1 1)
    ≡ done (proof_of pair 2 (history1.past 0) 1, history1.past 0 1)
fast_forward_lem_example =
    fast_forward_lem pair 2 1 (omega arith) (omega arith) roll1 history1 roll1-IsRollOf.tells 1
      (omega arith) 1 3 (omega arith) (omega arith)

find_root_lem_example :
    ((k : ℕ) × (find_root_in_changelog 2 2 roll1 6 ≡ done (some (place 2 1 k)))
      × (k < 2)
      × (root_of pair 2 (history1.past k) ≡ 6))
    ⊎ ((find_root_in_changelog 2 2 roll1 6 ≡ done none)
        × ((k : ℕ) → 0 ≤ k → k < 2 → root_of pair 2 (history1.past k) ≢ 6))
find_root_lem_example =
    find_root_lem pair 2 1 (omega arith) (omega arith) roll1 history1 roll1-IsRollOf.tells
      (omega arith) 6
