-- ===== src/Cmt/Tests/Calls.antt =====
-- The theorems on calls at a small tree.
use candyland.Cmt.Tests.{
  pair, pair-IsCollisionFree, roll0, roll1, roll2, history1, calls, roll0-IsRollOf, roll1-IsRollOf,
}
use candyland.Prelude.{
  ◌⊎◌, ℕ, ◌≤◌, ◌<◌, ◌≡◌, ◌≢◌, refl, arith, [], ◌∷◌, if◌then◌else◌, ◌==◌, done, err,
}
use candyland.Cmt.Node.{tree_full, leaf_contents_modified}
use candyland.Cmt.ChangeLog.{ChangeLog}
use candyland.Cmt.Roll.{get_change_log}
use candyland.Cmt.Roll.{MerkleRoll, new}
use candyland.Cmt.Append.{append}
use candyland.Cmt.Api.{initialize, set_leaf, prove_leaf, fill_empty_or_append}
use candyland.Cmt.History.{History, IsRollOf, advance}
use candyland.Cmt.History.Initialized.{beginning, initialize_lem}
use candyland.Cmt.History.Appended.{append_lem}
use candyland.Cmt.History.SetLeaf.{set_leaf_sound, set_leaf_complete}
use candyland.Cmt.History.Calls.{
  prove_leaf_sound, prove_leaf_complete, fill_empty_or_append_sound, fill_empty_or_append_complete,
}
use candyland.Cmt.History.Reach.{begun, leaf_set, appended, reached_lem}
use candyland.Tree.{no_leaves, replace, root_of, proof_of}

was_empty : history1.past 1 0 ≡ 0
unfolding advance beginning
was_empty = refl

initialize_lem_example :
    (initialize 2 2 pair (new 2 2) ≡ done (root_of pair 2 no_leaves, roll0))
    × IsRollOf pair 2 1 roll0 beginning
initialize_lem_example = initialize_lem pair 2 1 (omega arith) (omega arith)

append_lem_example :
    ((1 < 4)
      × (r' : MerkleRoll) × (append 2 2 pair roll1 7
          ≡ done (root_of pair 2 (replace 1 7 (history1.past 0)), r'))
      × IsRollOf pair 2 1 r' (advance 1 7 history1))
    ⊎ ((4 ≤ 1) × (append 2 2 pair roll1 7 ≡ err tree_full))
append_lem_example =
    append_lem pair pair-IsCollisionFree 2 1 (omega arith) (omega arith) (omega arith) roll1
      history1 roll1-IsRollOf 7 (omega arith)

set_leaf_sound_example :
    (5 ≡ history1.past 0 0)
    × (8556 ≡ root_of pair 2 (replace 0 9 (history1.past 0)))
    × IsRollOf pair 2 1 roll2 (advance 0 9 history1)
set_leaf_sound_example =
    set_leaf_sound pair pair-IsCollisionFree 2 1 (omega arith) (omega arith) (omega arith) roll1
      history1 roll1-IsRollOf 0 (omega arith) 1056 5 9 (0 ∷ 1 ∷ []) calls.1

-- A proof from before the append.
set_leaf_complete_example :
    ((history1.past 0 1 ≡ history1.past 1 1)
      × (r' : MerkleRoll) × (set_leaf 2 2 pair roll1
            (root_of pair 2 (history1.past 1))
            (history1.past 1 1)
            7
            (proof_of pair 2 (history1.past 1) 1)
            1
          ≡ done (root_of pair 2 (replace 1 7 (history1.past 0)), r'))
      × IsRollOf pair 2 1 r' (advance 1 7 history1))
    ⊎ ((history1.past 0 1 ≢ history1.past 1 1)
        × (set_leaf 2 2 pair roll1
              (root_of pair 2 (history1.past 1))
              (history1.past 1 1)
              7
              (proof_of pair 2 (history1.past 1) 1)
              1
            ≡ err leaf_contents_modified))
set_leaf_complete_example =
    set_leaf_complete pair pair-IsCollisionFree 2 1 (omega arith) (omega arith) (omega arith) roll1
      history1 roll1-IsRollOf 1 (omega arith) 1 7 (omega arith) (omega arith)

prove_leaf_sound_example : 5 ≡ history1.past 0 0
prove_leaf_sound_example =
    prove_leaf_sound pair pair-IsCollisionFree 2 1 (omega arith) (omega arith) (omega arith) roll1
      history1 roll1-IsRollOf 0 (omega arith) 1056 5 (0 ∷ 1 ∷ []) calls.2

prove_leaf_complete_example :
    prove_leaf 2 2 pair roll1
      (root_of pair 2 (history1.past 1))
      (history1.past 1 0)
      (proof_of pair 2 (history1.past 1) 0)
      0
    ≡ (if history1.past 0 0 == history1.past 1 0 then done 0 else err leaf_contents_modified)
prove_leaf_complete_example =
    prove_leaf_complete pair pair-IsCollisionFree 2 1 (omega arith) (omega arith) (omega arith)
      roll1 history1 roll1-IsRollOf 0 (omega arith) 1 (omega arith) (omega arith)

fill_empty_or_append_sound_example :
    ((beginning.past 0 0 ≡ 0)
      × (1056 ≡ root_of pair 2 (replace 0 5 (beginning.past 0)))
      × IsRollOf pair 2 1 roll1 (advance 0 5 beginning))
    ⊎ (◌≢◌ {A = ℕ} 5 0
        × (roll0.rightmost_proof.index < 4)
        × (1056 ≡ root_of pair 2 (replace roll0.rightmost_proof.index 5 (beginning.past 0)))
        × IsRollOf pair 2 1 roll1 (advance roll0.rightmost_proof.index 5 beginning))
fill_empty_or_append_sound_example =
    fill_empty_or_append_sound pair pair-IsCollisionFree 2 1 (omega arith) (omega arith)
      (omega arith) roll0 beginning roll0-IsRollOf 0 (omega arith) 5 6 (0 ∷ 1 ∷ []) calls.3

-- The leaf at 0 was empty before the append, and no longer is.
fill_empty_or_append_complete_example :
    ((history1.past 0 0 ≡ 0)
      × (r' : MerkleRoll) × (fill_empty_or_append 2 2 pair roll1
            (root_of pair 2 (history1.past 1))
            7
            (proof_of pair 2 (history1.past 1) 0)
            0
          ≡ done (root_of pair 2 (replace 0 7 (history1.past 0)), r'))
      × IsRollOf pair 2 1 r' (advance 0 7 history1))
    ⊎ ((history1.past 0 0 ≢ 0)
        × (fill_empty_or_append 2 2 pair roll1
              (root_of pair 2 (history1.past 1))
              7
              (proof_of pair 2 (history1.past 1) 0)
              0
            ≡ append 2 2 pair roll1 7))
fill_empty_or_append_complete_example =
    fill_empty_or_append_complete pair pair-IsCollisionFree 2 1 (omega arith) (omega arith)
      (omega arith) roll1 history1 roll1-IsRollOf 0 (omega arith) 7 1 (omega arith) (omega arith)
      was_empty

reached_lem_example :
    ((h : History) × IsRollOf pair 2 1 roll2 h × (8556 ≡ root_of pair 2 (h.past 0)))
    × ((log : ChangeLog) × (get_change_log 2 2 roll2 ≡ done log) × (log.root ≡ 8556))
reached_lem_example =
    reached_lem pair pair-IsCollisionFree 2 1 (omega arith) (omega arith) (omega arith) (
      leaf_set (appended (begun (initialize_lem pair 2 1 (omega arith) (omega arith)).0) 5 calls.0)
        1056 5 9 (0 ∷ 1 ∷ []) 0 (omega arith) calls.1)
