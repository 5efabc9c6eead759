-- ===== src/Gummyroll/Program/Tests.antt =====
-- The instructions on an account with a small tree and the row below the root as its canopy.
use candyland.Prelude.{
  ◌⊎◌, shr, leading_zeros, ℕ, ◌≡◌, ◌≢◌, refl, arith, List, [], ◌∷◌, done, some, tabulate,
}
use candyland.Cmt.Node.{Node, empty}
use candyland.Cmt.Utils.{
  hash_to_parent, recompute_from, recompute, empty_node_cached, empty_node, empty_nodes,
  fill_in_proof,
}
use candyland.Cmt.ChangeLog
use candyland.Cmt.ChangeLog.{
  get_leaf, replace_path, replace_and_recompute_path, update_proof_or_leaf,
}
use candyland.Cmt.ChangeLog.Patch.{log_of}
use candyland.Cmt.Roll.{
  check_bounds, log_at, get_change_log, find_root_from, find_root_in_changelog, fast_forward,
}
use candyland.Cmt.Apply.{
  fast_forward_proof, starting_point, update_internal_counters, check_valid_leaf,
  update_buffers_from_proof, try_apply_proof,
}
use candyland.Cmt.Append
use candyland.Cmt.Append.{trailing_zeros, initialize_tree_from_append}
use candyland.Cmt.Api.{fill_empty_or_append, append_if_modified, prove_leaf, empty_levels, set_leaf}
use candyland.Cmt.History.{advance}
use candyland.Cmt.History.Initialized.{beginning, initialized, initialize_lem}
use candyland.Cmt.Tests.{pair, pair-IsCollisionFree}
use candyland.Gummyroll.Event.{path_nodes, from_log}
use candyland.Gummyroll.Canopy.{
  Checked, CanopyBytes, check_canopy_bytes, get_cached_path_length, write_node, write_path,
  update_canopy, climb, fill_in_proof_from_canopy,
}
use candyland.Gummyroll.Canopy.Rows.{IsCanopy, unset-IsCanopy}
use candyland.Gummyroll.Canopy.Updated.{update_canopy_lem}
use candyland.Gummyroll.Canopy.Filled.{fill_in_proof_from_canopy_lem}
use candyland.Gummyroll.Event.{ChangeLogEvent}
use candyland.Gummyroll.Program.{
  insert_or_append, verify_leaf, Account, lift, check_size, apply_fn, store, replace_leaf, append,
}
use candyland.Gummyroll.Program.Store.{IsAccountOf}
use candyland.Gummyroll.Program.Inserted.{IsWritten, insert_or_append_sound}
use candyland.Gummyroll.Program.Kept.{verify_leaf_sound, replace_leaf_sound, append_account_sound}
use candyland.Tree.{no_leaves, replace, sibling, node_at, proof_of}

abbrev canopy : CanopyBytes
canopy = record { nodes = 0 ∷ 0 ∷ []; spare = 0 }

abbrev account : Account
account = record {
  id = 7;
  header = record {
    max_buffer_size = 8;
    max_depth = 3;
    authority = 1;
    append_authority = 2;
    creation_slot = 0;
  };
  roll = initialized pair 3 3;
  canopy = canopy;
}

pair_nonzero : (a b : Node) → pair a b ≢ empty
unfolding pair
pair_nonzero a b = omega arith

account-IsAccountOf : IsAccountOf pair 3 1 account beginning
unfolding beginning
account-IsAccountOf = record {
  sized = refl;
  words = omega arith;
  pos = omega arith;
  shallow = omega arith;
  held = omega arith;
  whole = refl;
  rolls = (initialize_lem pair 3 3 (omega arith) (omega arith)).1;
  rows = unset-IsCanopy pair 3 1 2 refl;
}

abbrev returned : Checked (Account × ChangeLogEvent) → Account × ChangeLogEvent
returned (done out) = out
returned _ = (account, record { id = 0; path = []; seq = 0; index = 0 })

abbrev appended : Account × ChangeLogEvent
appended = returned (append pair account 1 2 5)

abbrev replaced : Account × ChangeLogEvent
replaced = returned (replace_leaf pair account 1 151 0 5 0 (0 ∷ 1 ∷ []))

-- The account after a leaf is verified: the row of the canopy holds the empty node beside the path.
abbrev verified : Account
verified = record account { canopy = record { nodes = 0 ∷ 6 ∷ []; spare = 0 } }

abbrev inserted : Account × ChangeLogEvent
inserted = returned (insert_or_append pair account 1 151 5 0 (0 ∷ 1 ∷ []))

-- The first leaf, appended or set by a proof that lacks the row of the canopy: 31 and 1056 are on its path.
runs :
    (verify_leaf pair account 151 0 0 (0 ∷ 1 ∷ []) ≡ done verified)
    × (append pair account 1 2 5 ≡ done appended)
    × (replace_leaf pair account 1 151 0 5 0 (0 ∷ 1 ∷ []) ≡ done replaced)
    × (appended.0.canopy.nodes ≡ 1056 ∷ 0 ∷ [])
    × (replaced.0.canopy.nodes ≡ 1056 ∷ 6 ∷ [])
    × (insert_or_append pair account 1 151 5 0 (0 ∷ 1 ∷ []) ≡ done inserted)
unfolding insert_or_append fill_empty_or_append append_if_modified verify_leaf prove_leaf append
    replace_leaf lift check_size apply_fn store check_canopy_bytes get_cached_path_length write_node
    write_path update_canopy climb fill_in_proof_from_canopy path_nodes from_log trailing_zeros
    Append.append set_leaf initialize_tree_from_append try_apply_proof check_valid_leaf
    fast_forward_proof starting_point update_internal_counters update_buffers_from_proof
    check_bounds log_at get_change_log find_root_from find_root_in_changelog fast_forward get_leaf
    replace_path replace_and_recompute_path update_proof_or_leaf hash_to_parent recompute_from
    recompute empty_node_cached empty_node empty_nodes fill_in_proof initialized empty_levels pair
    shr leading_zeros ChangeLog.default
runs = (refl, refl, refl, refl, refl, refl)

append_account_sound_example :
    (account.header.authority ≡ 1)
    × (account.header.append_authority ≡ 2)
    × (◌≢◌ {A = ℕ} 5 0)
    × IsAccountOf pair 3 1 appended.0 (advance account.roll.rightmost_proof.index 5 beginning)
    × (appended.1
        ≡ from_log
            (log_of pair 3
              (replace account.roll.rightmost_proof.index 5 (beginning.past 0))
              account.roll.rightmost_proof.index)
            7
            appended.0.roll.sequence_number)
append_account_sound_example =
    append_account_sound pair pair-IsCollisionFree pair_nonzero 3 1 account beginning
      account-IsAccountOf 1 2 5 runs.1

replace_leaf_sound_example :
    (account.header.authority ≡ 1)
    × (◌≡◌ {A = ℕ} 0 (beginning.past 0 0))
    × IsAccountOf pair 3 1 replaced.0 (advance 0 5 beginning)
    × (replaced.1
        ≡ from_log
            (log_of pair 3 (replace 0 5 (beginning.past 0)) 0)
            7
            replaced.0.roll.sequence_number)
replace_leaf_sound_example =
    replace_leaf_sound pair pair-IsCollisionFree pair_nonzero 3 1 account beginning
      account-IsAccountOf 1 151 0 5 0 (0 ∷ 1 ∷ []) (omega arith) runs.2

update_canopy_lem_example :
    (nodes : List Node) × (update_canopy canopy 3
        (some (from_log (log_of pair 3 (replace 2 5 no_leaves) 2) 7 1))
      ≡ done (record canopy { nodes = nodes }))
    × IsCanopy pair 3 1 (replace 2 5 no_leaves) nodes
update_canopy_lem_example =
    update_canopy_lem pair 3 1 (omega arith) no_leaves 2 5 (omega arith) canopy 7 1 (omega arith)
      refl (unset-IsCanopy pair 3 1 2 refl)

fill_in_proof_from_canopy_lem_example :
    (nodes : List Node) × (fill_in_proof_from_canopy pair canopy 3 2
        (tabulate 2 (λ level. node_at pair no_leaves level (sibling (shr 2 level))))
      ≡ done (record canopy { nodes = nodes }, proof_of pair 3 no_leaves 2))
    × IsCanopy pair 3 1 no_leaves nodes
fill_in_proof_from_canopy_lem_example =
    fill_in_proof_from_canopy_lem pair 3 1 (omega arith) (omega arith) pair_nonzero no_leaves 2
      (omega arith) canopy refl (unset-IsCanopy pair 3 1 2 refl)

verify_leaf_sound_example :
    (◌≡◌ {A = ℕ} 0 (beginning.past 0 0)) × IsAccountOf pair 3 1 verified beginning
verify_leaf_sound_example =
    verify_leaf_sound pair pair-IsCollisionFree pair_nonzero 3 1 account beginning
      account-IsAccountOf 151 0 0 (0 ∷ 1 ∷ []) (omega arith) runs.0

insert_or_append_sound_example :
    (account.header.authority ≡ 1)
    × (((beginning.past 0 0 ≡ empty)
          × IsWritten pair pair-IsCollisionFree pair_nonzero 3 1 account beginning
              account-IsAccountOf 1 151 5 0
              (0 ∷ 1 ∷ [])
              0
              inserted)
        ⊎ ((◌≢◌ {A = ℕ} 5 empty)
            × IsWritten pair pair-IsCollisionFree pair_nonzero 3 1 account beginning
                account-IsAccountOf 1 151 5 0
                (0 ∷ 1 ∷ [])
                account.roll.rightmost_proof.index
                inserted))
insert_or_append_sound_example =
    insert_or_append_sound pair pair-IsCollisionFree pair_nonzero 3 1 account beginning
      account-IsAccountOf 1 151 5 0 (0 ∷ 1 ∷ []) (omega arith) runs.5
