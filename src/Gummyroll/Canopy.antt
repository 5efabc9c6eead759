-- ===== src/Gummyroll/Canopy.antt =====
-- lib.rs of gummyroll: the canopy, the account's bytes after the roll. Bytes are cast to nodes by the
-- library bytemuck: here they are the nodes, and the bytes after the last whole node.
pub mod Rows
pub mod Updated
pub mod Filled
use candyland.Prelude.{
  ℕ, zero, suc, ◌+◌, ◌-◌, ◌*◌, ◌/◌, ◌%◌, ◌^◌, Bool, Option, none, some, List, [], ◌∷◌, ◌++◌, length,
  get_elem?, set, replicate, reverse, take, drop, ltb, leb, ◌==◌, if◌then◌else◌, bit_and, shr,
  leading_zeros, Outcome, done, err, panic, diverge, in_range, ◌>>=◌, ◌>>◌,
}
use candyland.Cmt.Node.{Node, empty}
use candyland.Cmt.Utils.{empty_node_cached}
use candyland.Cmt.Append.{trailing_zeros}
use candyland.Gummyroll.Event.{PathNode, ChangeLogEvent}

pub data GummyrollError : Type 0 where
  incorrect_leaf_length concurrent_merkle_tree_error zero_copy_error : GummyrollError
  merkle_roll_constants_error canopy_length_mismatch : GummyrollError

abbrev pub Checked : Type 0 → Type 0
Checked A = Outcome GummyrollError A

pub record CanopyBytes : Type 0 where
  pub nodes : List Node
  pub spare : ℕ

unfoldable pub check_canopy_bytes : CanopyBytes → Checked (Unit {0})
check_canopy_bytes canopy =
    if (length canopy.nodes * 32 + canopy.spare) % 32 == 0
    then done tt
    else err canopy_length_mismatch

-- The levels below the root that the canopy holds. Accounts are far smaller than `u32` counts.
unfoldable pub get_cached_path_length : List Node → ℕ → Checked ℕ
get_cached_path_length canopy max_depth =
    let closest_power_of_2 = length canopy + 2 in
    if bit_and closest_power_of_2 (closest_power_of_2 - 1) == 0
    then if ltb (2 ^ (max_depth + 1)) closest_power_of_2
      then err canopy_length_mismatch
      else done (trailing_zeros 32 closest_power_of_2 - 1)
    else err canopy_length_mismatch

-- `canopy[i] = node`
unfoldable pub write_node : List Node → ℕ → Node → Checked (List Node)
write_node canopy i node = if ltb i (length canopy) then done (set canopy i node) else panic

-- Node `index` stands at `index - 2`, which underflows for the root and for 0.
unfoldable pub write_path : List Node → List PathNode → Checked (List Node)
unfolding write_node
write_path canopy [] = done canopy
write_path canopy (path_node ∷ path) =
    if ltb path_node.index 2
    then panic
    else write_node canopy (path_node.index - 2) path_node.node >>= λ canopy'.
        write_path canopy' path

unfoldable pub update_canopy : CanopyBytes → ℕ → Option ChangeLogEvent → Checked CanopyBytes
unfolding write_path
update_canopy canopy max_depth change_log = do
  check_canopy_bytes canopy
  path_len ← get_cached_path_length canopy.nodes max_depth
  elim change_log [
    | none ↦ done canopy
    | some cl ↦ write_path canopy.nodes (take path_len (drop 1 (reverse cl.path))) >>= λ nodes.
        done (record canopy { nodes = nodes })
  ]

module _ (hashv : Node → Node → Node) where
  -- The loop from `node_idx` up to the root: the canopy with the empty nodes that were missing, and the
  -- nodes beside the path.
  unfoldable pub climb : ℕ → ℕ → ℕ → List Node → Checked (List Node × List Node)
  climb zero max_depth node_idx canopy = diverge
  climb (suc fuel) max_depth node_idx canopy =
      let shifted_index = node_idx - 2 in
      let cached_idx = if shifted_index % 2 == 0 then shifted_index + 1 else shifted_index - 1 in
      let level = max_depth - (31 - leading_zeros 32 node_idx) in
      let empty_here = empty_node_cached hashv level (replicate 30 empty) in
      let round = in_range (get_elem? canopy cached_idx) >>= λ cached.
      let canopy' = if cached == empty then set canopy cached_idx empty_here else canopy in
      let inferred = if cached == empty then empty_here else cached in
      climb fuel max_depth (node_idx / 2) canopy' >>= λ (canopy'', nodes).
      done (canopy'', inferred ∷ nodes) in
      if ltb 1 node_idx then round else done (canopy, [])

  -- `node_idx` is a `u32`, of which the climb takes at most 32 rounds.
  unfoldable pub fill_in_proof_from_canopy :
      CanopyBytes → ℕ → ℕ → List Node → Checked (CanopyBytes × List Node)
  unfolding climb
  fill_in_proof_from_canopy canopy max_depth index proof = do
    check_canopy_bytes canopy
    path_len ← get_cached_path_length canopy.nodes max_depth
    let node_idx = shr (2 ^ max_depth + index) (max_depth - path_len)
    let found = climb 33 max_depth node_idx canopy.nodes
    if leb (2 ^ 32) (2 ^ max_depth + index)
        then panic
        else found >>= λ (nodes, inferred).
            done (record canopy { nodes = nodes }, proof ++ inferred)
