-- ===== src/Cmt/History/Reach.antt =====
-- Every roll that calls can lead to.
use candyland.Prelude.{
  ℕ, pow_pos, ◌^◌, ◌≤◌, ◌<◌, ◌≡◌, refl, sym, subst, ◌∙◌, List, done, done-injective, inl, inr,
}
use candyland.Cmt.Node.{Node}
use candyland.Cmt.Utils.Sound.{IsCollisionFree}
use candyland.Cmt.Roll.{MerkleRoll, get_change_log, new}
use candyland.Cmt.Append.{append}
use candyland.Cmt.Api.{initialize, set_leaf, fill_empty_or_append}
use candyland.Cmt.ChangeLog.{ChangeLog}
use candyland.Cmt.ChangeLog.Patch.{log_of}
use candyland.Cmt.History.{History, IsRollOf, advance}
use candyland.Cmt.History.Initialized.{beginning, initialize_lem}
use candyland.Cmt.History.Checked.{current_log}
use candyland.Cmt.History.SetLeaf.{set_leaf_sound}
use candyland.Cmt.History.Appended.{append_sound}
use candyland.Cmt.History.Calls.{fill_empty_or_append_sound}
use candyland.Tree.{root_of}

module _ (hashv : Node → Node → Node) (depth b : ℕ) where
  -- The calls that were made and returned, from a new roll on: the root that the last returned, and
  -- the roll. The arguments are any that a caller may choose, of leaves inside the tree.
  pub data Reached : Node × MerkleRoll → Type 0 where
    begun :
        {out : Node × MerkleRoll}
        → initialize depth (2 ^ b) hashv (new depth (2 ^ b)) ≡ done out
        → Reached out
    leaf_set :
        {out out' : Node × MerkleRoll}
        → Reached out
        → (root leaf v : Node) (proof : List Node) (i : ℕ) → i < 2 ^ depth
        → set_leaf depth (2 ^ b) hashv out.1 root leaf v proof i ≡ done out'
        → Reached out'
    appended :
        {out out' : Node × MerkleRoll}
        → Reached out
        → (v : Node) → append depth (2 ^ b) hashv out.1 v ≡ done out'
        → Reached out'
    filled :
        {out out' : Node × MerkleRoll}
        → Reached out
        → (root v : Node) (proof : List Node) (i : ℕ) → i < 2 ^ depth
        → fill_empty_or_append depth (2 ^ b) hashv out.1 root v proof i ≡ done out'
        → Reached out'

  -- The roll tells a history, and what was returned last is the root of its tree.
  abbrev Stands : Node × MerkleRoll → Type 0
  Stands out =
      (h : History) × IsRollOf hashv depth b out.1 h × (out.0 ≡ root_of hashv depth (h.past 0))

module _ (hashv : Node → Node → Node) (free : IsCollisionFree hashv) (depth b : ℕ) (pos : 1 ≤ depth)
    (shallow : depth < 31) (words : b ≤ 32) where
  reached : {out : Node × MerkleRoll} → Reached hashv depth b out → Stands hashv depth b out
  unfolding advance
  reached (begun {out} e) =
      let (made, rolls) = initialize_lem hashv depth b shallow words in
      subst (Stands hashv depth b) (done-injective (sym made ∙ e))
        (beginning, rolls, unfold beginning in refl)
  reached (leaf_set before root leaf v proof i pi e) =
      let (h, ok, _) = reached before in
      let (_, is_root, rolls) =
        set_leaf_sound hashv free depth b pos shallow words _ h ok i pi root leaf v proof e in
      (advance i v h, rolls, is_root)
  reached (appended {out} before v e) =
      let (h, ok, _) = reached before in
      let (_, _, is_root, rolls) = append_sound hashv free depth b pos shallow words _ h ok v e in
      (advance out.1.rightmost_proof.index v h, rolls, is_root)
  reached (filled {out} before root v proof i pi e) =
      let (h, ok, _) = reached before in
      elim (fill_empty_or_append_sound hashv free depth b pos shallow words _ h ok i pi v root proof
        e) [
          | inl (_, is_root, rolls) ↦ (advance i v h, rolls, is_root)
          | inr (_, _, is_root, rolls) ↦ (advance out.1.rightmost_proof.index v h, rolls, is_root)
        ]

  -- For a hash without collisions, a depth from 1 to 30 and a buffer of 2 ^ b places: after
  -- initialize on a new roll, and then any calls of set_leaf, append and fill_empty_or_append
  -- that returned, in any order and with any arguments for leaves inside the tree, the roll tells
  -- a history of the tree, the root that the last call returned is the tree's, and the current
  -- log holds it.
  pub reached_lem :
      {out : Node × MerkleRoll}
      → Reached hashv depth b out
      → ((h : History) × IsRollOf hashv depth b out.1 h × (out.0 ≡ root_of hashv depth (h.past 0)))
        × ((log : ChangeLog) × (get_change_log depth (2 ^ b) out.1 ≡ done log) × (log.root ≡ out.0))
  reached_lem {out} calls =
      let (h, ok, is_root) = reached calls in
      (
        (h, ok, is_root),
        (
          log_of hashv depth (h.past 0) (h.changed 0),
          current_log hashv free depth b out.1 h ok.tells 0 (pow_pos depth),
          sym is_root,
        ),
      )
