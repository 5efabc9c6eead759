-- ===== src/Gummyroll/Event.antt =====
-- state/mod.rs of gummyroll: what is emitted for each change of the tree.
use candyland.Prelude.{ℕ, suc, ◌+◌, ◌-◌, ◌^◌, List, [], ◌∷◌, ◌++◌, length, shr}
use candyland.Cmt.Node.{Node}
use candyland.Cmt.ChangeLog.{ChangeLog}

pub record PathNode : Type 0 where
  pub node : Node
  pub index : ℕ

pub record ChangeLogEvent : Type 0 where
  pub id : ℕ
  pub path : List PathNode
  pub seq : ℕ
  pub index : ℕ

-- The nodes of a path of `path_len` levels from `lvl` up, numbered from the root, which is 1.
unfoldable pub path_nodes : ℕ → ℕ → ℕ → List Node → List PathNode
path_nodes path_len index lvl [] = []
path_nodes path_len index lvl (n ∷ path) =
    let own : PathNode = record { node = n; index = 2 ^ (path_len - lvl) + shr index lvl } in
    own ∷ path_nodes path_len index (suc lvl) path

-- `From<(Box<ChangeLog>, Pubkey, u64)>`
unfoldable pub from_log : ChangeLog → ℕ → ℕ → ChangeLogEvent
from_log changelog tree_id seq =
    let top : PathNode = record { node = changelog.root; index = 1 } in
    record {
      id = tree_id;
      path = path_nodes (length changelog.path) changelog.index 0 changelog.path ++ (top ∷ []);
      seq = seq;
      index = changelog.index;
    }
