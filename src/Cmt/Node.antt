-- ===== src/Cmt/Node.antt =====
-- `Node` and `EMPTY` (state.rs), `CMTError` (error.rs).
use candyland.Prelude.{ℕ, Outcome}

-- `[u8; 32]`, as the number whose bytes these are. Nodes are compared and hashed, and nothing else.
abbrev pub Node : Type 0
Node = ℕ

abbrev pub empty : Node
empty = 0

pub data CmtError : Type 0 where
  leaf_index_out_of_bounds invalid_proof cannot_append_empty_node tree_full : CmtError
  tree_already_initialized invalid_node_byte_length root_not_found : CmtError
  leaf_contents_modified : CmtError

abbrev pub Result : Type 0 → Type 0
Result A = Outcome CmtError A
