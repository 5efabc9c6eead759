-- ===== src/Bubblegum/Schema.antt =====
-- state/leaf_schema.rs and state/mod.rs of bubblegum: what a leaf stands for, and the voucher for one
-- that was taken out of the tree.
use candyland.Prelude.{ℕ, List, [], ◌∷◌}
use candyland.Cmt.Node.{Node}
use candyland.Bubblegum.Metadata.{MetadataArgs}

pub data Version : Type 0 where
  v1 : Version

unfoldable pub to_bytes : Version → ℕ
to_bytes v1 = 1

-- `LeafSchema::V1`, the only variant.
pub record LeafSchema : Type 0 where
  pub id : ℕ
  pub owner : ℕ
  pub delegate : ℕ
  pub nonce : ℕ
  pub data_hash : Node
  pub creator_hash : Node

unfoldable pub new_v0 : ℕ → ℕ → ℕ → ℕ → Node → Node → LeafSchema
new_v0 id owner delegate nonce data_hash creator_hash = record {
  id = id;
  owner = owner;
  delegate = delegate;
  nonce = nonce;
  data_hash = data_hash;
  creator_hash = creator_hash;
}

unfoldable pub version : LeafSchema → Version
version self = v1

pub record LeafSchemaEvent : Type 0 where
  pub version : Version
  pub schema : LeafSchema
  pub leaf_hash : Node

pub record Voucher : Type 0 where
  pub leaf_schema : LeafSchema
  pub index : ℕ
  pub merkle_slab : ℕ

unfoldable pub new : LeafSchema → ℕ → ℕ → Voucher
new leaf_schema index merkle_slab = record {
  leaf_schema = leaf_schema;
  index = index;
  merkle_slab = merkle_slab;
}

pub record NewNftEvent : Type 0 where
  pub version : Version
  pub metadata : MetadataArgs
  pub nonce : ℕ

pub record NftDecompressionEvent : Type 0 where
  pub version : Version
  pub id : ℕ
  pub tree_id : ℕ
  pub nonce : ℕ

-- keccak over the fields of a leaf, each of a fixed width; over a metadata's serialization; and over
-- the creators' addresses and shares. `asset` and `authority` are the addresses that the runtime
-- derives from a tree's key and a nonce, and from a tree's key.
pub record Hashes : Type 0 where
  pub node : Node → Node → Node
  pub leaf : List ℕ → Node
  pub metadata : MetadataArgs → Node
  pub creators : List (ℕ × ℕ) → Node
  pub asset : ℕ → ℕ → ℕ
  pub authority : ℕ → ℕ

module _ (hashes : Hashes) where
  unfoldable pub to_node : LeafSchema → Node
  unfolding to_bytes version
  to_node self = hashes.leaf (
      to_bytes (version self)
      ∷ self.id
      ∷ self.owner
      ∷ self.delegate
      ∷ self.nonce
      ∷ self.data_hash
      ∷ self.creator_hash
      ∷ [])

  unfoldable pub to_event : LeafSchema → LeafSchemaEvent
  unfolding to_node version
  to_event self = record { version = version self; schema = self; leaf_hash = to_node self }

  unfoldable pub get_asset_id : ℕ → ℕ → ℕ
  get_asset_id tree_id nonce = hashes.asset tree_id nonce
