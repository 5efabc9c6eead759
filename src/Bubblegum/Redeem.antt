-- ===== src/Bubblegum/Redeem.antt =====
-- lib.rs of bubblegum: a leaf leaves the tree for a voucher, and comes back from it.
use candyland.Prelude.{
  ℕ, Option, none, some, List, [], ◌∷◌, ◌==◌, if◌then◌else◌, done, require, ◌>>=◌, ◌>>◌,
}
use candyland.Cmt.Node.{Node, empty}
use candyland.Bubblegum.Schema.{new_v0, Voucher, new, Hashes, to_node, to_event, get_asset_id}
use candyland.Bubblegum.Program.{
  asset_owner_mismatch, bubblegum, constraint_seeds, Checked, AccountInfo, leaf, wrapped_leaf,
  wrapped_node, Slab, Returned, signed, initialized, uninitialized, assert_pubkey_equal,
  replace_leaf,
}

-- The account of the voucher for a nonce is written, or closed.
unfoldable pub set_voucher : (ℕ → Option Voucher) → ℕ → Option Voucher → ℕ → Option Voucher
set_voucher vouchers nonce voucher n = if n == nonce then voucher else vouchers n

-- A voucher that stands at the address for its nonce.
unfoldable pub voucher_at : Slab → ℕ → Checked Voucher
voucher_at slab nonce = do
  voucher ← initialized (slab.vouchers nonce)
  require (voucher.leaf_schema.nonce == nonce) constraint_seeds
  done voucher

module _ (hashes : Hashes) where
  unfoldable pub redeem : Slab → AccountInfo → ℕ → List Node → Node → Node → Node → ℕ → ℕ → Returned
  unfolding replace_leaf to_node to_event get_asset_id set_voucher
  redeem slab owner delegate remaining_accounts root data_hash creator_hash nonce index = do
    _ ← initialized slab.authority
    signed owner
    uninitialized (slab.vouchers nonce)
    let asset_id = get_asset_id hashes slab.account.id nonce
    let previous_leaf = new_v0 asset_id owner.key delegate nonce data_hash creator_hash
    (slab', emitted) ←
        replace_leaf hashes slab (leaf (to_event hashes previous_leaf) ∷ wrapped_node empty ∷ [])
          remaining_accounts root (to_node hashes previous_leaf) empty index
    let voucher = new previous_leaf index slab.account.id
    done (record slab' { vouchers = set_voucher slab'.vouchers nonce (some voucher) }, emitted)

  unfoldable pub cancel_redeem : Slab → AccountInfo → ℕ → List Node → Node → Returned
  unfolding replace_leaf to_node to_event set_voucher voucher_at assert_pubkey_equal
  cancel_redeem slab owner nonce remaining_accounts root = do
    _ ← initialized slab.authority
    voucher ← voucher_at slab nonce
    signed owner
    let schema = voucher.leaf_schema
    assert_pubkey_equal owner.key schema.owner (some (bubblegum asset_owner_mismatch))
    (slab', emitted) ←
        replace_leaf hashes slab (leaf (to_event hashes schema) ∷ wrapped_leaf schema ∷ [])
          remaining_accounts root 0 (to_node hashes schema) voucher.index
    done (record slab' { vouchers = set_voucher slab'.vouchers nonce none }, emitted)
