-- ===== src/Bubblegum/Program.antt =====
-- lib.rs of bubblegum: the accounts of one tree, and the instructions that create it and that mint and
-- change its leaves. Checks on accounts that the framework makes from their declarations come first.
use candyland.Prelude.{
  ℕ, ◌+◌, ◌-◌, ◌^◌, min, Bool, ◌&&◌, ◌||◌, Option, none, some, List, [], ◌∷◌, ◌++◌, map, ◌==◌,
  Outcome, done, err, panic, diverge, assert, require, ◌>>=◌, ◌>>◌,
}
use candyland.Cmt.Node.{Node, empty}
use candyland.Gummyroll.Canopy.{GummyrollError}
use candyland.Gummyroll.Canopy
use candyland.Gummyroll.Event.{ChangeLogEvent}
use candyland.Gummyroll.Program
use candyland.Gummyroll.Program.{Account, init_empty_gummyroll}
use candyland.Bubblegum.Metadata.{MetadataArgs, Creator}
use candyland.Bubblegum.Schema.{
  v1, LeafSchema, new_v0, LeafSchemaEvent, Voucher, NewNftEvent, NftDecompressionEvent, Hashes,
  to_node, to_event, get_asset_id,
}

pub data BubblegumError : Type 0 where
  asset_owner_mismatch public_key_mismatch hashing_mismatch : BubblegumError
  unsupported_schema_version : BubblegumError

-- What an instruction can fail with: an error of its own, one of the called gummyroll, one of the
-- runtime's, or a failed check on an account.
pub data Fault : Type 0 where
  bubblegum : BubblegumError → Fault
  gummyroll : GummyrollError → Fault
  invalid_argument : Fault
  not_signed already_in_use not_initialized constraint_seeds constraint_zero : Fault

abbrev pub Checked : Type 0 → Type 0
Checked A = Outcome Fault A

-- An account that is passed to an instruction.
pub record AccountInfo : Type 0 where
  pub key : ℕ
  pub is_signer : Bool

-- What is emitted, or wrapped in a call of candy_wrapper.
pub data Emitted : Type 0 where
  new_nft : NewNftEvent → Emitted
  leaf : LeafSchemaEvent → Emitted
  decompressed : NftDecompressionEvent → Emitted
  change_log : ChangeLogEvent → Emitted
  wrapped_nft : NewNftEvent → Emitted
  wrapped_leaf : LeafSchema → Emitted
  wrapped_node : Node → Emitted

-- The accounts of one tree: gummyroll's, the authority's with the count of minted leaves, and the
-- vouchers, each at the address for the nonce of its leaf.
pub record Slab : Type 0 where
  pub account : Account
  pub authority : Option ℕ
  pub vouchers : ℕ → Option Voucher

abbrev pub Returned : Type 0
Returned = Checked (Slab × List Emitted)

-- `Signer<'info>`
abbrev pub signed : AccountInfo → Checked (Unit {0})
signed info = require info.is_signer not_signed

-- `Account<'info, _>`
abbrev pub initialized : {A : Type 0} → Option A → Checked A
initialized none = err not_initialized
initialized (some a) = done a

-- `init`
abbrev pub uninitialized : {A : Type 0} → Option A → Checked (Unit {0})
uninitialized none = done tt
uninitialized (some a) = err already_in_use

-- An error of gummyroll ends the transaction.
unfoldable pub call : {A : Type 0} → Canopy.Checked A → Checked A
call (done a) = done a
call (err e) = err (gummyroll e)
call panic = panic
call diverge = diverge

unfoldable pub cmp_pubkeys : ℕ → ℕ → Bool
cmp_pubkeys a b = a == b

unfoldable pub assert_pubkey_equal : ℕ → ℕ → Option Fault → Checked (Unit {0})
unfolding cmp_pubkeys
assert_pubkey_equal a b none = require (cmp_pubkeys a b) (bubblegum public_key_mismatch)
assert_pubkey_equal a b (some error) = require (cmp_pubkeys a b) error

-- The slab after gummyroll's call.
abbrev pub stored : Slab → List Emitted → Account × ChangeLogEvent → Slab × List Emitted
stored slab emitted (account, event) =
    (record slab { account = account }, emitted ++ (change_log event ∷ []))

-- The address and the share of each creator, hashed.
abbrev pub share_of : Creator → ℕ × ℕ
share_of c = (c.address, c.share)

module _ (hashes : Hashes) where
  -- gummyroll's replace_leaf, signed by the authority of the tree.
  unfoldable pub replace_leaf : Slab → List Emitted → List Node → Node → Node → Node → ℕ → Returned
  unfolding call
  replace_leaf slab emitted remaining_accounts root_node previous_leaf new_leaf index =
      call (
        Program.replace_leaf hashes.node slab.account (hashes.authority slab.account.id) root_node
          previous_leaf new_leaf index remaining_accounts)
      >>= λ changed. done (stored slab emitted changed)

  -- gummyroll's append, signed by the authority of the tree and by the one who mints.
  unfoldable pub append_leaf : Slab → List Emitted → ℕ → Node → Returned
  unfolding call
  append_leaf slab emitted append_authority leaf_node =
      call (
        Program.append hashes.node slab.account (hashes.authority slab.account.id) append_authority
          leaf_node)
      >>= λ changed. done (stored slab emitted changed)

  unfoldable pub create_tree : Slab → AccountInfo → AccountInfo → ℕ → ℕ → ℕ → Returned
  unfolding call
  create_tree slab payer tree_creator slot max_depth max_buffer_size = do
    uninitialized slab.authority
    signed payer
    signed tree_creator
    let header = slab.account.header
    require ((header.max_buffer_size == 0) && (header.max_depth == 0)) constraint_zero
    changed ← call (
        init_empty_gummyroll hashes.node slab.account max_depth max_buffer_size
          (hashes.authority slab.account.id) tree_creator.key slot)
    done (stored (record slab { authority = some 0 }) [] changed)

  unfoldable pub mint_v1 : Slab → AccountInfo → ℕ → ℕ → MetadataArgs → Returned
  unfolding append_leaf to_node to_event get_asset_id
  mint_v1 slab mint_authority owner delegate message = do
    signed mint_authority
    count ← initialized slab.authority
    let data_hash = hashes.metadata message
    let creator_hash = hashes.creators (map share_of message.creators)
    let asset_id = get_asset_id hashes slab.account.id count
    let minted = new_v0 asset_id owner delegate count data_hash creator_hash
    let nft : NewNftEvent = record { version = v1; metadata = message; nonce = count }
    append_leaf (record slab { authority = some (min (count + 1) (2 ^ 64 - 1)) })
        (new_nft nft ∷ wrapped_nft nft ∷ leaf (to_event hashes minted) ∷ []) mint_authority.key
        (to_node hashes minted)

  unfoldable pub transfer :
      Slab → AccountInfo → AccountInfo → ℕ → List Node → Node → Node → Node → ℕ → ℕ → Returned
  unfolding replace_leaf to_node to_event get_asset_id
  transfer slab owner delegate new_owner remaining_accounts root data_hash creator_hash nonce
        index =
      do
        _ ← initialized slab.authority
        assert (owner.is_signer || delegate.is_signer)
        let asset_id = get_asset_id hashes slab.account.id nonce
        let previous_leaf = new_v0 asset_id owner.key delegate.key nonce data_hash creator_hash
        let new_leaf = new_v0 asset_id new_owner new_owner nonce data_hash creator_hash
        replace_leaf slab (leaf (to_event hashes new_leaf) ∷ []) remaining_accounts root
            (to_node hashes previous_leaf) (to_node hashes new_leaf) index

  unfoldable pub delegate :
      Slab → AccountInfo → ℕ → ℕ → List Node → Node → Node → Node → ℕ → ℕ → Returned
  unfolding replace_leaf to_node to_event get_asset_id
  delegate slab owner previous_delegate new_delegate remaining_accounts root data_hash creator_hash
        nonce index =
      do
        _ ← initialized slab.authority
        signed owner
        let asset_id = get_asset_id hashes slab.account.id nonce
        let previous_leaf = new_v0 asset_id owner.key previous_delegate nonce data_hash creator_hash
        let new_leaf = new_v0 asset_id owner.key new_delegate nonce data_hash creator_hash
        replace_leaf slab (wrapped_leaf new_leaf ∷ leaf (to_event hashes new_leaf) ∷ [])
            remaining_accounts root (to_node hashes previous_leaf) (to_node hashes new_leaf) index

  unfoldable pub burn :
      Slab → AccountInfo → AccountInfo → List Node → Node → Node → Node → ℕ → ℕ → Returned
  unfolding replace_leaf to_node to_event get_asset_id
  burn slab owner delegate remaining_accounts root data_hash creator_hash nonce index = do
    _ ← initialized slab.authority
    assert (owner.is_signer || delegate.is_signer)
    let asset_id = get_asset_id hashes slab.account.id nonce
    let previous_leaf = new_v0 asset_id owner.key delegate.key nonce data_hash creator_hash
    replace_leaf slab (leaf (to_event hashes previous_leaf) ∷ wrapped_node empty ∷ [])
        remaining_accounts root (to_node hashes previous_leaf) empty index
