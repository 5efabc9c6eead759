-- ===== src/Bubblegum/Ledger.antt =====
-- What the accounts of a tree stand for: a ledger of assets. Each is in the tree, in a voucher, or
-- neither, and the instructions move it between the two.
pub mod Moves
pub mod Leaf
pub mod Changed
pub mod Moved
pub mod Vouched
pub mod Minted
pub mod Calls
use candyland.Prelude.{ℕ, ◌<◌, ◌≡◌, Option, none, some}
use candyland.Cmt.Node.{Node, empty}
use candyland.Cmt.History.{History}
use candyland.Gummyroll.Program.Store.{IsAccountOf}
use candyland.Bubblegum.Schema.{LeafSchema, Voucher, new, Hashes, to_node, get_asset_id}
use candyland.Bubblegum.Program.{Slab}

pub data Holding : Type 0 where
  absent : Holding
  compressed redeemed : LeafSchema → Holding

abbrev pub Ledger : Type 0
Ledger = ℕ → Holding

abbrev pub schema_of : Holding → Option LeafSchema
schema_of absent = none
schema_of (compressed s) = some s
schema_of (redeemed s) = some s

abbrev pub voucher_of : ℕ → ℕ → Holding → Option Voucher
voucher_of id i absent = none
voucher_of id i (compressed s) = none
voucher_of id i (redeemed s) = some (record { leaf_schema = s; index = i; merkle_slab = id })

module _ (hashes : Hashes) where
  abbrev pub leaf_of : Holding → Node
  leaf_of absent = empty
  leaf_of (compressed s) = to_node hashes s
  leaf_of (redeemed s) = empty

  -- The asset that nonce `i` was minted for, out of `count`.
  pub record Belongs (id i count : ℕ) (s : LeafSchema) : Type 0 where
    pub nonced : s.nonce ≡ i
    pub named : s.id ≡ get_asset_id hashes id i
    pub minted : i < count

  -- Roll and canopy are those of a tree whose leaves are the assets in it, the vouchers are for those
  -- taken out of it, and the count is that of the minted assets.
  pub record IsSlab (b p : ℕ) (slab : Slab) (h : History) (ledger : Ledger) : Type 0 where
    pub kept : IsAccountOf hashes.node b p slab.account h
    pub counted : slab.authority ≡ some h.end
    pub leaves : (i : ℕ) → h.past 0 i ≡ leaf_of (ledger i)
    pub vouchers : (i : ℕ) → slab.vouchers i ≡ voucher_of slab.account.id i (ledger i)
    pub belongs :
        (i : ℕ) (s : LeafSchema) → schema_of (ledger i) ≡ some s → Belongs slab.account.id i h.end s
