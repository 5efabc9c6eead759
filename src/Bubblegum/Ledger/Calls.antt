-- ===== src/Bubblegum/Ledger/Calls.antt =====
-- Any sequence of instructions on a new tree.
use candyland.Prelude.{
  ℕ, ◌+◌, ◌^◌, ◌<◌, ◌≤◌, ◌≡◌, ◌≢◌, refl, ap, subst, none, List, replicate, done, done-injective,
  >>=-eq-done, require, ◌==◌, ◌&&◌,
}
use candyland.Cmt.Node.{Node, empty}
use candyland.Cmt.Utils.Sound.{IsCollisionFree}
use candyland.Cmt.Roll
use candyland.Cmt.History.{History}
use candyland.Cmt.History.Initialized.{beginning}
use candyland.Gummyroll.Program.{init_empty_gummyroll}
use candyland.Gummyroll.Program.Initialized.{init_empty_gummyroll_lem}
use candyland.Bubblegum.Metadata.{MetadataArgs}
use candyland.Bubblegum.Schema.{Hashes}
use candyland.Bubblegum.Program.{
  Slab, Emitted, AccountInfo, Checked, Returned, call, constraint_zero, uninitialized, signed,
  create_tree, mint_v1, transfer, delegate, burn,
}
use candyland.Bubblegum.Redeem.{redeem, cancel_redeem}
use candyland.Bubblegum.Decompress.{TokenAccounts, TokenCall, decompress_v1}
use candyland.Bubblegum.Ledger.{Ledger, absent, IsSlab}
use candyland.Bubblegum.Ledger.Moves.{
  Move, Mints, Transfers, Delegates, Burns, Redeems, Cancels, Decompresses,
}
use candyland.Bubblegum.Ledger.Changed.{call-eq-done}
use candyland.Bubblegum.Ledger.Moved.{IsStep, transfer-IsStep, delegate-IsStep, burn-IsStep}
use candyland.Bubblegum.Ledger.Vouched.{redeem-IsStep, cancel_redeem-IsStep, decompress_v1-IsStep}
use candyland.Bubblegum.Ledger.Minted.{mint_v1-IsStep}

-- What a caller gives for a leaf: the accounts of its proof, root, hashes, nonce and index.
pub record Given : Type 0 where
  pub accounts : List Node
  pub root : Node
  pub data_hash : Node
  pub creator_hash : Node
  pub nonce : ℕ
  pub index : ℕ

pub data Call : Type 0 where
  mints : AccountInfo → ℕ → ℕ → MetadataArgs → Call
  transfers : AccountInfo → AccountInfo → ℕ → Given → Call
  delegates : AccountInfo → ℕ → ℕ → Given → Call
  burns : AccountInfo → AccountInfo → Given → Call
  redeems : AccountInfo → ℕ → Given → Call
  cancels : AccountInfo → ℕ → List Node → Node → Call
  decompresses : AccountInfo → ℕ → TokenAccounts → MetadataArgs → Call

-- What the call is meant to do to the ledger of a slab.
abbrev pub meaning : Hashes → Slab → Call → Move
meaning hs s (mints minter owner delegate message) = Mints hs s minter owner delegate message
meaning hs s (transfers o d n g) = Transfers hs s o d n g.nonce g.data_hash g.creator_hash g.index
meaning hs s (delegates o d n g) = Delegates hs s o d n g.nonce g.data_hash g.creator_hash g.index
meaning hs s (burns o d g) = Burns hs s o d g.nonce g.data_hash g.creator_hash g.index
meaning hs s (redeems o d g) = Redeems hs s o d g.nonce g.data_hash g.creator_hash g.index
meaning hs s (cancels o nonce accounts root) = Cancels hs s o nonce
meaning hs s (decompresses o nonce accounts metadata) = Decompresses hs s o nonce metadata

-- The leaf that a caller names is inside a tree of the depth.
abbrev pub Inside : ℕ → Call → Type 0
Inside depth (mints _ _ _ _) = Unit {0}
Inside depth (transfers _ _ _ g) = g.index < 2 ^ depth
Inside depth (delegates _ _ _ g) = g.index < 2 ^ depth
Inside depth (burns _ _ g) = g.index < 2 ^ depth
Inside depth (redeems _ _ g) = g.index < 2 ^ depth
Inside depth (cancels _ _ _ _) = Unit {0}
Inside depth (decompresses _ _ _ _) = Unit {0}

module _ (hashes : Hashes) (invoke : TokenCall → Checked (Unit {0})) where
  abbrev pub run : Slab → Call → Returned
  run s (mints minter owner delegate message) = mint_v1 hashes s minter owner delegate message
  run s (transfers o d n g) =
      transfer hashes s o d n g.accounts g.root g.data_hash g.creator_hash g.nonce g.index
  run s (delegates o d n g) =
      delegate hashes s o d n g.accounts g.root g.data_hash g.creator_hash g.nonce g.index
  run s (burns o d g) =
      burn hashes s o d g.accounts g.root g.data_hash g.creator_hash g.nonce g.index
  run s (redeems o d g) =
      redeem hashes s o d g.accounts g.root g.data_hash g.creator_hash g.nonce g.index
  run s (cancels o nonce accounts root) = cancel_redeem hashes s o nonce accounts root
  run s (decompresses o nonce accounts metadata) =
      decompress_v1 hashes invoke s o nonce accounts metadata

  -- The slabs after calls that returned.
  pub data Reached (start : Slab) : Slab → Type 0 where
    here : Reached start start
    after :
        {slab : Slab} {out : Slab × List Emitted}
        → Reached start slab
        → (c : Call) → Inside slab.account.header.max_depth c
        → run slab c ≡ done out
        → Reached start out.0

  module _ (free : IsCollisionFree hashes.node) (nonzero : (x y : Node) → hashes.node x y ≢ empty)
      (leaf_free : (xs ys : List ℕ) → hashes.leaf xs ≡ hashes.leaf ys → xs ≡ ys)
      (leaf_nonzero : (xs : List ℕ) → hashes.leaf xs ≢ empty) where
    -- For hashes without collisions that are never zero, on accounts that are those of a ledger
    -- of assets, and any call for a leaf inside the tree: if the call returns, the ledger moved
    -- at one place as this call's arguments ask (`meaning`: the asset before it with the named
    -- owner, delegate, nonce and hashes, the one after it with the new ones, or a voucher's), the
    -- ones it names had signed, and the accounts are those of the ledger after that move.
    pub run-IsStep :
        (b p : ℕ) (slab : Slab) (h : History) (ledger : Ledger)
        → IsSlab hashes b p slab h ledger
        → (c : Call) → Inside slab.account.header.max_depth c
        → {out : Slab × List Emitted} → run slab c ≡ done out
        → IsStep hashes b p (meaning hashes slab c) slab ledger out.0
    run-IsStep b p slab h ledger ok (mints minter o d m) inside e =
        mint_v1-IsStep hashes free nonzero b p slab h ledger ok minter o d m e
    run-IsStep b p slab h ledger ok (transfers o d n g) inside e =
        transfer-IsStep hashes free nonzero leaf_free leaf_nonzero b p slab h ledger ok g.accounts
          g.root g.data_hash g.creator_hash g.nonce g.index inside o d n e
    run-IsStep b p slab h ledger ok (delegates o d n g) inside e =
        delegate-IsStep hashes free nonzero leaf_free leaf_nonzero b p slab h ledger ok g.accounts
          g.root g.data_hash g.creator_hash g.nonce g.index inside o d n e
    run-IsStep b p slab h ledger ok (burns o d g) inside e =
        burn-IsStep hashes free nonzero leaf_free leaf_nonzero b p slab h ledger ok g.accounts
          g.root g.data_hash g.creator_hash g.nonce g.index inside o d e
    run-IsStep b p slab h ledger ok (redeems o d g) inside e =
        redeem-IsStep hashes b p slab h ledger ok free nonzero leaf_free leaf_nonzero o d g.accounts
          g.root g.data_hash g.creator_hash g.nonce g.index inside e
    run-IsStep b p slab h ledger ok (cancels o nonce accounts root) inside e =
        cancel_redeem-IsStep hashes b p slab h ledger ok free nonzero o nonce accounts root e
    run-IsStep b p slab h ledger ok (decompresses o nonce accounts metadata) inside e =
        decompress_v1-IsStep hashes b p slab h ledger ok invoke o nonce accounts metadata e

    -- For hashes without collisions that are never zero, and any calls that returned, in any
    -- order and for leaves inside the tree, on accounts that are those of a ledger: the accounts
    -- still are those of a ledger, in which each asset is in the tree at its nonce, or in the one
    -- voucher for its nonce, or in neither.
    pub Reached-IsSlab :
        (b p : ℕ) (start : Slab) (h : History) (ledger : Ledger)
        → IsSlab hashes b p start h ledger
        → {slab : Slab} → Reached start slab
        → (h' : History) × (ledger' : Ledger) × IsSlab hashes b p slab h' ledger'
    Reached-IsSlab b p start h ledger ok here = (h, ledger, ok)
    Reached-IsSlab b p start h ledger ok (after {slab} reached c inside e) =
        let (h', ledger', ok') = Reached-IsSlab b p start h ledger ok reached in
        let (i, holding, h'', _, ok'') = run-IsStep b p slab h' ledger' ok' c inside e in
        (h'', _, ok'')

abbrev pub no_assets : Ledger
no_assets i = absent

module _ (hashes : Hashes) (slab : Slab) (payer tree_creator : AccountInfo)
    (slot max_depth max_buffer_size : ℕ) where
  -- For an account with a zeroed roll and canopy, as large as the `p` rows below the root of the
  -- tree, and without vouchers: if create_tree returns, the accounts are those of the ledger
  -- without assets, and the creator is the one who may mint.
  pub create_tree-IsSlab :
      (p n : ℕ) {out : Slab × List Emitted}
      → slab.account.roll ≡ Roll.new max_depth max_buffer_size
      → n + 2 ≡ 2 ^ (p + 1)
      → p ≤ max_depth
      → slab.account.canopy ≡ record { nodes = replicate n empty; spare = 0 }
      → ((i : ℕ) → slab.vouchers i ≡ none)
      → create_tree hashes slab payer tree_creator slot max_depth max_buffer_size ≡ done out
      → (b : ℕ) × IsSlab hashes b p out.0 beginning no_assets
        × (out.0.account.header.append_authority ≡ tree_creator.key)
  unfolding create_tree beginning
  create_tree-IsSlab p n {out} new sized held unset no_vouchers e =
      let (_, _, e1) = >>=-eq-done (uninitialized slab.authority) _ e in
      let (_, _, e2) = >>=-eq-done (signed payer) _ e1 in
      let (_, _, e3) = >>=-eq-done (signed tree_creator) _ e2 in
      let header = slab.account.header in
      let (_, _, e4) =
        >>=-eq-done
          (require ((header.max_buffer_size == 0) && (header.max_depth == 0)) constraint_zero) _
          e3 in
      let init =
        init_empty_gummyroll hashes.node slab.account max_depth max_buffer_size
          (hashes.authority slab.account.id) tree_creator.key slot in
      let (changed, called, e5) = >>=-eq-done (call init) _ e4 in
      let (b, kept, headed, key) =
        init_empty_gummyroll_lem hashes.node slab.account max_depth max_buffer_size
          (hashes.authority slab.account.id) tree_creator.key slot p n new sized held unset
          (call-eq-done init called) in
      subst
        (λ (o : Slab × List Emitted).
          (b : ℕ) × IsSlab hashes b p o.0 beginning no_assets
          × (o.0.account.header.append_authority ≡ tree_creator.key))
        (done-injective e5)
        (
          b,
          record {
            kept = kept;
            counted = refl;
            leaves = λ i. refl;
            vouchers = no_vouchers;
            belongs = λ i s is. cc;
          },
          ap (λ hd. hd.append_authority) headed,
        )
