-- ===== src/SugarShack/Market.antt =====
-- lib.rs and state/mod.rs of sugar-shack: the instructions of the marketplace.
use candyland.Prelude.{
  ℕ, Bool, true, Option, none, some, List, [], ◌∷◌, ◌++◌, length, take, drop, put_at, leb, ◌==◌,
  Outcome, done, err, panic, diverge, assert, require, ◌>>=◌, ◌>>◌,
}
use candyland.Cmt.Node.{Node}
use candyland.Bubblegum.Schema.{Hashes}
use candyland.Bubblegum.Program
use candyland.Bubblegum.Program.{AccountInfo, Fault, Slab, Emitted, delegate, transfer}
use candyland.Gummyroll.Program.{or_else}
use candyland.Gumball.Dispense.{Payment}

pub record MarketplaceProperties : Type 0 where
  pub authority : ℕ
  pub share : ℕ
  pub bump : ℕ

pub data MarketFault : Type 0 where
  bubblegum : Fault → MarketFault
  not_signed already_in_use constraint_seeds arithmetic payment_failed : MarketFault

abbrev pub Checked : Type 0 → Type 0
Checked A = Outcome MarketFault A

-- The operations of the crate solana_safe_math, the runtime's transfer of lamports and its test of
-- what an account of a size must hold, and the derived keys: of the listings at a price, and of the
-- marketplace.
pub record Runtime : Type 0 where
  pub safe_add : ℕ → ℕ → Checked ℕ
  pub safe_sub : ℕ → ℕ → Checked ℕ
  pub safe_mul : ℕ → ℕ → Checked ℕ
  pub safe_div : ℕ → ℕ → Checked ℕ
  pub pay : Payment → Checked (Unit {0})
  pub is_exempt : ℕ → ℕ → Bool
  pub listing : ℕ → ℕ
  pub marketplace : ℕ

abbrev pub signed : AccountInfo → Checked (Unit {0})
signed info = require info.is_signer not_signed

-- An error of bubblegum ends the transaction.
unfoldable pub call : {A : Type 0} → Program.Checked A → Checked A
call (done a) = done a
call (err e) = err (bubblegum e)
call panic = panic
call diverge = diverge

-- What names a leaf, with the accounts of its proof.
pub record Leaf : Type 0 where
  pub data_hash : Node
  pub creator_hash : Node
  pub nonce : ℕ
  pub index : ℕ
  pub root : Node

-- `init`: the account must not exist.
unfoldable pub initialize_marketplace :
    Option MarketplaceProperties → AccountInfo → ℕ → ℕ → ℕ → Checked MarketplaceProperties
initialize_marketplace (some props) payer royalty_share authority bump = err already_in_use
initialize_marketplace none payer royalty_share authority bump = do
  signed payer
  assert (leb royalty_share 10000)
  done (record { authority = authority; share = royalty_share; bump = bump })

unfoldable pub update_marketplace_properties :
    MarketplaceProperties → AccountInfo → Option ℕ → Option ℕ → Checked MarketplaceProperties
update_marketplace_properties props signer authority share = do
  signed signer
  assert (signer.key == props.authority)
  done (record props {
    authority = or_else authority props.authority;
    share = or_else share props.share;
  })

-- The rent's size of the marketplace's account.
abbrev pub marketplace_properties_size : ℕ
marketplace_properties_size = 43

module _ (hashes : Hashes) (runtime : Runtime) where
  unfoldable pub modify_compressed_nft_delegate :
      Slab → AccountInfo → ℕ → ℕ → List Node → Leaf → Checked (Slab × List Emitted)
  unfolding call
  modify_compressed_nft_delegate slab owner former_delegate new_delegate accounts l = call (
      delegate hashes slab owner former_delegate new_delegate accounts l.root l.data_hash
        l.creator_hash l.nonce l.index)

  unfoldable pub create_or_modify_listing :
      Slab → AccountInfo → ℕ → ℕ → ℕ → List Node → Leaf → Checked (Slab × List Emitted)
  unfolding modify_compressed_nft_delegate
  create_or_modify_listing slab owner former_delegate new_delegate price accounts l = do
    signed owner
    require (new_delegate == runtime.listing price) constraint_seeds
    modify_compressed_nft_delegate slab owner former_delegate new_delegate accounts l

  unfoldable pub remove_listing :
      Slab → AccountInfo → ℕ → ℕ → List Node → Leaf → Checked (Slab × List Emitted)
  unfolding modify_compressed_nft_delegate
  remove_listing slab owner former_delegate new_delegate accounts l = do
    signed owner
    modify_compressed_nft_delegate slab owner former_delegate new_delegate accounts l

  -- The loop over the creators' shares: what was paid to them, and the payments.
  unfoldable pub pay_creators : ℕ → ℕ → ℕ → List ℕ → List ℕ → Checked (ℕ × List Payment)
  pay_creators purchaser basis_point paid accounts [] = done (paid, [])
  pay_creators purchaser basis_point paid [] (share ∷ shares) = err payment_failed
  pay_creators purchaser basis_point paid (account ∷ accounts) (share ∷ shares) =
      runtime.safe_mul share 100 >>= λ points. runtime.safe_mul basis_point points >>= λ amount.
      let payment : Payment = record { source = purchaser; receiver = account; amount = amount } in
      runtime.pay payment >>= λ _. runtime.safe_add paid amount >>= λ paid'.
      pay_creators purchaser basis_point paid' accounts shares >>= λ (total, payments).
      done (total, payment ∷ payments)

  abbrev pub pairs_of : List ℕ → List ℕ → List (ℕ × ℕ)
  pairs_of [] shares = []
  pairs_of (account ∷ accounts) [] = []
  pairs_of (account ∷ accounts) (share ∷ shares) = (account, share) ∷ pairs_of accounts shares

  -- What a purchaser pays: the marketplace's fee, the creators' royalties, and the rest to the lister.
  -- The remaining accounts are the creators' and then those of the proof; fewer than shares panic.
  unfoldable pub pay_price : ℕ → ℕ → ℕ → List ℕ → ℕ → List ℕ → Checked (List Payment)
  unfolding pay_creators
  pay_price share purchaser former_owner remaining_accounts price creator_shares = do
    basis_point_of_price ← runtime.safe_div price 10000
    to_marketplace ← runtime.safe_mul basis_point_of_price share
    let fee : Payment = record {
      source = purchaser;
      receiver = runtime.marketplace;
      amount = to_marketplace;
    }
    runtime.pay fee
    allocation ← runtime.safe_sub price to_marketplace
    basis_point_of_allocation ← runtime.safe_div allocation 10000
    assert (leb (length creator_shares) (length remaining_accounts))
    (to_creators, royalties) ←
        pay_creators purchaser basis_point_of_allocation 0
          (take (length creator_shares) remaining_accounts) creator_shares
    left ← runtime.safe_sub allocation to_creators
    let rest : Payment = record { source = purchaser; receiver = former_owner; amount = left }
    runtime.pay rest
    done (fee ∷ (royalties ++ (rest ∷ [])))

  -- The transfer is signed by the listing's key alone: the other accounts' signatures are not passed on.
  unfoldable pub purchase :
      MarketplaceProperties
      → Slab
      → AccountInfo
      → AccountInfo
      → ℕ
      → List ℕ
      → ℕ
      → Node
      → ℕ
      → ℕ
      → Node
      → List ℕ
      → Checked (Slab × List Emitted × List Payment)
  unfolding call pay_price
  purchase props slab former_owner purchaser listing_delegate remaining_accounts price data_hash
        nonce index root creator_shares =
      do
        signed purchaser
        require (listing_delegate == runtime.listing price) constraint_seeds
        payments ←
            pay_price props.share purchaser.key former_owner.key remaining_accounts price
              creator_shares
        let creators = take (length creator_shares) remaining_accounts
        let proof = drop (length creator_shares) remaining_accounts
        let creator_hash = hashes.creators (pairs_of creators creator_shares)
        let owner : AccountInfo = record former_owner {
          is_signer = former_owner.key == listing_delegate;
        }
        let lister : AccountInfo = record { key = listing_delegate; is_signer = true }
        (slab', emitted) ← call (
            transfer hashes slab owner lister purchaser.key proof root data_hash creator_hash nonce
              index)
        done (slab', emitted, payments)

module _ (runtime : Runtime) where
  -- `balances` are the accounts' lamports; the two may be one account.
  unfoldable pub withdraw_fees :
      MarketplaceProperties → AccountInfo → (ℕ → ℕ) → ℕ → ℕ → Checked (ℕ → ℕ)
  withdraw_fees props signer balances fee_payout_recipient lamports_to_withdraw = do
    signed signer
    assert (signer.key == props.authority)
    after ← runtime.safe_sub (balances runtime.marketplace) lamports_to_withdraw
    assert (runtime.is_exempt after marketplace_properties_size)
    let drawn = put_at runtime.marketplace after balances
    paid ← runtime.safe_add (drawn fee_payout_recipient) lamports_to_withdraw
    done (put_at fee_payout_recipient paid drawn)
