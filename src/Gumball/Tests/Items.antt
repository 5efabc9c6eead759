-- ===== src/Gumball/Tests/Items.antt =====
-- A machine's item in a voucher and in a ledger, and the theorems at it.
use candyland.Prelude.{
  ℕ, ◌+◌, ◌*◌, ◌≡◌, ◌≢◌, refl, sym, subst, ◌∙◌, arith, [], done, put_at, pow_pos,
}
use candyland.Cmt.History.{History}
use candyland.Cmt.History.Initialized.{beginning}
use candyland.Cmt.Tests.{pair-IsCollisionFree}
use candyland.Bubblegum.Metadata.{MetadataArgs, TokenProgramVersion, original, token2022}
use candyland.Bubblegum.Decompress.{decompress_v1}
use candyland.Bubblegum.Ledger.{Ledger, IsSlab}
use candyland.Bubblegum.Ledger.Changed.{put_at-same}
use candyland.Bubblegum.Ledger.Moved.{IsStep}
use candyland.Bubblegum.Ledger.Calls.{meaning, run-IsStep, no_assets}
use candyland.Bubblegum.Tests.{
  hashes, alice, created, created-IsSlab, pair_nonzero, leaf_free, leaf_nonzero, message, invoke,
  version_code, accounts,
}
use candyland.Gumball.State.{utf8}
use candyland.Gumball.Stuck.{item-stuck}
use candyland.Gumball.Stays.{Has, here, after, item-stays}
use candyland.Gumball.Tests.{
  env, ready, sold_item, redeemed, voucher, stock_call, stocked, give_call, given_away, runs,
}

-- Metadata of these hashes tells the token program.
versions_tell :
    (x y : MetadataArgs)
    → hashes.metadata x ≡ hashes.metadata y
    → x.token_program_version ≡ y.token_program_version
versions_tell x y e = same x.token_program_version y.token_program_version (omega (arith, e))
  where
    same :
        (v w : TokenProgramVersion)
        → version_code v + 2 * x.seller_fee_basis_points
          ≡ version_code w + 2 * y.seller_fee_basis_points
        → v ≡ w
    same original original e = refl
    same original token2022 e = absurd (omega (arith, e))
    same token2022 original e = absurd (omega (arith, e))
    same token2022 token2022 e = refl

item-stuck_example :
    decompress_v1 hashes invoke redeemed alice 1 accounts message ≢ done (redeemed, [])
item-stuck_example =
    item-stuck hashes invoke redeemed versions_tell env.base58 ready.header 1 [] utf8 runs.14 1
      voucher runs.15 (sym runs.16) alice accounts message (redeemed, [])

stocked-IsStep : IsStep hashes 3 1 (meaning hashes created stock_call) created no_assets stocked
stocked-IsStep =
    run-IsStep hashes invoke pair-IsCollisionFree pair_nonzero leaf_free leaf_nonzero 3 1 created
      beginning no_assets created-IsSlab stock_call tt runs.17

abbrev place : ℕ
place = stocked-IsStep.0

abbrev stocked_ledger : Ledger
stocked_ledger = put_at place stocked-IsStep.1 no_assets

stocked-Has : Has (hashes.metadata sold_item) (stocked_ledger place)
stocked-Has =
    subst (Has (hashes.metadata sold_item))
      (sym (put_at-same place stocked-IsStep.1 no_assets place refl ∙ stocked-IsStep.3.4)) refl

item-stays_example :
    (h : History) × (ledger : Ledger) × IsSlab hashes 3 1 given_away.0 h ledger
    × Has (hashes.metadata sold_item) (ledger place)
item-stays_example =
    item-stays hashes invoke pair-IsCollisionFree pair_nonzero leaf_free leaf_nonzero versions_tell
      env.base58 ready.header 1 [] utf8 runs.14 3 1 stocked stocked-IsStep.2 stocked_ledger
      stocked-IsStep.4 place stocked-Has
      (after here give_call (omega (arith, pow_pos stocked.account.header.max_depth)) tt runs.18)
