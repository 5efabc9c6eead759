-- ===== src/SugarShack/Tests.antt =====
-- A listed asset is bought, and the theorems at it.
use candyland.Prelude.{
  Bool, leb, ltb, ◌-◌, ◌*◌, ◌/◌, ◌^◌, ◌==◌, if◌then◌else◌, sym, done-injective, map, le_of_test,
  shr, leading_zeros, ℕ, ◌+◌, ◌≡◌, refl, arith, true, false, List, [], ◌∷◌, done, pow_pos, err,
}
use candyland.Cmt.Utils.{
  hash_to_parent, recompute_from, recompute, empty_node_cached, empty_node, empty_nodes,
  fill_in_proof,
}
use candyland.Cmt.ChangeLog
use candyland.Cmt.ChangeLog.{
  get_leaf, replace_path, replace_and_recompute_path, update_proof_or_leaf,
}
use candyland.Cmt.Roll
use candyland.Cmt.Roll.{
  check_bounds, log_at, get_change_log, find_root_from, find_root_in_changelog, fast_forward,
}
use candyland.Cmt.Apply.{
  fast_forward_proof, starting_point, update_internal_counters, check_valid_leaf,
  update_buffers_from_proof, try_apply_proof,
}
use candyland.Cmt.Append
use candyland.Cmt.Append.{trailing_zeros, initialize_tree_from_append}
use candyland.Cmt.Api
use candyland.Cmt.Api.{prove_leaf, empty_levels, set_leaf}
use candyland.Cmt.History.{History}
use candyland.Cmt.History.Initialized.{beginning}
use candyland.Cmt.Tests.{pair, pair-IsCollisionFree}
use candyland.Gummyroll.Event.{path_nodes, from_log}
use candyland.Gummyroll.Canopy.{
  check_canopy_bytes, get_cached_path_length, write_node, write_path, update_canopy, climb,
  fill_in_proof_from_canopy,
}
use candyland.Gummyroll.Program
use candyland.Gummyroll.Program.{
  Account, Account, lift, check_size, initialize_header, apply_fn, store, init_empty_gummyroll,
}
use candyland.Bubblegum.Schema.{to_bytes, version, new_v0, new, to_node, to_event, get_asset_id}
use candyland.Bubblegum.Program.{
  delegate, Slab, Emitted, call, cmp_pubkeys, assert_pubkey_equal, replace_leaf, append_leaf,
  create_tree, mint_v1, transfer,
}
use candyland.Bubblegum.Redeem.{set_voucher, voucher_at, redeem, cancel_redeem}
use candyland.Bubblegum.Decompress.{
  token_calls, metadata_calls, supported, invoke_all, hash_metadata, decompress_v1,
}
use candyland.Bubblegum.Ledger.{IsSlab, Ledger}
use candyland.Bubblegum.Ledger.Calls.{
  delegates, Call, run, Reached, here, after, Reached-IsSlab, no_assets,
}
use candyland.Bubblegum.Tests
use candyland.Bubblegum.Tests.{
  hashes, pair_nonzero, leaf_free, leaf_nonzero, alice, invoke, created, minted, mint_call, root,
  given, created-IsSlab,
}
use candyland.Gumball.Dispense.{Payment}
use candyland.SugarShack.Market
use candyland.SugarShack.Market.{
  MarketplaceProperties, MarketFault, arithmetic, Runtime, pay_creators, pay_price, purchase,
  withdraw_fees,
}
use candyland.SugarShack.Bought.{IsSafe, IsBought, purchase_lem}
use candyland.SugarShack.Withdrawn.{IsWithdrawn, withdraw_fees_lem}

-- A word, or the error.
abbrev bounded : ℕ → Market.Checked ℕ
bounded n = if ltb n (2 ^ 64) then done n else err arithmetic

bounded-eq-done : (n : ℕ) {m : ℕ} → bounded n ≡ done m → m ≡ n
bounded-eq-done n {m} e = go (ltb n (2 ^ 64)) e
  where
    go :
        (t : Bool)
        → ◌≡◌ {A = Market.Checked ℕ} (if t then done n else err arithmetic) (done m)
        → m ≡ n
    go true e = sym (done-injective e)
    go false e = cc

abbrev minus : ℕ → ℕ → Market.Checked ℕ
minus a b = if leb b a then done (a - b) else err arithmetic

minus-eq-done : (a b c : ℕ) → minus a b ≡ done c → a ≡ b + c
minus-eq-done a b c e = go (leb b a) refl e
  where
    go :
        (t : Bool)
        → leb b a ≡ t
        → ◌≡◌ {A = Market.Checked ℕ} (if t then done (a - b) else err arithmetic) (done c)
        → a ≡ b + c
    go true le e = omega (arith, le_of_test b a le, done-injective e)
    go false le e = cc

abbrev runtime : Runtime
runtime = record {
  safe_add = λ a b. bounded (a + b);
  safe_sub = minus;
  safe_mul = λ a b. bounded (a * b);
  safe_div = λ a b. if b == 0 then err arithmetic else done (a / b);
  pay = λ payment. done tt;
  is_exempt = λ balance size. leb size balance;
  listing = λ price. price + 1000;
  marketplace = 90;
}

runtime-IsSafe : IsSafe runtime
runtime-IsSafe = record {
  add = λ a b c e. bounded-eq-done (a + b) e;
  sub = minus-eq-done;
  mul = λ a b c e. bounded-eq-done (a * b) e;
  div = λ a b c e. divided (b == 0) (a / b) c e;
}
  where
    divided :
        (t : Bool) (n c : ℕ)
        → ◌≡◌ {A = Market.Checked ℕ} (if t then err arithmetic else done n) (done c)
        → c ≡ n
    divided true n c e = cc
    divided false n c e = sym (done-injective e)

abbrev props : MarketplaceProperties
props = record { authority = 1; share = 200; bump = 255 }

abbrev list_call : Call
list_call = delegates alice 1 21000 (given minted)

abbrev listed : Slab
listed = elim (run hashes invoke minted list_call) [ done (slab, _) ↦ slab | _ ↦ minted ]

abbrev outcome : Market.Checked (Slab × List Emitted × List Payment)
outcome =
    purchase hashes runtime props listed (record { key = 1; is_signer = false })
      (record { key = 5; is_signer = true }) 21000 (77 ∷ 0 ∷ 1 ∷ []) 20000 10 0 0 (root listed)
      (50 ∷ [])

abbrev bought : Slab × List Emitted × List Payment
bought = elim outcome [ done out ↦ out | _ ↦ (listed, [], []) ]

abbrev balances : ℕ → ℕ
balances k = 1000

abbrev withdrawn : ℕ → ℕ
withdrawn = elim (withdraw_fees runtime props alice balances 6 300) [ done bs ↦ bs | _ ↦ balances ]

runs :
    (run hashes invoke minted list_call
      ≡ done (
        listed,
        elim (run hashes invoke minted list_call) [ done (_, emitted) ↦ emitted | _ ↦ [] ],
      ))
    × (outcome ≡ done bought)
    × (withdraw_fees runtime props alice balances 6 300 ≡ done withdrawn)
    × (map (λ (p : Payment). p.amount) bought.2 ≡ 400 ∷ 5000 ∷ 14600 ∷ [])
unfolding decompress_v1 token_calls metadata_calls supported invoke_all hash_metadata create_tree
    mint_v1 transfer call replace_leaf append_leaf to_bytes version new_v0 new to_node to_event
    get_asset_id cmp_pubkeys assert_pubkey_equal set_voucher voucher_at redeem cancel_redeem
    Program.append Program.replace_leaf init_empty_gummyroll initialize_header Api.initialize
    Roll.new lift check_size apply_fn store check_canopy_bytes get_cached_path_length write_node
    write_path update_canopy climb fill_in_proof_from_canopy path_nodes from_log trailing_zeros
    Append.append set_leaf initialize_tree_from_append try_apply_proof check_valid_leaf
    fast_forward_proof starting_point update_internal_counters update_buffers_from_proof
    check_bounds log_at get_change_log find_root_from find_root_in_changelog fast_forward get_leaf
    replace_path replace_and_recompute_path update_proof_or_leaf hash_to_parent recompute_from
    recompute empty_node_cached empty_node empty_nodes fill_in_proof empty_levels pair shr
    leading_zeros ChangeLog.default delegate Market.call pay_creators pay_price purchase
    withdraw_fees
runs = (refl, refl, refl, refl)

listed-Reached : Reached hashes invoke created listed
listed-Reached =
    after (after here mint_call tt Tests.runs.1) list_call
      (omega (arith, pow_pos minted.account.header.max_depth)) runs.0

-- A ledger for the tree with the listed asset.
listed_ledger : (h : History) × (ledger : Ledger) × IsSlab hashes 3 1 listed h ledger
listed_ledger =
    Reached-IsSlab hashes invoke pair-IsCollisionFree pair_nonzero leaf_free leaf_nonzero 3 1
      created beginning no_assets created-IsSlab listed-Reached

purchase_lem_example :
    IsBought hashes runtime runtime-IsSafe pair-IsCollisionFree pair_nonzero leaf_free leaf_nonzero
      3 1 listed listed_ledger.0 listed_ledger.1 listed_ledger.2 props
      (record { key = 1; is_signer = false })
      (record { key = 5; is_signer = true })
      21000
      (77 ∷ 0 ∷ 1 ∷ [])
      20000
      (50 ∷ [])
      10
      0
      0
      bought
purchase_lem_example =
    purchase_lem hashes runtime runtime-IsSafe pair-IsCollisionFree pair_nonzero leaf_free
      leaf_nonzero 3 1 listed listed_ledger.0 listed_ledger.1 listed_ledger.2 props
      (record { key = 1; is_signer = false }) (record { key = 5; is_signer = true }) 21000
      (77 ∷ 0 ∷ 1 ∷ []) 20000 10 0 0 (root listed) (50 ∷ [])
      (omega (arith, pow_pos listed.account.header.max_depth)) runs.1

withdraw_fees_lem_example :
    (alice.key ≡ props.authority)
    × (alice.is_signer ≡ true)
    × IsWithdrawn runtime balances 6 300 withdrawn
withdraw_fees_lem_example =
    withdraw_fees_lem runtime runtime-IsSafe props alice balances 6 300 runs.2
