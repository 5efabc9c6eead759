-- ===== src/Gumball/Tests.antt =====
-- A machine with three items, and the theorems at it.
pub mod Items
use candyland.Prelude.{
  zero, get_elem?, length, ◌++◌, ◌≤◌, ◌<◌, ◌*◌, subst, sym, shr, leading_zeros, ℕ, suc, ◌+◌, ◌≡◌,
  refl, arith, true, false, take, ◌≢◌, put_at, ◌∙◌, pow_pos, List, [], ◌∷◌, done, none, some,
}
use candyland.Cmt.Utils.{
  hash_to_parent, recompute_from, recompute, empty_node_cached, empty_node, empty_nodes,
  fill_in_proof,
}
use candyland.Cmt.ChangeLog
use candyland.Cmt.ChangeLog.{
  get_leaf, replace_path, replace_and_recompute_path, update_proof_or_leaf,
}
use candyland.Cmt.Roll
use candyland.Cmt.Roll.{
  check_bounds, log_at, get_change_log, find_root_from, find_root_in_changelog, fast_forward,
}
use candyland.Cmt.Apply.{
  fast_forward_proof, starting_point, update_internal_counters, check_valid_leaf,
  update_buffers_from_proof, try_apply_proof,
}
use candyland.Cmt.Append
use candyland.Cmt.Append.{trailing_zeros, initialize_tree_from_append}
use candyland.Cmt.Api
use candyland.Cmt.Api.{prove_leaf, empty_levels, set_leaf}
use candyland.Cmt.History.{History}
use candyland.Cmt.History.Initialized.{beginning}
use candyland.Cmt.Tests.{pair, pair-IsCollisionFree}
use candyland.Gummyroll.Event.{path_nodes, from_log}
use candyland.Gummyroll.Canopy.{
  check_canopy_bytes, get_cached_path_length, write_node, write_path, update_canopy, climb,
  fill_in_proof_from_canopy,
}
use candyland.Gummyroll.Program
use candyland.Gummyroll.Program.{
  Account, Account, lift, check_size, initialize_header, apply_fn, store, init_empty_gummyroll,
}
use candyland.Bubblegum.Schema.{
  Voucher, to_bytes, version, new_v0, new, to_node, to_event, get_asset_id,
}
use candyland.Bubblegum.Program.{
  call, Slab, Emitted, cmp_pubkeys, assert_pubkey_equal, replace_leaf, append_leaf, create_tree,
  mint_v1, transfer,
}
use candyland.Bubblegum.Redeem.{set_voucher, voucher_at, redeem, cancel_redeem}
use candyland.Bubblegum.Decompress.{
  token_calls, metadata_calls, supported, invoke_all, hash_metadata, decompress_v1,
}
use candyland.Bubblegum.Metadata.{MetadataArgs, TokenProgramVersion, original, token2022}
use candyland.Bubblegum.Ledger.Calls.{
  Call, mints, transfers, redeems, run, meaning, run-IsStep, no_assets,
}
use candyland.Bubblegum.Ledger.{Ledger, IsSlab}
use candyland.Bubblegum.Ledger.Changed.{put_at-same}
use candyland.Bubblegum.Ledger.Moved.{IsStep}
use candyland.Bubblegum.Tests.{
  hashes, start, alice, created, created-IsSlab, pair_nonzero, leaf_free, leaf_nonzero, message,
  invoke, root, version_code, accounts,
}
use candyland.Gumball.State
use candyland.Gumball.State.{Checked, Machine, EncodeMethod, from_u8, utf8, to_u8, adapt, is_valid}
use candyland.Gumball.Metadata.{
  from_utf8, trim_zeros, to_string, valid_creators, config_text, get_metadata_args,
}
use candyland.Gumball.Dispense.{
  Env, Payment, swap, slice, assert_valid_single_instruction_transaction, config_line_of,
  fisher_yates_shuffle_and_fetch_nft_metadata, mint_items, find_and_mint_compressed_nfts,
  dispense_nft_sol, dispense_nft_token,
}
use candyland.Gumball.Manage.{
  Settings, creators_from, header_from, initialize_gumball_machine, write_indices,
  initialize_indices_chunk, u32s_of,
}
use candyland.Gumball.Shuffle.{IsShuffle}
use candyland.Gumball.Sold.{IsSoldFrom}
use candyland.Gumball.Paid.{IsPaid, fresh-IsSoldFrom, dispense_nft_sol_lem, dispense_nft_token_lem}
use candyland.Gumball.Sales.{Sales, unsold, for_sol, sold_once}
use candyland.Gumball.Invariant.{IsMachine, numbered-IsShuffle}
use candyland.Gumball.Life.{Lived, born, stepped, wrote_indices, sold_for_sol, Lived-IsMachine}
use candyland.Gumball.Stuck.{item-stuck}
use candyland.Gumball.Stays.{Has, here, after, item-stays}
use candyland.Gumball.Chunks.{write_chunks, write_chunks_lem}

abbrev pub env : Env
env = record {
  program_ids = 4 ∷ [];
  compute_budget = 3;
  id = 4;
  wrapped_sol = 9;
  unix_timestamp = 100;
  entropy = λ n. n * 7 + 1;
  base58 = λ bytes. bytes;
  willy_wonka = suc;
}

abbrev settings : Settings
settings = record {
  url_base = 117 ∷ 0 ∷ [];
  name_base = 110 ∷ 0 ∷ [];
  symbol = 115 ∷ 0 ∷ [];
  encode_method = none;
  seller_fee_basis_points = 5;
  is_mutable = true;
  retain_authority = false;
  price = 10;
  go_live_date = 50;
  bot_wallet = 20;
  receiver = 21;
  authority = 1;
  collection_key = 0;
  extension_len = 0;
  max_mint_size = 2;
  max_items = 3;
}

-- What the account held behind its header.
abbrev bytes : List ℕ
bytes = 1 ∷ 2 ∷ 0 ∷ 0 ∷ 9 ∷ 0 ∷ 0 ∷ 0 ∷ 9 ∷ 0 ∷ 0 ∷ 1 ∷ []

abbrev made : Checked (Machine × Slab × List Emitted)
made =
    initialize_gumball_machine env hashes 30 bytes 1000 start alice 9 0 3 8 settings (1 ∷ [])
      (100 ∷ [])

abbrev none_made : Machine × Slab × List Emitted
none_made = (
  record {
    id = 0;
    header = header_from settings 0 [];
    indices = [];
    config_lines = [];
    lamports = 0;
  },
  start,
  [],
)

abbrev made_new : Machine × Slab × List Emitted
made_new = elim made [ done out ↦ out | _ ↦ none_made ]

abbrev pub ready : Machine
ready = elim (initialize_indices_chunk made_new.0 alice) [ done m ↦ m | _ ↦ made_new.0 ]

abbrev Sold : Type 0
Sold = Machine × Slab × List Emitted × List ℕ × Payment

abbrev of : Checked Sold → Sold
of (done out) = out
of _ = (made_new.0, made_new.1, [], [], record { source = 0; receiver = 0; amount = 0 })

abbrev first : Sold
first = of (dispense_nft_sol env hashes alice ready made_new.1 21 2)

abbrev second : Sold
second = of (dispense_nft_sol env hashes alice first.0 first.1 21 2)

-- Another machine, which sells for the tokens of a mint.
abbrev made_for_tokens : Machine × Slab × List Emitted
made_for_tokens =
    elim (initialize_gumball_machine env hashes 30 bytes 1000 start alice 12 0 3 8 settings (1 ∷ [])
      (100 ∷ [])) [ done out ↦ out | _ ↦ none_made ]

abbrev ready_for_tokens : Machine
ready_for_tokens = elim (initialize_indices_chunk made_for_tokens.0 alice) [
  | done m ↦ m
  | _ ↦ made_for_tokens.0
]

abbrev for_a_token : Sold
for_a_token = of (dispense_nft_token env hashes alice ready_for_tokens made_for_tokens.1 60 12 21 1)

-- The second item that was sold, taken out of the tree.
abbrev pub sold_item : MetadataArgs
sold_item = elim (get_metadata_args env.base58 ready.header 1 [] utf8) [
  | done args ↦ args
  | _ ↦ message
]

abbrev redeem_call : Call
redeem_call = redeems alice 1 (record {
  accounts = take 2 first.1.account.roll.rightmost_proof.proof;
  root = root first.1;
  data_hash = 11;
  creator_hash = 3;
  nonce = 1;
  index = 1;
})

abbrev pub redeemed : Slab
redeemed = elim (run hashes invoke first.1 redeem_call) [ done (slab, _) ↦ slab | _ ↦ start ]

abbrev pub voucher : Voucher
voucher = record {
  leaf_schema = record {
    id = 8;
    owner = 1;
    delegate = 1;
    nonce = 1;
    data_hash = 11;
    creator_hash = 3;
  };
  index = 1;
  merkle_slab = 7;
}

-- The item minted in a new tree, and transferred there.
abbrev pub stock_call : Call
stock_call = mints alice 1 1 sold_item

abbrev pub stocked : Slab
stocked = elim (run hashes invoke created stock_call) [ done (slab, _) ↦ slab | _ ↦ start ]

abbrev pub give_call : Call
give_call = transfers alice alice 2 (record {
  accounts = 0 ∷ 1 ∷ [];
  root = root stocked;
  data_hash = 11;
  creator_hash = 3;
  nonce = 0;
  index = 0;
})

abbrev pub given_away : Slab × List Emitted
given_away = elim (run hashes invoke stocked give_call) [ done out ↦ out | _ ↦ (start, []) ]

-- The machine is made, its indices written, and its three items sold by two calls.
pub runs :
    (made ≡ done made_new)
    × (initialize_indices_chunk made_new.0 alice ≡ done ready)
    × (dispense_nft_sol env hashes alice ready made_new.1 21 2 ≡ done first)
    × (dispense_nft_sol env hashes alice first.0 first.1 21 2 ≡ done second)
    × (ready.indices ≡ 0 ∷ 1 ∷ 2 ∷ [])
    × (ready.header.max_items ≡ 3)
    × (ready.header.remaining ≡ 3)
    × (made_new.0.header.authority ≡ 1)
    × (made_new.0.header.max_items ≡ 3)
    × (made_new.0.header.smallest_uninitialized_index ≡ 0)
    × (dispense_nft_token env hashes alice ready_for_tokens made_for_tokens.1 60 12 21 1
        ≡ done for_a_token)
    × (ready_for_tokens.indices ≡ 0 ∷ 1 ∷ 2 ∷ [])
    × (ready_for_tokens.header.max_items ≡ 3)
    × (ready_for_tokens.header.remaining ≡ 3)
    × (get_metadata_args env.base58 ready.header 1 [] utf8 ≡ done sold_item)
    × (redeemed.vouchers 1 ≡ some voucher)
    × (hashes.metadata sold_item ≡ 11)
    × (run hashes invoke created stock_call
        ≡ done (
          stocked,
          elim (run hashes invoke created stock_call) [ done (_, emitted) ↦ emitted | _ ↦ [] ],
        ))
    × (run hashes invoke stocked give_call ≡ done given_away)
    × (made_new.0.indices ≡ 513 ∷ 9 ∷ 16777225 ∷ [])
unfolding decompress_v1 token_calls metadata_calls supported invoke_all hash_metadata create_tree
    mint_v1 transfer call replace_leaf append_leaf to_bytes version new_v0 new to_node to_event
    get_asset_id cmp_pubkeys assert_pubkey_equal set_voucher voucher_at redeem cancel_redeem
    Program.append Program.replace_leaf init_empty_gummyroll initialize_header Api.initialize
    Roll.new lift check_size apply_fn store check_canopy_bytes get_cached_path_length write_node
    write_path update_canopy climb fill_in_proof_from_canopy path_nodes from_log trailing_zeros
    Append.append set_leaf initialize_tree_from_append try_apply_proof check_valid_leaf
    fast_forward_proof starting_point update_internal_counters update_buffers_from_proof
    check_bounds log_at get_change_log find_root_from find_root_in_changelog fast_forward get_leaf
    replace_path replace_and_recompute_path update_proof_or_leaf hash_to_parent recompute_from
    recompute empty_node_cached empty_node empty_nodes fill_in_proof empty_levels pair shr
    leading_zeros ChangeLog.default State.call State.default from_u8 to_u8 adapt is_valid from_utf8
    trim_zeros to_string valid_creators config_text get_metadata_args swap slice
    assert_valid_single_instruction_transaction config_line_of
    fisher_yates_shuffle_and_fetch_nft_metadata mint_items find_and_mint_compressed_nfts
    dispense_nft_sol dispense_nft_token creators_from header_from initialize_gumball_machine
    write_indices initialize_indices_chunk u32s_of Append.append_leaf ChangeLog.new
    Append.append_round
runs = (
  refl, refl, refl, refl, refl, refl, refl, refl, refl, refl, refl, refl, refl, refl, refl, refl,
  refl, refl, refl, refl,
)

three-IsShuffle :
    (m : Machine)
    → m.indices ≡ 0 ∷ 1 ∷ 2 ∷ []
    → m.header.max_items ≡ 3
    → IsShuffle m.header.max_items m.indices
three-IsShuffle m indices items =
    subst (λ (xs : List ℕ). IsShuffle m.header.max_items xs) (sym indices)
      (subst (λ (n : ℕ). IsShuffle n (0 ∷ 1 ∷ 2 ∷ [])) (sym items)
        (numbered-IsShuffle 3 (0 ∷ 1 ∷ 2 ∷ []) refl in_place))
  where
    in_place : (i : ℕ) → i < 3 → get_elem? (0 ∷ 1 ∷ 2 ∷ []) i ≡ some i
    in_place zero h = refl
    in_place (suc zero) h = refl
    in_place (suc (suc zero)) h = refl
    in_place (suc (suc (suc i))) h = absurd (omega arith)

ready-IsShuffle : IsShuffle ready.header.max_items ready.indices
ready-IsShuffle = three-IsShuffle ready runs.4 runs.5

ready-IsSoldFrom : IsSoldFrom ready ready []
ready-IsSoldFrom = fresh-IsSoldFrom ready ready-IsShuffle (omega (arith, runs.5, runs.6))

dispense_nft_sol_lem_example : IsPaid env hashes alice ready ready [] 2 1 first
dispense_nft_sol_lem_example =
    dispense_nft_sol_lem env hashes alice ready ready [] made_new.1 21 2 ready-IsSoldFrom runs.2

for_tokens-IsSoldFrom : IsSoldFrom ready_for_tokens ready_for_tokens []
for_tokens-IsSoldFrom =
    fresh-IsSoldFrom ready_for_tokens (three-IsShuffle ready_for_tokens runs.11 runs.12)
      (omega (arith, runs.12, runs.13))

dispense_nft_token_lem_example :
    (ready_for_tokens.header.mint ≡ 12)
    × IsPaid env hashes alice ready_for_tokens ready_for_tokens [] 1 60 for_a_token
dispense_nft_token_lem_example =
    dispense_nft_token_lem env hashes alice ready_for_tokens ready_for_tokens [] made_for_tokens.1
      60 12 21 1 for_tokens-IsSoldFrom runs.10

both-Sales : Sales env hashes ready second.0 (([] ++ first.3) ++ second.3)
both-Sales = for_sol (for_sol unsold alice made_new.1 21 2 runs.2) alice first.1 21 2 runs.3

sold_once_example :
    ((k l v : ℕ)
      → get_elem? (([] ++ first.3) ++ second.3) k ≡ some v
      → get_elem? (([] ++ first.3) ++ second.3) l ≡ some v
      → k ≡ l)
    × ((k v : ℕ)
        → get_elem? (([] ++ first.3) ++ second.3) k ≡ some v
        → (1 ≤ v) × (v ≤ ready.header.max_items))
    × (length (([] ++ first.3) ++ second.3) + second.0.header.remaining ≡ ready.header.remaining)
sold_once_example =
    sold_once env hashes ready ready-IsShuffle (omega (arith, runs.5, runs.6)) both-Sales

new-Lived : Lived env hashes made_new.0
new-Lived = born 30 bytes 1000 start alice 9 0 3 8 settings (1 ∷ []) (100 ∷ []) runs.0

first-Lived : Lived env hashes first.0
first-Lived =
    stepped (stepped new-Lived (wrote_indices alice runs.1))
      (sold_for_sol alice made_new.1 21 2 runs.2)

Lived-IsMachine_example : IsMachine first.0
Lived-IsMachine_example = Lived-IsMachine env hashes first-Lived

write_chunks_lem_example :
    (m' : Machine) × (write_chunks 1 made_new.0 alice ≡ done m')
    × IsMachine m'
    × (m'.header.max_items ≡ made_new.0.header.max_items)
    × (m'.header.smallest_uninitialized_index ≡ m'.header.max_items)
write_chunks_lem_example =
    write_chunks_lem 1 made_new.0 alice (Lived-IsMachine env hashes new-Lived) refl runs.7
      (omega (arith, runs.8)) (omega (arith, runs.8, runs.9))
