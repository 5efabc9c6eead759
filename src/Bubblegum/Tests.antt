-- ===== src/Bubblegum/Tests.antt =====
-- The instructions on a new tree of depth 3, and the theorems at them.
use candyland.Prelude.{
  shr, leading_zeros, ℕ, suc, ◌+◌, ◌≡◌, ◌≢◌, refl, ap₂, ◌*◌, arith, true, false, List, [], ◌∷◌,
  done, none, some, get_or, pow_pos,
}
use candyland.Cmt.Node.{Node, empty}
use candyland.Cmt.Utils.{
  hash_to_parent, recompute_from, recompute, empty_node_cached, empty_node, empty_nodes,
  fill_in_proof,
}
use candyland.Cmt.ChangeLog
use candyland.Cmt.ChangeLog.{
  get_leaf, replace_path, replace_and_recompute_path, update_proof_or_leaf,
}
use candyland.Cmt.Roll
use candyland.Cmt.Roll.{
  check_bounds, log_at, get_change_log, find_root_from, find_root_in_changelog, fast_forward,
}
use candyland.Cmt.Apply.{
  fast_forward_proof, starting_point, update_internal_counters, check_valid_leaf,
  update_buffers_from_proof, try_apply_proof,
}
use candyland.Cmt.Append
use candyland.Cmt.Append.{trailing_zeros, initialize_tree_from_append}
use candyland.Cmt.Api
use candyland.Cmt.Api.{prove_leaf, empty_levels, set_leaf}
use candyland.Cmt.History.{History}
use candyland.Cmt.History.Initialized.{beginning, initialized, initialize_lem}
use candyland.Gummyroll.Canopy.Rows.{unset-IsCanopy}
use candyland.Cmt.Tests.{pair, pair-IsCollisionFree}
use candyland.Gummyroll.Program.Store.{IsAccountOf}
use candyland.Gummyroll.Program.Initialized.{header, init_empty_gummyroll_lem}
use candyland.Gummyroll.Event.{ChangeLogEvent, path_nodes, from_log}
use candyland.Gummyroll.Canopy.{
  check_canopy_bytes, get_cached_path_length, write_node, write_path, update_canopy, climb,
  fill_in_proof_from_canopy,
}
use candyland.Gummyroll.Program
use candyland.Gummyroll.Program.{
  Account, Account, lift, check_size, initialize_header, apply_fn, store, init_empty_gummyroll,
}
use candyland.Bubblegum.Metadata.{MetadataArgs, TokenProgramVersion, original, token2022}
use candyland.Bubblegum.Schema.{
  to_bytes, version, new_v0, new, Voucher, Hashes, to_node, to_event, get_asset_id,
}
use candyland.Bubblegum.Program.{
  Slab, Emitted, AccountInfo, Checked, Returned, call, cmp_pubkeys, assert_pubkey_equal,
  replace_leaf, append_leaf, create_tree, mint_v1, transfer,
}
use candyland.Bubblegum.Redeem.{set_voucher, voucher_at, redeem, cancel_redeem}
use candyland.Bubblegum.Decompress.{
  TokenAccounts, TokenCall, token_calls, metadata_calls, supported, invoke_all, hash_metadata,
  decompress_v1,
}
use candyland.Bubblegum.Ledger.{IsSlab, Ledger}
use candyland.Bubblegum.Ledger.Moved.{IsStep}
use candyland.Bubblegum.Ledger.Calls.{
  Given, Call, mints, transfers, redeems, cancels, decompresses, run, Reached, here, after, meaning,
  run-IsStep, Reached-IsSlab, no_assets, create_tree-IsSlab,
}

abbrev pub code : List ℕ → ℕ
code [] = 0
code (x ∷ xs) = pair x (code xs)

code-injective : (xs ys : List ℕ) → code xs ≡ code ys → xs ≡ ys
unfolding pair
code-injective [] [] e = refl
code-injective [] (y ∷ ys) e = absurd (omega arith)
code-injective (x ∷ xs) [] e = absurd (omega arith)
code-injective (x ∷ xs) (y ∷ ys) e =
    let (head, tail) = pair-IsCollisionFree x (code xs) y (code ys) e in
    ap₂ (λ (z : ℕ) (zs : List ℕ). z ∷ zs) head (code-injective xs ys tail)

abbrev pub version_code : TokenProgramVersion → ℕ
version_code original = 0
version_code token2022 = 1

abbrev pub hashes : Hashes
hashes = record {
  node = pair;
  leaf = λ xs. suc (code xs);
  metadata = λ m. version_code m.token_program_version + 2 * m.seller_fee_basis_points;
  creators = λ cs. 3;
  asset = λ tree nonce. tree + nonce;
  authority = suc;
}

pub pair_nonzero : (a b : Node) → pair a b ≢ empty
unfolding pair
pair_nonzero a b = omega arith

pub leaf_free : (xs ys : List ℕ) → hashes.leaf xs ≡ hashes.leaf ys → xs ≡ ys
leaf_free xs ys e = code-injective xs ys (omega arith)

pub leaf_nonzero : (xs : List ℕ) → hashes.leaf xs ≢ empty
leaf_nonzero xs = omega arith

abbrev pub start : Slab
start = record {
  account = record {
    id = 7;
    header = record {
      max_buffer_size = 0;
      max_depth = 0;
      authority = 0;
      append_authority = 0;
      creation_slot = 0;
    };
    roll = Roll.new 3 8;
    canopy = record { nodes = 0 ∷ 0 ∷ []; spare = 0 };
  };
  authority = none;
  vouchers = λ n. none;
}

abbrev pub alice : AccountInfo
alice = record { key = 1; is_signer = true }

abbrev bob : AccountInfo
bob = record { key = 2; is_signer = false }

abbrev bob_signs : AccountInfo
bob_signs = record { key = 2; is_signer = true }

abbrev pub message : MetadataArgs
message = record {
  name = [];
  symbol = [];
  uri = [];
  seller_fee_basis_points = 5;
  primary_sale_happened = false;
  is_mutable = true;
  edition_nonce = none;
  token_standard = none;
  collection = none;
  uses = none;
  token_program_version = original;
  creators = [];
}

abbrev pub invoke : TokenCall → Checked (Unit {0})
invoke c = done tt

abbrev of : Returned → Slab
of (done (slab, _)) = slab
of _ = start

abbrev pub created : Slab
created = of (create_tree hashes start alice alice 0 3 8)

abbrev pub mint_call : Call
mint_call = mints alice 1 1 message

abbrev pub minted : Slab
minted = of (run hashes invoke created mint_call)

-- The root that the last change of the roll left.
abbrev pub root : Slab → Node
root slab =
    (get_or slab.account.roll.change_logs slab.account.roll.active_index (ChangeLog.default 3)).root

abbrev pub given : Slab → Given
given slab = record {
  accounts = 0 ∷ 1 ∷ [];
  root = root slab;
  data_hash = 10;
  creator_hash = 3;
  nonce = 0;
  index = 0;
}

abbrev transfer_call : Call
transfer_call = transfers alice alice 2 (given minted)

abbrev transferred : Slab
transferred = of (run hashes invoke minted transfer_call)

abbrev redeem_call : Call
redeem_call = redeems bob_signs 2 (given transferred)

abbrev redeemed : Slab
redeemed = of (run hashes invoke transferred redeem_call)

abbrev cancel_call : Call
cancel_call = cancels bob_signs 0 (0 ∷ 1 ∷ []) (root redeemed)

abbrev cancelled : Slab
cancelled = of (run hashes invoke redeemed cancel_call)

abbrev pub accounts : TokenAccounts
accounts = record {
  token_account = 50;
  mint = 7;
  mint_authority = 8;
  metadata = 51;
  master_edition = 52;
  mint_is_empty = true;
  token_account_is_empty = true;
}

abbrev decompress_call : Call
decompress_call = decompresses bob_signs 0 accounts message

abbrev decompressed : Slab
decompressed = of (run hashes invoke redeemed decompress_call)

abbrev emits : Returned → List Emitted
emits (done (_, emitted)) = emitted
emits _ = []

abbrev voucher : Voucher
voucher = record {
  leaf_schema = record {
    id = 7;
    owner = 2;
    delegate = 2;
    nonce = 0;
    data_hash = 10;
    creator_hash = 3;
  };
  index = 0;
  merkle_slab = 7;
}

abbrev made : Account × ChangeLogEvent
made = elim (init_empty_gummyroll pair start.account 3 8 8 1 0) [
  | done out ↦ out
  | _ ↦ (start.account, record { id = 0; path = []; seq = 0; index = 0 })
]

-- Each call returns.
pub runs :
    (create_tree hashes start alice alice 0 3 8
      ≡ done (created, emits (create_tree hashes start alice alice 0 3 8)))
    × (run hashes invoke created mint_call
        ≡ done (minted, emits (run hashes invoke created mint_call)))
    × (run hashes invoke minted transfer_call
        ≡ done (transferred, emits (run hashes invoke minted transfer_call)))
    × (run hashes invoke transferred redeem_call
        ≡ done (redeemed, emits (run hashes invoke transferred redeem_call)))
    × (run hashes invoke redeemed cancel_call
        ≡ done (cancelled, emits (run hashes invoke redeemed cancel_call)))
    × (run hashes invoke redeemed decompress_call
        ≡ done (decompressed, emits (run hashes invoke redeemed decompress_call)))
    × (redeemed.vouchers 0 ≡ some voucher)
    × (init_empty_gummyroll pair start.account 3 8 8 1 0 ≡ done made)
unfolding decompress_v1 token_calls metadata_calls supported invoke_all hash_metadata create_tree
    mint_v1 transfer call replace_leaf append_leaf to_bytes version new_v0 new to_node to_event
    get_asset_id cmp_pubkeys assert_pubkey_equal set_voucher voucher_at redeem cancel_redeem
    Program.append Program.replace_leaf init_empty_gummyroll initialize_header Api.initialize
    Roll.new lift check_size apply_fn store check_canopy_bytes get_cached_path_length write_node
    write_path update_canopy climb fill_in_proof_from_canopy path_nodes from_log trailing_zeros
    Append.append set_leaf initialize_tree_from_append try_apply_proof check_valid_leaf
    fast_forward_proof starting_point update_internal_counters update_buffers_from_proof
    check_bounds log_at get_change_log find_root_from find_root_in_changelog fast_forward get_leaf
    replace_path replace_and_recompute_path update_proof_or_leaf hash_to_parent recompute_from
    recompute empty_node_cached empty_node empty_nodes fill_in_proof empty_levels pair shr
    leading_zeros ChangeLog.default
runs = (refl, refl, refl, refl, refl, refl, refl, refl)

create_tree-IsSlab_example :
    (b : ℕ) × IsSlab hashes b 1 created beginning no_assets
    × (created.account.header.append_authority ≡ 1)
create_tree-IsSlab_example =
    create_tree-IsSlab hashes start alice alice 0 3 8 1 2 refl refl (omega arith) refl (λ i. refl)
      runs.0

pub created-IsSlab : IsSlab hashes 3 1 created beginning no_assets
unfolding beginning initialized create_tree init_empty_gummyroll Api.initialize check_bounds log_at
    Roll.new get_change_log update_canopy check_canopy_bytes get_cached_path_length
created-IsSlab = record {
  kept = record {
    sized = refl;
    words = omega arith;
    pos = omega arith;
    shallow = omega arith;
    held = omega arith;
    whole = refl;
    rolls = (initialize_lem pair 3 3 (omega arith) (omega arith)).1;
    rows = unset-IsCanopy pair 3 1 2 refl;
  };
  counted = refl;
  leaves = λ i. refl;
  vouchers = λ i. refl;
  belongs = λ i s is. cc;
}

-- A ledger for the tree with the minted asset.
minted_ledger : (h : History) × (ledger : Ledger) × IsSlab hashes 3 1 minted h ledger
minted_ledger =
    Reached-IsSlab hashes invoke pair-IsCollisionFree pair_nonzero leaf_free leaf_nonzero 3 1
      created beginning no_assets created-IsSlab (after here mint_call tt runs.1)

run-IsStep_example :
    IsStep hashes 3 1 (meaning hashes minted transfer_call) minted minted_ledger.1 transferred
run-IsStep_example =
    run-IsStep hashes invoke pair-IsCollisionFree pair_nonzero leaf_free leaf_nonzero 3 1 minted
      minted_ledger.0 minted_ledger.1 minted_ledger.2 transfer_call
      (omega (arith, pow_pos minted.account.header.max_depth)) runs.2

redeemed-Reached : Reached hashes invoke created redeemed
redeemed-Reached =
    after
      (after (after here mint_call tt runs.1) transfer_call
        (omega (arith, pow_pos minted.account.header.max_depth)) runs.2)
      redeem_call (omega (arith, pow_pos transferred.account.header.max_depth)) runs.3

Reached-IsSlab_example : (h : History) × (ledger : Ledger) × IsSlab hashes 3 1 redeemed h ledger
Reached-IsSlab_example =
    Reached-IsSlab hashes invoke pair-IsCollisionFree pair_nonzero leaf_free leaf_nonzero 3 1
      created beginning no_assets created-IsSlab redeemed-Reached

init_empty_gummyroll_lem_example :
    (b : ℕ) × IsAccountOf pair b 1 made.0 beginning
    × (made.0.header ≡ header pair start.account 3 8 8 1 0)
    × (made.0.id ≡ 7)
init_empty_gummyroll_lem_example =
    init_empty_gummyroll_lem pair start.account 3 8 8 1 0 1 2 refl refl (omega arith) refl runs.7
