-- ===== src/Bubblegum/Decompress.antt =====
-- lib.rs of bubblegum: a voucher is turned into a token of its own. The calls of the system, token and
-- metadata programs are listed in their order; whether each one succeeds is a parameter.
use candyland.Prelude.{
  ℕ, Bool, true, Option, none, some, List, [], ◌∷◌, ◌++◌, ◌==◌, if◌then◌else◌, done, err, require,
  ◌>>=◌, ◌>>◌,
}
use candyland.Cmt.Node.{Node}
use candyland.Bubblegum.Metadata.{
  MetadataArgs, TokenProgramVersion, original, token2022, Creator, Collection, Uses,
}
use candyland.Bubblegum.Schema.{v1, NftDecompressionEvent, Hashes, get_asset_id}
use candyland.Bubblegum.Program.{
  asset_owner_mismatch, hashing_mismatch, bubblegum, invalid_argument, constraint_seeds, Checked,
  AccountInfo, Emitted, decompressed, Slab, Returned, signed, cmp_pubkeys,
}
use candyland.Bubblegum.Redeem.{set_voucher, voucher_at}

-- The accounts that decompress_v1 is given, beside the voucher and the owner, and whether the mint's
-- and the token account's have no data yet.
pub record TokenAccounts : Type 0 where
  pub token_account : ℕ
  pub mint : ℕ
  pub mint_authority : ℕ
  pub metadata : ℕ
  pub master_edition : ℕ
  pub mint_is_empty : Bool
  pub token_account_is_empty : Bool

-- The arguments of create_metadata_accounts_v2.
pub record MetadataAccount : Type 0 where
  pub account : ℕ
  pub mint : ℕ
  pub mint_authority : ℕ
  pub payer : ℕ
  pub update_authority : ℕ
  pub name : List ℕ
  pub symbol : List ℕ
  pub uri : List ℕ
  pub creators : Option (List Creator)
  pub seller_fee_basis_points : ℕ
  pub update_authority_is_signer : Bool
  pub is_mutable : Bool
  pub collection : Option Collection
  pub uses : Option Uses

-- Payer and mint; mint and its authority, with decimals; payer, owner and mint; mint, account, authority
-- and amount; metadata; edition, mint, update and mint authorities, metadata, payer and supply.
pub data TokenCall : Type 0 where
  create_mint_account : ℕ → ℕ → TokenCall
  initialize_mint : ℕ → ℕ → ℕ → TokenCall
  create_associated_token_account : ℕ → ℕ → ℕ → TokenCall
  mint_to : ℕ → ℕ → ℕ → ℕ → TokenCall
  create_metadata : MetadataAccount → TokenCall
  create_master_edition : ℕ → ℕ → ℕ → ℕ → ℕ → ℕ → Option ℕ → TokenCall

-- `if creators.len() > 0`
abbrev pub creators_of : List Creator → Option (List Creator)
creators_of [] = none
creators_of (c ∷ creators) = some (c ∷ creators)

-- The calls that make the token.
unfoldable pub token_calls : ℕ → TokenAccounts → List TokenCall
token_calls owner accounts =
    let mint = accounts.mint in
    let authority = accounts.mint_authority in
    (if accounts.mint_is_empty
      then create_mint_account owner mint ∷ initialize_mint mint authority 0 ∷ []
      else [])
    ++ (if accounts.token_account_is_empty
        then create_associated_token_account owner owner mint ∷ []
        else [])
    ++ (mint_to mint accounts.token_account authority 1 ∷ [])

-- The calls that describe it.
unfoldable pub metadata_calls : ℕ → TokenAccounts → MetadataArgs → List TokenCall
metadata_calls owner accounts metadata =
    let mint = accounts.mint in
    let authority = accounts.mint_authority in
    let described : MetadataAccount = record {
      account = accounts.metadata;
      mint = mint;
      mint_authority = authority;
      payer = owner;
      update_authority = authority;
      name = metadata.name;
      symbol = metadata.symbol;
      uri = metadata.uri;
      creators = creators_of metadata.creators;
      seller_fee_basis_points = metadata.seller_fee_basis_points;
      update_authority_is_signer = true;
      is_mutable = metadata.is_mutable;
      collection = metadata.collection;
      uses = metadata.uses;
    } in
    create_metadata described
    ∷ create_master_edition accounts.master_edition mint authority authority accounts.metadata owner
        (some 0)
    ∷ []

unfoldable pub supported : TokenProgramVersion → Checked (Unit {0})
supported original = done tt
supported token2022 = err invalid_argument

module _ (hashes : Hashes) (invoke : TokenCall → Checked (Unit {0})) where
  unfoldable pub invoke_all : List TokenCall → Checked (Unit {0})
  invoke_all [] = done tt
  invoke_all (c ∷ calls) = invoke c >> invoke_all calls

  unfoldable pub hash_metadata : MetadataArgs → Node
  hash_metadata metadata = hashes.metadata metadata

  -- The seeds of the voucher's address are its own tree and nonce. It is closed when the instruction
  -- returns.
  unfoldable pub decompress_v1 :
      Slab → AccountInfo → ℕ → TokenAccounts → MetadataArgs → Checked (Slab × List Emitted)
  unfolding voucher_at cmp_pubkeys supported invoke_all hash_metadata get_asset_id token_calls
      metadata_calls set_voucher
  decompress_v1 slab owner nonce accounts metadata = do
    voucher ← voucher_at slab nonce
    require (voucher.merkle_slab == slab.account.id) constraint_seeds
    signed owner
    let asset_id = get_asset_id hashes voucher.merkle_slab nonce
    require (cmp_pubkeys accounts.mint asset_id) constraint_seeds
    require (cmp_pubkeys accounts.mint_authority (hashes.authority accounts.mint)) constraint_seeds
    let schema = voucher.leaf_schema
    let incoming_data_hash = hash_metadata metadata
    require (schema.data_hash == incoming_data_hash) (bubblegum hashing_mismatch)
    require (cmp_pubkeys schema.owner owner.key) (bubblegum asset_owner_mismatch)
    let event : NftDecompressionEvent = record {
      version = v1;
      id = get_asset_id hashes voucher.merkle_slab schema.nonce;
      tree_id = voucher.merkle_slab;
      nonce = schema.nonce;
    }
    supported metadata.token_program_version
    invoke_all (token_calls owner.key accounts)
    invoke_all (metadata_calls owner.key accounts metadata)
    done (record slab { vouchers = set_voucher slab.vouchers nonce none }, decompressed event ∷ [])

-- Reserved; it changes nothing.
unfoldable pub compress : Slab → Returned
compress slab = done (slab, [])
