-- ===== src/Bubblegum/Metadata.antt =====
-- state/metaplex_adapter.rs of bubblegum: what an NFT is minted with. Strings are their bytes.
use candyland.Prelude.{ℕ, Bool, Option, List}

pub data TokenProgramVersion : Type 0 where
  original token2022 : TokenProgramVersion

pub record Creator : Type 0 where
  pub address : ℕ
  pub verified : Bool
  pub share : ℕ

pub data TokenStandard : Type 0 where
  non_fungible fungible_asset fungible non_fungible_edition : TokenStandard

pub data UseMethod : Type 0 where
  burn multiple single : UseMethod

pub record Uses : Type 0 where
  pub use_method : UseMethod
  pub remaining : ℕ
  pub total : ℕ

pub record Collection : Type 0 where
  pub verified : Bool
  pub key : ℕ

pub record MetadataArgs : Type 0 where
  pub name : List ℕ
  pub symbol : List ℕ
  pub uri : List ℕ
  pub seller_fee_basis_points : ℕ
  pub primary_sale_happened : Bool
  pub is_mutable : Bool
  pub edition_nonce : Option ℕ
  pub token_standard : Option TokenStandard
  pub collection : Option Collection
  pub uses : Option Uses
  pub token_program_version : TokenProgramVersion
  pub creators : List Creator
