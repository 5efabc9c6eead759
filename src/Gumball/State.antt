-- ===== src/Gumball/State.antt =====
-- state/mod.rs of gumball-machine: the header, and the bytes after it as the `u32` indices and the
-- config lines, which every instruction casts at the same place.
use candyland.Prelude.{
  ℕ, zero, suc, ◌^◌, Bool, true, false, not, ◌&&◌, List, ltb, ◌==◌, if◌then◌else◌, Outcome, done,
  err, panic, diverge, require,
}
use candyland.Bubblegum.Metadata.{Creator}
use candyland.Bubblegum.Program
use candyland.Bubblegum.Program.{AccountInfo, Fault}

pub data GumballFault : Type 0 where
  bubblegum : Fault → GumballFault
  invalid_account_data : GumballFault
  not_signed payment_failed : GumballFault

abbrev pub Checked : Type 0 → Type 0
Checked A = Outcome GumballFault A

pub data EncodeMethod : Type 0 where
  utf8 base58_encode : EncodeMethod

-- `EncodeMethod::from`
unfoldable pub from_u8 : ℕ → Checked EncodeMethod
from_u8 zero = done utf8
from_u8 (suc zero) = done base58_encode
from_u8 (suc (suc v)) = panic

unfoldable pub to_u8 : EncodeMethod → ℕ
to_u8 utf8 = 0
to_u8 base58_encode = 1

pub record GumballCreatorAdapter : Type 0 where
  pub address : ℕ
  pub verified : ℕ
  pub share : ℕ

unfoldable pub default : GumballCreatorAdapter
default = record { address = 0; verified = 0; share = 0 }

unfoldable pub adapt : GumballCreatorAdapter → Creator
adapt self = record { address = self.address; verified = self.verified == 1; share = self.share }

unfoldable pub is_valid : GumballCreatorAdapter → Bool
is_valid self = not (self.address == 0) && ltb 0 self.share

-- Times are `i64`, kept as their distance from the least one.
pub record GumballMachineHeader : Type 0 where
  pub url_base : List ℕ
  pub name_base : List ℕ
  pub symbol : List ℕ
  pub seller_fee_basis_points : ℕ
  pub is_mutable : ℕ
  pub retain_authority : ℕ
  pub config_line_encode_method : ℕ
  pub creators : List GumballCreatorAdapter
  pub price : ℕ
  pub go_live_date : ℕ
  pub mint : ℕ
  pub bot_wallet : ℕ
  pub receiver : ℕ
  pub authority : ℕ
  pub collection_key : ℕ
  pub extension_len : ℕ
  pub max_mint_size : ℕ
  pub remaining : ℕ
  pub max_items : ℕ
  pub total_items_added : ℕ
  pub smallest_uninitialized_index : ℕ

pub record Machine : Type 0 where
  pub id : ℕ
  pub header : GumballMachineHeader
  pub indices : List ℕ
  pub config_lines : List ℕ
  pub lamports : ℕ

abbrev pub num_creators : ℕ
num_creators = 5

abbrev pub signed : AccountInfo → Checked (Unit {0})
signed info = require info.is_signer not_signed

-- Arithmetic on words of `w` bits panics where the result is none.
abbrev pub word : ℕ → ℕ → Checked ℕ
word w n = if ltb n (2 ^ w) then done n else panic

-- `bool::into`
abbrev pub u8_of : Bool → ℕ
u8_of true = 1
u8_of false = 0

-- An error of bubblegum ends the transaction.
unfoldable pub call : {A : Type 0} → Program.Checked A → Checked A
call (done a) = done a
call (err e) = err (bubblegum e)
call panic = panic
call diverge = diverge
