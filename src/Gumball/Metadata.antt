-- ===== src/Gumball/Metadata.antt =====
-- utils.rs of gumball-machine: what an item is minted with.
use candyland.Prelude.{
  ℕ, zero, suc, ◌+◌, ◌/◌, ◌%◌, Bool, true, false, ◌&&◌, Option, none, some, List, [], ◌∷◌, ◌++◌,
  reverse, ltb, leb, ◌==◌, if◌then◌else◌, done, panic, ◌>>=◌,
}
use candyland.Bubblegum.Metadata.{MetadataArgs, Creator, token2022, Collection}
use candyland.Gumball.State.{
  Checked, EncodeMethod, utf8, base58_encode, GumballCreatorAdapter, adapt, is_valid,
  GumballMachineHeader,
}

-- Whether bytes are UTF-8: `left` more bytes of a character are due, the next from `low` to `high`.
abbrev pub utf8_from : (left low high : ℕ) → List ℕ → Bool
utf8_from zero low high [] = true
utf8_from (suc left) low high [] = false
utf8_from (suc left) low high (b ∷ bytes) =
    let rest = utf8_from left 128 191 bytes in leb low b && leb b high && rest
utf8_from zero low high (b ∷ bytes) =
    let one = utf8_from 0 128 191 bytes in
    let two = utf8_from 1 128 191 bytes in
    let three = utf8_from 2 128 191 bytes in
    let three_low = utf8_from 2 160 191 bytes in
    let three_high = utf8_from 2 128 159 bytes in
    let four = utf8_from 3 128 191 bytes in
    let four_low = utf8_from 3 144 191 bytes in
    let four_high = utf8_from 3 128 143 bytes in
    if ltb b 128
    then one
    else if ltb b 194
    then false
    else if ltb b 224
    then two
    else if b == 224
    then three_low
    else if b == 237
    then three_high
    else if ltb b 240
    then three
    else if b == 240
    then four_low
    else if ltb b 244
    then four
    else if b == 244
    then four_high
    else false

-- `std::str::from_utf8(bytes).unwrap()`
unfoldable pub from_utf8 : List ℕ → Checked (List ℕ)
from_utf8 bytes = if utf8_from 0 128 191 bytes then done bytes else panic

abbrev pub drop_zeros : List ℕ → List ℕ
drop_zeros [] = []
drop_zeros (zero ∷ bytes) = drop_zeros bytes
drop_zeros (suc b ∷ bytes) = suc b ∷ bytes

-- `trim_matches(zero)`
unfoldable pub trim_zeros : List ℕ → List ℕ
trim_zeros bytes = reverse (drop_zeros (reverse (drop_zeros bytes)))

-- The decimal digits of a number with at most `fuel` of them; a `usize` has 20.
abbrev pub decimal : ℕ → ℕ → List ℕ
decimal zero n = []
decimal (suc fuel) n =
    let front = decimal fuel (n / 10) in
    if ltb n 10 then (48 + n) ∷ [] else front ++ ((48 + n % 10) ∷ [])

unfoldable pub to_string : ℕ → List ℕ
to_string index = decimal 20 index

unfoldable pub valid_creators : List GumballCreatorAdapter → List Creator
unfolding adapt is_valid
valid_creators [] = []
valid_creators (creator ∷ creators) =
    let rest = valid_creators creators in if is_valid creator then adapt creator ∷ rest else rest

-- The key of the system program, which is zero, stands for no collection.
abbrev pub collection_of : ℕ → Option Collection
collection_of key = if key == 0 then none else some (record { verified = true; key = key })

module _ (base58 : List ℕ → List ℕ) where
  unfoldable pub config_text : EncodeMethod → List ℕ → Checked (List ℕ)
  unfolding from_utf8
  config_text base58_encode config_line = done (base58 config_line)
  config_text utf8 config_line = from_utf8 config_line

  -- The header's fields are the first arguments; `uses` is none.
  unfoldable pub get_metadata_args :
      GumballMachineHeader → ℕ → List ℕ → EncodeMethod → Checked MetadataArgs
  unfolding from_utf8 trim_zeros to_string valid_creators config_text
  get_metadata_args header index config_line encode_method = do
    name_base ← from_utf8 header.name_base
    symbol ← from_utf8 header.symbol
    uri_base ← from_utf8 header.url_base
    config ← config_text encode_method config_line
    done (record {
      name = trim_zeros name_base ++ (32 ∷ 35 ∷ []) ++ to_string index;
      symbol = trim_zeros symbol;
      uri = trim_zeros uri_base ++ (47 ∷ []) ++ config;
      seller_fee_basis_points = header.seller_fee_basis_points;
      primary_sale_happened = true;
      is_mutable = ltb 0 header.is_mutable;
      edition_nonce = none;
      token_standard = none;
      collection = collection_of header.collection_key;
      uses = none;
      token_program_version = token2022;
      creators = valid_creators header.creators;
    })
