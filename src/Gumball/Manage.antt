-- ===== src/Gumball/Manage.antt =====
-- lib.rs of gumball-machine: the instructions of a machine's authority.
use candyland.Prelude.{
  ℕ, zero, suc, ◌+◌, ◌-◌, ◌*◌, ◌/◌, ◌%◌, ◌^◌, min, max, Bool, true, Option, none, some, List, [],
  ◌∷◌, ◌++◌, length, set, replicate, take, drop, tabulate_from, ltb, leb, ◌==◌, if◌then◌else◌, done,
  panic, assert, require, ◌>>=◌, ◌>>◌,
}
use candyland.Bubblegum.Schema.{Hashes}
use candyland.Bubblegum.Program.{Slab, Emitted, AccountInfo, create_tree}
use candyland.Gumball.State.{
  Checked, invalid_account_data, EncodeMethod, utf8, to_u8, GumballCreatorAdapter, default,
  num_creators, GumballMachineHeader, Machine, signed, word, u8_of, call,
}
use candyland.Gumball.Dispense.{Env}

-- The sum of `u8`s, which is checked.
abbrev pub sum_u8 : ℕ → List ℕ → Checked ℕ
sum_u8 acc [] = done acc
sum_u8 acc (share ∷ shares) = word 8 (acc + share) >>= λ acc'. sum_u8 acc' shares

-- The keys with their shares, at the front of the array of creators.
unfoldable pub creators_from :
    List GumballCreatorAdapter → ℕ → List ℕ → List ℕ → List GumballCreatorAdapter
creators_from creators i [] shares = creators
creators_from creators i (key ∷ keys) [] = creators
creators_from creators i (key ∷ keys) (share ∷ shares) =
    creators_from (set creators i (record { address = key; verified = 1; share = share })) (suc i)
      keys shares

-- The arguments that the header keeps as they are.
pub record Settings : Type 0 where
  pub url_base : List ℕ
  pub name_base : List ℕ
  pub symbol : List ℕ
  pub encode_method : Option EncodeMethod
  pub seller_fee_basis_points : ℕ
  pub is_mutable : Bool
  pub retain_authority : Bool
  pub price : ℕ
  pub go_live_date : ℕ
  pub bot_wallet : ℕ
  pub receiver : ℕ
  pub authority : ℕ
  pub collection_key : ℕ
  pub extension_len : ℕ
  pub max_mint_size : ℕ
  pub max_items : ℕ

abbrev pub u8_of_method : Option EncodeMethod → ℕ
u8_of_method none = to_u8 utf8
u8_of_method (some e) = to_u8 e

unfoldable pub header_from : Settings → ℕ → List GumballCreatorAdapter → GumballMachineHeader
header_from s mint creators = record {
  url_base = s.url_base;
  name_base = s.name_base;
  symbol = s.symbol;
  seller_fee_basis_points = s.seller_fee_basis_points;
  is_mutable = u8_of s.is_mutable;
  retain_authority = u8_of s.retain_authority;
  config_line_encode_method = u8_of_method s.encode_method;
  creators = creators;
  price = s.price;
  go_live_date = s.go_live_date;
  mint = mint;
  bot_wallet = s.bot_wallet;
  receiver = s.receiver;
  authority = s.authority;
  collection_key = s.collection_key;
  extension_len = s.extension_len;
  max_mint_size = min (max s.max_mint_size 1) s.max_items;
  remaining = 0;
  max_items = s.max_items;
  total_items_added = 0;
  smallest_uninitialized_index = 0;
}

-- Bytes that are cast to `u32`s, the lowest byte first.
unfoldable pub u32s_of : List ℕ → List ℕ
u32s_of (a ∷ b ∷ c ∷ d ∷ bytes) = (a + 2 ^ 8 * b + 2 ^ 16 * c + 2 ^ 24 * d) ∷ u32s_of bytes
u32s_of _ = []

module _ (env : Env) (hashes : Hashes) where
  -- `bytes` are the account's behind the header, which keep what they hold.
  unfoldable pub initialize_gumball_machine :
      (id : ℕ)
      → (bytes : List ℕ) → (lamports : ℕ) → Slab
      → AccountInfo
      → ℕ
      → ℕ
      → ℕ
      → ℕ
      → Settings
      → List ℕ
      → List ℕ
      → Checked (Machine × Slab × List Emitted)
  unfolding creators_from header_from call default u32s_of
  initialize_gumball_machine id bytes lamports slab payer mint slot max_depth max_buffer_size s
        creator_keys creator_shares =
      do
        signed payer
        assert (length creator_keys == length creator_shares)
        assert (ltb (length creator_keys) num_creators)
        total ← sum_u8 0 creator_shares
        assert (leb total 100)
        let creators = creators_from (replicate num_creators default) 0 creator_keys creator_shares
        let header = header_from s mint creators
        index_array_size ← word 64 (4 * s.max_items)
        config_size ← word 64 (s.extension_len * s.max_items)
        data_size ← word 64 (index_array_size + config_size)
        assert (length bytes == data_size)
        let willy_wonka : AccountInfo = record { key = env.willy_wonka id; is_signer = true }
        (slab', emitted) ←
            call (create_tree hashes slab payer willy_wonka slot max_depth max_buffer_size)
        done (
          record {
            id = id;
            header = header;
            indices = u32s_of (take index_array_size bytes);
            config_lines = drop index_array_size bytes;
            lamports = lamports;
          },
          slab',
          emitted,
        )

abbrev pub chunk_size : ℕ
chunk_size = 250000

-- `xs[from..to]` written by the places' own numbers.
unfoldable pub write_indices : List ℕ → ℕ → ℕ → List ℕ
write_indices xs from to = take from xs ++ (tabulate_from from (to - from) (λ i. i) ++ drop to xs)

unfoldable pub initialize_indices_chunk : Machine → AccountInfo → Checked Machine
unfolding write_indices
initialize_indices_chunk machine authority = do
  let header = machine.header
  signed authority
  assert (header.authority == authority.key)
  let first_index_to_initialize = header.smallest_uninitialized_index
  chunk_end ← word 32 (first_index_to_initialize + chunk_size)
  let next = min chunk_end header.max_items
  assert (leb first_index_to_initialize next)
  assert (leb next (length machine.indices))
  let remaining = if header.extension_len == 0 then header.max_items else header.remaining
  done (record machine {
    header = record header { smallest_uninitialized_index = next; remaining = remaining };
    indices = write_indices machine.indices first_index_to_initialize next;
  })

-- Bytes from `start` on are replaced by the new ones, as far as both go.
unfoldable pub write_bytes : List ℕ → ℕ → List ℕ → List ℕ
write_bytes [] start new = []
write_bytes (b ∷ bytes) (suc start) new = b ∷ write_bytes bytes start new
write_bytes (b ∷ bytes) zero [] = b ∷ bytes
write_bytes (b ∷ bytes) zero (n ∷ new) = n ∷ write_bytes bytes zero new

-- The lines that new bytes hold; a division by zero panics.
abbrev pub lines_of : List ℕ → ℕ → Checked ℕ
lines_of new line_size = if line_size == 0 then panic else done (length new / line_size)

unfoldable pub add_config_lines : Machine → AccountInfo → List ℕ → Checked Machine
unfolding write_bytes
add_config_lines machine authority new_config_lines_data = do
  let header = machine.header
  signed authority
  let line_size = header.extension_len
  num_lines ← lines_of new_config_lines_data line_size
  let start_index = header.total_items_added
  assert (header.authority == authority.key)
  assert (length new_config_lines_data % line_size == 0)
  assert (leb (start_index + num_lines) header.max_items)
  assert (leb start_index (length machine.config_lines))
  total ← word 32 (header.total_items_added + num_lines)
  remaining ← word 32 (header.remaining + num_lines)
  done (record machine {
    header = record header { total_items_added = total; remaining = remaining };
    config_lines = write_bytes machine.config_lines start_index new_config_lines_data;
  })

unfoldable pub update_config_lines : Machine → AccountInfo → ℕ → List ℕ → Checked Machine
unfolding write_bytes
update_config_lines machine authority starting_line new_config_lines_data = do
  let header = machine.header
  signed authority
  let line_size = header.extension_len
  config_size ← word 64 (header.extension_len * header.max_items)
  num_lines ← lines_of new_config_lines_data line_size
  assert (header.authority == authority.key)
  assert (length new_config_lines_data % line_size == 0)
  data_size ← word 64 (4 * header.max_items + config_size)
  assert (4 * length machine.indices + length machine.config_lines == data_size)
  assert (length new_config_lines_data == num_lines * line_size)
  ending_line ← word 64 (starting_line + num_lines)
  assert (leb ending_line header.total_items_added)
  start ← word 64 (starting_line * line_size)
  assert (leb start (length machine.config_lines))
  done (record machine {
    config_lines = write_bytes machine.config_lines start new_config_lines_data;
  })

-- The fields to change.
pub record HeaderUpdate : Type 0 where
  pub url_base : Option (List ℕ)
  pub name_base : Option (List ℕ)
  pub symbol : Option (List ℕ)
  pub encode_method : Option EncodeMethod
  pub seller_fee_basis_points : Option ℕ
  pub is_mutable : Option Bool
  pub retain_authority : Option Bool
  pub price : Option ℕ
  pub go_live_date : Option ℕ
  pub bot_wallet : Option ℕ
  pub authority : Option ℕ
  pub max_mint_size : Option ℕ

-- `Some` replaces a field by what is made of it.
abbrev pub replaced_by : {A B : Type 0} → (A → B) → Option A → B → B
replaced_by f none old = old
replaced_by f (some new) old = f new

unfoldable pub update_header_metadata : Machine → AccountInfo → HeaderUpdate → Checked Machine
unfolding to_u8
update_header_metadata machine authority u = do
  let h = machine.header
  signed authority
  assert (h.authority == authority.key)
  done (record machine {
    header = record h {
      url_base = replaced_by (λ x. x) u.url_base h.url_base;
      name_base = replaced_by (λ x. x) u.name_base h.name_base;
      symbol = replaced_by (λ x. x) u.symbol h.symbol;
      config_line_encode_method =
          replaced_by (λ e. to_u8 e) u.encode_method h.config_line_encode_method;
      seller_fee_basis_points =
          replaced_by (λ x. x) u.seller_fee_basis_points h.seller_fee_basis_points;
      is_mutable = replaced_by u8_of u.is_mutable h.is_mutable;
      retain_authority = replaced_by u8_of u.retain_authority h.retain_authority;
      price = replaced_by (λ x. x) u.price h.price;
      go_live_date = replaced_by (λ x. x) u.go_live_date h.go_live_date;
      authority = replaced_by (λ x. x) u.authority h.authority;
      bot_wallet = replaced_by (λ x. x) u.bot_wallet h.bot_wallet;
      max_mint_size = replaced_by (λ x. min (max x 1) h.max_items) u.max_mint_size h.max_mint_size;
    };
  })

-- The machine without lamports, and those of the authority.
unfoldable pub destroy : Machine → AccountInfo → ℕ → Checked (Machine × ℕ)
destroy machine authority authority_lamports = do
  signed authority
  assert (machine.header.authority == authority.key)
  let total = authority_lamports + machine.lamports
  require (ltb total (2 ^ 64)) invalid_account_data
  done (record machine { lamports = 0 }, total)
