-- ===== src/Gummyroll/Program.antt =====
-- lib.rs of gummyroll: the instructions over an account. The account's bytes are the header, the roll
-- and the canopy, cast by borsh and bytemuck; the event is written to the log and to candy_wrapper, a
-- program without effect: here it is returned.
pub mod Store
pub mod Kept
pub mod Header
pub mod Inserted
pub mod Initialized
pub mod Tests
use candyland.Prelude.{
  ℕ, ◌^◌, ◌≡◌, Bool, true, false, ◌&&◌, ◌||◌, Option, none, some, List, [], ◌∷◌, length, ◌==◌,
  if◌then◌else◌, done, err, panic, diverge, assert, ◌>>=◌, ◌>>◌,
}
use candyland.Cmt.Node.{Node, Result, CmtError}
use candyland.Cmt.Roll.{MerkleRoll, get_change_log}
use candyland.Cmt.Append
use candyland.Cmt.Api
use candyland.Gummyroll.Event.{ChangeLogEvent, from_log}
use candyland.Gummyroll.Canopy.{
  Checked, GummyrollError, merkle_roll_constants_error, concurrent_merkle_tree_error, CanopyBytes,
  update_canopy, fill_in_proof_from_canopy,
}

pub record MerkleRollHeader : Type 0 where
  pub max_buffer_size : ℕ
  pub max_depth : ℕ
  pub authority : ℕ
  pub append_authority : ℕ
  pub creation_slot : ℕ

pub record Account : Type 0 where
  pub id : ℕ
  pub header : MerkleRollHeader
  pub roll : MerkleRoll
  pub canopy : CanopyBytes

unfoldable pub initialize_header : MerkleRollHeader → ℕ → ℕ → ℕ → ℕ → ℕ → Checked MerkleRollHeader
initialize_header self max_depth max_buffer_size authority append_authority creation_slot = do
  assert (self.max_buffer_size == 0)
  assert (self.max_depth == 0)
  done (record {
    max_buffer_size = max_buffer_size;
    max_depth = max_depth;
    authority = authority;
    append_authority = append_authority;
    creation_slot = creation_slot;
  })

-- The depths and sizes that the two macros know.
abbrev pub sizes : List (ℕ × ℕ)
sizes =
    (3, 8)
    ∷ (5, 8)
    ∷ (14, 64)
    ∷ (14, 256)
    ∷ (14, 1024)
    ∷ (14, 2048)
    ∷ (20, 64)
    ∷ (20, 256)
    ∷ (20, 1024)
    ∷ (20, 2048)
    ∷ (24, 64)
    ∷ (24, 256)
    ∷ (24, 512)
    ∷ (24, 1024)
    ∷ (24, 2048)
    ∷ (26, 512)
    ∷ (26, 1024)
    ∷ (26, 2048)
    ∷ (30, 512)
    ∷ (30, 1024)
    ∷ (30, 2048)
    ∷ []

abbrev pub known : List (ℕ × ℕ) → ℕ → ℕ → Bool
known [] depth size = false
known ((d, s) ∷ rest) depth size = ((d == depth) && (s == size)) || known rest depth size

-- `merkle_roll_get_size!`, of which the size in bytes is not kept.
unfoldable pub check_size : MerkleRollHeader → Checked (Unit {0})
check_size header =
    if known sizes header.max_depth header.max_buffer_size
    then done tt
    else err merkle_roll_constants_error

-- An error of the roll is one of the program.
unfoldable pub lift : {A : Type 0} → Result A → Checked A
lift (done a) = done a
lift (err e) = err concurrent_merkle_tree_error
lift panic = panic
lift diverge = diverge

-- `merkle_roll_apply_fn!`: the roll after the function, and the event of its current log.
unfoldable pub apply_fn :
    Account
    → (ℕ → ℕ → MerkleRoll → Result (Node × MerkleRoll))
    → Checked (MerkleRoll × ChangeLogEvent)
unfolding lift check_size
apply_fn acc func = do
  check_size acc.header
  (_, roll) ← lift (func acc.header.max_depth acc.header.max_buffer_size acc.roll)
  log ← lift (get_change_log acc.header.max_depth acc.header.max_buffer_size roll)
  done (roll, from_log log acc.id roll.sequence_number)

-- What ends the instructions that change a leaf: the roll is kept, and the canopy follows.
unfoldable pub store :
    Account → CanopyBytes → MerkleRoll × ChangeLogEvent → Checked (Account × ChangeLogEvent)
store acc canopy (roll, event) = do
  canopy' ← update_canopy canopy acc.header.max_depth (some event)
  done (record acc { roll = roll; canopy = canopy' }, event)

module _ (hashv : Node → Node → Node) where
  unfoldable pub init_empty_gummyroll :
      Account → ℕ → ℕ → ℕ → ℕ → ℕ → Checked (Account × ChangeLogEvent)
  unfolding check_size apply_fn initialize_header
  init_empty_gummyroll acc max_depth max_buffer_size authority append_authority slot = do
    header ← initialize_header acc.header max_depth max_buffer_size authority append_authority slot
    check_size header
    let acc' : Account = record acc { header = header }
    (roll, event) ← apply_fn acc' (λ d s r. Api.initialize d s hashv r)
    canopy ← update_canopy acc.canopy max_depth none
    done (record acc' { roll = roll; canopy = canopy }, event)

  unfoldable pub init_gummyroll_with_root :
      Account → ℕ → ℕ → ℕ → ℕ → ℕ → Node → Node → ℕ → List Node → Checked (Account × ChangeLogEvent)
  unfolding check_size apply_fn initialize_header store
  init_gummyroll_with_root acc max_depth max_buffer_size authority append_authority slot root leaf
        index accounts =
      do
        header ←
            initialize_header acc.header max_depth max_buffer_size authority append_authority slot
        check_size header
        let acc' : Account = record acc { header = header }
        (canopy, proof) ← fill_in_proof_from_canopy hashv acc.canopy max_depth index accounts
        assert (length proof == max_depth)
        changed ←
            apply_fn acc' (λ d s r. Api.initialize_with_root d s hashv r root leaf proof index)
        store acc' canopy changed

  unfoldable pub replace_leaf :
      Account → ℕ → Node → Node → Node → ℕ → List Node → Checked (Account × ChangeLogEvent)
  unfolding check_size apply_fn store
  replace_leaf acc authority root previous_leaf new_leaf index accounts = do
    assert (acc.header.authority == authority)
    check_size acc.header
    (canopy, proof) ← fill_in_proof_from_canopy hashv acc.canopy acc.header.max_depth index accounts
    changed ←
        apply_fn acc (λ d s r. Api.set_leaf d s hashv r root previous_leaf new_leaf proof index)
    store acc canopy changed

  -- A proof that holds leaves the roll; the canopy keeps the empty nodes that were filled in.
  unfoldable pub verify_leaf : Account → Node → Node → ℕ → List Node → Checked Account
  unfolding check_size apply_fn
  verify_leaf acc root leaf index accounts = do
    check_size acc.header
    (canopy, proof) ← fill_in_proof_from_canopy hashv acc.canopy acc.header.max_depth index accounts
    _ ←
        apply_fn acc
          (λ d s r. Api.prove_leaf d s hashv r root leaf proof index >>= λ n. done (n, r))
    done (record acc { canopy = canopy })

  unfoldable pub append : Account → ℕ → ℕ → Node → Checked (Account × ChangeLogEvent)
  unfolding check_size apply_fn store
  append acc authority append_authority leaf = do
    assert (acc.header.authority == authority)
    assert (acc.header.append_authority == append_authority)
    check_size acc.header
    changed ← apply_fn acc (λ d s r. Append.append d s hashv r leaf)
    store acc acc.canopy changed

  unfoldable pub insert_or_append :
      Account → ℕ → Node → Node → ℕ → List Node → Checked (Account × ChangeLogEvent)
  unfolding check_size apply_fn store
  insert_or_append acc authority root leaf index accounts = do
    assert (acc.header.authority == authority)
    check_size acc.header
    (canopy, proof) ← fill_in_proof_from_canopy hashv acc.canopy acc.header.max_depth index accounts
    changed ← apply_fn acc (λ d s r. Api.fill_empty_or_append d s hashv r root leaf proof index)
    store acc canopy changed

-- `Some` replaces an authority.
abbrev pub or_else : Option ℕ → ℕ → ℕ
or_else none old = old
or_else (some new) old = new

unfoldable pub transfer_authority : Account → ℕ → Option ℕ → Option ℕ → Checked Account
transfer_authority acc authority new_authority new_append_authority = do
  assert (acc.header.authority == authority)
  done (record acc {
    header = record acc.header {
      authority = or_else new_authority acc.header.authority;
      append_authority = or_else new_append_authority acc.header.append_authority;
    };
  })
