-- ===== src/Lib.antt =====
-- Candyland: compressed NFTs on Solana. Their state is a Merkle tree of which the chain keeps only
-- the root, the last changes and the proof of the rightmost leaf, so that calls with proofs of an
-- older tree still succeed.
--
-- The program's parts. lib/concurrent-merkle-tree is that tree; contracts/programs/gummyroll keeps
-- one per account and calls it; bubblegum, gumball-machine and sugar-shack build on gummyroll.
-- Here stand lib/concurrent-merkle-tree, whose files are named as they stand in it, gummyroll,
-- bubblegum, which keeps an asset in each leaf, gumball-machine, which mints assets, and sugar-shack,
-- which sells them:
--
--   Prelude        names of the libraries, tests, lists, shifts, bits, leading zeros, and `Outcome`:
--                  a result, an error value, a panic, or a loop that ran out of fuel
--   Tree           the specification: a tree is a function from a leaf's index to the leaf, with its
--                  nodes, root, proofs and paths; Tree/Digits and Tree/Change: what a change of one
--                  leaf does to them
--   Cmt/Node       `Node`, `EMPTY` (src/state.rs), `CMTError` (src/error.rs)
--   Cmt/Utils      src/utils.rs: hash_to_parent, recompute, empty_node, fill_in_proof
--   Cmt/ChangeLog  src/state.rs: ChangeLog and Path (`ProofPath` here)
--   Cmt/Roll, Cmt/Apply, Cmt/Append, Cmt/Api
--                  src/merkle_roll.rs: MerkleRoll; the search of the buffer, check_valid_leaf and
--                  try_apply_proof; append; the public methods
--   Cmt/Ring       arithmetic of places in the ring of change logs
--   Cmt/History    the roll against the specification: `IsRollOf` relates a roll to the trees that its
--                  buffer tells of; a file per method or step
--   Cmt/Tests      runs on a small tree, and the theorems at them
--   Gummyroll/Event, Gummyroll/Canopy, Gummyroll/Program
--                  contracts/programs/gummyroll/src/state/mod.rs: PathNode, ChangeLogEvent and the
--                  header; src/lib.rs: the canopy, the macros and the instructions
--   Gummyroll/Canopy/Rows, /Updated, /Filled
--                  `IsCanopy`: the canopy against the tree, when it is updated and when it completes a
--                  proof
--   Gummyroll/Program/Store, /Kept, /Inserted, /Header, /Initialized, /Tests
--                  `IsAccountOf`: roll and canopy are those of one tree
--   Bubblegum/Metadata, Bubblegum/Schema, Bubblegum/Program, Bubblegum/Redeem, Bubblegum/Decompress,
--   Bubblegum/Instruction
--                  contracts/programs/bubblegum/src/state: the metadata, the leaf and the voucher;
--                  src/utils.rs and src/lib.rs: the instructions, which call gummyroll
--   Bubblegum/Ledger
--                  the specification: a ledger of assets, each in the tree, in a voucher or in
--                  neither, and the moves between these; `IsSlab` relates a tree's accounts to it.
--                  Ledger/Moves: what each instruction is meant to do to it; a file per group of
--                  instructions; Ledger/Calls: sequences of them
--   Bubblegum/Tests
--                  runs
--   Gumball/State, Gumball/Metadata, Gumball/Dispense, Gumball/Manage
--                  contracts/programs/gumball-machine/src/state/mod.rs, src/utils.rs and src/lib.rs:
--                  the header, an item's metadata, the sales and the authority's instructions
--   Gumball/Shuffle, Gumball/Sold, Gumball/Paid, Gumball/Sales
--                  the indices as a permutation of the items, of which the sold ones stand behind the
--                  remaining ones; one sale, and any sequence of sales
--   Gumball/Invariant, Gumball/Steps, Gumball/Life, Gumball/Chunks, Gumball/Tests
--                  `IsMachine`, which every instruction keeps; the writing of the indices; runs
--   Gumball/Stuck, Gumball/Stays
--                  the items against bubblegum's decompress_v1, and under any of its calls
--   SugarShack/Market, SugarShack/Bought, SugarShack/Withdrawn, SugarShack/Tests
--                  contracts/programs/sugar-shack/src/state/mod.rs and src/lib.rs: the instructions of
--                  the marketplace; a purchase, a withdrawal; runs
--
-- State is passed: a method that changes `self` returns the new roll beside its result. Numbers are
-- natural numbers; words wrap or are checked where the code's do: the mask of the ring's indices,
-- wrapping_sub on 64 bits, the shift of 32 bits in update_proof_or_leaf, the saturating sequence
-- number. Arithmetic that underflows or overflows panics, as with the overflow checks that the
-- programs' Cargo.toml files ask for. A panic or an error ends a transaction, so its writes are lost.
--
-- Bounds and fuel. The depth is at least 1 and below 31, as check_bounds asks; the buffer has 2 ^ b
-- places. The loop of fast_forward_proof has one round of fuel per place of the buffer and one
-- more, since it goes round the ring once. Indices of leaves in the
-- theorems are below 2 ^ depth. The loop over the canopy halves a number of 32 bits: 33 rounds.
--
-- Parameters. `hashv` is keccak over two nodes, of the crate solana_program. A node is the number
-- that its 32 bytes spell; no size is asked of it. What says that only the tree's leaves and proofs
-- are accepted takes `hashv` to have no collisions (`IsCollisionFree`), which stands for keccak's
-- collision resistance.
--
-- bubblegum's other hashes and its derived addresses are the record `Hashes`; that leaves tell assets
-- apart takes the hash of a leaf to be injective and never zero. The calls of decompress_v1 to the
-- system, token and metadata programs are the parameter `invoke`. gumball-machine's hash that chooses
-- an item, base 58, the clock and the keys of programs are the record `Env`. sugar-shack's checked
-- arithmetic, of the crate solana_safe_math, the transfer of lamports and the rent are the record
-- `Runtime`; `IsSafe` says that this arithmetic gives exact results or fails.
--
-- The canopy marks a node that it does not hold by zero, so its theorems take no hash to be zero.
--
-- Not modelled: the logging macros, the padding of the records, and the casts between accounts' bytes
-- and records, which are a library's; the call of candy_wrapper, a program without effect, for which
-- the events are returned; the creation and closing of accounts by the framework beyond whether they
-- exist; the transfers that pay, which are returned. The archived accumulators, and the services and
-- their database stand apart from the programs.
pub mod Prelude
pub mod Tree
pub mod Cmt
pub mod Gummyroll
pub mod Bubblegum
pub mod Gumball
pub mod SugarShack
