-- ===== src/Cmt/History.antt =====
-- The roll against the trees that it stands for: the current one and those of the last changes.
pub mod Window
pub mod Lengths
pub mod Written
pub mod Rightmost
pub mod Updated
pub mod Checked
pub mod Filled
pub mod SetLeaf
pub mod Initialized
pub mod AppendRounds
pub mod AppendLeaf
pub mod Appended
pub mod Calls
pub mod Reach
use candyland.Prelude.{
  max, ℕ, zero, suc, ◌+◌, ◌-◌, ◌^◌, ◌≤◌, ◌<◌, ◌≡◌, List, length, get_elem?, some, Option,
}
use candyland.Cmt.Node.{Node, empty}
use candyland.Cmt.ChangeLog.{ChangeLog, ProofPath}
use candyland.Cmt.ChangeLog.Patch.{log_of}
use candyland.Cmt.Ring.{place}
use candyland.Cmt.Roll.{MerkleRoll}
use candyland.Tree.{Leaves, replace, root_of, proof_of}

-- `past k` is the tree `k` changes ago, which the change `k` made by putting `value k` at `changed k`.
-- Leaves were written below `end`.
pub record History : Type 0 where
  pub past : ℕ → Leaves
  pub changed : ℕ → ℕ
  pub value : ℕ → Node
  pub end : ℕ

-- One more change.
unfoldable pub advance : ℕ → Node → History → History
advance j v h = record {
  past = elim [ zero ↦ replace j v (h.past 0) | suc k ↦ h.past k ];
  changed = elim [ zero ↦ j | suc k ↦ h.changed k ];
  value = elim [ zero ↦ v | suc k ↦ h.value k ];
  end = max h.end (j + 1);
}

module _ (hashv : Node → Node → Node) (depth : ℕ) where
  -- The rightmost leaf and its proof are those of the tree, and no leaf stands right of it. A full
  -- tree's rightmost proof is not kept up to date.
  pub record IsRightmost (f : Leaves) (p : ProofPath) : Type 0 where
    pub bounded : p.index ≤ 2 ^ depth
    pub vacant : (m : ℕ) → p.index ≤ m → f m ≡ empty
    pub first_proof : p.index ≡ 0 → p.proof ≡ proof_of hashv depth f 0
    pub proof : (n : ℕ) → p.index ≡ suc n → p.index < 2 ^ depth → p.proof ≡ proof_of hashv depth f n
    pub leaf : (n : ℕ) → p.index ≡ suc n → p.index < 2 ^ depth → p.leaf ≡ f n

module _ (hashv : Node → Node → Node) (depth b : ℕ) where
  abbrev pub log_back : MerkleRoll → ℕ → Option ChangeLog
  log_back r k = get_elem? r.change_logs (place (2 ^ b) r.active_index k)

  -- The logs that the roll keeps, `buffer_size` of them, tell the history: each is that of the change
  -- after which its tree stood.
  pub record Tells (r : MerkleRoll) (h : History) : Type 0 where
    pub active : r.active_index < 2 ^ b
    pub some_logs : 1 ≤ r.buffer_size
    pub no_more_logs : r.buffer_size ≤ 2 ^ b
    pub ring : length r.change_logs ≡ 2 ^ b
    pub paths :
        (i : ℕ)
        → i < 2 ^ b
        → (log : ChangeLog) × (get_elem? r.change_logs i ≡ some log) × (length log.path ≡ depth)
    pub logs :
        (k : ℕ)
        → k < r.buffer_size
        → log_back r k ≡ some (log_of hashv depth (h.past k) (h.changed k))
    pub changes :
        (k : ℕ)
        → suc k < r.buffer_size
        → h.past k ≡ replace (h.changed k) (h.value k) (h.past (suc k))
    pub inside : (k : ℕ) → suc k < r.buffer_size → h.changed k < 2 ^ depth

  pub record IsRollOf (r : MerkleRoll) (h : History) : Type 0 where
    pub tells : Tells r h
    pub rightmost : IsRightmost hashv depth (h.past 0) r.rightmost_proof
    pub ends : r.rightmost_proof.index ≡ h.end
