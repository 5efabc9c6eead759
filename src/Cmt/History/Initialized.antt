-- ===== src/Cmt/History/Initialized.antt =====
-- A new roll tells the history of the tree with no leaves.
use candyland.Prelude.{
  ap, ℕ, zero, suc, ◌^◌, ◌≤◌, ◌<◌, ◌≡◌, refl, sym, ◌∙◌, arith, pow_pos, List, length, length-set,
  length-replicate, length-tabulate_from, get_elem?, get_elem?-set_self, get_elem?-set_ne, set,
  replicate, tabulate_from_ext, some, done, inl, inr, eq_or_ne, shr,
}
use candyland.Cmt.Node.{Node, empty}
use candyland.Cmt.Utils.{empty_node_cached, empty_node}
use candyland.Cmt.Utils.Recompute.{empty_node_lem, empty_node_cached_lem, replicate-IsCache}
use candyland.Cmt.ChangeLog
use candyland.Cmt.ChangeLog.{ChangeLog}
use candyland.Cmt.ChangeLog.Patch.{log_of}
use candyland.Cmt.Ring.{place, place-zero}
use candyland.Cmt.Roll.{MerkleRoll, new, log_at}
use candyland.Cmt.Api.{empty_levels, initialize}
use candyland.Cmt.History.{History, IsRollOf}
use candyland.Cmt.History.Filled.{check_bounds_lem}
use candyland.Tree.{no_leaves, sibling, node_at, root_of, proof_of}

unfoldable pub beginning : History
beginning = record { past = λ _. no_leaves; changed = λ _. 0; value = λ _. empty; end = 0 }

get_elem?-replicate : (n i : ℕ) (log : ChangeLog) → i < n → get_elem? (replicate n log) i ≡ some log
get_elem?-replicate zero i log lt = absurd (omega arith)
get_elem?-replicate (suc n) zero log lt = refl
get_elem?-replicate (suc n) (suc i) log lt = get_elem?-replicate n i log (omega arith)

module _ (hashv : Node → Node → Node) (depth b : ℕ) where
  empty_levels_lem : empty_levels depth (2 ^ b) hashv ≡ proof_of hashv depth no_leaves 0
  unfolding empty_levels
  empty_levels_lem = tabulate_from_ext 0 depth _ _ λ level _ _.
      empty_node_cached_lem hashv level _ (replicate-IsCache hashv depth)
      ∙ empty_node_lem hashv level (sibling (shr 0 level))

  abbrev fresh_log : ChangeLog
  fresh_log = ChangeLog.default depth

  abbrev first : ChangeLog
  first = record fresh_log {
    root = empty_node hashv depth;
    path = empty_levels depth (2 ^ b) hashv;
  }

  abbrev logs : List ChangeLog
  logs = set (replicate (2 ^ b) fresh_log) 0 first

  logs-zero : get_elem? logs 0 ≡ some first
  logs-zero =
      get_elem?-set_self (replicate (2 ^ b) fresh_log) 0 first
        (rw (length-replicate (2 ^ b) fresh_log) (pow_pos b))

  -- The first log is that of a change of leaf 0 to what it was.
  first_lem : first ≡ log_of hashv depth no_leaves 0
  unfolding empty_levels ChangeLog.default
  first_lem i = record {
    root = empty_node_lem hashv depth 0 i;
    path =
        tabulate_from_ext 0 depth (λ level. empty_node_cached hashv level (replicate depth empty))
          (λ level. node_at hashv no_leaves level (shr 0 level))
          (λ level _ _.
            empty_node_cached_lem hashv level _ (replicate-IsCache hashv depth)
            ∙ empty_node_lem hashv level (shr 0 level))
          i;
    index = 0;
  }

  newest : (k : ℕ) → k ≡ 0 → get_elem? logs (place (2 ^ b) 0 k) ≡ some first
  newest k e = rw (e, place-zero (2 ^ b) 0 (pow_pos b)) logs-zero

  paths' :
      (i : ℕ)
      → i < 2 ^ b
      → (log : ChangeLog) × (get_elem? logs i ≡ some log) × (length log.path ≡ depth)
  unfolding ChangeLog.default empty_levels
  paths' i lt = elim (eq_or_ne i 0) [
    | inl e ↦ (first, rw e logs-zero, length-tabulate_from 0 depth _)
    | inr ne ↦ (
      fresh_log,
      get_elem?-set_ne (replicate (2 ^ b) fresh_log) 0 i first (λ e. ne (sym e))
          ∙ get_elem?-replicate (2 ^ b) i fresh_log lt,
      length-replicate depth empty,
    )
  ]

  unfoldable pub initialized : MerkleRoll
  unfolding empty_levels
  initialized = record {
    sequence_number = 0;
    active_index = 0;
    buffer_size = 1;
    change_logs = logs;
    rightmost_proof = record { proof = empty_levels depth (2 ^ b) hashv; leaf = empty; index = 0 };
  }

  -- For a depth below 31 and a buffer of 2 ^ b places, `initialize` on a new roll gives the root
  -- of the tree with no leaves, and a roll that tells the history of that tree alone.
  pub initialize_lem :
      (shallow : depth < 31) (words : b ≤ 32)
      → (initialize depth (2 ^ b) hashv (new depth (2 ^ b))
          ≡ done (root_of hashv depth no_leaves, initialized))
        × IsRollOf hashv depth b initialized beginning
  unfolding initialize initialized new beginning log_at
  initialize_lem shallow words = (
    rw
        (
          check_bounds_lem depth b shallow,
          get_elem?-replicate (2 ^ b) 0 fresh_log (pow_pos b),
          ← empty_node_lem hashv depth 0,
        )
        refl,
    record {
      tells = record {
        active = pow_pos b;
        some_logs = omega arith;
        no_more_logs = pow_pos b;
        ring =
            length-set (replicate (2 ^ b) fresh_log) 0 first ∙ length-replicate (2 ^ b) fresh_log;
        paths = paths';
        logs = λ k lt. newest k (omega arith) ∙ ap some first_lem;
        changes = λ k lt. absurd (omega arith);
        inside = λ k lt. absurd (omega arith);
      };
      rightmost = record {
        bounded = omega arith;
        vacant = λ m le. refl;
        first_proof = λ e. empty_levels_lem;
        proof = λ n e. absurd (omega arith);
        leaf = λ n e. absurd (omega arith);
      };
      ends = refl;
    },
  )
