-- ===== src/Cmt/History/Written.antt =====
-- Writing the log of one more change moves the history on by that change.
use candyland.Prelude.{
  ℕ, zero, suc, ◌+◌, ◌%◌, ◌^◌, ◌≤◌, ◌<◌, ◌≡◌, refl, sym, ap, ◌∙◌, arith, bit_and_mask, length,
  length-set, get_elem?, get_elem?-set_self, get_elem?-set_ne, set, some, inl, inr, eq_or_ne,
}
use candyland.Cmt.Node.{Node}
use candyland.Cmt.ChangeLog.{ChangeLog, ProofPath}
use candyland.Cmt.ChangeLog.Patch.{log_of, length-path_of}
use candyland.Cmt.Ring.{place, place-zero, place_ne, place-move, next-lt}
use candyland.Cmt.Roll.{MerkleRoll}
use candyland.Cmt.Apply.{update_internal_counters}
use candyland.Cmt.History.{History, Tells, advance, log_back}
use candyland.Tree.{replace}

module _ (hashv : Node → Node → Node) (depth b : ℕ) (r : MerkleRoll) (h : History)
    (t : Tells hashv depth b r h) (j : ℕ) (v : Node) where
  abbrev size : ℕ
  size = 2 ^ b

  abbrev next : ℕ
  next = (update_internal_counters depth size r).active_index

  abbrev pub own_log : ChangeLog
  own_log = log_of hashv depth (replace j v (h.past 0)) j

  -- The roll with the log of the change in its next place, and any rightmost proof.
  abbrev pub written : ProofPath → MerkleRoll
  written p = record (update_internal_counters depth size r) {
    change_logs = set r.change_logs next own_log;
    rightmost_proof = p;
  }

  pub next_lem : next ≡ (r.active_index + 1) % size
  unfolding update_internal_counters
  next_lem = bit_and_mask b (r.active_index + 1)

  pub next_inside : next < size
  next_inside = rw next_lem (next-lt size r.active_index t.active)

  next-place : place size next 0 ≡ next
  next-place = place-zero size next next_inside

  -- The new log stands zero changes back.
  newest : (p : ProofPath) → log_back hashv depth b (written p) 0 ≡ some own_log
  newest p = rw next-place (get_elem?-set_self r.change_logs next own_log (rw t.ring next_inside))

  -- What stood `k` changes back stands one further.
  older :
      (p : ProofPath) (k : ℕ)
      → suc k < size
      → log_back hashv depth b (written p) (suc k) ≡ log_back hashv depth b r k
  older p k lt =
      get_elem?-set_ne r.change_logs next (place size next (suc k)) own_log (λ e.
        place_ne size next next_inside (suc k) 0 lt (omega arith) (omega arith)
          (sym e ∙ sym next-place))
      ∙ ap (λ (i : ℕ). get_elem? r.change_logs i)
          (ap (λ (a : ℕ). place size a (suc k)) next_lem
            ∙ place-move size r.active_index t.active k lt)

  abbrev kept : ℕ
  kept = (update_internal_counters depth size r).buffer_size

  kept_bounds : (kept ≤ r.buffer_size + 1) × (kept ≤ size) × (1 ≤ kept)
  unfolding update_internal_counters
  kept_bounds = ground (arith, t.no_more_logs, t.some_logs)

  paths' :
      (i : ℕ)
      → i < size
      → (log : ChangeLog) × (get_elem? (set r.change_logs next own_log) i ≡ some log)
        × (length log.path ≡ depth)
  paths' i lt = elim (eq_or_ne next i) [
    | inl e ↦ (
      own_log,
      rw (← e) (get_elem?-set_self r.change_logs next own_log (rw t.ring next_inside)),
      length-path_of hashv depth (replace j v (h.past 0)) j,
    )
    | inr ne ↦
        let (log, here, len) = t.paths i lt in
        (log, get_elem?-set_ne r.change_logs next i own_log ne ∙ here, len)
  ]

  pub Tells-advance :
      (p : ProofPath) → j < 2 ^ depth → Tells hashv depth b (written p) (advance j v h)
  unfolding advance
  Tells-advance p pj = record {
    active = next_inside;
    some_logs = kept_bounds.2;
    no_more_logs = kept_bounds.1;
    ring = length-set r.change_logs next own_log ∙ t.ring;
    paths = paths';
    logs = elim [
      | zero ↦ λ lt. newest p
      | suc k ↦
          λ lt. older p k (omega (arith, kept_bounds.1)) ∙ t.logs k (omega (arith, kept_bounds.0))
    ];
    changes = elim [ zero ↦ λ lt. refl | suc k ↦ λ lt. t.changes k (omega (arith, kept_bounds.0)) ];
    inside = elim [ zero ↦ λ lt. pj | suc k ↦ λ lt. t.inside k (omega (arith, kept_bounds.0)) ];
  }
