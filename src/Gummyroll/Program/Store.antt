-- ===== src/Gummyroll/Program/Store.antt =====
-- An applied change is stored: roll, canopy and event.
use candyland.Prelude.{
  ℕ, ◌^◌, ◌≤◌, ◌<◌, ◌≡◌, ◌≢◌, refl, sym, ap, subst, ◌∙◌, arith, Bool, true, false, List, done, err,
  panic, diverge, done-injective, >>=-eq-done, assert, ◌>>=◌,
}
use candyland.Cmt.Node.{Node, empty, Result}
use candyland.Cmt.Utils.Sound.{IsCollisionFree}
use candyland.Cmt.ChangeLog.{ChangeLog}
use candyland.Cmt.ChangeLog.Patch.{log_of}
use candyland.Cmt.Roll.{MerkleRoll, get_change_log}
use candyland.Cmt.History.{History, IsRollOf, advance}
use candyland.Cmt.History.Checked.{current_log}
use candyland.Gummyroll.Event.{ChangeLogEvent, from_log}
use candyland.Gummyroll.Canopy.{Checked}
use candyland.Gummyroll.Canopy.Rows.{IsCanopy}
use candyland.Gummyroll.Canopy.Updated.{update_canopy_lem}
use candyland.Gummyroll.Program.{Account, lift, check_size, apply_fn, store}
use candyland.Tree.{replace}

-- The roll tells the history, and the canopy holds the `p` rows below the root of its tree.
pub record IsAccountOf (hashv : Node → Node → Node) (b p : ℕ) (acc : Account) (h : History)
    : Type 0 where
  pub sized : acc.header.max_buffer_size ≡ 2 ^ b
  pub words : b ≤ 32
  pub pos : 1 ≤ acc.header.max_depth
  pub shallow : acc.header.max_depth < 31
  pub held : p ≤ acc.header.max_depth
  pub whole : acc.canopy.spare ≡ 0
  pub rolls : IsRollOf hashv acc.header.max_depth b acc.roll h
  pub rows : IsCanopy hashv acc.header.max_depth p (h.past 0) acc.canopy.nodes

lift-eq-done : {A : Type 0} (m : Result A) {a : A} → lift m ≡ done a → m ≡ done a
unfolding lift
lift-eq-done (done x) e = ap done (done-injective e)
lift-eq-done (err x) e = cc
lift-eq-done panic e = cc
lift-eq-done diverge e = cc

module _ (acc : Account) (func : ℕ → ℕ → MerkleRoll → Result (Node × MerkleRoll)) where
  abbrev d : ℕ
  d = acc.header.max_depth

  abbrev size : ℕ
  size = acc.header.max_buffer_size

  abbrev emit : MerkleRoll → ChangeLog → Checked (MerkleRoll × ChangeLogEvent)
  emit roll log = done (roll, from_log log acc.id roll.sequence_number)

  abbrev log_of_roll : Node × MerkleRoll → Checked (MerkleRoll × ChangeLogEvent)
  log_of_roll (_, roll) = lift (get_change_log d size roll) >>= emit roll

  abbrev run : Unit {0} → Checked (MerkleRoll × ChangeLogEvent)
  run _ = lift (func d size acc.roll) >>= log_of_roll

  -- What was applied returned, and the event is that of the current log.
  pub apply_fn-eq-done :
      {changed : MerkleRoll × ChangeLogEvent}
      → apply_fn acc func ≡ done changed
      → (root : Node) × (log : ChangeLog) × (func d size acc.roll ≡ done (root, changed.0))
        × (get_change_log d size changed.0 ≡ done log)
        × (changed.1 ≡ from_log log acc.id changed.0.sequence_number)
  unfolding apply_fn
  apply_fn-eq-done {changed} e =
      let (_, _, e1) = >>=-eq-done (check_size acc.header) run e in
      let (returned, made, e2) = >>=-eq-done (lift (func d size acc.roll)) log_of_roll e1 in
      let (log, current, e3) =
        >>=-eq-done (lift (get_change_log d size returned.1)) (emit returned.1) e2 in
      subst
        (λ c.
          (root : Node) × (log : ChangeLog) × (func d size acc.roll ≡ done (root, c.0))
          × (get_change_log d size c.0 ≡ done log)
          × (c.1 ≡ from_log log acc.id c.0.sequence_number))
        (done-injective e3) (returned.0, log, lift-eq-done _ made, lift-eq-done _ current, refl)

module _ (hashv : Node → Node → Node) (free : IsCollisionFree hashv)
    (nonzero : (a b : Node) → hashv a b ≢ empty) (b p : ℕ) (acc : Account) (h : History)
    (ok : IsAccountOf hashv b p acc h) where
  abbrev depth : ℕ
  depth = acc.header.max_depth

  -- What an account comes to when leaf `j` was changed to `v`.
  abbrev IsStored : ℕ → Node → MerkleRoll × ChangeLogEvent → Account × ChangeLogEvent → Type 0
  IsStored j v (roll, event) (acc', event') =
      IsAccountOf hashv b p acc' (advance j v h)
      × (acc'.roll ≡ roll)
      × (event'
          ≡ from_log (log_of hashv depth (replace j v (h.past 0)) j) acc.id roll.sequence_number)

  store_lem :
      (j : ℕ) (v : Node) (nodes : List Node) (changed : MerkleRoll × ChangeLogEvent)
      (log : ChangeLog)
      → j < 2 ^ depth
      → IsCanopy hashv depth p (h.past 0) nodes
      → IsRollOf hashv depth b changed.0 (advance j v h)
      → get_change_log depth acc.header.max_buffer_size changed.0 ≡ done log
      → changed.1 ≡ from_log log acc.id changed.0.sequence_number
      → (out : Account × ChangeLogEvent) × (store acc (record acc.canopy { nodes = nodes }) changed
          ≡ done out)
        × IsStored j v changed out
  unfolding store advance
  store_lem j v nodes (roll, event) log pj rows rolls current emitted =
      let (nodes', made, rows') =
        update_canopy_lem hashv depth p ok.held (h.past 0) j v pj
          (record acc.canopy { nodes = nodes }) acc.id roll.sequence_number
          (omega (arith, ok.held, ok.shallow)) ok.whole rows in
      (
        (
          record acc { roll = roll; canopy = record acc.canopy { nodes = nodes' } },
          from_log own acc.id roll.sequence_number,
        ),
        ap (λ (e : ChangeLogEvent). store acc (record acc.canopy { nodes = nodes }) (roll, e))
              own_event
            ∙ rw made refl,
        (
          record {
            sized = ok.sized;
            words = ok.words;
            pos = ok.pos;
            shallow = ok.shallow;
            held = ok.held;
            whole = ok.whole;
            rolls = rolls;
            rows = rows';
          },
          refl,
          refl,
        ),
      )
    where
      own : ChangeLog
      own = log_of hashv depth (replace j v (h.past 0)) j

      is_own : log ≡ own
      is_own = done-injective (
          sym (ap (λ (s : ℕ). get_change_log depth s roll) (sym ok.sized) ∙ current)
          ∙ current_log hashv free depth b roll (advance j v h) rolls.tells j pj)

      own_event : event ≡ from_log own acc.id roll.sequence_number
      own_event = emitted ∙ ap (λ (l : ChangeLog). from_log l acc.id roll.sequence_number) is_own

  -- A canopy of the tree and what is returned after an applied change.
  pub stored :
      (func : ℕ → ℕ → MerkleRoll → Result (Node × MerkleRoll)) (Q : Type 0) (j : ℕ) (v : Node)
      (nodes : List Node) {out : Account × ChangeLogEvent}
      → j < 2 ^ depth
      → IsCanopy hashv depth p (h.past 0) nodes
      → ((changed : Node × MerkleRoll)
          → func depth (2 ^ b) acc.roll ≡ done changed
          → Q × IsRollOf hashv depth b changed.1 (advance j v h))
      → (apply_fn acc func >>= store acc (record acc.canopy { nodes = nodes })) ≡ done out
      → Q
        × IsAccountOf hashv b p out.0 (advance j v h)
        × (out.1
            ≡ from_log
                (log_of hashv depth (replace j v (h.past 0)) j)
                acc.id
                out.0.roll.sequence_number)
  stored func Q j v nodes {out} pj rows sound e =
      let (changed, applied, e') =
        >>=-eq-done (apply_fn acc func) (store acc (record acc.canopy { nodes = nodes })) e in
      let (root, log, made, current, emitted) = apply_fn-eq-done acc func applied in
      let (fact, rolls) =
        sound (root, changed.0) (ap (λ (s : ℕ). func depth s acc.roll) (sym ok.sized) ∙ made) in
      let (out', stores, (kept, same, event)) =
        store_lem j v nodes changed log pj rows rolls current emitted in
      subst
        (λ o.
          Q
          × IsAccountOf hashv b p o.0 (advance j v h)
          × (o.1
              ≡ from_log (log_of hashv depth (replace j v (h.past 0)) j) acc.id
                  o.0.roll.sequence_number))
        (done-injective (sym stores ∙ e'))
        (
          fact,
          kept,
          event
              ∙ ap
                  (λ (r : MerkleRoll).
                    from_log (log_of hashv depth (replace j v (h.past 0)) j) acc.id
                      r.sequence_number)
                  (sym same),
        )

  pub assert-eq-done :
      (t : Bool) {u : Unit {0}} → ◌≡◌ {A = Checked (Unit {0})} (assert t) (done u) → t ≡ true
  assert-eq-done true e = refl
  assert-eq-done false e = cc
