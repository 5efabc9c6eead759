-- ===== src/Cmt/History/Lengths.antt =====
-- The fast-forward keeps a proof's length, whatever the proof and the logs hold.
use candyland.Prelude.{
  ℕ, zero, suc, ◌+◌, ◌-◌, ◌*◌, ◌%◌, ◌^◌, ◌≡◌, refl, Bool, true, false, not, ◌&&◌, ltb, ◌==◌,
  if◌then◌else◌, bit_and, bit_xor, leading_zeros, List, get_or, set, length, length-set, done, err,
  panic, diverge, ◌>>=◌,
}
use candyland.Cmt.Node.{Node, empty, Result}
use candyland.Cmt.ChangeLog.{ChangeLog, get_leaf, update_proof_or_leaf}
use candyland.Cmt.Roll.{MerkleRoll, fast_forward}

-- A result that is a proof of length `n`, if it is one.
abbrev pub HasLength : ℕ → Result (List Node × Node) → Type 0
HasLength n (done (proof, leaf)) = length proof ≡ n
HasLength n (err e) = Unit
HasLength n panic = Unit
HasLength n diverge = Unit

HasLength-if :
    (n : ℕ) (c : Bool) (x y : Result (List Node × Node))
    → HasLength n x
    → HasLength n y
    → HasLength n (if c then x else y)
HasLength-if n true x y p q = p
HasLength-if n false x y p q = q

HasLength-own :
    (n : ℕ) (own : Result Node) (proof : List Node)
    → length proof ≡ n
    → HasLength n (own >>= λ l. done (proof, l))
HasLength-own n (done l) proof e = e
HasLength-own n (err x) proof e = tt
HasLength-own n panic proof e = tt
HasLength-own n diverge proof e = tt

update-HasLength :
    (depth : ℕ) (log : ChangeLog) (i : ℕ) (proof : List Node) (leaf : Node)
    → HasLength (length proof) (update_proof_or_leaf depth log i proof leaf)
unfolding update_proof_or_leaf
update-HasLength depth log i proof leaf =
    let zeros = leading_zeros 32 (bit_xor i log.index * 2 ^ (32 - depth) % 2 ^ 32) in
    let crit = depth - 1 - zeros in
    let value = get_or log.path crit empty in
    HasLength-if (length proof) (i == log.index) _ _
      (HasLength-own (length proof) (get_leaf log) proof refl)
      (HasLength-if (length proof) (ltb (depth - 1) zeros) panic (done (set proof crit value, leaf))
        tt (length-set proof crit value))

HasLength-bind :
    (n : ℕ) (m : Result (List Node × Node)) (f : List Node × Node → Result (List Node × Node))
    → HasLength n m
    → ((p : List Node) (l : Node) → length p ≡ n → HasLength n (f (p, l)))
    → HasLength n (m >>= f)
HasLength-bind n (done (p, l)) f h k = k p l h
HasLength-bind n (err x) f h k = tt
HasLength-bind n panic f h k = tt
HasLength-bind n diverge f h k = tt

HasLength-log :
    (n : ℕ) (m : Result ChangeLog) (f : ChangeLog → Result (List Node × Node))
    → ((log : ChangeLog) → HasLength n (f log))
    → HasLength n (m >>= f)
HasLength-log n (done log) f k = k log
HasLength-log n (err x) f k = tt
HasLength-log n panic f k = tt
HasLength-log n diverge f k = tt

pub fast_forward-HasLength :
    (depth size fuel : ℕ) (r : MerkleRoll) (i : ℕ) (full : Bool) (start : ℕ) (proof : List Node)
    (leaf : Node)
    → HasLength (length proof) (fast_forward depth size fuel r i full start proof leaf)
unfolding fast_forward
fast_forward-HasLength depth size zero r i full start proof leaf = tt
fast_forward-HasLength depth size (suc fuel) r i full start proof leaf =
    let n = length proof in
    let j = bit_and (start + 1) (size - 1) in
    HasLength-if n (not full && start == r.active_index) (done (proof, leaf)) _ refl (
      HasLength-log n _ _ λ log.
        HasLength-bind n _ _ (update-HasLength depth log i proof leaf) λ p l e.
          HasLength-if n (full && j == r.active_index) (done (p, l)) _ e
            (rw (← e) (fast_forward-HasLength depth size fuel r i full j p l)))
